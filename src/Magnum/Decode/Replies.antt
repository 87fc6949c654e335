-- ===== src/Magnum/Decode/Replies.antt =====
-- The decoders of the other devices on the bus in src/magnum/mag_decode.c.
use moon_flare.Prelude.Int.{ℤ, pos, less}
use moon_flare.Prelude.{
  ℕ, ◌*◌, ◌/◌, List, [], ◌∷◌, Bool, true, false, ◌||◌, not, Option, some, Bytes, bit_and, ◌==◌,
  if◌then◌else◌,
}
use moon_flare.Magnum.Units.{◌>>=◌, byte, u16, s16, s8, celsius}
use moon_flare.Magnum.State.{Ags, Bmk, Pt100}

abbrev is_one_of : ℕ → List ℕ → Bool
is_one_of n [] = false
is_one_of n (c ∷ cs) = n == c || is_one_of n cs

-- The states in which the generator runs.
unfoldable pub is_running : ℤ → Bool
is_running (pos n) = is_one_of n (3 ∷ 6 ∷ 7 ∷ 8 ∷ 12 ∷ 13 ∷ 14 ∷ 18 ∷ 19 ∷ 26 ∷ 27 ∷ [])
is_running (ℤ.negsuc n) = false

-- `decode_ags_a1`
unfoldable pub decode_ags_a1 : ℕ → Ags → Bytes → Option Ags
decode_ags_a1 mult v p = do
  b1 ← byte p 1
  b2 ← byte p 2
  b3 ← byte p 3
  b4 ← byte p 4
  b5 ← byte p 5
  some (record v {
    have_a1 = true;
    status = s8 b1;
    running = is_running (s8 b1);
    revision = b2;
    temp_valid = less (s8 b3) (pos 105);
    temp = if less (s8 b3) (pos 105) then celsius (s8 b3) else pos 0;
    run_time = b4;
    battery_voltage = b5 * mult;
  })

-- `decode_ags_a2`
unfoldable pub decode_ags_a2 : Ags → Bytes → Option Ags
decode_ags_a2 v p = do
  b1 ← byte p 1
  b2 ← byte p 2
  total ← u16 p 3
  some (record v { have_a2 = true; last_run = b1; last_full_soc = b2; total_run = total })

-- `decode_bmk`
unfoldable pub decode_bmk : Bmk → Bytes → Option Bmk
decode_bmk v p = do
  b1 ← byte p 1
  volts ← u16 p 2
  amps ← s16 p 4
  lowest ← u16 p 6
  highest ← u16 p 8
  net ← s16 p 10
  trip ← u16 p 12
  lifetime ← u16 p 14
  b16 ← byte p 16
  b17 ← byte p 17
  some (record v {
    soc = s8 b1;
    battery_voltage = volts;
    battery_current = amps;
    battery_voltage_min = lowest;
    battery_voltage_max = highest;
    net_ah = net;
    trip_ah = trip;
    lifetime_ah = lifetime * 100;
    revision = b16;
    fault = b17;
  })

-- `decode_pt_c1`
unfoldable pub decode_pt_c1 : ℕ → Pt100 → Bytes → Option Pt100
decode_pt_c1 mult v p = do
  b1 ← byte p 1
  b2 ← byte p 2
  b3 ← byte p 3
  volts ← u16 p 4
  amps ← s16 p 6
  pv ← u16 p 8
  b10 ← byte p 10
  b11 ← byte p 11
  b12 ← byte p 12
  b13 ← byte p 13
  b14 ← byte p 14
  b15 ← byte p 15
  some (record v {
    have_c1 = true;
    address = bit_and b1 0x07;
    mode = bit_and b2 0x0f;
    regulation = bit_and (b2 / 16) 0x0f;
    fault = b3 / 8;
    battery_voltage = volts;
    battery_current = amps;
    pv_voltage = pv;
    charge_time = b10;
    target_voltage = b11 * mult;
    relay_on = bit_and b12 1;
    alarm_on = bit_and (b12 / 2) 1;
    fan_on = bit_and (b12 / 8) 1;
    is_day = bit_and (b12 / 16) 1;
    bat_temp_valid = not (b13 == 0x97 || b13 == 0x98);
    bat_temp = b13;
    inductor_temp = b14;
    fet_temp = b15;
  })

-- `decode_pt_c2`
unfoldable pub decode_pt_c2 : Pt100 → Bytes → Option Pt100
decode_pt_c2 v p = do
  b7 ← byte p 7
  kwh ← u16 p 2
  reset ← u16 p 4
  b6 ← byte p 6
  b8 ← byte p 8
  b9 ← byte p 9
  b10 ← byte p 10
  b11 ← byte p 11
  some (record v {
    have_c2 = true;
    lifetime_kwh = kwh * 10;
    resettable_kwh = reset;
    ground_fault_current = b6;
    stacker_info = b7 / 4;
    nominal_voltage = if bit_and b7 3 == 0 then 12 else bit_and b7 3 * 24;
    dip_switches = b8;
    revision = b9;
    output_current_rating = b10;
    input_voltage_rating = b11 * 10;
  })
