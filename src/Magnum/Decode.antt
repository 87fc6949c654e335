-- ===== src/Magnum/Decode.antt =====
-- The decoders of the inverter and of the remote in src/magnum/mag_decode.c. A read behind the end of a packet shows as `none`.
pub mod Replies
pub mod Dispatch
pub mod Reads
pub mod Bounds
pub mod Stack
pub mod Loyal
use moon_flare.Prelude.Int.{ℤ, pos, negsuc, less, scale, ◌+ℤ◌}
use moon_flare.Prelude.{
  ℕ, ◌+◌, ◌*◌, ◌/◌, ◌%◌, ◌^◌, List, [], ◌∷◌, Bool, true, false, ◌&&◌, ◌||◌, not, Option, none, some,
  length, Bytes, bit_and, ltb, leb, ◌==◌, if◌then◌else◌,
}
use moon_flare.Magnum.Tables.{multiplier}
use moon_flare.Magnum.Packet.{Kind, inv_len, remote_len}
use moon_flare.Magnum.Units.{◌>>=◌, byte, u16, s16, s8, delay_s, celsius}
use moon_flare.Magnum.State.{Inverter, Remote, Ags, Bmk, Router, Pt100, Acld, Tap}

-- `MAG_STACK_RELOCK_S`, in microseconds
abbrev pub relock_time : ℕ
relock_time = 5000000

-- No role is followed, or the one that is has been silent for too long.
unfoldable pub may_relock : Tap → ℕ → Bool
may_relock s now = not s.stack_locked || (s.inv.seen && ltb (s.inv.t + relock_time) now)

unfoldable pub relock : Tap → ℕ → ℕ → Tap
relock s role now =
    if may_relock s now then record s { stack_locked = true; stack_lock = role } else s

unfoldable pub inverter_fields : Bytes → ℕ → Option Inverter
inverter_fields p now = do
  mode ← byte p 0
  fault ← byte p 1
  dc_voltage ← s16 p 2
  dc_current ← s16 p 4
  ac_out_v ← byte p 6
  ac_in_v ← byte p 7
  invled ← byte p 8
  chgled ← byte p 9
  revision ← byte p 10
  bat_temp ← byte p 11
  tfmr_temp ← byte p 12
  fet_temp ← byte p 13
  model ← byte p 14
  stackmode ← byte p 15
  ac_in_a ← byte p 16
  ac_out_a ← byte p 17
  freq ← s16 p 18
  some (record {
    seen = true;
    t = now;
    mode = mode;
    fault = fault;
    dc_voltage = dc_voltage;
    dc_current = dc_current;
    ac_out_v = ac_out_v;
    ac_in_v = ac_in_v;
    ac_in_a = ac_in_a;
    ac_out_a = ac_out_a;
    invled = not (invled == 0);
    chgled = not (chgled == 0);
    revision = revision;
    bat_temp = bat_temp;
    tfmr_temp = tfmr_temp;
    fet_temp = fet_temp;
    model = model;
    stackmode = stackmode;
    freq = freq;
  })

-- The multiplier of a model, if the code is one of pymagnum's.
unfoldable pub learn_mult : Tap → Tap
learn_mult s = if leb s.inv.model 150 then record s { mult = multiplier s.inv.model } else s

unfoldable pub store_inverter : Tap → Option Inverter → Option (Tap × Bool)
store_inverter s none = none
store_inverter s (some v) = some (learn_mult (record s { inv = v }), true)

-- `decode_inverter`, after the role has been read.
unfoldable pub follow : Tap → Bytes → ℕ → ℕ → Option (Tap × Bool)
follow s p role now =
    if not (role == s.stack_lock)
    then some (record s { other_inverter_packets = (s.other_inverter_packets + 1) % 2 ^ 64 }, false)
    else store_inverter s (inverter_fields p now)

unfoldable pub decode_inverter : Tap → Bytes → ℕ → Option (Tap × Bool)
decode_inverter s p now = do role ← byte p 15; follow (relock s role now) p role now

-- `remote_base`
unfoldable pub remote_base : ℕ → Remote → Bytes → Option Remote
remote_base mult v p = do
  b1 ← byte p 1
  b3 ← byte p 3
  b4 ← byte p 4
  b5 ← byte p 5
  b6 ← byte p 6
  b7 ← byte p 7
  b9 ← byte p 9
  b10 ← byte p 10
  b11 ← byte p 11
  b12 ← byte p 12
  b13 ← byte p 13
  let absorb : ℕ = if ltb 100 b3 then b3 * mult else 0 in
      some (record v {
        search_w = b1;
        absorb_v = absorb;
        battery_type = if ltb 100 b3 then 0 else b3;
        charge_rate = b4;
        ac_input_a = s8 b5;
        revision = b6;
        parallel = bit_and b7 0x0f * 10;
        lbco_v = b9 * mult;
        ac_cutout_v = b10;
        float_v = b11 * mult;
        eq_v = absorb + b12;
        absorb_time = b13;
      })

unfoldable pub remote_80 : Remote → Bytes → Option Remote
remote_80 v p = do
  b2 ← byte p 2
  b14 ← byte p 14
  b15 ← byte p 15
  b16 ← byte p 16
  some (record v {
    have_80 = true;
    battery_size = b2 * 10;
    have_clock = true;
    clock_min = scale 60 (s8 b14) +ℤ s8 b15;
    battery_efficiency = s8 b16;
  })

unfoldable pub remote_a0 : ℕ → Remote → Bytes → Option Remote
remote_a0 mult v p = do
  b14 ← byte p 14
  b15 ← byte p 15
  b16 ← byte p 16
  b17 ← byte p 17
  b18 ← byte p 18
  b19 ← byte p 19
  some (record v {
    have_a0 = true;
    have_clock = true;
    clock_min = pos (b14 * 60 + b15);
    gen_run_time = b16;
    gen_start_temp = celsius (s8 b17);
    gen_start_v = b18 * mult;
    quiet_time = b19;
  })

unfoldable pub remote_a1 : ℕ → Remote → Bytes → Option Remote
remote_a1 mult v p = do
  b14 ← byte p 14
  b15 ← byte p 15
  b16 ← byte p 16
  b17 ← byte p 17
  b18 ← byte p 18
  b19 ← byte p 19
  some (record v {
    have_a1 = true;
    gen_start_time_min = b14 * 15;
    gen_stop_time_min = b15 * 15;
    gen_stop_v = b16 * mult;
    gen_volt_start_delay_s = delay_s b17;
    gen_volt_stop_delay_s = delay_s b18;
    gen_max_run = b19;
  })

unfoldable pub remote_a2 : Remote → Bytes → Option Remote
remote_a2 v p = do
  b14 ← byte p 14
  b15 ← byte p 15
  b16 ← byte p 16
  b17 ← byte p 17
  b18 ← byte p 18
  b19 ← byte p 19
  some (record v {
    have_a2 = true;
    gen_soc_start = s8 b14;
    gen_soc_stop = s8 b15;
    gen_amp_start_a = b16;
    gen_amp_start_delay_s = delay_s b17;
    gen_amp_stop_a = b18;
    gen_amp_stop_delay_s = delay_s b19;
  })

unfoldable pub remote_a3 : Remote → Bytes → Option Remote
remote_a3 v p = do
  b14 ← byte p 14
  b15 ← byte p 15
  b16 ← byte p 16
  b17 ← byte p 17
  b18 ← byte p 18
  some (record v {
    have_a3 = true;
    quiet_begin_min = b14 * 15;
    quiet_end_min = b15 * 15;
    exercise_start_min = b16 * 15;
    exercise_run_time = b17;
    gen_topoff = b18;
  })

unfoldable pub remote_a4 : Remote → Bytes → Option Remote
remote_a4 v p = do
  b14 ← byte p 14
  b15 ← byte p 15
  some (record v { have_a4 = true; gen_warmup_s = delay_s b14; gen_cooldown_s = delay_s b15 })

-- What the type in the last byte of a packet adds.
unfoldable pub remote_extra : ℕ → Remote → Bytes → ℕ → Option Remote
remote_extra mult v p type =
    if type == 0x80
    then remote_80 v p
    else if type == 0xa0
    then remote_a0 mult v p
    else if type == 0xa1
    then remote_a1 mult v p
    else if type == 0xa2
    then remote_a2 v p
    else if type == 0xa3
    then remote_a3 v p
    else if type == 0xa4
    then remote_a4 v p
    else some v

-- `decode_remote`
unfoldable pub decode_remote : Tap → Bytes → Option Remote
decode_remote s p = do
  v ← remote_base s.mult s.rem p
  type ← byte p 20
  remote_extra s.mult v p type
