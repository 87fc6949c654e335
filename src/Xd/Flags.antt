-- ===== src/Xd/Flags.antt =====
-- `BMS_FLAGS` and `bms_flag_set` of src/xd/bms_proto.c: status bits by their names.
pub mod Names
use Prim.Native.String.{String}
use text.Mathlib.Text.{◌==◌ as str_eq}
use moon_flare.Prelude.{
  ℕ, List, [], ◌∷◌, Bool, true, false, not, Option, none, some, get_or, bit_and, Bytes, ◌==◌,
  if◌then◌else◌,
}

-- `bms_flag_t`
pub record Flag : Type 0 where
  pub byte_idx : ℕ
  pub mask : ℕ
  pub name : String

abbrev flag : ℕ → ℕ → String → Flag
flag byte_idx mask name = record { byte_idx = byte_idx; mask = mask; name = name }

-- `BMS_FLAGS`
abbrev pub flags : List Flag
flags =
    flag 0 0x08 "cell_vol_low_fault"
    ∷ flag 0 0x10 "vol_line_break"
    ∷ flag 0 0x20 "charge_mos_fault"
    ∷ flag 0 0x40 "discharge_mos_fault"
    ∷ flag 0 0x80 "vol_sensor_fault"
    ∷ flag 1 0x01 "ntc_disconnection"
    ∷ flag 1 0x02 "adc_mod_fault"
    ∷ flag 1 0x04 "reverse_battery"
    ∷ flag 1 0x08 "fan_on_failure"
    ∷ flag 1 0x10 "battery_locked"
    ∷ flag 2 0x01 "disc_ov_temp_protection"
    ∷ flag 2 0x02 "disc_un_temp_protection"
    ∷ flag 2 0x08 "startup_failed"
    ∷ flag 2 0x10 "charge_mos_off"
    ∷ flag 2 0x20 "discharge_mos_off"
    ∷ flag 2 0x40 "host_536_com_timeout"
    ∷ flag 3 0x01 "charging"
    ∷ flag 3 0x02 "discharging"
    ∷ flag 3 0x04 "short_circuit_protection"
    ∷ flag 3 0x08 "ov_cur_protection"
    ∷ flag 3 0x40 "chg_ov_temp_protection"
    ∷ flag 3 0x80 "chg_un_temp_protection"
    ∷ flag 4 0x01 "ambient_low_temp_protection"
    ∷ flag 4 0x02 "ambient_high_temp_protection"
    ∷ flag 4 0x80 "heater_pad_indicator"
    ∷ flag 5 0x01 "manual_chg_mos_open"
    ∷ flag 5 0x02 "manual_chg_mos_off"
    ∷ flag 5 0x04 "manual_disc_mos_open"
    ∷ flag 5 0x08 "manual_disc_mos_off"
    ∷ flag 5 0x10 "heating_pad"
    ∷ flag 5 0x20 "mosfet_ov_temp_protection"
    ∷ flag 5 0x40 "mosfet_lo_temp_protection"
    ∷ flag 5 0x80 "chg_open_temp_too_low"
    ∷ flag 7 0x01 "soc_low_alarm2"
    ∷ flag 7 0x02 "vibration_alarm"
    ∷ flag 7 0x08 "fire_fighting_alarm"
    ∷ flag 8 0x01 "amb_over_temp_alarm"
    ∷ flag 8 0x02 "amb_low_temp_alarm"
    ∷ flag 8 0x04 "mos_over_temp_alarm"
    ∷ flag 8 0x08 "soc_low_alarm"
    ∷ flag 8 0x10 "vol_dif_alarm"
    ∷ flag 8 0x20 "bat_disc_over_temp_alarm"
    ∷ flag 8 0x40 "bat_disc_low_temp_alarm"
    ∷ flag 9 0x01 "cell_over_vol_alarm"
    ∷ flag 9 0x02 "cell_low_vol_alarm"
    ∷ flag 9 0x04 "pack_over_vol_alarm"
    ∷ flag 9 0x08 "pack_low_vol_alarm"
    ∷ flag 9 0x10 "chg_over_cur_alarm"
    ∷ flag 9 0x20 "disc_over_curr_alarm"
    ∷ flag 9 0x40 "bat_over_temp_alarm"
    ∷ flag 9 0x80 "bat_low_temp_alarm"
    ∷ flag 10 0x01 "cell_over_protection"
    ∷ flag 10 0x02 "pack_over_protection"
    ∷ flag 10 0x04 "cell_under_protection"
    ∷ flag 10 0x08 "pack_under_protection"
    ∷ flag 11 0x20 "full_charge_protection"
    ∷ []

-- The bit of a flag in the status bytes.
unfoldable pub test_flag : Bytes → Flag → Bool
test_flag raw_status f = not (bit_and (get_or raw_status f.byte_idx 0) f.mask == 0)

-- The loop of `bms_flag_set` over a table.
unfoldable pub flag_in : Bytes → String → List Flag → Bool
flag_in raw_status name [] = false
flag_in raw_status name (f ∷ fs) =
    let rest = flag_in raw_status name fs in
    if str_eq f.name name then test_flag raw_status f else rest

-- `bms_flag_set`, on the status bytes of a reading.
unfoldable pub flag_set : Bytes → String → Bool
flag_set raw_status name = flag_in raw_status name flags
