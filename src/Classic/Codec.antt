-- ===== src/Classic/Codec.antt =====
-- `classic_decode` of src/classic/classic_codec.c: a charge controller's registers into a reading.
--
-- The array of registers by their wire address is a list of 16-bit numbers with `reg_count` as its
-- length, and NULL is `none`. A float is the number before the code scales it: volts, amperes and
-- kilowatt-hours are in tenths. What is in `*out` after an error is not modelled.
pub mod Laws
use Prim.Native.String.{String}
use moon_flare.Prelude.{
  ℕ, ◌+◌, ◌-◌, ◌*◌, ◌/◌, ◌%◌, ◌^◌, List, [], ◌∷◌, Option, none, some, get_elem?, get_or, bit_and,
  bit_or, Bytes, ltb, ◌==◌, if◌then◌else◌,
}
use moon_flare.Prelude.Int.{ℤ, pos, negsuc}

-- `classic_result_t`, with what is in `*out` after CLASSIC_OK.
pub data Result {ℓ} (A : Type ℓ) : Type ℓ where
  ok : A → Result A
  bad_len type_mismatch missing_reg bad_reg : Result A

infixl 5 ◌>>=◌
abbrev pub ◌>>=◌ {ℓ κ} : {A : Type ℓ} {B : Type κ} → Result A → (A → Result B) → Result B
ok a >>= f = f a
bad_len >>= f = bad_len
type_mismatch >>= f = type_mismatch
missing_reg >>= f = missing_reg
bad_reg >>= f = bad_reg

abbrev pub reg_unit_mac_lo : ℕ
reg_unit_mac_lo = 4105

abbrev pub reg_unit_mac_mid : ℕ
reg_unit_mac_mid = 4106

abbrev pub reg_unit_mac_hi : ℕ
reg_unit_mac_hi = 4107

abbrev pub reg_device_id_lo : ℕ
reg_device_id_lo = 4110

abbrev pub reg_device_id_hi : ℕ
reg_device_id_hi = 4111

abbrev pub reg_batt_voltage : ℕ
reg_batt_voltage = 4114

abbrev pub reg_ibatt : ℕ
reg_ibatt = 4116

abbrev pub reg_kwh_today : ℕ
reg_kwh_today = 4117

abbrev pub reg_watts : ℕ
reg_watts = 4118

abbrev pub reg_charge_stage : ℕ
reg_charge_stage = 4119

abbrev pub reg_ah_today : ℕ
reg_ah_today = 4124

abbrev pub reg_lifetime_kwh_lo : ℕ
reg_lifetime_kwh_lo = 4125

abbrev pub reg_lifetime_kwh_hi : ℕ
reg_lifetime_kwh_hi = 4126

abbrev pub reg_classic_name : ℕ
reg_classic_name = 4209

-- 'LC'
abbrev pub expected_name : ℕ
expected_name = 0x4c43

-- `classic_charge_stage_t`, which also takes a code without a name.
pub data Stage : Type 0 where
  resting absorb bulk_mppt float float_mppt equalize hypervoc eqmppt : Stage
  other : ℕ → Stage

-- `classic_data_t`
pub record Reading : Type 0 where
  pub battery_voltage : ℕ
  pub ibatt_raw : ℤ
  pub kwh_today : ℕ
  pub watts : ℕ
  pub ah_today : ℕ
  pub lifetime_kwh : ℕ
  pub charge_stage : Stage
  pub charge_stage_msb : ℕ
  pub unit_mac : Bytes
  pub device_id : ℕ
  pub classic_name : ℕ

-- `R` and then `U16`.
unfoldable pub read : List ℕ → ℕ → Result ℕ
read regs addr = elim (get_elem? regs addr) [ none ↦ missing_reg | some v ↦ ok v ]

-- `(int16_t)`
unfoldable pub to_i16 : ℕ → ℤ
to_i16 v = if ltb v 0x8000 then pos v else negsuc (0xffff - v)

unfoldable pub stage : ℕ → Stage
stage msb =
    if msb == 0
    then resting
    else if msb == 3
    then absorb
    else if msb == 4
    then bulk_mppt
    else if msb == 5
    then float
    else if msb == 6
    then float_mppt
    else if msb == 7
    then equalize
    else if msb == 10
    then hypervoc
    else if msb == 18
    then eqmppt
    else other msb

-- `(v >> 8) & 0xFF`
unfoldable pub high_byte : ℕ → ℕ
high_byte v = bit_and (v / 256) 0xff

-- `v & 0xFF`
unfoldable pub low_byte : ℕ → ℕ
low_byte v = bit_and v 0xff

-- `((uint32_t)hi << 16) | lo`
unfoldable pub pair : ℕ → ℕ → ℕ
pair hi lo = bit_or (hi * 2 ^ 16) lo

unfoldable pub fields : List ℕ → ℕ → Result Reading
fields regs name = do
  volts ← read regs reg_batt_voltage
  ibatt ← read regs reg_ibatt
  kwh ← read regs reg_kwh_today
  watts ← read regs reg_watts
  st ← read regs reg_charge_stage
  ah ← read regs reg_ah_today
  kwh_lo ← read regs reg_lifetime_kwh_lo
  kwh_hi ← read regs reg_lifetime_kwh_hi
  mac_lo ← read regs reg_unit_mac_lo
  mac_mid ← read regs reg_unit_mac_mid
  mac_hi ← read regs reg_unit_mac_hi
  id_lo ← read regs reg_device_id_lo
  id_hi ← read regs reg_device_id_hi
  ok (record {
    battery_voltage = volts;
    ibatt_raw = to_i16 ibatt;
    kwh_today = kwh;
    watts = watts;
    ah_today = ah;
    lifetime_kwh = pair kwh_hi kwh_lo;
    charge_stage = stage (high_byte st);
    charge_stage_msb = high_byte st;
    unit_mac =
        high_byte mac_hi
        ∷ low_byte mac_hi
        ∷ high_byte mac_mid
        ∷ low_byte mac_mid
        ∷ high_byte mac_lo
        ∷ low_byte mac_lo
        ∷ [];
    device_id = pair id_hi id_lo;
    classic_name = name;
  })

unfoldable pub decode_regs : List ℕ → Result Reading
decode_regs regs = do
  name ← read regs reg_classic_name
  if name == expected_name then fields regs name else type_mismatch

-- `classic_decode`; `none` is a NULL among its arguments.
unfoldable pub decode : Option (List ℕ) → Result Reading
decode none = bad_reg
decode (some regs) = decode_regs regs
