-- ===== src/Magnum/Tables.antt =====
-- The tables of codes and texts of src/magnum/mag_decode.c, and what is read off them.
use Prim.Native.Char.{code}
use Prim.Native.String.{String}
use moon_flare.Prelude.{
  ℕ, zero, suc, ◌+◌, ◌-◌, ◌*◌, List, [], ◌∷◌, Option, none, some, Bool, true, false, ◌&&◌, ◌||◌,
  ltb, leb, ◌==◌, if◌then◌else◌, length, take, drop, Bytes,
}

-- `code_text_t`
abbrev pub Table : Type 0
Table = List (ℕ × String)

abbrev pub models : Table
models =
    (0x06, "MM612")
    ∷ (0x07, "MM612-AE")
    ∷ (0x08, "MM1212")
    ∷ (0x09, "MMS1012")
    ∷ (0x0a, "MM1012E")
    ∷ (0x0b, "MM1512")
    ∷ (0x0c, "MMS912E")
    ∷ (0x0f, "ME1512")
    ∷ (0x14, "ME2012")
    ∷ (0x15, "RD2212")
    ∷ (0x19, "ME2512")
    ∷ (0x1e, "ME3112")
    ∷ (0x23, "MS2012")
    ∷ (0x24, "MS1512E")
    ∷ (0x28, "MS2012E")
    ∷ (0x2c, "MSH3012M")
    ∷ (0x2d, "MS2812")
    ∷ (0x2f, "MS2712E")
    ∷ (0x35, "MM1324E")
    ∷ (0x36, "MM1524")
    ∷ (0x37, "RD1824")
    ∷ (0x3b, "RD2624E")
    ∷ (0x3f, "RD2824")
    ∷ (0x45, "RD4024E")
    ∷ (0x4a, "RD3924")
    ∷ (0x5a, "MS4124E")
    ∷ (0x5b, "MS2024")
    ∷ (0x67, "MSH4024M")
    ∷ (0x68, "MSH4024RE")
    ∷ (0x69, "MS4024")
    ∷ (0x6a, "MS4024AE")
    ∷ (0x6b, "MS4024PAE")
    ∷ (0x6f, "MS4448AE")
    ∷ (0x70, "MS3748AEJ")
    ∷ (0x72, "MS4048")
    ∷ (0x73, "MS4448PAE")
    ∷ (0x74, "MS3748PAEJ")
    ∷ (0x75, "MS4348PE")
    ∷ []

abbrev pub faults : Table
faults =
    (0x00, "None")
    ∷ (0x01, "STUCK RELAY")
    ∷ (0x02, "DC OVERLOAD")
    ∷ (0x03, "AC OVERLOAD")
    ∷ (0x04, "DEAD BAT")
    ∷ (0x05, "BACKFEED")
    ∷ (0x08, "LOW BAT")
    ∷ (0x09, "HIGH BAT")
    ∷ (0x0a, "HIGH AC VOLTS")
    ∷ (0x10, "BAD_BRIDGE")
    ∷ (0x12, "NTC_FAULT")
    ∷ (0x13, "FET_OVERLOAD")
    ∷ (0x14, "INTERNAL_FAULT4")
    ∷ (0x16, "STACKER MODE FAULT")
    ∷ (0x18, "STACKER CLK PH FAULT")
    ∷ (0x17, "STACKER NO CLK FAULT")
    ∷ (0x19, "STACKER PH LOSS FAULT")
    ∷ (0x20, "OVER TEMP")
    ∷ (0x21, "RELAY FAULT")
    ∷ (0x80, "CHARGER_FAULT")
    ∷ (0x81, "High Battery Temp")
    ∷ (0x90, "OPEN SELCO TCO")
    ∷ (0x91, "CB3 OPEN FAULT")
    ∷ []

abbrev pub modes : Table
modes =
    (0x00, "Standby")
    ∷ (0x01, "EQ")
    ∷ (0x02, "FLOAT")
    ∷ (0x04, "ABSORB")
    ∷ (0x08, "BULK")
    ∷ (0x09, "BATSAVER")
    ∷ (0x10, "CHARGE")
    ∷ (0x20, "Off")
    ∷ (0x40, "INVERT")
    ∷ (0x50, "Inverter_Standby")
    ∷ (0x80, "SEARCH")
    ∷ []

abbrev pub stack_modes : Table
stack_modes =
    (0x00, "Stand Alone")
    ∷ (0x01, "Parallel stack - master")
    ∷ (0x02, "Parallel stack - slave")
    ∷ (0x04, "Series stack - master")
    ∷ (0x08, "Series stack - slave")
    ∷ []

abbrev pub ags_status : Table
ags_status =
    (0, "Not Connected")
    ∷ (1, "Off")
    ∷ (2, "Ready")
    ∷ (3, "Manual Run")
    ∷ (4, "AC In")
    ∷ (5, "In quiet time")
    ∷ (6, "Start in test mode")
    ∷ (7, "Start on temperature")
    ∷ (8, "Start on voltage")
    ∷ (9, "Fault start on test")
    ∷ (10, "Fault start on temp")
    ∷ (11, "Fault start on voltage")
    ∷ (12, "Start TOD")
    ∷ (13, "Start SOC")
    ∷ (14, "Start Exercise")
    ∷ (15, "Fault start TOD")
    ∷ (16, "Fault start SOC")
    ∷ (17, "Fault start Exercise")
    ∷ (18, "Start on Amp")
    ∷ (19, "Start on Topoff")
    ∷ (20, "Not used")
    ∷ (21, "Fault start on Amp")
    ∷ (22, "Fault on Topoff")
    ∷ (23, "Not used")
    ∷ (24, "Fault max run")
    ∷ (25, "Gen Run Fault")
    ∷ (26, "Gen in Warm up")
    ∷ (27, "Gen in Cool down")
    ∷ []

abbrev pub bmk_faults : Table
bmk_faults = (0, "Reserved") ∷ (1, "Normal") ∷ (2, "Fault Start") ∷ []

abbrev pub pt_modes : Table
pt_modes = (1, "Float") ∷ (2, "Bulk") ∷ (3, "Absorb") ∷ (4, "EQ") ∷ []

abbrev pub pt_regulation : Table
pt_regulation =
    (0, "Off")
    ∷ (1, "Voltage")
    ∷ (2, "Current")
    ∷ (3, "Temperature")
    ∷ (4, "Hardware")
    ∷ (15, "MPPT")
    ∷ []

abbrev pub pt_faults : Table
pt_faults =
    (0, "No Fault")
    ∷ (1, "Input breaker Fault")
    ∷ (2, "OPS Fault")
    ∷ (3, "PV High Fault")
    ∷ (4, "Battery High Fault")
    ∷ (5, "BTS Shorted Fault")
    ∷ (6, "FET Overtemp Fault")
    ∷ (7, "Battery Overtemp Fault")
    ∷ (8, "Over Current Fault")
    ∷ (9, "Internal Phase Fault")
    ∷ (10, "Open BTS Fault")
    ∷ (11, "Internal Fault 1")
    ∷ (12, "GFP Fault")
    ∷ (13, "ARC Fault")
    ∷ (14, "NTC Fault")
    ∷ (15, "HW overtemp Fault")
    ∷ (16, "Overyemp Fault")
    ∷ (17, "USB Fault")
    ∷ (20, "Stack Fault")
    ∷ (21, "Stack warning")
    ∷ (22, "Stack DIP Fault")
    ∷ (23, "Stack DT Fault")
    ∷ []

-- `lookup`; `none` is the `NULL` that the caller passes as `dflt`.
unfoldable pub lookup : Table → ℕ → Option String
lookup [] c = none
lookup ((k, text) ∷ t) c = if k == c then some text else lookup t c

is_some {ℓ} : {A : Type ℓ} → Option A → Bool
is_some none = false
is_some (some a) = true

-- `mag_model_known`
unfoldable pub model_known : ℕ → Bool
unfolding is_some
model_known model = is_some (lookup models model)

-- `mag_stackmode_known`
unfoldable pub stackmode_known : ℕ → Bool
unfolding is_some
stackmode_known stackmode = is_some (lookup stack_modes stackmode)

-- `mag_multiplier`
unfoldable pub multiplier : ℕ → ℕ
multiplier model = if leb model 50 then 1 else if leb model 107 then 2 else 4

-- `LOOKUP` with a text by default.
unfoldable pub lookup_or : Table → ℕ → String → String
lookup_or t c dflt = elim (lookup t c) [ none ↦ dflt | some text ↦ text ]

unfoldable pub mode_text : ℕ → String
mode_text mode = lookup_or modes mode "??"

unfoldable pub fault_text : ℕ → String
fault_text fault = lookup_or faults fault "Unknown"

unfoldable pub model_text : ℕ → String
model_text model = lookup_or models model "Unknown"

unfoldable pub stackmode_text : ℕ → String
stackmode_text sm = lookup_or stack_modes sm "Unknown"

unfoldable pub ags_status_text : ℕ → String
ags_status_text st = lookup_or ags_status st "Unknown"

unfoldable pub bmk_fault_text : ℕ → String
bmk_fault_text fault = lookup_or bmk_faults fault "Unknown"

unfoldable pub pt_mode_text : ℕ → String
pt_mode_text mode = lookup_or pt_modes mode "Unknown"

unfoldable pub pt_regulation_text : ℕ → String
pt_regulation_text r = lookup_or pt_regulation r "Unknown"

unfoldable pub pt_fault_text : ℕ → String
pt_fault_text fault = lookup_or pt_faults fault "unknown"

-- The code points of a name.
abbrev pub codes : String → Bytes
codes String.[] = []
codes (String.◌∷◌ c s) = code c ∷ codes s

is_digit : ℕ → Bool
is_digit c = leb b'0' c && leb c b'9'

-- The digits at the front, of which there is room for `room`.
digits_at : ℕ → Bytes → Bytes
unfolding is_digit
digits_at room [] = []
digits_at zero (c ∷ s) = []
digits_at (suc room) (c ∷ s) = if is_digit c then c ∷ digits_at room s else []

-- `digits` in `mag_model_rated_w`, a buffer of eight bytes with its NUL.
first_digits : Bytes → Bytes
unfolding is_digit digits_at
first_digits [] = []
first_digits (c ∷ s) = if is_digit c then digits_at 7 (c ∷ s) else first_digits s

-- `atoi` of digits.
value : ℕ → Bytes → ℕ
value acc [] = acc
value acc (c ∷ s) = value (acc * 10 + (c - b'0')) s

rated : Bytes → ℕ
unfolding value
rated digits =
    let volts = value 0 (drop (length digits - 2) digits) in
    if ltb (length digits) 3
    then 0
    else if volts == 12 || volts == 24 || volts == 48
    then value 0 (take (length digits - 2) digits) * 100
    else 0

-- `mag_model_rated_w`
unfoldable pub model_rated_w : ℕ → ℕ
unfolding rated first_digits
model_rated_w model = elim (lookup models model) [
  | none ↦ 0
  | some name ↦ rated (first_digits (codes name))
]
