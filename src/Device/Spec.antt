-- ===== src/Device/Spec.antt =====
-- What identifies a device: `mf_config_device_endpoint` and `device_to_json` of
-- src/config/config.c, and `identity_from_spec` of src/device/device.c.
use moon_flare.Prelude.Int.{ℤ, pos, negsuc, less}
use moon_flare.Prelude.{
  ℕ, zero, suc, ◌+◌, ◌-◌, ◌/◌, ◌%◌, [], ◌∷◌, ◌++◌, Bool, true, false, not, Option, none, some, take,
  Bytes, ltb, if◌then◌else◌,
}
use Prim.Native.Char.{code}
use Prim.Native.String.{String}

-- The bytes of an ASCII literal.
abbrev pub text : String → Bytes
text String.[] = []
text (String.◌∷◌ c s) = code c ∷ text s

-- What `snprintf` keeps in `cap` bytes.
abbrev pub fit : ℕ → Bytes → Bytes
fit cap s = take (cap - 1) s

-- `!s[0]`
abbrev pub is_empty : Bytes → Bool
is_empty [] = true
is_empty (b ∷ bs) = false

-- The digits of a number, with the number of them as fuel at most.
digits_in : ℕ → ℕ → Bytes → Bytes
digits_in zero n acc = acc
digits_in (suc fuel) n acc =
    let rest = digits_in fuel (n / 10) ((b'0' + n % 10) ∷ acc) in
    if ltb n 10 then (b'0' + n) ∷ acc else rest

-- `%d` of a number that is not negative. An `int` has ten digits at most.
unfoldable pub decimal : ℕ → Bytes
unfolding digits_in
decimal n = digits_in 10 n []

-- `mf_config_device_t`. `port` is an `int`, and `extra` all that only the plugins read.
pub record DeviceConfig : Type 0 where
  pub uuid : Bytes
  pub name : Bytes
  pub kind : Bytes
  pub driver : Bytes
  pub enabled : Bool
  pub active : Bool
  pub poll_interval : ℤ
  pub capture_interval : ℤ
  pub retention : ℤ
  pub bus : Bytes
  pub usb_path : Bytes
  pub usb_serial : Bytes
  pub ble_address : Bytes
  pub modbus_ip : Bytes
  pub modbus_port : ℤ
  pub extra : Bytes

unfoldable pub port_or : ℤ → ℕ
port_or (pos zero) = 502
port_or (pos (suc n)) = suc n
port_or (negsuc n) = 502

-- The size of an `endpoint`.
abbrev pub endpoint_size : ℕ
endpoint_size = 160

unfoldable pub tcp_endpoint : Bytes → ℤ → Bytes
tcp_endpoint ip port = fit endpoint_size (text "tcp:" ++ (ip ++ (b':' ∷ decimal (port_or port))))

-- `mf_config_device_endpoint` into a buffer of 160 bytes.
unfoldable pub config_endpoint : DeviceConfig → Bytes
config_endpoint d =
    if not (is_empty d.usb_path)
    then fit endpoint_size (text "usb:" ++ d.usb_path)
    else if not (is_empty d.usb_serial)
    then fit endpoint_size (text "usb-id:" ++ d.usb_serial)
    else if not (is_empty d.ble_address)
    then fit endpoint_size (text "ble:" ++ d.ble_address)
    else if not (is_empty d.modbus_ip)
    then tcp_endpoint d.modbus_ip d.modbus_port
    else []

-- What cJSON finds of a device in JSON: strings and numbers under the keys that the code looks up.
-- `none` is a key that is not there, or of another type, and `extra` what only the plugins read.
pub record Spec : Type 0 where
  pub bus : Option Bytes
  pub poll_interval : Option ℤ
  pub usb : Option (Option Bytes × Option Bytes)
  pub ble : Option (Option Bytes)
  pub modbus : Option (Option Bytes × Option ℤ)
  pub capture_interval : Option ℤ
  pub retention : Option ℤ
  pub active_false : Bool
  pub extra : Bytes

-- `cJSON_AddStringOrNull`
abbrev pub string_or_null : Bytes → Option Bytes
string_or_null s = if is_empty s then none else some s

-- `device_to_json`. Keys of `extra_json` that stand in the object already are not taken over, and
-- the code looks up no others.
unfoldable pub spec_of : DeviceConfig → Spec
spec_of d = record {
  bus = string_or_null d.bus;
  poll_interval = some d.poll_interval;
  usb = some (string_or_null d.usb_path, string_or_null d.usb_serial);
  ble = some (string_or_null d.ble_address);
  modbus = some (string_or_null d.modbus_ip, some d.modbus_port);
  capture_interval = some d.capture_interval;
  retention = some d.retention;
  active_false = not d.active;
  extra = d.extra;
}

-- A string that is there and not empty.
abbrev pub given : Option Bytes → Option Bytes
given none = none
given (some s) = string_or_null s

unfoldable pub usb_endpoint : Option (Option Bytes × Option Bytes) → Bytes
usb_endpoint none = []
usb_endpoint (some (path, serial)) = elim (given path) [
  | some p ↦ fit endpoint_size (text "usb:" ++ p)
  | none ↦ elim (given serial) [ some s ↦ fit endpoint_size (text "usb-id:" ++ s) | none ↦ [] ]
]

unfoldable pub ble_endpoint : Option (Option Bytes) → Bytes
ble_endpoint none = []
ble_endpoint (some address) = elim (given address) [
  | some a ↦ fit endpoint_size (text "ble:" ++ a)
  | none ↦ []
]

abbrev pub number_or : Option ℤ → ℤ → ℤ
number_or none d = d
number_or (some v) d = v

unfoldable pub modbus_endpoint : Option (Option Bytes × Option ℤ) → Bytes
modbus_endpoint none = []
modbus_endpoint (some (ip, port)) = elim (given ip) [
  | some a ↦ tcp_endpoint a (number_or port (pos 0))
  | none ↦ []
]

abbrev pub or_else : Bytes → Bytes → Bytes
or_else a b = if is_empty a then b else a

-- `ep` of `identity_from_spec`.
unfoldable pub spec_endpoint : Spec → Bytes
spec_endpoint s =
    or_else (or_else (usb_endpoint s.usb) (ble_endpoint s.ble)) (modbus_endpoint s.modbus)

-- `*poll_s` of `identity_from_spec`, which is 2 seconds before.
unfoldable pub spec_poll : Spec → ℤ
spec_poll s = elim s.poll_interval [
  | none ↦ pos 2000
  | some v ↦ if less (pos 0) v then v else pos 2000
]

abbrev pub or_empty : Option Bytes → Bytes
or_empty none = []
or_empty (some s) = s

-- `bus`, `ep` and `*poll_s` after `identity_from_spec`; `none` is no JSON, or none that can be read.
unfoldable pub identity_from_spec : Option Spec → Bytes × Bytes × ℤ
identity_from_spec none = ([], [], pos 2000)
identity_from_spec (some s) = (fit 32 (or_empty s.bus), spec_endpoint s, spec_poll s)
