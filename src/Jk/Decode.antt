-- ===== src/Jk/Decode.antt =====
-- `jk_decode_settings`, `jk_decode_device_info` and `_read_str` of src/jk/jk_proto.c. A frame of
-- `len` bytes is a list, and NULL is `none`. A float is the raw number before the code scales it:
-- volts and amperes are in thousandths, and temperatures in tenths.
pub mod Text
pub mod Accept
use moon_flare.Prelude.Int.{ℤ, pos, negsuc}
use moon_flare.Jk.Frame.{
  frame_size, crc_offset, header_rsp, frame_settings, frame_device_info, crc8, u32,
}
use moon_flare.Prelude.{
  ℕ, ◌+◌, ◌-◌, ◌^◌, List, [], ◌∷◌, ◌++◌, Bool, true, false, not, ◌&&◌, ◌||◌, Option, none, some,
  length, take, drop, get_or, replicate, same_bytes, ltb, leb, ◌==◌, if◌then◌else◌, min, Bytes,
}

-- `jk_result_t`, with what is in `*out` after JK_OK.
pub data Decoded {ℓ} (A : Type ℓ) : Type ℓ where
  ok : A → Decoded A
  bad_len bad_hdr bad_type bad_crc : Decoded A

infixl 5 ◌>>=◌
abbrev pub ◌>>=◌ {ℓ κ} : {A : Type ℓ} {B : Type κ} → Decoded A → (A → Decoded B) → Decoded B
ok a >>= f = f a
bad_len >>= f = bad_len
bad_hdr >>= f = bad_hdr
bad_type >>= f = bad_type
bad_crc >>= f = bad_crc

-- The tests with which each decoder begins.
pub accept : ℕ → Option Bytes → Decoded Bytes
accept type none = bad_len
accept type (some frame) =
    if ltb (length frame) frame_size
    then bad_len
    else if not (same_bytes (take 4 frame) header_rsp)
    then bad_hdr
    else if not (get_or frame 4 0 == type)
    then bad_type
    else if not (crc8 (take (frame_size - 1) frame) == get_or frame crc_offset 0)
    then bad_crc
    else ok frame

-- `jk_i32`: the bit pattern as a signed number.
pub i32 : Bytes → ℕ → ℤ
i32 frame off = let w = u32 frame off in if ltb w (2 ^ 31) then pos w else negsuc (2 ^ 32 - w - 1)

pub is_set : Bytes → ℕ → Bool
is_set frame off = not (get_or frame off 0 == 0)

-- `jk_settings_t`
pub record Settings : Type 0 where
  pub cell_uvp : ℕ
  pub cell_uvpr : ℕ
  pub cell_ovp : ℕ
  pub cell_ovpr : ℕ
  pub cell_rcv : ℕ
  pub balance_trigger : ℕ
  pub start_balance : ℕ
  pub power_off : ℕ
  pub max_charge : ℕ
  pub max_discharge : ℕ
  pub max_balance : ℕ
  pub charge_otp : ℕ
  pub discharge_otp : ℕ
  pub charge_utp : ℤ
  pub power_tube_otp : ℤ
  pub cell_count : ℕ
  pub charge_switch : Bool
  pub discharge_switch : Bool
  pub balancer_switch : Bool
  pub nominal : ℕ

pub settings_of : Bytes → Settings
settings_of frame = record {
  cell_uvp = u32 frame 10;
  cell_uvpr = u32 frame 14;
  cell_ovp = u32 frame 18;
  cell_ovpr = u32 frame 22;
  cell_rcv = u32 frame 38;
  balance_trigger = u32 frame 26;
  start_balance = u32 frame 138;
  power_off = u32 frame 46;
  max_charge = u32 frame 50;
  max_discharge = u32 frame 62;
  max_balance = u32 frame 78;
  charge_otp = u32 frame 82;
  discharge_otp = u32 frame 90;
  charge_utp = i32 frame 98;
  power_tube_otp = i32 frame 106;
  cell_count = get_or frame 114 0;
  charge_switch = is_set frame 118;
  discharge_switch = is_set frame 122;
  balancer_switch = is_set frame 126;
  nominal = u32 frame 130;
}

pub decode_settings : Option Bytes → Decoded Settings
decode_settings frame = do f ← accept frame_settings frame; ok (settings_of f)

-- The bytes before the first NUL.
unfoldable pub c_string : Bytes → Bytes
c_string [] = []
c_string (b ∷ bs) = if b == 0 then [] else b ∷ c_string bs

unfoldable pub is_blank : ℕ → Bool
is_blank b = b == b' ' || b == 9 || b == 13 || b == 10

-- `while (n > 0 && blank(out[n-1])) out[--n] = 0`, on the bytes before `out[n]`.
unfoldable pub strip_end : Bytes → Bytes
strip_end [] = []
strip_end (b ∷ bs) =
    let rest = strip_end bs in if is_blank b && length rest == 0 then [] else b ∷ rest

-- `_read_str`: the string in `out`, which the decoder has cleared. The copy stops at a NUL, and
-- what is behind it in the `n` bytes of the field stays zero.
pub read_str : Bytes → ℕ → ℕ → Bytes
read_str frame off len =
    let n = min len (frame_size - off) in
    let copied = c_string (take n (drop off frame)) in
    let out = copied ++ replicate (n - length copied) 0 in
    if leb frame_size off then [] else c_string (strip_end out)

-- `jk_device_info_t`
pub record DeviceInfo : Type 0 where
  pub vendor : Bytes
  pub hardware_version : Bytes
  pub software_version : Bytes
  pub uptime_s : ℕ
  pub power_on_count : ℕ
  pub device_name : Bytes
  pub device_passcode : Bytes
  pub manufacturing_date : Bytes
  pub serial_number : Bytes
  pub user_bytes : Bytes

pub device_info_of : Bytes → DeviceInfo
device_info_of frame = record {
  vendor = read_str frame 6 16;
  hardware_version = read_str frame 22 8;
  software_version = read_str frame 30 8;
  uptime_s = u32 frame 38;
  power_on_count = u32 frame 42;
  device_name = read_str frame 46 16;
  device_passcode = read_str frame 62 16;
  manufacturing_date = read_str frame 78 8;
  serial_number = read_str frame 86 16;
  user_bytes = read_str frame 102 16;
}

pub decode_device_info : Option Bytes → Decoded DeviceInfo
decode_device_info frame = do f ← accept frame_device_info frame; ok (device_info_of f)
