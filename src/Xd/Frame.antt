-- ===== src/Xd/Frame.antt =====
-- Frames of the RS485 protocol: `bms_check` and `bms_build_frame` of src/xd/bms_proto.c.
pub mod Laws
use moon_flare.Prelude.{ℕ, ◌+◌, ◌%◌, ◌^◌, [], ◌∷◌, ◌++◌, bit_and, bit_xor, length, Bytes}

abbrev pub soi : ℕ
soi = 0x7e

abbrev pub eoi : ℕ
eoi = 0x0d

-- The loop of `bms_check`: `x` is the running xor of the bytes and `s` their sum, an `unsigned`.
check_from : ℕ → ℕ → Bytes → ℕ
check_from x s [] = bit_and (bit_xor x s) 0xff % 256
check_from x s (b ∷ bs) = check_from (bit_xor x b % 256) ((s + b) % 2 ^ 32) bs

unfoldable pub check : Bytes → ℕ
unfolding check_from
check = check_from 0 0

-- What `bms_build_frame` writes to `out`; it returns the length of this list.
unfoldable pub build_frame : ℕ → ℕ → Bytes → Bytes
build_frame addr cmd payload =
    let body = soi ∷ addr ∷ cmd ∷ (length payload % 256) ∷ payload in
    body ++ (check body ∷ eoi ∷ [])
