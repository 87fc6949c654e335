-- ===== src/Magnum/Units.antt =====
-- Reads and units of src/magnum/mag_decode.c.
use moon_flare.Prelude.Int.{ℤ, pos, negsuc, sub_ℕ}
use moon_flare.Prelude.{
  ℕ, suc, ◌+◌, ◌-◌, ◌*◌, ◌/◌, ◌^◌, Option, none, some, get_elem?, Bytes, bit_and, bit_or, ltb,
  if◌then◌else◌,
}

-- A read behind the end of a packet is `none`.
infixl 5 ◌>>=◌
abbrev pub ◌>>=◌ {ℓ κ} : {A : Type ℓ} {B : Type κ} → Option A → (A → Option B) → Option B
none >>= f = none
some a >>= f = f a

unfoldable pub byte : Bytes → ℕ → Option ℕ
byte p i = get_elem? p i

-- `u16`
unfoldable pub u16 : Bytes → ℕ → Option ℕ
u16 p i = do hi ← byte p i; lo ← byte p (i + 1); some (bit_or (hi * 2 ^ 8) lo)

abbrev pub signed : ℕ → ℕ → ℤ
signed w n = if ltb n (2 ^ (w - 1)) then pos n else sub_ℕ n (2 ^ w)

-- `s16`
unfoldable pub s16 : Bytes → ℕ → Option ℤ
s16 p i = do n ← u16 p i; some (signed 16 n)

-- `s8`
abbrev pub s8 : ℕ → ℤ
s8 b = signed 8 b

-- `delay_s`
unfoldable pub delay_s : ℕ → ℕ
delay_s v = if ltb 127 v then bit_and v 0x0f * 60 else v

abbrev pub minus_32 : ℤ → ℤ
minus_32 (pos n) = sub_ℕ n 32
minus_32 (negsuc n) = negsuc (n + 32)

-- Tenths of degrees Celsius for a number of degrees Fahrenheit over 32, rounded. No half occurs.
abbrev pub tenths_celsius : ℤ → ℤ
tenths_celsius (pos n) = pos ((n * 100 + 9) / 18)
tenths_celsius (negsuc n) = sub_ℕ 0 ((suc n * 100 + 9) / 18)

unfoldable pub celsius : ℤ → ℤ
celsius f = tenths_celsius (minus_32 f)
