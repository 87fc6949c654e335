-- ===== src/Prelude/Bits.antt =====
-- Masks and shifted ors, for every width: `x & (2^k - 1)` is a remainder, and an or of parts that
-- do not overlap is a sum.
use Prim.Native.Nat.{
  ℕ, zero, suc, ◌+◌, ◌-◌, ◌*◌, ◌/◌, ◌%◌, ◌^◌, ◌≤◌, ◌<◌, min, max, bit_and, bit_or, digits,
  bit_and-bitwise, bit_or-bitwise,
}
use mathlib.Core.Path.{◌≡◌, refl, ap, ◌∙◌}
use native.Mathlib.Nat.{pow-suc, mod-lt, mod-eq_of_lt, div-add-mod, mul-add-mod_self_left}
use native.Mathlib.Decide.{ℕ_discrete}
use native.Mathlib.Omega.{arith}

module _ (tail : ℕ → ℕ) (op : ℕ → ℕ → ℕ) where
  -- One more unit of fuel than a number needs is of no use,
  spare_fuel : (n a b : ℕ) → a ≤ n → digits tail op (suc n) a b ≡ digits tail op n a b
  spare_fuel zero zero b h = refl
  spare_fuel zero (suc a) b h = absurd (omega arith)
  spare_fuel (suc n) zero b h = refl
  spare_fuel (suc n) (suc a) b h = omega (arith, spare_fuel n (suc a / 2) (b / 2) (omega arith))

  -- and so are any number of them.
  own_fuel : (d m a b : ℕ) → a ≤ m → digits tail op (d + m) a b ≡ digits tail op m a b
  own_fuel zero m a b h = let e : zero + m ≡ m = omega arith in rw e
  own_fuel (suc d) m a b h =
      let e : suc d + m ≡ suc (d + m) = omega arith in
      rw e (spare_fuel (d + m) a b (omega arith) ∙ own_fuel d m a b h)

  digits-suc :
      (a b : ℕ)
      → digits tail op (suc a) (suc a) b
        ≡ digits tail op (suc a / 2) (suc a / 2) (b / 2) * 2 + op (suc a % 2) (b % 2)
  digits-suc a b =
      let e : a - suc a / 2 + suc a / 2 ≡ a = omega arith in
      let h = own_fuel (a - suc a / 2) (suc a / 2) (suc a / 2) (b / 2) (omega arith) in
      omega (arith, rw e at h)

zero-bit_or : (b : ℕ) → bit_or 0 b ≡ b
zero-bit_or b = simp bit_or-bitwise

bit_or-digit : (a b : ℕ) → bit_or a b ≡ max (a % 2) (b % 2) + 2 * bit_or (a / 2) (b / 2)
bit_or-digit zero b = omega (arith, zero-bit_or b, zero-bit_or (b / 2))
bit_or-digit (suc a) b =
    let d = digits-suc (λ y. y) max a b in
    omega (arith, d, bit_or-bitwise (suc a) b, bit_or-bitwise (suc a / 2) (b / 2))

zero-bit_and : (b : ℕ) → bit_and 0 b ≡ 0
zero-bit_and b = simp bit_and-bitwise

bit_and-digit : (a b : ℕ) → bit_and a b ≡ min (a % 2) (b % 2) + 2 * bit_and (a / 2) (b / 2)
bit_and-digit zero b = omega (arith, zero-bit_and b, zero-bit_and (b / 2))
bit_and-digit (suc a) b =
    let d = digits-suc (λ y. 0) min a b in
    omega (arith, d, bit_and-bitwise (suc a) b, bit_and-bitwise (suc a / 2) (b / 2))

bit_or-zero : (k a : ℕ) → a ≤ k → bit_or a 0 ≡ a
bit_or-zero zero zero h = refl
bit_or-zero zero (suc a) h = absurd (omega arith)
bit_or-zero (suc k) a h = elim (ℕ_discrete a 0) [
  | yes z ↦ rw z
  | no nz ↦ omega (arith, bit_or-digit a 0, bit_or-zero k (a / 2) (omega arith))
]

bit_and-zero : (k a : ℕ) → a ≤ k → bit_and a 0 ≡ 0
bit_and-zero zero zero h = refl
bit_and-zero zero (suc a) h = absurd (omega arith)
bit_and-zero (suc k) a h = elim (ℕ_discrete a 0) [
  | yes z ↦ rw z
  | no nz ↦ omega (arith, bit_and-digit a 0, bit_and-zero k (a / 2) (omega arith))
]

shift-suc : (k hi : ℕ) → hi * 2 ^ suc k ≡ hi * 2 ^ k * 2
shift-suc k hi = rw pow-suc (omega arith)

unshift : (n : ℕ) → n * 2 / 2 ≡ n
unshift n = omega arith

-- `lo | hi << k`
pub or_high : (k lo hi : ℕ) → lo < 2 ^ k → bit_or lo (hi * 2 ^ k) ≡ lo + hi * 2 ^ k
or_high zero lo hi h = let e : lo ≡ 0 = omega arith in rw (e, zero-bit_or) (omega arith)
or_high (suc k) lo hi h =
    let d = rw unshift at (bit_or-digit lo (hi * 2 ^ k * 2)) in
    rw shift-suc (omega (arith, d, or_high k (lo / 2) hi (omega (arith, pow-suc 2 k))))

-- `hi << k | lo`
pub or_low : (k hi lo : ℕ) → lo < 2 ^ k → bit_or (hi * 2 ^ k) lo ≡ hi * 2 ^ k + lo
or_low zero hi lo h =
    let e : lo ≡ 0 = omega arith in
    rw e (omega (arith, bit_or-zero (hi * 2 ^ 0) (hi * 2 ^ 0) (omega arith)))
or_low (suc k) hi lo h =
    let d = rw unshift at (bit_or-digit (hi * 2 ^ k * 2) lo) in
    rw shift-suc (omega (arith, d, or_low k hi (lo / 2) (omega (arith, pow-suc 2 k))))

pow_pos : (k : ℕ) → 0 < 2 ^ k
pow_pos zero = omega arith
pow_pos (suc k) = omega (arith, pow-suc 2 k, pow_pos k)

mod_unique : (a m q r : ℕ) → r < m → a ≡ m * q + r → a % m ≡ r
mod_unique a m q r h e = rw (e, mul-add-mod_self_left) (mod-eq_of_lt h)

-- The digits of a remainder by an even number.
mod-halves : (a m : ℕ) → 0 < m → a % (m * 2) ≡ a / 2 % m * 2 + a % 2
mod-halves a m h =
    mod_unique a (m * 2) (a / 2 / m) (a / 2 % m * 2 + a % 2) (omega (arith, mod-lt (a / 2) h))
      (omega (arith, div-add-mod (a / 2) m, ap (λ (x : ℕ). x * 2) (div-add-mod (a / 2) m)))

-- `a & (1 << k) - 1`
pub and_mask : (k a : ℕ) → bit_and a (2 ^ k - 1) ≡ a % 2 ^ k
and_mask zero a = omega (arith, bit_and-zero a a (omega arith))
and_mask (suc k) a =
    let p : 0 < 2 ^ k = pow_pos k in
    let e : (2 ^ suc k - 1) / 2 ≡ 2 ^ k - 1 = omega (arith, pow-suc 2 k) in
    let d = rw e at (bit_and-digit a (2 ^ suc k - 1)) in
    let m : a % 2 ^ suc k ≡ a / 2 % 2 ^ k * 2 + a % 2 = rw pow-suc (mod-halves a (2 ^ k) p) in
    omega (arith, d, and_mask k (a / 2), pow-suc 2 k, m)
