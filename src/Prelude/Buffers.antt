-- ===== src/Prelude/Buffers.antt =====
-- Bytes, and the tests on lists of them that the C code writes as `memcmp`.
use Prim.Native.Nat.{ℕ, ◌<◌}
use mathlib.Core.Path.{◌≡◌}
use mathlib.Core.Logic.{◌↔◌}
use mathlib.Core.Bool.{Bool, true, false}
use mathlib.Core.List.{List, [], ◌∷◌}
use native.Mathlib.Omega.{arith}
use moon_flare.Prelude.Tests.{◌==◌, if◌then◌else◌}

abbrev pub Bytes : Type 0
Bytes = List ℕ

-- A predicate by recursion computes to tuples, which the tactics read and build.
abbrev pub All {ℓ κ} : {A : Type ℓ} → (A → Type κ) → List A → Type κ
All P [] = Unit
All P (x ∷ xs) = P x × All P xs

abbrev pub AreBytes : Bytes → Type 0
AreBytes = All (λ b. b < 256)

-- `memcmp(a, b, n) == 0` on buffers of the same size.
unfoldable pub same_bytes : Bytes → Bytes → Bool
same_bytes [] [] = true
same_bytes [] (b ∷ bs) = false
same_bytes (a ∷ r) [] = false
same_bytes (a ∷ r) (b ∷ bs) = if a == b then same_bytes r bs else false

pub same_bytes_iff : (p q : Bytes) → (same_bytes p q ≡ true) ↔ (p ≡ q)
unfolding same_bytes
same_bytes_iff [] [] = ground arith
same_bytes_iff [] (b ∷ bs) = ground arith
same_bytes_iff (a ∷ p) [] = ground arith
same_bytes_iff (a ∷ p) (b ∷ q) = ground (arith, same_bytes_iff p q)

-- The bytes without those at the front, or at the end, that a test accepts.
unfoldable pub trim_start : (ℕ → Bool) → Bytes → Bytes
trim_start p [] = []
trim_start p (b ∷ bs) = let rest = trim_start p bs in if p b then rest else b ∷ bs

unfoldable pub trim_end : (ℕ → Bool) → Bytes → Bytes
trim_end p [] = []
trim_end p (b ∷ bs) = trim_onto p b (trim_end p bs)
  where
    trim_onto : (ℕ → Bool) → ℕ → Bytes → Bytes
    trim_onto p b [] = if p b then [] else b ∷ []
    trim_onto p b (c ∷ cs) = b ∷ c ∷ cs
