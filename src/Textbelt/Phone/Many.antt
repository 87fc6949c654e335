-- ===== src/Textbelt/Phone/Many.antt =====
-- What `tb_recipients` returns.
use moon_flare.Textbelt.Phone.{
  phone_max, phone_norm, item, Recipients, numbers, too_many, bad, add_number, collect, recipients,
  entries,
}
use moon_flare.Textbelt.Phone.Numbers.{IsNumber, phone_norm-IsNumber}
use moon_flare.Prelude.{
  ℕ, ◌≤◌, ◌<◌, ◌≡◌, refl, List, [], ◌∷◌, ◌++◌, Option, none, some, length, Bytes, All, arith, leb,
  ◌==◌, if_elim, length-append,
}

pub AreNumbers : List Bytes → Type 0
AreNumbers = All IsNumber

abbrev AreFew : ℕ → Recipients → Type 0
AreFew max (numbers ns) = (length ns ≤ max) × All IsNumber ns
AreFew max too_many = Unit
AreFew max (bad s) = Unit

All-append :
    (ns : List Bytes) (n : Bytes) → All IsNumber ns → IsNumber n → All IsNumber (ns ++ (n ∷ []))
All-append [] n h k = (k, tt)
All-append (m ∷ ns) n (h, t) k = (h, All-append ns n t k)

add_number-AreFew :
    (max : ℕ) (found : List Bytes) (s : Bytes) (o : Option Bytes) (later : List Bytes → Recipients)
    → phone_norm (some s) phone_max ≡ o
    → length found < max
    → All IsNumber found
    → ((all : List Bytes) → length all ≤ max → All IsNumber all → AreFew max (later all))
    → AreFew max (add_number found s o later)
unfolding add_number
add_number-AreFew max found s none later e l h k = tt
add_number-AreFew max found s (some n) later e l h k =
    k (found ++ (n ∷ [])) (omega (arith, length-append found (n ∷ [])))
      (All-append found n h (phone_norm-IsNumber s phone_max n e))

collect-AreFew :
    (max : ℕ) (found es : List Bytes)
    → length found ≤ max
    → All IsNumber found
    → AreFew max (collect max found es)
unfolding collect
collect-AreFew max found [] l h = (l, h)
collect-AreFew max found (e ∷ es) l h =
    if_elim (AreFew max) (length (item e) == 0) (collect max found es) _
      (λ z. collect-AreFew max found es l h)
      (λ z.
        if_elim (AreFew max) (leb max (length found)) too_many _ (λ k. tt)
          (λ k.
            add_number-AreFew max found (item e) (phone_norm (some (item e)) phone_max) _ refl
              (ground arith) h (λ all m t. collect-AreFew max all es m t)))

recipients-AreFew : (list : Option Bytes) (max : ℕ) → AreFew max (recipients list max)
unfolding recipients
recipients-AreFew none max = (omega arith, tt)
recipients-AreFew (some list) max = collect-AreFew max [] (entries list) (omega arith) tt

-- When `tb_recipients` does not fail, it has found at most `max` numbers, and each is ten digits, or
-- a plus sign and 8 to 15 digits that do not begin with 0.
pub recipients-AreNumbers :
    (list : Option Bytes) (max : ℕ) (ns : List Bytes)
    → recipients list max ≡ numbers ns
    → (length ns ≤ max) × AreNumbers ns
unfolding AreNumbers
recipients-AreNumbers list max ns e = let h = recipients-AreFew list max in rw e at h
