-- ===== src/Textbelt/Phone/Numbers.antt =====
-- What `tb_phone_norm` accepts as a number, and that it takes its own results.
use moon_flare.Textbelt.Phone.{
  phone_max, is_space, is_digit, is_filler, digits_of, number_of, with_digits, norm, phone_norm,
}
use moon_flare.Prelude.{
  ℕ, zero, suc, ◌≤◌, ◌≡◌, ◌≢◌, refl, [], ◌∷◌, Bool, true, false, ◌&&◌, ◌||◌, not, Option, none,
  some, length, get_or, Bytes, All, arith, trim_start, ltb, ◌==◌, if_elim,
}

abbrev pub AreDigits : Bytes → Type 0
AreDigits = All (λ c. is_digit c ≡ true)

-- Ten digits, or a plus sign and 8 to 15 digits that do not begin with 0.
pub data IsNumber : Bytes → Type 0 where
  national : (ds : Bytes) → AreDigits ds → length ds ≡ 10 → IsNumber ds
  international :
      (ds : Bytes)
      → AreDigits ds
      → 8 ≤ length ds
      → length ds ≤ 15
      → get_or ds 0 0 ≢ b'0'
      → IsNumber (b'+' ∷ ds)

abbrev IsResult : (Bytes → Type 0) → Option Bytes → Type 0
IsResult P none = Unit
IsResult P (some s) = P s

put_digit :
    (c : ℕ) (o : Option Bytes)
    → is_digit c ≡ true
    → IsResult AreDigits o
    → IsResult AreDigits (elim o [ none ↦ none | some ds ↦ some (c ∷ ds) ])
put_digit c none h k = tt
put_digit c (some ds) h k = (h, k)

digits_of-AreDigits : (room : ℕ) (s : Bytes) → IsResult AreDigits (digits_of room s)
unfolding digits_of
digits_of-AreDigits room [] = tt
digits_of-AreDigits zero (c ∷ s) =
    if_elim (IsResult AreDigits) (is_digit c) none _ (λ h. tt)
      (λ h.
        if_elim (IsResult AreDigits) (is_filler c) (digits_of zero s) none
          (λ k. digits_of-AreDigits zero s) (λ k. tt))
digits_of-AreDigits (suc room) (c ∷ s) =
    if_elim (IsResult AreDigits) (is_digit c) _ _
      (λ h. put_digit c (digits_of room s) h (digits_of-AreDigits room s))
      (λ h.
        if_elim (IsResult AreDigits) (is_filler c) (digits_of (suc room) s) none
          (λ k. digits_of-AreDigits (suc room) s) (λ k. tt))

number_of-IsNumber :
    (plus : Bool) (ds : Bytes) → AreDigits ds → IsResult IsNumber (number_of plus ds)
unfolding number_of
number_of-IsNumber true ds h =
    if_elim (IsResult IsNumber) (ltb (length ds) 8 || ltb 15 (length ds) || get_or ds 0 0 == b'0')
      none (some (b'+' ∷ ds)) (λ k. tt)
      (λ k. international ds h (ground arith) (ground arith) (ground arith))
number_of-IsNumber false ds h =
    if_elim (IsResult IsNumber) (length ds == 11 && get_or ds 0 0 == b'1') (some (b'+' ∷ ds)) _
      (λ k. international ds h (ground arith) (ground arith) (ground arith))
      (λ k.
        if_elim (IsResult IsNumber) (not (length ds == 10)) none (some ds) (λ m. tt)
          (λ m. national ds h (ground arith)))

with_digits-IsNumber :
    (plus : Bool) (o : Option Bytes) → IsResult AreDigits o → IsResult IsNumber (with_digits plus o)
unfolding with_digits
with_digits-IsNumber plus none h = tt
with_digits-IsNumber plus (some ds) h = number_of-IsNumber plus ds h

norm-IsNumber : (s : Bytes) → IsResult IsNumber (norm s)
unfolding norm
norm-IsNumber [] = with_digits-IsNumber false (digits_of 31 []) (digits_of-AreDigits 31 [])
norm-IsNumber (c ∷ s) =
    if_elim (IsResult IsNumber) (c == b'+') _ _
      (λ h. with_digits-IsNumber true (digits_of 31 s) (digits_of-AreDigits 31 s))
      (λ h. with_digits-IsNumber false (digits_of 31 (c ∷ s)) (digits_of-AreDigits 31 (c ∷ s)))

found : (P : Bytes → Type 0) (o : Option Bytes) (n : Bytes) → IsResult P o → o ≡ some n → P n
found P o n h e = rw e at h

phone_norm-IsResult : (s : Bytes) (cap : ℕ) → IsResult IsNumber (phone_norm (some s) cap)
unfolding phone_norm
phone_norm-IsResult s cap =
    if_elim (IsResult IsNumber) (ltb cap phone_max) none (norm (trim_start is_space s)) (λ h. tt)
      (λ h. norm-IsNumber (trim_start is_space s))

pub phone_norm-IsNumber :
    (s : Bytes) (cap : ℕ) (number : Bytes) → phone_norm (some s) cap ≡ some number → IsNumber number
phone_norm-IsNumber s cap number e =
    found IsNumber (phone_norm (some s) cap) number (phone_norm-IsResult s cap) e

-- Digits alone are taken as they are.
digits_of-digits :
    (room : ℕ) (ds : Bytes) → AreDigits ds → length ds ≤ room → digits_of room ds ≡ some ds
unfolding digits_of
digits_of-digits room [] h l = refl
digits_of-digits zero (d ∷ ds) h l = absurd (omega arith)
digits_of-digits (suc room) (d ∷ ds) (h, t) l =
    rw (h, digits_of-digits room ds t (omega arith)) refl

digit-no_space : (c : ℕ) → is_digit c ≡ true → (is_space c ≡ false) × ((c == b'+') ≡ false)
unfolding is_digit is_space
digit-no_space c h = ground arith

norm_national :
    (ds : Bytes) → AreDigits ds → length ds ≡ 10 → norm (trim_start is_space ds) ≡ some ds
unfolding norm trim_start with_digits number_of
norm_national [] h l = absurd (omega arith)
norm_national (d ∷ ds) (h, t) l =
    let (s, p) = digit-no_space d h in
    rw (s, p, digits_of-digits 31 (d ∷ ds) (h, t) (omega arith), l) refl

norm_international :
    (ds : Bytes)
    → AreDigits ds
    → 8 ≤ length ds
    → length ds ≤ 15
    → get_or ds 0 0 ≢ b'0'
    → norm (trim_start is_space (b'+' ∷ ds)) ≡ some (b'+' ∷ ds)
unfolding norm trim_start with_digits number_of is_space
norm_international ds h l m n = rw (digits_of-digits 31 ds h (omega arith)) (
    if_elim (λ o. o ≡ some (b'+' ∷ ds))
      (ltb (length ds) 8 || ltb 15 (length ds) || get_or ds 0 0 == b'0') none (some (b'+' ∷ ds))
      (λ k. absurd (ground arith)) (λ k. refl))

norm_number : {s : Bytes} → IsNumber s → norm (trim_start is_space s) ≡ some s
norm_number (national ds h l) = norm_national ds h l
norm_number (international ds h l m n) = norm_international ds h l m n

-- What `tb_phone_norm` returns is a number (ten digits, or a plus sign and 8 to 15 digits that do
-- not begin with 0), and `tb_phone_norm` gives it back as it is.
pub phone_norm-phone_norm :
    (s : Bytes) (cap : ℕ) (number : Bytes)
    → phone_norm (some s) cap ≡ some number
    → IsNumber number × (phone_norm (some number) phone_max ≡ some number)
unfolding phone_norm
phone_norm-phone_norm s cap number e =
    let h = phone_norm-IsNumber s cap number e in (h, norm_number h)
