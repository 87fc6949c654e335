-- ===== src/Textbelt/Form/Laws.antt =====
-- A form can be read back: what `tb_escape` writes is undone, and no field can end early.
use moon_flare.Textbelt.Phone.{is_digit}
use moon_flare.Textbelt.Form.{is_plain, hex, escape, phone_is, message_is, key_is, form}
use moon_flare.Prelude.{
  ℕ, zero, suc, length, ◌+◌, ◌-◌, ◌*◌, ◌/◌, ◌%◌, ◌≡◌, ◌≢◌, ◌<◌, refl, sym, ap, ◌∙◌, [], ◌∷◌, ◌++◌,
  true, false, get_or, bit_and, Bytes, All, AreBytes, arith, ltb, ◌==◌, if_elim, if◌then◌else◌,
  append_cancel,
}
use moon_flare.Prelude.Bits.{and_mask}

-- The number that a hexadecimal digit stands for.
abbrev pub unhex : ℕ → ℕ
unhex h = if ltb h b'A' then h - b'0' else h - 55

-- The bytes that a form field stands for.
unfoldable pub unescape : Bytes → Bytes
unescape [] = []
unescape (c ∷ []) = c ∷ []
unescape (c ∷ h ∷ []) = c ∷ h ∷ []
unescape (c ∷ h ∷ l ∷ s) =
    let far = unescape s in
    let near = unescape (h ∷ l ∷ s) in
    if c == b'%' then (unhex h * 16 + unhex l) ∷ far else c ∷ near

unescape-two : (c h : ℕ) → unescape (c ∷ h ∷ []) ≡ c ∷ unescape (h ∷ [])
unfolding unescape
unescape-two c h = refl

unescape-plain : (c : ℕ) (s : Bytes) → (c == b'%') ≡ false → unescape (c ∷ s) ≡ c ∷ unescape s
unfolding unescape
unescape-plain c [] h = refl
unescape-plain c (d ∷ []) h = refl
unescape-plain c (d ∷ e ∷ s) h = rw h refl

is_plain-no_percent : (c : ℕ) → is_plain c ≡ true → ((c == b'%') ≡ false) × (c ≢ b'&')
unfolding is_plain is_digit
is_plain-no_percent c h = ground arith

-- Every digit of a table reads as its place, counted from `k`.
abbrev Places : ℕ → Bytes → Type 0
Places k [] = Unit
Places k (d ∷ ds) = (unhex d ≡ k) × (d ≢ b'&') × Places (suc k) ds

get_or-Places :
    (ds : Bytes) (k n : ℕ)
    → Places k ds
    → n < length ds
    → (unhex (get_or ds n 0) ≡ k + n) × (get_or ds n 0 ≢ b'&')
get_or-Places [] k n h l = absurd (omega arith)
get_or-Places (d ∷ ds) k zero (h, m, t) l = (h ∙ omega arith, m)
get_or-Places (d ∷ ds) k (suc n) (h, m, t) l =
    let (e, q) = get_or-Places ds (suc k) n t (omega arith) in (e ∙ omega arith, q)

hex_digit : (n : ℕ) → n < 16 → (unhex (get_or hex n 0) ≡ n) × (get_or hex n 0 ≢ b'&')
hex_digit n h = let (e, q) = get_or-Places hex 0 n (ground arith) h in (e ∙ omega arith, q)

-- What `tb_escape` writes of bytes stands for these bytes.
pub unescape-escape : (s : Bytes) → AreBytes s → unescape (escape s) ≡ s
unfolding escape unescape
unescape-escape [] h = refl
unescape-escape (c ∷ s) (h, t) =
    if_elim (λ q. unescape q ≡ c ∷ s) (is_plain c) (c ∷ escape s) _
      (λ p.
        unescape-plain c (escape s) ((is_plain-no_percent c p).0)
        ∙ ap (◌∷◌ c) (unescape-escape s t))
      (λ p.
        let m : bit_and c 15 ≡ c % 16 = and_mask 4 c in
        let a = (hex_digit (c / 16) (omega arith)).0 in
        let b = (hex_digit (bit_and c 15) (omega (arith, m))).0 in
        rw (a, b, m, unescape-escape s t) (ap (λ q. q ∷ s) (omega arith)))

-- No byte of `s` ends a field.
abbrev IsField : Bytes → Type 0
IsField = All (λ c. c ≢ b'&')

escape-IsField : (s : Bytes) → AreBytes s → IsField (escape s)
unfolding escape
escape-IsField [] h = tt
escape-IsField (c ∷ s) (h, t) =
    if_elim IsField (is_plain c) (c ∷ escape s) _
      (λ p. ((is_plain-no_percent c p).1, escape-IsField s t))
      (λ p.
        let m : bit_and c 15 ≡ c % 16 = and_mask 4 c in
        let high = (hex_digit (c / 16) (omega arith)).1 in
        let low = (hex_digit (bit_and c 15) (omega (arith, m))).1 in
        (ground arith, (high, (low, escape-IsField s t))))

-- Two texts with a field in front have the same field and the same rest.
field_cancel :
    (xs ys us vs : Bytes)
    → IsField xs
    → IsField ys
    → xs ++ (b'&' ∷ us) ≡ ys ++ (b'&' ∷ vs)
    → (xs ≡ ys) × (us ≡ vs)
field_cancel [] [] us vs h k e = ground arith
field_cancel [] (y ∷ ys) us vs h (k, l) e = absurd (ground arith)
field_cancel (x ∷ xs) [] us vs (h, m) k e = absurd (ground arith)
field_cancel (x ∷ xs) (y ∷ ys) us vs (h, m) (k, l) e = ground (arith, field_cancel xs ys us vs m l)

escape-injective : (s t : Bytes) → AreBytes s → AreBytes t → escape s ≡ escape t → s ≡ t
escape-injective s t h k e = sym (unescape-escape s h) ∙ ap unescape e ∙ unescape-escape t k

-- The form of a phone number, a message and a key determines all three, whatever bytes they have:
-- no message can end its field and put another in.
pub form-injective :
    (phone message key phone' message' key' : Bytes)
    → AreBytes phone × AreBytes message × AreBytes key
    → AreBytes phone' × AreBytes message' × AreBytes key'
    → form phone message key ≡ form phone' message' key'
    → (phone ≡ phone') × (message ≡ message') × (key ≡ key')
unfolding form
form-injective p m k p' m' k' (a, b, c) (a', b', c') e =
    let (u, v) = append_cancel phone_is phone_is refl e in
    let (x, y) =
      field_cancel (escape p) (escape p')
        (message_is ++ (escape m ++ (b'&' ∷ (key_is ++ escape k))))
        (message_is ++ (escape m' ++ (b'&' ∷ (key_is ++ escape k')))) (escape-IsField p a)
        (escape-IsField p' a') v in
    let (z, w) = append_cancel message_is message_is refl y in
    let (q, r) =
      field_cancel (escape m) (escape m') (key_is ++ escape k) (key_is ++ escape k')
        (escape-IsField m b) (escape-IsField m' b') w in
    let (s, t) = append_cancel key_is key_is refl r in
    (escape-injective p p' a a' x, escape-injective m m' b b' q, escape-injective k k' c c' t)
