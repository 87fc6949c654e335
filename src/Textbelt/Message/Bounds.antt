-- ===== src/Textbelt/Message/Bounds.antt =====
-- How long a message may be, and of what it is made.
use moon_flare.Textbelt.Message.{
  msg_max, buf_size, display, put_text, text, is_blank, put_title, char_start, cut, say, blank,
  message,
}
use moon_flare.Prelude.{
  ℕ, zero, suc, ◌+◌, ◌-◌, ◌≤◌, ◌<◌, ◌≡◌, ◌≢◌, false, refl, [], ◌∷◌, ◌++◌, Bool, ◌&&◌, ◌||◌, Option,
  length, length-append, length-take, take, get_or, min, Bytes, arith, trim_end, ltb, leb, ◌==◌,
  if_elim, dec_le,
}

-- A text as it is shown, behind a byte `p`: no byte below 32, and no blank behind a blank.
abbrev pub Shows : ℕ → Bytes → Type 0
Shows p [] = Unit
Shows p (c ∷ s) = (32 ≤ c) × (p ≡ 32 → c ≢ 32) × Shows c s

abbrev last : ℕ → Bytes → ℕ
last p [] = p
last p (c ∷ s) = last c s

Shows-append : (p : ℕ) (xs ys : Bytes) → Shows p xs → Shows (last p xs) ys → Shows p (xs ++ ys)
Shows-append p [] ys h k = k
Shows-append p (x ∷ xs) ys (h, b, t) k = (h, b, Shows-append x xs ys t k)

Shows-take : (n p : ℕ) (xs : Bytes) → Shows p xs → Shows p (take n xs)
Shows-take zero p xs h = tt
Shows-take (suc n) p [] h = tt
Shows-take (suc n) p (x ∷ xs) (h, b, t) = (h, b, Shows-take n x xs t)

Shows-trim_end :
    (q : ℕ → Bool) (p : ℕ) (xs : Bytes)
    → (Shows p xs → Shows p (trim_end q xs)) × (length (trim_end q xs) ≤ length xs)
unfolding trim_end
Shows-trim_end q p [] = (λ h. h, omega arith)
Shows-trim_end q p (x ∷ xs) = ground (arith, Shows-trim_end q x xs)

-- A byte that is not a blank, and what is shown behind it.
Shows-more : (p c : ℕ) (xs ys : Bytes) → Shows p xs → 32 < c → Shows c ys → Shows p (xs ++ (c ∷ ys))
Shows-more p c xs ys h l k = Shows-append p xs (c ∷ ys) h (omega arith, (λ e. omega arith), k)

display-shown : (c : ℕ) → 32 ≤ display c
unfolding display
display-shown c = ground arith

get_or-last : (x : ℕ) (xs : Bytes) → get_or (x ∷ xs) (length xs) 0 ≡ last x xs
get_or-last x [] = refl
get_or-last x (y ∷ ys) = get_or-last y ys

-- The text is empty or ends in a blank exactly as the code tests it.
last-test :
    (out : Bytes)
    → (length out == 0 || get_or out (length out - 1) 0 == 32) ≡ false
    → last 32 out ≢ 32
last-test [] m l = ground arith
last-test (x ∷ xs) m l =
    let e : suc (length xs) - 1 ≡ length xs = omega arith in
    let k : get_or (x ∷ xs) (suc (length xs) - 1) 0 ≡ last x xs = rw e (get_or-last x xs) in
    ground (arith, k)

put_text-Shows : (out : Bytes) (cap : ℕ) (s : Bytes) → Shows 32 out → Shows 32 (put_text out cap s)
unfolding put_text
put_text-Shows out cap [] h = h
put_text-Shows out cap (c ∷ s) h =
    if_elim (Shows 32) (leb cap (length out + 1)) out _ (λ k. h)
      (λ k.
        if_elim (Shows 32)
          (display c == 32 && (length out == 0 || get_or out (length out - 1) 0 == 32))
          (put_text out cap s) (put_text (out ++ (display c ∷ [])) cap s)
          (λ m. put_text-Shows out cap s h)
          (λ m.
            put_text-Shows (out ++ (display c ∷ [])) cap s
              (Shows-append 32 out (display c ∷ []) h (display-shown c, apart m, tt))))
  where
    apart :
        (display c == 32 && (length out == 0 || get_or out (length out - 1) 0 == 32)) ≡ false
        → last 32 out ≡ 32
        → display c ≢ 32
    apart m l e = last-test out (ground arith) l

put_title-Shows : (title : Bytes) → Shows 32 (put_title title)
unfolding put_title
put_title-Shows title =
    let t = trim_end is_blank (put_text [] buf_size title) in
    let h =
      (Shows-trim_end is_blank 32 (put_text [] buf_size title)).0
        (put_text-Shows [] buf_size title tt) in
    if_elim (Shows 32) (ltb 0 (length t) && ltb (length t + 2) buf_size) (t ++ (b':' ∷ 32 ∷ [])) t
      (λ k. Shows-more 32 b':' t (32 ∷ []) h (omega arith) (omega arith, (λ e. omega arith), tt))
      (λ k. h)

char_start-le : (buf : Bytes) (off : ℕ) → char_start buf off ≤ off
unfolding char_start
char_start-le buf zero = omega arith
char_start-le buf (suc off) = ground (arith, char_start-le buf off)

cut-Shows : (buf : Bytes) (max : ℕ) → Shows 32 buf → Shows 32 (cut buf max)
unfolding cut
cut-Shows buf max h =
    let part = take (char_start buf (max - 3)) buf in
    let k = (Shows-trim_end is_blank 32 part).0 (Shows-take (char_start buf (max - 3)) 32 buf h) in
    if_elim (Shows 32) (ltb max (length buf) && leb 4 max)
      (trim_end is_blank part ++ (b'.' ∷ b'.' ∷ b'.' ∷ [])) buf
      (λ m.
        Shows-more 32 b'.' (trim_end is_blank part) (b'.' ∷ b'.' ∷ []) k (omega arith)
          (omega arith, (λ e. omega arith), (omega arith, (λ e. omega arith), tt)))
      (λ m. h)

length-cut : (buf : Bytes) (max : ℕ) → 4 ≤ max → length (cut buf max) ≤ max
unfolding cut
length-cut buf max h =
    let part = take (char_start buf (max - 3)) buf in
    let l : length part ≤ max - 3 =
      omega (arith, length-take (char_start buf (max - 3)) buf, char_start-le buf (max - 3)) in
    if_elim (λ q. length q ≤ max) (ltb max (length buf) && leb 4 max)
      (trim_end is_blank part ++ (b'.' ∷ b'.' ∷ b'.' ∷ [])) buf
      (λ m. omega (
        arith,
        (Shows-trim_end is_blank 32 part).1,
        length-append (trim_end is_blank part) (b'.' ∷ b'.' ∷ b'.' ∷ []),
      ))
      (λ m. ground arith)

say-Shows : (title s : Bytes) (max : ℕ) → Shows 32 (say title s max)
unfolding say
say-Shows title s max =
    let whole = put_text (put_title title) buf_size s in
    cut-Shows (trim_end is_blank whole) max (
      (Shows-trim_end is_blank 32 whole).0
        (put_text-Shows (put_title title) buf_size s (put_title-Shows title)))

length-say : (title s : Bytes) (max : ℕ) → 4 ≤ max → length (say title s max) ≤ max
unfolding say
length-say title s max h =
    length-cut (trim_end is_blank (put_text (put_title title) buf_size s)) max h

-- What `tb_message` writes fits with its NUL in `cap` bytes, is never longer than 320 bytes, has no
-- byte below 32, no blank at its front and no two blanks in a row, whatever the title and the message
-- are. This does not exclude DEL (127), the control character that is above these.
pub message-Shows :
    (title s : Option Bytes) (cap : ℕ)
    → (length (message title s cap) ≤ cap - 1)
      × (length (message title s cap) ≤ msg_max)
      × Shows 32 (message title s cap)
unfolding message
message-Shows title s cap =
    let max = min (cap - 1) msg_max in
    let said = say (text title) (text s) max in
    if_elim (λ q. (length q ≤ cap - 1) × (length q ≤ msg_max) × Shows 32 q)
      (blank (put_text [] buf_size (text s))) [] (take (cap - 1) said)
      (λ h. (omega arith, omega arith, tt))
      (λ h. (
        omega (arith, length-take (cap - 1) said),
        elim (dec_le 4 max) [
          | yes k ↦
              omega (arith, length-say (text title) (text s) max k, length-take (cap - 1) said)
          | no k ↦ omega (arith, length-take (cap - 1) said)
        ],
        Shows-take (cap - 1) 32 said (say-Shows (text title) (text s) max),
      ))
