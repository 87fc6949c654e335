-- ===== src/Jk/Decode/Text.antt =====
-- What `_read_str` makes of a field.
use moon_flare.Jk.Frame.{frame_size}
use moon_flare.Jk.Decode.{c_string, is_blank, strip_end, read_str}
use moon_flare.Prelude.{
  ℕ, zero, suc, ◌-◌, ◌≤◌, ◌<◌, ◌≡◌, refl, ap, ◌∙◌, [], ◌∷◌, ◌++◌, false, length, take, drop,
  replicate, length-take, length-append, append-nil, leb, ◌==◌, arith, if◌then◌else◌, min, Bytes,
  Bool-cases, inl, inr,
}

length-c_string : (bs : Bytes) → length (c_string bs) ≤ length bs
unfolding c_string
length-c_string [] = omega arith
length-c_string (b ∷ bs) = ground (arith, length-c_string bs)

c_string-c_string : (bs : Bytes) → c_string (c_string bs) ≡ c_string bs
unfolding c_string
c_string-c_string [] = refl
c_string-c_string (b ∷ bs) = elim (Bool-cases (b == 0)) [
  | inl z ↦ rw z
  | inr nz ↦ rw (nz, c_string) (rw nz (ap (◌∷◌ b) (c_string-c_string bs)))
]

c_string-zeros : (k : ℕ) → c_string (replicate k 0) ≡ []
unfolding c_string
c_string-zeros zero = refl
c_string-zeros (suc k) = refl

-- A string of no more than these bytes, with zeros behind it, is itself.
c_string-padded : (bs : Bytes) (k : ℕ) → c_string (c_string bs ++ replicate k 0) ≡ c_string bs
unfolding c_string
c_string-padded [] k = c_string-zeros k
c_string-padded (b ∷ bs) k = elim (Bool-cases (b == 0)) [
  | inl z ↦ rw z (c_string-zeros k)
  | inr nz ↦ rw (nz, c_string) (rw nz (ap (◌∷◌ b) (c_string-padded bs k)))
]

-- A zero at the end stops the stripping at once.
strip_end-zeros :
    (xs : Bytes) (k : ℕ) → strip_end (xs ++ replicate (suc k) 0) ≡ xs ++ replicate (suc k) 0
unfolding strip_end is_blank
strip_end-zeros [] zero = refl
strip_end-zeros [] (suc k) = ground (arith, strip_end-zeros [] k)
strip_end-zeros (x ∷ xs) k =
    rw (strip_end-zeros xs k) (ground (arith, length-append xs (replicate (suc k) 0)))

c_string-strip_end : (bs : Bytes) → c_string (strip_end (c_string bs)) ≡ strip_end (c_string bs)
unfolding c_string strip_end
c_string-strip_end [] = refl
c_string-strip_end (b ∷ bs) = ground (arith, c_string-strip_end bs)

-- The bytes of the frame that a field covers.
abbrev pub field_of : Bytes → ℕ → ℕ → Bytes
field_of frame off len = take (min len (frame_size - off)) (drop off frame)

-- A field that begins in the frame is read as the bytes before its first NUL. Blanks at their end
-- are taken off only if there is no NUL in the field: else the zeros behind the string stop the
-- stripping, and the blanks stay.
pub read_str_lem :
    (frame : Bytes) (off len : ℕ)
    → off < frame_size
    → length frame ≡ frame_size
    → read_str frame off len ≡ (
        if length (c_string (field_of frame off len)) == min len (frame_size - off)
        then strip_end (c_string (field_of frame off len))
        else c_string (field_of frame off len))
unfolding read_str
read_str_lem frame off len h l =
    let n = min len (frame_size - off) in
    let s = c_string (field_of frame off len) in
    let inside : leb frame_size off ≡ false = ground arith in
    elim (Bool-cases (length s == n)) [
      | inl whole ↦
          let z : n - length s ≡ 0 = ground arith in
          rw (inside, whole, z, append-nil) (c_string-strip_end (field_of frame off len))
      | inr part ↦
          let le : length s ≤ n =
            omega
              (arith, length-c_string (field_of frame off len), length-take n (drop off frame)) in
          let z : n - length s ≡ suc (n - length s - 1) = ground arith in
          rw (inside, part, z)
            (ap c_string (strip_end-zeros s (n - length s - 1))
              ∙ c_string-padded (field_of frame off len) (suc (n - length s - 1)))
    ]
