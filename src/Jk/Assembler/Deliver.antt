-- ===== src/Jk/Assembler/Deliver.antt =====
-- A frame that arrives in pieces is put together again.
use moon_flare.Jk.Frame.{frame_size, header_rsp}
use moon_flare.Jk.Assembler.{
  Assembler, empty, Drained, find_header, frame_ok, again, take_frame, at_header, round_at, round,
  drain, strip, feed_stripped, feed,
}
use moon_flare.Jk.Assembler.Rounds.{IsFrame, frame_ok_iff}
use moon_flare.Prelude.{
  ℕ, zero, suc, ◌+◌, ◌≤◌, ◌<◌, ◌≡◌, refl, sym, ap, ◌∙◌, List, [], ◌∷◌, ◌++◌, true, false, ◌&&◌,
  Option, none, some, length, length-append, take, take_all, drop, append_assoc, append-nil,
  same_bytes_iff, arith, Bytes, All, ltb, leb, ◌==◌, dec_lt, if◌then◌else◌,
}

-- One call for each piece, up to the first that hands out a frame.
unfoldable pub feeds : Assembler → Bytes → List Bytes → Option Drained
feeds a frame_buf [] = some (record { asm = a; frame_buf = frame_buf; count = 0 })
feeds a frame_buf (c ∷ cs) = elim (feed a c frame_buf 1) [
  | none ↦ none
  | some e ↦ if e.count == 0 then feeds e.asm e.frame_buf cs else some e
]

-- The pieces in a row.
abbrev pub joined : List Bytes → Bytes
joined [] = []
joined (c ∷ cs) = c ++ joined cs

-- A piece that is not empty and has no "AT" line at its ends.
abbrev pub IsPlain : Bytes → Type 0
IsPlain c = (strip c ≡ c) × (0 < length c)

abbrev with_buf : Assembler → Bytes → Assembler
with_buf a bs = record a { buf = bs }

-- A buffer that begins as the frame does.
abbrev Begins : Bytes → Bytes → Type 0
Begins f bs = (rest : Bytes) × (bs ++ rest ≡ f)

take-append-le : (n : ℕ) (xs ys : Bytes) → n ≤ length xs → take n (xs ++ ys) ≡ take n xs
take-append-le zero xs ys h = refl
take-append-le (suc n) [] ys h = absurd (omega arith)
take-append-le (suc n) (x ∷ xs) ys h = ap (◌∷◌ x) (take-append-le n xs ys (omega arith))

first_frame : (n k : ℕ) → n ≡ 0 → 4 ≤ k → (ltb n 1 && leb 4 k) ≡ true
first_frame n k z h = ground arith

one_frame : (n k : ℕ) → n ≡ 0 → (ltb (n + 1) 1 && leb 4 k) ≡ false
one_frame n k z = ground arith

nil_of_length : (xs : Bytes) → length xs ≡ 0 → xs ≡ []
nil_of_length [] h = refl
nil_of_length (x ∷ xs) h = absurd (omega arith)

drop_all : (n : ℕ) (xs : Bytes) → length xs ≤ n → drop n xs ≡ []
drop_all zero [] h = refl
drop_all zero (x ∷ xs) h = absurd (omega arith)
drop_all (suc n) [] h = refl
drop_all (suc n) (x ∷ xs) h = drop_all n xs (omega arith)

module _ (f : Bytes) (frame : IsFrame f) where
  Begins-find_header : (bs : Bytes) → Begins f bs → 4 ≤ length bs → find_header bs 0 ≡ some 0
  unfolding find_header
  Begins-find_header [] b h = absurd (omega arith)
  Begins-find_header (x ∷ bs) (rest, e) h =
      let t : take 4 (x ∷ bs) ≡ header_rsp =
        sym (take-append-le 4 (x ∷ bs) rest h) ∙ ap (take 4) e ∙ frame.header in
      rw ((same_bytes_iff (take 4 (x ∷ bs)) header_rsp).1 t)

  -- The loop leaves a frame that is not all there,
  drain-part :
      (fuel : ℕ) (d : Drained)
      → Begins f d.asm.buf
      → length d.asm.buf < frame_size
      → drain (suc fuel) 1 d ≡ some d
  unfolding drain round round_at at_header
  drain-part fuel d b h = elim (dec_lt (length d.asm.buf) 4) [
    | yes few ↦ ground arith
    | no many ↦ ground (arith, Begins-find_header d.asm.buf b (omega arith))
  ]

  -- and takes one that is.
  round-whole : (d : Drained) → d.asm.buf ≡ f → round d ≡ again (take_frame d)
  unfolding round round_at at_header
  round-whole d e =
      let len : length d.asm.buf ≡ frame_size = ap length e ∙ frame.whole in
      let checked : frame_ok (take frame_size d.asm.buf) ≡ true =
        ap frame_ok (take_all frame_size d.asm.buf (omega arith) ∙ e)
        ∙ (frame_ok_iff f).1 frame.checked in
      let at = Begins-find_header d.asm.buf ([], append-nil d.asm.buf ∙ e) (omega arith) in
      let long : ltb (length d.asm.buf) frame_size ≡ false = ground arith in
      rw (at, round_at, long, checked)

  drain-whole :
      (fuel : ℕ) (d : Drained)
      → d.asm.buf ≡ f
      → d.count ≡ 0
      → drain (suc (suc fuel)) 1 d ≡ some (take_frame d)
  unfolding drain take_frame
  drain-whole fuel d e z =
      let len : length d.asm.buf ≡ frame_size = ap length e ∙ frame.whole in
      let go : (ltb d.count 1 && leb 4 (length d.asm.buf)) ≡ true =
        first_frame d.count (length d.asm.buf) z (omega arith) in
      let end : (ltb (d.count + 1) 1 && leb 4 (length (drop frame_size d.asm.buf))) ≡ false =
        one_frame d.count (length (drop frame_size d.asm.buf)) z in
      rw (go, round-whole d e, end)

  -- What the call with the last piece gives.
  taken :
      (d : Drained)
      → d.asm.buf ≡ f
      → d.count ≡ 0
      → take_frame d ≡ record { asm = with_buf d.asm []; frame_buf = f; count = 1 }
  unfolding take_frame
  taken d e z =
      let len : length d.asm.buf ≡ frame_size = ap length e ∙ frame.whole in
      ground (
        arith,
        drop_all frame_size d.asm.buf (omega arith),
        take_all frame_size d.asm.buf (omega arith),
      )

  abbrev started : Assembler → Bytes → Bytes → Drained
  started a bs frame_buf = record { asm = with_buf a bs; frame_buf = frame_buf; count = 0 }

  -- A piece that fits goes into the loop.
  feed-plain :
      (a : Assembler) (c frame_buf : Bytes)
      → IsPlain c
      → length a.buf + length c ≤ frame_size
      → feed a c frame_buf 1
        ≡ drain (suc (length (a.buf ++ c))) 1 (started a (a.buf ++ c) frame_buf)
  unfolding feed feed_stripped
  feed-plain a c frame_buf p h = rw (p.0, feed_stripped) (ground arith)

  feeds-frame :
      (cs : List Bytes) (a : Assembler) (frame_buf : Bytes)
      → a.buf ++ joined cs ≡ f
      → length a.buf < frame_size
      → All IsPlain cs
      → feeds a frame_buf cs ≡ some (record { asm = with_buf a []; frame_buf = f; count = 1 })
  unfolding feeds
  feeds-frame [] a frame_buf e h p =
      absurd (omega (arith, ap length (sym (append-nil a.buf) ∙ e), frame.whole))
  feeds-frame (c ∷ cs) a frame_buf e h p =
      let e' : (a.buf ++ c) ++ joined cs ≡ f = append_assoc a.buf c (joined cs) ∙ e in
      let len = length-append (a.buf ++ c) (joined cs) in
      let total = ap length e' ∙ frame.whole in
      let room : length a.buf + length c ≤ frame_size =
        omega (arith, len, total, length-append a.buf c) in
      rw (feed-plain a c frame_buf p.0 room, feeds)
        (elim (dec_lt (length (a.buf ++ c)) frame_size) [
          | yes l ↦
              rw
                (drain-part (length (a.buf ++ c)) (started a (a.buf ++ c) frame_buf) (joined cs, e')
                  l)
                (feeds-frame cs (with_buf a (a.buf ++ c)) frame_buf e' l p.1)
          | no g ↦
              let none_left = nil_of_length (joined cs) (omega (arith, len, total)) in
              let all : a.buf ++ c ≡ f =
                sym (append-nil (a.buf ++ c)) ∙ ap (λ r. (a.buf ++ c) ++ r) (sym none_left) ∙ e' in
              let st = started a (a.buf ++ c) frame_buf in
              let size : length (a.buf ++ c) ≡ suc 299 = ap length all ∙ frame.whole in
              rw (
                ap (λ k. drain (suc k) 1 st) size
                ∙ drain-whole 299 st all refl
                ∙ ap some (taken st all refl))
        ])

-- A frame (300 bytes with the header, a known type and the right checksum) that comes to a fresh
-- assembler in any number of pieces, none of them empty or with an "AT" line at an end, is handed
-- out by the call with the last piece, whole and unchanged. Nothing is left in the buffer, dropped
-- or counted as corrupt.
pub feeds-IsFrame :
    (f : Bytes) (cs : List Bytes) (frame_buf : Bytes)
    → IsFrame f
    → joined cs ≡ f
    → All IsPlain cs
    → feeds empty frame_buf cs ≡ some (record { asm = empty; frame_buf = f; count = 1 })
feeds-IsFrame f cs frame_buf h e p = feeds-frame f h cs empty frame_buf e (omega arith) p
