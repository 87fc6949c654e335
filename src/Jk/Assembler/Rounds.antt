-- ===== src/Jk/Assembler/Rounds.antt =====
-- One round of the assembler's loop: what it takes off the buffer, what it keeps, and that it makes
-- progress.
use moon_flare.Jk.Frame.{
  crc8, crc_offset, frame_cell_info, frame_settings, frame_device_info, frame_size, header_rsp,
}
use moon_flare.Jk.Assembler.{
  Assembler, Drained, has_header, find_header, discard, keep_four, frame_ok, Round, stop, again,
  resync, take_frame, at_header, round_at, round,
}
use moon_flare.Prelude.{
  ◌==◌, ◌&&◌, ◌||◌, ◌↔◌, get_or, ℕ, zero, suc, ◌+◌, ◌-◌, ◌%◌, ◌^◌, ◌≤◌, ◌<◌, ◌≡◌, ◌⊎◌, inl, inr,
  refl, ap, ◌∙◌, sym, [], ◌∷◌, ◌++◌, take-append-drop, if_elim, true, Option, none, some, length,
  length-take, length-drop, take, take-take, drop, same_bytes_iff, arith, Bytes, ltb, Bool-cases,
}

-- The types of frame that are handed out.
abbrev pub IsKnown : ℕ → Type 0
IsKnown t = (t ≡ frame_cell_info) ⊎ (t ≡ frame_settings) ⊎ (t ≡ frame_device_info)

-- The byte sum is right, and the type is known.
unfoldable pub IsChecked : Bytes → Type 0
IsChecked frame =
    (crc8 (take (frame_size - 1) frame) ≡ get_or frame crc_offset 0) × IsKnown (get_or frame 4 0)

-- A frame that the decoders accept up to its type.
pub record IsFrame (frame : Bytes) : Type 0 where
  pub whole : length frame ≡ frame_size
  pub header : take 4 frame ≡ header_rsp
  pub checked : IsChecked frame

checks_iff :
    (a b t : ℕ)
    → ((a == b && (t == frame_cell_info || t == frame_settings || t == frame_device_info)) ≡ true)
      ↔ ((a ≡ b) × IsKnown t)
checks_iff a b t = ground arith

pub frame_ok_iff : (f : Bytes) → (frame_ok f ≡ true) ↔ IsChecked f
unfolding frame_ok IsChecked
frame_ok_iff f = checks_iff (crc8 (take (frame_size - 1) f)) (get_or f crc_offset 0) (get_or f 4 0)

-- Where a header was found, it stands, and it ends inside the list.
find_header-has :
    (bs : Bytes) (i n : ℕ)
    → find_header bs i ≡ some n
    → (i ≤ n) × (n + 4 ≤ length bs + i) × (take 4 (drop (n - i) bs) ≡ header_rsp)
unfolding find_header
find_header-has [] i n e = cc
find_header-has (b ∷ bs) i n e = elim (Bool-cases (has_header (b ∷ bs))) [
  | inl here ↦
      let h = (same_bytes_iff (take 4 (b ∷ bs)) header_rsp).0 here in
      let p : n ≡ i = ground arith in
      let z : i - i ≡ 0 = omega arith in
      rw p (rw z (omega arith, omega (arith, ap length h, length-take 4 (b ∷ bs)), h))
  | inr later ↦
      let r = find_header-has bs (i + 1) n (ground arith) in
      let z : n - i ≡ suc (n - (i + 1)) = omega (arith, r.0) in
      rw z (omega (arith, r.0), omega (arith, r.1), r.2)
]

-- Bytes leave the front of the buffer, and are counted as dropped.
pub record Skips (a b : Assembler) : Type 0 where
  pub bytes : Bytes
  pub whole : a.buf ≡ bytes ++ b.buf
  pub counted : b.dropped % 2 ^ 32 ≡ (a.dropped + length bytes) % 2 ^ 32

abbrev Hands : Drained → Drained → Type 0
Hands d e =
    (d.asm.buf ≡ e.frame_buf ++ e.asm.buf)
    × (e.asm.dropped ≡ d.asm.dropped)
    × (e.count ≡ d.count + 1)
    × IsFrame e.frame_buf

-- What one round makes of `d`.
abbrev pub Advances : Drained → Round → Type 0
Advances d (stop e) =
    Skips d.asm e.asm
    × (frame_size ≤ length d.asm.buf → length e.asm.buf < length d.asm.buf)
    × ((e.count ≡ d.count) × (e.frame_buf ≡ d.frame_buf))
Advances d (again e) =
    (length e.asm.buf < length d.asm.buf)
    × ((Skips d.asm e.asm × ((e.count ≡ d.count) × (e.frame_buf ≡ d.frame_buf))) ⊎ Hands d e)

Skips-refl : (a : Assembler) → Skips a a
Skips-refl a = record { bytes = []; whole = refl; counted = omega arith }

discard-Skips : (a : Assembler) (n : ℕ) → n ≤ length a.buf → Skips a (discard a n)
unfolding discard
discard-Skips a n h = record {
  bytes = take n a.buf;
  whole = sym (take-append-drop n a.buf);
  counted = omega (arith, length-take n a.buf);
}

length-discard : (a : Assembler) (n : ℕ) → length (discard a n).buf ≡ length a.buf - n
unfolding discard
length-discard a n = length-drop n a.buf

keep_four-Skips :
    (a : Assembler)
    → Skips a (keep_four a) × (4 < length a.buf → length (keep_four a).buf < length a.buf)
unfolding keep_four
keep_four-Skips a =
    let n = length a.buf - 4 in
    if_elim (λ (b : Assembler). Skips a b × (4 < length a.buf → length b.buf < length a.buf))
      (ltb 4 (length a.buf)) (discard a n) a
      (λ t. (discard-Skips a n (omega arith), (λ h. omega (arith, length-discard a n))))
      (λ t. (Skips-refl a, (λ h. ground arith)))

resync-Skips :
    (a : Assembler) (o : Option ℕ)
    → frame_size ≤ length a.buf
    → ((next : ℕ) → o ≡ some next → (1 ≤ next) × (next + 4 ≤ length a.buf))
    → Skips a (resync a o) × (length (resync a o).buf < length a.buf)
unfolding resync
resync-Skips a none h f =
    let (k, l) = keep_four-Skips a in
    if_elim (λ (b : Assembler). Skips a b × (length b.buf < length a.buf)) (ltb 4 (length a.buf)) _
      _ (λ t. (k, l (omega arith))) (λ t. absurd (ground arith))
resync-Skips a (some next) h f = (
  discard-Skips a next (omega (arith, (f next refl).1)),
  omega (arith, f next refl, length-discard a next),
)

take_frame-Advances :
    (d : Drained)
    → frame_size ≤ length d.asm.buf
    → take 4 d.asm.buf ≡ header_rsp
    → frame_ok (take frame_size d.asm.buf) ≡ true
    → Advances d (again (take_frame d))
unfolding take_frame
take_frame-Advances d l h ok = (
  omega (arith, length-drop frame_size d.asm.buf),
  inr (
    sym (take-append-drop frame_size d.asm.buf),
    refl,
    refl,
    record {
      whole = omega (arith, length-take frame_size d.asm.buf);
      header = take-take 4 frame_size d.asm.buf (omega arith) ∙ h;
      checked = (frame_ok_iff (take frame_size d.asm.buf)).0 ok;
    },
  ),
)

abbrev corrupted : Assembler → Assembler
corrupted a = record a { corrupt = (a.corrupt + 1) % 2 ^ 32 }

next_header :
    (buf : Bytes)
    → frame_size ≤ length buf
    → (next : ℕ) → find_header (drop 1 buf) 1 ≡ some next
    → (1 ≤ next) × (next + 4 ≤ length buf)
next_header buf l next e =
    let r = find_header-has (drop 1 buf) 1 next e in (r.0, omega (arith, r.1, length-drop 1 buf))

at_header-Advances : (d : Drained) → take 4 d.asm.buf ≡ header_rsp → Advances d (at_header d)
unfolding at_header
at_header-Advances d h = elim (Bool-cases (ltb (length d.asm.buf) frame_size)) [
  | inl short ↦ rw short (Skips-refl d.asm, (λ l. ground arith), (refl, refl))
  | inr long ↦
      let l : frame_size ≤ length d.asm.buf = ground arith in
      elim (Bool-cases (frame_ok (take frame_size d.asm.buf))) [
        | inl good ↦ rw (long, good) (take_frame-Advances d l h good)
        | inr bad ↦
            let (k, m) =
              resync-Skips (corrupted d.asm) (find_header (drop 1 d.asm.buf) 1) l
                (next_header d.asm.buf l) in
            let same : Skips d.asm (resync (corrupted d.asm) (find_header (drop 1 d.asm.buf) 1)) =
              record { bytes = k.bytes; whole = k.whole; counted = k.counted } in
            rw (long, bad) (m, inl (same, (refl, refl)))
      ]
]

round_at-Advances :
    (d : Drained) (o : Option ℕ)
    → 4 ≤ length d.asm.buf
    → ((n : ℕ) → o ≡ some n → (n + 4 ≤ length d.asm.buf) × (take 4 (drop n d.asm.buf) ≡ header_rsp))
    → Advances d (round_at d o)
unfolding round_at
round_at-Advances d none l f =
    let (k, m) = keep_four-Skips d.asm in (k, (λ h. m (omega arith)), (refl, refl))
round_at-Advances d (some zero) l f = at_header-Advances d (f 0 refl).1
round_at-Advances d (some (suc n)) l f =
    let h = f (suc n) refl in
    (
      omega (arith, h.0, length-discard d.asm (suc n)),
      inl (discard-Skips d.asm (suc n) (omega (arith, h.0)), (refl, refl)),
    )

pub round-Advances : (d : Drained) → 4 ≤ length d.asm.buf → Advances d (round d)
unfolding round
round-Advances d l = round_at-Advances d (find_header d.asm.buf 0) l (λ n e.
    let r = find_header-has d.asm.buf 0 n e in
    let z : n - 0 ≡ n = omega arith in (omega (arith, r.1), rw z at r.2))
