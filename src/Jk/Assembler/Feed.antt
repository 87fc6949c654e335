-- ===== src/Jk/Assembler/Feed.antt =====
-- `jk_assembler_feed` ends, stays inside its buffer, loses no byte, and hands out only whole frames
-- with a right checksum.
use moon_flare.Jk.Frame.{frame_size}
use moon_flare.Jk.Assembler.{
  Assembler, Drained, buf_size, Round, stop, again, round, drain, strip, feed_stripped, feed,
}
use moon_flare.Jk.Assembler.Rounds.{IsFrame, Advances, round-Advances}
use moon_flare.Prelude.{
  ℕ, zero, suc, ◌+◌, ◌-◌, ◌%◌, ◌^◌, ◌≤◌, ◌<◌, ◌≡◌, ◌⊎◌, inl, inr, refl, ◌∙◌, ◌++◌, ◌&&◌, List, [],
  ◌∷◌, All, ap, sym, Option, some, length, length-take, length-append, append_assoc, append-nil,
  take, drop, length-drop, true, take-append-drop, arith, Bytes, ltb, ltb→lt, leb, ◌==◌, Bool-cases,
}

-- What a call takes off the front of the buffer.
pub data Piece : Type 0 where
  skipped framed : Bytes → Piece

abbrev pub joined : List Piece → Bytes
joined [] = []
joined (skipped bs ∷ ps) = bs ++ joined ps
joined (framed f ∷ ps) = f ++ joined ps

abbrev pub frames_of : List Piece → List Bytes
frames_of [] = []
frames_of (skipped bs ∷ ps) = frames_of ps
frames_of (framed f ∷ ps) = f ∷ frames_of ps

abbrev pub skipped_size : List Piece → ℕ
skipped_size [] = 0
skipped_size (skipped bs ∷ ps) = length bs + skipped_size ps
skipped_size (framed f ∷ ps) = skipped_size ps

-- The last of the frames, which is what `frame_buf` holds behind them.
abbrev pub last_of : Bytes → List Bytes → Bytes
last_of f [] = f
last_of f (g ∷ gs) = last_of g gs

-- What the loop makes of `d`.
pub record Drains (most : ℕ) (d e : Drained) : Type 0 where
  pub pieces : List Piece
  pub whole : d.asm.buf ≡ joined pieces ++ e.asm.buf
  pub dropped : e.asm.dropped % 2 ^ 32 ≡ (d.asm.dropped + skipped_size pieces) % 2 ^ 32
  pub counted : e.count ≡ d.count + length (frames_of pieces)
  pub handed : e.frame_buf ≡ last_of d.frame_buf (frames_of pieces)
  pub frames : All IsFrame (frames_of pieces)
  pub bounded : d.count ≤ most → e.count ≤ most
  pub shrinks : frame_size ≤ length d.asm.buf → d.count < most → length e.asm.buf < length d.asm.buf

abbrev Finds : ℕ → Drained → Option Drained → Type 0
Finds most d o = (e : Drained) × (o ≡ some e) × Drains most d e

Drains-refl :
    (most : ℕ) (d : Drained) → (frame_size ≤ length d.asm.buf → most ≤ d.count) → Drains most d d
Drains-refl most d h = record {
  pieces = [];
  whole = refl;
  dropped = omega arith;
  counted = omega arith;
  handed = refl;
  frames = tt;
  bounded = λ h. h;
  shrinks = λ l m. absurd (omega (arith, h l));
}

shorter :
    (d d' e : Drained) (ps : Bytes)
    → length d'.asm.buf < length d.asm.buf
    → d'.asm.buf ≡ ps ++ e.asm.buf
    → length e.asm.buf < length d.asm.buf
shorter d d' e ps h w = omega (arith, ap length w, length-append ps e.asm.buf)

-- After a round that goes on, what the later rounds make of its result.
again-Drains :
    (most : ℕ) (d d' e : Drained)
    → d.count < most
    → Advances d (again d')
    → Drains most d' e
    → Drains most d e
again-Drains most d d' e h (l, inl (k, (c, f))) r = record {
  pieces = skipped k.bytes ∷ r.pieces;
  whole =
      k.whole ∙ ap (◌++◌ k.bytes) r.whole ∙ sym (append_assoc k.bytes (joined r.pieces) e.asm.buf);
  dropped = omega (arith, r.dropped, k.counted);
  counted = omega (arith, r.counted, c);
  handed = r.handed ∙ ap (λ g. last_of g (frames_of r.pieces)) f;
  frames = r.frames;
  bounded = λ m. r.bounded (omega (arith, c));
  shrinks = λ u v. shorter d d' e (joined r.pieces) l r.whole;
}
again-Drains most d d' e h (l, inr (w, k, c, f)) r = record {
  pieces = framed d'.frame_buf ∷ r.pieces;
  whole =
      w
      ∙ ap (◌++◌ d'.frame_buf) r.whole
      ∙ sym (append_assoc d'.frame_buf (joined r.pieces) e.asm.buf);
  dropped = omega (arith, r.dropped, k);
  counted = omega (arith, r.counted, c);
  handed = r.handed;
  frames = (f, r.frames);
  bounded = λ m. r.bounded (omega (arith, c));
  shrinks = λ u v. shorter d d' e (joined r.pieces) l r.whole;
}

round-Finds :
    (most : ℕ) (d : Drained) (r : Round) (later : Drained → Option Drained)
    → d.count < most
    → Advances d r
    → ((d' : Drained) → length d'.asm.buf < length d.asm.buf → Finds most d' (later d'))
    → Finds most d (elim r [ stop e ↦ some e | again e ↦ later e ])
round-Finds most d (stop e) later h (k, s, (c, f)) g = (
  e,
  refl,
  record {
    pieces = skipped k.bytes ∷ [];
    whole = k.whole ∙ ap (λ bs. bs ++ e.asm.buf) (sym (append-nil k.bytes));
    dropped = omega (arith, k.counted);
    counted = omega (arith, c);
    handed = f;
    frames = tt;
    bounded = λ m. omega (arith, c);
    shrinks = λ l m. s l;
  },
)
round-Finds most d (again d') later h a f =
    let (e, q, r) = f d' a.0 in (e, q, again-Drains most d d' e h a r)

drain-Finds :
    (fuel most : ℕ) (d : Drained) → length d.asm.buf < fuel → Finds most d (drain fuel most d)
unfolding drain
drain-Finds zero most d h = elim h [ ]
drain-Finds (suc fuel) most d h = elim (Bool-cases (ltb d.count most && leb 4 (length d.asm.buf))) [
  | inl go ↦ rw go (
      round-Finds most d (round d) (λ e. drain fuel most e) (ground arith)
        (round-Advances d (ground arith)) (λ d' l. drain-Finds fuel most d' (omega arith)))
  | inr end ↦ rw end (d, refl, Drains-refl most d (λ l. ground arith))
]

-- What a call makes of the assembler `a` and a chunk, behind the stripping.
pub record Feeds (a : Assembler) (chunk : Bytes) (most : ℕ) (frame_buf : Bytes) (e : Drained)
    : Type 0 where
  pub kept : Bytes
  pub lost : Bytes
  pub pieces : List Piece
  pub taken : chunk ≡ kept ++ lost
  pub whole : a.buf ++ kept ≡ joined pieces ++ e.asm.buf
  pub dropped : e.asm.dropped % 2 ^ 32 ≡ (a.dropped + skipped_size pieces + length lost) % 2 ^ 32
  pub counted : e.count ≡ length (frames_of pieces)
  pub handed : e.frame_buf ≡ last_of frame_buf (frames_of pieces)
  pub frames : All IsFrame (frames_of pieces)
  pub bounded : e.count ≤ most
  pub fits : length e.asm.buf ≤ buf_size
  pub room : (lost ≡ []) ⊎ (length e.asm.buf ≡ buf_size)

-- The state in which the loop begins.
abbrev pub start : Assembler → Bytes → Bytes → Drained
start a chunk frame_buf = record {
  asm = record a { buf = a.buf ++ chunk };
  frame_buf = frame_buf;
  count = 0;
}

-- What is left of a chunk that does not fit.
abbrev pub overflowed : Assembler → Bytes → Assembler
overflowed a chunk = record {
  buf = a.buf ++ take (buf_size - length a.buf) chunk;
  dropped = (a.dropped + (length chunk - (buf_size - length a.buf))) % 2 ^ 32;
  corrupt = a.corrupt;
}

overflow-Feeds :
    (a : Assembler) (chunk frame_buf : Bytes) (most : ℕ)
    → length a.buf ≤ buf_size
    → buf_size - length a.buf < length chunk
    → (e : Drained) × (◌≡◌ {A = Option Drained}
        (some (record { asm = overflowed a chunk; frame_buf = frame_buf; count = 0 }))
        (some e))
      × Feeds a chunk most frame_buf e
overflow-Feeds a chunk frame_buf most h l =
    let room = buf_size - length a.buf in
    (
      record { asm = overflowed a chunk; frame_buf = frame_buf; count = 0 },
      refl,
      record {
        kept = take room chunk;
        lost = drop room chunk;
        pieces = [];
        taken = sym (take-append-drop room chunk);
        whole = refl;
        dropped = omega (arith, length-drop room chunk);
        counted = refl;
        handed = refl;
        frames = tt;
        bounded = omega arith;
        fits = omega (arith, length-append a.buf (take room chunk), length-take room chunk);
        room = inr (omega (arith, length-append a.buf (take room chunk), length-take room chunk));
      },
    )

drained-Feeds :
    (a : Assembler) (chunk frame_buf : Bytes) (most : ℕ) (e : Drained)
    → length a.buf + length chunk ≤ buf_size
    → Drains most (start a chunk frame_buf) e
    → Feeds a chunk most frame_buf e
drained-Feeds a chunk frame_buf most e h r = record {
  kept = chunk;
  lost = [];
  pieces = r.pieces;
  taken = sym (append-nil chunk);
  whole = r.whole;
  dropped = omega (arith, r.dropped);
  counted = omega (arith, r.counted);
  handed = r.handed;
  frames = r.frames;
  bounded = r.bounded (omega arith);
  fits = omega (
    arith,
    ap length r.whole,
    length-append (joined r.pieces) e.asm.buf,
    length-append a.buf chunk,
  );
  room = inl refl;
}

pub start-Finds :
    (a : Assembler) (chunk frame_buf : Bytes) (most : ℕ)
    → Finds most
        (start a chunk frame_buf)
        (drain (suc (length (a.buf ++ chunk))) most (start a chunk frame_buf))
start-Finds a chunk frame_buf most =
    drain-Finds (suc (length (a.buf ++ chunk))) most (start a chunk frame_buf) (omega arith)

nothing : (xs : Bytes) → (length xs == 0) ≡ true → xs ≡ []
nothing [] e = refl
nothing (x ∷ xs) e = ground arith

feed_stripped-Feeds :
    (a : Assembler) (chunk frame_buf : Bytes) (most : ℕ)
    → length a.buf ≤ buf_size
    → (e : Drained) × (feed_stripped a chunk frame_buf most ≡ some e)
      × Feeds a chunk most frame_buf e
unfolding feed_stripped
feed_stripped-Feeds a chunk frame_buf most h =
    elim (Bool-cases (length chunk == 0 && ltb (length a.buf) frame_size)) [
      | inl idle ↦ rw idle (
        record { asm = a; frame_buf = frame_buf; count = 0 },
        refl,
        record {
          kept = chunk;
          lost = [];
          pieces = [];
          taken = sym (append-nil chunk);
          whole = ap (◌++◌ a.buf) (nothing chunk (ground arith)) ∙ append-nil a.buf;
          dropped = omega arith;
          counted = refl;
          handed = refl;
          frames = tt;
          bounded = omega arith;
          fits = h;
          room = inl refl;
        },
      )
      | inr busy ↦ rw busy (elim (Bool-cases (ltb (buf_size - length a.buf) (length chunk))) [
        | inl over ↦ rw over (overflow-Feeds a chunk frame_buf most h (ltb→lt _ _ over))
        | inr fits ↦ rw fits (
            let (e, q, r) = start-Finds a chunk frame_buf most in
            (e, q, drained-Feeds a chunk frame_buf most e (ground arith) r))
      ])
    ]

-- `jk_assembler_feed` ends on every assembler with at most 512 bytes, and keeps at most 512. The
-- bytes that were in the buffer and those of the chunk (behind the stripping of "AT" lines) are, in
-- their order, pieces that the call takes off, what the buffer then holds, and the end of the chunk
-- that has no room, if the buffer is then full. A piece is a frame that is handed out, of 300 bytes with the header, a known
-- type and the right checksum, or bytes that `dropped` counts (modulo 2 to the 32), with those
-- without room. The frames are as many as the call returns, no more than asked for, and `frame_buf`
-- holds the last of them, or what it held.
pub feed-Feeds :
    (a : Assembler) (chunk frame_buf : Bytes) (most : ℕ)
    → length a.buf ≤ buf_size
    → (e : Drained) × (feed a chunk frame_buf most ≡ some e)
      × Feeds a (strip chunk) most frame_buf e
unfolding feed
feed-Feeds a chunk frame_buf most h = feed_stripped-Feeds a (strip chunk) frame_buf most h
