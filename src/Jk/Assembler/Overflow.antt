-- ===== src/Jk/Assembler/Overflow.antt =====
-- What becomes of the assembler when a chunk does not fit into its buffer.
use moon_flare.Jk.Frame.{frame_size}
use moon_flare.Jk.Assembler.{Assembler, Drained, buf_size, strip, feed_stripped, feed}
use moon_flare.Jk.Assembler.Feed.{overflowed, start-Finds}
use moon_flare.Prelude.{
  ℕ, ◌+◌, ◌-◌, ◌%◌, ◌^◌, ◌≤◌, ◌<◌, ◌≡◌, refl, ap, ◌∙◌, some, length, length-take, length-append,
  take, append-nil, arith, Bytes, ◌++◌, ◌&&◌, false, ltb, ◌==◌,
}

-- A chunk of which the stripping leaves something is lost, and leaves the buffer as it is.
abbrev pub IsDeaf : Bytes → Type 0
IsDeaf buf =
    (a : Assembler) (chunk frame_buf : Bytes) (most : ℕ)
    → a.buf ≡ buf
    → 0 < length (strip chunk)
    → (e : Drained) × (feed a chunk frame_buf most ≡ some e)
      × (e.asm.buf ≡ buf)
      × (e.count ≡ 0)
      × (e.frame_buf ≡ frame_buf)
      × (e.asm.dropped ≡ (a.dropped + length (strip chunk)) % 2 ^ 32)

-- A chunk of which it leaves nothing makes room again.
abbrev pub Wakes : Bytes → Type 0
Wakes buf =
    (a : Assembler) (chunk frame_buf : Bytes) (most : ℕ)
    → a.buf ≡ buf
    → length (strip chunk) ≡ 0
    → 0 < most
    → (e : Drained) × (feed a chunk frame_buf most ≡ some e) × (length e.asm.buf < buf_size)

feed_stripped-over :
    (a : Assembler) (chunk frame_buf : Bytes) (most : ℕ)
    → buf_size - length a.buf < length chunk
    → feed_stripped a chunk frame_buf most
      ≡ some (record { asm = overflowed a chunk; frame_buf = frame_buf; count = 0 })
unfolding feed_stripped
feed_stripped-over a chunk frame_buf most h = ground arith

full-IsDeaf : (buf : Bytes) → length buf ≡ buf_size → IsDeaf buf
unfolding feed
full-IsDeaf buf l a chunk frame_buf most e h =
    let full : length a.buf ≡ buf_size = ap length e ∙ l in
    let z : buf_size - length a.buf ≡ 0 = omega arith in
    (
      record { asm = overflowed a (strip chunk); frame_buf = frame_buf; count = 0 },
      feed_stripped-over a (strip chunk) frame_buf most (omega arith),
      rw z (append-nil a.buf ∙ e),
      refl,
      refl,
      omega arith,
    )

feed_stripped-wakes :
    (a : Assembler) (chunk frame_buf : Bytes) (most : ℕ)
    → length a.buf ≡ buf_size
    → length chunk ≡ 0
    → 0 < most
    → (e : Drained) × (feed_stripped a chunk frame_buf most ≡ some e)
      × (length e.asm.buf < buf_size)
unfolding feed_stripped
feed_stripped-wakes a chunk frame_buf most l z m =
    let (e, q, r) = start-Finds a chunk frame_buf most in
    let whole : length (a.buf ++ chunk) ≡ buf_size = omega (arith, length-append a.buf chunk) in
    let busy : (length chunk == 0 && ltb (length a.buf) frame_size) ≡ false = ground arith in
    let fits : ltb (buf_size - length a.buf) (length chunk) ≡ false = ground arith in
    rw (busy, fits) (e, q, omega (arith, whole, r.shrinks (omega (arith, whole)) m))

full-Wakes : (buf : Bytes) → length buf ≡ buf_size → Wakes buf
unfolding feed
full-Wakes buf l a chunk frame_buf most e z m =
    feed_stripped-wakes a (strip chunk) frame_buf most (ap length e ∙ l) z m

-- A chunk that is longer than the room in the buffer stops the assembler. The call hands out no
-- frame, although the full buffer may hold one. While the buffer is as the call leaves it, every chunk
-- of which the stripping of "AT" lines leaves something is dropped whole, hands out no frame and
-- leaves the buffer so; a chunk of which it leaves nothing makes room in the buffer again, if a frame
-- is asked for.
pub feed-IsDeaf :
    (a : Assembler) (chunk frame_buf : Bytes) (most : ℕ)
    → length a.buf ≤ buf_size
    → buf_size - length a.buf < length (strip chunk)
    → (e : Drained) × (feed a chunk frame_buf most ≡ some e)
      × (e.count ≡ 0)
      × (length e.asm.buf ≡ buf_size)
      × (IsDeaf e.asm.buf × Wakes e.asm.buf)
unfolding feed
feed-IsDeaf a chunk frame_buf most h l =
    let room = buf_size - length a.buf in
    let full : length (overflowed a (strip chunk)).buf ≡ buf_size =
      omega
        (arith, length-append a.buf (take room (strip chunk)), length-take room (strip chunk)) in
    (
      record { asm = overflowed a (strip chunk); frame_buf = frame_buf; count = 0 },
      feed_stripped-over a (strip chunk) frame_buf most l,
      refl,
      full,
      (full-IsDeaf _ full, full-Wakes _ full),
    )
