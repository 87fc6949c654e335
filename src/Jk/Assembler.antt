-- ===== src/Jk/Assembler.antt =====
-- `jk_assembler_feed` of src/jk/jk_proto.c: frames of 300 bytes out of notifications.
--
-- `buf` with `buf_len` is the list of the bytes in use. The four bytes that `memcmp` compares are
-- there at every offset that the code tests, so a list that is cut short compares unequal.
pub mod Rounds
pub mod Feed
pub mod Overflow
pub mod Deliver
use moon_flare.Jk.Frame.{
  frame_size, crc_offset, header_rsp, at_junk, frame_cell_info, frame_settings, frame_device_info,
  crc8,
}
use moon_flare.Prelude.{
  ℕ, zero, suc, ◌+◌, ◌-◌, ◌%◌, ◌^◌, List, [], ◌∷◌, ◌++◌, Bool, ◌&&◌, ◌||◌, Option, none, some,
  length, take, drop, get_or, same_bytes, ltb, leb, ◌==◌, if◌then◌else◌, Bytes,
}

-- `jk_frame_assembler_t`
pub record Assembler : Type 0 where
  pub buf : Bytes
  pub dropped : ℕ
  pub corrupt : ℕ

abbrev pub buf_size : ℕ
buf_size = 512

-- `jk_assembler_init`
abbrev pub empty : Assembler
empty = record { buf = []; dropped = 0; corrupt = 0 }

-- What a call has done so far: the assembler, the caller's `frame_buf`, and the count of frames.
pub record Drained : Type 0 where
  pub asm : Assembler
  pub frame_buf : Bytes
  pub count : ℕ

abbrev pub has_header : Bytes → Bool
has_header bs = same_bytes (take 4 bs) header_rsp

-- The first header in `bs`, which begins at the offset `i` of the buffer.
unfoldable pub find_header : Bytes → ℕ → Option ℕ
find_header [] i = none
find_header (b ∷ bs) i = if has_header (b ∷ bs) then some i else find_header bs (i + 1)

-- Bytes go from the front of the buffer, and are counted in an `uint32_t`.
unfoldable pub discard : Assembler → ℕ → Assembler
discard a n = record a { buf = drop n a.buf; dropped = (a.dropped + n) % 2 ^ 32 }

-- The last four bytes may be the start of a header.
unfoldable pub keep_four : Assembler → Assembler
keep_four a = if ltb 4 (length a.buf) then discard a (length a.buf - 4) else a

unfoldable pub frame_ok : Bytes → Bool
frame_ok frame =
    crc8 (take (frame_size - 1) frame) == get_or frame crc_offset 0
    && (get_or frame 4 0 == frame_cell_info
        || get_or frame 4 0 == frame_settings
        || get_or frame 4 0 == frame_device_info)

-- How one round of the loop ends: by `break`, or by going on.
pub data Round : Type 0 where
  stop again : Drained → Round

-- Bad checksum or unknown type: the search goes on behind the first byte.
unfoldable pub resync : Assembler → Option ℕ → Assembler
resync a (some next) = discard a next
resync a none = if ltb 4 (length a.buf) then keep_four a else record a { buf = [] }

unfoldable pub take_frame : Drained → Drained
take_frame d = record {
  asm = record (d.asm) { buf = drop frame_size d.asm.buf };
  frame_buf = take frame_size d.asm.buf;
  count = d.count + 1;
}

-- A header stands at the front.
unfoldable pub at_header : Drained → Round
at_header d =
    let a = record (d.asm) { corrupt = (d.asm.corrupt + 1) % 2 ^ 32 } in
    if ltb (length d.asm.buf) frame_size
    then stop d
    else if frame_ok (take frame_size d.asm.buf)
    then again (take_frame d)
    else again (record d { asm = resync a (find_header (drop 1 a.buf) 1) })

-- On the place of the first header.
unfoldable pub round_at : Drained → Option ℕ → Round
round_at d none = stop (record d { asm = keep_four d.asm })
round_at d (some zero) = at_header d
round_at d (some (suc hpos)) = again (record d { asm = discard d.asm (suc hpos) })

unfoldable pub round : Drained → Round
round d = round_at d (find_header d.asm.buf 0)

-- The loop, which runs while there is room for a frame and a header may be there. `none` means
-- that the fuel ran out.
unfoldable pub drain : ℕ → ℕ → Drained → Option Drained
drain zero most d = none
drain (suc fuel) most d =
    if ltb d.count most && leb 4 (length d.asm.buf)
    then (elim (round d) [ stop e ↦ some e | again e ↦ drain fuel most e ])
    else some d

strip_leading : Bytes → Bytes
strip_leading chunk =
    if leb 4 (length chunk) && same_bytes (take 4 chunk) at_junk then drop 4 chunk else chunk

strip_trailing : Bytes → Bytes
strip_trailing chunk =
    let rest = length chunk - 4 in
    if leb 4 (length chunk) && same_bytes (drop rest chunk) at_junk then take rest chunk else chunk

unfoldable pub strip : Bytes → Bytes
unfolding strip_leading strip_trailing
strip chunk = strip_trailing (strip_leading chunk)

-- What `jk_assembler_feed` does with a chunk that has been stripped. A round that goes on takes at
-- least a byte off the buffer, so its length and one more rounds are enough.
unfoldable pub feed_stripped : Assembler → Bytes → Bytes → ℕ → Option Drained
feed_stripped a chunk frame_buf most =
    let room = buf_size - length a.buf in
    let over : Assembler = record {
      buf = a.buf ++ take room chunk;
      dropped = (a.dropped + (length chunk - room)) % 2 ^ 32;
      corrupt = a.corrupt;
    } in
    let full = record a { buf = a.buf ++ chunk } in
    if length chunk == 0 && ltb (length a.buf) frame_size
    then some (record { asm = a; frame_buf = frame_buf; count = 0 })
    else if ltb room (length chunk)
    then some (record { asm = over; frame_buf = frame_buf; count = 0 })
    else drain (suc (length full.buf)) most
        (record { asm = full; frame_buf = frame_buf; count = 0 })

-- `jk_assembler_feed`; the count is what it returns.
unfoldable pub feed : Assembler → Bytes → Bytes → ℕ → Option Drained
feed a chunk frame_buf most = feed_stripped a (strip chunk) frame_buf most
