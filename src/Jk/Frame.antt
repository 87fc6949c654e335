-- ===== src/Jk/Frame.antt =====
-- What the command builders, the assembler and the decoders of src/jk share: the headers, the sum
-- of the bytes, and the little-endian readers.
pub mod Laws
use moon_flare.Prelude.{ℕ, ◌+◌, ◌*◌, ◌%◌, ◌^◌, List, [], ◌∷◌, bit_or, get_or, Bytes}

abbrev pub frame_size : ℕ
frame_size = 300

abbrev pub crc_offset : ℕ
crc_offset = 299

abbrev pub header_rsp : Bytes
header_rsp = 0x55 ∷ 0xaa ∷ 0xeb ∷ 0x90 ∷ []

abbrev pub header_cmd : Bytes
header_cmd = 0xaa ∷ 0x55 ∷ 0x90 ∷ 0xeb ∷ []

-- "AT" and a line end, which the Bluetooth module puts round its answers
abbrev pub at_junk : Bytes
at_junk = b'A' ∷ b'T' ∷ 13 ∷ 10 ∷ []

abbrev pub frame_settings : ℕ
frame_settings = 0x01

abbrev pub frame_cell_info : ℕ
frame_cell_info = 0x02

abbrev pub frame_device_info : ℕ
frame_device_info = 0x03

-- The loop of `jk_crc8`, with the sum of the bytes before.
crc_from : ℕ → Bytes → ℕ
crc_from s [] = s
crc_from s (b ∷ bs) = crc_from ((s + b) % 256) bs

unfoldable pub crc8 : Bytes → ℕ
unfolding crc_from
crc8 = crc_from 0

-- `jk_u16`. The callers stay inside the frame, so the value of a read past it is of no meaning.
unfoldable pub u16 : Bytes → ℕ → ℕ
u16 frame off = bit_or (get_or frame off 0) (get_or frame (off + 1) 0 * 2 ^ 8)

-- `jk_u32`
unfoldable pub u32 : Bytes → ℕ → ℕ
u32 frame off =
    bit_or
      (bit_or (bit_or (get_or frame off 0) (get_or frame (off + 1) 0 * 2 ^ 8))
        (get_or frame (off + 2) 0 * 2 ^ 16))
      (get_or frame (off + 3) 0 * 2 ^ 24)
