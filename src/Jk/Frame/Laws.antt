-- ===== src/Jk/Frame/Laws.antt =====
-- What the readers of src/jk/jk_proto.h compute.
use moon_flare.Jk.Frame.{crc_from, crc8, u16, u32}
use moon_flare.Prelude.Bits.{or_high}
use moon_flare.Prelude.{
  ℕ, zero, suc, ◌+◌, ◌*◌, ◌%◌, ◌^◌, ◌<◌, ◌≡◌, [], ◌∷◌, bit_or, get_or, arith, Bytes, AreBytes,
}

pub get_or-lt : (bs : Bytes) (i : ℕ) → AreBytes bs → get_or bs i 0 < 256
get_or-lt [] i h = omega arith
get_or-lt (b ∷ bs) zero h = h.0
get_or-lt (b ∷ bs) (suc i) h = get_or-lt bs i h.1

crc_from-lt : (s : ℕ) (bs : Bytes) → s < 256 → crc_from s bs < 256
unfolding crc_from
crc_from-lt s [] h = h
crc_from-lt s (b ∷ bs) h = crc_from-lt ((s + b) % 256) bs (omega arith)

pub crc8-lt : (bs : Bytes) → crc8 bs < 256
unfolding crc8
crc8-lt bs = crc_from-lt 0 bs (omega arith)

module _ (a b c d : ℕ) (ha : a < 256) (hb : b < 256) (hc : c < 256) where
  pub or_pair : bit_or a (b * 2 ^ 8) ≡ a + b * 256
  or_pair = or_high 8 a b ha

  pub or_quad :
      bit_or (bit_or (bit_or a (b * 2 ^ 8)) (c * 2 ^ 16)) (d * 2 ^ 24)
      ≡ a + b * 256 + c * 65536 + d * 16777216
  or_quad =
      rw (or_pair, or_high 16 (a + b * 256) c (omega arith))
        (or_high 24 (a + b * 256 + c * 65536) d (omega arith))

-- `jk_u32` is the little-endian number of the four bytes.
pub u32_lem :
    (bs : Bytes) (off : ℕ)
    → AreBytes bs
    → u32 bs off
      ≡ get_or bs off 0
        + get_or bs (off + 1) 0 * 256
        + get_or bs (off + 2) 0 * 65536
        + get_or bs (off + 3) 0 * 16777216
unfolding u32
u32_lem bs off h =
    or_quad (get_or bs off 0) (get_or bs (off + 1) 0) (get_or bs (off + 2) 0)
      (get_or bs (off + 3) 0) (get_or-lt bs off h) (get_or-lt bs (off + 1) h)
      (get_or-lt bs (off + 2) h)

pub u16_lem :
    (bs : Bytes) (off : ℕ)
    → AreBytes bs
    → u16 bs off ≡ get_or bs off 0 + get_or bs (off + 1) 0 * 256
unfolding u16
u16_lem bs off h = or_high 8 (get_or bs off 0) (get_or bs (off + 1) 0) (get_or-lt bs off h)
