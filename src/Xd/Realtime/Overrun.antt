-- ===== src/Xd/Realtime/Overrun.antt =====
-- The sensors are read before the length is checked against them.
use moon_flare.Xd.Realtime.{
  ok, overrun, Cell, cell_of, byte, word, clamp_temps, counts, read_cells, read_temps,
  parse_realtime,
}
use moon_flare.Prelude.{
  ℕ, zero, suc, ◌+◌, ◌*◌, ◌^◌, ◌∷◌, bit_or, ◌≤◌, ◌<◌, ◌≡◌, refl, List, some, get_elem?,
  get_elem?-some, get_elem?-none, dec_lt, length, arith, Bytes,
}

module _ (b : Bytes) where
  byte-ok : (i : ℕ) → i < length b → (x : ℕ) × (byte b i ≡ ok x)
  unfolding byte
  byte-ok i h = let (x, e) = get_elem?-some b i h in (x, rw (e, byte))

  word-ok : (i : ℕ) → i + 1 < length b → (x : ℕ) × (word b i ≡ ok x)
  unfolding word
  word-ok i h =
      let (x, e) = byte-ok i (omega arith) in
      let (y, f) = byte-ok (i + 1) h in (bit_or (x * 2 ^ 8) y, rw (e, f))

  read_cells-ok :
      (n i : ℕ) → 2 * (i + n) + 2 ≤ length b → (xs : List Cell) × (read_cells b n i ≡ ok xs)
  unfolding read_cells
  read_cells-ok zero i h = (_, refl)
  read_cells-ok (suc n) i h =
      let (x, e) = byte-ok (2 * i + 2) (omega arith) in
      let (y, f) = byte-ok (2 * i + 3) (omega arith) in
      let (xs, g) = read_cells-ok n (i + 1) (omega arith) in (cell_of x y ∷ xs, rw (e, f, g))

  byte-overrun : (i : ℕ) → length b ≤ i → byte b i ≡ overrun
  unfolding byte
  byte-overrun i h = rw (get_elem?-none b i h, byte)

  read_temps-overrun :
      (n t i : ℕ) → 1 ≤ t → length b ≤ 15 + 2 * n + 2 * (i + t) → read_temps b n t i ≡ overrun
  unfolding read_temps
  read_temps-overrun n zero i p h = absurd (omega arith)
  read_temps-overrun n (suc t) i p h = elim (dec_lt (17 + 2 * n + 2 * i) (length b)) [
    | yes l ↦
        let (x, e) = byte-ok (17 + 2 * n + 2 * i) l in
        rw (e, read_temps-overrun n t (i + 1) (omega arith) (omega arith))
    | no g ↦ rw (byte-overrun (17 + 2 * n + 2 * i) (omega arith))
  ]

  counts-ok :
      (n t : ℕ)
      → get_elem? b 1 ≡ some n
      → 1 ≤ n
      → n ≤ 32
      → get_elem? b (15 + 2 * n) ≡ some t
      → 2 ≤ t
      → t ≤ 6
      → 15 + 2 * n < length b
      → counts b (length b) ≡ ok (n, t)
  unfolding counts byte clamp_temps
  counts-ok n t e l1 l2 f l3 l4 h = ground arith

-- A payload that ends among the sensors it announces, or just before them, is read past its end:
-- the sensors are read before `39 + base >= len` is tested. This is so whenever the counts are
-- plausible and the buffer is no longer than the payload, which ends after the sensor count.
pub parse_realtime-overrun :
    (b : Bytes) (n t : ℕ)
    → get_elem? b 1 ≡ some n
    → 1 ≤ n
    → n ≤ 32
    → get_elem? b (15 + 2 * n) ≡ some t
    → 2 ≤ t
    → t ≤ 6
    → 15 + 2 * n < length b
    → length b ≤ 15 + 2 * n + 2 * t
    → parse_realtime b (length b) ≡ overrun
unfolding parse_realtime
parse_realtime-overrun b n t e l1 l2 f l3 l4 lo hi =
    let (cells, a) = read_cells-ok b n 0 (omega arith) in
    let (raw, c) = word-ok b (4 + 2 * n) (omega arith) in
    let (soc, d) = word-ok b (8 + 2 * n) (omega arith) in
    let (full, g) = word-ok b (12 + 2 * n) (omega arith) in
    let temps = read_temps-overrun b n t 0 (omega arith) (omega arith) in
    rw (counts-ok b n t e l1 l2 f l3 l4 lo, a, c, d, g, temps)
