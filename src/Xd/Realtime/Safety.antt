-- ===== src/Xd/Realtime/Safety.antt =====
-- Which bytes `bms_parse_realtime` reads.
use moon_flare.Xd.Realtime.{
  Parse, ok, rejected, overrun, ◌>>=◌, reject_if, cell_of, Realtime, byte, word, clamp_temps,
  counts, read_cells, read_temps, copy, late_status, pack_fields, parse_realtime,
}
use moon_flare.Prelude.Bits.{and_mask, or_low}
use moon_flare.Prelude.{
  ℕ, zero, suc, ◌+◌, ◌*◌, ◌≤◌, ◌<◌, ◌≡◌, inl, inr, refl, [], ◌∷◌, Bool, true, false, AreBytes, All,
  bit_and, get_elem?-some, ◌||◌, some, get_elem?, length, leb, ltb, ◌==◌, arith, Bytes, Bool-cases,
  length-append, get_elem?-some,
}

-- The call did not read past the buffer, and what it returned satisfies `P`.
abbrev pub Safely {ℓ} : {A : Type ℓ} → (A → Type 0) → Parse A → Type 0
Safely P (ok a) = P a
Safely P rejected = Unit
Safely P overrun = ⊥

pub bind-Safely {ℓ κ} :
    {A : Type ℓ} {B : Type κ} (P : A → Type 0) (Q : B → Type 0) (m : Parse A) (f : A → Parse B)
    → Safely P m
    → ((a : A) → P a → Safely Q (f a))
    → Safely Q (m >>= f)
bind-Safely P Q (ok a) f h k = k a h
bind-Safely P Q rejected f h k = tt
bind-Safely P Q overrun f h k = absurd h

get_elem?-byte : (b : Bytes) (i x : ℕ) → AreBytes b → get_elem? b i ≡ some x → x < 256
get_elem?-byte [] i x h e = cc
get_elem?-byte (y ∷ b) zero x h e = ground arith
get_elem?-byte (y ∷ b) (suc i) x h e = get_elem?-byte b i x h.1 e

cell_of-lt : (hi lo : ℕ) → lo < 256 → (cell_of hi lo).millivolts < 8192
unfolding cell_of
cell_of-lt hi lo h = omega (arith, and_mask 5 hi, or_low 8 (bit_and hi 0x1f) lo h)

clamp_temps_bounds : (t : ℕ) → (2 ≤ clamp_temps t) × (clamp_temps t ≤ 6)
unfolding clamp_temps
clamp_temps_bounds t = ground arith

abbrev Counted : ℕ → ℕ × ℕ → Type 0
Counted len c = (1 ≤ c.0) × (c.0 ≤ 32) × (2 ≤ c.1) × (c.1 ≤ 6) × (15 + 2 * c.0 < len)

reject_if-Safely : (t : Bool) → Safely (λ u. t ≡ false) (reject_if t)
reject_if-Safely true = tt
reject_if-Safely false = refl

abbrev Packed : ℕ × ℕ × ℕ × Bytes → Type 0
Packed f = length f.3 ≡ 12

-- A decoded reply with `len` bytes of payload.
abbrev pub Plausible : ℕ → Realtime → Type 0
Plausible len r =
    ((1 ≤ r.cell_count) × (r.cell_count ≤ 32))
    × ((2 ≤ r.temp_count) × (r.temp_count ≤ 6))
    × ((length r.cells ≡ r.cell_count) × All (λ c. c.millivolts < 8192) r.cells)
    × (length r.temperatures ≡ r.temp_count)
    × (length r.raw_status ≡ 12)
    × (39 + (2 * r.cell_count + 2 * r.temp_count) < len)

module _ (b : Bytes) (are : AreBytes b) where
  byte-Safely : (i : ℕ) → i < length b → Safely (λ x. x < 256) (byte b i)
  unfolding byte
  byte-Safely i h =
      let (x, e) = get_elem?-some b i h in rw (e, byte, Safely) (get_elem?-byte b i x are e)

  word-Safely : (i : ℕ) → i + 1 < length b → Safely (λ x. Unit {0}) (word b i)
  unfolding word
  word-Safely i h =
      bind-Safely _ _ (byte b i) _ (byte-Safely i (omega arith))
        λ hi u. bind-Safely _ _ (byte b (i + 1)) _ (byte-Safely (i + 1) h) λ lo v. tt

  copy-Safely : (n i : ℕ) → i + n ≤ length b → Safely (λ xs. length xs ≡ n) (copy b n i)
  unfolding copy
  copy-Safely zero i h = refl
  copy-Safely (suc n) i h = bind-Safely _ _ (byte b i) _ (byte-Safely i (omega arith)) λ x u.
      bind-Safely _ _ (copy b n (i + 1)) _ (copy-Safely n (i + 1) (omega arith)) λ xs e. omega arith

  read_cells-Safely :
      (n i : ℕ)
      → 2 * (i + n) + 2 ≤ length b
      → Safely (λ xs. (length xs ≡ n) × All (λ c. c.millivolts < 8192) xs) (read_cells b n i)
  unfolding read_cells
  read_cells-Safely zero i h = (refl, tt)
  read_cells-Safely (suc n) i h =
      bind-Safely _ _ (byte b (2 * i + 2)) _ (byte-Safely _ (omega arith)) λ hi u.
        bind-Safely _ _ (byte b (2 * i + 3)) _ (byte-Safely _ (omega arith)) λ lo v.
          bind-Safely _ _ (read_cells b n (i + 1)) _ (read_cells-Safely n (i + 1) (omega arith))
            λ xs e. (omega arith, (cell_of-lt hi lo v, e.1))

  read_temps-Safely :
      (n t i : ℕ)
      → 16 + 2 * n + 2 * (i + t) ≤ length b
      → Safely (λ xs. length xs ≡ t) (read_temps b n t i)
  unfolding read_temps
  read_temps-Safely n zero i h = refl
  read_temps-Safely n (suc t) i h =
      bind-Safely _ _ (byte b (17 + 2 * n + 2 * i)) _ (byte-Safely _ (omega arith)) λ x u.
        bind-Safely _ _ (read_temps b n t (i + 1)) _ (read_temps-Safely n t (i + 1) (omega arith))
          λ xs e. omega arith

  counts-Safely : (len : ℕ) → len ≤ length b → Safely (Counted len) (counts b len)
  unfolding counts
  counts-Safely len h =
      bind-Safely _ _ (reject_if (ltb len 2)) _ (reject_if-Safely (ltb len 2)) λ u e1.
        bind-Safely _ _ (byte b 1) _ (byte-Safely 1 (ground arith)) λ n v.
          bind-Safely _ _ (reject_if (n == 0 || ltb 32 n)) _ (reject_if-Safely _) λ w e2.
            bind-Safely _ _ (reject_if (leb len (15 + 2 * n))) _ (reject_if-Safely _) λ y e3.
              bind-Safely _ _ (byte b (15 + 2 * n)) _ (byte-Safely _ (ground arith))
                λ t z. ground (arith, clamp_temps_bounds t)

  late_status-Safely : (len i : ℕ) → len ≤ length b → Safely (λ x. x < 256) (late_status b len i)
  unfolding late_status
  late_status-Safely len i h = elim (Bool-cases (ltb i len)) [
    | inl e ↦ rw e (byte-Safely i (ground arith))
    | inr e ↦ rw e (omega arith)
  ]

  pack_fields-Safely :
      (len base : ℕ)
      → len ≤ length b
      → Safely (λ f. Packed f × (39 + base < len)) (pack_fields b len base)
  unfolding pack_fields
  pack_fields-Safely len base h =
      bind-Safely _ _ (reject_if (leb len (39 + base))) _ (reject_if-Safely _) λ u e.
        let k : 39 + base < len = ground arith in
        bind-Safely _ _ (word b (30 + base)) _ (word-Safely _ (omega arith)) λ c v.
          bind-Safely _ _ (word b (34 + base)) _ (word-Safely _ (omega arith)) λ d w.
            bind-Safely _ _ (word b (38 + base)) _ (word-Safely _ (omega arith)) λ s x.
              bind-Safely _ _ (copy b 10 (18 + base)) _ (copy-Safely 10 _ (omega arith)) λ st l.
                bind-Safely _ _ (late_status b len (42 + base)) _ (late_status-Safely len _ h)
                  λ p y.
                    bind-Safely _ _ (late_status b len (43 + base)) _ (late_status-Safely len _ h)
                      λ q z. (omega (arith, length-append st (p ∷ q ∷ [])), k)

-- A payload of `len` bytes in a buffer of at least 92 bytes (the callers' have 256) is never read
-- past the buffer, whatever it holds. A decoded reply has 1 to 32 cells and 2 to 6 sensors, as
-- many entries as it counts, every cell below 8.192 V, 12 status bytes, and a payload that is
-- long enough for all of its fields up to the state of health.
pub parse_realtime-Safely :
    (b : Bytes) (len : ℕ)
    → AreBytes b
    → len ≤ length b
    → 92 ≤ length b
    → Safely (Plausible len) (parse_realtime b len)
unfolding parse_realtime
parse_realtime-Safely b len are h room =
    bind-Safely _ _ (counts b len) _ (counts-Safely b are len h) λ (n, t) c.
      bind-Safely _ _ (read_cells b n 0) _ (read_cells-Safely b are n 0 (omega arith)) λ cells k.
        bind-Safely _ _ (word b (4 + 2 * n)) _ (word-Safely b are _ (omega arith)) λ raw u.
          bind-Safely _ _ (word b (8 + 2 * n)) _ (word-Safely b are _ (omega arith)) λ soc v.
            bind-Safely _ _ (word b (12 + 2 * n)) _ (word-Safely b are _ (omega arith)) λ full w.
              bind-Safely _ _ (read_temps b n t 0) _ (read_temps-Safely b are n t 0 (omega arith))
                λ temps l.
                  bind-Safely _ _ (pack_fields b len (2 * n + 2 * t)) _
                    (pack_fields-Safely b are len _ h)
                    λ f p. ((c.0, c.1), (c.2, c.3), k, l, p.0, p.1)
