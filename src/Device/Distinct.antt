-- ===== src/Device/Distinct.antt =====
-- Slots with names, uuids and intervals as they should be.
pub mod Adding
pub mod Running
pub mod Putting
pub mod Wants
pub mod Follows
pub mod Rounds
pub mod Applying
use moon_flare.Prelude.Int.{less}
use moon_flare.Prelude.{
  ℕ, zero, suc, ◌+◌, List, [], ◌∷◌, true, false, ◌≡◌, refl, ◌≢◌, ◌⊎◌, inl, inr, ap, sym, ◌∙◌,
  get_or, set, length, length-set, arith, same_bytes_iff, Bytes,
}
use moon_flare.Device.Table.{is_live, Device, blank, name_taken, uuid_in_use, device_slots}
use moon_flare.Device.Spec.{is_empty}
use moon_flare.Device.Table.Keeps.{Keeps}
use moon_flare.Device.Add.{poll_interval_min}

-- Two slots in use have different uuids, and two live ones different names.
unfoldable pub Apart : Device → Device → Type 0
Apart a b =
    (a.in_use ≡ true → b.in_use ≡ true → a.uuid ≢ b.uuid)
    × (is_live a ≡ true → is_live b ≡ true → a.name ≢ b.name)

-- A slot, if it is in use, waits long enough from one poll to the next.
unfoldable pub Paced : Device → Type 0
Paced d = d.in_use ≡ true → less d.poll_interval (poll_interval_min d.driver) ≡ false

abbrev pub at : List Device → ℕ → Device
at ds i = get_or ds i blank

pub record WellFormed (ds : List Device) : Type 0 where
  pub len : length ds ≡ device_slots
  pub apart : (i j : ℕ) → i ≢ j → Apart (at ds i) (at ds j)
  pub paced : (i : ℕ) → Paced (at ds i)

-- What stands at an index after a write.
pub at_cases :
    (ds : List Device) (i : ℕ) (e : Device) (j : ℕ)
    → (at (set ds i e) j ≡ at ds j) ⊎ ((j ≡ i) × (at (set ds i e) j ≡ e))
at_cases [] i e j = inl refl
at_cases (d ∷ ds) zero e zero = inr (refl, refl)
at_cases (d ∷ ds) zero e (suc j) = inl refl
at_cases (d ∷ ds) (suc i) e zero = inl refl
at_cases (d ∷ ds) (suc i) e (suc j) = elim (at_cases ds i e j) [
  | inl h ↦ inl h
  | inr (h, k) ↦ inr (ap suc h, k)
]

pub Apart-sym : (a b : Device) → Apart a b → Apart b a
unfolding Apart
Apart-sym a b (u, n) = (λ i j e. u j i (sym e), λ i j e. n j i (sym e))

-- A write keeps the table well formed when the new slot is apart from the others.
pub set-WellFormed :
    (ds : List Device) (i : ℕ) (e : Device)
    → WellFormed ds
    → ((j : ℕ) → j ≢ i → Apart (at ds j) e)
    → Paced e
    → WellFormed (set ds i e)
set-WellFormed ds i e w far p = record {
  len = length-set ds i e ∙ w.len;
  apart = λ j k ne. elim (at_cases ds i e j) [
    | inl a ↦ elim (at_cases ds i e k) [
      | inl b ↦ rw (a, b) (w.apart j k ne)
      | inr (c, b) ↦ rw (a, b) (far j (λ z. ne (z ∙ sym c)))
    ]
    | inr (c, a) ↦ elim (at_cases ds i e k) [
      | inl b ↦ rw (a, b) (Apart-sym _ _ (far k (λ z. ne (c ∙ sym z))))
      | inr (c', b) ↦ absurd (ne (c ∙ sym c'))
    ]
  ];
  paced = λ j. elim (at_cases ds i e j) [ inl a ↦ rw a (w.paced j) | inr (c, a) ↦ rw a p ];
}

pub Keeps-Apart : (a d e : Device) → Keeps d e → Apart a d → Apart a e
unfolding Apart
Keeps-Apart a d e (u, (l, (n, v, k, r, s, q, p))) (x, y) =
    (λ i j z. x i (u j) (z ∙ v), λ i j z. y i (l j) (z ∙ n))

pub Keeps-Paced : (d e : Device) → Keeps d e → Paced d → Paced e
unfolding Paced
Keeps-Paced d e (u, (l, (n, v, k, r, s, q, p))) h i = rw (r, p) (h (u i))

-- A write of a slot that keeps what stood there is such a write.
pub keep-WellFormed :
    (ds : List Device) (i : ℕ) (e : Device)
    → WellFormed ds
    → Keeps (at ds i) e
    → WellFormed (set ds i e)
keep-WellFormed ds i e w k =
    set-WellFormed ds i e w (λ j ne. Keeps-Apart _ _ _ k (w.apart j i ne))
      (Keeps-Paced _ _ k (w.paced i))

-- What a name that is not taken says of every slot but one.
pub name_taken-false :
    (ds : List Device) (i : ℕ) (name : Bytes) (skip j : ℕ)
    → name_taken ds i name skip ≡ false
    → i + j ≢ skip
    → (at ds j).in_use ≡ true
    → (at ds j).name ≢ name
unfolding name_taken
name_taken-false [] i name skip j h ne u = ground arith
name_taken-false (d ∷ ds) i name skip zero h ne u = ground (arith, same_bytes_iff d.name name)
name_taken-false (d ∷ ds) i name skip (suc j) h ne u =
    name_taken-false ds (i + 1) name skip j (ground arith) (ground arith) u

pub uuid_in_use-false :
    (ds : List Device) (uuid : Bytes) (j : ℕ)
    → uuid_in_use ds uuid ≡ false
    → is_empty uuid ≡ false
    → (at ds j).in_use ≡ true
    → (at ds j).uuid ≢ uuid
unfolding uuid_in_use
uuid_in_use-false [] uuid j h ne u = ground arith
uuid_in_use-false (d ∷ ds) uuid zero h ne u = ground (arith, same_bytes_iff d.uuid uuid)
uuid_in_use-false (d ∷ ds) uuid (suc j) h ne u = uuid_in_use-false ds uuid j (ground arith) ne u
