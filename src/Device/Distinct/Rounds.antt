-- ===== src/Device/Distinct/Rounds.antt =====
-- The loops over the slots in src/device/device.c: a round writes the slot of its number, and no
-- other.
use moon_flare.Prelude.{
  ℕ, zero, suc, ◌+◌, ◌<◌, ◌≤◌, ◌≡◌, ◌≢◌, refl, sym, ◌∙◌, subst, ap, List, [], ◌∷◌, false, length,
  set, length-set, arith, ℕ_discrete, dec_lt,
}
use moon_flare.Device.Table.{Devices, Device, slot, device_slots}
use moon_flare.Device.Distinct.{at}

pub at-set_self : (ds : List Device) (i : ℕ) (e : Device) → i < length ds → at (set ds i e) i ≡ e
at-set_self [] i e h = absurd (omega arith)
at-set_self (d ∷ ds) zero e h = refl
at-set_self (d ∷ ds) (suc i) e h = at-set_self ds i e (omega arith)

pub at-set_ne : (ds : List Device) (i j : ℕ) (e : Device) → j ≢ i → at (set ds i e) j ≡ at ds j
at-set_ne [] i j e ne = refl
at-set_ne (d ∷ ds) zero zero e ne = absurd (ne refl)
at-set_ne (d ∷ ds) zero (suc j) e ne = refl
at-set_ne (d ∷ ds) (suc i) zero e ne = refl
at-set_ne (d ∷ ds) (suc i) (suc j) e ne = at-set_ne ds i j e (λ q. ne (ap suc q))

pub set_self : (ds : List Device) (i : ℕ) → set ds i (at ds i) ≡ ds
set_self [] i = refl
set_self (d ∷ ds) zero = refl
set_self (d ∷ ds) (suc i) = ap (◌∷◌ d) (set_self ds i)

pub out_of_table : (ds : List Device) (j : ℕ) → length ds ≤ j → (at ds j).in_use ≡ false
out_of_table [] j h = refl
out_of_table (d ∷ ds) zero h = absurd (omega arith)
out_of_table (d ∷ ds) (suc j) h = out_of_table ds j (omega arith)

-- What stands in the slot of the round is related to what stood there.
abbrev pub Writes : (Device → Device → Type 0) → Devices → ℕ → Devices → Type 0
Writes R g i h = (e : Device) × (h.slots ≡ set g.slots i e) × R (slot g i) e

module _ (R : Device → Device → Type 0) (round : Devices → ℕ → Devices)
    (loop : Devices → ℕ → ℕ → Devices) (loop-zero : (g : Devices) (i : ℕ) → loop g i zero ≡ g)
    (loop-suc : (g : Devices) (i n : ℕ) → loop g i (suc n) ≡ loop (round g i) (i + 1) n)
    (round-Writes : (g : Devices) (i : ℕ) → Writes R g i (round g i)) where
  round_len : (g : Devices) (i : ℕ) → length (round g i).slots ≡ length g.slots
  round_len g i = let (e, s, a) = round-Writes g i in ap length s ∙ length-set g.slots i e

  round_other : (g : Devices) (i j : ℕ) → j ≢ i → at (round g i).slots j ≡ at g.slots j
  round_other g i j ne =
      let (e, s, a) = round-Writes g i in ap (λ ds. at ds j) s ∙ at-set_ne g.slots i j e ne

  round_self :
      (g : Devices) (i : ℕ) → i < length g.slots → R (at g.slots i) (at (round g i).slots i)
  round_self g i h =
      let (e, s, a) = round-Writes g i in
      subst (R (at g.slots i)) (sym (ap (λ ds. at ds i) s ∙ at-set_self g.slots i e h)) a

  -- What the loop from a slot on leaves, and what it does to the others.
  pub loop_len : (n : ℕ) (g : Devices) (i : ℕ) → length (loop g i n).slots ≡ length g.slots
  loop_len zero g i = rw loop-zero refl
  loop_len (suc n) g i = rw loop-suc (loop_len n (round g i) (i + 1) ∙ round_len g i)

  loop_before : (n : ℕ) (g : Devices) (i j : ℕ) → j < i → at (loop g i n).slots j ≡ at g.slots j
  loop_before zero g i j h = rw loop-zero refl
  loop_before (suc n) g i j h = rw loop-suc (
      loop_before n (round g i) (i + 1) j (omega arith) ∙ round_other g i j (λ e. omega (arith, e)))

  loop_self :
      (n : ℕ) (g : Devices) (i j : ℕ)
      → i ≤ j
      → j < i + n
      → j < length g.slots
      → R (at g.slots j) (at (loop g i n).slots j)
  loop_self zero g i j h k l = absurd (omega arith)
  loop_self (suc n) g i j h k l =
      let after = round g i in
      rw loop-suc (elim (ℕ_discrete j i) [
        | yes e ↦
            subst (R (at g.slots j)) (sym (loop_before n after (i + 1) j (omega (arith, e)))) (
              subst (λ x. R (at g.slots x) (at after.slots x)) (sym e)
                (round_self g i (omega (arith, e))))
        | no ne ↦
            subst (λ d. R d (at (loop after (i + 1) n).slots j)) (round_other g i j ne)
              (loop_self n after (i + 1) j (omega (arith, ne)) (omega arith)
                (omega (arith, round_len g i)))
      ])

  -- The whole loop relates every slot to what it was, if a free slot is related to all.
  pub loop_all :
      ((d e : Device) → e.in_use ≡ false → R d e)
      → (g : Devices) (j : ℕ) → length g.slots ≡ device_slots
      → R (at g.slots j) (at (loop g 0 device_slots).slots j)
  loop_all free g j l = elim (dec_lt j device_slots) [
    | yes h ↦ loop_self device_slots g 0 j (omega arith) (omega arith) (omega (arith, l))
    | no h ↦ free _ _ (
        out_of_table (loop g 0 device_slots).slots j
          (omega (arith, h, l, loop_len device_slots g 0)))
  ]
