-- ===== src/Device/Apply/Release.antt =====
-- A device that is deleted is gone after the next tick: `mf_devices_delete` and `device_pt` of
-- src/device/device.c.
use mathlib.Core.Bool.{false≢true}
use moon_flare.Prelude.{
  ℕ, zero, suc, ◌+◌, Bool, true, false, ◌&&◌, ◌||◌, not, ◌≡◌, ◌≢◌, ◌⊎◌, inl, inr, refl, sym, ◌∙◌,
  ap, subst, Option, none, some, Bytes, List, [], ◌∷◌, length, set, length-set, if_elim, arith,
  same_bytes, same_bytes_iff, ℕ_discrete,
}
use moon_flare.Device.Spec.{is_empty}
use moon_flare.Device.Table.{
  Devices, Device, is_live, slot, put_slot, device_slots, find_slot, find_slot_uuid, history_retire,
  end_thread, device_pt, tick_slot, tick_from, tick,
}
use moon_flare.Device.Table.Keeps.{history_retire-Same, device_pt-Stays}
use moon_flare.Device.Apply.{stop_slot, retire_slot, delete_at, delete, pending_cancel}
use moon_flare.Device.Distinct.{Apart, at, WellFormed}
use moon_flare.Device.Distinct.Adding.{in_use-lt, live-in_use}
use moon_flare.Device.Distinct.Running.{pending_cancel-slots}
use moon_flare.Device.Distinct.Rounds.{Writes, set_self, loop_all, at-set_self, at-set_ne}

-- A slot in use after a tick was live before.
pub record Ticked (d e : Device) : Type 0 where
  pub live : e.in_use ≡ true → is_live d ≡ true
  pub uuid : e.in_use ≡ true → e.uuid ≡ d.uuid

free-Ticked : (d e : Device) → e.in_use ≡ false → Ticked d e
free-Ticked d e h = record { live = λ i. ground arith; uuid = λ i. ground arith }

goes_on : (q : Bool) (d : Device) → (q || not d.in_use || d.stop) ≡ false → is_live d ≡ true
goes_on q d h = ground arith

ended :
    (quit : Bool) (g : Devices) (d : Device)
    → (device_pt quit g d).1.in_use ≡ true
    → is_live d ≡ true
unfolding device_pt end_thread
ended quit g d =
    if_elim (λ (r : Devices × Device). r.1.in_use ≡ true → is_live d ≡ true)
      (quit || not d.in_use || d.stop) _ _ (λ e u. absurd (false≢true u)) (λ e u. goes_on quit d e)

device_pt-Ticked : (quit : Bool) (g : Devices) (d : Device) → Ticked d (device_pt quit g d).1
device_pt-Ticked quit g d =
    let (s, (i, (l, (n, u, k, r, b, p, v)))) = device_pt-Stays quit g d in
    record { live = ended quit g d; uuid = λ x. u }

tick_slot-Writes : (quit : Bool) (g : Devices) (i : ℕ) → Writes Ticked g i (tick_slot quit g i)
unfolding tick_slot
tick_slot-Writes quit g i =
    let d = slot g i in
    let r = device_pt quit g d in
    let same = (device_pt-Stays quit g d).0.0 in
    if_elim (Writes Ticked g i) d.in_use (put_slot r.0 i r.1) g
      (λ u. (r.1, ap (λ ds. set ds i r.1) same, device_pt-Ticked quit g d))
      (λ u. (d, sym (set_self g.slots i), free-Ticked d d u))

module _ (quit : Bool) where
  tick_from-zero : (g : Devices) (i : ℕ) → tick_from quit g i zero ≡ g
  unfolding tick_from
  tick_from-zero g i = refl

  tick_from-suc :
      (g : Devices) (i n : ℕ)
      → tick_from quit g i (suc n) ≡ tick_from quit (tick_slot quit g i) (i + 1) n
  unfolding tick_from
  tick_from-suc g i n = refl

  tick_from-Ticked :
      (g : Devices) (j : ℕ)
      → length g.slots ≡ device_slots
      → Ticked (at g.slots j) (at (tick_from quit g 0 device_slots).slots j)
  tick_from-Ticked =
      loop_all Ticked (tick_slot quit) (tick_from quit) tick_from-zero tick_from-suc
        (tick_slot-Writes quit) free-Ticked

  -- A slot in use after a tick was in use before, and live if there are threads.
  tick-in_use :
      (g : Devices) (j : ℕ)
      → length g.slots ≡ device_slots
      → (at (tick quit g).slots j).in_use ≡ true
      → ((at g.slots j).in_use ≡ true)
        × ((at (tick quit g).slots j).uuid ≡ (at g.slots j).uuid)
        × ((g.threads ≡ false) ⊎ (is_live (at g.slots j) ≡ true))
  unfolding tick
  tick-in_use g j l =
      if_elim
        (λ (h : Devices).
          (at h.slots j).in_use ≡ true
          → ((at g.slots j).in_use ≡ true)
            × ((at h.slots j).uuid ≡ (at g.slots j).uuid)
            × ((g.threads ≡ false) ⊎ (is_live (at g.slots j) ≡ true)))
        g.threads (tick_from quit g 0 device_slots) g
        (λ e u.
          let k = tick_from-Ticked g j l in
          (live-in_use (at g.slots j) (k.live u), k.uuid u, inr (k.live u)))
        (λ e u. (u, refl, inl e))

-- What a search for a slot finds.
abbrev pub Found : (Device → Bool) → List Device → ℕ → Bytes → ℕ → Type 0
Found p ds k uuid i = (n : ℕ) × (i ≡ k + n) × (p (at ds n) ≡ true) × ((at ds n).uuid ≡ uuid)

pub find_slot-some :
    (p : Device → Bool) (ds : List Device) (k : ℕ) (uuid : Bytes) (i : ℕ)
    → find_slot p ds k uuid ≡ some i
    → Found p ds k uuid i
unfolding find_slot
find_slot-some p [] k uuid i e = ground arith
find_slot-some p (d ∷ ds) k uuid i e =
    if_elim (λ (o : Option ℕ). o ≡ some i → Found p (d ∷ ds) k uuid i)
      (not (is_empty uuid) && p d && same_bytes d.uuid uuid) (some k) (find_slot p ds (k + 1) uuid)
      (λ h f. (0, ground arith, ground arith, (same_bytes_iff d.uuid uuid).0 (ground arith)))
      (λ h f.
        let (n, a, b, c) = find_slot-some p ds (k + 1) uuid i f in (suc n, omega (arith, a), b, c))
      e

-- A deletion stops a slot in use with the uuid.
abbrev Stops : Devices → Bytes → Devices → Type 0
Stops g uuid h =
    (i : ℕ) × (threads : Bool) × ((at g.slots i).in_use ≡ true)
    × ((at g.slots i).uuid ≡ uuid)
    × (h.slots ≡ set g.slots i (stop_slot threads (at g.slots i)))
    × (h.threads ≡ threads)

retire_slot-slots :
    (g : Devices) (i : ℕ)
    → (threads : Bool) × ((retire_slot g i (slot g i)).slots
        ≡ set g.slots i (stop_slot threads (slot g i)))
      × ((retire_slot g i (slot g i)).threads ≡ threads)
unfolding retire_slot
retire_slot-slots g i =
    let d = slot g i in
    if_elim
      (λ (h : Devices).
        (threads : Bool) × ((put_slot h i (stop_slot h.threads d)).slots
          ≡ set g.slots i (stop_slot threads d))
        × (h.threads ≡ threads))
      (not d.stop) _ _
      (λ e. (
        (history_retire g d).threads,
        ap (λ ds. set ds i (stop_slot (history_retire g d).threads d)) (history_retire-Same g d).0,
        refl,
      ))
      (λ e. (g.threads, refl, refl))

delete_at-Stops :
    (g : Devices) (uuid : Bytes) (o : Option ℕ)
    → find_slot_uuid g uuid ≡ o
    → (delete_at g o).1 ≡ 202
    → Stops g uuid (delete_at g o).0
unfolding delete_at find_slot_uuid
delete_at-Stops g uuid none e h = absurd (omega (arith, h))
delete_at-Stops g uuid (some i) e h =
    let (n, a, b, c) = find_slot-some (λ d. d.in_use) g.slots 0 uuid i e in
    let (t, s, r) = retire_slot-slots g i in
    let q : i ≡ n = omega (arith, a) in
    (
      i,
      t,
      subst (λ x. (at g.slots x).in_use ≡ true) (sym q) b,
      subst (λ x. (at g.slots x).uuid ≡ uuid) (sym q) c,
      s,
      r,
    )

delete-Stops :
    (g : Devices) (uuid : Bytes) → (delete g uuid).1 ≡ 202 → Stops g uuid (delete g uuid).0
unfolding delete
delete-Stops g uuid =
    if_elim (λ (r : Devices × ℕ). r.1 ≡ 202 → Stops g uuid r.0) (is_empty uuid) _ _
      (λ e h. absurd (omega (arith, h)))
      (λ e h.
        let k = pending_cancel g uuid in
        let (i, t, u, v, s, r) = delete_at-Stops k uuid (find_slot_uuid k uuid) refl h in
        let q = pending_cancel-slots g uuid in
        (
          i,
          t,
          subst (λ ds. (at ds i).in_use ≡ true) q u,
          subst (λ ds. (at ds i).uuid ≡ uuid) q v,
          s ∙ ap (λ ds. set ds i (stop_slot t (at ds i))) q,
          r,
        ))

-- A slot that was stopped is free, or not live.
stop_slot-dead :
    (threads : Bool) (d : Device)
    → d.in_use ≡ true
    → (stop_slot threads d).in_use ≡ true
    → (threads ≡ false) ⊎ (is_live (stop_slot threads d) ≡ true)
    → ⊥
unfolding stop_slot
stop_slot-dead true d u i l = ground arith
stop_slot-dead false d u i l = ground arith

-- When a deletion is accepted, no slot has the uuid after the next tick, in a well-formed table.
pub delete-tick :
    (quit : Bool) (g : Devices) (uuid : Bytes) (j : ℕ)
    → WellFormed g.slots
    → (delete g uuid).1 ≡ 202
    → (at (tick quit (delete g uuid).0).slots j).in_use ≡ true
    → (at (tick quit (delete g uuid).0).slots j).uuid ≢ uuid
unfolding Apart
delete-tick quit g uuid j w accepted used same =
    let h = (delete g uuid).0 in
    let (i, t, u, v, s, r) = delete-Stops g uuid accepted in
    let stopped = stop_slot t (at g.slots i) in
    let (before, kept, l) =
      tick-in_use quit h j (ap length s ∙ length-set g.slots i stopped ∙ w.len) used in
    elim (ℕ_discrete j i) [
      | yes e ↦
          let there =
            ap (λ ds. at ds i) s ∙ at-set_self g.slots i stopped (in_use-lt g.slots i u) in
          let here = ap (λ x. at h.slots x) e ∙ there in
          stop_slot-dead t (at g.slots i) u (rw here at before)
            (subst (λ b. (b ≡ false) ⊎ (is_live stopped ≡ true)) r (rw here at l))
      | no ne ↦
          let there = ap (λ ds. at ds j) s ∙ at-set_ne g.slots i j stopped ne in
          (w.apart j i ne).0 (sym (ap (λ (d : Device). d.in_use) there) ∙ before) u
            (sym (ap (λ (d : Device). d.uuid) there) ∙ sym kept ∙ same ∙ sym v)
    ]
