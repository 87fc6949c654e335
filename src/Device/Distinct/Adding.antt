-- ===== src/Device/Distinct/Adding.antt =====
-- A well-formed table after `mf_devices_add` of src/device/device.c.
use mathlib.Core.Bool.{false≢true}
use moon_flare.Prelude.Int.{ℤ, less}
use moon_flare.Prelude.{
  ℕ, ◌+◌, ◌<◌, true, false, ◌≡◌, ◌∙◌, sym, subst, Option, Bytes, length, set, if_elim, take_all,
  arith, List, [], ◌∷◌, zero, suc, ◌≢◌,
}
use moon_flare.Device.Spec.{fit, is_empty, identity_from_spec}
use moon_flare.Device.Plugin.{Ops}
use moon_flare.Device.Table.{Devices, Device, blank, is_live, uuid_size, device_slots, uuid_in_use}
use moon_flare.Device.Table.Keeps.{Copies}
use moon_flare.Device.Add.{
  Added, Request, new_device, add, kind_size, clamp_poll, poll_interval_min,
}
use moon_flare.Device.Add.Outcome.{Starts, Accepts, Outcome, add-Outcome}
use moon_flare.Device.Distinct.{
  Apart, Paced, at, WellFormed, set-WellFormed, name_taken-false, uuid_in_use-false,
}

-- What is asked of uuids: one that is given has its usual size at most, and one that is made up is in
-- no slot.
pub record HasUuid (g : Devices) (r : Request) : Type 0 where
  pub short : length r.uuid < uuid_size
  pub made : is_empty r.uuid ≡ true → is_empty (fit uuid_size r.fresh) ≡ false
  pub unused : is_empty r.uuid ≡ true → uuid_in_use g.slots (fit uuid_size r.fresh) ≡ false

pub Apart-blank : (d : Device) → Apart d blank
unfolding Apart
Apart-blank d = (λ i j. absurd (false≢true j), λ i j. absurd (false≢true j))

pub Paced-blank : Paced blank
unfolding Paced
Paced-blank i = absurd (false≢true i)

pub clear-WellFormed : (ds : List Device) (i : ℕ) → WellFormed ds → WellFormed (set ds i blank)
clear-WellFormed ds i w = set-WellFormed ds i blank w (λ j ne. Apart-blank _) Paced-blank

pub live-in_use : (d : Device) → is_live d ≡ true → d.in_use ≡ true
live-in_use d h = ground arith

-- The interval of a new device is not too short.
pub less_irrefl : (a : ℤ) → less a a ≡ false
less_irrefl (ℤ.pos n) = ground arith
less_irrefl (ℤ.negsuc n) = ground arith

pub clamp_poll_lem :
    (driver : Bytes) (v : ℤ) → less (clamp_poll driver v) (poll_interval_min driver) ≡ false
clamp_poll_lem driver v =
    let low = poll_interval_min driver in
    if_elim (λ x. less x low ≡ false) (less v low) low v (λ h. less_irrefl low) (λ h. h)

-- The name and the uuid of a new device are those of the request, which no slot has.
pub new_name :
    (g : Devices) (r : Request) (ops : Option Ops)
    → Accepts g r
    → (new_device ops r (identity_from_spec r.spec)).name ≡ r.name
unfolding new_device
new_name g r ops a = take_all 31 r.name (ground arith)

new_uuid :
    (g : Devices) (r : Request) (ops : Option Ops) (j : ℕ)
    → Accepts g r
    → HasUuid g r
    → (at g.slots j).in_use ≡ true
    → (at g.slots j).uuid ≢ (new_device ops r (identity_from_spec r.spec)).uuid
unfolding new_device
new_uuid g r ops j a u i =
    if_elim (λ x. (at g.slots j).uuid ≢ x) (is_empty r.uuid) _ _
      (λ e. uuid_in_use-false g.slots _ j (u.unused e) (u.made e) i)
      (λ e.
        subst (λ x. (at g.slots j).uuid ≢ x) (sym (take_all 36 r.uuid (ground arith)))
          (uuid_in_use-false g.slots r.uuid j a.uuid_free e i))

new_paced :
    (r : Request) (ops : Option Ops)
    → let d = new_device ops r (identity_from_spec r.spec) in
      less d.poll_interval (poll_interval_min d.driver) ≡ false
unfolding new_device
new_paced r ops = clamp_poll_lem (fit kind_size r.driver) (identity_from_spec r.spec).2

-- No slot in use is out of the table.
pub in_use-lt : (ds : List Device) (j : ℕ) → (at ds j).in_use ≡ true → j < length ds
in_use-lt [] j h = absurd (false≢true h)
in_use-lt (d ∷ ds) zero h = omega arith
in_use-lt (d ∷ ds) (suc j) h = omega (arith, in_use-lt ds j h)

nowhere :
    (ds : List Device) (j : ℕ)
    → length ds ≡ device_slots
    → (at ds j).in_use ≡ true
    → 0 + j ≡ device_slots
    → ⊥
nowhere ds j l u e = omega (arith, in_use-lt ds j u)

Starts-Apart :
    (g : Devices) (r : Request) (i : ℕ) (ops : Option Ops) (h : Devices) (uuid : Bytes)
    → WellFormed g.slots
    → Accepts g r
    → HasUuid g r
    → (s : Starts g i (new_device ops r (identity_from_spec r.spec)) h uuid) → (j : ℕ)
    → Apart (at g.slots j) s.device
unfolding Apart
Starts-Apart g r i ops h uuid w a u s j =
    let (n, v, k, c, b, p, q) = s.copies in
    (
      λ x y z. new_uuid g r ops j a u x (z ∙ v),
      λ x y z.
          name_taken-false g.slots 0 r.name device_slots j a.name_free
            (λ e. absurd (nowhere g.slots j w.len (live-in_use (at g.slots j) x) e))
            (live-in_use (at g.slots j) x) (z ∙ n ∙ new_name g r ops a),
    )

Starts-Paced :
    (r : Request) (ops : Option Ops) (e : Device)
    → Copies (new_device ops r (identity_from_spec r.spec)) e
    → Paced e
unfolding Paced
Starts-Paced r ops e (n, v, k, c, b, p, q) i = rw (c, q) (new_paced r ops)

-- The outcome of an addition keeps the table well formed.
Outcome-WellFormed :
    (g : Devices) (r : Request) (o : Devices × Added)
    → HasUuid g r
    → WellFormed g.slots
    → Outcome g r o
    → WellFormed o.0.slots
Outcome-WellFormed g r (h, Added.added uuid) u w (a, (i, ops, c, f, s)) =
    subst WellFormed (sym s.slots) (
      set-WellFormed g.slots i s.device w (λ j ne. Starts-Apart g r i ops h uuid w a u s j)
        (Starts-Paced r ops s.device s.copies))
Outcome-WellFormed g r (h, Added.bad_request) u w (a, e) = rw e w
Outcome-WellFormed g r (h, Added.unknown_driver) u w (a, c, e) = rw e w
Outcome-WellFormed g r (h, Added.collides) u w (a, e) = rw e w
Outcome-WellFormed g r (h, Added.no_slot) u w (a, f, e) = rw e w
Outcome-WellFormed g r (h, Added.open_failed) u w (a, (i, f, c)) =
    subst WellFormed (sym c.slots) (clear-WellFormed g.slots i w)

pub add-WellFormed :
    (g : Devices) (r : Request) → HasUuid g r → WellFormed g.slots → WellFormed (add g r).0.slots
add-WellFormed g r u w = Outcome-WellFormed g r (add g r) u w (add-Outcome g r)
