-- ===== src/Device/Add/Outcome.antt =====
-- What `mf_devices_add` of src/device/device.c does with the table, for each value it returns.
use moon_flare.Prelude.{
  ℕ, true, false, ◌||◌, Option, none, some, ◌≡◌, refl, ap, Bytes, length, set, leb, if_elim, arith,
}
use moon_flare.Device.Spec.{Spec, is_empty, identity_from_spec}
use moon_flare.Device.Plugin.{Ops, Opened}
use moon_flare.Device.Table.{
  Devices, Device, blank, name_size, device_slots, name_taken, uuid_in_use, first_free,
  refresh_reading, read_caps, history_register, history_retention,
}
use moon_flare.Device.Table.Keeps.{
  Copies, Copies-refl, Copies-trans, Same, Same-trans, history_register-Same,
  history_retention-Same, read_caps-Keeps, refresh_reading-Stays,
}
use moon_flare.Device.Add.{
  Added, Request, new_device, announce, start, opened_with, open_with, open_device, choose_ops,
  add_at, add_with, add,
}

-- A device with what `d` was given is in use in the slot `i`,
pub record Starts (g : Devices) (i : ℕ) (d : Device) (h : Devices) (uuid : Bytes) : Type 0 where
  pub device : Device
  pub slots : h.slots ≡ set g.slots i device
  pub pending : h.pending ≡ g.pending
  pub threads : h.threads ≡ g.threads
  pub in_use : device.in_use ≡ true
  pub live : device.stop ≡ false
  pub copies : Copies d device
  pub named : uuid ≡ device.uuid

-- or the slot is cleared.
pub record Clears (g : Devices) (i : ℕ) (h : Devices) : Type 0 where
  pub slots : h.slots ≡ set g.slots i blank
  pub pending : h.pending ≡ g.pending
  pub threads : h.threads ≡ g.threads

-- What comes of opening the device `d` in the slot `i`.
abbrev pub Opens : Devices → ℕ → Device → Devices × Added → Type 0
Opens g i d (h, Added.added uuid) = Starts g i d h uuid
Opens g i d (h, Added.bad_request) = ⊥
Opens g i d (h, Added.unknown_driver) = ⊥
Opens g i d (h, Added.collides) = ⊥
Opens g i d (h, Added.no_slot) = ⊥
Opens g i d (h, Added.open_failed) = Clears g i h

start-Opens :
    (g : Devices) (i : ℕ) (d : Device) (r : Devices × Device)
    → Same g r.0
    → Copies d r.1
    → Opens g i d (start i r)
start-Opens g i d (h, e) (s, p, t, l, o) c = record {
  device = record e { in_use = true; stop = false };
  slots = ap (λ ds. set ds i (record e { in_use = true; stop = false })) s;
  pending = p;
  threads = t;
  in_use = refl;
  live = refl;
  copies = c;
  named = refl;
}

opened_with-Opens :
    (g h : Devices) (i : ℕ) (d : Device) (ops : Ops) (o : Opened)
    → Same g h
    → Opens g i d (opened_with h i d ops o)
unfolding opened_with
opened_with-Opens g h i d ops Opened.open_failed (s, p, t, l, o) = record {
  slots = ap (λ ds. set ds i blank) s;
  pending = p;
  threads = t;
}
opened_with-Opens g h i d ops (Opened.opened ctx) s =
    let e = read_caps (record d { ctx = some ctx }) ops ctx in
    let (u, (l, c)) = read_caps-Keeps (record d { ctx = some ctx }) ops ctx in
    let (t, (v, (k, b))) = refresh_reading-Stays h e in
    let r = refresh_reading h e in
    start-Opens g i d r (Same-trans g h r.0 s t) (Copies-trans d e r.1 c b)

open_with-Opens :
    (g h : Devices) (i : ℕ) (d : Device) (ops : Ops) (spec : Option Spec)
    (f : Option (Option Spec → Opened))
    → Same g h
    → Opens g i d (open_with h i d ops spec f)
unfolding open_with
open_with-Opens g h i d ops spec none s = start-Opens g i d (h, d) s (Copies-refl d)
open_with-Opens g h i d ops spec (some f) s = opened_with-Opens g h i d ops (f spec) s

open_device-Opens :
    (g h : Devices) (i : ℕ) (d : Device) (ops : Option Ops) (spec : Option Spec)
    → Same g h
    → Opens g i d (open_device h i d ops spec)
unfolding open_device
open_device-Opens g h i d none spec s = start-Opens g i d (h, d) s (Copies-refl d)
open_device-Opens g h i d (some ops) spec s = open_with-Opens g h i d ops spec ops.open_fn s

announce-Same : (g : Devices) (d : Device) → Same g (announce g d)
announce-Same g d =
    let h = history_register g d in
    Same-trans g h (history_retention h d) (history_register-Same g d) (history_retention-Same h d)

-- The tests that a request passes before a slot is looked for.
pub record Accepts (g : Devices) (r : Request) : Type 0 where
  pub name_given : is_empty r.name ≡ false
  pub name_fits : leb name_size (length r.name) ≡ false
  pub name_free : name_taken g.slots 0 r.name device_slots ≡ false
  pub uuid_free : uuid_in_use g.slots r.uuid ≡ false

-- All that an addition does.
abbrev pub Outcome : Devices → Request → Devices × Added → Type 0
Outcome g r (h, Added.added uuid) =
    Accepts g r
    × ((i : ℕ) × (ops : Option Ops) × (choose_ops g.plugins r.kind r.driver ≡ some ops)
        × (first_free g.slots 0 ≡ some i)
        × Starts g i (new_device ops r (identity_from_spec r.spec)) h uuid)
Outcome g r (h, Added.bad_request) =
    ((is_empty r.name || is_empty r.kind || is_empty r.driver || leb name_size (length r.name))
      ≡ true)
    × (h ≡ g)
Outcome g r (h, Added.unknown_driver) =
    Accepts g r × (choose_ops g.plugins r.kind r.driver ≡ none) × (h ≡ g)
Outcome g r (h, Added.collides) =
    ((name_taken g.slots 0 r.name device_slots || uuid_in_use g.slots r.uuid) ≡ true) × (h ≡ g)
Outcome g r (h, Added.no_slot) = Accepts g r × (first_free g.slots 0 ≡ none) × (h ≡ g)
Outcome g r (h, Added.open_failed) =
    Accepts g r × ((i : ℕ) × (first_free g.slots 0 ≡ some i) × Clears g i h)

Opens-Outcome :
    (g : Devices) (r : Request) (i : ℕ) (ops : Option Ops) (o : Devices × Added)
    → Accepts g r
    → choose_ops g.plugins r.kind r.driver ≡ some ops
    → first_free g.slots 0 ≡ some i
    → Opens g i (new_device ops r (identity_from_spec r.spec)) o
    → Outcome g r o
Opens-Outcome g r i ops (h, Added.added uuid) a c f s = (a, (i, ops, c, f, s))
Opens-Outcome g r i ops (h, Added.open_failed) a c f s = (a, (i, f, s))
Opens-Outcome g r i ops (h, Added.bad_request) a c f s = absurd s
Opens-Outcome g r i ops (h, Added.unknown_driver) a c f s = absurd s
Opens-Outcome g r i ops (h, Added.collides) a c f s = absurd s
Opens-Outcome g r i ops (h, Added.no_slot) a c f s = absurd s

add_at-Outcome :
    (g : Devices) (r : Request) (ops : Option Ops) (o : Option ℕ)
    → Accepts g r
    → choose_ops g.plugins r.kind r.driver ≡ some ops
    → first_free g.slots 0 ≡ o
    → Outcome g r (add_at g r ops o)
unfolding add_at
add_at-Outcome g r ops none a c f = (a, f, refl)
add_at-Outcome g r ops (some i) a c f =
    let d = new_device ops r (identity_from_spec r.spec) in
    Opens-Outcome g r i ops _ a c f
      (open_device-Opens g (announce g d) i d ops r.spec (announce-Same g d))

add_with-Outcome :
    (g : Devices) (r : Request) (o : Option (Option Ops))
    → Accepts g r
    → choose_ops g.plugins r.kind r.driver ≡ o
    → Outcome g r (add_with g r o)
unfolding add_with
add_with-Outcome g r none a c = (a, c, refl)
add_with-Outcome g r (some ops) a c = add_at-Outcome g r ops (first_free g.slots 0) a c refl

pub add-Outcome : (g : Devices) (r : Request) → Outcome g r (add g r)
unfolding add
add-Outcome g r =
    if_elim (Outcome g r) (is_empty r.name || is_empty r.kind || is_empty r.driver) _ _
      (λ a. (ground arith, refl))
      (λ a.
        if_elim (Outcome g r) (leb name_size (length r.name)) _ _ (λ b. (ground arith, refl))
          (λ b.
            if_elim (Outcome g r) (name_taken g.slots 0 r.name device_slots) _ _
              (λ c. (ground arith, refl))
              (λ c.
                if_elim (Outcome g r) (uuid_in_use g.slots r.uuid) _ _ (λ d. (ground arith, refl))
                  (λ d.
                    add_with-Outcome g r (choose_ops g.plugins r.kind r.driver)
                      (record {
                        name_given = ground arith;
                        name_fits = b;
                        name_free = c;
                        uuid_free = d;
                      })
                      refl))))

-- No addition changes the queue.
Outcome-pending :
    (g : Devices) (r : Request) (o : Devices × Added) → Outcome g r o → o.0.pending ≡ g.pending
Outcome-pending g r (h, Added.added uuid) (a, (i, ops, c, f, s)) = s.pending
Outcome-pending g r (h, Added.bad_request) (a, e) = rw e refl
Outcome-pending g r (h, Added.unknown_driver) (a, c, e) = rw e refl
Outcome-pending g r (h, Added.collides) (a, e) = rw e refl
Outcome-pending g r (h, Added.no_slot) (a, f, e) = rw e refl
Outcome-pending g r (h, Added.open_failed) (a, (i, f, c)) = c.pending

pub add-pending : (g : Devices) (r : Request) → (add g r).0.pending ≡ g.pending
add-pending g r = Outcome-pending g r (add g r) (add-Outcome g r)
