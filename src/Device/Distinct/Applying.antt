-- ===== src/Device/Distinct/Applying.antt =====
-- A well-formed table after `mf_devices_apply_config` and `mf_devices_apply_pending` of
-- src/device/device.c. The loop over the slots breaks it on the way, when devices swap their names.
use moon_flare.Prelude.{
  ℕ, zero, suc, ◌+◌, ◌<◌, true, false, not, ◌≡◌, ◌≢◌, refl, sym, ◌∙◌, subst, Option, none, some,
  List, [], ◌∷◌, length, set, get_or, if_elim, arith, take_all, All,
}
use moon_flare.Device.Spec.{DeviceConfig, is_empty}
use moon_flare.Device.Plugin.{Plugin}
use moon_flare.Device.Table.{
  Devices, Device, is_live, device_slots, uuid_size, uuid_in_use, find_slot_uuid,
}
use moon_flare.Device.Add.{Added, add_from_cfg, request_of}
use moon_flare.Device.Add.Outcome.{add-pending}
use moon_flare.Device.Apply.{
  apply_slot, apply_slots, after_add, add_absent, add_entry, add_entries, Applied, bad_entries,
  after_retry, retry_entry, retry_from, apply_pending, validate_apply, apply_config,
}
use moon_flare.Device.Distinct.{Apart, at, WellFormed}
use moon_flare.Device.Distinct.Adding.{HasUuid, add-WellFormed, live-in_use}
use moon_flare.Device.Distinct.Wants.{want-GoodEntry, wants_differ}
use moon_flare.Device.Distinct.Follows.{
  Follows, pending_queue-slots, free-Follows, apply_slot-Writes,
}
use moon_flare.Device.Distinct.Rounds.{loop_len, loop_all}

module _ (devs : List DeviceConfig) where
  apply_slots-zero : (g : Devices) (i : ℕ) → apply_slots devs g i zero ≡ g
  unfolding apply_slots
  apply_slots-zero g i = refl

  apply_slots-suc :
      (g : Devices) (i n : ℕ)
      → apply_slots devs g i (suc n) ≡ apply_slots devs (apply_slot devs g i) (i + 1) n
  unfolding apply_slots
  apply_slots-suc g i n = refl

  slots_len : (g : Devices) → length (apply_slots devs g 0 device_slots).slots ≡ length g.slots
  slots_len g =
      loop_len (Follows devs) (apply_slot devs) (apply_slots devs) apply_slots-zero apply_slots-suc
        (apply_slot-Writes devs) device_slots g 0

  pub slots-Follows :
      (g : Devices) (j : ℕ)
      → length g.slots ≡ device_slots
      → Follows devs (at g.slots j) (at (apply_slots devs g 0 device_slots).slots j)
  slots-Follows =
      loop_all (Follows devs) (apply_slot devs) (apply_slots devs) apply_slots-zero apply_slots-suc
        (apply_slot-Writes devs) (free-Follows devs)

-- Live slots have the names of different entries.
live_names :
    (plugins : List Plugin) (devs : List DeviceConfig) (a b d e : Device)
    → bad_entries plugins devs ≡ false
    → a.uuid ≢ b.uuid
    → Follows devs a d
    → Follows devs b e
    → is_live d ≡ true
    → is_live e ≡ true
    → d.name ≢ e.name
live_names plugins devs a b d e good ne x y u v same =
    let (w, f, i, n, c) = x.want u in
    let (z, k, j, m, c') = y.want v in
    let p = want-GoodEntry plugins devs a.uuid w good f in
    let q = want-GoodEntry plugins devs b.uuid z good k in
    let short = take_all 31 w.name (ground (arith, p.name_fits (p.name_given i))) in
    let short' = take_all 31 z.name (ground (arith, q.name_fits (q.name_given j))) in
    wants_differ plugins devs a.uuid b.uuid w z good f k ne (p.name_given i)
      (sym short ∙ sym n ∙ same ∙ m ∙ short')

loop-WellFormed :
    (devs : List DeviceConfig) (g : Devices)
    → bad_entries g.plugins devs ≡ false
    → WellFormed g.slots
    → WellFormed (apply_slots devs g 0 device_slots).slots
unfolding Apart
loop-WellFormed devs g good w = record {
  len = slots_len devs g ∙ w.len;
  apart = λ i j ne.
      let a = slots-Follows devs g i w.len in
      let b = slots-Follows devs g j w.len in
      let final = (apply_slots devs g 0 device_slots).slots in
      (
        λ u v e. (w.apart i j ne).0 (a.in_use u) (b.in_use v) (sym (a.uuid u) ∙ e ∙ b.uuid v),
        λ u v.
            live_names g.plugins devs (at g.slots i) (at g.slots j) (at final i) (at final j) good
              ((w.apart i j ne).0 (a.in_use (live-in_use (at final i) u))
                (b.in_use (live-in_use (at final j) v)))
              a b u v,
      );
  paced = λ i. (slots-Follows devs g i w.len).paced (w.paced i);
}

-- The uuid of an entry has its usual size.
abbrev pub HasShortUuid : DeviceConfig → Type 0
HasShortUuid d = (is_empty d.uuid ≡ false) × (length d.uuid < uuid_size)

request-HasUuid : (g : Devices) (d : DeviceConfig) → HasShortUuid d → HasUuid g (request_of d [])
unfolding request_of
request-HasUuid g d (e, s) = record {
  short = s;
  made = λ h. ground arith;
  unused = λ h. ground arith;
}

add_from_cfg-WellFormed :
    (g : Devices) (d : DeviceConfig)
    → HasShortUuid d
    → WellFormed g.slots
    → WellFormed (add_from_cfg g d).0.slots
unfolding add_from_cfg
add_from_cfg-WellFormed g d u w = add-WellFormed g (request_of d []) (request-HasUuid g d u) w

after_add-WellFormed :
    (d : DeviceConfig) (r : Devices × Added)
    → WellFormed r.0.slots
    → WellFormed (after_add d r).slots
unfolding after_add
after_add-WellFormed d (g, Added.collides) w = rw (pending_queue-slots g d) w
after_add-WellFormed d (g, Added.added uuid) w = w
after_add-WellFormed d (g, Added.bad_request) w = w
after_add-WellFormed d (g, Added.unknown_driver) w = w
after_add-WellFormed d (g, Added.no_slot) w = w
after_add-WellFormed d (g, Added.open_failed) w = w

add_absent-WellFormed :
    (g : Devices) (d : DeviceConfig) (o : Option ℕ)
    → HasShortUuid d
    → WellFormed g.slots
    → WellFormed (add_absent g d o).slots
unfolding add_absent
add_absent-WellFormed g d (some i) u w = w
add_absent-WellFormed g d none u w =
    if_elim (λ (h : Devices). WellFormed h.slots) (uuid_in_use g.slots d.uuid) _ _
      (λ e. rw (pending_queue-slots g d) w)
      (λ e. after_add-WellFormed d (add_from_cfg g d) (add_from_cfg-WellFormed g d u w))

add_entry-WellFormed :
    (g : Devices) (d : DeviceConfig)
    → HasShortUuid d
    → WellFormed g.slots
    → WellFormed (add_entry g d).slots
unfolding add_entry
add_entry-WellFormed g d u w =
    if_elim (λ (h : Devices). WellFormed h.slots) (not d.enabled) _ _ (λ e. w)
      (λ e. add_absent-WellFormed g d (find_slot_uuid g d.uuid) u w)

add_entries-WellFormed :
    (ds : List DeviceConfig) (g : Devices)
    → All HasShortUuid ds
    → WellFormed g.slots
    → WellFormed (add_entries g ds).slots
unfolding add_entries
add_entries-WellFormed [] g u w = w
add_entries-WellFormed (d ∷ ds) g (u, us) w =
    add_entries-WellFormed ds (add_entry g d) us (add_entry-WellFormed g d u w)

-- A configuration keeps the table well formed.
pub apply_config-WellFormed :
    (g : Devices) (devs : List DeviceConfig)
    → All HasShortUuid devs
    → WellFormed g.slots
    → WellFormed (apply_config g devs).0.slots
unfolding apply_config validate_apply
apply_config-WellFormed g devs u w =
    if_elim (λ (r : Devices × Applied). WellFormed r.0.slots) (not (validate_apply g devs)) _ _
      (λ e. w) (λ e. add_entries-WellFormed devs _ u (loop-WellFormed devs g (ground arith) w))

-- What waits in the queue has uuids of the usual size.
abbrev pub HasShortUuids : Option DeviceConfig → Type 0
HasShortUuids none = Unit
HasShortUuids (some d) = HasShortUuid d

All-get_or :
    (ps : List (Option DeviceConfig)) (i : ℕ)
    → All HasShortUuids ps
    → HasShortUuids (get_or ps i none)
All-get_or [] i u = tt
All-get_or (p ∷ ps) zero (u, us) = u
All-get_or (p ∷ ps) (suc i) (u, us) = All-get_or ps i us

All-set-none :
    (ps : List (Option DeviceConfig)) (i : ℕ)
    → All HasShortUuids ps
    → All HasShortUuids (set ps i none)
All-set-none [] i u = tt
All-set-none (p ∷ ps) zero (u, us) = (tt, us)
All-set-none (p ∷ ps) (suc i) (u, us) = (u, All-set-none ps i us)

-- The table and the queue together.
abbrev Sound : Devices → Type 0
Sound g = WellFormed g.slots × All HasShortUuids g.pending

after_retry-Sound : (i : ℕ) (r : Devices × Added) → Sound r.0 → Sound (after_retry i r)
unfolding after_retry
after_retry-Sound i (g, Added.collides) s = s
after_retry-Sound i (g, Added.added uuid) (w, u) = (w, All-set-none g.pending i u)
after_retry-Sound i (g, Added.bad_request) (w, u) = (w, All-set-none g.pending i u)
after_retry-Sound i (g, Added.unknown_driver) (w, u) = (w, All-set-none g.pending i u)
after_retry-Sound i (g, Added.no_slot) (w, u) = (w, All-set-none g.pending i u)
after_retry-Sound i (g, Added.open_failed) (w, u) = (w, All-set-none g.pending i u)

add_from_cfg-Sound :
    (g : Devices) (d : DeviceConfig) → HasShortUuid d → Sound g → Sound (add_from_cfg g d).0
unfolding add_from_cfg
add_from_cfg-Sound g d u (w, us) = (
  add-WellFormed g (request_of d []) (request-HasUuid g d u) w,
  subst (All HasShortUuids) (sym (add-pending g (request_of d []))) us,
)

retry_entry-Sound :
    (g : Devices) (i : ℕ) (o : Option DeviceConfig)
    → HasShortUuids o
    → Sound g
    → Sound (retry_entry g i o)
unfolding retry_entry
retry_entry-Sound g i none u s = s
retry_entry-Sound g i (some d) u s =
    if_elim Sound (uuid_in_use g.slots d.uuid) _ _ (λ e. s)
      (λ e. after_retry-Sound i (add_from_cfg g d) (add_from_cfg-Sound g d u s))

retry_from-Sound : (n : ℕ) (g : Devices) (i : ℕ) → Sound g → Sound (retry_from g i n)
unfolding retry_from
retry_from-Sound zero g i s = s
retry_from-Sound (suc n) g i s =
    let o = get_or g.pending i none in
    retry_from-Sound n (retry_entry g i o) (i + 1)
      (retry_entry-Sound g i o (All-get_or g.pending i s.1) s)

pub apply_pending-WellFormed :
    (g : Devices)
    → All HasShortUuids g.pending
    → WellFormed g.slots
    → WellFormed (apply_pending g).slots
unfolding apply_pending
apply_pending-WellFormed g u w = (retry_from-Sound device_slots g 0 (w, u)).0
