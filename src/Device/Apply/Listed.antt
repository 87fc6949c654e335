-- ===== src/Device/Apply/Listed.antt =====
-- After a configuration is applied, the live devices are those of the configuration:
-- `mf_devices_apply_config` of src/device/device.c.
use mathlib.Core.Bool.{false≢true}
use mathlib.Core.List.{Memᴰ}
use mathlib.Core.List.Memᴰ.{head, tail}
use moon_flare.Prelude.{
  ℕ, true, false, ◌≡◌, ◌≢◌, refl, sym, ◌∙◌, subst, Option, none, some, Bytes, List, [], ◌∷◌, length,
  set, All, if_elim, inl, inr, arith, take_all, same_bytes, not,
}
use moon_flare.Device.Spec.{DeviceConfig, is_empty, identity_from_spec}
use moon_flare.Device.Plugin.{Ops}
use moon_flare.Device.Table.{
  Devices, Device, blank, is_live, device_slots, uuid_in_use, find_slot_uuid,
}
use moon_flare.Device.Add.{Added, new_device, add_from_cfg, request_of}
use moon_flare.Device.Add.Outcome.{Outcome, Accepts, Starts, add-Outcome}
use moon_flare.Device.Apply.{
  Applied, apply_config, apply_slots, add_entries, add_entry, add_absent, after_add, bad_entries,
  validate_apply, find_want, identity_changed,
}
use moon_flare.Device.Apply.Identity.{HasShortNames, new-SameIdentity, unchanged}
use moon_flare.Device.Distinct.{at, at_cases}
use moon_flare.Device.Distinct.Adding.{live-in_use, new_name}
use moon_flare.Device.Distinct.Follows.{pending_queue-slots}
use moon_flare.Device.Distinct.Applying.{HasShortUuid, slots-Follows}
use moon_flare.Device.Distinct.Wants.{some-inj, want_uuid, want-GoodEntry}

-- A live slot has an entry that is enabled, with its uuid, its name and its identity.
abbrev pub Listed : List DeviceConfig → Device → Type 0
Listed devs d =
    is_live d ≡ true
    → (w : DeviceConfig) × Memᴰ w devs
      × (w.enabled ≡ true)
      × (d.uuid ≡ w.uuid)
      × (d.name ≡ w.name)
      × (identity_changed d w ≡ false)

find_want-Mem :
    (devs : List DeviceConfig) (uuid : Bytes) (w : DeviceConfig)
    → find_want devs uuid ≡ some w
    → Memᴰ w devs
unfolding find_want
find_want-Mem [] uuid w e = ground arith
find_want-Mem (d ∷ ds) uuid w e =
    if_elim (λ (o : Option DeviceConfig). o ≡ some w → Memᴰ w (d ∷ ds)) (same_bytes d.uuid uuid)
      (some d) (find_want ds uuid) (λ h f. head (sym (some-inj d w f)))
      (λ h f. tail (find_want-Mem ds uuid w f)) e

AllListed : List DeviceConfig → List Device → Type 0
AllListed devs ds = (j : ℕ) → Listed devs (at ds j)

slots-Listed :
    (devs : List DeviceConfig) (g : Devices)
    → bad_entries g.plugins devs ≡ false
    → length g.slots ≡ device_slots
    → AllListed devs (apply_slots devs g 0 device_slots).slots
unfolding AllListed
slots-Listed devs g good l j live =
    let e = at (apply_slots devs g 0 device_slots).slots j in
    let f = slots-Follows devs g j l in
    let (w, found, on, n, same) = f.want live in
    let q = want-GoodEntry g.plugins devs (at g.slots j).uuid w good found in
    (
      w,
      find_want-Mem devs (at g.slots j).uuid w found,
      on,
      f.uuid (live-in_use e live) ∙ sym (want_uuid devs (at g.slots j).uuid w found),
      n ∙ take_all 31 w.name (ground (arith, q.name_fits (q.name_given on))),
      same,
    )

-- What a write does to such a table.
set-Listed :
    (devs : List DeviceConfig) (ds : List Device) (i : ℕ) (e : Device)
    → AllListed devs ds
    → Listed devs e
    → AllListed devs (set ds i e)
unfolding AllListed
set-Listed devs ds i e a l j = elim (at_cases ds i e j) [
  | inl h ↦ subst (Listed devs) (sym h) (a j)
  | inr (c, h) ↦ subst (Listed devs) (sym h) l
]

blank-Listed : (devs : List DeviceConfig) → Listed devs blank
blank-Listed devs h = absurd (false≢true h)

uuid_of :
    (d : DeviceConfig) (ops : Option Ops)
    → HasShortUuid d
    → (new_device ops (request_of d []) (identity_from_spec (request_of d []).spec)).uuid ≡ d.uuid
unfolding new_device request_of
uuid_of d ops (e, s) =
    if_elim (λ u. u ≡ d.uuid) (is_empty d.uuid) _ _ (λ h. ground arith)
      (λ h. take_all 36 d.uuid (omega (arith, s)))

started-Listed :
    (devs : List DeviceConfig) (g h : Devices) (d : DeviceConfig) (i : ℕ) (ops : Option Ops)
    (uuid : Bytes)
    → Memᴰ d devs
    → d.enabled ≡ true
    → HasShortUuid d
    → HasShortNames d
    → Accepts g (request_of d [])
    → (s : Starts g i
        (new_device ops (request_of d []) (identity_from_spec (request_of d []).spec))
        h
        uuid)
    → Listed devs s.device
unfolding request_of
started-Listed devs g h d i ops uuid m on u s a st live =
    let (k, r, b, p) = new-SameIdentity d ops s in
    let (n', u', k', r', b', p', v') = st.copies in
    (
      d,
      m,
      on,
      u' ∙ uuid_of d ops u,
      n' ∙ new_name g (request_of d []) ops a,
      unchanged st.device d (k' ∙ k, r' ∙ r, b' ∙ b, p' ∙ p),
    )

Outcome-Listed :
    (devs : List DeviceConfig) (g : Devices) (d : DeviceConfig) (o : Devices × Added)
    → Memᴰ d devs
    → d.enabled ≡ true
    → HasShortUuid d
    → HasShortNames d
    → AllListed devs g.slots
    → Outcome g (request_of d []) o
    → AllListed devs o.0.slots
Outcome-Listed devs g d (h, Added.added uuid) m on u s l (a, (i, ops, c, f, st)) =
    subst (AllListed devs) (sym st.slots)
      (set-Listed devs g.slots i st.device l (started-Listed devs g h d i ops uuid m on u s a st))
Outcome-Listed devs g d (h, Added.bad_request) m on u s l (a, e) = rw e l
Outcome-Listed devs g d (h, Added.unknown_driver) m on u s l (a, c, e) = rw e l
Outcome-Listed devs g d (h, Added.collides) m on u s l (a, e) = rw e l
Outcome-Listed devs g d (h, Added.no_slot) m on u s l (a, f, e) = rw e l
Outcome-Listed devs g d (h, Added.open_failed) m on u s l (a, (i, f, c)) =
    subst (AllListed devs) (sym c.slots) (set-Listed devs g.slots i blank l (blank-Listed devs))

after_add-Listed :
    (devs : List DeviceConfig) (d : DeviceConfig) (r : Devices × Added)
    → AllListed devs r.0.slots
    → AllListed devs (after_add d r).slots
unfolding after_add
after_add-Listed devs d (g, Added.collides) l = rw (pending_queue-slots g d) l
after_add-Listed devs d (g, Added.added uuid) l = l
after_add-Listed devs d (g, Added.bad_request) l = l
after_add-Listed devs d (g, Added.unknown_driver) l = l
after_add-Listed devs d (g, Added.no_slot) l = l
after_add-Listed devs d (g, Added.open_failed) l = l

-- The sizes that an entry keeps to.
abbrev pub HasSizes : DeviceConfig → Type 0
HasSizes d = HasShortUuid d × HasShortNames d

add_absent-Listed :
    (devs : List DeviceConfig) (g : Devices) (d : DeviceConfig) (o : Option ℕ)
    → Memᴰ d devs
    → d.enabled ≡ true
    → HasSizes d
    → AllListed devs g.slots
    → AllListed devs (add_absent g d o).slots
unfolding add_absent add_from_cfg
add_absent-Listed devs g d (some i) m on s l = l
add_absent-Listed devs g d none m on (u, s) l =
    if_elim (λ (h : Devices). AllListed devs h.slots) (uuid_in_use g.slots d.uuid) _ _
      (λ e. rw (pending_queue-slots g d) l)
      (λ e.
        after_add-Listed devs d (add_from_cfg g d)
          (Outcome-Listed devs g d (add_from_cfg g d) m on u s l (add-Outcome g (request_of d []))))

add_entry-Listed :
    (devs : List DeviceConfig) (g : Devices) (d : DeviceConfig)
    → Memᴰ d devs
    → HasSizes d
    → AllListed devs g.slots
    → AllListed devs (add_entry g d).slots
unfolding add_entry
add_entry-Listed devs g d m s l =
    if_elim (λ (h : Devices). AllListed devs h.slots) (not d.enabled) _ _ (λ e. l)
      (λ e. add_absent-Listed devs g d (find_slot_uuid g d.uuid) m (ground arith) s l)

-- The entries still to add are among all.
add_entries-Listed :
    (devs ds : List DeviceConfig) (g : Devices)
    → ((d : DeviceConfig) → Memᴰ d ds → Memᴰ d devs)
    → All HasSizes ds
    → AllListed devs g.slots
    → AllListed devs (add_entries g ds).slots
unfolding add_entries
add_entries-Listed devs [] g sub s l = l
add_entries-Listed devs (d ∷ ds) g sub (s, ss) l =
    add_entries-Listed devs ds (add_entry g d) (λ e m. sub e (tail m)) ss
      (add_entry-Listed devs g d (sub d (head refl)) s l)

-- After a configuration that is not refused, every live device has an entry in it that is enabled and
-- has the device's uuid, name, kind, driver, bus and endpoint: no device that the configuration does
-- not name stays live. The table has its 32 slots, and the uuids, kinds, drivers and buses of the
-- entries have the sizes of the slots' fields.
pub apply_config-Listed :
    (g : Devices) (devs : List DeviceConfig) (j : ℕ)
    → length g.slots ≡ device_slots
    → All HasSizes devs
    → (apply_config g devs).1 ≢ Applied.invalid
    → Listed devs (at (apply_config g devs).0.slots j)
unfolding apply_config validate_apply AllListed
apply_config-Listed g devs j l s =
    if_elim (λ (r : Devices × Applied). r.1 ≢ Applied.invalid → Listed devs (at r.0.slots j))
      (not (validate_apply g devs)) _ _ (λ e ne. absurd (ne refl))
      (λ e ne.
        add_entries-Listed devs devs (apply_slots devs g 0 device_slots) (λ d m. m) s
          (slots-Listed devs g (ground arith) l) j)
