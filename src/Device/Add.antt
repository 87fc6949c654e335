-- ===== src/Device/Add.antt =====
-- `mf_devices_add` of src/device/device.c.
pub mod Outcome
use moon_flare.Prelude.Int.{ℤ, pos, negsuc, less}
use moon_flare.Prelude.{
  ℕ, List, [], ◌∷◌, Bool, true, false, ◌||◌, not, Option, none, some, length, Bytes, same_bytes,
  leb, if◌then◌else◌,
}
use moon_flare.Device.Spec.{Spec, fit, is_empty, text, identity_from_spec, DeviceConfig, spec_of}
use moon_flare.Device.Plugin.{Ops, Plugin, Opened, find_plugin, capture_resolve}
use moon_flare.Device.Table.{
  Devices, Device, blank, put_slot, name_size, uuid_size, name_taken, uuid_in_use, first_free,
  history_register, history_retention, read_caps, refresh_reading, device_slots,
}

-- What the function returns: 0 with the uuid, -1, -2, -3, -4 and -5.
pub data Added : Type 0 where
  added : Bytes → Added
  bad_request unknown_driver collides no_slot open_failed : Added

-- The arguments, and what `uuid_generate` would return. A NULL is an empty string.
pub record Request : Type 0 where
  pub name : Bytes
  pub kind : Bytes
  pub driver : Bytes
  pub spec : Option Spec
  pub uuid : Bytes
  pub fresh : Bytes

-- `mf_poll_interval_min`
unfoldable pub poll_interval_min : Bytes → ℤ
poll_interval_min driver =
    if same_bytes driver (text "classic")
    then pos 1000
    else if same_bytes driver (text "jk")
    then pos 1000
    else if same_bytes driver (text "xd")
    then pos 500
    else pos 500

abbrev pub clamp_poll : Bytes → ℤ → ℤ
clamp_poll driver poll = let low = poll_interval_min driver in if less poll low then low else poll

unfoldable pub number_in : Option Spec → (Spec → Option ℤ) → ℤ → ℤ
number_in none f d = d
number_in (some s) f d = elim (f s) [ none ↦ d | some v ↦ v ]

unfoldable pub active_in : Option Spec → Bool
active_in none = true
active_in (some s) = not s.active_false

abbrev pub kind_size : ℕ
kind_size = 16

-- The slot before its plugin is opened, with what `identity_from_spec` found.
unfoldable pub new_device : Option Ops → Request → Bytes × Bytes × ℤ → Device
new_device ops r (bus, endpoint, poll) =
    let driver = fit kind_size r.driver in
    let uuid = if is_empty r.uuid then fit uuid_size r.fresh else fit uuid_size r.uuid in
    record blank {
      uuid = uuid;
      name = fit name_size r.name;
      kind = fit kind_size r.kind;
      driver = driver;
      ops = ops;
      enabled = true;
      bus = bus;
      endpoint = endpoint;
      poll_interval = clamp_poll driver poll;
      retention = number_in r.spec (λ s. s.retention) (negsuc 999);
      active = active_in r.spec;
      capture_interval =
          capture_resolve ops (number_in r.spec (λ s. s.capture_interval) (negsuc 999));
      reading = text "{}";
    }

abbrev pub announce : Devices → Device → Devices
announce g d = history_retention (history_register g d) d

-- The slot `i` in use, with its thread.
abbrev pub start : ℕ → Devices × Device → Devices × Added
start i (g, d) = (put_slot g i (record d { in_use = true; stop = false }), Added.added d.uuid)

unfoldable pub opened_with : Devices → ℕ → Device → Ops → Opened → Devices × Added
opened_with g i d ops Opened.open_failed = (put_slot g i blank, Added.open_failed)
opened_with g i d ops (Opened.opened ctx) =
    start i (refresh_reading g (read_caps (record d { ctx = some ctx }) ops ctx))

unfoldable pub open_with :
    Devices → ℕ → Device → Ops → Option Spec → Option (Option Spec → Opened) → Devices × Added
open_with g i d ops spec none = start i (g, d)
open_with g i d ops spec (some f) = opened_with g i d ops (f spec)

unfoldable pub open_device : Devices → ℕ → Device → Option Ops → Option Spec → Devices × Added
open_device g i d none spec = start i (g, d)
open_device g i d (some ops) spec = open_with g i d ops spec ops.open_fn

unfoldable pub found_ops : Option Ops → Option (Option Ops)
found_ops none = none
found_ops (some ops) = some (some ops)

-- `ops` when there are plugins; `none` is an unknown kind or driver.
unfoldable pub choose_ops : List Plugin → Bytes → Bytes → Option (Option Ops)
choose_ops [] kind driver = some none
choose_ops (p ∷ ps) kind driver = found_ops (find_plugin (p ∷ ps) kind driver)

unfoldable pub add_at : Devices → Request → Option Ops → Option ℕ → Devices × Added
add_at g r ops none = (g, Added.no_slot)
add_at g r ops (some i) =
    let d = new_device ops r (identity_from_spec r.spec) in
    open_device (announce g d) i d ops r.spec

unfoldable pub add_with : Devices → Request → Option (Option Ops) → Devices × Added
add_with g r none = (g, Added.unknown_driver)
add_with g r (some ops) = add_at g r ops (first_free g.slots 0)

-- `mf_devices_add`
unfoldable pub add : Devices → Request → Devices × Added
add g r =
    if is_empty r.name || is_empty r.kind || is_empty r.driver
    then (g, Added.bad_request)
    else if leb name_size (length r.name)
    then (g, Added.bad_request)
    else if name_taken g.slots 0 r.name device_slots
    then (g, Added.collides)
    else if uuid_in_use g.slots r.uuid
    then (g, Added.collides)
    else add_with g r (choose_ops g.plugins r.kind r.driver)

-- `add_from_cfg`, when there is memory for the JSON.
unfoldable pub request_of : DeviceConfig → Bytes → Request
request_of d fresh = record {
  name = d.name;
  kind = d.kind;
  driver = d.driver;
  spec = some (spec_of d);
  uuid = d.uuid;
  fresh = fresh;
}

unfoldable pub add_from_cfg : Devices → DeviceConfig → Devices × Added
add_from_cfg g d = add g (request_of d [])
