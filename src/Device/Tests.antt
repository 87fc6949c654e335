-- ===== src/Device/Tests.antt =====
-- Runs of the device manager on small inputs, and each theorem at an input.
use Prim.Native.String.{String}
use moon_flare.Prelude.Int.{pos, negsuc}
use moon_flare.Prelude.{
  ℕ, ◌+◌, All, sym, ◌∙◌, subst, same_bytes, true, false, ◌≡◌, ◌≢◌, refl, none, some, List, [], ◌∷◌,
  arith, length, set, ◌<◌,
}
use moon_flare.Device.Spec.{
  DeviceConfig, text, is_empty, spec_of, config_endpoint, identity_from_spec, spec_endpoint,
  spec_poll, usb_endpoint, ble_endpoint, modbus_endpoint,
}
use moon_flare.Device.Plugin.{
  Ops, Opened, Plugin, Value, Patch, find_plugin, differs, capture_spec, capture_resolve,
}
use moon_flare.Device.Table.{
  device_slots, uuid_size, init, slot, history_retention, register_with, history_register,
  history_retire, name_taken, uuid_in_use, find_slot, is_live, is_dying, find_live, find_slot_uuid,
  first_free, any_dying, caps_with, read_caps, take_reading, sample, refresh_with, refresh_fn,
  refresh_ops, refresh_reading, close_ctx, end_thread, stepped, step_with, step_ops, device_pt,
  tick_slot, tick_from, tick, Device, Devices,
}
use moon_flare.Device.Add.{
  poll_interval_min, number_in, active_in, new_device, opened_with, open_with, open_device,
  found_ops, choose_ops, add_at, add_with, add, request_of, add_from_cfg, Added, Request,
}
use moon_flare.Device.Add.Outcome.{Outcome}
use moon_flare.Device.Settings.{
  then_stage, active_ok, check_active, rename, put_name, number_of, put_poll, put_capture,
  put_retention, put_active, put_object, put_generic, put_with, put_ops, put_plugin, put_at,
  put_settings,
}
use moon_flare.Device.Apply.{
  cancelled, pending_cancel, uuid_in_cfg, stop_slot, identity_changed, clashes, clashes_later,
  unknown, bad_entry, bad_entries, still_stopping, any_stopping, entries_stopping, validate_apply,
  find_want, patched, patch_slot, retire_slot, apply_want, apply_slot, apply_slots, after_add,
  add_absent, add_entry, add_entries, any_pending, apply_config, delete_at, delete, Applied,
}
use moon_flare.Device.Apply.Identity.{HasShortNames, add-Identity}
use moon_flare.Device.Apply.Listed.{HasSizes, Listed, apply_config-Listed}
use moon_flare.Device.Apply.Release.{delete-tick}
use moon_flare.Device.Distinct.{WellFormed, at}
use moon_flare.Device.Distinct.Adding.{HasUuid}
use moon_flare.Device.Reach.{Reaches, starts, then, adds, ticks, reach-WellFormed}

-- A plugin that counts its steps and always has a reading.
abbrev counter : Ops
counter = record {
  open_fn = some (λ spec. Opened.opened 0);
  step_fn = some (λ ctx. (ctx + 1, false));
  reading_fn = some (λ ctx. (ctx, some (text "{}")));
  error_fn = none;
  caps_fn = none;
  put_fn = none;
  action_fn = none;
  capture = none;
  has_close = true;
}

abbrev plugins : List Plugin
plugins = record { kind = some (text "demo"); driver = some (text "demo"); ops = counter } ∷ []

abbrev entry : String → String → String → DeviceConfig
entry uuid name path = record {
  uuid = text uuid;
  name = text name;
  kind = text "demo";
  driver = text "demo";
  enabled = true;
  active = true;
  poll_interval = pos 2000;
  capture_interval = pos 0;
  retention = negsuc 999;
  bus = text "usb";
  usb_path = text path;
  usb_serial = [];
  ble_address = [];
  modbus_ip = [];
  modbus_port = pos 502;
  extra = [];
}

abbrev empty_table : Devices
empty_table = init true plugins true

abbrev request : String → String → String → Request
request uuid name path = request_of (entry uuid name path) []

abbrev one : Devices
one = (add empty_table (request "u1" "A" "1-1")).0

abbrev two : Devices
two = (add one (request "u2" "B" "1-2")).0

has_uuid :
    (g : Devices) (uuid name path : String)
    → is_empty (text uuid) ≡ false
    → length (text uuid) < uuid_size
    → HasUuid g (request uuid name path)
unfolding request_of
has_uuid g uuid name path e l = record {
  short = l;
  made = λ h. ground arith;
  unused = λ h. ground arith;
}

two-reached : Reaches two
two-reached =
    then
      (then (starts true plugins true)
        (adds (request "u1" "A" "1-1") (has_uuid empty_table "u1" "A" "1-1" refl (omega arith))))
      (adds (request "u2" "B" "1-2") (has_uuid one "u2" "B" "1-2" refl (omega arith)))

reach-WellFormed_example : WellFormed (tick false two).slots
reach-WellFormed_example = reach-WellFormed (tick false two) (then two-reached (ticks false))

-- The table is full of live devices, one after the other.
two_names :
    ((slot two 0).name ≡ text "A") × ((slot two 1).name ≡ text "B") × (is_live (slot two 1) ≡ true)
unfolding init add add_with add_at choose_ops found_ops find_plugin differs first_free name_taken
    uuid_in_use new_device number_in active_in capture_resolve capture_spec identity_from_spec
    spec_endpoint spec_poll usb_endpoint ble_endpoint modbus_endpoint poll_interval_min spec_of
    history_register register_with history_retention open_device open_with opened_with read_caps
    caps_with refresh_reading refresh_ops refresh_fn refresh_with take_reading sample request_of
    same_bytes
two_names = (refl, refl, refl)

-- A name in use is refused.
same_name : (add one (request "u2" "A" "1-2")).1 ≡ Added.collides
unfolding init add add_with add_at choose_ops found_ops find_plugin differs first_free name_taken
    uuid_in_use new_device number_in active_in capture_resolve capture_spec identity_from_spec
    spec_endpoint spec_poll usb_endpoint ble_endpoint modbus_endpoint poll_interval_min spec_of
    history_register register_with history_retention open_device open_with opened_with read_caps
    caps_with refresh_reading refresh_ops refresh_fn refresh_with take_reading sample request_of
    same_bytes
same_name = refl

short_names : (uuid name path : String) → HasShortNames (entry uuid name path)
short_names uuid name path = record { kind = omega arith; driver = omega arith; bus = omega arith }

add_one : add_from_cfg empty_table (entry "u1" "A" "1-1") ≡ (one, Added.added (text "u1"))
unfolding add_from_cfg init add add_with add_at choose_ops found_ops find_plugin differs first_free
    name_taken uuid_in_use new_device number_in active_in capture_resolve capture_spec
    identity_from_spec spec_endpoint spec_poll usb_endpoint ble_endpoint modbus_endpoint
    poll_interval_min spec_of history_register register_with history_retention open_device open_with
    opened_with read_caps caps_with refresh_reading refresh_ops refresh_fn refresh_with take_reading
    sample request_of same_bytes
add_one = refl

add-Identity_example :
    (i : ℕ) × (e : Device) × (first_free empty_table.slots 0 ≡ some i)
    × (one.slots ≡ set empty_table.slots i e)
    × (is_live e ≡ true)
    × (identity_changed e (entry "u1" "A" "1-1") ≡ false)
add-Identity_example =
    add-Identity empty_table one (entry "u1" "A" "1-1") (text "u1") (short_names "u1" "A" "1-1")
      add_one

-- A configuration that turns the first device off and gives its name to the second.
abbrev second : List DeviceConfig
second = record (entry "u1" "Z" "1-1") { enabled = false } ∷ entry "u2" "A" "1-2" ∷ []

applied : (apply_config two second).1 ≡ Applied.in_progress
unfolding init add add_with add_at choose_ops found_ops find_plugin differs first_free name_taken
    uuid_in_use new_device number_in active_in capture_resolve capture_spec identity_from_spec
    spec_endpoint spec_poll usb_endpoint ble_endpoint modbus_endpoint poll_interval_min spec_of
    history_register register_with history_retention open_device open_with opened_with read_caps
    caps_with refresh_reading refresh_ops refresh_fn refresh_with take_reading sample request_of
    same_bytes apply_config validate_apply bad_entries bad_entry clashes_later unknown
    entries_stopping any_stopping apply_slots apply_slot add_entries add_entry add_absent after_add
    add_from_cfg find_slot_uuid find_slot any_dying any_pending config_endpoint find_want
    identity_changed patched patch_slot delete delete_at pending_cancel retire_slot stop_slot
    history_retire tick tick_from tick_slot device_pt end_thread close_ctx step_ops step_with
    stepped cancelled still_stopping uuid_in_cfg clashes apply_want
applied = refl

in_progress≢invalid : Applied.in_progress ≢ Applied.invalid
in_progress≢invalid e = subst (λ (a : Applied). elim a [ Applied.invalid ↦ ⊥ | _ ↦ Unit ]) e tt

two-len : length two.slots ≡ device_slots
unfolding init add add_with add_at choose_ops found_ops find_plugin differs first_free name_taken
    uuid_in_use new_device number_in active_in capture_resolve capture_spec identity_from_spec
    spec_endpoint spec_poll usb_endpoint ble_endpoint modbus_endpoint poll_interval_min spec_of
    history_register register_with history_retention open_device open_with opened_with read_caps
    caps_with refresh_reading refresh_ops refresh_fn refresh_with take_reading sample request_of
    same_bytes
two-len = refl

sizes : All HasSizes second
sizes = (
  ((refl, omega arith), record { kind = omega arith; driver = omega arith; bus = omega arith }),
  (((refl, omega arith), short_names "u2" "A" "1-2"), tt),
)

apply_config-Listed_example : Listed second (at (apply_config two second).0.slots 1)
apply_config-Listed_example =
    apply_config-Listed two second 1 two-len sizes (λ e. in_progress≢invalid (sym applied ∙ e))

-- The device keeps its slot under its new name, and the other one is stopping with the same name.
renamed :
    ((slot (apply_config two second).0 1).name ≡ text "A")
    × (is_live (slot (apply_config two second).0 1) ≡ true)
    × ((slot (apply_config two second).0 0).name ≡ text "A")
    × (is_dying (slot (apply_config two second).0 0) ≡ true)
unfolding init add add_with add_at choose_ops found_ops find_plugin differs first_free name_taken
    uuid_in_use new_device number_in active_in capture_resolve capture_spec identity_from_spec
    spec_endpoint spec_poll usb_endpoint ble_endpoint modbus_endpoint poll_interval_min spec_of
    history_register register_with history_retention open_device open_with opened_with read_caps
    caps_with refresh_reading refresh_ops refresh_fn refresh_with take_reading sample request_of
    same_bytes apply_config validate_apply bad_entries bad_entry clashes_later unknown
    entries_stopping any_stopping apply_slots apply_slot add_entries add_entry add_absent after_add
    add_from_cfg find_slot_uuid find_slot any_dying any_pending config_endpoint find_want
    identity_changed patched patch_slot delete delete_at pending_cancel retire_slot stop_slot
    history_retire tick tick_from tick_slot device_pt end_thread close_ctx step_ops step_with
    stepped cancelled still_stopping uuid_in_cfg clashes apply_want
renamed = (refl, refl, refl, refl)

deleted : (delete two (text "u1")).1 ≡ 202
unfolding init add add_with add_at choose_ops found_ops find_plugin differs first_free name_taken
    uuid_in_use new_device number_in active_in capture_resolve capture_spec identity_from_spec
    spec_endpoint spec_poll usb_endpoint ble_endpoint modbus_endpoint poll_interval_min spec_of
    history_register register_with history_retention open_device open_with opened_with read_caps
    caps_with refresh_reading refresh_ops refresh_fn refresh_with take_reading sample request_of
    same_bytes delete delete_at pending_cancel find_slot_uuid find_slot retire_slot stop_slot
    history_retire tick tick_from tick_slot device_pt end_thread close_ctx step_ops step_with
    stepped cancelled still_stopping uuid_in_cfg clashes apply_want
deleted = refl

other_runs : (at (tick false (delete two (text "u1")).0).slots 1).in_use ≡ true
unfolding init add add_with add_at choose_ops found_ops find_plugin differs first_free name_taken
    uuid_in_use new_device number_in active_in capture_resolve capture_spec identity_from_spec
    spec_endpoint spec_poll usb_endpoint ble_endpoint modbus_endpoint poll_interval_min spec_of
    history_register register_with history_retention open_device open_with opened_with read_caps
    caps_with refresh_reading refresh_ops refresh_fn refresh_with take_reading sample request_of
    same_bytes delete delete_at pending_cancel find_slot_uuid find_slot retire_slot stop_slot
    history_retire tick tick_from tick_slot device_pt end_thread close_ctx step_ops step_with
    stepped cancelled still_stopping uuid_in_cfg clashes apply_want
other_runs = refl

delete-tick_example : (at (tick false (delete two (text "u1")).0).slots 1).uuid ≢ text "u1"
delete-tick_example =
    delete-tick false two (text "u1") 1 (reach-WellFormed two two-reached) deleted other_runs

-- A request whose interval is too short is refused, and its name is taken all the same.
abbrev rename_and_hurry : Patch
rename_and_hurry = record {
  active = none;
  name = some (Value.string (text "C") (pos 0));
  poll_interval = some (Value.number (pos 100));
  capture_interval = none;
  retention = none;
  have_other = false;
}

half_applied :
    ((put_settings two (text "u1") (some rename_and_hurry)).1 ≡ 400)
    × ((slot (put_settings two (text "u1") (some rename_and_hurry)).0 0).name ≡ text "C")
unfolding init add add_with add_at choose_ops found_ops find_plugin differs first_free name_taken
    uuid_in_use new_device number_in active_in capture_resolve capture_spec identity_from_spec
    spec_endpoint spec_poll usb_endpoint ble_endpoint modbus_endpoint poll_interval_min spec_of
    history_register register_with history_retention open_device open_with opened_with read_caps
    caps_with refresh_reading refresh_ops refresh_fn refresh_with take_reading sample request_of
    same_bytes put_settings put_at put_generic put_object then_stage check_active active_ok put_name
    number_of put_poll put_capture put_retention put_active put_plugin put_ops put_with find_live
    find_slot rename
half_applied = (refl, refl)
