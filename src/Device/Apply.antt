-- ===== src/Device/Apply.antt =====
-- Configurations and deletion: `mf_devices_apply_config`, `mf_devices_apply_pending`,
-- `mf_devices_delete` of src/device/device.c, and what they call.
pub mod Identity
pub mod Listed
pub mod Release
use moon_flare.Prelude.Int.{pos, less}
use moon_flare.Prelude.{
  ℕ, zero, suc, ◌+◌, List, [], ◌∷◌, Bool, true, false, ◌&&◌, ◌||◌, not, Option, none, some, length,
  set, Bytes, get_or, map, same_bytes, leb, if◌then◌else◌,
}
use moon_flare.Device.Spec.{DeviceConfig, config_endpoint, fit, is_empty}
use moon_flare.Device.Plugin.{Plugin, capture_resolve, find_plugin}
use moon_flare.Device.Table.{
  Devices, Device, blank, slot, put_slot, name_size, device_slots, uuid_in_use, find_slot_uuid,
  any_dying, history_register, history_retention, history_retire,
}
use moon_flare.Device.Add.{Added, poll_interval_min, clamp_poll, add_from_cfg}

unfoldable pub cancelled : Bytes → Option DeviceConfig → Option DeviceConfig
cancelled uuid none = none
cancelled uuid (some d) = if same_bytes d.uuid uuid then none else some d

-- `pending_cancel`
unfoldable pub pending_cancel : Devices → Bytes → Devices
pending_cancel g uuid =
    if is_empty uuid then g else record g { pending = map (cancelled uuid) g.pending }

-- The place in the queue: that of an entry with the uuid, or the first that is not used.
unfoldable pub queue_place : List (Option DeviceConfig) → ℕ → Bytes → Option ℕ → Option ℕ
queue_place [] i uuid free = free
queue_place (none ∷ ps) i uuid none = queue_place ps (i + 1) uuid (some i)
queue_place (none ∷ ps) i uuid (some f) = queue_place ps (i + 1) uuid (some f)
queue_place (some p ∷ ps) i uuid free =
    let later = queue_place ps (i + 1) uuid free in if same_bytes p.uuid uuid then some i else later

abbrev pub queue_at : Devices → DeviceConfig → Option ℕ → Devices
queue_at g d none = g
queue_at g d (some i) = record g { pending = set g.pending i (some d) }

-- `pending_queue`
unfoldable pub pending_queue : Devices → DeviceConfig → Devices
pending_queue g d = queue_at g d (queue_place g.pending 0 d.uuid none)

-- `uuid_in_cfg`
unfoldable pub uuid_in_cfg : List DeviceConfig → Bytes → Bool
uuid_in_cfg [] uuid = false
uuid_in_cfg (d ∷ ds) uuid = (not (is_empty uuid) && same_bytes d.uuid uuid) || uuid_in_cfg ds uuid

-- `stop_slot`: without threads the slot is free at once.
unfoldable pub stop_slot : Bool → Device → Device
stop_slot threads d =
    if not d.in_use then d else if threads then record d { stop = true } else blank

-- `identity_changed`
unfoldable pub identity_changed : Device → DeviceConfig → Bool
identity_changed d n =
    not (same_bytes d.kind n.kind)
    || not (same_bytes d.driver n.driver)
    || not (same_bytes d.bus n.bus)
    || not (same_bytes d.endpoint (config_endpoint n))

abbrev pub same_endpoint : Bytes → Bytes → Bool
same_endpoint a b = not (is_empty a) && not (is_empty b) && same_bytes a b

-- What refuses an entry because of a later one.
unfoldable pub clashes : DeviceConfig → DeviceConfig → Bool
clashes d e =
    same_bytes d.uuid e.uuid
    || (not (is_empty d.name) && same_bytes d.name e.name)
    || same_endpoint (config_endpoint d) (config_endpoint e)

unfoldable pub clashes_later : DeviceConfig → List DeviceConfig → Bool
clashes_later d [] = false
clashes_later d (e ∷ es) = clashes d e || clashes_later d es

unfoldable pub unknown : List Plugin → DeviceConfig → Bool
unknown [] d = false
unknown (p ∷ ps) d = elim (find_plugin (p ∷ ps) d.kind d.driver) [ none ↦ true | some ops ↦ false ]

-- What refuses one entry.
unfoldable pub bad_entry : List Plugin → DeviceConfig → List DeviceConfig → Bool
bad_entry plugins d later =
    is_empty d.uuid
    || (d.enabled && (is_empty d.name || is_empty d.kind || is_empty d.driver))
    || (not (is_empty d.name) && leb name_size (length d.name))
    || clashes_later d later
    || (d.enabled && unknown plugins d)
    || (less (pos 0) d.poll_interval && less d.poll_interval (poll_interval_min d.driver))
    || (less (pos 0) d.capture_interval && less d.capture_interval (pos 1000))

unfoldable pub bad_entries : List Plugin → List DeviceConfig → Bool
bad_entries plugins [] = false
bad_entries plugins (d ∷ ds) = bad_entry plugins d ds || bad_entries plugins ds

-- A slot of another device that has the name or the endpoint of an entry, and no entry of its own.
unfoldable pub still_stopping : List DeviceConfig → DeviceConfig → Device → Bool
still_stopping devs n d =
    d.in_use
    && not (same_bytes d.uuid n.uuid)
    && ((not (is_empty n.name) && same_bytes d.name n.name)
        || same_endpoint d.endpoint (config_endpoint n))
    && not (uuid_in_cfg devs d.uuid)

unfoldable pub any_stopping : List DeviceConfig → DeviceConfig → List Device → Bool
any_stopping devs n [] = false
any_stopping devs n (d ∷ ds) = still_stopping devs n d || any_stopping devs n ds

unfoldable pub entries_stopping : List DeviceConfig → List Device → List DeviceConfig → Bool
entries_stopping devs slots [] = false
entries_stopping devs slots (n ∷ ns) =
    (n.enabled && any_stopping devs n slots) || entries_stopping devs slots ns

-- `validate_apply`; `true` is 0.
unfoldable pub validate_apply : Devices → List DeviceConfig → Bool
validate_apply g devs = not (bad_entries g.plugins devs) && not (entries_stopping devs g.slots devs)

-- `want`: the first entry with the uuid of a slot.
unfoldable pub find_want : List DeviceConfig → Bytes → Option DeviceConfig
find_want [] uuid = none
find_want (d ∷ ds) uuid =
    let later = find_want ds uuid in if same_bytes d.uuid uuid then some d else later

-- What an entry changes in a slot of the same identity.
unfoldable pub patched : Device → DeviceConfig → Device
patched d w = record d {
  name = fit name_size w.name;
  enabled = w.enabled;
  active = w.active;
  poll_interval =
      if less (pos 0) w.poll_interval then clamp_poll d.driver w.poll_interval else d.poll_interval;
  capture_interval = capture_resolve d.ops w.capture_interval;
  retention = w.retention;
}

unfoldable pub patch_slot : Devices → ℕ → Device → Devices
patch_slot g i d = history_retention (history_register (put_slot g i d) d) d

unfoldable pub retire_slot : Devices → ℕ → Device → Devices
retire_slot g i d =
    let h = if not d.stop then history_retire g d else g in put_slot h i (stop_slot h.threads d)

unfoldable pub apply_want : Devices → ℕ → Device → Option DeviceConfig → Devices
apply_want g i d none = retire_slot (pending_cancel g d.uuid) i d
apply_want g i d (some w) =
    if not w.enabled
    then retire_slot (pending_cancel g d.uuid) i d
    else if identity_changed d w
    then put_slot (pending_queue g w) i (stop_slot g.threads d)
    else patch_slot g i (patched d w)

-- A round of the loop over the slots,
unfoldable pub apply_slot : List DeviceConfig → Devices → ℕ → Devices
apply_slot devs g i =
    let d = slot g i in if not d.in_use then g else apply_want g i d (find_want devs d.uuid)

-- and the loop.
unfoldable pub apply_slots : List DeviceConfig → Devices → ℕ → ℕ → Devices
apply_slots devs g i zero = g
apply_slots devs g i (suc n) = apply_slots devs (apply_slot devs g i) (i + 1) n

unfoldable pub after_add : DeviceConfig → Devices × Added → Devices
after_add d (g, Added.collides) = pending_queue g d
after_add d (g, Added.added uuid) = g
after_add d (g, Added.bad_request) = g
after_add d (g, Added.unknown_driver) = g
after_add d (g, Added.no_slot) = g
after_add d (g, Added.open_failed) = g

unfoldable pub add_absent : Devices → DeviceConfig → Option ℕ → Devices
add_absent g d (some i) = g
add_absent g d none =
    if uuid_in_use g.slots d.uuid then pending_queue g d else after_add d (add_from_cfg g d)

unfoldable pub add_entry : Devices → DeviceConfig → Devices
add_entry g d = if not d.enabled then g else add_absent g d (find_slot_uuid g d.uuid)

unfoldable pub add_entries : Devices → List DeviceConfig → Devices
add_entries g [] = g
add_entries g (d ∷ ds) = add_entries (add_entry g d) ds

unfoldable pub any_pending : List (Option DeviceConfig) → Bool
any_pending [] = false
any_pending (none ∷ ps) = any_pending ps
any_pending (some d ∷ ps) = true

-- What `mf_devices_apply_config` returns: 0, 1 and -1.
pub data Applied : Type 0 where
  done in_progress invalid : Applied

abbrev pub progress : Devices → Applied
progress g =
    if any_dying g.slots || any_pending g.pending then Applied.in_progress else Applied.done

-- `mf_devices_apply_config`
unfoldable pub apply_config : Devices → List DeviceConfig → Devices × Applied
apply_config g devs =
    if not (validate_apply g devs)
    then (g, Applied.invalid)
    else let h = add_entries (apply_slots devs g 0 device_slots) devs in (h, progress h)

abbrev pub unqueue : Devices → ℕ → Devices
unqueue g i = record g { pending = set g.pending i none }

unfoldable pub after_retry : ℕ → Devices × Added → Devices
after_retry i (g, Added.collides) = g
after_retry i (g, Added.added uuid) = unqueue g i
after_retry i (g, Added.bad_request) = unqueue g i
after_retry i (g, Added.unknown_driver) = unqueue g i
after_retry i (g, Added.no_slot) = unqueue g i
after_retry i (g, Added.open_failed) = unqueue g i

unfoldable pub retry_entry : Devices → ℕ → Option DeviceConfig → Devices
retry_entry g i none = g
retry_entry g i (some d) =
    if uuid_in_use g.slots d.uuid then g else after_retry i (add_from_cfg g d)

-- `mf_devices_apply_pending`
unfoldable pub retry_from : Devices → ℕ → ℕ → Devices
retry_from g i zero = g
retry_from g i (suc n) = retry_from (retry_entry g i (get_or g.pending i none)) (i + 1) n

unfoldable pub apply_pending : Devices → Devices
apply_pending g = retry_from g 0 device_slots

unfoldable pub delete_at : Devices → Option ℕ → Devices × ℕ
delete_at g none = (g, 404)
delete_at g (some i) = (retire_slot g i (slot g i), 202)

-- `mf_devices_delete`
unfoldable pub delete : Devices → Bytes → Devices × ℕ
delete g uuid =
    if is_empty uuid
    then (g, 404)
    else let h = pending_cancel g uuid in delete_at h (find_slot_uuid h uuid)
