-- ===== src/Device/Table.antt =====
-- The table of slots: live (`in_use` and not `stop`), dying (`in_use` and `stop`) and free.
pub mod Keeps
use moon_flare.Prelude.Int.{ℤ, pos, less}
use moon_flare.Prelude.{
  ℕ, zero, suc, ◌+◌, ◌-◌, ◌%◌, ◌^◌, List, [], ◌∷◌, ◌++◌, Bool, true, false, ◌&&◌, ◌||◌, not, Option,
  none, some, length, get_or, set, map, replicate, take, Bytes, same_bytes, ltb, ◌==◌,
  if◌then◌else◌,
}
use moon_flare.Device.Spec.{DeviceConfig, fit, is_empty, text}
use moon_flare.Device.Plugin.{Ops, Plugin, Capture, capture_spec}

-- `mf_device_t`, without the thread
pub record Device : Type 0 where
  pub in_use : Bool
  pub stop : Bool
  pub uuid : Bytes
  pub name : Bytes
  pub kind : Bytes
  pub driver : Bytes
  pub bus : Bytes
  pub endpoint : Bytes
  pub enabled : Bool
  pub active : Bool
  pub caps : ℕ
  pub ops : Option Ops
  pub ctx : Option ℕ
  pub online : Bool
  pub have_data : Bool
  pub seq : ℕ
  pub poll_interval : ℤ
  pub capture_interval : ℤ
  pub retention : ℤ
  pub last_error : Bytes
  pub reading : Bytes

-- A slot after memset.
abbrev pub blank : Device
blank = record {
  in_use = false;
  stop = false;
  uuid = [];
  name = [];
  kind = [];
  driver = [];
  bus = [];
  endpoint = [];
  enabled = false;
  active = false;
  caps = 0;
  ops = none;
  ctx = none;
  online = false;
  have_data = false;
  seq = 0;
  poll_interval = pos 0;
  capture_interval = pos 0;
  retention = pos 0;
  last_error = [];
  reading = [];
}

-- `MF_DEVICE_SLOTS`
abbrev pub device_slots : ℕ
device_slots = 32

abbrev pub name_size : ℕ
name_size = 32

abbrev pub uuid_size : ℕ
uuid_size = 37

-- `MF_READING_JSON_SZ`
abbrev pub reading_size : ℕ
reading_size = 16384

-- The calls of the history store.
pub data HistoryCall : Type 0 where
  registers : Bytes → Bytes → HistoryCall
  retains : Bytes → ℤ → HistoryCall
  retires : Bytes → HistoryCall
  samples : Bytes → Bytes → ℤ → HistoryCall

-- `g_dev`, `g_pending` (an entry not used is `none`), `g_pts`, `g_reg`, and the history store.
pub record Devices : Type 0 where
  pub slots : List Device
  pub pending : List (Option DeviceConfig)
  pub threads : Bool
  pub plugins : List Plugin
  pub history_open : Bool
  pub history : List HistoryCall

-- `mf_devices_init`
unfoldable pub init : Bool → List Plugin → Bool → Devices
init threads plugins history_open = record {
  slots = replicate device_slots blank;
  pending = replicate device_slots none;
  threads = threads;
  plugins = plugins;
  history_open = history_open;
  history = [];
}

abbrev pub slot : Devices → ℕ → Device
slot g i = get_or g.slots i blank

abbrev pub put_slot : Devices → ℕ → Device → Devices
put_slot g i d = record g { slots = set g.slots i d }

abbrev pub tell : Devices → HistoryCall → Devices
tell g c = if g.history_open then record g { history = g.history ++ (c ∷ []) } else g

unfoldable pub history_retention : Devices → Device → Devices
history_retention g d = tell g (HistoryCall.retains d.uuid d.retention)

unfoldable pub register_with : Devices → Device → Option Capture → Devices
register_with g d none = g
register_with g d (some c) = tell g (HistoryCall.registers d.uuid d.name)

unfoldable pub history_register : Devices → Device → Devices
history_register g d = register_with g d (capture_spec d.ops)

unfoldable pub history_retire : Devices → Device → Devices
history_retire g d = tell g (HistoryCall.retires d.uuid)

-- `name_taken`, from the slot `i` on. No slot has the number `skip` of -1, which is the number of
-- slots here.
unfoldable pub name_taken : List Device → ℕ → Bytes → ℕ → Bool
name_taken [] i name skip = false
name_taken (d ∷ ds) i name skip =
    (not (i == skip) && d.in_use && same_bytes d.name name) || name_taken ds (i + 1) name skip

-- `uuid_in_use`
unfoldable pub uuid_in_use : List Device → Bytes → Bool
uuid_in_use [] uuid = false
uuid_in_use (d ∷ ds) uuid =
    (not (is_empty uuid) && d.in_use && same_bytes d.uuid uuid) || uuid_in_use ds uuid

-- The first slot of some kind with a uuid, from the slot `i` on.
unfoldable pub find_slot : (Device → Bool) → List Device → ℕ → Bytes → Option ℕ
find_slot p [] i uuid = none
find_slot p (d ∷ ds) i uuid =
    if not (is_empty uuid) && p d && same_bytes d.uuid uuid
    then some i
    else find_slot p ds (i + 1) uuid

abbrev pub is_live : Device → Bool
is_live d = d.in_use && not d.stop

abbrev pub is_dying : Device → Bool
is_dying d = d.in_use && d.stop

-- `find_live_mut`
unfoldable pub find_live : Devices → Bytes → Option ℕ
find_live g uuid = find_slot is_live g.slots 0 uuid

-- `find_slot_uuid`
unfoldable pub find_slot_uuid : Devices → Bytes → Option ℕ
find_slot_uuid g uuid = find_slot (λ d. d.in_use) g.slots 0 uuid

unfoldable pub first_free : List Device → ℕ → Option ℕ
first_free [] i = none
first_free (d ∷ ds) i = if not d.in_use then some i else first_free ds (i + 1)

unfoldable pub any_dying : List Device → Bool
any_dying [] = false
any_dying (d ∷ ds) = is_dying d || any_dying ds

-- What a plugin says of its last error, if it says something.
unfoldable pub note_said : Device → Option Bytes → Device
note_said d none = d
note_said d (some e) = record d { last_error = fit 96 e }

unfoldable pub note_with : Device → ℕ → Option (ℕ → Option Bytes) → Device
note_with d ctx none = d
note_with d ctx (some f) = note_said d (f ctx)

unfoldable pub note_error : Device → Ops → ℕ → Device
note_error d ops ctx = note_with d ctx ops.error_fn

unfoldable pub caps_with : Device → ℕ → Option (ℕ → ℕ) → Device
caps_with d ctx none = d
caps_with d ctx (some f) = record d { caps = f ctx }

unfoldable pub read_caps : Device → Ops → ℕ → Device
read_caps d ops ctx = caps_with d ctx ops.caps_fn

-- A reading, or `none` for an error.
unfoldable pub take_reading : Device → Ops → ℕ → Option Bytes → Device
take_reading d ops ctx none = note_error (record d { online = false; ctx = some ctx }) ops ctx
take_reading d ops ctx (some json) =
    read_caps
      (record d {
        ctx = some ctx;
        reading = fit reading_size json;
        have_data = true;
        online = true;
        seq = (d.seq + 1) % 2 ^ 64;
        last_error = [];
      })
      ops ctx

-- The store takes readings of less than 4096 bytes.
unfoldable pub sample_reading : Bytes → Bytes
sample_reading r = if ltb (length r) 4096 then r else text "{}"

unfoldable pub sample : Devices → Device → Option Bytes → Devices
sample g d none = g
sample g d (some json) =
    if less (pos 0) d.capture_interval
    then tell g (HistoryCall.samples d.uuid (sample_reading d.reading) d.capture_interval)
    else g

unfoldable pub refresh_with : Devices → Device → Ops → ℕ × Option Bytes → Devices × Device
refresh_with g d ops (ctx, answer) = let e = take_reading d ops ctx answer in (sample g e answer, e)

unfoldable pub refresh_fn :
    Devices → Device → Ops → ℕ → Option (ℕ → ℕ × Option Bytes) → Devices × Device
refresh_fn g d ops ctx none = (g, d)
refresh_fn g d ops ctx (some f) = refresh_with g d ops (f ctx)

unfoldable pub refresh_ops : Devices → Device → Option Ops → Option ℕ → Devices × Device
refresh_ops g d none ctx = (g, d)
refresh_ops g d (some ops) none = (g, d)
refresh_ops g d (some ops) (some ctx) = refresh_fn g d ops ctx ops.reading_fn

-- `refresh_reading`
unfoldable pub refresh_reading : Devices → Device → Devices × Device
refresh_reading g d = refresh_ops g d d.ops d.ctx

-- A context is closed if the plugin can close it.
unfoldable pub close_ctx : Option Ops → Option ℕ → Option ℕ
close_ctx none ctx = ctx
close_ctx (some ops) ctx = if ops.has_close then none else ctx

-- The end of a thread: the slot is free, and keeps what else stood in it.
unfoldable pub end_thread : Device → Device
end_thread d = record d { ctx = close_ctx d.ops d.ctx; in_use = false; stop = false }

unfoldable pub stepped : Devices → Device → Ops → ℕ × Bool → Devices × Device
stepped g d ops (ctx, true) = (g, note_error (record d { ctx = some ctx; online = false }) ops ctx)
stepped g d ops (ctx, false) = refresh_reading g (record d { ctx = some ctx })

unfoldable pub step_with : Devices → Device → Ops → ℕ → Option (ℕ → ℕ × Bool) → Devices × Device
step_with g d ops ctx none = (g, d)
step_with g d ops ctx (some f) = stepped g d ops (f ctx)

unfoldable pub step_ops : Devices → Device → Option Ops → Option ℕ → Devices × Device
step_ops g d none ctx = (g, d)
step_ops g d (some ops) none = (g, d)
step_ops g d (some ops) (some ctx) = step_with g d ops ctx ops.step_fn

-- `device_pt` from one wait for a tick to the next, or to its end. `quit` is `*g_quit`.
unfoldable pub device_pt : Bool → Devices → Device → Devices × Device
device_pt quit g d =
    if quit || not d.in_use || d.stop then (g, end_thread d) else step_ops g d d.ops d.ctx

-- A tick resumes the thread of every slot that has one.
unfoldable pub tick_slot : Bool → Devices → ℕ → Devices
tick_slot quit g i =
    let (h, d) = device_pt quit g (slot g i) in if (slot g i).in_use then put_slot h i d else g

unfoldable pub tick_from : Bool → Devices → ℕ → ℕ → Devices
tick_from quit g i zero = g
tick_from quit g i (suc n) = tick_from quit (tick_slot quit g i) (i + 1) n

-- Without threads nothing runs.
unfoldable pub tick : Bool → Devices → Devices
tick quit g = if g.threads then tick_from quit g 0 device_slots else g

-- `mf_devices_request_stop_all`
unfoldable pub request_stop_all : Devices → Devices
request_stop_all g = record g {
  slots = map (λ d. if d.in_use then record d { stop = true } else d) g.slots;
}
