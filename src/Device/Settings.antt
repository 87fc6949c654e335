-- ===== src/Device/Settings.antt =====
-- `mf_devices_put_settings` and `mf_devices_action` of src/device/device.c. A request is applied key
-- by key: what stands before a key that is refused stays applied.
use moon_flare.Prelude.Int.{ℤ, pos, negsuc, less}
use moon_flare.Prelude.{
  ℕ, ◌+◌, Bool, true, false, ◌&&◌, ◌||◌, not, Option, none, some, length, Bytes, leb, ◌==◌, ◌%◌,
  if◌then◌else◌,
}
use moon_flare.Device.Spec.{is_empty, fit}
use moon_flare.Device.Plugin.{Ops, Code, Value, Patch, Capture, capture_spec}
use moon_flare.Device.Table.{
  Devices, Device, slot, put_slot, find_live, name_taken, name_size, history_register,
  history_retention, refresh_reading,
}
use moon_flare.Device.Add.{poll_interval_min}

-- A status of HTTP, with the state.
abbrev pub Answer : Type 0
Answer = Devices × ℕ

-- A stage goes on or refuses with 400.
pub data Stage : Type 0 where
  go : Devices → Stage
  refuse : Devices → Stage

unfoldable pub then_stage : Stage → (Devices → Stage) → Stage
then_stage (Stage.go g) f = f g
then_stage (Stage.refuse g) f = Stage.refuse g

unfoldable pub active_ok : Option Value → Bool
active_ok none = true
active_ok (some (Value.boolean b)) = true
active_ok (some (Value.number n)) = false
active_ok (some (Value.string s n)) = false
active_ok (some Value.other_value) = false

unfoldable pub check_active : Option Value → Devices → Stage
check_active v g = if active_ok v then Stage.go g else Stage.refuse g

abbrev pub write_slot : ℕ → Devices → Device → Devices
write_slot i g d = put_slot g i d

-- `snprintf(d->name, ...)` and `history_register(d)`
unfoldable pub rename : ℕ → Devices → Device → Devices
rename i g d = history_register (put_slot g i d) d

unfoldable pub put_name : ℕ → Option Value → Devices → Stage
put_name i none g = Stage.go g
put_name i (some (Value.boolean b)) g = Stage.go g
put_name i (some (Value.number n)) g = Stage.go g
put_name i (some Value.other_value) g = Stage.go g
put_name i (some (Value.string s n)) g =
    if is_empty s
    then Stage.refuse g
    else if leb name_size (length s)
    then Stage.refuse g
    else if name_taken g.slots 0 s i
    then Stage.refuse g
    else Stage.go (rename i g (record (slot g i) { name = fit name_size s }))

-- The number in a number or a string.
unfoldable pub number_of : Option Value → Option ℤ
number_of none = none
number_of (some (Value.boolean b)) = none
number_of (some Value.other_value) = none
number_of (some (Value.number n)) = some n
number_of (some (Value.string s n)) = some n

unfoldable pub put_poll : ℕ → Option ℤ → Devices → Stage
put_poll i none g = Stage.go g
put_poll i (some v) g =
    if less v (poll_interval_min (slot g i).driver)
    then Stage.refuse g
    else Stage.go (put_slot g i (record (slot g i) { poll_interval = v }))

abbrev pub is_zero : ℤ → Bool
is_zero (pos n) = n == 0
is_zero (negsuc n) = false

unfoldable pub put_capture_in : ℕ → Option Capture → ℤ → Devices → Stage
put_capture_in i none v g = if is_zero v then Stage.go g else Stage.refuse g
put_capture_in i (some c) v g =
    if less v (pos 0) || (less (pos 0) v && less v c.min_s)
    then Stage.refuse g
    else Stage.go (put_slot g i (record (slot g i) { capture_interval = v }))

unfoldable pub put_capture : ℕ → Option ℤ → Devices → Stage
put_capture i none g = Stage.go g
put_capture i (some v) g = put_capture_in i (capture_spec (slot g i).ops) v g

-- `iv == (double)(long)iv`, for a number that is not negative.
abbrev pub is_whole : ℤ → Bool
is_whole (pos n) = n % 1000 == 0
is_whole (negsuc n) = (n + 1) % 1000 == 0

unfoldable pub retain : ℕ → Devices → Device → Devices
retain i g d = history_retention (put_slot g i d) d

unfoldable pub put_retention_in : ℕ → Option Capture → ℤ → Devices → Stage
put_retention_in i none v g = if is_zero v then Stage.go g else Stage.refuse g
put_retention_in i (some c) v g =
    if less v (pos 0) || not (is_whole v)
    then Stage.refuse g
    else Stage.go (retain i g (record (slot g i) { retention = v }))

unfoldable pub put_retention : ℕ → Option ℤ → Devices → Stage
put_retention i none g = Stage.go g
put_retention i (some v) g = put_retention_in i (capture_spec (slot g i).ops) v g

unfoldable pub put_active : ℕ → Option Value → Devices → Stage
put_active i none g = Stage.go g
put_active i (some (Value.boolean b)) g = Stage.go (put_slot g i (record (slot g i) { active = b }))
put_active i (some (Value.number n)) g = Stage.go g
put_active i (some (Value.string s n)) g = Stage.go g
put_active i (some Value.other_value) g = Stage.go g

-- The stages of an object, in the code's order.
unfoldable pub put_object : ℕ → Patch → Devices → Stage
put_object i p g = then_stage (check_active p.active g) (λ a. then_stage (put_name i p.name a) (λ b.
    then_stage (put_poll i (number_of p.poll_interval) b) (λ c.
      then_stage (put_capture i (number_of p.capture_interval) c) (λ d.
        then_stage (put_retention i (number_of p.retention) d) (λ e. put_active i p.active e)))))

-- `none` is JSON that is not an object.
unfoldable pub put_generic : ℕ → Option Patch → Devices → Stage
put_generic i none g = Stage.go g
put_generic i (some p) g = put_object i p g

unfoldable pub status_of : Code → ℕ
status_of Code.ok = 200
status_of Code.inval = 400
status_of Code.offline = 409
status_of Code.unsupported = 400
status_of Code.busy = 409
status_of Code.other = 400

unfoldable pub has_other : Option Patch → Bool
has_other none = false
has_other (some p) = p.have_other

abbrev pub put_called : ℕ → Devices → ℕ × Code → Answer
put_called i g (ctx, c) = (put_slot g i (record (slot g i) { ctx = some ctx }), status_of c)

unfoldable pub put_with :
    ℕ → Option Patch → Devices → ℕ → Option (ℕ → Option Patch → ℕ × Code) → Answer
put_with i p g ctx none = (g, 200)
put_with i p g ctx (some f) = if has_other p then put_called i g (f ctx p) else (g, 200)

unfoldable pub put_ops : ℕ → Option Patch → Devices → Option Ops → Option ℕ → Answer
put_ops i p g none ctx = (g, 200)
put_ops i p g (some ops) none = (g, 200)
put_ops i p g (some ops) (some ctx) = put_with i p g ctx ops.put_fn

unfoldable pub put_plugin : ℕ → Option Patch → Stage → Answer
put_plugin i p (Stage.refuse g) = (g, 400)
put_plugin i p (Stage.go g) = put_ops i p g (slot g i).ops (slot g i).ctx

unfoldable pub put_at : Devices → Option Patch → Option ℕ → Answer
put_at g p none = (g, 404)
put_at g p (some i) = put_plugin i p (put_generic i p g)

-- `mf_devices_put_settings`
unfoldable pub put_settings : Devices → Bytes → Option Patch → Answer
put_settings g uuid p = put_at g p (find_live g uuid)

abbrev pub act_refreshed : ℕ → Devices × Device → Answer
act_refreshed i (g, d) = (put_slot g i d, 200)

unfoldable pub act_done : ℕ → Devices → ℕ × Code → Answer
act_done i g (ctx, Code.ok) =
    act_refreshed i (refresh_reading g (record (slot g i) { ctx = some ctx }))
act_done i g (ctx, Code.inval) = put_called i g (ctx, Code.inval)
act_done i g (ctx, Code.offline) = put_called i g (ctx, Code.offline)
act_done i g (ctx, Code.unsupported) = put_called i g (ctx, Code.unsupported)
act_done i g (ctx, Code.busy) = put_called i g (ctx, Code.busy)
act_done i g (ctx, Code.other) = put_called i g (ctx, Code.other)

unfoldable pub act_with :
    ℕ → Devices → Bytes → Bytes → ℕ → Option (ℕ → Bytes → Bytes → ℕ × Code) → Answer
act_with i g action json ctx none = (g, 400)
act_with i g action json ctx (some f) = act_done i g (f ctx action json)

unfoldable pub act_ops : ℕ → Devices → Bytes → Bytes → Option Ops → Option ℕ → Answer
act_ops i g action json none ctx = (g, 400)
act_ops i g action json (some ops) none = (g, 400)
act_ops i g action json (some ops) (some ctx) = act_with i g action json ctx ops.action_fn

unfoldable pub act_at : Devices → Bytes → Bytes → Option ℕ → Answer
act_at g action json none = (g, 404)
act_at g action json (some i) =
    if is_empty action then (g, 400) else act_ops i g action json (slot g i).ops (slot g i).ctx

-- `mf_devices_action`
unfoldable pub action : Devices → Bytes → Bytes → Bytes → Answer
action g uuid name json = act_at g name json (find_live g uuid)
