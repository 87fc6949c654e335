-- ===== src/Device/Table/Keeps.antt =====
-- What a tick leaves of a slot.
use moon_flare.Prelude.{
  ℕ, ◌≡◌, refl, ◌∙◌, Bool, true, false, Option, none, some, Bytes, if_elim, ◌||◌, not,
}
use mathlib.Core.Bool.{false≢true}
use moon_flare.Prelude.Int.{pos, less}
use moon_flare.Device.Plugin.{Ops, capture_spec, Capture}
use moon_flare.Device.Table.{
  Devices, Device, HistoryCall, is_live, tell, note_said, note_with, note_error, caps_with,
  read_caps, take_reading, sample, refresh_with, refresh_fn, refresh_ops, refresh_reading,
  end_thread, stepped, step_with, step_ops, device_pt, register_with, history_register,
  history_retention, history_retire,
}

-- The second slot has what was given to the first.
abbrev pub Copies : Device → Device → Type 0
Copies d e =
    (e.name ≡ d.name)
    × (e.uuid ≡ d.uuid)
    × (e.kind ≡ d.kind)
    × (e.driver ≡ d.driver)
    × (e.bus ≡ d.bus)
    × (e.endpoint ≡ d.endpoint)
    × (e.poll_interval ≡ d.poll_interval)

pub Copies-refl : (d : Device) → Copies d d
Copies-refl d = (refl, refl, refl, refl, refl, refl, refl)

pub Copies-trans : (a b c : Device) → Copies a b → Copies b c → Copies a c
Copies-trans a b c (n, u, k, r, s, p, v) (n', u', k', r', s', p', v') =
    (n' ∙ n, u' ∙ u, k' ∙ k, r' ∙ r, s' ∙ s, p' ∙ p, v' ∙ v)

-- And it is not in use unless the first is, nor live.
abbrev pub Keeps : Device → Device → Type 0
Keeps d e =
    (e.in_use ≡ true → d.in_use ≡ true) × ((is_live e ≡ true → is_live d ≡ true) × Copies d e)

pub Keeps-refl : (d : Device) → Keeps d d
Keeps-refl d = (λ h. h, (λ h. h, Copies-refl d))

-- A change of no such field.
note_said-Keeps : (d : Device) (o : Option Bytes) → Keeps d (note_said d o)
unfolding note_said
note_said-Keeps d none = Keeps-refl d
note_said-Keeps d (some e) = (λ h. h, (λ h. h, Copies-refl d))

note_with-Keeps :
    (d : Device) (ctx : ℕ) (f : Option (ℕ → Option Bytes)) → Keeps d (note_with d ctx f)
unfolding note_with
note_with-Keeps d ctx none = Keeps-refl d
note_with-Keeps d ctx (some f) = note_said-Keeps d (f ctx)

caps_with-Keeps : (d : Device) (ctx : ℕ) (f : Option (ℕ → ℕ)) → Keeps d (caps_with d ctx f)
unfolding caps_with
caps_with-Keeps d ctx none = Keeps-refl d
caps_with-Keeps d ctx (some f) = (λ h. h, (λ h. h, Copies-refl d))

pub read_caps-Keeps : (d : Device) (ops : Ops) (ctx : ℕ) → Keeps d (read_caps d ops ctx)
unfolding read_caps
read_caps-Keeps d ops ctx = caps_with-Keeps d ctx ops.caps_fn

take_reading-Keeps :
    (d : Device) (ops : Ops) (ctx : ℕ) (o : Option Bytes) → Keeps d (take_reading d ops ctx o)
unfolding take_reading note_error read_caps
take_reading-Keeps d ops ctx none =
    note_with-Keeps (record d { online = false; ctx = some ctx }) ctx ops.error_fn
take_reading-Keeps d ops ctx (some json) = caps_with-Keeps _ ctx ops.caps_fn

-- All but the calls of the history store.
abbrev pub Same : Devices → Devices → Type 0
Same g h =
    (h.slots ≡ g.slots)
    × (h.pending ≡ g.pending)
    × (h.threads ≡ g.threads)
    × (h.plugins ≡ g.plugins)
    × (h.history_open ≡ g.history_open)

pub Same-refl : (g : Devices) → Same g g
Same-refl g = (refl, refl, refl, refl, refl)

pub Same-trans : (g h k : Devices) → Same g h → Same h k → Same g k
Same-trans g h k (a, b, c, d, e) (a', b', c', d', e') = (a' ∙ a, b' ∙ b, c' ∙ c, d' ∙ d, e' ∙ e)

pub tell-Same : (g : Devices) (c : HistoryCall) → Same g (tell g c)
tell-Same g c = if_elim (Same g) g.history_open _ _ (λ e. Same-refl g) (λ e. Same-refl g)

register_with-Same : (g : Devices) (d : Device) (o : Option Capture) → Same g (register_with g d o)
unfolding register_with
register_with-Same g d none = Same-refl g
register_with-Same g d (some c) = tell-Same g _

pub history_register-Same : (g : Devices) (d : Device) → Same g (history_register g d)
unfolding history_register
history_register-Same g d = register_with-Same g d (capture_spec d.ops)

pub history_retention-Same : (g : Devices) (d : Device) → Same g (history_retention g d)
unfolding history_retention
history_retention-Same g d = tell-Same g _

pub history_retire-Same : (g : Devices) (d : Device) → Same g (history_retire g d)
unfolding history_retire
history_retire-Same g d = tell-Same g _

sample-Same : (g : Devices) (d : Device) (o : Option Bytes) → Same g (sample g d o)
unfolding sample
sample-Same g d none = Same-refl g
sample-Same g d (some json) =
    if_elim (Same g) (less (pos 0) d.capture_interval) _ _ (λ e. tell-Same g _) (λ e. Same-refl g)

-- A step of one slot that changes no other.
abbrev pub Stays : Devices → Device → Devices × Device → Type 0
Stays g d r = Same g r.0 × Keeps d r.1

refresh_with-Stays :
    (g : Devices) (d : Device) (ops : Ops) (r : ℕ × Option Bytes)
    → Stays g d (refresh_with g d ops r)
unfolding refresh_with
refresh_with-Stays g d ops (ctx, answer) =
    (sample-Same g _ answer, take_reading-Keeps d ops ctx answer)

refresh_fn-Stays :
    (g : Devices) (d : Device) (ops : Ops) (ctx : ℕ) (f : Option (ℕ → ℕ × Option Bytes))
    → Stays g d (refresh_fn g d ops ctx f)
unfolding refresh_fn
refresh_fn-Stays g d ops ctx none = (Same-refl g, Keeps-refl d)
refresh_fn-Stays g d ops ctx (some f) = refresh_with-Stays g d ops (f ctx)

refresh_ops-Stays :
    (g : Devices) (d : Device) (ops : Option Ops) (ctx : Option ℕ)
    → Stays g d (refresh_ops g d ops ctx)
unfolding refresh_ops
refresh_ops-Stays g d none ctx = (Same-refl g, Keeps-refl d)
refresh_ops-Stays g d (some ops) none = (Same-refl g, Keeps-refl d)
refresh_ops-Stays g d (some ops) (some ctx) = refresh_fn-Stays g d ops ctx ops.reading_fn

pub refresh_reading-Stays : (g : Devices) (d : Device) → Stays g d (refresh_reading g d)
unfolding refresh_reading
refresh_reading-Stays g d = refresh_ops-Stays g d d.ops d.ctx

stepped-Stays :
    (g : Devices) (d : Device) (ops : Ops) (r : ℕ × Bool) → Stays g d (stepped g d ops r)
unfolding stepped note_error
stepped-Stays g d ops (ctx, true) = (Same-refl g, note_with-Keeps _ ctx ops.error_fn)
stepped-Stays g d ops (ctx, false) = refresh_reading-Stays g (record d { ctx = some ctx })

step_with-Stays :
    (g : Devices) (d : Device) (ops : Ops) (ctx : ℕ) (f : Option (ℕ → ℕ × Bool))
    → Stays g d (step_with g d ops ctx f)
unfolding step_with
step_with-Stays g d ops ctx none = (Same-refl g, Keeps-refl d)
step_with-Stays g d ops ctx (some f) = stepped-Stays g d ops (f ctx)

step_ops-Stays :
    (g : Devices) (d : Device) (ops : Option Ops) (ctx : Option ℕ)
    → Stays g d (step_ops g d ops ctx)
unfolding step_ops
step_ops-Stays g d none ctx = (Same-refl g, Keeps-refl d)
step_ops-Stays g d (some ops) none = (Same-refl g, Keeps-refl d)
step_ops-Stays g d (some ops) (some ctx) = step_with-Stays g d ops ctx ops.step_fn

pub device_pt-Stays : (quit : Bool) (g : Devices) (d : Device) → Stays g d (device_pt quit g d)
unfolding device_pt end_thread
device_pt-Stays quit g d =
    if_elim (Stays g d) (quit || not d.in_use || d.stop) _ _
      (λ e.
        (Same-refl g, (λ h. absurd (false≢true h), (λ h. absurd (false≢true h), Copies-refl d))))
      (λ e. step_ops-Stays g d d.ops d.ctx)
