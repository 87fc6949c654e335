-- ===== src/Device/Distinct/Putting.antt =====
-- A well-formed table after `mf_devices_put_settings` of src/device/device.c, refused or not.
use moon_flare.Prelude.Int.{ℤ, pos, less}
use moon_flare.Prelude.{
  ℕ, false, ◌&&◌, ◌||◌, not, ◌≡◌, ◌∙◌, Option, none, some, Bytes, length, leb, if_elim, arith,
  take_all, ◌≢◌, List,
}
use moon_flare.Device.Spec.{is_empty, fit}
use moon_flare.Device.Plugin.{Ops, Value, Patch, Code, Capture, capture_spec}
use moon_flare.Device.Table.{Devices, Device, slot, put_slot, name_size, name_taken, find_live}
use moon_flare.Device.Table.Keeps.{Keeps-refl, history_register-Same, history_retention-Same}
use moon_flare.Device.Add.{poll_interval_min}
use moon_flare.Device.Settings.{
  Stage, then_stage, active_ok, check_active, rename, put_name, number_of, put_poll, is_zero,
  put_capture_in, put_capture, is_whole, retain, put_retention_in, put_retention, put_active,
  put_object, put_generic, has_other, put_with, put_ops, put_plugin, put_at, put_settings,
}
use moon_flare.Device.Distinct.{
  Apart, Paced, at, WellFormed, set-WellFormed, keep-WellFormed, name_taken-false,
}
use moon_flare.Device.Distinct.Adding.{live-in_use}
use moon_flare.Device.Distinct.Running.{put_called-WellFormed}

abbrev GoodStage : Stage → Type 0
GoodStage (Stage.go g) = WellFormed g.slots
GoodStage (Stage.refuse g) = WellFormed g.slots

then_stage-Good :
    (s : Stage) (f : Devices → Stage)
    → GoodStage s
    → ((g : Devices) → WellFormed g.slots → GoodStage (f g))
    → GoodStage (then_stage s f)
unfolding then_stage
then_stage-Good (Stage.go g) f w h = h g w
then_stage-Good (Stage.refuse g) f w h = w

check_active-Good :
    (v : Option Value) (g : Devices) → WellFormed g.slots → GoodStage (check_active v g)
unfolding check_active
check_active-Good v g w = if_elim GoodStage (active_ok v) _ _ (λ e. w) (λ e. w)

-- A name that no other slot has.
renamed-Apart :
    (ds : List Device) (i : ℕ) (s : Bytes) (a : Device)
    → WellFormed ds
    → leb name_size (length s) ≡ false
    → name_taken ds 0 s i ≡ false
    → (j : ℕ) → j ≢ i
    → Apart (at ds j) (record (at ds i) { name = fit name_size s })
unfolding Apart
renamed-Apart ds i s a w short free j ne =
    let (u, n) = w.apart j i ne in
    let e : fit name_size s ≡ s = take_all 31 s (ground arith) in
    (
      u,
      λ x y z.
          name_taken-false ds 0 s i j free (λ q. ne (omega (arith, q))) (live-in_use (at ds j) x)
            (z ∙ e),
    )

renamed-Paced : (d : Device) (s : Bytes) → Paced d → Paced (record d { name = s })
unfolding Paced
renamed-Paced d s p = p

rename-Good :
    (i : ℕ) (g : Devices) (s : Bytes)
    → WellFormed g.slots
    → leb name_size (length s) ≡ false
    → name_taken g.slots 0 s i ≡ false
    → GoodStage (Stage.go (rename i g (record (slot g i) { name = fit name_size s })))
unfolding rename
rename-Good i g s w short free =
    let d = record (slot g i) { name = fit name_size s } in
    rw (history_register-Same (put_slot g i d) d).0 (
      set-WellFormed g.slots i d w (renamed-Apart g.slots i s d w short free)
        (renamed-Paced (slot g i) (fit name_size s) (w.paced i)))

put_name-Good :
    (i : ℕ) (v : Option Value) (g : Devices) → WellFormed g.slots → GoodStage (put_name i v g)
unfolding put_name
put_name-Good i none g w = w
put_name-Good i (some (Value.boolean b)) g w = w
put_name-Good i (some (Value.number n)) g w = w
put_name-Good i (some Value.other_value) g w = w
put_name-Good i (some (Value.string s n)) g w =
    if_elim GoodStage (is_empty s) _ _ (λ e. w)
      (λ e.
        if_elim GoodStage (leb name_size (length s)) _ _ (λ a. w)
          (λ a.
            if_elim GoodStage (name_taken g.slots 0 s i) _ _ (λ b. w)
              (λ b. rename-Good i g s w a b)))

respeeded-Apart : (a d : Device) (v : ℤ) → Apart a d → Apart a (record d { poll_interval = v })
unfolding Apart
respeeded-Apart a d v h = h

respeeded-Paced :
    (d : Device) (v : ℤ)
    → less v (poll_interval_min d.driver) ≡ false
    → Paced (record d { poll_interval = v })
unfolding Paced
respeeded-Paced d v h i = h

put_poll-Good :
    (i : ℕ) (v : Option ℤ) (g : Devices) → WellFormed g.slots → GoodStage (put_poll i v g)
unfolding put_poll
put_poll-Good i none g w = w
put_poll-Good i (some v) g w =
    if_elim GoodStage (less v (poll_interval_min (slot g i).driver)) _ _ (λ e. w)
      (λ e.
        set-WellFormed g.slots i _ w
          (λ j ne. respeeded-Apart (at g.slots j) (slot g i) v (w.apart j i ne))
          (respeeded-Paced (slot g i) v e))

put_capture_in-Good :
    (i : ℕ) (c : Option Capture) (v : ℤ) (g : Devices)
    → WellFormed g.slots
    → GoodStage (put_capture_in i c v g)
unfolding put_capture_in
put_capture_in-Good i none v g w = if_elim GoodStage (is_zero v) _ _ (λ e. w) (λ e. w)
put_capture_in-Good i (some c) v g w =
    if_elim GoodStage (less v (pos 0) || (less (pos 0) v && less v c.min_s)) _ _ (λ e. w)
      (λ e. keep-WellFormed g.slots i _ w (Keeps-refl (slot g i)))

put_capture-Good :
    (i : ℕ) (v : Option ℤ) (g : Devices) → WellFormed g.slots → GoodStage (put_capture i v g)
unfolding put_capture
put_capture-Good i none g w = w
put_capture-Good i (some v) g w = put_capture_in-Good i (capture_spec (slot g i).ops) v g w

retain-Good :
    (i : ℕ) (g : Devices) (v : ℤ)
    → WellFormed g.slots
    → GoodStage (Stage.go (retain i g (record (slot g i) { retention = v })))
unfolding retain
retain-Good i g v w =
    let d = record (slot g i) { retention = v } in
    rw (history_retention-Same (put_slot g i d) d).0
      (keep-WellFormed g.slots i d w (Keeps-refl (slot g i)))

put_retention_in-Good :
    (i : ℕ) (c : Option Capture) (v : ℤ) (g : Devices)
    → WellFormed g.slots
    → GoodStage (put_retention_in i c v g)
unfolding put_retention_in
put_retention_in-Good i none v g w = if_elim GoodStage (is_zero v) _ _ (λ e. w) (λ e. w)
put_retention_in-Good i (some c) v g w =
    if_elim GoodStage (less v (pos 0) || not (is_whole v)) _ _ (λ e. w) (λ e. retain-Good i g v w)

put_retention-Good :
    (i : ℕ) (v : Option ℤ) (g : Devices) → WellFormed g.slots → GoodStage (put_retention i v g)
unfolding put_retention
put_retention-Good i none g w = w
put_retention-Good i (some v) g w = put_retention_in-Good i (capture_spec (slot g i).ops) v g w

put_active-Good :
    (i : ℕ) (v : Option Value) (g : Devices) → WellFormed g.slots → GoodStage (put_active i v g)
unfolding put_active
put_active-Good i none g w = w
put_active-Good i (some (Value.boolean b)) g w =
    keep-WellFormed g.slots i _ w (Keeps-refl (slot g i))
put_active-Good i (some (Value.number n)) g w = w
put_active-Good i (some (Value.string s n)) g w = w
put_active-Good i (some Value.other_value) g w = w

put_object-Good :
    (i : ℕ) (p : Patch) (g : Devices) → WellFormed g.slots → GoodStage (put_object i p g)
unfolding put_object
put_object-Good i p g w = then_stage-Good _ _ (check_active-Good p.active g w) (λ a w.
    then_stage-Good _ _ (put_name-Good i p.name a w) (λ b w.
      then_stage-Good _ _ (put_poll-Good i (number_of p.poll_interval) b w) (λ c w.
        then_stage-Good _ _ (put_capture-Good i (number_of p.capture_interval) c w) (λ d w.
          then_stage-Good _ _ (put_retention-Good i (number_of p.retention) d w)
            (λ e w. put_active-Good i p.active e w)))))

put_generic-Good :
    (i : ℕ) (p : Option Patch) (g : Devices) → WellFormed g.slots → GoodStage (put_generic i p g)
unfolding put_generic
put_generic-Good i none g w = w
put_generic-Good i (some p) g w = put_object-Good i p g w

put_with-WellFormed :
    (i : ℕ) (p : Option Patch) (g : Devices) (ctx : ℕ) (f : Option (ℕ → Option Patch → ℕ × Code))
    → WellFormed g.slots
    → WellFormed (put_with i p g ctx f).0.slots
unfolding put_with
put_with-WellFormed i p g ctx none w = w
put_with-WellFormed i p g ctx (some f) w =
    if_elim (λ (a : Devices × ℕ). WellFormed a.0.slots) (has_other p) _ _
      (λ e. put_called-WellFormed i g (f ctx p) w) (λ e. w)

put_ops-WellFormed :
    (i : ℕ) (p : Option Patch) (g : Devices) (ops : Option Ops) (ctx : Option ℕ)
    → WellFormed g.slots
    → WellFormed (put_ops i p g ops ctx).0.slots
unfolding put_ops
put_ops-WellFormed i p g none ctx w = w
put_ops-WellFormed i p g (some ops) none w = w
put_ops-WellFormed i p g (some ops) (some ctx) w = put_with-WellFormed i p g ctx ops.put_fn w

put_plugin-WellFormed :
    (i : ℕ) (p : Option Patch) (s : Stage) → GoodStage s → WellFormed (put_plugin i p s).0.slots
unfolding put_plugin
put_plugin-WellFormed i p (Stage.refuse g) w = w
put_plugin-WellFormed i p (Stage.go g) w = put_ops-WellFormed i p g (slot g i).ops (slot g i).ctx w

put_at-WellFormed :
    (g : Devices) (p : Option Patch) (o : Option ℕ)
    → WellFormed g.slots
    → WellFormed (put_at g p o).0.slots
unfolding put_at
put_at-WellFormed g p none w = w
put_at-WellFormed g p (some i) w =
    put_plugin-WellFormed i p (put_generic i p g) (put_generic-Good i p g w)

pub put_settings-WellFormed :
    (g : Devices) (uuid : Bytes) (p : Option Patch)
    → WellFormed g.slots
    → WellFormed (put_settings g uuid p).0.slots
unfolding put_settings
put_settings-WellFormed g uuid p w = put_at-WellFormed g p (find_live g uuid) w
