-- ===== src/Device/Distinct/Follows.antt =====
-- What a round of the loop over the slots does in `mf_devices_apply_config` of
-- src/device/device.c.
use moon_flare.Prelude.Int.{pos, less}
use moon_flare.Prelude.{
  ℕ, Bool, true, false, not, ◌≡◌, refl, sym, ◌∙◌, ap, Option, none, some, List, set, if_elim, arith,
}
use moon_flare.Device.Spec.{DeviceConfig, fit}
use moon_flare.Device.Table.{
  Devices, Device, blank, is_live, slot, put_slot, name_size, history_retire, history_register,
}
use moon_flare.Device.Table.Keeps.{
  history_register-Same, history_retention-Same, history_retire-Same,
}
use moon_flare.Device.Add.{poll_interval_min}
use moon_flare.Device.Apply.{
  stop_slot, retire_slot, pending_queue, pending_cancel, find_want, patched, patch_slot,
  identity_changed, apply_want, apply_slot, queue_at, queue_place,
}
use moon_flare.Device.Distinct.{Paced}
use moon_flare.Device.Distinct.Adding.{clamp_poll_lem}
use moon_flare.Device.Distinct.Running.{pending_cancel-slots}
use moon_flare.Device.Distinct.Rounds.{Writes, set_self}

-- What the loop leaves of a slot: no new uuid, and what is live has the name of its entry.
pub record Follows (devs : List DeviceConfig) (d e : Device) : Type 0 where
  pub in_use : e.in_use ≡ true → d.in_use ≡ true
  pub uuid : e.in_use ≡ true → e.uuid ≡ d.uuid
  pub want :
      is_live e ≡ true
      → (w : DeviceConfig) × (find_want devs d.uuid ≡ some w)
        × (w.enabled ≡ true)
        × (e.name ≡ fit name_size w.name)
        × (identity_changed e w ≡ false)
  pub paced : Paced d → Paced e

pub free-Follows : (devs : List DeviceConfig) (d e : Device) → e.in_use ≡ false → Follows devs d e
unfolding Paced
free-Follows devs d e h = record {
  in_use = λ i. ground arith;
  uuid = λ i. ground arith;
  want = λ i. ground arith;
  paced = λ p i. ground arith;
}

stop_slot-Follows :
    (devs : List DeviceConfig) (threads : Bool) (d : Device)
    → d.in_use ≡ true
    → Follows devs d (stop_slot threads d)
unfolding stop_slot Paced
stop_slot-Follows devs threads d u =
    if_elim (Follows devs d) (not d.in_use) _ _ (λ e. free-Follows devs d d (ground arith))
      (λ e.
        if_elim (Follows devs d) threads _ _
          (λ t. record {
            in_use = λ i. i;
            uuid = λ i. refl;
            want = λ i. ground arith;
            paced = λ p. p;
          })
          (λ t. free-Follows devs d blank refl))

patched-Follows :
    (devs : List DeviceConfig) (d : Device) (w : DeviceConfig)
    → find_want devs d.uuid ≡ some w
    → w.enabled ≡ true
    → identity_changed d w ≡ false
    → Follows devs d (patched d w)
unfolding patched Paced identity_changed
patched-Follows devs d w f e c = record {
  in_use = λ i. i;
  uuid = λ i. refl;
  want = λ i. (w, f, e, refl, c);
  paced = λ p i.
      if_elim (λ v. less v (poll_interval_min d.driver) ≡ false) (less (pos 0) w.poll_interval) _ _
        (λ h. clamp_poll_lem d.driver w.poll_interval) (λ h. p i);
}

retire_slot-Writes :
    (devs : List DeviceConfig) (g k : Devices) (i : ℕ)
    → k.slots ≡ g.slots
    → (slot g i).in_use ≡ true
    → Writes (Follows devs) g i (retire_slot k i (slot g i))
unfolding retire_slot
retire_slot-Writes devs g k i s u =
    let d = slot g i in
    if_elim (λ (h : Devices). Writes (Follows devs) g i (put_slot h i (stop_slot h.threads d)))
      (not d.stop) _ _
      (λ e. (
        stop_slot (history_retire k d).threads d,
        ap (λ ds. set ds i (stop_slot (history_retire k d).threads d))
            ((history_retire-Same k d).0 ∙ s),
        stop_slot-Follows devs (history_retire k d).threads d u,
      ))
      (λ e. (
        stop_slot k.threads d,
        ap (λ ds. set ds i (stop_slot k.threads d)) s,
        stop_slot-Follows devs k.threads d u,
      ))

pub pending_queue-slots : (g : Devices) (d : DeviceConfig) → (pending_queue g d).slots ≡ g.slots
unfolding pending_queue
pending_queue-slots g d = queued (queue_place g.pending 0 d.uuid none)
  where
    queued : (o : Option ℕ) → (queue_at g d o).slots ≡ g.slots
    queued none = refl
    queued (some i) = refl

patch_slot-slots : (g : Devices) (i : ℕ) (d : Device) → (patch_slot g i d).slots ≡ set g.slots i d
unfolding patch_slot
patch_slot-slots g i d =
    let h = put_slot g i d in
    (history_retention-Same (history_register h d) d).0 ∙ (history_register-Same h d).0

apply_want-Writes :
    (devs : List DeviceConfig) (g : Devices) (i : ℕ) (o : Option DeviceConfig)
    → (slot g i).in_use ≡ true
    → find_want devs (slot g i).uuid ≡ o
    → Writes (Follows devs) g i (apply_want g i (slot g i) o)
unfolding apply_want
apply_want-Writes devs g i none u f =
    retire_slot-Writes devs g _ i (pending_cancel-slots g (slot g i).uuid) u
apply_want-Writes devs g i (some w) u f =
    let d = slot g i in
    if_elim (Writes (Follows devs) g i) (not w.enabled) _ _
      (λ e. retire_slot-Writes devs g (pending_cancel g d.uuid) i (pending_cancel-slots g d.uuid) u)
      (λ e.
        if_elim (Writes (Follows devs) g i) (identity_changed d w) _ _
          (λ c. (
            stop_slot g.threads d,
            ap (λ ds. set ds i (stop_slot g.threads d)) (pending_queue-slots g w),
            stop_slot-Follows devs g.threads d u,
          ))
          (λ c. (
            patched d w,
            patch_slot-slots g i (patched d w),
            patched-Follows devs d w f (ground arith) c,
          )))

pub apply_slot-Writes :
    (devs : List DeviceConfig) (g : Devices) (i : ℕ)
    → Writes (Follows devs) g i (apply_slot devs g i)
unfolding apply_slot
apply_slot-Writes devs g i =
    let d = slot g i in
    if_elim (Writes (Follows devs) g i) (not d.in_use) _ _
      (λ e. (d, sym (set_self g.slots i), free-Follows devs d d (ground arith)))
      (λ e. apply_want-Writes devs g i (find_want devs d.uuid) (ground arith) refl)
