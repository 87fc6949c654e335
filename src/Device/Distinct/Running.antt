-- ===== src/Device/Distinct/Running.antt =====
-- A well-formed table after a tick, an action and a deletion: `device_pt`, `mf_devices_action`,
-- `mf_devices_delete` and `mf_devices_request_stop_all` of src/device/device.c.
use moon_flare.Prelude.{
  ℕ, zero, suc, ◌+◌, arith, Bool, true, not, ◌≡◌, refl, ◌∙◌, sym, subst, Option, none, some, Bytes,
  set, if_elim, List, [], ◌∷◌, length-replicate, length-map, map, replicate,
}
use moon_flare.Device.Spec.{is_empty}
use moon_flare.Device.Plugin.{Ops, Plugin, Code}
use moon_flare.Device.Table.{
  Devices, Device, blank, is_live, slot, put_slot, device_slots, tick_slot, tick_from, tick, init,
  request_stop_all, find_live, find_slot_uuid,
}
use moon_flare.Device.Table.Keeps.{
  Copies-refl, Keeps, Keeps-refl, device_pt-Stays, refresh_reading-Stays, history_retire-Same,
}
use moon_flare.Device.Settings.{put_called, act_done, act_with, act_ops, act_at, action}
use moon_flare.Device.Apply.{stop_slot, retire_slot, delete_at, delete, pending_cancel}
use moon_flare.Device.Distinct.{
  Apart, Apart-sym, Keeps-Apart, Keeps-Paced, Paced, at, WellFormed, keep-WellFormed,
}
use moon_flare.Device.Distinct.Adding.{clear-WellFormed, Apart-blank, Paced-blank}

at-replicate : (n i : ℕ) → at (replicate n blank) i ≡ blank
at-replicate zero i = refl
at-replicate (suc n) zero = refl
at-replicate (suc n) (suc i) = at-replicate n i

-- Free slots are well formed.
pub init-WellFormed :
    (threads : Bool) (plugins : List Plugin) (history_open : Bool)
    → WellFormed (init threads plugins history_open).slots
unfolding init
init-WellFormed threads plugins history_open = record {
  len = length-replicate device_slots blank;
  apart = λ i j ne. subst (Apart _) (sym (at-replicate device_slots j)) (Apart-blank _);
  paced = λ i. subst Paced (sym (at-replicate device_slots i)) Paced-blank;
}

tick_slot-WellFormed :
    (quit : Bool) (g : Devices) (i : ℕ) → WellFormed g.slots → WellFormed (tick_slot quit g i).slots
unfolding tick_slot
tick_slot-WellFormed quit g i w =
    let (s, k) = device_pt-Stays quit g (slot g i) in
    if_elim (λ (h : Devices). WellFormed h.slots) (slot g i).in_use _ _
      (λ u. rw s.0 (keep-WellFormed g.slots i _ w k)) (λ u. w)

tick_from-WellFormed :
    (quit : Bool) (g : Devices) (i n : ℕ)
    → WellFormed g.slots
    → WellFormed (tick_from quit g i n).slots
unfolding tick_from
tick_from-WellFormed quit g i zero w = w
tick_from-WellFormed quit g i (suc n) w =
    tick_from-WellFormed quit (tick_slot quit g i) (i + 1) n (tick_slot-WellFormed quit g i w)

pub tick-WellFormed :
    (quit : Bool) (g : Devices) → WellFormed g.slots → WellFormed (tick quit g).slots
unfolding tick
tick-WellFormed quit g w =
    if_elim (λ (h : Devices). WellFormed h.slots) g.threads (tick_from quit g 0 device_slots) g
      (λ e. tick_from-WellFormed quit g 0 device_slots w) (λ e. w)

-- The calls of a plugin keep the slot.
pub put_called-WellFormed :
    (i : ℕ) (g : Devices) (r : ℕ × Code)
    → WellFormed g.slots
    → WellFormed (put_called i g r).0.slots
put_called-WellFormed i g (ctx, c) w = keep-WellFormed g.slots i _ w (Keeps-refl (slot g i))

act_done-WellFormed :
    (i : ℕ) (g : Devices) (r : ℕ × Code) → WellFormed g.slots → WellFormed (act_done i g r).0.slots
unfolding act_done
act_done-WellFormed i g (ctx, Code.ok) w =
    let (s, k) = refresh_reading-Stays g (record (slot g i) { ctx = some ctx }) in
    rw s.0 (keep-WellFormed g.slots i _ w k)
act_done-WellFormed i g (ctx, Code.inval) w = put_called-WellFormed i g (ctx, Code.inval) w
act_done-WellFormed i g (ctx, Code.offline) w = put_called-WellFormed i g (ctx, Code.offline) w
act_done-WellFormed i g (ctx, Code.unsupported) w =
    put_called-WellFormed i g (ctx, Code.unsupported) w
act_done-WellFormed i g (ctx, Code.busy) w = put_called-WellFormed i g (ctx, Code.busy) w
act_done-WellFormed i g (ctx, Code.other) w = put_called-WellFormed i g (ctx, Code.other) w

act_with-WellFormed :
    (i : ℕ) (g : Devices) (name json : Bytes) (ctx : ℕ) (f : Option (ℕ → Bytes → Bytes → ℕ × Code))
    → WellFormed g.slots
    → WellFormed (act_with i g name json ctx f).0.slots
unfolding act_with
act_with-WellFormed i g name json ctx none w = w
act_with-WellFormed i g name json ctx (some f) w = act_done-WellFormed i g (f ctx name json) w

act_ops-WellFormed :
    (i : ℕ) (g : Devices) (name json : Bytes) (ops : Option Ops) (ctx : Option ℕ)
    → WellFormed g.slots
    → WellFormed (act_ops i g name json ops ctx).0.slots
unfolding act_ops
act_ops-WellFormed i g name json none ctx w = w
act_ops-WellFormed i g name json (some ops) none w = w
act_ops-WellFormed i g name json (some ops) (some ctx) w =
    act_with-WellFormed i g name json ctx ops.action_fn w

act_at-WellFormed :
    (g : Devices) (name json : Bytes) (o : Option ℕ)
    → WellFormed g.slots
    → WellFormed (act_at g name json o).0.slots
unfolding act_at
act_at-WellFormed g name json none w = w
act_at-WellFormed g name json (some i) w =
    if_elim (λ (a : Devices × ℕ). WellFormed a.0.slots) (is_empty name) _ _ (λ e. w)
      (λ e. act_ops-WellFormed i g name json (slot g i).ops (slot g i).ctx w)

pub action-WellFormed :
    (g : Devices) (uuid name json : Bytes)
    → WellFormed g.slots
    → WellFormed (action g uuid name json).0.slots
unfolding action
action-WellFormed g uuid name json w = act_at-WellFormed g name json (find_live g uuid) w

-- A slot that stops.
stop_live : (d : Device) → is_live (record d { stop = true }) ≡ true → is_live d ≡ true
stop_live d h = ground arith

pub stop_slot-WellFormed :
    (threads : Bool) (ds : List Device) (i : ℕ)
    → WellFormed ds
    → WellFormed (set ds i (stop_slot threads (at ds i)))
unfolding stop_slot
stop_slot-WellFormed threads ds i w =
    if_elim (λ (d : Device). WellFormed (set ds i d)) (not (at ds i).in_use) _ _
      (λ e. keep-WellFormed ds i _ w (Keeps-refl (at ds i)))
      (λ e.
        if_elim (λ (d : Device). WellFormed (set ds i d)) threads _ _
          (λ t. keep-WellFormed ds i _ w (λ h. h, (stop_live (at ds i), Copies-refl (at ds i))))
          (λ t. clear-WellFormed ds i w))

pub retire_slot-WellFormed :
    (g : Devices) (i : ℕ) → WellFormed g.slots → WellFormed (retire_slot g i (slot g i)).slots
unfolding retire_slot
retire_slot-WellFormed g i w =
    if_elim (λ (h : Devices). WellFormed (put_slot h i (stop_slot h.threads (slot g i))).slots)
      (not (slot g i).stop) _ _
      (λ e. rw (history_retire-Same g (slot g i)).0 (stop_slot-WellFormed _ g.slots i w))
      (λ e. stop_slot-WellFormed _ g.slots i w)

pub pending_cancel-slots : (g : Devices) (uuid : Bytes) → (pending_cancel g uuid).slots ≡ g.slots
unfolding pending_cancel
pending_cancel-slots g uuid =
    if_elim (λ (h : Devices). h.slots ≡ g.slots) (is_empty uuid) _ _ (λ e. refl) (λ e. refl)

delete_at-WellFormed :
    (g : Devices) (o : Option ℕ) → WellFormed g.slots → WellFormed (delete_at g o).0.slots
unfolding delete_at
delete_at-WellFormed g none w = w
delete_at-WellFormed g (some i) w = retire_slot-WellFormed g i w

pub delete-WellFormed :
    (g : Devices) (uuid : Bytes) → WellFormed g.slots → WellFormed (delete g uuid).0.slots
unfolding delete
delete-WellFormed g uuid w =
    if_elim (λ (a : Devices × ℕ). WellFormed a.0.slots) (is_empty uuid) _ _ (λ e. w)
      (λ e.
        let h = pending_cancel g uuid in
        delete_at-WellFormed h (find_slot_uuid h uuid)
          (subst WellFormed (sym (pending_cancel-slots g uuid)) w))

at-map :
    (f : Device → Device) (ds : List Device) (i : ℕ)
    → f blank ≡ blank
    → at (map f ds) i ≡ f (at ds i)
at-map f [] i e = sym e
at-map f (d ∷ ds) zero e = refl
at-map f (d ∷ ds) (suc i) e = at-map f ds i e

map-WellFormed :
    (f : Device → Device) (ds : List Device)
    → f blank ≡ blank
    → ((d : Device) → Keeps d (f d))
    → WellFormed ds
    → WellFormed (map f ds)
map-WellFormed f ds e k w = record {
  len = length-map ds f ∙ w.len;
  apart = λ i j ne.
      rw (at-map f ds i e, at-map f ds j e)
        (Keeps-Apart _ _ _ (k (at ds j))
          (Apart-sym _ _ (Keeps-Apart _ _ _ (k (at ds i)) (Apart-sym _ _ (w.apart i j ne)))));
  paced = λ i. rw (at-map f ds i e) (Keeps-Paced _ _ (k (at ds i)) (w.paced i));
}

pub stop_all-WellFormed : (g : Devices) → WellFormed g.slots → WellFormed (request_stop_all g).slots
unfolding request_stop_all
stop_all-WellFormed g w =
    map-WellFormed _ g.slots refl
      (λ d.
        if_elim (Keeps d) d.in_use _ _ (λ e. (λ h. h, (stop_live d, Copies-refl d)))
          (λ e. Keeps-refl d))
      w
