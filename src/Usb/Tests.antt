-- ===== src/Usb/Tests.antt =====
-- Runs of the ring and of `mf_usb_resolve` on small inputs, and each theorem at an input.
use moon_flare.Usb.Ring.{Event, Ring, ring_cap, empty, enqueue, drain}
use moon_flare.Usb.Ring.Queue.{queue, IsRing, enqueue-queue, drain-queue}
use moon_flare.Usb.Identity.{
  Files, text, path_size, fit, join_root, after_last, base_name, tty_basename, make_dev_path,
  before_if, short_enough, serial_from_byid, sysfs_identity, target, last_match, byid_for_tty,
  serial_or, identity_of, identify,
}
use moon_flare.Usb.Resolve.{
  Want, hit, add_hit, search_names, choose, find_by_serial, use_path, learn, relocate, relocated,
  look_for, resolve,
}
use moon_flare.Usb.Resolve.Policy.{Moves, fresh, resolve-Moves, resolve-stays}
use moon_flare.Prelude.{
  ◌≡◌, ◌≢◌, ◌⊎◌, refl, [], ◌∷◌, ◌++◌, true, false, ◌&&◌, not, none, some, length, take, drop, arith,
  same_bytes, ltb, ◌==◌, if◌then◌else◌,
}

abbrev event : Event
event = record { uuid = 1 ∷ []; path = []; serial_id = []; by_id = [] }

-- A ring that wraps: three events wait from slot 15 on.
abbrev wrapped : Ring
wrapped = record empty { rhead = 15; rcnt = 3 }

wrapped-IsRing : IsRing wrapped
wrapped-IsRing = record { whole = refl; inside = omega arith; fits = omega arith }

enqueue-queue_example :
    IsRing ((enqueue wrapped event).1)
    × (queue ((enqueue wrapped event).1)
        ≡ (if (enqueue wrapped event).0 then queue wrapped ++ (event ∷ []) else queue wrapped))
    × ((enqueue wrapped event).0
        ≡ (not (length event.uuid == 0) && ltb (length (queue wrapped)) ring_cap))
enqueue-queue_example = enqueue-queue wrapped event wrapped-IsRing

drain-queue_example :
    ((drain 2 wrapped).0 ≡ take 2 (queue wrapped))
    × (queue ((drain 2 wrapped).1) ≡ drop 2 (queue wrapped))
    × IsRing ((drain 2 wrapped).1)
drain-queue_example = drain-queue 2 wrapped wrapped-IsRing

serial_from_byid-text : serial_from_byid (text "usb-CP2102_0001-if00-port0") 64 ≡ some (text "0001")
unfolding serial_from_byid before_if short_enough after_last same_bytes
serial_from_byid-text = refl

-- One adapter, which has no serial number in /sys.
abbrev one_port : Files
one_port = record {
  root = [];
  real_path = λ p. none;
  first_line = λ p. none;
  names_in = λ p. some (text "." ∷ text "usb-X_AB-if00" ∷ []);
  link = λ p. some (text "../../ttyUSB1");
}

abbrev wanted : Want
wanted = record {
  path = text "/dev/ttyUSB0";
  serial_id = text "AB";
  by_id = [];
  auto_port = true;
  path_ok = false;
}

decision-resolve : (resolve one_port empty (1 ∷ []) wanted).decision ≡ relocate
unfolding resolve look_for relocated find_by_serial search_names add_hit choose hit identify
    identity_of serial_or byid_for_tty last_match target sysfs_identity serial_from_byid
    short_enough before_if make_dev_path tty_basename base_name after_last join_root fit same_bytes
decision-resolve = refl

resolve-Moves_example :
    Moves one_port empty (1 ∷ []) wanted (resolve one_port empty (1 ∷ []) wanted)
resolve-Moves_example = resolve-Moves one_port empty (1 ∷ []) wanted decision-resolve

abbrev first : Want
first = record {
  path = text "/dev/ttyUSB1";
  serial_id = [];
  by_id = [];
  auto_port = true;
  path_ok = true;
}

path-first : first.path ≢ []
path-first e = absurd (ground arith)

resolve-stays_example :
    (((resolve one_port empty (1 ∷ []) first).decision ≡ use_path)
      ⊎ ((resolve one_port empty (1 ∷ []) first).decision ≡ learn))
    × ((resolve one_port empty (1 ∷ []) first).got.path ≡ fit path_size first.path)
resolve-stays_example =
    resolve-stays one_port empty (1 ∷ []) first path-first refl (fresh refl refl)
