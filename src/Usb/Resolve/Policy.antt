-- ===== src/Usb/Resolve/Policy.antt =====
-- The policy of `mf_usb_resolve`: when the port stays, and when the device is on another one.
use moon_flare.Usb.Ring.{Ring}
use moon_flare.Usb.Identity.{
  Files, UsbId, path_size, fit, is_empty, join_root, by_id_dir, target, make_dev_path, identify,
}
use moon_flare.Usb.Resolve.{
  Want, Found, unique, missing, ambiguous, hit, Hits, no_hits, add_hit, search_names, choose,
  find_by_serial, serial_matches, publish, use_path, learn, relocate, Resolved, relocated, look_for,
  first_run, known_path, resolve,
}
use moon_flare.Prelude.{
  ◌≡◌, ◌≢◌, ◌⊎◌, inl, inr, refl, subst, sym, ap, List, [], ◌∷◌, ◌++◌, Bool, true, false, ◌&&◌, ◌||◌,
  not, Option, none, some, length, Bytes, All, same_bytes, same_bytes_iff, arith, leb, if_elim,
  if◌then◌else◌,
}

-- A port that is there, and has the serial number.
pub record IsHit (fs : Files) (serial : Bytes) (id : UsbId) : Type 0 where
  pub is_there : (dev : Bytes) × (identify fs (some dev) ≡ some id)
  pub same : id.serial_id ≡ serial

module _ (fs : Files) (serial : Bytes) where
  abbrev MayHit : Option UsbId → Type 0
  MayHit none = Unit
  MayHit (some id) = IsHit fs serial id

  hit-dev :
      (dev : Bytes) (o : Option UsbId)
      → identify fs (some dev) ≡ o
      → MayHit (elim o [
        | none ↦ none
        | some id ↦ if same_bytes id.serial_id serial then some id else none
      ])
  hit-dev dev none e = tt
  hit-dev dev (some id) e =
      if_elim MayHit (same_bytes id.serial_id serial) (some id) none
        (λ h. record { is_there = (dev, e); same = (same_bytes_iff id.serial_id serial).0 h })
        (λ h. tt)

  hit-base :
      (o : Option Bytes)
      → MayHit (elim o [
        | none ↦ none
        | some base ↦ elim (identify fs (some (make_dev_path path_size base))) [
          | none ↦ none
          | some id ↦ if same_bytes id.serial_id serial then some id else none
        ]
      ])
  hit-base none = tt
  hit-base (some base) =
      hit-dev (make_dev_path path_size base) (identify fs (some (make_dev_path path_size base)))
        refl

  hit-MayHit : (dir name : Bytes) → MayHit (hit fs dir serial name)
  unfolding hit
  hit-MayHit dir name = hit-base (target fs dir name)

  abbrev AreHits : Hits → Type 0
  AreHits h = All (IsHit fs serial) h.hits × MayHit h.hinted

  All-append :
      (ids : List UsbId) (id : UsbId)
      → All (IsHit fs serial) ids
      → IsHit fs serial id
      → All (IsHit fs serial) (ids ++ (id ∷ []))
  All-append [] id h k = (k, tt)
  All-append (x ∷ ids) id (h, t) k = (h, All-append ids id t k)

  add_hit-AreHits :
      (hint : Bytes) (h : Hits) (o : Option UsbId)
      → AreHits h
      → MayHit o
      → AreHits (add_hit hint h o)
  unfolding add_hit
  add_hit-AreHits hint h none a m = a
  add_hit-AreHits hint h (some id) (a, b) m = (
    All-append h.hits id a m,
    if_elim MayHit (not (is_empty hint) && same_bytes id.by_id hint) (some id) h.hinted (λ k. m)
        (λ k. b),
  )

  search_names-AreHits :
      (dir hint : Bytes) (h : Hits) (names : List Bytes)
      → AreHits h
      → AreHits (search_names fs dir serial hint h names)
  unfolding search_names
  search_names-AreHits dir hint h [] a = a
  search_names-AreHits dir hint h (name ∷ names) a =
      if_elim AreHits (leb 8 (length h.hits)) h _ (λ k. a)
        (λ k.
          search_names-AreHits dir hint (add_hit hint h (hit fs dir serial name)) names
            (add_hit-AreHits hint h (hit fs dir serial name) a (hit-MayHit dir name)))

  abbrev FindsHit : Found → Type 0
  FindsHit (unique id) = IsHit fs serial id
  FindsHit missing = Unit
  FindsHit ambiguous = Unit

  choose-FindsHit :
      (ids : List UsbId) (hinted : Option UsbId)
      → All (IsHit fs serial) ids
      → MayHit hinted
      → FindsHit (choose ids hinted)
  unfolding choose
  choose-FindsHit [] hinted a b = tt
  choose-FindsHit (id ∷ []) hinted (a, t) b = a
  choose-FindsHit (id ∷ other ∷ ids) none a b = tt
  choose-FindsHit (id ∷ other ∷ ids) (some h) a b = b

  names-FindsHit :
      (dir hint : Bytes) (o : Option (List Bytes))
      → FindsHit (elim o [
        | none ↦ missing
        | some names ↦
            let h = search_names fs dir serial hint no_hits names in choose h.hits h.hinted
      ])
  names-FindsHit dir hint none = tt
  names-FindsHit dir hint (some names) =
      let h = search_names fs dir serial hint no_hits names in
      let (a, b) = search_names-AreHits dir hint no_hits names (tt, tt) in
      choose-FindsHit h.hits h.hinted a b

find_by_serial-FindsHit :
    (fs : Files) (serial hint : Bytes) → FindsHit fs serial (find_by_serial fs serial hint)
unfolding find_by_serial
find_by_serial-FindsHit fs serial hint =
    let dir = join_root fs 512 by_id_dir in
    if_elim (FindsHit fs serial) (is_empty serial) missing _ (λ h. tt)
      (λ h. names-FindsHit fs serial dir hint (fs.names_in dir))

-- What a call that moves the device to another port has seen.
pub record Moves (fs : Files) (ring : Ring) (uuid : Bytes) (want : Want) (r : Resolved)
    : Type 0 where
  pub allowed : want.auto_port ≡ true
  pub named : want.serial_id ≢ []
  pub found : IsHit fs want.serial_id r.got
  pub other : (want.path ≡ []) ⊎ (r.got.path ≢ want.path)
  pub told : r.ring ≡ publish ring uuid r.got

other_path : (p q : Bytes) → (not (is_empty q) && same_bytes p q) ≡ false → (q ≡ []) ⊎ (p ≢ q)
other_path p [] h = inl refl
other_path p (c ∷ q) h = inr (λ e. let k = (same_bytes_iff p (c ∷ q)).1 e in absurd (ground arith))

not_nil : (s : Bytes) → is_empty s ≡ false → s ≢ []
not_nil s h e = let k = ap is_empty e in absurd (ground arith)

module _ (fs : Files) (ring : Ring) (uuid : Bytes) (want : Want) where
  abbrev MovesIf : Resolved → Type 0
  MovesIf r = r.decision ≡ relocate → Moves fs ring uuid want r

  relocated-MovesIf :
      (found : Found)
      → want.auto_port ≡ true
      → is_empty want.serial_id ≡ false
      → FindsHit fs want.serial_id found
      → MovesIf (relocated ring uuid want found)
  unfolding relocated
  relocated-MovesIf missing a n h = λ e. absurd cc
  relocated-MovesIf ambiguous a n h = λ e. absurd cc
  relocated-MovesIf (unique id) a n h =
      if_elim MovesIf (not (is_empty want.path) && same_bytes id.path want.path) _ _
        (λ k e. absurd cc)
        (λ k e. record {
          allowed = a;
          named = not_nil want.serial_id n;
          found = h;
          other = other_path id.path want.path k;
          told = refl;
        })

  look_for-MovesIf : MovesIf (look_for fs ring uuid want)
  unfolding look_for
  look_for-MovesIf =
      if_elim MovesIf (not want.auto_port || is_empty want.serial_id) _ _ (λ k e. absurd cc)
        (λ k.
          relocated-MovesIf (find_by_serial fs want.serial_id want.by_id) (ground arith)
            (ground arith) (find_by_serial-FindsHit fs want.serial_id want.by_id))

  first_run-MovesIf : (o : Option UsbId) → MovesIf (first_run ring uuid want o)
  unfolding first_run
  first_run-MovesIf none = λ e. absurd cc
  first_run-MovesIf (some id) = λ e. absurd cc

  known_path-MovesIf : (o : Option UsbId) → MovesIf (known_path fs ring uuid want o)
  unfolding known_path
  known_path-MovesIf none = look_for-MovesIf
  known_path-MovesIf (some id) =
      if_elim MovesIf (serial_matches id want) _ _ (λ k e. absurd cc) (λ k. look_for-MovesIf)

-- `mf_usb_resolve` moves a device to another port only if that is allowed and its serial number is
-- known, and only to a port that is there with the same serial number and is not the old one, if
-- there was one. It then publishes that port, and does nothing else to the ring.
pub resolve-Moves :
    (fs : Files) (ring : Ring) (uuid : Bytes) (want : Want)
    → (resolve fs ring uuid want).decision ≡ relocate
    → Moves fs ring uuid want (resolve fs ring uuid want)
unfolding resolve
resolve-Moves fs ring uuid want =
    let id = identify fs (some want.path) in
    if_elim (MovesIf fs ring uuid want) (not (is_empty want.path) && want.path_ok) _
      (look_for fs ring uuid want)
      (λ h.
        if_elim (MovesIf fs ring uuid want) (is_empty want.serial_id && is_empty want.by_id)
          (first_run ring uuid want id) (known_path fs ring uuid want id)
          (λ k. first_run-MovesIf fs ring uuid want id)
          (λ k. known_path-MovesIf fs ring uuid want id))
      (λ h. look_for-MovesIf fs ring uuid want)

-- A port that stays: the caller's path, as it is used or learned.
abbrev Stays : Want → Resolved → Type 0
Stays want r =
    ((r.decision ≡ use_path) ⊎ (r.decision ≡ learn)) × (r.got.path ≡ fit path_size want.path)

-- The path is the device's: nothing else is known of it, or its identity matches.
pub data IsOwn (fs : Files) (want : Want) : Type 0 where
  fresh : want.serial_id ≡ [] → want.by_id ≡ [] → IsOwn fs want
  matching :
      (id : UsbId)
      → identify fs (some want.path) ≡ some id
      → serial_matches id want ≡ true
      → IsOwn fs want

first_run-Stays :
    (ring : Ring) (uuid : Bytes) (want : Want) (o : Option UsbId)
    → Stays want (first_run ring uuid want o)
unfolding first_run
first_run-Stays ring uuid want none = (inl refl, refl)
first_run-Stays ring uuid want (some id) = (inr refl, refl)

known_path-Stays :
    (fs : Files) (ring : Ring) (uuid : Bytes) (want : Want) (id : UsbId)
    → serial_matches id want ≡ true
    → Stays want (known_path fs ring uuid want (some id))
unfolding known_path
known_path-Stays fs ring uuid want id h =
    if_elim (Stays want) (serial_matches id want) _ _ (λ k. (inl refl, refl)) (λ k. absurd cc)

nil_path : (p : Bytes) (ok : Bool) → ok ≡ true → (not (is_empty p) && ok) ≡ false → p ≡ []
nil_path [] ok h k = refl
nil_path (c ∷ p) ok h k = absurd (ground arith)

both_nil : (s b : Bytes) → s ≡ [] → b ≡ [] → (is_empty s && is_empty b) ≢ false
both_nil [] [] h k e = absurd (ground arith)
both_nil [] (c ∷ b) h k e = absurd (ground arith)
both_nil (c ∷ s) b h k e = absurd (ground arith)

known_own :
    (fs : Files) (ring : Ring) (uuid : Bytes) (want : Want)
    → IsOwn fs want
    → (is_empty want.serial_id && is_empty want.by_id) ≡ false
    → Stays want (known_path fs ring uuid want (identify fs (some want.path)))
known_own fs ring uuid want (fresh s b) k = absurd (both_nil want.serial_id want.by_id s b k)
known_own fs ring uuid want (matching id e m) k =
    subst (λ o. Stays want (known_path fs ring uuid want o)) (sym e)
      (known_path-Stays fs ring uuid want id m)

-- A path that is set and works is never given up for another one, if nothing is known of the device
-- yet or the port's serial number or by-id name is the device's: `mf_usb_resolve` uses or learns it.
pub resolve-stays :
    (fs : Files) (ring : Ring) (uuid : Bytes) (want : Want)
    → want.path ≢ []
    → want.path_ok ≡ true
    → IsOwn fs want
    → (((resolve fs ring uuid want).decision ≡ use_path)
        ⊎ ((resolve fs ring uuid want).decision ≡ learn))
      × ((resolve fs ring uuid want).got.path ≡ fit path_size want.path)
unfolding resolve
resolve-stays fs ring uuid want n ok own =
    let id = identify fs (some want.path) in
    if_elim (Stays want) (not (is_empty want.path) && want.path_ok) _ (look_for fs ring uuid want)
      (λ h.
        if_elim (Stays want) (is_empty want.serial_id && is_empty want.by_id)
          (first_run ring uuid want id) (known_path fs ring uuid want id)
          (λ k. first_run-Stays ring uuid want id) (λ k. known_own fs ring uuid want own k))
      (λ h. absurd (n (nil_path want.path want.path_ok ok h)))
