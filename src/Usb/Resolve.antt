-- ===== src/Usb/Resolve.antt =====
-- `mf_usb_find_by_serial` and `mf_usb_resolve` of src/usb/usb_id.c: which port a device is on.
pub mod Policy
use moon_flare.Usb.Ring.{Event, Ring, enqueue}
use moon_flare.Usb.Identity.{
  Files, UsbId, path_size, serial_size, byid_size, fit, is_empty, join_root, by_id_dir, target,
  make_dev_path, identify,
}
use moon_flare.Prelude.{
  ℕ, zero, suc, ◌+◌, List, [], ◌∷◌, ◌++◌, Bool, true, false, ◌&&◌, ◌||◌, not, Option, none, some,
  length, Bytes, same_bytes, leb, ◌==◌, if◌then◌else◌,
}

-- `mf_usb_want_t`
pub record Want : Type 0 where
  pub path : Bytes
  pub serial_id : Bytes
  pub by_id : Bytes
  pub auto_port : Bool
  pub path_ok : Bool

-- What `mf_usb_find_by_serial` returns: 0, -1 or -2.
pub data Found : Type 0 where
  unique : UsbId → Found
  missing ambiguous : Found

-- The port that an entry points to, if it has the serial number.
unfoldable pub hit : Files → Bytes → Bytes → Bytes → Option UsbId
hit fs dir serial name = elim (target fs dir name) [
  | none ↦ none
  | some base ↦ elim (identify fs (some (make_dev_path path_size base))) [
    | none ↦ none
    | some id ↦ if same_bytes id.serial_id serial then some id else none
  ]
]

-- `hits` with `nhit`, and the hit that `hinted` is the place of.
pub record Hits : Type 0 where
  pub hits : List UsbId
  pub hinted : Option UsbId

unfoldable pub add_hit : Bytes → Hits → Option UsbId → Hits
add_hit hint h none = h
add_hit hint h (some id) = record {
  hits = h.hits ++ (id ∷ []);
  hinted = if not (is_empty hint) && same_bytes id.by_id hint then some id else h.hinted;
}

-- The loop, which ends after eight hits.
unfoldable pub search_names : Files → Bytes → Bytes → Bytes → Hits → List Bytes → Hits
search_names fs dir serial hint h [] = h
search_names fs dir serial hint h (name ∷ names) =
    let rest = search_names fs dir serial hint (add_hit hint h (hit fs dir serial name)) names in
    if leb 8 (length h.hits) then h else rest

unfoldable pub choose : List UsbId → Option UsbId → Found
choose [] hinted = missing
choose (id ∷ []) hinted = unique id
choose (id ∷ other ∷ ids) none = ambiguous
choose (id ∷ other ∷ ids) (some h) = unique h

abbrev pub no_hits : Hits
no_hits = record { hits = []; hinted = none }

-- `mf_usb_find_by_serial`, with an empty list of bytes for no hint.
unfoldable pub find_by_serial : Files → Bytes → Bytes → Found
find_by_serial fs serial hint =
    let dir = join_root fs 512 by_id_dir in
    if is_empty serial then missing else (elim (fs.names_in dir) [
      | none ↦ missing
      | some names ↦ let h = search_names fs dir serial hint no_hits names in choose h.hits h.hinted
    ])

-- `serial_matches`
unfoldable pub serial_matches : UsbId → Want → Bool
serial_matches id want =
    (not (is_empty want.serial_id)
      && not (is_empty id.serial_id)
      && same_bytes want.serial_id id.serial_id)
    || (not (is_empty want.by_id) && not (is_empty id.by_id) && same_bytes want.by_id id.by_id)

-- `publish`
unfoldable pub publish : Ring → Bytes → UsbId → Ring
publish ring uuid id =
    if is_empty uuid
    then ring
    else (enqueue ring (record {
      uuid = fit 40 uuid;
      path = fit path_size id.path;
      serial_id = fit serial_size id.serial_id;
      by_id = fit byid_size id.by_id;
    })).1

-- MF_USB_USE, MF_USB_LEARN, MF_USB_RELOCATE and MF_USB_ERROR.
pub data Decision : Type 0 where
  use_path learn relocate fail : Decision

-- What `mf_usb_resolve` returns, what it writes to `*got`, and the ring after it.
pub record Resolved : Type 0 where
  pub decision : Decision
  pub got : UsbId
  pub ring : Ring

abbrev pub no_id : UsbId
no_id = record { path = []; serial_id = []; by_id = []; vid_pid = [] }

-- No path, or none that is the device: its serial number is looked for.
unfoldable pub relocated : Ring → Bytes → Want → Found → Resolved
relocated ring uuid want missing = record { decision = fail; got = no_id; ring = ring }
relocated ring uuid want ambiguous = record { decision = fail; got = no_id; ring = ring }
relocated ring uuid want (unique id) =
    if not (is_empty want.path) && same_bytes id.path want.path
    then record { decision = use_path; got = id; ring = ring }
    else record { decision = relocate; got = id; ring = publish ring uuid id }

unfoldable pub look_for : Files → Ring → Bytes → Want → Resolved
look_for fs ring uuid want =
    if not want.auto_port || is_empty want.serial_id
    then record { decision = fail; got = no_id; ring = ring }
    else relocated ring uuid want (find_by_serial fs want.serial_id want.by_id)

-- The first run on a path: its identity is learned.
unfoldable pub first_run : Ring → Bytes → Want → Option UsbId → Resolved
first_run ring uuid want none = record {
  decision = use_path;
  got = record no_id { path = fit path_size want.path };
  ring = ring;
}
first_run ring uuid want (some id) =
    let got = record id { path = fit path_size want.path } in
    record { decision = learn; got = got; ring = publish ring uuid got }

unfoldable pub known_path : Files → Ring → Bytes → Want → Option UsbId → Resolved
known_path fs ring uuid want none = look_for fs ring uuid want
known_path fs ring uuid want (some id) =
    if serial_matches id want
    then record {
      decision = use_path;
      got = record id { path = fit path_size want.path };
      ring = ring;
    }
    else look_for fs ring uuid want

-- `mf_usb_resolve`, on the ring that `publish` puts its events in.
unfoldable pub resolve : Files → Ring → Bytes → Want → Resolved
resolve fs ring uuid want =
    let id = identify fs (some want.path) in
    if not (is_empty want.path) && want.path_ok
    then (if is_empty want.serial_id && is_empty want.by_id
        then first_run ring uuid want id
        else known_path fs ring uuid want id)
    else look_for fs ring uuid want
