-- ===== src/Usb/Identity.antt =====
-- The identity of a USB serial port: the text functions and `mf_usb_identify` of src/usb/usb_id.c.
--
-- A string is the list of its bytes, NULL is `none`, and -1 is `none`. What the system calls answer
-- is a record of functions, as are the two parts of /dev and /sys that they show.
use moon_flare.Prelude.{
  ℕ, ◌+◌, ◌-◌, List, [], ◌∷◌, ◌++◌, Bool, false, ◌&&◌, ◌||◌, not, Option, none, some, length, take,
  Bytes, trim_end, same_bytes, leb, ◌==◌, if◌then◌else◌,
}
use Prim.Native.Char.{code}
use Prim.Native.String.{String}

-- The bytes of an ASCII literal.
abbrev pub text : String → Bytes
text String.[] = []
text (String.◌∷◌ c s) = code c ∷ text s

-- `realpath`, the line that `fgets` reads first from a file, `opendir` with `readdir`, and
-- `readlink`, with `g_root`.
pub record Files : Type 0 where
  pub root : Bytes
  pub real_path : Bytes → Option Bytes
  pub first_line : Bytes → Option Bytes
  pub names_in : Bytes → Option (List Bytes)
  pub link : Bytes → Option Bytes

-- `mf_usb_id_t`
pub record UsbId : Type 0 where
  pub path : Bytes
  pub serial_id : Bytes
  pub by_id : Bytes
  pub vid_pid : Bytes

abbrev pub path_size : ℕ
path_size = 128

abbrev pub serial_size : ℕ
serial_size = 64

abbrev pub byid_size : ℕ
byid_size = 256

-- What `snprintf` keeps in `cap` bytes.
unfoldable pub fit : ℕ → Bytes → Bytes
fit cap s = take (cap - 1) s

unfoldable pub join_root : Files → ℕ → Bytes → Bytes
join_root fs cap abs = fit cap (fs.root ++ abs)

unfoldable pub is_blank_or_nl : ℕ → Bool
is_blank_or_nl c = c == 10 || c == 13 || c == 32 || c == 9

-- `trim_nl`
unfoldable pub trim_nl : Bytes → Bytes
trim_nl s = trim_end is_blank_or_nl s

abbrev pub is_empty : Bytes → Bool
is_empty s = length s == 0

abbrev pub or_empty : Option Bytes → Bytes
or_empty none = []
or_empty (some s) = s

-- `read_text`: what is in the buffer after it, which is empty when it returns -1.
unfoldable pub read_text : Files → Bytes → ℕ → Bytes
read_text fs path cap = trim_nl (take (cap - 1) (or_empty (fs.first_line path)))

-- What stands behind the last byte `b`, as `strrchr` finds it.
unfoldable pub after_last : ℕ → Bytes → Option Bytes
after_last b [] = none
after_last b (c ∷ s) = elim (after_last b s) [
  | some rest ↦ some rest
  | none ↦ if c == b then some s else none
]

unfoldable pub base_name : Bytes → Bytes
base_name s = elim (after_last b'/' s) [ some rest ↦ rest | none ↦ s ]

-- `tty_basename`
unfoldable pub tty_basename : Option Bytes → Option Bytes
tty_basename none = none
tty_basename (some s) = if is_empty s then none else some (base_name s)

abbrev starts_with : ℕ → Bytes → Bool
starts_with b [] = false
starts_with b (c ∷ s) = c == b

-- `make_dev_path`
unfoldable pub make_dev_path : ℕ → Bytes → Bytes
make_dev_path cap tty =
    if starts_with b'/' tty
    then fit cap (take (cap - 1) tty)
    else fit cap (text "/dev/" ++ take (cap - 6) tty)

-- What stands before the first "-if".
unfoldable pub before_if : Bytes → Option Bytes
before_if [] = none
before_if (c ∷ s) =
    let rest = before_if s in
    if same_bytes (take 3 (c ∷ s)) (text "-if")
    then some []
    else (elim rest [ none ↦ none | some r ↦ some (c ∷ r) ])

unfoldable pub short_enough : ℕ → Option Bytes → Option Bytes
short_enough cap none = none
short_enough cap (some s) = if is_empty s || leb cap (length s) then none else some s

-- `serial_from_byid`
unfoldable pub serial_from_byid : Bytes → ℕ → Option Bytes
serial_from_byid by_id cap = elim (before_if by_id) [
  | none ↦ none
  | some s ↦ short_enough cap (after_last b'_' s)
]

-- `PATH_MAX`
abbrev pub path_max : ℕ
path_max = 4096

-- What `sysfs_identity` writes to `serial_id` and `vid_pid`.
unfoldable pub sysfs_identity : Files → Bytes → Bytes × Bytes
sysfs_identity fs tty =
    let rel = fit 64 (text "/sys/class/tty/" ++ (tty ++ text "/device")) in
    elim (fs.real_path (join_root fs path_max rel)) [
      | none ↦ ([], [])
      | some dir ↦
          let at : Bytes → Bytes = λ name. fit (path_max + 32) (dir ++ (text "/../../" ++ name)) in
          let vend = read_text fs (at (text "idVendor")) 8 in
          let prod = read_text fs (at (text "idProduct")) 8 in
          (
            read_text fs (at (text "serial")) serial_size,
            if is_empty vend || is_empty prod then [] else fit 16 (vend ++ (b':' ∷ prod)),
          )
    ]

abbrev pub by_id_dir : Bytes
by_id_dir = text "/dev/serial/by-id"

-- Where an entry of the by-id directory points, by its last part; hidden entries are passed over.
unfoldable pub target : Files → Bytes → Bytes → Option Bytes
target fs dir name =
    if starts_with b'.' name then none else (elim (fs.link (fit 768 (dir ++ (b'/' ∷ name)))) [
      | none ↦ none
      | some t ↦ some (base_name (take 511 t))
    ])

points_to : Option Bytes → Bytes → Bool
points_to none tty = false
points_to (some base) tty = same_bytes base tty

-- The loop of `byid_for_tty`: the last match stays.
unfoldable pub last_match : Files → Bytes → Bytes → Bytes → List Bytes → Bytes
unfolding points_to
last_match fs dir tty by_id [] = by_id
last_match fs dir tty by_id (name ∷ names) =
    last_match fs dir tty (if points_to (target fs dir name) tty then fit byid_size name else by_id)
      names

-- `byid_for_tty`: what is in `by_id` after it.
unfoldable pub byid_for_tty : Files → Bytes → Bytes
byid_for_tty fs tty =
    let dir = join_root fs 512 by_id_dir in
    elim (fs.names_in dir) [ none ↦ [] | some names ↦ last_match fs dir tty [] names ]

-- The serial number, from the by-id name or from the vendor and product where there is none.
unfoldable pub serial_or : Bytes → Bytes → Bytes → Bytes
serial_or serial by_id vid_pid =
    let named =
      if is_empty serial && not (is_empty by_id)
      then or_empty (serial_from_byid by_id serial_size)
      else serial in
    if is_empty named && not (is_empty vid_pid)
    then fit serial_size (text "usb-" ++ vid_pid)
    else named

unfoldable pub identity_of : Files → Bytes → Option UsbId
identity_of fs tty =
    let by_id = byid_for_tty fs tty in
    let (serial, vid_pid) = sysfs_identity fs tty in
    let id : UsbId = record {
      path = make_dev_path path_size tty;
      serial_id = serial_or serial by_id vid_pid;
      by_id = by_id;
      vid_pid = vid_pid;
    } in
    if is_empty id.serial_id && is_empty id.by_id && is_empty id.vid_pid then none else some id

-- `mf_usb_identify`
unfoldable pub identify : Files → Option Bytes → Option UsbId
identify fs dev_path = elim (tty_basename dev_path) [
  | none ↦ none
  | some tty ↦ if is_empty tty then none else identity_of fs tty
]
