-- ===== src/Phantom/Settings.antt =====
-- `parse_shadows`, `ph_open` and `ph_put_settings` of src/phantom/phantom.c. Times are in thousandths of a second.
pub mod Shadows
pub mod Accepted
use moon_flare.Prelude.Int.{ℤ, pos, less}
use moon_flare.Prelude.{
  ℕ, ◌+◌, ◌-◌, List, [], ◌∷◌, ◌++◌, Bool, true, false, ◌&&◌, ◌||◌, not, Option, none, some, length,
  take, Bytes, ltb, leb, ◌==◌, same_bytes, if◌then◌else◌,
}
use moon_flare.Device.Spec.{fit, text, is_empty}
use moon_flare.Device.Plugin.{Code}
use moon_flare.Device.Table.{Devices, Device, slot, find_live, uuid_size}
use moon_flare.Device.Add.{kind_size}

-- `ph_ctx_t`, without the last average.
pub record Phantom : Type 0 where
  pub uuid : Bytes
  pub kind : Bytes
  pub shadows : List Bytes
  pub poll : ℤ
  pub next : ℤ

abbrev pub max_shadows : ℕ
max_shadows = 8

abbrev pub is_hex : ℕ → Bool
is_hex c = (leb b'0' c && leb c b'9') || (leb b'a' c && leb c b'f') || (leb b'A' c && leb c b'F')

abbrev pub all_hex : Bytes → Bool
all_hex [] = true
all_hex (c ∷ cs) = (is_hex c || c == b'-') && all_hex cs

-- `is_uuid`
unfoldable pub is_uuid : Bytes → Bool
is_uuid s = leb 8 (length s) && ltb (length s) uuid_size && all_hex s

abbrev pub is_separator : ℕ → Bool
is_separator c = c == b',' || c == b' '

abbrev add_token : Bytes → List Bytes → List Bytes
add_token [] ts = ts
add_token (c ∷ cs) ts = (c ∷ cs) ∷ ts

-- The tokens of `strtok_r`, with the one that has begun.
unfoldable pub tokens_from : Bytes → Bytes → List Bytes
tokens_from begun [] = add_token begun []
tokens_from begun (c ∷ cs) =
    let ended = add_token begun (tokens_from [] cs) in
    let more = tokens_from (begun ++ (c ∷ [])) cs in if is_separator c then ended else more

abbrev pub tokens : Bytes → List Bytes
tokens s = tokens_from [] s

-- What stands under "phantom.shadows"; in an array, `none` is an element that is no string.
pub data Listing : Type 0 where
  absent : Listing
  string : Bytes → Listing
  array : List (Option Bytes) → Listing
  other_listing : Listing

-- The size of `buf`
abbrev pub list_size : ℕ
list_size = 304

abbrev join_next : Bytes → Bytes → Bytes
join_next acc s =
    if ltb (length acc) (list_size - 1) then acc ++ (if is_empty acc then s else b',' ∷ s) else acc

-- The strings of an array, with commas between them. `snprintf` adds to the length what it cuts off.
unfoldable pub join : Bytes → List (Option Bytes) → Bytes
join acc [] = acc
join acc (none ∷ ss) = join acc ss
join acc (some s ∷ ss) = join (join_next acc s) ss

unfoldable pub listing_text : Listing → Option Bytes
listing_text Listing.absent = some []
listing_text (Listing.string s) = some (fit list_size s)
listing_text (Listing.array ss) = some (fit list_size (join [] ss))
listing_text Listing.other_listing = none

unfoldable pub has : List Bytes → Bytes → Bool
has [] t = false
has (x ∷ xs) t = same_bytes x t || has xs t

-- The loop over the tokens; `none` is -1.
unfoldable pub collect : List Bytes → List Bytes → Option (List Bytes)
collect out [] = some out
collect out (t ∷ ts) =
    let skipped = collect out ts in
    let more = collect (out ++ (t ∷ [])) ts in
    if not (is_uuid t)
    then none
    else if has out t
    then skipped
    else if leb max_shadows (length out)
    then none
    else more

-- `parse_shadows`
unfoldable pub parse_shadows : Listing → Option (List Bytes)
parse_shadows v = elim (listing_text v) [ none ↦ none | some s ↦ collect [] (tokens s) ]

-- What cJSON finds in the settings of a phantom.
pub record Setup : Type 0 where
  pub uuid : Option Bytes
  pub kind : Option Bytes
  pub poll_interval : Option ℤ
  pub nested : Option Listing
  pub dotted : Option Listing

abbrev pub string_or_empty : Option Bytes → Bytes
string_or_empty none = []
string_or_empty (some s) = s

abbrev pub poll_or : ℤ → Option ℤ → ℤ
poll_or d none = d
poll_or d (some v) = if less v (pos 500) then d else v

abbrev pub which_listing : Option Listing → Option Listing → Listing
which_listing (some v) dotted = v
which_listing none (some v) = v
which_listing none none = Listing.absent

unfoldable pub opened : Setup → Option (List Bytes) → Option Phantom
opened j none = none
opened j (some shadows) = some (record {
  uuid = fit uuid_size (string_or_empty j.uuid);
  kind = fit kind_size (string_or_empty j.kind);
  shadows = shadows;
  poll = poll_or (pos 2000) j.poll_interval;
  next = pos 0;
})

-- `ph_open`, of a JSON object.
unfoldable pub open_phantom : Setup → Option Phantom
open_phantom j = opened j (parse_shadows (which_listing j.nested j.dotted))

abbrev pub driver_name : Bytes
driver_name = text "phantom"

-- A live module that a phantom can shadow: no phantom, and of its kind.
unfoldable pub may_shadow : Phantom → Device → Bool
may_shadow c d = not (same_bytes d.driver driver_name) && same_bytes d.kind c.kind

abbrev pub found_real : Devices → Phantom → Option ℕ → Bool
found_real g c none = false
found_real g c (some i) = may_shadow c (slot g i)

unfoldable pub is_real : Devices → Phantom → Bytes → Bool
is_real g c uuid = not (same_bytes uuid c.uuid) && found_real g c (find_live g uuid)

unfoldable pub all_real : Devices → Phantom → List Bytes → Bool
all_real g c [] = true
all_real g c (u ∷ us) = is_real g c u && all_real g c us

unfoldable pub put_list : Devices → Phantom → Option (List Bytes) → Phantom × Code
put_list g c none = (c, Code.inval)
put_list g c (some list) =
    if all_real g c list
    then (record c { shadows = list; next = pos 0 }, Code.ok)
    else (c, Code.inval)

unfoldable pub put_shadows : Devices → Phantom → Option Listing → Phantom × Code
put_shadows g c none = (c, Code.ok)
put_shadows g c (some v) = put_list g c (parse_shadows v)

-- `ph_put_settings`: the interval and the list in a JSON object, or no object.
unfoldable pub put_phantom : Devices → Phantom → Option (Option ℤ × Option Listing) → Phantom × Code
put_phantom g c none = (c, Code.inval)
put_phantom g c (some (poll, listing)) =
    put_shadows g (record c { poll = poll_or c.poll poll }) listing
