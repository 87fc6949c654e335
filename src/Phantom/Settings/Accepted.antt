-- ===== src/Phantom/Settings/Accepted.antt =====
-- What `ph_put_settings` of src/phantom/phantom.c accepts.
use mathlib.Core.Bool.{false≢true}
use moon_flare.Prelude.Int.{ℤ, pos}
use moon_flare.Prelude.{
  ℕ, arith, ◌⊎◌, ◌≡◌, ◌≢◌, refl, sym, ◌∙◌, List, [], ◌∷◌, true, Option, none, some, Bytes, All,
  same_bytes_iff, if_elim, inl, inr, subst,
}
use moon_flare.Device.Plugin.{Code}
use moon_flare.Device.Table.{Devices, slot, is_live, find_live}
use moon_flare.Device.Apply.Release.{find_slot-some}
use moon_flare.Phantom.Settings.{
  Phantom, Listing, driver_name, may_shadow, found_real, is_real, all_real, put_list, put_shadows,
  put_phantom, parse_shadows, poll_or,
}
use moon_flare.Phantom.Settings.Shadows.{IsList, IfList, parse_shadows-IsList}

-- A live device with the id, which is not the phantom's, of the phantom's kind and no phantom.
abbrev pub Real : Devices → Phantom → Bytes → Type 0
Real g c uuid =
    (uuid ≢ c.uuid)
    × ((i : ℕ) × (is_live (slot g i) ≡ true)
        × ((slot g i).uuid ≡ uuid)
        × ((slot g i).kind ≡ c.kind)
        × ((slot g i).driver ≢ driver_name))

found_real-Real :
    (g : Devices) (c : Phantom) (uuid : Bytes) (o : Option ℕ)
    → uuid ≢ c.uuid
    → find_live g uuid ≡ o
    → found_real g c o ≡ true
    → Real g c uuid
unfolding may_shadow find_live
found_real-Real g c uuid none ne e h = absurd (false≢true h)
found_real-Real g c uuid (some i) ne e h =
    let (n, a, b, q) = find_slot-some is_live g.slots 0 uuid i e in
    let k : i ≡ n = omega (arith, a) in
    (
      ne,
      (
        i,
        subst (λ x. is_live (slot g x) ≡ true) (sym k) b,
        subst (λ x. (slot g x).uuid ≡ uuid) (sym k) q,
        (same_bytes_iff (slot g i).kind c.kind).0 (ground arith),
        (λ d.
            absurd (
              false≢true
                (sym (ground arith) ∙ (same_bytes_iff (slot g i).driver driver_name).1 d))),
      ),
    )

is_real-Real : (g : Devices) (c : Phantom) (uuid : Bytes) → is_real g c uuid ≡ true → Real g c uuid
unfolding is_real
is_real-Real g c uuid h =
    found_real-Real g c uuid (find_live g uuid)
      (λ e. absurd (false≢true (sym (ground arith) ∙ (same_bytes_iff uuid c.uuid).1 e))) refl
      (ground arith)

all_real-Real :
    (g : Devices) (c : Phantom) (us : List Bytes) → all_real g c us ≡ true → All (Real g c) us
unfolding all_real
all_real-Real g c [] h = tt
all_real-Real g c (u ∷ us) h =
    (is_real-Real g c u (ground arith), all_real-Real g c us (ground arith))

-- The list stays, or is a new one of real modules.
abbrev pub Puts : Devices → Phantom → Phantom × Code → Type 0
Puts g c (d, code) =
    (d.uuid ≡ c.uuid)
    × (d.kind ≡ c.kind)
    × (((code ≡ Code.inval) × (d.shadows ≡ c.shadows))
        ⊎ ((code ≡ Code.ok)
            × ((d.shadows ≡ c.shadows)
                ⊎ (IsList d.shadows × (All (Real g c) d.shadows × (d.next ≡ pos 0))))))

put_list-Puts :
    (g : Devices) (c : Phantom) (o : Option (List Bytes))
    → IfList IsList o
    → Puts g c (put_list g c o)
unfolding put_list
put_list-Puts g c none l = (refl, refl, inl (refl, refl))
put_list-Puts g c (some list) l =
    if_elim (Puts g c) (all_real g c list) _ _
      (λ e. (refl, refl, inr (refl, inr (l, (all_real-Real g c list e, refl)))))
      (λ e. (refl, refl, inl (refl, refl)))

put_shadows-Puts : (g : Devices) (c : Phantom) (o : Option Listing) → Puts g c (put_shadows g c o)
unfolding put_shadows
put_shadows-Puts g c none = (refl, refl, inr (refl, inl refl))
put_shadows-Puts g c (some v) = put_list-Puts g c (parse_shadows v) (parse_shadows-IsList v)

-- Whatever the request, the phantom keeps its own id and kind. A refused request leaves its list; an
-- accepted one leaves it too, or makes it a list of at most eight different ids, each of a live
-- device other than the phantom, of its kind and no phantom itself, to be averaged at the next tick.
pub put_phantom-Puts :
    (g : Devices) (c : Phantom) (request : Option (Option ℤ × Option Listing))
    → Puts g c (put_phantom g c request)
unfolding put_phantom
put_phantom-Puts g c none = (refl, refl, inl (refl, refl))
put_phantom-Puts g c (some (poll, listing)) =
    put_shadows-Puts g (record c { poll = poll_or c.poll poll }) listing
