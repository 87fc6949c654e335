-- ===== src/Phantom/Tests.antt =====
-- Runs of the phantom driver on small inputs, and each theorem at an input.
use moon_flare.Prelude.Int.{pos}
use moon_flare.Prelude.{◌≡◌, refl, [], ◌∷◌, true, false, none, some, same_bytes}
use moon_flare.Device.Spec.{text}
use moon_flare.Device.Plugin.{Code}
use moon_flare.Device.Table.{Devices, blank, find_live, find_slot}
use moon_flare.Phantom.Settings.{
  Phantom, Listing, is_uuid, tokens_from, join, listing_text, has, collect, parse_shadows,
  may_shadow, is_real, all_real, put_list, put_shadows, put_phantom,
}
use moon_flare.Phantom.Settings.Accepted.{Puts, put_phantom-Puts}

-- Two batteries, of which one is a phantom.
abbrev table : Devices
table = record {
  slots =
      record blank {
        in_use = true;
        uuid = text "aaaaaaaa";
        kind = text "battery";
        driver = text "jk";
      }
      ∷ record blank {
        in_use = true;
        uuid = text "bbbbbbbb";
        kind = text "battery";
        driver = text "phantom";
      }
      ∷ [];
  pending = [];
  threads = true;
  plugins = [];
  history_open = false;
  history = [];
}

abbrev phantom : Phantom
phantom = record {
  uuid = text "cccccccc";
  kind = text "battery";
  shadows = [];
  poll = pos 2000;
  next = pos 7000;
}

-- Commas and spaces separate ids, and an id that comes again is left out.
parsed :
    parse_shadows (Listing.string (text "aaaaaaaa, bbbbbbbb,,aaaaaaaa"))
    ≡ some (text "aaaaaaaa" ∷ text "bbbbbbbb" ∷ [])
unfolding parse_shadows listing_text tokens_from collect is_uuid has same_bytes
parsed = refl

joined : join [] (some (text "a") ∷ none ∷ some (text "b") ∷ []) ≡ text "a,b"
unfolding join
joined = refl

accepted :
    put_phantom table phantom (some (none, some (Listing.string (text "aaaaaaaa"))))
    ≡ (record phantom { shadows = text "aaaaaaaa" ∷ []; next = pos 0 }, Code.ok)
unfolding put_phantom put_shadows put_list parse_shadows listing_text tokens_from collect is_uuid
    has same_bytes all_real is_real may_shadow find_live find_slot
accepted = refl

-- A phantom does not shadow another one.
refused :
    (put_phantom table phantom (some (none, some (Listing.string (text "bbbbbbbb"))))).1
    ≡ Code.inval
unfolding put_phantom put_shadows put_list parse_shadows listing_text tokens_from collect is_uuid
    has same_bytes all_real is_real may_shadow find_live find_slot
refused = refl

put_phantom-Puts_example :
    Puts table phantom
      (put_phantom table phantom (some (none, some (Listing.string (text "aaaaaaaa")))))
put_phantom-Puts_example =
    put_phantom-Puts table phantom (some (none, some (Listing.string (text "aaaaaaaa"))))
