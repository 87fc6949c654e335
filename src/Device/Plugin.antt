-- ===== src/Device/Plugin.antt =====
-- Plugins as the device manager sees them: `mf_plugin_ops_t` of src/include/mf_plugin.h,
-- `mf_plugins_find` of src/plugin/loader.c, and `mf_capture_spec` of src/device/device.c.
--
-- A plugin is not read here: it is a record of functions. Its context, with all that it keeps and
-- reads, is a number, which each call replaces. A function that is NULL is `none`.
use moon_flare.Prelude.Int.{ℤ, pos, less}
use moon_flare.Prelude.{
  ℕ, List, [], ◌∷◌, Bool, false, ◌&&◌, not, Option, none, some, Bytes, same_bytes, if◌then◌else◌,
}
use moon_flare.Device.Spec.{Spec}

-- `MF_OK`, `MF_ERR_*`, and any other number.
pub data Code : Type 0 where
  ok inval offline unsupported busy other : Code

pub data Opened : Type 0 where
  opened : ℕ → Opened
  open_failed : Opened

-- A value in a JSON object; for a string, also the number that `atof` reads in it.
pub data Value : Type 0 where
  boolean : Bool → Value
  number : ℤ → Value
  string : Bytes → ℤ → Value
  other_value : Value

-- A request for new settings: the keys of the daemon, and whether there are others.
pub record Patch : Type 0 where
  pub active : Option Value
  pub name : Option Value
  pub poll_interval : Option Value
  pub capture_interval : Option Value
  pub retention : Option Value
  pub have_other : Bool

-- The numbers in the object "capture" of what `describe` returns.
pub record CaptureBlock : Type 0 where
  pub retention : Option ℤ
  pub interval : Option ℤ
  pub min_s : Option ℤ

-- `mf_plugin_ops_t`
pub record Ops : Type 0 where
  pub open_fn : Option (Option Spec → Opened)
  pub step_fn : Option (ℕ → ℕ × Bool)
  pub reading_fn : Option (ℕ → ℕ × Option Bytes)
  pub error_fn : Option (ℕ → Option Bytes)
  pub caps_fn : Option (ℕ → ℕ)
  pub put_fn : Option (ℕ → Option Patch → ℕ × Code)
  pub action_fn : Option (ℕ → Bytes → Bytes → ℕ × Code)
  pub capture : Option CaptureBlock
  pub has_close : Bool

-- An element of `reg->ops`, with its `kind` and `driver`.
pub record Plugin : Type 0 where
  pub kind : Option Bytes
  pub driver : Option Bytes
  pub ops : Ops

unfoldable pub differs : Option Bytes → Bytes → Bool
differs none s = false
differs (some k) s = not (same_bytes k s)

-- `mf_plugins_find`, for a kind and a driver that are not NULL.
unfoldable pub find_plugin : List Plugin → Bytes → Bytes → Option Ops
find_plugin [] kind driver = none
find_plugin (p ∷ ps) kind driver =
    let later = find_plugin ps kind driver in
    if differs p.kind kind then later else if differs p.driver driver then later else some p.ops

-- What a module captures: its default and smallest interval, and its days of retention.
pub record Capture : Type 0 where
  pub def_s : ℤ
  pub min_s : ℤ
  pub keep_days : ℤ

unfoldable pub at_least : ℤ → Option ℤ → ℤ → ℤ
at_least low none d = d
at_least low (some v) d = if less v low then d else v

unfoldable pub capture_of_block : CaptureBlock → Option Capture
capture_of_block c = elim c.retention [
  | none ↦ none
  | some keep ↦
      if less keep (pos 0)
      then none
      else some (record {
        def_s = at_least (pos 0) c.interval (pos 10000);
        min_s = at_least (pos 1000) c.min_s (pos 1000);
        keep_days = keep;
      })
]

-- `mf_capture_spec`; `none` is -1.
unfoldable pub capture_spec : Option Ops → Option Capture
capture_spec none = none
capture_spec (some ops) = elim ops.capture [ none ↦ none | some c ↦ capture_of_block c ]

-- `capture_resolve`
unfoldable pub capture_resolve : Option Ops → ℤ → ℤ
capture_resolve ops want = elim (capture_spec ops) [
  | none ↦ pos 0
  | some c ↦
      let w = if less want (pos 0) then c.def_s else want in
      if less (pos 0) w && less w c.min_s then c.min_s else w
]
