-- ===== src/Device/Apply/Identity.antt =====
-- A device that is added from an entry of the configuration has the identity of the entry:
-- `add_from_cfg` and `identity_changed` of src/device/device.c, `device_to_json` and
-- `mf_config_device_endpoint` of src/config/config.c.
use moon_flare.Prelude.{
  ℕ, ◌<◌, true, false, not, ◌≡◌, refl, ◌∙◌, subst, Option, some, Bytes, [], ◌∷◌, length, take_all,
  set, arith, same_bytes, same_bytes_iff, if◌then◌else◌, ◌++◌,
}
use moon_flare.Device.Spec.{
  DeviceConfig, fit, is_empty, config_endpoint, spec_of, spec_endpoint, usb_endpoint, ble_endpoint,
  modbus_endpoint, tcp_endpoint, identity_from_spec, string_or_null, or_else, text, endpoint_size,
  or_empty,
}
use moon_flare.Device.Plugin.{Ops}
use moon_flare.Prelude.Int.{ℤ}
use moon_flare.Device.Table.{Devices, Device, first_free, is_live}
use moon_flare.Device.Add.{Added, add_from_cfg, request_of, new_device, kind_size}
use moon_flare.Device.Add.Outcome.{Outcome, add-Outcome}
use moon_flare.Device.Apply.{identity_changed}

abbrev json_endpoint : Bytes → Bytes → Bytes → Bytes → ℤ → Bytes
json_endpoint path serial address ip port =
    or_else
      (or_else (usb_endpoint (some (string_or_null path, string_or_null serial)))
        (ble_endpoint (some (string_or_null address))))
      (modbus_endpoint (some (string_or_null ip, some port)))

abbrev first_endpoint : Bytes → Bytes → Bytes → Bytes → ℤ → Bytes
first_endpoint path serial address ip port =
    if not (is_empty path)
    then fit endpoint_size (text "usb:" ++ path)
    else if not (is_empty serial)
    then fit endpoint_size (text "usb-id:" ++ serial)
    else if not (is_empty address)
    then fit endpoint_size (text "ble:" ++ address)
    else if not (is_empty ip)
    then tcp_endpoint ip port
    else []

-- The first of the four that is given makes the endpoint, on both ways.
json-first :
    (path serial address ip : Bytes) (port : ℤ)
    → json_endpoint path serial address ip port ≡ first_endpoint path serial address ip port
unfolding usb_endpoint ble_endpoint modbus_endpoint tcp_endpoint
json-first (p ∷ ps) s a i n = refl
json-first [] (s ∷ ss) a i n = refl
json-first [] [] (a ∷ cs) i n = refl
json-first [] [] [] (i ∷ js) n = refl
json-first [] [] [] [] n = refl

spec_endpoint-spec_of : (d : DeviceConfig) → spec_endpoint (spec_of d) ≡ config_endpoint d
unfolding spec_endpoint spec_of config_endpoint
spec_endpoint-spec_of d = json-first d.usb_path d.usb_serial d.ble_address d.modbus_ip d.modbus_port

-- The bus too, when it is not longer than a slot has room for.
bus_of : (bus : Bytes) → length bus < 32 → fit 32 (or_empty (string_or_null bus)) ≡ bus
bus_of [] h = refl
bus_of (b ∷ bs) h = take_all 31 (b ∷ bs) (omega arith)

-- The kind, the driver and the bus fit into a slot.
pub record HasShortNames (d : DeviceConfig) : Type 0 where
  pub kind : length d.kind < kind_size
  pub driver : length d.driver < kind_size
  pub bus : length d.bus < 32

-- The fields of a slot that `identity_changed` looks at.
abbrev pub SameIdentity : Device → DeviceConfig → Type 0
SameIdentity e d =
    (e.kind ≡ d.kind) × (e.driver ≡ d.driver) × (e.bus ≡ d.bus) × (e.endpoint ≡ config_endpoint d)

pub new-SameIdentity :
    (d : DeviceConfig) (ops : Option Ops)
    → HasShortNames d
    → SameIdentity (new_device ops (request_of d []) (identity_from_spec (request_of d []).spec)) d
unfolding new_device request_of identity_from_spec spec_of spec_endpoint config_endpoint
new-SameIdentity d ops s = (
  take_all 15 d.kind (omega (arith, s.kind)),
  take_all 15 d.driver (omega (arith, s.driver)),
  bus_of d.bus s.bus,
  spec_endpoint-spec_of d,
)

same_self : (p q : Bytes) → p ≡ q → not (same_bytes p q) ≡ false
same_self p q e = ground (arith, same_bytes_iff p q)

pub unchanged : (e : Device) (d : DeviceConfig) → SameIdentity e d → identity_changed e d ≡ false
unfolding identity_changed
unchanged e d (k, r, b, p) = ground (
  arith,
  same_self e.kind d.kind k,
  same_self e.driver d.driver r,
  same_self e.bus d.bus b,
  same_self e.endpoint (config_endpoint d) p,
)

pub live_of : (d : Device) → d.in_use ≡ true → d.stop ≡ false → is_live d ≡ true
live_of d u l = ground arith

-- A device that is added from an entry of the configuration is live in the first free slot, and the
-- entry, applied again, finds its identity unchanged, if the kind and the driver have at most 15
-- bytes and the bus at most 31.
pub add-Identity :
    (g h : Devices) (d : DeviceConfig) (uuid : Bytes)
    → HasShortNames d
    → add_from_cfg g d ≡ (h, Added.added uuid)
    → (i : ℕ) × (e : Device) × (first_free g.slots 0 ≡ some i)
      × (h.slots ≡ set g.slots i e)
      × (is_live e ≡ true)
      × (identity_changed e d ≡ false)
unfolding add_from_cfg
add-Identity g h d uuid s q =
    let (a, (i, ops, c, f, st)) =
      subst (Outcome g (request_of d [])) q (add-Outcome g (request_of d [])) in
    let (k, r, b, p) = new-SameIdentity d ops s in
    let (n', u', k', r', b', p', v') = st.copies in
    (
      i,
      st.device,
      f,
      st.slots,
      live_of st.device st.in_use st.live,
      unchanged st.device d (k' ∙ k, r' ∙ r, b' ∙ b, p' ∙ p),
    )
