-- ===== src/Magnum/Decode/Loyal.antt =====
-- One inverter at a time: the runs of `mag_decode` of src/magnum/mag_decode.c.
use mathlib.Core.Bool.{false≢true}
use moon_flare.Prelude.{
  ℕ, ◌≡◌, inl, refl, ◌∙◌, subst, ap, Bool, true, false, Option, none, some, Bytes, List, [], ◌∷◌,
  length, if_elim, leb, if◌then◌else◌,
}
use moon_flare.Magnum.Packet.{Kind, inv_len}
use moon_flare.Magnum.Units.{◌>>=◌, byte}
use moon_flare.Magnum.State.{Remote, Ags, Bmk, Pt100, Tap, start}
use moon_flare.Magnum.Decode.{decode_remote}
use moon_flare.Magnum.Decode.Replies.{
  decode_ags_a1, decode_ags_a2, decode_bmk, decode_pt_c1, decode_pt_c2,
}
use moon_flare.Magnum.Decode.Dispatch.{
  store_remote, store_ags, store_bmk, store_router, store_pt, pt_packet, decode,
}
use moon_flare.Magnum.Decode.Bounds.{decode-InBounds}
use moon_flare.Magnum.Decode.Stack.{
  Consistent, Loyal, Steps, After, unchanged_Steps, decode_inverter-Steps,
}

-- The other decoders leave the inverter alone.
module _ (s : Tap) (now : ℕ) where
  store_remote-Steps : (o : Option Remote) → After (Steps s now) (store_remote s now o)
  unfolding store_remote
  store_remote-Steps none = tt
  store_remote-Steps (some v) = unchanged_Steps s now s.other_inverter_packets

  store_ags-Steps : (o : Option Ags) → After (Steps s now) (store_ags s now o)
  unfolding store_ags
  store_ags-Steps none = tt
  store_ags-Steps (some v) = unchanged_Steps s now s.other_inverter_packets

  store_bmk-Steps : (o : Option Bmk) → After (Steps s now) (store_bmk s now o)
  unfolding store_bmk
  store_bmk-Steps none = tt
  store_bmk-Steps (some v) = unchanged_Steps s now s.other_inverter_packets

  store_router-Steps : (o : Option ℕ) → After (Steps s now) (store_router s now o)
  unfolding store_router
  store_router-Steps none = tt
  store_router-Steps (some v) = unchanged_Steps s now s.other_inverter_packets

  store_pt-Steps : (o : Option Pt100) → After (Steps s now) (store_pt s now o)
  unfolding store_pt
  store_pt-Steps none = tt
  store_pt-Steps (some v) = unchanged_Steps s now s.other_inverter_packets

  too_short :
      (b : Bool) (o : Option (Tap × Bool))
      → After (Steps s now) o
      → After (Steps s now) (if b then some (s, false) else o)
  too_short true o h = unchanged_Steps s now s.other_inverter_packets
  too_short false o h = h

decode-Steps :
    (s : Tap) (kind : Kind) (p : Bytes) (now : ℕ) → After (Steps s now) (decode s kind p now)
unfolding decode
decode-Steps s Kind.inverter p now =
    if_elim (After (Steps s now)) (leb inv_len (length p)) _ _ (λ e. decode_inverter-Steps s p now)
      (λ e. unchanged_Steps s now s.other_inverter_packets)
decode-Steps s Kind.remote p now =
    too_short s now _ _ (store_remote-Steps s now (decode_remote s p))
decode-Steps s Kind.ags_a1 p now =
    too_short s now _ _ (store_ags-Steps s now (decode_ags_a1 s.mult s.ags p))
decode-Steps s Kind.ags_a2 p now =
    too_short s now _ _ (store_ags-Steps s now (decode_ags_a2 s.ags p))
decode-Steps s Kind.bmk_81 p now = too_short s now _ _ (store_bmk-Steps s now (decode_bmk s.bmk p))
decode-Steps s Kind.rtr_91 p now = too_short s now _ _ (store_router-Steps s now (byte p 1))
decode-Steps s Kind.pt_c1 p now =
    store_pt-Steps s now (pt_packet 16 (decode_pt_c1 s.mult s.pt) s.pt p)
decode-Steps s Kind.pt_c2 p now = store_pt-Steps s now (pt_packet 13 (decode_pt_c2 s.pt) s.pt p)
decode-Steps s Kind.pt_c3 p now = store_pt-Steps s now (some s.pt)
decode-Steps s Kind.acld_d1 p now = unchanged_Steps s now s.other_inverter_packets
decode-Steps s Kind.unknown p now = unchanged_Steps s now s.other_inverter_packets

known_step :
    (s : Tap) (now : ℕ) (o : Option (Tap × Bool)) (r : Tap × Bool)
    → After (Steps s now) o
    → o ≡ some r
    → Steps s now r
known_step s now o r h e = subst (After (Steps s now)) e h

-- One packet: the return value says whether it has updated the inverter, with a packet of the role
-- that is followed then and the time of now; and another role is followed only when the last one has
-- been silent for five seconds.
pub decode-Loyal :
    (s : Tap) (kind : Kind) (p : Bytes) (now : ℕ) (r : Tap × Bool)
    → decode s kind p now ≡ some r
    → Loyal s now r
decode-Loyal s kind p now r e = (known_step s now _ r (decode-Steps s kind p now) e).1

-- Packets with their times, one after the other.
abbrev pub decode_all : Tap → List (Kind × Bytes × ℕ) → Option Tap
decode_all s [] = some s
decode_all s ((kind, p, now) ∷ ps) = decode s kind p now >>= (λ r. decode_all r.0 ps)

all_from :
    (ps : List (Kind × Bytes × ℕ)) (s : Tap)
    → Consistent s
    → (t : Tap) × (decode_all s ps ≡ some t) × Consistent t
all_from [] s c = (s, refl, c)
all_from ((kind, p, now) ∷ ps) s c =
    let (r, e) = decode-InBounds s kind p now in
    let (t, q, d) = all_from ps r.0 ((known_step s now _ r (decode-Steps s kind p now) e).0 c) in
    (t, ap (λ (o : Option (Tap × Bool)). o >>= (λ r. decode_all r.0 ps)) e ∙ q, d)

-- Whatever packets come, at whatever times and of whatever length, they are decoded without a read
-- behind the end of one. Then the inverter that is known, if one is, has the role that is followed;
-- the multiplier is 1, 2 or 4, and that of the inverter's model if pymagnum knows the code.
pub decode_all-Consistent :
    (ps : List (Kind × Bytes × ℕ)) → (t : Tap) × (decode_all start ps ≡ some t) × Consistent t
unfolding start
decode_all-Consistent ps =
    all_from ps start ((λ h. absurd (false≢true h)), (λ h. absurd (false≢true h)), inl refl)
