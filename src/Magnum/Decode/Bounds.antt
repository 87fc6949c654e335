-- ===== src/Magnum/Decode/Bounds.antt =====
-- `mag_decode` of src/magnum/mag_decode.c does not read behind the end of a packet.
use moon_flare.Prelude.{
  ℕ, ◌≤◌, refl, Option, none, some, length, Bytes, if_elim, arith, ltb, leb, ◌==◌, bit_and, not,
}
use moon_flare.Magnum.Packet.{Kind, inv_len, remote_len}
use moon_flare.Magnum.State.{Inverter, Remote, Ags, Bmk, Pt100, Tap}
use moon_flare.Magnum.Decode.{
  inverter_fields, store_inverter, follow, relock, decode_inverter, remote_base, remote_extra,
  decode_remote,
}
use moon_flare.Magnum.Decode.Replies.{decode_pt_c1, decode_pt_c2}
use moon_flare.Magnum.Decode.Dispatch.{
  store_remote, store_ags, store_bmk, store_router, store_pt, pt_packet, decode,
}
use moon_flare.Magnum.Decode.Reads.{
  InBounds, read, then_reads, byte-InBounds, inverter_fields-InBounds, remote_base-InBounds,
  remote_80-InBounds, remote_a0-InBounds, remote_a1-InBounds, remote_a2-InBounds,
  remote_a3-InBounds, remote_a4-InBounds, decode_ags_a1-InBounds, decode_ags_a2-InBounds,
  decode_bmk-InBounds, decode_pt_c1-InBounds, decode_pt_c2-InBounds,
}

remote_extra-InBounds :
    (mult : ℕ) (v : Remote) (p : Bytes) (type : ℕ)
    → 20 ≤ length p
    → InBounds (remote_extra mult v p type)
unfolding remote_extra
remote_extra-InBounds mult v p type h =
    if_elim InBounds (type == 0x80) _ _ (λ e. remote_80-InBounds v p (omega arith))
      (λ e.
        if_elim InBounds (type == 0xa0) _ _ (λ e. remote_a0-InBounds mult v p h)
          (λ e.
            if_elim InBounds (type == 0xa1) _ _ (λ e. remote_a1-InBounds mult v p h)
              (λ e.
                if_elim InBounds (type == 0xa2) _ _ (λ e. remote_a2-InBounds v p h)
                  (λ e.
                    if_elim InBounds (type == 0xa3) _ _ (λ e. remote_a3-InBounds v p (omega arith))
                      (λ e.
                        if_elim InBounds (type == 0xa4) _ _
                          (λ e. remote_a4-InBounds v p (omega arith)) (λ e. (v, refl)))))))

decode_remote-InBounds : (s : Tap) (p : Bytes) → 21 ≤ length p → InBounds (decode_remote s p)
unfolding decode_remote
decode_remote-InBounds s p h =
    then_reads (remote_base s.mult s.rem p) _ (remote_base-InBounds s.mult s.rem p (omega arith))
      (λ v. read p 20 _ (omega arith) (λ type. remote_extra-InBounds s.mult v p type (omega arith)))

store_inverter-InBounds :
    (s : Tap) (o : Option Inverter) → InBounds o → InBounds (store_inverter s o)
unfolding store_inverter
store_inverter-InBounds s none (v, e) = ground arith
store_inverter-InBounds s (some v) h = (_, refl)

decode_inverter-InBounds :
    (s : Tap) (p : Bytes) (now : ℕ) → 21 ≤ length p → InBounds (decode_inverter s p now)
unfolding decode_inverter follow
decode_inverter-InBounds s p now h = read p 15 _ (omega arith) (λ role.
    if_elim InBounds (not (role == (relock s role now).stack_lock)) _ _ (λ e. (_, refl))
      (λ e.
        store_inverter-InBounds (relock s role now) (inverter_fields p now)
          (inverter_fields-InBounds p now (omega arith))))

pt_packet-InBounds :
    (need : ℕ) (f : Bytes → Option Pt100) (v : Pt100) (p : Bytes)
    → 2 ≤ need
    → (need ≤ length p → InBounds (f p))
    → InBounds (pt_packet need f v p)
unfolding pt_packet
pt_packet-InBounds need f v p big h =
    if_elim InBounds (leb need (length p)) _ _
      (λ e.
        read p 1 _ (ground arith) (λ b.
          if_elim InBounds (bit_and b 0x07 == 0) _ _ (λ q. h (ground arith)) (λ q. (v, refl))))
      (λ e. (v, refl))

module _ (s : Tap) (now : ℕ) where
  store_remote-InBounds : (o : Option Remote) → InBounds o → InBounds (store_remote s now o)
  unfolding store_remote
  store_remote-InBounds none (v, e) = ground arith
  store_remote-InBounds (some v) h = (_, refl)

  store_ags-InBounds : (o : Option Ags) → InBounds o → InBounds (store_ags s now o)
  unfolding store_ags
  store_ags-InBounds none (v, e) = ground arith
  store_ags-InBounds (some v) h = (_, refl)

  store_bmk-InBounds : (o : Option Bmk) → InBounds o → InBounds (store_bmk s now o)
  unfolding store_bmk
  store_bmk-InBounds none (v, e) = ground arith
  store_bmk-InBounds (some v) h = (_, refl)

  store_router-InBounds : (o : Option ℕ) → InBounds o → InBounds (store_router s now o)
  unfolding store_router
  store_router-InBounds none (v, e) = ground arith
  store_router-InBounds (some v) h = (_, refl)

  store_pt-InBounds : (o : Option Pt100) → InBounds o → InBounds (store_pt s now o)
  unfolding store_pt
  store_pt-InBounds none (v, e) = ground arith
  store_pt-InBounds (some v) h = (_, refl)

-- No packet, of any type and any length, makes the decoder read behind its end.
pub decode-InBounds : (s : Tap) (kind : Kind) (p : Bytes) (now : ℕ) → InBounds (decode s kind p now)
unfolding decode
decode-InBounds s Kind.inverter p now =
    if_elim InBounds (leb inv_len (length p)) _ _
      (λ e. decode_inverter-InBounds s p now (ground arith)) (λ e. (_, refl))
decode-InBounds s Kind.remote p now =
    if_elim InBounds (ltb (length p) remote_len) _ _ (λ e. (_, refl))
      (λ e. store_remote-InBounds s now _ (decode_remote-InBounds s p (ground arith)))
decode-InBounds s Kind.ags_a1 p now =
    if_elim InBounds (ltb (length p) 6) _ _ (λ e. (_, refl))
      (λ e. store_ags-InBounds s now _ (decode_ags_a1-InBounds s.mult s.ags p (ground arith)))
decode-InBounds s Kind.ags_a2 p now =
    if_elim InBounds (ltb (length p) 6) _ _ (λ e. (_, refl))
      (λ e. store_ags-InBounds s now _ (decode_ags_a2-InBounds s.ags p (ground arith)))
decode-InBounds s Kind.bmk_81 p now =
    if_elim InBounds (ltb (length p) 18) _ _ (λ e. (_, refl))
      (λ e. store_bmk-InBounds s now _ (decode_bmk-InBounds s.bmk p (ground arith)))
decode-InBounds s Kind.rtr_91 p now =
    if_elim InBounds (ltb (length p) 2) _ _ (λ e. (_, refl))
      (λ e. store_router-InBounds s now _ (byte-InBounds p 1 (ground arith)))
decode-InBounds s Kind.pt_c1 p now = store_pt-InBounds s now _ (
    pt_packet-InBounds 16 (decode_pt_c1 s.mult s.pt) s.pt p (omega arith)
      (decode_pt_c1-InBounds s.mult s.pt p))
decode-InBounds s Kind.pt_c2 p now = store_pt-InBounds s now _ (
    pt_packet-InBounds 13 (decode_pt_c2 s.pt) s.pt p (omega arith)
      (λ h. decode_pt_c2-InBounds s.pt p (omega arith)))
decode-InBounds s Kind.pt_c3 p now = store_pt-InBounds s now _ (s.pt, refl)
decode-InBounds s Kind.acld_d1 p now = (_, refl)
decode-InBounds s Kind.unknown p now = (_, refl)
