-- ===== src/Magnum/Decode/Dispatch.antt =====
-- `mag_decode` of src/magnum/mag_decode.c, by the type of the packet. The result has the return value;
-- a read behind the end of the packet is `none`.
use moon_flare.Prelude.{
  ℕ, Bool, true, false, Option, none, some, length, Bytes, bit_and, ltb, leb, ◌==◌, if◌then◌else◌,
}
use moon_flare.Magnum.Packet.{Kind, inv_len, remote_len}
use moon_flare.Magnum.Units.{◌>>=◌, byte}
use moon_flare.Magnum.State.{Remote, Ags, Bmk, Pt100, Tap}
use moon_flare.Magnum.Decode.{decode_inverter, decode_remote}
use moon_flare.Magnum.Decode.Replies.{
  decode_ags_a1, decode_ags_a2, decode_bmk, decode_pt_c1, decode_pt_c2,
}

unfoldable pub store_remote : Tap → ℕ → Option Remote → Option (Tap × Bool)
store_remote s now none = none
store_remote s now (some v) = some (record s { rem = record v { seen = true; t = now } }, false)

unfoldable pub store_ags : Tap → ℕ → Option Ags → Option (Tap × Bool)
store_ags s now none = none
store_ags s now (some v) = some (record s { ags = record v { seen = true; t = now } }, false)

unfoldable pub store_bmk : Tap → ℕ → Option Bmk → Option (Tap × Bool)
store_bmk s now none = none
store_bmk s now (some v) = some (record s { bmk = record v { seen = true; t = now } }, false)

unfoldable pub store_router : Tap → ℕ → Option ℕ → Option (Tap × Bool)
store_router s now none = none
store_router s now (some b) =
    some (record s { rtr = record { revision = b; seen = true; t = now } }, false)

unfoldable pub store_pt : Tap → ℕ → Option Pt100 → Option (Tap × Bool)
store_pt s now none = none
store_pt s now (some v) = some (record s { pt = record v { seen = true; t = now } }, false)

-- Only the charge controller with the address 0 is decoded, from a packet that is long enough.
unfoldable pub pt_packet : ℕ → (Bytes → Option Pt100) → Pt100 → Bytes → Option Pt100
pt_packet need f v p =
    if leb need (length p)
    then byte p 1 >>= (λ b. if bit_and b 0x07 == 0 then f p else some v)
    else some v

-- A packet that is shorter than its type changes nothing.
unfoldable pub decode : Tap → Kind → Bytes → ℕ → Option (Tap × Bool)
decode s Kind.inverter p now =
    if leb inv_len (length p) then decode_inverter s p now else some (s, false)
decode s Kind.remote p now =
    if ltb (length p) remote_len then some (s, false) else store_remote s now (decode_remote s p)
decode s Kind.ags_a1 p now =
    if ltb (length p) 6 then some (s, false) else store_ags s now (decode_ags_a1 s.mult s.ags p)
decode s Kind.ags_a2 p now =
    if ltb (length p) 6 then some (s, false) else store_ags s now (decode_ags_a2 s.ags p)
decode s Kind.bmk_81 p now =
    if ltb (length p) 18 then some (s, false) else store_bmk s now (decode_bmk s.bmk p)
decode s Kind.rtr_91 p now =
    if ltb (length p) 2 then some (s, false) else store_router s now (byte p 1)
decode s Kind.pt_c1 p now = store_pt s now (pt_packet 16 (decode_pt_c1 s.mult s.pt) s.pt p)
decode s Kind.pt_c2 p now = store_pt s now (pt_packet 13 (decode_pt_c2 s.pt) s.pt p)
decode s Kind.pt_c3 p now = store_pt s now (some s.pt)
decode s Kind.acld_d1 p now = some (record s { acld = record { seen = true; t = now } }, false)
decode s Kind.unknown p now = some (s, false)
