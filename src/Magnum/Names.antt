-- ===== src/Magnum/Names.antt =====
-- `mag_pkt_name` of src/magnum/mag_frame.c: the names of packets.
use Prim.Native.String.{String}
use moon_flare.Magnum.Tables.{Table, lookup_or}
use moon_flare.Magnum.Packet.{
  Kind, unknown, inverter, remote, ags_a1, ags_a2, bmk_81, rtr_91, pt_c1, pt_c2, pt_c3, acld_d1,
  remote_len,
}
use moon_flare.Prelude.{[], ◌∷◌, Option, none, some, length, get_or, leb, if◌then◌else◌, Bytes}

-- The texts that `mag_pkt_name` has for the remote's packets, by its type byte.
abbrev pub remote_names : Table
remote_names =
    (0x00, "REMOTE_00")
    ∷ (0x11, "REMOTE_11")
    ∷ (0x80, "REMOTE_80")
    ∷ (0xa0, "REMOTE_A0")
    ∷ (0xa1, "REMOTE_A1")
    ∷ (0xa2, "REMOTE_A2")
    ∷ (0xa3, "REMOTE_A3")
    ∷ (0xa4, "REMOTE_A4")
    ∷ (0xc0, "REMOTE_C0")
    ∷ (0xc1, "REMOTE_C1")
    ∷ (0xc2, "REMOTE_C2")
    ∷ (0xc3, "REMOTE_C3")
    ∷ (0xd0, "REMOTE_D0")
    ∷ []

-- Without a packet (`none`), or with one that is too short, the name is the general one.
unfoldable pub remote_name : Option Bytes → String
remote_name none = "REMOTE"
remote_name (some p) =
    if leb remote_len (length p) then lookup_or remote_names (get_or p 20 0) "REMOTE" else "REMOTE"

-- `mag_pkt_name`
unfoldable pub pkt_name : Kind → Option Bytes → String
pkt_name unknown p = "UNKNOWN"
pkt_name inverter p = "INVERTER"
pkt_name remote p = remote_name p
pkt_name ags_a1 p = "AGS_A1"
pkt_name ags_a2 p = "AGS_A2"
pkt_name bmk_81 p = "BMK_81"
pkt_name rtr_91 p = "RTR_91"
pkt_name pt_c1 p = "PT_C1"
pkt_name pt_c2 p = "PT_C2"
pkt_name pt_c3 p = "PT_C3"
pkt_name acld_d1 p = "ACLD_D1"
