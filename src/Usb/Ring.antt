-- ===== src/Usb/Ring.antt =====
-- The ring of endpoint events in src/usb/usb_id.c: `mf_endpoint_reset`, `mf_endpoint_enqueue` and
-- `mf_endpoint_drain`. Strings are the lists of their bytes.
pub mod Queue
use moon_flare.Prelude.{
  ℕ, zero, suc, ◌+◌, ◌-◌, ◌%◌, List, [], ◌∷◌, Bool, true, false, length, get_or, set, replicate,
  Bytes, ltb, leb, ◌==◌, if◌then◌else◌,
}

-- `mf_endpoint_event_t`
pub record Event : Type 0 where
  pub uuid : Bytes
  pub path : Bytes
  pub serial_id : Bytes
  pub by_id : Bytes

-- `RING_CAP`
abbrev pub ring_cap : ℕ
ring_cap = 16

-- An event after memset.
abbrev pub no_event : Event
no_event = record { uuid = []; path = []; serial_id = []; by_id = [] }

-- `g_ring`, `g_rhead` and `g_rcnt`
pub record Ring : Type 0 where
  pub slots : List Event
  pub rhead : ℕ
  pub rcnt : ℕ

-- `mf_endpoint_reset`
abbrev pub empty : Ring
empty = record { slots = replicate ring_cap no_event; rhead = 0; rcnt = 0 }

-- `mf_endpoint_enqueue`; the Boolean says that it returns 0. A NULL is not passed.
unfoldable pub enqueue : Ring → Event → Bool × Ring
enqueue r ev =
    if length ev.uuid == 0 then (false, r) else if leb ring_cap r.rcnt then (false, r) else (
      true,
      record r { slots = set r.slots ((r.rhead + r.rcnt) % ring_cap) ev; rcnt = r.rcnt + 1 },
    )

-- `mf_endpoint_drain`, which writes a list of at most `max` events.
unfoldable pub drain : ℕ → Ring → List Event × Ring
drain zero r = ([], r)
drain (suc max) r =
    let (evs, rest) =
      drain max (record r { rhead = (r.rhead + 1) % ring_cap; rcnt = r.rcnt - 1 }) in
    if ltb 0 r.rcnt then (get_or r.slots r.rhead no_event ∷ evs, rest) else ([], r)
