-- ===== src/Magnum/Tests.antt =====
-- Runs of the Magnum framer on small inputs, and each theorem at an input.
use moon_flare.Magnum.Tables.{model_rated_w, lookup, multiplier}
use moon_flare.Magnum.Packet.{
  unknown, remote, turnaround_byte, remote_type_ok, is_inverter, id_ok, inverter,
}
use moon_flare.Magnum.Framer.{
  Framer, after_inverter, init, feed, idle, held_drop, drop_all_packets, after_inv,
  remote_or_inverter, after_remote, no_stats, note, count_ff, fill, process, run, step, step_in,
  hunt, hunt_at, find_inverter, skip, drop_probe, lose_sync, emit, deliver, count_packet,
  count_unknown, consume,
}
use moon_flare.Magnum.Framer.Tally.{IsTallied}
use moon_flare.Magnum.Framer.Counting.{feed-IsTallied, init-IsTallied}
use moon_flare.Magnum.Framer.Thins.{payload}
use moon_flare.Magnum.Framer.Emit.{WellFormed, from_inverter}
use moon_flare.Magnum.Framer.Process.{KeepsBytes, feed-KeepsBytes, stream, init-WellFormed}
use moon_flare.Magnum.Framer.Idle.{Idles, idle-Idles}
use moon_flare.Magnum.Units.{byte, u16, s16}
use moon_flare.Magnum.State.{Tap, no_inverter, start}
use moon_flare.Magnum.Decode.{
  decode_inverter, follow, relock, may_relock, inverter_fields, store_inverter, learn_mult,
}
use moon_flare.Magnum.Decode.Dispatch.{decode}
use moon_flare.Magnum.Decode.Reads.{InBounds}
use moon_flare.Magnum.Decode.Bounds.{decode-InBounds}
use moon_flare.Magnum.Decode.Stack.{Consistent, Loyal}
use moon_flare.Magnum.Decode.Loyal.{decode-Loyal, decode_all, decode_all-Consistent}
use moon_flare.Prelude.Int.{pos}
use moon_flare.Prelude.{
  length, ◌≤◌, ℕ, Bool, none, map, ◌≡◌, refl, [], ◌∷◌, ◌++◌, true, false, ◌&&◌, not, some, arith,
  Bytes, replicate, if◌then◌else◌,
}

-- The name of the model 0x6B ends in 24 volts.
model_rated_w_4024 : model_rated_w 0x6b ≡ 4000
unfolding model_rated_w lookup
model_rated_w_4024 = refl

-- A packet of a model 0x06 at rest.
abbrev inverter_packet : Bytes
inverter_packet = replicate 14 0 ++ (6 ∷ replicate 6 0)

abbrev remote_packet : Bytes
remote_packet = replicate 20 0 ++ (0xa0 ∷ [])

-- An inverter on probation, with its packet held and three bytes that wait.
abbrev on_probation : Framer
on_probation = record init {
  buf = 1 ∷ 2 ∷ 3 ∷ [];
  state = after_inverter;
  synced = true;
  probing = true;
  probe_model = 6;
  held = record { kind = inverter; bytes = inverter_packet } ∷ [];
}

on_probation-WellFormed : WellFormed on_probation
on_probation-WellFormed = record {
  quiet = λ h. absurd (ground arith);
  few = omega arith;
  delivered = tt;
  holds = (from_inverter inverter_packet refl refl, tt);
}

feed-KeepsBytes_example :
    (g : Framer) × (feed on_probation remote_packet ≡ some g)
    × KeepsBytes on_probation remote_packet g
feed-KeepsBytes_example =
    feed-KeepsBytes on_probation remote_packet on_probation-WellFormed (omega arith)

idle-Idles_example : Idles on_probation (idle false true on_probation) (
    if on_probation.probing && not false
    then (payload on_probation.out ++ on_probation.buf) ++ payload on_probation.held
    else stream on_probation)
idle-Idles_example = idle-Idles on_probation false on_probation-WellFormed

-- Noise of 22 bytes, of which two cannot begin a packet.
abbrev noise_fed : Framer
noise_fed = record init {
  buf = replicate 20 255;
  since_inv = 22;
  st = record no_stats { bytes_read = 22; unknown_bytes = 2; ff_bytes = 22 };
  out = record { kind = unknown; bytes = 255 ∷ 255 ∷ [] } ∷ [];
}

feed-noise : feed init (replicate 22 255) ≡ some noise_fed
unfolding feed note count_ff fill process run step step_in hunt hunt_at find_inverter is_inverter
    id_ok skip drop_probe lose_sync emit deliver count_packet count_unknown consume
feed-noise = refl

feed-IsTallied_example :
    (g : Framer) × (feed init (replicate 22 255) ≡ some g)
    × IsTallied g
    × (WellFormed g × (length g.buf ≤ 21))
feed-IsTallied_example =
    feed-IsTallied init (replicate 22 255) init-WellFormed (omega arith) init-IsTallied

-- A probe whose time is over: the inverter is not known, but its remote is still awaited, and what
-- looks like one is delivered as such.
abbrev waiting : Framer
waiting = record on_probation { buf = [] }

feed-unconfirmed :
    (elim (feed (idle true false waiting) remote_packet) [
      | none ↦ []
      | some g ↦ map (λ p. p.kind) g.out
    ])
    ≡ unknown ∷ remote ∷ []
unfolding idle held_drop drop_all_packets feed note count_ff fill process run step step_in after_inv
    remote_or_inverter after_remote emit deliver count_packet count_unknown consume turnaround_byte
    remote_type_ok is_inverter id_ok
feed-unconfirmed = refl

-- A packet of an inverter with the role 1, at 5.2 volts, and one with the role 2.
abbrev of_role : ℕ → Bytes
of_role role = 4 ∷ 0 ∷ 0 ∷ 52 ∷ (replicate 10 0 ++ (6 ∷ role ∷ replicate 5 0))

decode-InBounds_example : InBounds (decode start remote [] 0)
decode-InBounds_example = decode-InBounds start remote [] 0

abbrev tap : Tap × Bool
tap = (
  record start {
    inv = record no_inverter {
      seen = true;
      t = 10;
      mode = 4;
      dc_voltage = pos 52;
      model = 6;
      stackmode = 1;
    };
    stack_locked = true;
    stack_lock = 1;
  },
  true,
)

first_packet : decode start inverter (of_role 1) 10 ≡ some tap
unfolding start decode decode_inverter byte follow relock may_relock inverter_fields store_inverter
    learn_mult s16 u16 multiplier
first_packet = refl

-- The other inverter of the stack is counted, and heard after five seconds of silence.
other_packet :
    decode tap.0 inverter (of_role 2) 20 ≡ some (record tap.0 { other_inverter_packets = 1 }, false)
unfolding start decode decode_inverter byte follow relock may_relock
other_packet = refl

decode-Loyal_example : Loyal start 10 tap
decode-Loyal_example = decode-Loyal start inverter (of_role 1) 10 tap first_packet

decode_all-Consistent_example :
    (t : Tap) × (decode_all start ((inverter, of_role 1, 10) ∷ (remote, [], 20) ∷ []) ≡ some t)
    × Consistent t
decode_all-Consistent_example =
    decode_all-Consistent ((inverter, of_role 1, 10) ∷ (remote, [], 20) ∷ [])
