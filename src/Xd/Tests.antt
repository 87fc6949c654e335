-- ===== src/Xd/Tests.antt =====
-- Runs of the Tianpower protocol on small inputs, and each theorem at an input.
use moon_flare.Xd.Frame.{check, build_frame}
use moon_flare.Xd.Frame.Laws.{build_frame-injective}
use moon_flare.Xd.Txrx.{
  ReadEvent, bytes, interrupted, would_block, takes, Port, Txrx, Clock, Outcome, ret, next, init,
  drive, step, run_phase, write_phase, settle_phase, head_phase, tail_phase, write_loop, read_loop,
  reading_head,
}
use moon_flare.Xd.Txrx.Loops.{pending}
use moon_flare.Xd.Txrx.Sound.{drive_sound}
use moon_flare.Xd.Txrx.Deliver.{Delivers, drive-Delivers}
use moon_flare.Xd.Realtime.{overrun, parse_realtime}
use moon_flare.Xd.Realtime.Safety.{Safely, Plausible, parse_realtime-Safely}
use moon_flare.Xd.Realtime.Overrun.{parse_realtime-overrun}
use moon_flare.Xd.Flags.{Flag, flag_set, test_flag}
use moon_flare.Xd.Flags.Names.{flag_set_lem}
use moon_flare.Prelude.{ℕ, ◌<◌, ◌≡◌, refl, inl, List, [], ◌∷◌, ◌++◌, arith, Bytes, replicate}

-- A reply to command 0x42 with the payload 5 6, in three pieces.
abbrev reply : List ReadEvent
reply =
    bytes (0x7e ∷ 1 ∷ [])
    ∷ would_block
    ∷ interrupted
    ∷ bytes (0x42 ∷ 2 ∷ 5 ∷ [])
    ∷ bytes []
    ∷ bytes (6 ∷ 0xf2 ∷ 0x0d ∷ 9 ∷ [])
    ∷ []

abbrev port : Port
port = record { writes = takes 4 ∷ takes 90 ∷ []; reads = reply; sent = [] }

abbrev tick : Clock
tick = record { entry = 10; written = 20; waited = 1000 }

abbrev ticks : List Clock
ticks = tick ∷ tick ∷ tick ∷ []

abbrev request : Txrx
request = init port 1 0x42 [] 0 0 250

abbrev state_of : Outcome → Txrx
state_of (ret io t) = t
state_of (next t) = t

check_reply : check (0x7e ∷ 1 ∷ 0x42 ∷ 2 ∷ 5 ∷ 6 ∷ []) ≡ 0xf2
unfolding check
check_reply = refl

drive_sound_example : (pending reply ≡ build_frame 1 0x42 (5 ∷ 6 ∷ []) ++ (9 ∷ [])) × (2 < 256)
unfolding drive step run_phase write_phase settle_phase head_phase tail_phase write_loop read_loop
    init check build_frame
drive_sound_example =
    drive_sound ticks port 1 0x42 [] 0 0 250 (state_of (drive ticks request)) (omega arith) refl

-- The same request when it has been sent.
abbrev waiting : Txrx
waiting = record request { phase = reading_head }

drive-Delivers_example : Delivers (5 ∷ 6 ∷ []) (9 ∷ []) (drive ticks waiting)
unfolding init check build_frame
drive-Delivers_example =
    drive-Delivers (5 ∷ 6 ∷ []) (9 ∷ []) ticks waiting (refl, omega arith, tt) (omega arith)
      (omega arith, refl) (inl refl) (omega arith) (omega arith)

build_frame-injective_example :
    (◌≡◌ {A = ℕ} 1 1)
    × (◌≡◌ {A = ℕ} 2 2)
    × (◌≡◌ {A = Bytes} (7 ∷ []) (7 ∷ []))
    × (◌≡◌ {A = Bytes} (8 ∷ []) (8 ∷ []))
build_frame-injective_example =
    build_frame-injective 1 2 1 2 (7 ∷ []) (7 ∷ []) (8 ∷ []) (8 ∷ []) (omega arith) (omega arith)
      refl

-- One cell at 3.300 V, two sensors.
abbrev payload : Bytes
payload = 0 ∷ 1 ∷ 0x0c ∷ 0xe4 ∷ (replicate 13 0 ++ (2 ∷ replicate 82 0))

parse_realtime-Safely_example : Safely (Plausible 60) (parse_realtime payload 60)
parse_realtime-Safely_example =
    parse_realtime-Safely payload 60 (omega arith) (omega arith) (omega arith)

-- The payload is cut short behind the count of sensors.
abbrev cut_payload : Bytes
cut_payload = 0 ∷ 1 ∷ 0x0c ∷ 0xe4 ∷ (replicate 13 0 ++ (2 ∷ 0 ∷ 70 ∷ []))

parse_realtime-overrun_example : parse_realtime cut_payload 20 ≡ overrun
parse_realtime-overrun_example =
    parse_realtime-overrun cut_payload 1 2 refl (omega arith) (omega arith) refl (omega arith)
      (omega arith) (omega arith) (omega arith)

-- The bit "charging", in status bytes with that bit alone.
abbrev charging : Flag
charging = record { byte_idx = 3; mask = 1; name = "charging" }

abbrev charging_status : Bytes
charging_status = 0 ∷ 0 ∷ 0 ∷ 1 ∷ replicate 8 0

flag_set_lem_example :
    (flag_set charging_status "charging" ≡ test_flag charging_status charging) × (3 < 12)
flag_set_lem_example = flag_set_lem charging_status 16 charging refl
