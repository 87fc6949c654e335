-- ===== src/Magnum/Framer.antt =====
-- The framer of src/magnum/mag_frame.c, which cuts packets out of the bytes of the bus.
--
-- `buf` with `len` is the list of the bytes in use, `held` with `nheld` that of the packets held.
-- The calls of `fn` are the list `out`; a framer without one delivers nothing, and does the same.
-- Times are doubles that the framer only hands on and compares: what its two comparisons in
-- `mag_frame_idle` say is an argument of `idle`.
pub mod Thins
pub mod Emit
pub mod Handlers
pub mod Process
pub mod Idle
pub mod Tally
pub mod Counting
use moon_flare.Magnum.Packet.{
  Kind, unknown, inverter, remote, kind_code, kind_count, is_unknown, inv_len, remote_len,
  reply_len, reply_type, remote_type_ok, Identity, is_inverter, reply_ok, turnaround_byte,
}
use moon_flare.Prelude.{
  ℕ, zero, suc, ◌+◌, ◌-◌, ◌*◌, ◌%◌, ◌^◌, List, [], ◌∷◌, ◌++◌, Bool, true, false, ◌&&◌, ◌||◌, not,
  Option, none, some, length, take, drop, set, replicate, get_or, Bytes, ltb, leb, ◌==◌,
  if◌then◌else◌, min,
}

-- A call of `fn`, and `mag_held_t`.
pub record Packet : Type 0 where
  pub kind : Kind
  pub bytes : Bytes

pub data State : Type 0 where
  hunting after_inverter after_remote_packet : State

-- `mag_frame_stats_t`, with counters of 64 bits.
pub record Stats : Type 0 where
  pub bytes_read : ℕ
  pub packets : List ℕ
  pub bad_packets : ℕ
  pub unknown_bytes : ℕ
  pub resyncs : ℕ
  pub ff_bytes : ℕ

-- `mag_frame_t`
pub record Framer : Type 0 where
  pub buf : Bytes
  pub state : State
  pub synced : Bool
  pub id : Identity
  pub probing : Bool
  pub probe_model : ℕ
  pub probe_revision : ℕ
  pub held : List Packet
  pub since_inv : ℕ
  pub st : Stats
  pub out : List Packet

-- `MAG_BUF_SIZE`
abbrev pub buf_size : ℕ
buf_size = 4096

-- `MAG_HELD_MAX`
abbrev pub held_max : ℕ
held_max = 4

-- `MAG_RELEARN_BYTES`
abbrev pub relearn_bytes : ℕ
relearn_bytes = 4096

-- Addition in an `uint64_t`.
abbrev pub add64 : ℕ → ℕ → ℕ
add64 a b = (a + b) % 2 ^ 64

unfoldable pub count_packet : Kind → Stats → Stats
count_packet k st = if is_unknown k then st else record st {
  packets = set st.packets (kind_code k) (add64 (get_or st.packets (kind_code k) 0) 1);
}

unfoldable pub deliver : Framer → Packet → Framer
deliver f p = record f { st = count_packet p.kind f.st; out = f.out ++ (p ∷ []) }

unfoldable pub deliver_all : Framer → List Packet → Framer
deliver_all f [] = f
deliver_all f (p ∷ ps) = deliver_all (deliver f p) ps

-- The candidate was confirmed.
unfoldable pub held_flush : Framer → Framer
held_flush f = record (deliver_all f f.held) { held = [] }

unfoldable pub count_unknown : ℕ → Framer → Framer
count_unknown n f = record f { st = record (f.st) { unknown_bytes = add64 f.st.unknown_bytes n } }

unfoldable pub drop_all_packets : Framer → List Packet → Framer
drop_all_packets f [] = f
drop_all_packets f (p ∷ ps) =
    drop_all_packets
      (deliver (count_unknown (length p.bytes) f) (record { kind = unknown; bytes = p.bytes })) ps

-- The candidate was not an inverter packet.
unfoldable pub held_drop : Framer → Framer
held_drop f = record (drop_all_packets f f.held) { held = []; probing = false }

unfoldable pub emit : Framer → Packet → Framer
emit f p =
    let dropped = count_unknown (length p.bytes) (held_drop f) in
    if f.probing && not (is_unknown p.kind)
    then (if ltb (length f.held) held_max && leb (length p.bytes) inv_len
        then record f { held = f.held ++ (p ∷ []) }
        else deliver dropped (record { kind = unknown; bytes = p.bytes }))
    else deliver f p

unfoldable pub drop_probe : Framer → Framer
drop_probe f = if f.probing then held_drop f else f

unfoldable pub lose_sync : Framer → Framer
lose_sync f =
    if f.synced
    then record f { st = record (f.st) { resyncs = add64 f.st.resyncs 1 }; synced = false }
    else f

unfoldable pub skip : Framer → ℕ → Framer
skip f n =
    if n == 0
    then f
    else lose_sync
        (emit (count_unknown n (drop_probe f)) (record { kind = unknown; bytes = take n f.buf }))

-- How a handler ends: with bytes used (none: it waits for more), or `CHANGED`.
pub data Outcome : Type 0 where
  used : ℕ → Framer → Outcome
  changed : Framer → Outcome

-- The offset of the first inverter packet that lies whole in the buffer, of which `i` bytes have
-- been passed over.
unfoldable pub find_inverter : Identity → Bytes → ℕ → Option ℕ
find_inverter id [] i = none
find_inverter id (b ∷ bs) i =
    let later = find_inverter id bs (i + 1) in
    if ltb (length (b ∷ bs)) inv_len
    then none
    else if is_inverter id (b ∷ bs)
    then some i
    else later

-- An inverter packet stands at the front, and the inverter is not known yet: the second one that
-- comes in step makes it known.
unfoldable pub probe : Framer → Framer
probe f =
    let model = get_or f.buf 14 0 in
    let revision = get_or f.buf 10 0 in
    if f.probing && f.synced && model == f.probe_model && revision == f.probe_revision
    then held_flush (record f {
      probing = false;
      id = record { have_id = true; inv_model = model; inv_revision = revision };
    })
    else record (drop_probe f) { probing = true; probe_model = model; probe_revision = revision }

unfoldable pub take_inverter : Framer → Outcome
take_inverter f =
    let known = if f.id.have_id then f else probe f in
    used inv_len
      (record (emit (record known { since_inv = 0; synced = true })
        (record { kind = inverter; bytes = take inv_len f.buf })) { state = after_inverter })

unfoldable pub hunt_at : Framer → Option ℕ → Outcome
hunt_at f none = used (length f.buf - (inv_len - 1)) (skip f (length f.buf - (inv_len - 1)))
hunt_at f (some zero) = take_inverter f
hunt_at f (some (suc i)) = used (suc i) (skip f (suc i))

unfoldable pub hunt : Framer → Outcome
hunt f = if ltb (length f.buf) inv_len then used 0 f else hunt_at f (find_inverter f.id f.buf 0)

unfoldable pub bad_packet : Framer → Framer
bad_packet f = record f { st = record (f.st) { bad_packets = add64 f.st.bad_packets 1 } }

unfoldable pub remote_or_inverter : Framer → Outcome
remote_or_inverter f =
    let b = get_or f.buf 20 0 in
    if remote_type_ok b && not (b == 0x00 && is_inverter f.id f.buf)
    then used remote_len
        (record (emit f (record { kind = remote; bytes = take remote_len f.buf })) {
          state = after_remote_packet;
        })
    else if is_inverter f.id f.buf
    then changed (record f { state = hunting })
    else changed (record (bad_packet f) { state = hunting })

unfoldable pub after_inv : Framer → Outcome
after_inv f =
    let stray = remote_type_ok (get_or f.buf remote_len 0) || is_inverter f.id (drop 1 f.buf) in
    if ltb (length f.buf) remote_len
    then used 0 f
    else if turnaround_byte (get_or f.buf 0 0)
    then (if ltb (length f.buf) (remote_len + 1)
        then used 0 f
        else if stray
        then used 1 f
        else remote_or_inverter f)
    else remote_or_inverter f

unfoldable pub after_remote : Framer → Outcome
after_remote f =
    let n = reply_len (get_or f.buf 0 0) in
    let over = record f { state = hunting } in
    if ltb (length f.buf) 1
    then used 0 f
    else if n == 0
    then changed over
    else if ltb (length f.buf) n
    then used 0 f
    else if not (reply_ok f.buf)
    then changed (bad_packet over)
    else used n (emit over (record { kind = reply_type (get_or f.buf 0 0); bytes = take n f.buf }))

unfoldable pub step_in : State → Framer → Outcome
step_in hunting f = hunt f
step_in after_inverter f = after_inv f
step_in after_remote_packet f = after_remote f

unfoldable pub step : Framer → Outcome
step f = step_in f.state f

unfoldable pub consume : Framer → ℕ → Framer
consume f n = record f { buf = if leb (length f.buf) n then [] else drop n f.buf }

-- `process`; `none` means that the fuel ran out.
unfoldable pub run : ℕ → Framer → Option Framer
run zero f = none
run (suc fuel) f = elim (step f) [
  | changed g ↦ run fuel g
  | used zero g ↦ some g
  | used (suc n) g ↦ run fuel (consume g (suc n))
]

-- A byte is used in at most two rounds, and two more rounds end it.
unfoldable pub process : Framer → Option Framer
process f = run (2 * length f.buf + 2) f

abbrev pub no_stats : Stats
no_stats = record {
  bytes_read = 0;
  packets = replicate kind_count 0;
  bad_packets = 0;
  unknown_bytes = 0;
  resyncs = 0;
  ff_bytes = 0;
}

-- `mag_frame_init`
abbrev pub init : Framer
init = record {
  buf = [];
  state = hunting;
  synced = false;
  id = record { have_id = false; inv_model = 0; inv_revision = 0 };
  probing = false;
  probe_model = 0;
  probe_revision = 0;
  held = [];
  since_inv = 0;
  st = no_stats;
  out = [];
}

-- `mag_frame_reset_stream`
unfoldable pub reset_stream : Framer → Framer
reset_stream f = record f {
  buf = [];
  state = hunting;
  synced = false;
  since_inv = 0;
  probing = false;
  held = [];
}

-- `mag_frame_reset_stats`
unfoldable pub reset_stats : Framer → Framer
reset_stats f = record f { st = no_stats }

unfoldable pub count_ff : Bytes → ℕ
count_ff [] = 0
count_ff (b ∷ bs) = let n = count_ff bs in if b == 0xff then suc n else n

-- The counts of a call, and the inverter forgotten after many bytes without one of its packets.
unfoldable pub note : Framer → Bytes → Framer
note f data_in =
    let since = add64 f.since_inv (length data_in) in
    record f {
      st = record (f.st) {
        bytes_read = add64 f.st.bytes_read (length data_in);
        ff_bytes = add64 f.st.ff_bytes (count_ff data_in);
      };
      since_inv = since;
      id = record (f.id) { have_id = f.id.have_id && not (ltb relearn_bytes since) };
    }

-- The loop of `mag_frame_feed`, on fuel.
unfoldable pub fill : ℕ → Framer → Bytes → Option Framer
fill zero f data_in = none
fill (suc fuel) f data_in =
    let n = min (length data_in) (buf_size - length f.buf) in
    if length data_in == 0
    then some f
    else (elim (process (record f { buf = f.buf ++ take n data_in })) [
      | none ↦ none
      | some g ↦ fill fuel g (drop n data_in)
    ])

-- `mag_frame_feed`
unfoldable pub feed : Framer → Bytes → Option Framer
feed f data_in =
    if length data_in == 0 then some f else fill (suc (length data_in)) (note f data_in) data_in

abbrev is_hunting : State → Bool
is_hunting hunting = true
is_hunting after_inverter = false
is_hunting after_remote_packet = false

unfoldable pub settle : Framer → Framer
settle f =
    let g = if is_hunting f.state then f else bad_packet f in
    record (emit (count_unknown (length f.buf) g) (record { kind = unknown; bytes = f.buf })) {
      buf = [];
      state = hunting;
    }

-- `mag_frame_idle`. `probe_over` and `idle_over` say that `MAG_PROBE_S` and `MAG_IDLE_S` have
-- passed since `last_rx`.
unfoldable pub idle : Bool → Bool → Framer → Framer
idle probe_over idle_over f =
    let g = if f.probing && probe_over then held_drop f else f in
    if length g.buf == 0 || not idle_over then g else settle g

unfoldable pub trimmed : ℕ → ℕ
trimmed n = if n == 22 then 21 else if n == 17 then 16 else n

-- `mag_frame_classify`, on the framer's identity: the type, `*len`, and what has been learned.
unfoldable pub classify : Identity → Bytes → ℕ → Kind × (ℕ × Identity)
classify id p len =
    let n = trimmed len in
    let seen : Identity = record {
      have_id = true;
      inv_model = get_or p 14 0;
      inv_revision = get_or p 10 0;
    } in
    if n == inv_len
    then (if is_inverter id p
        then (inverter, (n, (if id.have_id then id else seen)))
        else ((if remote_type_ok (get_or p 20 0) then remote else unknown), (n, id)))
    else if not (n == 0) && reply_len (get_or p 0 0) == n
    then (reply_type (get_or p 0 0), (n, id))
    else (unknown, (n, id))
