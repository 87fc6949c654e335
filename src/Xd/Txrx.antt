-- ===== src/Xd/Txrx.antt =====
-- The non-blocking request and response of src/xd/bms_proto.c: `bms_txrx_init`, `bms_txrx_step`.
--
-- A time is a number of microseconds, which is what `now_seconds` reads. A descriptor is a script
-- of what its system calls will answer; an exhausted script answers EAGAIN. A buffer with its
-- fill count (`rx_head`, `rx_head_got`) is the list of the bytes in it.
pub mod Loops
pub mod Blocks
pub mod Sound
pub mod Reading
pub mod Deliver
use moon_flare.Xd.Frame.{soi, eoi, check, build_frame}
use moon_flare.Prelude.{
  ℕ, ◌+◌, ◌-◌, min, List, [], ◌∷◌, ◌++◌, not, Option, none, some, length, take, drop, get_or, ltb,
  leb, ◌==◌, if◌then◌else◌, Bytes,
}

-- One answer of `write`: it takes up to `n` bytes, or errno is EINTR, EAGAIN or another.
pub data WriteEvent : Type 0 where
  takes : ℕ → WriteEvent
  interrupted would_block fails : WriteEvent

-- One answer of `read`, with the bytes that the line has by then. No bytes is the answer 0.
pub data ReadEvent : Type 0 where
  bytes : Bytes → ReadEvent
  interrupted would_block fails : ReadEvent

-- The phases -1, 0, 1, 2, 3 and 4, which are all that the code stores.
pub data Phase : Type 0 where
  refused writing settling reading_head reading_tail complete : Phase

-- `bms_io_t`
pub data Io : Type 0 where
  done need_read need_write need_time timeout error : Io

-- What `err` says.
pub data Fault : Type 0 where
  too_long bad_soi frame_too_large bad_eoi : ℕ → Fault
  wrong_addr wrong_cmd bad_check : ℕ → ℕ → Fault
  timed_out : Phase → Fault
  write_failed read_head_failed read_body_failed : Fault

-- `fd` stands for the two scripts, and `sent` for the bytes that left.
pub record Port : Type 0 where
  pub writes : List WriteEvent
  pub reads : List ReadEvent
  pub sent : Bytes

-- `bms_txrx_state_t`
pub record Txrx : Type 0 where
  pub fd : Port
  pub addr : ℕ
  pub cmd : ℕ
  pub limit : ℕ
  pub deadline : ℕ
  pub settle_until : ℕ
  pub tx : Bytes
  pub tx_sent : ℕ
  pub rx_head : Bytes
  pub rx_tail : Bytes
  pub rx_tail_need : ℕ
  pub phase : Phase
  pub body : Bytes
  pub err : Option Fault

-- The three places where a step reads the clock.
pub record Clock : Type 0 where
  pub entry : ℕ
  pub written : ℕ
  pub waited : ℕ

-- How a block of `bms_txrx_step` ends: by a return, or by falling through to the next one.
pub data Outcome : Type 0 where
  ret : Io → Txrx → Outcome
  next : Txrx → Outcome

infixl 5 ◌>>=◌
abbrev pub ◌>>=◌ : Outcome → (Txrx → Outcome) → Outcome
ret io s >>= f = ret io s
next s >>= f = f s

-- How a loop of system calls ends: all is there, the caller must come back, or an error.
pub data Progress : Type 0 where
  full blocked failed : Progress

abbrev pub frame_max : ℕ
frame_max = 512

-- The fields that every call of `bms_txrx_init` sets; the memset clears the rest.
abbrev pub fresh : Port → ℕ → ℕ → ℕ → ℕ → ℕ → Txrx
fresh fd addr cmd now wait settle = record {
  fd = fd;
  addr = addr;
  cmd = cmd;
  limit = if ltb 0 wait then wait else 1500000;
  deadline = now + (if ltb 0 wait then wait else 1500000) + settle + 500000;
  settle_until = 0;
  tx = [];
  tx_sent = 0;
  rx_head = [];
  rx_tail = [];
  rx_tail_need = 0;
  phase = writing;
  body = [];
  err = none;
}

-- `bms_txrx_init` at time `now`, with the timeout `wait`. Flushing the port drops no byte of the
-- script, which begins with what arrives after it.
unfoldable pub init : Port → ℕ → ℕ → Bytes → ℕ → ℕ → ℕ → Txrx
init fd addr cmd payload now wait settle =
    let s = fresh fd addr cmd now wait settle in
    if ltb 0xff (length payload)
    then record s { err = some (too_long (length payload)); phase = refused }
    else record s { tx = build_frame addr cmd payload; settle_until = settle }

-- The loop of phase 0, over the count of bytes sent.
unfoldable pub write_loop : ℕ → ℕ → List WriteEvent → Progress × ℕ × List WriteEvent
write_loop len sent [] = if ltb sent len then (blocked, sent, []) else (full, sent, [])
write_loop len sent (takes n ∷ evs) =
    let w = min n (len - sent) in
    let rest = write_loop len (sent + w) evs in
    if ltb sent len
    then (if ltb 0 w then rest else (failed, sent, evs))
    else (full, sent, takes n ∷ evs)
write_loop len sent (interrupted ∷ evs) =
    let rest = write_loop len sent evs in
    if ltb sent len then rest else (full, sent, interrupted ∷ evs)
write_loop len sent (would_block ∷ evs) =
    if ltb sent len then (blocked, sent, evs) else (full, sent, would_block ∷ evs)
write_loop len sent (fails ∷ evs) =
    if ltb sent len then (failed, sent, evs) else (full, sent, fails ∷ evs)

-- The loops of phases 2 and 3, until `need` bytes are there. A read asks for what is missing, and
-- what it leaves of the bytes on the line waits for the next one.
unfoldable pub read_loop : ℕ → Bytes → List ReadEvent → Progress × Bytes × List ReadEvent
read_loop need got [] = if ltb (length got) need then (blocked, got, []) else (full, got, [])
read_loop need got (bytes [] ∷ evs) =
    if ltb (length got) need then (blocked, got, evs) else (full, got, bytes [] ∷ evs)
read_loop need got (bytes (b ∷ bs) ∷ evs) =
    let room = need - length got in
    let rest = read_loop need (got ++ (b ∷ bs)) evs in
    if ltb (length got) need
    then (if leb (length (b ∷ bs)) room
        then rest
        else (full, got ++ take room (b ∷ bs), bytes (drop room (b ∷ bs)) ∷ evs))
    else (full, got, bytes (b ∷ bs) ∷ evs)
read_loop need got (interrupted ∷ evs) =
    let rest = read_loop need got evs in
    if ltb (length got) need then rest else (full, got, interrupted ∷ evs)
read_loop need got (would_block ∷ evs) =
    if ltb (length got) need then (blocked, got, evs) else (full, got, would_block ∷ evs)
read_loop need got (fails ∷ evs) =
    if ltb (length got) need then (failed, got, evs) else (full, got, fails ∷ evs)

pub fail : Txrx → Fault → Outcome
fail s f = ret error (record s { err = some f })

after_write : Clock → Txrx → Progress → Outcome
after_write c s full =
    next (record s { settle_until = c.written + s.settle_until; phase = settling })
after_write c s blocked = ret need_write s
after_write c s failed = fail s write_failed

-- `if (st->phase == 0)`
unfoldable pub write_phase : Clock → Txrx → Outcome
unfolding after_write
write_phase c s =
    let (p, sent, evs) = write_loop (length s.tx) s.tx_sent s.fd.writes in
    let port = record (s.fd) {
      writes = evs;
      sent = s.fd.sent ++ drop s.tx_sent (take sent s.tx);
    } in
    after_write c (record s { tx_sent = sent; fd = port }) p

-- `if (st->phase == 1)`
unfoldable pub settle_phase : Clock → Txrx → Outcome
settle_phase c s =
    if ltb c.waited s.settle_until
    then ret need_time s
    else next (record s { phase = reading_head })

-- The tests on a header of four bytes.
pub check_head : Txrx → Outcome
unfolding fail
check_head s =
    let len = get_or s.rx_head 3 0 in
    if not (get_or s.rx_head 0 0 == soi)
    then fail s (bad_soi (get_or s.rx_head 0 0))
    else if not (get_or s.rx_head 1 0 == s.addr)
    then fail s (wrong_addr (get_or s.rx_head 1 0) s.addr)
    else if not (get_or s.rx_head 2 0 == s.cmd)
    then fail s (wrong_cmd (get_or s.rx_head 2 0) s.cmd)
    else if ltb frame_max (len + 6)
    then fail s (frame_too_large len)
    else next (record s { rx_tail_need = len + 2; phase = reading_tail })

after_head : Txrx → Progress → Outcome
unfolding check_head
after_head s full = check_head s
after_head s blocked = ret need_read s
after_head s failed = fail s read_head_failed

-- `if (st->phase == 2)`
unfoldable pub head_phase : Txrx → Outcome
unfolding after_head
head_phase s =
    let (p, got, evs) = read_loop 4 s.rx_head s.fd.reads in
    after_head (record s { rx_head = got; fd = record (s.fd) { reads = evs } }) p

-- The tests on the payload, its checksum and the end mark.
pub check_tail : Txrx → Outcome
unfolding fail
check_tail s =
    let body_len = s.rx_tail_need - 2 in
    let want = check (s.rx_head ++ take body_len s.rx_tail) in
    if not (get_or s.rx_tail body_len 0 == want)
    then fail s (bad_check (get_or s.rx_tail body_len 0) want)
    else if not (get_or s.rx_tail (body_len + 1) 0 == eoi)
    then fail s (bad_eoi (get_or s.rx_tail (body_len + 1) 0))
    else ret done (record s { body = take body_len s.rx_tail; phase = complete })

after_tail : Txrx → Progress → Outcome
unfolding check_tail
after_tail s full = check_tail s
after_tail s blocked = ret need_read s
after_tail s failed = fail s read_body_failed

-- `if (st->phase == 3)`
unfoldable pub tail_phase : Txrx → Outcome
unfolding after_tail
tail_phase s =
    let (p, got, evs) = read_loop s.rx_tail_need s.rx_tail s.fd.reads in
    after_tail (record s { rx_tail = got; fd = record (s.fd) { reads = evs } }) p

-- The blocks in a row: a call enters at its phase and falls through the later ones.
unfoldable pub run_phase : Phase → Clock → Txrx → Outcome
run_phase refused c s = ret error s
run_phase writing c s =
    write_phase c s >>= λ t. settle_phase c t >>= λ u. head_phase u >>= tail_phase
run_phase settling c s = settle_phase c s >>= λ u. head_phase u >>= tail_phase
run_phase reading_head c s = head_phase s >>= tail_phase
run_phase reading_tail c s = tail_phase s
run_phase complete c s = ret done s

late : Clock → Txrx → Outcome → Outcome
late c s on_time =
    if ltb s.deadline c.entry
    then ret timeout (record s { err = some (timed_out s.phase) })
    else on_time

-- `bms_txrx_step`: a refused request fails before the deadline is looked at.
step_in : Phase → Clock → Txrx → Outcome
unfolding run_phase late
step_in refused c s = ret error s
step_in p c s = late c s (run_phase p c s)

unfoldable pub step : Clock → Txrx → Outcome
unfolding step_in
step c s = step_in s.phase c s

-- The loop of the caller: it calls again while a call says that it must wait. `next s` says that
-- the calls ran out before the request was over.
wait_again : Io → Txrx → Outcome → Outcome
wait_again need_read s later = later
wait_again need_write s later = later
wait_again need_time s later = later
wait_again io s later = ret io s

after_step : Outcome → (Txrx → Outcome) → Outcome
unfolding wait_again
after_step (ret io s) later = wait_again io s (later s)
after_step (next s) later = later s

unfoldable pub drive : List Clock → Txrx → Outcome
unfolding after_step
drive [] s = next s
drive (c ∷ cs) s = after_step (step c s) (λ t. drive cs t)
