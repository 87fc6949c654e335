-- ===== src/Xd/Txrx/Sound.antt =====
-- A request that ends with `done` has read exactly one well-formed reply.
use moon_flare.Xd.Frame.{build_frame}
use moon_flare.Xd.Txrx.{
  Port, Txrx, Phase, refused, writing, settling, reading_head, reading_tail, complete, Io, done,
  Clock, Outcome, ret, next, ◌>>=◌, write_phase, settle_phase, head_phase, tail_phase, run_phase,
  late, step_in, step, drive, after_step, init, Fault, timed_out, need_read, need_write, need_time,
  timeout, error,
}
use moon_flare.Xd.Txrx.Loops.{pending}
use moon_flare.Prelude.{
  ℕ, ◌<◌, ◌≡◌, subst, refl, List, [], ◌∷◌, ◌++◌, arith, length, append_assoc, Bytes, AreBytes,
  Bool-cases, Option, some, ltb, inl, inr,
}
use moon_flare.Xd.Txrx.Blocks.{
  stream, PhaseInv, Keeps, Ends, Ends-trans, write_phase-Ends, settle_phase-Ends, head_phase-Ends,
  tail_phase-Ends,
}

Keeps-refl : (s : Txrx) → PhaseInv s.phase s → Keeps s s
Keeps-refl s h = record { same_addr = refl; same_cmd = refl; same_stream = refl; inv = h }

bind-Ends :
    (p q : Phase) (s : Txrx) (o : Outcome) (f : Txrx → Outcome)
    → Ends p s o
    → ((t : Txrx) → Keeps s t → t.phase ≡ p → Ends q t (f t))
    → Ends q s (o >>= f)
bind-Ends p q s (ret io t) f e k = e
bind-Ends p q s (next t) f e k = Ends-trans q s t (f t) e.0 (k t e.0 e.1)

from_head :
    (s : Txrx)
    → AreBytes (stream s)
    → s.phase ≡ reading_head
    → PhaseInv reading_head s
    → Ends complete s (head_phase s >>= tail_phase)
from_head s b p h =
    bind-Ends reading_tail complete s (head_phase s) tail_phase (head_phase-Ends s b p h)
      (λ t k e. tail_phase-Ends t e (subst (λ q. PhaseInv q t) e k.inv))

from_settle :
    (c : Clock) (s : Txrx)
    → AreBytes (stream s)
    → s.phase ≡ settling
    → PhaseInv settling s
    → Ends complete s (settle_phase c s >>= λ t. head_phase t >>= tail_phase)
from_settle c s b p h =
    bind-Ends reading_head complete s (settle_phase c s) _ (settle_phase-Ends c s p h)
      (λ t k e. from_head t (rw k.same_stream b) e (subst (λ q. PhaseInv q t) e k.inv))

from_write :
    (c : Clock) (s : Txrx)
    → AreBytes (stream s)
    → s.phase ≡ writing
    → PhaseInv writing s
    → Ends complete s
        (write_phase c s >>= λ r. settle_phase c r >>= λ t. head_phase t >>= tail_phase)
from_write c s b p h =
    bind-Ends settling complete s (write_phase c s) _ (write_phase-Ends c s p h)
      (λ t k e. from_settle c t (rw k.same_stream b) e (subst (λ q. PhaseInv q t) e k.inv))

run_phase-Ends :
    (p : Phase) (c : Clock) (s : Txrx)
    → AreBytes (stream s)
    → s.phase ≡ p
    → PhaseInv p s
    → Ends complete s (run_phase p c s)
unfolding run_phase
run_phase-Ends refused c s b e h = (Keeps-refl s (rw e h), λ d. cc)
run_phase-Ends writing c s b e h = from_write c s b e h
run_phase-Ends settling c s b e h = from_settle c s b e h
run_phase-Ends reading_head c s b e h = from_head s b e h
run_phase-Ends reading_tail c s b e h = tail_phase-Ends s e h
run_phase-Ends complete c s b e h = (Keeps-refl s (rw e h), λ d. e)

PhaseInv-err :
    (p : Phase) (s : Txrx) (f : Option Fault) → PhaseInv p s → PhaseInv p (record s { err = f })
PhaseInv-err refused s f h = h
PhaseInv-err writing s f h = h
PhaseInv-err settling s f h = h
PhaseInv-err reading_head s f h = h
PhaseInv-err reading_tail s f h = h
PhaseInv-err complete s f h = h

late-Ends :
    (c : Clock) (s : Txrx) (o : Outcome)
    → PhaseInv s.phase s
    → Ends complete s o
    → Ends complete s (late c s o)
unfolding late
late-Ends c s o h e = elim (Bool-cases (ltb s.deadline c.entry)) [
  | inl l ↦ rw l (
    record {
      same_addr = refl;
      same_cmd = refl;
      same_stream = refl;
      inv = PhaseInv-err s.phase s (some (timed_out s.phase)) h;
    },
    λ d. cc,
  )
  | inr l ↦ rw l e
]

step_in-Ends :
    (p : Phase) (c : Clock) (s : Txrx)
    → AreBytes (stream s)
    → s.phase ≡ p
    → PhaseInv s.phase s
    → Ends complete s (step_in p c s)
unfolding step_in
step_in-Ends refused c s b e h = (Keeps-refl s h, λ d. cc)
step_in-Ends p c s b e h =
    late-Ends c s (run_phase p c s) h (run_phase-Ends p c s b e (subst (λ q. PhaseInv q s) e h))

-- One call keeps the invariant and the bytes of the line.
pub step-Ends :
    (c : Clock) (s : Txrx) → AreBytes (stream s) → PhaseInv s.phase s → Ends complete s (step c s)
unfolding step
step-Ends c s b h = step_in-Ends s.phase c s b refl h

Keeps-trans : (s t u : Txrx) → Keeps s t → Keeps t u → Keeps s u
Keeps-trans s t u k l = ground arith

abbrev Finishes : List Clock → Txrx → Type 0
Finishes cs t =
    (u : Txrx)
    → AreBytes (stream u)
    → PhaseInv u.phase u
    → drive cs u ≡ ret done t
    → Keeps u t × (t.phase ≡ complete)

-- After a wait the later calls finish the request.
resume :
    (cs : List Clock) (s t u : Txrx)
    → Finishes cs t
    → AreBytes (stream s)
    → Keeps s u
    → drive cs u ≡ ret done t
    → Keeps s t × (t.phase ≡ complete)
resume cs s t u fin b k e =
    let r = fin u (rw k.same_stream b) k.inv e in (Keeps-trans s u t k r.0, r.1)

ret-injective :
    (s t u : Txrx) (io : Io)
    → Keeps s u × (io ≡ done → u.phase ≡ complete)
    → ret io u ≡ ret done t
    → Keeps s t × (t.phase ≡ complete)
ret-injective s t u io k e = ground arith

after_step-Keeps :
    (cs : List Clock) (s t : Txrx) (o : Outcome)
    → Finishes cs t
    → AreBytes (stream s)
    → Ends complete s o
    → after_step o (λ u. drive cs u) ≡ ret done t
    → Keeps s t × (t.phase ≡ complete)
unfolding after_step
after_step-Keeps cs s t (next u) fin b k e = resume cs s t u fin b k.0 e
after_step-Keeps cs s t (ret need_read u) fin b k e = resume cs s t u fin b k.0 e
after_step-Keeps cs s t (ret need_write u) fin b k e = resume cs s t u fin b k.0 e
after_step-Keeps cs s t (ret need_time u) fin b k e = resume cs s t u fin b k.0 e
after_step-Keeps cs s t (ret done u) fin b k e = ret-injective s t u done k e
after_step-Keeps cs s t (ret timeout u) fin b k e = ret-injective s t u timeout k e
after_step-Keeps cs s t (ret error u) fin b k e = ret-injective s t u error k e

drive-Keeps : (cs : List Clock) (t : Txrx) → Finishes cs t
unfolding drive
drive-Keeps [] t s b h e = cc
drive-Keeps (c ∷ cs) t s b h e =
    after_step-Keeps cs s t (step c s) (drive-Keeps cs t) b (step-Ends c s b h) e

record Starts (fd : Port) (addr cmd : ℕ) (s : Txrx) : Type 0 where
  start_stream : stream s ≡ pending fd.reads
  start_addr : s.addr ≡ addr
  start_cmd : s.cmd ≡ cmd
  start_inv : PhaseInv s.phase s

init-Starts :
    (fd : Port) (addr cmd : ℕ) (payload : Bytes) (now wait settle : ℕ)
    → Starts fd addr cmd (init fd addr cmd payload now wait settle)
unfolding init
init-Starts fd addr cmd payload now wait settle = elim (Bool-cases (ltb 0xff (length payload))) [
  | inl long ↦
      rw long (record { start_stream = refl; start_addr = refl; start_cmd = refl; start_inv = tt })
  | inr short ↦ rw short (record {
    start_stream = refl;
    start_addr = refl;
    start_cmd = refl;
    start_inv = (refl, refl);
  })
]

-- From a fresh request, whatever the calls meet: when one of them returns `done`, what has been
-- taken off the line is exactly the frame that `bms_build_frame` makes of the request's address,
-- its command and the payload in `body`, which has at most 255 bytes.
pub drive_sound :
    (cs : List Clock) (fd : Port) (addr cmd : ℕ) (payload : Bytes) (now wait settle : ℕ) (t : Txrx)
    → AreBytes (pending fd.reads)
    → drive cs (init fd addr cmd payload now wait settle) ≡ ret done t
    → (pending fd.reads ≡ build_frame addr cmd t.body ++ pending t.fd.reads) × (length t.body < 256)
drive_sound cs fd addr cmd payload now wait settle t b e =
    let s = init fd addr cmd payload now wait settle in
    let i = init-Starts fd addr cmd payload now wait settle in
    let (k, d) = drive-Keeps cs t s (rw i.start_stream b) i.start_inv e in
    let f = subst (λ p. PhaseInv p t) d k.inv in
    ground (arith, append_assoc t.rx_head t.rx_tail (pending t.fd.reads), i, k, f)
