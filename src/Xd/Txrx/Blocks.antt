-- ===== src/Xd/Txrx/Blocks.antt =====
-- The invariant of a request, and each block of `bms_txrx_step` against it.
use moon_flare.Xd.Frame.{soi, build_frame}
use moon_flare.Xd.Txrx.{
  Txrx, Phase, refused, writing, settling, reading_head, reading_tail, complete, done, Clock,
  Outcome, ret, next, Progress, full, blocked, failed, read_loop, fail, write_phase, settle_phase,
  check_head, after_head, after_tail, ReadEvent, head_phase, check_tail, tail_phase,
}
use moon_flare.Xd.Txrx.Loops.{pending, read_loop-pending, read_loop_fits}
use moon_flare.Prelude.{
  ℕ, zero, suc, ◌+◌, ◌-◌, ◌≤◌, ◌<◌, ◌≡◌, ◌≢◌, subst, refl, ap, List, [], ◌∷◌, ◌++◌, arith, length,
  take, get_or, length-take, Bytes, AreBytes,
}

-- All that has been read, and all that the line will still give.
abbrev pub stream : Txrx → Bytes
stream s = s.rx_head ++ (s.rx_tail ++ pending s.fd.reads)

-- What each phase knows of the buffers.
abbrev pub PhaseInv : Phase → Txrx → Type 0
PhaseInv refused s = Unit
PhaseInv writing s = (s.rx_head ≡ []) × (s.rx_tail ≡ [])
PhaseInv settling s = (s.rx_head ≡ []) × (s.rx_tail ≡ [])
PhaseInv reading_head s = (length s.rx_head ≤ 4) × (s.rx_tail ≡ [])
PhaseInv reading_tail s =
    (s.rx_head ≡ soi ∷ s.addr ∷ s.cmd ∷ (s.rx_tail_need - 2) ∷ [])
    × (2 ≤ s.rx_tail_need)
    × (s.rx_tail_need < 258)
    × (length s.rx_tail ≤ s.rx_tail_need)
PhaseInv complete s =
    (s.rx_head ++ s.rx_tail ≡ build_frame s.addr s.cmd s.body) × (length s.body < 256)

abbrev pub IsValid : Txrx → Type 0
IsValid s = AreBytes (stream s) × PhaseInv s.phase s

-- The request is the same one, and no byte of the line is lost.
pub record Keeps (s t : Txrx) : Type 0 where
  pub same_addr : t.addr ≡ s.addr
  pub same_cmd : t.cmd ≡ s.cmd
  pub same_stream : stream t ≡ stream s
  pub inv : PhaseInv t.phase t

-- A block that falls through leaves the next phase, and the last one never does.
abbrev pub Ends : Phase → Txrx → Outcome → Type 0
Ends p s (ret io t) = Keeps s t × (io ≡ done → t.phase ≡ complete)
Ends p s (next t) = Keeps s t × (t.phase ≡ p) × (p ≢ complete)

get_or-byte : (xs : Bytes) (i : ℕ) → AreBytes xs → get_or xs i 0 < 256
get_or-byte [] i h = omega arith
get_or-byte (x ∷ xs) zero h = h.0
get_or-byte (x ∷ xs) (suc i) h = get_or-byte xs i h.1

AreBytes-append_left : (xs ys : Bytes) → AreBytes (xs ++ ys) → AreBytes xs
AreBytes-append_left [] ys h = tt
AreBytes-append_left (x ∷ xs) ys h = (h.0, AreBytes-append_left xs ys h.1)

four :
    (xs : Bytes)
    → length xs ≡ 4
    → xs ≡ get_or xs 0 0 ∷ get_or xs 1 0 ∷ get_or xs 2 0 ∷ get_or xs 3 0 ∷ []
four [] h = absurd (omega arith)
four (a ∷ []) h = absurd (omega arith)
four (a ∷ b ∷ []) h = absurd (omega arith)
four (a ∷ b ∷ c ∷ []) h = absurd (omega arith)
four (a ∷ b ∷ c ∷ d ∷ []) h = refl
four (a ∷ b ∷ c ∷ d ∷ e ∷ xs) h = absurd (omega arith)

last_two :
    (n : ℕ) (xs : Bytes)
    → length xs ≡ n + 2
    → xs ≡ take n xs ++ (get_or xs n 0 ∷ get_or xs (n + 1) 0 ∷ [])
last_two zero [] h = absurd (omega arith)
last_two zero (a ∷ []) h = absurd (omega arith)
last_two zero (a ∷ b ∷ []) h = refl
last_two zero (a ∷ b ∷ c ∷ xs) h = absurd (omega arith)
last_two (suc n) [] h = absurd (omega arith)
last_two (suc n) (x ∷ xs) h =
    let e : suc n + 1 ≡ suc (n + 1) = omega arith in rw e (ap (◌∷◌ x) (last_two n xs (omega arith)))

module _ (c : Clock) (s : Txrx) where
  pub write_phase-Ends : s.phase ≡ writing → PhaseInv writing s → Ends settling s (write_phase c s)
  unfolding write_phase fail
  write_phase-Ends p h = ground arith

  pub settle_phase-Ends :
      s.phase ≡ settling → PhaseInv settling s → Ends reading_head s (settle_phase c s)
  unfolding settle_phase
  settle_phase-Ends p h = ground arith

module _ (s : Txrx) where
  check_head-Ends :
      s.phase ≡ reading_head
      → length s.rx_head ≡ 4
      → s.rx_tail ≡ []
      → get_or s.rx_head 3 0 < 256
      → Ends reading_tail s (check_head s)
  unfolding check_head
  check_head-Ends p h e b = ground (arith, four s.rx_head)

  check_tail-Ends :
      s.phase ≡ reading_tail
      → PhaseInv reading_tail s
      → length s.rx_tail ≡ s.rx_tail_need
      → Ends complete s (check_tail s)
  unfolding check_tail build_frame
  check_tail-Ends p h e =
      ground
        (arith, last_two (s.rx_tail_need - 2) s.rx_tail, length-take (s.rx_tail_need - 2) s.rx_tail)

pub Ends-trans : (p : Phase) (s t : Txrx) (o : Outcome) → Keeps s t → Ends p t o → Ends p s o
Ends-trans p s t (ret io u) k e = ground arith
Ends-trans p s t (next u) k e = ground arith

after_head-Ends :
    (s : Txrx) (p : Progress)
    → s.phase ≡ reading_head
    → length s.rx_head ≤ 4
    → (p ≡ full → length s.rx_head ≡ 4)
    → s.rx_tail ≡ []
    → get_or s.rx_head 3 0 < 256
    → Ends reading_tail s (after_head s p)
unfolding after_head fail
after_head-Ends s full p l f e b = check_head-Ends s p (f refl) e b
after_head-Ends s blocked p l f e b = ground arith
after_head-Ends s failed p l f e b = ground arith

after_tail-Ends :
    (s : Txrx) (p : Progress)
    → s.phase ≡ reading_tail
    → PhaseInv reading_tail s
    → (p ≡ full → length s.rx_tail ≡ s.rx_tail_need)
    → Ends complete s (after_tail s p)
unfolding after_tail fail
after_tail-Ends s full p h f = check_tail-Ends s p h (f refl)
after_tail-Ends s blocked p h f = ground arith
after_tail-Ends s failed p h f = ground arith

pub head_phase-Ends :
    (s : Txrx)
    → AreBytes (stream s)
    → s.phase ≡ reading_head
    → PhaseInv reading_head s
    → Ends reading_tail s (head_phase s)
unfolding head_phase
head_phase-Ends s b p h = Ends-trans reading_tail s t _ k (
    after_head-Ends t r.0 p (subst (λ q. PhaseInv q t) p k.inv).0 fits.1 h.1
      (get_or-byte r.1 3 (AreBytes-append_left r.1 _ bytes)))
  where
    r : Progress × Bytes × List ReadEvent
    r = read_loop 4 s.rx_head s.fd.reads

    t : Txrx
    t = record s { rx_head = r.1; fd = record (s.fd) { reads = r.2 } }

    fits : (length r.1 ≤ 4) × (r.0 ≡ full → length r.1 ≡ 4) × (r.0 ≢ full → length r.1 < 4)
    fits = read_loop_fits 4 s.rx_head s.fd.reads h.0

    k : Keeps s t
    k = ground (arith, read_loop-pending 4 s.rx_head s.fd.reads, fits)

    bytes : AreBytes (stream t)
    bytes = rw k.same_stream b

pub tail_phase-Ends :
    (s : Txrx) → s.phase ≡ reading_tail → PhaseInv reading_tail s → Ends complete s (tail_phase s)
unfolding tail_phase
tail_phase-Ends s p h =
    Ends-trans complete s t _ k (after_tail-Ends t r.0 p (subst (λ q. PhaseInv q t) p k.inv) fits.1)
  where
    r : Progress × Bytes × List ReadEvent
    r = read_loop s.rx_tail_need s.rx_tail s.fd.reads

    t : Txrx
    t = record s { rx_tail = r.1; fd = record (s.fd) { reads = r.2 } }

    fits :
        (length r.1 ≤ s.rx_tail_need)
        × (r.0 ≡ full → length r.1 ≡ s.rx_tail_need)
        × (r.0 ≢ full → length r.1 < s.rx_tail_need)
    fits = read_loop_fits s.rx_tail_need s.rx_tail s.fd.reads h.3

    k : Keeps s t
    k = ground (arith, read_loop-pending s.rx_tail_need s.rx_tail s.fd.reads, fits)
