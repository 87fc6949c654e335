-- ===== src/Xd/Txrx/Deliver.antt =====
-- A reply that arrives in time is accepted, however the line cuts it into pieces.
use moon_flare.Xd.Frame.{build_frame}
use moon_flare.Xd.Frame.Laws.{build_frame-injective}
use moon_flare.Xd.Txrx.{
  Txrx, Phase, reading_head, reading_tail, complete, done, need_read, Clock, Outcome, ret, next,
  ◌>>=◌, head_phase, tail_phase, run_phase, late, step_in, step, need_write, need_time, timeout,
  error, after_step, drive,
}
use moon_flare.Xd.Txrx.Loops.{pending, waits, IsSteady}
use moon_flare.Xd.Txrx.Blocks.{stream, PhaseInv, Keeps, Ends, head_phase-Ends}
use moon_flare.Xd.Txrx.Sound.{step-Ends}
use moon_flare.Prelude.{
  ◌+◌, ◌≤◌, ◌<◌, ◌≡◌, ◌⊎◌, inl, inr, subst, refl, ap, ◌∙◌, List, [], ◌∷◌, ◌++◌, arith, length,
  append_assoc, Bytes, All, AreBytes,
}
use moon_flare.Xd.Txrx.Reading.{Holds, Proceeds, head_phase-Proceeds, tail_phase-Proceeds}

bind-Proceeds :
    (p : Phase) (s : Txrx) (o : Outcome) (f : Txrx → Outcome)
    → Ends p s o
    → Proceeds s o
    → ((t : Txrx) → Keeps s t → t.phase ≡ p → IsSteady t.fd.reads → Proceeds t (f t))
    → Proceeds s (o >>= f)
bind-Proceeds p s (ret io t) f e k g = k
bind-Proceeds p s (next t) f e k g = relax s t (f t) k (g t e.0 e.1 k.0)
  where
    relax : (s t : Txrx) (o : Outcome) → Proceeds s (next t) → Proceeds t o → Proceeds s o
    relax s t (ret done u) k g = tt
    relax s t (ret need_read u) k g = ground arith
    relax s t (ret need_write u) k g = g
    relax s t (ret need_time u) k g = g
    relax s t (ret timeout u) k g = g
    relax s t (ret error u) k g = g
    relax s t (next u) k g = ground arith

-- A request that has been sent and whose settle time is over, with its reply on the way.
abbrev pub IsReading : Txrx → Type 0
IsReading s = (s.phase ≡ reading_head) ⊎ (s.phase ≡ reading_tail)

step-on_time :
    (c : Clock) (s : Txrx) → IsReading s → c.entry ≤ s.deadline → step c s ≡ run_phase s.phase c s
unfolding step step_in late
step-on_time c s (inl p) d = ground arith
step-on_time c s (inr p) d = ground arith

module _ (payload rest : Bytes) where
  Keeps-Holds :
      (s t : Txrx) → Holds payload rest s → Keeps s t → IsSteady t.fd.reads → Holds payload rest t
  Keeps-Holds s t h k st = (k.same_stream ∙ h.0 ∙ rw (k.same_addr, k.same_cmd), h.1, st)

  run-Proceeds :
      (c : Clock) (s : Txrx)
      → Holds payload rest s
      → AreBytes (stream s)
      → PhaseInv s.phase s
      → IsReading s
      → Proceeds s (run_phase s.phase c s)
  unfolding run_phase
  run-Proceeds c s h b i (inl p) =
      let i' = subst (λ q. PhaseInv q s) p i in
      rw (ap (λ q. run_phase q c s) p) (
        bind-Proceeds reading_tail s (head_phase s) tail_phase (head_phase-Ends s b p i')
          (head_phase-Proceeds s payload rest h p i')
          (λ t k e st.
            tail_phase-Proceeds t payload rest (Keeps-Holds s t h k st) e
              (subst (λ q. PhaseInv q t) e k.inv)))
  run-Proceeds c s h b i (inr p) =
      rw (ap (λ q. run_phase q c s) p)
        (tail_phase-Proceeds s payload rest h p (subst (λ q. PhaseInv q s) p i))

  step-Proceeds :
      (c : Clock) (s : Txrx)
      → Holds payload rest s
      → AreBytes (stream s)
      → PhaseInv s.phase s
      → IsReading s
      → c.entry ≤ s.deadline
      → Proceeds s (step c s)
  step-Proceeds c s h b i p d = rw (step-on_time c s p d) (run-Proceeds c s h b i p)

  -- The request is finished by its payload.
  abbrev pub Delivers : Outcome → Type 0
  Delivers o = (t : Txrx) × (o ≡ ret done t) × (t.body ≡ payload) × (pending t.fd.reads ≡ rest)

  done-Delivers :
      (s t : Txrx) → Holds payload rest s → Keeps s t → t.phase ≡ complete → Delivers (ret done t)
  done-Delivers s t h k p =
      let i = subst (λ q. PhaseInv q t) p k.inv in
      let e : build_frame s.addr s.cmd t.body ++ pending t.fd.reads
          ≡ build_frame s.addr s.cmd payload ++ rest =
        ground (arith, k, i, h.0, append_assoc t.rx_head t.rx_tail (pending t.fd.reads)) in
      let r =
        build_frame-injective s.addr s.cmd s.addr s.cmd t.body payload (pending t.fd.reads) rest i.1
          h.1 e in
      (t, refl, r.2, r.3)

  abbrev WillDeliver : List Clock → Type 0
  WillDeliver cs =
      (s : Txrx)
      → Holds payload rest s
      → AreBytes (stream s)
      → PhaseInv s.phase s
      → IsReading s
      → All (λ c. c.entry ≤ s.deadline) cs
      → waits s.fd.reads < length cs
      → Delivers (drive cs s)

  after_step-Delivers :
      (cs : List Clock) (s : Txrx) (o : Outcome)
      → WillDeliver cs
      → Holds payload rest s
      → AreBytes (stream s)
      → All (λ c. c.entry ≤ s.deadline) cs
      → waits s.fd.reads < length cs + 1
      → Ends complete s o
      → Proceeds s o
      → Delivers (after_step o (λ t. drive cs t))
  unfolding after_step
  after_step-Delivers cs s (ret done t) will h b d w e p = done-Delivers s t h e.0 (e.1 refl)
  after_step-Delivers cs s (ret need_read t) will h b d w e p =
      will t (Keeps-Holds s t h e.0 p.0) (rw e.0.same_stream b) e.0.inv p.3 (rw p.2 d) (omega arith)
  after_step-Delivers cs s (ret need_write t) will h b d w e p = absurd p
  after_step-Delivers cs s (ret need_time t) will h b d w e p = absurd p
  after_step-Delivers cs s (ret timeout t) will h b d w e p = absurd p
  after_step-Delivers cs s (ret error t) will h b d w e p = absurd p
  after_step-Delivers cs s (next t) will h b d w e p = absurd (e.2 refl)

  drive-WillDeliver : (cs : List Clock) → WillDeliver cs
  unfolding drive
  drive-WillDeliver [] s h b i p d w = elim w [ ]
  drive-WillDeliver (c ∷ cs) s h b i p d w =
      after_step-Delivers cs s (step c s) (drive-WillDeliver cs) h b d.1 (omega arith)
        (step-Ends c s b i) (step-Proceeds c s h b i p d.0)

-- A reply is accepted however the line cuts it. From a request that is reading its reply, let the
-- line still give the frame of a payload for this address and command, with `rest` behind it, and
-- let no read fail. If every call enters before the deadline and there are more calls than reads
-- that find nothing, a call returns `done`, `body` is that payload, and `rest` is left on the line.
pub drive-Delivers :
    (payload rest : Bytes) (cs : List Clock) (s : Txrx)
    → Holds payload rest s
    → AreBytes (stream s)
    → PhaseInv s.phase s
    → IsReading s
    → All (λ c. c.entry ≤ s.deadline) cs
    → waits s.fd.reads < length cs
    → Delivers payload rest (drive cs s)
drive-Delivers payload rest cs s h b i p d w = drive-WillDeliver payload rest cs s h b i p d w
