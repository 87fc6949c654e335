-- ===== src/Xd/Txrx/Reading.antt =====
-- The reading blocks of `bms_txrx_step` while a well-formed reply is on its way.
use moon_flare.Xd.Frame.{soi, eoi, check, build_frame}
use moon_flare.Xd.Frame.Laws.{length-build_frame}
use moon_flare.Xd.Txrx.{
  Txrx, reading_head, reading_tail, complete, done, need_read, Outcome, ret, next, Progress, full,
  blocked, failed, read_loop, check_head, after_head, head_phase, check_tail, after_tail,
  tail_phase,
}
use moon_flare.Xd.Txrx.Loops.{
  pending, waits, IsSteady, read_loop-pending, read_loop_fits, read_loop-IsSteady,
}
use moon_flare.Xd.Txrx.Blocks.{stream, PhaseInv}
use moon_flare.Prelude.{
  ℕ, ◌+◌, ◌%◌, ◌≤◌, ◌<◌, ◌≡◌, ◌≢◌, ◌⊎◌, inl, inr, refl, ap, [], ◌∷◌, ◌++◌, arith, length,
  take-append_left, get_or-append_right, length-append, append_cancel, Bytes,
}

-- The line holds the reply to `s` with this payload, and `rest` behind it.
abbrev pub Holds : Bytes → Bytes → Txrx → Type 0
Holds payload rest s =
    (stream s ≡ build_frame s.addr s.cmd payload ++ rest)
    × (length payload < 256)
    × IsSteady s.fd.reads

-- What a block may return while the reply is on its way.
abbrev pub Proceeds : Txrx → Outcome → Type 0
Proceeds s (ret done t) = Unit
Proceeds s (ret need_read t) =
    IsSteady t.fd.reads
    × (waits t.fd.reads < waits s.fd.reads)
    × (t.deadline ≡ s.deadline)
    × ((t.phase ≡ reading_head) ⊎ (t.phase ≡ reading_tail))
Proceeds s (ret io t) = ⊥
Proceeds s (next t) =
    IsSteady t.fd.reads × (waits t.fd.reads ≤ waits s.fd.reads) × (t.deadline ≡ s.deadline)

module _ (s : Txrx) (payload rest : Bytes) (small : length payload < 256) where
  check_head-next :
      length s.rx_head ≡ 4
      → stream s ≡ build_frame s.addr s.cmd payload ++ rest
      → check_head s ≡ next (record s { rx_tail_need = length payload + 2; phase = reading_tail })
  unfolding check_head build_frame
  check_head-next l e =
      let h =
        (append_cancel s.rx_head (soi ∷ s.addr ∷ s.cmd ∷ (length payload % 256) ∷ []) l e).0 in
      ground (arith, h)

  abbrev sum : ℕ
  sum = check (soi ∷ s.addr ∷ s.cmd ∷ (length payload % 256) ∷ payload)

  need-eq :
      PhaseInv reading_tail s
      → stream s ≡ build_frame s.addr s.cmd payload ++ rest
      → s.rx_tail_need ≡ length payload + 2
  unfolding build_frame
  need-eq i e = ground arith

  tail-eq :
      PhaseInv reading_tail s
      → length s.rx_tail ≡ s.rx_tail_need
      → stream s ≡ build_frame s.addr s.cmd payload ++ rest
      → s.rx_tail ≡ payload ++ (sum ∷ eoi ∷ [])
  unfolding build_frame
  tail-eq i l e =
      (append_cancel s.rx_tail (payload ++ (sum ∷ eoi ∷ [])) {us = pending s.fd.reads} {vs = rest}
        (omega (arith, need-eq i e, length-append payload (sum ∷ eoi ∷ []))) (ground arith)).0

  check_tail-done :
      PhaseInv reading_tail s
      → length s.rx_tail ≡ s.rx_tail_need
      → stream s ≡ build_frame s.addr s.cmd payload ++ rest
      → check_tail s ≡ ret done (record s { body = payload; phase = complete })
  unfolding check_tail
  check_tail-done i l e = ground (
    arith,
    need-eq i e,
    tail-eq i l e,
    take-append_left payload (sum ∷ eoi ∷ []),
    get_or-append_right payload (sum ∷ eoi ∷ []) 0 0,
    get_or-append_right payload (sum ∷ eoi ∷ []) 1 0,
  )

-- The blocks after their loop, from `s`, in the state `t` that the loop left.
module _ (s t : Txrx) (payload rest : Bytes) (h : Holds payload rest t) where
  abbrev Progressed : Progress → Type 0
  Progressed p =
      (p ≢ failed)
      × (waits t.fd.reads ≤ waits s.fd.reads)
      × (p ≡ blocked → waits t.fd.reads < waits s.fd.reads)

  after_head-Proceeds :
      (p : Progress)
      → t.phase ≡ reading_head
      → t.deadline ≡ s.deadline
      → (p ≡ full → length t.rx_head ≡ 4)
      → Progressed p
      → Proceeds s (after_head t p)
  unfolding after_head
  after_head-Proceeds full e d l g =
      rw (check_head-next t payload rest h.1 (l refl) h.0) (h.2, g.1, d)
  after_head-Proceeds blocked e d l g = (h.2, g.2 refl, d, inl e)
  after_head-Proceeds failed e d l g = absurd (g.0 refl)

  after_tail-Proceeds :
      (p : Progress)
      → t.phase ≡ reading_tail
      → t.deadline ≡ s.deadline
      → PhaseInv reading_tail t
      → (p ≡ full → length t.rx_tail ≡ t.rx_tail_need)
      → Progressed p
      → Proceeds s (after_tail t p)
  unfolding after_tail
  after_tail-Proceeds full e d i l g = rw (check_tail-done t payload rest h.1 i (l refl) h.0) tt
  after_tail-Proceeds blocked e d i l g = (h.2, g.2 refl, d, inr e)
  after_tail-Proceeds failed e d i l g = absurd (g.0 refl)

module _ (s : Txrx) (payload rest : Bytes) (h : Holds payload rest s) where
  stream_length :
      length s.rx_head + length s.rx_tail + length (pending s.fd.reads)
      ≡ length payload + 6 + length rest
  stream_length = omega (
    arith,
    ap length h.0,
    length-append s.rx_head (s.rx_tail ++ pending s.fd.reads),
    length-append s.rx_tail (pending s.fd.reads),
    length-append (build_frame s.addr s.cmd payload) rest,
    length-build_frame s.addr s.cmd payload,
  )

  pub head_phase-Proceeds :
      s.phase ≡ reading_head → PhaseInv reading_head s → Proceeds s (head_phase s)
  unfolding head_phase
  head_phase-Proceeds p i =
      let (r0, r1, r2) = read_loop 4 s.rx_head s.fd.reads in
      let t = record s { rx_head = r1; fd = record (s.fd) { reads = r2 } } in
      let steady = read_loop-IsSteady 4 s.rx_head s.fd.reads h.2 in
      let fits = read_loop_fits 4 s.rx_head s.fd.reads i.0 in
      let keep = read_loop-pending 4 s.rx_head s.fd.reads in
      after_head-Proceeds s t payload rest (ground arith, h.1, steady.1) r0 p refl fits.1
        (steady.0, steady.2, λ b. steady.3 b (omega (arith, stream_length, ap length i.1)))

  pub tail_phase-Proceeds :
      s.phase ≡ reading_tail → PhaseInv reading_tail s → Proceeds s (tail_phase s)
  unfolding tail_phase
  tail_phase-Proceeds p i =
      let (r0, r1, r2) = read_loop s.rx_tail_need s.rx_tail s.fd.reads in
      let t = record s { rx_tail = r1; fd = record (s.fd) { reads = r2 } } in
      let steady = read_loop-IsSteady s.rx_tail_need s.rx_tail s.fd.reads h.2 in
      let fits = read_loop_fits s.rx_tail_need s.rx_tail s.fd.reads i.3 in
      let keep = read_loop-pending s.rx_tail_need s.rx_tail s.fd.reads in
      after_tail-Proceeds s t payload rest (ground arith, h.1, steady.1) r0 p refl
        (i.0, i.1, i.2, fits.0) fits.1
        (
          steady.0,
          steady.2,
          λ b.
              steady.3 b
                (omega (arith, stream_length, need-eq s payload rest h.1 i h.0, ap length i.0)),
        )
