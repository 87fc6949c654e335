-- ===== src/Magnum/Framer/Idle.antt =====
-- `mag_frame_idle`: what becomes of the bytes that wait when the bus goes quiet.
use moon_flare.Magnum.Packet.{unknown, is_unknown}
use moon_flare.Magnum.Framer.{
  Framer, Packet, is_hunting, bad_packet, count_unknown, deliver, emit, held_drop, settle, idle,
}
use moon_flare.Magnum.Framer.Thins.{payload, payload-append}
use moon_flare.Magnum.Framer.Emit.{
  noise, AreSound-append, WellFormed, sent, held_drop-Emits, held-held_drop, emit-Emits,
}
use moon_flare.Magnum.Framer.Process.{stream}
use moon_flare.Prelude.{
  ◌≡◌, refl, sym, ◌∙◌, [], ◌∷◌, ◌++◌, Bool, true, false, ◌&&◌, ◌||◌, not, length, append-nil, Bytes,
  arith, if_elim, ◌==◌, if◌then◌else◌,
}

pub record Idles (f g : Framer) (after : Bytes) : Type 0 where
  pub wf : WellFormed g
  pub nothing_waits : g.buf ≡ []
  pub order : sent g ≡ after

-- The buffer goes out as it is.
settled :
    (f g : Framer)
    → g.buf ≡ f.buf
    → g.out ≡ f.out
    → g.held ≡ f.held
    → g.probing ≡ f.probing
    → WellFormed f
    → WellFormed g
settled f g b o h p wf = record {
  quiet = λ q. h ∙ wf.quiet (sym p ∙ q);
  few = rw h wf.few;
  delivered = rw o wf.delivered;
  holds = rw h wf.holds;
}

abbrev whole_buffer : Framer → Packet
whole_buffer f = record { kind = unknown; bytes = f.buf }

abbrev counted : Framer → Framer
counted f = count_unknown (length f.buf) (if is_hunting f.state then f else bad_packet f)

same-counted :
    (f : Framer)
    → ((counted f).buf ≡ f.buf)
      × ((counted f).out ≡ f.out)
      × ((counted f).held ≡ f.held)
      × ((counted f).probing ≡ f.probing)
unfolding count_unknown bad_packet
same-counted f =
    if_elim (λ g. (g.buf ≡ f.buf) × (g.out ≡ f.out) × (g.held ≡ f.held) × (g.probing ≡ f.probing))
      (is_hunting f.state) f (bad_packet f) (λ h. (refl, refl, refl, refl))
      (λ h. (refl, refl, refl, refl))

counted-WellFormed : (f : Framer) → WellFormed f → WellFormed (counted f)
counted-WellFormed f wf = let (b, o, h, p) = same-counted f in settled f (counted f) b o h p wf

-- With no inverter on probation, all goes out in order.
settle-Idles : (f : Framer) → WellFormed f → f.probing ≡ false → Idles f (settle f) (stream f)
unfolding settle
settle-Idles f wf h =
    let (b, o, k, p) = same-counted f in
    let r =
      emit-Emits (counted f) (whole_buffer f) (counted-WellFormed f wf) (λ e. p ∙ h)
        (noise f.buf) in
    record {
      wf = record {
        quiet = r.wf.quiet;
        few = r.wf.few;
        delivered = r.wf.delivered;
        holds = r.wf.holds;
      };
      nothing_waits = refl;
      order = r.adds ∙ rw (o, k) refl;
    }

probing-emit :
    (f : Framer) (bytes : Bytes)
    → emit f (record { kind = unknown; bytes = bytes })
      ≡ deliver f (record { kind = unknown; bytes = bytes })
unfolding emit
probing-emit f bytes =
    if_elim (λ g. g ≡ deliver f (record { kind = unknown; bytes = bytes }))
      (f.probing && not (is_unknown unknown)) _ _ (λ h. absurd (ground arith)) (λ h. refl)

-- With one, the bytes that wait overtake the packets held.
settle-overtakes :
    (f : Framer)
    → WellFormed f
    → f.probing ≡ true
    → Idles f (settle f) ((payload f.out ++ f.buf) ++ payload f.held)
unfolding settle deliver
settle-overtakes f wf h =
    let (b, o, k, p) = same-counted f in
    let w = counted-WellFormed f wf in
    rw (probing-emit (counted f) f.buf) (record {
      wf = record {
        quiet = w.quiet;
        few = w.few;
        delivered =
            AreSound-append (counted f).out (whole_buffer f ∷ []) w.delivered (noise f.buf, tt);
        holds = w.holds;
      };
      nothing_waits = refl;
      order = rw (o, k, payload-append f.out (whole_buffer f ∷ []), append-nil f.buf) refl;
    })

length-zero : (xs : Bytes) → (length xs == 0) ≡ true → xs ≡ []
length-zero [] h = refl
length-zero (x ∷ xs) h = absurd (ground arith)

-- Settling only when bytes wait.
settle-if :
    (f : Framer) (after : Bytes)
    → WellFormed f
    → Idles f (settle f) after
    → (f.buf ≡ [] → sent f ≡ after)
    → Idles f (if length f.buf == 0 || not true then f else settle f) after
settle-if f after wf r h =
    if_elim (λ g. Idles f g after) (length f.buf == 0 || not true) f (settle f)
      (λ z.
        let e = length-zero f.buf (ground arith) in
        record { wf = wf; nothing_waits = e; order = h e })
      (λ z. r)

stream-nil : (f : Framer) → f.buf ≡ [] → sent f ≡ stream f
stream-nil f e = rw (e, append-nil (sent f)) refl

over-nil : (f : Framer) → f.buf ≡ [] → sent f ≡ (payload f.out ++ f.buf) ++ payload f.held
over-nil f e = rw (e, append-nil (payload f.out)) refl

-- A probe whose time is not over stays.
still :
    (f : Framer) (after : Bytes)
    → Idles f (if length f.buf == 0 || not true then f else settle f) after
    → Idles f (idle false true f) after
unfolding idle
still f after r =
    if_elim (λ g. Idles f (if length g.buf == 0 || not true then g else settle g) after)
      (f.probing && false) (held_drop f) f (λ h. absurd (ground arith)) (λ h. r)

settle-dropped :
    (f : Framer)
    → WellFormed f
    → Idles f
        (if length (held_drop f).buf == 0 || not true then held_drop f else settle (held_drop f))
        (stream f)
settle-dropped f wf =
    let g = held_drop f in
    let d = held_drop-Emits f wf.delivered in
    let e : stream g ≡ stream f = rw (d.adds, d.buf, append-nil (sent f)) refl in
    let r = settle-Idles g d.wf ((held-held_drop f).1) in
    let s = settle-if g (stream g) d.wf r (stream-nil g) in
    record { wf = s.wf; nothing_waits = s.nothing_waits; order = s.order ∙ e }

-- When the bus has been quiet, `mag_frame_idle` on a well-formed framer leaves no byte waiting, and
-- loses none. The bytes
-- that waited go out behind all others. Only if an inverter is on probation and its time is not
-- over, they go out before the packets held, which came first on the bus.
pub idle-Idles :
    (f : Framer) (probe_over : Bool)
    → WellFormed f
    → Idles f (idle probe_over true f) (
        if f.probing && not probe_over
        then (payload f.out ++ f.buf) ++ payload f.held
        else stream f)
unfolding idle
idle-Idles f true wf =
    if_elim (λ q. Idles f (idle true true f) q) (f.probing && not true) _ (stream f)
      (λ h. absurd (ground arith))
      (λ h.
        if_elim (λ g. Idles f (if length g.buf == 0 || not true then g else settle g) (stream f))
          (f.probing && true) (held_drop f) f (λ k. settle-dropped f wf)
          (λ k. settle-if f (stream f) wf (settle-Idles f wf (ground arith)) (stream-nil f)))
idle-Idles f false wf =
    if_elim (λ q. Idles f (idle false true f) q) (f.probing && not false)
      ((payload f.out ++ f.buf) ++ payload f.held) (stream f)
      (λ h. still f _ (settle-if f _ wf (settle-overtakes f wf (ground arith)) (over-nil f)))
      (λ h. still f _ (settle-if f _ wf (settle-Idles f wf (ground arith)) (stream-nil f)))
