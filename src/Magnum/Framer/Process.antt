-- ===== src/Magnum/Framer/Process.antt =====
-- The framer always ends its work on the bytes it has, and what it hands out are those bytes.
use moon_flare.Magnum.Framer.{
  Framer, is_hunting, Outcome, used, changed, step, consume, run, process, note, fill, feed,
  buf_size, init,
}
use moon_flare.Magnum.Framer.Thins.{Thins, Thins-trans, Thins-append, Thins-eq}
use moon_flare.Magnum.Framer.Emit.{WellFormed, sent}
use moon_flare.Magnum.Framer.Handlers.{Goes, step-Goes}
use moon_flare.Prelude.{
  ℕ, zero, suc, ◌+◌, ◌-◌, ◌*◌, ◌≤◌, ◌<◌, ◌≡◌, refl, subst, sym, ap, ap₂, ◌∙◌, [], ◌∷◌, ◌++◌, true,
  Option, some, length, length-drop, take, drop, take-append-drop, append_assoc, append-nil,
  drop_all, Bytes, arith, min, leb, ◌==◌, if_elim, if◌then◌else◌,
}

-- The bytes delivered, held and waiting, in order.
abbrev pub stream : Framer → Bytes
stream f = sent f ++ f.buf

pub record Settles (f g : Framer) : Type 0 where
  pub thins : Thins (stream f) (stream g)
  pub wf : WellFormed g
  pub short : length g.buf ≤ 21

abbrev weight : Framer → ℕ
weight f = if is_hunting f.state then 0 else 1

weight-small : (f : Framer) → weight f ≤ 1
weight-small f = ground arith

buf-consume : (f : Framer) (n : ℕ) → (consume f n).buf ≡ drop n f.buf
unfolding consume
buf-consume f n =
    if_elim (λ q. q ≡ drop n f.buf) (leb (length f.buf) n) [] (drop n f.buf)
      (λ h. sym (drop_all n f.buf (ground arith))) (λ h. refl)

sent-consume : (f : Framer) (n : ℕ) → sent (consume f n) ≡ sent f
unfolding consume
sent-consume f n = refl

consume-WellFormed : (f : Framer) (n : ℕ) → WellFormed f → WellFormed (consume f n)
unfolding consume
consume-WellFormed f n wf = record {
  quiet = wf.quiet;
  few = wf.few;
  delivered = wf.delivered;
  holds = wf.holds;
}

abbrev Ends : Framer → Option Framer → Type 0
Ends f o = (g : Framer) × (o ≡ some g) × Settles f g

changed-Ends : (f h : Framer) (o : Option Framer) → Goes f (changed h) → Ends h o → Ends f o
changed-Ends f h o (a, b, c, d, w) (g, e, r) = (
  g,
  e,
  record {
    thins = subst (λ q. Thins q (stream g)) (ap₂ ◌++◌ d c) r.thins;
    wf = r.wf;
    short = r.short;
  },
)

waits-Ends : (f h : Framer) → WellFormed f → Goes f (used 0 h) → Ends f (some h)
waits-Ends f h wf (a, b) = (
  h,
  refl,
  record { thins = Thins-eq (ap stream (sym a)); wf = subst WellFormed (sym a) wf; short = rw a b },
)

used-Ends :
    (f h : Framer) (n : ℕ) (o : Option Framer)
    → Goes f (used (suc n) h)
    → Ends (consume h (suc n)) o
    → Ends f o
used-Ends f h n o (a, b, w, t) (g, q, r) =
    let e = buf-consume h (suc n) ∙ ap (drop (suc n)) b in
    (
      g,
      q,
      record {
        thins =
            Thins-trans t
              (subst (λ q. Thins q (stream g)) (ap₂ ◌++◌ (sent-consume h (suc n)) e) r.thins);
        wf = r.wf;
        short = r.short;
      },
    )

-- What is left to do shrinks.
changed-less :
    (f h : Framer) → Goes f (changed h) → 2 * length h.buf + weight h < 2 * length f.buf + weight f
changed-less f h (a, b, c, d, w) = ground (arith, ap length c)

used-less :
    (f h : Framer) (n : ℕ)
    → Goes f (used (suc n) h)
    → (2 * length (consume h (suc n)).buf + weight (consume h (suc n))
        < 2 * length f.buf + weight f)
      × WellFormed (consume h (suc n))
used-less f h n (a, b, w, t) =
    let e = ap length (buf-consume h (suc n) ∙ ap (drop (suc n)) b) in
    (
      omega (arith, e, length-drop (suc n) f.buf, weight-small (consume h (suc n))),
      consume-WellFormed h (suc n) w,
    )

round-Ends :
    (fuel : ℕ) (f : Framer) (o : Outcome)
    → WellFormed f
    → Goes f o
    → 2 * length f.buf + weight f < suc fuel
    → ((g : Framer) → WellFormed g → 2 * length g.buf + weight g < fuel → Ends g (run fuel g))
    → Ends f (elim o [
      | changed g ↦ run fuel g
      | used zero g ↦ some g
      | used (suc n) g ↦ run fuel (consume g (suc n))
    ])
round-Ends fuel f (changed h) wf k l later =
    let less = changed-less f h k in changed-Ends f h (run fuel h) k (later h (k.4) (omega arith))
round-Ends fuel f (used zero h) wf k l later = waits-Ends f h wf k
round-Ends fuel f (used (suc n) h) wf k l later =
    let (less, w) = used-less f h n k in
    used-Ends f h n (run fuel (consume h (suc n))) k (later (consume h (suc n)) w (omega arith))

run-Ends :
    (fuel : ℕ) (f : Framer)
    → WellFormed f
    → 2 * length f.buf + weight f < fuel
    → Ends f (run fuel f)
unfolding run
run-Ends zero f wf l = absurd (omega arith)
run-Ends (suc fuel) f wf l =
    round-Ends fuel f (step f) wf (step-Goes f wf) l (λ g w m. run-Ends fuel g w m)

pub process-Settles :
    (f : Framer) → WellFormed f → (g : Framer) × (process f ≡ some g) × Settles f g
unfolding process
process-Settles f wf = run-Ends (2 * length f.buf + 2) f wf (omega (arith, weight-small f))

-- What a call with `data_in` makes of the framer.
pub record KeepsBytes (f : Framer) (data_in : Bytes) (g : Framer) : Type 0 where
  pub thins : Thins (stream f ++ data_in) (stream g)
  pub wf : WellFormed g
  pub short : length g.buf ≤ 21

append-WellFormed : (f : Framer) (buf : Bytes) → WellFormed f → WellFormed (record f { buf = buf })
append-WellFormed f buf wf = record {
  quiet = wf.quiet;
  few = wf.few;
  delivered = wf.delivered;
  holds = wf.holds;
}

-- The first part goes in, and the rest comes after it.
chunk-KeepsBytes :
    (f h g : Framer) (n : ℕ) (data_in : Bytes)
    → Settles (record f { buf = f.buf ++ take n data_in }) h
    → KeepsBytes h (drop n data_in) g
    → KeepsBytes f data_in g
chunk-KeepsBytes f h g n data_in s r =
    let e : (sent f ++ (f.buf ++ take n data_in)) ++ drop n data_in ≡ stream f ++ data_in = rw (
      append_assoc (sent f) (f.buf ++ take n data_in) (drop n data_in),
      append_assoc f.buf (take n data_in) (drop n data_in),
      take-append-drop n data_in,
      append_assoc (sent f) f.buf data_in,
    ) in
    record {
      thins =
          subst (λ q. Thins q (stream g)) e
            (Thins-trans (Thins-append (drop n data_in) s.thins) r.thins);
      wf = r.wf;
      short = r.short;
    }

no_more : (xs ys : Bytes) → (length ys == 0) ≡ true → xs ++ ys ≡ xs
no_more xs [] h = append-nil xs
no_more xs (y ∷ ys) h = absurd (ground arith)

fill-KeepsBytes :
    (fuel : ℕ) (f : Framer) (data_in : Bytes)
    → WellFormed f
    → length f.buf ≤ 21
    → length data_in < fuel
    → (g : Framer) × (fill fuel f data_in ≡ some g) × KeepsBytes f data_in g
unfolding fill
fill-KeepsBytes zero f data_in wf s l = absurd (omega arith)
fill-KeepsBytes (suc fuel) f data_in wf s l =
    let n = min (length data_in) (buf_size - length f.buf) in
    let (h, e, r) =
      process-Settles (record f { buf = f.buf ++ take n data_in })
        (append-WellFormed f (f.buf ++ take n data_in) wf) in
    if_elim (λ o. (g : Framer) × (o ≡ some g) × KeepsBytes f data_in g) (length data_in == 0)
      (some f) _
      (λ z.
        (f, refl, record { thins = Thins-eq (no_more (stream f) data_in z); wf = wf; short = s }))
      (λ z. rw e (
        let (g, q, t) =
          fill-KeepsBytes fuel h (drop n data_in) r.wf r.short
            (ground (arith, length-drop n data_in)) in
        (g, q, chunk-KeepsBytes f h g n data_in r t)))

-- On a well-formed framer where at most 21 bytes wait, `mag_frame_feed` ends, whatever the bytes,
-- and leaves such a framer. The bytes delivered, held and waiting are, in order, those that were
-- there and the new ones, except stray turnaround bytes (0xFF, 0xFE, 0xFC, 0xF8, 0xF0), which are
-- dropped. Well-formed: every packet delivered or held is what its type says (its length, the last
-- byte of an inverter's or a remote's packet, the first byte of a reply), at most four are held, and
-- none unless an inverter is on probation.
pub feed-KeepsBytes :
    (f : Framer) (data_in : Bytes)
    → WellFormed f
    → length f.buf ≤ 21
    → (g : Framer) × (feed f data_in ≡ some g) × KeepsBytes f data_in g
unfolding feed note
feed-KeepsBytes f data_in wf s =
    if_elim (λ o. (g : Framer) × (o ≡ some g) × KeepsBytes f data_in g) (length data_in == 0)
      (some f) _
      (λ z.
        (f, refl, record { thins = Thins-eq (no_more (stream f) data_in z); wf = wf; short = s }))
      (λ z.
        let h = note f data_in in
        let w : WellFormed h = record {
          quiet = wf.quiet;
          few = wf.few;
          delivered = wf.delivered;
          holds = wf.holds;
        } in
        let (g, e, r) = fill-KeepsBytes (suc (length data_in)) h data_in w s (omega arith) in
        (g, e, record { thins = r.thins; wf = r.wf; short = r.short }))

pub init-WellFormed : WellFormed init
init-WellFormed = record { quiet = λ q. refl; few = omega arith; delivered = tt; holds = tt }
