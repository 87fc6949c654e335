-- ===== src/Usb/Ring/Queue.antt =====
-- The ring is a queue of at most 16 events.
use moon_flare.Usb.Ring.{Event, Ring, ring_cap, no_event, enqueue, drain}
use moon_flare.Prelude.{
  ℕ, zero, suc, ◌+◌, ◌-◌, ◌%◌, ◌≤◌, ◌<◌, ◌≡◌, ◌≢◌, refl, ap, ap₂, ◌∙◌, List, [], ◌∷◌, ◌++◌, Bool,
  true, false, ◌&&◌, not, length, length-set, get_or, set, take, drop, arith, ltb, leb, ◌==◌,
  if_elim, if◌then◌else◌,
}

-- The events from slot `h` on, `n` of them.
abbrev pub events : List Event → ℕ → ℕ → List Event
events slots h zero = []
events slots h (suc n) = get_or slots h no_event ∷ events slots ((h + 1) % ring_cap) n

-- What the ring stands for.
abbrev pub queue : Ring → List Event
queue r = events r.slots r.rhead r.rcnt

pub record IsRing (r : Ring) : Type 0 where
  pub whole : length r.slots ≡ ring_cap
  pub inside : r.rhead < ring_cap
  pub fits : r.rcnt ≤ ring_cap

get_or-set_self :
    (xs : List Event) (i : ℕ) (v : Event) → i < length xs → get_or (set xs i v) i no_event ≡ v
get_or-set_self [] i v h = absurd (omega arith)
get_or-set_self (x ∷ xs) zero v h = refl
get_or-set_self (x ∷ xs) (suc i) v h = get_or-set_self xs i v (omega arith)

get_or-set_ne :
    (xs : List Event) (i j : ℕ) (v : Event)
    → i ≢ j
    → get_or (set xs i v) j no_event ≡ get_or xs j no_event
get_or-set_ne [] i j v h = refl
get_or-set_ne (x ∷ xs) zero zero v h = absurd (h refl)
get_or-set_ne (x ∷ xs) zero (suc j) v h = refl
get_or-set_ne (x ∷ xs) (suc i) zero v h = refl
get_or-set_ne (x ∷ xs) (suc i) (suc j) v h = get_or-set_ne xs i j v (λ e. h (ap suc e))

-- A write behind the events in use leaves them.
events-set :
    (slots : List Event) (h n k : ℕ) (v : Event)
    → h < ring_cap
    → n + k ≤ 15
    → events (set slots ((h + (n + k)) % ring_cap) v) h n ≡ events slots h n
events-set slots h zero k v l b = refl
events-set slots h (suc n) k v l b =
    let e : (h + (suc n + k)) % ring_cap ≡ ((h + 1) % ring_cap + (n + k)) % ring_cap =
      omega arith in
    let d : (h + (suc n + k)) % ring_cap ≢ h = λ q. absurd (omega arith) in
    let t = events-set slots ((h + 1) % ring_cap) n k v (omega arith) (omega arith) in
    ap₂ ◌∷◌ (get_or-set_ne slots ((h + (suc n + k)) % ring_cap) h v d)
      (ap (λ q. events (set slots q v) ((h + 1) % ring_cap) n) e ∙ t)

events-suc :
    (slots : List Event) (h n : ℕ)
    → h < ring_cap
    → events slots h (suc n) ≡ events slots h n ++ (get_or slots ((h + n) % ring_cap) no_event ∷ [])
events-suc slots h zero l = let e : (h + 0) % ring_cap ≡ h = omega arith in rw e refl
events-suc slots h (suc n) l =
    let e : (h + suc n) % ring_cap ≡ ((h + 1) % ring_cap + n) % ring_cap = omega arith in
    ap (◌∷◌ (get_or slots h no_event))
      (events-suc slots ((h + 1) % ring_cap) n (omega arith) ∙ rw e refl)

enqueued :
    (r : Ring) (ev : Event)
    → IsRing r
    → r.rcnt < ring_cap
    → events (set r.slots ((r.rhead + r.rcnt) % ring_cap) ev) r.rhead (suc r.rcnt)
      ≡ queue r ++ (ev ∷ [])
enqueued r ev w l =
    let slot = (r.rhead + r.rcnt) % ring_cap in
    let z : r.rcnt + 0 ≡ r.rcnt = omega arith in
    let keep = rw z at (events-set r.slots r.rhead r.rcnt 0 ev w.inside (omega arith)) in
    let there = get_or-set_self r.slots slot ev (omega (arith, w.whole)) in
    events-suc (set r.slots slot ev) r.rhead r.rcnt w.inside ∙ rw (keep, there) refl

length-events : (slots : List Event) (h n : ℕ) → length (events slots h n) ≡ n
length-events slots h zero = refl
length-events slots h (suc n) = ap suc (length-events slots ((h + 1) % ring_cap) n)

length-queue : (r : Ring) → length (queue r) ≡ r.rcnt
length-queue r = length-events r.slots r.rhead r.rcnt

-- What a call of `mf_endpoint_enqueue` may make of the ring.
abbrev Queues : Ring → Event → Bool × Ring → Type 0
Queues r ev (b, s) =
    IsRing s
    × (queue s ≡ (if b then queue r ++ (ev ∷ []) else queue r))
    × (b ≡ (not (length ev.uuid == 0) && ltb (length (queue r)) ring_cap))

-- `mf_endpoint_enqueue` on a ring in order puts an event with a uuid behind the others if fewer than
-- 16 wait. It refuses any other event, and changes nothing then. The ring stays in order.
pub enqueue-queue :
    (r : Ring) (ev : Event)
    → IsRing r
    → IsRing ((enqueue r ev).1)
      × (queue ((enqueue r ev).1) ≡ (if (enqueue r ev).0 then queue r ++ (ev ∷ []) else queue r))
      × ((enqueue r ev).0 ≡ (not (length ev.uuid == 0) && ltb (length (queue r)) ring_cap))
unfolding enqueue
enqueue-queue r ev w =
    let l = length-queue r in
    if_elim (Queues r ev) (length ev.uuid == 0) (false, r) _ (λ h. (w, refl, ground arith))
      (λ h.
        if_elim (Queues r ev) (leb ring_cap r.rcnt) (false, r) _ (λ k. (w, refl, ground arith))
          (λ k. (
            record {
              whole = length-set r.slots ((r.rhead + r.rcnt) % ring_cap) ev ∙ w.whole;
              inside = w.inside;
              fits = ground arith;
            },
            ap (λ n. events (set r.slots ((r.rhead + r.rcnt) % ring_cap) ev) r.rhead n)
                  {y = suc r.rcnt} (omega arith)
                ∙ enqueued r ev w (ground arith),
            ground arith,
          )))

-- What a call of `mf_endpoint_drain` may make of the ring.
abbrev Drains : ℕ → Ring → List Event × Ring → Type 0
Drains max r (evs, s) = (evs ≡ take max (queue r)) × (queue s ≡ drop max (queue r)) × IsRing s

abbrev ring : List Event → ℕ → ℕ → Ring
ring slots h n = record { slots = slots; rhead = h; rcnt = n }

drain-ring :
    (max : ℕ) (slots : List Event) (h n : ℕ)
    → IsRing (ring slots h n)
    → Drains max (ring slots h n) (drain max (ring slots h n))
unfolding drain
drain-ring zero slots h n w = (refl, refl, w)
drain-ring (suc max) slots h zero w = (refl, refl, w)
drain-ring (suc max) slots h (suc n) w =
    let e : ltb 0 (suc n) ≡ true = ground arith in
    let less : suc n - 1 ≡ n = omega arith in
    let v : IsRing (ring slots ((h + 1) % ring_cap) n) = record {
      whole = w.whole;
      inside = omega arith;
      fits = omega (arith, w.fits);
    } in
    let (a, b, c) = drain-ring max slots ((h + 1) % ring_cap) n v in
    rw (e, less) (ap (◌∷◌ (get_or slots h no_event)) a, b, c)

-- `mf_endpoint_drain` hands out the events that have waited longest, in order, as many as it may,
-- and the others go on waiting. The ring stays in order.
pub drain-queue :
    (max : ℕ) (r : Ring)
    → IsRing r
    → ((drain max r).0 ≡ take max (queue r))
      × (queue ((drain max r).1) ≡ drop max (queue r))
      × IsRing ((drain max r).1)
drain-queue max r w = drain-ring max r.slots r.rhead r.rcnt w
