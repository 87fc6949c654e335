-- ===== src/Magnum/Framer/Counting.antt =====
-- Every call of `mag_frame_feed` leaves counters that agree with what has been delivered.
use moon_flare.Magnum.Packet.{
  inverter, remote, kind_code, reply_len, reply_type, reply_ok, remote_type_ok, is_inverter,
  turnaround_byte,
}
use moon_flare.Magnum.Framer.{
  Packet, Framer, State, hunting, after_inverter, after_remote_packet, emit, drop_probe, Outcome,
  used, changed, find_inverter, probe, take_inverter, hunt_at, hunt, bad_packet, remote_or_inverter,
  after_inv, after_remote, step_in, step, consume, run, process, note, fill, feed, buf_size, init,
}
use moon_flare.Magnum.Framer.Tally.{
  IsTallied, same-IsTallied, held_flush-IsTallied, drop_probe-IsTallied, emit-IsTallied,
  skip-IsTallied,
}
use moon_flare.Magnum.Framer.Handlers.{find_inverter_lem, reply_type-known}
use moon_flare.Magnum.Framer.Emit.{WellFormed}
use moon_flare.Magnum.Framer.Process.{feed-KeepsBytes}
use moon_flare.Prelude.{
  ℕ, zero, suc, ◌+◌, ◌-◌, ◌*◌, ◌≤◌, ◌≡◌, refl, ◌++◌, true, not, ◌&&◌, ◌||◌, Option, none, some,
  length, take, drop, replicate, get_or, Bytes, arith, ltb, ◌==◌, min, if_elim, if◌then◌else◌,
}

abbrev Tallies : Outcome → Type 0
Tallies (used n g) = IsTallied g
Tallies (changed g) = IsTallied g

-- Fields change that the counters do not stand in.
moved :
    (f g : Framer)
    → g.st.unknown_bytes ≡ f.st.unknown_bytes
    → g.st.packets ≡ f.st.packets
    → g.out ≡ f.out
    → g.held ≡ f.held
    → IsTallied f
    → IsTallied g
moved f g u p o h t = same-IsTallied f g u p o (rw h t.known) t

probe-IsTallied : (f : Framer) → IsTallied f → IsTallied (probe f)
unfolding probe
probe-IsTallied f t =
    if_elim IsTallied
      (f.probing
        && f.synced
        && get_or f.buf 14 0 == f.probe_model
        && get_or f.buf 10 0 == f.probe_revision)
      _ _ (λ h. held_flush-IsTallied _ (moved f _ refl refl refl refl t))
      (λ h. moved (drop_probe f) _ refl refl refl refl (drop_probe-IsTallied f t))

take_inverter-Tallies : (f : Framer) → IsTallied f → Tallies (take_inverter f)
unfolding take_inverter
take_inverter-Tallies f t =
    let k = if_elim IsTallied f.id.have_id f (probe f) (λ h. t) (λ h. probe-IsTallied f t) in
    let known = if f.id.have_id then f else probe f in
    let ready : Framer = record known { since_inv = 0; synced = true } in
    let p : Packet = record { kind = inverter; bytes = take 21 f.buf } in
    moved (emit ready p) (record (emit ready p) { state = after_inverter }) refl refl refl refl
      (emit-IsTallied ready p (ground arith) (moved known ready refl refl refl refl k))

hunt_at-Tallies :
    (f : Framer) (o : Option ℕ)
    → IsTallied f
    → find_inverter f.id f.buf 0 ≡ o
    → Tallies (hunt_at f o)
unfolding hunt_at
hunt_at-Tallies f none t e = skip-IsTallied f (length f.buf - 20) (omega arith) t
hunt_at-Tallies f (some zero) t e = take_inverter-Tallies f t
hunt_at-Tallies f (some (suc i)) t e =
    skip-IsTallied f (suc i) (omega (arith, (find_inverter_lem f.id f.buf 0 (suc i) e).1)) t

hunt-Tallies : (f : Framer) → IsTallied f → Tallies (hunt f)
unfolding hunt
hunt-Tallies f t =
    if_elim Tallies (ltb (length f.buf) 21) (used 0 f) _ (λ h. t)
      (λ h. hunt_at-Tallies f (find_inverter f.id f.buf 0) t refl)

remote_or_inverter-Tallies : (f : Framer) → IsTallied f → Tallies (remote_or_inverter f)
unfolding remote_or_inverter bad_packet
remote_or_inverter-Tallies f t =
    let b = get_or f.buf 20 0 in
    let p : Packet = record { kind = remote; bytes = take 21 f.buf } in
    if_elim Tallies (remote_type_ok b && not (b == 0x00 && is_inverter f.id f.buf))
      (used 21 (record (emit f p) { state = after_remote_packet })) _
      (λ h. moved (emit f p) _ refl refl refl refl (emit-IsTallied f p (ground arith) t))
      (λ h.
        if_elim Tallies (is_inverter f.id f.buf) (changed (record f { state = hunting })) _
          (λ k. moved f _ refl refl refl refl t) (λ k. moved f _ refl refl refl refl t))

after_inv-Tallies : (f : Framer) → IsTallied f → Tallies (after_inv f)
unfolding after_inv
after_inv-Tallies f t =
    let go = remote_or_inverter-Tallies f t in
    if_elim Tallies (ltb (length f.buf) 21) (used 0 f) _ (λ h. t)
      (λ h.
        if_elim Tallies (turnaround_byte (get_or f.buf 0 0)) _ (remote_or_inverter f)
          (λ k.
            if_elim Tallies (ltb (length f.buf) 22) (used 0 f) _ (λ m. t)
              (λ m.
                if_elim Tallies
                  (remote_type_ok (get_or f.buf 21 0) || is_inverter f.id (drop 1 f.buf)) (used 1 f)
                  (remote_or_inverter f) (λ n. t) (λ n. go)))
          (λ k. go))

after_remote-Tallies : (f : Framer) → IsTallied f → Tallies (after_remote f)
unfolding after_remote bad_packet
after_remote-Tallies f t =
    let b = get_or f.buf 0 0 in
    let over = record f { state = hunting } in
    let p : Packet = record { kind = reply_type b; bytes = take (reply_len b) f.buf } in
    let ready = moved f over refl refl refl refl t in
    if_elim Tallies (ltb (length f.buf) 1) (used 0 f) _ (λ h. t)
      (λ h.
        if_elim Tallies (reply_len b == 0) (changed over) _ (λ k. ready)
          (λ k.
            if_elim Tallies (ltb (length f.buf) (reply_len b)) (used 0 f) _ (λ m. t)
              (λ m.
                if_elim Tallies (not (reply_ok f.buf)) _ (used (reply_len b) (emit over p))
                  (λ n. moved f _ refl refl refl refl t)
                  (λ n. emit-IsTallied over p (reply_type-known b (ground arith)) ready))))

step_in-Tallies : (s : State) (f : Framer) → IsTallied f → Tallies (step_in s f)
unfolding step_in
step_in-Tallies hunting f t = hunt-Tallies f t
step_in-Tallies after_inverter f t = after_inv-Tallies f t
step_in-Tallies after_remote_packet f t = after_remote-Tallies f t

abbrev MayTally : Option Framer → Type 0
MayTally none = Unit
MayTally (some g) = IsTallied g

round-MayTally :
    (fuel : ℕ) (o : Outcome)
    → Tallies o
    → ((g : Framer) → IsTallied g → MayTally (run fuel g))
    → MayTally (elim o [
      | changed g ↦ run fuel g
      | used zero g ↦ some g
      | used (suc n) g ↦ run fuel (consume g (suc n))
    ])
unfolding consume
round-MayTally fuel (changed g) t later = later g t
round-MayTally fuel (used zero g) t later = t
round-MayTally fuel (used (suc n) g) t later =
    later (consume g (suc n)) (moved g (consume g (suc n)) refl refl refl refl t)

run-MayTally : (fuel : ℕ) (f : Framer) → IsTallied f → MayTally (run fuel f)
unfolding run step
run-MayTally zero f t = tt
run-MayTally (suc fuel) f t =
    round-MayTally fuel (step f) (step_in-Tallies f.state f t) (λ g u. run-MayTally fuel g u)

process-MayTally : (f : Framer) → IsTallied f → MayTally (process f)
unfolding process
process-MayTally f t = run-MayTally (2 * length f.buf + 2) f t

filled :
    (o : Option Framer) (later : Framer → Option Framer)
    → MayTally o
    → ((g : Framer) → IsTallied g → MayTally (later g))
    → MayTally (elim o [ none ↦ none | some g ↦ later g ])
filled none later t h = tt
filled (some g) later t h = h g t

fill-MayTally :
    (fuel : ℕ) (f : Framer) (data_in : Bytes) → IsTallied f → MayTally (fill fuel f data_in)
unfolding fill
fill-MayTally zero f data_in t = tt
fill-MayTally (suc fuel) f data_in t =
    let n = min (length data_in) (buf_size - length f.buf) in
    let g : Framer = record f { buf = f.buf ++ take n data_in } in
    if_elim MayTally (length data_in == 0) (some f) _ (λ h. t)
      (λ h.
        filled (process g) (λ q. fill fuel q (drop n data_in))
          (process-MayTally g (moved f g refl refl refl refl t))
          (λ q u. fill-MayTally fuel q (drop n data_in) u))

feed-MayTally : (f : Framer) (data_in : Bytes) → IsTallied f → MayTally (feed f data_in)
unfolding feed note
feed-MayTally f data_in t =
    if_elim MayTally (length data_in == 0) (some f) _ (λ h. t)
      (λ h.
        fill-MayTally (suc (length data_in)) (note f data_in) data_in
          (moved f (note f data_in) refl refl refl refl t))

-- On a well-formed framer where at most 21 bytes wait and whose counters are right, `mag_frame_feed`
-- ends, whatever the bytes, and leaves such a framer. The counters are right if `unknown_bytes` is the
-- number of bytes delivered as unknown, and `packets[t]` that of the packets of each other type,
-- modulo 2 to the 64, and no packet that is held is of unknown type.
pub feed-IsTallied :
    (f : Framer) (data_in : Bytes)
    → WellFormed f
    → length f.buf ≤ 21
    → IsTallied f
    → (g : Framer) × (feed f data_in ≡ some g) × IsTallied g × (WellFormed g × (length g.buf ≤ 21))
feed-IsTallied f data_in wf s t =
    let (g, e, k) = feed-KeepsBytes f data_in wf s in
    let h = feed-MayTally f data_in t in (g, e, rw e at h, (k.wf, k.short))

zeros : (n c : ℕ) → get_or (replicate {A = ℕ} n 0) c 0 ≡ 0
zeros zero c = refl
zeros (suc n) zero = refl
zeros (suc n) (suc c) = zeros n c

pub init-IsTallied : IsTallied init
init-IsTallied = record {
  noise = refl;
  counts = λ k h. zeros 11 (kind_code k);
  size = refl;
  known = tt;
}
