-- ===== src/Magnum/Framer/Handlers.antt =====
-- What each handler of the framer makes of the bytes and the packets.
use moon_flare.Magnum.Packet.{
  unknown, inverter, remote, is_unknown, inv_len, reply_len, reply_type, remote_type_ok, reply_ok,
  Identity, is_inverter, turnaround_byte,
}
use moon_flare.Magnum.Framer.{
  Packet, Framer, State, hunting, after_inverter, after_remote_packet, is_hunting, count_unknown,
  emit, held_flush, held_drop, drop_probe, lose_sync, skip, Outcome, used, changed, find_inverter,
  probe, take_inverter, hunt_at, hunt, bad_packet, remote_or_inverter, after_inv, after_remote,
  step_in, step,
}
use moon_flare.Magnum.Framer.Thins.{Thins, whole, stray, Thins-eq}
use moon_flare.Magnum.Framer.Emit.{
  IsPacket, noise, from_inverter, from_remote, reply, WellFormed, Emits, sent, held_flush-Emits,
  held_drop-Emits, held-held_drop, emit-Emits,
}
use moon_flare.Prelude.{
  ℕ, zero, suc, ◌+◌, ◌-◌, ◌≤◌, ◌≡◌, ◌≢◌, refl, subst, sym, ap, ◌∙◌, [], ◌∷◌, ◌++◌, true, false,
  ◌&&◌, ◌||◌, not, Option, none, some, length, length-take, take, drop, get_or, append-nil,
  append_assoc, take-append-drop, Bytes, arith, if_elim, ltb, ◌==◌, if◌then◌else◌,
}

-- The same framer but for fields that the bytes do not stand in.
restated :
    (f g h : Framer) (bytes : Bytes)
    → h.buf ≡ g.buf
    → h.out ≡ g.out
    → h.held ≡ g.held
    → h.probing ≡ g.probing
    → Emits f g bytes
    → Emits f h bytes
restated f g h bytes b o e p r = record {
  buf = b ∙ r.buf;
  adds = rw (o, e) r.adds;
  wf = record {
    quiet = λ q. e ∙ r.wf.quiet (sym p ∙ q);
    few = rw e r.wf.few;
    delivered = rw o r.wf.delivered;
    holds = rw e r.wf.holds;
  };
}

-- One call after another.
then_Emits : (f g h : Framer) (xs ys : Bytes) → Emits f g xs → Emits g h ys → Emits f h (xs ++ ys)
then_Emits f g h xs ys r s = record {
  buf = s.buf ∙ r.buf;
  adds = s.adds ∙ rw r.adds (append_assoc (sent f) xs ys);
  wf = s.wf;
}

refl-Emits : (f : Framer) → WellFormed f → Emits f f []
refl-Emits f wf = record { buf = refl; adds = sym (append-nil (sent f)); wf = wf }

drop_probe-Emits :
    (f : Framer) → WellFormed f → Emits f (drop_probe f) [] × ((drop_probe f).probing ≡ false)
unfolding drop_probe
drop_probe-Emits f wf =
    if_elim (λ g. Emits f g [] × (g.probing ≡ false)) f.probing (held_drop f) f
      (λ h. (held_drop-Emits f wf.delivered, (held-held_drop f).1)) (λ h. (refl-Emits f wf, h))

same-lose_sync :
    (f : Framer)
    → ((lose_sync f).buf ≡ f.buf)
      × ((lose_sync f).out ≡ f.out)
      × ((lose_sync f).held ≡ f.held)
      × ((lose_sync f).probing ≡ f.probing)
unfolding lose_sync
same-lose_sync f =
    if_elim (λ g. (g.buf ≡ f.buf) × (g.out ≡ f.out) × (g.held ≡ f.held) × (g.probing ≡ f.probing))
      f.synced _ f (λ h. (refl, refl, refl, refl)) (λ h. (refl, refl, refl, refl))

pub skip-Emits : (f : Framer) (n : ℕ) → WellFormed f → n ≢ 0 → Emits f (skip f n) (take n f.buf)
unfolding skip count_unknown
skip-Emits f n wf h =
    let (d, q) = drop_probe-Emits f wf in
    let g = count_unknown n (drop_probe f) in
    let p : Packet = record { kind = unknown; bytes = take n f.buf } in
    let r = restated f (drop_probe f) g [] refl refl refl refl d in
    let s = emit-Emits g p r.wf (λ e. q) (noise (take n f.buf)) in
    let (b, o, e, k) = same-lose_sync (emit g p) in
    if_elim (λ g. Emits f g (take n f.buf)) (n == 0) f (lose_sync (emit g p))
      (λ z. absurd (h (ground arith)))
      (λ z.
        restated f (emit g p) (lose_sync (emit g p)) (take n f.buf) b o e k
          (then_Emits f g (emit g p) [] (take n f.buf) r s))

probe-Emits : (f : Framer) → WellFormed f → Emits f (probe f) []
unfolding probe
probe-Emits f wf =
    let m = get_or f.buf 14 0 in
    let v = get_or f.buf 10 0 in
    let g : Framer = record f {
      probing = false;
      id = record { have_id = true; inv_model = m; inv_revision = v };
    } in
    let flushed = held_flush-Emits g wf.delivered wf.holds in
    let (dropped, q) = drop_probe-Emits f wf in
    if_elim (λ g. Emits f g [])
      (f.probing && f.synced && m == f.probe_model && v == f.probe_revision) (held_flush g) _
      (λ h. record { buf = flushed.buf; adds = flushed.adds; wf = flushed.wf })
      (λ h. record {
        buf = dropped.buf;
        adds = dropped.adds;
        wf = record {
          quiet = λ e. absurd cc;
          few = dropped.wf.few;
          delivered = dropped.wf.delivered;
          holds = dropped.wf.holds;
        };
      })

-- What a handler makes of the framer `f`: it waits, changes the state, or uses bytes.
abbrev pub Goes : Framer → Outcome → Type 0
Goes f (changed g) =
    (is_hunting f.state ≡ false)
    × (is_hunting g.state ≡ true)
    × (g.buf ≡ f.buf)
    × (sent g ≡ sent f)
    × WellFormed g
Goes f (used zero g) = (g ≡ f) × (length f.buf ≤ 21)
Goes f (used (suc n) g) =
    (suc n ≤ length f.buf)
    × (g.buf ≡ f.buf)
    × WellFormed g
    × Thins (sent f ++ f.buf) (sent g ++ drop (suc n) f.buf)

used-Goes :
    (f g : Framer) (n : ℕ) → n ≢ 0 → n ≤ length f.buf → Emits f g (take n f.buf) → Goes f (used n g)
used-Goes f g zero h l r = absurd (h refl)
used-Goes f g (suc n) h l r =
    let e : sent f ++ f.buf ≡ sent g ++ drop (suc n) f.buf = rw (
      r.adds,
      append_assoc (sent f) (take (suc n) f.buf) (drop (suc n) f.buf),
      take-append-drop (suc n) f.buf,
    ) in
    (l, r.buf, r.wf, Thins-eq e)

-- Where the search ends, an inverter packet stands.
pub find_inverter_lem :
    (id : Identity) (bs : Bytes) (i j : ℕ)
    → find_inverter id bs i ≡ some j
    → (i ≤ j) × (j + 21 ≤ i + length bs) × (j ≡ i → is_inverter id bs ≡ true)
unfolding find_inverter
find_inverter_lem id [] i j h = ground arith
find_inverter_lem id (b ∷ bs) i j h = ground (arith, find_inverter_lem id bs (i + 1) j)

is_inverter-last : (id : Identity) (p : Bytes) → is_inverter id p ≡ true → get_or p 20 0 ≡ 0
unfolding is_inverter
is_inverter-last id p h = ground arith

get_or-take : (n i : ℕ) (xs : Bytes) → i + 1 ≤ n → get_or (take n xs) i 0 ≡ get_or xs i 0
get_or-take zero i xs h = absurd (omega arith)
get_or-take (suc n) i [] h = refl
get_or-take (suc n) zero (x ∷ xs) h = refl
get_or-take (suc n) (suc i) (x ∷ xs) h = get_or-take n i xs (omega arith)

known-Emits : (f : Framer) → WellFormed f → Emits f (if f.id.have_id then f else probe f) []
known-Emits f wf =
    if_elim (λ g. Emits f g []) f.id.have_id f (probe f) (λ h. refl-Emits f wf)
      (λ h. probe-Emits f wf)

take_inverter-Goes :
    (f : Framer)
    → WellFormed f
    → 21 ≤ length f.buf
    → is_inverter f.id f.buf ≡ true
    → Goes f (take_inverter f)
unfolding take_inverter
take_inverter-Goes f wf l h =
    let k = if f.id.have_id then f else probe f in
    let known : Framer = record k { since_inv = 0; synced = true } in
    let r = restated f k known [] refl refl refl refl (known-Emits f wf) in
    let p : Packet = record { kind = inverter; bytes = take 21 f.buf } in
    let ok =
      from_inverter (take 21 f.buf) (omega (arith, length-take 21 f.buf))
        (get_or-take 21 20 f.buf (omega arith) ∙ is_inverter-last f.id f.buf h) in
    let s = emit-Emits known p r.wf (λ e. absurd (ground arith)) ok in
    let t = then_Emits f known (emit known p) [] (take 21 f.buf) r s in
    used-Goes f (record (emit known p) { state = after_inverter }) 21 (ground arith) l
      (restated f (emit known p) (record (emit known p) { state = after_inverter }) (take 21 f.buf)
        refl refl refl refl t)

hunt_at-Goes :
    (f : Framer) (o : Option ℕ)
    → WellFormed f
    → 21 ≤ length f.buf
    → find_inverter f.id f.buf 0 ≡ o
    → Goes f (hunt_at f o)
unfolding hunt_at
hunt_at-Goes f none wf l e =
    let n = length f.buf - (inv_len - 1) in
    let h : n ≢ 0 = ground arith in used-Goes f (skip f n) n h (omega arith) (skip-Emits f n wf h)
hunt_at-Goes f (some zero) wf l e =
    take_inverter-Goes f wf l ((find_inverter_lem f.id f.buf 0 0 e).2 refl)
hunt_at-Goes f (some (suc i)) wf l e =
    let h : suc i ≢ 0 = ground arith in
    used-Goes f (skip f (suc i)) (suc i) h
      (omega (arith, (find_inverter_lem f.id f.buf 0 (suc i) e).1)) (skip-Emits f (suc i) wf h)

waits : (f : Framer) → length f.buf ≤ 21 → Goes f (used 0 f)
waits f l = (refl, l)

hunt-Goes : (f : Framer) → WellFormed f → Goes f (hunt f)
unfolding hunt
hunt-Goes f wf =
    if_elim (Goes f) (ltb (length f.buf) inv_len) (used 0 f)
      (hunt_at f (find_inverter f.id f.buf 0)) (λ h. waits f (ground arith))
      (λ h. hunt_at-Goes f (find_inverter f.id f.buf 0) wf (ground arith) refl)

has_state :
    (f g : Framer) (s : State) (bytes : Bytes)
    → Emits f g bytes
    → Emits f (record g { state = s }) bytes
has_state f g s bytes r = restated f g (record g { state = s }) bytes refl refl refl refl r

changes :
    (f g : Framer)
    → is_hunting f.state ≡ false
    → is_hunting g.state ≡ true
    → Emits f g []
    → Goes f (changed g)
changes f g h k r = (h, k, r.buf, r.adds ∙ append-nil (sent f), r.wf)

remote_or_inverter-Goes :
    (f : Framer)
    → WellFormed f
    → is_hunting f.state ≡ false
    → 21 ≤ length f.buf
    → Goes f (remote_or_inverter f)
unfolding remote_or_inverter bad_packet
remote_or_inverter-Goes f wf h l =
    let b = get_or f.buf 20 0 in
    let p : Packet = record { kind = remote; bytes = take 21 f.buf } in
    let found = record f { state = hunting } in
    let bad = record (bad_packet f) { state = hunting } in
    let rest = if is_inverter f.id f.buf then changed found else changed bad in
    if_elim (Goes f) (remote_type_ok b && not (b == 0x00 && is_inverter f.id f.buf))
      (used 21 (record (emit f p) { state = after_remote_packet })) rest
      (λ t.
        let ok =
          from_remote (take 21 f.buf) (omega (arith, length-take 21 f.buf))
            (ap remote_type_ok (get_or-take 21 20 f.buf (omega arith)) ∙ ground arith) in
        used-Goes f _ 21 (ground arith) l (
          has_state f (emit f p) after_remote_packet (take 21 f.buf)
            (emit-Emits f p wf (λ e. absurd (ground arith)) ok)))
      (λ t.
        if_elim (Goes f) (is_inverter f.id f.buf) (changed found) (changed bad)
          (λ k.
            changes f found h refl (restated f f found [] refl refl refl refl (refl-Emits f wf)))
          (λ k. changes f bad h refl (restated f f bad [] refl refl refl refl (refl-Emits f wf))))

-- A stray byte in front.
stray-Thins :
    (xs buf : Bytes)
    → 1 ≤ length buf
    → turnaround_byte (get_or buf 0 0) ≡ true
    → Thins (xs ++ buf) (xs ++ drop 1 buf)
stray-Thins xs [] l h = absurd (omega arith)
stray-Thins xs (b ∷ bs) l h = stray xs b bs h (whole (xs ++ bs))

after_inv-Goes : (f : Framer) → WellFormed f → is_hunting f.state ≡ false → Goes f (after_inv f)
unfolding after_inv
after_inv-Goes f wf h =
    if_elim (Goes f) (ltb (length f.buf) 21) (used 0 f) _ (λ t. waits f (ground arith))
      (λ t.
        let l : 21 ≤ length f.buf = ground arith in
        let go = remote_or_inverter-Goes f wf h l in
        if_elim (Goes f) (turnaround_byte (get_or f.buf 0 0)) _ (remote_or_inverter f)
          (λ k.
            if_elim (Goes f) (ltb (length f.buf) 22) (used 0 f) _ (λ m. waits f (ground arith))
              (λ m.
                if_elim (Goes f)
                  (remote_type_ok (get_or f.buf 21 0) || is_inverter f.id (drop 1 f.buf)) (used 1 f)
                  (remote_or_inverter f)
                  (λ n. (omega arith, refl, wf, stray-Thins (sent f) f.buf (omega arith) k))
                  (λ n. go)))
          (λ k. go))

reply_len-small : (b : ℕ) → reply_len b ≤ 18
unfolding reply_len
reply_len-small b = ground arith

pub reply_type-known : (b : ℕ) → reply_len b ≢ 0 → is_unknown (reply_type b) ≡ false
unfolding reply_len reply_type
reply_type-known b h = ground arith

reply_len-two : (b : ℕ) → reply_len b ≢ 0 → 2 ≤ reply_len b
unfolding reply_len
reply_len-two b h = ground arith

reply_ok-take : (n : ℕ) (p : Bytes) → 2 ≤ n → reply_ok (take n p) ≡ reply_ok p
unfolding reply_ok
reply_ok-take n p h =
    let e = get_or-take n 0 p (omega arith) in let k = get_or-take n 1 p (omega arith) in rw (e, k)

reply-IsPacket :
    (buf : Bytes)
    → reply_len (get_or buf 0 0) ≢ 0
    → reply_len (get_or buf 0 0) ≤ length buf
    → reply_ok buf ≡ true
    → IsPacket (reply_type (get_or buf 0 0)) (take (reply_len (get_or buf 0 0)) buf)
reply-IsPacket buf h l k =
    let n = reply_len (get_or buf 0 0) in
    let two = reply_len-two (get_or buf 0 0) h in
    let e = get_or-take n 0 buf (omega arith) in
    subst (λ q. IsPacket (reply_type q) (take n buf)) e
      (reply (take n buf) (omega (arith, length-take n buf) ∙ ap reply_len (sym e))
        (reply_ok-take n buf two ∙ k))

after_remote-Goes :
    (f : Framer) → WellFormed f → is_hunting f.state ≡ false → Goes f (after_remote f)
unfolding after_remote bad_packet
after_remote-Goes f wf h =
    let b = get_or f.buf 0 0 in
    let over = record f { state = hunting } in
    let bad = bad_packet over in
    let p : Packet = record { kind = reply_type b; bytes = take (reply_len b) f.buf } in
    let same = refl-Emits f wf in
    let ready = restated f f over [] refl refl refl refl same in
    if_elim (Goes f) (ltb (length f.buf) 1) (used 0 f) _ (λ t. waits f (ground arith))
      (λ t.
        if_elim (Goes f) (reply_len b == 0) (changed over) _ (λ k. changes f over h refl ready)
          (λ k.
            let nz : reply_len b ≢ 0 = ground arith in
            if_elim (Goes f) (ltb (length f.buf) (reply_len b)) (used 0 f) _
              (λ m. waits f (ground (arith, reply_len-small b)))
              (λ m.
                if_elim (Goes f) (not (reply_ok f.buf)) (changed bad) _
                  (λ n. changes f bad h refl (restated f f bad [] refl refl refl refl same))
                  (λ n.
                    let u = reply_type-known b nz in
                    let ok = reply-IsPacket f.buf nz (ground arith) (ground arith) in
                    let s = emit-Emits over p ready.wf (λ e. absurd cc) ok in
                    used-Goes f (emit over p) (reply_len b) nz (ground arith)
                      (then_Emits f over (emit over p) [] (take (reply_len b) f.buf) ready s)))))

step_in-Goes : (f : Framer) (s : State) → f.state ≡ s → WellFormed f → Goes f (step_in s f)
unfolding step_in
step_in-Goes f hunting e wf = hunt-Goes f wf
step_in-Goes f after_inverter e wf = after_inv-Goes f wf (ap is_hunting e)
step_in-Goes f after_remote_packet e wf = after_remote-Goes f wf (ap is_hunting e)

pub step-Goes : (f : Framer) → WellFormed f → Goes f (step f)
unfolding step
step-Goes f wf = step_in-Goes f f.state refl wf
