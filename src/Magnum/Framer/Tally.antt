-- ===== src/Magnum/Framer/Tally.antt =====
-- The counters of the framer: they agree with what it has delivered.
use moon_flare.Magnum.Packet.{Kind, unknown, inverter, remote, is_unknown, kind_code, kind_count}
use moon_flare.Magnum.Framer.{
  Packet, Framer, add64, count_packet, deliver, deliver_all, held_flush, count_unknown,
  drop_all_packets, held_drop, emit, drop_probe, lose_sync, skip,
}
use moon_flare.Prelude.{
  ℕ, zero, suc, ◌+◌, ◌%◌, ◌^◌, ◌≤◌, ◌<◌, ◌≡◌, refl, subst, ap, ◌∙◌, List, [], ◌∷◌, ◌++◌, false, not,
  ◌&&◌, length, length-take, length-set, take, set, get_or, Bytes, All, arith, ltb, leb, ◌==◌,
  if_elim, if◌then◌else◌,
}

-- The bytes of unknown type among packets, and the packets of one type.
abbrev pub noise_total : List Packet → ℕ
noise_total [] = 0
noise_total (p ∷ ps) = (if is_unknown p.kind then length p.bytes else 0) + noise_total ps

abbrev pub count_kind : Kind → List Packet → ℕ
count_kind k [] = 0
count_kind k (p ∷ ps) = (if kind_code p.kind == kind_code k then 1 else 0) + count_kind k ps

noise_total-append :
    (ps : List Packet) (p : Packet)
    → noise_total (ps ++ (p ∷ []))
      ≡ noise_total ps + (if is_unknown p.kind then length p.bytes else 0)
noise_total-append [] p = omega arith
noise_total-append (q ∷ ps) p = omega (arith, noise_total-append ps p)

count_kind-append :
    (k : Kind) (ps : List Packet) (p : Packet)
    → count_kind k (ps ++ (p ∷ []))
      ≡ count_kind k ps + (if kind_code p.kind == kind_code k then 1 else 0)
count_kind-append k [] p = omega arith
count_kind-append k (q ∷ ps) p = omega (arith, count_kind-append k ps p)

abbrev pub AreKnown : List Packet → Type 0
AreKnown = All (λ p. is_unknown p.kind ≡ false)

pub record IsTallied (f : Framer) : Type 0 where
  pub noise : f.st.unknown_bytes ≡ noise_total f.out % 2 ^ 64
  pub counts :
      (k : Kind)
      → is_unknown k ≡ false
      → get_or f.st.packets (kind_code k) 0 ≡ count_kind k f.out % 2 ^ 64
  pub size : length f.st.packets ≡ kind_count
  pub known : AreKnown f.held

kind_code-small : (k : Kind) → kind_code k < kind_count
kind_code-small unknown = omega arith
kind_code-small inverter = omega arith
kind_code-small remote = omega arith
kind_code-small Kind.ags_a1 = omega arith
kind_code-small Kind.ags_a2 = omega arith
kind_code-small Kind.bmk_81 = omega arith
kind_code-small Kind.rtr_91 = omega arith
kind_code-small Kind.pt_c1 = omega arith
kind_code-small Kind.pt_c2 = omega arith
kind_code-small Kind.pt_c3 = omega arith
kind_code-small Kind.acld_d1 = omega arith

get_or-set :
    (xs : List ℕ) (i j v : ℕ)
    → i < length xs
    → get_or (set xs i v) j 0 ≡ (if i == j then v else get_or xs j 0)
get_or-set [] i j v h = absurd (omega arith)
get_or-set (x ∷ xs) zero zero v h = refl
get_or-set (x ∷ xs) zero (suc j) v h = ground arith
get_or-set (x ∷ xs) (suc i) zero v h = ground arith
get_or-set (x ∷ xs) (suc i) (suc j) v h = ground (arith, get_or-set xs i j v (omega arith))

-- The same counters, packets and held packets.
pub same-IsTallied :
    (f g : Framer)
    → g.st.unknown_bytes ≡ f.st.unknown_bytes
    → g.st.packets ≡ f.st.packets
    → g.out ≡ f.out
    → AreKnown g.held
    → IsTallied f
    → IsTallied g
same-IsTallied f g u p o k t = record {
  noise = rw (u, o) t.noise;
  counts = rw (p, o) t.counts;
  size = rw p t.size;
  known = k;
}

bumped :
    (packets : List ℕ) (out : List Packet) (p : Packet) (k : Kind)
    → length packets ≡ kind_count
    → get_or packets (kind_code k) 0 ≡ count_kind k out % 2 ^ 64
    → get_or
        (set packets (kind_code p.kind) (add64 (get_or packets (kind_code p.kind) 0) 1))
        (kind_code k)
        0
      ≡ count_kind k (out ++ (p ∷ [])) % 2 ^ 64
bumped packets out p k l h =
    let s =
      get_or-set packets (kind_code p.kind) (kind_code k)
        (add64 (get_or packets (kind_code p.kind) 0) 1) (omega (arith, kind_code-small p.kind)) in
    s
    ∙ rw (count_kind-append k out p)
        (same_code (kind_code p.kind) (kind_code k) packets (count_kind k out) h)
  where
    same_code :
        (c d : ℕ) (packets : List ℕ) (n : ℕ)
        → get_or packets d 0 ≡ n % 2 ^ 64
        → (if c == d then add64 (get_or packets c 0) 1 else get_or packets d 0)
          ≡ (n + (if c == d then 1 else 0)) % 2 ^ 64
    same_code c d packets n h =
        if_elim (λ q. q ≡ (n + (if c == d then 1 else 0)) % 2 ^ 64) (c == d) _ _
          (λ e. let q : c ≡ d = ground arith in ground (arith, ap (λ i. get_or packets i 0) q))
          (λ e. ground arith)

deliver-IsTallied :
    (f : Framer) (p : Packet) → is_unknown p.kind ≡ false → IsTallied f → IsTallied (deliver f p)
unfolding deliver count_packet
deliver-IsTallied f p h t =
    let n = noise_total-append f.out p in
    rw h (record {
      noise = rw (n, h) (omega (arith, t.noise));
      counts = λ k e. bumped f.st.packets f.out p k t.size (t.counts k e);
      size = length-set f.st.packets (kind_code p.kind) _ ∙ t.size;
      known = t.known;
    })

abbrev noise_of : Bytes → Packet
noise_of bytes = record { kind = unknown; bytes = bytes }

-- Bytes of unknown type go out, and are counted.
noise-IsTallied :
    (f : Framer) (bytes : Bytes)
    → IsTallied f
    → IsTallied (deliver (count_unknown (length bytes) f) (noise_of bytes))
unfolding deliver count_packet count_unknown
noise-IsTallied f bytes t =
    let n = noise_total-append f.out (noise_of bytes) in
    record {
      noise = rw n (omega (arith, t.noise));
      counts = λ k e.
          let c = count_kind-append k f.out (noise_of bytes) in
          let z : (0 == kind_code k) ≡ false = ground arith in
          rw (c, z) (omega (arith, t.counts k e));
      size = t.size;
      known = t.known;
    }

deliver_all-IsTallied :
    (f : Framer) (ps : List Packet) → AreKnown ps → IsTallied f → IsTallied (deliver_all f ps)
unfolding deliver_all
deliver_all-IsTallied f [] h t = t
deliver_all-IsTallied f (p ∷ ps) (h, k) t =
    deliver_all-IsTallied (deliver f p) ps k (deliver-IsTallied f p h t)

drop_all_packets-IsTallied :
    (f : Framer) (ps : List Packet) → IsTallied f → IsTallied (drop_all_packets f ps)
unfolding drop_all_packets
drop_all_packets-IsTallied f [] t = t
drop_all_packets-IsTallied f (p ∷ ps) t =
    drop_all_packets-IsTallied (deliver (count_unknown (length p.bytes) f) (noise_of p.bytes)) ps
      (noise-IsTallied f p.bytes t)

pub held_flush-IsTallied : (f : Framer) → IsTallied f → IsTallied (held_flush f)
unfolding held_flush
held_flush-IsTallied f t =
    same-IsTallied (deliver_all f f.held) (record (deliver_all f f.held) { held = [] }) refl refl
      refl tt (deliver_all-IsTallied f f.held t.known t)

pub held_drop-IsTallied : (f : Framer) → IsTallied f → IsTallied (held_drop f)
unfolding held_drop
held_drop-IsTallied f t =
    same-IsTallied (drop_all_packets f f.held)
      (record (drop_all_packets f f.held) { held = []; probing = false }) refl refl refl tt
      (drop_all_packets-IsTallied f f.held t)

pub drop_probe-IsTallied : (f : Framer) → IsTallied f → IsTallied (drop_probe f)
unfolding drop_probe
drop_probe-IsTallied f t =
    if_elim IsTallied f.probing (held_drop f) f (λ h. held_drop-IsTallied f t) (λ h. t)

AreKnown-append :
    (ps : List Packet) (p : Packet)
    → AreKnown ps
    → is_unknown p.kind ≡ false
    → AreKnown (ps ++ (p ∷ []))
AreKnown-append [] p h k = (k, tt)
AreKnown-append (q ∷ ps) p (h, t) k = (h, AreKnown-append ps p t k)

pub emit-IsTallied :
    (f : Framer) (p : Packet) → is_unknown p.kind ≡ false → IsTallied f → IsTallied (emit f p)
unfolding emit
emit-IsTallied f p h t =
    if_elim IsTallied (f.probing && not (is_unknown p.kind)) _ (deliver f p)
      (λ a.
        if_elim IsTallied (ltb (length f.held) 4 && leb (length p.bytes) 21)
          (record f { held = f.held ++ (p ∷ []) }) _
          (λ b.
            same-IsTallied f (record f { held = f.held ++ (p ∷ []) }) refl refl refl
              (AreKnown-append f.held p t.known h) t)
          (λ b. noise-IsTallied (held_drop f) p.bytes (held_drop-IsTallied f t)))
      (λ a. deliver-IsTallied f p h t)

-- Bytes of unknown type go out at once, whatever is held.
pub emit_noise-IsTallied :
    (f : Framer) (bytes : Bytes) (n : ℕ)
    → length bytes ≡ n
    → IsTallied f
    → IsTallied (emit (count_unknown n f) (noise_of bytes))
unfolding emit count_unknown
emit_noise-IsTallied f bytes n l t =
    let g = count_unknown n f in
    let d =
      subst (λ m. IsTallied (deliver (count_unknown m f) (noise_of bytes))) l
        (noise-IsTallied f bytes t) in
    if_elim IsTallied (f.probing && not (is_unknown unknown)) _ (deliver g (noise_of bytes))
      (λ a. absurd (ground arith)) (λ a. d)

lose_sync-IsTallied : (f : Framer) → IsTallied f → IsTallied (lose_sync f)
unfolding lose_sync
lose_sync-IsTallied f t =
    if_elim IsTallied f.synced _ f (λ a. same-IsTallied f _ refl refl refl t.known t) (λ a. t)

pub skip-IsTallied : (f : Framer) (n : ℕ) → n ≤ length f.buf → IsTallied f → IsTallied (skip f n)
unfolding skip
skip-IsTallied f n l t =
    if_elim IsTallied (n == 0) f _ (λ a. t)
      (λ a. lose_sync-IsTallied _ (
        emit_noise-IsTallied (drop_probe f) (take n f.buf) n (omega (arith, length-take n f.buf))
          (drop_probe-IsTallied f t)))
