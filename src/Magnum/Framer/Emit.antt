-- ===== src/Magnum/Framer/Emit.antt =====
-- What the helpers of the framer do to its packets: what is delivered and held keeps the order of
-- the bytes, and is what its type says.
use moon_flare.Magnum.Packet.{
  Kind, unknown, inverter, remote, is_unknown, inv_len, remote_len, reply_len, reply_type,
  remote_type_ok, reply_ok,
}
use moon_flare.Magnum.Framer.{
  Packet, Framer, held_max, deliver, deliver_all, held_flush, count_unknown, drop_all_packets,
  held_drop, emit,
}
use moon_flare.Magnum.Framer.Thins.{payload, payload-append}
use moon_flare.Prelude.{
  ◌≡◌, ◌≤◌, refl, sym, ap, ◌∙◌, List, [], ◌∷◌, ◌++◌, true, false, length, get_or, append-nil,
  append_assoc, Bytes, All, arith, length-append, Bool-cases, not, ◌&&◌, ltb, inl, inr, leb,
}

-- What a packet of each type is.
pub data IsPacket : Kind → Bytes → Type 0 where
  noise : (p : Bytes) → IsPacket unknown p
  from_inverter : (p : Bytes) → length p ≡ inv_len → get_or p 20 0 ≡ 0 → IsPacket inverter p
  from_remote :
      (p : Bytes)
      → length p ≡ remote_len
      → remote_type_ok (get_or p 20 0) ≡ true
      → IsPacket remote p
  reply :
      (p : Bytes)
      → length p ≡ reply_len (get_or p 0 0)
      → reply_ok p ≡ true
      → IsPacket (reply_type (get_or p 0 0)) p

abbrev pub AreSound : List Packet → Type 0
AreSound = All (λ p. IsPacket p.kind p.bytes)

pub AreSound-append : (ps qs : List Packet) → AreSound ps → AreSound qs → AreSound (ps ++ qs)
AreSound-append [] qs h k = k
AreSound-append (p ∷ ps) qs (h, t) k = (h, AreSound-append ps qs t k)

-- The bytes delivered and held, in order.
abbrev pub sent : Framer → Bytes
sent f = payload f.out ++ payload f.held

pub record WellFormed (f : Framer) : Type 0 where
  pub quiet : f.probing ≡ false → f.held ≡ []
  pub few : length f.held ≤ held_max
  pub delivered : AreSound f.out
  pub holds : AreSound f.held

-- A call that touches neither the buffer nor the order of the bytes.
pub record Emits (f g : Framer) (bytes : Bytes) : Type 0 where
  pub buf : g.buf ≡ f.buf
  pub adds : sent g ≡ sent f ++ bytes
  pub wf : WellFormed g

payload_one : (p : Packet) → payload (p ∷ []) ≡ p.bytes
payload_one p = append-nil p.bytes

-- A list of packets that all go out.
record Delivers (f g : Framer) (ps : List Packet) : Type 0 where
  buf : g.buf ≡ f.buf
  out : payload g.out ≡ payload f.out ++ payload ps
  sound : AreSound f.out → AreSound g.out

payload-deliver :
    (out : List Packet) (p : Packet) → payload (out ++ (p ∷ [])) ≡ payload out ++ p.bytes
payload-deliver out p = payload-append out (p ∷ []) ∙ ap (◌++◌ (payload out)) (payload_one p)

deliver_all-Delivers :
    (f : Framer) (ps : List Packet) → AreSound ps → Delivers f (deliver_all f ps) ps
unfolding deliver_all deliver
deliver_all-Delivers f [] h = record {
  buf = refl;
  out = sym (append-nil (payload f.out));
  sound = λ s. s;
}
deliver_all-Delivers f (p ∷ ps) (h, t) =
    let r = deliver_all-Delivers (deliver f p) ps t in
    record {
      buf = r.buf;
      out = r.out ∙ rw (payload-deliver f.out p, append_assoc (payload f.out) p.bytes (payload ps));
      sound = λ s. r.sound (AreSound-append f.out (p ∷ []) s (h, tt));
    }

drop_all_packets-Delivers : (f : Framer) (ps : List Packet) → Delivers f (drop_all_packets f ps) ps
unfolding drop_all_packets deliver count_unknown
drop_all_packets-Delivers f [] = record {
  buf = refl;
  out = sym (append-nil (payload f.out));
  sound = λ s. s;
}
drop_all_packets-Delivers f (p ∷ ps) =
    let q : Packet = record { kind = unknown; bytes = p.bytes } in
    let r = drop_all_packets-Delivers (deliver (count_unknown (length p.bytes) f) q) ps in
    record {
      buf = r.buf;
      out = r.out ∙ rw (payload-deliver f.out q, append_assoc (payload f.out) p.bytes (payload ps));
      sound = λ s. r.sound (AreSound-append f.out (q ∷ []) s (noise p.bytes, tt));
    }

-- A call after which nothing is held any more.
record Empties (f g : Framer) : Type 0 where
  emits : Emits f g []
  none_held : g.held ≡ []

emptied :
    (f g : Framer) (ps : List Packet)
    → f.held ≡ ps
    → g.held ≡ []
    → Delivers f g ps
    → AreSound f.out
    → Emits f g []
emptied f g ps h e d s = record {
  buf = d.buf;
  adds = rw (e, h, append-nil (payload f.out ++ payload ps), append-nil (payload g.out)) d.out;
  wf = record { quiet = λ q. e; few = rw e (omega arith); delivered = d.sound s; holds = rw e tt };
}

pub held_flush-Emits : (f : Framer) → AreSound f.out → AreSound f.held → Emits f (held_flush f) []
unfolding held_flush
held_flush-Emits f s h =
    let d = deliver_all-Delivers f f.held h in
    emptied f (record (deliver_all f f.held) { held = [] }) f.held refl refl
      (record { buf = d.buf; out = d.out; sound = d.sound }) s

pub held_drop-Emits : (f : Framer) → AreSound f.out → Emits f (held_drop f) []
unfolding held_drop
held_drop-Emits f s =
    let d = drop_all_packets-Delivers f f.held in
    emptied f (record (drop_all_packets f f.held) { held = []; probing = false }) f.held refl refl
      (record { buf = d.buf; out = d.out; sound = d.sound }) s

pub held-held_drop : (f : Framer) → ((held_drop f).held ≡ []) × ((held_drop f).probing ≡ false)
unfolding held_drop
held-held_drop f = (refl, refl)

-- A packet that goes out while nothing is held.
deliver-Emits :
    (f : Framer) (p : Packet)
    → f.held ≡ []
    → AreSound f.out
    → IsPacket p.kind p.bytes
    → Emits f (deliver f p) p.bytes
unfolding deliver
deliver-Emits f p h s k = record {
  buf = refl;
  adds = rw (
    h,
    payload-deliver f.out p,
    append-nil (payload f.out),
    append-nil (payload f.out ++ p.bytes),
  );
  wf = record {
    quiet = λ q. h;
    few = rw h (omega arith);
    delivered = AreSound-append f.out (p ∷ []) s (k, tt);
    holds = rw h tt;
  };
}

hold-Emits :
    (f : Framer) (p : Packet)
    → WellFormed f
    → f.probing ≡ true
    → length f.held ≤ 3
    → IsPacket p.kind p.bytes
    → Emits f (record f { held = f.held ++ (p ∷ []) }) p.bytes
hold-Emits f p wf h l k = record {
  buf = refl;
  adds = rw (payload-deliver f.held p, append_assoc (payload f.out) (payload f.held) p.bytes);
  wf = record {
    quiet = λ q. absurd (cc);
    few = omega (arith, length-append f.held (p ∷ []));
    delivered = wf.delivered;
    holds = AreSound-append f.held (p ∷ []) wf.holds (k, tt);
  };
}

drop_deliver-Emits :
    (f : Framer) (bytes : Bytes)
    → AreSound f.out
    → Emits f
        (deliver
          (count_unknown (length bytes) (held_drop f))
          (record { kind = unknown; bytes = bytes }))
        bytes
unfolding count_unknown
drop_deliver-Emits f bytes s =
    let d = held_drop-Emits f s in
    let g = count_unknown (length bytes) (held_drop f) in
    let r =
      deliver-Emits g (record { kind = unknown; bytes = bytes }) ((held-held_drop f).0)
        d.wf.delivered (noise bytes) in
    record {
      buf = r.buf ∙ d.buf;
      adds = r.adds ∙ ap (λ q. q ++ bytes) (d.adds ∙ append-nil (sent f));
      wf = r.wf;
    }

-- Bytes of unknown type may only go out when nothing is held.
pub emit-Emits :
    (f : Framer) (p : Packet)
    → WellFormed f
    → (is_unknown p.kind ≡ true → f.probing ≡ false)
    → IsPacket p.kind p.bytes
    → Emits f (emit f p) p.bytes
unfolding emit
emit-Emits f p wf u k = elim (Bool-cases (f.probing && not (is_unknown p.kind))) [
  | inl h ↦ rw h (elim (Bool-cases (ltb (length f.held) held_max && leb (length p.bytes) inv_len)) [
    | inl r ↦ rw r (hold-Emits f p wf (ground arith) (ground arith) k)
    | inr r ↦ rw r (drop_deliver-Emits f p.bytes wf.delivered)
  ])
  | inr h ↦ rw h (deliver-Emits f p (wf.quiet (ground arith)) wf.delivered k)
]
