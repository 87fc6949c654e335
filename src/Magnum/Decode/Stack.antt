-- ===== src/Magnum/Decode/Stack.antt =====
-- Which inverter of a stack the decoder of src/magnum/mag_decode.c follows, and what it knows of the
-- voltage of the system.
use mathlib.Core.Bool.{false≢true}
use moon_flare.Prelude.{
  ℕ, ◌+◌, ◌<◌, ◌≡◌, ◌≢◌, ◌⊎◌, inl, inr, refl, sym, ◌∙◌, subst, ap, Bool, true, false, not, Option,
  none, some, Bytes, if_elim, arith, leb, ◌==◌, ◌%◌, ◌^◌,
}
use moon_flare.Magnum.Tables.{multiplier}
use moon_flare.Magnum.Units.{◌>>=◌, byte, s16}
use moon_flare.Magnum.State.{Inverter, Tap}
use moon_flare.Magnum.Decode.{
  relock_time, may_relock, relock, inverter_fields, learn_mult, store_inverter, follow,
  decode_inverter,
}

-- The system has 12, 24 or 48 volts.
abbrev pub IsMultiplier : ℕ → Type 0
IsMultiplier m = (m ≡ 1) ⊎ ((m ≡ 2) ⊎ (m ≡ 4))

-- What is known of an inverter is of the role that is followed, and its model, if it is one of
-- pymagnum's, has set the multiplier.
abbrev pub Consistent : Tap → Type 0
Consistent s =
    (s.inv.seen ≡ true → (s.stack_locked ≡ true) × (s.inv.stackmode ≡ s.stack_lock))
    × (s.inv.seen ≡ true → leb s.inv.model 150 ≡ true → s.mult ≡ multiplier s.inv.model)
    × IsMultiplier s.mult

-- What a decoder does: `true` is an inverter that is stored, with the time and the role that is
-- followed. Otherwise the inverter and the multiplier stay. Another role is followed only after the
-- last one was silent for five seconds.
abbrev pub Loyal : Tap → ℕ → Tap × Bool → Type 0
Loyal s now (s', r) =
    (r ≡ true → (s'.inv.seen ≡ true) × (s'.inv.t ≡ now) × (s'.inv.stackmode ≡ s'.stack_lock))
    × (r ≡ false → (s'.inv ≡ s.inv) × (s'.mult ≡ s.mult))
    × (s.stack_locked ≡ true
        → s'.stack_lock ≢ s.stack_lock
        → (s.inv.seen ≡ true) × (s.inv.t + relock_time < now))

abbrev pub Steps : Tap → ℕ → Tap × Bool → Type 0
Steps s now r = (Consistent s → Consistent r.0) × Loyal s now r

-- What holds of a result, if there is one.
abbrev pub After {ℓ} : {A : Type ℓ} → (A → Type 0) → Option A → Type 0
After P none = Unit
After P (some a) = P a

module _ {ℓ} {A : Type ℓ} (P : A → Type 0) where
  bind_After {κ} :
      {B : Type κ} (o : Option B) (f : B → Option A)
      → ((b : B) → o ≡ some b → After P (f b))
      → After P (o >>= f)
  bind_After none f h = tt
  bind_After (some b) f h = h b refl

multiplier-IsMultiplier : (model : ℕ) → IsMultiplier (multiplier model)
unfolding multiplier
multiplier-IsMultiplier model =
    if_elim IsMultiplier (leb model 50) _ _ (λ e. inl refl)
      (λ e. if_elim IsMultiplier (leb model 107) _ _ (λ e. inr (inl refl)) (λ e. inr (inr refl)))

-- What the fields of an inverter's packet say of the packet.
abbrev FromPacket : Bytes → ℕ → Inverter → Type 0
FromPacket p now v = (v.seen ≡ true) × (v.t ≡ now) × (byte p 15 ≡ some v.stackmode)

inverter_fields-FromPacket :
    (p : Bytes) (now : ℕ) → After (FromPacket p now) (inverter_fields p now)
unfolding inverter_fields
inverter_fields-FromPacket p now = bind_After (FromPacket p now) (byte p 0) _ (λ x0 e0.
    bind_After (FromPacket p now) (byte p 1) _ (λ x1 e1.
      bind_After (FromPacket p now) (s16 p 2) _ (λ x2 e2.
        bind_After (FromPacket p now) (s16 p 4) _ (λ x3 e3.
          bind_After (FromPacket p now) (byte p 6) _ (λ x4 e4.
            bind_After (FromPacket p now) (byte p 7) _ (λ x5 e5.
              bind_After (FromPacket p now) (byte p 8) _ (λ x6 e6.
                bind_After (FromPacket p now) (byte p 9) _ (λ x7 e7.
                  bind_After (FromPacket p now) (byte p 10) _ (λ x8 e8.
                    bind_After (FromPacket p now) (byte p 11) _ (λ x9 e9.
                      bind_After (FromPacket p now) (byte p 12) _ (λ x10 e10.
                        bind_After (FromPacket p now) (byte p 13) _ (λ x11 e11.
                          bind_After (FromPacket p now) (byte p 14) _ (λ x12 e12.
                            bind_After (FromPacket p now) (byte p 15) _ (λ x13 e13.
                              bind_After (FromPacket p now) (byte p 16) _ (λ x14 e14.
                                bind_After (FromPacket p now) (byte p 17) _ (λ x15 e15.
                                  bind_After (FromPacket p now) (s16 p 18) _
                                    (λ x16 e16. (refl, refl, e13))))))))))))))))))

-- An inverter of the followed role, stored.
abbrev Stored : Tap → Inverter → Tap → Type 0
Stored t v u =
    (u.inv ≡ v)
    × (u.stack_locked ≡ t.stack_locked)
    × (u.stack_lock ≡ t.stack_lock)
    × (IsMultiplier t.mult → IsMultiplier u.mult)
    × (leb u.inv.model 150 ≡ true → u.mult ≡ multiplier u.inv.model)

learn_mult-Stored : (t : Tap) (v : Inverter) → Stored t v (learn_mult (record t { inv = v }))
unfolding learn_mult
learn_mult-Stored t v =
    if_elim (Stored t v) (leb v.model 150) _ _
      (λ e. (refl, refl, refl, (λ m. multiplier-IsMultiplier v.model), (λ h. refl)))
      (λ e. (refl, refl, refl, (λ m. m), (λ h. absurd (false≢true (sym e ∙ h)))))

-- The last parts of what a step shows.
abbrev Silent : Tap → ℕ → Tap → Type 0
Silent s now t =
    s.stack_locked ≡ true
    → t.stack_lock ≢ s.stack_lock
    → (s.inv.seen ≡ true) × (s.inv.t + relock_time < now)

stored-Steps :
    (s t : Tap) (now : ℕ) (v : Inverter)
    → t.stack_locked ≡ true
    → t.mult ≡ s.mult
    → Silent s now t
    → v.seen ≡ true
    → v.t ≡ now
    → v.stackmode ≡ t.stack_lock
    → Steps s now (learn_mult (record t { inv = v }), true)
stored-Steps s t now v locked same silent seen time role =
    let u = learn_mult (record t { inv = v }) in
    let (i, l, k, m, n) = learn_mult-Stored t v in
    let mode = ap (λ (w : Inverter). w.stackmode) i ∙ role ∙ sym k in
    (
      (λ c. ((λ h. (l ∙ locked, mode)), (λ h. n), m (subst IsMultiplier (sym same) c.2))),
      (
        (λ h. (ap (λ (w : Inverter). w.seen) i ∙ seen, ap (λ (w : Inverter). w.t) i ∙ time, mode)),
        (λ h. absurd (false≢true (sym h))),
        (λ a b. silent a (λ e. b (k ∙ e))),
      ),
    )

store_inverter-Steps :
    (s t : Tap) (p : Bytes) (now role : ℕ) (o : Option Inverter)
    → t.stack_locked ≡ true
    → t.mult ≡ s.mult
    → Silent s now t
    → byte p 15 ≡ some role
    → role ≡ t.stack_lock
    → After (FromPacket p now) o
    → After (Steps s now) (store_inverter t o)
unfolding store_inverter
store_inverter-Steps s t p now role none locked same silent at15 e h = tt
store_inverter-Steps s t p now role (some v) locked same silent at15 e (seen, time, mode) =
    let q : v.stackmode ≡ role = some-inj_ℕ v.stackmode role (sym mode ∙ at15) in
    stored-Steps s t now v locked same silent seen time (q ∙ e)
  where
    some-inj_ℕ : (a b : ℕ) → ◌≡◌ {A = Option ℕ} (some a) (some b) → a ≡ b
    some-inj_ℕ a b e = ground arith

-- A packet of another role is counted.
pub unchanged_Steps :
    (s : Tap) (now n : ℕ) → Steps s now (record s { other_inverter_packets = n }, false)
unchanged_Steps s now n =
    ((λ c. c), ((λ h. absurd (false≢true h)), (λ h. (refl, refl)), (λ a b. absurd (b refl))))

self_== : (a : ℕ) → not (a == a) ≡ false
self_== a = ground arith

relocks_Silent :
    (s : Tap) (role now : ℕ)
    → may_relock s now ≡ true
    → Silent s now (record s { stack_locked = true; stack_lock = role })
unfolding may_relock
relocks_Silent s role now m a b = ground arith

stays_locked : (s : Tap) (now : ℕ) → may_relock s now ≡ false → s.stack_locked ≡ true
unfolding may_relock
stays_locked s now m = ground arith

follow-Steps :
    (s : Tap) (p : Bytes) (now role : ℕ)
    → byte p 15 ≡ some role
    → After (Steps s now) (follow (relock s role now) p role now)
unfolding follow relock
follow-Steps s p now role at15 =
    let fields = inverter_fields-FromPacket p now in
    if_elim (λ (t : Tap). After (Steps s now) (follow t p role now)) (may_relock s now) _ _
      (λ m.
        if_elim (After (Steps s now)) (not (role == role)) _ _
          (λ e. absurd (false≢true (sym (self_== role) ∙ e)))
          (λ e.
            store_inverter-Steps s (record s { stack_locked = true; stack_lock = role }) p now role
              (inverter_fields p now) refl refl (relocks_Silent s role now m) at15 refl fields))
      (λ m.
        if_elim (After (Steps s now)) (not (role == s.stack_lock)) _ _
          (λ e. unchanged_Steps s now ((s.other_inverter_packets + 1) % 2 ^ 64))
          (λ e.
            store_inverter-Steps s s p now role (inverter_fields p now) (stays_locked s now m) refl
              (λ a b. absurd (b refl)) at15 (ground arith) fields))

pub decode_inverter-Steps :
    (s : Tap) (p : Bytes) (now : ℕ) → After (Steps s now) (decode_inverter s p now)
unfolding decode_inverter
decode_inverter-Steps s p now =
    bind_After (Steps s now) (byte p 15) _ (λ role e. follow-Steps s p now role e)
