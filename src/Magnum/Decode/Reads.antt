-- ===== src/Magnum/Decode/Reads.antt =====
-- No decoder of src/magnum/mag_decode.c reads behind the end of a packet.
use moon_flare.Prelude.{
  ℕ, ◌+◌, ◌*◌, ◌^◌, ◌≤◌, ◌<◌, ◌≡◌, refl, Option, some, length, Bytes, get_elem?-some, arith, bit_or,
}
use moon_flare.Magnum.Units.{◌>>=◌, byte, u16, s16, signed}
use moon_flare.Magnum.State.{Remote, Ags, Bmk, Pt100}
use moon_flare.Magnum.Decode.{
  inverter_fields, remote_base, remote_80, remote_a0, remote_a1, remote_a2, remote_a3, remote_a4,
}
use moon_flare.Magnum.Decode.Replies.{
  decode_ags_a1, decode_ags_a2, decode_bmk, decode_pt_c1, decode_pt_c2,
}

abbrev pub InBounds {ℓ} : {A : Type ℓ} → Option A → Type ℓ
InBounds {A} o = (a : A) × (o ≡ some a)

module _ {ℓ} {A : Type ℓ} (p : Bytes) where
  pub read :
      (i : ℕ) (f : ℕ → Option A)
      → i < length p
      → ((b : ℕ) → InBounds (f b))
      → InBounds (byte p i >>= f)
  unfolding byte
  read i f h k = let (b, e) = get_elem?-some p i h in let (a, q) = k b in (a, rw e q)

pub then_reads {ℓ κ} :
    {A : Type ℓ} {B : Type κ} (o : Option A) (f : A → Option B)
    → InBounds o
    → ((a : A) → InBounds (f a))
    → InBounds (o >>= f)
then_reads o f (a, e) k = let (b, q) = k a in (b, rw e q)

pub byte-InBounds : (p : Bytes) (i : ℕ) → i < length p → InBounds (byte p i)
unfolding byte
byte-InBounds p i h = get_elem?-some p i h

pub u16-InBounds : (p : Bytes) (i : ℕ) → i + 1 < length p → InBounds (u16 p i)
unfolding u16
u16-InBounds p i h =
    read p i _ (omega arith) (λ hi. read p (i + 1) _ h (λ lo. (bit_or (hi * 2 ^ 8) lo, refl)))

pub s16-InBounds : (p : Bytes) (i : ℕ) → i + 1 < length p → InBounds (s16 p i)
unfolding s16
s16-InBounds p i h = then_reads (u16 p i) _ (u16-InBounds p i h) (λ n. (signed 16 n, refl))

pub inverter_fields-InBounds :
    (p : Bytes) (now : ℕ) → 20 ≤ length p → InBounds (inverter_fields p now)
unfolding inverter_fields
inverter_fields-InBounds p now h = read p 0 _ (omega arith) (λ x0. read p 1 _ (omega arith) (λ x1.
    then_reads (s16 p 2) _ (s16-InBounds p 2 (omega arith)) (λ x2.
      then_reads (s16 p 4) _ (s16-InBounds p 4 (omega arith)) (λ x3. read p 6 _ (omega arith) (λ x4.
        read p 7 _ (omega arith) (λ x5. read p 8 _ (omega arith) (λ x6.
          read p 9 _ (omega arith) (λ x7. read p 10 _ (omega arith) (λ x8.
            read p 11 _ (omega arith) (λ x9. read p 12 _ (omega arith) (λ x10.
              read p 13 _ (omega arith) (λ x11. read p 14 _ (omega arith) (λ x12.
                read p 15 _ (omega arith) (λ x13. read p 16 _ (omega arith) (λ x14.
                  read p 17 _ (omega arith) (λ x15.
                    then_reads (s16 p 18) _ (s16-InBounds p 18 (omega arith))
                      (λ x16. (_, refl))))))))))))))))))

pub remote_base-InBounds :
    (mult : ℕ) (v : Remote) (p : Bytes) → 14 ≤ length p → InBounds (remote_base mult v p)
unfolding remote_base
remote_base-InBounds mult v p h = read p 1 _ (omega arith) (λ x0. read p 3 _ (omega arith) (λ x1.
    read p 4 _ (omega arith) (λ x2. read p 5 _ (omega arith) (λ x3. read p 6 _ (omega arith) (λ x4.
      read p 7 _ (omega arith) (λ x5. read p 9 _ (omega arith) (λ x6.
        read p 10 _ (omega arith) (λ x7. read p 11 _ (omega arith) (λ x8.
          read p 12 _ (omega arith) (λ x9. read p 13 _ (omega arith) (λ x10. (_, refl))))))))))))

pub remote_80-InBounds : (v : Remote) (p : Bytes) → 17 ≤ length p → InBounds (remote_80 v p)
unfolding remote_80
remote_80-InBounds v p h = read p 2 _ (omega arith) (λ x0.
    read p 14 _ (omega arith)
      (λ x1. read p 15 _ (omega arith) (λ x2. read p 16 _ (omega arith) (λ x3. (_, refl)))))

pub remote_a0-InBounds :
    (mult : ℕ) (v : Remote) (p : Bytes) → 20 ≤ length p → InBounds (remote_a0 mult v p)
unfolding remote_a0
remote_a0-InBounds mult v p h = read p 14 _ (omega arith) (λ x0. read p 15 _ (omega arith) (λ x1.
    read p 16 _ (omega arith) (λ x2.
      read p 17 _ (omega arith)
        (λ x3. read p 18 _ (omega arith) (λ x4. read p 19 _ (omega arith) (λ x5. (_, refl)))))))

pub remote_a1-InBounds :
    (mult : ℕ) (v : Remote) (p : Bytes) → 20 ≤ length p → InBounds (remote_a1 mult v p)
unfolding remote_a1
remote_a1-InBounds mult v p h = read p 14 _ (omega arith) (λ x0. read p 15 _ (omega arith) (λ x1.
    read p 16 _ (omega arith) (λ x2.
      read p 17 _ (omega arith)
        (λ x3. read p 18 _ (omega arith) (λ x4. read p 19 _ (omega arith) (λ x5. (_, refl)))))))

pub remote_a2-InBounds : (v : Remote) (p : Bytes) → 20 ≤ length p → InBounds (remote_a2 v p)
unfolding remote_a2
remote_a2-InBounds v p h = read p 14 _ (omega arith) (λ x0. read p 15 _ (omega arith) (λ x1.
    read p 16 _ (omega arith) (λ x2.
      read p 17 _ (omega arith)
        (λ x3. read p 18 _ (omega arith) (λ x4. read p 19 _ (omega arith) (λ x5. (_, refl)))))))

pub remote_a3-InBounds : (v : Remote) (p : Bytes) → 19 ≤ length p → InBounds (remote_a3 v p)
unfolding remote_a3
remote_a3-InBounds v p h = read p 14 _ (omega arith) (λ x0. read p 15 _ (omega arith) (λ x1.
    read p 16 _ (omega arith)
      (λ x2. read p 17 _ (omega arith) (λ x3. read p 18 _ (omega arith) (λ x4. (_, refl))))))

pub remote_a4-InBounds : (v : Remote) (p : Bytes) → 16 ≤ length p → InBounds (remote_a4 v p)
unfolding remote_a4
remote_a4-InBounds v p h =
    read p 14 _ (omega arith) (λ x0. read p 15 _ (omega arith) (λ x1. (_, refl)))

pub decode_ags_a1-InBounds :
    (mult : ℕ) (v : Ags) (p : Bytes) → 6 ≤ length p → InBounds (decode_ags_a1 mult v p)
unfolding decode_ags_a1
decode_ags_a1-InBounds mult v p h = read p 1 _ (omega arith) (λ x0. read p 2 _ (omega arith) (λ x1.
    read p 3 _ (omega arith)
      (λ x2. read p 4 _ (omega arith) (λ x3. read p 5 _ (omega arith) (λ x4. (_, refl))))))

pub decode_ags_a2-InBounds : (v : Ags) (p : Bytes) → 5 ≤ length p → InBounds (decode_ags_a2 v p)
unfolding decode_ags_a2
decode_ags_a2-InBounds v p h = read p 1 _ (omega arith) (λ x0.
    read p 2 _ (omega arith)
      (λ x1. then_reads (u16 p 3) _ (u16-InBounds p 3 (omega arith)) (λ x2. (_, refl))))

pub decode_bmk-InBounds : (v : Bmk) (p : Bytes) → 18 ≤ length p → InBounds (decode_bmk v p)
unfolding decode_bmk
decode_bmk-InBounds v p h = read p 1 _ (omega arith) (λ x0.
    then_reads (u16 p 2) _ (u16-InBounds p 2 (omega arith)) (λ x1.
      then_reads (s16 p 4) _ (s16-InBounds p 4 (omega arith)) (λ x2.
        then_reads (u16 p 6) _ (u16-InBounds p 6 (omega arith)) (λ x3.
          then_reads (u16 p 8) _ (u16-InBounds p 8 (omega arith)) (λ x4.
            then_reads (s16 p 10) _ (s16-InBounds p 10 (omega arith)) (λ x5.
              then_reads (u16 p 12) _ (u16-InBounds p 12 (omega arith)) (λ x6.
                then_reads (u16 p 14) _ (u16-InBounds p 14 (omega arith)) (λ x7.
                  read p 16 _ (omega arith)
                    (λ x8. read p 17 _ (omega arith) (λ x9. (_, refl)))))))))))

pub decode_pt_c1-InBounds :
    (mult : ℕ) (v : Pt100) (p : Bytes) → 16 ≤ length p → InBounds (decode_pt_c1 mult v p)
unfolding decode_pt_c1
decode_pt_c1-InBounds mult v p h = read p 1 _ (omega arith) (λ x0. read p 2 _ (omega arith) (λ x1.
    read p 3 _ (omega arith) (λ x2. then_reads (u16 p 4) _ (u16-InBounds p 4 (omega arith)) (λ x3.
      then_reads (s16 p 6) _ (s16-InBounds p 6 (omega arith)) (λ x4.
        then_reads (u16 p 8) _ (u16-InBounds p 8 (omega arith)) (λ x5.
          read p 10 _ (omega arith) (λ x6. read p 11 _ (omega arith) (λ x7.
            read p 12 _ (omega arith) (λ x8. read p 13 _ (omega arith) (λ x9.
              read p 14 _ (omega arith)
                (λ x10. read p 15 _ (omega arith) (λ x11. (_, refl)))))))))))))

pub decode_pt_c2-InBounds : (v : Pt100) (p : Bytes) → 12 ≤ length p → InBounds (decode_pt_c2 v p)
unfolding decode_pt_c2
decode_pt_c2-InBounds v p h = read p 7 _ (omega arith) (λ x0.
    then_reads (u16 p 2) _ (u16-InBounds p 2 (omega arith)) (λ x1.
      then_reads (u16 p 4) _ (u16-InBounds p 4 (omega arith)) (λ x2. read p 6 _ (omega arith) (λ x3.
        read p 8 _ (omega arith) (λ x4.
          read p 9 _ (omega arith) (λ x5.
            read p 10 _ (omega arith) (λ x6. read p 11 _ (omega arith) (λ x7. (_, refl)))))))))
