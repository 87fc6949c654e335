-- ===== src/Magnum/Framer/Thins.antt =====
-- Byte strings that lose stray bytes, and the bytes of packets.
use moon_flare.Magnum.Packet.{turnaround_byte}
use moon_flare.Magnum.Framer.{Packet}
use moon_flare.Prelude.{ℕ, ◌≡◌, refl, subst, sym, List, [], ◌∷◌, ◌++◌, true, append_assoc, Bytes}

-- `Thins xs ys`: `ys` is `xs` without some bytes, each of which is a turnaround byte.
pub data Thins : Bytes → Bytes → Type 0 where
  whole : (xs : Bytes) → Thins xs xs
  stray :
      (us : Bytes) (b : ℕ) (vs : Bytes) {ys : Bytes}
      → turnaround_byte b ≡ true
      → Thins (us ++ vs) ys
      → Thins (us ++ (b ∷ vs)) ys

pub Thins-trans : {xs ys zs : Bytes} → Thins xs ys → Thins ys zs → Thins xs zs
Thins-trans (whole xs) s = s
Thins-trans (stray us b vs h t) s = stray us b vs h (Thins-trans t s)

pub Thins-append : {xs ys : Bytes} (zs : Bytes) → Thins xs ys → Thins (xs ++ zs) (ys ++ zs)
Thins-append zs (whole xs) = whole (xs ++ zs)
Thins-append zs (stray us b vs {ys} h t) =
    subst (λ q. Thins q (ys ++ zs)) (sym (append_assoc us (b ∷ vs) zs))
      (stray us b (vs ++ zs) h
        (subst (λ q. Thins q (ys ++ zs)) (append_assoc us vs zs) (Thins-append zs t)))

pub Thins-eq : {xs ys : Bytes} → xs ≡ ys → Thins xs ys
Thins-eq {xs} e = subst (Thins xs) e (whole xs)

abbrev pub payload : List Packet → Bytes
payload [] = []
payload (p ∷ ps) = p.bytes ++ payload ps

pub payload-append : (ps qs : List Packet) → payload (ps ++ qs) ≡ payload ps ++ payload qs
payload-append [] qs = refl
payload-append (p ∷ ps) qs =
    rw (payload-append ps qs, append_assoc p.bytes (payload ps) (payload qs))
