-- ===== src/Xd/Frame/Laws.antt =====
-- The frames of `bms_build_frame` are self-delimiting.
use moon_flare.Xd.Frame.{soi, eoi, check, build_frame}
use moon_flare.Prelude.{
  ℕ, ◌+◌, ◌%◌, ◌<◌, ◌≡◌, [], ◌∷◌, ◌++◌, arith, length, length-append, append_cancel, Bytes,
}

pub length-build_frame :
    (addr cmd : ℕ) (payload : Bytes) → length (build_frame addr cmd payload) ≡ length payload + 6
unfolding build_frame
length-build_frame addr cmd payload = omega (arith, length-append {0} payload)

-- No two requests share a frame, and none is the beginning of another: where two frames stand at
-- the start of one stream, with payloads of at most 255 bytes, the address, the command, the
-- payload and what follows agree.
pub build_frame-injective :
    (addr cmd addr' cmd' : ℕ) (p q us vs : Bytes)
    → length p < 256
    → length q < 256
    → build_frame addr cmd p ++ us ≡ build_frame addr' cmd' q ++ vs
    → (addr ≡ addr') × (cmd ≡ cmd') × (p ≡ q) × (us ≡ vs)
unfolding build_frame
build_frame-injective addr cmd addr' cmd' p q us vs hp hq e =
    let a : addr ≡ addr' = ground arith in
    let c : cmd ≡ cmd' = ground arith in
    let l : length p ≡ length q = ground arith in
    let x = check (soi ∷ addr ∷ cmd ∷ (length p % 256) ∷ p) in
    let y = check (soi ∷ addr' ∷ cmd' ∷ (length q % 256) ∷ q) in
    let t : (p ++ (x ∷ eoi ∷ [])) ++ us ≡ (q ++ (y ∷ eoi ∷ [])) ++ vs = ground arith in
    let (body, r) =
      append_cancel (p ++ (x ∷ eoi ∷ [])) (q ++ (y ∷ eoi ∷ [])) {us = us} {vs = vs}
        (omega (arith, length-append p (x ∷ eoi ∷ []), length-append q (y ∷ eoi ∷ []))) t in
    (a, c, (append_cancel p q {us = x ∷ eoi ∷ []} {vs = y ∷ eoi ∷ []} l body).0, r)
