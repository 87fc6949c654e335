-- ===== src/Classic/Tests.antt =====
-- The decoder of the Classic at an image of its registers, and each theorem at an input.
use moon_flare.Classic.Codec.{
  ok, missing_reg, type_mismatch, Reading, decode, reg_classic_name, expected_name, stage, eqmppt,
}
use moon_flare.Classic.Codec.Laws.{IsImage, Reads, decode-Reads, decode_iff}
use moon_flare.Prelude.{
  ℕ, zero, suc, ◌≤◌, ◌<◌, ◌≡◌, ◌≢◌, ◌↔◌, refl, List, [], ◌∷◌, ◌++◌, some, length, length-append,
  length-replicate, replicate, get_or, arith,
}

-- `n` empty registers, and the name.
image : ℕ → List ℕ
image n = replicate n 0 ++ (expected_name ∷ [])

image-IsImage : (n : ℕ) → IsImage (image n)
unfolding image IsImage
image-IsImage zero = (omega arith, tt)
image-IsImage (suc n) = (omega arith, image-IsImage n)

length-image : (n : ℕ) → n < length (image n)
unfolding image
length-image n =
    omega (arith, length-append (replicate n 0) (expected_name ∷ []), length-replicate {A = ℕ} n 0)

name-image : (n : ℕ) → get_or (image n) n 0 ≡ expected_name
unfolding image
name-image zero = refl
name-image (suc n) = name-image n

decode-Reads_example :
    (r : Reading) × (decode (some (image reg_classic_name)) ≡ ok r)
    × Reads (image reg_classic_name) r
decode-Reads_example =
    decode-Reads (image reg_classic_name) (image-IsImage reg_classic_name)
      (length-image reg_classic_name) (name-image reg_classic_name)

abbrev two_regs : List ℕ
two_regs = 1 ∷ 2 ∷ []

decode_iff_example :
    ((decode (some two_regs) ≡ missing_reg) ↔ (length two_regs ≤ reg_classic_name))
    × ((decode (some two_regs) ≡ type_mismatch) ↔ (
        (reg_classic_name < length two_regs)
        × (get_or two_regs reg_classic_name 0 ≢ expected_name)))
decode_iff_example = decode_iff two_regs

stage_18 : stage 18 ≡ eqmppt
unfolding stage
stage_18 = refl
