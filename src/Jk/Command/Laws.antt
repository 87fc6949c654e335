-- ===== src/Jk/Command/Laws.antt =====
-- A command is a frame of 20 bytes that its receiver can check and read.
use moon_flare.Jk.Frame.{crc8, u32}
use moon_flare.Jk.Frame.Laws.{or_quad}
use moon_flare.Jk.Command.{
  write_at, cmd_frame_size, cmd_crc_offset, command_head, command_body, seal, build_command,
  build_register_cmd,
}
use moon_flare.Prelude.{
  ℕ, zero, suc, ◌+◌, ◌/◌, ◌%◌, ◌^◌, ◌≤◌, ◌<◌, ◌≡◌, refl, ap, ◌∙◌, [], ◌∷◌, ◌++◌, Option, none, some,
  length, length-append, length-take, take, drop, set, get_or, replicate, lt→ltb, arith, Bytes,
}

-- The bytes in front of a command's value; `vlen` is the length of its value.
abbrev pub front : ℕ → ℕ → Bytes
front cmd vlen = 0xaa ∷ 0x55 ∷ 0x90 ∷ 0xeb ∷ cmd ∷ (vlen % 256) ∷ []

-- The 13 bytes behind them: the value, cut or filled with zeros, or the counter as the eleventh.
abbrev pub payload : Option Bytes → ℕ → Bytes
payload none counter = replicate 10 0 ++ (counter ∷ 0 ∷ 0 ∷ [])
payload (some []) counter = replicate 10 0 ++ (counter ∷ 0 ∷ 0 ∷ [])
payload (some (x ∷ xs)) counter = take 13 ((x ∷ xs) ++ replicate 13 0)

abbrev pub value_length : Option Bytes → ℕ
value_length none = 0
value_length (some v) = length v

-- The whole command: `bytes` with their sum behind them.
abbrev pub summed : Bytes → Bytes
summed bytes = bytes ++ (crc8 bytes ∷ [])

abbrev pub IsCommand : ℕ → Option Bytes → ℕ → Bytes → Type 0
IsCommand cmd value counter f =
    (f ≡ summed (front cmd (value_length value) ++ payload value counter))
    × (length f ≡ cmd_frame_size)

length-payload : (value : Option Bytes) (counter : ℕ) → length (payload value counter) ≡ 13
length-payload none counter = refl
length-payload (some []) counter = refl
length-payload (some (x ∷ xs)) counter =
    omega (arith, length-take 12 (xs ++ replicate 13 0), length-append xs (replicate {A = ℕ} 13 0))

zeros : (n m : ℕ) → n ≤ m → replicate {A = ℕ} (suc n) 0 ≡ take n (replicate m 0) ++ (0 ∷ [])
zeros zero m h = refl
zeros (suc n) zero h = absurd (omega arith)
zeros (suc n) (suc m) h = ap (◌∷◌ 0) (zeros n m (omega arith))

-- A value over zeros.
padded :
    (n m : ℕ) (v : Bytes)
    → n ≤ m
    → take n v ++ drop (length (take n v)) (replicate (suc n) 0)
      ≡ take n (v ++ replicate m 0) ++ (0 ∷ [])
padded zero m v h = refl
padded (suc n) zero v h = absurd (omega arith)
padded (suc n) (suc m) [] h = ap (◌∷◌ 0) (zeros n m (omega arith))
padded (suc n) (suc m) (x ∷ v) h = ap (◌∷◌ x) (padded n (suc m) v (omega arith))

take-append : (xs ys : Bytes) → take (length xs) (xs ++ ys) ≡ xs
take-append [] ys = refl
take-append (x ∷ xs) ys = ap (◌∷◌ x) (take-append xs ys)

set-append : (xs : Bytes) (x y : ℕ) → set (xs ++ (x ∷ [])) (length xs) y ≡ xs ++ (y ∷ [])
set-append [] x y = refl
set-append (z ∷ xs) x y = ap (◌∷◌ z) (set-append xs x y)

-- The sum goes into the last byte.
seal_lem : (xs : Bytes) → length xs ≡ cmd_crc_offset → seal (xs ++ (0 ∷ [])) ≡ summed xs
unfolding seal
seal_lem xs l = rw (← l, take-append xs (0 ∷ []), set-append xs 0 (crc8 xs)) refl

command_body_lem :
    (cmd : ℕ) (value : Option Bytes) (counter : ℕ)
    → command_body cmd value counter
      ≡ (front cmd (value_length value) ++ payload value counter) ++ (0 ∷ [])
unfolding command_body command_head write_at
command_body_lem cmd none counter = refl
command_body_lem cmd (some []) counter = refl
command_body_lem cmd (some (x ∷ xs)) counter =
    let some_value = lt→ltb 0 (suc (length xs)) (omega arith) in
    let off : 6 + suc (length (take 12 xs))
        ≡ suc (suc (suc (suc (suc (suc (suc (length (take 12 xs)))))))) =
      omega arith in
    rw (some_value, off)
      (ap (λ ys. front cmd (suc (length xs)) ++ (x ∷ ys)) (padded 12 13 xs (omega arith)))

-- Every command is the command header, its command byte, the length of its value (modulo 256) and 13
-- bytes, with the sum of these behind them, and has 20 bytes. The 13 bytes are the value, cut or
-- filled with zeros, whatever its length; without a value, or with an empty one, they are zeros but
-- the eleventh, which is the counter.
pub build_command-IsCommand :
    (cmd : ℕ) (value : Option Bytes) (counter : ℕ)
    → IsCommand cmd value counter (build_command cmd value counter)
unfolding build_command
build_command-IsCommand cmd value counter =
    let p = payload value counter in
    let l = length-payload value counter in
    let whole =
      ap seal (command_body_lem cmd value counter)
      ∙ seal_lem (front cmd (value_length value) ++ p) (omega (arith, l)) in
    (
      whole,
      ap length whole
          ∙ omega (arith, l, length-append p (crc8 (front cmd (value_length value) ++ p) ∷ [])),
    )

-- The register that a register command writes, and the value in millivolts or milliamperes, can
-- be read back from the frame, for every `uint32_t`.
pub u32-build_register_cmd :
    (reg value : ℕ)
    → value < 2 ^ 32
    → (get_or (build_register_cmd reg value) 4 0 ≡ reg)
      × (u32 (build_register_cmd reg value) 6 ≡ value)
unfolding build_register_cmd build_command u32
u32-build_register_cmd reg value h = (
  refl,
  or_quad (value % 256) (value / 2 ^ 8 % 256) (value / 2 ^ 16 % 256) (value / 2 ^ 24 % 256)
        (omega arith) (omega arith) (omega arith)
      ∙ omega arith,
)
