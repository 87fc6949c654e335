-- ===== src/Jk/Command.antt =====
-- `jk_build_command` and the two commands made by it, in src/jk/jk_proto.c. The static buffer
-- that they return is the list of its 20 bytes.
pub mod Laws
use moon_flare.Jk.Frame.{header_cmd, crc8}
use moon_flare.Prelude.{
  ℕ, ◌+◌, ◌/◌, ◌%◌, ◌^◌, List, [], ◌∷◌, ◌++◌, Bool, Option, none, some, length, take, drop, set,
  replicate, ltb, if◌then◌else◌, Bytes,
}

-- memcpy into a buffer at an offset. A write past the end makes the list longer.
pub write_at : Bytes → ℕ → Bytes → Bytes
write_at buf off xs = take off buf ++ (xs ++ drop (off + length xs) buf)

abbrev pub cmd_frame_size : ℕ
cmd_frame_size = 20

abbrev pub cmd_crc_offset : ℕ
cmd_crc_offset = 19

-- The command byte and the length behind the header, over a cleared buffer.
pub command_head : ℕ → ℕ → Bytes
unfolding write_at
command_head cmd vlen =
    set (set (write_at (replicate cmd_frame_size 0) 0 header_cmd) 4 cmd) 5 (vlen % 256)

-- A value of more than 13 bytes is cut; with no value the counter is sent.
pub command_body : ℕ → Option Bytes → ℕ → Bytes
unfolding command_head
command_body cmd none counter = set (command_head cmd 0) 16 counter
command_body cmd (some value) counter =
    let head = command_head cmd (length value) in
    if ltb 0 (length value) then write_at head 6 (take 13 value) else set head 16 counter

pub seal : Bytes → Bytes
seal buf = set buf cmd_crc_offset (crc8 (take cmd_crc_offset buf))

-- `jk_build_command`. Where it has no value, the callers pass the length 0.
unfoldable pub build_command : ℕ → Option Bytes → ℕ → Bytes
unfolding command_body seal
build_command cmd value counter = seal (command_body cmd value counter)

unfoldable pub build_switch_cmd : ℕ → Bool → Bytes
build_switch_cmd reg on = build_command reg (some ((if on then 1 else 0) ∷ 0 ∷ 0 ∷ 0 ∷ [])) 0

unfoldable pub build_register_cmd : ℕ → ℕ → Bytes
build_register_cmd reg value =
    build_command reg
      (some (value % 256 ∷ value / 2 ^ 8 % 256 ∷ value / 2 ^ 16 % 256 ∷ value / 2 ^ 24 % 256 ∷ []))
      0
