-- ===== src/Jk/Tests.antt =====
-- Runs of the JK protocol on small inputs, and each theorem at an input.
use moon_flare.Jk.Frame.{header_rsp, crc8, u32}
use moon_flare.Jk.Command.{build_command, build_switch_cmd, build_register_cmd}
use moon_flare.Jk.Command.Laws.{IsCommand, build_command-IsCommand, u32-build_register_cmd}
use moon_flare.Jk.Assembler.{Assembler, empty, Drained, buf_size, strip, feed}
use moon_flare.Jk.Assembler.Rounds.{IsFrame, IsChecked}
use moon_flare.Jk.Assembler.Feed.{Feeds, feed-Feeds}
use moon_flare.Jk.Assembler.Overflow.{IsDeaf, Wakes, feed-IsDeaf}
use moon_flare.Jk.Assembler.Deliver.{feeds, feeds-IsFrame}
use moon_flare.Jk.Decode.{ok, accept, read_str, strip_end, is_blank, c_string}
use moon_flare.Jk.Decode.Text.{read_str_lem}
use moon_flare.Jk.Decode.Accept.{accept_iff}
use moon_flare.Prelude.{
  ◌≡◌, ◌↔◌, refl, inl, inr, List, [], ◌∷◌, ◌++◌, true, some, arith, Bytes, same_bytes, replicate,
  length, get_or,
}

build_switch_cmd_charge_on :
    build_switch_cmd 0x1d true
    ≡ 0xaa ∷ 0x55 ∷ 0x90 ∷ 0xeb ∷ 0x1d ∷ 4 ∷ 1 ∷ (replicate 12 0 ++ (0x9c ∷ []))
unfolding build_switch_cmd build_command crc8
build_switch_cmd_charge_on = refl

build_command-IsCommand_example :
    IsCommand 0x96 (some (7 ∷ 8 ∷ [])) 0 (build_command 0x96 (some (7 ∷ 8 ∷ [])) 0)
build_command-IsCommand_example = build_command-IsCommand 0x96 (some (7 ∷ 8 ∷ [])) 0

u32-build_register_cmd_example :
    (get_or (build_register_cmd 6 70000) 4 0 ≡ 6) × (u32 (build_register_cmd 6 70000) 6 ≡ 70000)
u32-build_register_cmd_example = u32-build_register_cmd 6 70000 (omega arith)

-- A settings frame with nothing in it.
abbrev settings_frame : Bytes
settings_frame = header_rsp ++ (1 ∷ (replicate 294 0 ++ (123 ∷ [])))

settings_frame-IsFrame : IsFrame settings_frame
unfolding crc8 IsChecked
settings_frame-IsFrame = record { whole = refl; header = refl; checked = (refl, inr (inl refl)) }

abbrev pieces : List Bytes
pieces = header_rsp ∷ (1 ∷ replicate 200 0) ∷ (replicate 94 0 ++ (123 ∷ [])) ∷ []

feeds-IsFrame_example :
    feeds empty [] pieces ≡ some (record { asm = empty; frame_buf = settings_frame; count = 1 })
unfolding strip same_bytes
feeds-IsFrame_example =
    feeds-IsFrame settings_frame pieces [] settings_frame-IsFrame refl
      ((refl, omega arith), ((refl, omega arith), ((refl, omega arith), tt)))

-- A byte, and a frame behind it.
abbrev noisy : Bytes
noisy = 7 ∷ settings_frame

feed-Feeds_example :
    (e : Drained) × (feed empty noisy [] 1 ≡ some e) × Feeds empty (strip noisy) 1 [] e
feed-Feeds_example = feed-Feeds empty noisy [] 1 (omega arith)

-- A frame that has begun, of which 299 bytes are there, and a long notification.
abbrev begun : Assembler
begun = record { buf = header_rsp ++ replicate 295 0; dropped = 0; corrupt = 0 }

feed-IsDeaf_example :
    (e : Drained) × (feed begun (replicate 214 1) [] 1 ≡ some e)
    × (e.count ≡ 0)
    × (length e.asm.buf ≡ buf_size)
    × (IsDeaf e.asm.buf × Wakes e.asm.buf)
unfolding strip same_bytes
feed-IsDeaf_example = feed-IsDeaf begun (replicate 214 1) [] 1 (omega arith) (omega arith)

accept_iff_example :
    (accept 1 (some settings_frame) ≡ ok settings_frame)
    ↔ (IsFrame settings_frame × (get_or settings_frame 4 0 ≡ 1))
accept_iff_example = accept_iff settings_frame 1 refl (inl refl)

-- A field of eight bytes with a blank before its NUL, and one without a NUL.
abbrev named_frame : Bytes
named_frame =
    replicate 22 0 ++ (65 ∷ 32 ∷ (replicate 6 0 ++ (replicate 7 66 ++ (32 ∷ replicate 262 0))))

read_str_lem_example : read_str named_frame 22 8 ≡ 65 ∷ 32 ∷ []
unfolding c_string strip_end is_blank
read_str_lem_example = read_str_lem named_frame 22 8 (omega arith) refl
