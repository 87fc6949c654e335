-- ===== src/Textbelt/Message.antt =====
-- `put_text` and `tb_message` of src/textbelt/tb.c. The text in `buf`, of which `off` bytes are in
-- use, is the list of these bytes, and NULL is `none`.
pub mod Bounds
use moon_flare.Prelude.{
  ℕ, zero, suc, ◌+◌, ◌-◌, List, [], ◌∷◌, ◌++◌, Bool, ◌&&◌, ◌||◌, Option, none, some, length, take,
  get_or, bit_and, min, Bytes, trim_end, ltb, leb, ◌==◌, if◌then◌else◌,
}

-- `TB_MSG_MAX`
abbrev pub msg_max : ℕ
msg_max = 320

-- `sizeof(buf)`
abbrev pub buf_size : ℕ
buf_size = 648

-- A byte below 32 becomes a blank.
unfoldable pub display : ℕ → ℕ
display c = if ltb c 32 then 32 else c

unfoldable pub put_text : Bytes → ℕ → Bytes → Bytes
put_text out cap [] = out
put_text out cap (c ∷ s) =
    let ch = display c in
    let same = put_text out cap s in
    let more = put_text (out ++ (ch ∷ [])) cap s in
    if leb cap (length out + 1)
    then out
    else if ch == 32 && (length out == 0 || get_or out (length out - 1) 0 == 32)
    then same
    else more

abbrev pub text : Option Bytes → Bytes
text none = []
text (some s) = s

unfoldable pub is_blank : ℕ → Bool
is_blank c = c == 32

-- The title with its colon.
unfoldable pub put_title : Bytes → Bytes
put_title title =
    let t = trim_end is_blank (put_text [] buf_size title) in
    if ltb 0 (length t) && ltb (length t + 2) buf_size then t ++ (b':' ∷ 32 ∷ []) else t

-- The first byte of the UTF-8 character that stands at `off`, or before it.
unfoldable pub char_start : Bytes → ℕ → ℕ
char_start buf zero = zero
char_start buf (suc off) =
    let before = char_start buf off in
    if bit_and (get_or buf (suc off) 0) 0xc0 == 0x80 then before else suc off

unfoldable pub cut : Bytes → ℕ → Bytes
cut buf max =
    if ltb max (length buf) && leb 4 max
    then trim_end is_blank (take (char_start buf (max - 3)) buf) ++ (b'.' ∷ b'.' ∷ b'.' ∷ [])
    else buf

-- What there is to say, when the message is not blank.
unfoldable pub say : Bytes → Bytes → ℕ → Bytes
say title s max = cut (trim_end is_blank (put_text (put_title title) buf_size s)) max

unfoldable pub blank : Bytes → Bool
blank buf = length buf == 0 || (length buf == 1 && get_or buf 0 0 == 32)

-- `tb_message`, which writes to `out` unless that is NULL or has no room: the string in `out`.
unfoldable pub message : Option Bytes → Option Bytes → ℕ → Bytes
message title s cap =
    if blank (put_text [] buf_size (text s))
    then []
    else take (cap - 1) (say (text title) (text s) (min (cap - 1) msg_max))
