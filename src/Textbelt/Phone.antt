-- ===== src/Textbelt/Phone.antt =====
-- `tb_phone_norm`, `tb_phone_mask` and `tb_recipients` of src/textbelt/tb.c. A string is the list
-- of its bytes before the NUL, and NULL is `none`; -1 is `none` too.
pub mod Numbers
pub mod Many
use moon_flare.Prelude.{
  ℕ, zero, suc, ◌+◌, ◌-◌, List, [], ◌∷◌, ◌++◌, Bool, true, false, ◌&&◌, ◌||◌, not, Option, none,
  some, length, take, drop, get_or, Bytes, trim_start, trim_end, ltb, leb, ◌==◌, if◌then◌else◌,
}

-- `TB_PHONE_MAX`
abbrev pub phone_max : ℕ
phone_max = 20

-- `isspace` and `isdigit` in the C locale.
unfoldable pub is_space : ℕ → Bool
is_space c = c == b' ' || (leb 9 c && leb c 13)

unfoldable pub is_digit : ℕ → Bool
is_digit c = leb b'0' c && leb c b'9'

-- What may stand between digits.
unfoldable pub is_filler : ℕ → Bool
is_filler c = c == b' ' || c == b'-' || c == b'.' || c == b'(' || c == b')'

-- The digits of `s`, when `room` of them still fit: an array of 32 bytes keeps its last for NUL.
unfoldable pub digits_of : ℕ → Bytes → Option Bytes
digits_of room [] = some []
digits_of zero (c ∷ s) =
    let rest = digits_of zero s in if is_digit c then none else if is_filler c then rest else none
digits_of (suc room) (c ∷ s) =
    let more = digits_of room s in
    let rest = digits_of (suc room) s in
    if is_digit c
    then (elim more [ none ↦ none | some ds ↦ some (c ∷ ds) ])
    else if is_filler c
    then rest
    else none

-- By the number of digits, and with or without a plus sign in front.
unfoldable pub number_of : Bool → Bytes → Option Bytes
number_of plus digits =
    let n = length digits in
    if plus
    then (if ltb n 8 || ltb 15 n || get_or digits 0 0 == b'0' then none else some (b'+' ∷ digits))
    else if n == 11 && get_or digits 0 0 == b'1'
    then some (b'+' ∷ digits)
    else if not (n == 10)
    then none
    else some digits

unfoldable pub with_digits : Bool → Option Bytes → Option Bytes
with_digits plus none = none
with_digits plus (some digits) = number_of plus digits

unfoldable pub norm : Bytes → Option Bytes
norm [] = with_digits false (digits_of 31 [])
norm (c ∷ s) =
    if c == b'+'
    then with_digits true (digits_of 31 s)
    else with_digits false (digits_of 31 (c ∷ s))

-- `tb_phone_norm`
unfoldable pub phone_norm : Option Bytes → ℕ → Option Bytes
phone_norm none cap = none
phone_norm (some s) cap = if ltb cap phone_max then none else norm (trim_start is_space s)

-- `snprintf(out, cap, ..)` keeps what fits before its NUL.
unfoldable pub fit : ℕ → Bytes → Bytes
fit cap s = take (cap - 1) s

-- `tb_phone_mask`
unfoldable pub phone_mask : Option Bytes → ℕ → Bytes
phone_mask none cap = fit cap (b'*' ∷ b'*' ∷ b'*' ∷ [])
phone_mask (some s) cap =
    if ltb (length s) 4
    then fit cap (b'*' ∷ b'*' ∷ b'*' ∷ [])
    else fit cap (b'*' ∷ b'*' ∷ b'*' ∷ drop (length s - 4) s)

is_separator : ℕ → Bool
is_separator c = c == b',' || c == b';'

put_in : ℕ → List Bytes → List Bytes
put_in c [] = (c ∷ []) ∷ []
put_in c (e ∷ es) = (c ∷ e) ∷ es

-- The entries between separators; those at the ends may be empty, which the loop passes over.
unfoldable pub entries : Bytes → List Bytes
unfolding is_separator put_in
entries [] = [] ∷ []
entries (c ∷ s) = let rest = entries s in if is_separator c then [] ∷ rest else put_in c rest

-- An array of 64 bytes holds an entry, without the space round it.
unfoldable pub item : Bytes → Bytes
item entry = trim_end is_space (trim_start is_space (take 63 entry))

-- What `tb_recipients` returns: the numbers, or -1 with one too many or an entry that is none.
pub data Recipients : Type 0 where
  numbers : List Bytes → Recipients
  too_many : Recipients
  bad : Bytes → Recipients

unfoldable pub add_number :
    List Bytes → Bytes → Option Bytes → (List Bytes → Recipients) → Recipients
add_number found s none later = bad s
add_number found s (some number) later = later (found ++ (number ∷ []))

unfoldable pub collect : ℕ → List Bytes → List Bytes → Recipients
collect max found [] = numbers found
collect max found (e ∷ es) =
    let s = item e in
    let rest = collect max found es in
    if length s == 0
    then rest
    else if leb max (length found)
    then too_many
    else add_number found s (phone_norm (some s) phone_max) (λ all. collect max all es)

-- `tb_recipients`
unfoldable pub recipients : Option Bytes → ℕ → Recipients
recipients none max = numbers []
recipients (some list) max = collect max [] (entries list)
