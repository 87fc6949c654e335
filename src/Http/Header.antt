-- ===== src/Http/Header.antt =====
-- Header fields in src/http/http_pt.c: `hdr_name_eq`, `hdr_is_identity`, `hdr_has_token`, `copy_token`
-- and `split_query`, and C's `strtoull`. picohttpparser lets no NUL through.
use moon_flare.Prelude.{
  ℕ, ◌+◌, ◌-◌, ◌*◌, ◌%◌, ◌^◌, [], ◌∷◌, Bool, true, false, ◌&&◌, ◌||◌, Option, none, some, map,
  Bytes, ltb, leb, ◌==◌, same_bytes, trim_start, trim_end, if◌then◌else◌,
}
use moon_flare.Device.Spec.{text}

abbrev pub lower : ℕ → ℕ
lower c = if leb b'A' c && leb c b'Z' then c + 32 else c

-- `strncasecmp` of the length of both.
abbrev pub same_text : Bytes → Bytes → Bool
same_text a b = same_bytes (map lower a) (map lower b)

-- `hdr_name_eq`
unfoldable pub name_eq : Bytes → Bytes → Bool
name_eq name s = same_text name s

abbrev is_blank : ℕ → Bool
is_blank c = c == b' ' || c == 9

-- `hdr_is_identity`
unfoldable pub is_identity : Bytes → Bool
is_identity v = same_text (trim_end is_blank (trim_start is_blank v)) (text "identity")

-- What is behind a token at the front, if it is there.
abbrev behind : Bytes → Bytes → Option Bytes
behind [] v = some v
behind (t ∷ ts) [] = none
behind (t ∷ ts) (c ∷ cs) = if lower t == lower c then behind ts cs else none

abbrev ends_token : Option Bytes → Bool
ends_token none = false
ends_token (some []) = true
ends_token (some (c ∷ cs)) = c == b',' || c == b' ' || c == 9 || c == b';'

-- `hdr_has_token`; `open` says whether a token can begin here.
unfoldable pub token_from : Bool → Bytes → Bytes → Bool
token_from begins tok [] = begins && ends_token (behind tok [])
token_from begins tok (c ∷ cs) =
    (begins && ends_token (behind tok (c ∷ cs)))
    || token_from (c == b' ' || c == 9 || c == b',') tok cs

abbrev pub has_token : Bytes → Bytes → Bool
has_token v tok = token_from true tok v

abbrev is_space : ℕ → Bool
is_space c = c == b' ' || (leb 9 c && leb c 13)

abbrev is_decimal : ℕ → Bool
is_decimal c = leb b'0' c && leb c b'9'

-- The number in the digits at the front, and whether there is one.
unfoldable pub digits_value : ℕ → Bytes → ℕ
digits_value acc [] = acc
digits_value acc (c ∷ cs) =
    let more = digits_value (acc * 10 + (c - b'0')) cs in if is_decimal c then more else acc

abbrev begins_decimal : Bytes → Bool
begins_decimal [] = false
begins_decimal (c ∷ cs) = is_decimal c

abbrev in_range : ℕ → Option ℕ
in_range v = if ltb v (2 ^ 64) then some v else none

abbrev negated : Option ℕ → Option ℕ
negated none = none
negated (some v) = some ((2 ^ 64 - v) % 2 ^ 64)

abbrev unsigned : Bytes → Option ℕ
unsigned s = if begins_decimal s then in_range (digits_value 0 s) else none

abbrev after_space : Bytes → Option ℕ
after_space [] = none
after_space (c ∷ cs) =
    if c == b'-'
    then negated (unsigned cs)
    else if c == b'+'
    then unsigned cs
    else unsigned (c ∷ cs)

-- `strtoull` to the base 10; `none` is a range error, or no number.
unfoldable pub strtoull : Bytes → Option ℕ
strtoull s = after_space (trim_start is_space s)

-- `split_query`: the path before the first question mark, and what is behind it.
unfoldable pub before_query : Bytes → Bytes
before_query [] = []
before_query (c ∷ cs) = let rest = before_query cs in if c == b'?' then [] else c ∷ rest

unfoldable pub query_of : Bytes → Bytes
query_of [] = []
query_of (c ∷ cs) = let rest = query_of cs in if c == b'?' then cs else rest
