-- ===== src/Cli/Address.antt =====
-- `cli_split_host_port` of src/cli/cli_addr.c. A string is the list of its bytes, NULL is `none`,
-- and so is -1.
pub mod Ports
use moon_flare.Prelude.{
  ℕ, ◌+◌, ◌-◌, ◌*◌, List, [], ◌∷◌, Bool, ◌&&◌, ◌||◌, Option, none, some, length, take, Bytes, ltb,
  leb, ◌==◌, if◌then◌else◌,
}
use moon_flare.Prelude.Int.{ℤ, pos, negsuc}

abbrev pub default_port : ℕ
default_port = 5250

-- "127.0.0.1"
abbrev pub localhost : Bytes
localhost = b'1' ∷ b'2' ∷ b'7' ∷ b'.' ∷ b'0' ∷ b'.' ∷ b'0' ∷ b'.' ∷ b'1' ∷ []

-- The digits that `strtol` reads in base 10. Where it stops at LONG_MAX, the number is as far out
-- of the range of ports as this one.
unfoldable pub digits_from : ℕ → Bytes → ℕ
digits_from acc [] = acc
digits_from acc (c ∷ s) =
    let more = digits_from (acc * 10 + (c - b'0')) s in
    if leb b'0' c && leb c b'9' then more else acc

unfoldable pub negated : ℕ → ℤ
negated n = if n == 0 then pos 0 else negsuc (n - 1)

-- A sign, and digits.
unfoldable pub signed : Bytes → ℤ
signed [] = pos 0
signed (c ∷ s) =
    if c == b'-'
    then negated (digits_from 0 s)
    else if c == b'+'
    then pos (digits_from 0 s)
    else pos (digits_from 0 (c ∷ s))

-- `strtol(s, NULL, 10)`, which passes over space in front.
unfoldable pub strtol : Bytes → ℤ
strtol [] = pos 0
strtol (c ∷ s) =
    let rest = strtol s in if c == 32 || (leb 9 c && leb c 13) then rest else signed (c ∷ s)

-- The parts before and behind the last colon.
unfoldable pub split_last : Bytes → Option (Bytes × Bytes)
split_last [] = none
split_last (c ∷ s) = elim (split_last s) [
  | some (host, port) ↦ some (c ∷ host, port)
  | none ↦ if c == b':' then some ([], s) else none
]

unfoldable pub port_of : ℤ → Option ℕ
port_of (negsuc n) = none
port_of (pos p) = if p == 0 || ltb 65535 p then none else some p

-- What `snprintf` keeps in `cap` bytes.
unfoldable pub fit : ℕ → Bytes → Bytes
fit cap s = take (cap - 1) s

unfoldable pub host_or_local : ℕ → Bytes → Bytes
host_or_local cap host = if length host == 0 then fit cap localhost else fit cap host

-- Without a colon, a buffer of one byte leaves no host, and does not fit the default either.
unfoldable pub whole_host : ℕ → Bytes → Bytes
whole_host cap copy = if length (fit cap copy) == 0 then fit cap localhost else fit cap copy

unfoldable pub with_port : ℕ → Bytes → Option ℕ → Option (Bytes × ℕ)
with_port cap host none = none
with_port cap host (some p) = some (host_or_local cap host, p)

unfoldable pub split_copy : ℕ → Bytes → Option (Bytes × Bytes) → Option (Bytes × ℕ)
split_copy cap copy none = some (whole_host cap copy, default_port)
split_copy cap copy (some (host, port)) = with_port cap host (port_of (strtol port))

-- `cli_split_host_port`: the host in `host_str`, and the port.
unfoldable pub split_host_port : Option Bytes → ℕ → Option (Bytes × ℕ)
split_host_port none cap = none
split_host_port (some s) cap =
    if length s == 0 || cap == 0 || leb 256 (length s)
    then none
    else split_copy cap s (split_last s)
