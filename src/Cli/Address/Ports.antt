-- ===== src/Cli/Address/Ports.antt =====
-- What `cli_split_host_port` may return, and that it takes an address apart.
use moon_flare.Cli.Address.{
  localhost, strtol, split_last, port_of, fit, host_or_local, whole_host, with_port, split_copy,
  split_host_port,
}
use moon_flare.Prelude.Int.{ℤ, pos, negsuc}
use moon_flare.Prelude.{
  ℕ, ◌+◌, ◌-◌, ◌≤◌, ◌<◌, ◌≡◌, ◌≢◌, refl, ap, ◌∙◌, [], ◌∷◌, ◌++◌, false, ◌||◌, Option, none, some,
  length, length-take, length-append, take, take_all, Bytes, All, arith, leb, ◌==◌, if_elim,
}

abbrev IsEndpoint : ℕ → Option (Bytes × ℕ) → Type 0
IsEndpoint cap none = Unit
IsEndpoint cap (some (host, port)) =
    (1 ≤ port) × (port ≤ 65535) × (length host ≤ cap - 1) × (2 ≤ cap → 1 ≤ length host)

length-fit :
    (cap : ℕ) (s : Bytes)
    → (length (fit cap s) ≤ cap - 1) × (2 ≤ cap → 1 ≤ length s → 1 ≤ length (fit cap s))
unfolding fit
length-fit cap s =
    (omega (arith, length-take (cap - 1) s), λ h k. omega (arith, length-take (cap - 1) s))

port_of-range : (z : ℤ) (p : ℕ) → port_of z ≡ some p → (1 ≤ p) × (p ≤ 65535)
unfolding port_of
port_of-range (negsuc n) p e = absurd cc
port_of-range (pos n) p e = ground arith

host_or_local-length :
    (cap : ℕ) (host : Bytes)
    → (length (host_or_local cap host) ≤ cap - 1) × (2 ≤ cap → 1 ≤ length (host_or_local cap host))
unfolding host_or_local
host_or_local-length cap host =
    if_elim (λ h. (length h ≤ cap - 1) × (2 ≤ cap → 1 ≤ length h)) (length host == 0)
      (fit cap localhost) (fit cap host)
      (λ z. let (a, b) = length-fit cap localhost in (a, λ k. b k (omega arith)))
      (λ z. let (a, b) = length-fit cap host in (a, λ k. b k (ground arith)))

whole_host-length :
    (cap : ℕ) (s : Bytes)
    → (length (whole_host cap s) ≤ cap - 1) × (2 ≤ cap → 1 ≤ length (whole_host cap s))
unfolding whole_host
whole_host-length cap s =
    if_elim (λ h. (length h ≤ cap - 1) × (2 ≤ cap → 1 ≤ length h)) (length (fit cap s) == 0)
      (fit cap localhost) (fit cap s)
      (λ z. let (a, b) = length-fit cap localhost in (a, λ k. b k (omega arith)))
      (λ z. let (a, b) = length-fit cap s in (a, λ k. ground arith))

ported :
    (cap : ℕ) (host : Bytes) (o : Option ℕ)
    → ((p : ℕ) → o ≡ some p → (1 ≤ p) × (p ≤ 65535))
    → IsEndpoint cap (with_port cap host o)
unfolding with_port
ported cap host none h = tt
ported cap host (some p) h =
    let (a, b) = h p refl in let (c, d) = host_or_local-length cap host in (a, b, c, d)

split_copy-IsEndpoint :
    (cap : ℕ) (s : Bytes) (o : Option (Bytes × Bytes)) → IsEndpoint cap (split_copy cap s o)
unfolding split_copy
split_copy-IsEndpoint cap s none =
    let (c, d) = whole_host-length cap s in (omega arith, omega arith, c, d)
split_copy-IsEndpoint cap s (some (host, port)) =
    ported cap host (port_of (strtol port)) (λ p e. port_of-range (strtol port) p e)

split_host_port-IsEndpoint :
    (input : Option Bytes) (cap : ℕ) → IsEndpoint cap (split_host_port input cap)
unfolding split_host_port
split_host_port-IsEndpoint none cap = tt
split_host_port-IsEndpoint (some s) cap =
    if_elim (IsEndpoint cap) (length s == 0 || cap == 0 || leb 256 (length s)) none _ (λ h. tt)
      (λ h. split_copy-IsEndpoint cap s (split_last s))

-- What `cli_split_host_port` returns is a port from 1 to 65535 and a host that fits its buffer with
-- the NUL. The buffer has two bytes or more, and then the host is not empty.
split_host_port-range :
    (input : Option Bytes) (cap : ℕ) (host : Bytes) (port : ℕ)
    → 2 ≤ cap
    → split_host_port input cap ≡ some (host, port)
    → (1 ≤ port) × (port ≤ 65535) × (length host < cap) × (1 ≤ length host)
split_host_port-range input cap host port h e =
    let k = split_host_port-IsEndpoint input cap in
    let (a, b, c, d) = rw e at k in (a, b, omega arith, d h)

-- No colon.
unfoldable pub NoColon : Bytes → Type 0
NoColon = All (λ c. c ≢ b':')

abbrev Plain : Bytes → Type 0
Plain = All (λ c. c ≢ b':')

split_last-none : (s : Bytes) → Plain s → split_last s ≡ none
unfolding split_last
split_last-none [] h = refl
split_last-none (c ∷ s) (h, t) =
    let n : (c == b':') ≡ false = ground arith in rw (split_last-none s t, n) refl

split_last-append : (host s : Bytes) → Plain s → split_last (host ++ (b':' ∷ s)) ≡ some (host, s)
unfolding split_last
split_last-append [] s h = rw (split_last-none s h) refl
split_last-append (c ∷ host) s h = rw (split_last-append host s h) refl

host_fits :
    (cap : ℕ) (host : Bytes) → 1 ≤ length host → length host < cap → host_or_local cap host ≡ host
unfolding host_or_local fit
host_fits cap host h l =
    if_elim (λ q. q ≡ host) (length host == 0) (take (cap - 1) localhost) (take (cap - 1) host)
      (λ z. absurd (ground arith)) (λ z. take_all (cap - 1) host (omega arith))

port_of-pos : (port : ℕ) → 1 ≤ port → port ≤ 65535 → port_of (pos port) ≡ some port
unfolding port_of
port_of-pos port a b = ground arith

split_copy_lem :
    (cap : ℕ) (copy host digits : Bytes) (port : ℕ)
    → 1 ≤ length host
    → length host < cap
    → port_of (strtol digits) ≡ some port
    → split_copy cap copy (some (host, digits)) ≡ some (host, port)
unfolding split_copy with_port
split_copy_lem cap copy host digits port h l e =
    ap (with_port cap host) e ∙ ap (λ q. some (q, port)) (host_fits cap host h l)

-- A host that is not empty and fits its buffer, a colon, and a text without a colon that reads as a
-- port from 1 to 65535, of fewer than 256 bytes together, are taken apart again. The host itself may
-- have colons.
pub split_host_port-append :
    (host digits : Bytes) (port cap : ℕ)
    → 1 ≤ length host
    → length host < cap
    → length host + length digits < 255
    → NoColon digits
    → strtol digits ≡ pos port
    → 1 ≤ port
    → port ≤ 65535
    → split_host_port (some (host ++ (b':' ∷ digits))) cap ≡ some (host, port)
unfolding split_host_port NoColon
split_host_port-append host digits port cap h l m n e a b =
    let len = length-append host (b':' ∷ digits) in
    let k = split_last-append host digits n in
    let p : port_of (strtol digits) ≡ some port = ap port_of e ∙ port_of-pos port a b in
    if_elim (λ o. o ≡ some (host, port))
      (length (host ++ (b':' ∷ digits)) == 0
        || cap == 0
        || leb 256 (length (host ++ (b':' ∷ digits))))
      none _ (λ z. absurd (ground (arith, len)))
      (λ z.
        ap (split_copy cap (host ++ (b':' ∷ digits))) k
        ∙ split_copy_lem cap (host ++ (b':' ∷ digits)) host digits port h l p)
