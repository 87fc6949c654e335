-- ===== src/Cli/Tests.antt =====
-- Runs of `cli_split_host_port` on small inputs, and each theorem at an input.
use moon_flare.Cli.Address.{
  digits_from, signed, strtol, split_last, port_of, fit, host_or_local, split_copy, with_port,
  split_host_port,
}
use moon_flare.Cli.Address.Ports.{NoColon, split_host_port-append}
use moon_flare.Prelude.Int.{pos}
use moon_flare.Prelude.{◌≡◌, refl, [], ◌∷◌, ◌++◌, some, Bytes, arith}

abbrev host : Bytes
host = b'p' ∷ b'i' ∷ []

abbrev digits : Bytes
digits = b'8' ∷ b'0' ∷ []

strtol-digits : strtol digits ≡ pos 80
unfolding strtol signed digits_from
strtol-digits = refl

split_host_port_plain : split_host_port (some (host ++ (b':' ∷ digits))) 128 ≡ some (host, 80)
unfolding split_host_port split_copy with_port split_last port_of host_or_local fit strtol signed
    digits_from
split_host_port_plain = refl

-- What follows the digits is passed over.
split_host_port_rest :
    split_host_port (some (host ++ (b':' ∷ b'8' ∷ b'0' ∷ b'x' ∷ []))) 128 ≡ some (host, 80)
unfolding split_host_port split_copy with_port split_last port_of host_or_local fit strtol signed
    digits_from
split_host_port_rest = refl

split_host_port-append_example :
    split_host_port (some (host ++ (b':' ∷ digits))) 128 ≡ some (host, 80)
unfolding NoColon
split_host_port-append_example =
    split_host_port-append host digits 80 128 (omega arith) (omega arith) (omega arith)
      (ground arith, (ground arith, tt)) strtol-digits (omega arith) (omega arith)
