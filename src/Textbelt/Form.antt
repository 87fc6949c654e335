-- ===== src/Textbelt/Form.antt =====
-- `tb_escape` and `tb_form` of src/textbelt/tb.c, where memory can be had.
pub mod Laws
use moon_flare.Textbelt.Phone.{is_digit}
use moon_flare.Prelude.{
  ℕ, ◌+◌, ◌/◌, List, [], ◌∷◌, ◌++◌, Bool, ◌&&◌, ◌||◌, get_or, bit_and, Bytes, leb, ◌==◌,
  if◌then◌else◌,
}

-- `isalnum` in the C locale.
is_alnum : ℕ → Bool
is_alnum c = is_digit c || (leb b'A' c && leb c b'Z') || (leb b'a' c && leb c b'z')

unfoldable pub is_plain : ℕ → Bool
unfolding is_alnum
is_plain c = is_alnum c || c == b'-' || c == b'.' || c == b'_' || c == b'~'

abbrev pub hex : Bytes
hex =
    b'0' ∷ b'1' ∷ b'2' ∷ b'3' ∷ b'4' ∷ b'5' ∷ b'6' ∷ b'7' ∷ b'8' ∷ b'9' ∷ b'A' ∷ b'B' ∷ b'C' ∷ b'D'
    ∷ b'E' ∷ b'F' ∷ []

-- `tb_escape`
unfoldable pub escape : Bytes → Bytes
escape [] = []
escape (c ∷ s) =
    if is_plain c
    then c ∷ escape s
    else b'%' ∷ get_or hex (c / 16) 0 ∷ get_or hex (bit_and c 15) 0 ∷ escape s

abbrev pub phone_is : Bytes
phone_is = b'p' ∷ b'h' ∷ b'o' ∷ b'n' ∷ b'e' ∷ b'=' ∷ []

abbrev pub message_is : Bytes
message_is = b'm' ∷ b'e' ∷ b's' ∷ b's' ∷ b'a' ∷ b'g' ∷ b'e' ∷ b'=' ∷ []

abbrev pub key_is : Bytes
key_is = b'k' ∷ b'e' ∷ b'y' ∷ b'=' ∷ []

-- `tb_form`
unfoldable pub form : Bytes → Bytes → Bytes → Bytes
form phone message key =
    phone_is
    ++ (escape phone
        ++ (b'&' ∷ (message_is ++ (escape message ++ (b'&' ∷ (key_is ++ escape key))))))
