-- ===== src/Textbelt/Tests.antt =====
-- Runs of the Textbelt functions on small inputs, and each theorem at an input.
use moon_flare.Textbelt.Phone.{
  phone_norm, phone_max, recipients, entries, numbers, is_space, is_digit, is_filler, digits_of,
  number_of, with_digits, norm, phone_mask, fit, add_number, collect, item,
}
use moon_flare.Textbelt.Phone.Numbers.{IsNumber, phone_norm-phone_norm}
use moon_flare.Textbelt.Phone.Many.{AreNumbers, recipients-AreNumbers}
use moon_flare.Textbelt.Form.{escape}
use moon_flare.Textbelt.Form.Laws.{unescape, unescape-escape, form-injective}
use moon_flare.Textbelt.Message.{
  msg_max, display, put_text, is_blank, put_title, cut, say, blank, message,
}
use moon_flare.Textbelt.Message.Bounds.{Shows, message-Shows}
use moon_flare.Prelude.{
  ◌≤◌, ◌≡◌, refl, [], ◌∷◌, ◌++◌, none, some, length, Bytes, arith, trim_start, trim_end,
}

-- "(555) 883-8530"
abbrev written : Bytes
written =
    b'(' ∷ b'5' ∷ b'5' ∷ b'5' ∷ b')' ∷ 32 ∷ b'8' ∷ b'8' ∷ b'3' ∷ b'-' ∷ b'8' ∷ b'5' ∷ b'3' ∷ b'0'
    ∷ []

abbrev normal : Bytes
normal = b'5' ∷ b'5' ∷ b'5' ∷ b'8' ∷ b'8' ∷ b'3' ∷ b'8' ∷ b'5' ∷ b'3' ∷ b'0' ∷ []

phone_norm_written : phone_norm (some written) phone_max ≡ some normal
unfolding phone_norm norm with_digits number_of digits_of trim_start is_space is_digit is_filler
phone_norm_written = refl

phone_mask-normal : phone_mask (some normal) 8 ≡ b'*' ∷ b'*' ∷ b'*' ∷ b'8' ∷ b'5' ∷ b'3' ∷ b'0' ∷ []
unfolding phone_mask fit
phone_mask-normal = refl

phone_norm-phone_norm_example : IsNumber normal × (phone_norm (some normal) phone_max ≡ some normal)
phone_norm-phone_norm_example = phone_norm-phone_norm written phone_max normal phone_norm_written

-- Two numbers, with an empty entry between them.
recipients_two :
    recipients (some (written ++ (b',' ∷ b';' ∷ 32 ∷ normal))) 4 ≡ numbers (normal ∷ normal ∷ [])
unfolding recipients entries collect add_number item phone_norm norm with_digits number_of digits_of
    trim_start trim_end is_space is_digit is_filler
recipients_two = refl

recipients-AreNumbers_example :
    (length (normal ∷ normal ∷ []) ≤ 4) × AreNumbers (normal ∷ normal ∷ [])
recipients-AreNumbers_example =
    recipients-AreNumbers (some (written ++ (b',' ∷ b';' ∷ 32 ∷ normal))) 4 (normal ∷ normal ∷ [])
      recipients_two

unescape-escape_example : unescape (escape (b'a' ∷ b'&' ∷ 200 ∷ [])) ≡ b'a' ∷ b'&' ∷ 200 ∷ []
unescape-escape_example =
    unescape-escape (b'a' ∷ b'&' ∷ 200 ∷ []) (omega arith, (omega arith, (omega arith, tt)))

abbrev amp : Bytes
amp = b'&' ∷ []

form-injective_example : (normal ≡ normal) × (amp ≡ amp) × (normal ≡ normal)
form-injective_example =
    form-injective normal amp normal normal amp normal (ground arith, ground arith, ground arith)
      (ground arith, ground arith, ground arith) refl

-- A title, a control character, and blanks at the end.
message_door :
    message (some (b'A' ∷ [])) (some (b'o' ∷ 9 ∷ 32 ∷ b'k' ∷ 10 ∷ [])) 100
    ≡ b'A' ∷ b':' ∷ 32 ∷ b'o' ∷ 32 ∷ b'k' ∷ []
unfolding message say cut put_title put_text display blank is_blank trim_end
message_door = refl

-- DEL is a control character that stays.
message_del : message none (some (b'o' ∷ 127 ∷ [])) 100 ≡ b'o' ∷ 127 ∷ []
unfolding message say cut put_title put_text display blank is_blank trim_end
message_del = refl

message-Shows_example :
    (length (message none (some (b'o' ∷ [])) 2) ≤ 1)
    × (length (message none (some (b'o' ∷ [])) 2) ≤ msg_max)
    × Shows 32 (message none (some (b'o' ∷ [])) 2)
message-Shows_example = message-Shows none (some (b'o' ∷ [])) 2
