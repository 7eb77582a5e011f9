-- ===== src/Tests/Arguments.antt =====
-- The numbers of the command lines at the texts of the sources' own tests.
use grok.Base.{◌^◌, ◌≡◌, refl, [], ◌∷◌, Text, ok, err, trim_text}
use grok.Arguments.{
  pos_overflow, to_digit, from_digits, from_str_radix, strip_hex, parse_auto, parse_u16_auto,
  parse_u32_auto,
}
use grok.Arguments.Accepted.{IsAccepted, parse_auto_numbers}

abbrev hex_code : Text
hex_code = b'0' ∷ b'x' ∷ b'b' ∷ b'0' ∷ b'c' ∷ b'0' ∷ []

parse_hex : parse_u16_auto hex_code ≡ ok 0xb0c0
unfolding parse_auto strip_hex from_str_radix from_digits to_digit trim_text
parse_hex = refl

parse_decimal : parse_u16_auto (b' ' ∷ b'4' ∷ b'5' ∷ b'2' ∷ b'4' ∷ b'8' ∷ []) ≡ ok 45248
unfolding parse_auto strip_hex from_str_radix from_digits to_digit trim_text
parse_decimal = refl

parse_too_large : parse_u16_auto (b'6' ∷ b'5' ∷ b'5' ∷ b'3' ∷ b'6' ∷ []) ≡ err pos_overflow
unfolding parse_auto strip_hex from_str_radix from_digits to_digit trim_text
parse_too_large = refl

parse_auto_numbers_example :
    IsAccepted (2 ^ 16) hex_code (parse_u16_auto hex_code)
    × IsAccepted (2 ^ 32) hex_code (parse_u32_auto hex_code)
parse_auto_numbers_example = parse_auto_numbers hex_code
