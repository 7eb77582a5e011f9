-- ===== src/Arguments.antt =====
-- The numbers of the command lines: `parse_u16_auto` of crates/6grok-agent/src/main.rs and
-- crates/6grok-qcsuper/src/main.rs, and `parse_u32_auto` of crates/6grok-samsung-sdm/src/main.rs.
pub mod Numbers
pub mod Trimmed
pub mod Spelling
pub mod Accepted
use grok.Base.{
  ℕ, ◌+◌, ◌-◌, ◌*◌, ◌^◌, Bool, true, false, ◌&&◌, ◌||◌, Option, none, some, [], ◌∷◌, ltb, leb, ◌==◌,
  if◌then◌else◌, Text, trim_text, Result, ok, err,
}

-- `IntErrorKind`, as far as it comes about.
pub data ParseIntError : Type 0 where
  empty invalid_digit pos_overflow : ParseIntError

-- A digit, whatever the radix.
abbrev pub digit_of : ℕ → Option ℕ
digit_of c =
    if leb b'0' c && leb c b'9'
    then some (c - b'0')
    else if leb b'a' c && leb c b'z'
    then some (c - b'a' + 10)
    else if leb b'A' c && leb c b'Z'
    then some (c - b'A' + 10)
    else none

-- `char::to_digit`
unfoldable pub to_digit : ℕ → ℕ → Option ℕ
to_digit radix c = elim (digit_of c) [ none ↦ none | some d ↦ if ltb d radix then some d else none ]

-- The loop of `from_str_radix`, for a type of numbers below `limit`.
unfoldable pub from_digits : ℕ → ℕ → ℕ → Text → Result ParseIntError ℕ
unfolding to_digit
from_digits limit radix result [] = ok result
from_digits limit radix result (c ∷ cs) = elim (to_digit radix c) [
  | none ↦ err invalid_digit
  | some d ↦ elim (ltb (result * radix + d) limit) [
    | true ↦ from_digits limit radix (result * radix + d) cs
    | false ↦ err pos_overflow
  ]
]

-- `from_str_radix` of an unsigned type: a plus sign may stand in front of the digits.
unfoldable pub from_str_radix : ℕ → ℕ → Text → Result ParseIntError ℕ
unfolding from_digits
from_str_radix limit radix [] = err empty
from_str_radix limit radix (c ∷ []) =
    if (c == b'+') || (c == b'-') then err invalid_digit else from_digits limit radix 0 (c ∷ [])
from_str_radix limit radix (c ∷ d ∷ cs) =
    from_digits limit radix 0 (if c == b'+' then d ∷ cs else c ∷ d ∷ cs)

-- `strip_prefix("0x").or_else(|| value.strip_prefix("0X"))`
unfoldable pub strip_hex : Text → Option Text
strip_hex [] = none
strip_hex (a ∷ []) = none
strip_hex (a ∷ b ∷ rest) = if (a == b'0') && ((b == b'x') || (b == b'X')) then some rest else none

unfoldable pub parse_auto : ℕ → Text → Result ParseIntError ℕ
unfolding strip_hex from_str_radix
parse_auto limit text = elim (strip_hex (trim_text text)) [
  | some hex ↦ from_str_radix limit 16 hex
  | none ↦ from_str_radix limit 10 (trim_text text)
]

abbrev pub parse_u16_auto : Text → Result ParseIntError ℕ
parse_u16_auto = parse_auto (2 ^ 16)

abbrev pub parse_u32_auto : Text → Result ParseIntError ℕ
parse_u32_auto = parse_auto (2 ^ 32)
