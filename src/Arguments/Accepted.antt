-- ===== src/Arguments/Accepted.antt =====
-- The texts that are accepted as numbers are those that spell a number which fits.
use grok.Base.{
  ℕ, ◌^◌, ◌<◌, ◌≤◌, ◌≡◌, ◌↔◌, ◌⊎◌, refl, sym, ap, ◌∙◌, Bool, true, false, inl, inr, Option, none,
  some, List, [], ◌∷◌, ◌++◌, All, map, ◌||◌, ◌==◌, Text, trim_text, Result, ok, arith,
}
use grok.Arguments.{ParseIntError, strip_hex, parse_auto, parse_u16_auto, parse_u32_auto}
use grok.Arguments.Numbers.{number_value, trimmed_value, unsigned_value, parse_auto-IsParsed}
use grok.Arguments.Trimmed.{IsWhite, IsInk, trim_text-ink, trim_text-around}
use grok.Arguments.Spelling.{
  Digit, Digits, digit_char, IsDigit, worth, all_digits, digits_text, digit_char-IsInk,
  unsigned_value-digits_text, digits_text-unsigned_value,
}

pub data Prefix : Type 0 where
  plain lower_hex upper_hex : Prefix

abbrev pub prefix_text : Prefix → Text
prefix_text plain = []
prefix_text lower_hex = b'0' ∷ b'x' ∷ []
prefix_text upper_hex = b'0' ∷ b'X' ∷ []

abbrev pub radix_of : Prefix → ℕ
radix_of plain = 10
radix_of lower_hex = 16
radix_of upper_hex = 16

-- Whitespace, a prefix, perhaps a plus sign, the digits, and whitespace.
pub record Spelling : Type 0 where
  pub front : Text
  pub prefix : Prefix
  pub plus : Bool
  pub digits : Digits
  pub back : Text

abbrev pub core : Spelling → Text
core s = prefix_text s.prefix ++ digits_text s.plus s.digits

abbrev pub spelled : Spelling → Text
spelled s = s.front ++ (core s ++ s.back)

abbrev pub IsSpelling : Spelling → Type 0
IsSpelling s =
    All IsWhite s.front
    × All (IsDigit (radix_of s.prefix)) (all_digits s.digits)
    × All IsWhite s.back

abbrev pub number : Spelling → ℕ
number s = worth (radix_of s.prefix) 0 (all_digits s.digits)

-- A result is the number of a spelling of the text, if it fits, and is no other.
abbrev pub IsAccepted : ℕ → Text → Result ParseIntError ℕ → Type 0
IsAccepted limit text result =
    (n : ℕ)
    → (result ≡ ok n)
      ↔ ((s : Spelling) × IsSpelling s × (spelled s ≡ text) × (number s ≡ n) × (n < limit))

digits-IsInk :
    (radix : ℕ) (ds : List Digit)
    → radix ≤ 16
    → All (IsDigit radix) ds
    → All IsInk (map digit_char ds)
digits-IsInk radix [] hr h = tt
digits-IsInk radix ((d, upper) ∷ ds) hr (h, hs) =
    (digit_char-IsInk d upper (omega arith), digits-IsInk radix ds hr hs)

digits_text-IsInk :
    (radix : ℕ) (plus : Bool) (digits : Digits)
    → radix ≤ 16
    → All (IsDigit radix) (all_digits digits)
    → All IsInk (digits_text plus digits)
digits_text-IsInk radix true digits hr h = (refl, digits-IsInk radix (all_digits digits) hr h)
digits_text-IsInk radix false digits hr h = digits-IsInk radix (all_digits digits) hr h

second_digit :
    (d : ℕ) (upper : Bool)
    → d < 10
    → ((digit_char (d, upper) == b'x') || (digit_char (d, upper) == b'X')) ≡ false
second_digit d true h = ground arith
second_digit d false h = ground arith

no_prefix :
    (a b : ℕ) (rest : Text) → ((b == b'x') || (b == b'X')) ≡ false → strip_hex (a ∷ b ∷ rest) ≡ none
unfolding strip_hex
no_prefix a b rest h = ground arith

strip_hex-digits_text :
    (plus : Bool) (digits : Digits)
    → All (IsDigit 10) (all_digits digits)
    → strip_hex (digits_text plus digits) ≡ none
unfolding strip_hex
strip_hex-digits_text true ((d, upper), ds) (h, hs) =
    no_prefix b'+' (digit_char (d, upper)) (map digit_char ds) (second_digit d upper h)
strip_hex-digits_text false ((d, upper), []) h = refl
strip_hex-digits_text false ((d, u), ((e, upper) ∷ ds)) (h, (k, hs)) =
    no_prefix (digit_char (d, u)) (digit_char (e, upper)) (map digit_char ds)
      (second_digit e upper k)

prefix_chars :
    (a b : ℕ) (rest hex : Text)
    → strip_hex (a ∷ b ∷ rest) ≡ some hex
    → (a ≡ b'0') × ((b ≡ b'x') ⊎ (b ≡ b'X')) × (rest ≡ hex)
unfolding strip_hex
prefix_chars a b rest hex h = (ground arith, ground arith, ground arith)

strip_hex-prefix :
    (text hex : Text)
    → strip_hex text ≡ some hex
    → (prefix : Prefix) × (radix_of prefix ≡ 16) × (prefix_text prefix ++ hex ≡ text)
unfolding strip_hex
strip_hex-prefix [] hex h = absurd (cc)
strip_hex-prefix (a ∷ []) hex h = absurd (cc)
strip_hex-prefix (a ∷ b ∷ rest) hex h =
    let (ha, hb, e) = prefix_chars a b rest hex h in
    elim hb [ inl x ↦ (lower_hex, refl, cc) | inr x ↦ (upper_hex, refl, cc) ]

-- What the steps of the code find in a spelling is its number.
number_value-prefix :
    (prefix : Prefix) (plus : Bool) (digits : Digits) (text : Text)
    → All (IsDigit (radix_of prefix)) (all_digits digits)
    → trim_text text ≡ prefix_text prefix ++ digits_text plus digits
    → number_value text ≡ some (worth (radix_of prefix) 0 (all_digits digits))
unfolding strip_hex
number_value-prefix plain plus digits text h e =
    ap trimmed_value e
    ∙ rw (trimmed_value, strip_hex-digits_text plus digits h)
        (unsigned_value-digits_text 10 plus digits (omega arith) h)
number_value-prefix lower_hex plus digits text h e =
    ap trimmed_value e ∙ unsigned_value-digits_text 16 plus digits (omega arith) h
number_value-prefix upper_hex plus digits text h e =
    ap trimmed_value e ∙ unsigned_value-digits_text 16 plus digits (omega arith) h

trim_text-core :
    (front back : Text) (prefix : Prefix) (plus : Bool) (digits : Digits)
    → All IsWhite front
    → All (IsDigit (radix_of prefix)) (all_digits digits)
    → All IsWhite back
    → trim_text (front ++ ((prefix_text prefix ++ digits_text plus digits) ++ back))
      ≡ prefix_text prefix ++ digits_text plus digits
trim_text-core front back plain true digits hf h hb =
    trim_text-ink front _ _ back hf (digits_text-IsInk 10 true digits (omega arith) h) hb
trim_text-core front back plain false (d, ds) hf h hb =
    trim_text-ink front _ _ back hf (digits_text-IsInk 10 false (d, ds) (omega arith) h) hb
trim_text-core front back lower_hex plus digits hf h hb =
    trim_text-ink front _ _ back hf (refl, (refl, digits_text-IsInk 16 plus digits (omega arith) h))
      hb
trim_text-core front back upper_hex plus digits hf h hb =
    trim_text-ink front _ _ back hf (refl, (refl, digits_text-IsInk 16 plus digits (omega arith) h))
      hb

number_value-spelled : (s : Spelling) → IsSpelling s → number_value (spelled s) ≡ some (number s)
number_value-spelled s (hf, h, hb) =
    number_value-prefix s.prefix s.plus s.digits (spelled s) h
      (trim_text-core s.front s.back s.prefix s.plus s.digits hf h hb)

radix_small : (prefix : Prefix) → radix_of prefix ≤ 16
radix_small plain = omega arith
radix_small lower_hex = omega arith
radix_small upper_hex = omega arith

-- A text in which they find a number spells it.
spelled-prefix :
    (text : Text) (prefix : Prefix) (behind : Text) (n : ℕ)
    → prefix_text prefix ++ behind ≡ trim_text text
    → unsigned_value (radix_of prefix) behind ≡ some n
    → (s : Spelling) × IsSpelling s × (spelled s ≡ text) × (number s ≡ n)
spelled-prefix text prefix behind n e h =
    let (plus, digits, hd, ht, hw) =
      digits_text-unsigned_value (radix_of prefix) n behind (radix_small prefix) h in
    let (front, back, hf, hb, ea) = trim_text-around text in
    (
      record { front = front; prefix = prefix; plus = plus; digits = digits; back = back },
      (hf, hd, hb),
      rw (ht, e) ea,
      hw,
    )

spelled-number_value :
    (text : Text) (n : ℕ)
    → number_value text ≡ some n
    → (s : Spelling) × IsSpelling s × (spelled s ≡ text) × (number s ≡ n)
spelled-number_value text n h = stripped text n (strip_hex (trim_text text)) refl h
  where
    stripped :
        (text : Text) (n : ℕ) (o : Option Text)
        → strip_hex (trim_text text) ≡ o
        → (elim o as (λ x. Option ℕ) [
          | some hex ↦ unsigned_value 16 hex
          | none ↦ unsigned_value 10 (trim_text text)
        ])
          ≡ some n
        → (s : Spelling) × IsSpelling s × (spelled s ≡ text) × (number s ≡ n)
    stripped text n none e h = spelled-prefix text plain (trim_text text) n refl h
    stripped text n (some hex) e h =
        let (prefix, r, ep) = strip_hex-prefix (trim_text text) hex e in
        spelled-prefix text prefix hex n ep (rw r h)

parse_auto-IsAccepted :
    (limit : ℕ) (text : Text) → 0 < limit → IsAccepted limit text (parse_auto limit text)
parse_auto-IsAccepted limit text hl n =
    let (to, from) = parse_auto-IsParsed limit text hl n in
    (
      (λ e.
          let (v, lt) = to e in
          let (s, hs, he, hn) = spelled-number_value text n v in (s, hs, he, hn, lt)),
      (λ r.
          let (s, hs, he, hn, lt) = r in
          from (ap number_value (sym he) ∙ number_value-spelled s hs ∙ ap some hn, lt)),
    )

-- A text is accepted as a log code or as a start magic, and as which number, exactly when it spells that
-- number and the number fits in 16 bits or in 32. A spelling is whitespace, `0x` or `0X` or neither,
-- perhaps a plus sign, one digit at least, each below 16 behind `0x` or `0X` (a letter from ten on, small
-- or capital) and else below ten, and whitespace; its number is that of the digits in that radix.
pub parse_auto_numbers :
    (text : Text)
    → IsAccepted (2 ^ 16) text (parse_u16_auto text)
      × IsAccepted (2 ^ 32) text (parse_u32_auto text)
parse_auto_numbers text = (
  parse_auto-IsAccepted (2 ^ 16) text (omega arith),
  parse_auto-IsAccepted (2 ^ 32) text (omega arith),
)
