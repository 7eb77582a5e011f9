-- ===== src/Arguments/Numbers.antt =====
-- The numbers that are accepted are those that the texts stand for, as far as they fit.
use grok.Base.{
  ℕ, zero, suc, ◌+◌, ◌*◌, ◌≤◌, ◌<◌, ◌≡◌, ◌↔◌, Bool-cases, inl, inr, true, false, ◌||◌, Option,
  Option-cases, none, some, [], ◌∷◌, ltb, ltb→lt, ◌==◌, if◌then◌else◌, Text, trim_text, Result, ok,
  err, arith,
}
use grok.Arguments.{
  ParseIntError, invalid_digit, pos_overflow, to_digit, from_digits, from_str_radix, strip_hex,
  parse_auto,
}

-- The number that digits stand for, behind those that stand for `before`.
abbrev pub digits_value : ℕ → ℕ → Text → Option ℕ
digits_value radix before [] = some before
digits_value radix before (c ∷ cs) = elim (to_digit radix c) [
  | none ↦ none
  | some d ↦ digits_value radix (before * radix + d) cs
]

-- One digit at least, behind a plus sign if there is one.
abbrev pub unsigned_value : ℕ → Text → Option ℕ
unsigned_value radix [] = none
unsigned_value radix (c ∷ []) =
    if (c == b'+') || (c == b'-') then none else digits_value radix 0 (c ∷ [])
unsigned_value radix (c ∷ d ∷ cs) = digits_value radix 0 (if c == b'+' then d ∷ cs else c ∷ d ∷ cs)

-- What the steps of the code find in a text: hexadecimal behind `0x` or `0X`, else decimal, with whitespace
-- around it.
abbrev pub trimmed_value : Text → Option ℕ
trimmed_value text = elim (strip_hex text) [
  | some hex ↦ unsigned_value 16 hex
  | none ↦ unsigned_value 10 text
]

abbrev pub number_value : Text → Option ℕ
number_value text = trimmed_value (trim_text text)

-- A result that is the number, if it fits.
abbrev pub IsParsed : ℕ → Option ℕ → Result ParseIntError ℕ → Type 0
IsParsed limit value result = (n : ℕ) → (result ≡ ok n) ↔ ((value ≡ some n) × (n < limit))

grows : (before radix d : ℕ) → 0 < radix → before ≤ before * radix + d
grows before zero d h = absurd (omega arith)
grows before (suc r) d h = ground arith

-- One digit, in front of the others.
digit-le :
    (o : Option ℕ) (before radix n : ℕ) (rest : ℕ → Option ℕ)
    → 0 < radix
    → ((d : ℕ) → rest d ≡ some n → before * radix + d ≤ n)
    → (elim o as (λ x. Option ℕ) [ none ↦ none | some d ↦ rest d ]) ≡ some n
    → before ≤ n
digit-le none before radix n rest r k h = cc
digit-le (some d) before radix n rest r k h =
    let more = k d h in let grown = grows before radix d r in omega arith

fitting :
    (limit next : ℕ) (value : Option ℕ) (parsed : Result ParseIntError ℕ)
    → (next < limit → IsParsed limit value parsed)
    → ((n : ℕ) → value ≡ some n → next ≤ n)
    → IsParsed limit value (elim (ltb next limit) as (λ x. Result ParseIntError ℕ) [
      | true ↦ parsed
      | false ↦ err pos_overflow
    ])
fitting limit next value parsed h k n = elim (Bool-cases (ltb next limit)) [
  | inl t ↦ rw t (h (ltb→lt next limit t) n)
  | inr t ↦ rw t (λ e. cc, λ e. absurd (too_large n e t))
]
  where
    too_large : (n : ℕ) → (value ≡ some n) × (n < limit) → ltb next limit ≡ false → ⊥
    too_large n (v, lt) t = let le = k n v in ground arith

digit-IsParsed :
    (o : Option ℕ) (limit base : ℕ) (value : ℕ → Option ℕ) (parsed : ℕ → Result ParseIntError ℕ)
    → ((d : ℕ) → base + d < limit → IsParsed limit (value d) (parsed d))
    → ((d n : ℕ) → value d ≡ some n → base + d ≤ n)
    → IsParsed limit
        (elim o as (λ x. Option ℕ) [ none ↦ none | some d ↦ value d ])
        (elim o as (λ x. Result ParseIntError ℕ) [
          | none ↦ err invalid_digit
          | some d ↦ elim (ltb (base + d) limit) as (λ x. Result ParseIntError ℕ) [
            | true ↦ parsed d
            | false ↦ err pos_overflow
          ]
        ])
digit-IsParsed none limit base value parsed h k n = (λ e. cc, λ e. absurd (cc))
digit-IsParsed (some d) limit base value parsed h k n =
    fitting limit (base + d) (value d) (parsed d) (h d) (k d) n

module _ (radix : ℕ) (some_radix : 0 < radix) where
  digits_value-le : (before n : ℕ) (cs : Text) → digits_value radix before cs ≡ some n → before ≤ n
  digits_value-le before n [] h = ground (arith, h)
  digits_value-le before n (c ∷ cs) h =
      digit-le (to_digit radix c) before radix n (λ d. digits_value radix (before * radix + d) cs)
        some_radix (λ d e. digits_value-le (before * radix + d) n cs e) h

  module _ (limit : ℕ) where
    from_digits-IsParsed :
        (before : ℕ) (cs : Text)
        → before < limit
        → IsParsed limit (digits_value radix before cs) (from_digits limit radix before cs)
    unfolding from_digits
    from_digits-IsParsed before [] h n = ground (arith, h)
    from_digits-IsParsed before (c ∷ cs) h n =
        digit-IsParsed (to_digit radix c) limit (before * radix)
          (λ d. digits_value radix (before * radix + d) cs)
          (λ d. from_digits limit radix (before * radix + d) cs)
          (λ d lt. from_digits-IsParsed (before * radix + d) cs lt)
          (λ d m e. digits_value-le (before * radix + d) m cs e) n

    from_str_radix-IsParsed :
        (text : Text)
        → 0 < limit
        → IsParsed limit (unsigned_value radix text) (from_str_radix limit radix text)
    unfolding from_str_radix
    from_str_radix-IsParsed [] h n = (λ e. cc, λ e. absurd (cc))
    from_str_radix-IsParsed (c ∷ []) h n = elim (Bool-cases ((c == b'+') || (c == b'-'))) [
      | inl t ↦ rw t (λ e. cc, λ e. absurd (cc))
      | inr t ↦ rw t (from_digits-IsParsed 0 (c ∷ []) h n)
    ]
    from_str_radix-IsParsed (c ∷ d ∷ cs) h n =
        from_digits-IsParsed 0 (if c == b'+' then d ∷ cs else c ∷ d ∷ cs) h n

pub parse_auto-IsParsed :
    (limit : ℕ) (text : Text)
    → 0 < limit
    → IsParsed limit (number_value text) (parse_auto limit text)
unfolding parse_auto
parse_auto-IsParsed limit text h n = elim (Option-cases (strip_hex (trim_text text))) [
  | inl e ↦
      rw (parse_auto, trimmed_value, e)
        (from_str_radix-IsParsed 10 (omega arith) limit (trim_text text) h n)
  | inr (hex, e) ↦
      rw (parse_auto, trimmed_value, e) (from_str_radix-IsParsed 16 (omega arith) limit hex h n)
]
