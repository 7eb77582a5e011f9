-- ===== src/Arguments/Spelling.antt =====
-- How a number is spelled, written down from its parts.
use grok.Base.{
  ℕ, ◌+◌, ◌*◌, ◌<◌, ◌≤◌, ◌≡◌, refl, Bool, Bool-cases, true, false, inl, inr, Option, none, some,
  List, [], ◌∷◌, ◌++◌, All, map, ◌||◌, ltb, leb, ◌==◌, if◌then◌else◌, Text, arith,
}
use grok.Arguments.{to_digit}
use grok.Arguments.Numbers.{digits_value, unsigned_value}
use grok.Arguments.Trimmed.{IsInk}

-- A digit: its value, and whether it is a capital letter where it is a letter.
abbrev pub Digit : Type 0
Digit = ℕ × Bool

abbrev pub digit_char : Digit → ℕ
digit_char (d, true) = if ltb d 10 then d + b'0' else d + 55
digit_char (d, false) = if ltb d 10 then d + b'0' else d + 87

abbrev pub IsDigit : ℕ → Digit → Type 0
IsDigit radix (d, upper) = d < radix

-- The digits that follow `before` so far.
abbrev pub worth : ℕ → ℕ → List Digit → ℕ
worth radix before [] = before
worth radix before ((d, upper) ∷ ds) = worth radix (before * radix + d) ds

abbrev pub plus_sign : Bool → Text
plus_sign true = b'+' ∷ []
plus_sign false = []

no_sign :
    (radix d : ℕ) (upper : Bool)
    → d < radix
    → radix ≤ 16
    → ((digit_char (d, upper) == b'+') || (digit_char (d, upper) == b'-')) ≡ false
no_sign radix d true h hr = ground arith
no_sign radix d false h hr = ground arith

no_plus :
    (radix d : ℕ) (upper : Bool) → d < radix → radix ≤ 16 → (digit_char (d, upper) == b'+') ≡ false
no_plus radix d true h hr = ground arith
no_plus radix d false h hr = ground arith

to_digit-digit_char :
    (radix d : ℕ) (upper : Bool)
    → d < radix
    → radix ≤ 16
    → to_digit radix (digit_char (d, upper)) ≡ some d
unfolding to_digit
to_digit-digit_char radix d true h hr = ground arith
to_digit-digit_char radix d false h hr = ground arith

digit_char-to_digit :
    (radix c d : ℕ)
    → radix ≤ 16
    → to_digit radix c ≡ some d
    → (upper : Bool) × (digit_char (d, upper) ≡ c) × (d < radix)
unfolding to_digit
digit_char-to_digit radix c d hr h = elim (Bool-cases (leb c b'Z')) [
  | inl t ↦ (true, ground arith, ground arith)
  | inr t ↦ (false, ground arith, ground arith)
]

pub digit_char-IsInk : (d : ℕ) (upper : Bool) → d < 16 → IsInk (digit_char (d, upper))
digit_char-IsInk d true h = ground arith
digit_char-IsInk d false h = ground arith

digits_value-map :
    (radix before : ℕ) (ds : List Digit)
    → radix ≤ 16
    → All (IsDigit radix) ds
    → digits_value radix before (map digit_char ds) ≡ some (worth radix before ds)
digits_value-map radix before [] hr h = refl
digits_value-map radix before ((d, upper) ∷ ds) hr (h, hs) =
    rw (digits_value, to_digit-digit_char radix d upper h hr)
      (digits_value-map radix (before * radix + d) ds hr hs)

digit_first :
    (o : Option ℕ) (n : ℕ) (rest : ℕ → Option ℕ)
    → (elim o as (λ x. Option ℕ) [ none ↦ none | some d ↦ rest d ]) ≡ some n
    → (d : ℕ) × (o ≡ some d) × (rest d ≡ some n)
digit_first none n rest h = absurd (cc)
digit_first (some d) n rest h = (d, refl, h)

map-digits_value :
    (radix before n : ℕ) (cs : Text)
    → radix ≤ 16
    → digits_value radix before cs ≡ some n
    → (ds : List Digit) × All (IsDigit radix) ds
      × (map digit_char ds ≡ cs)
      × (worth radix before ds ≡ n)
map-digits_value radix before n [] hr h = ([], tt, refl, cc)
map-digits_value radix before n (c ∷ cs) hr h =
    let (d, e, rest) =
      digit_first (to_digit radix c) n (λ d. digits_value radix (before * radix + d) cs) h in
    let (upper, he, hd) = digit_char-to_digit radix c d hr e in
    let (ds, hs, hm, hw) = map-digits_value radix (before * radix + d) n cs hr rest in
    ((d, upper) ∷ ds, (hd, hs), cc, hw)

-- The digits that a number has: one at least.
abbrev pub Digits : Type 0
Digits = Digit × List Digit

abbrev pub all_digits : Digits → List Digit
all_digits (d, ds) = d ∷ ds

abbrev pub digits_text : Bool → Digits → Text
digits_text plus digits = plus_sign plus ++ map digit_char (all_digits digits)

pub unsigned_value-digits_text :
    (radix : ℕ) (plus : Bool) (digits : Digits)
    → radix ≤ 16
    → All (IsDigit radix) (all_digits digits)
    → unsigned_value radix (digits_text plus digits) ≡ some (worth radix 0 (all_digits digits))
unsigned_value-digits_text radix true (d, ds) hr h = digits_value-map radix 0 (d ∷ ds) hr h
unsigned_value-digits_text radix false ((d, upper), []) hr (h, hs) =
    rw (no_sign radix d upper h hr) (digits_value-map radix 0 ((d, upper) ∷ []) hr (h, hs))
unsigned_value-digits_text radix false ((d, upper), e ∷ ds) hr (h, hs) =
    rw (no_plus radix d upper h hr) (digits_value-map radix 0 ((d, upper) ∷ e ∷ ds) hr (h, hs))

-- The digits of a text that is not empty.
Spelled : ℕ → ℕ → Text → Type 0
Spelled radix n cs =
    (digits : Digits) × All (IsDigit radix) (all_digits digits)
    × (map digit_char (all_digits digits) ≡ cs)
    × (worth radix 0 (all_digits digits) ≡ n)

first_digit :
    (radix n c : ℕ) (cs : Text) (ds : List Digit)
    → All (IsDigit radix) ds
    → map digit_char ds ≡ c ∷ cs
    → worth radix 0 ds ≡ n
    → Spelled radix n (c ∷ cs)
unfolding Spelled
first_digit radix n c cs [] h e w = absurd (cc)
first_digit radix n c cs (d ∷ ds) h e w = ((d, ds), h, e, w)

some_digits :
    (radix n c : ℕ) (cs : Text)
    → radix ≤ 16
    → digits_value radix 0 (c ∷ cs) ≡ some n
    → Spelled radix n (c ∷ cs)
some_digits radix n c cs hr h =
    let (ds, hs, e, w) = map-digits_value radix 0 n (c ∷ cs) hr h in
    first_digit radix n c cs ds hs e w

one_char :
    (sign : Bool) (value : Option ℕ) (n : ℕ)
    → (if sign then none else value) ≡ some n
    → value ≡ some n
one_char true value n h = absurd (cc)
one_char false value n h = h

plus_or_digits :
    (radix n c d : ℕ) (cs : Text) (plus : Bool)
    → (c == b'+') ≡ plus
    → radix ≤ 16
    → digits_value radix 0 (if plus then d ∷ cs else c ∷ d ∷ cs) ≡ some n
    → (sign : Bool) × (digits : Digits) × All (IsDigit radix) (all_digits digits)
      × (digits_text sign digits ≡ c ∷ d ∷ cs)
      × (worth radix 0 (all_digits digits) ≡ n)
unfolding Spelled
plus_or_digits radix n c d cs true e hr h =
    let (digits, hs, hm, w) = some_digits radix n d cs hr h in
    let is_plus : c ≡ b'+' = ground arith in (true, digits, hs, cc, w)
plus_or_digits radix n c d cs false e hr h =
    let (digits, hs, hm, w) = some_digits radix n c (d ∷ cs) hr h in (false, digits, hs, hm, w)

pub digits_text-unsigned_value :
    (radix n : ℕ) (text : Text)
    → radix ≤ 16
    → unsigned_value radix text ≡ some n
    → (plus : Bool) × (digits : Digits) × All (IsDigit radix) (all_digits digits)
      × (digits_text plus digits ≡ text)
      × (worth radix 0 (all_digits digits) ≡ n)
unfolding Spelled
digits_text-unsigned_value radix n [] hr h = absurd (cc)
digits_text-unsigned_value radix n (c ∷ []) hr h =
    let value = one_char ((c == b'+') || (c == b'-')) (digits_value radix 0 (c ∷ [])) n h in
    let (digits, hs, hm, w) = some_digits radix n c [] hr value in (false, digits, hs, hm, w)
digits_text-unsigned_value radix n (c ∷ d ∷ cs) hr h =
    plus_or_digits radix n c d cs (c == b'+') refl hr h
