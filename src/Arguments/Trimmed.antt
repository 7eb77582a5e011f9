-- ===== src/Arguments/Trimmed.antt =====
-- `trim` on texts: what it takes off is whitespace, and it takes off all of it.
use grok.Base.{
  ℕ, ◌≡◌, refl, ap, Bool, Bool-cases, true, false, inl, inr, [], ◌∷◌, ◌++◌, All, ◌&&◌, Text,
  is_whitespace, is_blank, trim_start, trim_end, trim_text,
}

abbrev pub IsWhite : ℕ → Type 0
IsWhite c = is_whitespace c ≡ true

abbrev pub IsInk : ℕ → Type 0
IsInk c = is_whitespace c ≡ false

is_blank-All : (text : Text) → All IsWhite text → is_blank text ≡ true
unfolding is_blank
is_blank-All [] h = refl
is_blank-All (c ∷ cs) (h, hs) = rw (h, is_blank-All cs hs)

both : (a b : Bool) → (a && b) ≡ true → (a ≡ true) × (b ≡ true)
both true b h = (refl, h)
both false b h = absurd (cc)

All-is_blank : (text : Text) → is_blank text ≡ true → All IsWhite text
unfolding is_blank
All-is_blank [] h = tt
All-is_blank (c ∷ cs) h =
    let (first, others) = both (is_whitespace c) (is_blank cs) h in (first, All-is_blank cs others)

trim_start-white :
    (front text : Text) → All IsWhite front → trim_start (front ++ text) ≡ trim_start text
unfolding trim_start
trim_start-white [] text h = refl
trim_start-white (c ∷ cs) text (h, hs) = rw (h, trim_start-white cs text hs)

trim_start-ink : (c : ℕ) (cs : Text) → IsInk c → trim_start (c ∷ cs) ≡ c ∷ cs
unfolding trim_start
trim_start-ink c cs h = rw h

trim_end-white : (text : Text) → All IsWhite text → trim_end text ≡ []
unfolding trim_end
trim_end-white [] h = refl
trim_end-white (c ∷ cs) h = rw (is_blank-All (c ∷ cs) h)

is_blank-ink : (c : ℕ) (cs : Text) → IsInk c → is_blank (c ∷ cs) ≡ false
unfolding is_blank
is_blank-ink c cs h = rw h

trim_end-ink :
    (core back : Text) → All IsInk core → All IsWhite back → trim_end (core ++ back) ≡ core
unfolding trim_end
trim_end-ink [] back h hb = trim_end-white back hb
trim_end-ink (c ∷ cs) back (h, hs) hb =
    rw (is_blank-ink c (cs ++ back) h, trim_end-ink cs back hs hb)

-- Whitespace around a text that has none and is not empty is taken off.
pub trim_text-ink :
    (front : Text) (c : ℕ) (cs back : Text)
    → All IsWhite front
    → All IsInk (c ∷ cs)
    → All IsWhite back
    → trim_text (front ++ ((c ∷ cs) ++ back)) ≡ c ∷ cs
unfolding trim_text
trim_text-ink front c cs back hf (h, hs) hb = rw (
  trim_start-white front ((c ∷ cs) ++ back) hf,
  trim_start-ink c (cs ++ back) h,
  trim_end-ink (c ∷ cs) back (h, hs) hb,
)

trim_start-front :
    (text : Text) → (front : Text) × All IsWhite front × (front ++ trim_start text ≡ text)
unfolding trim_start
trim_start-front [] = ([], tt, refl)
trim_start-front (c ∷ cs) = elim (Bool-cases (is_whitespace c)) [
  | inl t ↦ let (front, h, e) = trim_start-front cs in (c ∷ front, (t, h), rw t (ap (λ x. c ∷ x) e))
  | inr t ↦ ([], tt, rw t)
]

trim_end-back : (text : Text) → (back : Text) × All IsWhite back × (trim_end text ++ back ≡ text)
unfolding trim_end
trim_end-back [] = ([], tt, refl)
trim_end-back (c ∷ cs) = elim (Bool-cases (is_blank (c ∷ cs))) [
  | inl t ↦ (c ∷ cs, All-is_blank (c ∷ cs) t, rw t)
  | inr t ↦ let (back, h, e) = trim_end-back cs in (back, h, rw t (ap (λ x. c ∷ x) e))
]

-- What is taken off is whitespace.
pub trim_text-around :
    (text : Text)
    → (front : Text) × (back : Text) × All IsWhite front
      × All IsWhite back
      × (front ++ (trim_text text ++ back) ≡ text)
unfolding trim_text
trim_text-around text =
    let (front, hf, ef) = trim_start-front text in
    let (back, hb, eb) = trim_end-back (trim_start text) in (front, back, hf, hb, rw eb ef)
