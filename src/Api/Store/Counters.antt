-- ===== src/Api/Store/Counters.antt =====
-- What a counter map holds for a key, and what its counters come to.
use Prim.Native.String.{String}
use text.Mathlib.Text.{◌==◌ as str_eq}
use text.Mathlib.TextEquality.{eq_iff}
use grok.Base.{
  ℕ, ◌+◌, ◌≡◌, refl, ap, Bool, true, false, Bool-cases, inl, inr, List, [], ◌∷◌, ◌++◌,
  if◌then◌else◌, arith,
}
use grok.Api.Store.{Counters, increment}

-- `map.get(key)`, with 0 for a missing key.
abbrev pub counter : String → Counters → ℕ
counter key [] = 0
counter key ((k, n) ∷ rest) = if str_eq key k then n else counter key rest

abbrev pub sum : Counters → ℕ
sum [] = 0
sum ((k, n) ∷ rest) = n + sum rest

pub sum-increment : (key : String) (c : Counters) → sum (increment key c) ≡ sum c + 1
unfolding increment
sum-increment key [] = refl
sum-increment key ((k, n) ∷ rest) = elim (Bool-cases (str_eq key k)) [
  | inl t ↦ rw t (omega arith)
  | inr t ↦ rw t (omega (arith, sum-increment key rest))
]

-- How many elements pass a test.
abbrev pub one_if : Bool → ℕ
one_if true = 1
one_if false = 0

abbrev pub count {ℓ} : {A : Type ℓ} → (A → Bool) → List A → ℕ
count p [] = 0
count p (x ∷ xs) = one_if (p x) + count p xs

pub count-append {ℓ} :
    {A : Type ℓ} (p : A → Bool) (xs ys : List A) → count p (xs ++ ys) ≡ count p xs + count p ys
count-append p [] ys = omega arith
count-append p (x ∷ xs) ys = omega (arith, count-append p xs ys)

-- Texts that are found equal can stand for each other.
str_eq-same : (key k added : String) → str_eq added k ≡ true → str_eq key added ≡ str_eq key k
str_eq-same key k added h = ap (str_eq key) ((eq_iff added k).0 h)

-- A packet counts for its own key, and for no other.
pub counter-increment :
    (key added : String) (c : Counters)
    → counter key (increment added c) ≡ counter key c + one_if (str_eq key added)
unfolding increment
counter-increment key added [] = elim (Bool-cases (str_eq key added)) [
  | inl t ↦ rw t
  | inr t ↦ rw t
]
counter-increment key added ((k, n) ∷ rest) = elim (Bool-cases (str_eq added k)) [
  | inl same ↦
      rw (same, str_eq-same key k added same)
        (elim (Bool-cases (str_eq key k)) [ inl t ↦ rw t | inr t ↦ rw t (omega arith) ])
  | inr other ↦ rw other (elim (Bool-cases (str_eq key k)) [
    | inl t ↦ rw (t, differs t other) (omega arith)
    | inr t ↦ rw t (counter-increment key added rest)
  ])
]
  where
    differs : str_eq key k ≡ true → str_eq added k ≡ false → str_eq key added ≡ false
    differs t other = elim (Bool-cases (str_eq key added)) [
      | inl e ↦ absurd (cc (ap (λ x. str_eq x k) ((eq_iff key added).0 e)))
      | inr e ↦ e
    ]
