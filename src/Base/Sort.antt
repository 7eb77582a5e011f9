-- ===== src/Base/Sort.antt =====
-- `sort_unstable` and `dedup` of Rust's `Vec`, at numbers, and membership.
use Prim.Native.Nat.{ℕ, ◌≤◌, ◌<◌}
use mathlib.Core.Path.{◌≡◌, refl, ◌∙◌}
use mathlib.Core.Logic.{inl, inr}
use mathlib.Core.Bool.{Bool, true, false, ◌||◌}
use mathlib.Core.List.{List, [], ◌∷◌, ◌++◌}
use native.Mathlib.Omega.{arith}
use grok.Base.Tests.{◌==◌, ==_iff, leb, if◌then◌else◌, Bool-cases}
use grok.Base.Lists.{All}

-- `contains`, with the value first.
unfoldable pub contains : ℕ → List ℕ → Bool
contains a [] = false
contains a (x ∷ xs) = a == x || contains a xs

insert_sorted : ℕ → List ℕ → List ℕ
insert_sorted a [] = a ∷ []
insert_sorted a (x ∷ xs) = if leb a x then a ∷ x ∷ xs else x ∷ insert_sorted a xs

unfoldable pub sort_unstable : List ℕ → List ℕ
unfolding insert_sorted
sort_unstable [] = []
sort_unstable (x ∷ xs) = insert_sorted x (sort_unstable xs)

-- `a` stands in front of the list, and is dropped if the first element equals it.
dedup_from : ℕ → List ℕ → List ℕ
dedup_from a [] = a ∷ []
dedup_from a (x ∷ xs) = let rest = dedup_from x xs in if a == x then rest else a ∷ rest

unfoldable pub dedup : List ℕ → List ℕ
unfolding dedup_from
dedup [] = []
dedup (x ∷ xs) = dedup_from x xs

abbrev IsSorted : List ℕ → Type 0
IsSorted [] = Unit
IsSorted (x ∷ xs) = All (λ y. x ≤ y) xs × IsSorted xs

-- Strictly ascending: sorted and without duplicates.
abbrev pub IsAscending : List ℕ → Type 0
IsAscending [] = Unit
IsAscending (x ∷ xs) = All (λ y. x < y) xs × IsAscending xs

pub contains-append :
    (a : ℕ) (xs ys : List ℕ) → contains a (xs ++ ys) ≡ (contains a xs || contains a ys)
unfolding contains
contains-append a [] ys = refl
contains-append a (x ∷ xs) ys = ground (arith, contains-append a xs ys)

contains-insert_sorted :
    (a b : ℕ) (xs : List ℕ) → contains a (insert_sorted b xs) ≡ (a == b || contains a xs)
unfolding contains insert_sorted
contains-insert_sorted a b [] = refl
contains-insert_sorted a b (x ∷ xs) = ground (arith, contains-insert_sorted a b xs)

contains-sort_unstable : (a : ℕ) (xs : List ℕ) → contains a (sort_unstable xs) ≡ contains a xs
unfolding contains sort_unstable
contains-sort_unstable a [] = refl
contains-sort_unstable a (x ∷ xs) =
    ground (arith, contains-insert_sorted a x (sort_unstable xs), contains-sort_unstable a xs)

contains-dedup_from :
    (a b : ℕ) (xs : List ℕ) → contains a (dedup_from b xs) ≡ (a == b || contains a xs)
unfolding contains dedup_from
contains-dedup_from a b [] = refl
contains-dedup_from a b (x ∷ xs) = ground (arith, contains-dedup_from a x xs)

contains-dedup : (a : ℕ) (xs : List ℕ) → contains a (dedup xs) ≡ contains a xs
unfolding contains dedup
contains-dedup a [] = refl
contains-dedup a (x ∷ xs) = contains-dedup_from a x xs

All-le_trans : (a b : ℕ) (xs : List ℕ) → a ≤ b → All (λ y. b ≤ y) xs → All (λ y. a ≤ y) xs
All-le_trans a b [] h all = tt
All-le_trans a b (x ∷ xs) h all = (omega arith, All-le_trans a b xs h all.1)

All-insert_sorted :
    (P : ℕ → Type 0) (a : ℕ) (xs : List ℕ) → P a → All P xs → All P (insert_sorted a xs)
unfolding insert_sorted
All-insert_sorted P a [] h all = (h, tt)
All-insert_sorted P a (x ∷ xs) h all = elim (Bool-cases (leb a x)) [
  | inl le ↦ rw le (h, all)
  | inr gt ↦ rw gt (all.0, All-insert_sorted P a xs h all.1)
]

insert_sorted-IsSorted : (a : ℕ) (xs : List ℕ) → IsSorted xs → IsSorted (insert_sorted a xs)
unfolding insert_sorted
insert_sorted-IsSorted a [] h = (tt, tt)
insert_sorted-IsSorted a (x ∷ xs) h = elim (Bool-cases (leb a x)) [
  | inl le ↦ rw le ((ground arith, All-le_trans a x xs (ground arith) h.0), h)
  | inr gt ↦
      rw gt
        (All-insert_sorted (λ y. x ≤ y) a xs (ground arith) h.0, insert_sorted-IsSorted a xs h.1)
]

sort_unstable-IsSorted : (xs : List ℕ) → IsSorted (sort_unstable xs)
unfolding sort_unstable
sort_unstable-IsSorted [] = tt
sort_unstable-IsSorted (x ∷ xs) =
    insert_sorted-IsSorted x (sort_unstable xs) (sort_unstable-IsSorted xs)

All-dedup_from : (P : ℕ → Type 0) (a : ℕ) (xs : List ℕ) → P a → All P xs → All P (dedup_from a xs)
unfolding dedup_from
All-dedup_from P a [] h all = (h, tt)
All-dedup_from P a (x ∷ xs) h all = elim (Bool-cases (a == x)) [
  | inl eq ↦ rw eq (All-dedup_from P x xs all.0 all.1)
  | inr ne ↦ rw ne (h, All-dedup_from P x xs all.0 all.1)
]

All-lt_trans : (a b : ℕ) (xs : List ℕ) → a < b → All (λ y. b ≤ y) xs → All (λ y. a < y) xs
All-lt_trans a b [] h all = tt
All-lt_trans a b (x ∷ xs) h all = (omega arith, All-lt_trans a b xs h all.1)

dedup_from-IsAscending :
    (a : ℕ) (xs : List ℕ) → All (λ y. a ≤ y) xs → IsSorted xs → IsAscending (dedup_from a xs)
unfolding dedup_from
dedup_from-IsAscending a [] all h = (tt, tt)
dedup_from-IsAscending a (x ∷ xs) all h = elim (Bool-cases (a == x)) [
  | inl eq ↦ rw eq (dedup_from-IsAscending x xs h.0 h.1)
  | inr ne ↦
      let lt : a < x = ground arith in
      rw ne (
        All-dedup_from (λ y. a < y) x xs lt (All-lt_trans a x xs lt h.0),
        dedup_from-IsAscending x xs h.0 h.1,
      )
]

dedup-IsAscending : (xs : List ℕ) → IsSorted xs → IsAscending (dedup xs)
unfolding dedup
dedup-IsAscending [] h = tt
dedup-IsAscending (x ∷ xs) h = dedup_from-IsAscending x xs h.0 h.1

All-sort_unstable : (P : ℕ → Type 0) (xs : List ℕ) → All P xs → All P (sort_unstable xs)
unfolding sort_unstable
All-sort_unstable P [] all = tt
All-sort_unstable P (x ∷ xs) all =
    All-insert_sorted P x (sort_unstable xs) all.0 (All-sort_unstable P xs all.1)

All-dedup : (P : ℕ → Type 0) (xs : List ℕ) → All P xs → All P (dedup xs)
unfolding dedup
All-dedup P [] all = tt
All-dedup P (x ∷ xs) all = All-dedup_from P x xs all.0 all.1

-- `sort_unstable` and then `dedup`: the same elements, ascending, each once.
abbrev pub sort_dedup : List ℕ → List ℕ
sort_dedup xs = dedup (sort_unstable xs)

pub sort_dedup-IsAscending : (xs : List ℕ) → IsAscending (sort_dedup xs)
sort_dedup-IsAscending xs = dedup-IsAscending (sort_unstable xs) (sort_unstable-IsSorted xs)

pub contains-sort_dedup : (a : ℕ) (xs : List ℕ) → contains a (sort_dedup xs) ≡ contains a xs
contains-sort_dedup a xs = contains-dedup a (sort_unstable xs) ∙ contains-sort_unstable a xs

pub All-sort_dedup : (P : ℕ → Type 0) (xs : List ℕ) → All P xs → All P (sort_dedup xs)
All-sort_dedup P xs all = All-dedup P (sort_unstable xs) (All-sort_unstable P xs all)

-- Membership and `All`.
pub All-of_contains :
    (P : ℕ → Type 0) (xs : List ℕ) → ((a : ℕ) → contains a xs ≡ true → P a) → All P xs
unfolding contains
All-of_contains P [] h = tt
All-of_contains P (x ∷ xs) h =
    (h x (ground arith), All-of_contains P xs (λ a m. h a (ground arith)))

pub contains-All : (P : ℕ → Type 0) (xs : List ℕ) (a : ℕ) → All P xs → contains a xs ≡ true → P a
unfolding contains
contains-All P [] a all m = cc
contains-All P (x ∷ xs) a all m = elim (Bool-cases (a == x)) [
  | inl eq ↦ rw ((==_iff a x).0 eq) all.0
  | inr ne ↦ contains-All P xs a all.1 (ground arith)
]
