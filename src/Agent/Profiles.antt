-- ===== src/Agent/Profiles.antt =====
-- crates/6grok-agent/src/profiles.rs: the curated log codes, and their union with explicit ones.
use grok.Base.{
  ℕ, true, Bool-cases, inl, inr, All, All-of_contains, contains-All, IsU16, ◌≡◌, refl, sym, ap, ◌∙◌,
  Bool, false, ◌||◌, List, [], ◌∷◌, ◌++◌, contains, contains-append, sort_dedup,
  sort_dedup-IsAscending, contains-sort_dedup, IsAscending, arith,
}

pub data CaptureProfile : Type 0 where
  signaling radio full : CaptureProfile

abbrev pub signaling_codes : List ℕ
signaling_codes =
    0xB821 ∷ 0xB822 ∷ 0xB823 ∷ 0xB825 ∷ 0xB826 ∷ 0xB0C0 ∷ 0xB0C1 ∷ 0xB0C2 ∷ 0xB0C3 ∷ 0xB0C4 ∷ 0xB0C5
    ∷ 0xB0C6 ∷ 0xB0CD ∷ 0xB0CF ∷ 0xB0E0 ∷ 0xB0E2 ∷ 0xB0EA ∷ 0xB0EB ∷ 0xB0EC ∷ 0x11EB ∷ 0x184C
    ∷ 0x1849 ∷ 0x1D0B ∷ 0x1850 ∷ []

abbrev pub radio_codes : List ℕ
radio_codes =
    0xB800 ∷ 0xB801 ∷ 0xB802 ∷ 0xB803 ∷ 0xB804 ∷ 0xB805 ∷ 0xB880 ∷ 0xB884 ∷ 0xB886 ∷ 0xB887 ∷ 0xB88A
    ∷ 0xB8DA ∷ 0xB890 ∷ 0xB891 ∷ 0xB893 ∷ 0xB894 ∷ 0xB895 ∷ 0xB840 ∷ 0xB841 ∷ 0xB850 ∷ 0xB851
    ∷ 0xB110 ∷ 0xB113 ∷ 0xB17F ∷ 0xB193 ∷ 0xB197 ∷ 0xB060 ∷ 0xB063 ∷ 0xB064 ∷ 0xB080 ∷ 0xB082
    ∷ 0xB083 ∷ 0xB091 ∷ 0xB092 ∷ 0x1874 ∷ 0x18F7 ∷ 0x14D8 ∷ 0x12E8 ∷ 0x1C6E ∷ 0x1C6F ∷ 0x1C70
    ∷ 0x1C71 ∷ 0x1C72 ∷ []

-- `CaptureProfile::codes`
unfoldable pub codes : CaptureProfile → List ℕ
codes signaling = signaling_codes
codes radio = radio_codes
codes full = sort_dedup (signaling_codes ++ radio_codes)

-- `merge_profiles`, over the codes of a profile: crates/6grok-qcsuper/src/profiles.rs has profiles of
-- its own.
module _ {P : Type 0} (codes_of : P → List ℕ) where
  -- Its loop.
  unfoldable pub extend_codes : List ℕ → List P → List ℕ
  extend_codes collected [] = collected
  extend_codes collected (profile ∷ profiles) =
      extend_codes (collected ++ codes_of profile) profiles

  unfoldable pub merge_codes : List ℕ → List P → List ℕ
  unfolding extend_codes
  merge_codes explicit profiles = sort_dedup (extend_codes explicit profiles)

unfoldable pub merge_profiles : List ℕ → List CaptureProfile → List ℕ
unfolding merge_codes
merge_profiles explicit profiles = merge_codes codes explicit profiles

-- What the profiles stand for: a code of the signaling or of the radio list, or of both for `full`.
abbrev pub in_profile : ℕ → CaptureProfile → Bool
in_profile code signaling = contains code signaling_codes
in_profile code radio = contains code radio_codes
in_profile code full = contains code signaling_codes || contains code radio_codes

abbrev pub any_of : {P : Type 0} → (P → Bool) → List P → Bool
any_of test [] = false
any_of test (p ∷ ps) = test p || any_of test ps

abbrev pub in_profiles : ℕ → List CaptureProfile → Bool
in_profiles code ps = any_of (in_profile code) ps

contains-codes : (code : ℕ) (p : CaptureProfile) → contains code (codes p) ≡ in_profile code p
unfolding codes
contains-codes code signaling = refl
contains-codes code radio = refl
contains-codes code full =
    contains-sort_dedup code (signaling_codes ++ radio_codes)
    ∙ contains-append code signaling_codes radio_codes

or_assoc : (a b c : Bool) → ((a || b) || c) ≡ (a || (b || c))
or_assoc a b c = ground arith

or_false : (a : Bool) → a ≡ (a || false)
or_false a = ground arith

module _ {P : Type 0} (codes_of : P → List ℕ) (is_in : ℕ → P → Bool)
    (law : (code : ℕ) (p : P) → contains code (codes_of p) ≡ is_in code p) where
  contains-extend_codes :
      (code : ℕ) (collected : List ℕ) (ps : List P)
      → contains code (extend_codes codes_of collected ps)
        ≡ (contains code collected || any_of (is_in code) ps)
  unfolding extend_codes
  contains-extend_codes code collected [] = or_false (contains code collected)
  contains-extend_codes code collected (p ∷ ps) =
      contains-extend_codes code (collected ++ codes_of p) ps
      ∙ ap (λ b. b || any_of (is_in code) ps) (contains-append code collected (codes_of p))
      ∙ ap (λ b. (contains code collected || b) || any_of (is_in code) ps) (law code p)
      ∙ or_assoc (contains code collected) (is_in code p) (any_of (is_in code) ps)

  pub merge_codes_union :
      (explicit : List ℕ) (ps : List P)
      → IsAscending (merge_codes codes_of explicit ps)
        × ((code : ℕ)
            → contains code (merge_codes codes_of explicit ps)
              ≡ (contains code explicit || any_of (is_in code) ps))
  unfolding merge_codes
  merge_codes_union explicit ps = (
    sort_dedup-IsAscending (extend_codes codes_of explicit ps),
    λ code.
        contains-sort_dedup code (extend_codes codes_of explicit ps)
        ∙ contains-extend_codes code explicit ps,
  )

  any_of-IsU16 :
      ((code : ℕ) (p : P) → is_in code p ≡ true → IsU16 code)
      → (ps : List P) (code : ℕ) → any_of (is_in code) ps ≡ true
      → IsU16 code
  any_of-IsU16 fits [] code m = cc
  any_of-IsU16 fits (p ∷ ps) code m = elim (Bool-cases (is_in code p)) [
    | inl t ↦ fits code p t
    | inr t ↦ any_of-IsU16 fits ps code (rw t at m)
  ]

  -- If the codes of every profile have 16 bits, so have the merged ones.
  pub merge_codes-IsU16 :
      ((code : ℕ) (p : P) → is_in code p ≡ true → IsU16 code)
      → (ps : List P) → All IsU16 (merge_codes codes_of [] ps)
  unfolding contains
  merge_codes-IsU16 fits ps =
      All-of_contains IsU16 _
        (λ c m. any_of-IsU16 fits ps c (sym ((merge_codes_union [] ps).1 c) ∙ m))

-- The merged codes ascend, each once, and hold exactly the explicit codes and those of the profiles,
-- where `full` stands for the codes of both lists.
pub merge_profiles_union :
    (explicit : List ℕ) (profiles : List CaptureProfile)
    → IsAscending (merge_profiles explicit profiles)
      × ((code : ℕ)
          → contains code (merge_profiles explicit profiles)
            ≡ (contains code explicit || in_profiles code profiles))
unfolding merge_profiles
merge_profiles_union explicit profiles =
    merge_codes_union codes in_profile contains-codes explicit profiles

in_profile-IsU16 : (code : ℕ) (p : CaptureProfile) → in_profile code p ≡ true → IsU16 code
in_profile-IsU16 code signaling m = contains-All IsU16 signaling_codes code (omega arith) m
in_profile-IsU16 code radio m = contains-All IsU16 radio_codes code (omega arith) m
in_profile-IsU16 code full m = elim (Bool-cases (contains code signaling_codes)) [
  | inl t ↦ contains-All IsU16 signaling_codes code (omega arith) t
  | inr t ↦ contains-All IsU16 radio_codes code (omega arith) (rw t at m)
]

pub merge_profiles-IsU16 : (ps : List CaptureProfile) → All IsU16 (merge_profiles [] ps)
unfolding merge_profiles
merge_profiles-IsU16 ps = merge_codes-IsU16 codes in_profile contains-codes in_profile-IsU16 ps
