-- ===== src/Agent/Configure/Selection.antt =====
-- The codes that `configure_qualcomm_logs` selects, and the masks that it builds of them.
use grok.Base.{
  ℕ, ◌≡◌, sym, ap, ◌∙◌, Bool, true, false, Bool-cases, inl, inr, ==_iff, ◌&&◌, ◌||◌, not, List, [],
  ◌∷◌, ◌++◌, contains, contains-append, contains-sort_dedup, sort_dedup, ◌==◌, if◌then◌else◌,
  IsAscending, sort_dedup-IsAscending, arith,
}
use grok.Agent.Profiles.{CaptureProfile, merge_profiles, in_profiles, merge_profiles_union}
use grok.Agent.Configure.{is_supported, select_codes, select_all_codes, selected_codes}

-- A test of a code that is equal to another.
same_code : (f : ℕ → Bool) (a b : ℕ) → (a == b && f b) ≡ (a == b && f a)
same_code f a b = elim (Bool-cases (a == b)) [
  | inl t ↦ rw t (ap f (sym ((==_iff a b).0 t)))
  | inr t ↦ rw t
]

contains-pick :
    (code c : ℕ) (known supported : Bool) (selected : List ℕ)
    → contains code
        (if known then selected else if supported then selected ++ (c ∷ []) else selected)
      ≡ (contains code selected || (code == c && (not known && supported)))
unfolding contains
contains-pick code c true supported selected = ground arith
contains-pick code c false true selected = contains-append code selected (c ∷ []) ∙ ground arith
contains-pick code c false false selected = ground arith

regroup : (a b c d : Bool) → ((a || (b && d)) || (c && d)) ≡ (a || ((b || c) && d))
regroup a b c d = ground arith

contains-select_codes :
    (code : ℕ) (ranges explicit_set codes selected : List ℕ)
    → contains code (select_codes ranges explicit_set codes selected) ≡ (
        contains code selected
        || (contains code codes && (not (contains code explicit_set) && is_supported ranges code)))
unfolding select_codes contains
contains-select_codes code ranges explicit_set [] selected = ground arith
contains-select_codes code ranges explicit_set (c ∷ codes) selected =
    contains-select_codes code ranges explicit_set codes _
    ∙ ap (λ b. b || (contains code codes && f code))
        (contains-pick code c (contains c explicit_set) (is_supported ranges c) selected
          ∙ ap (λ b. contains code selected || b) (same_code f code c))
    ∙ regroup (contains code selected) (code == c) (contains code codes) (f code)
  where
    f : ℕ → Bool
    f x = not (contains x explicit_set) && is_supported ranges x

absorb : (a b c : Bool) → (a || (b && (not a && c))) ≡ (a || (b && c))
absorb a b c = ground arith

pub contains-select_all_codes :
    (code : ℕ) (ranges explicit codes : List ℕ)
    → contains code (select_all_codes ranges explicit codes)
      ≡ (contains code explicit || (contains code codes && is_supported ranges code))
unfolding select_all_codes
contains-select_all_codes code ranges explicit codes =
    contains-sort_dedup code _
    ∙ contains-select_codes code ranges (sort_dedup explicit) codes explicit
    ∙ ap
        (λ b.
          contains code explicit || (contains code codes && (not b && is_supported ranges code)))
        (contains-sort_dedup code explicit)
    ∙ absorb (contains code explicit) (contains code codes) (is_supported ranges code)

-- The selected codes ascend, each once: the explicit ones, and of those of the profiles the ones
-- whose item the modem has, by the range of their equipment.
selected_codes_lem :
    (ranges explicit : List ℕ) (profiles : List CaptureProfile)
    → IsAscending (selected_codes ranges explicit profiles)
      × ((code : ℕ)
          → contains code (selected_codes ranges explicit profiles)
            ≡ (contains code explicit || (in_profiles code profiles && is_supported ranges code)))
unfolding selected_codes select_all_codes contains
selected_codes_lem ranges explicit profiles = (
  sort_dedup-IsAscending _,
  λ code.
      contains-select_all_codes code ranges explicit (merge_profiles [] profiles)
      ∙ ap (λ b. contains code explicit || (b && is_supported ranges code))
          ((merge_profiles_union [] profiles).1 code),
)
