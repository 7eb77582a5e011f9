-- ===== src/Qcsuper/Profiles.antt =====
-- crates/6grok-qcsuper/src/profiles.rs: QCSuper's log selections, and their union with explicit codes.
use grok.Base.{
  ℕ, true, Bool-cases, inl, inr, All, contains-All, IsU16, ◌≡◌, refl, ◌∙◌, Bool, ◌||◌, List, [],
  ◌∷◌, ◌++◌, contains, contains-append, sort_dedup, contains-sort_dedup, IsAscending, arith,
}
use grok.Agent.Profiles.{merge_codes, any_of, merge_codes_union, merge_codes-IsU16}

pub data QcsuperProfile : Type 0 where
  signaling ip full : QcsuperProfile

abbrev pub qcsuper_signaling : List ℕ
qcsuper_signaling =
    0x5226 ∷ 0x512F ∷ 0x412F ∷ 0xB0C0 ∷ 0xB821 ∷ 0x713A ∷ 0xB0E2 ∷ 0xB0E3 ∷ 0xB0EC ∷ 0xB0ED ∷ []

abbrev pub qcsuper_ip : List ℕ
qcsuper_ip = 0x11EB ∷ 0x1574 ∷ 0x1575 ∷ []

-- `QcsuperProfile::codes`
unfoldable pub qcsuper_codes : QcsuperProfile → List ℕ
qcsuper_codes signaling = qcsuper_signaling
qcsuper_codes ip = qcsuper_ip
qcsuper_codes full = sort_dedup (qcsuper_signaling ++ qcsuper_ip)

unfoldable pub merge_qcsuper_profiles : List ℕ → List QcsuperProfile → List ℕ
unfolding merge_codes
merge_qcsuper_profiles explicit profiles = merge_codes qcsuper_codes explicit profiles

-- What the profiles stand for: a code of the signaling or of the IP list, or of both for `full`.
abbrev pub in_qcsuper_profile : ℕ → QcsuperProfile → Bool
in_qcsuper_profile code signaling = contains code qcsuper_signaling
in_qcsuper_profile code ip = contains code qcsuper_ip
in_qcsuper_profile code full = contains code qcsuper_signaling || contains code qcsuper_ip

contains-qcsuper_codes :
    (code : ℕ) (p : QcsuperProfile) → contains code (qcsuper_codes p) ≡ in_qcsuper_profile code p
unfolding qcsuper_codes
contains-qcsuper_codes code signaling = refl
contains-qcsuper_codes code ip = refl
contains-qcsuper_codes code full =
    contains-sort_dedup code (qcsuper_signaling ++ qcsuper_ip)
    ∙ contains-append code qcsuper_signaling qcsuper_ip

-- The merged QCSuper codes ascend, each once, and hold exactly the explicit codes and those of the
-- profiles, where `full` stands for the codes of both lists.
pub merge_qcsuper_profiles_union :
    (explicit : List ℕ) (profiles : List QcsuperProfile)
    → IsAscending (merge_qcsuper_profiles explicit profiles)
      × ((code : ℕ)
          → contains code (merge_qcsuper_profiles explicit profiles)
            ≡ (contains code explicit || any_of (in_qcsuper_profile code) profiles))
unfolding merge_qcsuper_profiles
merge_qcsuper_profiles_union explicit profiles =
    merge_codes_union qcsuper_codes in_qcsuper_profile contains-qcsuper_codes explicit profiles

in_qcsuper_profile-IsU16 :
    (code : ℕ) (p : QcsuperProfile) → in_qcsuper_profile code p ≡ true → IsU16 code
in_qcsuper_profile-IsU16 code signaling m =
    contains-All IsU16 qcsuper_signaling code (omega arith) m
in_qcsuper_profile-IsU16 code ip m = contains-All IsU16 qcsuper_ip code (omega arith) m
in_qcsuper_profile-IsU16 code full m = elim (Bool-cases (contains code qcsuper_signaling)) [
  | inl t ↦ contains-All IsU16 qcsuper_signaling code (omega arith) t
  | inr t ↦ contains-All IsU16 qcsuper_ip code (omega arith) (rw t at m)
]

pub merge_qcsuper_profiles-IsU16 :
    (ps : List QcsuperProfile) → All IsU16 (merge_qcsuper_profiles [] ps)
unfolding merge_qcsuper_profiles
merge_qcsuper_profiles-IsU16 ps =
    merge_codes-IsU16 qcsuper_codes in_qcsuper_profile contains-qcsuper_codes
      in_qcsuper_profile-IsU16 ps
