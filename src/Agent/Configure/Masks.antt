-- ===== src/Agent/Configure/Masks.antt =====
-- The masks that `configure_qualcomm_logs` builds are never refused.
use grok.Base.{
  ℕ, ◌+◌, ◌*◌, ◌/◌, ◌%◌, ◌^◌, ◌≤◌, ◌<◌, ◌≡◌, sym, subst, ==_iff, All-of_contains, ◌∙◌, true, false,
  Bool-cases, inl, inr, ◌&&◌, ◌||◌, ltb, ◌==◌, none, List, [], ◌∷◌, All, All-append, All-sort_dedup,
  contains, contains-All, contains-sort_dedup, sort_dedup, get_or, IsU16, bit_or_join, arith,
}
use grok.Qualcomm.Codes.{Grouped, join_log_code, entry_push, push_codes, tidy, group_log_codes}
use grok.Agent.Configure.{is_supported, select_all_codes, check_explicit}
use grok.Agent.Configure.Selection.{contains-select_all_codes}

-- The items of a group, with the codes that they stand for.
abbrev pub HasCodes : List ℕ → ℕ → List ℕ → Type 0
HasCodes codes equip items =
    (equip < 16) × All (λ item. (item < 4096) × (contains (equip * 4096 + item) codes ≡ true)) items

abbrev pub AllGroups : (ℕ → List ℕ → Type 0) → Grouped → Type 0
AllGroups P [] = Unit
AllGroups P ((equip, items) ∷ rest) = P equip items × AllGroups P rest

module _ (codes : List ℕ) where
  entry_push-HasCodes :
      (equip item : ℕ) (g : Grouped)
      → equip < 16
      → item < 4096
      → contains (equip * 4096 + item) codes ≡ true
      → AllGroups (HasCodes codes) g
      → AllGroups (HasCodes codes) (entry_push equip item g)
  unfolding entry_push
  entry_push-HasCodes equip item [] he hi hc h = ((he, ((hi, hc), tt)), tt)
  entry_push-HasCodes equip item ((key, items) ∷ rest) he hi hc h =
      elim (Bool-cases (equip == key)) [
        | inl same ↦ rw same (
          (
            h.0.0,
            All-append _ items (item ∷ []) h.0.1 (
              (
                hi,
                subst (λ k. contains (k * 4096 + item) codes ≡ true) ((==_iff equip key).0 same) hc,
              ),
              tt,
            ),
          ),
          h.1,
        )
        | inr other ↦ elim (Bool-cases (ltb equip key)) [
          | inl less ↦ rw (other, less) ((he, ((hi, hc), tt)), h)
          | inr more ↦ rw (other, more) (h.0, entry_push-HasCodes equip item rest he hi hc h.1)
        ]
      ]

  push_codes-HasCodes :
      (cs : List ℕ) (g : Grouped)
      → All (λ c. IsU16 c × (contains c codes ≡ true)) cs
      → AllGroups (HasCodes codes) g
      → AllGroups (HasCodes codes) (push_codes cs g)
  unfolding push_codes
  push_codes-HasCodes [] g hs h = h
  push_codes-HasCodes (c ∷ cs) g ((hu, hc), hs) h = push_codes-HasCodes cs _ hs (
      entry_push-HasCodes (c / 2 ^ 12 % 2 ^ 4) (c % 2 ^ 12) g (omega arith) (omega arith)
        (subst (λ x. contains x codes ≡ true) (omega arith) hc) h)

  tidy-HasCodes : (g : Grouped) → AllGroups (HasCodes codes) g → AllGroups (HasCodes codes) (tidy g)
  unfolding tidy
  tidy-HasCodes [] h = tt
  tidy-HasCodes ((equip, items) ∷ rest) h =
      ((h.0.0, All-sort_dedup _ items h.0.1), tidy-HasCodes rest h.1)

  pub group_log_codes-HasCodes :
      All IsU16 codes → AllGroups (HasCodes codes) (group_log_codes codes)
  unfolding group_log_codes
  group_log_codes-HasCodes h = tidy-HasCodes _ (
      push_codes-HasCodes codes []
        (All-of_contains _ codes (λ c m. (contains-All IsU16 codes c h m, m))) tt)

module _ (ranges explicit profile_codes : List ℕ) where
  pub select_all_codes-IsU16 :
      All IsU16 explicit
      → All IsU16 profile_codes
      → All IsU16 (select_all_codes ranges explicit profile_codes)
  select_all_codes-IsU16 he hp =
      All-of_contains IsU16 _
        (λ c m. one c (sym (contains-select_all_codes c ranges explicit profile_codes) ∙ m))
    where
      one :
          (c : ℕ)
          → (contains c explicit || (contains c profile_codes && is_supported ranges c)) ≡ true
          → IsU16 c
      one c m = elim (Bool-cases (contains c explicit)) [
        | inl t ↦ contains-All IsU16 explicit c he t
        | inr t ↦ elim (Bool-cases (contains c profile_codes)) [
          | inl u ↦ contains-All IsU16 profile_codes c hp u
          | inr u ↦ absurd (ground (arith, t, u, m))
        ]
      ]

  -- A selected code that passes the check, explicit or not, has an item that the modem has.
  checked_le :
      (equip item : ℕ)
      → equip < 16
      → item < 4096
      → contains (equip * 4096 + item) (select_all_codes ranges explicit profile_codes) ≡ true
      → (contains (equip * 4096 + item) (sort_dedup explicit) && ltb (get_or ranges equip 0) item)
        ≡ false
      → item ≤ get_or ranges equip 0
  checked_le equip item he hi m c =
      let e : (equip * 4096 + item) % 2 ^ 12 ≡ item = omega arith in
      let f : (equip * 4096 + item) / 2 ^ 12 % 2 ^ 4 ≡ equip = omega arith in
      let known =
        sym (contains-select_all_codes (equip * 4096 + item) ranges explicit profile_codes) ∙ m in
      ground (arith, contains-sort_dedup (equip * 4096 + item) explicit, rw (e, f) at known)

  pub check_explicit-le :
      (equip : ℕ) (items : List ℕ)
      → HasCodes (select_all_codes ranges explicit profile_codes) equip items
      → check_explicit (sort_dedup explicit) equip (get_or ranges equip 0) items ≡ none
      → All (λ item. item ≤ get_or ranges equip 0) items
  unfolding check_explicit join_log_code
  check_explicit-le equip [] h c = tt
  check_explicit-le equip (item ∷ items) (he, ((hi, hm), hs)) c =
      elim (Bool-cases (
        contains (equip * 4096 + item) (sort_dedup explicit) && ltb (get_or ranges equip 0) item)) [
          | inl bad ↦ cc (rw (bit_or_join equip item he hi, bad) at c)
          | inr fine ↦ (
            checked_le equip item he hi hm fine,
            check_explicit-le equip items (he, hs) (rw (bit_or_join equip item he hi, fine) at c),
          )
        ]
