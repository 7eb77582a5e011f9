-- ===== src/Qualcomm/Codes/Grouping.antt =====
-- Grouping log codes by equipment loses no code, invents none and repeats none.
use grok.Base.{
  ℕ, ◌+◌, ◌*◌, ◌<◌, ◌≡◌, refl, ap, ◌∙◌, Bool, true, false, ◌&&◌, ◌||◌, List, [], ◌∷◌, ltb, ◌==◌,
  All, IsU16, arith, contains, contains-append, sort_dedup-IsAscending, contains-sort_dedup,
  IsAscending, bit_or_join, Bool-cases, inl, inr,
}
use grok.Qualcomm.Codes.{
  split_log_code, join_log_code, Grouped, entry_push, push_codes, tidy, group_log_codes, items_of,
}

-- The keys ascend.
abbrev pub KeysAbove : ℕ → Grouped → Type 0
KeysAbove low [] = Unit
KeysAbove low ((key, items) ∷ rest) = (low < key) × KeysAbove low rest

abbrev pub HasSortedKeys : Grouped → Type 0
HasSortedKeys [] = Unit
HasSortedKeys ((key, items) ∷ rest) = KeysAbove key rest × HasSortedKeys rest

KeysAbove-entry_push :
    (low equip item : ℕ) (g : Grouped)
    → low < equip
    → KeysAbove low g
    → KeysAbove low (entry_push equip item g)
unfolding entry_push
KeysAbove-entry_push low equip item [] h k = (h, tt)
KeysAbove-entry_push low equip item ((key, items) ∷ rest) h k =
    ground (arith, KeysAbove-entry_push low equip item rest h k.1)

KeysAbove-trans : (a b : ℕ) (g : Grouped) → a < b → KeysAbove b g → KeysAbove a g
KeysAbove-trans a b [] h k = tt
KeysAbove-trans a b ((key, items) ∷ rest) h k = (omega arith, KeysAbove-trans a b rest h k.1)

entry_push-HasSortedKeys :
    (equip item : ℕ) (g : Grouped) → HasSortedKeys g → HasSortedKeys (entry_push equip item g)
unfolding entry_push
entry_push-HasSortedKeys equip item [] h = (tt, tt)
entry_push-HasSortedKeys equip item ((key, items) ∷ rest) h = elim (Bool-cases (equip == key)) [
  | inl same ↦ rw same h
  | inr other ↦ rw other (elim (Bool-cases (ltb equip key)) [
    | inl below ↦ rw below ((ground arith, KeysAbove-trans equip key rest (ground arith) h.0), h)
    | inr above ↦ rw above (
      KeysAbove-entry_push key equip item rest (ground arith) h.0,
      entry_push-HasSortedKeys equip item rest h.1,
    )
  ])
]

items_of-KeysAbove :
    (low equip : ℕ) (g : Grouped) → equip < low → KeysAbove low g → items_of equip g ≡ []
unfolding items_of
items_of-KeysAbove low equip [] h k = refl
items_of-KeysAbove low equip ((key, items) ∷ rest) h k =
    ground (arith, items_of-KeysAbove low equip rest h k.1)

-- The membership that the map of groups stands for.
abbrev pub has_code : ℕ → ℕ → Grouped → Bool
has_code equip item g = contains item (items_of equip g)

has_code-entry_push :
    (e i equip item : ℕ) (g : Grouped)
    → HasSortedKeys g
    → has_code e i (entry_push equip item g) ≡ (e == equip && i == item || has_code e i g)
unfolding entry_push items_of contains
has_code-entry_push e i equip item [] h = ground arith
has_code-entry_push e i equip item ((key, items) ∷ rest) h = ground (
  arith,
  contains-append i items (item ∷ []),
  has_code-entry_push e i equip item rest h.1,
  items_of-KeysAbove key equip rest,
)

push_codes-HasSortedKeys :
    (codes : List ℕ) (g : Grouped) → HasSortedKeys g → HasSortedKeys (push_codes codes g)
unfolding push_codes
push_codes-HasSortedKeys [] g h = h
push_codes-HasSortedKeys (code ∷ codes) g h =
    push_codes-HasSortedKeys codes _ (entry_push-HasSortedKeys _ _ g h)

same_code :
    (e i code : ℕ)
    → e < 16
    → i < 4096
    → IsU16 code
    → (e == (split_log_code code).0 && i == (split_log_code code).1) ≡ (e * 4096 + i == code)
same_code e i code he hi hc = ground arith

or_shuffle : (a b c d : Bool) → b ≡ d → (a || (b || c)) ≡ ((d || a) || c)
or_shuffle a b c d h = ground arith

or_empty : (e i : ℕ) (b : Bool) → (b || has_code e i []) ≡ b
unfolding items_of contains
or_empty e i true = refl
or_empty e i false = refl

has_code-push_codes :
    (e i : ℕ) (codes : List ℕ) (g : Grouped)
    → e < 16
    → i < 4096
    → All IsU16 codes
    → HasSortedKeys g
    → has_code e i (push_codes codes g) ≡ (contains (e * 4096 + i) codes || has_code e i g)
unfolding push_codes contains
has_code-push_codes e i [] g he hi hc hg = refl
has_code-push_codes e i (code ∷ codes) g he hi hc hg =
    has_code-push_codes e i codes _ he hi hc.1 (entry_push-HasSortedKeys _ _ g hg)
    ∙ ap (λ (t : Bool). contains (e * 4096 + i) codes || t) (has_code-entry_push e i _ _ g hg)
    ∙ or_shuffle (contains (e * 4096 + i) codes) _ (has_code e i g) _
        (same_code e i code he hi hc.0)

has_code-tidy : (e i : ℕ) (g : Grouped) → has_code e i (tidy g) ≡ has_code e i g
unfolding tidy items_of
has_code-tidy e i [] = refl
has_code-tidy e i ((key, items) ∷ rest) = elim (Bool-cases (e == key)) [
  | inl same ↦ rw same (contains-sort_dedup i items)
  | inr other ↦ rw other (has_code-tidy e i rest)
]

KeysAbove-tidy : (low : ℕ) (g : Grouped) → KeysAbove low g → KeysAbove low (tidy g)
unfolding tidy
KeysAbove-tidy low [] k = tt
KeysAbove-tidy low ((key, items) ∷ rest) k = (k.0, KeysAbove-tidy low rest k.1)

tidy-HasSortedKeys : (g : Grouped) → HasSortedKeys g → HasSortedKeys (tidy g)
unfolding tidy
tidy-HasSortedKeys [] h = tt
tidy-HasSortedKeys ((key, items) ∷ rest) h =
    (KeysAbove-tidy key rest h.0, tidy-HasSortedKeys rest h.1)

-- Each group's items ascend.
abbrev pub HasAscendingItems : Grouped → Type 0
HasAscendingItems [] = Unit
HasAscendingItems ((key, items) ∷ rest) = IsAscending items × HasAscendingItems rest

tidy-HasAscendingItems : (g : Grouped) → HasAscendingItems (tidy g)
unfolding tidy
tidy-HasAscendingItems [] = tt
tidy-HasAscendingItems ((key, items) ∷ rest) =
    (sort_dedup-IsAscending items, tidy-HasAscendingItems rest)

-- The groups come in ascending order of their equipment IDs, and in each group the items ascend,
-- so that no equipment and no item of an equipment stands twice.
pub group_log_codes_order :
    (codes : List ℕ)
    → HasSortedKeys (group_log_codes codes) × HasAscendingItems (group_log_codes codes)
unfolding group_log_codes
group_log_codes_order codes = (
  tidy-HasSortedKeys _ (push_codes-HasSortedKeys codes [] tt),
  tidy-HasAscendingItems (push_codes codes []),
)

-- Of 16-bit codes, an item stands in the group of an equipment exactly when the code that joins
-- the two is among the codes.
pub contains-group_log_codes :
    (codes : List ℕ) (equip item : ℕ)
    → All IsU16 codes
    → equip < 16
    → item < 4096
    → contains item (items_of equip (group_log_codes codes))
      ≡ contains (join_log_code equip item) codes
unfolding group_log_codes join_log_code
contains-group_log_codes codes equip item hc he hi = rw (bit_or_join equip item he hi) (
    has_code-tidy equip item (push_codes codes [])
    ∙ has_code-push_codes equip item codes [] he hi hc tt
    ∙ or_empty equip item (contains (equip * 4096 + item) codes))
