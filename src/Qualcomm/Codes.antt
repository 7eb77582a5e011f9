-- ===== src/Qualcomm/Codes.antt =====
-- crates/6grok-agent/src/qualcomm.rs: `split_log_code` and `group_log_codes`. A `BTreeMap` is the
-- list of its entries in the order of their keys, which is the order of its iteration.
pub mod Grouping
use grok.Base.{
  ℕ, ◌*◌, ◌/◌, ◌%◌, ◌^◌, Option, none, some, List, [], ◌∷◌, ◌++◌, ltb, ◌==◌, if◌then◌else◌, bit_or,
  sort_dedup,
}

-- `(((code >> 12) & 0x0f) as u8, code & 0x0fff)`
abbrev pub split_log_code : ℕ → ℕ × ℕ
split_log_code code = (code / 2 ^ 12 % 2 ^ 4, code % 2 ^ 12)

-- `(u16::from(equip) << 12) | item`, with which the callers undo `split_log_code`.
unfoldable pub join_log_code : ℕ → ℕ → ℕ
join_log_code equip item = bit_or (equip * 2 ^ 12 % 2 ^ 16) item

abbrev pub Grouped : Type 0
Grouped = List (ℕ × List ℕ)

-- `grouped.entry(equip).or_default().push(item)`
unfoldable pub entry_push : ℕ → ℕ → Grouped → Grouped
entry_push equip item [] = (equip, item ∷ []) ∷ []
entry_push equip item ((key, items) ∷ rest) =
    if equip == key
    then (key, items ++ (item ∷ [])) ∷ rest
    else if ltb equip key
    then (equip, item ∷ []) ∷ (key, items) ∷ rest
    else (key, items) ∷ entry_push equip item rest

-- The first loop, over the codes.
unfoldable pub push_codes : List ℕ → Grouped → Grouped
push_codes [] grouped = grouped
push_codes (code ∷ codes) grouped =
    push_codes codes (entry_push (split_log_code code).0 (split_log_code code).1 grouped)

-- The second loop, over `grouped.values_mut()`.
unfoldable pub tidy : Grouped → Grouped
tidy [] = []
tidy ((key, items) ∷ rest) = (key, sort_dedup items) ∷ tidy rest

unfoldable pub group_log_codes : List ℕ → Grouped
unfolding push_codes tidy
group_log_codes codes = tidy (push_codes codes [])

-- `grouped.get(&equip)`, with no items for a missing key.
unfoldable pub items_of : ℕ → Grouped → List ℕ
items_of equip [] = []
items_of equip ((key, items) ∷ rest) = if equip == key then items else items_of equip rest
