-- ===== src/Sdm/Init.antt =====
-- crates/6grok-samsung-sdm/src/sdm.rs: the item selections, and the transaction that starts and
-- stops an acquisition (`init_packets`, `stop_packet`).
pub mod Transaction
use grok.Base.{
  ℕ, ◌%◌, ◌^◌, min, Bool, true, false, List, [], ◌∷◌, ◌++◌, length, take, Bytes, to_be_u32, Result,
  ok, err, ◌>>=◌, if◌then◌else◌,
}
use grok.Sdm.{SdmError, generate_packet}

pub data SdmProfile : Type 0 where
  signaling radio full : SdmProfile

-- `SDM_DIRECTION_DM`
abbrev pub direction_dm : ℕ
direction_dm = 0xa0

abbrev pub group_control : ℕ
group_control = 0

-- The loop of `item_selection`.
abbrev pub select_pairs : Bytes → Bytes
select_pairs [] = []
select_pairs (item ∷ items) = item ∷ 1 ∷ select_pairs items

abbrev pub item_selection : Bytes → Bytes
item_selection items = (min (length items) 0xfe % 2 ^ 8) ∷ select_pairs (take 0xfe items)

abbrev pub select_all : Bytes
select_all = 0xff ∷ []

abbrev pub deselect_all : Bytes
deselect_all = 0 ∷ []

abbrev common_context : Bytes
common_context = 0x00 ∷ 0x01 ∷ 0x02 ∷ []

abbrev common_signaling : Bytes
common_signaling = 0x03 ∷ 0x06 ∷ 0x08 ∷ 0x09 ∷ []

abbrev lte_context : Bytes
lte_context = 0x50 ∷ 0x51 ∷ []

abbrev lte_signaling : Bytes
lte_signaling = 0x52 ∷ 0x5a ∷ 0x5f ∷ []

abbrev lte_radio : Bytes
lte_radio = 0x00 ∷ 0x01 ∷ 0x02 ∷ 0x10 ∷ []

-- The items of the common group, and those of LTE.
unfoldable pub profile_items : SdmProfile → Bytes × Bytes
profile_items signaling = (common_context ++ common_signaling, lte_context ++ lte_signaling)
profile_items radio = (common_context, lte_context ++ lte_radio)
profile_items full =
    (common_context ++ common_signaling, (lte_context ++ lte_signaling) ++ lte_radio)

-- A command of the control group.
abbrev pub control_packet : ℕ → Bytes → Result SdmError Bytes
control_packet command payload = generate_packet direction_dm group_control command payload 0

-- The commands that select items: common, LTE, EDGE, HSPA, CDMA.
abbrev pub item_commands : List ℕ
item_commands = 0x10 ∷ 0x20 ∷ 0x30 ∷ 0x40 ∷ 0x44 ∷ []

unfoldable pub for_commands : List ℕ → Bytes → Result SdmError (List Bytes)
for_commands [] payload = ok []
for_commands (command ∷ commands) payload = do
  packet ← control_packet command payload
  packets ← for_commands commands payload
  ok (packet ∷ packets)

unfoldable pub select_items : SdmProfile → Bool → Result SdmError (List Bytes)
unfolding for_commands profile_items
select_items profile true = for_commands item_commands select_all
select_items profile false = do
  common ← control_packet 0x10 (item_selection (profile_items profile).0)
  lte ← control_packet 0x20 (item_selection (profile_items profile).1)
  ok (common ∷ lte ∷ [])

unfoldable pub stop_packet : Result SdmError Bytes
stop_packet = control_packet 2 []

unfoldable pub init_packets : ℕ → SdmProfile → Bool → Result SdmError (List Bytes)
unfolding select_items for_commands
init_packets start_magic profile all_items = do
  start ← control_packet 0 (to_be_u32 start_magic)
  period ← control_packet 6 (5 ∷ [])
  cleared ← for_commands item_commands deselect_all
  selected ← select_items profile all_items
  ok (start ∷ period ∷ (cleared ++ selected))
