-- ===== src/Qualcomm/Mask.antt =====
-- crates/6grok-agent/src/qualcomm.rs: `set_mask_request` and `ControlError`.
pub mod Bitmap
use grok.Base.{
  ℕ, ◌+◌, ◌/◌, ◌%◌, ◌^◌, List, [], ◌∷◌, ◌++◌, ltb, if◌then◌else◌, replicate, set, get_or, bit_or,
  Bytes, to_le_u32, Result, ok, err, ◌>>=◌,
}

abbrev pub diag_log_config_f : ℕ
diag_log_config_f = 0x73

abbrev pub log_config_set_mask_op : ℕ
log_config_set_mask_op = 3

pub data ControlError : Type 0 where
  invalid_equipment_id : ℕ → ControlError
  item_out_of_range : ℕ → ℕ → ℕ → ControlError
  not_log_config_response : ControlError
  unexpected_operation : ℕ → ControlError
  remote_status : ℕ → ControlError
  truncated_response : ControlError

-- `mask[index] |= 1 << bit` with `index = item / 8` and `bit = item % 8`.
unfoldable pub set_item : ℕ → Bytes → Bytes
set_item item mask = set mask (item / 8) (bit_or (get_or mask (item / 8) 0) (2 ^ (item % 8)))

-- The loop over the items.
unfoldable pub fill_mask : ℕ → ℕ → List ℕ → Bytes → Result ControlError Bytes
fill_mask equip_id last_item [] mask = ok mask
fill_mask equip_id last_item (item ∷ items) mask =
    let rest = fill_mask equip_id last_item items (set_item item mask) in
    if ltb last_item item then err (item_out_of_range equip_id item last_item) else rest

unfoldable pub set_mask_request : ℕ → ℕ → List ℕ → Result ControlError Bytes
unfolding fill_mask
set_mask_request equip_id last_item items =
    if ltb 0x0f equip_id then err (invalid_equipment_id equip_id) else do
      mask ← fill_mask equip_id last_item items (replicate (last_item / 8 + 1) 0)
      ok (
          diag_log_config_f
          ∷ 0
          ∷ 0
          ∷ 0
          ∷ (to_le_u32 log_config_set_mask_op
              ++ (to_le_u32 equip_id ++ (to_le_u32 last_item ++ mask))))
