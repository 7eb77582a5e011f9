-- ===== src/Tests/Control.antt =====
-- Log codes, masks and responses at concrete inputs.
use grok.Base.{
  ℕ, ◌+◌, ◌/◌, ◌<◌, ◌≡◌, refl, true, List, [], ◌∷◌, ◌++◌, length, All, IsByte, Bytes, ok, err,
  arith, contains, sort_unstable, dedup,
}
use grok.Qualcomm.Codes.{entry_push, group_log_codes}
use grok.Qualcomm.Mask.{set_item, set_mask_request, item_out_of_range}
use grok.Qualcomm.Mask.Bitmap.{
  mask_bit, set_mask_header, set_mask_request_bits, set_mask_request_refused,
}
use grok.Qualcomm.LogConfig.{parse_id_ranges_response}
use grok.Qualcomm.LogConfig.Responses.{response, RangesOutcome, parse_id_ranges_response_outcome}

abbrev codes : List ℕ
codes = 0xb0c0 ∷ 0xb17f ∷ 0xb0c0 ∷ 0x1a00 ∷ []

groups : group_log_codes codes ≡ (1, 0xa00 ∷ []) ∷ (0xb, 0xc0 ∷ 0x17f ∷ []) ∷ []
unfolding group_log_codes entry_push sort_unstable dedup
groups = refl

mask_bytes :
    set_mask_request 0x0b 8 (0 ∷ 8 ∷ [])
    ≡ ok (0x73 ∷ 0 ∷ 0 ∷ 0 ∷ 3 ∷ 0 ∷ 0 ∷ 0 ∷ 0x0b ∷ 0 ∷ 0 ∷ 0 ∷ 8 ∷ 0 ∷ 0 ∷ 0 ∷ 1 ∷ 1 ∷ [])
unfolding set_mask_request set_item
mask_bytes = refl

set_mask_request_bits_example :
    (mask : Bytes) × (set_mask_request 0x0b 8 (0 ∷ 8 ∷ []) ≡ ok (set_mask_header 0x0b 8 ++ mask))
    × (length mask ≡ 8 / 8 + 1)
    × All IsByte mask
    × ((j : ℕ) → mask_bit mask j ≡ contains j (0 ∷ 8 ∷ []))
set_mask_request_bits_example =
    set_mask_request_bits 0x0b 8 (0 ∷ 8 ∷ []) (omega arith) (omega arith)

set_mask_request_refused_example :
    (bad : ℕ) × (set_mask_request 0x0b 8 (0 ∷ 9 ∷ []) ≡ err (item_out_of_range 0x0b bad 8))
    × (8 < bad)
    × (contains bad (0 ∷ 9 ∷ []) ≡ true)
unfolding contains
set_mask_request_refused_example =
    set_mask_request_refused 0x0b 8 (0 ∷ 9 ∷ []) 9 (omega arith) refl (omega arith)

abbrev ranges : List ℕ
ranges =
    0x100 ∷ 0x101 ∷ 0x102 ∷ 0x103 ∷ 0x104 ∷ 0x105 ∷ 0x106 ∷ 0x107 ∷ 0x108 ∷ 0x109 ∷ 0x10a ∷ 0x10b
    ∷ 0x10c ∷ 0x10d ∷ 0x10e ∷ 0x10f ∷ []

parse_id_ranges_response_outcome_example :
    RangesOutcome 1 5 [] (parse_id_ranges_response (response 1 5 []))
parse_id_ranges_response_outcome_example =
    parse_id_ranges_response_outcome 1 5 [] (omega arith) (omega arith)
