-- ===== src/Qualcomm/LogConfig/Refusals.antt =====
-- A response is never refused with an error of `set_mask_request`.
use grok.Base.{
  ℕ, zero, suc, ◌*◌, ◌+◌, Bool, true, false, Bool-cases, inl, inr, ltb, leb, ◌||◌, ◌==◌, not,
  length, get_or, Bytes, Result, ok, err, ◌>>=◌, if◌then◌else◌,
}
use grok.Qualcomm.Mask.{
  ControlError, invalid_equipment_id, item_out_of_range, not_log_config_response,
  unexpected_operation, remote_status, truncated_response,
}
use grok.Qualcomm.LogConfig.{
  read_u32, read_ranges, check_id_ranges, parse_log_config_header, parse_id_ranges_response,
}

-- The errors of a response, and none of `set_mask_request`.
abbrev pub IsResponseError : ControlError → Type 0
IsResponseError (invalid_equipment_id e) = ⊥
IsResponseError (item_out_of_range e i l) = ⊥
IsResponseError not_log_config_response = Unit
IsResponseError (unexpected_operation o) = Unit
IsResponseError (remote_status s) = Unit
IsResponseError truncated_response = Unit

abbrev pub Responds : {A : Type 0} → Result ControlError A → Type 0
Responds (ok a) = Unit
Responds (err e) = IsResponseError e

>>=-Responds :
    {A B : Type 0} (r : Result ControlError A) (f : A → Result ControlError B)
    → Responds r
    → ((a : A) → Responds (f a))
    → Responds (r >>= f)
>>=-Responds (ok a) f h k = k a
>>=-Responds (err e) f h k = h

if-Responds :
    {A : Type 0} (b : Bool) (x y : Result ControlError A)
    → Responds x
    → Responds y
    → Responds (if b then x else y)
if-Responds true x y hx hy = hx
if-Responds false x y hx hy = hy

read_u32-Responds : (bytes : Bytes) (offset : ℕ) → Responds (read_u32 bytes offset)
unfolding read_u32
read_u32-Responds bytes offset = elim (Bool-cases (leb (offset + 4) (length bytes))) [
  | inl t ↦ rw t tt
  | inr t ↦ rw t tt
]

pub parse_log_config_header-Responds : (packet : Bytes) → Responds (parse_log_config_header packet)
unfolding parse_log_config_header
parse_log_config_header-Responds packet =
    if-Responds (ltb (length packet) 12 || not (get_or packet 0 0 == 0x73)) _ _ tt (
      >>=-Responds (read_u32 packet 4) _ (read_u32-Responds packet 4) (λ operation.
        >>=-Responds (read_u32 packet 8) _ (read_u32-Responds packet 8) (λ status. tt)))

read_ranges-Responds : (slots idx : ℕ) (bytes : Bytes) → Responds (read_ranges slots idx bytes)
unfolding read_ranges
read_ranges-Responds zero idx bytes = tt
read_ranges-Responds (suc slots) idx bytes =
    >>=-Responds (read_u32 bytes (idx * 4)) _ (read_u32-Responds bytes (idx * 4)) (λ slot.
      >>=-Responds (read_ranges slots (idx + 1) bytes) _
        (read_ranges-Responds slots (idx + 1) bytes) (λ rest. tt))

pub parse_id_ranges_response-Responds :
    (packet : Bytes) → Responds (parse_id_ranges_response packet)
unfolding parse_id_ranges_response check_id_ranges
parse_id_ranges_response-Responds packet =
    >>=-Responds (parse_log_config_header packet) _ (parse_log_config_header-Responds packet) (λ x.
      if-Responds (not (x.0.operation == 1)) _ _ tt (
        if-Responds (not (x.0.status == 0)) _ _ tt
          (if-Responds (ltb (length x.1) 64) _ _ tt (read_ranges-Responds 16 0 x.1))))
