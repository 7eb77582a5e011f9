-- ===== src/Qualcomm/LogConfig.antt =====
-- crates/6grok-agent/src/qualcomm.rs: DIAG_LOG_CONFIG_F requests and the parsing of responses.
pub mod Responses
pub mod Refusals
use grok.Base.{
  ℕ, zero, suc, ◌+◌, ◌*◌, List, [], ◌∷◌, ◌++◌, ltb, leb, ◌==◌, not, ◌||◌, if◌then◌else◌, length,
  get_or, drop, Bytes, to_le_u32, from_le_u32, Result, ok, err, ◌>>=◌,
}
use grok.Qualcomm.Mask.{
  ControlError, diag_log_config_f, not_log_config_response, unexpected_operation, remote_status,
  truncated_response,
}

abbrev pub log_config_disable_op : ℕ
log_config_disable_op = 0

abbrev pub log_config_retrieve_id_ranges_op : ℕ
log_config_retrieve_id_ranges_op = 1

unfoldable pub log_config_request : ℕ → Bytes
log_config_request operation = diag_log_config_f ∷ 0 ∷ 0 ∷ 0 ∷ to_le_u32 operation

unfoldable pub retrieve_id_ranges_request : Bytes
unfolding log_config_request
retrieve_id_ranges_request = log_config_request log_config_retrieve_id_ranges_op

unfoldable pub disable_logging_request : Bytes
unfolding log_config_request
disable_logging_request = log_config_request log_config_disable_op

pub record LogConfigHeader : Type 0 where
  pub operation : ℕ
  pub status : ℕ

-- `data.get(offset..offset + 4)`, and the little-endian number there.
unfoldable pub read_u32 : Bytes → ℕ → Result ControlError ℕ
read_u32 bytes offset =
    if leb (offset + 4) (length bytes)
    then ok (
        from_le_u32 (get_or bytes offset 0) (get_or bytes (offset + 1) 0)
          (get_or bytes (offset + 2) 0) (get_or bytes (offset + 3) 0))
    else err truncated_response

unfoldable pub parse_log_config_header : Bytes → Result ControlError (LogConfigHeader × Bytes)
parse_log_config_header packet =
    if ltb (length packet) 12 || not (get_or packet 0 0 == diag_log_config_f)
    then err not_log_config_response
    else do
      operation ← read_u32 packet 4
      status ← read_u32 packet 8
      ok (record { operation = operation; status = status }, drop 12 packet)

-- The loop over the slots that are left, from slot `idx` on.
unfoldable pub read_ranges : ℕ → ℕ → Bytes → Result ControlError (List ℕ)
read_ranges zero idx bytes = ok []
read_ranges (suc slots) idx bytes = do
  slot ← read_u32 bytes (idx * 4)
  rest ← read_ranges slots (idx + 1) bytes
  ok (slot ∷ rest)

-- The checks behind the header.
unfoldable pub check_id_ranges : LogConfigHeader → Bytes → Result ControlError (List ℕ)
check_id_ranges header bytes =
    if not (header.operation == log_config_retrieve_id_ranges_op)
    then err (unexpected_operation header.operation)
    else if not (header.status == 0)
    then err (remote_status header.status)
    else if ltb (length bytes) (16 * 4)
    then err truncated_response
    else read_ranges 16 0 bytes

unfoldable pub parse_id_ranges_response : Bytes → Result ControlError (List ℕ)
unfolding check_id_ranges
parse_id_ranges_response packet = do
  (header, bytes) ← parse_log_config_header packet
  check_id_ranges header bytes
