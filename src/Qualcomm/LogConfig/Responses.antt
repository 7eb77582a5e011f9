-- ===== src/Qualcomm/LogConfig/Responses.antt =====
-- What the parsers of responses make of a packet.
use grok.Base.{
  subst, Bool-cases, ℕ, zero, suc, ◌+◌, ◌*◌, ◌≤◌, ◌<◌, ◌≡◌, ◌≢◌, refl, sym, ap, ◌∙◌, List, [], ◌∷◌,
  ◌++◌, ltb, ◌==◌, length, length-append, get_or-append_add, Bytes, IsU32, All, to_le_u32, Result,
  ok, err, arith, append_assoc, from_le_u32-to_le_u32, Result-cases, inl, inr, ◌⊎◌,
}
use grok.Qualcomm.Mask.{
  ControlError, diag_log_config_f, unexpected_operation, remote_status, truncated_response,
}
use grok.Qualcomm.LogConfig.{
  LogConfigHeader, read_u32, parse_log_config_header, read_ranges, check_id_ranges,
  parse_id_ranges_response,
}

-- A number that stands in the bytes is read back from its offset.
read_u32-append :
    (front rest : Bytes) (n offset : ℕ)
    → IsU32 n
    → offset ≡ length front
    → read_u32 (front ++ (to_le_u32 n ++ rest)) offset ≡ ok n
unfolding read_u32
read_u32-append front rest n offset hn h = ground (
  arith,
  length-append front (to_le_u32 n ++ rest),
  get_or-append_add front (to_le_u32 n ++ rest) 0 offset 0,
  get_or-append_add front (to_le_u32 n ++ rest) 1 (offset + 1) 0,
  get_or-append_add front (to_le_u32 n ++ rest) 2 (offset + 2) 0,
  get_or-append_add front (to_le_u32 n ++ rest) 3 (offset + 3) 0,
  from_le_u32-to_le_u32 n hn,
)

-- A response as the modem lays it out.
abbrev pub response : ℕ → ℕ → Bytes → Bytes
response operation status bytes =
    diag_log_config_f ∷ 0 ∷ 0 ∷ 0 ∷ (to_le_u32 operation ++ (to_le_u32 status ++ bytes))

-- The header of a response is read back, with the bytes behind it.
pub parse_log_config_header-response :
    (operation status : ℕ) (bytes : Bytes)
    → IsU32 operation
    → IsU32 status
    → parse_log_config_header (response operation status bytes)
      ≡ ok (record { operation = operation; status = status }, bytes)
unfolding parse_log_config_header read_u32
parse_log_config_header-response operation status bytes ho hs =
    ground (arith, from_le_u32-to_le_u32 operation ho, from_le_u32-to_le_u32 status hs)

abbrev pub le_bytes : List ℕ → Bytes
le_bytes [] = []
le_bytes (n ∷ ns) = to_le_u32 n ++ le_bytes ns

length-le_bytes : (ns : List ℕ) → length (le_bytes ns) ≡ 4 * length ns
length-le_bytes [] = refl
length-le_bytes (n ∷ ns) = omega (arith, length-le_bytes ns)

read_ranges-le_bytes :
    (ns : List ℕ) (front rest : Bytes) (idx : ℕ)
    → All IsU32 ns
    → length front ≡ idx * 4
    → read_ranges (length ns) idx (front ++ (le_bytes ns ++ rest)) ≡ ok ns
unfolding read_ranges
read_ranges-le_bytes [] front rest idx h e = refl
read_ranges-le_bytes (n ∷ ns) front rest idx h e =
    let later : read_ranges (length ns) (idx + 1) (front ++ (to_le_u32 n ++ (le_bytes ns ++ rest)))
        ≡ ok ns =
      ap (read_ranges (length ns) (idx + 1)) (sym (append_assoc front (to_le_u32 n) _))
      ∙ read_ranges-le_bytes ns (front ++ to_le_u32 n) rest (idx + 1) h.1
          (omega (arith, length-append front (to_le_u32 n))) in
    ground (arith, read_u32-append front (le_bytes ns ++ rest) n (idx * 4) h.0 (omega arith), later)

-- A successful response with sixteen 32-bit ranges is read back as those ranges, whatever follows
-- them.
pub parse_id_ranges_response-response :
    (ranges : List ℕ) (rest : Bytes)
    → length ranges ≡ 16
    → All IsU32 ranges
    → parse_id_ranges_response (response 1 0 (le_bytes ranges ++ rest)) ≡ ok ranges
unfolding parse_id_ranges_response
parse_id_ranges_response-response ranges rest h16 h =
    rw (parse_log_config_header-response 1 0 (le_bytes ranges ++ rest) (omega arith) (omega arith))
      (ground (arith, length-append (le_bytes ranges) rest, length-le_bytes ranges, slots))
  where
    slots : read_ranges 16 0 (le_bytes ranges ++ rest) ≡ ok ranges
    slots =
        subst (λ n. read_ranges n 0 (le_bytes ranges ++ rest) ≡ ok ranges) h16
          (read_ranges-le_bytes ranges [] rest 0 h refl)

read_u32-ok :
    (bytes : Bytes) (offset : ℕ)
    → offset + 4 ≤ length bytes
    → (n : ℕ) × (read_u32 bytes offset ≡ ok n)
unfolding read_u32
read_u32-ok bytes offset h = elim (Result-cases (read_u32 bytes offset)) [
  | inl good ↦ good
  | inr (x, bad) ↦ absurd (ground arith)
]

-- With room for all slots the loop reads as many numbers.
read_ranges-length :
    (slots idx : ℕ) (bytes : Bytes)
    → (idx + slots) * 4 ≤ length bytes
    → (ranges : List ℕ) × (read_ranges slots idx bytes ≡ ok ranges) × (length ranges ≡ slots)
unfolding read_ranges
read_ranges-length zero idx bytes h = ([], refl, refl)
read_ranges-length (suc slots) idx bytes h =
    let (rest, e, l) = read_ranges-length slots (idx + 1) bytes (omega arith) in
    let (n, first) = read_u32-ok bytes (idx * 4) (omega arith) in
    (n ∷ rest, rw (first, e), ap suc l)

-- What the operator sees of a response with a well-formed header: another operation is reported
-- first, then a status that is not zero, then a body of fewer than 64 bytes; in all other cases
-- there are sixteen ranges.
abbrev pub RangesOutcome : ℕ → ℕ → Bytes → Result ControlError (List ℕ) → Type 0
RangesOutcome operation status bytes (ok ranges) =
    (operation ≡ 1) × (status ≡ 0) × (64 ≤ length bytes) × (length ranges ≡ 16)
RangesOutcome operation status bytes (err e) =
    ((operation ≢ 1) × (e ≡ unexpected_operation operation))
    ⊎ ((operation ≡ 1) × (status ≢ 0) × (e ≡ remote_status status)
        ⊎ ((operation ≡ 1) × (status ≡ 0) × (length bytes < 64) × (e ≡ truncated_response)))

check_id_ranges_outcome :
    (header : LogConfigHeader) (bytes : Bytes)
    → RangesOutcome header.operation header.status bytes (check_id_ranges header bytes)
unfolding check_id_ranges
check_id_ranges_outcome header bytes = elim (Bool-cases (header.operation == 1)) [
  | inr other ↦ rw other (inl (ground arith, refl))
  | inl op ↦ rw op (elim (Bool-cases (header.status == 0)) [
    | inr bad ↦ rw bad (inr (inl (ground arith, ground arith, refl)))
    | inl fine ↦ rw fine (elim (Bool-cases (ltb (length bytes) (16 * 4))) [
      | inl short ↦ rw short (inr (inr (ground arith, ground arith, ground arith, refl)))
      | inr long ↦
          let (ranges, e, l) = read_ranges-length 16 0 bytes (ground arith) in
          rw (long, e) (ground arith, ground arith, ground arith, l)
    ])
  ])
]

-- A response with 32-bit header fields gives sixteen ranges exactly when its operation is
-- RETRIEVE_ID_RANGES, its status is 0 and 64 bytes at least follow; else the error is the first of
-- these conditions that fails.
pub parse_id_ranges_response_outcome :
    (operation status : ℕ) (bytes : Bytes)
    → IsU32 operation
    → IsU32 status
    → RangesOutcome operation status bytes
        (parse_id_ranges_response (response operation status bytes))
unfolding parse_id_ranges_response
parse_id_ranges_response_outcome operation status bytes ho hs =
    rw (parse_log_config_header-response operation status bytes ho hs)
      (check_id_ranges_outcome (record { operation = operation; status = status }) bytes)

length-check_id_ranges :
    (header : LogConfigHeader) (bytes : Bytes) (ranges : List ℕ)
    → check_id_ranges header bytes ≡ ok ranges
    → length ranges ≡ 16
length-check_id_ranges header bytes ranges h =
    let (operation, status, long, sixteen) =
      subst (RangesOutcome header.operation header.status bytes) h
        (check_id_ranges_outcome header bytes) in
    sixteen

-- Sixteen ranges, an entry for each equipment ID of four bits.
pub length-parse_id_ranges_response :
    (packet : Bytes) (ranges : List ℕ)
    → parse_id_ranges_response packet ≡ ok ranges
    → length ranges ≡ 16
unfolding parse_id_ranges_response
length-parse_id_ranges_response packet ranges h =
    elim (Result-cases (parse_log_config_header packet)) [
      | inl ((header, rest), e) ↦ length-check_id_ranges header rest ranges (rw e at h)
      | inr (x, e) ↦ cc (rw e at h)
    ]
