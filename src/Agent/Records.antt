-- ===== src/Agent/Records.antt =====
-- crates/6grok-agent/src/vendor_records.rs: the adapters for captures of other vendors. A reader is
-- what it delivers: bytes, and then the end of the file or a fault. A read that is interrupted is
-- tried again and so leaves no trace.

pub mod Streams
pub mod Samsung
pub mod Emission
use Prim.Native.String.{String}
use grok.Base.{
  ℕ, zero, suc, ◌+◌, ◌*◌, ◌⊎◌, Bool, ◌&&◌, ◌||◌, Option, none, some, List, [], ◌∷◌, ◌++◌, ltb, leb,
  if◌then◌else◌, length, get_or, take, drop, Bytes, from_le_u16, Result, ok, err,
}
use grok.Core.{Vendor}
use grok.Agent.Output.{Failure}

pub data RecordFormat : Type 0 where
  mediatek samsung raw : RecordFormat

pub record VendorRecord : Type 0 where
  pub vendor : Vendor
  pub log_code : ℕ
  pub packet : Bytes

pub data RecordError : Type 0 where
  read_header : String → RecordError
  truncated_header : ℕ → ℕ → RecordError
  read_payload : String → RecordError
  truncated_payload : RecordError
  exceeds_limit : ℕ → RecordError
  no_log_code : RecordError
  not_synthetic : ℕ → RecordError
  unknown_raw_vendor : ℕ → RecordError
  read_raw : String → RecordError
  sink_failed : Failure → RecordError
  out_of_fuel : RecordError

pub record Reader : Type 0 where
  pub bytes : Bytes
  pub fault : Option String

abbrev pub max_record : ℕ
max_record = 8 * 1024 * 1024

abbrev pub mtk_header_len : ℕ
mtk_header_len = 9

abbrev pub samsung_header_len : ℕ
samsung_header_len = 16

-- `read_exact_or_eof` where the reader ends before the header does.
short_header : ℕ → Bytes → Option String → Result RecordError (Option (Bytes × Reader))
short_header n bytes (some e) = err (read_header e)
short_header n [] none = ok none
short_header n (b ∷ bs) none = err (truncated_header (length (b ∷ bs)) n)

unfoldable pub read_exact_or_eof : ℕ → Reader → Result RecordError (Option (Bytes × Reader))
unfolding short_header
read_exact_or_eof n r =
    if leb n (length r.bytes)
    then ok (some (take n r.bytes, record r { bytes = drop n r.bytes }))
    else short_header n r.bytes r.fault

short_payload : Option String → RecordError
short_payload none = truncated_payload
short_payload (some e) = read_payload e

-- `reader.read_exact(&mut packet[start..])`
unfoldable pub read_exact : ℕ → Reader → Result RecordError (Bytes × Reader)
unfolding short_payload
read_exact n r =
    if leb n (length r.bytes)
    then ok (take n r.bytes, record r { bytes = drop n r.bytes })
    else err (short_payload r.fault)

-- A header read: the vendor, the log code and the length of the payload.
abbrev pub Meaning : Type 0
Meaning = Vendor × ℕ × ℕ

unfoldable pub mediatek_header : Bytes → Result RecordError Meaning
mediatek_header header =
    let log_code = from_le_u16 (get_or header 0 0) (get_or header 1 0) in
    let size = from_le_u16 (get_or header 6 0) (get_or header 7 0) in
    if ltb max_record size then err (exceeds_limit size) else ok (Vendor.mediatek, log_code, size)

abbrev pub is_samsung_code : ℕ → Bool
is_samsung_code code = leb 0x2000 code && leb code 0x23ff

-- `fixed_log_code.or_else(…)`
unfoldable pub samsung_log_code : Option ℕ → ℕ → Option ℕ
samsung_log_code (some code) command = some code
samsung_log_code none command = if is_samsung_code command then some command else none

unfoldable pub samsung_header : Option ℕ → Bytes → Result RecordError Meaning
samsung_header fixed header =
    let command = from_le_u16 (get_or header 4 0) (get_or header 5 0) in
    let size = from_le_u16 (get_or header 6 0) (get_or header 7 0) in
    let code = samsung_log_code fixed command in
    if ltb max_record size then err (exceeds_limit size) else elim code [
      | none ↦ err (not_synthetic command)
      | some log_code ↦ ok (Vendor.samsung, log_code, size)
    ]

unfoldable pub raw_vendor : ℕ → Option Vendor
raw_vendor code =
    if is_samsung_code code
    then some Vendor.samsung
    else if (leb 0x0c00 code && leb code 0x0eff) || (leb 0x1c00 code && leb code 0x1eff)
    then some Vendor.mediatek
    else none

module _ {S : Type 0} (sink : VendorRecord → S → Option RecordError × S) where
  -- `sink(record)?`, and what follows it.
  unfoldable pub and_sink :
      Option RecordError × S → (S → Option RecordError × S) → Option RecordError × S
  and_sink (some e, s) k = (some e, s)
  and_sink (none, s) k = k s

  -- The loop of the first two formats, on fuel.
  unfoldable pub record_loop :
      ℕ → (Bytes → Result RecordError Meaning) → ℕ → Reader → S → Option RecordError × S
  record_loop header_len meaning zero r s = (some out_of_fuel, s)
  record_loop header_len meaning (suc fuel) r s = elim (read_exact_or_eof header_len r) [
    | err e ↦ (some e, s)
    | ok none ↦ (none, s)
    | ok (some (header, behind)) ↦ elim (meaning header) [
      | err e ↦ (some e, s)
      | ok (vendor, log_code, size) ↦ elim (read_exact size behind) [
        | err e ↦ (some e, s)
        | ok (payload, rest) ↦
            and_sink
              (sink (record { vendor = vendor; log_code = log_code; packet = header ++ payload }) s)
              (λ t. record_loop header_len meaning fuel rest t)
      ]
    ]
  ]

  -- `reader.take(MAX_RECORD as u64 + 1).read_to_end(&mut packet)` and the checks behind it.
  raw_packet : Vendor → ℕ → Bytes → Option String → S → Option RecordError × S
  raw_packet vendor code bytes (some e) s =
      if ltb max_record (length bytes)
      then (some (exceeds_limit max_record), s)
      else (some (read_raw e), s)
  raw_packet vendor code [] none s = (none, s)
  raw_packet vendor code (b ∷ bs) none s =
      if ltb max_record (length (b ∷ bs))
      then (some (exceeds_limit max_record), s)
      else sink (record { vendor = vendor; log_code = code; packet = b ∷ bs }) s

  unfoldable pub read_records : RecordFormat → Option ℕ → Reader → S → Option RecordError × S
  unfolding raw_packet
  read_records RecordFormat.mediatek fixed r s =
      record_loop mtk_header_len mediatek_header (suc (length r.bytes)) r s
  read_records RecordFormat.samsung fixed r s =
      record_loop samsung_header_len (samsung_header fixed) (suc (length r.bytes)) r s
  read_records raw none r s = (some no_log_code, s)
  read_records raw (some code) r s = elim (raw_vendor code) [
    | none ↦ (some (unknown_raw_vendor code), s)
    | some vendor ↦ raw_packet vendor code r.bytes r.fault s
  ]
