-- ===== src/Agent/Records/Samsung.antt =====
-- Samsung files by the layout of their records: four bytes, the command, the length of the payload
-- (both with the low byte first), eight bytes, and the payload.
use grok.Base.{
  ℕ, suc, ◌*◌, ◌/◌, ◌%◌, ◌<◌, ◌≤◌, ◌≡◌, refl, sym, ap, ◌⊎◌, inl, inr, Option, none, some, List, [],
  ◌∷◌, ◌++◌, length, All, map, false, leb, Bytes, IsU16, to_le_u16, ok, err, arith, from_le_u16,
  get_or, ltb,
}
use grok.Core.{Vendor}
use grok.Agent.Records.{
  RecordFormat, RecordError, truncated_payload, not_synthetic, VendorRecord, read_exact,
  record_loop, read_records, samsung_header_len, samsung_header, samsung_log_code,
}
use grok.Agent.Records.Streams.{
  Item, IsItem, bytes_of, record_of, sink_all, ending, read_header-append, record_loop-items,
  record_loop-ending,
}

pub record SamsungRecord : Type 0 where
  pub tag : ℕ × ℕ × ℕ × ℕ
  pub command : ℕ
  pub reserved : ℕ × ℕ × ℕ × ℕ × ℕ × ℕ × ℕ × ℕ
  pub payload : Bytes

abbrev pub tag_bytes : ℕ × ℕ × ℕ × ℕ → Bytes
tag_bytes (a, b, c, d) = a ∷ b ∷ c ∷ d ∷ []

abbrev pub reserved_bytes : ℕ × ℕ × ℕ × ℕ × ℕ × ℕ × ℕ × ℕ → Bytes
reserved_bytes (a, b, c, d, e, f, g, h) = a ∷ b ∷ c ∷ d ∷ e ∷ f ∷ g ∷ h ∷ []

abbrev pub header_bytes : SamsungRecord → Bytes
header_bytes r =
    tag_bytes r.tag
    ++ (to_le_u16 r.command ++ (to_le_u16 (length r.payload) ++ reserved_bytes r.reserved))

-- The log code: the fixed one, whatever the command is, or else a command from 0x2000 to 0x23ff.
abbrev pub HasCode : Option ℕ → ℕ → ℕ → Type 0
HasCode (some fixed) command code = code ≡ fixed
HasCode none command code = (code ≡ command) × (0x2000 ≤ command) × (command ≤ 0x23ff)

-- Without a fixed code, a command that is none.
abbrev pub HasNoCode : Option ℕ → ℕ → Type 0
HasNoCode (some fixed) command = ⊥
HasNoCode none command = (command < 0x2000) ⊎ (0x23ff < command)

-- A record with its log code.
abbrev pub IsSamsung : Option ℕ → SamsungRecord × ℕ → Type 0
IsSamsung fixed (r, code) =
    IsU16 r.command × IsU16 (length r.payload) × HasCode fixed r.command code

abbrev pub samsung_item : SamsungRecord × ℕ → Item
samsung_item (r, code) = (header_bytes r, r.payload, (Vendor.samsung, code, length r.payload))

samsung_log_code-some :
    (fixed : Option ℕ) (command code : ℕ)
    → HasCode fixed command code
    → samsung_log_code fixed command ≡ some code
unfolding samsung_log_code
samsung_log_code-some (some fixed) command code h = ap some (sym h)
samsung_log_code-some none command code (e, low, high) = ground arith

samsung_log_code-none :
    (fixed : Option ℕ) (command : ℕ)
    → HasNoCode fixed command
    → samsung_log_code fixed command ≡ none
unfolding samsung_log_code
samsung_log_code-none (some fixed) command h = elim h [ ]
samsung_log_code-none none command (inl h) = ground arith
samsung_log_code-none none command (inr h) = ground arith

low_high : (n : ℕ) → IsU16 n → from_le_u16 (n % 256) (n / 256 % 256) ≡ n
low_high n h = omega arith

samsung_header-fields :
    (fixed : Option ℕ) (header : Bytes) (command size : ℕ) (o : Option ℕ)
    → from_le_u16 (get_or header 4 0) (get_or header 5 0) ≡ command
    → from_le_u16 (get_or header 6 0) (get_or header 7 0) ≡ size
    → IsU16 size
    → samsung_log_code fixed command ≡ o
    → samsung_header fixed header
      ≡ elim o [ none ↦ err (not_synthetic command) | some code ↦ ok (Vendor.samsung, code, size) ]
unfolding samsung_header
samsung_header-fields fixed header command size none hc hs hn ho =
    let small : ltb (8 * 1024 * 1024) size ≡ false = ground arith in
    rw (hs, small, hc, ho) (ap (λ c. err (not_synthetic c)) hc)
samsung_header-fields fixed header command size (some code) hc hs hn ho =
    let small : ltb (8 * 1024 * 1024) size ≡ false = ground arith in
    rw (hs, small, hc, ho) (ap (λ n. ok (Vendor.samsung, code, n)) hs)

-- The header is read by its layout.
samsung_header-bytes :
    (fixed : Option ℕ) (r : SamsungRecord) (o : Option ℕ)
    → IsU16 r.command
    → IsU16 (length r.payload)
    → samsung_log_code fixed r.command ≡ o
    → samsung_header fixed (header_bytes r) ≡ elim o [
      | none ↦ err (not_synthetic r.command)
      | some code ↦ ok (Vendor.samsung, code, length r.payload)
    ]
samsung_header-bytes fixed r o hc hp e =
    samsung_header-fields fixed (header_bytes r) r.command (length r.payload) o
      (low_high r.command hc) (low_high (length r.payload) hp) hp e

samsung_item-IsItem :
    (fixed : Option ℕ) (r : SamsungRecord) (code : ℕ)
    → IsSamsung fixed (r, code)
    → IsItem samsung_header_len (samsung_header fixed) (samsung_item (r, code))
samsung_item-IsItem fixed r code (hc, hp, h) = (
  refl,
  refl,
  samsung_header-bytes fixed r (some code) hc hp (samsung_log_code-some fixed r.command code h),
)

samsung_items-IsItem :
    (fixed : Option ℕ) (records : List (SamsungRecord × ℕ))
    → All (IsSamsung fixed) records
    → All (IsItem samsung_header_len (samsung_header fixed)) (map samsung_item records)
samsung_items-IsItem fixed [] h = tt
samsung_items-IsItem fixed ((r, code) ∷ records) (h, hs) =
    (samsung_item-IsItem fixed r code h, samsung_items-IsItem fixed records hs)

-- What stands behind the whole records.
pub data Finish : Type 0 where
  few : Bytes → Finish
  unknown : SamsungRecord → Bytes → Finish
  cut : SamsungRecord × ℕ → Bytes → Finish

-- Less than a header; a header whose command is no log code, and anything; a header with its log code,
-- and less than its payload.
abbrev pub IsFinish : Option ℕ → Finish → Type 0
IsFinish fixed (few tail) = length tail < 16
IsFinish fixed (unknown r rest) =
    IsU16 r.command × IsU16 (length r.payload) × HasNoCode fixed r.command
IsFinish fixed (cut (r, code) part) = IsSamsung fixed (r, code) × (length part < length r.payload)

abbrev pub finish_bytes : Finish → Bytes
finish_bytes (few tail) = tail
finish_bytes (unknown r rest) = header_bytes r ++ rest
finish_bytes (cut (r, code) part) = header_bytes r ++ part

abbrev pub finish_error : Finish → Option RecordError
finish_error (few tail) = ending 16 tail
finish_error (unknown r rest) = some (not_synthetic r.command)
finish_error (cut (r, code) part) = some truncated_payload

read_exact-cut :
    (n : ℕ) (part : Bytes)
    → length part < n
    → read_exact n (record { bytes = part; fault = none }) ≡ err truncated_payload
unfolding read_exact
read_exact-cut n part h = let few : leb n (length part) ≡ false = ground arith in rw few

-- A record by its layout, with its log code.
abbrev pub vendor_record : SamsungRecord × ℕ → VendorRecord
vendor_record (r, code) = record {
  vendor = Vendor.samsung;
  log_code = code;
  packet = header_bytes r ++ r.payload;
}

abbrev pub file_bytes : List (SamsungRecord × ℕ) → Bytes
file_bytes [] = []
file_bytes ((r, code) ∷ records) = header_bytes r ++ (r.payload ++ file_bytes records)

bytes_of-samsung_item :
    (records : List (SamsungRecord × ℕ)) → bytes_of (map samsung_item records) ≡ file_bytes records
bytes_of-samsung_item [] = refl
bytes_of-samsung_item ((r, code) ∷ records) = rw (bytes_of-samsung_item records)

record_of-samsung_item :
    (records : List (SamsungRecord × ℕ))
    → map record_of (map samsung_item records) ≡ map vendor_record records
record_of-samsung_item [] = refl
record_of-samsung_item ((r, code) ∷ records) = rw (record_of-samsung_item records)

module _ {S : Type 0} (sink : VendorRecord → S → Option RecordError × S) where
  record_loop-finish :
      (fixed : Option ℕ) (finish : Finish) (more : ℕ) (s : S)
      → IsFinish fixed finish
      → record_loop sink samsung_header_len
          (samsung_header fixed)
          (suc more)
          (record { bytes = finish_bytes finish; fault = none })
          s
        ≡ (finish_error finish, s)
  unfolding record_loop
  record_loop-finish fixed (few tail) more s h =
      record_loop-ending sink 16 more (samsung_header fixed) tail s (omega arith) h
  record_loop-finish fixed (unknown r rest) more s (hc, hp, h) = rw (
    record_loop,
    read_header-append 16 (header_bytes r) rest none refl,
    samsung_header-bytes fixed r none hc hp (samsung_log_code-none fixed r.command h),
  )
  record_loop-finish fixed (cut (r, code) part) more s ((hc, hp, h), hl) = rw (
    record_loop,
    read_header-append 16 (header_bytes r) part none refl,
    samsung_header-bytes fixed r (some code) hc hp (samsung_log_code-some fixed r.command code h),
    read_exact-cut (length r.payload) part hl,
  )

  -- A Samsung file of whole records, each four bytes, the command, the length of the payload (both of
  -- 16 bits, the low byte first), eight bytes, and the payload: the sink gets each record, header and
  -- payload, in order and up to the first that it refuses, with the fixed log code if there is one,
  -- whatever the command is, and else with the command, which is from 0x2000 to 0x23ff. If it refuses
  -- none, what stands behind them decides: nothing is the end; less than 16 bytes are a truncated
  -- header; where no code is fixed, a header with a command outside that range is an error that names
  -- it; and a header, with its log code, behind which the payload is cut is a truncated payload.
  pub read_records-samsung_file :
      (fixed : Option ℕ) (records : List (SamsungRecord × ℕ)) (finish : Finish) (s : S)
      → All (IsSamsung fixed) records
      → IsFinish fixed finish
      → read_records sink RecordFormat.samsung fixed
          (record { bytes = file_bytes records ++ finish_bytes finish; fault = none })
          s
        ≡ sink_all sink (map vendor_record records) (finish_error finish) s
  unfolding read_records
  read_records-samsung_file fixed records finish s hr hf =
      rw (sym (bytes_of-samsung_item records), sym (record_of-samsung_item records))
        (record_loop-items sink 16 _ (samsung_header fixed) (map samsung_item records)
          (finish_bytes finish) (finish_error finish) s (omega arith) (omega arith)
          (samsung_items-IsItem fixed records hr)
          (λ more t. record_loop-finish fixed finish more t hf))
