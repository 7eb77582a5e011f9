-- ===== src/Agent/Records/Streams.antt =====
-- The record loop on a file of whole records: each reaches the sink once, in order, and what is cut
-- off behind them is an error. The fuel is enough.
use Prim.Native.String.{String}
use grok.Base.{
  ℕ, zero, suc, ◌<◌, ◌≡◌, refl, sym, Option, none, some, List, [], ◌∷◌, ◌++◌, append_assoc, leb,
  le→leb, true, false, length, length-append, take-append_at, drop-append_at, All, Bytes, Result,
  ok, err, arith, map,
}
use grok.Agent.Records.{
  RecordFormat, RecordError, truncated_header, VendorRecord, Meaning, read_exact_or_eof, read_exact,
  record_loop, and_sink, read_records, mtk_header_len, mediatek_header,
}

-- A record of a file: header, payload, and what the header says.
abbrev pub Item : Type 0
Item = Bytes × Bytes × Meaning

-- The header has its length, and gives the meaning and the length of the payload.
abbrev pub IsItem : ℕ → (Bytes → Result RecordError Meaning) → Item → Type 0
IsItem n meaning (header, payload, (vendor, code, size)) =
    (length header ≡ n) × (length payload ≡ size) × (meaning header ≡ ok (vendor, code, size))

abbrev pub bytes_of : List Item → Bytes
bytes_of [] = []
bytes_of ((header, payload, said) ∷ items) = header ++ (payload ++ bytes_of items)

abbrev pub record_of : Item → VendorRecord
record_of (header, payload, (vendor, code, size)) = record {
  vendor = vendor;
  log_code = code;
  packet = header ++ payload;
}

-- What the end of the file comes to, for the bytes that no record takes.
abbrev pub ending : ℕ → Bytes → Option RecordError
ending n [] = none
ending n (b ∷ bs) = some (truncated_header (length (b ∷ bs)) n)

few_bytes : (n k : ℕ) → k < n → leb n k ≡ false
few_bytes n k h = ground arith

enough_bytes : (n : ℕ) (xs ys : Bytes) → length xs ≡ n → leb n (length (xs ++ ys)) ≡ true
enough_bytes n xs ys h = le→leb n (length (xs ++ ys)) (omega (arith, length-append xs ys))

pub read_header-append :
    (n : ℕ) (xs ys : Bytes) (fault : Option String)
    → length xs ≡ n
    → read_exact_or_eof n (record { bytes = xs ++ ys; fault = fault })
      ≡ ok (some (xs, record { bytes = ys; fault = fault }))
unfolding read_exact_or_eof
read_header-append n xs ys fault h =
    rw (enough_bytes n xs ys h, take-append_at xs ys n (sym h), drop-append_at xs ys n (sym h))

read_header-empty :
    (n : ℕ) → 0 < n → read_exact_or_eof n (record { bytes = []; fault = none }) ≡ ok none
unfolding read_exact_or_eof
read_header-empty n h = rw (few_bytes n 0 h)

read_header-tail :
    (n t : ℕ) (ts : Bytes)
    → length (t ∷ ts) < n
    → read_exact_or_eof n (record { bytes = t ∷ ts; fault = none })
      ≡ err (truncated_header (length (t ∷ ts)) n)
unfolding read_exact_or_eof
read_header-tail n t ts h = rw (few_bytes n (suc (length ts)) h)

read_exact-append :
    (n : ℕ) (xs ys : Bytes) (fault : Option String)
    → length xs ≡ n
    → read_exact n (record { bytes = xs ++ ys; fault = fault })
      ≡ ok (xs, record { bytes = ys; fault = fault })
unfolding read_exact
read_exact-append n xs ys fault h =
    rw (enough_bytes n xs ys h, take-append_at xs ys n (sym h), drop-append_at xs ys n (sym h))

less_fuel :
    (header payload rest tail : Bytes) (fuel n : ℕ)
    → length header ≡ n
    → 0 < n
    → length ((header ++ (payload ++ rest)) ++ tail) < suc fuel
    → length (rest ++ tail) < fuel
less_fuel header payload rest tail fuel n hh hn hf = omega (
  arith,
  length-append (header ++ (payload ++ rest)) tail,
  length-append header (payload ++ rest),
  length-append payload rest,
  length-append rest tail,
)

module _ {S : Type 0} (sink : VendorRecord → S → Option RecordError × S) where
  -- The records given to the sink, up to the first that it refuses.
  abbrev pub sink_all : List VendorRecord → Option RecordError → S → Option RecordError × S
  sink_all [] last s = (last, s)
  sink_all (r ∷ rs) last s = and_sink sink (sink r s) (λ t. sink_all rs last t)

  and_sink-cong :
      (r : Option RecordError × S) (k l : S → Option RecordError × S)
      → ((t : S) → k t ≡ l t)
      → and_sink sink r k ≡ and_sink sink r l
  unfolding and_sink
  and_sink-cong (some e, t) k l h = refl
  and_sink-cong (none, t) k l h = h t

  -- Whole records, and behind them what the loop makes of the tail wherever it is.
  pub record_loop-items :
      (n fuel : ℕ) (meaning : Bytes → Result RecordError Meaning) (items : List Item) (tail : Bytes)
      (last : Option RecordError) (s : S)
      → 0 < n
      → length (bytes_of items ++ tail) < fuel
      → All (IsItem n meaning) items
      → ((more : ℕ) (t : S)
          → record_loop sink n meaning (suc more) (record { bytes = tail; fault = none }) t
            ≡ (last, t))
      → record_loop sink n meaning fuel (record { bytes = bytes_of items ++ tail; fault = none }) s
        ≡ sink_all (map record_of items) last s
  unfolding record_loop
  record_loop-items n zero meaning items tail last s hn hf hi ht = absurd (omega arith)
  record_loop-items n (suc fuel) meaning [] tail last s hn hf hi ht = ht fuel s
  record_loop-items n (suc fuel) meaning ((header, payload, (vendor, code, size)) ∷ items) tail last
        s hn hf ((hh, hp, hm), hi) ht =
      rw
        (
          append_assoc header (payload ++ bytes_of items) tail,
          append_assoc payload (bytes_of items) tail,
          read_header-append n header (payload ++ (bytes_of items ++ tail)) none hh,
          record_loop,
          hm,
          read_exact-append size payload (bytes_of items ++ tail) none hp,
        )
        (and_sink-cong (sink (record_of (header, payload, (vendor, code, size))) s)
          (λ t.
            record_loop sink n meaning fuel
              (record { bytes = bytes_of items ++ tail; fault = none }) t)
          (λ t. sink_all (map record_of items) last t)
          (λ t.
            record_loop-items n fuel meaning items tail last t hn
              (less_fuel header payload (bytes_of items) tail fuel n hh hn hf) hi ht))

  -- Less than a header of bytes.
  pub record_loop-ending :
      (n more : ℕ) (meaning : Bytes → Result RecordError Meaning) (tail : Bytes) (s : S)
      → 0 < n
      → length tail < n
      → record_loop sink n meaning (suc more) (record { bytes = tail; fault = none }) s
        ≡ (ending n tail, s)
  unfolding record_loop
  record_loop-ending n more meaning [] s hn ht = rw (read_header-empty n hn, record_loop)
  record_loop-ending n more meaning (t ∷ ts) s hn ht = rw (read_header-tail n t ts ht, record_loop)

  -- A MediaTek file of whole records, and less than a header of bytes behind them: the sink gets each
  -- record, header and payload, with the log code of its header, in order and up to the first that it
  -- refuses; if it refuses none, the bytes behind are a truncated header, or the end if there are none.
  pub read_records-mediatek :
      (fixed : Option ℕ) (items : List Item) (tail : Bytes) (s : S)
      → All (IsItem mtk_header_len mediatek_header) items
      → length tail < mtk_header_len
      → read_records sink RecordFormat.mediatek fixed
          (record { bytes = bytes_of items ++ tail; fault = none })
          s
        ≡ sink_all (map record_of items) (ending mtk_header_len tail) s
  unfolding read_records
  read_records-mediatek fixed items tail s hi ht =
      record_loop-items mtk_header_len _ mediatek_header items tail (ending mtk_header_len tail) s
        (omega arith) (omega arith) hi
        (λ more t. record_loop-ending mtk_header_len more mediatek_header tail t (omega arith) ht)
