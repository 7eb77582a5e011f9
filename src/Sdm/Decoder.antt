-- ===== src/Sdm/Decoder.antt =====
-- crates/6grok-samsung-sdm/src/sdm.rs: `SdmDecoder`.
pub mod Rounds
pub mod Chunks
pub mod RoundTrip
pub mod Frames
use mathlib.Core.Option
use grok.Base.{
  ℕ, zero, suc, ◌+◌, ◌-◌, Option, none, some, List, [], ◌∷◌, ◌++◌, ltb, ◌==◌, not, ◌||◌,
  if◌then◌else◌, length, get_or, take, drop, min, position, Bytes, Result, ok, err,
}
use grok.Sdm.{
  sdm_start, sdm_end, sdm_header_len, max_sdm_packet, SdmHeader, SdmFrame, SdmError,
  invalid_length_relation, packet_too_large, bad_terminator, parse_header,
}

pub record SdmDecoder : Type 0 where
  pub buffer : Bytes

-- `SdmDecoder::default()`
abbrev pub default : SdmDecoder
default = record { buffer = [] }

abbrev pub SdmResult : Type 0
SdmResult = Result SdmError SdmFrame

-- What one round of the loop does: `break`, or push a result and go on; each with the buffer that
-- it leaves.
pub data Round : Type 0 where
  stop : Bytes → Round
  emit : SdmResult → Bytes → Round

-- The terminator test. The buffer holds `total` bytes at least, so the index is in range.
unfoldable pub end_frame : SdmHeader → ℕ → Bytes → Round
end_frame header total buffer =
    let terminator = get_or buffer (total - 1) 0 in
    if not (terminator == sdm_end)
    then emit (err (bad_terminator terminator)) (drop 1 buffer)
    else emit (ok (record { header = header; packet = take total buffer })) (drop total buffer)

unfoldable pub sized_frame : SdmHeader → ℕ → Bytes → Round
sized_frame header total buffer =
    if ltb total (1 + sdm_header_len + 1) || ltb max_sdm_packet total
    then emit (err (packet_too_large total)) (drop 1 buffer)
    else if ltb (length buffer) total
    then stop buffer
    else end_frame header total buffer

unfoldable pub headed_frame : Result SdmError SdmHeader → Bytes → Round
headed_frame (err e) buffer = emit (err e) (drop 1 buffer)
headed_frame (ok header) buffer =
    if not (header.length1 == min (header.length2 + 3) 65535)
    then emit (err (invalid_length_relation header.length1 header.length2)) (drop 1 buffer)
    else sized_frame header (header.length1 + 2) buffer

-- The round behind the resynchronisation: the buffer begins with the start byte.
unfoldable pub frame_round : Bytes → Round
frame_round buffer =
    if ltb (length buffer) (1 + sdm_header_len)
    then stop buffer
    else headed_frame (parse_header (take sdm_header_len (drop 1 buffer))) buffer

unfoldable pub round : Bytes → Round
round buffer = elim (position (λ b. b == sdm_start) buffer) [
  | none ↦ stop []
  | some start ↦ frame_round (drop start buffer)
]

-- The loop on fuel: `none` means that the fuel ran out.
unfoldable pub scan : ℕ → Bytes → Option (List SdmResult × Bytes)
scan zero buffer = none
scan (suc fuel) buffer = elim (round buffer) [
  | stop rest ↦ some ([], rest)
  | emit result rest ↦ Option.map (λ found. (result ∷ found.0, found.1)) (scan fuel rest)
]

-- Each round that goes on takes a byte at least off the buffer.
unfoldable pub push : SdmDecoder → Bytes → Option (List SdmResult × SdmDecoder)
unfolding scan
push d bytes =
    let buffer = d.buffer ++ bytes in
    Option.map (λ found. (found.0, record { buffer = found.1 })) (scan (length buffer + 1) buffer)
