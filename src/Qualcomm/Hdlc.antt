-- ===== src/Qualcomm/Hdlc.antt =====
-- crates/6grok-agent/src/qualcomm.rs: the HDLC framing of DIAG packets (the same text stands in
-- crates/6grok-qcsuper/src/protocol.rs). The CRC is the `crc` crate's CRC_16_IBM_SDLC.
pub mod Encoding
pub mod Validity
use grok.Base.{
  ℕ, ◌+◌, ◌-◌, ◌<◌, Bool, true, false, Option, none, some, List, [], ◌∷◌, ◌++◌, ltb, ◌==◌,
  if◌then◌else◌, length, take, get_or, bit_xor, Bytes, IsU16, to_le_u16, from_le_u16, Result, ok,
  err,
}

-- `DIAG_CRC` of the `crc` crate: a checksum of 16 bits.
pub record Crc : Type 0 where
  pub checksum : Bytes → ℕ
  pub checksum-IsU16 : (bytes : Bytes) → IsU16 (checksum bytes)

pub record HdlcDecoder : Type 0 where
  pub frame : Bytes
  pub escaped : Bool

-- `HdlcDecoder::default()`
abbrev pub default : HdlcDecoder
default = record { frame = []; escaped = false }

pub data FrameError : Type 0 where
  too_short : FrameError
  bad_crc : ℕ → ℕ → FrameError

abbrev pub Frame : Type 0
Frame = Result FrameError Bytes

-- What the callers collect from `for &byte in bytes { hdlc.push(byte) … }`.
unfoldable pub collect : HdlcDecoder × Option Frame → List Frame → List Frame
collect (d, none) rest = rest
collect (d, some r) rest = r ∷ rest

-- The loop of `encode_hdlc` over `packet.iter().copied().chain(crc)`.
abbrev pub escape_byte : ℕ → Bytes
escape_byte byte =
    if byte == 0x7d
    then 0x7d ∷ bit_xor byte 0x20 ∷ []
    else if byte == 0x7e
    then 0x7d ∷ bit_xor byte 0x20 ∷ []
    else byte ∷ []

pub escape : Bytes → Bytes
escape [] = []
escape (b ∷ bs) = escape_byte b ++ escape bs

module _ (crc : Crc) where
  unfoldable pub validate_diag_frame : Bytes → Frame
  validate_diag_frame raw =
      if ltb (length raw) 3
      then err too_short
      else let crc_pos = length raw - 2 in
        let expected = from_le_u16 (get_or raw crc_pos 0) (get_or raw (crc_pos + 1) 0) in
        let actual = crc.checksum (take crc_pos raw) in
        if expected == actual then ok (take crc_pos raw) else err (bad_crc expected actual)

  -- `self.frame.is_empty()` at a flag byte.
  pub end_frame : Bytes → HdlcDecoder × Option Frame
  end_frame [] = (default, none)
  end_frame (b ∷ bs) = (default, some (validate_diag_frame (b ∷ bs)))

  unfoldable pub push : HdlcDecoder → ℕ → HdlcDecoder × Option Frame
  unfolding end_frame
  push d byte =
      if byte == 0x7e
      then end_frame d.frame
      else if byte == 0x7d
      then (record d { escaped = true }, none)
      else (
        record {
          frame = d.frame ++ ((if d.escaped then bit_xor byte 0x20 else byte) ∷ []);
          escaped = false;
        },
        none,
      )

  unfoldable pub feed : HdlcDecoder → Bytes → HdlcDecoder × List Frame
  unfolding collect
  feed d [] = (d, [])
  feed d (b ∷ bs) =
      let step = push d b in let rest = feed step.0 bs in (rest.0, collect step rest.1)

  unfoldable pub encode_hdlc : Bytes → Bytes
  unfolding escape
  encode_hdlc packet = escape (packet ++ to_le_u16 (crc.checksum packet)) ++ (0x7e ∷ [])
