-- ===== src/Core.antt =====
-- crates/6grok-core/src/lib.rs: vendors, frames and the agent's wire format.
pub mod Wire
use Prim.Native.String.{String}
use text.Mathlib.Text.{◌==◌ as str_eq}
use grok.Base.{
  ◌≡◌, ℕ, suc, ◌+◌, Option, none, some, List, [], ◌∷◌, ◌++◌, ltb, ◌==◌, not, ◌||◌, if◌then◌else◌,
  length, get_or, Bytes, ℤ, to_le_u16, from_le_u16, Result, ok, err, ◌>>=◌, map_err,
}

pub data Vendor : Type 0 where
  qualcomm mediatek samsung : Vendor

unfoldable pub parser_id : Vendor → ℕ
parser_id qualcomm = 0
parser_id mediatek = 1
parser_id samsung = 2

unfoldable pub from_parser_id : ℕ → Option Vendor
from_parser_id id =
    if id == 0
    then some qualcomm
    else if id == 1
    then some mediatek
    else if id == 2
    then some samsung
    else none

pub record CaptureFrame : Type 0 where
  pub sequence : ℕ
  pub timestamp_wall : ℤ
  pub timestamp_mono : ℕ
  pub vendor : Vendor
  pub log_code : ℕ
  pub payload : Bytes

-- The tuple that goes over the wire: `(kind, (sequence, wall, mono, log_code, payload, vendor))`.
abbrev pub FrameTuple : Type 0
FrameTuple = ℕ × ℤ × ℕ × ℕ × Bytes × ℕ

abbrev pub Message : Type 0
Message = String × FrameTuple

-- The `rmp_serde` crate: what it writes for a message it reads back as that message. Its errors
-- are known by their text alone.
pub record MessagePack : Type 0 where
  pub to_vec : Message → Result String Bytes
  pub from_slice : Bytes → Result String Message
  pub from_slice-to_vec :
      (m : Message) (bytes : Bytes) → to_vec m ≡ ok bytes → from_slice bytes ≡ ok m

pub data WireError : Type 0 where
  encode : String → WireError
  decode : String → WireError
  unknown_message : String → WireError
  unknown_vendor : ℕ → WireError

abbrev pub message_of : CaptureFrame → Message
message_of f = (
  "Frame",
  (f.sequence, f.timestamp_wall, f.timestamp_mono, f.log_code, f.payload, parser_id f.vendor),
)

-- `ok_or(WireError::UnknownVendor(frame.5))`, and the frame.
unfoldable pub vendor_frame : Option Vendor → FrameTuple → Result WireError CaptureFrame
vendor_frame none t = err (unknown_vendor t.5)
vendor_frame (some vendor) t = ok (record {
  sequence = t.0;
  timestamp_wall = t.1;
  timestamp_mono = t.2;
  vendor = vendor;
  log_code = t.3;
  payload = t.4;
})

-- `if kind != "Frame"`, and what follows it.
unfoldable pub check_kind : String → FrameTuple → Result WireError CaptureFrame
unfolding vendor_frame
check_kind kind frame =
    if not (str_eq kind "Frame")
    then err (unknown_message kind)
    else vendor_frame (from_parser_id frame.5) frame

module _ (codec : MessagePack) where
  unfoldable pub encode_wire_frame : CaptureFrame → Result WireError Bytes
  encode_wire_frame f = map_err encode (codec.to_vec (message_of f))

  unfoldable pub decode_wire_frame : Bytes → Result WireError CaptureFrame
  unfolding check_kind
  decode_wire_frame bytes = do
    (kind, frame) ← map_err decode (codec.from_slice bytes)
    check_kind kind frame

-- `log_code_le || raw_packet`
unfoldable pub parser_payload : ℕ → Bytes → Bytes
parser_payload log_code raw_packet = to_le_u16 log_code ++ raw_packet

unfoldable pub qualcomm_log_code : Bytes → Option ℕ
qualcomm_log_code packet =
    if ltb (length packet) 8 || not (get_or packet 0 0 == 0x10)
    then none
    else some (from_le_u16 (get_or packet 6 0) (get_or packet 7 0))
