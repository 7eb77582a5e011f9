-- ===== src/Tests/Core.antt =====
-- The wire format with a codec that only knows frames.
use Prim.Native.String.{String}
use text.Mathlib.Text.{◌==◌ as str_eq}
use text.Mathlib.TextEquality.{eq_iff}
use grok.Base.{
  ℕ, ◌≡◌, refl, sym, ap, ◌∙◌, ◌↔◌, Bool-cases, inl, inr, [], ◌∷◌, Bytes, ℤ, pos, negsuc, Result, ok,
  err, ◌==◌, if◌then◌else◌,
}
use grok.Core.{
  Vendor, parser_id, CaptureFrame, FrameTuple, Message, MessagePack, message_of, encode_wire_frame,
  decode_wire_frame,
}
use grok.Core.Wire.{decode_wire_frame-eq-ok, decode_wire_frame-encode_wire_frame}

tuple_bytes : FrameTuple → Bytes
tuple_bytes (sequence, pos wall, mono, code, payload, vendor) =
    sequence ∷ 0 ∷ wall ∷ mono ∷ code ∷ vendor ∷ payload
tuple_bytes (sequence, negsuc wall, mono, code, payload, vendor) =
    sequence ∷ 1 ∷ wall ∷ mono ∷ code ∷ vendor ∷ payload

abbrev wall_of : ℕ → ℕ → ℤ
wall_of sign wall = if sign == 0 then pos wall else negsuc wall

pub read_tuple : Bytes → Result String Message
read_tuple (sequence ∷ sign ∷ wall ∷ mono ∷ code ∷ vendor ∷ payload) =
    ok ("Frame", (sequence, wall_of sign wall, mono, code, payload, vendor))
read_tuple bytes = err "short"

unfoldable pub write_message : Message → Result String Bytes
unfolding tuple_bytes
write_message (kind, t) = if str_eq kind "Frame" then ok (tuple_bytes t) else err "kind"

read_tuple-tuple_bytes : (t : FrameTuple) → read_tuple (tuple_bytes t) ≡ ok ("Frame", t)
unfolding read_tuple tuple_bytes
read_tuple-tuple_bytes (sequence, pos wall, mono, code, payload, vendor) = refl
read_tuple-tuple_bytes (sequence, negsuc wall, mono, code, payload, vendor) = refl

framed :
    (kind : String) (t : FrameTuple) (bytes : Bytes)
    → kind ≡ "Frame"
    → ◌≡◌ {A = Result String Bytes} (ok (tuple_bytes t)) (ok bytes)
    → read_tuple bytes ≡ ok (kind, t)
framed kind t bytes k h =
    let e : tuple_bytes t ≡ bytes = cc in
    sym (ap read_tuple e) ∙ read_tuple-tuple_bytes t ∙ ap (λ x. ok (x, t)) (sym k)

pub read_tuple-write_message :
    (m : Message) (bytes : Bytes) → write_message m ≡ ok bytes → read_tuple bytes ≡ ok m
unfolding write_message
read_tuple-write_message m bytes h = elim (Bool-cases (str_eq m.0 "Frame")) [
  | inl same ↦ framed m.0 m.1 bytes ((eq_iff m.0 "Frame").0 same) (rw same at h)
  | inr other ↦ cc (rw other at h)
]

abbrev pub codec : MessagePack
codec = record {
  to_vec = write_message;
  from_slice = read_tuple;
  from_slice-to_vec = read_tuple-write_message;
}

abbrev pub log_frame : CaptureFrame
log_frame = record {
  sequence = 1;
  timestamp_wall = pos 7;
  timestamp_mono = 2;
  vendor = Vendor.qualcomm;
  log_code = 0x1234;
  payload = 0x34 ∷ 0x12 ∷ 0x10 ∷ [];
}

abbrev pub log_bytes : Bytes
log_bytes = 1 ∷ 0 ∷ 7 ∷ 2 ∷ 0x1234 ∷ 0 ∷ 0x34 ∷ 0x12 ∷ 0x10 ∷ []

pub encode_wire_frame_log : encode_wire_frame codec log_frame ≡ ok log_bytes
unfolding encode_wire_frame write_message parser_id
encode_wire_frame_log = refl

decode_wire_frame-encode_wire_frame_example : decode_wire_frame codec log_bytes ≡ ok log_frame
decode_wire_frame-encode_wire_frame_example =
    decode_wire_frame-encode_wire_frame codec log_frame log_bytes encode_wire_frame_log

decode_wire_frame-eq-ok_example :
    (decode_wire_frame codec log_bytes ≡ ok log_frame)
    ↔ (read_tuple log_bytes ≡ ok (message_of log_frame))
decode_wire_frame-eq-ok_example = decode_wire_frame-eq-ok codec log_bytes log_frame
