-- ===== src/Core/Wire.antt =====
-- What `decode_wire_frame` accepts.
use Prim.Native.String.{String}
use text.Mathlib.Text.{◌==◌ as str_eq}
use text.Mathlib.TextEquality.{eq_iff}
use grok.Base.{
  ℕ, ◌≡◌, ◌↔◌, refl, sym, ap, ◌∙◌, Bool-cases, inl, inr, Option, none, some, Bytes, Result, ok, err,
  map_err, Result-cases, arith,
}
use grok.Core.{
  Vendor, qualcomm, mediatek, samsung, parser_id, from_parser_id, CaptureFrame, Message, FrameTuple,
  MessagePack, WireError, message_of, vendor_frame, check_kind, encode_wire_frame,
  decode_wire_frame,
}

map_err-eq-ok :
    {bytes : Bytes} (r : Result String Bytes) → map_err WireError.encode r ≡ ok bytes → r ≡ ok bytes
map_err-eq-ok (ok x) h = cc
map_err-eq-ok (err x) h = cc

from_parser_id-parser_id : (v : Vendor) → from_parser_id (parser_id v) ≡ some v
unfolding parser_id from_parser_id
from_parser_id-parser_id qualcomm = refl
from_parser_id-parser_id mediatek = refl
from_parser_id-parser_id samsung = refl

from_parser_id-eq_some : (id : ℕ) (v : Vendor) → from_parser_id id ≡ some v → id ≡ parser_id v
unfolding parser_id from_parser_id
from_parser_id-eq_some id qualcomm h = ground arith
from_parser_id-eq_some id mediatek h = ground arith
from_parser_id-eq_some id samsung h = ground arith

vendor_frame-eq-ok :
    (o : Option Vendor) (t : FrameTuple) (f : CaptureFrame)
    → o ≡ from_parser_id t.5
    → vendor_frame o t ≡ ok f
    → ◌≡◌ {A = Message} ("Frame", t) (message_of f)
unfolding vendor_frame
vendor_frame-eq-ok none t f e h = cc
vendor_frame-eq-ok (some v) t f e h = ground (arith, from_parser_id-eq_some t.5 v (sym e))

vendor_frame-message_of :
    (f : CaptureFrame) → vendor_frame (from_parser_id (parser_id f.vendor)) (message_of f).1 ≡ ok f
unfolding vendor_frame
vendor_frame-message_of f = rw (from_parser_id-parser_id f.vendor)

check_kind-eq-ok : (m : Message) (f : CaptureFrame) → check_kind m.0 m.1 ≡ ok f → m ≡ message_of f
unfolding check_kind
check_kind-eq-ok m f h = elim (Bool-cases (str_eq m.0 "Frame")) [
  | inl same ↦
      let kind : m.0 ≡ "Frame" = (eq_iff m.0 "Frame").0 same in
      rw kind (vendor_frame-eq-ok (from_parser_id m.1.5) m.1 f refl (rw same at h))
  | inr other ↦ ground arith
]

check_kind-message_of : (f : CaptureFrame) → check_kind "Frame" (message_of f).1 ≡ ok f
unfolding check_kind
check_kind-message_of f = vendor_frame-message_of f

module _ (codec : MessagePack) where
  decoded :
      (bytes : Bytes) (f : CaptureFrame)
      → decode_wire_frame codec bytes ≡ ok f
      → codec.from_slice bytes ≡ ok (message_of f)
  unfolding decode_wire_frame
  decoded bytes f h = elim (Result-cases (codec.from_slice bytes)) [
    | inl (m, e) ↦ e ∙ ap ok (check_kind-eq-ok m f (rw e at h))
    | inr (x, e) ↦ cc (e, h)
  ]

  -- The bytes decode to a frame exactly when the codec reads them as the message that is made of
  -- that frame: kind "Frame", the frame's fields in their order, and the vendor's parser ID.
  pub decode_wire_frame-eq-ok :
      (bytes : Bytes) (f : CaptureFrame)
      → (decode_wire_frame codec bytes ≡ ok f) ↔ (codec.from_slice bytes ≡ ok (message_of f))
  unfolding decode_wire_frame
  decode_wire_frame-eq-ok bytes f = (decoded bytes f, λ e. rw e (check_kind-message_of f))

  -- What `encode_wire_frame` writes for a frame, `decode_wire_frame` reads back as that frame.
  pub decode_wire_frame-encode_wire_frame :
      (f : CaptureFrame) (bytes : Bytes)
      → encode_wire_frame codec f ≡ ok bytes
      → decode_wire_frame codec bytes ≡ ok f
  unfolding encode_wire_frame
  decode_wire_frame-encode_wire_frame f bytes h =
      (decode_wire_frame-eq-ok bytes f).1 (
        codec.from_slice-to_vec (message_of f) bytes
          (map_err-eq-ok (codec.to_vec (message_of f)) h))
