-- ===== src/Tests/Hdlc.antt =====
-- The HDLC codec at concrete inputs; the checksum here is the sum of the bytes.
use grok.Base.{
  ℕ, ◌+◌, ◌%◌, ◌^◌, ◌≡◌, ◌≢◌, ◌↔◌, refl, true, [], ◌∷◌, ◌++◌, All, Bytes, IsU16, to_le_u16, ok,
  arith,
}
use grok.Qualcomm.Hdlc.{
  Crc, HdlcDecoder, default, validate_diag_frame, end_frame, collect, feed, encode_hdlc, push,
}
use grok.Qualcomm.Hdlc.Encoding.{encode_all, feed-flag-encode_all}
use grok.Qualcomm.Hdlc.Validity.{validate_diag_frame-eq-ok, encode_hdlc-one_flag}

abbrev pub sum : Bytes → ℕ
sum [] = 0
sum (b ∷ bs) = b + sum bs

pub sum_crc-IsU16 : (bytes : Bytes) → IsU16 (sum bytes % 2 ^ 16)
sum_crc-IsU16 bytes = omega arith

abbrev pub sum_crc : Crc
sum_crc = record { checksum = λ bytes. sum bytes % 2 ^ 16; checksum-IsU16 = sum_crc-IsU16 }

-- The packet of the source's own test.
abbrev escaped_packet : Bytes
escaped_packet = 0x73 ∷ 0x7d ∷ 0x7e ∷ 0x00 ∷ 0x55 ∷ []

abbrev pending : HdlcDecoder
pending = record { frame = 1 ∷ []; escaped = true }

encode_hdlc_escapes :
    encode_hdlc sum_crc escaped_packet
    ≡ 0x73 ∷ 0x7d ∷ 0x5d ∷ 0x7d ∷ 0x5e ∷ 0x00 ∷ 0x55 ∷ 0xc3 ∷ 0x01 ∷ 0x7e ∷ []
unfolding encode_hdlc
encode_hdlc_escapes = refl

feed_example :
    feed sum_crc default (encode_hdlc sum_crc escaped_packet) ≡ (default, ok escaped_packet ∷ [])
unfolding feed push encode_hdlc validate_diag_frame
feed_example = refl

feed-flag-encode_all_example :
    feed sum_crc pending (0x7e ∷ encode_all sum_crc (escaped_packet ∷ (0x10 ∷ []) ∷ []))
    ≡ (default, collect (end_frame sum_crc (1 ∷ [])) (ok escaped_packet ∷ ok (0x10 ∷ []) ∷ []))
feed-flag-encode_all_example =
    feed-flag-encode_all sum_crc pending (escaped_packet ∷ (0x10 ∷ []) ∷ [])
      (λ e. cc, (λ e. cc, tt))

validate_diag_frame-eq-ok_example :
    (validate_diag_frame sum_crc (0x10 ∷ 0x10 ∷ 0 ∷ []) ≡ ok (0x10 ∷ [])) ↔ (
      ◌≢◌ {A = Bytes} (0x10 ∷ []) []
      × ◌≡◌ {A = Bytes} (0x10 ∷ 0x10 ∷ 0 ∷ []) ((0x10 ∷ []) ++ to_le_u16 0x10))
validate_diag_frame-eq-ok_example =
    validate_diag_frame-eq-ok sum_crc (0x10 ∷ 0x10 ∷ 0 ∷ []) (0x10 ∷ []) (omega arith)

encode_hdlc-one_flag_example :
    (body : Bytes) × (encode_hdlc sum_crc escaped_packet ≡ body ++ (0x7e ∷ []))
    × All (λ b. b ≢ 0x7e) body
encode_hdlc-one_flag_example = encode_hdlc-one_flag sum_crc escaped_packet
