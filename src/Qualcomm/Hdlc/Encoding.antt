-- ===== src/Qualcomm/Hdlc/Encoding.antt =====
-- The decoder on what `encode_hdlc` writes.
use grok.Base.{
  ℕ, ◌+◌, ◌-◌, ◌≡◌, ◌≢◌, refl, ◌∙◌, false, Option, none, some, List, [], ◌∷◌, ◌++◌, ltb, ◌==◌,
  if◌then◌else◌, length, All, map, length-append, take-append_at, get_or, get_or-append_at, Bytes,
  to_le_u16, from_le_u16, ok, err, arith, append_assoc, append-nil,
}
use grok.Qualcomm.Hdlc.{
  Crc, HdlcDecoder, default, Frame, too_short, bad_crc, validate_diag_frame, push, end_frame, feed,
  collect, escape_byte, escape, encode_hdlc,
}

get_or-append_two :
    (p : Bytes) (a b i d : ℕ) → i ≡ length p + 1 → get_or (p ++ (a ∷ b ∷ [])) i d ≡ b
get_or-append_two p a b i d h =
    rw (← append_assoc p (a ∷ []) (b ∷ []))
      (get_or-append_at (p ++ (a ∷ [])) [] b i d (omega (arith, length-append p (a ∷ []))))

collect-append :
    (step : HdlcDecoder × Option Frame) (xs ys : List Frame)
    → collect step (xs ++ ys) ≡ collect step xs ++ ys
unfolding collect
collect-append (d, none) xs ys = refl
collect-append (d, some r) xs ys = refl

-- The stream of encoded packets.
abbrev pub encode_all : Crc → List Bytes → Bytes
encode_all crc [] = []
encode_all crc (p ∷ ps) = encode_hdlc crc p ++ encode_all crc ps

module _ (crc : Crc) where
  -- One byte, escaped or not, adds itself to the frame.
  feed-escape_byte :
      (f : Bytes) (b : ℕ) (rest : Bytes)
      → feed crc (record { frame = f; escaped = false }) (escape_byte b ++ rest)
        ≡ feed crc (record { frame = f ++ (b ∷ []); escaped = false }) rest
  unfolding feed push
  feed-escape_byte f b rest = ground arith

  feed-escape :
      (bytes f rest : Bytes)
      → feed crc (record { frame = f; escaped = false }) (escape bytes ++ rest)
        ≡ feed crc (record { frame = f ++ bytes; escaped = false }) rest
  unfolding escape
  feed-escape [] f rest = rw append-nil
  feed-escape (b ∷ bs) f rest = rw append_assoc (
      feed-escape_byte f b (escape bs ++ rest)
      ∙ feed-escape bs (f ++ (b ∷ [])) rest
      ∙ rw append_assoc)

  -- `validate_diag_frame` by the parts of its input.
  pub validate-append :
      (p : Bytes) (a b : ℕ)
      → validate_diag_frame crc (p ++ (a ∷ b ∷ [])) ≡ (
          if ltb (length p) 1
          then err too_short
          else if from_le_u16 a b == crc.checksum p
          then ok p
          else err (bad_crc (from_le_u16 a b) (crc.checksum p)))
  unfolding validate_diag_frame
  validate-append p a b = ground (
    arith,
    length-append p (a ∷ b ∷ []),
    get_or-append_at p (b ∷ []) a (length (p ++ (a ∷ b ∷ [])) - 2) 0,
    get_or-append_two p a b (length (p ++ (a ∷ b ∷ [])) - 2 + 1) 0,
    take-append_at p (a ∷ b ∷ []) (length (p ++ (a ∷ b ∷ [])) - 2),
  )

  -- A packet followed by its checksum is valid.
  pub validate-checksum :
      (packet : Bytes)
      → packet ≢ []
      → validate_diag_frame crc (packet ++ to_le_u16 (crc.checksum packet)) ≡ ok packet
  validate-checksum [] h = absurd (h refl)
  validate-checksum (x ∷ xs) h =
      validate-append (x ∷ xs) _ _ ∙ ground (arith, crc.checksum-IsU16 (x ∷ xs))

  pub feed-append :
      (d : HdlcDecoder) (xs ys : Bytes)
      → feed crc d (xs ++ ys) ≡ (
        (feed crc (feed crc d xs).0 ys).0,
        (feed crc d xs).1 ++ (feed crc (feed crc d xs).0 ys).1,
      )
  unfolding feed
  feed-append d [] ys = refl
  feed-append d (x ∷ xs) ys = rw (feed-append (push crc d x).0 xs ys, collect-append)

  end_frame-fresh : (f : Bytes) → (end_frame crc f).0 ≡ default
  unfolding end_frame
  end_frame-fresh [] = refl
  end_frame-fresh (x ∷ xs) = refl

  -- A flag byte leaves the decoder fresh, whatever its state.
  pub feed-flag :
      (d : HdlcDecoder) (rest : Bytes)
      → feed crc d (0x7e ∷ rest)
        ≡ ((feed crc default rest).0, collect (end_frame crc d.frame) (feed crc default rest).1)
  unfolding feed push
  feed-flag d rest = rw (end_frame-fresh d.frame)

  end_frame-checksum :
      (packet : Bytes)
      → packet ≢ []
      → end_frame crc (packet ++ to_le_u16 (crc.checksum packet)) ≡ (default, some (ok packet))
  unfolding end_frame
  end_frame-checksum [] h = absurd (h refl)
  end_frame-checksum (x ∷ xs) h = rw (validate-checksum (x ∷ xs) h)

  -- A fresh decoder takes one encoded packet off the stream.
  pub feed-encode_hdlc :
      (packet rest : Bytes)
      → packet ≢ []
      → feed crc default (encode_hdlc crc packet ++ rest)
        ≡ ((feed crc default rest).0, ok packet ∷ (feed crc default rest).1)
  unfolding encode_hdlc collect
  feed-encode_hdlc packet rest h =
      let whole : Bytes = packet ++ to_le_u16 (crc.checksum packet) in
      rw append_assoc (
        feed-escape whole [] (0x7e ∷ rest)
        ∙ feed-flag (record { frame = whole; escaped = false }) rest
        ∙ rw (end_frame-checksum packet h))

  pub feed-encode_all :
      (packets : List Bytes)
      → All (λ p. p ≢ []) packets
      → feed crc default (encode_all crc packets) ≡ (default, map ok packets)
  unfolding feed
  feed-encode_all [] h = refl
  feed-encode_all (p ∷ ps) (hp, hps) =
      feed-encode_hdlc p (encode_all crc ps) hp ∙ rw (feed-encode_all ps hps)

  -- From any state of the decoder, one flag byte resynchronises it: what was pending is ended
  -- as a frame of its own, and every nonempty packet encoded behind the flag is decoded, in
  -- order, to itself, and the decoder is then fresh.
  pub feed-flag-encode_all :
      (d : HdlcDecoder) (packets : List Bytes)
      → All (λ p. p ≢ []) packets
      → feed crc d (0x7e ∷ encode_all crc packets)
        ≡ (default, collect (end_frame crc d.frame) (map ok packets))
  feed-flag-encode_all d packets h =
      rw (feed-flag d (encode_all crc packets), feed-encode_all packets h)
