-- ===== src/Qualcomm/Hdlc/Validity.antt =====
-- What `validate_diag_frame` accepts, and where the flag byte occurs.
use grok.Base.{
  ℕ, ◌/◌, ◌%◌, ◌≤◌, ◌<◌, ◌≡◌, ◌≢◌, ◌↔◌, refl, sym, subst, ap, ◌∙◌, inl, inr, Bool-cases, ltb, [],
  ◌∷◌, ◌++◌, length, All, Bytes, IsByte, to_le_u16, from_le_u16, ok, arith, All-append,
  All-append_right,
}
use grok.Qualcomm.Hdlc.{Crc, validate_diag_frame, escape_byte, escape, encode_hdlc}
use grok.Qualcomm.Hdlc.Encoding.{validate-append, validate-checksum}

-- A list of two bytes at least is split before its last two.
record LastTwo (raw : Bytes) : Type 0 where
  front : Bytes
  low : ℕ
  high : ℕ
  splits : raw ≡ front ++ (low ∷ high ∷ [])

last_two : (raw : Bytes) → 2 ≤ length raw → LastTwo raw
last_two [] h = absurd (omega arith)
last_two (a ∷ []) h = absurd (omega arith)
last_two (a ∷ b ∷ []) h = record { front = []; low = a; high = b; splits = refl }
last_two (a ∷ b ∷ c ∷ rest) h =
    let inner = last_two (b ∷ c ∷ rest) (omega arith) in
    record {
      front = a ∷ inner.front;
      low = inner.low;
      high = inner.high;
      splits = ap (◌∷◌ a) inner.splits;
    }

low_byte : (low high : ℕ) → IsByte low → from_le_u16 low high % 256 ≡ low
low_byte low high hl = omega arith

high_byte : (low high : ℕ) → IsByte low → IsByte high → from_le_u16 low high / 256 % 256 ≡ high
high_byte low high hl hh = omega arith

escape_byte-no_flag : (b : ℕ) → All (λ c. c ≢ 0x7e) (escape_byte b)
escape_byte-no_flag b = ground arith

escape-no_flag : (bytes : Bytes) → All (λ c. c ≢ 0x7e) (escape bytes)
unfolding escape
escape-no_flag [] = tt
escape-no_flag (b ∷ bs) =
    All-append (λ c. c ≢ 0x7e) (escape_byte b) (escape bs) (escape_byte-no_flag b)
      (escape-no_flag bs)

module _ (crc : Crc) where
  short_refused : (raw p : Bytes) → length raw < 3 → validate_diag_frame crc raw ≢ ok p
  unfolding validate_diag_frame
  short_refused raw p h e = ground arith

  accepted_parts :
      (front p : Bytes) (low high : ℕ)
      → validate_diag_frame crc (front ++ (low ∷ high ∷ [])) ≡ ok p
      → (0 < length front) × (front ≡ p) × (from_le_u16 low high ≡ crc.checksum front)
  accepted_parts front p low high e =
      let e' = sym (validate-append crc front low high) ∙ e in ground arith

  accepted_front :
      (front p : Bytes) (low high : ℕ)
      → IsByte low
      → IsByte high
      → validate_diag_frame crc (front ++ (low ∷ high ∷ [])) ≡ ok p
      → (p ≢ []) × (front ++ (low ∷ high ∷ []) ≡ p ++ to_le_u16 (crc.checksum p))
  accepted_front front p low high hl hh e =
      let (pos, same, sum) = accepted_parts front p low high e in
      rw (← same)
        ((λ nil. ground arith), rw (← sum) (rw (low_byte low high hl, high_byte low high hl hh)))

  accepted :
      (raw p : Bytes)
      → All IsByte raw
      → validate_diag_frame crc raw ≡ ok p
      → (p ≢ []) × (raw ≡ p ++ to_le_u16 (crc.checksum p))
  accepted raw p bytes e = elim (Bool-cases (ltb (length raw) 3)) [
    | inl short ↦ absurd (short_refused raw p (ground arith) e)
    | inr long ↦
        let s = last_two raw (ground arith) in
        let ends = All-append_right IsByte s.front _ (subst (All IsByte) s.splits bytes) in
        let (ne, shape) =
          accepted_front s.front p s.low s.high ends.0 ends.1.0
            (ap (validate_diag_frame crc) (sym s.splits) ∙ e) in
        (ne, s.splits ∙ shape)
  ]

  -- A frame of bytes is accepted with the packet `p` exactly when `p` is not empty and the frame
  -- is `p` followed by the checksum of `p`, low byte first.
  pub validate_diag_frame-eq-ok :
      (raw p : Bytes)
      → All IsByte raw
      → (validate_diag_frame crc raw ≡ ok p) ↔ ((p ≢ []) × (raw ≡ p ++ to_le_u16 (crc.checksum p)))
  validate_diag_frame-eq-ok raw p bytes =
      (accepted raw p bytes, λ h. rw h.1 (validate-checksum crc p h.0))

  -- The encoding of any packet is a body that is free of the flag byte 0x7e, and one flag byte.
  pub encode_hdlc-one_flag :
      (packet : Bytes)
      → (body : Bytes) × (encode_hdlc crc packet ≡ body ++ (0x7e ∷ [])) × All (λ b. b ≢ 0x7e) body
  unfolding encode_hdlc
  encode_hdlc-one_flag packet =
      (_, refl, escape-no_flag (packet ++ to_le_u16 (crc.checksum packet)))
