-- ===== src/Sdm/Decoder/Rounds.antt =====
-- One round of the decoder's loop, when more bytes stand behind the buffer.
use grok.Base.{
  ◌||◌, Option-cases, ==_iff, min, ℕ, ◌+◌, ◌-◌, ◌≤◌, ◌<◌, ◌≡◌, refl, ap, ◌∙◌, false, ◌⊎◌, inl, inr,
  [], ◌∷◌, ◌++◌, ltb, ◌==◌, length, length-append, length-drop, get_or-append_lt, take, drop,
  take-append_le, drop-append_le, position, Bytes, Result, ok, err, arith, Bool-cases,
}
use grok.Sdm.{sdm_start, max_sdm_packet, SdmHeader, SdmError, parse_header}
use grok.Sdm.Decoder.{
  Round, stop, emit, SdmResult, end_frame, sized_frame, headed_frame, frame_round, round,
}

module _ (more : Bytes) where
  -- A round that emits on a buffer does the same with more bytes behind it.
  end_frame-append :
      (h : SdmHeader) (total : ℕ) (buffer : Bytes)
      → (r : SdmResult) (rest : Bytes) → 0 < total
      → total ≤ length buffer
      → end_frame h total buffer ≡ emit r rest
      → end_frame h total (buffer ++ more) ≡ emit r (rest ++ more)
  unfolding end_frame
  end_frame-append h total buffer r rest pos fits e = ground (
    arith,
    get_or-append_lt buffer more (total - 1) 0,
    take-append_le total buffer more,
    drop-append_le total buffer more,
    drop-append_le 1 buffer more,
  )

  sized_frame-append :
      (h : SdmHeader) (total : ℕ) (buffer : Bytes)
      → 0 < length buffer
      → (r : SdmResult) (rest : Bytes) → sized_frame h total buffer ≡ emit r rest
      → sized_frame h total (buffer ++ more) ≡ emit r (rest ++ more)
  unfolding sized_frame
  sized_frame-append h total buffer pos r rest e = ground (
    arith,
    length-append buffer more,
    end_frame-append h total buffer r rest,
    drop-append_le 1 buffer more,
  )

  headed_frame-append :
      (parsed : Result SdmError SdmHeader) (buffer : Bytes)
      → 0 < length buffer
      → (r : SdmResult) (rest : Bytes) → headed_frame parsed buffer ≡ emit r rest
      → headed_frame parsed (buffer ++ more) ≡ emit r (rest ++ more)
  unfolding headed_frame
  headed_frame-append (err x) buffer pos r rest e = ground (arith, drop-append_le 1 buffer more)
  headed_frame-append (ok h) buffer pos r rest e =
      ground (
        arith,
        drop-append_le 1 buffer more,
        sized_frame-append h (h.length1 + 2) buffer pos r rest,
      )

  header-append :
      (buffer : Bytes)
      → 15 ≤ length buffer
      → take 14 (drop 1 (buffer ++ more)) ≡ take 14 (drop 1 buffer)
  header-append buffer h =
      ap (take 14) (drop-append_le 1 buffer more (omega arith))
      ∙ take-append_le 14 (drop 1 buffer) more (omega (arith, length-drop 1 buffer))

  pub frame_round-append :
      (buffer : Bytes) (r : SdmResult) (rest : Bytes)
      → frame_round buffer ≡ emit r rest
      → frame_round (buffer ++ more) ≡ emit r (rest ++ more)
  unfolding frame_round
  frame_round-append buffer r rest e = elim (Bool-cases (ltb (length buffer) 15)) [
    | inl short ↦ ground arith
    | inr long ↦ ground (
      arith,
      length-append buffer more,
      header-append buffer,
      headed_frame-append (parse_header (take 14 (drop 1 buffer))) buffer (ground arith) r rest,
    )
  ]

-- What a round leaves: all of the buffer if it waits, less if it goes on.
abbrev pub Leaves : Bytes → Round → Type 0
Leaves buffer (stop rest) = rest ≡ buffer
Leaves buffer (emit r rest) = length rest < length buffer

end_frame-Leaves :
    (h : SdmHeader) (total : ℕ) (buffer : Bytes)
    → 0 < total
    → total ≤ length buffer
    → Leaves buffer (end_frame h total buffer)
unfolding end_frame
end_frame-Leaves h total buffer pos fits =
    ground (arith, length-drop total buffer, length-drop 1 buffer)

sized_frame-Leaves :
    (h : SdmHeader) (total : ℕ) (buffer : Bytes)
    → 0 < length buffer
    → Leaves buffer (sized_frame h total buffer)
unfolding sized_frame
sized_frame-Leaves h total buffer pos =
    elim (Bool-cases (ltb total 16 || ltb max_sdm_packet total)) [
      | inl t ↦ rw t (ground (arith, length-drop 1 buffer))
      | inr t ↦ rw t (elim (Bool-cases (ltb (length buffer) total)) [
        | inl u ↦ rw u refl
        | inr u ↦ rw u (end_frame-Leaves h total buffer (ground arith) (ground arith))
      ])
    ]

headed_frame-Leaves :
    (parsed : Result SdmError SdmHeader) (buffer : Bytes)
    → 0 < length buffer
    → Leaves buffer (headed_frame parsed buffer)
unfolding headed_frame
headed_frame-Leaves (err x) buffer pos = ground (arith, length-drop 1 buffer)
headed_frame-Leaves (ok h) buffer pos = elim (Bool-cases (h.length1 == min (h.length2 + 3) 65535)) [
  | inl t ↦ rw t (sized_frame-Leaves h (h.length1 + 2) buffer pos)
  | inr t ↦ rw t (ground (arith, length-drop 1 buffer))
]

pub frame_round-Leaves : (buffer : Bytes) → Leaves buffer (frame_round buffer)
unfolding frame_round
frame_round-Leaves buffer = elim (Bool-cases (ltb (length buffer) 15)) [
  | inl t ↦ rw t refl
  | inr t ↦ rw t (headed_frame-Leaves _ buffer (ground arith))
]

-- Bytes in front of the first start byte do not count.
pub round_skip :
    (b : ℕ) (bytes : Bytes) → (b == sdm_start) ≡ false → round (b ∷ bytes) ≡ round bytes
unfolding round
round_skip b bytes h = elim (Option-cases (position (λ c. c == sdm_start) bytes)) [
  | inl e ↦ ground (arith, e)
  | inr (i, e) ↦ ground (arith, e)
]

pub round_start : (bytes : Bytes) → round (sdm_start ∷ bytes) ≡ frame_round (sdm_start ∷ bytes)
unfolding round
round_start bytes = refl

-- Either the buffer has no start byte, or it is scanned from its first one on.
pub record Started (buffer : Bytes) : Type 0 where
  pub found : Bytes
  pub at : (more : Bytes) → round (buffer ++ more) ≡ frame_round (sdm_start ∷ (found ++ more))
  pub within : length found < length buffer

abbrev pub Unstarted : Bytes → Type 0
Unstarted buffer = (more : Bytes) → round (buffer ++ more) ≡ round more

pub seek : (buffer : Bytes) → Unstarted buffer ⊎ Started buffer
seek [] = inl (λ more. refl)
seek (b ∷ bs) = elim (Bool-cases (b == sdm_start)) [
  | inl t ↦ inr (record {
    found = bs;
    at = λ more. rw ((==_iff b sdm_start).0 t) (round_start (bs ++ more));
    within = omega arith;
  })
  | inr t ↦ elim (seek bs) [
    | inl none_left ↦ inl (λ more. round_skip b (bs ++ more) t ∙ none_left more)
    | inr s ↦ inr (record {
      found = s.found;
      at = λ more. round_skip b (bs ++ more) t ∙ s.at more;
      within = omega (arith, s.within);
    })
  ]
]
