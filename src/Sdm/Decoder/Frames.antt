-- ===== src/Sdm/Decoder/Frames.antt =====
-- Every frame that the decoder returns is a whole packet.
use grok.Base.{
  ==_iff, ℕ, zero, suc, ◌+◌, ◌-◌, ◌≤◌, ◌<◌, ◌≡◌, refl, ap, ◌∙◌, subst, Bool-cases, inl, inr, some,
  List, [], ◌∷◌, ◌||◌, ltb, ◌==◌, length, length-take, take, drop, get_or, min, All, Bytes, Result,
  ok, err, arith,
}
use grok.Sdm.{sdm_start, sdm_end, max_sdm_packet, SdmHeader, SdmFrame, SdmError, parse_header}
use grok.Sdm.Decoder.{
  SdmDecoder, SdmResult, Round, stop, emit, end_frame, sized_frame, headed_frame, frame_round,
  round, push,
}
use grok.Sdm.Decoder.Rounds.{seek}
use grok.Sdm.Decoder.Chunks.{Scans, halt, more, push_run, round-Unstarted, round-Started}

-- Start byte, terminator, the length that the header states, and the header itself.
pub record IsFramed (f : SdmFrame) : Type 0 where
  pub starts : get_or f.packet 0 0 ≡ sdm_start
  pub ends : get_or f.packet (f.header.length1 + 1) 0 ≡ sdm_end
  pub whole : length f.packet ≡ f.header.length1 + 2
  pub related : f.header.length1 ≡ min (f.header.length2 + 3) 65535
  pub parsed : parse_header (take 14 (drop 1 f.packet)) ≡ ok f.header

abbrev pub FramedResult : SdmResult → Type 0
FramedResult (ok f) = IsFramed f
FramedResult (err e) = Unit

abbrev FramedRound : Round → Type 0
FramedRound (stop rest) = Unit
FramedRound (emit r rest) = FramedResult r

get_or-take : (n i : ℕ) (xs : Bytes) → i < n → get_or (take n xs) i 0 ≡ get_or xs i 0
get_or-take zero i xs h = absurd (omega arith)
get_or-take (suc n) i [] h = refl
get_or-take (suc n) zero (x ∷ xs) h = refl
get_or-take (suc n) (suc i) (x ∷ xs) h = get_or-take n i xs (omega arith)

take-take : (m n : ℕ) (xs : Bytes) → m ≤ n → take m (take n xs) ≡ take m xs
take-take zero n xs h = refl
take-take (suc m) zero xs h = absurd (omega arith)
take-take (suc m) (suc n) [] h = refl
take-take (suc m) (suc n) (x ∷ xs) h = ap (◌∷◌ x) (take-take m n xs (omega arith))

module _ (h : SdmHeader) (bytes : Bytes) (parsed : parse_header (take 14 bytes) ≡ ok h)
    (related : h.length1 ≡ min (h.length2 + 3) 65535) where
  whole_packet :
      (n : ℕ)
      → n ≡ h.length1 + 1
      → 14 ≤ n
      → n ≤ length bytes
      → get_or (sdm_start ∷ bytes) n 0 ≡ sdm_end
      → IsFramed (record { header = h; packet = take (suc n) (sdm_start ∷ bytes) })
  whole_packet n e long fits t = record {
    starts = refl;
    ends = rw (← e) (get_or-take (suc n) n (sdm_start ∷ bytes) (omega arith) ∙ t);
    whole = omega (arith, length-take (suc n) (sdm_start ∷ bytes));
    related = related;
    parsed = ap parse_header (take-take 14 n bytes long) ∙ parsed;
  }

  end_frame-FramedRound :
      14 ≤ h.length1 + 1
      → h.length1 + 2 ≤ length (sdm_start ∷ bytes)
      → FramedRound (end_frame h (h.length1 + 2) (sdm_start ∷ bytes))
  unfolding end_frame
  end_frame-FramedRound long fits =
      elim (Bool-cases (get_or (sdm_start ∷ bytes) (h.length1 + 2 - 1) 0 == sdm_end)) [
        | inr t ↦ rw t tt
        | inl t ↦
            let total : suc (h.length1 + 1) ≡ h.length1 + 2 = omega arith in
            let last : h.length1 + 2 - 1 ≡ h.length1 + 1 = omega arith in
            let found : get_or (sdm_start ∷ bytes) (h.length1 + 2 - 1) 0 ≡ sdm_end =
              (==_iff _ sdm_end).0 t in
            rw t (
              subst (λ k. IsFramed (record { header = h; packet = take k (sdm_start ∷ bytes) }))
                total
                (whole_packet (h.length1 + 1) refl long (omega arith)
                  (subst (λ k. get_or (sdm_start ∷ bytes) k 0 ≡ sdm_end) last found)))
      ]

  sized_frame-FramedRound : FramedRound (sized_frame h (h.length1 + 2) (sdm_start ∷ bytes))
  unfolding sized_frame
  sized_frame-FramedRound =
      elim (Bool-cases (ltb (h.length1 + 2) 16 || ltb max_sdm_packet (h.length1 + 2))) [
        | inl t ↦ rw t tt
        | inr t ↦ rw t (elim (Bool-cases (ltb (length (sdm_start ∷ bytes)) (h.length1 + 2))) [
          | inl u ↦ rw u tt
          | inr u ↦ rw u (end_frame-FramedRound (ground arith) (ground arith))
        ])
      ]

headed_frame-FramedRound :
    (result : Result SdmError SdmHeader) (bytes : Bytes)
    → parse_header (take 14 bytes) ≡ result
    → FramedRound (headed_frame result (sdm_start ∷ bytes))
unfolding headed_frame
headed_frame-FramedRound (err x) bytes e = tt
headed_frame-FramedRound (ok h) bytes e =
    elim (Bool-cases (h.length1 == min (h.length2 + 3) 65535)) [
      | inl t ↦ rw t (sized_frame-FramedRound h bytes e ((==_iff _ _).0 t))
      | inr t ↦ rw t tt
    ]

frame_round-FramedRound : (bytes : Bytes) → FramedRound (frame_round (sdm_start ∷ bytes))
unfolding frame_round
frame_round-FramedRound bytes = elim (Bool-cases (ltb (length (sdm_start ∷ bytes)) 15)) [
  | inl t ↦ rw t tt
  | inr t ↦ rw t (headed_frame-FramedRound (parse_header (take 14 bytes)) bytes refl)
]

round-FramedRound : (buffer : Bytes) → FramedRound (round buffer)
round-FramedRound buffer = elim (seek buffer) [
  | inl u ↦ rw (round-Unstarted buffer u) tt
  | inr s ↦ rw (round-Started buffer s) (frame_round-FramedRound s.found)
]

Scans-FramedResult :
    {buffer rest : Bytes} {results : List SdmResult}
    → Scans buffer results rest
    → All FramedResult results
Scans-FramedResult (halt e) = tt
Scans-FramedResult (more {buffer} {next} {result = r} e s) =
    (subst FramedRound e (round-FramedRound buffer), Scans-FramedResult s)

-- Whatever the decoder holds and is given, its loop ends, and each frame that it returns is a whole
-- packet: it begins with the start byte and ends with the terminator, it is two bytes longer than the
-- first length of its header says, that length is the second one plus 3 or, where this is more than
-- 65535, 65535, and the header is the one that its bytes spell.
pub push-FramedResult :
    (d : SdmDecoder) (bytes : Bytes)
    → (results : List SdmResult) × (next : SdmDecoder) × (push d bytes ≡ some (results, next))
      × All FramedResult results
push-FramedResult d bytes =
    let (results, rest, s, e) = push_run d bytes in (results, _, e, Scans-FramedResult s)
