-- ===== src/Sdm/Decoder/Chunks.antt =====
-- The decoder's loop always ends, and its results do not depend on how the stream is cut.
use mathlib.Core.Option
use grok.Base.{
  ◌⊎◌, ℕ, zero, suc, subst, ◌+◌, ◌<◌, ◌≡◌, refl, sym, ap, ◌∙◌, inl, inr, some, List, [], ◌∷◌, ◌++◌,
  length, Bytes, arith, append-nil, append_assoc,
}
use grok.Sdm.Decoder.{SdmDecoder, SdmResult, Round, stop, emit, frame_round, round, scan, push}
use grok.Sdm.Decoder.Rounds.{
  round_start, Leaves, frame_round-Leaves, frame_round-append, Started, Unstarted, seek,
}

-- The loop's runs, without fuel: from a buffer to the results and the buffer that is left.
pub data Scans : Bytes → List SdmResult → Bytes → Type 0 where
  halt : {buffer rest : Bytes} → round buffer ≡ stop rest → Scans buffer [] rest
  more :
      {buffer next rest : Bytes} {result : SdmResult} {results : List SdmResult}
      → round buffer ≡ emit result next
      → Scans next results rest
      → Scans buffer (result ∷ results) rest

round_nil : round [] ≡ stop []
unfolding round
round_nil = refl

-- The two shapes of a buffer, with nothing behind it.
pub round-Unstarted : (buffer : Bytes) → Unstarted buffer → round buffer ≡ stop []
round-Unstarted buffer u = ap round (sym (append-nil buffer)) ∙ u [] ∙ round_nil

pub round-Started :
    (buffer : Bytes) (s : Started buffer) → round buffer ≡ frame_round (0x7f ∷ s.found)
round-Started buffer s =
    ap round (sym (append-nil buffer))
    ∙ s.at []
    ∙ ap (λ t. frame_round (0x7f ∷ t)) (append-nil s.found)

round_shrinks :
    (buffer : Bytes) (r : SdmResult) (next : Bytes)
    → round buffer ≡ emit r next
    → length next < length buffer
round_shrinks buffer r next e = elim (seek buffer) [
  | inl u ↦ cc (round-Unstarted buffer u)
  | inr s ↦
      let e' = sym (round-Started buffer s) ∙ e in
      let left : Leaves (0x7f ∷ s.found) (emit r next) =
        subst (Leaves (0x7f ∷ s.found)) e' (frame_round-Leaves (0x7f ∷ s.found)) in
      omega (arith, s.within)
]

-- A round that emits does so with more bytes behind the buffer.
round-append_emit :
    (buffer tail : Bytes) (r : SdmResult) (next : Bytes)
    → round buffer ≡ emit r next
    → round (buffer ++ tail) ≡ emit r (next ++ tail)
round-append_emit buffer tail r next e = elim (seek buffer) [
  | inl u ↦ cc (round-Unstarted buffer u)
  | inr s ↦
      s.at tail ∙ frame_round-append tail (0x7f ∷ s.found) r next (sym (round-Started buffer s) ∙ e)
]

-- A round that waits leaves what it waits for: more bytes are scanned behind that.
round-append_stop :
    (buffer tail rest : Bytes)
    → round buffer ≡ stop rest
    → round (buffer ++ tail) ≡ round (rest ++ tail)
round-append_stop buffer tail rest e = elim (seek buffer) [
  | inl u ↦ let nil : rest ≡ [] = cc (round-Unstarted buffer u) in rw nil (u tail)
  | inr s ↦
      let e' = sym (round-Started buffer s) ∙ e in
      let left : rest ≡ 0x7f ∷ s.found =
        subst (Leaves (0x7f ∷ s.found)) e' (frame_round-Leaves (0x7f ∷ s.found)) in
      rw left (s.at tail ∙ sym (round_start (s.found ++ tail)))
]

Scans-append :
    {a left rest : Bytes} {first second : List SdmResult} (tail : Bytes)
    → Scans a first left
    → Scans (left ++ tail) second rest
    → Scans (a ++ tail) (first ++ second) rest
Scans-append tail (halt {buffer} {rest} e) (halt e') =
    halt (round-append_stop buffer tail rest e ∙ e')
Scans-append tail (halt {buffer} {rest} e) (more e' t) =
    more (round-append_stop buffer tail rest e ∙ e') t
Scans-append tail (more {buffer} {next} {result = r} e s) t =
    more (round-append_emit buffer tail r next e) (Scans-append tail s t)

Round-cases :
    (x : Round)
    → ((rest : Bytes) × (x ≡ stop rest)) ⊎ ((r : SdmResult) × (next : Bytes) × (x ≡ emit r next))
Round-cases (stop rest) = inl (rest, refl)
Round-cases (emit r next) = inr (r, next, refl)

-- With more fuel than bytes the loop ends, and its result is that of the run without fuel.
Scans-scan :
    {buffer rest : Bytes} {results : List SdmResult} (fuel : ℕ)
    → Scans buffer results rest
    → length buffer < fuel
    → scan fuel buffer ≡ some (results, rest)
unfolding scan
Scans-scan zero s lt = absurd (omega arith)
Scans-scan (suc fuel) (halt e) lt = rw (e, scan)
Scans-scan (suc fuel) (more {buffer} {next} {result = r} e s) lt =
    rw (e, scan, Scans-scan fuel s (omega (arith, round_shrinks buffer r next e)))

-- Every buffer has a run.
Scans-total :
    (fuel : ℕ) (buffer : Bytes)
    → length buffer < fuel
    → (results : List SdmResult) × (rest : Bytes) × Scans buffer results rest
Scans-total zero buffer lt = absurd (omega arith)
Scans-total (suc fuel) buffer lt = elim (Round-cases (round buffer)) [
  | inl (rest, e) ↦ ([], rest, halt e)
  | inr (r, next, e) ↦
      let (results, rest, s) =
        Scans-total fuel next (omega (arith, round_shrinks buffer r next e)) in
      (r ∷ results, rest, more e s)
]

-- `push` ends on every input: its loop never runs out of fuel.
pub push_run :
    (d : SdmDecoder) (bytes : Bytes)
    → (results : List SdmResult) × (rest : Bytes) × Scans (d.buffer ++ bytes) results rest
      × (push d bytes ≡ some (results, record { buffer = rest }))
unfolding push
push_run d bytes =
    let (results, rest, s) =
      Scans-total (length (d.buffer ++ bytes) + 1) (d.buffer ++ bytes) (omega arith) in
    (results, rest, s, rw (Scans-scan (length (d.buffer ++ bytes) + 1) s (omega arith)))

pub push_of_Scans :
    (d : SdmDecoder) (bytes : Bytes) {results : List SdmResult} {rest : Bytes}
    → Scans (d.buffer ++ bytes) results rest
    → push d bytes ≡ some (results, record { buffer = rest })
unfolding push
push_of_Scans d bytes s = rw (Scans-scan (length (d.buffer ++ bytes) + 1) s (omega arith))

-- The loop of `push` ends on every buffer and input, with some results and a decoder.
pub push_total :
    (d : SdmDecoder) (bytes : Bytes)
    → (results : List SdmResult) × (next : SdmDecoder) × (push d bytes ≡ some (results, next))
push_total d bytes = let (results, rest, s, e) = push_run d bytes in (results, _, e)

-- Cutting the stream changes nothing: pushing one part and then the other gives the results that
-- pushing both at once gives, in the same order, and leaves the same decoder.
pub push-append :
    (d : SdmDecoder) (xs ys : Bytes)
    → push d (xs ++ ys)
      ≡ Option.bind
          (push d xs)
          (λ first. Option.map (λ second. (first.0 ++ second.0, second.1)) (push first.1 ys))
unfolding Option.bind
push-append d xs ys =
    let (first, left, s, e) = push_run d xs in
    let (second, rest, t, e') = push_run (record { buffer = left }) ys in
    push_of_Scans d (xs ++ ys) (
      subst (λ b. Scans b (first ++ second) rest) (append_assoc d.buffer xs ys)
        (Scans-append ys s t))
    ∙ rw (e, e')
