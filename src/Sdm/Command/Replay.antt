-- ===== src/Sdm/Command/Replay.antt =====
-- The collector at the end of a recorded stream: how the reads cut it does not matter.
use mathlib.Core.Path.{fun_ext}
use mathlib.Core.Option
use grok.Base.{
  ℕ, suc, ◌+◌, ◌≡◌, refl, sym, ap, ◌∙◌, false, none, some, List, [], ◌∷◌, ◌++◌, length, Bytes, ok,
  err, arith,
}
use grok.Core.{CaptureFrame}
use grok.Sdm.{SdmHeader}
use grok.Sdm.Decoder.{SdmDecoder, SdmResult, push}
use grok.Sdm.Decoder.Chunks.{push-append}
use grok.Sdm.Decoder.Frames.{push-FramedResult}
use grok.Agent.Output.{Env, Outputs, Io, pure, and_then, write_raw}
use grok.Agent.Output.Quiet.{
  KeepsRaw, >>=-KeepsRaw, write_stdout-KeepsRaw, capture_frame_into-KeepsRaw, send_into-KeepsRaw,
}
use grok.Agent.Stream.{ReadEvent, read, ended, received, IsFlowing, emit_list}
use grok.Agent.Stream.Replay.{and_then_assoc, Produces, run_loop-replay}
use grok.Agent.Capture.{Clock}
use grok.Agent.Capture.Replay.{write_raw-none}
use grok.Sdm.Command.{
  EnvelopeJson, SdmSession, sdm_frame, pushed, emit_sdm_frame, on_results, run_read, run_stream,
}

-- The frames of the results, each with its header; the failed ones are passed over.
abbrev pub sdm_frames : Clock → ℕ → List SdmResult → List (CaptureFrame × SdmHeader)
sdm_frames clock sequence [] = []
sdm_frames clock sequence (err e ∷ results) = sdm_frames clock sequence results
sdm_frames clock sequence (ok sdm ∷ results) =
    (sdm_frame clock (sequence + 1) sdm, sdm.header) ∷ sdm_frames clock (sequence + 1) results

sdm_frames-append :
    (clock : Clock) (sequence : ℕ) (xs ys : List SdmResult)
    → sdm_frames clock sequence (xs ++ ys)
      ≡ sdm_frames clock sequence xs
        ++ sdm_frames clock (sequence + length (sdm_frames clock sequence xs)) ys
sdm_frames-append clock sequence [] ys = ap (λ n. sdm_frames clock n ys) (omega arith)
sdm_frames-append clock sequence (err e ∷ xs) ys = sdm_frames-append clock sequence xs ys
sdm_frames-append clock sequence (ok sdm ∷ xs) ys =
    ap (◌∷◌ (sdm_frame clock (sequence + 1) sdm, sdm.header)) (
      sdm_frames-append clock (sequence + 1) xs ys
      ∙ ap (λ n. sdm_frames clock (sequence + 1) xs ++ sdm_frames clock n ys) (omega arith))

-- A push that is known.
pushed-eq :
    (d : SdmDecoder) (bytes : Bytes) (found : List SdmResult × SdmDecoder)
    → push d bytes ≡ some found
    → pushed d bytes ≡ found
unfolding pushed
pushed-eq d bytes found e = rw (e, pushed)

pushed-append :
    (d : SdmDecoder) (xs ys : Bytes)
    → pushed d (xs ++ ys)
      ≡ ((pushed d xs).0 ++ (pushed (pushed d xs).1 ys).0, (pushed (pushed d xs).1 ys).1)
unfolding Option.bind
pushed-append d xs ys =
    let (first, d1, e1, f1) = push-FramedResult d xs in
    let (second, d2, e2, f2) = push-FramedResult d1 ys in
    rw (pushed-eq d xs (first, d1) e1, pushed-eq d1 ys (second, d2) e2)
      (pushed-eq d (xs ++ ys) (first ++ second, d2) (push-append d xs ys ∙ rw (e1, e2)))

module _ (env : Env) (envelope_json : EnvelopeJson) where
  emit_sdm_frame-KeepsRaw :
      (f : CaptureFrame × SdmHeader) → KeepsRaw (emit_sdm_frame env envelope_json f)
  unfolding emit_sdm_frame
  emit_sdm_frame-KeepsRaw (frame, header) =
      >>=-KeepsRaw _ _ (λ out. capture_frame_into-KeepsRaw env out.capture frame out)
        (λ _.
          >>=-KeepsRaw _ _ (λ out. send_into-KeepsRaw env out.wire frame out)
            (λ _. >>=-KeepsRaw _ _ (λ out. refl) (λ line. write_stdout-KeepsRaw env _)))

module _ (clock : Clock) (env : Env) (envelope_json : EnvelopeJson) where
  -- The frames of a stream, for a session that reads it.
  abbrev pub stream_sdm_frames : SdmSession → Bytes → List (CaptureFrame × SdmHeader)
  stream_sdm_frames s bytes = sdm_frames clock s.sequence (pushed s.decoder bytes).0

  next_session : SdmSession → Bytes → SdmSession
  next_session s bytes = record {
    decoder = (pushed s.decoder bytes).1;
    sequence = s.sequence + length (stream_sdm_frames s bytes);
  }

  on_results-emit_list :
      (results : List SdmResult) (sequence : ℕ) (out : Outputs)
      → on_results clock env envelope_json results sequence out
        ≡ and_then
            (λ (_ : Unit {0}). pure (sequence + length (sdm_frames clock sequence results)))
            (emit_list (emit_sdm_frame env envelope_json) (sdm_frames clock sequence results) out)
  unfolding on_results emit_list
  on_results-emit_list [] sequence out = unfold and_then in ap (λ n. (ok n, out)) (omega arith)
  on_results-emit_list (err e ∷ results) sequence out = on_results-emit_list results sequence out
  on_results-emit_list (ok sdm ∷ results) sequence out =
      ap (λ (m : Io ℕ). and_then (λ (_ : Unit {0}). m) (emit_sdm_frame env envelope_json frame out))
        (fun_ext (on_results-emit_list results (sequence + 1)))
      ∙ ap
          (λ n.
            and_then {A = Unit {0}}
              (λ _ o. and_then {A = Unit {0}} (λ _. pure n) (emit_list emit later o))
              (emit_sdm_frame env envelope_json frame out))
          count
      ∙ sym (
          and_then_assoc (λ (_ : Unit {0}). emit_list emit later)
            (λ _. pure (sequence + suc (length later)))
            (emit_sdm_frame env envelope_json frame out))
    where
      emit : CaptureFrame × SdmHeader → Io (Unit {0})
      emit = emit_sdm_frame env envelope_json

      frame : CaptureFrame × SdmHeader
      frame = (sdm_frame clock (sequence + 1) sdm, sdm.header)

      later : List (CaptureFrame × SdmHeader)
      later = sdm_frames clock (sequence + 1) results

      count : sequence + 1 + length later ≡ sequence + suc (length later)
      count = omega arith

  -- The bytes of a read: their frames are emitted, and the session goes on behind them.
  run_read-emit_list :
      (s : SdmSession) (bytes : Bytes)
      → run_read clock env envelope_json s bytes ≡ λ out.
          and_then
            (λ (_ : Unit {0}). pure (next_session s bytes))
            (emit_list (emit_sdm_frame env envelope_json) (stream_sdm_frames s bytes) out)
  unfolding run_read next_session
  run_read-emit_list s bytes = fun_ext (λ out.
      ap (and_then k) (on_results-emit_list (pushed s.decoder bytes).0 s.sequence out)
      ∙ and_then_assoc (λ (_ : Unit {0}). pure (s.sequence + length (stream_sdm_frames s bytes))) k
          (emit_list (emit_sdm_frame env envelope_json) (stream_sdm_frames s bytes) out)
      ∙ unfold and_then in refl)
    where
      k : ℕ → Io SdmSession
      k sequence = pure (record { decoder = (pushed s.decoder bytes).1; sequence = sequence })

  run_read-Produces : Produces (emit_sdm_frame env envelope_json) (run_read clock env envelope_json)
  unfolding next_session
  run_read-Produces = record {
    produced = stream_sdm_frames;
    next = next_session;
    handled = run_read-emit_list;
    cut = λ s xs ys.
        ap (λ found. sdm_frames clock s.sequence found.0) (pushed-append s.decoder xs ys)
        ∙ sdm_frames-append clock s.sequence (pushed s.decoder xs).0 _;
  }

  -- Replaying an SDM stream with no raw capture, where no read fails, from a decoder that holds no
  -- whole packet: however the reads cut it, and however often they are interrupted, what the outputs
  -- get up to the end of the file, and the failure if one occurs, are those of emitting the frames of
  -- the whole stream, each with its header, in order.
  pub run_stream-replay :
      (events rest : List ReadEvent) (s : SdmSession) (out : Outputs)
      → IsFlowing events
      → stream_sdm_frames s [] ≡ []
      → out.raw ≡ none
      → run_stream clock env envelope_json false (events ++ (read [] ∷ rest)) s out
        ≡ and_then
            (λ _. pure ended)
            (emit_list
              (emit_sdm_frame env envelope_json)
              (stream_sdm_frames s (received events))
              out)
  unfolding run_stream run_read-Produces
  run_stream-replay events rest s out h n r =
      run_loop-replay (write_raw env) run_read-Produces (λ o. o.raw ≡ none) (write_raw-none env)
        (λ f o k. emit_sdm_frame-KeepsRaw env envelope_json f o ∙ k) events rest s out h n r
