-- ===== src/Agent/Capture/Replay.antt =====
-- The stream loop as a whole: how the reads cut the stream does not matter.
use grok.Base.{
  true, some, Option-cases, inl, inr, ℕ, ◌+◌, ◌≡◌, refl, ap, ◌∙◌, false, none, List, [], ◌∷◌, ◌++◌,
  length, Bytes, ok, err, arith,
}
use grok.Core.{CaptureFrame, qualcomm_log_code}
use grok.Qualcomm.Hdlc.{Crc, Frame, feed}
use grok.Qualcomm.Hdlc.Encoding.{feed-append}
use grok.Agent.Output.{Io, Env, Outputs, pure, and_then, write_raw, emit_frame}
use grok.Agent.Output.Quiet.{emit_frame-KeepsRaw}
use grok.Agent.Output.Separate.{set_raw, emit_frame-IgnoresRaw}
use grok.Agent.Stream.Live.{run_loop-live}
use grok.Agent.Stream.{run_loop}
use grok.Agent.Stream.Replay.{Produces, run_loop-replay}
use grok.Agent.Capture.{
  Clock, Session, ReadEvent, Ending, read, ended, received, IsFlowing, log_frame, run_bytes,
  run_qualcomm_stream,
}
use grok.Agent.Capture.Frames.{log_frames, emit_all, run_bytes-emitted}

log_frames-append :
    (clock : Clock) (sequence : ℕ) (xs ys : List Frame)
    → log_frames clock sequence (xs ++ ys)
      ≡ log_frames clock sequence xs
        ++ log_frames clock (sequence + length (log_frames clock sequence xs)) ys
unfolding log_frames
log_frames-append clock sequence [] ys = ap (λ n. log_frames clock n ys) (omega arith)
log_frames-append clock sequence (err e ∷ xs) ys = log_frames-append clock sequence xs ys
log_frames-append clock sequence (ok packet ∷ xs) ys =
    elim (Option-cases (qualcomm_log_code packet)) [
      | inl e ↦ rw (e, log_frames) (log_frames-append clock sequence xs ys)
      | inr (code, e) ↦
          rw (e, log_frames)
            (ap (◌∷◌ (log_frame clock (sequence + 1) code packet)) (
              log_frames-append clock (sequence + 1) xs ys
              ∙ ap (λ n. log_frames clock (sequence + 1) xs ++ log_frames clock n ys)
                  (omega arith)))
    ]

pub write_raw-none :
    (env : Env) (bytes : Bytes) (out : Outputs)
    → out.raw ≡ none
    → write_raw env bytes out ≡ (ok tt, out)
unfolding write_raw
write_raw-none env bytes out h = ground arith

module _ (crc : Crc) (clock : Clock) (env : Env) where
  -- The log frames of a stream, for a session that reads it.
  abbrev pub stream_frames : Session → Bytes → List CaptureFrame
  stream_frames s bytes = log_frames clock s.sequence (feed crc s.hdlc bytes).1

  stream_frames-append :
      (s : Session) (xs ys : Bytes)
      → stream_frames s (xs ++ ys)
        ≡ stream_frames s xs
          ++ stream_frames
              (record {
                hdlc = (feed crc s.hdlc xs).0;
                sequence = s.sequence + length (stream_frames s xs);
              })
              ys
  stream_frames-append s xs ys =
      ap (λ t. log_frames clock s.sequence t.1) (feed-append crc s.hdlc xs ys)
      ∙ log_frames-append clock s.sequence (feed crc s.hdlc xs).1 _

  run_bytes-Produces : Produces (emit_frame env) (run_bytes crc clock env)
  unfolding log_frames feed emit_all
  run_bytes-Produces = record {
    produced = stream_frames;
    next = λ s bytes. record {
      hdlc = (feed crc s.hdlc bytes).0;
      sequence = s.sequence + length (stream_frames s bytes);
    };
    handled = λ s bytes. run_bytes-emitted crc clock env bytes s;
    cut = stream_frames-append;
  }

  -- The loop over such a stream, whatever it records beside: `P` is what the outputs are while it
  -- records nothing.
  pub run_bytes-replay :
      (record_raw : Bytes → Io (Unit {0})) (P : Outputs → Type 0)
      → ((bytes : Bytes) (out : Outputs) → P out → record_raw bytes out ≡ (ok tt, out))
      → ((f : CaptureFrame) (out : Outputs) → P out → P (emit_frame env f out).1)
      → (events rest : List ReadEvent) (s : Session) (out : Outputs) → IsFlowing events
      → P out
      → run_loop record_raw (run_bytes crc clock env) false (events ++ (read [] ∷ rest)) s out
        ≡ and_then (λ _. pure ended) (emit_all env (stream_frames s (received events)) out)
  unfolding emit_all log_frames feed run_bytes-Produces
  run_bytes-replay record_raw P idle keeps events rest s out h p =
      run_loop-replay record_raw run_bytes-Produces P idle keeps events rest s out h refl p

  -- Replaying a file with no raw capture, where no read fails: however the reads cut it, and however
  -- often they are interrupted, what the frame capture, the uplink and the standard output get up to
  -- the end of the file, and the failure if one occurs, are those of emitting the log frames of the
  -- whole stream in order.
  pub run-replay :
      (events rest : List ReadEvent) (s : Session) (out : Outputs)
      → IsFlowing events
      → out.raw ≡ none
      → run_qualcomm_stream crc clock env false (events ++ (read [] ∷ rest)) s out
        ≡ and_then (λ _. pure ended) (emit_all env (stream_frames s (received events)) out)
  unfolding run_qualcomm_stream
  run-replay events rest s out h r =
      run_bytes-replay (write_raw env) (λ o. o.raw ≡ none) (write_raw-none env)
        (λ f o k. emit_frame-KeepsRaw env f o ∙ k) events rest s out h r

  -- A live session with a raw capture.
  pub run-live :
      (events : List ReadEvent) (s : Session) (old : Bytes) (e : Ending) (out out' : Outputs)
      → out.raw ≡ some old
      → run_qualcomm_stream crc clock env true events s out ≡ (ok e, out')
      → (out'.raw ≡ some (old ++ received events))
        × (emit_all env (stream_frames s (received events)) (set_raw none out)
            ≡ (ok tt, set_raw none out'))
  unfolding run_qualcomm_stream emit_all log_frames feed run_bytes-Produces
  run-live events s old e out out' r q =
      run_loop-live env run_bytes-Produces (emit_frame-IgnoresRaw env) events s old e out out' refl
        r q
