-- ===== src/Agent/Capture/Rerun.antt =====
-- A live session is run again from its raw capture.
use grok.Base.{◌≡◌, refl, ap, ◌∙◌, true, false, none, some, List, [], ◌∷◌, ◌++◌, ok}
use grok.Qualcomm.Hdlc.{Crc}
use grok.Agent.Output.{Env, Outputs, pure, and_then}
use grok.Agent.Output.Separate.{set_raw}
use grok.Agent.Capture.{
  Clock, start, ReadEvent, read, Ending, ended, received, IsFlowing, run_qualcomm_stream,
}
use grok.Agent.Capture.Frames.{emit_all}
use grok.Agent.Capture.Replay.{stream_frames, run-replay, run-live}

module _ (crc : Crc) (clock : Clock) (env : Env) where
  -- If a live session with a new raw capture has not failed, then the raw capture holds all bytes
  -- that were read, and replaying it, however the reads cut it as long as none fails, with what the
  -- other outputs were before the session, and the same times for the same sequence numbers, leaves
  -- them as the session did.
  pub run-rerun :
      (events again rest : List ReadEvent) (e : Ending) (out out' : Outputs)
      → out.raw ≡ some []
      → run_qualcomm_stream crc clock env true events start out ≡ (ok e, out')
      → IsFlowing again
      → received again ≡ received events
      → (out'.raw ≡ some (received events))
        × (run_qualcomm_stream crc clock env false
              (again ++ (read [] ∷ rest))
              start
              (set_raw none out)
            ≡ (ok ended, set_raw none out'))
  run-rerun events again rest e out out' r q f same =
      let (raw, emitted) = run-live crc clock env events start [] e out out' r q in
      (
        raw,
        run-replay crc clock env again rest start (set_raw none out) f refl
            ∙ ap
                (λ bytes.
                  and_then (λ (_ : Unit {0}). pure ended)
                    (emit_all env (stream_frames crc clock env start bytes) (set_raw none out)))
                same
            ∙ ap (and_then (λ (_ : Unit {0}). pure ended)) emitted
            ∙ unfold and_then in refl,
      )
