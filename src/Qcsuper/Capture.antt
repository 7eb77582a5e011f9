-- ===== src/Qcsuper/Capture.antt =====
-- crates/6grok-qcsuper/src/main.rs: `run_capture`, with the outputs of the agent. There is no raw
-- capture, and no read is repeated at the end of the stream.
use grok.Base.{◌≡◌, refl, false, List, ◌∷◌, [], ◌++◌}
use grok.Qualcomm.Hdlc.{Crc}
use grok.Agent.Output.{Env, Outputs, Io, pure, and_then}
use grok.Agent.Stream.{ReadEvent, read, Ending, ended, received, IsFlowing, run_loop}
use grok.Agent.Capture.{Clock, start, run_bytes}
use grok.Agent.Capture.Frames.{emit_all}
use grok.Agent.Capture.Replay.{stream_frames, run_bytes-replay}

module _ (crc : Crc) (clock : Clock) (env : Env) where
  -- A read of the loop emits the frames as the agent does.
  unfoldable pub run_capture : List ReadEvent → Io Ending
  unfolding run_loop
  run_capture events = run_loop (λ bytes. pure tt) (run_bytes crc clock env) false events start

  -- Capturing from the bridge, where no read fails: however the reads cut the stream, and however
  -- often they are interrupted, what the outputs get until the bridge closes, and the failure if one
  -- occurs, are those of emitting the log frames of the whole stream in order.
  pub run_capture-emit_all :
      (events rest : List ReadEvent) (out : Outputs)
      → IsFlowing events
      → run_capture (events ++ (read [] ∷ rest)) out
        ≡ and_then
            (λ _. pure ended)
            (emit_all env (stream_frames crc clock env start (received events)) out)
  unfolding run_capture
  run_capture-emit_all events rest out h =
      run_bytes-replay crc clock env (λ bytes. pure tt) (λ o. Unit {0}) (λ bytes o p. refl)
        (λ f o p. p) events rest start out h tt
