-- ===== src/Agent/Capture/Raw.antt =====
-- The raw capture holds the bytes that were read.
use grok.Base.{◌≡◌, ap, ◌∙◌, Bool, some, List, ◌++◌, Bytes, ok, refl}
use grok.Qualcomm.Hdlc.{Crc}
use grok.Agent.Output.{Env, Outputs, Io}
use grok.Agent.Output.Quiet.{KeepsRaw, and_then-KeepsRaw, emit_frame-KeepsRaw}
use grok.Agent.Stream.Replay.{emit_list-keeps}
use grok.Agent.Stream.Raw.{run_loop-raw}
use grok.Agent.Capture.{
  Clock, Session, ReadEvent, Ending, received, IsFlowing, run_bytes, run_qualcomm_stream,
}
use grok.Agent.Capture.Frames.{run_bytes-emitted, emit_all}

module _ (crc : Crc) (clock : Clock) (env : Env) where
  run_bytes-KeepsRaw : (s : Session) (bytes : Bytes) → KeepsRaw (run_bytes crc clock env s bytes)
  unfolding emit_all
  run_bytes-KeepsRaw s bytes out =
      ap (λ (m : Io Session). (m out).1.raw) (run_bytes-emitted crc clock env bytes s)
      ∙ and_then-KeepsRaw _ _ (λ _ o. refl)
      ∙ emit_list-keeps _ (λ o. o.raw ≡ out.raw) _ out (λ f o k. emit_frame-KeepsRaw env f o ∙ k)
          refl

  -- A live capture or a replay with a raw capture: as long as nothing fails, the raw capture is
  -- what it was, followed by all bytes that were read, in order.
  run-raw :
      (live : Bool) (events : List ReadEvent) (s : Session) (old : Bytes) (e : Ending)
      (out out' : Outputs)
      → IsFlowing events
      → out.raw ≡ some old
      → run_qualcomm_stream crc clock env live events s out ≡ (ok e, out')
      → out'.raw ≡ some (old ++ received events)
  unfolding run_qualcomm_stream
  run-raw = run_loop-raw env (run_bytes crc clock env) run_bytes-KeepsRaw
