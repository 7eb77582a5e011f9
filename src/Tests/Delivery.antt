-- ===== src/Tests/Delivery.antt =====
-- A frame on its way from the agent to the service.
use grok.Base.{
  ◌≤◌, ◌<◌, ◌≡◌, refl, sym, ◌∙◌, subst, none, some, [], ◌∷◌, length, Bytes, Result, ok, arith,
}
use grok.Api.Store.{process_frame}
use grok.Api.Ingest.{max_wire_frame, ingest_client}
use grok.Api.Ingest.Uplink.{process_all}
use grok.Delivery.{IsAcceptable, emit_all-ingest_client}
use grok.Tests.Core.{codec, log_frame, log_bytes, encode_wire_frame_log}
use grok.Tests.Agent.{env}
use grok.Tests.Api.{env as service_env, fresh}
use grok.Tests.Normalized.{captured, after, emit_all-log_frame}

log_frame-IsAcceptable : IsAcceptable codec log_frame
log_frame-IsAcceptable payload e =
    let both : ◌≡◌ {A = Result _ Bytes} (ok log_bytes) (ok payload) =
      sym encode_wire_frame_log ∙ e in
    let same : log_bytes ≡ payload = cc in
    subst (λ p. (0 < length p) × (length p ≤ max_wire_frame)) same (omega arith, omega arith)

emit_all-ingest_client_example :
    (stream : Bytes) × (after.wire ≡ some stream)
    × (ingest_client codec
          (process_frame service_env)
          (record { bytes = stream; fault = none })
          fresh
        ≡ process_all codec (process_frame service_env) (log_frame ∷ []) fresh)
emit_all-ingest_client_example =
    emit_all-ingest_client env (process_frame service_env) (log_frame ∷ []) captured after fresh
      (log_frame-IsAcceptable, tt) refl emit_all-log_frame
