-- ===== src/Delivery.antt =====
-- From a collector to the service: what `emit_frame` of crates/6grok-agent/src/main.rs leaves on the
-- uplink is what `ingest_client` of crates/6grok-api/src/main.rs takes in.
pub mod Datagrams
use grok.Base.{
  ◌≤◌, ◌<◌, ◌≡◌, refl, sym, ap, ◌∙◌, none, some, List, [], ◌∷◌, ◌++◌, append-nil, append_assoc, map,
  length, All, Bytes, to_be_u32, Option, ok, arith,
}
use grok.Core.{CaptureFrame, MessagePack, encode_wire_frame}
use grok.Agent.Output.{Env, Outputs, emit_frame}
use grok.Agent.Output.Sending.{and_then-eq-ok}
use grok.Agent.Output.Wired.{emit_frame-IsOnWire}
use grok.Agent.Stream.{emit_list}
use grok.Agent.Capture.Frames.{emit_all}
use grok.Api.Store.{IngestError}
use grok.Api.Ingest.{max_wire_frame, ingest_client}
use grok.Api.Ingest.Uplink.{Sent, IsSent, wire_of, frame_of, process_all, ingest_client-wire_of}

-- The encoding of a frame, if there is one, has 1 byte to 8 MiB.
abbrev pub IsAcceptable : MessagePack → CaptureFrame → Type 0
IsAcceptable codec f =
    (payload : Bytes)
    → encode_wire_frame codec f ≡ ok payload
    → (0 < length payload) × (length payload ≤ max_wire_frame)

module _ (env : Env) where
  -- The frames as they stand on the uplink.
  record AllOnWire (fs : List CaptureFrame) (old : Bytes) (out : Outputs) : Type 0 where
    sent : List Sent
    same : map frame_of sent ≡ fs
    all_sent : All (IsSent env.codec) sent
    written : out.wire ≡ some (old ++ wire_of sent)

  emit_list-AllOnWire :
      (fs : List CaptureFrame) (old : Bytes) (out out' : Outputs)
      → All (IsAcceptable env.codec) fs
      → out.wire ≡ some old
      → emit_list (emit_frame env) fs out ≡ (ok tt, out')
      → AllOnWire fs old out'
  unfolding emit_list
  emit_list-AllOnWire [] old out out' a h e = record {
    sent = [];
    same = refl;
    all_sent = tt;
    written = sym (ap (λ r. r.1.wire) e) ∙ h ∙ ap some (sym (append-nil old));
  }
  emit_list-AllOnWire (f ∷ fs) old out out' (small, a) h e =
      let c = and_then-eq-ok _ (emit_frame env f out) tt out' e in
      let one = emit_frame-IsOnWire env f old out c.middle h c.first in
      let more = emit_list-AllOnWire fs _ c.middle out' a one.written c.then_ in
      let fits = small one.payload one.encoded in
      record {
        sent = (f, one.payload) ∷ more.sent;
        same = ap (◌∷◌ f) more.same;
        all_sent = ((one.encoded, fits.0, fits.1), more.all_sent);
        written =
            more.written
            ∙ ap some (
                append_assoc old (to_be_u32 (length one.payload) ++ one.payload) (wire_of more.sent)
                ∙ ap (λ l. old ++ l)
                    (append_assoc (to_be_u32 (length one.payload)) one.payload
                      (wire_of more.sent)));
      }

  -- If a collector has emitted some frames without an error, over a new uplink, and each of them is
  -- encoded in 1 byte to 8 MiB, then a service that takes in the bytes of the uplink up to its end
  -- processes exactly these frames, in order, up to the first whose processing fails.
  pub emit_all-ingest_client :
      {S : Type 0} (process : CaptureFrame → S → Option IngestError × S) (fs : List CaptureFrame)
      (out out' : Outputs) (s : S)
      → All (IsAcceptable env.codec) fs
      → out.wire ≡ some []
      → emit_all env fs out ≡ (ok tt, out')
      → (stream : Bytes) × (out'.wire ≡ some stream)
        × (ingest_client env.codec process (record { bytes = stream; fault = none }) s
            ≡ process_all env.codec process fs s)
  unfolding emit_all
  emit_all-ingest_client process fs out out' s a h e =
      let w = emit_list-AllOnWire fs [] out out' a h e in
      (
        wire_of w.sent,
        w.written,
        ap (λ bytes. ingest_client env.codec process (record { bytes = bytes; fault = none }) s)
              (sym (append-nil (wire_of w.sent)))
            ∙ ingest_client-wire_of env.codec process w.sent [] s w.all_sent (omega arith)
            ∙ ap (λ frames. process_all env.codec process frames s) w.same,
      )
