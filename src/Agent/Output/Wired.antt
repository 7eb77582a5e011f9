-- ===== src/Agent/Output/Wired.antt =====
-- What the emission of frames leaves on the uplink.
use grok.Base.{◌≡◌, refl, sym, ap, ◌∙◌, Option, none, some, [], ◌∷◌, ◌++◌, Bytes, ok, arith}
use grok.Core.{CaptureFrame}
use grok.Agent.Output.{
  Env, Outputs, Io, ◌>>=◌, ◌>>◌, lift, lift_json, write_capture, write_stdout, capture_frame_into,
  send_into, emit_frame,
}
use grok.Agent.Output.Quiet.{Keeps, >>=-Keeps}
use grok.Agent.Output.Sending.{and_then-eq-ok, IsOnWire, send-IsOnWire}

abbrev KeepsWire : {A : Type 0} → Io A → Type 0
KeepsWire m = Keeps (λ out. out.wire) m

module _ (env : Env) where
  write_capture-KeepsWire : (bytes : Bytes) → KeepsWire (write_capture env bytes)
  unfolding write_capture
  write_capture-KeepsWire bytes out = ground arith

  write_stdout-KeepsWire : (bytes : Bytes) → KeepsWire (write_stdout env bytes)
  unfolding write_stdout
  write_stdout-KeepsWire bytes out = ground arith

  -- The last step of an emission.
  abbrev print_packet : CaptureFrame → Io (Unit {0})
  print_packet f = do
    line ← lift (lift_json (env.decoded_json f))
    write_stdout env (line ++ (b'\n' ∷ []))

  print_packet-KeepsWire : (f : CaptureFrame) → KeepsWire (print_packet f)
  print_packet-KeepsWire f =
      >>=-Keeps (λ o. o.wire) _ _ (λ out. refl) (λ line. write_stdout-KeepsWire _)

  capture_line-KeepsWire :
      (f : CaptureFrame)
      → KeepsWire (do
        text ← lift (lift_json (env.frame_json f))
        write_capture env text
        write_capture env (b'\n' ∷ []))
  capture_line-KeepsWire f =
      >>=-Keeps (λ o. o.wire) _ _ (λ out. refl)
        (λ text.
          >>=-Keeps (λ o. o.wire) _ _ (write_capture-KeepsWire text)
            (λ _. write_capture-KeepsWire (b'\n' ∷ [])))

  capture_frame_into-KeepsWire :
      (o : Option Bytes) (f : CaptureFrame) → KeepsWire (capture_frame_into env o f)
  unfolding capture_frame_into
  capture_frame_into-KeepsWire none f out = refl
  capture_frame_into-KeepsWire (some old) f out = capture_line-KeepsWire f out

  send_into-IsOnWire :
      (o : Option Bytes) (f : CaptureFrame) (old : Bytes) (out out' : Outputs)
      → o ≡ some old
      → out.wire ≡ some old
      → send_into env o f out ≡ (ok tt, out')
      → IsOnWire env f old out'
  unfolding send_into
  send_into-IsOnWire none f old out out' q h e = absurd (cc)
  send_into-IsOnWire (some x) f old out out' q h e = send-IsOnWire env f old out out' h e

  -- A frame that is emitted without an error is on the uplink.
  pub emit_frame-IsOnWire :
      (f : CaptureFrame) (old : Bytes) (out out' : Outputs)
      → out.wire ≡ some old
      → emit_frame env f out ≡ (ok tt, out')
      → IsOnWire env f old out'
  unfolding emit_frame
  emit_frame-IsOnWire f old out out' h e =
      let c = and_then-eq-ok _ (capture_frame_into env out.capture f out) tt out' e in
      let wire1 : c.middle.wire ≡ some old =
        sym (ap (λ r. r.1.wire) c.first) ∙ capture_frame_into-KeepsWire out.capture f out ∙ h in
      let d = and_then-eq-ok _ (send_into env c.middle.wire f c.middle) tt out' c.then_ in
      let sent = send_into-IsOnWire c.middle.wire f old c.middle d.middle wire1 wire1 d.first in
      record {
        payload = sent.payload;
        encoded = sent.encoded;
        fits = sent.fits;
        written =
            sym (ap (λ r. r.1.wire) d.then_) ∙ print_packet-KeepsWire f d.middle ∙ sent.written;
      }
