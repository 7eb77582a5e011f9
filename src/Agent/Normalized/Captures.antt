-- ===== src/Agent/Normalized/Captures.antt =====
-- What a frame capture holds: a line for each frame.
use Prim.Native.String.{String}
use grok.Base.{
  ◌≡◌, refl, sym, ap, ◌∙◌, none, some, List, [], ◌∷◌, ◌++◌, append-nil, append_assoc, Bytes, Result,
  ok, err, arith,
}
use grok.Core.{CaptureFrame}
use grok.Agent.Output.{
  Env, Outputs, and_then, lift_json, write_capture, capture_frame_into, emit_frame,
}
use grok.Agent.Output.Sending.{and_then-eq-ok}
use grok.Agent.Output.Quiet.{
  KeepsCapture, >>=-Keeps, write_stdout-KeepsCapture, send_into-KeepsCapture,
}
use grok.Agent.Stream.{emit_list}
use grok.Agent.Normalized.{resend_frame}
use grok.Agent.Normalized.Lines.{lines_of}

-- The lines that stand for the frames.
abbrev pub AreLinesOf : Env → List Bytes → List CaptureFrame → Type 0
AreLinesOf env [] [] = Unit
AreLinesOf env (line ∷ lines) (f ∷ fs) = (env.frame_json f ≡ ok line) × AreLinesOf env lines fs
AreLinesOf env _ _ = ⊥

lift_json-eq-ok : (r : Result String Bytes) (line : Bytes) → lift_json r ≡ ok line → r ≡ ok line
lift_json-eq-ok (ok x) line h = cc
lift_json-eq-ok (err x) line h = cc

module _ (env : Env) where
  write_capture-some :
      (bytes old : Bytes) (out out' : Outputs)
      → out.capture ≡ some old
      → write_capture env bytes out ≡ (ok tt, out')
      → out'.capture ≡ some (old ++ bytes)
  unfolding write_capture
  write_capture-some bytes old out out' h e = ground arith

  pub resend_frame-KeepsCapture : (f : CaptureFrame) → KeepsCapture (resend_frame env f)
  unfolding resend_frame
  resend_frame-KeepsCapture f =
      >>=-Keeps (λ o. o.capture) _ _ (λ out. send_into-KeepsCapture env out.wire f out)
        (λ _.
          >>=-Keeps (λ o. o.capture) _ _ (λ out. refl) (λ line. write_stdout-KeepsCapture env _))

  -- Without a frame capture, the emission of a frame is what a replay does with it.
  pub emit_frame-none :
      (f : CaptureFrame) (out : Outputs)
      → out.capture ≡ none
      → emit_frame env f out ≡ resend_frame env f out
  unfolding emit_frame resend_frame capture_frame_into and_then
  emit_frame-none f out h = rw h refl

  -- The line that an emission adds to the frame capture.
  record Captured (f : CaptureFrame) (old : Bytes) (out : Outputs) : Type 0 where
    line : Bytes
    is_json : env.frame_json f ≡ ok line
    written : out.capture ≡ some (old ++ (line ++ (b'\n' ∷ [])))

  capture_frame_into-Captured :
      (f : CaptureFrame) (old : Bytes) (out out' : Outputs)
      → out.capture ≡ some old
      → capture_frame_into env (some old) f out ≡ (ok tt, out')
      → Captured f old out'
  unfolding capture_frame_into
  capture_frame_into-Captured f old out out' h e =
      let c = and_then-eq-ok _ (lift_json (env.frame_json f), out) tt out' e in
      let w = and_then-eq-ok _ (write_capture env c.value c.middle) tt out' c.then_ in
      let same : c.middle ≡ out = sym (ap (λ t. t.1) c.first) in
      let first =
        write_capture-some c.value old c.middle w.middle (ap (λ o. o.capture) same ∙ h) w.first in
      record {
        line = c.value;
        is_json = lift_json-eq-ok (env.frame_json f) c.value (ap (λ t. t.0) c.first);
        written =
            write_capture-some (b'\n' ∷ []) (old ++ c.value) w.middle out' first w.then_
            ∙ ap some (append_assoc old c.value (b'\n' ∷ []));
      }

  emit_frame-Captured :
      (f : CaptureFrame) (old : Bytes) (out out' : Outputs)
      → out.capture ≡ some old
      → emit_frame env f out ≡ (ok tt, out')
      → Captured f old out'
  unfolding emit_frame resend_frame
  emit_frame-Captured f old out out' h e =
      let c = and_then-eq-ok _ (capture_frame_into env out.capture f out) tt out' e in
      let captured =
        capture_frame_into-Captured f old out c.middle h
          (ap (λ o. capture_frame_into env o f out) (sym h) ∙ c.first) in
      let kept = resend_frame-KeepsCapture f c.middle in
      record {
        line = captured.line;
        is_json = captured.is_json;
        written = sym (ap (λ r. r.1.capture) c.then_) ∙ kept ∙ captured.written;
      }

  -- The lines that a list of emissions adds.
  pub record AllCaptured (fs : List CaptureFrame) (old : Bytes) (out : Outputs) : Type 0 where
    pub lines : List Bytes
    pub are_json : AreLinesOf env lines fs
    pub written : out.capture ≡ some (old ++ lines_of lines)

  pub emit_list-AllCaptured :
      (fs : List CaptureFrame) (old : Bytes) (out out' : Outputs)
      → out.capture ≡ some old
      → emit_list (emit_frame env) fs out ≡ (ok tt, out')
      → AllCaptured fs old out'
  unfolding emit_list
  emit_list-AllCaptured [] old out out' h e = record {
    lines = [];
    are_json = tt;
    written = sym (ap (λ r. r.1.capture) e) ∙ h ∙ ap some (sym (append-nil old));
  }
  emit_list-AllCaptured (f ∷ fs) old out out' h e =
      let c = and_then-eq-ok _ (emit_frame env f out) tt out' e in
      let one = emit_frame-Captured f old out c.middle h c.first in
      let more = emit_list-AllCaptured fs _ c.middle out' one.written c.then_ in
      record {
        lines = one.line ∷ more.lines;
        are_json = (one.is_json, more.are_json);
        written =
            more.written
            ∙ ap some (
                append_assoc old (one.line ++ (b'\n' ∷ [])) (lines_of more.lines)
                ∙ ap (λ l. old ++ l) (append_assoc one.line (b'\n' ∷ []) (lines_of more.lines)));
      }
