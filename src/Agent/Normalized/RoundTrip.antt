-- ===== src/Agent/Normalized/RoundTrip.antt =====
-- A frame capture that is replayed sends its frames again.
use grok.Base.{
  ◌≡◌, refl, sym, ap, ◌∙◌, false, none, some, List, [], ◌∷◌, All, Bytes, Text, is_blank, ok,
}
use grok.Core.{CaptureFrame}
use grok.Agent.Output.{Env, Outputs, and_then, emit_frame}
use grok.Agent.Stream.{emit_list}
use grok.Agent.Stream.Replay.{and_then-cong}
use grok.Agent.Capture.Frames.{emit_all}
use grok.Agent.Normalized.{
  FrameReader, resend_frame, resend_line, resend_lines, replay_normalized_frames,
}
use grok.Agent.Normalized.Captures.{
  AreLinesOf, resend_frame-KeepsCapture, emit_frame-none, emit_list-AllCaptured,
}
use grok.Agent.Normalized.Lines.{IsLine, lines_of, lines_from-lines_of}

-- The text of a frame is one line, which is read back as the frame.
pub record ReadsBack (reader : FrameReader) (line : Bytes) (f : CaptureFrame) : Type 0 where
  pub is_line : IsLine line
  pub text : Text
  pub is_text : reader.from_utf8 line ≡ ok text
  pub not_blank : is_blank text ≡ false
  pub is_frame : reader.from_str text ≡ ok f

-- What `serde_json` writes for these frames is read back as these frames.
abbrev pub AllReadBack : Env → FrameReader → List CaptureFrame → Type 0
AllReadBack env reader fs =
    All (λ f. (line : Bytes) → env.frame_json f ≡ ok line → ReadsBack reader line f) fs

module _ (env : Env) where
  -- Without a frame capture, the emission of frames is what a replay does with them.
  emit_list-none :
      (fs : List CaptureFrame) (out : Outputs)
      → out.capture ≡ none
      → emit_list (resend_frame env) fs out ≡ emit_list (emit_frame env) fs out
  unfolding emit_list
  emit_list-none [] out h = refl
  emit_list-none (f ∷ fs) out h =
      and_then-cong _ _ (resend_frame env f out)
        (λ _. emit_list-none fs _ (resend_frame-KeepsCapture env f out ∙ h))
      ∙ ap (and_then (λ (_ : Unit {0}). emit_list (emit_frame env) fs))
          (sym (emit_frame-none env f out h))

module _ (env : Env) (reader : FrameReader) where
  -- One line, in front of the others.
  resend_line-frame :
      (line : Bytes) (f : CaptureFrame) (lines : List Bytes) (out : Outputs)
      → ReadsBack reader line f
      → resend_lines env reader (line ∷ lines) out
        ≡ and_then (λ (_ : Unit {0}). resend_lines env reader lines) (resend_frame env f out)
  unfolding resend_lines resend_line and_then
  resend_line-frame line f lines out r = rw (r.is_text, r.not_blank, r.is_frame) refl

  resend_lines-frames :
      (lines : List Bytes) (fs : List CaptureFrame) (out : Outputs)
      → AreLinesOf env lines fs
      → AllReadBack env reader fs
      → resend_lines env reader lines out ≡ emit_list (resend_frame env) fs out
  unfolding resend_lines emit_list
  resend_lines-frames [] [] out a b = refl
  resend_lines-frames [] (f ∷ fs) out a b = absurd a
  resend_lines-frames (line ∷ lines) [] out a b = absurd a
  resend_lines-frames (line ∷ lines) (f ∷ fs) out (j, a) (b, bs) =
      resend_line-frame line f lines out (b line j)
      ∙ and_then-cong _ _ (resend_frame env f out) (λ _. resend_lines-frames lines fs _ a bs)

  lines-AllLines :
      (lines : List Bytes) (fs : List CaptureFrame)
      → AreLinesOf env lines fs
      → AllReadBack env reader fs
      → All IsLine lines
  lines-AllLines [] [] a b = tt
  lines-AllLines [] (f ∷ fs) a b = absurd a
  lines-AllLines (line ∷ lines) [] a b = absurd a
  lines-AllLines (line ∷ lines) (f ∷ fs) (j, a) (b, bs) =
      ((b line j).is_line, lines-AllLines lines fs a bs)

  -- If some frames are emitted without an error with a new frame capture, and what `serde_json` writes
  -- for each of them is one line that it reads back as the frame, then replaying the frame capture
  -- that is written does to an uplink and the standard output, with no frame capture, what emitting
  -- those frames does.
  pub replay_normalized_frames-emit_all :
      (fs : List CaptureFrame) (out out' again : Outputs)
      → AllReadBack env reader fs
      → out.capture ≡ some []
      → again.capture ≡ none
      → emit_all env fs out ≡ (ok tt, out')
      → (file : Bytes) × (out'.capture ≡ some file)
        × (replay_normalized_frames env reader file again ≡ emit_all env fs again)
  unfolding replay_normalized_frames emit_all
  replay_normalized_frames-emit_all fs out out' again b h n e =
      let c = emit_list-AllCaptured env fs [] out out' h e in
      (
        lines_of c.lines,
        c.written,
        ap (λ lines. resend_lines env reader lines again)
              (lines_from-lines_of c.lines (lines-AllLines c.lines fs c.are_json b))
            ∙ resend_lines-frames c.lines fs again c.are_json b
            ∙ emit_list-none env fs again n,
      )
