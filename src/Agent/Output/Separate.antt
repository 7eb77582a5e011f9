-- ===== src/Agent/Output/Separate.antt =====
-- What goes to the other outputs does not depend on the raw capture.
use grok.Base.{◌≡◌, refl, ap, ◌∙◌, Option, none, some, [], ◌∷◌, Bytes, Result, ok, err, arith}
use grok.Core.{CaptureFrame}
use grok.Agent.Output.{
  Env, Failure, Outputs, Io, and_then, ◌>>=◌, ◌>>◌, lift, lift_json, write_capture, write_wire,
  write_stdout, send, capture_frame_into, send_into, emit_frame,
}

abbrev pub set_raw : Option Bytes → Outputs → Outputs
set_raw raw out = record out { raw = raw }

-- An action that does the same whatever the raw capture is, and leaves it alone.
abbrev pub IgnoresRaw : {A : Type 0} → Io A → Type 0
IgnoresRaw m =
    (raw : Option Bytes) (out : Outputs) → m (set_raw raw out) ≡ ((m out).0, set_raw raw (m out).1)

pub and_then-IgnoresRaw :
    {A B : Type 0} (f : A → Io B) (r : Result Failure A × Outputs) (raw : Option Bytes)
    → ((a : A) → IgnoresRaw (f a))
    → and_then f (r.0, set_raw raw r.1) ≡ ((and_then f r).0, set_raw raw (and_then f r).1)
unfolding and_then
and_then-IgnoresRaw f (ok a, out) raw h = h a raw out
and_then-IgnoresRaw f (err e, out) raw h = refl

pub >>=-IgnoresRaw :
    {A B : Type 0} (m : Io A) (f : A → Io B)
    → IgnoresRaw m
    → ((a : A) → IgnoresRaw (f a))
    → IgnoresRaw (m >>= f)
>>=-IgnoresRaw m f hm hf raw out =
    ap (and_then f) (hm raw out) ∙ and_then-IgnoresRaw f (m out) raw hf

module _ (env : Env) where
  write_capture-IgnoresRaw : (bytes : Bytes) → IgnoresRaw (write_capture env bytes)
  unfolding write_capture
  write_capture-IgnoresRaw bytes raw out = ground arith

  write_wire-IgnoresRaw : (bytes : Bytes) → IgnoresRaw (write_wire env bytes)
  unfolding write_wire
  write_wire-IgnoresRaw bytes raw out = ground arith

  write_stdout-IgnoresRaw : (bytes : Bytes) → IgnoresRaw (write_stdout env bytes)
  unfolding write_stdout
  write_stdout-IgnoresRaw bytes raw out = ground arith

  send-IgnoresRaw : (f : CaptureFrame) → IgnoresRaw (send env f)
  unfolding send
  send-IgnoresRaw f =
      >>=-IgnoresRaw _ _ (λ raw out. refl)
        (λ payload.
          >>=-IgnoresRaw _ _ (λ raw out. refl)
            (λ len.
              >>=-IgnoresRaw _ _ (write_wire-IgnoresRaw _) (λ _. write_wire-IgnoresRaw payload)))

  capture_line-IgnoresRaw :
      (f : CaptureFrame)
      → IgnoresRaw (do
        text ← lift (lift_json (env.frame_json f))
        write_capture env text
        write_capture env (b'\n' ∷ []))
  capture_line-IgnoresRaw f =
      >>=-IgnoresRaw _ _ (λ raw out. refl)
        (λ text.
          >>=-IgnoresRaw _ _ (write_capture-IgnoresRaw text)
            (λ _. write_capture-IgnoresRaw (b'\n' ∷ [])))

  capture_frame_into-IgnoresRaw :
      (o : Option Bytes) (f : CaptureFrame) → IgnoresRaw (capture_frame_into env o f)
  unfolding capture_frame_into
  capture_frame_into-IgnoresRaw none f raw out = refl
  capture_frame_into-IgnoresRaw (some old) f raw out = capture_line-IgnoresRaw f raw out

  send_into-IgnoresRaw : (o : Option Bytes) (f : CaptureFrame) → IgnoresRaw (send_into env o f)
  unfolding send_into
  send_into-IgnoresRaw none f raw out = refl
  send_into-IgnoresRaw (some old) f raw out = send-IgnoresRaw f raw out

  pub emit_frame-IgnoresRaw : (f : CaptureFrame) → IgnoresRaw (emit_frame env f)
  unfolding emit_frame
  emit_frame-IgnoresRaw f =
      >>=-IgnoresRaw _ _ (λ raw out. capture_frame_into-IgnoresRaw out.capture f raw out)
        (λ _.
          >>=-IgnoresRaw _ _ (λ raw out. send_into-IgnoresRaw out.wire f raw out)
            (λ _. >>=-IgnoresRaw _ _ (λ raw out. refl) (λ line. write_stdout-IgnoresRaw _)))
