-- ===== src/Agent/Output/Quiet.antt =====
-- What leaves the raw capture alone, and what the frame capture.
use grok.Base.{◌≡◌, refl, ◌∙◌, Option, none, some, [], ◌∷◌, Bytes, Result, ok, err, arith}
use grok.Core.{CaptureFrame}
use grok.Agent.Output.{
  Env, Failure, Outputs, Io, and_then, ◌>>=◌, ◌>>◌, lift, lift_json, write_capture, write_wire,
  write_stdout, send, emit_frame, capture_frame_into, send_into,
}

-- An action that leaves one of the outputs alone.
abbrev pub Keeps : {A : Type 0} → (Outputs → Option Bytes) → Io A → Type 0
Keeps part m = (out : Outputs) → part (m out).1 ≡ part out

abbrev pub KeepsRaw : {A : Type 0} → Io A → Type 0
KeepsRaw m = Keeps (λ out. out.raw) m

abbrev pub KeepsCapture : {A : Type 0} → Io A → Type 0
KeepsCapture m = Keeps (λ out. out.capture) m

module _ (part : Outputs → Option Bytes) where
  and_then-Keeps :
      {A B : Type 0} (f : A → Io B) (r : Result Failure A × Outputs)
      → ((a : A) → Keeps part (f a))
      → part (and_then f r).1 ≡ part r.1
  unfolding and_then
  and_then-Keeps f (ok a, out) h = h a out
  and_then-Keeps f (err e, out) h = refl

  pub >>=-Keeps :
      {A B : Type 0} (m : Io A) (f : A → Io B)
      → Keeps part m
      → ((a : A) → Keeps part (f a))
      → Keeps part (m >>= f)
  >>=-Keeps m f hm hf out = and_then-Keeps f (m out) hf ∙ hm out

pub and_then-KeepsRaw :
    {A B : Type 0} (f : A → Io B) (r : Result Failure A × Outputs)
    → ((a : A) → KeepsRaw (f a))
    → (and_then f r).1.raw ≡ r.1.raw
and_then-KeepsRaw f r h = and_then-Keeps (λ out. out.raw) f r h

pub >>=-KeepsRaw :
    {A B : Type 0} (m : Io A) (f : A → Io B)
    → KeepsRaw m
    → ((a : A) → KeepsRaw (f a))
    → KeepsRaw (m >>= f)
>>=-KeepsRaw m f hm hf = >>=-Keeps (λ out. out.raw) m f hm hf

module _ (env : Env) where
  write_capture-KeepsRaw : (bytes : Bytes) → KeepsRaw (write_capture env bytes)
  unfolding write_capture
  write_capture-KeepsRaw bytes out = ground arith

  write_wire-KeepsRaw : (bytes : Bytes) → KeepsRaw (write_wire env bytes)
  unfolding write_wire
  write_wire-KeepsRaw bytes out = ground arith

  pub write_stdout-KeepsRaw : (bytes : Bytes) → KeepsRaw (write_stdout env bytes)
  unfolding write_stdout
  write_stdout-KeepsRaw bytes out = ground arith

  write_wire-KeepsCapture : (bytes : Bytes) → KeepsCapture (write_wire env bytes)
  unfolding write_wire
  write_wire-KeepsCapture bytes out = ground arith

  pub write_stdout-KeepsCapture : (bytes : Bytes) → KeepsCapture (write_stdout env bytes)
  unfolding write_stdout
  write_stdout-KeepsCapture bytes out = ground arith

  -- A send leaves alone what the two writes to the uplink do.
  send-Keeps :
      (part : Outputs → Option Bytes) (f : CaptureFrame)
      → ((bytes : Bytes) → Keeps part (write_wire env bytes))
      → Keeps part (send env f)
  unfolding send
  send-Keeps part f h =
      >>=-Keeps part _ _ (λ out. refl)
        (λ payload.
          >>=-Keeps part _ _ (λ out. refl) (λ len. >>=-Keeps part _ _ (h _) (λ _. h payload)))

  send-KeepsRaw : (f : CaptureFrame) → KeepsRaw (send env f)
  send-KeepsRaw f = send-Keeps (λ out. out.raw) f write_wire-KeepsRaw

  pub send_into-KeepsCapture :
      (o : Option Bytes) (f : CaptureFrame) → KeepsCapture (send_into env o f)
  unfolding send_into
  send_into-KeepsCapture none f out = refl
  send_into-KeepsCapture (some old) f out =
      send-Keeps (λ o. o.capture) f write_wire-KeepsCapture out

  capture_line-KeepsRaw :
      (f : CaptureFrame)
      → KeepsRaw (do
        text ← lift (lift_json (env.frame_json f))
        write_capture env text
        write_capture env (b'\n' ∷ []))
  capture_line-KeepsRaw f =
      >>=-KeepsRaw _ _ (λ out. refl)
        (λ text.
          >>=-KeepsRaw _ _ (write_capture-KeepsRaw text) (λ _. write_capture-KeepsRaw (b'\n' ∷ [])))

  pub capture_frame_into-KeepsRaw :
      (o : Option Bytes) (f : CaptureFrame) → KeepsRaw (capture_frame_into env o f)
  unfolding capture_frame_into
  capture_frame_into-KeepsRaw none f out = refl
  capture_frame_into-KeepsRaw (some old) f out = capture_line-KeepsRaw f out

  pub send_into-KeepsRaw : (o : Option Bytes) (f : CaptureFrame) → KeepsRaw (send_into env o f)
  unfolding send_into
  send_into-KeepsRaw none f out = refl
  send_into-KeepsRaw (some old) f out = send-KeepsRaw f out

  pub emit_frame-KeepsRaw : (f : CaptureFrame) → KeepsRaw (emit_frame env f)
  unfolding emit_frame
  emit_frame-KeepsRaw f =
      >>=-KeepsRaw _ _ (λ out. capture_frame_into-KeepsRaw out.capture f out)
        (λ _.
          >>=-KeepsRaw _ _ (λ out. send_into-KeepsRaw out.wire f out)
            (λ _. >>=-KeepsRaw _ _ (λ out. refl) (λ line. write_stdout-KeepsRaw _)))
