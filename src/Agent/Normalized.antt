-- ===== src/Agent/Normalized.antt =====
-- crates/6grok-agent/src/main.rs: `replay_normalized_frames`, on the bytes of the file.
pub mod Lines
pub mod Captures
pub mod RoundTrip
use Prim.Native.String.{String}
use grok.Base.{
  ℕ, Bool, true, false, Option, none, some, List, [], ◌∷◌, ◌++◌, ◌==◌, if◌then◌else◌, Bytes, Text,
  is_blank, Result, ok, err,
}
use grok.Core.{CaptureFrame}
use grok.Agent.Output.{
  Env, Failure, io, json, Io, pure, raise, and_then, ◌>>=◌, ◌>>◌, lift, lift_json, write_stdout,
  send_into,
}

-- `str::from_utf8` and `serde_json::from_str` at the type of frames.
pub record FrameReader : Type 0 where
  pub from_utf8 : Bytes → Result String Text
  pub from_str : Text → Result String CaptureFrame

-- A carriage return at the end of a line goes with its newline.
unfoldable pub drop_return : Bytes → Bytes
drop_return [] = []
drop_return (b ∷ []) = if b == b'\r' then [] else b ∷ []
drop_return (b ∷ c ∷ bs) = b ∷ drop_return (c ∷ bs)

-- A last line without a newline.
unfoldable pub last_line : Bytes → List Bytes
last_line [] = []
last_line (b ∷ bs) = (b ∷ bs) ∷ []

-- `BufRead::lines`, where some bytes of a line have been read.
unfoldable pub lines_from : Bytes → Bytes → List Bytes
unfolding drop_return last_line
lines_from line [] = last_line line
lines_from line (b ∷ bs) = elim (b == b'\n') [
  | true ↦ drop_return line ∷ lines_from [] bs
  | false ↦ lines_from (line ++ (b ∷ [])) bs
]

module _ (env : Env) where
  -- What is done with a frame.
  unfoldable pub resend_frame : CaptureFrame → Io (Unit {0})
  resend_frame frame = do
    (λ out. send_into env out.wire frame out)
    line ← lift (lift_json (env.decoded_json frame))
    write_stdout env (line ++ (b'\n' ∷ []))

module _ (env : Env) (reader : FrameReader) where
  abbrev pub lift_frame : Result String CaptureFrame → Result Failure CaptureFrame
  lift_frame (ok f) = ok f
  lift_frame (err e) = err (json e)

  abbrev pub lift_text : Result String Text → Result Failure Text
  lift_text (ok t) = ok t
  lift_text (err e) = err (io e)

  unfoldable pub resend_line : Text → Io (Unit {0})
  unfolding resend_frame
  resend_line text =
      if is_blank text
      then pure tt
      else (lift (lift_frame (reader.from_str text)) >>= λ frame. resend_frame env frame)

  unfoldable pub resend_lines : List Bytes → Io (Unit {0})
  unfolding resend_line
  resend_lines [] = pure tt
  resend_lines (line ∷ lines) = do
    text ← lift (lift_text (reader.from_utf8 line))
    resend_line text
    resend_lines lines

  unfoldable pub replay_normalized_frames : Bytes → Io (Unit {0})
  unfolding lines_from resend_lines
  replay_normalized_frames file = resend_lines (lines_from [] file)
