-- ===== src/Agent/Output.antt =====
-- crates/6grok-agent/src/main.rs: where the agent's frames go (`emit_frame`, `WireSink::send`; the
-- same text stands in crates/6grok-qcsuper/src/main.rs). A write fails or not as the environment
-- decides from the target, what it holds and what is written; one that fails adds nothing to the target,
-- so that a text or a frame of which the system has taken a part before the error counts as not written.
pub mod Sending
pub mod Quiet
pub mod Separate
pub mod Wired
use Prim.Native.String.{String}
use grok.Base.{
  ℕ, ◌^◌, Option, none, some, [], ◌∷◌, ◌++◌, ltb, if◌then◌else◌, length, Bytes, to_be_u32, Result,
  ok, err,
}
use grok.Core.{CaptureFrame, MessagePack, WireError, encode_wire_frame}

pub data Target : Type 0 where
  raw_file frame_file wire_stream standard_output : Target

pub data Failure : Type 0 where
  io : String → Failure
  json : String → Failure
  encoding : WireError → Failure
  too_long : ℕ → Failure

-- The text of `serde_json` for a frame and for its decoded packet (which the fivegrok parser
-- makes), the codec of the uplink, and the fate of each write.
pub record Env : Type 0 where
  pub frame_json : CaptureFrame → Result String Bytes
  pub decoded_json : CaptureFrame → Result String Bytes
  pub codec : MessagePack
  pub write_error : Target → Bytes → Bytes → Option String

-- What has been written to each target; `none` is a target that the command line left out.
pub record Outputs : Type 0 where
  pub raw : Option Bytes
  pub capture : Option Bytes
  pub wire : Option Bytes
  pub stdout : Bytes

-- A fallible action on the outputs: what it wrote before it failed stays written.
abbrev pub Io : Type 0 → Type 0
Io A = Outputs → Result Failure A × Outputs

abbrev pub pure : {A : Type 0} → A → Io A
pure a out = (ok a, out)

abbrev pub raise : {A : Type 0} → Failure → Io A
raise e out = (err e, out)

-- What follows an action: nothing after a failure.
unfoldable pub and_then :
    {A B : Type 0} → (A → Io B) → Result Failure A × Outputs → Result Failure B × Outputs
and_then f (ok a, out) = f a out
and_then f (err e, out) = (err e, out)

infixl 5 ◌>>=◌ ◌>>◌
abbrev pub ◌>>=◌ : {A B : Type 0} → Io A → (A → Io B) → Io B
◌>>=◌ m f out = and_then f (m out)

abbrev pub ◌>>◌ : {B : Type 0} → Io (Unit {0}) → Io B → Io B
m >> k = m >>= λ _. k

abbrev pub lift : {A : Type 0} → Result Failure A → Io A
lift r out = (r, out)

abbrev pub lift_json : Result String Bytes → Result Failure Bytes
lift_json (ok t) = ok t
lift_json (err e) = err (json e)

abbrev pub lift_wire : Result WireError Bytes → Result Failure Bytes
lift_wire (ok t) = ok t
lift_wire (err e) = err (encoding e)

-- One write: the new contents, or the error.
abbrev pub appended : Option String → Bytes → Bytes → Result Failure Bytes
appended none old new = ok (old ++ new)
appended (some e) old new = err (io e)

module _ (env : Env) where
  abbrev pub write_to : Target → Bytes → Bytes → Result Failure Bytes
  write_to target old new = appended (env.write_error target old new) old new

  -- `file.write_all(&buf[..n])` on the raw capture, if there is one.
  raw_result : Result Failure Bytes → Outputs → Result Failure (Unit {0}) × Outputs
  raw_result (ok t) out = (ok tt, record out { raw = some t })
  raw_result (err e) out = (err e, out)

  raw_into : Option Bytes → Bytes → Io (Unit {0})
  raw_into none bytes out = (ok tt, out)
  raw_into (some old) bytes out = raw_result (write_to raw_file old bytes) out

  unfoldable pub write_raw : Bytes → Io (Unit {0})
  unfolding raw_into raw_result
  write_raw bytes out = raw_into out.raw bytes out

  capture_result : Result Failure Bytes → Outputs → Result Failure (Unit {0}) × Outputs
  capture_result (ok t) out = (ok tt, record out { capture = some t })
  capture_result (err e) out = (err e, out)

  capture_into : Option Bytes → Bytes → Io (Unit {0})
  capture_into none bytes out = (ok tt, out)
  capture_into (some old) bytes out = capture_result (write_to frame_file old bytes) out

  unfoldable pub write_capture : Bytes → Io (Unit {0})
  unfolding capture_into capture_result
  write_capture bytes out = capture_into out.capture bytes out

  wire_result : Result Failure Bytes → Outputs → Result Failure (Unit {0}) × Outputs
  wire_result (ok t) out = (ok tt, record out { wire = some t })
  wire_result (err e) out = (err e, out)

  wire_into : Option Bytes → Bytes → Io (Unit {0})
  wire_into none bytes out = (ok tt, out)
  wire_into (some old) bytes out = wire_result (write_to wire_stream old bytes) out

  unfoldable pub write_wire : Bytes → Io (Unit {0})
  unfolding wire_into wire_result
  write_wire bytes out = wire_into out.wire bytes out

  stdout_result : Result Failure Bytes → Outputs → Result Failure (Unit {0}) × Outputs
  stdout_result (ok t) out = (ok tt, record out { stdout = t })
  stdout_result (err e) out = (err e, out)

  unfoldable pub write_stdout : Bytes → Io (Unit {0})
  unfolding stdout_result
  write_stdout bytes out = stdout_result (write_to standard_output out.stdout bytes) out

  -- `u32::try_from(payload.len())`
  unfoldable pub wire_length : Bytes → Result Failure ℕ
  wire_length payload =
      if ltb (length payload) (2 ^ 32) then ok (length payload) else err (too_long (length payload))

  -- `WireSink::send`
  unfoldable pub send : CaptureFrame → Io (Unit {0})
  unfolding wire_length
  send frame = do
    payload ← lift (lift_wire (encode_wire_frame env.codec frame))
    len ← lift (wire_length payload)
    write_wire (to_be_u32 len)
    write_wire payload

  unfoldable pub capture_frame_into : Option Bytes → CaptureFrame → Io (Unit {0})
  capture_frame_into none frame = pure tt
  capture_frame_into (some old) frame = do
    text ← lift (lift_json (env.frame_json frame))
    write_capture text
    write_capture (b'\n' ∷ [])

  unfoldable pub send_into : Option Bytes → CaptureFrame → Io (Unit {0})
  send_into none frame = pure tt
  send_into (some old) frame = send frame

  unfoldable pub emit_frame : CaptureFrame → Io (Unit {0})
  unfolding capture_frame_into send_into
  emit_frame frame = do
    (λ out. capture_frame_into out.capture frame out)
    (λ out. send_into out.wire frame out)
    line ← lift (lift_json (env.decoded_json frame))
    write_stdout (line ++ (b'\n' ∷ []))
