-- ===== src/Agent/Capture.antt =====
-- crates/6grok-agent/src/main.rs: `run_qualcomm_stream`.
pub mod Frames
pub mod Replay
pub mod Raw
pub mod Rerun
use Prim.Native.String.{String}
use grok.Base.{
  ℕ, ◌+◌, Bool, true, false, Option, none, some, List, [], ◌∷◌, ◌++◌, if◌then◌else◌, Bytes, ℤ,
  Result, ok, err,
}
use grok.Core.{CaptureFrame, qualcomm, parser_payload, qualcomm_log_code}
use grok.Qualcomm.Hdlc.{Crc, HdlcDecoder, default, Frame, push}
pub use grok.Agent.Stream.{
  ReadEvent, read, interrupted, failed, Ending, ended, waiting, received, IsFlowing,
}
use grok.Agent.Stream.{run_loop}
use grok.Agent.Output.{
  Env, Failure, io, Outputs, Io, pure, raise, and_then, ◌>>=◌, ◌>>◌, write_raw, emit_frame,
}

-- `unix_ms()` and `start.elapsed()` when the frame of a sequence number is made.
pub record Clock : Type 0 where
  pub wall : ℕ → ℤ
  pub mono : ℕ → ℕ

pub record Session : Type 0 where
  pub hdlc : HdlcDecoder
  pub sequence : ℕ

abbrev pub start : Session
start = record { hdlc = default; sequence = 0 }

-- The frame of a log packet. The `u64` sequence is taken not to overflow.
abbrev pub log_frame : Clock → ℕ → ℕ → Bytes → CaptureFrame
log_frame clock sequence log_code packet = record {
  sequence = sequence;
  timestamp_wall = clock.wall sequence;
  timestamp_mono = clock.mono sequence;
  vendor = qualcomm;
  log_code = log_code;
  payload = parser_payload log_code packet;
}

module _ (crc : Crc) (clock : Clock) (env : Env) where
  unfoldable pub on_packet : Option ℕ → Bytes → ℕ → Io ℕ
  on_packet none packet sequence = pure sequence
  on_packet (some log_code) packet sequence = do
    emit_frame env (log_frame clock (sequence + 1) log_code packet)
    pure (sequence + 1)

  unfoldable pub on_result : Option Frame → ℕ → Io ℕ
  on_result none sequence = pure sequence
  on_result (some (err e)) sequence = pure sequence
  on_result (some (ok packet)) sequence = on_packet (qualcomm_log_code packet) packet sequence

  -- The loop over the bytes of one read.
  unfoldable pub run_bytes : Session → Bytes → Io Session
  run_bytes s [] = pure s
  run_bytes s (b ∷ bs) = do
    sequence ← on_result (push crc s.hdlc b).1 s.sequence
    run_bytes (record { hdlc = (push crc s.hdlc b).0; sequence = sequence }) bs

  -- The flushes at the end write nothing more, since a `File` holds nothing back.
  unfoldable pub run_qualcomm_stream : Bool → List ReadEvent → Session → Io Ending
  run_qualcomm_stream = run_loop (write_raw env) (run_bytes)
