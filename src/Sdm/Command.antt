-- ===== src/Sdm/Command.antt =====
-- crates/6grok-samsung-sdm/src/main.rs: the SDM collector (`run_stream`, `emit_frame`,
-- `configure_sdm`, `Command::Stop`). Its outputs and their writes are those of the agent.
pub mod Replay
pub mod Device
use Prim.Native.String.{String}
use grok.Base.{
  ℕ, ◌+◌, Bool, true, false, Option, none, some, List, [], ◌∷◌, ◌++◌, if◌then◌else◌, not, Bytes,
  Result, ok, err,
}
use grok.Core.{Vendor, CaptureFrame, parser_payload}
use grok.Sdm.{SdmHeader, SdmFrame, SdmError, synthetic_log_code}
use grok.Sdm.Decoder.{SdmDecoder, SdmResult, default, push}
use grok.Sdm.Init.{SdmProfile, init_packets, stop_packet}
use grok.Agent.Output.{
  Env, Outputs, Io, pure, ◌>>=◌, ◌>>◌, lift, lift_json, write_raw, write_stdout, capture_frame_into,
  send_into,
}
use grok.Agent.Stream.{ReadEvent, Ending, run_loop}
use grok.Agent.Capture.{Clock}

-- The text of the object with the envelope and the decoded packet, by `serde_json`.
abbrev pub EnvelopeJson : Type 0
EnvelopeJson = SdmHeader → CaptureFrame → Result String Bytes

pub record SdmSession : Type 0 where
  pub decoder : SdmDecoder
  pub sequence : ℕ

abbrev pub sdm_start_session : SdmSession
sdm_start_session = record { decoder = default; sequence = 0 }

unfoldable pub sdm_frame : Clock → ℕ → SdmFrame → CaptureFrame
sdm_frame clock sequence sdm = record {
  sequence = sequence;
  timestamp_wall = clock.wall sequence;
  timestamp_mono = clock.mono sequence;
  vendor = Vendor.samsung;
  log_code = synthetic_log_code sdm.header;
  payload = parser_payload (synthetic_log_code sdm.header) sdm.packet;
}

-- What `push` returns; it never runs out of its fuel.
unfoldable pub pushed : SdmDecoder → Bytes → List SdmResult × SdmDecoder
pushed d bytes = elim (push d bytes) [ some found ↦ found | none ↦ ([], d) ]

module _ (env : Env) (envelope_json : EnvelopeJson) where
  unfoldable pub emit_sdm_frame : CaptureFrame × SdmHeader → Io (Unit {0})
  emit_sdm_frame (frame, header) = do
    (λ out. capture_frame_into env out.capture frame out)
    (λ out. send_into env out.wire frame out)
    line ← lift (lift_json (envelope_json header frame))
    write_stdout env (line ++ (b'\n' ∷ []))

module _ (clock : Clock) (env : Env) (envelope_json : EnvelopeJson) where
  -- The loop over the results of the decoder, from a sequence number on.
  unfoldable pub on_results : List SdmResult → ℕ → Io ℕ
  on_results [] sequence = pure sequence
  on_results (err e ∷ results) sequence = on_results results sequence
  on_results (ok sdm ∷ results) sequence = do
    emit_sdm_frame env envelope_json (sdm_frame clock (sequence + 1) sdm, sdm.header)
    on_results results (sequence + 1)

  -- What is done with the bytes of a read.
  unfoldable pub run_read : SdmSession → Bytes → Io SdmSession
  unfolding on_results pushed
  run_read s bytes = do
    sequence ← on_results (pushed s.decoder bytes).0 s.sequence
    pure (record { decoder = (pushed s.decoder bytes).1; sequence = sequence })

  unfoldable pub run_stream : Bool → List ReadEvent → SdmSession → Io Ending
  unfolding run_read
  run_stream = run_loop (write_raw env) run_read

pub data DeviceError : Type 0 where
  sdm : SdmError → DeviceError
  io : String → DeviceError

-- `write_error` says which writes to the device fail, by what was written before.
module _ (write_error : List Bytes → Bytes → Option String) where
  unfoldable pub write_result : Option String → Bytes → List Bytes → Option DeviceError × List Bytes
  write_result none packet written = (none, written ++ (packet ∷ []))
  write_result (some e) packet written = (some (io e), written)

  unfoldable pub write_device : Bytes → List Bytes → Option DeviceError × List Bytes
  unfolding write_result
  write_device packet written = write_result (write_error written packet) packet written

  unfoldable pub and_write :
      Option DeviceError × List Bytes
      → (List Bytes → Option DeviceError × List Bytes)
      → Option DeviceError × List Bytes
  and_write (none, written) k = k written
  and_write (some e, written) k = (some e, written)

  -- The loop of `configure_sdm`.
  unfoldable pub write_packets : List Bytes → List Bytes → Option DeviceError × List Bytes
  unfolding and_write write_device
  write_packets [] written = (none, written)
  write_packets (packet ∷ packets) written =
      and_write (write_device packet written) (λ w. write_packets packets w)

  unfoldable pub generated_then :
      Result SdmError (List Bytes) → List Bytes → Option DeviceError × List Bytes
  unfolding write_packets
  generated_then (err e) written = (some (sdm e), written)
  generated_then (ok packets) written = write_packets packets written

  unfoldable pub configure_sdm :
      ℕ → SdmProfile → Bool → List Bytes → Option DeviceError × List Bytes
  unfolding generated_then
  configure_sdm start_magic profile all_items written =
      generated_then (init_packets start_magic profile all_items) written

  -- `Command::Stop`, behind the opening of the device.
  pub stop_then : Result SdmError Bytes → List Bytes → Option DeviceError × List Bytes
  stop_then (err e) written = (some (sdm e), written)
  stop_then (ok packet) written = write_device packet written

  unfoldable pub stop : List Bytes → Option DeviceError × List Bytes
  unfolding stop_then
  stop written = stop_then stop_packet written

  -- `Command::Capture` up to the stream: `passive` leaves the device as it is.
  unfoldable pub prepare :
      Bool → ℕ → SdmProfile → Bool → List Bytes → Option DeviceError × List Bytes
  unfolding configure_sdm
  prepare passive start_magic profile all_items written =
      if passive then (none, written) else configure_sdm start_magic profile all_items written
