-- ===== src/Tests/Datagrams.antt =====
-- A log packet and another one on their way from the modem to Wireshark.
use grok.Base.{
  ◌≡◌, ◌≤◌, ◌<◌, refl, sym, ◌∙◌, subst, false, none, some, List, [], ◌∷◌, ◌++◌, length, Bytes,
  Result, ok, arith,
}
use grok.Core.{CaptureFrame, encode_wire_frame, parser_id, parser_payload, qualcomm_log_code}
use grok.Qualcomm.Hdlc.{validate_diag_frame, push, encode_hdlc}
use grok.Qualcomm.Hdlc.Encoding.{encode_all}
use grok.Agent.Output.{
  Outputs, and_then, send, write_raw, write_wire, write_capture, write_stdout, wire_length,
  send_into, capture_frame_into, emit_frame,
}
use grok.Agent.Stream.{run_loop}
use grok.Agent.Capture.Frames.{log_frames}
use grok.Agent.Capture.{
  start, log_frame, on_packet, on_result, ReadEvent, read, interrupted, ended, received,
  run_qualcomm_stream, run_bytes,
}
use grok.Api.Store.{process_frame}
use grok.Api.Ingest.{max_wire_frame, ingest_client}
use grok.Delivery.{IsAcceptable}
use grok.Delivery.Datagrams.{IsHealthy, Mirrored, log_packets, run-ingest_client}
use grok.Tests.Core.{codec, write_message}
use grok.Tests.Hdlc.{sum_crc}
use grok.Tests.Agent.{env, clock, no_raw, log_packet}
use grok.Tests.Api.{env as service_env, fresh}

abbrev packets : List Bytes
packets = (0x73 ∷ []) ∷ log_packet ∷ []

abbrev stream : List ReadEvent
stream =
    read (0x73 ∷ 0x73 ∷ 0 ∷ 0x7e ∷ 0x10 ∷ 0 ∷ 0 ∷ 0 ∷ 0 ∷ [])
    ∷ interrupted
    ∷ read (0 ∷ 0x34 ∷ 0x12 ∷ 0x56 ∷ 0 ∷ 0x7e ∷ [])
    ∷ []

stream_lem : received stream ≡ encode_all sum_crc packets
unfolding encode_hdlc
stream_lem = refl

abbrev frame : CaptureFrame
frame = log_frame clock 1 0x1234 log_packet

abbrev frame_bytes : Bytes
frame_bytes = 1 ∷ 0 ∷ 1 ∷ 1 ∷ 0x1234 ∷ 0 ∷ 0x34 ∷ 0x12 ∷ log_packet

encode_wire_frame_packet : encode_wire_frame codec frame ≡ ok frame_bytes
unfolding encode_wire_frame write_message parser_id parser_payload
encode_wire_frame_packet = refl

frame-IsAcceptable : IsAcceptable codec frame
frame-IsAcceptable payload e =
    let both : ◌≡◌ {A = Result _ Bytes} (ok frame_bytes) (ok payload) =
      sym encode_wire_frame_packet ∙ e in
    let same : frame_bytes ≡ payload = cc in
    subst (λ p. (0 < length p) × (length p ≤ max_wire_frame)) same (omega arith, omega arith)

healthy : IsHealthy service_env
healthy = record {
  mirroring = refl;
  sends = λ datagrams datagram. refl;
  values = λ d. (5, refl);
  texts = λ d. ("5", refl);
}

abbrev replayed : Outputs
replayed = (run_qualcomm_stream sum_crc clock env false (stream ++ (read [] ∷ [])) start no_raw).1

replay_run :
    run_qualcomm_stream sum_crc clock env false (stream ++ (read [] ∷ [])) start no_raw
    ≡ (ok ended, replayed)
unfolding run_qualcomm_stream run_loop run_bytes and_then write_raw push validate_diag_frame
    on_result on_packet qualcomm_log_code parser_payload emit_frame send write_wire write_capture
    write_stdout wire_length send_into capture_frame_into encode_wire_frame write_message parser_id
replay_run = refl

run-ingest_client_example :
    (bytes : Bytes) × (replayed.wire ≡ some bytes)
    × Mirrored fresh (log_packets packets) (
        ingest_client codec
          (process_frame service_env)
          (record { bytes = bytes; fault = none })
          fresh)
unfolding qualcomm_log_code log_frames
run-ingest_client_example =
    run-ingest_client service_env healthy clock sum_crc env packets stream [] no_raw replayed fresh
      (λ e. cc, (λ e. cc, tt)) tt stream_lem (frame-IsAcceptable, tt) refl refl replay_run
