-- ===== src/Tests/Rerun.antt =====
-- A live session with a log packet, and its replay.
use grok.Base.{◌≡◌, refl, true, false, some, none, List, [], ◌∷◌, ◌++◌, ok}
use grok.Qualcomm.Hdlc.{validate_diag_frame, push}
use grok.Core.{encode_wire_frame, parser_id, parser_payload, qualcomm_log_code}
use grok.Agent.Output.{
  Outputs, and_then, send, write_raw, write_wire, write_capture, write_stdout, wire_length,
  send_into, capture_frame_into, emit_frame,
}
use grok.Agent.Output.Separate.{set_raw}
use grok.Agent.Stream.{run_loop}
use grok.Agent.Capture.{
  start, on_packet, on_result, ReadEvent, read, interrupted, ended, waiting, received,
  run_qualcomm_stream, run_bytes,
}
use grok.Agent.Capture.Rerun.{run-rerun}
use grok.Tests.Core.{write_message}
use grok.Tests.Hdlc.{sum_crc}
use grok.Tests.Agent.{env, clock, no_raw}

-- A log packet with code 0x1234 and its checksum, cut by an interruption and by an idle second.
abbrev live_events : List ReadEvent
live_events =
    read (0x10 ∷ 0 ∷ 0 ∷ 0 ∷ 0 ∷ [])
    ∷ interrupted
    ∷ read []
    ∷ read (0 ∷ 0x34 ∷ 0x12 ∷ 0x56 ∷ 0 ∷ 0x7e ∷ [])
    ∷ []

abbrev again : List ReadEvent
again = read (0x10 ∷ 0 ∷ 0 ∷ 0 ∷ 0 ∷ 0 ∷ 0x34 ∷ 0x12 ∷ 0x56 ∷ []) ∷ read (0 ∷ 0x7e ∷ []) ∷ []

abbrev recording : Outputs
recording = set_raw (some []) no_raw

abbrev recorded : Outputs
recorded = (run_qualcomm_stream sum_crc clock env true live_events start recording).1

live_run :
    run_qualcomm_stream sum_crc clock env true live_events start recording ≡ (ok waiting, recorded)
unfolding run_qualcomm_stream run_loop run_bytes and_then write_raw push validate_diag_frame
    on_result on_packet qualcomm_log_code parser_payload emit_frame send write_wire write_capture
    write_stdout wire_length send_into capture_frame_into encode_wire_frame write_message parser_id
live_run = refl

run-rerun_example :
    (recorded.raw ≡ some (received live_events))
    × (run_qualcomm_stream sum_crc clock env false
          (again ++ (read [] ∷ []))
          start
          (set_raw none recording)
        ≡ (ok ended, set_raw none recorded))
run-rerun_example =
    run-rerun sum_crc clock env live_events again [] waiting recording recorded refl live_run tt
      refl
