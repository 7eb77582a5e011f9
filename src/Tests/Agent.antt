-- ===== src/Tests/Agent.antt =====
-- The agent at concrete inputs.
use grok.Base.{
  to_be_u32, ℕ, ◌≡◌, refl, false, ◌||◌, Option, none, some, List, [], ◌∷◌, ◌++◌, contains, map,
  IsAscending, Bytes, pos, ok, arith,
}
use grok.Qualcomm.Hdlc.{default, feed, push}
use grok.Agent.Output.Sending.{IsOnWire, send-IsOnWire}
use grok.Agent.Output.{send, write_wire, wire_length, write_raw, Env, Outputs, and_then, pure}
use grok.Agent.Stream.{run_loop, received}
use grok.Agent.Capture.{
  Clock, start, on_result, ReadEvent, read, interrupted, ended, waiting, run_qualcomm_stream,
  run_bytes,
}
use grok.Agent.Capture.Frames.{emit_all}
use grok.Agent.Capture.Replay.{stream_frames, run-replay}
use grok.Agent.Profiles.{
  CaptureProfile, signaling, radio, merge_profiles, in_profiles, merge_profiles_union,
}
use grok.Agent.Control.{wait_loop}
use grok.Agent.Control.Waiting.{found, first_answer, wait_loop-first_answer}
use grok.Agent.Records.{
  truncated_payload, mediatek_header, RecordFormat, RecordError, VendorRecord, read_records,
}
use grok.Agent.Records.Streams.{Item, bytes_of, record_of, sink_all, ending}
use grok.Agent.Records.Samsung.{
  SamsungRecord, Finish, cut, finish_bytes, file_bytes, vendor_record, read_records-samsung_file,
}
use grok.Agent.Records.Emission.{
  run_vendor_records, outcome, record_frames, run_vendor_records-emit_all,
}
use grok.Core.{Vendor, parser_id, encode_wire_frame}
use grok.Tests.Core.{codec, write_message, log_frame, log_bytes}
use grok.Tests.Hdlc.{sum_crc}

abbrev pub env : Env
env = record {
  frame_json = λ f. ok (b'f' ∷ []);
  decoded_json = λ f. ok (b'd' ∷ []);
  codec = codec;
  write_error = λ target old new. none;
}

abbrev pub clock : Clock
clock = record { wall = λ n. pos n; mono = λ n. n }

abbrev pub no_raw : Outputs
no_raw = record { raw = none; capture = some []; wire = some []; stdout = [] }

abbrev with_raw : Bytes → Outputs
with_raw old = record { raw = some old; capture = none; wire = none; stdout = [] }

-- A log packet with code 0x1234, cut by the reads, and an interruption.
abbrev pub log_packet : Bytes
log_packet = 0x10 ∷ 0 ∷ 0 ∷ 0 ∷ 0 ∷ 0 ∷ 0x34 ∷ 0x12 ∷ []

abbrev pub events : List ReadEvent
events =
    read (0x10 ∷ 0 ∷ 0 ∷ 0 ∷ 0 ∷ [])
    ∷ interrupted
    ∷ read (0 ∷ 0x34 ∷ 0x12 ∷ 0x56 ∷ 0 ∷ 0x7e ∷ [])
    ∷ []

run-replay_example :
    run_qualcomm_stream sum_crc clock env false (events ++ (read [] ∷ [])) start no_raw
    ≡ and_then
        (λ _. pure ended)
        (emit_all env (stream_frames sum_crc clock env start (received events)) no_raw)
run-replay_example = run-replay sum_crc clock env events [] start no_raw tt refl

run_qualcomm_stream_two_bytes :
    run_qualcomm_stream sum_crc clock env false (read (1 ∷ 2 ∷ []) ∷ []) start (with_raw (9 ∷ []))
    ≡ (ok waiting, with_raw (9 ∷ 1 ∷ 2 ∷ []))
unfolding run_qualcomm_stream run_loop run_bytes and_then write_raw push on_result
run_qualcomm_stream_two_bytes = refl

-- A response to operation 1 behind a read that times out.
abbrev responses : List ReadEvent
responses =
    read [] ∷ read (0x73 ∷ 0 ∷ 0 ∷ 0 ∷ 1 ∷ 0 ∷ 0 ∷ 0 ∷ 0 ∷ 0 ∷ 0 ∷ 0 ∷ 0x74 ∷ 0 ∷ 0x7e ∷ []) ∷ []

wait_loop-first_answer_example :
    (wait_loop sum_crc 1 0 default responses).0
    ≡ found (first_answer 1 (feed sum_crc default (received responses)).1)
wait_loop-first_answer_example =
    wait_loop-first_answer sum_crc 1 0 default responses (omega arith, tt)

abbrev pub profiles : List CaptureProfile
profiles = signaling ∷ radio ∷ []

merge_profiles_union_example :
    IsAscending (merge_profiles (0x4321 ∷ []) profiles)
    × ((code : ℕ)
        → contains code (merge_profiles (0x4321 ∷ []) profiles)
          ≡ (contains code (0x4321 ∷ []) || in_profiles code profiles))
merge_profiles_union_example = merge_profiles_union (0x4321 ∷ []) profiles

abbrev ranges : List ℕ
ranges = 0 ∷ 0xfff ∷ []

abbrev collecting : VendorRecord → List VendorRecord → Option RecordError × List VendorRecord
collecting r records = (none, records ++ (r ∷ []))

-- The records of the source's own tests.
abbrev mediatek_item : Item
mediatek_item = (
  0x01 ∷ 0x1d ∷ 1 ∷ 2 ∷ 3 ∷ 4 ∷ 3 ∷ 0 ∷ 1 ∷ [],
  0x7e ∷ 0x00 ∷ 0x41 ∷ [],
  (Vendor.mediatek, 0x1d01, 3),
)

-- Two records, and behind them one whose payload is cut.
abbrev samsung_record : SamsungRecord
samsung_record = record {
  tag = (0x43, 0x50, 0x49, 0x4d);
  command = 0x2060;
  reserved = (0, 0, 0, 0, 0, 0, 0, 0);
  payload = 0x7e ∷ 0x41 ∷ [];
}

abbrev samsung_records : List (SamsungRecord × ℕ)
samsung_records =
    (samsung_record, 0x2060) ∷ (record samsung_record { command = 0x23ff }, 0x23ff) ∷ []

abbrev cut_record : Finish
cut_record = cut (samsung_record, 0x2060) (0x7e ∷ [])

read_records-samsung_file_example :
    read_records collecting RecordFormat.samsung none
      (record { bytes = file_bytes samsung_records ++ finish_bytes cut_record; fault = none })
      []
    ≡ sink_all collecting (map vendor_record samsung_records) (some truncated_payload) []
read_records-samsung_file_example =
    read_records-samsung_file collecting none samsung_records cut_record []
      (
        (omega arith, omega arith, (refl, omega arith, omega arith)),
        ((omega arith, omega arith, (refl, omega arith, omega arith)), tt),
      )
      ((omega arith, omega arith, (refl, omega arith, omega arith)), omega arith)

abbrev sent_out : Outputs
sent_out = record no_raw { wire = some (to_be_u32 9 ++ log_bytes) }

send-log_frame : send env log_frame no_raw ≡ (ok tt, sent_out)
unfolding send write_wire and_then encode_wire_frame write_message parser_id wire_length
send-log_frame = refl

send-IsOnWire_example : IsOnWire env log_frame [] sent_out
send-IsOnWire_example = send-IsOnWire env log_frame [] no_raw sent_out refl send-log_frame

run_vendor_records-emit_all_example :
    ((run_vendor_records clock env RecordFormat.mediatek none
        (record { bytes = bytes_of (mediatek_item ∷ []) ++ (1 ∷ []); fault = none })
        no_raw).0
      ≡ outcome
          (ending 9 (1 ∷ []))
          (emit_all env (record_frames clock 0 (record_of mediatek_item ∷ [])) no_raw).0)
    × ((run_vendor_records clock env RecordFormat.mediatek none
          (record { bytes = bytes_of (mediatek_item ∷ []) ++ (1 ∷ []); fault = none })
          no_raw).1.1
        ≡ (emit_all env (record_frames clock 0 (record_of mediatek_item ∷ [])) no_raw).1)
run_vendor_records-emit_all_example =
    run_vendor_records-emit_all clock env none (mediatek_item ∷ []) (1 ∷ []) no_raw
      (unfold mediatek_header in ((refl, refl, refl), tt)) (omega arith)
