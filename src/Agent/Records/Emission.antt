-- ===== src/Agent/Records/Emission.antt =====
-- crates/6grok-agent/src/main.rs: `run_vendor_records`, and what it emits of a whole file.
use grok.Base.{
  ℕ, ◌+◌, ◌<◌, ◌≡◌, refl, Option, none, some, List, [], ◌∷◌, ◌++◌, map, length, All, Bytes, Result,
  ok, err,
}
use grok.Core.{CaptureFrame, parser_payload}
use grok.Agent.Output.{Env, Failure, Outputs, and_then, emit_frame}
use grok.Agent.Stream.{emit_list}
use grok.Agent.Capture.{Clock}
use grok.Agent.Capture.Frames.{emit_all}
use grok.Agent.Records.{
  RecordFormat, RecordError, sink_failed, Reader, VendorRecord, and_sink, read_records,
  mtk_header_len, mediatek_header,
}
use grok.Agent.Records.Streams.{
  Item, IsItem, bytes_of, record_of, ending, sink_all, read_records-mediatek,
}

-- The sequence number, and where the frames go.
abbrev pub Recorder : Type 0
Recorder = ℕ × Outputs

unfoldable pub record_frame : Clock → ℕ → VendorRecord → CaptureFrame
record_frame clock sequence r = record {
  sequence = sequence;
  timestamp_wall = clock.wall sequence;
  timestamp_mono = clock.mono sequence;
  vendor = r.vendor;
  log_code = r.log_code;
  payload = parser_payload r.log_code r.packet;
}

-- The frames of records, numbered behind `sequence`.
abbrev pub record_frames : Clock → ℕ → List VendorRecord → List CaptureFrame
record_frames clock sequence [] = []
record_frames clock sequence (r ∷ rs) =
    record_frame clock (sequence + 1) r ∷ record_frames clock (sequence + 1) rs

-- What a run that emits frames comes to, as the outcome of the records.
abbrev pub outcome : Option RecordError → Result Failure (Unit {0}) → Option RecordError
outcome last (ok x) = last
outcome last (err e) = some (sink_failed e)

module _ (clock : Clock) (env : Env) where
  emitted : ℕ → Result Failure (Unit {0}) × Outputs → Option RecordError × Recorder
  emitted sequence (ok x, out) = (none, (sequence, out))
  emitted sequence (err e, out) = (some (sink_failed e), (sequence, out))

  -- The closure that `run_vendor_records` passes to `read_records`.
  unfoldable pub record_sink : VendorRecord → Recorder → Option RecordError × Recorder
  unfolding emitted record_frame
  record_sink r (sequence, out) =
      emitted (sequence + 1) (emit_frame env (record_frame clock (sequence + 1) r) out)

  unfoldable pub run_vendor_records :
      RecordFormat → Option ℕ → Reader → Outputs → Option RecordError × Recorder
  run_vendor_records format fixed reader out = read_records record_sink format fixed reader (0, out)

  one_record :
      (rs : List VendorRecord) (last : Option RecordError) (n : ℕ)
      (r : Result Failure (Unit {0}) × Outputs)
      → ((out : Outputs)
          → ((sink_all record_sink rs last (n, out)).0
              ≡ outcome last (emit_all env (record_frames clock n rs) out).0)
            × ((sink_all record_sink rs last (n, out)).1.1
                ≡ (emit_all env (record_frames clock n rs) out).1))
      → ((and_sink record_sink (emitted n r) (λ t. sink_all record_sink rs last t)).0
          ≡ outcome last (and_then (λ _. emit_all env (record_frames clock n rs)) r).0)
        × ((and_sink record_sink (emitted n r) (λ t. sink_all record_sink rs last t)).1.1
            ≡ (and_then (λ _. emit_all env (record_frames clock n rs)) r).1)
  unfolding and_sink and_then emitted
  one_record rs last n (ok x, out) h = h out
  one_record rs last n (err e, out) h = (refl, refl)

  sink_all-emit_all :
      (rs : List VendorRecord) (last : Option RecordError) (n : ℕ) (out : Outputs)
      → ((sink_all record_sink rs last (n, out)).0
          ≡ outcome last (emit_all env (record_frames clock n rs) out).0)
        × ((sink_all record_sink rs last (n, out)).1.1
            ≡ (emit_all env (record_frames clock n rs) out).1)
  unfolding emit_all emit_list record_sink
  sink_all-emit_all [] last n out = (refl, refl)
  sink_all-emit_all (r ∷ rs) last n out =
      one_record rs last (n + 1) (emit_frame env (record_frame clock (n + 1) r) out)
        (λ o. sink_all-emit_all rs last (n + 1) o)

  -- A MediaTek file of whole records, and less than a header of bytes behind them: the outputs are
  -- those of emitting the frames of the records, numbered from 1, and the outcome is the first
  -- failure of these; if there is none, that of the bytes behind: a truncated header, or the end.
  pub run_vendor_records-emit_all :
      (fixed : Option ℕ) (items : List Item) (tail : Bytes) (out : Outputs)
      → All (IsItem mtk_header_len mediatek_header) items
      → length tail < mtk_header_len
      → ((run_vendor_records RecordFormat.mediatek fixed
            (record { bytes = bytes_of items ++ tail; fault = none })
            out).0
          ≡ outcome
              (ending mtk_header_len tail)
              (emit_all env (record_frames clock 0 (map record_of items)) out).0)
        × ((run_vendor_records RecordFormat.mediatek fixed
              (record { bytes = bytes_of items ++ tail; fault = none })
              out).1.1
            ≡ (emit_all env (record_frames clock 0 (map record_of items)) out).1)
  unfolding run_vendor_records
  run_vendor_records-emit_all fixed items tail out hi ht =
      rw (read_records-mediatek record_sink fixed items tail (0, out) hi ht)
        (sink_all-emit_all (map record_of items) (ending mtk_header_len tail) 0 out)
