-- ===== src/Agent/Command.antt =====
-- crates/6grok-agent/src/main.rs: the commands, from the parsed command line on (`Command`, `main`,
-- `ensure_qualcomm_serial`).
pub mod Setup
pub mod Writes
pub mod Allowed
pub mod Session
use Prim.Native.String.{String}
use grok.Base.{
  ℕ, suc, ◌+◌, ◌*◌, ◌%◌, ◌^◌, Option, none, some, List, [], ◌∷◌, ◌++◌, Bool, true, false, ◌&&◌,
  bit_or, bit_and, if◌then◌else◌, Bytes, Result, ok, err, map_err,
}
use grok.Qualcomm.Hdlc.{Crc}
use grok.Agent.Output.{Env}
use grok.Agent.Stream.{Ending, ended}
use grok.Agent.Capture.{Clock, start, run_qualcomm_stream}
use grok.Agent.Profiles.{CaptureProfile}
use grok.Agent.Control.{query_log_ranges, disable}
use grok.Agent.Configure.{configure_qualcomm_logs}
use grok.Agent.Records.{RecordFormat, RecordError}
use grok.Agent.Records.Emission.{Recorder, run_vendor_records}
use grok.Agent.Normalized.{FrameReader, replay_normalized_frames}
use grok.Agent.World.{
  ProgramError, not_qualcomm, opening, records as records_error, Machine, World, Action, and_next,
  ◌>>=◌, ◌>>◌, pure, lift, on_port, on_outputs, open_serial, open_outputs,
}

pub data VendorArg : Type 0 where
  qualcomm mediatek samsung : VendorArg

pub record SerialArgs : Type 0 where
  pub port : String
  pub baud : ℕ
  pub vendor : VendorArg
  pub logs : List ℕ
  pub profiles : List CaptureProfile
  pub raw_capture : Option String
  pub frame_capture : Option String
  pub server : Option String

pub data Command : Type 0 where
  serial : SerialArgs → Command
  probe disable_logs : String → ℕ → Command
  replay : String → VendorArg → Option String → Option String → Command
  vendor_records : String → RecordFormat → Option ℕ → Option String → Option String → Command
  frames : String → Option String → Command

unfoldable pub ensure_qualcomm_serial : VendorArg → Result ProgramError (Unit {0})
ensure_qualcomm_serial VendorArg.qualcomm = ok tt
ensure_qualcomm_serial VendorArg.mediatek = err not_qualcomm
ensure_qualcomm_serial VendorArg.samsung = err not_qualcomm

abbrev pub is_empty : {A : Type 0} → List A → Bool
is_empty [] = true
is_empty (x ∷ xs) = false

-- The rows of the table that Probe prints, from an equipment ID on.
unfoldable pub range_rows : ℕ → List ℕ → List (ℕ × ℕ × ℕ)
range_rows equip [] = []
range_rows equip (last_item ∷ ranges) =
    (equip, last_item, bit_or (equip * 2 ^ 12 % 2 ^ 32) (bit_and last_item 0xfff))
    ∷ range_rows (equip + 1) ranges

-- A file that could not be opened.
abbrev pub opened : {A : Type 0} → Result String A → Result ProgramError A
opened = map_err opening

abbrev pub recorded : Option RecordError → Result ProgramError Ending
recorded none = ok ended
recorded (some e) = err (records_error e)

module _ (crc : Crc) (clock : Clock) (env : Env) (reader : FrameReader) (machine : Machine) where
  -- The masks, if the command line names any.
  unfoldable pub configure_if_asked : List ℕ → List CaptureProfile → Action (Unit {0})
  configure_if_asked logs profiles =
      if is_empty logs && is_empty profiles
      then pure tt
      else on_port (configure_qualcomm_logs crc machine.write_error logs profiles)

  -- The loop reads the port on from where the exchange with the modem left it.
  unfoldable pub run_port : Action Ending
  run_port w = on_outputs (run_qualcomm_stream crc clock env true w.port.incoming start) w

  unfoldable pub run_serial : SerialArgs → Action Ending
  unfolding configure_if_asked run_port
  run_serial args = do
    lift (ensure_qualcomm_serial args.vendor)
    open_serial machine args.port args.baud
    configure_if_asked args.logs args.profiles
    open_outputs machine args.raw_capture args.frame_capture args.server
    run_port

  unfoldable pub run_probe : String → ℕ → Action Ending
  unfolding range_rows
  run_probe path baud = do
    open_serial machine path baud
    ranges ← on_port (query_log_ranges crc machine.write_error)
    (λ w. (ok ended, record w { rows = w.rows ++ range_rows 0 ranges }))

  unfoldable pub run_disable : String → ℕ → Action Ending
  run_disable path baud = do
    open_serial machine path baud
    on_port (disable crc machine.write_error)
    pure ended

  unfoldable pub run_replay : String → VendorArg → Option String → Option String → Action Ending
  run_replay path vendor frame_capture server = do
    lift (ensure_qualcomm_serial vendor)
    events ← lift (opened (machine.open_capture path))
    open_outputs machine none frame_capture server
    on_outputs (run_qualcomm_stream crc clock env false events start)

  -- The outputs are opened in front of the file.
  unfoldable pub run_records :
      String → RecordFormat → Option ℕ → Option String → Option String → Action Ending
  run_records path format log frame_capture server = do
    open_outputs machine none frame_capture server
    file ← lift (opened (machine.open_records path))
    (λ w.
        let (outcome, recorder) = run_vendor_records clock env format log file w.outputs in
        (recorded outcome, record w { outputs = recorder.1 }))

  unfoldable pub run_frames : String → Option String → Action Ending
  run_frames path server = do
    open_outputs machine none none server
    file ← lift (opened (machine.open_frames path))
    on_outputs (replay_normalized_frames env reader file)
    pure ended

  unfoldable pub run_command : Command → Action Ending
  unfolding run_serial run_probe run_disable run_replay run_records run_frames
  run_command (serial args) = run_serial args
  run_command (probe path baud) = run_probe path baud
  run_command (disable_logs path baud) = run_disable path baud
  run_command (replay path vendor frame_capture server) =
      run_replay path vendor frame_capture server
  run_command (vendor_records path format log frame_capture server) =
      run_records path format log frame_capture server
  run_command (frames path server) = run_frames path server
