-- ===== src/Sdm/Program.antt =====
-- crates/6grok-samsung-sdm/src/main.rs: the commands, from the parsed command line on (`Command`,
-- `main`, `open_device`). The machine and the world are those of the agent's commands: the device is
-- its port, and the attributes of a serial port are not set.
pub mod Session
use Prim.Native.String.{String}
use grok.Base.{ℕ, Bool, true, false, Option, none, some, List, [], Bytes, Result, ok, err, map_err}
use grok.Agent.Output.{Env}
use grok.Agent.Stream.{ReadEvent, Ending, ended}
use grok.Agent.Capture.{Clock}
use grok.Agent.World.{
  ProgramError, opening, device, Machine, World, Action, and_next, ◌>>=◌, ◌>>◌, pure, lift,
  try_call, on_outputs, open_outputs,
}
use grok.Sdm.Init.{SdmProfile}
use grok.Sdm.Command.{EnvelopeJson, sdm_start_session, run_stream, DeviceError, stop, prepare}

pub record CaptureArgs : Type 0 where
  pub device : String
  pub profile : SdmProfile
  pub all_items : Bool
  pub passive : Bool
  pub start_magic : ℕ
  pub raw_capture : Option String
  pub frame_capture : Option String
  pub server : Option String

pub data SdmCommand : Type 0 where
  sdm_capture : CaptureArgs → SdmCommand
  sdm_stop : String → SdmCommand
  sdm_replay : String → Option String → Option String → SdmCommand

abbrev device_result : Option DeviceError → Result ProgramError (Unit {0})
device_result none = ok tt
device_result (some e) = err (device e)

-- A step that writes to the device.
abbrev pub on_device : (List Bytes → Option DeviceError × List Bytes) → Action (Unit {0})
on_device m w = (
  device_result (m w.port.sent).0,
  record w { port = record w.port { sent = (m w.port.sent).1 } },
)

module _ (clock : Clock) (env : Env) (envelope_json : EnvelopeJson) (machine : Machine) where
  unfoldable pub open_device : String → Action (Unit {0})
  open_device path = do
    try_call (machine.open_error path)
    (λ w. (ok tt, record w { port = record { incoming = machine.incoming path; sent = [] } }))

  -- The loop reads the device.
  unfoldable pub run_device : Action Ending
  run_device w =
      on_outputs (run_stream clock env envelope_json true w.port.incoming sdm_start_session) w

  unfoldable pub run_sdm_capture : CaptureArgs → Action Ending
  unfolding open_device run_device
  run_sdm_capture args = do
    open_device args.device
    on_device
        (prepare machine.write_error args.passive args.start_magic args.profile args.all_items)
    open_outputs machine args.raw_capture args.frame_capture args.server
    run_device

  unfoldable pub run_sdm_stop : String → Action Ending
  run_sdm_stop path = do open_device path; on_device (stop machine.write_error); pure ended

  unfoldable pub run_sdm_replay : String → Option String → Option String → Action Ending
  run_sdm_replay path frame_capture server = do
    events ← lift (map_err opening (machine.open_capture path))
    open_outputs machine none frame_capture server
    on_outputs (run_stream clock env envelope_json false events sdm_start_session)

  unfoldable pub run_sdm_command : SdmCommand → Action Ending
  unfolding run_sdm_capture run_sdm_stop run_sdm_replay
  run_sdm_command (sdm_capture args) = run_sdm_capture args
  run_sdm_command (sdm_stop path) = run_sdm_stop path
  run_sdm_command (sdm_replay path frame_capture server) = run_sdm_replay path frame_capture server
