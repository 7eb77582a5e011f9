-- ===== src/Tests/Command.antt =====
-- Commands on a machine on which nothing fails.
use grok.Base.{◌≡◌, refl, true, none, some, [], ◌∷◌, All, ok, err, arith}
use grok.Agent.Capture.{start, run_qualcomm_stream}
use grok.Agent.Profiles.{in_profiles}
use grok.Agent.Configure.Enabled.{IsConfigured}
use grok.Agent.Configure.Complete.{modem_port}
use grok.Agent.World.{
  b115200, Machine, World, unsupported_baud, on_outputs, open_serial, and_next, baud_rate,
}
use grok.Agent.Command.{
  VendorArg, SerialArgs, Command, serial, probe, run_serial, run_command, ensure_qualcomm_serial,
}
use grok.Agent.Command.Setup.{Untouched, run_command-Untouched}
use grok.Agent.Command.Allowed.{Allowed, run_command-Allowed}
use grok.Agent.World.Opening.{fresh_output}
use grok.Agent.Command.Session.{run_serial-session}
use grok.Tests.Hdlc.{sum_crc}
use grok.Tests.Agent.{env, clock, profiles, no_raw}
use grok.Tests.Configure.{modem_ranges}
use grok.Tests.Normalized.{reader}

abbrev pub machine : Machine
machine = record {
  open_error = λ path. none;
  set_error = λ path rate. none;
  incoming = λ path. (modem_port sum_crc modem_ranges (0x4321 ∷ []) profiles [] []).incoming;
  write_error = λ sent bytes. none;
  open_capture = λ path. ok [];
  open_records = λ path. ok (record { bytes = []; fault = none });
  open_frames = λ path. ok [];
  create_error = λ path. none;
  connect_error = λ address. none;
}

abbrev pub world : World
world = record {
  port = record { incoming = []; sent = [] };
  created = [];
  connected = [];
  outputs = no_raw;
  rows = [];
}

abbrev args : SerialArgs
args = record {
  port = "/dev/ttyUSB0";
  baud = 115200;
  vendor = VendorArg.qualcomm;
  logs = 0x4321 ∷ [];
  profiles = profiles;
  raw_capture = none;
  frame_capture = some "frames.jsonl";
  server = some "10.0.0.2:5566";
}

run_serial-session_example :
    (session : World) × (run_serial sum_crc clock env reader machine args world
      ≡ on_outputs (run_qualcomm_stream sum_crc clock env true [] start) session)
    × IsConfigured sum_crc modem_ranges args.logs
        (λ code. in_profiles code args.profiles)
        (modem_port sum_crc modem_ranges args.logs args.profiles [] [])
        session.port
    × (session.outputs ≡ record {
      raw = fresh_output args.raw_capture;
      capture = fresh_output args.frame_capture;
      wire = fresh_output args.server;
      stdout = world.outputs.stdout;
    })
unfolding baud_rate
run_serial-session_example =
    run_serial-session sum_crc clock env reader machine args modem_ranges [] world
      (record {
        rate = b115200;
        opens = refl;
        named = refl;
        sets = refl;
        creates = λ path. refl;
        connects = λ address. refl;
        writes = λ sent bytes. refl;
      })
      refl refl refl refl (omega arith) (omega arith, tt) (refl, tt)

-- A rate that the port does not know.
abbrev odd_rate : Command
odd_rate = serial (record args { baud = 12345 })

odd_rate_lem :
    run_command sum_crc clock env reader machine odd_rate world
    ≡ (err (unsupported_baud 12345), world)
unfolding run_command open_serial and_next baud_rate ensure_qualcomm_serial
odd_rate_lem = refl

run_command-Untouched_example : Untouched world world
run_command-Untouched_example =
    run_command-Untouched sum_crc clock env reader machine odd_rate world world
      (unsupported_baud 12345) tt odd_rate_lem

run_command-Allowed_example :
    All
      (Allowed sum_crc (probe "/dev/ttyUSB0" 115200))
      (run_command sum_crc clock env reader machine (probe "/dev/ttyUSB0" 115200) world).1.port.sent
run_command-Allowed_example =
    run_command-Allowed sum_crc clock env reader machine (probe "/dev/ttyUSB0" 115200) world refl
