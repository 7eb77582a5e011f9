-- ===== src/Tests/SdmProgram.antt =====
-- A passive SDM capture on a machine on which nothing fails.
use grok.Base.{◌≡◌, refl, true, false, none, some, List, [], Bytes, ok, if◌then◌else◌}
use grok.Agent.World.{World, on_outputs}
use grok.Agent.World.Opening.{fresh_output}
use grok.Sdm.Init.{signaling, init_packets}
use grok.Sdm.Command.{EnvelopeJson, sdm_start_session, run_stream}
use grok.Sdm.Program.{CaptureArgs, run_sdm_capture}
use grok.Sdm.Program.Session.{run_sdm_capture-session}
use grok.Tests.Agent.{env, clock}
use grok.Tests.Command.{machine, world}

abbrev envelope : EnvelopeJson
envelope = λ header frame. ok []

abbrev args : CaptureArgs
args = record {
  device = "/dev/umts_dm0";
  profile = signaling;
  all_items = false;
  passive = true;
  start_magic = 0x41414141;
  raw_capture = some "raw.sdm";
  frame_capture = none;
  server = none;
}

run_sdm_capture-session_example :
    (session : World) × (run_sdm_capture clock env envelope machine args world
      ≡ on_outputs
          (run_stream clock env envelope true (machine.incoming args.device) sdm_start_session)
          session)
    × (session.outputs ≡ record {
      raw = fresh_output args.raw_capture;
      capture = fresh_output args.frame_capture;
      wire = fresh_output args.server;
      stdout = world.outputs.stdout;
    })
    × ((packets : List Bytes) × (init_packets args.start_magic args.profile args.all_items
          ≡ ok packets)
        × (session.port.sent ≡ (if args.passive then [] else packets)))
run_sdm_capture-session_example =
    run_sdm_capture-session clock env envelope machine args world refl (λ path. refl)
      (λ address. refl) (λ sent bytes. refl)
