-- ===== src/Agent/Command/Session.antt =====
-- A live session from its command line on.
use Prim.Native.String.{String}
use grok.Base.{
  ℕ, ◌≡◌, refl, subst, sym, true, false, ◌&&◌, All, none, List, [], IsU16, IsU32, length, Bytes, ok,
}
use grok.Qualcomm.Hdlc.{Crc}
use grok.Agent.Output.{Env}
use grok.Agent.Capture.{Clock, start, ReadEvent, run_qualcomm_stream}
use grok.Agent.Profiles.{in_profiles}
use grok.Agent.Control.{Port}
use grok.Agent.Configure.{is_supported}
use grok.Agent.Configure.Enabled.{IsConfigured}
use grok.Agent.Configure.Complete.{modem_port, configure_qualcomm_logs-accepted}
use grok.Agent.Normalized.{FrameReader}
use grok.Agent.World.{BaudRate, Machine, World, and_next, on_outputs, baud_rate, open_serial}
use grok.Agent.World.Opening.{fresh_output, open_outputs-willing}
use grok.Agent.Command.{
  VendorArg, ensure_qualcomm_serial, SerialArgs, is_empty, configure_if_asked, run_port, run_serial,
}

-- A machine on which nothing fails for a session: the port can be opened and set, files can be
-- created, the service can be reached, and all writes to the port succeed.
pub record IsWilling (machine : Machine) (args : SerialArgs) : Type 0 where
  pub rate : BaudRate
  pub opens : machine.open_error args.port ≡ none
  pub named : baud_rate args.baud ≡ ok rate
  pub sets : machine.set_error args.port rate ≡ none
  pub creates : (path : String) → machine.create_error path ≡ none
  pub connects : (address : String) → machine.connect_error address ≡ none
  pub writes : (sent : List Bytes) (bytes : Bytes) → machine.write_error sent bytes ≡ none

module _ (machine : Machine) (args : SerialArgs) (willing : IsWilling machine args) where
  open_serial-willing :
      (w : World)
      → open_serial machine args.port args.baud w
        ≡ (ok tt, record w { port = record { incoming = machine.incoming args.port; sent = [] } })
  unfolding open_serial and_next
  open_serial-willing w = rw (willing.opens, willing.named, willing.sets)

module _ (crc : Crc) (clock : Clock) (env : Env) (reader : FrameReader) (machine : Machine) where
  -- A session of a Qualcomm modem that names log codes or profiles, on a machine on which nothing
  -- fails, with explicit codes of 16 bits that the modem has: if the modem reports its sixteen ranges
  -- and accepts the masks, then the session is configured as `IsConfigured` says, and comes to
  -- running the stream loop over the reads behind the modem's answers, with new captures and a new
  -- uplink where they are asked for.
  pub run_serial-session :
      (args : SerialArgs) (ranges : List ℕ) (later : List ReadEvent) (w : World)
      → IsWilling machine args
      → args.vendor ≡ VendorArg.qualcomm
      → (is_empty args.logs && is_empty args.profiles) ≡ false
      → machine.incoming args.port
        ≡ (modem_port crc ranges args.logs args.profiles later []).incoming
      → length ranges ≡ 16
      → All IsU32 ranges
      → All IsU16 args.logs
      → All (λ c. is_supported ranges c ≡ true) args.logs
      → (session : World) × (run_serial crc clock env reader machine args w
          ≡ on_outputs (run_qualcomm_stream crc clock env true later start) session)
        × IsConfigured crc ranges args.logs
            (λ code. in_profiles code args.profiles)
            (modem_port crc ranges args.logs args.profiles later [])
            session.port
        × (session.outputs ≡ record {
          raw = fresh_output args.raw_capture;
          capture = fresh_output args.frame_capture;
          wire = fresh_output args.server;
          stdout = w.outputs.stdout;
        })
  unfolding run_serial run_port configure_if_asked ensure_qualcomm_serial and_next
  run_serial-session args ranges later w willing vendor asked reads h16 hr he strict =
      let (after, configured, is_configured) =
        configure_qualcomm_logs-accepted crc machine.write_error willing.writes ranges args.logs
          args.profiles later [] h16 hr he strict in
      let port : Port ReadEvent = record { incoming = later; sent = after } in
      let (session, opened, same_port, outputs) =
        open_outputs-willing machine willing.creates willing.connects args.raw_capture
          args.frame_capture args.server (record w { port = port }) in
      (
        session,
        rw
            (
              vendor,
              open_serial-willing machine args willing w,
              asked,
              reads,
              configured,
              opened,
              same_port,
            )
            refl,
        subst
            (IsConfigured crc ranges args.logs (λ code. in_profiles code args.profiles)
              (modem_port crc ranges args.logs args.profiles later []))
            (sym same_port) is_configured,
        outputs,
      )
