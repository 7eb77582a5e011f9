-- ===== src/Sdm/Program/Session.antt =====
-- A live SDM session from its command line on.
use Prim.Native.String.{String}
use grok.Base.{
  ℕ, ◌≡◌, refl, sym, ap, ◌∙◌, Bool, true, false, Option, none, List, [], ◌∷◌, ◌++◌, append_assoc,
  append-nil, Bytes, ok, if◌then◌else◌,
}
use grok.Agent.Output.{Env}
use grok.Agent.Capture.{Clock}
use grok.Agent.World.{Machine, World, and_next, on_outputs}
use grok.Agent.World.Opening.{fresh_output, open_outputs-willing}
use grok.Sdm.Init.{SdmProfile, init_packets}
use grok.Sdm.Init.Transaction.{init_packets-decoded}
use grok.Sdm.Command.{
  EnvelopeJson, sdm_start_session, run_stream, write_result, write_device, write_packets,
  generated_then, configure_sdm, prepare, and_write,
}
use grok.Sdm.Program.{CaptureArgs, open_device, run_device, run_sdm_capture}

module _ (write_error : List Bytes → Bytes → Option String)
    (writes : (sent : List Bytes) (bytes : Bytes) → write_error sent bytes ≡ none) where
  write_packets-willing :
      (packets written : List Bytes)
      → write_packets write_error packets written ≡ (none, written ++ packets)
  unfolding write_packets write_device write_result and_write
  write_packets-willing [] written = ap (λ w. (none, w)) (sym (append-nil written))
  write_packets-willing (p ∷ ps) written = rw (writes written p) (
      write_packets-willing ps (written ++ (p ∷ []))
      ∙ ap (λ w. (none, w)) (append_assoc written (p ∷ []) ps))

  -- What a capture writes to the device in front of its stream.
  prepare-willing :
      (passive : Bool) (magic : ℕ) (profile : SdmProfile) (all : Bool) (packets : List Bytes)
      → init_packets magic profile all ≡ ok packets
      → prepare write_error passive magic profile all [] ≡ (none, if passive then [] else packets)
  unfolding prepare configure_sdm generated_then
  prepare-willing true magic profile all packets made = refl
  prepare-willing false magic profile all packets made = rw made (write_packets-willing packets [])

module _ (clock : Clock) (env : Env) (envelope_json : EnvelopeJson) (machine : Machine) where
  -- On a machine on which nothing fails, a capture comes to running the stream loop over all the reads
  -- of the device, with new captures and a new uplink where they are asked for, and has written the
  -- packets of the initialisation to the device before, or nothing at all if it is passive.
  pub run_sdm_capture-session :
      (args : CaptureArgs) (w : World)
      → machine.open_error args.device ≡ none
      → ((path : String) → machine.create_error path ≡ none)
      → ((address : String) → machine.connect_error address ≡ none)
      → ((sent : List Bytes) (bytes : Bytes) → machine.write_error sent bytes ≡ none)
      → (session : World) × (run_sdm_capture clock env envelope_json machine args w
          ≡ on_outputs
              (run_stream clock env envelope_json true
                (machine.incoming args.device)
                sdm_start_session)
              session)
        × (session.outputs ≡ record {
          raw = fresh_output args.raw_capture;
          capture = fresh_output args.frame_capture;
          wire = fresh_output args.server;
          stdout = w.outputs.stdout;
        })
        × ((packets : List Bytes) × (init_packets args.start_magic args.profile args.all_items
              ≡ ok packets)
            × (session.port.sent ≡ (if args.passive then [] else packets)))
  unfolding run_sdm_capture run_device open_device and_next
  run_sdm_capture-session args w opens creates connects writes =
      let (packets, made, decoded) =
        init_packets-decoded args.start_magic args.profile args.all_items in
      let sent : List Bytes = if args.passive then [] else packets in
      let prepared =
        prepare-willing machine.write_error writes args.passive args.start_magic args.profile
          args.all_items packets made in
      let (session, opened, same_port, outputs) =
        open_outputs-willing machine creates connects args.raw_capture args.frame_capture
          args.server
          (record w { port = record { incoming = machine.incoming args.device; sent = sent } }) in
      (
        session,
        rw (opens, prepared, opened, same_port) refl,
        outputs,
        (packets, made, ap (λ p. p.sent) same_port),
      )
