-- ===== src/Agent/Command/Allowed.antt =====
-- What each command writes to the modem.
use Prim.Native.String.{String}
use grok.Base.{
  ℕ, ◌≡◌, refl, subst, sym, false, Bool-cases, inl, inr, ◌⊎◌, ◌&&◌, All, Option, none, some, [],
  Bytes,
}
use grok.Qualcomm.Hdlc.{Crc, encode_hdlc}
use grok.Qualcomm.LogConfig.{retrieve_id_ranges_request, disable_logging_request}
use grok.Agent.Output.{Env}
use grok.Agent.Capture.{Clock}
use grok.Agent.Profiles.{merge_profiles}
use grok.Agent.Control.{query_log_ranges, disable, wait_for_log_config_response}
use grok.Agent.Configure.{configure_qualcomm_logs}
use grok.Agent.Configure.Enabled.{quiet}
use grok.Agent.Normalized.{FrameReader, replay_normalized_frames}
use grok.Agent.World.{
  Machine, World, try_call, on_port, on_outputs, baud_rate, open_serial, open_optional,
  connect_optional, open_outputs,
}
use grok.Agent.World.Steps.{steps_keep, AllSent}
use grok.Agent.Command.{
  ensure_qualcomm_serial, SerialArgs, Command, serial, probe, disable_logs, replay, vendor_records,
  frames, is_empty, opened, configure_if_asked, run_port, run_serial, run_probe, run_disable,
  run_replay, run_records, run_frames, run_command,
}
use grok.Agent.Command.Writes.{
  IsMaskRequest, query_ranges-AllSent, disable_logging-AllSent, configure-AllSent,
}

-- A range query, or a mask request.
abbrev pub IsConfiguring : Crc → Bytes → Type 0
IsConfiguring crc bytes =
    (bytes ≡ encode_hdlc crc retrieve_id_ranges_request)
    ⊎ ((packet : Bytes) × (bytes ≡ encode_hdlc crc packet) × IsMaskRequest packet)

-- What a command may write to the modem: Serial what configures it, if the command line names codes
-- or profiles, Probe the range query, Disable its request, and the others nothing.
abbrev pub Allowed : Crc → Command → Bytes → Type 0
Allowed crc (serial args) bytes =
    ((is_empty args.logs && is_empty args.profiles) ≡ false) × IsConfiguring crc bytes
Allowed crc (probe path baud) bytes = bytes ≡ encode_hdlc crc retrieve_id_ranges_request
Allowed crc (disable_logs path baud) bytes = bytes ≡ encode_hdlc crc disable_logging_request
Allowed crc (replay path vendor capture server) bytes = ⊥
Allowed crc (vendor_records path format log capture server) bytes = ⊥
Allowed crc (frames path server) bytes = ⊥

module _ (P : Bytes → Type 0) where
  Kept : World → Type 0
  Kept w = AllSent P w.port

  try_call-Kept : (o : Option String) (w : World) → Kept w → Kept (try_call o w).1
  unfolding Kept
  try_call-Kept none w h = h
  try_call-Kept (some e) w h = h

  module _ (machine : Machine) where
    open_serial-Kept :
        (path : String) (baud : ℕ) (w : World) → Kept w → Kept (open_serial machine path baud w).1
    unfolding open_serial Kept
    open_serial-Kept path baud w h =
        steps_keep Kept _ (try_call (machine.open_error path) w)
          (try_call-Kept (machine.open_error path) w h)
          (λ a v g.
            steps_keep Kept _ (baud_rate baud, v) g
              (λ rate t k.
                steps_keep Kept _ (try_call (machine.set_error path rate) t)
                  (try_call-Kept (machine.set_error path rate) t k) (λ b x l. tt)))

    open_optional-Kept :
        (path : Option String) (w : World) → Kept w → Kept (open_optional machine path w).1
    unfolding open_optional Kept
    open_optional-Kept none w h = h
    open_optional-Kept (some path) w h =
        steps_keep Kept _ (try_call (machine.create_error path) w)
          (try_call-Kept (machine.create_error path) w h) (λ a v g. g)

    connect_optional-Kept :
        (address : Option String) (w : World) → Kept w → Kept (connect_optional machine address w).1
    unfolding connect_optional Kept
    connect_optional-Kept none w h = h
    connect_optional-Kept (some address) w h =
        steps_keep Kept _ (try_call (machine.connect_error address) w)
          (try_call-Kept (machine.connect_error address) w h) (λ a v g. g)

    open_outputs-Kept :
        (raw capture server : Option String) (w : World)
        → Kept w
        → Kept (open_outputs machine raw capture server w).1
    unfolding open_outputs Kept
    open_outputs-Kept raw capture server w h =
        steps_keep Kept _ (open_optional machine raw w) (open_optional-Kept raw w h) (λ r v g.
          steps_keep Kept _ (open_optional machine capture v) (open_optional-Kept capture v g)
            (λ c u k.
              steps_keep Kept _ (connect_optional machine server u)
                (connect_optional-Kept server u k) (λ s t l. l)))

module _ (crc : Crc) (clock : Clock) (env : Env) (reader : FrameReader) (machine : Machine) where
  configure_if_asked-Kept :
      (args : SerialArgs) (w : World)
      → Kept (Allowed crc (serial args)) w
      → Kept
          (Allowed crc (serial args))
          (configure_if_asked crc clock env reader machine args.logs args.profiles w).1
  unfolding configure_if_asked Kept configure_qualcomm_logs
  configure_if_asked-Kept args w h =
      elim (Bool-cases (is_empty args.logs && is_empty args.profiles)) [
        | inl t ↦ rw t h
        | inr t ↦ rw t (
            configure-AllSent crc machine.write_error (wait_for_log_config_response crc)
              (quiet crc machine.write_error) (Allowed crc (serial args))
              (λ packet m. (t, inr (packet, refl, m))) args.logs (merge_profiles [] args.profiles)
              w.port (t, inl refl) h)
      ]

  run_serial-Kept :
      (args : SerialArgs) (w : World)
      → Kept (Allowed crc (serial args)) w
      → Kept (Allowed crc (serial args)) (run_serial crc clock env reader machine args w).1
  unfolding run_serial run_port Kept
  run_serial-Kept args w h =
      let P = Allowed crc (serial args) in
      steps_keep (Kept P) _ (ensure_qualcomm_serial args.vendor, w) h
        (λ a v g.
          steps_keep (Kept P) _ (open_serial machine args.port args.baud v)
            (open_serial-Kept P machine args.port args.baud v g)
            (λ b x k.
              steps_keep (Kept P) _
                (configure_if_asked crc clock env reader machine args.logs args.profiles x)
                (configure_if_asked-Kept args x k)
                (λ c y l.
                  steps_keep (Kept P) _
                    (open_outputs machine args.raw_capture args.frame_capture args.server y)
                    (open_outputs-Kept P machine args.raw_capture args.frame_capture args.server y
                      l)
                    (λ d z m. m))))

  run_command-Kept :
      (c : Command) (w : World)
      → Kept (Allowed crc c) w
      → Kept (Allowed crc c) (run_command crc clock env reader machine c w).1
  unfolding run_command run_probe run_disable run_replay run_records run_frames Kept
      query_log_ranges disable
  run_command-Kept (serial args) w h = run_serial-Kept args w h
  run_command-Kept (probe path baud) w h =
      let P = Allowed crc (probe path baud) in
      steps_keep (Kept P) _ (open_serial machine path baud w)
        (open_serial-Kept P machine path baud w h)
        (λ a v g.
          steps_keep (Kept P) _ (on_port (query_log_ranges crc machine.write_error) v)
            (query_ranges-AllSent crc machine.write_error (wait_for_log_config_response crc)
              (quiet crc machine.write_error) P v.port refl g)
            (λ b x k. k))
  run_command-Kept (disable_logs path baud) w h =
      let P = Allowed crc (disable_logs path baud) in
      steps_keep (Kept P) _ (open_serial machine path baud w)
        (open_serial-Kept P machine path baud w h)
        (λ a v g.
          steps_keep (Kept P) _ (on_port (disable crc machine.write_error) v)
            (disable_logging-AllSent crc machine.write_error (wait_for_log_config_response crc)
              (quiet crc machine.write_error) P v.port refl g)
            (λ b x k. k))
  run_command-Kept (replay path vendor capture server) w h =
      let P = Allowed crc (replay path vendor capture server) in
      steps_keep (Kept P) _ (ensure_qualcomm_serial vendor, w) h
        (λ a v g.
          steps_keep (Kept P) _ (opened (machine.open_capture path), v) g
            (λ b x k.
              steps_keep (Kept P) _ (open_outputs machine none capture server x)
                (open_outputs-Kept P machine none capture server x k) (λ c y l. l)))
  run_command-Kept (vendor_records path format log capture server) w h =
      let P = Allowed crc (vendor_records path format log capture server) in
      steps_keep (Kept P) _ (open_outputs machine none capture server w)
        (open_outputs-Kept P machine none capture server w h)
        (λ a v g. steps_keep (Kept P) _ (opened (machine.open_records path), v) g (λ b x k. k))
  run_command-Kept (frames path server) w h =
      let P = Allowed crc (frames path server) in
      steps_keep (Kept P) _ (open_outputs machine none none server w)
        (open_outputs-Kept P machine none none server w h)
        (λ a v g.
          steps_keep (Kept P) _ (opened (machine.open_frames path), v) g
            (λ b x k.
              steps_keep (Kept P) _ (on_outputs (replay_normalized_frames env reader b) x) k
                (λ c y l. l)))

  -- Whatever the modem answers and whichever writes fail, a command writes to the modem only what is
  -- its own: Serial range queries and mask requests, and these only if the command line names codes
  -- or profiles, Probe range queries, Disable its request, and the others nothing.
  pub run_command-Allowed :
      (c : Command) (w : World)
      → w.port.sent ≡ []
      → All (Allowed crc c) (run_command crc clock env reader machine c w).1.port.sent
  unfolding Kept
  run_command-Allowed c w h = run_command-Kept c w (subst (All (Allowed crc c)) (sym h) tt)
