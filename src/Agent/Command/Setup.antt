-- ===== src/Agent/Command/Setup.antt =====
-- A command that fails before its stream starts has not touched the files of earlier captures.
use Prim.Native.String.{String}
use grok.Base.{
  ℕ, ◌≡◌, refl, ◌&&◌, Option, none, some, List, Result, ok, err, map_err, Bool-cases, inl, inr,
  subst,
}
use grok.Qualcomm.Hdlc.{Crc}
use grok.Agent.Output.{Env}
use grok.Agent.Control.{query_log_ranges, disable}
use grok.Agent.Capture.{Clock}
use grok.Agent.Profiles.{CaptureProfile}
use grok.Agent.Records.{RecordError}
use grok.Agent.Normalized.{FrameReader, replay_normalized_frames}
use grok.Agent.World.{
  ProgramError, not_qualcomm, opening, unsupported_baud, exchange, output, records, device, Machine,
  World, Action, and_next, try_call, on_port, on_outputs, baud_rate, open_serial, open_optional,
  connect_optional, open_outputs,
}
use grok.Agent.World.Steps.{steps_keep}
use grok.Agent.Command.{
  VendorArg, ensure_qualcomm_serial, SerialArgs, Command, serial, probe, disable_logs, replay,
  vendor_records, frames, is_empty, recorded, opened, configure_if_asked, run_port, run_serial,
  run_probe, run_disable, run_replay, run_records, run_frames, run_command,
}

-- The errors of what comes before the outputs are opened, by their kinds.
abbrev pub IsSetupError : ProgramError → Type 0
IsSetupError not_qualcomm = Unit
IsSetupError (opening e) = ⊥
IsSetupError (unsupported_baud b) = Unit
IsSetupError (exchange e) = Unit
IsSetupError (output e) = ⊥
IsSetupError (records e) = ⊥
IsSetupError (device e) = Unit

abbrev pub Untouched : World → World → Type 0
Untouched before after =
    (after.created ≡ before.created)
    × (after.connected ≡ before.connected)
    × (after.outputs ≡ before.outputs)

-- An outcome that is no error of the set-up, or that touched nothing.
abbrev IsClean : {A : Type 0} → World → Result ProgramError A × World → Type 0
IsClean before (ok a, after) = Unit
IsClean before (err e, after) = IsSetupError e → Untouched before after

-- An outcome that is no error of the set-up.
abbrev IsLater : {A : Type 0} → Result ProgramError A → Type 0
IsLater (ok a) = Unit
IsLater (err e) = IsSetupError e → ⊥

module _ {A B : Type 0} where
  -- Behind a step that touches nothing.
  quiet_then :
      (before : World) (f : A → Action B) (r : Result ProgramError A × World)
      → Untouched before r.1
      → ((a : A) (w : World) → Untouched before w → IsClean before (f a w))
      → IsClean before (and_next f r)
  unfolding and_next
  quiet_then before f (ok a, w) u k = k a w u
  quiet_then before f (err e, w) u k = λ s. u

  steps_behind :
      (f : A → Action B) (r : Result ProgramError A × World)
      → IsLater r.0
      → ((a : A) (w : World) → IsLater (f a w).0)
      → IsLater (and_next f r).0
  unfolding and_next
  steps_behind f (ok a, w) h k = k a w
  steps_behind f (err e, w) h k = h

-- An outcome that is no error of the set-up is clean.
behind_setup :
    {A : Type 0} (before : World) (r : Result ProgramError A × World)
    → IsLater r.0
    → IsClean before r
behind_setup before (ok a, w) h = tt
behind_setup before (err e, w) h = λ s. absurd (h s)

IsLater-output : {A : Type 0} (r : Result _ A) → IsLater (map_err output r)
IsLater-output (ok a) = tt
IsLater-output (err e) = λ s. s

IsLater-opened : {A : Type 0} (r : Result String A) → IsLater (opened r)
IsLater-opened (ok a) = tt
IsLater-opened (err e) = λ s. s

IsLater-recorded : (o : Option RecordError) → IsLater (recorded o)
IsLater-recorded none = tt
IsLater-recorded (some e) = λ s. s

IsLater-try_call : (o : Option String) (w : World) → IsLater (try_call o w).0
IsLater-try_call none w = tt
IsLater-try_call (some e) w = λ s. s

Untouched-try_call :
    (before : World) (o : Option String) (w : World)
    → Untouched before w
    → Untouched before (try_call o w).1
Untouched-try_call before none w u = u
Untouched-try_call before (some e) w u = u

module _ (machine : Machine) where
  open_optional-IsLater :
      (path : Option String) (w : World) → IsLater (open_optional machine path w).0
  unfolding open_optional
  open_optional-IsLater none w = tt
  open_optional-IsLater (some path) w =
      steps_behind _ (try_call (machine.create_error path) w)
        (IsLater-try_call (machine.create_error path) w) (λ a v. tt)

  connect_optional-IsLater :
      (address : Option String) (w : World) → IsLater (connect_optional machine address w).0
  unfolding connect_optional
  connect_optional-IsLater none w = tt
  connect_optional-IsLater (some address) w =
      steps_behind _ (try_call (machine.connect_error address) w)
        (IsLater-try_call (machine.connect_error address) w) (λ a v. tt)

  open_outputs-IsLater :
      (raw capture server : Option String) (w : World)
      → IsLater (open_outputs machine raw capture server w).0
  unfolding open_outputs
  open_outputs-IsLater raw capture server w =
      steps_behind _ (open_optional machine raw w) (open_optional-IsLater raw w) (λ r v.
        steps_behind _ (open_optional machine capture v) (open_optional-IsLater capture v) (λ c u.
          steps_behind _ (connect_optional machine server u) (connect_optional-IsLater server u)
            (λ s t. tt)))

  -- Opening the port touches none of the files.
  open_serial-Untouched :
      (before : World) (path : String) (baud : ℕ) (w : World)
      → Untouched before w
      → Untouched before (open_serial machine path baud w).1
  unfolding open_serial
  open_serial-Untouched before path baud w u =
      steps_keep (Untouched before) _ (try_call (machine.open_error path) w)
        (Untouched-try_call before (machine.open_error path) w u)
        (λ a v h.
          steps_keep (Untouched before) _ (baud_rate baud, v) h
            (λ rate t g.
              steps_keep (Untouched before) _ (try_call (machine.set_error path rate) t)
                (Untouched-try_call before (machine.set_error path rate) t g) (λ b x k. k)))

module _ (crc : Crc) (clock : Clock) (env : Env) (reader : FrameReader) (machine : Machine) where
  configure_if_asked-Untouched :
      (before : World) (logs : List ℕ) (profiles : List CaptureProfile) (w : World)
      → Untouched before w
      → Untouched before (configure_if_asked crc clock env reader machine logs profiles w).1
  unfolding configure_if_asked
  configure_if_asked-Untouched before logs profiles w u =
      elim (Bool-cases (is_empty logs && is_empty profiles)) [ inl t ↦ rw t u | inr t ↦ rw t u ]

  run_port-IsLater : (w : World) → IsLater (run_port crc clock env reader machine w).0
  unfolding run_port
  run_port-IsLater w = IsLater-output _

  run_serial-IsClean :
      (args : SerialArgs) (w : World) → IsClean w (run_serial crc clock env reader machine args w)
  unfolding run_serial
  run_serial-IsClean args w =
      quiet_then w _ (ensure_qualcomm_serial args.vendor, w) (refl, refl, refl)
        (λ a v u.
          quiet_then w _ (open_serial machine args.port args.baud v)
            (open_serial-Untouched machine w args.port args.baud v u)
            (λ b x h.
              quiet_then w _
                (configure_if_asked crc clock env reader machine args.logs args.profiles x)
                (configure_if_asked-Untouched w args.logs args.profiles x h)
                (λ c y g. behind_setup w _ (
                  steps_behind _
                    (open_outputs machine args.raw_capture args.frame_capture args.server y)
                    (open_outputs-IsLater machine args.raw_capture args.frame_capture args.server y)
                    (λ d z. run_port-IsLater z)))))

  run_replay-IsClean :
      (path : String) (vendor : VendorArg) (capture server : Option String) (w : World)
      → IsClean w (run_replay crc clock env reader machine path vendor capture server w)
  unfolding run_replay
  run_replay-IsClean path vendor capture server w =
      quiet_then w _ (ensure_qualcomm_serial vendor, w) (refl, refl, refl)
        (λ a v u.
          quiet_then w _ (opened (machine.open_capture path), v) u
            (λ events x h. behind_setup w _ (
              steps_behind _ (open_outputs machine none capture server x)
                (open_outputs-IsLater machine none capture server x) (λ b y. IsLater-output _))))

  run_command-IsClean :
      (c : Command) (w : World) → IsClean w (run_command crc clock env reader machine c w)
  unfolding run_command run_probe run_disable run_records run_frames
  run_command-IsClean (serial args) w = run_serial-IsClean args w
  run_command-IsClean (probe path baud) w =
      quiet_then w _ (open_serial machine path baud w)
        (open_serial-Untouched machine w path baud w (refl, refl, refl))
        (λ a v u.
          quiet_then w _ (on_port (query_log_ranges crc machine.write_error) v) u (λ b x h. tt))
  run_command-IsClean (disable_logs path baud) w =
      quiet_then w _ (open_serial machine path baud w)
        (open_serial-Untouched machine w path baud w (refl, refl, refl))
        (λ a v u. quiet_then w _ (on_port (disable crc machine.write_error) v) u (λ b x h. tt))
  run_command-IsClean (replay path vendor capture server) w =
      run_replay-IsClean path vendor capture server w
  run_command-IsClean (vendor_records path format log capture server) w = behind_setup w _ (
      steps_behind _ (open_outputs machine none capture server w)
        (open_outputs-IsLater machine none capture server w)
        (λ a v.
          steps_behind _ (opened (machine.open_records path), v) (IsLater-opened _)
            (λ b x. IsLater-recorded _)))
  run_command-IsClean (frames path server) w = behind_setup w _ (
      steps_behind _ (open_outputs machine none none server w)
        (open_outputs-IsLater machine none none server w)
        (λ a v.
          steps_behind _ (opened (machine.open_frames path), v) (IsLater-opened _)
            (λ b x.
              steps_behind _ (on_outputs (replay_normalized_frames env reader b) x)
                (IsLater-output _) (λ c y. tt))))

  -- Whatever the command is: if it fails because the vendor has no serial framing, because of the
  -- baud rate, or in the exchange with the modem, then no file was created, no address was connected
  -- to, and nothing was written to the outputs.
  pub run_command-Untouched :
      (c : Command) (w after : World) (e : ProgramError)
      → IsSetupError e
      → run_command crc clock env reader machine c w ≡ (err e, after)
      → Untouched w after
  run_command-Untouched c w after e s h = subst (IsClean w) h (run_command-IsClean c w) s
