-- ===== src/Agent/World.antt =====
-- crates/6grok-agent/src/main.rs: what the commands open (`open_serial`, `baud_rate`, `open_optional`,
-- `WireSink::connect_optional`). The texts on the standard error are left out, and `flush_optional`,
-- since a `File` holds nothing back.
pub mod Steps
pub mod Opening
use Prim.Native.String.{String}
use grok.Base.{
  ℕ, Option, none, some, List, [], ◌∷◌, ◌++◌, ◌==◌, if◌then◌else◌, Bytes, Result, ok, err, map_err,
}
use grok.Agent.Stream.{ReadEvent}
use grok.Agent.Output.{Failure, Outputs, Io}
use grok.Agent.Control.{AgentError, Port, Exchange}
use grok.Agent.Records.{RecordError, Reader}
use grok.Sdm.Command.{DeviceError}

-- The rates of `nix::sys::termios` that the program names.
pub data BaudRate : Type 0 where
  b9600 b19200 b38400 b57600 b115200 b230400 b460800 b921600 : BaudRate

-- The errors of the commands, here and in crates/6grok-samsung-sdm/src/main.rs.
pub data ProgramError : Type 0 where
  not_qualcomm : ProgramError
  opening : String → ProgramError
  unsupported_baud : ℕ → ProgramError
  exchange : AgentError → ProgramError
  output : Failure → ProgramError
  records : RecordError → ProgramError
  device : DeviceError → ProgramError

-- The operating system: which calls fail, what the reads of a port or a file bring, and which writes
-- to the port fail, by what was written before.
pub record Machine : Type 0 where
  pub open_error : String → Option String
  pub set_error : String → BaudRate → Option String
  pub incoming : String → List ReadEvent
  pub write_error : List Bytes → Bytes → Option String
  pub open_capture : String → Result String (List ReadEvent)
  pub open_records : String → Result String Reader
  pub open_frames : String → Result String Bytes
  pub create_error : String → Option String
  pub connect_error : String → Option String

-- What a run has done: the port as it stands, the files created (what was in them is lost) and the
-- addresses connected to, the outputs, and the rows that Probe printed.
pub record World : Type 0 where
  pub port : Port ReadEvent
  pub created : List String
  pub connected : List String
  pub outputs : Outputs
  pub rows : List (ℕ × ℕ × ℕ)

abbrev pub Action : Type 0 → Type 0
Action A = World → Result ProgramError A × World

unfoldable pub and_next :
    {A B : Type 0} → (A → Action B) → Result ProgramError A × World → Result ProgramError B × World
and_next f (ok a, w) = f a w
and_next f (err e, w) = (err e, w)

infixl 5 ◌>>=◌ ◌>>◌
abbrev pub ◌>>=◌ : {A B : Type 0} → Action A → (A → Action B) → Action B
◌>>=◌ m f w = and_next f (m w)

abbrev pub ◌>>◌ : {B : Type 0} → Action (Unit {0}) → Action B → Action B
m >> k = m >>= λ _. k

abbrev pub pure : {A : Type 0} → A → Action A
pure a w = (ok a, w)

abbrev pub lift : {A : Type 0} → Result ProgramError A → Action A
lift r w = (r, w)

-- A call of the operating system that may fail.
abbrev pub try_call : Option String → Action (Unit {0})
try_call none w = (ok tt, w)
try_call (some e) w = (err (opening e), w)

-- A step of the exchange with the modem, and a step on the outputs.
abbrev pub on_port : {A : Type 0} → Exchange ReadEvent A → Action A
on_port m w = (map_err exchange (m w.port).0, record w { port = (m w.port).1 })

abbrev pub on_outputs : {A : Type 0} → Io A → Action A
on_outputs m w = (map_err output (m w.outputs).0, record w { outputs = (m w.outputs).1 })

unfoldable pub baud_rate : ℕ → Result ProgramError BaudRate
baud_rate baud =
    if baud == 9600
    then ok b9600
    else if baud == 19200
    then ok b19200
    else if baud == 38400
    then ok b38400
    else if baud == 57600
    then ok b57600
    else if baud == 115200
    then ok b115200
    else if baud == 230400
    then ok b230400
    else if baud == 460800
    then ok b460800
    else if baud == 921600
    then ok b921600
    else err (unsupported_baud baud)

module _ (machine : Machine) where
  -- The device is opened first, and its attributes are read; the rate is looked up behind that.
  -- The attributes that are set are the machine's affair.
  unfoldable pub open_serial : String → ℕ → Action (Unit {0})
  open_serial path baud = do
    try_call (machine.open_error path)
    rate ← lift (baud_rate baud)
    try_call (machine.set_error path rate)
    (λ w. (ok tt, record w { port = record { incoming = machine.incoming path; sent = [] } }))

  unfoldable pub open_optional : Option String → Action (Option Bytes)
  open_optional none = pure none
  open_optional (some path) = do
    try_call (machine.create_error path)
    (λ w. (ok (some []), record w { created = w.created ++ (path ∷ []) }))

  unfoldable pub connect_optional : Option String → Action (Option Bytes)
  connect_optional none = pure none
  connect_optional (some address) = do
    try_call (machine.connect_error address)
    (λ w. (ok (some []), record w { connected = w.connected ++ (address ∷ []) }))

  -- The arguments of the stream loops: a raw capture, a frame capture and an uplink, in this order.
  unfoldable pub open_outputs : Option String → Option String → Option String → Action (Unit {0})
  unfolding open_optional connect_optional
  open_outputs raw_capture frame_capture server = do
    raw ← open_optional raw_capture
    capture ← open_optional frame_capture
    wire ← connect_optional server
    (λ w. (
      ok tt,
      record w {
        outputs = record { raw = raw; capture = capture; wire = wire; stdout = w.outputs.stdout };
      },
    ))
