-- ===== src/Agent/Control.antt =====
-- crates/6grok-agent/src/main.rs: the request and response exchange with the modem
-- (`send_diag_packet`, `wait_for_log_config_response`, `query_log_ranges`, `Command::Disable`).
pub mod Waiting
pub mod Answered
use Prim.Native.String.{String}
use grok.Base.{
  ℕ, suc, ◌+◌, Bool, true, false, Option, none, some, List, [], ◌∷◌, ◌++◌, leb, ◌==◌, not,
  if◌then◌else◌, Bytes, Result, ok, err, map_err,
}
use grok.Qualcomm.Hdlc.{Crc, HdlcDecoder, default, Frame, push, encode_hdlc}
use grok.Qualcomm.Mask.{ControlError}
use grok.Qualcomm.LogConfig.{
  LogConfigHeader, parse_log_config_header, parse_id_ranges_response, retrieve_id_ranges_request,
  disable_logging_request,
}
use grok.Agent.Capture.{ReadEvent, read, interrupted, failed}

-- The errors of the exchange, here and in crates/6grok-qcsuper/src/main.rs. `blocked` is no error of
-- the program: it still waits for a read.
pub data AgentError : Type 0 where
  io : String → AgentError
  timed_out : ℕ → AgentError
  control : ControlError → AgentError
  rejected_disable : ℕ → AgentError
  rejected_mask : ℕ → ℕ → AgentError
  explicit_out_of_range : ℕ → ℕ → AgentError
  bridge_closed : AgentError
  blocked : AgentError

-- The port: what its reads will return, and what has been written to it. The reads of the serial
-- port are `ReadEvent`s; the bridge of crates/6grok-qcsuper/src/main.rs has events of its own.
pub record Port (E : Type 0) : Type 0 where
  pub incoming : List E
  pub sent : List Bytes

abbrev pub Exchange : Type 0 → Type 0 → Type 0
Exchange E A = Port E → Result AgentError A × Port E

unfoldable pub and_then :
    {E A B : Type 0}
    → (A → Exchange E B)
    → Result AgentError A × Port E
    → Result AgentError B × Port E
and_then f (ok a, port) = f a port
and_then f (err e, port) = (err e, port)

infixl 5 ◌>>=◌ ◌>>◌
abbrev pub ◌>>=◌ : {E A B : Type 0} → Exchange E A → (A → Exchange E B) → Exchange E B
◌>>=◌ m f port = and_then f (m port)

abbrev pub ◌>>◌ : {E B : Type 0} → Exchange E (Unit {0}) → Exchange E B → Exchange E B
m >> k = m >>= λ _. k

abbrev pub pure : {E A : Type 0} → A → Exchange E A
pure a port = (ok a, port)

abbrev pub raise : {E A : Type 0} → AgentError → Exchange E A
raise e port = (err e, port)

abbrev pub lift : {E A : Type 0} → Result ControlError A → Exchange E A
lift r port = (map_err control r, port)

-- Whether a packet answers the expected operation.
unfoldable pub answers : ℕ → Bytes → Bool
answers expected packet = elim (parse_log_config_header packet) [
  | ok (header, rest) ↦ header.operation == expected
  | err e ↦ false
]

-- What the loop over the bytes of a read does with one result of the decoder.
unfoldable pub answer : ℕ → Option Frame → Option Bytes
answer expected none = none
answer expected (some (err e)) = none
answer expected (some (ok packet)) = if answers expected packet then some packet else none

module _ (crc : Crc) where
  -- The loop over the bytes of a read, up to the first answer.
  unfoldable pub scan_bytes : ℕ → HdlcDecoder → Bytes → HdlcDecoder × Option Bytes
  scan_bytes expected hdlc [] = (hdlc, none)
  scan_bytes expected hdlc (b ∷ bs) =
      let step = push crc hdlc b in
      let rest = scan_bytes expected step.0 bs in
      elim (answer expected step.1) [ some packet ↦ (step.0, some packet) | none ↦ rest ]

  -- The loop over the reads, with the answer and the reads that are left. Five reads in a row
  -- that bring nothing are a timeout; the bytes behind an answer are dropped with the buffer.
  unfoldable pub wait_loop :
      ℕ → ℕ → HdlcDecoder → List ReadEvent → Result AgentError Bytes × List ReadEvent
  wait_loop expected idle hdlc [] = (err blocked, [])
  wait_loop expected idle hdlc (read [] ∷ events) =
      let more = wait_loop expected (idle + 1) hdlc events in
      if leb 5 (idle + 1) then (err (timed_out expected), events) else more
  wait_loop expected idle hdlc (read (b ∷ bs) ∷ events) =
      let scanned = scan_bytes expected hdlc (b ∷ bs) in
      let more = wait_loop expected 0 scanned.0 events in
      elim scanned.1 [ some packet ↦ (ok packet, events) | none ↦ more ]
  wait_loop expected idle hdlc (interrupted ∷ events) = wait_loop expected idle hdlc events
  wait_loop expected idle hdlc (failed e ∷ events) = (err (io e), events)

  unfoldable pub wait_for_log_config_response : ℕ → Exchange ReadEvent Bytes
  wait_for_log_config_response expected port =
      let (result, incoming) = wait_loop expected 0 default port.incoming in
      (result, record port { incoming = incoming })

-- `write_error` says which writes to the port fail, by what was sent before.
module _ (crc : Crc) (write_error : List Bytes → Bytes → Option String) where
  unfoldable pub send_result : {E : Type 0} → Option String → Bytes → Exchange E (Unit {0})
  send_result none bytes port = (ok tt, record port { sent = port.sent ++ (bytes ∷ []) })
  send_result (some e) bytes port = (err (io e), port)

  unfoldable pub send_diag_packet : {E : Type 0} → Bytes → Exchange E (Unit {0})
  unfolding send_result
  send_diag_packet packet port =
      send_result (write_error port.sent (encode_hdlc crc packet)) (encode_hdlc crc packet) port

  -- The exchanges of the commands, over the wait for a response to an operation.
  unfoldable pub query_ranges : {E : Type 0} → (ℕ → Exchange E Bytes) → Exchange E (List ℕ)
  query_ranges wait = do
    send_diag_packet retrieve_id_ranges_request
    response ← wait 1
    lift (parse_id_ranges_response response)

  unfoldable pub query_log_ranges : Exchange ReadEvent (List ℕ)
  unfolding query_ranges
  query_log_ranges = query_ranges (wait_for_log_config_response crc)

  unfoldable pub disable_logging : {E : Type 0} → (ℕ → Exchange E Bytes) → Exchange E (Unit {0})
  disable_logging wait = do
    send_diag_packet disable_logging_request
    response ← wait 0
    (header, rest) ← lift (parse_log_config_header response)
    if header.status == 0 then pure tt else raise (rejected_disable header.status)

  -- `Command::Disable`, behind the opening of the port.
  unfoldable pub disable : Exchange ReadEvent (Unit {0})
  unfolding disable_logging
  disable = disable_logging (wait_for_log_config_response crc)
