-- ===== src/Qcsuper/Control.antt =====
-- crates/6grok-qcsuper/src/main.rs: the exchange with the modem over the bridge
-- (`wait_for_log_config_response`, `query_log_ranges`, `configure_logs`, `Command::Disable`). It is the
-- agent's, over a socket in place of a serial port: what its reads return, and so the wait, differ.
pub mod Waiting
pub mod Refusals
use Prim.Native.String.{String}
use grok.Base.{
  ℕ, ◌+◌, Option, none, some, List, [], ◌∷◌, leb, if◌then◌else◌, Bytes, Result, ok, err,
}
use grok.Qualcomm.Hdlc.{Crc, HdlcDecoder, default}
use grok.Agent.Control.{
  AgentError, io, timed_out, bridge_closed, blocked, Port, Exchange, scan_bytes, query_ranges,
  disable_logging,
}
use grok.Agent.Configure.{configure}
use grok.Qcsuper.Profiles.{QcsuperProfile, merge_qcsuper_profiles}

-- `Ok(n)` with its bytes (no bytes for `Ok(0)`, the end of the stream), a second without data
-- (`WouldBlock`, `TimedOut`), `Interrupted`, any other error.
pub data BridgeEvent : Type 0 where
  read : Bytes → BridgeEvent
  idle_second interrupted : BridgeEvent
  failed : String → BridgeEvent

module _ (crc : Crc) where
  -- The loop over the reads, with the answer and the reads that are left. Five seconds in a row
  -- without data are a timeout; an interruption does not break the row.
  unfoldable pub bridge_loop :
      ℕ → ℕ → HdlcDecoder → List BridgeEvent → Result AgentError Bytes × List BridgeEvent
  bridge_loop expected idle hdlc [] = (err blocked, [])
  bridge_loop expected idle hdlc (read [] ∷ events) = (err bridge_closed, events)
  bridge_loop expected idle hdlc (read (b ∷ bs) ∷ events) =
      let scanned = scan_bytes crc expected hdlc (b ∷ bs) in
      let more = bridge_loop expected 0 scanned.0 events in
      elim scanned.1 [ some packet ↦ (ok packet, events) | none ↦ more ]
  bridge_loop expected idle hdlc (idle_second ∷ events) =
      let more = bridge_loop expected (idle + 1) hdlc events in
      if leb 5 (idle + 1) then (err (timed_out expected), events) else more
  bridge_loop expected idle hdlc (interrupted ∷ events) = bridge_loop expected idle hdlc events
  bridge_loop expected idle hdlc (failed e ∷ events) = (err (io e), events)

  unfoldable pub wait_on_bridge : ℕ → Exchange BridgeEvent Bytes
  unfolding bridge_loop
  wait_on_bridge expected port =
      let (result, incoming) = bridge_loop expected 0 default port.incoming in
      (result, record port { incoming = incoming })

module _ (crc : Crc) (write_error : List Bytes → Bytes → Option String) where
  unfoldable pub query_bridge_ranges : Exchange BridgeEvent (List ℕ)
  unfolding query_ranges
  query_bridge_ranges = query_ranges crc write_error (wait_on_bridge crc)

  unfoldable pub disable_on_bridge : Exchange BridgeEvent (Unit {0})
  unfolding disable_logging
  disable_on_bridge = disable_logging crc write_error (wait_on_bridge crc)

  unfoldable pub configure_logs : List ℕ → List QcsuperProfile → Exchange BridgeEvent (Unit {0})
  unfolding configure
  configure_logs explicit profiles =
      configure crc write_error (wait_on_bridge crc) explicit (merge_qcsuper_profiles [] profiles)
