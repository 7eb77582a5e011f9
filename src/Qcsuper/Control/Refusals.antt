-- ===== src/Qcsuper/Control/Refusals.antt =====
-- What `configure_logs` can fail of.
use Prim.Native.String.{String}
use grok.Base.{ℕ, ◌+◌, Bool-cases, inl, inr, leb, Option, List, [], ◌∷◌, All, IsU16, Bytes}
use grok.Qualcomm.Hdlc.{Crc, HdlcDecoder, default}
use grok.Qcsuper.Profiles.{QcsuperProfile, merge_qcsuper_profiles, merge_qcsuper_profiles-IsU16}
use grok.Agent.Control.{Port, scan_bytes}
use grok.Agent.Configure.Refusals.{NotRefused, scanned-NotRefused, configure-NotRefused}
use grok.Qcsuper.Control.{
  BridgeEvent, read, idle_second, interrupted, failed, bridge_loop, wait_on_bridge, configure_logs,
}

module _ (crc : Crc) (write_error : List Bytes → Bytes → Option String) where
  bridge_loop-NotRefused :
      (expected idle : ℕ) (hdlc : HdlcDecoder) (events : List BridgeEvent)
      → NotRefused (bridge_loop crc expected idle hdlc events).0
  unfolding bridge_loop
  bridge_loop-NotRefused expected idle hdlc [] = tt
  bridge_loop-NotRefused expected idle hdlc (read [] ∷ events) = tt
  bridge_loop-NotRefused expected idle hdlc (read (b ∷ bs) ∷ events) =
      scanned-NotRefused (scan_bytes crc expected hdlc (b ∷ bs)).1 events
        (bridge_loop crc expected 0 (scan_bytes crc expected hdlc (b ∷ bs)).0 events)
        (bridge_loop-NotRefused expected 0 (scan_bytes crc expected hdlc (b ∷ bs)).0 events)
  bridge_loop-NotRefused expected idle hdlc (idle_second ∷ events) =
      elim (Bool-cases (leb 5 (idle + 1))) [
        | inl t ↦ rw t tt
        | inr t ↦ rw t (bridge_loop-NotRefused expected (idle + 1) hdlc events)
      ]
  bridge_loop-NotRefused expected idle hdlc (interrupted ∷ events) =
      bridge_loop-NotRefused expected idle hdlc events
  bridge_loop-NotRefused expected idle hdlc (failed e ∷ events) = tt

  wait_on_bridge-NotRefused :
      (operation : ℕ) (port : Port BridgeEvent) → NotRefused (wait_on_bridge crc operation port).0
  unfolding wait_on_bridge
  wait_on_bridge-NotRefused operation port =
      bridge_loop-NotRefused operation 0 default port.incoming

  -- With explicit codes of 16 bits, whatever the modem and the bridge do, QCSuper's configuration never
  -- fails because a mask is refused, as in the agent: an equipment ID has four bits, and no item is
  -- beyond the modem's last one.
  pub configure_logs-NotRefused :
      (explicit : List ℕ) (profiles : List QcsuperProfile) (port : Port BridgeEvent)
      → All IsU16 explicit
      → NotRefused (configure_logs crc write_error explicit profiles port).0
  unfolding configure_logs
  configure_logs-NotRefused explicit profiles port he =
      configure-NotRefused crc write_error (wait_on_bridge crc) wait_on_bridge-NotRefused explicit
        (merge_qcsuper_profiles [] profiles) port he (merge_qcsuper_profiles-IsU16 profiles)
