-- ===== src/Agent/Configure/Outcome.antt =====
-- What `configure_qualcomm_logs` can fail of.
use Prim.Native.String.{String}
use grok.Base.{ℕ, ◌+◌, Bool-cases, inl, inr, leb, Option, List, [], ◌∷◌, All, IsU16, Bytes}
use grok.Qualcomm.Hdlc.{Crc, HdlcDecoder, default}
use grok.Agent.Capture.{ReadEvent, read, interrupted, failed}
use grok.Agent.Profiles.{CaptureProfile, merge_profiles, merge_profiles-IsU16}
use grok.Agent.Control.{Port, wait_loop, wait_for_log_config_response, scan_bytes}
use grok.Agent.Configure.{configure_qualcomm_logs}
use grok.Agent.Configure.Refusals.{NotRefused, scanned-NotRefused, configure-NotRefused}

module _ (crc : Crc) (write_error : List Bytes → Bytes → Option String) where
  wait_loop-NotRefused :
      (expected idle : ℕ) (hdlc : HdlcDecoder) (events : List ReadEvent)
      → NotRefused (wait_loop crc expected idle hdlc events).0
  unfolding wait_loop
  wait_loop-NotRefused expected idle hdlc [] = tt
  wait_loop-NotRefused expected idle hdlc (read [] ∷ events) =
      elim (Bool-cases (leb 5 (idle + 1))) [
        | inl t ↦ rw t tt
        | inr t ↦ rw t (wait_loop-NotRefused expected (idle + 1) hdlc events)
      ]
  wait_loop-NotRefused expected idle hdlc (read (b ∷ bs) ∷ events) =
      scanned-NotRefused (scan_bytes crc expected hdlc (b ∷ bs)).1 events
        (wait_loop crc expected 0 (scan_bytes crc expected hdlc (b ∷ bs)).0 events)
        (wait_loop-NotRefused expected 0 (scan_bytes crc expected hdlc (b ∷ bs)).0 events)
  wait_loop-NotRefused expected idle hdlc (interrupted ∷ events) =
      wait_loop-NotRefused expected idle hdlc events
  wait_loop-NotRefused expected idle hdlc (failed e ∷ events) = tt

  wait_for_log_config_response-NotRefused :
      (operation : ℕ) (port : Port ReadEvent)
      → NotRefused (wait_for_log_config_response crc operation port).0
  unfolding wait_for_log_config_response
  wait_for_log_config_response-NotRefused operation port =
      wait_loop-NotRefused operation 0 default port.incoming

  -- With explicit codes of 16 bits, whatever the modem and the port do, the configuration never fails
  -- because a mask is refused: an equipment ID has four bits, and no item is beyond the modem's last
  -- one. What can fail is the port, the wait, a response, the modem's status, and the check of an
  -- explicit code.
  pub configure_qualcomm_logs-NotRefused :
      (explicit : List ℕ) (profiles : List CaptureProfile) (port : Port ReadEvent)
      → All IsU16 explicit
      → NotRefused (configure_qualcomm_logs crc write_error explicit profiles port).0
  unfolding configure_qualcomm_logs
  configure_qualcomm_logs-NotRefused explicit profiles port he =
      configure-NotRefused crc write_error (wait_for_log_config_response crc)
        wait_for_log_config_response-NotRefused explicit (merge_profiles [] profiles) port he
        (merge_profiles-IsU16 profiles)
