-- ===== src/Qcsuper/Control/Waiting.antt =====
-- The wait on the bridge finds the first answer before the bridge closes, however the reads cut the
-- stream.
use grok.Base.{ℕ, ◌+◌, ◌<◌, ◌≡◌, refl, List, [], ◌∷◌, ◌++◌, Bytes}
use grok.Qualcomm.Hdlc.{Crc, HdlcDecoder, feed}
use grok.Agent.Control.{bridge_closed, scan_bytes}
use grok.Agent.Control.Waiting.{first_answer, found_or, few_idle, read_then_wait}
use grok.Qcsuper.Control.{BridgeEvent, read, idle_second, interrupted, failed, bridge_loop}

-- No failing read, no end of the stream, and never five seconds in a row without data, `idle` of
-- them being past.
abbrev pub IsOpen : ℕ → List BridgeEvent → Type 0
IsOpen idle [] = Unit
IsOpen idle (read [] ∷ events) = ⊥
IsOpen idle (read (b ∷ bs) ∷ events) = IsOpen 0 events
IsOpen idle (idle_second ∷ events) = (idle < 4) × IsOpen (idle + 1) events
IsOpen idle (interrupted ∷ events) = IsOpen idle events
IsOpen idle (failed e ∷ events) = ⊥

-- The bytes of the reads.
abbrev pub bridge_received : List BridgeEvent → Bytes
bridge_received [] = []
bridge_received (read bytes ∷ events) = bytes ++ bridge_received events
bridge_received (idle_second ∷ events) = bridge_received events
bridge_received (interrupted ∷ events) = bridge_received events
bridge_received (failed e ∷ events) = bridge_received events

module _ (crc : Crc) (expected : ℕ) where
  -- Whatever the reads are up to the one where the bridge closes, as long as none fails and no five
  -- seconds in a row pass without data, the wait gives the first packet of the stream that answers
  -- the operation, and with no such packet it fails because the bridge is closed.
  pub bridge_loop-closed :
      (idle : ℕ) (hdlc : HdlcDecoder) (events rest : List BridgeEvent)
      → IsOpen idle events
      → (bridge_loop crc expected idle hdlc (events ++ (read [] ∷ rest))).0
        ≡ found_or bridge_closed (first_answer expected (feed crc hdlc (bridge_received events)).1)
  unfolding bridge_loop feed
  bridge_loop-closed idle hdlc [] rest h = refl
  bridge_loop-closed idle hdlc (read [] ∷ events) rest h = absurd h
  bridge_loop-closed idle hdlc (read (b ∷ bs) ∷ events) rest h =
      read_then_wait crc expected bridge_closed (b ∷ bs) (bridge_received events) hdlc
        (events ++ (read [] ∷ rest))
        (bridge_loop crc expected 0 (scan_bytes crc expected hdlc (b ∷ bs)).0
          (events ++ (read [] ∷ rest)))
        (bridge_loop-closed 0 (scan_bytes crc expected hdlc (b ∷ bs)).0 events rest h)
  bridge_loop-closed idle hdlc (idle_second ∷ events) rest (few, h) =
      rw (few_idle idle few) (bridge_loop-closed (idle + 1) hdlc events rest h)
  bridge_loop-closed idle hdlc (interrupted ∷ events) rest h =
      bridge_loop-closed idle hdlc events rest h
  bridge_loop-closed idle hdlc (failed e ∷ events) rest h = absurd h
