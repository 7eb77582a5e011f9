-- ===== src/Agent/Control/Answered.antt =====
-- A wait for a response that succeeds.
use grok.Base.{
  ℕ, ◌+◌, ◌≡◌, sym, ◌∙◌, Bool-cases, Option-cases, inl, inr, none, some, List, [], ◌∷◌, ◌++◌, leb,
  Bytes, Result, ok,
}
use grok.Qualcomm.Hdlc.{Crc, HdlcDecoder, feed}
use grok.Qualcomm.Hdlc.Encoding.{feed-append}
use grok.Agent.Capture.{ReadEvent, read, interrupted, failed}
use grok.Agent.Stream.{received}
use grok.Agent.Control.{AgentError, scan_bytes, wait_loop}
use grok.Agent.Control.Waiting.{
  first_answer, first_answer-append, scan_bytes-first_answer, scan_bytes-hdlc,
}

module _ (crc : Crc) (expected : ℕ) where
  -- One read, in front of the others, when the wait succeeds.
  read_then_ok :
      (bytes later packet : Bytes) (hdlc : HdlcDecoder) (events rest : List ReadEvent)
      (more : Result AgentError Bytes × List ReadEvent)
      → (more ≡ (ok packet, rest)
          → first_answer expected (feed crc (scan_bytes crc expected hdlc bytes).0 later).1
            ≡ some packet)
      → (elim (scan_bytes crc expected hdlc bytes).1
          as (λ x. Result AgentError Bytes × List ReadEvent) [
            | none ↦ more
            | some found ↦ (ok found, events)
          ])
        ≡ (ok packet, rest)
      → first_answer expected (feed crc hdlc (bytes ++ later)).1 ≡ some packet
  read_then_ok bytes later packet hdlc events rest more k h =
      elim (Option-cases (scan_bytes crc expected hdlc bytes).1) [
        | inl e ↦
            let first = sym (scan_bytes-first_answer crc expected bytes hdlc) ∙ e in
            rw (feed-append crc hdlc bytes later) (
              first_answer-append expected (feed crc hdlc bytes).1 _
              ∙ rw (first, ← scan_bytes-hdlc crc expected bytes hdlc e) (k (rw e at h)))
        | inr (found, e) ↦
            let first = sym (scan_bytes-first_answer crc expected bytes hdlc) ∙ e in
            rw (feed-append crc hdlc bytes later) (
              first_answer-append expected (feed crc hdlc bytes).1 _
              ∙ rw first (ok_packet found packet events rest (rw e at h)))
      ]
    where
      ok_packet :
          (found packet : Bytes) (events rest : List ReadEvent)
          → ◌≡◌ {A = Result AgentError Bytes × List ReadEvent} (ok found, events) (ok packet, rest)
          → some found ≡ some packet
      ok_packet found packet events rest e = cc

  -- A wait that succeeds, whatever the reads are, gives the first answer of the stream.
  pub wait_loop-ok :
      (idle : ℕ) (hdlc : HdlcDecoder) (events rest : List ReadEvent) (packet : Bytes)
      → wait_loop crc expected idle hdlc events ≡ (ok packet, rest)
      → first_answer expected (feed crc hdlc (received events)).1 ≡ some packet
  unfolding wait_loop feed
  wait_loop-ok idle hdlc [] rest packet h = cc
  wait_loop-ok idle hdlc (read [] ∷ events) rest packet h = elim (Bool-cases (leb 5 (idle + 1))) [
    | inl t ↦ cc (rw (wait_loop, t) at h)
    | inr t ↦ wait_loop-ok (idle + 1) hdlc events rest packet (rw (wait_loop, t) at h)
  ]
  wait_loop-ok idle hdlc (read (b ∷ bs) ∷ events) rest packet h =
      read_then_ok (b ∷ bs) (received events) packet hdlc events rest
        (wait_loop crc expected 0 (scan_bytes crc expected hdlc (b ∷ bs)).0 events)
        (wait_loop-ok 0 (scan_bytes crc expected hdlc (b ∷ bs)).0 events rest packet) h
  wait_loop-ok idle hdlc (interrupted ∷ events) rest packet h =
      wait_loop-ok idle hdlc events rest packet h
  wait_loop-ok idle hdlc (failed e ∷ events) rest packet h = cc
