-- ===== src/Agent/Control/Waiting.antt =====
-- The wait for a response finds the first answer in the stream, however the reads cut it.
use grok.Base.{
  ℕ, ◌+◌, ◌<◌, ◌≡◌, refl, sym, ap, ◌∙◌, false, Bool-cases, Option-cases, inl, inr, Option, none,
  some, List, [], ◌∷◌, ◌++◌, leb, if◌then◌else◌, Bytes, Result, ok, err, arith,
}
use grok.Qualcomm.Hdlc.{Crc, HdlcDecoder, Frame, push, feed, collect}
use grok.Qualcomm.Hdlc.Encoding.{feed-append}
use grok.Agent.Capture.{ReadEvent, read, interrupted, failed}
use grok.Agent.Stream.{received}
use grok.Agent.Control.{AgentError, blocked, answers, answer, scan_bytes, wait_loop}

-- The first packet among the results that answers.
abbrev pub first_answer : ℕ → List Frame → Option Bytes
first_answer expected [] = none
first_answer expected (err e ∷ rest) = first_answer expected rest
first_answer expected (ok packet ∷ rest) =
    let more = first_answer expected rest in if answers expected packet then some packet else more

-- No failing read, and never five reads in a row that bring nothing, `idle` of them being past.
abbrev pub IsLively : ℕ → List ReadEvent → Type 0
IsLively idle [] = Unit
IsLively idle (read [] ∷ events) = (idle < 4) × IsLively (idle + 1) events
IsLively idle (read (b ∷ bs) ∷ events) = IsLively 0 events
IsLively idle (interrupted ∷ events) = IsLively idle events
IsLively idle (failed e ∷ events) = ⊥

-- One byte of the scan, in front of the others.
scan-first_answer :
    (expected : ℕ) (d : HdlcDecoder) (o : Option Frame) (rest : HdlcDecoder × Option Bytes)
    (fed : List Frame)
    → rest.1 ≡ first_answer expected fed
    → (elim (answer expected o) as (λ x. HdlcDecoder × Option Bytes) [
      | none ↦ rest
      | some packet ↦ (d, some packet)
    ]).1
      ≡ first_answer expected (collect (d, o) fed)
unfolding collect answer
scan-first_answer expected d none rest fed h = h
scan-first_answer expected d (some (err e)) rest fed h = h
scan-first_answer expected d (some (ok packet)) rest fed h =
    elim (Bool-cases (answers expected packet)) [ inl t ↦ rw t | inr t ↦ rw t h ]

pub first_answer-append :
    (expected : ℕ) (xs ys : List Frame)
    → first_answer expected (xs ++ ys) ≡ elim (first_answer expected xs) [
      | some packet ↦ some packet
      | none ↦ first_answer expected ys
    ]
first_answer-append expected [] ys = refl
first_answer-append expected (err e ∷ xs) ys = first_answer-append expected xs ys
first_answer-append expected (ok packet ∷ xs) ys = elim (Bool-cases (answers expected packet)) [
  | inl t ↦ rw t
  | inr t ↦ rw t (first_answer-append expected xs ys)
]

-- One byte of the scan, in front of the others.
scanned :
    (o : Option Bytes) (d : HdlcDecoder) (rest : HdlcDecoder × Option Bytes) (fed : HdlcDecoder)
    → (rest.1 ≡ none → rest.0 ≡ fed)
    → (elim o as (λ x. HdlcDecoder × Option Bytes) [
      | none ↦ rest
      | some packet ↦ (d, some packet)
    ]).1
      ≡ none
    → (elim o as (λ x. HdlcDecoder × Option Bytes) [
      | none ↦ rest
      | some packet ↦ (d, some packet)
    ]).0
      ≡ fed
scanned none d rest fed ih h = ih h
scanned (some packet) d rest fed ih h = ground arith

-- What the wait comes to, where it ends in an error or goes on without an answer.
abbrev pub found_or : AgentError → Option Bytes → Result AgentError Bytes
found_or e (some packet) = ok packet
found_or e none = err e

abbrev pub found : Option Bytes → Result AgentError Bytes
found o = found_or blocked o

pub few_idle : (idle : ℕ) → idle < 4 → leb 5 (idle + 1) ≡ false
few_idle idle h = ground arith

-- One read, in front of the others.
pub one_read :
    {E : Type 0} (o : Option Bytes) (more : Result AgentError Bytes × List E) (events : List E)
    (target : Result AgentError Bytes)
    → (o ≡ none → more.0 ≡ target)
    → (elim o as (λ x. Result AgentError Bytes × List E) [
      | none ↦ more
      | some packet ↦ (ok packet, events)
    ]).0
      ≡ elim o [ some packet ↦ ok packet | none ↦ target ]
one_read none more events target h = h refl
one_read (some packet) more events target h = refl

module _ (crc : Crc) (expected : ℕ) where
  -- The scan of some bytes gives the first answer among their results.
  pub scan_bytes-first_answer :
      (bytes : Bytes) (hdlc : HdlcDecoder)
      → ((scan_bytes crc expected hdlc bytes).1 ≡ first_answer expected (feed crc hdlc bytes).1)
  unfolding scan_bytes feed
  scan_bytes-first_answer [] hdlc = refl
  scan_bytes-first_answer (b ∷ bs) hdlc =
      scan-first_answer expected (push crc hdlc b).0 (push crc hdlc b).1
        (scan_bytes crc expected (push crc hdlc b).0 bs) (feed crc (push crc hdlc b).0 bs).1
        (scan_bytes-first_answer bs (push crc hdlc b).0)

  -- If there is none, it gives the decoder behind them.
  pub scan_bytes-hdlc :
      (bytes : Bytes) (hdlc : HdlcDecoder)
      → (scan_bytes crc expected hdlc bytes).1 ≡ none
      → (scan_bytes crc expected hdlc bytes).0 ≡ (feed crc hdlc bytes).0
  unfolding scan_bytes feed
  scan_bytes-hdlc [] hdlc h = refl
  scan_bytes-hdlc (b ∷ bs) hdlc h =
      scanned (answer expected (push crc hdlc b).1) (push crc hdlc b).0
        (scan_bytes crc expected (push crc hdlc b).0 bs) (feed crc (push crc hdlc b).0 bs).0
        (scan_bytes-hdlc bs (push crc hdlc b).0) h

  found_or-append :
      (e : AgentError) (xs ys : List Frame)
      → found_or e (first_answer expected (xs ++ ys)) ≡ elim (first_answer expected xs) [
        | some packet ↦ ok packet
        | none ↦ found_or e (first_answer expected ys)
      ]
  found_or-append e xs ys = elim (Option-cases (first_answer expected xs)) [
    | inl h ↦ rw (first_answer-append, h)
    | inr (p, h) ↦ rw (first_answer-append, h)
  ]

  -- A read of some bytes, when it is known what the wait comes to behind it: it comes to the first
  -- answer of the bytes and of the stream behind them.
  pub read_then_wait :
      {E : Type 0} (e : AgentError) (bytes later : Bytes) (hdlc : HdlcDecoder) (events : List E)
      (more : Result AgentError Bytes × List E)
      → more.0
        ≡ found_or e
            (first_answer expected (feed crc (scan_bytes crc expected hdlc bytes).0 later).1)
      → (elim (scan_bytes crc expected hdlc bytes).1 as (λ x. Result AgentError Bytes × List E) [
        | none ↦ more
        | some packet ↦ (ok packet, events)
      ]).0
        ≡ found_or e (first_answer expected (feed crc hdlc (bytes ++ later)).1)
  read_then_wait e bytes later hdlc events more ih =
      one_read (scan_bytes crc expected hdlc bytes).1 more events (behind (feed crc hdlc bytes).0)
        (λ h. ih ∙ ap behind (scan_bytes-hdlc bytes hdlc h))
      ∙ ap (λ o. elim o [ some packet ↦ ok packet | none ↦ behind (feed crc hdlc bytes).0 ])
          (scan_bytes-first_answer bytes hdlc)
      ∙ sym (found_or-append e (feed crc hdlc bytes).1 (feed crc (feed crc hdlc bytes).0 later).1)
      ∙ sym (ap (λ r. found_or e (first_answer expected r.1)) (feed-append crc hdlc bytes later))
    where
      behind : HdlcDecoder → Result AgentError Bytes
      behind d = found_or e (first_answer expected (feed crc d later).1)

  -- Whatever the reads are, as long as none fails and no five in a row bring nothing, the wait
  -- gives the first packet of the stream that answers the operation, and with no such packet it
  -- goes on waiting.
  pub wait_loop-first_answer :
      (idle : ℕ) (hdlc : HdlcDecoder) (events : List ReadEvent)
      → IsLively idle events
      → (wait_loop crc expected idle hdlc events).0
        ≡ found (first_answer expected (feed crc hdlc (received events)).1)
  unfolding wait_loop feed
  wait_loop-first_answer idle hdlc [] h = refl
  wait_loop-first_answer idle hdlc (read [] ∷ events) (few, rest) =
      rw (few_idle idle few) (wait_loop-first_answer (idle + 1) hdlc events rest)
  wait_loop-first_answer idle hdlc (read (b ∷ bs) ∷ events) h =
      read_then_wait blocked (b ∷ bs) (received events) hdlc events
        (wait_loop crc expected 0 (scan_bytes crc expected hdlc (b ∷ bs)).0 events)
        (wait_loop-first_answer 0 (scan_bytes crc expected hdlc (b ∷ bs)).0 events h)
  wait_loop-first_answer idle hdlc (interrupted ∷ events) h =
      wait_loop-first_answer idle hdlc events h
  wait_loop-first_answer idle hdlc (failed e ∷ events) h = elim h [ ]
