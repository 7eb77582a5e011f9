-- ===== src/Agent/Capture/Frames.antt =====
-- The loop over bytes emits the log frames of the decoded packets, and nothing else.
use mathlib.Core.Path.{fun_ext}
use grok.Base.{
  ℕ, suc, ◌+◌, ◌≡◌, sym, ap, ◌∙◌, Option, none, some, Option-cases, inl, inr, List, [], ◌∷◌, length,
  Bytes, ok, err, arith,
}
use grok.Core.{CaptureFrame, qualcomm_log_code}
use grok.Qualcomm.Hdlc.{Crc, HdlcDecoder, Frame, push, feed, collect}
use grok.Agent.Output.{Env, Outputs, Io, pure, and_then, emit_frame}
use grok.Agent.Stream.{emit_list}
use grok.Agent.Stream.Replay.{and_then_assoc}
use grok.Agent.Capture.{Clock, Session, log_frame, on_packet, on_result, run_bytes}

-- The frames that the results of the decoder stand for: invalid frames and packets that are no
-- log packets are passed over, and the others are numbered on from `sequence`.
unfoldable pub log_frames : Clock → ℕ → List Frame → List CaptureFrame
log_frames clock sequence [] = []
log_frames clock sequence (err e ∷ rest) = log_frames clock sequence rest
log_frames clock sequence (ok packet ∷ rest) = elim (qualcomm_log_code packet) [
  | none ↦ log_frames clock sequence rest
  | some log_code ↦
      log_frame clock (sequence + 1) log_code packet ∷ log_frames clock (sequence + 1) rest
]

unfoldable pub emit_all : Env → List CaptureFrame → Io (Unit {0})
unfolding emit_list
emit_all env = emit_list (emit_frame env)

-- The frames with a packet in front, by its log code.
abbrev add_frame : Clock → ℕ → Option ℕ → Bytes → List Frame → List CaptureFrame
add_frame clock sequence none packet rest = log_frames clock sequence rest
add_frame clock sequence (some log_code) packet rest =
    log_frame clock (sequence + 1) log_code packet ∷ log_frames clock (sequence + 1) rest

log_frames-ok :
    (clock : Clock) (sequence : ℕ) (packet : Bytes) (rest : List Frame)
    → log_frames clock sequence (ok packet ∷ rest)
      ≡ add_frame clock sequence (qualcomm_log_code packet) packet rest
unfolding log_frames
log_frames-ok clock sequence packet rest = elim (Option-cases (qualcomm_log_code packet)) [
  | inl e ↦ rw (e, log_frames)
  | inr (code, e) ↦ rw (e, log_frames)
]

module _ (crc : Crc) (clock : Clock) (env : Env) where
  -- All the frames are emitted, and the session goes on behind them.
  abbrev pub emitted : HdlcDecoder → ℕ → List CaptureFrame → Io Session
  emitted d sequence frames out =
      and_then (λ _. pure (record { hdlc = d; sequence = sequence + length frames }))
        (emit_all env frames out)

  emitted-cons :
      (d : HdlcDecoder) (sequence : ℕ) (f : CaptureFrame) (fs : List CaptureFrame) (out : Outputs)
      → and_then (λ _. emitted d (sequence + 1) fs) (emit_frame env f out)
        ≡ emitted d sequence (f ∷ fs) out
  unfolding emit_all
  emitted-cons d sequence f fs out =
      let count : sequence + 1 + length fs ≡ sequence + suc (length fs) = omega arith in
      ap
        (λ n.
          and_then {A = Unit {0}}
            (λ _ o.
              and_then {A = Unit {0}} (λ _. pure (record { hdlc = d; sequence = n }))
                (emit_all env fs o))
            (emit_frame env f out))
        count
      ∙ sym (
          and_then_assoc (λ (_ : Unit {0}). emit_all env fs)
            (λ _. pure (record { hdlc = d; sequence = sequence + suc (length fs) }))
            (emit_frame env f out))

  on_packet-emitted :
      (code : Option ℕ) (packet : Bytes) (d : HdlcDecoder) (sequence : ℕ) (rest : List Frame)
      (out : Outputs) (k : ℕ → Io Session)
      (ih : (n : ℕ) → k n ≡ emitted d n (log_frames clock n rest))
      → and_then k (on_packet crc clock env code packet sequence out)
        ≡ emitted d sequence (add_frame clock sequence code packet rest) out
  unfolding on_packet
  on_packet-emitted none packet d sequence rest out k ih =
      unfold and_then in ap (λ (m : Io Session). m out) (ih sequence)
  on_packet-emitted (some code) packet d sequence rest out k ih =
      let f = log_frame clock (sequence + 1) code packet in
      and_then_assoc (λ (_ : Unit {0}). pure (sequence + 1)) k (emit_frame env f out)
      ∙ step f
      ∙ emitted-cons d sequence f (log_frames clock (sequence + 1) rest) out
    where
      step :
          (f : CaptureFrame)
          → and_then (λ (_ : Unit {0}) o. and_then k (pure (sequence + 1) o)) (emit_frame env f out)
            ≡ and_then
                (λ (_ : Unit {0}). emitted d (sequence + 1) (log_frames clock (sequence + 1) rest))
                (emit_frame env f out)
      step f =
          unfold and_then in
          ap (λ (m : Io Session). and_then (λ (_ : Unit {0}). m) (emit_frame env f out))
            (ih (sequence + 1))

  on_result-emitted :
      (o : Option Frame) (pushed d : HdlcDecoder) (sequence : ℕ) (rest : List Frame) (out : Outputs)
      (k : ℕ → Io Session) (ih : (n : ℕ) → k n ≡ emitted d n (log_frames clock n rest))
      → and_then k (on_result crc clock env o sequence out)
        ≡ emitted d sequence (log_frames clock sequence (collect (pushed, o) rest)) out
  unfolding on_result collect
  on_result-emitted none pushed d sequence rest out k ih =
      unfold and_then in ap (λ (m : Io Session). m out) (ih sequence)
  on_result-emitted (some (err e)) pushed d sequence rest out k ih =
      unfold and_then log_frames in ap (λ (m : Io Session). m out) (ih sequence)
  on_result-emitted (some (ok packet)) pushed d sequence rest out k ih =
      rw (log_frames-ok clock sequence packet rest)
        (on_packet-emitted (qualcomm_log_code packet) packet d sequence rest out k ih)

  -- The loop over bytes, from any session: it emits the log frames of the results that the decoder
  -- gives for them, in order, and on success goes on behind them.
  pub run_bytes-emitted :
      (bytes : Bytes) (s : Session)
      → run_bytes crc clock env s bytes
        ≡ emitted
            (feed crc s.hdlc bytes).0
            s.sequence
            (log_frames clock s.sequence (feed crc s.hdlc bytes).1)
  unfolding run_bytes feed
  run_bytes-emitted [] s = fun_ext (λ out.
      unfold and_then emit_all log_frames in
      ap (λ n. (ok (record { hdlc = s.hdlc; sequence = n }), out)) same)
    where
      same : s.sequence ≡ s.sequence + 0
      same = omega arith
  run_bytes-emitted (b ∷ bs) s = fun_ext (λ out.
      on_result-emitted (push crc s.hdlc b).1 (push crc s.hdlc b).0
        (feed crc (push crc s.hdlc b).0 bs).0 s.sequence (feed crc (push crc s.hdlc b).0 bs).1 out
        (λ n. run_bytes crc clock env (record { hdlc = (push crc s.hdlc b).0; sequence = n }) bs)
        (λ n. run_bytes-emitted bs (record { hdlc = (push crc s.hdlc b).0; sequence = n })))
