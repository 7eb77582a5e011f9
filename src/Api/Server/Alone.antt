-- ===== src/Api/Server/Alone.antt =====
-- A task that takes its turns alone does what `ingest_client` does.
use Prim.Native.String.{String}
use grok.Base.{
  ℕ, zero, suc, ◌*◌, ◌<◌, ◌≡◌, refl, sym, ap, ◌∙◌, inl, inr, Option, none, some, length, Result, ok,
  err, arith,
}
use grok.Core.{CaptureFrame, MessagePack}
use grok.Api.Store.{Decoded, IngestError, Env, Service, mirror, stored, after_mirror, process_frame}
use grok.Api.Ingest.{Connection, and_process, ingest_loop, ingest_client}
use grok.Api.Server.Reading.{next_frame-cases}
use grok.Api.Server.{Task, reading, mirroring, closed, mirrored, recorded, advance}

-- What `ingest_client` leaves, as a task at its end.
abbrev pub closed_with : {V : Type 0} → Option IngestError × Service V → Task × Service V
closed_with r = (closed r.0, r.1)

module _ {V : Type 0} (codec : MessagePack) (env : Env V) where
  -- Some turns of a task, with no others between them.
  abbrev pub run_alone : ℕ → Task × Service V → Task × Service V
  run_alone zero r = r
  run_alone (suc n) r = run_alone n (advance codec env r.0 r.1)

  run_alone-closed :
      (n : ℕ) (e : Option IngestError) (s : Service V) → run_alone n (closed e, s) ≡ (closed e, s)
  unfolding advance
  run_alone-closed zero e s = refl
  run_alone-closed (suc n) e s = run_alone-closed n e s

  -- The task behind `process_frame`.
  abbrev behind_frame : Connection → Option IngestError × Service V → Task × Service V
  behind_frame c (some e, s) = (closed (some e), s)
  behind_frame c (none, s) = (reading c, s)

  -- Two turns behind the mirror are the rest of `process_frame`.
  stored-turns :
      (n : ℕ) (c : Connection) (d : Decoded) (v : Result String V) (text : Result String String)
      (s : Service V)
      → run_alone (suc n) (recorded codec env c d v text s)
        ≡ run_alone n (behind_frame c (stored env d v text s))
  unfolding stored recorded advance
  stored-turns n c d (err e) text s = refl
  stored-turns n c d (ok v) (err e) s = refl
  stored-turns n c d (ok v) (ok text) s = refl

  mirrored-turns :
      (n : ℕ) (f : CaptureFrame) (c : Connection) (r : Option IngestError × Service V)
      → run_alone (suc (suc n)) (mirrored codec env f c r)
        ≡ run_alone n (behind_frame c (after_mirror env f r))
  unfolding mirrored after_mirror advance
  mirrored-turns n f c (some e, s) = refl
  mirrored-turns n f c (none, s) = stored-turns n c _ _ _ s

  process_frame-turns :
      (n : ℕ) (f : CaptureFrame) (c : Connection) (s : Service V)
      → run_alone (suc (suc (suc n))) (mirroring f c, s)
        ≡ run_alone n (behind_frame c (process_frame env f s))
  unfolding process_frame advance
  process_frame-turns n f c s = mirrored-turns n f c (mirror env f s)

  -- Four turns for each round of the loop.
  abbrev turns_for : ℕ → ℕ
  turns_for zero = zero
  turns_for (suc k) = suc (suc (suc (suc (turns_for k))))

  turns_for-eq : (k : ℕ) → turns_for k ≡ 4 * k
  turns_for-eq zero = refl
  turns_for-eq (suc k) = omega (arith, turns_for-eq k)

  -- Behind a frame.
  rest_of_loop :
      (n : ℕ) (c : Connection) (r : Option IngestError × Service V)
      (k : Service V → Option IngestError × Service V)
      → ((t : Service V) → run_alone n (reading c, t) ≡ closed_with (k t))
      → run_alone n (behind_frame c r) ≡ closed_with (and_process codec (process_frame env) r k)
  unfolding and_process
  rest_of_loop n c (some e, s) k h = run_alone-closed n (some e) s
  rest_of_loop n c (none, s) k h = h s

  loop-turns :
      (fuel : ℕ) (c : Connection) (s : Service V)
      → length c.bytes < fuel
      → run_alone (turns_for fuel) (reading c, s)
        ≡ closed_with (ingest_loop codec (process_frame env) fuel c s)
  unfolding advance
  loop-turns zero c s h = absurd (omega arith)
  loop-turns (suc k) c s h = elim (next_frame-cases codec env c) [
    | inl (e, (same, loop)) ↦
        ap (λ t. run_alone (suc (suc (suc (turns_for k)))) (t, s)) same
        ∙ run_alone-closed (suc (suc (suc (turns_for k)))) e s
        ∙ sym (ap closed_with (loop k s))
    | inr (frame, rest, (same, shorter, loop)) ↦
        ap (λ t. run_alone (suc (suc (suc (turns_for k)))) (t, s)) same
        ∙ process_frame-turns (turns_for k) frame rest s
        ∙ rest_of_loop (turns_for k) rest (process_frame env frame s)
            (λ t. ingest_loop codec (process_frame env) k rest t)
            (λ t. loop-turns k rest t (omega (arith, shorter)))
        ∙ sym (ap closed_with (loop k s))
  ]

  -- The turns of a task implement `ingest_client`: if no other task comes between them, then after
  -- four turns for each byte of the connection, and four more, the task is at its end, with the error
  -- that `ingest_client` returns, if any, and the service is as `ingest_client` leaves it.
  pub run_alone-ingest_client :
      (c : Connection) (s : Service V)
      → run_alone (4 * suc (length c.bytes)) (reading c, s)
        ≡ closed_with (ingest_client codec (process_frame env) c s)
  unfolding ingest_client
  run_alone-ingest_client c s =
      ap (λ n. run_alone n (reading c, s)) (sym (turns_for-eq (suc (length c.bytes))))
      ∙ loop-turns (suc (length c.bytes)) c s (omega arith)
