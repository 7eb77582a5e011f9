-- ===== src/Api/Server/Reading.antt =====
-- What the reading of a frame comes to, for a task and for `ingest_client`.
use grok.Base.{
  ℕ, suc, ◌<◌, ◌≡◌, refl, inl, inr, ◌⊎◌, Option, none, some, length, Result-cases, arith,
}
use grok.Core.{CaptureFrame, MessagePack, decode_wire_frame}
use grok.Api.Store.{IngestError, decoding, Env, Service, process_frame}
use grok.Api.Ingest.{Connection, read_len, read_payload, and_process, ingest_loop}
use grok.Api.Ingest.Termination.{read_len-shrinks, read_payload-shrinks}
use grok.Api.Server.{mirroring, closed, next_frame}

module _ {V : Type 0} (codec : MessagePack) (env : Env V) where
  -- The task is at its end, as the loop is.
  abbrev pub Closes : Connection → Option IngestError → Type 0
  Closes c e =
      (next_frame codec env c ≡ closed e)
      × ((fuel : ℕ) (s : Service V) → ingest_loop codec (process_frame env) (suc fuel) c s ≡ (e, s))

  -- There is a frame, and less of the connection behind it.
  abbrev pub Brings : Connection → CaptureFrame → Connection → Type 0
  Brings c frame rest =
      (next_frame codec env c ≡ mirroring frame rest)
      × (length rest.bytes < length c.bytes)
      × ((fuel : ℕ) (s : Service V)
          → ingest_loop codec (process_frame env) (suc fuel) c s
            ≡ and_process codec (process_frame env) (process_frame env frame s)
                (λ t. ingest_loop codec (process_frame env) fuel rest t))

  pub next_frame-cases :
      (c : Connection)
      → ((e : Option IngestError) × Closes c e)
        ⊎ ((frame : CaptureFrame) × (rest : Connection) × Brings c frame rest)
  unfolding next_frame ingest_loop
  next_frame-cases c = elim (Result-cases (read_len c)) [
    | inl (none, e) ↦ inl (none, (rw (next_frame, e) refl, λ fuel s. rw (ingest_loop, e) refl))
    | inl (some (len, behind), e) ↦ elim (Result-cases (read_payload len behind)) [
      | inl ((payload, rest), p) ↦
          let shorter = read_len-shrinks c behind len e in
          let smaller = read_payload-shrinks len behind rest payload p in
          elim (Result-cases (decode_wire_frame codec payload)) [
            | inl (frame, d) ↦ inr (
              frame,
              rest,
              (
                rw (next_frame, e, p, d) refl,
                omega arith,
                λ fuel s. rw (ingest_loop, e, p, d) refl,
              ),
            )
            | inr (x, d) ↦ inl (
              some (decoding x),
              (rw (next_frame, e, p, d) refl, λ fuel s. rw (ingest_loop, e, p, d) refl),
            )
          ]
      | inr (x, p) ↦
          inl (some x, (rw (next_frame, e, p) refl, λ fuel s. rw (ingest_loop, e, p) refl))
    ]
    | inr (x, e) ↦ inl (some x, (rw (next_frame, e) refl, λ fuel s. rw (ingest_loop, e) refl))
  ]
