-- ===== src/Api/Ingest/Termination.antt =====
-- The loop of `ingest_client` ends: every round takes bytes off the connection.
use Prim.Native.String.{String}
use grok.Base.{
  ℕ, zero, suc, ◌≤◌, ◌<◌, ◌≡◌, ◌≢◌, Bool-cases, inl, inr, Option, none, some, length, length-drop,
  Bytes, leb, Result, Result-cases, ok, err, arith,
}
use grok.Core.{CaptureFrame, MessagePack, decode_wire_frame}
use grok.Api.Store.{IngestError, out_of_fuel, Env, Service, process_frame}
use grok.Api.Store.Errors.{process_frame-ends}
use grok.Api.Ingest.{
  Connection, length_ended, read_len, read_payload, and_process, ingest_loop, ingest_client,
}

length_ended-none :
    (o : Option String) (x : ℕ × Connection)
    → ◌≡◌ {A = Result IngestError (Option (ℕ × Connection))} (length_ended o) (ok (some x))
    → ⊥
unfolding length_ended
length_ended-none none x h = cc
length_ended-none (some e) x h = cc

length_ended-error :
    (o : Option String) (x : IngestError)
    → ◌≡◌ {A = Result IngestError (Option (ℕ × Connection))} (length_ended o) (err x)
    → x ≢ out_of_fuel
unfolding length_ended
length_ended-error none x h = absurd (ground (arith, h))
length_ended-error (some e) x h = ground (arith, h)

pub read_len-shrinks :
    (c behind : Connection) (len : ℕ)
    → read_len c ≡ ok (some (len, behind))
    → length behind.bytes < length c.bytes
unfolding read_len
read_len-shrinks c behind len h = elim (Bool-cases (leb 4 (length c.bytes))) [
  | inl t ↦ ground (arith, length-drop 4 c.bytes)
  | inr t ↦ absurd (length_ended-none c.fault (len, behind) (rw t at h))
]

pub read_payload-shrinks :
    (len : ℕ) (c rest : Connection) (payload : Bytes)
    → read_payload len c ≡ ok (payload, rest)
    → length rest.bytes ≤ length c.bytes
unfolding read_payload
read_payload-shrinks len c rest payload h = ground (arith, length-drop len c.bytes)

read_len-error : (c : Connection) (x : IngestError) → read_len c ≡ err x → x ≢ out_of_fuel
unfolding read_len
read_len-error c x h = elim (Bool-cases (leb 4 (length c.bytes))) [
  | inl t ↦ ground arith
  | inr t ↦ length_ended-error c.fault x (rw t at h)
]

read_payload-error :
    (len : ℕ) (c : Connection) (x : IngestError) → read_payload len c ≡ err x → x ≢ out_of_fuel
unfolding read_payload
read_payload-error len c x h = ground arith

other_error :
    (x : IngestError) → x ≢ out_of_fuel → ◌≢◌ {A = Option IngestError} (some x) (some out_of_fuel)
other_error x n e = n (ground (arith, e))

module _ {S : Type 0} (codec : MessagePack)
    (process : CaptureFrame → S → Option IngestError × S) where
  and_process-ends :
      (r : Option IngestError × S) (k : S → Option IngestError × S)
      → r.0 ≢ some out_of_fuel
      → ((t : S) → (k t).0 ≢ some out_of_fuel)
      → (and_process codec process r k).0 ≢ some out_of_fuel
  unfolding and_process
  and_process-ends (some e, t) k n h = n
  and_process-ends (none, t) k n h = h t

  ingest_loop-ends :
      (fuel : ℕ) (c : Connection) (s : S)
      → length c.bytes < fuel
      → ((f : CaptureFrame) (t : S) → (process f t).0 ≢ some out_of_fuel)
      → (ingest_loop codec process fuel c s).0 ≢ some out_of_fuel
  unfolding ingest_loop
  ingest_loop-ends zero c s hk n = absurd (omega arith)
  ingest_loop-ends (suc k) c s hk n = elim (Result-cases (read_len c)) [
    | inl (none, e) ↦ rw (e, ingest_loop) (λ x. cc)
    | inl (some (len, behind), e) ↦ elim (Result-cases (read_payload len behind)) [
      | inl ((payload, rest), p) ↦
          let shorter = read_len-shrinks c behind len e in
          let smaller = read_payload-shrinks len behind rest payload p in
          elim (Result-cases (decode_wire_frame codec payload)) [
            | inl (frame, d) ↦
                rw (e, ingest_loop, p, d)
                  (and_process-ends (process frame s) (λ t. ingest_loop codec process k rest t)
                    (n frame s) (λ t. ingest_loop-ends k rest t (omega arith) n))
            | inr (x, d) ↦ rw (e, ingest_loop, p, d) (λ q. cc)
          ]
      | inr (x, p) ↦ rw (e, ingest_loop, p) (other_error x (read_payload-error len behind x p))
    ]
    | inr (x, e) ↦ rw (e, ingest_loop) (other_error x (read_len-error c x e))
  ]

-- Whatever a connection delivers, however it ends, and whatever happens to the frames, the loop of
-- the client comes to its end within the fuel.
pub ingest_client-ends :
    {V : Type 0} (codec : MessagePack) (env : Env V) (c : Connection) (s : Service V)
    → (ingest_client codec (process_frame env) c s).0 ≢ some out_of_fuel
unfolding ingest_client
ingest_client-ends codec env c s =
    ingest_loop-ends codec (process_frame env) (suc (length c.bytes)) c s (omega arith)
      (process_frame-ends env)
