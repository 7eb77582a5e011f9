-- ===== src/Api/Ingest/Arrivals.antt =====
-- What `ingest_client` makes of a connection, in whatever way it ends.
use Prim.Native.String.{String}
use grok.Base.{
  ℕ, zero, suc, ◌<◌, ◌≤◌, ◌^◌, ◌≡◌, refl, ◌⊎◌, inl, inr, Option, none, some, List, [], ◌∷◌, ◌++◌,
  append_assoc, length, All, map, Bytes, to_be_u32, ok, err, arith,
}
use grok.Core.{CaptureFrame, MessagePack, WireError, decode_wire_frame}
use grok.Core.Wire.{decode_wire_frame-encode_wire_frame}
use grok.Api.Store.{IngestError, read_length, invalid_length, read_frame, decoding}
use grok.Api.Ingest.{Connection, read_len, read_payload, and_process, ingest_loop, ingest_client}
use grok.Api.Ingest.Uplink.{
  Sent, IsSent, wire_of, frame_of, read_len-append, read_payload-append, less_fuel,
  and_process-cong,
}

-- How a connection goes on behind its whole frames: it ends or breaks inside of a length; it brings a
-- length that is not allowed, or an allowed one with too few bytes behind it; or it brings a payload
-- that is no frame.
pub data Finish : Type 0 where
  hangs_up : Bytes → Finish
  breaks : Bytes → String → Finish
  bad_length : ℕ → Bytes → Option String → Finish
  cut_off : ℕ → Bytes → Option String → Finish
  no_frame : Bytes → WireError → Bytes → Option String → Finish

-- A length from 1 byte to 8 MiB.
abbrev pub IsAllowed : ℕ → Type 0
IsAllowed n = (0 < n) × (n ≤ 8388608)

abbrev pub IsFinish : MessagePack → Finish → Type 0
IsFinish codec (hangs_up tail) = length tail < 4
IsFinish codec (breaks tail e) = length tail < 4
IsFinish codec (bad_length n more fault) = ((n ≡ 0) ⊎ (8388608 < n)) × (n < 2 ^ 32)
IsFinish codec (cut_off n more fault) = IsAllowed n × (length more < n)
IsFinish codec (no_frame payload e more fault) =
    IsAllowed (length payload) × (decode_wire_frame codec payload ≡ err e)

abbrev pub finish_bytes : Finish → Bytes
finish_bytes (hangs_up tail) = tail
finish_bytes (breaks tail e) = tail
finish_bytes (bad_length n more fault) = to_be_u32 n ++ more
finish_bytes (cut_off n more fault) = to_be_u32 n ++ more
finish_bytes (no_frame payload e more fault) = to_be_u32 (length payload) ++ (payload ++ more)

abbrev pub finish_fault : Finish → Option String
finish_fault (hangs_up tail) = none
finish_fault (breaks tail e) = some e
finish_fault (bad_length n more fault) = fault
finish_fault (cut_off n more fault) = fault
finish_fault (no_frame payload e more fault) = fault

-- The error that the client's end is logged with.
abbrev pub finish_error : Finish → Option IngestError
finish_error (hangs_up tail) = none
finish_error (breaks tail e) = some (read_length e)
finish_error (bad_length n more fault) = some (invalid_length n)
finish_error (cut_off n more fault) = some (read_frame fault)
finish_error (no_frame payload e more fault) = some (decoding e)

-- A connection that brings the frames as they were sent, and then its finish.
abbrev pub connection_of : List Sent → Finish → Connection
connection_of frames finish = record {
  bytes = wire_of frames ++ finish_bytes finish;
  fault = finish_fault finish;
}

read_len-few :
    (tail : Bytes) → length tail < 4 → read_len (record { bytes = tail; fault = none }) ≡ ok none
unfolding read_len
read_len-few tail h = ground arith

read_len-broken :
    (tail : Bytes) (e : String)
    → length tail < 4
    → read_len (record { bytes = tail; fault = some e }) ≡ err (read_length e)
unfolding read_len
read_len-broken tail e h = ground arith

read_payload-zero : (c : Connection) → read_payload 0 c ≡ err (invalid_length 0)
unfolding read_payload
read_payload-zero c = refl

read_payload-over :
    (n : ℕ) (c : Connection) → 8388608 < n → read_payload n c ≡ err (invalid_length n)
unfolding read_payload
read_payload-over n c h = ground arith

read_payload-refused :
    (n : ℕ) (c : Connection) → (n ≡ 0) ⊎ (8388608 < n) → read_payload n c ≡ err (invalid_length n)
unfolding read_payload
read_payload-refused n c (inl h) = rw h (read_payload-zero c)
read_payload-refused n c (inr h) = read_payload-over n c h

read_payload-short :
    (n : ℕ) (more : Bytes) (fault : Option String)
    → IsAllowed n
    → length more < n
    → read_payload n (record { bytes = more; fault = fault }) ≡ err (read_frame fault)
unfolding read_payload
read_payload-short n more fault h lt = ground arith

module _ {S : Type 0} (codec : MessagePack)
    (process : CaptureFrame → S → Option IngestError × S) where
  -- The frames, up to the first whose processing fails, and then the finish.
  abbrev pub process_then : List CaptureFrame → Option IngestError → S → Option IngestError × S
  process_then [] last s = (last, s)
  process_then (f ∷ fs) last s =
      and_process codec process (process f s) (λ t. process_then fs last t)

  ingest_loop-finish :
      (fuel : ℕ) (finish : Finish) (s : S)
      → IsFinish codec finish
      → ingest_loop codec process (suc fuel) (connection_of [] finish) s ≡ (finish_error finish, s)
  unfolding ingest_loop
  ingest_loop-finish fuel (hangs_up tail) s h = rw (read_len-few tail h, ingest_loop)
  ingest_loop-finish fuel (breaks tail e) s h = rw (read_len-broken tail e h, ingest_loop)
  ingest_loop-finish fuel (bad_length n more fault) s (bad, h) = rw (
    read_len-append n more fault h,
    ingest_loop,
    read_payload-refused n (record { bytes = more; fault = fault }) bad,
  )
  ingest_loop-finish fuel (cut_off n more fault) s (allowed, h) = rw (
    read_len-append n more fault (omega arith),
    ingest_loop,
    read_payload-short n more fault allowed h,
  )
  ingest_loop-finish fuel (no_frame payload e more fault) s ((some_bytes, fits), h) = rw (
    read_len-append (length payload) (payload ++ more) fault (omega arith),
    ingest_loop,
    read_payload-append payload more fault some_bytes fits,
    h,
  )

  ingest_loop-connection_of :
      (fuel : ℕ) (frames : List Sent) (finish : Finish) (s : S)
      → length (wire_of frames ++ finish_bytes finish) < fuel
      → All (IsSent codec) frames
      → IsFinish codec finish
      → ingest_loop codec process fuel (connection_of frames finish) s
        ≡ process_then (map frame_of frames) (finish_error finish) s
  unfolding ingest_loop
  ingest_loop-connection_of zero frames finish s hf hs h = absurd (omega arith)
  ingest_loop-connection_of (suc fuel) [] finish s hf hs h = ingest_loop-finish fuel finish s h
  ingest_loop-connection_of (suc fuel) ((frame, payload) ∷ rest) finish s hf ((he, hp, hm), hs) h =
      let tail = finish_bytes finish in
      let fault = finish_fault finish in
      rw
        (
          append_assoc (to_be_u32 (length payload)) (payload ++ wire_of rest) tail,
          append_assoc payload (wire_of rest) tail,
          read_len-append (length payload) (payload ++ (wire_of rest ++ tail)) fault (omega arith),
          ingest_loop,
          read_payload-append payload (wire_of rest ++ tail) fault hp hm,
          decode_wire_frame-encode_wire_frame codec frame payload he,
        )
        (and_process-cong codec process (process frame s)
          (λ t. ingest_loop codec process fuel (connection_of rest finish) t)
          (λ t. process_then (map frame_of rest) (finish_error finish) t)
          (λ t.
            ingest_loop-connection_of fuel rest finish t
              (less_fuel (length payload) payload (wire_of rest) tail fuel hf) hs h))

  pub ingest_client-connection_of :
      (frames : List Sent) (finish : Finish) (s : S)
      → All (IsSent codec) frames
      → IsFinish codec finish
      → ingest_client codec process (connection_of frames finish) s
        ≡ process_then (map frame_of frames) (finish_error finish) s
  unfolding ingest_client
  ingest_client-connection_of frames finish s hs h =
      ingest_loop-connection_of (suc (length (wire_of frames ++ finish_bytes finish))) frames finish
        s (omega arith) hs h
