-- ===== src/Api/Ingest/Uplink.antt =====
-- The service takes in what the agent's `WireSink` sends.
use Prim.Native.String.{String}
use grok.Base.{
  ℕ, zero, suc, ◌^◌, ◌≤◌, ◌<◌, ◌≡◌, refl, Option, none, some, List, [], ◌∷◌, ◌++◌, append_assoc,
  length, length-append, take-append_at, drop-append_at, All, Bytes, to_be_u32,
  from_le_u32-to_le_u32, ok, arith, map,
}
use grok.Core.{CaptureFrame, MessagePack, encode_wire_frame}
use grok.Core.Wire.{decode_wire_frame-encode_wire_frame}
use grok.Api.Store.{IngestError}
use grok.Api.Ingest.{
  max_wire_frame, read_len, read_payload, and_process, ingest_loop, ingest_client,
}

-- A frame and its encoding.
abbrev pub Sent : Type 0
Sent = CaptureFrame × Bytes

abbrev pub IsSent : MessagePack → Sent → Type 0
IsSent codec (frame, payload) =
    (encode_wire_frame codec frame ≡ ok payload)
    × (0 < length payload)
    × (length payload ≤ max_wire_frame)

-- The length of each payload in four bytes, and the payload: what `WireSink::send` writes.
abbrev pub wire_of : List Sent → Bytes
wire_of [] = []
wire_of ((frame, payload) ∷ rest) = to_be_u32 (length payload) ++ (payload ++ wire_of rest)

abbrev pub frame_of : Sent → CaptureFrame
frame_of (frame, payload) = frame

pub read_len-append :
    (n : ℕ) (rest : Bytes) (fault : Option String)
    → n < 2 ^ 32
    → read_len (record { bytes = to_be_u32 n ++ rest; fault = fault })
      ≡ ok (some (n, record { bytes = rest; fault = fault }))
unfolding read_len
read_len-append n rest fault h = ground (arith, from_le_u32-to_le_u32 n h)

read_len-short :
    (tail : Bytes) → length tail < 4 → read_len (record { bytes = tail; fault = none }) ≡ ok none
unfolding read_len
read_len-short tail h = ground arith

pub read_payload-append :
    (payload rest : Bytes) (fault : Option String)
    → 0 < length payload
    → length payload ≤ max_wire_frame
    → read_payload (length payload) (record { bytes = payload ++ rest; fault = fault })
      ≡ ok (payload, record { bytes = rest; fault = fault })
unfolding read_payload
read_payload-append payload rest fault hp hm = ground (
  arith,
  length-append payload rest,
  take-append_at payload rest (length payload) refl,
  drop-append_at payload rest (length payload) refl,
)

pub less_fuel :
    (n : ℕ) (payload rest tail : Bytes) (fuel : ℕ)
    → length ((to_be_u32 n ++ (payload ++ rest)) ++ tail) < suc fuel
    → length (rest ++ tail) < fuel
less_fuel n payload rest tail fuel h = omega (
  arith,
  length-append (payload ++ rest) tail,
  length-append payload rest,
  length-append rest tail,
)

module _ {S : Type 0} (codec : MessagePack)
    (process : CaptureFrame → S → Option IngestError × S) where
  -- The frames one after the other, up to the first that fails.
  abbrev pub process_all : List CaptureFrame → S → Option IngestError × S
  process_all [] s = (none, s)
  process_all (f ∷ fs) s = and_process codec process (process f s) (λ t. process_all fs t)

  pub and_process-cong :
      (r : Option IngestError × S) (k l : S → Option IngestError × S)
      → ((t : S) → k t ≡ l t)
      → and_process codec process r k ≡ and_process codec process r l
  unfolding and_process
  and_process-cong (some e, t) k l h = refl
  and_process-cong (none, t) k l h = h t

  ingest_loop-wire_of :
      (fuel : ℕ) (frames : List Sent) (tail : Bytes) (s : S)
      → length (wire_of frames ++ tail) < fuel
      → All (IsSent codec) frames
      → length tail < 4
      → ingest_loop codec process fuel (record { bytes = wire_of frames ++ tail; fault = none }) s
        ≡ process_all (map frame_of frames) s
  unfolding ingest_loop
  ingest_loop-wire_of zero frames tail s hf hs ht = absurd (omega arith)
  ingest_loop-wire_of (suc fuel) [] tail s hf hs ht = rw (read_len-short tail ht, ingest_loop)
  ingest_loop-wire_of (suc fuel) ((frame, payload) ∷ rest) tail s hf ((he, hp, hm), hs) ht =
      rw
        (
          append_assoc (to_be_u32 (length payload)) (payload ++ wire_of rest) tail,
          append_assoc payload (wire_of rest) tail,
          read_len-append (length payload) (payload ++ (wire_of rest ++ tail)) none (omega arith),
          ingest_loop,
          read_payload-append payload (wire_of rest ++ tail) none hp hm,
          decode_wire_frame-encode_wire_frame codec frame payload he,
        )
        (and_process-cong (process frame s)
          (λ t.
            ingest_loop codec process fuel (record { bytes = wire_of rest ++ tail; fault = none })
              t)
          (λ t. process_all (map frame_of rest) t)
          (λ t.
            ingest_loop-wire_of fuel rest tail t
              (less_fuel (length payload) payload (wire_of rest) tail fuel hf) hs ht))

  -- A connection that delivers frames as the agent sends them, each encoded in 1 byte to 8 MiB, and
  -- then ends, at once or inside of the next length, is read to its end: each frame is processed as
  -- it was before its encoding, in order, up to the first whose processing fails.
  pub ingest_client-wire_of :
      (frames : List Sent) (tail : Bytes) (s : S)
      → All (IsSent codec) frames
      → length tail < 4
      → ingest_client codec process (record { bytes = wire_of frames ++ tail; fault = none }) s
        ≡ process_all (map frame_of frames) s
  unfolding ingest_client
  ingest_client-wire_of frames tail s hs ht =
      ingest_loop-wire_of (suc (length (wire_of frames ++ tail))) frames tail s (omega arith) hs ht
