-- ===== src/Api/Ingest.antt =====
-- crates/6grok-api/src/main.rs: `ingest_client`. A connection is the bytes that it delivers, and then
-- its end or a fault.
pub mod Uplink
pub mod Arrivals
pub mod Termination
use Prim.Native.String.{String}
use grok.Base.{
  ℕ, zero, suc, ◌+◌, ◌*◌, ◌||◌, Option, none, some, List, [], ◌∷◌, ltb, leb, ◌==◌, if◌then◌else◌,
  length, get_or, take, drop, Bytes, from_be_u32, Result, ok, err,
}
use grok.Core.{CaptureFrame, MessagePack, decode_wire_frame}
use grok.Api.Store.{IngestError, read_length, invalid_length, read_frame, decoding, out_of_fuel}

abbrev pub max_wire_frame : ℕ
max_wire_frame = 8 * 1024 * 1024

pub record Connection : Type 0 where
  pub bytes : Bytes
  pub fault : Option String

-- An end in front of or inside of a length is the end of the client.
pub length_ended : Option String → Result IngestError (Option (ℕ × Connection))
length_ended none = ok none
length_ended (some e) = err (read_length e)

unfoldable pub read_len : Connection → Result IngestError (Option (ℕ × Connection))
unfolding length_ended
read_len c =
    if leb 4 (length c.bytes)
    then ok (
        some (
          from_be_u32 (get_or c.bytes 0 0) (get_or c.bytes 1 0) (get_or c.bytes 2 0)
              (get_or c.bytes 3 0),
          record c { bytes = drop 4 c.bytes },
        ))
    else length_ended c.fault

unfoldable pub read_payload : ℕ → Connection → Result IngestError (Bytes × Connection)
read_payload len c =
    if (len == 0) || ltb max_wire_frame len
    then err (invalid_length len)
    else if leb len (length c.bytes)
    then ok (take len c.bytes, record c { bytes = drop len c.bytes })
    else err (read_frame c.fault)

-- `process` is `process_frame` on the state that the clients share.
module _ {S : Type 0} (codec : MessagePack)
    (process : CaptureFrame → S → Option IngestError × S) where
  -- `process_frame(frame, &state).await?`, and what follows it.
  unfoldable pub and_process :
      Option IngestError × S → (S → Option IngestError × S) → Option IngestError × S
  and_process (some e, s) k = (some e, s)
  and_process (none, s) k = k s

  unfoldable pub ingest_loop : ℕ → Connection → S → Option IngestError × S
  ingest_loop zero c s = (some out_of_fuel, s)
  ingest_loop (suc fuel) c s = elim (read_len c) [
    | err e ↦ (some e, s)
    | ok none ↦ (none, s)
    | ok (some (len, behind)) ↦ elim (read_payload len behind) [
      | err e ↦ (some e, s)
      | ok (payload, rest) ↦ elim (decode_wire_frame codec payload) [
        | err e ↦ (some (decoding e), s)
        | ok frame ↦ and_process (process frame s) (λ t. ingest_loop fuel rest t)
      ]
    ]
  ]

  unfoldable pub ingest_client : Connection → S → Option IngestError × S
  unfolding ingest_loop
  ingest_client c s = ingest_loop (suc (length c.bytes)) c s
