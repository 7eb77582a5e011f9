-- ===== src/Api/Server.antt =====
-- crates/6grok-api/src/main.rs: `run_ingest`, where a task runs `ingest_client` for each agent. The
-- tasks share the UDP socket, the store behind its lock, and the channel of the live texts; each
-- turn of a task does what it does with one of them.
pub mod Reading
pub mod Texts
pub mod Interleaving
pub mod Alone
pub mod Arrivals
pub mod Progress
use Prim.Native.String.{String}
use grok.Base.{ℕ, zero, suc, ◌+◌, Option, none, some, List, [], ◌∷◌, ◌++◌, Result, ok, err}
use grok.Core.{CaptureFrame, MessagePack, decode_wire_frame}
use grok.Api.Store.{
  Decoded, new, record_packet, IngestError, decoding, serializing, Env, Service, mirror,
}
use grok.Api.Ingest.{Connection, read_len, read_payload}

-- Where a task is: in front of a frame, with a decoded frame in front of the socket, behind it in
-- front of the lock, behind the lock with the text for the channel, or at its end.
pub data Task : Type 0 where
  reading : Connection → Task
  mirroring recording : CaptureFrame → Connection → Task
  publishing : String → Connection → Task
  closed : Option IngestError → Task

module _ {V : Type 0} (codec : MessagePack) (env : Env V) where
  -- The task reads a frame.
  unfoldable pub next_frame : Connection → Task
  next_frame c = elim (read_len c) [
    | err e ↦ closed (some e)
    | ok none ↦ closed none
    | ok (some (len, behind)) ↦ elim (read_payload len behind) [
      | err e ↦ closed (some e)
      | ok (payload, rest) ↦ elim (decode_wire_frame codec payload) [
        | err e ↦ closed (some (decoding e))
        | ok frame ↦ mirroring frame rest
      ]
    ]
  ]

  unfoldable pub mirrored :
      CaptureFrame → Connection → Option IngestError × Service V → Task × Service V
  mirrored frame c (some e, s) = (closed (some e), s)
  mirrored frame c (none, s) = (recording frame c, s)

  unfoldable pub recorded :
      Connection → Decoded → Result String V → Result String String → Service V → Task × Service V
  recorded c d (err e) text s = (closed (some (serializing e)), s)
  recorded c d (ok value) (err e) s = (closed (some (serializing e)), s)
  recorded c d (ok value) (ok text) s =
      (publishing text c, record s { store = record_packet env.history_limit d value s.store })

  -- One turn of a task.
  unfoldable pub advance : Task → Service V → Task × Service V
  unfolding next_frame mirrored recorded
  advance (reading c) s = (next_frame c, s)
  advance (mirroring frame c) s = mirrored frame c (mirror env frame s)
  advance (recording frame c) s =
      recorded c (env.decode frame) (env.to_value (env.decode frame))
        (env.to_string (env.decode frame)) s
  advance (publishing text c) s = (reading c, record s { live = s.live ++ (text ∷ []) })
  advance (closed e) s = (closed e, s)

-- The tasks, one for each agent that was accepted, and what they share.
pub record Server (V : Type 0) : Type 0 where
  pub tasks : List Task
  pub service : Service V

abbrev pub first_server : {V : Type 0} → Server V
first_server = record { tasks = []; service = record { store = new; datagrams = []; live = [] } }

-- The servers that can come about, in whatever order the agents come and the tasks take their turns.
pub data Reachable {V : Type 0} (codec : MessagePack) (env : Env V) : Server V → Type 0 where
  started : Reachable codec env first_server
  accepted :
      {tasks : List Task} {s : Service V} (c : Connection)
      → Reachable codec env (record { tasks = tasks; service = s })
      → Reachable codec env (record { tasks = tasks ++ (reading c ∷ []); service = s })
  turned :
      {s : Service V} (before after : List Task) (t : Task)
      → Reachable codec env (record { tasks = before ++ (t ∷ after); service = s })
      → Reachable codec env (record {
        tasks = before ++ ((advance codec env t s).0 ∷ after);
        service = (advance codec env t s).1;
      })
