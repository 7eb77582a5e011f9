-- ===== src/Agent/Stream.antt =====
-- The loop that reads a stream until its end, which three programs share: `run_qualcomm_stream` of
-- crates/6grok-agent/src/main.rs, `run_stream` of crates/6grok-samsung-sdm/src/main.rs and
-- `run_capture` of crates/6grok-qcsuper/src/main.rs. The reader is the list of what its calls of
-- `read` return; where the list ends the program waits in a further call.
pub mod Replay
pub mod Raw
pub mod Live
use Prim.Native.String.{String}
use grok.Base.{Bool, List, [], ◌∷◌, ◌++◌, if◌then◌else◌, Bytes, ok, err}
use grok.Agent.Output.{Io, io, pure, raise, and_then, ◌>>=◌, ◌>>◌}

-- `Ok(n)` with its bytes (no bytes for `Ok(0)`), `ErrorKind::Interrupted`, any other error.
pub data ReadEvent : Type 0 where
  read : Bytes → ReadEvent
  interrupted : ReadEvent
  failed : String → ReadEvent

-- How the loop was left: by `break`, or not yet.
pub data Ending : Type 0 where
  ended waiting : Ending

-- `record_raw` is the write to the raw capture, and `handle` what is done with the bytes of a read.
module _ {S : Type 0} (record_raw : Bytes → Io (Unit {0})) (handle : S → Bytes → Io S) where
  unfoldable pub run_loop : Bool → List ReadEvent → S → Io Ending
  run_loop live [] s = pure waiting
  run_loop live (read [] ∷ events) s =
      let more = run_loop live events s in if live then more else pure ended
  run_loop live (read (b ∷ bs) ∷ events) s = do
    record_raw (b ∷ bs)
    s' ← handle s (b ∷ bs)
    run_loop live events s'
  run_loop live (interrupted ∷ events) s = run_loop live events s
  run_loop live (failed e ∷ events) s = raise (io e)

-- The emission of some things, one after the other, up to the first that fails.
unfoldable pub emit_list : {F : Type 0} → (F → Io (Unit {0})) → List F → Io (Unit {0})
emit_list emit [] = pure tt
emit_list emit (f ∷ fs) = do emit f; emit_list emit fs

-- The bytes of the reads.
abbrev pub received : List ReadEvent → Bytes
received [] = []
received (read bytes ∷ events) = bytes ++ received events
received (interrupted ∷ events) = received events
received (failed e ∷ events) = received events

-- Reads that bring bytes, and interruptions.
abbrev pub IsFlowing : List ReadEvent → Type 0
IsFlowing [] = Unit
IsFlowing (read [] ∷ events) = ⊥
IsFlowing (read (b ∷ bs) ∷ events) = IsFlowing events
IsFlowing (interrupted ∷ events) = IsFlowing events
IsFlowing (failed e ∷ events) = ⊥
