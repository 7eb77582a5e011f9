-- ===== src/Api/Server/Progress.antt =====
-- Every task comes to its end, whatever the others do.
use Prim.Native.String.{String}
use grok.Base.{
  ℕ, suc, ◌+◌, ◌*◌, ◌≤◌, ◌<◌, inl, inr, Option, none, some, List, [], ◌∷◌, length, Result, ok, err,
  arith,
}
use grok.Core.{CaptureFrame, MessagePack}
use grok.Api.Store.{Decoded, IngestError, Env, Service, mirror}
use grok.Api.Ingest.{Connection}
use grok.Api.Server.Reading.{next_frame-cases}
use grok.Api.Server.{
  Task, reading, mirroring, recording, publishing, closed, next_frame, mirrored, recorded, advance,
}

-- The turns that a task has in front of it at most.
abbrev pub task_work : Task → ℕ
task_work (reading c) = 4 * length c.bytes + 1
task_work (mirroring frame c) = 4 * length c.bytes + 4
task_work (recording frame c) = 4 * length c.bytes + 3
task_work (publishing text c) = 4 * length c.bytes + 2
task_work (closed e) = 0

abbrev pub IsClosed : Task → Type 0
IsClosed (closed e) = Unit
IsClosed _ = ⊥

module _ {V : Type 0} (codec : MessagePack) (env : Env V) where
  -- The turns of a task, by what it finds the service to be at each of them.
  abbrev pub take_turns : List (Service V) → Task → Task
  take_turns [] t = t
  take_turns (s ∷ services) t = take_turns services (advance codec env t s).0

  next_frame-work : (c : Connection) → task_work (next_frame codec env c) < 4 * length c.bytes + 1
  next_frame-work c = elim (next_frame-cases codec env c) [
    | inl (e, (same, loop)) ↦ rw same (omega arith)
    | inr (frame, rest, (same, shorter, loop)) ↦ rw same (omega (arith, shorter))
  ]

  mirrored-work :
      (f : CaptureFrame) (c : Connection) (r : Option IngestError × Service V)
      → task_work (mirrored codec env f c r).0 ≤ 4 * length c.bytes + 3
  unfolding mirrored
  mirrored-work f c (some e, s) = omega arith
  mirrored-work f c (none, s) = omega arith

  recorded-work :
      (c : Connection) (d : Decoded) (v : Result String V) (text : Result String String)
      (s : Service V)
      → task_work (recorded codec env c d v text s).0 ≤ 4 * length c.bytes + 2
  unfolding recorded
  recorded-work c d (err e) text s = omega arith
  recorded-work c d (ok v) (err e) s = omega arith
  recorded-work c d (ok v) (ok text) s = omega arith

  less_work : (a b n : ℕ) → a < b → b ≤ suc n → a ≤ n
  less_work a b n h k = omega arith

  -- Whatever the other tasks make of the service between its turns, a task is at its end after at
  -- most four turns for each byte that its connection has left, and four more.
  pub take_turns-IsClosed :
      (services : List (Service V)) (t : Task)
      → task_work t ≤ length services
      → IsClosed (take_turns services t)
  unfolding advance
  take_turns-IsClosed [] (reading c) h = absurd (omega arith)
  take_turns-IsClosed [] (mirroring f c) h = absurd (omega arith)
  take_turns-IsClosed [] (recording f c) h = absurd (omega arith)
  take_turns-IsClosed [] (publishing text c) h = absurd (omega arith)
  take_turns-IsClosed [] (closed e) h = tt
  take_turns-IsClosed (s ∷ services) (reading c) h =
      take_turns-IsClosed services (next_frame codec env c)
        (less_work _ _ (length services) (next_frame-work c) h)
  take_turns-IsClosed (s ∷ services) (mirroring f c) h =
      take_turns-IsClosed services (mirrored codec env f c (mirror env f s)).0
        (omega (arith, mirrored-work f c (mirror env f s)))
  take_turns-IsClosed (s ∷ services) (recording f c) h = take_turns-IsClosed services _ (
      omega (
        arith,
        recorded-work c (env.decode f) (env.to_value (env.decode f)) (env.to_string (env.decode f))
            s,
      ))
  take_turns-IsClosed (s ∷ services) (publishing text c) h =
      take_turns-IsClosed services (reading c) (omega arith)
  take_turns-IsClosed (s ∷ services) (closed e) h =
      take_turns-IsClosed services (closed e) (omega arith)
