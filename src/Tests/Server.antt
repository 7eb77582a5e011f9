-- ===== src/Tests/Server.antt =====
-- The tasks of the service at concrete inputs.
use grok.Base.{All, ℕ, ◌*◌, ◌/◌, ◌≡◌, suc, none, some, inl, refl, List, [], ◌∷◌, length, arith}
use grok.Api.Store.{Service, process_frame, invalid_length}
use grok.Api.Ingest.{Connection}
use grok.Api.Ingest.Uplink.{wire_of}
use grok.Api.Server.{reading, mirroring, Server, Reachable, started, accepted, turned, advance}
use grok.Api.Server.Interleaving.{IsSound, Reachable-IsSound}
use grok.Api.Store.{packets}
use grok.Api.Store.Packets.{Packet}
use grok.Api.Stats.{Float, stats, IsServed, stats-IsServed}
use grok.Api.Server.Interleaving.{IsOfFrame}
use grok.Api.Server.Progress.{IsClosed, take_turns, take_turns-IsClosed}
use grok.Api.Server.Alone.{closed_with, run_alone}
use grok.Api.Server.Arrivals.{run_alone-connection_of}
use grok.Api.Ingest.Arrivals.{Finish, bad_length, connection_of, process_then}
use grok.Tests.Core.{codec, log_frame, log_bytes, encode_wire_frame_log}
use grok.Tests.Api.{env, fresh}

abbrev one_frame : Connection
one_frame = record { bytes = wire_of ((log_frame, log_bytes) ∷ []); fault = none }

abbrev hung_up : Connection
hung_up = record { bytes = 1 ∷ []; fault = none }

-- Two agents, of which the second takes the first turn.
abbrev two_agents : Server ℕ
two_agents = record {
  tasks = reading one_frame ∷ (advance codec env (reading hung_up) fresh).0 ∷ [];
  service = (advance codec env (reading hung_up) fresh).1;
}

two_agents-Reachable : Reachable codec env two_agents
two_agents-Reachable =
    turned (reading one_frame ∷ []) [] (reading hung_up)
      (accepted hung_up (accepted one_frame started))

Reachable-IsSound_example : IsSound codec env two_agents
Reachable-IsSound_example = Reachable-IsSound codec env two_agents-Reachable

-- Quotients in percent.
abbrev percent : Float ℕ
percent = record { zero = 0; quotient = λ a b. (100 * a) / b }

stats-IsServed_example :
    (stored : List (Packet ℕ)) × All (IsOfFrame codec env) stored
    × IsServed env.history_limit stored
        (stats percent env 1000 2000 3 two_agents.service.store)
        (λ asked. packets asked two_agents.service.store)
stats-IsServed_example =
    stats-IsServed percent codec env 1000 2000 3 two_agents two_agents-Reachable

abbrev turns : List (Service ℕ)
turns = fresh ∷ fresh ∷ fresh ∷ fresh ∷ fresh ∷ fresh ∷ fresh ∷ fresh ∷ []

take_turns-IsClosed_example : IsClosed (take_turns codec env turns (mirroring log_frame hung_up))
take_turns-IsClosed_example =
    take_turns-IsClosed codec env turns (mirroring log_frame hung_up) (omega arith)

-- A length that is not allowed, behind a frame.
abbrev nothing_sent : Finish
nothing_sent = bad_length 0 (1 ∷ []) none

run_alone-connection_of_example :
    run_alone codec env
      (4 * suc (length (connection_of ((log_frame, log_bytes) ∷ []) nothing_sent).bytes))
      (reading (connection_of ((log_frame, log_bytes) ∷ []) nothing_sent), fresh)
    ≡ closed_with
        (process_then codec (process_frame env) (log_frame ∷ []) (some (invalid_length 0)) fresh)
run_alone-connection_of_example =
    run_alone-connection_of codec env ((log_frame, log_bytes) ∷ []) nothing_sent fresh
      ((encode_wire_frame_log, omega arith, omega arith), tt) (inl refl, omega arith)
