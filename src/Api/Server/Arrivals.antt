-- ===== src/Api/Server/Arrivals.antt =====
-- A task that takes its turns alone, by what its connection brings.
use grok.Base.{suc, ◌*◌, ◌≡◌, ap, ◌∙◌, List, length, All, map}
use grok.Core.{MessagePack}
use grok.Api.Store.{Env, Service, process_frame}
use grok.Api.Ingest.Uplink.{Sent, IsSent, frame_of}
use grok.Api.Ingest.Arrivals.{
  Finish, IsFinish, finish_error, connection_of, process_then, ingest_client-connection_of,
}
use grok.Api.Server.{reading}
use grok.Api.Server.Alone.{closed_with, run_alone, run_alone-ingest_client}

module _ {V : Type 0} (codec : MessagePack) (env : Env V) where
  -- If a connection brings frames, each encoded in 1 byte to 8 MiB, and then ends or breaks inside of
  -- a length, brings a length of 0 or above 8 MiB, an allowed length with too few bytes behind it, or
  -- a payload that is no frame, and no other task comes between the turns of its own, then after four
  -- turns for each byte of the connection, and four more, the task is at its end: `process_frame` has
  -- been done for each frame, in order, up to the first for which it fails, and the task ends with
  -- that failure, or else with what the end of the connection comes to: nothing where it ends inside
  -- of a length, and the error for each of the others.
  pub run_alone-connection_of :
      (frames : List Sent) (finish : Finish) (s : Service V)
      → All (IsSent codec) frames
      → IsFinish codec finish
      → run_alone codec env
          (4 * suc (length (connection_of frames finish).bytes))
          (reading (connection_of frames finish), s)
        ≡ closed_with
            (process_then codec (process_frame env) (map frame_of frames) (finish_error finish) s)
  run_alone-connection_of frames finish s hs h =
      run_alone-ingest_client codec env (connection_of frames finish) s
      ∙ ap closed_with (ingest_client-connection_of codec (process_frame env) frames finish s hs h)
