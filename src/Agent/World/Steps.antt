-- ===== src/Agent/World/Steps.antt =====
-- What a sequence of steps keeps, of the commands and of the exchange with the modem.
use Prim.Native.String.{String}
use grok.Base.{
  ◌≡◌, refl, All, All-append, Option, none, some, List, [], ◌∷◌, Bytes, Result, ok, err,
}
use grok.Qualcomm.Hdlc.{Crc, encode_hdlc}
use grok.Agent.Control.{AgentError, Port, Exchange, and_then, send_result, send_diag_packet}
use grok.Agent.World.{ProgramError, World, Action, and_next}

-- What holds of the world before two steps and is kept by each holds behind them, whether they
-- succeed or not.
pub steps_keep :
    {A B : Type 0} (I : World → Type 0) (f : A → Action B) (r : Result ProgramError A × World)
    → I r.1
    → ((a : A) (w : World) → I w → I (f a w).1)
    → I (and_next f r).1
unfolding and_next
steps_keep I f (ok a, w) h k = k a w h
steps_keep I f (err e, w) h k = h

-- The same for the port, where the second step may rely on what the first returned.
pub exchange_keeps :
    {E A B : Type 0} (I : Port E → Type 0) (f : A → Exchange E B) (r : Result AgentError A × Port E)
    → I r.1
    → ((a : A) (p : Port E) → r ≡ (ok a, p) → I p → I (f a p).1)
    → I (and_then f r).1
unfolding and_then
exchange_keeps I f (ok a, p) h k = k a p refl h
exchange_keeps I f (err e, p) h k = h

-- All that was written to a port.
abbrev pub AllSent : {E : Type 0} → (Bytes → Type 0) → Port E → Type 0
AllSent P port = All P port.sent

module _ (crc : Crc) (write_error : List Bytes → Bytes → Option String) where
  send_result-AllSent :
      {E : Type 0} (P : Bytes → Type 0) (o : Option String) (bytes : Bytes) (port : Port E)
      → P bytes
      → AllSent P port
      → AllSent P (send_result crc write_error o bytes port).1
  unfolding send_result
  send_result-AllSent P none bytes port p h = All-append P port.sent (bytes ∷ []) h (p, tt)
  send_result-AllSent P (some e) bytes port p h = h

  pub send_diag_packet-AllSent :
      {E : Type 0} (P : Bytes → Type 0) (packet : Bytes) (port : Port E)
      → P (encode_hdlc crc packet)
      → AllSent P port
      → AllSent P (send_diag_packet crc write_error packet port).1
  unfolding send_diag_packet
  send_diag_packet-AllSent P packet port p h =
      send_result-AllSent P (write_error port.sent (encode_hdlc crc packet)) _ port p h
