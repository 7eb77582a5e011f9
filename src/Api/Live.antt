-- ===== src/Api/Live.antt =====
-- crates/6grok-api/src/main.rs: `websocket`. The receiver of the channel is the list of what its calls
-- of `recv` return.
use Prim.Native.String.{String}
use grok.Base.{
  ℕ, ◌≡◌, ap, ◌∙◌, sym, Bool, true, false, List, [], ◌∷◌, ◌++◌, append-nil, append_assoc, map,
  if◌then◌else◌,
}

pub data Received : Type 0 where
  text : String → Received
  lagged : ℕ → Received
  closed : Received

-- `notice` is the text for a number of messages that were skipped, and `refuses` says which messages
-- the socket does not take, by what it was sent before.
module _ (notice : ℕ → String) (refuses : List String → String → Bool) where
  -- What the socket was sent, and whether the loop was left.
  unfoldable pub websocket : List Received → List String → List String × Bool
  websocket [] sent = (sent, false)
  websocket (text t ∷ events) sent =
      let more = websocket events (sent ++ (t ∷ [])) in
      if refuses sent t then (sent, true) else more
  websocket (lagged skipped ∷ events) sent =
      let more = websocket events (sent ++ (notice skipped ∷ [])) in
      if refuses sent (notice skipped) then (sent, true) else more
  websocket (closed ∷ events) sent = (sent, true)

  -- A socket that refuses nothing is sent all texts of a receiver that does not lag, in order.
  pub websocket-map_text :
      (texts : List String) (rest : List Received) (sent : List String)
      → ((before : List String) (t : String) → refuses before t ≡ false)
      → websocket (map text texts ++ (closed ∷ rest)) sent ≡ (sent ++ texts, true)
  unfolding websocket
  websocket-map_text [] rest sent h = ap (λ l. (l, true)) (sym (append-nil sent))
  websocket-map_text (t ∷ texts) rest sent h = rw (h sent t) (
      websocket-map_text texts rest (sent ++ (t ∷ [])) h
      ∙ ap (λ l. (l, true)) (append_assoc sent (t ∷ []) texts))
