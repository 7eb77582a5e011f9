-- ===== src/Tests/Qcsuper.antt =====
-- The QCSuper collector at concrete inputs.
use grok.Base.{◌≡◌, List, [], ◌∷◌, ◌++◌, arith}
use grok.Qualcomm.Hdlc.{default, encode_hdlc, feed}
use grok.Qualcomm.LogConfig.Responses.{response}
use grok.Agent.Control.{bridge_closed}
use grok.Agent.Control.Waiting.{found_or, first_answer}
use grok.Qcsuper.Control.{BridgeEvent, idle_second, bridge_loop}
use grok.Qcsuper.Control.Waiting.{bridge_received, bridge_loop-closed}
use grok.Tests.Hdlc.{sum_crc}

-- The answer to another operation, a second without data, and the answer.
abbrev bridge : List BridgeEvent
bridge =
    BridgeEvent.read (encode_hdlc sum_crc (response 3 0 []))
    ∷ idle_second
    ∷ BridgeEvent.read (encode_hdlc sum_crc (response 1 0 []))
    ∷ []

bridge_loop-closed_example :
    (bridge_loop sum_crc 1 0 default (bridge ++ (BridgeEvent.read [] ∷ []))).0
    ≡ found_or bridge_closed (first_answer 1 (feed sum_crc default (bridge_received bridge)).1)
unfolding encode_hdlc
bridge_loop-closed_example = bridge_loop-closed sum_crc 1 0 default bridge [] (omega arith, tt)
