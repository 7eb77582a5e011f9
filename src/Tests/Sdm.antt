-- ===== src/Tests/Sdm.antt =====
-- The SDM decoder at concrete inputs.
use mathlib.Core.Option
use grok.Base.{◌≡◌, some, List, [], ◌∷◌, ◌++◌, All, arith}
use grok.Sdm.Decoder.{SdmDecoder, default, SdmResult, push}
use grok.Sdm.Decoder.Chunks.{push-append}
use grok.Sdm.Decoder.RoundTrip.{Request, Item, stream, frames, push-stream}
use grok.Sdm.Decoder.Frames.{FramedResult, push-FramedResult}

abbrev cell_info : Request
cell_info = record { direction = 0xa0; group = 1; command = 1; payload = 0xaa ∷ []; timestamp = 0 }

abbrev ota_packet : Request
ota_packet = record {
  direction = 0xa0;
  group = 0x22;
  command = 0x52;
  payload = 0x7f ∷ 0xcc ∷ [];
  timestamp = 1;
}

abbrev pub items : List Item
items =
    record { noise = 0 ∷ 0x11 ∷ 0x22 ∷ []; request = cell_info }
    ∷ record { noise = []; request = ota_packet }
    ∷ []

push-stream_example : push default (stream items) ≡ some (frames items, default)
push-stream_example = push-stream items (omega arith)

push-append_example :
    push default (stream items ++ (0x7f ∷ []))
    ≡ Option.bind
        (push default (stream items))
        (λ first. Option.map (λ second. (first.0 ++ second.0, second.1)) (push first.1 (0x7f ∷ [])))
push-append_example = push-append default (stream items) (0x7f ∷ [])

push-FramedResult_example :
    (results : List SdmResult) × (next : SdmDecoder) × (push default (stream items)
      ≡ some (results, next))
    × All FramedResult results
push-FramedResult_example = push-FramedResult default (stream items)
