-- ===== src/Tests/SdmCommand.antt =====
-- The SDM collector at concrete inputs.
use Prim.Native.String.{String}
use grok.Base.{◌≡◌, refl, false, Option, none, some, List, [], ◌∷◌, ◌++◌, map, Bytes, ok}
use grok.Sdm.{generate_packet}
use grok.Sdm.Init.{SdmProfile, init_packets, select_items, for_commands, profile_items}
use grok.Sdm.Init.Transaction.{joined, quiet, init_requests}
use grok.Sdm.Decoder.{default, push, scan, round}
use grok.Sdm.Decoder.RoundTrip.{stream, frames}
use grok.Sdm.Command.{
  EnvelopeJson, sdm_start_session, pushed, emit_sdm_frame, run_stream, configure_sdm,
  generated_then, write_packets, write_device, write_result, and_write,
}
use grok.Sdm.Command.Replay.{stream_sdm_frames, run_stream-replay}
use grok.Sdm.Command.Device.{configure_sdm-decoded}
use grok.Agent.Output.{pure, and_then}
use grok.Agent.Stream.{ReadEvent, read, interrupted, ended, emit_list, received}
use grok.Tests.Sdm.{items}
use grok.Tests.Agent.{env, clock, no_raw}

abbrev envelope : EnvelopeJson
envelope header frame = ok (b'e' ∷ [])

abbrev sdm_events : List ReadEvent
sdm_events = read (0x11 ∷ []) ∷ interrupted ∷ read (stream items) ∷ []

nothing_held : stream_sdm_frames clock env envelope sdm_start_session [] ≡ []
unfolding pushed push scan round
nothing_held = refl

run_stream-replay_example :
    run_stream clock env envelope false (sdm_events ++ (read [] ∷ [])) sdm_start_session no_raw
    ≡ and_then
        (λ _. pure ended)
        (emit_list
          (emit_sdm_frame env envelope)
          (stream_sdm_frames clock env envelope sdm_start_session (received sdm_events))
          no_raw)
run_stream-replay_example =
    run_stream-replay clock env envelope sdm_events [] sdm_start_session no_raw tt nothing_held refl

abbrev all_accepted : List Bytes → Bytes → Option String
all_accepted written bytes = none

abbrev written : List Bytes
written = (configure_sdm all_accepted 0x41414141 SdmProfile.radio false []).1

configured : configure_sdm all_accepted 0x41414141 SdmProfile.radio false [] ≡ (none, written)
unfolding configure_sdm generated_then write_packets write_device write_result and_write
    init_packets select_items for_commands profile_items generate_packet
configured = refl

configure_sdm-decoded_example :
    push default (joined written)
    ≡ some (frames (map quiet (init_requests 0x41414141 SdmProfile.radio false)), default)
configure_sdm-decoded_example =
    configure_sdm-decoded all_accepted 0x41414141 SdmProfile.radio false written configured
