-- ===== src/Tests/Configure.antt =====
-- The configuration of the modem's logs at a concrete port.
use Prim.Native.String.{String}
use grok.Base.{ℕ, ◌≡◌, refl, Option, none, some, List, [], ◌∷◌, length, Bytes, ok, arith}
use grok.Qualcomm.Hdlc.{encode_hdlc, default, feed}
use grok.Qualcomm.LogConfig.{parse_id_ranges_response}
use grok.Qualcomm.LogConfig.Responses.{response, le_bytes}
use grok.Agent.Capture.{ReadEvent, read}
use grok.Agent.Profiles.{in_profiles}
use grok.Agent.Control.{Port}
use grok.Agent.Control.Waiting.{first_answer}
use grok.Agent.Stream.{received}
use grok.Agent.Configure.{configure_qualcomm_logs}
use grok.Agent.Configure.Refusals.{NotRefused}
use grok.Agent.Configure.Outcome.{configure_qualcomm_logs-NotRefused}
use grok.Agent.Configure.Enabled.{IsConfigured, configure_qualcomm_logs-IsConfigured}
use grok.Agent.Configure.Complete.{modem_port, configure_qualcomm_logs-accepted}
use grok.Tests.Hdlc.{sum_crc}
use grok.Tests.Agent.{profiles}

abbrev pub all_written : List Bytes → Bytes → Option String
all_written sent bytes = none

abbrev pub modem_ranges : List ℕ
modem_ranges = 0 ∷ 0xfff ∷ 0 ∷ 0 ∷ 0xfff ∷ 0 ∷ 0 ∷ 0 ∷ 0 ∷ 0 ∷ 0 ∷ 0x1ff ∷ 0 ∷ 0 ∷ 0 ∷ 0 ∷ []

-- The answers of the modem: its ranges, and the acceptance of the first mask.
abbrev pub modem_answers : List Bytes
modem_answers =
    encode_hdlc sum_crc (response 1 0 (le_bytes modem_ranges))
    ∷ encode_hdlc sum_crc (response 3 0 [])
    ∷ []

abbrev reads : List Bytes → List ReadEvent
reads [] = []
reads (bytes ∷ rest) = read bytes ∷ reads rest

abbrev port : Port ReadEvent
port = record { incoming = reads modem_answers; sent = [] }

configure_qualcomm_logs-NotRefused_example :
    NotRefused (configure_qualcomm_logs sum_crc all_written (0x4321 ∷ []) profiles port).0
configure_qualcomm_logs-NotRefused_example =
    configure_qualcomm_logs-NotRefused sum_crc all_written (0x4321 ∷ []) profiles port
      (omega arith, tt)

abbrev answering : Port ReadEvent
answering = modem_port sum_crc modem_ranges (0x4321 ∷ []) profiles [] []

configure_qualcomm_logs-accepted_example :
    (after : List Bytes) × (configure_qualcomm_logs sum_crc all_written
        (0x4321 ∷ [])
        profiles
        answering
      ≡ (ok tt, record { incoming = []; sent = after }))
    × IsConfigured sum_crc modem_ranges
        (0x4321 ∷ [])
        (λ code. in_profiles code profiles)
        answering
        (record { incoming = []; sent = after })
configure_qualcomm_logs-accepted_example =
    configure_qualcomm_logs-accepted sum_crc all_written (λ sent bytes. refl) modem_ranges
      (0x4321 ∷ []) profiles [] [] refl (omega arith) (omega arith, tt) (refl, tt)

-- The port that it leaves.
abbrev configured : Port ReadEvent
configured = record {
  incoming = [];
  sent =
      (configure_qualcomm_logs-accepted sum_crc all_written (λ sent bytes. refl) modem_ranges
        (0x4321 ∷ []) profiles [] [] refl (omega arith) (omega arith, tt) (refl, tt)).0;
}

configured_lem :
    configure_qualcomm_logs sum_crc all_written (0x4321 ∷ []) profiles answering
    ≡ (ok tt, configured)
configured_lem =
    (configure_qualcomm_logs-accepted sum_crc all_written (λ sent bytes. refl) modem_ranges
      (0x4321 ∷ []) profiles [] [] refl (omega arith) (omega arith, tt) (refl, tt)).1

configure_qualcomm_logs-IsConfigured_example :
    (response : Bytes) × ((ranges : List ℕ) × (first_answer 1
          (feed sum_crc default (received answering.incoming)).1
        ≡ some response)
      × (parse_id_ranges_response response ≡ ok ranges)
      × (length ranges ≡ 16)
      × IsConfigured sum_crc ranges
          (0x4321 ∷ [])
          (λ code. in_profiles code profiles)
          answering
          configured)
configure_qualcomm_logs-IsConfigured_example =
    configure_qualcomm_logs-IsConfigured sum_crc all_written (0x4321 ∷ []) profiles answering
      configured (omega arith, tt) configured_lem
