-- ===== src/Tests/Api.antt =====
-- The service at concrete inputs.
use grok.Base.{ℕ, ◌≡◌, ◌≢◌, true, none, some, [], ◌∷◌, ◌++◌, ok, arith}
use grok.Api.Ingest.Termination.{ingest_client-ends}
use grok.Api.Store.{out_of_fuel, Decoded, new, Env, Service, process_frame}
use grok.Api.Store.Totals.{new-Agrees, StoresOrFails, process_frame-StoresOrFails}
use grok.Api.Ingest.{ingest_client}
use grok.Api.Ingest.Uplink.{wire_of, process_all, ingest_client-wire_of}
use grok.Tests.Core.{codec, log_frame, log_bytes, encode_wire_frame_log}

abbrev decoded : Decoded
decoded = record { vendor = ""; rat = "LTE"; layer = "RRC"; fully_decoded = true; others = [] }

abbrev pub env : Env ℕ
env = record {
  decode = λ f. decoded;
  to_value = λ d. ok 5;
  to_string = λ d. ok "5";
  gsmtap_enabled = true;
  udp_error = λ sent datagram. none;
  history_limit = 2;
}

abbrev pub fresh : Service ℕ
fresh = record { store = new; datagrams = []; live = [] }

process_frame-StoresOrFails_example :
    StoresOrFails 2 []
      (record { decoded = decoded; value = 5; text = "5" } ∷ [])
      new
      (process_frame env log_frame fresh)
process_frame-StoresOrFails_example =
    process_frame-StoresOrFails env [] log_frame fresh (new-Agrees 2)

ingest_client-wire_of_example :
    ingest_client codec
      (process_frame env)
      (record { bytes = wire_of ((log_frame, log_bytes) ∷ []) ++ (0 ∷ []); fault = none })
      fresh
    ≡ process_all codec (process_frame env) (log_frame ∷ []) fresh
ingest_client-wire_of_example =
    ingest_client-wire_of codec (process_frame env) ((log_frame, log_bytes) ∷ []) (0 ∷ []) fresh
      ((encode_wire_frame_log, omega arith, omega arith), tt) (omega arith)

ingest_client-ends_example :
    (ingest_client codec
      (process_frame env)
      (record { bytes = 0 ∷ 0 ∷ 0 ∷ 9 ∷ 1 ∷ []; fault = some "reset" })
      fresh).0
    ≢ some out_of_fuel
ingest_client-ends_example =
    ingest_client-ends codec env (record { bytes = 0 ∷ 0 ∷ 0 ∷ 9 ∷ 1 ∷ []; fault = some "reset" })
      fresh
