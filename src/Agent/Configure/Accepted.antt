-- ===== src/Agent/Configure/Accepted.antt =====
-- The steps of `configure_qualcomm_logs` with a modem that answers each request at once.
use Prim.Native.String.{String}
use grok.Base.{
  ℕ, ◌+◌, ◌*◌, ◌/◌, ◌%◌, ◌^◌, ◌≤◌, ◌<◌, ◌≡◌, ◌≢◌, refl, sym, ap, ◌∙◌, true, Option, none, some,
  List, [], ◌∷◌, ◌++◌, append-nil, length, All, get_or, contains, sort_dedup, IsU32, Bytes, ok,
  arith, Bool-cases, inl, inr, contains-All,
}
use grok.Qualcomm.Hdlc.{Crc, default, encode_hdlc, feed}
use grok.Qualcomm.Hdlc.Encoding.{feed-encode_hdlc}
use grok.Qualcomm.Codes.{Grouped}
use grok.Qualcomm.Mask.Bitmap.{set_mask_header, set_mask_request_bits}
use grok.Qualcomm.LogConfig.{retrieve_id_ranges_request, parse_id_ranges_response}
use grok.Qualcomm.LogConfig.Responses.{
  response, le_bytes, parse_log_config_header-response, parse_id_ranges_response-response,
}
use grok.Agent.Capture.{ReadEvent, read}
use grok.Agent.Control.{
  and_then, send_diag_packet, send_result, query_ranges, answers, scan_bytes, wait_loop,
  wait_for_log_config_response,
}
use grok.Agent.Control.Waiting.{first_answer, scan_bytes-first_answer}
use grok.Agent.Configure.{is_supported, select_all_codes, check_explicit, checked, configure_group}
use grok.Agent.Configure.Selection.{contains-select_all_codes}
use grok.Agent.Configure.Masks.{HasCodes}

module _ (crc : Crc) (write_error : List Bytes → Bytes → Option String) where
  scan-nothing :
      (expected : ℕ) (packet : Bytes) → (scan_bytes crc expected default []).1 ≢ some packet
  unfolding scan_bytes
  scan-nothing expected packet h = cc

  -- A read in which the scan finds an answer.
  wait_loop-some :
      (expected : ℕ) (bytes packet : Bytes) (events : List ReadEvent)
      → (scan_bytes crc expected default bytes).1 ≡ some packet
      → wait_loop crc expected 0 default (read bytes ∷ events) ≡ (ok packet, events)
  unfolding wait_loop
  wait_loop-some expected [] packet events h = absurd (scan-nothing expected packet h)
  wait_loop-some expected (b ∷ bs) packet events h = rw (wait_loop, h)

  answers-response :
      (operation status : ℕ) (bytes : Bytes)
      → IsU32 operation
      → IsU32 status
      → answers operation (response operation status bytes) ≡ true
  unfolding answers
  answers-response operation status bytes ho hs =
      rw (answers, parse_log_config_header-response operation status bytes ho hs) (ground arith)

  -- The response to an operation, in one read, ends the wait for it.
  wait-response :
      (operation status : ℕ) (bytes : Bytes) (events : List ReadEvent) (sent : List Bytes)
      → IsU32 operation
      → IsU32 status
      → wait_for_log_config_response crc operation (record {
        incoming = read (encode_hdlc crc (response operation status bytes)) ∷ events;
        sent = sent;
      })
        ≡ (ok (response operation status bytes), record { incoming = events; sent = sent })
  unfolding wait_for_log_config_response feed
  wait-response operation status bytes events sent ho hs =
      let packet = response operation status bytes in
      let scanned : (scan_bytes crc operation default (encode_hdlc crc packet)).1 ≡ some packet =
        scan_bytes-first_answer crc operation (encode_hdlc crc packet) default
        ∙ ap (λ b. first_answer operation (feed crc default b).1)
            (sym (append-nil (encode_hdlc crc packet)))
        ∙ ap (λ r. first_answer operation r.1) (feed-encode_hdlc crc packet [] (λ e. cc))
        ∙ rw (answers-response operation status bytes ho hs) in
      rw (wait_loop-some operation (encode_hdlc crc packet) packet events scanned)

-- The reads of a port at which the modem accepts the masks of the groups, one after the other.
abbrev pub accepting : Crc → Grouped → List ReadEvent → List ReadEvent
accepting crc [] later = later
accepting crc ((equip, items) ∷ rest) later =
    read (encode_hdlc crc (response 3 0 [])) ∷ accepting crc rest later

-- With supported explicit codes, every selected code is supported, and no check fails.
module _ (ranges explicit profile_codes : List ℕ)
    (strict : All (λ c. is_supported ranges c ≡ true) explicit) where
  pub selected_supported :
      (equip item : ℕ)
      → equip < 16
      → item < 4096
      → contains (equip * 4096 + item) (select_all_codes ranges explicit profile_codes) ≡ true
      → item ≤ get_or ranges equip 0
  selected_supported equip item he hi m =
      let e : (equip * 4096 + item) % 2 ^ 12 ≡ item = omega arith in
      let f : (equip * 4096 + item) / 2 ^ 12 % 2 ^ 4 ≡ equip = omega arith in
      let known =
        sym (contains-select_all_codes (equip * 4096 + item) ranges explicit profile_codes) ∙ m in
      elim (Bool-cases (contains (equip * 4096 + item) explicit)) [
        | inl t ↦
            let s =
              contains-All (λ c. is_supported ranges c ≡ true) explicit (equip * 4096 + item) strict
                t in
            ground (arith, rw (e, f) at s)
        | inr t ↦ ground (arith, t, rw (e, f) at known)
      ]

  pub check_explicit-none :
      (equip : ℕ) (items : List ℕ)
      → HasCodes (select_all_codes ranges explicit profile_codes) equip items
      → check_explicit (sort_dedup explicit) equip (get_or ranges equip 0) items ≡ none
  unfolding check_explicit
  check_explicit-none equip [] h = refl
  check_explicit-none equip (item ∷ items) (he, ((hi, hm), hs)) =
      let le = selected_supported equip item he hi hm in
      ground (arith, check_explicit-none equip items (he, hs))

module _ (crc : Crc) (write_error : List Bytes → Bytes → Option String)
    (writes : (sent : List Bytes) (bytes : Bytes) → write_error sent bytes ≡ none) where
  send_diag_packet-none :
      {E : Type 0} (packet : Bytes) (incoming : List E) (sent : List Bytes)
      → send_diag_packet crc write_error packet (record { incoming = incoming; sent = sent })
        ≡ (ok tt, record { incoming = incoming; sent = sent ++ (encode_hdlc crc packet ∷ []) })
  unfolding send_diag_packet send_result
  send_diag_packet-none packet incoming sent = rw (writes sent (encode_hdlc crc packet))

  pub query_ranges-accepted :
      (ranges : List ℕ) (events : List ReadEvent) (sent : List Bytes)
      → length ranges ≡ 16
      → All IsU32 ranges
      → query_ranges crc write_error (wait_for_log_config_response crc) (record {
        incoming = read (encode_hdlc crc (response 1 0 (le_bytes ranges))) ∷ events;
        sent = sent;
      })
        ≡ (
          ok ranges,
          record {
            incoming = events;
            sent = sent ++ (encode_hdlc crc retrieve_id_ranges_request ∷ []);
          },
        )
  unfolding query_ranges and_then
  query_ranges-accepted ranges events sent h16 h = rw (
    send_diag_packet-none retrieve_id_ranges_request _ sent,
    wait-response crc write_error 1 0 (le_bytes ranges) events _ (omega arith) (omega arith),
    ap parse_id_ranges_response (ap (response 1 0) (sym (append-nil (le_bytes ranges)))),
    parse_id_ranges_response-response ranges [] h16 h,
  )

  pub configure_group-accepted :
      (explicit ranges : List ℕ) (equip : ℕ) (items : List ℕ) (events : List ReadEvent)
      (sent : List Bytes)
      → equip < 16
      → All (λ item. item ≤ get_or ranges equip 0) items
      → check_explicit explicit equip (get_or ranges equip 0) items ≡ none
      → (after : List Bytes) × (configure_group crc write_error
            (wait_for_log_config_response crc)
            explicit
            ranges
            equip
            items
            (record { incoming = read (encode_hdlc crc (response 3 0 [])) ∷ events; sent = sent })
          ≡ (ok tt, record { incoming = events; sent = after }))
  unfolding configure_group checked and_then
  configure_group-accepted explicit ranges equip items events sent he within fine =
      let (mask, request, long, bytes, bits) =
        set_mask_request_bits equip (get_or ranges equip 0) items he within in
      (
        sent ++ (encode_hdlc crc (set_mask_header equip (get_or ranges equip 0) ++ mask) ∷ []),
        rw (
          fine,
          request,
          send_diag_packet-none (set_mask_header equip (get_or ranges equip 0) ++ mask) _ sent,
          wait-response crc write_error 3 0 [] events _ (omega arith) (omega arith),
          parse_log_config_header-response 3 0 [] (omega arith) (omega arith),
        ),
      )
