-- ===== src/Agent/Configure/Enabled.antt =====
-- What a successful `configure_qualcomm_logs` has made the modem log.
use Prim.Native.String.{String}
use grok.Base.{
  ℕ, ◌/◌, ◌%◌, ◌^◌, ◌≤◌, ◌<◌, ◌≡◌, refl, sym, ap, subst, ◌∙◌, Bool, true, ◌&&◌, ◌||◌, Option, some,
  List, [], ◌∷◌, ◌++◌, append_assoc, length, All, get_or, contains, sort_dedup, IsU16, IsAscending,
  Bytes, ok, arith, bit_or_join,
}
use grok.Qualcomm.Hdlc.{Crc, default, feed, encode_hdlc}
use grok.Qualcomm.Codes.{Grouped, items_of, group_log_codes, join_log_code}
use grok.Qualcomm.Codes.Grouping.{
  HasSortedKeys, KeysAbove, group_log_codes_order, contains-group_log_codes,
}
use grok.Qualcomm.LogConfig.{retrieve_id_ranges_request, parse_id_ranges_response}
use grok.Qualcomm.LogConfig.Responses.{length-parse_id_ranges_response}
use grok.Agent.Capture.{ReadEvent}
use grok.Agent.Stream.{received}
use grok.Agent.Control.Waiting.{first_answer}
use grok.Agent.Control.Answered.{wait_loop-ok}
use grok.Agent.Profiles.{
  CaptureProfile, merge_profiles, merge_profiles-IsU16, in_profiles, merge_profiles_union,
}
use grok.Agent.Control.{Port, Exchange, query_ranges, wait_loop, wait_for_log_config_response}
use grok.Agent.Configure.{
  is_supported, select_all_codes, configure_groups, configure, configure_qualcomm_logs,
}
use grok.Agent.Configure.Masks.{group_log_codes-HasCodes, select_all_codes-IsU16}
use grok.Agent.Configure.Selection.{contains-select_all_codes}
use grok.Agent.Configure.Requests.{
  Masks, is_enabled, equipment_ids, requests, and_then-eq-ok, query_ranges-eq-ok,
  configure_groups-eq-ok,
}

All-KeysAbove : (low : ℕ) (g : Grouped) → KeysAbove low g → All (λ y. low < y) (equipment_ids g)
All-KeysAbove low [] h = tt
All-KeysAbove low ((key, items) ∷ rest) h = (h.0, All-KeysAbove low rest h.1)

equipment_ids-IsAscending : (g : Grouped) → HasSortedKeys g → IsAscending (equipment_ids g)
equipment_ids-IsAscending [] h = tt
equipment_ids-IsAscending ((key, items) ∷ rest) h =
    (All-KeysAbove key rest h.0, equipment_ids-IsAscending rest h.1)

-- A code stands in the groups of 16-bit codes exactly when it is one of them.
in_groups :
    (codes : List ℕ) (code : ℕ)
    → All IsU16 codes
    → IsU16 code
    → contains (code % 4096) (items_of (code / 4096) (group_log_codes codes)) ≡ contains code codes
unfolding join_log_code
in_groups codes code hs h =
    contains-group_log_codes codes (code / 4096) (code % 4096) hs (omega arith) (omega arith)
    ∙ ap (λ c. contains c codes)
        (bit_or_join (code / 4096) (code % 4096) (omega arith) (omega arith) ∙ omega arith)

-- The port after the configuration of a modem with these ranges: what was written, and the log
-- codes that this switches on. `wanted` says which codes the profiles hold.
pub record IsConfigured {E : Type 0} (crc : Crc) (ranges explicit : List ℕ) (wanted : ℕ → Bool)
    (before after : Port E) : Type 0 where
  pub masks : Masks
  pub sent :
      after.sent
      ≡ before.sent ++ (encode_hdlc crc retrieve_id_ranges_request ∷ requests crc ranges masks)
  pub once : IsAscending (equipment_ids masks)
  pub enabled :
      (code : ℕ)
      → IsU16 code
      → is_enabled code masks
        ≡ (contains code explicit || (wanted code && is_supported ranges code))
  pub supported :
      (code : ℕ) → IsU16 code → is_enabled code masks ≡ true → is_supported ranges code ≡ true

supported_le :
    (ranges : List ℕ) (code : ℕ)
    → IsU16 code
    → code % 4096 ≤ get_or ranges (code / 4096) 0
    → is_supported ranges code ≡ true
supported_le ranges code hc le =
    let e : code / 2 ^ 12 % 2 ^ 4 ≡ code / 4096 = omega arith in rw e (ground arith)

module _ (crc : Crc) (write_error : List Bytes → Bytes → Option String) where
  -- The loop over the groups, behind the query.
  pub configure_groups-IsConfigured :
      {E : Type 0} (wait : ℕ → Exchange E Bytes)
      → ((operation : ℕ) (port : Port E) → (wait operation port).1.sent ≡ port.sent)
      → (ranges explicit : List ℕ) (profiles : List CaptureProfile) (before port after : Port E)
      → All IsU16 explicit
      → port.sent ≡ before.sent ++ (encode_hdlc crc retrieve_id_ranges_request ∷ [])
      → configure_groups crc write_error wait
          (sort_dedup explicit)
          ranges
          (group_log_codes (select_all_codes ranges explicit (merge_profiles [] profiles)))
          port
        ≡ (ok tt, after)
      → IsConfigured crc ranges explicit (λ code. in_profiles code profiles) before after
  unfolding contains
  configure_groups-IsConfigured wait quiet ranges explicit profiles before port after he first h =
      let profile_codes = merge_profiles [] profiles in
      let codes = select_all_codes ranges explicit profile_codes in
      let u16 =
        select_all_codes-IsU16 ranges explicit profile_codes he (merge_profiles-IsU16 profiles) in
      let (masks, more, ids, all, within) =
        configure_groups-eq-ok crc write_error wait quiet explicit ranges profile_codes
          (group_log_codes codes) port after (group_log_codes-HasCodes codes u16) h in
      record {
        masks = masks;
        sent =
            more
            ∙ ap (λ old. old ++ requests crc ranges masks) first
            ∙ append_assoc before.sent _ _;
        once =
            subst IsAscending (sym ids)
              (equipment_ids-IsAscending _ (group_log_codes_order codes).0);
        enabled = λ code hc.
            all code
            ∙ in_groups codes code u16 hc
            ∙ contains-select_all_codes code ranges explicit profile_codes
            ∙ ap (λ b. contains code explicit || (b && is_supported ranges code))
                ((merge_profiles_union [] profiles).1 code);
        supported = λ code hc on. supported_le ranges code hc (within code (sym (all code) ∙ on));
      }

  pub quiet :
      (operation : ℕ) (port : Port ReadEvent)
      → (wait_for_log_config_response crc operation port).1.sent ≡ port.sent
  unfolding wait_for_log_config_response
  quiet operation port = refl

  -- A wait on the port that succeeds gives the first answer of what the port delivers.
  wait-first_answer :
      (operation : ℕ) (port : Port ReadEvent) (response : Bytes)
      → (wait_for_log_config_response crc operation port).0 ≡ ok response
      → first_answer operation (feed crc default (received port.incoming)).1 ≡ some response
  unfolding wait_for_log_config_response feed
  wait-first_answer operation port response h =
      wait_loop-ok crc operation 0 default port.incoming
        (wait_loop crc operation 0 default port.incoming).1 response
        (ap (λ r. (r, (wait_loop crc operation 0 default port.incoming).1)) h)

  -- With explicit codes of 16 bits, a configuration that succeeds has read sixteen ranges from the
  -- first packet that the reads of the port bring and that answers the query of the ranges. It has
  -- written this query and then masks for equipments in ascending order, each equipment once. The
  -- masks switch on exactly the explicit codes and those of the profiles that the ranges hold, and
  -- the ranges hold each code that is switched on, an explicit one as well.
  pub configure_qualcomm_logs-IsConfigured :
      (explicit : List ℕ) (profiles : List CaptureProfile) (port after : Port ReadEvent)
      → All IsU16 explicit
      → configure_qualcomm_logs crc write_error explicit profiles port ≡ (ok tt, after)
      → (response : Bytes) × ((ranges : List ℕ) × (first_answer 1
              (feed crc default (received port.incoming)).1
            ≡ some response)
          × (parse_id_ranges_response response ≡ ok ranges)
          × (length ranges ≡ 16)
          × IsConfigured crc ranges explicit (λ code. in_profiles code profiles) port after)
  unfolding configure_qualcomm_logs configure feed
  configure_qualcomm_logs-IsConfigured explicit profiles port after he h =
      let wait = wait_for_log_config_response crc in
      let s = and_then-eq-ok _ (query_ranges crc write_error wait port) tt after h in
      let (first, (response, asked, parsed, same, waited)) =
        query_ranges-eq-ok crc write_error wait quiet s.value port s.middle s.first in
      (
        response,
        (
          s.value,
          subst (λ events. first_answer 1 (feed crc default (received events)).1 ≡ some response)
              same (wait-first_answer 1 asked response waited),
          parsed,
          length-parse_id_ranges_response response s.value parsed,
          configure_groups-IsConfigured wait quiet s.value explicit profiles port s.middle after he
              first s.then_,
        ),
      )
