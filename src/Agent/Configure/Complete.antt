-- ===== src/Agent/Configure/Complete.antt =====
-- `configure_qualcomm_logs` with a modem that answers each request at once.
use Prim.Native.String.{String}
use grok.Base.{
  ℕ, ◌≤◌, ◌≡◌, refl, true, Option, none, List, [], ◌∷◌, ◌++◌, length, All, get_or, sort_dedup,
  IsU16, IsU32, Bytes, ok,
}
use grok.Qualcomm.Hdlc.{Crc, encode_hdlc}
use grok.Qualcomm.Codes.{Grouped, group_log_codes}
use grok.Qualcomm.LogConfig.{retrieve_id_ranges_request}
use grok.Qualcomm.LogConfig.Responses.{response, le_bytes}
use grok.Agent.Capture.{ReadEvent, read}
use grok.Agent.Profiles.{CaptureProfile, merge_profiles, merge_profiles-IsU16, in_profiles}
use grok.Agent.Control.{Port, and_then, wait_for_log_config_response}
use grok.Agent.Configure.{
  is_supported, select_all_codes, selected_codes, configure_groups, configure,
  configure_qualcomm_logs,
}
use grok.Agent.Configure.Masks.{
  AllGroups, HasCodes, group_log_codes-HasCodes, select_all_codes-IsU16,
}
use grok.Agent.Configure.Enabled.{IsConfigured, configure_groups-IsConfigured, quiet}
use grok.Agent.Configure.Accepted.{
  accepting, selected_supported, check_explicit-none, query_ranges-accepted,
  configure_group-accepted,
}

-- A port at which the modem reports its ranges and accepts the masks of the selected codes.
abbrev pub modem_port :
    Crc → List ℕ → List ℕ → List CaptureProfile → List ReadEvent → List Bytes → Port ReadEvent
modem_port crc ranges explicit profiles later sent = record {
  incoming =
      read (encode_hdlc crc (response 1 0 (le_bytes ranges)))
      ∷ accepting crc (group_log_codes (selected_codes ranges explicit profiles)) later;
  sent = sent;
}

module _ (ranges explicit profile_codes : List ℕ)
    (strict : All (λ c. is_supported ranges c ≡ true) explicit) where
  HasCodes-within :
      (equip : ℕ) (items : List ℕ)
      → HasCodes (select_all_codes ranges explicit profile_codes) equip items
      → All (λ item. item ≤ get_or ranges equip 0) items
  HasCodes-within equip [] h = tt
  HasCodes-within equip (item ∷ items) (he, ((hi, hm), hs)) = (
    selected_supported ranges explicit profile_codes strict equip item he hi hm,
    HasCodes-within equip items (he, hs),
  )

module _ (crc : Crc) (write_error : List Bytes → Bytes → Option String)
    (writes : (sent : List Bytes) (bytes : Bytes) → write_error sent bytes ≡ none) where
  configure_groups-accepted :
      (ranges explicit profile_codes : List ℕ) (groups : Grouped) (later : List ReadEvent)
      (sent : List Bytes)
      → All (λ c. is_supported ranges c ≡ true) explicit
      → AllGroups (HasCodes (select_all_codes ranges explicit profile_codes)) groups
      → (after : List Bytes) × (configure_groups crc write_error
            (wait_for_log_config_response crc)
            (sort_dedup explicit)
            ranges
            groups
            (record { incoming = accepting crc groups later; sent = sent })
          ≡ (ok tt, record { incoming = later; sent = after }))
  unfolding configure_groups and_then
  configure_groups-accepted ranges explicit profile_codes [] later sent strict h = (sent, refl)
  configure_groups-accepted ranges explicit profile_codes ((equip, items) ∷ rest) later sent strict
        h =
      let (middle, e) =
        configure_group-accepted crc write_error writes (sort_dedup explicit) ranges equip items
          (accepting crc rest later) sent h.0.0
          (HasCodes-within ranges explicit profile_codes strict equip items h.0)
          (check_explicit-none ranges explicit profile_codes strict equip items h.0) in
      let (after, f) =
        configure_groups-accepted ranges explicit profile_codes rest later middle strict h.1 in
      (after, rw (e, f))

  -- With explicit codes of 16 bits that the modem's sixteen ranges hold, at a port whose writes all
  -- succeed and whose reads bring the ranges and then the acceptance of a mask for each group of
  -- the selected codes, the configuration succeeds: it has taken those reads and no other, and what
  -- it wrote makes the modem log exactly the explicit codes and those of the profiles that the
  -- ranges hold, each of them within the ranges.
  pub configure_qualcomm_logs-accepted :
      (ranges explicit : List ℕ) (profiles : List CaptureProfile) (later : List ReadEvent)
      (sent : List Bytes)
      → length ranges ≡ 16
      → All IsU32 ranges
      → All IsU16 explicit
      → All (λ c. is_supported ranges c ≡ true) explicit
      → (after : List Bytes) × (configure_qualcomm_logs crc write_error explicit profiles
            (modem_port crc ranges explicit profiles later sent)
          ≡ (ok tt, record { incoming = later; sent = after }))
        × IsConfigured crc ranges explicit
            (λ code. in_profiles code profiles)
            (modem_port crc ranges explicit profiles later sent)
            (record { incoming = later; sent = after })
  unfolding configure_qualcomm_logs configure and_then selected_codes
  configure_qualcomm_logs-accepted ranges explicit profiles later sent h16 hr he strict =
      let profile_codes = merge_profiles [] profiles in
      let groups = group_log_codes (select_all_codes ranges explicit profile_codes) in
      let asked = sent ++ (encode_hdlc crc retrieve_id_ranges_request ∷ []) in
      let query =
        query_ranges-accepted crc write_error writes ranges (accepting crc groups later) sent h16
          hr in
      let (after, e) =
        configure_groups-accepted ranges explicit profile_codes groups later asked strict (
          group_log_codes-HasCodes _ (
            select_all_codes-IsU16 ranges explicit profile_codes he
              (merge_profiles-IsU16 profiles))) in
      (
        after,
        rw (query, e),
        configure_groups-IsConfigured crc write_error (wait_for_log_config_response crc)
            (quiet crc write_error) ranges explicit profiles _
            (record { incoming = accepting crc groups later; sent = asked }) _ he refl e,
      )
