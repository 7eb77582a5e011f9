-- ===== src/Agent/Configure.antt =====
-- crates/6grok-agent/src/main.rs: `configure_qualcomm_logs`. The messages on the standard error are
-- left out.
pub mod Selection
pub mod Masks
pub mod Refusals
pub mod Outcome
pub mod Requests
pub mod Enabled
pub mod Accepted
pub mod Complete
use Prim.Native.String.{String}
use grok.Base.{
  ℕ, Bool, true, false, ◌&&◌, Option, none, some, List, [], ◌∷◌, ◌++◌, ltb, leb, ◌==◌,
  if◌then◌else◌, get_or, contains, sort_dedup, Bytes, Result, ok, err,
}
use grok.Qualcomm.Hdlc.{Crc}
use grok.Qualcomm.Codes.{Grouped, split_log_code, join_log_code, group_log_codes}
use grok.Qualcomm.Mask.{set_mask_request}
use grok.Qualcomm.LogConfig.{parse_log_config_header}
use grok.Agent.Capture.{ReadEvent}
use grok.Agent.Profiles.{CaptureProfile, merge_profiles}
use grok.Agent.Control.{
  AgentError, rejected_mask, explicit_out_of_range, Port, Exchange, and_then, ◌>>=◌, ◌>>◌, pure,
  raise, lift, send_diag_packet, wait_for_log_config_response, query_ranges,
}

-- `u32::from(item) <= ranges[usize::from(equip)]` for the two halves of a code.
abbrev pub is_supported : List ℕ → ℕ → Bool
is_supported ranges code = leb (split_log_code code).1 (get_or ranges (split_log_code code).0 0)

-- The loop over the codes of the profiles.
unfoldable pub select_codes : List ℕ → List ℕ → List ℕ → List ℕ → List ℕ
select_codes ranges explicit_set [] selected = selected
select_codes ranges explicit_set (code ∷ codes) selected = select_codes ranges explicit_set codes (
    if contains code explicit_set
    then selected
    else if is_supported ranges code
    then selected ++ (code ∷ [])
    else selected)

-- The selected codes, of the explicit ones and of those of the profiles.
unfoldable pub select_all_codes : List ℕ → List ℕ → List ℕ → List ℕ
unfolding select_codes
select_all_codes ranges explicit profile_codes =
    sort_dedup (select_codes ranges (sort_dedup explicit) profile_codes explicit)

unfoldable pub selected_codes : List ℕ → List ℕ → List CaptureProfile → List ℕ
unfolding select_all_codes
selected_codes ranges explicit profiles =
    select_all_codes ranges explicit (merge_profiles [] profiles)

-- The check of the items of a group, and the code that fails it.
unfoldable pub check_explicit : List ℕ → ℕ → ℕ → List ℕ → Option ℕ
check_explicit explicit_set equip last_item [] = none
check_explicit explicit_set equip last_item (item ∷ items) =
    let rest = check_explicit explicit_set equip last_item items in
    if contains (join_log_code equip item) explicit_set && ltb last_item item
    then some (join_log_code equip item)
    else rest

-- `checked?`, by the code that fails the check.
unfoldable pub checked : {E : Type 0} → Option ℕ → ℕ → Exchange E (Unit {0})
checked none last_item = pure tt
checked (some code) last_item = raise (explicit_out_of_range code last_item)

module _ (crc : Crc) (write_error : List Bytes → Bytes → Option String) where
  -- One turn of the loop over the groups, over the wait for a response.
  unfoldable pub configure_group :
      {E : Type 0} → (ℕ → Exchange E Bytes) → List ℕ → List ℕ → ℕ → List ℕ → Exchange E (Unit {0})
  unfolding checked
  configure_group wait explicit_set ranges equip items = do
    checked (check_explicit explicit_set equip (get_or ranges equip 0) items)
        (get_or ranges equip 0)
    request ← lift (set_mask_request equip (get_or ranges equip 0) items)
    send_diag_packet crc write_error request
    response ← wait 3
    (header, rest) ← lift (parse_log_config_header response)
    if header.status == 0 then pure tt else raise (rejected_mask equip header.status)

  unfoldable pub configure_groups :
      {E : Type 0} → (ℕ → Exchange E Bytes) → List ℕ → List ℕ → Grouped → Exchange E (Unit {0})
  configure_groups wait explicit_set ranges [] = pure tt
  configure_groups wait explicit_set ranges ((equip, items) ∷ rest) = do
    configure_group wait explicit_set ranges equip items
    configure_groups wait explicit_set ranges rest

  -- The whole, over the wait and the codes of the profiles.
  unfoldable pub configure :
      {E : Type 0} → (ℕ → Exchange E Bytes) → List ℕ → List ℕ → Exchange E (Unit {0})
  configure wait explicit profile_codes = do
    ranges ← query_ranges crc write_error wait
    configure_groups wait (sort_dedup explicit) ranges
        (group_log_codes (select_all_codes ranges explicit profile_codes))

  unfoldable pub configure_qualcomm_logs :
      List ℕ → List CaptureProfile → Exchange ReadEvent (Unit {0})
  unfolding configure
  configure_qualcomm_logs explicit profiles =
      configure (wait_for_log_config_response crc) explicit (merge_profiles [] profiles)
