-- ===== src/Agent/Configure/Refusals.antt =====
-- The configuration never fails in `set_mask_request`, over any wait: what it is refused for, it
-- checks.
use Prim.Native.String.{String}
use grok.Base.{
  ℕ, ◌≡◌, refl, Bool, true, false, ◌==◌, Option, none, some, List, [], ◌∷◌, All, get_or, get_or,
  sort_dedup, IsU16, Bytes, Result, ok, err, map_err, if◌then◌else◌,
}
use grok.Qualcomm.Hdlc.{Crc}
use grok.Qualcomm.Codes.{Grouped}
use grok.Qualcomm.Mask.{ControlError, set_mask_request}
use grok.Qualcomm.Mask.Bitmap.{set_mask_request_bits}
use grok.Qualcomm.LogConfig.{parse_log_config_header}
use grok.Qualcomm.LogConfig.Refusals.{
  IsResponseError, Responds, parse_log_config_header-Responds, parse_id_ranges_response-Responds,
}
use grok.Agent.Control.{
  AgentError, io, timed_out, control, rejected_disable, rejected_mask, explicit_out_of_range,
  bridge_closed, blocked, Port, Exchange, and_then, send_result, send_diag_packet, query_ranges,
}
use grok.Agent.Configure.{
  select_all_codes, check_explicit, checked, configure_group, configure_groups, configure,
}
use grok.Agent.Configure.Masks.{
  AllGroups, HasCodes, group_log_codes-HasCodes, select_all_codes-IsU16, check_explicit-le,
}

abbrev pub IsNoRefusal : AgentError → Type 0
IsNoRefusal (io e) = Unit
IsNoRefusal (timed_out o) = Unit
IsNoRefusal (control e) = IsResponseError e
IsNoRefusal (rejected_disable s) = Unit
IsNoRefusal (rejected_mask e s) = Unit
IsNoRefusal (explicit_out_of_range c l) = Unit
IsNoRefusal bridge_closed = Unit
IsNoRefusal blocked = Unit

-- A result that is no refusal of a mask.
abbrev pub NotRefused : {A : Type 0} → Result AgentError A → Type 0
NotRefused (ok a) = Unit
NotRefused (err e) = IsNoRefusal e

and_then-NotRefused :
    {E A B : Type 0} (f : A → Exchange E B) (r : Result AgentError A × Port E)
    → NotRefused r.0
    → ((a : A) (port : Port E) → NotRefused (f a port).0)
    → NotRefused (and_then f r).0
unfolding and_then
and_then-NotRefused f (ok a, port) h k = k a port
and_then-NotRefused f (err e, port) h k = h

lift-NotRefused :
    {E A : Type 0} (r : Result ControlError A) (port : Port E)
    → Responds r
    → NotRefused (map_err control r)
lift-NotRefused (ok a) port h = tt
lift-NotRefused (err e) port h = h

if-NotRefused :
    {E A : Type 0} (b : Bool) (x y : Exchange E A) (port : Port E)
    → NotRefused (x port).0
    → NotRefused (y port).0
    → NotRefused ((if b then x else y) port).0
if-NotRefused true x y port hx hy = hx
if-NotRefused false x y port hx hy = hy

checked_then :
    {E A : Type 0} (o : Option ℕ) (last_item : ℕ) (f : Unit {0} → Exchange E A) (port : Port E)
    → (o ≡ none → (p : Port E) → NotRefused (f tt p).0)
    → NotRefused (and_then f (checked o last_item port)).0
unfolding and_then checked
checked_then none last_item f port h = h refl port
checked_then (some code) last_item f port h = tt

-- A read of a wait.
pub scanned-NotRefused :
    {E : Type 0} (o : Option Bytes) (events : List E) (more : Result AgentError Bytes × List E)
    → NotRefused more.0
    → NotRefused
        (elim o as (λ x. Result AgentError Bytes × List E) [
          | none ↦ more
          | some packet ↦ (ok packet, events)
        ]).0
scanned-NotRefused none events more h = h
scanned-NotRefused (some packet) events more h = tt

module _ (crc : Crc) (write_error : List Bytes → Bytes → Option String) where
  send_result-NotRefused :
      {E : Type 0} (o : Option String) (bytes : Bytes) (port : Port E)
      → NotRefused (send_result crc write_error o bytes port).0
  unfolding send_result
  send_result-NotRefused none bytes port = tt
  send_result-NotRefused (some e) bytes port = tt

  send_diag_packet-NotRefused :
      {E : Type 0} (packet : Bytes) (port : Port E)
      → NotRefused (send_diag_packet crc write_error packet port).0
  unfolding send_diag_packet
  send_diag_packet-NotRefused packet port = send_result-NotRefused _ _ port

  module _ {E : Type 0} (wait : ℕ → Exchange E Bytes)
      (waits : (operation : ℕ) (port : Port E) → NotRefused (wait operation port).0) where
    query_ranges-NotRefused :
        (port : Port E) → NotRefused (query_ranges crc write_error wait port).0
    unfolding query_ranges
    query_ranges-NotRefused port =
        and_then-NotRefused _ (send_diag_packet crc write_error _ port)
          (send_diag_packet-NotRefused _ port)
          (λ u p.
            and_then-NotRefused _ (wait 1 p) (waits 1 p)
              (λ response q. lift-NotRefused _ q (parse_id_ranges_response-Responds response)))

    -- The exchange behind the mask.
    configure_group-NotRefused :
        (explicit ranges profile_codes : List ℕ) (equip : ℕ) (items : List ℕ) (port : Port E)
        → HasCodes (select_all_codes ranges explicit profile_codes) equip items
        → NotRefused
            (configure_group crc write_error wait (sort_dedup explicit) ranges equip items port).0
    unfolding configure_group checked
    configure_group-NotRefused explicit ranges profile_codes equip items port h =
        checked_then (check_explicit (sort_dedup explicit) equip (get_or ranges equip 0) items)
          (get_or ranges equip 0) _ port
          (λ fine p.
            and_then-NotRefused _
              (map_err control (set_mask_request equip (get_or ranges equip 0) items), p)
              (lift-NotRefused _ p (built fine))
              (λ request q.
                and_then-NotRefused _ (send_diag_packet crc write_error request q)
                  (send_diag_packet-NotRefused request q)
                  (λ u r. and_then-NotRefused _ (wait 3 r) (waits 3 r) (λ response t.
                    and_then-NotRefused _ (map_err control (parse_log_config_header response), t)
                      (lift-NotRefused _ t (parse_log_config_header-Responds response))
                      (λ x v. if-NotRefused (x.0.status == 0) _ _ v tt tt)))))
      where
        built :
            check_explicit (sort_dedup explicit) equip (get_or ranges equip 0) items ≡ none
            → Responds (set_mask_request equip (get_or ranges equip 0) items)
        built fine =
            rw
              ((set_mask_request_bits equip (get_or ranges equip 0) items h.0
                (check_explicit-le ranges explicit profile_codes equip items h fine)).1)
              tt

    configure_groups-NotRefused :
        (explicit ranges profile_codes : List ℕ) (groups : Grouped) (port : Port E)
        → AllGroups (HasCodes (select_all_codes ranges explicit profile_codes)) groups
        → NotRefused
            (configure_groups crc write_error wait (sort_dedup explicit) ranges groups port).0
    unfolding configure_groups
    configure_groups-NotRefused explicit ranges profile_codes [] port h = tt
    configure_groups-NotRefused explicit ranges profile_codes ((equip, items) ∷ rest) port h =
        and_then-NotRefused _
          (configure_group crc write_error wait (sort_dedup explicit) ranges equip items port)
          (configure_group-NotRefused explicit ranges profile_codes equip items port h.0)
          (λ u p. configure_groups-NotRefused explicit ranges profile_codes rest p h.1)

    pub configure-NotRefused :
        (explicit profile_codes : List ℕ) (port : Port E)
        → All IsU16 explicit
        → All IsU16 profile_codes
        → NotRefused (configure crc write_error wait explicit profile_codes port).0
    unfolding configure
    configure-NotRefused explicit profile_codes port he hp =
        and_then-NotRefused _ (query_ranges crc write_error wait port)
          (query_ranges-NotRefused port)
          (λ ranges p. configure_groups-NotRefused explicit ranges profile_codes _ p (
            group_log_codes-HasCodes _
              (select_all_codes-IsU16 ranges explicit profile_codes he hp)))
