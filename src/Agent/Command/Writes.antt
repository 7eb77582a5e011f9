-- ===== src/Agent/Command/Writes.antt =====
-- What the exchanges with the modem write to the port, whatever it answers.
use Prim.Native.String.{String}
use grok.Base.{
  ℕ, ◌≡◌, refl, sym, ap, subst, Bool, true, false, Bool-cases, inl, inr, ◌==◌, All, Option, none,
  some, List, [], ◌∷◌, ◌++◌, get_or, ltb, Bytes, Result, ok, map_err, if◌then◌else◌, Result-cases,
  sort_dedup, replicate, ◌+◌, ◌/◌,
}
use grok.Qualcomm.Hdlc.{Crc, encode_hdlc}
use grok.Qualcomm.Codes.{Grouped, group_log_codes}
use grok.Qualcomm.Mask.{ControlError, set_mask_request, fill_mask}
use grok.Qualcomm.Mask.Bitmap.{set_mask_header}
use grok.Qualcomm.LogConfig.{
  retrieve_id_ranges_request, disable_logging_request, parse_log_config_header,
}
use grok.Agent.Control.{
  AgentError, control, Port, Exchange, pure, raise, send_diag_packet, query_ranges, disable_logging,
}
use grok.Agent.Configure.{
  select_all_codes, check_explicit, checked, configure_group, configure_groups, configure,
}
use grok.Agent.Configure.Requests.{map_err-eq-ok}
use grok.Agent.World.Steps.{exchange_keeps, AllSent, send_diag_packet-AllSent}

-- The request that sets the mask of an equipment.
abbrev pub IsMaskRequest : Bytes → Type 0
IsMaskRequest packet =
    (equip last_item : ℕ) × ((mask : Bytes) × (packet ≡ set_mask_header equip last_item ++ mask))

ok_value : (r : Result ControlError Bytes) (a b : Bytes) → r ≡ ok a → r ≡ ok b → a ≡ b
ok_value r a b h g = cc

-- A mask request that was built is one.
set_mask_request-IsMaskRequest :
    (equip last_item : ℕ) (items : List ℕ) (packet : Bytes)
    → set_mask_request equip last_item items ≡ ok packet
    → IsMaskRequest packet
unfolding set_mask_request
set_mask_request-IsMaskRequest equip last_item items packet h = elim (Bool-cases (ltb 0x0f equip)) [
  | inl bad ↦ cc (rw bad at h)
  | inr fine ↦
      elim (Result-cases (fill_mask equip last_item items (replicate (last_item / 8 + 1) 0))) [
        | inl (mask, e) ↦
            (equip, last_item, (mask, ok_value _ packet _ h (rw (set_mask_request, fine, e) refl)))
        | inr (x, e) ↦ cc (rw (fine, e) at h)
      ]
]

-- Neither a check nor a lifted result changes the port.
checked-port :
    {E : Type 0} (P : Bytes → Type 0) (o : Option ℕ) (last_item : ℕ) (port : Port E)
    → AllSent P port
    → AllSent P (checked o last_item port).1
unfolding checked
checked-port P none last_item port h = h
checked-port P (some code) last_item port h = h

status-port :
    {E : Type 0} (P : Bytes → Type 0) (fine : Bool) (e : AgentError) (port : Port E)
    → AllSent P port
    → AllSent P ((if fine then pure tt else raise e) port).1
status-port P true e port h = h
status-port P false e port h = h

module _ (crc : Crc) (write_error : List Bytes → Bytes → Option String) {E : Type 0}
    (wait : ℕ → Exchange E Bytes)
    (quiet : (operation : ℕ) (port : Port E) → (wait operation port).1.sent ≡ port.sent)
    (P : Bytes → Type 0) where
  waits : (operation : ℕ) (port : Port E) → AllSent P port → AllSent P (wait operation port).1
  waits operation port h = subst (All P) (sym (quiet operation port)) h

  pub query_ranges-AllSent :
      (port : Port E)
      → P (encode_hdlc crc retrieve_id_ranges_request)
      → AllSent P port
      → AllSent P (query_ranges crc write_error wait port).1
  unfolding query_ranges
  query_ranges-AllSent port p h =
      exchange_keeps (AllSent P) _ (send_diag_packet crc write_error _ port)
        (send_diag_packet-AllSent crc write_error P _ port p h)
        (λ a q e g. exchange_keeps (AllSent P) _ (wait 1 q) (waits 1 q g) (λ response t f k. k))

  pub disable_logging-AllSent :
      (port : Port E)
      → P (encode_hdlc crc disable_logging_request)
      → AllSent P port
      → AllSent P (disable_logging crc write_error wait port).1
  unfolding disable_logging
  disable_logging-AllSent port p h =
      exchange_keeps (AllSent P) _ (send_diag_packet crc write_error _ port)
        (send_diag_packet-AllSent crc write_error P _ port p h)
        (λ a q e g. exchange_keeps (AllSent P) _ (wait 0 q) (waits 0 q g) (λ response t f k.
          exchange_keeps (AllSent P) _ (map_err control (parse_log_config_header response), t) k
            (λ x u d l. status-port P (x.0.status == 0) _ u l)))

  module _ (masks : (packet : Bytes) → IsMaskRequest packet → P (encode_hdlc crc packet)) where
    configure_group-AllSent :
        (explicit_set ranges : List ℕ) (equip : ℕ) (items : List ℕ) (port : Port E)
        → AllSent P port
        → AllSent P (configure_group crc write_error wait explicit_set ranges equip items port).1
    unfolding configure_group
    configure_group-AllSent explicit_set ranges equip items port h =
        let last_item = get_or ranges equip 0 in
        let o = check_explicit explicit_set equip last_item items in
        exchange_keeps (AllSent P) _ (checked o last_item port) (checked-port P o last_item port h)
          (λ a q e g.
            exchange_keeps (AllSent P) _
              (map_err control (set_mask_request equip last_item items), q) g
              (λ request t f k.
                exchange_keeps (AllSent P) _ (send_diag_packet crc write_error request t)
                  (send_diag_packet-AllSent crc write_error P request t
                    (masks request (
                      set_mask_request-IsMaskRequest equip last_item items request (
                        map_err-eq-ok (set_mask_request equip last_item items) request
                          (ap (λ r. r.0) f))))
                    k)
                  (λ b u d l.
                    exchange_keeps (AllSent P) _ (wait 3 u) (waits 3 u l) (λ response v c m.
                      exchange_keeps (AllSent P) _
                        (map_err control (parse_log_config_header response), v) m
                        (λ x y z n. status-port P (x.0.status == 0) _ y n)))))

    configure_groups-AllSent :
        (explicit_set ranges : List ℕ) (groups : Grouped) (port : Port E)
        → AllSent P port
        → AllSent P (configure_groups crc write_error wait explicit_set ranges groups port).1
    unfolding configure_groups
    configure_groups-AllSent explicit_set ranges [] port h = h
    configure_groups-AllSent explicit_set ranges ((equip, items) ∷ rest) port h =
        exchange_keeps (AllSent P) _
          (configure_group crc write_error wait explicit_set ranges equip items port)
          (configure_group-AllSent explicit_set ranges equip items port h)
          (λ a q e g. configure_groups-AllSent explicit_set ranges rest q g)

    pub configure-AllSent :
        (explicit profile_codes : List ℕ) (port : Port E)
        → P (encode_hdlc crc retrieve_id_ranges_request)
        → AllSent P port
        → AllSent P (configure crc write_error wait explicit profile_codes port).1
    unfolding configure
    configure-AllSent explicit profile_codes port p h =
        exchange_keeps (AllSent P) _ (query_ranges crc write_error wait port)
          (query_ranges-AllSent port p h)
          (λ ranges q e g.
            configure_groups-AllSent (sort_dedup explicit) ranges
              (group_log_codes (select_all_codes ranges explicit profile_codes)) q g)
