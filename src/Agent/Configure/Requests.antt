-- ===== src/Agent/Configure/Requests.antt =====
-- What `configure_qualcomm_logs` has written to the port when it succeeds, over any wait that writes
-- nothing.
use Prim.Native.String.{String}
use grok.Base.{
  ℕ, ◌/◌, ◌%◌, ◌≤◌, ◌≡◌, refl, sym, ap, ◌∙◌, Bool, true, false, ◌==◌, Option, none, some, List, [],
  ◌∷◌, ◌++◌, append-nil, append_assoc, All, get_or, contains, sort_dedup, Bytes, Result, ok, err,
  map_err, if◌then◌else◌, Bool-cases, inl, inr, ==_iff, contains-All,
}
use grok.Qualcomm.Hdlc.{Crc, encode_hdlc}
use grok.Qualcomm.Codes.{Grouped, items_of}
use grok.Qualcomm.Mask.{ControlError, set_mask_request}
use grok.Qualcomm.Mask.Bitmap.{mask_bit, set_mask_header, set_mask_request_bits}
use grok.Qualcomm.LogConfig.{
  retrieve_id_ranges_request, parse_log_config_header, parse_id_ranges_response,
}
use grok.Agent.Control.{
  AgentError, control, rejected_mask, Port, Exchange, and_then, pure, raise, send_result,
  send_diag_packet, query_ranges,
}
use grok.Agent.Configure.{
  select_all_codes, check_explicit, checked, configure_group, configure_groups,
}
use grok.Agent.Configure.Masks.{AllGroups, HasCodes, check_explicit-le}

-- The exchange up to a success: what its first step returned, and the rest.
pub record Steps {E A B : Type 0} (f : A → Exchange E B) (r : Result AgentError A × Port E) (b : B)
    (after : Port E) : Type 0 where
  pub value : A
  pub middle : Port E
  pub first : r ≡ (ok value, middle)
  pub then_ : f value middle ≡ (ok b, after)

pub and_then-eq-ok :
    {E A B : Type 0} (f : A → Exchange E B) (r : Result AgentError A × Port E) (b : B)
    (after : Port E)
    → and_then f r ≡ (ok b, after)
    → Steps f r b after
unfolding and_then
and_then-eq-ok f (ok a, p) b after e = record { value = a; middle = p; first = refl; then_ = e }
and_then-eq-ok f (err x, p) b after e = cc

pub map_err-eq-ok :
    {A : Type 0} (r : Result ControlError A) (a : A) → map_err control r ≡ ok a → r ≡ ok a
map_err-eq-ok (ok x) a h = cc
map_err-eq-ok (err x) a h = cc

checked-eq-ok :
    {E : Type 0} (o : Option ℕ) (last_item : ℕ) (port after : Port E)
    → checked o last_item port ≡ (ok tt, after)
    → (o ≡ none) × (after ≡ port)
unfolding checked
checked-eq-ok none last_item port after h = (refl, sym (ap (λ t. t.1) h))
checked-eq-ok (some c) last_item port after h = cc

ok-injective : {A : Type 0} (r : Result ControlError A) (a b : A) → r ≡ ok a → r ≡ ok b → a ≡ b
ok-injective r a b h g = cc

-- The check of the modem's status.
accepted :
    {E : Type 0} (fine : Bool) (e : AgentError) (port after : Port E)
    → (if fine then pure tt else raise e) port ≡ (ok tt, after)
    → after.sent ≡ port.sent
accepted true e port after h = sym (ap (λ t. t.1.sent) h)
accepted false e port after h = cc

-- The masks written, each for an equipment.
abbrev pub Masks : Type 0
Masks = List (ℕ × Bytes)

-- Whether the masks switch a log code on, as a modem reads them.
abbrev pub is_enabled : ℕ → Masks → Bool
is_enabled code [] = false
is_enabled code ((equip, mask) ∷ masks) =
    if code / 4096 == equip then mask_bit mask (code % 4096) else is_enabled code masks

abbrev pub equipment_ids : {A : Type 0} → List (ℕ × A) → List ℕ
equipment_ids [] = []
equipment_ids ((equip, a) ∷ rest) = equip ∷ equipment_ids rest

-- The requests that carry the masks.
abbrev pub requests : Crc → List ℕ → Masks → List Bytes
requests crc ranges [] = []
requests crc ranges ((equip, mask) ∷ masks) =
    encode_hdlc crc (set_mask_header equip (get_or ranges equip 0) ++ mask)
    ∷ requests crc ranges masks

module _ (crc : Crc) (write_error : List Bytes → Bytes → Option String) where
  send_result-eq-ok :
      {E : Type 0} (o : Option String) (bytes : Bytes) (port after : Port E)
      → send_result crc write_error o bytes port ≡ (ok tt, after)
      → after.sent ≡ port.sent ++ (bytes ∷ [])
  unfolding send_result
  send_result-eq-ok none bytes port after h = sym (ap (λ t. t.1.sent) h)
  send_result-eq-ok (some e) bytes port after h = cc

  send_result-incoming :
      {E : Type 0} (o : Option String) (bytes : Bytes) (port : Port E)
      → (send_result crc write_error o bytes port).1.incoming ≡ port.incoming
  unfolding send_result
  send_result-incoming none bytes port = refl
  send_result-incoming (some e) bytes port = refl

  -- A write reads nothing.
  send_diag_packet-incoming :
      {E : Type 0} (packet : Bytes) (port : Port E)
      → (send_diag_packet crc write_error packet port).1.incoming ≡ port.incoming
  unfolding send_diag_packet
  send_diag_packet-incoming packet port =
      send_result-incoming (write_error port.sent (encode_hdlc crc packet)) _ port

  send_diag_packet-eq-ok :
      {E : Type 0} (packet : Bytes) (port after : Port E)
      → send_diag_packet crc write_error packet port ≡ (ok tt, after)
      → after.sent ≡ port.sent ++ (encode_hdlc crc packet ∷ [])
  unfolding send_diag_packet
  send_diag_packet-eq-ok packet port after h =
      send_result-eq-ok (write_error port.sent (encode_hdlc crc packet)) (encode_hdlc crc packet)
        port after h

  module _ {E : Type 0} (wait : ℕ → Exchange E Bytes)
      (quiet : (operation : ℕ) (port : Port E) → (wait operation port).1.sent ≡ port.sent) where
    -- The ranges are those of the response that the wait brings from the port's reads.
    pub query_ranges-eq-ok :
        (ranges : List ℕ) (port after : Port E)
        → query_ranges crc write_error wait port ≡ (ok ranges, after)
        → (after.sent ≡ port.sent ++ (encode_hdlc crc retrieve_id_ranges_request ∷ []))
          × ((response : Bytes) × (asked : Port E) × (parse_id_ranges_response response ≡ ok ranges)
              × (asked.incoming ≡ port.incoming)
              × ((wait 1 asked).0 ≡ ok response))
    unfolding query_ranges
    query_ranges-eq-ok ranges port after h =
        let s = and_then-eq-ok _ (send_diag_packet crc write_error _ port) ranges after h in
        let w = and_then-eq-ok _ (wait 1 s.middle) ranges after s.then_ in
        (
          sym (ap (λ t. t.1.sent) w.then_)
              ∙ sym (ap (λ t. t.1.sent) w.first)
              ∙ quiet 1 s.middle
              ∙ send_diag_packet-eq-ok retrieve_id_ranges_request port s.middle s.first,
          (
            w.value,
            s.middle,
            map_err-eq-ok (parse_id_ranges_response w.value) ranges (ap (λ t. t.0) w.then_),
            sym (ap (λ t. t.1.incoming) s.first)
                ∙ send_diag_packet-incoming retrieve_id_ranges_request port,
            ap (λ t. t.0) w.first,
          ),
        )

    configure_group-eq-ok :
        (explicit ranges profile_codes : List ℕ) (equip : ℕ) (items : List ℕ) (port after : Port E)
        → HasCodes (select_all_codes ranges explicit profile_codes) equip items
        → configure_group crc write_error wait (sort_dedup explicit) ranges equip items port
          ≡ (ok tt, after)
        → (mask : Bytes) × (after.sent
            ≡ port.sent
              ++ (encode_hdlc crc (set_mask_header equip (get_or ranges equip 0) ++ mask) ∷ []))
          × ((j : ℕ) → mask_bit mask j ≡ contains j items)
          × All (λ item. item ≤ get_or ranges equip 0) items
    unfolding configure_group
    configure_group-eq-ok explicit ranges profile_codes equip items port after h e =
        let last_item = get_or ranges equip 0 in
        let o = check_explicit (sort_dedup explicit) equip last_item items in
        let built = map_err control (set_mask_request equip last_item items) in
        let c = and_then-eq-ok _ (checked o last_item port) tt after e in
        let b = and_then-eq-ok _ (built, c.middle) tt after c.then_ in
        let s =
          and_then-eq-ok _ (send_diag_packet crc write_error b.value b.middle) tt after b.then_ in
        let w = and_then-eq-ok _ (wait 3 s.middle) tt after s.then_ in
        let p =
          and_then-eq-ok _ (map_err control (parse_log_config_header w.value), w.middle) tt after
            w.then_ in
        let fine = checked-eq-ok o last_item port c.middle c.first in
        let within = check_explicit-le ranges explicit profile_codes equip items h fine.0 in
        let (mask, request, long, bytes, bits) =
          set_mask_request_bits equip last_item items h.0 within in
        let same : b.value ≡ set_mask_header equip last_item ++ mask =
          ok-injective (set_mask_request equip last_item items) _ _
            (map_err-eq-ok _ b.value (ap (λ t. t.0) b.first)) request in
        (
          mask,
          accepted (p.value.0.status == 0) (rejected_mask equip p.value.0.status) p.middle after
                p.then_
              ∙ sym (ap (λ t. t.1.sent) p.first)
              ∙ sym (ap (λ t. t.1.sent) w.first)
              ∙ quiet 3 s.middle
              ∙ send_diag_packet-eq-ok b.value b.middle s.middle s.first
              ∙ ap (λ q. q.sent ++ (encode_hdlc crc b.value ∷ []))
                  (sym (ap (λ t. t.1) b.first) ∙ fine.1)
              ∙ ap (λ packet. port.sent ++ (encode_hdlc crc packet ∷ [])) same,
          bits,
          within,
        )

    pub configure_groups-eq-ok :
        (explicit ranges profile_codes : List ℕ) (groups : Grouped) (port after : Port E)
        → AllGroups (HasCodes (select_all_codes ranges explicit profile_codes)) groups
        → configure_groups crc write_error wait (sort_dedup explicit) ranges groups port
          ≡ (ok tt, after)
        → (masks : Masks) × (after.sent ≡ port.sent ++ requests crc ranges masks)
          × (equipment_ids masks ≡ equipment_ids groups)
          × ((code : ℕ)
              → is_enabled code masks ≡ contains (code % 4096) (items_of (code / 4096) groups))
          × ((code : ℕ)
              → contains (code % 4096) (items_of (code / 4096) groups) ≡ true
              → code % 4096 ≤ get_or ranges (code / 4096) 0)
    unfolding configure_groups items_of contains
    configure_groups-eq-ok explicit ranges profile_codes [] port after h e = (
      [],
      sym (ap (λ t. t.1.sent) e) ∙ sym (append-nil port.sent),
      refl,
      λ code. refl,
      λ code m. cc,
    )
    configure_groups-eq-ok explicit ranges profile_codes ((equip, items) ∷ rest) port after h e =
        let s =
          and_then-eq-ok _
            (configure_group crc write_error wait (sort_dedup explicit) ranges equip items port) tt
            after e in
        let (mask, sent, bits, within) =
          configure_group-eq-ok explicit ranges profile_codes equip items port s.middle h.0
            s.first in
        let (masks, more, ids, all, rest_within) =
          configure_groups-eq-ok explicit ranges profile_codes rest s.middle after h.1 s.then_ in
        (
          (equip, mask) ∷ masks,
          more ∙ ap (λ old. old ++ requests crc ranges masks) sent ∙ append_assoc port.sent _ _,
          ap (◌∷◌ equip) ids,
          λ code. elim (Bool-cases (code / 4096 == equip)) [
            | inl t ↦ rw t (bits (code % 4096))
            | inr t ↦ rw t (all code)
          ],
          λ code m. elim (Bool-cases (code / 4096 == equip)) [
            | inl t ↦
                let e : code / 4096 ≡ equip = (==_iff _ _).0 t in
                rw e (
                  contains-All (λ item. item ≤ get_or ranges equip 0) items (code % 4096) within
                    (rw t at m))
            | inr t ↦ rest_within code (rw t at m)
          ],
        )
