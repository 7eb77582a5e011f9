-- ===== src/Api/Store/Totals.antt =====
-- The statistics agree with each other, and the history is the end of what was stored.
use Prim.Native.String.{String}
use grok.Base.{
  ℕ, zero, suc, ◌+◌, ◌-◌, min, ◌≡◌, refl, sym, ap, ◌∙◌, subst, Bool-cases, inl, inr, Option, none,
  some, List, [], ◌∷◌, ◌++◌, length, length-append, drop, drop-append_le, length-drop, ◌⊎◌, ◌≢◌,
  ltb, Result, ok, err, arith,
}
use grok.Core.{CaptureFrame}
use grok.Api.Store.Counters.{count, count-append}
use grok.Api.Store.Packets.{
  Packet, values_of, values_of-append, length-values_of, Counts, increment-Counts,
}
use grok.Api.Store.Mirroring.{mirror-Mirrors}
use grok.Api.Store.{
  vendor_key, Store, new, trim, record_packet, Decoded, IngestError, Env, Service, mirror, stored,
  after_mirror, process_frame, packets, packet_limit,
}

module _ {V : Type 0} where
  -- `packets` are those stored so far.
  pub record Agrees (limit : ℕ) (packets : List (Packet V)) (s : Store V) : Type 0 where
    pub all_received : s.received ≡ length packets
    pub all_decoded : s.fully_decoded ≡ count (λ p. p.decoded.fully_decoded) packets
    pub vendors : Counts vendor_key packets s.by_vendor
    pub rats : Counts (λ d. d.rat) packets s.by_rat
    pub layers : Counts (λ d. d.layer) packets s.by_layer
    pub recent : s.history ≡ drop (length packets - limit) (values_of packets)

  drop-nil : (n : ℕ) → ◌≡◌ {A = List V} (drop n []) []
  drop-nil zero = refl
  drop-nil (suc n) = refl

  drop-drop : (a b : ℕ) (xs : List V) → drop a (drop b xs) ≡ drop (b + a) xs
  drop-drop a zero xs = ap (λ n. drop n xs) (omega arith)
  drop-drop a (suc b) [] = drop-nil a ∙ sym (drop-nil (suc b + a))
  drop-drop a (suc b) (x ∷ xs) =
      let e : suc b + a ≡ suc (b + a) = omega arith in rw e (drop-drop a b xs)

  -- A new store agrees with no packets.
  pub new-Agrees : (limit : ℕ) → Agrees limit [] new
  new-Agrees limit = record {
    all_received = refl;
    all_decoded = refl;
    vendors = record { each = λ key. refl; all = refl };
    rats = record { each = λ key. refl; all = refl };
    layers = record { each = λ key. refl; all = refl };
    recent = sym (drop-nil (0 - limit));
  }

  trim-drop : (limit : ℕ) (vs : List V) → trim limit vs ≡ drop (length vs - limit) vs
  unfolding trim
  trim-drop limit [] = sym (drop-nil (0 - limit))
  trim-drop limit (v ∷ vs) = elim (Bool-cases (ltb limit (suc (length vs)))) [
    | inl t ↦
        let e : suc (length vs) - limit ≡ suc (length vs - limit) = ground arith in
        rw (t, e) (trim-drop limit vs)
    | inr t ↦ let e : suc (length vs) - limit ≡ 0 = ground arith in rw (t, e)
  ]

  -- What a trimmed list keeps of one more value.
  drop-drop_append :
      (limit : ℕ) (vs : List V) (v : V)
      → trim limit (drop (length vs - limit) vs ++ (v ∷ []))
        ≡ drop (length (vs ++ (v ∷ [])) - limit) (vs ++ (v ∷ []))
  drop-drop_append limit vs v =
      ap (trim limit) (sym (drop-append_le (length vs - limit) vs (v ∷ []) (omega arith)))
      ∙ trim-drop limit (drop (length vs - limit) (vs ++ (v ∷ [])))
      ∙ drop-drop (length (drop (length vs - limit) (vs ++ (v ∷ []))) - limit) (length vs - limit)
          (vs ++ (v ∷ []))
      ∙ ap (λ n. drop n (vs ++ (v ∷ [])))
          (omega
            (arith, length-drop (length vs - limit) (vs ++ (v ∷ [])), length-append vs (v ∷ [])))

  -- A stored packet keeps the statistics in agreement, as the last one.
  pub record_packet-Agrees :
      (limit : ℕ) (packets : List (Packet V)) (p : Packet V) (s : Store V)
      → Agrees limit packets s
      → Agrees limit (packets ++ (p ∷ [])) (record_packet limit p.decoded p.value s)
  unfolding record_packet
  record_packet-Agrees limit packets p s h = record {
    all_received = omega (arith, length-append packets (p ∷ []), h.all_received);
    all_decoded =
        ground (arith, h.all_decoded, count-append (λ q. q.decoded.fully_decoded) packets (p ∷ []));
    vendors = increment-Counts vendor_key packets p s.by_vendor h.vendors;
    rats = increment-Counts (λ d. d.rat) packets p s.by_rat h.rats;
    layers = increment-Counts (λ d. d.layer) packets p s.by_layer h.layers;
    recent =
        ap (λ vs. trim limit (vs ++ (p.value ∷ [])))
          (h.recent
            ∙ ap (λ n. drop (n - limit) (values_of packets)) (sym (length-values_of packets)))
        ∙ drop-drop_append limit (values_of packets) p.value
        ∙ ap (λ vs. drop (length vs - limit) vs) (sym (values_of-append packets p))
        ∙ ap (λ n. drop (n - limit) (values_of (packets ++ (p ∷ []))))
            (length-values_of (packets ++ (p ∷ [])));
  }

-- One frame: stored, with what it adds to the packets, or failed with the store as it was.
abbrev pub StoresOrFails :
    {V : Type 0}
    → ℕ
    → List (Packet V)
    → List (Packet V)
    → Store V
    → Option IngestError × Service V
    → Type 0
StoresOrFails limit packets added before r =
    ((r.0 ≡ none) × (length added ≡ 1) × Agrees limit (packets ++ added) r.1.store)
    ⊎ ((r.0 ≢ none) × (r.1.store ≡ before))

module _ {V : Type 0} (env : Env V) where
  abbrev pub packet_of : Decoded → Result String V → Result String String → List (Packet V)
  packet_of d (ok v) (ok text) = record { decoded = d; value = v; text = text } ∷ []
  packet_of d _ _ = []

  -- The packet that a frame stands for, if it can be serialised.
  abbrev pub packet_of_frame : CaptureFrame → List (Packet V)
  packet_of_frame f =
      packet_of (env.decode f) (env.to_value (env.decode f)) (env.to_string (env.decode f))

  stored-StoresOrFails :
      (packets : List (Packet V)) (d : Decoded) (v : Result String V) (t : Result String String)
      (s : Service V)
      → Agrees env.history_limit packets s.store
      → StoresOrFails env.history_limit packets (packet_of d v t) s.store (stored env d v t s)
  unfolding stored
  stored-StoresOrFails packets d (err e) t s h = inr (λ c. cc, refl)
  stored-StoresOrFails packets d (ok v) (err e) s h = inr (λ c. cc, refl)
  stored-StoresOrFails packets d (ok v) (ok t) s h =
      inl (refl, refl, record_packet-Agrees env.history_limit packets _ s.store h)

  after_mirror-StoresOrFails :
      (packets : List (Packet V)) (f : CaptureFrame) (before : Store V)
      (r : Option IngestError × Service V)
      → Agrees env.history_limit packets before
      → r.1.store ≡ before
      → StoresOrFails env.history_limit packets (packet_of_frame f) before (after_mirror env f r)
  unfolding after_mirror
  after_mirror-StoresOrFails packets f before (some e, s) h same = inr (λ c. cc, same)
  after_mirror-StoresOrFails packets f before (none, s) h same =
      subst
        (λ b.
          StoresOrFails env.history_limit packets (packet_of_frame f) b
            (after_mirror env f (none, s)))
        same
        (stored-StoresOrFails packets (env.decode f) (env.to_value (env.decode f))
          (env.to_string (env.decode f)) s (subst (Agrees env.history_limit packets) (sym same) h))

  -- If the statistics agree with the packets stored so far, then a frame either has a packet and is
  -- stored, and they agree with its packet as the last, or it fails, and the store is as it was. They
  -- agree when the number received is that of the packets and the number fully decoded that of those
  -- which are, the counter of each vendor (an empty one counts as Qualcomm), RAT and layer is the
  -- number of its packets, the sums of the counters are the number of all, and the history is the last
  -- values up to its limit.
  pub process_frame-StoresOrFails :
      (packets : List (Packet V)) (f : CaptureFrame) (s : Service V)
      → Agrees env.history_limit packets s.store
      → StoresOrFails env.history_limit packets (packet_of_frame f) s.store (process_frame env f s)
  unfolding process_frame
  process_frame-StoresOrFails packets f s h =
      after_mirror-StoresOrFails packets f s.store (mirror env f s) h (mirror-Mirrors env f s).0

-- The packets that are served are the last values, at most as many as the history holds and as the
-- request asks for.
pub packets-Agrees :
    {V : Type 0} (limit : ℕ) (stored_packets : List (Packet V)) (asked : Option ℕ) (s : Store V)
    → Agrees limit stored_packets s
    → packets asked s
      ≡ drop (length stored_packets - min limit (packet_limit asked)) (values_of stored_packets)
unfolding packets
packets-Agrees limit stored_packets asked s h =
    let values = values_of stored_packets in
    let count = length-values_of stored_packets in
    ap (λ vs. drop (length vs - packet_limit asked) vs)
      (h.recent ∙ ap (λ n. drop (n - limit) values) (sym count))
    ∙ drop-drop (length (drop (length values - limit) values) - packet_limit asked)
        (length values - limit) values
    ∙ ap (λ n. drop n values)
        (total (packet_limit asked) (length (drop (length values - limit) values)) (length values)
            (length-drop (length values - limit) values)
          ∙ ap (λ n. n - min limit (packet_limit asked)) count)
  where
    total : (p k m : ℕ) → k ≡ m - (m - limit) → (m - limit) + (k - p) ≡ m - min limit p
    total p k m e = omega arith
