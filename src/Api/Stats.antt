-- ===== src/Api/Stats.antt =====
-- crates/6grok-api/src/main.rs: `stats`, and what it reports of a server. The division on `f64` is a
-- parameter.
use grok.Base.{
  ℕ, ◌-◌, min, ◌≡◌, ap, ◌∙◌, Bool, ◌==◌, leb, if◌then◌else◌, length, length-drop, ℤ, pos, negsuc,
  List, drop, Option, All, arith,
}
use grok.Core.{MessagePack}
use grok.Api.Store.{Counters, Store, Env, packets, packet_limit, vendor_key}
use grok.Api.Store.Counters.{count}
use grok.Api.Store.Packets.{Packet, values_of, length-values_of, Counts}
use grok.Api.Store.Totals.{packets-Agrees}
use grok.Api.Server.{Server, Reachable}
use grok.Api.Server.Interleaving.{IsOfFrame, Reachable-IsSound}

-- Numbers of type `f64`: 0.0, and the quotient of two counters.
pub record Float (F : Type 0) : Type 0 where
  pub zero : F
  pub quotient : ℕ → ℕ → F

pub record Stats (F : Type 0) : Type 0 where
  pub started_at_ms : ℕ
  pub uptime_ms : ℤ
  pub received : ℕ
  pub fully_decoded : ℕ
  pub decode_ratio : F
  pub live_subscribers : ℕ
  pub gsmtap_enabled : Bool
  pub by_vendor : Counters
  pub by_rat : Counters
  pub by_layer : Counters
  pub history_len : ℕ

-- `now.saturating_sub(started)` on times of an `i64`, which are not negative.
abbrev pub elapsed : ℕ → ℕ → ℤ
elapsed now started = if leb started now then pos (now - started) else negsuc (started - now - 1)

-- `started` is the time when the store was made, and `subscribers` are the receivers of the channel.
unfoldable pub stats : {V F : Type 0} → Float F → Env V → ℕ → ℕ → ℕ → Store V → Stats F
stats float env started now subscribers s = record {
  started_at_ms = started;
  uptime_ms = elapsed now started;
  received = s.received;
  fully_decoded = s.fully_decoded;
  decode_ratio = if s.received == 0 then float.zero else float.quotient s.fully_decoded s.received;
  live_subscribers = subscribers;
  gsmtap_enabled = env.gsmtap_enabled;
  by_vendor = s.by_vendor;
  by_rat = s.by_rat;
  by_layer = s.by_layer;
  history_len = length s.history;
}

-- What is served, by the packets that were stored.
pub record IsServed {V F : Type 0} (limit : ℕ) (stored : List (Packet V)) (st : Stats F)
    (served : Option ℕ → List V) : Type 0 where
  pub received : st.received ≡ length stored
  pub decoded : st.fully_decoded ≡ count (λ p. p.decoded.fully_decoded) stored
  pub vendors : Counts vendor_key stored st.by_vendor
  pub rats : Counts (λ d. d.rat) stored st.by_rat
  pub layers : Counts (λ d. d.layer) stored st.by_layer
  pub history : st.history_len ≡ min limit (length stored)
  pub recent :
      (asked : Option ℕ)
      → served asked ≡ drop (length stored - min limit (packet_limit asked)) (values_of stored)

-- Whatever the agents and their tasks have done so far, there are packets, each made of one frame by
-- the parser and the serialiser, such that the statistics that are served count them: as many
-- received, for each vendor, RAT and layer as many as have it, as many fully decoded as the parser
-- says, and as many in the history up to its limit; and the packets that are served are the last of
-- their values, as many as the history and the request allow.
pub stats-IsServed :
    {V F : Type 0} (float : Float F) (codec : MessagePack) (env : Env V)
    (started now subscribers : ℕ) (sv : Server V)
    → Reachable codec env sv
    → (stored : List (Packet V)) × All (IsOfFrame codec env) stored
      × IsServed env.history_limit stored
          (stats float env started now subscribers sv.service.store)
          (λ asked. packets asked sv.service.store)
unfolding stats
stats-IsServed float codec env started now subscribers sv r =
    let sound = Reachable-IsSound codec env r in
    let a = sound.agree in
    (
      sound.packets,
      sound.of_frames,
      record {
        received = a.all_received;
        decoded = a.all_decoded;
        vendors = a.vendors;
        rats = a.rats;
        layers = a.layers;
        history =
            ap length a.recent
            ∙ length-drop _ (values_of sound.packets)
            ∙ omega (arith, length-values_of sound.packets);
        recent = λ asked. packets-Agrees env.history_limit sound.packets asked sv.service.store a;
      },
    )
