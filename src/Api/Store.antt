-- ===== src/Api/Store.antt =====
-- crates/6grok-api/src/main.rs: `Store`, `process_frame` and `packets`. A counter map is the list of
-- its entries in the order in which their keys came; the counters are unbounded.
pub mod Mirroring
pub mod Counters
pub mod Packets
pub mod Tally
pub mod Totals
pub mod Errors
use Prim.Native.String.{String}
use text.Mathlib.Text.{◌==◌ as str_eq}
use grok.Base.{
  ℕ, zero, suc, ◌+◌, ◌-◌, ◌≤◌, ◌<◌, min, max, Bool, true, false, Option, none, some, List, [], ◌∷◌,
  ◌++◌, ltb, leb, if◌then◌else◌, length, drop, Bytes, Result, ok, err,
}
use grok.Core.{Vendor, CaptureFrame, WireError}
use grok.Api.Gsmtap.{qc_diag_datagram}

-- What the fivegrok parser makes of a frame: the fields that the service reads, and the others, which
-- it only serialises.
pub record Decoded : Type 0 where
  pub vendor : String
  pub rat : String
  pub layer : String
  pub fully_decoded : Bool
  pub others : Bytes

abbrev pub Counters : Type 0
Counters = List (String × ℕ)

-- `*map.entry(key).or_default() += 1`
unfoldable pub increment : String → Counters → Counters
increment key [] = (key, 1) ∷ []
increment key ((k, n) ∷ rest) =
    if str_eq key k then (k, n + 1) ∷ rest else (k, n) ∷ increment key rest

pub record Store (V : Type 0) : Type 0 where
  pub received : ℕ
  pub fully_decoded : ℕ
  pub by_vendor : Counters
  pub by_rat : Counters
  pub by_layer : Counters
  pub history : List V

-- `Store::new()`
abbrev pub new : {V : Type 0} → Store V
new = record {
  received = 0;
  fully_decoded = 0;
  by_vendor = [];
  by_rat = [];
  by_layer = [];
  history = [];
}

-- `while history.len() > history_limit { history.pop_front(); }`
unfoldable pub trim : {V : Type 0} → ℕ → List V → List V
trim limit [] = []
trim limit (v ∷ vs) =
    let rest = trim limit vs in if ltb limit (length (v ∷ vs)) then rest else v ∷ vs

abbrev pub vendor_key : Decoded → String
vendor_key d = if str_eq d.vendor "" then "Qualcomm" else d.vendor

-- The block under the write lock.
unfoldable pub record_packet : {V : Type 0} → ℕ → Decoded → V → Store V → Store V
record_packet limit d value s = record {
  received = s.received + 1;
  fully_decoded = if d.fully_decoded then s.fully_decoded + 1 else s.fully_decoded;
  by_vendor = increment (vendor_key d) s.by_vendor;
  by_rat = increment d.rat s.by_rat;
  by_layer = increment d.layer s.by_layer;
  history = trim limit (s.history ++ (value ∷ []));
}

-- `packets`: the limit asked for is 100 if there is none, and kept between 1 and 1000.
abbrev pub packet_limit : Option ℕ → ℕ
packet_limit none = 100
packet_limit (some limit) = min (max limit 1) 1000

unfoldable pub packets : {V : Type 0} → Option ℕ → Store V → List V
packets limit s = drop (length s.history - packet_limit limit) s.history

pub data IngestError : Type 0 where
  gsmtap serializing read_length : String → IngestError
  decoding : WireError → IngestError
  invalid_length : ℕ → IngestError
  read_frame : Option String → IngestError
  out_of_fuel : IngestError

-- The parser, `serde_json` (values and text) and the UDP socket, by what was sent before.
pub record Env (V : Type 0) : Type 0 where
  pub decode : CaptureFrame → Decoded
  pub to_value : Decoded → Result String V
  pub to_string : Decoded → Result String String
  pub gsmtap_enabled : Bool
  pub udp_error : List Bytes → Bytes → Option String
  pub history_limit : ℕ

-- The store, the datagrams sent, and the texts for the live subscribers.
pub record Service (V : Type 0) : Type 0 where
  pub store : Store V
  pub datagrams : List Bytes
  pub live : List String

module _ {V : Type 0} (env : Env V) where
  pub sent : Option String → Bytes → Service V → Option IngestError × Service V
  sent (some e) datagram s = (some (gsmtap e), s)
  sent none datagram s = (none, record s { datagrams = s.datagrams ++ (datagram ∷ []) })

  -- `frame.payload.get(2..)`, sent if there is one.
  pub mirror_payload : Bytes → Service V → Option IngestError × Service V
  mirror_payload [] s = (none, s)
  mirror_payload (a ∷ []) s = (none, s)
  mirror_payload (a ∷ b ∷ raw_diag) s =
      sent (env.udp_error s.datagrams (qc_diag_datagram raw_diag)) (qc_diag_datagram raw_diag) s

  pub mirror_vendor : Vendor → Bool → Bytes → Service V → Option IngestError × Service V
  mirror_vendor Vendor.qualcomm true payload s = mirror_payload payload s
  mirror_vendor Vendor.qualcomm false payload s = (none, s)
  mirror_vendor Vendor.mediatek enabled payload s = (none, s)
  mirror_vendor Vendor.samsung enabled payload s = (none, s)

  unfoldable pub mirror : CaptureFrame → Service V → Option IngestError × Service V
  unfolding mirror_vendor mirror_payload sent
  mirror frame s = mirror_vendor frame.vendor env.gsmtap_enabled frame.payload s

  unfoldable pub stored :
      Decoded → Result String V → Result String String → Service V → Option IngestError × Service V
  stored d (err e) text s = (some (serializing e), s)
  stored d (ok value) (err e) s = (some (serializing e), s)
  stored d (ok value) (ok text) s = (
    none,
    record s {
      store = record_packet env.history_limit d value s.store;
      live = s.live ++ (text ∷ []);
    },
  )

  unfoldable pub after_mirror :
      CaptureFrame → Option IngestError × Service V → Option IngestError × Service V
  after_mirror frame (some e, s) = (some e, s)
  after_mirror frame (none, s) =
      stored (env.decode frame) (env.to_value (env.decode frame)) (env.to_string (env.decode frame))
        s

  unfoldable pub process_frame : CaptureFrame → Service V → Option IngestError × Service V
  unfolding after_mirror stored
  process_frame frame s = after_mirror frame (mirror frame s)
