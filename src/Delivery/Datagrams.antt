-- ===== src/Delivery/Datagrams.antt =====
-- From the modem to Wireshark: the DIAG packets that `run_qualcomm_stream` of
-- crates/6grok-agent/src/main.rs reads, and the datagrams that `process_frame` of
-- crates/6grok-api/src/main.rs sends.
use Prim.Native.String.{String}
use grok.Base.{
  ℕ, ◌+◌, ◌≡◌, ◌≢◌, refl, sym, ap, ◌∙◌, subst, false, ◌/◌, ◌%◌, arith, true, none, some, List, [],
  ◌∷◌, ◌++◌, append-nil, append_assoc, map, length, All, Bytes, Option, ok, Option-cases, inl, inr,
}
use grok.Core.{MessagePack, parser_payload, qualcomm_log_code}
use grok.Qualcomm.Hdlc.{Crc, default, feed}
use grok.Qualcomm.Hdlc.Encoding.{encode_all, feed-encode_all}
use grok.Agent.Output.{Env, Outputs}
use grok.Agent.Capture.{
  Clock, start, ReadEvent, read, ended, received, IsFlowing, log_frame, run_qualcomm_stream,
}
use grok.Agent.Capture.Frames.{log_frames, emit_all}
use grok.Agent.Capture.Replay.{stream_frames, run-replay}
use grok.Agent.Output.Sending.{and_then-eq-ok}
use grok.Api.Store.Mirroring.{mirror-diag}
use grok.Api.Gsmtap.{qc_diag_datagram}
use grok.Api.Store.{Decoded, Service, IngestError, stored, after_mirror, process_frame}
use grok.Api.Store as Api
use grok.Api.Ingest.{ingest_client, and_process}
use grok.Api.Ingest.Uplink.{process_all}
use grok.Delivery.{IsAcceptable, emit_all-ingest_client}

-- The log packets among some packets.
abbrev pub log_packets : List Bytes → List Bytes
log_packets [] = []
log_packets (packet ∷ rest) = elim (qualcomm_log_code packet) [
  | none ↦ log_packets rest
  | some log_code ↦ packet ∷ log_packets rest
]

-- A service whose mirror is on and whose steps all succeed.
pub record IsHealthy {V : Type 0} (env : Api.Env V) : Type 0 where
  pub mirroring : env.gsmtap_enabled ≡ true
  pub sends : (datagrams : List Bytes) (datagram : Bytes) → env.udp_error datagrams datagram ≡ none
  pub values : (d : Decoded) → (v : V) × (env.to_value d ≡ ok v)
  pub texts : (d : Decoded) → (text : String) × (env.to_string d ≡ ok text)

-- A datagram, byte for byte: version 2, a header of four words, the type of DIAG packets, zeroes, and
-- the packet.
abbrev pub gsmtap_of : Bytes → Bytes
gsmtap_of packet = 2 ∷ 4 ∷ 0x11 ∷ 0 ∷ 0 ∷ 0 ∷ 0 ∷ 0 ∷ 0 ∷ 0 ∷ 0 ∷ 0 ∷ 0 ∷ 0 ∷ 0 ∷ 0 ∷ packet

-- The service behind some packets: no error, their datagrams behind those before, and the packets
-- counted.
abbrev pub Mirrored :
    {V : Type 0} → Service V → List Bytes → Option IngestError × Service V → Type 0
Mirrored s packets r =
    (r.0 ≡ none)
    × (r.1.datagrams ≡ s.datagrams ++ map gsmtap_of packets)
    × (r.1.store.received ≡ s.store.received + length packets)

module _ {V : Type 0} (env : Api.Env V) (healthy : IsHealthy env) (clock : Clock) where
  process_frame-log_frame :
      (sequence log_code : ℕ) (packet : Bytes) (s : Service V)
      → (t : Service V) × (process_frame env (log_frame clock sequence log_code packet) s
          ≡ (none, t))
        × (t.datagrams ≡ s.datagrams ++ (gsmtap_of packet ∷ []))
        × (t.store.received ≡ s.store.received + 1)
  unfolding qc_diag_datagram process_frame stored after_mirror Api.record_packet parser_payload
  process_frame-log_frame sequence log_code packet s =
      let frame = log_frame clock sequence log_code packet in
      let (v, value) = healthy.values (env.decode frame) in
      let (t, text) = healthy.texts (env.decode frame) in
      (
        record {
          store = Api.record_packet env.history_limit (env.decode frame) v s.store;
          datagrams = s.datagrams ++ (qc_diag_datagram packet ∷ []);
          live = s.live ++ (t ∷ []);
        },
        rw (
          mirror-diag env frame (log_code % 256) (log_code / 256 % 256) packet s refl refl
              healthy.mirroring (healthy.sends s.datagrams (qc_diag_datagram packet)),
          value,
          text,
        ),
        refl,
        refl,
      )

  process_all-log_frames :
      (codec : MessagePack) (sequence : ℕ) (packets : List Bytes) (s : Service V)
      → Mirrored s
          (log_packets packets)
          (process_all codec (process_frame env) (log_frames clock sequence (map ok packets)) s)
  unfolding log_frames and_process
  process_all-log_frames codec sequence [] s = (refl, sym (append-nil s.datagrams), omega arith)
  process_all-log_frames codec sequence (packet ∷ rest) s =
      elim (Option-cases (qualcomm_log_code packet)) [
        | inl other ↦
            rw (other, log_frames, log_packets) (process_all-log_frames codec sequence rest s)
        | inr (log_code, log) ↦
            let (t, e, datagrams, received) =
              process_frame-log_frame (sequence + 1) log_code packet s in
            let (ends, more, count) = process_all-log_frames codec (sequence + 1) rest t in
            rw (log, log_frames, log_packets, e)
              (
                ends,
                more
                    ∙ ap (λ old. old ++ map gsmtap_of (log_packets rest)) datagrams
                    ∙ append_assoc s.datagrams _ _,
                omega (arith, count, received),
              )
      ]

  -- A collector that reads the encodings of some DIAG packets from a file to its end, without an
  -- error and over a new uplink, and a healthy service that takes in what the uplink carries: the
  -- service sends one GSMTAP datagram for each log packet, in order, the bytes 2, 4 and 0x11, thirteen
  -- zeroes and the packet, and none for the others, and it counts each of them once. The packets are
  -- not empty, no read fails, and the frames are encoded in 1 byte to 8 MiB.
  pub run-ingest_client :
      (crc : Crc) (collector : Env) (packets : List Bytes) (events rest : List ReadEvent)
      (out out' : Outputs) (s : Service V)
      → All (λ p. p ≢ []) packets
      → IsFlowing events
      → received events ≡ encode_all crc packets
      → All (IsAcceptable collector.codec) (log_frames clock 0 (map ok packets))
      → out.raw ≡ none
      → out.wire ≡ some []
      → run_qualcomm_stream crc clock collector false (events ++ (read [] ∷ rest)) start out
        ≡ (ok ended, out')
      → (stream : Bytes) × (out'.wire ≡ some stream)
        × Mirrored s (log_packets packets) (
            ingest_client collector.codec
              (process_frame env)
              (record { bytes = stream; fault = none })
              s)
  unfolding log_frames
  run-ingest_client crc collector packets events rest out out' s full flows same small raw wire e =
      let frames = log_frames clock 0 (map ok packets) in
      let replayed = run-replay crc clock collector events rest start out flows raw in
      let seen : stream_frames crc clock collector start (received events) ≡ frames =
        ap (λ bytes. log_frames clock 0 (feed crc default bytes).1) same
        ∙ ap (λ t. log_frames clock 0 t.1) (feed-encode_all crc packets full) in
      let c = and_then-eq-ok _ _ ended out' (sym replayed ∙ e) in
      let emitted : emit_all collector frames out ≡ (ok tt, out') =
        ap (λ fs. emit_all collector fs out) (sym seen)
        ∙ c.first
        ∙ ap (λ o. (ok tt, o)) (ap (λ t. t.1) c.then_) in
      let (stream, carried, taken) =
        emit_all-ingest_client collector (process_frame env) frames out out' s small wire emitted in
      (
        stream,
        carried,
        subst (Mirrored s (log_packets packets)) (sym taken)
            (process_all-log_frames collector.codec 0 packets s),
      )
