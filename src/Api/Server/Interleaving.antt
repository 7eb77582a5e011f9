-- ===== src/Api/Server/Interleaving.antt =====
-- However the tasks are interleaved, the store stays in agreement, and no text is lost.
use Prim.Native.String.{String}
use grok.Base.{
  ℕ, ◌+◌, ◌≡◌, refl, sym, ap, subst, inl, inr, Option, none, some, List, [], ◌∷◌, ◌++◌, All,
  All-append, Result, ok, err, arith,
}
use grok.Core.{CaptureFrame, MessagePack}
use grok.Api.Store.{IngestError, Env, Service, mirror}
use grok.Api.Store.Packets.{Packet}
use grok.Api.Store.Totals.{Agrees, record_packet-Agrees, new-Agrees}
use grok.Api.Ingest.{Connection}
use grok.Api.Store.Mirroring.{mirror-Mirrors}
use grok.Api.Server.Reading.{next_frame-cases}
use grok.Api.Server.Texts.{
  text_of, pending, weigh, SameTexts, weigh-append, weigh-pending, texts_of, texts_of-append,
}
use grok.Api.Server.{
  Task, reading, mirroring, recording, publishing, closed, next_frame, mirrored, recorded, advance,
  Server, Reachable, started, accepted, turned,
}

module _ {V : Type 0} (codec : MessagePack) (env : Env V) where
  -- A packet that was made of one frame.
  abbrev pub IsOfFrame : Packet V → Type 0
  IsOfFrame p =
      (f : CaptureFrame) × (env.decode f ≡ p.decoded)
      × (env.to_value p.decoded ≡ ok p.value)
      × (env.to_string p.decoded ≡ ok p.text)

  -- What holds of a server, by the packets that were stored.
  pub record IsSound (sv : Server V) : Type 0 where
    pub packets : List (Packet V)
    pub of_frames : All IsOfFrame packets
    pub agree : Agrees env.history_limit packets sv.service.store
    pub texts : SameTexts (sv.service.live ++ pending sv.tasks) (texts_of packets)

  -- What a turn leaves of that, where `live` and the text of the task were there before it.
  record Turn (packets : List (Packet V)) (before : List String) (t' : Task) (s' : Service V)
      : Type 0 where
    later : List (Packet V)
    all_of_frames : All IsOfFrame later
    agrees : Agrees env.history_limit later s'.store
    weights :
        (w : String → ℕ)
        → weigh w s'.live + weigh w (text_of t') + weigh w (texts_of packets)
          ≡ weigh w before + weigh w (texts_of later)

  -- A turn that leaves the store and the texts alone.
  kept :
      (packets : List (Packet V)) (t t' : Task) (s s' : Service V)
      → text_of t ≡ []
      → text_of t' ≡ []
      → s'.store ≡ s.store
      → s'.live ≡ s.live
      → All IsOfFrame packets
      → Agrees env.history_limit packets s.store
      → Turn packets (s.live ++ text_of t) t' s'
  kept packets t t' s s' p p' e l o h = record {
    later = packets;
    all_of_frames = o;
    agrees = subst (Agrees env.history_limit packets) (sym e) h;
    weights = λ w.
        omega (
          arith,
          ap (weigh w) p,
          ap (weigh w) p',
          ap (weigh w) l,
          weigh-append w s.live (text_of t),
        );
  }

  text_of-next_frame : (c : Connection) → text_of (next_frame codec env c) ≡ []
  text_of-next_frame c = elim (next_frame-cases codec env c) [
    | inl (e, (same, loop)) ↦ ap text_of same
    | inr (frame, rest, (same, shorter, more)) ↦ ap text_of same
  ]

  mirrored-Turn :
      (packets : List (Packet V)) (f : CaptureFrame) (c : Connection) (s : Service V)
      (r : Option IngestError × Service V)
      → r.1.store ≡ s.store
      → r.1.live ≡ s.live
      → All IsOfFrame packets
      → Agrees env.history_limit packets s.store
      → Turn packets (s.live ++ []) (mirrored codec env f c r).0 (mirrored codec env f c r).1
  unfolding mirrored
  mirrored-Turn packets f c s (some e, s') q l o h =
      kept packets (mirroring f c) (closed (some e)) s s' refl refl q l o h
  mirrored-Turn packets f c s (none, s') q l o h =
      kept packets (mirroring f c) (recording f c) s s' refl refl q l o h

  abbrev packet : CaptureFrame → V → String → Packet V
  packet f v text = record { decoded = env.decode f; value = v; text = text }

  recorded-Turn :
      (packets : List (Packet V)) (f : CaptureFrame) (c : Connection) (v : Result String V)
      (text : Result String String) (s : Service V)
      → env.to_value (env.decode f) ≡ v
      → env.to_string (env.decode f) ≡ text
      → All IsOfFrame packets
      → Agrees env.history_limit packets s.store
      → Turn packets
          (s.live ++ [])
          (recorded codec env c (env.decode f) v text s).0
          (recorded codec env c (env.decode f) v text s).1
  unfolding recorded
  recorded-Turn packets f c (err e) text s ev et o h =
      kept packets (recording f c) (closed _) s s refl refl refl refl o h
  recorded-Turn packets f c (ok v) (err e) s ev et o h =
      kept packets (recording f c) (closed _) s s refl refl refl refl o h
  recorded-Turn packets f c (ok v) (ok text) s ev et o h = record {
    later = packets ++ (packet f v text ∷ []);
    all_of_frames = All-append IsOfFrame packets (packet f v text ∷ []) o ((f, refl, ev, et), tt);
    agrees = record_packet-Agrees env.history_limit packets (packet f v text) s.store h;
    weights = λ w. omega (
      arith,
      ap (weigh w) (texts_of-append packets (packet f v text)),
      weigh-append w (texts_of packets) (text ∷ []),
      weigh-append w s.live [],
    );
  }

  advance-Turn :
      (packets : List (Packet V)) (t : Task) (s : Service V)
      → All IsOfFrame packets
      → Agrees env.history_limit packets s.store
      → Turn packets (s.live ++ text_of t) (advance codec env t s).0 (advance codec env t s).1
  unfolding advance
  advance-Turn packets (reading c) s o h =
      kept packets (reading c) _ s s refl (text_of-next_frame c) refl refl o h
  advance-Turn packets (mirroring f c) s o h =
      mirrored-Turn packets f c s (mirror env f s) (mirror-Mirrors env f s).0
        (mirror-Mirrors env f s).1 o h
  advance-Turn packets (recording f c) s o h =
      recorded-Turn packets f c (env.to_value (env.decode f)) (env.to_string (env.decode f)) s refl
        refl o h
  advance-Turn packets (publishing text c) s o h = record {
    later = packets;
    all_of_frames = o;
    agrees = h;
    weights = λ w. omega arith;
  }
  advance-Turn packets (closed e) s o h =
      kept packets (closed e) (closed e) s s refl refl refl refl o h

  -- In whatever order agents come and their tasks take turns, down to single accesses to the socket,
  -- the store and the channel, there are packets, each made of one frame by the parser and the serialiser,
  -- such that the statistics agree with them, in the order in which they were stored, and the
  -- texts that were published or are about to be are theirs, each as often: none is lost or published
  -- twice.
  pub Reachable-IsSound : {sv : Server V} → Reachable codec env sv → IsSound sv
  Reachable-IsSound started = record {
    packets = [];
    of_frames = tt;
    agree = new-Agrees env.history_limit;
    texts = λ w. refl;
  }
  Reachable-IsSound (accepted {tasks} {s} c r) =
      let i = Reachable-IsSound r in
      record {
        packets = i.packets;
        of_frames = i.of_frames;
        agree = i.agree;
        texts = λ w. omega (
          arith,
          i.texts w,
          weigh-append w s.live (pending tasks),
          weigh-append w s.live (pending (tasks ++ (reading c ∷ []))),
          weigh-pending w tasks [] (reading c),
        );
      }
  Reachable-IsSound (turned {s} before after t r) =
      let i = Reachable-IsSound r in
      let turn = advance-Turn i.packets t s i.of_frames i.agree in
      let t' = (advance codec env t s).0 in
      record {
        packets = turn.later;
        of_frames = turn.all_of_frames;
        agree = turn.agrees;
        texts = λ w. omega (
          arith,
          i.texts w,
          turn.weights w,
          weigh-append w s.live (text_of t),
          weigh-append w s.live (pending (before ++ (t ∷ after))),
          weigh-append w (advance codec env t s).1.live (pending (before ++ (t' ∷ after))),
          weigh-pending w before after t,
          weigh-pending w before after t',
        );
      }
