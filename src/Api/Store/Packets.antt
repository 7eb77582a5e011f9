-- ===== src/Api/Store/Packets.antt =====
-- The packets that were stored, and the counter maps that count them.
use Prim.Native.String.{String}
use text.Mathlib.Text.{◌==◌ as str_eq}
use grok.Base.{suc, ◌≡◌, refl, ap, List, [], ◌∷◌, ◌++◌, length, length-append, arith}
use grok.Api.Store.{Decoded, Counters, increment}
use grok.Api.Store.Counters.{counter, sum, sum-increment, count, count-append, counter-increment}

-- A stored packet: what the parser made of its frame, and the value and the text of that.
pub record Packet (V : Type 0) : Type 0 where
  pub decoded : Decoded
  pub value : V
  pub text : String

abbrev pub values_of : {V : Type 0} → List (Packet V) → List V
values_of [] = []
values_of (p ∷ ps) = p.value ∷ values_of ps

pub values_of-append :
    {V : Type 0} (ps : List (Packet V)) (p : Packet V)
    → values_of (ps ++ (p ∷ [])) ≡ values_of ps ++ (p.value ∷ [])
values_of-append [] p = refl
values_of-append (q ∷ ps) p = ap (◌∷◌ q.value) (values_of-append ps p)

pub length-values_of : {V : Type 0} (ps : List (Packet V)) → length (values_of ps) ≡ length ps
length-values_of [] = refl
length-values_of (p ∷ ps) = ap suc (length-values_of ps)

-- The counters of a map are the numbers of the packets with each key, and come to the number of all.
pub record Counts {V : Type 0} (key_of : Decoded → String) (packets : List (Packet V))
    (c : Counters) : Type 0 where
  pub each : (key : String) → counter key c ≡ count (λ p. str_eq key (key_of p.decoded)) packets
  pub all : sum c ≡ length packets

-- One more packet, under its key.
pub increment-Counts :
    {V : Type 0} (key_of : Decoded → String) (packets : List (Packet V)) (p : Packet V)
    (c : Counters)
    → Counts key_of packets c
    → Counts key_of (packets ++ (p ∷ [])) (increment (key_of p.decoded) c)
increment-Counts key_of packets p c h = record {
  each = λ key. omega (
    arith,
    counter-increment key (key_of p.decoded) c,
    count-append (λ q. str_eq key (key_of q.decoded)) packets (p ∷ []),
    h.each key,
  );
  all = omega (arith, sum-increment (key_of p.decoded) c, h.all, length-append packets (p ∷ []));
}
