-- ===== src/Api/Server/Texts.antt =====
-- The texts that tasks have in front of the channel, and how lists of texts are compared.
use Prim.Native.String.{String}
use grok.Base.{ℕ, ◌+◌, ◌≡◌, refl, ap, List, [], ◌∷◌, ◌++◌, arith}
use grok.Api.Store.Packets.{Packet}
use grok.Api.Server.{Task, publishing}

-- The texts of some tasks that have one in front of the channel.
abbrev pub text_of : Task → List String
text_of (publishing text c) = text ∷ []
text_of _ = []

abbrev pub pending : List Task → List String
pending [] = []
pending (t ∷ ts) = text_of t ++ pending ts

-- Some texts, with a weight for each.
abbrev pub weigh : (String → ℕ) → List String → ℕ
weigh w [] = 0
weigh w (text ∷ texts) = w text + weigh w texts

-- The same texts, as often, in whatever order: they weigh the same, whatever the weights are.
abbrev pub SameTexts : List String → List String → Type 0
SameTexts xs ys = (w : String → ℕ) → weigh w xs ≡ weigh w ys

pub weigh-append :
    (w : String → ℕ) (xs ys : List String) → weigh w (xs ++ ys) ≡ weigh w xs + weigh w ys
weigh-append w [] ys = omega arith
weigh-append w (x ∷ xs) ys = omega (arith, weigh-append w xs ys)

pub weigh-pending :
    (w : String → ℕ) (before after : List Task) (t : Task)
    → weigh w (pending (before ++ (t ∷ after)))
      ≡ weigh w (pending before) + weigh w (text_of t) + weigh w (pending after)
weigh-pending w [] after t = omega (arith, weigh-append w (text_of t) (pending after))
weigh-pending w (b ∷ before) after t = omega (
  arith,
  weigh-append w (text_of b) (pending before),
  weigh-append w (text_of b) (pending (before ++ (t ∷ after))),
  weigh-pending w before after t,
)

abbrev pub texts_of : {V : Type 0} → List (Packet V) → List String
texts_of [] = []
texts_of (p ∷ ps) = p.text ∷ texts_of ps

pub texts_of-append :
    {V : Type 0} (ps : List (Packet V)) (p : Packet V)
    → texts_of (ps ++ (p ∷ [])) ≡ texts_of ps ++ (p.text ∷ [])
texts_of-append [] p = refl
texts_of-append (q ∷ ps) p = ap (◌∷◌ q.text) (texts_of-append ps p)
