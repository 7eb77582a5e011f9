-- ===== src/Api/Store/Tally.antt =====
-- The statistics of the store as a function of what was stored, whose order is forgotten.
use Prim.Native.String.{String}
use text.Mathlib.Text.{◌==◌ as str_eq}
use mathlib.Core.Quot
use mathlib.Core.Quot.{Quot, Quot-set}
use grok.Base.{ℕ, ◌+◌, ◌≡◌, refl, sym, ap, subst, ◌∙◌, Bool, true, List, [], ◌∷◌, ◌++◌, arith}
use grok.Api.Store.{vendor_key, Store, new, record_packet}
use grok.Api.Store.Counters.{counter, count, count-append, one_if, counter-increment}
use grok.Api.Store.Packets.{Packet}

-- The same packets, as often: every test finds as many.
abbrev pub SamePackets : {V : Type 0} → List (Packet V) → List (Packet V) → Type 0
SamePackets {V} ps qs = (test : Packet V → Bool) → count test ps ≡ count test qs

-- What was stored, in whatever order.
abbrev pub Tally : Type 0 → Type 0
Tally V = Quot {α = List (Packet V)} SamePackets

module _ {V : Type 0} where
  abbrev pub of_list : List (Packet V) → Tally V
  of_list = Quot.mk

  unfoldable pub counted : (Packet V → Bool) → Tally V → ℕ
  counted test = Quot.lift (hlevel) (count test) λ ps qs h. h test

  pub add : Packet V → Tally V → Tally V
  add p =
      Quot.lift Quot-set (λ ps. of_list (ps ++ (p ∷ [])))
        λ ps qs h. Quot.sound λ test.
          omega (arith, count-append test ps (p ∷ []), count-append test qs (p ∷ []), h test)

  counted-add :
      (test : Packet V → Bool) (p : Packet V) (t : Tally V)
      → counted test (add p t) ≡ counted test t + one_if (test p)
  unfolding counted add
  counted-add test p = Quot.ind (λ _. hlevel) λ ps. omega (arith, count-append test ps (p ∷ []))

  tally-ext : (t u : Tally V) → ((test : Packet V → Bool) → counted test t ≡ counted test u) → t ≡ u
  unfolding counted
  tally-ext = Quot.ind (λ _. hlevel Quot-set) λ ps. Quot.ind (λ _. hlevel Quot-set) λ qs. Quot.sound

  -- What is added in whatever order is the same.
  add_comm : (p q : Packet V) (t : Tally V) → add p (add q t) ≡ add q (add p t)
  add_comm p q t = tally-ext _ _ λ test. omega (
    arith,
    counted-add test p (add q t),
    counted-add test q t,
    counted-add test q (add p t),
    counted-add test p t,
  )

  -- The store reports a tally: its numbers are those of the tally, for each key of each map.
  pub record Reports (t : Tally V) (s : Store V) : Type 0 where
    pub received : s.received ≡ counted (λ p. true) t
    pub decoded : s.fully_decoded ≡ counted (λ p. p.decoded.fully_decoded) t
    pub vendors :
        (key : String)
        → counter key s.by_vendor ≡ counted (λ p. str_eq key (vendor_key p.decoded)) t
    pub rats : (key : String) → counter key s.by_rat ≡ counted (λ p. str_eq key p.decoded.rat) t
    pub layers :
        (key : String) → counter key s.by_layer ≡ counted (λ p. str_eq key p.decoded.layer) t

  -- Storing a packet adds it to the tally.
  pub record_packet-Reports :
      (limit : ℕ) (t : Tally V) (p : Packet V) (s : Store V)
      → Reports t s
      → Reports (add p t) (record_packet limit p.decoded p.value s)
  unfolding record_packet
  record_packet-Reports limit t p s h = record {
    received = omega (arith, h.received, counted-add (λ q. true) p t);
    decoded = ground (arith, h.decoded, counted-add (λ q. q.decoded.fully_decoded) p t);
    vendors = λ key.
        counter-increment key (vendor_key p.decoded) s.by_vendor
        ∙ omega (arith, h.vendors key, counted-add (λ q. str_eq key (vendor_key q.decoded)) p t);
    rats = λ key.
        counter-increment key p.decoded.rat s.by_rat
        ∙ omega (arith, h.rats key, counted-add (λ q. str_eq key q.decoded.rat) p t);
    layers = λ key.
        counter-increment key p.decoded.layer s.by_layer
        ∙ omega (arith, h.layers key, counted-add (λ q. str_eq key q.decoded.layer) p t);
  }

  pub new-Reports : Reports (of_list []) new
  unfolding counted
  new-Reports = record {
    received = refl;
    decoded = refl;
    vendors = λ key. refl;
    rats = λ key. refl;
    layers = λ key. refl;
  }

  -- The packets one after the other.
  abbrev pub record_all : ℕ → List (Packet V) → Store V → Store V
  record_all limit [] s = s
  record_all limit (p ∷ ps) s = record_all limit ps (record_packet limit p.decoded p.value s)

  abbrev pub add_all : List (Packet V) → Tally V → Tally V
  add_all [] t = t
  add_all (p ∷ ps) t = add_all ps (add p t)

  record_all-Reports :
      (limit : ℕ) (ps : List (Packet V)) (t : Tally V) (s : Store V)
      → Reports t s
      → Reports (add_all ps t) (record_all limit ps s)
  record_all-Reports limit [] t s h = h
  record_all-Reports limit (p ∷ ps) t s h =
      record_all-Reports limit ps (add p t) (record_packet limit p.decoded p.value s)
        (record_packet-Reports limit t p s h)

  counted-add_all :
      (test : Packet V → Bool) (ps : List (Packet V)) (t : Tally V)
      → counted test (add_all ps t) ≡ count test ps + counted test t
  counted-add_all test [] t = omega arith
  counted-add_all test (p ∷ ps) t =
      omega (arith, counted-add_all test ps (add p t), counted-add test p t)

  -- Packets that are the same up to their order add the same.
  add_all-same :
      (ps qs : List (Packet V)) (t : Tally V)
      → of_list ps ≡ of_list qs
      → add_all ps t ≡ add_all qs t
  unfolding counted
  add_all-same ps qs t h = tally-ext _ _ λ test.
      omega (arith, counted-add_all test ps t, counted-add_all test qs t, ap (counted test) h)

  -- If a store reports a tally and some packets are stored in any order, it reports the tally with
  -- these packets added, in which the order is forgotten: the numbers received and fully decoded, and
  -- the counter of every vendor, RAT and layer.
  pub record_all-unordered :
      (limit : ℕ) (ps qs : List (Packet V)) (t : Tally V) (s : Store V)
      → Reports t s
      → of_list ps ≡ of_list qs
      → Reports (add_all ps t) (record_all limit qs s)
  record_all-unordered limit ps qs t s h same =
      subst (λ u. Reports u (record_all limit qs s)) (sym (add_all-same ps qs t same))
        (record_all-Reports limit qs t s h)
