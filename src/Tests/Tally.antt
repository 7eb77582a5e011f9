-- ===== src/Tests/Tally.antt =====
-- Two packets, stored in one order and in the other.
use mathlib.Core.Quot
use grok.Base.{ℕ, [], ◌∷◌, true, false, arith}
use grok.Api.Store.{new}
use grok.Api.Store.Packets.{Packet}
use grok.Api.Store.Tally.{Reports, of_list, add_all, record_all, new-Reports, record_all-unordered}

abbrev lte : Packet ℕ
lte = record {
  decoded = record { vendor = ""; rat = "LTE"; layer = "RRC"; fully_decoded = true; others = [] };
  value = 1;
  text = "1";
}

abbrev nr : Packet ℕ
nr = record {
  decoded = record {
    vendor = "Samsung";
    rat = "NR";
    layer = "RRC";
    fully_decoded = false;
    others = [];
  };
  value = 2;
  text = "2";
}

record_all-unordered_example :
    Reports (add_all (lte ∷ nr ∷ []) (of_list [])) (record_all 10 (nr ∷ lte ∷ []) (new {V = ℕ}))
record_all-unordered_example =
    record_all-unordered 10 (lte ∷ nr ∷ []) (nr ∷ lte ∷ []) (of_list []) new new-Reports
      (Quot.sound λ test. omega arith)
