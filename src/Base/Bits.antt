-- ===== src/Base/Bits.antt =====
-- Bit operations on small numbers: every value of a range is checked by evaluation.
use Prim.Native.Nat.{ℕ, zero, suc, ◌+◌, ◌*◌, ◌/◌, ◌%◌, ◌^◌, ◌<◌, bit_or}
use mathlib.Core.Path.{◌≡◌, refl}
use mathlib.Core.Bool.{Bool, true, false, ◌&&◌, ◌||◌}
use native.Mathlib.Omega.{arith}
use grok.Base.Tests.{◌==◌, ==_iff}

holds_below : (ℕ → Bool) → ℕ → Bool
holds_below test zero = true
holds_below test (suc n) = holds_below test n && test n

at_value : (test : ℕ → Bool) (n : ℕ) {x : ℕ} → x < n → holds_below test n ≡ true → test x ≡ true
unfolding holds_below
at_value test zero lt h = elim lt [ ]
at_value test (suc n) {x} lt h = ground (arith, λ (l : x < n). at_value test n l)

-- Bit `k` of a number.
abbrev pub test_bit : ℕ → ℕ → Bool
test_bit n k = n / 2 ^ k % 2 == 1

same : Bool → Bool → Bool
same true b = b
same false true = false
same false false = true

same_eq : (a b : Bool) → same a b ≡ true → a ≡ b
unfolding same
same_eq true b h = ground arith
same_eq false true h = ground arith
same_eq false false h = refl

set_bit_table :
    holds_below
      (λ b.
        holds_below
          (λ k. holds_below (λ j. same (test_bit (bit_or b (2 ^ k)) j) (j == k || test_bit b j)) 8)
          8)
      256
    ≡ true
unfolding holds_below same
set_bit_table = refl

-- `b |= 1 << k` on a byte sets bit `k` and leaves the others.
pub test_bit-bit_or :
    (b k j : ℕ) → b < 256 → k < 8 → j < 8 → test_bit (bit_or b (2 ^ k)) j ≡ (j == k || test_bit b j)
test_bit-bit_or b k j hb hk hj =
    same_eq _ _ (at_value _ 8 hj (at_value _ 8 hk (at_value _ 256 hb set_bit_table)))

bit_or_byte_table : holds_below (λ b. holds_below (λ k. bit_or b (2 ^ k) / 256 == 0) 8) 256 ≡ true
unfolding holds_below
bit_or_byte_table = refl

pub bit_or-IsByte : (b k : ℕ) → b < 256 → k < 8 → bit_or b (2 ^ k) < 256
bit_or-IsByte b k hb hk =
    let top : bit_or b (2 ^ k) / 256 ≡ 0 =
      (==_iff _ _).0 (at_value _ 8 hk (at_value _ 256 hb bit_or_byte_table)) in
    omega arith

join_table :
    holds_below (λ e. holds_below (λ i. bit_or (e * 2 ^ 12 % 2 ^ 16) i == e * 4096 + i) 4096) 16
    ≡ true
unfolding holds_below
join_table = refl

-- `(equip << 12) | item` is a sum when the item has twelve bits.
pub bit_or_join : (e i : ℕ) → e < 16 → i < 4096 → bit_or (e * 2 ^ 12 % 2 ^ 16) i ≡ e * 4096 + i
bit_or_join e i he hi = (==_iff _ _).0 (at_value _ 4096 hi (at_value _ 16 he join_table))

base_table : holds_below (λ g. bit_or 0x2400 g == 0x2400 + g) 32 ≡ true
unfolding holds_below
base_table = refl

pub bit_or_base : (g : ℕ) → g < 32 → bit_or 0x2400 g ≡ 0x2400 + g
bit_or_base g h = (==_iff _ _).0 (at_value _ 32 h base_table)
