-- ===== src/Base/Words.antt =====
-- Bytes, and the little- and big-endian forms of 16- and 32-bit numbers (Rust's `to_le_bytes`,
-- `from_le_bytes`, `to_be_bytes`, `from_be_bytes`).
use Prim.Native.Nat.{ℕ, ◌+◌, ◌*◌, ◌/◌, ◌%◌, ◌^◌, ◌<◌}
use mathlib.Core.Path.{◌≡◌}
use mathlib.Core.List.{List, [], ◌∷◌}
use native.Mathlib.Omega.{arith}
use grok.Base.Lists.{All}

abbrev pub Bytes : Type 0
Bytes = List ℕ

abbrev pub IsByte : ℕ → Type 0
IsByte b = b < 256

abbrev pub IsU16 : ℕ → Type 0
IsU16 n = n < 2 ^ 16

abbrev pub IsU32 : ℕ → Type 0
IsU32 n = n < 2 ^ 32

abbrev pub to_le_u16 : ℕ → Bytes
to_le_u16 n = (n % 256) ∷ (n / 256 % 256) ∷ []

abbrev pub from_le_u16 : ℕ → ℕ → ℕ
from_le_u16 a b = a + b * 256

abbrev pub to_le_u32 : ℕ → Bytes
to_le_u32 n = (n % 256) ∷ (n / 2 ^ 8 % 256) ∷ (n / 2 ^ 16 % 256) ∷ (n / 2 ^ 24 % 256) ∷ []

abbrev pub from_le_u32 : ℕ → ℕ → ℕ → ℕ → ℕ
from_le_u32 a b c d = a + b * 2 ^ 8 + c * 2 ^ 16 + d * 2 ^ 24

abbrev pub to_be_u32 : ℕ → Bytes
to_be_u32 n = (n / 2 ^ 24 % 256) ∷ (n / 2 ^ 16 % 256) ∷ (n / 2 ^ 8 % 256) ∷ (n % 256) ∷ []

abbrev pub from_be_u32 : ℕ → ℕ → ℕ → ℕ → ℕ
from_be_u32 a b c d = from_le_u32 d c b a

pub from_le_u16-to_le_u16 : (n : ℕ) → IsU16 n → from_le_u16 (n % 256) (n / 256 % 256) ≡ n
from_le_u16-to_le_u16 n h = omega arith

pub from_le_u32-to_le_u32 :
    (n : ℕ)
    → IsU32 n
    → from_le_u32 (n % 256) (n / 2 ^ 8 % 256) (n / 2 ^ 16 % 256) (n / 2 ^ 24 % 256) ≡ n
from_le_u32-to_le_u32 n h = omega arith

pub to_le_u16-IsByte : (n : ℕ) → All IsByte (to_le_u16 n)
to_le_u16-IsByte n = omega arith

pub to_le_u32-IsByte : (n : ℕ) → All IsByte (to_le_u32 n)
to_le_u32-IsByte n = omega arith

pub from_le_u16-IsU16 : (a b : ℕ) → IsByte a → IsByte b → IsU16 (from_le_u16 a b)
from_le_u16-IsU16 a b ha hb = omega arith

-- `i64` values. `negsuc n` is -(n + 1).
pub data ℤ : Type 0 where
  pos : ℕ → ℤ
  negsuc : ℕ → ℤ
