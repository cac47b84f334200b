-- ===== src/Prelude/Integers.antt =====
-- Signed integers over the native numbers; the bounds of Rust's `i32` and `u64`.
use Prim.Native.Nat.{ℕ}
use mathlib.Core.Option.{Option, none, some}

-- `negsuc n` is -(n + 1).
pub data ℤ : Type 0 where
  pos : ℕ → ℤ
  negsuc : ℕ → ℤ

abbrev pub i32_max : ℕ
i32_max = 2147483647

abbrev pub u32_max : ℕ
u32_max = 4294967295

-- `u64::try_from(n).ok()` of an `i32`.
abbrev pub try_u64 : ℤ → Option ℕ
try_u64 (pos n) = some n
try_u64 (negsuc n) = none
