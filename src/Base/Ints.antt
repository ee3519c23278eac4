-- ===== src/Base/Ints.antt =====
-- The signed integers of the database's columns, and the conversions that Rust's `try_from` makes.
use Prim.Native.Nat.{ℕ}
use mathlib.Core.Option.{Option, none, some}
use retsu.Base.Tests.{leb, if◌then◌else◌}

-- `negsuc n` is -(n + 1).
pub data ℤ : Type 0 where
  pos : ℕ → ℤ
  negsuc : ℕ → ℤ

-- `u16::try_from(i16)`, `u32::try_from(i32)` and `u64::try_from(i64)`
abbrev pub to_unsigned : ℤ → Option ℕ
to_unsigned (pos n) = some n
to_unsigned (negsuc n) = none

-- `i16::try_from`, `i32::try_from` and `i64::try_from` of an unsigned number, by the largest value.
abbrev pub to_signed : ℕ → ℕ → Option ℤ
to_signed most n = if leb n most then some (pos n) else none

abbrev pub i16_max : ℕ
i16_max = 32_767

abbrev pub i32_max : ℕ
i32_max = 2_147_483_647

abbrev pub i64_max : ℕ
i64_max = 9_223_372_036_854_775_807
