-- ===== src/Common/Words.antt =====
-- Machine words: `ulong` (uint64_t) and `int32` as numbers below 2 ^ 64 and 2 ^ 32; an `int32` is
-- its two's complement bit pattern, and signed comparisons flip the sign bit.
use Prim.Native.Nat.{ℕ, ◌+◌, ◌-◌, ◌%◌, ◌^◌, ◌<◌}
use mathlib.Core.Bool.{Bool}
use cornerstone.Common.Tests.{ltb, if◌then◌else◌}

abbrev pub IsU64 : ℕ → Type 0
IsU64 v = v < 2 ^ 64

abbrev pub IsU32 : ℕ → Type 0
IsU32 v = v < 2 ^ 32

abbrev pub IsByte : ℕ → Type 0
IsByte v = v < 256

-- ulong arithmetic
abbrev pub add64 : ℕ → ℕ → ℕ
add64 a b = (a + b) % 2 ^ 64

abbrev pub sub64 : ℕ → ℕ → ℕ
sub64 a b = (a + 2 ^ 64 - b) % 2 ^ 64

-- `a < b` on int32 values
abbrev pub lt_int32 : ℕ → ℕ → Bool
lt_int32 a b = ltb ((a + 2 ^ 31) % 2 ^ 32) ((b + 2 ^ 31) % 2 ^ 32)

-- `std::min` on int32 values
abbrev pub min_int32 : ℕ → ℕ → ℕ
min_int32 a b = if lt_int32 b a then b else a

-- `(int32)v` of an ulong
abbrev pub to_int32 : ℕ → ℕ
to_int32 v = v % 2 ^ 32

-- `(ulong)v` of an int32: sign extension
abbrev pub to_ulong : ℕ → ℕ
to_ulong v = if ltb v (2 ^ 31) then v else v + (2 ^ 64 - 2 ^ 32)

-- the int32 value -1
abbrev pub minus_one : ℕ
minus_one = 2 ^ 32 - 1
