-- ===== src/Prelude/Words.antt =====
-- Machine integers as bit patterns: an n-bit integer is a number below 2 ^ n, and a signed one
-- is its two's complement.
use Prim.Native.Nat.{ℕ, ◌+◌, ◌-◌, ◌*◌, ◌/◌, ◌%◌, ◌^◌}
use mathlib.Core.Bool.{Bool}
use dinorisc.Prelude.Tests.{ltb, leb, if◌then◌else◌}

-- `x << k` and `x >> k` on a uint32_t.
abbrev pub shl32 : ℕ → ℕ → ℕ
shl32 x k = x * 2 ^ k % 2 ^ 32

abbrev pub shr : ℕ → ℕ → ℕ
shr x k = x / 2 ^ k

-- `x << k` on a 64-bit integer, and its sums and differences.
abbrev pub shl64 : ℕ → ℕ → ℕ
shl64 x k = x * 2 ^ k % 2 ^ 64

abbrev pub add64 : ℕ → ℕ → ℕ
add64 a b = (a + b) % 2 ^ 64

abbrev pub sub64 : ℕ → ℕ → ℕ
sub64 a b = (a + 2 ^ 64 - b) % 2 ^ 64

-- The bit pattern at width `w` of the signed integer with the pattern `x` at width `n`.
abbrev pub widen : ℕ → ℕ → ℕ → ℕ
widen n w x = if ltb x (2 ^ (n - 1)) then x else x + (2 ^ w - 2 ^ n)

-- `static_cast<int64_t>` of an int32_t.
abbrev pub int64_of_int32 : ℕ → ℕ
int64_of_int32 = widen 32 64

-- `a < b` and `a <= b` on int64_t: the order of the patterns with the sign bit turned.
abbrev pub slt64 : ℕ → ℕ → Bool
slt64 a b = ltb ((a + 2 ^ 63) % 2 ^ 64) ((b + 2 ^ 63) % 2 ^ 64)

abbrev pub sle64 : ℕ → ℕ → Bool
sle64 a b = leb ((a + 2 ^ 63) % 2 ^ 64) ((b + 2 ^ 63) % 2 ^ 64)
