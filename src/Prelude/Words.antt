-- ===== src/Prelude/Words.antt =====
-- The 64-bit integers of src/common/basic_types.h. FSSize is uint64_t and FSOffset is int64_t; both
-- are held as the bit pattern, a number below 2 ^ 64, and the arithmetic wraps.
use Prim.Native.Nat.{ℕ, ◌+◌, ◌-◌, ◌*◌, ◌%◌, ◌≤◌, ◌<◌, max}
use mathlib.Core.Path.{◌≡◌}
use mathlib.Core.Bool.{Bool}
use native.Mathlib.Omega.{arith}
use hecios.Prelude.Tests.{ltb, leb, if◌then◌else◌}

abbrev pub u64_mod : ℕ
u64_mod = 18446744073709551616

-- One more than the largest FSOffset.
abbrev pub offset_limit : ℕ
offset_limit = 9223372036854775808

unfoldable pub add_u64 : ℕ → ℕ → ℕ
add_u64 a b = (a + b) % u64_mod

unfoldable pub sub_u64 : ℕ → ℕ → ℕ
sub_u64 a b = (a + (u64_mod - b)) % u64_mod

unfoldable pub mul_u64 : ℕ → ℕ → ℕ
mul_u64 a b = a * b % u64_mod

-- The order of two int64_t: adding 2 ^ 63 to the patterns turns it into the order of numbers.
abbrev bias : ℕ → ℕ
bias a = (a + offset_limit) % u64_mod

unfoldable pub lt_i64 : ℕ → ℕ → Bool
lt_i64 a b = ltb (bias a) (bias b)

unfoldable pub le_i64 : ℕ → ℕ → Bool
le_i64 a b = leb (bias a) (bias b)

-- std::max of two int64_t.
unfoldable pub max_i64 : ℕ → ℕ → ℕ
unfolding lt_i64
max_i64 a b = if lt_i64 a b then b else a

pub add_u64_small : (a b : ℕ) → a + b < u64_mod → add_u64 a b ≡ a + b
unfolding add_u64
add_u64_small a b h = omega arith

pub sub_u64_small : (a b : ℕ) → b ≤ a → a < u64_mod → sub_u64 a b ≡ a - b
unfolding sub_u64
sub_u64_small a b h k = omega arith

pub lt_i64_small : (a b : ℕ) → a < offset_limit → b < offset_limit → lt_i64 a b ≡ ltb a b
unfolding lt_i64
lt_i64_small a b h k = ground arith

pub le_i64_small : (a b : ℕ) → a < offset_limit → b < offset_limit → le_i64 a b ≡ leb a b
unfolding le_i64
le_i64_small a b h k = ground arith

pub max_i64_small : (a b : ℕ) → a < offset_limit → b < offset_limit → max_i64 a b ≡ max a b
unfolding max_i64
max_i64_small a b h k = ground arith

pub mul_u64_small : (a b : ℕ) → a * b < u64_mod → mul_u64 a b ≡ a * b
unfolding mul_u64
mul_u64_small a b h = omega arith
