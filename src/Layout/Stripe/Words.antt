-- ===== src/Layout/Stripe/Words.antt =====
-- src/layout/simple_stripe_distribution.cc: its signed remainder and its tests, over numbers that do not wrap.
use native.Mathlib.Nat.{mod-eq_of_lt}
use hecios.Layout.Stripe.{rem_i64, magnitude}
use hecios.Prelude.{
  ℕ, ◌+◌, ◌-◌, ◌%◌, ◌≤◌, ◌<◌, true, false, ◌≡◌, arith, if◌then◌else◌, ltb, leb, add_u64, sub_u64,
  lt_i64, le_i64, sub_u64_small, lt_i64_small, le_i64_small, offset_limit,
}

below_zero : (n : ℕ) → 0 < n → n < offset_limit → lt_i64 (sub_u64 0 n) 0 ≡ true
unfolding lt_i64 sub_u64
below_zero n h k = ground arith

pub not_below_zero : (n : ℕ) → n < offset_limit → lt_i64 n 0 ≡ false
unfolding lt_i64
not_below_zero n h = ground arith

sub_below : (a b : ℕ) → a < b → b < offset_limit → sub_u64 a b ≡ sub_u64 0 (b - a)
unfolding sub_u64
sub_below a b h k = omega arith

magnitude_negative : (n : ℕ) → 0 < n → n < offset_limit → magnitude (sub_u64 0 n) ≡ n
unfolding magnitude sub_u64 lt_i64
magnitude_negative n h k = ground arith

magnitude_positive : (n : ℕ) → n < offset_limit → magnitude n ≡ n
unfolding magnitude
magnitude_positive n h = rw (not_below_zero n h)

-- The signed remainder at the values that occur: one from below the divisor, or one that is not
-- negative.
pub rem_i64_negative :
    (a b t : ℕ) → a < b → b < t → t < offset_limit → lt_i64 (rem_i64 (sub_u64 a b) t) 0 ≡ true
unfolding rem_i64
rem_i64_negative a b t h k l =
    rw
      (
        sub_below a b h (omega arith),
        below_zero (b - a) (omega arith) (omega arith),
        magnitude_negative (b - a) (omega arith) (omega arith),
        magnitude_positive t l,
        mod-eq_of_lt {n = b - a} {m = t} (omega arith),
      )
      (below_zero (b - a) (omega arith) (omega arith))

pub rem_i64_positive :
    (a b t : ℕ)
    → b ≤ a
    → a < offset_limit
    → t < offset_limit
    → rem_i64 (sub_u64 a b) t ≡ (a - b) % t
unfolding rem_i64
rem_i64_positive a b t h k l = rw (
  sub_u64_small a b h (omega arith),
  not_below_zero (a - b) (omega arith),
  magnitude_positive (a - b) (omega arith),
  magnitude_positive t l,
)

-- The tests of the conversion, once the products are plain numbers.
pub clip_word :
    (b a n r : ℕ)
    → b + r < offset_limit
    → a + n < offset_limit
    → (if le_i64 a r then if lt_i64 r (a + n) then add_u64 b (sub_u64 r a) else add_u64 b n else b)
      ≡ b + (if leb a r then if ltb r (a + n) then r - a else n else 0)
unfolding add_u64 sub_u64
clip_word b a n r h k =
    rw (le_i64_small a r (omega arith) (omega arith), lt_i64_small r (a + n) (omega arith) k)
      (ground arith)

pub clip_inside :
    (a n m : ℕ)
    → m < n
    → (if leb a (a + m) then if ltb (a + m) (a + n) then a + m - a else n else 0) ≡ m
clip_inside a n m h = ground arith

pub later_word :
    (b t a n r : ℕ)
    → a ≤ r
    → a + n ≤ t
    → r < t
    → (if leb n (r - a) then b + r + (t - (r - a)) else b + r)
      ≡ (if ltb r a then b + a else if ltb r (a + n) then b + r else b + t + a)
later_word b t a n r h k l = ground arith

pub sooner_word :
    (b t a n r : ℕ)
    → r < a
    → a + n ≤ t
    → (if leb n (t + r - a) then b + t + r + (t - (t + r - a)) else b + t + r) ≡ b + t + a
sooner_word b t a n r h k = ground arith

pub before_word :
    (b t a n r : ℕ)
    → r < a
    → (if ltb r a then b + a else if ltb r (a + n) then b + r else b + t + a) ≡ b + a
before_word b t a n r h = ground arith
