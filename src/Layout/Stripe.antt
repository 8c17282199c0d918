-- ===== src/Layout/Stripe.antt =====
-- src/layout/simple_stripe_distribution.cc: strips of a fixed size go round the objects. A product or
-- quotient with an FSSize is unsigned, and a comparison or remainder of two FSOffset is signed.
pub mod Words
pub mod Round
pub mod Mapped
pub mod Owner
use hecios.Layout.Distribution.{FileDistribution}
use hecios.Prelude.{
  ℕ, ◌+◌, ◌/◌, ◌%◌, Bool, if◌then◌else◌, leb, add_u64, sub_u64, mul_u64, lt_i64, le_i64,
}

pub record Stripe : Type 0 where
  pub server_idx : ℕ
  pub num_servers : ℕ
  pub strip_size : ℕ

-- a % b for two int64_t: the remainder has the sign of a.
unfoldable pub magnitude : ℕ → ℕ
magnitude a = if lt_i64 a 0 then sub_u64 0 a else a

unfoldable pub rem_i64 : ℕ → ℕ → ℕ
rem_i64 a b = let r = magnitude a % magnitude b in if lt_i64 a 0 then sub_u64 0 r else r

unfoldable pub convert_logical_to_physical_offset : Stripe → ℕ → ℕ → ℕ
convert_logical_to_physical_offset s idx logical =
    let complete_stripes = logical / mul_u64 s.strip_size s.num_servers in
    let physical = mul_u64 complete_stripes s.strip_size in
    let left_over =
      sub_u64 logical (mul_u64 (mul_u64 complete_stripes s.strip_size) s.num_servers) in
    let strip_begin = mul_u64 idx s.strip_size in
    let strip_end = mul_u64 (add_u64 idx 1) s.strip_size in
    if le_i64 strip_begin left_over
    then if lt_i64 left_over strip_end
      then add_u64 physical (sub_u64 left_over (mul_u64 idx s.strip_size))
      else add_u64 physical s.strip_size
    else physical

unfoldable pub get_next_mapped_logical_offset : Stripe → ℕ → ℕ → ℕ
get_next_mapped_logical_offset s idx logical =
    let server_starting_offset = mul_u64 idx s.strip_size in
    let stripe_size = mul_u64 s.num_servers s.strip_size in
    let diff = rem_i64 (sub_u64 logical server_starting_offset) stripe_size in
    if lt_i64 diff 0
    then server_starting_offset
    else if leb s.strip_size diff
    then add_u64 logical (sub_u64 stripe_size diff)
    else logical

unfoldable pub convert_physical_to_logical_offset : Stripe → ℕ → ℕ → ℕ
convert_physical_to_logical_offset s idx physical =
    let strips_div = physical / s.strip_size in
    let strips_mod = physical % s.strip_size in
    add_u64
      (add_u64 (mul_u64 (mul_u64 strips_div s.strip_size) s.num_servers) (mul_u64 s.strip_size idx))
      strips_mod

unfoldable pub get_contiguous_length : Stripe → ℕ → ℕ → ℕ
get_contiguous_length s idx physical = sub_u64 s.strip_size (physical % s.strip_size)

unfoldable pub stripe_distribution : Stripe → FileDistribution
stripe_distribution s = record {
  object_idx = s.server_idx;
  num_objects = s.num_servers;
  convert_logical_to_physical_offset = convert_logical_to_physical_offset s;
  convert_physical_to_logical_offset = convert_physical_to_logical_offset s;
  get_next_mapped_logical_offset = get_next_mapped_logical_offset s;
  get_contiguous_length = get_contiguous_length s;
}
