-- ===== src/Layout/Tests.antt =====
-- src/layout/simple_stripe_distribution.cc: the theorems on three objects with strips of ten bytes.
use hecios.Layout.Stripe.{
  Stripe, magnitude, rem_i64, convert_logical_to_physical_offset, get_next_mapped_logical_offset,
  convert_physical_to_logical_offset, get_contiguous_length,
}
use hecios.Layout.Stripe.Round.{IsSound, stripe_size, logical_to_physical-physical_to_logical}
use hecios.Layout.Stripe.Mapped.{
  IsMapped, get_next_mapped_logical_offset-IsMapped, physical_to_logical-logical_to_physical,
}
use hecios.Layout.Stripe.Owner.{next_mapped_owner}
use hecios.Prelude.{ℕ, ◌+◌, ◌≤◌, ◌<◌, ◌≡◌, refl, arith, add_u64, sub_u64, mul_u64, lt_i64, le_i64}

abbrev three_objects : Stripe
three_objects = record { server_idx = 1; num_servers = 3; strip_size = 10 }

first_object : IsSound three_objects 0
first_object = record { has_object = omega arith; positive = omega arith; fits = omega arith }

second_object : IsSound three_objects 1
second_object = record { has_object = omega arith; positive = omega arith; fits = omega arith }

-- Byte 45 of the file is byte 15 of the second object, and from byte 25 on the second object's next
-- byte is 40.
offsets :
    (convert_logical_to_physical_offset three_objects 1 45 ≡ 15)
    × (convert_physical_to_logical_offset three_objects 1 15 ≡ 45)
    × (get_next_mapped_logical_offset three_objects 1 25 ≡ 40)
    × (get_contiguous_length three_objects 1 15 ≡ 5)
unfolding convert_logical_to_physical_offset convert_physical_to_logical_offset
    get_next_mapped_logical_offset get_contiguous_length magnitude rem_i64 add_u64 sub_u64 mul_u64
    lt_i64 le_i64
offsets = (refl, refl, refl, refl)

logical_to_physical-physical_to_logical_example :
    convert_logical_to_physical_offset three_objects 1
      (convert_physical_to_logical_offset three_objects 1 15)
    ≡ 15
logical_to_physical-physical_to_logical_example =
    logical_to_physical-physical_to_logical three_objects 1 second_object 15 (omega arith)

get_next_mapped_logical_offset-IsMapped_example :
    let n = get_next_mapped_logical_offset three_objects 1 25 in
    (25 ≤ n)
    × (n ≤ 25 + stripe_size three_objects)
    × IsMapped three_objects 1 n
    × ((x : ℕ) → 25 ≤ x → x < n → ¬ IsMapped three_objects 1 x)
get_next_mapped_logical_offset-IsMapped_example =
    get_next_mapped_logical_offset-IsMapped three_objects 1 second_object 25 (omega arith)

physical_to_logical-logical_to_physical_example :
    convert_physical_to_logical_offset three_objects 1
      (convert_logical_to_physical_offset three_objects 1 45)
    ≡ 45
physical_to_logical-logical_to_physical_example =
    physical_to_logical-logical_to_physical three_objects 1 second_object 45 (omega arith)
      (omega arith, omega arith)

next_mapped_owner_example :
    (i : ℕ) × (i < 3)
    × (get_next_mapped_logical_offset three_objects i 45 ≡ 45)
    × ((j : ℕ) → j < 3 → get_next_mapped_logical_offset three_objects j 45 ≡ 45 → j ≡ i)
next_mapped_owner_example = next_mapped_owner three_objects 45 first_object (omega arith)

four_left : 4 < get_contiguous_length three_objects 1 15
unfolding get_contiguous_length sub_u64
four_left = omega arith
