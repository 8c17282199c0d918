-- ===== src/DataType/Strided.antt =====
-- src/common/basic_data_type.cc, contiguous_data_type.cc and vector_data_type.cc: getRegionsByBytes of the
-- types that are made of these three, one in another.
use native.Mathlib.Nat.{mul-le-mul_right}
use hecios.DataType.{
  DataType, basic, contiguous, vector, indexed, structure, get_extent, get_regions_by_bytes,
}
use hecios.DataType.Total.{IsExact, vector_loop-exact}
use hecios.Prelude.{ℕ, ◌+◌, ◌*◌, ◌<◌, [], ◌∷◌, refl, arith, mul_u64, u64_mod}

-- Bytes between two blocks of a vector of `old`, and in one block.
abbrev pub stride_bytes : ℕ → DataType → ℕ
stride_bytes stride old = mul_u64 stride (get_extent old)

-- Types of these three classes, whose vectors have blocks and strides that are not empty, and where no
-- read that begins at most at `last` and is no longer than `longest` leaves the 64-bit offsets.
abbrev pub IsStrided : DataType → ℕ → ℕ → Type 0
IsStrided (basic width) last longest = Unit {0}
IsStrided (contiguous count old) last longest = IsStrided old last longest
IsStrided (vector count block_length stride old) last longest =
    (0 < mul_u64 block_length (get_extent old))
    × (0 < stride_bytes stride old)
    × (last + (longest + 2) * stride_bytes stride old < u64_mod)
    × IsStrided old (last + (longest + 2) * stride_bytes stride old) longest
IsStrided (indexed block_lengths displacements old) last longest = ⊥
IsStrided (structure block_lengths displacements types) last longest = ⊥

-- getRegionsByBytes of a type of basic, contiguous and vector types returns once the fuel of each loop
-- is two more than the longest read, and then the extents of its regions add up to the bytes asked
-- for, if the reads stay in the 64-bit offsets and the vectors have blocks and strides not empty.
pub get_regions_by_bytes-IsExact :
    (t : DataType) (fuel last longest : ℕ)
    → IsStrided t last longest
    → longest + 1 < fuel
    → longest < u64_mod
    → IsExact (get_regions_by_bytes t fuel) last longest
unfolding get_regions_by_bytes
get_regions_by_bytes-IsExact (basic width) fuel last longest r f m start size h k =
    (record { offset = start; extent = size } ∷ [], refl, omega arith)
get_regions_by_bytes-IsExact (contiguous count old) fuel last longest r f m start size h k =
    get_regions_by_bytes-IsExact old fuel last longest r f m start size h k
get_regions_by_bytes-IsExact (vector count block_length stride old) fuel last longest r f m start
      size h k =
    let last' = last + (longest + 2) * stride_bytes stride old in
    let read_le =
      mul-le-mul_right {m = size + 2} {n = longest + 2} (stride_bytes stride old) (omega arith) in
    vector_loop-exact (get_regions_by_bytes old fuel) (stride_bytes stride old)
      (mul_u64 block_length (get_extent old)) size last' longest
      (get_regions_by_bytes-IsExact old fuel last' longest r.3 f m) r.0 r.1 k (omega arith) r.2 fuel
      start (omega arith) (omega arith)
get_regions_by_bytes-IsExact (indexed block_lengths displacements old) fuel last longest r f m start
      size h k =
    absurd r
get_regions_by_bytes-IsExact (structure block_lengths displacements types) fuel last longest r f m
      start size h k =
    absurd r
