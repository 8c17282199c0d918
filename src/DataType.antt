-- ===== src/DataType.antt =====
-- src/common/*_data_type.cc: the MPI data types, and the regions of a file that a run of bytes of a type
-- stands for. A stride is an int32_t, held as its 64-bit pattern. `resize` is left out, so extent_
-- and trueExtent_ are one number; the lists of a type have one length and at least one block, as the
-- constructors assert.
pub mod Loops
pub mod Total
pub mod Strided
pub mod Tests
use hecios.DataType.Loops.{vector_loop, indexed_loop, struct_loop, zip_blocks}
use hecios.RegionSet.{FileRegion}
use hecios.Prelude.{
  ℕ, zero, suc, ◌+◌, ◌/◌, ◌%◌, ◌<◌, max, List, [], ◌∷◌, Option, none, some, if◌then◌else◌, ltb,
  length, replicate, add_u64, sub_u64, mul_u64, lt_i64,
}

-- The classes of the hierarchy. BlockIndexedDataType and HindexedDataType only fill in arguments of
-- IndexedDataType and StructDataType, see `block_indexed` and `hindexed`.
mutual
  pub data DataType : Type 0 where
    basic : ℕ → DataType
    contiguous : ℕ → DataType → DataType
    vector : ℕ → ℕ → ℕ → DataType → DataType
    indexed : List ℕ → List ℕ → DataType → DataType
    structure : List ℕ → List ℕ → DataTypes → DataType

  pub data DataTypes : Type 0 where
    nil : DataTypes
    cons : DataType → DataTypes → DataTypes

-- A size_t stored into an int32_t and widened again.
unfoldable pub to_i32 : ℕ → ℕ
to_i32 x = let y = x % 4294967296 in if ltb y 2147483648 then y else y + 18446744069414584320

-- DataType::calculateStridedExtent.
unfoldable pub calculate_strided_extent : ℕ → ℕ → ℕ → ℕ → ℕ
calculate_strided_extent count block_length stride element_extent =
    let strides = mul_u64 (sub_u64 count 1) stride in
    let lower = if lt_i64 stride 0 then to_i32 (mul_u64 strides element_extent) else 0 in
    let upper =
      if lt_i64 stride 0
      then to_i32 (mul_u64 block_length element_extent)
      else to_i32 (mul_u64 (add_u64 strides block_length) element_extent) in
    to_i32 (sub_u64 upper lower)

-- IndexedDataType::calculateExtent, from the last block.
unfoldable pub indexed_extent : List ℕ → List ℕ → ℕ → ℕ
indexed_extent [] displacements old = 0
indexed_extent (b ∷ bs) [] old = 0
indexed_extent (b ∷ []) (d ∷ ds) old = mul_u64 (add_u64 b d) old
indexed_extent (b ∷ b' ∷ bs) (d ∷ ds) old = indexed_extent (b' ∷ bs) ds old

-- StructDataType::calculateExtent, over the blocks with the extents of their types.
unfoldable pub struct_extent : ℕ → List ℕ → List ℕ → List ℕ → ℕ
struct_extent extent (b ∷ bs) (d ∷ ds) (e ∷ es) =
    struct_extent (max extent (add_u64 d (mul_u64 b e))) bs ds es
struct_extent extent _ _ _ = extent

unfoldable mutual
  unfolding calculate_strided_extent indexed_extent struct_extent

  pub get_extent : DataType → ℕ
  get_extent (basic width) = width
  get_extent (contiguous count old) = mul_u64 count (get_extent old)
  get_extent (vector count block_length stride old) =
      calculate_strided_extent count block_length stride (get_extent old)
  get_extent (indexed block_lengths displacements old) =
      indexed_extent block_lengths displacements (get_extent old)
  get_extent (structure block_lengths displacements types) =
      struct_extent 0 block_lengths displacements (get_extents types)

  pub get_extents : DataTypes → List ℕ
  get_extents nil = []
  get_extents (cons t ts) = get_extent t ∷ get_extents ts

-- getRepresentationByteLength.
unfoldable mutual
  pub representation_length : DataType → ℕ
  representation_length (basic width) = 4
  representation_length (contiguous count old) = 4 + representation_length old
  representation_length (vector count block_length stride old) =
      4 + 4 + 4 + representation_length old
  representation_length (indexed block_lengths displacements old) =
      add_u64 (add_u64 4 (mul_u64 8 (length block_lengths))) (representation_length old)
  representation_length (structure block_lengths displacements types) = representation_lengths types

  pub representation_lengths : DataTypes → ℕ
  representation_lengths nil = 0
  representation_lengths (cons t ts) = 4 + 4 + representation_length t + representation_lengths ts

-- IndexedDataType::getDataSize.
unfoldable pub get_data_size : ℕ → List ℕ → ℕ → ℕ
get_data_size size [] old = size
get_data_size size (b ∷ bs) old = get_data_size (add_u64 size (mul_u64 b old)) bs old

-- getRegionsByBytes, with the fuel of the loops. `none`: a loop ran out of fuel.
unfoldable mutual
  pub get_regions_by_bytes : DataType → ℕ → ℕ → ℕ → Option (List FileRegion)
  get_regions_by_bytes (basic width) fuel offset num_bytes =
      some (record { offset = offset; extent = num_bytes } ∷ [])
  get_regions_by_bytes (contiguous count old) fuel offset num_bytes =
      get_regions_by_bytes old fuel offset num_bytes
  get_regions_by_bytes (vector count block_length stride old) fuel offset num_bytes =
      vector_loop (get_regions_by_bytes old fuel) (mul_u64 stride (get_extent old))
        (mul_u64 block_length (get_extent old)) num_bytes fuel 0 offset []
  get_regions_by_bytes (indexed block_lengths displacements old) fuel offset num_bytes =
      let extent = indexed_extent block_lengths displacements (get_extent old) in
      let size = get_data_size 0 block_lengths (get_extent old) in
      indexed_loop (get_regions_by_bytes old fuel) (get_extent old) extent
        (zip_blocks block_lengths displacements) num_bytes fuel 0 (mul_u64 (offset / size) extent)
        (offset % size) []
  get_regions_by_bytes (structure block_lengths displacements types) fuel offset num_bytes =
      let extent = struct_extent 0 block_lengths displacements (get_extents types) in
      struct_loop (zip_blocks block_lengths displacements) (get_extents types)
        (regions_of_types types fuel) extent num_bytes fuel 0 (mul_u64 (offset / extent) extent)
        offset []

  pub regions_of_types : DataTypes → ℕ → List (ℕ → ℕ → Option (List FileRegion))
  regions_of_types nil fuel = []
  regions_of_types (cons t ts) fuel = get_regions_by_bytes t fuel ∷ regions_of_types ts fuel

-- The constructors of BlockIndexedDataType and HindexedDataType.
unfoldable pub block_indexed : ℕ → List ℕ → DataType → DataType
block_indexed block_length displacements old =
    indexed (replicate (length displacements) block_length) displacements old

unfoldable pub copies : ℕ → DataType → DataTypes
copies zero t = nil
copies (suc n) t = cons t (copies n t)

unfoldable pub hindexed : List ℕ → List ℕ → DataType → DataType
unfolding copies
hindexed block_lengths displacements old =
    structure block_lengths displacements (copies (length block_lengths) old)

-- HindexedDataType::getRepresentationByteLength, which overrides StructDataType's.
unfoldable pub hindexed_representation_length : List ℕ → DataType → ℕ
unfolding representation_length
hindexed_representation_length block_lengths old =
    add_u64 (add_u64 4 (mul_u64 8 (length block_lengths))) (representation_length old)
