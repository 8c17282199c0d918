-- ===== src/Mapping/FileLayout.antt =====
-- src/layout/data_type_layout.cc: DataTypeLayout, a vector of file regions. A failed assert, or an index
-- past the end of the vector, is `none`.
pub mod SubRegions
use hecios.RegionSet.{FileRegion}
use hecios.Prelude.{
  ◌&&◌, ℕ, suc, ◌+◌, min, Bool, List, [], ◌∷◌, ◌++◌, Option, none, some, if◌then◌else◌, ltb, leb,
  ◌==◌, add_u64, sub_u64, length, get_elem?,
}

-- addRegion.
unfoldable pub add_region : List FileRegion → ℕ → ℕ → List FileRegion
add_region layout offset extent = layout ++ record { offset = offset; extent = extent } ∷ []

-- The loop of addRegions, and its assert.
unfoldable pub add_each : List FileRegion → List ℕ → List ℕ → List FileRegion
unfolding add_region
add_each layout (o ∷ offsets) (e ∷ extents) = add_each (add_region layout o e) offsets extents
add_each layout _ _ = layout

unfoldable pub add_regions : List FileRegion → List ℕ → List ℕ → Option (List FileRegion)
add_regions layout offsets extents =
    if length offsets == length extents then some (add_each layout offsets extents) else none

-- getRegion.
unfoldable pub get_region : List FileRegion → ℕ → Option FileRegion
get_region layout idx = get_elem? layout idx

-- getLength.
unfoldable pub length_from : ℕ → List FileRegion → ℕ
length_from size [] = size
length_from size (x ∷ xs) = length_from (add_u64 size x.extent) xs

unfoldable pub get_length : List FileRegion → ℕ
get_length layout = length_from 0 layout

-- The first loop of getSubRegions: the region that holds the byte, the bytes up to its end, and the
-- regions behind it.
unfoldable pub find_first :
    ℕ → ℕ → FileRegion → List FileRegion → Option (FileRegion × ℕ × List FileRegion)
find_first byte_offset processed x [] =
    if leb processed byte_offset then none else some (x, processed, [])
find_first byte_offset processed x (y ∷ ys) =
    let next = find_first byte_offset (add_u64 processed y.extent) y ys in
    if leb processed byte_offset then next else some (x, processed, y ∷ ys)

-- Its second loop: the regions that follow, up to the length asked for.
unfoldable pub take_rest : ℕ → ℕ → List FileRegion → Option (List FileRegion)
take_rest assigned byte_length [] = if ltb assigned byte_length then none else some []
take_rest assigned byte_length (x ∷ xs) =
    let size = min x.extent (sub_u64 byte_length assigned) in
    let next = take_rest (add_u64 assigned size) byte_length xs in
    if ltb assigned byte_length
    then elim next [
      | none ↦ none
      | some regions ↦ some (record { offset = x.offset; extent = size } ∷ regions)
    ]
    else some []

-- What follows the first loop.
unfoldable pub cut_from : ℕ → ℕ → FileRegion → ℕ → List FileRegion → Option (List FileRegion)
cut_from byte_offset byte_length x processed rest =
    let first_offset = sub_u64 (add_u64 x.offset byte_offset) (sub_u64 processed x.extent) in
    let first_extent = min x.extent byte_length in
    elim (take_rest first_extent byte_length rest) [
      | none ↦ none
      | some regions ↦ some (record { offset = first_offset; extent = first_extent } ∷ regions)
    ]

-- getSubRegions.
unfoldable pub get_sub_regions : List FileRegion → ℕ → ℕ → Option (List FileRegion)
get_sub_regions [] byte_offset byte_length = none
get_sub_regions (x ∷ xs) byte_offset byte_length =
    let total = get_length (x ∷ xs) in
    let found = find_first byte_offset x.extent x xs in
    if ltb byte_offset total && leb (add_u64 byte_offset byte_length) total
    then elim found [
      | none ↦ none
      | some (y, processed, rest) ↦ cut_from byte_offset byte_length y processed rest
    ]
    else none
