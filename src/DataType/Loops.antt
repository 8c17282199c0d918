-- ===== src/DataType/Loops.antt =====
-- The loops of getRegionsByBytes in vector_data_type.cc, indexed_data_type.cc and
-- struct_data_type.cc. `old` is the old type's getRegionsByBytes, and `regions` what has been found.
use hecios.RegionSet.{FileRegion}
use hecios.Prelude.{
  ℕ, zero, suc, ◌/◌, ◌%◌, min, ◌&&◌, List, [], ◌∷◌, ◌++◌, Option, none, some, ◌>>=◌, if◌then◌else◌,
  ltb, leb, ◌==◌, add_u64, sub_u64, mul_u64,
}

-- Where the next piece of the vector is read, and the bytes from there to the end of the block.
unfoldable pub vector_piece : ℕ → ℕ → ℕ → ℕ × ℕ
vector_piece stride_length block current =
    let offset_in_stride = current % stride_length in
    if offset_in_stride == 0
    then (current, block)
    else if ltb block offset_in_stride
    then (add_u64 current (sub_u64 stride_length offset_in_stride), block)
    else (current, sub_u64 block offset_in_stride)

unfoldable pub vector_loop :
    (ℕ → ℕ → Option (List FileRegion))
    → ℕ
    → ℕ
    → ℕ
    → ℕ
    → ℕ
    → ℕ
    → List FileRegion
    → Option (List FileRegion)
vector_loop old stride_length block num_bytes zero processed current regions = none
vector_loop old stride_length block num_bytes (suc fuel) processed current regions =
    let (start, left) = vector_piece stride_length block current in
    let data_length = min left (sub_u64 num_bytes processed) in
    let more = (do
      elements ← old start data_length
      vector_loop old stride_length block num_bytes fuel (add_u64 processed data_length)
          (mul_u64 (add_u64 (start / stride_length) 1) stride_length) (regions ++ elements)) in
    if ltb processed num_bytes then more else some regions

abbrev pub zip_blocks : List ℕ → List ℕ → List (ℕ × ℕ)
zip_blocks (b ∷ bs) (d ∷ ds) = (b, d) ∷ zip_blocks bs ds
zip_blocks _ _ = []

-- The state of the inner loops: the bytes processed and the regions found.
pub record Progress : Type 0 where
  pub processed : ℕ
  pub regions : List FileRegion

-- Read a piece with the old type.
unfoldable pub read_piece : (ℕ → ℕ → Option (List FileRegion)) → ℕ → ℕ → Progress → Option Progress
read_piece old start data_length p = do
  elements ← old start data_length
  some (record { processed = add_u64 p.processed data_length; regions = p.regions ++ elements })

-- The body of the inner loop of IndexedDataType, at one block.
unfoldable pub indexed_block :
    (ℕ → ℕ → Option (List FileRegion)) → ℕ → ℕ → ℕ → ℕ → ℕ → ℕ × ℕ → Progress → Option Progress
indexed_block old old_extent type_begin type_offset elements num_bytes (b, d) p =
    let next = mul_u64 b old_extent in
    let remaining = sub_u64 num_bytes p.processed in
    let begin = add_u64 type_begin (mul_u64 d old_extent) in
    let inside = sub_u64 type_offset elements in
    if ltb elements type_offset && ltb type_offset (add_u64 elements next)
    then read_piece old (add_u64 (add_u64 type_begin inside) (mul_u64 d old_extent))
        (min (sub_u64 next inside) remaining) p
    else if leb type_offset (add_u64 elements next)
    then read_piece old begin (min next remaining) p
    else some p

unfoldable pub indexed_blocks :
    (ℕ → ℕ → Option (List FileRegion))
    → ℕ
    → ℕ
    → ℕ
    → ℕ
    → ℕ
    → List (ℕ × ℕ)
    → Progress
    → Option Progress
indexed_blocks old old_extent type_begin type_offset elements num_bytes [] p = some p
indexed_blocks old old_extent type_begin type_offset elements num_bytes ((b, d) ∷ blocks) p =
    let more = (do
      p' ← indexed_block old old_extent type_begin type_offset elements num_bytes (b, d) p
      indexed_blocks old old_extent type_begin type_offset (add_u64 elements (mul_u64 b old_extent))
          num_bytes blocks p') in
    if ltb p.processed num_bytes then more else some p

unfoldable pub indexed_loop :
    (ℕ → ℕ → Option (List FileRegion))
    → ℕ
    → ℕ
    → List (ℕ × ℕ)
    → ℕ
    → ℕ
    → ℕ
    → ℕ
    → ℕ
    → List FileRegion
    → Option (List FileRegion)
indexed_loop old old_extent extent blocks num_bytes zero processed type_begin current regions = none
indexed_loop old old_extent extent blocks num_bytes (suc fuel) processed type_begin current
      regions =
    let more = (do
      p ←
          indexed_blocks old old_extent type_begin (current % extent) 0 num_bytes blocks
            (record { processed = processed; regions = regions })
      indexed_loop old old_extent extent blocks num_bytes fuel p.processed
          (add_u64 type_begin extent) (add_u64 type_begin extent) p.regions) in
    if ltb processed num_bytes then more else some regions

-- The body of the inner loop of StructDataType, at one member.
unfoldable pub struct_member :
    (ℕ → ℕ → Option (List FileRegion)) → ℕ → ℕ → ℕ → ℕ → ℕ → ℕ × ℕ → Progress → Option Progress
struct_member old old_extent struct_begin current struct_offset num_bytes (b, d) p =
    let size = mul_u64 b old_extent in
    let remaining = sub_u64 num_bytes p.processed in
    if ltb d struct_offset && ltb struct_offset (add_u64 d size)
    then read_piece old current (min (sub_u64 size (sub_u64 struct_offset d)) remaining) p
    else if leb struct_offset d
    then read_piece old (add_u64 struct_begin d) (min size remaining) p
    else some p

unfoldable pub struct_members :
    ℕ
    → ℕ
    → ℕ
    → ℕ
    → List (ℕ × ℕ)
    → List ℕ
    → List (ℕ → ℕ → Option (List FileRegion))
    → Progress
    → Option Progress
struct_members struct_begin current struct_offset num_bytes (x ∷ xs) (e ∷ es) (old ∷ olds) p =
    let more = (do
      p' ← struct_member old e struct_begin current struct_offset num_bytes x p
      struct_members struct_begin current struct_offset num_bytes xs es olds p') in
    if ltb p.processed num_bytes then more else some p
struct_members struct_begin current struct_offset num_bytes _ _ _ p = some p

unfoldable pub struct_loop :
    List (ℕ × ℕ)
    → List ℕ
    → List (ℕ → ℕ → Option (List FileRegion))
    → ℕ
    → ℕ
    → ℕ
    → ℕ
    → ℕ
    → ℕ
    → List FileRegion
    → Option (List FileRegion)
struct_loop blocks extents olds extent num_bytes zero processed struct_begin current regions = none
struct_loop blocks extents olds extent num_bytes (suc fuel) processed struct_begin current regions =
    let more = (do
      p ←
          struct_members struct_begin current (current % extent) num_bytes blocks extents olds
            (record { processed = processed; regions = regions })
      struct_loop blocks extents olds extent num_bytes fuel p.processed
          (add_u64 struct_begin extent) (add_u64 struct_begin extent) p.regions) in
    if ltb processed num_bytes then more else some regions
