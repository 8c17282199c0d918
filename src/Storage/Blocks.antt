-- ===== src/Storage/Blocks.antt =====
-- getFileDataBlocks of src/os/fixed_inode_storage_layout.cc against the blocks that a region's bytes
-- lie in.
use native.Mathlib.Nat.{div-add-mod', mod-lt, div-le_self}
use hecios.Assoc.{find}
use hecios.RegionSet.{FileRegion}
use hecios.Storage.{
  StorageLayout, consecutive_blocks, blocks_to_access, region_blocks, regions_blocks,
  get_file_data_blocks,
}
use hecios.Storage.Words.{
  partial_block_lem, touched_blocks, first_portion, last_portion, full_blocks, touched_words,
  one_if_not_zero, counted,
}
use hecios.Prelude.{
  ℕ, zero, suc, ◌+◌, ◌-◌, ◌*◌, ◌/◌, ◌%◌, ◌<◌, List, [], ◌∷◌, ◌++◌, some, ◌≡◌, refl, ◌∙◌, ap, arith,
  if◌then◌else◌, ◌==◌, leb, add_u64, add_u64_small, sub_u64_small, u64_mod, offset_limit,
}

-- One where the two portions together make up a block.
abbrev pub overrun : ℕ → ℕ → ℕ → ℕ
overrun size offset extent =
    if leb size (first_portion size offset extent + last_portion size offset extent) then 1 else 0

first_portion-lt : (size offset extent : ℕ) → 0 < size → first_portion size offset extent < size
first_portion-lt size offset extent h = ground (arith, mod-lt offset {m = size} h)

rearranged : (full q v f l t : ℕ) → full ≡ q + v → t ≡ q + f + l → full + f + l ≡ t + v
rearranged full q v f l t h k = omega arith

pub blocks_count :
    (size offset extent : ℕ)
    → 0 < size
    → counted (extent / size) (first_portion size offset extent) (last_portion size offset extent)
      ≡ touched_blocks size offset extent + overrun size offset extent
blocks_count size offset extent h =
    let f = first_portion size offset extent in
    let l = last_portion size offset extent in
    let rest = div-add-mod' (extent - f) size in
    let split : extent ≡ (extent - f) / size * size + (f + l) = omega arith in
    let small = mod-lt (extent - f) {m = size} h in
    let whole =
      full_blocks size ((extent - f) / size) f l extent split
        (first_portion-lt size offset extent h) small in
    let touched =
      touched_words size (offset / size) (offset % size) ((extent - f) / size) f l extent h
        (mod-lt offset {m = size} h) small refl split in
    rearranged (extent / size) ((extent - f) / size) (overrun size offset extent)
      (one_if_not_zero f) (one_if_not_zero l) (touched_blocks size offset extent) whole
      (rw (div-add-mod' offset size) at touched)

-- The counter of the loop, which does not wrap.
counter_words :
    (full f l : ℕ)
    → full + 2 < u64_mod
    → (let with_first = if f == 0 then full else add_u64 full 1 in
        if l == 0 then with_first else add_u64 with_first 1)
      ≡ counted full f l
unfolding add_u64
counter_words full f l h = ground arith

blocks_to_access_lem :
    (m size : ℕ) (r : FileRegion)
    → suc m * size ≡ u64_mod
    → 0 < size
    → r.offset + r.extent < offset_limit
    → blocks_to_access size r
      ≡ touched_blocks size r.offset r.extent + overrun size r.offset r.extent
unfolding blocks_to_access
blocks_to_access_lem m size r whole h k =
    let offset = r.offset in
    let extent = r.extent in
    let fits = div-le_self extent size in
    let p = partial_block_lem m size offset whole h (omega arith) in
    rw
      (
        blocks_to_access,
        p,
        sub_u64_small extent (first_portion size offset extent) (ground arith) (omega arith),
      )
      (counter_words (extent / size) (first_portion size offset extent)
          (last_portion size offset extent) (omega arith)
        ∙ blocks_count size offset extent h)

-- The numbers from one on.
abbrev pub range : ℕ → ℕ → List ℕ
range first zero = []
range first (suc count) = first ∷ range (first + 1) count

consecutive_blocks_lem :
    (first count : ℕ) → first + count < u64_mod → consecutive_blocks first count ≡ range first count
unfolding consecutive_blocks add_u64
consecutive_blocks_lem first zero h = refl
consecutive_blocks_lem first (suc count) h =
    let next : (first + 1) % u64_mod ≡ first + 1 = omega arith in
    rw next (ap (◌∷◌ first) (consecutive_blocks_lem (first + 1) count (omega arith)))

-- The blocks of the bytes of a region, and one more where it overruns.
abbrev pub region_range : ℕ → ℕ → FileRegion → List ℕ
region_range size first r =
    range (first + r.offset / size)
      (touched_blocks size r.offset r.extent + overrun size r.offset r.extent)

abbrev pub regions_range : ℕ → ℕ → List FileRegion → List ℕ
regions_range size first [] = []
regions_range size first (r ∷ regions) =
    region_range size first r ++ regions_range size first regions

-- The regions end below a bound.
abbrev pub AllBelow : ℕ → List FileRegion → Type 0
AllBelow bound [] = Unit
AllBelow bound (r ∷ regions) = (r.offset + r.extent < bound) × AllBelow bound regions

region_blocks_lem :
    (m size first : ℕ) (r : FileRegion)
    → suc m * size ≡ u64_mod
    → 0 < size
    → first < offset_limit
    → r.offset + r.extent + 3 < offset_limit
    → region_blocks size first r ≡ region_range size first r
unfolding region_blocks
region_blocks_lem m size first r whole h k j =
    let offset = r.offset in
    let extent = r.extent in
    let low = div-le_self offset size in
    let high = div-le_self (offset + extent - 1) size in
    rw
      (
        region_blocks,
        blocks_to_access_lem m size r whole h (omega arith),
        add_u64_small first (offset / size) (omega arith),
      )
      (consecutive_blocks_lem (first + offset / size)
        (touched_blocks size offset extent + overrun size offset extent) (ground arith))

regions_blocks_lem :
    (m size first : ℕ) (regions : List FileRegion)
    → suc m * size ≡ u64_mod
    → 0 < size
    → first < offset_limit
    → AllBelow (offset_limit - 3) regions
    → regions_blocks size first regions ≡ regions_range size first regions
unfolding regions_blocks
regions_blocks_lem m size first [] whole h k fit = refl
regions_blocks_lem m size first (r ∷ regions) whole h k fit = rw (
  region_blocks_lem m size first r whole h k (omega (arith, fit.0)),
  regions_blocks_lem m size first regions whole h k fit.1,
)

divisor_positive : (m size : ℕ) → suc m * size ≡ u64_mod → 0 < size
divisor_positive m zero h = absurd (omega arith)
divisor_positive m (suc size) h = omega arith

module _ {K : Type 0} (dec : Discrete K) where
  -- Where the block size divides 2 ^ 64, the file has a first data block below 2 ^ 63, and every
  -- region ends below 2 ^ 63 - 3, the data blocks of the regions are, for each region in turn, the
  -- consecutive blocks that its bytes lie in, and one block behind them exactly if the bytes in
  -- its partial first block and in its partial last block together make up a block or more.
  pub get_file_data_blocks_lem :
      (s : StorageLayout K) (name : K) (m first : ℕ) (regions : List FileRegion)
      → suc m * s.fs_block_size ≡ u64_mod
      → find dec name s.data_blocks ≡ some first
      → first < offset_limit
      → AllBelow (offset_limit - 3) regions
      → get_file_data_blocks dec s name regions ≡ some (regions_range s.fs_block_size first regions)
  unfolding get_file_data_blocks
  get_file_data_blocks_lem s name m first regions whole held k fit = rw (
    held,
    regions_blocks_lem m s.fs_block_size first regions whole
        (divisor_positive m s.fs_block_size whole) k fit,
  )
