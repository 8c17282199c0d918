-- ===== src/Storage.antt =====
-- src/os/fixed_inode_storage_layout.cc and src/os/storage_layout.cc: the blocks of a disk that hold
-- a file. FSBlock is int64_t, held as its bit pattern.
pub mod Words
pub mod Blocks
pub mod Allocation
pub mod Shared
pub mod Tests
use hecios.Assoc.{find, assign}
use hecios.RegionSet.{FileRegion}
use hecios.Prelude.{
  ℕ, zero, suc, ◌/◌, ◌%◌, min, Bool, List, [], ◌∷◌, ◌++◌, Option, none, some, ◌>>=◌, if◌then◌else◌,
  ◌==◌, ltb, add_u64, sub_u64, mul_u64, replicate,
}

-- The two maps go from a name to a block. `K` is the type of file names.
pub record StorageLayout (K : Type 0) : Type 0 where
  pub fs_block_size : ℕ
  pub next_meta_data_block : ℕ
  pub next_data_block : ℕ
  pub meta_data_blocks : List (K × ℕ)
  pub data_blocks : List (K × ℕ)

abbrev pub num_directory_data_blocks : ℕ
num_directory_data_blocks = 10

-- The constructor, with its assert: inodes are in the blocks below 1000.
unfoldable pub init : {K : Type 0} → ℕ → Option (StorageLayout K)
init block_size =
    if ltb 0 block_size
    then some (record {
      fs_block_size = block_size;
      next_meta_data_block = 0;
      next_data_block = 1000;
      meta_data_blocks = [];
      data_blocks = [];
    })
    else none

-- The blocks that the inner loop adds: `count` of them, from `first` on.
unfoldable pub consecutive_blocks : ℕ → ℕ → List ℕ
consecutive_blocks first zero = []
consecutive_blocks first (suc count) = first ∷ consecutive_blocks (add_u64 first 1) count

-- The number of blocks to access for a region, and the region's part of the loop.
unfoldable pub blocks_to_access : ℕ → FileRegion → ℕ
blocks_to_access size r =
    let blocks_offset = r.offset / size in
    let full = r.extent / size in
    let partial_block = sub_u64 (mul_u64 blocks_offset size) r.offset % size in
    let first_portion = min r.extent partial_block in
    let with_first = if first_portion == 0 then full else add_u64 full 1 in
    let last_portion = sub_u64 r.extent first_portion % size in
    if last_portion == 0 then with_first else add_u64 with_first 1

unfoldable pub region_blocks : ℕ → ℕ → FileRegion → List ℕ
region_blocks size first_file_block r =
    consecutive_blocks (add_u64 first_file_block (r.offset / size)) (blocks_to_access size r)

unfoldable pub regions_blocks : ℕ → ℕ → List FileRegion → List ℕ
regions_blocks size first_file_block [] = []
regions_blocks size first_file_block (r ∷ regions) =
    region_blocks size first_file_block r ++ regions_blocks size first_file_block regions

module _ {K : Type 0} (dec : Discrete K) where
  -- map[key] = value.
  unfoldable pub put : K → ℕ → List (K × ℕ) → List (K × ℕ)
  put k v m = elim (find dec k m) [ none ↦ (k, v) ∷ m | some _ ↦ assign dec k v m ]

  unfoldable pub add_directory : StorageLayout K → K → StorageLayout K
  add_directory s name = record s {
    meta_data_blocks = put name s.next_meta_data_block s.meta_data_blocks;
    next_meta_data_block = add_u64 s.next_meta_data_block 1;
    data_blocks = put name s.next_data_block s.data_blocks;
    next_data_block = add_u64 s.next_data_block num_directory_data_blocks;
  }

  unfoldable pub add_file : StorageLayout K → K → ℕ → StorageLayout K
  add_file s name file_size = record s {
    meta_data_blocks = put name s.next_meta_data_block s.meta_data_blocks;
    next_meta_data_block = add_u64 s.next_meta_data_block 1;
    data_blocks = put name s.next_data_block s.data_blocks;
    next_data_block = add_u64 s.next_data_block (file_size / s.fs_block_size);
  }

  -- `none`: the assert fails, since the file has no blocks.
  unfoldable pub get_file_meta_data_blocks : StorageLayout K → K → Option (List ℕ)
  get_file_meta_data_blocks s name = do block ← find dec name s.meta_data_blocks; some (block ∷ [])

  unfoldable pub get_file_data_blocks : StorageLayout K → K → List FileRegion → Option (List ℕ)
  get_file_data_blocks s name regions = do
    first_file_block ← find dec name s.data_blocks
    some (regions_blocks s.fs_block_size first_file_block regions)

  abbrev empty_region : FileRegion
  empty_region = record { offset = 0; extent = 0 }

  -- The form for one region, whose vector has an empty region before it.
  unfoldable pub get_region_data_blocks : StorageLayout K → K → ℕ → ℕ → Option (List ℕ)
  get_region_data_blocks s name offset extent =
      get_file_data_blocks s name (empty_region ∷ record { offset = offset; extent = extent } ∷ [])
