-- ===== src/Storage/Tests.antt =====
-- src/os/fixed_inode_storage_layout.cc: the theorems on a disk of blocks of 4096 bytes.
use hecios.Assoc.{find, assign}
use hecios.RegionSet.{FileRegion}
use hecios.Storage.{
  StorageLayout, init, put, add_directory, add_file, consecutive_blocks, blocks_to_access,
  region_blocks, regions_blocks, get_file_meta_data_blocks, get_file_data_blocks,
  get_region_data_blocks,
}
use hecios.Storage.Allocation.{Addition, directory, file, add_all, find-add_all}
use hecios.Storage.Blocks.{get_file_data_blocks_lem}
use hecios.Storage.Shared.{one_byte, files_share_block}
use hecios.Prelude.{
  ℕ, List, [], ◌∷◌, some, none, ◌≡◌, refl, arith, add_u64, sub_u64, mul_u64, ℕ_discrete as dec,
}

abbrev new_layout : StorageLayout ℕ
new_layout = record {
  fs_block_size = 4096;
  next_meta_data_block = 0;
  next_data_block = 1000;
  meta_data_blocks = [];
  data_blocks = [];
}

-- A directory 1, a file 2 of two blocks and a half, and a file 3.
abbrev additions : List (Addition ℕ)
additions = directory 1 ∷ file 2 10240 ∷ file 3 4096 ∷ []

abbrev filled : StorageLayout ℕ
filled = record {
  fs_block_size = 4096;
  next_meta_data_block = 3;
  next_data_block = 1013;
  meta_data_blocks = (3, 2) ∷ (2, 1) ∷ (1, 0) ∷ [];
  data_blocks = (3, 1012) ∷ (2, 1010) ∷ (1, 1000) ∷ [];
}

program : Unit {0}
unfolding init put add_directory add_file consecutive_blocks blocks_to_access region_blocks
    regions_blocks get_file_meta_data_blocks get_file_data_blocks get_region_data_blocks find assign
    add_u64 sub_u64 mul_u64 dec
program = tt

init_runs : init 4096 ≡ some new_layout
unfolding program
init_runs = refl

add_all_runs : add_all dec new_layout additions ≡ filled
unfolding program
add_all_runs = refl

get_file_meta_data_blocks_runs : get_file_meta_data_blocks dec filled 2 ≡ some (1 ∷ [])
unfolding program
get_file_meta_data_blocks_runs = refl

-- One block's worth of bytes from offset 1 on lies in two blocks; three are read.
get_region_data_blocks_runs :
    get_region_data_blocks dec filled 2 1 4096 ≡ some (1010 ∷ 1011 ∷ 1012 ∷ [])
unfolding program
get_region_data_blocks_runs = refl

unknown_file : get_file_data_blocks dec filled 9 [] ≡ none
unfolding program
unknown_file = refl

abbrev regions : List FileRegion
regions = record { offset = 1; extent = 4096 } ∷ record { offset = 4096; extent = 100 } ∷ []

held : find dec 2 filled.data_blocks ≡ some 1010
unfolding program
held = refl

get_file_data_blocks_lem_example :
    get_file_data_blocks dec filled 2 regions ≡ some (1010 ∷ 1011 ∷ 1012 ∷ 1011 ∷ [])
get_file_data_blocks_lem_example =
    get_file_data_blocks_lem dec filled 2 4503599627370495 1010 regions refl held (omega arith)
      (omega arith, (omega arith, tt))

find-add_all_example : find dec 2 (add_all dec new_layout additions).data_blocks ≡ some 1010
find-add_all_example =
    find-add_all dec new_layout (directory 1 ∷ []) (file 2 10240) (file 3 4096 ∷ [])
      ((λ p. absurd (omega (arith, p))), tt) (omega arith)

files_share_block_example :
    (block : ℕ) × (get_file_data_blocks dec
        (add_all dec new_layout (file 2 10240 ∷ file 3 4096 ∷ []))
        2
        (one_byte 10239 ∷ [])
      ≡ some (block ∷ []))
    × (get_file_data_blocks dec
          (add_all dec new_layout (file 2 10240 ∷ file 3 4096 ∷ []))
          3
          (one_byte 0 ∷ [])
        ≡ some (block ∷ []))
files_share_block_example =
    files_share_block dec new_layout 2 3 4503599627370495 10240 4096 refl (omega arith)
      (λ p. absurd (omega (arith, p))) (omega arith) (omega arith) (omega arith)
