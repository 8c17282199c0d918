-- ===== src/FileSystem/Regions.antt =====
-- NativeFileSystem::getDataBlocks: the empty regions at the front of its vector.
use native.Mathlib.Nat.{mod-eq_of_lt, div-eq_of_lt}
use hecios.Assoc.{find}
use hecios.RegionSet.{FileRegion}
use hecios.Storage.{
  consecutive_blocks, blocks_to_access, region_blocks, regions_blocks, get_file_data_blocks,
}
use hecios.FileSystem.{FileSystem, IoRequest, get_data_blocks}
use hecios.Prelude.{
  ℕ, zero, suc, ◌<◌, ◌/◌, ◌%◌, min, List, [], ◌∷◌, ◌++◌, ◌≡◌, refl, arith, inl, inr, Option-cases,
  length, replicate, sub_u64, sub_u64_small, mul_u64,
}

abbrev empty_region : FileRegion
empty_region = record { offset = 0; extent = 0 }

min_zero : (n : ℕ) → min 0 n ≡ 0
min_zero n = omega arith

no_blocks : (size : ℕ) (r : FileRegion) → 0 < size → r.extent ≡ 0 → blocks_to_access size r ≡ 0
unfolding blocks_to_access
no_blocks size r h none_asked = rw (
  blocks_to_access,
  none_asked,
  div-eq_of_lt {n = 0} {m = size} h,
  min_zero (sub_u64 (mul_u64 (r.offset / size) size) r.offset % size),
  sub_u64_small 0 0 (omega arith) (omega arith),
  mod-eq_of_lt {n = 0} {m = size} h,
)

skipped :
    (size first n : ℕ) (regions : List FileRegion)
    → 0 < size
    → regions_blocks size first (replicate n empty_region ++ regions)
      ≡ regions_blocks size first regions
unfolding regions_blocks region_blocks consecutive_blocks
skipped size first zero regions h = refl
skipped size first (suc n) regions h =
    rw (no_blocks size empty_region h refl) (skipped size first n regions h)

-- No region has bytes.
abbrev pub AllEmpty : List FileRegion → Type 0
AllEmpty [] = Unit
AllEmpty (r ∷ regions) = (r.extent ≡ 0) × AllEmpty regions

pub regions_blocks-AllEmpty :
    (size first : ℕ) (regions : List FileRegion)
    → 0 < size
    → AllEmpty regions
    → regions_blocks size first regions ≡ []
unfolding regions_blocks region_blocks consecutive_blocks
regions_blocks-AllEmpty size first [] h empty = refl
regions_blocks-AllEmpty size first (r ∷ regions) h empty =
    rw (no_blocks size r h empty.0) (regions_blocks-AllEmpty size first regions h empty.1)

module _ {K : Type 0} (dec : Discrete K) where
  -- The blocks of a request are those of its regions, in their order: the empty regions that the
  -- vector has at its front have none.
  pub get_data_blocks_lem :
      (fs : FileSystem K) (io : IoRequest K)
      → 0 < fs.storage_layout.fs_block_size
      → get_data_blocks dec fs io
        ≡ get_file_data_blocks dec fs.storage_layout io.filename io.regions
  unfolding get_data_blocks get_file_data_blocks
  get_data_blocks_lem fs io h =
      elim (Option-cases (find dec io.filename fs.storage_layout.data_blocks)) [
        | inl miss ↦ rw miss
        | inr (first, hit) ↦
            rw (hit, skipped fs.storage_layout.fs_block_size first (length io.regions) io.regions h)
      ]
