-- ===== src/RegionSet.antt =====
-- src/common/basic_types.h, FileRegion, and src/common/file_region_set.cc: a set of file regions that
-- merges a new region with those that it touches. `regions_` is a std::set, so an ascending list.
pub mod Chain
pub mod Merge
pub mod Low
pub mod Insert
pub mod Canonical
pub mod Bytes
pub mod Tests
use hecios.OrderedSet.{set_insert, upper_bound, split_last}
use hecios.Prelude.{
  ℕ, ◌+◌, ◌-◌, Bool, List, [], ◌∷◌, ◌++◌, Option, none, some, if◌then◌else◌, ◌==◌, ltb, add_u64,
  sub_u64, max_i64, lt_i64, le_i64,
}

pub record FileRegion : Type 0 where
  pub offset : ℕ
  pub extent : ℕ

-- operator< for FileRegion.
unfoldable pub less : FileRegion → FileRegion → Bool
unfolding lt_i64
less lhs rhs =
    if lhs.offset == rhs.offset then ltb lhs.extent rhs.extent else lt_i64 lhs.offset rhs.offset

-- offset + extent, as an FSOffset.
unfoldable pub region_end : FileRegion → ℕ
unfolding add_u64
region_end r = add_u64 r.offset r.extent

-- The first block of `insert`: the new region, and the regions that stay, once the region before
-- it has been taken in if the two touch.
-- The order of the set is a parameter, since DirtyFileRegionSet has one of its own.
unfoldable pub merge_low :
    (FileRegion → FileRegion → Bool) → FileRegion → List FileRegion → FileRegion × List FileRegion
merge_low lt region regions =
    let (low, high) = upper_bound lt region regions in
    elim (split_last low) [
      | none ↦ (region, regions)
      | some (front, prev) ↦
          if le_i64 region.offset (region_end prev)
          then (
            record {
              offset = prev.offset;
              extent = sub_u64 (max_i64 (region_end region) (region_end prev)) prev.offset;
            },
            front ++ high,
          )
          else (region, regions)
    ]

-- The loop of `insert` over the regions that follow. `newRegionEnd` is set once, before it.
unfoldable pub merge_up : ℕ → FileRegion → List FileRegion → FileRegion × List FileRegion
merge_up new_end new [] = (new, [])
merge_up new_end new (x ∷ xs) =
    let rest =
      merge_up new_end (record new { extent = sub_u64 (max_i64 new_end (region_end x)) new.offset })
        xs in
    if le_i64 x.offset new_end then rest else (new, x ∷ xs)

-- The body of FileRegionSet::insert, and the function itself.
unfoldable pub insert_by :
    (FileRegion → FileRegion → Bool) → FileRegion → List FileRegion → List FileRegion
insert_by lt region regions =
    let (new, left) = merge_low lt region regions in
    let (low, high) = upper_bound lt region left in
    let (merged, rest) = merge_up (region_end new) new high in set_insert lt merged (low ++ rest)

unfoldable pub insert : FileRegion → List FileRegion → List FileRegion
unfolding insert_by
insert region regions = insert_by less region regions

-- FileRegionSet::numBytes.
unfoldable pub num_bytes_from : ℕ → List FileRegion → ℕ
num_bytes_from count [] = count
num_bytes_from count (x ∷ xs) = num_bytes_from (add_u64 count x.extent) xs

unfoldable pub num_bytes : List FileRegion → ℕ
unfolding num_bytes_from
num_bytes regions = num_bytes_from 0 regions

-- FileRegionSet::regionSpan.
unfoldable pub last_byte : FileRegion → List FileRegion → ℕ
last_byte x [] = region_end x
last_byte x (y ∷ ys) = last_byte y ys

unfoldable pub region_span : List FileRegion → ℕ
unfolding last_byte
region_span [] = 0
region_span (x ∷ xs) = sub_u64 (last_byte x xs) x.offset
