-- ===== src/DirtyRegionSet.antt =====
-- src/common/dirty_file_region_set.cc: a set of file regions that keeps clean and dirty regions apart.
pub mod Uniform
pub mod Lost
pub mod Tests
use hecios.OrderedSet.{set_insert, upper_bound, split_last}
use hecios.RegionSet.{FileRegion, region_end}
use hecios.Prelude.{
  ℕ, Bool, true, false, ◌&&◌, ◌||◌, List, [], ◌∷◌, ◌++◌, none, some, map, suc, if◌then◌else◌,
  add_u64, sub_u64, max_i64, lt_i64, le_i64, ltb, ◌==◌,
}

-- The base class's offset and extent, and the dirty bit.
pub record DirtyFileRegion : Type 0 where
  pub region : FileRegion
  pub open region use *
  pub is_dirty : Bool

abbrev pub dirty_region : ℕ → ℕ → Bool → DirtyFileRegion
dirty_region offset extent is_dirty = record {
  region = record { offset = offset; extent = extent };
  is_dirty = is_dirty;
}

-- operator< for DirtyFileRegion, on the base class's part: the bit is not compared. A region is
-- below itself.
unfoldable pub less_or_same : FileRegion → FileRegion → Bool
unfolding lt_i64
less_or_same lhs rhs =
    if lhs.offset == rhs.offset
    then if lhs.extent == rhs.extent then true else ltb lhs.extent rhs.extent
    else lt_i64 lhs.offset rhs.offset

unfoldable pub less : DirtyFileRegion → DirtyFileRegion → Bool
unfolding less_or_same
less lhs rhs = less_or_same lhs.region rhs.region

-- == on two bool.
abbrev pub same_bit : Bool → Bool → Bool
same_bit true b = b
same_bit false true = false
same_bit false false = true

-- The constructor from plain regions and a dirty bit.
unfoldable pub from_regions : List FileRegion → Bool → List DirtyFileRegion → List DirtyFileRegion
from_regions [] is_dirty regions = regions
from_regions (r ∷ rs) is_dirty regions =
    from_regions rs is_dirty (set_insert less (dirty_region r.offset r.extent is_dirty) regions)

-- The first block of `insert`: the region before the new one, in the order of its three cases.
unfoldable pub merge_low :
    DirtyFileRegion → List DirtyFileRegion → DirtyFileRegion × List DirtyFileRegion
merge_low region regions =
    let (low, high) = upper_bound less region regions in
    elim (split_last low) [
      | none ↦ (region, regions)
      | some (front, prev) ↦
          let prev_end = region_end prev.region in
          if le_i64 region.offset prev_end
          then if same_bit region.is_dirty prev.is_dirty
            then (
              dirty_region prev.offset
                  (sub_u64 (max_i64 (region_end region.region) prev_end) prev.offset)
                  region.is_dirty,
              front ++ high,
            )
            else if region.is_dirty
            then (
              region,
              set_insert less
                  (dirty_region prev.offset (sub_u64 region.offset prev.offset) prev.is_dirty)
                  (front ++ high),
            )
            else (
              dirty_region prev_end (sub_u64 region.extent (sub_u64 prev_end region.offset))
                  region.is_dirty,
              regions,
            )
          else (region, regions)
    ]

-- The loop of `insert`. `left` holds the regions before the iterator, and the last argument those
-- from it on; a piece that the loop inserts on its way lies before the iterator.
unfoldable pub merge_up :
    ℕ
    → DirtyFileRegion
    → List DirtyFileRegion
    → List DirtyFileRegion
    → DirtyFileRegion × List DirtyFileRegion
merge_up new_end new left [] = (new, left)
merge_up new_end new left (x ∷ xs) =
    let upper_end = region_end x.region in
    let subsumed =
      merge_up new_end
        (dirty_region new.offset (sub_u64 (max_i64 new_end upper_end) new.offset) new.is_dirty) left
        xs in
    let temp = dirty_region new.offset (sub_u64 x.offset new.offset) new.is_dirty in
    let skipped =
      merge_up new_end (dirty_region upper_end (sub_u64 new_end upper_end) new.is_dirty)
        (set_insert less temp left ++ x ∷ []) xs in
    if le_i64 x.offset new_end
    then if same_bit new.is_dirty x.is_dirty || (new.is_dirty && lt_i64 upper_end new_end)
      then subsumed
      else if new.is_dirty && le_i64 new_end upper_end
      then (
        new,
        set_insert less (dirty_region new_end (sub_u64 upper_end new_end) false) (left ++ xs),
      )
      else if le_i64 new_end upper_end
      then (dirty_region new.offset (sub_u64 x.offset new.offset) new.is_dirty, left ++ x ∷ xs)
      else skipped
    else (new, left ++ x ∷ xs)

-- DirtyFileRegionSet::insert.
unfoldable pub insert : DirtyFileRegion → List DirtyFileRegion → List DirtyFileRegion
insert region regions =
    let (new, left) = merge_low region regions in
    let (low, high) = upper_bound less region left in
    let (merged, rest) = merge_up (region_end new.region) new low high in
    set_insert less merged rest

-- DirtyFileRegionSet::numBytes, and size with a dirty bit.
unfoldable pub num_bytes_from : ℕ → List DirtyFileRegion → ℕ
num_bytes_from count [] = count
num_bytes_from count (x ∷ xs) = num_bytes_from (add_u64 count x.extent) xs

unfoldable pub num_bytes : List DirtyFileRegion → ℕ
unfolding num_bytes_from
num_bytes regions = num_bytes_from 0 regions

unfoldable pub size_of_bit : Bool → List DirtyFileRegion → ℕ
size_of_bit is_dirty [] = 0
size_of_bit is_dirty (x ∷ xs) =
    let rest = size_of_bit is_dirty xs in if same_bit x.is_dirty is_dirty then suc rest else rest

-- DirtyFileRegionSet::regionSpan.
unfoldable pub last_byte : DirtyFileRegion → List DirtyFileRegion → ℕ
last_byte x [] = region_end x.region
last_byte x (y ∷ ys) = last_byte y ys

unfoldable pub region_span : List DirtyFileRegion → ℕ
unfolding last_byte
region_span [] = 0
region_span (x ∷ xs) = sub_u64 (last_byte x xs) x.offset
