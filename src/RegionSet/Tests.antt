-- ===== src/RegionSet/Tests.antt =====
-- src/common/file_region_set.cc: the theorems on a small set.
use hecios.OrderedSet.{set_insert, upper_bound, split_last}
use hecios.RegionSet.{FileRegion, less, region_end, merge_low, merge_up, insert_by, insert}
use hecios.RegionSet.Chain.{IsValid, within, covers, AllPositive}
use hecios.RegionSet.Insert.{insert-IsValid, covers-insert}
use hecios.Prelude.{
  ◌||◌, List, [], ◌∷◌, ◌≡◌, refl, arith, add_u64, sub_u64, lt_i64, le_i64, max_i64,
}

-- Two regions with a gap of five bytes.
abbrev two_regions : List FileRegion
two_regions = record { offset = 0; extent = 10 } ∷ record { offset = 15; extent = 5 } ∷ []

abbrev bridge : FileRegion
bridge = record { offset = 8; extent = 7 }

abbrev apart : FileRegion
apart = record { offset = 30; extent = 2 }

two_regions-IsValid : IsValid two_regions
two_regions-IsValid = (omega arith, omega arith, (omega arith, omega arith, tt))

two_regions-AllPositive : AllPositive two_regions
two_regions-AllPositive = (omega arith, (omega arith, tt))

-- A region that touches both makes them one; one that touches neither is added.
insert_runs :
    (insert bridge two_regions ≡ record { offset = 0; extent = 20 } ∷ [])
    × (insert apart (record { offset = 0; extent = 10 } ∷ [])
        ≡ record { offset = 0; extent = 10 } ∷ apart ∷ [])
unfolding insert insert_by merge_low merge_up region_end less set_insert upper_bound split_last
    add_u64 sub_u64 lt_i64 le_i64 max_i64
insert_runs = (refl, refl)

insert-IsValid_example : IsValid (insert bridge two_regions)
insert-IsValid_example = insert-IsValid bridge two_regions (omega arith) two_regions-IsValid

covers-insert_example :
    covers 12 (insert bridge two_regions) ≡ (within 12 bridge || covers 12 two_regions)
covers-insert_example = covers-insert 12 bridge two_regions (omega arith) two_regions-IsValid
