-- ===== src/DirtyRegionSet/Tests.antt =====
-- src/common/dirty_file_region_set.cc: the theorems on small sets.
use hecios.RegionSet
use hecios.RegionSet.{FileRegion}
use hecios.DirtyRegionSet.{dirty_region, insert}
use hecios.DirtyRegionSet.Uniform.{tag, tags, insert-uniform}
use hecios.DirtyRegionSet.Lost.{insert_drops_clean_tail}
use hecios.Prelude.{◌-◌, true, false, [], ◌∷◌, ◌≡◌, arith}

abbrev clean_page : FileRegion
clean_page = record { offset = 0; extent = 10 }

abbrev next_bytes : FileRegion
next_bytes = record { offset = 10; extent = 4 }

insert-uniform_example :
    insert (tag true next_bytes) (tags true (clean_page ∷ []))
    ≡ tags true (RegionSet.insert next_bytes (clean_page ∷ []))
insert-uniform_example =
    insert-uniform true next_bytes (clean_page ∷ []) (omega arith) (omega arith)
      (omega arith, omega arith, tt) (omega arith, tt)

insert_drops_clean_tail_example :
    insert (dirty_region 4 2 true) (dirty_region 0 10 false ∷ [])
    ≡ dirty_region 0 (4 - 0) false ∷ dirty_region 4 2 true ∷ []
insert_drops_clean_tail_example =
    insert_drops_clean_tail 0 10 4 2 (omega arith) (omega arith) (omega arith)
