-- ===== src/FilePages/Tests.antt =====
-- src/common/file_page_utils.cc: the theorems on pages of ten bytes.
use hecios.RegionSet.{FileRegion}
use hecios.RegionSet.Chain.{IsValid, covers}
use hecios.DataType.{basic, get_regions_by_bytes}
use hecios.Mapping.Processor.{FileView, shift, locate_file_regions}
use hecios.FilePages.{determine_partial_page_regions, regions_to_page_ids, has_id}
use hecios.FilePages.PartialRegions.{on_page, determine_partial_page_regions-covers}
use hecios.FilePages.PageIds.{regions_to_page_ids-covers}
use hecios.Prelude.{ℕ, ◌*◌, ◌/◌, true, ◌&&◌, List, [], ◌∷◌, some, ◌≡◌, ◌↔◌, refl, arith, add_u64}

abbrev bytes_from_100 : FileView
bytes_from_100 = record { displacement = 100; data_type = basic 1 }

abbrev request : List FileRegion
request = record { offset = 105; extent = 12 } ∷ []

located : locate_file_regions 1 5 12 bytes_from_100 ≡ some request
unfolding locate_file_regions get_regions_by_bytes shift add_u64
located = refl

-- Page 11 holds bytes 110 to 119, of which the request has 110 to 116.
determine_partial_page_regions-covers_example :
    (set : List FileRegion) × (determine_partial_page_regions 1 10 11 5 12 bytes_from_100
      ≡ some set)
    × IsValid set
    × ((p : ℕ) → covers p set ≡ (on_page (11 * 10) 10 p && covers p request))
determine_partial_page_regions-covers_example =
    determine_partial_page_regions-covers 1 10 11 5 12 bytes_from_100 request located
      (omega arith, tt) (omega arith)

regions_to_page_ids-covers_example :
    (has_id 11 (regions_to_page_ids 10 request) ≡ true)
    ↔ ((p : ℕ) × (covers p request ≡ true) × (p / 10 ≡ 11))
regions_to_page_ids-covers_example =
    regions_to_page_ids-covers 10 11 request (omega arith) (omega arith, tt) (omega arith, tt)
