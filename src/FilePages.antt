-- ===== src/FilePages.antt =====
-- src/common/file_page_utils.cc: the pages of a file that a request touches. A std::set of page ids is an
-- ascending list. Page sizes are over 1, so that no last page is the largest size_t.
pub mod PartialRegions
pub mod PageIds
pub mod Tests
use hecios.OrderedSet.{set_insert}
use hecios.RegionSet.{FileRegion, insert}
use hecios.DataType.{DataType, basic, block_indexed}
use hecios.Layout.Distribution.{FileDistribution, physical_to_logical_offset}
use hecios.Mapping.Processor.{FileView, locate_file_regions, create_server_file_layout_for_write}
use hecios.Prelude.{
  ◌>>=◌, ℕ, zero, suc, ◌+◌, ◌-◌, ◌/◌, ◌%◌, min, Bool, ◌&&◌, ◌||◌, false, not, List, [], ◌∷◌, map,
  Option, none, some, if◌then◌else◌, ltb, leb, ◌==◌, add_u64, sub_u64, mul_u64, lt_i64, le_i64,
}

-- pageBeginOffset.
unfoldable pub page_begin_offset : ℕ → ℕ → ℕ
page_begin_offset page_size page_id = mul_u64 page_id page_size

-- The inner loop of regionsToPageIds: `count` pages from a first one.
unfoldable pub insert_pages : ℕ → ℕ → List ℕ → List ℕ
insert_pages first zero ids = ids
insert_pages first (suc count) ids = insert_pages (suc first) count (set_insert ltb first ids)

-- regionsToPageIds.
unfoldable pub region_pages : ℕ → FileRegion → List ℕ → List ℕ
region_pages page_size r ids =
    let first = r.offset / page_size in
    let last = sub_u64 (add_u64 r.offset r.extent) 1 / page_size in
    insert_pages first (suc last - first) ids

unfoldable pub regions_to_page_ids_from : ℕ → List FileRegion → List ℕ → List ℕ
regions_to_page_ids_from page_size [] ids = ids
regions_to_page_ids_from page_size (x ∷ xs) ids =
    regions_to_page_ids_from page_size xs (region_pages page_size x ids)

unfoldable pub regions_to_page_ids : ℕ → List FileRegion → List ℕ
regions_to_page_ids page_size regions = regions_to_page_ids_from page_size regions []

-- regionsToPages. A FilePage holds its offset and its size.
unfoldable pub regions_to_pages : ℕ → List FileRegion → List (ℕ × ℕ)
regions_to_pages page_size regions =
    map (λ id. (page_begin_offset page_size id, page_size)) (regions_to_page_ids page_size regions)

-- determineRequestPages for a view, and for a view and a distribution.
unfoldable pub determine_request_pages : ℕ → ℕ → ℕ → ℕ → FileView → Option (List ℕ)
determine_request_pages fuel page_size offset size view = do
  regions ← locate_file_regions fuel offset size view
  some (regions_to_page_ids page_size regions)

unfoldable pub determine_server_pages :
    ℕ → ℕ → ℕ → ℕ → FileView → FileDistribution → Option (List ℕ)
determine_server_pages fuel page_size offset size view dist = do
  result ← create_server_file_layout_for_write fuel offset size view dist []
  some (
      regions_to_page_ids page_size (
        map (λ r. record { offset = physical_to_logical_offset dist r.offset; extent = r.extent })
          result.1))

-- The loop of determineRequestPartialPages.
unfoldable pub insert_partial : ℕ → ℕ → List ℕ → List ℕ
insert_partial page_size border ids =
    if border % page_size == 0 then ids else set_insert ltb (border / page_size) ids

unfoldable pub partial_pages : ℕ → List FileRegion → List ℕ → List ℕ
partial_pages page_size [] ids = ids
partial_pages page_size (x ∷ xs) ids =
    partial_pages page_size xs
      (insert_partial page_size (add_u64 x.offset x.extent) (insert_partial page_size x.offset ids))

unfoldable pub determine_request_partial_pages : ℕ → ℕ → ℕ → ℕ → FileView → Option (List ℕ)
determine_request_partial_pages fuel page_size offset size view = do
  regions ← locate_file_regions fuel offset size view
  some (partial_pages page_size regions [])

-- std::set_difference, by membership.
unfoldable pub has_id : ℕ → List ℕ → Bool
has_id id [] = false
has_id id (x ∷ xs) = (id == x) || has_id id xs

unfoldable pub set_difference : List ℕ → List ℕ → List ℕ
set_difference [] ys = []
set_difference (x ∷ xs) ys =
    let rest = set_difference xs ys in if has_id x ys then rest else x ∷ rest

unfoldable pub determine_request_full_pages : ℕ → ℕ → ℕ → ℕ → FileView → Option (List ℕ)
determine_request_full_pages fuel page_size offset size view = do
  all ← determine_request_pages fuel page_size offset size view
  partial ← determine_request_partial_pages fuel page_size offset size view
  some (set_difference all partial)

-- The body of the loop of determinePartialPageRegions.
unfoldable pub insert_on_page : ℕ → ℕ → FileRegion → List FileRegion → List FileRegion
insert_on_page page_begin page_size r set =
    let page_end = add_u64 page_begin page_size in
    let region_end = add_u64 r.offset r.extent in
    if le_i64 r.offset page_begin && le_i64 page_end region_end
    then insert (record { offset = page_begin; extent = page_size }) set
    else if le_i64 page_begin r.offset && lt_i64 r.offset page_end
    then insert
        (record {
          offset = r.offset;
          extent = sub_u64 (if lt_i64 region_end page_end then region_end else page_end) r.offset;
        })
        set
    else if le_i64 page_begin region_end && lt_i64 region_end page_end
    then insert (record { offset = page_begin; extent = sub_u64 region_end page_begin }) set
    else set

unfoldable pub insert_all_on_page : ℕ → ℕ → List FileRegion → List FileRegion → List FileRegion
insert_all_on_page page_begin page_size [] set = set
insert_all_on_page page_begin page_size (x ∷ xs) set =
    insert_all_on_page page_begin page_size xs (insert_on_page page_begin page_size x set)

-- determinePartialPageRegions.
unfoldable pub determine_partial_page_regions :
    ℕ → ℕ → ℕ → ℕ → ℕ → FileView → Option (List FileRegion)
determine_partial_page_regions fuel page_size page_id offset size view = do
  regions ← locate_file_regions fuel offset size view
  some (insert_all_on_page (mul_u64 page_id page_size) page_size regions [])

-- createPageViewDescriptor, for the ids of a set that is not empty.
unfoldable pub create_page_view_descriptor : ℕ → List ℕ → FileView
create_page_view_descriptor page_size page_ids = record {
  displacement = 0;
  data_type = block_indexed page_size (map (λ id. mul_u64 id page_size) page_ids) (basic 1);
}
