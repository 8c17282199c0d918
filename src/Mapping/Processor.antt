-- ===== src/Mapping/Processor.antt =====
-- src/layout/data_type_processor.cc, with the FileView of src/common/file_view.cc. `none`: a loop ran out of
-- fuel.
pub mod Extent
use hecios.RegionSet.{FileRegion, insert}
use hecios.DataType.{DataType, get_extent, representation_length, get_regions_by_bytes}
use hecios.Layout.Distribution.{
  FileDistribution, logical_to_physical_offset, next_mapped_logical_offset, contiguous_length,
}
use hecios.Mapping.FileLayout.{add_region, get_length}
use hecios.Prelude.{
  ◌>>=◌, ℕ, zero, suc, ◌+◌, min, Bool, true, false, List, [], ◌∷◌, map, Option, none, some,
  if◌then◌else◌, ltb, add_u64, sub_u64, mul_u64,
}

-- FileView, and its getRepresentationByteLength.
pub record FileView : Type 0 where
  pub displacement : ℕ
  pub data_type : DataType

unfoldable pub view_length : FileView → ℕ
view_length view = add_u64 8 (representation_length view.data_type)

unfoldable pub shift : ℕ → FileRegion → FileRegion
shift displacement r = record r { offset = add_u64 r.offset displacement }

-- locateFileRegions.
unfoldable pub locate_file_regions : ℕ → ℕ → ℕ → FileView → Option (List FileRegion)
locate_file_regions fuel offset data_size view = do
  regions ← get_regions_by_bytes view.data_type fuel offset data_size
  some (map (shift view.displacement) regions)

-- locateFileRegionSet.
unfoldable pub insert_each : List FileRegion → List FileRegion → List FileRegion
insert_each set [] = set
insert_each set (x ∷ xs) = insert_each (insert x set) xs

unfoldable pub locate_file_region_set : ℕ → ℕ → ℕ → FileView → Option (List FileRegion)
locate_file_region_set fuel offset data_size view = do
  regions ← get_regions_by_bytes view.data_type fuel offset data_size
  some (insert_each [] (map (shift view.displacement) regions))

-- The body of the loop of distributeContiguousRegion: the regions with the one at a logical offset.
unfoldable pub add_piece : FileDistribution → ℕ → ℕ → Bool → ℕ → List FileRegion → List FileRegion
add_piece dist extent bstream_size data_extend logical layout =
    let physical = logical_to_physical_offset dist logical in
    let requested = min (contiguous_length dist physical) extent in
    let final_size = min (add_u64 physical requested) bstream_size in
    if data_extend
    then add_region layout physical requested
    else if ltb physical bstream_size
    then add_region layout physical (sub_u64 final_size physical)
    else layout

-- Where the loop goes from a logical offset.
unfoldable pub next_piece : FileDistribution → ℕ → ℕ
next_piece dist logical =
    next_mapped_logical_offset dist
      (add_u64 logical (contiguous_length dist (logical_to_physical_offset dist logical)))

unfoldable pub distribute_loop :
    FileDistribution → ℕ → ℕ → ℕ → Bool → ℕ → ℕ → List FileRegion → Option (List FileRegion)
distribute_loop dist offset extent bstream_size data_extend zero logical layout = none
distribute_loop dist offset extent bstream_size data_extend (suc fuel) logical layout =
    let more =
      distribute_loop dist offset extent bstream_size data_extend fuel (next_piece dist logical)
        (add_piece dist extent bstream_size data_extend logical layout) in
    if ltb logical (add_u64 offset extent) then more else some layout

-- distributeContiguousRegion.
unfoldable pub distribute_contiguous_region :
    FileDistribution → ℕ → ℕ → ℕ → Bool → ℕ → List FileRegion → Option (List FileRegion)
distribute_contiguous_region dist offset extent bstream_size data_extend fuel layout =
    distribute_loop dist offset extent bstream_size data_extend fuel
      (next_mapped_logical_offset dist offset) layout

unfoldable pub distribute_each :
    FileDistribution
    → ℕ
    → ℕ
    → Bool
    → ℕ
    → List FileRegion
    → List FileRegion
    → Option (List FileRegion)
distribute_each dist displacement bstream_size data_extend fuel [] layout = some layout
distribute_each dist displacement bstream_size data_extend fuel (x ∷ xs) layout = do
  layout' ←
      distribute_contiguous_region dist (add_u64 displacement x.offset) x.extent bstream_size
        data_extend fuel layout
  distribute_each dist displacement bstream_size data_extend fuel xs layout'

-- processServerRequest: the length of the layout, and the layout.
unfoldable pub process_server_request :
    ℕ
    → ℕ
    → ℕ
    → FileView
    → FileDistribution
    → ℕ
    → Bool
    → List FileRegion
    → Option (ℕ × List FileRegion)
process_server_request fuel offset data_size view dist bstream_size data_extend layout = do
  regions ← get_regions_by_bytes view.data_type fuel offset data_size
  layout' ← distribute_each dist view.displacement bstream_size data_extend fuel regions layout
  some (get_length layout', layout')

-- processClientRequest: the assigned bytes, and outAggregateSize.
unfoldable pub process_client_request :
    ℕ → ℕ → DataType → ℕ → FileView → FileDistribution → ℕ → Bool → Option (ℕ × ℕ)
process_client_request fuel offset data_type count view dist bstream_size data_extend = do
  result ←
      process_server_request fuel offset (mul_u64 (get_extent data_type) count) view dist
        bstream_size data_extend []
  some (result.0, mul_u64 (get_extent data_type) count)

unfoldable pub create_client_file_layout_for_read :
    ℕ → ℕ → DataType → ℕ → FileView → FileDistribution → ℕ → Option (ℕ × ℕ)
create_client_file_layout_for_read fuel offset data_type count view dist bstream_size =
    process_client_request fuel offset data_type count view dist bstream_size false

unfoldable pub create_client_file_layout_for_write :
    ℕ → ℕ → DataType → ℕ → FileView → FileDistribution → Option (ℕ × ℕ)
create_client_file_layout_for_write fuel offset data_type count view dist =
    process_client_request fuel offset data_type count view dist 0 true

unfoldable pub create_server_file_layout_for_read :
    ℕ → ℕ → ℕ → FileView → FileDistribution → ℕ → List FileRegion → Option (ℕ × List FileRegion)
create_server_file_layout_for_read fuel offset data_size view dist bstream_size layout =
    process_server_request fuel offset data_size view dist bstream_size false layout

unfoldable pub create_server_file_layout_for_write :
    ℕ → ℕ → ℕ → FileView → FileDistribution → List FileRegion → Option (ℕ × List FileRegion)
create_server_file_layout_for_write fuel offset data_size view dist layout =
    process_server_request fuel offset data_size view dist 0 true layout
