-- ===== src/CacheDirectory/Tests.antt =====
-- src/common/client_cache_directory.cc: the theorems on a directory of two clients that share a page.
use hecios.RegionSet.{FileRegion}
use hecios.DataType.{basic, get_regions_by_bytes}
use hecios.Layout.Distribution.{
  logical_to_physical_offset, physical_to_logical_offset, next_mapped_logical_offset,
  contiguous_length, basic_distribution,
}
use hecios.Mapping.FileLayout.{get_length, length_from, add_region}
use hecios.Mapping.Processor.{
  FileView, add_piece, next_piece, distribute_loop, distribute_contiguous_region, distribute_each,
  process_server_request, create_server_file_layout_for_read,
}
use hecios.FilePages.{regions_to_page_ids, has_id}
use hecios.CacheDirectory.{
  shared, exclusive, ClientCache, Directory, InvalidationMap, same_client, same_entry,
  add_client_cache_entry, remove_client_cache_entry, remove_client_cache_entry_by_rank,
  get_clients_needing_invalidate,
}
use hecios.CacheDirectory.Registered.{
  Operation, adds, removes, removes_by_rank, AllConnected, perform, perform_all, is_registered,
  last_call, perform_all-is_registered,
}
use hecios.CacheDirectory.Invalidated.{is_invalidated, get_clients_needing_invalidate_lem}
use hecios.Prelude.{
  ℕ, ◌+◌, true, ◌&&◌, List, [], ◌∷◌, some, ◌≡◌, refl, ltb, add_u64, sub_u64, lt_i64, le_i64,
  max_i64, ℕ_discrete as dec,
}

-- The client of a rank has the connection with 100 added.
abbrev connection : ℕ → ℕ
connection rank = rank + 100

abbrev client : ℕ → ClientCache
client rank = record { rank = rank; connection = rank + 100 }

-- Clients 1 and 2 hold page 0 of file 5, and client 2 page 3.
abbrev directory : Directory ℕ
directory =
    (record { filename = 5; page_id = 0; state = shared }, client 1)
    ∷ (record { filename = 5; page_id = 0; state = shared }, client 2)
    ∷ (record { filename = 5; page_id = 3; state = exclusive }, client 2)
    ∷ []

abbrev calls : List (Operation ℕ)
calls = removes (client 1) 5 0 ∷ adds (client 3) 5 0 shared ∷ removes_by_rank 2 5 3 ∷ []

directory-AllConnected : AllConnected connection directory
directory-AllConnected = (refl, (refl, (refl, tt)))

program : Unit {0}
unfolding perform perform_all is_registered last_call same_client same_entry add_client_cache_entry
    remove_client_cache_entry remove_client_cache_entry_by_rank dec
program = tt

perform_all-is_registered_example :
    (end : Directory ℕ) × (perform_all dec directory calls ≡ some end)
    × AllConnected connection end
    × (is_registered dec end 3 5 0 ≡ true)
unfolding program
perform_all-is_registered_example =
    perform_all-is_registered dec connection directory calls 3 5 0 directory-AllConnected
      (refl, (refl, tt))

abbrev whole_file : FileView
whole_file = record { displacement = 0; data_type = basic 1 }

abbrev two_hundred : List FileRegion
two_hundred = record { offset = 0; extent = 200 } ∷ []

layout_runs :
    create_server_file_layout_for_read 201 0 200 whole_file basic_distribution 1000 []
    ≡ some (200, two_hundred)
unfolding create_server_file_layout_for_read process_server_request distribute_each
    distribute_contiguous_region distribute_loop add_piece next_piece get_regions_by_bytes
    get_length length_from add_region logical_to_physical_offset physical_to_logical_offset
    next_mapped_logical_offset contiguous_length basic_distribution add_u64 sub_u64 lt_i64 le_i64
    max_i64
layout_runs = refl

get_clients_needing_invalidate_lem_example :
    (m : InvalidationMap ℕ) × (get_clients_needing_invalidate dec 201 ltb directory 5 100 0 200
        whole_file basic_distribution 1000
      ≡ some m)
    × (is_invalidated m 2 0
        ≡ (has_id 0 (regions_to_page_ids 100 two_hundred) && is_registered dec directory 2 5 0))
get_clients_needing_invalidate_lem_example =
    get_clients_needing_invalidate_lem dec connection 201 ltb directory 5 100 0 200 whole_file
      basic_distribution 1000 (200, two_hundred) 2 0 directory-AllConnected layout_runs
