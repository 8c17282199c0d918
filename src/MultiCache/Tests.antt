-- ===== src/MultiCache/Tests.antt =====
-- src/client/cache/multi_cache.cc: the theorems on small caches.
use hecios.Assoc.{find, erase_key, assign, erase}
use hecios.OrderedSet.{split_last}
use hecios.LruCache.{last_key}
use hecios.RegionSet.{FileRegion}
use hecios.MultiCache.{
  full_page, Entry, MultiCache, Evicted, init, map_size, exists, first_dirty, victim, remove,
  perform_eviction, recall, add_full_page, insert_full_page_and_recall, with_partial,
  insert_dirty_partial_page_and_recall,
}
use hecios.MultiCache.Invariant.{IsValid}
use hecios.MultiCache.Reach.{
  inserts_full, inserts_partial, perform, Reachable, starts, steps, reachable-returns,
}
use hecios.MultiCache.Merged.{is_dirty_byte, is_dirty_byte-insert_partial_page}
use hecios.RegionSet.Chain.{covers}
use hecios.Prelude.{
  ℕ, true, false, ◌||◌, List, [], ◌∷◌, Option, some, ◌≡◌, ◌≢◌, refl, arith, ℕ_discrete as dec,
}

abbrev region : ℕ → ℕ → FileRegion
region offset extent = record { offset = offset; extent = extent }

abbrev empty_cache : MultiCache ℕ
empty_cache = record { key_entry_map = []; lru_list = []; max_entries = 3 }

-- Page 7 is in the cache, clean.
abbrev clean_cache : MultiCache ℕ
clean_cache = record {
  key_entry_map = (7, record { page = full_page 7; is_dirty = false } ∷ []) ∷ [];
  lru_list = 7 ∷ [];
  max_entries = 3;
}

abbrev clean_copy : List Entry
clean_copy = record { page = full_page 7; is_dirty = false } ∷ []

abbrev written : List FileRegion
written = region 10 5 ∷ region 30 5 ∷ []

program : Unit {0}
unfolding init exists map_size first_dirty victim remove perform_eviction recall add_full_page
    insert_full_page_and_recall with_partial insert_dirty_partial_page_and_recall find erase_key
    assign erase last_key split_last perform dec
program = tt

reachable : Reachable dec 3 clean_cache
unfolding program
reachable = steps empty_cache clean_cache (inserts_full 7 7 false) (starts empty_cache refl) refl

there : exists dec clean_cache 7 ≡ true
unfolding program
there = refl

reachable-returns_example :
    IsValid dec clean_cache
    × ((next : MultiCache ℕ) × (perform dec clean_cache (inserts_partial 7 7 written) ≡ some next))
reachable-returns_example =
    reachable-returns dec 3 clean_cache (inserts_partial 7 7 written) reachable there

clean_cache-IsValid : IsValid dec clean_cache
clean_cache-IsValid = (reachable-returns dec 3 clean_cache (inserts_full 7 7 false) reachable tt).0

found : find dec 7 clean_cache.key_entry_map ≡ some clean_copy
unfolding program
found = refl

is_dirty_byte-insert_partial_page_example :
    (next : MultiCache ℕ) × (evicted : Option (Evicted ℕ)) × (insert_dirty_partial_page_and_recall
        dec clean_cache 7 7 written
      ≡ some (next, evicted))
    × ((entries : List Entry) (p : ℕ)
        → find dec 7 next.key_entry_map ≡ some entries
        → is_dirty_byte p entries ≡ (covers p written || is_dirty_byte p clean_copy))
    × ((q : ℕ) (entries : List Entry)
        → q ≢ 7
        → find dec q next.key_entry_map ≡ some entries
        → find dec q clean_cache.key_entry_map ≡ some entries)
is_dirty_byte-insert_partial_page_example =
    is_dirty_byte-insert_partial_page dec clean_cache 7 7 written clean_copy clean_cache-IsValid
      found (omega arith, (omega arith, tt)) (tt, tt)
