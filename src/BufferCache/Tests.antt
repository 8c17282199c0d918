-- ===== src/BufferCache/Tests.antt =====
-- src/os/buffer_cache.cc: the theorems on a full cache of two blocks, the older one dirty.
use hecios.Assoc.{find, assign, erase}
use hecios.LruCache.{
  Entry, LruCache, Result, ok, undefined, ◌>>=◌, percent_dirty, exists, lookup, insert,
  update_entry, add_entry,
}
use hecios.LruCache.Recency.{Represents, inserted, evicted}
use hecios.LruCache.Insertion.{entry}
use hecios.BufferCache.{
  BufferCache, forward, passed_on, read, write, read_response, write_response, Request,
  handle_block_request, is_full, is_cached, handle_read, handle_write, handle_block_response,
  evict_cache_entry,
}
use hecios.BufferCache.Eviction.{holds, refreshed, written_back, evict_cache_entry-Represents}
use hecios.BufferCache.Pending.{waiting, filled, handle_block_response_lem}
use hecios.BufferCache.Requests.{goes_through, is_nil, handle_read_lem, handle_write_lem}
use hecios.Prelude.{
  ℕ, ◌+◌, Bool, true, false, not, List, [], ◌∷◌, ◌++◌, map, if◌then◌else◌, ◌==◌, ltb, leb, add_u64,
  ◌≡◌, ◌⊎◌, refl, arith, length, ℕ_discrete as dec,
}

abbrev blocks : List (ℕ × Entry ℕ)
blocks =
    (7, record { value = 0; is_dirty = false }) ∷ (5, record { value = 0; is_dirty = true }) ∷ []

abbrev block_cache : LruCache ℕ ℕ
block_cache = record {
  key_entry_map = blocks;
  lru_list = 7 ∷ 5 ∷ [];
  max_entries = 2;
  num_dirty = 1;
  num_entries = 2;
}

-- Two reads wait for block 9, and one for block 3.
abbrev busy : BufferCache
busy = record {
  cache = block_cache;
  pending = (9, 100) ∷ (3, 101) ∷ (9, 102) ∷ [];
  num_requests = 3;
  num_hits = 0;
  num_misses = 2;
  num_write_throughs = 0;
}

-- More than half of the cache is dirty.
abbrev over_half : ℕ → ℕ → Bool
over_half dirty capacity = ltb capacity (dirty + dirty)

block_cache-Represents : Represents dec block_cache blocks
unfolding find dec
block_cache-Represents = record {
  order = refl;
  agree = λ k. refl;
  distinct = (refl, (refl, tt));
  map_distinct = (refl, (refl, tt));
  map_size = refl;
  counted = refl;
  bounded = omega arith;
  positive = omega arith;
  fits = omega arith;
}

evict_cache_entry-Represents_example :
    (c' : LruCache ℕ ℕ) × (evict_cache_entry block_cache 9
      ≡ ok (c', written_back (evicted dec 2 9 blocks)))
    × Represents dec c' (if length blocks == 2 then refreshed 9 blocks else blocks)
evict_cache_entry-Represents_example =
    evict_cache_entry-Represents block_cache 9 blocks block_cache-Represents

handle_read_lem_example :
    (s' : BufferCache) × (handle_read busy 103 3
      ≡ ok (
        s',
        if holds (find dec 3 blocks)
            then read_response 103 ∷ []
            else if is_nil (waiting busy.pending 3)
            then forward (passed_on (read 103 3)) ∷ []
            else [],
      ))
    × Represents dec s'.cache (refreshed 3 blocks)
    × (waiting s'.pending 3 ≡ (
        if holds (find dec 3 blocks)
        then waiting busy.pending 3
        else waiting busy.pending 3 ++ 103 ∷ []))
    × ((other : ℕ) → (3 == other) ≡ false → waiting s'.pending other ≡ waiting busy.pending other)
handle_read_lem_example = handle_read_lem busy 103 3 blocks block_cache-Represents

handle_write_lem_example :
    ((leb 1 2 ≡ false) × (handle_write over_half busy 104 8 false ≡ undefined))
    ⊎ ((leb 1 2 ≡ true)
        × ((s' : BufferCache) × (handle_write over_half busy 104 8 false
              ≡ ok (
                s',
                written_back (evicted dec 2 8 blocks)
                    ++ (if goes_through over_half busy false
                        then forward (passed_on (write 104 8 true))
                        else write_response 104)
                      ∷ [],
              ))
            × Represents dec s'.cache
                (inserted dec 2 8 (entry dec 0 (not (goes_through over_half busy false))) blocks)
            × (s'.pending ≡ busy.pending)))
handle_write_lem_example = handle_write_lem over_half busy 104 8 false blocks block_cache-Represents

program : Unit {0}
unfolding handle_block_request handle_write percent_dirty evict_cache_entry is_full is_cached exists
    lookup insert update_entry add_entry find assign erase add_u64 dec
program = tt

-- The requests one after the other.
handle_all : BufferCache → List Request → Result BufferCache
handle_all s [] = ok s
handle_all s (r ∷ requests) = do
  next ← handle_block_request (λ dirty capacity. false) s r
  handle_all next.0 requests

abbrev empty : BufferCache
empty = record {
  cache = record {
    key_entry_map = [];
    lru_list = [];
    max_entries = 4;
    num_dirty = 0;
    num_entries = 0;
  };
  pending = [];
  num_requests = 0;
  num_hits = 0;
  num_misses = 0;
  num_write_throughs = 0;
}

-- Three writes of one block, the second one through, count it as dirty twice, and the assert of the
-- next write fails.
writes_fail :
    handle_all empty (write 1 7 false ∷ write 2 7 true ∷ write 3 7 false ∷ write 4 7 false ∷ [])
    ≡ undefined
unfolding program handle_all
writes_fail = refl

handle_block_response_lem_example :
    (s' : BufferCache) × (handle_block_response busy (passed_on (read 100 9))
      ≡ ok
          (s', written_back (evicted dec 2 9 blocks) ++ map read_response (waiting busy.pending 9)))
    × Represents dec s'.cache (filled 2 9 blocks)
    × (waiting s'.pending 9 ≡ [])
    × ((other : ℕ) → (9 == other) ≡ false → waiting s'.pending other ≡ waiting busy.pending other)
handle_block_response_lem_example =
    handle_block_response_lem busy 100 9 blocks block_cache-Represents
