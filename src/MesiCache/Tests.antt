-- ===== src/MesiCache/Tests.antt =====
-- src/common/lru_mesi_cache.h: the theorems on a full cache of two entries, one of them modified.
use hecios.OrderedSet.{split_last}
use hecios.Assoc.{find, erase_key, assign, erase}
use hecios.LruCache as Lru
use hecios.LruCache.{Entry, ok, no_such_entry, last_key}
use hecios.LruCache.Recency.{Represents}
use hecios.LruCache.Dirty.{IsCounted}
use hecios.MesiCache.{
  State, modified, shared, invalid, EntryType, MesiCache, init, size, get_state, remove, set_state,
  lookup, lookup_state, insert, insert_and_recall, update_entry, add_entry, get_lru,
}
use hecios.MesiCache.View.{
  view_entry, view_map, view, map_result, view_beside, value_beside, state_beside, view_recall,
}
use hecios.MesiCache.Refines.{operations-view}
use hecios.MesiCache.Counts.{set_state-Represents}
use hecios.MesiCache.Reach.{IsReachable, constructed, called, inserts, sets, size-reachable}
use hecios.MesiCache.Right.{KeepsModified}
use hecios.MesiCache.Careful.{IsCareful, modified_count, num_modified-reachable}
use hecios.Prelude.{
  ℕ, true, false, ◌≤◌, List, [], ◌∷◌, some, none, ◌≡◌, ◌⊎◌, refl, arith, add_u64, sub_u64,
  ℕ_discrete as dec,
}

abbrev empty_cache : MesiCache ℕ ℕ
empty_cache = record {
  key_entry_map = [];
  lru_list = [];
  max_entries = 2;
  num_modified_entries = 0;
  num_entries = 0;
}

abbrev one_cache : MesiCache ℕ ℕ
one_cache = record {
  key_entry_map = (1, record { data_value = 10; state = modified }) ∷ [];
  lru_list = 1 ∷ [];
  max_entries = 2;
  num_modified_entries = 1;
  num_entries = 1;
}

abbrev full_cache : MesiCache ℕ ℕ
full_cache = record {
  key_entry_map =
      (2, record { data_value = 20; state = shared })
      ∷ (1, record { data_value = 10; state = modified })
      ∷ [];
  lru_list = 2 ∷ 1 ∷ [];
  max_entries = 2;
  num_modified_entries = 1;
  num_entries = 2;
}

-- Another processor has read the modified entry.
abbrev shared_cache : MesiCache ℕ ℕ
shared_cache = record full_cache {
  key_entry_map =
      (2, record { data_value = 20; state = shared })
      ∷ (1, record { data_value = 10; state = shared })
      ∷ [];
  num_modified_entries = 0;
}

program : Unit {0}
unfolding init size get_state remove set_state lookup lookup_state insert insert_and_recall
    update_entry add_entry get_lru last_key split_last find erase_key assign erase add_u64 sub_u64
    view_map dec
program = tt

-- The modified entry 1 is the least recently used: it is handed out and leaves the count at zero.
insert_and_recall_runs :
    insert_and_recall dec full_cache 3 30 invalid
    ≡ ok (
      record full_cache {
        key_entry_map =
            (3, record { data_value = 30; state = invalid })
            ∷ (2, record { data_value = 20; state = shared })
            ∷ [];
        lru_list = 3 ∷ 2 ∷ [];
        num_modified_entries = 0;
      },
      some (1, 10, modified),
    )
unfolding program
insert_and_recall_runs = refl

constructs : init 2 ≡ some empty_cache
unfolding program
constructs = refl

inserts_1 : insert dec empty_cache 1 10 modified ≡ ok one_cache
unfolding program
inserts_1 = refl

inserts_2 : insert dec one_cache 2 20 shared ≡ ok full_cache
unfolding program
inserts_2 = refl

sets_1 : set_state dec full_cache 1 shared ≡ ok shared_cache
unfolding program
sets_1 = refl

abbrev reachable : IsReachable dec 2 shared_cache
reachable =
    called full_cache shared_cache
      (called one_cache full_cache
        (called empty_cache one_cache (constructed empty_cache constructs)
          (inserts empty_cache one_cache 1 10 modified inserts_1))
        (inserts one_cache full_cache 2 20 shared inserts_2))
      (sets full_cache shared_cache 1 shared sets_1)

keeps_modified : KeepsModified dec one_cache 2 shared
unfolding program
keeps_modified old h = absurd (ground (arith, h))

careful : IsCareful dec 2 shared_cache reachable
careful = (((tt, λ old h m. refl), keeps_modified), tt)

abbrev entries : List (ℕ × Entry (ℕ × State))
entries =
    (2, record { value = (20, shared); is_dirty = false })
    ∷ (1, record { value = (10, modified); is_dirty = true })
    ∷ []

full_cache-Represents : Represents dec (view full_cache) entries
unfolding program
full_cache-Represents = record {
  order = refl;
  agree = λ k. refl;
  distinct = (refl, (refl, tt));
  map_distinct = (refl, (refl, tt));
  map_size = refl;
  counted = refl;
  bounded = omega arith;
  positive = omega arith;
  fits = omega arith;
}

full_cache-IsCounted : IsCounted (view full_cache)
unfolding program
full_cache-IsCounted = (refl, omega arith)

operations-view_example :
    (map_result view (insert dec full_cache 3 30 invalid)
      ≡ Lru.insert dec (view full_cache) 3 (30, invalid) false)
    × (map_result view_recall (insert_and_recall dec full_cache 3 30 invalid)
        ≡ Lru.insert_and_recall dec (view full_cache) 3 (30, invalid) false)
    × (map_result view (remove dec full_cache 3) ≡ Lru.remove dec (view full_cache) 3)
    × (map_result view_beside (lookup dec full_cache 3)
        ≡ map_result value_beside (Lru.lookup dec (view full_cache) 3))
    × (map_result view_beside (lookup_state dec full_cache 3)
        ≡ map_result state_beside (Lru.lookup dec (view full_cache) 3))
    × (get_lru dec full_cache ≡ map_result value_beside (Lru.get_lru dec (view full_cache)))
operations-view_example = operations-view dec full_cache 3 30 invalid

set_state-Represents_example :
    ((find dec 1 entries ≡ none) × (set_state dec full_cache 1 shared ≡ no_such_entry))
    ⊎ ((e : EntryType ℕ) × (c' : MesiCache ℕ ℕ) × (find dec 1 entries ≡ some (view_entry e))
        × (set_state dec full_cache 1 shared ≡ ok c')
        × Represents dec (view c') (assign dec 1 (view_entry (record e { state = shared })) entries)
        × IsCounted (view c'))
set_state-Represents_example =
    set_state-Represents dec full_cache 1 shared entries full_cache-Represents full_cache-IsCounted

size-reachable_example :
    (size shared_cache ≡ ok 2)
    × (2 ≤ 2)
    × ((l : List (ℕ × Entry (ℕ × State))) × Represents dec (view shared_cache) l)
size-reachable_example = size-reachable dec 2 shared_cache (omega arith) reachable

num_modified-reachable_example :
    (shared_cache.num_modified_entries ≡ modified_count shared_cache.key_entry_map)
    × (shared_cache.num_modified_entries ≤ shared_cache.num_entries)
    × (shared_cache.num_entries ≤ 2)
    × (shared_cache.max_entries ≡ 2)
num_modified-reachable_example =
    num_modified-reachable dec 2 shared_cache reachable (omega arith) careful
