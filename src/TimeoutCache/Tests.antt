-- ===== src/TimeoutCache/Tests.antt =====
-- src/common/lru_timeout_cache.h: the theorem on a full cache of two entries.
use hecios.OrderedSet.{split_last}
use hecios.Assoc.{find, erase_key, assign, erase}
use hecios.LruCache as Lru
use hecios.LruCache.{last_key}
use hecios.LruCache.Recency.{Represents, inserted}
use hecios.TimeoutCache.{
  Entry, TimeoutCache, init, size, remove, lookup, update_entry, add_entry, insert,
}
use hecios.TimeoutCache.Recency.{view_entry, view, operations-Represents}
use hecios.Prelude.{
  ℕ, false, List, [], ◌∷◌, none, some, ◌≡◌, refl, arith, ◌⊎◌, add_u64, sub_u64, ℕ_discrete as dec,
}

-- Key 1 came at time 5, and key 2 before it.
abbrev full_cache : TimeoutCache ℕ ℕ ℕ
full_cache = record {
  key_entry_map =
      (1, record { data_value = 10; time_stamp = 5 })
      ∷ (2, record { data_value = 20; time_stamp = 3 })
      ∷ [];
  lru_list = 1 ∷ 2 ∷ [];
  max_entries = 2;
  max_time = 1;
  num_entries = 2;
}

abbrev entries : List (ℕ × Lru.Entry (ℕ × ℕ))
entries =
    (1, record { value = (10, 5); is_dirty = false })
    ∷ (2, record { value = (20, 3); is_dirty = false })
    ∷ []

program : Unit {0}
unfolding init size remove lookup update_entry add_entry insert last_key split_last find erase_key
    assign erase add_u64 sub_u64 dec
program = tt

size_runs : size full_cache ≡ some 2
unfolding program
size_runs = refl

-- The entries are older than the time out of 1 at time 9, and are found all the same.
lookup_runs : (lookup dec full_cache 2).1 ≡ some (record { data_value = 20; time_stamp = 3 })
unfolding program
lookup_runs = refl

full_cache-Represents : Represents dec (view full_cache) entries
unfolding program
full_cache-Represents = record {
  order = refl;
  agree = λ k. refl;
  distinct = (refl, (refl, tt));
  map_distinct = (refl, (refl, tt));
  map_size = refl;
  counted = refl;
  bounded = omega arith;
  positive = omega arith;
  fits = omega arith;
}

operations-Represents_example :
    ((next : TimeoutCache ℕ ℕ ℕ) × (insert dec full_cache 3 30 9 ≡ some next)
      × Represents dec
          (view next)
          (inserted dec 2 3 (record { value = (30, 9); is_dirty = false }) entries))
    × Represents dec (view (remove dec full_cache 3)) (erase_key dec 3 entries)
    × (((find dec 3 entries ≡ none) × (lookup dec full_cache 3 ≡ (full_cache, none)))
        ⊎ ((e : Entry ℕ ℕ) × (next : TimeoutCache ℕ ℕ ℕ) × (find dec 3 entries
              ≡ some (view_entry e))
            × (lookup dec full_cache 3 ≡ (next, some e))
            × Represents dec (view next) ((3, view_entry e) ∷ erase_key dec 3 entries)))
operations-Represents_example =
    operations-Represents dec full_cache 3 30 9 entries full_cache-Represents
