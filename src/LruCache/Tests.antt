-- ===== src/LruCache/Tests.antt =====
-- src/common/lru_cache.h: the theorems on a full cache of two entries, one of them dirty.
use hecios.OrderedSet.{split_last}
use hecios.Assoc.{find, erase_key, assign, erase}
use hecios.LruCache.{
  Entry, LruCache, ok, get_dirty_bit, remove, set_dirty_bit, lookup, update_entry, add_entry,
  insert, insert_and_recall, get_lru, last_key, init,
}
use hecios.LruCache.Recency.{Represents, inserted, evicted}
use hecios.LruCache.Insertion.{entry, recalled, insert-Represents}
use hecios.LruCache.Dirty.{IsCounted}
use hecios.Prelude.{
  ℕ, true, false, List, [], ◌∷◌, none, some, ◌≡◌, refl, arith, add_u64, sub_u64, ℕ_discrete as dec,
}

abbrev entries : List (ℕ × Entry ℕ)
entries =
    (1, record { value = 10; is_dirty = true }) ∷ (2, record { value = 20; is_dirty = false }) ∷ []

abbrev full_cache : LruCache ℕ ℕ
full_cache = record {
  key_entry_map = entries;
  lru_list = 1 ∷ 2 ∷ [];
  max_entries = 2;
  num_dirty = 1;
  num_entries = 2;
}

abbrev clean_cache : LruCache ℕ ℕ
clean_cache = record full_cache {
  key_entry_map = (1, record { value = 10; is_dirty = false }) ∷ [];
  lru_list = 1 ∷ [];
  num_dirty = 0;
  num_entries = 1;
}

program : Unit {0}
unfolding get_dirty_bit remove set_dirty_bit lookup update_entry add_entry insert insert_and_recall
    get_lru last_key init split_last find erase_key assign erase add_u64 sub_u64 dec
program = tt

-- The least recently used entry, 2, makes room for a new one.
insert_runs :
    insert dec full_cache 3 30 true
    ≡ ok (record full_cache {
      key_entry_map =
          (3, record { value = 30; is_dirty = true })
          ∷ (1, record { value = 10; is_dirty = true })
          ∷ [];
      lru_list = 3 ∷ 1 ∷ [];
      num_dirty = 2;
    })
unfolding program
insert_runs = refl

full_cache-Represents : Represents dec full_cache entries
unfolding program
full_cache-Represents = record {
  order = refl;
  agree = λ k. refl;
  distinct = (refl, (refl, tt));
  map_distinct = (refl, (refl, tt));
  map_size = refl;
  counted = refl;
  bounded = omega arith;
  positive = omega arith;
  fits = omega arith;
}

full_cache-IsCounted : IsCounted full_cache
full_cache-IsCounted = (refl, omega arith)

found : find dec 1 full_cache.key_entry_map ≡ some (record { value = 10; is_dirty = true })
unfolding program
found = refl

missing : find dec 3 entries ≡ none
unfolding program
missing = refl

found_clean : find dec 1 clean_cache.key_entry_map ≡ some (record { value = 10; is_dirty = false })
unfolding program
found_clean = refl

insert-Represents_example :
    (c' : LruCache ℕ ℕ) × (insert dec full_cache 3 30 true ≡ ok c')
    × (insert_and_recall dec full_cache 3 30 true ≡ ok (c', recalled dec (evicted dec 2 3 entries)))
    × Represents dec c' (inserted dec 2 3 (entry dec 30 true) entries)
insert-Represents_example = insert-Represents dec full_cache 3 30 true entries full_cache-Represents
