-- ===== src/TimeoutCache.antt =====
-- src/common/lru_timeout_cache.h, LRUTimeoutCache: a cache whose entries carry the time of their insertion. `T`
-- is the type of simulation times, of which the code computes nothing; the current time, that the
-- simulation kernel tells, is an argument. An entry's lruRef is the node of lruList_ that holds its key.
pub mod Recency
pub mod Tests
use hecios.Assoc.{find, erase_key, assign, erase}
use hecios.LruCache.{last_key}
use hecios.Prelude.{
  ℕ, ◌+◌, Bool, true, false, ◌&&◌, List, [], ◌∷◌, Option, none, some, ◌>>=◌, if◌then◌else◌, ◌==◌,
  ltb, add_u64, sub_u64, length,
}

-- LRUTimeoutCacheEntry.
pub record Entry (V T : Type 0) : Type 0 where
  pub data_value : V
  pub time_stamp : T

pub record TimeoutCache (K V T : Type 0) : Type 0 where
  pub key_entry_map : List (K × Entry V T)
  pub lru_list : List K
  pub max_entries : ℕ
  pub max_time : T
  pub num_entries : ℕ

-- The constructor, with its asserts; `is_positive` compares the time with 0. `none`: an assert fails.
unfoldable pub init : {K V T : Type 0} → (T → Bool) → ℕ → T → Option (TimeoutCache K V T)
init is_positive capacity timeout =
    if ltb 0 capacity && is_positive timeout
    then some (record {
      key_entry_map = [];
      lru_list = [];
      max_entries = capacity;
      max_time = timeout;
      num_entries = 0;
    })
    else none

-- `none`: an assert fails.
unfoldable pub size : {K V T : Type 0} → TimeoutCache K V T → Option ℕ
size c =
    if (length c.lru_list == length c.key_entry_map) && (length c.lru_list == c.num_entries)
    then some c.num_entries
    else none

module _ {K V T : Type 0} (dec : Discrete K) where
  unfoldable pub remove : TimeoutCache K V T → K → TimeoutCache K V T
  remove c k = elim (find dec k c.key_entry_map) [
    | none ↦ c
    | some e ↦ record c {
      lru_list = erase dec k c.lru_list;
      key_entry_map = erase_key dec k c.key_entry_map;
      num_entries = sub_u64 c.num_entries 1;
    }
  ]

  -- The pointer is null exactly if there is no entry.
  unfoldable pub lookup : TimeoutCache K V T → K → TimeoutCache K V T × Option (Entry V T)
  lookup c k = elim (find dec k c.key_entry_map) [
    | none ↦ (c, none)
    | some e ↦ (record c { lru_list = k ∷ erase dec k c.lru_list }, some e)
  ]

  -- The branch of `insert` for a key that is there, and the end of the other branch.
  unfoldable pub update_entry : TimeoutCache K V T → K → V → T → TimeoutCache K V T
  update_entry c k v now = record c {
    key_entry_map = assign dec k (record { data_value = v; time_stamp = now }) c.key_entry_map;
    lru_list = k ∷ erase dec k c.lru_list;
  }

  unfoldable pub add_entry : TimeoutCache K V T → K → V → T → TimeoutCache K V T
  add_entry c k v now = record c {
    lru_list = k ∷ c.lru_list;
    key_entry_map = (k, record { data_value = v; time_stamp = now }) ∷ c.key_entry_map;
    num_entries = add_u64 c.num_entries 1;
  }

  -- `none`: the code reads through rbegin() of an empty list.
  unfoldable pub insert : TimeoutCache K V T → K → V → T → Option (TimeoutCache K V T)
  insert c k v now = elim (find dec k c.key_entry_map) [
    | some old ↦ some (update_entry c k v now)
    | none ↦ elim (c.num_entries == c.max_entries) [
      | true ↦ do lru_key ← last_key c.lru_list; some (add_entry (remove c lru_key) k v now)
      | false ↦ some (add_entry c k v now)
    ]
  ]
