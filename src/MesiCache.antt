-- ===== src/MesiCache.antt =====
-- src/common/lru_mesi_cache.h, LRUMesiCache: the cache of src/common/lru_cache.h with a state of
-- the MESI coherence protocol in each entry, and a count of the modified entries, in place of the
-- dirty bits. Results, lists and maps are those of LruCache.
pub mod View
pub mod Refines
pub mod Counts
pub mod Reach
pub mod Capacity
pub mod Right
pub mod Careful
pub mod Tests
use hecios.OrderedSet.{set_insert}
use hecios.Assoc.{find, erase_key, assign, erase}
use hecios.LruCache.{Result, ok, no_such_entry, undefined, ◌>>=◌, or_throw, or_undefined, last_key}
use hecios.Prelude.{
  ℕ, Bool, true, false, not, ◌&&◌, List, [], ◌∷◌, Option, none, some, if◌then◌else◌, ◌==◌, ltb,
  length, add_u64, sub_u64,
}

pub data State : Type 0 where
  null_state modified exclusive shared invalid : State

-- MODIFIED == state.
abbrev pub is_modified : State → Bool
is_modified modified = true
is_modified _ = false

pub record EntryType {ℓ} (V : Type ℓ) : Type ℓ where
  pub data_value : V
  pub state : State

-- The head of `lru_list` is the most recently used key.
pub record MesiCache {ℓ} (K V : Type ℓ) : Type ℓ where
  pub key_entry_map : List (K × EntryType V)
  pub lru_list : List K
  pub max_entries : ℕ
  pub num_modified_entries : ℕ
  pub num_entries : ℕ

-- The constructor, with its assert. `none`: the assert fails.
unfoldable pub init {ℓ} : {K V : Type ℓ} → ℕ → Option (MesiCache K V)
init capacity =
    if ltb 0 capacity
    then some (record {
      key_entry_map = [];
      lru_list = [];
      max_entries = capacity;
      num_modified_entries = 0;
      num_entries = 0;
    })
    else none

-- size(), with its asserts.
unfoldable pub size {ℓ} : {K V : Type ℓ} → MesiCache K V → Result ℕ
size c =
    if (length c.lru_list == length c.key_entry_map) && (length c.lru_list == c.num_entries)
    then ok c.num_entries
    else undefined

module _ {ℓ} {K V : Type ℓ} (dec : Discrete K) where
  unfoldable pub get_state : MesiCache K V → K → Result State
  get_state c k = do e ← or_throw (find dec k c.key_entry_map); ok e.state

  unfoldable pub remove : MesiCache K V → K → Result (MesiCache K V)
  remove c k = do
    _ ← or_throw (find dec k c.key_entry_map)
    state ← get_state c k
    ok (record c {
      lru_list = erase dec k c.lru_list;
      num_entries = sub_u64 c.num_entries 1;
      num_modified_entries =
          if is_modified state then sub_u64 c.num_modified_entries 1 else c.num_modified_entries;
      key_entry_map = erase_key dec k c.key_entry_map;
    })

  -- setState: the count goes down for the old state and up for the new one.
  unfoldable pub set_state : MesiCache K V → K → State → Result (MesiCache K V)
  set_state c k state = do
    e ← or_throw (find dec k c.key_entry_map)
    let less =
        if is_modified e.state then sub_u64 c.num_modified_entries 1 else c.num_modified_entries
    ok (record c {
      num_modified_entries = if is_modified state then add_u64 less 1 else less;
      key_entry_map = assign dec k (record e { state = state }) c.key_entry_map;
    })

  unfoldable pub exists : MesiCache K V → K → Bool
  exists c k = elim (find dec k c.key_entry_map) [ none ↦ false | some _ ↦ true ]

  unfoldable pub lookup : MesiCache K V → K → Result (MesiCache K V × V)
  lookup c k = do
    e ← or_throw (find dec k c.key_entry_map)
    ok (record c { lru_list = k ∷ erase dec k c.lru_list }, e.data_value)

  unfoldable pub lookup_state : MesiCache K V → K → Result (MesiCache K V × State)
  lookup_state c k = do
    e ← or_throw (find dec k c.key_entry_map)
    ok (record c { lru_list = k ∷ erase dec k c.lru_list }, e.state)

  -- The branch of `insert` for a key that is there, and the end of the other branch.
  unfoldable pub update_entry : MesiCache K V → K → EntryType V → V → State → MesiCache K V
  update_entry c k old v state = record c {
    num_modified_entries =
        if is_modified state && not (is_modified old.state)
        then add_u64 c.num_modified_entries 1
        else c.num_modified_entries;
    key_entry_map = assign dec k (record { data_value = v; state = state }) c.key_entry_map;
    lru_list = k ∷ erase dec k c.lru_list;
  }

  unfoldable pub add_entry : MesiCache K V → K → V → State → MesiCache K V
  add_entry c k v state = record c {
    lru_list = k ∷ c.lru_list;
    key_entry_map = (k, record { data_value = v; state = state }) ∷ c.key_entry_map;
    num_entries = add_u64 c.num_entries 1;
    num_modified_entries =
        if is_modified state then add_u64 c.num_modified_entries 1 else c.num_modified_entries;
  }

  unfoldable pub insert : MesiCache K V → K → V → State → Result (MesiCache K V)
  insert c k v state = elim (find dec k c.key_entry_map) [
    | some old ↦ ok (update_entry c k old v state)
    | none ↦ do
      room ←
          if c.num_entries == c.max_entries
          then (do lru_key ← or_undefined (last_key c.lru_list); remove c lru_key)
          else ok c
      ok (add_entry room k v state)
  ]

  -- insertAndRecall: the cache after the insertion, with the evicted key, value and state. `none`
  -- beside the cache is the NoSuchEntry that ends a call without an eviction.
  unfoldable pub insert_and_recall :
      MesiCache K V → K → V → State → Result (MesiCache K V × Option (K × V × State))
  insert_and_recall c k v state = elim (find dec k c.key_entry_map) [
    | some old ↦ ok (update_entry c k old v state, none)
    | none ↦
        if c.num_entries == c.max_entries
        then (do
          lru_key ← or_undefined (last_key c.lru_list)
          evictee ← or_undefined (find dec lru_key c.key_entry_map)
          room ← remove c lru_key
          ok (add_entry room k v state, some (lru_key, evictee.data_value, evictee.state)))
        else ok (add_entry c k v state, none)
  ]

  -- getLRU: the key and value that the next insertion into a full cache evicts.
  unfoldable pub get_lru : MesiCache K V → Result (K × V)
  get_lru c = if 0 == c.num_entries then no_such_entry else (do
    lru_key ← or_undefined (last_key c.lru_list)
    e ← or_undefined (find dec lru_key c.key_entry_map)
    ok (lru_key, e.data_value))

-- getModifiedEntries: the keys of the modified entries.
unfoldable pub get_modified_entries {ℓ} : {K V : Type ℓ} → List (K × EntryType V) → List K
get_modified_entries [] = []
get_modified_entries ((k, e) ∷ m) =
    let rest = get_modified_entries m in if is_modified e.state then k ∷ rest else rest

-- The loops of getFilteredEntries and getFilteredKeys, from the sets found so far: the values and
-- the keys of the entries that pass. The first argument is the operator< of the set.
unfoldable pub filter_entries {ℓ} :
    {K V : Type ℓ}
    → (V → V → Bool)
    → (K → V → State → Bool)
    → List V
    → List (K × EntryType V)
    → List V
filter_entries less filter found [] = found
filter_entries less filter found ((k, e) ∷ m) =
    let found =
      if filter k e.data_value e.state then set_insert less e.data_value found else found in
    filter_entries less filter found m

unfoldable pub filter_keys {ℓ} :
    {K V : Type ℓ}
    → (K → K → Bool)
    → (K → V → State → Bool)
    → List K
    → List (K × EntryType V)
    → List K
filter_keys less filter found [] = found
filter_keys less filter found ((k, e) ∷ m) =
    let found = if filter k e.data_value e.state then set_insert less k found else found in
    filter_keys less filter found m

unfoldable pub get_filtered_entries {ℓ} :
    {K V : Type ℓ} → (V → V → Bool) → (K → V → State → Bool) → MesiCache K V → List V
get_filtered_entries less filter c = filter_entries less filter [] c.key_entry_map

unfoldable pub get_filtered_keys {ℓ} :
    {K V : Type ℓ} → (K → K → Bool) → (K → V → State → Bool) → MesiCache K V → List K
get_filtered_keys less filter c = filter_keys less filter [] c.key_entry_map
