-- ===== src/LruCache.antt =====
-- src/common/lru_cache.h, LRUCache: a fixed size cache with least recently used replacement and a dirty
-- bit for each entry. An entry's lruRef is the node of lruList_ that holds its key, so erasing at
-- it is erasing the key; size_t counters are words that wrap.
pub mod Recency
pub mod Removal
pub mod Insertion
pub mod Access
pub mod Dirty
pub mod Reads
pub mod Tests
use mathlib.Core.Logic.{ite}
use hecios.OrderedSet.{split_last}
use hecios.Assoc.{find, erase_key, assign, erase}
use hecios.Prelude.{
  ℕ, ◌+◌, Bool, true, false, not, ◌&&◌, List, [], ◌∷◌, Option, none, some, if◌then◌else◌, ◌==◌, ltb,
  leb, add_u64, sub_u64,
}

pub record Entry {ℓ} (V : Type ℓ) : Type ℓ where
  pub value : V
  pub is_dirty : Bool

-- The head of `lru_list` is the most recently used key.
pub record LruCache {ℓ} (K V : Type ℓ) : Type ℓ where
  pub key_entry_map : List (K × Entry V)
  pub lru_list : List K
  pub max_entries : ℕ
  pub num_dirty : ℕ
  pub num_entries : ℕ

-- What a call ends in: a value, the exception NoSuchEntry, or behaviour that C++ leaves undefined
-- (a read through rbegin() of an empty list) or that an assert stops.
pub data Result {ℓ} (A : Type ℓ) : Type ℓ where
  ok : A → Result A
  no_such_entry : Result A
  undefined : Result A

infixl 5 ◌>>=◌
abbrev pub ◌>>=◌ {ℓ κ} : {A : Type ℓ} {B : Type κ} → Result A → (A → Result B) → Result B
ok a >>= f = f a
no_such_entry >>= f = no_such_entry
undefined >>= f = undefined

abbrev pub or_throw {ℓ} : {A : Type ℓ} → Option A → Result A
or_throw none = no_such_entry
or_throw (some a) = ok a

abbrev pub or_undefined {ℓ} : {A : Type ℓ} → Option A → Result A
or_undefined none = undefined
or_undefined (some a) = ok a

-- The constructor, with its assert. `none`: the assert fails.
unfoldable pub init {ℓ} : {K V : Type ℓ} → ℕ → Option (LruCache K V)
init capacity =
    if ltb 0 capacity
    then some (record {
      key_entry_map = [];
      lru_list = [];
      max_entries = capacity;
      num_dirty = 0;
      num_entries = 0;
    })
    else none

-- *(lruList_.rbegin()).
unfoldable pub last_key {ℓ} : {K : Type ℓ} → List K → Option K
unfolding split_last
last_key l = elim (split_last l) [ none ↦ none | some (front, k) ↦ some k ]

-- percentDirty, with its asserts. The quotient of doubles is given by its dividend and divisor.
unfoldable pub percent_dirty {ℓ} : {K V : Type ℓ} → LruCache K V → Result (ℕ × ℕ)
percent_dirty c =
    if leb c.num_dirty c.max_entries && leb c.num_dirty c.num_entries
    then ok (c.num_dirty, c.max_entries)
    else undefined

module _ {ℓ} {K V : Type ℓ} (dec : Discrete K) where
  unfoldable pub get_dirty_bit : LruCache K V → K → Result Bool
  get_dirty_bit c k = do e ← or_throw (find dec k c.key_entry_map); ok e.is_dirty

  unfoldable pub remove : LruCache K V → K → Result (LruCache K V)
  remove c k = do
    _ ← or_throw (find dec k c.key_entry_map)
    dirty ← get_dirty_bit c k
    ok (record c {
      lru_list = erase dec k c.lru_list;
      num_entries = sub_u64 c.num_entries 1;
      num_dirty = if dirty then sub_u64 c.num_dirty 1 else c.num_dirty;
      key_entry_map = erase_key dec k c.key_entry_map;
    })

  unfoldable pub set_dirty_bit : LruCache K V → K → Bool → Result (LruCache K V)
  set_dirty_bit c k dirty = do
    e ← or_throw (find dec k c.key_entry_map)
    ok (record c { key_entry_map = assign dec k (record e { is_dirty = dirty }) c.key_entry_map })

  unfoldable pub exists : LruCache K V → K → Bool
  exists c k = elim (find dec k c.key_entry_map) [ none ↦ false | some _ ↦ true ]

  unfoldable pub lookup : LruCache K V → K → Result (LruCache K V × V)
  lookup c k = do
    e ← or_throw (find dec k c.key_entry_map)
    ok (record c { lru_list = k ∷ erase dec k c.lru_list }, e.value)

  -- The branch of `insert` for a key that is there, and the end of the other branch.
  unfoldable pub update_entry : LruCache K V → K → Entry V → V → Bool → LruCache K V
  update_entry c k old v dirty = record c {
    num_dirty = if dirty && not old.is_dirty then add_u64 c.num_dirty 1 else c.num_dirty;
    key_entry_map = assign dec k (record { value = v; is_dirty = dirty }) c.key_entry_map;
    lru_list = k ∷ erase dec k c.lru_list;
  }

  unfoldable pub add_entry : LruCache K V → K → V → Bool → LruCache K V
  add_entry c k v dirty = record c {
    lru_list = k ∷ c.lru_list;
    key_entry_map = (k, record { value = v; is_dirty = dirty }) ∷ c.key_entry_map;
    num_entries = add_u64 c.num_entries 1;
    num_dirty = if dirty then add_u64 c.num_dirty 1 else c.num_dirty;
  }

  unfoldable pub insert : LruCache K V → K → V → Bool → Result (LruCache K V)
  insert c k v dirty = elim (find dec k c.key_entry_map) [
    | some old ↦ ok (update_entry c k old v dirty)
    | none ↦ do
      room ←
          if c.num_entries == c.max_entries
          then (do lru_key ← or_undefined (last_key c.lru_list); remove c lru_key)
          else ok c
      ok (add_entry room k v dirty)
  ]

  -- insertAndRecall: the cache after the insertion, with the evicted key, value and dirty bit. `none`
  -- beside the cache is the NoSuchEntry that ends a call without an eviction.
  unfoldable pub insert_and_recall :
      LruCache K V → K → V → Bool → Result (LruCache K V × Option (K × V × Bool))
  insert_and_recall c k v dirty = elim (find dec k c.key_entry_map) [
    | some old ↦ ok (update_entry c k old v dirty, none)
    | none ↦
        if c.num_entries == c.max_entries
        then (do
          lru_key ← or_undefined (last_key c.lru_list)
          evictee ← or_undefined (find dec lru_key c.key_entry_map)
          room ← remove c lru_key
          ok (add_entry room k v dirty, some (lru_key, evictee.value, evictee.is_dirty)))
        else ok (add_entry c k v dirty, none)
  ]

  -- getLRU: the key and value that the next insertion into a full cache evicts.
  unfoldable pub get_lru : LruCache K V → Result (K × V)
  get_lru c = if 0 == c.num_entries then no_such_entry else (do
    lru_key ← or_undefined (last_key c.lru_list)
    e ← or_undefined (find dec lru_key c.key_entry_map)
    ok (lru_key, e.value))

-- getDirtyEntries and getFilteredEntries: the keys of the entries that pass.
unfoldable pub get_filtered_entries {ℓ} :
    {K V : Type ℓ} → (K → V → Bool → Bool) → List (K × Entry V) → List K
get_filtered_entries filter [] = []
get_filtered_entries filter ((k, e) ∷ m) =
    let rest = get_filtered_entries filter m in
    if filter k e.value e.is_dirty then k ∷ rest else rest

unfoldable pub get_dirty_entries {ℓ} : {K V : Type ℓ} → List (K × Entry V) → List K
get_dirty_entries [] = []
get_dirty_entries ((k, e) ∷ m) =
    let rest = get_dirty_entries m in if e.is_dirty then k ∷ rest else rest
