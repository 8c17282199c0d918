-- ===== src/LruCache/Recency.antt =====
-- What LRUCache promises: a list of entries, the most recently used first, cut at the capacity.
use hecios.OrderedSet.{split_last}
use hecios.Assoc.{keys, find, erase_key}
use hecios.Assoc.Laws.{Distinct}
use hecios.LruCache.{Entry, LruCache}
use hecios.Prelude.{
  ℕ, ◌≤◌, ◌<◌, List, [], ◌∷◌, Option, none, some, ◌≡◌, if◌then◌else◌, ◌==◌, length, u64_mod,
}

module _ {ℓ} {K V : Type ℓ} (dec : Discrete K) where
  -- The cache stands for the list: the same keys in the order of use, and the same entries.
  pub record Represents (c : LruCache K V) (l : List (K × Entry V)) : Type ℓ where
    pub order : c.lru_list ≡ keys l
    pub agree : (k : K) → find dec k c.key_entry_map ≡ find dec k l
    pub distinct : Distinct dec l
    pub map_distinct : Distinct dec c.key_entry_map
    pub map_size : length c.key_entry_map ≡ length l
    pub counted : c.num_entries ≡ length l
    pub bounded : length l ≤ c.max_entries
    pub positive : 0 < c.max_entries
    pub fits : c.max_entries < u64_mod

  -- All but the least recently used entry.
  unfoldable pub without_last : List (K × Entry V) → List (K × Entry V)
  without_last l = elim (split_last l) [ none ↦ [] | some (front, e) ↦ front ]

  unfoldable pub last_entry : List (K × Entry V) → Option (K × Entry V)
  last_entry l = elim (split_last l) [ none ↦ none | some (front, e) ↦ some e ]

  -- An insertion puts the entry first; a new key at a full cache drops the last entry.
  unfoldable pub inserted : ℕ → K → Entry V → List (K × Entry V) → List (K × Entry V)
  unfolding without_last
  inserted capacity k e l = elim (find dec k l) [
    | some _ ↦ (k, e) ∷ erase_key dec k l
    | none ↦ (k, e) ∷ (if length l == capacity then without_last l else l)
  ]

  -- What such an insertion drops.
  unfoldable pub evicted : ℕ → K → List (K × Entry V) → Option (K × Entry V)
  unfolding last_entry
  evicted capacity k l = elim (find dec k l) [
    | some _ ↦ none
    | none ↦ if length l == capacity then last_entry l else none
  ]
