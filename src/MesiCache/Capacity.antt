-- ===== src/MesiCache/Capacity.antt =====
-- The calls of LRUMesiCache that insert and remove keep the capacity.
use hecios.Assoc.{find}
use hecios.LruCache.{Result, ok, no_such_entry, undefined, last_key}
use hecios.MesiCache.{
  State, MesiCache, get_state, remove, insert, insert_and_recall, update_entry, add_entry,
}
use hecios.Prelude.{ℕ, ◌≡◌, inl, inr, Option-cases, Bool-cases, ◌==◌}

-- The capacity of a cache that a call returns, or the number.
abbrev pub capacity_or {ℓ} : {K V : Type ℓ} → ℕ → Result (MesiCache K V) → ℕ
capacity_or n (ok c) = c.max_entries
capacity_or n no_such_entry = n
capacity_or n undefined = n

abbrev pub cache_of {ℓ} : {K V W : Type ℓ} → Result (MesiCache K V × W) → Result (MesiCache K V)
cache_of (ok (c, w)) = ok c
cache_of no_such_entry = no_such_entry
cache_of undefined = undefined

module _ {ℓ} {K V : Type ℓ} (dec : Discrete K) where
  pub remove-capacity :
      (c : MesiCache K V) (k : K) → capacity_or c.max_entries (remove dec c k) ≡ c.max_entries
  unfolding remove get_state
  remove-capacity c k = elim (Option-cases (find dec k c.key_entry_map)) [
    | inl miss ↦ rw (remove, miss)
    | inr (e, hit) ↦ rw (remove, hit)
  ]

  pub insert-capacity :
      (c : MesiCache K V) (k : K) (v : V) (s : State)
      → capacity_or c.max_entries (insert dec c k v s) ≡ c.max_entries
  unfolding insert remove get_state update_entry add_entry
  insert-capacity c k v s = elim (Option-cases (find dec k c.key_entry_map)) [
    | inr (e, hit) ↦ rw (insert, hit)
    | inl miss ↦ elim (Bool-cases (c.num_entries == c.max_entries)) [
      | inr room ↦ rw (insert, miss, room)
      | inl full ↦ elim (Option-cases (last_key c.lru_list)) [
        | inl empty ↦ rw (insert, miss, full, empty)
        | inr (j, last) ↦ elim (Option-cases (find dec j c.key_entry_map)) [
          | inl lost ↦ rw (insert, miss, full, last, remove, lost)
          | inr (e, hit) ↦ rw (insert, miss, full, last, remove, hit)
        ]
      ]
    ]
  ]

  pub recall-capacity :
      (c : MesiCache K V) (k : K) (v : V) (s : State)
      → capacity_or c.max_entries (cache_of (insert_and_recall dec c k v s)) ≡ c.max_entries
  unfolding insert_and_recall remove get_state update_entry add_entry
  recall-capacity c k v s = elim (Option-cases (find dec k c.key_entry_map)) [
    | inr (e, hit) ↦ rw (insert_and_recall, hit)
    | inl miss ↦ elim (Bool-cases (c.num_entries == c.max_entries)) [
      | inr room ↦ rw (insert_and_recall, miss, room)
      | inl full ↦ elim (Option-cases (last_key c.lru_list)) [
        | inl empty ↦ rw (insert_and_recall, miss, full, empty)
        | inr (j, last) ↦ elim (Option-cases (find dec j c.key_entry_map)) [
          | inl lost ↦ rw (insert_and_recall, miss, full, last, lost)
          | inr (e, hit) ↦ rw (insert_and_recall, miss, full, last, hit)
        ]
      ]
    ]
  ]
