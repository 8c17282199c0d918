-- ===== src/MesiCache/Refines.antt =====
-- The operations of LRUMesiCache against those of LRUCache.
use hecios.Assoc.{find}
use hecios.LruCache as Lru
use hecios.LruCache.{Result, ok, no_such_entry, undefined, LruCache, last_key, ◌>>=◌, or_undefined}
use hecios.MesiCache.{
  State, EntryType, MesiCache, is_modified, get_state, remove, lookup, lookup_state, update_entry,
  add_entry, insert, insert_and_recall, get_lru,
}
use hecios.MesiCache.View.{
  view_entry, view_found, view_map, view, map_result, map_result-bind, view_beside, value_beside,
  state_beside, view_recall, find-view_map, erase_key-view_map, assign-view_map,
}
use hecios.Prelude.{none, some, ◌≡◌, refl, ◌∙◌, ap, inl, inr, Option-cases, Bool-cases, ◌==◌}

module _ {ℓ} {K V : Type ℓ} (dec : Discrete K) where
  pub remove-view :
      (c : MesiCache K V) (k : K) → map_result view (remove dec c k) ≡ Lru.remove dec (view c) k
  unfolding remove get_state Lru.remove Lru.get_dirty_bit map_result view_found
  remove-view c k = elim (Option-cases (find dec k c.key_entry_map)) [
    | inl miss ↦ rw (find-view_map dec k c.key_entry_map, miss)
    | inr (e, hit) ↦
        rw (find-view_map dec k c.key_entry_map, hit, erase_key-view_map dec k c.key_entry_map)
  ]

  lookup-view :
      (c : MesiCache K V) (k : K)
      → (map_result view_beside (lookup dec c k)
          ≡ map_result value_beside (Lru.lookup dec (view c) k))
        × (map_result view_beside (lookup_state dec c k)
            ≡ map_result state_beside (Lru.lookup dec (view c) k))
  unfolding lookup lookup_state Lru.lookup map_result view_found
  lookup-view c k = elim (Option-cases (find dec k c.key_entry_map)) [
    | inl miss ↦ (
      rw (find-view_map dec k c.key_entry_map, miss),
      rw (find-view_map dec k c.key_entry_map, miss),
    )
    | inr (e, hit) ↦ (
      rw (find-view_map dec k c.key_entry_map, hit),
      rw (find-view_map dec k c.key_entry_map, hit),
    )
  ]

  view-update_entry :
      (c : MesiCache K V) (k : K) (old : EntryType V) (v : V) (s : State)
      → view (update_entry dec c k old v s)
        ≡ Lru.update_entry dec (view c) k (view_entry old) (v, s) (is_modified s)
  unfolding update_entry Lru.update_entry
  view-update_entry c k old v s =
      rw (assign-view_map dec k (record { data_value = v; state = s }) c.key_entry_map)

  view-add_entry :
      (c : MesiCache K V) (k : K) (v : V) (s : State)
      → view (add_entry dec c k v s) ≡ Lru.add_entry dec (view c) k (v, s) (is_modified s)
  unfolding add_entry Lru.add_entry view_map
  view-add_entry c k v s = refl

  -- The eviction of `insert` at a full cache.
  evict_view :
      (c : MesiCache K V)
      → map_result view (do lru_key ← or_undefined (last_key c.lru_list); remove dec c lru_key)
        ≡ (do lru_key ← or_undefined (last_key c.lru_list); Lru.remove dec (view c) lru_key)
  unfolding map_result
  evict_view c = elim (Option-cases (last_key c.lru_list)) [
    | inl empty ↦ rw empty
    | inr (j, last) ↦ rw last (remove-view c j)
  ]

  pub insert-view :
      (c : MesiCache K V) (k : K) (v : V) (s : State)
      → map_result view (insert dec c k v s) ≡ Lru.insert dec (view c) k (v, s) (is_modified s)
  unfolding insert Lru.insert map_result view_found
  insert-view c k v s = elim (Option-cases (find dec k c.key_entry_map)) [
    | inr (old, hit) ↦
        rw (insert, Lru.insert, find-view_map dec k c.key_entry_map, hit)
          (ap ok (view-update_entry c k old v s))
    | inl miss ↦ elim (Bool-cases (c.num_entries == c.max_entries)) [
      | inr room ↦
          rw (insert, Lru.insert, find-view_map dec k c.key_entry_map, miss, room)
            (ap ok (view-add_entry c k v s))
      | inl full ↦
          rw (insert, Lru.insert, find-view_map dec k c.key_entry_map, miss, full)
            (map_result-bind view view _
                (λ room. ok (Lru.add_entry dec room k (v, s) (is_modified s)))
                (do lru_key ← or_undefined (last_key c.lru_list); remove dec c lru_key)
                (λ room. ap ok (view-add_entry room k v s))
              ∙ ap (λ r. r >>= (λ room. ok (Lru.add_entry dec room k (v, s) (is_modified s))))
                  (evict_view c))
    ]
  ]

  recall_evict_view :
      (c : MesiCache K V) (k : K) (v : V) (s : State)
      → map_result view_recall (do
        lru_key ← or_undefined (last_key c.lru_list)
        evictee ← or_undefined (find dec lru_key c.key_entry_map)
        room ← remove dec c lru_key
        ok (add_entry dec room k v s, some (lru_key, evictee.data_value, evictee.state)))
        ≡ (do
          lru_key ← or_undefined (last_key c.lru_list)
          evictee ← or_undefined (find dec lru_key (view_map c.key_entry_map))
          room ← Lru.remove dec (view c) lru_key
          ok (
            Lru.add_entry dec room k (v, s) (is_modified s),
            some (lru_key, evictee.value, evictee.is_dirty),
          ))
  unfolding map_result view_found
  recall_evict_view c k v s = elim (Option-cases (last_key c.lru_list)) [
    | inl empty ↦ rw empty
    | inr (j, last) ↦ elim (Option-cases (find dec j c.key_entry_map)) [
      | inl lost ↦ rw (last, find-view_map dec j c.key_entry_map, lost)
      | inr (e, hit) ↦
          rw (last, find-view_map dec j c.key_entry_map, hit)
            (map_result-bind view view_recall
                (λ room. ok (add_entry dec room k v s, some (j, e.data_value, e.state)))
                (λ room. ok (
                  Lru.add_entry dec room k (v, s) (is_modified s),
                  some (j, (e.data_value, e.state), is_modified e.state),
                ))
                (remove dec c j)
                (λ room.
                  ap (λ c'. ok (c', some (j, (e.data_value, e.state), is_modified e.state)))
                    (view-add_entry room k v s))
              ∙ ap
                  (λ r. r >>= (λ room. ok (
                    Lru.add_entry dec room k (v, s) (is_modified s),
                    some (j, (e.data_value, e.state), is_modified e.state),
                  )))
                  (remove-view c j))
    ]
  ]

  pub insert_and_recall-view :
      (c : MesiCache K V) (k : K) (v : V) (s : State)
      → map_result view_recall (insert_and_recall dec c k v s)
        ≡ Lru.insert_and_recall dec (view c) k (v, s) (is_modified s)
  unfolding insert_and_recall Lru.insert_and_recall map_result view_found
  insert_and_recall-view c k v s = elim (Option-cases (find dec k c.key_entry_map)) [
    | inr (old, hit) ↦
        rw (insert_and_recall, Lru.insert_and_recall, find-view_map dec k c.key_entry_map, hit)
          (ap (λ c'. ok (c', none)) (view-update_entry c k old v s))
    | inl miss ↦ elim (Bool-cases (c.num_entries == c.max_entries)) [
      | inr room ↦
          rw
            (
              insert_and_recall,
              Lru.insert_and_recall,
              find-view_map dec k c.key_entry_map,
              miss,
              room,
            )
            (ap (λ c'. ok (c', none)) (view-add_entry c k v s))
      | inl full ↦
          rw
            (
              insert_and_recall,
              Lru.insert_and_recall,
              find-view_map dec k c.key_entry_map,
              miss,
              full,
            )
            (recall_evict_view c k v s)
    ]
  ]

  get_lru-view :
      (c : MesiCache K V) → get_lru dec c ≡ map_result value_beside (Lru.get_lru dec (view c))
  unfolding get_lru Lru.get_lru map_result view_found
  get_lru-view c = elim (Bool-cases (0 == c.num_entries)) [
    | inl none_left ↦ rw none_left
    | inr some_left ↦ elim (Option-cases (last_key c.lru_list)) [
      | inl empty ↦ rw (some_left, empty)
      | inr (j, last) ↦ elim (Option-cases (find dec j c.key_entry_map)) [
        | inl lost ↦ rw (some_left, last, find-view_map dec j c.key_entry_map, lost)
        | inr (e, hit) ↦ rw (some_left, last, find-view_map dec j c.key_entry_map, hit)
      ]
    ]
  ]

  -- Seen as an LRUCache whose values carry the state and whose dirty bit tells the modified
  -- entries, an LRUMesiCache runs `insert`, `insertAndRecall`, `remove`, `lookup`, `lookupState`
  -- and `getLRU` as the LRUCache does, exceptions and undefined behaviour included.
  pub operations-view :
      (c : MesiCache K V) (k : K) (v : V) (s : State)
      → (map_result view (insert dec c k v s) ≡ Lru.insert dec (view c) k (v, s) (is_modified s))
        × (map_result view_recall (insert_and_recall dec c k v s)
            ≡ Lru.insert_and_recall dec (view c) k (v, s) (is_modified s))
        × (map_result view (remove dec c k) ≡ Lru.remove dec (view c) k)
        × (map_result view_beside (lookup dec c k)
            ≡ map_result value_beside (Lru.lookup dec (view c) k))
        × (map_result view_beside (lookup_state dec c k)
            ≡ map_result state_beside (Lru.lookup dec (view c) k))
        × (get_lru dec c ≡ map_result value_beside (Lru.get_lru dec (view c)))
  operations-view c k v s = (
    insert-view c k v s,
    insert_and_recall-view c k v s,
    remove-view c k,
    (lookup-view c k).0,
    (lookup-view c k).1,
    get_lru-view c,
  )
