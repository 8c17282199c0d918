-- ===== src/MesiCache/Right.antt =====
-- The calls of LRUMesiCache keep the capacity, and keep the count of modified entries right, where
-- an insertion over a modified entry is of a modified one.
use hecios.Assoc.{find, erase}
use hecios.LruCache as Lru
use hecios.LruCache.{Result, LruCache, Entry, ok, no_such_entry, undefined, last_key}
use hecios.LruCache.Recency.{Represents}
use hecios.LruCache.Insertion.{insert-Represents}
use hecios.LruCache.Dirty.{IsCounted, insert-IsCounted, remove-IsCounted}
use hecios.MesiCache.{
  State, EntryType, MesiCache, is_modified, remove, set_state, lookup, lookup_state, insert,
  insert_and_recall,
}
use hecios.MesiCache.View.{
  view_entry, view_found, view_map, view, map_result, find-view_map, view_recall,
}
use hecios.MesiCache.Refines.{insert-view, insert_and_recall-view, remove-view}
use hecios.MesiCache.Counts.{state_set, set_state_found, state_set-IsCounted}
use hecios.MesiCache.Reach.{
  Stands, ok_unique, threw, some_unique, insert-Stands, recall-Stands, remove-Stands,
  set_state-Stands,
}
use hecios.MesiCache.Capacity.{
  capacity_or, cache_of, remove-capacity, insert-capacity, recall-capacity,
}
use hecios.Prelude.{
  ℕ, ◌+◌, ◌<◌, true, List, ◌∷◌, Option, some, ◌≡◌, sym, ◌∙◌, ap, subst, arith, inl, inr, length,
  u64_mod, Option-cases,
}

module _ {ℓ} {K V : Type ℓ} (dec : Discrete K) where
  -- What the count needs: the capacity, an order of use, and the count itself.
  pub record IsRight (capacity : ℕ) (c : MesiCache K V) : Type ℓ where
    pub capacity_kept : c.max_entries ≡ capacity
    pub stands : Stands dec c
    pub counted : IsCounted (view c)

  -- An entry that is held modified is inserted as modified.
  abbrev pub KeepsModified : MesiCache K V → K → State → Type ℓ
  KeepsModified c k s =
      (old : EntryType V)
      → find dec k c.key_entry_map ≡ some old
      → is_modified old.state ≡ true
      → is_modified s ≡ true

  keeps_view :
      (c : MesiCache K V) (k : K) (s : State)
      → KeepsModified c k s
      → (old : Entry (V × State)) → find dec k (view_map c.key_entry_map) ≡ some old
      → old.is_dirty ≡ true
      → is_modified s ≡ true
  unfolding view_found
  keeps_view c k s keeps old h dirty = elim (Option-cases (find dec k c.key_entry_map)) [
    | inl miss ↦ absurd (ground (arith, (rw (find-view_map dec k c.key_entry_map, miss) at h)))
    | inr (e, hit) ↦
        let found = find-view_map dec k c.key_entry_map ∙ ap view_found hit in
        keeps e hit (ap (λ x. x.is_dirty) (some_unique _ (view_entry e) old found h) ∙ dirty)
  ]

  room_left :
      (capacity : ℕ) (c : MesiCache K V) (l : List (K × Entry (V × State)))
      → Represents dec (view c) l
      → capacity + 2 < u64_mod
      → c.max_entries ≡ capacity
      → length (view_map c.key_entry_map) + 2 < u64_mod
  room_left capacity c l r h same = let size = r.map_size in let bounded = r.bounded in omega arith

  insert-IsCounted_view :
      (capacity : ℕ) (c : MesiCache K V) (k : K) (v : V) (s : State)
      → capacity + 2 < u64_mod
      → IsRight capacity c
      → KeepsModified c k s
      → (lru : LruCache K (V × State)) × (Lru.insert dec (view c) k (v, s) (is_modified s) ≡ ok lru)
        × IsCounted lru
  insert-IsCounted_view capacity c k v s h right keeps =
      let (l, r) = right.stands in
      insert-IsCounted dec (view c) k (v, s) (is_modified s) l r right.counted
        (room_left capacity c l r h right.capacity_kept) (keeps_view c k s keeps)

  pub insert-IsRight :
      (capacity : ℕ) (c c' : MesiCache K V) (k : K) (v : V) (s : State)
      → capacity + 2 < u64_mod
      → IsRight capacity c
      → KeepsModified c k s
      → insert dec c k v s ≡ ok c'
      → IsRight capacity c'
  unfolding map_result
  insert-IsRight capacity c c' k v s h right keeps call =
      let (lru, run, counted) = insert-IsCounted_view capacity c k v s h right keeps in
      record {
        capacity_kept =
            sym (ap (capacity_or c.max_entries) call)
            ∙ insert-capacity dec c k v s
            ∙ right.capacity_kept;
        stands = insert-Stands dec c c' k v s right.stands call;
        counted =
            subst (λ x. IsCounted x)
              (ok_unique _ lru (view c') run
                (sym (insert-view dec c k v s) ∙ ap (map_result view) call))
              counted;
      }

  pub recall-IsRight :
      (capacity : ℕ) (c c' : MesiCache K V) (k : K) (v : V) (s : State) (e : Option (K × V × State))
      → capacity + 2 < u64_mod
      → IsRight capacity c
      → KeepsModified c k s
      → insert_and_recall dec c k v s ≡ ok (c', e)
      → IsRight capacity c'
  unfolding map_result
  recall-IsRight capacity c c' k v s e h right keeps call =
      let (lru, run, counted) = insert-IsCounted_view capacity c k v s h right keeps in
      let (l, r) = right.stands in
      let (lru', run', recall, _) = insert-Represents dec (view c) k (v, s) (is_modified s) l r in
      let returned =
        ap (λ x. x.0)
          (ok_unique _ (lru', _) (view_recall (c', e)) recall
            (sym (insert_and_recall-view dec c k v s) ∙ ap (map_result view_recall) call)) in
      record {
        capacity_kept =
            sym (ap (λ x. capacity_or c.max_entries (cache_of x)) call)
            ∙ recall-capacity dec c k v s
            ∙ right.capacity_kept;
        stands = recall-Stands dec c c' k v s e right.stands call;
        counted = subst (λ x. IsCounted x) (ok_unique _ lru lru' run run' ∙ returned) counted;
      }

  pub remove-IsRight :
      (capacity : ℕ) (c c' : MesiCache K V) (k : K)
      → IsRight capacity c
      → remove dec c k ≡ ok c'
      → IsRight capacity c'
  unfolding map_result view_found remove
  remove-IsRight capacity c c' k right call = elim (Option-cases (find dec k c.key_entry_map)) [
    | inl miss ↦ threw c' (rw (remove, miss) at call)
    | inr (e, hit) ↦
        let found = find-view_map dec k c.key_entry_map ∙ ap view_found hit in
        let (lru, run, counted) =
          remove-IsCounted dec (view c) k (view_entry e) right.counted found in
        record {
          capacity_kept =
              sym (ap (capacity_or c.max_entries) call)
              ∙ remove-capacity dec c k
              ∙ right.capacity_kept;
          stands = remove-Stands dec c c' k right.stands call;
          counted =
              subst (λ x. IsCounted x)
                (ok_unique _ lru (view c') run
                  (sym (remove-view dec c k) ∙ ap (map_result view) call))
                counted;
        }
  ]

  pub set_state-IsRight :
      (capacity : ℕ) (c c' : MesiCache K V) (k : K) (s : State)
      → IsRight capacity c
      → set_state dec c k s ≡ ok c'
      → IsRight capacity c'
  unfolding set_state state_set
  set_state-IsRight capacity c c' k s right call =
      elim (Option-cases (find dec k c.key_entry_map)) [
        | inl miss ↦ threw c' (rw (set_state, miss) at call)
        | inr (e, hit) ↦
            let same =
              ok_unique _ (state_set dec c k e s) c' (set_state_found dec c k e s hit) call in
            record {
              capacity_kept = sym (ap (λ x. x.max_entries) same) ∙ right.capacity_kept;
              stands = set_state-Stands dec c c' k s right.stands call;
              counted =
                  subst (λ x. IsCounted (view x)) same
                    (state_set-IsCounted dec c k e s hit right.counted);
            }
      ]

  -- A lookup that returns changes the order only.
  pub lookup_order :
      (c c' : MesiCache K V) (k : K) (v : V)
      → lookup dec c k ≡ ok (c', v)
      → (order : List K) × (record c { lru_list = order } ≡ c')
  unfolding lookup
  lookup_order c c' k v call = elim (Option-cases (find dec k c.key_entry_map)) [
    | inl miss ↦ threw (c', v) (rw (lookup, miss) at call)
    | inr (e, hit) ↦ (
      _,
      ap (λ x. x.0)
          (ok_unique _ (record c { lru_list = k ∷ erase dec k c.lru_list }, e.data_value) (c', v)
            (rw (lookup, hit)) call),
    )
  ]

  pub lookup_state_order :
      (c c' : MesiCache K V) (k : K) (s : State)
      → lookup_state dec c k ≡ ok (c', s)
      → (order : List K) × (record c { lru_list = order } ≡ c')
  unfolding lookup_state
  lookup_state_order c c' k s call = elim (Option-cases (find dec k c.key_entry_map)) [
    | inl miss ↦ threw (c', s) (rw (lookup_state, miss) at call)
    | inr (e, hit) ↦ (
      _,
      ap (λ x. x.0)
          (ok_unique _ (record c { lru_list = k ∷ erase dec k c.lru_list }, e.state) (c', s)
            (rw (lookup_state, hit)) call),
    )
  ]

  pub reordered-IsRight :
      (capacity : ℕ) (c c' : MesiCache K V) (order : List K)
      → record c { lru_list = order } ≡ c'
      → Stands dec c'
      → IsRight capacity c
      → IsRight capacity c'
  reordered-IsRight capacity c c' order same st right = record {
    capacity_kept = sym (ap (λ x. x.max_entries) same) ∙ right.capacity_kept;
    stands = st;
    counted = subst (λ x. IsCounted (view x)) same right.counted;
  }
