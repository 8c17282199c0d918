-- ===== src/MesiCache/Counts.antt =====
-- LRUMesiCache::setState: the entry's state and the count of the modified entries.
use hecios.Assoc.{find, assign}
use hecios.Assoc.Laws.{length-assign}
use hecios.LruCache.{LruCache, Entry, ok, no_such_entry}
use hecios.LruCache.Recency.{Represents}
use hecios.LruCache.Access.{set-Represents}
use hecios.LruCache.Dirty.{bit, dirty_count, IsCounted, dirty_count-le, dirty_count-assign}
use hecios.MesiCache.{State, EntryType, MesiCache, is_modified, set_state}
use hecios.MesiCache.View.{view_entry, view_found, view_map, view, find-view_map, assign-view_map}
use hecios.Prelude.{
  ℕ, ◌+◌, ◌<◌, Bool, List, none, some, ◌≡◌, sym, ◌∙◌, ◌⊎◌, ap, arith, inl, inr, if◌then◌else◌,
  add_u64, sub_u64, u64_mod, Option-cases,
}

-- The count does not matter for the order.
Represents-any_count {ℓ} :
    {K V : Type ℓ} (dec : Discrete K) (c : LruCache K V) (n : ℕ) (l : List (K × Entry V))
    → Represents dec c l
    → Represents dec (record c { num_dirty = n }) l
Represents-any_count dec c n l r = record {
  order = r.order;
  agree = r.agree;
  distinct = r.distinct;
  map_distinct = r.map_distinct;
  map_size = r.map_size;
  counted = r.counted;
  bounded = r.bounded;
  positive = r.positive;
  fits = r.fits;
}

abbrev pub recounted : (old new : Bool) → ℕ → ℕ
recounted old new n =
    let less = if old then sub_u64 n 1 else n in if new then add_u64 less 1 else less

recounted_lem :
    (old new : Bool) (n m : ℕ)
    → m + bit old ≡ n + bit new
    → n + 1 < u64_mod
    → m + 1 < u64_mod
    → recounted old new n ≡ m
unfolding sub_u64 add_u64
recounted_lem old new n m h k = ground arith

module _ {ℓ} {K V : Type ℓ} (dec : Discrete K) where
  unfoldable pub state_set : MesiCache K V → K → EntryType V → State → MesiCache K V
  state_set c k e s = record c {
    num_modified_entries = recounted (is_modified e.state) (is_modified s) c.num_modified_entries;
    key_entry_map = assign dec k (record e { state = s }) c.key_entry_map;
  }

  pub state_set-IsCounted :
      (c : MesiCache K V) (k : K) (e : EntryType V) (s : State)
      → find dec k c.key_entry_map ≡ some e
      → IsCounted (view c)
      → IsCounted (view (state_set c k e s))
  unfolding state_set view_found
  state_set-IsCounted c k e s hit h =
      let x = view_entry (record e { state = s }) in
      let m = view_map c.key_entry_map in
      let found = find-view_map dec k c.key_entry_map ∙ ap view_found hit in
      let balance = dirty_count-assign dec k (view_entry e) x m found in
      let size = length-assign dec k x m in
      rw (← assign-view_map dec k (record e { state = s }) c.key_entry_map) (
        rw h.0 (
            recounted_lem (is_modified e.state) (is_modified s) (dirty_count m) _ balance
              (omega (arith, dirty_count-le m)) (omega (arith, dirty_count-le (assign dec k x m)))),
        omega arith,
      )

  pub set_state_found :
      (c : MesiCache K V) (k : K) (e : EntryType V) (s : State)
      → find dec k c.key_entry_map ≡ some e
      → set_state dec c k s ≡ ok (state_set c k e s)
  unfolding set_state state_set
  set_state_found c k e s hit = rw (set_state, hit)

  pub state_set-Represents :
      (c : MesiCache K V) (k : K) (e : EntryType V) (s : State) (l : List (K × Entry (V × State)))
      → Represents dec (view c) l
      → find dec k l ≡ some (view_entry e)
      → Represents dec
          (view (state_set c k e s))
          (assign dec k (view_entry (record e { state = s })) l)
  unfolding state_set
  state_set-Represents c k e s l r found =
      rw (← assign-view_map dec k (record e { state = s }) c.key_entry_map) (
        Represents-any_count dec _ _ _ (
          set-Represents dec (view c) k (view_entry e) (view_entry (record e { state = s })) l r
            found))

  pub found_in_list :
      (c : MesiCache K V) (k : K) (e : EntryType V) (l : List (K × Entry (V × State)))
      → Represents dec (view c) l
      → find dec k c.key_entry_map ≡ some e
      → find dec k l ≡ some (view_entry e)
  unfolding view_found
  found_in_list c k e l r hit =
      sym (r.agree k) ∙ find-view_map dec k c.key_entry_map ∙ ap view_found hit

  -- On a cache that stands for a list of entries by recency and counts its modified entries
  -- rightly, `setState` throws NoSuchEntry for a key that the cache does not hold; else it changes
  -- the state of that entry, neither the order of use nor any other entry, and keeps the count
  -- right.
  pub set_state-Represents :
      (c : MesiCache K V) (k : K) (s : State) (l : List (K × Entry (V × State)))
      → Represents dec (view c) l
      → IsCounted (view c)
      → ((find dec k l ≡ none) × (set_state dec c k s ≡ no_such_entry))
        ⊎ ((e : EntryType V) × (c' : MesiCache K V) × (find dec k l ≡ some (view_entry e))
            × (set_state dec c k s ≡ ok c')
            × Represents dec (view c') (assign dec k (view_entry (record e { state = s })) l)
            × IsCounted (view c'))
  unfolding set_state view_found
  set_state-Represents c k s l r h = elim (Option-cases (find dec k c.key_entry_map)) [
    | inl miss ↦ inl (
      sym (r.agree k) ∙ find-view_map dec k c.key_entry_map ∙ ap view_found miss,
      rw (set_state, miss),
    )
    | inr (e, hit) ↦
        let found = found_in_list c k e l r hit in
        inr (
          e,
          state_set c k e s,
          found,
          set_state_found c k e s hit,
          state_set-Represents c k e s l r found,
          state_set-IsCounted c k e s hit h,
        )
  ]
