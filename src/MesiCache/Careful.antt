-- ===== src/MesiCache/Careful.antt =====
-- The count of modified entries in the LRUMesiCaches that calls reach, where no insertion
-- replaces a modified entry by one that is not.
use hecios.LruCache.Dirty.{dirty_count, dirty_count-le}
use hecios.MesiCache.{EntryType, MesiCache, is_modified}
use hecios.MesiCache.View.{view_map}
use hecios.MesiCache.Reach.{
  Call, inserts, recalls, removes, sets, looks, looks_state, IsReachable, constructed, called,
  new_cache-Stands, lookup-Stands, lookup_state-Stands, new_cache, init_lem,
}
use hecios.MesiCache.Right.{
  IsRight, KeepsModified, insert-IsRight, recall-IsRight, remove-IsRight, set_state-IsRight,
  lookup_order, lookup_state_order, reordered-IsRight,
}
use hecios.Prelude.{
  ℕ, ◌+◌, ◌≤◌, ◌<◌, List, [], ◌∷◌, ◌≡◌, refl, ◌∙◌, subst, arith, if◌then◌else◌, u64_mod,
}

abbrev pub modified_count {ℓ} : {K V : Type ℓ} → List (K × EntryType V) → ℕ
modified_count [] = 0
modified_count ((k, e) ∷ m) = (if is_modified e.state then 1 else 0) + modified_count m

module _ {ℓ} {K V : Type ℓ} (dec : Discrete K) where
  -- The insertions of a call keep what is modified.
  abbrev pub IsCarefulCall : (c c' : MesiCache K V) → Call dec c c' → Type ℓ
  IsCarefulCall c c' (inserts _ _ k v s _) = KeepsModified dec c k s
  IsCarefulCall c c' (recalls _ _ k v s e _) = KeepsModified dec c k s
  IsCarefulCall c c' _ = Unit

  abbrev pub IsCareful : (capacity : ℕ) (c : MesiCache K V) → IsReachable dec capacity c → Type ℓ
  IsCareful capacity c (constructed _ _) = Unit
  IsCareful capacity c' (called c _ reach call) =
      IsCareful capacity c reach × IsCarefulCall c c' call

  Call-IsRight :
      (capacity : ℕ) (c c' : MesiCache K V) (call : Call dec c c')
      → capacity + 2 < u64_mod
      → IsCarefulCall c c' call
      → IsRight dec capacity c
      → IsRight dec capacity c'
  Call-IsRight n c c' (inserts _ _ k v s h) small keeps right =
      insert-IsRight dec n c c' k v s small right keeps h
  Call-IsRight n c c' (recalls _ _ k v s e h) small keeps right =
      recall-IsRight dec n c c' k v s e small right keeps h
  Call-IsRight n c c' (removes _ _ k h) small keeps right = remove-IsRight dec n c c' k right h
  Call-IsRight n c c' (sets _ _ k s h) small keeps right = set_state-IsRight dec n c c' k s right h
  Call-IsRight n c c' (looks _ _ k v h) small keeps right =
      let (order, same) = lookup_order dec c c' k v h in
      reordered-IsRight dec n c c' order same (lookup-Stands dec c c' k v right.stands h) right
  Call-IsRight n c c' (looks_state _ _ k s h) small keeps right =
      let (order, same) = lookup_state_order dec c c' k s h in
      reordered-IsRight dec n c c' order same (lookup_state-Stands dec c c' k s right.stands h)
        right

  IsReachable-IsRight :
      (n : ℕ) (c : MesiCache K V) (reach : IsReachable dec n c)
      → n + 2 < u64_mod
      → IsCareful n c reach
      → IsRight dec n c
  unfolding new_cache view_map
  IsReachable-IsRight n c (constructed _ h) small careful =
      let (positive, new) = init_lem dec n c h in
      subst (λ x. IsRight dec n x) new
        (record {
          capacity_kept = refl;
          stands = new_cache-Stands dec n positive (omega arith);
          counted = (refl, omega arith);
        })
  IsReachable-IsRight n c' (called c _ reach call) small careful =
      Call-IsRight n c c' call small careful.1 (IsReachable-IsRight n c reach small careful.0)

modified_count-view {ℓ} :
    {K V : Type ℓ} (m : List (K × EntryType V)) → dirty_count (view_map m) ≡ modified_count m
unfolding view_map
modified_count-view [] = refl
modified_count-view ((k, e) ∷ m) = ground (arith, modified_count-view m)

-- In a cache that calls reach from the constructor, with a capacity below 2 ^ 64 - 2, where no
-- insertion over a modified entry has another state, `numModifiedEntries_` is the number of the
-- entries whose state is MODIFIED, and at most the number of entries and the capacity, as the
-- asserts of `percentModified` want.
pub num_modified-reachable {ℓ} :
    {K V : Type ℓ} (dec : Discrete K) (capacity : ℕ) (c : MesiCache K V)
    (reach : IsReachable dec capacity c)
    → capacity + 2 < u64_mod
    → IsCareful dec capacity c reach
    → (c.num_modified_entries ≡ modified_count c.key_entry_map)
      × (c.num_modified_entries ≤ c.num_entries)
      × (c.num_entries ≤ capacity)
      × (c.max_entries ≡ capacity)
num_modified-reachable dec n c reach small careful =
    let right = IsReachable-IsRight dec n c reach small careful in
    let (l, r) = right.stands in
    let size = r.map_size in
    let number = r.counted in
    let bounded = r.bounded in
    let kept = right.capacity_kept in
    let count = right.counted in
    let same = modified_count-view c.key_entry_map in
    let some_are = dirty_count-le (view_map c.key_entry_map) in
    (count.0 ∙ same, omega arith, omega arith, kept)
