-- ===== src/TimeoutCache/Recency.antt =====
-- LRUTimeoutCache against the promise of LRUCache: seen as an LRUCache of values with their times, it
-- stands for a list of entries by recency.
use hecios.Assoc.{find, erase_key, erase}
use hecios.Assoc.Values.{
  map_values, map_found, find-map_values, erase_key-map_values, assign-map_values,
}
use hecios.Assoc.Laws.{erase_key_absent}
use hecios.LruCache as Lru
use hecios.LruCache.{Result, ok, no_such_entry, undefined, LruCache, last_key}
use hecios.LruCache.Recency.{Represents, inserted}
use hecios.LruCache.Insertion.{insert-Represents}
use hecios.LruCache.Removal.{remove_found, removed-Represents}
use hecios.LruCache.Access.{front-Represents}
use hecios.TimeoutCache.{Entry, TimeoutCache, remove, lookup, update_entry, add_entry, insert}
use hecios.Prelude.{
  false, List, ◌∷◌, none, some, ◌≡◌, sym, ◌∙◌, ap, subst, arith, inl, inr, ◌⊎◌, Option-cases,
  Bool-cases, ◌==◌,
}

abbrev pub view_entry : {V T : Type 0} → Entry V T → Lru.Entry (V × T)
view_entry e = record { value = (e.data_value, e.time_stamp); is_dirty = false }

abbrev pub view : {K V T : Type 0} → TimeoutCache K V T → LruCache K (V × T)
view c = record {
  key_entry_map = map_values view_entry c.key_entry_map;
  lru_list = c.lru_list;
  max_entries = c.max_entries;
  num_dirty = 0;
  num_entries = c.num_entries;
}

cache_or : {A : Type 0} → A → Result A → A
cache_or a (ok b) = b
cache_or a no_such_entry = a
cache_or a undefined = a

ok_unique : {A : Type 0} (a b : A) → Path (Result A) (ok a) (ok b) → a ≡ b
unfolding cache_or
ok_unique a b h = ap (cache_or a) h

module _ {K V T : Type 0} (dec : Discrete K) where
  remove-view :
      (c : TimeoutCache K V T) (k : K) (e : Entry V T)
      → find dec k c.key_entry_map ≡ some e
      → Lru.remove dec (view c) k ≡ ok (view (remove dec c k))
  unfolding Lru.remove Lru.get_dirty_bit remove
  remove-view c k e hit = rw (
    Lru.remove,
    remove,
    find-map_values dec view_entry k c.key_entry_map,
    hit,
    erase_key-map_values dec view_entry k c.key_entry_map,
  )

  insert-view :
      (c : TimeoutCache K V T) (k : K) (v : V) (now : T) (c' : LruCache K (V × T))
      → Lru.insert dec (view c) k (v, now) false ≡ ok c'
      → (next : TimeoutCache K V T) × (insert dec c k v now ≡ some next) × (view next ≡ c')
  unfolding Lru.insert Lru.remove Lru.update_entry Lru.add_entry insert update_entry add_entry
  insert-view c k v now c' run =
      let same = find-map_values dec view_entry k c.key_entry_map in
      elim (Option-cases (find dec k c.key_entry_map)) [
        | inr (e, hit) ↦
            let updated : Lru.insert dec (view c) k (v, now) false
                ≡ ok (view (update_entry dec c k v now)) =
              rw (
                Lru.insert,
                same,
                hit,
                assign-map_values dec view_entry k (record { data_value = v; time_stamp = now })
                    c.key_entry_map,
              ) in
            (update_entry dec c k v now, rw (insert, hit), ok_unique _ c' (sym updated ∙ run))
        | inl miss ↦ elim (Bool-cases (c.num_entries == c.max_entries)) [
          | inr room ↦ (
            add_entry dec c k v now,
            rw (insert, miss, room),
            ok_unique _ c' (rw (Lru.insert, same, miss, room) at run),
          )
          | inl full ↦ elim (Option-cases (last_key c.lru_list)) [
            | inl empty ↦ absurd (ground (arith, rw (Lru.insert, same, miss, full, empty) at run))
            | inr (j, last) ↦ elim (Option-cases (find dec j c.key_entry_map)) [
              | inl lost ↦ absurd (
                  ground (
                    arith,
                    rw
                        (
                          Lru.insert,
                          same,
                          miss,
                          full,
                          last,
                          Lru.remove,
                          find-map_values dec view_entry j c.key_entry_map,
                          lost,
                        )
                        at run,
                  ))
              | inr (e, hit) ↦ (
                add_entry dec (remove dec c j) k v now,
                rw (insert, miss, full, last),
                ok_unique _ c'
                    (rw (Lru.insert, same, miss, full, last, remove-view c j e hit) at run),
              )
            ]
          ]
        ]
      ]

  remove-Represents :
      (c : TimeoutCache K V T) (k : K) (l : List (K × Lru.Entry (V × T)))
      → Represents dec (view c) l
      → Represents dec (view (remove dec c k)) (erase_key dec k l)
  unfolding remove
  remove-Represents c k l r =
      let same = find-map_values dec view_entry k c.key_entry_map in
      elim (Option-cases (find dec k c.key_entry_map)) [
        | inl miss ↦
            let none_left = sym (r.agree k) ∙ same ∙ ap (map_found view_entry) miss in
            let kept : remove dec c k ≡ c = rw (remove, miss) in
            subst (λ x. Represents dec (view x) (erase_key dec k l)) (sym kept)
              (subst (λ x. Represents dec (view c) x) (sym (erase_key_absent dec k l none_left)) r)
        | inr (e, hit) ↦
            let there = same ∙ ap (map_found view_entry) hit in
            subst (λ x. Represents dec x (erase_key dec k l))
              (ok_unique _ _
                (sym (remove_found dec (view c) k (view_entry e) there) ∙ remove-view c k e hit))
              (removed-Represents dec (view c) k (view_entry e) l r (sym (r.agree k) ∙ there))
      ]

  lookup-Represents :
      (c : TimeoutCache K V T) (k : K) (l : List (K × Lru.Entry (V × T)))
      → Represents dec (view c) l
      → ((find dec k l ≡ none) × (lookup dec c k ≡ (c, none)))
        ⊎ ((e : Entry V T) × (next : TimeoutCache K V T) × (find dec k l ≡ some (view_entry e))
            × (lookup dec c k ≡ (next, some e))
            × Represents dec (view next) ((k, view_entry e) ∷ erase_key dec k l))
  unfolding lookup
  lookup-Represents c k l r =
      let same = find-map_values dec view_entry k c.key_entry_map in
      elim (Option-cases (find dec k c.key_entry_map)) [
        | inl miss ↦
            inl (sym (r.agree k) ∙ same ∙ ap (map_found view_entry) miss, rw (lookup, miss))
        | inr (e, hit) ↦
            let there = sym (r.agree k) ∙ same ∙ ap (map_found view_entry) hit in
            inr (
              e,
              record c { lru_list = k ∷ erase dec k c.lru_list },
              there,
              rw (lookup, hit),
              front-Represents dec (view c) k (view_entry e) l r there,
            )
      ]

  -- On a cache that stands for a list of entries by recency, seen as an LRUCache of values with their
  -- times and no dirty bits: `insert` returns a cache that stands for the list with the entry in
  -- front, stamped with the current time, where an older entry of the key is gone, and so is the
  -- least recently used entry exactly if the key was new and the cache full; `remove` ends in one
  -- that stands for the list without the key; and `lookup` gives null and the same cache for a key
  -- that is not in the list, and else the entry, however old, and the list with it in front.
  pub operations-Represents :
      (c : TimeoutCache K V T) (k : K) (v : V) (now : T) (l : List (K × Lru.Entry (V × T)))
      → Represents dec (view c) l
      → ((next : TimeoutCache K V T) × (insert dec c k v now ≡ some next)
          × Represents dec
              (view next)
              (inserted dec c.max_entries k (record { value = (v, now); is_dirty = false }) l))
        × Represents dec (view (remove dec c k)) (erase_key dec k l)
        × (((find dec k l ≡ none) × (lookup dec c k ≡ (c, none)))
            ⊎ ((e : Entry V T) × (next : TimeoutCache K V T) × (find dec k l ≡ some (view_entry e))
                × (lookup dec c k ≡ (next, some e))
                × Represents dec (view next) ((k, view_entry e) ∷ erase_key dec k l)))
  operations-Represents c k v now l r =
      let (after, run, _, stands) = insert-Represents dec (view c) k (v, now) false l r in
      let (next, inserted_, same) = insert-view c k v now after run in
      (
        (
          next,
          inserted_,
          subst
              (λ x.
                Represents dec x
                  (inserted dec c.max_entries k (record { value = (v, now); is_dirty = false }) l))
              (sym same) stands,
        ),
        remove-Represents c k l r,
        lookup-Represents c k l r,
      )
