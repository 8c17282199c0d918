-- ===== src/LruCache/Insertion.antt =====
-- LRUCache::insert and insertAndRecall against the list of entries by recency.
use hecios.OrderedSet.{split_last}
use hecios.OrderedSet.Laws.{split_last-cases, split_last-snoc}
use mathlib.Core.List.{map-append}
use hecios.Assoc.{keys, find, erase_key}
use hecios.Assoc.Laws.{
  Distinct, Distinct-erase_key, find-erase_key, length-erase_key, keys-erase_key, find-assign,
  Distinct-assign, length-assign, find_last,
}
use hecios.LruCache.{
  Entry, LruCache, ok, last_key, remove, update_entry, add_entry, insert, insert_and_recall,
}
use hecios.LruCache.Recency.{Represents, without_last, last_entry, inserted, evicted}
use hecios.LruCache.Removal.{ite_twice, ite_same, absent, removed, remove_found, removed-Represents}
use hecios.Prelude.{
  ℕ, suc, ◌+◌, ◌<◌, Bool, true, false, List, [], ◌∷◌, ◌++◌, Option, none, some, ◌≡◌, ◌∙◌, ap, arith,
  ◌==◌, length, length-append, add_u64_small, inl, inr, ==_iff, Bool-cases, Option-cases,
}

module _ {ℓ} {K V : Type ℓ} (dec : Discrete K) where
  update-Represents :
      (c : LruCache K V) (k : K) (old : Entry V) (v : V) (dirty : Bool) (l : List (K × Entry V))
      → Represents dec c l
      → find dec k l ≡ some old
      → Represents dec
          (update_entry dec c k old v dirty)
          ((k, record { value = v; is_dirty = dirty }) ∷ erase_key dec k l)
  unfolding update_entry find
  update-Represents c k old v dirty l r h =
      let e : Entry V = record { value = v; is_dirty = dirty } in
      let in_map = r.agree k ∙ h in
      let shorter = length-erase_key dec k old l h in
      record {
        order = rw r.order (ap (◌∷◌ k) (keys-erase_key dec k l));
        agree = λ q.
            rw
              (
                find-assign dec q k e old c.key_entry_map in_map,
                find-erase_key dec q k l r.distinct,
                r.agree q,
              )
              (ite_twice (dec q k) (some e) none (find dec q l));
        distinct = (absent dec k l r.distinct, Distinct-erase_key dec k l r.distinct);
        map_distinct = Distinct-assign dec k e old c.key_entry_map in_map r.map_distinct;
        map_size = omega (arith, length-assign dec k e c.key_entry_map, r.map_size);
        counted = omega (arith, r.counted);
        bounded = omega (arith, r.bounded);
        positive = r.positive;
        fits = r.fits;
      }

  -- A new key in front, where there is room for it.
  add-Represents :
      (c : LruCache K V) (k : K) (v : V) (dirty : Bool) (l : List (K × Entry V))
      → Represents dec c l
      → find dec k l ≡ none
      → length l < c.max_entries
      → Represents dec (add_entry dec c k v dirty) ((k, record { value = v; is_dirty = dirty }) ∷ l)
  unfolding add_entry find
  add-Represents c k v dirty l r h room =
      let counted = r.counted in
      let fits = r.fits in
      record {
        order = ap (◌∷◌ k) r.order;
        agree = λ q. rw (r.agree q);
        distinct = (h, r.distinct);
        map_distinct = (r.agree k ∙ h, r.map_distinct);
        map_size = ap suc r.map_size;
        counted = rw (add_u64_small c.num_entries 1 (omega arith)) (omega arith);
        bounded = room;
        positive = r.positive;
        fits = fits;
      }

  last_key_of :
      (ks : List K) (l front : List (K × Entry V)) (j : K) (e : Entry V)
      → ks ≡ keys l
      → l ≡ front ++ (j, e) ∷ []
      → last_key ks ≡ some j
  unfolding last_key
  last_key_of ks l front j e order snoc = rw (
    last_key,
    order ∙ ap keys snoc ∙ map-append _ front ((j, e) ∷ []),
    split_last-snoc (keys front) j,
  )

  -- A full cache without its last entry.
  pub evict-Represents :
      (c : LruCache K V) (l : List (K × Entry V))
      → Represents dec c l
      → length l ≡ c.max_entries
      → (j : K) × (e : Entry V) × (front : List (K × Entry V)) × (l ≡ front ++ (j, e) ∷ [])
        × (split_last l ≡ some (front, (j, e)))
        × (last_key c.lru_list ≡ some j)
        × (find dec j l ≡ some e)
        × Represents dec (removed dec c j e) front
  evict-Represents c l r full = elim (split_last-cases l) [
    | inl (empty, _) ↦
        let none_left : length l ≡ 0 = ap length empty in
        let positive = r.positive in absurd (omega arith)
    | inr (front, (j, e), snoc, s) ↦
        let (found, alone) = find_last dec front j e (rw (← snoc) r.distinct) in
        let hit : find dec j l ≡ some e = rw snoc found in
        (
          j,
          e,
          front,
          snoc,
          s,
          last_key_of c.lru_list l front j e r.order snoc,
          hit,
          rw (← alone) (rw (← snoc) (removed-Represents dec c j e l r hit)),
        )
  ]

  abbrev pub entry : V → Bool → Entry V
  entry v dirty = record { value = v; is_dirty = dirty }

  abbrev pub recalled : Option (K × Entry V) → Option (K × V × Bool)
  recalled none = none
  recalled (some (k, e)) = some (k, e.value, e.is_dirty)

  -- Both insertions end in one cache, and it stands for the list that the promise names.
  abbrev Inserts : LruCache K V → K → V → Bool → List (K × Entry V) → Type ℓ
  Inserts c k v dirty l =
      (c' : LruCache K V) × (insert dec c k v dirty ≡ ok c')
      × (insert_and_recall dec c k v dirty ≡ ok (c', recalled (evicted dec c.max_entries k l)))
      × Represents dec c' (inserted dec c.max_entries k (entry v dirty) l)

  insert_present :
      (c : LruCache K V) (k : K) (old : Entry V) (v : V) (dirty : Bool) (l : List (K × Entry V))
      → Represents dec c l
      → find dec k l ≡ some old
      → Inserts c k v dirty l
  unfolding insert insert_and_recall inserted evicted
  insert_present c k old v dirty l r h = (
    update_entry dec c k old v dirty,
    rw (insert, r.agree k, h),
    rw (insert_and_recall, evicted, r.agree k, h),
    rw (inserted, h) (update-Represents c k old v dirty l r h),
  )

  insert_with_room :
      (c : LruCache K V) (k : K) (v : V) (dirty : Bool) (l : List (K × Entry V))
      → Represents dec c l
      → find dec k l ≡ none
      → (length l == c.max_entries) ≡ false
      → Inserts c k v dirty l
  unfolding insert insert_and_recall inserted evicted
  insert_with_room c k v dirty l r h room =
      let bounded = r.bounded in
      let space : length l < c.max_entries = ground arith in
      (
        add_entry dec c k v dirty,
        rw (insert, r.agree k, h, r.counted, room),
        rw (insert_and_recall, evicted, r.agree k, h, r.counted, room),
        rw (inserted, h, room) (add-Represents c k v dirty l r h space),
      )

  pub full_calls :
      (c room : LruCache K V) (k j : K) (v : V) (dirty : Bool) (e : Entry V)
      → find dec k c.key_entry_map ≡ none
      → (c.num_entries == c.max_entries) ≡ true
      → last_key c.lru_list ≡ some j
      → find dec j c.key_entry_map ≡ some e
      → remove dec c j ≡ ok room
      → (insert dec c k v dirty ≡ ok (add_entry dec room k v dirty))
        × (insert_and_recall dec c k v dirty
            ≡ ok (add_entry dec room k v dirty, some (j, e.value, e.is_dirty)))
  unfolding insert insert_and_recall
  full_calls c room k j v dirty e h full last hit gone =
      (rw (insert, h, full, last, gone), rw (insert_and_recall, h, full, last, hit, gone))

  missing_front :
      (k j : K) (l front : List (K × Entry V)) (e : Entry V)
      → Distinct dec l
      → l ≡ front ++ (j, e) ∷ []
      → find dec k l ≡ none
      → find dec k front ≡ none
  missing_front k j l front e d snoc h =
      let alone = (find_last dec front j e (rw (← snoc) d)).1 in
      rw (← alone, ← snoc) (find-erase_key dec k j l d ∙ rw h (ite_same (dec k j) none))

  pub inserted_full :
      (k : K) (x : Entry V) (l front : List (K × Entry V)) (y : K × Entry V) (n : ℕ)
      → find dec k l ≡ none
      → (length l == n) ≡ true
      → split_last l ≡ some (front, y)
      → (inserted dec n k x l ≡ (k, x) ∷ front) × (evicted dec n k l ≡ some y)
  unfolding inserted evicted
  inserted_full k x l front y n h full s =
      (rw (inserted, h, full, without_last, s), rw (evicted, h, full, last_entry, s))

  insert_full :
      (c : LruCache K V) (k : K) (v : V) (dirty : Bool) (l : List (K × Entry V))
      → Represents dec c l
      → find dec k l ≡ none
      → length l ≡ c.max_entries
      → Inserts c k v dirty l
  insert_full c k v dirty l r h full =
      let (j, e, front, snoc, s, last, hit, r') = evict-Represents c l r full in
      let at_limit : (length l == c.max_entries) ≡ true =
        (==_iff (length l) c.max_entries).1 full in
      let (plain, recall) =
        full_calls c (removed dec c j e) k j v dirty e (r.agree k ∙ h) (rw r.counted at_limit) last
          (r.agree j ∙ hit) (remove_found dec c j e (r.agree j ∙ hit)) in
      let (list, gone) =
        inserted_full k (entry v dirty) l front (j, e) c.max_entries h at_limit s in
      let size : length l ≡ length front + 1 = ap length snoc ∙ length-append front ((j, e) ∷ []) in
      (
        add_entry dec (removed dec c j e) k v dirty,
        plain,
        rw gone recall,
        rw list (
            add-Represents (removed dec c j e) k v dirty front r'
              (missing_front k j l front e r.distinct snoc h) (omega arith)),
      )

  -- On a cache that stands for a list of entries by recency, `insert` and `insertAndRecall` both
  -- end in one and the same cache, which stands for the list with the entry in front: an older
  -- entry of the key is gone, and so is the least recently used entry exactly if the key was new
  -- and the cache full. `insertAndRecall` hands out that entry, and throws NoSuchEntry if there
  -- is none.
  pub insert-Represents :
      (c : LruCache K V) (k : K) (v : V) (dirty : Bool) (l : List (K × Entry V))
      → Represents dec c l
      → (c' : LruCache K V) × (insert dec c k v dirty ≡ ok c')
        × (insert_and_recall dec c k v dirty ≡ ok (c', recalled (evicted dec c.max_entries k l)))
        × Represents dec c' (inserted dec c.max_entries k (entry v dirty) l)
  insert-Represents c k v dirty l r = elim (Option-cases (find dec k l)) [
    | inr (old, hit) ↦ insert_present c k old v dirty l r hit
    | inl miss ↦ elim (Bool-cases (length l == c.max_entries)) [
      | inl full ↦ insert_full c k v dirty l r miss ((==_iff (length l) c.max_entries).0 full)
      | inr room ↦ insert_with_room c k v dirty l r miss room
    ]
  ]
