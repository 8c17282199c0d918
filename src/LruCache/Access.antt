-- ===== src/LruCache/Access.antt =====
-- The constructor, lookup and setDirtyBit of LRUCache against the list of entries by recency.
use hecios.Assoc.{find, erase_key, assign, erase}
use hecios.Assoc.Laws.{
  Distinct, Distinct-erase_key, find-erase_key, length-erase_key, keys-erase_key, find-assign,
  Distinct-assign, length-assign, keys-assign,
}
use hecios.LruCache.{Entry, LruCache, ok, no_such_entry, init, set_dirty_bit, lookup}
use hecios.LruCache.Recency.{Represents}
use hecios.LruCache.Removal.{absent}
use hecios.Prelude.{
  ℕ, ◌<◌, Bool, List, [], ◌∷◌, none, some, ◌≡◌, refl, sym, ◌∙◌, ◌⊎◌, ap, arith, u64_mod, inl, inr,
  Option-cases, lt→ltb,
}

module _ {ℓ} {K V : Type ℓ} (dec : Discrete K) where
  -- Moving an entry to the front changes no lookup.
  find_front :
      (q k : K) (e : Entry V) (l : List (K × Entry V))
      → Distinct dec l
      → find dec k l ≡ some e
      → find dec q ((k, e) ∷ erase_key dec k l) ≡ find dec q l
  unfolding find
  find_front q k e l d h = ground (arith, find-erase_key dec q k l d)

  pub front-Represents :
      (c : LruCache K V) (k : K) (e : Entry V) (l : List (K × Entry V))
      → Represents dec c l
      → find dec k l ≡ some e
      → Represents dec
          (record c { lru_list = k ∷ erase dec k c.lru_list })
          ((k, e) ∷ erase_key dec k l)
  front-Represents c k e l r h =
      let shorter = length-erase_key dec k e l h in
      record {
        order = rw r.order (ap (◌∷◌ k) (keys-erase_key dec k l));
        agree = λ q. r.agree q ∙ sym (find_front q k e l r.distinct h);
        distinct = (absent dec k l r.distinct, Distinct-erase_key dec k l r.distinct);
        map_distinct = r.map_distinct;
        map_size = omega (arith, r.map_size);
        counted = omega (arith, r.counted);
        bounded = omega (arith, r.bounded);
        positive = r.positive;
        fits = r.fits;
      }

  -- On a cache that stands for a list of entries by recency, `lookup` throws NoSuchEntry for a
  -- key that the cache does not hold; else it returns the value and moves the entry to the front,
  -- and nothing else changes.
  pub lookup-Represents :
      (c : LruCache K V) (k : K) (l : List (K × Entry V))
      → Represents dec c l
      → ((find dec k l ≡ none) × (lookup dec c k ≡ no_such_entry))
        ⊎ ((e : Entry V) × (c' : LruCache K V) × (find dec k l ≡ some e)
            × (lookup dec c k ≡ ok (c', e.value))
            × Represents dec c' ((k, e) ∷ erase_key dec k l))
  unfolding lookup find
  lookup-Represents c k l r = elim (Option-cases (find dec k l)) [
    | inl miss ↦ inl (miss, rw (lookup, r.agree k, miss))
    | inr (e, hit) ↦ inr (
      e,
      record c { lru_list = k ∷ erase dec k c.lru_list },
      hit,
      rw (lookup, r.agree k, hit),
      front-Represents c k e l r hit,
    )
  ]

  pub set-Represents :
      (c : LruCache K V) (k : K) (e x : Entry V) (l : List (K × Entry V))
      → Represents dec c l
      → find dec k l ≡ some e
      → Represents dec
          (record c { key_entry_map = assign dec k x c.key_entry_map })
          (assign dec k x l)
  set-Represents c k e x l r h =
      let in_map = r.agree k ∙ h in
      record {
        order = r.order ∙ sym (keys-assign dec k x l);
        agree = λ q. rw (
          find-assign dec q k x e c.key_entry_map in_map,
          find-assign dec q k x e l h,
          r.agree q,
        );
        distinct = Distinct-assign dec k x e l h r.distinct;
        map_distinct = Distinct-assign dec k x e c.key_entry_map in_map r.map_distinct;
        map_size =
            omega
              (arith, length-assign dec k x c.key_entry_map, length-assign dec k x l, r.map_size);
        counted = omega (arith, length-assign dec k x l, r.counted);
        bounded = omega (arith, length-assign dec k x l, r.bounded);
        positive = r.positive;
        fits = r.fits;
      }

  -- On a cache that stands for a list of entries by recency, `setDirtyBit` throws NoSuchEntry for
  -- a key that the cache does not hold; else it changes the bit of that entry, and neither the
  -- order of use nor any other entry.
  pub set_dirty_bit-Represents :
      (c : LruCache K V) (k : K) (dirty : Bool) (l : List (K × Entry V))
      → Represents dec c l
      → ((find dec k l ≡ none) × (set_dirty_bit dec c k dirty ≡ no_such_entry))
        ⊎ ((e : Entry V) × (c' : LruCache K V) × (find dec k l ≡ some e)
            × (set_dirty_bit dec c k dirty ≡ ok c')
            × Represents dec c' (assign dec k (record e { is_dirty = dirty }) l))
  unfolding set_dirty_bit
  set_dirty_bit-Represents c k dirty l r = elim (Option-cases (find dec k l)) [
    | inl miss ↦ inl (miss, rw (set_dirty_bit, r.agree k, miss))
    | inr (e, hit) ↦
        let x = record e { is_dirty = dirty } in
        inr (
          e,
          record c { key_entry_map = assign dec k x c.key_entry_map },
          hit,
          rw (set_dirty_bit, r.agree k, hit),
          set-Represents c k e x l r hit,
        )
  ]

-- A new cache with a positive capacity below 2 ^ 64 has that capacity and stands for the empty
-- list.
pub init-Represents {ℓ} :
    {K V : Type ℓ} (dec : Discrete K) (capacity : ℕ)
    → 0 < capacity
    → capacity < u64_mod
    → (c : LruCache K V) × (init capacity ≡ some c)
      × (c.max_entries ≡ capacity)
      × Represents dec c []
unfolding init
init-Represents dec capacity h k = (
  record {
    key_entry_map = [];
    lru_list = [];
    max_entries = capacity;
    num_dirty = 0;
    num_entries = 0;
  },
  rw (lt→ltb 0 capacity h),
  refl,
  record {
    order = refl;
    agree = λ q. refl;
    distinct = tt;
    map_distinct = tt;
    map_size = refl;
    counted = refl;
    bounded = omega arith;
    positive = h;
    fits = k;
  },
)
