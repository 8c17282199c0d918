-- ===== src/LruCache/Removal.antt =====
-- LRUCache::remove against the list of entries by recency.
use mathlib.Core.Logic.{ite, if_pos}
use hecios.Assoc.{find, erase_key, erase}
use hecios.Assoc.Laws.{
  Distinct, Distinct-erase_key, find-erase_key, length-erase_key, keys-erase_key,
}
use hecios.LruCache.{Entry, LruCache, ok, no_such_entry, remove, get_dirty_bit}
use hecios.LruCache.Recency.{Represents}
use hecios.Prelude.{
  List, none, some, ◌≡◌, refl, ◌∙◌, ◌⊎◌, arith, if◌then◌else◌, sub_u64, sub_u64_small, inl, inr,
  Option-cases,
}

pub ite_twice {ℓ κ} :
    {P : Type ℓ} {A : Type κ} (d : Dec P) (x y z : A) → ite d x z ≡ ite d x (ite d y z)
ite_twice (yes p) x y z = refl
ite_twice (no p) x y z = refl

pub ite_same {ℓ κ} : {P : Type ℓ} {A : Type κ} (d : Dec P) (x : A) → ite d x x ≡ x
ite_same (yes p) x = refl
ite_same (no p) x = refl

module _ {ℓ} {K V : Type ℓ} (dec : Discrete K) where
  pub absent :
      (k : K) (l : List (K × Entry V)) → Distinct dec l → find dec k (erase_key dec k l) ≡ none
  absent k l d = find-erase_key dec k k l d ∙ if_pos (dec k k) refl none (find dec k l)

  -- The cache without a key that it holds.
  abbrev pub removed : LruCache K V → K → Entry V → LruCache K V
  removed c k e = record c {
    lru_list = erase dec k c.lru_list;
    num_entries = sub_u64 c.num_entries 1;
    num_dirty = if e.is_dirty then sub_u64 c.num_dirty 1 else c.num_dirty;
    key_entry_map = erase_key dec k c.key_entry_map;
  }

  pub remove_found :
      (c : LruCache K V) (k : K) (e : Entry V)
      → find dec k c.key_entry_map ≡ some e
      → remove dec c k ≡ ok (removed c k e)
  unfolding remove get_dirty_bit
  remove_found c k e h = rw h

  pub removed-Represents :
      (c : LruCache K V) (k : K) (e : Entry V) (l : List (K × Entry V))
      → Represents dec c l
      → find dec k l ≡ some e
      → Represents dec (removed c k e) (erase_key dec k l)
  removed-Represents c k e l r h =
      let shorter = length-erase_key dec k e l h in
      let shorter' = length-erase_key dec k e c.key_entry_map (r.agree k ∙ h) in
      let counted = r.counted in
      let bounded = r.bounded in
      let fits = r.fits in
      record {
        order = rw r.order (keys-erase_key dec k l);
        agree = λ q. rw (
          find-erase_key dec q k c.key_entry_map r.map_distinct,
          find-erase_key dec q k l r.distinct,
          r.agree q,
        );
        distinct = Distinct-erase_key dec k l r.distinct;
        map_distinct = Distinct-erase_key dec k c.key_entry_map r.map_distinct;
        map_size = omega (arith, r.map_size);
        counted = rw (sub_u64_small c.num_entries 1 (omega arith) (omega arith)) (omega arith);
        bounded = omega arith;
        positive = r.positive;
        fits = fits;
      }

  -- On a cache that stands for a list of entries by recency, `remove` throws NoSuchEntry for a
  -- key that the cache does not hold; else it takes out that key and leaves the order and the
  -- values of the others.
  pub remove-Represents :
      (c : LruCache K V) (k : K) (l : List (K × Entry V))
      → Represents dec c l
      → ((find dec k l ≡ none) × (remove dec c k ≡ no_such_entry))
        ⊎ ((e : Entry V) × (c' : LruCache K V) × (find dec k l ≡ some e)
            × (remove dec c k ≡ ok c')
            × Represents dec c' (erase_key dec k l))
  unfolding remove
  remove-Represents c k l r = elim (Option-cases (find dec k l)) [
    | inl miss ↦ inl (miss, rw (r.agree k, miss))
    | inr (e, hit) ↦ inr (
      e,
      removed c k e,
      hit,
      remove_found c k e (r.agree k ∙ hit),
      removed-Represents c k e l r hit,
    )
  ]
