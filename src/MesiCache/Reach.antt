-- ===== src/MesiCache/Reach.antt =====
-- The LRUMesiCaches that calls reach from the constructor, as a relation, and what holds of them.
use hecios.Assoc.{find, erase, keys}
use hecios.LruCache as Lru
use hecios.LruCache.{Result, LruCache, Entry, ok, no_such_entry, undefined, last_key}
use hecios.LruCache.Recency.{Represents}
use hecios.LruCache.Removal.{remove-Represents}
use hecios.LruCache.Insertion.{insert-Represents}
use hecios.LruCache.Access.{front-Represents, init-Represents}
use hecios.MesiCache.{
  State, EntryType, MesiCache, is_modified, init, size, remove, set_state, lookup, lookup_state,
  insert, insert_and_recall,
}
use hecios.MesiCache.View.{view_entry, view_map, view, map_result, length-view_map, view_recall}
use hecios.MesiCache.Refines.{insert-view, insert_and_recall-view, remove-view}
use hecios.MesiCache.Counts.{state_set, state_set-Represents, set_state_found, found_in_list}
use hecios.Prelude.{
  ℕ, suc, ◌≤◌, ◌<◌, List, [], ◌∷◌, Option, none, some, ◌≡◌, refl, sym, ◌∙◌, ap, subst, arith, inl,
  inr, length, u64_mod, Option-cases, Bool-cases, ltb, ltb→lt, lt→ltb, ==_iff,
}

abbrev pub or_else {ℓ} : {A : Type ℓ} → A → Result A → A
or_else a (ok b) = b
or_else a no_such_entry = a
or_else a undefined = a

abbrev from_some {ℓ} : {A : Type ℓ} → A → Option A → A
from_some a none = a
from_some a (some b) = b

-- A call returns one value.
pub ok_unique {ℓ} : {A : Type ℓ} (r : Result A) (a b : A) → r ≡ ok a → r ≡ ok b → a ≡ b
ok_unique r a b h k = ap (or_else a) (sym h ∙ k)

pub some_unique {ℓ} : {A : Type ℓ} (o : Option A) (a b : A) → o ≡ some a → o ≡ some b → a ≡ b
some_unique o a b h k = ap (λ r. from_some a r) (sym h ∙ k)

-- A call that throws returns nothing.
pub threw {ℓ κ} : {A : Type ℓ} {B : Type κ} (a : A) → no_such_entry ≡ ok a → B
threw a h = absurd (ground (arith, h))

module _ {ℓ} {K V : Type ℓ} (dec : Discrete K) where
  -- A call that returns takes one cache to the other.
  pub data Call : MesiCache K V → MesiCache K V → Type ℓ where
    inserts :
        (c c' : MesiCache K V) (k : K) (v : V) (s : State) → insert dec c k v s ≡ ok c' → Call c c'
    recalls :
        (c c' : MesiCache K V) (k : K) (v : V) (s : State) (e : Option (K × V × State))
        → insert_and_recall dec c k v s ≡ ok (c', e)
        → Call c c'
    removes : (c c' : MesiCache K V) (k : K) → remove dec c k ≡ ok c' → Call c c'
    sets : (c c' : MesiCache K V) (k : K) (s : State) → set_state dec c k s ≡ ok c' → Call c c'
    looks : (c c' : MesiCache K V) (k : K) (v : V) → lookup dec c k ≡ ok (c', v) → Call c c'
    looks_state :
        (c c' : MesiCache K V) (k : K) (s : State) → lookup_state dec c k ≡ ok (c', s) → Call c c'

  pub data IsReachable (capacity : ℕ) : MesiCache K V → Type ℓ where
    constructed : (c : MesiCache K V) → init capacity ≡ some c → IsReachable capacity c
    called : (c c' : MesiCache K V) → IsReachable capacity c → Call c c' → IsReachable capacity c'

  abbrev HasList : LruCache K (V × State) → Type ℓ
  HasList c = (l : List (K × Entry (V × State))) × Represents dec c l

  -- The cache stands for some list of entries by recency.
  abbrev pub Stands : MesiCache K V → Type ℓ
  Stands c = HasList (view c)

  pub insert-Stands :
      (c c' : MesiCache K V) (k : K) (v : V) (s : State)
      → Stands c
      → insert dec c k v s ≡ ok c'
      → Stands c'
  unfolding map_result
  insert-Stands c c' k v s (l, r) h =
      let (lru, run, _, r') = insert-Represents dec (view c) k (v, s) (is_modified s) l r in
      subst (λ x. HasList x)
        (ok_unique _ lru (view c') run (sym (insert-view dec c k v s) ∙ ap (map_result view) h))
        (_, r')

  pub recall-Stands :
      (c c' : MesiCache K V) (k : K) (v : V) (s : State) (e : Option (K × V × State))
      → Stands c
      → insert_and_recall dec c k v s ≡ ok (c', e)
      → Stands c'
  unfolding map_result
  recall-Stands c c' k v s e (l, r) h =
      let (lru, _, run, r') = insert-Represents dec (view c) k (v, s) (is_modified s) l r in
      subst (λ x. HasList x)
        (ap (λ x. x.0)
          (ok_unique _ (lru, _) (view_recall (c', e)) run
            (sym (insert_and_recall-view dec c k v s) ∙ ap (map_result view_recall) h)))
        (_, r')

  pub remove-Stands : (c c' : MesiCache K V) (k : K) → Stands c → remove dec c k ≡ ok c' → Stands c'
  unfolding map_result
  remove-Stands c c' k (l, r) h =
      let run = sym (remove-view dec c k) ∙ ap (map_result view) h in
      elim (remove-Represents dec (view c) k l r) [
        | inl (_, throws) ↦ threw (view c') (sym throws ∙ run)
        | inr (e, lru, _, returns, r') ↦
            subst (λ x. HasList x) (ok_unique _ lru (view c') returns run) (_, r')
      ]

  pub set_state-Stands :
      (c c' : MesiCache K V) (k : K) (s : State)
      → Stands c
      → set_state dec c k s ≡ ok c'
      → Stands c'
  unfolding set_state
  set_state-Stands c c' k s (l, r) h = elim (Option-cases (find dec k c.key_entry_map)) [
    | inl miss ↦ threw c' (rw (set_state, miss) at h)
    | inr (e, hit) ↦
        subst (λ x. Stands x)
          (ok_unique _ (state_set dec c k e s) c' (set_state_found dec c k e s hit) h)
          (_, state_set-Represents dec c k e s l r (found_in_list dec c k e l r hit))
  ]

  refreshed : MesiCache K V → K → MesiCache K V
  refreshed c k = record c { lru_list = k ∷ erase dec k c.lru_list }

  refreshed-Stands :
      (c : MesiCache K V) (k : K) (e : EntryType V)
      → Stands c
      → find dec k c.key_entry_map ≡ some e
      → Stands (refreshed c k)
  unfolding refreshed
  refreshed-Stands c k e (l, r) hit =
      (_, front-Represents dec (view c) k (view_entry e) l r (found_in_list dec c k e l r hit))

  pub lookup-Stands :
      (c c' : MesiCache K V) (k : K) (v : V) → Stands c → lookup dec c k ≡ ok (c', v) → Stands c'
  unfolding lookup refreshed
  lookup-Stands c c' k v st h = elim (Option-cases (find dec k c.key_entry_map)) [
    | inl miss ↦ threw (c', v) (rw (lookup, miss) at h)
    | inr (e, hit) ↦
        subst (λ x. Stands x)
          (ap (λ x. x.0) (ok_unique _ (refreshed c k, e.data_value) (c', v) (rw (lookup, hit)) h))
          (refreshed-Stands c k e st hit)
  ]

  pub lookup_state-Stands :
      (c c' : MesiCache K V) (k : K) (s : State)
      → Stands c
      → lookup_state dec c k ≡ ok (c', s)
      → Stands c'
  unfolding lookup_state refreshed
  lookup_state-Stands c c' k s st h = elim (Option-cases (find dec k c.key_entry_map)) [
    | inl miss ↦ threw (c', s) (rw (lookup_state, miss) at h)
    | inr (e, hit) ↦
        subst (λ x. Stands x)
          (ap (λ x. x.0) (ok_unique _ (refreshed c k, e.state) (c', s) (rw (lookup_state, hit)) h))
          (refreshed-Stands c k e st hit)
  ]

  Call-Stands : (c c' : MesiCache K V) → Call c c' → Stands c → Stands c'
  Call-Stands c c' (inserts _ _ k v s h) st = insert-Stands c c' k v s st h
  Call-Stands c c' (recalls _ _ k v s e h) st = recall-Stands c c' k v s e st h
  Call-Stands c c' (removes _ _ k h) st = remove-Stands c c' k st h
  Call-Stands c c' (sets _ _ k s h) st = set_state-Stands c c' k s st h
  Call-Stands c c' (looks _ _ k v h) st = lookup-Stands c c' k v st h
  Call-Stands c c' (looks_state _ _ k s h) st = lookup_state-Stands c c' k s st h

  unfoldable pub new_cache : ℕ → MesiCache K V
  new_cache capacity = record {
    key_entry_map = [];
    lru_list = [];
    max_entries = capacity;
    num_modified_entries = 0;
    num_entries = 0;
  }

  pub init_lem :
      (capacity : ℕ) (c : MesiCache K V)
      → init capacity ≡ some c
      → (0 < capacity) × (new_cache capacity ≡ c)
  unfolding init new_cache
  init_lem capacity c h = elim (Bool-cases (ltb 0 capacity)) [
    | inl positive ↦ (ltb→lt 0 capacity positive, some_unique _ _ c (rw positive) h)
    | inr wrong ↦ absurd (ground (arith, (rw (init, wrong) at h)))
  ]

  pub new_cache-Stands :
      (capacity : ℕ) → 0 < capacity → capacity < u64_mod → Stands (new_cache capacity)
  unfolding Lru.init new_cache view_map
  new_cache-Stands capacity h k =
      let (lru, run, _, r) = init-Represents dec capacity h k in
      subst (λ x. HasList x)
        (some_unique _ lru (view (new_cache capacity)) run (rw (lt→ltb 0 capacity h))) ([], r)

  pub IsReachable-Stands :
      (capacity : ℕ) (c : MesiCache K V) → capacity < u64_mod → IsReachable capacity c → Stands c
  IsReachable-Stands capacity c k (constructed _ h) =
      let (positive, new) = init_lem capacity c h in
      subst (λ x. Stands x) new (new_cache-Stands capacity positive k)
  IsReachable-Stands capacity c' k (called c _ r call) =
      Call-Stands c c' call (IsReachable-Stands capacity c k r)

  length-keys : (l : List (K × Entry (V × State))) → length (keys l) ≡ length l
  length-keys [] = refl
  length-keys (x ∷ l) = ap suc (length-keys l)

  -- A cache that any sequence of calls reaches from the constructor, with a capacity below 2 ^ 64,
  -- stands for a list of entries by recency, so that the asserts of `size` hold: it returns the
  -- number of entries in the map, which is at most the capacity that the cache keeps.
  pub size-reachable :
      (capacity : ℕ) (c : MesiCache K V)
      → capacity < u64_mod
      → IsReachable capacity c
      → (size c ≡ ok (length c.key_entry_map))
        × (length c.key_entry_map ≤ c.max_entries)
        × ((l : List (K × Entry (V × State))) × Represents dec (view c) l)
  unfolding size
  size-reachable capacity c k reach =
      let (l, r) = IsReachable-Stands capacity c k reach in
      let entries = sym (length-view_map c.key_entry_map) ∙ r.map_size in
      let listed = ap length r.order ∙ length-keys l in
      let counted = r.counted in
      let bounded = r.bounded in
      (
        rw (size, listed, entries, counted, (==_iff (length l) (length l)).1 refl),
        rw entries bounded,
        (l, r),
      )
