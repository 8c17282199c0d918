-- ===== src/MultiCache/Reach.antt =====
-- MultiCache: the states that its calls lead to.
use hecios.Assoc.{find}
use hecios.RegionSet.{FileRegion}
use hecios.MultiCache.{
  MultiCache, init, map_size, remove, exists, lookup, insert_full_page_and_recall,
  insert_dirty_partial_page_and_recall,
}
use hecios.MultiCache.Invariant.{is_member, is_found, IsValid}
use hecios.MultiCache.Eviction.{remove-IsValid}
use hecios.MultiCache.Calls.{insert_full_page-IsValid, insert_partial_page-IsValid, lookup-IsValid}
use hecios.Prelude.{
  ℕ, ◌<◌, Bool, true, List, [], Option, some, ◌>>=◌, ◌≡◌, refl, sym, ◌∙◌, subst, arith, inl, inr,
  Option-cases, Bool-cases, ltb, ltb→lt,
}

-- A call that changes the cache.
pub data Call (K : Type 0) : Type 0 where
  inserts_full : K → ℕ → Bool → Call K
  inserts_partial : K → ℕ → List FileRegion → Call K
  removes : K → Call K
  looks_up : K → Call K

module _ {K : Type 0} (dec : Discrete K) where
  -- `none`: an assert fails, or `lookup` throws.
  unfoldable pub perform : MultiCache K → Call K → Option (MultiCache K)
  perform c (inserts_full k id dirty) = do
    (next, evicted) ← insert_full_page_and_recall dec c k id dirty
    some next
  perform c (inserts_partial k id regions) = do
    (next, evicted) ← insert_dirty_partial_page_and_recall dec c k id regions
    some next
  perform c (removes k) = some (remove dec c k)
  perform c (looks_up k) = do (next, pages) ← lookup dec c k; some next

  -- The key that the call needs in the cache is there.
  abbrev pub IsServed : MultiCache K → Call K → Type 0
  IsServed c (inserts_full k id dirty) = Unit
  IsServed c (inserts_partial k id regions) = exists dec c k ≡ true
  IsServed c (removes k) = Unit
  IsServed c (looks_up k) = exists dec c k ≡ true

  pub data Reachable (capacity : ℕ) : MultiCache K → Type 0 where
    starts : (c : MultiCache K) → init capacity ≡ some c → Reachable capacity c
    steps :
        (c next : MultiCache K) (call : Call K)
        → Reachable capacity c
        → perform c call ≡ some next
        → Reachable capacity next

  perform-IsValid :
      (c : MultiCache K) (call : Call K)
      → IsValid dec c
      → IsServed c call
      → (next : MultiCache K) × (perform c call ≡ some next) × IsValid dec next
  unfolding perform
  perform-IsValid c (inserts_full k id dirty) v h =
      let (next, evicted, run, valid) = insert_full_page-IsValid dec c k id dirty v in
      (next, rw (perform, run), valid)
  perform-IsValid c (inserts_partial k id regions) v h =
      let (next, evicted, run, valid) = insert_partial_page-IsValid dec c k id regions v h in
      (next, rw (perform, run), valid)
  perform-IsValid c (removes k) v h = (remove dec c k, refl, remove-IsValid dec c k v)
  perform-IsValid c (looks_up k) v h =
      let (next, pages, run, valid) = lookup-IsValid dec c k v h in (next, rw (perform, run), valid)

  -- A call that returns had the key that it needs.
  served : (c next : MultiCache K) (call : Call K) → perform c call ≡ some next → IsServed c call
  unfolding perform exists lookup insert_dirty_partial_page_and_recall
  served c next (inserts_full k id dirty) h = tt
  served c next (inserts_partial k id regions) h =
      elim (Option-cases (find dec k c.key_entry_map)) [
        | inr (entries, hit) ↦ rw (exists, hit)
        | inl miss ↦
            absurd (ground (arith, rw (perform, insert_dirty_partial_page_and_recall, miss) at h))
      ]
  served c next (removes k) h = tt
  served c next (looks_up k) h = elim (Option-cases (find dec k c.key_entry_map)) [
    | inr (entries, hit) ↦ rw (exists, hit)
    | inl miss ↦ absurd (ground (arith, rw (perform, lookup, miss) at h))
  ]

  some_unique : (a b : MultiCache K) → Path (Option (MultiCache K)) (some a) (some b) → a ≡ b
  some_unique a b h = ground arith

  empty-IsValid :
      (capacity : ℕ)
      → 0 < capacity
      → IsValid dec (record { key_entry_map = []; lru_list = []; max_entries = capacity })
  unfolding is_member is_found find map_size
  empty-IsValid capacity h = record {
    ordered = record {
      distinct = tt;
      copies = λ k entries none_. absurd (ground arith);
      distinct_keys = tt;
      agree = λ k. refl;
    };
    bounded = omega arith;
    positive = h;
  }

  init-IsValid : (capacity : ℕ) (c : MultiCache K) → init capacity ≡ some c → IsValid dec c
  unfolding init
  init-IsValid capacity c h = elim (Bool-cases (ltb 0 capacity)) [
    | inl positive ↦
        subst (λ x. IsValid dec x) (some_unique _ c (rw (init, positive) at h))
          (empty-IsValid capacity (ltb→lt 0 capacity positive))
    | inr zero_ ↦ absurd (ground (arith, rw (init, zero_) at h))
  ]

  reachable-IsValid : (capacity : ℕ) (c : MultiCache K) → Reachable capacity c → IsValid dec c
  reachable-IsValid capacity c (starts _ h) = init-IsValid capacity c h
  reachable-IsValid capacity c (steps b _ call r h) =
      let (next, run, valid) =
        perform-IsValid b call (reachable-IsValid capacity b r) (served b c call h) in
      subst (λ x. IsValid dec x) (some_unique next c (sym run ∙ h)) valid

  -- In every state that calls lead to from the cache that is built, the copies of each page are a full
  -- page alone or a clean full page and a dirty partial one, a key stands in the order of use
  -- exactly if the map has it, and only once, and there are no more entries than the capacity; and
  -- each call whose key is there, where it needs one, returns with no assert failing.
  pub reachable-returns :
      (capacity : ℕ) (c : MultiCache K) (call : Call K)
      → Reachable capacity c
      → IsServed c call
      → IsValid dec c × ((next : MultiCache K) × (perform c call ≡ some next))
  reachable-returns capacity c call r h =
      let valid = reachable-IsValid capacity c r in
      let (next, run, _) = perform-IsValid c call valid h in (valid, (next, run))
