-- ===== src/MultiCache/Calls.antt =====
-- MultiCache: every call keeps the state well-formed, with its asserts.
use hecios.Assoc.{find, assign, erase}
use hecios.Assoc.Laws.{Distinct-assign, find-assign}
use hecios.RegionSet.{FileRegion}
use hecios.MultiCache.{
  Page, full_page, partial_page, Entry, MultiCache, Evicted, map_size, merge_regions, merge_dirty,
  with_partial, remove, exists, lookup, recall, add_full_page, insert_full_page_and_recall,
  insert_dirty_partial_page_and_recall,
}
use hecios.MultiCache.Invariant.{
  is_full, are_copies, is_member, is_found, DistinctKeys, IsOrdered, IsValid, is_member-erase,
  DistinctKeys-erase, map_size-assign,
}
use hecios.MultiCache.Eviction.{copies_length, remove-IsValid, recall-IsValid}
use hecios.Prelude.{
  ℕ, ◌+◌, ◌≤◌, Bool, true, false, List, [], ◌∷◌, map, Option, none, some, ◌>>=◌, ◌≡◌, refl, ◌∙◌,
  arith, length, inl, inr, Option-cases, Bool-cases, leb,
}

le→leb : (a b : ℕ) → a ≤ b → leb a b ≡ true
le→leb a b h = ground arith

-- A dirty partial page takes more regions, and stays one.
merge_dirty_lem :
    (regions : List FileRegion) (page : Page) (d : Bool)
    → is_full page ≡ false
    → (merged : Entry) × (merge_dirty regions (record { page = page; is_dirty = d }) ≡ some merged)
      × (merged.is_dirty ≡ d)
      × (is_full merged.page ≡ false)
unfolding merge_dirty is_full
merge_dirty_lem [] page d h = (record { page = page; is_dirty = d }, refl, refl, h)
merge_dirty_lem (r ∷ more) (full_page id) d h = absurd (ground arith)
merge_dirty_lem (r ∷ more) (partial_page id regions) d h = (
  record { page = partial_page id (merge_regions (r ∷ more) regions); is_dirty = d },
  refl,
  refl,
  refl,
)

-- A clean full page and a dirty partial one stay so.
with_pair_lem :
    (id : ℕ) (regions : List FileRegion) (p q : Page) (a b : Bool)
    → are_copies (record { page = p; is_dirty = a } ∷ record { page = q; is_dirty = b } ∷ []) ≡ true
    → (changed : List Entry) × (with_partial id regions
          (record { page = p; is_dirty = a } ∷ record { page = q; is_dirty = b } ∷ [])
        ≡ some (true, changed))
      × (are_copies changed ≡ true)
      × (length changed ≤ 3)
unfolding are_copies with_partial
with_pair_lem id regions p q true b h = absurd (ground arith)
with_pair_lem id regions p q false false h = absurd (ground arith)
with_pair_lem id regions p q false true h =
    let (merged, found, same, part) = merge_dirty_lem regions q true (ground arith) in
    (record { page = p; is_dirty = false } ∷ merged ∷ [], rw found, ground arith, omega arith)

-- The copies of a page after the insertion of a dirty partial page are at most one more.
pub with_partial_lem :
    (id : ℕ) (regions : List FileRegion) (entries : List Entry)
    → are_copies entries ≡ true
    → (changed : List Entry) × (with_partial id regions entries ≡ some (true, changed))
      × (are_copies changed ≡ true)
      × (length changed ≤ length entries + 1)
unfolding are_copies with_partial is_full
with_partial_lem id regions [] h = absurd (ground arith)
with_partial_lem id regions (e ∷ []) h = elim (Bool-cases e.is_dirty) [
  | inl dirty ↦ (e ∷ [], rw (with_partial, dirty), h, omega arith)
  | inr clean ↦ (
    e ∷ record { page = partial_page id regions; is_dirty = true } ∷ [],
    rw (with_partial, clean),
    ground arith,
    omega arith,
  )
]
with_partial_lem id regions (e ∷ d ∷ []) h =
    with_pair_lem id regions e.page d.page e.is_dirty d.is_dirty h
with_partial_lem id regions (e ∷ d ∷ x ∷ entries) h = absurd (ground arith)

module _ {K : Type 0} (dec : Discrete K) where
  -- The key of the least recent use becomes that of the most recent one.
  to_front :
      (k q : K) (l : List K)
      → DistinctKeys dec l
      → is_member dec k l ≡ true
      → is_member dec q (k ∷ erase dec k l) ≡ is_member dec q l
  unfolding is_member
  to_front k q l d h = let rest = is_member-erase dec q k l d in ground arith

  to_front-DistinctKeys :
      (k : K) (l : List K) → DistinctKeys dec l → DistinctKeys dec (k ∷ erase dec k l)
  to_front-DistinctKeys k l d =
      (is_member-erase dec k k l d ∙ ground arith, DistinctKeys-erase dec k l d)

  is_found_hit :
      (k : K) (entries : List Entry) (m : List (K × List Entry))
      → find dec k m ≡ some entries
      → is_found dec k m ≡ true
  unfolding is_found
  is_found_hit k entries m h = rw (is_found, h)

  -- A use of a key whose copies change to other ones.
  pub changed-IsOrdered :
      (c : MultiCache K) (k : K) (entries changed : List Entry)
      → IsOrdered dec c
      → find dec k c.key_entry_map ≡ some entries
      → are_copies changed ≡ true
      → IsOrdered dec (record c {
        lru_list = k ∷ erase dec k c.lru_list;
        key_entry_map = assign dec k changed c.key_entry_map;
      })
  unfolding is_found
  changed-IsOrdered c k entries changed o hit h = record {
    distinct = Distinct-assign dec k changed entries c.key_entry_map hit o.distinct;
    copies = λ q found there.
        let at = find-assign dec q k changed entries c.key_entry_map hit in
        let before = o.copies q found in ground arith;
    distinct_keys = to_front-DistinctKeys k c.lru_list o.distinct_keys;
    agree = λ q.
        let member = o.agree k ∙ is_found_hit k entries c.key_entry_map hit in
        let front = to_front k q c.lru_list o.distinct_keys member in
        let at = find-assign dec q k changed entries c.key_entry_map hit in
        let both = o.agree q in ground arith;
  }

  pub touched-IsOrdered :
      (c : MultiCache K) (k : K) (entries : List Entry)
      → IsOrdered dec c
      → find dec k c.key_entry_map ≡ some entries
      → IsOrdered dec (record c { lru_list = k ∷ erase dec k c.lru_list })
  touched-IsOrdered c k entries o hit = record {
    distinct = o.distinct;
    copies = o.copies;
    distinct_keys = to_front-DistinctKeys k c.lru_list o.distinct_keys;
    agree = λ q.
        to_front k q c.lru_list o.distinct_keys
          (o.agree k ∙ is_found_hit k entries c.key_entry_map hit)
        ∙ o.agree q;
  }

  pub added-IsOrdered :
      (c : MultiCache K) (k : K) (id : ℕ) (dirty : Bool)
      → IsOrdered dec c
      → find dec k c.key_entry_map ≡ none
      → IsOrdered dec (record c {
        lru_list = k ∷ c.lru_list;
        key_entry_map =
            (k, record { page = full_page id; is_dirty = dirty } ∷ []) ∷ c.key_entry_map;
      })
  unfolding find is_member is_found are_copies is_full
  added-IsOrdered c k id dirty o miss = record {
    distinct = (miss, o.distinct);
    copies = λ q found there. let before = o.copies q found in ground arith;
    distinct_keys = (o.agree k ∙ rw (is_found, miss) refl, o.distinct_keys);
    agree = λ q. let both = o.agree q in ground arith;
  }

  full_page_added :
      (c : MultiCache K) (k : K) (id : ℕ) (dirty : Bool)
      → IsValid dec c
      → (next : MultiCache K) × (evicted : Option (Evicted K)) × ((do
        ready ← add_full_page dec c k id dirty
        recall dec ready)
          ≡ some (next, evicted))
        × IsValid dec next
  unfolding map_size add_full_page
  full_page_added c k id dirty v = elim (Option-cases (find dec k c.key_entry_map)) [
    | inl miss ↦
        let bounded = v.bounded in
        let (next, evicted, run, valid, _) =
          recall-IsValid dec _ (added-IsOrdered c k id dirty v.ordered miss) (omega arith)
            v.positive in
        (next, evicted, rw (add_full_page, miss, run), valid)
    | inr (entries, hit) ↦
        let bounded = v.bounded in
        let few = (copies_length entries (v.ordered.copies k entries hit)).1 in
        let (next, evicted, run, valid, _) =
          recall-IsValid dec _ (touched-IsOrdered c k entries v.ordered hit) (omega arith)
            v.positive in
        (next, evicted, rw (add_full_page, hit, le→leb (length entries) 2 few, run), valid)
  ]

  pub insert_full_page-IsValid :
      (c : MultiCache K) (k : K) (id : ℕ) (dirty : Bool)
      → IsValid dec c
      → (next : MultiCache K) × (evicted : Option (Evicted K)) × (insert_full_page_and_recall dec c
            k id dirty
          ≡ some (next, evicted))
        × IsValid dec next
  unfolding insert_full_page_and_recall
  insert_full_page-IsValid c k id true v =
      full_page_added (remove dec c k) k id true (remove-IsValid dec c k v)
  insert_full_page-IsValid c k id false v = full_page_added c k id false v

  -- The insertion of a dirty partial page whose key has the copies that are given.
  pub insert_partial_page_run :
      (c : MultiCache K) (k : K) (id : ℕ) (regions : List FileRegion) (entries : List Entry)
      → IsValid dec c
      → find dec k c.key_entry_map ≡ some entries
      → (changed : List Entry) × (with_partial id regions entries ≡ some (true, changed))
        × ((next : MultiCache K) × (evicted : Option (Evicted K))
            × (insert_dirty_partial_page_and_recall dec c k id regions ≡ some (next, evicted))
            × IsValid dec next
            × ((q : K) (found : List Entry)
                → find dec q next.key_entry_map ≡ some found
                → find dec q (assign dec k changed c.key_entry_map) ≡ some found))
  unfolding insert_dirty_partial_page_and_recall
  insert_partial_page_run c k id regions entries v hit =
      let (changed, taken, copies, more) =
        with_partial_lem id regions entries (v.ordered.copies k entries hit) in
      let counted = map_size-assign dec k entries changed c.key_entry_map hit in
      let bounded = v.bounded in
      let (next, evicted, run, valid, kept) =
        recall-IsValid dec _ (changed-IsOrdered c k entries changed v.ordered hit copies)
          (omega arith) v.positive in
      (
        changed,
        taken,
        (next, evicted, rw (insert_dirty_partial_page_and_recall, hit, taken, run), valid, kept),
      )

  pub insert_partial_page-IsValid :
      (c : MultiCache K) (k : K) (id : ℕ) (regions : List FileRegion)
      → IsValid dec c
      → exists dec c k ≡ true
      → (next : MultiCache K) × (evicted : Option (Evicted K))
        × (insert_dirty_partial_page_and_recall dec c k id regions ≡ some (next, evicted))
        × IsValid dec next
  unfolding exists
  insert_partial_page-IsValid c k id regions v there =
      elim (Option-cases (find dec k c.key_entry_map)) [
        | inl miss ↦ absurd (ground arith)
        | inr (entries, hit) ↦
            let (_, _, (next, evicted, run, valid, _)) =
              insert_partial_page_run c k id regions entries v hit in
            (next, evicted, run, valid)
      ]

  pub lookup-IsValid :
      (c : MultiCache K) (k : K)
      → IsValid dec c
      → exists dec c k ≡ true
      → (next : MultiCache K) × (pages : List Page) × (lookup dec c k ≡ some (next, pages))
        × IsValid dec next
  unfolding exists lookup
  lookup-IsValid c k v there = elim (Option-cases (find dec k c.key_entry_map)) [
    | inl miss ↦ absurd (ground arith)
    | inr (entries, hit) ↦ (
      record c { lru_list = k ∷ erase dec k c.lru_list },
      map (λ e. e.page) entries,
      rw (lookup, hit),
      record {
        ordered = touched-IsOrdered c k entries v.ordered hit;
        bounded = v.bounded;
        positive = v.positive;
      },
    )
  ]
