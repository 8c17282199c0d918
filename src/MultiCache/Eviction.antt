-- ===== src/MultiCache/Eviction.antt =====
-- MultiCache: removal and eviction keep the state well-formed, and the asserts of an eviction hold.
use mathlib.Core.Logic.{ite}
use hecios.Assoc.{find, erase_key}
use hecios.Assoc.Laws.{Distinct, Distinct-erase_key, find-erase_key}
use hecios.MultiCache.{
  Entry, MultiCache, Evicted, size, first_dirty, victim, remove, perform_eviction, recall,
}
use hecios.MultiCache.Invariant.{
  are_copies, is_found, IsOrdered, IsValid, is_member-erase, DistinctKeys-erase, map_size-erase_key,
  last_found,
}
use hecios.Prelude.{
  ◌+◌, ◌≤◌, ◌<◌, true, false, not, List, [], ◌∷◌, Option, none, some, ◌≡◌, arith, length, inl, inr,
  Option-cases, Bool-cases, ltb, ltb→lt, ==_iff,
}

pub victim_exists :
    (entries : List Entry) → are_copies entries ≡ true → (e : Entry) × (victim entries ≡ some e)
unfolding are_copies victim
victim_exists [] h = absurd (ground arith)
victim_exists (e ∷ entries) h = elim (Option-cases (first_dirty (e ∷ entries))) [
  | inl clean ↦ (e, rw (victim, clean))
  | inr (d, dirty) ↦ (d, rw (victim, dirty))
]

pub copies_length :
    (entries : List Entry) → are_copies entries ≡ true → (0 < length entries) × (length entries ≤ 2)
unfolding are_copies
copies_length [] h = absurd (ground arith)
copies_length (e ∷ []) h = omega arith
copies_length (e ∷ d ∷ []) h = omega arith
copies_length (e ∷ d ∷ x ∷ entries) h = absurd (ground arith)

module _ {K : Type 0} (dec : Discrete K) where
  pub is_found-erase_key :
      (q k : K) (m : List (K × List Entry))
      → Distinct dec m
      → is_found dec q (erase_key dec k m) ≡ ite (dec q k) false (is_found dec q m)
  unfolding is_found
  is_found-erase_key q k m d = let found = find-erase_key dec q k m d in ground arith

  remove_missing :
      (c : MultiCache K) (k : K) → find dec k c.key_entry_map ≡ none → remove dec c k ≡ c
  unfolding remove
  remove_missing c k miss = rw (remove, miss)

  remove-kept :
      (c : MultiCache K) (k q : K) (found : List Entry)
      → Distinct dec c.key_entry_map
      → find dec q (remove dec c k).key_entry_map ≡ some found
      → find dec q c.key_entry_map ≡ some found
  unfolding remove
  remove-kept c k q found d h = elim (Option-cases (find dec k c.key_entry_map)) [
    | inl miss ↦ rw (remove, miss) at h
    | inr (entries, hit) ↦
        let there = find-erase_key dec q k c.key_entry_map d in
        let left : find dec q (erase_key dec k c.key_entry_map) ≡ some found =
          rw (remove, hit) at h in
        ground arith
  ]

  pub remove-IsOrdered :
      (c : MultiCache K) (k : K) → IsOrdered dec c → IsOrdered dec (remove dec c k)
  unfolding remove
  remove-IsOrdered c k o = elim (Option-cases (find dec k c.key_entry_map)) [
    | inl miss ↦ rw (remove, miss) o
    | inr (entries, hit) ↦
        rw (remove, hit)
          (record {
            distinct = Distinct-erase_key dec k c.key_entry_map o.distinct;
            copies = λ q found h.
                let there = find-erase_key dec q k c.key_entry_map o.distinct in
                let before = o.copies q found in ground arith;
            distinct_keys = DistinctKeys-erase dec k c.lru_list o.distinct_keys;
            agree = λ q.
                let left = is_member-erase dec q k c.lru_list o.distinct_keys in
                let right = is_found-erase_key q k c.key_entry_map o.distinct in
                let both = o.agree q in ground arith;
          })
  ]

  pub remove-size :
      (c : MultiCache K) (k : K) (entries : List Entry)
      → find dec k c.key_entry_map ≡ some entries
      → size (remove dec c k) + length entries ≡ size c
  unfolding remove
  remove-size c k entries h = rw (remove, h) (map_size-erase_key dec k entries c.key_entry_map h)

  pub remove-capacity : (c : MultiCache K) (k : K) → (remove dec c k).max_entries ≡ c.max_entries
  unfolding remove
  remove-capacity c k = elim (Option-cases (find dec k c.key_entry_map)) [
    | inl miss ↦ rw (remove, miss)
    | inr (entries, hit) ↦ rw (remove, hit)
  ]

  pub remove-IsValid : (c : MultiCache K) (k : K) → IsValid dec c → IsValid dec (remove dec c k)
  remove-IsValid c k v =
      let same = remove-capacity c k in
      record {
        ordered = remove-IsOrdered c k v.ordered;
        bounded = elim (Option-cases (find dec k c.key_entry_map)) [
          | inl miss ↦ let kept = remove_missing c k miss in let b = v.bounded in rw kept b
          | inr (entries, hit) ↦
              let less = remove-size c k entries hit in let b = v.bounded in omega arith
        ];
        positive = let p = v.positive in omega arith;
      }

  -- With at most one entry too many, the end of an insertion returns, with a valid state, in which the pages
  -- that are there have the copies that they had.
  pub recall-IsValid :
      (c : MultiCache K)
      → IsOrdered dec c
      → size c ≤ c.max_entries + 1
      → 0 < c.max_entries
      → (next : MultiCache K) × (evicted : Option (Evicted K)) × (recall dec c
          ≡ some (next, evicted))
        × IsValid dec next
        × ((q : K) (found : List Entry)
            → find dec q next.key_entry_map ≡ some found
            → find dec q c.key_entry_map ≡ some found)
  unfolding recall perform_eviction
  recall-IsValid c o b p = elim (Bool-cases (ltb c.max_entries (size c))) [
    | inr room ↦ (
      c,
      none,
      rw (recall, room),
      record { ordered = o; bounded = ground arith; positive = p },
      λ q found h. h,
    )
    | inl over ↦
        let more = ltb→lt c.max_entries (size c) over in
        let one = (==_iff (c.max_entries + 1) (size c)).1 (omega arith) in
        let (k, entries, last, hit) = last_found dec c o (omega arith) in
        let (e, chosen) = victim_exists entries (o.copies k entries hit) in
        let some_left = (copies_length entries (o.copies k entries hit)).0 in
        let less = remove-size c k entries hit in
        let same = remove-capacity c k in
        (
          remove dec c k,
          some (record {
            key = k;
            page = e.page;
            is_dirty = e.is_dirty;
            is_deleted = not e.is_dirty;
          }),
          rw (recall, over, one, perform_eviction, over, last, hit, chosen),
          record {
            ordered = remove-IsOrdered c k o;
            bounded = omega arith;
            positive = omega arith;
          },
          λ q found h. remove-kept c k q found o.distinct h,
        )
  ]
