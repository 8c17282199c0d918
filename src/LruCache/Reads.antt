-- ===== src/LruCache/Reads.antt =====
-- What can be read from an LRUCache after a call.
use mathlib.Core.Logic.{if_pos, if_neg}
use hecios.OrderedSet.Laws.{split_last-cases}
use hecios.Assoc.{find, erase_key}
use hecios.Assoc.Laws.{Distinct, find-erase_key, find_last}
use hecios.LruCache.{Entry, LruCache, ok, last_key, insert, get_lru, insert_and_recall}
use hecios.LruCache.Recency.{Represents, without_last, last_entry, inserted, evicted}
use hecios.LruCache.Insertion.{insert-Represents, entry, evict-Represents, inserted_full}
use hecios.LruCache.Removal.{absent}
use hecios.Prelude.{
  ℕ, Bool, true, false, List, [], ◌∷◌, ◌++◌, none, some, ◌≡◌, ◌≢◌, refl, sym, ◌∙◌, ap, inl, inr,
  arith, if◌then◌else◌, ◌==◌, ==_iff, length, Bool-cases, Option-cases,
}

module _ {ℓ} {K V : Type ℓ} (dec : Discrete K) where
  inserted_new :
      (n : ℕ) (k : K) (e : Entry V) (l : List (K × Entry V))
      → find dec k l ≡ none
      → inserted dec n k e l ≡ (k, e) ∷ (if length l == n then without_last dec l else l)
  unfolding inserted
  inserted_new n k e l h = rw (inserted, h)

  inserted_old :
      (n : ℕ) (k : K) (e old : Entry V) (l : List (K × Entry V))
      → find dec k l ≡ some old
      → inserted dec n k e l ≡ (k, e) ∷ erase_key dec k l
  unfolding inserted
  inserted_old n k e old l h = rw (inserted, h)

  evicted_new :
      (n : ℕ) (k : K) (l : List (K × Entry V))
      → find dec k l ≡ none
      → (length l == n) ≡ true
      → evicted dec n k l ≡ last_entry dec l
  unfolding evicted
  evicted_new n k l h full = rw (evicted, h, full)

  find-without_last :
      (q : K) (l : List (K × Entry V))
      → Distinct dec l
      → ((e : Entry V) → last_entry dec l ≢ some (q, e))
      → find dec q (without_last dec l) ≡ find dec q l
  unfolding without_last last_entry
  find-without_last q l d kept = elim (split_last-cases l) [
    | inl (empty, s) ↦ rw (without_last, s, empty)
    | inr (front, (j, e), snoc, s) ↦
        let (found, alone) = find_last dec front j e (rw (← snoc) d) in
        let other : q ≢ j = λ p. kept e (rw (last_entry, s, p)) in
        let gone : erase_key dec j l ≡ front = rw snoc alone in
        rw (without_last, s)
          (rw (← gone) (find-erase_key dec q j l d ∙ if_neg (dec q j) other none (find dec q l)))
  ]

  find-inserted_ne :
      (n : ℕ) (k q : K) (e : Entry V) (l : List (K × Entry V))
      → Distinct dec l
      → q ≢ k
      → ((x : Entry V) → evicted dec n k l ≢ some (q, x))
      → find dec q (inserted dec n k e l) ≡ find dec q l
  unfolding find
  find-inserted_ne n k q e l d other kept = elim (Option-cases (find dec k l)) [
    | inr (old, hit) ↦
        rw (inserted_old n k e old l hit, find, find-erase_key dec q k l d)
          (if_neg (dec q k) other _ _ ∙ if_neg (dec q k) other _ _)
    | inl miss ↦
        rw (inserted_new n k e l miss, find)
          (if_neg (dec q k) other _ _ ∙ elim (Bool-cases (length l == n)) [
            | inr room ↦ rw room
            | inl full ↦
                rw full
                  (find-without_last q l d (λ x. rw (evicted_new n k l miss full) at (kept x)))
          ])
  ]

  find-inserted_self :
      (n : ℕ) (k : K) (e : Entry V) (l : List (K × Entry V))
      → find dec k (inserted dec n k e l) ≡ some e
  unfolding find
  find-inserted_self n k e l = elim (Option-cases (find dec k l)) [
    | inr (old, hit) ↦ rw (inserted_old n k e old l hit, find) (if_pos (dec k k) refl _ _)
    | inl miss ↦ rw (inserted_new n k e l miss, find) (if_pos (dec k k) refl _ _)
  ]

  -- After `insert` on a cache that stands for a list by recency, the key is bound to the new value
  -- and bit, and every other key is bound as before, but for one that the insertion evicts.
  pub find-after_insert :
      (c : LruCache K V) (k : K) (v : V) (dirty : Bool) (l : List (K × Entry V))
      → Represents dec c l
      → (c' : LruCache K V) × (insert dec c k v dirty ≡ ok c')
        × (find dec k c'.key_entry_map ≡ some (entry dec v dirty))
        × ((q : K)
            → q ≢ k
            → ((x : Entry V) → evicted dec c.max_entries k l ≢ some (q, x))
            → find dec q c'.key_entry_map ≡ find dec q c.key_entry_map)
  find-after_insert c k v dirty l r =
      let (c', plain, _, r') = insert-Represents dec c k v dirty l r in
      (
        c',
        plain,
        r'.agree k ∙ find-inserted_self c.max_entries k (entry dec v dirty) l,
        λ q other kept.
            r'.agree q
            ∙ find-inserted_ne c.max_entries k q (entry dec v dirty) l r.distinct other kept
            ∙ sym (r.agree q),
      )

  pub get_lru_lem :
      (c : LruCache K V) (j : K) (e : Entry V)
      → (0 == c.num_entries) ≡ false
      → last_key c.lru_list ≡ some j
      → find dec j c.key_entry_map ≡ some e
      → get_lru dec c ≡ ok (j, e.value)
  unfolding get_lru
  get_lru_lem c j e some_left last hit = rw (get_lru, some_left, last, hit)

  keys_differ :
      (j k : K) (e : Entry V) (l : List (K × Entry V))
      → find dec j l ≡ some e
      → find dec k l ≡ none
      → j ≢ k
  keys_differ j k e l hit miss p =
      let clash : none ≡ some e = sym miss ∙ ap (λ q. find dec q l) (sym p) ∙ hit in cc

  gone_front :
      (j : K) (e : Entry V) (l front : List (K × Entry V))
      → Distinct dec l
      → l ≡ front ++ (j, e) ∷ []
      → find dec j front ≡ none
  gone_front j e l front d snoc =
      let alone : erase_key dec j l ≡ front = rw snoc (find_last dec front j e (rw (← snoc) d)).1 in
      rw (← alone) (absent dec j l d)

  -- getLRU names the next eviction: on a full cache that stands for a list of entries by recency
  -- it gives the key and value that `insertAndRecall` of a new key then hands out and removes.
  pub get_lru-insert_and_recall :
      (c : LruCache K V) (k : K) (v : V) (dirty : Bool) (l : List (K × Entry V))
      → Represents dec c l
      → find dec k l ≡ none
      → length l ≡ c.max_entries
      → (j : K) × (e : Entry V) × (c' : LruCache K V) × (get_lru dec c ≡ ok (j, e.value))
        × (insert_and_recall dec c k v dirty ≡ ok (c', some (j, e.value, e.is_dirty)))
        × (find dec j c'.key_entry_map ≡ none)
  unfolding find
  get_lru-insert_and_recall c k v dirty l r miss full =
      let (j, e, front, snoc, s, last, hit, _) = evict-Represents dec c l r full in
      let (c', plain, recall, r') = insert-Represents dec c k v dirty l r in
      let at_limit : (length l == c.max_entries) ≡ true =
        (==_iff (length l) c.max_entries).1 full in
      let counted = r.counted in
      let positive = r.positive in
      let gone =
        (inserted_full dec k (entry dec v dirty) l front (j, e) c.max_entries miss at_limit s) in
      let other : j ≢ k = keys_differ j k e l hit miss in
      (
        j,
        e,
        c',
        get_lru_lem c j e (ground arith) last (r.agree j ∙ hit),
        rw gone.1 at recall,
        r'.agree j
            ∙ ap (find dec j) gone.0
            ∙ if_neg (dec j k) other _ _
            ∙ gone_front j e l front r.distinct snoc,
      )
