-- ===== src/LruCache/Dirty.antt =====
-- The count of dirty entries, numDirtyEntries_, against the dirty bits of the entries.
use hecios.Assoc.{find, erase_key, assign}
use hecios.Assoc.Laws.{length-erase_key, length-assign, find-assign}
use hecios.LruCache.{Entry, LruCache, ok, remove, set_dirty_bit, update_entry, add_entry, insert}
use hecios.LruCache.Removal.{removed, remove_found}
use hecios.LruCache.Insertion.{evict-Represents, full_calls}
use hecios.LruCache.Recency.{Represents}
use mathlib.Core.Logic.{if_pos}
use hecios.Prelude.{
  ℕ, ◌+◌, ◌-◌, ◌≤◌, ◌<◌, Bool, true, false, List, [], ◌∷◌, none, some, ◌≡◌, refl, ◌∙◌, arith,
  if◌then◌else◌, ◌==◌, length, u64_mod, sub_u64, add_u64, inl, inr, Bool-cases, ==_iff,
  Option-cases,
}

abbrev pub bit : Bool → ℕ
bit true = 1
bit false = 0

module _ {ℓ} {K V : Type ℓ} where
  abbrev pub dirty_count : List (K × Entry V) → ℕ
  dirty_count [] = 0
  dirty_count ((k, e) ∷ m) = bit e.is_dirty + dirty_count m

  abbrev pub IsCounted : LruCache K V → Type 0
  IsCounted c = (c.num_dirty ≡ dirty_count c.key_entry_map) × (length c.key_entry_map + 1 < u64_mod)

  pub dirty_count-le : (m : List (K × Entry V)) → dirty_count m ≤ length m
  dirty_count-le [] = omega arith
  dirty_count-le ((k, e) ∷ m) = ground (arith, dirty_count-le m)

without_bit :
    (b : Bool) (n m : ℕ) → m + bit b ≡ n → n < u64_mod → (if b then sub_u64 n 1 else n) ≡ m
unfolding sub_u64
without_bit b n m h k = ground arith

module _ {ℓ} {K V : Type ℓ} (dec : Discrete K) where
  dirty_count-erase_key :
      (k : K) (e : Entry V) (m : List (K × Entry V))
      → find dec k m ≡ some e
      → dirty_count (erase_key dec k m) + bit e.is_dirty ≡ dirty_count m
  unfolding find erase_key
  dirty_count-erase_key k e [] h = ground arith
  dirty_count-erase_key k e ((j, x) ∷ m) h = ground (arith, dirty_count-erase_key k e m)

  pub dirty_count-assign :
      (k : K) (e x : Entry V) (m : List (K × Entry V))
      → find dec k m ≡ some e
      → dirty_count (assign dec k x m) + bit e.is_dirty ≡ dirty_count m + bit x.is_dirty
  unfolding find assign
  dirty_count-assign k e x [] h = ground arith
  dirty_count-assign k e x ((j, y) ∷ m) h = ground (arith, dirty_count-assign k e x m)

  removed-IsCounted :
      (c : LruCache K V) (k : K) (e : Entry V)
      → IsCounted c
      → find dec k c.key_entry_map ≡ some e
      → IsCounted (removed dec c k e)
  removed-IsCounted c k e h hit = (
    rw h.0 (
        without_bit e.is_dirty (dirty_count c.key_entry_map) _
          (dirty_count-erase_key k e c.key_entry_map hit)
          (omega (arith, dirty_count-le c.key_entry_map))),
    omega (arith, length-erase_key dec k e c.key_entry_map hit),
  )

  -- Where the count of dirty entries is right, and the entries fit a size_t, `remove` of a key
  -- that the cache holds returns and keeps the count right.
  pub remove-IsCounted :
      (c : LruCache K V) (k : K) (e : Entry V)
      → IsCounted c
      → find dec k c.key_entry_map ≡ some e
      → (c' : LruCache K V) × (remove dec c k ≡ ok c') × IsCounted c'
  remove-IsCounted c k e h hit =
      (removed dec c k e, remove_found dec c k e hit, removed-IsCounted c k e h hit)

  add_entry-IsCounted :
      (c : LruCache K V) (k : K) (v : V) (dirty : Bool)
      → IsCounted c
      → length c.key_entry_map + 2 < u64_mod
      → IsCounted (add_entry dec c k v dirty)
  unfolding add_entry add_u64
  add_entry-IsCounted c k v dirty h room = ground (arith, dirty_count-le c.key_entry_map)

  update_entry-IsCounted :
      (c : LruCache K V) (k : K) (old : Entry V) (v : V) (dirty : Bool)
      → find dec k c.key_entry_map ≡ some old
      → ((old.is_dirty ≡ true) → (dirty ≡ true))
      → IsCounted c
      → IsCounted (update_entry dec c k old v dirty)
  unfolding update_entry add_u64
  update_entry-IsCounted c k old v dirty hit keeps h = ground (
    arith,
    dirty_count-assign k old (record { value = v; is_dirty = dirty }) c.key_entry_map hit,
    dirty_count-le c.key_entry_map,
    length-assign dec k (record { value = v; is_dirty = dirty }) c.key_entry_map,
  )

  abbrev Counts : LruCache K V → K → V → Bool → Type ℓ
  Counts c k v dirty = (c' : LruCache K V) × (insert dec c k v dirty ≡ ok c') × IsCounted c'

  insert_new-IsCounted :
      (c : LruCache K V) (k : K) (v : V) (dirty : Bool) (l : List (K × Entry V))
      → Represents dec c l
      → find dec k l ≡ none
      → IsCounted c
      → length c.key_entry_map + 2 < u64_mod
      → Counts c k v dirty
  unfolding insert
  insert_new-IsCounted c k v dirty l r miss h small =
      elim (Bool-cases (length l == c.max_entries)) [
        | inr room ↦ (
          add_entry dec c k v dirty,
          rw (insert, r.agree k, miss, r.counted, room),
          add_entry-IsCounted c k v dirty h small,
        )
        | inl at_limit ↦
            let full = (==_iff (length l) c.max_entries).0 at_limit in
            let (j, e, front, snoc, s, last, hit, r') = evict-Represents dec c l r full in
            let held = r.agree j ∙ hit in
            let gone = removed-IsCounted c j e h held in
            (
              add_entry dec (removed dec c j e) k v dirty,
              (full_calls dec c (removed dec c j e) k j v dirty e (r.agree k ∙ miss)
                  (rw r.counted at_limit) last held (remove_found dec c j e held)).0,
              add_entry-IsCounted (removed dec c j e) k v dirty gone
                  (omega (arith, length-erase_key dec j e c.key_entry_map held)),
            )
      ]

  -- On a cache that stands for a list of entries by recency, where the count of dirty entries is
  -- right and two more entries fit a size_t, `insert` keeps the count right, also through an
  -- eviction, if the key is new, or held clean, or inserted dirty.
  pub insert-IsCounted :
      (c : LruCache K V) (k : K) (v : V) (dirty : Bool) (l : List (K × Entry V))
      → Represents dec c l
      → IsCounted c
      → length c.key_entry_map + 2 < u64_mod
      → ((old : Entry V)
          → find dec k c.key_entry_map ≡ some old
          → old.is_dirty ≡ true
          → dirty ≡ true)
      → (c' : LruCache K V) × (insert dec c k v dirty ≡ ok c') × IsCounted c'
  unfolding insert
  insert-IsCounted c k v dirty l r h small keeps = elim (Option-cases (find dec k l)) [
    | inl miss ↦ insert_new-IsCounted c k v dirty l r miss h small
    | inr (old, hit) ↦
        let held = r.agree k ∙ hit in
        (
          update_entry dec c k old v dirty,
          rw (insert, held),
          update_entry-IsCounted c k old v dirty held (keeps old held) h,
        )
  ]

  -- Where the count of dirty entries is right, a clean insertion over a dirty entry leaves the
  -- count one more than there are dirty entries.
  pub insert_clean_overcounts :
      (c : LruCache K V) (k : K) (old : Entry V) (v : V)
      → find dec k c.key_entry_map ≡ some old
      → old.is_dirty ≡ true
      → IsCounted c
      → (c' : LruCache K V) × (insert dec c k v false ≡ ok c')
        × (c'.num_dirty ≡ dirty_count c'.key_entry_map + 1)
  unfolding insert update_entry
  insert_clean_overcounts c k old v hit dirty h =
      let x : Entry V = record { value = v; is_dirty = false } in
      (
        update_entry dec c k old v false,
        rw (insert, hit),
        ground (arith, dirty_count-assign k old x c.key_entry_map hit),
      )

  -- Where the count of dirty entries is zero, setting the dirty bit of an entry leaves it zero,
  -- so that removing the entry takes the count below zero, to the largest size_t.
  pub set_dirty_bit_undercounts :
      (c : LruCache K V) (k : K) (e : Entry V)
      → find dec k c.key_entry_map ≡ some e
      → c.num_dirty ≡ 0
      → (c' : LruCache K V) × (c'' : LruCache K V) × (set_dirty_bit dec c k true ≡ ok c')
        × (remove dec c' k ≡ ok c'')
        × (c''.num_dirty ≡ u64_mod - 1)
  unfolding set_dirty_bit sub_u64
  set_dirty_bit_undercounts c k e hit none_dirty =
      let x = record e { is_dirty = true } in
      let c' = record c { key_entry_map = assign dec k x c.key_entry_map } in
      let found : find dec k c'.key_entry_map ≡ some x =
        find-assign dec k k x e c.key_entry_map hit
        ∙ if_pos (dec k k) refl (some x) (find dec k c.key_entry_map) in
      (
        c',
        removed dec c' k x,
        rw (set_dirty_bit, hit),
        remove_found dec c' k x found,
        rw none_dirty,
      )
