-- ===== src/MultiCache/Invariant.antt =====
-- The well-formed states of MultiCache: the shapes that the copies of a page have, and the agreement of the
-- order of use with the map.
use mathlib.Core.Logic.{ite}
use hecios.Assoc.{find, erase_key, assign, erase}
use hecios.Assoc.Laws.{Distinct}
use hecios.LruCache.{last_key}
use hecios.OrderedSet.Laws.{split_last-cases}
use hecios.MultiCache.{Page, full_page, partial_page, Entry, MultiCache, map_size, size}
use hecios.Prelude.{
  ◌+◌, ◌≤◌, ◌<◌, Bool, true, false, not, ◌&&◌, List, [], ◌∷◌, ◌++◌, none, some, ◌≡◌, refl, sym, ◌∙◌,
  ap, arith, length, ◌⊎◌, inl, inr, Option-cases,
}

unfoldable pub is_full : Page → Bool
is_full (full_page id) = true
is_full (partial_page id regions) = false

-- A full page, or a clean full page with a dirty partial one beside it.
unfoldable pub are_copies : List Entry → Bool
are_copies [] = false
are_copies (e ∷ []) = is_full e.page
are_copies (e ∷ d ∷ []) = is_full e.page && (not e.is_dirty && (d.is_dirty && not (is_full d.page)))
are_copies (e ∷ d ∷ x ∷ entries) = false

module _ {K : Type 0} (dec : Discrete K) where
  unfoldable pub is_member : K → List K → Bool
  is_member k [] = false
  is_member k (j ∷ l) = ite (dec k j) true (is_member k l)

  unfoldable pub is_found : K → List (K × List Entry) → Bool
  is_found k m = elim (find dec k m) [ none ↦ false | some _ ↦ true ]

  -- No key stands twice in the order of use.
  abbrev pub DistinctKeys : List K → Type 0
  DistinctKeys [] = Unit
  DistinctKeys (j ∷ l) = (is_member j l ≡ false) × DistinctKeys l

  -- What holds of the state but the bound on its size.
  pub record IsOrdered (c : MultiCache K) : Type 0 where
    pub distinct : Distinct dec c.key_entry_map
    pub copies :
        (k : K) (entries : List Entry)
        → find dec k c.key_entry_map ≡ some entries
        → are_copies entries ≡ true
    pub distinct_keys : DistinctKeys c.lru_list
    pub agree : (k : K) → is_member k c.lru_list ≡ is_found k c.key_entry_map

  pub record IsValid (c : MultiCache K) : Type 0 where
    pub ordered : IsOrdered c
    pub bounded : size c ≤ c.max_entries
    pub positive : 0 < c.max_entries

  pub is_member-erase :
      (q k : K) (l : List K)
      → DistinctKeys l
      → is_member q (erase dec k l) ≡ ite (dec q k) false (is_member q l)
  unfolding is_member erase
  is_member-erase q k [] d = ground arith
  is_member-erase q k (j ∷ l) d = ground (arith, is_member-erase q k l d.1)

  pub DistinctKeys-erase : (k : K) (l : List K) → DistinctKeys l → DistinctKeys (erase dec k l)
  unfolding erase
  DistinctKeys-erase k [] d = tt
  DistinctKeys-erase k (j ∷ l) d =
      ground (arith, is_member-erase j k l d.1, DistinctKeys-erase k l d.1)

  is_member-front : (front : List K) (k : K) → is_member k (front ++ k ∷ []) ≡ true
  unfolding is_member
  is_member-front [] k = ground arith
  is_member-front (j ∷ front) k = ground (arith, is_member-front front k)

  pub last_key-cases :
      (l : List K) → (l ≡ []) ⊎ ((k : K) × (last_key l ≡ some k) × (is_member k l ≡ true))
  unfolding last_key
  last_key-cases l = elim (split_last-cases l) [
    | inl (empty, _) ↦ inl empty
    | inr (front, k, shape, last) ↦ inr (k, rw (last_key, last), rw shape (is_member-front front k))
  ]

  pub map_size-erase_key :
      (k : K) (entries : List Entry) (m : List (K × List Entry))
      → find dec k m ≡ some entries
      → map_size (erase_key dec k m) + length entries ≡ map_size m
  unfolding find erase_key map_size
  map_size-erase_key k entries [] h = ground arith
  map_size-erase_key k entries ((j, v) ∷ m) h = ground (arith, map_size-erase_key k entries m)

  pub map_size-assign :
      (k : K) (entries changed : List Entry) (m : List (K × List Entry))
      → find dec k m ≡ some entries
      → map_size (assign dec k changed m) + length entries ≡ map_size m + length changed
  unfolding find assign map_size
  map_size-assign k entries changed [] h = ground arith
  map_size-assign k entries changed ((j, v) ∷ m) h =
      ground (arith, map_size-assign k entries changed m)

  none_found : (m : List (K × List Entry)) → ((k : K) → is_found k m ≡ false) → map_size m ≡ 0
  unfolding map_size is_found find
  none_found [] h = refl
  none_found ((j, v) ∷ m) h = let first = h j in ground arith

  -- A cache that is not empty has a least recently used key, which the map has too.
  pub last_found :
      (c : MultiCache K)
      → IsOrdered c
      → 0 < size c
      → (k : K) × (entries : List Entry) × (last_key c.lru_list ≡ some k)
        × (find dec k c.key_entry_map ≡ some entries)
  unfolding is_member is_found
  last_found c o h = elim (last_key-cases c.lru_list) [
    | inl empty ↦
        let nothing = none_found c.key_entry_map (λ k. sym (o.agree k) ∙ ap (is_member k) empty) in
        absurd (omega arith)
    | inr (k, last, member) ↦
        let found = sym (o.agree k) ∙ member in
        elim (Option-cases (find dec k c.key_entry_map)) [
          | inl miss ↦ absurd (ground arith)
          | inr (entries, hit) ↦ (k, entries, last, hit)
        ]
  ]
