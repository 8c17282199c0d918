-- ===== src/MultiCache.antt =====
-- src/client/cache/multi_cache.cc and .h, MultiCache: a cache of pages that holds up to two copies of a page, a
-- full one and beside it a dirty partial one. The std::multimap is an association list from each key to
-- its elements, in the order in which they came; `K` is the type of its keys. An entry's lruRef is the
-- node of lruList_ that holds its key, so erasing at it is erasing the key.
pub mod Invariant
pub mod Eviction
pub mod Calls
pub mod Reach
pub mod Merged
pub mod Tests
use hecios.Assoc.{find, erase_key, assign, erase}
use hecios.LruCache.{last_key}
use hecios.RegionSet.{FileRegion, insert}
use hecios.Prelude.{
  ℕ, ◌+◌, Bool, true, false, List, [], ◌∷◌, ◌++◌, map, Option, none, some, ◌>>=◌, if◌then◌else◌,
  not, ◌==◌, ltb, leb, length,
}

-- Page and its subclass PartialPage.
pub data Page : Type 0 where
  full_page : ℕ → Page
  partial_page : ℕ → List FileRegion → Page

pub record Entry : Type 0 where
  pub page : Page
  pub is_dirty : Bool

pub record MultiCache (K : Type 0) : Type 0 where
  pub key_entry_map : List (K × List Entry)
  pub lru_list : List K
  pub max_entries : ℕ

-- What the outbound parameters get. `is_deleted`: the page that outEvictedPage points to is deleted.
pub record Evicted (K : Type 0) : Type 0 where
  pub key : K
  pub page : Page
  pub is_dirty : Bool
  pub is_deleted : Bool

-- The constructor, with its assert. `none`: the assert fails.
unfoldable pub init : {K : Type 0} → ℕ → Option (MultiCache K)
init capacity =
    if ltb 0 capacity
    then some (record { key_entry_map = []; lru_list = []; max_entries = capacity })
    else none

-- keyEntryMap_.size().
unfoldable pub map_size : {K : Type 0} → List (K × List Entry) → ℕ
map_size [] = 0
map_size ((k, entries) ∷ m) = length entries + map_size m

abbrev pub size : {K : Type 0} → MultiCache K → ℕ
size c = map_size c.key_entry_map

unfoldable pub first_dirty : List Entry → Option Entry
first_dirty [] = none
first_dirty (e ∷ entries) = let rest = first_dirty entries in if e.is_dirty then some e else rest

-- The entry whose page an eviction gives back: the first dirty one, or else the first one.
unfoldable pub victim : List Entry → Option Entry
victim [] = none
victim (e ∷ entries) = elim (first_dirty (e ∷ entries)) [ none ↦ some e | some d ↦ some d ]

-- The loop that merges the regions of a partial page into those of the page that is there.
unfoldable pub merge_regions : List FileRegion → List FileRegion → List FileRegion
merge_regions [] regions = regions
merge_regions (r ∷ more) regions = merge_regions more (insert r regions)

-- The dirty copy with the regions merged. `none`: the assert on the cast to PartialPage fails.
unfoldable pub merge_dirty : List FileRegion → Entry → Option Entry
merge_dirty [] e = some e
merge_dirty (r ∷ more) e = elim e.page [
  | full_page id ↦ none
  | partial_page id regions ↦
      some (record e { page = partial_page id (merge_regions (r ∷ more) regions) })
]

-- The entries of the key after insertDirtyPartialPageAndRecall, and whether the key's node of lruList_ is
-- erased. `none`: the assert on the number of entries fails, or a node is erased twice.
unfoldable pub with_partial : ℕ → List FileRegion → List Entry → Option (Bool × List Entry)
with_partial id regions [] = none
with_partial id regions (e ∷ []) =
    if e.is_dirty
    then some (true, e ∷ [])
    else some (true, e ∷ record { page = partial_page id regions; is_dirty = true } ∷ [])
with_partial id regions (e ∷ d ∷ []) = elim e.is_dirty [
  | true ↦
      if d.is_dirty
      then none
      else merge_dirty regions e >>= (λ merged. some (true, merged ∷ d ∷ []))
  | false ↦
      if d.is_dirty
      then merge_dirty regions d >>= (λ merged. some (true, e ∷ merged ∷ []))
      else some (false, e ∷ d ∷ [])
]
with_partial id regions (e ∷ d ∷ x ∷ entries) = none

unfoldable pub dirty_pages : List Entry → List Page
dirty_pages [] = []
dirty_pages (e ∷ entries) =
    let rest = dirty_pages entries in if e.is_dirty then e.page ∷ rest else rest

unfoldable pub get_dirty_entries : {K : Type 0} → List (K × List Entry) → List Page
get_dirty_entries [] = []
get_dirty_entries ((k, entries) ∷ m) = dirty_pages entries ++ get_dirty_entries m

unfoldable pub filtered_pages : {K : Type 0} → (K → Page → Bool → Bool) → K → List Entry → List Page
filtered_pages filter k [] = []
filtered_pages filter k (e ∷ entries) =
    let rest = filtered_pages filter k entries in
    if filter k e.page e.is_dirty then e.page ∷ rest else rest

unfoldable pub get_filtered_entries :
    {K : Type 0} → (K → Page → Bool → Bool) → List (K × List Entry) → List Page
get_filtered_entries filter [] = []
get_filtered_entries filter ((k, entries) ∷ m) =
    filtered_pages filter k entries ++ get_filtered_entries filter m

module _ {K : Type 0} (dec : Discrete K) where
  unfoldable pub remove : MultiCache K → K → MultiCache K
  remove c k = elim (find dec k c.key_entry_map) [
    | none ↦ c
    | some entries ↦ record c {
      lru_list = erase dec k c.lru_list;
      key_entry_map = erase_key dec k c.key_entry_map;
    }
  ]

  unfoldable pub exists : MultiCache K → K → Bool
  exists c k = elim (find dec k c.key_entry_map) [ none ↦ false | some _ ↦ true ]

  -- `none`: the exception NoSuchEntry.
  unfoldable pub lookup : MultiCache K → K → Option (MultiCache K × List Page)
  lookup c k = do
    entries ← find dec k c.key_entry_map
    some (record c { lru_list = k ∷ erase dec k c.lru_list }, map (λ e. e.page) entries)

  -- `none`: an assert fails, or the code reads at the end of a container.
  unfoldable pub perform_eviction : MultiCache K → Option (MultiCache K × Evicted K)
  perform_eviction c = elim (ltb c.max_entries (size c)) [
    | false ↦ none
    | true ↦ do
      lru_key ← last_key c.lru_list
      entries ← find dec lru_key c.key_entry_map
      e ← victim entries
      some (
        remove c lru_key,
        record { key = lru_key; page = e.page; is_dirty = e.is_dirty; is_deleted = not e.is_dirty },
      )
  ]

  -- The end of both insertions: the eviction, or else the exception NoSuchEntry, for which there is no
  -- evicted page.
  unfoldable pub recall : MultiCache K → Option (MultiCache K × Option (Evicted K))
  recall c = elim (ltb c.max_entries (size c)) [
    | false ↦ some (c, none)
    | true ↦ elim (c.max_entries + 1 == size c) [
      | false ↦ none
      | true ↦ do (rest, evicted) ← perform_eviction c; some (rest, some evicted)
    ]
  ]

  -- The insertion of a full page before the eviction.
  unfoldable pub add_full_page : MultiCache K → K → ℕ → Bool → Option (MultiCache K)
  add_full_page c k id dirty = elim (find dec k c.key_entry_map) [
    | none ↦ some (record c {
      lru_list = k ∷ c.lru_list;
      key_entry_map = (k, record { page = full_page id; is_dirty = dirty } ∷ []) ∷ c.key_entry_map;
    })
    | some entries ↦
        if leb (length entries) 2
        then some (record c { lru_list = k ∷ erase dec k c.lru_list })
        else none
  ]

  unfoldable pub insert_full_page_and_recall :
      MultiCache K → K → ℕ → Bool → Option (MultiCache K × Option (Evicted K))
  insert_full_page_and_recall c k id dirty = do
    next ← add_full_page (if dirty then remove c k else c) k id dirty
    recall next

  unfoldable pub insert_dirty_partial_page_and_recall :
      MultiCache K → K → ℕ → List FileRegion → Option (MultiCache K × Option (Evicted K))
  insert_dirty_partial_page_and_recall c k id regions = do
    entries ← find dec k c.key_entry_map
    (erased, changed) ← with_partial id regions entries
    recall (record c {
      lru_list = k ∷ (if erased then erase dec k c.lru_list else c.lru_list);
      key_entry_map = assign dec k changed c.key_entry_map;
    })
