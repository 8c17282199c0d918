-- ===== src/CacheDirectory.antt =====
-- src/common/client_cache_directory.cc: which clients have which pages of a file in their caches. A
-- std::multimap is the list of its elements, equal_range those with an equivalent key, and a std::map an
-- association list in the order in which the keys came.
pub mod Registered
pub mod Invalidated
pub mod Tests
use hecios.OrderedSet.{set_insert}
use hecios.Layout.Distribution.{FileDistribution}
use hecios.Mapping.Processor.{FileView, create_server_file_layout_for_read}
use hecios.FilePages.{regions_to_page_ids}
use hecios.Prelude.{
  ℕ, Bool, true, false, ◌&&◌, List, [], ◌∷◌, ◌++◌, Option, none, some, ◌>>=◌, if◌then◌else◌, ◌==◌,
  ltb,
}

pub data State : Type 0 where
  invalid_state shared exclusive : State

pub record ClientCache : Type 0 where
  pub rank : ℕ
  pub connection : ℕ

-- `K` is the type of file names.
pub record Entry (K : Type 0) : Type 0 where
  pub filename : K
  pub page_id : ℕ
  pub state : State

abbrev pub Directory : Type 0 → Type 0
Directory K = List (Entry K × ClientCache)

abbrev pub InvalidationMap : Type 0 → Type 0
InvalidationMap K = List (ClientCache × List (Entry K))

-- operator== of clients. `none`: the assert of `compare` fails.
unfoldable pub same_client : ClientCache → ClientCache → Option Bool
same_client l r =
    if l.rank == r.rank
    then if l.connection == r.connection then some true else none
    else some false

-- operator< of entries; the state does not matter. `less` is the operator< of file names.
unfoldable pub less_entry : {K : Type 0} → (K → K → Bool) → Entry K → Entry K → Bool
less_entry less l r =
    if l.page_id == r.page_id then less l.filename r.filename else ltb l.page_id r.page_id

-- `invalidations[client].insert(entry)`.
unfoldable pub add_invalidation :
    {K : Type 0}
    → (K → K → Bool)
    → ClientCache
    → Entry K
    → InvalidationMap K
    → Option (InvalidationMap K)
add_invalidation less client e [] = some ((client, e ∷ []) ∷ [])
add_invalidation less client e ((c, entries) ∷ m) = do
  same ← same_client client c
  elim same [
    | true ↦ some ((c, set_insert (less_entry less) e entries) ∷ m)
    | false ↦ do rest ← add_invalidation less client e m; some ((c, entries) ∷ rest)
  ]

module _ {K : Type 0} (dec : Discrete K) where
  -- operator== of entries.
  unfoldable pub same_entry : Entry K → Entry K → Bool
  same_entry l r =
      (l.page_id == r.page_id) && elim (dec l.filename r.filename) [ yes _ ↦ true | no _ ↦ false ]

  unfoldable pub add_client_cache_entry : Directory K → ClientCache → K → ℕ → State → Directory K
  add_client_cache_entry directory client filename page_id state =
      directory ++ (record { filename = filename; page_id = page_id; state = state }, client) ∷ []

  abbrev key : K → ℕ → Entry K
  key filename page_id = record { filename = filename; page_id = page_id; state = invalid_state }

  -- The loop over the equal range, in which the client's elements are erased.
  unfoldable pub remove_client_cache_entry :
      Directory K → ClientCache → K → ℕ → Option (Directory K)
  remove_client_cache_entry [] client filename page_id = some []
  remove_client_cache_entry ((e, c) ∷ directory) client filename page_id = do
    rest ← remove_client_cache_entry directory client filename page_id
    same ← if same_entry e (key filename page_id) then same_client client c else some false
    some (if same then rest else (e, c) ∷ rest)

  unfoldable pub remove_client_cache_entry_by_rank : Directory K → ℕ → K → ℕ → Directory K
  remove_client_cache_entry_by_rank [] rank filename page_id = []
  remove_client_cache_entry_by_rank ((e, c) ∷ directory) rank filename page_id =
      let rest = remove_client_cache_entry_by_rank directory rank filename page_id in
      if same_entry e (key filename page_id) && (rank == c.rank) then rest else (e, c) ∷ rest

  -- The loop over the elements of one page, and the loop over the pages.
  unfoldable pub invalidate_page :
      (K → K → Bool) → Directory K → K → ℕ → InvalidationMap K → Option (InvalidationMap K)
  invalidate_page less [] filename page_id m = some m
  invalidate_page less ((e, c) ∷ directory) filename page_id m = do
    next ←
        if same_entry e (key filename page_id)
        then add_invalidation less c (key filename page_id) m
        else some m
    invalidate_page less directory filename page_id next

  unfoldable pub invalidate_pages :
      (K → K → Bool) → Directory K → K → List ℕ → InvalidationMap K → Option (InvalidationMap K)
  invalidate_pages less directory filename [] m = some m
  invalidate_pages less directory filename (page_id ∷ page_ids) m = do
    next ← invalidate_page less directory filename page_id m
    invalidate_pages less directory filename page_ids next

  -- getClientsNeedingInvalidate. The size of the file's object on the server is the argument
  -- `bstream_size`.
  unfoldable pub get_clients_needing_invalidate :
      ℕ
      → (K → K → Bool)
      → Directory K
      → K
      → ℕ
      → ℕ
      → ℕ
      → FileView
      → FileDistribution
      → ℕ
      → Option (InvalidationMap K)
  get_clients_needing_invalidate fuel less directory filename page_size offset data_size view dist
        bstream_size =
      do
        layout ← create_server_file_layout_for_read fuel offset data_size view dist bstream_size []
        invalidate_pages less directory filename (regions_to_page_ids page_size layout.1) []
