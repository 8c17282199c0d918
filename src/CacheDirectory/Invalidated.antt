-- ===== src/CacheDirectory/Invalidated.antt =====
-- getClientsNeedingInvalidate against the entries of the directory and the pages of the request.
use hecios.OrderedSet.{set_insert}
use hecios.RegionSet.{FileRegion}
use hecios.Layout.Distribution.{FileDistribution}
use hecios.Mapping.Processor.{FileView, create_server_file_layout_for_read}
use hecios.FilePages.{regions_to_page_ids, has_id}
use hecios.CacheDirectory.{
  invalid_state, ClientCache, Entry, Directory, InvalidationMap, less_entry, add_invalidation,
  same_entry, invalidate_page, invalidate_pages, get_clients_needing_invalidate,
}
use hecios.CacheDirectory.Registered.{AllConnected, is_registered, same_place, same_client_lem}
use hecios.Prelude.{
  ℕ, Bool, true, false, ◌&&◌, ◌||◌, List, [], ◌∷◌, some, ◌≡◌, refl, ◌∙◌, arith, ◌==◌, ==_iff,
  Bool-cases, inl, inr, ℕ_discrete,
}

abbrev pub has_page : {K : Type 0} → ℕ → List (Entry K) → Bool
has_page p [] = false
has_page p (e ∷ entries) = (e.page_id == p) || has_page p entries

-- The client of the rank is told to drop the page.
unfoldable pub is_invalidated : {K : Type 0} → InvalidationMap K → ℕ → ℕ → Bool
is_invalidated [] rank p = false
is_invalidated ((c, entries) ∷ m) rank p =
    ((c.rank == rank) && has_page p entries) || is_invalidated m rank p

abbrev AllClientsConnected : {K : Type 0} → (ℕ → ℕ) → InvalidationMap K → Type 0
AllClientsConnected connection [] = Unit
AllClientsConnected connection ((c, entries) ∷ m) =
    (c.connection ≡ connection c.rank) × AllClientsConnected connection m

has_page-set_insert :
    {K : Type 0} (less : K → K → Bool) (p : ℕ) (e : Entry K) (entries : List (Entry K))
    → has_page p (set_insert (less_entry less) e entries) ≡ ((e.page_id == p) || has_page p entries)
unfolding set_insert less_entry
has_page-set_insert less p e [] = refl
has_page-set_insert less p e (x ∷ entries) =
    let rest = has_page-set_insert less p e entries in ground arith

or_under : (a b c i : Bool) → ((a && (b || c)) || i) ≡ ((a && b) || ((a && c) || i))
or_under a b c i = ground arith

page_step :
    (reg : ℕ → Bool) (p page : ℕ) (h i : Bool)
    → ((h && reg p) || (((page == p) && reg page) || i)) ≡ ((((p == page) || h) && reg p) || i)
page_step reg p page h i = elim (ℕ_discrete p page) [
  | yes same ↦ rw (← same) (ground arith)
  | no differ ↦ ground arith
]

or_false : (a : Bool) → (a || false) ≡ a
or_false a = ground arith

or_swap : (a b i : Bool) → (a || (b || i)) ≡ (b || (a || i))
or_swap a b i = ground arith

or_gather : (a b r i : Bool) → ((a && r) || ((b && a) || i)) ≡ ((a && (b || r)) || i)
or_gather a b r i = ground arith

module _ {K : Type 0} (dec : Discrete K) where
  add_invalidation_lem :
      (connection : ℕ → ℕ) (less : K → K → Bool) (c : ClientCache) (e : Entry K)
      (m : InvalidationMap K) (rank p : ℕ)
      → c.connection ≡ connection c.rank
      → AllClientsConnected connection m
      → (m' : InvalidationMap K) × (add_invalidation less c e m ≡ some m')
        × AllClientsConnected connection m'
        × (is_invalidated m' rank p
            ≡ (((c.rank == rank) && (e.page_id == p)) || is_invalidated m rank p))
  unfolding add_invalidation is_invalidated
  add_invalidation_lem connection less c e [] rank p h k = (_, refl, (h, tt), ground arith)
  add_invalidation_lem connection less c e ((d, entries) ∷ m) rank p h k =
      let same = same_client_lem dec connection c d h k.0 in
      elim (Bool-cases (c.rank == d.rank)) [
        | inl equal ↦
            let inserted = has_page-set_insert less p e entries in
            let ranks = (==_iff c.rank d.rank).0 equal in
            (
              (d, set_insert (less_entry less) e entries) ∷ m,
              rw (same, equal),
              k,
              rw (inserted, ranks) (or_under (d.rank == rank) (e.page_id == p) _ _),
            )
        | inr differ ↦
            let (m', run, connected, says) =
              add_invalidation_lem connection less c e m rank p h k.1 in
            (
              (d, entries) ∷ m',
              rw (same, differ, run),
              (k.0, connected),
              rw says (or_swap ((d.rank == rank) && has_page p entries) _ _),
            )
      ]

  abbrev wanted : K → ℕ → Entry K
  wanted f page = record { filename = f; page_id = page; state = invalid_state }

  elsewhere :
      (e : Entry K) (f : K) (page q rank : ℕ)
      → same_entry dec e (wanted f page) ≡ false
      → same_place dec q e.filename e.page_id rank f page ≡ false
  unfolding same_entry
  elsewhere e f page q rank h = ground arith

  here :
      (e : Entry K) (f : K) (page q rank : ℕ)
      → same_entry dec e (wanted f page) ≡ true
      → same_place dec q e.filename e.page_id rank f page ≡ (q == rank)
  unfolding same_entry
  here e f page q rank h = ground arith

  invalidate_page_lem :
      (connection : ℕ → ℕ) (less : K → K → Bool) (directory : Directory K) (f : K) (page : ℕ)
      (m : InvalidationMap K) (rank p : ℕ)
      → AllConnected connection directory
      → AllClientsConnected connection m
      → (m' : InvalidationMap K) × (invalidate_page dec less directory f page m ≡ some m')
        × AllClientsConnected connection m'
        × (is_invalidated m' rank p
            ≡ (((page == p) && is_registered dec directory rank f page) || is_invalidated m rank p))
  unfolding invalidate_page is_registered
  invalidate_page_lem connection less [] f page m rank p h k = (m, refl, k, ground arith)
  invalidate_page_lem connection less ((e, c) ∷ directory) f page m rank p h k =
      elim (Bool-cases
        (same_entry dec e (record { filename = f; page_id = page; state = invalid_state }))) [
          | inr other ↦
              let (m', run, connected, says) =
                invalidate_page_lem connection less directory f page m rank p h.1 k in
              (
                m',
                rw (invalidate_page, other, run),
                connected,
                rw (says, elsewhere e f page c.rank rank other),
              )
          | inl there ↦
              let (next, step, connected, adds) =
                add_invalidation_lem connection less c (wanted f page) m rank p h.0 k in
              let (m', run, connected', says) =
                invalidate_page_lem connection less directory f page next rank p h.1 connected in
              (
                m',
                rw (invalidate_page, there, step, run),
                connected',
                rw (says, adds, here e f page c.rank rank there)
                    (or_gather (page == p) (c.rank == rank) _ _),
              )
        ]

  invalidate_pages_lem :
      (connection : ℕ → ℕ) (less : K → K → Bool) (directory : Directory K) (f : K) (pages : List ℕ)
      (m : InvalidationMap K) (rank p : ℕ)
      → AllConnected connection directory
      → AllClientsConnected connection m
      → (m' : InvalidationMap K) × (invalidate_pages dec less directory f pages m ≡ some m')
        × (is_invalidated m' rank p
            ≡ ((has_id p pages && is_registered dec directory rank f p) || is_invalidated m rank p))
  unfolding invalidate_pages has_id
  invalidate_pages_lem connection less directory f [] m rank p h k = (m, refl, ground arith)
  invalidate_pages_lem connection less directory f (page ∷ pages) m rank p h k =
      let (next, step, connected, adds) =
        invalidate_page_lem connection less directory f page m rank p h k in
      let (m', run, says) =
        invalidate_pages_lem connection less directory f pages next rank p h connected in
      (
        m',
        rw (invalidate_pages, step, run),
        says
            ∙ rw adds
                (page_step (λ x. is_registered dec directory rank f x) p page (has_id p pages) _),
      )

  -- Where every client of the directory has the connection of its rank and the layout of the request
  -- on the server returns, `getClientsNeedingInvalidate` returns, and tells the client of a rank to
  -- drop a page exactly if the page is one of those of the layout's regions and the directory has an
  -- entry for that page of the file in the cache of the rank.
  pub get_clients_needing_invalidate_lem :
      (connection : ℕ → ℕ) (fuel : ℕ) (less : K → K → Bool) (directory : Directory K) (f : K)
      (page_size offset data_size : ℕ) (view : FileView) (dist : FileDistribution)
      (bstream_size : ℕ) (layout : ℕ × List FileRegion) (rank p : ℕ)
      → AllConnected connection directory
      → create_server_file_layout_for_read fuel offset data_size view dist bstream_size []
        ≡ some layout
      → (m : InvalidationMap K) × (get_clients_needing_invalidate dec fuel less directory f
            page_size offset data_size view dist bstream_size
          ≡ some m)
        × (is_invalidated m rank p ≡ (
            has_id p (regions_to_page_ids page_size layout.1)
            && is_registered dec directory rank f p))
  unfolding get_clients_needing_invalidate is_invalidated
  get_clients_needing_invalidate_lem connection fuel less directory f page_size offset data_size
        view dist bstream_size layout rank p h run =
      let (m, found, says) =
        invalidate_pages_lem connection less directory f (regions_to_page_ids page_size layout.1) []
          rank p h tt in
      (m, rw (get_clients_needing_invalidate, run, found), says ∙ or_false _)
