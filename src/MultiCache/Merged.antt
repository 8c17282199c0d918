-- ===== src/MultiCache/Merged.antt =====
-- MultiCache: the bytes of the dirty copies when a dirty partial page is inserted.
use hecios.Assoc.{find}
use hecios.Assoc.Laws.{find-assign}
use hecios.RegionSet.{FileRegion, insert}
use hecios.RegionSet.Chain.{IsValid, stop, covers}
use hecios.RegionSet.Insert.{covers-insert, insert-IsValid}
use hecios.MultiCache.{
  Page, full_page, partial_page, Entry, MultiCache, Evicted, merge_regions, merge_dirty,
  with_partial, insert_dirty_partial_page_and_recall,
}
use hecios.MultiCache.Invariant.{is_full, are_copies}
use hecios.MultiCache.Invariant as Invariant
use hecios.MultiCache.Calls.{insert_partial_page_run}
use hecios.Prelude.{
  ℕ, ◌<◌, Bool, true, false, ◌&&◌, ◌||◌, offset_limit, List, [], ◌∷◌, Option, none, some, ◌>>=◌,
  ◌≡◌, ◌≢◌, refl, subst, sym, ◌∙◌, ap, arith, inl, inr, Bool-cases,
}

-- A byte of a page that the copy holds dirty.
unfoldable pub holds_byte : ℕ → Page → Bool
holds_byte p (full_page id) = true
holds_byte p (partial_page id regions) = covers p regions

-- The byte at a file offset in the page is dirty in one of its copies.
unfoldable pub is_dirty_byte : ℕ → List Entry → Bool
is_dirty_byte p [] = false
is_dirty_byte p (e ∷ entries) = (e.is_dirty && holds_byte p e.page) || is_dirty_byte p entries

abbrev pub HasValidRegions : Page → Type 0
HasValidRegions (full_page id) = Unit
HasValidRegions (partial_page id regions) = IsValid regions

abbrev pub AllHaveValidRegions : List Entry → Type 0
AllHaveValidRegions [] = Unit
AllHaveValidRegions (e ∷ entries) = HasValidRegions e.page × AllHaveValidRegions entries

abbrev pub AllInBounds : List FileRegion → Type 0
AllInBounds [] = Unit
AllInBounds (r ∷ regions) = (stop r < offset_limit) × AllInBounds regions

covers-merge_regions :
    (p : ℕ) (more regions : List FileRegion)
    → AllInBounds more
    → IsValid regions
    → covers p (merge_regions more regions) ≡ (covers p more || covers p regions)
unfolding merge_regions
covers-merge_regions p [] regions h v = refl
covers-merge_regions p (r ∷ more) regions h v =
    let rest =
      covers-merge_regions p more (insert r regions) h.1 (insert-IsValid r regions h.0 v) in
    let one = covers-insert p r regions h.0 v in ground arith

-- The byte is dirty in the copy, and in the copies, that a function returns.
abbrev copy_after : ℕ → Option Entry → Bool
unfolding holds_byte
copy_after p none = false
copy_after p (some e) = e.is_dirty && holds_byte p e.page

abbrev copies_after : ℕ → Option (Bool × List Entry) → Bool
unfolding is_dirty_byte
copies_after p none = false
copies_after p (some (erased, entries)) = is_dirty_byte p entries

partial_cases :
    (page : Page)
    → is_full page ≡ false
    → (id : ℕ) × (regions : List FileRegion) × (page ≡ partial_page id regions)
unfolding is_full
partial_cases (full_page id) h = absurd (ground arith)
partial_cases (partial_page id regions) h = (id, regions, refl)

merge_dirty-holds_byte :
    (p : ℕ) (regions : List FileRegion) (d : Entry)
    → is_full d.page ≡ false
    → d.is_dirty ≡ true
    → AllInBounds regions
    → HasValidRegions d.page
    → copy_after p (merge_dirty regions d) ≡ (covers p regions || holds_byte p d.page)
unfolding merge_dirty holds_byte
merge_dirty-holds_byte p [] d part dirty h v = ground arith
merge_dirty-holds_byte p (r ∷ more) d part dirty h v =
    let (id, old, shape) = partial_cases d.page part in
    let valid = subst HasValidRegions shape v in
    rw (merge_dirty, shape, dirty) (covers-merge_regions p (r ∷ more) old h valid)

pair_after :
    (p : ℕ) (c : Entry) (o : Option Entry)
    → c.is_dirty ≡ false
    → copies_after p (o >>= (λ merged. some (true, c ∷ merged ∷ []))) ≡ copy_after p o
unfolding is_dirty_byte holds_byte
pair_after p c none h = refl
pair_after p c (some e) h = ground arith

with_pair-is_dirty_byte :
    (p id : ℕ) (regions : List FileRegion) (e d : Entry)
    → are_copies (e ∷ d ∷ []) ≡ true
    → AllInBounds regions
    → HasValidRegions d.page
    → copies_after p (with_partial id regions (e ∷ d ∷ []))
      ≡ (covers p regions || is_dirty_byte p (e ∷ d ∷ []))
unfolding are_copies with_partial is_dirty_byte
with_pair-is_dirty_byte p id regions e d h k v =
    let clean : e.is_dirty ≡ false = ground arith in
    let dirty : d.is_dirty ≡ true = ground arith in
    let merged = merge_dirty-holds_byte p regions d (ground arith) dirty k v in
    let shape : with_partial id regions (e ∷ d ∷ [])
        ≡ (merge_dirty regions d >>= (λ changed. some (true, e ∷ changed ∷ []))) =
      simp (with_partial, clean, dirty) in
    ap (copies_after p) shape ∙ pair_after p e (merge_dirty regions d) clean ∙ merged ∙ ground arith

full_holds_byte : (p : ℕ) (page : Page) → is_full page ≡ true → holds_byte p page ≡ true
unfolding is_full holds_byte
full_holds_byte p (full_page id) h = refl
full_holds_byte p (partial_page id regions) h = absurd (ground arith)

with_one-is_dirty_byte :
    (p id : ℕ) (regions : List FileRegion) (e : Entry)
    → is_full e.page ≡ true
    → copies_after p (with_partial id regions (e ∷ []))
      ≡ (covers p regions || is_dirty_byte p (e ∷ []))
unfolding with_partial is_dirty_byte holds_byte
with_one-is_dirty_byte p id regions e h =
    let held = full_holds_byte p e.page h in
    elim (Bool-cases e.is_dirty) [
      | inl dirty ↦ rw (with_partial, dirty) (ground arith)
      | inr clean ↦ rw (with_partial, clean) (ground arith)
    ]

with_partial-is_dirty_byte :
    (p id : ℕ) (regions : List FileRegion) (entries : List Entry)
    → are_copies entries ≡ true
    → AllInBounds regions
    → AllHaveValidRegions entries
    → copies_after p (with_partial id regions entries)
      ≡ (covers p regions || is_dirty_byte p entries)
unfolding are_copies is_dirty_byte
with_partial-is_dirty_byte p id regions [] h k v = absurd (ground arith)
with_partial-is_dirty_byte p id regions (e ∷ []) h k v = with_one-is_dirty_byte p id regions e h
with_partial-is_dirty_byte p id regions (e ∷ d ∷ []) h k v =
    with_pair-is_dirty_byte p id regions e d h k v.1.0
with_partial-is_dirty_byte p id regions (e ∷ d ∷ x ∷ entries) h k v = absurd (ground arith)

module _ {K : Type 0} (dec : Discrete K) where
  -- Into a valid cache, the insertion of a dirty partial page for a key that is there returns. If the
  -- key is still there afterwards, then its dirty bytes are those of the regions inserted and those
  -- that were dirty before, where the regions end in bounds and the sets of the copies are
  -- well-formed; and the other keys that are there have the copies that they had.
  pub is_dirty_byte-insert_partial_page :
      (c : MultiCache K) (k : K) (id : ℕ) (regions : List FileRegion) (entries : List Entry)
      → Invariant.IsValid dec c
      → find dec k c.key_entry_map ≡ some entries
      → AllInBounds regions
      → AllHaveValidRegions entries
      → (next : MultiCache K) × (evicted : Option (Evicted K))
        × (insert_dirty_partial_page_and_recall dec c k id regions ≡ some (next, evicted))
        × ((found : List Entry) (p : ℕ)
            → find dec k next.key_entry_map ≡ some found
            → is_dirty_byte p found ≡ (covers p regions || is_dirty_byte p entries))
        × ((q : K) (found : List Entry)
            → q ≢ k
            → find dec q next.key_entry_map ≡ some found
            → find dec q c.key_entry_map ≡ some found)
  unfolding is_dirty_byte copies_after
  is_dirty_byte-insert_partial_page c k id regions entries v hit bounds valid =
      let (changed, taken, (next, evicted, run, _, kept)) =
        insert_partial_page_run dec c k id regions entries v hit in
      let copies = v.ordered.copies k entries hit in
      (
        next,
        evicted,
        run,
        λ found p there.
            let at = find-assign dec k k changed entries c.key_entry_map hit in
            let before = kept k found there in
            let same : found ≡ changed = ground arith in
            ap (is_dirty_byte p) same
            ∙ ap (copies_after p) (sym taken)
            ∙ with_partial-is_dirty_byte p id regions entries copies bounds valid,
        λ q found other there.
            let at = find-assign dec q k changed entries c.key_entry_map hit in
            let before = kept q found there in ground arith,
      )
