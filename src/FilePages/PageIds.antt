-- ===== src/FilePages/PageIds.antt =====
-- src/common/file_page_utils.cc, regionsToPageIds: the pages that hold a byte of the regions.
use native.Mathlib.Nat.{
  le-div_iff_mul-le, lt-div-mul-add, mul-le-mul_right, div-eq_of_lt-le, div-mul-le_self,
}
use hecios.OrderedSet.{set_insert}
use hecios.RegionSet.{FileRegion}
use hecios.RegionSet.Chain.{stop, within, covers, AllPositive}
use hecios.FilePages.{
  insert_pages, region_pages, regions_to_page_ids_from, regions_to_page_ids, has_id,
}
use hecios.FilePages.PartialRegions.{InBounds}
use hecios.Prelude.{
  ℕ, zero, suc, ◌+◌, ◌-◌, ◌*◌, ◌/◌, ◌≤◌, ◌<◌, max, Bool, true, false, ◌&&◌, ◌||◌, List, [], ◌∷◌,
  ◌≡◌, ◌↔◌, ◌⊎◌, inl, inr, refl, ◌∙◌, arith, ◌==◌, ltb, leb, add_u64_small, sub_u64_small,
  offset_limit,
}

has_id-set_insert :
    (id a : ℕ) (ids : List ℕ) → has_id id (set_insert ltb a ids) ≡ ((id == a) || has_id id ids)
unfolding has_id set_insert
has_id-set_insert id a [] = refl
has_id-set_insert id a (x ∷ xs) = let rest = has_id-set_insert id a xs in ground arith

page_range :
    (id first count : ℕ) (b : Bool)
    → ((leb (suc first) id && ltb id (suc first + count)) || ((id == first) || b))
      ≡ ((leb first id && ltb id (first + suc count)) || b)
page_range id first count b = ground arith

has_id-insert_pages :
    (id first count : ℕ) (ids : List ℕ)
    → has_id id (insert_pages first count ids)
      ≡ ((leb first id && ltb id (first + count)) || has_id id ids)
unfolding insert_pages
has_id-insert_pages id first zero ids = ground arith
has_id-insert_pages id first (suc count) ids =
    has_id-insert_pages id (suc first) count (set_insert ltb first ids)
    ∙ rw (has_id-set_insert id first ids) (page_range id first count (has_id id ids))

-- The page holds a byte of the region, and of one of the regions.
abbrev pub spans : ℕ → ℕ → FileRegion → Bool
spans page_size id r = leb (r.offset / page_size) id && leb id ((stop r - 1) / page_size)

abbrev pub some_spans : ℕ → ℕ → List FileRegion → Bool
some_spans page_size id [] = false
some_spans page_size id (x ∷ xs) = spans page_size id x || some_spans page_size id xs

last_page_range :
    (id first last : ℕ) (b : Bool)
    → ((leb first id && ltb id (first + (suc last - first))) || b)
      ≡ ((leb first id && leb id last) || b)
last_page_range id first last b = ground arith

has_id-region_pages :
    (page_size id : ℕ) (r : FileRegion) (ids : List ℕ)
    → stop r < offset_limit
    → 0 < r.extent
    → has_id id (region_pages page_size r ids) ≡ (spans page_size id r || has_id id ids)
unfolding region_pages
has_id-region_pages page_size id r ids h k =
    rw
      (
        add_u64_small r.offset r.extent (omega arith),
        sub_u64_small (stop r) 1 (omega arith) (omega arith),
      )
      (has_id-insert_pages id (r.offset / page_size)
          (suc ((stop r - 1) / page_size) - r.offset / page_size) ids
        ∙ last_page_range id (r.offset / page_size) ((stop r - 1) / page_size) (has_id id ids))

or_swap : (a b c r : Bool) → r ≡ (b || (a || c)) → r ≡ ((a || b) || c)
or_swap a b c r h = ground arith

has_id-regions_to_page_ids_from :
    (page_size id : ℕ) (regions : List FileRegion) (ids : List ℕ)
    → InBounds regions
    → AllPositive regions
    → has_id id (regions_to_page_ids_from page_size regions ids)
      ≡ (some_spans page_size id regions || has_id id ids)
unfolding regions_to_page_ids_from
has_id-regions_to_page_ids_from page_size id [] ids b q = refl
has_id-regions_to_page_ids_from page_size id (x ∷ xs) ids b q =
    or_swap (spans page_size id x) (some_spans page_size id xs) (has_id id ids) _ (
      rw (← has_id-region_pages page_size id x ids b.0 q.0)
        (has_id-regions_to_page_ids_from page_size id xs (region_pages page_size x ids) b.1 q.1))

between : (a b id : ℕ) → (leb a id && leb id b) ≡ true → (a ≤ id) × (id ≤ b)
between a b id h = (ground arith, ground arith)

between_of : (a b id : ℕ) → a ≤ id → id ≤ b → (leb a id && leb id b) ≡ true
between_of a b id h k = ground arith

inside : (p : ℕ) (r : FileRegion) → within p r ≡ true → (r.offset ≤ p) × (p < stop r)
inside p r h = (ground arith, ground arith)

-- A byte of the region on the page.
abbrev HasByte : ℕ → ℕ → FileRegion → Type 0
HasByte page_size id r = (p : ℕ) × (within p r ≡ true) × (p / page_size ≡ id)

spans-HasByte :
    (page_size id : ℕ) (r : FileRegion)
    → 0 < page_size
    → 0 < r.extent
    → spans page_size id r ≡ true
    → HasByte page_size id r
spans-HasByte page_size id r s k h =
    let (from, to) = between (r.offset / page_size) ((stop r - 1) / page_size) id h in
    let last : id * page_size ≤ stop r - 1 = (le-div_iff_mul-le s).0 to in
    let first = lt-div-mul-add {a = r.offset} s in
    let room = mul-le-mul_right {m = r.offset / page_size} {n = id} page_size from in
    let p = max r.offset (id * page_size) in
    (p, ground arith, div-eq_of_lt-le page_size {m = p} (omega arith) (omega arith))

HasByte-spans :
    (page_size p : ℕ) (r : FileRegion)
    → 0 < page_size
    → within p r ≡ true
    → spans page_size (p / page_size) r ≡ true
HasByte-spans page_size p r s h =
    let (from, to) = inside p r h in
    let low = div-mul-le_self r.offset page_size in
    let high = div-mul-le_self p page_size in
    between_of (r.offset / page_size) ((stop r - 1) / page_size) (p / page_size)
      ((le-div_iff_mul-le s).1 (omega arith)) ((le-div_iff_mul-le s).1 (omega arith))

or_cases : (a b : Bool) → (a || b) ≡ true → (a ≡ true) ⊎ (b ≡ true)
or_cases true b h = inl refl
or_cases false b h = inr h

some_spans-covers :
    (page_size id : ℕ) (regions : List FileRegion)
    → 0 < page_size
    → AllPositive regions
    → some_spans page_size id regions ≡ true
    → (p : ℕ) × (covers p regions ≡ true) × (p / page_size ≡ id)
some_spans-covers page_size id [] s q h = absurd (ground arith)
some_spans-covers page_size id (x ∷ xs) s q h =
    elim (or_cases (spans page_size id x) (some_spans page_size id xs) h) [
      | inl e ↦ let (p, at, on) = spans-HasByte page_size id x s q.0 e in (p, rw at, on)
      | inr e ↦ let (p, at, on) = some_spans-covers page_size id xs s q.1 e in (p, ground arith, on)
    ]

covers-some_spans :
    (page_size p : ℕ) (regions : List FileRegion)
    → 0 < page_size
    → covers p regions ≡ true
    → some_spans page_size (p / page_size) regions ≡ true
covers-some_spans page_size p [] s h = absurd (ground arith)
covers-some_spans page_size p (x ∷ xs) s h = elim (or_cases (within p x) (covers p xs) h) [
  | inl e ↦ rw (HasByte-spans page_size p x s e)
  | inr e ↦ let rest = covers-some_spans page_size p xs s e in ground arith
]

-- regionsToPageIds of regions that are not empty and end in bounds has exactly the ids of the pages on
-- which a byte of the regions lies.
pub regions_to_page_ids-covers :
    (page_size id : ℕ) (regions : List FileRegion)
    → 0 < page_size
    → InBounds regions
    → AllPositive regions
    → (has_id id (regions_to_page_ids page_size regions) ≡ true)
      ↔ ((p : ℕ) × (covers p regions ≡ true) × (p / page_size ≡ id))
unfolding regions_to_page_ids has_id
regions_to_page_ids-covers page_size id regions s b q =
    let e = has_id-regions_to_page_ids_from page_size id regions [] b q in
    (
      λ h. some_spans-covers page_size id regions s q (ground arith),
      λ m.
          let found = covers-some_spans page_size m.0 regions s m.1 in
          let at : some_spans page_size id regions ≡ true = rw (← m.2) found in ground arith,
    )
