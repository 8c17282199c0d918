-- ===== src/FilePages/PartialRegions.antt =====
-- src/common/file_page_utils.cc, determinePartialPageRegions: the bytes of a request on one page.
use hecios.RegionSet.{FileRegion, insert}
use hecios.RegionSet.Chain.{stop, IsValid, within, covers}
use hecios.RegionSet.Insert.{insert-IsValid, covers-insert}
use hecios.Mapping.Processor.{FileView, locate_file_regions}
use hecios.FilePages.{insert_on_page, insert_all_on_page, determine_partial_page_regions}
use hecios.Prelude.{
  ℕ, ◌+◌, ◌-◌, ◌*◌, ◌<◌, Bool, false, ◌&&◌, ◌||◌, List, [], ◌∷◌, Option, none, some, if◌then◌else◌,
  ◌≡◌, refl, arith, ltb, leb, add_u64_small, sub_u64, mul_u64_small, lt_i64_small, le_i64_small,
  offset_limit,
}

-- Every region ends in bounds.
abbrev pub InBounds : List FileRegion → Type 0
InBounds [] = Unit {0}
InBounds (x ∷ xs) = (stop x < offset_limit) × InBounds xs

abbrev pub on_page : ℕ → ℕ → ℕ → Bool
on_page page_begin page_size p = leb page_begin p && ltb p (page_begin + page_size)

-- The piece of a region on a page, over numbers with no wrap.
abbrev piece : ℕ → ℕ → FileRegion → Option FileRegion
piece page_begin page_size r =
    let page_end = page_begin + page_size in
    if leb r.offset page_begin && leb page_end (stop r)
    then some (record { offset = page_begin; extent = page_size })
    else if leb page_begin r.offset && ltb r.offset page_end
    then some (record {
      offset = r.offset;
      extent = (if ltb (stop r) page_end then stop r else page_end) - r.offset;
    })
    else if leb page_begin (stop r) && ltb (stop r) page_end
    then some (record { offset = page_begin; extent = stop r - page_begin })
    else none

abbrev within_piece : ℕ → Option FileRegion → Bool
within_piece p none = false
within_piece p (some r) = within p r

abbrev PieceInBounds : Option FileRegion → Type 0
PieceInBounds none = Unit {0}
PieceInBounds (some r) = stop r < offset_limit

abbrev insert_piece : Option FileRegion → List FileRegion → List FileRegion
insert_piece none set = set
insert_piece (some r) set = insert r set

insert_on_page-piece :
    (page_begin page_size : ℕ) (r : FileRegion) (set : List FileRegion)
    → page_begin + page_size < offset_limit
    → stop r < offset_limit
    → insert_on_page page_begin page_size r set ≡ insert_piece (piece page_begin page_size r) set
unfolding insert_on_page sub_u64
insert_on_page-piece page_begin page_size r set h k =
    rw
      (
        add_u64_small page_begin page_size (omega arith),
        add_u64_small r.offset r.extent (omega arith),
        le_i64_small r.offset page_begin (omega arith) (omega arith),
        le_i64_small (page_begin + page_size) (stop r) (omega arith) (omega arith),
        le_i64_small page_begin r.offset (omega arith) (omega arith),
        lt_i64_small r.offset (page_begin + page_size) (omega arith) (omega arith),
        lt_i64_small (stop r) (page_begin + page_size) (omega arith) (omega arith),
        le_i64_small page_begin (stop r) (omega arith) (omega arith),
      )
      (ground arith)

piece-PieceInBounds :
    (page_begin page_size : ℕ) (r : FileRegion)
    → page_begin + page_size < offset_limit
    → stop r < offset_limit
    → PieceInBounds (piece page_begin page_size r)
piece-PieceInBounds page_begin page_size r h k = ground arith

within-piece :
    (p page_begin page_size : ℕ) (r : FileRegion)
    → within_piece p (piece page_begin page_size r) ≡ (on_page page_begin page_size p && within p r)
within-piece p page_begin page_size r = ground arith

insert_on_page-IsValid :
    (page_begin page_size : ℕ) (r : FileRegion) (set : List FileRegion)
    → page_begin + page_size < offset_limit
    → stop r < offset_limit
    → IsValid set
    → IsValid (insert_on_page page_begin page_size r set)
insert_on_page-IsValid page_begin page_size r set h k v =
    rw (insert_on_page-piece page_begin page_size r set h k)
      (keep (piece page_begin page_size r) (piece-PieceInBounds page_begin page_size r h k))
  where
    keep : (o : Option FileRegion) → PieceInBounds o → IsValid (insert_piece o set)
    keep none b = v
    keep (some x) b = insert-IsValid x set b v

covers-insert_on_page :
    (p page_begin page_size : ℕ) (r : FileRegion) (set : List FileRegion)
    → page_begin + page_size < offset_limit
    → stop r < offset_limit
    → IsValid set
    → covers p (insert_on_page page_begin page_size r set)
      ≡ ((on_page page_begin page_size p && within p r) || covers p set)
covers-insert_on_page p page_begin page_size r set h k v =
    rw
      (insert_on_page-piece page_begin page_size r set h k, ← within-piece p page_begin page_size r)
      (grow (piece page_begin page_size r) (piece-PieceInBounds page_begin page_size r h k))
  where
    grow :
        (o : Option FileRegion)
        → PieceInBounds o
        → covers p (insert_piece o set) ≡ (within_piece p o || covers p set)
    grow none b = refl
    grow (some x) b = covers-insert p x set b v

or_grow : (m a b c r : Bool) → r ≡ (((m && a) || c) || (m && b)) → r ≡ (c || (m && (a || b)))
or_grow m a b c r h = ground arith

insert_all_on_page-IsValid :
    (page_begin page_size : ℕ) (regions set : List FileRegion)
    → page_begin + page_size < offset_limit
    → InBounds regions
    → IsValid set
    → IsValid (insert_all_on_page page_begin page_size regions set)
unfolding insert_all_on_page
insert_all_on_page-IsValid page_begin page_size [] set h b v = v
insert_all_on_page-IsValid page_begin page_size (x ∷ xs) set h b v =
    insert_all_on_page-IsValid page_begin page_size xs (insert_on_page page_begin page_size x set) h
      b.1 (insert_on_page-IsValid page_begin page_size x set h b.0 v)

covers-insert_all_on_page :
    (p page_begin page_size : ℕ) (regions set : List FileRegion)
    → page_begin + page_size < offset_limit
    → InBounds regions
    → IsValid set
    → covers p (insert_all_on_page page_begin page_size regions set)
      ≡ (covers p set || (on_page page_begin page_size p && covers p regions))
unfolding insert_all_on_page
covers-insert_all_on_page p page_begin page_size [] set h b v = ground arith
covers-insert_all_on_page p page_begin page_size (x ∷ xs) set h b v =
    let set' = insert_on_page page_begin page_size x set in
    let rest =
      covers-insert_all_on_page p page_begin page_size xs set' h b.1
        (insert_on_page-IsValid page_begin page_size x set h b.0 v) in
    or_grow (on_page page_begin page_size p) (within p x) (covers p xs) (covers p set) _
      (rw (← covers-insert_on_page p page_begin page_size x set h b.0 v) rest)

-- If the regions that a request is located at all end in bounds, and so does the page, then
-- determinePartialPageRegions gives a well-formed set, and it covers exactly those bytes of the
-- regions that lie on the page.
pub determine_partial_page_regions-covers :
    (fuel page_size page_id offset size : ℕ) (view : FileView) (regions : List FileRegion)
    → locate_file_regions fuel offset size view ≡ some regions
    → InBounds regions
    → page_id * page_size + page_size < offset_limit
    → (set : List FileRegion) × (determine_partial_page_regions fuel page_size page_id offset size
          view
        ≡ some set)
      × IsValid set
      × ((p : ℕ) → covers p set ≡ (on_page (page_id * page_size) page_size p && covers p regions))
unfolding determine_partial_page_regions
determine_partial_page_regions-covers fuel page_size page_id offset size view regions located b h =
    (
      insert_all_on_page (page_id * page_size) page_size regions [],
      rw (located, mul_u64_small page_id page_size (omega arith)),
      insert_all_on_page-IsValid (page_id * page_size) page_size regions [] h b tt,
      λ p. covers-insert_all_on_page p (page_id * page_size) page_size regions [] h b tt,
    )
