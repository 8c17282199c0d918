-- ===== src/RegionSet/Insert.antt =====
-- FileRegionSet::insert as a whole: it keeps a set well-formed and adds the bytes of the region.
use hecios.OrderedSet.{set_insert, upper_bound}
use hecios.OrderedSet.Laws.{set_insert-append}
use hecios.RegionSet.{FileRegion, less, merge_low, merge_up, insert_by, insert}
use hecios.RegionSet.Chain.{
  stop, Chain, IsValid, within, covers, AllPositive, AllPositive-append, region_end-stop,
  covers-append, Chain-append, Chain-AllBelow, Chain-FirstAbove, OffsetOrder, less-OffsetOrder,
}
use hecios.RegionSet.Merge.{Merged, merge_up-Merged}
use hecios.RegionSet.Low.{LowMerged, merge_low-Low}
use hecios.Prelude.{
  ℕ, ◌+◌, ◌≤◌, ◌<◌, Bool, ◌||◌, List, ◌∷◌, ◌++◌, ◌≡◌, refl, inl, arith, offset_limit, ◌∙◌,
}

or_parts : (a b c m n r : Bool) → ((a || b) || n) ≡ r → (n || b) ≡ (m || c) → (a || (m || c)) ≡ r
or_parts a b c m n r h k = ground arith

module _ (lt : FileRegion → FileRegion → Bool) (o : OffsetOrder lt) where
  -- The result of an insertion: the regions below, the grown region, and the regions above.
  pub record Inserted (region : FileRegion) (regions after : List FileRegion) : Type 0 where
    pub low : List FileRegion
    pub merged : FileRegion
    pub rest : List FileRegion
    pub shape : after ≡ low ++ merged ∷ rest
    pub below : Chain 0 low merged.offset
    pub above : Chain (stop merged + 1) rest offset_limit
    pub bounded : stop merged < offset_limit
    pub begins : merged.offset ≤ region.offset
    pub ends : stop region ≤ stop merged
    pub positive : AllPositive regions → AllPositive low × AllPositive rest
    pub bytes : (p : ℕ) → covers p after ≡ (within p region || covers p regions)

  insert-merge_up :
      (region : FileRegion) (regions low high : List FileRegion)
      → upper_bound lt region (merge_low lt region regions).1 ≡ (low, high)
      → stop (merge_low lt region regions).0 < offset_limit
      → insert_by lt region regions ≡ (
          let new = (merge_low lt region regions).0 in
          let m = merge_up (stop new) new high in set_insert lt m.0 (low ++ m.1))
  unfolding insert_by
  insert-merge_up region regions low high e h =
      rw (e, region_end-stop (merge_low lt region regions).0 h)

  insert-Inserted :
      (region : FileRegion) (regions : List FileRegion)
      → stop region < offset_limit
      → IsValid regions
      → Inserted region regions (insert_by lt region regions)
  insert-Inserted region regions h v =
      let (new, left) = merge_low lt region regions in
      let l : LowMerged lt o region regions new left = merge_low-Low lt o region regions h v in
      let (merged, rest) = merge_up (stop new) new l.high in
      let m : Merged new l.high (merged, rest) =
        merge_up-Merged (stop new) new.offset new l.high (omega arith) l.bounded (omega arith)
          (omega arith) l.above (inl refl) in
      let below : Chain 0 l.low merged.offset = rw m.0 l.below in
      let shape : insert_by lt region regions ≡ l.low ++ merged ∷ rest =
        insert-merge_up region regions l.low l.high l.split l.bounded
        ∙ set_insert-append lt merged l.low rest
            (Chain-AllBelow lt o 0 merged l.low (omega arith) below)
            (Chain-FirstAbove lt o (stop merged + 1) merged rest (omega arith) m.3) in
      record {
        low = l.low;
        merged = merged;
        rest = rest;
        shape = shape;
        below = below;
        above = m.3;
        bounded = m.2;
        begins = rw m.0 l.begins;
        ends = omega arith;
        positive = λ q. let r = l.positive q in (r.0, m.5 r.1);
        bytes = λ p.
            rw (shape, covers-append p l.low (merged ∷ rest))
              (or_parts (covers p l.low) (covers p l.high) (covers p rest) (within p merged)
                (within p new) _ (rw (← covers-append p l.low l.high) (l.bytes p)) (m.4 p));
      }

  pub insert_by-IsValid :
      (region : FileRegion) (regions : List FileRegion)
      → stop region < offset_limit
      → IsValid regions
      → IsValid (insert_by lt region regions)
  insert_by-IsValid region regions h v =
      let r = insert-Inserted region regions h v in
      rw r.shape (
        Chain-append 0 r.merged.offset offset_limit r.low (r.merged ∷ r.rest) (omega arith)
          (omega arith) r.below (omega arith, r.bounded, r.above))

  pub covers-insert_by :
      (p : ℕ) (region : FileRegion) (regions : List FileRegion)
      → stop region < offset_limit
      → IsValid regions
      → covers p (insert_by lt region regions) ≡ (within p region || covers p regions)
  covers-insert_by p region regions h v = (insert-Inserted region regions h v).bytes p

  pub insert_by-AllPositive :
      (region : FileRegion) (regions : List FileRegion)
      → stop region < offset_limit
      → 0 < region.extent
      → IsValid regions
      → AllPositive regions
      → AllPositive (insert_by lt region regions)
  insert_by-AllPositive region regions h e v q =
      let r = insert-Inserted region regions h v in
      let parts = r.positive q in
      let begins = r.begins in
      let ends = r.ends in
      rw r.shape (AllPositive-append r.low (r.merged ∷ r.rest) parts.0 (omega arith, parts.1))

-- A well-formed set stays well-formed: ascending, with a gap between any two regions, and in
-- bounds, whatever region that ends in bounds is inserted.
pub insert-IsValid :
    (region : FileRegion) (regions : List FileRegion)
    → stop region < offset_limit
    → IsValid regions
    → IsValid (insert region regions)
unfolding insert
insert-IsValid = insert_by-IsValid less less-OffsetOrder

-- Into a well-formed set, an insertion of a region that ends in bounds adds exactly the bytes of
-- the region: a byte is covered afterwards if it lies in the region or was covered before.
pub covers-insert :
    (p : ℕ) (region : FileRegion) (regions : List FileRegion)
    → stop region < offset_limit
    → IsValid regions
    → covers p (insert region regions) ≡ (within p region || covers p regions)
unfolding insert
covers-insert = covers-insert_by less less-OffsetOrder

-- Into a well-formed set without empty regions, an insertion of a region that is not empty and
-- ends in bounds leaves no empty region.
pub insert-AllPositive :
    (region : FileRegion) (regions : List FileRegion)
    → stop region < offset_limit
    → 0 < region.extent
    → IsValid regions
    → AllPositive regions
    → AllPositive (insert region regions)
unfolding insert
insert-AllPositive = insert_by-AllPositive less less-OffsetOrder
