-- ===== src/DirtyRegionSet/Lost.antt =====
-- Two inputs of DirtyFileRegionSet::insert at which a part of a region is lost or made up: the new
-- region lies inside an older one that has the other dirty bit.
use hecios.OrderedSet.{set_insert, upper_bound, split_last}
use hecios.RegionSet.{FileRegion}
use hecios.RegionSet.Chain.{region_end-stop}
use hecios.DirtyRegionSet.Uniform.{less_or_same-OffsetOrder}
use hecios.DirtyRegionSet.{DirtyFileRegion, less, dirty_region, merge_low, merge_up, insert}
use hecios.Prelude.{
  ℕ, ◌+◌, ◌-◌, ◌≤◌, ◌<◌, true, false, List, [], ◌∷◌, ◌≡◌, arith, le_i64, sub_u64, offset_limit,
  u64_mod, le_i64_small, sub_u64_small, ◌∙◌,
}

abbrev plain : ℕ → ℕ → FileRegion
plain o n = record { offset = o; extent = n }

upper_bound_one :
    (r x : DirtyFileRegion) → less r x ≡ false → upper_bound less r (x ∷ []) ≡ (x ∷ [], [])
unfolding upper_bound
upper_bound_one r x h = rw h

set_insert_one :
    (r x : DirtyFileRegion)
    → less r x ≡ false
    → less x r ≡ true
    → set_insert less r (x ∷ []) ≡ x ∷ r ∷ []
unfolding set_insert
set_insert_one r x h k = rw (h, k)

-- An insertion that finds nothing above the new region after the first block.
insert_above :
    (r new x : DirtyFileRegion) (xs : List DirtyFileRegion)
    → merge_low r xs ≡ (new, x ∷ [])
    → less r x ≡ false
    → less new x ≡ false
    → less x new ≡ true
    → insert r xs ≡ x ∷ new ∷ []
unfolding insert merge_up
insert_above r new x xs e h k l = rw (e, upper_bound_one r x h) (set_insert_one new x k l)

touch : (o n a : ℕ) → a ≤ o + n → o + n < offset_limit → le_i64 a (o + n) ≡ true
touch o n a h k = le_i64_small a (o + n) (omega arith) k ∙ ground arith

low_clean :
    (o n a b : ℕ)
    → o < a
    → a + b < o + n
    → o + n < offset_limit
    → merge_low (dirty_region a b true) (dirty_region o n false ∷ [])
      ≡ (dirty_region a b true, dirty_region o (a - o) false ∷ [])
unfolding merge_low set_insert less split_last
low_clean o n a b h k l =
    let whole = less_or_same-OffsetOrder.strict (plain o n) (plain a b) h (omega arith) in
    rw
      (
        merge_low,
        upper_bound_one (dirty_region a b true) (dirty_region o n false) whole.1,
        region_end-stop (plain o n) l,
        touch o n a (omega arith) l,
        sub_u64_small a o (omega arith) (omega arith),
      )
      (rw (upper_bound_one (dirty_region a b true) (dirty_region o n false) whole.1))

-- In bounds, a dirty region inserted strictly inside a clean one leaves the clean part before it
-- and the new region: the clean part behind it is dropped from the set.
pub insert_drops_clean_tail :
    (o n a b : ℕ)
    → o < a
    → a + b < o + n
    → o + n < offset_limit
    → insert (dirty_region a b true) (dirty_region o n false ∷ [])
      ≡ dirty_region o (a - o) false ∷ dirty_region a b true ∷ []
unfolding less
insert_drops_clean_tail o n a b h k l =
    let whole = less_or_same-OffsetOrder.strict (plain o n) (plain a b) h (omega arith) in
    let front = less_or_same-OffsetOrder.strict (plain o (a - o)) (plain a b) h (omega arith) in
    insert_above (dirty_region a b true) (dirty_region a b true) (dirty_region o (a - o) false) _
      (low_clean o n a b h k l) front.1 front.1 front.0

sub_u64_wraps :
    (o n a b : ℕ)
    → a + b < o + n
    → o + n < offset_limit
    → a ≤ o + n
    → sub_u64 b (o + n - a) ≡ u64_mod - (o + n - (a + b))
unfolding sub_u64
sub_u64_wraps o n a b h k l = omega arith

low_dirty :
    (o n a b : ℕ)
    → o < a
    → a + b < o + n
    → o + n < offset_limit
    → merge_low (dirty_region a b false) (dirty_region o n true ∷ [])
      ≡ (dirty_region (o + n) (u64_mod - (o + n - (a + b))) false, dirty_region o n true ∷ [])
unfolding merge_low less split_last
low_dirty o n a b h k l =
    let whole = less_or_same-OffsetOrder.strict (plain o n) (plain a b) h (omega arith) in
    rw (
      merge_low,
      upper_bound_one (dirty_region a b false) (dirty_region o n true) whole.1,
      region_end-stop (plain o n) l,
      touch o n a (omega arith) l,
      sub_u64_small (o + n) a (omega arith) (omega arith),
      sub_u64_wraps o n a b k l (omega arith),
    )

-- In bounds, a clean region inserted strictly inside a dirty one is moved to the end of the dirty
-- one, with an extent that has wrapped below zero.
pub insert_wraps_clean_extent :
    (o n a b : ℕ)
    → o < a
    → a + b < o + n
    → o + n < offset_limit
    → insert (dirty_region a b false) (dirty_region o n true ∷ [])
      ≡ dirty_region o n true ∷ dirty_region (o + n) (u64_mod - (o + n - (a + b))) false ∷ []
unfolding less
insert_wraps_clean_extent o n a b h k l =
    let whole = less_or_same-OffsetOrder.strict (plain o n) (plain a b) h (omega arith) in
    let wrapped = u64_mod - (o + n - (a + b)) in
    let back =
      less_or_same-OffsetOrder.strict (plain o n) (plain (o + n) wrapped) (omega arith) l in
    insert_above (dirty_region a b false) (dirty_region (o + n) wrapped false)
      (dirty_region o n true) _ (low_dirty o n a b h k l) whole.1 back.1 back.0
