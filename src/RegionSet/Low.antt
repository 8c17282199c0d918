-- ===== src/RegionSet/Low.antt =====
-- The first half of FileRegionSet::insert: the region before the new one.
use hecios.OrderedSet.{upper_bound, split_last}
use hecios.OrderedSet.Laws.{
  NoneAbove, FirstAbove, Splits, upper_bound-Splits, upper_bound-append, NoneAbove-front,
  split_last-cases,
}
use hecios.RegionSet.{FileRegion, region_end, merge_low}
use hecios.RegionSet.Chain.{
  stop, Chain, IsValid, within, covers, AllPositive, AllPositive-split, region_end-stop,
  covers-append, Chain-weaken, Chain-front, Chain-front_stop, Chain-split, OffsetOrder,
}
use hecios.RegionSet.Merge.{grown, le_i64-true, le_i64-false}
use mathlib.Core.List.{append_assoc}
use hecios.Prelude.{
  ℕ, ◌+◌, ◌-◌, ◌≤◌, ◌<◌, max, Bool, true, false, ◌||◌, List, [], ◌∷◌, ◌++◌, ◌≡◌, refl, sym, ◌∙◌, ap,
  inl, inr, arith, le_i64, offset_limit, Bool-cases, some, none,
}

or_comm : (a b : Bool) → (a || b) ≡ (b || a)
or_comm a b = ground arith

abbrev joined : FileRegion → FileRegion → FileRegion
joined region prev = record prev { extent = max (stop region) (stop prev) - prev.offset }

within-joined :
    (p : ℕ) (region prev : FileRegion)
    → prev.offset ≤ region.offset
    → region.offset ≤ stop prev
    → within p (joined region prev) ≡ (within p region || within p prev)
within-joined p region prev h k = ground arith

or_shuffle : (a b c d n : Bool) → n ≡ (c || d) → ((a || b) || n) ≡ (c || (a || (d || b)))
or_shuffle a b c d n e = ground arith

low_Chain :
    (hi : ℕ) (regions low front high : List FileRegion) (prev : FileRegion)
    → low ++ high ≡ regions
    → low ≡ front ++ prev ∷ []
    → Chain 0 regions hi
    → Chain 0 (front ++ prev ∷ []) hi
low_Chain hi regions low front high prev whole snoc v =
    rw (← snoc) (Chain-split 0 hi low high (rw whole v)).0

module _ (lt : FileRegion → FileRegion → Bool) (o : OffsetOrder lt) where
  -- The set and the region for the second half: the region has only grown, the regions below it end
  -- before it, those above begin in it or after it, and no byte is won or lost.
  pub record LowMerged (region : FileRegion) (regions : List FileRegion) (new : FileRegion)
      (left : List FileRegion) : Type 0 where
    pub low : List FileRegion
    pub high : List FileRegion
    pub split : upper_bound lt region left ≡ (low, high)
    pub below : Chain 0 low new.offset
    pub above : Chain new.offset high offset_limit
    pub bounded : stop new < offset_limit
    pub begins : new.offset ≤ region.offset
    pub ends : stop region ≤ stop new
    pub bytes :
        (p : ℕ) → (covers p (low ++ high) || within p new) ≡ (within p region || covers p regions)
    pub positive : AllPositive regions → AllPositive low × AllPositive high

  Chain-from :
      (lo : ℕ) (a : FileRegion) (xs : List FileRegion)
      → a.offset < offset_limit
      → FirstAbove lt a xs
      → Chain lo xs offset_limit
      → Chain a.offset xs offset_limit
  Chain-from lo a [] h f c = tt
  Chain-from lo a (x ∷ xs) h f c = (o.of_less a x h (omega arith) f, c.1, c.2)

  -- No region of the set touches the new one from below.
  stay :
      (region : FileRegion) (regions low high : List FileRegion)
      → stop region < offset_limit
      → IsValid regions
      → upper_bound lt region regions ≡ (low, high)
      → low ++ high ≡ regions
      → FirstAbove lt region high
      → Chain 0 low region.offset
      → LowMerged region regions region regions
  stay region regions low high h v split whole f below =
      let parts = Chain-split 0 offset_limit low high (rw whole v) in
      record {
        low = low;
        high = high;
        split = split;
        below = below;
        above = Chain-from 0 region high (omega arith) f parts.1;
        bounded = h;
        begins = omega arith;
        ends = omega arith;
        bytes = λ p. rw whole (or_comm (covers p regions) (within p region));
        positive = λ q. AllPositive-split low high (rw whole q);
      }

  -- The region before the new one touches it, and is taken in.
  join :
      (region prev : FileRegion) (front high : List FileRegion)
      → stop region < offset_limit
      → IsValid (front ++ prev ∷ high)
      → NoneAbove lt region front
      → FirstAbove lt region high
      → prev.offset ≤ region.offset
      → region.offset ≤ stop prev
      → LowMerged region (front ++ prev ∷ high) (joined region prev) (front ++ high)
  join region prev front high h v n f lower touch =
      let parts = Chain-front 0 offset_limit front prev high v in
      record {
        low = front;
        high = high;
        split = upper_bound-append lt region front high n f;
        below = parts.0;
        above = Chain-weaken (stop prev + 1) prev.offset _ high (omega arith) parts.3;
        bounded = omega arith;
        begins = lower;
        ends = omega arith;
        bytes = λ p.
            rw (covers-append p front high, covers-append p front (prev ∷ high))
              (or_shuffle (covers p front) (covers p high) (within p region) (within p prev) _
                (within-joined p region prev lower touch));
        positive = λ q. let r = AllPositive-split front (prev ∷ high) q in (r.0, r.1.1);
      }

  abbrev Low : FileRegion → List FileRegion → FileRegion × List FileRegion → Type 0
  Low region regions (new, left) = LowMerged region regions new left

  merge_low-empty :
      (region : FileRegion) (regions low high : List FileRegion)
      → upper_bound lt region regions ≡ (low, high)
      → split_last low ≡ none
      → merge_low lt region regions ≡ (region, regions)
  unfolding merge_low
  merge_low-empty region regions low high e s = rw (merge_low, e, s)

  merge_low-apart :
      (region prev : FileRegion) (regions low front high : List FileRegion)
      → upper_bound lt region regions ≡ (low, high)
      → split_last low ≡ some (front, prev)
      → le_i64 region.offset (region_end prev) ≡ false
      → merge_low lt region regions ≡ (region, regions)
  unfolding merge_low
  merge_low-apart region prev regions low front high e s t = rw (merge_low, e, s, t)

  merge_low-touch :
      (region prev : FileRegion) (regions low front high : List FileRegion)
      → upper_bound lt region regions ≡ (low, high)
      → split_last low ≡ some (front, prev)
      → le_i64 region.offset (region_end prev) ≡ true
      → stop region < offset_limit
      → stop prev < offset_limit
      → prev.offset ≤ stop region
      → merge_low lt region regions ≡ (joined region prev, front ++ high)
  unfolding merge_low
  merge_low-touch region prev regions low front high e s t h k l =
      rw
        (
          merge_low,
          e,
          s,
          t,
          region_end-stop region h,
          grown (stop region) prev.offset prev h k (inr l),
        )
        (ap (λ (q : List FileRegion × List FileRegion). (joined region prev, front ++ q.1)) e)

  merge_low-Low_last :
      (region prev : FileRegion) (regions low front high : List FileRegion)
      → stop region < offset_limit
      → IsValid regions
      → upper_bound lt region regions ≡ (low, high)
      → Splits lt region regions (low, high)
      → low ≡ front ++ prev ∷ []
      → split_last low ≡ some (front, prev)
      → Low region regions (merge_low lt region regions)
  merge_low-Low_last region prev regions low front high h v e (whole, none_above, above) snoc s =
      let c = low_Chain offset_limit regions low front high prev whole snoc v in
      let q = Chain-front 0 offset_limit front prev [] c in
      let n = NoneAbove-front lt region front prev (rw (← snoc) none_above) in
      let end_prev = region_end-stop prev q.2 in
      elim (Bool-cases (le_i64 region.offset (region_end prev))) [
        | inr apart ↦
            let far =
              le_i64-false region.offset (stop prev) (omega arith) q.2 (rw (← end_prev) apart) in
            rw (merge_low-apart region prev regions low front high e s apart) (
              stay region regions low high h v e whole above
                (rw snoc (Chain-front_stop 0 offset_limit region.offset front prev c far)))
        | inl touch ↦
            let near =
              le_i64-true region.offset (stop prev) (omega arith) q.2 (rw (← end_prev) touch) in
            let lower = o.of_not_less region prev (omega arith) (omega arith) n.1 in
            let same : regions ≡ front ++ prev ∷ high =
              sym whole ∙ ap (λ xs. xs ++ high) snoc ∙ append_assoc front (prev ∷ []) high in
            rw (merge_low-touch region prev regions low front high e s touch h q.2 (omega arith))
              (rw same (join region prev front high h (rw same at v) n.0 above lower near))
      ]

  pub merge_low-Low :
      (region : FileRegion) (regions : List FileRegion)
      → stop region < offset_limit
      → IsValid regions
      → Low region regions (merge_low lt region regions)
  merge_low-Low region regions h v =
      let (low, high) = upper_bound lt region regions in
      let sp = upper_bound-Splits lt region regions in
      elim (split_last-cases low) [
        | inl (empty, s) ↦
            rw (merge_low-empty region regions low high refl s)
              (stay region regions low high h v refl sp.0 sp.2 (rw empty tt))
        | inr (front, prev, snoc, s) ↦
            merge_low-Low_last region prev regions low front high h v refl sp snoc s
      ]
