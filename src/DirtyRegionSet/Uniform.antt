-- ===== src/DirtyRegionSet/Uniform.antt =====
-- Where every region has the same dirty bit, a DirtyFileRegionSet is a FileRegionSet.
use hecios.OrderedSet.{set_insert, upper_bound, split_last}
use hecios.RegionSet.{FileRegion, region_end}
use hecios.RegionSet
use hecios.DirtyRegionSet.{
  DirtyFileRegion, less_or_same, less, same_bit, merge_low, merge_up, insert,
}
use hecios.RegionSet.Chain.{stop, IsValid, AllPositive, OffsetOrder}
use hecios.RegionSet.Insert.{
  insert_by-IsValid, insert-IsValid, insert_by-AllPositive, insert-AllPositive, covers-insert_by,
  covers-insert,
}
use hecios.RegionSet.Canonical.{regions_unique}
use mathlib.Core.List.{map-append, append-nil}
use hecios.Prelude.{
  ℕ, Bool, true, false, List, [], ◌∷◌, ◌++◌, Option, none, some, map, ◌≡◌, refl, sym, ◌∙◌, ap,
  arith, le_i64, lt_i64, sub_u64, max_i64, Bool-cases, ◌<◌, offset_limit, inl, inr,
}

module _ (d : Bool) where
  abbrev pub tag : FileRegion → DirtyFileRegion
  tag r = record { region = r; is_dirty = d }

  abbrev pub tags : List FileRegion → List DirtyFileRegion
  tags = map tag

  set_insert-tags :
      (a : FileRegion) (xs : List FileRegion)
      → set_insert less (tag a) (tags xs) ≡ tags (set_insert less_or_same a xs)
  unfolding set_insert less
  set_insert-tags a [] = refl
  set_insert-tags a (x ∷ xs) = ground (arith, set_insert-tags a xs)

  abbrev tag_pair : List FileRegion × List FileRegion → List DirtyFileRegion × List DirtyFileRegion
  tag_pair (low, high) = (tags low, tags high)

  upper_bound-tags :
      (a : FileRegion) (xs : List FileRegion)
      → upper_bound less (tag a) (tags xs) ≡ tag_pair (upper_bound less_or_same a xs)
  unfolding upper_bound less
  upper_bound-tags a [] = refl
  upper_bound-tags a (x ∷ xs) = ground (arith, upper_bound-tags a xs)

  abbrev tag_last :
      Option (List FileRegion × FileRegion) → Option (List DirtyFileRegion × DirtyFileRegion)
  tag_last none = none
  tag_last (some (front, last)) = some (tags front, tag last)

  split_last-tags : (xs : List FileRegion) → split_last (tags xs) ≡ tag_last (split_last xs)
  unfolding split_last
  split_last-tags [] = refl
  split_last-tags (x ∷ xs) = ground (arith, split_last-tags xs)

  same_bit_self : (b : Bool) → same_bit b b ≡ true
  same_bit_self true = refl
  same_bit_self false = refl

  abbrev tag_state : FileRegion × List FileRegion → DirtyFileRegion × List DirtyFileRegion
  tag_state (new, regions) = (tag new, tags regions)

  abbrev joined : FileRegion → FileRegion → FileRegion
  joined a prev = record {
    offset = prev.offset;
    extent = sub_u64 (max_i64 (region_end a) (region_end prev)) prev.offset;
  }

  merge_low-tags_split :
      (a : FileRegion) (xs low high : List FileRegion)
      (last : Option (List FileRegion × FileRegion))
      → upper_bound less_or_same a xs ≡ (low, high)
      → upper_bound less (tag a) (tags xs) ≡ (tags low, tags high)
      → split_last low ≡ last
      → split_last (tags low) ≡ tag_last last
      → merge_low (tag a) (tags xs) ≡ tag_state (RegionSet.merge_low less_or_same a xs)
  unfolding merge_low RegionSet.merge_low
  merge_low-tags_split a xs low high none q u s t = rw (merge_low, RegionSet.merge_low, u, q, t, s)
  merge_low-tags_split a xs low high (some (front, prev)) q u s t =
      rw (merge_low, RegionSet.merge_low, u, q, t, s, same_bit_self d)
        (elim (Bool-cases (le_i64 a.offset (region_end prev))) [
          | inl touch ↦
              rw (touch, u, q)
                (ap (λ (r : List DirtyFileRegion). (tag (joined a prev), r))
                  (sym (map-append tag front high)))
          | inr apart ↦ rw apart
        ])

  merge_low-tags :
      (a : FileRegion) (xs : List FileRegion)
      → merge_low (tag a) (tags xs) ≡ tag_state (RegionSet.merge_low less_or_same a xs)
  merge_low-tags a xs =
      let (low, high) = upper_bound less_or_same a xs in
      merge_low-tags_split a xs low high (split_last low) refl (upper_bound-tags a xs) refl
        (split_last-tags low)

  merge_up-tags :
      (e : ℕ) (new : FileRegion) (left : List DirtyFileRegion) (xs : List FileRegion)
      → merge_up e (tag new) left (tags xs)
        ≡ (let m = RegionSet.merge_up e new xs in (tag m.0, left ++ tags m.1))
  unfolding merge_up RegionSet.merge_up
  merge_up-tags e new left [] =
      ap (λ (t : List DirtyFileRegion). (tag new, t)) (sym (append-nil left))
  merge_up-tags e new left (x ∷ xs) = elim (Bool-cases (le_i64 x.offset e)) [
    | inl touch ↦
        rw (touch, same_bit_self d)
          (merge_up-tags e (record new { extent = sub_u64 (max_i64 e (region_end x)) new.offset })
            left xs)
    | inr apart ↦ rw apart
  ]

  pub insert-tags :
      (a : FileRegion) (xs : List FileRegion)
      → insert (tag a) (tags xs) ≡ tags (RegionSet.insert_by less_or_same a xs)
  unfolding insert RegionSet.insert_by
  insert-tags a xs =
      let m = RegionSet.merge_low less_or_same a xs in
      let u = upper_bound less_or_same a m.1 in
      let r = RegionSet.merge_up (region_end m.0) m.0 u.1 in
      rw
        (
          merge_low-tags a xs,
          upper_bound-tags a m.1,
          merge_up-tags (region_end m.0) m.0 (tags u.0) u.1,
        )
        (rw (← map-append tag u.0 r.1) (set_insert-tags r.0 (u.0 ++ r.1)))

pub less_or_same-OffsetOrder : OffsetOrder less_or_same
unfolding less_or_same lt_i64
less_or_same-OffsetOrder = record {
  strict = λ a b h k. ground arith;
  of_less = λ a b h k e. ground arith;
  of_not_less = λ a b h k e. ground arith;
}

-- Where the regions of a DirtyFileRegionSet and the inserted region all have one dirty bit, the
-- insertion is that of a FileRegionSet: on a well-formed set without empty regions, and for a region
-- that is not empty and ends in bounds, it builds the same regions, all with that bit.
pub insert-uniform :
    (d : Bool) (a : FileRegion) (xs : List FileRegion)
    → stop a < offset_limit
    → 0 < a.extent
    → IsValid xs
    → AllPositive xs
    → insert (tag d a) (tags d xs) ≡ tags d (RegionSet.insert a xs)
insert-uniform d a xs h e v q =
    let o = less_or_same-OffsetOrder in
    insert-tags d a xs
    ∙ ap (tags d) (
        regions_unique (RegionSet.insert_by less_or_same a xs) (RegionSet.insert a xs)
          (insert_by-IsValid less_or_same o a xs h v) (insert-IsValid a xs h v)
          (insert_by-AllPositive less_or_same o a xs h e v q) (insert-AllPositive a xs h e v q)
          λ p. covers-insert_by less_or_same o p a xs h v ∙ sym (covers-insert p a xs h v))
