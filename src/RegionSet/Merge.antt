-- ===== src/RegionSet/Merge.antt =====
-- What the two halves of FileRegionSet::insert do to a well-formed set.
use hecios.RegionSet.{FileRegion, region_end, merge_up}
use hecios.RegionSet.Chain.{stop, Chain, within, covers, AllPositive, region_end-stop, Chain-weaken}
use hecios.Prelude.{
  ℕ, ◌+◌, ◌-◌, ◌≤◌, ◌<◌, max, Bool, true, false, ◌||◌, List, [], ◌∷◌, ◌≡◌, refl, sym, ◌∙◌, ◌⊎◌, inl,
  inr, arith, leb, le_i64, le_i64_small, max_i64, max_i64_small, sub_u64, sub_u64_small,
  offset_limit, Bool-cases, leb→le, dec_lt,
}

-- The extent of a region that is stretched to the end of another.
pub grown :
    (e b : ℕ) (x : FileRegion)
    → e < offset_limit
    → stop x < offset_limit
    → b ≤ x.offset ⊎ b ≤ e
    → sub_u64 (max_i64 e (region_end x)) b ≡ max e (stop x) - b
grown e b x h k l =
    rw (region_end-stop x k, max_i64_small e (stop x) h k)
      (sub_u64_small (max e (stop x)) b (omega arith) (omega arith))

-- The region grows at its end only, stays clear of what is left, and no byte is won or lost.
abbrev pub Merged : FileRegion → List FileRegion → FileRegion × List FileRegion → Type 0
Merged new xs (m, rest) =
    (m.offset ≡ new.offset)
    × (stop new ≤ stop m)
    × (stop m < offset_limit)
    × Chain (stop m + 1) rest offset_limit
    × ((p : ℕ) → (within p new || covers p xs) ≡ (within p m || covers p rest))
    × (AllPositive xs → AllPositive rest)

abbrev stretched : FileRegion → ℕ → FileRegion
stretched new e = record new { extent = e - new.offset }

within-stretched :
    (p e : ℕ) (new x : FileRegion)
    → e ≡ stop new
    → new.offset ≤ x.offset
    → x.offset ≤ e
    → (within p new || within p x) ≡ within p (stretched new (max e (stop x)))
within-stretched p e new x g h k = ground arith

regroup : (a b c d e : Bool) → (a || b) ≡ d → (d || c) ≡ e → (a || (b || c)) ≡ e
regroup a b c d e h k = ground arith

pub le_i64-true : (a b : ℕ) → a < offset_limit → b < offset_limit → le_i64 a b ≡ true → a ≤ b
le_i64-true a b h k e = leb→le a b (sym (le_i64_small a b h k) ∙ e)

pub le_i64-false : (a b : ℕ) → a < offset_limit → b < offset_limit → le_i64 a b ≡ false → b < a
le_i64-false a b h k e = let f : leb a b ≡ false = sym (le_i64_small a b h k) ∙ e in ground arith

-- A region of the rest that is not touched starts beyond the new region.
abbrev pub Clear : ℕ → FileRegion → List FileRegion → Type 0
Clear e new xs = (e ≡ stop new) ⊎ Chain (stop new + 1) xs offset_limit

Clear-of_stretched :
    (e : ℕ) (new x : FileRegion) (xs : List FileRegion)
    → e ≡ stop new
    → new.offset ≤ x.offset
    → Chain (stop x + 1) xs offset_limit
    → Clear e (stretched new (max e (stop x))) xs
Clear-of_stretched e new x xs h k c = elim (dec_lt e (stop x)) [
  | yes longer ↦
      inr
        (Chain-weaken (stop x + 1) (stop (stretched new (max e (stop x))) + 1) _ xs (omega arith) c)
  | no shorter ↦ inl (omega arith)
]

pub merge_up-Merged :
    (e c : ℕ) (new : FileRegion) (xs : List FileRegion)
    → e ≤ stop new
    → stop new < offset_limit
    → new.offset ≤ e
    → new.offset ≤ c
    → Chain c xs offset_limit
    → Clear e new xs
    → Merged new xs (merge_up e new xs)
unfolding merge_up
merge_up-Merged e c new [] h k o l v g = (refl, omega arith, k, tt, λ p. refl, λ q. q)
merge_up-Merged e c new (x ∷ xs) h k o l v g = elim (Bool-cases (le_i64 x.offset e)) [
  | inr apart ↦
      let far = le_i64-false x.offset e (omega arith) (omega arith) apart in
      rw apart (refl, omega arith, k, (omega arith, v.1, v.2), λ p. refl, λ q. q)
  | inl touch ↦
      let near = le_i64-true x.offset e (omega arith) (omega arith) touch in
      let e_stop : e ≡ stop new = omega arith in
      let new' = stretched new (max e (stop x)) in
      let r : Merged new' xs (merge_up e new' xs) =
        merge_up-Merged e (stop x + 1) new' xs (omega arith) (omega arith) o (omega arith) v.2
          (Clear-of_stretched e new x xs e_stop (omega arith) v.2) in
      rw touch (
        rw (grown e new.offset x (omega arith) v.1 (inr o)) (
          r.0,
          omega arith,
          r.2,
          r.3,
          λ p.
              regroup (within p new) (within p x) (covers p xs) _ _
                (within-stretched p e new x e_stop (omega arith) near) (r.4 p),
          λ q. r.5 q.1,
        ))
]
