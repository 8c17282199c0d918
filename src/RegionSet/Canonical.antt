-- ===== src/RegionSet/Canonical.antt =====
-- A well-formed set of regions is the only one with its bytes, so the order of insertions into a
-- FileRegionSet does not matter.
use hecios.RegionSet.{FileRegion, insert}
use hecios.RegionSet.Chain.{
  stop, Chain, IsValid, within, covers, AllPositive, Chain-weaken, covers_before,
}
use hecios.RegionSet.Insert.{insert-IsValid, covers-insert, insert-AllPositive}
use mathlib.Core.Bool.{true≢false}
use mathlib.Core.Path.{subst, ap₂}
use hecios.Prelude.{
  ℕ, ◌+◌, ◌≤◌, ◌<◌, Bool, true, false, ◌||◌, List, [], ◌∷◌, ◌≡◌, refl, sym, ◌∙◌, arith, dec_lt,
  offset_limit,
}

abbrev SameBytes : List FileRegion → List FileRegion → Type 0
SameBytes xs ys = (p : ℕ) → covers p xs ≡ covers p ys

within_inside : (p : ℕ) (x : FileRegion) → x.offset ≤ p → p < stop x → within p x ≡ true
within_inside p x h k = ground arith

within_outside : (p : ℕ) (x : FileRegion) → (stop x ≤ p) → within p x ≡ false
within_outside p x h = ground arith

head_bytes :
    (p hi : ℕ) (x : FileRegion) (xs : List FileRegion)
    → Chain (stop x + 1) xs hi
    → p ≤ stop x
    → covers p (x ∷ xs) ≡ within p x
head_bytes p hi x xs c h = rw (covers_before p (stop x + 1) hi xs c (omega arith)) (ground arith)

-- The first regions of two sets with the same bytes begin and end together.
offset-le :
    (hi : ℕ) (x y : FileRegion) (xs ys : List FileRegion)
    → 0 < x.extent
    → Chain (stop x + 1) xs hi
    → Chain (y.offset) (y ∷ ys) hi
    → SameBytes (x ∷ xs) (y ∷ ys)
    → y.offset ≤ x.offset
offset-le hi x y xs ys pos c d same = elim (dec_lt x.offset y.offset) [
  | no p ↦ omega arith
  | yes p ↦
      let t = head_bytes x.offset hi x xs c (omega arith) in
      let u = within_inside x.offset x (omega arith) (omega arith) in
      let f = covers_before x.offset y.offset hi (y ∷ ys) d p in
      absurd (true≢false (sym u ∙ sym t ∙ same x.offset ∙ f))
]

stop-le :
    (hi : ℕ) (x y : FileRegion) (xs ys : List FileRegion)
    → x.offset ≡ y.offset
    → Chain (stop x + 1) xs hi
    → Chain (stop y + 1) ys hi
    → SameBytes (x ∷ xs) (y ∷ ys)
    → stop y ≤ stop x
stop-le hi x y xs ys e c d same = elim (dec_lt (stop x) (stop y)) [
  | no p ↦ omega arith
  | yes p ↦
      let t = head_bytes (stop x) hi x xs c (omega arith) in
      let u = within_outside (stop x) x (omega arith) in
      let f = head_bytes (stop x) hi y ys d (omega arith) in
      let w = within_inside (stop x) y (omega arith) p in
      absurd (true≢false (sym w ∙ sym f ∙ sym (same (stop x)) ∙ t ∙ u))
]

tail_bytes :
    (p hi : ℕ) (x : FileRegion) (xs ys : List FileRegion)
    → Chain (stop x + 1) xs hi
    → Chain (stop x + 1) ys hi
    → SameBytes (x ∷ xs) (x ∷ ys)
    → covers p xs ≡ covers p ys
tail_bytes p hi x xs ys c d same = elim (dec_lt p (stop x + 1)) [
  | yes h ↦ covers_before p (stop x + 1) hi xs c h ∙ sym (covers_before p (stop x + 1) hi ys d h)
  | no h ↦ rw (within_outside p x (omega arith)) at (same p)
]

canonical :
    (hi lo : ℕ) (xs ys : List FileRegion)
    → Chain lo xs hi
    → Chain lo ys hi
    → AllPositive xs
    → AllPositive ys
    → SameBytes xs ys
    → xs ≡ ys
canonical hi lo [] [] c d p q same = refl
canonical hi lo [] (y ∷ ys) c d p q same = absurd (
    true≢false (
      sym (within_inside y.offset y (omega arith) (omega arith))
      ∙ sym (head_bytes y.offset hi y ys d.2 (omega arith))
      ∙ sym (same y.offset)))
canonical hi lo (x ∷ xs) [] c d p q same = absurd (
    true≢false (
      sym (within_inside x.offset x (omega arith) (omega arith))
      ∙ sym (head_bytes x.offset hi x xs c.2 (omega arith))
      ∙ same x.offset))
canonical hi lo (x ∷ xs) (y ∷ ys) c d p q same =
    let h = offset-le hi x y xs ys p.0 c.2 (omega arith, d.1, d.2) same in
    let k = offset-le hi y x ys xs q.0 d.2 (omega arith, c.1, c.2) (λ t. sym (same t)) in
    let off : x.offset ≡ y.offset = omega arith in
    let m = stop-le hi x y xs ys off c.2 d.2 same in
    let n = stop-le hi y x ys xs (sym off) d.2 c.2 (λ t. sym (same t)) in
    let head : x ≡ y = ground arith in
    let d' = Chain-weaken (stop y + 1) (stop x + 1) hi ys (omega arith) d.2 in
    let same' = subst (λ z. SameBytes (x ∷ xs) (z ∷ ys)) (sym head) same in
    ap₂ ◌∷◌ head
      (canonical hi (stop x + 1) xs ys c.2 d' p.1 q.1 (λ t. tail_bytes t hi x xs ys c.2 d' same'))

-- Well-formed sets without empty regions that cover the same bytes are the same list of regions.
pub regions_unique :
    (xs ys : List FileRegion)
    → IsValid xs
    → IsValid ys
    → AllPositive xs
    → AllPositive ys
    → ((p : ℕ) → covers p xs ≡ covers p ys)
    → xs ≡ ys
regions_unique xs ys = canonical offset_limit 0 xs ys

swap_first : (a b c : Bool) → (a || (b || c)) ≡ (b || (a || c))
swap_first a b c = ground arith

-- The order of two insertions of regions that are not empty and end in bounds does not matter: into
-- a well-formed set without empty regions both orders build the same regions.
pub insert_comm :
    (a b : FileRegion) (regions : List FileRegion)
    → stop a < offset_limit
    → stop b < offset_limit
    → 0 < a.extent
    → 0 < b.extent
    → IsValid regions
    → AllPositive regions
    → insert a (insert b regions) ≡ insert b (insert a regions)
insert_comm a b regions ha hb pa pb v q =
    let va = insert-IsValid a regions ha v in
    let vb = insert-IsValid b regions hb v in
    let qa = insert-AllPositive a regions ha pa v q in
    let qb = insert-AllPositive b regions hb pb v q in
    regions_unique (insert a (insert b regions)) (insert b (insert a regions))
      (insert-IsValid a (insert b regions) ha vb) (insert-IsValid b (insert a regions) hb va)
      (insert-AllPositive a (insert b regions) ha pa vb qb)
      (insert-AllPositive b (insert a regions) hb pb va qa)
      λ p.
        rw
          (
            covers-insert p a (insert b regions) ha vb,
            covers-insert p b regions hb v,
            covers-insert p b (insert a regions) hb va,
            covers-insert p a regions ha v,
          )
          (swap_first (within p a) (within p b) (covers p regions))
