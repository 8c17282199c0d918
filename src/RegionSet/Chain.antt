-- ===== src/RegionSet/Chain.antt =====
-- Well-formed region sets: ascending, apart from one another, and short of the largest offset.
use hecios.OrderedSet.Laws.{FirstAbove, AllBelow}
use hecios.RegionSet.{FileRegion, less, region_end}
use hecios.Prelude.{
  ℕ, ◌+◌, ◌≤◌, ◌<◌, Bool, true, false, ◌&&◌, ◌||◌, List, [], ◌∷◌, ◌++◌, ◌≡◌, refl, arith, leb, ltb,
  lt_i64, add_u64, offset_limit,
}

-- The true end of a region, with no wrap.
abbrev pub stop : FileRegion → ℕ
stop r = r.offset + r.extent

-- Regions between two offsets, each with a gap of a byte at least behind the one before.
abbrev pub Chain : ℕ → List FileRegion → ℕ → Type 0
Chain lo [] hi = Unit {0}
Chain lo (x ∷ xs) hi = (lo ≤ x.offset) × (stop x < hi) × Chain (stop x + 1) xs hi

abbrev pub IsValid : List FileRegion → Type 0
IsValid regions = Chain 0 regions offset_limit

-- The byte at a file offset lies in the region, and in one of the regions.
abbrev pub within : ℕ → FileRegion → Bool
within p r = leb r.offset p && ltb p (stop r)

abbrev pub covers : ℕ → List FileRegion → Bool
covers p [] = false
covers p (x ∷ xs) = within p x || covers p xs

pub covers_before :
    (p lo hi : ℕ) (xs : List FileRegion) → Chain lo xs hi → p < lo → covers p xs ≡ false
covers_before p lo hi [] c h = refl
covers_before p lo hi (x ∷ xs) c h =
    let rest = covers_before p (stop x + 1) hi xs c.2 (omega arith) in rw rest (ground arith)

-- No region is empty.
abbrev pub AllPositive : List FileRegion → Type 0
AllPositive [] = Unit {0}
AllPositive (x ∷ xs) = (0 < x.extent) × AllPositive xs

pub AllPositive-append :
    (xs ys : List FileRegion) → AllPositive xs → AllPositive ys → AllPositive (xs ++ ys)
AllPositive-append [] ys h k = k
AllPositive-append (x ∷ xs) ys h k = (h.0, AllPositive-append xs ys h.1 k)

pub AllPositive-split :
    (xs ys : List FileRegion) → AllPositive (xs ++ ys) → AllPositive xs × AllPositive ys
AllPositive-split [] ys h = (tt, h)
AllPositive-split (x ∷ xs) ys h = let r = AllPositive-split xs ys h.1 in ((h.0, r.0), r.1)

pub region_end-stop : (r : FileRegion) → stop r < offset_limit → region_end r ≡ stop r
unfolding region_end add_u64
region_end-stop r h = omega arith

pub covers-append :
    (p : ℕ) (xs ys : List FileRegion) → covers p (xs ++ ys) ≡ (covers p xs || covers p ys)
covers-append p [] ys = refl
covers-append p (x ∷ xs) ys = ground (arith, covers-append p xs ys)

pub Chain-weaken :
    (lo lo' hi : ℕ) (xs : List FileRegion) → lo' ≤ lo → Chain lo xs hi → Chain lo' xs hi
Chain-weaken lo lo' hi [] h c = tt
Chain-weaken lo lo' hi (x ∷ xs) h c = (omega arith, c.1, c.2)

pub Chain-append :
    (lo m hi : ℕ) (xs ys : List FileRegion)
    → lo ≤ m
    → m ≤ hi
    → Chain lo xs m
    → Chain m ys hi
    → Chain lo (xs ++ ys) hi
Chain-append lo m hi [] ys h k c d = Chain-weaken m lo hi ys h d
Chain-append lo m hi (x ∷ xs) ys h k c d =
    (c.0, omega arith, Chain-append (stop x + 1) m hi xs ys (omega arith) k c.2 d)

-- The regions before one of the set end below its offset.
pub Chain-front :
    (lo hi : ℕ) (xs : List FileRegion) (y : FileRegion) (ys : List FileRegion)
    → Chain lo (xs ++ y ∷ ys) hi
    → Chain lo xs y.offset × (lo ≤ y.offset) × (stop y < hi) × Chain (stop y + 1) ys hi
Chain-front lo hi [] y ys c = (tt, c.0, c.1, c.2)
Chain-front lo hi (x ∷ xs) y ys c =
    let r = Chain-front (stop x + 1) hi xs y ys c.2 in
    ((c.0, omega arith, r.0), omega arith, r.2, r.3)

pub Chain-front_stop :
    (lo hi b : ℕ) (xs : List FileRegion) (y : FileRegion)
    → Chain lo (xs ++ y ∷ []) hi
    → stop y < b
    → Chain lo (xs ++ y ∷ []) b
Chain-front_stop lo hi b [] y c h = (c.0, h, tt)
Chain-front_stop lo hi b (x ∷ xs) y c h =
    let r = Chain-front (stop x + 1) hi xs y [] c.2 in
    (c.0, omega arith, Chain-front_stop (stop x + 1) hi b xs y c.2 h)

pub Chain-split :
    (lo hi : ℕ) (xs ys : List FileRegion) → Chain lo (xs ++ ys) hi → Chain lo xs hi × Chain lo ys hi
Chain-split lo hi [] ys c = (tt, c)
Chain-split lo hi (x ∷ xs) ys c =
    let r = Chain-split (stop x + 1) hi xs ys c.2 in
    ((c.0, c.1, r.0), Chain-weaken (stop x + 1) lo hi ys (omega arith) r.1)

-- What the proofs need of the order of a set of regions.
pub record OffsetOrder (lt : FileRegion → FileRegion → Bool) : Type 0 where
  pub strict :
      (a b : FileRegion)
      → a.offset < b.offset
      → b.offset < offset_limit
      → (lt a b ≡ true) × (lt b a ≡ false)
  pub of_less :
      (a b : FileRegion)
      → a.offset < offset_limit
      → b.offset < offset_limit
      → lt a b ≡ true
      → a.offset ≤ b.offset
  pub of_not_less :
      (a b : FileRegion)
      → a.offset < offset_limit
      → b.offset < offset_limit
      → lt a b ≡ false
      → b.offset ≤ a.offset

pub less-OffsetOrder : OffsetOrder less
unfolding less lt_i64
less-OffsetOrder = record {
  strict = λ a b h k. ground arith;
  of_less = λ a b h k e. ground arith;
  of_not_less = λ a b h k e. ground arith;
}

module _ (lt : FileRegion → FileRegion → Bool) (o : OffsetOrder lt) where
  pub Chain-AllBelow :
      (lo : ℕ) (a : FileRegion) (xs : List FileRegion)
      → a.offset < offset_limit
      → Chain lo xs a.offset
      → AllBelow lt a xs
  Chain-AllBelow lo a [] h c = tt
  Chain-AllBelow lo a (x ∷ xs) h c =
      let r = o.strict x a (omega arith) h in (r.0, r.1, Chain-AllBelow (stop x + 1) a xs h c.2)

  pub Chain-FirstAbove :
      (lo : ℕ) (a : FileRegion) (xs : List FileRegion)
      → a.offset < lo
      → Chain lo xs offset_limit
      → FirstAbove lt a xs
  Chain-FirstAbove lo a [] h c = tt
  Chain-FirstAbove lo a (x ∷ xs) h c = (o.strict a x (omega arith) (omega arith)).0
