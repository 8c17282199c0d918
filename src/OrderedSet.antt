-- ===== src/OrderedSet.antt =====
-- What the sources use of std::set and of its iterators: a list that ascends by the element
-- type's operator<, given here as the parameter `less`.
pub mod Laws
use hecios.Prelude.{Bool, List, [], ◌∷◌, ◌++◌, Option, none, some, if◌then◌else◌}

module _ {ℓ} {A : Type ℓ} (less : A → A → Bool) where
  -- set::insert: an element that is neither below nor above one of the set is not added.
  unfoldable pub set_insert : A → List A → List A
  set_insert a [] = a ∷ []
  set_insert a (x ∷ xs) =
      if less a x then a ∷ x ∷ xs else if less x a then x ∷ set_insert a xs else x ∷ xs

  -- set::upper_bound: the elements before the iterator, and those from it on.
  unfoldable pub upper_bound : A → List A → List A × List A
  upper_bound a [] = ([], [])
  upper_bound a (x ∷ xs) =
      let (low, high) = upper_bound a xs in if less a x then ([], x ∷ xs) else (x ∷ low, high)

-- The element before an iterator, `--it`, and what stands before that; `none` at begin().
unfoldable pub split_last {ℓ} : {A : Type ℓ} → List A → Option (List A × A)
split_last [] = none
split_last (x ∷ xs) = elim (split_last xs) [
  | none ↦ some ([], x)
  | some (front, last) ↦ some (x ∷ front, last)
]
