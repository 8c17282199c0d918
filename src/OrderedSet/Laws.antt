-- ===== src/OrderedSet/Laws.antt =====
-- How the searches and insertions of the ordered list split it.
use hecios.Prelude.{
  Bool, true, false, List, [], ◌∷◌, ◌++◌, none, some, ◌≡◌, refl, ◌⊎◌, inl, inr, ap, Bool-cases,
}
use hecios.OrderedSet.{set_insert, upper_bound, split_last}

module _ {ℓ} {A : Type ℓ} (less : A → A → Bool) (a : A) where
  abbrev pub NoneAbove : List A → Type 0
  NoneAbove [] = Unit {0}
  NoneAbove (x ∷ xs) = (less a x ≡ false) × NoneAbove xs

  abbrev pub FirstAbove : List A → Type 0
  FirstAbove [] = Unit {0}
  FirstAbove (x ∷ xs) = less a x ≡ true

  abbrev pub AllBelow : List A → Type 0
  AllBelow [] = Unit {0}
  AllBelow (x ∷ xs) = (less x a ≡ true) × (less a x ≡ false) × AllBelow xs

  abbrev pub Splits : List A → List A × List A → Type ℓ
  Splits xs (low, high) = (low ++ high ≡ xs) × NoneAbove low × FirstAbove high

  pub upper_bound-Splits : (xs : List A) → Splits xs (upper_bound less a xs)
  unfolding upper_bound
  upper_bound-Splits [] = (refl, tt, tt)
  upper_bound-Splits (x ∷ xs) = elim (Bool-cases (less a x)) [
    | inl above ↦ rw above (refl, tt, above)
    | inr below ↦
        let (whole, low, high) = upper_bound-Splits xs in
        rw below (ap (◌∷◌ x) whole, (below, low), high)
  ]

  pub upper_bound-append :
      (low high : List A)
      → NoneAbove low
      → FirstAbove high
      → upper_bound less a (low ++ high) ≡ (low, high)
  unfolding upper_bound
  upper_bound-append [] [] n f = refl
  upper_bound-append [] (x ∷ xs) n f = rw f
  upper_bound-append (y ∷ low) high n f = rw (n.0, upper_bound-append low high n.1 f)

  pub set_insert-append :
      (low high : List A)
      → AllBelow low
      → FirstAbove high
      → set_insert less a (low ++ high) ≡ low ++ a ∷ high
  unfolding set_insert
  set_insert-append [] [] n f = refl
  set_insert-append [] (x ∷ xs) n f = rw f
  set_insert-append (y ∷ low) high n f = rw (n.1, n.0, set_insert-append low high n.2 f)

  pub NoneAbove-front :
      (low : List A) (x : A) → NoneAbove (low ++ x ∷ []) → NoneAbove low × (less a x ≡ false)
  NoneAbove-front [] x n = (tt, n.0)
  NoneAbove-front (y ∷ low) x n = let r = NoneAbove-front low x n.1 in ((n.0, r.0), r.1)

-- Either the list is empty, or it splits before its last element.
pub split_last-cases {ℓ} :
    {A : Type ℓ} (xs : List A)
    → ((xs ≡ []) × (split_last xs ≡ none))
      ⊎ ((front : List A) × (last : A) × (xs ≡ front ++ last ∷ [])
          × (split_last xs ≡ some (front, last)))
unfolding split_last
split_last-cases [] = inl (refl, refl)
split_last-cases (x ∷ xs) = elim (split_last-cases xs) [
  | inl (e, none_) ↦ inr ([], x, ap (◌∷◌ x) e, rw none_)
  | inr (front, last, e, some_) ↦ inr (x ∷ front, last, ap (◌∷◌ x) e, rw some_)
]

pub split_last-snoc {ℓ} :
    {A : Type ℓ} (front : List A) (last : A) → split_last (front ++ last ∷ []) ≡ some (front, last)
unfolding split_last
split_last-snoc [] last = refl
split_last-snoc (x ∷ front) last = rw (split_last-snoc front last)
