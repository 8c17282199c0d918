-- ===== src/Assoc/Laws.antt =====
-- The laws of finding, erasing and assigning.
use mathlib.Core.Logic.{ite, if_neg}
use hecios.Assoc.{keys, find, erase_key, assign, erase}
use hecios.Prelude.{◌+◌, List, [], ◌∷◌, ◌++◌, none, some, ◌≡◌, refl, arith, length}

module _ {ℓ} {K V : Type ℓ} (dec : Discrete K) where
  -- No key stands twice.
  abbrev pub Distinct : List (K × V) → Type ℓ
  Distinct [] = Unit
  Distinct ((j, v) ∷ m) = (find dec j m ≡ none) × Distinct m

  pub find-erase_key :
      (q k : K) (m : List (K × V))
      → Distinct m
      → find dec q (erase_key dec k m) ≡ ite (dec q k) none (find dec q m)
  unfolding find erase_key
  find-erase_key q k [] d = ground arith
  find-erase_key q k ((j, v) ∷ m) d = ground (arith, find-erase_key q k m d.1)

  pub find-assign :
      (q k : K) (v w : V) (m : List (K × V))
      → find dec k m ≡ some w
      → find dec q (assign dec k v m) ≡ ite (dec q k) (some v) (find dec q m)
  unfolding find assign
  find-assign q k v w [] h = ground arith
  find-assign q k v w ((j, u) ∷ m) h = ground (arith, find-assign q k v w m)

  pub Distinct-erase_key : (k : K) (m : List (K × V)) → Distinct m → Distinct (erase_key dec k m)
  unfolding erase_key
  Distinct-erase_key k [] d = tt
  Distinct-erase_key k ((j, v) ∷ m) d =
      ground (arith, find-erase_key j k m d.1, Distinct-erase_key k m d.1)

  pub Distinct-assign :
      (k : K) (v w : V) (m : List (K × V))
      → find dec k m ≡ some w
      → Distinct m
      → Distinct (assign dec k v m)
  unfolding assign find
  Distinct-assign k v w [] h d = tt
  Distinct-assign k v w ((j, u) ∷ m) h d =
      ground (arith, find-assign j k v w m, Distinct-assign k v w m)

  pub length-erase_key :
      (k : K) (v : V) (m : List (K × V))
      → find dec k m ≡ some v
      → length (erase_key dec k m) + 1 ≡ length m
  unfolding find erase_key
  length-erase_key k v [] h = ground arith
  length-erase_key k v ((j, u) ∷ m) h = ground (arith, length-erase_key k v m)

  pub length-assign : (k : K) (v : V) (m : List (K × V)) → length (assign dec k v m) ≡ length m
  unfolding assign
  length-assign k v [] = refl
  length-assign k v ((j, u) ∷ m) = ground (arith, length-assign k v m)

  pub keys-assign : (k : K) (v : V) (m : List (K × V)) → keys (assign dec k v m) ≡ keys m
  unfolding assign
  keys-assign k v [] = refl
  keys-assign k v ((j, u) ∷ m) = ground (arith, keys-assign k v m)

  pub keys-erase_key : (k : K) (m : List (K × V)) → erase dec k (keys m) ≡ keys (erase_key dec k m)
  unfolding erase erase_key
  keys-erase_key k [] = refl
  keys-erase_key k ((j, v) ∷ m) = ground (arith, keys-erase_key k m)

  pub erase_key_absent : (k : K) (m : List (K × V)) → find dec k m ≡ none → erase_key dec k m ≡ m
  unfolding find erase_key
  erase_key_absent k [] h = refl
  erase_key_absent k ((j, v) ∷ m) h = ground (arith, erase_key_absent k m)

  -- The last entry of a map with distinct keys is found, and erased alone.
  pub find_last :
      (front : List (K × V)) (j : K) (v : V)
      → Distinct (front ++ (j, v) ∷ [])
      → (find dec j (front ++ (j, v) ∷ []) ≡ some v)
        × (erase_key dec j (front ++ (j, v) ∷ []) ≡ front)
  unfolding find erase_key
  find_last [] j v d = ground arith
  find_last ((i, u) ∷ front) j v d =
      let (found, alone) = find_last front j v d.1 in
      elim (dec j i) [
        | yes same ↦ absurd (ground arith)
        | no other ↦ (rw (if_neg _ other, found), rw (if_neg _ other, alone))
      ]
