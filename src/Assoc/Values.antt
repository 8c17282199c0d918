-- ===== src/Assoc/Values.antt =====
-- Association lists with a function over their values.
use hecios.Assoc.{find, erase_key, assign}
use hecios.Prelude.{List, [], ◌∷◌, Option, none, some, ◌≡◌, refl, arith}

module _ {ℓ} {K V W : Type ℓ} where
  abbrev pub map_values : (V → W) → List (K × V) → List (K × W)
  map_values f [] = []
  map_values f ((k, v) ∷ m) = (k, f v) ∷ map_values f m

abbrev pub map_found {ℓ} : {V W : Type ℓ} → (V → W) → Option V → Option W
map_found f none = none
map_found f (some v) = some (f v)

module _ {ℓ} {K V W : Type ℓ} (dec : Discrete K) (f : V → W) where
  pub find-map_values :
      (k : K) (m : List (K × V)) → find dec k (map_values f m) ≡ map_found f (find dec k m)
  unfolding find
  find-map_values k [] = refl
  find-map_values k ((j, v) ∷ m) = ground (arith, find-map_values k m)

  pub erase_key-map_values :
      (k : K) (m : List (K × V))
      → erase_key dec k (map_values f m) ≡ map_values f (erase_key dec k m)
  unfolding erase_key
  erase_key-map_values k [] = refl
  erase_key-map_values k ((j, v) ∷ m) = ground (arith, erase_key-map_values k m)

  pub assign-map_values :
      (k : K) (v : V) (m : List (K × V))
      → assign dec k (f v) (map_values f m) ≡ map_values f (assign dec k v m)
  unfolding assign
  assign-map_values k v [] = refl
  assign-map_values k v ((j, u) ∷ m) = ground (arith, assign-map_values k v m)
