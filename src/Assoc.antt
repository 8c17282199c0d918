-- ===== src/Assoc.antt =====
-- Maps with unique keys as association lists, which stand for the sources' std::map. The order of
-- the entries carries no meaning.
pub mod Laws
pub mod Values
use mathlib.Core.Logic.{ite}
use hecios.Prelude.{Bool, true, false, List, [], ◌∷◌, Option, none, some, map}

module _ {ℓ} {K V : Type ℓ} where
  abbrev pub keys : List (K × V) → List K
  keys = map (λ e. e.0)

module _ {ℓ} {K V : Type ℓ} (dec : Discrete K) where
  -- map::find, with `none` for end().
  unfoldable pub find : K → List (K × V) → Option V
  find k [] = none
  find k ((j, v) ∷ m) = ite (dec k j) (some v) (find k m)

  -- map::erase at the place that find gives.
  unfoldable pub erase_key : K → List (K × V) → List (K × V)
  erase_key k [] = []
  erase_key k ((j, v) ∷ m) = ite (dec k j) m ((j, v) ∷ erase_key k m)

  -- A write to the value at the place that find gives.
  unfoldable pub assign : K → V → List (K × V) → List (K × V)
  assign k v [] = []
  assign k v ((j, w) ∷ m) = ite (dec k j) ((j, v) ∷ m) ((j, w) ∷ assign k v m)

module _ {ℓ} {K : Type ℓ} (dec : Discrete K) where
  -- list::erase at the node that holds the key.
  unfoldable pub erase : K → List K → List K
  erase k [] = []
  erase k (j ∷ l) = ite (dec k j) l (j ∷ erase k l)
