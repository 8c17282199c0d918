-- ===== src/MesiCache/View.antt =====
-- An LRUMesiCache seen as an LRUCache whose values carry the state and whose dirty bit tells the
-- modified entries, and the functions on maps through that view.
use hecios.Assoc.{find, erase_key, assign}
use hecios.LruCache.{Result, ok, no_such_entry, undefined, ◌>>=◌, Entry, LruCache}
use hecios.MesiCache.{State, EntryType, MesiCache, is_modified}
use hecios.Prelude.{Bool, List, [], ◌∷◌, Option, none, some, ◌≡◌, refl, arith, length}

module _ {ℓ} {V : Type ℓ} where
  abbrev pub view_entry : EntryType V → Entry (V × State)
  view_entry e = record { value = (e.data_value, e.state); is_dirty = is_modified e.state }

  unfoldable pub view_found : Option (EntryType V) → Option (Entry (V × State))
  view_found none = none
  view_found (some e) = some (view_entry e)

module _ {ℓ} {K V : Type ℓ} where
  unfoldable pub view_map : List (K × EntryType V) → List (K × Entry (V × State))
  view_map [] = []
  view_map ((k, e) ∷ m) = (k, view_entry e) ∷ view_map m

  abbrev pub view : MesiCache K V → LruCache K (V × State)
  view c = record {
    key_entry_map = view_map c.key_entry_map;
    lru_list = c.lru_list;
    max_entries = c.max_entries;
    num_dirty = c.num_modified_entries;
    num_entries = c.num_entries;
  }

unfoldable pub map_result {ℓ κ} : {A : Type ℓ} {B : Type κ} → (A → B) → Result A → Result B
map_result f (ok a) = ok (f a)
map_result f no_such_entry = no_such_entry
map_result f undefined = undefined

-- Two chains of calls agree if their first calls do and their ends do.
pub map_result-bind {ℓ κ ι θ} :
    {A : Type ℓ} {B : Type κ} {C : Type ι} {D : Type θ} (f : A → C) (h : B → D) (g : A → Result B)
    (g' : C → Result D) (r : Result A)
    → ((a : A) → map_result h (g a) ≡ g' (f a))
    → map_result h (r >>= g) ≡ map_result f r >>= g'
unfolding map_result
map_result-bind f h g g' (ok a) same = same a
map_result-bind f h g g' no_such_entry same = refl
map_result-bind f h g g' undefined same = refl

-- What a lookup reads of a value with a state.
module _ {ℓ} {V : Type ℓ} where
  abbrev pub value_beside {κ} : {A : Type κ} → A × (V × State) → A × V
  value_beside (a, (v, s)) = (a, v)

  abbrev pub state_beside {κ} : {A : Type κ} → A × (V × State) → A × State
  state_beside (a, (v, s)) = (a, s)

module _ {ℓ} {K V : Type ℓ} where
  -- A cache beside a value that a call returns.
  abbrev pub view_beside {κ} : {A : Type κ} → MesiCache K V × A → LruCache K (V × State) × A
  view_beside (c, a) = (view c, a)

  abbrev pub evicted_view : Option (K × V × State) → Option (K × (V × State) × Bool)
  evicted_view none = none
  evicted_view (some (k, v, s)) = some (k, (v, s), is_modified s)

  abbrev pub view_recall :
      MesiCache K V × Option (K × V × State)
      → LruCache K (V × State) × Option (K × (V × State) × Bool)
  view_recall (c, e) = (view c, evicted_view e)

module _ {ℓ} {K V : Type ℓ} (dec : Discrete K) where
  pub find-view_map :
      (k : K) (m : List (K × EntryType V)) → find dec k (view_map m) ≡ view_found (find dec k m)
  unfolding find view_map view_found
  find-view_map k [] = refl
  find-view_map k ((j, e) ∷ m) = ground (arith, find-view_map k m)

  pub erase_key-view_map :
      (k : K) (m : List (K × EntryType V))
      → erase_key dec k (view_map m) ≡ view_map (erase_key dec k m)
  unfolding erase_key view_map
  erase_key-view_map k [] = refl
  erase_key-view_map k ((j, e) ∷ m) = ground (arith, erase_key-view_map k m)

  pub assign-view_map :
      (k : K) (x : EntryType V) (m : List (K × EntryType V))
      → assign dec k (view_entry x) (view_map m) ≡ view_map (assign dec k x m)
  unfolding assign view_map
  assign-view_map k x [] = refl
  assign-view_map k x ((j, e) ∷ m) = ground (arith, assign-view_map k x m)

pub length-view_map {ℓ} :
    {K V : Type ℓ} (m : List (K × EntryType V)) → length (view_map m) ≡ length m
unfolding view_map
length-view_map [] = refl
length-view_map ((k, e) ∷ m) = ground (arith, length-view_map m)
