-- ===== src/Filename/Tests.antt =====
-- src/common/filename.cc: the theorems on the path "//a//bc/".
use hecios.Filename.{
  slash, remove_slashes, initialize, from_path, count_segments, get_num_path_segments, find_segment,
  get_segment, get_parent,
}
use hecios.Filename.Segments.{segments, canonical, initialize-canonical}
use hecios.Prelude.{ℕ, List, [], ◌∷◌, some, ◌≡◌, refl}

-- "/a//bc/".
abbrev after_slash : List ℕ
after_slash = slash ∷ 97 ∷ slash ∷ slash ∷ 98 ∷ 99 ∷ slash ∷ []

abbrev normal : List ℕ
normal = slash ∷ 97 ∷ slash ∷ 98 ∷ 99 ∷ []

path_runs :
    (from_path (slash ∷ after_slash) ≡ some normal)
    × (get_num_path_segments normal ≡ 3)
    × (get_segment normal 0 ≡ some (slash ∷ []))
    × (get_segment normal 2 ≡ some normal)
    × (get_parent normal ≡ some (slash ∷ 97 ∷ []))
unfolding from_path initialize remove_slashes get_num_path_segments count_segments get_segment
    find_segment get_parent
path_runs = (refl, refl, refl, refl, refl)

initialize-canonical_example : initialize (slash ∷ after_slash) ≡ canonical (segments after_slash)
initialize-canonical_example = initialize-canonical after_slash
