-- ===== src/Filename.antt =====
-- src/common/filename.cc: absolute paths without extra slashes. A character is its code.
pub mod Segments
pub mod Normal
pub mod Tests
use hecios.Prelude.{
  ℕ, zero, suc, ◌+◌, ◌-◌, Bool, true, false, not, ◌&&◌, List, [], ◌∷◌, ◌++◌, Option, none, some,
  length, take, if◌then◌else◌, ◌==◌, ltb,
}

-- '/'.
abbrev pub slash : ℕ
slash = 47

-- The loop of `initialize`: `path` is what has been pushed.
unfoldable pub remove_slashes : Bool → List ℕ → List ℕ → List ℕ
remove_slashes found path [] = path
remove_slashes found path (c ∷ cs) =
    let pushed = remove_slashes false (path ++ c ∷ []) cs in
    let parted = remove_slashes false (path ++ slash ∷ c ∷ []) cs in
    let skipped = remove_slashes true path cs in
    if c == slash then skipped else if found then parted else pushed

-- `initialize`, which also makes the root directory of a path of slashes only.
unfoldable pub initialize : List ℕ → List ℕ
initialize absolute_path = elim (remove_slashes false [] absolute_path) [
  | [] ↦ slash ∷ []
  | c ∷ cs ↦ c ∷ cs
]

-- The constructor from a string, with its assert.
unfoldable pub from_path : List ℕ → Option (List ℕ)
from_path [] = none
from_path (c ∷ cs) = if c == slash then some (initialize (c ∷ cs)) else none

-- getNumPathSegments.
unfoldable pub count_segments : Bool → ℕ → List ℕ → ℕ
count_segments found num [] = num
count_segments found num (c ∷ cs) =
    let begun = count_segments false (num + 1) cs in
    let passed = count_segments true num cs in
    let inside = count_segments found num cs in
    if found && not (c == slash) then begun else if c == slash then passed else inside

unfoldable pub get_num_path_segments : List ℕ → ℕ
get_num_path_segments [] = 1
get_num_path_segments (c ∷ cs) = if length (c ∷ cs) == 1 then 1 else count_segments true 1 cs

-- The loop of getSegment, from a place of the path: where the segment ends, and the whole path if it is
-- the last.
unfoldable pub find_segment : ℕ → ℕ → Bool → ℕ → ℕ → List ℕ → ℕ
find_segment seg_idx size found seg_cnt i [] = size
find_segment seg_idx size found seg_cnt i (c ∷ cs) =
    let begun = find_segment seg_idx size false (seg_cnt + 1) (i + 1) cs in
    let passed = find_segment seg_idx size true seg_cnt (i + 1) cs in
    let inside = find_segment seg_idx size found seg_cnt (i + 1) cs in
    if ((seg_cnt - 1) == seg_idx) && (c == slash)
    then i
    else if found && not (c == slash)
    then begun
    else if c == slash
    then passed
    else inside

-- getSegment, with its assert, and getParent.
unfoldable pub get_segment : List ℕ → ℕ → Option (List ℕ)
get_segment path zero = if ltb 0 (get_num_path_segments path) then from_path (take 1 path) else none
get_segment [] (suc idx) = none
get_segment (c ∷ cs) (suc idx) =
    let size = find_segment (suc idx) (length (c ∷ cs)) true 1 1 cs in
    if ltb (suc idx) (get_num_path_segments (c ∷ cs)) then from_path (take size (c ∷ cs)) else none

unfoldable pub get_parent : List ℕ → Option (List ℕ)
get_parent path =
    let num = get_num_path_segments path in if ltb 1 num then get_segment path (num - 2) else none
