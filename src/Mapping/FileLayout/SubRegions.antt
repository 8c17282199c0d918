-- ===== src/Mapping/FileLayout/SubRegions.antt =====
-- src/layout/data_type_layout.cc, getSubRegions: it returns, and what it returns.
use hecios.RegionSet.{FileRegion}
use hecios.DataType.Total.{total}
use hecios.Mapping.FileLayout.{
  get_length, length_from, find_first, take_rest, cut_from, get_sub_regions,
}
use hecios.Prelude.{
  ℕ, ◌+◌, ◌-◌, ◌≤◌, ◌<◌, min, true, false, List, [], ◌∷◌, none, some, ◌≡◌, refl, ◌∙◌, arith, ltb,
  leb, dec_lt, add_u64, add_u64_small, sub_u64, sub_u64_small, u64_mod,
}

length_from-total :
    (size : ℕ) (xs : List FileRegion)
    → size + total xs < u64_mod
    → length_from size xs ≡ size + total xs
unfolding length_from
length_from-total size [] h = omega arith
length_from-total size (x ∷ xs) h =
    rw (add_u64_small size x.extent (omega arith))
      (omega (arith, length_from-total (size + x.extent) xs (omega arith)))

-- What the second loop gives.
abbrev TakesRest : ℕ → ℕ → List FileRegion → Type 0
TakesRest assigned byte_length xs =
    (regions : List FileRegion) × (take_rest assigned byte_length xs ≡ some regions)
    × (total regions ≡ byte_length - assigned)

take_rest-TakesRest :
    (assigned byte_length : ℕ) (xs : List FileRegion)
    → assigned ≤ byte_length
    → byte_length < u64_mod
    → byte_length ≤ assigned + total xs
    → TakesRest assigned byte_length xs
unfolding take_rest
take_rest-TakesRest assigned byte_length [] h k l =
    let test : ltb assigned byte_length ≡ false = ground arith in ([], rw test, omega arith)
take_rest-TakesRest assigned byte_length (x ∷ xs) h k l = elim (dec_lt assigned byte_length) [
  | no e ↦ let test : ltb assigned byte_length ≡ false = ground arith in ([], rw test, omega arith)
  | yes e ↦
      let size = min x.extent (byte_length - assigned) in
      let test : ltb assigned byte_length ≡ true = ground arith in
      let room = sub_u64_small byte_length assigned h k in
      let (regions, run, sum) =
        take_rest-TakesRest (assigned + size) byte_length xs (omega arith) k (omega arith) in
      (
        record { offset = x.offset; extent = size } ∷ regions,
        rw (test, room, add_u64_small assigned size (omega arith), run) (rw room),
        omega arith,
      )
]

-- The region that the first loop stops at: the byte lies in it.
record Found (byte_offset processed : ℕ) (x : FileRegion) (xs : List FileRegion) : Type 0 where
  pub region : FileRegion
  pub reached : ℕ
  pub rest : List FileRegion
  pub run : find_first byte_offset processed x xs ≡ some (region, reached, rest)
  pub past : byte_offset < reached
  pub begun : reached ≤ byte_offset + region.extent
  pub sum : reached + total rest ≡ processed + total xs
  pub enough : region.extent ≤ reached

find_first-Found :
    (byte_offset processed : ℕ) (x : FileRegion) (xs : List FileRegion)
    → byte_offset < processed + total xs
    → processed + total xs < u64_mod
    → processed ≤ byte_offset + x.extent
    → x.extent ≤ processed
    → Found byte_offset processed x xs
unfolding find_first
find_first-Found byte_offset processed x [] h k b n =
    let test : leb processed byte_offset ≡ false = ground arith in
    record {
      region = x;
      reached = processed;
      rest = [];
      run = rw test;
      past = omega arith;
      begun = b;
      sum = refl;
      enough = n;
    }
find_first-Found byte_offset processed x (y ∷ ys) h k b n = elim (dec_lt byte_offset processed) [
  | yes e ↦
      let test : leb processed byte_offset ≡ false = ground arith in
      record {
        region = x;
        reached = processed;
        rest = y ∷ ys;
        run = rw test;
        past = e;
        begun = b;
        sum = refl;
        enough = n;
      }
  | no e ↦
      let test : leb processed byte_offset ≡ true = ground arith in
      let f =
        find_first-Found byte_offset (processed + y.extent) y ys (omega arith) (omega arith)
          (omega arith) (omega arith) in
      let sum = f.sum in
      record {
        region = f.region;
        reached = f.reached;
        rest = f.rest;
        run = rw (test, add_u64_small processed y.extent (omega arith), f.run);
        past = f.past;
        begun = f.begun;
        sum = omega arith;
        enough = f.enough;
      }
]

find_first-here :
    (byte_offset processed : ℕ) (x : FileRegion) (xs : List FileRegion)
    → byte_offset < processed
    → find_first byte_offset processed x xs ≡ some (x, processed, xs)
unfolding find_first
find_first-here byte_offset processed x [] h =
    let test : leb processed byte_offset ≡ false = ground arith in rw test
find_first-here byte_offset processed x (y ∷ ys) h =
    let test : leb processed byte_offset ≡ false = ground arith in rw test

get_sub_regions-cut :
    (x : FileRegion) (xs : List FileRegion) (byte_offset byte_length : ℕ)
    → byte_offset < total (x ∷ xs)
    → byte_offset + byte_length ≤ total (x ∷ xs)
    → total (x ∷ xs) < u64_mod
    → get_sub_regions (x ∷ xs) byte_offset byte_length
      ≡ elim (find_first byte_offset x.extent x xs) [
        | none ↦ none
        | some (y, processed, rest) ↦ cut_from byte_offset byte_length y processed rest
      ]
unfolding get_sub_regions get_length
get_sub_regions-cut x xs byte_offset byte_length h k m =
    let size : length_from 0 (x ∷ xs) ≡ total (x ∷ xs) =
      length_from-total 0 (x ∷ xs) (omega arith) ∙ omega arith in
    let begins : ltb byte_offset (total (x ∷ xs)) ≡ true = ground arith in
    let ends : leb (byte_offset + byte_length) (total (x ∷ xs)) ≡ true = ground arith in
    rw (size, add_u64_small byte_offset byte_length (omega arith), begins, ends)

-- getSubRegions of a layout, from a byte of it, of a length that it has from there on, returns
-- regions whose extents add up to the length asked for, if the layout is shorter than 2 ^ 64.
pub get_sub_regions-total :
    (layout : List FileRegion) (byte_offset byte_length : ℕ)
    → byte_offset < total layout
    → byte_offset + byte_length ≤ total layout
    → total layout < u64_mod
    → (regions : List FileRegion) × (get_sub_regions layout byte_offset byte_length ≡ some regions)
      × (total regions ≡ byte_length)
unfolding cut_from
get_sub_regions-total [] byte_offset byte_length h k m = absurd (omega arith)
get_sub_regions-total (x ∷ xs) byte_offset byte_length h k m =
    let f =
      find_first-Found byte_offset x.extent x xs (omega arith) m (omega arith) (omega arith) in
    let sum = f.sum in
    let begun = f.begun in
    let (regions, run, rest) =
      take_rest-TakesRest (min f.region.extent byte_length) byte_length f.rest (omega arith)
        (omega arith) (omega arith) in
    (
      record {
        offset = sub_u64 (add_u64 f.region.offset byte_offset) (sub_u64 f.reached f.region.extent);
        extent = min f.region.extent byte_length;
      }
          ∷ regions,
      rw (get_sub_regions-cut x xs byte_offset byte_length h k m, f.run, cut_from, run),
      omega arith,
    )

-- A read that begins inside the first region of a layout, is at least as long as the region and
-- ends within the layout gives the region's whole extent from the byte it begins at, so that it
-- runs past the region's end, where no sum reaches 2 ^ 64.
pub get_sub_regions_overruns :
    (x : FileRegion) (xs : List FileRegion) (byte_offset byte_length : ℕ)
    → 0 < byte_offset
    → byte_offset < x.extent
    → x.extent ≤ byte_length
    → byte_offset + byte_length ≤ total (x ∷ xs)
    → total (x ∷ xs) < u64_mod
    → x.offset + byte_offset < u64_mod
    → (rest : List FileRegion) × (get_sub_regions (x ∷ xs) byte_offset byte_length
        ≡ some (record { offset = x.offset + byte_offset; extent = x.extent } ∷ rest))
unfolding cut_from
get_sub_regions_overruns x xs byte_offset byte_length p h k l m n =
    let (regions, run, rest) =
      take_rest-TakesRest x.extent byte_length xs (omega arith) (omega arith) (omega arith) in
    let whole : min x.extent byte_length ≡ x.extent = omega arith in
    let none_before : sub_u64 x.extent x.extent ≡ 0 =
      sub_u64_small x.extent x.extent (omega arith) (omega arith) ∙ omega arith in
    let same : sub_u64 (x.offset + byte_offset) 0 ≡ x.offset + byte_offset =
      sub_u64_small (x.offset + byte_offset) 0 (omega arith) n ∙ omega arith in
    (
      regions,
      rw
          (
            get_sub_regions-cut x xs byte_offset byte_length (omega arith) l m,
            find_first-here byte_offset x.extent x xs h,
            cut_from,
            whole,
            run,
            none_before,
            add_u64_small x.offset byte_offset n,
            same,
          )
          (rw whole),
    )
