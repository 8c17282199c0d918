-- ===== src/DataType/Total.antt =====
-- src/common/vector_data_type.cc, the loop of getRegionsByBytes: where it goes, and what it adds up to.
use native.Mathlib.Nat.{
  le-mul_of_pos_right, mul-mod_left, mul-div_cancel, mul-le-mul_right, mod-lt, div-add-mod',
}
use hecios.RegionSet.{FileRegion}
use hecios.DataType.Loops.{vector_piece, vector_loop}
use hecios.Prelude.{
  ℕ, zero, suc, ◌+◌, ◌-◌, ◌*◌, ◌/◌, ◌≤◌, ◌<◌, min, true, false, List, [], ◌∷◌, ◌++◌, Option, some,
  ◌≡◌, refl, ◌∙◌, arith, ltb, add_u64, add_u64_small, sub_u64, sub_u64_small, mul_u64_small,
  u64_mod, dec_lt,
}

-- The sum of the extents, with no wrap.
abbrev pub total : List FileRegion → ℕ
total [] = 0
total (x ∷ xs) = x.extent + total xs

total-append : (xs ys : List FileRegion) → total (xs ++ ys) ≡ total xs + total ys
total-append [] ys = omega arith
total-append (x ∷ xs) ys = omega (arith, total-append xs ys)

-- A way to read a type that returns, with regions that add up to the bytes asked for, wherever a
-- read begins at most at `last` and is no longer than `longest`.
abbrev pub IsExact : (ℕ → ℕ → Option (List FileRegion)) → ℕ → ℕ → Type 0
IsExact read last longest =
    (start size : ℕ)
    → start ≤ last
    → size ≤ longest
    → (regions : List FileRegion) × (read start size ≡ some regions) × (total regions ≡ size)

vector_piece-aligned :
    (stride block q : ℕ) → vector_piece stride block (q * stride) ≡ (q * stride, block)
unfolding vector_piece
vector_piece-aligned stride block q = rw (mul-mod_left q stride)

vector_piece-le :
    (stride block current : ℕ)
    → 0 < stride
    → current + stride < u64_mod
    → (vector_piece stride block current).0 ≤ current + stride
unfolding vector_piece add_u64 sub_u64
vector_piece-le stride block current s h =
    let inside = mod-lt current {m = stride} s in ground arith

module _ (old : ℕ → ℕ → Option (List FileRegion)) (stride block num_bytes : ℕ) where
  vector_loop-finish :
      (fuel processed current : ℕ) (regions : List FileRegion)
      → num_bytes ≤ processed
      → vector_loop old stride block num_bytes (suc fuel) processed current regions ≡ some regions
  unfolding vector_loop
  vector_loop-finish fuel processed current regions h =
      let test : ltb processed num_bytes ≡ false = ground arith in rw test

  vector_loop-step :
      (fuel processed current start left : ℕ) (regions elements : List FileRegion)
      → vector_piece stride block current ≡ (start, left)
      → processed < num_bytes
      → num_bytes < u64_mod
      → old start (min left (num_bytes - processed)) ≡ some elements
      → (start / stride + 1) * stride < u64_mod
      → start / stride + 1 < u64_mod
      → vector_loop old stride block num_bytes (suc fuel) processed current regions
        ≡ vector_loop old stride block num_bytes fuel
            (processed + min left (num_bytes - processed))
            ((start / stride + 1) * stride)
            (regions ++ elements)
  unfolding vector_loop
  vector_loop-step fuel processed current start left regions elements piece h k read l m =
      let test : ltb processed num_bytes ≡ true = ground arith in
      let room : sub_u64 num_bytes processed ≡ num_bytes - processed =
        sub_u64_small num_bytes processed (omega arith) k in
      rw (
        test,
        piece,
        room,
        read,
        add_u64_small processed (min left (num_bytes - processed)) (omega arith),
        add_u64_small (start / stride) 1 m,
        mul_u64_small (start / stride + 1) stride l,
      )

  -- From a multiple of the stride on, every round reads a block or what is left.
  vector_loop-aligned :
      (last longest : ℕ)
      → IsExact old last longest
      → 0 < block
      → 0 < stride
      → num_bytes ≤ longest
      → num_bytes < u64_mod
      → last < u64_mod
      → (fuel processed q : ℕ) (regions : List FileRegion) → num_bytes - processed < fuel
      → processed ≤ num_bytes
      → (q + (num_bytes - processed)) * stride ≤ last
      → (after : List FileRegion) × (vector_loop old stride block num_bytes fuel processed
            (q * stride)
            regions
          ≡ some after)
        × (total after ≡ total regions + (num_bytes - processed))
  vector_loop-aligned last longest exact b s n m z zero processed q regions f p l =
      absurd (omega arith)
  vector_loop-aligned last longest exact b s n m z (suc fuel) processed q regions f p l =
      elim (dec_lt processed num_bytes) [
        | no e ↦ (
          regions,
          vector_loop-finish fuel processed (q * stride) regions (omega arith),
          omega arith,
        )
        | yes e ↦
            let size = min block (num_bytes - processed) in
            let count_le = le-mul_of_pos_right {m = stride} (q + 1) s in
            let start_le =
              mul-le-mul_right {m = q} {n = q + (num_bytes - processed)} stride (omega arith) in
            let next_le =
              mul-le-mul_right {m = q + 1} {n = q + (num_bytes - processed)} stride (omega arith) in
            let later_le =
              mul-le-mul_right {m = q + 1 + (num_bytes - (processed + size))}
                {n = q + (num_bytes - processed)} stride (omega arith) in
            let (elements, read, size_eq) = exact (q * stride) size (omega arith) (omega arith) in
            let (after, run, sum) =
              vector_loop-aligned last longest exact b s n m z fuel (processed + size) (q + 1)
                (regions ++ elements) (omega arith) (omega arith) (omega arith) in
            (
              after,
              vector_loop-step fuel processed (q * stride) (q * stride) block regions elements
                    (vector_piece-aligned stride block q) e m read
                    (rw (mul-div_cancel q s) (omega arith)) (rw (mul-div_cancel q s) (omega arith))
                  ∙ rw (mul-div_cancel q s) run,
              omega (arith, total-append regions elements),
            )
      ]

  -- The first round reads the end of a block, or begins at the next stride.
  pub vector_loop-exact :
      (last longest : ℕ)
      → IsExact old last longest
      → 0 < block
      → 0 < stride
      → num_bytes ≤ longest
      → num_bytes < u64_mod
      → last < u64_mod
      → (fuel current : ℕ) → num_bytes + 1 < fuel
      → current + (num_bytes + 2) * stride ≤ last
      → (after : List FileRegion) × (vector_loop old stride block num_bytes fuel 0 current []
          ≡ some after)
        × (total after ≡ num_bytes)
  vector_loop-exact last longest exact b s n m z zero current f l = absurd (omega arith)
  vector_loop-exact last longest exact b s n m z (suc fuel) current f l =
      elim (dec_lt 0 num_bytes) [
        | no e ↦ ([], vector_loop-finish fuel 0 current [] (omega arith), omega arith)
        | yes e ↦
            let (start, left) = vector_piece stride block current in
            let size = min left (num_bytes - 0) in
            let begin_le = vector_piece-le stride block current s (omega arith) in
            let parts = div-add-mod' start stride in
            let q = start / stride + 1 in
            let count_le = le-mul_of_pos_right {m = stride} q s in
            let later_le =
              mul-le-mul_right {m = q + (num_bytes - (0 + size))} {n = q + num_bytes} stride
                (omega arith) in
            let (elements, read, size_eq) = exact start size (omega arith) (omega arith) in
            let (after, run, sum) =
              vector_loop-aligned last longest exact b s n m z fuel (0 + size) q ([] ++ elements)
                (omega arith) (omega arith) (omega arith) in
            (
              after,
              vector_loop-step fuel 0 current start left [] elements refl e m read (omega arith)
                    (omega arith)
                  ∙ run,
              omega arith,
            )
      ]
