-- ===== src/Mapping/Processor/Extent.antt =====
-- src/layout/data_type_processor.cc, distributeContiguousRegion: the loop ends, and how far its last piece
-- goes.
use native.Mathlib.Nat.{mod-lt, div-add-mod'}
use hecios.RegionSet.{FileRegion}
use hecios.Layout.Distribution.{
  FileDistribution, logical_to_physical_offset, next_mapped_logical_offset, contiguous_length,
  contiguous_size, basic_distribution,
}
use hecios.Layout.Stripe.{
  Stripe, get_contiguous_length, convert_logical_to_physical_offset, stripe_distribution,
}
use hecios.Layout.Stripe.Round.{IsSound, stripe_size, strip_in_stripe}
use hecios.Layout.Stripe.Mapped.{get_next_mapped_logical_offset-IsMapped}
use hecios.Mapping.FileLayout.{add_region}
use hecios.Mapping.Processor.{add_piece, next_piece, distribute_loop, distribute_contiguous_region}
use hecios.Prelude.{
  ℕ, zero, suc, ◌+◌, ◌-◌, ◌≤◌, ◌<◌, min, Bool, true, false, List, [], ◌∷◌, ◌++◌, some, ◌≡◌, ◌∙◌,
  arith, ltb, dec_lt, add_u64_small, sub_u64, u64_mod, offset_limit,
}

-- Below `near` the pieces of a distribution are not empty and end below `far`, and below `far` the next
-- mapped offset is not before the one it is asked for.
pub record IsProgressive (dist : FileDistribution) (near far : ℕ) : Type 0 where
  pub bounded : far ≤ u64_mod
  pub onward : (l : ℕ) → l < far → l ≤ next_mapped_logical_offset dist l
  pub longer : (l : ℕ) → l < near → 0 < contiguous_length dist (logical_to_physical_offset dist l)
  pub shorter :
      (l : ℕ) → l < near → l + contiguous_length dist (logical_to_physical_offset dist l) < far

module _ (dist : FileDistribution) (bstream_size : ℕ) (data_extend : Bool) where
  distribute_loop-step :
      (offset extent fuel l : ℕ) (layout : List FileRegion)
      → offset + extent < u64_mod
      → l < offset + extent
      → distribute_loop dist offset extent bstream_size data_extend (suc fuel) l layout
        ≡ distribute_loop dist offset extent bstream_size data_extend fuel
            (next_piece dist l)
            (add_piece dist extent bstream_size data_extend l layout)
  unfolding distribute_loop
  distribute_loop-step offset extent fuel l layout h e =
      let end = add_u64_small offset extent h in
      let test : ltb l (offset + extent) ≡ true = ground arith in rw (end, test)

  distribute_loop-stop :
      (offset extent fuel l : ℕ) (layout : List FileRegion)
      → offset + extent < u64_mod
      → offset + extent ≤ l
      → distribute_loop dist offset extent bstream_size data_extend (suc fuel) l layout
        ≡ some layout
  unfolding distribute_loop
  distribute_loop-stop offset extent fuel l layout h e =
      let end = add_u64_small offset extent h in
      let test : ltb l (offset + extent) ≡ false = ground arith in rw (end, test)

module _ (dist : FileDistribution) (near far : ℕ) (p : IsProgressive dist near far)
    (bstream_size : ℕ) (data_extend : Bool) where
  next_piece-lt : (l : ℕ) → l < near → l < next_piece dist l
  unfolding next_piece
  next_piece-lt l h =
      let c = contiguous_length dist (logical_to_physical_offset dist l) in
      let longer = p.longer l h in
      let shorter = p.shorter l h in
      let bounded = p.bounded in
      let onward = p.onward (l + c) shorter in rw (add_u64_small l c (omega arith)) (omega arith)

  distribute_loop-returns :
      (offset extent fuel l : ℕ) (layout : List FileRegion)
      → offset + extent ≤ near
      → near < u64_mod
      → offset + extent - l < fuel
      → (after : List FileRegion) × (distribute_loop dist offset extent bstream_size data_extend
            fuel l layout
          ≡ some after)
  distribute_loop-returns offset extent zero l layout h k f = absurd (omega arith)
  distribute_loop-returns offset extent (suc fuel) l layout h k f =
      elim (dec_lt l (offset + extent)) [
        | no e ↦ (
          layout,
          distribute_loop-stop dist bstream_size data_extend offset extent fuel l layout
              (omega arith) (omega arith),
        )
        | yes e ↦
            let further = next_piece-lt l (omega arith) in
            let (after, run) =
              distribute_loop-returns offset extent fuel (next_piece dist l)
                (add_piece dist extent bstream_size data_extend l layout) h k (omega arith) in
            (
              after,
              distribute_loop-step dist bstream_size data_extend offset extent fuel l layout
                    (omega arith) e
                  ∙ run,
            )
      ]

  -- distributeContiguousRegion returns once its loop has more fuel than the extent, if the
  -- distribution is progressive at least up to the end of the region.
  pub distribute_contiguous_region-returns :
      (offset extent fuel : ℕ) (layout : List FileRegion)
      → offset + extent ≤ near
      → near < far
      → extent < fuel
      → (after : List FileRegion) × (distribute_contiguous_region dist offset extent bstream_size
            data_extend fuel layout
          ≡ some after)
  unfolding distribute_contiguous_region
  distribute_contiguous_region-returns offset extent fuel layout h k f =
      let bounded = p.bounded in
      let onward = p.onward offset (omega arith) in
      distribute_loop-returns offset extent fuel (next_mapped_logical_offset dist offset) layout h
        (omega arith) (omega arith)

get_contiguous_length-le :
    (s : Stripe) (idx p : ℕ)
    → 0 < s.strip_size
    → s.strip_size < offset_limit
    → (0 < get_contiguous_length s idx p) × (get_contiguous_length s idx p ≤ s.strip_size)
unfolding get_contiguous_length sub_u64
get_contiguous_length-le s idx p h k =
    let inside = mod-lt p {m = s.strip_size} h in (omega arith, omega arith)

-- The distribution of a stripe, with its own object among its objects and strips that are not
-- empty, is progressive up to three stripes short of the largest offset.
pub stripe_distribution-IsProgressive :
    (s : Stripe) (near : ℕ)
    → IsSound s s.server_idx
    → near + stripe_size s + stripe_size s + stripe_size s < offset_limit
    → IsProgressive (stripe_distribution s) near (near + stripe_size s + 1)
unfolding stripe_distribution logical_to_physical_offset next_mapped_logical_offset
    contiguous_length
stripe_distribution-IsProgressive s near sound h =
    let inside = strip_in_stripe s s.server_idx sound in
    let positive = sound.positive in
    record {
      bounded = omega arith;
      onward = λ l k.
          let parts = div-add-mod' l (stripe_size s) in
          (get_next_mapped_logical_offset-IsMapped s s.server_idx sound l (omega arith)).0;
      longer = λ l k. (get_contiguous_length-le s s.server_idx _ positive (omega arith)).0;
      shorter = λ l k.
          let most =
            (get_contiguous_length-le s s.server_idx
              (convert_logical_to_physical_offset s s.server_idx l) positive (omega arith)).1 in
          omega arith;
    }

-- One round over a file in one object: the whole of the contiguous size, or of a shorter region.
basic_distribution-round :
    (offset extent fuel l : ℕ) (layout : List FileRegion)
    → offset + extent < u64_mod
    → l < offset + extent
    → l + contiguous_size < u64_mod
    → distribute_loop basic_distribution offset extent 0 true (suc fuel) l layout
      ≡ distribute_loop basic_distribution offset extent 0 true fuel
          (l + contiguous_size)
          (layout ++ record { offset = l; extent = min contiguous_size extent } ∷ [])
unfolding basic_distribution logical_to_physical_offset next_mapped_logical_offset contiguous_length
    add_piece next_piece add_region
basic_distribution-round offset extent fuel l layout h k m =
    distribute_loop-step basic_distribution 0 true offset extent fuel l layout h k
    ∙ rw (add_u64_small l contiguous_size m)

-- Over the distribution on one object, a region longer than one contiguous size and shorter than
-- two, with room for two below 2 ^ 64, is laid out for a write as two whole ones: the last piece
-- is cut to the extent of the region, not to what is left of it, and runs past its end.
pub distribute_contiguous_region_overruns :
    (offset extent fuel : ℕ)
    → contiguous_size < extent
    → extent < contiguous_size + contiguous_size
    → offset + contiguous_size + contiguous_size < u64_mod
    → distribute_contiguous_region basic_distribution offset extent 0 true (suc (suc (suc fuel))) []
      ≡ some (
          record { offset = offset; extent = contiguous_size }
          ∷ record { offset = offset + contiguous_size; extent = contiguous_size }
          ∷ [])
unfolding distribute_contiguous_region basic_distribution next_mapped_logical_offset
distribute_contiguous_region_overruns offset extent fuel h k m =
    let whole : min contiguous_size extent ≡ contiguous_size = omega arith in
    basic_distribution-round offset extent (suc (suc fuel)) offset [] (omega arith) (omega arith)
      (omega arith)
    ∙ basic_distribution-round offset extent (suc fuel) (offset + contiguous_size) _ (omega arith)
        (omega arith) (omega arith)
    ∙ distribute_loop-stop basic_distribution 0 true offset extent fuel
        (offset + contiguous_size + contiguous_size) _ (omega arith) (omega arith)
    ∙ rw whole
