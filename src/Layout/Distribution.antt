-- ===== src/Layout/Distribution.antt =====
-- src/layout/file_distribution.cc and src/layout/basic_distribution.h: the methods of a FileDistribution for
-- its own object, and the distribution over one object.
use hecios.Prelude.{ℕ, Bool, ltb}

-- The virtual methods of FileDistribution, each over the index of an object and an offset, and the
-- two members that the constructor sets.
pub record FileDistribution : Type 0 where
  pub object_idx : ℕ
  pub num_objects : ℕ
  pub convert_logical_to_physical_offset : ℕ → ℕ → ℕ
  pub convert_physical_to_logical_offset : ℕ → ℕ → ℕ
  pub get_next_mapped_logical_offset : ℕ → ℕ → ℕ
  pub get_contiguous_length : ℕ → ℕ → ℕ

-- The constructor's assert.
unfoldable pub is_constructed : FileDistribution → Bool
is_constructed d = ltb d.object_idx d.num_objects

unfoldable pub logical_to_physical_offset : FileDistribution → ℕ → ℕ
logical_to_physical_offset d logical = d.convert_logical_to_physical_offset d.object_idx logical

unfoldable pub physical_to_logical_offset : FileDistribution → ℕ → ℕ
physical_to_logical_offset d physical = d.convert_physical_to_logical_offset d.object_idx physical

unfoldable pub next_mapped_logical_offset : FileDistribution → ℕ → ℕ
next_mapped_logical_offset d logical = d.get_next_mapped_logical_offset d.object_idx logical

unfoldable pub contiguous_length : FileDistribution → ℕ → ℕ
contiguous_length d physical = d.get_contiguous_length d.object_idx physical

-- BasicDistribution::CONTIGUOUS_SIZE.
abbrev pub contiguous_size : ℕ
contiguous_size = 65536

unfoldable pub basic_distribution : FileDistribution
basic_distribution = record {
  object_idx = 0;
  num_objects = 1;
  convert_logical_to_physical_offset = λ idx logical. logical;
  convert_physical_to_logical_offset = λ idx physical. physical;
  get_next_mapped_logical_offset = λ idx logical. logical;
  get_contiguous_length = λ idx physical. contiguous_size;
}
