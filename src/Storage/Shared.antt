-- ===== src/Storage/Shared.antt =====
-- addFile gives a file only as many blocks as its size has whole ones: what that does to the next file.
use native.Mathlib.Nat.{div-add-mod', mod-lt, mod-eq_of_lt, div-eq_of_lt}
use hecios.Assoc.{find}
use hecios.RegionSet.{FileRegion}
use hecios.Storage.{StorageLayout, get_file_data_blocks, add_file}
use hecios.Storage.Words.{div_unique, touched_blocks, to_block_end}
use hecios.Storage.Blocks.{overrun, get_file_data_blocks_lem}
use hecios.Storage.Allocation.{file, add_all, find-add_all}
use hecios.Prelude.{
  ℕ, zero, suc, ◌+◌, ◌-◌, ◌*◌, ◌/◌, ◌%◌, ◌<◌, min, [], ◌∷◌, some, ◌≡◌, ◌≢◌, ◌∙◌, ap, arith,
  if◌then◌else◌, leb, u64_mod, offset_limit,
}

abbrev pub one_byte : ℕ → FileRegion
one_byte offset = record { offset = offset; extent = 1 }

abbrev overrun_by : ℕ → ℕ → ℕ
overrun_by size p = if leb size (min 1 p + (1 - min 1 p) % size) then 1 else 0

no_overrun : (size p : ℕ) → 1 < size → overrun_by size p ≡ 0
no_overrun size zero h = rw (mod-eq_of_lt {n = 1} {m = size} h) (ground arith)
no_overrun size (suc p) h =
    let one : min 1 (suc p) ≡ 1 = omega arith in
    rw (one, mod-eq_of_lt {n = 0} {m = size} (omega arith)) (ground arith)

one_byte_count :
    (size offset : ℕ) → 1 < size → touched_blocks size offset 1 + overrun size offset 1 ≡ 1
one_byte_count size offset h =
    let same : offset + 1 - 1 ≡ offset = omega arith in
    rw (no_overrun size (to_block_end size offset) h, same) (omega arith)

-- The block of the last byte before a number that is not a multiple.
last_whole : (size n : ℕ) → 0 < n % size → 1 < size → (n - 1) / size ≡ n / size
last_whole size n h k =
    let split = div-add-mod' n size in
    let below = mod-lt n {m = size} (omega arith) in
    ap (λ x. x / size) {x = n - 1} {y = n / size * size + (n % size - 1)} (omega arith)
    ∙ div_unique (n / size) size (n % size - 1) (omega arith)

module _ {K : Type 0} (dec : Discrete K) where
  -- Where a file is added whose size is not a multiple of the block size, and then another file,
  -- the last byte of the first file is in the first block of the second: the first file has blocks
  -- for its whole blocks only. The block size divides 2 ^ 64, and the blocks and the size are
  -- small enough not to wrap.
  pub files_share_block :
      (s : StorageLayout K) (a b : K) (m n k : ℕ)
      → suc m * s.fs_block_size ≡ u64_mod
      → 1 < s.fs_block_size
      → a ≢ b
      → 0 < n % s.fs_block_size
      → n + 3 < offset_limit
      → s.next_data_block + n / s.fs_block_size < offset_limit
      → (block : ℕ) × (get_file_data_blocks dec
            (add_all dec s (file a n ∷ file b k ∷ []))
            a
            (one_byte (n - 1) ∷ [])
          ≡ some (block ∷ []))
        × (get_file_data_blocks dec (add_all dec s (file a n ∷ file b k ∷ [])) b (one_byte 0 ∷ [])
            ≡ some (block ∷ []))
  unfolding add_file
  files_share_block s a b m n k whole h other part small room =
      let s' = add_all dec s (file a n ∷ file b k ∷ []) in
      let size = s.fs_block_size in
      let next = s.next_data_block in
      let first_a : find dec a s'.data_blocks ≡ some next =
        find-add_all dec s [] (file a n) (file b k ∷ []) (other, tt) (omega arith)
        ∙ ap some (omega arith) in
      let first_b : find dec b s'.data_blocks ≡ some (next + n / size) =
        find-add_all dec s (file a n ∷ []) (file b k) [] tt (omega arith) ∙ ap some (omega arith) in
      (
        next + n / size,
        get_file_data_blocks_lem dec s' a m next (one_byte (n - 1) ∷ []) whole first_a (omega arith)
              ((omega arith), tt)
            ∙ rw (one_byte_count size (n - 1) h, last_whole size n part h),
        get_file_data_blocks_lem dec s' b m (next + n / size) (one_byte 0 ∷ []) whole first_b room
              ((omega arith), tt)
            ∙ rw (one_byte_count size 0 h, div-eq_of_lt {n = 0} {m = size} (omega arith))
                (ap (λ x. some (x ∷ [])) (omega arith)),
      )
