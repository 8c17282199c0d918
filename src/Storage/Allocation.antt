-- ===== src/Storage/Allocation.antt =====
-- The blocks that FixedINodeStorageLayout gives to directories and files added one after another.
use mathlib.Core.Logic.{ite, if_pos, if_neg}
use hecios.Assoc.{find}
use hecios.Assoc.Laws.{find-assign}
use hecios.Storage.{StorageLayout, put, add_directory, add_file, num_directory_data_blocks}
use hecios.Prelude.{
  ℕ, ◌+◌, ◌/◌, ◌<◌, List, [], ◌∷◌, ◌++◌, some, ◌≡◌, ◌≢◌, refl, ◌∙◌, ap, arith, inl, inr,
  Option-cases, add_u64, add_u64_small, u64_mod,
}

-- A call of addDirectory or of addFile.
pub data Addition (K : Type 0) : Type 0 where
  directory : K → Addition K
  file : K → ℕ → Addition K

abbrev pub name_of : {K : Type 0} → Addition K → K
name_of (directory k) = k
name_of (file k n) = k

-- The data blocks that the call takes.
abbrev pub blocks_of : {K : Type 0} → ℕ → Addition K → ℕ
blocks_of size (directory k) = num_directory_data_blocks
blocks_of size (file k n) = n / size

abbrev pub total_blocks : {K : Type 0} → ℕ → List (Addition K) → ℕ
total_blocks size [] = 0
total_blocks size (a ∷ rest) = blocks_of size a + total_blocks size rest

-- No later call is for the name.
abbrev pub IsLast : {K : Type 0} → K → List (Addition K) → Type 0
IsLast k [] = Unit
IsLast k (a ∷ rest) = (k ≢ name_of a) × IsLast k rest

module _ {K : Type 0} (dec : Discrete K) where
  abbrev pub add : StorageLayout K → Addition K → StorageLayout K
  add s (directory k) = add_directory dec s k
  add s (file k n) = add_file dec s k n

  abbrev pub add_all : StorageLayout K → List (Addition K) → StorageLayout K
  add_all s [] = s
  add_all s (a ∷ rest) = add_all (add s a) rest

  find-put :
      (q k : K) (v : ℕ) (m : List (K × ℕ))
      → find dec q (put dec k v m) ≡ ite (dec q k) (some v) (find dec q m)
  unfolding put find
  find-put q k v m = elim (Option-cases (find dec k m)) [
    | inl miss ↦ rw (put, miss)
    | inr (w, hit) ↦ rw (put, hit) (find-assign dec q k v w m hit)
  ]

  -- What a call does to what the data blocks depend on.
  add_lem :
      (s : StorageLayout K) (a : Addition K)
      → ((add s a).fs_block_size ≡ s.fs_block_size)
        × ((add s a).next_data_block ≡ add_u64 s.next_data_block (blocks_of s.fs_block_size a))
        × ((add s a).data_blocks ≡ put dec (name_of a) s.next_data_block s.data_blocks)
  unfolding add_directory add_file
  add_lem s (directory k) = (refl, refl, refl)
  add_lem s (file k n) = (refl, refl, refl)

  kept :
      (s : StorageLayout K) (k : K) (rest : List (Addition K))
      → IsLast k rest
      → find dec k (add_all s rest).data_blocks ≡ find dec k s.data_blocks
  kept s k [] last = refl
  kept s k (a ∷ rest) last =
      kept (add s a) k rest last.1
      ∙ ap (find dec k) ((add_lem s a).2)
      ∙ find-put k (name_of a) s.next_data_block s.data_blocks
      ∙ if_neg (dec k (name_of a)) last.0 _ _

  -- Where no block number reaches 2 ^ 64, a file or directory that is added, and not added again,
  -- has its first data block right behind the blocks that the calls before it took, so that what
  -- different calls take never overlaps: ten blocks for a directory, and for a file as many as its
  -- size has whole blocks.
  pub find-add_all :
      (s : StorageLayout K) (before : List (Addition K)) (a : Addition K)
      (after : List (Addition K))
      → IsLast (name_of a) after
      → s.next_data_block + total_blocks s.fs_block_size before < u64_mod
      → find dec (name_of a) (add_all s (before ++ a ∷ after)).data_blocks
        ≡ some (s.next_data_block + total_blocks s.fs_block_size before)
  find-add_all s [] a after last h =
      kept (add s a) (name_of a) after last
      ∙ ap (find dec (name_of a)) ((add_lem s a).2)
      ∙ find-put (name_of a) (name_of a) s.next_data_block s.data_blocks
      ∙ if_pos (dec (name_of a) (name_of a)) refl _ _
      ∙ ap some (omega arith)
  find-add_all s (b ∷ before) a after last h =
      let (size, next, _) = add_lem s b in
      let moved : (add s b).next_data_block ≡ s.next_data_block + blocks_of s.fs_block_size b =
        next ∙ add_u64_small s.next_data_block (blocks_of s.fs_block_size b) (omega arith) in
      find-add_all (add s b) before a after last (rw (size, moved) (omega arith))
      ∙ rw (size, moved) (ap some (omega arith))
