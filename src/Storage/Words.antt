-- ===== src/Storage/Words.antt =====
-- The block arithmetic of src/os/fixed_inode_storage_layout.cc over numbers that do not wrap. The block
-- size divides 2 ^ 64, as a power of two does.
use native.Mathlib.Nat.{div-add-mod', mod-lt, mod-eq_of_lt, mul-add-mod_self_right, div-eq_of_lt-le}
use hecios.Prelude.{
  ℕ, suc, ◌+◌, ◌-◌, ◌*◌, ◌/◌, inl, inr, Bool-cases, ◌%◌, ◌≤◌, ◌<◌, min, ◌≡◌, ◌⊎◌, false, zero, refl,
  ◌∙◌, ap, arith, leb→le, if◌then◌else◌, ◌==◌, leb, sub_u64, mul_u64, u64_mod, offset_limit, dec_lt,
}

-- A quotient with its remainder.
pub div_unique : (q m s : ℕ) → s < m → (q * m + s) / m ≡ q
div_unique q m s h = div-eq_of_lt-le {k = q} m {m = q * m + s} (omega arith) (omega arith)

-- The bytes from an offset to the end of its block, none at the start of one.
abbrev pub to_block_end : ℕ → ℕ → ℕ
to_block_end size offset = if offset % size == 0 then 0 else size - offset % size

wrapped_mod :
    (m size r : ℕ) → suc m * size ≡ u64_mod → 0 < r → r < size → (u64_mod - r) % size ≡ size - r
wrapped_mod m size r whole h k =
    let split : u64_mod - r ≡ m * size + (size - r) = omega arith in
    ap (λ n. n % size) split
    ∙ mul-add-mod_self_right m size (size - r)
    ∙ mod-eq_of_lt {n = size - r} {m = size} (omega arith)

word_difference :
    (a r offset : ℕ)
    → a + r ≡ offset
    → offset < offset_limit
    → sub_u64 (a % u64_mod) offset ≡ (if r == 0 then 0 else u64_mod - r)
unfolding sub_u64
word_difference a r offset h k = ground arith

zero-or-pos : (n : ℕ) → (n ≡ 0) ⊎ (0 < n)
zero-or-pos zero = inl refl
zero-or-pos (suc n) = inr (omega arith)

pub is_not_zero : (n : ℕ) → 0 < n → (n == 0) ≡ false
is_not_zero n h = ground arith

pub partial_block_lem :
    (m size offset : ℕ)
    → suc m * size ≡ u64_mod
    → 0 < size
    → offset < offset_limit
    → sub_u64 (mul_u64 (offset / size) size) offset % size ≡ to_block_end size offset
unfolding mul_u64
partial_block_lem m size offset whole h k =
    let split = div-add-mod' offset size in
    let below = mod-lt offset {m = size} h in
    rw (word_difference (offset / size * size) (offset % size) offset split k)
      (elim (zero-or-pos (offset % size)) [
        | inl start ↦ rw start (mod-eq_of_lt {n = 0} {m = size} h)
        | inr inside ↦
            rw (is_not_zero (offset % size) inside)
              (wrapped_mod m size (offset % size) whole inside below)
      ])

-- The blocks that hold the bytes of a region: none of an empty one, else from the block of the
-- first byte to that of the last.
abbrev pub touched_blocks : ℕ → ℕ → ℕ → ℕ
touched_blocks size offset extent =
    if extent == 0 then 0 else (offset + extent - 1) / size - offset / size + 1

-- The bytes of a region in a block that it begins inside of, and those in the last block that are
-- left over whole ones.
abbrev pub first_portion : ℕ → ℕ → ℕ → ℕ
first_portion size offset extent = min extent (to_block_end size offset)

abbrev pub last_portion : ℕ → ℕ → ℕ → ℕ
last_portion size offset extent = (extent - first_portion size offset extent) % size

pub full_blocks :
    (size a f l extent : ℕ)
    → extent ≡ a * size + (f + l)
    → f < size
    → l < size
    → extent / size ≡ a + (if leb size (f + l) then 1 else 0)
full_blocks size a f l extent h j k = elim (Bool-cases (leb size (f + l))) [
  | inl more ↦
      let large = leb→le size (f + l) more in
      rw (more, h)
        (ap (λ n. n / size) {x = a * size + (f + l)} {y = (a + 1) * size + (f + l - size)}
            (omega arith)
          ∙ div_unique (a + 1) size (f + l - size) (omega arith))
  | inr less ↦
      let small : f + l < size = ground arith in
      rw (less, h) (div_unique a size (f + l) small ∙ omega arith)
]

abbrev pub one_if_not_zero : ℕ → ℕ
one_if_not_zero n = if n == 0 then 0 else 1

-- The block of the last of `n` blocks and `l` bytes.
last_block :
    (size n l : ℕ)
    → 0 < size
    → l < size
    → 0 < n * size + l
    → (n * size + l - 1) / size + 1 ≡ n + one_if_not_zero l
last_block size zero zero h k some_bytes = absurd (omega arith)
last_block size (suc n) zero h k some_bytes =
    ap (λ m. m / size + 1) {x = suc n * size + 0 - 1} {y = n * size + (size - 1)} (omega arith)
    ∙ ap (λ m. m + 1) (div_unique n size (size - 1) (omega arith))
    ∙ omega arith
last_block size n (suc l) h k some_bytes =
    ap (λ m. m / size + 1) {x = n * size + suc l - 1} {y = n * size + l} (omega arith)
    ∙ ap (λ m. m + 1) (div_unique n size l (omega arith))
    ∙ rw (is_not_zero (suc l) (omega arith))

abbrev pub counted : ℕ → ℕ → ℕ → ℕ
counted full f l = full + one_if_not_zero f + one_if_not_zero l

-- A region that ends inside the block that it begins inside of.
short_count :
    (size b r extent : ℕ)
    → 0 < r
    → 0 < extent
    → r + extent ≤ size
    → (b * size + r + extent - 1) / size - b + 1 ≡ 1
short_count size b r extent h k j =
    ap (λ m. m / size - b + 1) {x = b * size + r + extent - 1} {y = b * size + (r + extent - 1)}
      (omega arith)
    ∙ ap (λ m. m - b + 1) (div_unique b size (r + extent - 1) (omega arith))
    ∙ omega arith

-- A region that begins at a block's start or reaches past the end of its first block.
long_count :
    (size b c a l : ℕ)
    → 0 < size
    → l < size
    → 0 < a * size + l
    → ((b + c + a) * size + l - 1) / size - b + 1 ≡ a + c + one_if_not_zero l
long_count size b c a l h k some_bytes =
    let last = last_block size (b + c + a) l h k (omega arith) in ground arith

no_blocks : (size a l : ℕ) → 0 < size → a * size + l ≡ 0 → (a ≡ 0) × (l ≡ 0)
no_blocks size zero l h k = (refl, omega arith)
no_blocks size (suc a) l h k = absurd (omega arith)

pub touched_words :
    (size b r a f l extent : ℕ)
    → 0 < size
    → r < size
    → l < size
    → f ≡ min extent (if r == 0 then 0 else size - r)
    → extent ≡ a * size + (f + l)
    → (if extent == 0 then 0 else (b * size + r + extent - 1) / size - b + 1)
      ≡ a + one_if_not_zero f + one_if_not_zero l
touched_words size b r a f l extent h i j first split = elim (zero-or-pos extent) [
  | inl none_at_all ↦
      let f_none : f ≡ 0 = omega arith in
      let (a_none, l_none) = no_blocks size a l h (omega arith) in
      rw (none_at_all, f_none, a_none, l_none)
  | inr some_bytes ↦ rw (is_not_zero extent some_bytes) (elim (zero-or-pos r) [
    | inl start ↦
        let f_none : f ≡ 0 = ground arith in
        rw (start, f_none)
          (ap (λ m. m / size - b + 1) {x = b * size + 0 + extent - 1}
              {y = (b + 0 + a) * size + l - 1} (omega arith)
            ∙ long_count size b 0 a l h j (omega arith))
    | inr inside ↦ elim (dec_lt (size - r) extent) [
      | yes longer ↦
          let f_is : f ≡ size - r = ground arith in
          rw (f_is, is_not_zero (size - r) (omega arith))
            (ap (λ m. m / size - b + 1) {x = b * size + r + extent - 1}
                {y = (b + 1 + a) * size + l - 1} (omega arith)
              ∙ long_count size b 1 a l h j (omega arith))
      | no shorter ↦
          let f_is : f ≡ extent = ground arith in
          let (a_none, l_none) = no_blocks size a l h (omega arith) in
          rw (f_is, a_none, l_none, is_not_zero extent some_bytes)
            (short_count size b r extent inside some_bytes (omega arith))
    ]
  ])
]
