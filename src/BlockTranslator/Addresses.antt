-- ===== src/BlockTranslator/Addresses.antt =====
-- BasicTranslator: the disk addresses that are asked for a request of blocks.
use hecios.BlockTranslator.{
  Output, read_device, write_device, read_blocks_response, device_requests, addrs_per_block,
  addresses_from, basic_translator,
}
use hecios.BlockTranslator.Steps.{IsAmong}
use hecios.BlockTranslator.Completion.{sent_to_disk}
use hecios.Prelude.{
  ℕ, zero, suc, ◌+◌, ◌*◌, ◌/◌, ◌≤◌, ◌<◌, Bool, true, false, List, [], ◌∷◌, ◌++◌, map, ◌≡◌, ◌↔◌, ◌⊎◌,
  refl, sym, ◌∙◌, ap, subst, inl, inr, arith, add_u64_small, ℕ_discrete, mul_u64, mul_u64_small,
  u64_mod,
}

-- The addresses of what is sent to the disk.
abbrev pub requested : List Output → List ℕ
requested [] = []
requested (read_device a id ∷ sent) = a ∷ requested sent
requested (write_device w a id ∷ sent) = a ∷ requested sent
requested (read_blocks_response id ∷ sent) = requested sent

IsAmong-append : (a : ℕ) (l m : List ℕ) → IsAmong a (l ++ m) ↔ (IsAmong a l ⊎ IsAmong a m)
IsAmong-append a [] m = (λ h. inr h, λ h. elim h [ inl f ↦ elim f [ ] | inr h ↦ h ])
IsAmong-append a (x ∷ l) m = (
  λ h. elim h [
    | inl p ↦ inl (inl p)
    | inr later ↦ elim ((IsAmong-append a l m).0 later) [ inl h ↦ inl (inr h) | inr h ↦ inr h ]
  ],
  λ h. elim h [
    | inl early ↦ elim early [ inl p ↦ inl p | inr h ↦ inr ((IsAmong-append a l m).1 (inl h)) ]
    | inr h ↦ inr ((IsAmong-append a l m).1 (inr h))
  ],
)

addresses_from_lem :
    (a begin i count : ℕ)
    → begin + i + count < u64_mod
    → IsAmong a (addresses_from begin i count) ↔ ((begin + i ≤ a) × (a < begin + i + count))
unfolding addresses_from
addresses_from_lem a begin i zero h = (λ f. elim f [ ], λ (low, high). absurd (omega arith))
addresses_from_lem a begin i (suc count) h =
    let here = add_u64_small begin i (omega arith) in
    let there = addresses_from_lem a begin (suc i) count (omega arith) in
    (
      λ h'. elim h' [
        | inl p ↦ (omega (arith, here), omega (arith, here))
        | inr later ↦ (omega (arith, there.0 later), omega (arith, there.0 later))
      ],
      λ (low, high). elim (ℕ_discrete a (begin + i)) [
        | yes same ↦ inl (same ∙ sym here)
        | no other ↦ inr (there.1 (omega arith, omega arith))
      ],
    )

-- The eight addresses of a block are those whose eighth is the block.
basic_translator_lem :
    (a block : ℕ)
    → block * addrs_per_block + addrs_per_block < u64_mod
    → IsAmong a (basic_translator block) ↔ (a / addrs_per_block ≡ block)
unfolding basic_translator
basic_translator_lem a block h =
    let begin = mul_u64_small block addrs_per_block (omega arith) in
    let those =
      addresses_from_lem a (mul_u64 block addrs_per_block) 0 addrs_per_block
        (omega (arith, begin)) in
    (
      λ among. omega (arith, begin, those.0 among),
      λ same. those.1 (omega (arith, begin), omega (arith, begin)),
    )

requested-reads :
    (p : ℕ) (addresses : List ℕ) (rest : List Output)
    → requested (map (λ a. read_device a p) addresses ++ rest) ≡ addresses ++ requested rest
requested-reads p [] rest = refl
requested-reads p (a ∷ addresses) rest = ap (◌∷◌ a) (requested-reads p addresses rest)

requested-writes :
    (through : Bool) (p : ℕ) (addresses : List ℕ) (rest : List Output)
    → requested (map (λ a. write_device through a p) addresses ++ rest)
      ≡ addresses ++ requested rest
requested-writes through p [] rest = refl
requested-writes through p (a ∷ addresses) rest =
    ap (◌∷◌ a) (requested-writes through p addresses rest)

one_more :
    (a block : ℕ) (rest blocks : List ℕ)
    → block * addrs_per_block + addrs_per_block < u64_mod
    → IsAmong a rest ↔ IsAmong (a / addrs_per_block) blocks
    → IsAmong a (basic_translator block ++ rest) ↔ IsAmong (a / addrs_per_block) (block ∷ blocks)
one_more a block rest blocks fit others =
    let split = IsAmong-append a (basic_translator block) rest in
    let own = basic_translator_lem a block fit in
    (
      λ h. elim (split.0 h) [ inl early ↦ inl (own.0 early) | inr later ↦ inr (others.0 later) ],
      λ h. elim h [
        | inl same ↦ split.1 (inl (own.1 same))
        | inr later ↦ split.1 (inr (others.1 later))
      ],
    )

-- Every block has its addresses below 2 ^ 64.
abbrev pub AllOnDisk : List ℕ → Type 0
AllOnDisk [] = Unit
AllOnDisk (block ∷ blocks) =
    (block * addrs_per_block + addrs_per_block < u64_mod) × AllOnDisk blocks

-- For blocks whose addresses fit 64 bits, the addresses that the basic translator asks the disk
-- for, in a read or in a write, are exactly those whose eighth part is one of the blocks.
pub requested-sent_to_disk :
    (is_read through : Bool) (p a : ℕ) (blocks : List ℕ)
    → AllOnDisk blocks
    → IsAmong a (requested (sent_to_disk basic_translator is_read p through blocks))
      ↔ IsAmong (a / addrs_per_block) blocks
unfolding device_requests
requested-sent_to_disk true through p a [] fit = (λ f. f, λ f. f)
requested-sent_to_disk false through p a [] fit = (λ f. f, λ f. f)
requested-sent_to_disk true through p a (block ∷ blocks) fit =
    subst (λ l. IsAmong a l ↔ IsAmong (a / addrs_per_block) (block ∷ blocks))
      (sym (requested-reads p (basic_translator block) _))
      (one_more a block _ blocks fit.0 (requested-sent_to_disk true through p a blocks fit.1))
requested-sent_to_disk false through p a (block ∷ blocks) fit =
    subst (λ l. IsAmong a l ↔ IsAmong (a / addrs_per_block) (block ∷ blocks))
      (sym (requested-writes through p (basic_translator block) _))
      (one_more a block _ blocks fit.0 (requested-sent_to_disk false through p a blocks fit.1))
