-- ===== src/Layout/Stripe/Mapped.antt =====
-- Which bytes of a file a stripe distribution gives to which object, and where on the object.
use native.Mathlib.Nat.{mul-add-mod_self_right, mod-eq_of_lt, div-add-mod', mod-lt}
use mathlib.Core.Path.{subst}
use hecios.Layout.Stripe.{
  Stripe, convert_logical_to_physical_offset, convert_physical_to_logical_offset,
  get_next_mapped_logical_offset,
}
use hecios.Layout.Stripe.Round.{
  IsSound, stripe_size, strip_begin, strip_in_stripe, clipped, logical_to_physical_at,
  physical_to_logical_at, next_at, next_mapped_at,
}
use hecios.Prelude.{
  ℕ, suc, ◌+◌, ◌-◌, ◌*◌, ◌/◌, ◌%◌, ◌≤◌, ◌<◌, ◌≡◌, sym, ◌∙◌, ap, arith, dec_lt, if◌then◌else◌, ltb,
  leb, lt→ltb, false, offset_limit,
}

-- The byte at a file offset lies in a strip of the object.
abbrev pub IsMapped : Stripe → ℕ → ℕ → Type 0
IsMapped s idx l =
    (strip_begin s idx ≤ l % stripe_size s) × (l % stripe_size s < strip_begin s idx + s.strip_size)

clip_word :
    (a n r : ℕ)
    → a ≤ r
    → r < a + n
    → (if leb a r then if ltb r (a + n) then r - a else n else 0) ≡ r - a
clip_word a n r h k = ground arith

ge→ltb : (a b : ℕ) → b ≤ a → ltb a b ≡ false
ge→ltb a b h = ground arith

module _ (s : Stripe) (idx : ℕ) (sound : IsSound s idx) where
  place : (q r : ℕ) → r < stripe_size s → (q * stripe_size s + r) % stripe_size s ≡ r
  place q r h = mul-add-mod_self_right q (stripe_size s) r ∙ mod-eq_of_lt h

  -- The next mapped offset is mapped, not before the given one, and the first such.
  abbrev FirstMapped : ℕ → ℕ → Type 0
  FirstMapped l n =
      (l ≤ n)
      × (n ≤ l + stripe_size s)
      × IsMapped s idx n
      × ((x : ℕ) → l ≤ x → x < n → ¬ IsMapped s idx x)

  clipped_mapped :
      (r : ℕ)
      → (strip_begin s idx ≤ r) × (r < strip_begin s idx + s.strip_size)
      → clipped s idx sound r ≡ r - strip_begin s idx
  clipped_mapped r m = clip_word (strip_begin s idx) s.strip_size r m.0 m.1

  place_of :
      (q x : ℕ)
      → q * stripe_size s ≤ x
      → x < q * stripe_size s + stripe_size s
      → x % stripe_size s ≡ x - q * stripe_size s
  place_of q x h k =
      ap (λ (t : ℕ). t % stripe_size s) (omega arith)
      ∙ place q (x - q * stripe_size s) (omega arith)

  IsMapped-at :
      (q r : ℕ)
      → strip_begin s idx ≤ r
      → r < strip_begin s idx + s.strip_size
      → IsMapped s idx (q * stripe_size s + r)
  IsMapped-at q r h k =
      let inside = strip_in_stripe s idx sound in rw (place q r (omega arith)) (h, k)

  first_sooner :
      (q r : ℕ)
      → r < strip_begin s idx
      → FirstMapped (q * stripe_size s + r) (q * stripe_size s + strip_begin s idx)
  first_sooner q r sooner =
      let inside = strip_in_stripe s idx sound in
      let positive = sound.positive in
      (
        omega arith,
        omega arith,
        IsMapped-at q (strip_begin s idx) (omega arith) (omega arith),
        λ x from to m. let e = place_of q x (omega arith) (omega arith) in omega arith,
      )

  first_beyond :
      (q r : ℕ)
      → r < stripe_size s
      → strip_begin s idx + s.strip_size ≤ r
      → FirstMapped (q * stripe_size s + r) (q * stripe_size s + stripe_size s + strip_begin s idx)
  first_beyond q r h beyond =
      let inside = strip_in_stripe s idx sound in
      let positive = sound.positive in
      let next : suc q * stripe_size s ≡ q * stripe_size s + stripe_size s = omega arith in
      (
        omega arith,
        omega arith,
        rw (← next) (IsMapped-at (suc q) (strip_begin s idx) (omega arith) (omega arith)),
        λ x from to m. elim (dec_lt x (q * stripe_size s + stripe_size s)) [
          | yes here ↦ let e = place_of q x (omega arith) here in omega arith
          | no there ↦ let e = place_of (suc q) x (omega arith) (omega arith) in omega arith
        ],
      )

  first_at :
      (q r : ℕ) → r < stripe_size s → FirstMapped (q * stripe_size s + r) (next_at s idx sound q r)
  first_at q r h = elim (dec_lt r (strip_begin s idx)) [
    | yes sooner ↦ rw (lt→ltb r (strip_begin s idx) sooner) (first_sooner q r sooner)
    | no later ↦
        rw (ge→ltb r (strip_begin s idx) (omega arith))
          (elim (dec_lt r (strip_begin s idx + s.strip_size)) [
            | yes inside ↦ rw (lt→ltb r (strip_begin s idx + s.strip_size) inside) (
              omega arith,
              omega arith,
              IsMapped-at q r (omega arith) inside,
              λ x from to m. absurd (omega arith),
            )
            | no beyond ↦
                rw (ge→ltb r (strip_begin s idx + s.strip_size) (omega arith))
                  (first_beyond q r h (omega arith))
          ])
  ]

  -- For an object of a distribution whose strips are not empty, nextMappedLogicalOffset gives the
  -- first offset, from the given one on, whose byte lies in a strip of the object, and that is at
  -- most a stripe away; the offset's own stripe and the next must lie within bounds.
  pub get_next_mapped_logical_offset-IsMapped :
      (l : ℕ)
      → l / stripe_size s * stripe_size s + stripe_size s + stripe_size s < offset_limit
      → let n = get_next_mapped_logical_offset s idx l in
        (l ≤ n)
        × (n ≤ l + stripe_size s)
        × IsMapped s idx n
        × ((x : ℕ) → l ≤ x → x < n → ¬ IsMapped s idx x)
  get_next_mapped_logical_offset-IsMapped l k =
      let q = l / stripe_size s in
      let r = l % stripe_size s in
      let inside = strip_in_stripe s idx sound in
      let positive = sound.positive in
      let h : r < stripe_size s = mod-lt l {m = stripe_size s} (omega arith) in
      let e : q * stripe_size s + r ≡ l = div-add-mod' l (stripe_size s) in
      subst (λ t. FirstMapped t (get_next_mapped_logical_offset s idx t)) e
        (rw (next_mapped_at s idx sound q r h k) (first_at q r h))

  -- A byte of the file that lies in a strip of an object of the distribution is found there
  -- again: its logical offset goes to a physical offset that goes back to it, if strips are not
  -- empty and the byte's stripe lies within bounds.
  pub physical_to_logical-logical_to_physical :
      (l : ℕ)
      → l / stripe_size s * stripe_size s + stripe_size s < offset_limit
      → IsMapped s idx l
      → convert_physical_to_logical_offset s idx (convert_logical_to_physical_offset s idx l) ≡ l
  physical_to_logical-logical_to_physical l k m =
      let q = l / stripe_size s in
      let r = l % stripe_size s in
      let inside = strip_in_stripe s idx sound in
      let positive = sound.positive in
      let h : r < stripe_size s = mod-lt l {m = stripe_size s} (omega arith) in
      let e : q * stripe_size s + r ≡ l = div-add-mod' l (stripe_size s) in
      let there = logical_to_physical_at s idx sound q r h (omega arith) in
      let clip = clipped_mapped r m in
      let back = physical_to_logical_at s idx sound q (r - strip_begin s idx) (omega arith) k in
      ap (convert_physical_to_logical_offset s idx) (
        ap (convert_logical_to_physical_offset s idx) (sym e)
        ∙ there
        ∙ ap (λ (t : ℕ). q * s.strip_size + t) clip)
      ∙ back
      ∙ (omega arith)
