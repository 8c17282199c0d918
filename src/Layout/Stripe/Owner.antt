-- ===== src/Layout/Stripe/Owner.antt =====
-- Every byte of a striped file has one object, and a strip is contiguous on it.
use native.Mathlib.Nat.{div-add-mod', mod-lt, mul-le-mul_right, div-lt_iff_lt-mul, mul_comm}
use hecios.Layout.Stripe.{
  get_next_mapped_logical_offset, Stripe, convert_physical_to_logical_offset, get_contiguous_length,
}
use hecios.Layout.Stripe.Round.{IsSound, stripe_size, strip_in_stripe, physical_to_logical_at}
use hecios.Layout.Stripe.Mapped.{IsMapped, get_next_mapped_logical_offset-IsMapped}
use hecios.Prelude.{
  ℕ, suc, ◌+◌, ◌-◌, ◌*◌, ◌/◌, ◌%◌, ◌≤◌, ◌<◌, ◌≡◌, ◌↔◌, dec_lt, sym, ◌∙◌, ap, arith, sub_u64_small,
  offset_limit,
}

-- The strips of two objects do not meet.
strips_apart : (s : Stripe) (i j l : ℕ) → IsMapped s i l → IsMapped s j l → ¬ (i < j)
strips_apart s i j l m n h =
    let apart : suc i * s.strip_size ≤ j * s.strip_size = mul-le-mul_right s.strip_size h in
    omega arith

-- A byte of the file lies in a strip of exactly one object.
one_owner :
    (s : Stripe) (l : ℕ)
    → IsSound s 0
    → (i : ℕ) × (i < s.num_servers) × IsMapped s i l × ((j : ℕ) → IsMapped s j l → j ≡ i)
one_owner s l sound =
    let n = s.strip_size in
    let r = l % stripe_size s in
    let i = r / n in
    let positive = sound.positive in
    let inside = strip_in_stripe s 0 sound in
    let h : r < stripe_size s = mod-lt l {m = stripe_size s} (omega arith) in
    let e : i * n + r % n ≡ r = div-add-mod' r n in
    let k : r % n < n = mod-lt r positive in
    let mapped : IsMapped s i l = (omega arith, omega arith) in
    (
      i,
      (div-lt_iff_lt-mul {k = n} {x = r} {y = s.num_servers} positive).1
          (omega (arith, mul_comm n s.num_servers)),
      mapped,
      λ j m.
          let a = strips_apart s i j l mapped m in
          let b = strips_apart s j i l m mapped in omega arith,
    )

IsMapped-iff :
    (s : Stripe) (idx l : ℕ)
    → IsSound s idx
    → l / stripe_size s * stripe_size s + stripe_size s + stripe_size s < offset_limit
    → (get_next_mapped_logical_offset s idx l ≡ l) ↔ IsMapped s idx l
IsMapped-iff s idx l sound k =
    let (after, near, at, first) = get_next_mapped_logical_offset-IsMapped s idx sound l k in
    (
      λ e. rw e at at,
      λ m. elim (dec_lt l (get_next_mapped_logical_offset s idx l)) [
        | yes later ↦ absurd (first l (omega arith) later m)
        | no here ↦ omega arith
      ],
    )

-- Each byte of the file belongs to exactly one object: one object of the distribution, and no other of
-- them, has nextMappedLogicalOffset give the offset of the byte itself, if strips are not empty and the
-- byte's stripe and the next lie within bounds.
pub next_mapped_owner :
    (s : Stripe) (l : ℕ)
    → IsSound s 0
    → l / stripe_size s * stripe_size s + stripe_size s + stripe_size s < offset_limit
    → (i : ℕ) × (i < s.num_servers)
      × (get_next_mapped_logical_offset s i l ≡ l)
      × ((j : ℕ) → j < s.num_servers → get_next_mapped_logical_offset s j l ≡ l → j ≡ i)
next_mapped_owner s l sound k =
    let (i, few, mapped, only) = one_owner s l sound in
    let of : (j : ℕ) → j < s.num_servers → IsSound s j =
      λ j h. record { has_object = h; positive = sound.positive; fits = sound.fits } in
    (
      i,
      few,
      (IsMapped-iff s i l (of i few) k).1 mapped,
      λ j h e. only j ((IsMapped-iff s j l (of j h) k).0 e),
    )

module _ (s : Stripe) (idx : ℕ) (sound : IsSound s idx) where
  -- The bytes of an object of the distribution that contiguousLength counts from a physical
  -- offset lie behind one another in the file too, if strips are not empty and their stripe lies
  -- within bounds.
  pub contiguous :
      (p j : ℕ)
      → p / s.strip_size * stripe_size s + stripe_size s < offset_limit
      → j < get_contiguous_length s idx p
      → convert_physical_to_logical_offset s idx (p + j)
        ≡ convert_physical_to_logical_offset s idx p + j
  unfolding get_contiguous_length
  contiguous p j k h =
      let d = p / s.strip_size in
      let m = p % s.strip_size in
      let small : m < s.strip_size = mod-lt p sound.positive in
      let fits = sound.fits in
      let inside = strip_in_stripe s idx sound in
      let e : d * s.strip_size + m ≡ p = div-add-mod' p s.strip_size in
      let h' : j < s.strip_size - m =
        rw (sub_u64_small s.strip_size m (omega arith) (omega arith)) at h in
      let f : d * s.strip_size + (m + j) ≡ p + j = omega arith in
      ap (convert_physical_to_logical_offset s idx) (sym f)
      ∙ physical_to_logical_at s idx sound d (m + j) (omega arith) k
      ∙ omega (
        arith,
        physical_to_logical_at s idx sound d m small k,
        ap (convert_physical_to_logical_offset s idx) e,
      )
