-- ===== src/Layout/Stripe/Round.antt =====
-- The offsets of SimpleStripeDistribution by stripe and place in the stripe, where no product or sum
-- reaches the largest FSOffset.
use native.Mathlib.Nat.{
  mul-add-div_right, div-eq_of_lt, mul_assoc, mul_comm, mul-le-mul_right, mul-le-mul_left,
  mul-add-mod_self_right, mod-eq_of_lt, div-add-mod', mod-lt,
}
use hecios.Layout.Stripe.{
  Stripe, convert_logical_to_physical_offset, convert_physical_to_logical_offset,
  get_next_mapped_logical_offset,
}
use hecios.Layout.Stripe.Words.{
  not_below_zero, rem_i64_negative, rem_i64_positive, clip_word, clip_inside, later_word,
  sooner_word, before_word,
}
use hecios.Prelude.{
  ℕ, zero, suc, ◌+◌, ◌-◌, ◌*◌, ◌/◌, ◌%◌, ◌≤◌, ◌<◌, ◌≡◌, sym, ◌∙◌, ap, arith, if◌then◌else◌, dec_lt,
  ltb, leb, add_u64, sub_u64, mul_u64, add_u64_small, sub_u64_small, mul_u64_small, offset_limit,
}

-- An object of the distribution, strips that are not empty, and a stripe within bounds.
pub record IsSound (s : Stripe) (idx : ℕ) : Type 0 where
  pub has_object : idx < s.num_servers
  pub positive : 0 < s.strip_size
  pub fits : s.strip_size * s.num_servers < offset_limit

abbrev pub stripe_size : Stripe → ℕ
stripe_size s = s.strip_size * s.num_servers

-- Where the object's strip begins in a stripe.
abbrev pub strip_begin : Stripe → ℕ → ℕ
strip_begin s idx = idx * s.strip_size

module _ (s : Stripe) (idx : ℕ) (sound : IsSound s idx) where
  pub strip_in_stripe : strip_begin s idx + s.strip_size ≤ stripe_size s
  strip_in_stripe =
      let h : suc idx * s.strip_size ≤ s.num_servers * s.strip_size =
        mul-le-mul_right s.strip_size (sound.has_object) in
      omega (arith, h, mul_comm s.strip_size s.num_servers)

  strip_end_word : mul_u64 (add_u64 idx 1) s.strip_size ≡ strip_begin s idx + s.strip_size
  strip_end_word =
      let fits = sound.fits in
      let inside = strip_in_stripe in
      let few : (idx + 1) * 1 ≤ (idx + 1) * s.strip_size =
        mul-le-mul_left (idx + 1) sound.positive in
      rw (add_u64_small idx 1 (omega arith))
        (mul_u64_small (idx + 1) s.strip_size (omega arith) ∙ omega arith)

  div_stripe : (q r : ℕ) → r < stripe_size s → (q * stripe_size s + r) / stripe_size s ≡ q
  div_stripe q r h = mul-add-div_right (omega arith) q r ∙ omega (arith, div-eq_of_lt h)

  -- The place in the object's strips that comes before or at a place of the stripe.
  abbrev pub clipped : ℕ → ℕ
  clipped r =
      if leb (strip_begin s idx) r
      then if ltb r (strip_begin s idx + s.strip_size) then r - strip_begin s idx else s.strip_size
      else 0

  pub logical_to_physical_at :
      (q r : ℕ)
      → r < stripe_size s
      → q * stripe_size s + r < offset_limit
      → convert_logical_to_physical_offset s idx (q * stripe_size s + r)
        ≡ q * s.strip_size + clipped r
  unfolding convert_logical_to_physical_offset
  logical_to_physical_at q r h k =
      let fits = sound.fits in
      let inside = strip_in_stripe in
      let strips : q * s.strip_size * s.num_servers ≡ q * stripe_size s =
        mul_assoc q s.strip_size s.num_servers in
      let fewer : q * s.strip_size ≤ q * stripe_size s = mul-le-mul_left q (omega arith) in
      let place : sub_u64 (q * stripe_size s + r) (q * stripe_size s) ≡ r =
        sub_u64_small (q * stripe_size s + r) (q * stripe_size s) (omega arith) (omega arith)
        ∙ omega arith in
      let strip_end : mul_u64 (add_u64 idx 1) s.strip_size ≡ strip_begin s idx + s.strip_size =
        strip_end_word in
      rw
        (
          mul_u64_small s.strip_size s.num_servers (omega arith),
          div_stripe q r h,
          mul_u64_small q s.strip_size (omega arith),
          mul_u64_small (q * s.strip_size) s.num_servers (omega arith),
          strips,
          place,
          strip_end,
          mul_u64_small idx s.strip_size (omega arith),
        )
        (clip_word (q * s.strip_size) (strip_begin s idx) s.strip_size r (omega arith)
          (omega arith))

  pub physical_to_logical_at :
      (d m : ℕ)
      → m < s.strip_size
      → d * stripe_size s + stripe_size s < offset_limit
      → convert_physical_to_logical_offset s idx (d * s.strip_size + m)
        ≡ d * stripe_size s + (strip_begin s idx + m)
  unfolding convert_physical_to_logical_offset
  physical_to_logical_at d m h k =
      let inside = strip_in_stripe in
      let strips : d * s.strip_size * s.num_servers ≡ d * stripe_size s =
        mul_assoc d s.strip_size s.num_servers in
      let fewer : d * s.strip_size ≤ d * stripe_size s = mul-le-mul_left d (omega arith) in
      let div : (d * s.strip_size + m) / s.strip_size ≡ d =
        mul-add-div_right sound.positive d m ∙ omega (arith, div-eq_of_lt h) in
      let rest : (d * s.strip_size + m) % s.strip_size ≡ m =
        mul-add-mod_self_right d s.strip_size m ∙ mod-eq_of_lt h in
      rw
        (
          div,
          rest,
          mul_u64_small d s.strip_size (omega arith),
          mul_u64_small (d * s.strip_size) s.num_servers (omega arith),
          strips,
          mul_u64_small s.strip_size idx (omega arith),
          mul_comm s.strip_size idx,
          add_u64_small (d * stripe_size s) (strip_begin s idx) (omega arith),
          add_u64_small (d * stripe_size s + strip_begin s idx) m (omega arith),
        )
        (omega arith)

  -- Converting a physical offset of an object of the distribution to its place in the file and
  -- back gives the physical offset again, if strips are not empty and the stripe lies within
  -- bounds.
  pub logical_to_physical-physical_to_logical :
      (p : ℕ)
      → p / s.strip_size * stripe_size s + stripe_size s < offset_limit
      → convert_logical_to_physical_offset s idx (convert_physical_to_logical_offset s idx p) ≡ p
  logical_to_physical-physical_to_logical p k =
      let d = p / s.strip_size in
      let m = p % s.strip_size in
      let h : m < s.strip_size = mod-lt p sound.positive in
      let e : d * s.strip_size + m ≡ p = div-add-mod' p s.strip_size in
      let inside = strip_in_stripe in
      let there = physical_to_logical_at d m h k in
      let back = logical_to_physical_at d (strip_begin s idx + m) (omega arith) (omega arith) in
      ap (convert_logical_to_physical_offset s idx)
        (ap (convert_physical_to_logical_offset s idx) (sym e) ∙ there)
      ∙ back
      ∙ (ap (λ (t : ℕ). d * s.strip_size + t) (clip_inside (strip_begin s idx) s.strip_size m h)
          ∙ e)

  -- Where the next strip of the object begins or goes on, from a place in the file.
  abbrev pub next_at : ℕ → ℕ → ℕ
  next_at q r =
      if ltb r (strip_begin s idx)
      then q * stripe_size s + strip_begin s idx
      else if ltb r (strip_begin s idx + s.strip_size)
      then q * stripe_size s + r
      else q * stripe_size s + stripe_size s + strip_begin s idx

  stripe_word : mul_u64 s.num_servers s.strip_size ≡ stripe_size s
  stripe_word =
      let fits = sound.fits in
      let flip = mul_comm s.num_servers s.strip_size in
      mul_u64_small s.num_servers s.strip_size (omega arith) ∙ flip

  begin_word : mul_u64 idx s.strip_size ≡ strip_begin s idx
  begin_word =
      let fits = sound.fits in
      let inside = strip_in_stripe in mul_u64_small idx s.strip_size (omega arith)

  next_before :
      (l : ℕ) → l < strip_begin s idx → get_next_mapped_logical_offset s idx l ≡ strip_begin s idx
  unfolding get_next_mapped_logical_offset
  next_before l h =
      let fits = sound.fits in
      let inside = strip_in_stripe in
      let positive = sound.positive in
      rw (
        begin_word,
        stripe_word,
        rem_i64_negative l (strip_begin s idx) (stripe_size s) h (omega arith) fits,
      )

  next_after :
      (l d : ℕ)
      → strip_begin s idx ≤ l
      → (l - strip_begin s idx) % stripe_size s ≡ d
      → d < stripe_size s
      → l + stripe_size s < offset_limit
      → get_next_mapped_logical_offset s idx l
        ≡ (if leb s.strip_size d then l + (stripe_size s - d) else l)
  unfolding get_next_mapped_logical_offset
  next_after l d h e k b =
      let fits = sound.fits in
      rw (
        begin_word,
        stripe_word,
        rem_i64_positive l (strip_begin s idx) (stripe_size s) h (omega arith) fits ∙ e,
        not_below_zero d (omega arith),
        sub_u64_small (stripe_size s) d (omega arith) (omega arith),
        add_u64_small l (stripe_size s - d) (omega arith),
      )

  next_mapped_sooner :
      (q r : ℕ)
      → r < stripe_size s
      → q * stripe_size s + stripe_size s + stripe_size s < offset_limit
      → r < strip_begin s idx
      → get_next_mapped_logical_offset s idx (q * stripe_size s + r)
        ≡ q * stripe_size s + strip_begin s idx
  next_mapped_sooner zero r h k sooner =
      ap (get_next_mapped_logical_offset s idx) (omega arith) ∙ next_before r sooner ∙ omega arith
  next_mapped_sooner (suc q) r h k sooner =
      let t = stripe_size s in
      let a = strip_begin s idx in
      let inside = strip_in_stripe in
      let l : suc q * t + r ≡ q * t + t + r = omega arith in
      let e : (q * t + t + r - a) % t ≡ t + r - a =
        ap (λ (x : ℕ). x % t) (omega arith)
        ∙ mul-add-mod_self_right q t (t + r - a)
        ∙ mod-eq_of_lt {n = t + r - a} {m = t} (omega arith) in
      ap (get_next_mapped_logical_offset s idx) l
      ∙ next_after (q * t + t + r) (t + r - a) (omega arith) e (omega arith) (omega arith)
      ∙ sooner_word (q * t) t a s.strip_size r sooner inside
      ∙ omega arith

  pub next_mapped_at :
      (q r : ℕ)
      → r < stripe_size s
      → q * stripe_size s + stripe_size s + stripe_size s < offset_limit
      → get_next_mapped_logical_offset s idx (q * stripe_size s + r) ≡ next_at q r
  next_mapped_at q r h k = elim (dec_lt r (strip_begin s idx)) [
    | no later ↦
        let e : (q * stripe_size s + r - strip_begin s idx) % stripe_size s
            ≡ r - strip_begin s idx =
          ap (λ (t : ℕ). t % stripe_size s) (omega arith)
          ∙ mul-add-mod_self_right q (stripe_size s) (r - strip_begin s idx)
          ∙ mod-eq_of_lt {n = r - strip_begin s idx} {m = stripe_size s} (omega arith) in
        next_after (q * stripe_size s + r) (r - strip_begin s idx) (omega arith) e (omega arith)
          (omega arith)
        ∙ later_word (q * stripe_size s) (stripe_size s) (strip_begin s idx) s.strip_size r
            (omega arith) strip_in_stripe h
    | yes sooner ↦
        next_mapped_sooner q r h k sooner
        ∙ sym (
            before_word (q * stripe_size s) (stripe_size s) (strip_begin s idx) s.strip_size r
              sooner)
  ]
