-- ===== src/RegionSet/Bytes.antt =====
-- FileRegionSet::numBytes and regionSpan against the bytes that a set covers.
use hecios.RegionSet.{FileRegion, num_bytes_from, num_bytes, last_byte, region_span}
use hecios.RegionSet.Chain.{stop, Chain, IsValid, within, covers, region_end-stop, covers_before}
use native.Mathlib.Nat.{zero-add}
use hecios.Prelude.{
  ℕ, zero, suc, ◌+◌, ◌%◌, ◌≤◌, ◌<◌, min, Bool, false, ◌&&◌, ◌||◌, List, [], ◌∷◌, ◌≡◌, refl, sym,
  ◌∙◌, arith, dec_lt, if◌then◌else◌, offset_limit, u64_mod, add_u64, sub_u64_small,
}

-- The file offsets below a bound at which a test holds.
pub count : ℕ → (ℕ → Bool) → ℕ
count zero f = 0
count (suc n) f = count n f + (if f n then 1 else 0)

count-or :
    (n : ℕ) (f g : ℕ → Bool)
    → ((p : ℕ) → (f p && g p) ≡ false)
    → count n (λ p. f p || g p) ≡ count n f + count n g
unfolding count
count-or zero f g h = omega arith
count-or (suc n) f g h = ground (arith, h n, count-or n f g h)

count-within :
    (n : ℕ) (x : FileRegion) → count n (λ p. within p x) + min n x.offset ≡ min n (stop x)
unfolding count
count-within zero x = omega arith
count-within (suc n) x = ground (arith, count-within n x)

total : List FileRegion → ℕ
total [] = 0
total (x ∷ xs) = x.extent + total xs

disjoint_head :
    (p hi : ℕ) (x : FileRegion) (xs : List FileRegion)
    → Chain (stop x + 1) xs hi
    → (within p x && covers p xs) ≡ false
disjoint_head p hi x xs c = elim (dec_lt p (stop x + 1)) [
  | yes h ↦ rw (covers_before p (stop x + 1) hi xs c h) (ground arith)
  | no h ↦ ground arith
]

count-false : (n : ℕ) → count n (λ p. false) ≡ 0
unfolding count
count-false zero = refl
count-false (suc n) = omega (arith, count-false n)

total-count :
    (lo hi : ℕ) (xs : List FileRegion) → Chain lo xs hi → total xs ≡ count hi (λ p. covers p xs)
unfolding total
total-count lo hi [] c = sym (count-false hi)
total-count lo hi (x ∷ xs) c = omega (
  arith,
  count-or hi (λ p. within p x) (λ p. covers p xs) (λ p. disjoint_head p hi x xs c.2),
  count-within hi x,
  total-count (stop x + 1) hi xs c.2,
)

total-le : (lo hi : ℕ) (xs : List FileRegion) → Chain lo xs hi → lo ≤ hi → total xs + lo ≤ hi
unfolding total
total-le lo hi [] c h = omega arith
total-le lo hi (x ∷ xs) c h = omega (arith, total-le (stop x + 1) hi xs c.2 (omega arith))

num_bytes_from-total :
    (n : ℕ) (xs : List FileRegion) → n + total xs < u64_mod → num_bytes_from n xs ≡ n + total xs
unfolding num_bytes_from total add_u64
num_bytes_from-total n [] h = omega arith
num_bytes_from-total n (x ∷ xs) h =
    let e : (n + x.extent) % u64_mod ≡ n + x.extent = omega arith in
    rw e (num_bytes_from-total (n + x.extent) xs (omega arith) ∙ omega arith)

-- numBytes of a well-formed set is the number of file offsets that its regions cover.
pub num_bytes-count :
    (regions : List FileRegion)
    → IsValid regions
    → num_bytes regions ≡ count offset_limit (λ p. covers p regions)
unfolding num_bytes
num_bytes-count regions v =
    num_bytes_from-total 0 regions (omega (arith, total-le 0 offset_limit regions v (omega arith)))
    ∙ zero-add (total regions)
    ∙ total-count 0 offset_limit regions v

last_byte-stop :
    (lo : ℕ) (x : FileRegion) (xs : List FileRegion)
    → Chain lo (x ∷ xs) offset_limit
    → (x.offset + total (x ∷ xs) ≤ last_byte x xs) × (last_byte x xs < offset_limit)
unfolding last_byte total
last_byte-stop lo x [] c = rw (region_end-stop x c.1) (omega arith, c.1)
last_byte-stop lo x (y ∷ ys) c = let r = last_byte-stop (stop x + 1) y ys c.2 in (omega arith, r.1)

-- The regions of a well-formed set fill at most the span from its first to its last byte.
pub num_bytes-le-region_span :
    (regions : List FileRegion) → IsValid regions → num_bytes regions ≤ region_span regions
unfolding num_bytes region_span
num_bytes-le-region_span [] v = omega arith
num_bytes-le-region_span (x ∷ xs) v =
    let r = last_byte-stop 0 x xs v in
    let small = total-le 0 offset_limit (x ∷ xs) v (omega arith) in
    rw
      (
        num_bytes_from-total 0 (x ∷ xs) (omega arith),
        sub_u64_small (last_byte x xs) x.offset (omega arith) (omega arith),
      )
      (omega arith)
