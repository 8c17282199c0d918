-- ===== src/BufferCache/Eviction.antt =====
-- src/os/buffer_cache.cc, evictCacheEntry: no dirty block leaves the cache without a write.
use hecios.Assoc.{find, erase_key}
use hecios.LruCache.{Entry, LruCache, ok, exists, get_dirty_bit}
use hecios.LruCache.Recency.{Represents, evicted, last_entry}
use hecios.LruCache.Insertion.{evict-Represents}
use hecios.LruCache.Access.{lookup-Represents}
use hecios.LruCache.Reads.{get_lru_lem}
use hecios.BufferCache.{
  Message, forward, write_back, is_cached, is_full, get_next_eviction, evict_cache_entry,
}
use hecios.Prelude.{
  ℕ, Bool, true, false, List, [], ◌∷◌, Option, none, some, Option-cases, Bool-cases, if◌then◌else◌,
  ◌==◌, ==_iff, ◌≡◌, inl, inr, sym, ◌∙◌, arith, length, ℕ_discrete as dec,
}

-- The entries after isCached: a block that is there is in front.
unfoldable pub refreshed : ℕ → List (ℕ × Entry ℕ) → List (ℕ × Entry ℕ)
refreshed lba l = elim (find dec lba l) [ none ↦ l | some e ↦ (lba, e) ∷ erase_key dec lba l ]

abbrev pub holds : Option (Entry ℕ) → Bool
holds none = false
holds (some e) = true

-- The write that an evicted entry needs.
abbrev pub written_back : Option (ℕ × Entry ℕ) → List Message
written_back none = []
written_back (some (k, e)) = if e.is_dirty then forward (write_back k) ∷ [] else []

none-some : {x : Entry ℕ} → none ≡ some x → ⊥
none-some h = cc

some_inj : {x y : Entry ℕ} → some x ≡ some y → x ≡ y
some_inj h = cc

pub is_cached-miss :
    (c : LruCache ℕ ℕ) (lba : ℕ) (l : List (ℕ × Entry ℕ))
    → Represents dec c l
    → find dec lba l ≡ none
    → is_cached c lba ≡ ok (c, false)
unfolding is_cached exists
is_cached-miss c lba l r miss = rw (exists, r.agree lba, miss)

pub is_cached-hit :
    (c : LruCache ℕ ℕ) (lba : ℕ) (e : Entry ℕ) (l : List (ℕ × Entry ℕ))
    → Represents dec c l
    → find dec lba l ≡ some e
    → (c' : LruCache ℕ ℕ) × (is_cached c lba ≡ ok (c', true))
      × Represents dec c' ((lba, e) ∷ erase_key dec lba l)
unfolding is_cached exists
is_cached-hit c lba e l r hit = elim (lookup-Represents dec c lba l r) [
  | inl (miss, _) ↦ (let clash : none ≡ some e = sym miss ∙ hit in absurd (none-some clash))
  | inr (x, c', found, run, r') ↦
      let same : some x ≡ some e = sym found ∙ hit in
      (c', rw (exists, r.agree lba, hit, run), rw (← some_inj same) r')
]

get_next_eviction-full :
    (c : LruCache ℕ ℕ) (l : List (ℕ × Entry ℕ))
    → Represents dec c l
    → length l ≡ c.max_entries
    → (j : ℕ) × (e : Entry ℕ) × (get_next_eviction c ≡ ok (j, e.is_dirty))
      × (last_entry dec l ≡ some (j, e))
unfolding get_next_eviction get_dirty_bit last_entry
get_next_eviction-full c l r full =
    let (j, e, front, snoc, s, last, hit, _) = evict-Represents dec c l r full in
    let counted = r.counted in
    let positive = r.positive in
    (
      j,
      e,
      rw (get_lru_lem dec c j e (ground arith) last (r.agree j ∙ hit), r.agree j, hit),
      rw (last_entry, s),
    )

pub evicted-hit :
    (n lba : ℕ) (e : Entry ℕ) (l : List (ℕ × Entry ℕ))
    → find dec lba l ≡ some e
    → evicted dec n lba l ≡ none
unfolding evicted
evicted-hit n lba e l hit = rw (evicted, hit)

evicted-room :
    (n lba : ℕ) (l : List (ℕ × Entry ℕ)) → (length l == n) ≡ false → evicted dec n lba l ≡ none
unfolding evicted
evicted-room n lba l room = elim (Option-cases (find dec lba l)) [
  | inl miss ↦ rw (evicted, miss, room)
  | inr (e, hit) ↦ evicted-hit n lba e l hit
]

evicted-full :
    (n lba : ℕ) (x : ℕ × Entry ℕ) (l : List (ℕ × Entry ℕ))
    → find dec lba l ≡ none
    → (length l == n) ≡ true
    → last_entry dec l ≡ some x
    → evicted dec n lba l ≡ some x
unfolding evicted
evicted-full n lba x l miss at_limit last = rw (evicted, miss, at_limit, last)

module _ (c : LruCache ℕ ℕ) (lba : ℕ) where
  evict_cache_entry-room : is_full c ≡ false → evict_cache_entry c lba ≡ ok (c, [])
  unfolding evict_cache_entry
  evict_cache_entry-room h = rw (evict_cache_entry, h)

  evict_cache_entry-hit :
      (c' : LruCache ℕ ℕ)
      → is_full c ≡ true
      → is_cached c lba ≡ ok (c', true)
      → evict_cache_entry c lba ≡ ok (c', [])
  unfolding evict_cache_entry
  evict_cache_entry-hit c' h cached = rw (evict_cache_entry, h, cached)

  evict_cache_entry-miss :
      (j : ℕ) (dirty : Bool)
      → is_full c ≡ true
      → is_cached c lba ≡ ok (c, false)
      → get_next_eviction c ≡ ok (j, dirty)
      → evict_cache_entry c lba ≡ ok (c, if dirty then forward (write_back j) ∷ [] else [])
  unfolding evict_cache_entry
  evict_cache_entry-miss j dirty h cached next = rw (evict_cache_entry, h, cached, next)

is_full-length :
    (c : LruCache ℕ ℕ) (l : List (ℕ × Entry ℕ))
    → Represents dec c l
    → is_full c ≡ (length l == c.max_entries)
unfolding is_full
is_full-length c l r = let counted = r.counted in ground arith

-- For a block that is not cached, evictCacheEntry leaves the cache as it is.
pub evict_cache_entry-absent :
    (c : LruCache ℕ ℕ) (lba : ℕ) (l : List (ℕ × Entry ℕ))
    → Represents dec c l
    → find dec lba l ≡ none
    → evict_cache_entry c lba ≡ ok (c, written_back (evicted dec c.max_entries lba l))
evict_cache_entry-absent c lba l r miss = elim (Bool-cases (length l == c.max_entries)) [
  | inl at_limit ↦
      let (j, e, next, last) =
        get_next_eviction-full c l r ((==_iff (length l) c.max_entries).0 at_limit) in
      rw (evicted-full c.max_entries lba (j, e) l miss at_limit last) (
        evict_cache_entry-miss c lba j e.is_dirty (is_full-length c l r ∙ at_limit)
          (is_cached-miss c lba l r miss) next)
  | inr room ↦
      rw (evicted-room c.max_entries lba l room)
        (evict_cache_entry-room c lba (is_full-length c l r ∙ room))
]

-- On a cache that stands for a list of blocks by recency, evictCacheEntry returns, and sends the
-- write of exactly the entry that an insertion of the block is about to evict, if that entry is
-- dirty; at a full cache it counts as a use of a block that is there.
pub evict_cache_entry-Represents :
    (c : LruCache ℕ ℕ) (lba : ℕ) (l : List (ℕ × Entry ℕ))
    → Represents dec c l
    → (c' : LruCache ℕ ℕ) × (evict_cache_entry c lba
        ≡ ok (c', written_back (evicted dec c.max_entries lba l)))
      × Represents dec c' (if length l == c.max_entries then refreshed lba l else l)
unfolding refreshed
evict_cache_entry-Represents c lba l r = elim (Option-cases (find dec lba l)) [
  | inl miss ↦ (c, evict_cache_entry-absent c lba l r miss, rw (refreshed, miss) (unmoved l r))
  | inr (e, hit) ↦
      let gone = evicted-hit c.max_entries lba e l hit in
      elim (Bool-cases (length l == c.max_entries)) [
        | inl at_limit ↦
            let (c', cached, r') = is_cached-hit c lba e l r hit in
            (
              c',
              rw gone (evict_cache_entry-hit c lba c' (is_full-length c l r ∙ at_limit) cached),
              rw (at_limit, refreshed, hit) r',
            )
        | inr room ↦
            (c, rw gone (evict_cache_entry-room c lba (is_full-length c l r ∙ room)), rw room r)
      ]
]
  where
    unmoved :
        (m : List (ℕ × Entry ℕ))
        → Represents dec c m
        → Represents dec c (if length l == c.max_entries then m else m)
    unmoved m q = ground arith
