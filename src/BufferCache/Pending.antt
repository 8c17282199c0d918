-- ===== src/BufferCache/Pending.antt =====
-- src/os/buffer_cache.cc, LRUBufferCache::handleBlockResponse for a read: the block is kept, and every read
-- that waits for it is answered.
use hecios.Assoc.{find, erase_key}
use hecios.LruCache.{Entry, LruCache, ok, insert}
use hecios.LruCache.Recency.{Represents, inserted, evicted}
use hecios.LruCache.Insertion.{entry, insert-Represents}
use hecios.BufferCache.{
  BufferCache, Message, passed_on, read, read_response, is_cached, evict_cache_entry, fill,
  satisfy_pending, handle_block_response,
}
use hecios.BufferCache.Eviction.{
  evicted-hit, is_cached-hit, is_cached-miss, evict_cache_entry-absent, written_back,
}
use hecios.Prelude.{
  ℕ, true, false, List, [], ◌∷◌, ◌++◌, map, none, some, Option-cases, if◌then◌else◌, ◌==◌, ◌≡◌, inl,
  inr, refl, arith, ℕ_discrete as dec,
}

-- The ids of the reads that wait for a block, oldest first, and the reads that wait for another.
abbrev pub waiting : List (ℕ × ℕ) → ℕ → List ℕ
waiting [] lba = []
waiting ((a, id) ∷ rest) lba =
    let later = waiting rest lba in if a == lba then id ∷ later else later

satisfy_pending-sent :
    (pending : List (ℕ × ℕ)) (lba : ℕ)
    → (satisfy_pending pending lba).1 ≡ map read_response (waiting pending lba)
unfolding satisfy_pending
satisfy_pending-sent [] lba = refl
satisfy_pending-sent ((a, id) ∷ rest) lba = ground (arith, satisfy_pending-sent rest lba)

waiting-satisfy_pending_self :
    (pending : List (ℕ × ℕ)) (lba : ℕ) → waiting (satisfy_pending pending lba).0 lba ≡ []
unfolding satisfy_pending
waiting-satisfy_pending_self [] lba = refl
waiting-satisfy_pending_self ((a, id) ∷ rest) lba =
    ground (arith, waiting-satisfy_pending_self rest lba)

waiting-satisfy_pending_ne :
    (pending : List (ℕ × ℕ)) (lba other : ℕ)
    → (lba == other) ≡ false
    → waiting (satisfy_pending pending lba).0 other ≡ waiting pending other
unfolding satisfy_pending
waiting-satisfy_pending_ne [] lba other h = refl
waiting-satisfy_pending_ne ((a, id) ∷ rest) lba other h =
    ground (arith, waiting-satisfy_pending_ne rest lba other h)

fill-hit :
    (c c' : LruCache ℕ ℕ) (lba : ℕ) → is_cached c lba ≡ ok (c', true) → fill c lba ≡ ok (c', [])
unfolding fill
fill-hit c c' lba cached = rw (fill, cached)

fill-miss :
    (c v c' : LruCache ℕ ℕ) (lba : ℕ) (sent : List Message)
    → is_cached c lba ≡ ok (c, false)
    → evict_cache_entry c lba ≡ ok (v, sent)
    → insert dec v lba 0 false ≡ ok c'
    → fill c lba ≡ ok (c', sent)
unfolding fill
fill-miss c v c' lba sent cached evict run = rw (fill, cached, evict, run)

-- The list that the cache stands for once a block has been read: the block is in front, and clean if
-- it was not there before.
unfoldable pub filled : ℕ → ℕ → List (ℕ × Entry ℕ) → List (ℕ × Entry ℕ)
filled capacity lba l = elim (find dec lba l) [
  | none ↦ inserted dec capacity lba (entry dec 0 false) l
  | some e ↦ (lba, e) ∷ erase_key dec lba l
]

fill-Represents :
    (c : LruCache ℕ ℕ) (lba : ℕ) (l : List (ℕ × Entry ℕ))
    → Represents dec c l
    → (c' : LruCache ℕ ℕ) × (fill c lba ≡ ok (c', written_back (evicted dec c.max_entries lba l)))
      × Represents dec c' (filled c.max_entries lba l)
unfolding filled
fill-Represents c lba l r = elim (Option-cases (find dec lba l)) [
  | inl miss ↦
      let (c', run, _, r') = insert-Represents dec c lba 0 false l r in
      (
        c',
        fill-miss c c c' lba _ (is_cached-miss c lba l r miss)
            (evict_cache_entry-absent c lba l r miss) run,
        rw (filled, miss) r',
      )
  | inr (e, hit) ↦
      let (c', cached, r') = is_cached-hit c lba e l r hit in
      (
        c',
        rw (evicted-hit c.max_entries lba e l hit) (fill-hit c c' lba cached),
        rw (filled, hit) r',
      )
]

-- Where the cache stands for a list of blocks by recency, handleBlockResponse to a read returns:
-- the block is then cached as the most recently used; a dirty block that this evicts is written;
-- every read that waits for the block is answered, in the order of arrival; none waits for it
-- afterwards, and those for other blocks still do.
pub handle_block_response_lem :
    (s : BufferCache) (id lba : ℕ) (l : List (ℕ × Entry ℕ))
    → Represents dec s.cache l
    → (s' : BufferCache) × (handle_block_response s (passed_on (read id lba))
        ≡ ok (
          s',
          written_back (evicted dec s.cache.max_entries lba l)
              ++ map read_response (waiting s.pending lba),
        ))
      × Represents dec s'.cache (filled s.cache.max_entries lba l)
      × (waiting s'.pending lba ≡ [])
      × ((other : ℕ) → (lba == other) ≡ false → waiting s'.pending other ≡ waiting s.pending other)
unfolding handle_block_response
handle_block_response_lem s id lba l r =
    let (c', run, r') = fill-Represents s.cache lba l r in
    (
      record s { cache = c'; pending = (satisfy_pending s.pending lba).0 },
      rw (run, satisfy_pending-sent s.pending lba),
      r',
      waiting-satisfy_pending_self s.pending lba,
      λ other h. waiting-satisfy_pending_ne s.pending lba other h,
    )
