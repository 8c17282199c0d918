-- ===== src/BufferCache/Requests.antt =====
-- src/os/buffer_cache.cc, LRUBufferCache::handleBlockRequest: what a read and a write do to the cache, and
-- what is sent for them.
use mathlib.Core.Logic.{if_pos}
use hecios.Assoc.{find, erase_key}
use hecios.LruCache.{Entry, LruCache, ok, undefined, insert, percent_dirty}
use hecios.LruCache.Recency.{Represents, inserted, evicted}
use hecios.LruCache.Insertion.{entry, insert-Represents}
use hecios.BufferCache.{
  BufferCache, forward, passed_on, read, write, read_response, write_response, is_cached,
  is_pending, add_pending, evict_cache_entry, handle_read, handle_write,
}
use hecios.BufferCache.Eviction.{
  is_cached-hit, is_cached-miss, evict_cache_entry-absent, evict_cache_entry-Represents, refreshed,
  written_back, holds,
}
use hecios.BufferCache.Pending.{waiting}
use hecios.Prelude.{
  ℕ, ◌+◌, Bool, true, false, not, List, [], ◌∷◌, ◌++◌, some, Option-cases, Bool-cases,
  if◌then◌else◌, ◌==◌, ◌≡◌, ◌⊎◌, leb, inl, inr, refl, sym, ◌∙◌, ap, arith, length,
  ℕ_discrete as dec,
}

inserted-hit :
    (n lba : ℕ) (x e : Entry ℕ) (m : List (ℕ × Entry ℕ))
    → find dec lba m ≡ some e
    → inserted dec n lba x m ≡ (lba, x) ∷ erase_key dec lba m
unfolding inserted
inserted-hit n lba x e m hit = rw (inserted, hit)

find-front : (lba : ℕ) (e : Entry ℕ) (m : List (ℕ × Entry ℕ)) → find dec lba ((lba, e) ∷ m) ≡ some e
unfolding find
find-front lba e m = if_pos (dec lba lba) refl (some e) (find dec lba m)

erase_key-front :
    (lba : ℕ) (e : Entry ℕ) (m : List (ℕ × Entry ℕ)) → erase_key dec lba ((lba, e) ∷ m) ≡ m
unfolding erase_key
erase_key-front lba e m = if_pos (dec lba lba) refl m ((lba, e) ∷ erase_key dec lba m)

-- A list that differs from `l` in the place of the block at most.
record Moved (lba : ℕ) (e : Entry ℕ) (l m : List (ℕ × Entry ℕ)) : Type 0 where
  pub here : find dec lba m ≡ some e
  pub others : erase_key dec lba m ≡ erase_key dec lba l

refreshed-Moved :
    (full : Bool) (lba : ℕ) (e : Entry ℕ) (l : List (ℕ × Entry ℕ))
    → find dec lba l ≡ some e
    → Moved lba e l (if full then refreshed lba l else l)
unfolding refreshed
refreshed-Moved true lba e l hit =
    rw (refreshed, hit)
      (record {
        here = find-front lba e (erase_key dec lba l);
        others = erase_key-front lba e (erase_key dec lba l);
      })
refreshed-Moved false lba e l hit = record { here = hit; others = refl }

insert-Moved :
    (v : LruCache ℕ ℕ) (n lba : ℕ) (e : Entry ℕ) (dirty : Bool) (l m : List (ℕ × Entry ℕ))
    → Represents dec v m
    → Moved lba e l m
    → find dec lba l ≡ some e
    → (c' : LruCache ℕ ℕ) × (insert dec v lba 0 dirty ≡ ok c')
      × Represents dec c' (inserted dec n lba (entry dec 0 dirty) l)
insert-Moved v n lba e dirty l m r moved hit =
    let (c', run, _, r') = insert-Represents dec v lba 0 dirty m r in
    let same : inserted dec v.max_entries lba (entry dec 0 dirty) m
        ≡ inserted dec n lba (entry dec 0 dirty) l =
      inserted-hit v.max_entries lba (entry dec 0 dirty) e m moved.here
      ∙ ap (◌∷◌ (lba, entry dec 0 dirty)) moved.others
      ∙ sym (inserted-hit n lba (entry dec 0 dirty) e l hit) in
    (c', run, rw (← same) r')

-- evictCacheEntry and the insertion that follows it.
evict-insert :
    (c : LruCache ℕ ℕ) (lba : ℕ) (dirty : Bool) (l : List (ℕ × Entry ℕ))
    → Represents dec c l
    → (v c' : LruCache ℕ ℕ) × (evict_cache_entry c lba
        ≡ ok (v, written_back (evicted dec c.max_entries lba l)))
      × (insert dec v lba 0 dirty ≡ ok c')
      × Represents dec c' (inserted dec c.max_entries lba (entry dec 0 dirty) l)
evict-insert c lba dirty l r = elim (Option-cases (find dec lba l)) [
  | inl miss ↦
      let (c', run, _, r') = insert-Represents dec c lba 0 dirty l r in
      (c, c', evict_cache_entry-absent c lba l r miss, run, r')
  | inr (e, hit) ↦
      let (v, run, rv) = evict_cache_entry-Represents c lba l r in
      let (c', put, r') =
        insert-Moved v c.max_entries lba e dirty l _ rv
          (refreshed-Moved (length l == c.max_entries) lba e l hit) hit in
      (v, c', run, put, r')
]

abbrev pub is_nil : List ℕ → Bool
is_nil [] = true
is_nil (id ∷ ids) = false

-- Whether a write goes through to the device: it asks for that, or too much of the cache is dirty.
abbrev pub goes_through : (ℕ → ℕ → Bool) → BufferCache → Bool → Bool
goes_through over s write_through =
    if over s.cache.num_dirty s.cache.max_entries then true else write_through

percent_dirty_lem :
    (c : LruCache ℕ ℕ) (l : List (ℕ × Entry ℕ))
    → Represents dec c l
    → percent_dirty c
      ≡ (if leb c.num_dirty (length l) then ok (c.num_dirty, c.max_entries) else undefined)
unfolding percent_dirty
percent_dirty_lem c l r = let same = r.counted in let few = r.bounded in ground arith

-- Where the cache stands for a list of blocks by recency, a write has an assert that fails if the
-- number of dirty entries that the cache keeps is greater than that of the blocks. Otherwise it
-- returns: the block is the most recently used, dirty exactly if the write does not go through;
-- the block that this evicts is written first if it is dirty; then the write is passed on if it
-- goes through, and answered if not; the reads that wait still do.
pub handle_write_lem :
    (over : ℕ → ℕ → Bool) (s : BufferCache) (id lba : ℕ) (write_through : Bool)
    (l : List (ℕ × Entry ℕ))
    → Represents dec s.cache l
    → ((leb s.cache.num_dirty (length l) ≡ false)
        × (handle_write over s id lba write_through ≡ undefined))
      ⊎ ((leb s.cache.num_dirty (length l) ≡ true)
          × ((s' : BufferCache) × (handle_write over s id lba write_through
                ≡ ok (
                  s',
                  written_back (evicted dec s.cache.max_entries lba l)
                      ++ (if goes_through over s write_through
                          then forward (passed_on (write id lba true))
                          else write_response id)
                        ∷ [],
                ))
              × Represents dec s'.cache (
                  inserted dec s.cache.max_entries lba
                    (entry dec 0 (not (goes_through over s write_through)))
                    l)
              × (s'.pending ≡ s.pending)))
unfolding handle_write
handle_write_lem over s id lba write_through l r =
    let asserts = percent_dirty_lem s.cache l r in
    let (v, c', evict, put, r') =
      evict-insert s.cache lba (not (goes_through over s write_through)) l r in
    elim (Bool-cases (leb s.cache.num_dirty (length l))) [
      | inr over_counted ↦ inl (over_counted, rw (handle_write, asserts, over_counted))
      | inl counted ↦ inr (
        counted,
        (
          record s {
            cache = c';
            num_write_throughs =
                if over s.cache.num_dirty s.cache.max_entries
                then s.num_write_throughs + 1
                else s.num_write_throughs;
          },
          rw (handle_write, asserts, counted, evict, put),
          r',
          refl,
        ),
      )
    ]

-- A read waits for the block exactly if its list of waiting reads is not empty.
is_pending-waiting :
    (pending : List (ℕ × ℕ)) (lba : ℕ) → is_pending pending lba ≡ not (is_nil (waiting pending lba))
unfolding is_pending
is_pending-waiting [] lba = refl
is_pending-waiting ((a, id) ∷ rest) lba = ground (arith, is_pending-waiting rest lba)

waiting-append_ne :
    (pending : List (ℕ × ℕ)) (lba id other : ℕ)
    → (lba == other) ≡ false
    → waiting (pending ++ (lba, id) ∷ []) other ≡ waiting pending other
waiting-append_ne [] lba id other h = ground arith
waiting-append_ne ((a, x) ∷ rest) lba id other h =
    ground (arith, waiting-append_ne rest lba id other h)

waiting-append :
    (pending : List (ℕ × ℕ)) (lba id : ℕ)
    → waiting (pending ++ (lba, id) ∷ []) lba ≡ waiting pending lba ++ id ∷ []
waiting-append [] lba id = ground arith
waiting-append ((a, x) ∷ rest) lba id = ground (arith, waiting-append rest lba id)

handle_read-hit :
    (s : BufferCache) (c' : LruCache ℕ ℕ) (id lba : ℕ)
    → is_cached s.cache lba ≡ ok (c', true)
    → handle_read s id lba
      ≡ ok (record s { cache = c'; num_hits = s.num_hits + 1 }, read_response id ∷ [])
unfolding handle_read
handle_read-hit s c' id lba cached = rw cached

handle_read-wait :
    (s : BufferCache) (c' : LruCache ℕ ℕ) (id lba : ℕ)
    → is_cached s.cache lba ≡ ok (c', false)
    → is_pending s.pending lba ≡ true
    → handle_read s id lba
      ≡ ok (record s { cache = c'; pending = add_pending s.pending lba id }, [])
unfolding handle_read
handle_read-wait s c' id lba cached waits = rw (cached, waits)

handle_read-ask :
    (s : BufferCache) (c' : LruCache ℕ ℕ) (id lba : ℕ)
    → is_cached s.cache lba ≡ ok (c', false)
    → is_pending s.pending lba ≡ false
    → handle_read s id lba
      ≡ ok (
        record s {
          cache = c';
          pending = add_pending s.pending lba id;
          num_misses = s.num_misses + 1;
        },
        forward (passed_on (read id lba)) ∷ [],
      )
unfolding handle_read
handle_read-ask s c' id lba cached waits = rw (cached, waits)

-- Where the cache stands for a list of blocks by recency, a read returns. Of a cached block: it
-- is answered at once, the block becomes the most recently used, and the reads that wait for it
-- stay. Of another block: the read is put behind those that wait for the block, it is passed on
-- exactly if none waits, and the cache stays. The reads that wait for other blocks still do.
pub handle_read_lem :
    (s : BufferCache) (id lba : ℕ) (l : List (ℕ × Entry ℕ))
    → Represents dec s.cache l
    → (s' : BufferCache) × (handle_read s id lba
        ≡ ok (
          s',
          if holds (find dec lba l)
              then read_response id ∷ []
              else if is_nil (waiting s.pending lba)
              then forward (passed_on (read id lba)) ∷ []
              else [],
        ))
      × Represents dec s'.cache (refreshed lba l)
      × (waiting s'.pending lba ≡ (
          if holds (find dec lba l)
          then waiting s.pending lba
          else waiting s.pending lba ++ id ∷ []))
      × ((other : ℕ) → (lba == other) ≡ false → waiting s'.pending other ≡ waiting s.pending other)
unfolding refreshed add_pending
handle_read_lem s id lba l r = elim (Option-cases (find dec lba l)) [
  | inr (e, hit) ↦
      let (c', cached, r') = is_cached-hit s.cache lba e l r hit in
      (
        record s { cache = c'; num_hits = s.num_hits + 1 },
        rw hit (handle_read-hit s c' id lba cached),
        rw (refreshed, hit) r',
        rw hit,
        λ other h. refl,
      )
  | inl miss ↦
      let cached = is_cached-miss s.cache lba l r miss in
      elim (Bool-cases (is_pending s.pending lba)) [
        | inl waits ↦
            let shape = is_pending-waiting s.pending lba in
            let some_wait : is_nil (waiting s.pending lba) ≡ false = ground arith in
            (
              record s { pending = add_pending s.pending lba id },
              rw (miss, some_wait) (handle_read-wait s s.cache id lba cached waits),
              rw (refreshed, miss) r,
              rw miss (waiting-append s.pending lba id),
              λ other h. waiting-append_ne s.pending lba id other h,
            )
        | inr none_waits ↦
            let shape = is_pending-waiting s.pending lba in
            let empty : is_nil (waiting s.pending lba) ≡ true = ground arith in
            (
              record s { pending = add_pending s.pending lba id; num_misses = s.num_misses + 1 },
              rw (miss, empty) (handle_read-ask s s.cache id lba cached none_waits),
              rw (refreshed, miss) r,
              rw miss (waiting-append s.pending lba id),
              λ other h. waiting-append_ne s.pending lba id other h,
            )
      ]
]
