-- ===== src/BufferCache.antt =====
-- src/os/buffer_cache.cc, LRUBufferCache: a cache of disk blocks in front of a device. A handler is a
-- function from the state and a message to the state and the messages that it sends, in order. A cached
-- block has no data; a request stands for its message by an id. `percentDirty() > dirtyThreshold_`, a
-- comparison of doubles, is the parameter `over` on the dividend and the divisor of percentDirty.
pub mod Eviction
pub mod Pending
pub mod Requests
pub mod Tests
use hecios.LruCache.{
  LruCache, Result, ok, ◌>>=◌, exists, lookup, insert, get_lru, get_dirty_bit, percent_dirty, init,
}
use hecios.Prelude.{
  ℕ, ◌+◌, Bool, true, false, not, List, [], ◌∷◌, ◌++◌, Option, none, some, if◌then◌else◌, ◌==◌,
  ℕ_discrete as dec,
}

-- A request, with its id and its block, and a write's write through flag.
pub data Request : Type 0 where
  read : ℕ → ℕ → Request
  write : ℕ → ℕ → Bool → Request

-- What the device is sent: a request that is passed on, or the cache's own write of a block that is
-- evicted dirty, whose write through flag has the default, false.
pub data DeviceRequest : Type 0 where
  passed_on : Request → DeviceRequest
  write_back : ℕ → DeviceRequest

-- What the cache sends: a request to the device, or the response to a request, by its id.
pub data Message : Type 0 where
  forward : DeviceRequest → Message
  read_response : ℕ → Message
  write_response : ℕ → Message

-- `pending` has the address and the id of each read that waits, oldest first: equal keys of a
-- std::multimap stand in the order of their insertion.
pub record BufferCache : Type 0 where
  pub cache : LruCache ℕ ℕ
  pub pending : List (ℕ × ℕ)
  pub num_requests : ℕ
  pub num_hits : ℕ
  pub num_misses : ℕ
  pub num_write_throughs : ℕ

-- initialize and initializeCache.
unfoldable pub initialize : ℕ → Option BufferCache
initialize num_entries = elim (init {K = ℕ} {V = ℕ} num_entries) [
  | none ↦ none
  | some cache ↦ some (record {
    cache = cache;
    pending = [];
    num_requests = 0;
    num_hits = 0;
    num_misses = 0;
    num_write_throughs = 0;
  })
]

-- isCached: a block that is there becomes the most recently used.
unfoldable pub is_cached : LruCache ℕ ℕ → ℕ → Result (LruCache ℕ ℕ × Bool)
is_cached c lba =
    if exists dec c lba then (do r ← lookup dec c lba; ok (r.0, true)) else ok (c, false)

-- isFull.
unfoldable pub is_full : LruCache ℕ ℕ → Bool
is_full c = c.max_entries == c.num_entries

-- getNextEviction.
unfoldable pub get_next_eviction : LruCache ℕ ℕ → Result (ℕ × Bool)
get_next_eviction c = do
  entry ← get_lru dec c
  dirty ← get_dirty_bit dec c entry.0
  ok (entry.0, dirty)

-- evictCacheEntry: the write of a dirty block that the next insertion evicts. The block stays in the
-- cache until that insertion.
unfoldable pub evict_cache_entry : LruCache ℕ ℕ → ℕ → Result (LruCache ℕ ℕ × List Message)
evict_cache_entry c lba =
    if is_full c
    then (do
      r ← is_cached c lba
      if r.1 then ok (r.0, []) else (do
        evictee ← get_next_eviction r.0
        ok (r.0, if evictee.1 then forward (write_back evictee.0) ∷ [] else [])))
    else ok (c, [])

-- addPending, isPending and satisfyPending.
unfoldable pub add_pending : List (ℕ × ℕ) → ℕ → ℕ → List (ℕ × ℕ)
add_pending pending lba id = pending ++ (lba, id) ∷ []

unfoldable pub is_pending : List (ℕ × ℕ) → ℕ → Bool
is_pending [] lba = false
is_pending ((a, id) ∷ rest) lba =
    let later = is_pending rest lba in if a == lba then true else later

unfoldable pub satisfy_pending : List (ℕ × ℕ) → ℕ → List (ℕ × ℕ) × List Message
satisfy_pending [] lba = ([], [])
satisfy_pending ((a, id) ∷ rest) lba =
    let (kept, sent) = satisfy_pending rest lba in
    if a == lba then (kept, read_response id ∷ sent) else ((a, id) ∷ kept, sent)

-- handleBlockRequest, for a read.
unfoldable pub handle_read : BufferCache → ℕ → ℕ → Result (BufferCache × List Message)
handle_read s id lba = do
  r ← is_cached s.cache lba
  ok (
      if r.1
      then (record s { cache = r.0; num_hits = s.num_hits + 1 }, read_response id ∷ [])
      else if is_pending s.pending lba
      then (record s { cache = r.0; pending = add_pending s.pending lba id }, [])
      else (
        record s {
          cache = r.0;
          pending = add_pending s.pending lba id;
          num_misses = s.num_misses + 1;
        },
        forward (passed_on (read id lba)) ∷ [],
      ))

-- handleBlockRequest, for a write.
unfoldable pub handle_write :
    (ℕ → ℕ → Bool) → BufferCache → ℕ → ℕ → Bool → Result (BufferCache × List Message)
handle_write over s id lba write_through = do
  (dirty, capacity) ← percent_dirty s.cache
  let forced = over dirty capacity
  let through = if forced then true else write_through
  let counted = if forced then s.num_write_throughs + 1 else s.num_write_throughs
  r ← evict_cache_entry s.cache lba
  c ← insert dec r.0 lba 0 (not through)
  ok (
    record s { cache = c; num_write_throughs = counted },
    r.1 ++ (if through then forward (passed_on (write id lba true)) else write_response id) ∷ [],
  )

-- handleMessage at the gate of requests, and handleBlockRequest.
unfoldable pub handle_block_request :
    (ℕ → ℕ → Bool) → BufferCache → Request → Result (BufferCache × List Message)
handle_block_request over s (read id lba) =
    handle_read (record s { num_requests = s.num_requests + 1 }) id lba
handle_block_request over s (write id lba write_through) =
    handle_write over (record s { num_requests = s.num_requests + 1 }) id lba write_through

-- handleBlockResponse, by the request that the device answers. `fill` keeps the block that was read,
-- unless a write has put it there in the meantime.
unfoldable pub fill : LruCache ℕ ℕ → ℕ → Result (LruCache ℕ ℕ × List Message)
fill c lba = do
  r ← is_cached c lba
  if r.1
      then ok (r.0, [])
      else (do v ← evict_cache_entry r.0 lba; c' ← insert dec v.0 lba 0 false; ok (c', v.1))

unfoldable pub handle_block_response :
    BufferCache → DeviceRequest → Result (BufferCache × List Message)
handle_block_response s (passed_on (read id lba)) = do
  filled ← fill s.cache lba
  ok (
    record s { cache = filled.0; pending = (satisfy_pending s.pending lba).0 },
    filled.1 ++ (satisfy_pending s.pending lba).1,
  )
handle_block_response s (passed_on (write id lba write_through)) =
    ok (s, if write_through then write_response id ∷ [] else [])
handle_block_response s (write_back lba) = ok (s, [])
