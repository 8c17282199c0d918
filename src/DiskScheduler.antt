-- ===== src/DiskScheduler.antt =====
-- src/os/disk_scheduler.cc: the order in which a disk serves requests. The module passes messages
-- between the gates `in`, `out` and `request`, and keeps waiting requests in a scheduler: first
-- come, first served (FCFS) or shortest seek time first (SSTF). The container cQueue belongs to
-- the simulation kernel, and is an interface here.
pub mod Extract
pub mod Idle
pub mod Route
pub mod Seek
pub mod Tests
use hecios.Prelude.{
  ℕ, Bool, true, false, not, ◌&&◌, ◌||◌, List, [], ◌∷◌, ◌++◌, map, Option, none, some, ◌>>=◌,
  if◌then◌else◌, ◌==◌, le_i64, lt_i64, sub_u64,
}

-- `request` is the pointer to the request message, by which an entry is known.
pub record SchedulerEntry : Type 0 where
  pub lba : ℕ
  pub request : ℕ
  pub is_read_request : Bool

-- The messages by their dynamic type. Each has its pointer first. A request has its address; a
-- response has the pointer and the address of the request that is its context.
pub data Message : Type 0 where
  read_request : ℕ → ℕ → Message
  write_request : ℕ → ℕ → Message
  read_response : ℕ → ℕ → ℕ → Message
  write_response : ℕ → ℕ → ℕ → Message
  other : ℕ → Message

pub data Gate : Type 0 where
  in_gate out_gate request_gate : Gate

-- What is sent: a message that exists, through a gate, or through `out` a new response of the
-- kind of a waiting request (true for a read), with the request as its context.
pub data Output : Type 0 where
  pass : Gate → ℕ → Output
  respond : Bool → ℕ → Output

abbrev pub pointer : Message → ℕ
pointer (read_request m a) = m
pointer (write_request m a) = m
pointer (read_response m r a) = m
pointer (write_response m r a) = m
pointer (other m) = m

-- cQueue of the simulation kernel. `visit` is the sequence that an iterator hands out while the
-- queue is left as it is, and `visit_from_back` that of an iterator made with the argument false.
pub record Queue {ℓ} (Q : Type ℓ) : Type ℓ where
  pub new : Q
  pub empty : Q → Bool
  pub insert : Q → SchedulerEntry → Q
  pub pop : Q → Option (SchedulerEntry × Q)
  pub remove : Q → SchedulerEntry → Q
  pub visit : Q → List SchedulerEntry
  pub visit_from_back : Q → List SchedulerEntry

-- What a concrete scheduler implements; `none` is undefined behaviour.
pub record Scheduler {ℓ} (S : Type ℓ) : Type ℓ where
  pub is_empty : S → Bool
  pub add_entry : S → SchedulerEntry → S
  pub pop_next_entry : S → Option (SchedulerEntry × S)
  pub pop_requests_completed_by_read : S → ℕ → Option (List SchedulerEntry × S)
  pub pop_requests_completed_by_write : S → ℕ → Option (List SchedulerEntry × S)

-- The entry that handleMessage makes of a request. `none`: the assert fails.
unfoldable pub scheduler_entry : Message → Option SchedulerEntry
scheduler_entry (read_request m a) = some (record { lba = a; request = m; is_read_request = true })
scheduler_entry (write_request m a) =
    some (record { lba = a; request = m; is_read_request = false })
scheduler_entry _ = none

abbrev pub response : SchedulerEntry → Output
response e = respond e.is_read_request e.request

module _ {ℓ} {S : Type ℓ} (scheduler : Scheduler S) where
  unfoldable pub completed_requests : S → Message → Option (List SchedulerEntry × S)
  completed_requests s (read_response m r a) = scheduler.pop_requests_completed_by_read s a
  completed_requests s (write_response m r a) = scheduler.pop_requests_completed_by_write s a
  completed_requests s _ = some ([], s)

  -- The last part of handleMessage, which schedules the next entry.
  unfoldable pub send_next : S → Option (S × List Output)
  send_next s = if scheduler.is_empty s then some (s, []) else (do
    (next, rest) ← scheduler.pop_next_entry s
    some (rest, pass out_gate next.request ∷ []))

  unfoldable pub handle_request : S → Message → Option (S × List Output)
  handle_request s msg =
      if scheduler.is_empty s
      then some (s, pass request_gate (pointer msg) ∷ [])
      else (do e ← scheduler_entry msg; some (scheduler.add_entry s e, []))

  unfoldable pub handle_response : S → Message → Option (S × List Output)
  handle_response s msg = do
    (completed, rest) ← completed_requests s msg
    (left, next) ← send_next rest
    some (left, map response completed ++ pass out_gate (pointer msg) ∷ next)

  -- handleMessage. `none`: an assert fails or the behaviour is undefined.
  unfoldable pub handle_message : S → Gate → Message → Option (S × List Output)
  handle_message s in_gate msg = handle_request s msg
  handle_message s _ msg = handle_response s msg

  -- The simulation delivers messages one after the other.
  unfoldable pub handle_messages : S → List (Gate × Message) → Option (S × List Output)
  handle_messages s [] = some (s, [])
  handle_messages s ((gate, msg) ∷ msgs) = do
    (next, sent) ← handle_message s gate msg
    (end, later) ← handle_messages next msgs
    some (end, sent ++ later)

abbrev pub is_identical : ℕ → Bool → SchedulerEntry → Bool
is_identical lba reads_only e = (lba == e.lba) && (e.is_read_request || not reads_only)

-- std's abs64 of basic_types.h, on the bit pattern of an int64_t.
unfoldable pub abs64 : ℕ → ℕ
abs64 val = if le_i64 0 val then val else sub_u64 0 val

module _ {ℓ} {Q : Type ℓ} (queue : Queue Q) where
  -- The loop of extractIdenticalEntries over the entries that the iterator has before it, with what
  -- it has completed. The loop removes a matching entry, which is the item that the iterator stands
  -- on, and then moves the iterator on from it: `none`, since that is undefined for an iterator
  -- of a cQueue.
  unfoldable pub extract_entries :
      ℕ → Bool → List SchedulerEntry → Q → List SchedulerEntry → Option (List SchedulerEntry × Q)
  extract_entries lba reads_only completed q [] = some (completed, q)
  extract_entries lba reads_only completed q (e ∷ es) = elim (is_identical lba reads_only e) [
    | true ↦ none
    | false ↦ extract_entries lba reads_only completed q es
  ]

  unfoldable pub extract_identical_entries : Q → ℕ → Bool → Option (List SchedulerEntry × Q)
  extract_identical_entries q lba reads_only = extract_entries lba reads_only [] q (queue.visit q)

  -- FCFSDiskScheduler, whose state is its queue.
  unfoldable pub fcfs_scheduler : Scheduler Q
  fcfs_scheduler = record {
    is_empty = queue.empty;
    add_entry = queue.insert;
    pop_next_entry = queue.pop;
    pop_requests_completed_by_read = λ q lba. extract_identical_entries q lba true;
    pop_requests_completed_by_write = λ q lba. extract_identical_entries q lba false;
  }

-- SSTFDiskScheduler; `initializeScheduler` sets the address to 0.
pub record SstfState {ℓ} (Q : Type ℓ) : Type ℓ where
  pub sstf_queue : Q
  pub current_address : ℕ

unfoldable pub initialize_scheduler {ℓ} : {Q : Type ℓ} → Queue Q → SstfState Q
initialize_scheduler queue = record { sstf_queue = queue.new; current_address = 0 }

unfoldable pub seek_delta : ℕ → SchedulerEntry → ℕ
seek_delta address e = abs64 (sub_u64 address e.lba)

-- The loop of popNextEntry: the closest entry so far and its delta.
unfoldable pub closest_entry : ℕ → SchedulerEntry → ℕ → List SchedulerEntry → SchedulerEntry
closest_entry address closest smallest [] = closest
closest_entry address closest smallest (e ∷ es) =
    if lt_i64 (seek_delta address e) smallest
    then closest_entry address e (seek_delta address e) es
    else closest_entry address closest smallest es

module _ {ℓ} {Q : Type ℓ} (queue : Queue Q) where
  -- popNextEntry. `none`: it reads through an iterator that is at its end.
  unfoldable pub sstf_pop_next_entry : SstfState Q → Option (SchedulerEntry × SstfState Q)
  sstf_pop_next_entry s = elim (queue.visit_from_back s.sstf_queue) [
    | [] ↦ none
    | e ∷ es ↦
        let closest = closest_entry s.current_address e (seek_delta s.current_address e) (e ∷ es) in
        some (closest, record s { sstf_queue = queue.remove s.sstf_queue closest })
  ]

  unfoldable pub sstf_extract : SstfState Q → ℕ → Bool → Option (List SchedulerEntry × SstfState Q)
  sstf_extract s lba reads_only = do
    (completed, rest) ← extract_identical_entries queue s.sstf_queue lba reads_only
    some (completed, record s { sstf_queue = rest })

  unfoldable pub sstf_scheduler : Scheduler (SstfState Q)
  sstf_scheduler = record {
    is_empty = λ s. queue.empty s.sstf_queue;
    add_entry = λ s e. record s { sstf_queue = queue.insert s.sstf_queue e };
    pop_next_entry = sstf_pop_next_entry;
    pop_requests_completed_by_read = λ s lba. sstf_extract s lba true;
    pop_requests_completed_by_write = λ s lba. sstf_extract s lba false;
  }
