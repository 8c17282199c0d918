-- ===== src/DiskScheduler/Idle.antt =====
-- What the disk scheduler does from its start: the queue is empty then, and handleMessage adds an
-- entry only if the queue is not empty.
use hecios.DiskScheduler.{
  Message, Gate, Output, in_gate, out_gate, request_gate, read_request, write_request,
  read_response, write_response, other, pass, pointer, Queue, Scheduler, completed_requests,
  send_next, handle_request, handle_response, handle_message, handle_messages, extract_entries,
  extract_identical_entries, fcfs_scheduler, initialize_scheduler, sstf_extract, sstf_scheduler,
}
use hecios.DiskScheduler.Extract.{IsQueue, is_nil}
use hecios.Prelude.{ℕ, Bool, true, List, [], ◌∷◌, map, some, ◌≡◌, refl, ◌∙◌, ap}

-- The gate through which a message that arrives at a gate is passed on.
abbrev pub opposite : Gate → Gate
opposite in_gate = request_gate
opposite _ = out_gate

abbrev pub passed : Gate × Message → Output
passed (gate, msg) = pass (opposite gate) (pointer msg)

module _ {ℓ} {S : Type ℓ} (scheduler : Scheduler S) where
  -- Nothing waits in the scheduler, and it finds nothing completed.
  abbrev IsIdle : S → Type ℓ
  IsIdle s =
      (scheduler.is_empty s ≡ true)
      × ((a : ℕ) → scheduler.pop_requests_completed_by_read s a ≡ some ([], s))
      × ((a : ℕ) → scheduler.pop_requests_completed_by_write s a ≡ some ([], s))

  completed_requests-idle :
      (s : S) (msg : Message) → IsIdle s → completed_requests scheduler s msg ≡ some ([], s)
  unfolding completed_requests
  completed_requests-idle s (read_response m r a) (_, read, _) = read a
  completed_requests-idle s (write_response m r a) (_, _, write) = write a
  completed_requests-idle s (read_request m a) idle = refl
  completed_requests-idle s (write_request m a) idle = refl
  completed_requests-idle s (other m) idle = refl

  handle_message-idle :
      (s : S) (gate : Gate) (msg : Message)
      → IsIdle s
      → handle_message scheduler s gate msg ≡ some (s, passed (gate, msg) ∷ [])
  unfolding handle_message handle_request handle_response send_next
  handle_message-idle s in_gate msg idle = rw (idle.0)
  handle_message-idle s out_gate msg idle = rw (completed_requests-idle s msg idle, idle.0)
  handle_message-idle s request_gate msg idle = rw (completed_requests-idle s msg idle, idle.0)

  handle_messages-idle :
      (s : S) (msgs : List (Gate × Message))
      → IsIdle s
      → handle_messages scheduler s msgs ≡ some (s, map passed msgs)
  unfolding handle_messages
  handle_messages-idle s [] idle = refl
  handle_messages-idle s ((gate, msg) ∷ msgs) idle =
      rw (handle_messages, handle_message-idle s gate msg idle, handle_messages-idle s msgs idle)

module _ {ℓ} {Q : Type ℓ} {queue : Queue Q} (laws : IsQueue queue) where
  open laws use {contents-new, empty_lem, visit_lem}

  extract-new :
      (a : ℕ) (reads_only : Bool)
      → extract_identical_entries queue queue.new a reads_only ≡ some ([], queue.new)
  unfolding extract_identical_entries extract_entries
  extract-new a reads_only =
      ap (extract_entries queue a reads_only [] queue.new) (visit_lem queue.new ∙ contents-new)

  fcfs-IsIdle : IsIdle (fcfs_scheduler queue) queue.new
  unfolding fcfs_scheduler
  fcfs-IsIdle = (
    empty_lem queue.new ∙ ap is_nil contents-new,
    (λ a. extract-new a true),
    (λ a. extract-new a _),
  )

  sstf-IsIdle : IsIdle (sstf_scheduler queue) (initialize_scheduler queue)
  unfolding sstf_scheduler sstf_extract initialize_scheduler
  sstf-IsIdle = (
    empty_lem queue.new ∙ ap is_nil contents-new,
    (λ a. rw (extract-new a true)),
    (λ a. rw (extract-new a _)),
  )

  -- Whatever messages arrive in whatever order, both schedulers, over a cQueue with the promises of
  -- its documentation, run on, with no assert that fails, and stay as they are initialized, with
  -- an empty queue: each message is passed on at once, in the order of arrival, from the gate
  -- `in` to the disk and from the others to `out`, so that no request is ever scheduled.
  pub handle_messages-passed :
      (msgs : List (Gate × Message))
      → (handle_messages (fcfs_scheduler queue) queue.new msgs ≡ some (queue.new, map passed msgs))
        × (handle_messages (sstf_scheduler queue) (initialize_scheduler queue) msgs
            ≡ some (initialize_scheduler queue, map passed msgs))
  handle_messages-passed msgs = (
    handle_messages-idle (fcfs_scheduler queue) queue.new msgs fcfs-IsIdle,
    handle_messages-idle (sstf_scheduler queue) (initialize_scheduler queue) msgs sstf-IsIdle,
  )
