-- ===== src/DiskScheduler/Tests.antt =====
-- src/os/disk_scheduler.cc: the theorems on a queue that is a list, with three waiting entries.
use hecios.DiskScheduler.{
  SchedulerEntry, Message, Gate, in_gate, out_gate, request_gate, read_request, write_request,
  read_response, pass, Queue, handle_message, handle_messages, fcfs_scheduler, initialize_scheduler,
  sstf_scheduler,
}
use hecios.DiskScheduler.Extract.{IsQueue, IsUnique, take_out, is_nil}
use hecios.DiskScheduler.Idle.{passed, handle_messages-passed}
use hecios.DiskScheduler.Seek.{add_all, pop_times, pop_times-add_all}
use hecios.Prelude.{
  true, false, List, [], ◌∷◌, ◌++◌, map, Option, none, some, ◌≡◌, refl, inl, inr, ◌∙◌, ap, arith,
}

abbrev pop_front : List SchedulerEntry → Option (SchedulerEntry × List SchedulerEntry)
pop_front [] = none
pop_front (e ∷ es) = some (e, es)

abbrev last_of : List SchedulerEntry → List SchedulerEntry
last_of [] = []
last_of (e ∷ []) = e ∷ []
last_of (e ∷ x ∷ es) = last_of (x ∷ es)

last_of-append :
    (front : List SchedulerEntry) (e : SchedulerEntry) → last_of (front ++ e ∷ []) ≡ e ∷ []
last_of-append [] e = refl
last_of-append (x ∷ []) e = refl
last_of-append (x ∷ y ∷ front) e = last_of-append (y ∷ front) e

last_of_lem :
    (q front : List SchedulerEntry) (e : SchedulerEntry) → q ≡ front ++ e ∷ [] → last_of q ≡ e ∷ []
last_of_lem q front e h = ap last_of h ∙ last_of-append front e

abbrev list_queue : Queue (List SchedulerEntry)
list_queue = record {
  new = [];
  empty = is_nil;
  insert = λ q e. q ++ e ∷ [];
  pop = pop_front;
  remove = λ q e. take_out e q;
  visit = λ q. q;
  visit_from_back = last_of;
}

pop_front_lem :
    (q : List SchedulerEntry) (e : SchedulerEntry) (es : List SchedulerEntry)
    → q ≡ e ∷ es
    → (q' : List SchedulerEntry) × (pop_front q ≡ some (e, q')) × (q' ≡ es)
pop_front_lem q e es h = (es, rw h, refl)

abbrev list_queue-IsQueue : IsQueue list_queue
list_queue-IsQueue = record {
  contents = λ q. q;
  contents-new = refl;
  empty_lem = λ q. refl;
  contents-insert = λ q e. refl;
  contents-pop = pop_front_lem;
  contents-remove = λ q e. refl;
  visit_lem = λ q. refl;
  visit_from_back_lem = last_of_lem;
}

abbrev write_7 : SchedulerEntry
write_7 = record { lba = 7; request = 1; is_read_request = false }

abbrev read_9 : SchedulerEntry
read_9 = record { lba = 9; request = 2; is_read_request = true }

abbrev read_7 : SchedulerEntry
read_7 = record { lba = 7; request = 3; is_read_request = true }

abbrev waiting : List SchedulerEntry
waiting = write_7 ∷ read_9 ∷ read_7 ∷ []

abbrev messages : List (Gate × Message)
messages =
    (in_gate, write_request 1 7)
    ∷ (in_gate, read_request 2 9)
    ∷ (request_gate, read_response 5 2 9)
    ∷ []

program : Unit {0}
unfolding handle_message handle_messages take_out
program = tt

waiting-IsUnique : IsUnique waiting
waiting-IsUnique = (
  (λ h. elim h [
    | inl p ↦ absurd (omega (arith, p))
    | inr h' ↦ elim h' [ inl p ↦ absurd (omega (arith, p)) | inr f ↦ elim f [ ] ]
  ]),
  (
    (λ h. elim h [ inl p ↦ absurd (omega (arith, p)) | inr f ↦ elim f [ ] ]),
    ((λ f. elim f [ ]), tt),
  ),
)

handle_messages-passed_example :
    (handle_messages (fcfs_scheduler list_queue) [] messages
      ≡ some ([], pass request_gate 1 ∷ pass request_gate 2 ∷ pass out_gate 5 ∷ []))
    × (handle_messages (sstf_scheduler list_queue) (initialize_scheduler list_queue) messages
        ≡ some (initialize_scheduler list_queue, map passed messages))
handle_messages-passed_example = handle_messages-passed list_queue-IsQueue messages

-- The last added of them, the read of address 7, is popped first.
pop_times-add_all_example :
    (pop_times (fcfs_scheduler list_queue) 3 (add_all (fcfs_scheduler list_queue) [] waiting)
      ≡ some waiting)
    × (pop_times
          (sstf_scheduler list_queue)
          3
          (add_all (sstf_scheduler list_queue) (initialize_scheduler list_queue) waiting)
        ≡ some (read_7 ∷ read_9 ∷ write_7 ∷ []))
pop_times-add_all_example = pop_times-add_all list_queue-IsQueue waiting waiting-IsUnique
