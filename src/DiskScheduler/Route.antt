-- ===== src/DiskScheduler/Route.antt =====
-- DiskScheduler::handleMessage over the FCFS scheduler, on a queue with any entries.
use hecios.DiskScheduler.{
  SchedulerEntry, Message, Output, out_gate, read_response, write_response, pass, Queue,
}
use hecios.DiskScheduler.Extract.{IsQueue}
use hecios.Prelude.{ℕ, Bool, if◌then◌else◌, List, [], ◌∷◌}

-- What is sent when the completed requests are answered: the first entry left, if there is one,
-- goes to the gate `out`.
abbrev pub next_sent : List SchedulerEntry → List Output
next_sent [] = []
next_sent (e ∷ es) = pass out_gate e.request ∷ []

abbrev pub tail {ℓ} : {A : Type ℓ} → List A → List A
tail [] = []
tail (x ∷ xs) = xs

module _ {ℓ} {Q : Type ℓ} {queue : Queue Q} (laws : IsQueue queue) where
  open laws use {contents, empty_lem, contents-insert, contents-pop}

  -- A message from the disk that says that a request for the address has completed.
  abbrev pub completion : Bool → ℕ → ℕ → ℕ → Message
  completion is_read m r a = if is_read then read_response m r a else write_response m r a
