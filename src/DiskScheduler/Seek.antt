-- ===== src/DiskScheduler/Seek.antt =====
-- The orders in which the FCFS and the SSTF scheduler of src/os/disk_scheduler.cc pop their entries.
use mathlib.Core.List.{append_assoc, append-nil, reverse, reverse-cons, reverse-reverse}
use hecios.DiskScheduler.{
  SchedulerEntry, Queue, Scheduler, SstfState, seek_delta, closest_entry, sstf_pop_next_entry,
  fcfs_scheduler, sstf_scheduler, initialize_scheduler,
}
use hecios.DiskScheduler.Extract.{IsQueue, IsUnique, IsUnique-narrower, take_out, take_out_middle}
use hecios.Prelude.{
  ℕ, zero, suc, List, [], ◌∷◌, ◌++◌, Option, some, ◌>>=◌, ◌≡◌, refl, sym, ◌∙◌, ap, inl, inr, subst,
  lt_i64, Bool-cases, length, length-append, arith,
}

module _ {ℓ} {S : Type ℓ} (scheduler : Scheduler S) where
  abbrev pub add_all : S → List SchedulerEntry → S
  add_all s [] = s
  add_all s (e ∷ es) = add_all (scheduler.add_entry s e) es

  -- The entries that a number of calls of popNextEntry give.
  unfoldable pub pop_times : ℕ → S → Option (List SchedulerEntry)
  pop_times zero s = some []
  pop_times (suc n) s = do
    (e, rest) ← scheduler.pop_next_entry s
    later ← pop_times n rest
    some (e ∷ later)

length-reverse : (es : List SchedulerEntry) → length (reverse es) ≡ length es
length-reverse [] = refl
length-reverse (e ∷ es) =
    let rest = length-reverse es in
    ap length (reverse-cons e es) ∙ length-append (reverse es) (e ∷ []) ∙ omega arith

-- The loop of popNextEntry over one entry ends in that entry.
closest_entry_one :
    (address : ℕ) (e : SchedulerEntry) → closest_entry address e (seek_delta address e) (e ∷ []) ≡ e
unfolding closest_entry
closest_entry_one address e =
    elim (Bool-cases (lt_i64 (seek_delta address e) (seek_delta address e))) [
      | inl nearer ↦ rw (closest_entry, nearer)
      | inr farther ↦ rw (closest_entry, farther)
    ]

module _ {ℓ} {Q : Type ℓ} {queue : Queue Q} (laws : IsQueue queue) where
  open laws use {
    contents, contents-new, contents-insert, contents-pop, contents-remove, visit_from_back_lem,
  }

  pub sstf_pop_next_entry_lem :
      (s : SstfState Q) (front : List SchedulerEntry) (e : SchedulerEntry)
      → contents s.sstf_queue ≡ front ++ e ∷ []
      → IsUnique (front ++ e ∷ [])
      → (s' : SstfState Q) × (sstf_pop_next_entry queue s ≡ some (e, s'))
        × (contents s'.sstf_queue ≡ front)
  unfolding sstf_pop_next_entry
  sstf_pop_next_entry_lem s front e h u =
      let visits = visit_from_back_lem s.sstf_queue front e h in
      (
        record s { sstf_queue = queue.remove s.sstf_queue e },
        rw (sstf_pop_next_entry, visits, closest_entry_one s.current_address e),
        contents-remove s.sstf_queue e
            ∙ ap (take_out e) h
            ∙ take_out_middle e front [] u
            ∙ append-nil front,
      )

  fcfs_pops :
      (q : Q) (es : List SchedulerEntry)
      → contents q ≡ es
      → pop_times (fcfs_scheduler queue) (length es) q ≡ some es
  unfolding pop_times fcfs_scheduler
  fcfs_pops q [] h = refl
  fcfs_pops q (e ∷ es) h =
      let (q', popped, left) = contents-pop q e es h in rw (pop_times, popped, fcfs_pops q' es left)

  -- The entries are listed with the newest first.
  sstf_pops :
      (s : SstfState Q) (l : List SchedulerEntry)
      → contents s.sstf_queue ≡ reverse l
      → IsUnique (reverse l)
      → pop_times (sstf_scheduler queue) (length l) s ≡ some l
  unfolding pop_times sstf_scheduler
  sstf_pops s [] h u = refl
  sstf_pops s (e ∷ l) h u =
      let u' = subst IsUnique (reverse-cons e l) u in
      let (s', popped, left) = sstf_pop_next_entry_lem s (reverse l) e (h ∙ reverse-cons e l) u' in
      let unique =
        subst IsUnique (append-nil (reverse l)) (IsUnique-narrower e (reverse l) [] u') in
      rw (pop_times, popped, sstf_pops s' l left unique)

  contents-add_all-fcfs :
      (q : Q) (es : List SchedulerEntry)
      → contents (add_all (fcfs_scheduler queue) q es) ≡ contents q ++ es
  unfolding fcfs_scheduler
  contents-add_all-fcfs q [] = sym (append-nil (contents q))
  contents-add_all-fcfs q (e ∷ es) =
      contents-add_all-fcfs (queue.insert q e) es
      ∙ ap (λ l. l ++ es) (contents-insert q e)
      ∙ append_assoc (contents q) (e ∷ []) es

  contents-add_all-sstf :
      (s : SstfState Q) (es : List SchedulerEntry)
      → contents (add_all (sstf_scheduler queue) s es).sstf_queue ≡ contents s.sstf_queue ++ es
  unfolding sstf_scheduler
  contents-add_all-sstf s [] = sym (append-nil (contents s.sstf_queue))
  contents-add_all-sstf s (e ∷ es) =
      contents-add_all-sstf (record s { sstf_queue = queue.insert s.sstf_queue e }) es
      ∙ ap (λ l. l ++ es) (contents-insert s.sstf_queue e)
      ∙ append_assoc (contents s.sstf_queue) (e ∷ []) es

  -- Over a cQueue with the promises of its documentation, entries of different requests that are
  -- added to a scheduler from its start are popped by as many calls of `popNextEntry`: by the FCFS
  -- scheduler in the order in which they were added, and by the SSTF scheduler in the opposite
  -- order, the newest first, whatever their addresses.
  pub pop_times-add_all :
      (es : List SchedulerEntry)
      → IsUnique es
      → (pop_times (fcfs_scheduler queue) (length es) (add_all (fcfs_scheduler queue) queue.new es)
          ≡ some es)
        × (pop_times
              (sstf_scheduler queue)
              (length es)
              (add_all (sstf_scheduler queue) (initialize_scheduler queue) es)
            ≡ some (reverse es))
  unfolding initialize_scheduler
  pop_times-add_all es u =
      let added = contents-add_all-fcfs queue.new es ∙ ap (λ l. l ++ es) contents-new in
      let stacked =
        contents-add_all-sstf (initialize_scheduler queue) es ∙ ap (λ l. l ++ es) contents-new in
      (
        fcfs_pops (add_all (fcfs_scheduler queue) queue.new es) es added,
        subst
            (λ n.
              pop_times (sstf_scheduler queue) n
                (add_all (sstf_scheduler queue) (initialize_scheduler queue) es)
              ≡ some (reverse es))
            (length-reverse es)
            (sstf_pops (add_all (sstf_scheduler queue) (initialize_scheduler queue) es) (reverse es)
              (stacked ∙ sym (reverse-reverse es)) (subst IsUnique (sym (reverse-reverse es)) u)),
      )
