-- ===== src/DiskScheduler/Extract.antt =====
-- extractIdenticalEntries against the entries that a queue holds, and what a cQueue promises.
use mathlib.Core.Logic.{ite, if_pos, if_neg}
use hecios.DiskScheduler.{
  SchedulerEntry, Queue, is_identical, extract_entries, extract_identical_entries,
}
use hecios.Prelude.{
  ℕ, Bool, true, false, List, [], ◌∷◌, ◌++◌, none, some, ◌||◌, ◌≡◌, refl, sym, ◌⊎◌, inl, inr,
  if◌then◌else◌, Bool-cases, ℕ_discrete,
}

abbrev pub is_nil {ℓ} : {A : Type ℓ} → List A → Bool
is_nil [] = true
is_nil (x ∷ xs) = false

-- The entries without the first one that has the same request.
unfoldable pub take_out : SchedulerEntry → List SchedulerEntry → List SchedulerEntry
take_out e [] = []
take_out e (x ∷ xs) = ite (ℕ_discrete e.request x.request) xs (x ∷ take_out e xs)

-- What is relied on of a cQueue: it holds a sequence, inserts at its end, pops at its front, and
-- removes an entry by its pointer. An iterator hands out what the queue holds, from the front on;
-- one that is made with the argument false begins at the last entry, and the next step from that
-- is beyond the end.
pub record IsQueue {ℓ} {Q : Type ℓ} (queue : Queue Q) : Type ℓ where
  pub contents : Q → List SchedulerEntry
  pub contents-new : contents queue.new ≡ []
  pub empty_lem : (q : Q) → queue.empty q ≡ is_nil (contents q)
  pub contents-insert :
      (q : Q) (e : SchedulerEntry) → contents (queue.insert q e) ≡ contents q ++ e ∷ []
  pub contents-pop :
      (q : Q) (e : SchedulerEntry) (es : List SchedulerEntry)
      → contents q ≡ e ∷ es
      → (q' : Q) × (queue.pop q ≡ some (e, q')) × (contents q' ≡ es)
  pub contents-remove :
      (q : Q) (e : SchedulerEntry) → contents (queue.remove q e) ≡ take_out e (contents q)
  pub visit_lem : (q : Q) → queue.visit q ≡ contents q
  pub visit_from_back_lem :
      (q : Q) (front : List SchedulerEntry) (e : SchedulerEntry)
      → contents q ≡ front ++ e ∷ []
      → queue.visit_from_back q ≡ e ∷ []

abbrev pub HasRequest : ℕ → List SchedulerEntry → Type 0
HasRequest r [] = ⊥
HasRequest r (x ∷ xs) = (r ≡ x.request) ⊎ HasRequest r xs

-- No request waits twice.
abbrev pub IsUnique : List SchedulerEntry → Type 0
IsUnique [] = Unit
IsUnique (x ∷ xs) = ((HasRequest x.request xs → ⊥)) × IsUnique xs

HasRequest-middle :
    (e : SchedulerEntry) (kept es : List SchedulerEntry) → HasRequest e.request (kept ++ e ∷ es)
HasRequest-middle e [] es = inl refl
HasRequest-middle e (x ∷ kept) es = inr (HasRequest-middle e kept es)

HasRequest-wider :
    (r : ℕ) (e : SchedulerEntry) (kept es : List SchedulerEntry)
    → HasRequest r (kept ++ es)
    → HasRequest r (kept ++ e ∷ es)
HasRequest-wider r e [] es h = inr h
HasRequest-wider r e (x ∷ kept) es (inl same) = inl same
HasRequest-wider r e (x ∷ kept) es (inr h) = inr (HasRequest-wider r e kept es h)

pub IsUnique-narrower :
    (e : SchedulerEntry) (kept es : List SchedulerEntry)
    → IsUnique (kept ++ e ∷ es)
    → IsUnique (kept ++ es)
IsUnique-narrower e [] es u = u.1
IsUnique-narrower e (x ∷ kept) es u =
    (λ h. u.0 (HasRequest-wider x.request e kept es h), IsUnique-narrower e kept es u.1)

pub take_out_middle :
    (e : SchedulerEntry) (kept es : List SchedulerEntry)
    → IsUnique (kept ++ e ∷ es)
    → take_out e (kept ++ e ∷ es) ≡ kept ++ es
unfolding take_out
take_out_middle e [] es u = if_pos (ℕ_discrete e.request e.request) refl _ _
take_out_middle e (x ∷ kept) es u = rw (take_out_middle e kept es u.1) (
    if_neg (ℕ_discrete e.request x.request) (λ p. u.0 (rw (sym p) (HasRequest-middle e kept es))) _
      _)

-- An entry for the address, with `reads_only` a read of it, is among the entries.
abbrev pub any_identical : ℕ → Bool → List SchedulerEntry → Bool
any_identical lba reads_only [] = false
any_identical lba reads_only (e ∷ es) =
    is_identical lba reads_only e || any_identical lba reads_only es

module _ {ℓ} {Q : Type ℓ} {queue : Queue Q} (laws : IsQueue queue) where
  open laws use {contents, visit_lem}

  extract_entries_lem :
      (lba : ℕ) (reads_only : Bool) (completed : List SchedulerEntry) (q : Q)
      (es : List SchedulerEntry)
      → extract_entries queue lba reads_only completed q es
        ≡ (if any_identical lba reads_only es then none else some (completed, q))
  unfolding extract_entries
  extract_entries_lem lba reads_only completed q [] = refl
  extract_entries_lem lba reads_only completed q (e ∷ es) =
      elim (Bool-cases (is_identical lba reads_only e)) [
        | inl match ↦ rw (extract_entries, match)
        | inr stays ↦
            rw (extract_entries, stays) (extract_entries_lem lba reads_only completed q es)
      ]

  -- On a cQueue with the promises of its documentation, `extractIdenticalEntries` has undefined
  -- behaviour exactly if an entry that it is to take out waits, one for the address that is a read
  -- or, without `readsOnly`, of either kind; otherwise it returns no entries and leaves the queue.
  pub extract_identical_entries_lem :
      (q : Q) (lba : ℕ) (reads_only : Bool)
      → extract_identical_entries queue q lba reads_only
        ≡ (if any_identical lba reads_only (contents q) then none else some ([], q))
  unfolding extract_identical_entries
  extract_identical_entries_lem q lba reads_only =
      rw (visit_lem q) (extract_entries_lem lba reads_only [] q (contents q))
