-- ===== src/CacheDirectory/Registered.antt =====
-- The entries of ClientCacheDirectory after calls that add and remove them.
use hecios.CacheDirectory.{
  State, invalid_state, ClientCache, Directory, same_client, same_entry, add_client_cache_entry,
  remove_client_cache_entry, remove_client_cache_entry_by_rank,
}
use hecios.Prelude.{
  ℕ, Bool, true, false, not, ◌&&◌, ◌||◌, List, [], ◌∷◌, Option, some, ◌>>=◌, ◌≡◌, refl, sym, ◌∙◌,
  ap, arith, ◌==◌, ==_iff, Bool-cases, inl, inr,
}

-- A call that changes the directory.
pub data Operation (K : Type 0) : Type 0 where
  adds : ClientCache → K → ℕ → State → Operation K
  removes : ClientCache → K → ℕ → Operation K
  removes_by_rank : ℕ → K → ℕ → Operation K

-- Every client has the connection of its rank.
abbrev pub AllConnected : {K : Type 0} → (ℕ → ℕ) → Directory K → Type 0
AllConnected connection [] = Unit
AllConnected connection ((e, c) ∷ directory) =
    (c.connection ≡ connection c.rank) × AllConnected connection directory

abbrev pub AllCallsConnected : {K : Type 0} → (ℕ → ℕ) → List (Operation K) → Type 0
AllCallsConnected connection [] = Unit
AllCallsConnected connection (adds c f p s ∷ calls) =
    (c.connection ≡ connection c.rank) × AllCallsConnected connection calls
AllCallsConnected connection (removes c f p ∷ calls) =
    (c.connection ≡ connection c.rank) × AllCallsConnected connection calls
AllCallsConnected connection (removes_by_rank rank f p ∷ calls) = AllCallsConnected connection calls

module _ {K : Type 0} (dec : Discrete K) where
  unfoldable pub perform : Directory K → Operation K → Option (Directory K)
  perform directory (adds c f p s) = some (add_client_cache_entry dec directory c f p s)
  perform directory (removes c f p) = remove_client_cache_entry dec directory c f p
  perform directory (removes_by_rank rank f p) =
      some (remove_client_cache_entry_by_rank dec directory rank f p)

  unfoldable pub perform_all : Directory K → List (Operation K) → Option (Directory K)
  perform_all directory [] = some directory
  perform_all directory (call ∷ calls) = do next ← perform directory call; perform_all next calls

  abbrev pub same_name : K → K → Bool
  same_name f g = elim (dec f g) [ yes _ ↦ true | no _ ↦ false ]

  -- The same rank, file and page.
  abbrev pub same_place : ℕ → K → ℕ → ℕ → K → ℕ → Bool
  same_place q g r rank f p = (r == p) && (same_name g f && (q == rank))

  -- The directory has an entry for the page of the file in the cache of the client of a rank.
  unfoldable pub is_registered : Directory K → ℕ → K → ℕ → Bool
  is_registered [] rank f p = false
  is_registered ((e, c) ∷ directory) rank f p =
      same_place c.rank e.filename e.page_id rank f p || is_registered directory rank f p

  -- What the calls say of the place: the last of them that is for it counts.
  unfoldable pub last_call : Bool → List (Operation K) → ℕ → K → ℕ → Bool
  last_call before [] rank f p = before
  last_call before (adds c g r s ∷ calls) rank f p =
      last_call (same_place c.rank g r rank f p || before) calls rank f p
  last_call before (removes c g r ∷ calls) rank f p =
      last_call (not (same_place c.rank g r rank f p) && before) calls rank f p
  last_call before (removes_by_rank q g r ∷ calls) rank f p =
      last_call (not (same_place q g r rank f p) && before) calls rank f p

  is_registered-add :
      (directory : Directory K) (c : ClientCache) (g : K) (r : ℕ) (s : State) (rank : ℕ) (f : K)
      (p : ℕ)
      → is_registered (add_client_cache_entry dec directory c g r s) rank f p
        ≡ (same_place c.rank g r rank f p || is_registered directory rank f p)
  unfolding is_registered add_client_cache_entry
  is_registered-add [] c g r s rank f p = refl
  is_registered-add ((e, d) ∷ directory) c g r s rank f p =
      let rest = is_registered-add directory c g r s rank f p in ground arith

  is_registered-remove :
      (directory : Directory K) (q : ℕ) (g : K) (r rank : ℕ) (f : K) (p : ℕ)
      → is_registered (remove_client_cache_entry_by_rank dec directory q g r) rank f p
        ≡ (not (same_place q g r rank f p) && is_registered directory rank f p)
  unfolding is_registered remove_client_cache_entry_by_rank same_entry
  is_registered-remove [] q g r rank f p = ground arith
  is_registered-remove ((e, c) ∷ directory) q g r rank f p =
      let rest = is_registered-remove directory q g r rank f p in ground arith

  pub same_client_lem :
      (connection : ℕ → ℕ) (c d : ClientCache)
      → c.connection ≡ connection c.rank
      → d.connection ≡ connection d.rank
      → same_client c d ≡ some (c.rank == d.rank)
  unfolding same_client
  same_client_lem connection c d h k = elim (Bool-cases (c.rank == d.rank)) [
    | inr differ ↦ rw differ
    | inl same ↦
        let ranks = (==_iff c.rank d.rank).0 same in
        rw (same, (==_iff c.connection d.connection).1 (h ∙ ap connection ranks ∙ sym k))
  ]

  remove_lem :
      (connection : ℕ → ℕ) (directory : Directory K) (c : ClientCache) (g : K) (r : ℕ)
      → AllConnected connection directory
      → c.connection ≡ connection c.rank
      → remove_client_cache_entry dec directory c g r
        ≡ some (remove_client_cache_entry_by_rank dec directory c.rank g r)
  unfolding remove_client_cache_entry remove_client_cache_entry_by_rank
  remove_lem connection [] c g r h k = refl
  remove_lem connection ((e, d) ∷ directory) c g r h k =
      let rest = remove_lem connection directory c g r h.1 k in
      let same = same_client_lem connection c d k h.0 in
      elim (Bool-cases
        (same_entry dec e (record { filename = g; page_id = r; state = invalid_state }))) [
          | inl there ↦ rw (rest, there, same)
          | inr other ↦ rw (rest, other)
        ]

  AllConnected-add :
      (connection : ℕ → ℕ) (directory : Directory K) (c : ClientCache) (g : K) (r : ℕ) (s : State)
      → AllConnected connection directory
      → c.connection ≡ connection c.rank
      → AllConnected connection (add_client_cache_entry dec directory c g r s)
  unfolding add_client_cache_entry
  AllConnected-add connection [] c g r s h k = (k, tt)
  AllConnected-add connection ((e, d) ∷ directory) c g r s h k =
      (h.0, AllConnected-add connection directory c g r s h.1 k)

  AllConnected-remove :
      (connection : ℕ → ℕ) (directory : Directory K) (q : ℕ) (g : K) (r : ℕ)
      → AllConnected connection directory
      → AllConnected connection (remove_client_cache_entry_by_rank dec directory q g r)
  unfolding remove_client_cache_entry_by_rank
  AllConnected-remove connection [] q g r h = tt
  AllConnected-remove connection ((e, d) ∷ directory) q g r h =
      let rest = AllConnected-remove connection directory q g r h.1 in ground arith

  -- Where every client has the connection of its rank, in the directory and in the calls, the asserts
  -- on the connections hold in any sequence of additions and removals, and afterwards the directory
  -- has an entry for a page of a file in the cache of a rank exactly if the last of the calls for that
  -- page, file and rank adds one, or, without such a call, if it had one before.
  pub perform_all-is_registered :
      (connection : ℕ → ℕ) (directory : Directory K) (calls : List (Operation K)) (rank : ℕ) (f : K)
      (p : ℕ)
      → AllConnected connection directory
      → AllCallsConnected connection calls
      → (end : Directory K) × (perform_all directory calls ≡ some end)
        × AllConnected connection end
        × (is_registered end rank f p ≡ last_call (is_registered directory rank f p) calls rank f p)
  unfolding perform_all perform last_call
  perform_all-is_registered connection directory [] rank f p h k = (directory, refl, h, refl)
  perform_all-is_registered connection directory (adds c g r s ∷ calls) rank f p h k =
      let (end, run, connected, says) =
        perform_all-is_registered connection (add_client_cache_entry dec directory c g r s) calls
          rank f p (AllConnected-add connection directory c g r s h k.0) k.1 in
      (end, run, connected, rw (← is_registered-add directory c g r s rank f p) says)
  perform_all-is_registered connection directory (removes c g r ∷ calls) rank f p h k =
      let (end, run, connected, says) =
        perform_all-is_registered connection
          (remove_client_cache_entry_by_rank dec directory c.rank g r) calls rank f p
          (AllConnected-remove connection directory c.rank g r h) k.1 in
      (
        end,
        rw (perform_all, remove_lem connection directory c g r h k.0, run),
        connected,
        rw (← is_registered-remove directory c.rank g r rank f p) says,
      )
  perform_all-is_registered connection directory (removes_by_rank q g r ∷ calls) rank f p h k =
      let (end, run, connected, says) =
        perform_all-is_registered connection (remove_client_cache_entry_by_rank dec directory q g r)
          calls rank f p (AllConnected-remove connection directory q g r h) k in
      (end, run, connected, rw (← is_registered-remove directory q g r rank f p) says)
