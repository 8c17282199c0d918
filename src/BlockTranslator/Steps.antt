-- ===== src/BlockTranslator/Steps.antt =====
-- BlockTranslator::handleMessage: what a single message does for a request for blocks.
use mathlib.Core.Logic.{ite, if_pos, if_neg}
use hecios.Assoc.{find, assign}
use hecios.Assoc.Laws.{find-assign}
use hecios.BlockTranslator.{
  Message, read_blocks, write_blocks, device_response, Output, read_device, write_device,
  read_blocks_response, Requests, to_int, to_long, set_remaining, device_requests, handle_request,
  handle_response, handle_message, u32_mod,
}
use hecios.Prelude.{
  ℕ, suc, ◌+◌, ◌-◌, ◌<◌, Bool, true, false, List, [], ◌∷◌, ◌++◌, map, some, ◌≡◌, ◌≢◌, refl, ◌∙◌,
  ◌⊎◌, inl, inr, arith, if◌then◌else◌, ◌==◌, Option-cases, Bool-cases, ℕ_discrete,
}

-- The responses to a request that are among what is sent.
abbrev pub responses : ℕ → List Output → ℕ
responses p [] = 0
responses p (read_blocks_response id ∷ sent) = (if id == p then 1 else 0) + responses p sent
responses p (read_device a id ∷ sent) = responses p sent
responses p (write_device w a id ∷ sent) = responses p sent

-- The responses of the disk for a request that are among the messages.
abbrev pub completions : ℕ → List (Bool × Message) → ℕ
completions p [] = 0
completions p ((false, device_response id) ∷ msgs) = (if id == p then 1 else 0) + completions p msgs
completions p (_ ∷ msgs) = completions p msgs

-- The request is held with some number of remaining responses.
abbrev pub IsHeld : ℕ → Requests → Type 0
IsHeld id requests = (n : ℕ) × (find ℕ_discrete id requests ≡ some n)

abbrev pub IsAmong : ℕ → List ℕ → Type 0
IsAmong id [] = ⊥
IsAmong id (x ∷ xs) = (id ≡ x) ⊎ IsAmong id xs

-- Requests arrive at the gate `in`, none of them the request p, and responses of the disk at the
-- other, for requests that have arrived before or are among those known.
abbrev pub IsTraffic : ℕ → List ℕ → List (Bool × Message) → Type 0
IsTraffic p known [] = Unit
IsTraffic p known ((true, read_blocks id blocks) ∷ msgs) = (p ≢ id) × IsTraffic p (id ∷ known) msgs
IsTraffic p known ((true, write_blocks id through blocks) ∷ msgs) =
    (p ≢ id) × IsTraffic p (id ∷ known) msgs
IsTraffic p known ((false, device_response id) ∷ msgs) = IsAmong id known × IsTraffic p known msgs
IsTraffic p known _ = ⊥

pub responses-append :
    (p : ℕ) (a b : List Output) → responses p (a ++ b) ≡ responses p a + responses p b
responses-append p [] b = omega arith
responses-append p (read_blocks_response id ∷ a) b = omega (arith, responses-append p a b)
responses-append p (read_device x id ∷ a) b = responses-append p a b
responses-append p (write_device w x id ∷ a) b = responses-append p a b

pub no_responses-read :
    (p id : ℕ) (addresses : List ℕ) → responses p (map (λ a. read_device a id) addresses) ≡ 0
no_responses-read p id [] = refl
no_responses-read p id (a ∷ addresses) = no_responses-read p id addresses

pub no_responses-write :
    (p id : ℕ) (through : Bool) (addresses : List ℕ)
    → responses p (map (λ a. write_device through a id) addresses) ≡ 0
no_responses-write p id through [] = refl
no_responses-write p id through (a ∷ addresses) = no_responses-write p id through addresses

pub find-set_remaining :
    (q id n : ℕ) (requests : Requests)
    → find ℕ_discrete q (set_remaining requests id n)
      ≡ ite (ℕ_discrete q id) (some n) (find ℕ_discrete q requests)
unfolding set_remaining find
find-set_remaining q id n requests = elim (Option-cases (find ℕ_discrete id requests)) [
  | inl miss ↦ rw (set_remaining, miss)
  | inr (m, hit) ↦ rw (set_remaining, hit) (find-assign ℕ_discrete q id n m requests hit)
]

-- What a response leaves of a number of remaining ones.
abbrev decremented : ℕ → ℕ
decremented r = to_long (to_int (to_int r + (u32_mod - 1)))

module _ (get_addresses : ℕ → List ℕ) where
  pub no_responses :
      (p : ℕ) (request : ℕ → Output) (blocks : List ℕ)
      → ((addresses : List ℕ) → responses p (map request addresses) ≡ 0)
      → responses p (device_requests get_addresses request blocks) ≡ 0
  unfolding device_requests
  no_responses p request [] none_sent = refl
  no_responses p request (block ∷ blocks) none_sent =
      responses-append p (map request (get_addresses block)) _
      ∙ omega (arith, none_sent (get_addresses block), no_responses p request blocks none_sent)

  -- A message that is not for the request p.
  abbrev pub PassesBy : ℕ → ℕ → Requests → List ℕ → Bool → Message → Type 0
  PassesBy p n requests known at_in msg =
      (next : Requests) × (sent : List Output) × (handle_message get_addresses at_in requests msg
        ≡ some (next, sent))
      × (responses p sent ≡ 0)
      × (find ℕ_discrete p next ≡ some n)
      × ((q : ℕ) → IsAmong q known → IsHeld q next)

  pub IsHeld-after_set :
      (requests : Requests) (known : List ℕ) (id m : ℕ)
      → ((q : ℕ) → IsAmong q known → IsHeld q requests)
      → (q : ℕ) → IsAmong q (id ∷ known)
      → IsHeld q (set_remaining requests id m)
  IsHeld-after_set requests known id m held q among = elim (ℕ_discrete q id) [
    | yes same ↦ (m, find-set_remaining q id m requests ∙ if_pos (ℕ_discrete q id) same _ _)
    | no different ↦
        let (n, found) =
          held q (elim among [ inl same ↦ absurd (different same) | inr later ↦ later ]) in
        (n, find-set_remaining q id m requests ∙ if_neg (ℕ_discrete q id) different _ _ ∙ found)
  ]

  kept_after_set :
      (requests : Requests) (p id n m : ℕ)
      → p ≢ id
      → find ℕ_discrete p requests ≡ some n
      → find ℕ_discrete p (set_remaining requests id m) ≡ some n
  kept_after_set requests p id n m different found =
      find-set_remaining p id m requests ∙ if_neg (ℕ_discrete p id) different _ _ ∙ found

  IsHeld-after_assign :
      (requests : Requests) (id m r : ℕ)
      → find ℕ_discrete id requests ≡ some r
      → (q : ℕ) → IsHeld q requests
      → IsHeld q (assign ℕ_discrete id m requests)
  IsHeld-after_assign requests id m r hit q (n, found) = elim (ℕ_discrete q id) [
    | yes same ↦
        (m, find-assign ℕ_discrete q id m r requests hit ∙ if_pos (ℕ_discrete q id) same _ _)
    | no different ↦ (
      n,
      find-assign ℕ_discrete q id m r requests hit ∙ if_neg (ℕ_discrete q id) different _ _ ∙ found,
    )
  ]

  not_equal : (id p : ℕ) → p ≢ id → (id == p) ≡ false
  not_equal id p different = ground arith

  pub read_passes :
      (p n : ℕ) (requests : Requests) (known : List ℕ) (id : ℕ) (blocks : List ℕ)
      → p ≢ id
      → find ℕ_discrete p requests ≡ some n
      → ((q : ℕ) → IsAmong q known → IsHeld q requests)
      → PassesBy p n requests (id ∷ known) true (read_blocks id blocks)
  unfolding handle_message handle_request
  read_passes p n requests known id blocks different found held = (
    _,
    _,
    refl,
    no_responses p _ blocks (no_responses-read p id),
    kept_after_set requests p id n _ different found,
    IsHeld-after_set requests known id _ held,
  )

  pub write_passes :
      (p n : ℕ) (requests : Requests) (known : List ℕ) (id : ℕ) (through : Bool) (blocks : List ℕ)
      → p ≢ id
      → find ℕ_discrete p requests ≡ some n
      → ((q : ℕ) → IsAmong q known → IsHeld q requests)
      → PassesBy p n requests (id ∷ known) true (write_blocks id through blocks)
  unfolding handle_message handle_request
  write_passes p n requests known id through blocks different found held = (
    _,
    _,
    refl,
    no_responses p _ blocks (no_responses-write p id through),
    kept_after_set requests p id n _ different found,
    IsHeld-after_set requests known id _ held,
  )

  pub response_passes :
      (p n : ℕ) (requests : Requests) (known : List ℕ) (id r : ℕ)
      → p ≢ id
      → find ℕ_discrete p requests ≡ some n
      → find ℕ_discrete id requests ≡ some r
      → ((q : ℕ) → IsAmong q known → IsHeld q requests)
      → PassesBy p n requests known false (device_response id)
  unfolding handle_message handle_response
  response_passes p n requests known id r different found hit held =
      elim (Bool-cases (to_int r == 1)) [
        | inl last ↦ (
          requests,
          read_blocks_response id ∷ [],
          rw (handle_response, hit, last),
          rw (not_equal id p different),
          found,
          held,
        )
        | inr more ↦ (
          assign ℕ_discrete id (decremented r) requests,
          [],
          rw (handle_response, hit, more),
          refl,
          find-assign ℕ_discrete p id _ r requests hit
              ∙ if_neg (ℕ_discrete p id) different _ _
              ∙ found,
          λ q among. IsHeld-after_assign requests id _ r hit q (held q among),
        )
      ]

  -- A response of the disk for the request p itself, the last one and one before.
  pub last_response :
      (p : ℕ) (requests : Requests)
      → find ℕ_discrete p requests ≡ some 1
      → handle_message get_addresses false requests (device_response p)
        ≡ some (requests, read_blocks_response p ∷ [])
  unfolding handle_message handle_response to_int
  last_response p requests found = rw (handle_response, found)

  decremented_lem : (n : ℕ) → n + 2 < 2147483648 → decremented (suc (suc n)) ≡ suc n
  unfolding to_int to_long
  decremented_lem n h = ground arith

  not_last : (n : ℕ) → n + 2 < 2147483648 → (to_int (suc (suc n)) == 1) ≡ false
  unfolding to_int
  not_last n h = ground arith

  pub earlier_response :
      (p n : ℕ) (requests : Requests) (known : List ℕ)
      → n + 2 < 2147483648
      → find ℕ_discrete p requests ≡ some (suc (suc n))
      → ((q : ℕ) → IsAmong q known → IsHeld q requests)
      → PassesBy p (suc n) requests known false (device_response p)
  unfolding handle_message handle_response
  earlier_response p n requests known small found held = (
    assign ℕ_discrete p (suc n) requests,
    [],
    rw (handle_response, found, not_last n small, decremented_lem n small),
    refl,
    find-assign ℕ_discrete p p (suc n) (suc (suc n)) requests found
        ∙ if_pos (ℕ_discrete p p) refl _ _,
    λ q among. IsHeld-after_assign requests p (suc n) (suc (suc n)) found q (held q among),
  )
