-- ===== src/BlockTranslator/Completion.antt =====
-- BlockTranslator::handleMessage over many messages: when a request for blocks is answered.
use mathlib.Core.Logic.{if_pos}
use hecios.Assoc.{find}
use hecios.BlockTranslator.{
  Message, read_blocks, write_blocks, device_response, other, Output, read_blocks_response,
  Requests, handle_message, handle_messages, handle_request, set_remaining, device_requests,
  requests_generated, read_device, write_device,
}
use hecios.BlockTranslator.Steps.{
  responses, completions, IsHeld, IsAmong, IsTraffic, responses-append, no_responses,
  no_responses-read, no_responses-write, find-set_remaining, IsHeld-after_set, PassesBy,
  read_passes, write_passes, response_passes, last_response, earlier_response,
}
use hecios.Prelude.{
  ℕ, zero, suc, ◌+◌, ◌≤◌, ◌<◌, Bool, true, false, List, [], ◌∷◌, ◌++◌, some, ◌≡◌, refl, ◌∙◌, ap,
  arith, if◌then◌else◌, ◌==◌, ℕ_discrete, subst, length, length-append, map, add_u64_small, u64_mod,
}

abbrev pub once : ℕ → ℕ → ℕ
once count n = if count == n then 1 else 0

module _ (get_addresses : ℕ → List ℕ) where
  -- The messages are handled, and the request p is answered exactly if `n` disk responses are
  -- among them.
  abbrev pub Answers : ℕ → ℕ → Requests → List (Bool × Message) → Type 0
  Answers p n requests msgs =
      (end : Requests) × (sent : List Output) × (handle_messages get_addresses requests msgs
        ≡ some (end, sent))
      × (responses p sent ≡ once (completions p msgs) n)

  -- What the messages before the last one and that one send add up.
  then-Answers :
      (p n m : ℕ) (requests next : Requests) (at_in : Bool) (msg : Message) (sent : List Output)
      (msgs : List (Bool × Message))
      → handle_message get_addresses at_in requests msg ≡ some (next, sent)
      → responses p sent + once (completions p msgs) n
        ≡ once (completions p ((at_in, msg) ∷ msgs)) m
      → Answers p n next msgs
      → Answers p m requests ((at_in, msg) ∷ msgs)
  unfolding handle_messages
  then-Answers p n m requests next at_in msg sent msgs step sum (end, later, run, count) = (
    end,
    sent ++ later,
    rw (handle_messages, step, run),
    responses-append p sent later ∙ rw count sum,
  )

  pass_then :
      (p n m : ℕ) (requests : Requests) (known : List ℕ) (at_in : Bool) (msg : Message)
      (msgs : List (Bool × Message))
      (after : (next : Requests)
        → find ℕ_discrete p next ≡ some n
        → ((q : ℕ) → IsAmong q known → IsHeld q next)
        → Answers p n next msgs)
      → once (completions p msgs) n ≡ once (completions p ((at_in, msg) ∷ msgs)) m
      → PassesBy get_addresses p n requests known at_in msg
      → Answers p m requests ((at_in, msg) ∷ msgs)
  pass_then p n m requests known at_in msg msgs after same
        (next, sent, step, none_sent, found, held) =
      then-Answers p n m requests next at_in msg sent msgs step (rw none_sent (omega (arith, same)))
        (after next found held)

  -- A response of the disk for the request p.
  own_then :
      (p n : ℕ) (requests : Requests) (known : List ℕ) (msgs : List (Bool × Message))
      (after : (k : ℕ) (next : Requests)
        → 0 < k
        → k < 2147483648
        → find ℕ_discrete p next ≡ some k
        → ((q : ℕ) → IsAmong q known → IsHeld q next)
        → completions p msgs ≤ k
        → Answers p k next msgs)
      → 0 < n
      → n < 2147483648
      → find ℕ_discrete p requests ≡ some n
      → ((q : ℕ) → IsAmong q known → IsHeld q requests)
      → completions p ((false, device_response p) ∷ msgs) ≤ n
      → Answers p n requests ((false, device_response p) ∷ msgs)
  own_then p zero requests known msgs after pos small found held few = absurd (omega arith)
  own_then p (suc zero) requests known msgs after pos small found held few =
      then-Answers p 1 1 requests requests false (device_response p) (read_blocks_response p ∷ [])
        msgs (last_response get_addresses p requests found) (ground arith)
        (after 1 requests pos small found held (ground arith))
  own_then p (suc (suc k)) requests known msgs after pos small found held few =
      let (next, sent, step, none_sent, found', held') =
        earlier_response get_addresses p k requests known (omega arith) found held in
      then-Answers p (suc k) (suc (suc k)) requests next false (device_response p) sent msgs step
        (rw none_sent (ground arith))
        (after (suc k) next (omega arith) (omega arith) found' held' (ground arith))

  pub answers :
      (p n : ℕ) (requests : Requests) (known : List ℕ) (msgs : List (Bool × Message))
      → 0 < n
      → n < 2147483648
      → find ℕ_discrete p requests ≡ some n
      → ((q : ℕ) → IsAmong q known → IsHeld q requests)
      → IsTraffic p known msgs
      → completions p msgs ≤ n
      → Answers p n requests msgs
  unfolding handle_messages
  answers p n requests known [] pos small found held traffic few =
      (requests, [], refl, ground arith)
  answers p n requests known ((true, read_blocks id blocks) ∷ msgs) pos small found held traffic
        few =
      pass_then p n n requests (id ∷ known) true (read_blocks id blocks) msgs
        (λ next found' held'.
          answers p n next (id ∷ known) msgs pos small found' held' traffic.1 few)
        refl (read_passes get_addresses p n requests known id blocks traffic.0 found held)
  answers p n requests known ((true, write_blocks id through blocks) ∷ msgs) pos small found held
        traffic few =
      pass_then p n n requests (id ∷ known) true (write_blocks id through blocks) msgs
        (λ next found' held'.
          answers p n next (id ∷ known) msgs pos small found' held' traffic.1 few)
        refl (write_passes get_addresses p n requests known id through blocks traffic.0 found held)
  answers p n requests known ((true, device_response id) ∷ msgs) pos small found held traffic few =
      elim traffic [ ]
  answers p n requests known ((true, other) ∷ msgs) pos small found held traffic few =
      elim traffic [ ]
  answers p n requests known ((false, read_blocks id blocks) ∷ msgs) pos small found held traffic
        few =
      elim traffic [ ]
  answers p n requests known ((false, write_blocks id through blocks) ∷ msgs) pos small found held
        traffic few =
      elim traffic [ ]
  answers p n requests known ((false, other) ∷ msgs) pos small found held traffic few =
      elim traffic [ ]
  answers p n requests known ((false, device_response id) ∷ msgs) pos small found held traffic few =
      elim (ℕ_discrete p id) [
        | no different ↦
            let (r, hit) = held id traffic.0 in
            let same : completions p ((false, device_response id) ∷ msgs) ≡ completions p msgs =
              ground arith in
            pass_then p n n requests known false (device_response id) msgs
              (λ next found' held'.
                answers p n next known msgs pos small found' held' traffic.1 (omega arith))
              (rw same refl)
              (response_passes get_addresses p n requests known id r different found hit held)
        | yes same ↦
            subst
              (λ x.
                completions p ((false, device_response x) ∷ msgs) ≤ n
                → Answers p n requests ((false, device_response x) ∷ msgs))
              same
              (own_then p n requests known msgs
                (λ k next pos' small' found' held' few'.
                  answers p k next known msgs pos' small' found' held' traffic.1 few')
                pos small found held)
              few
      ]

  length-map :
      (request : ℕ → Output) (addresses : List ℕ)
      → length (map request addresses) ≡ length addresses
  length-map request [] = refl
  length-map request (a ∷ addresses) = ap suc (length-map request addresses)

  requests_generated_lem :
      (request : ℕ → Output) (blocks : List ℕ)
      → length (device_requests get_addresses request blocks) < u64_mod
      → requests_generated get_addresses blocks
        ≡ length (device_requests get_addresses request blocks)
  unfolding requests_generated device_requests
  requests_generated_lem request [] small = refl
  requests_generated_lem request (block ∷ blocks) small =
      let size =
        length-append (map request (get_addresses block))
          (device_requests get_addresses request blocks) in
      let first = length-map request (get_addresses block) in
      let rest = requests_generated_lem request blocks (omega arith) in
      rw rest (
        add_u64_small (length (get_addresses block))
          (length (device_requests get_addresses request blocks)) (omega arith)
        ∙ omega arith)

  -- A request for blocks, and what the translator sends to the disk for it.
  abbrev pub blocks_request : Bool → ℕ → Bool → List ℕ → Message
  blocks_request true p through blocks = read_blocks p blocks
  blocks_request false p through blocks = write_blocks p through blocks

  abbrev pub sent_to_disk : Bool → ℕ → Bool → List ℕ → List Output
  sent_to_disk true p through blocks =
      device_requests get_addresses (λ address. read_device address p) blocks
  sent_to_disk false p through blocks =
      device_requests get_addresses (λ address. write_device through address p) blocks

  arrives :
      (is_read through : Bool) (p : ℕ) (blocks : List ℕ) (requests : Requests)
      → length (sent_to_disk is_read p through blocks) < u64_mod
      → (handle_message get_addresses true requests (blocks_request is_read p through blocks)
          ≡ some (
            set_remaining requests p (length (sent_to_disk is_read p through blocks)),
            sent_to_disk is_read p through blocks,
          ))
        × (responses p (sent_to_disk is_read p through blocks) ≡ 0)
  unfolding handle_message handle_request
  arrives true through p blocks requests small = (
    rw (requests_generated_lem (λ address. read_device address p) blocks small),
    no_responses get_addresses p _ blocks (no_responses-read p p),
  )
  arrives false through p blocks requests small = (
    rw (requests_generated_lem (λ address. write_device through address p) blocks small),
    no_responses get_addresses p _ blocks (no_responses-write p p through),
  )

  -- A read or write of blocks that sends at least one and less than 2 ^ 31 requests to the disk is
  -- answered, whatever other requests for blocks arrive and are served in between: over messages
  -- that hold at most as many responses of the disk for it as it has sent requests, the translator
  -- runs on, and sends exactly one response to it if they are as many, and none if they are fewer.
  pub request_answered :
      (is_read through : Bool) (p : ℕ) (blocks : List ℕ) (requests : Requests) (known : List ℕ)
      (msgs : List (Bool × Message))
      → 0 < length (sent_to_disk is_read p through blocks)
      → length (sent_to_disk is_read p through blocks) < 2147483648
      → ((q : ℕ) → IsAmong q known → IsHeld q requests)
      → IsTraffic p (p ∷ known) msgs
      → completions p msgs ≤ length (sent_to_disk is_read p through blocks)
      → (end : Requests) × (sent : List Output) × (handle_messages get_addresses requests
            ((true, blocks_request is_read p through blocks) ∷ msgs)
          ≡ some (end, sent))
        × (responses p sent
            ≡ once (completions p msgs) (length (sent_to_disk is_read p through blocks)))
  unfolding handle_messages
  request_answered is_read through p blocks requests known msgs some_sent small held traffic few =
      let n = length (sent_to_disk is_read p through blocks) in
      let (step, quiet) = arrives is_read through p blocks requests (omega arith) in
      let found = find-set_remaining p p n requests ∙ if_pos (ℕ_discrete p p) refl _ _ in
      let (end, later, run, count) =
        answers p n (set_remaining requests p n) (p ∷ known) msgs some_sent small found
          (IsHeld-after_set get_addresses requests known p n held) traffic few in
      (
        end,
        sent_to_disk is_read p through blocks ++ later,
        rw (handle_messages, step, run),
        responses-append p (sent_to_disk is_read p through blocks) later
            ∙ rw (quiet, count) (omega arith),
      )
