-- ===== src/BlockTranslator/Tests.antt =====
-- src/os/block_translator.cc: the theorems on a write of two blocks through the basic translator.
use hecios.Assoc.{find, assign}
use hecios.BlockTranslator.{
  Message, write_blocks, read_blocks, device_response, Output, Requests, to_int, to_long,
  set_remaining, device_requests, requests_generated, handle_request, handle_response,
  handle_message, handle_messages, no_translation, addresses_from, basic_translator,
  addrs_per_block, read_device,
}
use hecios.BlockTranslator.Steps.{responses, IsHeld, IsAmong, IsTraffic}
use hecios.BlockTranslator.Completion.{sent_to_disk, request_answered}
use hecios.BlockTranslator.Addresses.{requested, requested-sent_to_disk}
use hecios.Prelude.{
  ℕ, ◌/◌, Bool, true, false, List, [], ◌∷◌, some, ◌≡◌, ◌↔◌, refl, inl, inr, arith, add_u64, mul_u64,
  ℕ_discrete,
}

program : Unit {0}
unfolding find assign to_int to_long set_remaining device_requests requests_generated handle_request
    handle_response handle_message handle_messages no_translation addresses_from basic_translator
    add_u64 mul_u64 ℕ_discrete
program = tt

-- Without translation each block is asked for with the address 0 beside it.
no_translation_runs :
    handle_message no_translation true [] (read_blocks 1 (5 ∷ []))
    ≡ some ((1, 2) ∷ [], read_device 0 1 ∷ read_device 5 1 ∷ [])
unfolding program
no_translation_runs = refl

-- A request for no blocks: nothing is sent, and no response can come.
empty_request_runs :
    handle_message basic_translator true [] (read_blocks 1 []) ≡ some ((1, 0) ∷ [], [])
unfolding program
empty_request_runs = refl

requested-sent_to_disk_example :
    IsAmong 43 (requested (sent_to_disk basic_translator false 1 true (5 ∷ 9 ∷ [])))
    ↔ IsAmong (43 / addrs_per_block) (5 ∷ 9 ∷ [])
requested-sent_to_disk_example =
    requested-sent_to_disk false true 1 43 (5 ∷ 9 ∷ []) (omega arith, (omega arith, tt))

-- Each block has one address. A read of one block, 2, arrives between the responses to 1.
abbrev same_address : ℕ → List ℕ
same_address block = block ∷ []

abbrev traffic : List (Bool × Message)
traffic =
    (false, device_response 1)
    ∷ (true, read_blocks 2 (7 ∷ []))
    ∷ (false, device_response 2)
    ∷ (false, device_response 1)
    ∷ []

traffic-IsTraffic : IsTraffic 1 (1 ∷ []) traffic
traffic-IsTraffic = (inl refl, ((λ p. absurd (omega (arith, p))), (inl refl, (inr (inl refl), tt))))

none_known : (q : ℕ) → IsAmong q [] → IsHeld q []
none_known q h = elim h [ ]

request_answered_example :
    (end : Requests) × (sent : List Output) × (handle_messages same_address []
        ((true, write_blocks 1 false (5 ∷ 9 ∷ [])) ∷ traffic)
      ≡ some (end, sent))
    × (responses 1 sent ≡ 1)
unfolding program
request_answered_example =
    request_answered same_address false false 1 (5 ∷ 9 ∷ []) [] [] traffic (omega arith)
      (omega arith) none_known traffic-IsTraffic (omega arith)
