-- ===== src/BlockTranslator.antt =====
-- src/os/block_translator.cc: requests for blocks of the file system become requests for addresses of
-- the disk, and are answered when all of those are. A request message is known by its pointer.
pub mod Addresses
pub mod Steps
pub mod Completion
pub mod Tests
use hecios.Assoc.{find, assign}
use hecios.Prelude.{
  ℕ, zero, suc, ◌+◌, ◌-◌, ◌%◌, Bool, true, false, List, [], ◌∷◌, ◌++◌, Option, none, some, ◌>>=◌,
  map, if◌then◌else◌, ◌==◌, ltb, add_u64, mul_u64, length, u64_mod, ℕ_discrete,
}

-- What arrives, by its dynamic type: a read or write of blocks, with its pointer, and for a write
-- its writeThrough; a response from the disk, with the pointer of the request for blocks that is
-- the context of its context; or any other message.
pub data Message : Type 0 where
  read_blocks : ℕ → List ℕ → Message
  write_blocks : ℕ → Bool → List ℕ → Message
  device_response : ℕ → Message
  other : Message

-- What is sent: through `request`, a read or a write of an address, with the request for blocks
-- as its context; through `out`, a response to a request for blocks.
pub data Output : Type 0 where
  read_device : ℕ → ℕ → Output
  write_device : Bool → ℕ → ℕ → Output
  read_blocks_response : ℕ → Output

-- numRemainingResponses of the requests, a long, by their pointers.
abbrev pub Requests : Type 0
Requests = List (ℕ × ℕ)

abbrev pub u32_mod : ℕ
u32_mod = 4294967296

-- A long read into an int, and an int stored into a long: the low half, and the sign extended.
unfoldable pub to_int : ℕ → ℕ
to_int n = n % u32_mod

unfoldable pub to_long : ℕ → ℕ
to_long n = if ltb n 2147483648 then n else n + (u64_mod - u32_mod)

unfoldable pub set_remaining : Requests → ℕ → ℕ → Requests
set_remaining requests id n = elim (find ℕ_discrete id requests) [
  | none ↦ (id, n) ∷ requests
  | some _ ↦ assign ℕ_discrete id n requests
]

module _ (get_addresses : ℕ → List ℕ) where
  -- The loops over the blocks of a request and over the addresses of each.
  unfoldable pub device_requests : (ℕ → Output) → List ℕ → List Output
  device_requests request [] = []
  device_requests request (block ∷ blocks) =
      map request (get_addresses block) ++ device_requests request blocks

  unfoldable pub requests_generated : List ℕ → ℕ
  requests_generated [] = 0
  requests_generated (block ∷ blocks) =
      add_u64 (length (get_addresses block)) (requests_generated blocks)

  unfoldable pub handle_request : Requests → Message → Option (Requests × List Output)
  handle_request requests (read_blocks id blocks) = some (
    set_remaining requests id (requests_generated blocks),
    device_requests (λ address. read_device address id) blocks,
  )
  handle_request requests (write_blocks id through blocks) = some (
    set_remaining requests id (requests_generated blocks),
    device_requests (λ address. write_device through address id) blocks,
  )
  handle_request requests _ = none

  -- A response from the disk. `none`: there is no request for blocks, which an assert stops.
  unfoldable pub handle_response : Requests → ℕ → Option (Requests × List Output)
  handle_response requests id = do
    remaining ← find ℕ_discrete id requests
    let num_remaining_responses = to_int remaining
    if num_remaining_responses == 1
        then some (requests, read_blocks_response id ∷ [])
        else some (
          assign ℕ_discrete id (to_long (to_int (num_remaining_responses + (u32_mod - 1))))
              requests,
          [],
        )

  -- handleMessage; the first argument tells whether the message arrives at the gate `in`.
  unfoldable pub handle_message : Bool → Requests → Message → Option (Requests × List Output)
  handle_message true requests msg = handle_request requests msg
  handle_message false requests (device_response id) = handle_response requests id
  handle_message false requests _ = none

  -- The messages of the simulation, one after the other.
  unfoldable pub handle_messages :
      Requests → List (Bool × Message) → Option (Requests × List Output)
  handle_messages requests [] = some (requests, [])
  handle_messages requests ((at_in, msg) ∷ msgs) = do
    (next, sent) ← handle_message at_in requests msg
    (end, later) ← handle_messages next msgs
    some (end, sent ++ later)

-- NoTranslation::getAddresses appends the block to a vector that has one element already.
unfoldable pub no_translation : ℕ → List ℕ
no_translation block = 0 ∷ block ∷ []

-- BasicTranslator, with addrsPerBlock_ as initializeTranslator sets it.
abbrev pub addrs_per_block : ℕ
addrs_per_block = 8

unfoldable pub addresses_from : ℕ → ℕ → ℕ → List ℕ
addresses_from begin i zero = []
addresses_from begin i (suc count) = add_u64 begin i ∷ addresses_from begin (suc i) count

unfoldable pub basic_translator : ℕ → List ℕ
basic_translator block = addresses_from (mul_u64 block addrs_per_block) 0 addrs_per_block
