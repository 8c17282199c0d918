-- ===== src/FileSystem.antt =====
-- src/os/file_system.cc: how the file system of a server turns requests on files into requests for
-- blocks. FSM_Switch, the state machine macro of the simulation kernel, is a parameter here.
pub mod Fsm
pub mod Regions
pub mod Operations
pub mod Stalls
pub mod Tests
use hecios.RegionSet.{FileRegion}
use hecios.Storage.{
  StorageLayout, add_directory, add_file, get_file_meta_data_blocks, get_file_data_blocks,
}
use hecios.Prelude.{
  ℕ, zero, suc, Bool, true, false, not, List, [], ◌∷◌, ◌++◌, Option, none, some, ◌>>=◌,
  if◌then◌else◌, length, replicate, add_u64,
}

-- NativeFileSystem: its storage layout, and noATime_.
pub record FileSystem (K : Type 0) : Type 0 where
  pub storage_layout : StorageLayout K
  pub no_atime : Bool

-- A request to read or write a list of regions of a file, known by its pointer. Its arrays of
-- offsets and extents have one length.
pub record IoRequest (K : Type 0) : Type 0 where
  pub pointer : ℕ
  pub filename : K
  pub is_read : Bool
  pub regions : List FileRegion

-- A message that is processed for a request: the request itself, a spfsOSReadBlocksResponse, or
-- another response.
pub data Message : Type 0 where
  request_itself read_blocks_response other_response : Message

-- What is sent, with the pointer of the request as its context: requests for blocks through
-- `request`, and responses through `out`.
pub data Output : Type 0 where
  read_blocks : ℕ → List ℕ → Output
  write_blocks : ℕ → Bool → List ℕ → Output
  read_response : ℕ → ℕ → Output
  write_response : ℕ → ℕ → Output
  open_response : ℕ → Output
  unlink_response : ℕ → Output

pub data State : Type 0 where
  init read_meta send_io_request write_meta io_complete meta_complete finish : State

-- FSM_Steady or FSM_Transient.
abbrev pub is_steady : State → Bool
is_steady send_io_request = false
is_steady _ = true

-- A request and the file it is for.
pub data FileRequest (K : Type 0) : Type 0 where
  io_request : IoRequest K → FileRequest K
  open_request : ℕ → K → Bool → FileRequest K
  unlink_request : ℕ → K → FileRequest K

-- FSM_Switch, from the tests of states, the code of FSM_Exit and the code of FSM_Enter. The first
-- gives the state of FSM_Goto, or none without one; for both, `none` is an assert that fails.
abbrev pub FsmSwitch : Type 0 → Type 0 → Type 0 → Type 0
FsmSwitch S M O =
    (S → Bool)
    → (S → M → Option (Option S))
    → (S → M → Option (List O))
    → S
    → M
    → Option (S × List O)

unfoldable pub io_size : List FileRegion → ℕ
io_size [] = 0
io_size (r ∷ regions) = add_u64 r.extent (io_size regions)

abbrev pub is_request : Message → Bool
is_request request_itself = true
is_request _ = false

abbrev pub is_read_blocks : Message → Bool
is_read_blocks read_blocks_response = true
is_read_blocks _ = false

abbrev pub assert_that {ℓ} : {A : Type ℓ} → Bool → A → Option A
assert_that true a = some a
assert_that false a = none

unfoldable pub file_io_response : {K : Type 0} → IoRequest K → Output
file_io_response io =
    if io.is_read
    then read_response io.pointer (io_size io.regions)
    else write_response io.pointer (io_size io.regions)

-- The code of processIOMessage at the exit from a state and at the entry into one.
unfoldable pub on_exit : State → Message → Option (Option State)
on_exit init msg = assert_that (is_request msg) (some read_meta)
on_exit read_meta msg = assert_that (is_read_blocks msg) (some send_io_request)
on_exit send_io_request msg = assert_that (is_read_blocks msg) (some write_meta)
on_exit write_meta msg = some (some (if is_read_blocks msg then meta_complete else io_complete))
on_exit io_complete msg = some (some finish)
on_exit meta_complete msg = some (some finish)
on_exit finish msg = some none

module _ {K : Type 0} (dec : Discrete K) where
  unfoldable pub create_directory : FileSystem K → K → FileSystem K
  create_directory fs name = record fs { storage_layout = add_directory dec fs.storage_layout name }

  unfoldable pub create_file : FileSystem K → K → ℕ → FileSystem K
  create_file fs name size = record fs { storage_layout = add_file dec fs.storage_layout name size }

  unfoldable pub read_meta_data : FileSystem K → ℕ → K → Option (List Output)
  read_meta_data fs pointer name = do
    blocks ← get_file_meta_data_blocks dec fs.storage_layout name
    elim blocks [ [] ↦ none | b ∷ bs ↦ some (read_blocks pointer (b ∷ bs) ∷ []) ]

  unfoldable pub write_meta_data : FileSystem K → ℕ → K → Option (List Output)
  write_meta_data fs pointer name = do
    blocks ← get_file_meta_data_blocks dec fs.storage_layout name
    elim blocks [ [] ↦ none | b ∷ bs ↦ some (write_blocks pointer (not fs.no_atime) (b ∷ []) ∷ []) ]

  -- NativeFileSystem::getDataBlocks, whose vector has as many empty regions before the regions.
  unfoldable pub get_data_blocks : FileSystem K → IoRequest K → Option (List ℕ)
  get_data_blocks fs io =
      let empty_regions = replicate (length io.regions) (record { offset = 0; extent = 0 }) in
      get_file_data_blocks dec fs.storage_layout io.filename (empty_regions ++ io.regions)

  unfoldable pub perform_io : FileSystem K → IoRequest K → Option (List Output)
  perform_io fs io = do
    blocks ← get_data_blocks fs io
    some (
        (if io.is_read then read_blocks io.pointer blocks else write_blocks io.pointer false blocks)
        ∷ [])

  unfoldable pub on_enter : FileSystem K → IoRequest K → State → Message → Option (List Output)
  on_enter fs io read_meta msg = do
    _ ← assert_that (is_request msg) msg
    read_meta_data fs io.pointer io.filename
  on_enter fs io send_io_request msg = do _ ← assert_that (is_read_blocks msg) msg; perform_io fs io
  on_enter fs io write_meta msg = do
    _ ← assert_that (is_read_blocks msg) msg
    write_meta_data fs io.pointer io.filename
  on_enter fs io finish msg = some (file_io_response io ∷ [])
  on_enter fs io _ msg = some []

  unfoldable pub process_open_message : FileSystem K → ℕ → K → Bool → Message → Option (List Output)
  process_open_message fs pointer name is_create request_itself =
      if is_create then write_meta_data fs pointer name else read_meta_data fs pointer name
  process_open_message fs pointer name is_create _ = some (open_response pointer ∷ [])

  unfoldable pub process_unlink_message : FileSystem K → ℕ → K → Message → Option (List Output)
  process_unlink_message fs pointer name request_itself = write_meta_data fs pointer name
  process_unlink_message fs pointer name _ = some (unlink_response pointer ∷ [])

  module _ (fsm_switch : FsmSwitch State Message Output) where
    unfoldable pub process_io_message :
        FileSystem K → IoRequest K → State → Message → Option (State × List Output)
    process_io_message fs io = fsm_switch is_steady on_exit (on_enter fs io)

    -- processMessage; the state is kept in a read or write request.
    unfoldable pub process_message :
        FileSystem K → FileRequest K → State → Message → Option (State × List Output)
    process_message fs (io_request io) state msg = process_io_message fs io state msg
    process_message fs (open_request pointer name is_create) state msg = do
      sent ← process_open_message fs pointer name is_create msg
      some (state, sent)
    process_message fs (unlink_request pointer name) state msg = do
      sent ← process_unlink_message fs pointer name msg
      some (state, sent)

    -- The messages that are processed for a request, one after the other.
    unfoldable pub process_messages :
        FileSystem K → FileRequest K → State → List Message → Option (State × List Output)
    process_messages fs request state [] = some (state, [])
    process_messages fs request state (msg ∷ msgs) = do
      (next, sent) ← process_message fs request state msg
      (end, later) ← process_messages fs request next msgs
      some (end, sent ++ later)
