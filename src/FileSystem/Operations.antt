-- ===== src/FileSystem/Operations.antt =====
-- The requests of src/os/file_system.cc from their first message to their last.
use native.Mathlib.Nat.{mod-eq_of_lt}
use hecios.RegionSet.{FileRegion}
use hecios.Storage.{get_file_meta_data_blocks, get_file_data_blocks}
use hecios.FileSystem.{
  FileSystem, IoRequest, Message, request_itself, read_blocks_response, other_response, Output,
  read_blocks, write_blocks, read_response, write_response, io_size, State, init, read_meta,
  send_io_request, write_meta, io_complete, meta_complete, finish, is_steady, io_request, FsmSwitch,
  on_exit, on_enter, read_meta_data, write_meta_data, get_data_blocks, perform_io, file_io_response,
  process_io_message, process_message, process_messages,
}
use hecios.FileSystem.Fsm.{IsFsm}
use hecios.FileSystem.Regions.{get_data_blocks_lem}
use hecios.Prelude.{
  ℕ, ◌+◌, ◌<◌, u64_mod, add_u64, arith, Bool, true, false, not, List, [], ◌∷◌, some, ◌≡◌, refl, ◌∙◌,
  if◌then◌else◌,
}

-- A response of the layer below: to reads of blocks, or another one.
abbrev pub response : Bool → Message
response true = read_blocks_response
response false = other_response

-- What the request sends for its data.
abbrev pub data_request : {K : Type 0} → IoRequest K → List ℕ → Output
data_request io blocks =
    if io.is_read then read_blocks io.pointer blocks else write_blocks io.pointer false blocks

-- The bytes of all regions, with no wrap.
abbrev pub total : List FileRegion → ℕ
total [] = 0
total (r ∷ regions) = r.extent + total regions

-- The response to the request, with a number of bytes.
abbrev pub data_response : {K : Type 0} → IoRequest K → ℕ → Output
data_response io bytes =
    if io.is_read then read_response io.pointer bytes else write_response io.pointer bytes

io_size-total :
    (regions : List FileRegion) → total regions < u64_mod → io_size regions ≡ total regions
unfolding io_size add_u64
io_size-total [] h = refl
io_size-total (r ∷ regions) h =
    let rest = io_size-total regions (omega arith) in
    rw (io_size, rest) (mod-eq_of_lt {n = total (r ∷ regions)} {m = u64_mod} h)

module _ {K : Type 0} (dec : Discrete K) (fsm_switch : FsmSwitch State Message Output)
    (laws : (fs : FileSystem K) (io : IoRequest K)
      → IsFsm is_steady on_exit
          (on_enter dec fs io)
          (fsm_switch is_steady on_exit (on_enter dec fs io))) where
  starts :
      (fs : FileSystem K) (io : IoRequest K) (inode : ℕ)
      → get_file_meta_data_blocks dec fs.storage_layout io.filename ≡ some (inode ∷ [])
      → process_message dec fsm_switch fs (io_request io) init request_itself
        ≡ some (read_meta, read_blocks io.pointer (inode ∷ []) ∷ [])
  unfolding process_message process_io_message on_exit on_enter read_meta_data
  starts fs io inode meta = (laws fs io).enters init read_meta request_itself _ refl refl (rw meta)

  performs :
      (fs : FileSystem K) (io : IoRequest K) (inode : ℕ) (blocks : List ℕ)
      → get_file_meta_data_blocks dec fs.storage_layout io.filename ≡ some (inode ∷ [])
      → get_data_blocks dec fs io ≡ some blocks
      → process_message dec fsm_switch fs (io_request io) read_meta read_blocks_response
        ≡ some (
          write_meta,
          data_request io blocks ∷ write_blocks io.pointer (not fs.no_atime) (inode ∷ []) ∷ [],
        )
  unfolding process_message process_io_message on_exit on_enter perform_io write_meta_data
  performs fs io inode blocks meta found =
      (laws fs io).passes read_meta send_io_request write_meta read_blocks_response
        (data_request io blocks ∷ []) _ refl refl (rw found)
        ((laws fs io).enters send_io_request write_meta read_blocks_response _ refl refl (rw meta))

  waits :
      (fs : FileSystem K) (io : IoRequest K) (first : Bool)
      → process_message dec fsm_switch fs (io_request io) write_meta (response first)
        ≡ some (if first then meta_complete else io_complete, [])
  unfolding process_message process_io_message on_exit on_enter
  waits fs io true =
      (laws fs io).enters write_meta meta_complete read_blocks_response [] refl refl refl
  waits fs io false = (laws fs io).enters write_meta io_complete other_response [] refl refl refl

  finish_sends :
      (fs : FileSystem K) (io : IoRequest K)
      → total io.regions < u64_mod
      → some (file_io_response io ∷ []) ≡ some (data_response io (total io.regions) ∷ [])
  unfolding file_io_response
  finish_sends fs io few = rw (io_size-total io.regions few) refl

  finishes :
      (fs : FileSystem K) (io : IoRequest K) (first second : Bool)
      → total io.regions < u64_mod
      → process_message dec fsm_switch fs
          (io_request io)
          (if first then meta_complete else io_complete)
          (response second)
        ≡ some (finish, data_response io (total io.regions) ∷ [])
  unfolding process_message process_io_message on_exit on_enter
  finishes fs io true second few =
      (laws fs io).enters meta_complete finish (response second) _ refl refl
        (finish_sends fs io few)
  finishes fs io false second few =
      (laws fs io).enters io_complete finish (response second) _ refl refl (finish_sends fs io few)

  -- A read or write, of fewer than 2 ^ 64 bytes, of a file that has an inode block and data
  -- blocks, over an FSM_Switch with the documented behaviour and blocks of some bytes: the request
  -- asks for the inode block; the response to that makes it ask for the data blocks of its
  -- regions, in their order, and then write the inode block, with writeThrough unless noATime is
  -- set; and of the two responses that follow, whatever their types, only the second sends the
  -- response, with the bytes of all regions.
  pub process_messages-io :
      (fs : FileSystem K) (io : IoRequest K) (inode : ℕ) (blocks : List ℕ) (first second : Bool)
      → total io.regions < u64_mod
      → 0 < fs.storage_layout.fs_block_size
      → get_file_meta_data_blocks dec fs.storage_layout io.filename ≡ some (inode ∷ [])
      → get_file_data_blocks dec fs.storage_layout io.filename io.regions ≡ some blocks
      → (process_messages dec fsm_switch fs
            (io_request io)
            init
            (request_itself ∷ read_blocks_response ∷ response first ∷ [])
          ≡ some (
            if first then meta_complete else io_complete,
            read_blocks io.pointer (inode ∷ [])
                ∷ data_request io blocks
                ∷ write_blocks io.pointer (not fs.no_atime) (inode ∷ [])
                ∷ [],
          ))
        × (process_messages dec fsm_switch fs
              (io_request io)
              init
              (request_itself ∷ read_blocks_response ∷ response first ∷ response second ∷ [])
            ≡ some (
              finish,
              read_blocks io.pointer (inode ∷ [])
                  ∷ data_request io blocks
                  ∷ write_blocks io.pointer (not fs.no_atime) (inode ∷ [])
                  ∷ data_response io (total io.regions)
                  ∷ [],
            ))
  unfolding process_messages
  process_messages-io fs io inode blocks first second few h meta found =
      let performed = performs fs io inode blocks meta (get_data_blocks_lem dec fs io h ∙ found) in
      (
        rw (process_messages, starts fs io inode meta, performed, waits fs io first),
        rw (
          process_messages,
          starts fs io inode meta,
          performed,
          waits fs io first,
          finishes fs io first second few,
        ),
      )
