-- ===== src/FileSystem/Stalls.antt =====
-- A read or write without bytes in src/os/file_system.cc, with the translator of src/os/block_translator.cc
-- below.
use hecios.Assoc.{find}
use hecios.RegionSet.{FileRegion}
use hecios.Storage.{get_file_meta_data_blocks, get_file_data_blocks}
use hecios.FileSystem.{
  FileSystem, IoRequest, Message, request_itself, read_blocks_response, Output, read_blocks,
  write_blocks, State, init, io_complete, meta_complete, is_steady, FsmSwitch, io_request, on_exit,
  on_enter, process_messages,
}
use hecios.FileSystem.Fsm.{IsFsm}
use hecios.FileSystem.Regions.{AllEmpty, regions_blocks-AllEmpty}
use hecios.FileSystem.Operations.{response, data_request, total, process_messages-io}
use hecios.BlockTranslator as Translator
use hecios.BlockTranslator.Completion.{blocks_request}
use hecios.Prelude.{
  ℕ, u64_mod, arith, ◌<◌, Bool, true, false, not, List, [], ◌∷◌, some, ◌≡◌, refl, if◌then◌else◌,
}

total-AllEmpty : (regions : List FileRegion) → AllEmpty regions → total regions ≡ 0
total-AllEmpty [] empty = refl
total-AllEmpty (r ∷ regions) empty =
    let rest = total-AllEmpty regions empty.1 in let first = empty.0 in omega arith

no_bytes : (regions : List FileRegion) → AllEmpty regions → total regions < u64_mod
no_bytes regions empty = let none_left = total-AllEmpty regions empty in omega arith

nothing_sent :
    (get_addresses : ℕ → List ℕ) (requests : Translator.Requests) (is_read : Bool) (pointer : ℕ)
    → (after : Translator.Requests) × (Translator.handle_message get_addresses true requests
          (blocks_request get_addresses is_read pointer false [])
        ≡ some (after, []))
unfolding Translator.handle_message Translator.handle_request Translator.device_requests
nothing_sent get_addresses requests true pointer = (_, refl)
nothing_sent get_addresses requests false pointer = (_, refl)

module _ {K : Type 0} (dec : Discrete K) (fsm_switch : FsmSwitch State Message Output)
    (laws : (fs : FileSystem K) (io : IoRequest K)
      → IsFsm is_steady on_exit
          (on_enter dec fs io)
          (fsm_switch is_steady on_exit (on_enter dec fs io))) where
  no_data_blocks :
      (fs : FileSystem K) (io : IoRequest K) (first_block : ℕ)
      → 0 < fs.storage_layout.fs_block_size
      → find dec io.filename fs.storage_layout.data_blocks ≡ some first_block
      → AllEmpty io.regions
      → get_file_data_blocks dec fs.storage_layout io.filename io.regions ≡ some []
  unfolding get_file_data_blocks
  no_data_blocks fs io first_block h held empty =
      rw (
        held,
        regions_blocks-AllEmpty fs.storage_layout.fs_block_size first_block io.regions h empty,
      )

  -- A read or write of a file whose regions have no bytes, over an FSM_Switch with the documented
  -- behaviour and blocks of some bytes, asks for no data blocks, for which the block translator,
  -- whatever its addresses and the other requests that it holds, sends nothing to the disk: with
  -- the one response that comes, to the write of the inode block, the request waits for another,
  -- and no response to it has been sent.
  pub empty_io_stalls :
      (fs : FileSystem K) (io : IoRequest K) (inode first_block : ℕ) (is_read : Bool)
      → 0 < fs.storage_layout.fs_block_size
      → get_file_meta_data_blocks dec fs.storage_layout io.filename ≡ some (inode ∷ [])
      → find dec io.filename fs.storage_layout.data_blocks ≡ some first_block
      → AllEmpty io.regions
      → (process_messages dec fsm_switch fs
            (io_request io)
            init
            (request_itself ∷ read_blocks_response ∷ response is_read ∷ [])
          ≡ some (
            if is_read then meta_complete else io_complete,
            read_blocks io.pointer (inode ∷ [])
                ∷ data_request io []
                ∷ write_blocks io.pointer (not fs.no_atime) (inode ∷ [])
                ∷ [],
          ))
        × ((get_addresses : ℕ → List ℕ) (requests : Translator.Requests)
            → (after : Translator.Requests) × (Translator.handle_message get_addresses true requests
                  (blocks_request get_addresses io.is_read io.pointer false [])
                ≡ some (after, [])))
  empty_io_stalls fs io inode first_block is_read h meta held empty = (
    (process_messages-io dec fsm_switch laws fs io inode [] is_read is_read
        (no_bytes io.regions empty) h meta (no_data_blocks fs io first_block h held empty)).0,
    λ get_addresses requests. nothing_sent get_addresses requests io.is_read io.pointer,
  )
