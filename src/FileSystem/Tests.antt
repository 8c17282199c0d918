-- ===== src/FileSystem/Tests.antt =====
-- src/os/file_system.cc: the theorems on a write of two regions, with a state machine switch that
-- runs at most two states for a message.
use hecios.Assoc.{find}
use hecios.Storage.{
  consecutive_blocks, blocks_to_access, region_blocks, regions_blocks, get_file_meta_data_blocks,
  get_file_data_blocks,
}
use hecios.FileSystem.{
  FileSystem, IoRequest, Message, request_itself, read_blocks_response, other_response, Output,
  read_blocks, write_blocks, write_response, State, init, read_meta, send_io_request, write_meta,
  io_complete, meta_complete, finish, is_steady, io_request, io_size, file_io_response, on_exit,
  on_enter, get_data_blocks, process_messages,
}
use hecios.FileSystem.Fsm.{IsFsm}
use hecios.FileSystem.Operations.{process_messages-io}
use hecios.FileSystem.Stalls.{empty_io_stalls}
use hecios.BlockTranslator as Translator
use hecios.BlockTranslator.{Requests, handle_message}
use hecios.Prelude.{
  ℕ, zero, suc, Bool, true, false, List, [], ◌∷◌, ◌++◌, Option, none, some, ◌>>=◌, ◌≡◌, refl, sym,
  ◌∙◌, ap, arith, add_u64, sub_u64, mul_u64, ℕ_discrete as dec,
}

module _ {S M O : Type 0} (steady : S → Bool) (exit : S → M → Option (Option S))
    (enter : S → M → Option (List O)) where
  enter_then : Bool → (M → Option (S × List O)) → S → M → Option (S × List O)
  enter_then true next t m = do sent ← enter t m; some (t, sent)
  enter_then false next t m = do sent ← enter t m; (u, more) ← next m; some (u, sent ++ more)

  run_states : ℕ → S → M → Option (S × List O)
  run_states zero s m = none
  run_states (suc fuel) s m = do
    target ← exit s m
    elim target [
      | none ↦ enter_then (steady s) (run_states fuel s) s m
      | some t ↦ enter_then (steady t) (run_states fuel t) t m
    ]

two_states :
    {S M O : Type 0}
    → (S → Bool)
    → (S → M → Option (Option S))
    → (S → M → Option (List O))
    → S
    → M
    → Option (S × List O)
two_states steady exit enter = run_states steady exit enter 2

-- The one transient state leads to a steady one.
one_state_enough :
    (fs : FileSystem ℕ) (io : IoRequest ℕ) (m : Message)
    → run_states is_steady on_exit (on_enter dec fs io) 2 send_io_request m
      ≡ run_states is_steady on_exit (on_enter dec fs io) 1 send_io_request m
unfolding run_states enter_then on_exit
one_state_enough fs io request_itself = refl
one_state_enough fs io read_blocks_response = refl
one_state_enough fs io other_response = refl

two_states_pass :
    (fs : FileSystem ℕ) (io : IoRequest ℕ) (s t u : State) (m : Message) (sent more : List Output)
    → on_exit s m ≡ some (some t)
    → is_steady t ≡ false
    → on_enter dec fs io t m ≡ some sent
    → two_states is_steady on_exit (on_enter dec fs io) t m ≡ some (u, more)
    → two_states is_steady on_exit (on_enter dec fs io) s m ≡ some (u, sent ++ more)
unfolding two_states run_states enter_then
two_states_pass fs io s send_io_request u m sent more h k l run =
    rw (run_states, h, l)
      (ap (λ r. r >>= (λ x. some (x.0, sent ++ x.1))) (sym (one_state_enough fs io m) ∙ run))
two_states_pass fs io s init u m sent more h k l run = absurd (ground (arith, k))
two_states_pass fs io s read_meta u m sent more h k l run = absurd (ground (arith, k))
two_states_pass fs io s write_meta u m sent more h k l run = absurd (ground (arith, k))
two_states_pass fs io s io_complete u m sent more h k l run = absurd (ground (arith, k))
two_states_pass fs io s meta_complete u m sent more h k l run = absurd (ground (arith, k))
two_states_pass fs io s finish u m sent more h k l run = absurd (ground (arith, k))

two_states-IsFsm :
    (fs : FileSystem ℕ) (io : IoRequest ℕ)
    → IsFsm is_steady on_exit
        (on_enter dec fs io)
        (two_states is_steady on_exit (on_enter dec fs io))
unfolding two_states run_states enter_then
two_states-IsFsm fs io = record {
  enters = λ s t m sent h k l. rw (h, k, l);
  passes = two_states_pass fs io;
}

abbrev disk : FileSystem ℕ
disk = record {
  storage_layout = record {
    fs_block_size = 4096;
    next_meta_data_block = 1;
    next_data_block = 1010;
    meta_data_blocks = (2, 0) ∷ [];
    data_blocks = (2, 1000) ∷ [];
  };
  no_atime = false;
}

-- A write of the first 100 bytes and of the third block of file 2.
abbrev write : IoRequest ℕ
write = record {
  pointer = 5;
  filename = 2;
  is_read = false;
  regions = record { offset = 0; extent = 100 } ∷ record { offset = 8192; extent = 4096 } ∷ [];
}

program : Unit {0}
unfolding find consecutive_blocks blocks_to_access region_blocks regions_blocks
    get_file_meta_data_blocks get_file_data_blocks get_data_blocks io_size file_io_response add_u64
    sub_u64 mul_u64 dec
program = tt

inode_held : get_file_meta_data_blocks dec disk.storage_layout 2 ≡ some (0 ∷ [])
unfolding program
inode_held = refl

blocks_held : get_file_data_blocks dec disk.storage_layout 2 write.regions ≡ some (1000 ∷ 1002 ∷ [])
unfolding program
blocks_held = refl

process_messages-io_example :
    (process_messages dec two_states disk
        (io_request write)
        init
        (request_itself ∷ read_blocks_response ∷ other_response ∷ [])
      ≡ some (
        io_complete,
        read_blocks 5 (0 ∷ [])
            ∷ write_blocks 5 false (1000 ∷ 1002 ∷ [])
            ∷ write_blocks 5 true (0 ∷ [])
            ∷ [],
      ))
    × (process_messages dec two_states disk
          (io_request write)
          init
          (request_itself ∷ read_blocks_response ∷ other_response ∷ read_blocks_response ∷ [])
        ≡ some (
          finish,
          read_blocks 5 (0 ∷ [])
              ∷ write_blocks 5 false (1000 ∷ 1002 ∷ [])
              ∷ write_blocks 5 true (0 ∷ [])
              ∷ write_response 5 4196
              ∷ [],
        ))
unfolding program
process_messages-io_example =
    process_messages-io dec two_states two_states-IsFsm disk write 0 (1000 ∷ 1002 ∷ []) false true
      (omega arith) (omega arith) inode_held blocks_held

abbrev empty_write : IoRequest ℕ
empty_write = record write { regions = record { offset = 10; extent = 0 } ∷ [] }

first_held : find dec 2 disk.storage_layout.data_blocks ≡ some 1000
unfolding program
first_held = refl

empty_io_stalls_example :
    (process_messages dec two_states disk
        (io_request empty_write)
        init
        (request_itself ∷ read_blocks_response ∷ read_blocks_response ∷ [])
      ≡ some (
        meta_complete,
        read_blocks 5 (0 ∷ []) ∷ write_blocks 5 false [] ∷ write_blocks 5 true (0 ∷ []) ∷ [],
      ))
    × ((get_addresses : ℕ → List ℕ) (requests : Requests)
        → (after : Requests) × (handle_message get_addresses true requests
              (Translator.write_blocks 5 false [])
            ≡ some (after, [])))
empty_io_stalls_example =
    empty_io_stalls dec two_states two_states-IsFsm disk empty_write 0 1000 true (omega arith)
      inode_held first_held (refl, tt)
