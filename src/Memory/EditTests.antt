-- ===== src/Memory/EditTests.antt =====
-- Requests that cut, insert and load, in queues that wrap.
use cpc_cplink.Prelude.{
  sym, ◌≢◌, ℕ, ◌≡◌, refl, ap, true, none, some, List, [], ◌∷◌, ◌++◌, replicate, arith,
}
use cpc_cplink.Queue.Holds.{Holds}
use cpc_cplink.Queue.Sample.{holding-Holds}
use cpc_cplink.Packet.{rear_delimiter}
use cpc_cplink.Packet.Frame.{frame}
use cpc_cplink.Packet.Write.{int_bytes}
use cpc_cplink.Command.Id.{insert_alloc, cut_alloc}
use cpc_cplink.Memstore.{Memstore, slot}
use cpc_cplink.Prelude.Splice.{splice}
use cpc_cplink.Command.Params.{newline}
use cpc_cplink.Command.Id.{load_alloc}
use cpc_cplink.Memstore.{MemoryAllocation}
use cpc_cplink.Memstore.Contents.{Readable}
use cpc_cplink.Memory.Files.{command_load_alloc}
use cpc_cplink.Memory.Load.{command_load_alloc_reads}
use cpc_cplink.Memstore.Sample.{
  slot_1, is_allocated_1, small_file, zeroing, one_used, one_used-IsValid, size_1, own_1,
}
use cpc_cplink.Memstore.Block.{inserted, cut}
use cpc_cplink.Memstore.Edit.{Edited}
use cpc_cplink.Server.{Server}
use cpc_cplink.Memory.Writes.{command_insert_alloc, command_cut_alloc}
use cpc_cplink.Memory.Replies.{Handled}
use cpc_cplink.Memory.Cut.{command_cut_alloc_cuts, command_cut_alloc_at_end}
use cpc_cplink.Memory.Insert.{command_insert_alloc_inserts, command_insert_alloc_overflow}
use cpc_cplink.Memory.Sample.{asked, empty_out, buffer_of}

-- The 32-bit parameters 2 and 3 in the order of their bytes.
abbrev cut_request : ℕ → ℕ → List ℕ
cut_request at count = 1 ∷ (int_bytes at ++ (int_bytes count ++ rear_delimiter))

command_cut_alloc_cuts_example :
    (block : List ℕ) × (m' : Memstore) × (s' : Server) × ((slot one_used 1).data_block ≡ some block)
    × (command_cut_alloc (asked (cut_request 2 3)) ≡ some (true, s'))
    × Edited one_used m' 1 (cut block 2 3)
    × Handled
        (asked (cut_request 2 3))
        (true, s')
        rear_delimiter
        m'
        ([] ++ frame 2 (cut_alloc ∷ 1 ∷ 0 ∷ []))
command_cut_alloc_cuts_example =
    command_cut_alloc_cuts (asked (cut_request 2 3)) 1 2 3 rear_delimiter []
      (holding-Holds 131066 (cut_request 2 3) (omega arith) (omega arith)) empty_out (omega arith)
      (omega arith) (omega arith) (omega arith) (omega arith) own_1 (omega (arith, size_1))
      one_used-IsValid (omega arith) (omega (arith, size_1))

command_cut_alloc_at_end_example :
    (s' : Server) × (command_cut_alloc (asked (cut_request 5 3)) ≡ some (true, s'))
    × Handled
        (asked (cut_request 5 3))
        (true, s')
        rear_delimiter
        one_used
        ([] ++ frame 2 (cut_alloc ∷ 0 ∷ 1 ∷ []))
command_cut_alloc_at_end_example =
    command_cut_alloc_at_end (asked (cut_request 5 3)) 1 5 3 rear_delimiter []
      (holding-Holds 131066 (cut_request 5 3) (omega arith) (omega arith)) empty_out (omega arith)
      (omega arith) (omega arith) (omega arith) (omega arith) own_1 (omega (arith, size_1))
      (omega (arith, size_1))

abbrev insert_request : ℕ → ℕ → List ℕ → List ℕ
insert_request at count bytes =
    1 ∷ (int_bytes at ++ (int_bytes count ++ (rear_delimiter ++ (frame 3 bytes ++ 43 ∷ []))))

command_insert_alloc_inserts_example :
    (block : List ℕ) × (m' : Memstore) × (s' : Server) × ((slot one_used 1).data_block ≡ some block)
    × (command_insert_alloc zeroing (asked (insert_request 2 3 (7 ∷ 8 ∷ 9 ∷ []))) ≡ some (true, s'))
    × Edited one_used m' 1 (inserted block 2 (7 ∷ 8 ∷ 9 ∷ []))
    × Handled
        (asked (insert_request 2 3 (7 ∷ 8 ∷ 9 ∷ [])))
        (true, s')
        (rear_delimiter ++ 43 ∷ [])
        m'
        ([] ++ frame 2 (insert_alloc ∷ 1 ∷ 0 ∷ []))
command_insert_alloc_inserts_example =
    command_insert_alloc_inserts zeroing (asked (insert_request 2 3 (7 ∷ 8 ∷ 9 ∷ []))) 1 2 3
      (7 ∷ 8 ∷ 9 ∷ []) (43 ∷ []) [] (replicate 4 0)
      (holding-Holds 131066 (insert_request 2 3 (7 ∷ 8 ∷ 9 ∷ [])) (omega arith) (omega arith))
      empty_out (omega arith) (omega arith) (omega arith) (omega arith) (buffer_of 3 (omega arith))
      (omega arith) (omega arith) own_1 (omega (arith, size_1)) refl (omega arith) one_used-IsValid
      (omega (arith, size_1))

command_insert_alloc_overflow_example :
    command_insert_alloc zeroing (asked (insert_request 2147483647 1 (7 ∷ []))) ≡ none
command_insert_alloc_overflow_example =
    command_insert_alloc_overflow zeroing (asked (insert_request 2147483647 1 (7 ∷ []))) 1
      2147483647 1 (7 ∷ []) (43 ∷ []) [] (replicate 2 0)
      (holding-Holds 131066 (insert_request 2147483647 1 (7 ∷ [])) (omega arith) (omega arith))
      empty_out (omega arith) (omega arith) (omega arith) (omega arith) (buffer_of 1 (omega arith))
      (omega arith) (omega arith) own_1 (omega (arith, size_1)) refl (omega arith) (omega arith)

abbrev load_request : List ℕ
load_request = 1 ∷ 65 ∷ newline ∷ rear_delimiter

two_bytes : Readable ℕ small_file (65 ∷ []) (1 ∷ 2 ∷ []) 0 0
two_bytes = record {
  file = 3;
  w1 = 0;
  w2 = 0;
  w3 = 0;
  opens = refl;
  ends = refl;
  tells = refl;
  rewinds = refl;
  reads = refl;
}

abbrev block_1 : List ℕ
block_1 = 65 ∷ 66 ∷ 67 ∷ 68 ∷ 69 ∷ 70 ∷ 71 ∷ 72 ∷ []

command_load_alloc_reads_example :
    (s' : Server) × (command_load_alloc small_file (asked load_request) 0 ≡ some (true, s', 0))
    × Holds s'.in_queue rear_delimiter
    × ((slot s'.memstore 1).data_block ≡ some (splice block_1 0 (1 ∷ 2 ∷ [])))
    × ((j : ℕ) → j ≢ 1 → slot s'.memstore j ≡ slot one_used j)
    × Holds s'.out_queue ([] ++ frame 2 (load_alloc ∷ 1 ∷ (int_bytes 2 ++ 0 ∷ [])))
command_load_alloc_reads_example =
    command_load_alloc_reads small_file (asked load_request) 1 (65 ∷ []) (1 ∷ 2 ∷ []) block_1
      rear_delimiter [] 0 0 two_bytes
      (holding-Holds 131066 load_request (omega arith) (omega arith)) empty_out (omega arith)
      ((λ e. absurd (omega arith)), tt) ((λ e. absurd (omega arith)), tt) (omega arith)
      one_used-IsValid is_allocated_1 (ap (λ (a : MemoryAllocation). a.file_id) slot_1)
      (ap (λ (a : MemoryAllocation). a.data_block) slot_1) (sym size_1) (omega arith) (omega arith)
