-- ===== src/Memory/Load.antt =====
-- command_memory.c: PILALLOC, from the bytes of the request to the answer.
use cpc_cplink.Prelude.{
  ℕ, ◌+◌, ◌≤◌, ◌<◌, ◌≡◌, ◌≢◌, refl, ap, ap₂, ◌∙◌, arith, true, none, some, List, [], ◌∷◌, ◌++◌,
  length, All,
}
use cpc_cplink.Prelude.Splice.{splice}
use cpc_cplink.Prelude.Text.{buffer_string-text}
use cpc_cplink.Queue.{queue_size}
use cpc_cplink.Queue.Holds.{Holds}
use cpc_cplink.Packet.Frame.{frame}
use cpc_cplink.Packet.Write.{int_bytes}
use cpc_cplink.Command.Params.{
  newline, get_command_next_8bit_param_bin, get_all_command_params_text,
}
use cpc_cplink.Command.Binary.{next_8bit_lem}
use cpc_cplink.Command.TextParam.{get_all_command_params_text_lem}
use cpc_cplink.Command.Id.{load_alloc}
use cpc_cplink.Memstore.{MemoryAllocation, slot, alloc_size, is_allocated}
use cpc_cplink.Memstore.Valid.{IsValid}
use cpc_cplink.Memstore.Files.{Stdio}
use cpc_cplink.Memstore.Contents.{Readable, memstore_load_data_reads}
use cpc_cplink.Server.{Server}
use cpc_cplink.Memory.Files.{
  max_path_size_text, reply_7, loaded_reply, load_named, command_load_alloc,
}
use cpc_cplink.Memory.Replies.{reply_7-frame}

-- PILALLOC for an allocation of a valid store that has no file open, with a file name of less than
-- 512 bytes that are no newline and no 0, where that file can be read, has at least one byte and fits
-- the block, and with room for the answer: the bytes of the file stand at the start of the block,
-- behind them is what was there, no other allocation changes, and the answer has the length of the
-- file and no error.
pub command_load_alloc_reads :
    {F : Type 0} (io : Stdio F) (s : Server) (id : ℕ) (file_name bytes block rest l : List ℕ)
    (w w4 : F)
    → Readable F io file_name bytes w w4
    → Holds s.in_queue (id ∷ (file_name ++ newline ∷ rest))
    → Holds s.out_queue l
    → length l + 30 < queue_size
    → All (λ b. b ≢ newline) file_name
    → All (λ b. b ≢ 0) file_name
    → length file_name < max_path_size_text
    → IsValid s.memstore
    → is_allocated s.memstore id ≡ true
    → (slot s.memstore id).file_id ≡ none
    → (slot s.memstore id).data_block ≡ some block
    → length block ≡ alloc_size (slot s.memstore id)
    → 0 < length bytes
    → length bytes ≤ length block
    → (s' : Server) × (command_load_alloc io s w ≡ some (true, s', w4))
      × Holds s'.in_queue rest
      × ((slot s'.memstore id).data_block ≡ some (splice block 0 bytes))
      × ((j : ℕ) → j ≢ id → slot s'.memstore j ≡ slot s.memstore j)
      × Holds s'.out_queue (l ++ frame 2 (load_alloc ∷ id ∷ (int_bytes (length bytes) ++ 0 ∷ [])))
unfolding command_load_alloc load_named loaded_reply reply_7
command_load_alloc_reads io s id file_name bytes block rest l w w4 r h out room named text short v
      known closed is full some_bytes fits =
    let a = next_8bit_lem s.in_queue id (file_name ++ newline ∷ rest) h in
    let q1 = (get_command_next_8bit_param_bin s.in_queue).1 in
    let b =
      get_all_command_params_text_lem file_name rest q1 max_path_size_text named (omega arith)
        a.left in
    let q2 = (get_all_command_params_text q1 max_path_size_text).2 in
    let (m', loaded, holds, others) =
      memstore_load_data_reads io file_name bytes w w4 r some_bytes s.memstore id block v known
        closed is full fits in
    let path = buffer_string-text max_path_size_text file_name text short in
    let s1 : Server = record s { in_queue = q2; memstore = m' } in
    let triple : get_all_command_params_text q1 max_path_size_text ≡ (true, file_name, q2) =
      ap₂ (λ x y. (x, y, q2)) b.0 b.1 in
    (
      reply_7 id (length bytes) 0 s1,
      ap (λ i. load_named io i s w (get_all_command_params_text q1 max_path_size_text)) a.result
          ∙ (ap (load_named io id s w) triple ∙ rw (known, path, loaded) refl),
      b.2,
      ap (λ (x : MemoryAllocation). x.data_block) holds,
      others,
      reply_7-frame s1 l out room id (length bytes) 0,
    )
