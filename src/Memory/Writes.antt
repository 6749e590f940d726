-- ===== src/Memory/Writes.antt =====
-- sw/examples/mcp/rpi_c/command_memory.c: the handlers that change what an allocation holds, SALLOC,
-- IALLOC and XALLOC.
use cpc_cplink.Prelude.{
  ℕ, ◌+◌, Bool, true, false, Option, none, some, List, ◌++◌, length, drop, ltb, ◌==◌, if◌then◌else◌,
  ◌>>=◌,
}
use cpc_cplink.Prelude.Int.{ℤ, pos, to_int32, add_int32, ltb_ℤ}
use cpc_cplink.Queue.{Queue}
use cpc_cplink.Packet.{
  packet_overhead, queue_skip_terminator_of_packet, is_complete_packet_available,
  get_data_from_packet,
}
use cpc_cplink.Command.Id.{store_alloc, insert_alloc, cut_alloc}
use cpc_cplink.Command.Params.{
  get_command_next_8bit_param_bin, get_command_next_16bit_param_bin,
  get_command_next_32bit_param_bin,
}
use cpc_cplink.Memstore.{
  Calloc, memstore_store_page_of_data, memstore_insert_data, memstore_cut_data,
  memstore_get_page_size_bytes, memstore_get_alloc_size_bytes,
}
use cpc_cplink.Server.{Server, set_binary_data_receive_lock_mode}
use cpc_cplink.Memory.{reply_3, reply_5, new_buffer, skip_data_packet}

-- The buffer when the page has been read into it.
abbrev pub filled : List ℕ → List ℕ → List ℕ
filled buffer values = values ++ drop (length values) buffer

-- The buffer behind `get_data_from_packet`, and `none` where the bytes go past its end.
unfoldable pub read_into : List ℕ → List ℕ → Option (List ℕ)
read_into buffer values =
    if ltb (length buffer) (length values) then none else some (filled buffer values)

-- Behind the read of the BinaryData packet.
unfoldable pub store_received :
    ℕ → ℕ → List ℕ → Server → Bool × List ℕ × Queue → Option (Bool × Server)
store_received allocation_id page_number buffer s (false, values, q) =
    some (true, record s { in_queue = q })
store_received allocation_id page_number buffer s (true, values, q) = do
  page ← read_into buffer values
  (stored, m) ← memstore_store_page_of_data s.memstore allocation_id page_number page
  let s' = record s { in_queue = q; memstore = m }
  (if stored
      then some (true, reply_5 store_alloc allocation_id page_number 0 s')
      else some (true, reply_5 store_alloc 0 page_number 1 s'))

-- The tests of `command_store_alloc` in their order, with the buffer that `calloc` gave.
unfoldable pub store_with_buffer : ℕ → ℕ → Server → Option (List ℕ) → Option (Bool × Server)
store_with_buffer allocation_id page_number s none =
    some (true, skip_data_packet (reply_5 store_alloc 0 page_number 2 s))
store_with_buffer allocation_id page_number s (some buffer) =
    let page_size = memstore_get_page_size_bytes s.memstore allocation_id in
    if page_size == 0
    then some (true, skip_data_packet (reply_5 store_alloc 0 page_number 1 s))
    else if ltb 9999 page_number
    then some (true, skip_data_packet (reply_5 store_alloc 0 page_number 1 s))
    else (let (found, q) = is_complete_packet_available s.in_queue in
        let s' = record s { in_queue = q } in
        if found
        then store_received allocation_id page_number buffer s'
            (get_data_from_packet q (pos page_size))
        else some (false, set_binary_data_receive_lock_mode s' (pos (page_size + packet_overhead))))

module _ (c : Calloc) where
  unfoldable pub command_store_alloc : Server → Option (Bool × Server)
  command_store_alloc s0 =
      let (allocation_id, q1) = get_command_next_8bit_param_bin s0.in_queue in
      let (alloc_page_number, q2) = get_command_next_16bit_param_bin q1 in
      let page_size = memstore_get_page_size_bytes s0.memstore allocation_id in
      store_with_buffer allocation_id alloc_page_number
        (record s0 { in_queue = queue_skip_terminator_of_packet q2 }) (new_buffer c (pos page_size))

-- Behind the read of the BinaryData packet.
unfoldable pub insert_received :
    ℕ → ℤ → ℤ → List ℕ → Server → Bool × List ℕ × Queue → Option (Bool × Server)
insert_received allocation_id insert_at insert_length buffer s (false, values, q) =
    some (true, record s { in_queue = q })
insert_received allocation_id insert_at insert_length buffer s (true, values, q) = do
  section ← read_into buffer values
  (inserted, m) ← memstore_insert_data s.memstore allocation_id insert_at insert_length section
  let s' = record s { in_queue = q; memstore = m }
  (if inserted
      then some (true, reply_3 insert_alloc allocation_id 0 s')
      else some (true, reply_3 insert_alloc 0 1 s'))

-- The tests of `command_insert_alloc` in their order. The sum is made in `int`.
unfoldable pub insert_with_buffer : ℕ → ℤ → ℤ → Server → Option (List ℕ) → Option (Bool × Server)
insert_with_buffer allocation_id insert_at insert_length s none =
    some (true, skip_data_packet (reply_3 insert_alloc 0 2 s))
insert_with_buffer allocation_id insert_at insert_length s (some buffer) =
    if ltb_ℤ (pos (memstore_get_alloc_size_bytes s.memstore allocation_id))
      (add_int32 insert_at insert_length)
    then some (true, skip_data_packet (reply_3 insert_alloc 0 3 s))
    else (let (found, q) = is_complete_packet_available s.in_queue in
        let s' = record s { in_queue = q } in
        if found
        then insert_received allocation_id insert_at insert_length buffer s'
            (get_data_from_packet q insert_length)
        else some (
          false,
          set_binary_data_receive_lock_mode s' (add_int32 insert_length (pos packet_overhead)),
        ))

module _ (c : Calloc) where
  unfoldable pub command_insert_alloc : Server → Option (Bool × Server)
  command_insert_alloc s0 =
      let (allocation_id, q1) = get_command_next_8bit_param_bin s0.in_queue in
      let (alloc_insert_at, q2) = get_command_next_32bit_param_bin q1 in
      let (alloc_insert_length, q3) = get_command_next_32bit_param_bin q2 in
      insert_with_buffer allocation_id (to_int32 alloc_insert_at) (to_int32 alloc_insert_length)
        (record s0 { in_queue = queue_skip_terminator_of_packet q3 })
        (new_buffer c (to_int32 alloc_insert_length))

unfoldable pub cut_section : ℕ → ℤ → ℤ → Server → Option (Bool × Server)
cut_section allocation_id cut_from cut_length s =
    if ltb_ℤ (pos (memstore_get_alloc_size_bytes s.memstore allocation_id))
      (add_int32 cut_from cut_length)
    then some (true, reply_3 cut_alloc 0 2 s)
    else (do
      (done, m) ← memstore_cut_data s.memstore allocation_id cut_from cut_length
      let s' = record s { memstore = m }
      (if done
          then some (true, reply_3 cut_alloc allocation_id 0 s')
          else some (true, reply_3 cut_alloc 0 1 s')))

unfoldable pub command_cut_alloc : Server → Option (Bool × Server)
command_cut_alloc s0 =
    let (allocation_id, q1) = get_command_next_8bit_param_bin s0.in_queue in
    let (alloc_cut_from, q2) = get_command_next_32bit_param_bin q1 in
    let (alloc_cut_length, q3) = get_command_next_32bit_param_bin q2 in
    cut_section allocation_id (to_int32 alloc_cut_from) (to_int32 alloc_cut_length)
      (record s0 { in_queue = q3 })
