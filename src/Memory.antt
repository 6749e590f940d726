-- ===== src/Memory.antt =====
-- sw/examples/mcp/rpi_c/command_memory.c: the handlers of CALLOC, FALLOC and RALLOC; those of SALLOC,
-- IALLOC and XALLOC are in Writes. A handler is called with the in_queue at its parameters, and
-- returns FALSE where its packet is to be read again. `none` as the result is an access outside an
-- allocation or a buffer. `calloc` is the parameter `c`; a `size_t` has 32 bits, as on the Pi. A
-- buffer that `return( FALSE )` leaks is in no result.
pub mod Writes
pub mod Buffer
pub mod Replies
pub mod Allocs
pub mod Retrieve
pub mod Store
pub mod Cut
pub mod Insert
pub mod Files
pub mod Load
pub mod Keeps
pub mod States
pub mod Run
pub mod Exchange
pub mod Sample
mod Tests
mod EditTests
use cpc_cplink.Prelude.{
  ℕ, suc, ◌+◌, ◌-◌, ◌/◌, ◌%◌, Bool, true, false, ◌||◌, not, Option, none, some, List, [], ◌∷◌, ◌++◌,
  length, drop, ltb, ◌==◌, if◌then◌else◌, ◌>>=◌,
}
use cpc_cplink.Prelude.Int.{ℤ, pos, to_int32, to_size, add_int32, ltb_ℤ}
use cpc_cplink.Prelude.Splice.{splice}
use cpc_cplink.Queue.{Queue, increment_read_next_index, is_queue_space_available}
use cpc_cplink.Packet.{
  PacketType, packet_overhead, start_build_data_packet, add_3_bytes_of_data_to_packet,
  add_5_bytes_of_data_to_packet, finish_build_data_packet_and_send, write_data_to_packet,
  queue_skip_terminator_of_packet, queue_skip_to_next_packet, is_complete_packet_available,
  get_data_from_packet,
}
use cpc_cplink.Command.Id.{
  create_alloc, free_alloc, retrieve_alloc, store_alloc, insert_alloc, cut_alloc,
}
use cpc_cplink.Command.Params.{
  get_command_next_8bit_param_bin, get_command_next_16bit_param_bin,
  get_command_next_32bit_param_bin,
}
use cpc_cplink.Memstore.{
  Memstore, Calloc, memstore_create_allocation_id, memstore_free_allocation_id,
  memstore_retrieve_page_of_data, memstore_store_page_of_data, memstore_insert_data,
  memstore_cut_data, memstore_get_page_size_bytes, memstore_get_alloc_size_bytes,
}
use cpc_cplink.Server.{Server, set_binary_data_receive_lock_mode, set_binary_data_send_lock_mode}

-- A whole answer: start, bytes, finish. The result of the start is not looked at.
unfoldable pub reply_3 : ℕ → ℕ → ℕ → Server → Server
reply_3 command_id allocation_id error s = record s {
  out_queue = finish_build_data_packet_and_send (
      add_3_bytes_of_data_to_packet
        (start_build_data_packet s.out_queue 3 PacketType.binary_command).1 command_id allocation_id
        error);
}

-- The page number goes out as its low and its high byte.
unfoldable pub reply_5 : ℕ → ℕ → ℕ → ℕ → Server → Server
reply_5 command_id allocation_id page_number error s = record s {
  out_queue = finish_build_data_packet_and_send (
      add_5_bytes_of_data_to_packet
        (start_build_data_packet s.out_queue 5 PacketType.binary_command).1 command_id allocation_id
        (page_number % 256) (page_number / 256) error);
}

-- What `calloc` gives for a buffer of `count + 1` bytes.
unfoldable pub new_buffer : Calloc → ℤ → Option (List ℕ)
new_buffer c count = c.calloc (to_size (add_int32 count (pos 1)))

-- The end of a command in error: the BinaryData packet that is meant for it is stepped over.
unfoldable pub skip_data_packet : Server → Server
skip_data_packet s = record s {
  in_queue = (queue_skip_to_next_packet (increment_read_next_index s.in_queue 1)).1;
}

-- Behind `memstore_create_allocation_id`.
unfoldable pub answer_created : Server → ℕ × Memstore → Bool × Server
answer_created s (allocation_id, m) =
    if allocation_id == 0
    then (true, reply_3 create_alloc 0 2 (record s { memstore = m }))
    else (true, reply_3 create_alloc allocation_id 0 (record s { memstore = m }))

module _ (c : Calloc) where
  -- `command_create_alloc` behind its parameters.
  unfoldable pub create_pages : ℕ → ℕ → Server → Bool × Server
  create_pages alloc_page_number alloc_size_in_kb s =
      if alloc_size_in_kb == 0 || ltb 32 alloc_size_in_kb
      then (true, reply_3 create_alloc 0 1 s)
      else if alloc_page_number == 0 || ltb 9999 alloc_page_number
      then (true, reply_3 create_alloc 0 1 s)
      else answer_created s
          (memstore_create_allocation_id c s.memstore alloc_page_number alloc_size_in_kb)

  unfoldable pub command_create_alloc : Server → Bool × Server
  command_create_alloc s =
      let (alloc_page_number, q1) = get_command_next_16bit_param_bin s.in_queue in
      let (alloc_size_in_kb, q2) = get_command_next_8bit_param_bin q1 in
      create_pages alloc_page_number alloc_size_in_kb (record s { in_queue = q2 })

-- Behind `memstore_free_allocation_id`.
unfoldable pub answer_freed : ℕ → Server → Bool × Memstore → Bool × Server
answer_freed allocation_id s (true, m) =
    (true, reply_3 free_alloc allocation_id 0 (record s { memstore = m }))
answer_freed allocation_id s (false, m) = (true, reply_3 free_alloc 0 1 (record s { memstore = m }))

unfoldable pub command_free_alloc : Server → Bool × Server
command_free_alloc s =
    let (allocation_id, q1) = get_command_next_8bit_param_bin s.in_queue in
    answer_freed allocation_id (record s { in_queue = q1 })
      (memstore_free_allocation_id s.memstore allocation_id)

-- Behind `memstore_retrieve_page_of_data`: NULL leaves `bytes_to_retrieve` at 0.
unfoldable pub answer_page : ℕ → ℕ → Server → Option (List ℕ) → Bool × Server
answer_page allocation_id page_number s none = (true, reply_5 retrieve_alloc 0 page_number 1 s)
answer_page allocation_id page_number s (some page) =
    let bytes_to_retrieve = length page in
    if not (ltb 0 bytes_to_retrieve)
    then (true, reply_5 retrieve_alloc 0 page_number 1 s)
    else if is_queue_space_available s.out_queue
        (5 + packet_overhead + bytes_to_retrieve + packet_overhead)
    then (let s1 = reply_5 retrieve_alloc allocation_id page_number 0 s in
        let s2 = record s1 {
          out_queue = (write_data_to_packet s1.out_queue page PacketType.binary_data).1;
        } in
        (true, set_binary_data_send_lock_mode s2 (bytes_to_retrieve + packet_overhead)))
    else (false, s)

-- `command_retrieve_alloc` behind its parameters.
unfoldable pub retrieve_page : ℕ → ℕ → Server → Option (Bool × Server)
retrieve_page allocation_id alloc_page_number s =
    if ltb 9999 alloc_page_number
    then some (true, reply_5 retrieve_alloc 0 alloc_page_number 1 s)
    else (do
      page ← memstore_retrieve_page_of_data s.memstore allocation_id alloc_page_number
      some (answer_page allocation_id alloc_page_number s page))

unfoldable pub command_retrieve_alloc : Server → Option (Bool × Server)
command_retrieve_alloc s =
    let (allocation_id, q1) = get_command_next_8bit_param_bin s.in_queue in
    let (alloc_page_number, q2) = get_command_next_16bit_param_bin q1 in
    retrieve_page allocation_id alloc_page_number (record s { in_queue = q2 })
