-- ===== src/Memory/States.antt =====
-- command_memory.c: the handlers do not touch `command_states`.
use cpc_cplink.Prelude.{
  ℕ, ◌+◌, ◌≡◌, refl, Bool, true, false, ◌||◌, not, Option, none, some, List, length, ltb, ◌==◌,
  either, Every, just, Every-bind, Every-at,
}
use cpc_cplink.Prelude.Int.{ℤ, pos, add_int32, ltb_ℤ}
use cpc_cplink.Queue.{Queue, is_queue_space_available}
use cpc_cplink.Packet.{packet_overhead, is_complete_packet_available, get_data_from_packet}
use cpc_cplink.Memstore.{
  Memstore, Calloc, memstore_create_allocation_id, memstore_free_allocation_id,
  memstore_retrieve_page_of_data, memstore_store_page_of_data, memstore_insert_data,
  memstore_cut_data, memstore_get_page_size_bytes, memstore_get_alloc_size_bytes,
}
use cpc_cplink.Server.{
  Server, CommandState, set_binary_data_receive_lock_mode, set_binary_data_send_lock_mode,
}
use cpc_cplink.Memory.{
  reply_3, reply_5, new_buffer, skip_data_packet, answer_created, create_pages,
  command_create_alloc, answer_freed, command_free_alloc, answer_page, retrieve_page,
  command_retrieve_alloc,
}
use cpc_cplink.Memory.Writes.{
  read_into, store_received, store_with_buffer, command_store_alloc, insert_received,
  insert_with_buffer, command_insert_alloc, cut_section, command_cut_alloc,
}

-- The stored commands of a result.
abbrev pub HasStates : List CommandState → Bool × Server → Type 0
HasStates states r = r.1.command_states ≡ states

answer_created_states :
    (s : Server) (r : ℕ × Memstore) → HasStates s.command_states (answer_created s r)
unfolding answer_created reply_3
answer_created_states s (id, m) = either (HasStates s.command_states) (id == 0) refl refl

create_pages_states :
    (c : Calloc) (s : Server) (pages kb : ℕ)
    → HasStates s.command_states (create_pages c pages kb s)
unfolding create_pages reply_3
create_pages_states c s pages kb =
    let P = HasStates s.command_states in
    either P (kb == 0 || ltb 32 kb) refl (
      either P (pages == 0 || ltb 9999 pages) refl
        (answer_created_states s (memstore_create_allocation_id c s.memstore pages kb)))

pub command_create_alloc_states :
    (c : Calloc) (s : Server) → HasStates s.command_states (command_create_alloc c s)
unfolding command_create_alloc
command_create_alloc_states c s = create_pages_states c _ _ _

answer_freed_states :
    (s : Server) (id : ℕ) (r : Bool × Memstore) → HasStates s.command_states (answer_freed id s r)
unfolding answer_freed reply_3
answer_freed_states s id (true, m) = refl
answer_freed_states s id (false, m) = refl

pub command_free_alloc_states : (s : Server) → HasStates s.command_states (command_free_alloc s)
unfolding command_free_alloc
command_free_alloc_states s = answer_freed_states _ _ (memstore_free_allocation_id s.memstore _)

answer_page_states :
    (s : Server) (id page : ℕ) (o : Option (List ℕ))
    → HasStates s.command_states (answer_page id page s o)
unfolding answer_page reply_5 set_binary_data_send_lock_mode
answer_page_states s id page none = refl
answer_page_states s id page (some bytes) =
    let P = HasStates s.command_states in
    let room =
      is_queue_space_available s.out_queue (5 + packet_overhead + length bytes + packet_overhead) in
    either P (not (ltb 0 (length bytes))) refl (either P room refl refl)

retrieve_page_states :
    (s : Server) (id page : ℕ) → Every (HasStates s.command_states) (retrieve_page id page s)
unfolding retrieve_page reply_5
retrieve_page_states s id page =
    either (Every (HasStates s.command_states)) (ltb 9999 page) (just refl) (
      Every-bind (Every-at (memstore_retrieve_page_of_data s.memstore id page))
        (λ o any. just (answer_page_states s id page o)))

pub command_retrieve_alloc_states :
    (s : Server) → Every (HasStates s.command_states) (command_retrieve_alloc s)
unfolding command_retrieve_alloc
command_retrieve_alloc_states s = retrieve_page_states _ _ _

store_received_states :
    (s : Server) (id page : ℕ) (buffer : List ℕ) (r : Bool × List ℕ × Queue)
    → Every (HasStates s.command_states) (store_received id page buffer s r)
unfolding store_received reply_5
store_received_states s id page buffer (false, values, q) = just refl
store_received_states s id page buffer (true, values, q) =
    Every-bind (Every-at (read_into buffer values)) (λ bytes any.
      Every-bind (Every-at (memstore_store_page_of_data s.memstore id page bytes))
        (λ r any. either (Every (HasStates s.command_states)) r.0 (just refl) (just refl)))

store_with_buffer_states :
    (s : Server) (id page : ℕ) (buffer : Option (List ℕ))
    → Every (HasStates s.command_states) (store_with_buffer id page s buffer)
unfolding store_with_buffer reply_5 skip_data_packet set_binary_data_receive_lock_mode
store_with_buffer_states s id page none = just refl
store_with_buffer_states s id page (some buffer) =
    let P = Every (HasStates s.command_states) in
    let size = memstore_get_page_size_bytes s.memstore id in
    let (found, q) = is_complete_packet_available s.in_queue in
    either P (size == 0) (just refl) (
      either P (ltb 9999 page) (just refl) (
        either P found
          (store_received_states (record s { in_queue = q }) id page buffer
            (get_data_from_packet q (pos size)))
          (just refl)))

pub command_store_alloc_states :
    (c : Calloc) (s : Server) → Every (HasStates s.command_states) (command_store_alloc c s)
unfolding command_store_alloc
command_store_alloc_states c s = store_with_buffer_states _ _ _ (new_buffer c _)

insert_received_states :
    (s : Server) (id : ℕ) (at count : ℤ) (buffer : List ℕ) (r : Bool × List ℕ × Queue)
    → Every (HasStates s.command_states) (insert_received id at count buffer s r)
unfolding insert_received reply_3
insert_received_states s id at count buffer (false, values, q) = just refl
insert_received_states s id at count buffer (true, values, q) =
    Every-bind (Every-at (read_into buffer values)) (λ bytes any.
      Every-bind (Every-at (memstore_insert_data s.memstore id at count bytes))
        (λ r any. either (Every (HasStates s.command_states)) r.0 (just refl) (just refl)))

insert_with_buffer_states :
    (s : Server) (id : ℕ) (at count : ℤ) (buffer : Option (List ℕ))
    → Every (HasStates s.command_states) (insert_with_buffer id at count s buffer)
unfolding insert_with_buffer reply_3 skip_data_packet set_binary_data_receive_lock_mode
insert_with_buffer_states s id at count none = just refl
insert_with_buffer_states s id at count (some buffer) =
    let P = Every (HasStates s.command_states) in
    let (found, q) = is_complete_packet_available s.in_queue in
    either P (ltb_ℤ (pos (memstore_get_alloc_size_bytes s.memstore id)) (add_int32 at count))
      (just refl)
      (either P found
        (insert_received_states (record s { in_queue = q }) id at count buffer
          (get_data_from_packet q count))
        (just refl))

pub command_insert_alloc_states :
    (c : Calloc) (s : Server) → Every (HasStates s.command_states) (command_insert_alloc c s)
unfolding command_insert_alloc
command_insert_alloc_states c s = insert_with_buffer_states _ _ _ _ (new_buffer c _)

cut_section_states :
    (s : Server) (id : ℕ) (at count : ℤ)
    → Every (HasStates s.command_states) (cut_section id at count s)
unfolding cut_section reply_3
cut_section_states s id at count =
    let P = Every (HasStates s.command_states) in
    either P (ltb_ℤ (pos (memstore_get_alloc_size_bytes s.memstore id)) (add_int32 at count))
      (just refl)
      (Every-bind (Every-at (memstore_cut_data s.memstore id at count))
        (λ r any. either P r.0 (just refl) (just refl)))

pub command_cut_alloc_states :
    (s : Server) → Every (HasStates s.command_states) (command_cut_alloc s)
unfolding command_cut_alloc
command_cut_alloc_states s = cut_section_states _ _ _ _
