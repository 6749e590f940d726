-- ===== src/Memory/Keeps.antt =====
-- command_memory.c: the handlers on a server in order, with any bytes in the in_queue.
use cpc_cplink.Prelude.{
  ℕ, ◌+◌, ◌*◌, ◌≤◌, ◌<◌, ◌≡◌, refl, Bool, true, false, ◌||◌, not, Option, none, some, List, length,
  length-append, drop, ltb, ◌==◌, either, Bool-cases, inl, inr, arith,
}
use cpc_cplink.Prelude.Int.{ℤ, pos, pos_part, to_int32, add_int32, ltb_ℤ}
use cpc_cplink.Queue.{Queue, is_queue_space_available}
use cpc_cplink.Queue.Valid.{IsValid, increment_read-IsValid}
use cpc_cplink.Packet.{packet_overhead, is_complete_packet_available, get_data_from_packet}
use cpc_cplink.Packet.Keeps.{
  start-IsValid, finish-IsValid, add_3-IsValid, add_5-IsValid, write_packet-IsValid,
  skip_terminator-IsValid, skip_packet-IsValid, complete-IsValid, get_data-IsValid, length-get_data,
}
use cpc_cplink.Command.Id.{
  create_alloc, free_alloc, retrieve_alloc, store_alloc, insert_alloc, cut_alloc,
}
use cpc_cplink.Command.Params.{
  get_command_next_8bit_param_bin, get_command_next_16bit_param_bin,
  get_command_next_32bit_param_bin,
}
use cpc_cplink.Memstore.{
  Memstore, Calloc, is_allocated, memstore_create_allocation_id, memstore_free_allocation_id,
  memstore_get_page_size_bytes, memstore_get_alloc_size_bytes,
}
use cpc_cplink.Memstore.Keeps.{StoreOk, create_keeps, free_keeps, retrieve_returns, store-Safe}
use cpc_cplink.Memstore.EditKeeps.{cut-Safe, insert-Safe}
use cpc_cplink.Server.{Server, set_binary_data_receive_lock_mode, set_binary_data_send_lock_mode}
use cpc_cplink.Server.Order.{ServerOk, Returns, returned, with_in, with_out, with_store}
use cpc_cplink.Memory.{
  reply_3, reply_5, new_buffer, skip_data_packet, answer_created, create_pages,
  command_create_alloc, answer_freed, command_free_alloc, answer_page, retrieve_page,
  command_retrieve_alloc,
}
use cpc_cplink.Memory.Buffer.{BigEnough, new_buffer-BigEnough, read_into-fits}
use cpc_cplink.Memory.Writes.{
  filled, store_received, store_with_buffer, command_store_alloc, insert_received,
  insert_with_buffer, command_insert_alloc, cut_section, command_cut_alloc,
}

pub next_8-IsValid : (q : Queue) → IsValid q → IsValid (get_command_next_8bit_param_bin q).1
unfolding get_command_next_8bit_param_bin
next_8-IsValid q v = increment_read-IsValid q 1 v

next_16-IsValid : (q : Queue) → IsValid q → IsValid (get_command_next_16bit_param_bin q).1
unfolding get_command_next_16bit_param_bin
next_16-IsValid q v = next_8-IsValid _ (next_8-IsValid q v)

pub next_32-IsValid : (q : Queue) → IsValid q → IsValid (get_command_next_32bit_param_bin q).1
unfolding get_command_next_32bit_param_bin
next_32-IsValid q v = next_8-IsValid _ (next_8-IsValid _ (next_8-IsValid _ (next_8-IsValid q v)))

pub reply_3-Ok : (s : Server) (c id error : ℕ) → ServerOk s → ServerOk (reply_3 c id error s)
unfolding reply_3
reply_3-Ok s c id error ok =
    with_out s _ ok
      (finish-IsValid _ (add_3-IsValid _ c id error (start-IsValid s.out_queue 3 _ ok.out_ok)))

reply_5-Ok : (s : Server) (c id page error : ℕ) → ServerOk s → ServerOk (reply_5 c id page error s)
unfolding reply_5
reply_5-Ok s c id page error ok =
    with_out s _ ok
      (finish-IsValid _ (add_5-IsValid _ c id _ _ error (start-IsValid s.out_queue 5 _ ok.out_ok)))

pub skip_data-Ok : (s : Server) → ServerOk s → ServerOk (skip_data_packet s)
unfolding skip_data_packet
skip_data-Ok s ok =
    with_in s _ ok (skip_packet-IsValid _ (increment_read-IsValid s.in_queue 1 ok.in_ok))

-- What a handler that always returns leaves.
abbrev pub Left : Bool × Server → Type 0
Left r = ServerOk r.1

created_keeps :
    (s : Server) (r : ℕ × Memstore) → ServerOk s → StoreOk r.1 → Left (answer_created s r)
unfolding answer_created
created_keeps s (id, m) ok kept =
    either Left (id == 0)
      (reply_3-Ok (record s { memstore = m }) create_alloc 0 2 (with_store s m ok kept))
      (reply_3-Ok (record s { memstore = m }) create_alloc id 0 (with_store s m ok kept))

-- The largest allocation that CALLOC makes fits an `int`.
largest : (pages kb : ℕ) → pages ≤ 9999 → kb ≤ 32 → pages * kb * 1024 < 2147483648
largest pages kb p k = grind arith

create_pages_keeps :
    (c : Calloc) (s : Server) (pages kb : ℕ) → ServerOk s → Left (create_pages c pages kb s)
unfolding create_pages
create_pages_keeps c s pages kb ok = elim (Bool-cases (kb == 0 || ltb 32 kb)) [
  | inl a ↦ rw a (reply_3-Ok s create_alloc 0 1 ok)
  | inr a ↦ elim (Bool-cases (pages == 0 || ltb 9999 pages)) [
    | inl b ↦ rw (a, b) (reply_3-Ok s create_alloc 0 1 ok)
    | inr b ↦
        rw (a, b)
          (created_keeps s (memstore_create_allocation_id c s.memstore pages kb) ok (
            create_keeps c s.memstore pages kb ok.store_ok
              (largest pages kb (ground arith) (ground arith)) (ground arith)))
  ]
]

-- CALLOC, FALLOC and RALLOC on a server in order: they return, and it stays in order.
pub command_create_alloc_keeps :
    (c : Calloc) (s : Server) → ServerOk s → ServerOk (command_create_alloc c s).1
unfolding command_create_alloc
command_create_alloc_keeps c s ok =
    create_pages_keeps c _ _ _
      (with_in s _ ok (next_8-IsValid _ (next_16-IsValid s.in_queue ok.in_ok)))

freed_keeps :
    (s : Server) (id : ℕ) (r : Bool × Memstore)
    → ServerOk s
    → StoreOk r.1
    → Left (answer_freed id s r)
unfolding answer_freed
freed_keeps s id (true, m) ok kept = reply_3-Ok _ free_alloc id 0 (with_store s m ok kept)
freed_keeps s id (false, m) ok kept = reply_3-Ok _ free_alloc 0 1 (with_store s m ok kept)

pub command_free_alloc_keeps : (s : Server) → ServerOk s → ServerOk (command_free_alloc s).1
unfolding command_free_alloc
command_free_alloc_keeps s ok =
    freed_keeps _ _ (memstore_free_allocation_id s.memstore _)
      (with_in s _ ok (next_8-IsValid s.in_queue ok.in_ok)) (free_keeps s.memstore _ ok.store_ok)

page_keeps :
    (s : Server) (id page : ℕ) (o : Option (List ℕ)) → ServerOk s → Left (answer_page id page s o)
unfolding answer_page set_binary_data_send_lock_mode
page_keeps s id page none ok = reply_5-Ok s retrieve_alloc 0 page 1 ok
page_keeps s id page (some bytes) ok =
    either Left (not (ltb 0 (length bytes))) (reply_5-Ok s retrieve_alloc 0 page 1 ok) (
      either Left
        (is_queue_space_available s.out_queue
          (5 + packet_overhead + length bytes + packet_overhead))
        (let sent = reply_5-Ok s retrieve_alloc id page 0 ok in
          let u =
            with_out (reply_5 retrieve_alloc id page 0 s) _ sent
              (write_packet-IsValid _ bytes _ sent.out_ok) in
          record { in_ok = u.in_ok; out_ok = u.out_ok; store_ok = u.store_ok })
        ok)

retrieve_page-Returns : (s : Server) (id page : ℕ) → ServerOk s → Returns (retrieve_page id page s)
unfolding retrieve_page
retrieve_page-Returns s id page ok =
    let (o, e) = retrieve_returns s.memstore id page ok.store_ok in
    either Returns (ltb 9999 page) (returned true _ (reply_5-Ok s retrieve_alloc 0 page 1 ok))
      (rw e (let r = answer_page id page s o in returned r.0 r.1 (page_keeps s id page o ok)))

pub command_retrieve_alloc-Returns : (s : Server) → ServerOk s → Returns (command_retrieve_alloc s)
unfolding command_retrieve_alloc
command_retrieve_alloc-Returns s ok =
    retrieve_page-Returns _ _ _
      (with_in s _ ok (next_16-IsValid _ (next_8-IsValid s.in_queue ok.in_ok)))

page_size_bound :
    (m : Memstore) (id : ℕ) → StoreOk m → memstore_get_page_size_bytes m id < 2147483648
unfolding memstore_get_page_size_bytes is_allocated
page_size_bound m id ok = elim (Bool-cases (is_allocated m id)) [
  | inl e ↦ rw e (ok.pages_bounded id (ground arith))
  | inr e ↦ rw e (omega arith)
]

store_received-Returns :
    (s : Server) (id page : ℕ) (buffer : List ℕ) (r : Bool × List ℕ × Queue)
    → ServerOk s
    → IsValid r.2
    → (r.0 ≡ true → length r.1 ≤ length buffer)
    → Returns (store_received id page buffer s r)
unfolding store_received
store_received-Returns s id page buffer (false, values, q) ok v enough =
    returned true _ (with_in s q ok v)
store_received-Returns s id page buffer (true, values, q) ok v enough =
    let (stored, m, e, kept) = store-Safe s.memstore id page (filled buffer values) ok.store_ok in
    let s' : Server = record s { in_queue = q; memstore = m } in
    let left : ServerOk s' = with_store (record s { in_queue = q }) m (with_in s q ok v) kept in
    rw (read_into-fits buffer values (enough refl), e)
      (either Returns stored (returned true _ (reply_5-Ok s' store_alloc id page 0 left))
        (returned true _ (reply_5-Ok s' store_alloc 0 page 1 left)))

store_with_buffer-Returns :
    (s : Server) (id page : ℕ) (buffer : Option (List ℕ))
    → ServerOk s
    → BigEnough (memstore_get_page_size_bytes s.memstore id) buffer
    → Returns (store_with_buffer id page s buffer)
unfolding store_with_buffer set_binary_data_receive_lock_mode
store_with_buffer-Returns s id page none ok big =
    returned true _ (skip_data-Ok _ (reply_5-Ok s store_alloc 0 page 2 ok))
store_with_buffer-Returns s id page (some buffer) ok big =
    let error = returned true _ (skip_data-Ok _ (reply_5-Ok s store_alloc 0 page 1 ok)) in
    let q = (is_complete_packet_available s.in_queue).1 in
    let v : IsValid q = complete-IsValid s.in_queue ok.in_ok in
    let found : ServerOk (record s { in_queue = q }) = with_in s q ok v in
    let page_size = memstore_get_page_size_bytes s.memstore id in
    either Returns (page_size == 0) error (
      either Returns (ltb 9999 page) error (
        either Returns (is_complete_packet_available s.in_queue).0
          (store_received-Returns _ id page buffer (get_data_from_packet q (pos page_size)) found
            (get_data-IsValid q (pos page_size) v)
            (λ got. omega (arith, length-get_data q (pos page_size) got, big buffer refl)))
          (returned false _ (record { in_ok = v; out_ok = ok.out_ok; store_ok = ok.store_ok }))))

-- SALLOC on a server in order returns, whatever bytes stand in the in_queue and whether `calloc` gives
-- a buffer or NULL: no byte of the packet is written outside the buffer, none of the page outside the
-- allocation, and the server stays in order.
pub command_store_alloc-Returns :
    (c : Calloc) (s : Server) → ServerOk s → Returns (command_store_alloc c s)
unfolding command_store_alloc
command_store_alloc-Returns c s ok =
    let id = (get_command_next_8bit_param_bin s.in_queue).0 in
    store_with_buffer-Returns _ _ _ (new_buffer c _)
      (with_in s _ ok
        (skip_terminator-IsValid _ (next_16-IsValid _ (next_8-IsValid s.in_queue ok.in_ok))))
      (new_buffer-BigEnough c (pos (memstore_get_page_size_bytes s.memstore id))
        (page_size_bound s.memstore id ok.store_ok))

cut_section-Returns :
    (s : Server) (id : ℕ) (at count : ℤ)
    → ServerOk s
    → pos_part at + pos_part count < 2147483648
    → Returns (cut_section id at count s)
unfolding cut_section
cut_section-Returns s id at count ok small =
    let (done, m, e, kept) = cut-Safe s.memstore id at count ok.store_ok small in
    let left = with_store s m ok kept in
    either Returns (ltb_ℤ (pos (memstore_get_alloc_size_bytes s.memstore id)) (add_int32 at count))
      (returned true _ (reply_3-Ok s cut_alloc 0 2 ok))
      (rw e (
        either Returns done (returned true _ (reply_3-Ok _ cut_alloc id 0 left))
          (returned true _ (reply_3-Ok _ cut_alloc 0 1 left))))

-- XALLOC on a server in order returns, and the server stays in order, where the position and the
-- length in the in_queue have a sum that fits an `int`.
pub command_cut_alloc-Returns :
    (s : Server)
    → ServerOk s
    → (let (id, q1) = get_command_next_8bit_param_bin s.in_queue in
        let (at, q2) = get_command_next_32bit_param_bin q1 in
        let (count, q3) = get_command_next_32bit_param_bin q2 in
        pos_part (to_int32 at) + pos_part (to_int32 count) < 2147483648)
    → Returns (command_cut_alloc s)
unfolding command_cut_alloc
command_cut_alloc-Returns s ok small =
    cut_section-Returns _ _ _ _
      (with_in s _ ok (next_32-IsValid _ (next_32-IsValid _ (next_8-IsValid s.in_queue ok.in_ok))))
      small

insert_received-Returns :
    (s : Server) (id : ℕ) (at count : ℤ) (buffer : List ℕ) (r : Bool × List ℕ × Queue)
    → ServerOk s
    → pos_part at + pos_part count < 2147483648
    → IsValid r.2
    → (r.0 ≡ true → length r.1 ≡ pos_part count)
    → pos_part count ≤ length buffer
    → Returns (insert_received id at count buffer s r)
unfolding insert_received
insert_received-Returns s id at count buffer (false, values, q) ok small v enough big =
    returned true _ (with_in s q ok v)
insert_received-Returns s id at count buffer (true, values, q) ok small v enough big =
    let (done, m, e, kept) =
      insert-Safe s.memstore id at count (filled buffer values) ok.store_ok small
        (omega (arith, enough refl, length-append values (drop (length values) buffer))) in
    let left = with_store (record s { in_queue = q }) m (with_in s q ok v) kept in
    rw (read_into-fits buffer values (omega (arith, enough refl)), e)
      (either Returns done (returned true _ (reply_3-Ok _ insert_alloc id 0 left))
        (returned true _ (reply_3-Ok _ insert_alloc 0 1 left)))

insert_with_buffer-Returns :
    (s : Server) (id : ℕ) (at count : ℤ) (buffer : Option (List ℕ))
    → ServerOk s
    → pos_part at + pos_part count < 2147483648
    → BigEnough (pos_part count) buffer
    → Returns (insert_with_buffer id at count s buffer)
unfolding insert_with_buffer set_binary_data_receive_lock_mode
insert_with_buffer-Returns s id at count none ok small big =
    returned true _ (skip_data-Ok _ (reply_3-Ok s insert_alloc 0 2 ok))
insert_with_buffer-Returns s id at count (some buffer) ok small big =
    let q = (is_complete_packet_available s.in_queue).1 in
    let v : IsValid q = complete-IsValid s.in_queue ok.in_ok in
    either Returns (ltb_ℤ (pos (memstore_get_alloc_size_bytes s.memstore id)) (add_int32 at count))
      (returned true _ (skip_data-Ok _ (reply_3-Ok s insert_alloc 0 3 ok)))
      (either Returns (is_complete_packet_available s.in_queue).0
        (insert_received-Returns _ id at count buffer (get_data_from_packet q count)
          (with_in s q ok v) small (get_data-IsValid q count v) (length-get_data q count)
          (big buffer refl))
        (returned false _ (record { in_ok = v; out_ok = ok.out_ok; store_ok = ok.store_ok })))

-- IALLOC on a server in order returns, and the server stays in order, where the position and the
-- length in the in_queue have a sum that fits an `int`.
pub command_insert_alloc-Returns :
    (c : Calloc) (s : Server)
    → ServerOk s
    → (let (id, q1) = get_command_next_8bit_param_bin s.in_queue in
        let (at, q2) = get_command_next_32bit_param_bin q1 in
        let (count, q3) = get_command_next_32bit_param_bin q2 in
        pos_part (to_int32 at) + pos_part (to_int32 count) < 2147483648)
    → Returns (command_insert_alloc c s)
unfolding command_insert_alloc
command_insert_alloc-Returns c s ok small =
    insert_with_buffer-Returns _ _ _ _ (new_buffer c _)
      (with_in s _ ok (
        skip_terminator-IsValid _
          (next_32-IsValid _ (next_32-IsValid _ (next_8-IsValid s.in_queue ok.in_ok)))))
      small (new_buffer-BigEnough c _ (omega arith))
