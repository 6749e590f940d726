-- ===== src/Memory/Run.antt =====
-- command_memory.c: the handlers behind their pointers. `others` is what every other pointer does;
-- `none` is an access outside an allocation or a buffer.
use cpc_cplink.Prelude.{
  ℕ, Bool, true, false, Option, none, some, List, either, Every, just, Every-at, Every-bind,
}
use cpc_cplink.Prelude.Int.{ℤ, pos, add_int32, ltb_ℤ}
use cpc_cplink.Queue.{Queue}
use cpc_cplink.Queue.Valid.{IsValid}
use cpc_cplink.Packet.{is_complete_packet_available, get_data_from_packet}
use cpc_cplink.Packet.Keeps.{skip_terminator-IsValid, complete-IsValid, get_data-IsValid}
use cpc_cplink.Command.{Handler}
use cpc_cplink.Command.Id.{insert_alloc, cut_alloc}
use cpc_cplink.Memstore.{Calloc, memstore_get_alloc_size_bytes}
use cpc_cplink.Memstore.EditKeeps.{cut-Kept, insert-Kept}
use cpc_cplink.Server.{Server, set_binary_data_receive_lock_mode}
use cpc_cplink.Server.Order.{ServerOk, Returns, with_in, with_store}
use cpc_cplink.Memory.{new_buffer, command_create_alloc, command_free_alloc, command_retrieve_alloc}
use cpc_cplink.Memory.Writes.{
  read_into, insert_received, insert_with_buffer, command_store_alloc, command_insert_alloc,
  cut_section, command_cut_alloc,
}
use cpc_cplink.Memory.Keeps.{
  Left, next_8-IsValid, next_32-IsValid, reply_3-Ok, skip_data-Ok, command_create_alloc_keeps,
  command_free_alloc_keeps, command_retrieve_alloc-Returns, command_store_alloc-Returns,
}

module _ (c : Calloc) (others : Handler → ℕ → Server → Option (Bool × Server)) where
  unfoldable pub run_memory : Handler → ℕ → Server → Option (Bool × Server)
  run_memory Handler.command_create_alloc tick s = some (command_create_alloc c s)
  run_memory Handler.command_free_alloc tick s = some (command_free_alloc s)
  run_memory Handler.command_retrieve_alloc tick s = command_retrieve_alloc s
  run_memory Handler.command_store_alloc tick s = command_store_alloc c s
  run_memory Handler.command_insert_alloc tick s = command_insert_alloc c s
  run_memory Handler.command_cut_alloc tick s = command_cut_alloc s
  run_memory h tick s = others h tick s

cut_section_kept :
    (s : Server) (id : ℕ) (at count : ℤ) → ServerOk s → Every Left (cut_section id at count s)
unfolding cut_section
cut_section_kept s id at count ok =
    either (Every Left)
      (ltb_ℤ (pos (memstore_get_alloc_size_bytes s.memstore id)) (add_int32 at count))
      (just (reply_3-Ok s cut_alloc 0 2 ok))
      (Every-bind (cut-Kept s.memstore id at count ok.store_ok) (λ r kept.
        let left = with_store s r.1 ok kept in
        either (Every Left) r.0 (just (reply_3-Ok _ cut_alloc id 0 left))
          (just (reply_3-Ok _ cut_alloc 0 1 left))))

command_cut_alloc_kept : (s : Server) → ServerOk s → Every Left (command_cut_alloc s)
unfolding command_cut_alloc
command_cut_alloc_kept s ok =
    cut_section_kept _ _ _ _
      (with_in s _ ok (next_32-IsValid _ (next_32-IsValid _ (next_8-IsValid s.in_queue ok.in_ok))))

insert_received_kept :
    (s : Server) (id : ℕ) (at count : ℤ) (buffer : List ℕ) (r : Bool × List ℕ × Queue)
    → ServerOk s
    → IsValid r.2
    → Every Left (insert_received id at count buffer s r)
unfolding insert_received
insert_received_kept s id at count buffer (false, values, q) ok v = just (with_in s q ok v)
insert_received_kept s id at count buffer (true, values, q) ok v =
    Every-bind (Every-at (read_into buffer values)) (λ section any.
      Every-bind (insert-Kept s.memstore id at count section ok.store_ok) (λ r kept.
        let left = with_store (record s { in_queue = q }) r.1 (with_in s q ok v) kept in
        either (Every Left) r.0 (just (reply_3-Ok _ insert_alloc id 0 left))
          (just (reply_3-Ok _ insert_alloc 0 1 left))))

insert_with_buffer_kept :
    (s : Server) (id : ℕ) (at count : ℤ) (buffer : Option (List ℕ))
    → ServerOk s
    → Every Left (insert_with_buffer id at count s buffer)
unfolding insert_with_buffer set_binary_data_receive_lock_mode
insert_with_buffer_kept s id at count none ok =
    just (skip_data-Ok _ (reply_3-Ok s insert_alloc 0 2 ok))
insert_with_buffer_kept s id at count (some buffer) ok =
    let q = (is_complete_packet_available s.in_queue).1 in
    let v : IsValid q = complete-IsValid s.in_queue ok.in_ok in
    either (Every Left)
      (ltb_ℤ (pos (memstore_get_alloc_size_bytes s.memstore id)) (add_int32 at count))
      (just (skip_data-Ok _ (reply_3-Ok s insert_alloc 0 3 ok)))
      (either (Every Left) (is_complete_packet_available s.in_queue).0
        (insert_received_kept _ id at count buffer (get_data_from_packet q count) (with_in s q ok v)
          (get_data-IsValid q count v))
        (just (record { in_ok = v; out_ok = ok.out_ok; store_ok = ok.store_ok })))

command_insert_alloc_kept :
    (c : Calloc) (s : Server) → ServerOk s → Every Left (command_insert_alloc c s)
unfolding command_insert_alloc
command_insert_alloc_kept c s ok = insert_with_buffer_kept _ _ _ _ (new_buffer c _) (
    with_in s _ ok (
      skip_terminator-IsValid _
        (next_32-IsValid _ (next_32-IsValid _ (next_8-IsValid s.in_queue ok.in_ok)))))

Returns-kept : {o : Option (Bool × Server)} → Returns o → Every Left o
Returns-kept {o = o} (done, s', e, ok) = rw e (just ok)

-- The memory handlers keep a server in order where they return, when the others do.
pub run_memory_keeps :
    (c : Calloc) (others : Handler → ℕ → Server → Option (Bool × Server))
    → ((h : Handler) (tick : ℕ) (s : Server) → ServerOk s → Every Left (others h tick s))
    → (h : Handler) (tick : ℕ) (s : Server) → ServerOk s
    → Every Left (run_memory c others h tick s)
unfolding run_memory
run_memory_keeps c others keeps Handler.command_create_alloc tick s ok =
    just (command_create_alloc_keeps c s ok)
run_memory_keeps c others keeps Handler.command_free_alloc tick s ok =
    just (command_free_alloc_keeps s ok)
run_memory_keeps c others keeps Handler.command_retrieve_alloc tick s ok =
    Returns-kept (command_retrieve_alloc-Returns s ok)
run_memory_keeps c others keeps Handler.command_store_alloc tick s ok =
    Returns-kept (command_store_alloc-Returns c s ok)
run_memory_keeps c others keeps Handler.command_insert_alloc tick s ok =
    command_insert_alloc_kept c s ok
run_memory_keeps c others keeps Handler.command_cut_alloc tick s ok = command_cut_alloc_kept s ok
run_memory_keeps c others keeps h tick s ok = keeps h tick s ok
