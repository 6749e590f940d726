-- ===== src/Memory/Tests.antt =====
-- Requests for pages, in queues that wrap.
use cpc_cplink.Prelude.{
  ℕ, ◌≡◌, ◌<◌, refl, ap, ◌∙◌, true, some, List, [], ◌∷◌, ◌++◌, length, replicate, set, ◌*◌,
  if◌then◌else◌, arith,
}
use cpc_cplink.Prelude.Int.{pos}
use cpc_cplink.Queue.{Queue, queue_size}
use cpc_cplink.Queue.Valid.{used}
use cpc_cplink.Queue.Holds.{Holds}
use cpc_cplink.Queue.Sample.{holding-Holds}
use cpc_cplink.Packet.{rear_delimiter, queue_skip_to_next_packet}
use cpc_cplink.Packet.Frame.{frame}
use cpc_cplink.Command.Id.{create_alloc, free_alloc, retrieve_alloc, store_alloc}
use cpc_cplink.Memstore.{
  Memstore, cleared, memstore_init, memstore_get_page_size_bytes, memstore_retrieve_page_of_data,
  has_page, is_allocated,
}
use cpc_cplink.Memstore.Sample.{
  zeroing, one_used, one_used-IsValid, one_used-StoreOk, slot_2_free, has_page_1,
}
use cpc_cplink.Memstore.Slots.{Created}
use cpc_cplink.Memstore.Pages.{Stores}
use cpc_cplink.Memstore.Valid.{IsValid}
use cpc_cplink.Server.{Server}
use cpc_cplink.Server.Order.{ServerOk, Returns}
use cpc_cplink.MainLoop.{check_for_packet}
use cpc_cplink.Memory.{new_buffer, command_create_alloc, command_free_alloc, command_retrieve_alloc}
use cpc_cplink.Memory.Writes.{command_store_alloc}
use cpc_cplink.Memory.Replies.{Handled}
use cpc_cplink.Memory.Allocs.{command_create_alloc-Created, command_free_alloc_lem}
use cpc_cplink.Memory.Retrieve.{command_retrieve_alloc_sends}
use cpc_cplink.Memory.Store.{
  command_store_alloc_overruns, command_store_alloc-Stores, command_store_alloc_short,
}
use cpc_cplink.Memory.Keeps.{command_store_alloc-Returns}
use cpc_cplink.Memory.Run.{run_memory}
use cpc_cplink.Memory.Exchange.{store_then_retrieve}
use cpc_cplink.Memory.Sample.{asked, idle, page_1, empty_out, page_size_is, buffer_of}

given_4 : new_buffer zeroing (pos (memstore_get_page_size_bytes one_used 1)) ≡ some (replicate 5 0)
given_4 = ap (λ n. new_buffer zeroing (pos n)) page_size_is ∙ buffer_of 4 (omega arith)

abbrev exchange : List ℕ
exchange =
    frame 2 (store_alloc ∷ 1 ∷ 1 ∷ 0 ∷ [])
    ++ (frame 3 page_1 ++ (frame 2 (retrieve_alloc ∷ 1 ∷ 1 ∷ 0 ∷ []) ++ 43 ∷ []))

store_then_retrieve_example :
    (s1 : Server) × (s2 : Server) × (check_for_packet (run_memory zeroing idle) 5 (asked exchange)
      ≡ some s1)
    × (check_for_packet (run_memory zeroing idle) 5 s1 ≡ some s2)
    × Holds s2.in_queue (43 ∷ [])
    × Holds s2.out_queue (
        []
        ++ frame 2 (store_alloc ∷ 1 ∷ 1 ∷ 0 ∷ 0 ∷ [])
        ++ frame 2 (retrieve_alloc ∷ 1 ∷ 1 ∷ 0 ∷ 0 ∷ [])
        ++ frame 3 page_1)
store_then_retrieve_example =
    store_then_retrieve zeroing idle 5 1 1 0 (asked exchange) page_1 (43 ∷ []) [] (replicate 5 0)
      (holding-Holds 131066 exchange (omega arith) (omega arith)) empty_out (omega arith)
      one_used-IsValid has_page_1 (omega (arith, page_size_is)) (omega arith)
      (omega (arith, page_size_is)) (omega arith) given_4

abbrev store_request : List ℕ
store_request = 1 ∷ 1 ∷ 0 ∷ (rear_delimiter ++ (frame 3 page_1 ++ 43 ∷ []))

command_store_alloc-Stores_example :
    (m' : Memstore) × (s' : Server) × (command_store_alloc zeroing (asked store_request)
      ≡ some (true, s'))
    × Stores one_used m' 1 1 page_1
    × Handled
        (asked store_request)
        (true, s')
        (rear_delimiter ++ 43 ∷ [])
        m'
        ([] ++ frame 2 (store_alloc ∷ 1 ∷ 1 ∷ 0 ∷ 0 ∷ []))
command_store_alloc-Stores_example =
    command_store_alloc-Stores zeroing (asked store_request) 1 1 0 (frame 3 page_1 ++ 43 ∷ []) []
      (holding-Holds 131066 store_request (omega arith) (omega arith)) empty_out (omega arith)
      (replicate 5 0) (omega (arith, page_size_is)) (omega arith) given_4 page_1 (43 ∷ [])
      (omega arith) refl one_used-IsValid has_page_1 (omega (arith, page_size_is))

abbrev short_request : List ℕ
short_request = 1 ∷ 1 ∷ 0 ∷ (rear_delimiter ++ (frame 3 (9 ∷ []) ++ 43 ∷ []))

command_store_alloc_short_example :
    (q : Queue) × Holds q (frame 3 (9 ∷ []) ++ 43 ∷ [])
    × (command_store_alloc zeroing (asked short_request)
        ≡ some (true, record (asked short_request) { in_queue = q }))
command_store_alloc_short_example =
    command_store_alloc_short zeroing (asked short_request) 1 1 0 (frame 3 (9 ∷ []) ++ 43 ∷ []) []
      (holding-Holds 131066 short_request (omega arith) (omega arith)) empty_out (omega arith)
      (replicate 5 0) (omega (arith, page_size_is)) (omega arith) given_4 (9 ∷ []) (43 ∷ [])
      (omega arith) refl (omega (arith, page_size_is))

no_page_size : memstore_get_page_size_bytes one_used 2 ≡ 0
unfolding memstore_get_page_size_bytes memstore_init is_allocated
no_page_size = refl

abbrev lone_request : List ℕ
lone_request = 2 ∷ 1 ∷ 0 ∷ (rear_delimiter ++ [])

command_store_alloc_overruns_example :
    (q : Queue) × (s' : Server) × (command_store_alloc zeroing (asked lone_request)
      ≡ some (true, s'))
    × (used q ≡ 131069)
    × (s'.in_queue ≡ (queue_skip_to_next_packet q).1)
    × (s'.memstore ≡ one_used)
    × Holds s'.out_queue ([] ++ frame 2 (store_alloc ∷ 0 ∷ 1 ∷ 0 ∷ 1 ∷ []))
command_store_alloc_overruns_example =
    command_store_alloc_overruns zeroing (asked lone_request) 2 1 0 [] []
      (holding-Holds 131066 lone_request (omega arith) (omega arith)) empty_out (omega arith)
      (0 ∷ []) no_page_size (buffer_of 0 (omega arith)) refl

abbrev page_request : List ℕ
page_request = 1 ∷ 0 ∷ 0 ∷ rear_delimiter

page_0_reads : memstore_retrieve_page_of_data one_used 1 0 ≡ some (some (65 ∷ 66 ∷ 67 ∷ 68 ∷ []))
unfolding memstore_retrieve_page_of_data has_page memstore_init
page_0_reads = refl

command_retrieve_alloc_sends_example :
    (s' : Server) × (command_retrieve_alloc (asked page_request) ≡ some (true, s'))
    × Holds s'.in_queue rear_delimiter
    × (s'.memstore ≡ one_used)
    × Holds s'.out_queue
        ([] ++ frame 2 (retrieve_alloc ∷ 1 ∷ 0 ∷ 0 ∷ 0 ∷ []) ++ frame 3 (65 ∷ 66 ∷ 67 ∷ 68 ∷ []))
    × (s'.binary_data_send_mode ≡ pos 16)
command_retrieve_alloc_sends_example =
    command_retrieve_alloc_sends (asked page_request) 1 0 0 rear_delimiter []
      (holding-Holds 131066 page_request (omega arith) (omega arith)) empty_out
      (65 ∷ 66 ∷ 67 ∷ 68 ∷ []) (omega arith) page_0_reads (omega arith) (omega arith) (omega arith)

abbrev create_request : List ℕ
create_request = 3 ∷ 0 ∷ 8 ∷ rear_delimiter

command_create_alloc_example :
    (id : ℕ) × (m' : Memstore) × Created one_used m' id 3 8
    × Handled
        (asked create_request)
        (command_create_alloc zeroing (asked create_request))
        rear_delimiter
        m'
        ([] ++ frame 2 (create_alloc ∷ id ∷ 0 ∷ []))
command_create_alloc_example =
    command_create_alloc-Created zeroing (asked create_request) 3 0 8 rear_delimiter []
      (holding-Holds 131066 create_request (omega arith) (omega arith)) empty_out (omega arith)
      (omega arith) (omega arith) (omega arith) (omega arith) 2 (replicate (3 * 8 * 1024) 0)
      one_used-IsValid (omega arith) (omega arith) slot_2_free refl

abbrev free_request : List ℕ
free_request = 1 ∷ rear_delimiter

command_free_alloc_example :
    let exists = is_allocated one_used 1 in
    let m' = if exists then set one_used 1 cleared else one_used in
    IsValid m'
    × Handled
        (asked free_request)
        (command_free_alloc (asked free_request))
        rear_delimiter
        m'
        ([] ++ frame 2 (if exists then free_alloc ∷ 1 ∷ 0 ∷ [] else free_alloc ∷ 0 ∷ 1 ∷ []))
command_free_alloc_example =
    command_free_alloc_lem (asked free_request) 1 rear_delimiter [] one_used-IsValid (omega arith)
      (holding-Holds 131066 free_request (omega arith) (omega arith)) empty_out (omega arith)

asked-Ok : (bytes : List ℕ) → length bytes < queue_size → ServerOk (asked bytes)
asked-Ok bytes small = record {
  in_ok = (holding-Holds 131066 bytes (omega arith) small).valid;
  out_ok = empty_out.valid;
  store_ok = one_used-StoreOk;
}

command_store_alloc-Returns_example : Returns (command_store_alloc zeroing (asked short_request))
command_store_alloc-Returns_example =
    command_store_alloc-Returns zeroing (asked short_request) (asked-Ok short_request (omega arith))
