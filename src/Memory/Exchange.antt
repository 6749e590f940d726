-- ===== src/Memory/Exchange.antt =====
-- command_memory.c behind mcp_pi.c: whole packets at the front of the in_queue, through the loop's
-- packet check, to the packets in the out_queue.
use cpc_cplink.Prelude.{
  ℕ, ◌+◌, ◌*◌, ◌/◌, ◌%◌, ◌≤◌, ◌<◌, ◌≡◌, refl, sym, ap, subst, ◌∙◌, Bool, true, Option, some,
  some-injective, List, [], ◌∷◌, ◌++◌, length, length-append, arith,
}
use cpc_cplink.Prelude.Int.{pos}
use cpc_cplink.Queue.{Queue, queue_size}
use cpc_cplink.Queue.Holds.{Holds, Holds-space}
use cpc_cplink.Packet.{rear_delimiter, queue_skip_terminator_of_packet}
use cpc_cplink.Packet.Frame.{frame}
use cpc_cplink.Command.{
  Handler, command_def, command_defs, get_command_function, get_command_out_queue_space_required,
}
use cpc_cplink.Command.Id.{store_alloc, retrieve_alloc}
use cpc_cplink.Memstore.{
  Calloc, has_page, memstore_get_page_size_bytes, memstore_retrieve_page_of_data,
}
use cpc_cplink.Memstore.Valid.{IsValid}
use cpc_cplink.Memstore.Pages.{Stores}
use cpc_cplink.Server.{Server}
use cpc_cplink.MainLoop.{check_for_packet}
use cpc_cplink.MainLoop.Packets.{binary_command_consumes}
use cpc_cplink.Memory.{new_buffer}
use cpc_cplink.Memory.Retrieve.{command_retrieve_alloc_sends}
use cpc_cplink.Memory.Store.{command_store_alloc-Stores}
use cpc_cplink.Memory.Run.{run_memory}

memory_known :
    (get_command_function store_alloc ≡ some Handler.command_store_alloc)
    × (get_command_function retrieve_alloc ≡ some Handler.command_retrieve_alloc)
unfolding get_command_function command_def command_defs
memory_known = (refl, refl)

memory_needs :
    (get_command_out_queue_space_required store_alloc ≡ some 30)
    × (get_command_out_queue_space_required retrieve_alloc ≡ some 30)
unfolding get_command_out_queue_space_required command_def command_defs
memory_needs = (refl, refl)

-- The answer of SALLOC and RALLOC, without an error.
abbrev answer : ℕ → ℕ → ℕ → List ℕ
answer command id page = frame 2 (command ∷ id ∷ (page % 256) ∷ (page / 256) ∷ 0 ∷ [])

module _ (c : Calloc) (others : Handler → ℕ → Server → Option (Bool × Server))
    (time id lo hi : ℕ) where
  abbrev page : ℕ
  page = lo + hi * 256

  -- A SALLOC packet for a page of a valid store, with a BinaryData packet of exactly a page behind
  -- it, at the front of the in_queue, with room for the answer: the loop takes both packets, stores
  -- the page and answers without an error.
  pub store_packets :
      (s : Server) (payload rest l buffer : List ℕ)
      → Holds s.in_queue (frame 2 (store_alloc ∷ id ∷ lo ∷ hi ∷ []) ++ (frame 3 payload ++ rest))
      → Holds s.out_queue l
      → length l + 30 < queue_size
      → IsValid s.memstore
      → has_page s.memstore id page ≡ true
      → 0 < memstore_get_page_size_bytes s.memstore id
      → page ≤ 9999
      → length payload ≡ memstore_get_page_size_bytes s.memstore id
      → length payload + 3 < 65536
      → new_buffer c (pos (memstore_get_page_size_bytes s.memstore id)) ≡ some buffer
      → (s' : Server) × (check_for_packet (run_memory c others) time s ≡ some s')
        × Holds s'.in_queue rest
        × Stores s.memstore s'.memstore id page payload
        × Holds s'.out_queue (l ++ answer store_alloc id page)
  unfolding run_memory
  store_packets s payload rest l buffer h out room v exists some_size small exact bounded given =
      let run = run_memory c others in
      let ran =
        λ (read : Queue)
            (held : Holds read (id ∷ lo ∷ hi ∷ (rear_delimiter ++ (frame 3 payload ++ rest)))).
          command_store_alloc-Stores c (record s { in_queue = read }) id lo hi
            (frame 3 payload ++ rest) l held out room buffer some_size small given payload rest
            bounded refl v exists exact in
      let (read, s2, held, is, e, behind) =
        binary_command_consumes run time s store_alloc (id ∷ lo ∷ hi ∷ []) (frame 3 payload ++ rest)
          (omega arith) h Handler.command_store_alloc 30 memory_known.0 memory_needs.0 rest
          (Holds-space s.out_queue l 30 out (omega arith))
          (λ read held.
            let (m', s2, called, stores, done) = ran read held in (s2, called, done.in_holds)) in
      let (m', s3, called, stores, done) = ran read held in
      let same : s3 ≡ s2 = ap (λ (r : Bool × Server). r.1) (some-injective _ _ (sym called ∙ is)) in
      (
        record s2 { in_queue = queue_skip_terminator_of_packet s2.in_queue },
        e,
        behind,
        subst (λ (x : Server). Stores s.memstore x.memstore id page payload) same
            (rw done.memstore_is stores),
        subst (λ (x : Server). Holds x.out_queue (l ++ answer store_alloc id page)) same
            done.out_holds,
      )

  -- A RALLOC packet for a page that exists at the front of the in_queue, with room for all: the loop
  -- takes it, and sends the answer without an error and the page in a BinaryData packet.
  pub retrieve_packet :
      (s : Server) (bytes rest l : List ℕ)
      → Holds s.in_queue (frame 2 (retrieve_alloc ∷ id ∷ lo ∷ hi ∷ []) ++ rest)
      → Holds s.out_queue l
      → length l + (length bytes + 30) < queue_size
      → page ≤ 9999
      → memstore_retrieve_page_of_data s.memstore id page ≡ some (some bytes)
      → 0 < length bytes
      → length bytes ≤ 32768
      → (s' : Server) × (check_for_packet (run_memory c others) time s ≡ some s')
        × Holds s'.in_queue rest
        × (s'.memstore ≡ s.memstore)
        × Holds s'.out_queue (l ++ answer retrieve_alloc id page ++ frame 3 bytes)
  unfolding run_memory
  retrieve_packet s bytes rest l h out room small exists some_bytes fits =
      let run = run_memory c others in
      let ran = λ (read : Queue) (held : Holds read (id ∷ lo ∷ hi ∷ (rear_delimiter ++ rest))).
        command_retrieve_alloc_sends (record s { in_queue = read }) id lo hi
          (rear_delimiter ++ rest) l held out bytes small exists some_bytes fits room in
      let (read, s2, held, is, e, behind) =
        binary_command_consumes run time s retrieve_alloc (id ∷ lo ∷ hi ∷ []) rest (omega arith) h
          Handler.command_retrieve_alloc 30 memory_known.1 memory_needs.1 rest
          (Holds-space s.out_queue l 30 out (omega arith))
          (λ read held.
            let (s2, called, left, kept, sent, mode) = ran read held in (s2, called, left)) in
      let (s3, called, left, kept, sent, mode) = ran read held in
      let same : s3 ≡ s2 = ap (λ (r : Bool × Server). r.1) (some-injective _ _ (sym called ∙ is)) in
      (
        record s2 { in_queue = queue_skip_terminator_of_packet s2.in_queue },
        e,
        behind,
        ap (λ (x : Server). x.memstore) (sym same) ∙ kept,
        subst
            (λ (x : Server).
              Holds x.out_queue (l ++ answer retrieve_alloc id page ++ frame 3 bytes))
            same sent,
      )

  -- SALLOC, a page and RALLOC one behind the other in the in_queue, for a page of a valid store,
  -- with room in the out_queue for the answers and the page: two packet checks take all of it, and
  -- behind the two answers the out_queue has the page that was sent, byte for byte.
  pub store_then_retrieve :
      (s : Server) (payload rest l buffer : List ℕ)
      → Holds s.in_queue (
          frame 2 (store_alloc ∷ id ∷ lo ∷ hi ∷ [])
          ++ (frame 3 payload ++ (frame 2 (retrieve_alloc ∷ id ∷ lo ∷ hi ∷ []) ++ rest)))
      → Holds s.out_queue l
      → length l + (length payload + 44) < queue_size
      → IsValid s.memstore
      → has_page s.memstore id page ≡ true
      → 0 < memstore_get_page_size_bytes s.memstore id
      → page ≤ 9999
      → length payload ≡ memstore_get_page_size_bytes s.memstore id
      → length payload ≤ 32768
      → new_buffer c (pos (memstore_get_page_size_bytes s.memstore id)) ≡ some buffer
      → (s1 : Server) × (s2 : Server) × (check_for_packet (run_memory c others) time s ≡ some s1)
        × (check_for_packet (run_memory c others) time s1 ≡ some s2)
        × Holds s2.in_queue rest
        × Holds s2.out_queue
            (l ++ answer store_alloc id page ++ answer retrieve_alloc id page ++ frame 3 payload)
  store_then_retrieve s payload rest l buffer h out room v exists some_size small exact fits given =
      let next : List ℕ = frame 2 (retrieve_alloc ∷ id ∷ lo ∷ hi ∷ []) ++ rest in
      let (s1, e1, in1, stores, out1) =
        store_packets s payload next l buffer h out (omega arith) v exists some_size small exact
          (omega arith) given in
      let (s2, e2, in2, kept, out2) =
        retrieve_packet s1 payload rest (l ++ answer store_alloc id page) in1 out1
          (omega (arith, length-append l (answer store_alloc id page))) small stores.page_reads
          (omega arith) fits in
      (s1, s2, e1, e2, in2, out2)
