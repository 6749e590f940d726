-- ===== src/Memory/Store.antt =====
-- command_memory.c: what SALLOC does with the page that follows it.
use cpc_cplink.Prelude.{
  ℕ, ◌+◌, ◌*◌, ◌/◌, ◌%◌, ◌≤◌, ◌<◌, ◌≡◌, refl, sym, ap, ap₂, subst, ◌∙◌, true, false, some, List, [],
  ◌∷◌, ◌++◌, length, length-append, take, drop, take-append, ltb, ◌==◌, arith,
}
use cpc_cplink.Prelude.Int.{pos, sub_int32}
use cpc_cplink.Queue.{Queue, queue_size, increment_read_next_index}
use cpc_cplink.Queue.Valid.{used, used-increment_read_empty}
use cpc_cplink.Queue.Holds.{Holds, Holds-used}
use cpc_cplink.Packet.{
  PacketType, packet_overhead, rear_delimiter, queue_skip_terminator_of_packet,
  queue_skip_to_next_packet, is_complete_packet_available, get_data_from_packet,
}
use cpc_cplink.Packet.Frame.{frame, parse_front}
use cpc_cplink.Packet.Receive.{is_complete_packet_available_lem}
use cpc_cplink.Packet.Payload.{
  is_complete_packet_available-frame, get_data_from_packet-frame, get_data_from_packet_refused,
  queue_skip_terminator_lem,
}
use cpc_cplink.Command.Params.{get_command_next_8bit_param_bin, get_command_next_16bit_param_bin}
use cpc_cplink.Command.Binary.{next_8bit_lem, next_16bit_lem}
use cpc_cplink.Command.Id.{store_alloc}
use cpc_cplink.Memstore.{
  Memstore, Calloc, slot, is_allocated, has_page, memstore_get_page_size_bytes,
}
use cpc_cplink.Memstore.Valid.{IsValid}
use cpc_cplink.Memstore.Pages.{Stores, store-retrieve, no_page}
use cpc_cplink.Server.{Server, set_binary_data_receive_lock_mode}
use cpc_cplink.Memory.{reply_5, new_buffer, skip_data_packet}
use cpc_cplink.Memory.Buffer.{length-new_buffer, read_into-fits}
use cpc_cplink.Memory.Writes.{
  command_store_alloc, store_with_buffer, store_received, filled, read_into,
}
use cpc_cplink.Memory.Replies.{Handled, reply_5-frame, reply_5-Handled}

page_size_lem :
    (m : Memstore) (id page : ℕ)
    → has_page m id page ≡ true
    → memstore_get_page_size_bytes m id ≡ (slot m id).page_size
unfolding memstore_get_page_size_bytes has_page is_allocated
page_size_lem m id page h = ground arith

-- A request whose parameters are at the front of the in_queue, with what follows its packet.
module _ (c : Calloc) (s : Server) (id lo hi : ℕ) (follows l : List ℕ)
    (h : Holds s.in_queue (id ∷ lo ∷ hi ∷ (rear_delimiter ++ follows))) (out : Holds s.out_queue l)
    (room : length l + 30 < queue_size) where
  abbrev page : ℕ
  page = lo + hi * 256

  store_read :
      (q : Queue) × Holds q follows
      × (command_store_alloc c s
          ≡ store_with_buffer id page
              (record s { in_queue = q })
              (new_buffer c (pos (memstore_get_page_size_bytes s.memstore id))))
  unfolding command_store_alloc
  store_read =
      let a = next_8bit_lem s.in_queue id (lo ∷ hi ∷ (rear_delimiter ++ follows)) h in
      let b =
        next_16bit_lem (get_command_next_8bit_param_bin s.in_queue).1 lo hi
          (rear_delimiter ++ follows) a.left in
      let q2 =
        (get_command_next_16bit_param_bin (get_command_next_8bit_param_bin s.in_queue).1).1 in
      let q = queue_skip_terminator_of_packet q2 in
      (
        q,
        queue_skip_terminator_lem q2 follows b.left,
        ap₂
            (λ i p.
              store_with_buffer i p (record s { in_queue = q })
                (new_buffer c (pos (memstore_get_page_size_bytes s.memstore i))))
            a.result b.result,
      )

  -- SALLOC for an allocation that does not exist: error 1 with id 0, no allocation changes, and the
  -- in_queue is left where `queue_skip_to_next_packet` stops one byte further on. Where the page has
  -- not begun to arrive, that one byte is not there: the read index passes the store index, and the
  -- queue counts 131069 unread bytes, all of them old.
  pub command_store_alloc_overruns :
      (buffer : List ℕ)
      → memstore_get_page_size_bytes s.memstore id ≡ 0
      → new_buffer c (pos 0) ≡ some buffer
      → follows ≡ []
      → (q : Queue) × (s' : Server) × (command_store_alloc c s ≡ some (true, s'))
        × (used q ≡ 131069)
        × (s'.in_queue ≡ (queue_skip_to_next_packet q).1)
        × (s'.memstore ≡ s.memstore)
        × Holds s'.out_queue (l ++ frame 2 (store_alloc ∷ 0 ∷ (page % 256) ∷ (page / 256) ∷ 1 ∷ []))
  unfolding store_with_buffer skip_data_packet reply_5
  command_store_alloc_overruns buffer no_page given nothing =
      let (q, held, read) = store_read in
      let z : (memstore_get_page_size_bytes s.memstore id == 0) ≡ true = ground arith in
      let s1 : Server = record s { in_queue = q } in
      let given' : new_buffer c (pos (memstore_get_page_size_bytes s.memstore id)) ≡ some buffer =
        rw no_page given in
      (
        increment_read_next_index q 1,
        skip_data_packet (reply_5 store_alloc 0 page 1 s1),
        read ∙ rw (given', z) refl,
        used-increment_read_empty q held.valid (Holds-used q [] (subst (Holds q) nothing held)),
        refl,
        refl,
        reply_5-frame s1 l out room store_alloc 0 page 1,
      )

  module _ (buffer : List ℕ) (some_size : 0 < memstore_get_page_size_bytes s.memstore id)
      (small : page ≤ 9999)
      (given : new_buffer c (pos (memstore_get_page_size_bytes s.memstore id)) ≡ some buffer) where
    abbrev size : ℕ
    size = memstore_get_page_size_bytes s.memstore id

    -- SALLOC before its BinaryData packet is whole, or where there is none: FALSE, with the receive
    -- mode on, and nothing answered or stored.
    pub command_store_alloc_waits :
        (parse_front follows).0 ≡ false
        → (s' : Server) × (command_store_alloc c s ≡ some (false, s'))
          × Holds s'.in_queue (parse_front follows).1
          × (s'.out_queue ≡ s.out_queue)
          × (s'.memstore ≡ s.memstore)
          × (s'.binary_data_receive_mode
              ≡ sub_int32 (pos (size + 9)) (pos (length (parse_front follows).1)))
    unfolding store_with_buffer set_binary_data_receive_lock_mode
    command_store_alloc_waits missing =
        let (q, held, read) = store_read in
        let a = is_complete_packet_available_lem q follows held in
        let s1 : Server = record s { in_queue = (is_complete_packet_available q).1 } in
        let z : (size == 0) ≡ false = ground arith in
        let p : ltb 9999 page ≡ false = ground arith in
        let none_there : (is_complete_packet_available q).0 ≡ false = a.verdict ∙ missing in
        (
          set_binary_data_receive_lock_mode s1 (pos (size + packet_overhead)),
          read ∙ rw (given, z, p, none_there) refl,
          a.left,
          refl,
          refl,
          ap (λ n. sub_int32 (pos (size + 9)) (pos n))
              (Holds-used (is_complete_packet_available q).1 (parse_front follows).1 a.left),
        )

    module _ (payload rest : List ℕ) (bounded : length payload + 3 < 65536)
        (arrived : follows ≡ frame 3 payload ++ rest) where
      store_arrived :
          (q : Queue) × Holds q (frame 3 payload ++ rest)
          × (command_store_alloc c s
              ≡ store_received id page buffer
                  (record s { in_queue = q })
                  (get_data_from_packet q (pos size)))
      unfolding store_with_buffer
      store_arrived =
          let (q, held, read) = store_read in
          let found =
            is_complete_packet_available-frame q [] payload rest PacketType.binary_data
              (λ e. absurd (cc)) bounded tt (subst (Holds q) arrived held) in
          let z : (size == 0) ≡ false = ground arith in
          let p : ltb 9999 page ≡ false = ground arith in
          ((is_complete_packet_available q).1, found.1, read ∙ rw (given, z, p, found.0) refl)

      whole_page : length payload ≡ size → read_into buffer payload ≡ some (filled buffer payload)
      whole_page exact =
          read_into-fits buffer payload
            (omega (arith, exact, length-new_buffer c size buffer (omega arith) given))

      -- SALLOC for an existing page of an allocation, with a BinaryData packet of exactly a page
      -- behind it: TRUE, the page holds the bytes of the packet and every other page what it held,
      -- the in_queue is left at the end of the BinaryData packet, and the answer has no error.
      pub command_store_alloc-Stores :
          IsValid s.memstore
          → has_page s.memstore id page ≡ true
          → length payload ≡ size
          → (m' : Memstore) × (s' : Server) × (command_store_alloc c s ≡ some (true, s'))
            × Stores s.memstore m' id page payload
            × Handled s
                (true, s')
                (rear_delimiter ++ rest)
                m'
                (l ++ frame 2 (store_alloc ∷ id ∷ (page % 256) ∷ (page / 256) ∷ 0 ∷ []))
      unfolding store_received
      command_store_alloc-Stores v exists exact =
          let (q, held, read) = store_arrived in
          let got = get_data_from_packet-frame q 3 payload rest bounded held in
          let q' = (get_data_from_packet q (pos (length payload))).2 in
          let call : get_data_from_packet q (pos size) ≡ (true, payload, q') =
            ap (λ n. get_data_from_packet q (pos n)) (sym exact)
            ∙ ap₂ (λ a b. (a, b, q')) got.0 got.1 in
          let page_fits : (slot s.memstore id).page_size ≡ length payload =
            sym (page_size_lem s.memstore id page exists) ∙ sym exact in
          let (m', e, stores) =
            store-retrieve s.memstore id page (filled buffer payload) v exists
              (omega (arith, page_fits, length-append payload (drop (length payload) buffer))) in
          let values : take (slot s.memstore id).page_size (filled buffer payload) ≡ payload =
            ap (λ n. take n (filled buffer payload)) page_fits
            ∙ take-append payload (drop (length payload) buffer) in
          (
            m',
            reply_5 store_alloc id page 0 (record s { in_queue = q'; memstore = m' }),
            read
                ∙ ap (store_received id page buffer (record s { in_queue = q })) call
                ∙ rw (whole_page exact, e) refl,
            subst (Stores s.memstore m' id page) values stores,
            reply_5-Handled s q' m' (rear_delimiter ++ rest) l got.2 out room store_alloc id page 0,
          )

      -- SALLOC with a BinaryData packet of less than a page behind it: TRUE with nothing answered and
      -- nothing stored, and that packet is left at the front of the in_queue.
      pub command_store_alloc_short :
          length payload < size
          → (q : Queue) × Holds q (frame 3 payload ++ rest)
            × (command_store_alloc c s ≡ some (true, record s { in_queue = q }))
      unfolding store_received
      command_store_alloc_short less =
          let (q, held, read) = store_arrived in
          let refused = get_data_from_packet_refused q 3 payload rest bounded held size less in
          (q, held, read ∙ ap (store_received id page buffer (record s { in_queue = q })) refused)

      -- SALLOC for a page behind the last one of an allocation, with a BinaryData packet of exactly a
      -- page behind it: error 1 with id 0, no allocation changes, and the packet is taken all the same.
      pub command_store_alloc_no_page :
          has_page s.memstore id page ≡ false
          → length payload ≡ size
          → (s' : Server) × (command_store_alloc c s ≡ some (true, s'))
            × Handled s
                (true, s')
                (rear_delimiter ++ rest)
                s.memstore
                (l ++ frame 2 (store_alloc ∷ 0 ∷ (page % 256) ∷ (page / 256) ∷ 1 ∷ []))
      unfolding store_received
      command_store_alloc_no_page absent exact =
          let (q, held, read) = store_arrived in
          let got = get_data_from_packet-frame q 3 payload rest bounded held in
          let q' = (get_data_from_packet q (pos (length payload))).2 in
          let call : get_data_from_packet q (pos size) ≡ (true, payload, q') =
            ap (λ n. get_data_from_packet q (pos n)) (sym exact)
            ∙ ap₂ (λ a b. (a, b, q')) got.0 got.1 in
          let e = (no_page s.memstore id page (filled buffer payload) absent).0 in
          (
            reply_5 store_alloc 0 page 1 (record s { in_queue = q'; memstore = s.memstore }),
            read
                ∙ ap (store_received id page buffer (record s { in_queue = q })) call
                ∙ rw (whole_page exact, e) refl,
            reply_5-Handled s q' s.memstore (rear_delimiter ++ rest) l got.2 out room store_alloc 0
                page 1,
          )
