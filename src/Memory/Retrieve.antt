-- ===== src/Memory/Retrieve.antt =====
-- command_memory.c: what RALLOC sends.
use cpc_cplink.Prelude.{
  ℕ, ◌+◌, ◌*◌, ◌/◌, ◌%◌, ◌≤◌, ◌<◌, ◌≡◌, ◌⊎◌, inl, inr, refl, ap, ap₂, ◌∙◌, Bool, true, false,
  Option, none, some, List, [], ◌∷◌, ◌++◌, length, length-append, Bool-cases, ltb, arith,
}
use cpc_cplink.Prelude.Int.{pos, add_int32}
use cpc_cplink.Queue.{Queue, queue_size, is_queue_space_available}
use cpc_cplink.Queue.Valid.{used, used-lt}
use cpc_cplink.Queue.Holds.{Holds, Holds-space, Holds-used}
use cpc_cplink.Packet.{PacketType, write_data_to_packet, packet_overhead}
use cpc_cplink.Packet.Frame.{frame, length-frame}
use cpc_cplink.Packet.Write.{write_data_to_packet-frame}
use cpc_cplink.Command.Params.{get_command_next_8bit_param_bin, get_command_next_16bit_param_bin}
use cpc_cplink.Command.Binary.{next_8bit_lem, next_16bit_lem}
use cpc_cplink.Command.Id.{retrieve_alloc}
use cpc_cplink.Memstore.{memstore_retrieve_page_of_data}
use cpc_cplink.Server.{Server, set_binary_data_send_lock_mode}
use cpc_cplink.Memory.{reply_5, command_retrieve_alloc, retrieve_page, answer_page}
use cpc_cplink.Memory.Replies.{Handled, reply_5-frame, reply_5-Handled}

add_small : (a b : ℕ) → a + b < 2147483648 → add_int32 (pos a) (pos b) ≡ pos (a + b)
add_small a b small = ground arith

module _ (s : Server) (id lo hi : ℕ) (rest l : List ℕ) (h : Holds s.in_queue (id ∷ lo ∷ hi ∷ rest))
    (out : Holds s.out_queue l) where
  abbrev page : ℕ
  page = lo + hi * 256

  retrieve_read :
      (q : Queue) × Holds q rest
      × (command_retrieve_alloc s ≡ retrieve_page id page (record s { in_queue = q }))
  unfolding command_retrieve_alloc
  retrieve_read =
      let a = next_8bit_lem s.in_queue id (lo ∷ hi ∷ rest) h in
      let b = next_16bit_lem (get_command_next_8bit_param_bin s.in_queue).1 lo hi rest a.left in
      let q = (get_command_next_16bit_param_bin (get_command_next_8bit_param_bin s.in_queue).1).1 in
      (q, b.left, ap₂ (λ i p. retrieve_page i p (record s { in_queue = q })) a.result b.result)

  retrieve_called :
      (o : Option (List ℕ))
      → page ≤ 9999
      → memstore_retrieve_page_of_data s.memstore id page ≡ some o
      → (q : Queue) × Holds q rest
        × (command_retrieve_alloc s ≡ some (answer_page id page (record s { in_queue = q }) o))
  unfolding retrieve_page
  retrieve_called o small e =
      let (q, held, read) = retrieve_read in
      let fits : ltb 9999 page ≡ false = ground arith in (q, held, read ∙ rw (fits, e) refl)

  -- RALLOC for a page above 9999, or one that does not exist, with room for the answer: error 1
  -- with id 0 and the page's number, and nothing is sent.
  pub command_retrieve_alloc_refused :
      (9999 < page) ⊎ (memstore_retrieve_page_of_data s.memstore id page ≡ some none)
      → length l + 30 < queue_size
      → (r : Bool × Server) × (command_retrieve_alloc s ≡ some r)
        × Handled s r rest s.memstore
            (l ++ frame 2 (retrieve_alloc ∷ 0 ∷ (page % 256) ∷ (page / 256) ∷ 1 ∷ []))
  unfolding retrieve_page answer_page
  command_retrieve_alloc_refused (inl big) room =
      let (q, held, read) = retrieve_read in
      let over : ltb 9999 page ≡ true = ground arith in
      (
        (true, reply_5 retrieve_alloc 0 page 1 (record s { in_queue = q })),
        read ∙ rw over refl,
        reply_5-Handled s q s.memstore rest l held out room retrieve_alloc 0 page 1,
      )
  command_retrieve_alloc_refused (inr absent) room =
      let (q, held, read) = retrieve_read in
      let same : retrieve_page id page (record s { in_queue = q })
          ≡ some (true, reply_5 retrieve_alloc 0 page 1 (record s { in_queue = q })) =
        elim (Bool-cases (ltb 9999 page)) [
          | inl over ↦ rw over refl
          | inr fits ↦ rw (fits, absent) refl
        ] in
      (
        (true, reply_5 retrieve_alloc 0 page 1 (record s { in_queue = q })),
        read ∙ same,
        reply_5-Handled s q s.memstore rest l held out room retrieve_alloc 0 page 1,
      )

  module _ (bytes : List ℕ) (small : page ≤ 9999)
      (exists : memstore_retrieve_page_of_data s.memstore id page ≡ some (some bytes)) where
    -- RALLOC for a page that exists, where the out_queue has no space for the answer and the page:
    -- FALSE, with the parameters read and nothing sent.
    pub command_retrieve_alloc_waits :
        0 < length bytes
        → is_queue_space_available s.out_queue (14 + length bytes + 9) ≡ false
        → (q : Queue) × Holds q rest
          × (command_retrieve_alloc s ≡ some (false, record s { in_queue = q }))
    unfolding answer_page
    command_retrieve_alloc_waits some_bytes full =
        let (q, held, read) = retrieve_called (some bytes) small exists in
        let b : ltb 0 (length bytes) ≡ true = ground arith in (q, held, read ∙ rw (b, full) refl)

    -- RALLOC for a page that exists, with room for all: the answer with no error and, behind it, a
    -- BinaryData packet with exactly the bytes of the page; no allocation changes. The send mode
    -- counts the bytes of the BinaryData packet and, wrongly, those that wait in the in_queue.
    pub command_retrieve_alloc_sends :
        0 < length bytes
        → length bytes ≤ 32768
        → length l + (length bytes + 30) < queue_size
        → (s' : Server) × (command_retrieve_alloc s ≡ some (true, s'))
          × Holds s'.in_queue rest
          × (s'.memstore ≡ s.memstore)
          × Holds s'.out_queue (
              l
              ++ frame 2 (retrieve_alloc ∷ id ∷ (page % 256) ∷ (page / 256) ∷ 0 ∷ [])
              ++ frame 3 bytes)
          × (s'.binary_data_send_mode ≡ pos (length (frame 3 bytes) + length rest))
    unfolding answer_page set_binary_data_send_lock_mode reply_5
    command_retrieve_alloc_sends some_bytes fits room =
        let (q, held, read) = retrieve_called (some bytes) small exists in
        let b : ltb 0 (length bytes) ≡ true = ground arith in
        let space = Holds-space s.out_queue l (14 + length bytes + 9) out (omega arith) in
        let s1 : Server = reply_5 retrieve_alloc id page 0 (record s { in_queue = q }) in
        let body : List ℕ = retrieve_alloc ∷ id ∷ (page % 256) ∷ (page / 256) ∷ 0 ∷ [] in
        let answered =
          reply_5-frame (record s { in_queue = q }) l out (omega arith) retrieve_alloc id page 0 in
        let written =
          write_data_to_packet-frame s1.out_queue (l ++ frame 2 body) bytes PacketType.binary_data
            answered (omega (arith, length-append l (frame 2 body))) in
        let s2 : Server = record s1 {
          out_queue = (write_data_to_packet s1.out_queue bytes PacketType.binary_data).1;
        } in
        let counted : length bytes + 9 + used q ≡ length (frame 3 bytes) + length rest =
          omega (arith, length-frame 3 bytes, Holds-used q rest held) in
        (
          set_binary_data_send_lock_mode s2 (length bytes + packet_overhead),
          read ∙ rw (b, space) refl,
          held,
          refl,
          written.1,
          add_small (length bytes + packet_overhead) (used q) (omega (arith, used-lt q))
              ∙ ap pos counted,
        )
