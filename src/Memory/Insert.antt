-- ===== src/Memory/Insert.antt =====
-- command_memory.c: what IALLOC does with the bytes that follow it.
use cpc_cplink.Prelude.{
  ℕ, ◌+◌, ◌≤◌, ◌<◌, ◌≡◌, refl, sym, ap, ap₂, subst, ◌∙◌, true, false, none, some, List, [], ◌∷◌,
  ◌++◌, length, length-append, take, drop, take-append, arith,
}
use cpc_cplink.Prelude.Int.{pos, to_int32, add_int32, ltb_ℤ}
use cpc_cplink.Queue.{Queue, queue_size}
use cpc_cplink.Queue.Holds.{Holds}
use cpc_cplink.Packet.{
  PacketType, rear_delimiter, queue_skip_terminator_of_packet, is_complete_packet_available,
  get_data_from_packet,
}
use cpc_cplink.Packet.Frame.{frame}
use cpc_cplink.Packet.Write.{int_bytes}
use cpc_cplink.Packet.Payload.{
  is_complete_packet_available-frame, get_data_from_packet-frame, queue_skip_terminator_lem,
}
use cpc_cplink.Command.Params.{get_command_next_8bit_param_bin, get_command_next_32bit_param_bin}
use cpc_cplink.Command.Binary.{next_8bit_lem, next_32bit_lem}
use cpc_cplink.Command.Id.{insert_alloc}
use cpc_cplink.Memstore.{
  Memstore, Calloc, slot, alloc_size, max_memory_allocations, memstore_get_alloc_size_bytes,
}
use cpc_cplink.Memstore.Valid.{IsValid}
use cpc_cplink.Memstore.Block.{inserted}
use cpc_cplink.Memstore.Edit.{Edited, memstore_insert_data_lem, insert_overflow}
use cpc_cplink.Server.{Server}
use cpc_cplink.Memory.{reply_3, new_buffer}
use cpc_cplink.Memory.Buffer.{length-new_buffer, read_into-fits}
use cpc_cplink.Memory.Writes.{
  read_into, command_insert_alloc, insert_with_buffer, insert_received, filled,
}
use cpc_cplink.Memory.Replies.{Handled, reply_3-Handled}
use cpc_cplink.Memory.Cut.{to_int32-pos, past_end_lem, past_end_wraps, alloc_size_lem}

module _ (c : Calloc) (s : Server) (id at count : ℕ) (payload rest l buffer : List ℕ)
    (h : Holds s.in_queue
      (id ∷ (int_bytes at ++ (int_bytes count ++ (rear_delimiter ++ (frame 3 payload ++ rest))))))
    (out : Holds s.out_queue l) (room : length l + 30 < queue_size) (small_at : at < 2147483648)
    (small_count : count < 2147483648) (bounded : length payload + 3 < 65536)
    (given : new_buffer c (pos count) ≡ some buffer) where
  insert_read :
      (q : Queue) × Holds q (frame 3 payload ++ rest)
      × (command_insert_alloc c s
          ≡ insert_with_buffer id (pos at) (pos count) (record s { in_queue = q }) (some buffer))
  unfolding command_insert_alloc
  insert_read =
      let follows : List ℕ = rear_delimiter ++ (frame 3 payload ++ rest) in
      let a = next_8bit_lem s.in_queue id (int_bytes at ++ (int_bytes count ++ follows)) h in
      let q1 = (get_command_next_8bit_param_bin s.in_queue).1 in
      let b = next_32bit_lem q1 at (int_bytes count ++ follows) (omega arith) a.left in
      let q2 = (get_command_next_32bit_param_bin q1).1 in
      let d = next_32bit_lem q2 count follows (omega arith) b.left in
      let q = queue_skip_terminator_of_packet (get_command_next_32bit_param_bin q2).1 in
      let s1 : Server = record s { in_queue = q } in
      let x = to_int32 (get_command_next_32bit_param_bin q1).0 in
      let y = to_int32 (get_command_next_32bit_param_bin q2).0 in
      (
        q,
        queue_skip_terminator_lem (get_command_next_32bit_param_bin q2).1 (frame 3 payload ++ rest)
            d.left,
        ap (λ i. insert_with_buffer i x y s1 (new_buffer c y)) a.result
            ∙ ap₂ (λ v w. insert_with_buffer id v w s1 (new_buffer c w))
                (ap to_int32 b.result ∙ to_int32-pos at small_at)
                (ap to_int32 d.result ∙ to_int32-pos count small_count)
            ∙ ap (insert_with_buffer id (pos at) (pos count) s1) given,
      )

  -- The test of the handler lets the command through: the payload is read into the buffer.
  insert_arrived :
      ltb_ℤ (pos (memstore_get_alloc_size_bytes s.memstore id)) (add_int32 (pos at) (pos count))
        ≡ false
      → length payload ≡ count
      → (q : Queue) × Holds q (rear_delimiter ++ rest)
        × (q0 : Queue) × (command_insert_alloc c s
            ≡ insert_received id
                (pos at)
                (pos count)
                buffer
                (record s { in_queue = q0 })
                (true, payload, q))
  unfolding insert_with_buffer
  insert_arrived inside exact =
      let (q, held, read) = insert_read in
      let found =
        is_complete_packet_available-frame q [] payload rest PacketType.binary_data
          (λ e. absurd (cc)) bounded tt held in
      let q1 = (is_complete_packet_available q).1 in
      let got = get_data_from_packet-frame q1 3 payload rest bounded found.1 in
      let q2 = (get_data_from_packet q1 (pos (length payload))).2 in
      let s1 : Server = record s { in_queue = q1 } in
      let call : get_data_from_packet q1 (pos count) ≡ (true, payload, q2) =
        ap (λ n. get_data_from_packet q1 (pos n)) (sym exact)
        ∙ ap₂ (λ a b. (a, b, q2)) got.0 got.1 in
      (
        q2,
        got.2,
        q1,
        read
            ∙ (rw (inside, found.0) refl
                ∙ ap (insert_received id (pos at) (pos count) buffer s1) call),
      )

  module _ (lo : 0 < id) (hi : id < max_memory_allocations)
      (own : (slot s.memstore id).allocation_id ≡ id)
      (fits_int : alloc_size (slot s.memstore id) < 2147483648) (exact : length payload ≡ count)
      (some_bytes : 0 < count) where
    whole_section : read_into buffer payload ≡ some (filled buffer payload)
    whole_section =
        read_into-fits buffer payload
          (omega (arith, exact, length-new_buffer c count buffer small_count given))

    -- IALLOC on a valid store, of at least one byte strictly before the end of an allocation, with a
    -- BinaryData packet of exactly these bytes behind it: they are put into its block, no other
    -- allocation changes, and the answer has no error.
    pub command_insert_alloc_inserts :
        IsValid s.memstore
        → at + count < alloc_size (slot s.memstore id)
        → (block : List ℕ) × (m' : Memstore) × (s' : Server) × ((slot s.memstore id).data_block
            ≡ some block)
          × (command_insert_alloc c s ≡ some (true, s'))
          × Edited s.memstore m' id (inserted block at payload)
          × Handled s
              (true, s')
              (rear_delimiter ++ rest)
              m'
              (l ++ frame 2 (insert_alloc ∷ id ∷ 0 ∷ []))
    unfolding insert_received
    command_insert_alloc_inserts v fits =
        let inside : ltb_ℤ (pos (memstore_get_alloc_size_bytes s.memstore id))
              (add_int32 (pos at) (pos count))
            ≡ false =
          past_end_lem (memstore_get_alloc_size_bytes s.memstore id) at count (omega arith)
          ∙ (let size = alloc_size_lem s.memstore id lo hi own in ground arith) in
        let (q, held, q0, read) = insert_arrived inside exact in
        let (block, m', is, e, edited) =
          memstore_insert_data_lem s.memstore id at count v lo hi own some_bytes fits fits_int
            (filled buffer payload)
            (omega (arith, length-append payload (drop (length payload) buffer))) in
        let values : take count (filled buffer payload) ≡ payload =
          ap (λ n. take n (filled buffer payload)) (sym exact)
          ∙ take-append payload (drop (length payload) buffer) in
        (
          block,
          m',
          reply_3 insert_alloc id 0 (record s { in_queue = q; memstore = m' }),
          is,
          read ∙ rw (whole_section, e) refl,
          subst (λ x. Edited s.memstore m' id (inserted block at x)) values edited,
          reply_3-Handled s q m' (rear_delimiter ++ rest) l held out room insert_alloc id 0,
        )

    -- IALLOC of bytes whose position and length fit an `int` while their sum does not: both tests
    -- pass, and the insertion leaves the block.
    pub command_insert_alloc_overflow : 2147483648 ≤ at + count → command_insert_alloc c s ≡ none
    unfolding insert_received
    command_insert_alloc_overflow over =
        let wrapped =
          past_end_wraps (memstore_get_alloc_size_bytes s.memstore id) at count small_at small_count
            over in
        let (q, held, q0, read) = insert_arrived wrapped exact in
        let escapes =
          insert_overflow s.memstore id at count (filled buffer payload) lo hi own fits_int small_at
            some_bytes small_count over in
        read ∙ rw (whole_section, escapes) refl
