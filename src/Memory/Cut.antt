-- ===== src/Memory/Cut.antt =====
-- command_memory.c: what XALLOC does to an allocation.
use cpc_cplink.Prelude.{
  ℕ, ◌+◌, ◌≤◌, ◌<◌, ◌≡◌, refl, ap, ap₂, ◌∙◌, true, false, none, some, List, [], ◌∷◌, ◌++◌, length,
  ltb, arith,
}
use cpc_cplink.Prelude.Int.{pos, to_int32, add_int32, ltb_ℤ}
use cpc_cplink.Queue.{Queue, queue_size}
use cpc_cplink.Queue.Holds.{Holds}
use cpc_cplink.Packet.Frame.{frame}
use cpc_cplink.Packet.Write.{int_bytes}
use cpc_cplink.Command.Params.{get_command_next_8bit_param_bin, get_command_next_32bit_param_bin}
use cpc_cplink.Command.Binary.{next_8bit_lem, next_32bit_lem}
use cpc_cplink.Command.Id.{cut_alloc}
use cpc_cplink.Memstore.{
  Memstore, slot, alloc_size, is_allocated, max_memory_allocations, memstore_get_alloc_size_bytes,
  memstore_cut_data,
}
use cpc_cplink.Memstore.Valid.{IsValid}
use cpc_cplink.Memstore.Block.{cut}
use cpc_cplink.Memstore.Edit.{Edited, memstore_cut_data_lem, edit_at_end, cut_overflow}
use cpc_cplink.Server.{Server}
use cpc_cplink.Memory.{reply_3}
use cpc_cplink.Memory.Writes.{command_cut_alloc, cut_section}
use cpc_cplink.Memory.Replies.{Handled, reply_3-Handled}

-- The size that the handlers ask for, of an allocation that exists.
pub alloc_size_lem :
    (m : Memstore) (id : ℕ)
    → 0 < id
    → id < max_memory_allocations
    → (slot m id).allocation_id ≡ id
    → memstore_get_alloc_size_bytes m id ≡ alloc_size (slot m id)
unfolding memstore_get_alloc_size_bytes is_allocated alloc_size
alloc_size_lem m id lo hi own = ground arith

pub to_int32-pos : (n : ℕ) → n < 2147483648 → to_int32 n ≡ pos n
to_int32-pos n small = ground arith

-- The handlers' test is false exactly where position and length end in the allocation.
pub past_end_lem :
    (size at count : ℕ)
    → at + count < 2147483648
    → ltb_ℤ (pos size) (add_int32 (pos at) (pos count)) ≡ ltb size (at + count)
past_end_lem size at count small = ground arith

-- A sum that does not fit wraps to a number below 0.
pub past_end_wraps :
    (size at count : ℕ)
    → at < 2147483648
    → count < 2147483648
    → 2147483648 ≤ at + count
    → ltb_ℤ (pos size) (add_int32 (pos at) (pos count)) ≡ false
past_end_wraps size at count a b over = ground arith

module _ (s : Server) (id at count : ℕ) (rest l : List ℕ)
    (h : Holds s.in_queue (id ∷ (int_bytes at ++ (int_bytes count ++ rest))))
    (out : Holds s.out_queue l) (room : length l + 30 < queue_size) (small_at : at < 2147483648)
    (small_count : count < 2147483648) where
  cut_read :
      (q : Queue) × Holds q rest
      × (command_cut_alloc s ≡ cut_section id (pos at) (pos count) (record s { in_queue = q }))
  unfolding command_cut_alloc
  cut_read =
      let a = next_8bit_lem s.in_queue id (int_bytes at ++ (int_bytes count ++ rest)) h in
      let q1 = (get_command_next_8bit_param_bin s.in_queue).1 in
      let b = next_32bit_lem q1 at (int_bytes count ++ rest) (omega arith) a.left in
      let q2 = (get_command_next_32bit_param_bin q1).1 in
      let d = next_32bit_lem q2 count rest (omega arith) b.left in
      let q = (get_command_next_32bit_param_bin q2).1 in
      let s1 : Server = record s { in_queue = q } in
      (
        q,
        d.left,
        ap
              (λ i.
                cut_section i (to_int32 (get_command_next_32bit_param_bin q1).0)
                  (to_int32 (get_command_next_32bit_param_bin q2).0) s1)
              a.result
            ∙ ap₂ (λ x y. cut_section id x y s1) (ap to_int32 b.result ∙ to_int32-pos at small_at)
                (ap to_int32 d.result ∙ to_int32-pos count small_count),
      )

  module _ (lo : 0 < id) (hi : id < max_memory_allocations)
      (own : (slot s.memstore id).allocation_id ≡ id)
      (bounded : alloc_size (slot s.memstore id) < 2147483648) where
    not_past_end :
        at + count ≤ alloc_size (slot s.memstore id)
        → ltb_ℤ (pos (memstore_get_alloc_size_bytes s.memstore id)) (add_int32 (pos at) (pos count))
          ≡ false
    not_past_end le =
        past_end_lem (memstore_get_alloc_size_bytes s.memstore id) at count (omega arith)
        ∙ (let size = alloc_size_lem s.memstore id lo hi own in ground arith)

    -- XALLOC on a valid store, of at least one byte strictly before the end of an allocation: the
    -- bytes are cut out of its block, no other allocation changes, and the answer has no error.
    pub command_cut_alloc_cuts :
        IsValid s.memstore
        → 0 < count
        → at + count < alloc_size (slot s.memstore id)
        → (block : List ℕ) × (m' : Memstore) × (s' : Server) × ((slot s.memstore id).data_block
            ≡ some block)
          × (command_cut_alloc s ≡ some (true, s'))
          × Edited s.memstore m' id (cut block at count)
          × Handled s (true, s') rest m' (l ++ frame 2 (cut_alloc ∷ id ∷ 0 ∷ []))
    unfolding cut_section
    command_cut_alloc_cuts v some_bytes fits =
        let (q, held, read) = cut_read in
        let (block, m', is, e, edited) =
          memstore_cut_data_lem s.memstore id at count v lo hi own some_bytes fits bounded in
        let inside = not_past_end (omega arith) in
        (
          block,
          m',
          reply_3 cut_alloc id 0 (record s { in_queue = q; memstore = m' }),
          is,
          read ∙ rw (inside, e) refl,
          edited,
          reply_3-Handled s q m' rest l held out room cut_alloc id 0,
        )

    -- XALLOC past the end of an allocation, where the sum fits an `int`: error 2 with id 0, and no
    -- allocation changes.
    pub command_cut_alloc_past_end :
        alloc_size (slot s.memstore id) < at + count
        → at + count < 2147483648
        → (s' : Server) × (command_cut_alloc s ≡ some (true, s'))
          × Handled s (true, s') rest s.memstore (l ++ frame 2 (cut_alloc ∷ 0 ∷ 2 ∷ []))
    unfolding cut_section
    command_cut_alloc_past_end over fits =
        let (q, held, read) = cut_read in
        let past : ltb_ℤ (pos (memstore_get_alloc_size_bytes s.memstore id))
              (add_int32 (pos at) (pos count))
            ≡ true =
          past_end_lem (memstore_get_alloc_size_bytes s.memstore id) at count fits
          ∙ (let size = alloc_size_lem s.memstore id lo hi own in ground arith) in
        (
          reply_3 cut_alloc 0 2 (record s { in_queue = q }),
          read ∙ rw past refl,
          reply_3-Handled s q s.memstore rest l held out room cut_alloc 0 2,
        )

    -- XALLOC of bytes that end exactly with the allocation passes the handler's test, but not that of
    -- `memstore_cut_data`: error 1 with id 0, and no allocation changes.
    pub command_cut_alloc_at_end :
        at + count ≡ alloc_size (slot s.memstore id)
        → (s' : Server) × (command_cut_alloc s ≡ some (true, s'))
          × Handled s (true, s') rest s.memstore (l ++ frame 2 (cut_alloc ∷ 0 ∷ 1 ∷ []))
    unfolding cut_section memstore_cut_data
    command_cut_alloc_at_end exact =
        let (q, held, read) = cut_read in
        let inside = not_past_end (omega arith) in
        let refused = edit_at_end s.memstore id at count exact bounded in
        (
          reply_3 cut_alloc 0 1 (record s { in_queue = q; memstore = s.memstore }),
          read ∙ rw (inside, refused) refl,
          reply_3-Handled s q s.memstore rest l held out room cut_alloc 0 1,
        )

    -- XALLOC of at least one byte whose position and length fit an `int` while their sum does not:
    -- both tests pass, and the cut leaves the block.
    pub command_cut_alloc_overflow :
        0 < count → 2147483648 ≤ at + count → command_cut_alloc s ≡ none
    unfolding cut_section
    command_cut_alloc_overflow some_bytes over =
        let (q, held, read) = cut_read in
        let wrapped : ltb_ℤ (pos (memstore_get_alloc_size_bytes s.memstore id))
              (add_int32 (pos at) (pos count))
            ≡ false =
          past_end_wraps (memstore_get_alloc_size_bytes s.memstore id) at count small_at small_count
            over in
        let escapes =
          cut_overflow s.memstore id at count lo hi own bounded small_at some_bytes small_count
            over in
        read ∙ rw (wrapped, escapes) refl
