-- ===== src/Memory/Allocs.antt =====
-- command_memory.c: what CALLOC and FALLOC do, from the bytes of the request to the answer.
use cpc_cplink.Prelude.{
  ℕ, ◌+◌, ◌*◌, ◌≤◌, ◌<◌, ◌≡◌, ◌≢◌, ◌⊎◌, inl, inr, refl, ap, ap₂, ◌∙◌, true, false, ◌||◌, none, some,
  List, [], ◌∷◌, ◌++◌, length, set, ltb, ◌==◌, if◌then◌else◌, Bool-cases, arith,
}
use cpc_cplink.Queue.{Queue, queue_size}
use cpc_cplink.Queue.Holds.{Holds}
use cpc_cplink.Packet.Frame.{frame}
use cpc_cplink.Command.Params.{get_command_next_8bit_param_bin, get_command_next_16bit_param_bin}
use cpc_cplink.Command.Binary.{next_8bit_lem, next_16bit_lem}
use cpc_cplink.Command.Id.{create_alloc, free_alloc}
use cpc_cplink.Memstore.{
  Memstore, Calloc, cleared, slot, max_memory_allocations, is_allocated,
  memstore_create_allocation_id, memstore_free_allocation_id,
}
use cpc_cplink.Memstore.Valid.{IsValid}
use cpc_cplink.Memstore.Slots.{Created, create-Created, create_fails, free_lem}
use cpc_cplink.Server.{Server}
use cpc_cplink.Memory.{
  command_create_alloc, command_free_alloc, create_pages, answer_created, answer_freed,
}
use cpc_cplink.Memory.Replies.{Handled, reply_3-Handled}

free_read :
    (s : Server) (id : ℕ)
    → (get_command_next_8bit_param_bin s.in_queue).0 ≡ id
    → command_free_alloc s
      ≡ answer_freed id
          (record s { in_queue = (get_command_next_8bit_param_bin s.in_queue).1 })
          (memstore_free_allocation_id s.memstore id)
unfolding command_free_alloc
free_read s id e =
    ap
      (λ k.
        answer_freed k (record s { in_queue = (get_command_next_8bit_param_bin s.in_queue).1 })
          (memstore_free_allocation_id s.memstore k))
      e

-- FALLOC for an id from 1 on, on a valid store, with room for the answer: the handler is complete
-- and has read its parameter. Where the allocation exists its slot is cleared, no other one
-- changes, and the answer has the id and no error; otherwise nothing changes, and the answer is
-- error 1 with id 0.
pub command_free_alloc_lem :
    (s : Server) (id : ℕ) (rest l : List ℕ)
    → IsValid s.memstore
    → 0 < id
    → Holds s.in_queue (id ∷ rest)
    → Holds s.out_queue l
    → length l + 30 < queue_size
    → let exists = is_allocated s.memstore id in
      let m' = if exists then set s.memstore id cleared else s.memstore in
      IsValid m'
      × Handled s
          (command_free_alloc s)
          rest
          m'
          (l ++ frame 2 (if exists then free_alloc ∷ id ∷ 0 ∷ [] else free_alloc ∷ 0 ∷ 1 ∷ []))
unfolding answer_freed
command_free_alloc_lem s id rest l v lo h out room =
    let r = next_8bit_lem s.in_queue id rest h in
    let s1 : Server = record s { in_queue = (get_command_next_8bit_param_bin s.in_queue).1 } in
    let read : command_free_alloc s
        ≡ answer_freed id s1 (memstore_free_allocation_id s.memstore id) =
      free_read s id r.result in
    let f = free_lem s.memstore id v lo in
    elim (Bool-cases (is_allocated s.memstore id)) [
      | inl e ↦
          let m : Memstore = set s.memstore id cleared in
          let freed : memstore_free_allocation_id s.memstore id ≡ (true, m) =
            ap₂ (λ a b. (a, b)) (f.0 ∙ e) (ground arith) in
          rw (e, read, freed)
            (ground arith, reply_3-Handled s s1.in_queue m rest l r.left out room free_alloc id 0)
      | inr e ↦
          let freed : memstore_free_allocation_id s.memstore id ≡ (false, s.memstore) =
            ap₂ (λ a b. (a, b)) (f.0 ∙ e) (ground arith) in
          rw (e, read, freed)
            (v, reply_3-Handled s s1.in_queue s.memstore rest l r.left out room free_alloc 0 1)
    ]

module _ (c : Calloc) (s : Server) (lo hi kb : ℕ) (rest l : List ℕ)
    (h : Holds s.in_queue (lo ∷ hi ∷ kb ∷ rest)) (out : Holds s.out_queue l)
    (room : length l + 30 < queue_size) where
  abbrev pages : ℕ
  pages = lo + hi * 256

  create_read :
      (q : Queue) × Holds q rest
      × (command_create_alloc c s ≡ create_pages c pages kb (record s { in_queue = q }))
  unfolding command_create_alloc
  create_read =
      let a = next_16bit_lem s.in_queue lo hi (kb ∷ rest) h in
      let b = next_8bit_lem (get_command_next_16bit_param_bin s.in_queue).1 kb rest a.left in
      let q = (get_command_next_8bit_param_bin (get_command_next_16bit_param_bin s.in_queue).1).1 in
      (q, b.left, ap₂ (λ p k. create_pages c p k (record s { in_queue = q })) a.result b.result)

  -- CALLOC with a number of pages that is 0 or above 9999, or a page size that is 0 or above 32 KB,
  -- with room for the answer: error 1 with id 0, and no allocation changes.
  pub command_create_alloc_refused :
      (pages ≡ 0) ⊎ ((9999 < pages) ⊎ ((kb ≡ 0) ⊎ (32 < kb)))
      → Handled s
          (command_create_alloc c s)
          rest
          s.memstore
          (l ++ frame 2 (create_alloc ∷ 0 ∷ 1 ∷ []))
  unfolding create_pages
  command_create_alloc_refused bad =
      let (q, held, e) = create_read in
      let done = reply_3-Handled s q s.memstore rest l held out room create_alloc 0 1 in
      rw e (elim (Bool-cases (kb == 0 || ltb 32 kb)) [
        | inl b ↦ rw b done
        | inr b ↦ let p : (pages == 0 || ltb 9999 pages) ≡ true = ground arith in rw (b, p) done
      ])

  module _ (some_pages : 0 < pages) (few_pages : pages ≤ 9999) (some_kb : 0 < kb)
      (few_kb : kb ≤ 32) where
    create_called :
        (q : Queue) × Holds q rest
        × (command_create_alloc c s
            ≡ answer_created
                (record s { in_queue = q })
                (memstore_create_allocation_id c s.memstore pages kb))
    unfolding create_pages
    create_called =
        let (q, held, e) = create_read in
        let a : (kb == 0 || ltb 32 kb) ≡ false = ground arith in
        let b : (pages == 0 || ltb 9999 pages) ≡ false = ground arith in
        (q, held, e ∙ rw (a, b) refl)

    -- CALLOC with good parameters, on a valid store with a free slot, where `calloc` gives the
    -- memory and there is room for the answer: an allocation of the pages that were asked for,
    -- filled with 0, is made in a free slot, and the answer has its id and no error.
    pub command_create_alloc-Created :
        (i : ℕ) (block : List ℕ)
        → IsValid s.memstore
        → 0 < i
        → i < max_memory_allocations
        → (slot s.memstore i).allocation_id ≡ 0
        → c.calloc (pages * kb * 1024) ≡ some block
        → (id : ℕ) × (m' : Memstore) × Created s.memstore m' id pages kb
          × Handled s (command_create_alloc c s) rest m' (l ++ frame 2 (create_alloc ∷ id ∷ 0 ∷ []))
    unfolding answer_created
    command_create_alloc-Created i block v above below unused given =
        let (q, held, e) = create_called in
        let r = memstore_create_allocation_id c s.memstore pages kb in
        let made = (create-Created c s.memstore pages kb i block v above below unused given).0 in
        let ne : (r.0 == 0) ≡ false = let p = made.in_range in ground arith in
        (
          r.0,
          r.1,
          made,
          rw (e, ne) (reply_3-Handled s q r.1 rest l held out room create_alloc r.0 0),
        )

    -- CALLOC with good parameters on a valid store where no slot is free, or `calloc` returns NULL,
    -- with room for the answer: error 2 with id 0, and every allocation is as it was.
    pub command_create_alloc_no_memory :
        IsValid s.memstore
        → ((i : ℕ) → 0 < i → i < max_memory_allocations → (slot s.memstore i).allocation_id ≢ 0)
          ⊎ (c.calloc (pages * kb * 1024) ≡ none)
        → (m' : Memstore) × ((j : ℕ)
            → 0 < j
            → (slot s.memstore j).allocation_id ≢ 0
            → slot m' j ≡ slot s.memstore j)
          × Handled s (command_create_alloc c s) rest m' (l ++ frame 2 (create_alloc ∷ 0 ∷ 2 ∷ []))
    unfolding answer_created
    command_create_alloc_no_memory v short =
        let (q, held, e) = create_called in
        let r = memstore_create_allocation_id c s.memstore pages kb in
        let (zero_id, kept) = create_fails c s.memstore pages kb v short in
        let z : (r.0 == 0) ≡ true = ground arith in
        (r.1, kept, rw (e, z) (reply_3-Handled s q r.1 rest l held out room create_alloc 0 2))
