-- ===== src/Memstore/Edit.antt =====
-- memstore_manager.c: inserting into an allocation and cutting from it.
use Prim.Native.Nat.{◌+◌}
use cpc_cplink.Prelude.{
  false, ℕ, ◌-◌, ◌≤◌, ◌<◌, ◌≡◌, ◌≢◌, refl, sym, ap, ◌∙◌, true, none, some, List, ◌++◌, arith,
  length, take, drop, set, replicate, length-take, length-drop, length-append, length-replicate,
}
use cpc_cplink.Prelude.Int.{pos}
use cpc_cplink.Prelude.Splice.{length-take_le}
use cpc_cplink.Memstore.{
  MemoryAllocation, Memstore, slot, max_memory_allocations, alloc_size, edit_allowed, cut_block,
  bytes_left, insert_block, memstore_insert_data, memstore_cut_data,
}
use cpc_cplink.Memstore.Valid.{taken, IsValid, set-IsValid, slot-set_self, slot-set_ne, block_of}
use cpc_cplink.Memstore.Block.{insert_block-inserted, cut, inserted, cut_block-cut}

-- The machine's sum of two `int`s that are not below 0 is too small exactly where it wraps.
edit_overflow :
    (m : Memstore) (id at count : ℕ)
    → 0 < id
    → id < max_memory_allocations
    → (slot m id).allocation_id ≡ id
    → at < 2147483648
    → 0 < count
    → count < 2147483648
    → 2147483648 ≤ at + count
    → edit_allowed m id (pos at) (pos count) ≡ true
unfolding edit_allowed
edit_overflow m id at count lo hi own a c1 c2 over = ground arith

-- A position and a length that are both in range of an `int`, but whose sum is not, pass the guard
-- of `memstore_insert_data` at any allocation of the store, and the insertion leaves the block.
pub insert_overflow :
    (m : Memstore) (id at count : ℕ) (values : List ℕ)
    → 0 < id
    → id < max_memory_allocations
    → (slot m id).allocation_id ≡ id
    → alloc_size (slot m id) < 2147483648
    → at < 2147483648
    → 0 < count
    → count < 2147483648
    → 2147483648 ≤ at + count
    → memstore_insert_data m id (pos at) (pos count) values ≡ none
unfolding memstore_insert_data insert_block bytes_left
insert_overflow m id at count values lo hi own small a c1 c2 over =
    ground (arith, edit_overflow m id at count lo hi own a c1 c2 over)

-- The same for a cut.
pub cut_overflow :
    (m : Memstore) (id at count : ℕ)
    → 0 < id
    → id < max_memory_allocations
    → (slot m id).allocation_id ≡ id
    → alloc_size (slot m id) < 2147483648
    → at < 2147483648
    → 0 < count
    → count < 2147483648
    → 2147483648 ≤ at + count
    → memstore_cut_data m id (pos at) (pos count) ≡ none
unfolding memstore_cut_data cut_block bytes_left
cut_overflow m id at count lo hi own small a c1 c2 over =
    ground (arith, edit_overflow m id at count lo hi own a c1 c2 over)

-- The guard refuses an edit that ends exactly with the allocation.
pub edit_at_end :
    (m : Memstore) (id at count : ℕ)
    → at + count ≡ alloc_size (slot m id)
    → alloc_size (slot m id) < 2147483648
    → edit_allowed m id (pos at) (pos count) ≡ false
unfolding edit_allowed
edit_at_end m id at count exact small = ground arith

-- What an edit of one block has done: the block is the new one, of the same size, and so is the
-- allocation; no other
-- allocation changes; and the store is valid.
pub record Edited (m m' : Memstore) (id : ℕ) (block' : List ℕ) : Type 0 where
  pub block_is : (slot m' id).data_block ≡ some block'
  pub same_size : length block' ≡ alloc_size (slot m id)
  pub same_pages : alloc_size (slot m' id) ≡ alloc_size (slot m id)
  pub same_page_size : (slot m' id).page_size ≡ (slot m id).page_size
  pub others : (j : ℕ) → j ≢ id → slot m' j ≡ slot m j
  pub valid : IsValid m'

edited : Memstore → ℕ → List ℕ → Memstore
edited m id block' = set m id (record (slot m id) { data_block = some block' })

edited-Edited :
    (m : Memstore) (id : ℕ) (block' : List ℕ)
    → IsValid m
    → id < max_memory_allocations
    → (slot m id).allocation_id ≡ id
    → length block' ≡ alloc_size (slot m id)
    → Edited m (edited m id block') id block'
unfolding edited alloc_size
edited-Edited m id block' v hi own size =
    let a : MemoryAllocation = record (slot m id) { data_block = some block' } in
    record {
      block_is =
          ap (λ (b : MemoryAllocation). b.data_block)
            (slot-set_self m id a (omega (arith, v.size)));
      same_size = size;
      same_pages = ap alloc_size (slot-set_self m id a (omega (arith, v.size)));
      same_page_size =
          ap (λ (b : MemoryAllocation). b.page_size) (slot-set_self m id a (omega (arith, v.size)));
      others = λ j ne. slot-set_ne m id j a (λ e. ne (sym e));
      valid = set-IsValid m id a v (taken block' own refl size);
    }

allowed :
    (m : Memstore) (id at count : ℕ)
    → 0 < id
    → id < max_memory_allocations
    → (slot m id).allocation_id ≡ id
    → 0 < count
    → at + count < alloc_size (slot m id)
    → alloc_size (slot m id) < 2147483648
    → edit_allowed m id (pos at) (pos count) ≡ true
unfolding edit_allowed
allowed m id at count lo hi own c fits small = ground arith

length-inserted :
    (block : List ℕ) (at : ℕ) (values : List ℕ)
    → at + length values ≤ length block
    → length (inserted block at values) ≡ length block
length-inserted block at values fits = omega (
  arith,
  length-append (take at block)
      (values ++ take (length block - at - length values) (drop at block)),
  length-append values (take (length block - at - length values) (drop at block)),
  length-take at block,
  length-take (length block - at - length values) (drop at block),
  length-drop at block,
)

length-cut :
    (block : List ℕ) (at count : ℕ)
    → at + count ≤ length block
    → length (cut block at count) ≡ length block
length-cut block at count fits = omega (
  arith,
  length-append (take at block) (drop (at + count) block ++ replicate count 0),
  length-append (drop (at + count) block) (replicate count 0),
  length-take at block,
  length-drop (at + count) block,
  length-replicate {A = ℕ} count 0,
)

module _ (m : Memstore) (id at count : ℕ) (v : IsValid m) (lo : 0 < id)
    (hi : id < max_memory_allocations) (own : (slot m id).allocation_id ≡ id)
    (some_bytes : 0 < count) (fits : at + count < alloc_size (slot m id))
    (small : alloc_size (slot m id) < 2147483648) where
  insert-eq :
      (block values : List ℕ)
      → (slot m id).data_block ≡ some block
      → length block ≡ alloc_size (slot m id)
      → count ≤ length values
      → memstore_insert_data m id (pos at) (pos count) values
        ≡ some (true, edited m id (inserted block at (take count values)))
  unfolding memstore_insert_data edited
  insert-eq block values is full enough = rw (
    allowed m id at count lo hi own some_bytes fits small,
    is,
    ← full,
    insert_block-inserted block at count (omega arith) values enough,
  )

  cut-eq :
      (block : List ℕ)
      → (slot m id).data_block ≡ some block
      → length block ≡ alloc_size (slot m id)
      → memstore_cut_data m id (pos at) (pos count) ≡ some (true, edited m id (cut block at count))
  unfolding memstore_cut_data edited
  cut-eq block is full = rw (
    allowed m id at count lo hi own some_bytes fits small,
    is,
    ← full,
    cut_block-cut block at count (omega arith),
  )

  -- At an allocation of a valid store, at least one byte inserted strictly before its end, where its
  -- size fits an `int` and the buffer holds the bytes: the result is TRUE, the block is the old one
  -- with the first `count` bytes of the buffer put in, no other allocation changes, and the store
  -- stays valid.
  pub memstore_insert_data_lem :
      (values : List ℕ)
      → count ≤ length values
      → (block : List ℕ) × (m' : Memstore) × ((slot m id).data_block ≡ some block)
        × (memstore_insert_data m id (pos at) (pos count) values ≡ some (true, m'))
        × Edited m m' id (inserted block at (take count values))
  memstore_insert_data_lem values enough =
      let (block, is, full) = block_of m id v lo hi own in
      let sized = length-take_le count values enough in
      (
        block,
        edited m id (inserted block at (take count values)),
        is,
        insert-eq block values is full enough,
        edited-Edited m id (inserted block at (take count values)) v hi own
            (length-inserted block at (take count values) (omega arith) ∙ full),
      )

  -- At an allocation of a valid store, at least one byte cut strictly before its end, where its size
  -- fits an `int`: the result is TRUE, the block is the old one with `count` bytes taken out and 0
  -- at its end, no other allocation changes, and the store stays valid.
  pub memstore_cut_data_lem :
      (block : List ℕ) × (m' : Memstore) × ((slot m id).data_block ≡ some block)
      × (memstore_cut_data m id (pos at) (pos count) ≡ some (true, m'))
      × Edited m m' id (cut block at count)
  memstore_cut_data_lem =
      let (block, is, full) = block_of m id v lo hi own in
      (
        block,
        edited m id (cut block at count),
        is,
        cut-eq block is full,
        edited-Edited m id (cut block at count) v hi own
            (length-cut block at count (omega arith) ∙ full),
      )
