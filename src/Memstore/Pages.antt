-- ===== src/Memstore/Pages.antt =====
-- memstore_manager.c: storing and retrieving pages.
use Prim.Native.Nat.{◌+◌}
use cpc_cplink.Prelude.{
  ℕ, ◌*◌, ◌≤◌, ◌<◌, ◌≡◌, ◌≢◌, ◌⊎◌, inl, inr, refl, sym, ap, subst, ◌∙◌, true, false, none, some,
  List, arith, length, take, drop, set, length-take,
}
use native.Mathlib.Decide.{dec_lt, ℕ_discrete}
use cpc_cplink.Prelude.Splice.{
  splice, length-splice, window-splice_self, window-splice_before, drop-splice_after,
}
use cpc_cplink.Memstore.{
  MemoryAllocation, Memstore, slot, max_memory_allocations, alloc_size, has_page, write_block,
  memstore_retrieve_page_of_data, memstore_store_page_of_data,
}
use cpc_cplink.Memstore.Valid.{
  SlotOk, taken, IsValid, set-IsValid, slot-set_self, slot-set_ne, block_of,
}

-- A page of an allocation that exists, in a block that holds it.
pub record HasPage (m : Memstore) (id page : ℕ) (block : List ℕ) : Type 0 where
  pub in_range : (0 < id) × (id < max_memory_allocations)
  pub own : (slot m id).allocation_id ≡ id
  pub page_in : page < (slot m id).number_pages
  pub block_is : (slot m id).data_block ≡ some block
  pub block_full : length block ≡ (slot m id).number_pages * (slot m id).page_size

-- Every page that the guard admits lies in a block: no access of a valid store leaves its block.
pub has_page-HasPage :
    (m : Memstore) (id page : ℕ)
    → IsValid m
    → has_page m id page ≡ true
    → (block : List ℕ) × HasPage m id page block
unfolding has_page alloc_size
has_page-HasPage m id page v h =
    let (block, is, full) = block_of m id v (ground arith) (ground arith) (ground arith) in
    (
      block,
      record {
        in_range = (ground arith, ground arith);
        own = ground arith;
        page_in = ground arith;
        block_is = is;
        block_full = full;
      },
    )

-- Pages end where the next ones start, and the last one ends with the block.
pub page_end : (page pages size : ℕ) → page < pages → page * size + size ≤ pages * size
page_end page pages size h = grind arith

pages_apart : (p q size : ℕ) → p < q → p * size + size ≤ q * size
pages_apart p q size h = grind arith

-- The slot with a page of its block replaced.
stored : Memstore → ℕ → ℕ → List ℕ → List ℕ → MemoryAllocation
stored m id page block values = record (slot m id) {
  data_block = some (splice block (page * (slot m id).page_size) values);
}

module _ (m : Memstore) (id page : ℕ) (block buffer : List ℕ) (hp : HasPage m id page block)
    (enough : (slot m id).page_size ≤ length buffer) where
  abbrev values : List ℕ
  values = take (slot m id).page_size buffer

  length-values : length values ≡ (slot m id).page_size
  length-values = omega (arith, length-take (slot m id).page_size buffer)

  values_fit : page * (slot m id).page_size + length values ≤ length block
  values_fit = omega (
    arith,
    length-values,
    hp.block_full,
    page_end page (slot m id).number_pages (slot m id).page_size hp.page_in,
  )

  store-eq :
      memstore_store_page_of_data m id page buffer
      ≡ some (true, set m id (stored m id page block values))
  unfolding memstore_store_page_of_data write_block stored has_page
  store-eq =
      ground (arith, hp.in_range.0, hp.in_range.1, hp.own, hp.page_in, hp.block_is, values_fit)

  stored-Ok : IsValid m → SlotOk id (stored m id page block values)
  unfolding stored alloc_size
  stored-Ok v =
      taken (splice block (page * (slot m id).page_size) values) hp.own refl
        (length-splice block (page * (slot m id).page_size) values values_fit ∙ hp.block_full)

  -- What another page of the same allocation reads.
  other_page :
      (q : ℕ)
      → q ≢ page
      → q < (slot m id).number_pages
      → take
          (slot m id).page_size
          (drop (q * (slot m id).page_size) (splice block (page * (slot m id).page_size) values))
        ≡ take (slot m id).page_size (drop (q * (slot m id).page_size) block)
  other_page q ne lt = elim (dec_lt q page) [
    | yes before ↦
        window-splice_before block (page * size) values (q * size) size
          (pages_apart q page size before) (omega (arith, values_fit))
    | no after ↦ ap (take size) (
        drop-splice_after block (page * size) values (q * size)
          (omega (arith, length-values, pages_apart page q size (omega arith)))
          (omega (arith, values_fit)))
  ]
    where
      size : ℕ
      size = (slot m id).page_size

  page_back :
      take
        (slot m id).page_size
        (drop (page * (slot m id).page_size) (splice block (page * (slot m id).page_size) values))
      ≡ values
  page_back =
      subst (λ n. take n (drop at (splice block at values)) ≡ values) length-values
        (window-splice_self block at values (omega (arith, values_fit)))
    where
      at : ℕ
      at = page * (slot m id).page_size

  -- The store with the page written.
  after : Memstore
  after = set m id (stored m id page block values)

  retrieve_self :
      length m ≡ max_memory_allocations
      → memstore_retrieve_page_of_data after id page ≡ some (some values)
  unfolding memstore_retrieve_page_of_data has_page stored after
  retrieve_self size =
      let new = slot-set_self m id (stored m id page block values) (omega (arith, hp.in_range.1)) in
      ground (arith, new, page_back, hp.in_range.0, hp.in_range.1, hp.own, hp.page_in)

  retrieve_same_id :
      (q : ℕ)
      → length m ≡ max_memory_allocations
      → q ≢ page
      → memstore_retrieve_page_of_data after id q ≡ memstore_retrieve_page_of_data m id q
  unfolding memstore_retrieve_page_of_data has_page stored after
  retrieve_same_id q size ne =
      let new = slot-set_self m id (stored m id page block values) (omega (arith, hp.in_range.1)) in
      ground (arith, new, other_page q ne, hp.in_range.0, hp.in_range.1, hp.own, hp.block_is)

  retrieve_other_id :
      (j q : ℕ)
      → j ≢ id
      → memstore_retrieve_page_of_data after j q ≡ memstore_retrieve_page_of_data m j q
  unfolding memstore_retrieve_page_of_data has_page after
  retrieve_other_id j q ne =
      ground (arith, slot-set_ne m id j (stored m id page block values) (λ e. ne (sym e)))

  retrieve_others :
      (j q : ℕ)
      → length m ≡ max_memory_allocations
      → (j ≢ id) ⊎ (q ≢ page)
      → memstore_retrieve_page_of_data after j q ≡ memstore_retrieve_page_of_data m j q
  retrieve_others j q size (inl ne) = retrieve_other_id j q ne
  retrieve_others j q size (inr ne) = elim (ℕ_discrete j id) [
    | yes e ↦ rw e (retrieve_same_id q size ne)
    | no other ↦ retrieve_other_id j q other
  ]

-- What a store has done: the page reads as the bytes stored, every other page of every allocation
-- reads as before, and the store is valid.
pub record Stores (m m' : Memstore) (id page : ℕ) (values : List ℕ) : Type 0 where
  pub page_reads : memstore_retrieve_page_of_data m' id page ≡ some (some values)
  pub others_read :
      (j q : ℕ)
      → (j ≢ id) ⊎ (q ≢ page)
      → memstore_retrieve_page_of_data m' j q ≡ memstore_retrieve_page_of_data m j q
  pub valid : IsValid m'

-- On a valid store, storing a page that exists, from a buffer that holds a page, returns TRUE and
-- stays inside the block. Retrieving the page then gives the bytes stored, every other page of
-- every allocation reads as before, and the store stays valid.
pub store-retrieve :
    (m : Memstore) (id page : ℕ) (buffer : List ℕ)
    → IsValid m
    → has_page m id page ≡ true
    → (slot m id).page_size ≤ length buffer
    → (m' : Memstore) × (memstore_store_page_of_data m id page buffer ≡ some (true, m'))
      × Stores m m' id page (take (slot m id).page_size buffer)
store-retrieve m id page buffer v exists enough =
    let (block, hp) = has_page-HasPage m id page v exists in
    let a = stored m id page block (values m id page block buffer hp enough) in
    (
      set m id a,
      store-eq m id page block buffer hp enough,
      record {
        page_reads = unfold after in retrieve_self m id page block buffer hp enough v.size;
        others_read = λ j q differs.
            unfold after in retrieve_others m id page block buffer hp enough j q v.size differs;
        valid = set-IsValid m id a v (stored-Ok m id page block buffer hp enough v);
      },
    )

-- Storing to a page that does not exist returns FALSE and changes nothing; retrieving it returns
-- NULL.
pub no_page :
    (m : Memstore) (id page : ℕ) (buffer : List ℕ)
    → has_page m id page ≡ false
    → (memstore_store_page_of_data m id page buffer ≡ some (false, m))
      × (memstore_retrieve_page_of_data m id page ≡ some none)
unfolding memstore_store_page_of_data memstore_retrieve_page_of_data
no_page m id page buffer h = (rw h, rw h)
