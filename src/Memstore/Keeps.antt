-- ===== src/Memstore/Keeps.antt =====
-- memstore_manager.c: the operations on a store in order, with any arguments.
use cpc_cplink.Prelude.{
  ℕ, ◌+◌, ◌*◌, ◌≤◌, ◌<◌, ◌≡◌, refl, sym, ap, subst, ◌∙◌, Bool, true, false, ◌&&◌, Option, none,
  some, List, length, length-replicate, length-take, take, drop, set, ltb, leb, ◌==◌, Bool-cases,
  Option-cases, inl, inr, arith,
}
use native.Mathlib.Nat.{mul_assoc}
use native.Mathlib.Decide.{ℕ_discrete}
use cpc_cplink.Prelude.Splice.{splice, length-splice}
use cpc_cplink.Memstore.{
  MemoryAllocation, Memstore, Calloc, cleared, slot, max_memory_allocations, memstore_init,
  alloc_size, get_free_memory_allocation, memstore_create_allocation_id,
  memstore_free_allocation_id, has_page, memstore_retrieve_page_of_data,
  memstore_store_page_of_data, write_block,
}
use cpc_cplink.Memstore.Valid.{
  SlotOk, free, taken, IsValid, memstore_init-IsValid, slot-replicate, set-IsValid, slot-set_self,
  slot-set_ne,
}
use cpc_cplink.Memstore.Pages.{has_page-HasPage, page_end}

-- A valid store whose allocations and pages have sizes that fit an `int`.
pub record StoreOk (m : Memstore) : Type 0 where
  pub valid : IsValid m
  pub bounded : (i : ℕ) → i < max_memory_allocations → alloc_size (slot m i) < 2147483648
  pub pages_bounded : (i : ℕ) → i < max_memory_allocations → (slot m i).page_size < 2147483648

pub set-StoreOk :
    (m : Memstore) (i : ℕ) (a : MemoryAllocation)
    → StoreOk m
    → i < max_memory_allocations
    → SlotOk i a
    → alloc_size a < 2147483648
    → a.page_size < 2147483648
    → StoreOk (set m i a)
set-StoreOk m i a ok hi good small small_page = record {
  valid = set-IsValid m i a ok.valid good;
  bounded = at;
  pages_bounded = page_at;
}
  where
    at : (j : ℕ) → j < max_memory_allocations → alloc_size (slot (set m i a) j) < 2147483648
    at j h = elim (ℕ_discrete i j) [
      | yes e ↦
          subst (λ k. alloc_size (slot (set m i a) k) < 2147483648) e
            (rw (slot-set_self m i a (omega (arith, ok.valid.size))) small)
      | no ne ↦ rw (slot-set_ne m i j a ne) (ok.bounded j h)
    ]

    page_at : (j : ℕ) → j < max_memory_allocations → (slot (set m i a) j).page_size < 2147483648
    page_at j h = elim (ℕ_discrete i j) [
      | yes e ↦
          subst (λ k. (slot (set m i a) k).page_size < 2147483648) e
            (rw (slot-set_self m i a (omega (arith, ok.valid.size))) small_page)
      | no ne ↦ rw (slot-set_ne m i j a ne) (ok.pages_bounded j h)
    ]

small_cleared : alloc_size cleared < 2147483648
unfolding alloc_size
small_cleared = omega arith

pub memstore_init-StoreOk : StoreOk memstore_init
unfolding memstore_init
memstore_init-StoreOk = record {
  valid = memstore_init-IsValid;
  bounded = λ i h. rw (slot-replicate max_memory_allocations i) small_cleared;
  pages_bounded = λ i h. rw (slot-replicate max_memory_allocations i) (omega arith);
}

pub create_keeps :
    (c : Calloc) (m : Memstore) (pages kb : ℕ)
    → StoreOk m
    → pages * kb * 1024 < 2147483648
    → kb * 1024 < 2147483648
    → StoreOk (memstore_create_allocation_id c m pages kb).1
unfolding memstore_create_allocation_id
create_keeps c m pages kb ok small small_page =
    let id = get_free_memory_allocation m in
    elim (Bool-cases (ltb 0 id && ltb id max_memory_allocations)) [
      | inr e ↦ rw e ok
      | inl e ↦ elim (Option-cases (c.calloc (pages * kb * 1024))) [
        | inl null ↦
            rw (e, null)
              (set-StoreOk m id cleared ok (ground arith) (free refl) small_cleared (omega arith))
        | inr (block, given) ↦
            let a : MemoryAllocation = record (slot m id) {
              allocation_id = id;
              number_pages = pages;
              page_size = kb * 1024;
              data_block = some block;
            } in
            let size : alloc_size a ≡ pages * kb * 1024 =
              (unfold alloc_size in sym (mul_assoc pages kb 1024)) in
            let full : length block ≡ alloc_size a =
              ap length (c.calloc_zeroes (pages * kb * 1024) block given)
              ∙ length-replicate (pages * kb * 1024) 0
              ∙ sym size in
            rw (e, given)
              (set-StoreOk m id a ok (ground arith) (taken block refl refl full) (omega arith)
                small_page)
      ]
    ]

pub free_keeps : (m : Memstore) (id : ℕ) → StoreOk m → StoreOk (memstore_free_allocation_id m id).1
unfolding memstore_free_allocation_id
free_keeps m id ok =
    elim (Bool-cases (ltb id max_memory_allocations && (slot m id).allocation_id == id)) [
      | inl e ↦
          rw e (set-StoreOk m id cleared ok (ground arith) (free refl) small_cleared (omega arith))
      | inr e ↦ rw e ok
    ]

-- An operation that returns and leaves a store in order.
abbrev pub Safe : Option (Bool × Memstore) → Type 0
Safe o = (b : Bool) × (m' : Memstore) × (o ≡ some (b, m')) × StoreOk m'

pub retrieve_returns :
    (m : Memstore) (id page : ℕ)
    → StoreOk m
    → (o : Option (List ℕ)) × (memstore_retrieve_page_of_data m id page ≡ some o)
unfolding memstore_retrieve_page_of_data
retrieve_returns m id page ok = elim (Bool-cases (has_page m id page)) [
  | inl e ↦
      let (block, hp) = has_page-HasPage m id page ok.valid e in
      let a = slot m id in
      (some (take a.page_size (drop (page * a.page_size) block)), rw (e, hp.block_is) refl)
  | inr e ↦ (none, rw e refl)
]

pub refused : (m : Memstore) → StoreOk m → Safe (some (false, m))
refused m ok = (false, m, refl, ok)

-- The store with the block of one allocation replaced by one of the same size.
pub reblocked-Ok :
    (m : Memstore) (id : ℕ) (block : List ℕ)
    → StoreOk m
    → id < max_memory_allocations
    → (slot m id).allocation_id ≡ id
    → length block ≡ alloc_size (slot m id)
    → StoreOk (set m id (record (slot m id) { data_block = some block }))
unfolding alloc_size
reblocked-Ok m id block ok hi own full =
    set-StoreOk m id (record (slot m id) { data_block = some block }) ok hi
      (taken block own refl full) (ok.bounded id hi) (ok.pages_bounded id hi)

-- Storing a page returns on every store in order, whatever the id, the page and the buffer.
pub store-Safe :
    (m : Memstore) (id page : ℕ) (values : List ℕ)
    → StoreOk m
    → Safe (memstore_store_page_of_data m id page values)
unfolding memstore_store_page_of_data write_block alloc_size
store-Safe m id page values ok = elim (Bool-cases (has_page m id page)) [
  | inr e ↦ rw e (refused m ok)
  | inl e ↦
      let (block, hp) = has_page-HasPage m id page ok.valid e in
      let size = (slot m id).page_size in
      let written = take size values in
      let fits : page * size + length written ≤ length block = omega (
        arith,
        length-take size values,
        hp.block_full,
        page_end page (slot m id).number_pages size hp.page_in,
      ) in
      let inside : leb (page * size + length written) (length block) ≡ true = ground arith in
      rw (e, hp.block_is, inside)
        (
          true,
          set m id (record (slot m id) { data_block = some (splice block (page * size) written) }),
          refl,
          reblocked-Ok m id (splice block (page * size) written) ok hp.in_range.1 hp.own
              (length-splice block (page * size) written fits ∙ hp.block_full),
        )
]
