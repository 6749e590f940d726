-- ===== src/Memstore/Valid.antt =====
-- memstore_manager.c: every allocation has the block that its sizes promise.
use cpc_cplink.Prelude.{
  ℕ, zero, suc, ◌<◌, ◌≡◌, ◌≢◌, refl, ap, subst, ◌∙◌, some, List, [], ◌∷◌, arith, length, replicate,
  set, length-set,
}
use native.Mathlib.Decide.{ℕ_discrete}
use cpc_cplink.Memstore.{
  MemoryAllocation, Memstore, cleared, slot, max_memory_allocations, memstore_init, alloc_size,
}

-- A slot is free, or it holds the allocation of its own index, with a block of all its pages.
pub data SlotOk (index : ℕ) (a : MemoryAllocation) : Type 0 where
  free : a.allocation_id ≡ 0 → SlotOk index a
  taken :
      (block : List ℕ)
      → a.allocation_id ≡ index
      → a.data_block ≡ some block
      → length block ≡ alloc_size a
      → SlotOk index a

pub record IsValid (m : Memstore) : Type 0 where
  pub size : length m ≡ max_memory_allocations
  pub slots : (i : ℕ) → i < max_memory_allocations → SlotOk i (slot m i)

pub slot-set_self :
    (m : Memstore) (i : ℕ) (a : MemoryAllocation) → i < length m → slot (set m i a) i ≡ a
slot-set_self [] i a h = absurd (omega arith)
slot-set_self (b ∷ m) zero a h = refl
slot-set_self (b ∷ m) (suc i) a h = slot-set_self m i a (omega arith)

pub slot-set_ne :
    (m : Memstore) (i j : ℕ) (a : MemoryAllocation) → i ≢ j → slot (set m i a) j ≡ slot m j
slot-set_ne [] i j a h = refl
slot-set_ne (b ∷ m) zero zero a h = absurd (h refl)
slot-set_ne (b ∷ m) zero (suc j) a h = refl
slot-set_ne (b ∷ m) (suc i) zero a h = refl
slot-set_ne (b ∷ m) (suc i) (suc j) a h = slot-set_ne m i j a (λ e. h (ap suc e))

pub slot-replicate : (n i : ℕ) → slot (replicate n cleared) i ≡ cleared
slot-replicate zero i = refl
slot-replicate (suc n) zero = refl
slot-replicate (suc n) (suc i) = slot-replicate n i

-- Every valid change of one slot keeps the store valid.
pub set-IsValid :
    (m : Memstore) (i : ℕ) (a : MemoryAllocation) → IsValid m → SlotOk i a → IsValid (set m i a)
set-IsValid m i a v ok = record { size = length-set m i a ∙ v.size; slots = at }
  where
    at : (j : ℕ) → j < max_memory_allocations → SlotOk j (slot (set m i a) j)
    at j h = elim (ℕ_discrete i j) [
      | yes e ↦
          subst (λ k. SlotOk k (slot (set m i a) k)) e
            (rw (slot-set_self m i a (omega (arith, v.size))) ok)
      | no ne ↦ rw (slot-set_ne m i j a ne) (v.slots j h)
    ]

pub memstore_init-IsValid : IsValid memstore_init
unfolding memstore_init
memstore_init-IsValid = record {
  size = refl;
  slots = λ i h. rw (slot-replicate max_memory_allocations i) (SlotOk.free refl);
}

-- The block of an allocation.
pub block_of :
    (m : Memstore) (i : ℕ)
    → IsValid m
    → 0 < i
    → i < max_memory_allocations
    → (slot m i).allocation_id ≡ i
    → (block : List ℕ) × ((slot m i).data_block ≡ some block)
      × (length block ≡ alloc_size (slot m i))
block_of m i v lo hi e = go (v.slots i hi)
  where
    go :
        SlotOk i (slot m i)
        → (block : List ℕ) × ((slot m i).data_block ≡ some block)
          × (length block ≡ alloc_size (slot m i))
    go (free z) = absurd (omega arith)
    go (taken block _ d l) = (block, d, l)
