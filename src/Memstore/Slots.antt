-- ===== src/Memstore/Slots.antt =====
-- memstore_manager.c: making and freeing allocations.
use Prim.Native.Nat.{◌+◌}
use native.Mathlib.Decide.{dec_lt}
use native.Mathlib.Nat.{mul_assoc}
use cpc_cplink.Prelude.{
  ℕ, zero, suc, ◌*◌, ◌≤◌, ◌<◌, ◌≡◌, ◌≢◌, ◌⊎◌, inl, inr, refl, sym, ap, subst, ◌∙◌, Bool, true,
  false, ◌&&◌, none, some, List, [], ◌∷◌, arith, length, drop, replicate, set, length-replicate,
  ltb, ◌==◌, if◌then◌else◌, length-drop, Bool-cases, ==_iff,
}
use cpc_cplink.Memstore.{
  MemoryAllocation, Memstore, Calloc, cleared, slot, max_memory_allocations, alloc_size,
  is_allocated, find_free, get_free_memory_allocation, memstore_create_allocation_id,
  memstore_free_allocation_id, memstore_get_alloc_size_bytes, memstore_retrieve_page_of_data,
  has_page,
}
use cpc_cplink.Memstore.Valid.{free, taken, IsValid, set-IsValid, slot-set_self, slot-set_ne}

-- What the search through slots numbered from `index` on returns: 0 where none is free, else the
-- number of the first free one.
pub data Found (index : ℕ) (m : Memstore) (r : ℕ) : Type 0 where
  full : r ≡ 0 → ((i : ℕ) → i < length m → (slot m i).allocation_id ≢ 0) → Found index m r
  first :
      (i : ℕ)
      → r ≡ index + i
      → i < length m
      → (slot m i).allocation_id ≡ 0
      → ((j : ℕ) → j < i → (slot m j).allocation_id ≢ 0)
      → Found index m r

-- One more slot in front, which is in use.
Found-cons :
    (index : ℕ) (a : MemoryAllocation) (m : Memstore) (r : ℕ)
    → a.allocation_id ≢ 0
    → Found (suc index) m r
    → Found index (a ∷ m) r
Found-cons index a m r ne (full z all) = full z below
  where
    below : (i : ℕ) → i < length (a ∷ m) → (slot (a ∷ m) i).allocation_id ≢ 0
    below zero h = ne
    below (suc i) h = all i (omega arith)
Found-cons index a m r ne (first i e h z all) = first (suc i) (omega arith) (omega arith) z below
  where
    below : (j : ℕ) → j < suc i → (slot (a ∷ m) j).allocation_id ≢ 0
    below zero h = ne
    below (suc j) h = all j (omega arith)

find_free-Found : (index : ℕ) (m : Memstore) → Found index m (find_free index m)
unfolding find_free
find_free-Found index [] = full refl (λ i h. absurd (omega arith))
find_free-Found index (a ∷ m) = elim (Bool-cases (a.allocation_id == 0)) [
  | inl e ↦ rw e (
      first 0 (omega arith) (omega arith) ((==_iff a.allocation_id 0).0 e)
        (λ j h. absurd (omega arith)))
  | inr ne ↦ rw ne (
      Found-cons index a m (find_free (suc index) m) (ground arith) (find_free-Found (suc index) m))
]

-- A store with an id that was handed out: the slot was free, and holds the new allocation.
pub record Created (m m' : Memstore) (id pages kb : ℕ) : Type 0 where
  pub in_range : (0 < id) × (id < max_memory_allocations)
  pub was_free : (slot m id).allocation_id ≡ 0
  pub holds : (slot m' id).allocation_id ≡ id
  pub sizes : ((slot m' id).number_pages ≡ pages) × ((slot m' id).page_size ≡ kb * 1024)
  pub zeroed : (slot m' id).data_block ≡ some (replicate (pages * kb * 1024) 0)
  pub others : (j : ℕ) → j ≢ id → slot m' j ≡ slot m j
  pub valid : IsValid m'

slot-drop : (m : Memstore) (i : ℕ) → slot (drop 1 m) i ≡ slot m (suc i)
slot-drop [] i = refl
slot-drop (a ∷ m) i = refl

slot-drop_at :
    (m : Memstore) (i : ℕ)
    → (slot (drop 1 m) i).allocation_id ≡ 0
    → (slot m (suc i)).allocation_id ≡ 0
slot-drop_at m i z = rw (← slot-drop m i) z

-- The first free slot from 1 on, or 0 where all of them are in use.
abbrev pub FirstFree : Memstore → ℕ → Type 0
FirstFree m r =
    ((r ≡ 0) × ((i : ℕ) → 0 < i → i < max_memory_allocations → (slot m i).allocation_id ≢ 0))
    ⊎ ((0 < r)
        × (r < max_memory_allocations)
        × ((slot m r).allocation_id ≡ 0)
        × ((i : ℕ) → 0 < i → i < r → (slot m i).allocation_id ≢ 0))

FirstFree-Found :
    (m : Memstore) (r : ℕ)
    → length m ≡ max_memory_allocations
    → Found 1 (drop 1 m) r
    → FirstFree m r
FirstFree-Found m r size (full z all) = inl (z, below)
  where
    below : (i : ℕ) → 0 < i → i < max_memory_allocations → (slot m i).allocation_id ≢ 0
    below zero lo h = absurd (omega arith)
    below (suc i) lo h = rw (← slot-drop m i) (all i (omega (arith, length-drop 1 m)))
FirstFree-Found m r size (first i e h z all) = inr (
  omega arith,
  omega (arith, length-drop 1 m),
  subst (λ k. (slot m k).allocation_id ≡ 0) (omega arith) (slot-drop_at m i z),
  below,
)
  where
    below : (j : ℕ) → 0 < j → j < r → (slot m j).allocation_id ≢ 0
    below zero lo h = absurd (omega arith)
    below (suc j) lo h = rw (← slot-drop m j) (all j (omega arith))

-- `get_free_memory_allocation` on a valid store returns the first free slot from 1 on, and 0
-- exactly where none is free.
pub get_free-FirstFree : (m : Memstore) → IsValid m → FirstFree m (get_free_memory_allocation m)
unfolding get_free_memory_allocation
get_free-FirstFree m v =
    FirstFree-Found m (find_free 1 (drop 1 m)) v.size (find_free-Found 1 (drop 1 m))

created : Memstore → ℕ → ℕ → ℕ → List ℕ → Memstore
created m id pages kb block = set m id (record (slot m id) {
  allocation_id = id;
  number_pages = pages;
  page_size = kb * 1024;
  data_block = some block;
})

created-Created :
    (m : Memstore) (id pages kb : ℕ) (block : List ℕ)
    → IsValid m
    → 0 < id
    → id < max_memory_allocations
    → (slot m id).allocation_id ≡ 0
    → block ≡ replicate (pages * kb * 1024) 0
    → Created m (created m id pages kb block) id pages kb
unfolding created
created-Created m id pages kb block v lo hi z zeros =
    let a : MemoryAllocation = record (slot m id) {
      allocation_id = id;
      number_pages = pages;
      page_size = kb * 1024;
      data_block = some block;
    } in
    let new : slot (set m id a) id ≡ a = slot-set_self m id a (omega (arith, v.size)) in
    let full : length block ≡ pages * (kb * 1024) =
      ap length zeros ∙ length-replicate (pages * kb * 1024) 0 ∙ mul_assoc pages kb 1024 in
    record {
      in_range = (lo, hi);
      was_free = z;
      holds = ap (λ (b : MemoryAllocation). b.allocation_id) new;
      sizes = (
        ap (λ (b : MemoryAllocation). b.number_pages) new,
        ap (λ (b : MemoryAllocation). b.page_size) new,
      );
      zeroed = ap (λ (b : MemoryAllocation). b.data_block) new ∙ ap some zeros;
      others = λ j ne. slot-set_ne m id j a (λ e. ne (sym e));
      valid = set-IsValid m id a v (taken block refl refl (unfold alloc_size in full));
    }

first_le :
    (m : Memstore) (id i : ℕ)
    → 0 < i
    → (slot m i).allocation_id ≡ 0
    → ((j : ℕ) → 0 < j → j < id → (slot m j).allocation_id ≢ 0)
    → id ≤ i
first_le m id i lo z least = elim (dec_lt i id) [
  | yes h ↦ absurd (least i lo h z)
  | no h ↦ omega arith
]

module _ (c : Calloc) where
  create-eq :
      (m : Memstore) (pages kb : ℕ) (block : List ℕ)
      → 0 < get_free_memory_allocation m
      → get_free_memory_allocation m < max_memory_allocations
      → c.calloc (pages * kb * 1024) ≡ some block
      → memstore_create_allocation_id c m pages kb
        ≡ (get_free_memory_allocation m, created m (get_free_memory_allocation m) pages kb block)
  unfolding memstore_create_allocation_id created
  create-eq m pages kb block lo hi got = ground arith

  create-null :
      (m : Memstore) (pages kb : ℕ)
      → 0 < get_free_memory_allocation m
      → get_free_memory_allocation m < max_memory_allocations
      → c.calloc (pages * kb * 1024) ≡ none
      → memstore_create_allocation_id c m pages kb
        ≡ (0, set m (get_free_memory_allocation m) cleared)
  unfolding memstore_create_allocation_id
  create-null m pages kb lo hi null = ground arith

  create-full :
      (m : Memstore) (pages kb : ℕ)
      → get_free_memory_allocation m ≡ 0
      → memstore_create_allocation_id c m pages kb ≡ (0, m)
  unfolding memstore_create_allocation_id
  create-full m pages kb z = ground arith

  -- A valid store with a free slot, and a `calloc` that gives the memory: the id is the first free
  -- one, the allocation has all its pages, filled with 0, no other slot changes, and the store
  -- stays valid.
  pub create-Created :
      (m : Memstore) (pages kb i : ℕ) (block : List ℕ)
      → IsValid m
      → 0 < i
      → i < max_memory_allocations
      → (slot m i).allocation_id ≡ 0
      → c.calloc (pages * kb * 1024) ≡ some block
      → let (id, m') = memstore_create_allocation_id c m pages kb in
        Created m m' id pages kb × (id ≤ i)
  create-Created m pages kb i block v lo hi z got = go (get_free-FirstFree m v)
    where
      id : ℕ
      id = get_free_memory_allocation m

      m' : Memstore
      m' = created m id pages kb block

      go :
          FirstFree m id
          → Created m
              (memstore_create_allocation_id c m pages kb).1
              (memstore_create_allocation_id c m pages kb).0
              pages
              kb
            × ((memstore_create_allocation_id c m pages kb).0 ≤ i)
      go (inl (none_free, all)) = absurd (all i lo hi z)
      go (inr (pos_id, in_id, was, least)) = rw (create-eq m pages kb block pos_id in_id got) (
        created-Created m id pages kb block v pos_id in_id was
            (c.calloc_zeroes (pages * kb * 1024) block got),
        first_le m id i lo z least,
      )

  -- Where no slot is free, or `calloc` returns NULL, the result is 0 and no allocation changes.
  pub create_fails :
      (m : Memstore) (pages kb : ℕ)
      → IsValid m
      → ((i : ℕ) → 0 < i → i < max_memory_allocations → (slot m i).allocation_id ≢ 0)
        ⊎ (c.calloc (pages * kb * 1024) ≡ none)
      → let (id, m') = memstore_create_allocation_id c m pages kb in
        (id ≡ 0) × ((j : ℕ) → 0 < j → (slot m j).allocation_id ≢ 0 → slot m' j ≡ slot m j)
  create_fails m pages kb v why = go (get_free-FirstFree m v) why
    where
      id : ℕ
      id = get_free_memory_allocation m

      Result : Type 0
      Result =
          ((memstore_create_allocation_id c m pages kb).0 ≡ 0)
          × ((j : ℕ)
              → 0 < j
              → (slot m j).allocation_id ≢ 0
              → slot (memstore_create_allocation_id c m pages kb).1 j ≡ slot m j)

      go :
          FirstFree m id
          → ((i : ℕ) → 0 < i → i < max_memory_allocations → (slot m i).allocation_id ≢ 0)
            ⊎ (c.calloc (pages * kb * 1024) ≡ none)
          → Result
      go (inl (none_free, all)) _ = rw (create-full m pages kb none_free) (refl, λ j lo ne. refl)
      go (inr (pos_id, in_id, was, least)) (inl all) = absurd (all id pos_id in_id was)
      go (inr (pos_id, in_id, was, least)) (inr null) =
          rw (create-null m pages kb pos_id in_id null) (
            refl,
            λ j lo ne.
                slot-set_ne m id j cleared
                  (λ e. ne (subst (λ k. (slot m k).allocation_id ≡ 0) e was)),
          )

-- `memstore_free_allocation_id` at an id from 1 on succeeds exactly where the allocation exists.
-- Then its slot is cleared, and no other slot changes; otherwise nothing changes. The store stays
-- valid.
pub free_lem :
    (m : Memstore) (id : ℕ)
    → IsValid m
    → 0 < id
    → let (done, m') = memstore_free_allocation_id m id in
      (done ≡ is_allocated m id) × (m' ≡ (if done then set m id cleared else m)) × IsValid m'
unfolding memstore_free_allocation_id is_allocated
free_lem m id v lo = (
  ground arith,
  ground arith,
  either (ltb id max_memory_allocations && (slot m id).allocation_id == id),
)
  where
    either :
        (b : Bool)
        → IsValid (if◌then◌else◌ {A = Bool × Memstore} b (true, set m id cleared) (false, m)).1
    either true = set-IsValid m id cleared v (free refl)
    either false = v

-- After a successful free of an id from 1 on, its allocation has no pages, and its size is 0.
pub free_gone :
    (m : Memstore) (id page : ℕ)
    → IsValid m
    → 0 < id
    → is_allocated m id ≡ true
    → let m' = (memstore_free_allocation_id m id).1 in
      (memstore_get_alloc_size_bytes m' id ≡ 0)
      × (memstore_retrieve_page_of_data m' id page ≡ some none)
unfolding memstore_free_allocation_id is_allocated memstore_get_alloc_size_bytes
    memstore_retrieve_page_of_data has_page
free_gone m id page v lo held = ground (arith, slot-set_self m id cleared, v.size)

-- Id 0 names no allocation, yet freeing it returns TRUE on every valid store whose slot 0 is unused.
pub free_zero :
    (m : Memstore) → (slot m 0).allocation_id ≡ 0 → (memstore_free_allocation_id m 0).0 ≡ true
unfolding memstore_free_allocation_id
free_zero m z = ground arith
