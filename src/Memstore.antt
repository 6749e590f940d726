-- ===== src/Memstore.antt =====
-- sw/examples/mcp/rpi_c/memstore_manager.c and .h: the allocations that the CPC makes on the Pi.
-- The static array `memstore` is a list of 21 records that the operations take and return. The
-- block behind `data` is `data_block`, `none` for NULL; blocks are never shared. `none` as the
-- result of an operation is an access outside its block or through NULL. Closing a `FILE` and
-- freeing a block show in the results where a theorem speaks of them.
pub mod Valid
pub mod Slots
pub mod Pages
pub mod Block
pub mod Edit
pub mod Files
pub mod Load
pub mod Contents
pub mod Keeps
pub mod EditKeeps
pub mod Sample
mod Tests
use cpc_cplink.Prelude.{
  ℕ, zero, suc, ◌+◌, ◌-◌, ◌*◌, ◌≡◌, Bool, true, false, ◌&&◌, Option, none, some, List, [], ◌∷◌,
  ◌++◌, length, take, drop, replicate, set, get_or, ltb, leb, ◌==◌, if◌then◌else◌, ◌>>=◌,
}
use cpc_cplink.Prelude.Int.{ℤ, pos, pos_part, leb_ℤ, ltb_ℤ, add_int32}
use cpc_cplink.Prelude.Splice.{splice}

abbrev pub max_memory_allocations : ℕ
max_memory_allocations = 21

pub record MemoryAllocation : Type 0 where
  pub allocation_id : ℕ
  pub number_pages : ℕ
  pub page_size : ℕ
  pub file_id : Option ℕ
  pub file_size : ℤ
  pub data_block : Option (List ℕ)

-- `memset(..., 0, sizeof(Memory_Allocation))`
abbrev pub cleared : MemoryAllocation
cleared = record {
  allocation_id = 0;
  number_pages = 0;
  page_size = 0;
  file_id = none;
  file_size = pos 0;
  data_block = none;
}

abbrev pub Memstore : Type 0
Memstore = List MemoryAllocation

-- `memstore[index]`; callers check the index first.
abbrev pub slot : Memstore → ℕ → MemoryAllocation
slot memstore index = get_or memstore index cleared

unfoldable pub memstore_init : Memstore
memstore_init = replicate max_memory_allocations cleared

-- The `FILE`s that `memstore_reset` closes: those of the slots in use.
unfoldable pub files_to_close : Memstore → List ℕ
files_to_close [] = []
files_to_close (a ∷ memstore) =
    let rest = files_to_close memstore in
    if a.allocation_id == 0 then rest else elim a.file_id [ none ↦ rest | some f ↦ f ∷ rest ]

-- The files closed, and the store.
unfoldable pub memstore_reset : Memstore → List ℕ × Memstore
memstore_reset memstore = (files_to_close memstore, memstore_init)

-- The range check, and that the slot holds the allocation.
unfoldable pub is_allocated : Memstore → ℕ → Bool
is_allocated memstore allocation_id =
    ltb 0 allocation_id
    && ltb allocation_id max_memory_allocations
    && (slot memstore allocation_id).allocation_id == allocation_id

unfoldable pub memstore_get_page_size_bytes : Memstore → ℕ → ℕ
memstore_get_page_size_bytes memstore allocation_id =
    if is_allocated memstore allocation_id then (slot memstore allocation_id).page_size else 0

unfoldable pub alloc_size : MemoryAllocation → ℕ
alloc_size a = a.number_pages * a.page_size

unfoldable pub memstore_get_alloc_size_bytes : Memstore → ℕ → ℕ
memstore_get_alloc_size_bytes memstore allocation_id =
    if is_allocated memstore allocation_id
    then (slot memstore allocation_id).page_size * (slot memstore allocation_id).number_pages
    else 0

-- The loop from `index` over the slots from there on.
unfoldable pub find_free : ℕ → Memstore → ℕ
find_free index [] = 0
find_free index (a ∷ memstore) =
    let rest = find_free (suc index) memstore in if a.allocation_id == 0 then index else rest

unfoldable pub get_free_memory_allocation : Memstore → ℕ
unfolding find_free
get_free_memory_allocation memstore = find_free 1 (drop 1 memstore)

-- What the code relies on in `calloc(n, 1)`: it returns NULL, or a block of `n` bytes that are 0.
pub record Calloc : Type 0 where
  pub calloc : ℕ → Option (List ℕ)
  pub calloc_zeroes : (n : ℕ) (block : List ℕ) → calloc n ≡ some block → block ≡ replicate n 0

module _ (c : Calloc) where
  -- The id, 0 for none, and the store.
  unfoldable pub memstore_create_allocation_id : Memstore → ℕ → ℕ → ℕ × Memstore
  memstore_create_allocation_id memstore number_pages page_size_in_kb =
      let allocation_id = get_free_memory_allocation memstore in
      if ltb 0 allocation_id && ltb allocation_id max_memory_allocations
      then (elim (c.calloc (number_pages * page_size_in_kb * 1024)) [
        | none ↦ (0, set memstore allocation_id cleared)
        | some block ↦ (
          allocation_id,
          set memstore allocation_id (record (slot memstore allocation_id) {
            allocation_id = allocation_id;
            number_pages = number_pages;
            page_size = page_size_in_kb * 1024;
            data_block = some block;
          }),
        )
      ])
      else (allocation_id, memstore)

-- No lower bound is checked here, and no file is closed.
unfoldable pub memstore_free_allocation_id : Memstore → ℕ → Bool × Memstore
memstore_free_allocation_id memstore allocation_id =
    if ltb allocation_id max_memory_allocations
      && (slot memstore allocation_id).allocation_id == allocation_id
    then (true, set memstore allocation_id cleared)
    else (false, memstore)

unfoldable pub has_page : Memstore → ℕ → ℕ → Bool
has_page memstore allocation_id page_number =
    ltb 0 allocation_id
    && ltb allocation_id max_memory_allocations
    && ltb page_number (slot memstore allocation_id).number_pages
    && (slot memstore allocation_id).allocation_id == allocation_id

-- The bytes at the pointer that the function returns, as many as `*number_of_bytes` says; the inner
-- `none` is NULL.
unfoldable pub memstore_retrieve_page_of_data : Memstore → ℕ → ℕ → Option (Option (List ℕ))
memstore_retrieve_page_of_data memstore allocation_id page_number =
    if has_page memstore allocation_id page_number
    then (let a = slot memstore allocation_id in
        do
          block ← a.data_block
          some (some (take a.page_size (drop (page_number * a.page_size) block))))
    else some none

-- Writing `values` into the block of a slot from index `at` on.
unfoldable pub write_block : MemoryAllocation → ℕ → List ℕ → Option MemoryAllocation
write_block a at values = do
  block ← a.data_block
  if leb (at + length values) (length block)
      then some (record a { data_block = some (splice block at values) })
      else none

unfoldable pub memstore_store_page_of_data : Memstore → ℕ → ℕ → List ℕ → Option (Bool × Memstore)
memstore_store_page_of_data memstore allocation_id page_number page_data_buffer =
    if has_page memstore allocation_id page_number
    then (let a = slot memstore allocation_id in
        do
          a' ← write_block a (page_number * a.page_size) (take a.page_size page_data_buffer)
          some (true, set memstore allocation_id a'))
    else some (false, memstore)

-- The guard of `memstore_insert_data` and of `memstore_cut_data`. The sum is made in `int`.
unfoldable pub edit_allowed : Memstore → ℕ → ℤ → ℤ → Bool
edit_allowed memstore allocation_id at_index count =
    ltb 0 allocation_id
    && ltb allocation_id max_memory_allocations
    && leb_ℤ (pos 0) at_index
    && ltb_ℤ (pos 0) count
    && ltb_ℤ (add_int32 at_index count) (pos (alloc_size (slot memstore allocation_id)))
    && (slot memstore allocation_id).allocation_id == allocation_id

-- `memmove(&data[to], &data[from], count)`
unfoldable pub move_block : List ℕ → ℕ → ℕ → ℕ → Option (List ℕ)
move_block block to from count =
    if leb (to + count) (length block) && leb (from + count) (length block)
    then some (splice block to (take count (drop from block)))
    else none

-- `memcpy(&data[at], values, length)` and `memset`
unfoldable pub copy_block : List ℕ → ℕ → List ℕ → Option (List ℕ)
copy_block block at values =
    if leb (at + length values) (length block) then some (splice block at values) else none

-- A count of bytes to move that is below 0 is a huge `size_t`, and leaves every block: `none`.
unfoldable pub bytes_left : ℕ → ℕ → ℕ → Option ℕ
bytes_left total at count = if leb (at + count) total then some (total - at - count) else none

unfoldable pub insert_block : ℕ → List ℕ → ℕ → ℕ → List ℕ → Option (List ℕ)
insert_block total block at count insert_data = do
  bytes_to_move ← bytes_left total at count
  moved ← move_block block (at + count) at bytes_to_move
  copy_block moved at (take count insert_data)

unfoldable pub memstore_insert_data : Memstore → ℕ → ℤ → ℤ → List ℕ → Option (Bool × Memstore)
memstore_insert_data memstore allocation_id insert_at_index insert_length insert_data =
    if edit_allowed memstore allocation_id insert_at_index insert_length
    then (let a = slot memstore allocation_id in
        do
          block ← a.data_block
          block' ←
              insert_block (alloc_size a) block (pos_part insert_at_index) (pos_part insert_length)
                insert_data
          some (true, set memstore allocation_id (record a { data_block = some block' })))
    else some (false, memstore)

unfoldable pub cut_block : ℕ → List ℕ → ℕ → ℕ → Option (List ℕ)
cut_block total block at count = do
  bytes_to_move ← bytes_left total at count
  moved ← move_block block at (at + count) bytes_to_move
  copy_block moved (total - count) (replicate count 0)

unfoldable pub memstore_cut_data : Memstore → ℕ → ℤ → ℤ → Option (Bool × Memstore)
memstore_cut_data memstore allocation_id cut_at_index cut_length =
    if edit_allowed memstore allocation_id cut_at_index cut_length
    then (let a = slot memstore allocation_id in
        do
          block ← a.data_block
          block' ← cut_block (alloc_size a) block (pos_part cut_at_index) (pos_part cut_length)
          some (true, set memstore allocation_id (record a { data_block = some block' })))
    else some (false, memstore)
