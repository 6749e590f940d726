-- ===== src/Memstore/Sample.antt =====
-- For the tests: a store with one allocation of two short pages, and an allocator that never fails.
use cpc_cplink.Prelude.{
  take, length-take, ℕ, ◌≡◌, refl, ap, true, none, some, List, [], ◌∷◌, replicate, set, arith,
}
use cpc_cplink.Prelude.Int.{pos}
use cpc_cplink.Memstore.{
  MemoryAllocation, Memstore, Calloc, slot, memstore_init, alloc_size, is_allocated, has_page,
}
use cpc_cplink.Memstore.Valid.{SlotOk, taken, IsValid, set-IsValid, memstore_init-IsValid}
use cpc_cplink.Memstore.Keeps.{StoreOk, set-StoreOk, memstore_init-StoreOk}
use cpc_cplink.Memstore.Files.{Stdio, StdioLaws}

pub zeroing_zeroes :
    (n : ℕ) (block : List ℕ) → some (replicate n 0) ≡ some block → block ≡ replicate n 0
zeroing_zeroes n block e = cc

abbrev pub zeroing : Calloc
zeroing = record { calloc = λ n. some (replicate n 0); calloc_zeroes = zeroing_zeroes }

abbrev pub letters : MemoryAllocation
letters = record {
  allocation_id = 1;
  number_pages = 2;
  page_size = 4;
  file_id = none;
  file_size = pos 0;
  data_block = some (65 ∷ 66 ∷ 67 ∷ 68 ∷ 69 ∷ 70 ∷ 71 ∷ 72 ∷ []);
}

abbrev pub one_used : Memstore
one_used = set memstore_init 1 letters

pub letters-SlotOk : SlotOk 1 letters
unfolding alloc_size
letters-SlotOk = taken (65 ∷ 66 ∷ 67 ∷ 68 ∷ 69 ∷ 70 ∷ 71 ∷ 72 ∷ []) refl refl refl

pub one_used-IsValid : IsValid one_used
one_used-IsValid = set-IsValid memstore_init 1 letters memstore_init-IsValid letters-SlotOk

pub slot_1 : slot one_used 1 ≡ letters
unfolding memstore_init
slot_1 = refl

pub slot_2_free : (slot one_used 2).allocation_id ≡ 0
unfolding memstore_init
slot_2_free = refl

pub has_page_1 : has_page one_used 1 1 ≡ true
unfolding memstore_init has_page
has_page_1 = refl

pub is_allocated_1 : is_allocated one_used 1 ≡ true
unfolding memstore_init is_allocated
is_allocated_1 = refl

pub size_1 : alloc_size (slot one_used 1) ≡ 8
unfolding memstore_init alloc_size
size_1 = refl

pub own_1 : (slot one_used 1).allocation_id ≡ 1
own_1 = ap (λ (a : MemoryAllocation). a.allocation_id) slot_1

pub page_size_1 : (slot one_used 1).page_size ≡ 4
page_size_1 = ap (λ (a : MemoryAllocation). a.page_size) slot_1

pub one_used-StoreOk : StoreOk one_used
one_used-StoreOk =
    set-StoreOk memstore_init 1 letters memstore_init-StoreOk (omega arith) letters-SlotOk
      (unfold alloc_size in omega arith) (omega arith)

-- A file of two bytes under every name.
abbrev pub small_file : Stdio ℕ
small_file = record {
  fopen_read = λ name w. (some 3, w);
  fopen_write = λ name w. (none, w);
  seek_end = λ file w. (true, w);
  seek_start = λ file w. (true, w);
  ftell = λ file w. (pos 2, w);
  fread = λ count file w. (take count (1 ∷ 2 ∷ []), w);
  fwrite = λ bytes file w. (0, w);
  fclose = λ file w. w;
}

pub small_file-StdioLaws : StdioLaws ℕ small_file
small_file-StdioLaws = record {
  fread_bound = λ count file w. omega (arith, length-take {A = ℕ} count (1 ∷ 2 ∷ []));
}
