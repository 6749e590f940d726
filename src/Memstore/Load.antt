-- ===== src/Memstore/Load.antt =====
-- memstore_manager.c: `memstore_load_data` on a store in order, on every branch.
use cpc_cplink.Prelude.{
  ℕ, ◌*◌, ◌≤◌, ◌<◌, ◌≡◌, ◌≢◌, refl, sym, ap₂, ◌∙◌, Bool, true, false, Option, none, some, List,
  length, replicate, length-replicate, set, leb, ◌==◌, Bool-cases, inl, inr, leb→le, arith,
}
use cpc_cplink.Prelude.Int.{ℤ, pos, leb_ℤ}
use cpc_cplink.Prelude.Splice.{splice, length-splice}
use cpc_cplink.Memstore.{
  MemoryAllocation, Memstore, slot, max_memory_allocations, alloc_size, is_allocated, copy_block,
}
use cpc_cplink.Memstore.Valid.{SlotOk, taken, slot-set_ne, block_of}
use cpc_cplink.Memstore.Keeps.{StoreOk, set-StoreOk}
use cpc_cplink.Memstore.Files.{
  Stdio, StdioLaws, Loaded, clear_block, close_failed, read_file, load_opened, close_open,
  close_earlier, load_found, open_and_load, memstore_load_data,
}

-- The allocation `a` with another block of the same size, or another file.
pub record Intact (a a' : MemoryAllocation) : Type 0 where
  pub same_id : a'.allocation_id ≡ a.allocation_id
  pub same_pages : a'.number_pages ≡ a.number_pages
  pub same_page_size : a'.page_size ≡ a.page_size
  pub block : List ℕ
  pub block_is : a'.data_block ≡ some block
  pub full : length block ≡ alloc_size a

-- New contents of the block that fit into it.
copied :
    (a b : MemoryAllocation) (values : List ℕ) (ok : Intact a b)
    → length values ≤ alloc_size a
    → (copy_block ok.block 0 values ≡ some (splice ok.block 0 values))
      × Intact a (record b { data_block = some (splice ok.block 0 values) })
unfolding copy_block
copied a b values ok fits = (
  (let full = ok.full in ground arith),
  record {
    same_id = ok.same_id;
    same_pages = ok.same_pages;
    same_page_size = ok.same_page_size;
    block = splice ok.block 0 values;
    block_is = refl;
    full = length-splice ok.block 0 values (let f = ok.full in omega arith) ∙ ok.full;
  },
)

same_alloc_size : (a b : MemoryAllocation) → Intact a b → alloc_size b ≡ alloc_size a
unfolding alloc_size
same_alloc_size a b ok = ap₂ (λ x y. x * y) ok.same_pages ok.same_page_size

clear_block-Intact :
    (a b : MemoryAllocation)
    → Intact a b
    → (b' : MemoryAllocation) × (clear_block b ≡ some b') × Intact a b'
unfolding clear_block alloc_size
clear_block-Intact a b ok =
    let zeros = replicate (alloc_size b) 0 in
    let small : length zeros ≤ alloc_size a =
      omega (arith, length-replicate {A = ℕ} (alloc_size b) 0, same_alloc_size a b ok) in
    let (e, intact) = copied a b zeros ok small in
    (record b { data_block = some (splice ok.block 0 zeros) }, rw (ok.block_is, e) refl, intact)

-- The same allocation with another file, or file size.
refiled :
    (a b : MemoryAllocation) (f : Option ℕ) (n : ℤ)
    → Intact a b
    → Intact a (record b { file_id = f; file_size = n })
refiled a b f n ok = record {
  same_id = ok.same_id;
  same_pages = ok.same_pages;
  same_page_size = ok.same_page_size;
  block = ok.block;
  block_is = ok.block_is;
  full = ok.full;
}

module _ {F : Type 0} (io : Stdio F) (a : MemoryAllocation) where
  -- A step of the load that ends, with the allocation intact.
  abbrev Ends : Option (Loaded F) → Type 0
  Ends o = (r : Loaded F) × (o ≡ some r) × Intact a r.allocation

  close_failed-Ends :
      (file : ℕ) (big : Bool) (b : MemoryAllocation) (w : F)
      → Intact a b
      → Ends (close_failed io file big b w)
  unfolding close_failed
  close_failed-Ends file big b w ok =
      let (b', e, intact) =
        clear_block-Intact a (record b { file_id = none }) (refiled a b none b.file_size ok) in
      (
        record {
          read_file_ok = false;
          file_length = pos 0;
          file_to_large = big;
          allocation = b';
          files = io.fclose file w;
        },
        rw e refl,
        intact,
      )

  read_file-Ends :
      (file n : ℕ) (b : MemoryAllocation) (w : F)
      → StdioLaws F io
      → Intact a b
      → n ≤ alloc_size a
      → Ends (read_file io file (pos n) b w)
  unfolding read_file
  read_file-Ends file n b w laws ok fits =
      let bytes = (io.fread n file w).0 in
      let w' = (io.fread n file w).1 in
      let (e, intact) = copied a b bytes ok (omega (arith, laws.fread_bound n file w)) in
      let b' : MemoryAllocation = record b { data_block = some (splice ok.block 0 bytes) } in
      elim (Bool-cases (length bytes == 0)) [
        | inl empty ↦
            let (r, f, i) = close_failed-Ends file false b' w' intact in
            (r, rw (ok.block_is, e, empty) f, i)
        | inr got ↦ (
          record {
            read_file_ok = true;
            file_length = pos n;
            file_to_large = false;
            allocation = record b' { file_size = pos n };
            files = w';
          },
          rw (ok.block_is, e, got) refl,
          refiled a b' b'.file_id (pos n) intact,
        )
      ]

  -- Where a seek or `ftell` fails, or the file is too large, the load ends all the same.
  load_opened-Ends :
      (file n : ℕ) (b : MemoryAllocation) (w : F)
      → StdioLaws F io
      → Intact a b
      → (io.ftell file (io.seek_end file w).1).0 ≡ pos n
      → Ends (load_opened io file b w)
  unfolding load_opened
  load_opened-Ends file n b w laws ok told =
      let w1 = (io.seek_end file w).1 in
      let w2 = (io.ftell file w1).1 in
      let w3 = (io.seek_start file w2).1 in
      let size = same_alloc_size a b ok in
      elim (Bool-cases (io.seek_end file w).0) [
        | inr e ↦ rw e (close_failed-Ends file false b w1 ok)
        | inl e ↦ elim (Bool-cases (leb n (alloc_size b))) [
          | inr big ↦
              let no : leb_ℤ (pos n) (pos (alloc_size b)) ≡ false = ground arith in
              rw (e, told, no) (close_failed-Ends file true b w2 ok)
          | inl fits ↦
              let yes' : leb_ℤ (pos n) (pos (alloc_size b)) ≡ true = ground arith in
              elim (Bool-cases (io.seek_start file w2).0) [
                | inr f ↦ rw (e, told, yes', f) (close_failed-Ends file false b w3 ok)
                | inl f ↦
                    rw (e, told, yes', f)
                      (read_file-Ends file n b w3 laws ok
                        (let le = leb→le n (alloc_size b) fits in omega arith))
              ]
        ]
      ]

  load_found-Ends :
      (b : MemoryAllocation) (opened : Option ℕ × F)
      → StdioLaws F io
      → Intact a b
      → ((file : ℕ) (w' : F) → (n : ℕ) × ((io.ftell file w').0 ≡ pos n))
      → Ends (load_found io b opened)
  unfolding load_found
  load_found-Ends b (none, w) laws ok tells = (
    record {
      read_file_ok = false;
      file_length = pos 0;
      file_to_large = false;
      allocation = record b { file_id = none };
      files = w;
    },
    refl,
    refiled a b none b.file_size ok,
  )
  load_found-Ends b (some file, w) laws ok tells =
      let (n, told) = tells file (io.seek_end file w).1 in
      load_opened-Ends file n (record b { file_id = some file }) w laws
        (refiled a b (some file) b.file_size ok) told

  close_open-Intact :
      (b : MemoryAllocation) (w : F) (o : Option ℕ)
      → Intact a b
      → (b' : MemoryAllocation) × (w' : F) × (close_open io b w o ≡ some (b', w')) × Intact a b'
  unfolding close_open
  close_open-Intact b w none ok = (b, w, refl, ok)
  close_open-Intact b w (some file) ok =
      let (b', c, intact) =
        clear_block-Intact a (record b { file_id = none }) (refiled a b none b.file_size ok) in
      (b', io.fclose file w, rw c refl, intact)

pub allocated_at :
    (m : Memstore) (id : ℕ)
    → is_allocated m id ≡ true
    → (0 < id) × (id < max_memory_allocations) × ((slot m id).allocation_id ≡ id)
unfolding is_allocated
allocated_at m id e = (ground arith, ground arith, ground arith)

-- What a load has done to the store: the allocation that it loads to is intact, with another block
-- of the same size at most; no other allocation changes; and the store is in order.
pub record Keeps (m m' : Memstore) (id : ℕ) : Type 0 where
  pub others : (j : ℕ) → j ≢ id → slot m' j ≡ slot m j
  pub in_order : StoreOk m'

-- `memstore_load_data` on a store in order, whatever fails on the way, where `fread` delivers no more
-- than it is asked for and `ftell` succeeds: it returns, no byte is written outside the allocation,
-- no other allocation changes, and the store stays in order.
pub memstore_load_data-Keeps :
    {F : Type 0} (io : Stdio F) (m : Memstore) (id : ℕ) (file_name : List ℕ) (w : F)
    → StdioLaws F io
    → ((file : ℕ) (w' : F) → (n : ℕ) × ((io.ftell file w').0 ≡ pos n))
    → StoreOk m
    → (r : Loaded F) × (m' : Memstore) × (memstore_load_data io m id file_name w ≡ some (r, m'))
      × Keeps m m' id
unfolding memstore_load_data open_and_load close_earlier
memstore_load_data-Keeps io m id file_name w laws tells ok = elim (Bool-cases (is_allocated m id)) [
  | inr refused ↦ (
    record {
      read_file_ok = false;
      file_length = pos 0;
      file_to_large = false;
      allocation = slot m id;
      files = w;
    },
    m,
    rw refused refl,
    record { others = λ j h. refl; in_order = ok },
  )
  | inl yes' ↦
      let (lo, hi, at) = allocated_at m id yes' in
      let a = slot m id in
      let (block, d, l) = block_of m id ok.valid lo hi at in
      let whole : Intact a a = record {
        same_id = refl;
        same_pages = refl;
        same_page_size = refl;
        block = block;
        block_is = d;
        full = l;
      } in
      let (b, w1, closed, kept) = close_open-Intact io a a w a.file_id whole in
      let (r, loaded, done) = load_found-Ends io a b (io.fopen_read file_name w1) laws kept tells in
      let stays : SlotOk id r.allocation =
        taken done.block (done.same_id ∙ at) done.block_is
          (done.full ∙ sym (same_alloc_size a r.allocation done)) in
      (
        r,
        set m id r.allocation,
        rw (yes', closed, loaded) refl,
        record {
          others = λ j h. slot-set_ne m id j r.allocation (λ e. h (sym e));
          in_order =
              set-StoreOk m id r.allocation ok hi stays
                (omega (arith, same_alloc_size a r.allocation done, ok.bounded id hi))
                (omega (arith, done.same_page_size, ok.pages_bounded id hi));
        },
      )
]
