-- ===== src/Memstore/Contents.antt =====
-- memstore_manager.c: what loading a file puts into an allocation.
use cpc_cplink.Prelude.{
  ℕ, ◌+◌, ◌≤◌, ◌<◌, ◌≡◌, ◌≢◌, refl, sym, true, false, none, some, List, length, set, leb, ◌==◌,
  arith,
}
use cpc_cplink.Prelude.Int.{pos, leb_ℤ}
use cpc_cplink.Prelude.Splice.{splice}
use cpc_cplink.Memstore.{Memstore, MemoryAllocation, slot, alloc_size, is_allocated, copy_block}
use cpc_cplink.Memstore.Valid.{IsValid, slot-set_self, slot-set_ne}
use cpc_cplink.Memstore.Load.{allocated_at}
use cpc_cplink.Memstore.Files.{
  Stdio, read_file, load_opened, load_found, open_and_load, close_open, close_earlier,
  memstore_load_data,
}

-- The file is there, can be read, and has the bytes. `reads` says that `fread` delivers all of it.
pub record Readable (F : Type 0) (io : Stdio F) (file_name bytes : List ℕ) (w w4 : F) : Type 0 where
  pub file : ℕ
  pub w1 : F
  pub w2 : F
  pub w3 : F
  pub opens : io.fopen_read file_name w ≡ (some file, w1)
  pub ends : io.seek_end file w1 ≡ (true, w2)
  pub tells : io.ftell file w2 ≡ (pos (length bytes), w3)
  pub rewinds : (io.seek_start file w3).0 ≡ true
  pub reads : io.fread (length bytes) file (io.seek_start file w3).1 ≡ (bytes, w4)

-- The allocation as a file of these bytes leaves it.
abbrev pub holding_file : MemoryAllocation → List ℕ → List ℕ → ℕ → MemoryAllocation
holding_file a block bytes file = record a {
  file_id = some file;
  file_size = pos (length bytes);
  data_block = some (splice block 0 bytes);
}

module _ {F : Type 0} (io : Stdio F) (file_name bytes : List ℕ) (w w4 : F)
    (r : Readable F io file_name bytes w w4) (some_bytes : 0 < length bytes) where
  read_file_reads :
      (a : MemoryAllocation) (block : List ℕ) (w' : F)
      → a.data_block ≡ some block
      → length bytes ≤ length block
      → io.fread (length bytes) r.file w' ≡ (bytes, w4)
      → read_file io r.file (pos (length bytes)) a w'
        ≡ some (record {
          read_file_ok = true;
          file_length = pos (length bytes);
          file_to_large = false;
          allocation = record a {
            data_block = some (splice block 0 bytes);
            file_size = pos (length bytes);
          };
          files = w4;
        })
  unfolding read_file copy_block
  read_file_reads a block w' is fits reads =
      let inside : leb (0 + length bytes) (length block) ≡ true = ground arith in
      let z : (length bytes == 0) ≡ false = ground arith in rw (reads, is, inside, z) refl

  load_found_reads :
      (a : MemoryAllocation) (block : List ℕ)
      → a.data_block ≡ some block
      → length block ≡ alloc_size a
      → length bytes ≤ length block
      → load_found io a (io.fopen_read file_name w)
        ≡ some (record {
          read_file_ok = true;
          file_length = pos (length bytes);
          file_to_large = false;
          allocation = holding_file a block bytes r.file;
          files = w4;
        })
  unfolding load_found load_opened alloc_size
  load_found_reads a block is full fits =
      let inside : leb_ℤ (pos (length bytes)) (pos (alloc_size a)) ≡ true = ground arith in
      let done =
        read_file_reads (record a { file_id = some r.file }) block (io.seek_start r.file r.w3).1 is
          fits r.reads in
      rw (r.opens, r.ends, r.tells, inside, r.rewinds) done

  -- What a load of the file has done: its bytes stand at the start of the block, behind them is what
  -- was there, and no other allocation changes.
  pub memstore_load_data_reads :
      (m : Memstore) (id : ℕ) (block : List ℕ)
      → IsValid m
      → is_allocated m id ≡ true
      → (slot m id).file_id ≡ none
      → (slot m id).data_block ≡ some block
      → length block ≡ alloc_size (slot m id)
      → length bytes ≤ length block
      → (m' : Memstore) × (memstore_load_data io m id file_name w
          ≡ some (
            record {
              read_file_ok = true;
              file_length = pos (length bytes);
              file_to_large = false;
              allocation = holding_file (slot m id) block bytes r.file;
              files = w4;
            },
            m',
          ))
        × (slot m' id ≡ holding_file (slot m id) block bytes r.file)
        × ((j : ℕ) → j ≢ id → slot m' j ≡ slot m j)
  unfolding memstore_load_data open_and_load close_earlier close_open
  memstore_load_data_reads m id block v known closed is full fits =
      let a = slot m id in
      let a' = holding_file a block bytes r.file in
      let (lo, hi, own) = allocated_at m id known in
      let loaded = load_found_reads a block is full fits in
      (
        set m id a',
        rw (known, closed, loaded) refl,
        slot-set_self m id a' (omega (arith, v.size)),
        λ j ne. slot-set_ne m id j a' (λ e. ne (sym e)),
      )
