-- ===== src/Memstore/Files.antt =====
-- memstore_manager.c: `memstore_load_data` and `memstore_save_data`. The C library's functions on
-- files are parameters, in the record `Stdio` over what they keep of their own, `F`.
use cpc_cplink.Prelude.{
  ℕ, ◌≤◌, Bool, true, false, ◌&&◌, not, Option, none, some, List, length, replicate, take, set, leb,
  ◌==◌, if◌then◌else◌, ◌>>=◌,
}
use cpc_cplink.Prelude.Int.{ℤ, pos, leb_ℤ, ltb_ℤ, to_size}
use cpc_cplink.Memstore.{MemoryAllocation, Memstore, slot, alloc_size, is_allocated, copy_block}

-- A `FILE *` is a number; `none` is NULL. A seek that returns 0 is true. `fread` and `fwrite` take
-- the number of bytes, `count` of size 1; what `fread` puts into memory is a list.
pub record Stdio (F : Type 0) : Type 0 where
  pub fopen_read : List ℕ → F → Option ℕ × F
  pub fopen_write : List ℕ → F → Option ℕ × F
  pub seek_end : ℕ → F → Bool × F
  pub seek_start : ℕ → F → Bool × F
  pub ftell : ℕ → F → ℤ × F
  pub fread : ℕ → ℕ → F → List ℕ × F
  pub fwrite : List ℕ → ℕ → F → ℕ × F
  pub fclose : ℕ → F → F

-- `fread` delivers no more than it is asked for, and `fwrite` takes no more than it is given.
pub record StdioLaws (F : Type 0) (io : Stdio F) : Type 0 where
  pub fread_bound : (count file : ℕ) (w : F) → length (io.fread count file w).0 ≤ count

-- What the two functions leave: the result, `*file_size` and `*file_to_large` (both 0 before the
-- call), the allocation and the files.
pub record Loaded (F : Type 0) : Type 0 where
  pub read_file_ok : Bool
  pub file_length : ℤ
  pub file_to_large : Bool
  pub allocation : MemoryAllocation
  pub files : F

-- `memset(allocation->data, 0, number_pages * page_size)`
unfoldable pub clear_block : MemoryAllocation → Option MemoryAllocation
clear_block a = do
  block ← a.data_block
  block' ← copy_block block 0 (replicate (alloc_size a) 0)
  some (record a { data_block = some block' })

module _ {F : Type 0} (io : Stdio F) where
  -- The end of every failure behind an open file.
  unfoldable pub close_failed : ℕ → Bool → MemoryAllocation → F → Option (Loaded F)
  close_failed file too_large a w = do
    a' ← clear_block (record a { file_id = none })
    some (record {
      read_file_ok = false;
      file_length = pos 0;
      file_to_large = too_large;
      allocation = a';
      files = io.fclose file w;
    })

  -- `fread(data, 1, file_length, file_id)`, and what follows it.
  unfoldable pub read_file : ℕ → ℤ → MemoryAllocation → F → Option (Loaded F)
  read_file file file_length a w =
      let (bytes, w') = io.fread (to_size file_length) file w in
      do
        block ← a.data_block
        block' ← copy_block block 0 bytes
        (if length bytes == 0
            then close_failed file false (record a { data_block = some block' }) w'
            else some (record {
              read_file_ok = true;
              file_length = file_length;
              file_to_large = false;
              allocation = record a { data_block = some block'; file_size = file_length };
              files = w';
            }))

  unfoldable pub load_opened : ℕ → MemoryAllocation → F → Option (Loaded F)
  load_opened file a w =
      let (at_end, w1) = io.seek_end file w in
      if not at_end
      then close_failed file false a w1
      else (let (file_length, w2) = io.ftell file w1 in
          if not (leb_ℤ file_length (pos (alloc_size a)))
          then close_failed file true a w2
          else (let (at_start, w3) = io.seek_start file w2 in
              if not at_start
              then close_failed file false a w3
              else read_file file file_length a w3))

  -- `close_open` is by the file of an earlier load: it is closed, and the memory cleared.
  unfoldable pub close_open : MemoryAllocation → F → Option ℕ → Option (MemoryAllocation × F)
  close_open a w none = some (a, w)
  close_open a w (some file) = do
    a' ← clear_block (record a { file_id = none })
    some (a', io.fclose file w)

  unfoldable pub close_earlier : MemoryAllocation → F → Option (MemoryAllocation × F)
  close_earlier a w = close_open a w a.file_id

  -- Behind `fopen(file_name, "r")`.
  unfoldable pub load_found : MemoryAllocation → Option ℕ × F → Option (Loaded F)
  load_found a (none, w) = some (record {
    read_file_ok = false;
    file_length = pos 0;
    file_to_large = false;
    allocation = record a { file_id = none };
    files = w;
  })
  load_found a (some file, w) = load_opened file (record a { file_id = some file }) w

  unfoldable pub open_and_load : List ℕ → MemoryAllocation → F → Option (Loaded F)
  open_and_load file_name a w = load_found a (io.fopen_read file_name w)

  -- The name is never NULL at a call.
  unfoldable pub memstore_load_data : Memstore → ℕ → List ℕ → F → Option (Loaded F × Memstore)
  memstore_load_data memstore allocation_id file_name w =
      if is_allocated memstore allocation_id
      then (do
        (a, w1) ← close_earlier (slot memstore allocation_id) w
        r ← open_and_load file_name a w1
        some (r, set memstore allocation_id r.allocation))
      else some (
        record {
          read_file_ok = false;
          file_length = pos 0;
          file_to_large = false;
          allocation = slot memstore allocation_id;
          files = w;
        },
        memstore,
      )

  -- Behind `fopen(file_name, "w")`: `fwrite` of the first `file_size` bytes of the block, where they
  -- are in it, and the file closed either way.
  unfoldable pub save_opened : ℕ → ℕ → MemoryAllocation → F → Option (Bool × F)
  save_opened file file_size a w =
      if leb file_size (alloc_size a)
      then (do
        block ← a.data_block
        (if leb file_size (length block)
            then (let (written, w1) = io.fwrite (take file_size block) file w in
                some (not (written == 0), io.fclose file w1))
            else none))
      else some (false, io.fclose file w)

  -- `save_found` is behind `fopen(file_name, "w")`.
  unfoldable pub save_found :
      Memstore → ℕ → MemoryAllocation → Option ℕ × F → Option (Bool × Memstore × F)
  save_found m file_size a (none, w) = some (false, m, w)
  save_found m file_size a (some file, w) = do
    (saved, w') ← save_opened file file_size a w
    some (saved, m, w')

  unfoldable pub close_file : Option ℕ → F → F
  close_file none w = w
  close_file (some file) w = io.fclose file w

  unfoldable pub memstore_save_data : Memstore → ℕ → List ℕ → ℤ → F → Option (Bool × Memstore × F)
  memstore_save_data memstore allocation_id file_name file_size w =
      if is_allocated memstore allocation_id && ltb_ℤ (pos 0) file_size
      then (let a = slot memstore allocation_id in
          save_found (set memstore allocation_id (record a { file_id = none })) (to_size file_size)
            a (io.fopen_write file_name (close_file a.file_id w)))
      else some (false, memstore, w)
