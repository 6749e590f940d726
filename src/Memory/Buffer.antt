-- ===== src/Memory/Buffer.antt =====
-- command_memory.c: the buffers that SALLOC and IALLOC get from `calloc` and read a packet into.
use cpc_cplink.Prelude.{
  ℕ, ◌+◌, ◌≤◌, ◌<◌, ◌≡◌, refl, ap, ◌∙◌, false, Option, some, List, length, length-replicate, ltb,
  arith,
}
use cpc_cplink.Prelude.Int.{ℤ, pos, negsuc, pos_part, to_size, add_int32}
use cpc_cplink.Memstore.{Calloc}
use cpc_cplink.Memory.{new_buffer}
use cpc_cplink.Memory.Writes.{filled, read_into}

-- A buffer for `count` bytes has one byte more.
pub length-new_buffer :
    (c : Calloc) (count : ℕ) (buffer : List ℕ)
    → count < 2147483648
    → new_buffer c (pos count) ≡ some buffer
    → length buffer ≡ count + 1
unfolding new_buffer
length-new_buffer c count buffer small given =
    let n : to_size (add_int32 (pos count) (pos 1)) ≡ count + 1 = ground arith in
    ap length (c.calloc_zeroes _ buffer given) ∙ length-replicate _ 0 ∙ n

-- A buffer that is big enough for the bytes that are read into it.
abbrev pub BigEnough : ℕ → Option (List ℕ) → Type 0
BigEnough n o = (buffer : List ℕ) → o ≡ some buffer → n ≤ length buffer

pub new_buffer-BigEnough :
    (c : Calloc) (count : ℤ)
    → pos_part count < 2147483648
    → BigEnough (pos_part count) (new_buffer c count)
new_buffer-BigEnough c (pos n) small buffer given =
    omega (arith, length-new_buffer c n buffer small given)
new_buffer-BigEnough c (negsuc n) small buffer given = omega arith

pub read_into-fits :
    (buffer values : List ℕ)
    → length values ≤ length buffer
    → read_into buffer values ≡ some (filled buffer values)
unfolding read_into
read_into-fits buffer values fits =
    let e : ltb (length buffer) (length values) ≡ false = ground arith in rw e refl
