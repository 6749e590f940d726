-- ===== src/Memstore/EditKeeps.antt =====
-- memstore_manager.c: cutting and inserting on a store in order, with any arguments.
use cpc_cplink.Prelude.{
  ℕ, ◌+◌, ◌≤◌, ◌<◌, ◌≡◌, ap, subst, ◌∙◌, Bool, true, false, ◌&&◌, Option, none, some, List, length,
  length-take, replicate, take, drop, set, leb, if◌then◌else◌, ◌>>=◌, Bool-cases, inl, inr, leb→le,
  ◌-◌, Every, nothing, just, Every-bind, Every-at, arith,
}
use native.Mathlib.Decide.{ℕ_discrete}
use cpc_cplink.Prelude.Int.{ℤ, pos, negsuc, pos_part}
use cpc_cplink.Prelude.Splice.{splice, length-splice}
use cpc_cplink.Memstore.{
  Memstore, slot, max_memory_allocations, alloc_size, edit_allowed, memstore_insert_data,
  memstore_cut_data, move_block, copy_block, bytes_left, insert_block, cut_block,
}
use cpc_cplink.Memstore.Valid.{block_of}
use cpc_cplink.Memstore.Edit.{Edited, memstore_insert_data_lem, memstore_cut_data_lem}
use cpc_cplink.Memstore.Keeps.{StoreOk, Safe, refused, reblocked-Ok}

-- What the guard of an edit says where the sum does not wrap.
edit_at :
    (m : Memstore) (id at count : ℕ)
    → at + count < 2147483648
    → edit_allowed m id (pos at) (pos count) ≡ true
    → (0 < id)
      × (id < max_memory_allocations)
      × ((slot m id).allocation_id ≡ id)
      × (0 < count)
      × (at + count < alloc_size (slot m id))
unfolding edit_allowed
edit_at m id at count small e =
    (ground arith, ground arith, ground arith, ground arith, ground arith)

edit_below : (m : Memstore) (id n : ℕ) (count : ℤ) → edit_allowed m id (negsuc n) count ≡ false
unfolding edit_allowed
edit_below m id n count = ground arith

edit_none : (m : Memstore) (id n : ℕ) (at : ℤ) → edit_allowed m id at (negsuc n) ≡ false
unfolding edit_allowed
edit_none m id n at = ground arith

Edited-StoreOk :
    (m m' : Memstore) (id : ℕ) (block : List ℕ) → StoreOk m → Edited m m' id block → StoreOk m'
Edited-StoreOk m m' id block ok e = record {
  valid = e.valid;
  bounded = at;
  pages_bounded = page_at;
}
  where
    at : (j : ℕ) → j < max_memory_allocations → alloc_size (slot m' j) < 2147483648
    at j h = elim (ℕ_discrete j id) [
      | yes same ↦ omega (
        arith,
        ap (λ k. alloc_size (slot m' k)) same,
        e.same_pages,
        ap (λ k. alloc_size (slot m k)) same,
        ok.bounded j h,
      )
      | no ne ↦ rw (e.others j ne) (ok.bounded j h)
    ]

    page_at : (j : ℕ) → j < max_memory_allocations → (slot m' j).page_size < 2147483648
    page_at j h = elim (ℕ_discrete j id) [
      | yes same ↦ omega (
        arith,
        ap (λ k. (slot m' k).page_size) same,
        e.same_page_size,
        ap (λ k. (slot m k).page_size) same,
        ok.pages_bounded j h,
      )
      | no ne ↦ rw (e.others j ne) (ok.pages_bounded j h)
    ]

-- Cutting and inserting return on every store in order and leave it so, whatever the id, the
-- position and the length, where the sum of these does not wrap.
pub cut-Safe :
    (m : Memstore) (id : ℕ) (at count : ℤ)
    → StoreOk m
    → pos_part at + pos_part count < 2147483648
    → Safe (memstore_cut_data m id at count)
unfolding memstore_cut_data
cut-Safe m id (negsuc a) count ok small = rw (edit_below m id a count) (refused m ok)
cut-Safe m id (pos a) (negsuc n) ok small = rw (edit_none m id n (pos a)) (refused m ok)
cut-Safe m id (pos a) (pos n) ok small = elim (Bool-cases (edit_allowed m id (pos a) (pos n))) [
  | inr e ↦ rw e (refused m ok)
  | inl e ↦
      let (lo, hi, own, some_bytes, fits) = edit_at m id a n small e in
      let (block, m', is, done, edit) =
        memstore_cut_data_lem m id a n ok.valid lo hi own some_bytes fits (ok.bounded id hi) in
      (true, m', done, Edited-StoreOk m m' id _ ok edit)
]

pub insert-Safe :
    (m : Memstore) (id : ℕ) (at count : ℤ) (values : List ℕ)
    → StoreOk m
    → pos_part at + pos_part count < 2147483648
    → pos_part count ≤ length values
    → Safe (memstore_insert_data m id at count values)
unfolding memstore_insert_data
insert-Safe m id (negsuc a) count values ok small enough =
    rw (edit_below m id a count) (refused m ok)
insert-Safe m id (pos a) (negsuc n) values ok small enough =
    rw (edit_none m id n (pos a)) (refused m ok)
insert-Safe m id (pos a) (pos n) values ok small enough =
    elim (Bool-cases (edit_allowed m id (pos a) (pos n))) [
      | inr e ↦ rw e (refused m ok)
      | inl e ↦
          let (lo, hi, own, some_bytes, fits) = edit_at m id a n small e in
          let (block, m', is, done, edit) =
            memstore_insert_data_lem m id a n ok.valid lo hi own some_bytes fits (ok.bounded id hi)
              values enough in
          (true, m', done, Edited-StoreOk m m' id _ ok edit)
    ]

-- A block of the same size.
abbrev AsLong : List ℕ → List ℕ → Type 0
AsLong block block' = length block' ≡ length block

spliced :
    (block values : List ℕ) (at : ℕ)
    → Every
        (AsLong block)
        (if leb (at + length values) (length block) then some (splice block at values) else none)
spliced block values at = elim (Bool-cases (leb (at + length values) (length block))) [
  | inl e ↦
      rw e (just (length-splice block at values (leb→le (at + length values) (length block) e)))
  | inr e ↦ rw e nothing
]

copy_keeps : (block values : List ℕ) (at : ℕ) → Every (AsLong block) (copy_block block at values)
unfolding copy_block
copy_keeps block values at = spliced block values at

move_keeps :
    (block : List ℕ) (to from count : ℕ) → Every (AsLong block) (move_block block to from count)
unfolding move_block
move_keeps block to from count =
    elim (Bool-cases (leb (to + count) (length block) && leb (from + count) (length block))) [
      | inr e ↦ rw e nothing
      | inl e ↦
          let le : to + count ≤ length block = ground arith in
          let moved = take count (drop from block) in
          rw e (
            just
              (length-splice block to moved (omega (arith, length-take count (drop from block)))))
    ]

insert_block_keeps :
    (total : ℕ) (block values : List ℕ) (at count : ℕ)
    → Every (AsLong block) (insert_block total block at count values)
unfolding insert_block
insert_block_keeps total block values at count =
    Every-bind (Every-at (bytes_left total at count)) (λ n p.
      Every-bind (move_keeps block (at + count) at n) (λ moved q.
        subst (λ k. Every (λ (b : List ℕ). length b ≡ k) (copy_block moved at (take count values)))
          q (copy_keeps moved (take count values) at)))

cut_block_keeps :
    (total : ℕ) (block : List ℕ) (at count : ℕ)
    → Every (AsLong block) (cut_block total block at count)
unfolding cut_block
cut_block_keeps total block at count = Every-bind (Every-at (bytes_left total at count)) (λ n p.
    Every-bind (move_keeps block at (at + count) n) (λ moved q.
      subst
        (λ k.
          Every (λ (b : List ℕ). length b ≡ k)
            (copy_block moved (total - count) (replicate count 0)))
        q (copy_keeps moved (replicate count 0) (total - count))))

edit_slot :
    (m : Memstore) (id : ℕ) (at count : ℤ)
    → edit_allowed m id at count ≡ true
    → (0 < id) × (id < max_memory_allocations) × ((slot m id).allocation_id ≡ id)
unfolding edit_allowed
edit_slot m id at count e = (ground arith, ground arith, ground arith)

abbrev pub Kept : Bool × Memstore → Type 0
Kept r = StoreOk r.1

edited_keeps :
    (m : Memstore) (id : ℕ) (at count : ℤ) (change : List ℕ → Option (List ℕ))
    → StoreOk m
    → edit_allowed m id at count ≡ true
    → ((block : List ℕ) → Every (AsLong block) (change block))
    → Every Kept (do
      block ← (slot m id).data_block
      block' ← change block
      some (true, set m id (record (slot m id) { data_block = some block' })))
edited_keeps m id at count change ok e same =
    let (lo, hi, own) = edit_slot m id at count e in
    let (block, is, full) = block_of m id ok.valid lo hi own in
    rw is
      (Every-bind (same block) (λ block' p. just (reblocked-Ok m id block' ok hi own (p ∙ full))))

-- Every result of a cut or an insertion is in order, also where the sum wraps.
pub cut-Kept :
    (m : Memstore) (id : ℕ) (at count : ℤ)
    → StoreOk m
    → Every Kept (memstore_cut_data m id at count)
unfolding memstore_cut_data
cut-Kept m id at count ok = elim (Bool-cases (edit_allowed m id at count)) [
  | inr e ↦ rw e (just ok)
  | inl e ↦ rw e (
      edited_keeps m id at count _ ok e
        (λ block. cut_block_keeps (alloc_size (slot m id)) block (pos_part at) (pos_part count)))
]

pub insert-Kept :
    (m : Memstore) (id : ℕ) (at count : ℤ) (values : List ℕ)
    → StoreOk m
    → Every Kept (memstore_insert_data m id at count values)
unfolding memstore_insert_data
insert-Kept m id at count values ok = elim (Bool-cases (edit_allowed m id at count)) [
  | inr e ↦ rw e (just ok)
  | inl e ↦ rw e (
      edited_keeps m id at count _ ok e (λ block.
        insert_block_keeps (alloc_size (slot m id)) block values (pos_part at) (pos_part count)))
]
