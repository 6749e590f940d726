-- ===== src/Memstore/Block.antt =====
-- memstore_manager.c: what an insertion and a cut do to the block of an allocation.
use Prim.Native.Nat.{◌+◌}
use cpc_cplink.Prelude.{
  ℕ, zero, suc, ◌-◌, ◌≤◌, ◌≡◌, refl, sym, ap, ap₂, ◌∙◌, some, List, [], ◌∷◌, ◌++◌, append_assoc,
  append-nil, arith, length, take, drop, replicate, take-all, drop-all, length-drop, length-append,
  length-replicate,
}
use cpc_cplink.Prelude.Splice.{
  splice, length-splice, take-append_length, drop-append_length, length-take_le, take-append_le,
  take-take,
}
use cpc_cplink.Memstore.{move_block, copy_block, bytes_left, insert_block, cut_block}

-- The block with bytes put in at `at`; what stands from there on moves up, and falls off the end.
abbrev pub inserted : List ℕ → ℕ → List ℕ → List ℕ
inserted block at values =
    take at block ++ (values ++ take (length block - at - length values) (drop at block))

-- The block with `count` bytes taken out at `at`, and filled up with 0.
abbrev pub cut : List ℕ → ℕ → ℕ → List ℕ
cut block at count = take at block ++ (drop (at + count) block ++ replicate count 0)

-- The front of a spliced list.
take-splice :
    (xs : List ℕ) (at : ℕ) (values : List ℕ) (n : ℕ)
    → n ≤ at
    → at ≤ length xs
    → take n (splice xs at values) ≡ take n xs
unfolding splice
take-splice xs at values n le fits =
    take-append_le n (take at xs) (values ++ drop (at + length values) xs)
      (omega (arith, length-take_le at xs fits))
    ∙ take-take n at xs le

-- A list spliced up to its end.
splice_to_end :
    (xs : List ℕ) (at : ℕ) (values : List ℕ)
    → at + length values ≡ length xs
    → splice xs at values ≡ take at xs ++ values
unfolding splice
splice_to_end xs at values e =
    ap (λ t. take at xs ++ (values ++ t)) (drop-all (at + length values) xs (omega arith))
    ∙ ap (λ t. take at xs ++ t) (append-nil values)

splice_lem :
    (xs : List ℕ) (at : ℕ) (values : List ℕ)
    → splice xs at values ≡ take at xs ++ (values ++ drop (at + length values) xs)
unfolding splice
splice_lem xs at values = refl

bytes_left_ok :
    (total at count : ℕ)
    → at + count ≤ total
    → bytes_left total at count ≡ some (total - at - count)
unfolding bytes_left
bytes_left_ok total at count h = ground arith

move_ok :
    (block : List ℕ) (to from count : ℕ)
    → to + count ≤ length block
    → from + count ≤ length block
    → move_block block to from count ≡ some (splice block to (take count (drop from block)))
unfolding move_block
move_ok block to from count h k = ground arith

copy_ok :
    (block : List ℕ) (at : ℕ) (values : List ℕ)
    → at + length values ≤ length block
    → copy_block block at values ≡ some (splice block at values)
unfolding copy_block
copy_ok block at values h = ground arith

module _ (block : List ℕ) (at count : ℕ) (fits : at + count ≤ length block) where
  abbrev left_count : ℕ
  left_count = length block - at - count

  abbrev moved_up : List ℕ
  moved_up = take left_count (drop at block)

  length-moved_up : length moved_up ≡ left_count
  length-moved_up = length-take_le left_count (drop at block) (omega (arith, length-drop at block))

  -- The block after the `memmove` of an insertion, and after the `memcpy` into it.
  moved_lem :
      (splice block (at + count) moved_up ≡ take (at + count) block ++ moved_up)
      × (length (splice block (at + count) moved_up) ≡ length block)
  moved_lem = (
    splice_to_end block (at + count) moved_up (omega (arith, length-moved_up)),
    length-splice block (at + count) moved_up (omega (arith, length-moved_up)),
  )

  copied_lem :
      (values : List ℕ)
      → length values ≡ count
      → splice (splice block (at + count) moved_up) at values ≡ inserted block at values
  copied_lem values e =
      let moved = splice block (at + count) moved_up in
      let behind : drop (at + length values) moved ≡ moved_up =
        ap (λ k. drop (at + k) moved) e
        ∙ ap (drop (at + count)) moved_lem.0
        ∙ drop-append_length (at + count) (take (at + count) block) moved_up
            (sym (length-take_le (at + count) block fits)) in
      let front : take at moved ≡ take at block =
        take-splice block (at + count) moved_up at (omega arith) fits in
      splice_lem moved at values
      ∙ ap₂ (λ a b. a ++ (values ++ b)) front behind
      ∙ ap (λ k. take at block ++ (values ++ take (length block - at - k) (drop at block))) (sym e)

  -- `insert_block` stays inside the block, and inserts.
  pub insert_block-inserted :
      (values : List ℕ)
      → count ≤ length values
      → insert_block (length block) block at count values
        ≡ some (inserted block at (take count values))
  unfolding insert_block
  insert_block-inserted values enough =
      let sized = length-take_le count values enough in
      rw
        (
          bytes_left_ok (length block) at count fits,
          move_ok block (at + count) at left_count (omega arith) (omega arith),
          copy_ok (splice block (at + count) moved_up) at (take count values)
              (omega (arith, moved_lem.1, sized)),
        )
        (ap some (copied_lem (take count values) sized))

  abbrev moved_down : List ℕ
  moved_down = take left_count (drop (at + count) block)

  moved_down_lem : moved_down ≡ drop (at + count) block
  moved_down_lem =
      take-all left_count (drop (at + count) block) (omega (arith, length-drop (at + count) block))

  length-moved_down : length moved_down ≡ left_count
  length-moved_down =
      length-take_le left_count (drop (at + count) block)
        (omega (arith, length-drop (at + count) block))

  zeroed_lem :
      splice (splice block at moved_down) (length block - count) (replicate count 0)
      ≡ cut block at count
  zeroed_lem =
      let zeros = replicate {A = ℕ} count 0 in
      let moved = splice block at moved_down in
      let size : length moved ≡ length block =
        length-splice block at moved_down (omega (arith, length-moved_down)) in
      let kept : length block - count ≡ length (take at block ++ moved_down) = omega (
        arith,
        length-append (take at block) moved_down,
        length-take_le at block (omega arith),
        length-moved_down,
      ) in
      let front : take (length block - count) moved ≡ take at block ++ moved_down =
        ap (take (length block - count)) (
          splice_lem block at moved_down
          ∙ sym (append_assoc (take at block) moved_down (drop (at + length moved_down) block)))
        ∙ take-append_length (length block - count) (take at block ++ moved_down)
            (drop (at + length moved_down) block) kept in
      splice_to_end moved (length block - count) zeros
        (omega (arith, size, length-replicate {A = ℕ} count 0))
      ∙ ap (λ t. t ++ zeros) front
      ∙ append_assoc (take at block) moved_down zeros
      ∙ ap (λ t. take at block ++ (t ++ zeros)) moved_down_lem

  -- `cut_block` stays inside the block, and cuts.
  pub cut_block-cut : cut_block (length block) block at count ≡ some (cut block at count)
  unfolding cut_block
  cut_block-cut =
      rw
        (
          bytes_left_ok (length block) at count fits,
          move_ok block at (at + count) left_count (omega arith) (omega arith),
          copy_ok (splice block at moved_down) (length block - count) (replicate count 0) (
              omega (
                arith,
                length-splice block at moved_down (omega (arith, length-moved_down)),
                length-replicate {A = ℕ} count 0,
              )),
        )
        (ap some zeroed_lem)

take-nil : (n : ℕ) → [] ≡ take {A = ℕ} n []
take-nil zero = refl
take-nil (suc n) = refl

take-append-take : (m n : ℕ) (xs : List ℕ) → take m xs ++ take n (drop m xs) ≡ take (m + n) xs
take-append-take zero n xs = ap (λ k. take k xs) (omega arith)
take-append-take (suc m) zero [] = take-nil (suc m + 0)
take-append-take (suc m) (suc n) [] = take-nil (suc m + suc n)
take-append-take (suc m) n (x ∷ xs) =
    let e : suc (m + n) ≡ suc m + n = omega arith in
    ap (λ t. x ∷ t) (take-append-take m n xs) ∙ ap (λ k. take k (x ∷ xs)) e

-- What was inserted is cut out again: an insertion followed by a cut of the same bytes gives the
-- block back, with 0 for the bytes that had fallen off its end.
pub cut-inserted :
    (block : List ℕ) (at : ℕ) (values : List ℕ)
    → at + length values ≤ length block
    → cut (inserted block at values) at (length values)
      ≡ take (length block - length values) block ++ replicate (length values) 0
cut-inserted block at values fits =
    ap₂ (λ a b. a ++ (b ++ zeros)) front behind
    ∙ sym (append_assoc (take at block) rest zeros)
    ∙ ap (λ t. t ++ zeros) (joined ∙ ap (λ k. take k block) (omega arith))
  where
    zeros : List ℕ
    zeros = replicate (length values) 0

    rest : List ℕ
    rest = take (length block - at - length values) (drop at block)

    held : length (take at block) ≡ at
    held = length-take_le at block (omega arith)

    front : take at (inserted block at values) ≡ take at block
    front = take-append_length at (take at block) (values ++ rest) (sym held)

    behind : drop (at + length values) (inserted block at values) ≡ rest
    behind =
        ap (drop (at + length values)) (sym (append_assoc (take at block) values rest))
        ∙ drop-append_length (at + length values) (take at block ++ values) rest
            (omega (arith, length-append (take at block) values, held))

    joined : take at block ++ rest ≡ take (at + (length block - at - length values)) block
    joined = take-append-take at (length block - at - length values) block
