-- ===== src/Prelude/Splice.antt =====
-- Copying into the middle of a list, as `memcpy` and `memmove` do to a block.
use Prim.Native.Nat.{ℕ, zero, suc, ◌+◌, ◌-◌, ◌≤◌}
use mathlib.Core.Path.{◌≡◌, refl, sym, ap, ◌∙◌}
use mathlib.Core.List.{List, [], ◌∷◌, ◌++◌, append_assoc}
use native.Mathlib.Omega.{arith}
use cpc_cplink.Prelude.Lists.{
  length, take, drop, length-append, length-take, length-drop, take-append, drop-append, drop-drop,
}

module _ {ℓ} {A : Type ℓ} where
  -- The list with `values` written from index `at` on; what would pass the end is the caller's fault.
  unfoldable pub splice : List A → ℕ → List A → List A
  splice xs at values = take at xs ++ (values ++ drop (at + length values) xs)

  pub length-splice :
      (xs : List A) (at : ℕ) (values : List A)
      → at + length values ≤ length xs
      → length (splice xs at values) ≡ length xs
  unfolding splice
  length-splice xs at values fits = omega (
    arith,
    length-append (take at xs) (values ++ drop (at + length values) xs),
    length-append values (drop (at + length values) xs),
    length-take at xs,
    length-drop (at + length values) xs,
  )

  pub take-append_length : (n : ℕ) (xs ys : List A) → n ≡ length xs → take n (xs ++ ys) ≡ xs
  take-append_length n xs ys e = ap (λ k. take k (xs ++ ys)) e ∙ take-append xs ys

  pub drop-append_length : (n : ℕ) (xs ys : List A) → n ≡ length xs → drop n (xs ++ ys) ≡ ys
  drop-append_length n xs ys e = ap (λ k. drop k (xs ++ ys)) e ∙ drop-append xs ys

  pub length-take_le : (n : ℕ) (xs : List A) → n ≤ length xs → length (take n xs) ≡ n
  length-take_le n xs h = omega (arith, length-take n xs)

  -- What was written is read back.
  pub window-splice_self :
      (xs : List A) (at : ℕ) (values : List A)
      → at ≤ length xs
      → take (length values) (drop at (splice xs at values)) ≡ values
  unfolding splice
  window-splice_self xs at values fits =
      ap (take (length values)) (
        drop-append_length at (take at xs) (values ++ drop (at + length values) xs)
          (sym (length-take_le at xs fits)))
      ∙ take-append values (drop (at + length values) xs)

  pub take-take : (m n : ℕ) (xs : List A) → m ≤ n → take m (take n xs) ≡ take m xs
  take-take zero n xs h = refl
  take-take (suc m) zero xs h = absurd (omega arith)
  take-take (suc m) (suc n) [] h = refl
  take-take (suc m) (suc n) (x ∷ xs) h = ap (λ t. x ∷ t) (take-take m n xs (omega arith))

  pub take-append_le : (n : ℕ) (xs ys : List A) → n ≤ length xs → take n (xs ++ ys) ≡ take n xs
  take-append_le zero xs ys h = refl
  take-append_le (suc n) [] ys h = absurd (omega arith)
  take-append_le (suc n) (x ∷ xs) ys h = ap (λ t. x ∷ t) (take-append_le n xs ys (omega arith))

  pub drop-append_le :
      (n : ℕ) (xs ys : List A) → n ≤ length xs → drop n (xs ++ ys) ≡ drop n xs ++ ys
  drop-append_le zero xs ys h = refl
  drop-append_le (suc n) [] ys h = absurd (omega arith)
  drop-append_le (suc n) (x ∷ xs) ys h = drop-append_le n xs ys (omega arith)

  pub take-drop :
      (m n k : ℕ) (xs : List A) → n + m ≤ k → take m (drop n (take k xs)) ≡ take m (drop n xs)
  take-drop m zero k xs h = take-take m k xs (omega arith)
  take-drop m (suc n) zero xs h = absurd (omega arith)
  take-drop m (suc n) (suc k) [] h = refl
  take-drop m (suc n) (suc k) (x ∷ xs) h = take-drop m n k xs (omega arith)

  -- What stands before the written bytes is Untouched-refl,
  pub window-splice_before :
      (xs : List A) (at : ℕ) (values : List A) (from size : ℕ)
      → from + size ≤ at
      → at ≤ length xs
      → take size (drop from (splice xs at values)) ≡ take size (drop from xs)
  unfolding splice
  window-splice_before xs at values from size before fits =
      let tail : List A = values ++ drop (at + length values) xs in
      let held = length-take_le at xs fits in
      ap (take size) (drop-append_le from (take at xs) tail (omega arith))
      ∙ take-append_le size (drop from (take at xs)) tail
          (omega (arith, length-drop from (take at xs)))
      ∙ take-drop size from at xs before

  -- and so is what stands behind them.
  pub drop-splice_after :
      (xs : List A) (at : ℕ) (values : List A) (from : ℕ)
      → at + length values ≤ from
      → at ≤ length xs
      → drop from (splice xs at values) ≡ drop from xs
  unfolding splice
  drop-splice_after xs at values from after fits =
      let whole : List A = take at xs ++ (values ++ drop (at + length values) xs) in
      let more = from - (at + length values) in
      let e : from ≡ at + length values + more = omega arith in
      let front : drop (at + length values) whole ≡ drop (at + length values) xs =
        ap (drop (at + length values))
          (sym (append_assoc (take at xs) values (drop (at + length values) xs)))
        ∙ drop-append_length (at + length values) (take at xs ++ values)
            (drop (at + length values) xs)
            (omega (arith, length-append (take at xs) values, length-take_le at xs fits)) in
      ap (λ k. drop k whole) e
      ∙ sym (drop-drop more (at + length values) whole)
      ∙ ap (drop more) front
      ∙ drop-drop more (at + length values) xs
      ∙ ap (λ k. drop k xs) (sym e)
