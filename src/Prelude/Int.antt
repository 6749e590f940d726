-- ===== src/Prelude/Int.antt =====
-- Signed integers over the native numbers, for the `int` values that the program lets go below 0.
use Prim.Native.Nat.{ℕ, suc, ◌+◌, ◌-◌, ◌%◌}
use cpc_cplink.Prelude.Tests.{ltb, leb, ◌==◌, if◌then◌else◌}
use mathlib.Core.Bool.{Bool, false}

-- `negsuc n` is -(n + 1).
pub data ℤ : Type 0 where
  pos : ℕ → ℤ
  negsuc : ℕ → ℤ

abbrev pub pos_part : ℤ → ℕ
pos_part (pos n) = n
pos_part (negsuc n) = 0

abbrev pub neg_part : ℤ → ℕ
neg_part (pos n) = 0
neg_part (negsuc n) = suc n

-- a - b, as an integer.
abbrev pub sub_ℕ : ℕ → ℕ → ℤ
sub_ℕ a b = if leb b a then pos (a - b) else negsuc (b - a - 1)

abbrev pub leb_ℤ : ℤ → ℤ → Bool
leb_ℤ a b = leb (pos_part a + neg_part b) (pos_part b + neg_part a)

infixl 65 ◌-ℤ◌
abbrev pub ◌-ℤ◌ : ℤ → ℤ → ℤ
a -ℤ b = sub_ℕ (pos_part a + neg_part b) (neg_part a + pos_part b)

-- `a == n`, for a number `n`.
abbrev pub is_pos : ℕ → ℤ → Bool
is_pos n (pos a) = a == n
is_pos n (negsuc a) = false

infixl 65 ◌+ℤ◌
abbrev pub ◌+ℤ◌ : ℤ → ℤ → ℤ
a +ℤ b = sub_ℕ (pos_part a + pos_part b) (neg_part a + neg_part b)

abbrev pub ltb_ℤ : ℤ → ℤ → Bool
ltb_ℤ a b = ltb (pos_part a + neg_part b) (pos_part b + neg_part a)

-- The `int` that a 32-bit pattern stands for.
abbrev pub to_int32 : ℕ → ℤ
to_int32 w = if ltb w 2147483648 then pos w else negsuc (4294967296 - w - 1)

-- The sum of two `int`s as the machine makes it: the sum of the numbers, wrapped to 32 bits.
abbrev pub add_int32 : ℤ → ℤ → ℤ
add_int32 a b =
    to_int32 ((4294967296 + pos_part a + pos_part b - (neg_part a + neg_part b)) % 4294967296)

-- The difference of two `int`s, in the same way.
abbrev pub sub_int32 : ℤ → ℤ → ℤ
sub_int32 a b =
    to_int32 ((8589934592 + pos_part a + neg_part b - (neg_part a + pos_part b)) % 4294967296)

-- An `int` that is handed over as a `size_t` of 32 bits.
abbrev pub to_size : ℤ → ℕ
to_size (pos n) = n
to_size (negsuc n) = 4294967296 - suc n
