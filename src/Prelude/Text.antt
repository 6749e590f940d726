-- ===== src/Prelude/Text.antt =====
-- C strings as lists of character codes.
use Prim.Native.Nat.{ℕ, ◌<◌}
use Prim.Native.Char.{code}
use Prim.Native.String.{String}
use mathlib.Core.Bool.{Bool, true, false, ◌&&◌}
use mathlib.Core.List.{List, [], ◌∷◌}
use mathlib.Core.Option.{Option, none, some}
use mathlib.Core.Path.{◌≡◌, refl, ap}
use mathlib.Core.Logic.{◌≢◌}
use native.Mathlib.Omega.{arith}
use cpc_cplink.Prelude.Tests.{◌==◌, ltb, if◌then◌else◌}
use cpc_cplink.Prelude.Lists.{length, All}

-- The bytes of an ASCII literal, without the NUL.
abbrev pub codes : String → List ℕ
codes String.[] = []
codes (String.◌∷◌ c s) = code c ∷ codes s

-- The bytes before the first NUL.
unfoldable pub c_string : List ℕ → List ℕ
c_string [] = []
c_string (b ∷ bs) = if b == 0 then [] else b ∷ c_string bs

-- The C string at the start of a buffer of `size` bytes, whose bytes behind those given are 0, and
-- `none` where the buffer has no NUL.
unfoldable pub buffer_string : ℕ → List ℕ → Option (List ℕ)
buffer_string size bytes =
    let text = c_string bytes in if ltb (length text) size then some text else none

c_string-text : (bytes : List ℕ) → All (λ b. b ≢ 0) bytes → c_string bytes ≡ bytes
unfolding c_string
c_string-text [] h = refl
c_string-text (b ∷ bs) h =
    let some_byte : (b == 0) ≡ false = ground (arith, h.0) in
    rw some_byte (ap (λ (rest : List ℕ). b ∷ rest) (c_string-text bs h.1))

pub buffer_string-text :
    (size : ℕ) (bytes : List ℕ)
    → All (λ b. b ≢ 0) bytes
    → length bytes < size
    → buffer_string size bytes ≡ some bytes
unfolding buffer_string
buffer_string-text size bytes h short =
    let fits : ltb (length bytes) size ≡ true = ground arith in
    rw (c_string-text bytes h, fits) refl

unfoldable pub same_bytes : List ℕ → List ℕ → Bool
same_bytes [] [] = true
same_bytes [] (b ∷ bs) = false
same_bytes (a ∷ xs) [] = false
same_bytes (a ∷ xs) (b ∷ bs) = a == b && same_bytes xs bs

-- `strcmp(a, b) == 0` on buffers.
unfoldable pub strcmp_eq : List ℕ → List ℕ → Bool
unfolding c_string same_bytes
strcmp_eq a b = same_bytes (c_string a) (c_string b)
