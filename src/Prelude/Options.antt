-- ===== src/Prelude/Options.antt =====
-- Chains of steps that may miss.
use mathlib.Core.Option.{Option, none, some, some-injective}
use mathlib.Core.Path.{◌≡◌, refl, subst}
use mathlib.Core.Logic.{◌⊎◌, inl, inr}

infixl 5 ◌>>=◌ ◌>>◌
abbrev pub ◌>>=◌ {ℓ κ} : {A : Type ℓ} {B : Type κ} → Option A → (A → Option B) → Option B
none >>= f = none
some a >>= f = f a

abbrev pub ◌>>◌ {ℓ κ} : {A : Type ℓ} {B : Type κ} → Option A → Option B → Option B
m >> k = m >>= λ _. k

pub Option-cases {ℓ} : {A : Type ℓ} (o : Option A) → (o ≡ none) ⊎ ((a : A) × (o ≡ some a))
Option-cases none = inl refl
Option-cases (some a) = inr (a, refl)

-- The result has the property, if there is one.
pub data Every {ℓ} {A : Type ℓ} (P : A → Type 0) : Option A → Type ℓ where
  nothing : Every P none
  just : {a : A} → P a → Every P (some a)

pub Every-bind {ℓ κ} :
    {A : Type ℓ} {B : Type κ} {P : A → Type 0} {Q : B → Type 0} {o : Option A} {k : A → Option B}
    → Every P o
    → ((a : A) → P a → Every Q (k a))
    → Every Q (o >>= k)
Every-bind nothing next = nothing
Every-bind (just {a} p) next = next a p

pub Every-some {ℓ} :
    {A : Type ℓ} {P : A → Type 0} {o : Option A} (a : A) → Every P o → o ≡ some a → P a
Every-some b nothing e = absurd (cc)
Every-some {P = P} b (just {a} p) e = subst P (some-injective a b e) p

pub Every-at {ℓ} : {A : Type ℓ} (o : Option A) → Every (λ (a : A). Unit) o
Every-at none = nothing
Every-at (some a) = just tt
