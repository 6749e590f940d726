-- ===== src/Processor/States.antt =====
-- command_processor.c: which entry of `command_states` the two searches return.
use cpc_cplink.Prelude.{
  ℕ, zero, suc, ◌+◌, ◌<◌, ◌≡◌, ◌⊎◌, inl, inr, refl, ap, ◌∙◌, Bool, true, false, ◌&&◌, not, Option,
  none, some, List, [], ◌∷◌, arith, get_elem?, ◌==◌, Bool-cases, subst,
}
use cpc_cplink.Command.Id.{unknown}
use cpc_cplink.Server.{CommandState}
use cpc_cplink.Processor.{last_empty, get_empty_command_state, find_due, before}

-- A predicate of every entry of a list, by its index.
abbrev pub Each : (ℕ → CommandState → Type 0) → List CommandState → Type 0
Each P states = (i : ℕ) (c : CommandState) → get_elem? states i ≡ some c → P i c

module _ (P : ℕ → CommandState → Type 0) where
  pub Each-cons :
      (x : CommandState) (xs : List CommandState)
      → P 0 x
      → Each (λ i c. P (suc i) c) xs
      → Each P (x ∷ xs)
  Each-cons x xs p ps zero c e =
      subst (λ (o : Option CommandState). elim o [ none ↦ Unit | some d ↦ P 0 d ]) e p
  Each-cons x xs p ps (suc i) c e = ps i c e

abbrev pub is_free : CommandState → Bool
is_free c = c.command_id == unknown

abbrev pub is_due : ℕ → CommandState → Bool
is_due time c = not (is_free c) && before c.next_exec_time time

-- Entry `i` is free, and none behind it is.
pub record LastFree (states : List CommandState) (i : ℕ) : Type 0 where
  pub entry : CommandState
  pub here : get_elem? states i ≡ some entry
  pub free : is_free entry ≡ true
  pub others : Each (λ j c. i < j → is_free c ≡ false) states

-- Entry `i` is `c` and due, and none before it is.
pub record FirstDue (states : List CommandState) (time i : ℕ) (c : CommandState) : Type 0 where
  pub here : get_elem? states i ≡ some c
  pub due : is_due time c ≡ true
  pub others : Each (λ j d. j < i → is_due time d ≡ false) states

last_empty_lem :
    (n : ℕ) (states : List CommandState) (found : Option ℕ)
    → ((last_empty n states found ≡ found) × Each (λ i c. is_free c ≡ false) states)
      ⊎ ((i : ℕ) × (last_empty n states found ≡ some (n + i)) × LastFree states i)
unfolding last_empty
last_empty_lem n [] found = inl (refl, λ i c e. absurd (cc))
last_empty_lem n (x ∷ xs) found = elim (Bool-cases (is_free x)) [
  | inl f ↦ elim (last_empty_lem (suc n) xs (some n)) [
    | inl (e, used) ↦ inr (
      0,
      rw (f, e) (ap some (omega arith)),
      record {
        entry = x;
        here = refl;
        free = f;
        others =
            Each-cons (λ j c. 0 < j → is_free c ≡ false) x xs (λ h. absurd (omega arith))
              (λ i c e h. used i c e);
      },
    )
    | inr (i, e, l) ↦ inr (
      suc i,
      rw (f, e) (ap some (omega arith)),
      record {
        entry = l.entry;
        here = l.here;
        free = l.free;
        others =
            Each-cons (λ j c. suc i < j → is_free c ≡ false) x xs (λ h. absurd (omega arith))
              (λ j c e h. l.others j c e (omega arith));
      },
    )
  ]
  | inr f ↦ elim (last_empty_lem (suc n) xs found) [
    | inl (e, used) ↦ inl (rw (f, e) refl, Each-cons (λ j c. is_free c ≡ false) x xs f used)
    | inr (i, e, l) ↦ inr (
      suc i,
      rw (f, e) (ap some (omega arith)),
      record {
        entry = l.entry;
        here = l.here;
        free = l.free;
        others =
            Each-cons (λ j c. suc i < j → is_free c ≡ false) x xs (λ h. absurd (omega arith))
              (λ j c e h. l.others j c e (omega arith));
      },
    )
  ]
]

-- `get_empty_command_state` returns NULL exactly when no entry is free, and otherwise the last
-- entry that is free.
pub get_empty_command_state_lem :
    (states : List CommandState)
    → ((get_empty_command_state states ≡ none) × Each (λ i c. is_free c ≡ false) states)
      ⊎ ((i : ℕ) × (get_empty_command_state states ≡ some i) × LastFree states i)
unfolding get_empty_command_state
get_empty_command_state_lem states = elim (last_empty_lem 0 states none) [
  | inl h ↦ inl h
  | inr (i, e, l) ↦ let e' : 0 + i ≡ i = omega arith in inr (i, e ∙ ap some e', l)
]

find_due_from :
    (n : ℕ) (states : List CommandState) (time : ℕ)
    → ((find_due n states time ≡ none) × Each (λ i c. is_due time c ≡ false) states)
      ⊎ ((i : ℕ) × (c : CommandState) × (find_due n states time ≡ some (n + i, c))
          × FirstDue states time i c)
unfolding find_due
find_due_from n [] time = inl (refl, λ i c e. absurd (cc))
find_due_from n (x ∷ xs) time = elim (Bool-cases (is_due time x)) [
  | inl d ↦ inr (
    0,
    x,
    rw d (ap (λ k. some (k, x)) (omega arith)),
    record { here = refl; due = d; others = λ i c e h. absurd (omega arith) },
  )
  | inr d ↦ elim (find_due_from (suc n) xs time) [
    | inl (e, quiet) ↦ inl (rw (d, e) refl, Each-cons (λ j c. is_due time c ≡ false) x xs d quiet)
    | inr (i, c, e, f) ↦ inr (
      suc i,
      c,
      rw (d, e) (ap (λ k. some (k, c)) (omega arith)),
      record {
        here = f.here;
        due = f.due;
        others =
            Each-cons (λ j c. j < suc i → is_due time c ≡ false) x xs (λ h. d)
              (λ j c e h. f.others j c e (omega arith));
      },
    )
  ]
]

-- The loop of `tick_command` stops at the first entry that has a command and is due, if there is one.
pub find_due_lem :
    (states : List CommandState) (time : ℕ)
    → ((find_due 0 states time ≡ none) × Each (λ i c. is_due time c ≡ false) states)
      ⊎ ((i : ℕ) × (c : CommandState) × (find_due 0 states time ≡ some (i, c))
          × FirstDue states time i c)
find_due_lem states time = elim (find_due_from 0 states time) [
  | inl h ↦ inl h
  | inr (i, c, e, f) ↦
      let e' : 0 + i ≡ i = omega arith in inr (i, c, e ∙ ap (λ k. some (k, c)) e', f)
]

pub LastFree-unique :
    (states : List CommandState) (i j : ℕ) → LastFree states i → LastFree states j → i ≡ j
LastFree-unique states i j a b =
    let f = a.others j b.entry b.here in
    let g = b.others i a.entry a.here in let fa = a.free in let fb = b.free in ground arith

pub FirstDue-unique :
    (states : List CommandState) (time i j : ℕ) (c d : CommandState)
    → FirstDue states time i c
    → FirstDue states time j d
    → (i ≡ j) × (c ≡ d)
FirstDue-unique states time i j c d a b =
    let f = a.others j d b.here in
    let g = b.others i c a.here in
    let fa = a.due in
    let fb = b.due in
    let same : i ≡ j = ground arith in
    let ha = a.here in
    let hb = b.here in
    let hc : get_elem? states i ≡ some d = ap (get_elem? states) same ∙ hb in (same, cc)
