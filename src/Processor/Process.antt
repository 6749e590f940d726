-- ===== src/Processor/Process.antt =====
-- command_processor.c: what `process_command` does with a command.
use cpc_cplink.Prelude.{
  ℕ, zero, suc, ◌+◌, ◌*◌, ◌≤◌, ◌<◌, ◌≡◌, ◌⊎◌, inl, inr, refl, ap, ◌∙◌, Bool, true, false, none,
  some, List, [], ◌∷◌, set, get_elem?, replicate, Bool-cases, ◌%◌, Option, Every, Every-some,
}
use cpc_cplink.Queue.{is_queue_space_available}
use cpc_cplink.Command.{
  Handler, get_command_function, get_command_out_queue_space_required, get_command_tick_period,
}
use cpc_cplink.Command.Id.{max_commands}
use cpc_cplink.Command.Table.{command_def_lem, command_def_past_end}
use cpc_cplink.Server.{Server, CommandState, empty_state, command_processor_init}
use cpc_cplink.Processor.{
  process_command, after_run, is_retried, get_empty_command_state, get_next_exec_time, stored_state,
}
use cpc_cplink.Processor.States.{
  Each, Each-cons, LastFree, is_free, get_empty_command_state_lem, LastFree-unique,
}

-- A handler's id in the table, and a state that may be ticked: its pointer is the table's.
pub record CanTick (c : CommandState) : Type 0 where
  pub handler : Handler
  pub pointer : c.command_function ≡ some handler
  pub in_table : c.command_id < max_commands

-- Every entry of `command_states` is free or can be ticked.
abbrev pub StatesValid : List CommandState → Type 0
StatesValid states = Each (λ i c. (is_free c ≡ true) ⊎ CanTick c) states

pub next_exec_time_lem :
    (i time : ℕ)
    → i < max_commands
    → (period : ℕ) × (get_command_tick_period i ≡ some period)
      × (get_next_exec_time i time ≡ some ((time + period * 1000) % 4294967296))
unfolding get_next_exec_time get_command_tick_period
next_exec_time_lem i time lt =
    let (d, e) = command_def_lem i lt in (d.tick_time, rw e.at_index refl, rw e.at_index refl)

pub set-StatesValid :
    (states : List CommandState) (i : ℕ) (c : CommandState)
    → StatesValid states
    → ((is_free c ≡ true) ⊎ CanTick c)
    → StatesValid (set states i c)
set-StatesValid [] i c v ok = v
set-StatesValid (x ∷ xs) zero c v ok =
    Each-cons (λ i c. (is_free c ≡ true) ⊎ CanTick c) c xs ok (λ j d e. v (suc j) d e)
set-StatesValid (x ∷ xs) (suc i) c v ok =
    Each-cons (λ i c. (is_free c ≡ true) ⊎ CanTick c) x (set xs i c) (v 0 x refl)
      (set-StatesValid xs i c (λ j d e. v (suc j) d e) ok)

pub free_states :
    (n i : ℕ) (c : CommandState) → get_elem? (replicate n empty_state) i ≡ some c → c ≡ empty_state
free_states zero i c e = absurd (cc)
free_states (suc n) zero c e = cc
free_states (suc n) (suc i) c e = free_states n i c e

pub started-StatesValid : StatesValid command_processor_init
started-StatesValid i c e = inl (ap is_free (free_states 20 i c e))

-- Handlers that keep the entries valid where they return.
abbrev pub KeepsStates : (Handler → ℕ → Server → Option (Bool × Server)) → Type 0
KeepsStates run =
    (h : Handler) (n : ℕ) (s : Server)
    → StatesValid s.command_states
    → Every (λ (r : Bool × Server). StatesValid r.1.command_states) (run h n s)

-- A handler that returns: it makes no access outside an array or an allocation.
abbrev pub Runs : Option (Bool × Server) → Type 0
Runs o = (r : Bool × Server) × (o ≡ some r)

after_run_total :
    (i : ℕ) (h : Handler) (time : ℕ) (done : Bool) (s : Server)
    → i < max_commands
    → StatesValid s.command_states
    → (b : Bool) × (s' : Server) × (after_run i h time (done, s) ≡ some (b, s'))
      × StatesValid s'.command_states
      × (b ≡ false → is_retried i ≡ true)
unfolding after_run stored_state
after_run_total i h time true s lt v = (true, s, refl, v, λ e. absurd (cc))
after_run_total i h time false s lt v = elim (Bool-cases (is_retried i)) [
  | inl r ↦ (false, s, rw r refl, v, λ e. r)
  | inr r ↦ elim (get_empty_command_state_lem s.command_states) [
    | inl (e, full) ↦ (true, s, rw (r, e) refl, v, λ e. absurd (cc))
    | inr (j, e, l) ↦
        let (period, listed, n) = next_exec_time_lem i time lt in
        let next = (time + period * 1000) % 4294967296 in
        (
          true,
          record s { command_states = set s.command_states j (stored_state i h next) },
          rw (r, e, n) refl,
          set-StatesValid s.command_states j (stored_state i h next) v
              (inr (record { handler = h; pointer = refl; in_table = lt })),
          λ e. absurd (cc),
        )
  ]
]

module _ (run : Handler → ℕ → Server → Option (Bool × Server)) where
  -- `process_command` returns for every id of the table whose handler does. It leaves every entry free or ready for a
  -- tick, when the handlers do. It returns FALSE only for a command that it did not run, with
  -- nothing changed, or for one of the four that are read again.
  pub process_command_total :
      (i time : ℕ) (s : Server)
      → KeepsStates run
      → i < max_commands
      → StatesValid s.command_states
      → ((h : Handler) → get_command_function i ≡ some h → Runs (run h 0 s))
      → (b : Bool) × (s' : Server) × (process_command run i time s ≡ some (b, s'))
        × StatesValid s'.command_states
        × (b ≡ false → (s' ≡ s) ⊎ (is_retried i ≡ true))
  unfolding process_command get_command_function get_command_out_queue_space_required
  process_command_total i time s keeps lt v returns =
      let (d, e) = command_def_lem i lt in
      elim (Bool-cases (is_queue_space_available s.out_queue d.out_queue_space)) [
        | inl space ↦
            let ((done, s1), ran) = returns d.return_function (rw e.at_index refl) in
            let (b, s', r, v', retried) =
              after_run_total i d.return_function time done s1 lt
                (Every-some (done, s1) (keeps d.return_function 0 s v) ran) in
            (b, s', rw (e.at_index, space, ran) r, v', λ f. inr (retried f))
        | inr full ↦ (false, s, rw (e.at_index, full) refl, v, λ f. inl refl)
      ]

  -- For an id past the end of the table, `process_command` reads behind the table.
  pub process_command_past_end :
      (i time : ℕ) (s : Server) → max_commands ≤ i → process_command run i time s ≡ none
  unfolding process_command get_command_function
  process_command_past_end i time s h = let e = command_def_past_end i h in rw e refl

module _ (i time : ℕ) (h : Handler) (s : Server) (once : is_retried i ≡ false) where
  after_run_full :
      get_empty_command_state s.command_states ≡ none
      → after_run i h time (false, s) ≡ some (true, s)
  unfolding after_run
  after_run_full e = rw (once, e) refl

  after_run_free :
      (j next : ℕ)
      → get_empty_command_state s.command_states ≡ some j
      → get_next_exec_time i time ≡ some next
      → after_run i h time (false, s)
        ≡ some (true, record s { command_states = set s.command_states j (stored_state i h next) })
  unfolding after_run
  after_run_free j next e n = rw (once, e, n) refl

-- The handler of command `i` runs, there being room for what it may write, and is not complete; the
-- command is none of the four that are read again.
pub record Unfinished (run : Handler → ℕ → Server → Option (Bool × Server)) (i : ℕ) (h : Handler)
    (s s' : Server) : Type 0 where
  pub space : ℕ
  pub known : get_command_function i ≡ some h
  pub needs : get_command_out_queue_space_required i ≡ some space
  pub room : is_queue_space_available s.out_queue space ≡ true
  pub once : is_retried i ≡ false
  pub stops : run h 0 s ≡ some (false, s')

module _ (run : Handler → ℕ → Server → Option (Bool × Server)) (i time : ℕ) (h : Handler)
    (s s' : Server) (u : Unfinished run i h s s') where
  process_command_runs : process_command run i time s ≡ after_run i h time (false, s')
  unfolding process_command
  process_command_runs = rw (u.known, u.needs, u.room, u.stops) refl

  -- An unfinished command is stored in the last free entry, when there is one, to be run with count
  -- 1 at its next time, and no other entry is changed.
  pub process_command_stores :
      (j : ℕ)
      → i < max_commands
      → LastFree s'.command_states j
      → (next : ℕ) → get_next_exec_time i time ≡ some next
      → (process_command run i time s
          ≡ some (
            true,
            record s' { command_states = set s'.command_states j (stored_state i h next) },
          ))
  process_command_stores j lt l next n = elim (get_empty_command_state_lem s'.command_states) [
    | inl (e, used) ↦ absurd (let f = used j l.entry l.here in let g = l.free in cc)
    | inr (k, e, m) ↦
        let same = LastFree-unique s'.command_states k j m l in
        process_command_runs ∙ after_run_free i time h s' u.once j next (e ∙ ap some same) n
  ]
