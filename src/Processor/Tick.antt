-- ===== src/Processor/Tick.antt =====
-- command_processor.c: what `tick_command` does with the stored commands.
use cpc_cplink.Prelude.{
  ℕ, zero, suc, ◌+◌, ◌*◌, ◌%◌, ◌≤◌, ◌<◌, Option, Every, Every-some, ◌>>=◌, ◌≡◌, ◌⊎◌, inl, inr, refl,
  sym, ap, ◌∙◌, Bool, true, false, some, List, [], ◌∷◌, arith, length, get_elem?, set,
  get_elem?-set_self, get_elem?-set_ne,
}
use cpc_cplink.Command.{Handler, get_command_tick_period}
use cpc_cplink.Command.Id.{unknown, max_commands}
use cpc_cplink.Server.{Server, CommandState, empty_state, max_command_states}
use cpc_cplink.Processor.{
  get_next_exec_time, tick_command, tick_due, after_tick, before, find_due, process_command,
  stored_state,
}
use cpc_cplink.Processor.States.{
  Each, LastFree, FirstDue, FirstDue-unique, is_free, is_due, find_due_lem,
}
use cpc_cplink.Processor.Process.{
  CanTick, StatesValid, KeepsStates, Runs, set-StatesValid, next_exec_time_lem, Unfinished,
  process_command_stores,
}

-- An entry whose count and time alone are new is as good as it was.
recounted :
    (c : CommandState) (count next : ℕ)
    → ((is_free c ≡ true) ⊎ CanTick c)
    → let c' = record c { next_tick_count = count; next_exec_time = next } in
      (is_free c' ≡ true) ⊎ CanTick c'
recounted c count next (inl f) = inl f
recounted c count next (inr t) =
    inr (record { handler = t.handler; pointer = t.pointer; in_table = t.in_table })

has_table_id : (c : CommandState) → ((is_free c ≡ true) ⊎ CanTick c) → c.command_id < max_commands
has_table_id c (inl f) = ground arith
has_table_id c (inr t) = t.in_table

length-set : (l : List CommandState) (i : ℕ) (c : CommandState) → length (set l i c) ≡ length l
length-set [] i c = refl
length-set (x ∷ xs) zero c = refl
length-set (x ∷ xs) (suc i) c = ap suc (length-set xs i c)

after_tick_total :
    (i later : ℕ) (done : Bool) (s : Server) (c : CommandState)
    → StatesValid s.command_states
    → get_elem? s.command_states i ≡ some c
    → (s' : Server) × (after_tick i later (done, s) ≡ some s')
      × StatesValid s'.command_states
      × (length s'.command_states ≡ length s.command_states)
unfolding after_tick
after_tick_total i later true s c v e = (
  record s { command_states = set s.command_states i empty_state },
  refl,
  set-StatesValid s.command_states i empty_state v (inl refl),
  length-set s.command_states i empty_state,
)
after_tick_total i later false s c v e =
    let (period, listed, n) = next_exec_time_lem c.command_id later (has_table_id c (v i c e)) in
    let next = (later + period * 1000) % 4294967296 in
    let c' = record c { next_tick_count = suc c.next_tick_count; next_exec_time = next } in
    (
      record s { command_states = set s.command_states i c' },
      rw (e, n) refl,
      set-StatesValid s.command_states i c' v (recounted c (suc c.next_tick_count) next (v i c e)),
      length-set s.command_states i c',
    )

get_elem?-bound :
    (l : List CommandState) (j : ℕ) (c : CommandState) → get_elem? l j ≡ some c → j < length l
get_elem?-bound [] j c e = absurd (cc)
get_elem?-bound (x ∷ xs) zero c e = omega arith
get_elem?-bound (x ∷ xs) (suc j) c e = let ih = get_elem?-bound xs j c e in omega arith

get_elem?-some :
    (l : List CommandState) (j : ℕ) → j < length l → (c : CommandState) × (get_elem? l j ≡ some c)
get_elem?-some [] j lt = absurd (omega arith)
get_elem?-some (x ∷ xs) zero lt = (x, refl)
get_elem?-some (x ∷ xs) (suc j) lt = get_elem?-some xs j (omega arith)

CanTick-due :
    (now : ℕ) (c : CommandState)
    → is_due now c ≡ true
    → ((is_free c ≡ true) ⊎ CanTick c)
    → CanTick c
CanTick-due now c due ok = elim ok [ inl f ↦ absurd (ground arith) | inr t ↦ t ]

-- Handlers that keep the number of the entries, on a server that has all of them: they clear and fill
-- entries, and make no new ones.
abbrev pub KeepsLength : (Handler → ℕ → Server → Option (Bool × Server)) → Type 0
KeepsLength run =
    (h : Handler) (n : ℕ) (s : Server)
    → length s.command_states ≡ max_command_states
    → Every (λ (r : Bool × Server). length r.1.command_states ≡ max_command_states) (run h n s)

module _ (run : Handler → ℕ → Server → Option (Bool × Server)) where
  -- When no stored command is due, a tick changes nothing.
  pub tick_command_idle :
      (now later : ℕ) (s : Server)
      → Each (λ i c. is_due now c ≡ false) s.command_states
      → tick_command run now later s ≡ some s
  unfolding tick_command tick_due
  tick_command_idle now later s quiet = elim (find_due_lem s.command_states now) [
    | inl (e, x) ↦ rw e refl
    | inr (i, c, e, f) ↦ absurd (let q = quiet i c f.here in let d = f.due in cc)
  ]

  -- When a stored command is due, a tick runs the first of those that are, with its count, and no
  -- other one.
  pub tick_command_runs :
      (now later : ℕ) (s : Server) (i : ℕ) (c : CommandState) (h : Handler)
      → FirstDue s.command_states now i c
      → c.command_function ≡ some h
      → tick_command run now later s ≡ (run h c.next_tick_count s >>= after_tick i later)
  unfolding tick_command tick_due
  tick_command_runs now later s i c h due p = elim (find_due_lem s.command_states now) [
    | inl (e, quiet) ↦ absurd (let q = quiet i c due.here in let d = due.due in cc)
    | inr (j, d, e, f) ↦
        let (same, same') = FirstDue-unique s.command_states now j i d c f due in
        let p' : d.command_function ≡ some h =
          ap (λ (x : CommandState). x.command_function) same' ∙ p in
        let e' : find_due 0 s.command_states now ≡ some (i, c) = cc in rw (e', p) refl
  ]

  -- A tick returns for all the entries, when they are valid and the handler that is due returns, and
  -- leaves all of them and valid, when the handlers do: no pointer that a tick calls is NULL.
  pub tick_command_total :
      (now later : ℕ) (s : Server)
      → KeepsStates run
      → KeepsLength run
      → StatesValid s.command_states
      → length s.command_states ≡ max_command_states
      → ((i : ℕ) (c : CommandState) (h : Handler)
          → FirstDue s.command_states now i c
          → c.command_function ≡ some h
          → Runs (run h c.next_tick_count s))
      → (s' : Server) × (tick_command run now later s ≡ some s')
        × StatesValid s'.command_states
        × (length s'.command_states ≡ max_command_states)
  tick_command_total now later s keeps same v all returns =
      elim (find_due_lem s.command_states now) [
        | inl (e, quiet) ↦ (s, tick_command_idle now later s quiet, v, all)
        | inr (i, c, e, f) ↦
            let t = CanTick-due now c f.due (v i c f.here) in
            let ((done, s1), ran) = returns i c t.handler f t.pointer in
            let valid = Every-some (done, s1) (keeps t.handler c.next_tick_count s v) ran in
            let number = Every-some (done, s1) (same t.handler c.next_tick_count s all) ran in
            let bound = get_elem?-bound s.command_states i c f.here in
            let (d, there) = get_elem?-some s1.command_states i (omega arith) in
            let (s', a, v', kept) = after_tick_total i later done s1 d valid there in
            (
              s',
              tick_command_runs now later s i c t.handler f t.pointer ∙ rw ran a,
              v',
              kept ∙ number,
            )
      ]

FirstDue-stored :
    (states : List CommandState) (now j : ℕ) (c d : CommandState)
    → get_elem? states j ≡ some d
    → is_due now c ≡ true
    → Each (λ k x. is_due now x ≡ false) states
    → FirstDue (set states j c) now j c
FirstDue-stored states now j c d here due quiet = record {
  here = get_elem?-set_self states j c (get_elem?-bound states j d here);
  due = due;
  others = λ k x e lt.
      quiet k x
        (sym (get_elem?-set_ne states {i = j} {j = k} c (λ same. absurd (omega arith))) ∙ e);
}

listed_next :
    (i time period : ℕ)
    → get_command_tick_period i ≡ some period
    → get_next_exec_time i time ≡ some ((time + period * 1000) % 4294967296)
unfolding get_next_exec_time
listed_next i time period listed = rw listed refl

-- An unfinished command that found a free entry, with nothing else due.
module _ (run : Handler → ℕ → Server → Option (Bool × Server)) (i time now later j period : ℕ)
    (h : Handler) (s s' : Server) (u : Unfinished run i h s s') (known : unknown < i)
    (lt : i < max_commands) (listed : get_command_tick_period i ≡ some period)
    (l : LastFree s'.command_states j)
    (quiet : Each (λ k c. is_due now c ≡ false) s'.command_states) where
  stored_then_ticked :
      before ((time + period * 1000) % 4294967296) now ≡ true
      → (t : Server) × (process_command run i time s ≡ some (true, t))
        × (tick_command run now later t ≡ (run h 1 t >>= after_tick j later))
  unfolding stored_state
  stored_then_ticked past =
      let next = (time + period * 1000) % 4294967296 in
      let c = stored_state i h next in
      let t = record s' { command_states = set s'.command_states j c } in
      let due : is_due now c ≡ true = ground arith in
      (
        t,
        process_command_stores run i time h s s' u j lt l next (listed_next i time period listed),
        tick_command_runs run now later t j c h
            (FirstDue-stored s'.command_states now j c l.entry l.here due quiet) refl,
      )

  -- An unfinished command that found a free entry, when nothing else is due, is run by the first tick
  -- behind its time, with count 1, where the time of the tick is below 2^31 microseconds.
  pub tick-process :
      time + period * 1000 < now
      → now < 2147483648
      → (t : Server) × (process_command run i time s ≡ some (true, t))
        × (tick_command run now later t ≡ (run h 1 t >>= after_tick j later))
  tick-process past small = stored_then_ticked (ground arith)

  -- An unfinished command that found a free entry, when nothing else is due, is run by a tick at any
  -- time before 2^31 microseconds, where the sum of the time it was stored at and its period has
  -- reached 2^31: the `long` wraps, and the command does not wait.
  pub tick-process_early :
      2147483648 ≤ time + period * 1000
      → time + period * 1000 < 4294967296
      → now < 2147483648
      → (t : Server) × (process_command run i time s ≡ some (true, t))
        × (tick_command run now later t ≡ (run h 1 t >>= after_tick j later))
  tick-process_early over below small = stored_then_ticked (ground arith)
