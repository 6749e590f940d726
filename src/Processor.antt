-- ===== src/Processor.antt =====
-- sw/examples/mcp/rpi_c/command_processor.c: running commands, and the table of those that run on.
-- The functions that carry out commands are called through pointers: here they are the parameter
-- `run`, and a `Handler` is the pointer; its result is `none` where the function makes an access
-- outside an array or an allocation. A time is the pattern of a `long`, which has 32 bits on the Pi;
-- `time` is what `get_current_exec_time` returns in that call. `none` is an access past the end of
-- `command_defs`, a call through NULL, or an access of the function that is called.
pub mod States
pub mod Process
pub mod Tick
mod Tests
use cpc_cplink.Prelude.{
  ℕ, zero, suc, ◌+◌, ◌*◌, ◌%◌, Bool, true, false, ◌&&◌, ◌||◌, not, Option, none, some, List, [],
  ◌∷◌, set, get_elem?, ltb, leb, ◌==◌, if◌then◌else◌, ◌>>=◌,
}
use cpc_cplink.Prelude.Int.{to_int32, ltb_ℤ}
use cpc_cplink.Queue.{Queue, is_queue_space_available}
use cpc_cplink.Command.{
  Handler, get_command_function, get_command_out_queue_space_required, get_command_tick_period,
}
use cpc_cplink.Command.Id.{unknown, retrieve_alloc, shell_exec, store_alloc, insert_alloc}
use cpc_cplink.Server.{Server, CommandState, empty_state}

-- The loop goes on behind a state that it found, so the last one counts.
unfoldable pub last_empty : ℕ → List CommandState → Option ℕ → Option ℕ
last_empty index [] found = found
last_empty index (c ∷ states) found =
    last_empty (suc index) states (if c.command_id == unknown then some index else found)

unfoldable pub get_empty_command_state : List CommandState → Option ℕ
unfolding last_empty
get_empty_command_state states = last_empty 0 states none

-- `gettimeofday` fills `tv_sec` and `tv_usec`; the sum is made in `long`.
unfoldable pub get_current_exec_time : ℕ → ℕ → ℕ
get_current_exec_time tv_sec tv_usec = (tv_usec + tv_sec * 1000000) % 4294967296

unfoldable pub get_next_exec_time : ℕ → ℕ → Option ℕ
get_next_exec_time command_id time = do
  period ← get_command_tick_period command_id
  some ((time + period * 1000) % 4294967296)

-- The commands that `process_command` leaves to be read again when they do not complete.
unfoldable pub is_retried : ℕ → Bool
is_retried command_id =
    command_id == retrieve_alloc
    || command_id == shell_exec
    || command_id == store_alloc
    || command_id == insert_alloc

-- `a < b`, of two `long`s.
abbrev pub before : ℕ → ℕ → Bool
before a b = ltb_ℤ (to_int32 a) (to_int32 b)

-- The index of the first state that has a command and is due.
unfoldable pub find_due : ℕ → List CommandState → ℕ → Option (ℕ × CommandState)
find_due index [] time = none
find_due index (c ∷ states) time =
    let rest = find_due (suc index) states time in
    if not (c.command_id == unknown) && before c.next_exec_time time then some (index, c) else rest

-- The state that `process_command` stores for the command.
unfoldable pub stored_state : ℕ → Handler → ℕ → CommandState
stored_state command_id handler next = record {
  command_id = command_id;
  command_function = some handler;
  next_tick_count = 1;
  next_exec_time = next;
}

-- What `process_command` does when the command has run: `complete` is what it returned.
unfoldable pub after_run : ℕ → Handler → ℕ → Bool × Server → Option (Bool × Server)
after_run command_id handler time (complete, s) =
    if complete
    then some (true, s)
    else if is_retried command_id
    then some (false, s)
    else elim (get_empty_command_state s.command_states) [
      | none ↦ some (true, s)
      | some index ↦ (do
        next ← get_next_exec_time command_id time
        some (
          true,
          record s {
            command_states = set s.command_states index (stored_state command_id handler next);
          },
        ))
    ]

-- The states of a tick that has run: the pointer still stands on entry `index`.
unfoldable pub after_tick : ℕ → ℕ → Bool × Server → Option Server
after_tick index later (complete, s) =
    if complete
    then some (record s { command_states = set s.command_states index empty_state })
    else (do
      c ← get_elem? s.command_states index
      next ← get_next_exec_time c.command_id later
      some (record s {
        command_states =
            set s.command_states index
              (record c { next_tick_count = suc c.next_tick_count; next_exec_time = next });
      }))

module _ (run : Handler → ℕ → Server → Option (Bool × Server)) where
  -- No entry of the table is NULL, so that branch of the source is not there.
  unfoldable pub process_command : ℕ → ℕ → Server → Option (Bool × Server)
  process_command command_id time s = do
    handler ← get_command_function command_id
    output_space_required ← get_command_out_queue_space_required command_id
    (if is_queue_space_available s.out_queue output_space_required
        then run handler 0 s >>= after_run command_id handler time
        else some (false, s))

  -- One turn of the loop of `tick_command`: the entry that it found, if any, is run.
  unfoldable pub tick_due : Option (ℕ × CommandState) → ℕ → Server → Option Server
  tick_due none later s = some s
  tick_due (some (index, c)) later s = do
    handler ← c.command_function
    r ← run handler c.next_tick_count s
    after_tick index later r

  -- `later` is the time that `get_next_exec_time` reads.
  unfoldable pub tick_command : ℕ → ℕ → Server → Option Server
  tick_command current_exec_time later s =
      tick_due (find_due 0 s.command_states current_exec_time) later s
