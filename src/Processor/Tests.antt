-- ===== src/Processor/Tests.antt =====
-- Handlers on a server that has just started.
use cpc_cplink.Prelude.{
  ◌∙◌, Option, some-injective, just, length, set, ◌>>=◌, ℕ, ◌≡◌, ◌⊎◌, inr, refl, sym, subst, ap,
  get_elem?-past, Bool, true, false, none, some, List, get_elem?, ◌==◌, if◌then◌else◌, arith,
}
use cpc_cplink.Prelude.Int.{pos}
use cpc_cplink.Queue.{
  is_queue_space_available, number_bytes_in_queue_to_read, number_free_bytes_in_queue_to_write_too,
}
use cpc_cplink.Queue.Sample.{drained}
use cpc_cplink.Memstore.{memstore_init}
use cpc_cplink.Command.{
  Handler, command_def, command_defs, get_command_function, get_command_out_queue_space_required,
  get_command_tick_period,
}
use cpc_cplink.Command.Id.{ping, shutdown}
use cpc_cplink.Server.{
  Server, CommandState, empty_state, max_command_states, command_processor_init,
}
use cpc_cplink.Processor.{
  process_command, tick_command, after_tick, get_current_exec_time, is_retried,
}
use cpc_cplink.Processor.States.{Each, LastFree, FirstDue, FirstDue-unique, is_due}
use cpc_cplink.Processor.Process.{
  set-StatesValid, Runs, free_states, started-StatesValid, StatesValid, Unfinished,
  process_command_total,
}
use cpc_cplink.Processor.Tick.{tick_command_total, tick-process, tick-process_early}
use cpc_cplink.Memstore.Sample.{zeroing}
use cpc_cplink.Memory.Run.{run_memory}
use cpc_cplink.General.{run_handler}
use cpc_cplink.General.States.{run_handler-KeepsStates, run_handler-KeepsLength}

abbrev server_with : List CommandState → Server
server_with states = record {
  in_queue = drained 0;
  out_queue = drained 0;
  memstore = memstore_init;
  command_states = states;
  tron = false;
  binary_data_receive_mode = pos 0;
  binary_data_send_mode = pos 0;
}

-- A handler that completes at the second run, and changes nothing.
abbrev twice : Handler → ℕ → Server → Option (Bool × Server)
twice h n s = some (if n == 0 then false else true, s)

started-quiet : (now : ℕ) → Each (λ i c. is_due now c ≡ false) command_processor_init
started-quiet now i c e = ap (is_due now) (free_states 20 i c e)

started-LastFree : LastFree command_processor_init 19
started-LastFree = record {
  entry = empty_state;
  here = refl;
  free = refl;
  others = λ j c e h.
      let past : get_elem? command_processor_init j ≡ none =
        get_elem?-past command_processor_init j (omega arith) in
      absurd (cc);
}

Unfinished-ping :
    (states : List CommandState)
    → Unfinished twice ping Handler.command_ping (server_with states) (server_with states)
unfolding get_command_function get_command_out_queue_space_required command_def command_defs
    is_retried is_queue_space_available number_bytes_in_queue_to_read
    number_free_bytes_in_queue_to_write_too
Unfinished-ping states = record {
  space = 30;
  known = refl;
  needs = refl;
  room = refl;
  once = refl;
  stops = refl;
}

Unfinished-shutdown :
    (states : List CommandState)
    → Unfinished twice shutdown Handler.command_shutdown (server_with states) (server_with states)
unfolding get_command_function get_command_out_queue_space_required command_def command_defs
    is_retried is_queue_space_available number_bytes_in_queue_to_read
    number_free_bytes_in_queue_to_write_too
Unfinished-shutdown states = record {
  space = 30;
  known = refl;
  needs = refl;
  room = refl;
  once = refl;
  stops = refl;
}

process_command_example :
    (b : Bool) × (s' : Server) × (process_command twice ping 7 (server_with command_processor_init)
      ≡ some (b, s'))
    × StatesValid s'.command_states
    × (b ≡ false → (s' ≡ server_with command_processor_init) ⊎ (is_retried ping ≡ true))
process_command_example =
    process_command_total twice ping 7 (server_with command_processor_init) (λ h n s v. just v)
      (omega arith) started-StatesValid (λ h e. (_, refl))

abbrev waiting : CommandState
waiting = record {
  command_id = ping;
  command_function = some Handler.command_ping;
  next_tick_count = 3;
  next_exec_time = 50;
}

ping_period : get_command_tick_period ping ≡ some 100
unfolding get_command_tick_period command_def command_defs
ping_period = refl

shutdown_period : get_command_tick_period shutdown ≡ some 3000
unfolding get_command_tick_period command_def command_defs
shutdown_period = refl

tick-process_example :
    (t : Server) × (process_command twice ping 7 (server_with command_processor_init)
      ≡ some (true, t))
    × (tick_command twice 9000000 9000001 t
        ≡ (twice Handler.command_ping 1 t >>= after_tick 19 9000001))
tick-process_example =
    tick-process twice ping 7 9000000 9000001 19 100 Handler.command_ping
      (server_with command_processor_init) (server_with command_processor_init)
      (Unfinished-ping command_processor_init) (omega arith) (omega arith) ping_period
      started-LastFree (started-quiet 9000000) (omega arith) (omega arith)

-- The clock wraps: 4295 seconds come out as 32704 microseconds.
clock_wraps : get_current_exec_time 4295 0 ≡ 32704
unfolding get_current_exec_time
clock_wraps = refl

tick-process_early_example :
    (t : Server) × (process_command twice shutdown 2147483000 (server_with command_processor_init)
      ≡ some (true, t))
    × (tick_command twice 2147483100 2147483101 t
        ≡ (twice Handler.command_shutdown 1 t >>= after_tick 19 2147483101))
tick-process_early_example =
    tick-process_early twice shutdown 2147483000 2147483100 2147483101 19 3000
      Handler.command_shutdown (server_with command_processor_init)
      (server_with command_processor_init) (Unfinished-shutdown command_processor_init)
      (omega arith) (omega arith) shutdown_period started-LastFree (started-quiet 2147483100)
      (omega arith) (omega arith) (omega arith)

-- PING waits in entry 1 of 20.
abbrev one_waiting : List CommandState
one_waiting = set command_processor_init 1 waiting

one_waiting-StatesValid : StatesValid one_waiting
one_waiting-StatesValid =
    set-StatesValid command_processor_init 1 waiting started-StatesValid
      (inr (record { handler = Handler.command_ping; pointer = refl; in_table = omega arith }))

abbrev program : Handler → ℕ → Server → Option (Bool × Server)
program = run_handler (run_memory zeroing twice)

first_waiting : FirstDue one_waiting 60 1 waiting
first_waiting = record {
  here = refl;
  due = refl;
  others = λ j d e h.
      let at : j ≡ 0 = omega arith in
      let is : get_elem? one_waiting 0 ≡ some d = ap (get_elem? one_waiting) (sym at) ∙ e in
      let same : empty_state ≡ d = cc in ap (is_due 60) (sym same);
}

program_pings :
    (s : Server) (n : ℕ) (c : CommandState) (h : Handler)
    → waiting ≡ c
    → c.command_function ≡ some h
    → Runs (program h n s)
unfolding run_handler
program_pings s n c h e p =
    let same : Handler.command_ping ≡ h =
      some-injective _ _ (ap (λ (x : CommandState). x.command_function) e ∙ p) in
    subst (λ k. Runs (program k n s)) same (_, refl)

tick_total_example :
    (s' : Server) × (tick_command program 60 61 (server_with one_waiting) ≡ some s')
    × StatesValid s'.command_states
    × (length s'.command_states ≡ max_command_states)
tick_total_example =
    tick_command_total program 60 61 (server_with one_waiting)
      (run_handler-KeepsStates zeroing twice (λ h n s v. just v))
      (run_handler-KeepsLength zeroing twice (λ h n s e. just e)) one_waiting-StatesValid refl
      (λ i c h due p.
        program_pings (server_with one_waiting) c.next_tick_count c h
          (FirstDue-unique one_waiting 60 1 i waiting c first_waiting due).1 p)
