-- ===== src/General/States.antt =====
-- The handlers behind their pointers and `command_states`: what `process_command` and `tick_command`
-- ask of them.
use cpc_cplink.Prelude.{ℕ, ◌≡◌, refl, sym, subst, Bool, Option, List, length, Every, just, nothing}
use cpc_cplink.Memstore.{Calloc}
use cpc_cplink.Command.{Handler}
use cpc_cplink.Server.{Server, CommandState, max_command_states, command_processor_init}
use cpc_cplink.Processor.Process.{StatesValid, KeepsStates, started-StatesValid}
use cpc_cplink.Processor.Tick.{KeepsLength}
use cpc_cplink.Memory.States.{
  HasStates, command_create_alloc_states, command_free_alloc_states, command_retrieve_alloc_states,
  command_store_alloc_states, command_insert_alloc_states, command_cut_alloc_states,
}
use cpc_cplink.Memory.Run.{run_memory}
use cpc_cplink.General.{
  respond, command_unknown, command_ping, command_reset, command_tron, command_troff,
  command_version, command_get_file, command_put_file, command_get_mem_file, command_put_mem_file,
  run_handler,
}

-- A property of the stored commands that those of a server that has just started have.
module _ (P : List CommandState → Type 0) (started : P command_processor_init) (c : Calloc)
    (others : Handler → ℕ → Server → Option (Bool × Server)) where
  abbrev Kept : Bool × Server → Type 0
  Kept r = P r.1.command_states

  same-Kept :
      {states : List CommandState} {o : Option (Bool × Server)}
      → P states
      → Every (HasStates states) o
      → Every Kept o
  same-Kept p nothing = nothing
  same-Kept p (just e) = just (subst P (sym e) p)

  run_memory-Kept :
      (h : Handler) (n : ℕ) (s : Server)
      → P s.command_states
      → ((h : Handler) → Every Kept (others h n s))
      → Every Kept (run_memory c others h n s)
  unfolding run_memory
  run_memory-Kept Handler.command_create_alloc n s p keeps =
      same-Kept p (just (command_create_alloc_states c s))
  run_memory-Kept Handler.command_free_alloc n s p keeps =
      same-Kept p (just (command_free_alloc_states s))
  run_memory-Kept Handler.command_retrieve_alloc n s p keeps =
      same-Kept p (command_retrieve_alloc_states s)
  run_memory-Kept Handler.command_store_alloc n s p keeps =
      same-Kept p (command_store_alloc_states c s)
  run_memory-Kept Handler.command_insert_alloc n s p keeps =
      same-Kept p (command_insert_alloc_states c s)
  run_memory-Kept Handler.command_cut_alloc n s p keeps = same-Kept p (command_cut_alloc_states s)
  run_memory-Kept h n s p keeps = keeps h

  run_handler-Kept :
      (h : Handler) (n : ℕ) (s : Server)
      → P s.command_states
      → ((h : Handler) → Every Kept (others h n s))
      → Every Kept (run_handler (run_memory c others) h n s)
  unfolding run_handler command_unknown command_ping command_reset command_tron command_troff
      command_version command_get_file command_put_file command_get_mem_file command_put_mem_file
      respond
  run_handler-Kept Handler.command_unknown n s p keeps = just p
  run_handler-Kept Handler.command_ping n s p keeps = just p
  run_handler-Kept Handler.command_reset n s p keeps = just started
  run_handler-Kept Handler.command_tron n s p keeps = just p
  run_handler-Kept Handler.command_troff n s p keeps = just p
  run_handler-Kept Handler.command_version n s p keeps = just p
  run_handler-Kept Handler.command_get_file n s p keeps = just p
  run_handler-Kept Handler.command_put_file n s p keeps = just p
  run_handler-Kept Handler.command_get_mem_file n s p keeps = just p
  run_handler-Kept Handler.command_put_mem_file n s p keeps = just p
  run_handler-Kept h n s p keeps = run_memory-Kept h n s p keeps

-- The handlers of this development keep the stored commands valid, RESET with them, when the others
-- do.
pub run_handler-KeepsStates :
    (c : Calloc) (others : Handler → ℕ → Server → Option (Bool × Server))
    → KeepsStates others
    → KeepsStates (run_handler (run_memory c others))
run_handler-KeepsStates c others keeps h n s v =
    run_handler-Kept StatesValid started-StatesValid c others h n s v (λ h. keeps h n s v)

-- They keep the number of the entries, when the others do.
pub run_handler-KeepsLength :
    (c : Calloc) (others : Handler → ℕ → Server → Option (Bool × Server))
    → KeepsLength others
    → KeepsLength (run_handler (run_memory c others))
run_handler-KeepsLength c others keeps h n s all =
    run_handler-Kept (λ states. length states ≡ max_command_states) refl c others h n s all
      (λ h. keeps h n s all)
