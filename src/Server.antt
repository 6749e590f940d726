-- ===== src/Server.antt =====
-- The global state of the server: the queues, the flags and the lock modes of mcp_pi.c, the
-- `memstore` of memstore_manager.c and the `command_states` of command_processor.c.
pub mod Order
use cpc_cplink.Prelude.{ℕ, ◌+◌, Bool, Option, none, List, replicate}
use cpc_cplink.Prelude.Int.{ℤ, pos, sub_int32, add_int32}
use cpc_cplink.Queue.{Queue, number_bytes_in_queue_to_read}
use cpc_cplink.Memstore.{Memstore}
use cpc_cplink.Command.{Handler}
use cpc_cplink.Command.Id.{unknown}

abbrev pub max_command_states : ℕ
max_command_states = 20

-- `command_function` is `none` for NULL. Times are in microseconds.
pub record CommandState : Type 0 where
  pub command_id : ℕ
  pub command_function : Option Handler
  pub next_tick_count : ℕ
  pub next_exec_time : ℕ

-- `memset(..., 0, sizeof(Command_State))`
abbrev pub empty_state : CommandState
empty_state = record {
  command_id = unknown;
  command_function = none;
  next_tick_count = 0;
  next_exec_time = 0;
}

pub record Server : Type 0 where
  pub in_queue : Queue
  pub out_queue : Queue
  pub memstore : Memstore
  pub command_states : List CommandState
  pub tron : Bool
  pub binary_data_receive_mode : ℤ
  pub binary_data_send_mode : ℤ

abbrev pub command_processor_init : List CommandState
command_processor_init = replicate max_command_states empty_state

-- The modes as the build with OPTIMISE_IO and without DEBUG_MCP_IF sets them.
unfoldable pub set_binary_data_receive_lock_mode : Server → ℤ → Server
set_binary_data_receive_lock_mode s bytes_to_receive = record s {
  binary_data_receive_mode =
      sub_int32 bytes_to_receive (pos (number_bytes_in_queue_to_read s.in_queue));
}

unfoldable pub set_binary_data_send_lock_mode : Server → ℕ → Server
set_binary_data_send_lock_mode s bytes_to_send = record s {
  binary_data_send_mode =
      add_int32 (pos bytes_to_send) (pos (number_bytes_in_queue_to_read s.in_queue));
}
