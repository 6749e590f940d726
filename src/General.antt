-- ===== src/General.antt =====
-- sw/examples/mcp/rpi_c/command_general.c and command_file.c: the handlers that only answer, and
-- those that are to be done. `others` stands for the handlers of the other commands.
pub mod Answers
pub mod Keeps
pub mod States
pub mod System
pub mod Shell
pub mod ShellExec
mod Tests
use cpc_cplink.Prelude.{Option, some, ℕ, Bool, true, false, List}
use cpc_cplink.Prelude.Text.{codes}
use cpc_cplink.Queue.{init_queue, queues_reset}
use cpc_cplink.Packet.{PacketType, write_data_to_packet}
use cpc_cplink.Memstore.{memstore_reset}
use cpc_cplink.Command.{Handler}
use cpc_cplink.Server.{Server, command_processor_init}

-- `write_data_to_packet(out_queue, response, strlen(response), TextCommand)`
unfoldable pub respond : List ℕ → Server → Server
respond response s = record s {
  out_queue = (write_data_to_packet s.out_queue response PacketType.text_command).1;
}

unfoldable pub command_unknown : Server → Bool × Server
command_unknown s = (true, respond (codes "Unknown Command\n") s)

unfoldable pub command_ping : Server → Bool × Server
command_ping s = (true, respond (codes "PONG!\n") s)

unfoldable pub command_reset : Server → Bool × Server
command_reset s =
    let (in_queue', out_queue') = queues_reset (s.in_queue, s.out_queue) in
    let (closed, memstore') = memstore_reset s.memstore in
    (
      true,
      respond (codes "OK\n") (record s {
        in_queue = in_queue';
        out_queue = out_queue';
        memstore = memstore';
        command_states = command_processor_init;
      }),
    )

unfoldable pub command_tron : Server → Bool × Server
command_tron s = (true, respond (codes "OK\n") (record s { tron = true }))

unfoldable pub command_troff : Server → Bool × Server
command_troff s = (true, respond (codes "OK\n") (record s { tron = false }))

-- VERSION is "0.3".
unfoldable pub command_version : Server → Bool × Server
command_version s = (true, respond (codes "MCP v0.3\n") s)

unfoldable pub command_get_file : Server → Bool × Server
command_get_file s = (false, s)

unfoldable pub command_put_file : Server → Bool × Server
command_put_file s = (false, s)

unfoldable pub command_get_mem_file : Server → Bool × Server
command_get_mem_file s = (false, s)

unfoldable pub command_put_mem_file : Server → Bool × Server
command_put_mem_file s = (false, s)

module _ (others : Handler → ℕ → Server → Option (Bool × Server)) where
  -- The call through the pointer.
  unfoldable pub run_handler : Handler → ℕ → Server → Option (Bool × Server)
  run_handler Handler.command_unknown tick s = some (command_unknown s)
  run_handler Handler.command_ping tick s = some (command_ping s)
  run_handler Handler.command_reset tick s = some (command_reset s)
  run_handler Handler.command_tron tick s = some (command_tron s)
  run_handler Handler.command_troff tick s = some (command_troff s)
  run_handler Handler.command_version tick s = some (command_version s)
  run_handler Handler.command_get_file tick s = some (command_get_file s)
  run_handler Handler.command_put_file tick s = some (command_put_file s)
  run_handler Handler.command_get_mem_file tick s = some (command_get_mem_file s)
  run_handler Handler.command_put_mem_file tick s = some (command_put_mem_file s)
  run_handler h tick s = others h tick s
