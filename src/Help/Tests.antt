-- ===== src/Help/Tests.antt =====
-- "HELP PING", up to the parameter: the space before the name has been read.
use cpc_cplink.Prelude.{
  ℕ, ◌≡◌, refl, true, false, some, List, [], ◌∷◌, ◌++◌, if◌then◌else◌, ◌==◌, ◌≤◌, All, arith,
}
use cpc_cplink.Prelude.Int.{pos}
use cpc_cplink.Prelude.Text.{codes}
use cpc_cplink.Queue.{
  get_previous_read_byte, write_data_to_queue, number_free_bytes_in_queue_to_write_too, store_bytes,
  store_byte,
}
use cpc_cplink.Queue.Holds.{Holds}
use cpc_cplink.Queue.Sample.{drained, drained-Holds, holding_at, holding-Holds}
use cpc_cplink.Packet.Frame.{frame}
use cpc_cplink.Memstore.{memstore_init}
use cpc_cplink.Command.{
  Handler, help_for, command_defs, command_def, get_command_id_from_string, find_command,
}
use cpc_cplink.Command.Id.{ping, unknown, help}
use cpc_cplink.Command.Text.{IsNameByte}
use cpc_cplink.Command.Params.{newline}
use cpc_cplink.Server.{Server, command_processor_init}
use cpc_cplink.Help.Command.{command_help, run_help}
use cpc_cplink.Help.Frame.{Sends}
use cpc_cplink.Help.Answers.{help_text, Helps, run_help-Sends, command_help_answers}

abbrev name : List ℕ
name = codes "PING"

abbrev asked : Server
asked = record {
  in_queue = holding_at 0 (name ++ newline ∷ 45 ∷ []);
  out_queue = drained 131060;
  memstore = memstore_init;
  command_states = command_processor_init;
  tron = false;
  binary_data_receive_mode = pos 0;
  binary_data_send_mode = pos 0;
}

run_help_example :
    Sends
      (run_help (help_for Handler.command_insert_alloc))
      (help_text Handler.command_insert_alloc)
run_help_example = run_help-Sends Handler.command_insert_alloc refl

no_newline : (get_previous_read_byte asked.in_queue == newline) ≡ false
unfolding get_previous_read_byte write_data_to_queue number_free_bytes_in_queue_to_write_too
    store_bytes store_byte
no_newline = refl

is_ping : get_command_id_from_string name ≡ ping
unfolding get_command_id_from_string find_command command_defs
is_ping = refl

ping-Helps : Helps ping Handler.command_ping
unfolding command_def command_defs
ping-Helps = record {
  def = record {
    command_id = ping;
    command_text = name;
    return_function = Handler.command_ping;
    help_function = help_for Handler.command_ping;
    tick_time = 100;
    out_queue_space = 30;
  };
  entry = refl;
  calls = refl;
  has_text = refl;
}

name-Helps :
    (let id = get_command_id_from_string name in
      Helps (if id == unknown then help else id) Handler.command_ping)
name-Helps = rw is_ping ping-Helps

passes_byte : (b : ℕ) → 33 ≤ b → IsNameByte b
passes_byte b big = ((λ e. absurd (omega arith)), (λ e. absurd (omega arith)))

name_bytes : All IsNameByte name
name_bytes = (
  passes_byte 80 (omega arith),
  (
    passes_byte 73 (omega arith),
    (passes_byte 78 (omega arith), (passes_byte 71 (omega arith), tt)),
  ),
)

command_help_example :
    (s' : Server) × (command_help asked ≡ some (true, s'))
    × Holds s'.in_queue (45 ∷ [])
    × Holds s'.out_queue ([] ++ frame 1 (help_text Handler.command_ping))
    × (s'.memstore ≡ memstore_init)
command_help_example =
    command_help_answers asked name (45 ∷ []) [] Handler.command_ping no_newline name_bytes
      (omega arith) (holding-Holds 0 (name ++ newline ∷ 45 ∷ []) (omega arith) (omega arith))
      (drained-Holds 131060 (omega arith)) (omega arith) name-Helps
