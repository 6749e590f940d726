-- ===== src/Help/Command.antt =====
-- sw/examples/mcp/rpi_c/command_general.c: HELP, and the help text of HELP itself.
use cpc_cplink.Prelude.{
  ℕ, suc, ◌+◌, ◌-◌, ◌/◌, ◌%◌, Bool, true, false, Option, some, List, [], ◌∷◌, length, drop, ◌==◌,
  if◌then◌else◌, ◌>>=◌,
}
use cpc_cplink.Prelude.Text.{codes}
use cpc_cplink.Queue.{Queue, get_previous_read_byte}
use cpc_cplink.Packet.{
  PacketType, start_build_data_packet, add_data_to_packet, finish_build_data_packet_and_send,
}
use cpc_cplink.Command.{
  Handler, HelpFunction, help_for, CommandDef, command_defs, command_def,
  get_command_id_from_string,
}
use cpc_cplink.Command.Id.{unknown, help, max_commands}
use cpc_cplink.Command.Params.{newline, max_command_name_length, get_command_next_param_text}
use cpc_cplink.Server.{Server}
use cpc_cplink.Help.General.{
  command_unknown_help, command_ping_help, command_shutdown_help, command_time_help,
  command_date_help, command_reset_help, command_reboot_help, command_tron_help, command_troff_help,
  command_version_help, command_wifi_ip_help, command_shellexec_help,
}
use cpc_cplink.Help.Memory.{
  command_create_alloc_help, command_free_alloc_help, command_retrieve_alloc_help,
  command_store_alloc_help, command_insert_alloc_help, command_cut_alloc_help,
  command_load_alloc_help, command_save_alloc_help,
}
use cpc_cplink.Help.File.{
  command_get_file_help, command_put_file_help, command_get_mem_file_help,
  command_put_mem_file_help,
}

abbrev pub response1_text : List ℕ
response1_text = codes "\rHELP\r\r"

abbrev pub response2_text : List ℕ
response2_text = codes "Function: Provides help on the COMMAND_NAME provided.\r\r"

abbrev pub response3_text : List ℕ
response3_text = codes "Help is available for the following commands:\r\r"

abbrev pub response4_text : List ℕ
response4_text = codes "\r\rFormat: HELP COMMAND_NAME\\n\r\r"

abbrev pub response5_text : List ℕ
response5_text = codes "Return: String of text terminated with \\n\r\n"

-- The first loop: the names, each with a space.
unfoldable pub names_size : List CommandDef → ℕ
names_size [] = 0
names_size (d ∷ defs) = length d.command_text + 1 + names_size defs

-- The second loop: a new line behind every seventh name.
unfoldable pub add_names : ℕ → Queue → List CommandDef → Queue
add_names index queue [] = queue
add_names index queue (d ∷ defs) =
    let q1 = add_data_to_packet queue d.command_text in
    let q2 = add_data_to_packet q1 (codes " ") in
    add_names (suc index) (if index % 7 == 0 then add_data_to_packet q2 (codes "\r") else q2) defs

unfoldable pub help_size : ℕ
unfolding names_size command_defs
help_size =
    names_size (drop 1 command_defs)
    + length response1_text
    + length response2_text
    + length response3_text
    + length response4_text
    + length response5_text
    + (max_commands - 1) / 7

unfoldable pub command_help_help : Queue → Bool × Queue
command_help_help out_queue =
    let (started, q0) = start_build_data_packet out_queue help_size PacketType.text_command in
    if started
    then (let q1 = add_data_to_packet q0 response1_text in
        let q2 = add_data_to_packet q1 response2_text in
        let q3 = add_data_to_packet q2 response3_text in
        let q4 = add_names 1 q3 (drop 1 command_defs) in
        let q5 = add_data_to_packet q4 response4_text in
        let q6 = add_data_to_packet q5 response5_text in
        (true, finish_build_data_packet_and_send q6))
    else (false, q0)

-- The call through `help_function`. No help function looks at the in_queue.
unfoldable pub run_help : HelpFunction → Queue → Bool × Queue
run_help (help_for Handler.command_unknown) q = command_unknown_help q
run_help (help_for Handler.command_ping) q = command_ping_help q
run_help (help_for Handler.command_shutdown) q = command_shutdown_help q
run_help (help_for Handler.command_time) q = command_time_help q
run_help (help_for Handler.command_date) q = command_date_help q
run_help (help_for Handler.command_reset) q = command_reset_help q
run_help (help_for Handler.command_help) q = command_help_help q
run_help (help_for Handler.command_reboot) q = command_reboot_help q
run_help (help_for Handler.command_tron) q = command_tron_help q
run_help (help_for Handler.command_troff) q = command_troff_help q
run_help (help_for Handler.command_version) q = command_version_help q
run_help (help_for Handler.command_wifi_ip) q = command_wifi_ip_help q
run_help (help_for Handler.command_shellexec) q = command_shellexec_help q
run_help (help_for Handler.command_create_alloc) q = command_create_alloc_help q
run_help (help_for Handler.command_free_alloc) q = command_free_alloc_help q
run_help (help_for Handler.command_retrieve_alloc) q = command_retrieve_alloc_help q
run_help (help_for Handler.command_store_alloc) q = command_store_alloc_help q
run_help (help_for Handler.command_insert_alloc) q = command_insert_alloc_help q
run_help (help_for Handler.command_cut_alloc) q = command_cut_alloc_help q
run_help (help_for Handler.command_load_alloc) q = command_load_alloc_help q
run_help (help_for Handler.command_save_alloc) q = command_save_alloc_help q
run_help (help_for Handler.command_get_file) q = command_get_file_help q
run_help (help_for Handler.command_put_file) q = command_put_file_help q
run_help (help_for Handler.command_get_mem_file) q = command_get_mem_file_help q
run_help (help_for Handler.command_put_mem_file) q = command_put_mem_file_help q

-- `command_defs[command_id].help_function(in_queue, out_queue)`
unfoldable pub send_help : ℕ → Server → Option (Bool × Server)
send_help command_id s = do
  d ← command_def command_id
  let (complete, q) = run_help d.help_function s.out_queue
  some (complete, record s { out_queue = q })

-- Behind the read of the parameter.
unfoldable pub help_on : Server → Bool × List ℕ × Queue → Option (Bool × Server)
help_on s (false, name, q) = send_help help (record s { in_queue = q })
help_on s (true, name, q) =
    let command_id = get_command_id_from_string name in
    if command_id == unknown
    then send_help help (record s { in_queue = q })
    else send_help command_id (record s { in_queue = q })

unfoldable pub command_help : Server → Option (Bool × Server)
command_help s =
    if get_previous_read_byte s.in_queue == newline
    then send_help help s
    else help_on s (get_command_next_param_text s.in_queue max_command_name_length true)
