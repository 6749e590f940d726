-- ===== src/Command.antt =====
-- sw/examples/mcp/rpi_c/command.h and command.c: the table of commands, and the functions that
-- read commands and parameters off the in_queue. A `Command` is its number: any byte may come off
-- the wire as one, so an access of the table may miss it.
pub mod Keeps
pub mod Id
pub mod Table
pub mod Params
pub mod Binary
pub mod Text
pub mod LongName
pub mod TextParam
mod Tests
use Prim.Native.String.{String}
use cpc_cplink.Prelude.{ℕ, Option, none, some, ◌>>=◌, List, [], ◌∷◌, get_elem?, Bool, if◌then◌else◌}
use cpc_cplink.Prelude.Text.{codes, strcmp_eq}
use Id.{
  unknown, ping, shutdown, time, date, reset, help, reboot, tron, troff, version, wifi_ip,
  shell_exec, spare2, spare3, spare4, spare5, spare6, spare7, spare8, spare9, create_alloc,
  free_alloc, retrieve_alloc, store_alloc, insert_alloc, cut_alloc, load_alloc, save_alloc,
  get_file, put_file, get_mem_file, put_mem_file,
}

-- The functions that carry out commands, in the order of the table.
pub data Handler : Type 0 where
  command_unknown command_ping command_shutdown command_time command_date command_reset command_help
        command_reboot command_tron command_troff command_version command_wifi_ip command_shellexec
        command_create_alloc command_free_alloc command_retrieve_alloc command_store_alloc
        command_insert_alloc command_cut_alloc command_load_alloc command_save_alloc
        command_get_file command_put_file command_get_mem_file command_put_mem_file :
      Handler

-- The help function of a command: `command_ping_help` is `help_for command_ping`.
pub data HelpFunction : Type 0 where
  help_for : Handler → HelpFunction

-- `tick_time` in milliseconds.
pub record CommandDef : Type 0 where
  pub command_id : ℕ
  pub command_text : List ℕ
  pub return_function : Handler
  pub help_function : HelpFunction
  pub tick_time : ℕ
  pub out_queue_space : ℕ

abbrev pub max_wifi_line_length : ℕ
max_wifi_line_length = 100

abbrev def : ℕ → String → Handler → ℕ → ℕ → CommandDef
def id text handler tick space = record {
  command_id = id;
  command_text = codes text;
  return_function = handler;
  help_function = help_for handler;
  tick_time = tick;
  out_queue_space = space;
}

unfoldable pub command_defs : List CommandDef
command_defs =
    def unknown "UNKNOWN" command_unknown 100 30
    ∷ def ping "PING" command_ping 100 30
    ∷ def shutdown "SHUTDOWN" command_shutdown 3000 30
    ∷ def time "TIME" command_time 100 30
    ∷ def date "DATE" command_date 100 30
    ∷ def reset "RESET" command_reset 100 30
    ∷ def help "HELP" command_help 100 1024
    ∷ def reboot "REBOOT" command_reboot 3000 30
    ∷ def tron "TRON" command_tron 100 30
    ∷ def troff "TROFF" command_troff 100 30
    ∷ def version "VERSION" command_version 100 30
    ∷ def wifi_ip "WIFIIP" command_wifi_ip 100 max_wifi_line_length
    ∷ def shell_exec "SHELLEXEC" command_shellexec 100 2048
    ∷ def spare2 "SPARE2" command_unknown 100 30
    ∷ def spare3 "SPARE3" command_unknown 100 30
    ∷ def spare4 "SPARE4" command_unknown 100 30
    ∷ def spare5 "SPARE5" command_unknown 100 30
    ∷ def spare6 "SPARE6" command_unknown 100 30
    ∷ def spare7 "SPARE7" command_unknown 100 30
    ∷ def spare8 "SPARE8" command_unknown 100 30
    ∷ def spare9 "SPARE9" command_unknown 100 30
    ∷ def create_alloc "CALLOC" command_create_alloc 100 30
    ∷ def free_alloc "FALLOC" command_free_alloc 100 30
    ∷ def retrieve_alloc "RALLOC" command_retrieve_alloc 500 30
    ∷ def store_alloc "SALLOC" command_store_alloc 100 30
    ∷ def insert_alloc "IALLOC" command_insert_alloc 100 30
    ∷ def cut_alloc "XALLOC" command_cut_alloc 100 30
    ∷ def load_alloc "PILALLOC" command_load_alloc 100 30
    ∷ def save_alloc "PISALLOC" command_save_alloc 100 30
    ∷ def get_file "GETFILE" command_get_file 100 30
    ∷ def put_file "PUTFILE" command_put_file 100 30
    ∷ def get_mem_file "GETMEMFILE" command_get_mem_file 100 30
    ∷ def put_mem_file "PUTMEMFILE" command_put_mem_file 100 30
    ∷ []

-- `command_defs[command_id]`; `none` is an access past the end of the table.
unfoldable pub command_def : ℕ → Option CommandDef
unfolding command_defs
command_def command_id = get_elem? command_defs command_id

unfoldable pub get_command_function : ℕ → Option Handler
unfolding command_def
get_command_function command_id = do d ← command_def command_id; some d.return_function

unfoldable pub get_command_tick_period : ℕ → Option ℕ
unfolding command_def
get_command_tick_period command_id = do d ← command_def command_id; some d.tick_time

unfoldable pub get_command_out_queue_space_required : ℕ → Option ℕ
unfolding command_def
get_command_out_queue_space_required command_id = do
  d ← command_def command_id
  some d.out_queue_space

unfoldable pub get_command_name_from_id : ℕ → Option (List ℕ)
unfolding command_def
get_command_name_from_id command_id = do d ← command_def command_id; some d.command_text

-- The search through the table.
unfoldable pub find_command : List CommandDef → List ℕ → ℕ
unfolding strcmp_eq
find_command [] command_string = unknown
find_command (d ∷ defs) command_string =
    if strcmp_eq d.command_text command_string
    then d.command_id
    else find_command defs command_string

unfoldable pub get_command_id_from_string : List ℕ → ℕ
unfolding command_defs find_command
get_command_id_from_string command_string = find_command command_defs command_string
