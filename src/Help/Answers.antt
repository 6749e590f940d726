-- ===== src/Help/Answers.antt =====
-- The help functions against their texts, and the answers of HELP.
use cpc_cplink.Prelude.{
  ℕ, ◌+◌, ◌<◌, ◌≡◌, refl, ap, ap₂, subst, ◌∙◌, Bool, true, false, some, List, [], ◌∷◌, ◌++◌, length,
  ◌==◌, if◌then◌else◌, All, Bool-cases, inl, inr, arith,
}
use cpc_cplink.Prelude.Text.{codes}
use cpc_cplink.Queue.{Queue, queue_size, get_previous_read_byte}
use cpc_cplink.Queue.Holds.{Holds}
use cpc_cplink.Packet.Frame.{frame}
use cpc_cplink.Command.{
  Handler, help_for, CommandDef, command_defs, command_def, get_command_id_from_string,
}
use cpc_cplink.Command.Id.{unknown, help}
use cpc_cplink.Command.Params.{newline, max_command_name_length, get_command_next_param_text}
use cpc_cplink.Command.Text.{IsNameByte}
use cpc_cplink.Command.TextParam.{get_command_next_param_text_lem}
use cpc_cplink.Server.{Server}
use cpc_cplink.Help.{joined}
use cpc_cplink.Help.General.{
  command_unknown_help, command_ping_help, command_shutdown_help, command_time_help,
  command_date_help, command_reset_help, command_reboot_help, command_tron_help, command_troff_help,
  command_version_help, command_wifi_ip_help, command_shellexec_help, unknown_text, ping_text,
  shutdown_text, time_text, date_text, reset_text, reboot_text, tron_text, troff_text, version_text,
  wifi_ip_text, shellexec_text,
}
use cpc_cplink.Help.Memory.{
  command_create_alloc_help, command_free_alloc_help, command_retrieve_alloc_help,
  command_store_alloc_help, command_insert_alloc_help, command_cut_alloc_help,
  command_load_alloc_help, command_save_alloc_help, create_alloc_text, free_alloc_text,
  retrieve_alloc_text, store_alloc_text, insert_alloc_text, cut_alloc_text, load_alloc_text,
  save_alloc_text,
}
use cpc_cplink.Help.File.{
  command_get_file_help, command_put_file_help, command_get_mem_file_help,
  command_put_mem_file_help, get_file_text,
}
use cpc_cplink.Help.Command.{run_help, send_help, help_on, command_help}
use cpc_cplink.Help.Frame.{
  Sends, write_help-Sends, write_out-Sends, help_help_text, help_help-Sends,
}

-- The text of every command that has one; the last three are to be done.
abbrev pub help_text : Handler → List ℕ
help_text Handler.command_unknown = joined unknown_text
help_text Handler.command_ping = joined ping_text
help_text Handler.command_shutdown = joined shutdown_text
help_text Handler.command_time = joined time_text
help_text Handler.command_date = joined date_text
help_text Handler.command_reset = joined reset_text
help_text Handler.command_help = help_help_text
help_text Handler.command_reboot = joined reboot_text
help_text Handler.command_tron = joined tron_text
help_text Handler.command_troff = joined troff_text
help_text Handler.command_version = joined version_text
help_text Handler.command_wifi_ip = joined wifi_ip_text
help_text Handler.command_shellexec = joined shellexec_text
help_text Handler.command_create_alloc = joined create_alloc_text
help_text Handler.command_free_alloc = joined free_alloc_text
help_text Handler.command_retrieve_alloc = joined retrieve_alloc_text
help_text Handler.command_store_alloc = joined store_alloc_text
help_text Handler.command_insert_alloc = joined insert_alloc_text
help_text Handler.command_cut_alloc = joined cut_alloc_text
help_text Handler.command_load_alloc = joined load_alloc_text
help_text Handler.command_save_alloc = joined save_alloc_text
help_text Handler.command_get_file = joined get_file_text
help_text Handler.command_put_file = []
help_text Handler.command_get_mem_file = []
help_text Handler.command_put_mem_file = []

abbrev pub has_help : Handler → Bool
has_help Handler.command_put_file = false
has_help Handler.command_get_mem_file = false
has_help Handler.command_put_mem_file = false
has_help h = true

-- Every command but the three whose help is to be done: its help function sends its help text as one
-- packet and is complete, where the out_queue has the space that HELP asks for.
pub run_help-Sends : (h : Handler) → has_help h ≡ true → Sends (run_help (help_for h)) (help_text h)
unfolding run_help command_unknown_help command_ping_help command_shutdown_help command_time_help
    command_date_help command_reset_help command_reboot_help command_tron_help command_troff_help
    command_version_help command_wifi_ip_help command_shellexec_help command_create_alloc_help
    command_free_alloc_help command_retrieve_alloc_help command_store_alloc_help
    command_insert_alloc_help command_cut_alloc_help command_load_alloc_help command_save_alloc_help
    command_get_file_help command_put_file_help command_get_mem_file_help command_put_mem_file_help
run_help-Sends Handler.command_unknown has = write_help-Sends unknown_text (omega arith)
run_help-Sends Handler.command_ping has = write_help-Sends ping_text (omega arith)
run_help-Sends Handler.command_shutdown has = write_help-Sends shutdown_text (omega arith)
run_help-Sends Handler.command_time has = write_help-Sends time_text (omega arith)
run_help-Sends Handler.command_date has = write_help-Sends date_text (omega arith)
run_help-Sends Handler.command_reset has = write_out-Sends reset_text (omega arith)
run_help-Sends Handler.command_help has = help_help-Sends
run_help-Sends Handler.command_reboot has = write_help-Sends reboot_text (omega arith)
run_help-Sends Handler.command_tron has = write_help-Sends tron_text (omega arith)
run_help-Sends Handler.command_troff has = write_help-Sends troff_text (omega arith)
run_help-Sends Handler.command_version has = write_help-Sends version_text (omega arith)
run_help-Sends Handler.command_wifi_ip has = write_help-Sends wifi_ip_text (omega arith)
run_help-Sends Handler.command_shellexec has = write_help-Sends shellexec_text (omega arith)
run_help-Sends Handler.command_create_alloc has = write_out-Sends create_alloc_text (omega arith)
run_help-Sends Handler.command_free_alloc has = write_out-Sends free_alloc_text (omega arith)
run_help-Sends Handler.command_retrieve_alloc has =
    write_out-Sends retrieve_alloc_text (omega arith)
run_help-Sends Handler.command_store_alloc has = write_out-Sends store_alloc_text (omega arith)
run_help-Sends Handler.command_insert_alloc has = write_out-Sends insert_alloc_text (omega arith)
run_help-Sends Handler.command_cut_alloc has = write_out-Sends cut_alloc_text (omega arith)
run_help-Sends Handler.command_load_alloc has = write_out-Sends load_alloc_text (omega arith)
run_help-Sends Handler.command_save_alloc has = write_out-Sends save_alloc_text (omega arith)
run_help-Sends Handler.command_get_file has = write_out-Sends get_file_text (omega arith)
run_help-Sends Handler.command_put_file has = absurd (cc)
run_help-Sends Handler.command_get_mem_file has = absurd (cc)
run_help-Sends Handler.command_put_mem_file has = absurd (cc)

-- A command's entry of the table, with a help function that has a text.
pub record Helps (command_id : ℕ) (h : Handler) : Type 0 where
  pub def : CommandDef
  pub entry : command_def command_id ≡ some def
  pub calls : def.help_function ≡ help_for h
  pub has_text : has_help h ≡ true

send_help-Sends :
    (id : ℕ) (h : Handler) (s : Server) (l : List ℕ)
    → Helps id h
    → Holds s.out_queue l
    → length l + 1024 < queue_size
    → (q : Queue) × (send_help id s ≡ some (true, record s { out_queue = q }))
      × Holds q (l ++ frame 1 (help_text h))
unfolding send_help
send_help-Sends id h s l e held room =
    let sent = (run_help-Sends h e.has_text).sends s.out_queue l held room in
    let q = (run_help (help_for h) s.out_queue).1 in (q, rw (e.entry, e.calls, sent.0) refl, sent.1)

help-Helps : Helps help Handler.command_help
unfolding command_def command_defs
help-Helps = record {
  def = record {
    command_id = help;
    command_text = codes "HELP";
    return_function = Handler.command_help;
    help_function = help_for Handler.command_help;
    tick_time = 100;
    out_queue_space = 1024;
  };
  entry = refl;
  calls = refl;
  has_text = refl;
}

help_on_name :
    (s : Server) (name : List ℕ) (q : Queue)
    → let id = get_command_id_from_string name in
      help_on s (true, name, q)
      ≡ send_help (if id == unknown then help else id) (record s { in_queue = q })
unfolding help_on
help_on_name s name q = elim (Bool-cases (get_command_id_from_string name == unknown)) [
  | inl e ↦ rw e refl
  | inr e ↦ rw e refl
]

-- HELP with a name of less than 30 bytes behind it, where the byte before the name is no newline and the
-- out_queue has the space that HELP asks for: the answer is one packet with exactly the help text
-- of that command, which is none of PUTFILE, GETMEMFILE and PUTMEMFILE, or with the help text of HELP
-- where no command has the name.
pub command_help_answers :
    (s : Server) (name rest l : List ℕ) (h : Handler)
    → (get_previous_read_byte s.in_queue == newline) ≡ false
    → All IsNameByte name
    → length name < max_command_name_length
    → Holds s.in_queue (name ++ newline ∷ rest)
    → Holds s.out_queue l
    → length l + 1024 < queue_size
    → (let id = get_command_id_from_string name in Helps (if id == unknown then help else id) h)
    → (s' : Server) × (command_help s ≡ some (true, s'))
      × Holds s'.in_queue rest
      × Holds s'.out_queue (l ++ frame 1 (help_text h))
      × (s'.memstore ≡ s.memstore)
unfolding command_help
command_help_answers s name rest l h other bytes fits held out room helps =
    let read = get_command_next_param_text s.in_queue max_command_name_length true in
    let (found, param, left) =
      get_command_next_param_text_lem name true rest s.in_queue max_command_name_length true bytes
        (omega arith) held in
    let s1 : Server = record s { in_queue = read.2 } in
    let param' : read.1 ≡ name = param ∙ ap (λ b. if b then name else []) found in
    let left' : Holds read.2 rest =
      subst (λ b. Holds read.2 (if b then rest else newline ∷ rest)) found left in
    let triple : read ≡ (true, name, read.2) = ap₂ (λ a b. (a, b, read.2)) found param' in
    let id = get_command_id_from_string name in
    let (q, sent, holds) =
      send_help-Sends (if id == unknown then help else id) h s1 l helps out room in
    let both = help_on_name s name read.2 ∙ sent in
    (record s1 { out_queue = q }, rw other (ap (help_on s) triple ∙ both), left', holds, refl)
