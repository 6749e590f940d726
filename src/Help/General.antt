-- ===== src/Help/General.antt =====
-- sw/examples/mcp/rpi_c/command_general.c: the help functions and their texts.
use cpc_cplink.Prelude.{ℕ, Bool, List, [], ◌∷◌}
use cpc_cplink.Prelude.Text.{codes}
use cpc_cplink.Queue.{Queue}
use cpc_cplink.Help.{write_out_help_text_array, write_help_text}

abbrev pub unknown_text : List (List ℕ)
unknown_text = codes "\rAn UNKNOWN command was entered\r\rTry entering HELP\\n.\n" ∷ []

unfoldable pub command_unknown_help : Queue → Bool × Queue
command_unknown_help out_queue = write_help_text out_queue unknown_text

abbrev pub ping_text : List (List ℕ)
ping_text =
    codes
      "\rPING\r\rFunction: Used to test pi is responding to CPC commands.\r\rFormat: PING\\n\r\rReturn: PONG!\\n\r\n"
    ∷ []

unfoldable pub command_ping_help : Queue → Bool × Queue
command_ping_help out_queue = write_help_text out_queue ping_text

abbrev pub shutdown_text : List (List ℕ)
shutdown_text =
    codes
      "\rSHUTDOWN\r\rFunction: Command to shutdown the raspberry pi before powering off CPC.\rYou need to wait the number of seconds specified then check the pi is inactive    i.e. red led only on.\r\rFormat: SHUTDOWN\\n\r\rReturn: SHUTDOWN in x seconds\\n\r\n"
    ∷ []

unfoldable pub command_shutdown_help : Queue → Bool × Queue
command_shutdown_help out_queue = write_help_text out_queue shutdown_text

abbrev pub time_text : List (List ℕ)
time_text =
    codes
      "\rTIME\r\rFunction: Returns pi current time.  Will need time on pi to be set e.g. via ntp.\r\rFormat: TIME\\n\r\rReturn: HH:MM:SS\\n\r\n"
    ∷ []

unfoldable pub command_time_help : Queue → Bool × Queue
command_time_help out_queue = write_help_text out_queue time_text

abbrev pub date_text : List (List ℕ)
date_text =
    codes
      "\rDATE\r\rFunction: Returns pi current date.  Will need date on pi to be set e.g. via ntp.\r\rFormat: DATE\\n\r\rReturn: DD:MM:YYYY\\n\r\n"
    ∷ []

unfoldable pub command_date_help : Queue → Bool × Queue
command_date_help out_queue = write_help_text out_queue date_text

abbrev pub reset_text : List (List ℕ)
reset_text =
    codes "\rRESET\r\r"
    ∷ codes
        "Function: Reset MCP data structures, flushes queues, closes files, frees        allocated memory etc.\r\rUse this to bring the MCP back to a clean known state.\r\r"
    ∷ codes "Format: RESET\\n\r\r"
    ∷ codes "Return: OK\\n\r\n"
    ∷ []

unfoldable pub command_reset_help : Queue → Bool × Queue
command_reset_help out_queue = write_out_help_text_array out_queue reset_text

abbrev pub reboot_text : List (List ℕ)
reboot_text =
    codes
      "\rREBOOT\r\rFunction: Command to reboot the raspberry pi.\rYou need to wait the number of seconds before the reboot starts.\r\rFormat: REBOOT\\n\r\rReturn: REBOOT PI in x seconds\\n\r\n"
    ∷ []

unfoldable pub command_reboot_help : Queue → Bool × Queue
command_reboot_help out_queue = write_help_text out_queue reboot_text

abbrev pub tron_text : List (List ℕ)
tron_text =
    codes
      "\rTRON\r\rFunction: Turns on debugging information sent to pi console.\r\rFormat: TRON\\n\r\rReturn: OK\\n\r\n"
    ∷ []

unfoldable pub command_tron_help : Queue → Bool × Queue
command_tron_help out_queue = write_help_text out_queue tron_text

abbrev pub troff_text : List (List ℕ)
troff_text =
    codes
      "\rTROFF\r\rFunction: Turns off debugging information sent to pi console.\r\rFormat: TROFF\\n\r\rReturn: OK\\n\r\n"
    ∷ []

unfoldable pub command_troff_help : Queue → Bool × Queue
command_troff_help out_queue = write_help_text out_queue troff_text

abbrev pub version_text : List (List ℕ)
version_text =
    codes
      "\rVERSION\r\rFunction: Returns MCP current build version.\r\rFormat: VERSION\\n\r\rReturn: MCP v0.3\\n\r\n"
    ∷ []

unfoldable pub command_version_help : Queue → Bool × Queue
command_version_help out_queue = write_help_text out_queue version_text

abbrev pub wifi_ip_text : List (List ℕ)
wifi_ip_text =
    codes
      "\rWIFIIP\r\rFunction: Returns the ip address of the pi's wifi.\r\rFormat: WIFIIP\\n\r\rReturn: WIFI IP_ADDRESS\\n\r\n"
    ∷ []

unfoldable pub command_wifi_ip_help : Queue → Bool × Queue
command_wifi_ip_help out_queue = write_help_text out_queue wifi_ip_text

abbrev pub shellexec_text : List (List ℕ)
shellexec_text =
    codes
      "\rSHELLEXEC\r\rFunction: Calls a command as if run from a shell and returns the shell output.\r\rFormat: SHELLEXEC SHELL_COMMAND\\n\r\rReturn: Text from the shell\\n\r\n"
    ∷ []

unfoldable pub command_shellexec_help : Queue → Bool × Queue
command_shellexec_help out_queue = write_help_text out_queue shellexec_text
