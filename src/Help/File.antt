-- ===== src/Help/File.antt =====
-- sw/examples/mcp/rpi_c/command_file.c: the help functions and their texts.
use cpc_cplink.Prelude.{ℕ, Bool, false, List, [], ◌∷◌}
use cpc_cplink.Prelude.Text.{codes}
use cpc_cplink.Queue.{Queue}
use cpc_cplink.Help.{write_out_help_text_array}

abbrev pub get_file_text : List (List ℕ)
get_file_text =
    codes "\rGETFILE\r\r"
    ∷ codes "Function: Retrieves a file from pi storage and stores it on cpc storage.\r\r"
    ∷ codes "Format: GETFILE /PATH/TO/FILE\n\r\r"
    ∷ codes "Return: GETFILE\r\r\n"
    ∷ []

unfoldable pub command_get_file_help : Queue → Bool × Queue
command_get_file_help out_queue = write_out_help_text_array out_queue get_file_text

unfoldable pub command_put_file_help : Queue → Bool × Queue
command_put_file_help out_queue = (false, out_queue)

unfoldable pub command_get_mem_file_help : Queue → Bool × Queue
command_get_mem_file_help out_queue = (false, out_queue)

unfoldable pub command_put_mem_file_help : Queue → Bool × Queue
command_put_mem_file_help out_queue = (false, out_queue)
