-- ===== src/Help.antt =====
-- sw/examples/mcp/rpi_c/command.c: the functions that send help texts. Those that hold the texts
-- are in General, Memory and File, by the source file that they stand in; Command has HELP itself.
pub mod General
pub mod Memory
pub mod File
pub mod Frame
pub mod Command
pub mod Answers
mod Tests
use cpc_cplink.Prelude.{ℕ, ◌+◌, Bool, true, false, List, [], ◌∷◌, ◌++◌, length, if◌then◌else◌}
use cpc_cplink.Queue.{Queue}
use cpc_cplink.Packet.{
  PacketType, start_build_data_packet, add_data_to_packet, finish_build_data_packet_and_send,
  write_data_to_packet,
}

-- The loop ends at the NULL behind the last text.
unfoldable pub size_of_string_array : List (List ℕ) → ℕ
size_of_string_array [] = 0
size_of_string_array (text ∷ text_array) = length text + size_of_string_array text_array

-- The loop of `write_out_help_text_array`.
unfoldable pub add_texts : Queue → List (List ℕ) → Queue
add_texts queue [] = queue
add_texts queue (text ∷ texts) = add_texts (add_data_to_packet queue text) texts

unfoldable pub write_out_help_text_array : Queue → List (List ℕ) → Bool × Queue
write_out_help_text_array queue help_text_array =
    let (started, begun) =
      start_build_data_packet queue (size_of_string_array help_text_array)
        PacketType.text_command in
    if started
    then (true, finish_build_data_packet_and_send (add_texts begun help_text_array))
    else (false, begun)

-- The bytes of texts that are sent one behind the other.
abbrev pub joined : List (List ℕ) → List ℕ
joined [] = []
joined (text ∷ texts) = text ++ joined texts

-- The help functions with a single text: they do not look at the result of the write.
unfoldable pub write_help_text : Queue → List (List ℕ) → Bool × Queue
write_help_text out_queue texts =
    (true, (write_data_to_packet out_queue (joined texts) PacketType.text_command).1)
