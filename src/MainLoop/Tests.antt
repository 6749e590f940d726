-- ===== src/MainLoop/Tests.antt =====
-- The loop on a server that has just started.
use cpc_cplink.Prelude.{
  ℕ, ◌≡◌, refl, Bool, true, false, Option, none, some, List, [], ◌∷◌, ◌++◌, arith,
}
use cpc_cplink.Prelude.Int.{pos}
use cpc_cplink.Queue.{
  Queue, is_queue_space_available, number_bytes_in_queue_to_read,
  number_free_bytes_in_queue_to_write_too,
}
use cpc_cplink.Queue.Holds.{Holds, Holds-used}
use cpc_cplink.Queue.Sample.{drained, drained-Holds, holding_at, holding-Holds}
use cpc_cplink.Packet.{
  PacketType, packet_type_byte, rear_delimiter, queue_skip_terminator_of_packet,
}
use cpc_cplink.Packet.Frame.{frame}
use cpc_cplink.Memstore.{memstore_init}
use cpc_cplink.Command.{
  Handler, command_def, command_defs, get_command_function, get_command_out_queue_space_required,
}
use cpc_cplink.Server.{Server, command_processor_init}
use cpc_cplink.MainLoop.{Loop, Outside, passes, check_for_packet}
use cpc_cplink.MainLoop.Locks.{Overcounted, Untouched, locked_for_ever}
use cpc_cplink.MainLoop.Packets.{
  unexpected_packet_stays, binary_command_refused, binary_command_completed,
}

abbrev server_of : Queue → Queue → ℕ → Server
server_of in_bytes out_bytes mode = record {
  in_queue = in_bytes;
  out_queue = out_bytes;
  memstore = memstore_init;
  command_states = command_processor_init;
  tron = false;
  binary_data_receive_mode = pos 0;
  binary_data_send_mode = pos mode;
}

-- Nothing to send, and a mode that counts 23 bytes.
abbrev stuck : Server
stuck = server_of (drained 0) (drained 7) 23

stuck-Overcounted : Overcounted stuck
stuck-Overcounted =
    let h = drained-Holds 7 (omega arith) in
    record {
      valid = h.valid;
      mode = 23;
      counted = refl;
      too_many = omega (arith, Holds-used (drained 7) [] h);
    }

abbrev nothing_done : Handler → ℕ → Server → Option (Bool × Server)
nothing_done h n s = some (true, s)

abbrev two_turns : List Outside
two_turns =
    record { dor = some 43; dir = true; time = 1; current_exec_time = 2; later = 3 }
    ∷ record { dor = none; dir = true; time = 4; current_exec_time = 5; later = 6 }
    ∷ []

abbrev stuck_loop : Loop
stuck_loop = record { server = stuck; packet_check_counter = 20; tick_check_counter = 100 }

locked_for_ever_example :
    (outs : List (Option ℕ)) × (l' : Loop) × (passes nothing_done two_turns stuck_loop
      ≡ some (outs, l'))
    × Overcounted l'.server
    × Untouched stuck l'.server
locked_for_ever_example = locked_for_ever nothing_done two_turns stuck_loop stuck-Overcounted

abbrev page_packet : List ℕ
page_packet = frame (packet_type_byte PacketType.binary_data) (1 ∷ 2 ∷ []) ++ (43 ∷ [])

abbrev page_arrived : Server
page_arrived = server_of (holding_at 131066 page_packet) (drained 0) 0

unexpected_packet_example :
    (q : Queue) × (check_for_packet nothing_done 5 page_arrived
      ≡ some (record page_arrived { in_queue = q }))
    × Holds q page_packet
unexpected_packet_example =
    unexpected_packet_stays nothing_done 5 page_arrived PacketType.binary_data (1 ∷ 2 ∷ [])
      (43 ∷ []) (λ e. absurd (cc)) (omega arith)
      (holding-Holds 131066 page_packet (omega arith) (omega arith)) (λ e. absurd (cc))
      (λ e. absurd (cc))

-- PING as a binary command.
abbrev ping_packet : List ℕ
ping_packet = frame 2 (1 ∷ []) ++ []

ping_arrived-Holds : Holds (holding_at 131066 ping_packet) ping_packet
ping_arrived-Holds = holding-Holds 131066 ping_packet (omega arith) (omega arith)

ping_function : get_command_function 1 ≡ some Handler.command_ping
unfolding get_command_function command_def command_defs
ping_function = refl

ping_space : get_command_out_queue_space_required 1 ≡ some 30
unfolding get_command_out_queue_space_required command_def command_defs
ping_space = refl

-- An out_queue with 20 free bytes.
abbrev nearly_full : Queue
nearly_full = record { bytes = λ i. 0; store_next_byte = 131050; read_next_byte = 0 }

no_room : is_queue_space_available nearly_full 30 ≡ false
unfolding is_queue_space_available number_bytes_in_queue_to_read
    number_free_bytes_in_queue_to_write_too
no_room = refl

some_room : is_queue_space_available (drained 0) 30 ≡ true
unfolding is_queue_space_available number_bytes_in_queue_to_read
    number_free_bytes_in_queue_to_write_too
some_room = refl

binary_command_refused_example :
    (q : Queue) × (check_for_packet nothing_done 5
        (server_of (holding_at 131066 ping_packet) nearly_full 0)
      ≡ some (record (server_of (holding_at 131066 ping_packet) nearly_full 0) { in_queue = q }))
    × Holds q ping_packet
binary_command_refused_example =
    binary_command_refused nothing_done 5 (server_of (holding_at 131066 ping_packet) nearly_full 0)
      1 [] [] (omega arith) ping_arrived-Holds Handler.command_ping 30 ping_function ping_space
      no_room

binary_command_completed_example :
    (read : Queue) × (s2 : Server) × Holds read (rear_delimiter ++ [])
    × (nothing_done Handler.command_ping 0
          (record (server_of (holding_at 131066 ping_packet) (drained 0) 0) { in_queue = read })
        ≡ some (true, s2))
    × (check_for_packet nothing_done 5 (server_of (holding_at 131066 ping_packet) (drained 0) 0)
        ≡ some (record s2 { in_queue = queue_skip_terminator_of_packet s2.in_queue }))
    × Holds (queue_skip_terminator_of_packet s2.in_queue) []
binary_command_completed_example =
    binary_command_completed nothing_done 5
      (server_of (holding_at 131066 ping_packet) (drained 0) 0) 1 [] [] (omega arith)
      ping_arrived-Holds Handler.command_ping 30 ping_function ping_space some_room
      (λ read h. (_, refl, h))
