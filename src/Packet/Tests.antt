-- ===== src/Packet/Tests.antt =====
-- Packets on small queues.
use cpc_cplink.Prelude.{ℕ, ◌≡◌, true, List, [], ◌∷◌, ◌++◌, arith}
use cpc_cplink.Prelude.Int.{pos}
use cpc_cplink.Queue.{Queue}
use cpc_cplink.Queue.Holds.{Holds}
use cpc_cplink.Queue.Sample.{holding_at, holding-Holds}
use cpc_cplink.Packet.{
  PacketType, packet_type_byte, write_data_to_packet, is_complete_packet_available,
  get_data_from_packet, get_packet_type, queue_skip_terminator_of_packet,
}
use cpc_cplink.Packet.Frame.{frame, parse_front}
use cpc_cplink.Packet.Skip.{Agrees}
use cpc_cplink.Packet.Receive.{is_complete_packet_available_lem}
use cpc_cplink.Packet.Payload.{packet_round_trip}

abbrev noise_bytes : List ℕ
noise_bytes = 65 ∷ 45 ∷ []

abbrev noisy : Queue
noisy = holding_at 131060 noise_bytes

noisy-Holds : Holds noisy noise_bytes
noisy-Holds = holding-Holds 131060 noise_bytes (omega arith) (omega arith)

abbrev ping_text : List ℕ
ping_text = 80 ∷ 73 ∷ 78 ∷ 71 ∷ 10 ∷ []

packet_round_trip_example :
    let (_, sent) = write_data_to_packet noisy ping_text PacketType.text_command in
    let (found, ready) = is_complete_packet_available sent in
    let (done, got, read) = get_data_from_packet ready (pos 5) in
    (found ≡ true)
    × (get_packet_type ready ≡ packet_type_byte PacketType.text_command)
    × (done ≡ true)
    × (got ≡ ping_text)
    × Holds (queue_skip_terminator_of_packet read) []
packet_round_trip_example =
    packet_round_trip noisy noise_bytes ping_text PacketType.text_command noisy-Holds
      ((λ e. absurd (omega arith)), ((λ e. absurd (omega arith)), tt)) (λ e. absurd (cc))
      (omega arith) (omega arith)

abbrev bad_packet : List ℕ
bad_packet = frame 9 (1 ∷ 2 ∷ []) ++ (65 ∷ [])

abbrev bad_queue : Queue
bad_queue = holding_at 131060 bad_packet

bad_queue-Holds : Holds bad_queue bad_packet
bad_queue-Holds = holding-Holds 131060 bad_packet (omega arith) (omega arith)

complete_packet_example : Agrees (is_complete_packet_available bad_queue) (parse_front bad_packet)
complete_packet_example = is_complete_packet_available_lem bad_queue bad_packet bad_queue-Holds
