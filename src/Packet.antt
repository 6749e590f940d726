-- ===== src/Packet.antt =====
-- sw/examples/mcp/rpi_c/packet.c: packets on the queues, and the packet constants of mcp_pi.h.
-- What the functions print under TRON is left out; the `global_temp_` variables serve it alone.
pub mod Frame
pub mod Write
pub mod Skip
pub mod Keeps
pub mod Receive
pub mod Payload
mod Tests
use Prim.Native.String.{String}
use cpc_cplink.Prelude.{
  ℕ, zero, suc, ◌+◌, ◌*◌, ◌/◌, ◌%◌, ◌^◌, Bool, true, false, ◌&&◌, ◌||◌, List, [], ◌∷◌, ltb, leb,
  length, ◌==◌, if◌then◌else◌,
}
use cpc_cplink.Prelude.Int.{ℤ, pos_part, sub_ℕ, leb_ℤ}
use cpc_cplink.Queue.{
  Queue, queue_size, number_bytes_in_queue_to_read, is_queue_space_available, queue_read_ahead_byte,
  increment_read_next_index, write_data_to_queue, write_byte_of_data_to_queue,
  get_next_three_bytes_from_queue, read_bytes,
}

abbrev pub packet_overhead : ℕ
packet_overhead = 9

abbrev pub front_packet_overhead : ℕ
front_packet_overhead = 3

abbrev pub front_delimiter_overhead : ℕ
front_delimiter_overhead = 3

abbrev pub rear_delimiter_overhead : ℕ
rear_delimiter_overhead = 3

abbrev pub packet_delimiter_overhead : ℕ
packet_delimiter_overhead = 6

-- `enum PacketType`, and the byte of each; `max_packet_type` is 5.
pub data PacketType : Type 0 where
  unknown_packet text_command binary_command binary_data graphic_directives : PacketType

abbrev pub packet_type_byte : PacketType → ℕ
packet_type_byte unknown_packet = 0
packet_type_byte text_command = 1
packet_type_byte binary_command = 2
packet_type_byte binary_data = 3
packet_type_byte graphic_directives = 4

abbrev pub max_packet_type : ℕ
max_packet_type = 5

-- "+++" and "---"
abbrev pub front_delimiter : List ℕ
front_delimiter = b'+' ∷ b'+' ∷ b'+' ∷ []

abbrev pub rear_delimiter : List ℕ
rear_delimiter = b'-' ∷ b'-' ∷ b'-' ∷ []

-- `memcmp` of a buffer of three bytes against a delimiter of one repeated byte.
abbrev pub is_three : ℕ → List ℕ → Bool
is_three d (a ∷ b ∷ c ∷ r) = a == d && b == d && c == d
is_three d r = false

-- One round takes one byte off the queue, so the unread bytes are enough fuel
-- (`skip_loop_lem` of Packet/Skip has the result for any fuel from there on).
unfoldable pub skip_loop : ℕ → List ℕ → Queue → Bool × Queue
skip_loop zero buffer queue = (false, queue)
skip_loop (suc fuel) buffer queue = elim (is_three b'+' buffer) [
  | true ↦ (true, queue)
  | false ↦
      (let moved = increment_read_next_index queue 1 in
        let (got, next, kept) = get_next_three_bytes_from_queue moved in
        elim got [ true ↦ skip_loop fuel next kept | false ↦ (false, kept) ])
]

unfoldable pub queue_skip_to_next_packet : Queue → Bool × Queue
queue_skip_to_next_packet queue =
    let (got, buffer, kept) = get_next_three_bytes_from_queue queue in
    if got then skip_loop (number_bytes_in_queue_to_read queue) buffer kept else (false, kept)

unfoldable pub queue_skip_terminator_of_packet : Queue → Queue
queue_skip_terminator_of_packet queue =
    let (got, buffer, kept) = get_next_three_bytes_from_queue queue in
    if got && is_three b'-' buffer
    then increment_read_next_index kept rear_delimiter_overhead
    else kept

-- The byte as it stands in the queue; it need not be a `PacketType`.
unfoldable pub get_packet_type : Queue → ℕ
get_packet_type queue = queue.bytes ((queue.read_next_byte + 5) % queue_size)

unfoldable pub get_packet_size : Queue → ℕ
get_packet_size queue =
    queue.bytes ((queue.read_next_byte + 3) % queue_size)
    + queue.bytes ((queue.read_next_byte + 4) % queue_size) * 256

unfoldable pub check_packet_for_terminator : Queue → ℕ → Bool
check_packet_for_terminator queue packet_size = is_three b'-' (
    queue_read_ahead_byte queue (front_delimiter_overhead + packet_size)
    ∷ queue_read_ahead_byte queue (front_delimiter_overhead + packet_size + 1)
    ∷ queue_read_ahead_byte queue (front_delimiter_overhead + packet_size + 2)
    ∷ [])

-- The checks that `is_complete_packet_available` makes where "+++" is found.
unfoldable pub check_packet : Queue → Bool × Queue
check_packet queue =
    let available = number_bytes_in_queue_to_read queue in
    let packet_size = get_packet_size queue in
    let discarded = increment_read_next_index queue (packet_size + packet_delimiter_overhead) in
    if ltb available (front_delimiter_overhead + front_packet_overhead)
    then (false, queue)
    else if ltb available (packet_size + packet_delimiter_overhead)
    then (false, queue)
    else if get_packet_type queue == 0 || leb max_packet_type (get_packet_type queue)
    then (false, discarded)
    else if check_packet_for_terminator queue packet_size
    then (true, queue)
    else (false, discarded)

unfoldable pub is_complete_packet_available : Queue → Bool × Queue
is_complete_packet_available queue =
    let (found, skipped) = queue_skip_to_next_packet queue in
    if found then check_packet skipped else (false, skipped)

-- `write_data_to_queue` where the caller does not look at the result.
abbrev pub put : Queue → List ℕ → Queue
put queue values = (write_data_to_queue queue values).1

-- The four writes that open a packet: the delimiter, the two bytes of PACKET_SIZE, PACKET_TYPE.
unfoldable pub write_packet_header : Queue → ℕ → PacketType → Queue
write_packet_header queue payload_size packet_type =
    let packet_size = payload_size + front_packet_overhead in
    let q1 = put queue front_delimiter in
    let q2 = put q1 (packet_size % 256 ∷ []) in
    let q3 = put q2 (packet_size / 256 % 256 ∷ []) in put q3 (packet_type_byte packet_type ∷ [])

unfoldable pub write_data_to_packet : Queue → List ℕ → PacketType → Bool × Queue
write_data_to_packet queue values packet_type =
    if is_queue_space_available queue (length values + packet_overhead)
    then (
      true,
      put (put (write_packet_header queue (length values) packet_type) values) rear_delimiter,
    )
    else (false, queue)

unfoldable pub start_build_data_packet : Queue → ℕ → PacketType → Bool × Queue
start_build_data_packet queue payload_size packet_type =
    if is_queue_space_available queue (payload_size + packet_overhead)
    then (true, write_packet_header queue payload_size packet_type)
    else (false, queue)

unfoldable pub add_data_to_packet : Queue → List ℕ → Queue
add_data_to_packet queue values = put queue values

unfoldable pub add_byte_of_data_to_packet : Queue → ℕ → Queue
add_byte_of_data_to_packet queue data_byte = (write_byte_of_data_to_queue queue data_byte).1

-- The `(BYTE)` cast of the command id is written out.
unfoldable pub add_3_bytes_of_data_to_packet : Queue → ℕ → ℕ → ℕ → Queue
unfolding add_byte_of_data_to_packet
add_3_bytes_of_data_to_packet queue command_id byte1 byte2 =
    let q1 = add_byte_of_data_to_packet queue (command_id % 256) in
    let q2 = add_byte_of_data_to_packet q1 byte1 in add_byte_of_data_to_packet q2 byte2

unfoldable pub add_4_bytes_of_data_to_packet : Queue → ℕ → ℕ → ℕ → ℕ → Queue
unfolding add_3_bytes_of_data_to_packet
add_4_bytes_of_data_to_packet queue command_id byte1 byte2 byte3 =
    add_byte_of_data_to_packet (add_3_bytes_of_data_to_packet queue command_id byte1 byte2) byte3

unfoldable pub add_5_bytes_of_data_to_packet : Queue → ℕ → ℕ → ℕ → ℕ → ℕ → Queue
unfolding add_4_bytes_of_data_to_packet
add_5_bytes_of_data_to_packet queue command_id byte1 byte2 byte3 byte4 =
    add_byte_of_data_to_packet (add_4_bytes_of_data_to_packet queue command_id byte1 byte2 byte3)
      byte4

-- `value` is the bit pattern of the `int`, below 2 ^ 32; each argument is cut to a byte.
unfoldable pub add_int_to_packet : Queue → ℕ → Queue
unfolding add_byte_of_data_to_packet
add_int_to_packet queue value =
    let q1 = add_byte_of_data_to_packet queue (value / 2 ^ 16 % 256) in
    let q2 = add_byte_of_data_to_packet q1 (value / 2 ^ 24 % 256) in
    let q3 = add_byte_of_data_to_packet q2 (value % 256) in
    add_byte_of_data_to_packet q3 (value / 2 ^ 8 % 256)

unfoldable pub finish_build_data_packet_and_send : Queue → Queue
finish_build_data_packet_and_send queue = put queue rear_delimiter

-- The list is what goes to the buffer. `page_size` may be below 0, and so may the body size of a
-- packet that announces fewer than 3 bytes.
unfoldable pub get_data_from_packet : Queue → ℤ → Bool × List ℕ × Queue
get_data_from_packet queue page_size =
    if leb_ℤ page_size (sub_ℕ (get_packet_size queue) front_packet_overhead)
    then (let (got, queue') =
          read_bytes (pos_part page_size)
            (increment_read_next_index queue (front_delimiter_overhead + front_packet_overhead)) in
        (true, got, queue'))
    else (false, [], queue)
