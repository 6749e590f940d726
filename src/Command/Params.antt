-- ===== src/Command/Params.antt =====
-- command.c: the functions that read a command and its parameters off the in_queue.
use cpc_cplink.Prelude.{
  ℕ, zero, suc, ◌+◌, ◌*◌, ◌%◌, ◌^◌, Bool, true, false, ◌&&◌, ◌||◌, not, List, [], ◌∷◌, ◌++◌, ltb,
  ◌==◌, if◌then◌else◌,
}
use cpc_cplink.Prelude.Int.{ℤ, pos, negsuc, sub_ℕ, leb_ℤ, ◌-ℤ◌, ◌+ℤ◌, is_pos}
use cpc_cplink.Queue.{Queue, queue_size, get_current_read_byte, increment_read_next_index}
use cpc_cplink.Packet.{front_delimiter_overhead, front_packet_overhead}

abbrev pub max_command_name_length : ℕ
max_command_name_length = 30

abbrev pub newline : ℕ
newline = 10

abbrev pub space : ℕ
space = 32

-- The byte at the read index, and the queue one byte on: `get_command_next_8bit_param_bin`.
unfoldable pub get_command_next_8bit_param_bin : Queue → ℕ × Queue
get_command_next_8bit_param_bin in_queue =
    (get_current_read_byte in_queue, increment_read_next_index in_queue 1)

-- The result is an `int` that is never below 0.
unfoldable pub get_command_next_16bit_param_bin : Queue → ℕ × Queue
unfolding get_command_next_8bit_param_bin
get_command_next_16bit_param_bin in_queue =
    let (low, q1) = get_command_next_8bit_param_bin in_queue in
    let (high, q2) = get_command_next_8bit_param_bin q1 in (high * 256 + low, q2)

-- The bit pattern of the `int`; `unsigned int` arithmetic wraps.
unfoldable pub get_command_next_32bit_param_bin : Queue → ℕ × Queue
unfolding get_command_next_8bit_param_bin
get_command_next_32bit_param_bin in_queue =
    let (b1, q1) = get_command_next_8bit_param_bin in_queue in
    let (b2, q2) = get_command_next_8bit_param_bin q1 in
    let (b3, q3) = get_command_next_8bit_param_bin q2 in
    let (b4, q4) = get_command_next_8bit_param_bin q3 in
    let upper = (b2 * 256 + b1) * 65536 % 2 ^ 32 in
    let middle = (b3 + upper) % 2 ^ 32 in ((b4 * 256 + middle) % 2 ^ 32, q4)

unfoldable pub get_command_bin : Queue → ℕ × Queue
unfolding get_command_next_8bit_param_bin
get_command_bin in_queue =
    get_command_next_8bit_param_bin
      (increment_read_next_index in_queue (front_delimiter_overhead + front_packet_overhead))

-- A queue as a signed step leaves it: with its read index, or with -(n + 1) in place of that.
pub data Moved : Type 0 where
  inside : Queue → Moved
  below : Queue → ℕ → Moved

abbrev pub moved_to : Queue → ℤ → Moved
moved_to queue (pos i) = inside (record queue { read_next_byte = i })
moved_to queue (negsuc n) = below queue n

abbrev pub negated : ℕ → ℤ
negated zero = pos zero
negated (suc n) = negsuc n

-- C's `%`, which keeps the sign of its left side.
abbrev pub remainder : ℤ → ℕ → ℤ
remainder (pos a) n = pos (a % n)
remainder (negsuc a) n = negated (suc a % n)

-- `increment_read_next_index` where the count may be below 0, and so the index that it sets.
unfoldable pub increment_read_next_index_signed : Queue → ℤ → Moved
increment_read_next_index_signed queue number_bytes =
    moved_to queue (remainder (pos queue.read_next_byte +ℤ number_bytes) queue_size)

-- Where the loop over the command name has stopped: whether it met the end of the name, the bytes
-- that it put into `command_string`, and their number.
pub record NameScan : Type 0 where
  pub command_name_complete : Bool
  pub command_string : List ℕ
  pub index : ℕ
  pub queue : Queue

-- `room` is `MAX_COMMAND_NAME_LENGTH - index`, which every round that goes on makes smaller.
unfoldable pub scan_name : (room index : ℕ) → ℤ → List ℕ → Queue → NameScan
scan_name zero index packet_body_size text queue = record {
  command_name_complete = false;
  command_string = text;
  index = index;
  queue = queue;
}
scan_name (suc room) index packet_body_size text queue =
    let byte = get_current_read_byte queue in
    let next = increment_read_next_index queue 1 in
    let rest = scan_name room (suc index) packet_body_size (text ++ byte ∷ []) next in
    if leb_ℤ (pos index) packet_body_size
    then (if (byte == space || byte == newline) && ltb 0 index
        then record {
          command_name_complete = true;
          command_string = text;
          index = index;
          queue = next;
        }
        else rest)
    else record {
      command_name_complete = false;
      command_string = text;
      index = index;
      queue = queue;
    }

-- The last part of `get_command_text`: skipping the rest of a name that is too long.
unfoldable pub finish_name : ℤ → NameScan → Bool × List ℕ × Moved
finish_name packet_body_size s =
    if s.index == max_command_name_length && not s.command_name_complete
    then (
      false,
      s.command_string,
      increment_read_next_index_signed s.queue (packet_body_size -ℤ pos s.index),
    )
    else (s.command_name_complete, s.command_string, inside s.queue)

-- `get_command_text` behind the packet header, with the read index at the body.
unfoldable pub get_body_text : ℤ → Queue → Bool × List ℕ × Moved
get_body_text packet_body_size queue =
    if get_current_read_byte queue == newline || is_pos 1 packet_body_size
    then (false, [], inside (increment_read_next_index queue 1))
    else if is_pos 0 packet_body_size
    then (false, [], inside queue)
    else finish_name packet_body_size
        (scan_name max_command_name_length 0 packet_body_size [] queue)

-- Whether there is a command name, the bytes of `command_string` that the function sets, and the
-- queue.
unfoldable pub get_command_text : Queue → Bool × List ℕ × Moved
unfolding get_command_next_8bit_param_bin
get_command_text in_queue =
    let q3 = increment_read_next_index in_queue front_delimiter_overhead in
    let (low, q4) = get_command_next_8bit_param_bin q3 in
    let (high, q5) = get_command_next_8bit_param_bin q4 in
    let q6 = increment_read_next_index q5 1 in
    get_body_text (sub_ℕ (high * 256 + low) front_packet_overhead) q6

-- The loops of the text parameters stop at a byte that `stop` names, or when `room` is used up.
-- The result is the bytes copied, the room left and the queue.
unfoldable pub scan_param : (ℕ → Bool) → ℕ → Queue → List ℕ × ℕ × Queue
scan_param stop zero queue = ([], zero, queue)
scan_param stop (suc room) queue =
    let byte = get_current_read_byte queue in
    let (text, left, queue') = scan_param stop room (increment_read_next_index queue 1) in
    if stop byte then ([], suc room, queue) else (byte ∷ text, left, queue')

abbrev pub is_separator : ℕ → Bool
is_separator byte = byte == space || byte == newline

-- The buffer is cleared where the result is FALSE. `max_size_of_param` is the size of the buffer.
unfoldable pub get_command_next_param_text : Queue → ℕ → Bool → Bool × List ℕ × Queue
unfolding scan_param
get_command_next_param_text in_queue max_size_of_param nl_terminated =
    let (text, left, queue) = scan_param is_separator max_size_of_param in_queue in
    let byte = get_current_read_byte queue in
    if left == 0 && not (byte == space) && not (byte == newline)
    then (false, [], queue)
    else if byte == space && not nl_terminated
    then (true, text, increment_read_next_index queue 1)
    else if byte == newline && nl_terminated
    then (true, text, increment_read_next_index queue 1)
    else (false, [], queue)

unfoldable pub get_all_command_params_text : Queue → ℕ → Bool × List ℕ × Queue
unfolding scan_param
get_all_command_params_text in_queue max_size_of_param =
    let (text, left, queue) = scan_param (λ byte. byte == newline) max_size_of_param in_queue in
    let byte = get_current_read_byte queue in
    if left == 0 && not (byte == newline)
    then (false, [], queue)
    else if byte == newline
    then (true, text, increment_read_next_index queue 1)
    else (true, text, queue)
