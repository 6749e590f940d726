-- ===== src/Queue.antt =====
-- sw/examples/mcp/rpi_c/queue.c and queue.h: the ring buffer of 131070 bytes that stands on either
-- side of the interface. A function that changes `*queue` returns the new queue, beside its result.
-- The array `data` is the function `bytes` of the index; `IsValid` of Queue/Valid keeps the two
-- indices in range. A pair of a `BYTE *` and a count is a list. The arguments that callers pass as
-- counts are never below 0, so an `int` here is a number; `number_bytes` may carry an index past
-- the end, and `%` brings it back.
pub mod Valid
pub mod Window
pub mod Transfer
pub mod Fifo
pub mod Holds
pub mod Sample
mod Tests
use cpc_cplink.Prelude.{
  ℕ, zero, suc, ◌+◌, ◌-◌, ◌%◌, Bool, true, false, ◌&&◌, List, [], ◌∷◌, length, ltb, leb, ◌==◌,
  if◌then◌else◌,
}
use cpc_cplink.Prelude.Memory.{update}

abbrev pub queue_size : ℕ
queue_size = 131070

pub record Queue : Type 0 where
  pub bytes : ℕ → ℕ
  pub store_next_byte : ℕ
  pub read_next_byte : ℕ

-- `memset(queue, 0, sizeof(Queue))`
unfoldable pub init_queue : Queue → Queue
init_queue queue = record { bytes = λ _. 0; store_next_byte = 0; read_next_byte = 0 }

unfoldable pub queues_reset : Queue × Queue → Queue × Queue
unfolding init_queue
queues_reset (in_queue, out_queue) = (init_queue in_queue, init_queue out_queue)

unfoldable pub number_bytes_in_queue_to_read : Queue → ℕ
number_bytes_in_queue_to_read queue =
    (queue_size + queue.store_next_byte - queue.read_next_byte) % queue_size

unfoldable pub number_free_bytes_in_queue_to_write_too : Queue → ℕ
number_free_bytes_in_queue_to_write_too queue =
    if queue.store_next_byte == queue.read_next_byte
    then queue_size
    else (queue_size - queue.store_next_byte + queue.read_next_byte) % queue_size

unfoldable pub is_queue_space_available : Queue → ℕ → Bool
is_queue_space_available queue space_required =
    if queue.store_next_byte == queue.read_next_byte && ltb space_required queue_size
    then true
    else leb space_required
        ((queue_size - queue.store_next_byte + queue.read_next_byte) % queue_size)

unfoldable pub get_current_read_byte : Queue → ℕ
get_current_read_byte queue = queue.bytes queue.read_next_byte

unfoldable pub queue_read_ahead_byte : Queue → ℕ → ℕ
queue_read_ahead_byte queue bytes_ahead_to_read =
    queue.bytes ((queue.read_next_byte + bytes_ahead_to_read) % queue_size)

unfoldable pub store_to_current_write_byte : Queue → ℕ → Queue
store_to_current_write_byte queue value_to_store = record queue {
  bytes = update queue.bytes queue.store_next_byte value_to_store;
}

unfoldable pub get_previous_read_byte : Queue → ℕ
get_previous_read_byte queue =
    queue.bytes (if queue.read_next_byte == 0 then queue_size - 1 else queue.read_next_byte - 1)

unfoldable pub increment_read_next_index : Queue → ℕ → Queue
increment_read_next_index queue number_bytes = record queue {
  read_next_byte = (queue.read_next_byte + number_bytes) % queue_size;
}

unfoldable pub increment_store_next_index : Queue → ℕ → Queue
increment_store_next_index queue number_bytes = record queue {
  store_next_byte = (queue.store_next_byte + number_bytes) % queue_size;
}

-- The body of the loops that read a byte and step on, `n` times.
unfoldable pub read_bytes : ℕ → Queue → List ℕ × Queue
unfolding get_current_read_byte increment_read_next_index
read_bytes zero queue = ([], queue)
read_bytes (suc n) queue =
    let (rest, queue') = read_bytes n (increment_read_next_index queue 1) in
    (get_current_read_byte queue ∷ rest, queue')

-- The list is what the loop writes to `data`; nothing is written where the result is FALSE.
unfoldable pub get_data_from_queue : Queue → ℕ → Bool × List ℕ × Queue
get_data_from_queue queue number_of_bytes_required =
    if leb number_of_bytes_required (number_bytes_in_queue_to_read queue)
    then (let (got, queue') = read_bytes number_of_bytes_required queue in (true, got, queue'))
    else (false, [], queue)

-- One round of the loops that store a byte and step on.
unfoldable pub store_byte : Queue → ℕ → Queue
unfolding store_to_current_write_byte increment_store_next_index
store_byte queue value = increment_store_next_index (store_to_current_write_byte queue value) 1

unfoldable pub store_bytes : Queue → List ℕ → Queue
store_bytes queue [] = queue
store_bytes queue (value ∷ rest) = store_bytes (store_byte queue value) rest

unfoldable pub write_data_to_queue : Queue → List ℕ → Bool × Queue
write_data_to_queue queue values =
    if leb (length values) (number_free_bytes_in_queue_to_write_too queue)
    then (true, store_bytes queue values)
    else (false, queue)

unfoldable pub write_byte_of_data_to_queue : Queue → ℕ → Bool × Queue
write_byte_of_data_to_queue queue data_byte =
    if leb 1 (number_free_bytes_in_queue_to_write_too queue)
    then (true, store_byte queue data_byte)
    else (false, queue)

-- The loop moves `read_next_byte` three times, and the function puts it back.
unfoldable pub get_next_three_bytes_from_queue : Queue → Bool × List ℕ × Queue
get_next_three_bytes_from_queue queue =
    if leb 3 (number_bytes_in_queue_to_read queue)
    then (let (buffer, moved) = read_bytes 3 queue in
        (true, buffer, record moved { read_next_byte = queue.read_next_byte }))
    else (false, [], queue)

-- `print_in_queue` and `print_out_queue` on their queue: the bytes that they print, and the queue
-- with `read_next_byte` put back.
unfoldable pub print_queue : Queue → ℕ → ℕ → List ℕ × Queue
print_queue queue index_start number_bytes_to_display =
    let (shown, moved) =
      read_bytes number_bytes_to_display (record queue { read_next_byte = index_start }) in
    (shown, record moved { read_next_byte = queue.read_next_byte })
