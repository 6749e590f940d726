-- ===== src/Queue/Sample.antt =====
-- Queues with given contents, for the tests: the array starts as zeros.
use cpc_cplink.Prelude.{ℕ, ◌<◌, ◌≡◌, refl, List, [], length, arith}
use cpc_cplink.Queue.{Queue, queue_size, write_data_to_queue, number_bytes_in_queue_to_read}
use cpc_cplink.Queue.Window.{window}
use cpc_cplink.Queue.Holds.{Holds, Holds-write}

abbrev pub drained : ℕ → Queue
drained index = record { bytes = λ i. 0; store_next_byte = index; read_next_byte = index }

pub drained-Holds : (index : ℕ) → index < queue_size → Holds (drained index) []
unfolding number_bytes_in_queue_to_read window
drained-Holds index lt =
    let none_left : number_bytes_in_queue_to_read (drained index) ≡ 0 = omega arith in
    record { valid = record { store_in = lt; read_in = lt }; unread = rw none_left refl }

-- The bytes, written from `index` on.
abbrev pub holding_at : ℕ → List ℕ → Queue
holding_at index bs = (write_data_to_queue (drained index) bs).1

pub holding-Holds :
    (index : ℕ) (bs : List ℕ)
    → index < queue_size
    → length bs < queue_size
    → Holds (holding_at index bs) bs
holding-Holds index bs lt fits =
    (Holds-write (drained index) [] bs (drained-Holds index lt) (omega arith)).1
