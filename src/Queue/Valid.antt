-- ===== src/Queue/Valid.antt =====
-- queue.c: the two indices stay inside the array, and what the counting functions count.
use cpc_cplink.Prelude.{
  ℕ, zero, suc, ◌+◌, ◌-◌, ◌≤◌, ◌<◌, ◌≡◌, ap, ◌↔◌, true, List, [], ◌∷◌, arith, length,
}
use cpc_cplink.Queue.{
  Queue, queue_size, init_queue, number_bytes_in_queue_to_read,
  number_free_bytes_in_queue_to_write_too, is_queue_space_available, increment_read_next_index,
  store_byte, store_bytes, read_bytes,
}

-- Every access of the array through an index is in bounds.
pub record IsValid (q : Queue) : Type 0 where
  pub store_in : q.store_next_byte < queue_size
  pub read_in : q.read_next_byte < queue_size

-- The number of unread bytes, shut, for statements.
abbrev pub used : Queue → ℕ
used = number_bytes_in_queue_to_read

pub used-lt : (q : Queue) → used q < queue_size
unfolding number_bytes_in_queue_to_read
used-lt q = omega arith

pub init-IsValid : (q : Queue) → IsValid (init_queue q) × (used (init_queue q) ≡ 0)
unfolding init_queue number_bytes_in_queue_to_read
init-IsValid q = omega arith

pub increment_read-IsValid :
    (q : Queue) (n : ℕ) → IsValid q → IsValid (increment_read_next_index q n)
unfolding increment_read_next_index
increment_read-IsValid q n v = omega arith

pub used-increment_read :
    (q : Queue) (n : ℕ) → IsValid q → n ≤ used q → used (increment_read_next_index q n) ≡ used q - n
unfolding increment_read_next_index number_bytes_in_queue_to_read
used-increment_read q n v h = omega arith

-- A step of the read index over a byte that is not there makes the queue look full.
pub used-increment_read_empty :
    (q : Queue) → IsValid q → used q ≡ 0 → used (increment_read_next_index q 1) ≡ 131069
unfolding increment_read_next_index number_bytes_in_queue_to_read
used-increment_read_empty q v h = omega arith

pub store_byte-IsValid : (q : Queue) (b : ℕ) → IsValid q → IsValid (store_byte q b)
unfolding store_byte
store_byte-IsValid q b v = omega arith

-- A byte stored where at least two are free is counted.
pub used-store_byte :
    (q : Queue) (b : ℕ) → IsValid q → used q + 1 < queue_size → used (store_byte q b) ≡ used q + 1
unfolding store_byte number_bytes_in_queue_to_read
used-store_byte q b v h = omega arith

pub store_bytes-IsValid : (q : Queue) (bs : List ℕ) → IsValid q → IsValid (store_bytes q bs)
unfolding store_bytes
store_bytes-IsValid q [] v = v
store_bytes-IsValid q (b ∷ bs) v =
    store_bytes-IsValid (store_byte q b) bs (store_byte-IsValid q b v)

pub used-store_bytes :
    (q : Queue) (bs : List ℕ)
    → IsValid q
    → used q + length bs < queue_size
    → used (store_bytes q bs) ≡ used q + length bs
unfolding store_bytes
used-store_bytes q [] v h = omega arith
used-store_bytes q (b ∷ bs) v h = omega (
  arith,
  used-store_byte q b v (omega arith),
  used-store_bytes (store_byte q b) bs (store_byte-IsValid q b v)
      (omega (arith, used-store_byte q b v (omega arith))),
)

-- The free bytes are all that are not used.
pub free-eq :
    (q : Queue) → IsValid q → number_free_bytes_in_queue_to_write_too q + used q ≡ queue_size
unfolding number_free_bytes_in_queue_to_write_too number_bytes_in_queue_to_read
free-eq q v = ground arith

-- For a valid queue `is_queue_space_available` is true exactly when what is asked for fits into the
-- free bytes, and is less than the whole array where the queue is empty.
pub space_available_iff :
    (q : Queue) (n : ℕ)
    → IsValid q
    → (is_queue_space_available q n ≡ true) ↔ ((n + used q ≤ queue_size) × (n < queue_size))
unfolding is_queue_space_available number_bytes_in_queue_to_read
space_available_iff q n v = (λ e. ground arith, λ h. ground arith)

pub read_bytes-IsValid : (n : ℕ) (q : Queue) → IsValid q → IsValid (read_bytes n q).1
unfolding read_bytes
read_bytes-IsValid zero q v = v
read_bytes-IsValid (suc n) q v =
    read_bytes-IsValid n (increment_read_next_index q 1) (increment_read-IsValid q 1 v)

pub increment_read-zero : (q : Queue) → IsValid q → increment_read_next_index q 0 ≡ q
unfolding increment_read_next_index
increment_read-zero q v = ap (λ k. record q { read_next_byte = k }) (omega arith)

-- Two steps of the read index are one.
pub increment_read-increment_read :
    (q : Queue) (m n k : ℕ)
    → k ≡ m + n
    → increment_read_next_index (increment_read_next_index q m) n ≡ increment_read_next_index q k
unfolding increment_read_next_index
increment_read-increment_read q m n k e = ap (λ r. record q { read_next_byte = r }) (omega arith)
