-- ===== src/Queue/Transfer.antt =====
-- queue.c: what the functions that move bytes do to the unread bytes, on every branch.
use cpc_cplink.Prelude.{
  ℕ, zero, suc, ◌+◌, ◌%◌, ◌<◌, ◌≡◌, refl, sym, ap, ◌∙◌, true, false, List, [], ◌∷◌, ◌++◌, arith,
  length, length-append, take, drop, take-all, ltb, leb, ◌==◌, if◌then◌else◌,
}
use cpc_cplink.Queue.{
  Queue, queue_size, number_bytes_in_queue_to_read, increment_read_next_index, store_byte,
  store_bytes, write_data_to_queue, write_byte_of_data_to_queue, get_data_from_queue,
  get_next_three_bytes_from_queue, read_bytes, print_queue,
}
use cpc_cplink.Queue.Valid.{
  IsValid, used, free-eq, store_byte-IsValid, store_bytes-IsValid, increment_read-IsValid,
}
use cpc_cplink.Queue.Window.{
  window, contents, length-contents, contents-store_bytes, contents-increment_read, read_bytes_lem,
}

-- The indices after a run of stores.
store_bytes_indices :
    (q : Queue) (bs : List ℕ)
    → IsValid q
    → ((store_bytes q bs).store_next_byte ≡ (q.store_next_byte + length bs) % queue_size)
      × ((store_bytes q bs).read_next_byte ≡ q.read_next_byte)
unfolding store_bytes store_byte
store_bytes_indices q [] v = (omega arith, refl)
store_bytes_indices q (b ∷ bs) v =
    let ih = store_bytes_indices (store_byte q b) bs (store_byte-IsValid q b v) in
    (omega (arith, ih.0), ih.1)

-- A run of stores that takes the last free byte makes the indices equal: nothing is unread.
used-store_bytes_full :
    (q : Queue) (bs : List ℕ)
    → IsValid q
    → used q + length bs ≡ queue_size
    → used (store_bytes q bs) ≡ 0
unfolding number_bytes_in_queue_to_read
used-store_bytes_full q bs v e = omega (arith, store_bytes_indices q bs v)

contents-store_bytes_full :
    (q : Queue) (bs : List ℕ)
    → IsValid q
    → used q + length bs ≡ queue_size
    → contents (store_bytes q bs) ≡ []
unfolding window
contents-store_bytes_full q bs v e = rw (used-store_bytes_full q bs v e) refl

-- What a queue with `n` more bytes stored into it holds: all of them while one byte stays free,
-- nothing at all when the last free byte is taken.
abbrev pub stored : Queue → List ℕ → List ℕ
stored q bs =
    if ltb (used q + length bs) queue_size
    then contents q ++ bs
    else if used q + length bs == queue_size
    then []
    else contents q

-- `write_data_to_queue` on a valid queue returns TRUE exactly when the bytes fit into the free
-- ones. It appends them where a byte stays free, empties the queue where they take all free
-- bytes, and changes nothing where they do not fit; the queue stays valid.
pub write_data_to_queue_lem :
    (q : Queue) (bs : List ℕ)
    → IsValid q
    → let (done, q') = write_data_to_queue q bs in
      (done ≡ leb (used q + length bs) queue_size) × (contents q' ≡ stored q bs) × IsValid q'
unfolding write_data_to_queue
write_data_to_queue_lem q bs v = ground (
  arith,
  free-eq q v,
  contents-store_bytes q bs v,
  contents-store_bytes_full q bs v,
  store_bytes-IsValid q bs v,
)

pub write_byte-eq-write_data :
    (q : Queue) (b : ℕ) → write_byte_of_data_to_queue q b ≡ write_data_to_queue q (b ∷ [])
unfolding write_byte_of_data_to_queue write_data_to_queue store_bytes
write_byte-eq-write_data q b = refl

-- `get_data_from_queue` on a valid queue returns TRUE exactly when so many bytes are unread. Then
-- it hands over the oldest of them in order and takes them off the queue; otherwise it changes
-- nothing. The queue stays valid.
pub get_data_from_queue_lem :
    (q : Queue) (n : ℕ)
    → IsValid q
    → let (done, got, q') = get_data_from_queue q n in
      (done ≡ leb n (used q))
      × (got ≡ (if leb n (used q) then take n (contents q) else []))
      × (contents q' ≡ (if leb n (used q) then drop n (contents q) else contents q))
      × IsValid q'
unfolding get_data_from_queue
get_data_from_queue_lem q n v =
    ground
      (arith, read_bytes_lem n q v, contents-increment_read q n v, increment_read-IsValid q n v)

-- Bytes written to a queue that keeps a byte free come out of it again, behind those that it held
-- before, unchanged and in order.
pub get_data-write_data :
    (q : Queue) (bs : List ℕ)
    → IsValid q
    → used q + length bs < queue_size
    → let q' = (write_data_to_queue q bs).1 in
      (get_data_from_queue q' (used q + length bs)).1 ≡ contents q ++ bs
get_data-write_data q bs v h =
    let w = write_data_to_queue_lem q bs v in
    let q' = (write_data_to_queue q bs).1 in
    let kept : contents q' ≡ contents q ++ bs = ground (arith, w) in
    let counted : used q' ≡ used q + length bs =
      sym (length-contents q')
      ∙ ap length kept
      ∙ length-append (contents q) bs
      ∙ ap (λ n. n + length bs) (length-contents q) in
    ground (
      arith,
      get_data_from_queue_lem q' (used q + length bs) w.2,
      take-all (used q + length bs) (contents q') (omega (arith, length-contents q')),
    )

-- `get_next_three_bytes_from_queue` returns the three oldest bytes where there are three, and does
-- not change the queue.
pub get_next_three_lem :
    (q : Queue)
    → IsValid q
    → get_next_three_bytes_from_queue q
      ≡ (if leb 3 (used q) then (true, take 3 (contents q), q) else (false, [], q))
unfolding get_next_three_bytes_from_queue increment_read_next_index
get_next_three_lem q v = ground (arith, read_bytes_lem 3 q v)

-- Whatever the counts, reading moves the read index and nothing else.
read_bytes_moves :
    (n : ℕ) (q : Queue)
    → ((read_bytes n q).1.bytes ≡ q.bytes)
      × ((read_bytes n q).1.store_next_byte ≡ q.store_next_byte)
unfolding read_bytes
read_bytes_moves zero q = (refl, refl)
read_bytes_moves (suc n) q = read_bytes_moves n (increment_read_next_index q 1)

-- Printing part of a queue puts the read index back, wherever it starts and however much it shows.
pub print_queue_unchanged : (q : Queue) (start n : ℕ) → (print_queue q start n).1 ≡ q
unfolding print_queue
print_queue_unchanged q start n =
    let kept = read_bytes_moves n (record q { read_next_byte = start }) in
    λ i. record { bytes = kept.0 i; store_next_byte = kept.1 i; read_next_byte = q.read_next_byte }
