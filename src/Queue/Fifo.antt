-- ===== src/Queue/Fifo.antt =====
-- What a user of queue.c sees: a FIFO of bytes, that drops all it holds when it is filled to the
-- last byte of the array.
use cpc_cplink.Prelude.{
  ℕ, ◌+◌, ◌≡◌, refl, Bool, true, false, List, [], ◌∷◌, ◌++◌, arith, length, take, drop, ltb, leb,
  ◌==◌, if◌then◌else◌,
}
use cpc_cplink.Queue.{Queue, queue_size, write_data_to_queue, get_data_from_queue}
use cpc_cplink.Queue.Valid.{IsValid}
use cpc_cplink.Queue.Window.{contents, length-contents}
use cpc_cplink.Queue.Transfer.{write_data_to_queue_lem, get_data_from_queue_lem}

-- A call of `write_data_to_queue` or of `get_data_from_queue`.
pub data Op : Type 0 where
  write : List ℕ → Op
  get : ℕ → Op

abbrev pub Reply : Type 0
Reply = Bool × List ℕ

-- The abstract calls.
pub fifo_write : List ℕ → List ℕ → Bool × List ℕ
fifo_write held bs =
    let n = length held + length bs in
    (
      leb n queue_size,
      if ltb n queue_size then held ++ bs else if n == queue_size then [] else held,
    )

pub fifo_get : List ℕ → ℕ → Bool × List ℕ × List ℕ
fifo_get held n =
    if leb n (length held) then (true, take n held, drop n held) else (false, [], held)

-- The replies to a sequence of calls, of the FIFO and of the queue.
pub fifo_run : List ℕ → List Op → List Reply
fifo_run held [] = []
fifo_run held (write bs ∷ ops) =
    let (done, held') = fifo_write held bs in (done, []) ∷ fifo_run held' ops
fifo_run held (get n ∷ ops) =
    let (done, got, held') = fifo_get held n in (done, got) ∷ fifo_run held' ops

pub run : Queue → List Op → List Reply
run q [] = []
run q (write bs ∷ ops) = let (done, q') = write_data_to_queue q bs in (done, []) ∷ run q' ops
run q (get n ∷ ops) = let (done, got, q') = get_data_from_queue q n in (done, got) ∷ run q' ops

write_refines :
    (q : Queue) (bs : List ℕ)
    → IsValid q
    → let (done, q') = write_data_to_queue q bs in (done, contents q') ≡ fifo_write (contents q) bs
unfolding fifo_write
write_refines q bs v = ground (arith, write_data_to_queue_lem q bs v, length-contents q)

get_refines :
    (q : Queue) (n : ℕ)
    → IsValid q
    → let (done, got, q') = get_data_from_queue q n in
      (done, got, contents q') ≡ fifo_get (contents q) n
unfolding fifo_get
get_refines q n v = ground (arith, get_data_from_queue_lem q n v, length-contents q)

-- No sequence of writes and reads tells a valid queue from the FIFO of its unread bytes: every
-- call returns the same verdict and the same bytes.
pub run_refines : (ops : List Op) (q : Queue) → IsValid q → run q ops ≡ fifo_run (contents q) ops
unfolding run fifo_run
run_refines [] q v = refl
run_refines (write bs ∷ ops) q v =
    let w = write_data_to_queue_lem q bs v in
    rw (run_refines ops (write_data_to_queue q bs).1 w.2, ← write_refines q bs v)
run_refines (get n ∷ ops) q v =
    let g = get_data_from_queue_lem q n v in
    rw (run_refines ops (get_data_from_queue q n).2 g.3, ← get_refines q n v)
