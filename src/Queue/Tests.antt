-- ===== src/Queue/Tests.antt =====
-- Runs of queue.c at small inputs, across the end of the array.
use cpc_cplink.Prelude.{◌+◌, ◌≡◌, true, false, List, [], ◌∷◌, take, leb, if◌then◌else◌, arith}
use cpc_cplink.Queue.{Queue, queue_size, write_data_to_queue, get_next_three_bytes_from_queue}
use cpc_cplink.Queue.Valid.{IsValid, used}
use cpc_cplink.Queue.Window.{contents}
use cpc_cplink.Queue.Transfer.{stored, write_data_to_queue_lem, get_next_three_lem}
use cpc_cplink.Queue.Fifo.{Op, run, fifo_run, run_refines}
use cpc_cplink.Queue.Sample.{holding_at, holding-Holds}

-- Three bytes around the end of the array.
abbrev wrapped : Queue
wrapped = holding_at 131068 (1 ∷ 2 ∷ 3 ∷ [])

wrapped-IsValid : IsValid wrapped
wrapped-IsValid = (holding-Holds 131068 (1 ∷ 2 ∷ 3 ∷ []) (omega arith) (omega arith)).valid

abbrev some_calls : List Op
some_calls = Op.get 2 ∷ Op.write (4 ∷ 5 ∷ []) ∷ Op.get 4 ∷ Op.get 3 ∷ []

run_refines_example : run wrapped some_calls ≡ fifo_run (contents wrapped) some_calls
run_refines_example = run_refines some_calls wrapped wrapped-IsValid

write_data_to_queue_example :
    let (done, q') = write_data_to_queue wrapped (4 ∷ 5 ∷ []) in
    (done ≡ leb (used wrapped + 2) queue_size)
    × (contents q' ≡ stored wrapped (4 ∷ 5 ∷ []))
    × IsValid q'
write_data_to_queue_example = write_data_to_queue_lem wrapped (4 ∷ 5 ∷ []) wrapped-IsValid

get_next_three_example : get_next_three_bytes_from_queue wrapped ≡ (
    if leb 3 (used wrapped)
    then (true, take 3 (contents wrapped), wrapped)
    else (false, [], wrapped))
get_next_three_example = get_next_three_lem wrapped wrapped-IsValid
