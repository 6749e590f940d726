-- ===== src/Memory/Sample.antt =====
-- For the tests: a server with the allocation 1, of two pages of four bytes, in its store.
use cpc_cplink.Prelude.{
  ℕ, ◌+◌, ◌≡◌, ◌<◌, refl, Bool, true, false, Option, some, List, [], ◌∷◌, replicate, arith,
}
use cpc_cplink.Prelude.Int.{pos}
use cpc_cplink.Queue.Holds.{Holds}
use cpc_cplink.Queue.Sample.{drained, drained-Holds, holding_at}
use cpc_cplink.Command.{Handler}
use cpc_cplink.Memstore.{memstore_init, memstore_get_page_size_bytes, is_allocated}
use cpc_cplink.Memstore.Sample.{zeroing, one_used}
use cpc_cplink.Server.{Server, command_processor_init}
use cpc_cplink.Memory.{new_buffer}

-- A server whose in_queue holds the bytes, and whose out_queue is empty.
abbrev pub asked : List ℕ → Server
asked bytes = record {
  in_queue = holding_at 131066 bytes;
  out_queue = drained 131060;
  memstore = one_used;
  command_states = command_processor_init;
  tron = false;
  binary_data_receive_mode = pos 0;
  binary_data_send_mode = pos 0;
}

abbrev pub idle : Handler → ℕ → Server → Option (Bool × Server)
idle h tick s = some (true, s)

abbrev pub page_1 : List ℕ
page_1 = 9 ∷ 8 ∷ 7 ∷ 6 ∷ []

pub empty_out : Holds (drained 131060) []
empty_out = drained-Holds 131060 (omega arith)

pub page_size_is : memstore_get_page_size_bytes one_used 1 ≡ 4
unfolding memstore_get_page_size_bytes memstore_init is_allocated
page_size_is = refl

pub buffer_of : (n : ℕ) → n < 100 → new_buffer zeroing (pos n) ≡ some (replicate (n + 1) 0)
unfolding new_buffer
buffer_of n small = ground arith
