-- ===== src/Command/Keeps.antt =====
-- command.c: reading the name of a text command off a valid queue.
use cpc_cplink.Prelude.{
  ℕ, zero, suc, ◌%◌, ◌<◌, Bool, ◌&&◌, ◌||◌, not, List, [], ◌∷◌, ◌++◌, ltb, ◌==◌, either, arith,
}
use cpc_cplink.Prelude.Int.{ℤ, pos, negsuc, ◌-ℤ◌, ◌+ℤ◌, is_pos, leb_ℤ}
use cpc_cplink.Queue.{Queue, queue_size, increment_read_next_index, get_current_read_byte}
use cpc_cplink.Queue.Valid.{IsValid, increment_read-IsValid}
use cpc_cplink.Command.Params.{
  NameScan, scan_name, Moved, inside, below, moved_to, remainder, negated, finish_name,
  get_body_text, get_command_text, increment_read_next_index_signed, max_command_name_length,
  get_command_next_8bit_param_bin, space, newline,
}

scan_name-IsValid :
    (room index : ℕ) (size : ℤ) (text : List ℕ) (q : Queue)
    → IsValid q
    → IsValid (scan_name room index size text q).queue
unfolding scan_name
scan_name-IsValid zero index size text q v = v
scan_name-IsValid (suc room) index size text q v =
    let byte = get_current_read_byte q in
    let u = increment_read-IsValid q 1 v in
    either (λ (n : NameScan). IsValid n.queue) (leb_ℤ (pos index) size)
      (either (λ (n : NameScan). IsValid n.queue)
        ((byte == space || byte == newline) && ltb 0 index) u
        (scan_name-IsValid room (suc index) size (text ++ byte ∷ []) (increment_read_next_index q 1)
          u))
      v

-- The read index is in the array, or below 0.
abbrev pub InArray : Moved → Type 0
InArray (inside q) = IsValid q
InArray (below q n) = Unit

signed-IsValid : (q : Queue) (n : ℤ) → IsValid q → InArray (increment_read_next_index_signed q n)
unfolding increment_read_next_index_signed
signed-IsValid q n v = at_remainder (pos q.read_next_byte +ℤ n)
  where
    at_remainder : (i : ℤ) → InArray (moved_to q (remainder i queue_size))
    at_remainder (pos a) = record { store_in = v.store_in; read_in = omega arith }
    at_remainder (negsuc a) = at_negated (suc a % queue_size) (omega arith)
      where
        at_negated : (k : ℕ) → k < queue_size → InArray (moved_to q (negated k))
        at_negated zero lt = record { store_in = v.store_in; read_in = lt }
        at_negated (suc k) lt = tt

abbrev pub Read : Bool × List ℕ × Moved → Type 0
Read r = InArray r.2

finish_name-IsValid : (size : ℤ) (n : NameScan) → IsValid n.queue → Read (finish_name size n)
unfolding finish_name
finish_name-IsValid size n v =
    either Read (n.index == max_command_name_length && not n.command_name_complete)
      (signed-IsValid n.queue (size -ℤ pos n.index) v) v

get_body_text-IsValid : (size : ℤ) (q : Queue) → IsValid q → Read (get_body_text size q)
unfolding get_body_text
get_body_text-IsValid size q v =
    either Read (get_current_read_byte q == newline || is_pos 1 size) (increment_read-IsValid q 1 v)
      (either Read (is_pos 0 size) v
        (finish_name-IsValid size _ (scan_name-IsValid max_command_name_length 0 size [] q v)))

pub get_command_text-IsValid : (q : Queue) → IsValid q → Read (get_command_text q)
unfolding get_command_text get_command_next_8bit_param_bin
get_command_text-IsValid q v = get_body_text-IsValid _ _ (
    increment_read-IsValid _ 1
      (increment_read-IsValid _ 1 (increment_read-IsValid _ 1 (increment_read-IsValid q _ v))))
