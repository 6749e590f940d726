-- ===== src/MainLoop.antt =====
-- sw/examples/mcp/rpi_c/mcp_pi.c: the loop of `main`, in the build without DEBUG_MCP_IF.
-- The pins are arguments of a pass: the byte at the FIFO while GET_DOR holds, and whether GET_DIR
-- holds. The times are those that the command processor reads. A pass hands over the byte that it
-- writes to the FIFO. `none` is what it is in Processor and in Command.
pub mod Locks
pub mod Reach
pub mod Packets
mod Tests
use cpc_cplink.Prelude.{
  ℕ, zero, suc, ◌+◌, Bool, true, false, ◌&&◌, Option, none, some, List, [], ◌∷◌, ltb, leb, ◌==◌,
  if◌then◌else◌, ◌>>=◌,
}
use cpc_cplink.Prelude.Int.{ℤ, pos, negsuc, is_pos}
use cpc_cplink.Prelude.Text.{codes}
use cpc_cplink.Queue.{
  Queue, number_free_bytes_in_queue_to_write_too, number_bytes_in_queue_to_read, store_byte,
  get_current_read_byte, increment_read_next_index,
}
use cpc_cplink.Packet.{
  PacketType, is_complete_packet_available, get_packet_type, queue_skip_terminator_of_packet,
  write_data_to_packet,
}
use cpc_cplink.Command.{Handler, get_command_id_from_string}
use cpc_cplink.Command.Params.{Moved, inside, below, get_command_text, get_command_bin}
use cpc_cplink.Server.{Server}
use cpc_cplink.Processor.{process_command, tick_command}

abbrev pub max_command_wait : ℕ
max_command_wait = 20

abbrev pub max_tick_wait : ℕ
max_tick_wait = 100

-- The local counters of `main` beside the global state.
pub record Loop : Type 0 where
  pub server : Server
  pub packet_check_counter : ℕ
  pub tick_check_counter : ℕ

-- What a pass meets outside: the pins, and the times that it reads.
pub record Outside : Type 0 where
  pub dor : Option ℕ
  pub dir : Bool
  pub time : ℕ
  pub current_exec_time : ℕ
  pub later : ℕ

-- One byte less where the mode is above 0.
unfoldable pub count_down : ℤ → ℤ
count_down (pos zero) = pos zero
count_down (pos (suc n)) = pos n
count_down (negsuc n) = negsuc n

-- A byte is taken off the interface where one is there and the in_queue has a free byte.
unfoldable pub read_in : Option ℕ → Server → Server
read_in none s = s
read_in (some b) s =
    if ltb 0 (number_free_bytes_in_queue_to_write_too s.in_queue)
    then (record s {
      in_queue = store_byte s.in_queue b;
      binary_data_receive_mode = count_down s.binary_data_receive_mode;
    })
    else s

-- A byte of the out_queue is put on the interface where that takes one.
unfoldable pub write_out : Bool → Server → Option ℕ × Server
write_out dir s =
    if ltb 0 (number_bytes_in_queue_to_read s.out_queue) && dir
    then (
      some (get_current_read_byte s.out_queue),
      record s {
        out_queue = increment_read_next_index s.out_queue 1;
        binary_data_send_mode = count_down s.binary_data_send_mode;
      },
    )
    else (none, s)

-- The packet at `hold_read_pointer` was processed, or it is left to be read again.
unfoldable pub skip_or_rewind : ℕ → Bool × Server → Server
skip_or_rewind hold_read_pointer (true, s) = record s {
  in_queue = queue_skip_terminator_of_packet s.in_queue;
}
skip_or_rewind hold_read_pointer (false, s) = record s {
  in_queue = record s.in_queue { read_next_byte = hold_read_pointer };
}

unfoldable pub bad_text_command : List ℕ
bad_text_command = codes "Bad Text Command\n"

-- Neither lock mode is on.
abbrev pub unlocked : Server → Bool
unlocked s = is_pos 0 s.binary_data_receive_mode && is_pos 0 s.binary_data_send_mode

-- The interface's part of a pass.
abbrev pub exchange : Option ℕ → Bool → Server → Option ℕ × Server
exchange dor dir s = write_out dir (read_in dor s)

module _ (run : Handler → ℕ → Server → Option (Bool × Server)) where
  -- A command whose id has been read, up to the packet's end or back to its start.
  unfoldable pub run_command : ℕ → ℕ → ℕ → Server → Option Server
  run_command hold_read_pointer command_id time s = do
    r ← process_command run command_id time s
    some (skip_or_rewind hold_read_pointer r)

  -- Behind `get_command_text`. The read index is below 0 only where there is no command name. What
  -- follows then reads the queue at that index, outside the array: a whole packet of that length
  -- leaves `queue_skip_terminator_of_packet` at least three bytes to look at.
  unfoldable pub text_packet : ℕ → ℕ → Server → Bool × List ℕ × Moved → Option Server
  text_packet hold_read_pointer time s (found, command_string, below queue n) = none
  text_packet hold_read_pointer time s (true, command_string, inside read) =
      run_command hold_read_pointer (get_command_id_from_string command_string) time
        (record s { in_queue = read })
  text_packet hold_read_pointer time s (false, command_string, inside read) = some (record s {
    out_queue = (write_data_to_packet s.out_queue bad_text_command PacketType.text_command).1;
    in_queue = queue_skip_terminator_of_packet read;
  })

  -- The `switch` on the type of the packet at the front of the in_queue.
  unfoldable pub process_packet : ℕ → Server → Option Server
  process_packet time s =
      let packet_type = get_packet_type s.in_queue in
      let hold_read_pointer = s.in_queue.read_next_byte in
      if packet_type == 1
      then text_packet hold_read_pointer time s (get_command_text s.in_queue)
      else if packet_type == 2
      then (let (command_id, read) = get_command_bin s.in_queue in
          run_command hold_read_pointer command_id time (record s { in_queue = read }))
      else some s

  -- Where a whole packet is there it is processed; looking for one may discard bytes.
  unfoldable pub check_for_packet : ℕ → Server → Option Server
  check_for_packet time s =
      let (found, kept) = is_complete_packet_available s.in_queue in
      if found
      then process_packet time (record s { in_queue = kept })
      else some (record s { in_queue = kept })

  unfoldable pub packet_turn : ℕ → Loop → Option Loop
  packet_turn time l =
      if leb max_command_wait l.packet_check_counter && unlocked l.server
      then (do
        s ← check_for_packet time l.server
        some (record l { server = s; packet_check_counter = 0 }))
      else some (record l { packet_check_counter = suc l.packet_check_counter })

  unfoldable pub tick_turn : ℕ → ℕ → Loop → Option Loop
  tick_turn current_exec_time later l =
      if leb max_tick_wait l.tick_check_counter && unlocked l.server
      then (do
        s ← tick_command run current_exec_time later l.server
        some (record l { server = s; tick_check_counter = 0 }))
      else some (record l { tick_check_counter = suc l.tick_check_counter })

  -- One pass of the loop.
  unfoldable pub pass : Outside → Loop → Option (Option ℕ × Loop)
  pass o l =
      let (out, s) = exchange o.dor o.dir l.server in
      do
        l1 ← packet_turn o.time (record l { server = s })
        l2 ← tick_turn o.current_exec_time o.later l1
        some (out, l2)

  -- Passes one after another, and what they write to the FIFO.
  unfoldable pub passes : List Outside → Loop → Option (List (Option ℕ) × Loop)
  passes [] l = some ([], l)
  passes (o ∷ os) l = do (out, l1) ← pass o l; (outs, l2) ← passes os l1; some (out ∷ outs, l2)
