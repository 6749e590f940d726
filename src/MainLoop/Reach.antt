-- ===== src/MainLoop/Reach.antt =====
-- mcp_pi.c: the states that the loop reaches.
use cpc_cplink.Prelude.{
  ℕ, ◌<◌, ◌≡◌, Bool, true, false, ◌&&◌, Option, none, some, List, ltb, leb, ◌==◌, ◌>>=◌, either,
  Every, just, nothing, Every-bind, Every-some, Every-at, set, get_elem?,
}
use cpc_cplink.Queue.{
  queue_size, number_free_bytes_in_queue_to_write_too, number_bytes_in_queue_to_read,
  is_queue_space_available,
}
use cpc_cplink.Queue.Valid.{increment_read-IsValid, store_byte-IsValid}
use cpc_cplink.Packet.{is_complete_packet_available, get_packet_type}
use cpc_cplink.Packet.Keeps.{skip_terminator-IsValid, complete-IsValid, write_packet-IsValid}
use cpc_cplink.Command.{Handler, get_command_function, get_command_out_queue_space_required}
use cpc_cplink.Command.Params.{
  Moved, inside, below, get_command_text, get_command_bin, get_command_next_8bit_param_bin,
}
use cpc_cplink.Command.Keeps.{Read, get_command_text-IsValid}
use cpc_cplink.Server.{Server, CommandState}
use cpc_cplink.Server.Order.{ServerOk, with_in}
use cpc_cplink.Processor.{
  process_command, after_run, tick_command, tick_due, after_tick, get_empty_command_state,
  get_next_exec_time, is_retried, stored_state,
}
use cpc_cplink.MainLoop.{
  Loop, Outside, read_in, write_out, skip_or_rewind, run_command, text_packet, process_packet,
  check_for_packet, packet_turn, tick_turn, pass, unlocked, max_command_wait, max_tick_wait,
}

-- What a handler leaves where it returns.
abbrev pub Done : Bool × Server → Type 0
Done r = ServerOk r.1

with_states :
    (s : Server) (c : List CommandState) → ServerOk s → ServerOk (record s { command_states = c })
with_states s c ok = record { in_ok = ok.in_ok; out_ok = ok.out_ok; store_ok = ok.store_ok }

skip_or_rewind_keeps :
    (hold : ℕ) (r : Bool × Server) → hold < queue_size → Done r → ServerOk (skip_or_rewind hold r)
unfolding skip_or_rewind
skip_or_rewind_keeps hold (true, s) in_array ok =
    with_in s _ ok (skip_terminator-IsValid s.in_queue ok.in_ok)
skip_or_rewind_keeps hold (false, s) in_array ok =
    with_in s _ ok (record { store_in = ok.in_ok.store_in; read_in = in_array })

read_in_keeps : (dor : Option ℕ) (s : Server) → ServerOk s → ServerOk (read_in dor s)
unfolding read_in
read_in_keeps none s ok = ok
read_in_keeps (some b) s ok =
    either ServerOk (ltb 0 (number_free_bytes_in_queue_to_write_too s.in_queue))
      (record {
        in_ok = store_byte-IsValid s.in_queue b ok.in_ok;
        out_ok = ok.out_ok;
        store_ok = ok.store_ok;
      })
      ok

write_out_keeps : (dir : Bool) (s : Server) → ServerOk s → ServerOk (write_out dir s).1
unfolding write_out
write_out_keeps dir s ok =
    either (λ (r : Option ℕ × Server). ServerOk r.1)
      (ltb 0 (number_bytes_in_queue_to_read s.out_queue) && dir)
      (record {
        in_ok = ok.in_ok;
        out_ok = increment_read-IsValid s.out_queue 1 ok.out_ok;
        store_ok = ok.store_ok;
      })
      ok

after_run_keeps :
    (c : ℕ) (h : Handler) (time : ℕ) (r : Bool × Server)
    → Done r
    → Every Done (after_run c h time r)
unfolding after_run
after_run_keeps c h time (complete, s) ok = either (Every Done) complete (just ok) (
    either (Every Done) (is_retried c) (just ok)
      (stored (get_empty_command_state s.command_states)))
  where
    stored :
        (o : Option ℕ)
        → Every Done (elim o [
          | none ↦ some (true, s)
          | some index ↦ (do
            next ← get_next_exec_time c time
            some (
              true,
              record s { command_states = set s.command_states index (stored_state c h next) },
            ))
        ])
    stored none = just ok
    stored (some index) =
        Every-bind (Every-at (get_next_exec_time c time)) (λ next p. just (with_states s _ ok))

module _ (run : Handler → ℕ → Server → Option (Bool × Server))
    (keeps : (h : Handler) (tick : ℕ) (s : Server) → ServerOk s → Every Done (run h tick s)) where
  process_command_keeps :
      (c time : ℕ) (s : Server) → ServerOk s → Every Done (process_command run c time s)
  unfolding process_command
  process_command_keeps c time s ok = Every-bind (Every-at (get_command_function c)) (λ handler p.
      Every-bind (Every-at (get_command_out_queue_space_required c)) (λ needs q.
        either (Every Done) (is_queue_space_available s.out_queue needs)
          (Every-bind (keeps handler 0 s ok) (after_run_keeps c handler time)) (just ok)))

  run_command_keeps :
      (hold c time : ℕ) (s : Server)
      → hold < queue_size
      → ServerOk s
      → Every ServerOk (run_command run hold c time s)
  unfolding run_command
  run_command_keeps hold c time s in_array ok =
      Every-bind (process_command_keeps c time s ok)
        (λ r p. just (skip_or_rewind_keeps hold r in_array p))

  text_packet_keeps :
      (hold time : ℕ) (s : Server) (t : Bool × List ℕ × Moved)
      → hold < queue_size
      → ServerOk s
      → Read t
      → Every ServerOk (text_packet run hold time s t)
  unfolding text_packet
  text_packet_keeps hold time s (found, text, below q n) in_array ok v = nothing
  text_packet_keeps hold time s (true, text, inside q) in_array ok v =
      run_command_keeps hold _ time _ in_array (with_in s q ok v)
  text_packet_keeps hold time s (false, text, inside q) in_array ok v = just (record {
    in_ok = skip_terminator-IsValid q v;
    out_ok = write_packet-IsValid s.out_queue _ _ ok.out_ok;
    store_ok = ok.store_ok;
  })

  process_packet_keeps :
      (time : ℕ) (s : Server) → ServerOk s → Every ServerOk (process_packet run time s)
  unfolding process_packet get_command_bin get_command_next_8bit_param_bin
  process_packet_keeps time s ok =
      either (Every ServerOk) (get_packet_type s.in_queue == 1)
        (text_packet_keeps s.in_queue.read_next_byte time s (get_command_text s.in_queue)
          ok.in_ok.read_in ok (get_command_text-IsValid s.in_queue ok.in_ok))
        (either (Every ServerOk) (get_packet_type s.in_queue == 2)
          (run_command_keeps s.in_queue.read_next_byte _ time _ ok.in_ok.read_in (
            with_in s _ ok
              (increment_read-IsValid _ 1 (increment_read-IsValid s.in_queue _ ok.in_ok))))
          (just ok))

  check_for_packet_keeps :
      (time : ℕ) (s : Server) → ServerOk s → Every ServerOk (check_for_packet run time s)
  unfolding check_for_packet
  check_for_packet_keeps time s ok =
      let kept = with_in s _ ok (complete-IsValid s.in_queue ok.in_ok) in
      either (Every ServerOk) (is_complete_packet_available s.in_queue).0
        (process_packet_keeps time _ kept) (just kept)

  after_tick_keeps :
      (index later : ℕ) (r : Bool × Server) → Done r → Every ServerOk (after_tick index later r)
  unfolding after_tick
  after_tick_keeps index later (complete, s) ok =
      either (Every ServerOk) complete (just (with_states s _ ok)) (
        Every-bind (Every-at (get_elem? s.command_states index)) (λ c p.
          Every-bind (Every-at (get_next_exec_time c.command_id later))
            (λ next q. just (with_states s _ ok))))

  tick_due_keeps :
      (due : Option (ℕ × CommandState)) (later : ℕ) (s : Server)
      → ServerOk s
      → Every ServerOk (tick_due run due later s)
  unfolding tick_due
  tick_due_keeps none later s ok = just ok
  tick_due_keeps (some (index, c)) later s ok =
      Every-bind (Every-at c.command_function) (λ handler p.
        Every-bind (keeps handler c.next_tick_count s ok) (after_tick_keeps index later))

  abbrev LoopOk : Loop → Type 0
  LoopOk l = ServerOk l.server

  packet_turn_keeps : (time : ℕ) (l : Loop) → LoopOk l → Every LoopOk (packet_turn run time l)
  unfolding packet_turn
  packet_turn_keeps time l ok =
      either (Every LoopOk) (leb max_command_wait l.packet_check_counter && unlocked l.server)
        (Every-bind (check_for_packet_keeps time l.server ok) (λ s p. just p)) (just ok)

  tick_turn_keeps :
      (current later : ℕ) (l : Loop) → LoopOk l → Every LoopOk (tick_turn run current later l)
  unfolding tick_turn tick_command
  tick_turn_keeps current later l ok =
      either (Every LoopOk) (leb max_tick_wait l.tick_check_counter && unlocked l.server)
        (Every-bind (tick_due_keeps _ later l.server ok) (λ s p. just p)) (just ok)

  pass_keeps :
      (o : Outside) (l : Loop)
      → LoopOk l
      → Every (λ (r : Option ℕ × Loop). LoopOk r.1) (pass run o l)
  unfolding pass
  pass_keeps o l ok =
      Every-bind
        (packet_turn_keeps o.time _ (write_out_keeps o.dir _ (read_in_keeps o.dor l.server ok)))
        (λ l1 p. Every-bind (tick_turn_keeps o.current_exec_time o.later l1 p) (λ l2 q. just q))

-- What the passes of the loop reach from a state, up to the first that makes an access outside an
-- array or an allocation.
pub data Reaches (run : Handler → ℕ → Server → Option (Bool × Server)) (l : Loop)
    : Loop → Type 0 where
  start : Reaches run l l
  step :
      {l1 l2 : Loop} (o : Outside) (out : Option ℕ)
      → Reaches run l l1
      → pass run o l1 ≡ some (out, l2)
      → Reaches run l l2

-- Where the handlers keep a server in order when they return, every state that the loop reaches from
-- a server in order by passes that return is in order, whatever comes from the interface: the indices
-- of both queues are inside their arrays, and every allocation has its block.
pub reachable-ServerOk :
    (run : Handler → ℕ → Server → Option (Bool × Server)) (l l' : Loop)
    → ((h : Handler) (tick : ℕ) (s : Server) → ServerOk s → Every Done (run h tick s))
    → ServerOk l.server
    → Reaches run l l'
    → ServerOk l'.server
reachable-ServerOk run l _ keeps ok start = ok
reachable-ServerOk run l l2 keeps ok (step {l1 = l1} o out r e) =
    Every-some (out, l2) (pass_keeps run keeps o l1 (reachable-ServerOk run l l1 keeps ok r)) e
