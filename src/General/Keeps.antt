-- ===== src/General/Keeps.antt =====
-- command_general.c and command_file.c: the handlers on a server in order, and the loop with them.
use cpc_cplink.Prelude.{ℕ, Bool, Option, Every, just, List}
use cpc_cplink.Queue.{queues_reset}
use cpc_cplink.Queue.Valid.{init-IsValid}
use cpc_cplink.Packet.Keeps.{write_packet-IsValid}
use cpc_cplink.Memstore.{Calloc, memstore_reset}
use cpc_cplink.Memstore.Keeps.{memstore_init-StoreOk}
use cpc_cplink.Command.{Handler}
use cpc_cplink.Server.{Server}
use cpc_cplink.Server.Order.{ServerOk, with_out}
use cpc_cplink.Memory.Run.{run_memory, run_memory_keeps}
use cpc_cplink.MainLoop.{Loop}
use cpc_cplink.MainLoop.Reach.{Done, Reaches, reachable-ServerOk}
use cpc_cplink.General.{
  respond, command_unknown, command_ping, command_reset, command_tron, command_troff,
  command_version, command_get_file, command_put_file, command_get_mem_file, command_put_mem_file,
  run_handler,
}

respond-Ok : (text : List ℕ) (s : Server) → ServerOk s → ServerOk (respond text s)
unfolding respond
respond-Ok text s ok = with_out s _ ok (write_packet-IsValid s.out_queue text _ ok.out_ok)

-- From any state.
command_reset-Ok : (s : Server) → ServerOk (command_reset s).1
unfolding command_reset queues_reset memstore_reset
command_reset-Ok s = respond-Ok _ _ (record {
  in_ok = (init-IsValid s.in_queue).0;
  out_ok = (init-IsValid s.out_queue).0;
  store_ok = memstore_init-StoreOk;
})

module _ (others : Handler → ℕ → Server → Option (Bool × Server))
    (keeps : (h : Handler) (tick : ℕ) (s : Server)
      → ServerOk s
      → Every Done (others h tick s)) where
  run_handler_keeps :
      (h : Handler) (tick : ℕ) (s : Server) → ServerOk s → Every Done (run_handler others h tick s)
  unfolding run_handler command_unknown command_ping command_version command_get_file
      command_put_file command_get_mem_file command_put_mem_file command_tron command_troff
  run_handler_keeps Handler.command_unknown tick s ok = just (respond-Ok _ s ok)
  run_handler_keeps Handler.command_ping tick s ok = just (respond-Ok _ s ok)
  run_handler_keeps Handler.command_reset tick s ok = just (command_reset-Ok s)
  run_handler_keeps Handler.command_tron tick s ok =
      just
        (respond-Ok _ _ (record { in_ok = ok.in_ok; out_ok = ok.out_ok; store_ok = ok.store_ok }))
  run_handler_keeps Handler.command_troff tick s ok =
      just
        (respond-Ok _ _ (record { in_ok = ok.in_ok; out_ok = ok.out_ok; store_ok = ok.store_ok }))
  run_handler_keeps Handler.command_version tick s ok = just (respond-Ok _ s ok)
  run_handler_keeps Handler.command_get_file tick s ok = just (ok)
  run_handler_keeps Handler.command_put_file tick s ok = just (ok)
  run_handler_keeps Handler.command_get_mem_file tick s ok = just (ok)
  run_handler_keeps Handler.command_put_mem_file tick s ok = just (ok)
  run_handler_keeps h tick s ok = keeps h tick s ok

-- The loop with the memory handlers and the general ones, the rest being handlers that keep a
-- server in order where they return: every state that it reaches from a server in order, by passes
-- that make no access outside an array or an allocation, is in order.
pub server_stays_in_order :
    (c : Calloc) (others : Handler → ℕ → Server → Option (Bool × Server)) (l l' : Loop)
    → ((h : Handler) (tick : ℕ) (s : Server) → ServerOk s → Every Done (others h tick s))
    → ServerOk l.server
    → Reaches (run_handler (run_memory c others)) l l'
    → ServerOk l'.server
server_stays_in_order c others l l' keeps ok r =
    reachable-ServerOk (run_handler (run_memory c others)) l l'
      (run_handler_keeps (run_memory c others) (run_memory_keeps c others keeps)) ok r
