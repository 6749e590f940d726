-- ===== src/General/Answers.antt =====
-- command_general.c: what the simple commands leave behind, up to a whole command through the loop.
use cpc_cplink.Prelude.{
  ℕ, ◌+◌, ◌<◌, ◌≡◌, refl, ap, subst, Bool, true, Option, some, some-injective, List, [], ◌∷◌, ◌++◌,
  length, arith,
}
use cpc_cplink.Prelude.Text.{codes}
use cpc_cplink.Queue.{queue_size, queues_reset, init_queue}
use cpc_cplink.Queue.Holds.{Holds, Holds-init, Holds-space}
use cpc_cplink.Packet.{PacketType, queue_skip_terminator_of_packet}
use cpc_cplink.Packet.Frame.{frame}
use cpc_cplink.Packet.Write.{write_data_to_packet-frame}
use cpc_cplink.Memstore.{memstore_init, memstore_reset}
use cpc_cplink.Command.{
  Handler, command_def, command_defs, get_command_function, get_command_out_queue_space_required,
}
use cpc_cplink.Command.Id.{ping}
use cpc_cplink.Server.{Server, command_processor_init}
use cpc_cplink.MainLoop.{check_for_packet}
use cpc_cplink.MainLoop.Packets.{binary_command_completed}
use cpc_cplink.General.{respond, command_ping, command_reset, run_handler}

-- RESET from any state: the in_queue is empty, the out_queue holds the packet "OK\n" alone, no
-- allocation and no stored command is left, and the command is complete.
pub command_reset_lem :
    (s : Server)
    → let (done, s') = command_reset s in
      (done ≡ true)
      × Holds s'.in_queue []
      × Holds s'.out_queue (frame 1 (codes "OK\n"))
      × (s'.memstore ≡ memstore_init)
      × (s'.command_states ≡ command_processor_init)
unfolding command_reset respond queues_reset memstore_reset
command_reset_lem s = (
  refl,
  Holds-init s.in_queue,
  (write_data_to_packet-frame (init_queue s.out_queue) [] (codes "OK\n") PacketType.text_command
      (Holds-init s.out_queue) (omega arith)).1,
  refl,
  refl,
)

ping_known : get_command_function ping ≡ some Handler.command_ping
unfolding get_command_function command_def command_defs
ping_known = refl

ping_needs : get_command_out_queue_space_required ping ≡ some 30
unfolding get_command_out_queue_space_required command_def command_defs
ping_needs = refl

-- PING as a binary packet, with more than 30 free bytes for the answer: the check for a packet
-- leaves the in_queue behind the packet, and puts one packet "PONG!\n" behind what the out_queue
-- held.
pub ping_answered :
    (others : Handler → ℕ → Server → Option (Bool × Server)) (time : ℕ) (s : Server)
    (l rest : List ℕ)
    → Holds s.in_queue (frame 2 (ping ∷ []) ++ rest)
    → Holds s.out_queue l
    → length l + 30 < queue_size
    → (s' : Server) × (check_for_packet (run_handler others) time s ≡ some s')
      × Holds s'.in_queue rest
      × Holds s'.out_queue (l ++ frame 1 (codes "PONG!\n"))
unfolding run_handler command_ping respond
ping_answered others time s l rest h out room =
    let (read, s2, held, ran, e, behind) =
      binary_command_completed (run_handler others) time s ping [] rest (omega arith) h
        Handler.command_ping 30 ping_known ping_needs
        (Holds-space s.out_queue l 30 out (omega arith)) (λ read held. (_, refl, held)) in
    let sent =
      (write_data_to_packet-frame s.out_queue l (codes "PONG!\n") PacketType.text_command out
        (omega arith)).1 in
    let same = ap (λ (r : Bool × Server). r.1.out_queue) (some-injective _ _ ran) in
    (
      record s2 { in_queue = queue_skip_terminator_of_packet s2.in_queue },
      e,
      behind,
      subst (λ q. Holds q (l ++ frame 1 (codes "PONG!\n"))) same sent,
    )
