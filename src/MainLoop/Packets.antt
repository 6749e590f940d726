-- ===== src/MainLoop/Packets.antt =====
-- mcp_pi.c: what the loop does with the packet at the front of the in_queue.
use cpc_cplink.Prelude.{
  ℕ, ◌+◌, ◌<◌, ◌≡◌, ◌≢◌, refl, ap, ◌∙◌, Bool, true, false, Option, some, List, [], ◌∷◌, ◌++◌,
  length, length-append, ◌==◌, arith,
}
use cpc_cplink.Queue.{Queue, increment_read_next_index, is_queue_space_available}
use cpc_cplink.Queue.Holds.{Holds}
use cpc_cplink.Packet.{
  PacketType, packet_type_byte, is_complete_packet_available, get_packet_type, rear_delimiter,
  queue_skip_terminator_of_packet,
}
use cpc_cplink.Packet.Frame.{frame, length-frame}
use cpc_cplink.Packet.Receive.{get_packet_type_lem}
use cpc_cplink.Packet.Payload.{is_complete_packet_available-frame, queue_skip_terminator_lem}
use cpc_cplink.Command.{Handler, get_command_function, get_command_out_queue_space_required}
use cpc_cplink.Command.Params.{get_command_bin, get_command_next_8bit_param_bin}
use cpc_cplink.Command.Binary.{get_command_bin_lem}
use cpc_cplink.Server.{Server}
use cpc_cplink.Processor.{process_command, after_run}
use cpc_cplink.MainLoop.{check_for_packet, process_packet, run_command, skip_or_rewind}

other_type :
    (t : PacketType)
    → t ≢ PacketType.text_command
    → t ≢ PacketType.binary_command
    → ((packet_type_byte t == 1) ≡ false) × ((packet_type_byte t == 2) ≡ false)
other_type PacketType.unknown_packet a b = (refl, refl)
other_type PacketType.text_command a b = absurd (a refl)
other_type PacketType.binary_command a b = absurd (b refl)
other_type PacketType.binary_data a b = (refl, refl)
other_type PacketType.graphic_directives a b = (refl, refl)

process_packet_other :
    (run : Handler → ℕ → Server → Option (Bool × Server)) (time : ℕ) (u : Server) (n : ℕ)
    → get_packet_type u.in_queue ≡ n
    → (n == 1) ≡ false
    → (n == 2) ≡ false
    → process_packet run time u ≡ some u
unfolding process_packet
process_packet_other run time u n type ne1 ne2 = rw (type, ne1, ne2) refl

-- A whole packet at the front of the in_queue is found, and the loop goes on with its type.
module _ (run : Handler → ℕ → Server → Option (Bool × Server)) (time : ℕ) (s : Server)
    (t : PacketType) (payload rest : List ℕ) (known : t ≢ PacketType.unknown_packet)
    (small : length payload + 3 < 65536)
    (h : Holds s.in_queue (frame (packet_type_byte t) payload ++ rest)) where
  found_packet :
      (q : Queue) × (check_for_packet run time s
        ≡ process_packet run time (record s { in_queue = q }))
      × Holds q (frame (packet_type_byte t) payload ++ rest)
      × (get_packet_type q ≡ packet_type_byte t)
  unfolding check_for_packet
  found_packet =
      let f = is_complete_packet_available-frame s.in_queue [] payload rest t known small tt h in
      let q = (is_complete_packet_available s.in_queue).1 in
      (
        q,
        rw f.0 refl,
        f.1,
        get_packet_type_lem q (frame (packet_type_byte t) payload ++ rest) f.1 (
            omega (
              arith,
              length-append (frame (packet_type_byte t) payload) rest,
              length-frame (packet_type_byte t) payload,
            )),
      )

  -- A whole packet at the front of the in_queue that is neither a text nor a binary command is left
  -- there, and nothing else changes: no later packet is reached as long as it stands there.
  pub unexpected_packet_stays :
      t ≢ PacketType.text_command
      → t ≢ PacketType.binary_command
      → (q : Queue) × (check_for_packet run time s ≡ some (record s { in_queue = q }))
        × Holds q (frame (packet_type_byte t) payload ++ rest)
  unexpected_packet_stays not_text not_binary =
      let (q, e, holds, type) = found_packet in
      let (ne1, ne2) = other_type t not_text not_binary in
      let left =
        process_packet_other run time (record s { in_queue = q }) (packet_type_byte t) type ne1
          ne2 in
      (q, e ∙ left, holds)

process_packet_binary :
    (run : Handler → ℕ → Server → Option (Bool × Server)) (time : ℕ) (u : Server)
    → get_packet_type u.in_queue ≡ 2
    → let (c, read) = get_command_bin u.in_queue in
      process_packet run time u
      ≡ run_command run u.in_queue.read_next_byte c time (record u { in_queue = read })
unfolding process_packet
process_packet_binary run time u type = rw type refl

-- Reading the command's byte moves the read index alone.
rewind_bin : (q : Queue) → record (get_command_bin q).1 { read_next_byte = q.read_next_byte } ≡ q
unfolding get_command_bin get_command_next_8bit_param_bin increment_read_next_index
rewind_bin q = refl

run_command_refused :
    (run : Handler → ℕ → Server → Option (Bool × Server)) (hold c time space : ℕ)
    (handler : Handler) (u : Server)
    → get_command_function c ≡ some handler
    → get_command_out_queue_space_required c ≡ some space
    → is_queue_space_available u.out_queue space ≡ false
    → run_command run hold c time u ≡ some (skip_or_rewind hold (false, u))
unfolding run_command process_command
run_command_refused run hold c time space handler u known needs full = rw (known, needs, full) refl

run_command_completed :
    (run : Handler → ℕ → Server → Option (Bool × Server)) (hold c time space : ℕ)
    (handler : Handler) (u u2 : Server)
    → get_command_function c ≡ some handler
    → get_command_out_queue_space_required c ≡ some space
    → is_queue_space_available u.out_queue space ≡ true
    → run handler 0 u ≡ some (true, u2)
    → run_command run hold c time u ≡ some (skip_or_rewind hold (true, u2))
unfolding run_command process_command after_run
run_command_completed run hold c time space handler u u2 known needs room done =
    rw (known, needs, room, done) refl

-- A binary command of the table at the front of the in_queue.
module _ (run : Handler → ℕ → Server → Option (Bool × Server)) (time : ℕ) (s : Server) (c : ℕ)
    (params rest : List ℕ) (small : length (c ∷ params) + 3 < 65536)
    (h : Holds s.in_queue (frame 2 (c ∷ params) ++ rest)) (handler : Handler) (space : ℕ)
    (known : get_command_function c ≡ some handler)
    (needs : get_command_out_queue_space_required c ≡ some space) where
  -- A binary command whose space the out_queue does not have is not run: its packet is left at the
  -- front of the in_queue, whole, to be read again, and nothing else changes.
  pub binary_command_refused :
      is_queue_space_available s.out_queue space ≡ false
      → (q : Queue) × (check_for_packet run time s ≡ some (record s { in_queue = q }))
        × Holds q (frame 2 (c ∷ params) ++ rest)
  unfolding skip_or_rewind
  binary_command_refused full =
      let (q, e, holds, type) =
        found_packet run time s PacketType.binary_command (c ∷ params) rest (λ x. absurd (cc)) small
          h in
      let u : Server = record s { in_queue = q } in
      let b = process_packet_binary run time u type in
      let r = get_command_bin_lem q 2 c params rest holds in
      let read = (get_command_bin q).1 in
      let known' : get_command_function (get_command_bin q).0 ≡ some handler =
        ap get_command_function r.result ∙ known in
      let needs' : get_command_out_queue_space_required (get_command_bin q).0 ≡ some space =
        ap get_command_out_queue_space_required r.result ∙ needs in
      let back =
        run_command_refused run q.read_next_byte (get_command_bin q).0 time space handler
          (record s { in_queue = read }) known' needs' full in
      (
        q,
        e ∙ (b ∙ (back ∙ ap (λ (x : Queue). some (record s { in_queue = x })) (rewind_bin q))),
        holds,
      )

  -- A handler that is complete and has also taken what follows its packet, up to the "---" before
  -- `rest'`: the loop goes on with `rest'`.
  pub binary_command_consumes :
      (rest' : List ℕ)
      → is_queue_space_available s.out_queue space ≡ true
      → ((read : Queue)
          → Holds read (params ++ (rear_delimiter ++ rest))
          → (s2 : Server) × (run handler 0 (record s { in_queue = read }) ≡ some (true, s2))
            × Holds s2.in_queue (rear_delimiter ++ rest'))
      → (read : Queue) × (s2 : Server) × Holds read (params ++ (rear_delimiter ++ rest))
        × (run handler 0 (record s { in_queue = read }) ≡ some (true, s2))
        × (check_for_packet run time s
            ≡ some (record s2 { in_queue = queue_skip_terminator_of_packet s2.in_queue }))
        × Holds (queue_skip_terminator_of_packet s2.in_queue) rest'
  unfolding skip_or_rewind
  binary_command_consumes rest' room takes =
      let (q, e, holds, type) =
        found_packet run time s PacketType.binary_command (c ∷ params) rest (λ x. absurd (cc)) small
          h in
      let u : Server = record s { in_queue = q } in
      let b = process_packet_binary run time u type in
      let r = get_command_bin_lem q 2 c params rest holds in
      let read = (get_command_bin q).1 in
      let known' : get_command_function (get_command_bin q).0 ≡ some handler =
        ap get_command_function r.result ∙ known in
      let needs' : get_command_out_queue_space_required (get_command_bin q).0 ≡ some space =
        ap get_command_out_queue_space_required r.result ∙ needs in
      let (s2, done, after) = takes read r.left in
      let on =
        run_command_completed run q.read_next_byte (get_command_bin q).0 time space handler
          (record s { in_queue = read }) s2 known' needs' room done in
      (read, s2, r.left, done, e ∙ (b ∙ on), queue_skip_terminator_lem s2.in_queue rest' after)

  -- A binary command with room for its output, whose handler takes its parameters and is complete:
  -- it is run, and the in_queue is left behind its packet, with what follows unchanged.
  pub binary_command_completed :
      is_queue_space_available s.out_queue space ≡ true
      → ((read : Queue)
          → Holds read (params ++ (rear_delimiter ++ rest))
          → (s2 : Server) × (run handler 0 (record s { in_queue = read }) ≡ some (true, s2))
            × Holds s2.in_queue (rear_delimiter ++ rest))
      → (read : Queue) × (s2 : Server) × Holds read (params ++ (rear_delimiter ++ rest))
        × (run handler 0 (record s { in_queue = read }) ≡ some (true, s2))
        × (check_for_packet run time s
            ≡ some (record s2 { in_queue = queue_skip_terminator_of_packet s2.in_queue }))
        × Holds (queue_skip_terminator_of_packet s2.in_queue) rest
  binary_command_completed room takes = binary_command_consumes rest room takes
