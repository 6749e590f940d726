-- ===== src/Memory/Replies.antt =====
-- command_memory.c: each answer is one whole packet.
use cpc_cplink.Prelude.{
  ℕ, ◌+◌, ◌/◌, ◌%◌, ◌<◌, ◌≡◌, refl, subst, ◌∙◌, Bool, true, List, [], ◌∷◌, ◌++◌, append_assoc,
  append-nil, length, length-append, arith,
}
use cpc_cplink.Queue.{Queue, queue_size}
use cpc_cplink.Queue.Holds.{Holds, Holds-space}
use cpc_cplink.Packet.{
  PacketType, packet_type_byte, rear_delimiter, put, start_build_data_packet,
  finish_build_data_packet_and_send, add_byte_of_data_to_packet, add_int_to_packet,
  add_5_bytes_of_data_to_packet,
}
use cpc_cplink.Packet.Frame.{frame, header}
use cpc_cplink.Packet.Write.{
  Holds-header, Holds-put, Holds-add_byte, Holds-add_5, Holds-add_int, int_bytes, build_3-frame,
}
use cpc_cplink.Command.Id.{load_alloc}
use cpc_cplink.Server.{Server}
use cpc_cplink.Memstore.{Memstore}
use cpc_cplink.Memory.{reply_3, reply_5}
use cpc_cplink.Memory.Files.{reply_7}

module _ (q : Queue) (l : List ℕ) (t : PacketType) where
  pub Holds-start :
      (n : ℕ)
      → Holds q l
      → length l + (n + 9) < queue_size
      → Holds (start_build_data_packet q n t).1 (l ++ header (packet_type_byte t) n)
  unfolding start_build_data_packet
  Holds-start n h fits = rw (Holds-space q l (n + 9) h fits) (Holds-header q l n t h (omega arith))

  pub Holds-finish :
      (body : List ℕ)
      → Holds q (l ++ header (packet_type_byte t) (length body) ++ body)
      → length l + (length body + 9) < queue_size
      → Holds (finish_build_data_packet_and_send q) (l ++ frame (packet_type_byte t) body)
  unfolding finish_build_data_packet_and_send
  Holds-finish body h fits =
      let head = header (packet_type_byte t) (length body) in
      subst (Holds (put q rear_delimiter))
        (append_assoc (l ++ head) body rear_delimiter
          ∙ append_assoc l head (body ++ rear_delimiter))
        (Holds-put q (l ++ head ++ body) rear_delimiter h
          (omega (arith, length-append (l ++ head) body, length-append l head)))

module _ (s : Server) (l : List ℕ) (h : Holds s.out_queue l)
    (room : length l + 30 < queue_size) where
  pub reply_3-frame :
      (c id error : ℕ)
      → Holds (reply_3 c id error s).out_queue (l ++ frame 2 ((c % 256) ∷ id ∷ error ∷ []))
  unfolding reply_3
  reply_3-frame c id error =
      build_3-frame s.out_queue l PacketType.binary_command c id error h (omega arith)

  pub reply_5-frame :
      (c id page error : ℕ)
      → Holds
          (reply_5 c id page error s).out_queue
          (l ++ frame 2 ((c % 256) ∷ id ∷ (page % 256) ∷ (page / 256) ∷ error ∷ []))
  unfolding reply_5
  reply_5-frame c id page error =
      let body : List ℕ = (c % 256) ∷ id ∷ (page % 256) ∷ (page / 256) ∷ error ∷ [] in
      let q1 = (start_build_data_packet s.out_queue 5 PacketType.binary_command).1 in
      let started = Holds-start s.out_queue l PacketType.binary_command 5 h (omega arith) in
      let filled =
        Holds-add_5 q1 (l ++ header 2 5) c id (page % 256) (page / 256) error started
          (omega (arith, length-append l (header 2 5))) in
      Holds-finish (add_5_bytes_of_data_to_packet q1 c id (page % 256) (page / 256) error) l
        PacketType.binary_command body filled (omega arith)

  pub reply_7-frame :
      (id size error : ℕ)
      → Holds
          (reply_7 id size error s).out_queue
          (l ++ frame 2 (load_alloc ∷ id ∷ (int_bytes size ++ error ∷ [])))
  unfolding reply_7
  reply_7-frame id size error =
      let q1 = (start_build_data_packet s.out_queue 7 PacketType.binary_command).1 in
      let q2 = add_byte_of_data_to_packet q1 load_alloc in
      let q3 = add_byte_of_data_to_packet q2 id in
      let q4 = add_int_to_packet q3 size in
      let L : List ℕ = l ++ header 2 7 in
      let len : length L ≡ length l + 6 = length-append l (header 2 7) in
      let h1 : Holds q1 (L ++ []) =
        rw append-nil (Holds-start s.out_queue l PacketType.binary_command 7 h (omega arith)) in
      let h2 = Holds-add_byte q1 L [] load_alloc h1 (omega arith) in
      let h3 = Holds-add_byte q2 L (load_alloc ∷ []) id h2 (omega arith) in
      let h4 =
        Holds-add_int q3 (L ++ load_alloc ∷ id ∷ []) size h3
          (omega (arith, length-append L (load_alloc ∷ id ∷ []))) in
      let h5 : Holds q4 (L ++ (load_alloc ∷ id ∷ int_bytes size)) =
        subst (Holds q4) (append_assoc L (load_alloc ∷ id ∷ []) (int_bytes size)) h4 in
      let h6 = Holds-add_byte q4 L (load_alloc ∷ id ∷ int_bytes size) error h5 (omega arith) in
      Holds-finish (add_byte_of_data_to_packet q4 error) l PacketType.binary_command
        (load_alloc ∷ id ∷ (int_bytes size ++ error ∷ [])) h6 (omega arith)

-- What a complete handler leaves: what the in_queue holds behind its parameters, the allocations,
-- and what the out_queue holds with its answer; stored commands and lock modes are as they were.
pub record Handled (s : Server) (r : Bool × Server) (rest : List ℕ) (m : Memstore) (l : List ℕ)
    : Type 0 where
  pub complete : r.0 ≡ true
  pub in_holds : Holds r.1.in_queue rest
  pub memstore_is : r.1.memstore ≡ m
  pub out_holds : Holds r.1.out_queue l
  pub states_kept : r.1.command_states ≡ s.command_states
  pub send_mode_kept : r.1.binary_data_send_mode ≡ s.binary_data_send_mode
  pub receive_mode_kept : r.1.binary_data_receive_mode ≡ s.binary_data_receive_mode

-- A handler that ends with an answer of three bytes, or of five.
module _ (s : Server) (q : Queue) (m : Memstore) (rest l : List ℕ) (h : Holds q rest)
    (out : Holds s.out_queue l) (room : length l + 30 < queue_size) where
  pub reply_3-Handled :
      (c id error : ℕ)
      → Handled s
          (true, reply_3 c id error (record s { in_queue = q; memstore = m }))
          rest
          m
          (l ++ frame 2 ((c % 256) ∷ id ∷ error ∷ []))
  unfolding reply_3
  reply_3-Handled c id error = record {
    complete = refl;
    in_holds = h;
    memstore_is = refl;
    out_holds = reply_3-frame s l out room c id error;
    states_kept = refl;
    send_mode_kept = refl;
    receive_mode_kept = refl;
  }

  pub reply_5-Handled :
      (c id page error : ℕ)
      → Handled s
          (true, reply_5 c id page error (record s { in_queue = q; memstore = m }))
          rest
          m
          (l ++ frame 2 ((c % 256) ∷ id ∷ (page % 256) ∷ (page / 256) ∷ error ∷ []))
  unfolding reply_5
  reply_5-Handled c id page error = record {
    complete = refl;
    in_holds = h;
    memstore_is = refl;
    out_holds = reply_5-frame s l out room c id page error;
    states_kept = refl;
    send_mode_kept = refl;
    receive_mode_kept = refl;
  }
