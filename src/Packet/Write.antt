-- ===== src/Packet/Write.antt =====
-- packet.c: what the functions that build packets put on a queue.
use Prim.Native.Nat.{◌+◌}
use cpc_cplink.Prelude.{
  ℕ, ◌/◌, ◌%◌, ◌<◌, ◌≡◌, refl, subst, ◌∙◌, true, false, List, [], ◌∷◌, ◌++◌, append-nil,
  append_assoc, arith, length, length-append,
}
use cpc_cplink.Queue.{Queue, queue_size}
use cpc_cplink.Queue.Valid.{IsValid, used, space_available_iff}
use cpc_cplink.Queue.Holds.{Holds, Holds-write, Holds-write_byte, Holds-space}
use cpc_cplink.Packet.{
  PacketType, packet_type_byte, front_delimiter, rear_delimiter, put, write_packet_header,
  write_data_to_packet, start_build_data_packet, add_byte_of_data_to_packet,
  add_3_bytes_of_data_to_packet, add_5_bytes_of_data_to_packet, add_int_to_packet,
  finish_build_data_packet_and_send,
}
use cpc_cplink.Packet.Frame.{header, frame}

pub Holds-put :
    (q : Queue) (l bs : List ℕ)
    → Holds q l
    → length l + length bs < queue_size
    → Holds (put q bs) (l ++ bs)
Holds-put q l bs h fits = (Holds-write q l bs h fits).1

-- One more put, where the list is already grown.
put_next :
    (q : Queue) (l bs cs : List ℕ)
    → Holds q (l ++ bs)
    → length l + length bs + length cs < queue_size
    → Holds (put q cs) (l ++ (bs ++ cs))
put_next q l bs cs h fits =
    rw (← append_assoc) (Holds-put q (l ++ bs) cs h (omega (arith, length-append l bs)))

pub Holds-header :
    (q : Queue) (l : List ℕ) (n : ℕ) (t : PacketType)
    → Holds q l
    → length l + 6 < queue_size
    → Holds (write_packet_header q n t) (l ++ header (packet_type_byte t) n)
unfolding write_packet_header
Holds-header q l n t h fits = go4
  where
    lo : List ℕ
    lo = (n + 3) % 256 ∷ []

    hi : List ℕ
    hi = (n + 3) / 256 % 256 ∷ []

    q1 : Queue
    q1 = put q front_delimiter

    q2 : Queue
    q2 = put q1 lo

    q3 : Queue
    q3 = put q2 hi

    go1 : Holds q1 (l ++ front_delimiter)
    go1 = Holds-put q l front_delimiter h (omega arith)

    go2 : Holds q2 (l ++ (front_delimiter ++ lo))
    go2 = put_next q1 l front_delimiter lo go1 (omega arith)

    go3 : Holds q3 (l ++ (front_delimiter ++ lo ++ hi))
    go3 = put_next q2 l (front_delimiter ++ lo) hi go2 (omega arith)

    go4 : Holds (put q3 (packet_type_byte t ∷ [])) (l ++ header (packet_type_byte t) n)
    go4 = put_next q3 l (front_delimiter ++ lo ++ hi) (packet_type_byte t ∷ []) go3 (omega arith)

-- Where a byte more than the packet is free, `write_data_to_packet` returns TRUE and puts one
-- whole packet with the payload behind what the queue held; the queue stays valid.
pub write_data_to_packet-frame :
    (q : Queue) (l payload : List ℕ) (t : PacketType)
    → Holds q l
    → length l + (length payload + 9) < queue_size
    → let (done, q') = write_data_to_packet q payload t in
      (done ≡ true) × Holds q' (l ++ frame (packet_type_byte t) payload)
unfolding write_data_to_packet
write_data_to_packet-frame q l payload t h fits =
    rw (Holds-space q l (length payload + 9) h fits) (refl, written)
  where
    head : List ℕ
    head = header (packet_type_byte t) (length payload)

    q1 : Queue
    q1 = write_packet_header q (length payload) t

    go1 : Holds (put q1 payload) (l ++ (head ++ payload))
    go1 =
        put_next q1 l head payload (Holds-header q l (length payload) t h (omega arith))
          (omega arith)

    written : Holds (put (put q1 payload) rear_delimiter) (l ++ frame (packet_type_byte t) payload)
    written =
        subst (λ k. Holds (put (put q1 payload) rear_delimiter) (l ++ k))
          (append_assoc head payload rear_delimiter)
          (put_next (put q1 payload) l (head ++ payload) rear_delimiter go1
            (omega (arith, length-append head payload)))

-- Where there is no space by `is_queue_space_available`, a write to a valid queue changes nothing
-- and returns FALSE: no part of a packet is written.
pub write_data_to_packet_refused :
    (q : Queue) (payload : List ℕ) (t : PacketType)
    → IsValid q
    → queue_size < used q + (length payload + 9)
    → write_data_to_packet q payload t ≡ (false, q)
unfolding write_data_to_packet
write_data_to_packet_refused q payload t v over =
    ground (arith, space_available_iff q (length payload + 9) v)

-- A run of byte writes, each of which fits.
pub Holds-add_byte :
    (q : Queue) (l bs : List ℕ) (b : ℕ)
    → Holds q (l ++ bs)
    → length l + length bs + 1 < queue_size
    → Holds (add_byte_of_data_to_packet q b) (l ++ (bs ++ b ∷ []))
unfolding add_byte_of_data_to_packet
Holds-add_byte q l bs b h fits =
    rw (← append_assoc) (Holds-write_byte q (l ++ bs) b h (omega (arith, length-append l bs)))

pub Holds-add_3 :
    (q : Queue) (l : List ℕ) (c b1 b2 : ℕ)
    → Holds q l
    → length l + 3 < queue_size
    → Holds (add_3_bytes_of_data_to_packet q c b1 b2) (l ++ (c % 256) ∷ b1 ∷ b2 ∷ [])
unfolding add_3_bytes_of_data_to_packet
Holds-add_3 q l c b1 b2 h fits =
    let q1 = add_byte_of_data_to_packet q (c % 256) in
    let q2 = add_byte_of_data_to_packet q1 b1 in
    let h0 : Holds q (l ++ []) = rw append-nil h in
    let h1 = Holds-add_byte q l [] (c % 256) h0 (omega arith) in
    let h2 = Holds-add_byte q1 l ((c % 256) ∷ []) b1 h1 (omega arith) in
    Holds-add_byte q2 l ((c % 256) ∷ b1 ∷ []) b2 h2 (omega arith)

pub Holds-add_5 :
    (q : Queue) (l : List ℕ) (c b1 b2 b3 b4 : ℕ)
    → Holds q l
    → length l + 5 < queue_size
    → Holds
        (add_5_bytes_of_data_to_packet q c b1 b2 b3 b4)
        (l ++ (c % 256) ∷ b1 ∷ b2 ∷ b3 ∷ b4 ∷ [])
unfolding add_5_bytes_of_data_to_packet
Holds-add_5 q l c b1 b2 b3 b4 h fits =
    let q1 = add_3_bytes_of_data_to_packet q c b1 b2 in
    let q2 = add_byte_of_data_to_packet q1 b3 in
    let h1 = Holds-add_3 q l c b1 b2 h (omega arith) in
    let h2 = Holds-add_byte q1 l ((c % 256) ∷ b1 ∷ b2 ∷ []) b3 h1 (omega arith) in
    Holds-add_byte q2 l ((c % 256) ∷ b1 ∷ b2 ∷ b3 ∷ []) b4 h2 (omega arith)

-- The four bytes of an int in the order of the protocol: high half, then low half, low byte first.
abbrev pub int_bytes : ℕ → List ℕ
int_bytes v = (v / 65536 % 256) ∷ (v / 16777216 % 256) ∷ (v % 256) ∷ (v / 256 % 256) ∷ []

pub Holds-add_int :
    (q : Queue) (l : List ℕ) (v : ℕ)
    → Holds q l
    → length l + 4 < queue_size
    → Holds (add_int_to_packet q v) (l ++ int_bytes v)
unfolding add_int_to_packet
Holds-add_int q l v h fits =
    let b1 = v / 65536 % 256 in
    let b2 = v / 16777216 % 256 in
    let b3 = v % 256 in
    let q1 = add_byte_of_data_to_packet q b1 in
    let q2 = add_byte_of_data_to_packet q1 b2 in
    let q3 = add_byte_of_data_to_packet q2 b3 in
    let h0 : Holds q (l ++ []) = rw append-nil h in
    let h1 = Holds-add_byte q l [] b1 h0 (omega arith) in
    let h2 = Holds-add_byte q1 l (b1 ∷ []) b2 h1 (omega arith) in
    let h3 = Holds-add_byte q2 l (b1 ∷ b2 ∷ []) b3 h2 (omega arith) in
    Holds-add_byte q3 l (b1 ∷ b2 ∷ b3 ∷ []) (v / 256 % 256) h3 (omega arith)

-- A packet with a 3 byte answer, built in steps: start, three bytes, finish.
abbrev pub build_3 : Queue → PacketType → ℕ → ℕ → ℕ → Queue
build_3 q t c b1 b2 =
    finish_build_data_packet_and_send
      (add_3_bytes_of_data_to_packet (start_build_data_packet q 3 t).1 c b1 b2)

-- Built in steps or in one call: the start, three bytes and the finish leave on the queue the
-- packet that `write_data_to_packet` writes for those bytes, where a byte more than it is free.
pub build_3-frame :
    (q : Queue) (l : List ℕ) (t : PacketType) (c b1 b2 : ℕ)
    → Holds q l
    → length l + 12 < queue_size
    → Holds (build_3 q t c b1 b2) (l ++ frame (packet_type_byte t) ((c % 256) ∷ b1 ∷ b2 ∷ []))
unfolding start_build_data_packet finish_build_data_packet_and_send
build_3-frame q l t c b1 b2 h fits = rw (Holds-space q l 12 h fits) (
    subst (λ k. Holds (put (add_3_bytes_of_data_to_packet q1 c b1 b2) rear_delimiter) k)
      (append_assoc (l ++ head) body rear_delimiter ∙ append_assoc l head (body ++ rear_delimiter))
      ended)
  where
    q1 : Queue
    q1 = write_packet_header q 3 t

    head : List ℕ
    head = header (packet_type_byte t) 3

    body : List ℕ
    body = (c % 256) ∷ b1 ∷ b2 ∷ []

    h2 : Holds (add_3_bytes_of_data_to_packet q1 c b1 b2) (l ++ head ++ body)
    h2 =
        Holds-add_3 q1 (l ++ head) c b1 b2 (Holds-header q l 3 t h (omega arith))
          (omega (arith, length-append l head))

    ended :
        Holds
          (put (add_3_bytes_of_data_to_packet q1 c b1 b2) rear_delimiter)
          (l ++ head ++ body ++ rear_delimiter)
    ended =
        Holds-put (add_3_bytes_of_data_to_packet q1 c b1 b2) (l ++ head ++ body) rear_delimiter h2
          (omega (arith, length-append (l ++ head) body, length-append l head))
