-- ===== src/Packet/Keeps.antt =====
-- queue.c and packet.c: the functions on a valid queue, with any bytes in it.
use cpc_cplink.Prelude.{
  ℕ, zero, suc, ◌+◌, ◌≡◌, refl, ap, Bool, true, ◌&&◌, List, length, leb, either,
}
use cpc_cplink.Prelude.Int.{ℤ, leb_ℤ, pos_part, sub_ℕ}
use cpc_cplink.Queue.{
  Queue, increment_read_next_index, read_bytes, write_data_to_queue, write_byte_of_data_to_queue,
  number_free_bytes_in_queue_to_write_too, number_bytes_in_queue_to_read,
  get_next_three_bytes_from_queue, is_queue_space_available,
}
use cpc_cplink.Queue.Valid.{
  IsValid, increment_read-IsValid, store_byte-IsValid, store_bytes-IsValid, read_bytes-IsValid,
}
use cpc_cplink.Queue.Window.{contents}
use cpc_cplink.Queue.Holds.{Holds-contents}
use cpc_cplink.Packet.Skip.{queue_skip_to_next_packet_lem}
use cpc_cplink.Packet.Receive.{is_complete_packet_available_lem}
use cpc_cplink.Packet.{
  PacketType, put, packet_overhead, write_packet_header, write_data_to_packet,
  start_build_data_packet, add_byte_of_data_to_packet, add_3_bytes_of_data_to_packet,
  add_4_bytes_of_data_to_packet, add_5_bytes_of_data_to_packet, add_int_to_packet,
  finish_build_data_packet_and_send, is_three, queue_skip_to_next_packet,
  queue_skip_terminator_of_packet, is_complete_packet_available, get_data_from_packet,
  get_packet_size, front_packet_overhead,
}

-- What a function that returns a result and a queue leaves.
abbrev pub Leaves {ℓ} : {A : Type ℓ} → A × Queue → Type 0
Leaves r = IsValid r.1

pub put-IsValid : (q : Queue) (bs : List ℕ) → IsValid q → IsValid (put q bs)
unfolding write_data_to_queue
put-IsValid q bs v =
    either Leaves (leb (length bs) (number_free_bytes_in_queue_to_write_too q))
      (store_bytes-IsValid q bs v) v

pub add_byte-IsValid : (q : Queue) (b : ℕ) → IsValid q → IsValid (add_byte_of_data_to_packet q b)
unfolding add_byte_of_data_to_packet write_byte_of_data_to_queue
add_byte-IsValid q b v =
    either Leaves (leb 1 (number_free_bytes_in_queue_to_write_too q)) (store_byte-IsValid q b v) v

header-IsValid :
    (q : Queue) (n : ℕ) (t : PacketType) → IsValid q → IsValid (write_packet_header q n t)
unfolding write_packet_header
header-IsValid q n t v = put-IsValid _ _ (put-IsValid _ _ (put-IsValid _ _ (put-IsValid q _ v)))

pub write_packet-IsValid :
    (q : Queue) (bs : List ℕ) (t : PacketType) → IsValid q → IsValid (write_data_to_packet q bs t).1
unfolding write_data_to_packet
write_packet-IsValid q bs t v =
    either Leaves (is_queue_space_available q (length bs + packet_overhead))
      (put-IsValid _ _ (put-IsValid _ bs (header-IsValid q (length bs) t v))) v

pub start-IsValid :
    (q : Queue) (n : ℕ) (t : PacketType) → IsValid q → IsValid (start_build_data_packet q n t).1
unfolding start_build_data_packet
start-IsValid q n t v =
    either Leaves (is_queue_space_available q (n + packet_overhead)) (header-IsValid q n t v) v

pub finish-IsValid : (q : Queue) → IsValid q → IsValid (finish_build_data_packet_and_send q)
unfolding finish_build_data_packet_and_send
finish-IsValid q v = put-IsValid q _ v

pub add_3-IsValid :
    (q : Queue) (c x y : ℕ) → IsValid q → IsValid (add_3_bytes_of_data_to_packet q c x y)
unfolding add_3_bytes_of_data_to_packet
add_3-IsValid q c x y v = add_byte-IsValid _ y (add_byte-IsValid _ x (add_byte-IsValid q _ v))

pub add_5-IsValid :
    (q : Queue) (c x y z w : ℕ) → IsValid q → IsValid (add_5_bytes_of_data_to_packet q c x y z w)
unfolding add_5_bytes_of_data_to_packet add_4_bytes_of_data_to_packet
add_5-IsValid q c x y z w v = add_byte-IsValid _ w (add_byte-IsValid _ z (add_3-IsValid q c x y v))

pub add_int-IsValid : (q : Queue) (n : ℕ) → IsValid q → IsValid (add_int_to_packet q n)
unfolding add_int_to_packet
add_int-IsValid q n v =
    add_byte-IsValid _ _ (add_byte-IsValid _ _ (add_byte-IsValid _ _ (add_byte-IsValid q _ v)))

-- The three bytes are looked at, and the read index is put back.
pub next_three-IsValid : (q : Queue) → IsValid q → IsValid (get_next_three_bytes_from_queue q).2
unfolding get_next_three_bytes_from_queue
next_three-IsValid q v =
    either (λ (r : Bool × List ℕ × Queue). IsValid r.2) (leb 3 (number_bytes_in_queue_to_read q))
      (record { store_in = (read_bytes-IsValid 3 q v).store_in; read_in = v.read_in }) v

pub skip_terminator-IsValid : (q : Queue) → IsValid q → IsValid (queue_skip_terminator_of_packet q)
unfolding queue_skip_terminator_of_packet
skip_terminator-IsValid q v =
    let (got, buffer, kept) = get_next_three_bytes_from_queue q in
    let u : IsValid kept = next_three-IsValid q v in
    either IsValid (got && is_three b'-' buffer) (increment_read-IsValid kept _ u) u

pub skip_packet-IsValid : (q : Queue) → IsValid q → IsValid (queue_skip_to_next_packet q).1
skip_packet-IsValid q v =
    (queue_skip_to_next_packet_lem (contents q) q (Holds-contents q v)).left.valid

pub complete-IsValid : (q : Queue) → IsValid q → IsValid (is_complete_packet_available q).1
complete-IsValid q v =
    (is_complete_packet_available_lem q (contents q) (Holds-contents q v)).left.valid

pub get_data-IsValid : (q : Queue) (n : ℤ) → IsValid q → IsValid (get_data_from_packet q n).2
unfolding get_data_from_packet
get_data-IsValid q n v =
    either (λ (r : Bool × List ℕ × Queue). IsValid r.2)
      (leb_ℤ n (sub_ℕ (get_packet_size q) front_packet_overhead))
      (read_bytes-IsValid (pos_part n) _ (increment_read-IsValid q _ v)) v

length-read_bytes : (n : ℕ) (q : Queue) → length (read_bytes n q).0 ≡ n
unfolding read_bytes
length-read_bytes zero q = refl
length-read_bytes (suc n) q = ap suc (length-read_bytes n (increment_read_next_index q 1))

-- As many bytes as were asked for, where the result is TRUE.
pub length-get_data :
    (q : Queue) (n : ℤ)
    → (get_data_from_packet q n).0 ≡ true
    → length (get_data_from_packet q n).1 ≡ pos_part n
unfolding get_data_from_packet
length-get_data q n =
    either (λ (r : Bool × List ℕ × Queue). r.0 ≡ true → length r.1 ≡ pos_part n)
      (leb_ℤ n (sub_ℕ (get_packet_size q) front_packet_overhead))
      (λ e. length-read_bytes (pos_part n) _) (λ e. absurd (cc))
