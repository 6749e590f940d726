-- ===== src/Packet/Payload.antt =====
-- packet.c: taking the payload of a packet off the queue, and the whole way of a packet.
use Prim.Native.Nat.{◌+◌}
use cpc_cplink.Prelude.{
  ℕ, ◌≤◌, ◌<◌, ◌≡◌, ◌≢◌, refl, sym, ap, subst, ◌∙◌, Bool, true, false, List, [], ◌++◌, append_assoc,
  append-nil, arith, length, length-append, take, drop, take-append, drop-append, All,
}
use cpc_cplink.Prelude.Int.{pos, leb_ℤ, sub_ℕ}
use cpc_cplink.Queue.{Queue, queue_size, increment_read_next_index, read_bytes}
use cpc_cplink.Queue.Holds.{Holds, Holds-increment, Holds-next_three, Holds-read}
use cpc_cplink.Packet.{
  PacketType, packet_type_byte, unknown_packet, rear_delimiter, is_three, get_packet_size,
  get_packet_type, get_data_from_packet, queue_skip_terminator_of_packet,
  is_complete_packet_available, write_data_to_packet,
}
use cpc_cplink.Packet.Frame.{frame}
use cpc_cplink.Packet.Write.{write_data_to_packet-frame}
use cpc_cplink.Packet.Receive.{
  get_packet_size_lem, get_packet_type_lem, size_field-frame, parse_front-frame,
  is_complete_packet_available_lem,
}

-- "---" at the front is dropped.
pub queue_skip_terminator_lem :
    (q : Queue) (rest : List ℕ)
    → Holds q (rear_delimiter ++ rest)
    → Holds (queue_skip_terminator_of_packet q) rest
unfolding queue_skip_terminator_of_packet
queue_skip_terminator_lem q rest h = ground (
  arith,
  Holds-next_three q (rear_delimiter ++ rest) h,
  Holds-increment q (rear_delimiter ++ rest) 3 h,
)

-- Anything else at the front, or fewer than three bytes, is left alone.
pub queue_skip_terminator_other :
    (q : Queue) (l : List ℕ)
    → Holds q l
    → is_three b'-' (take 3 l) ≡ false
    → queue_skip_terminator_of_packet q ≡ q
unfolding queue_skip_terminator_of_packet
queue_skip_terminator_other q l h other = ground (arith, Holds-next_three q l h)

module _ (q : Queue) (t : ℕ) (payload rest : List ℕ) (small : length payload + 3 < 65536)
    (h : Holds q (frame t payload ++ rest)) where
  size_lem : get_packet_size q ≡ length payload + 3
  size_lem =
      get_packet_size_lem q (frame t payload ++ rest) h
        (omega (arith, length-append (frame t payload) rest))
      ∙ size_field-frame t payload rest small

  -- Asked for the payload's size, `get_data_from_packet` returns TRUE and the payload, and leaves
  -- the queue at the "---" behind it.
  pub get_data_from_packet-frame :
      let (done, got, q') = get_data_from_packet q (pos (length payload)) in
      (done ≡ true) × (got ≡ payload) × Holds q' (rear_delimiter ++ rest)
  unfolding get_data_from_packet
  get_data_from_packet-frame = rw fits (refl, bytes, left)
    where
      n : ℕ
      n = length payload

      fits : leb_ℤ (pos n) (sub_ℕ (get_packet_size q) 3) ≡ true
      fits = ground (arith, size_lem)

      q6 : Queue
      q6 = increment_read_next_index q 6

      h6 : Holds q6 (payload ++ (rear_delimiter ++ rest))
      h6 = subst (Holds q6) (append_assoc payload rear_delimiter rest) (
          Holds-increment q (frame t payload ++ rest) 6 h
            (omega (arith, length-append (frame t payload) rest)))

      taken :
          ((read_bytes n q6).0 ≡ take n (payload ++ (rear_delimiter ++ rest)))
          × Holds (read_bytes n q6).1 (drop n (payload ++ (rear_delimiter ++ rest)))
      taken =
          Holds-read q6 (payload ++ (rear_delimiter ++ rest)) n h6
            (omega (arith, length-append payload (rear_delimiter ++ rest)))

      bytes : (read_bytes n q6).0 ≡ payload
      bytes = taken.0 ∙ take-append payload (rear_delimiter ++ rest)

      left : Holds (read_bytes n q6).1 (rear_delimiter ++ rest)
      left =
          subst (Holds (read_bytes n q6).1) (drop-append payload (rear_delimiter ++ rest)) taken.1

  -- Asked for more bytes than the payload has, it returns FALSE and changes nothing.
  pub get_data_from_packet_refused :
      (n : ℕ) → length payload < n → get_data_from_packet q (pos n) ≡ (false, [], q)
  unfolding get_data_from_packet
  get_data_from_packet_refused n lt = ground (arith, size_lem)

type_range :
    (t : PacketType) → t ≢ unknown_packet → (1 ≤ packet_type_byte t) × (packet_type_byte t < 5)
type_range unknown_packet ne = absurd (ne refl)
type_range _ ne = omega arith

-- What `is_complete_packet_available` leaves of a queue that holds a packet behind other bytes.
pub is_complete_packet_available-frame :
    (q : Queue) (noise payload rest : List ℕ) (t : PacketType)
    → t ≢ unknown_packet
    → length payload + 3 < 65536
    → All (λ b. b ≢ b'+') noise
    → Holds q (noise ++ (frame (packet_type_byte t) payload ++ rest))
    → let (found, q') = is_complete_packet_available q in
      (found ≡ true) × Holds q' (frame (packet_type_byte t) payload ++ rest)
is_complete_packet_available-frame q noise payload rest t known small clean h =
    let r = type_range t known in
    let tb = packet_type_byte t in
    let parsed = parse_front-frame tb payload rest small noise clean r.0 r.1 in
    let a = is_complete_packet_available_lem q (noise ++ (frame tb payload ++ rest)) h in
    (
      a.verdict ∙ ap (λ (s : Bool × List ℕ). s.0) parsed,
      subst (Holds (is_complete_packet_available q).1) (ap (λ (s : Bool × List ℕ). s.1) parsed)
          a.left,
    )

-- The whole way of a packet, from one side of the interface to the other. A payload of fewer than
-- 65533 bytes is written as a packet of a known type to a valid queue whose unread bytes are no '+',
-- where a byte more than the packet is free. Then the packet is found, with its type; taking its payload gives
-- the bytes that were written; and skipping its end leaves the queue empty.
pub packet_round_trip :
    (q : Queue) (noise payload : List ℕ) (t : PacketType)
    → Holds q noise
    → All (λ b. b ≢ b'+') noise
    → t ≢ unknown_packet
    → length payload + 3 < 65536
    → length noise + (length payload + 9) < queue_size
    → let (_, sent) = write_data_to_packet q payload t in
      let (found, ready) = is_complete_packet_available sent in
      let (done, got, read) = get_data_from_packet ready (pos (length payload)) in
      (found ≡ true)
      × (get_packet_type ready ≡ packet_type_byte t)
      × (done ≡ true)
      × (got ≡ payload)
      × Holds (queue_skip_terminator_of_packet read) []
packet_round_trip q noise payload t h clean known small fits = (
  found.0,
  get_packet_type_lem ready (frame tb payload ++ []) found.1
      (omega (arith, length-append (frame tb payload) [])),
  taken.0,
  taken.1,
  queue_skip_terminator_lem (get_data_from_packet ready (pos (length payload))).2 [] taken.2,
)
  where
    tb : ℕ
    tb = packet_type_byte t

    sent : Queue
    sent = (write_data_to_packet q payload t).1

    ready : Queue
    ready = (is_complete_packet_available sent).1

    written : Holds sent (noise ++ (frame tb payload ++ []))
    written =
        subst (λ l. Holds sent (noise ++ l)) (sym (append-nil (frame tb payload)))
          (write_data_to_packet-frame q noise payload t h fits).1

    found : ((is_complete_packet_available sent).0 ≡ true) × Holds ready (frame tb payload ++ [])
    found = is_complete_packet_available-frame sent noise payload [] t known small clean written

    taken :
        ((get_data_from_packet ready (pos (length payload))).0 ≡ true)
        × ((get_data_from_packet ready (pos (length payload))).1 ≡ payload)
        × Holds (get_data_from_packet ready (pos (length payload))).2 (rear_delimiter ++ [])
    taken = get_data_from_packet-frame ready tb payload [] small found.1
