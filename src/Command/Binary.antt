-- ===== src/Command/Binary.antt =====
-- command.c: the binary parameters, against the functions of packet.c that write them.
use Prim.Native.Nat.{◌+◌}
use cpc_cplink.Prelude.{
  ℕ, ◌*◌, ◌/◌, ◌%◌, ◌<◌, ◌≡◌, subst, List, [], ◌∷◌, ◌++◌, arith, append_assoc, length-append,
}
use cpc_cplink.Queue.{Queue, increment_read_next_index}
use cpc_cplink.Queue.Holds.{Holds, Holds-increment, Holds-current}
use cpc_cplink.Packet.{rear_delimiter, add_int_to_packet}
use cpc_cplink.Packet.Frame.{frame}
use cpc_cplink.Packet.Write.{int_bytes, Holds-add_int}
use cpc_cplink.Command.Params.{
  get_command_next_8bit_param_bin, get_command_next_16bit_param_bin,
  get_command_next_32bit_param_bin, get_command_bin,
}

-- A value read off the front, and what the queue holds then.
pub record Reads (out : ℕ × Queue) (value : ℕ) (rest : List ℕ) : Type 0 where
  pub result : out.0 ≡ value
  pub left : Holds out.1 rest

module _ (q : Queue) where
  pub next_8bit_lem :
      (b : ℕ) (l : List ℕ) → Holds q (b ∷ l) → Reads (get_command_next_8bit_param_bin q) b l
  unfolding get_command_next_8bit_param_bin
  next_8bit_lem b l h = record {
    result = Holds-current q b l h;
    left = Holds-increment q (b ∷ l) 1 h (omega arith);
  }

-- Two bytes, low byte first, are read as a number below 65536.
pub next_16bit_lem :
    (q : Queue) (low high : ℕ) (l : List ℕ)
    → Holds q (low ∷ high ∷ l)
    → Reads (get_command_next_16bit_param_bin q) (low + high * 256) l
unfolding get_command_next_16bit_param_bin
next_16bit_lem q low high l h =
    let a = next_8bit_lem q low (high ∷ l) h in
    let b = next_8bit_lem (get_command_next_8bit_param_bin q).1 high l a.left in
    record { result = omega (arith, a.result, b.result); left = b.left }

-- The four bytes that `add_int_to_packet` writes for a 32-bit value are read as that value.
pub next_32bit_lem :
    (q : Queue) (v : ℕ) (l : List ℕ)
    → v < 4294967296
    → Holds q (int_bytes v ++ l)
    → Reads (get_command_next_32bit_param_bin q) v l
unfolding get_command_next_32bit_param_bin
next_32bit_lem q v l small h =
    let b1 = v / 65536 % 256 in
    let b2 = v / 16777216 % 256 in
    let b3 = v % 256 in
    let b4 = v / 256 % 256 in
    let q1 = (get_command_next_8bit_param_bin q).1 in
    let q2 = (get_command_next_8bit_param_bin q1).1 in
    let q3 = (get_command_next_8bit_param_bin q2).1 in
    let r1 = next_8bit_lem q b1 (b2 ∷ b3 ∷ b4 ∷ l) h in
    let r2 = next_8bit_lem q1 b2 (b3 ∷ b4 ∷ l) r1.left in
    let r3 = next_8bit_lem q2 b3 (b4 ∷ l) r2.left in
    let r4 = next_8bit_lem q3 b4 l r3.left in
    record { result = omega (arith, r1.result, r2.result, r3.result, r4.result); left = r4.left }

-- An int that is added to a queue that holds nothing else comes back by
-- `get_command_next_32bit_param_bin`, for every 32-bit value, and the queue is empty again.
pub add_int-next_32bit :
    (q : Queue) (v : ℕ)
    → Holds q []
    → v < 4294967296
    → Reads (get_command_next_32bit_param_bin (add_int_to_packet q v)) v []
add_int-next_32bit q v h small =
    next_32bit_lem (add_int_to_packet q v) v [] small (Holds-add_int q [] v h (omega arith))

-- At a binary packet `get_command_bin` reads the first byte of the payload and leaves the
-- parameters, whatever the size of the packet.
pub get_command_bin_lem :
    (q : Queue) (t c : ℕ) (params rest : List ℕ)
    → Holds q (frame t (c ∷ params) ++ rest)
    → Reads (get_command_bin q) c (params ++ (rear_delimiter ++ rest))
unfolding get_command_bin
get_command_bin_lem q t c params rest h =
    next_8bit_lem (increment_read_next_index q 6) c (params ++ (rear_delimiter ++ rest)) (
      subst (Holds (increment_read_next_index q 6)) (append_assoc (c ∷ params) rear_delimiter rest)
        (Holds-increment q (frame t (c ∷ params) ++ rest) 6 h
          (omega (arith, length-append (frame t (c ∷ params)) rest))))
