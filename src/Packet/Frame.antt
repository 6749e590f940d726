-- ===== src/Packet/Frame.antt =====
-- The packet format of packet.c on lists of bytes, and what its parser does to a list.
use Prim.Native.Nat.{◌+◌}
use cpc_cplink.Prelude.{
  ℕ, ◌*◌, ◌/◌, ◌%◌, ◌≡◌, Bool, true, false, ◌||◌, List, [], ◌∷◌, ◌++◌, arith, length, drop, get_or,
  leb, ltb, ◌==◌, if◌then◌else◌, length-append,
}
use cpc_cplink.Packet.{rear_delimiter, max_packet_type, is_three}

-- "+++", PACKET_SIZE (low byte first), PACKET_TYPE.
abbrev pub header : ℕ → ℕ → List ℕ
header type_byte payload_size =
    b'+'
    ∷ b'+'
    ∷ b'+'
    ∷ ((payload_size + 3) % 256)
    ∷ ((payload_size + 3) / 256 % 256)
    ∷ type_byte
    ∷ []

-- A whole packet: `+ + + PACKET_SIZE PACKET_TYPE PAYLOAD - - -`.
abbrev pub frame : ℕ → List ℕ → List ℕ
frame type_byte payload = header type_byte (length payload) ++ (payload ++ rear_delimiter)

pub length-frame : (t : ℕ) (payload : List ℕ) → length (frame t payload) ≡ length payload + 9
length-frame t payload = omega (arith, length-append payload rear_delimiter)

-- What skipping to the next packet leaves: from the first "+++" on, or the last two bytes.
unfoldable pub skip_to_start : List ℕ → Bool × List ℕ
skip_to_start (a ∷ b ∷ c ∷ r) = elim (is_three b'+' (a ∷ b ∷ c ∷ [])) [
  | true ↦ (true, a ∷ b ∷ c ∷ r)
  | false ↦ skip_to_start (b ∷ c ∷ r)
]
skip_to_start l = (false, l)

-- The size that a packet at the front announces.
abbrev pub size_field : List ℕ → ℕ
size_field l = get_or l 3 0 + get_or l 4 0 * 256

-- What the checks on a packet at the front of the list decide, and what they leave.
unfoldable pub check_front : List ℕ → Bool × List ℕ
check_front l =
    let size = size_field l in
    if ltb (length l) 6
    then (false, l)
    else if ltb (length l) (size + 6)
    then (false, l)
    else if get_or l 5 0 == 0 || leb max_packet_type (get_or l 5 0)
    then (false, drop (size + 6) l)
    else if is_three b'-'
        (get_or l (3 + size) 0 ∷ get_or l (3 + size + 1) 0 ∷ get_or l (3 + size + 2) 0 ∷ [])
    then (true, l)
    else (false, drop (size + 6) l)

unfoldable pub parse_front : List ℕ → Bool × List ℕ
parse_front l =
    let (found, rest) = skip_to_start l in if found then check_front rest else (false, rest)
