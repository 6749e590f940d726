-- ===== src/Packet/Receive.antt =====
-- packet.c: recognising a packet, and taking its payload.
use Prim.Native.Nat.{◌+◌}
use cpc_cplink.Prelude.{
  ℕ, zero, suc, ◌*◌, ◌/◌, ◌%◌, ◌≤◌, ◌<◌, ◌≡◌, ◌≢◌, refl, sym, ap, ap₂, subst, ◌∙◌, Bool, true,
  false, List, [], ◌∷◌, ◌++◌, append_assoc, arith, length, length-append, drop, drop-append, ◌⊎◌,
  get_or, if◌then◌else◌, All,
}
use cpc_cplink.Queue.{Queue, queue_read_ahead_byte}
use cpc_cplink.Queue.Holds.{Holds, Holds-used, Holds-increment, Holds-read_ahead}
use cpc_cplink.Packet.{
  is_three, get_packet_type, get_packet_size, check_packet_for_terminator, check_packet,
  is_complete_packet_available, queue_skip_to_next_packet, rear_delimiter,
}
use cpc_cplink.Packet.Frame.{
  frame, header, length-frame, size_field, check_front, skip_to_start, parse_front,
}
use cpc_cplink.Packet.Skip.{Agrees, queue_skip_to_next_packet_lem, skip_to_start-noise}

module _ (q : Queue) (l : List ℕ) (h : Holds q l) where
  pub get_packet_size_lem : 6 ≤ length l → get_packet_size q ≡ size_field l
  unfolding get_packet_size queue_read_ahead_byte
  get_packet_size_lem six =
      ap₂ (λ a b. a + b * 256) (Holds-read_ahead q l 3 h (omega arith))
        (Holds-read_ahead q l 4 h (omega arith))

  pub get_packet_type_lem : 6 ≤ length l → get_packet_type q ≡ get_or l 5 0
  unfolding get_packet_type queue_read_ahead_byte
  get_packet_type_lem six = Holds-read_ahead q l 5 h (omega arith)

  terminator_lem :
      (size : ℕ)
      → size + 6 ≤ length l
      → check_packet_for_terminator q size
        ≡ is_three b'-'
            (get_or l (3 + size) 0 ∷ get_or l (3 + size + 1) 0 ∷ get_or l (3 + size + 2) 0 ∷ [])
  unfolding check_packet_for_terminator
  terminator_lem size fits =
      rw
        (
          Holds-read_ahead q l (3 + size) h (omega arith),
          Holds-read_ahead q l (3 + size + 1) h (omega arith),
          Holds-read_ahead q l (3 + size + 2) h (omega arith),
        )
        refl

  -- The checks on the bytes of the queue are those on the list.
  pub check_packet_lem : Agrees (check_packet q) (check_front l)
  unfolding check_packet check_front
  check_packet_lem = ground (
    arith,
    h,
    Holds-used q l h,
    get_packet_size_lem,
    get_packet_type_lem,
    terminator_lem (size_field l),
    Holds-increment q l (size_field l + 6) h,
  )

-- On a valid queue `is_complete_packet_available` returns what the parser of the unread bytes
-- returns, and leaves the bytes that it leaves.
pub is_complete_packet_available_lem :
    (q : Queue) (l : List ℕ) → Holds q l → Agrees (is_complete_packet_available q) (parse_front l)
unfolding is_complete_packet_available parse_front
is_complete_packet_available_lem q l h = go (queue_skip_to_next_packet_lem l q h)
  where
    go :
        Agrees (queue_skip_to_next_packet q) (skip_to_start l)
        → Agrees
            (let (found, skipped) = queue_skip_to_next_packet q in
              if found then check_packet skipped else (false, skipped))
            (let (found, rest) = skip_to_start l in
              if found then check_front rest else (false, rest))
    go s =
        ground (arith, check_packet_lem (queue_skip_to_next_packet q).1 (skip_to_start l).1 s.left)

get_or-append :
    (xs ys : List ℕ) (i j : ℕ) → j ≡ length xs + i → get_or (xs ++ ys) j 0 ≡ get_or ys i 0
get_or-append [] ys i j e = ap (λ k. get_or ys k 0) (omega arith)
get_or-append (x ∷ xs) ys i zero e = absurd (omega arith)
get_or-append (x ∷ xs) ys i (suc j) e = get_or-append xs ys i j (omega arith)

module _ (t : ℕ) (payload rest : List ℕ) (small : length payload + 3 < 65536) where
  pub size_field-frame : size_field (frame t payload ++ rest) ≡ length payload + 3
  size_field-frame = omega arith

  terminator_frame :
      (j k : ℕ)
      → j ≡ 6 + length payload + k
      → get_or (frame t payload ++ rest) j 0 ≡ get_or (rear_delimiter ++ rest) k 0
  terminator_frame j k e =
      subst
        (λ (l : List ℕ).
          get_or (header t (length payload) ++ l) j 0 ≡ get_or (rear_delimiter ++ rest) k 0)
        (sym (append_assoc payload rear_delimiter rest))
        (get_or-append (header t (length payload)) (payload ++ (rear_delimiter ++ rest))
            (length payload + k) j (omega arith)
          ∙ get_or-append payload (rear_delimiter ++ rest) k (length payload + k) refl)

  -- A packet of a known type at the front passes all checks.
  pub check_front-frame :
      1 ≤ t → t < 5 → check_front (frame t payload ++ rest) ≡ (true, frame t payload ++ rest)
  unfolding check_front
  check_front-frame lo hi =
      let s = size_field-frame in
      ground (
        arith,
        terminator_frame (3 + size_field (frame t payload ++ rest)) 0,
        terminator_frame (3 + size_field (frame t payload ++ rest) + 1) 1,
        terminator_frame (3 + size_field (frame t payload ++ rest) + 2) 2,
        length-append (payload ++ rear_delimiter) rest,
        length-append payload rear_delimiter,
      )

  -- Behind bytes that are no '+', the parser finds the packet and drops what stands before it.
  pub parse_front-frame :
      (noise : List ℕ)
      → All (λ b. b ≢ b'+') noise
      → 1 ≤ t
      → t < 5
      → parse_front (noise ++ (frame t payload ++ rest)) ≡ (true, frame t payload ++ rest)
  unfolding parse_front
  parse_front-frame noise n lo hi =
      rw
        (
          skip_to_start-noise noise
              ((length payload + 3) % 256
                ∷ (length payload + 3) / 256 % 256
                ∷ t
                ∷ (payload ++ rear_delimiter ++ rest))
              n,
          parse_front,
        )
        (check_front-frame lo hi)

front_dropped :
    (t : ℕ) (payload rest : List ℕ)
    → length payload + 3 < 65536
    → (t ≡ 0) ⊎ (5 ≤ t)
    → drop (size_field (frame t payload ++ rest) + 6) (frame t payload ++ rest) ≡ rest
    → parse_front (frame t payload ++ rest) ≡ (false, rest)
unfolding parse_front check_front skip_to_start
front_dropped t payload rest small bad whole = ground (
  arith,
  size_field-frame t payload rest small,
  length-append (payload ++ rear_delimiter) rest,
  length-append payload rear_delimiter,
)

-- A packet of a type byte that is 0 or above 4, with fewer than 65533 bytes of payload, at the
-- front of a valid queue: the result is FALSE, and the queue is left behind that packet.
pub is_complete_packet_available_bad_type :
    (q : Queue) (t : ℕ) (payload rest : List ℕ)
    → (t ≡ 0) ⊎ (5 ≤ t)
    → length payload + 3 < 65536
    → Holds q (frame t payload ++ rest)
    → let (found, q') = is_complete_packet_available q in (found ≡ false) × Holds q' rest
is_complete_packet_available_bad_type q t payload rest bad small h = (
  a.verdict ∙ ap (λ (s : Bool × List ℕ). s.0) parsed,
  subst (Holds (is_complete_packet_available q).1) (ap (λ (s : Bool × List ℕ). s.1) parsed) a.left,
)
  where
    l : List ℕ
    l = frame t payload ++ rest

    a : Agrees (is_complete_packet_available q) (parse_front l)
    a = is_complete_packet_available_lem q l h

    size : size_field l + 6 ≡ length (frame t payload)
    size = omega (arith, size_field-frame t payload rest small, length-frame t payload)

    whole : drop (size_field l + 6) l ≡ rest
    whole = ap (λ n. drop n l) size ∙ drop-append (frame t payload) rest

    parsed : parse_front l ≡ (false, rest)
    parsed = front_dropped t payload rest small bad whole
