-- ===== src/Command/Text.antt =====
-- command.c: command names and text parameters.
use Prim.Native.Nat.{◌+◌}
use cpc_cplink.Prelude.{
  ℕ, zero, suc, ◌*◌, ◌/◌, ◌%◌, ◌≤◌, ◌<◌, ◌≡◌, ◌≢◌, ◌⊎◌, refl, ◌∙◌, ap, subst, true, List, [], ◌∷◌,
  ◌++◌, arith, length, append_assoc, append-nil, length-append, All,
}
use cpc_cplink.Prelude.Int.{pos, sub_ℕ}
use cpc_cplink.Queue.{Queue, increment_read_next_index}
use cpc_cplink.Queue.Holds.{Holds, Holds-increment, Holds-current}
use cpc_cplink.Packet.{rear_delimiter}
use cpc_cplink.Packet.Frame.{frame}
use cpc_cplink.Command.Binary.{Reads, next_8bit_lem}
use cpc_cplink.Command.Params.{
  NameScan, scan_name, finish_name, inside, get_body_text, get_command_text,
  get_command_next_8bit_param_bin, space, newline,
}

abbrev pub IsSeparator : ℕ → Type 0
IsSeparator b = (b ≡ space) ⊎ (b ≡ newline)

-- A byte that belongs to a name or to a parameter.
abbrev pub IsNameByte : ℕ → Type 0
IsNameByte b = (b ≢ space) × (b ≢ newline)

-- Where a scan has stopped at a separator.
record Scanned (s : NameScan) (text rest : List ℕ) : Type 0 where
  complete : s.command_name_complete ≡ true
  string : s.command_string ≡ text
  left : Holds s.queue rest

scan_name_lem :
    (room index size : ℕ) (text name : List ℕ) (sep : ℕ) (l : List ℕ) (q : Queue)
    → All IsNameByte name
    → IsSeparator sep
    → 0 < index + length name
    → length name < room
    → index + length name ≤ size
    → Holds q (name ++ sep ∷ l)
    → Scanned (scan_name room index (pos size) text q) (text ++ name) l
unfolding scan_name
scan_name_lem zero index size text name sep l q n s p r z h = absurd (omega arith)
scan_name_lem (suc room) index size text [] sep l q n s p r z h =
    ground (arith, Holds-current q sep l h, Holds-increment q (sep ∷ l) 1 h, append-nil text)
scan_name_lem (suc room) index size text (b ∷ name) sep l q n s p r z h = ground (
  arith,
  Holds-current q b (name ++ sep ∷ l) h,
  Holds-increment q (b ∷ name ++ sep ∷ l) 1 h (omega arith),
  append_assoc text (b ∷ []) name,
  scan_name_lem room (suc index) size (text ++ b ∷ []) name sep l (increment_read_next_index q 1),
)

-- The header of a packet is read as the size of its payload, and left behind.
pub header_lem :
    (q : Queue) (t : ℕ) (payload rest : List ℕ)
    → length payload + 3 < 65536
    → Holds q (frame t payload ++ rest)
    → (q' : Queue) × (get_command_text q ≡ get_body_text (pos (length payload)) q')
      × Holds q' (payload ++ (rear_delimiter ++ rest))
      × (q'
          ≡ increment_read_next_index
              (increment_read_next_index
                (increment_read_next_index (increment_read_next_index q 3) 1)
                1)
              1)
unfolding get_command_text
header_lem q t payload rest small h = (q6, ap (λ n. get_body_text n q6) size, left, refl)
  where
    n : ℕ
    n = length payload + 3

    body : List ℕ
    body = payload ++ rear_delimiter ++ rest

    q3 : Queue
    q3 = increment_read_next_index q 3

    q4 : Queue
    q4 = (get_command_next_8bit_param_bin q3).1

    q5 : Queue
    q5 = (get_command_next_8bit_param_bin q4).1

    q6 : Queue
    q6 = increment_read_next_index q5 1

    h3 : Holds q3 ((n % 256) ∷ (n / 256 % 256) ∷ t ∷ body)
    h3 =
        Holds-increment q (frame t payload ++ rest) 3 h
          (omega (arith, length-append (frame t payload) rest))

    r4 : Reads (get_command_next_8bit_param_bin q3) (n % 256) ((n / 256 % 256) ∷ t ∷ body)
    r4 = next_8bit_lem q3 (n % 256) ((n / 256 % 256) ∷ t ∷ body) h3

    r5 : Reads (get_command_next_8bit_param_bin q4) (n / 256 % 256) (t ∷ body)
    r5 = next_8bit_lem q4 (n / 256 % 256) (t ∷ body) r4.left

    left : Holds q6 (payload ++ (rear_delimiter ++ rest))
    left =
        subst (Holds q6) (append_assoc payload rear_delimiter rest)
          (Holds-increment q5 (t ∷ body) 1 r5.left (omega arith))

    size :
        sub_ℕ
          ((get_command_next_8bit_param_bin q4).0 * 256 + (get_command_next_8bit_param_bin q3).0)
          3
        ≡ pos (length payload)
    size = ground (arith, r4.result, r5.result)

-- A body that starts with a name of 1 to 29 bytes and a separator.
get_body_text-name :
    (size : ℕ) (b : ℕ) (name : List ℕ) (sep : ℕ) (l : List ℕ) (q : Queue)
    → IsNameByte b
    → All IsNameByte name
    → IsSeparator sep
    → length name < 29
    → length name + 2 ≤ size
    → Holds q (b ∷ name ++ sep ∷ l)
    → (q' : Queue) × (get_body_text (pos size) q ≡ (true, b ∷ name, inside q')) × Holds q' l
unfolding get_body_text finish_name
get_body_text-name size b name sep l q nb nn s short fits h =
    let scan = scan_name 30 0 (pos size) [] q in
    let a =
      scan_name_lem 30 0 size [] (b ∷ name) sep l q (nb, nn) s (omega arith) (omega arith)
        (omega arith) h in
    (scan.queue, ground (arith, a, Holds-current q b (name ++ sep ∷ l) h), a.left)

-- From a packet whose payload is a command name of 1 to 29 bytes, a separator and anything else,
-- `get_command_text` takes exactly the name, and leaves the queue behind the separator.
pub get_command_text-name :
    (q : Queue) (t : ℕ) (b : ℕ) (name : List ℕ) (sep : ℕ) (params rest : List ℕ)
    → IsNameByte b
    → All IsNameByte name
    → IsSeparator sep
    → length name < 29
    → length (b ∷ name ++ sep ∷ params) + 3 < 65536
    → Holds q (frame t (b ∷ name ++ sep ∷ params) ++ rest)
    → (q' : Queue) × (get_command_text q ≡ (true, b ∷ name, inside q'))
      × Holds q' (params ++ (rear_delimiter ++ rest))
get_command_text-name q t b name sep params rest nb nn s short small h =
    let (q6, same, held, _) = header_lem q t (b ∷ name ++ sep ∷ params) rest small h in
    let (q', taken, left) =
      get_body_text-name (length (b ∷ name ++ sep ∷ params)) b name sep
        (params ++ (rear_delimiter ++ rest)) q6 nb nn s short
        (omega (arith, length-append name (sep ∷ params)))
        (subst (Holds q6) (append_assoc (b ∷ name) (sep ∷ params) (rear_delimiter ++ rest)) held) in
    (q', same ∙ taken, left)
