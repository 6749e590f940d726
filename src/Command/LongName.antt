-- ===== src/Command/LongName.antt =====
-- command.c: a command name that is too long for `command_string`.
use Prim.Native.Nat.{◌+◌}
use cpc_cplink.Prelude.{
  ℕ, zero, suc, ◌%◌, ◌≤◌, ◌<◌, ◌≡◌, refl, sym, ◌∙◌, ap, subst, false, List, [], ◌∷◌, ◌++◌, arith,
  length, append_assoc, append-nil, length-append, All,
}
use cpc_cplink.Prelude.Int.{ℤ, pos, negsuc, ◌-ℤ◌, ◌+ℤ◌}
use cpc_cplink.Queue.{Queue, queue_size, increment_read_next_index}
use cpc_cplink.Queue.Valid.{increment_read-increment_read, increment_read-zero}
use cpc_cplink.Queue.Holds.{Holds, Holds-increment, Holds-current, Holds-skip}
use cpc_cplink.Packet.{rear_delimiter}
use cpc_cplink.Packet.Frame.{frame}
use cpc_cplink.Command.Text.{IsNameByte, header_lem}
use cpc_cplink.Command.Params.{
  NameScan, scan_name, moved_to, remainder, finish_name, inside, below, get_body_text,
  get_command_text, increment_read_next_index_signed,
}

-- A scan over bytes that are no separator uses up its room.
record Overrun (s : NameScan) (text : List ℕ) (index : ℕ) (q : Queue) : Type 0 where
  incomplete : s.command_name_complete ≡ false
  string : s.command_string ≡ text
  at : s.index ≡ index
  moved : s.queue ≡ q

scan_name-Overrun :
    (room index size stop : ℕ) (text bytes l : List ℕ) (q : Queue)
    → All IsNameByte bytes
    → length bytes ≡ room
    → index + room ≤ size + 1
    → stop ≡ index + room
    → Holds q (bytes ++ l)
    → Overrun
        (scan_name room index (pos size) text q)
        (text ++ bytes)
        stop
        (increment_read_next_index q room)
unfolding scan_name
scan_name-Overrun zero index size stop text [] l q n e z s h = record {
  incomplete = refl;
  string = sym (append-nil text);
  at = omega arith;
  moved = sym (increment_read-zero q h.valid);
}
scan_name-Overrun zero index size stop text (b ∷ bytes) l q n e z s h = absurd (omega arith)
scan_name-Overrun (suc room) index size stop text [] l q n e z s h = absurd (omega arith)
scan_name-Overrun (suc room) index size stop text (b ∷ bytes) l q n e z s h = ground (
  arith,
  Holds-current q b (bytes ++ l) h,
  Holds-increment q (b ∷ bytes ++ l) 1 h (omega arith),
  append_assoc text (b ∷ []) bytes,
  increment_read-increment_read q 1 room (suc room) (omega arith),
  scan_name-Overrun room (suc index) size stop (text ++ b ∷ []) bytes l
      (increment_read_next_index q 1),
)

finish_name-Overrun :
    (size : ℤ) (n : NameScan) (text : List ℕ) (q : Queue)
    → Overrun n text 30 q
    → finish_name size n ≡ (false, text, increment_read_next_index_signed q (size -ℤ pos 30))
unfolding finish_name
finish_name-Overrun size n text q o = rw (o.at, o.incomplete, o.string, o.moved) refl

-- The body of a command name reaches the scan.
get_body_text-scan :
    (size b : ℕ) (l : List ℕ) (q : Queue)
    → IsNameByte b
    → 1 < size
    → Holds q (b ∷ l)
    → get_body_text (pos size) q ≡ finish_name (pos size) (scan_name 30 0 (pos size) [] q)
unfolding get_body_text
get_body_text-scan size b l q n big h = ground (arith, Holds-current q b l h)

increment_signed-pos :
    (q : Queue) (n : ℕ)
    → increment_read_next_index_signed q (pos n) ≡ inside (increment_read_next_index q n)
unfolding increment_read_next_index_signed increment_read_next_index
increment_signed-pos q n =
    let e : pos q.read_next_byte +ℤ pos n ≡ pos (q.read_next_byte + n) = ground arith in
    ap (λ i. moved_to q (remainder i queue_size)) e

-- A step back from the start of the array.
increment_signed-back :
    (q : Queue) → q.read_next_byte ≡ 0 → increment_read_next_index_signed q (negsuc 0) ≡ below q 0
unfolding increment_read_next_index_signed
increment_signed-back q e = ap (λ r. moved_to q (remainder (pos r +ℤ negsuc 0) queue_size)) e

-- The body of a command name of more than 29 bytes: nothing is found, and it is skipped whole.
get_body_text-long :
    (b : ℕ) (first more l : List ℕ) (q : Queue)
    → All IsNameByte (b ∷ first)
    → length first ≡ 29
    → Holds q (b ∷ first ++ (more ++ l))
    → (q' : Queue) × (get_body_text (pos (30 + length more)) q ≡ (false, b ∷ first, inside q'))
      × Holds q' l
get_body_text-long b first more l q n e h =
    let o =
      scan_name-Overrun 30 0 (30 + length more) 30 [] (b ∷ first) (more ++ l) q n (omega arith)
        (omega arith) refl h in
    let size = pos (30 + length more) in
    let q30 = increment_read_next_index q 30 in
    let over : size -ℤ pos 30 ≡ pos (length more) = ground arith in
    (
      increment_read_next_index q30 (length more),
      get_body_text-scan (30 + length more) b (first ++ (more ++ l)) q n.0 (omega arith) h
          ∙ finish_name-Overrun size (scan_name 30 0 size [] q) (b ∷ first) q30 o
          ∙ ap (λ m. (false, b ∷ first, m))
              (ap (increment_read_next_index_signed q30) over
                ∙ increment_signed-pos q30 (length more)),
      Holds-skip q30 (length more) more l (Holds-skip q 30 (b ∷ first) (more ++ l) h (omega arith))
          refl,
    )

-- A command name of 30 bytes or more, up to the end of its packet, is refused: `get_command_text`
-- returns FALSE and leaves the queue at the "---" of the packet.
pub get_command_text_too_long :
    (q : Queue) (t b : ℕ) (first more rest : List ℕ)
    → All IsNameByte (b ∷ first)
    → length first ≡ 29
    → length more + 33 < 65536
    → Holds q (frame t (b ∷ first ++ more) ++ rest)
    → (q' : Queue) × (get_command_text q ≡ (false, b ∷ first, inside q'))
      × Holds q' (rear_delimiter ++ rest)
get_command_text_too_long q t b first more rest n e small h =
    let sized : length (b ∷ first ++ more) ≡ 30 + length more =
      omega (arith, length-append first more) in
    let (q6, same, held, _) = header_lem q t (b ∷ first ++ more) rest (omega arith) h in
    let (q', taken, left) =
      get_body_text-long b first more (rear_delimiter ++ rest) q6 n e
        (subst (Holds q6) (append_assoc (b ∷ first) more (rear_delimiter ++ rest)) held) in
    (q', same ∙ ap (λ k. get_body_text (pos k) q6) sized ∙ taken, left)

All-snoc : (xs : List ℕ) → All IsNameByte xs → All IsNameByte (xs ++ b'-' ∷ [])
All-snoc [] h = ((omega arith, omega arith), tt)
All-snoc (x ∷ xs) h = (h.0, All-snoc xs h.1)

read_index :
    (q q6 : Queue)
    → q.read_next_byte ≡ 131034
    → q6
      ≡ increment_read_next_index
          (increment_read_next_index
            (increment_read_next_index (increment_read_next_index q 3) 1)
            1)
          1
    → (q6.read_next_byte + 30) % queue_size ≡ 0
unfolding increment_read_next_index
read_index q q6 at e = omega (arith, ap (λ (r : Queue). r.read_next_byte) e)

-- A body of 29 bytes: the scan takes the first '-' of the terminator too, and then steps back.
get_body_text-29 :
    (b : ℕ) (first l : List ℕ) (q : Queue)
    → All IsNameByte (b ∷ first)
    → length first ≡ 28
    → Holds q (b ∷ first ++ b'-' ∷ l)
    → (q.read_next_byte + 30) % queue_size ≡ 0
    → (q' : Queue) × (get_body_text (pos 29) q ≡ (false, b ∷ first ++ (b'-' ∷ []), below q' 0))
unfolding increment_read_next_index
get_body_text-29 b first l q n e h wrapped =
    let o =
      scan_name-Overrun 30 0 29 30 [] (b ∷ first ++ b'-' ∷ []) l q (n.0, All-snoc first n.1)
        (omega (arith, length-append first (b'-' ∷ []))) (omega arith) refl
        (subst (Holds q) (sym (append_assoc (b ∷ first) (b'-' ∷ []) l)) h) in
    let q30 = increment_read_next_index q 30 in
    (
      q30,
      get_body_text-scan 29 b (first ++ b'-' ∷ l) q n.0 (omega arith) h
          ∙ finish_name-Overrun (pos 29) (scan_name 30 0 (pos 29) [] q) (b ∷ first ++ (b'-' ∷ []))
              q30 o
          ∙ ap (λ m. (false, b ∷ first ++ (b'-' ∷ []), m)) (increment_signed-back q30 wrapped),
    )

-- A command name of exactly 29 bytes, up to the end of its packet, makes `get_command_text` step
-- the read index back by one. Where the packet's first 36 bytes end at the end of the array, the
-- index leaves the array: it becomes -1, and the function returns FALSE with it.
pub get_command_text_escapes :
    (q : Queue) (t b : ℕ) (first rest : List ℕ)
    → All IsNameByte (b ∷ first)
    → length first ≡ 28
    → q.read_next_byte ≡ 131034
    → Holds q (frame t (b ∷ first) ++ rest)
    → (q' : Queue) × (get_command_text q ≡ (false, b ∷ first ++ (b'-' ∷ []), below q' 0))
get_command_text_escapes q t b first rest n e at h =
    let (q6, same, held, moved) = header_lem q t (b ∷ first) rest (omega arith) h in
    let (q', out) =
      get_body_text-29 b first (b'-' ∷ b'-' ∷ rest) q6 n e held (read_index q q6 at moved) in
    (q', same ∙ ap (λ k. get_body_text (pos k) q6) (omega arith) ∙ out)
