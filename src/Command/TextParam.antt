-- ===== src/Command/TextParam.antt =====
-- command.c: the text parameters of a command.
use cpc_cplink.Prelude.{
  ℕ, zero, suc, ◌-◌, ◌≤◌, ◌≡◌, ◌≢◌, refl, Bool, true, false, not, List, [], ◌∷◌, ◌++◌, arith,
  length, All, ◌==◌, if◌then◌else◌,
}
use cpc_cplink.Queue.{Queue, increment_read_next_index}
use cpc_cplink.Queue.Holds.{Holds, Holds-increment, Holds-current}
use cpc_cplink.Command.Text.{IsNameByte}
use cpc_cplink.Command.Params.{
  scan_param, is_separator, get_command_next_param_text, get_all_command_params_text, space,
  newline,
}

-- Where a scan has stopped.
record Stopped (out : List ℕ × ℕ × Queue) (text : List ℕ) (room : ℕ) (rest : List ℕ) : Type 0 where
  string : out.0 ≡ text
  room_left : out.1 ≡ room
  left : Holds out.2 rest

module _ (stop : ℕ → Bool) where
  scan_param-stop :
      (room : ℕ) (text : List ℕ) (sep : ℕ) (l : List ℕ) (q : Queue)
      → All (λ b. stop b ≡ false) text
      → stop sep ≡ true
      → length text ≤ room
      → Holds q (text ++ sep ∷ l)
      → Stopped (scan_param stop room q) text (room - length text) (sep ∷ l)
  unfolding scan_param
  scan_param-stop zero [] sep l q n s fits h = record {
    string = refl;
    room_left = omega arith;
    left = h;
  }
  scan_param-stop zero (b ∷ text) sep l q n s fits h = absurd (omega arith)
  scan_param-stop (suc room) [] sep l q n s fits h = ground (arith, Holds-current q sep l h)
  scan_param-stop (suc room) (b ∷ text) sep l q n s fits h = ground (
    arith,
    Holds-current q b (text ++ sep ∷ l) h,
    scan_param-stop room text sep l (increment_read_next_index q 1) n.1 s (omega arith)
        (Holds-increment q (b ∷ text ++ sep ∷ l) 1 h (omega arith)),
  )

  -- A scan that meets no stop in all of its room.
  scan_param-full :
      (room : ℕ) (text l : List ℕ) (q : Queue)
      → All (λ b. stop b ≡ false) text
      → length text ≡ room
      → Holds q (text ++ l)
      → Stopped (scan_param stop room q) text 0 l
  unfolding scan_param
  scan_param-full zero [] l q n e h = record { string = refl; room_left = refl; left = h }
  scan_param-full zero (b ∷ text) l q n e h = absurd (omega arith)
  scan_param-full (suc room) [] l q n e h = absurd (omega arith)
  scan_param-full (suc room) (b ∷ text) l q n e h = ground (
    arith,
    Holds-current q b (text ++ l) h,
    scan_param-full room text l (increment_read_next_index q 1) n.1 (omega arith)
        (Holds-increment q (b ∷ text ++ l) 1 h (omega arith)),
  )

name_bytes_pass : (text : List ℕ) → All IsNameByte text → All (λ b. is_separator b ≡ false) text
name_bytes_pass [] n = tt
name_bytes_pass (b ∷ text) n = (ground arith, name_bytes_pass text n.1)

-- The terminator that `get_command_next_param_text` expects.
abbrev pub terminator : Bool → ℕ
terminator nl_terminated = if nl_terminated then newline else space

-- A parameter that fits into the buffer, ended by a space or by a newline: it is returned exactly
-- when its end is the one that is asked for, a newline for the last parameter and a space for any
-- other, and then the queue is left behind that end. Otherwise the result is FALSE with a cleared
-- buffer, and the queue is left at the end.
pub get_command_next_param_text_lem :
    (text : List ℕ) (last : Bool) (l : List ℕ) (q : Queue) (max_size : ℕ) (nl_terminated : Bool)
    → All IsNameByte text
    → length text ≤ max_size
    → Holds q (text ++ terminator last ∷ l)
    → let (found, param, q') = get_command_next_param_text q max_size nl_terminated in
      (found ≡ (if nl_terminated then last else not last))
      × (param ≡ (if found then text else []))
      × Holds q' (if found then l else terminator last ∷ l)
unfolding get_command_next_param_text
get_command_next_param_text_lem text true l q max_size nl n fits h =
    let s =
      scan_param-stop is_separator max_size text newline l q (name_bytes_pass text n) refl fits h in
    let stopped = (scan_param is_separator max_size q).2 in
    ground (
      arith,
      s,
      Holds-current stopped newline l s.left,
      Holds-increment stopped (newline ∷ l) 1 s.left (omega arith),
    )
get_command_next_param_text_lem text false l q max_size nl n fits h =
    let s =
      scan_param-stop is_separator max_size text space l q (name_bytes_pass text n) refl fits h in
    let stopped = (scan_param is_separator max_size q).2 in
    ground (
      arith,
      s,
      Holds-current stopped space l s.left,
      Holds-increment stopped (space ∷ l) 1 s.left (omega arith),
    )

-- A parameter that is longer than the buffer is refused, and no byte past the buffer is written.
pub get_command_next_param_text_too_long :
    (text : List ℕ) (b : ℕ) (l : List ℕ) (q : Queue) (nl_terminated : Bool)
    → All IsNameByte text
    → IsNameByte b
    → Holds q (text ++ b ∷ l)
    → let (found, param, q') = get_command_next_param_text q (length text) nl_terminated in
      (found ≡ false) × (param ≡ []) × Holds q' (b ∷ l)
unfolding get_command_next_param_text
get_command_next_param_text_too_long text b l q nl n nb h =
    let s =
      scan_param-full is_separator (length text) text (b ∷ l) q (name_bytes_pass text n) refl h in
    ground (arith, s, Holds-current (scan_param is_separator (length text) q).2 b l s.left)

-- All parameters up to the newline, where they fit into the buffer: they are returned as they
-- stand, and the queue is left behind the newline.
pub get_all_command_params_text_lem :
    (text l : List ℕ) (q : Queue) (max_size : ℕ)
    → All (λ b. b ≢ newline) text
    → length text ≤ max_size
    → Holds q (text ++ newline ∷ l)
    → let (found, params, q') = get_all_command_params_text q max_size in
      (found ≡ true) × (params ≡ text) × Holds q' l
unfolding get_all_command_params_text
get_all_command_params_text_lem text l q max_size n fits h =
    let stop : ℕ → Bool = λ byte. byte == newline in
    let s = scan_param-stop stop max_size text newline l q (go text n) refl fits h in
    let stopped = (scan_param stop max_size q).2 in
    ground (
      arith,
      s,
      Holds-current stopped newline l s.left,
      Holds-increment stopped (newline ∷ l) 1 s.left (omega arith),
    )
  where
    go : (t : List ℕ) → All (λ b. b ≢ newline) t → All (λ b. (b == newline) ≡ false) t
    go [] m = tt
    go (b ∷ t) m = (ground arith, go t m.1)
