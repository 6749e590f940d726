-- ===== src/General/Shell.antt =====
-- command_general.c: what SHELLEXEC and WIFIIP make of the file that they read.
use cpc_cplink.Prelude.{
  ℕ, suc, ◌+◌, ◌≤◌, ◌<◌, ◌≡◌, refl, sym, ap, subst, ◌∙◌, Bool, true, false, ◌&&◌, none, some, List,
  [], ◌∷◌, ◌++◌, append-nil, append_assoc, length, length-append, ltb, ◌==◌, if◌then◌else◌, All,
  Bool-cases, inl, inr, arith,
}
use cpc_cplink.Prelude.Text.{codes, c_string}
use cpc_cplink.Queue.{Queue, queue_size}
use cpc_cplink.Queue.Holds.{Holds}
use cpc_cplink.Packet.{
  PacketType, start_build_data_packet, add_data_to_packet, finish_build_data_packet_and_send,
}
use cpc_cplink.Packet.Frame.{header, frame}
use cpc_cplink.Command.{max_wifi_line_length}
use cpc_cplink.Memory.Replies.{Holds-start, Holds-finish}
use cpc_cplink.Help.Frame.{Holds-add_data}
use cpc_cplink.General.System.{
  max_shell_line_length, is_line_end, add_lines, result_header_text, write_result, wifi_line,
}

abbrev pub IsText : ℕ → Type 0
IsText b = (b == 0) ≡ false

c_string-text : (l : List ℕ) → All IsText l → c_string l ≡ l
unfolding c_string
c_string-text [] t = refl
c_string-text (b ∷ l) t = rw t.0 (ap (λ k. b ∷ k) (c_string-text l t.1))

All-snoc : (l : List ℕ) (b : ℕ) → All IsText l → IsText b → All IsText (l ++ b ∷ [])
All-snoc [] b t tb = (tb, tt)
All-snoc (a ∷ l) b t tb = (t.0, All-snoc l b t.1 tb)

-- Every line of the text, behind `n` bytes of its first one, fits the buffer with its end.
unfoldable pub lines_fit : ℕ → List ℕ → Bool
lines_fit n [] = ltb n max_shell_line_length
lines_fit n (ch ∷ rest) =
    if is_line_end ch
    then ltb (n + 1) max_shell_line_length && lines_fit 0 rest
    else ltb n max_shell_line_length && lines_fit (suc n) rest

-- The text as the CPC gets it.
unfoldable pub shown : List ℕ → List ℕ
shown [] = []
shown (ch ∷ rest) = (if is_line_end ch then 13 else ch) ∷ shown rest

length-shown : (chars : List ℕ) → length (shown chars) ≡ length chars
unfolding shown
length-shown [] = refl
length-shown (ch ∷ rest) = ap suc (length-shown rest)

add_lines-Holds :
    (chars line : List ℕ) (q : Queue) (l : List ℕ)
    → All IsText chars
    → All IsText line
    → lines_fit (length line) chars ≡ true
    → Holds q l
    → length l + (length line + length chars) < queue_size
    → (q' : Queue) × (add_lines q line chars ≡ some q') × Holds q' (l ++ (line ++ shown chars))
unfolding add_lines lines_fit shown
add_lines-Holds [] [] q l t tl fits h room = (q, refl, rw append-nil h)
add_lines-Holds [] (b ∷ line) q l t tl fits h room =
    let whole = c_string-text (b ∷ line) tl in
    let some_bytes : ltb 0 (length (b ∷ line)) ≡ true = ground arith in
    (
      add_data_to_packet q (b ∷ line),
      rw (some_bytes, fits, whole) refl,
      rw append-nil (Holds-add_data q l (b ∷ line) h (omega arith)),
    )
add_lines-Holds (ch ∷ rest) line q l t tl fits h room = elim (Bool-cases (is_line_end ch)) [
  | inl e ↦
      let ended : List ℕ = line ++ 13 ∷ [] in
      let small : ltb (length line + 1) max_shell_line_length ≡ true = ground arith in
      let later : lines_fit 0 rest ≡ true = ground arith in
      let whole = c_string-text ended (All-snoc line 13 tl refl) in
      let long = length-append line (13 ∷ []) in
      let sent = Holds-add_data q l ended h (omega arith) in
      let (q', called, holds) =
        add_lines-Holds rest [] (add_data_to_packet q ended) (l ++ ended) t.1 tt later sent
          (omega (arith, length-append l ended)) in
      (
        q',
        rw (e, small, whole) called,
        rw e (
            subst (Holds q')
              (append_assoc l ended (shown rest)
                ∙ ap (λ k. l ++ k) (append_assoc line (13 ∷ []) (shown rest)))
              holds),
      )
  | inr e ↦
      let small : ltb (length line) max_shell_line_length ≡ true = ground arith in
      let more : List ℕ = line ++ ch ∷ [] in
      let long = length-append line (ch ∷ []) in
      let size : length more ≡ suc (length line) = omega arith in
      let later : lines_fit (length more) rest ≡ true = rw size (ground arith) in
      let (q', called, holds) =
        add_lines-Holds rest more q l t.1 (All-snoc line ch tl t.0) later h (omega arith) in
      (
        q',
        rw (e, small) called,
        rw e (subst (Holds q') (ap (λ k. l ++ k) (append_assoc line (ch ∷ []) (shown rest))) holds),
      )
]

-- The result of SHELLEXEC: where no byte of the file is 0, no line of it is longer than 254 bytes,
-- and there is room, the packet has the header, the file with every end of line as a carriage
-- return, and a newline, and its PACKET_SIZE is that of what it has.
pub write_result-frame :
    (chars : List ℕ) (q : Queue) (l : List ℕ)
    → All IsText chars
    → lines_fit 0 chars ≡ true
    → Holds q l
    → length l + (length chars + 34) < queue_size
    → length chars ≤ 32767
    → (q' : Queue) × (write_result q (length result_header_text + length chars + 1) chars ≡ some q')
      × Holds q' (l ++ frame 1 (result_header_text ++ shown chars ++ codes "\n"))
unfolding write_result
write_result-frame chars q l t fits h room small =
    let body : List ℕ = result_header_text ++ shown chars ++ codes "\n" in
    let n = length body in
    let size : length result_header_text + length chars + 1 ≡ n = omega (
      arith,
      length-append (result_header_text ++ shown chars) (codes "\n"),
      length-append result_header_text (shown chars),
      length-shown chars,
    ) in
    let q1 = (start_build_data_packet q n PacketType.text_command).1 in
    let top : List ℕ = l ++ header 1 n in
    let at = length-append l (header 1 n) in
    let h1 = Holds-start q l PacketType.text_command n h (omega arith) in
    let h2 = Holds-add_data q1 top result_header_text h1 (omega arith) in
    let (q3, called, h3) =
      add_lines-Holds chars [] (add_data_to_packet q1 result_header_text)
        (top ++ result_header_text) t tt fits h2
        (omega (arith, length-append top result_header_text)) in
    let h4 = Holds-add_data q3 (top ++ result_header_text ++ shown chars) (codes "\n") h3 (
      omega (
        arith,
        length-append (top ++ result_header_text) (shown chars),
        length-append top result_header_text,
        length-shown chars,
      )) in
    let h5 =
      subst (Holds (add_data_to_packet q3 (codes "\n")))
        (append_assoc (top ++ result_header_text) (shown chars) (codes "\n")
          ∙ (append_assoc top result_header_text (shown chars ++ codes "\n")
              ∙ ap (λ k. top ++ k)
                  (sym (append_assoc result_header_text (shown chars) (codes "\n")))))
        h4 in
    (
      finish_build_data_packet_and_send (add_data_to_packet q3 (codes "\n")),
      rw (size, called) refl,
      Holds-finish (add_data_to_packet q3 (codes "\n")) l PacketType.text_command body h5
          (omega arith),
    )

long_line_from :
    (chars line : List ℕ) (q : Queue)
    → All (λ ch. is_line_end ch ≡ false) chars
    → 256 ≤ length line + length chars
    → length line ≤ 256
    → add_lines q line chars ≡ none
unfolding add_lines
long_line_from [] line q t long below = ground arith
long_line_from (ch ∷ rest) line q t long below =
    elim (Bool-cases (ltb (length line) max_shell_line_length)) [
      | inr e ↦ rw (t.0, e) refl
      | inl e ↦
          let one = length-append line (ch ∷ []) in
          rw (t.0, e) (long_line_from rest (line ++ ch ∷ []) q t.1 (omega arith) (ground arith))
    ]

-- A first line of 256 bytes or more is written past the end of `result_buffer`.
pub write_result_escapes :
    (chars : List ℕ) (q : Queue) (size : ℕ)
    → All (λ ch. is_line_end ch ≡ false) chars
    → 256 ≤ length chars
    → write_result q size chars ≡ none
unfolding write_result
write_result_escapes chars q size t long =
    rw
      (long_line_from chars []
        (add_data_to_packet (start_build_data_packet q size PacketType.text_command).1
          result_header_text)
        t (omega arith) (omega arith))
      refl

-- A file of 100 bytes or more without a newline is written past the end of `file_buffer`.
pub wifi_line_escapes :
    (chars line : List ℕ)
    → All (λ ch. (ch == 10) ≡ false) chars
    → 100 ≤ length line + length chars
    → wifi_line line chars ≡ none
unfolding wifi_line
wifi_line_escapes [] line t long = ground arith
wifi_line_escapes (ch ∷ rest) line t long =
    elim (Bool-cases (ltb (length line) max_wifi_line_length)) [
      | inr e ↦ rw (t.0, e) refl
      | inl e ↦
          let one = length-append line (ch ∷ []) in
          rw (t.0, e) (wifi_line_escapes rest (line ++ ch ∷ []) t.1 (omega arith))
    ]
