-- ===== src/Help/Frame.antt =====
-- command.c: the packets that the help texts are sent in.
use cpc_cplink.Prelude.{
  ℕ, suc, ◌+◌, ◌%◌, ◌≤◌, ◌<◌, ◌≡◌, refl, subst, ◌∙◌, Bool, true, false, List, [], ◌∷◌, ◌++◌,
  append-nil, append_assoc, length, length-append, drop, ◌==◌, if◌then◌else◌, arith,
}
use cpc_cplink.Prelude.Text.{codes}
use cpc_cplink.Queue.{Queue, queue_size}
use cpc_cplink.Queue.Holds.{Holds, Holds-write, Holds-space}
use cpc_cplink.Packet.{PacketType, packet_overhead, start_build_data_packet, add_data_to_packet}
use cpc_cplink.Packet.Frame.{header, frame}
use cpc_cplink.Packet.Write.{write_data_to_packet-frame}
use cpc_cplink.Command.{CommandDef, command_defs}
use cpc_cplink.Memory.Replies.{Holds-start, Holds-finish}
use cpc_cplink.Help.{
  size_of_string_array, add_texts, write_out_help_text_array, joined, write_help_text,
}
use cpc_cplink.Help.Command.{
  add_names, help_size, names_size, command_help_help, response1_text, response2_text,
  response3_text, response4_text, response5_text,
}

-- The function sends the text as one TextCommand packet where 1024 bytes are free, and is complete;
-- the packet has at most these 1024 bytes.
pub record Sends (f : Queue → Bool × Queue) (text : List ℕ) : Type 0 where
  pub fits : length text + 9 ≤ 1024
  pub sends :
      (q : Queue) (l : List ℕ)
      → Holds q l
      → length l + 1024 < queue_size
      → ((f q).0 ≡ true) × Holds (f q).1 (l ++ frame 1 text)

size_of_string_array-joined :
    (texts : List (List ℕ)) → size_of_string_array texts ≡ length (joined texts)
unfolding size_of_string_array
size_of_string_array-joined [] = refl
size_of_string_array-joined (t ∷ ts) =
    omega (arith, size_of_string_array-joined ts, length-append t (joined ts))

pub Holds-add_data :
    (q : Queue) (l text : List ℕ)
    → Holds q l
    → length l + length text < queue_size
    → Holds (add_data_to_packet q text) (l ++ text)
unfolding add_data_to_packet
Holds-add_data q l text h fits = (Holds-write q l text h fits).1

Holds-add_texts :
    (texts : List (List ℕ)) (q : Queue) (l : List ℕ)
    → Holds q l
    → length l + length (joined texts) < queue_size
    → Holds (add_texts q texts) (l ++ joined texts)
unfolding add_texts
Holds-add_texts [] q l h fits = rw append-nil h
Holds-add_texts (t ∷ ts) q l h fits =
    let long = length-append t (joined ts) in
    subst (Holds (add_texts (add_data_to_packet q t) ts)) (append_assoc l t (joined ts)) (
      Holds-add_texts ts (add_data_to_packet q t) (l ++ t) (Holds-add_data q l t h (omega arith))
        (omega (arith, length-append l t)))

pub start_true :
    (q : Queue) (l : List ℕ) (n : ℕ)
    → Holds q l
    → length l + (n + 9) < queue_size
    → (start_build_data_packet q n PacketType.text_command).0 ≡ true
unfolding start_build_data_packet
start_true q l n h fits = rw (Holds-space q l (n + packet_overhead) h fits) refl

pub write_out-Sends :
    (texts : List (List ℕ))
    → length (joined texts) + 9 ≤ 1024
    → Sends (λ q. write_out_help_text_array q texts) (joined texts)
unfolding write_out_help_text_array
write_out-Sends texts small = record { fits = small; sends = sent }
  where
    sent :
        (q : Queue) (l : List ℕ)
        → Holds q l
        → length l + 1024 < queue_size
        → ((write_out_help_text_array q texts).0 ≡ true)
          × Holds (write_out_help_text_array q texts).1 (l ++ frame 1 (joined texts))
    sent q l h room =
        let n = length (joined texts) in
        let size = size_of_string_array-joined texts in
        let begun = (start_build_data_packet q n PacketType.text_command).1 in
        let started = Holds-start q l PacketType.text_command n h (omega arith) in
        let full =
          Holds-add_texts texts begun (l ++ header 1 n) started
            (omega (arith, length-append l (header 1 n))) in
        rw (size, start_true q l n h (omega arith))
          (
            refl,
            Holds-finish (add_texts begun texts) l PacketType.text_command (joined texts) full
                (omega arith),
          )

pub write_help-Sends :
    (texts : List (List ℕ))
    → length (joined texts) + 9 ≤ 1024
    → Sends (λ q. write_help_text q texts) (joined texts)
unfolding write_help_text
write_help-Sends texts small = record {
  fits = small;
  sends = λ q l h room. (
    refl,
    (write_data_to_packet-frame q l (joined texts) PacketType.text_command h (omega arith)).1,
  );
}

-- The names of commands as HELP prints them, with their numbers.
abbrev names_text : ℕ → List CommandDef → List ℕ
names_text index [] = []
names_text index (d ∷ defs) =
    d.command_text
    ++ (codes " " ++ ((if index % 7 == 0 then codes "\r" else []) ++ names_text (suc index) defs))

-- A text that is added under a condition.
Holds-add_if :
    (b : Bool) (q : Queue) (l text : List ℕ)
    → Holds q l
    → length l + length (if b then text else []) < queue_size
    → Holds (if b then add_data_to_packet q text else q) (l ++ (if b then text else []))
Holds-add_if true q l text h fits = Holds-add_data q l text h fits
Holds-add_if false q l text h fits = rw append-nil h

Holds-add_names :
    (defs : List CommandDef) (index : ℕ) (q : Queue) (l : List ℕ)
    → Holds q l
    → length l + length (names_text index defs) < queue_size
    → Holds (add_names index q defs) (l ++ names_text index defs)
unfolding add_names
Holds-add_names [] index q l h fits = rw append-nil h
Holds-add_names (d ∷ defs) index q l h fits =
    let name = d.command_text in
    let later = names_text (suc index) defs in
    let q1 = add_data_to_packet q name in
    let q2 = add_data_to_packet q1 (codes " ") in
    let last = index % 7 == 0 in
    let ends : List ℕ = if last then codes "\r" else [] in
    let q3 = if last then add_data_to_packet q2 (codes "\r") else q2 in
    let room : length l + (length name + (1 + (length ends + length later))) < queue_size =
      omega (arith, length-append name (codes " " ++ (ends ++ later)), length-append ends later) in
    let l1 = length-append l name in
    let l2 = length-append (l ++ name) (codes " ") in
    let h1 = Holds-add_data q l name h (omega arith) in
    let h2 = Holds-add_data q1 (l ++ name) (codes " ") h1 (omega arith) in
    let h3 = Holds-add_if last q2 (l ++ name ++ codes " ") (codes "\r") h2 (omega arith) in
    let h4 =
      Holds-add_names defs (suc index) q3 (l ++ name ++ codes " " ++ ends) h3
        (omega (arith, length-append (l ++ name ++ codes " ") ends)) in
    subst (Holds (add_names (suc index) q3 defs))
      (append_assoc (l ++ name ++ codes " ") ends later
        ∙ (append_assoc (l ++ name) (codes " ") (ends ++ later)
            ∙ append_assoc l name (codes " " ++ (ends ++ later))))
      h4

-- What HELP on HELP sends.
abbrev names : List ℕ
names = names_text 1 (drop 1 command_defs)

abbrev pub help_help_text : List ℕ
help_help_text =
    response1_text ++ response2_text ++ response3_text ++ names ++ response4_text ++ response5_text

-- A part more of a body that is being built behind a header.
grow :
    (q : Queue) (l body text : List ℕ)
    → Holds q (l ++ body)
    → length l + (length body + length text) < queue_size
    → Holds (add_data_to_packet q text) (l ++ (body ++ text))
grow q l body text h fits =
    subst (Holds (add_data_to_packet q text)) (append_assoc l body text)
      (Holds-add_data q (l ++ body) text h (omega (arith, length-append l body)))

help_size-length : (help_size ≡ length help_help_text) × (length help_help_text + 9 ≤ 1024)
unfolding help_size names_size command_defs
help_size-length = (refl, omega arith)

pub help_help-Sends : Sends command_help_help help_help_text
unfolding command_help_help
help_help-Sends = record { fits = help_size-length.1; sends = sent }
  where
    sent :
        (q : Queue) (l : List ℕ)
        → Holds q l
        → length l + 1024 < queue_size
        → ((command_help_help q).0 ≡ true)
          × Holds (command_help_help q).1 (l ++ frame 1 help_help_text)
    sent q l h room =
        let n = length help_help_text in
        let b3 : List ℕ = response1_text ++ response2_text ++ response3_text in
        let b4 : List ℕ = b3 ++ names in
        let b5 : List ℕ = b4 ++ response4_text in
        let a2 = length-append response1_text response2_text in
        let a3 = length-append (response1_text ++ response2_text) response3_text in
        let a4 = length-append b3 names in
        let a5 = length-append b4 response4_text in
        let a6 = length-append b5 response5_text in
        let small = help_size-length.1 in
        let top : List ℕ = l ++ header 1 n in
        let at = length-append l (header 1 n) in
        let q0 = (start_build_data_packet q n PacketType.text_command).1 in
        let h0 = Holds-start q l PacketType.text_command n h (omega arith) in
        let h1 = Holds-add_data q0 top response1_text h0 (omega arith) in
        let h2 = grow _ top response1_text response2_text h1 (omega arith) in
        let h3 = grow _ top (response1_text ++ response2_text) response3_text h2 (omega arith) in
        let h4 = subst (Holds (add_names 1 _ (drop 1 command_defs))) (append_assoc top b3 names) (
          Holds-add_names (drop 1 command_defs) 1 _ (top ++ b3) h3
            (omega (arith, length-append top b3))) in
        let h5 = grow _ top b4 response4_text h4 (omega arith) in
        let h6 = grow _ top b5 response5_text h5 (omega arith) in
        rw (help_size-length.0, start_true q l n h (omega arith))
          (refl, Holds-finish _ l PacketType.text_command help_help_text h6 (omega arith))
