-- ===== src/General/ShellExec.antt =====
-- command_general.c: SHELLEXEC, from the bytes of the request to the packet of the result.
use cpc_cplink.Prelude.{
  ℕ, ◌+◌, ◌≤◌, ◌<◌, ◌≡◌, ◌≢◌, refl, ap, ap₂, ◌∙◌, Bool, true, false, Option, some, List, ◌∷◌, ◌++◌,
  length, All, arith,
}
use cpc_cplink.Prelude.Int.{pos, pos_part, ◌+ℤ◌, ltb_ℤ}
use cpc_cplink.Prelude.Text.{codes, buffer_string-text}
use cpc_cplink.Queue.{Queue, queue_size}
use cpc_cplink.Queue.Holds.{Holds, Holds-space}
use cpc_cplink.Packet.Frame.{frame}
use cpc_cplink.Command.Params.{newline, get_all_command_params_text}
use cpc_cplink.Command.TextParam.{get_all_command_params_text_lem}
use cpc_cplink.Server.{Server}
use cpc_cplink.General.System.{
  Os, result_header_text, max_shell_line_length, read_chars, shell_sized, shell_opened, shell_run,
  command_shellexec,
}
use cpc_cplink.General.Shell.{IsText, lines_fit, shown, write_result-frame}

-- The shell runs the command, and its result file can be opened, has the length of `chars`, and gives
-- them.
pub record ShellRuns (F : Type 0) (os : Os F) (command chars : List ℕ) (file : ℕ) (w w6 : F)
    : Type 0 where
  pub w1 : F
  pub w2 : F
  pub w3 : F
  pub w4 : F
  pub runs :
      os.system (command ++ codes " > /tmp/shellexec.tmp 2> /tmp/shellexec.tmp") w ≡ (false, w1)
  pub opens : os.io.fopen_read (codes "/tmp/shellexec.tmp") w1 ≡ (some file, w2)
  pub ends : os.io.seek_end file w2 ≡ (true, w3)
  pub tells : os.io.ftell file w3 ≡ (pos (length chars), w4)
  pub reads : read_chars os (length chars) file (os.io.seek_start file w4).1 ≡ (chars, w6)

whole_size : (header n : ℕ) → pos_part (pos n +ℤ pos (header + 1)) ≡ header + n + 1
whole_size header n = ground arith

module _ {F : Type 0} (os : Os F) (chars l : List ℕ) (file : ℕ) (text : All IsText chars)
    (fits : lines_fit 0 chars ≡ true) (room : length l + (length chars + 34) < queue_size)
    (small : length chars ≤ 32767) where
  abbrev Sent : Server → Option (Bool × Server × F) → F → Type 0
  Sent s o w6 =
      (q : Queue) × (o ≡ some (true, record s { out_queue = q }, os.io.fclose file w6))
      × Holds q (l ++ frame 1 (result_header_text ++ shown chars ++ codes "\n"))

  shell_sized-Sent :
      (s : Server) (w4 w6 : F)
      → Holds s.out_queue l
      → read_chars os (length chars) file (os.io.seek_start file w4).1 ≡ (chars, w6)
      → Sent s (shell_sized os file (pos (length chars)) s w4) w6
  unfolding shell_sized
  shell_sized-Sent s w4 w6 out reads =
      let size = whole_size (length result_header_text) (length chars) in
      let short : ltb_ℤ (pos 32767) (pos (length chars)) ≡ false = ground arith in
      let space =
        Holds-space s.out_queue l (length result_header_text + length chars + 1) out
          (omega arith) in
      let (q, written, holds) = write_result-frame chars s.out_queue l text fits out room small in
      (q, rw (short, size, space, reads, written) refl, holds)

  -- SHELLEXEC with a shell command of less than 256 bytes that are no newline and no 0, which the
  -- shell runs, and whose result file can be read: where no byte of the file is 0, no line of it is
  -- longer than 254 bytes, it has no more than 32767 bytes, and there is room, SHELLEXEC is complete
  -- and leaves one packet behind what the out_queue held. It has the header, the file with every end
  -- of line as a carriage return, and a newline, and its PACKET_SIZE is that of what it has. The
  -- in_queue is left behind the request, the store is unchanged, and the file is closed.
  pub command_shellexec_sends :
      (s : Server) (command rest : List ℕ) (w w6 : F)
      → ShellRuns F os command chars file w w6
      → Holds s.in_queue (command ++ newline ∷ rest)
      → Holds s.out_queue l
      → All (λ b. b ≢ newline) command
      → All (λ b. b ≢ 0) command
      → length command < max_shell_line_length
      → (s' : Server) × (command_shellexec os s w ≡ some (true, s', os.io.fclose file w6))
        × Holds s'.in_queue rest
        × Holds s'.out_queue (l ++ frame 1 (result_header_text ++ shown chars ++ codes "\n"))
        × (s'.memstore ≡ s.memstore)
  unfolding command_shellexec shell_run shell_opened
  command_shellexec_sends s command rest w w6 r h out named clean short =
      let b =
        get_all_command_params_text_lem command rest s.in_queue max_shell_line_length named
          (omega arith) h in
      let q = (get_all_command_params_text s.in_queue max_shell_line_length).2 in
      let triple : get_all_command_params_text s.in_queue max_shell_line_length
          ≡ (true, command, q) =
        ap₂ (λ x y. (x, y, q)) b.0 b.1 in
      let string = buffer_string-text max_shell_line_length command clean short in
      let s1 : Server = record s { in_queue = q } in
      let (q', sent, holds) = shell_sized-Sent s1 r.w4 w6 out r.reads in
      (
        record s1 { out_queue = q' },
        ap (shell_run os s w) triple ∙ rw (string, r.runs, r.opens, r.ends, r.tells) sent,
        b.2,
        holds,
        refl,
      )
