-- ===== src/General/System.antt =====
-- sw/examples/mcp/rpi_c/command_general.c: the handlers that call the operating system, in the build
-- without BUILD_ON_PC. What they call is a parameter, in the record `Os` over what it keeps, `F`.
use cpc_cplink.Prelude.{
  ℕ, zero, suc, ◌+◌, Bool, true, false, ◌||◌, not, Option, none, some, List, [], ◌∷◌, ◌++◌, length,
  ltb, ◌==◌, if◌then◌else◌, ◌>>=◌,
}
use cpc_cplink.Prelude.Int.{ℤ, pos, pos_part, ltb_ℤ, ◌+ℤ◌}
use cpc_cplink.Prelude.Text.{codes, c_string, buffer_string}
use cpc_cplink.Queue.{Queue, is_queue_space_available}
use cpc_cplink.Packet.{
  PacketType, start_build_data_packet, add_data_to_packet, finish_build_data_packet_and_send,
}
use cpc_cplink.Command.{max_wifi_line_length}
use cpc_cplink.Command.Params.{get_all_command_params_text}
use cpc_cplink.Memstore.Files.{Stdio}
use cpc_cplink.Server.{Server}
use cpc_cplink.General.{respond}

-- `system` is true where it does not return 0. `fgetc` is the `char` that is kept of its result.
pub record Os (F : Type 0) : Type 0 where
  pub io : Stdio F
  pub system : List ℕ → F → Bool × F
  pub fgetc : ℕ → F → ℕ × F

abbrev pub max_shell_line_length : ℕ
max_shell_line_length = 256

-- The bytes of `file_buffer` behind the loop of WIFIIP, `none` where one more, or the 0 behind them,
-- would be written past the buffer.
unfoldable pub wifi_line : List ℕ → List ℕ → Option (List ℕ)
wifi_line line [] = if ltb (length line) max_wifi_line_length then some line else none
wifi_line line (ch ∷ rest) =
    if ch == 10
    then wifi_line line rest
    else if ltb (length line) max_wifi_line_length
    then wifi_line (line ++ ch ∷ []) rest
    else none

abbrev pub is_line_end : ℕ → Bool
is_line_end ch = ch == 10 || ch == 13

-- The loop of SHELLEXEC over the characters of the file, and what follows it: `line` is what
-- `result_buffer` holds. `none` is a write past that buffer.
unfoldable pub add_lines : Queue → List ℕ → List ℕ → Option Queue
add_lines queue line [] =
    if ltb 0 (length line)
    then (if ltb (length line) max_shell_line_length
        then some (add_data_to_packet queue (c_string line))
        else none)
    else some queue
add_lines queue line (ch ∷ rest) =
    if is_line_end ch
    then (if ltb (length line + 1) max_shell_line_length
        then add_lines (add_data_to_packet queue (c_string (line ++ 13 ∷ []))) [] rest
        else none)
    else if ltb (length line) max_shell_line_length
    then add_lines queue (line ++ ch ∷ []) rest
    else none

abbrev pub result_header_text : List ℕ
result_header_text = codes "SHELLEXEC Shell Result\r\r"

-- The packet of a result that there is space for.
unfoldable pub write_result : Queue → ℕ → List ℕ → Option Queue
write_result out_queue size chars =
    let q1 = (start_build_data_packet out_queue size PacketType.text_command).1 in
    do
      q2 ← add_lines (add_data_to_packet q1 result_header_text) [] chars
      some (finish_build_data_packet_and_send (add_data_to_packet q2 (codes "\n")))

module _ {F : Type 0} (os : Os F) where
  unfoldable pub command_shutdown : ℕ → Server → F → Bool × Server × F
  command_shutdown tick s w =
      if tick == 0
      then (false, respond (codes "SHUTDOWN IN 10 SECONDS\n") s, w)
      else (true, s, (os.system (codes "sudo /sbin/shutdown -h now") w).1)

  unfoldable pub command_reboot : ℕ → Server → F → Bool × Server × F
  command_reboot tick s w =
      if tick == 0
      then (false, respond (codes "Rebooting PI IN 3 SECONDS\n") s, w)
      else (true, s, (os.system (codes "sudo /sbin/reboot") w).1)

  -- What `count` calls of `fgetc` give.
  unfoldable pub read_chars : ℕ → ℕ → F → List ℕ × F
  read_chars zero file w = ([], w)
  read_chars (suc count) file w =
      let (ch, w1) = os.fgetc file w in let (rest, w2) = read_chars count file w1 in (ch ∷ rest, w2)

  -- WIFIIP with its file open.
  unfoldable pub wifi_opened : ℕ → Server → F → Option (Bool × Server × F)
  wifi_opened file s w =
      let (at_end, w1) = os.io.seek_end file w in
      if not at_end
      then some (true, respond (codes "WIFI Unable to retrieve result.\n") s, os.io.fclose file w1)
      else (let (file_size, w2) = os.io.ftell file w1 in
          let w3 = (os.io.seek_start file w2).1 in
          let (chars, w4) = read_chars (pos_part file_size) file w3 in
          do
            line ← wifi_line [] chars
            some (
              true,
              respond (codes "WIFI IP " ++ (c_string line ++ codes "\n")) s,
              os.io.fclose file w4,
            ))

  unfoldable pub wifi_found : Server → Option ℕ × F → Option (Bool × Server × F)
  wifi_found s (none, w) = some (true, respond (codes "WIFI Unable to retrieve result.\n") s, w)
  wifi_found s (some file, w) = wifi_opened file s w

  -- WIFI_DEVICE is "wlan0".
  unfoldable pub command_wifi_ip : Server → F → Option (Bool × Server × F)
  command_wifi_ip s w =
      let (failed, w1) =
        os.system
          (codes
            "(ifconfig wlan0 | awk '/inet /{print substr($2,0)}') > /tmp/wifi.tmp 2> /tmp/wifi.tmp")
          w in
      if failed
      then some (true, respond (codes "WIFI Unable to execute command.\n") s, w1)
      else wifi_found s (os.io.fopen_read (codes "/tmp/wifi.tmp") w1)

  -- SHELLEXEC with the length of its file; where it returns FALSE the file stays open.
  unfoldable pub shell_sized : ℕ → ℤ → Server → F → Option (Bool × Server × F)
  shell_sized file file_size s w =
      let size = pos_part (file_size +ℤ pos (length result_header_text + 1)) in
      if ltb_ℤ (pos 32767) file_size
      then some
          (true, respond (codes "SHELLEXEC Result to large to return.\n") s, os.io.fclose file w)
      else if not (is_queue_space_available s.out_queue size)
      then some (false, s, w)
      else (let w1 = (os.io.seek_start file w).1 in
          let (chars, w2) = read_chars (pos_part file_size) file w1 in
          do
            q ← write_result s.out_queue size chars
            some (true, record s { out_queue = q }, os.io.fclose file w2))

  unfoldable pub shell_opened : Server → Option ℕ × F → Option (Bool × Server × F)
  shell_opened s (none, w) =
      some (true, respond (codes "SHELLEXEC Unable to retrieve result.\n") s, w)
  shell_opened s (some file, w) =
      let (at_end, w1) = os.io.seek_end file w in
      if not at_end
      then some
          (true, respond (codes "SHELLEXEC Unable to retrieve result.\n") s, os.io.fclose file w1)
      else (let (file_size, w2) = os.io.ftell file w1 in shell_sized file file_size s w2)

  -- Behind the read of the shell command; without its NUL, `sprintf` reads past the end of `buffer`.
  unfoldable pub shell_run : Server → F → Bool × List ℕ × Queue → Option (Bool × Server × F)
  shell_run s w (false, buffer, q) = some (
    true,
    respond (codes "SHELLEXEC No shell command specified to run.\n") (record s { in_queue = q }),
    w,
  )
  shell_run s w (true, buffer, q) = do
    shell_command ← buffer_string max_shell_line_length buffer
    let (failed, w1) =
        os.system (shell_command ++ codes " > /tmp/shellexec.tmp 2> /tmp/shellexec.tmp") w
    let s1 = record s { in_queue = q }
    (if failed
        then some (true, respond (codes "SHELLEXEC Unable to execute command.\n") s1, w1)
        else shell_opened s1 (os.io.fopen_read (codes "/tmp/shellexec.tmp") w1))

  unfoldable pub command_shellexec : Server → F → Option (Bool × Server × F)
  command_shellexec s w =
      shell_run s w (get_all_command_params_text s.in_queue max_shell_line_length)
