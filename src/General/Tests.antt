-- ===== src/General/Tests.antt =====
-- Answers to small requests.
use cpc_cplink.Prelude.{
  ℕ, zero, suc, none, ◌+◌, Option, just, get_elem?, take, refl, replicate, All, ◌==◌, ◌≡◌, Bool,
  true, false, some, List, [], ◌∷◌, ◌++◌, arith,
}
use cpc_cplink.Prelude.Int.{pos}
use cpc_cplink.Prelude.Text.{codes}
use cpc_cplink.Queue.{number_bytes_in_queue_to_read}
use cpc_cplink.Queue.Holds.{Holds}
use cpc_cplink.Queue.Sample.{drained, drained-Holds, holding_at, holding-Holds}
use cpc_cplink.Packet.Frame.{frame}
use cpc_cplink.Memstore.{memstore_init}
use cpc_cplink.Command.{Handler}
use cpc_cplink.Command.Id.{ping}
use cpc_cplink.Server.{Server, command_processor_init}
use cpc_cplink.MainLoop.{check_for_packet}
use cpc_cplink.Memstore.Keeps.{memstore_init-StoreOk}
use cpc_cplink.Memstore.Sample.{zeroing}
use cpc_cplink.Server.Order.{ServerOk}
use cpc_cplink.Memory.Run.{run_memory}
use cpc_cplink.MainLoop.{Loop, Outside, pass, read_in, write_out, packet_turn, tick_turn, exchange}
use cpc_cplink.MainLoop.Reach.{start, step}
use cpc_cplink.General.Keeps.{server_stays_in_order}
use cpc_cplink.General.System.{Os, result_header_text, read_chars, command_shellexec, wifi_line}
use cpc_cplink.Command.Params.{newline}
use cpc_cplink.General.ShellExec.{ShellRuns, command_shellexec_sends}
use cpc_cplink.General.Shell.{lines_fit, shown, wifi_line_escapes}
use cpc_cplink.General.{command_reset, run_handler}
use cpc_cplink.General.Answers.{command_reset_lem, ping_answered}

abbrev request : List ℕ
request = frame 2 (ping ∷ []) ++ (43 ∷ [])

abbrev asked : Server
asked = record {
  in_queue = holding_at 131066 request;
  out_queue = drained 131060;
  memstore = memstore_init;
  command_states = command_processor_init;
  tron = false;
  binary_data_receive_mode = pos 0;
  binary_data_send_mode = pos 0;
}

abbrev idle : Handler → ℕ → Server → Option (Bool × Server)
idle h n s = some (true, s)

ping_answered_example :
    (s' : Server) × (check_for_packet (run_handler idle) 5 asked ≡ some s')
    × Holds s'.in_queue (43 ∷ [])
    × Holds s'.out_queue ([] ++ frame 1 (codes "PONG!\n"))
ping_answered_example =
    ping_answered idle 5 asked [] (43 ∷ [])
      (holding-Holds 131066 request (omega arith) (omega arith))
      (drained-Holds 131060 (omega arith)) (omega arith)

reset_example :
    let (done, s') = command_reset asked in
    (done ≡ true)
    × Holds s'.in_queue []
    × Holds s'.out_queue (frame 1 (codes "OK\n"))
    × (s'.memstore ≡ memstore_init)
    × (s'.command_states ≡ command_processor_init)
reset_example = command_reset_lem asked

abbrev idle_loop : Loop
idle_loop = record { server = asked; packet_check_counter = 0; tick_check_counter = 0 }

abbrev quiet : Outside
quiet = record { dor = none; dir = false; time = 5; current_exec_time = 6; later = 7 }

abbrev later_loop : Loop
later_loop = record { server = asked; packet_check_counter = 1; tick_check_counter = 1 }

no_exchange : exchange none false asked ≡ (none, asked)
unfolding read_in write_out number_bytes_in_queue_to_read
no_exchange = ground arith

quiet-pass : pass (run_handler (run_memory zeroing idle)) quiet idle_loop ≡ some (none, later_loop)
unfolding pass packet_turn tick_turn
quiet-pass = rw no_exchange refl

asked-Ok : ServerOk asked
asked-Ok = record {
  in_ok = (holding-Holds 131066 request (omega arith) (omega arith)).valid;
  out_ok = (drained-Holds 131060 (omega arith)).valid;
  store_ok = memstore_init-StoreOk;
}

server_stays_in_order_example : ServerOk asked
server_stays_in_order_example =
    server_stays_in_order zeroing idle idle_loop later_loop (λ h tick s ok. just ok) asked-Ok
      (step quiet none start quiet-pass)

abbrev listing : List ℕ
listing = codes "a\nbc"

listing_fits : lines_fit 0 listing ≡ true
unfolding lines_fit
listing_fits = refl

-- A file with the listing under every name; the state is the place of the next byte.
abbrev char_at : List ℕ → ℕ → ℕ
char_at l i = elim (get_elem? l i) [ none ↦ 255 | some ch ↦ ch ]

abbrev listing_os : Os ℕ
listing_os = record {
  io = record {
    fopen_read = λ name w. (some 3, w);
    fopen_write = λ name w. (none, w);
    seek_end = λ file w. (true, 4);
    seek_start = λ file w. (true, 0);
    ftell = λ file w. (pos w, w);
    fread = λ count file w. (take count listing, w);
    fwrite = λ bytes file w. (0, w);
    fclose = λ file w. w;
  };
  system = λ command w. (false, w);
  fgetc = λ file w. (char_at listing w, w + 1);
}

listing_runs : ShellRuns ℕ listing_os (codes "ls") listing 3 9 4
unfolding read_chars
listing_runs = record {
  w1 = 9;
  w2 = 9;
  w3 = 4;
  w4 = 4;
  runs = refl;
  opens = refl;
  ends = refl;
  tells = refl;
  reads = refl;
}

abbrev shell_request : List ℕ
shell_request = codes "ls" ++ newline ∷ 45 ∷ []

abbrev shell_asked : Server
shell_asked = record asked { in_queue = holding_at 131066 shell_request }

command_shellexec_example :
    (s' : Server) × (command_shellexec listing_os shell_asked 9 ≡ some (true, s', 4))
    × Holds s'.in_queue (45 ∷ [])
    × Holds s'.out_queue ([] ++ frame 1 (result_header_text ++ shown listing ++ codes "\n"))
    × (s'.memstore ≡ memstore_init)
command_shellexec_example =
    command_shellexec_sends listing_os listing [] 3 (refl, (refl, (refl, (refl, tt)))) listing_fits
      (omega arith) (omega arith) shell_asked (codes "ls") (45 ∷ []) 9 4 listing_runs
      (holding-Holds 131066 shell_request (omega arith) (omega arith))
      (drained-Holds 131060 (omega arith))
      ((λ e. absurd (omega arith)), ((λ e. absurd (omega arith)), tt))
      ((λ e. absurd (omega arith)), ((λ e. absurd (omega arith)), tt)) (omega arith)

letters_only : (n : ℕ) → All (λ ch. (ch == 10) ≡ false) (replicate n 65)
letters_only zero = tt
letters_only (suc n) = (refl, letters_only n)

wifi_line_escapes_example : wifi_line [] (replicate 100 65) ≡ none
wifi_line_escapes_example = wifi_line_escapes (replicate 100 65) [] (letters_only 100) (omega arith)
