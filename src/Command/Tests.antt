-- ===== src/Command/Tests.antt =====
-- Commands on small queues.
use cpc_cplink.Prelude.{
  ℕ, zero, suc, ◌≡◌, inl, refl, true, false, not, if◌then◌else◌, some, List, [], ◌∷◌, ◌++◌, All,
  replicate, arith,
}
use cpc_cplink.Queue.{
  Queue, write_data_to_queue, number_bytes_in_queue_to_read, store_bytes, store_byte,
  number_free_bytes_in_queue_to_write_too, increment_store_next_index, store_to_current_write_byte,
}
use cpc_cplink.Queue.Holds.{Holds}
use cpc_cplink.Queue.Sample.{drained, drained-Holds, holding_at, holding-Holds}
use cpc_cplink.Packet.{add_int_to_packet, rear_delimiter}
use cpc_cplink.Packet.Frame.{frame}
use cpc_cplink.Command.{get_command_name_from_id, get_command_id_from_string}
use cpc_cplink.Command.Id.{ping}
use cpc_cplink.Command.Table.{name_round_trip}
use cpc_cplink.Command.Params.{
  get_command_next_32bit_param_bin, inside, below, get_command_text, get_command_next_param_text,
  get_all_command_params_text,
}
use cpc_cplink.Command.Binary.{Reads, add_int-next_32bit}
use cpc_cplink.Command.Text.{IsNameByte, get_command_text-name}
use cpc_cplink.Command.LongName.{get_command_text_escapes}
use cpc_cplink.Command.TextParam.{
  terminator, get_command_next_param_text_lem, get_all_command_params_text_lem,
}

-- 'A' is a byte of a name, and so is every byte of a name made of it.
IsNameByte-a : IsNameByte 65
IsNameByte-a = ((λ e. absurd (omega arith)), (λ e. absurd (omega arith)))

IsNameByte-replicate : (n : ℕ) → All IsNameByte (replicate n 65)
IsNameByte-replicate zero = tt
IsNameByte-replicate (suc n) = (IsNameByte-a, IsNameByte-replicate n)

name_round_trip_example :
    (text : List ℕ) × (get_command_name_from_id ping ≡ some text)
    × (get_command_id_from_string text ≡ ping)
name_round_trip_example = name_round_trip ping (omega arith)

add_int-next_32bit_example :
    Reads
      (get_command_next_32bit_param_bin (add_int_to_packet (drained 131068) 305419896))
      305419896
      []
add_int-next_32bit_example =
    add_int-next_32bit (drained 131068) 305419896 (drained-Holds 131068 (omega arith)) (omega arith)

-- "AAA A\n"
abbrev text_packet : List ℕ
text_packet = frame 1 (65 ∷ replicate 2 65 ++ 32 ∷ 65 ∷ 10 ∷ []) ++ []

get_command_text_example :
    (q' : Queue) × (get_command_text (holding_at 131066 text_packet)
      ≡ (true, 65 ∷ replicate 2 65, inside q'))
    × Holds q' ((65 ∷ 10 ∷ []) ++ (rear_delimiter ++ []))
get_command_text_example =
    get_command_text-name (holding_at 131066 text_packet) 1 65 (replicate 2 65) 32 (65 ∷ 10 ∷ []) []
      IsNameByte-a (IsNameByte-replicate 2) (inl refl) (omega arith) (omega arith)
      (holding-Holds 131066 text_packet (omega arith) (omega arith))

abbrev bare_packet : List ℕ
bare_packet = frame 1 (65 ∷ replicate 28 65) ++ []

bare_packet_read_index : (holding_at 131034 bare_packet).read_next_byte ≡ 131034
unfolding write_data_to_queue number_bytes_in_queue_to_read number_free_bytes_in_queue_to_write_too
    store_bytes store_byte increment_store_next_index store_to_current_write_byte
bare_packet_read_index = refl

escapes_example :
    (q' : Queue) × (get_command_text (holding_at 131034 bare_packet)
      ≡ (false, 65 ∷ replicate 28 65 ++ (b'-' ∷ []), below q' 0))
escapes_example =
    get_command_text_escapes (holding_at 131034 bare_packet) 1 65 (replicate 28 65) []
      (IsNameByte-replicate 29) refl bare_packet_read_index
      (holding-Holds 131034 bare_packet (omega arith) (omega arith))

-- A parameter "AAAA" that is not the last one.
abbrev param_bytes : List ℕ
param_bytes = replicate 4 65 ++ terminator false ∷ 66 ∷ []

next_param_text_example :
    let (found, param, q') = get_command_next_param_text (holding_at 131068 param_bytes) 8 false in
    (found ≡ (if false then false else not false))
    × (param ≡ (if found then replicate 4 65 else []))
    × Holds q' (if found then 66 ∷ [] else terminator false ∷ 66 ∷ [])
next_param_text_example =
    get_command_next_param_text_lem (replicate 4 65) false (66 ∷ []) (holding_at 131068 param_bytes)
      8 false (IsNameByte-replicate 4) (omega arith)
      (holding-Holds 131068 param_bytes (omega arith) (omega arith))

abbrev all_params : List ℕ
all_params = (65 ∷ 32 ∷ 66 ∷ []) ++ 10 ∷ 45 ∷ []

all_params_example :
    let (found, params, q') = get_all_command_params_text (holding_at 131068 all_params) 8 in
    (found ≡ true) × (params ≡ 65 ∷ 32 ∷ 66 ∷ []) × Holds q' (45 ∷ [])
all_params_example =
    get_all_command_params_text_lem (65 ∷ 32 ∷ 66 ∷ []) (45 ∷ []) (holding_at 131068 all_params) 8
      (
        (λ e. absurd (omega arith)),
        ((λ e. absurd (omega arith)), ((λ e. absurd (omega arith)), tt)),
      )
      (omega arith) (holding-Holds 131068 all_params (omega arith) (omega arith))
