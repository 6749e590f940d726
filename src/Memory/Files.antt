-- ===== src/Memory/Files.antt =====
-- command_memory.c: the handlers of PILALLOC and PISALLOC, over the C library's files.
use cpc_cplink.Prelude.{List, [], false, ◌&&◌, ℕ, Bool, true, Option, some, if◌then◌else◌, ◌>>=◌}
use cpc_cplink.Prelude.Int.{ℤ, pos, ltb_ℤ, to_int32, to_size}
use cpc_cplink.Prelude.Text.{buffer_string}
use cpc_cplink.Memstore.{is_allocated}
use cpc_cplink.Queue.{Queue}
use cpc_cplink.Packet.{
  PacketType, start_build_data_packet, add_byte_of_data_to_packet, add_int_to_packet,
  finish_build_data_packet_and_send,
}
use cpc_cplink.Command.Id.{load_alloc, save_alloc}
use cpc_cplink.Command.Params.{
  get_command_next_8bit_param_bin, get_command_next_32bit_param_bin, get_all_command_params_text,
}
use cpc_cplink.Memstore.Files.{Stdio, Loaded, memstore_load_data, memstore_save_data}
use cpc_cplink.Server.{Server}
use cpc_cplink.Memory.{reply_3}

abbrev pub max_path_size_text : ℕ
max_path_size_text = 512

-- The answer of PILALLOC; `file_size` is the bit pattern of the `int`.
unfoldable pub reply_7 : ℕ → ℕ → ℕ → Server → Server
reply_7 allocation_id file_size error s =
    let q1 = (start_build_data_packet s.out_queue 7 PacketType.binary_command).1 in
    let q2 = add_byte_of_data_to_packet q1 load_alloc in
    let q3 = add_byte_of_data_to_packet q2 allocation_id in
    let q4 = add_int_to_packet q3 file_size in
    let q5 = add_byte_of_data_to_packet q4 error in
    record s { out_queue = finish_build_data_packet_and_send q5 }

module _ {F : Type 0} where
  unfoldable pub loaded_reply : ℕ → Loaded F → Server → Server
  loaded_reply allocation_id r s =
      if r.read_file_ok
      then reply_7 allocation_id (to_size r.file_length) 0 s
      else if r.file_to_large
      then reply_7 0 0 3 s
      else reply_7 0 0 2 s

-- The string that `fopen` reads, where the call comes to it.
abbrev pub path_of : Bool → List ℕ → Option (List ℕ)
path_of opened file_name = if opened then buffer_string max_path_size_text file_name else some []

module _ {F : Type 0} (io : Stdio F) where
  -- Behind the read of the file's name. `none` is also a name without its NUL, which `fopen` reads past
  -- the end of its buffer.
  unfoldable pub load_named : ℕ → Server → F → Bool × List ℕ × Queue → Option (Bool × Server × F)
  load_named allocation_id s w (false, file_name, q) =
      some (true, reply_7 0 0 1 (record s { in_queue = q }), w)
  load_named allocation_id s w (true, file_name, q) = do
    path ← path_of (is_allocated s.memstore allocation_id) file_name
    (r, m) ← memstore_load_data io s.memstore allocation_id path w
    some (true, loaded_reply allocation_id r (record s { in_queue = q; memstore = m }), r.files)

  unfoldable pub command_load_alloc : Server → F → Option (Bool × Server × F)
  command_load_alloc s w =
      let (allocation_id, q1) = get_command_next_8bit_param_bin s.in_queue in
      load_named allocation_id s w (get_all_command_params_text q1 max_path_size_text)

  unfoldable pub save_named :
      ℕ → ℤ → Server → F → Bool × List ℕ × Queue → Option (Bool × Server × F)
  save_named allocation_id file_size s w (false, file_name, q) =
      some (true, reply_3 save_alloc 0 1 (record s { in_queue = q }), w)
  save_named allocation_id file_size s w (true, file_name, q) = do
    path ← path_of (is_allocated s.memstore allocation_id && ltb_ℤ (pos 0) file_size) file_name
    (saved, m, w') ← memstore_save_data io s.memstore allocation_id path file_size w
    let s' = record s { in_queue = q; memstore = m }
    (if saved
        then some (true, reply_3 save_alloc allocation_id 0 s', w')
        else some (true, reply_3 save_alloc 0 2 s', w'))

  unfoldable pub command_save_alloc : Server → F → Option (Bool × Server × F)
  command_save_alloc s w =
      let (allocation_id, q1) = get_command_next_8bit_param_bin s.in_queue in
      let (file_size, q2) = get_command_next_32bit_param_bin q1 in
      save_named allocation_id (to_int32 file_size) s w
        (get_all_command_params_text q2 max_path_size_text)
