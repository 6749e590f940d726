-- ===== src/MainLoop/Locks.antt =====
-- mcp_pi.c: the lock of the send mode, over passes of the loop.
use cpc_cplink.Prelude.{
  ℕ, zero, suc, ◌-◌, ◌<◌, ◌≡◌, inl, inr, refl, ap, ◌∙◌, Bool, true, false, ◌&&◌, Option, none, some,
  List, [], ◌∷◌, ltb, leb, Bool-cases, arith,
}
use cpc_cplink.Prelude.Int.{pos, is_pos}
use cpc_cplink.Queue.{number_bytes_in_queue_to_read, number_free_bytes_in_queue_to_write_too}
use cpc_cplink.Queue.Valid.{IsValid, used, increment_read-IsValid, used-increment_read}
use cpc_cplink.Command.{Handler}
use cpc_cplink.Server.{Server}
use cpc_cplink.MainLoop.{
  Loop, Outside, passes, count_down, read_in, write_out, exchange, unlocked, max_command_wait,
  max_tick_wait, packet_turn, tick_turn, pass,
}

-- The send mode counts more bytes than the out_queue has.
pub record Overcounted (s : Server) : Type 0 where
  pub valid : IsValid s.out_queue
  pub mode : ℕ
  pub counted : s.binary_data_send_mode ≡ pos mode
  pub too_many : used s.out_queue < mode

-- The parts of the state that only a command can change.
pub record Untouched (s s' : Server) : Type 0 where
  pub same_states : s'.command_states ≡ s.command_states
  pub same_memstore : s'.memstore ≡ s.memstore
  pub same_tron : s'.tron ≡ s.tron

Untouched-refl : (s : Server) → Untouched s s
Untouched-refl s = record { same_states = refl; same_memstore = refl; same_tron = refl }

locked : (s : Server) → Overcounted s → unlocked s ≡ false
locked s o =
    let e : is_pos 0 s.binary_data_send_mode ≡ false =
      rw o.counted (let m = o.too_many in ground arith) in
    ground arith

read_in-keeps :
    (dor : Option ℕ) (s : Server)
    → Overcounted s
    → Overcounted (read_in dor s) × Untouched s (read_in dor s)
unfolding read_in
read_in-keeps none s o = (o, Untouched-refl s)
read_in-keeps (some b) s o =
    elim (Bool-cases (ltb 0 (number_free_bytes_in_queue_to_write_too s.in_queue))) [
      | inl e ↦ rw e (
        record { valid = o.valid; mode = o.mode; counted = o.counted; too_many = o.too_many },
        record { same_states = refl; same_memstore = refl; same_tron = refl },
      )
      | inr e ↦ rw e (o, Untouched-refl s)
    ]

count_down_pos : (m : ℕ) → 0 < m → count_down (pos m) ≡ pos (m - 1)
unfolding count_down
count_down_pos zero h = absurd (omega arith)
count_down_pos (suc m) h = ap pos (omega arith)

write_out-keeps :
    (dir : Bool) (s : Server)
    → Overcounted s
    → Overcounted (write_out dir s).1 × Untouched s (write_out dir s).1
unfolding write_out
write_out-keeps dir s o =
    elim (Bool-cases (ltb 0 (number_bytes_in_queue_to_read s.out_queue) && dir)) [
      | inl e ↦
          let some_left : 0 < used s.out_queue = ground arith in
          rw e (
            record {
              valid = increment_read-IsValid s.out_queue 1 o.valid;
              mode = o.mode - 1;
              counted = ap count_down o.counted ∙ count_down_pos o.mode (omega (arith, o.too_many));
              too_many =
                  omega
                    (arith, o.too_many, used-increment_read s.out_queue 1 o.valid (omega arith));
            },
            record { same_states = refl; same_memstore = refl; same_tron = refl },
          )
      | inr e ↦ rw e (o, Untouched-refl s)
    ]

and_false : (b c : Bool) → c ≡ false → (b && c) ≡ false
and_false true c e = e
and_false false c e = refl

Untouched-trans : (s t u : Server) → Untouched s t → Untouched t u → Untouched s u
Untouched-trans s t u a b = record {
  same_states = b.same_states ∙ a.same_states;
  same_memstore = b.same_memstore ∙ a.same_memstore;
  same_tron = b.same_tron ∙ a.same_tron;
}

module _ (run : Handler → ℕ → Server → Option (Bool × Server)) where
  packet_turn_locked :
      (time : ℕ) (l : Loop)
      → unlocked l.server ≡ false
      → packet_turn run time l
        ≡ some (record l { packet_check_counter = suc l.packet_check_counter })
  unfolding packet_turn
  packet_turn_locked time l shut =
      let e = and_false (leb max_command_wait l.packet_check_counter) (unlocked l.server) shut in
      rw e refl

  tick_turn_locked :
      (now later : ℕ) (l : Loop)
      → unlocked l.server ≡ false
      → tick_turn run now later l
        ≡ some (record l { tick_check_counter = suc l.tick_check_counter })
  unfolding tick_turn
  tick_turn_locked now later l shut =
      let e = and_false (leb max_tick_wait l.tick_check_counter) (unlocked l.server) shut in
      rw e refl

  pass_locked :
      (o : Outside) (l : Loop)
      → Overcounted l.server
      → (out : Option ℕ) × (l' : Loop) × (pass run o l ≡ some (out, l'))
        × Overcounted l'.server
        × Untouched l.server l'.server
  unfolding pass
  pass_locked o l c =
      let r = read_in-keeps o.dor l.server c in
      let w = write_out-keeps o.dir (read_in o.dor l.server) r.0 in
      let s = (exchange o.dor o.dir l.server).1 in
      let l1 : Loop = record l { server = s } in
      let l2 : Loop = record l1 { packet_check_counter = suc l1.packet_check_counter } in
      let shut = locked s w.0 in
      (
        (exchange o.dor o.dir l.server).0,
        record l2 { tick_check_counter = suc l2.tick_check_counter },
        rw (packet_turn_locked o.time l1 shut, tick_turn_locked o.current_exec_time o.later l2 shut)
            refl,
        w.0,
        Untouched-trans l.server (read_in o.dor l.server) s r.1 w.1,
      )

  -- Once the send mode counts more bytes than the valid out_queue has, no pass ever processes a packet or
  -- ticks a command again, whatever the client sends and takes: the stored commands, the allocations
  -- and the flag stay as they are, and the mode stays too high.
  pub locked_for_ever :
      (os : List Outside) (l : Loop)
      → Overcounted l.server
      → (outs : List (Option ℕ)) × (l' : Loop) × (passes run os l ≡ some (outs, l'))
        × Overcounted l'.server
        × Untouched l.server l'.server
  unfolding passes
  locked_for_ever [] l c = ([], l, refl, c, Untouched-refl l.server)
  locked_for_ever (o ∷ os) l c =
      let (out, l1, e, c1, u1) = pass_locked o l c in
      let (outs, l2, e2, c2, u2) = locked_for_ever os l1 c1 in
      (out ∷ outs, l2, rw (e, e2) refl, c2, Untouched-trans l.server l1.server l2.server u1 u2)
