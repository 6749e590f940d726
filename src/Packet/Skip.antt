-- ===== src/Packet/Skip.antt =====
-- packet.c: skipping to the start of a packet.
use Prim.Native.Nat.{◌+◌}
use cpc_cplink.Prelude.{
  ℕ, zero, suc, ◌≤◌, ◌≡◌, refl, ◌∙◌, Bool, true, false, List, [], ◌∷◌, ◌++◌, arith, length, take,
  leb, if◌then◌else◌, Bool-cases, le→leb, inl, inr, All, ◌≢◌,
}
use cpc_cplink.Queue.{Queue, increment_read_next_index}
use cpc_cplink.Queue.Holds.{Holds, Holds-used, Holds-increment, Holds-next_three}
use cpc_cplink.Packet.{is_three, skip_loop, queue_skip_to_next_packet}
use cpc_cplink.Packet.Frame.{skip_to_start}

-- The verdict and the queue of a step, against the verdict and the bytes of the list function.
pub record Agrees (out : Bool × Queue) (spec : Bool × List ℕ) : Type 0 where
  pub verdict : out.0 ≡ spec.0
  pub left : Holds out.1 spec.1

-- A round at bytes that are no "+++": a byte is dropped, and three more are looked at.
skip_round :
    (fuel : ℕ) (buffer l : List ℕ) (q : Queue)
    → is_three b'+' buffer ≡ false
    → Holds (increment_read_next_index q 1) l
    → skip_loop (suc fuel) buffer q ≡ (
        if leb 3 (length l)
        then skip_loop fuel (take 3 l) (increment_read_next_index q 1)
        else (false, increment_read_next_index q 1))
unfolding skip_loop
skip_round fuel buffer l q other h =
    ground (arith, Holds-next_three (increment_read_next_index q 1) l h)

skip_found :
    (fuel : ℕ) (buffer : List ℕ) (q : Queue)
    → is_three b'+' buffer ≡ true
    → skip_loop (suc fuel) buffer q ≡ (true, q)
unfolding skip_loop
skip_found fuel buffer q found = rw (found, skip_loop)

skip_to_start_found :
    (a b c : ℕ) (r : List ℕ)
    → is_three b'+' (a ∷ b ∷ c ∷ []) ≡ true
    → skip_to_start (a ∷ b ∷ c ∷ r) ≡ (true, a ∷ b ∷ c ∷ r)
unfolding skip_to_start
skip_to_start_found a b c r found = rw (found, skip_to_start)

skip_to_start_other :
    (a b c : ℕ) (r : List ℕ)
    → is_three b'+' (a ∷ b ∷ c ∷ []) ≡ false
    → skip_to_start (a ∷ b ∷ c ∷ r) ≡ skip_to_start (b ∷ c ∷ r)
unfolding skip_to_start
skip_to_start_other a b c r other = rw (other, skip_to_start)

-- A round that drops a byte agrees, if what follows it does.
skip_moved :
    (fuel : ℕ) (a b c : ℕ) (r : List ℕ) (q : Queue)
    → is_three b'+' (a ∷ b ∷ c ∷ []) ≡ false
    → Holds (increment_read_next_index q 1) (b ∷ c ∷ r)
    → Agrees
        (if leb 3 (length (b ∷ c ∷ r))
          then skip_loop fuel (take 3 (b ∷ c ∷ r)) (increment_read_next_index q 1)
          else (false, increment_read_next_index q 1))
        (skip_to_start (b ∷ c ∷ r))
    → Agrees (skip_loop (suc fuel) (a ∷ b ∷ c ∷ []) q) (skip_to_start (a ∷ b ∷ c ∷ r))
skip_moved fuel a b c r q other moved next =
    rw
      (
        skip_to_start_other a b c r other,
        skip_round fuel (a ∷ b ∷ c ∷ []) (b ∷ c ∷ r) q other moved,
      )
      next

-- On fuel for every byte the loop stops by itself: the result does not depend on the fuel.
pub skip_loop_lem :
    (fuel : ℕ) (a b c : ℕ) (r : List ℕ) (q : Queue)
    → Holds q (a ∷ b ∷ c ∷ r)
    → length r + 3 ≤ fuel
    → Agrees (skip_loop fuel (a ∷ b ∷ c ∷ []) q) (skip_to_start (a ∷ b ∷ c ∷ r))
skip_loop_lem zero a b c r q h enough = absurd (omega arith)
skip_loop_lem (suc fuel) a b c [] q h enough = elim (Bool-cases (is_three b'+' (a ∷ b ∷ c ∷ []))) [
  | inl found ↦
      rw (skip_found fuel (a ∷ b ∷ c ∷ []) q found, skip_to_start_found a b c [] found)
        (record { verdict = refl; left = h })
  | inr other ↦
      (let moved = Holds-increment q (a ∷ b ∷ c ∷ []) 1 h (omega arith) in
        skip_moved fuel a b c [] q other moved
          (unfold skip_to_start in record { verdict = refl; left = moved }))
]
skip_loop_lem (suc fuel) a b c (d ∷ r) q h enough =
    elim (Bool-cases (is_three b'+' (a ∷ b ∷ c ∷ []))) [
      | inl found ↦
          rw (skip_found fuel (a ∷ b ∷ c ∷ []) q found, skip_to_start_found a b c (d ∷ r) found)
            (record { verdict = refl; left = h })
      | inr other ↦
          (let moved = Holds-increment q (a ∷ b ∷ c ∷ d ∷ r) 1 h (omega arith) in
            skip_moved fuel a b c (d ∷ r) q other moved (
              rw (le→leb 3 (length (b ∷ c ∷ d ∷ r)) (omega arith))
                (skip_loop_lem fuel b c d r (increment_read_next_index q 1) moved (omega arith))))
    ]

-- The call, before its loop.
skip_call :
    (l : List ℕ) (q : Queue)
    → Holds q l
    → queue_skip_to_next_packet q
      ≡ (if leb 3 (length l) then skip_loop (length l) (take 3 l) q else (false, q))
unfolding queue_skip_to_next_packet
skip_call l q h = ground (arith, Holds-next_three q l h, Holds-used q l h)

-- On a valid queue `queue_skip_to_next_packet` stops, and leaves the queue at the first "+++", or
-- where there is none at the last bytes, fewer than three, with what follows unchanged.
pub queue_skip_to_next_packet_lem :
    (l : List ℕ) (q : Queue) → Holds q l → Agrees (queue_skip_to_next_packet q) (skip_to_start l)
unfolding skip_to_start
queue_skip_to_next_packet_lem [] q h = rw (skip_call [] q h) (record { verdict = refl; left = h })
queue_skip_to_next_packet_lem (a ∷ []) q h =
    rw (skip_call (a ∷ []) q h) (record { verdict = refl; left = h })
queue_skip_to_next_packet_lem (a ∷ b ∷ []) q h =
    rw (skip_call (a ∷ b ∷ []) q h) (record { verdict = refl; left = h })
queue_skip_to_next_packet_lem (a ∷ b ∷ c ∷ r) q h =
    rw (skip_call (a ∷ b ∷ c ∷ r) q h, le→leb 3 (length (a ∷ b ∷ c ∷ r)) (omega arith))
      (skip_loop_lem (length (a ∷ b ∷ c ∷ r)) a b c r q h (omega arith))

-- Bytes that are no '+' in front of "+++" are skipped, and no more.
pub skip_to_start-noise :
    (noise rest : List ℕ)
    → All (λ b. b ≢ b'+') noise
    → skip_to_start (noise ++ b'+' ∷ b'+' ∷ b'+' ∷ rest) ≡ (true, b'+' ∷ b'+' ∷ b'+' ∷ rest)
unfolding skip_to_start
skip_to_start-noise [] rest n = refl
skip_to_start-noise (a ∷ []) rest n = skip_to_start_other a b'+' b'+' (b'+' ∷ rest) (ground arith)
skip_to_start-noise (a ∷ b ∷ []) rest n =
    skip_to_start_other a b b'+' (b'+' ∷ b'+' ∷ rest) (ground arith)
    ∙ skip_to_start-noise (b ∷ []) rest n.1
skip_to_start-noise (a ∷ b ∷ c ∷ noise) rest n =
    skip_to_start_other a b c (noise ++ b'+' ∷ b'+' ∷ b'+' ∷ rest) (ground arith)
    ∙ skip_to_start-noise (b ∷ c ∷ noise) rest n.1
