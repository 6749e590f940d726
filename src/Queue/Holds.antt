-- ===== src/Queue/Holds.antt =====
-- queue.c as its clients see it: a valid queue that holds a list of unread bytes.
use cpc_cplink.Prelude.{
  ℕ, ◌+◌, ◌≤◌, ◌<◌, ◌≡◌, refl, sym, ap, ◌∙◌, true, false, List, [], ◌∷◌, ◌++◌, arith, length, take,
  drop, get_or, leb, if◌then◌else◌, length-append, drop-append, subst,
}
use cpc_cplink.Queue.{
  Queue, queue_size, increment_read_next_index, write_data_to_queue, write_byte_of_data_to_queue,
  get_next_three_bytes_from_queue, read_bytes, queue_read_ahead_byte, get_current_read_byte,
  is_queue_space_available, init_queue,
}
use cpc_cplink.Queue.Valid.{
  IsValid, used, increment_read-IsValid, space_available_iff, init-IsValid,
}
use cpc_cplink.Queue.Window.{
  window, contents, length-contents, contents-increment_read, read_bytes_lem, read_ahead-contents,
  contents-nonempty,
}
use cpc_cplink.Queue.Transfer.{
  write_data_to_queue_lem, write_byte-eq-write_data, get_next_three_lem,
}

pub record Holds (q : Queue) (l : List ℕ) : Type 0 where
  pub valid : IsValid q
  pub unread : contents q ≡ l

pub Holds-contents : (q : Queue) → IsValid q → Holds q (contents q)
Holds-contents q v = record { valid = v; unread = refl }

pub Holds-init : (q : Queue) → Holds (init_queue q) []
unfolding window
Holds-init q = record { valid = (init-IsValid q).0; unread = rw ((init-IsValid q).1) refl }

module _ (q : Queue) (l : List ℕ) where
  pub Holds-used : Holds q l → used q ≡ length l
  Holds-used h = sym (length-contents q) ∙ ap length h.unread

  pub Holds-write :
      (bs : List ℕ)
      → Holds q l
      → length l + length bs < queue_size
      → ((write_data_to_queue q bs).0 ≡ true) × Holds (write_data_to_queue q bs).1 (l ++ bs)
  Holds-write bs h fits =
      let w = write_data_to_queue_lem q bs h.valid in
      let u = Holds-used h in (ground arith, record { valid = w.2; unread = ground arith })

  pub Holds-write_byte :
      (b : ℕ)
      → Holds q l
      → length l + 1 < queue_size
      → Holds (write_byte_of_data_to_queue q b).1 (l ++ b ∷ [])
  Holds-write_byte b h fits = rw write_byte-eq-write_data (Holds-write (b ∷ []) h fits).1

  pub Holds-increment :
      (n : ℕ) → Holds q l → n ≤ length l → Holds (increment_read_next_index q n) (drop n l)
  Holds-increment n h le =
      let u = Holds-used h in
      record {
        valid = increment_read-IsValid q n h.valid;
        unread = contents-increment_read q n h.valid (omega arith) ∙ ap (drop n) h.unread;
      }

  pub Holds-read_ahead :
      (n : ℕ) → Holds q l → n < length l → queue_read_ahead_byte q n ≡ get_or l n 0
  Holds-read_ahead n h lt =
      let u = Holds-used h in
      read_ahead-contents q n (omega arith) ∙ ap (λ t. get_or t n 0) h.unread

  pub Holds-next_three :
      Holds q l
      → get_next_three_bytes_from_queue q
        ≡ (if leb 3 (length l) then (true, take 3 l, q) else (false, [], q))
  Holds-next_three h = let u = Holds-used h in rw (get_next_three_lem q h.valid, h.unread, u) refl

  pub Holds-read :
      (n : ℕ)
      → Holds q l
      → n ≤ length l
      → ((read_bytes n q).0 ≡ take n l) × Holds (read_bytes n q).1 (drop n l)
  Holds-read n h le =
      let u = Holds-used h in
      let r = read_bytes_lem n q h.valid (omega arith) in
      (r.0 ∙ ap (take n) h.unread, rw r.1 (Holds-increment n h le))

  -- Where a byte more than what is asked for is free, there is space.
  pub Holds-space :
      (n : ℕ) → Holds q l → length l + n < queue_size → is_queue_space_available q n ≡ true
  Holds-space n h lt =
      let u = Holds-used h in (space_available_iff q n h.valid).1 (omega arith, omega arith)

pub Holds-current : (q : Queue) (b : ℕ) (l : List ℕ) → Holds q (b ∷ l) → get_current_read_byte q ≡ b
Holds-current q b l h =
    let u = Holds-used q (b ∷ l) h in cc (contents-nonempty q h.valid (omega arith), h.unread)

-- Stepping over a known front leaves what is behind it.
pub Holds-skip :
    (q : Queue) (n : ℕ) (xs ys : List ℕ)
    → Holds q (xs ++ ys)
    → n ≡ length xs
    → Holds (increment_read_next_index q n) ys
Holds-skip q n xs ys h e =
    subst (Holds (increment_read_next_index q n))
      (ap (λ k. drop k (xs ++ ys)) e ∙ drop-append xs ys)
      (Holds-increment q (xs ++ ys) n h (omega (arith, length-append xs ys)))
