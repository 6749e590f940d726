-- ===== src/Queue/Window.antt =====
-- queue.c: the unread bytes of a queue as a list, and how the index operations change it.
use cpc_cplink.Prelude.{
  ℕ, zero, suc, ◌+◌, ◌-◌, ◌%◌, ◌≤◌, ◌<◌, ◌≡◌, refl, sym, ap, ap₂, ◌∙◌, List, [], ◌∷◌, ◌++◌,
  append-nil, append_assoc, arith, length, get_or, drop, take,
}
use cpc_cplink.Prelude.Memory.{update, update_self, update_ne}
use cpc_cplink.Queue.{
  Queue, queue_size, number_bytes_in_queue_to_read, increment_read_next_index, store_byte,
  store_bytes, queue_read_ahead_byte, get_current_read_byte, read_bytes,
}
use cpc_cplink.Queue.Valid.{
  IsValid, used, store_byte-IsValid, used-store_byte, used-increment_read, increment_read-IsValid,
  increment_read-zero, increment_read-increment_read,
}

-- The `n` bytes from index `h` on, going round at the end of the array.
unfoldable pub window : (ℕ → ℕ) → ℕ → ℕ → List ℕ
window f h zero = []
window f h (suc n) = f (h % queue_size) ∷ window f (suc h) n

-- The unread bytes, oldest first.
abbrev pub contents : Queue → List ℕ
contents q = window q.bytes q.read_next_byte (used q)

pub length-window : (f : ℕ → ℕ) (h n : ℕ) → length (window f h n) ≡ n
unfolding window
length-window f h zero = refl
length-window f h (suc n) = ap suc (length-window f (suc h) n)

pub window-mod : (f : ℕ → ℕ) (h n : ℕ) → window f (h % queue_size) n ≡ window f h n
unfolding window
window-mod f h zero = refl
window-mod f h (suc n) = ap₂ ◌∷◌ (ap f (omega arith)) (
    sym (window-mod f (suc (h % queue_size)) n)
    ∙ ap (λ k. window f k n) (omega arith)
    ∙ window-mod f (suc h) n)

pub window-at : (f : ℕ → ℕ) (h k m n : ℕ) → h ≡ k → m ≡ n → window f h m ≡ window f k n
window-at f h k m n p q = ap₂ (λ a b. window f a b) p q

pub window-append :
    (f : ℕ → ℕ) (h m n : ℕ) → window f h (m + n) ≡ window f h m ++ window f (h + m) n
unfolding window
window-append f h zero n = window-at f h (h + 0) (0 + n) n (omega arith) (omega arith)
window-append f h (suc m) n =
    window-at f h h (suc m + n) (suc (m + n)) refl (omega arith)
    ∙ ap (λ t. f (h % queue_size) ∷ t)
        (window-append f (suc h) m n
          ∙ ap (λ t. window f (suc h) m ++ t)
              (window-at f (suc h + m) (h + suc m) n n (omega arith) refl))

-- A write past the window leaves it alone.
pub window-update :
    (f : ℕ → ℕ) (h n j i v : ℕ)
    → n + j < queue_size
    → i ≡ (h + n + j) % queue_size
    → window (update f i v) h n ≡ window f h n
unfolding window
window-update f h zero j i v lt e = refl
window-update f h (suc n) j i v lt e =
    ap₂ ◌∷◌ (update_ne f i v (h % queue_size) (omega arith))
      (window-update f (suc h) n j i v (omega arith) (omega arith))

-- The byte at offset `i` of a window.
pub get_or-window :
    (f : ℕ → ℕ) (h n i : ℕ) → i < n → get_or (window f h n) i 0 ≡ f ((h + i) % queue_size)
unfolding window
get_or-window f h zero i lt = absurd (omega arith)
get_or-window f h (suc n) zero lt = ap f (omega arith)
get_or-window f h (suc n) (suc i) lt =
    get_or-window f (suc h) n i (omega arith) ∙ ap f (omega arith)

pub drop-window : (f : ℕ → ℕ) (h n k : ℕ) → k ≤ n → drop k (window f h n) ≡ window f (h + k) (n - k)
unfolding window
drop-window f h n zero le = ap₂ (λ a b. window f a b) (omega arith) (omega arith)
drop-window f h zero (suc k) le = absurd (omega arith)
drop-window f h (suc n) (suc k) le =
    drop-window f (suc h) n k (omega arith) ∙ ap₂ (λ a b. window f a b) (omega arith) (omega arith)

pub take-window : (f : ℕ → ℕ) (h n k : ℕ) → k ≤ n → take k (window f h n) ≡ window f h k
unfolding window
take-window f h n zero le = refl
take-window f h zero (suc k) le = absurd (omega arith)
take-window f h (suc n) (suc k) le =
    ap (λ t. f (h % queue_size) ∷ t) (take-window f (suc h) n k (omega arith))

pub length-contents : (q : Queue) → length (contents q) ≡ used q
length-contents q = length-window q.bytes q.read_next_byte (used q)

-- Stepping the read index on drops as many bytes from the front.
pub contents-increment_read :
    (q : Queue) (n : ℕ)
    → IsValid q
    → n ≤ used q
    → contents (increment_read_next_index q n) ≡ drop n (contents q)
unfolding increment_read_next_index
contents-increment_read q n v h =
    ap (λ k. window q.bytes ((q.read_next_byte + n) % queue_size) k) (used-increment_read q n v h)
    ∙ window-mod q.bytes (q.read_next_byte + n) (used q - n)
    ∙ sym (drop-window q.bytes q.read_next_byte (used q) n h)

-- A byte read ahead is the byte at that offset of the contents.
pub read_ahead-contents :
    (q : Queue) (n : ℕ) → n < used q → queue_read_ahead_byte q n ≡ get_or (contents q) n 0
unfolding queue_read_ahead_byte
read_ahead-contents q n h = sym (get_or-window q.bytes q.read_next_byte (used q) n h)

-- The index where the next byte is stored, seen from the read index.
store_index :
    (q : Queue) → IsValid q → q.store_next_byte ≡ (q.read_next_byte + used q + 0) % queue_size
unfolding number_bytes_in_queue_to_read
store_index q v = omega arith

-- Storing a byte puts it at the end, where at least two bytes are free.
pub contents-store_byte :
    (q : Queue) (b : ℕ)
    → IsValid q
    → used q + 1 < queue_size
    → contents (store_byte q b) ≡ contents q ++ b ∷ []
unfolding store_byte window
contents-store_byte q b v h =
    ap (λ k. window f r k) (used-store_byte q b v h)
    ∙ window-append f r (used q) 1
    ∙ ap₂ ◌++◌ (window-update q.bytes r (used q) 0 i b (omega arith) (store_index q v)) last
  where
    i : ℕ
    i = q.store_next_byte

    r : ℕ
    r = q.read_next_byte

    f : ℕ → ℕ
    f = update q.bytes i b

    last : f ((r + used q) % queue_size) ∷ [] ≡ b ∷ []
    last =
        ap (λ k. f k ∷ []) (omega (arith, store_index q v))
        ∙ ap (λ k. k ∷ []) (update_self q.bytes i b)

-- Storing bytes puts them at the end, where more than that many are free.
pub contents-store_bytes :
    (q : Queue) (bs : List ℕ)
    → IsValid q
    → used q + length bs < queue_size
    → contents (store_bytes q bs) ≡ contents q ++ bs
unfolding store_bytes
contents-store_bytes q [] v h = sym (append-nil (contents q))
contents-store_bytes q (b ∷ bs) v h =
    contents-store_bytes (store_byte q b) bs (store_byte-IsValid q b v)
      (omega (arith, used-store_byte q b v (omega arith)))
    ∙ ap (λ t. t ++ bs) (contents-store_byte q b v (omega arith))
    ∙ append_assoc (contents q) (b ∷ []) bs

-- Reading a byte takes it from the front.
pub contents-nonempty :
    (q : Queue)
    → IsValid q
    → 1 ≤ used q
    → contents q ≡ get_current_read_byte q ∷ contents (increment_read_next_index q 1)
unfolding get_current_read_byte window
contents-nonempty q v h =
    window-at q.bytes q.read_next_byte q.read_next_byte (used q) (suc (used q - 1)) refl
      (omega arith)
    ∙ ap₂ ◌∷◌ (ap q.bytes (omega arith)) (
        window-at q.bytes (suc q.read_next_byte) (q.read_next_byte + 1) (used q - 1) (used q - 1)
          (omega arith) refl
        ∙ sym (drop-window q.bytes q.read_next_byte (used q) 1 h)
        ∙ sym (contents-increment_read q 1 v h))

-- Reading `n` bytes of those that are there takes them from the front, in order, and leaves the
-- index behind the last of them.
pub read_bytes_lem :
    (n : ℕ) (q : Queue)
    → IsValid q
    → n ≤ used q
    → ((read_bytes n q).0 ≡ take n (contents q))
      × ((read_bytes n q).1 ≡ increment_read_next_index q n)
unfolding read_bytes
read_bytes_lem zero q v h = (refl, sym (increment_read-zero q v))
read_bytes_lem (suc n) q v h =
    let ih =
      read_bytes_lem n (increment_read_next_index q 1) (increment_read-IsValid q 1 v)
        (omega (arith, used-increment_read q 1 v (omega arith))) in
    (
      rw (contents-nonempty q v (omega arith)) (ap (λ t. get_current_read_byte q ∷ t) ih.0),
      ih.1 ∙ increment_read-increment_read q 1 n (suc n) (omega arith),
    )
