-- ===== src/Cirq/Fifo.antt =====
-- What circular_queue.h promises one thread: a first-in first-out queue of at most `size - 1`
-- words, under both views of the union.
use qstack.Common.{
  ℕ, ◌+◌, ◌%◌, ◌^◌, ◌≤◌, ◌<◌, ◌≡◌, ap, List, [], ◌∷◌, ◌++◌, ◌==◌, if◌then◌else◌, length, arith,
  null, u32,
}
use qstack.Cirq.{Cirq, Mem, queue, Ret, success, failed, cirq_succ, cirq_count}
use qstack.Cirq.Ring.{window, used, length-window}

-- The indices are in range. A queue of size 1 is always full.
pub record IsValid (q : Cirq) : Type 0 where
  pub fits : q.size < 2 ^ 32
  pub head_in : q.head < q.size
  pub tail_in : q.tail < q.size

abbrev pub IsBacked : Cirq → List ℕ → Type 0
IsBacked q buf = q.size ≤ length buf

-- The words in the queue, oldest first, read from the array `buf`.
abbrev pub items : List ℕ → Cirq → List ℕ
items buf q = window 0 buf q.size q.tail (used q.size q.head q.tail)

abbrev pub contents : Mem → Cirq → List ℕ
contents m q = items (m (queue q)) q

abbrev pub dir_contents : Cirq → List ℕ
dir_contents q = items q.d_queue q

-- A queue of at most `cap` words, oldest first. An empty one gives NULL.
unfoldable pub push : ℕ → List ℕ → ℕ → Ret × List ℕ
push cap l x = if length l == cap then (failed, l) else (success, l ++ (x ∷ []))

unfoldable pub pop : List ℕ → ℕ × List ℕ
pop [] = (null, [])
pop (x ∷ l) = (x, l)

pub succ-mod : {q : Cirq} (p : ℕ) → IsValid q → p < q.size → cirq_succ q p ≡ (p + 1) % q.size
succ-mod {q} p v h = let e : u32 (p + 1) ≡ p + 1 = omega arith in ap (λ (k : ℕ). k % q.size) e

pub length-items : (buf : List ℕ) (q : Cirq) → length (items buf q) ≡ used q.size q.head q.tail
length-items buf q = length-window 0 buf q.size q.tail (used q.size q.head q.tail)

-- The code's count is the number of words held.
pub cirq_count-used : {q : Cirq} → IsValid q → cirq_count q ≡ used q.size q.head q.tail
unfolding cirq_count
cirq_count-used v = ground arith
