-- ===== src/N21.antt =====
-- tools/src/include/n21_queue.h: several producers, each with a circular queue of its own, and
-- one consumer that goes round them. The ready flags, the counters and the prefetched item are
-- compiled out, so `n21q_dequeue` is `__n21q_dequeue_strong`.
pub mod Enqueue
pub mod RoundRobin
pub mod Tests
use qstack.Common.{
  ℕ, zero, suc, ◌+◌, ◌*◌, Bool, true, false, ◌&&◌, not, Option, none, some, List, [], ◌∷◌, ◌==◌,
  if◌then◌else◌, ◌>>=◌, get_or, set, replicate, u8, u32, Ptr, null,
}
use qstack.Cirq.{
  Cirq, Mem, Ret, cirq_count, cirq_init, cirq_add, cirq_get, cirq_get_wslot, cirq_writen,
  cirq_init_slot,
}

-- `struct n21_queue`.
pub record N21 : Type 0 where
  pub queue_num : ℕ
  pub queue_point : ℕ
  pub queues : List Cirq

-- What an index past the array would name.
abbrev pub no_queue : Cirq
no_queue = record { head = 0; d_queue = []; size = 0; tail = 0 }

abbrev pub queue_at : N21 → ℕ → Cirq
queue_at q i = get_or q.queues i no_queue

abbrev pub set_queue : N21 → ℕ → Cirq → N21
set_queue q i c = record q { queues = set q.queues i c }

unfoldable pub n21q_succ : N21 → ℕ → ℕ
n21q_succ q p = if u8 (p + 1) == q.queue_num then 0 else u8 (p + 1)

-- The sum over the queues `i` on, for the rounds left.
count_from : N21 → ℕ → ℕ → ℕ
count_from q i zero = 0
count_from q i (suc k) = u32 (cirq_count (queue_at q i) + count_from q (i + 1) k)

unfoldable pub n21q_count : N21 → ℕ
unfolding count_from
n21q_count q = count_from q 0 q.queue_num

-- The `do` loop of `__n21q_dequeue_strong`, on fuel; the new point is that of the next queue.
dequeue_loop : ℕ → ℕ → Mem → N21 → Option (ℕ × N21)
dequeue_loop zero start m q = none
dequeue_loop (suc fuel) start m q =
    let (ret, c) = cirq_get (queue_at q q.queue_point) m in
    let q' = record (set_queue q q.queue_point c) { queue_point = n21q_succ q q.queue_point } in
    let again = dequeue_loop fuel start m q' in
    if (ret == null) && not (start == q'.queue_point) then again else some (ret, q')

unfoldable pub n21q_dequeue_strong : N21 → Mem → Option (ℕ × N21)
unfolding dequeue_loop
n21q_dequeue_strong q m = dequeue_loop q.queue_num q.queue_point m q

-- That of `n21q_dequeue_local`, which stays at a queue that gave an item.
local_loop : ℕ → ℕ → Mem → N21 → Option (ℕ × N21)
local_loop zero start m q = none
local_loop (suc fuel) start m q =
    let (ret, c) = cirq_get (queue_at q q.queue_point) m in
    let stay = set_queue q q.queue_point c in
    let go = record stay { queue_point = n21q_succ q q.queue_point } in
    let again = local_loop fuel start m go in
    if ret == null
    then (if start == go.queue_point then some (ret, go) else again)
    else some (ret, stay)

unfoldable pub n21q_dequeue_local : N21 → Mem → Option (ℕ × N21)
unfolding local_loop
n21q_dequeue_local q m = local_loop q.queue_num q.queue_point m q

unfoldable pub n21q_enqueue : N21 → Mem → ℕ → ℕ → Ret × N21 × Mem
n21q_enqueue q m q_id item =
    let (ret, c, m') = cirq_add (queue_at q q_id) m item in (ret, set_queue q q_id c, m')

unfoldable pub n21q_get_wslot : N21 → ℕ → Ptr × ℕ
n21q_get_wslot q q_id = cirq_get_wslot (queue_at q q_id)

unfoldable pub n21q_writen : N21 → ℕ → Ret × N21
n21q_writen q q_id = let (ret, c) = cirq_writen (queue_at q q_id) in (ret, set_queue q q_id c)

-- A queue of the array that `calloc` returns.
abbrev zeroed : Cirq
zeroed = record { head = 0; d_queue = replicate 8 null; size = 0; tail = 0 }

init_queues : ℕ → (ℕ → Ptr) → Mem → ℕ → ℕ → List Cirq × Mem
init_queues size blocks m i zero = ([], m)
init_queues size blocks m i (suc k) =
    let (c, m') = cirq_init zeroed m size (blocks i) in
    let (cs, m'') = init_queues size blocks m' (i + 1) k in (c ∷ cs, m'')

-- `blocks i` is what `calloc` returns for the i-th queue.
unfoldable pub n21q_init : Mem → ℕ → ℕ → (ℕ → Ptr) → N21 × Mem
unfolding init_queues
n21q_init m queue_num size blocks =
    let (cs, m') = init_queues size blocks m 0 queue_num in
    (record { queue_num = queue_num; queue_point = 0; queues = cs }, m')

-- The loop of `n21q_init_slot`, for the rounds left.
init_slots : N21 → ℕ → (ℕ → Ptr) → Mem → ℕ → ℕ → Option Mem
init_slots q slot_size slots m i zero = some m
init_slots q slot_size slots m i (suc k) = do
  m' ← cirq_init_slot (queue_at q i) m slot_size (slots i)
  init_slots q slot_size slots m' (i + 1) k

-- `slots i` is what `calloc` returns for the slots of the i-th queue.
unfoldable pub n21q_init_slot : N21 → Mem → ℕ → (ℕ → Ptr) → Option Mem
unfolding init_slots
n21q_init_slot q m slot_size slots = init_slots q slot_size slots m 0 q.queue_num
