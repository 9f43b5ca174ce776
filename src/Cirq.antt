-- ===== src/Cirq.antt =====
-- tools/src/include/circular_queue.h, as it is compiled: SIMPLE_HEADTAIL without DPDK_RTE_RING.
-- A function that updates `*q` returns the new queue; `none` is a call that ends the process.
pub mod Fifo
pub mod Pool
pub mod Refine
pub mod Ring
pub mod Runs
pub mod Scan
pub mod Spsc
pub mod Tests
use Prim.Native.Nat.{compare}
use qstack.Common.{
  ℕ, zero, suc, ◌+◌, ◌-◌, ◌*◌, ◌%◌, ◌^◌, Bool, true, false, Option, none, some, List, [], ◌==◌, leb,
  ltb, if◌then◌else◌, get_or, set, replicate, update, u32, sub32, Ptr, null,
}

-- `struct circular_queue`. The union is the eight words of `d_queue`; its other view, the
-- pointer `queue`, is the first of them.
pub record Cirq : Type 0 where
  pub head : ℕ
  pub d_queue : List ℕ
  pub size : ℕ
  pub tail : ℕ

-- The arrays of words behind pointers, by their addresses.
abbrev pub Mem : Type 0
Mem = Ptr → List ℕ

-- SUCCESS is 1, FAILED is -2 and ERROR is -1: each of them passes a test `if (ret)`.
pub data Ret : Type 0 where
  success failed error : Ret

abbrev pub truthy : Ret → Bool
truthy success = true
truthy failed = true
truthy error = true

abbrev pub static_buff_size : ℕ
static_buff_size = 8

abbrev pub queue : Cirq → Ptr
queue q = get_or q.d_queue 0 null

abbrev pub cirq_pree : Cirq → ℕ → ℕ
cirq_pree q p = if p == 0 then sub32 q.size 1 else p - 1

-- A size of 0 would divide by zero.
abbrev pub cirq_succ : Cirq → ℕ → ℕ
cirq_succ q p = u32 (p + 1) % q.size

abbrev pub cirq_full : Cirq → Bool
cirq_full q = cirq_succ q q.head == q.tail

abbrev pub cirq_empty : Cirq → Bool
cirq_empty q = q.head == q.tail

unfoldable pub cirq_count : Cirq → ℕ
cirq_count q = if leb q.tail q.head then q.head - q.tail else sub32 (u32 (q.head + q.size)) q.tail

-- `block` is what `calloc` returns for `size` words.
unfoldable pub cirq_init : Cirq → Mem → ℕ → Ptr → Cirq × Mem
cirq_init q m size block = (
  record q { head = 0; d_queue = set q.d_queue 0 block; size = size; tail = 0 },
  update m block (replicate size null),
)

unfoldable pub cirq_add : Cirq → Mem → ℕ → Ret × Cirq × Mem
cirq_add q m item = if cirq_full q then (failed, q, m) else (
  success,
  record q { head = cirq_succ q q.head },
  update m (queue q) (set (m (queue q)) q.head item),
)

unfoldable pub cirq_get : Cirq → Mem → ℕ × Cirq
cirq_get q m =
    if cirq_empty q
    then (null, q)
    else (get_or (m (queue q)) q.tail null, record q { tail = cirq_succ q q.tail })

unfoldable pub cirq_prefetch : Cirq → Mem → ℕ
cirq_prefetch q m = if cirq_empty q then null else get_or (m (queue q)) q.tail null

-- The slot is given by its index in the array at `queue`.
unfoldable pub cirq_get_wslot : Cirq → Ptr × ℕ
cirq_get_wslot q = (queue q, q.head)

unfoldable pub cirq_writen : Cirq → Ret × Cirq
cirq_writen q =
    if cirq_full q then (failed, q) else (success, record q { head = cirq_succ q q.head })

slots_from : ℕ → ℕ → ℕ → ℕ → List ℕ
slots_from mem slot_size i zero = []
slots_from mem slot_size i (suc n) =
    List.◌∷◌ (mem + i * slot_size) (slots_from mem slot_size (i + 1) n)

-- `mem` is what `calloc` returns for the slots.
unfoldable pub cirq_init_slot : Cirq → Mem → ℕ → Ptr → Option Mem
unfolding slots_from
cirq_init_slot q m slot_size mem =
    if queue q == null then none else some (update m (queue q) (slots_from mem slot_size 0 q.size))

-- A queue that is not empty is only reported.
unfoldable pub cirq_destroy : Cirq → Mem → Mem
cirq_destroy q m = update m (queue q) []

unfoldable pub dir_cirq_init : Cirq → Ret × Cirq
dir_cirq_init q = (success, record q { head = 0; size = static_buff_size; tail = 0 })

unfoldable pub dir_cirq_add : Cirq → ℕ → Ret × Cirq
dir_cirq_add q item =
    if cirq_full q
    then (failed, q)
    else (success, record q { head = cirq_succ q q.head; d_queue = set q.d_queue q.head item })

unfoldable pub dir_cirq_get : Cirq → ℕ × Cirq
dir_cirq_get q =
    if cirq_empty q
    then (null, q)
    else (get_or q.d_queue q.tail null, record q { tail = cirq_succ q q.tail })
