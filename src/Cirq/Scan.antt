-- ===== src/Cirq/Scan.antt =====
-- `cirq_scan` of tools/src/include/circular_queue.h: the index of an item, `none` for -1.
use qstack.Common.{
  ℕ, zero, suc, ◌+◌, ◌-◌, Bool, true, Option, none, some, List, ◌==◌, ltb, if◌then◌else◌, get_or,
  null,
}
use qstack.Cirq.{Cirq, Mem, queue}

-- The loop `for (; i<end; i++)`, for the rounds left.
scan_slots : List ℕ → ℕ → ℕ → ℕ → Option ℕ
scan_slots buf item i zero = none
scan_slots buf item i (suc k) =
    let rest = scan_slots buf item (i + 1) k in if get_or buf i null == item then some i else rest

-- The guard names the function `cirq_empty` and does not call it: it tests a function's address,
-- which is never NULL.
abbrev address_of_cirq_empty : Bool
address_of_cirq_empty = true

unfoldable pub cirq_scan : Cirq → Mem → ℕ → Option ℕ
unfolding scan_slots
cirq_scan q m item =
    let buf = m (queue q) in
    let wrapped = scan_slots buf item q.tail (q.size - q.tail) in
    if address_of_cirq_empty
    then none
    else if ltb q.tail q.head
    then scan_slots buf item q.tail (q.head - q.tail)
    else elim wrapped [ some i ↦ some i | none ↦ scan_slots buf item 0 q.head ]
