-- ===== src/Seq/Tests.antt =====
-- Sequence numbers on both sides of the wrap-around.
use qstack.Common.{◌≤◌, ◌<◌, ◌≡◌, ◌↔◌, true, arith}
use qstack.Seq.{seq_lt, seq_leq, seq_gt, seq_geq, offset, seq_order}

seq_order_example :
    ((seq_lt 4294967290 5 ≡ true) ↔ (offset 4294967280 4294967290 < offset 4294967280 5))
    × ((seq_leq 4294967290 5 ≡ true) ↔ (offset 4294967280 4294967290 ≤ offset 4294967280 5))
    × ((seq_gt 4294967290 5 ≡ true) ↔ (offset 4294967280 5 < offset 4294967280 4294967290))
    × ((seq_geq 4294967290 5 ≡ true) ↔ (offset 4294967280 5 ≤ offset 4294967280 4294967290))
seq_order_example =
    seq_order 4294967280 4294967290 5 (omega arith) (omega arith) (omega arith) (omega arith)
      (omega arith)
