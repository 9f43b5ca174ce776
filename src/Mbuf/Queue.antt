-- ===== src/Mbuf/Queue.antt =====
-- qstack/src/include/mbuf_queue.h, as it is compiled: DIRECT_CIRCULAR_QUEUE, so that a queue of
-- packet buffers is a direct circular queue and its mempool is not used.
use qstack.Common.{ℕ, zero, suc, ◌+◌, Option, none, some, ◌==◌, if◌then◌else◌, ◌>>=◌, Ptr, null}
use qstack.Cirq.{Cirq, Ret, dir_cirq_init, dir_cirq_add, dir_cirq_get}
use qstack.Mbuf.{Store, mbuf_free}

unfoldable pub mbufq_init : Cirq → Ret × Cirq
mbufq_init q = dir_cirq_init q

unfoldable pub mbufq_enqueue : Cirq → Ptr → Ret × Cirq
mbufq_enqueue q mbuf = dir_cirq_add q mbuf

unfoldable pub mbufq_dequeue : Cirq → Ptr × Cirq
mbufq_dequeue q = dir_cirq_get q

-- The `while` loop of `mbufq_clear`, on fuel.
clear_loop : ℕ → Cirq → Store → Option (Cirq × Store)
clear_loop zero q s = none
clear_loop (suc fuel) q s =
    let (mbuf, q') = mbufq_dequeue q in
    let rest = (do s' ← mbuf_free mbuf s; clear_loop fuel q' s') in
    if mbuf == null then some (q', s) else rest

-- A queue holds fewer buffers than its size.
unfoldable pub mbufq_clear : Cirq → Store → Option (Cirq × Store)
unfolding clear_loop
mbufq_clear q s = clear_loop (q.size + 1) q s
