-- ===== src/N21/Enqueue.antt =====
-- What one producer's `n21q_enqueue` leaves in the queues.
use qstack.Common.{
  ℕ, ◌-◌, ◌<◌, ◌≡◌, ◌≢◌, sym, ◌∙◌, ap, List, length, get_or-set_self, get_or-set_ne, update-ne,
}
use qstack.Cirq.{Cirq, Mem, Ret, queue, cirq_add}
use qstack.Cirq.Fifo
use qstack.Cirq.Fifo.{IsBacked, contents, items}
use qstack.Cirq.Refine.{cirq_add_refines}
use qstack.N21.{N21, no_queue, queue_at, set_queue, n21q_enqueue}
use qstack.N21.RoundRobin.{held}

-- If the producer's queue is valid over its array, and no array is that of two queues,
-- `n21q_enqueue` gives the status of the bounded queue's push on its own queue and leaves there what
-- that push leaves, and the words in any other queue are as before.
pub n21q_enqueue-held :
    (m : Mem) (q : N21) (q_id x i : ℕ)
    → q_id < length q.queues
    → Fifo.IsValid (queue_at q q_id)
    → IsBacked (queue_at q q_id) (m (queue (queue_at q q_id)))
    → i ≢ q_id
    → queue (queue_at q i) ≢ queue (queue_at q q_id)
    → let (r, q', m') = n21q_enqueue q m q_id x in
      ((r, held m' q' q_id) ≡ Fifo.push ((queue_at q q_id).size - 1) (held m q q_id) x)
      × (held m' q' i ≡ held m q i)
unfolding n21q_enqueue
n21q_enqueue-held m q q_id x i lt v b other apart =
    let c = queue_at q q_id in
    let c' = (cirq_add c m x).1 in
    let m' = (cirq_add c m x).2 in
    let pair : Cirq → Ret × List ℕ = λ d. ((cirq_add c m x).0, contents m' d) in
    let (pushed, _, _, frame) = cirq_add_refines m x v b in
    let own : queue_at (set_queue q q_id c') q_id ≡ c' =
      get_or-set_self q.queues q_id c' no_queue lt in
    let same : queue_at (set_queue q q_id c') i ≡ queue_at q i =
      get_or-set_ne q.queues q_id i c' no_queue (λ e. other (sym e)) in
    let array : m' (queue (queue_at q i)) ≡ m (queue (queue_at q i)) =
      ap (λ (f : Mem). f (queue (queue_at q i))) frame
      ∙ update-ne m (queue c) (queue (queue_at q i)) (m' (queue c)) apart in
    (
      ap pair own ∙ pushed,
      ap (λ (d : Cirq). contents m' d) same ∙ ap (λ (l : List ℕ). items l (queue_at q i)) array,
    )
