-- ===== src/N21/Tests.antt =====
-- A concrete n21 queue, and the theorem on serving it.
use qstack.Common.{ℕ, zero, suc, ◌<◌, ◌≡◌, ◌≢◌, refl, some, List, [], ◌∷◌, arith, null, update}
use qstack.Cirq.{Mem}
use qstack.Cirq.Fifo
use qstack.N21.{N21, queue_at, n21q_dequeue_strong}
use qstack.N21.RoundRobin.{IsValid, held, Outcome, dequeue_round_robin}

-- Three queues, of which the first holds 5; the consumer stands at the second.
abbrev three : N21
three = record {
  queue_num = 3;
  queue_point = 1;
  queues =
      record { head = 1; d_queue = 100 ∷ []; size = 2; tail = 0 }
      ∷ record { head = 0; d_queue = 200 ∷ []; size = 2; tail = 0 }
      ∷ record { head = 0; d_queue = 300 ∷ []; size = 2; tail = 0 }
      ∷ [];
}

abbrev memory : Mem
memory = update (λ p. 0 ∷ 0 ∷ []) 100 (5 ∷ 0 ∷ [])

queue_at-IsValid : (i : ℕ) → i < 3 → Fifo.IsValid (queue_at three i)
queue_at-IsValid zero h = record {
  fits = omega arith;
  head_in = omega arith;
  tail_in = omega arith;
}
queue_at-IsValid (suc zero) h = record {
  fits = omega arith;
  head_in = omega arith;
  tail_in = omega arith;
}
queue_at-IsValid (suc (suc zero)) h = record {
  fits = omega arith;
  head_in = omega arith;
  tail_in = omega arith;
}
queue_at-IsValid (suc (suc (suc i))) h = absurd (omega arith)

not_null_at : (i x : ℕ) (rest : List ℕ) → i < 3 → held memory three i ≡ x ∷ rest → x ≢ null
not_null_at zero x rest h e = λ n. ground arith
not_null_at (suc zero) x rest h e = absurd (ground arith)
not_null_at (suc (suc zero)) x rest h e = absurd (ground arith)
not_null_at (suc (suc (suc i))) x rest h e = absurd (omega arith)

three-IsValid : IsValid memory three
three-IsValid = record {
  few = omega arith;
  point_in = omega arith;
  stored = refl;
  each = queue_at-IsValid;
  not_null = not_null_at;
}

dequeue_round_robin_example :
    (r : ℕ × N21) × (n21q_dequeue_strong three memory ≡ some r) × Outcome memory three r
dequeue_round_robin_example = dequeue_round_robin memory three three-IsValid
