-- ===== src/Cirq/Tests.antt =====
-- Concrete circular queues, and the theorems on them.
use qstack.Common.{ℕ, ◌+◌, ◌<◌, ◌≡◌, refl, List, [], ◌∷◌, ◌++◌, length, arith, update}
use qstack.Cirq.{Cirq, Mem, success, failed, cirq_add, cirq_get}
use qstack.Cirq.Fifo.{IsValid}
use qstack.Cirq.Runs.{Call, add, get, added, got, run, fifo_run, run_refines}
use qstack.Cirq.Spsc.{
  Producer, Consumer, State, add_room, add_store, add_publish, get_ready, get_load, get_release,
  Reach, here, next,
}
use qstack.Cirq.Spsc.Invariant.{IsSafe, fifo_any_interleaving}
use qstack.Cirq.Spsc.Solo.{at_rest}

-- 7, then 8, in an array of three words at 100.
abbrev two_words : Cirq
two_words = record { head = 1; d_queue = 100 ∷ []; size = 3; tail = 2 }

abbrev memory : Mem
memory = update (λ p. []) 100 (8 ∷ 0 ∷ 7 ∷ [])

abbrev script : List Call
script = add 9 ∷ get ∷ add 9 ∷ get ∷ get ∷ get ∷ []

two_words-IsValid : IsValid two_words
two_words-IsValid = record { fits = omega arith; head_in = omega arith; tail_in = omega arith }

run-script :
    run two_words memory script ≡ added failed ∷ got 7 ∷ added success ∷ got 8 ∷ got 9 ∷ got 0 ∷ []
unfolding cirq_add cirq_get
run-script = refl

run_refines_example : run two_words memory script ≡ fifo_run 2 (7 ∷ 8 ∷ []) script
run_refines_example = run_refines script memory two_words-IsValid (omega arith)

-- 7, then 8, in the words of the queue itself.
abbrev direct : Cirq
direct = record { head = 1; d_queue = 8 ∷ 0 ∷ 7 ∷ []; size = 3; tail = 2 }

direct-IsValid : IsValid direct
direct-IsValid = record { fits = omega arith; head_in = omega arith; tail_in = omega arith }

-- With one word taken, there is room for 9.
abbrev one_word : Cirq
one_word = record two_words { tail = 0 }

one_word-IsValid : IsValid one_word
one_word-IsValid = record { fits = omega arith; head_in = omega arith; tail_in = omega arith }

-- The producer stores 9 while the consumer reads 8.
abbrev busy : State
busy = record (at_rest one_word memory) { sent = 8 ∷ [] }

abbrev overlap : Reach busy (record {
  q = record one_word { head = 2; tail = 1 };
  buf = 8 ∷ 9 ∷ 7 ∷ [];
  producer = Producer.outside;
  consumer = Consumer.outside;
  sent = 8 ∷ 9 ∷ [];
  received = 8 ∷ [];
})
overlap =
    let both_in = next (next here (add_room 9 refl refl)) (get_ready refl refl) in
    let both_moved = next (next both_in (add_store 9 refl)) (get_load refl) in
    next (next both_moved (add_publish 9 refl)) (get_release 8 refl)

busy-IsSafe : IsSafe busy
busy-IsSafe = record {
  valid = one_word-IsValid;
  backed = omega arith;
  in_order = refl;
  writes = tt;
  reads = tt;
}

fifo_any_interleaving_example :
    (◌++◌ {A = ℕ} (8 ∷ []) (9 ∷ []) ≡ 8 ∷ 9 ∷ [])
    × (length {A = ℕ} (8 ∷ 9 ∷ []) < length {A = ℕ} (8 ∷ []) + 3)
fifo_any_interleaving_example = fifo_any_interleaving busy-IsSafe overlap
