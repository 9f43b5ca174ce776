-- ===== src/Cirq/Spsc/Solo.antt =====
-- The steps of `Spsc` are those of the functions: a call that runs with no other step between
-- ends where `cirq_add` or `cirq_get` does.
use qstack.Common.{ℕ, refl, ◌∷◌, [], set, if◌then◌else◌, Bool-cases, inl, inr, update_self}
use qstack.Cirq.{Cirq, Mem, queue, success, cirq_full, cirq_empty, cirq_add, cirq_get}
use qstack.Cirq.Spsc.{
  Producer, Consumer, State, add_room, add_store, add_publish, get_ready, get_load, get_release,
  Reach, here, next,
}

-- A queue over its array in memory, with nothing sent or received and nobody inside.
abbrev pub at_rest : Cirq → Mem → State
at_rest q m = record {
  q = q;
  buf = m (queue q);
  producer = Producer.outside;
  consumer = Consumer.outside;
  sent = [];
  received = [];
}

-- A whole `cirq_add` is a run of the producer's steps: it reaches the queue and the array that
-- `cirq_add` returns, and what it has sent is the word, if the status is SUCCESS, or nothing.
pub cirq_add_solo :
    (q : Cirq) (m : Mem) (x : ℕ)
    → let (r, q', m') = cirq_add q m x in
      Reach (at_rest q m) (record (at_rest q m) {
        q = q';
        buf = m' (queue q);
        sent = elim r [ success ↦ x ∷ [] | _ ↦ [] ];
      })
unfolding cirq_add
cirq_add_solo q m x = elim (Bool-cases (cirq_full q)) [
  | inl full ↦ rw full here
  | inr free ↦
      rw (free, update_self m (queue q) (set (m (queue q)) q.head x))
        (next (next (next here (add_room x refl free)) (add_store x refl)) (add_publish x refl))
]

-- A whole `cirq_get` is a run of the consumer's steps: it reaches the queue that `cirq_get` returns, and what it has received
-- is the word returned, or nothing from an empty queue.
pub cirq_get_solo :
    (q : Cirq) (m : Mem)
    → let (x, q') = cirq_get q m in
      Reach
        (at_rest q m)
        (record (at_rest q m) { q = q'; received = if cirq_empty q then [] else x ∷ [] })
unfolding cirq_get
cirq_get_solo q m = elim (Bool-cases (cirq_empty q)) [
  | inl empty ↦ rw empty here
  | inr held ↦
      rw held (next (next (next here (get_ready refl held)) (get_load refl)) (get_release _ refl))
]
