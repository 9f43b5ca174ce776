-- ===== src/Cirq/Spsc.antt =====
-- One producer in `cirq_add` and one consumer in `cirq_get` on the same queue, a shared access at
-- a time, in any order. Each function reads the other side's index once, then moves a word, then
-- publishes its own index; `_mm_sfence` keeps the two stores in that order.
pub mod Invariant
pub mod Solo
use qstack.Common.{ℕ, ◌≡◌, true, false, List, ◌∷◌, [], ◌++◌, get_or, set}
use qstack.Cirq.{Cirq, cirq_succ, cirq_full, cirq_empty}

-- Where `cirq_add` stands, with the word to be added.
pub data Producer : Type 0 where
  outside : Producer
  room : ℕ → Producer  -- behind the test of `cirq_full`
  stored : ℕ → Producer  -- behind the write of the slot

-- Where `cirq_get` stands, with its `ret`.
pub data Consumer : Type 0 where
  outside : Consumer
  ready : Consumer  -- behind the test of `cirq_empty`
  loaded : ℕ → Consumer  -- behind the read of the slot

-- `buf` is the array of the queue. `sent` and `received` are what `cirq_add` has accepted and
-- what `cirq_get` has returned, in order.
pub record State : Type 0 where
  pub q : Cirq
  pub buf : List ℕ
  pub producer : Producer
  pub consumer : Consumer
  pub sent : List ℕ
  pub received : List ℕ

pub data Step (s : State) : State → Type 0 where
  add_full : s.producer ≡ Producer.outside → cirq_full s.q ≡ true → Step s s
  add_room :
      (x : ℕ)
      → s.producer ≡ Producer.outside
      → cirq_full s.q ≡ false
      → Step s (record s { producer = room x })
  add_store :
      (x : ℕ)
      → s.producer ≡ room x
      → Step s (record s { buf = set s.buf s.q.head x; producer = stored x })
  add_publish :
      (x : ℕ)
      → s.producer ≡ stored x
      → Step s (record s {
        q = record (s.q) { head = cirq_succ s.q s.q.head };
        producer = Producer.outside;
        sent = s.sent ++ (x ∷ []);
      })
  get_empty : s.consumer ≡ Consumer.outside → cirq_empty s.q ≡ true → Step s s
  get_ready :
      s.consumer ≡ Consumer.outside
      → cirq_empty s.q ≡ false
      → Step s (record s { consumer = ready })
  get_load : s.consumer ≡ ready → Step s (record s { consumer = loaded (get_or s.buf s.q.tail 0) })
  get_release :
      (x : ℕ)
      → s.consumer ≡ loaded x
      → Step s (record s {
        q = record (s.q) { tail = cirq_succ s.q s.q.tail };
        consumer = Consumer.outside;
        received = s.received ++ (x ∷ []);
      })

pub data Reach (s : State) : State → Type 0 where
  here : Reach s s
  next : {t u : State} → Reach s t → Step t u → Reach s u
