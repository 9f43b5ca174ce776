-- ===== src/RecvBuff/Tests.antt =====
-- A concrete receive buffer, and the theorems on it.
use qstack.Common.{
  ℕ, List, ◌≢◌, ◌+◌, ◌*◌, ◌≡◌, refl, some, [], ◌∷◌, ◌==◌, if◌then◌else◌, arith, Ptr, null,
  replicate,
}
use qstack.Cirq.{Cirq}
use qstack.Cirq.Fifo
use qstack.Cirq.Fifo.{dir_contents}
use qstack.Mbuf.{MbufState, Mbuf, Store}
use qstack.Mbuf.Chain.{lens}
use qstack.Seq.{seq_gt, seq_leq}
use qstack.Mbuf.{MbufList}
use qstack.Mbuf.Chain.{IsList}
use qstack.RecvBuff.{before, ooo_insert}
use qstack.RecvBuff.Waiting.{Placed, ooo_insert-Placed}
use qstack.RecvBuff.Order.{Ordered, ooo_insert-Ordered}
use qstack.RecvBuff.{RecvBuff, Machine, rb_put}
use qstack.RecvBuff.Get.{rb_get}
use qstack.RecvBuff.Get.Merged.{waits, Got, rb_get_in_order}
use qstack.RecvBuff.Put.{rb_put_in_order}

-- Packets of 100 bytes: 10 from 1000 on has been read, 20 from 1100 on has not, 30 comes next.
abbrev packet : Ptr → Mbuf
packet p = record {
  tcp_seq = 900 + p * 10;
  payload_len = 100;
  priority = 0;
  mbuf_state = if p == 20 then MbufState.rbuffed else MbufState.rread;
  holding = 0;
  l4_len = 20;
  buf_next = null;
}

abbrev store : Store
store = record { cell = packet; released = [] }

abbrev no_words : Cirq
no_words = record { head = 0; d_queue = replicate 8 null; size = 8; tail = 0 }

abbrev two_packets : Cirq
two_packets = record {
  head = 2;
  d_queue = 10 ∷ 20 ∷ 0 ∷ 0 ∷ 0 ∷ 0 ∷ 0 ∷ 0 ∷ [];
  size = 8;
  tail = 0;
}

abbrev buffer : RecvBuff
buffer = record {
  merged_q = two_packets;
  ooo_list = record { head = null; tail = null };
  high_q = no_words;
  size = 1400;
  init_seq = 1000;
  head_seq = 1000;
  merged_next = 1200;
}

no_words-IsValid : Fifo.IsValid no_words
no_words-IsValid = record { fits = omega arith; head_in = omega arith; tail_in = omega arith }

two_packets-IsValid : Fifo.IsValid two_packets
two_packets-IsValid = record { fits = omega arith; head_in = omega arith; tail_in = omega arith }

rb_get_in_order_example :
    (p : Ptr) × (b' : RecvBuff) × (s' : Store) × (rb_get buffer store ≡ some (p, b', s'))
    × Got (waits store) (lens store) (10 ∷ 20 ∷ []) buffer store p b' s'
rb_get_in_order_example =
    rb_get_in_order buffer store no_words-IsValid refl two_packets-IsValid
      ((λ e. omega arith), ((λ e. omega arith), tt)) refl

rb_put_in_order_example :
    (b' : RecvBuff) × (w' : Machine) × (rb_put 1 buffer 30 (record { store = store; mem = λ p. [] })
      ≡ some (some 1, b', w'))
    × (dir_contents b'.merged_q ≡ (Fifo.push 7 (10 ∷ 20 ∷ []) 30).1)
    × (b'.merged_next ≡ 1300)
    × (b'.head_seq ≡ 1000)
    × ((w'.store.cell 30).mbuf_state ≡ MbufState.rbuffed)
unfolding seq_gt
rb_put_in_order_example =
    rb_put_in_order 0 buffer 30 (record { store = store; mem = λ p. [] }) two_packets-IsValid
      (omega arith) refl refl refl refl

-- 10 and 30 wait, with a gap between them that 20 fits into.
abbrev gap : Store
gap = record {
  cell = λ p. record (packet p) { buf_next = if p == 10 then 30 else null };
  released = [];
}

abbrev waiting : MbufList
waiting = record { head = 10; tail = 30 }

ne10 : 10 ≢ null
ne10 e = omega arith

ne20 : 20 ≢ null
ne20 e = omega arith

ne30 : 30 ≢ null
ne30 e = omega arith

waiting-IsList : IsList gap waiting (10 ∷ 30 ∷ [])
waiting-IsList = record { chain = (refl, ne10, refl, (refl, ne30, refl, refl)); end = refl }

ooo_insert-Placed_example :
    (r : ℕ × MbufList × Store) × (ooo_insert 3 waiting 20 gap ≡ some r)
    × Placed gap waiting [] (some (10 ∷ 20 ∷ 30 ∷ [])) r
unfolding seq_leq
ooo_insert-Placed_example =
    ooo_insert-Placed 3 gap waiting 10 (30 ∷ []) 20 waiting-IsList refl ne20 refl (omega arith)

ooo_insert-Ordered_example :
    (r : ℕ × MbufList × Store) × (ys : List Ptr) × (ooo_insert 3 waiting 20 gap ≡ some r)
    × IsList r.2 r.1 ys
    × Ordered (before gap) ys
unfolding seq_leq
ooo_insert-Ordered_example =
    ooo_insert-Ordered 3 gap waiting 10 (30 ∷ []) 20 waiting-IsList (refl, tt) refl ne20 refl
      (omega arith)
