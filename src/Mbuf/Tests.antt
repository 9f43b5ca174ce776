-- ===== src/Mbuf/Tests.antt =====
-- Concrete packet buffers, and the theorems on lists of them.
use qstack.Common.{ℕ, ◌+◌, ◌*◌, ◌≢◌, refl, [], ◌∷◌, arith, Ptr, null, update}
use qstack.Mbuf.{MbufState, Mbuf, Store, MbufList}
use qstack.Mbuf.Chain.{IsList}

abbrev pub segment : ℕ → ℕ → Ptr → Mbuf
segment seq len next = record {
  tcp_seq = seq;
  payload_len = len;
  priority = 0;
  mbuf_state = MbufState.sent;
  holding = 0;
  l4_len = 20;
  buf_next = next;
}

-- 10, then 20, then 30, with 100 bytes each from 1000 on.
abbrev pub store : Store
store = record {
  cell = λ p. segment (900 + p * 10) 100 (update (update (λ p. null) 10 20) 20 30 p);
  released = [];
}

abbrev pub three : MbufList
three = record { head = 10; tail = 30 }

ne10 : 10 ≢ null
ne10 e = omega arith

ne20 : 20 ≢ null
ne20 e = omega arith

ne30 : 30 ≢ null
ne30 e = omega arith

pub three-IsList : IsList store three (10 ∷ 20 ∷ 30 ∷ [])
three-IsList = record {
  chain = (refl, ne10, refl, (refl, ne20, refl, (refl, ne30, refl, refl)));
  end = refl;
}
