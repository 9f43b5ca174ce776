-- ===== src/SendBuff/Tests.antt =====
-- A concrete send buffer, and the theorems on it.
use qstack.Common.{◌+◌, ◌≤◌, ◌≡◌, ◌≢◌, refl, some, [], ◌∷◌, arith, null, replicate}
use qstack.Cirq.{Cirq, success}
use qstack.Cirq.Fifo
use qstack.Cirq.Fifo.{dir_contents}
use qstack.Mbuf.{Store}
use qstack.Mbuf.Tests.{store, three, three-IsList}
use qstack.SendBuff.{SendBuff, sb_len, sb_put, to_put, sb_remove_acked}
use qstack.SendBuff.Acked.{Removed, sb_remove_acked_lem}
use qstack.SendBuff.Put.{IsSound, sb_put-IsSound}

abbrev no_words : Cirq
no_words = record { head = 0; d_queue = replicate 8 null; size = 8; tail = 0 }

abbrev no_room : Cirq
no_room = record { head = 7; d_queue = replicate 8 9; size = 8; tail = 0 }

-- Three hundred bytes from 1000 on are under way.
abbrev pub under_way : SendBuff
under_way = record {
  usnd_q = no_words;
  husnd_q = no_words;
  uack_list = three;
  retrans_list = record { head = null; tail = null };
  size = 1400;
  head_seq = 1000;
  next_seq = 1300;
}

under_way-IsSound : IsSound under_way
unfolding sb_len
under_way-IsSound = record {
  small = omega arith;
  head = omega arith;
  next = omega arith;
  fits = omega arith;
}

-- An acknowledgement of the first two segments and half of the third.
sb_remove_acked_lem_example :
    (b' : SendBuff) × (s' : Store) × (sb_remove_acked 4 under_way 1250 store
      ≡ some (success, b', s'))
    × Removed under_way 1250 store (10 ∷ 20 ∷ 30 ∷ []) [] b' s'
sb_remove_acked_lem_example =
    sb_remove_acked_lem 4 under_way 1250 store (10 ∷ 20 ∷ 30 ∷ []) [] three-IsList
      (record { chain = refl; end = refl }) (λ q h. refl) (omega arith) (omega arith)

sb_put-IsSound_example :
    let b' = (sb_put under_way 40 store).1 in
    IsSound b' × (sb_len b' ≡ sb_len under_way + 100) × (100 ≤ 100)
unfolding sb_len
sb_put-IsSound_example = sb_put-IsSound under_way 40 store under_way-IsSound

no_words-IsValid : Fifo.IsValid no_words
no_words-IsValid = record { fits = omega arith; head_in = omega arith; tail_in = omega arith }

hundred : to_put under_way 100 ≢ 0
unfolding sb_len
hundred e = omega arith
