-- ===== src/TcpIn/Tests.antt =====
-- Concrete segments, and the theorems on them.
use qstack.Common.{ℕ, OnSome, refl, true, false, ◌≡◌, some, [], ◌∷◌, arith}
use qstack.Cirq.{failed}
use qstack.Seq.{seq_lt, seq_gt, seq_geq, seq_between}
use qstack.Mbuf.Tests.{store, three-IsList}
use qstack.SendBuff.{sb_len}
use qstack.SendBuff.Tests.{under_way}
use qstack.Timer.{TcpState}
use qstack.TcpStream.Conn.{Conn, set_own}
use qstack.TcpStream.Samples.{env, idle, vars, host, stream, ack_of, address}
use qstack.TcpIn.Ident.{ident}
use qstack.TcpIn.Ack.{data_ack, update_window, is_dup, process_tcp_ack}
use qstack.TcpIn.Acked.{Sending, Taken, store_of, process_tcp_ack_new}
use qstack.TcpIn.Duplicate.{Resent, process_tcp_ack_third}
use qstack.TcpIn.Invalid.{content, noted, process_tcp_packet_invalid}
use qstack.TcpIn.Packet.{process_stream, Lengths, Flow, process_tcp_packet}
use qstack.TcpIn.Moves.{Move}
use qstack.TcpIn.Moves.Packet.{process_stream_moves}

process_stream_moves_example :
    OnSome
      (λ r.
        Move
          (record (ack_of 7001 5000) { fin = true })
          (ident stream)
          5000
          TcpState.established
          (((r.1).own).state))
      (process_stream env 10 80 (record (ack_of 7001 5000) { fin = true }) stream)
process_stream_moves_example =
    process_stream_moves env 10 80 (record (ack_of 7001 5000) { fin = true }) stream

-- Three hundred bytes from 1000 on are under way, and `n` duplicates have been seen.
abbrev sender : ℕ → ℕ → Conn
sender n eff_mss = record stream {
  own = record idle { snd_nxt = 1300; snd_una = 1000 };
  vars = record vars {
    snd_wl1 = 7001;
    snd_wl2 = 1000;
    last_ack_seq = 1000;
    dup_acks = n;
    eff_mss = eff_mss;
  };
  snd = under_way;
  host = record host { machine = record (host.machine) { store = store } };
}

sender-Sending : Sending env (sender 0 1460).snd (store_of (sender 0 1460)) (10 ∷ 20 ∷ 30 ∷ []) []
sender-Sending = record {
  uack = three-IsList;
  retrans = record { chain = refl; end = refl };
  apart = λ q h. refl;
  uack_fuel = omega arith;
  retrans_fuel = omega arith;
}

process_tcp_ack_new_example :
    let c = sender 0 1460 in
    (c' : Conn) × (process_tcp_ack env 10 (ack_of 7001 1250) c ≡ some c')
    × Taken c.snd (store_of c) (data_ack (ack_of 7001 1250) c) (10 ∷ 20 ∷ 30 ∷ []) [] c'
    × ((c'.vars).dup_acks ≡ 0)
    × ((c'.vars).last_ack_seq ≡ data_ack (ack_of 7001 1250) c)
unfolding data_ack sb_len seq_gt seq_geq
process_tcp_ack_new_example =
    process_tcp_ack_new env 10 (ack_of 7001 1250) (sender 0 1460) (10 ∷ 20 ∷ 30 ∷ []) []
      sender-Sending (omega arith) (omega arith) refl refl (omega arith)

process_tcp_ack_third_example :
    let c = sender 2 1460 in
    (c' : Conn) × (process_tcp_ack env 10 (ack_of 7001 1000) c ≡ some c')
    × Resent c.snd (store_of c) (data_ack (ack_of 7001 1000) c) (10 ∷ 20 ∷ 30 ∷ []) c'
    × ((c'.vars).dup_acks ≡ 3)
unfolding data_ack update_window is_dup sb_len seq_lt seq_gt seq_geq
process_tcp_ack_third_example =
    process_tcp_ack_third env 10 (ack_of 7001 1000) (sender 2 1460) 10 (20 ∷ 30 ∷ []) three-IsList
      refl (omega arith) refl refl refl refl

-- The lengths of a packet without payload.
abbrev bare : Lengths
bare = record { ip_len = 40; ihl = 5; doff = 5; l3_len = 20 }

-- A keepalive probe.
process_tcp_packet_invalid_example :
    let c1 = noted 80 bare (ack_of 7000 5000) stream in
    (c' : Conn) × (process_tcp_packet env 10 80 bare address
        (ack_of 7000 5000)
        stream.snd
        stream.rcv
        (Flow.hit stream)
      ≡ some (failed, Flow.hit c'))
    × (content c' ≡ content c1)
    × (false ≡ true → c' ≡ set_own (record (c1.own) { last_active_ts = 10 }) c1)
unfolding seq_between
process_tcp_packet_invalid_example =
    process_tcp_packet_invalid env 10 80 bare address (ack_of 7000 5000) stream.snd stream.rcv
      stream refl refl refl refl
