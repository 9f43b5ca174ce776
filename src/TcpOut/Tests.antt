-- ===== src/TcpOut/Tests.antt =====
-- Concrete streams that send, and the theorems on them.
use qstack.Common.{◌+◌, arith, false, true, ◌≡◌, OnSome, refl, ◌≤◌, ◌*◌, ◌^◌}
use qstack.TcpStream.Conn.{Conn}
use qstack.Mbuf.Tests.{store, three}
use qstack.SendBuff.Tests.{under_way}
use qstack.TcpStream.Samples.{env, vars, stream, idle, host, no_list}
use qstack.TcpOptions.{calculate_option_length}
use qstack.TcpOut.Packet.{header, ack_flags, send_tcp_packet, ack_turn}
use qstack.TcpOut.Flush.{flush_tcp_sending_buffer}
use qstack.TcpOut.Acks.{Acknowledged}
use qstack.TcpOut.Acks.Turn.{ack_turn_lem}
use qstack.TcpOut.Advertise.{IsSent, send_tcp_packet_lem}
use qstack.TcpOut.Flush.Within.{Sends, flush_tcp_sending_buffer_within}

send_tcp_packet_lem_example :
    IsSent 10 ack_flags 100 stream (send_tcp_packet env 10 ack_flags 80 100 stream).1
    × ((header ack_flags 100 stream).window * 2 ^ 7 ≤ 14600)
    × ((header ack_flags 100 stream).window ≤ 65535)
    × (100 ≤ 1460)
unfolding send_tcp_packet calculate_option_length
send_tcp_packet_lem_example =
    send_tcp_packet_lem env 10 ack_flags 80 100 stream (omega arith) (omega arith) refl

-- Three packets from 1000 on are to be sent again.
abbrev resender : Conn
resender = record stream {
  own = record idle { snd_nxt = 1000; snd_una = 1000 };
  snd = record under_way { uack_list = no_list; retrans_list = three };
  host = record host { machine = record (host.machine) { store = store } };
}

flush_tcp_sending_buffer_within_example :
    OnSome (λ r. Sends 1000 1500 resender r.0 r.1) (flush_tcp_sending_buffer env 10 resender)
flush_tcp_sending_buffer_within_example = flush_tcp_sending_buffer_within env 10 resender

-- Two acknowledgements are counted for this stream, and it asks for a window.
abbrev acknowledger : Conn
acknowledger = record stream {
  vars = record vars { ack_cnt = 2; is_wack = true; on_ack_queue = true };
}

ack_turn_lem_example :
    let r = ack_turn env 10 acknowledger in
    (r.0 ≡ 2 + 1)
    × Acknowledged (2 + 1) acknowledger r.1
    × (((r.1).vars).ack_cnt ≡ 0)
    × (((r.1).vars).is_wack ≡ false)
    × (((r.1).vars).on_ack_queue ≡ false)
ack_turn_lem_example = ack_turn_lem env 10 (λ e. omega arith) refl acknowledger refl refl
