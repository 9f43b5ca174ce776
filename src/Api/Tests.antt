-- ===== src/Api/Tests.antt =====
-- Socket 3 with an established stream at 500, of which 200 bytes wait, and socket 4 with an address.
use qstack.Common.{
  ℕ, ◌+◌, ◌*◌, ◌≡◌, refl, true, false, none, some, [], ◌∷◌, ◌==◌, if◌then◌else◌, arith, update,
  replicate, Ptr, null,
}
use qstack.Cirq.{Cirq}
use qstack.Cirq.Fifo
use qstack.Cirq.Fifo.{dir_contents}
use qstack.Mbuf.{MbufState, Mbuf, Store}
use qstack.Mbuf.Chain.{lens}
use qstack.N21.{N21, queue_at}
use qstack.N21.RoundRobin.{held}
use qstack.RecvBuff.{RecvBuff}
use qstack.RecvBuff.Get.Merged.{waits, Got}
use qstack.Timer.{TcpState}
use qstack.Sockets.{SockType, Entry, zeroed_entry, zeroed_table}
use qstack.Api.{ApiStream, World, App, Errno, Result, q_listen}
use qstack.Api.Streams.{Received, q_recv, q_close, close_stream}
use qstack.Api.Close.{HasStream, Again, q_close-Again, IsClosing, q_close-Closing}
use qstack.Api.Recv.{IsReadable, IsRead, q_recv_in_order}
use qstack.Api.Listen.{Listening, q_listen-Listening}

-- Packets of 100 bytes: 10 from 1000 on has been read, 20 from 1100 on has not.
abbrev packet : Ptr → Mbuf
packet p = record {
  tcp_seq = 900 + p * 10;
  payload_len = 100;
  priority = 0;
  mbuf_state = if p == 20 then MbufState.rbuffed else MbufState.rread;
  holding = 0;
  l4_len = 20;
  buf_next = null;
}

abbrev store : Store
store = record { cell = packet; released = [] }

abbrev no_words : Cirq
no_words = record { head = 0; d_queue = replicate 8 null; size = 8; tail = 0 }

abbrev two_packets : Cirq
two_packets = record {
  head = 2;
  d_queue = 10 ∷ 20 ∷ 0 ∷ 0 ∷ 0 ∷ 0 ∷ 0 ∷ 0 ∷ [];
  size = 8;
  tail = 0;
}

-- One queue for each of two cores.
abbrev two_cores : N21
two_cores = record {
  queue_num = 2;
  queue_point = 0;
  queues =
      record { head = 0; d_queue = 100 ∷ []; size = 2; tail = 0 }
      ∷ record { head = 0; d_queue = 200 ∷ []; size = 2; tail = 0 }
      ∷ [];
}

abbrev stream : ApiStream
stream = record {
  id = 3;
  state = TcpState.established;
  stack = 0;
  closed = false;
  on_closeq = false;
  socket = some 3;
  daddr = 33554442;
  dport = 80;
  rcvbuf = record {
    merged_q = two_packets;
    ooo_list = record { head = null; tail = null };
    high_q = no_words;
    size = 1400;
    init_seq = 1000;
    head_seq = 1000;
    merged_next = 1200;
  };
  rcv_wnd = 1200;
}

abbrev entries : ℕ → Entry
entries i =
    if i == 3
    then record zeroed_entry { id = i; socktype = SockType.stream; stream = 500 }
    else record zeroed_entry {
      id = i;
      socktype = SockType.stream;
      saddr = record { sin_port = 20480; sin_addr = 16777226 };
    }

abbrev world : World
world = record {
  table = record zeroed_table { sockets = entries };
  streams = λ p. if p == 500 then some stream else none;
  listener_at =
      λ p. record { sockid = 0; backlog = 0; port = 0; accept_point = 0; acceptq = λ i. two_cores };
  listeners = [];
  machine = record { store = store; mem = λ p. 0 ∷ 0 ∷ [] };
  close_queue = λ i. two_cores;
  connect_queue = λ i. two_cores;
}

abbrev app : App
app = record {
  app_id = 0;
  core_id = 1;
  app_thread = 1;
  config = record { max_socket_num = 8; max_stack_num = 2; stack_thread = 2; max_concurrency = 8 };
}

world-HasStream : HasStream app 3 world stream
world-HasStream = record { in_range = omega arith; socktype = refl; stream = refl }

world-IsReadable : IsReadable app 3 world stream
world-IsReadable = record {
  in_range = omega arith;
  has_stream = λ e. omega arith;
  stream = refl;
  state = refl;
  more = refl;
}

no_words-IsValid : Fifo.IsValid no_words
no_words-IsValid = record { fits = omega arith; head_in = omega arith; tail_in = omega arith }

two_packets-IsValid : Fifo.IsValid two_packets
two_packets-IsValid = record { fits = omega arith; head_in = omega arith; tail_in = omega arith }

of_core_one : Fifo.IsValid (queue_at two_cores 1)
of_core_one = record { fits = omega arith; head_in = omega arith; tail_in = omega arith }

q_close-Again_example : Again app 3 (q_close app 3 world)
q_close-Again_example = q_close-Again app 3 world stream world-HasStream

q_close-Closing_example :
    (w' : World) × (q_close app 3 world ≡ some (Result.ok tt, w'))
    × IsClosing app 500 stream 2 (held (λ p. 0 ∷ 0 ∷ []) two_cores 1) w'
q_close-Closing_example =
    q_close-Closing app 3 0 world stream world-HasStream refl refl (omega arith) of_core_one
      (omega arith) (λ e. omega arith) (λ e. omega arith)

q_recv_in_order_example :
    (r : Received) × (w' : World) × (b' : RecvBuff) × (st' : Store) × (q_recv app 3 world
      ≡ some (r, w'))
    × IsRead 500 20 stream b' r w'
    × Got (waits store) (lens store) (10 ∷ 20 ∷ []) stream.rcvbuf store 20 b' st'
q_recv_in_order_example =
    q_recv_in_order app 3 world stream world-IsReadable no_words-IsValid refl two_packets-IsValid
      ((λ e. omega arith), ((λ e. omega arith), tt)) refl

q_listen-Listening_example :
    Listening 20480
      (record { listener = 700; sockid = 4 })
      world
      (q_listen 700 (λ i j. 800) (λ p. p) app 4 2 world)
q_listen-Listening_example = q_listen-Listening 700 (λ i j. 800) (λ p. p) app 4 2 world

-- A stream that is still opening: the first close fails, and it is closed for ever.
abbrev opening : World
opening = record world {
  streams = λ p. if p == 500 then some (record stream { state = TcpState.syn_rcvd }) else none;
}

failed_close :
    q_close app 3 opening
    ≡ some (
      Result.fail Errno.ebadf,
      record opening {
        streams =
            update opening.streams 500
              (some (record stream { state = TcpState.syn_rcvd; closed = true }));
      },
    )
unfolding q_close close_stream
failed_close = refl
