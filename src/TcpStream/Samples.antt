-- ===== src/TcpStream/Samples.antt =====
-- A concrete stream, in a stack that has nothing else to do.
use qstack.Common.{ℕ, false, true, some, [], replicate, null, ◌∷◌}
use qstack.Cirq.{Cirq, success}
use qstack.N21.{N21}
use qstack.Mbuf.{MbufState, MbufList, Mbuf}
use qstack.SendBuff.{SendBuff}
use qstack.RecvBuff.{RecvBuff}
use qstack.Timer
use qstack.Timer.{TcpState, Timers}
use qstack.TcpStream.Conn.{Qtuple, PdevSt, Vars, Host, Conn, Env}
use qstack.TcpIn.Segment.{Segment}

abbrev pub no_words : Cirq
no_words = record { head = 0; d_queue = replicate 8 null; size = 8; tail = 0 }

abbrev pub no_list : MbufList
no_list = record { head = null; tail = null }

abbrev pub no_streams : N21
no_streams = record { queue_num = 2; queue_point = 0; queues = no_words ∷ no_words ∷ [] }

abbrev pub idle : Timer.Stream
idle = record {
  state = TcpState.established;
  close_reason = 0;
  snd_nxt = 5000;
  ts_rto = 0;
  last_active_ts = 0;
  ts_tw_expire = 0;
  on_rto_idx = 0;
  on_timeout_list = false;
  on_timewait_list = false;
  snd_una = 5000;
  peer_wnd = 60000;
  fss = 0;
  nrtx = 0;
  rto = 500;
  cwnd = 1460;
  ssthresh = 14600;
  mss = 1460;
}

abbrev pub address : Qtuple
address = record { ip_src = 16777226; port_src = 80; ip_dst = 33554442; port_dst = 4000 }

abbrev pub vars : Vars
vars = record {
  id = 3;
  qtuple = address;
  rcv_nxt = 7001;
  rcv_wnd = 14600;
  irs = 7000;
  snd_wl1 = 6999;
  snd_wl2 = 0;
  dup_acks = 0;
  last_ack_seq = 5000;
  iss = 4999;
  snd_wnd = 4;
  wscale_mine = 7;
  eff_mss = 1460;
  wscale_peer = 0;
  sack_permit = false;
  saw_timestamp = false;
  ts_recent = 0;
  ts_last_ts_upd = 0;
  ts_lastack_sent = 0;
  is_wack = false;
  is_fin_sent = false;
  ack_cnt = 0;
  on_control_queue = false;
  on_send_queue = false;
  on_ack_queue = false;
  on_closeq = false;
  on_resetq = false;
  have_reset = false;
  closed = false;
  control_list_waiting = false;
  socket = some (record { id = 3; default_app = 255; qe = true });
  pdev_st = PdevSt.empty;
  pending_events = [];
}

abbrev pub sent_nothing : SendBuff
sent_nothing = record {
  usnd_q = no_words;
  husnd_q = no_words;
  uack_list = no_list;
  retrans_list = no_list;
  size = 14000;
  head_seq = 5000;
  next_seq = 5000;
}

abbrev pub got_nothing : RecvBuff
got_nothing = record {
  merged_q = no_words;
  ooo_list = no_list;
  high_q = no_words;
  size = 14000;
  init_seq = 7001;
  head_seq = 7001;
  merged_next = 7001;
}

abbrev pub packet : Mbuf
packet = record {
  tcp_seq = 7001;
  payload_len = 100;
  priority = 0;
  mbuf_state = MbufState.rcved;
  holding = 0;
  l4_len = 20;
  buf_next = null;
}

abbrev pub host : Host
host = record {
  timers = record {
    stream = λ p. idle;
    rto_list = [];
    timewait_list = [];
    timeout_list = [];
    calls = [];
  };
  machine = record {
    store = record { cell = λ p. packet; released = [] };
    mem = λ p. replicate 8 null;
  };
  control_queue = no_words;
  ack_queue = no_words;
  send_event_queue = no_streams;
  send_hevent_queue = no_streams;
  close_queue = no_streams;
  acceptq = λ i. no_streams;
  flow_cnt = 1;
  host_calls = [];
}

abbrev pub stream : Conn
stream = record {
  self = 64;
  own = idle;
  vars = vars;
  snd = sent_nothing;
  rcv = got_nothing;
  host = host;
}

abbrev pub env : Env
env = record {
  stack_id = 0;
  stack_thread = 1;
  app_thread = 1;
  ip_addr = 16777226;
  listen_port = 80;
  listener_sockid = 1;
  listener_epollin = true;
  sndbuf_size = 10;
  rcvbuf_size = 10;
  chunk = 64;
  new_socket = some (record { id = 3; default_app = 0; qe = false });
  rand = 4999;
  add_time_event_fails = λ e. false;
  app_has_qstack = λ a. false;
  qe_after = false;
  first_look = PdevSt.writen;
  second_look = PdevSt.writen;
  swmbuf = 90;
  generate_ip_packet = success;
  fuel = 20;
}

-- An empty acknowledgement of `ack_seq` at `seq`.
abbrev pub ack_of : ℕ → ℕ → Segment
ack_of seq ack_seq = record {
  seq = seq;
  ack_seq = ack_seq;
  window = 60000;
  payloadlen = 0;
  syn = false;
  ack = true;
  rst = false;
  fin = false;
  options = λ i. 0;
  options_len = 0;
}
