-- ===== src/TcpStream/Life.antt =====
-- qstack/src/tcp_stream.c: a stream is created, closed by the application, and destroyed.
use qstack.Common.{
  ℕ, ◌+◌, Bool, true, false, Option, none, some, [], ◌∷◌, ◌==◌, if◌then◌else◌, ◌>>=◌, u32, sub32,
  Ptr, null,
}
use qstack.N21.{n21q_enqueue}
use qstack.SendBuff.{SendBuff, sb_init, sb_free}
use qstack.RecvBuff.{RecvBuff, rb_init}
use qstack.RecvBuff.Get.{rb_clear}
use qstack.Timer
use qstack.Timer.{TcpState, tcp_initial_rto}
use qstack.Timer.Check
use qstack.TcpStream.Conn.{
  Qtuple, PdevSt, Socket, HostCall, Host, Conn, Env, log, with_timers, set_vars,
}

-- The stream and its buffers behind `memset`, but for what the function then sets.
abbrev zeroed_stream : Ptr → Timer.Stream
zeroed_stream p = record {
  state = TcpState.closed;
  close_reason = 0;
  snd_nxt = 0;
  ts_rto = 0;
  last_active_ts = 0;
  ts_tw_expire = 0;
  on_rto_idx = 0;
  on_timeout_list = false;
  on_timewait_list = false;
  snd_una = 0;
  peer_wnd = 0;
  fss = 0;
  nrtx = 0;
  rto = 0;
  cwnd = 0;
  ssthresh = 0;
  mss = 0;
}

-- `struct socket` keeps the stream; of it only the identifier is used here. `blank_snd` and
-- `blank_rcv` are buffers of zero bytes.
unfoldable pub tcp_stream_create :
    Env → Host → SendBuff → RecvBuff → Option Socket → Qtuple → ℕ → Option Conn
tcp_stream_create env host blank_snd blank_rcv socket qtuple seq =
    let iss = u32 (env.rand) in
    let id_ : ℕ = elim socket [ none ↦ 0 | some s ↦ s.id ] in
    let created : Conn = record {
      self = env.chunk;
      own = record (zeroed_stream (env.chunk)) {
        state = TcpState.listen;
        on_rto_idx = 0;
        mss = 1460;
        snd_una = iss;
        rto = tcp_initial_rto;
        snd_nxt = iss;
      };
      vars = record {
        id = id_;
        qtuple = qtuple;
        rcv_nxt = seq;
        rcv_wnd = 14600;
        irs = seq;
        snd_wl1 = sub32 seq 1;
        snd_wl2 = 0;
        dup_acks = 0;
        last_ack_seq = 0;
        iss = iss;
        snd_wnd = 4;
        wscale_mine = 7;
        eff_mss = 1460;
        wscale_peer = 0;
        sack_permit = false;
        saw_timestamp = false;
        ts_recent = 0;
        ts_last_ts_upd = 0;
        ts_lastack_sent = 0;
        is_wack = false;
        is_fin_sent = false;
        ack_cnt = 0;
        on_control_queue = false;
        on_send_queue = false;
        on_ack_queue = false;
        on_closeq = false;
        on_resetq = false;
        have_reset = false;
        closed = false;
        control_list_waiting = false;
        socket = socket;
        pdev_st = PdevSt.empty;
        pending_events = [];
      };
      snd = sb_init env.sndbuf_size blank_snd (u32 (iss + 1));
      rcv = rb_init env.rcvbuf_size blank_rcv (u32 (seq + 1));
      host = record host {
        flow_cnt = u32 (host.flow_cnt + 1);
        host_calls = HostCall.ht_insert qtuple env.chunk ∷ host.host_calls;
      };
    } in
    if env.chunk == null then none else some created

abbrev pub may_close : TcpState → Bool
may_close TcpState.established = true
may_close TcpState.close_wait = true
may_close _ = false

-- `false` for the status -1; that of the queue is ignored.
unfoldable pub tcp_stream_close : ℕ → Conn → Bool × Conn
tcp_stream_close core_id c =
    let v = c.vars in
    let w = (c.host).machine in
    let (_, q, mem) = n21q_enqueue (c.host).close_queue w.mem core_id c.self in
    let c1 = set_vars (record v { closed = true }) c in
    let queued = record c {
      vars = record v { closed = true; on_closeq = true };
      host = record (c.host) { close_queue = q; machine = record w { mem = mem } };
    } in
    if v.closed then (true, c) else if may_close (c.own).state then (true, queued) else (false, c1)

unfoldable pub free_socket : Conn → Conn
free_socket c = elim ((c.vars).socket) [ none ↦ c | some s ↦ log (HostCall.socket_free s.id) c ]

-- The lists of the timers, the flow table, the buffers, the socket and the chunk.
unfoldable pub tcp_stream_destroy : Env → Conn → Option Conn
tcp_stream_destroy env c = do
  let c1 = with_timers Timer.Check.tcp_stream_destroy c
  let w = (c1.host).machine
  (_, snd', s1) ← sb_free env.fuel c1.snd w.store
  (rcv', s2) ← rb_clear env.fuel c1.rcv s1
  let c2 = record c1 {
    snd = snd';
    rcv = rcv';
    host = record (c1.host) {
      flow_cnt = sub32 (c1.host).flow_cnt 1;
      machine = record w { store = s2 };
      host_calls = HostCall.ht_delete (c.vars).qtuple ∷ (c1.host).host_calls;
    };
  }
  some (log (HostCall.free_chunk c.self) (free_socket c2))
