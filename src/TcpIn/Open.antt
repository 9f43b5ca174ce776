-- ===== src/TcpIn/Open.antt =====
-- How a connection is opened: `handle_passive_open`, `handle_active_open`, `CreateNewFlowHTEntry`,
-- and the handlers of LISTEN, SYN_SENT and SYN_RCVD. `send_tcp_packet_standalone` of tcp_out.c ends
-- the process in its first statement, so that wherever it is called the result is `none`.
use qstack.Common.{
  ℕ, ◌+◌, ◌*◌, Bool, true, false, ◌&&◌, ◌||◌, not, Option, none, some, ◌∷◌, ◌==◌, if◌then◌else◌,
  ◌>>=◌, u32, sub32,
}
use qstack.Seq.{seq_leq, seq_gt}
use qstack.SendBuff.{SendBuff}
use qstack.RecvBuff.{RecvBuff}
use qstack.RecvBuff.Get.{rb_update_seq}
use qstack.Timer.{TcpState, rto_list_remove, timeout_list_add}
use qstack.TcpOptions.{parse_tcp_options}
use qstack.TcpStream.Conn.{
  Qtuple, Socket, HostCall, Host, Conn, Env, log, with_timers, set_own, peer_of, set_peer,
}
use qstack.TcpStream.Life.{tcp_stream_create, tcp_stream_destroy}
use qstack.TcpOut.Queues.{control_queue_add}
use qstack.TcpIn.Segment.{Segment}
use qstack.TcpIn.Events.{raise_write_event, raise_error_event, raise_accept_event}

unfoldable pub read_options : ℕ → Segment → Conn → Option Conn
read_options cur_ts seg c = do
  o ← parse_tcp_options cur_ts seg.options seg.options_len (peer_of c)
  some (set_peer o c)

-- The address and the port of the only listener.
abbrev pub syn_packet_filter : Env → Qtuple → Bool
syn_packet_filter env q = (q.ip_src == env.ip_addr) && (q.port_src == env.listen_port)

-- A socket that `socket_alloc` does not give is a NULL pointer that is followed.
unfoldable pub handle_passive_open :
    Env → ℕ → Qtuple → Segment → SendBuff → RecvBuff → Host → Option Conn
handle_passive_open env cur_ts q seg blank_snd blank_rcv host = do
  s ← env.new_socket
  let host1 = record host { host_calls = HostCall.socket_alloc ∷ host.host_calls }
  c ←
      tcp_stream_create env host1 blank_snd blank_rcv (some (record s { default_app = 255 })) q
        seg.seq
  let c1 = with_timers (λ p t. (timeout_list_add p cur_ts t).1) c
  read_options cur_ts seg (set_own (record (c1.own) { peer_wnd = seg.window; cwnd = 10 }) c1)

unfoldable pub handle_active_open : ℕ → Segment → Conn → Option Conn
unfolding read_options
handle_active_open cur_ts seg c = do
  let rcv_nxt = u32 (seg.seq + 1)
  let c1 = record c {
    own = record (c.own) { snd_nxt = seg.ack_seq; peer_wnd = seg.window };
    vars = record (c.vars) {
      irs = seg.seq;
      snd_wl1 = sub32 seg.seq 1;
      rcv_nxt = rcv_nxt;
      last_ack_seq = seg.ack_seq;
    };
    rcv = rb_update_seq c.rcv rcv_nxt;
  }
  c2 ← read_options cur_ts seg c1
  let v = c2.own
  let c3 =
      set_own
        (record v {
          cwnd = if v.cwnd == 1 then v.mss * 2 else v.mss;
          ssthresh = v.mss * 10;
          nrtx = 0;
        })
        c2
  let c4 = with_timers (λ p t. (rto_list_remove p t).1) c3
  some (set_own (record (c4.own) { state = TcpState.established }) c4)

-- What becomes of a SYN without a stream: `some none` for NULL.
unfoldable pub create_new_flow_ht_entry :
    Env → ℕ → Qtuple → Segment → SendBuff → RecvBuff → Host → Option (Option Conn)
create_new_flow_ht_entry env cur_ts q seg blank_snd blank_rcv host =
    let opened = (do
      c ← handle_passive_open env cur_ts q seg blank_snd blank_rcv host
      some (some c)) in
    if seg.syn && not seg.ack
    then (if syn_packet_filter env q then opened else none)
    else if seg.rst
    then some none
    else none

abbrev pub is_listen : TcpState → Bool
is_listen TcpState.listen = true
is_listen _ = false

unfoldable pub handle_tcp_st_listen : Segment → Conn → Conn
handle_tcp_st_listen seg c =
    let rcv_nxt = (c.vars).rcv_nxt in
    let next = if is_listen (c.own).state then u32 (rcv_nxt + 1) else rcv_nxt in
    let c1 = record c {
      own = record (c.own) { state = TcpState.syn_rcvd };
      vars = record (c.vars) { rcv_nxt = next };
    } in
    if seg.syn then (control_queue_add c1).1 else c

abbrev pub has_socket : Option Socket → Bool
has_socket none = false
has_socket (some s) = true

abbrev pub refused_open : Env → Conn → Option Conn
refused_open env c =
    let c1 = set_own (record (c.own) { state = TcpState.close_wait; close_reason = 5 }) c in
    if has_socket (c.vars).socket
    then some (raise_error_event env c1)
    else tcp_stream_destroy env c1

-- A SYN that acknowledges ours.
unfoldable pub complete_open : Env → ℕ → Segment → Conn → Option Conn
complete_open env cur_ts seg c = do
  c1 ← handle_active_open cur_ts seg c
  (if has_socket (c1.vars).socket
      then some (
          with_timers (λ p t. (timeout_list_add p cur_ts t).1)
            (control_queue_add (raise_write_event env c1)).1)
      else none)

-- A SYN that does not.
unfoldable pub simultaneous_open : Conn → Conn
simultaneous_open c =
    (control_queue_add
      (set_own (record (c.own) { state = TcpState.syn_rcvd; snd_nxt = (c.vars).iss }) c)).1

-- The number acknowledged does not lie behind `iss` and up to `snd_nxt`.
abbrev pub unacceptable : Segment → Conn → Bool
unacceptable seg c = seq_leq seg.ack_seq (c.vars).iss || seq_gt seg.ack_seq (c.own).snd_nxt

unfoldable pub handle_tcp_st_syn_sent : Env → ℕ → Segment → Conn → Option Conn
handle_tcp_st_syn_sent env cur_ts seg c =
    let c1 =
      if seg.ack then set_own (record (c.own) { snd_una = u32 ((c.own).snd_una + 1) }) c else c in
    if seg.ack && unacceptable seg c
    then (if seg.rst then some c else none)
    else if seg.rst
    then (if seg.ack then refused_open env c1 else some c1)
    else if not seg.syn
    then some c1
    else if seg.ack
    then complete_open env cur_ts seg c1
    else some (simultaneous_open c1)

-- The acknowledgement of our SYN.
unfoldable pub accept_open : Env → Segment → Conn → Option Conn
accept_open env seg c =
    let v = c.own in
    let c1 = record c {
      own = record v {
        snd_una = u32 (v.snd_una + 1);
        snd_nxt = seg.ack_seq;
        cwnd = if v.cwnd == 1 then v.mss * 2 else v.mss;
        nrtx = 0;
      };
      vars = record (c.vars) { rcv_nxt = u32 ((c.vars).irs + 1) };
    } in
    let c2 = log HostCall.ml_ts_reset (with_timers (λ p t. (rto_list_remove p t).1) c1) in
    raise_accept_event env (set_own (record (c2.own) { state = TcpState.established }) c2)

unfoldable pub handle_tcp_st_syn_rcvd : Env → Segment → Conn → Option Conn
handle_tcp_st_syn_rcvd env seg c =
    let resend = (control_queue_add (set_own (record (c.own) { snd_nxt = (c.vars).iss }) c)).1 in
    if not seg.ack
    then some resend
    else if seg.ack_seq == u32 ((c.vars).iss + 1)
    then accept_open env seg c
    else some c
