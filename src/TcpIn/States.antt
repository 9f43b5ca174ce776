-- ===== src/TcpIn/States.antt =====
-- The handlers of the states in which a connection is open or being closed.
use qstack.Common.{
  ℕ, ◌+◌, Bool, true, false, ◌&&◌, not, Option, none, some, ◌==◌, if◌then◌else◌, ◌>>=◌, u32, Ptr,
}
use qstack.Seq.{seq_lt, seq_gt}
use qstack.Timer.{TcpState, rto_list_remove, timewait_list_add, timewait_list_remove}
use qstack.TcpStream.Conn.{Conn, Env, with_timers, set_own, set_vars}
use qstack.TcpOut.Queues.{AckOpt, control_queue_add, enqueue_ack}
use qstack.TcpIn.Segment.{Segment}
use qstack.TcpIn.Events.{raise_read_event}
use qstack.TcpIn.Ack.{process_tcp_ack}
use qstack.TcpIn.Payload.{seg_end, end_stream, process_tcp_payload}

abbrev pub move_to : TcpState → Conn → Conn
move_to st c = set_own (record (c.own) { state = st }) c

-- The FIN is the next byte: it takes one number.
abbrev pub take_fin : Conn → Conn
take_fin c = set_vars (record (c.vars) { rcv_nxt = u32 ((c.vars).rcv_nxt + 1) }) c

abbrev pub wait_2msl : ℕ → Conn → Conn
wait_2msl cur_ts c = with_timers (λ p t. (timewait_list_add p cur_ts t).1) c

abbrev pub to_control : Conn → Conn
to_control c = (control_queue_add c).1

unfoldable pub handle_tcp_st_close_wait : Env → ℕ → Segment → Conn → Option Conn
handle_tcp_st_close_wait env cur_ts seg c =
    let acked = process_tcp_ack env cur_ts seg c in
    if seq_lt seg.seq (c.vars).rcv_nxt then some (to_control c) else acked

-- Our FIN has been sent, and the segment acknowledges it.
abbrev pub acks_fin : Segment → Conn → Bool
acks_fin seg c = (c.vars).is_fin_sent && (seg.ack_seq == u32 ((c.own).fss + 1))

unfoldable pub handle_tcp_st_last_ack : Env → ℕ → Segment → Conn → Option Conn
handle_tcp_st_last_ack env cur_ts seg c =
    let acked = (do
      c1 ← process_tcp_ack env cur_ts seg c
      let over =
          end_stream env 2 (set_own (record (c1.own) { snd_una = u32 ((c1.own).snd_una + 1) }) c1)
      (if not (c1.vars).is_fin_sent
          then some c1
          else if seg.ack_seq == u32 ((c1.own).fss + 1)
          then over
          else some (to_control c1))) in
    if seq_lt seg.seq (c.vars).rcv_nxt
    then some c
    else if seg.ack
    then acked
    else some (to_control c)

-- The return value of `process_tcp_payload` as a condition: FAILED is not 0, and holds.
abbrev pub holds : Option ℕ → Bool
holds none = true
holds (some n) = not (n == 0)

-- `0 < ret`.
abbrev pub positive : Option ℕ → Bool
positive none = false
positive (some n) = not (n == 0)

-- The payload of a segment and the acknowledgement that is put down for it.
unfoldable pub take_payload : Env → (Option ℕ → Bool) → Ptr → Segment → Conn → Option Conn
take_payload env test mbuf seg c =
    let taken = (do
      (ret, c1) ← process_tcp_payload env mbuf seg c
      some (enqueue_ack (if test ret then AckOpt.aggregate else AckOpt.now) c1).1) in
    if seg.payloadlen == 0 then some c else taken

-- The part of FIN_WAIT_1 behind `process_tcp_ack`.
unfoldable pub enter_fin_wait_2 : Segment → Conn → Conn
enter_fin_wait_2 seg c =
    let v = c.own in
    let nxt = if seq_gt seg.ack_seq v.snd_nxt then seg.ack_seq else v.snd_nxt in
    let c1 = set_own (record v { snd_una = seg.ack_seq; snd_nxt = nxt; nrtx = 0 }) c in
    if acks_fin seg c
    then move_to TcpState.fin_wait_2 (with_timers (λ p t. (rto_list_remove p t).1) c1)
    else c

-- The state behind the FIN of the peer.
unfoldable pub after_fin : ℕ → TcpState → Conn → Conn
after_fin cur_ts TcpState.fin_wait_1 c = move_to TcpState.closing c
after_fin cur_ts TcpState.fin_wait_2 c = wait_2msl cur_ts (move_to TcpState.time_wait c)
after_fin cur_ts _ c = c

-- The FIN of FIN_WAIT_1.
unfoldable pub fin_wait_1_fin : ℕ → Segment → Conn → Conn
fin_wait_1_fin cur_ts seg c =
    if seg.fin && (seg_end seg == (c.vars).rcv_nxt)
    then to_control (after_fin cur_ts (c.own).state (take_fin c))
    else c

unfoldable pub handle_tcp_st_fin_wait_1 : Env → ℕ → Ptr → Segment → Conn → Option Conn
handle_tcp_st_fin_wait_1 env cur_ts mbuf seg c =
    let acked = (do
      c1 ← process_tcp_ack env cur_ts seg c
      c2 ← take_payload env holds mbuf seg (enter_fin_wait_2 seg c1)
      some (fin_wait_1_fin cur_ts seg c2)) in
    if seq_lt seg.seq (c.vars).rcv_nxt
    then some (to_control c)
    else if seg.ack
    then acked
    else some c

unfoldable pub fin_wait_2_fin : ℕ → Segment → Conn → Conn
fin_wait_2_fin cur_ts seg c =
    if seg.fin && (seg_end seg == (c.vars).rcv_nxt)
    then to_control (wait_2msl cur_ts (take_fin (move_to TcpState.time_wait c)))
    else c

unfoldable pub handle_tcp_st_fin_wait_2 : Env → ℕ → Ptr → Segment → Conn → Option Conn
handle_tcp_st_fin_wait_2 env cur_ts mbuf seg c =
    let acked = (do
      c1 ← process_tcp_ack env cur_ts seg c
      c2 ← take_payload env holds mbuf seg c1
      some (fin_wait_2_fin cur_ts seg c2)) in
    if seg.ack then acked else some c

unfoldable pub enter_time_wait : ℕ → Segment → Conn → Conn
enter_time_wait cur_ts seg c =
    if acks_fin seg c
    then wait_2msl cur_ts (
        set_own
          (record (c.own) {
            snd_una = seg.ack_seq;
            snd_nxt = seg.ack_seq;
            state = TcpState.time_wait;
          })
          c)
    else c

unfoldable pub handle_tcp_st_closing : Env → ℕ → Segment → Conn → Option Conn
handle_tcp_st_closing env cur_ts seg c =
    let acked = (do c1 ← process_tcp_ack env cur_ts seg c; some (enter_time_wait cur_ts seg c1)) in
    if seg.ack then acked else some c

unfoldable pub established_fin : Env → Segment → Conn → Conn
established_fin env seg c =
    if not seg.fin
    then c
    else if seg_end seg == (c.vars).rcv_nxt
    then to_control (take_fin (move_to TcpState.close_wait (raise_read_event env 0 c)))
    else (enqueue_ack AckOpt.now c).1

unfoldable pub handle_tcp_st_established : Env → ℕ → Ptr → Segment → Conn → Option Conn
handle_tcp_st_established env cur_ts mbuf seg c =
    let open_ = (do
      c1 ← take_payload env positive mbuf seg c
      let acked = process_tcp_ack env cur_ts seg c1
      c2 ← (if seg.ack then acked else some c1)
      some (established_fin env seg c2)) in
    if seg.syn then some (to_control c) else open_

-- TIME_WAIT has no handler of its own in the source.
unfoldable pub time_wait_again : ℕ → Conn → Conn
time_wait_again cur_ts c =
    let again = wait_2msl cur_ts (with_timers (λ p t. (timewait_list_remove p t).1) c) in
    to_control (if (c.own).on_timewait_list then again else c)
