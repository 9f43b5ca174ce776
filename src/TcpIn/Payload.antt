-- ===== src/TcpIn/Payload.antt =====
-- `check_sequence_validation`, `handle_rst` and `process_tcp_payload`. Priorities are not read from
-- the payload, and there is no virtual server (USER_DEFINED_PRIORITY and DISABLE_SERVER are 0).
use qstack.Common.{
  ℕ, ◌+◌, Bool, true, false, ◌&&◌, ◌||◌, not, Option, none, some, ◌==◌, ltb, if◌then◌else◌, ◌>>=◌,
  u32, sub32, Ptr,
}
use qstack.Seq.{seq_leq, seq_gt, seq_between}
use qstack.RecvBuff.{rb_put}
use qstack.RecvBuff.Get.{rb_clear, rb_merged_len}
use qstack.Timer.{TcpState, timewait_list_add}
use qstack.Timer.Check.{is_established}
use qstack.TcpStream.Conn.{Conn, Env, with_timers, set_own}
use qstack.TcpStream.Life.{tcp_stream_destroy}
use qstack.TcpOut.Queues.{AckOpt, control_queue_add, enqueue_ack}
use qstack.TcpIn.Segment.{Segment, state_number}
use qstack.TcpIn.Events.{raise_read_event, raise_close_event}

abbrev pub is_time_wait : TcpState → Bool
is_time_wait TcpState.time_wait = true
is_time_wait _ = false

abbrev pub seg_end : Segment → ℕ
seg_end seg = u32 (seg.seq + seg.payloadlen)

abbrev pub in_window : Segment → Conn → Bool
in_window seg c =
    seq_between (seg_end seg) (c.vars).rcv_nxt (u32 ((c.vars).rcv_nxt + (c.vars).rcv_wnd))

-- What is sent back for a segment out of the window.
unfoldable pub answer_invalid : ℕ → Segment → Conn → Conn
answer_invalid cur_ts seg c =
    let opt =
      if (u32 (seg.seq + 1) == (c.vars).rcv_nxt) || seq_leq seg.seq (c.vars).rcv_nxt
      then AckOpt.aggregate
      else AckOpt.now in
    let again =
      if is_time_wait (c.own).state
      then with_timers (λ p t. (timewait_list_add p cur_ts t).1) c
      else c in
    if seg.rst
    then c
    else if is_established (c.own).state
    then (enqueue_ack opt c).1
    else (control_queue_add again).1

-- `true` for TRUE.
unfoldable pub check_sequence_validation : ℕ → Segment → Conn → Bool × Conn
check_sequence_validation cur_ts seg c =
    if in_window seg c then (true, c) else (false, answer_invalid cur_ts seg c)

abbrev pub app_closed : TcpState → Bool
app_closed TcpState.fin_wait_1 = true
app_closed TcpState.fin_wait_2 = true
app_closed TcpState.last_ack = true
app_closed TcpState.closing = true
app_closed TcpState.time_wait = true
app_closed _ = false

abbrev pub is_syn_rcvd : TcpState → Bool
is_syn_rcvd TcpState.syn_rcvd = true
is_syn_rcvd _ = false

abbrev pub end_stream : Env → ℕ → Conn → Option Conn
end_stream env reason c =
    tcp_stream_destroy env
      (set_own (record (c.own) { state = TcpState.closed; close_reason = reason }) c)

-- `true` for TRUE.
unfoldable pub handle_rst : Env → Segment → Conn → Option (Bool × Conn)
handle_rst env seg c =
    let refused = (do c' ← end_stream env 5 c; some (true, c')) in
    let ended = (do c' ← end_stream env 1 c; some (true, c')) in
    let told =
      raise_close_event env
        (set_own (record (c.own) { state = TcpState.close_wait; close_reason = 5 }) c) in
    if ltb (state_number (c.own).state) 3
    then some (false, c)
    else if is_syn_rcvd (c.own).state
    then (if seg.ack_seq == (c.own).snd_nxt then refused else some (true, c))
    else if app_closed (c.own).state
    then ended
    else if (c.vars).on_closeq || (c.vars).on_resetq
    then some (true, c)
    else some (true, told)

abbrev pub in_fin_wait : TcpState → Bool
in_fin_wait TcpState.fin_wait_1 = true
in_fin_wait TcpState.fin_wait_2 = true
in_fin_wait _ = false

-- The events of the payload: `ret` is that of `rb_put`, `none` for FAILED, which is negative.
unfoldable pub raise_payload : Env → Bool → Option ℕ → Conn → Conn
raise_payload env high ret c =
    let c1 = if high then raise_read_event env 1 c else c in
    let due : Bool = elim ret [ none ↦ false | some n ↦ ltb (if high then 1 else 0) n ] in
    if due then raise_read_event env 0 c1 else c1

-- The receive buffer with the packet in it, or emptied again when the application is gone.
unfoldable pub store_payload : Env → Ptr → Conn → Option (Option ℕ × Conn)
store_payload env mbuf c = do
  (ret, b, w) ← rb_put env.fuel c.rcv mbuf (c.host).machine
  let cleared = (do (b', s) ← rb_clear env.fuel b w.store; some (b', record w { store = s }))
  (b2, w2) ← (if in_fin_wait (c.own).state then cleared else some (b, w))
  some (
    ret,
    record c {
      rcv = b2;
      host = record (c.host) { machine = w2 };
      vars = record (c.vars) {
        rcv_nxt = b2.merged_next;
        rcv_wnd = sub32 b2.size (rb_merged_len b2);
      };
    },
  )

-- `none` for FAILED; FALSE is 0.
unfoldable pub process_tcp_payload : Env → Ptr → Segment → Conn → Option (Option ℕ × Conn)
process_tcp_payload env mbuf seg c =
    let stored = (do
      (ret, c1) ← store_payload env mbuf c
      let high = not (((((c1.host).machine).store).cell mbuf).priority == 0)
      (if seq_leq (c1.vars).rcv_nxt (c.vars).rcv_nxt && not high
          then some (some 0, c1)
          else if is_established (c1.own).state
          then some (ret, raise_payload env high ret c1)
          else some (ret, c1))) in
    if seq_leq (seg_end seg) (c.vars).rcv_nxt
    then some (none, c)
    else if seq_gt (seg_end seg) (u32 ((c.vars).rcv_nxt + (c.vars).rcv_wnd))
    then some (none, c)
    else stored
