-- ===== src/Timer/Check.antt =====
-- The functions of qstack/src/include/timer.h that walk the lists, and what they do to a stream
-- that has expired. A walk takes only the stream it stands at off the lists, so that the streams
-- behind it are those behind it at the start.
use qstack.Common.{
  ℕ, ◌+◌, ◌*◌, ◌/◌, ◌%◌, ◌^◌, Bool, true, false, ◌||◌, not, Option, none, some, List, [], ◌∷◌, ◌==◌,
  leb, ltb, if◌then◌else◌, ◌>>=◌, min, u32, sub32, Ptr,
}
use qstack.Seq.{seq_lt}
use qstack.Timer.{
  TcpState, Stream, Call, Timers, put, call, remove, rto_list_remove, timewait_list_remove,
  timeout_list_remove, tcp_initial_rto, tcp_timeout, tcp_max_rtx, max_rto_batch,
}

abbrev pub active_close : ℕ
active_close = 1

abbrev pub conn_fail : ℕ
conn_fail = 3

abbrev pub conn_lost : ℕ
conn_lost = 4

-- The lists that a stream leaves first; the rest of the function is the call recorded.
unfoldable pub tcp_stream_destroy : Ptr → Timers → Timers
tcp_stream_destroy p t =
    let t1 = if (t.stream p).on_timeout_list then (timeout_list_remove p t).1 else t in
    let t2 = if (t1.stream p).on_timewait_list then (timewait_list_remove p t1).1 else t1 in
    let t3 = if (t2.stream p).on_rto_idx == 0 then t2 else (rto_list_remove p t2).1 in
    call (Call.destroy p) t3

-- `state < TCP_ST_ESTABLISHED`.
abbrev pub not_established : TcpState → Bool
not_established TcpState.closed = true
not_established TcpState.listen = true
not_established TcpState.syn_sent = true
not_established TcpState.syn_rcvd = true
not_established _ = false

-- The close of a stream that has been retransmitted too often.
abbrev pub give_up : Ptr → Timers → Timers
give_up p t =
    let v = t.stream p in
    tcp_stream_destroy p (
      put t p (record v {
        state = TcpState.closed;
        close_reason = if not_established v.state then conn_fail else conn_lost;
      }))

-- `TCP_INITIAL_RTO << nrtx`, and the congestion window of a lost segment.
abbrev pub back_off : Stream → Stream
back_off v =
    let half = min v.cwnd v.peer_wnd / 2 in
    record v {
      nrtx = v.nrtx + 1;
      rto = u32 (tcp_initial_rto * 2 ^ (v.nrtx + 1));
      ssthresh = if ltb half (2 * v.mss) then v.mss * 2 else half;
      cwnd = v.mss;
      snd_nxt = v.snd_una;
    }

abbrev pub resend : Ptr → Timers → Timers
resend p t = call (Call.send_event p) (call (Call.reset_retrans p) t)

-- The stream has a FIN of its own under way.
abbrev pub closing_side : TcpState → Bool
closing_side TcpState.fin_wait_1 = true
closing_side TcpState.closing = true
closing_side TcpState.last_ack = true
closing_side _ = false

abbrev pub is_established : TcpState → Bool
is_established TcpState.established = true
is_established _ = false

unfoldable pub handle_rto : Ptr → Timers → Option Timers
handle_rto p t =
    let v = t.stream p in
    let t1 = put t p (back_off v) in
    let fin =
      if v.fss == 0
      then none
      else some (if seq_lt v.snd_una v.fss then resend p t1 else call (Call.control p) t1) in
    if not (ltb v.nrtx tcp_max_rtx)
    then some (give_up p t)
    else if is_established v.state
    then some (resend p t1)
    else if closing_side v.state
    then fin
    else some (call (Call.control p) t1)

-- The body of the loop of `rto_list_check`.
abbrev pub rto_expire : Ptr → Timers → Option Timers
rto_expire p t =
    handle_rto p
      (record (put t p (record (t.stream p) { on_rto_idx = 0 })) { rto_list = remove p t.rto_list })

unfoldable pub rto_loop : ℕ → ℕ → List Ptr → Timers → Option (ℕ × Timers)
rto_loop cur_ts cnt [] t = some (cnt, t)
rto_loop cur_ts cnt (p ∷ ps) t =
    let rest = (do t' ← rto_expire p t; rto_loop cur_ts (cnt + 1) ps t') in
    if not (ltb cnt max_rto_batch)
    then some (cnt, t)
    else if seq_lt cur_ts (t.stream p).ts_rto
    then some (cnt, t)
    else rest

unfoldable pub rto_list_check : ℕ → Timers → Option (ℕ × Timers)
unfolding rto_loop
rto_list_check cur_ts t = rto_loop cur_ts 0 t.rto_list t

abbrev pub timewait_expire : Ptr → Timers → Timers
timewait_expire p t =
    tcp_stream_destroy p
      (record (put t p (record (t.stream p) {
        on_timewait_list = false;
        state = TcpState.closed;
        close_reason = active_close;
      })) { timewait_list = remove p t.timewait_list })

unfoldable pub timewait_loop : ℕ → ℕ → List Ptr → Timers → ℕ × Timers
timewait_loop cur_ts cnt [] t = (cnt, t)
timewait_loop cur_ts cnt (p ∷ ps) t =
    let rest = timewait_loop cur_ts (cnt + 1) ps (timewait_expire p t) in
    let dropped =
      timewait_loop cur_ts cnt ps (record t { timewait_list = remove p t.timewait_list }) in
    if not (t.stream p).on_timewait_list
    then dropped
    else if seq_lt cur_ts (t.stream p).ts_tw_expire
    then (cnt, t)
    else rest

unfoldable pub timewait_list_check : ℕ → Timers → ℕ × Timers
unfolding timewait_loop
timewait_list_check cur_ts t = timewait_loop cur_ts 0 t.timewait_list t

-- `(int32_t)(cur_ts - last_active_ts) < TCP_TIMEOUT`.
abbrev pub not_timed_out : ℕ → Stream → Bool
not_timed_out cur_ts v =
    let d = sub32 cur_ts v.last_active_ts in leb (2 ^ 31) d || ltb d tcp_timeout

-- `close_reason` has four bits and is given TCP_TIMEOUT, the length of the timeout.
abbrev pub timeout_expire : Ptr → Timers → Timers
timeout_expire p t =
    tcp_stream_destroy p
      (record (put t p (record (t.stream p) {
        on_timeout_list = false;
        state = TcpState.closed;
        close_reason = tcp_timeout % 2 ^ 4;
      })) { timeout_list = remove p t.timeout_list })

unfoldable pub timeout_loop : ℕ → ℕ → List Ptr → Timers → ℕ × Timers
timeout_loop cur_ts cnt [] t = (cnt, t)
timeout_loop cur_ts cnt (p ∷ ps) t =
    let rest = timeout_loop cur_ts (cnt + 1) ps (timeout_expire p t) in
    if not_timed_out cur_ts (t.stream p) then (cnt, t) else rest

unfoldable pub timeout_list_check : ℕ → Timers → ℕ × Timers
unfolding timeout_loop
timeout_list_check cur_ts t = timeout_loop cur_ts 0 t.timeout_list t
