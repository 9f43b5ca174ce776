-- ===== src/Timer.antt =====
-- qstack/src/include/timer.h, compiled with TCP_SIMPLE_RTO, and the part of `tcp_stream_destroy` of
-- qstack/src/tcp_stream.c that takes a stream off the timers' lists. A TAILQ is the list of its
-- streams. `none` is a call that ends the process.
pub mod Check
pub mod Expire
pub mod Invariant
pub mod Ops
pub mod Returns
pub mod Runs
pub mod Tests
pub mod Tracked
use qstack.Common.{
  ℕ, suc, ◌+◌, ◌*◌, ◌/◌, ◌%◌, ◌^◌, Bool, true, false, ◌&&◌, ◌||◌, not, Option, none, some, List, [],
  ◌∷◌, ◌++◌, ◌==◌, leb, ltb, if◌then◌else◌, ◌>>=◌, min, u32, sub32, update, Ptr,
}
use qstack.Seq.{seq_lt}

pub data TcpState : Type 0 where
  closed listen syn_sent syn_rcvd established fin_wait_1 fin_wait_2 close_wait closing : TcpState
  last_ack time_wait : TcpState

-- The fields of `struct tcp_stream` that the timers use.
pub record Stream : Type 0 where
  pub state : TcpState
  pub close_reason : ℕ
  pub snd_nxt : ℕ
  pub ts_rto : ℕ
  pub last_active_ts : ℕ
  pub ts_tw_expire : ℕ
  pub on_rto_idx : ℕ
  pub on_timeout_list : Bool
  pub on_timewait_list : Bool
  pub snd_una : ℕ
  pub peer_wnd : ℕ
  pub fss : ℕ
  pub nrtx : ℕ
  pub rto : ℕ
  pub cwnd : ℕ
  pub ssthresh : ℕ
  pub mss : ℕ

-- A call of another component for a stream: the rest of `tcp_stream_destroy`, `sb_reset_retrans`,
-- `send_event_enqueue` and `control_queue_add`.
pub data Call : Type 0 where
  destroy reset_retrans send_event control : Ptr → Call

-- The streams behind pointers, the lists of `struct qstack_context`, and the calls made, the last
-- one first.
pub record Timers : Type 0 where
  pub stream : Ptr → Stream
  pub rto_list : List Ptr
  pub timewait_list : List Ptr
  pub timeout_list : List Ptr
  pub calls : List Call

-- TIME_TICK is 1000 us.
abbrev pub tcp_timewait : ℕ
tcp_timewait = 5000

abbrev pub tcp_initial_rto : ℕ
tcp_initial_rto = 500

abbrev pub tcp_timeout : ℕ
tcp_timeout = 300000

abbrev pub rto_storage : ℕ
rto_storage = 3000

abbrev pub tcp_max_rtx : ℕ
tcp_max_rtx = 16

abbrev pub max_rto_batch : ℕ
max_rto_batch = 5

-- TAILQ_REMOVE and TAILQ_INSERT_TAIL.
abbrev pub remove : Ptr → List Ptr → List Ptr
remove p [] = []
remove p (x ∷ xs) = if x == p then xs else x ∷ remove p xs

abbrev pub insert_tail : List Ptr → Ptr → List Ptr
insert_tail l p = l ++ (p ∷ [])

abbrev pub put : Timers → Ptr → Stream → Timers
put t p v = record t { stream = update (t.stream) p v }

abbrev pub call : Call → Timers → Timers
call c t = record t { calls = c ∷ t.calls }

abbrev pub timer_init : Timers → Timers
timer_init t = record t { rto_list = []; timewait_list = []; timeout_list = [] }

-- The status is 1 for a failure and 0 for success.
unfoldable pub rto_list_add : Ptr → ℕ → Timers → ℕ × Timers
rto_list_add p cur_ts t =
    let v = record (t.stream p) { ts_rto = u32 (cur_ts + (t.stream p).rto) } in
    let on = record (put t p (record v { on_rto_idx = rto_storage })) {
      rto_list = insert_tail t.rto_list p;
    } in
    if not ((t.stream p).on_rto_idx == 0)
    then (1, t)
    else if v.on_timewait_list
    then (1, put t p v)
    else (0, on)

unfoldable pub rto_list_remove : Ptr → Timers → ℕ × Timers
rto_list_remove p t =
    let v = t.stream p in
    if v.on_rto_idx == 0 then (1, t) else (
      0,
      record (put t p (record v { on_rto_idx = 0; nrtx = 0 })) { rto_list = remove p t.rto_list },
    )

unfoldable pub rto_list_update : Ptr → ℕ → Timers → Timers
rto_list_update p cur_ts t = (rto_list_add p cur_ts (rto_list_remove p t).1).1

-- With TCP_SIMPLE_RTO the test `on_rto_idx >= 0` always holds.
unfoldable pub timewait_list_add : Ptr → ℕ → Timers → ℕ × Timers
timewait_list_add p cur_ts t =
    let t1 = put t p (record (t.stream p) { ts_tw_expire = u32 (cur_ts + tcp_timewait) }) in
    let t2 = (rto_list_remove p t1).1 in
    let moved = record t1 { timewait_list = insert_tail (remove p t1.timewait_list) p } in
    let on = record (put t2 p (record (t2.stream p) { on_timewait_list = true })) {
      timewait_list = insert_tail t2.timewait_list p;
    } in
    if (t.stream p).on_timewait_list then (0, moved) else (0, on)

unfoldable pub timewait_list_remove : Ptr → Timers → ℕ × Timers
timewait_list_remove p t =
    let v = t.stream p in
    if not v.on_timewait_list then (1, t) else (
      0,
      record (put t p (record v { on_timewait_list = false })) {
        timewait_list = remove p t.timewait_list;
      },
    )

unfoldable pub timeout_list_add : Ptr → ℕ → Timers → ℕ × Timers
timeout_list_add p cur_ts t =
    let v = record (t.stream p) { last_active_ts = cur_ts } in
    let on = record (put t p (record v { on_timeout_list = true })) {
      timeout_list = insert_tail t.timeout_list p;
    } in
    if not v.on_timeout_list then (0, on) else (1, put t p v)

unfoldable pub timeout_list_remove : Ptr → Timers → ℕ × Timers
timeout_list_remove p t =
    let v = t.stream p in
    if not v.on_timeout_list then (1, t) else (
      0,
      record (put t p (record v { on_timeout_list = false })) {
        timeout_list = remove p t.timeout_list;
      },
    )

unfoldable pub timeout_list_update : Ptr → ℕ → Timers → ℕ × Timers
timeout_list_update p cur_ts t =
    let t1 = put t p (record (t.stream p) { last_active_ts = cur_ts }) in
    let moved = record t1 { timeout_list = insert_tail (remove p t1.timeout_list) p } in
    if (t.stream p).on_timeout_list then (0, moved) else (0, t1)
