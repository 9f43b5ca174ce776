-- ===== src/TcpStream/Keep.antt =====
-- The fields of TCP that the functions of timer.h leave as they are.
use qstack.Common.{
  ℕ, ◌+◌, ◌≡◌, refl, ◌∙◌, ap, true, false, not, ◌==◌, Ptr, if-cases, update_self, if◌then◌else◌,
  u32,
}
use qstack.Timer
use qstack.Timer.{
  TcpState, Timers, put, rto_storage, tcp_timewait, rto_list_add, rto_list_remove, rto_list_update,
  timewait_list_add, timewait_list_remove, timeout_list_add, timeout_list_remove,
  timeout_list_update,
}
use qstack.Timer.Check
use qstack.TcpStream.Conn.{Conn, with_timers}

pub record Core : Type 0 where
  pub state : TcpState
  pub close_reason : ℕ
  pub snd_nxt : ℕ
  pub snd_una : ℕ
  pub peer_wnd : ℕ
  pub fss : ℕ
  pub cwnd : ℕ
  pub ssthresh : ℕ
  pub mss : ℕ

abbrev pub core : Timer.Stream → Core
core v = record {
  state = v.state;
  close_reason = v.close_reason;
  snd_nxt = v.snd_nxt;
  snd_una = v.snd_una;
  peer_wnd = v.peer_wnd;
  fss = v.fss;
  cwnd = v.cwnd;
  ssthresh = v.ssthresh;
  mss = v.mss;
}

abbrev pub core_at : Ptr → Timers → Core
core_at p t = core (t.stream p)

abbrev Same : Ptr → Timers → ℕ × Timers → Type 0
Same p t r = core_at p r.1 ≡ core_at p t

-- The record `v` of a stream at which the other fields of `t` stand.
core-put : (p : Ptr) (t : Timers) (v : Timer.Stream) → core_at p (put t p v) ≡ core v
core-put p t v = ap core (update_self (t.stream) p v)

pub core-rto_list_remove : (p : Ptr) (t : Timers) → core_at p (rto_list_remove p t).1 ≡ core_at p t
unfolding rto_list_remove
core-rto_list_remove p t =
    if-cases (Same p t) ((t.stream p).on_rto_idx == 0) (λ off. refl)
      λ on. core-put p t (record (t.stream p) { on_rto_idx = 0; nrtx = 0 })

pub core-rto_list_add :
    (p : Ptr) (ts : ℕ) (t : Timers) → core_at p (rto_list_add p ts t).1 ≡ core_at p t
unfolding rto_list_add
core-rto_list_add p ts t =
    let v = record (t.stream p) { ts_rto = u32 (ts + (t.stream p).rto) } in
    if-cases (Same p t) (not ((t.stream p).on_rto_idx == 0)) (λ on. refl)
      λ off.
        if-cases (Same p t) ((t.stream p).on_timewait_list) (λ w. core-put p t v)
          λ f. core-put p t (record v { on_rto_idx = rto_storage })

pub core-rto_list_update :
    (p : Ptr) (ts : ℕ) (t : Timers) → core_at p (rto_list_update p ts t) ≡ core_at p t
unfolding rto_list_update
core-rto_list_update p ts t =
    core-rto_list_add p ts (rto_list_remove p t).1 ∙ core-rto_list_remove p t

pub core-timewait_list_add :
    (p : Ptr) (ts : ℕ) (t : Timers) → core_at p (timewait_list_add p ts t).1 ≡ core_at p t
unfolding timewait_list_add
core-timewait_list_add p ts t =
    let v = record (t.stream p) { ts_tw_expire = u32 (ts + tcp_timewait) } in
    let t2 = (rto_list_remove p (put t p v)).1 in
    if-cases (Same p t) ((t.stream p).on_timewait_list) (λ w. core-put p t v)
      λ f.
        core-put p t2 (record (t2.stream p) { on_timewait_list = true })
        ∙ core-rto_list_remove p (put t p v)
        ∙ core-put p t v

pub core-timewait_list_remove :
    (p : Ptr) (t : Timers) → core_at p (timewait_list_remove p t).1 ≡ core_at p t
unfolding timewait_list_remove
core-timewait_list_remove p t =
    if-cases (Same p t) (not (t.stream p).on_timewait_list) (λ off. refl)
      λ on. core-put p t (record (t.stream p) { on_timewait_list = false })

pub core-timeout_list_add :
    (p : Ptr) (ts : ℕ) (t : Timers) → core_at p (timeout_list_add p ts t).1 ≡ core_at p t
unfolding timeout_list_add
core-timeout_list_add p ts t =
    let v = record (t.stream p) { last_active_ts = ts } in
    if-cases (Same p t) (not v.on_timeout_list)
      (λ off. core-put p t (record v { on_timeout_list = true })) λ on. core-put p t v

pub core-timeout_list_remove :
    (p : Ptr) (t : Timers) → core_at p (timeout_list_remove p t).1 ≡ core_at p t
unfolding timeout_list_remove
core-timeout_list_remove p t =
    if-cases (Same p t) (not (t.stream p).on_timeout_list) (λ off. refl)
      λ on. core-put p t (record (t.stream p) { on_timeout_list = false })

pub core-timeout_list_update :
    (p : Ptr) (ts : ℕ) (t : Timers) → core_at p (timeout_list_update p ts t).1 ≡ core_at p t
unfolding timeout_list_update
core-timeout_list_update p ts t =
    let v = record (t.stream p) { last_active_ts = ts } in
    if-cases (Same p t) ((t.stream p).on_timeout_list) (λ on. core-put p t v) λ off. core-put p t v

pub core-tcp_stream_destroy :
    (p : Ptr) (t : Timers) → core_at p (Timer.Check.tcp_stream_destroy p t) ≡ core_at p t
unfolding Timer.Check.tcp_stream_destroy
core-tcp_stream_destroy p t =
    let t1 = if (t.stream p).on_timeout_list then (timeout_list_remove p t).1 else t in
    let k1 : core_at p t1 ≡ core_at p t =
      if-cases (λ r. core_at p r ≡ core_at p t) ((t.stream p).on_timeout_list)
        (λ on. core-timeout_list_remove p t) (λ off. refl) in
    let t2 = if (t1.stream p).on_timewait_list then (timewait_list_remove p t1).1 else t1 in
    let k2 : core_at p t2 ≡ core_at p t1 =
      if-cases (λ r. core_at p r ≡ core_at p t1) ((t1.stream p).on_timewait_list)
        (λ on. core-timewait_list_remove p t1) (λ off. refl) in
    if-cases (λ r. core_at p r ≡ core_at p t) ((t2.stream p).on_rto_idx == 0) (λ off. k2 ∙ k1)
      λ on. core-rto_list_remove p t2 ∙ k2 ∙ k1

-- And so with the stream taken out of the map.
pub core-with_timers :
    (f : Ptr → Timers → Timers) (c : Conn)
    → ((t : Timers) → core_at c.self (f c.self t) ≡ core_at c.self t)
    → core (with_timers f c).own ≡ core c.own
core-with_timers f c k =
    let t = put ((c.host).timers) c.self c.own in k t ∙ core-put c.self ((c.host).timers) c.own
