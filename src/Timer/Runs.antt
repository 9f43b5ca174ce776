-- ===== src/Timer/Runs.antt =====
-- Whole sequences of calls of timer.h, and of the destruction of streams.
use qstack.Common.{
  OnSome, ℕ, ◌+◌, ◌%◌, ◌^◌, ◌≡◌, refl, sym, ◌∙◌, ap, false, not, Option, none, some, List, [], ◌∷◌,
  ◌==◌, if◌then◌else◌, arith, ◌>>=◌, Ptr, Bool-cases, inl, inr, if-cases, not-true, ltb,
}
use qstack.Seq.{seq_lt}
use qstack.Timer.{
  TcpState, Call, Timers, put, call, remove, tcp_timeout, max_rto_batch, tcp_max_rtx, rto_list_add,
  rto_list_remove, rto_list_update, timewait_list_add, timewait_list_remove, timeout_list_add,
  timeout_list_remove, timeout_list_update,
}
use qstack.Timer.Check.{
  tcp_stream_destroy, back_off, resend, is_established, closing_side, handle_rto, rto_loop,
  rto_list_check, timewait_expire, timewait_loop, timewait_list_check, not_timed_out,
  timeout_expire, timeout_loop, timeout_list_check, active_close, not_established, conn_fail,
  conn_lost,
}
use qstack.Timer.Tracked.{Tracks-remove, Tracks-cong}
use qstack.Timer.Invariant.{
  IsValid, put-IsValid, call-IsValid, off_rto-IsValid, off_timewait-IsValid, off_timeout-IsValid,
}
use qstack.Timer.Ops.{
  rto_list_add-IsValid, rto_list_remove-IsValid, rto_list_update-IsValid, timewait_list_add-IsValid,
  timewait_list_remove-IsValid, timeout_list_add-IsValid, timeout_list_remove-IsValid,
  timeout_list_update-IsValid,
}

pub tcp_stream_destroy-IsValid :
    (p : Ptr) (t : Timers) → IsValid t → IsValid (tcp_stream_destroy p t)
unfolding tcp_stream_destroy
tcp_stream_destroy-IsValid p t k =
    let t1 = if (t.stream p).on_timeout_list then (timeout_list_remove p t).1 else t in
    let k1 : IsValid t1 =
      if-cases IsValid ((t.stream p).on_timeout_list) (λ on. timeout_list_remove-IsValid p t k)
        (λ off. k) in
    let t2 = if (t1.stream p).on_timewait_list then (timewait_list_remove p t1).1 else t1 in
    let k2 : IsValid t2 =
      if-cases IsValid ((t1.stream p).on_timewait_list) (λ on. timewait_list_remove-IsValid p t1 k1)
        (λ off. k1) in
    let t3 = if (t2.stream p).on_rto_idx == 0 then t2 else (rto_list_remove p t2).1 in
    let k3 : IsValid t3 =
      if-cases IsValid ((t2.stream p).on_rto_idx == 0) (λ off. k2)
        (λ on. rto_list_remove-IsValid p t2 k2) in
    call-IsValid (Call.destroy p) t3 k3

resend-IsValid : (p : Ptr) (t : Timers) → IsValid t → IsValid (resend p t)
resend-IsValid p t k =
    call-IsValid (Call.send_event p) (call (Call.reset_retrans p) t)
      (call-IsValid (Call.reset_retrans p) t k)

handle_rto-IsValid : (p : Ptr) (t : Timers) → IsValid t → OnSome IsValid (handle_rto p t)
unfolding handle_rto
handle_rto-IsValid p t k =
    let v = t.stream p in
    let t1 = put t p (back_off v) in
    let k1 : IsValid t1 = put-IsValid t p (back_off v) refl refl refl k in
    let gone = record v {
      state = TcpState.closed;
      close_reason = if not_established v.state then conn_fail else conn_lost;
    } in
    if-cases (OnSome IsValid) (not (ltb v.nrtx tcp_max_rtx))
      (λ many. tcp_stream_destroy-IsValid p (put t p gone) (put-IsValid t p gone refl refl refl k))
      λ few.
        if-cases (OnSome IsValid) (is_established v.state) (λ e. resend-IsValid p t1 k1)
          λ other.
            if-cases (OnSome IsValid) (closing_side v.state)
              (λ c.
                if-cases (OnSome IsValid) (v.fss == 0) (λ unset. tt)
                  λ set.
                    if-cases IsValid (seq_lt v.snd_una v.fss) (λ data_. resend-IsValid p t1 k1)
                      λ fin. call-IsValid (Call.control p) t1 k1)
              λ n. call-IsValid (Call.control p) t1 k1

rto_loop-IsValid :
    (ts cnt : ℕ) (l : List Ptr) (t : Timers)
    → IsValid t
    → OnSome (λ (r : ℕ × Timers). IsValid r.1) (rto_loop ts cnt l t)
unfolding rto_loop
rto_loop-IsValid ts cnt [] t k = k
rto_loop-IsValid ts cnt (p ∷ ps) t k =
    let P = OnSome (λ (r : ℕ × Timers). IsValid r.1) in
    let v = record (t.stream p) { on_rto_idx = 0 } in
    let off = record (put t p v) { rto_list = remove p t.rto_list } in
    let k1 : IsValid off = off_rto-IsValid t p v refl refl refl k in
    if-cases P (not (ltb cnt max_rto_batch)) (λ full. k)
      λ room.
        if-cases P (seq_lt ts (t.stream p).ts_rto) (λ early. k)
          λ due.
            elim (handle_rto p off)
                as (λ o. OnSome IsValid o → P (do t' ← o; rto_loop ts (cnt + 1) ps t')) [
                  | none ↦ λ h. tt
                  | some t' ↦ λ h. rto_loop-IsValid ts (cnt + 1) ps t' h
                ]
              (handle_rto-IsValid p off k1)

-- Taking off the list a stream without its mark changes nothing.
stray_off :
    (p : Ptr) (t : Timers)
    → IsValid t
    → (t.stream p).on_timewait_list ≡ false
    → IsValid (record t { timewait_list = remove p t.timewait_list })
stray_off p t k off = record {
  rto = k.rto;
  timewait =
      Tracks-cong
        (λ q. elim (Bool-cases (q == p)) [
          | inl here ↦
              let e : p ≡ q = ground arith in
              rw here (sym off ∙ ap (λ r. (t.stream r).on_timewait_list) e)
          | inr other ↦ rw other
        ])
        (Tracks-remove k.timewait p);
  timeout = k.timeout;
  apart = k.apart;
}

timewait_loop-IsValid :
    (ts cnt : ℕ) (l : List Ptr) (t : Timers) → IsValid t → IsValid (timewait_loop ts cnt l t).1
unfolding timewait_loop
timewait_loop-IsValid ts cnt [] t k = k
timewait_loop-IsValid ts cnt (p ∷ ps) t k =
    let P = λ (r : ℕ × Timers). IsValid r.1 in
    let v = record (t.stream p) {
      on_timewait_list = false;
      state = TcpState.closed;
      close_reason = active_close;
    } in
    let off = record (put t p v) { timewait_list = remove p t.timewait_list } in
    let k1 : IsValid off = off_timewait-IsValid t p v refl refl refl k in
    if-cases P (not (t.stream p).on_timewait_list)
      (λ stray.
        timewait_loop-IsValid ts cnt ps (record t { timewait_list = remove p t.timewait_list })
          (stray_off p t k (not-true stray)))
      λ waits.
        if-cases P (seq_lt ts (t.stream p).ts_tw_expire) (λ early. k)
          λ due.
            timewait_loop-IsValid ts (cnt + 1) ps (timewait_expire p t)
              (tcp_stream_destroy-IsValid p off k1)

timeout_loop-IsValid :
    (ts cnt : ℕ) (l : List Ptr) (t : Timers) → IsValid t → IsValid (timeout_loop ts cnt l t).1
unfolding timeout_loop
timeout_loop-IsValid ts cnt [] t k = k
timeout_loop-IsValid ts cnt (p ∷ ps) t k =
    let P = λ (r : ℕ × Timers). IsValid r.1 in
    let v = record (t.stream p) {
      on_timeout_list = false;
      state = TcpState.closed;
      close_reason = tcp_timeout % 2 ^ 4;
    } in
    let off = record (put t p v) { timeout_list = remove p t.timeout_list } in
    let k1 : IsValid off = off_timeout-IsValid t p v refl refl refl k in
    if-cases P (not_timed_out ts (t.stream p)) (λ early. k)
      λ due.
        timeout_loop-IsValid ts (cnt + 1) ps (timeout_expire p t)
          (tcp_stream_destroy-IsValid p off k1)

-- A call by the stack, for the stream at a pointer or at a time.
pub data Op : Type 0 where
  add_rto update_rto add_timewait add_timeout update_timeout : Ptr → ℕ → Op
  remove_rto remove_timewait remove_timeout destroy : Ptr → Op
  check_rto check_timewait check_timeout : ℕ → Op

abbrev pub step : Op → Timers → Option Timers
step (add_rto p ts) t = some (rto_list_add p ts t).1
step (update_rto p ts) t = some (rto_list_update p ts t)
step (add_timewait p ts) t = some (timewait_list_add p ts t).1
step (add_timeout p ts) t = some (timeout_list_add p ts t).1
step (update_timeout p ts) t = some (timeout_list_update p ts t).1
step (remove_rto p) t = some (rto_list_remove p t).1
step (remove_timewait p) t = some (timewait_list_remove p t).1
step (remove_timeout p) t = some (timeout_list_remove p t).1
step (destroy p) t = some (tcp_stream_destroy p t)
step (check_rto ts) t = do (_, t') ← rto_list_check ts t; some t'
step (check_timewait ts) t = some (timewait_list_check ts t).1
step (check_timeout ts) t = some (timeout_list_check ts t).1

abbrev pub run : List Op → Timers → Option Timers
run [] t = some t
run (o ∷ os) t = do t' ← step o t; run os t'

step-IsValid : (o : Op) (t : Timers) → IsValid t → OnSome IsValid (step o t)
unfolding rto_list_check timewait_list_check timeout_list_check
step-IsValid (add_rto p ts) t k = rto_list_add-IsValid p ts t k
step-IsValid (update_rto p ts) t k = rto_list_update-IsValid p ts t k
step-IsValid (add_timewait p ts) t k = timewait_list_add-IsValid p ts t k
step-IsValid (add_timeout p ts) t k = timeout_list_add-IsValid p ts t k
step-IsValid (update_timeout p ts) t k = timeout_list_update-IsValid p ts t k
step-IsValid (remove_rto p) t k = rto_list_remove-IsValid p t k
step-IsValid (remove_timewait p) t k = timewait_list_remove-IsValid p t k
step-IsValid (remove_timeout p) t k = timeout_list_remove-IsValid p t k
step-IsValid (destroy p) t k = tcp_stream_destroy-IsValid p t k
step-IsValid (check_rto ts) t k =
    elim (rto_loop ts 0 t.rto_list t)
        as (λ o.
          OnSome (λ (r : ℕ × Timers). IsValid r.1) o → OnSome IsValid (do (_, t') ← o; some t')) [
            | none ↦ λ h. tt
            | some r ↦ λ h. h
          ]
      (rto_loop-IsValid ts 0 t.rto_list t k)
step-IsValid (check_timewait ts) t k = timewait_loop-IsValid ts 0 t.timewait_list t k
step-IsValid (check_timeout ts) t k = timeout_loop-IsValid ts 0 t.timeout_list t k

-- From a valid state, unless a call ends the process, every sequence of timer calls and
-- destructions of streams leads to a valid state: each list holds exactly the streams marked as
-- on it, once each, and no stream is both on the retransmission and on the time-wait list, whose
-- links are the same field.
pub run-IsValid : (os : List Op) (t : Timers) → IsValid t → OnSome IsValid (run os t)
run-IsValid [] t k = k
run-IsValid (o ∷ os) t k =
    elim (step o t) as (λ r. OnSome IsValid r → OnSome IsValid (do t' ← r; run os t')) [
      | none ↦ λ h. tt
      | some t' ↦ λ h. run-IsValid os t' h
    ]
      (step-IsValid o t k)
