-- ===== src/Timer/Ops.antt =====
-- Each operation of timer.h on one stream keeps the lists and the marks in step.
use qstack.Common.{
  ℕ, ◌+◌, ◌≡◌, refl, ◌∙◌, true, false, not, ◌==◌, arith, u32, Ptr, Bool-cases, inl, inr, if-cases,
  not-true,
}
use qstack.Timer.{
  Timers, put, insert_tail, rto_storage, tcp_timewait, rto_list_add, rto_list_remove,
  rto_list_update, timewait_list_add, timewait_list_remove, timeout_list_add, timeout_list_remove,
  timeout_list_update,
}
use qstack.Timer.Tracked.{Tracks-insert_tail, Tracks-move}
use qstack.Timer.Invariant.{
  IsValid, on_rto, on_timewait, on_timeout, Tracks-keep, change-IsValid, put-IsValid,
  off_rto-IsValid, off_timewait-IsValid, off_timeout-IsValid,
}

abbrev AfterIsValid : ℕ × Timers → Type 0
AfterIsValid r = IsValid r.1

pub rto_list_add-IsValid :
    (p : Ptr) (ts : ℕ) (t : Timers) → IsValid t → IsValid (rto_list_add p ts t).1
unfolding rto_list_add
rto_list_add-IsValid p ts t k =
    let v = record (t.stream p) { ts_rto = u32 (ts + (t.stream p).rto) } in
    let on = record v { on_rto_idx = rto_storage } in
    if-cases AfterIsValid (not ((t.stream p).on_rto_idx == 0)) (λ listed. k)
      λ off.
        if-cases AfterIsValid ((t.stream p).on_timewait_list)
          (λ waits. put-IsValid t p v refl refl refl k)
          λ free.
            change-IsValid t p on (insert_tail t.rto_list p) t.timewait_list t.timeout_list t.calls
              k (Tracks-insert_tail k.rto p off) (Tracks-keep on_timewait t p on refl k.timewait)
              (Tracks-keep on_timeout t p on refl k.timeout) free

pub rto_list_remove-IsValid : (p : Ptr) (t : Timers) → IsValid t → IsValid (rto_list_remove p t).1
unfolding rto_list_remove
rto_list_remove-IsValid p t k =
    if-cases AfterIsValid ((t.stream p).on_rto_idx == 0) (λ off. k)
      λ listed.
        off_rto-IsValid t p (record (t.stream p) { on_rto_idx = 0; nrtx = 0 }) refl refl refl k

pub rto_list_update-IsValid :
    (p : Ptr) (ts : ℕ) (t : Timers) → IsValid t → IsValid (rto_list_update p ts t)
unfolding rto_list_update
rto_list_update-IsValid p ts t k =
    rto_list_add-IsValid p ts (rto_list_remove p t).1 (rto_list_remove-IsValid p t k)

-- Behind `rto_list_remove` a stream is off that list, and its other marks are as before.
pub rto_list_remove_off :
    (p : Ptr) (t : Timers)
    → (((rto_list_remove p t).1.stream p).on_rto_idx ≡ 0)
      × (((rto_list_remove p t).1.stream p).on_timewait_list ≡ (t.stream p).on_timewait_list)
unfolding rto_list_remove
rto_list_remove_off p t = elim (Bool-cases ((t.stream p).on_rto_idx == 0)) [
  | inl off ↦ rw off (ground arith, refl)
  | inr listed ↦ let same : (p == p) ≡ true = ground arith in rw (listed, same) (refl, refl)
]

pub timewait_list_add-IsValid :
    (p : Ptr) (ts : ℕ) (t : Timers) → IsValid t → IsValid (timewait_list_add p ts t).1
unfolding timewait_list_add
timewait_list_add-IsValid p ts t k =
    let v = record (t.stream p) { ts_tw_expire = u32 (ts + tcp_timewait) } in
    let t1 = put t p v in
    let k1 : IsValid t1 = put-IsValid t p v refl refl refl k in
    let t2 = (rto_list_remove p t1).1 in
    let k2 : IsValid t2 = rto_list_remove-IsValid p t1 k1 in
    let (off, same_wait) = rto_list_remove_off p t1 in
    let same : (p == p) ≡ true = ground arith in
    if-cases AfterIsValid ((t.stream p).on_timewait_list)
      (λ waits. record {
        rto = k1.rto;
        timewait = Tracks-move p (rw same waits) k1.timewait;
        timeout = k1.timeout;
        apart = k1.apart;
      })
      λ free.
        let on = record (t2.stream p) { on_timewait_list = true } in
        let free2 : (t2.stream p).on_timewait_list ≡ false = same_wait ∙ rw same free in
        change-IsValid t2 p on t2.rto_list (insert_tail t2.timewait_list p) t2.timeout_list t2.calls
          k2 (Tracks-keep on_rto t2 p on refl k2.rto) (Tracks-insert_tail k2.timewait p free2)
          (Tracks-keep on_timeout t2 p on refl k2.timeout) (rw off)

pub timewait_list_remove-IsValid :
    (p : Ptr) (t : Timers) → IsValid t → IsValid (timewait_list_remove p t).1
unfolding timewait_list_remove
timewait_list_remove-IsValid p t k =
    if-cases AfterIsValid (not (t.stream p).on_timewait_list) (λ free. k)
      λ waits.
        off_timewait-IsValid t p (record (t.stream p) { on_timewait_list = false }) refl refl refl k

pub timeout_list_add-IsValid :
    (p : Ptr) (ts : ℕ) (t : Timers) → IsValid t → IsValid (timeout_list_add p ts t).1
unfolding timeout_list_add
timeout_list_add-IsValid p ts t k =
    let v = record (t.stream p) { last_active_ts = ts } in
    let on = record v { on_timeout_list = true } in
    if-cases AfterIsValid (not (t.stream p).on_timeout_list)
      (λ free.
        change-IsValid t p on t.rto_list t.timewait_list (insert_tail t.timeout_list p) t.calls k
          (Tracks-keep on_rto t p on refl k.rto) (Tracks-keep on_timewait t p on refl k.timewait)
          (Tracks-insert_tail k.timeout p (not-true free)) (k.apart p))
      (λ listed. put-IsValid t p v refl refl refl k)

pub timeout_list_remove-IsValid :
    (p : Ptr) (t : Timers) → IsValid t → IsValid (timeout_list_remove p t).1
unfolding timeout_list_remove
timeout_list_remove-IsValid p t k =
    if-cases AfterIsValid (not (t.stream p).on_timeout_list) (λ free. k)
      λ listed.
        off_timeout-IsValid t p (record (t.stream p) { on_timeout_list = false }) refl refl refl k

pub timeout_list_update-IsValid :
    (p : Ptr) (ts : ℕ) (t : Timers) → IsValid t → IsValid (timeout_list_update p ts t).1
unfolding timeout_list_update
timeout_list_update-IsValid p ts t k =
    let v = record (t.stream p) { last_active_ts = ts } in
    let k1 : IsValid (put t p v) = put-IsValid t p v refl refl refl k in
    let same : (p == p) ≡ true = ground arith in
    if-cases AfterIsValid ((t.stream p).on_timeout_list)
      (λ listed. record {
        rto = k1.rto;
        timewait = k1.timewait;
        timeout = Tracks-move p (rw same listed) k1.timeout;
        apart = k1.apart;
      })
      (λ free. k1)
