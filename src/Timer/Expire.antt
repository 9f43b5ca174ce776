-- ===== src/Timer/Expire.antt =====
-- Which streams `timeout_list_check` ends, and how.
use qstack.Common.{
  ℕ, ◌+◌, ◌%◌, ◌^◌, ◌<◌, ◌≤◌, ◌≡◌, refl, ◌∙◌, ap, true, false, not, List, [], ◌∷◌, ◌==◌,
  if◌then◌else◌, arith, update, Ptr, Bool-cases, inl, inr, if-cases, ltb, sub32, length,
}
use qstack.Timer.{
  TcpState, Stream, Call, Timers, put, call, remove, tcp_timeout, rto_list_remove,
  timewait_list_remove, timeout_list_remove,
}
use qstack.Timer.Check.{
  tcp_stream_destroy, not_timed_out, timeout_expire, timeout_loop, timeout_list_check,
}

-- What the walk reads of a stream, and what it leaves.
abbrev core : Stream → TcpState × ℕ × ℕ
core v = (v.state, v.close_reason, v.last_active_ts)

record Kept (t t' : Timers) : Type 0 where
  same : (q : Ptr) → core (t'.stream q) ≡ core (t.stream q)
  list : t'.timeout_list ≡ t.timeout_list
  calls : t'.calls ≡ t.calls

Kept-refl : (t : Timers) → Kept t t
Kept-refl t = record { same = λ q. refl; list = refl; calls = refl }

Kept-trans : {t u w : Timers} → Kept t u → Kept u w → Kept t w
Kept-trans a b = record {
  same = λ q. b.same q ∙ a.same q;
  list = b.list ∙ a.list;
  calls = b.calls ∙ a.calls;
}

put-core :
    (t : Timers) (p : Ptr) (v : Stream)
    → core v ≡ core (t.stream p)
    → (q : Ptr) → core (update (t.stream) p v q) ≡ core (t.stream q)
put-core t p v e q = elim (Bool-cases (q == p)) [
  | inl here ↦ let at : p ≡ q = ground arith in rw here (e ∙ ap (λ r. core (t.stream r)) at)
  | inr other ↦ rw other
]

rto_list_remove-Kept : (p : Ptr) (t : Timers) → Kept t (rto_list_remove p t).1
unfolding rto_list_remove
rto_list_remove-Kept p t =
    if-cases (λ (r : ℕ × Timers). Kept t r.1) ((t.stream p).on_rto_idx == 0) (λ off. Kept-refl t)
      λ on. record {
        same = put-core t p (record (t.stream p) { on_rto_idx = 0; nrtx = 0 }) refl;
        list = refl;
        calls = refl;
      }

timewait_list_remove-Kept : (p : Ptr) (t : Timers) → Kept t (timewait_list_remove p t).1
unfolding timewait_list_remove
timewait_list_remove-Kept p t =
    if-cases (λ (r : ℕ × Timers). Kept t r.1) (not (t.stream p).on_timewait_list)
      (λ off. Kept-refl t)
      λ on. record {
        same = put-core t p (record (t.stream p) { on_timewait_list = false }) refl;
        list = refl;
        calls = refl;
      }

-- The destruction of a stream that is off the timeout list.
destroy-Kept :
    (p : Ptr) (t : Timers)
    → (t.stream p).on_timeout_list ≡ false
    → Kept (call (Call.destroy p) t) (tcp_stream_destroy p t)
unfolding tcp_stream_destroy
destroy-Kept p t off =
    let t1 = if (t.stream p).on_timeout_list then (timeout_list_remove p t).1 else t in
    let t2 = if (t1.stream p).on_timewait_list then (timewait_list_remove p t1).1 else t1 in
    let t3 = if (t2.stream p).on_rto_idx == 0 then t2 else (rto_list_remove p t2).1 in
    let k1 : Kept t t1 =
      if-cases (Kept t) ((t.stream p).on_timeout_list) (λ on. absurd (ground (arith, on, off)))
        (λ o. Kept-refl t) in
    let k2 : Kept t1 t2 =
      if-cases (Kept t1) ((t1.stream p).on_timewait_list) (λ on. timewait_list_remove-Kept p t1)
        (λ o. Kept-refl t1) in
    let k3 : Kept t2 t3 =
      if-cases (Kept t2) ((t2.stream p).on_rto_idx == 0) (λ o. Kept-refl t2)
        (λ on. rto_list_remove-Kept p t2) in
    let k = Kept-trans k1 (Kept-trans k2 k3) in
    record { same = k.same; list = k.list; calls = ap (λ c. Call.destroy p ∷ c) k.calls }

module _ (ts : ℕ) (last : Ptr → ℕ) where
  -- How long a stream has been idle at the time `ts`, by the times of last activity.
  abbrev pub idle : Ptr → ℕ
  idle q = sub32 ts (last q)

  -- The streams idle for TCP_TIMEOUT at least, and the others.
  abbrev pub expired : List Ptr → List Ptr
  expired [] = []
  expired (x ∷ xs) = if ltb (idle x) tcp_timeout then expired xs else x ∷ expired xs

  abbrev pub alive : List Ptr → List Ptr
  alive [] = []
  alive (x ∷ xs) = if ltb (idle x) tcp_timeout then x ∷ alive xs else alive xs

  -- The streams stand by the time they were last active, each of them less than `bound` ago.
  abbrev pub OldestFirst : ℕ → List Ptr → Type 0
  OldestFirst bound [] = Unit {0}
  OldestFirst bound (x ∷ xs) = (idle x < bound) × OldestFirst (idle x + 1) xs

  all_alive :
      (bound : ℕ) (l : List Ptr)
      → bound ≤ tcp_timeout
      → OldestFirst bound l
      → (expired l ≡ []) × (alive l ≡ l)
  all_alive bound [] h o = (refl, refl)
  all_alive bound (x ∷ xs) h o =
      let (e, a) = all_alive (idle x + 1) xs (omega (arith, o.0)) o.1 in
      let young : ltb (idle x) tcp_timeout ≡ true = ground (arith, o.0) in
      rw young (e, ap (λ r. x ∷ r) a)

-- The stream has been closed, with TCP_NOT_CLOSED for the reason.
abbrev pub IsEnded : Timers → Ptr → Type 0
IsEnded t q = ((t.stream q).state ≡ TcpState.closed) × ((t.stream q).close_reason ≡ 0)

abbrev pub AreEnded : Timers → List Ptr → Type 0
AreEnded t [] = Unit {0}
AreEnded t (x ∷ xs) = IsEnded t x × AreEnded t xs

abbrev pub destroyed : List Ptr → List Call → List Call
destroyed [] cs = cs
destroyed (x ∷ xs) cs = destroyed xs (Call.destroy x ∷ cs)

-- One round of the walk.
record Round (p : Ptr) (ps : List Ptr) (t t' : Timers) : Type 0 where
  list : t'.timeout_list ≡ ps
  calls : t'.calls ≡ Call.destroy p ∷ t.calls
  ended : IsEnded t' p
  keeps : (q : Ptr) → IsEnded t q → IsEnded t' q
  times : (q : Ptr) → (t'.stream q).last_active_ts ≡ (t.stream q).last_active_ts

timeout_expire-Round :
    (p : Ptr) (ps : List Ptr) (t : Timers)
    → t.timeout_list ≡ p ∷ ps
    → Round p ps t (timeout_expire p t)
timeout_expire-Round p ps t e =
    let v = record (t.stream p) {
      on_timeout_list = false;
      state = TcpState.closed;
      close_reason = tcp_timeout % 2 ^ 4;
    } in
    let off = record (put t p v) { timeout_list = remove p t.timeout_list } in
    let self : (p == p) ≡ true = ground arith in
    let k = destroy-Kept p off (rw self refl) in
    let at : (q : Ptr) → core ((timeout_expire p t).stream q) ≡ core (update (t.stream) p v q) =
      k.same in
    let states : (q : Ptr)
        → ((timeout_expire p t).stream q).state ≡ (update (t.stream) p v q).state =
      λ q. ap (λ (c : TcpState × ℕ × ℕ). c.0) (at q) in
    let reasons : (q : Ptr)
        → ((timeout_expire p t).stream q).close_reason ≡ (update (t.stream) p v q).close_reason =
      λ q. ap (λ (c : TcpState × ℕ × ℕ). c.1) (at q) in
    record {
      list = k.list ∙ rw (e, self) refl;
      calls = k.calls;
      ended = (states p ∙ rw self refl, reasons p ∙ rw self refl);
      keeps = λ q h. elim (Bool-cases (q == p)) [
        | inl here ↦ (states q ∙ rw here refl, reasons q ∙ rw here refl)
        | inr other ↦ (states q ∙ rw other h.0, reasons q ∙ rw other h.1)
      ];
      times = λ q. ap (λ (c : TcpState × ℕ × ℕ). c.2) (at q) ∙ elim (Bool-cases (q == p)) [
        | inl here ↦
            let same : p ≡ q = ground arith in rw here (ap (λ r. (t.stream r).last_active_ts) same)
        | inr other ↦ rw other
      ];
    }

-- What the walk over the list `l` leaves.
record Walked (ts : ℕ) (last : Ptr → ℕ) (cnt : ℕ) (l : List Ptr) (t : Timers) (n : ℕ) (t' : Timers)
    : Type 0 where
  pub list : t'.timeout_list ≡ alive ts last l
  pub count : n ≡ cnt + length (expired ts last l)
  pub calls : t'.calls ≡ destroyed (expired ts last l) t.calls
  pub ended : AreEnded t' (expired ts last l)
  pub keeps : (q : Ptr) → IsEnded t q → IsEnded t' q

timeout_loop-Walked :
    (ts : ℕ) (last : Ptr → ℕ) (cnt bound : ℕ) (l : List Ptr) (t : Timers)
    → bound ≤ 2 ^ 31
    → t.timeout_list ≡ l
    → ((q : Ptr) → (t.stream q).last_active_ts ≡ last q)
    → OldestFirst ts last bound l
    → let (n, t') = timeout_loop ts cnt l t in Walked ts last cnt l t n t'
unfolding timeout_loop
timeout_loop-Walked ts last cnt bound [] t h e times o = record {
  list = e;
  count = omega arith;
  calls = refl;
  ended = tt;
  keeps = λ q i. i;
}
timeout_loop-Walked ts last cnt bound (p ∷ ps) t h e times o =
    elim (Bool-cases (ltb (idle ts last p) tcp_timeout)) [
      | inl young ↦
          let stays : not_timed_out ts (t.stream p) ≡ true = ground (arith, times p, young) in
          let (none_, all) = all_alive ts last (idle ts last p + 1) ps (ground arith) o.1 in
          rw stays (record {
            list = rw (young, all) e;
            count = rw (young, none_) (omega arith);
            calls = rw (young, none_) refl;
            ended = rw (young, none_) tt;
            keeps = λ q i. i;
          })
      | inr old ↦
          let goes : not_timed_out ts (t.stream p) ≡ false = ground (arith, times p, old, o.0) in
          let t1 = timeout_expire p t in
          let r = timeout_expire-Round p ps t e in
          let w =
            timeout_loop-Walked ts last (cnt + 1) (idle ts last p + 1) ps t1 (omega (arith, o.0))
              r.list (λ q. r.times q ∙ times q) o.1 in
          rw goes (record {
            list = rw old w.list;
            count = rw old (omega (arith, w.count));
            calls = rw old (w.calls ∙ ap (destroyed (expired ts last ps)) r.calls);
            ended = rw old (w.keeps p r.ended, w.ended);
            keeps = λ q i. w.keeps q (r.keeps q i);
          })
    ]

-- With the timeout list in the order of the times of last activity, all of them less than 2 ^ 31
-- ticks ago, `timeout_list_check` returns the number of the streams that have been idle for
-- TCP_TIMEOUT or longer, destroys exactly these, in order, leaves exactly the others on the list,
-- and every stream it destroyed is closed, with TCP_NOT_CLOSED for its close reason.
pub timeout_list_check_lem :
    (ts : ℕ) (t : Timers)
    → let last = λ (q : Ptr). (t.stream q).last_active_ts in
      OldestFirst ts last (2 ^ 31) t.timeout_list
      → let (n, t') = timeout_list_check ts t in
        let gone = expired ts last t.timeout_list in
        (n ≡ length gone)
        × (t'.calls ≡ destroyed gone t.calls)
        × (t'.timeout_list ≡ alive ts last t.timeout_list)
        × AreEnded t' gone
unfolding timeout_list_check
timeout_list_check_lem ts t o =
    let last = λ (q : Ptr). (t.stream q).last_active_ts in
    let w =
      timeout_loop-Walked ts last 0 (2 ^ 31) t.timeout_list t (omega arith) refl (λ q. refl) o in
    (omega (arith, w.count), w.calls, w.list, w.ended)
