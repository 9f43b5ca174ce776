-- ===== src/Qepoll/Queue.antt =====
-- One queue of events, of `q_create_eque`, as a first-in first-out queue of at most `size - 1` events.
use qstack.Common.{
  ℕ, suc, ◌+◌, ◌≤◌, ◌<◌, ◌≡◌, refl, sym, ap, Bool, true, false, List, [], ◌∷◌, ◌++◌, ◌==◌,
  if◌then◌else◌, if-cases, length, length-set, length-replicate, arith,
}
use qstack.Cirq.Ring.{
  window, used, length-window, window-set_outside, window-push, window-pop, add-used, used-lt,
  used_full, used_not_full, used-succ_tail,
}
use qstack.Qepoll.{
  QepollEvent, EventQueue, event_queue_used, event_queue_full, first_event, next_event,
  zeroed_event,
}
use qstack.Qepoll.Add.{put_event}
use qstack.Qepoll.Init.{q_create_eque}

-- The indices are in range, and the array is there.
pub record IsValid (eq : EventQueue) : Type 0 where
  pub fits : eq.size ≤ length eq.qevent
  pub end_in : eq.end < eq.size
  pub start_in : eq.start < eq.size

-- The events of a queue, oldest first.
abbrev pub held : EventQueue → ℕ
held eq = used eq.size eq.end eq.start

abbrev pub contents : EventQueue → List QepollEvent
contents eq = window zeroed_event eq.qevent eq.size eq.start (held eq)

-- A queue that holds at most one event fewer than its size.
abbrev pub append : ℕ → QepollEvent → List QepollEvent → Bool × List QepollEvent
append size e l = if length l + 1 == size then (false, l) else (true, l ++ (e ∷ []))

pub length-contents : (eq : EventQueue) → length (contents eq) ≡ held eq
length-contents eq = length-window zeroed_event eq.qevent eq.size eq.start (held eq)

pub q_create_eque-IsValid : (isize : ℕ) → 0 < isize → IsValid (q_create_eque isize)
q_create_eque-IsValid isize h = record {
  fits = omega (arith, length-replicate isize zeroed_event);
  end_in = h;
  start_in = h;
}

pub contents-q_create_eque : (isize : ℕ) → contents (q_create_eque isize) ≡ []
contents-q_create_eque isize = refl

pub put_event-IsValid :
    (e : QepollEvent) {eq : EventQueue} → IsValid eq → IsValid (put_event e eq).1
unfolding put_event
put_event-IsValid e {eq} v =
    if-cases (λ (r : Bool × EventQueue). IsValid r.1) (event_queue_full eq)
      (λ t. record {
        fits = omega (arith, length-set eq.qevent eq.end e, v.fits);
        end_in = v.end_in;
        start_in = v.start_in;
      })
      (λ f. record {
        fits = omega (arith, length-set eq.qevent eq.end e, v.fits);
        end_in = omega (arith, v.end_in);
        start_in = v.start_in;
      })

-- The queue is the list of its events: an event is added behind them, or the queue is full.
pub put_event-contents :
    (e : QepollEvent) {eq : EventQueue}
    → IsValid eq
    → ((put_event e eq).0, contents (put_event e eq).1) ≡ append eq.size e (contents eq)
unfolding put_event
put_event-contents e {eq} v =
    if-cases (λ (r : Bool × EventQueue). (r.0, contents r.1) ≡ append eq.size e (contents eq))
      (event_queue_full eq)
      (λ t.
        let full : (length (contents eq) + 1 == eq.size) ≡ true =
          ground
            (arith, length-contents eq, used_full eq.size eq.end eq.start v.end_in v.start_in) in
        rw full (
          ap (λ l. (false, l))
            (window-set_outside zeroed_event eq.qevent eq.size e (held eq) eq.start eq.end
              v.start_in (used-lt eq.size eq.end eq.start v.end_in v.start_in)
              (sym (add-used eq.size eq.end eq.start v.end_in v.start_in)))))
      (λ f.
        let more : (length (contents eq) + 1 == eq.size) ≡ false =
          ground (
            arith,
            length-contents eq,
            used_not_full eq.size eq.end eq.start v.end_in v.start_in,
          ) in
        rw more (
          ap (λ l. (true, l))
            (window-push eq.size eq.end eq.start v.end_in v.start_in zeroed_event eq.qevent e v.fits
              (λ w. ground arith))))

pub contents-next :
    {eq : EventQueue}
    → IsValid eq
    → event_queue_used eq ≡ true
    → contents eq ≡ first_event eq ∷ contents (next_event eq)
contents-next {eq} v u =
    window-pop eq.size eq.end eq.start v.end_in v.start_in zeroed_event eq.qevent (ground arith)

pub held-lt : {eq : EventQueue} → IsValid eq → held eq < eq.size
held-lt {eq} v = used-lt eq.size eq.end eq.start v.end_in v.start_in

pub held-next :
    {eq : EventQueue}
    → IsValid eq
    → event_queue_used eq ≡ true
    → held eq ≡ suc (held (next_event eq))
held-next {eq} v u = used-succ_tail eq.size eq.end eq.start v.end_in v.start_in (ground arith)

pub contents_unused : (eq : EventQueue) → event_queue_used eq ≡ false → contents eq ≡ []
contents_unused eq u = let e : held eq ≡ 0 = ground arith in rw e refl

pub next_event-IsValid : {eq : EventQueue} → IsValid eq → IsValid (next_event eq)
next_event-IsValid v = record {
  fits = v.fits;
  end_in = v.end_in;
  start_in = omega (arith, v.start_in);
}
