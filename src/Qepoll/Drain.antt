-- ===== src/Qepoll/Drain.antt =====
-- The loops over the queues of a channel against lists of events: what `qepoll_wait` takes, and in
-- which order.
use qstack.Common.{
  ℕ, zero, suc, ◌≤◌, ◌≡◌, ◌∙◌, refl, sym, ap, ap₂, subst, subst₂, Bool, true, false, List, [], ◌∷◌,
  ltb, if◌then◌else◌, if-cases, Bool-cases, length, arith, inl, inr,
}
use qstack.Qepoll.{
  QepollEvent, EventQueue, SocketMap, Qtimer, Taking, event_queue_used, first_event, next_event,
  take_event, qepoll_qevent,
}
use qstack.Qepoll.Wait.{drain, drain_low, drain_both}
use qstack.Qepoll.Queue.{
  IsValid, held, contents, contents-next, held-next, held-lt, contents_unused, next_event-IsValid,
}

-- Events are taken from the front, in their order, until `max` are taken or none is left; one that
-- is not valid goes away.
abbrev pub take_events :
    (ℕ → SocketMap) → ℕ → Bool → List QepollEvent → Taking → List QepollEvent × Taking
take_events smap max is_high [] t = ([], t)
take_events smap max is_high (e ∷ l) t =
    if ltb (length t.taken) max
    then take_events smap max is_high l (take_event smap is_high e t)
    else (e ∷ l, t)

-- A loop ends with the queue valid, and as the list says.
pub record IsDrained (spec : List QepollEvent × Taking) (r : EventQueue × Taking) : Type 0 where
  pub valid : IsValid r.0
  pub same : (contents r.0, r.1) ≡ spec

-- Where nothing is taken.
still :
    (smap : ℕ → SocketMap) (max : ℕ) (is_high : Bool) (eq : EventQueue) (t : Taking)
    → IsValid eq
    → (contents eq, t) ≡ take_events smap max is_high (contents eq) t
    → IsDrained (take_events smap max is_high (contents eq) t) (eq, t)
still smap max is_high eq t v e = record { valid = v; same = e }

module _ (smap : ℕ → SocketMap) (max : ℕ) (is_high : Bool) where
  pub take_events_empty :
      (eq : EventQueue) (t : Taking)
      → contents eq ≡ []
      → (contents eq, t) ≡ take_events smap max is_high (contents eq) t
  take_events_empty eq t e = subst (λ l. (l, t) ≡ take_events smap max is_high l t) (sym e) refl

  pub take_events_enough :
      (l : List QepollEvent) (t : Taking)
      → ltb (length t.taken) max ≡ false
      → (l, t) ≡ take_events smap max is_high l t
  take_events_enough [] t e = refl
  take_events_enough (x ∷ l) t e = rw e refl

  pub drain_lem :
      (fuel : ℕ) (eq : EventQueue) (t : Taking)
      → IsValid eq
      → held eq ≤ fuel
      → IsDrained (take_events smap max is_high (contents eq) t) (drain fuel smap max is_high eq t)
  unfolding drain qepoll_qevent
  drain_lem zero eq t v h =
      let e : held eq ≡ 0 = omega arith in
      still smap max is_high eq t v (take_events_empty eq t (rw e refl))
  drain_lem (suc fuel) eq t v h = elim (Bool-cases (event_queue_used eq)) [
    | inl u ↦ elim (Bool-cases (ltb (length t.taken) max)) [
      | inl lt ↦
          let ih =
            drain_lem fuel (next_event eq) (take_event smap is_high (first_event eq) t)
              (next_event-IsValid v) (omega (arith, held-next v u)) in
          rw (u, lt, contents-next v u, lt) ih
      | inr ge ↦ rw (u, ge) (still smap max is_high eq t v (take_events_enough (contents eq) t ge))
    ]
    | inr n ↦ rw n (still smap max is_high eq t v (take_events_empty eq t (contents_unused eq n)))
  ]

-- A list is done with where all its events are taken, or `max` of them.
abbrev pub IsDone : ℕ → List QepollEvent → Taking → Type 0
IsDone max l t = ltb (length t.taken) max ≡ true → l ≡ []

pub take_events-IsDone :
    (smap : ℕ → SocketMap) (max : ℕ) (is_high : Bool) (l : List QepollEvent) (t : Taking)
    → IsDone max (take_events smap max is_high l t).0 (take_events smap max is_high l t).1
take_events-IsDone smap max is_high [] t = λ lt. refl
take_events-IsDone smap max is_high (e ∷ l) t =
    if-cases (λ (r : List QepollEvent × Taking). IsDone max r.0 r.1) (ltb (length t.taken) max)
      (λ y. take_events-IsDone smap max is_high l (take_event smap is_high e t))
      (λ n y. absurd (ground arith))

-- The loop over the low queue changes the high one only if it holds something.
pub record IsLowDrained (hs : List QepollEvent) (spec : List QepollEvent × Taking)
    (r : EventQueue × EventQueue × Taking) : Type 0 where
  pub high_valid : IsValid r.0
  pub low_valid : IsValid r.1
  pub high_same : contents r.0 ≡ hs
  pub low_same : (contents r.1, r.2) ≡ spec

module _ (smap : ℕ → SocketMap) (max : ℕ) where
  -- A look at a high queue with nothing in it.
  look_again :
      (high : EventQueue) (t : Taking)
      → IsValid high
      → contents high ≡ []
      → IsDrained ([], t) (drain high.size smap max true high t)
  look_again high t v e =
      let d = drain_lem smap max true high.size high t v (omega (arith, held-lt v)) in
      subst (λ l. IsDrained (take_events smap max true l t) (drain high.size smap max true high t))
        e d

  pub drain_low_lem :
      (fuel : ℕ) (high low : EventQueue) (t : Taking)
      → IsValid high
      → IsValid low
      → held low ≤ fuel
      → IsDone max (contents high) t
      → IsLowDrained
          (contents high)
          (take_events smap max false (contents low) t)
          (drain_low fuel smap max high low t)
  unfolding drain_low qepoll_qevent
  drain_low_lem zero high low t vh vl h done =
      let e : held low ≡ 0 = omega arith in
      record {
        high_valid = vh;
        low_valid = vl;
        high_same = refl;
        low_same = take_events_empty smap max false low t (rw e refl);
      }
  drain_low_lem (suc fuel) high low t vh vl h done = elim (Bool-cases (event_queue_used low)) [
    | inl u ↦ elim (Bool-cases (ltb (length t.taken) max)) [
      | inl lt ↦
          let t1 = take_event smap false (first_event low) t in
          let d = look_again high t1 vh (done lt) in
          let ih =
            drain_low_lem fuel (drain high.size smap max true high t1).0 (next_event low)
              (drain high.size smap max true high t1).1 d.valid (next_event-IsValid vl)
              (omega (arith, held-next vl u))
              (λ y. ap (λ (r : List QepollEvent × Taking). r.0) d.same) in
          rw (u, lt, contents-next vl u, lt)
            record {
              high_valid = ih.high_valid;
              low_valid = ih.low_valid;
              high_same =
                  ih.high_same ∙ ap (λ (r : List QepollEvent × Taking). r.0) d.same ∙ sym (done lt);
              low_same =
                  ih.low_same
                  ∙ ap
                      (λ (r : List QepollEvent × Taking).
                        take_events smap max false (contents (next_event low)) r.1)
                      d.same;
            }
      | inr ge ↦
          rw (u, ge)
            record {
              high_valid = vh;
              low_valid = vl;
              high_same = refl;
              low_same = take_events_enough smap max false (contents low) t ge;
            }
    ]
    | inr n ↦ rw n record {
      high_valid = vh;
      low_valid = vl;
      high_same = refl;
      low_same = take_events_empty smap max false low t (contents_unused low n);
    }
  ]

-- What a channel gives, by lists: the high queue's events, then the low queue's.
abbrev pub take_both :
    (ℕ → SocketMap)
    → ℕ
    → List QepollEvent
    → List QepollEvent
    → Taking
    → List QepollEvent × List QepollEvent × Taking
take_both smap max hs ls t =
    let (hs1, t1) = take_events smap max true hs t in
    let (ls1, t2) = take_events smap max false ls t1 in (hs1, ls1, t2)

pub record IsTurn (spec : List QepollEvent × List QepollEvent × Taking) (r : Qtimer × Taking)
    : Type 0 where
  pub high_valid : IsValid (r.0).high
  pub low_valid : IsValid (r.0).low
  pub same : (contents (r.0).high, contents (r.0).low, r.1) ≡ spec

-- The loops over the two queues of a channel, with the looks at the high queue behind each event of
-- the low one, end and do what two lists do, while no event is added: first the events of high
-- priority are taken, in their order, then those of low priority, until `max` are taken; what is not
-- taken stays in its queue, in its order.
pub drain_both_lem :
    (smap : ℕ → SocketMap) (max : ℕ) (q : Qtimer) (t : Taking)
    → IsValid q.high
    → IsValid q.low
    → IsTurn (take_both smap max (contents q.high) (contents q.low) t) (drain_both smap max q t)
unfolding drain_both
drain_both_lem smap max q t vh vl =
    let high1 = (drain (q.high).size smap max true q.high t).0 in
    let t1 = (drain (q.high).size smap max true q.high t).1 in
    let d = drain_lem smap max true (q.high).size q.high t vh (omega (arith, held-lt vh)) in
    let spec = take_events smap max true (contents q.high) t in
    let h1 : contents high1 ≡ spec.0 = ap (λ (r : List QepollEvent × Taking). r.0) d.same in
    let e1 : t1 ≡ spec.1 = ap (λ (r : List QepollEvent × Taking). r.1) d.same in
    let done : IsDone max (contents high1) t1 =
      subst₂ (λ l u. IsDone max l u) (sym h1) (sym e1)
        (take_events-IsDone smap max true (contents q.high) t) in
    let l =
      drain_low_lem smap max (q.low).size high1 q.low t1 d.valid vl (omega (arith, held-lt vl))
        done in
    record {
      high_valid = l.high_valid;
      low_valid = l.low_valid;
      same =
          ap₂ (λ (a : List QepollEvent) (b : List QepollEvent × Taking). (a, b.0, b.1))
            (l.high_same ∙ h1) (l.low_same ∙ ap (take_events smap max false (contents q.low)) e1);
    }
