-- ===== src/Qepoll/Waited.antt =====
-- What one wait leaves: `qepoll_wait` without a timeout, over the channels of an application.
use qstack.Common.{
  ℕ, ◌+◌, ◌≤◌, ◌<◌, ◌≡◌, refl, sym, subst, Bool, true, false, Option, none, some, List, [], ◌∷◌,
  ◌==◌, ltb, if-cases, length, length-append, arith,
}
use qstack.Qepoll.{
  QepollEvent, SocketMap, Qtimer, Chan, Manager, Poll, Taking, take_event, is_valid_event,
}
use qstack.Qepoll.Wait.{
  drain_both, chan_turn, visit, wait_places, WaitResult, max_server_num, qepoll_wait, start_taking,
}
use qstack.Qepoll.Queue.{IsValid, contents}
use qstack.Qepoll.Drain.{take_events, take_both, take_events-IsDone, drain_both_lem}

-- The queues of every channel can be read.
pub record AreValid (p : Poll) : Type 0 where
  pub high : (i : ℕ) → IsValid ((p.chans i).q_timeout).high
  pub low : (i : ℕ) → IsValid ((p.chans i).q_timeout).low

abbrev pub AreEmpty : Qtimer → Type 0
AreEmpty q = (contents q.high ≡ []) × (contents q.low ≡ [])

abbrev pub IsEmptied : (ℕ → Chan) → ℕ → Type 0
IsEmptied chans i = AreEmpty (chans i).q_timeout

abbrev pub AllEmptied : (ℕ → Chan) → List ℕ → Type 0
AllEmptied chans [] = Unit
AllEmptied chans (i ∷ is) = IsEmptied chans i × AllEmptied chans is

take_event_length :
    (smap : ℕ → SocketMap) (is_high : Bool) (e : QepollEvent) (t : Taking)
    → (length t.taken ≤ length (take_event smap is_high e t).taken)
      × (length (take_event smap is_high e t).taken ≤ length t.taken + 1)
take_event_length smap is_high e t =
    if-cases
      (λ (u : Taking). (length t.taken ≤ length u.taken) × (length u.taken ≤ length t.taken + 1))
      (is_valid_event smap e)
      (λ v.
        let n = length-append t.taken ((is_high, e) ∷ []) in (omega (arith, n), omega (arith, n)))
      (λ w. (omega arith, omega arith))

-- A list of events adds no more than fit.
pub take_events_length :
    (smap : ℕ → SocketMap) (max : ℕ) (is_high : Bool) (l : List QepollEvent) (t : Taking)
    → (length t.taken ≤ length ((take_events smap max is_high l t).1).taken)
      × (length t.taken ≤ max → length ((take_events smap max is_high l t).1).taken ≤ max)
take_events_length smap max is_high [] t = (omega arith, λ h. h)
take_events_length smap max is_high (e ∷ l) t =
    if-cases
      (λ (r : List QepollEvent × Taking).
        (length t.taken ≤ length (r.1).taken) × (length t.taken ≤ max → length (r.1).taken ≤ max))
      (ltb (length t.taken) max)
      (λ y.
        let one = take_event_length smap is_high e t in
        let more = take_events_length smap max is_high l (take_event smap is_high e t) in
        (omega (arith, one.0, more.0), λ h. more.1 (ground (arith, one.1))))
      (λ n. (omega arith, λ h. h))

-- What a visit of places does: `maxevents` events are the most that it gives, and where it gives
-- fewer, the places it has visited hold none.
pub record IsVisited (max : ℕ) (is : List ℕ) (p : Poll) (t : Taking) (p' : Poll) (t' : Taking)
    : Type 0 where
  pub valid : AreValid p'
  pub kept : (j : ℕ) → IsEmptied p.chans j → IsEmptied p'.chans j
  pub emptied : ltb (length t'.taken) max ≡ true → AllEmptied p'.chans is
  pub grown : length t.taken ≤ length t'.taken
  pub bounded : length t.taken ≤ max → length t'.taken ≤ max

-- The same of one channel.
record IsTaken (max : ℕ) (q : Qtimer) (t : Taking) (q' : Qtimer) (t' : Taking) : Type 0 where
  high_valid : IsValid q'.high
  low_valid : IsValid q'.low
  kept : AreEmpty q → AreEmpty q'
  emptied : ltb (length t'.taken) max ≡ true → AreEmpty q'
  grown : length t.taken ≤ length t'.taken
  bounded : length t.taken ≤ max → length t'.taken ≤ max

-- The lists of `take_both` have these properties.
take_both-IsTaken :
    (smap : ℕ → SocketMap) (max : ℕ) (hs ls : List QepollEvent) (t : Taking)
    → ((hs ≡ []) × (ls ≡ [])
        → ((take_both smap max hs ls t).0 ≡ []) × ((take_both smap max hs ls t).1 ≡ []))
      × (ltb (length ((take_both smap max hs ls t).2).taken) max ≡ true
          → ((take_both smap max hs ls t).0 ≡ []) × ((take_both smap max hs ls t).1 ≡ []))
      × (length t.taken ≤ length ((take_both smap max hs ls t).2).taken)
      × (length t.taken ≤ max → length ((take_both smap max hs ls t).2).taken ≤ max)
take_both-IsTaken smap max hs ls t =
    let h = take_events smap max true hs t in
    let one = take_events_length smap max true hs t in
    let two = take_events_length smap max false ls h.1 in
    (
      λ (eh, el). (rw eh refl, rw el refl),
      λ lt. (
        take_events-IsDone smap max true hs t (ground (arith, two.0)),
        take_events-IsDone smap max false ls h.1 lt,
      ),
      omega (arith, one.0, two.0),
      λ b. two.1 (one.1 b),
    )

drain_both-IsTaken :
    (smap : ℕ → SocketMap) (max : ℕ) (q : Qtimer) (t : Taking)
    → IsValid q.high
    → IsValid q.low
    → IsTaken max q t (drain_both smap max q t).0 (drain_both smap max q t).1
drain_both-IsTaken smap max q t vh vl =
    let d = drain_both_lem smap max q t vh vl in
    let (k, e, g, b) =
      subst
        (λ (r : List QepollEvent × List QepollEvent × Taking).
          ((contents q.high ≡ []) × (contents q.low ≡ []) → (r.0 ≡ []) × (r.1 ≡ []))
          × (ltb (length (r.2).taken) max ≡ true → (r.0 ≡ []) × (r.1 ≡ []))
          × (length t.taken ≤ length (r.2).taken)
          × (length t.taken ≤ max → length (r.2).taken ≤ max))
        (sym d.same) (take_both-IsTaken smap max (contents q.high) (contents q.low) t) in
    record {
      high_valid = d.high_valid;
      low_valid = d.low_valid;
      kept = k;
      emptied = e;
      grown = g;
      bounded = b;
    }

module _ (max : ℕ) where
  turn-IsVisited :
      (i : ℕ) (p : Poll) (t : Taking)
      → AreValid p
      → IsVisited max (i ∷ []) p t (chan_turn none max i p t).1 (chan_turn none max i p t).2
  unfolding chan_turn
  turn-IsVisited i p t v =
      let d = drain_both-IsTaken p.smap max (p.chans i).q_timeout t (v.high i) (v.low i) in
      record {
        valid = record {
          high = λ j.
              if-cases (λ (c : Chan). IsValid (c.q_timeout).high) (j == i) (λ y. d.high_valid)
                (λ n. v.high j);
          low = λ j.
              if-cases (λ (c : Chan). IsValid (c.q_timeout).low) (j == i) (λ y. d.low_valid)
                (λ n. v.low j);
        };
        kept = λ j h.
            if-cases (λ (c : Chan). AreEmpty c.q_timeout) (j == i)
              (λ y. d.kept (subst (IsEmptied p.chans) (ground arith) h)) (λ n. h);
        emptied = λ lt. (
          if-cases (λ (c : Chan). AreEmpty c.q_timeout) (i == i) (λ y. d.emptied lt)
              (λ n. absurd (ground arith)),
          tt,
        );
        grown = d.grown;
        bounded = d.bounded;
      }

  pub visit-IsVisited :
      (is : List ℕ) (p : Poll) (t : Taking)
      → AreValid p
      → ((visit none max is p t).0 ≡ true)
        × IsVisited max is p t (visit none max is p t).1 (visit none max is p t).2
  unfolding visit chan_turn
  visit-IsVisited [] p t v = (
    refl,
    record {
      valid = v;
      kept = λ j h. h;
      emptied = λ lt. tt;
      grown = omega arith;
      bounded = λ h. h;
    },
  )
  visit-IsVisited (i ∷ is) p t v =
      let one = turn-IsVisited i p t v in
      let (go, more) =
        visit-IsVisited is (chan_turn none max i p t).1 (chan_turn none max i p t).2 one.valid in
      (
        go,
        record {
          valid = more.valid;
          kept = λ j h. more.kept j (one.kept j h);
          emptied =
              λ lt. (more.kept i (one.emptied (ground (arith, more.grown))).0, more.emptied lt);
          grown = omega (arith, one.grown, more.grown);
          bounded = λ h. more.bounded (one.bounded h);
        },
      )

-- What a wait gives back, and the state it leaves.
pub record IsWaited (max : ℕ) (is : List ℕ) (l : List (Bool × QepollEvent)) (p' : Poll)
    : Type 0 where
  pub bounded : length l ≤ max
  pub emptied : length l < max → AllEmptied p'.chans is
  pub valid : AreValid p'

abbrev pub Waited : ℕ → List ℕ → Option (WaitResult × Poll) → Type 0
Waited max is (some (WaitResult.events l shares, p')) = IsWaited max is l p'
Waited max is _ = ⊥

-- For an instance with its channels, a wait without a timeout for at most `maxevents` events ends,
-- and gives no more than these. If it gives fewer, then no event is left in any queue of the
-- channels between the instance and the `num_stack` stacks.
pub qepoll_wait-Waited :
    (shares : Bool) (num_stack efd maxevents sq qs : ℕ) (p : Poll) (m : Manager)
    → AreValid p
    → p.g_qepoll efd ≡ some m
    → (m.qe).sq_chan ≡ some sq
    → (m.qe).qs_chan ≡ some qs
    → efd < max_server_num
    → 0 < num_stack
    → 0 < maxevents
    → Waited maxevents
        (wait_places sq qs 0 num_stack)
        (qepoll_wait none shares num_stack efd true p maxevents)
unfolding qepoll_wait
qepoll_wait-Waited shares num_stack efd maxevents sq qs p m v known has_sq has_qs lt some_stack
      some_event =
    let (go, all) =
      visit-IsVisited maxevents (wait_places sq qs 0 num_stack) p (start_taking p) v in
    let e1 : ltb efd max_server_num ≡ true = ground arith in
    let e2 : (num_stack == 0) ≡ false = ground arith in
    let e3 : (maxevents == 0) ≡ false = ground arith in
    rw (known, e1, e2, e3, has_sq, has_qs, go)
      record {
        bounded = all.bounded (omega arith);
        emptied = λ h. all.emptied (ground arith);
        valid = record { high = (all.valid).high; low = (all.valid).low };
      }
