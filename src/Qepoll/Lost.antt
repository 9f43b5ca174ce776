-- ===== src/Qepoll/Lost.antt =====
-- What the registration of a socket is after an event, and which events it lets through.
use Prim.Native.Nat.{bit_and}
use qstack.Common.{
  ℕ, ◌≡◌, refl, ap, Bool, true, false, Option, none, some, ◌==◌, OnSome, OnSome-bind, OnSome-map,
  OnSome-then, if-cases, update_self, ltb, ◌>>=◌, List, [], ◌∷◌, length, ◌∙◌, ◌&&◌, if◌then◌else◌,
  Bool-cases, inl, inr, arith,
}
use qstack.TcpIn.Events.{q_epollin, q_epollout}
use qstack.Qepoll.{QepollEvent, SocketMap, Poll, Taking, Qtimer, is_valid_event, take_event}
use qstack.Qepoll.Queue.{IsValid, contents}
use qstack.Qepoll.Wait.{drain_both}
use qstack.Qepoll.Drain.{take_events, take_events_enough, take_both, drain_both_lem}
use qstack.Qepoll.Add.{add_to_chan, find_chan, add_time_event}
use qstack.Qepoll.Init.{add_registered, add_both}

-- A socket is registered for the kind of its last event only.
abbrev IsLast : ℕ → QepollEvent → Bool × Poll → Type 0
IsLast event e (ok, p') = ((p'.smap e.sockid).qepoll) ≡ event

add_to_chan-IsLast :
    (event : ℕ) (e : QepollEvent) (c : ℕ) (p : Poll) → IsLast event e (add_to_chan event e c p)
unfolding add_to_chan
add_to_chan-IsLast event e c p = ap SocketMap.qepoll (update_self p.smap e.sockid _)

pub add_time_event-IsLast :
    (event now : ℕ) (e : QepollEvent) (p : Poll)
    → OnSome (IsLast event e) (add_time_event event now e p)
unfolding add_time_event
add_time_event-IsLast event now e p =
    if-cases (OnSome (IsLast event e)) (ltb e.pri 2)
      (λ y.
        OnSome-then (IsLast event e) (find_chan e p) _
          (λ (c, d, p1). add_to_chan-IsLast event e c _))
      (λ n. tt)

-- An event that the registration for `event` does not let through.
abbrev pub is_lost : ℕ → ℕ → QepollEvent → Bool
is_lost sockid event w = (w.sockid == sockid) && (bit_and event w.events == 0)

-- The list without such events.
abbrev pub unlost : ℕ → ℕ → List QepollEvent → List QepollEvent
unlost sockid event [] = []
unlost sockid event (w ∷ l) =
    if is_lost sockid event w then unlost sockid event l else w ∷ unlost sockid event l

module _ (smap : ℕ → SocketMap) (sockid event max : ℕ) (is_high : Bool)
    (now : (smap sockid).qepoll ≡ event) where
  take_event_skips :
      (w : QepollEvent) (t : Taking)
      → is_lost sockid event w ≡ true
      → take_event smap is_high w t ≡ t
  take_event_skips w t h =
      let same : w.sockid ≡ sockid = ground arith in
      let apart : bit_and event w.events ≡ 0 = ground arith in
      let off : is_valid_event smap w ≡ false = rw (same, now, apart) refl in rw off refl

  take_events-unlost :
      (l : List QepollEvent) (t : Taking)
      → let r = take_events smap max is_high l t in
        (unlost sockid event r.0, r.1) ≡ take_events smap max is_high (unlost sockid event l) t
  take_events-unlost [] t = refl
  take_events-unlost (w ∷ l) t = elim (Bool-cases (ltb (length t.taken) max)) [
    | inl lt ↦ elim (Bool-cases (is_lost sockid event w)) [
      | inl y ↦ rw (lt, y, take_event_skips w t y) (take_events-unlost l t)
      | inr n ↦ rw (lt, n, lt) (take_events-unlost l (take_event smap is_high w t))
    ]
    | inr ge ↦ rw ge (take_events_enough smap max is_high (unlost sockid event (w ∷ l)) t ge)
  ]

-- After an event of kind `event` has been put to a queue, or has not fitted, the loops over any valid
-- queues, if no event is added before them, do what they would do if the waiting events of its socket
-- that have other bits only had never been there: the same events are taken, and the same events
-- stay, but for some of these.
pub drain_both-unlost :
    (event now max : ℕ) (e : QepollEvent) (p : Poll) (q : Qtimer) (t : Taking)
    → IsValid q.high
    → IsValid q.low
    → OnSome
        (λ r.
          let keep = unlost e.sockid event in
          let d = drain_both (r.1).smap max q t in
          (keep (contents (d.0).high), keep (contents (d.0).low), d.1)
          ≡ take_both (r.1).smap max (keep (contents q.high)) (keep (contents q.low)) t)
        (add_time_event event now e p)
drain_both-unlost event now max e p q t vh vl =
    OnSome-map (IsLast event e) _ (add_time_event event now e p)
      (λ r last.
        let smap = (r.1).smap in
        let keep = unlost e.sockid event in
        let turn = drain_both_lem smap max q t vh vl in
        let high = take_events-unlost smap e.sockid event max true last (contents q.high) t in
        let hs = (take_events smap max true (contents q.high) t).0 in
        let t1 = (take_events smap max true (contents q.high) t).1 in
        let low = take_events-unlost smap e.sockid event max false last (contents q.low) t1 in
        ap (λ (u : List QepollEvent × List QepollEvent × Taking). (keep u.0, keep u.1, u.2))
          turn.same
        ∙ ap (λ (b : List QepollEvent × Taking). (keep hs, b.0, b.1)) low
        ∙ ap
            (λ (a : List QepollEvent × Taking).
              let b = take_events smap max false (keep (contents q.low)) a.1 in (a.0, b.0, b.1))
            high)
      (add_time_event-IsLast event now e p)

last_only :
    {A : Type 0} (P : A → Type 0) (o : Option A) (f : A → Option A)
    → OnSome P o
    → ((a : A) → P a → f a ≡ some a)
    → (o >>= f) ≡ o
last_only P none f h k = refl
last_only P (some a) f h k = k a h

-- Where a socket is registered for input, adding its events for input and output, as `qepoll_ctl`
-- does, is to add the one for input: none for output follows, though it is asked for too.
pub add_both-add_registered :
    (now : ℕ) (e : QepollEvent) (p : Poll)
    → (bit_and (p.smap e.sockid).qepoll q_epollin == 0) ≡ false
    → add_both now e.sockid e p ≡ add_registered q_epollin now e.sockid e p
unfolding add_both add_registered
add_both-add_registered now e p h =
    last_only (λ p1. (p1.smap e.sockid).qepoll ≡ q_epollin)
      (add_registered q_epollin now e.sockid e p) (add_registered q_epollout now e.sockid e)
      (rw h (
        OnSome-bind (IsLast q_epollin e) _ (add_time_event q_epollin now e p) _
          (add_time_event-IsLast q_epollin now e p) (λ r last. last)))
      (λ p1 last.
        let off : (bit_and (p1.smap e.sockid).qepoll q_epollout == 0) ≡ true = rw last refl in
        rw off refl)
