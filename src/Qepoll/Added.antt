-- ===== src/Qepoll/Added.antt =====
-- What `AddTimeEvent` leaves: the event behind those of its queue.
use qstack.Common.{
  ℕ, ◌+◌, ◌*◌, ◌<◌, ◌≡◌, ◌≢◌, ◌∙◌, refl, sym, ap, subst, Bool, true, false, not, Option, none, some,
  ◌==◌, ltb, if◌then◌else◌, if-cases, Bool-cases, arith, inl, inr, update, update_self, update-ne,
  get_or, ◌>>=◌,
}
use Prim.Native.Nat.{bit_or}
use qstack.Qepoll.{
  QepollEvent, EventQueue, Qtimer, Chan, SocketMap, Poll, zeroed_event, stack_to_qe,
}
use qstack.Qepoll.Add.{
  put_event, queue_of, set_queue, queued_event, add_to_chan, start_timer, find_chan, add_time_event,
}
use qstack.Qepoll.Queue.{IsValid, contents, append, put_event-IsValid, put_event-contents}
use qstack.Qepoll.Waited.{AreValid}
use qstack.Qepoll.Channels.{IsNumbered, IsWired, IsCreated, IsTarget, Found, find_chan-Found}

abbrev pub queue_at : Poll → ℕ → ℕ → EventQueue
queue_at p c pri = queue_of pri (p.chans c).q_timeout

-- The event is added to the queue of its priority in channel `c`, or that queue is full; no other
-- queue changes.
pub record IsAdded (event : ℕ) (qevent : QepollEvent) (c : ℕ) (p : Poll) (ok : Bool) (p' : Poll)
    : Type 0 where
  pub queued : QepollEvent
  pub kind : queued.events ≡ event
  pub sockid : queued.sockid ≡ qevent.sockid
  pub data_ : queued.data_ ≡ (p.smap qevent.sockid).ep_data
  pub appended :
      (ok, contents (queue_at p' c qevent.pri))
      ≡ append (queue_at p c qevent.pri).size queued (contents (queue_at p c qevent.pri))
  pub other :
      (n : ℕ)
      → (qevent.pri == 0) ≡ not (n == 0)
      → contents (queue_at p' c n) ≡ contents (queue_at p c n)
  pub apart : (i : ℕ) → i ≢ c → p'.chans i ≡ p.chans i
  pub valid : AreValid p'

queue-IsValid : {p : Poll} → AreValid p → (c pri : ℕ) → IsValid (queue_at p c pri)
queue-IsValid {p} v c pri = if-cases IsValid (pri == 0) (λ y. v.low c) (λ n. v.high c)

set_queue_self : (pri : ℕ) (eq : EventQueue) (t : Qtimer) → queue_of pri (set_queue pri eq t) ≡ eq
set_queue_self pri eq t = elim (Bool-cases (pri == 0)) [ inl y ↦ rw y refl | inr n ↦ rw n refl ]

set_queue_other :
    (pri n : ℕ) (eq : EventQueue) (t : Qtimer)
    → (pri == 0) ≡ not (n == 0)
    → queue_of n (set_queue pri eq t) ≡ queue_of n t
set_queue_other pri n eq t h = elim (Bool-cases (pri == 0)) [
  | inl y ↦ let f : (n == 0) ≡ false = ground (arith, h, y) in rw (y, f) refl
  | inr y ↦ let f : (n == 0) ≡ true = ground (arith, h, y) in rw (y, f) refl
]

set_queue-IsValid :
    (pri : ℕ) {eq : EventQueue} (t : Qtimer)
    → IsValid eq
    → IsValid t.high
    → IsValid t.low
    → IsValid (set_queue pri eq t).high × IsValid (set_queue pri eq t).low
set_queue-IsValid pri t v h l =
    if-cases (λ (u : Qtimer). IsValid u.high × IsValid u.low) (pri == 0) (λ y. (h, v)) (λ n. (v, l))

add_to_chan-IsAdded :
    (event : ℕ) (qevent : QepollEvent) (c : ℕ) (p : Poll)
    → AreValid p
    → IsAdded event qevent c p (add_to_chan event qevent c p).0 (add_to_chan event qevent c p).1
unfolding add_to_chan
add_to_chan-IsAdded event qevent c p v =
    let t = (p.chans c).q_timeout in
    let eq = queue_at p c qevent.pri in
    let s = p.smap qevent.sockid in
    let s' : SocketMap = record s { qepoll = event; qevents = bit_or s.qevents event } in
    let q = queued_event event qevent s' (get_or eq.qevent eq.end zeroed_event) in
    let eq' = (put_event q eq).1 in
    let u : Chan = record (p.chans c) { q_timeout = set_queue qevent.pri eq' t } in
    let veq = queue-IsValid v c qevent.pri in
    let vu =
      set_queue-IsValid qevent.pri {eq = eq'} t (put_event-IsValid q veq) (v.high c) (v.low c) in
    record {
      queued = q;
      kind = refl;
      sockid = refl;
      data_ = refl;
      appended =
          rw (update_self p.chans c u, set_queue_self qevent.pri eq' t) (put_event-contents q veq);
      other = λ n h. rw (update_self p.chans c u, set_queue_other qevent.pri n eq' t h) refl;
      apart = λ i ne. update-ne p.chans c i u ne;
      valid = record {
        high = λ j.
            if-cases (λ (d : Chan). IsValid (d.q_timeout).high) (j == c) (λ y. vu.0)
              (λ n. v.high j);
        low = λ j.
            if-cases (λ (d : Chan). IsValid (d.q_timeout).low) (j == c) (λ y. vu.1) (λ n. v.low j);
      };
    }

-- What holds of a state with the same queues and sockets holds of the state before.
queue_at-IsAdded :
    (event : ℕ) (e : QepollEvent) (c : ℕ) (p q : Poll) (ok : Bool) (p' : Poll)
    → q.smap ≡ p.smap
    → ((n : ℕ) → queue_at q c n ≡ queue_at p c n)
    → ((i : ℕ) → i ≢ c → q.chans i ≡ p.chans i)
    → IsAdded event e c q ok p'
    → IsAdded event e c p ok p'
queue_at-IsAdded event e c p q ok p' smap queue apart a = record {
  queued = a.queued;
  kind = a.kind;
  sockid = a.sockid;
  data_ = a.data_ ∙ ap (λ (f : ℕ → SocketMap). (f e.sockid).ep_data) smap;
  appended =
      subst
        (λ (u : EventQueue).
          (ok, contents (queue_at p' c e.pri)) ≡ append u.size a.queued (contents u))
        (queue e.pri) a.appended;
  other = λ n h. a.other n h ∙ ap contents (queue n);
  apart = λ i ne. a.apart i ne ∙ apart i ne;
  valid = a.valid;
}

-- A timeout changes no queue.
start_timer-IsAdded :
    (now d event : ℕ) (e : QepollEvent) (c : ℕ) (p : Poll)
    → AreValid p
    → IsAdded event e c p
        (add_to_chan event e c (start_timer now c d p)).0
        (add_to_chan event e c (start_timer now c d p)).1
start_timer-IsAdded now d event e c p v =
    let q = start_timer now c d p in
    let vq : AreValid q = record {
      high = λ j.
          if-cases (λ (u : Chan). IsValid (u.q_timeout).high) (j == c) (λ y. v.high c)
            (λ n. v.high j);
      low = λ j.
          if-cases (λ (u : Chan). IsValid (u.q_timeout).low) (j == c) (λ y. v.low c) (λ n. v.low j);
    } in
    queue_at-IsAdded event e c p q _ _ refl
      (λ n. ap (λ (u : Chan). queue_of n u.q_timeout) (update_self p.chans c _))
      (λ i ne. update-ne p.chans c i _ ne) (add_to_chan-IsAdded event e c q vq)

-- A channel that keeps its names keeps the numbering.
update-IsNumbered :
    (p : Poll) (c : ℕ) (t : Qtimer)
    → IsWired p
    → (q i : ℕ) → q < p.num_server
    → i < p.num_stack
    → IsNumbered p.num_stack q i
        (update p.chans c (record (p.chans c) { q_timeout = t }) (p.num_stack * q + i))
update-IsNumbered p c t w q i hq hi =
    if-cases (IsNumbered p.num_stack q i) (p.num_stack * q + i == c)
      (λ y.
        let n =
          subst (λ k. IsNumbered p.num_stack q i (p.chans k)) (ground arith)
            (w.numbered q i hq hi) in
        record { id = n.id; src = n.src; dst = n.dst })
      (λ n. w.numbered q i hq hi)

add_to_chan-IsWired :
    (event : ℕ) (e : QepollEvent) (c : ℕ) (p : Poll)
    → IsWired p
    → IsWired (add_to_chan event e c p).1
unfolding add_to_chan
add_to_chan-IsWired event e c p w = record {
  numbered = update-IsNumbered p c _ w;
  handed = λ s f.
      let h = w.handed s f in
      record {
        app = h.app;
        known = h.known;
        created = record {
          manager = (h.created).manager;
          known = (h.created).known;
          sq_chan = (h.created).sq_chan;
          in_range = (h.created).in_range;
        };
      };
}

start_timer-IsWired : (now c d : ℕ) (p : Poll) → IsWired p → IsWired (start_timer now c d p)
start_timer-IsWired now c d p w = record {
  numbered = update-IsNumbered p c _ w;
  handed = λ s f.
      let h = w.handed s f in
      record {
        app = h.app;
        known = h.known;
        created = record {
          manager = (h.created).manager;
          known = (h.created).known;
          sq_chan = (h.created).sq_chan;
          in_range = (h.created).in_range;
        };
      };
}

-- With its timeout, or without.
timed_add :
    (now d event : ℕ) (e : QepollEvent) (c : ℕ) (p : Poll) (is_untimed : Bool)
    → AreValid p
    → IsWired p
    → let q = if is_untimed then p else start_timer now c d p in
      IsAdded event e c p (add_to_chan event e c q).0 (add_to_chan event e c q).1
      × IsWired (add_to_chan event e c q).1
timed_add now d event e c p is_untimed v w =
    if-cases
      (λ (q : Poll).
        IsAdded event e c p (add_to_chan event e c q).0 (add_to_chan event e c q).1
        × IsWired (add_to_chan event e c q).1)
      is_untimed (λ y. (add_to_chan-IsAdded event e c p v, add_to_chan-IsWired event e c p w))
      (λ n. (
        start_timer-IsAdded now d event e c p v,
        add_to_chan-IsWired event e c (start_timer now c d p) (start_timer-IsWired now c d p w),
      ))

abbrev pub Added : ℕ → QepollEvent → Poll → Option (Bool × Poll) → Type 0
Added event e p none = ⊥
Added event e p (some (ok, p')) =
    (app : ℕ) × IsTarget p e app × IsAdded event e (p.num_stack * app + e.core) p ok p' × IsWired p'

-- For channels numbered as at the start, a stack's event for an application with an instance is
-- always added: it stands last, with its socket's data, in the queue of its priority in the channel
-- from its stack to an application, unless that queue holds one event fewer than its size. All other
-- queues stay.
pub add_time_event-Added :
    (event now : ℕ) (e : QepollEvent) (p : Poll)
    → AreValid p
    → IsWired p
    → e.dire ≡ stack_to_qe
    → e.pri < 2
    → e.core < p.num_stack
    → IsCreated p e.apid
    → Added event e p (add_time_event event now e p)
unfolding add_time_event
add_time_event-Added event now e p v w dire pri lt c =
    let ok : ltb e.pri 2 ≡ true = ground arith in
    rw ok (found (find_chan e p) (find_chan-Found e p w dire lt c))
  where
    found :
        (r : Option (ℕ × ℕ × Poll))
        → Found p e r
        → Added event e p (
            r >>= λ (chan_id, qid, p1). some (
              add_to_chan event e chan_id
                (if e.timeout == 0 then p1 else start_timer now chan_id qid p1)))
    found none f = f
    found (some (chan_id, qid, p1)) f =
        let v1 : AreValid p1 = record {
          high = λ i.
              subst (λ (g : ℕ → Chan). IsValid ((g i).q_timeout).high) (sym f.chans) (v.high i);
          low =
              λ i. subst (λ (g : ℕ → Chan). IsValid ((g i).q_timeout).low) (sym f.chans) (v.low i);
        } in
        let q = if e.timeout == 0 then p1 else start_timer now chan_id qid p1 in
        let r = add_to_chan event e chan_id q in
        let (a, w1) = timed_add now qid event e chan_id p1 (e.timeout == 0) v1 f.wired in
        (
          qid,
          f.target,
          subst (λ k. IsAdded event e k p r.0 r.1) f.place
              (queue_at-IsAdded event e chan_id p p1 r.0 r.1 f.smap
                (λ n. ap (λ (g : ℕ → Chan). queue_of n (g chan_id).q_timeout) f.chans)
                (λ i ne. ap (λ (g : ℕ → Chan). g i) f.chans) a),
          w1,
        )
