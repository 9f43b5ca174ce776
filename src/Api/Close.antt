-- ===== src/Api/Close.antt =====
-- Closing a socket: once, and what the stack gets to know.
use qstack.Common.{
  ℕ, ◌-◌, ◌<◌, ◌≡◌, ◌≢◌, ◌∙◌, refl, sym, ap, subst, true, false, not, Option, none, some, List, ltb,
  if-cases, length, arith, update, update_self, Ptr,
}
use qstack.Cirq.{Ret, queue}
use qstack.Cirq.Fifo
use qstack.Cirq.Fifo.{IsBacked}
use qstack.N21.{N21, queue_at, n21q_enqueue}
use qstack.N21.RoundRobin.{held}
use qstack.N21.Enqueue.{n21q_enqueue-held}
use qstack.Sockets.Listeners.{is_stream}
use qstack.Api.{ApiStream, World, App, Result, entry, set_stream}
use qstack.Api.Streams.{can_close, close_stream, q_close}

-- A socket of a stream.
pub record HasStream (app : App) (sockid : ℕ) (w : World) (s : ApiStream) : Type 0 where
  pub in_range : sockid < (app.config).max_concurrency
  pub socktype : is_stream (entry w sockid).socktype ≡ true
  pub stream : w.streams (entry w sockid).stream ≡ some s

module _ (app : App) (sockid : ℕ) (w : World) (s : ApiStream) (h : HasStream app sockid w s) where
  q_close_lem : q_close app sockid w ≡ some (close_stream app (entry w sockid).stream s w)
  unfolding q_close
  q_close_lem =
      let lt : ltb sockid (app.config).max_concurrency ≡ true = ground (arith, h.in_range) in
      rw (lt, h.socktype, h.stream) refl

abbrev pub Again : App → ℕ → Option (Result Unit × World) → Type 0
Again app sockid none = ⊥
Again app sockid (some (r, w)) = q_close app sockid w ≡ some (Result.ok tt, w)

-- A stream that is closed stays as it is.
again_lem :
    (app : App) (sockid : ℕ) (w : World) (s : ApiStream)
    → HasStream app sockid w s
    → s.closed ≡ true
    → q_close app sockid w ≡ some (Result.ok tt, w)
unfolding close_stream
again_lem app sockid w s h c = q_close_lem app sockid w s h ∙ rw c refl

-- Whatever `q_close` gave for a socket with a stream, the next call for it gives 0 and does nothing;
-- this is so also where the first one failed and the stream was not queued to be closed.
pub q_close-Again :
    (app : App) (sockid : ℕ) (w : World) (s : ApiStream)
    → HasStream app sockid w s
    → Again app sockid (q_close app sockid w)
unfolding close_stream
q_close-Again app sockid w s h = subst (Again app sockid) (sym (q_close_lem app sockid w s h)) (
    if-cases P s.closed (λ c. again_lem app sockid w s h c)
      (λ n.
        if-cases P (not (can_close s.state))
          (λ bad.
            again_lem app sockid _ (record s { closed = true })
              (record {
                in_range = h.in_range;
                socktype = h.socktype;
                stream = update_self w.streams (entry w sockid).stream _;
              })
              refl)
          (λ good.
            again_lem app sockid _ (record s { closed = true; on_closeq = true })
              (record {
                in_range = h.in_range;
                socktype = h.socktype;
                stream = update_self w.streams (entry w sockid).stream _;
              })
              refl)))
  where
    P : Result Unit × World → Type 0
    P r = Again app sockid (some r)

-- What `q_close` leaves of a stream that is up: `words` are those of the queue of closing streams,
-- from this core, before.
pub record IsClosing (app : App) (p : Ptr) (s : ApiStream) (size : ℕ) (words : List ℕ) (w' : World)
    : Type 0 where
  pub queued :
      held (w'.machine).mem (w'.close_queue s.stack) app.core_id ≡ (Fifo.push (size - 1) words p).1
  pub marked : w'.streams p ≡ some (record s { closed = true; on_closeq = true })

-- For a stream that is up and not closed yet, with a valid queue of closing streams of its stack,
-- `q_close` gives 0 and marks the stream as closed and as queued. It stands last in the queue from
-- the application's core if there is room; if there is none, it is not in the queue, and `q_close`
-- gives 0 all the same.
pub q_close-Closing :
    (app : App) (sockid i : ℕ) (w : World) (s : ApiStream)
    → HasStream app sockid w s
    → s.closed ≡ false
    → can_close s.state ≡ true
    → let q = w.close_queue s.stack in
      let c = queue_at q app.core_id in
      app.core_id < length q.queues
      → Fifo.IsValid c
      → IsBacked c ((w.machine).mem (queue c))
      → i ≢ app.core_id
      → queue (queue_at q i) ≢ queue c
      → (w' : World) × (q_close app sockid w ≡ some (Result.ok tt, w'))
        × IsClosing app (entry w sockid).stream s c.size (held (w.machine).mem q app.core_id) w'
unfolding close_stream
q_close-Closing app sockid i w s h up state core v b other apart =
    let p = (entry w sockid).stream in
    let q = w.close_queue s.stack in
    let (pushed, _) = n21q_enqueue-held (w.machine).mem q app.core_id p i core v b other apart in
    let q' = (n21q_enqueue q (w.machine).mem app.core_id p).1 in
    let m' = (n21q_enqueue q (w.machine).mem app.core_id p).2 in
    (
      record (set_stream p (record s { closed = true; on_closeq = true }) w) {
        close_queue = update w.close_queue s.stack q';
        machine = record (w.machine) { mem = m' };
      },
      q_close_lem app sockid w s h ∙ rw (up, state) refl,
      record {
        queued =
            ap (λ (u : N21). held m' u app.core_id) (update_self w.close_queue s.stack q')
            ∙ ap (λ (r : Ret × List ℕ). r.1) pushed;
        marked = update_self w.streams p _;
      },
    )
