-- ===== src/Api/Recv.antt =====
-- Reading from a socket.
use qstack.Common.{
  ℕ, ◌<◌, ◌≡◌, ◌≢◌, refl, sym, ap, subst, true, false, not, ◌&&◌, some, [], ◌==◌, ltb,
  if◌then◌else◌, Bool-cases, inl, inr, arith, update_self, sub32, Ptr, null,
}
use qstack.Cirq.Fifo
use qstack.Cirq.Fifo.{dir_contents}
use qstack.Mbuf.{Mbuf, Store, set_state}
use qstack.Mbuf.Chain.{lens}
use qstack.RecvBuff.{RecvBuff}
use qstack.RecvBuff.Get.{rb_merged_len}
use qstack.RecvBuff.Get.Merged.{waits, first, NoNull, Got, rb_get_in_order}
use qstack.Api.{ApiStream, World, App, Errno, entry}
use qstack.Api.Streams.{Received, is_readable, is_close_wait, after_read, read_stream, q_recv}

-- A socket with a stream that can be read, whose peer has not closed behind the last byte.
pub record IsReadable (app : App) (sockid : ℕ) (w : World) (s : ApiStream) : Type 0 where
  pub in_range : sockid < (app.config).max_concurrency
  pub has_stream : (entry w sockid).stream ≢ null
  pub stream : w.streams (entry w sockid).stream ≡ some s
  pub state : is_readable s.state ≡ true
  pub more : (is_close_wait s.state && (rb_merged_len s.rcvbuf == 0)) ≡ false

-- What a read gives: the packet `next`, or that there is none yet.
pub record IsRead (p next : Ptr) (s : ApiStream) (b : RecvBuff) (r : Received) (w' : World)
    : Type 0 where
  pub answer : r ≡ (
      if next == null
      then Received.error Errno.eagain
      else Received.packet next (((w'.machine).store).cell next).payload_len)
  pub stream :
      w'.streams p ≡ some (record s { rcvbuf = b; rcv_wnd = sub32 b.size (rb_merged_len b) })

after_read-IsRead :
    (p mbuf : Ptr) (s : ApiStream) (b : RecvBuff) (w : World)
    → IsRead p mbuf s b
        (after_read p (record s { rcvbuf = b }) w mbuf).0
        (after_read p (record s { rcvbuf = b }) w mbuf).1
unfolding set_state
after_read-IsRead p mbuf s b w = elim (Bool-cases (mbuf == null)) [
  | inl t ↦ rw t record { answer = rw t refl; stream = update_self w.streams p _ }
  | inr f ↦ rw f record {
    answer = rw f (
        ap (λ (m : Mbuf). Received.packet mbuf m.payload_len)
          (sym (update_self ((w.machine).store).cell mbuf _)));
    stream = update_self w.streams p _;
  }
]

-- A read of such a socket, with its receive buffer as `rb_get` needs it and no high-priority packet
-- there, gives the first packet in order that the application has not had, with the length of its
-- payload, or EAGAIN if there is none; what it leaves in the buffer is what `rb_get` leaves, and the
-- window of the stream is the room behind the bytes that wait.
pub q_recv_in_order :
    (app : App) (sockid : ℕ) (w : World) (s : ApiStream)
    → IsReadable app sockid w s
    → let b = s.rcvbuf in
      let st = (w.machine).store in
      let next = first (waits st) (dir_contents b.merged_q) in
      Fifo.IsValid b.high_q
      → dir_contents b.high_q ≡ []
      → Fifo.IsValid b.merged_q
      → NoNull (dir_contents b.merged_q)
      → (not (next == null) && ((st.cell next).l4_len == 0)) ≡ false
      → (r : Received) × (w' : World) × (b' : RecvBuff) × (st' : Store) × (q_recv app sockid w
          ≡ some (r, w'))
        × IsRead (entry w sockid).stream next s b' r w'
        × Got (waits st) (lens st) (dir_contents b.merged_q) b st next b' st'
unfolding q_recv read_stream
q_recv_in_order app sockid w s h vh eh vm nn l4 =
    let p = (entry w sockid).stream in
    let (mbuf, b', st', ran, got) = rb_get_in_order s.rcvbuf (w.machine).store vh eh vm nn l4 in
    let lt : ltb sockid (app.config).max_concurrency ≡ true = ground (arith, h.in_range) in
    let some_stream : (p == null) ≡ false = ground (arith, h.has_stream) in
    let w1 : World = record w { machine = record (w.machine) { store = st' } } in
    let r = after_read p (record s { rcvbuf = b' }) w1 mbuf in
    (
      r.0,
      r.1,
      b',
      st',
      rw (lt, some_stream, h.stream, h.state, h.more, ran) refl,
      subst (λ n. IsRead p n s b' r.0 r.1) got.packet (after_read-IsRead p mbuf s b' w1),
      subst
          (λ n.
            Got (waits (w.machine).store) (lens (w.machine).store)
              (dir_contents (s.rcvbuf).merged_q) s.rcvbuf (w.machine).store n b' st')
          got.packet got,
    )
