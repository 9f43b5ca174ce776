-- ===== src/Api/Streams.antt =====
-- The calls on a stream: `q_accept`, `q_connect`, `q_recv`, `q_close` and `q_socket_ioctl`.
use Prim.Native.Nat.{bit_and}
use qstack.Common.{
  ℕ, Bool, true, false, not, ◌&&◌, ◌||◌, Option, none, some, ◌==◌, ltb, if◌then◌else◌, ◌>>=◌,
  update, sub32, Ptr, null,
}
use qstack.Cirq.{Ret, success}
use qstack.Mbuf.{MbufState, set_state}
use qstack.N21.{n21q_enqueue, n21q_dequeue_strong}
use qstack.RecvBuff.Get.{rb_get, rb_merged_len}
use qstack.Timer.{TcpState}
use qstack.Sockets.{Address, is_unused}
use qstack.Sockets.Listeners.{is_stream}
use qstack.Api.{
  ApiStream, TcpListener, World, App, Errno, Result, is_listener, sock_opt_addr_bind, entry,
  set_entry, set_stream,
}

-- The socket of an accepted stream: its address is the peer's.
abbrev pub accept_stream : Ptr → ApiStream → World → Result ℕ × World
accept_stream p s w = elim s.socket [
  | none ↦ (Result.fail Errno.enfile, w)
  | some i ↦
      let e = record (entry w i) {
        stream = p;
        saddr = record { sin_port = s.dport; sin_addr = s.daddr };
      } in
      (Result.ok i, set_entry i e (set_stream p (record s { id = i }) w))
]

-- A stream taken off the accept queue stays off it, whatever comes then.
unfoldable pub q_accept : App → ℕ → World → Option (Result ℕ × World)
q_accept app sockid w =
    let e = entry w sockid in
    let l = w.listener_at e.stream in
    let accepted = (do
      (p, q) ← n21q_dequeue_strong (l.acceptq app.app_id) (w.machine).mem
      let l' : TcpListener = record l { acceptq = update l.acceptq app.app_id q }
      let w' : World = record w { listener_at = update w.listener_at e.stream l' }
      let found = (do s ← w'.streams p; some (accept_stream p s w'))
      (if p == null then some (Result.fail Errno.eagain, w') else found)) in
    if not (ltb app.app_id app.app_thread) || not (ltb sockid (app.config).max_concurrency)
    then some (Result.fail Errno.ebadf, w)
    else if not (is_listener e.socktype)
    then some (Result.fail Errno.einval, w)
    else accepted

-- `TCP_ST_ESTABLISHED` and above.
abbrev pub is_up : TcpState → Bool
is_up TcpState.closed = false
is_up TcpState.listen = false
is_up TcpState.syn_sent = false
is_up TcpState.syn_rcvd = false
is_up _ = true

-- What `streamq_enqueue` returns is below 0 for FAILED and ERROR.
abbrev pub is_queued : Ret → Bool
is_queued success = true
is_queued _ = false

-- The socket itself is put in the stream's place: `socket_ptr` is its address. `rss_core` is
-- `get_rss_core`. The address is `none` for NULL. A socket without an address of its own ends the
-- process.
unfoldable pub q_connect :
    (ℕ → Ptr)
    → (Address → Address → ℕ)
    → App
    → ℕ
    → Option Address
    → Bool
    → World
    → Option (Result Unit × World)
q_connect socket_ptr rss_core app sockid addr is_inet w =
    let e = entry w sockid in
    let connect : Address → Option (Result Unit × World) = λ daddr.
      let w1 = set_entry sockid (record e { daddr = daddr }) w in
      let stack = rss_core e.saddr daddr in
      let (ret, q, mem) =
        n21q_enqueue (w.connect_queue stack) (w.machine).mem app.core_id (socket_ptr sockid) in
      let w2 : World = record w1 {
        connect_queue = update w.connect_queue stack q;
        machine = record (w.machine) { mem = mem };
      } in
      let is_bound =
        not (bit_and e.opts sock_opt_addr_bind == 0)
        && not ((e.saddr).sin_port == 0)
        && not ((e.saddr).sin_addr == 0) in
      if not is_bound
      then none
      else some ((if is_queued ret then Result.ok tt else Result.fail Errno.eagain), w2) in
    let in_use = (do
      s ← w.streams e.stream
      some
          ((if is_up s.state then Result.fail Errno.eisconn else Result.fail Errno.ealready), w)) in
    let with_address : Address → Option (Result Unit × World) = λ a.
      if not is_inet
      then some (Result.fail Errno.eafnosupport, w)
      else if not (e.stream == null)
      then in_use
      else connect a in
    if not (ltb sockid (app.config).max_concurrency) || is_unused e.socktype
    then some (Result.fail Errno.ebadf, w)
    else if not (is_stream e.socktype)
    then some (Result.fail Errno.enotsock, w)
    else elim addr [ none ↦ some (Result.fail Errno.efault, w) | some a ↦ with_address a ]

-- From ESTABLISHED to CLOSE_WAIT in the order of the states.
abbrev pub is_readable : TcpState → Bool
is_readable TcpState.established = true
is_readable TcpState.fin_wait_1 = true
is_readable TcpState.fin_wait_2 = true
is_readable TcpState.close_wait = true
is_readable _ = false

abbrev pub is_close_wait : TcpState → Bool
is_close_wait TcpState.close_wait = true
is_close_wait _ = false

-- A packet and the length of its payload, the end of the stream, or an error.
pub data Received : Type 0 where
  packet : Ptr → ℕ → Received
  eof : Received
  error : Errno → Received

-- What is left behind by a read.
abbrev pub after_read : Ptr → ApiStream → World → Ptr → Received × World
after_read p s w mbuf =
    let st = (w.machine).store in
    let s' = record s { rcv_wnd = sub32 (s.rcvbuf).size (rb_merged_len s.rcvbuf) } in
    let read = record (set_stream p s' w) {
      machine = record (w.machine) { store = set_state st mbuf MbufState.rread };
    } in
    if mbuf == null
    then (Received.error Errno.eagain, set_stream p s' w)
    else (Received.packet mbuf (st.cell mbuf).payload_len, read)

unfoldable pub read_stream : Ptr → ApiStream → World → Option (Received × World)
read_stream p s w =
    let got = (do
      (mbuf, b, st) ← rb_get s.rcvbuf (w.machine).store
      let s1 : ApiStream = record s { rcvbuf = b }
      some (after_read p s1 (record w { machine = record (w.machine) { store = st } }) mbuf)) in
    if is_close_wait s.state && (rb_merged_len s.rcvbuf == 0) then some (Received.eof, w) else got

unfoldable pub q_recv : App → ℕ → World → Option (Received × World)
q_recv app sockid w =
    let p = (entry w sockid).stream in
    let found = (do
      s ← w.streams p
      (if is_readable s.state
          then read_stream p s w
          else some (Received.error Errno.enotconn, w))) in
    if not (ltb sockid (app.config).max_concurrency)
    then some (Received.error Errno.ebadf, w)
    else if p == null
    then some (Received.error Errno.enotconn, w)
    else found

abbrev pub can_close : TcpState → Bool
can_close TcpState.established = true
can_close TcpState.close_wait = true
can_close _ = false

-- `closed` is set before the state is tested, and what the queue returns is not looked at.
unfoldable pub close_stream : App → Ptr → ApiStream → World → Result Unit × World
close_stream app p s w =
    let s1 = record s { closed = true } in
    let (ret, q, mem) = n21q_enqueue (w.close_queue s.stack) (w.machine).mem app.core_id p in
    let queued = record (set_stream p (record s1 { on_closeq = true }) w) {
      close_queue = update w.close_queue s.stack q;
      machine = record (w.machine) { mem = mem };
    } in
    if s.closed
    then (Result.ok tt, w)
    else if not (can_close s.state)
    then (Result.fail Errno.ebadf, set_stream p s1 w)
    else (Result.ok tt, queued)

-- The state of the stream is read before the pointer is tested: a socket without a stream ends the
-- process.
unfoldable pub q_close : App → ℕ → World → Option (Result Unit × World)
q_close app sockid w =
    let e = entry w sockid in
    let closed = (do s ← w.streams e.stream; some (close_stream app e.stream s w)) in
    if not (ltb sockid (app.config).max_concurrency) || not (is_stream e.socktype)
    then some (Result.fail Errno.ebadf, w)
    else closed

-- The bytes that can be read, for FIONREAD.
unfoldable pub q_socket_ioctl : App → ℕ → Bool → Bool → World → Option (Result ℕ)
q_socket_ioctl app sockid is_fionread has_argp w =
    let e = entry w sockid in
    let count = (do s ← w.streams e.stream; some (Result.ok (rb_merged_len s.rcvbuf))) in
    if not (ltb sockid (app.config).max_concurrency)
    then some (Result.fail Errno.ebadf)
    else if not (is_stream e.socktype || is_listener e.socktype)
    then some (Result.fail Errno.ebadf)
    else if not has_argp
    then some (Result.fail Errno.efault)
    else if not is_fionread
    then some (Result.fail Errno.einval)
    else if e.stream == null
    then some (Result.fail Errno.ebadf)
    else count
