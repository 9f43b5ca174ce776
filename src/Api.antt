-- ===== src/Api.antt =====
-- The calls of an application on sockets, qstack/src/api.c. A number of a socket is not below 0. A
-- result `none` is a call that ends the process or reads what is not there. What locks and counts is
-- left out: no other thread acts during a call. The pointer that a socket has is that of its stream,
-- or of its listener.
pub mod Close
pub mod Streams
pub mod Listen
pub mod Recv
pub mod Tests
use Prim.Native.Nat.{bit_and, bit_or}
use qstack.Common.{
  ℕ, zero, suc, ◌+◌, Bool, true, false, not, ◌&&◌, ◌||◌, Option, none, some, List, [], ◌∷◌, ◌==◌,
  ltb, leb, if◌then◌else◌, ◌>>=◌, update, sub32, Ptr, null,
}
use qstack.Cirq.{Ret, success, truthy}
use qstack.Mbuf.{MbufState, set_state}
use qstack.N21.{N21, n21q_enqueue, n21q_dequeue_strong, n21q_init}
use qstack.RecvBuff.{RecvBuff, Machine}
use qstack.RecvBuff.Get.{rb_get, rb_merged_len}
use qstack.Timer.{TcpState}
use qstack.Sockets.{SockType, Entry, Address, SocketTable, Config, socket_alloc, is_unused}
use qstack.Sockets.Listeners.{Listener, is_stream, listeners_search, listeners_insert}
use qstack.TcpIn.Events.{q_epollin}

-- The fields of `struct tcp_stream` that a call uses; `stack` is its stack's number.
pub record ApiStream : Type 0 where
  pub id : ℕ
  pub state : TcpState
  pub stack : ℕ
  pub closed : Bool
  pub on_closeq : Bool
  pub socket : Option ℕ
  pub daddr : ℕ
  pub dport : ℕ
  pub rcvbuf : RecvBuff
  pub rcv_wnd : ℕ

-- `struct tcp_listener`.
pub record TcpListener : Type 0 where
  pub sockid : ℕ
  pub backlog : ℕ
  pub port : ℕ
  pub accept_point : ℕ
  pub acceptq : ℕ → N21

-- What the calls share. A pointer of `streams` is `none` where there is no stream.
pub record World : Type 0 where
  pub table : SocketTable
  pub streams : Ptr → Option ApiStream
  pub listener_at : Ptr → TcpListener
  pub listeners : List Listener
  pub machine : Machine
  pub close_queue : ℕ → N21
  pub connect_queue : ℕ → N21

-- `struct qapp_context`, and the fields of the configuration.
pub record App : Type 0 where
  pub app_id : ℕ
  pub core_id : ℕ
  pub app_thread : ℕ
  pub config : Config

pub data Errno : Type 0 where
  eafnosupport einval enfile ebadf enotsock eaddrinuse enotconn eagain efault eisconn : Errno
  ealready no_memory : Errno

pub data Result (A : Type 0) : Type 0 where
  ok : A → Result A
  fail : Errno → Result A

abbrev pub is_listener : SockType → Bool
is_listener SockType.listener = true
is_listener _ = false

abbrev pub sock_opt_addr_bind : ℕ
sock_opt_addr_bind = 2

abbrev pub entry : World → ℕ → Entry
entry w sockid = (w.table).sockets sockid

abbrev pub set_entry : ℕ → Entry → World → World
set_entry sockid e w = record w {
  table = record (w.table) { sockets = update (w.table).sockets sockid e };
}

abbrev pub set_stream : Ptr → ApiStream → World → World
set_stream p s w = record w { streams = update w.streams p (some s) }

-- `pool` is what `get_sock_pool_map` gives; the two flags are whether the domain and the type are
-- those that are supported.
unfoldable pub q_socket : ℕ → Bool → Bool → App → World → Result ℕ × World
q_socket pool is_inet is_stream_type app w =
    let (found, t) = socket_alloc app.config pool SockType.stream w.table in
    let made : Result ℕ × World = elim found [
      | none ↦ (Result.fail Errno.enfile, record w { table = t })
      | some i ↦ (
        Result.ok i,
        set_entry i (record (t.sockets i) { default_app = app.app_id }) (record w { table = t }),
      )
    ] in
    if not is_inet
    then (Result.fail Errno.eafnosupport, w)
    else if not is_stream_type
    then (Result.fail Errno.einval, w)
    else made

-- The address is `none` for NULL, and `is_inet` is the test of its family and its length.
unfoldable pub q_bind : App → ℕ → Option Address → Bool → World → Result Unit × World
q_bind app sockid none is_inet w =
    if not (ltb sockid (app.config).max_concurrency) || is_unused (entry w sockid).socktype
    then (Result.fail Errno.ebadf, w)
    else (Result.fail Errno.einval, w)
q_bind app sockid (some addr) is_inet w =
    let e = entry w sockid in
    let e' = record e { saddr = addr; opts = bit_or e.opts sock_opt_addr_bind } in
    if not (ltb sockid (app.config).max_concurrency)
    then (Result.fail Errno.ebadf, w)
    else if is_unused e.socktype
    then (Result.fail Errno.ebadf, w)
    else if not (bit_and e.opts sock_opt_addr_bind == 0) || not is_inet
    then (Result.fail Errno.einval, w)
    else (Result.ok tt, set_entry sockid e' w)

-- The accept queues of a new listener, from `i` on: `blocks` is what `calloc` gives for each.
unfoldable pub init_acceptq : (ℕ → ℕ → Ptr) → ℕ → ℕ → ℕ → ℕ → World → (ℕ → N21) → (ℕ → N21) × World
init_acceptq blocks stack_thread backlog i zero w qs = (qs, w)
init_acceptq blocks stack_thread backlog i (suc n) w qs =
    let (q, mem) = n21q_init (w.machine).mem stack_thread backlog (blocks i) in
    init_acceptq blocks stack_thread backlog (i + 1) n
      (record w { machine = record (w.machine) { mem = mem } }) (update qs i q)

-- The listener is given back if the table is full; the socket keeps its pointer.
abbrev pub with_listeners : Ret × List Listener → World → Result Unit × World
with_listeners (success, ls) w = (Result.ok tt, record w { listeners = ls })
with_listeners (_, ls) w = (Result.fail Errno.no_memory, record w { listeners = ls })

-- The part of `q_listen` behind its tests. `chunk` is what `mempool_alloc_chunk` gives, with what
-- stood there before.
unfoldable pub listen_on : Ptr → (ℕ → ℕ → Ptr) → (ℕ → ℕ) → App → ℕ → ℕ → World → Result Unit × World
listen_on chunk blocks ntohs app sockid backlog w =
    let e = entry w sockid in
    let e1 = record e { epoll = bit_or e.epoll q_epollin; stream = chunk } in
    let old = (w.listener_at chunk).acceptq in
    let (qs, w1) = init_acceptq blocks (app.config).stack_thread backlog 0 app.app_thread w old in
    let l : TcpListener = record {
      sockid = sockid;
      backlog = backlog;
      port = ntohs (e.saddr).sin_port;
      accept_point = 0;
      acceptq = qs;
    } in
    let w2 = set_entry sockid e1 (record w1 { listener_at = update w1.listener_at chunk l }) in
    let new : Listener = record { listener = chunk; sockid = sockid } in
    let inserted = listeners_insert (app.config).max_socket_num w.listeners new in
    if chunk == null then (Result.fail Errno.no_memory, w) else with_listeners inserted w2

abbrev pub to_listener : SockType → SockType
to_listener SockType.stream = SockType.listener
to_listener t = t

abbrev pub is_some {ℓ} : {A : Type ℓ} → Option A → Bool
is_some none = false
is_some (some a) = true

-- A stream socket becomes a listener before the last tests.
unfoldable pub q_listen : Ptr → (ℕ → ℕ → Ptr) → (ℕ → ℕ) → App → ℕ → ℕ → World → Result Unit × World
q_listen chunk blocks ntohs app sockid backlog w =
    let e = entry w sockid in
    let w1 = set_entry sockid (record e { socktype = to_listener e.socktype }) w in
    let others = listeners_search (w1.table).sockets w.listeners (e.saddr).sin_port in
    if not (ltb sockid (app.config).max_concurrency)
    then (Result.fail Errno.ebadf, w)
    else if is_unused e.socktype
    then (Result.fail Errno.ebadf, w)
    else if (backlog == 0) || ltb (app.config).max_concurrency backlog
    then (Result.fail Errno.einval, w1)
    else if is_some others
    then (Result.fail Errno.eaddrinuse, w1)
    else listen_on chunk blocks ntohs app sockid backlog w1
