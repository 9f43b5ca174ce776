-- ===== src/Sockets/Listeners.antt =====
-- The listeners of qstack/src/socket.c, a socket's epoll instance, and the event that waits at its
-- stream until there is one.
use qstack.Common.{
  ℕ, Bool, true, false, Option, none, some, List, [], ◌∷◌, ◌++◌, ◌==◌, ltb, if◌then◌else◌, update,
  not, ◌||◌, ◌&&◌, length, Ptr,
}
use qstack.Cirq.{Ret, success, failed}
use qstack.Sockets.{Entry, SocketTable, SockType}
use qstack.TcpStream.Conn.{PdevSt, Qevent, Vars}
use qstack.TcpIn.Events.{is_writen, pop_event}

-- A listener's number and its socket's: the table of them, in order, has `num` entries.
pub record Listener : Type 0 where
  pub listener : Ptr
  pub sockid : ℕ

unfoldable pub listeners_search : (ℕ → Entry) → List Listener → ℕ → Option Listener
listeners_search sockets [] port = none
listeners_search sockets (l ∷ table) port =
    let rest = listeners_search sockets table port in
    if ((sockets l.sockid).saddr).sin_port == port then some l else rest

unfoldable pub listeners_insert : ℕ → List Listener → Listener → Ret × List Listener
listeners_insert max_socket_num table listener =
    if ltb (length table) max_socket_num
    then (success, table ++ (listener ∷ []))
    else (failed, table)

abbrev pub has_instance : Option ℕ → Bool
has_instance none = false
has_instance (some qfd) = true

-- `false` for FALSE.
unfoldable pub bind_socket_with_qe : ℕ → Option ℕ → SocketTable → Bool × SocketTable
bind_socket_with_qe sockid qe t =
    let e = t.sockets sockid in
    if has_instance e.qe || not (has_instance qe)
    then (false, t)
    else (true, record t { sockets = update t.sockets sockid (record e { qe = qe }) })

abbrev pub is_stream : SockType → Bool
is_stream SockType.stream = true
is_stream _ = false

abbrev pub first_event : List Qevent → Option Qevent
first_event [] = none
first_event (e ∷ l) = some e

-- `none` in the stream's place for a socket without a stream.
unfoldable pub get_pending_event : SockType → Option Vars → Option Qevent × Option Vars
get_pending_event socktype none = (none, none)
get_pending_event socktype (some v) =
    if is_stream socktype && is_writen v.pdev_st
    then (
      first_event v.pending_events,
      some (record v { pdev_st = PdevSt.read; pending_events = pop_event v.pending_events }),
    )
    else (none, some v)
