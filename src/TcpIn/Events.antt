-- ===== src/TcpIn/Events.antt =====
-- The events of tcp_in.c. A number of applications that is 0 would divide by zero. `CreateQevent`
-- and `AddTimeEvent` are calls, put on the log of the host.
use qstack.Common.{
  ℕ, ◌%◌, Bool, true, false, not, Option, none, some, List, [], ◌∷◌, ◌++◌, ◌==◌, if◌then◌else◌,
  ◌>>=◌, u8, update,
}
use qstack.N21.{n21q_enqueue}
use qstack.Timer.{TcpState}
use qstack.TcpStream.Conn.{Qevent, PdevSt, Socket, HostCall, Conn, Env, log, set_vars}
use qstack.TcpOut.Queues.{is_success}

abbrev pub q_read : ℕ
q_read = 1

abbrev pub q_accept : ℕ
q_accept = 16

abbrev pub q_epollin : ℕ
q_epollin = 1

abbrev pub q_epollout : ℕ
q_epollout = 4

abbrev pub q_epollerr : ℕ
q_epollerr = 8

abbrev pub is_writen : PdevSt → Bool
is_writen PdevSt.writen = true
is_writen _ = false

-- `event_list_append` and `event_list_pop`.
abbrev pub append_event : List Qevent → Qevent → List Qevent
append_event l e = l ++ (e ∷ [])

abbrev pub pop_event : List Qevent → List Qevent
pop_event [] = []
pop_event (e ∷ l) = l

-- `true` for SUCCESS. What the application does when it reads the list meanwhile is not part of
-- this.
unfoldable pub add_pending_event : Env → Qevent → Conn → Bool × Conn
add_pending_event env event c =
    let v = c.vars in
    let on : PdevSt → Conn = λ st.
      set_vars (record v { pdev_st = st; pending_events = append_event v.pending_events event })
        c in
    let off =
      set_vars
        (record v {
          pdev_st = env.second_look;
          pending_events = pop_event (append_event v.pending_events event);
        })
        c in
    if not env.qe_after
    then (true, on PdevSt.writen)
    else if not (is_writen env.first_look)
    then (true, on env.first_look)
    else if not (is_writen env.second_look)
    then (true, on env.second_look)
    else (false, off)

abbrev pub has_qe : Option Socket → Bool
has_qe none = false
has_qe (some s) = s.qe

-- `true` if the event is to be raised now.
unfoldable pub check_stream_event_validation : Env → Qevent → Conn → Bool × Conn
check_stream_event_validation env event c =
    let (ret, c') = add_pending_event env event c in
    if has_qe (c.vars).socket then (true, c) else (not ret, c')

-- The application that a socket's events go to, which the first event settles.
unfoldable pub event_dest : Env → Socket → Conn → ℕ × Conn
event_dest env s c =
    let chosen =
      if env.stack_thread == env.app_thread
      then u8 env.stack_id
      else u8 ((c.vars).id % env.app_thread) in
    if s.default_app == 255
    then (
      chosen,
      set_vars (record (c.vars) { socket = some (record s { default_app = chosen }) }) c,
    )
    else (s.default_app, c)

-- The call of `AddTimeEvent`, and waking the application.
abbrev pub add_time_event : Env → ℕ → Qevent → Conn → Conn
add_time_event env event_type event c =
    let c1 = log (HostCall.time_event event_type event) c in
    if env.add_time_event_fails event
    then c1
    else if env.app_has_qstack event.dst
    then log (HostCall.wakeup_app event.dst) c1
    else c1

-- A priority that is not -1.
unfoldable pub add_read_event : Env → ℕ → ℕ → ℕ → ℕ → Conn → Conn
add_read_event env event_type pri sockid dst c =
    let event : Qevent = record { pri = u8 pri; dst = dst; sockid = sockid; nature = q_read } in
    let (now, c1) = check_stream_event_validation env event c in
    if now then add_time_event env event_type event c1 else c1

-- The priority -1.
unfoldable pub add_accept_event : Env → ℕ → ℕ → ℕ → Conn → Conn
add_accept_event env event_type sockid dst c =
    add_time_event env event_type
      (record { pri = 1; dst = dst; sockid = sockid; nature = q_accept }) c

-- The body that the four functions share, with the socket that they look for.
unfoldable pub raise_to : Env → ℕ → ℕ → Socket → Conn → Conn
raise_to env event_type pri s c =
    let (dst, c1) = event_dest env s c in add_read_event env event_type pri (c.vars).id dst c1

unfoldable pub raise_event : Env → ℕ → ℕ → Conn → Conn
raise_event env event_type pri c = elim ((c.vars).socket) [
  | none ↦ c
  | some s ↦ raise_to env event_type pri s c
]

unfoldable pub raise_read_event : Env → ℕ → Conn → Conn
raise_read_event env pri c = raise_event env q_epollin pri c

unfoldable pub raise_write_event : Env → Conn → Conn
raise_write_event env c = raise_event env q_epollout 0 c

unfoldable pub raise_error_event : Env → Conn → Conn
raise_error_event env c = raise_event env q_epollerr 0 c

unfoldable pub raise_close_event : Env → Conn → Conn
raise_close_event env c = raise_read_event env 1 c

-- The stream into the accept queue of an application; it is closed again when that is full.
unfoldable pub enqueue_accept : Env → ℕ → Conn → Conn
enqueue_accept env accepter c =
    let w = (c.host).machine in
    let (ret, q, mem) = n21q_enqueue ((c.host).acceptq accepter) w.mem env.stack_id c.self in
    let c1 = record c {
      host = record (c.host) {
        acceptq = update ((c.host).acceptq) accepter q;
        machine = record w { mem = mem };
      };
    } in
    if is_success ret
    then c1
    else record c1 { own = record (c.own) { close_reason = 7; state = TcpState.closed } }

-- The listening socket, if it asks for events.
unfoldable pub tell_listener : Env → ℕ → Conn → Conn
tell_listener env accepter c =
    if env.listener_epollin
    then add_accept_event env q_epollin env.listener_sockid accepter c
    else c

-- A stream without a socket is a NULL pointer that is followed.
unfoldable pub raise_accept_event : Env → Conn → Option Conn
raise_accept_event env c = do
  s ← (c.vars).socket
  let (accepter, c1) = event_dest env s c
  some (tell_listener env accepter (enqueue_accept env accepter c1))
