-- ===== src/Qepoll/Init.antt =====
-- What is allocated before the first event, and the operations on an instance: `q_init_manager`,
-- `qepoll_create` and `qepoll_ctl`. Allocation does not fail. Of an array, the places behind its end
-- are not described.
use Prim.Native.Nat.{bit_and, bit_or}
use qstack.Common.{
  ℕ, ◌+◌, ◌-◌, ◌*◌, ◌/◌, ◌%◌, Bool, false, not, ◌&&◌, Option, none, some, ◌==◌, ltb, if◌then◌else◌,
  ◌>>=◌, replicate, update,
}
use qstack.Sockets.{SocketTable}
use qstack.Sockets.Listeners.{bind_socket_with_qe}
use qstack.TcpIn.Events.{q_epollin, q_epollout, q_epollerr}
use qstack.Qepoll.{
  QepollEvent, EventQueue, Qtimer, Chan, Qe, Manager, SocketMap, EventReg, Qarg, Poll, zeroed_event,
  app_to_qe, q_epollhup,
}
use qstack.Qepoll.Add.{qepoll_size, add_time_event}
use qstack.Qepoll.Wait.{is_manager}

-- Each of the queues of one priority.
abbrev pub q_create_eque : ℕ → EventQueue
q_create_eque isize = record {
  start = 0;
  end = 0;
  size = isize;
  qevent = replicate isize zeroed_event;
}

abbrev pub q_alloc_timeout : ℕ → Qtimer
q_alloc_timeout isize = record {
  high = q_create_eque isize;
  low = q_create_eque isize;
  ull_start = 0;
}

-- The channels between `s` stacks and `a` applications, by place.
unfoldable pub q_alloc_achan : ℕ → ℕ → ℕ → ℕ → Chan
q_alloc_achan s a isize i =
    let j = i - s * a in
    if ltb i (s * a)
    then record { id = i; src = i % s; dst = i / s; q_timeout = q_alloc_timeout (isize / s) }
    else record { id = i; src = j / s; dst = j % s; q_timeout = q_alloc_timeout (isize / s) }

-- What AllocateSocket leaves of a socket.
abbrev pub allocate_socket : ℕ → SocketMap → SocketMap
allocate_socket socktype s = record s {
  socktype = socktype;
  opts = 0;
  qepoll = 0;
  qevents = 0;
  ep_data = 0;
}

abbrev zeroed_map : SocketMap
zeroed_map = record { id = 0; socktype = 0; opts = 0; qepoll = 0; qevents = 0; ep_data = 0 }

abbrev pub init_map : ℕ → SocketMap
init_map j = allocate_socket 1 (record zeroed_map { id = j })

abbrev no_reg : EventReg
no_reg = record { pr_core = none; proc = false }

abbrev zeroed_qarg : Qarg
zeroed_qarg = record {
  qev_count = 0;
  app_count = 0;
  app_buff = 0;
  size = 0;
  qevent_buff = λ i. zeroed_event;
}

-- The globals, where all is not yet allocated.
unfoldable pub qconf_init : ℕ → ℕ → ℕ → Poll
qconf_init stack server app = record {
  num_stack = stack;
  num_server = server;
  num_app = app;
  efd = 0;
  smap = λ j. zeroed_map;
  reg = λ j. no_reg;
  chans = λ i. q_alloc_achan 1 0 0 i;
  g_qepoll = λ i. none;
  g_qarg = λ i. zeroed_qarg;
  g_sarg = λ i. zeroed_qarg;
}

-- The buffer of a stack, whose `app_buff` is not used, and that of an application.
abbrev pub init_sarg : ℕ → Qarg
init_sarg num_stack = record zeroed_qarg {
  app_buff = qepoll_size / (2 * num_stack);
  size = qepoll_size / num_stack;
}

abbrev pub init_qarg : ℕ → Qarg
init_qarg num_server = record zeroed_qarg {
  app_buff = qepoll_size / (2 * num_server);
  size = qepoll_size / num_server;
}

abbrev pub init_manager : ℕ → ℕ → ℕ → Manager
init_manager num_stack num_server i = record {
  qe = record { qfd = i; size = 0; sq_chan = none; qs_chan = none };
  sq_chan = num_stack * i;
  qs_chan = num_stack * (num_server + i);
}

unfoldable pub q_init_manager : ℕ → ℕ → Poll
q_init_manager stack server = record (qconf_init stack server 1) {
  smap = init_map;
  reg = λ j. no_reg;
  chans = q_alloc_achan stack server (qepoll_size / server);
  g_qepoll = λ i. if ltb i server then some (init_manager stack server i) else none;
  g_qarg = λ i. init_qarg server;
  g_sarg = λ i. init_sarg stack;
}

-- The instance with its channels; `none` for one that is not there. -1 is the result `none`.
unfoldable pub qepoll_create : ℕ → ℕ → ℕ → Poll → Option (Option ℕ × Poll)
qepoll_create max_concurrency app_thread size p =
    let qid = p.efd in
    let created = (do
      qtx ← p.g_qepoll qid
      let qe : Qe = record qtx.qe {
        size = max_concurrency / app_thread;
        sq_chan = some qtx.sq_chan;
        qs_chan = some qtx.qs_chan;
      }
      let g = update p.g_qepoll qid (some (record qtx { qe = qe }))
      some (some qid, record p { efd = qid + 1; g_qepoll = g })) in
    if size == 0 then some (none, p) else created

-- The instance of a coroutine.
abbrev pub q_alloc_qepoll : Poll → Option (Qe × Poll)
q_alloc_qepoll p =
    let allocated = (do m ← p.g_qepoll (p.efd - 1); some (m.qe, record p { efd = p.efd + 1 })) in
    if p.efd == 0 then none else allocated

abbrev pub qepoll_get_thread_chan : ℕ → ℕ → Poll → Option ℕ
qepoll_get_thread_chan stk_id srv_id p = (do m ← p.g_qepoll srv_id; some (m.sq_chan + srv_id))

unfoldable pub q_free_map : ℕ → Poll → Poll
q_free_map sockid p =
    let s = p.smap sockid in
    record p {
      smap = update p.smap sockid (record s { qepoll = 0; socktype = 1; opts = 0; qevents = 0 });
    }

unfoldable pub qepoll_reset : ℕ → ℕ → Poll → Poll
qepoll_reset app_id fd p = q_free_map fd p

pub data CtlResult : Type 0 where
  done : CtlResult
  no_manager : CtlResult
  ebadf : CtlResult
  einval : CtlResult
  enoent : CtlResult

-- What `qepoll_ctl` changes: the event is the caller's.
pub record Ctl : Type 0 where
  pub poll : Poll
  pub table : SocketTable
  pub event : QepollEvent

-- An event of kind `kind`, if the socket is registered for it at this point.
unfoldable pub add_registered : ℕ → ℕ → ℕ → QepollEvent → Poll → Option Poll
add_registered kind all_now fd event p =
    let added = (do (ok, p') ← add_time_event kind all_now event p; some p') in
    if bit_and (p.smap fd).qepoll kind == 0 then some p else added

-- EPOLLIN, then EPOLLOUT.
unfoldable pub add_both : ℕ → ℕ → QepollEvent → Poll → Option Poll
add_both all_now fd event p = (do
  p' ← add_registered q_epollin all_now fd event p
  add_registered q_epollout all_now fd event p')

-- EPOLLERR and EPOLLHUP are registered always.
unfoldable pub register : ℕ → QepollEvent → Poll → Poll
register fd event p = record p {
  smap = update p.smap fd (record (p.smap fd) {
    ep_data = event.data_;
    qepoll = bit_or event.events (bit_or q_epollerr q_epollhup);
  });
}

-- The event that waits at a socket that was no socket of an application yet.
unfoldable pub add_pending : ℕ → ℕ → Option QepollEvent → Poll → Option Poll
add_pending all_now efd none p = some p
add_pending all_now efd (some e) p = (do
  (ok, p') ← add_time_event q_epollin all_now (record e { dire = app_to_qe; apid = efd }) p
  some p')

unfoldable pub ctl_add : ℕ → ℕ → ℕ → Qe → Option QepollEvent → Ctl → Option Ctl
ctl_add all_now efd fd qe pend_ev c =
    let event : QepollEvent = record c.event { sockid = fd; apid = efd } in
    let p = register fd event c.poll in
    let known = (do
      p' ← add_both all_now fd event p
      some (record c { poll = p'; event = event })) in
    let fresh = (do
      p' ← add_pending all_now efd pend_ev p
      let s' = record (p'.smap fd) { socktype = 2 }
      let (bound, table') = bind_socket_with_qe fd (some qe.qfd) c.table
      some (record {
        poll = record p' { smap = update p'.smap fd s' };
        table = table';
        event = event;
      })) in
    if ltb 1 (p.smap fd).socktype && ltb 0 fd then known else fresh

unfoldable pub ctl_mod : ℕ → ℕ → Ctl → Option Ctl
ctl_mod all_now fd c =
    let p = register fd c.event c.poll in
    let added = (do p' ← add_both all_now fd c.event p; some (record c { poll = p' })) in
    if (p.smap fd).socktype == 1 then added else some (record c { poll = p })

unfoldable pub ctl_del : ℕ → Ctl → CtlResult × Ctl
ctl_del fd c =
    let p = c.poll in
    let s = p.smap fd in
    if s.qepoll == 0 then (CtlResult.enoent, c) else (
      CtlResult.done,
      record c { poll = record p { smap = update p.smap fd (record s { qepoll = 0 }) } },
    )

abbrev pub is_done : Option Ctl → Option (CtlResult × Ctl)
is_done x = (do c ← x; some (CtlResult.done, c))

-- `fd` is `none` below 0, and `pend_ev` is what `get_pending_event` gives for it. A missing event
-- is `has_event` false.
unfoldable pub qepoll_ctl :
    ℕ → ℕ → Option ℕ → Bool → ℕ → Option QepollEvent → Ctl → Option (CtlResult × Ctl)
qepoll_ctl efd op none has_event all_now pend_ev c =
    if is_manager ((c.poll).g_qepoll efd)
    then some (CtlResult.ebadf, c)
    else some (CtlResult.no_manager, c)
qepoll_ctl efd op (some fd) has_event all_now pend_ev c =
    let added = (do m ← (c.poll).g_qepoll efd; is_done (ctl_add all_now efd fd m.qe pend_ev c)) in
    if not (is_manager ((c.poll).g_qepoll efd))
    then some (CtlResult.no_manager, c)
    else if not has_event && not (op == 2)
    then some (CtlResult.einval, c)
    else if op == 1
    then added
    else if op == 3
    then is_done (ctl_mod all_now fd c)
    else if op == 2
    then some (ctl_del fd c)
    else some (CtlResult.done, c)
