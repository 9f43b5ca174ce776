-- ===== src/TcpStream/Conn.antt =====
-- The data: a stream, the parts of the stack's context, and the calls of components that are not
-- modelled.
use qstack.Common.{ℕ, Bool, Option, List, ◌∷◌, Ptr}
use qstack.Cirq.{Cirq, Ret}
use qstack.N21.{N21}
use qstack.SendBuff.{SendBuff}
use qstack.RecvBuff.{RecvBuff, Machine}
use qstack.TcpOptions.{Peer}
use qstack.Timer
use qstack.Timer.{Timers}

-- The quintuple of a TCP stream, the local end first.
pub record Qtuple : Type 0 where
  pub ip_src : ℕ
  pub port_src : ℕ
  pub ip_dst : ℕ
  pub port_dst : ℕ

-- `struct qepoll_event`: what `CreateQevent` is given, on the core of the stack.
pub record Qevent : Type 0 where
  pub pri : ℕ
  pub dst : ℕ
  pub sockid : ℕ
  pub nature : ℕ

-- `enum event_list_state`.
pub data PdevSt : Type 0 where
  empty writing writen reading read : PdevSt

-- The fields of `struct socket` that a stream uses; `qe` is whether an event handle is set.
pub record Socket : Type 0 where
  pub id : ℕ
  pub default_app : ℕ
  pub qe : Bool

-- `struct tcp_stream`, `tcp_send_vars` and `tcp_recv_vars`, less the fields of the timers, of the
-- options and of the buffers.
pub record Vars : Type 0 where
  pub id : ℕ
  pub qtuple : Qtuple
  pub rcv_nxt : ℕ
  pub rcv_wnd : ℕ
  pub irs : ℕ
  pub snd_wl1 : ℕ
  pub snd_wl2 : ℕ
  pub dup_acks : ℕ
  pub last_ack_seq : ℕ
  pub iss : ℕ
  pub snd_wnd : ℕ
  pub wscale_mine : ℕ
  pub eff_mss : ℕ
  pub wscale_peer : ℕ
  pub sack_permit : Bool
  pub saw_timestamp : Bool
  pub ts_recent : ℕ
  pub ts_last_ts_upd : ℕ
  pub ts_lastack_sent : ℕ
  pub is_wack : Bool
  pub is_fin_sent : Bool
  pub ack_cnt : ℕ
  pub on_control_queue : Bool
  pub on_send_queue : Bool
  pub on_ack_queue : Bool
  pub on_closeq : Bool
  pub on_resetq : Bool
  pub have_reset : Bool
  pub closed : Bool
  pub control_list_waiting : Bool
  pub socket : Option Socket
  pub pdev_st : PdevSt
  pub pending_events : List Qevent

-- The fields of a TCP header that is sent, with the length of the payload behind it.
pub record Header : Type 0 where
  pub syn : Bool
  pub fin : Bool
  pub rst : Bool
  pub psh : Bool
  pub ack : Bool
  pub seq : ℕ
  pub ack_seq : ℕ
  pub window : ℕ
  pub options : List ℕ
  pub payloadlen : ℕ

-- A call of a component that is not modelled: the flow table, the socket table, the pool of
-- streams, events, and the driver.
pub data HostCall : Type 0 where
  ht_insert : Qtuple → Ptr → HostCall
  ht_delete : Qtuple → HostCall
  socket_alloc : HostCall
  socket_free : ℕ → HostCall
  free_chunk : Ptr → HostCall
  time_event : ℕ → Qevent → HostCall
  wakeup_app : ℕ → HostCall
  ml_ts_reset : HostCall
  io_send : Ptr → Header → HostCall

-- `struct qstack_context`, the sender, and the accept queues of the listener. The last call made
-- comes first.
pub record Host : Type 0 where
  pub timers : Timers
  pub machine : Machine
  pub control_queue : Cirq
  pub ack_queue : Cirq
  pub send_event_queue : N21
  pub send_hevent_queue : N21
  pub close_queue : N21
  pub acceptq : ℕ → N21
  pub flow_cnt : ℕ
  pub host_calls : List HostCall

-- A stream at the pointer `self` that is being processed, in its stack.
pub record Conn : Type 0 where
  pub self : Ptr
  pub own : Timer.Stream
  pub vars : Vars
  pub snd : SendBuff
  pub rcv : RecvBuff
  pub host : Host

-- What the code reads elsewhere: the configuration, the listener, and what calls return. `fuel`
-- bounds the loops over the lists of packets; `qe_after`, `first_look` and `second_look` are what
-- `add_pending_event` reads while the application may be writing.
pub record Env : Type 0 where
  pub stack_id : ℕ
  pub stack_thread : ℕ
  pub app_thread : ℕ
  pub ip_addr : ℕ
  pub listen_port : ℕ
  pub listener_sockid : ℕ
  pub listener_epollin : Bool
  pub sndbuf_size : ℕ
  pub rcvbuf_size : ℕ
  pub chunk : Ptr
  pub new_socket : Option Socket
  pub rand : ℕ
  pub add_time_event_fails : Qevent → Bool
  pub app_has_qstack : ℕ → Bool
  pub qe_after : Bool
  pub first_look : PdevSt
  pub second_look : PdevSt
  pub swmbuf : Ptr
  pub generate_ip_packet : Ret
  pub fuel : ℕ

abbrev pub log : HostCall → Conn → Conn
log k c = record c { host = record (c.host) { host_calls = k ∷ (c.host).host_calls } }

-- A function of timer.h for this stream.
abbrev pub with_timers : (Ptr → Timers → Timers) → Conn → Conn
with_timers f c =
    let t = f c.self (Timer.put (c.host).timers c.self c.own) in
    record c { own = t.stream c.self; host = record (c.host) { timers = t } }

abbrev pub set_own : Timer.Stream → Conn → Conn
set_own v c = record c { own = v }

abbrev pub set_vars : Vars → Conn → Conn
set_vars v c = record c { vars = v }

abbrev pub peer_of : Conn → Peer
peer_of c = record {
  mss = (c.own).mss;
  eff_mss = (c.vars).eff_mss;
  wscale_peer = (c.vars).wscale_peer;
  sack_permit = (c.vars).sack_permit;
  saw_timestamp = (c.vars).saw_timestamp;
  ts_recent = (c.vars).ts_recent;
  ts_last_ts_upd = (c.vars).ts_last_ts_upd;
}

abbrev pub set_peer : Peer → Conn → Conn
set_peer o c = record c {
  own = record (c.own) { mss = o.mss };
  vars = record (c.vars) {
    eff_mss = o.eff_mss;
    wscale_peer = o.wscale_peer;
    sack_permit = o.sack_permit;
    saw_timestamp = o.saw_timestamp;
    ts_recent = o.ts_recent;
    ts_last_ts_upd = o.ts_last_ts_upd;
  };
}
