-- ===== src/Qepoll.antt =====
-- The events between stacks and applications, qstack/src/qepoll.c with include/qepoll.h: the data, and
-- one queue of events. WHEEL_SIZE is 1: a timer has one queue for each priority, and `llStartIdx`,
-- which is read modulo 1 only, is left out. What QVDEB adds for printing is left out too. A timeout
-- that is not positive is 0.
pub mod Add
pub mod Wait
pub mod Init
pub mod Fetch
pub mod Queue
pub mod Drain
pub mod Added
pub mod Lost
pub mod Channels
pub mod Waited
pub mod Tests
use Prim.Native.Nat.{bit_and}
use qstack.Common.{
  ℕ, ◌+◌, ◌%◌, Bool, true, false, not, ◌&&◌, ◌||◌, Option, List, [], ◌∷◌, ◌++◌, ◌==◌, if◌then◌else◌,
  get_or, set, update,
}

-- `struct qepoll_event`; `data` is the union's word.
pub record QepollEvent : Type 0 where
  pub pri : ℕ
  pub dire : ℕ
  pub nature : ℕ
  pub core : ℕ
  pub apid : ℕ
  pub events : ℕ
  pub sockid : ℕ
  pub timeout : ℕ
  pub data_ : ℕ

abbrev pub zeroed_event : QepollEvent
zeroed_event = record {
  pri = 0;
  dire = 0;
  nature = 0;
  core = 0;
  apid = 0;
  events = 0;
  sockid = 0;
  timeout = 0;
  data_ = 0;
}

-- `enum qevent_dire` and `enum qevent_type`.
abbrev pub stack_to_qe : ℕ
stack_to_qe = 1

abbrev pub app_to_qe : ℕ
app_to_qe = 2

abbrev pub q_epollhup : ℕ
q_epollhup = 16

-- `struct qevent_que`.
pub record EventQueue : Type 0 where
  pub start : ℕ
  pub end : ℕ
  pub size : ℕ
  pub qevent : List QepollEvent

-- `struct qtimer`: the queue of each priority.
pub record Qtimer : Type 0 where
  pub high : EventQueue
  pub low : EventQueue
  pub ull_start : ℕ

pub record Chan : Type 0 where
  pub id : ℕ
  pub src : ℕ
  pub dst : ℕ
  pub q_timeout : Qtimer

-- `struct qepoll`: its channels are indices of the array of all channels.
pub record Qe : Type 0 where
  pub qfd : ℕ
  pub size : ℕ
  pub sq_chan : Option ℕ
  pub qs_chan : Option ℕ

-- `struct qepoll_manager`.
pub record Manager : Type 0 where
  pub qe : Qe
  pub sq_chan : ℕ
  pub qs_chan : ℕ

-- `struct socket_map`.
pub record SocketMap : Type 0 where
  pub id : ℕ
  pub socktype : ℕ
  pub opts : ℕ
  pub qepoll : ℕ
  pub qevents : ℕ
  pub ep_data : ℕ

-- `struct qevent_reg`: -1 is `none`.
pub record EventReg : Type 0 where
  pub pr_core : Option ℕ
  pub proc : Bool

-- `struct qarg`: `app_buff` is a place in `qevent_buff`, which has `size` events.
pub record Qarg : Type 0 where
  pub qev_count : ℕ
  pub app_count : ℕ
  pub app_buff : ℕ
  pub size : ℕ
  pub qevent_buff : ℕ → QepollEvent

-- `struct qconfig_epoll` and the globals of the file; `efd` is one more than the source's.
pub record Poll : Type 0 where
  pub num_stack : ℕ
  pub num_server : ℕ
  pub num_app : ℕ
  pub efd : ℕ
  pub smap : ℕ → SocketMap
  pub reg : ℕ → EventReg
  pub chans : ℕ → Chan
  pub g_qepoll : ℕ → Option Manager
  pub g_qarg : ℕ → Qarg
  pub g_sarg : ℕ → Qarg

abbrev pub event_queue_used : EventQueue → Bool
event_queue_used eq = not (eq.end == eq.start)

abbrev pub event_queue_full : EventQueue → Bool
event_queue_full eq = ((eq.end + 1) % eq.size) == eq.start

abbrev pub first_event : EventQueue → QepollEvent
first_event eq = get_or eq.qevent eq.start zeroed_event

-- The two tests of an event that is taken: its socket is registered for it, and it has one.
abbrev pub is_valid_event : (ℕ → SocketMap) → QepollEvent → Bool
is_valid_event smap e = not (bit_and (smap e.sockid).qepoll e.events == 0) && not (e.events == 0)

-- What `qepoll_wait` fills: the events taken, with whether they are of high priority.
pub record Taking : Type 0 where
  pub reg : ℕ → EventReg
  pub taken : List (Bool × QepollEvent)

abbrev pub next_event : EventQueue → EventQueue
next_event eq = record eq { start = (eq.start + 1) % eq.size }

abbrev pub take_event : (ℕ → SocketMap) → Bool → QepollEvent → Taking → Taking
take_event smap is_high e t =
    if is_valid_event smap e
    then record {
      reg = update t.reg e.sockid (record (t.reg e.sockid) { proc = false });
      taken = t.taken ++ ((is_high, e) ∷ []);
    }
    else t

unfoldable pub qepoll_qevent :
    (ℕ → SocketMap) → Bool → EventQueue → Taking → Bool × EventQueue × Taking
qepoll_qevent smap is_high eq t =
    let e = first_event eq in (is_valid_event smap e, next_event eq, take_event smap is_high e t)
