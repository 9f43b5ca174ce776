-- ===== src/Qepoll/Add.antt =====
-- Events that are made and added. A place outside an array is memory that the model does not describe.
use Prim.Native.Nat.{bit_or}
use qstack.Common.{
  ℕ, ◌+◌, ◌-◌, ◌*◌, ◌/◌, ◌%◌, Bool, true, false, not, ◌&&◌, Option, none, some, ◌==◌, ltb, leb,
  if◌then◌else◌, ◌>>=◌, u8, update, set, get_or,
}
use qstack.TcpIn.Events.{q_accept}
use qstack.Qepoll.{
  QepollEvent, EventQueue, Qtimer, SocketMap, EventReg, Qarg, Poll, stack_to_qe, app_to_qe,
  event_queue_full, zeroed_event,
}

abbrev pub qepoll_size : ℕ
qepoll_size = 6000000

-- The place of the next event in a buffer: `none` past its end.
abbrev pub place : Qarg → ℕ → Option ℕ
place a i = if ltb i a.size then some i else none

-- The event, which stays in its buffer until the count has gone round.
unfoldable pub create_qevent : ℕ → ℕ → ℕ → ℕ → ℕ → Poll → Option (QepollEvent × Poll)
create_qevent pri core sockid dst type p =
    let filled : ℕ → QepollEvent → QepollEvent = λ dire old. record old {
      pri = pri;
      dire = dire;
      nature = type;
      core = core;
      apid = u8 dst;
      sockid = sockid;
      timeout = 0;
    } in
    let of_app = (do
      let qid = core - p.num_stack
      let a = p.g_qarg qid
      let count = if leb (qepoll_size / p.num_app) a.app_count then 0 else a.app_count
      i ← place a (a.app_buff + count)
      let e = filled app_to_qe (a.qevent_buff i)
      let a' = record a { app_count = count + 1; qevent_buff = update a.qevent_buff i e }
      some (e, record p { g_qarg = update p.g_qarg qid a' })) in
    let of_stack = (do
      let a = p.g_sarg core
      let count = if leb (qepoll_size / p.num_stack) a.qev_count then 0 else a.qev_count
      i ← place a count
      let e = filled stack_to_qe (a.qevent_buff i)
      let a' = record a { qev_count = count + 1; qevent_buff = update a.qevent_buff i e }
      some (e, record p { g_sarg = update p.g_sarg core a' })) in
    if leb p.num_stack core then of_app else of_stack

-- The application that an event goes to: that of the socket's last event while one is not taken.
unfoldable pub q_distribute_event : QepollEvent → Bool → Poll → Option (ℕ × Poll)
q_distribute_event qevent proc p =
    let r = p.reg qevent.sockid in
    let again = (do dst ← r.pr_core; some (dst, p)) in
    let r' : EventReg = record { pr_core = some qevent.apid; proc = true } in
    let first : ℕ × Poll = (qevent.apid, record p { reg = update p.reg qevent.sockid r' }) in
    if not (qevent.nature == q_accept) && proc then again else some first

-- The channel of an event: `none` where the channel's names are not as expected.
unfoldable pub find_chan : QepollEvent → Poll → Option (ℕ × ℕ × Poll)
find_chan qevent p =
    let of_stack = (do
      (qid, p') ← q_distribute_event qevent (p.reg qevent.sockid).proc p
      m ← p'.g_qepoll qid
      sq_chan ← (m.qe).sq_chan
      let chan_id = qevent.core
      let c = p'.chans (sq_chan + chan_id)
      (if (c.src == qevent.core) && (c.dst == qid) && (c.id == chan_id + qid * p'.num_stack)
          then some (sq_chan + chan_id, qid, p')
          else none)) in
    let of_app = (do
      m ← p.g_qepoll qevent.apid
      qs_chan ← (m.qe).qs_chan
      some (qs_chan + qevent.sockid % p.num_stack, qevent.apid, p)) in
    if qevent.dire == stack_to_qe then of_stack else of_app

-- With a timeout the application's counter of timer items moves on, and the timer is started.
abbrev pub start_timer : ℕ → ℕ → ℕ → Poll → Poll
start_timer all_now chan_id qid p =
    let a = p.g_qarg qid in
    let count = if leb (qepoll_size / p.num_app) a.app_count then 0 else a.app_count in
    let c = p.chans chan_id in
    let t = c.q_timeout in
    let start = if t.ull_start == 0 then all_now else t.ull_start in
    record p {
      g_qarg = update p.g_qarg qid (record a { app_count = count + 1 });
      chans = update p.chans chan_id (record c { q_timeout = record t { ull_start = start } });
    }

-- The event in the place behind the queue, which is taken in if the queue is not full.
unfoldable pub put_event : QepollEvent → EventQueue → Bool × EventQueue
put_event e eq =
    let written = record eq { qevent = set eq.qevent eq.end e } in
    if event_queue_full eq
    then (false, written)
    else (true, record written { end = (eq.end + 1) % eq.size })

abbrev pub queue_of : ℕ → Qtimer → EventQueue
queue_of pri t = if pri == 0 then t.low else t.high

abbrev pub set_queue : ℕ → EventQueue → Qtimer → Qtimer
set_queue pri eq t = if pri == 0 then record t { low = eq } else record t { high = eq }

-- What an event becomes in the queue: the place keeps its nature and timeout.
abbrev pub queued_event : ℕ → QepollEvent → SocketMap → QepollEvent → QepollEvent
queued_event event qevent s old = record old {
  pri = qevent.pri;
  dire = qevent.dire;
  core = qevent.core;
  apid = qevent.apid;
  events = event;
  sockid = qevent.sockid;
  data_ = s.ep_data;
}

-- Behind the search for the channel.
unfoldable pub add_to_chan : ℕ → QepollEvent → ℕ → Poll → Bool × Poll
add_to_chan event qevent chan_id p =
    let c = p.chans chan_id in
    let eq = queue_of qevent.pri c.q_timeout in
    let s = p.smap qevent.sockid in
    let s' = record s { qepoll = event; qevents = bit_or s.qevents event } in
    let old = get_or eq.qevent eq.end zeroed_event in
    let (ok, eq') = put_event (queued_event event qevent s' old) eq in
    (
      ok,
      record p {
        smap = update p.smap qevent.sockid s';
        chans =
            update p.chans chan_id (record c { q_timeout = set_queue qevent.pri eq' c.q_timeout });
      },
    )

-- `true` for 0, and `false` for -1: the queue is full.
unfoldable pub add_time_event : ℕ → ℕ → QepollEvent → Poll → Option (Bool × Poll)
add_time_event event all_now qevent p =
    let added = (do
      (chan_id, qid, p1) ← find_chan qevent p
      let p2 = if qevent.timeout == 0 then p1 else start_timer all_now chan_id qid p1
      some (add_to_chan event qevent chan_id p2)) in
    if ltb qevent.pri 2 then added else none
