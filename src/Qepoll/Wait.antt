-- ===== src/Qepoll/Wait.antt =====
-- `qepoll_wait`, `qepoll_wait_pri` and `qepoll_mgt_wait`. Stacks and applications add no events
-- meanwhile. The clock of one turn over a channel is `Ticks`.
use qstack.Common.{
  ℕ, zero, suc, ◌+◌, ◌^◌, Bool, true, false, not, ◌&&◌, ◌||◌, Option, none, some, List, [], ◌∷◌,
  ◌==◌, ltb, leb, if◌then◌else◌, ◌>>=◌, u32, sub32, update, length,
}
use qstack.Qepoll.{
  QepollEvent, EventQueue, Qtimer, Manager, SocketMap, Poll, Taking, event_queue_used,
  qepoll_qevent,
}
use qstack.Qepoll.Add.{queue_of, set_queue}

-- The loop over one queue, on fuel: each round takes an event off it.
unfoldable pub drain : ℕ → (ℕ → SocketMap) → ℕ → Bool → EventQueue → Taking → EventQueue × Taking
drain zero smap maxevents is_high eq t = (eq, t)
drain (suc fuel) smap maxevents is_high eq t =
    let (valid, eq', t') = qepoll_qevent smap is_high eq t in
    let rest = drain fuel smap maxevents is_high eq' t' in
    if event_queue_used eq && ltb (length t.taken) maxevents then rest else (eq, t)

-- The loop over the low queue, on fuel: behind each event the high queue is looked at again.
unfoldable pub drain_low :
    ℕ → (ℕ → SocketMap) → ℕ → EventQueue → EventQueue → Taking → EventQueue × EventQueue × Taking
drain_low zero smap maxevents high low t = (high, low, t)
drain_low (suc fuel) smap maxevents high low t =
    let (valid, low1, t1) = qepoll_qevent smap false low t in
    let (high1, t2) = drain high.size smap maxevents true high t1 in
    let rest = drain_low fuel smap maxevents high1 low1 t2 in
    if event_queue_used low && ltb (length t.taken) maxevents then rest else (high, low, t)

-- Both queues of a channel.
unfoldable pub drain_both : (ℕ → SocketMap) → ℕ → Qtimer → Taking → Qtimer × Taking
drain_both smap maxevents q t =
    let (high1, t1) = drain (q.high).size smap maxevents true q.high t in
    let (high2, low2, t2) = drain_low (q.low).size smap maxevents high1 q.low t1 in
    (record q { high = high2; low = low2 }, t2)

-- What `GetTickMS` gives at its four calls of a turn.
pub record Ticks : Type 0 where
  pub checked : ℕ
  pub started : ℕ
  pub counted : ℕ
  pub ended : ℕ

-- The queues that the time passed covers, of one at most; an `int` below 0 is none.
abbrev pub wheel_count : Ticks → ℕ → Option ℕ
wheel_count k start =
    let cnt = u32 (sub32 k.counted start + 1) in
    if leb (2 ^ 31) cnt then none else some (if ltb 1 cnt then 1 else cnt)

-- The timed turn: `false` for the early returns of 0.
unfoldable pub timed_turn : Ticks → (ℕ → SocketMap) → ℕ → Qtimer → Taking → Bool × Qtimer × Taking
timed_turn k smap maxevents q t =
    let q1 = if q.ull_start == 0 then record q { ull_start = k.started } else q in
    let (q2, t2) = drain_both smap maxevents q1 t in
    let counted : Bool × Qtimer × Taking = elim (wheel_count k q1.ull_start) [
      | none ↦ (false, q1, t)
      | some cnt ↦
          if cnt == 0
          then (true, record q1 { ull_start = k.ended }, t)
          else (true, record q2 { ull_start = k.ended }, t2)
    ] in
    if ltb k.checked q.ull_start then (false, q, t) else counted

abbrev pub turn : Option Ticks → (ℕ → SocketMap) → ℕ → Qtimer → Taking → Bool × Qtimer × Taking
turn none smap maxevents q t = let (q', t') = drain_both smap maxevents q t in (true, q', t')
turn (some k) smap maxevents q t = timed_turn k smap maxevents q t

-- The channel at a place of the array of channels: `true` if the function goes on.
unfoldable pub chan_turn : Option Ticks → ℕ → ℕ → Poll → Taking → Bool × Poll × Taking
chan_turn ticks maxevents i p t =
    let c = p.chans i in
    let (go, q, t') = turn ticks p.smap maxevents c.q_timeout t in
    (go, record p { chans = update p.chans i (record c { q_timeout = q }) }, t')

-- The loop over the places of the channels, in the order in which they are visited.
unfoldable pub visit : Option Ticks → ℕ → List ℕ → Poll → Taking → Bool × Poll × Taking
visit ticks maxevents [] p t = (true, p, t)
visit ticks maxevents (i ∷ is) p t =
    let (go, p', t') = chan_turn ticks maxevents i p t in
    let rest = visit ticks maxevents is p' t' in if go then rest else (false, p', t')

-- `sq_chan[ns]` and `qs_chan[ns]` for each of `n` stacks from `ns` on.
unfoldable pub wait_places : ℕ → ℕ → ℕ → ℕ → List ℕ
wait_places sq_chan qs_chan ns zero = []
wait_places sq_chan qs_chan ns (suc n) =
    (sq_chan + ns) ∷ (qs_chan + ns) ∷ wait_places sq_chan qs_chan (ns + 1) n

pub data WaitResult : Type 0 where
  bad_manager : WaitResult
  ebadf : WaitResult
  einval : WaitResult
  -- The events; whether the thread lets the stack run before it returns.
  events : List (Bool × QepollEvent) → Bool → WaitResult

abbrev pub is_null : List (Bool × QepollEvent) → Bool
is_null [] = true
is_null (x ∷ xs) = false

abbrev pub is_manager : Option Manager → Bool
is_manager none = false
is_manager (some m) = true

abbrev pub start_taking : Poll → Taking
start_taking p = record { reg = p.reg; taken = [] }

abbrev pub finish : Poll → Taking → Poll
finish p t = record p { reg = t.reg }

abbrev pub max_server_num : ℕ
max_server_num = 8

-- `none` where a channel is read before `qepoll_create`. `shares` is whether a stack runs on the
-- application's core; a timed turn that is not made returns 0, though events have been taken.
unfoldable pub qepoll_wait :
    Option Ticks → Bool → ℕ → ℕ → Bool → Poll → ℕ → Option (WaitResult × Poll)
qepoll_wait ticks shares num_stack efd has_events p maxevents =
    let waited = (do
      m ← p.g_qepoll efd
      sq_chan ← (m.qe).sq_chan
      qs_chan ← (m.qe).qs_chan
      let (go, p', t) =
          visit ticks maxevents (wait_places sq_chan qs_chan 0 num_stack) p (start_taking p)
      some (
        (if go
            then WaitResult.events t.taken (is_null t.taken && shares)
            else WaitResult.events [] false),
        finish p' t,
      )) in
    let known = is_manager (p.g_qepoll efd) in
    if not known
    then some (WaitResult.bad_manager, p)
    else if not (ltb efd max_server_num)
    then some (WaitResult.ebadf, p)
    else if num_stack == 0
    then some (WaitResult.events [] shares, p)
    else if not has_events || (maxevents == 0)
    then some (WaitResult.einval, p)
    else waited

-- One queue of each channel from a stack.
unfoldable pub mgt_visit : Bool → ℕ → ℕ → ℕ → Poll → Taking → Poll × Taking
mgt_visit is_high maxevents i zero p t = (p, t)
mgt_visit is_high maxevents i (suc n) p t =
    let c = p.chans i in
    let pri = if is_high then 1 else 0 in
    let eq = queue_of pri c.q_timeout in
    let (eq', t') = drain eq.size p.smap maxevents is_high eq t in
    let p' = record p {
      chans = update p.chans i (record c { q_timeout = set_queue pri eq' c.q_timeout });
    } in
    mgt_visit is_high maxevents (i + 1) n p' t'

unfoldable pub qepoll_mgt_wait : ℕ → ℕ → Bool → Poll → Option (WaitResult × Poll)
qepoll_mgt_wait app_id maxevents is_high p =
    let waited = (do
      m ← p.g_qepoll app_id
      sq_chan ← (m.qe).sq_chan
      let (p', t) = mgt_visit is_high maxevents sq_chan p.num_stack p (start_taking p)
      some (WaitResult.events t.taken false, finish p' t)) in
    let known = is_manager (p.g_qepoll app_id) in
    if not known
    then some (WaitResult.bad_manager, p)
    else if maxevents == 0
    then some (WaitResult.einval, p)
    else if not (ltb app_id max_server_num)
    then some (WaitResult.ebadf, p)
    else waited

-- The loop of `qepoll_wait_pri` over the applications from `ns` on, each with its two channels of the
-- stack `efd`; a result ends it.
unfoldable pub pri_visit :
    Option Ticks → ℕ → ℕ → ℕ → ℕ → Poll → Taking → Option (Option WaitResult × Poll × Taking)
pri_visit ticks maxevents efd ns zero p t = some (none, p, t)
pri_visit ticks maxevents efd ns (suc n) p t =
    let rest = pri_visit ticks maxevents efd (ns + 1) n in
    let visited = (do
      m ← p.g_qepoll ns
      sq_chan ← (m.qe).sq_chan
      qs_chan ← (m.qe).qs_chan
      let (go, p', t') = visit ticks maxevents ((sq_chan + efd) ∷ (qs_chan + efd) ∷ []) p t
      let next = rest p' t'
      (if go then next else some (some (WaitResult.events [] false), p', t'))) in
    if not (is_manager (p.g_qepoll ns)) then some (some WaitResult.bad_manager, p, t) else visited

-- `max_flow_num` is MAX_FLOW_NUM. The events of high and of low priority go to arrays of their own;
-- the two numbers are not written. `has_arrays` is whether the four pointers are there.
unfoldable pub qepoll_wait_pri : Option Ticks → ℕ → ℕ → Bool → Poll → ℕ → Option (WaitResult × Poll)
qepoll_wait_pri ticks max_flow_num efd has_arrays p maxevents =
    let waited = (do
      (early, p', t) ← pri_visit ticks maxevents efd 0 p.num_server p (start_taking p)
      some (elim early [ none ↦ WaitResult.events t.taken false | some r ↦ r ], finish p' t)) in
    if p.num_server == 0
    then some (WaitResult.events [] false, p)
    else if not (is_manager (p.g_qepoll 0))
    then some (WaitResult.bad_manager, p)
    else if not (ltb efd max_flow_num)
    then some (WaitResult.ebadf, p)
    else if not has_arrays || (maxevents == 0)
    then some (WaitResult.einval, p)
    else waited
