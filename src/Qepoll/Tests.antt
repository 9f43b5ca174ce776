-- ===== src/Qepoll/Tests.antt =====
-- Two stacks and one application, on small queues.
use qstack.Common.{
  ℕ, ◌≡◌, refl, Bool, true, false, Option, none, some, List, [], ◌∷◌, ◌==◌, OnSome, if-cases, ltb,
  if◌then◌else◌, arith,
}
use qstack.TcpIn.Events.{q_read, q_epollin, q_epollout}
use qstack.Qepoll.{QepollEvent, qepoll_qevent, Chan, Poll, zeroed_event, stack_to_qe}
use qstack.Qepoll.Add.{put_event, find_chan, q_distribute_event, add_to_chan, add_time_event}
use qstack.Qepoll.Wait.{
  drain, drain_low, visit, chan_turn, drain_both, qepoll_wait, wait_places, start_taking,
  WaitResult,
}
use qstack.Qepoll.Init.{
  q_create_eque, q_alloc_timeout, q_alloc_achan, init_map, init_manager, init_qarg, init_sarg,
  q_init_manager, add_both, add_registered,
}
use qstack.Qepoll.Queue.{IsValid, contents, q_create_eque-IsValid, put_event-IsValid}
use qstack.Qepoll.Drain.{IsTurn, take_both, drain_both_lem}
use qstack.Qepoll.Waited.{AreValid, Waited, qepoll_wait-Waited}
use qstack.Qepoll.Channels.{IsWired, IsCreated, q_init_manager-IsWired, q_alloc_achan-IsNumbered}
use qstack.Qepoll.Added.{Added, add_time_event-Added}
use qstack.Qepoll.Lost.{unlost, drain_both-unlost, add_both-add_registered}

-- As `q_init_manager` leaves it, but for the size of the queues.
abbrev fresh : Poll
fresh = record {
  num_stack = 2;
  num_server = 1;
  num_app = 1;
  efd = 0;
  smap = init_map;
  reg = λ j. record { pr_core = none; proc = false };
  chans = q_alloc_achan 2 1 16;
  g_qepoll = λ i. if ltb i 1 then some (init_manager 2 1 i) else none;
  g_qarg = λ i. init_qarg 1;
  g_sarg = λ i. init_sarg 2;
}

fresh-IsWired : IsWired fresh
fresh-IsWired = record {
  numbered = λ q i hq hi. q_alloc_achan-IsNumbered 2 1 q i hq hi 16;
  handed = λ s h. absurd (ground (arith, h));
}

eight : IsValid (q_create_eque 8)
eight = q_create_eque-IsValid 8 (omega arith)

fresh-AreValid : AreValid fresh
unfolding q_alloc_achan
fresh-AreValid = record {
  high =
      λ i. if-cases (λ (c : Chan). IsValid (c.q_timeout).high) (ltb i 2) (λ y. eight) (λ n. eight);
  low = λ i. if-cases (λ (c : Chan). IsValid (c.q_timeout).low) (ltb i 2) (λ y. eight) (λ n. eight);
}

-- The application has its instance.
abbrev ready : Poll
ready = record fresh {
  efd = 1;
  g_qepoll = λ i.
      if ltb i 1
      then some (record (init_manager 2 1 i) {
        qe = record { qfd = i; size = 100; sq_chan = some 0; qs_chan = some 2 };
      })
      else none;
}

ready-IsWired : IsWired ready
ready-IsWired = record {
  numbered = fresh-IsWired.numbered;
  handed = λ s h. absurd (ground (arith, h));
}

ready-AreValid : AreValid ready
ready-AreValid = record { high = fresh-AreValid.high; low = fresh-AreValid.low }

ready-IsCreated : IsCreated ready 0
ready-IsCreated = record { manager = _; known = refl; sq_chan = refl; in_range = omega arith }

-- Input at socket 7, of stack 1.
abbrev input : QepollEvent
input = record zeroed_event {
  pri = 1;
  dire = stack_to_qe;
  nature = q_read;
  core = 1;
  events = q_epollin;
  sockid = 7;
}

-- Socket 7 is registered for input.
abbrev registered : Poll
registered = record ready {
  smap = λ j. if j == 7 then record (init_map 7) { qepoll = 25; socktype = 2 } else init_map j;
}

-- Each channel holds input for the application.
abbrev waiting : Poll
waiting = record registered {
  chans = λ i. record (q_alloc_achan 2 1 16 i) {
    q_timeout = record (q_alloc_timeout 8) { high = (put_event input (q_create_eque 8)).1 };
  };
}

waiting-AreValid : AreValid waiting
waiting-AreValid = record { high = λ i. put_event-IsValid input eight; low = λ i. eight }

three_instances : IsWired (q_init_manager 2 3)
three_instances = q_init_manager-IsWired 2 3

add_time_event-Added_example : Added 1 input ready (add_time_event 1 0 input ready)
add_time_event-Added_example =
    add_time_event-Added 1 0 input ready ready-AreValid ready-IsWired refl (omega arith)
      (omega arith) ready-IsCreated

qepoll_wait-Waited_example :
    Waited 4 (wait_places 0 2 0 2) (qepoll_wait none false 2 0 true waiting 4)
qepoll_wait-Waited_example =
    qepoll_wait-Waited false 2 0 4 0 2 waiting _ waiting-AreValid refl refl refl (omega arith)
      (omega arith) (omega arith)

drain_both_lem_example :
    IsTurn
      (take_both registered.smap 4
        (contents ((waiting.chans 1).q_timeout).high)
        (contents ((waiting.chans 1).q_timeout).low)
        (start_taking registered))
      (drain_both registered.smap 4 (waiting.chans 1).q_timeout (start_taking registered))
drain_both_lem_example =
    drain_both_lem registered.smap 4 (waiting.chans 1).q_timeout (start_taking registered)
      (waiting-AreValid.high 1) (waiting-AreValid.low 1)

-- Output is added while input waits.
drain_both-unlost_example :
    OnSome
      (λ r.
        let q = (waiting.chans 1).q_timeout in
        let keep = unlost 7 q_epollout in
        let d = drain_both (r.1).smap 4 q (start_taking registered) in
        (keep (contents (d.0).high), keep (contents (d.0).low), d.1)
        ≡ take_both
            (r.1).smap
            4
            (keep (contents q.high))
            (keep (contents q.low))
            (start_taking registered))
      (add_time_event q_epollout 0 (record input { events = q_epollout }) registered)
drain_both-unlost_example =
    drain_both-unlost q_epollout 0 4 (record input { events = q_epollout }) registered
      (waiting.chans 1).q_timeout (start_taking registered) (waiting-AreValid.high 1)
      (waiting-AreValid.low 1)

add_both-add_registered_example :
    add_both 0 7 input registered ≡ add_registered q_epollin 0 7 input registered
add_both-add_registered_example = add_both-add_registered 0 input registered refl

-- The sockets and kinds of what one wait gives.
abbrev given : List (Bool × QepollEvent) → List (Bool × ℕ × ℕ)
given [] = []
given ((h, e) ∷ l) = (h, e.sockid, e.events) ∷ given l

abbrev wait_all : Option (Bool × Poll) → List (Bool × ℕ × ℕ)
wait_all none = []
wait_all (some (ok, p)) = elim (qepoll_wait none false 2 0 true p 4) [
  | none ↦ []
  | some (r, q) ↦ events_of r
]
  where
    events_of : WaitResult → List (Bool × ℕ × ℕ)
    events_of (WaitResult.events l shares) = given l
    events_of _ = []

one_event : wait_all (add_time_event q_epollin 0 input registered) ≡ (true, 7, 1) ∷ []
unfolding add_time_event find_chan q_distribute_event q_alloc_achan qepoll_wait add_to_chan visit
    wait_places chan_turn drain_both drain_low drain put_event qepoll_qevent
one_event = refl

-- The input that waits goes away as output is added.
lost_input :
    wait_all (add_time_event q_epollout 0 (record input { events = q_epollout }) waiting)
    ≡ (true, 7, 4) ∷ []
unfolding add_time_event find_chan q_distribute_event q_alloc_achan qepoll_wait add_to_chan visit
    wait_places chan_turn drain_both drain_low drain put_event qepoll_qevent
lost_input = refl

still_there :
    wait_all (some (true, waiting)) ≡ (true, 7, 1) ∷ (true, 7, 1) ∷ (true, 7, 1) ∷ (true, 7, 1) ∷ []
unfolding add_time_event find_chan q_distribute_event q_alloc_achan qepoll_wait add_to_chan visit
    wait_places chan_turn drain_both drain_low drain put_event qepoll_qevent
still_there = refl
