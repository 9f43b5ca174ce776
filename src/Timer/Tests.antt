-- ===== src/Timer/Tests.antt =====
-- Concrete streams under the timers, and the theorems on them.
use qstack.Common.{
  Ptr, ◌≤◌, if◌then◌else◌, length, some, OnSome, ℕ, ◌*◌, ◌≡◌, refl, Bool, false, List, [], ◌∷◌,
  ◌||◌, ◌==◌, arith,
}
use qstack.Timer.{
  TcpState, Stream, Call, Timers, rto_list_add, rto_list_remove, timewait_list_add,
  timewait_list_remove,
}
use qstack.Timer.{max_rto_batch}
use qstack.Timer.Returns.{KnowsFin, rto_list_check_returns}
use qstack.Timer.Check.{rto_list_check, timeout_list_check, tcp_stream_destroy}
use qstack.Timer.Invariant.{IsValid}
use qstack.Timer.Expire.{AreEnded, timeout_list_check_lem}
use qstack.Timer.Runs.{Op, add_rto, add_timewait, check_timeout, run, run-IsValid}

abbrev stream : Bool → ℕ → Stream
stream listed active = record {
  state = TcpState.established;
  close_reason = 0;
  snd_nxt = 2000;
  ts_rto = 0;
  last_active_ts = active;
  ts_tw_expire = 0;
  on_rto_idx = 0;
  on_timeout_list = listed;
  on_timewait_list = false;
  snd_una = 1000;
  peer_wnd = 4000;
  fss = 0;
  nrtx = 0;
  rto = 500;
  cwnd = 3000;
  ssthresh = 0;
  mss = 1460;
}

-- Streams at 1, 2 and 3, last active at 1000, 2000 and 3000.
abbrev three : Timers
three = record {
  stream = λ p. stream ((p == 1) || (p == 2) || (p == 3)) (p * 1000);
  rto_list = [];
  timewait_list = [];
  timeout_list = 1 ∷ 2 ∷ 3 ∷ [];
  calls = [];
}

three-IsValid : IsValid three
three-IsValid = record {
  rto = record { marks = λ q. refl; distinct = tt };
  timewait = record { marks = λ q. refl; distinct = tt };
  timeout = record { marks = λ q. ground arith; distinct = (refl, (refl, (refl, tt))) };
  apart = λ q. refl;
}

-- At 302500 the first two have been idle for 300 seconds.
timeout_list_check_lem_example :
    let (n, t') = timeout_list_check 302500 three in
    (n ≡ 2)
    × (t'.calls ≡ Call.destroy 2 ∷ Call.destroy 1 ∷ [])
    × (t'.timeout_list ≡ 3 ∷ [])
    × AreEnded t' (1 ∷ 2 ∷ [])
timeout_list_check_lem_example =
    timeout_list_check_lem 302500 three (omega arith, (omega arith, (omega arith, tt)))

abbrev script : List Op
script = add_rto 1 100 ∷ add_timewait 1 200 ∷ add_rto 2 300 ∷ check_timeout 302500 ∷ []

run-IsValid_example : OnSome IsValid (run script three)
run-IsValid_example = run-IsValid script three three-IsValid

-- Which comes to an end with nobody on the first two lists.
lists-run :
    OnSome
      (λ t. (t.rto_list ≡ []) × (t.timewait_list ≡ []) × (t.timeout_list ≡ 3 ∷ []))
      (run script three)
unfolding timeout_list_check rto_list_add timewait_list_add rto_list_remove tcp_stream_destroy
    timewait_list_remove
lists-run = (refl, refl, refl)

-- One stream waits for an acknowledgement since 500.
abbrev unanswered : Timers
unanswered = record three {
  stream =
      λ p. record (stream (p == 1) 0) { ts_rto = 500; on_rto_idx = if p == 1 then 3000 else 0 };
  rto_list = 1 ∷ [];
}

rto_list_check_returns_example :
    (n : ℕ) × (t' : Timers) × (rto_list_check 600 unanswered ≡ some (n, t'))
    × (n ≤ max_rto_batch)
    × (n ≤ length {A = Ptr} (1 ∷ []))
    × KnowsFin t'
rto_list_check_returns_example = rto_list_check_returns 600 unanswered (λ q. refl)
