-- ===== src/Qepoll/Fetch.antt =====
-- The events that an application has fetched and not yet handled: `evmgtq` and `event_mgt`. Where a
-- stack shares the core, it runs before the first look and while the application sleeps: what it
-- does then to the events is `checked` and `slept`.
use qstack.Common.{
  ℕ, ◌+◌, Bool, true, false, Option, none, some, List, [], ◌∷◌, ◌==◌, ltb, if◌then◌else◌, ◌>>=◌,
  length, get_or, replicate, ◌&&◌, not,
}
use qstack.Qepoll.{QepollEvent, Poll, zeroed_event}
use qstack.Qepoll.Wait.{WaitResult, qepoll_mgt_wait}

-- `num` is 0 for a wait that failed with -1: neither is more than `p`.
pub record EvmgtQueue : Type 0 where
  pub events : List QepollEvent
  pub num : ℕ
  pub p : ℕ

pub record EventMgt : Type 0 where
  pub size : ℕ
  pub lb : ℕ
  pub events_h : EvmgtQueue
  pub events_l : EvmgtQueue

abbrev pub evmgtq_init : ℕ → EvmgtQueue
evmgtq_init size = record { events = replicate size zeroed_event; num = 0; p = 0 }

abbrev pub eventmgt_init : ℕ → ℕ → EventMgt
eventmgt_init maxsize lb = record {
  size = maxsize;
  lb = lb;
  events_h = evmgtq_init maxsize;
  events_l = evmgtq_init lb;
}

abbrev pub evmgtq_get : EvmgtQueue → Option QepollEvent × EvmgtQueue
evmgtq_get q =
    if not (q.num == 0) && ltb q.p q.num
    then (some (get_or q.events q.p zeroed_event), record q { p = q.p + 1 })
    else (none, q)

-- The array after a wait has written to its front.
abbrev pub overwrite : List QepollEvent → List (Bool × QepollEvent) → List QepollEvent
overwrite old [] = old
overwrite [] (x ∷ xs) = []
overwrite (o ∷ old) ((h, e) ∷ xs) = e ∷ overwrite old xs

abbrev pub fetched : EvmgtQueue → WaitResult → EvmgtQueue
fetched q (WaitResult.events l shares) = record {
  events = overwrite q.events l;
  num = length l;
  p = 0;
}
fetched q _ = record { events = q.events; num = 0; p = 0 }

unfoldable pub evmgtq_fetch_events : EvmgtQueue → ℕ → ℕ → Bool → Poll → Option (EvmgtQueue × Poll)
evmgtq_fetch_events q app_id maxevents is_high p = (do
  (r, p') ← qepoll_mgt_wait app_id maxevents is_high p
  some (fetched q r, p'))

-- The next event of one queue: where there is none left, after a fetch.
unfoldable pub get_or_fetch :
    ℕ → ℕ → Bool → EvmgtQueue → Poll → Option (Option QepollEvent × EvmgtQueue × Poll)
get_or_fetch efd maxevents is_high q p =
    let again = (do
      (q1, p1) ← evmgtq_fetch_events q efd maxevents is_high p
      let (r, q2) = evmgtq_get q1
      some (r, q2, p1)) in
    let (r, q1) = evmgtq_get q in elim r [ none ↦ again | some e ↦ some (some e, q1, p) ]

-- The low queue, after the high one gave none; `slept` is for a stack on this core.
unfoldable pub get_low :
    (Poll → Poll) → ℕ → EventMgt → Poll → Option (Option QepollEvent × EventMgt × Poll)
get_low slept efd mgt p = (do
  (r, l, p1) ← get_or_fetch efd mgt.lb false mgt.events_l p
  let p2 : Poll = elim r [ none ↦ slept p1 | some e ↦ p1 ]
  some (r, record mgt { events_l = l }, p2))

unfoldable pub eventmgt_get :
    (Poll → Poll)
    → (Poll → Poll)
    → ℕ
    → EventMgt
    → Poll
    → Option (Option QepollEvent × EventMgt × Poll)
eventmgt_get checked slept efd mgt p = (do
  (r, h, p1) ← get_or_fetch efd mgt.size true mgt.events_h (checked p)
  let mgt1 = record mgt { events_h = h }
  elim r [ none ↦ get_low slept efd mgt1 p1 | some e ↦ some (some e, mgt1, p1) ])
