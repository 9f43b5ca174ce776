-- ===== src/TcpStream/Ends.antt =====
-- What is left behind a stream that is destroyed.
use qstack.Common.{
  ◌≡◌, refl, sym, ◌∙◌, ap, subst, false, Option, none, some, ◌==◌, OnSome, OnSome-then,
  if◌then◌else◌, Ptr, arith, List, ◌∷◌, sub32, Bool-cases, inl, inr,
}
use qstack.Mbuf.Chain.{has}
use qstack.SendBuff.{sb_free}
use qstack.RecvBuff.Get.{rb_clear}
use qstack.Timer
use qstack.Timer.{
  Timers, put, call, Call, timeout_list_remove, timewait_list_remove, rto_list_remove,
}
use qstack.Timer.Check
use qstack.Timer.Invariant.{IsValid}
use qstack.Timer.Runs.{tcp_stream_destroy-IsValid}
use qstack.TcpStream.Conn.{HostCall, Conn, Env, Socket, log, with_timers}
use qstack.TcpStream.Life.{free_socket, tcp_stream_destroy}

-- No list of the timers holds the stream `p`.
pub record InNone (p : Ptr) (t : Timers) : Type 0 where
  pub rto : has p t.rto_list ≡ false
  pub timewait : has p t.timewait_list ≡ false
  pub timeout : has p t.timeout_list ≡ false

-- The three steps of `Timer.Check.tcp_stream_destroy`: each clears its mark, and keeps those before.
abbrev step1 : Ptr → Timers → Timers
step1 p t = if (t.stream p).on_timeout_list then (timeout_list_remove p t).1 else t

abbrev step2 : Ptr → Timers → Timers
step2 p t = if (t.stream p).on_timewait_list then (timewait_list_remove p t).1 else t

abbrev step3 : Ptr → Timers → Timers
step3 p t = if (t.stream p).on_rto_idx == 0 then t else (rto_list_remove p t).1

step1_off : (p : Ptr) (t : Timers) → ((step1 p t).stream p).on_timeout_list ≡ false
unfolding timeout_list_remove
step1_off p t = elim (Bool-cases ((t.stream p).on_timeout_list)) [
  | inl b ↦ rw b (ground arith)
  | inr b ↦ rw b b
]

step2_off :
    (p : Ptr) (t : Timers)
    → (((step2 p t).stream p).on_timewait_list ≡ false)
      × (((step2 p t).stream p).on_timeout_list ≡ (t.stream p).on_timeout_list)
unfolding timewait_list_remove
step2_off p t = elim (Bool-cases ((t.stream p).on_timewait_list)) [
  | inl b ↦ rw b (ground arith, ground arith)
  | inr b ↦ rw b (b, refl)
]

step3_off :
    (p : Ptr) (t : Timers)
    → (((step3 p t).stream p).on_rto_idx ≡ 0)
      × (((step3 p t).stream p).on_timewait_list ≡ (t.stream p).on_timewait_list)
      × (((step3 p t).stream p).on_timeout_list ≡ (t.stream p).on_timeout_list)
unfolding rto_list_remove
step3_off p t = elim (Bool-cases ((t.stream p).on_rto_idx == 0)) [
  | inl b ↦ rw b (ground arith, refl, refl)
  | inr b ↦ rw b (ground arith, ground arith, ground arith)
]

destroy-InNone : (p : Ptr) (t : Timers) → IsValid t → InNone p (Timer.Check.tcp_stream_destroy p t)
unfolding Timer.Check.tcp_stream_destroy
destroy-InNone p t k =
    let t1 = step1 p t in
    let t2 = step2 p t1 in
    let t3 = step3 p t2 in
    let valid : IsValid (call (Call.destroy p) t3) = tcp_stream_destroy-IsValid p t k in
    let (r, w, o) = step3_off p t2 in
    let (w2, o2) = step2_off p t1 in
    record {
      rto = valid.rto.marks p ∙ ground arith;
      timewait = valid.timewait.marks p ∙ w ∙ w2;
      timeout = valid.timeout.marks p ∙ o ∙ o2 ∙ step1_off p t;
    }

-- The calls that release the socket, in front of others.
abbrev pub released : Option Socket → List HostCall → List HostCall
released none ks = ks
released (some s) ks = HostCall.socket_free s.id ∷ ks

free_socket_rest :
    (c : Conn)
    → (((free_socket c).host).host_calls ≡ released (c.vars).socket (c.host).host_calls)
      × (((free_socket c).host).timers ≡ (c.host).timers)
unfolding free_socket
free_socket_rest c =
    elim (c.vars).socket
      as (λ o.
        let c' : Conn = elim o [ none ↦ c | some s ↦ log (HostCall.socket_free s.id) c ] in
        ((c'.host).host_calls ≡ released o (c.host).host_calls)
        × ((c'.host).timers ≡ (c.host).timers)) [ none ↦ (refl, refl) | some s ↦ (refl, refl) ]

-- What the end of the stream `c` leaves.
pub record Ended (c c' : Conn) : Type 0 where
  pub valid : IsValid (c'.host).timers
  pub in_none : InNone c.self (c'.host).timers
  pub calls :
      (c'.host).host_calls
      ≡ HostCall.free_chunk c.self
        ∷ released (c.vars).socket (HostCall.ht_delete (c.vars).qtuple ∷ (c.host).host_calls)

-- Where the lists of the timers are sound: after `tcp_stream_destroy`, if the process goes on, no list
-- holds the stream, whatever lists it was on, and the lists are sound; its entry of the flow table is
-- removed, its socket released if it has one, and then its chunk freed, each once and in this order.
pub tcp_stream_destroy-Ended :
    (env : Env) (c : Conn)
    → IsValid (put (c.host).timers c.self c.own)
    → OnSome (Ended c) (tcp_stream_destroy env c)
unfolding tcp_stream_destroy
tcp_stream_destroy-Ended env c k =
    let t = put (c.host).timers c.self c.own in
    let c1 = with_timers Timer.Check.tcp_stream_destroy c in
    let w = (c1.host).machine in
    let valid = tcp_stream_destroy-IsValid c.self t k in
    let none_ = destroy-InNone c.self t k in
    OnSome-then (Ended c) (sb_free env.fuel c1.snd w.store) _ λ (n, snd', s1).
      OnSome-then (Ended c) (rb_clear env.fuel c1.rcv s1) _ λ (rcv', s2).
        let c2 = record c1 {
          snd = snd';
          rcv = rcv';
          host = record (c1.host) {
            flow_cnt = sub32 (c1.host).flow_cnt 1;
            machine = record w { store = s2 };
            host_calls = HostCall.ht_delete (c.vars).qtuple ∷ (c1.host).host_calls;
          };
        } in
        let (calls, timers) = free_socket_rest c2 in
        record {
          valid = subst IsValid (sym timers) valid;
          in_none = subst (InNone c.self) (sym timers) none_;
          calls = ap (λ l. HostCall.free_chunk c.self ∷ l) calls;
        }
