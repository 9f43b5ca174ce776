-- ===== src/TcpIn/Moves/Handlers.antt =====
-- What ends a stream, and the states of a stream that the peer has closed.
use qstack.Common.{
  ℕ, ◌+◌, ◌≡◌, refl, ◌∙◌, ap, Bool, true, not, Option, none, some, ◌==◌, OnSome, OnSome-bind,
  OnSome-map, OnSome-then, if-cases, if◌then◌else◌, Ptr, u32, arith, subst,
}
use qstack.Seq.{seq_lt}
use qstack.SendBuff.{sb_free}
use qstack.RecvBuff.Get.{rb_clear}
use qstack.Timer
use qstack.Timer.{TcpState, rto_list_remove, timewait_list_add}
use qstack.Timer.Check
use qstack.TcpStream.Conn.{Conn, Env, with_timers, set_own, log, HostCall}
use qstack.TcpStream.Keep.{core-with_timers, core-timewait_list_add, core-tcp_stream_destroy}
use qstack.TcpStream.Life.{free_socket, tcp_stream_destroy}
use qstack.TcpOut.Queues.{AckOpt}
use qstack.TcpIn.Segment.{Segment}
use qstack.TcpIn.Ack.{process_tcp_ack}
use qstack.TcpIn.Payload.{end_stream, process_tcp_payload}
use qstack.TcpIn.States.{
  wait_2msl, to_control, acks_fin, take_payload, handle_tcp_st_close_wait, handle_tcp_st_last_ack,
}
use qstack.TcpIn.Ident.{
  ident, Like, Then, ident-with_timers, ident-control_queue_add, ident-enqueue_ack,
}
use qstack.TcpIn.Ident.Acks.{ident-process_tcp_ack, ident-process_tcp_payload}
use qstack.TcpIn.Moves.{Move, AcksFin, last_acked, arrives, stays, state_of}

own-free_socket : (c : Conn) → (free_socket c).own ≡ c.own
unfolding free_socket
own-free_socket c =
    elim ((c.vars).socket)
      as (λ o.
        (elim o as (λ _. Conn) [ none ↦ c | some s ↦ log (HostCall.socket_free s.id) c ]).own
        ≡ c.own) [ none ↦ refl | some s ↦ refl ]

-- A stream that is destroyed keeps its state.
pub tcp_stream_destroy_state :
    (env : Env) (c : Conn)
    → OnSome (λ c'. (c'.own).state ≡ (c.own).state) (tcp_stream_destroy env c)
unfolding tcp_stream_destroy
tcp_stream_destroy_state env c =
    let c1 = with_timers Timer.Check.tcp_stream_destroy c in
    let k = core-with_timers Timer.Check.tcp_stream_destroy c (core-tcp_stream_destroy c.self) in
    let Q : Conn → Type 0 = λ c'. (c'.own).state ≡ (c.own).state in
    OnSome-then Q (sb_free env.fuel c1.snd (((c1.host).machine).store)) _ λ r.
      OnSome-then Q (rb_clear env.fuel c1.rcv r.2) _
        λ q. ap (λ v. v.state) (own-free_socket _) ∙ ap (λ o. o.state) k

pub end_stream_closed :
    (env : Env) (reason : ℕ) (c : Conn)
    → OnSome (λ c'. (c'.own).state ≡ TcpState.closed) (end_stream env reason c)
end_stream_closed env reason c =
    tcp_stream_destroy_state env
      (set_own (record (c.own) { state = TcpState.closed; close_reason = reason }) c)

-- The state `s` moves to that of the second stream.
abbrev pub Goes : Segment → Conn → TcpState → Conn → Type 0
Goes seg c s c' = Move seg (ident c) ((c.own).snd_nxt) s ((c'.own).state)

pub ident-wait_2msl : (ts : ℕ) (c : Conn) → Like c (wait_2msl ts c)
ident-wait_2msl ts c =
    ident-with_timers (λ p t. (timewait_list_add p ts t).1) c (core-timewait_list_add c.self ts)

pub AcksFin-Like :
    (seg : Segment) (c c1 : Conn)
    → Like c c1
    → seg.ack ≡ true
    → acks_fin seg c1 ≡ true
    → AcksFin seg (ident c)
AcksFin-Like seg c c1 k a b =
    subst (λ i. AcksFin seg i) k (record { ack = a; sent = ground arith; number = ground arith })

-- CLOSE_WAIT.
pub handle_tcp_st_close_wait_moves :
    (env : Env) (ts : ℕ) (seg : Segment) (c : Conn)
    → OnSome (Like c) (handle_tcp_st_close_wait env ts seg c)
unfolding handle_tcp_st_close_wait
handle_tcp_st_close_wait_moves env ts seg c =
    if-cases (OnSome (Like c)) (seq_lt seg.seq (c.vars).rcv_nxt) (λ b. ident-control_queue_add c)
      λ b. ident-process_tcp_ack env ts seg c

pub take_payload-Like :
    (env : Env) (test : Option ℕ → Bool) (mbuf : Ptr) (seg : Segment) (c : Conn)
    → OnSome (Like c) (take_payload env test mbuf seg c)
unfolding take_payload
take_payload-Like env test mbuf seg c =
    if-cases (OnSome (Like c)) (seg.payloadlen == 0) (λ b. refl)
      λ b.
        OnSome-bind (Then c) (Like c) (process_tcp_payload env mbuf seg c) _
          (ident-process_tcp_payload env mbuf seg c)
          λ (ret, c1) k.
            ident-enqueue_ack (if test ret then AckOpt.aggregate else AckOpt.now) c1 ∙ k

-- A stream that was left as it was.
pub Like-Goes :
    (seg : Segment) (c c' : Conn) (s : TcpState) → (c.own).state ≡ s → Like c c' → Goes seg c s c'
Like-Goes seg c c' s st k = stays (state_of k ∙ st)

pub Likes-Goes :
    (seg : Segment) (c : Conn) (s : TcpState) (o : Option Conn)
    → (c.own).state ≡ s
    → OnSome (Like c) o
    → OnSome (Goes seg c s) o
Likes-Goes seg c s o st k = OnSome-map (Like c) (Goes seg c s) o (λ c'. Like-Goes seg c c' s st) k

pub handle_tcp_st_last_ack_moves :
    (env : Env) (ts : ℕ) (seg : Segment) (c : Conn)
    → (c.own).state ≡ TcpState.last_ack
    → OnSome (Goes seg c TcpState.last_ack) (handle_tcp_st_last_ack env ts seg c)
unfolding handle_tcp_st_last_ack
handle_tcp_st_last_ack_moves env ts seg c st =
    let G = Goes seg c TcpState.last_ack in
    if-cases (OnSome G) (seq_lt seg.seq (c.vars).rcv_nxt) (λ b. stays st)
      λ b.
        if-cases (OnSome G) seg.ack
          (λ a.
            OnSome-bind (Like c) G (process_tcp_ack env ts seg c) _
              (ident-process_tcp_ack env ts seg c)
              λ c1 k.
                let c2 = set_own (record (c1.own) { snd_una = u32 ((c1.own).snd_una + 1) }) c1 in
                if-cases (OnSome G) (not (c1.vars).is_fin_sent)
                  (λ n. Like-Goes seg c c1 TcpState.last_ack st k)
                  λ sent.
                    if-cases (OnSome G) (seg.ack_seq == u32 ((c1.own).fss + 1))
                      (λ num.
                        OnSome-map (λ c'. (c'.own).state ≡ TcpState.closed) G (end_stream env 2 c2)
                          (λ c' e.
                            arrives (last_acked (AcksFin-Like seg c c1 k a (ground arith))) e)
                          (end_stream_closed env 2 c2))
                      λ other.
                        Like-Goes seg c (to_control c1) TcpState.last_ack st
                          (ident-control_queue_add c1 ∙ k))
          λ n. Like-Goes seg c (to_control c) TcpState.last_ack st (ident-control_queue_add c)
