-- ===== src/TcpIn/Moves/Closing.antt =====
-- The handlers of the states in which the application has closed, and of ESTABLISHED, make only
-- legal moves.
use qstack.Common.{
  ℕ, ◌≡◌, refl, ◌∙◌, ap, true, ◌&&◌, not, some, ◌==◌, OnSome, OnSome-bind, if-cases, if◌then◌else◌,
  Ptr, arith, ◌⊎◌, inl, inr,
}
use qstack.Seq.{seq_lt}
use qstack.Timer.{TcpState}
use qstack.TcpStream.Conn.{Conn, Env, set_own}
use qstack.TcpOut.Queues.{AckOpt}
use qstack.TcpIn.Segment.{Segment}
use qstack.TcpIn.Events.{raise_read_event}
use qstack.TcpIn.Ack.{process_tcp_ack}
use qstack.TcpIn.Payload.{seg_end}
use qstack.TcpIn.States.{
  move_to, take_fin, wait_2msl, to_control, acks_fin, holds, positive, take_payload,
  enter_fin_wait_2, fin_wait_1_fin, handle_tcp_st_fin_wait_1, fin_wait_2_fin,
  handle_tcp_st_fin_wait_2, enter_time_wait, handle_tcp_st_closing, established_fin,
  handle_tcp_st_established,
}
use qstack.TcpIn.Ident.{ident, Like, ident-control_queue_add, ident-enqueue_ack}
use qstack.TcpIn.Ident.Acks.{ident-process_tcp_ack}
use qstack.TcpIn.Moves.{
  AcksFin, fin_acked, fin_crossed, fin_both, fin_last, closing_acked, arrives, stays, state_of,
}
use qstack.TcpIn.States.{after_fin}
use qstack.TcpIn.Moves.Handlers.{Goes, AcksFin-Like, ident-wait_2msl, Like-Goes, take_payload-Like}

enter_fin_wait_2_moves :
    (seg : Segment) (c c1 : Conn)
    → (c.own).state ≡ TcpState.fin_wait_1
    → seg.ack ≡ true
    → Like c c1
    → Like c (enter_fin_wait_2 seg c1)
      ⊎ (AcksFin seg (ident c) × (((enter_fin_wait_2 seg c1).own).state ≡ TcpState.fin_wait_2))
unfolding enter_fin_wait_2
enter_fin_wait_2_moves seg c c1 st a k =
    if-cases (λ c'. Like c c' ⊎ (AcksFin seg (ident c) × ((c'.own).state ≡ TcpState.fin_wait_2)))
      (acks_fin seg c1) (λ b. inr (AcksFin-Like seg c c1 k a b, refl)) λ b. inl k

enter_time_wait_moves :
    (ts : ℕ) (seg : Segment) (c c1 : Conn)
    → (c.own).state ≡ TcpState.closing
    → seg.ack ≡ true
    → Like c c1
    → Goes seg c TcpState.closing (enter_time_wait ts seg c1)
unfolding enter_time_wait
enter_time_wait_moves ts seg c c1 st a k =
    let c2 =
      set_own
        (record (c1.own) {
          snd_una = seg.ack_seq;
          snd_nxt = seg.ack_seq;
          state = TcpState.time_wait;
        })
        c1 in
    if-cases (Goes seg c TcpState.closing) (acks_fin seg c1)
      (λ b.
        arrives (closing_acked (AcksFin-Like seg c c1 k a b)) (state_of (ident-wait_2msl ts c2)))
      λ b. Like-Goes seg c c1 TcpState.closing st k

pub handle_tcp_st_closing_moves :
    (env : Env) (ts : ℕ) (seg : Segment) (c : Conn)
    → (c.own).state ≡ TcpState.closing
    → OnSome (Goes seg c TcpState.closing) (handle_tcp_st_closing env ts seg c)
unfolding handle_tcp_st_closing
handle_tcp_st_closing_moves env ts seg c st =
    let G = Goes seg c TcpState.closing in
    if-cases (OnSome G) seg.ack
      (λ a.
        OnSome-bind (Like c) G (process_tcp_ack env ts seg c) _ (ident-process_tcp_ack env ts seg c)
          λ c1 k. enter_time_wait_moves ts seg c c1 st a k)
      λ n. stays st

-- Where the FIN of FIN_WAIT_1 leads, from the two states in which it may be looked at.
fin_wait_1_fin_moves :
    (ts : ℕ) (seg : Segment) (c : Conn)
    → ((c.own).state ≡ TcpState.fin_wait_1
        → (((fin_wait_1_fin ts seg c).own).state ≡ TcpState.fin_wait_1)
          ⊎ ((seg.fin ≡ true) × (((fin_wait_1_fin ts seg c).own).state ≡ TcpState.closing)))
      × ((c.own).state ≡ TcpState.fin_wait_2
          → (((fin_wait_1_fin ts seg c).own).state ≡ TcpState.fin_wait_2)
            ⊎ ((seg.fin ≡ true) × (((fin_wait_1_fin ts seg c).own).state ≡ TcpState.time_wait)))
unfolding fin_wait_1_fin after_fin
fin_wait_1_fin_moves ts seg c =
    let c1 = take_fin c in
    let to : TcpState → TcpState → Conn → Type 0 =
      λ s t c'. ((c'.own).state ≡ s) ⊎ ((seg.fin ≡ true) × ((c'.own).state ≡ t)) in
    (
      λ st.
          if-cases (to TcpState.fin_wait_1 TcpState.closing)
            (seg.fin && (seg_end seg == (c.vars).rcv_nxt))
            (λ b. inr (
              ground arith,
              state_of (ident-control_queue_add (after_fin ts ((c.own).state) c1))
                  ∙ ap (λ s. ((after_fin ts s c1).own).state) st,
            ))
            λ b. inl st,
      λ st.
          if-cases (to TcpState.fin_wait_2 TcpState.time_wait)
            (seg.fin && (seg_end seg == (c.vars).rcv_nxt))
            (λ b. inr (
              ground arith,
              state_of (ident-control_queue_add (after_fin ts ((c.own).state) c1))
                  ∙ ap (λ s. ((after_fin ts s c1).own).state) st
                  ∙ state_of (ident-wait_2msl ts (move_to TcpState.time_wait c1)),
            ))
            λ b. inl st,
    )

-- The part behind the acknowledgement.
fin_wait_1_rest_moves :
    (env : Env) (ts : ℕ) (mbuf : Ptr) (seg : Segment) (c c2 c3 : Conn)
    → (c.own).state ≡ TcpState.fin_wait_1
    → Like c c2 ⊎ (AcksFin seg (ident c) × ((c2.own).state ≡ TcpState.fin_wait_2))
    → Like c2 c3
    → Goes seg c TcpState.fin_wait_1 (fin_wait_1_fin ts seg c3)
fin_wait_1_rest_moves env ts mbuf seg c c2 c3 st (inl k) k3 =
    elim ((fin_wait_1_fin_moves ts seg c3).0 (state_of (k3 ∙ k) ∙ st)) [
      | inl e ↦ stays e
      | inr (f, e) ↦ arrives (fin_crossed f) e
    ]
fin_wait_1_rest_moves env ts mbuf seg c c2 c3 st (inr (a, e2)) k3 =
    elim ((fin_wait_1_fin_moves ts seg c3).1 (state_of k3 ∙ e2)) [
      | inl e ↦ arrives (fin_acked a) e
      | inr (f, e) ↦ arrives (fin_both a f) e
    ]

pub handle_tcp_st_fin_wait_1_moves :
    (env : Env) (ts : ℕ) (mbuf : Ptr) (seg : Segment) (c : Conn)
    → (c.own).state ≡ TcpState.fin_wait_1
    → OnSome (Goes seg c TcpState.fin_wait_1) (handle_tcp_st_fin_wait_1 env ts mbuf seg c)
unfolding handle_tcp_st_fin_wait_1
handle_tcp_st_fin_wait_1_moves env ts mbuf seg c st =
    let s = TcpState.fin_wait_1 in
    let G = Goes seg c s in
    if-cases (OnSome G) (seq_lt seg.seq (c.vars).rcv_nxt)
      (λ b. Like-Goes seg c (to_control c) s st (ident-control_queue_add c))
      λ b.
        if-cases (OnSome G) seg.ack
          (λ a.
            OnSome-bind (Like c) G (process_tcp_ack env ts seg c) _
              (ident-process_tcp_ack env ts seg c)
              λ c1 k.
                let c2 = enter_fin_wait_2 seg c1 in
                OnSome-bind (Like c2) G (take_payload env holds mbuf seg c2) _
                  (take_payload-Like env holds mbuf seg c2)
                  λ c3 k3.
                    fin_wait_1_rest_moves env ts mbuf seg c c2 c3 st
                      (enter_fin_wait_2_moves seg c c1 st a k) k3)
          λ n. stays st

fin_wait_2_fin_moves :
    (ts : ℕ) (seg : Segment) (c c1 : Conn)
    → (c.own).state ≡ TcpState.fin_wait_2
    → Like c c1
    → Goes seg c TcpState.fin_wait_2 (fin_wait_2_fin ts seg c1)
unfolding fin_wait_2_fin
fin_wait_2_fin_moves ts seg c c1 st k =
    let c2 = take_fin (move_to TcpState.time_wait c1) in
    if-cases (Goes seg c TcpState.fin_wait_2) (seg.fin && (seg_end seg == (c1.vars).rcv_nxt))
      (λ b.
        arrives (fin_last (ground arith))
          (state_of (ident-control_queue_add (wait_2msl ts c2)) ∙ state_of (ident-wait_2msl ts c2)))
      λ b. Like-Goes seg c c1 TcpState.fin_wait_2 st k

pub handle_tcp_st_fin_wait_2_moves :
    (env : Env) (ts : ℕ) (mbuf : Ptr) (seg : Segment) (c : Conn)
    → (c.own).state ≡ TcpState.fin_wait_2
    → OnSome (Goes seg c TcpState.fin_wait_2) (handle_tcp_st_fin_wait_2 env ts mbuf seg c)
unfolding handle_tcp_st_fin_wait_2
handle_tcp_st_fin_wait_2_moves env ts mbuf seg c st =
    let G = Goes seg c TcpState.fin_wait_2 in
    if-cases (OnSome G) seg.ack
      (λ a.
        OnSome-bind (Like c) G (process_tcp_ack env ts seg c) _ (ident-process_tcp_ack env ts seg c)
          λ c1 k.
            OnSome-bind (Like c1) G (take_payload env holds mbuf seg c1) _
              (take_payload-Like env holds mbuf seg c1)
              λ c2 k2. fin_wait_2_fin_moves ts seg c c2 st (k2 ∙ k))
      λ n. stays st

established_fin_moves :
    (env : Env) (seg : Segment) (c : Conn)
    → Like c (established_fin env seg c)
      ⊎ ((seg.fin ≡ true) × (((established_fin env seg c).own).state ≡ TcpState.close_wait))
unfolding established_fin
established_fin_moves env seg c =
    let Q : Conn → Type 0 =
      λ c'. Like c c' ⊎ ((seg.fin ≡ true) × ((c'.own).state ≡ TcpState.close_wait)) in
    if-cases Q (not seg.fin) (λ b. inl refl)
      λ b.
        if-cases Q (seg_end seg == (c.vars).rcv_nxt)
          (λ e. inr (
            ground arith,
            state_of (
                ident-control_queue_add
                  (take_fin (move_to TcpState.close_wait (raise_read_event env 0 c)))),
          ))
          λ e. inl (ident-enqueue_ack AckOpt.now c)

-- ESTABLISHED, from any stream: it stays as it was, or a FIN takes it to CLOSE_WAIT.
pub handle_tcp_st_established_moves :
    (env : Env) (ts : ℕ) (mbuf : Ptr) (seg : Segment) (c : Conn)
    → OnSome
        (λ c'. Like c c' ⊎ ((seg.fin ≡ true) × ((c'.own).state ≡ TcpState.close_wait)))
        (handle_tcp_st_established env ts mbuf seg c)
unfolding handle_tcp_st_established
handle_tcp_st_established_moves env ts mbuf seg c =
    let Q : Conn → Type 0 =
      λ c'. Like c c' ⊎ ((seg.fin ≡ true) × ((c'.own).state ≡ TcpState.close_wait)) in
    if-cases (OnSome Q) seg.syn (λ b. inl (ident-control_queue_add c))
      λ b.
        OnSome-bind (Like c) Q (take_payload env positive mbuf seg c) _
          (take_payload-Like env positive mbuf seg c)
          λ c1 k1.
            OnSome-bind (Like c1) Q (if seg.ack then process_tcp_ack env ts seg c1 else some c1) _
              (if-cases (OnSome (Like c1)) seg.ack (λ a. ident-process_tcp_ack env ts seg c1)
                λ n. refl)
              λ c2 k2. elim (established_fin_moves env seg c2) [
                | inl k3 ↦ inl (k3 ∙ k2 ∙ k1)
                | inr f ↦ inr f
              ]
