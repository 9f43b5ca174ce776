-- ===== src/TcpIn/Moves/Opening.antt =====
-- The handlers of the states of a connection that is being opened make only legal moves.
use qstack.Common.{
  ℕ, ◌+◌, ◌*◌, ◌≡◌, refl, ◌∙◌, true, false, ◌&&◌, not, ◌==◌, OnSome, OnSome-bind, OnSome-map,
  OnSome-then, if-cases, if◌then◌else◌, Ptr, u32, arith, ◌⊎◌, inl, inr,
}
use qstack.Timer.{TcpState, rto_list_remove, timeout_list_add}
use qstack.Timer.Check.{is_established}
use qstack.TcpOptions.{parse_tcp_options}
use qstack.TcpStream.Conn.{HostCall, Conn, Env, with_timers, set_own, log, peer_of}
use qstack.TcpStream.Keep.{core-timeout_list_add}
use qstack.TcpOut.Queues.{control_queue_add}
use qstack.TcpIn.Segment.{Segment}
use qstack.TcpIn.Events.{
  q_epollout, q_epollerr, raise_event, raise_write_event, raise_error_event, raise_accept_event,
}
use qstack.TcpIn.Open.{
  read_options, handle_active_open, is_listen, handle_tcp_st_listen, has_socket, refused_open,
  complete_open, simultaneous_open, unacceptable, handle_tcp_st_syn_sent, accept_open,
  handle_tcp_st_syn_rcvd,
}
use qstack.TcpIn.States.{handle_tcp_st_established}
use qstack.TcpIn.Packet.{syn_rcvd_packet}
use qstack.TcpIn.Ident.{
  ident, Like, Accepted, ident-with_timers, ident-control_queue_add, ident-raise_event,
  ident-raise_accept_event,
}
use qstack.TcpIn.Moves.{
  AcksSyn, CompletesOpen, active_open, simultaneous, refused, complete, complete_fin, not_accepted,
  arrives, stays, state_of,
}
use qstack.TcpIn.Moves.Handlers.{Goes, tcp_stream_destroy_state, Like-Goes}
use qstack.TcpIn.Moves.Closing.{handle_tcp_st_established_moves}

Is : TcpState → Conn → Type 0
Is s c = (c.own).state ≡ s

pub handle_tcp_st_listen_moves :
    (seg : Segment) (c : Conn)
    → ((handle_tcp_st_listen seg c).own).state ≡ (c.own).state
      ⊎ ((seg.syn ≡ true) × (((handle_tcp_st_listen seg c).own).state ≡ TcpState.syn_rcvd))
unfolding handle_tcp_st_listen
handle_tcp_st_listen_moves seg c =
    let n = (c.vars).rcv_nxt in
    let c1 = record c {
      own = record (c.own) { state = TcpState.syn_rcvd };
      vars = record (c.vars) { rcv_nxt = if is_listen (c.own).state then u32 (n + 1) else n };
    } in
    if-cases {A = Conn}
      (λ c'.
        ((c'.own).state ≡ (c.own).state)
        ⊎ ((seg.syn ≡ true) × ((c'.own).state ≡ TcpState.syn_rcvd)))
      seg.syn (λ b. inr (b, state_of (ident-control_queue_add c1))) λ b. inl refl

pub ident-read_options :
    (ts : ℕ) (seg : Segment) (c : Conn) → OnSome (Like c) (read_options ts seg c)
unfolding read_options
ident-read_options ts seg c =
    OnSome-then (Like c) (parse_tcp_options ts seg.options seg.options_len (peer_of c)) _ λ o. refl

handle_active_open_state :
    (ts : ℕ) (seg : Segment) (c : Conn)
    → OnSome (Is TcpState.established) (handle_active_open ts seg c)
unfolding handle_active_open Is
handle_active_open_state ts seg c =
    OnSome-then (Is TcpState.established) (read_options ts seg _) _ λ c2. refl

complete_open_state :
    (env : Env) (ts : ℕ) (seg : Segment) (c : Conn)
    → OnSome (Is TcpState.established) (complete_open env ts seg c)
unfolding complete_open Is raise_write_event
complete_open_state env ts seg c =
    let E = Is TcpState.established in
    OnSome-bind E E (handle_active_open ts seg c) _ (handle_active_open_state ts seg c) λ c1 e.
      if-cases (OnSome E) (has_socket ((c1.vars).socket))
        (λ b.
          let c2 = raise_event env q_epollout 0 c1 in
          let c3 = (control_queue_add c2).1 in
          state_of (
            ident-with_timers (λ p t. (timeout_list_add p ts t).1) c3
              (core-timeout_list_add c3.self ts)
            ∙ ident-control_queue_add c2
            ∙ ident-raise_event env q_epollout 0 c1)
          ∙ e)
        λ b. tt

refused_open_state : (env : Env) (c : Conn) → OnSome (Is TcpState.close_wait) (refused_open env c)
unfolding Is raise_error_event
refused_open_state env c =
    let c1 = set_own (record (c.own) { state = TcpState.close_wait; close_reason = 5 }) c in
    if-cases (OnSome (Is TcpState.close_wait)) (has_socket ((c1.vars).socket))
      (λ b. state_of (ident-raise_event env q_epollerr 0 c1)) λ b. tcp_stream_destroy_state env c1

pub handle_tcp_st_syn_sent_moves :
    (env : Env) (ts : ℕ) (seg : Segment) (c : Conn)
    → (c.own).state ≡ TcpState.syn_sent
    → OnSome (Goes seg c TcpState.syn_sent) (handle_tcp_st_syn_sent env ts seg c)
unfolding handle_tcp_st_syn_sent simultaneous_open Is
handle_tcp_st_syn_sent_moves env ts seg c st =
    let s = TcpState.syn_sent in
    let G = Goes seg c s in
    let c1 =
      if seg.ack then set_own (record (c.own) { snd_una = u32 ((c.own).snd_una + 1) }) c else c in
    let k : Like c c1 = if-cases (Like c) seg.ack (λ a. refl) (λ n. refl) in
    let acks : (seg.ack && unacceptable seg c) ≡ false
        → seg.ack ≡ true
        → AcksSyn seg (ident c) ((c.own).snd_nxt) =
      λ u a. record { ack = a; above = ground arith; sent = ground arith } in
    if-cases (OnSome G) (seg.ack && unacceptable seg c)
      (λ u. if-cases (OnSome G) seg.rst (λ r. stays st) λ n. tt)
      λ u.
        if-cases (OnSome G) seg.rst
          (λ r.
            if-cases (OnSome G) seg.ack
              (λ a.
                OnSome-map (Is TcpState.close_wait) G (refused_open env c1)
                  (λ c' e. arrives (refused r (acks u a)) e) (refused_open_state env c1))
              λ n. Like-Goes seg c c1 s st k)
          λ r.
            if-cases (OnSome G) (not seg.syn) (λ n. Like-Goes seg c c1 s st k)
              λ y.
                if-cases (OnSome G) seg.ack
                  (λ a.
                    OnSome-map (Is TcpState.established) G (complete_open env ts seg c1)
                      (λ c' e. arrives (active_open (ground arith) (acks u a)) e)
                      (complete_open_state env ts seg c1))
                  λ n. arrives (simultaneous (ground arith) n) (
                    state_of (
                      ident-control_queue_add (
                        set_own
                          (record (c1.own) { state = TcpState.syn_rcvd; snd_nxt = (c1.vars).iss })
                          c1)))

-- Behind the acknowledgement of a SYN: as before, or the handshake is complete.
abbrev pub Completed : Segment → Conn → Conn → Type 0
Completed seg c c' =
    Like c c'
    ⊎ (CompletesOpen seg (ident c)
        × (((c'.own).state ≡ TcpState.established) ⊎ ((c'.own).state ≡ TcpState.closed)))

accept_open_state :
    (env : Env) (seg : Segment) (c : Conn)
    → OnSome
        (λ c'. ((c'.own).state ≡ TcpState.established) ⊎ ((c'.own).state ≡ TcpState.closed))
        (accept_open env seg c)
unfolding accept_open
accept_open_state env seg c =
    let v = c.own in
    let c1 = record c {
      own = record v {
        snd_una = u32 (v.snd_una + 1);
        snd_nxt = seg.ack_seq;
        cwnd = if v.cwnd == 1 then v.mss * 2 else v.mss;
        nrtx = 0;
      };
      vars = record (c.vars) { rcv_nxt = u32 ((c.vars).irs + 1) };
    } in
    let c2 = log HostCall.ml_ts_reset (with_timers (λ p t. (rto_list_remove p t).1) c1) in
    let c3 = set_own (record (c2.own) { state = TcpState.established }) c2 in
    OnSome-map (Accepted c3)
      (λ c'. ((c'.own).state ≡ TcpState.established) ⊎ ((c'.own).state ≡ TcpState.closed))
      (raise_accept_event env c3) (λ c' a. elim a [ inl k ↦ inl (state_of k) | inr (e, _) ↦ inr e ])
      (ident-raise_accept_event env c3)

-- A stream is in one state.
one_state {ℓ} :
    {A : Type ℓ} (s t : TcpState) → s ≡ t → is_established t ≡ false → is_established s ≡ true → A
one_state s t e f h = let g : is_established s ≡ false = rw e f in absurd (ground arith)

handle_tcp_st_syn_rcvd_moves :
    (env : Env) (seg : Segment) (c : Conn)
    → OnSome (Completed seg c) (handle_tcp_st_syn_rcvd env seg c)
unfolding handle_tcp_st_syn_rcvd
handle_tcp_st_syn_rcvd_moves env seg c =
    let Q : Conn → Type 0 = Completed seg c in
    if-cases (OnSome Q) (not seg.ack)
      (λ b. inl (ident-control_queue_add (set_own (record (c.own) { snd_nxt = (c.vars).iss }) c)))
      λ b.
        if-cases (OnSome Q) (seg.ack_seq == u32 ((c.vars).iss + 1))
          (λ e.
            OnSome-map
              (λ c'. ((c'.own).state ≡ TcpState.established) ⊎ ((c'.own).state ≡ TcpState.closed)) Q
              (accept_open env seg c)
              (λ c' m. inr (record { ack = ground arith; number = ground arith }, m))
              (accept_open_state env seg c))
          λ e. inl refl

pub syn_rcvd_packet_moves :
    (env : Env) (ts : ℕ) (mbuf : Ptr) (seg : Segment) (c : Conn)
    → (c.own).state ≡ TcpState.syn_rcvd
    → OnSome (Goes seg c TcpState.syn_rcvd) (syn_rcvd_packet env ts mbuf seg c)
unfolding syn_rcvd_packet
syn_rcvd_packet_moves env ts mbuf seg c st =
    let s = TcpState.syn_rcvd in
    let G = Goes seg c s in
    if-cases (OnSome G) (seg.syn && (seg.seq == (c.vars).irs))
      (λ b. elim (handle_tcp_st_listen_moves seg c) [
        | inl e ↦ stays (e ∙ st)
        | inr (_, e) ↦ stays e
      ])
      λ b.
        OnSome-bind (Completed seg c) G (handle_tcp_st_syn_rcvd env seg c) _
          (handle_tcp_st_syn_rcvd_moves env seg c)
          λ c1 k.
            if-cases (OnSome G) (not (seg.payloadlen == 0) && is_established (c1.own).state)
              (λ b1. elim k [
                | inl like ↦ one_state ((c1.own).state) s (state_of like ∙ st) refl (ground arith)
                | inr (done, inr e) ↦
                    one_state ((c1.own).state) TcpState.closed e refl (ground arith)
                | inr (done, inl e) ↦
                    OnSome-map
                      (λ c'.
                        Like c1 c' ⊎ ((seg.fin ≡ true) × ((c'.own).state ≡ TcpState.close_wait)))
                      G (handle_tcp_st_established env ts mbuf seg c1)
                      (λ c' m. elim m [
                        | inl k1 ↦ arrives (complete done) (state_of k1 ∙ e)
                        | inr (f, e1) ↦ arrives (complete_fin done f) e1
                      ])
                      (handle_tcp_st_established_moves env ts mbuf seg c1)
              ])
              λ b1. elim k [
                | inl like ↦ stays (state_of like ∙ st)
                | inr (done, inl e) ↦ arrives (complete done) e
                | inr (done, inr e) ↦ arrives (not_accepted done) e
              ]
