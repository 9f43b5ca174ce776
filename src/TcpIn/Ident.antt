-- ===== src/TcpIn/Ident.antt =====
-- What the parts of tcp_in.c that do not move a stream leave as it was: its state, whether it has
-- sent its FIN, and the numbers of its SYN and its FIN.
pub mod Acks
use qstack.Common.{
  ℕ, ◌≡◌, refl, sym, ◌∙◌, ap, Bool, true, false, ◌&&◌, ◌||◌, not, Option, none, some, ◌==◌, OnSome,
  OnSome-bind, ◌⊎◌, inl, inr, OnSome-then, if-cases, if◌then◌else◌, ltb, Ptr, u32, sub32, u8, u16,
  min, ◌+◌, ◌*◌, ◌/◌, ◌^◌,
}
use qstack.N21.{n21q_enqueue}
use qstack.Seq.{seq_lt, seq_gt, seq_geq, seq_leq}
use qstack.SendBuff.{sb_reset_retrans, sb_remove_acked, sb_len}
use qstack.RecvBuff.{rb_put}
use qstack.RecvBuff.Get.{rb_clear}
use qstack.Timer
use qstack.Timer.{
  TcpState, Timers, rto_list_remove, rto_list_update, timewait_list_add, timewait_list_remove,
}
use qstack.Timer.Check
use qstack.Timer.Check.{is_established}
use qstack.TcpStream.Conn.{
  Qevent, Socket, Vars, Host, Conn, Env, HostCall, log, with_timers, set_own, set_vars, PdevSt,
}
use qstack.TcpStream.Keep.{
  core, core_at, core-with_timers, core-rto_list_remove, core-rto_list_update,
  core-timewait_list_add, core-timewait_list_remove, core-timeout_list_update,
  core-tcp_stream_destroy,
}
use qstack.TcpStream.Life.{tcp_stream_destroy}
use qstack.TcpOut.Queues.{
  is_success, AckOpt, count_ack, control_queue_add, ack_queue_add, enqueue_ack, send_event_enqueue,
}
use qstack.TcpIn.Segment.{Segment, state_number}
use qstack.TcpIn.Events.{
  is_writen, add_pending_event, has_qe, check_stream_event_validation, event_dest, add_time_event,
  add_read_event, raise_event, q_read, q_accept, q_epollin, raise_to, enqueue_accept, tell_listener,
  add_accept_event, raise_accept_event, raise_read_event, raise_write_event, raise_error_event,
  raise_close_event,
}
use qstack.TcpIn.Ack.{
  data_ack, scaled_window, update_window, is_dup, count_dup, halve_window, rewind, fast_retransmit,
  inflate, answer_dup, recover, grow_window, restart_rto, take_acked, after_window, process_tcp_ack,
  packets_of,
}

pub record Ident : Type 0 where
  pub state : TcpState
  pub fss : ℕ
  pub iss : ℕ
  pub is_fin_sent : Bool

abbrev pub ident : Conn → Ident
ident c = record {
  state = (c.own).state;
  fss = (c.own).fss;
  iss = (c.vars).iss;
  is_fin_sent = (c.vars).is_fin_sent;
}

abbrev pub Like : Conn → Conn → Type 0
Like c c' = ident c' ≡ ident c

-- The second part of a pair.
abbrev pub Then {ℓ} : {A : Type ℓ} → Conn → A × Conn → Type 0
Then c r = Like c r.1

pub ident-with_timers :
    (f : Ptr → Timers → Timers) (c : Conn)
    → ((t : Timers) → core_at c.self (f c.self t) ≡ core_at c.self t)
    → Like c (with_timers f c)
ident-with_timers f c k =
    ap
      (λ o. record {
        state = o.state;
        fss = o.fss;
        iss = (c.vars).iss;
        is_fin_sent = (c.vars).is_fin_sent;
      })
      (core-with_timers f c k)

pub ident-control_queue_add : (c : Conn) → Like c (control_queue_add c).1
unfolding control_queue_add
ident-control_queue_add c = if-cases (Then c) ((c.vars).on_control_queue) (λ on. refl) λ off. refl

pub ident-enqueue_ack : (opt : AckOpt) (c : Conn) → Like c (enqueue_ack opt c).1
unfolding enqueue_ack ack_queue_add
ident-enqueue_ack AckOpt.now c =
    let v = count_ack AckOpt.now c.vars in
    if-cases (Then c) (not (v.ack_cnt == 0) && not v.on_ack_queue) (λ on. refl) λ off. refl
ident-enqueue_ack AckOpt.aggregate c =
    let v = count_ack AckOpt.aggregate c.vars in
    if-cases (Then c) (not (v.ack_cnt == 0) && not v.on_ack_queue) (λ on. refl) λ off. refl
ident-enqueue_ack AckOpt.wack c =
    let v = count_ack AckOpt.wack c.vars in
    if-cases (Then c) (not (v.ack_cnt == 0) && not v.on_ack_queue) (λ on. refl) λ off. refl

-- Events.
ident-add_pending_event : (env : Env) (e : Qevent) (c : Conn) → Like c (add_pending_event env e c).1
unfolding add_pending_event
ident-add_pending_event env e c =
    if-cases (Then c) (not env.qe_after) (λ b. refl)
      λ b.
        if-cases (Then c) (not (is_writen env.first_look)) (λ b1. refl)
          λ b1. if-cases (Then c) (not (is_writen env.second_look)) (λ b2. refl) λ b2. refl

ident-check : (env : Env) (e : Qevent) (c : Conn) → Like c (check_stream_event_validation env e c).1
unfolding check_stream_event_validation
ident-check env e c =
    if-cases (Then c) (has_qe ((c.vars).socket)) (λ b. refl) λ b. ident-add_pending_event env e c

ident-event_dest : (env : Env) (s : Socket) (c : Conn) → Like c (event_dest env s c).1
unfolding event_dest
ident-event_dest env s c = if-cases (Then c) (s.default_app == 255) (λ b. refl) λ b. refl

ident-add_time_event :
    (env : Env) (k : ℕ) (e : Qevent) (c : Conn) → Like c (add_time_event env k e c)
ident-add_time_event env k e c =
    if-cases (Like c) (env.add_time_event_fails e) (λ b. refl)
      λ b. if-cases (Like c) (env.app_has_qstack e.dst) (λ b1. refl) λ b1. refl

ident-add_read_event :
    (env : Env) (k pri sockid dst : ℕ) (c : Conn) → Like c (add_read_event env k pri sockid dst c)
unfolding add_read_event
ident-add_read_event env k pri sockid dst c =
    let event : Qevent = record { pri = u8 pri; dst = dst; sockid = sockid; nature = q_read } in
    let checked = ident-check env event c in
    if-cases (Like c) ((check_stream_event_validation env event c).0)
      (λ b.
        ident-add_time_event env k event (check_stream_event_validation env event c).1 ∙ checked)
      λ b. checked

ident-raise_to : (env : Env) (k pri : ℕ) (s : Socket) (c : Conn) → Like c (raise_to env k pri s c)
unfolding raise_to
ident-raise_to env k pri s c =
    ident-add_read_event env k pri (c.vars).id (event_dest env s c).0 (event_dest env s c).1
    ∙ ident-event_dest env s c

pub ident-raise_event : (env : Env) (k pri : ℕ) (c : Conn) → Like c (raise_event env k pri c)
unfolding raise_event
ident-raise_event env k pri c =
    elim ((c.vars).socket)
      as (λ o. Like c (elim o as (λ _. Conn) [ none ↦ c | some s ↦ raise_to env k pri s c ])) [
        | none ↦ refl
        | some s ↦ ident-raise_to env k pri s c
      ]

pub ident-raise_read_event : (env : Env) (pri : ℕ) (c : Conn) → Like c (raise_read_event env pri c)
unfolding raise_read_event
ident-raise_read_event env pri c = ident-raise_event env q_epollin pri c

-- Behind an accept event a stream is as before, or closed since the queue was full.
abbrev pub Accepted : Conn → Conn → Type 0
Accepted c c' = Like c c' ⊎ (((c'.own).state ≡ TcpState.closed) × ((c'.own).close_reason ≡ 7))

ident-enqueue_accept : (env : Env) (i : ℕ) (c : Conn) → Accepted c (enqueue_accept env i c)
unfolding enqueue_accept
ident-enqueue_accept env i c =
    let w = (c.host).machine in
    let (ret, q, mem) = n21q_enqueue ((c.host).acceptq i) w.mem env.stack_id c.self in
    if-cases (Accepted c) (is_success ret) (λ ok. inl refl) λ full. inr (refl, refl)

tell_listener_own :
    (env : Env) (i : ℕ) (c : Conn)
    → ((tell_listener env i c).own ≡ c.own) × (ident (tell_listener env i c) ≡ ident c)
unfolding tell_listener add_accept_event
tell_listener_own env i c =
    let Kept : Conn → Type 0 = λ c'. (c'.own ≡ c.own) × (ident c' ≡ ident c) in
    let event : Qevent = record {
      pri = 1;
      dst = i;
      sockid = env.listener_sockid;
      nature = q_accept;
    } in
    if-cases Kept env.listener_epollin
      (λ b.
        if-cases Kept (env.add_time_event_fails event) (λ b1. (refl, refl))
          λ b1. if-cases Kept (env.app_has_qstack i) (λ b2. (refl, refl)) λ b2. (refl, refl))
      λ b. (refl, refl)

pub ident-raise_accept_event :
    (env : Env) (c : Conn) → OnSome (Accepted c) (raise_accept_event env c)
unfolding raise_accept_event
ident-raise_accept_event env c = OnSome-then (Accepted c) ((c.vars).socket) _ λ s.
    let (i, c1) = event_dest env s c in
    let (o, t) = tell_listener_own env i (enqueue_accept env i c1) in
    elim (ident-enqueue_accept env i c1) [
      | inl like ↦ inl (t ∙ like ∙ ident-event_dest env s c)
      | inr (st, reason) ↦ inr (ap (λ v. v.state) o ∙ st, ap (λ v. v.close_reason) o ∙ reason)
    ]
