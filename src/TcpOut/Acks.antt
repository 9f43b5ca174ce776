-- ===== src/TcpOut/Acks.antt =====
-- The acknowledgements that have been sent between two streams, and the counters of those to come.
pub mod Turn
use qstack.Common.{
  ℕ, zero, suc, ◌+◌, ◌≡◌, ◌≢◌, refl, sym, ◌∙◌, ap, subst, Bool, true, false, ◌&&◌, ◌||◌, not, ◌==◌,
  ltb, if◌then◌else◌, if-cases, Ptr, null, arith, List, [], ◌∷◌, ◌++◌, length, length-append,
  append_assoc, u32, sub32, Bool-cases, inl, inr,
}
use qstack.Cirq.{Ret, success, failed, error}
use qstack.Timer.{timeout_list_update}
use qstack.TcpOptions.{calculate_option_length}
use qstack.TcpStream.Conn.{
  Header, HostCall, Vars, Host, Conn, Env, log, with_timers, set_own, set_vars,
}
use qstack.TcpOut.Queues.{is_success, control_queue_add}
use qstack.TcpOut.Advertise.{emit_rest}
use qstack.TcpOut.Packet.{
  Flags, no_flags, is_fin, header, taken, note_sent, emit, send_tcp_packet, ack_flags, may_ack,
  ack_loop, wack_turn, end_wait, ack_turn,
}

-- A segment that acknowledges all up to `rcv_nxt`, and carries no data.
abbrev pub IsAck : ℕ → HostCall → Type 0
IsAck rcv_nxt (HostCall.io_send p h) = (h.ack ≡ true) × (h.ack_seq ≡ rcv_nxt) × (h.payloadlen ≡ 0)
IsAck rcv_nxt _ = ⊥

abbrev pub AllAcks : ℕ → List HostCall → Type 0
AllAcks rcv_nxt [] = Unit
AllAcks rcv_nxt (k ∷ ks) = IsAck rcv_nxt k × AllAcks rcv_nxt ks

AllAcks-append :
    (rcv_nxt : ℕ) (ks ls : List HostCall)
    → AllAcks rcv_nxt ks
    → AllAcks rcv_nxt ls
    → AllAcks rcv_nxt (ks ++ ls)
AllAcks-append rcv_nxt [] ls a b = b
AllAcks-append rcv_nxt (k ∷ ks) ls (h, a) b = (h, AllAcks-append rcv_nxt ks ls a b)

abbrev pub calls : Conn → List HostCall
calls c = (c.host).host_calls

-- Between two streams, `n` acknowledgements of the first one's `rcv_nxt` have been sent.
pub record Acknowledged (n : ℕ) (c c' : Conn) : Type 0 where
  pub sent : List HostCall
  pub grown : calls c' ≡ sent ++ calls c
  pub count : length sent ≡ n
  pub acks : AllAcks ((c.vars).rcv_nxt) sent
  pub rcv_nxt : (c'.vars).rcv_nxt ≡ (c.vars).rcv_nxt

pub Acknowledged-refl : (c : Conn) → Acknowledged 0 c c
Acknowledged-refl c = record { sent = []; grown = refl; count = refl; acks = tt; rcv_nxt = refl }

pub Acknowledged-trans :
    (m n : ℕ) (c c1 c2 : Conn)
    → Acknowledged m c c1
    → Acknowledged n c1 c2
    → Acknowledged (m + n) c c2
Acknowledged-trans m n c c1 c2 k l = record {
  sent = l.sent ++ k.sent;
  grown = l.grown ∙ ap (λ s. l.sent ++ s) k.grown ∙ sym (append_assoc l.sent k.sent (calls c));
  count = let p = length-append l.sent k.sent in let a = k.count in let b = l.count in omega arith;
  acks =
      AllAcks-append ((c.vars).rcv_nxt) l.sent k.sent
        (subst (λ r. AllAcks r l.sent) k.rcv_nxt l.acks) k.acks;
  rcv_nxt = l.rcv_nxt ∙ k.rcv_nxt;
}

-- The counters of acknowledgements are as before.
abbrev pub SameCounts : Conn → Conn → Type 0
SameCounts c c' =
    ((c'.vars).ack_cnt ≡ (c.vars).ack_cnt)
    × ((c'.vars).is_wack ≡ (c.vars).is_wack)
    × ((c'.vars).on_ack_queue ≡ (c.vars).on_ack_queue)
    × ((c'.vars).rcv_nxt ≡ (c.vars).rcv_nxt)

note_sent-SameCounts : (ts : ℕ) (f : Flags) (c : Conn) → SameCounts c (note_sent ts f c)
unfolding note_sent
note_sent-SameCounts ts f c =
    if-cases (SameCounts c) f.ack (λ b. (refl, refl, refl, refl)) λ b. (refl, refl, refl, refl)

pub emit-SameCounts :
    (ts : ℕ) (f : Flags) (p : Ptr) (n : ℕ) (c : Conn) → SameCounts c (emit ts f p n c)
unfolding emit
emit-SameCounts ts f p n c =
    let k = note_sent-SameCounts ts f c in
    let call = HostCall.io_send p (header f n c) in
    if-cases (λ (c3 : Conn). SameCounts c (log call c3)) (taken f n == 0) (λ b. k) λ b. k

-- The control queue keeps the calls and the counters.
abbrev pub Waits : Conn → Conn → Type 0
Waits c c' = SameCounts c c' × (calls c' ≡ calls c)

pub end_wait-Waits : (waits : Bool) (c : Conn) → Waits c (end_wait waits c)
unfolding control_queue_add
end_wait-Waits waits c =
    let off = set_vars (record (c.vars) { control_list_waiting = false }) c in
    if-cases (Waits c) ((c.vars).control_list_waiting && waits)
      (λ b.
        if-cases {A = Ret × Conn} (λ r. Waits c r.1) ((off.vars).on_control_queue)
          (λ b1. ((refl, refl, refl, refl), refl)) λ b1. ((refl, refl, refl, refl), refl))
      λ b. ((refl, refl, refl, refl), refl)

-- `n` acknowledgements, with the counters as they are then.
pub record Told (n : ℕ) (c c' : Conn) : Type 0 where
  pub told : Acknowledged n c c'
  pub same : SameCounts c c'
