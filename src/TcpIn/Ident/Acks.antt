-- ===== src/TcpIn/Ident/Acks.antt =====
-- `process_tcp_ack` and `process_tcp_payload` do not move a stream.
use qstack.Common.{
  ℕ, ◌≡◌, refl, ◌∙◌, ap₂, Bool, true, false, ◌&&◌, ◌||◌, not, Option, none, some, ◌==◌, OnSome,
  OnSome-bind, OnSome-then, if-cases, if◌then◌else◌, ltb, Ptr, u32, sub32, ◌+◌, ◌*◌, ◌/◌, ◌>>=◌,
}
use qstack.Seq.{seq_lt, seq_gt, seq_geq, seq_leq}
use qstack.SendBuff.{sb_reset_retrans, sb_remove_acked, sb_len}
use qstack.RecvBuff.{rb_put}
use qstack.RecvBuff.Get.{rb_clear}
use qstack.Timer
use qstack.Timer.{TcpState, Timers, rto_list_remove, rto_list_update}
use qstack.Timer.Check.{is_established}
use qstack.TcpStream.Conn.{Conn, Env}
use qstack.TcpStream.Keep.{core-rto_list_remove, core-rto_list_update}
use qstack.TcpOut.Queues.{send_event_enqueue}
use qstack.TcpIn.Segment.{Segment, state_number}
use qstack.TcpIn.Events.{raise_read_event}
use qstack.TcpIn.Ack.{
  data_ack, scaled_window, update_window, is_dup, count_dup, halve_window, rewind, fast_retransmit,
  inflate, answer_dup, recover, grow_window, restart_rto, take_acked, after_window, process_tcp_ack,
  packets_of,
}
use qstack.TcpIn.Payload.{seg_end, in_fin_wait, raise_payload, store_payload, process_tcp_payload}
use qstack.TcpIn.Ident.{Like, Then, ident-with_timers, ident-raise_read_event}

-- What comes next leaves it as it was too.
pub Like-next : (c c1 : Conn) (o : Option Conn) → Like c c1 → OnSome (Like c1) o → OnSome (Like c) o
Like-next c c1 none k h = tt
Like-next c c1 (some c2) k h = h ∙ k

pub Like-then :
    (c : Conn) (o : Option Conn) (f : Conn → Option Conn)
    → OnSome (Like c) o
    → ((c1 : Conn) → OnSome (Like c1) (f c1))
    → OnSome (Like c) (o >>= f)
Like-then c none f k h = tt
Like-then c (some c1) f k h = Like-next c c1 (f c1) k (h c1)

ident-update_window : (seg : Segment) (a : ℕ) (c : Conn) → Like c (update_window seg a c)
unfolding update_window
ident-update_window seg a c =
    if-cases (Like c)
      (seq_lt (c.vars).snd_wl1 seg.seq
        || (((c.vars).snd_wl1 == seg.seq) && seq_lt (c.vars).snd_wl2 a)
        || (((c.vars).snd_wl2 == a) && ltb (c.own).peer_wnd (scaled_window seg c)))
      (λ b. refl) λ b. refl

ident-count_dup : (dup : Bool) (a : ℕ) (c : Conn) → Like c (count_dup dup a c)
unfolding count_dup
ident-count_dup true a c = refl
ident-count_dup false a c = refl

ident-rewind : (env : Env) (a : ℕ) (c : Conn) → OnSome (Like c) (rewind env a c)
unfolding rewind
ident-rewind env a c =
    if-cases (OnSome (Like c)) (seq_lt a (c.own).snd_nxt)
      (λ b.
        OnSome-then (Like c) (sb_reset_retrans env.fuel c.snd (((c.host).machine).store)) _
          λ r. refl)
      λ b. refl

ident-fast_retransmit : (env : Env) (a : ℕ) (c : Conn) → OnSome (Like c) (fast_retransmit env a c)
unfolding fast_retransmit send_event_enqueue halve_window
ident-fast_retransmit env a c = Like-then c (rewind env a c) _ (ident-rewind env a c) λ c1. refl

ident-inflate : (c : Conn) → Like c (inflate c)
unfolding inflate
ident-inflate c =
    if-cases (Like c) (ltb (c.own).cwnd (u32 ((c.own).cwnd + (c.own).mss))) (λ b. refl) λ b. refl

ident-answer_dup :
    (env : Env) (dup : Bool) (a : ℕ) (c : Conn) → OnSome (Like c) (answer_dup env dup a c)
unfolding answer_dup
ident-answer_dup env dup a c =
    if-cases (OnSome (Like c)) (dup && ((c.vars).dup_acks == 3))
      (λ b. ident-fast_retransmit env a c)
      λ b. if-cases (OnSome (Like c)) (ltb 3 (c.vars).dup_acks) (λ b1. ident-inflate c) λ b1. refl

ident-recover : (a : ℕ) (c : Conn) → Like c (recover a c)
unfolding recover
ident-recover a c = if-cases (Like c) (seq_gt a (c.own).snd_nxt) (λ b. refl) λ b. refl

SameStream : Timer.Stream → Timer.Stream → Type 0
SameStream v v' = (v'.state ≡ v.state) × (v'.fss ≡ v.fss)

grow_window_same : (n : ℕ) (v : Timer.Stream) → OnSome (SameStream v) (grow_window n v)
unfolding grow_window SameStream
grow_window_same n v =
    let Q : Option Timer.Stream → Type 0 = OnSome (SameStream v) in
    let bigger = u32 (v.cwnd + u32 (n * v.mss * v.mss) / v.cwnd) in
    if-cases Q (ltb (state_number v.state) 4) (λ b. (refl, refl))
      λ b.
        if-cases Q (ltb v.cwnd v.ssthresh)
          (λ b1.
            if-cases Q (ltb v.cwnd (u32 (v.cwnd + v.mss))) (λ b2. (refl, refl)) λ b2. (refl, refl))
          λ b1.
            if-cases Q (v.cwnd == 0) (λ b2. tt)
              λ b2.
                if-cases (SameStream v) (ltb v.cwnd bigger) (λ b3. (refl, refl)) λ b3. (refl, refl)

ident-restart_rto : (ts a : ℕ) (c : Conn) → Like c (restart_rto ts a c)
unfolding restart_rto
ident-restart_rto ts a c =
    if-cases (Like c) ((c.own).snd_nxt == a)
      (λ b. ident-with_timers (λ p t. (rto_list_remove p t).1) c (core-rto_list_remove c.self))
      λ b. ident-with_timers (λ p. rto_list_update p ts) c (core-rto_list_update c.self ts)

ident-take_acked : (env : Env) (ts a : ℕ) (c : Conn) → OnSome (Like c) (take_acked env ts a c)
unfolding take_acked SameStream
ident-take_acked env ts a c =
    let n = packets_of (sub32 a (c.snd).head_seq) (c.vars).eff_mss in
    if-cases (OnSome (Like c)) ((c.vars).eff_mss == 0) (λ b. tt)
      λ b.
        OnSome-bind (SameStream c.own) (Like c) (grow_window n c.own) _ (grow_window_same n c.own)
          λ v same.
            OnSome-then (Like c) (sb_remove_acked env.fuel c.snd a (((c.host).machine).store)) _
              λ r.
                ident-restart_rto ts a _
                ∙ ap₂
                    (λ st n. record {
                      state = st;
                      fss = n;
                      iss = (c.vars).iss;
                      is_fin_sent = (c.vars).is_fin_sent;
                    })
                    same.0 same.1

ident-after_window :
    (env : Env) (ts : ℕ) (dup : Bool) (a : ℕ) (c : Conn)
    → OnSome (Like c) (after_window env ts dup a c)
unfolding after_window
ident-after_window env ts dup a c =
    Like-next c (count_dup dup a c) (after_window env ts dup a c) (ident-count_dup dup a c) (
      Like-then (count_dup dup a c) (answer_dup env dup a (count_dup dup a c)) _
        (ident-answer_dup env dup a (count_dup dup a c))
        λ c1.
          if-cases (OnSome (Like c1)) (seq_geq ((recover a c1).snd).head_seq a)
            (λ b. ident-recover a c1)
            λ b.
              Like-next c1 (recover a c1) (take_acked env ts a (recover a c1)) (ident-recover a c1)
                (ident-take_acked env ts a (recover a c1)))

-- `process_tcp_ack` never moves a stream.
pub ident-process_tcp_ack :
    (env : Env) (ts : ℕ) (seg : Segment) (c : Conn) → OnSome (Like c) (process_tcp_ack env ts seg c)
unfolding process_tcp_ack
ident-process_tcp_ack env ts seg c =
    let a = data_ack seg c in
    let c1 = update_window seg a c in
    let dup = is_dup seg a (u32 ((c.own).peer_wnd + (c.vars).snd_wl2)) c1 in
    if-cases (OnSome (Like c)) (seq_gt a (u32 ((c.snd).head_seq + sb_len c.snd))) (λ b. refl)
      λ b.
        Like-next c c1 (after_window env ts dup a c1) (ident-update_window seg a c)
          (ident-after_window env ts dup a c1)

ident-store_payload :
    (env : Env) (mbuf : Ptr) (c : Conn) → OnSome (Then c) (store_payload env mbuf c)
unfolding store_payload
ident-store_payload env mbuf c =
    OnSome-then (Then c) (rb_put env.fuel c.rcv mbuf ((c.host).machine)) _ λ r.
      OnSome-then (Then c)
        (if in_fin_wait (c.own).state
          then (do
            (b', s) ← rb_clear env.fuel r.1 ((r.2).store)
            some (b', record (r.2) { store = s }))
          else some (r.1, r.2))
        _ λ q. refl

ident-raise_payload :
    (env : Env) (high : Bool) (ret : Option ℕ) (c : Conn) → Like c (raise_payload env high ret c)
unfolding raise_payload
ident-raise_payload env high ret c =
    let c1 = if high then raise_read_event env 1 c else c in
    let k1 : Like c c1 = if-cases (Like c) high (λ b. ident-raise_read_event env 1 c) (λ b. refl) in
    if-cases (Like c) (elim ret [ none ↦ false | some n ↦ ltb (if high then 1 else 0) n ])
      (λ b. ident-raise_read_event env 0 c1 ∙ k1) λ b. k1

-- Neither does `process_tcp_payload`.
pub ident-process_tcp_payload :
    (env : Env) (mbuf : Ptr) (seg : Segment) (c : Conn)
    → OnSome (Then c) (process_tcp_payload env mbuf seg c)
unfolding process_tcp_payload
ident-process_tcp_payload env mbuf seg c =
    let Q : Option (Option ℕ × Conn) → Type 0 = OnSome (Then c) in
    if-cases Q (seq_leq (seg_end seg) (c.vars).rcv_nxt) (λ b. refl)
      λ b.
        if-cases Q (seq_gt (seg_end seg) (u32 ((c.vars).rcv_nxt + (c.vars).rcv_wnd))) (λ b1. refl)
          λ b1.
            OnSome-bind (Then c) (Then c) (store_payload env mbuf c) _
              (ident-store_payload env mbuf c)
              λ (ret, c1) k.
                let high = not (((((c1.host).machine).store).cell mbuf).priority == 0) in
                if-cases Q (seq_leq (c1.vars).rcv_nxt (c.vars).rcv_nxt && not high) (λ b2. k)
                  λ b2.
                    if-cases Q (is_established (c1.own).state)
                      (λ b3. ident-raise_payload env high ret c1 ∙ k) λ b3. k
