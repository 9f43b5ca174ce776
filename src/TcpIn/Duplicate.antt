-- ===== src/TcpIn/Duplicate.antt =====
-- What `process_tcp_ack` does with the third duplicate of an acknowledgement.
use qstack.Common.{
  ℕ, ◌+◌, ◌*◌, ◌<◌, ◌≤◌, ◌≡◌, refl, sym, ◌∙◌, ap, true, false, ◌&&◌, ◌||◌, some, ◌==◌, if-cases,
  ltb, Ptr, u32, arith, List, ◌∷◌, length, null, u8, [], subst₂,
}
use qstack.Seq.{seq_lt, seq_gt, seq_geq}
use qstack.Mbuf.{Store}
use qstack.Mbuf.Chain.{IsList}
use qstack.SendBuff.{SendBuff, sb_len}
use qstack.SendBuff.Resend.{Lost, sb_reset_retrans_lem}
use qstack.TcpStream.Conn.{Conn, Env, set_own, set_vars}
use qstack.TcpOut.Queues.{send_event_enqueue}
use qstack.TcpIn.Segment.{Segment}
use qstack.TcpIn.Acked.{store_of}
use qstack.TcpIn.Ack.{
  data_ack, scaled_window, update_window, is_dup, count_dup, halve_window, rewind, fast_retransmit,
  answer_dup, recover, after_window, process_tcp_ack,
}

-- The stream behind a fast retransmission of the packets `us` from `a` on.
pub record Resent (b : SendBuff) (s : Store) (a : ℕ) (us : List Ptr) (c' : Conn) : Type 0 where
  pub snd_nxt : (c'.own).snd_nxt ≡ a
  pub retrans : IsList (store_of c') (c'.snd).retrans_list us
  pub sent : IsList (store_of c') (c'.snd).uack_list []
  pub lost : Lost s us (store_of c')
  pub head_seq : (c'.snd).head_seq ≡ b.head_seq
  pub ssthresh : 2 * (c'.own).mss ≤ (c'.own).ssthresh
  pub cwnd : (c'.own).cwnd ≡ u32 ((c'.own).ssthresh + 3 * (c'.own).mss)

fast_retransmit_lem :
    (env : Env) (a : ℕ) (c : Conn) (u : Ptr) (us : List Ptr)
    → IsList (store_of c) (c.snd).uack_list (u ∷ us)
    → (c.snd).retrans_list.head ≡ null
    → length (u ∷ us) < env.fuel
    → seq_lt a (c.own).snd_nxt ≡ true
    → (c' : Conn) × (fast_retransmit env a c ≡ some c')
      × Resent c.snd (store_of c) a (u ∷ us) c'
      × ((c'.vars) ≡ c.vars)
unfolding fast_retransmit rewind halve_window send_event_enqueue
fast_retransmit_lem env a c u us k none_ lt old =
    let (b, s, ran, retrans, sent, lost, same) =
      sb_reset_retrans_lem env.fuel c.snd (store_of c) u us k none_ lt in
    let c1 = record c {
      own = record (c.own) { snd_nxt = a };
      snd = b;
      host = record (c.host) { machine = record ((c.host).machine) { store = s } };
    } in
    (
      (send_event_enqueue env (set_own (halve_window c1.own) c1)).1,
      rw (old, ran) refl,
      record {
        snd_nxt = refl;
        retrans = retrans;
        sent = sent;
        lost = lost;
        head_seq = ap (λ d. d.head_seq) same;
        ssthresh = ground arith;
        cwnd = refl;
      },
      refl,
    )

-- The update of the window keeps what a duplicate needs.
Kept : Conn → Conn → Type 0
Kept c c' =
    (c'.snd ≡ c.snd)
    × (store_of c' ≡ store_of c)
    × ((c'.own).snd_nxt ≡ (c.own).snd_nxt)
    × ((c'.own).cwnd ≡ (c.own).cwnd)
    × ((c'.vars).dup_acks ≡ (c.vars).dup_acks)

update_window-Kept : (seg : Segment) (a : ℕ) (c : Conn) → Kept c (update_window seg a c)
unfolding update_window Kept
update_window-Kept seg a c =
    if-cases (Kept c)
      (seq_lt (c.vars).snd_wl1 seg.seq
        || (((c.vars).snd_wl1 == seg.seq) && seq_lt (c.vars).snd_wl2 a)
        || (((c.vars).snd_wl2 == a) && ltb (c.own).peer_wnd (scaled_window seg c)))
      (λ b. (refl, refl, refl, refl, refl)) λ b. (refl, refl, refl, refl, refl)

-- A duplicate lies below `snd_nxt`.
dup_old :
    (seg : Segment) (a edge : ℕ) (c : Conn)
    → is_dup seg a edge c ≡ true
    → seq_lt a (c.own).snd_nxt ≡ true
unfolding is_dup
dup_old seg a edge c h = ground arith

-- A number does not lie above itself.
not_above : (a : ℕ) → seq_gt a a ≡ false
unfolding seq_gt
not_above a = ground arith

-- The window's edge before the segment, and whether the segment is then a duplicate.
abbrev pub IsDuplicate : Segment → Conn → Type 0
IsDuplicate seg c =
    is_dup seg (data_ack seg c) (u32 ((c.own).peer_wnd + (c.vars).snd_wl2))
      (update_window seg (data_ack seg c) c)
    ≡ true

-- The third duplicate of an acknowledgement of nothing new, while the packets `u ∷ us` are under way
-- and none waits to be sent again: `process_tcp_ack` returns, sending goes back to the number
-- acknowledged, these packets are to be sent again in their order and are marked as lost, and the
-- congestion window is that of three segments above the new threshold, which is at least two.
pub process_tcp_ack_third :
    (env : Env) (ts : ℕ) (seg : Segment) (c : Conn) (u : Ptr) (us : List Ptr)
    → IsList (store_of c) (c.snd).uack_list (u ∷ us)
    → (c.snd).retrans_list.head ≡ null
    → length (u ∷ us) < env.fuel
    → seq_gt (data_ack seg c) (u32 ((c.snd).head_seq + sb_len c.snd)) ≡ false
    → seq_geq (c.snd).head_seq (data_ack seg c) ≡ true
    → IsDuplicate seg c
    → (c.vars).dup_acks ≡ 2
    → (c' : Conn) × (process_tcp_ack env ts seg c ≡ some c')
      × Resent c.snd (store_of c) (data_ack seg c) (u ∷ us) c'
      × ((c'.vars).dup_acks ≡ 3)
unfolding process_tcp_ack after_window count_dup answer_dup recover Kept
process_tcp_ack_third env ts seg c u us k none_ lt in_buffer old dup two =
    let a = data_ack seg c in
    let edge = u32 ((c.own).peer_wnd + (c.vars).snd_wl2) in
    let c1 = update_window seg a c in
    let (sn, st, nx, cw, da) = update_window-Kept seg a c in
    let c2 = set_vars (record (c1.vars) { dup_acks = u8 ((c1.vars).dup_acks + 1) }) c1 in
    let three : (c2.vars).dup_acks ≡ 3 = rw (da, two) refl in
    let third : ((c2.vars).dup_acks == 3) ≡ true = rw three refl in
    let (c', ran, r, vs) =
      fast_retransmit_lem env a c2 u us
        (subst₂ (λ b s. IsList s b.uack_list (u ∷ us)) (sym sn) (sym st) k)
        (ap (λ b. b.retrans_list.head) sn ∙ none_) lt (dup_old seg a edge c1 dup) in
    let level : seq_gt a (c'.own).snd_nxt ≡ false = rw r.snd_nxt (not_above a) in
    let taken : seq_geq (c'.snd).head_seq a ≡ true = rw (r.head_seq, sn) old in
    (
      c',
      rw (in_buffer, dup, third, ran, level, taken) refl,
      subst₂ (λ b s. Resent b s a (u ∷ us) c') sn st r,
      ap (λ v. v.dup_acks) vs ∙ three,
    )

-- The first and the second duplicate of an acknowledgement of nothing new are only counted: the send
-- buffer, its packets, `snd_nxt` and the congestion window are as before.
pub process_tcp_ack_early :
    (env : Env) (ts : ℕ) (seg : Segment) (c : Conn)
    → seq_gt (data_ack seg c) (u32 ((c.snd).head_seq + sb_len c.snd)) ≡ false
    → seq_geq (c.snd).head_seq (data_ack seg c) ≡ true
    → seq_gt (data_ack seg c) (c.own).snd_nxt ≡ false
    → IsDuplicate seg c
    → (c.vars).dup_acks < 2
    → (c' : Conn) × (process_tcp_ack env ts seg c ≡ some c')
      × ((c'.snd ≡ c.snd)
          × (store_of c' ≡ store_of c)
          × ((c'.own).snd_nxt ≡ (c.own).snd_nxt)
          × ((c'.own).cwnd ≡ (c.own).cwnd))
      × ((c'.vars).dup_acks ≡ (c.vars).dup_acks + 1)
unfolding process_tcp_ack after_window count_dup answer_dup recover Kept
process_tcp_ack_early env ts seg c in_buffer old level dup few =
    let a = data_ack seg c in
    let c1 = update_window seg a c in
    let (sn, st, nx, cw, da) = update_window-Kept seg a c in
    let c2 = set_vars (record (c1.vars) { dup_acks = u8 ((c1.vars).dup_acks + 1) }) c1 in
    let more : (c2.vars).dup_acks ≡ (c.vars).dup_acks + 1 = rw da (omega arith) in
    let third : ((c2.vars).dup_acks == 3) ≡ false = rw more (ground arith) in
    let fourth : ltb 3 (c2.vars).dup_acks ≡ false = rw more (ground arith) in
    let level1 : seq_gt a (c1.own).snd_nxt ≡ false = rw nx level in
    let taken : seq_geq (c1.snd).head_seq a ≡ true = rw sn old in
    (c2, rw (in_buffer, dup, third, fourth, level1, taken) refl, (sn, st, nx, cw), more)
