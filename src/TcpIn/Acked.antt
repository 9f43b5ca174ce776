-- ===== src/TcpIn/Acked.antt =====
-- What `process_tcp_ack` does with an acknowledgement of new data, and with a duplicate.
use qstack.Common.{
  ℕ, ◌+◌, ◌*◌, ◌/◌, ◌<◌, ◌≡◌, ◌≢◌, refl, sym, ◌∙◌, ap, false, ◌&&◌, ◌||◌, Option, some, ◌==◌,
  if-cases, ltb, Ptr, u32, sub32, arith, List, length, subst₂,
}
use qstack.Seq.{seq_lt, seq_gt, seq_geq}
use qstack.Mbuf.{Store}
use qstack.Mbuf.Chain.{IsList}
use qstack.SendBuff.{SendBuff, sb_len}
use qstack.SendBuff.Acked.{Disjoint, Removed, sb_remove_acked_lem}
use qstack.Timer
use qstack.Timer.{rto_list_remove, rto_list_update}
use qstack.TcpStream.Conn.{Conn, Env, set_vars}
use qstack.TcpStream.Keep.{core, core-with_timers, core-rto_list_remove, core-rto_list_update}
use qstack.TcpIn.Segment.{Segment, state_number}
use qstack.TcpIn.Ack.{
  data_ack, update_window, is_dup, count_dup, answer_dup, recover, grow_window, restart_rto,
  take_acked, after_window, process_tcp_ack, packets_of, scaled_window,
}

-- A congestion window that is not 0 has a next one.
grow_window_returns :
    (n : ℕ) (v : Timer.Stream) → v.cwnd ≢ 0 → (v' : Timer.Stream) × (grow_window n v ≡ some v')
unfolding grow_window
grow_window_returns n v h =
    let R : Option Timer.Stream → Type 0 = λ o. (v' : Timer.Stream) × (o ≡ some v') in
    let bigger = u32 (v.cwnd + u32 (n * v.mss * v.mss) / v.cwnd) in
    if-cases R (ltb (state_number v.state) 4) (λ b. (_, refl))
      λ b.
        if-cases R (ltb v.cwnd v.ssthresh)
          (λ b1. if-cases R (ltb v.cwnd (u32 (v.cwnd + v.mss))) (λ b2. (_, refl)) λ b2. (_, refl))
          λ b1. if-cases R (v.cwnd == 0) (λ b2. absurd (ground arith)) λ b2. (_, refl)

-- What the timers leave of the stream.
restart_rto_rest :
    (ts a : ℕ) (c : Conn)
    → let c' = restart_rto ts a c in
      (core c'.own ≡ core c.own)
      × (c'.vars ≡ c.vars)
      × (c'.snd ≡ c.snd)
      × ((((c'.host).machine).store) ≡ (((c.host).machine).store))
unfolding restart_rto
restart_rto_rest ts a c =
    let R : Conn → Type 0 = λ c'.
      (core c'.own ≡ core c.own)
      × (c'.vars ≡ c.vars)
      × (c'.snd ≡ c.snd)
      × ((((c'.host).machine).store) ≡ (((c.host).machine).store)) in
    if-cases R ((c.own).snd_nxt == a)
      (λ b. (
        core-with_timers (λ p t. (rto_list_remove p t).1) c (core-rto_list_remove c.self),
        refl,
        refl,
        refl,
      ))
      λ b. (
        core-with_timers (λ p t. rto_list_update p ts t) c (core-rto_list_update c.self ts),
        refl,
        refl,
        refl,
      )

-- The store of a stream's stack.
abbrev pub store_of : Conn → Store
store_of c = ((c.host).machine).store

-- The packets `us` of a send buffer are sent, and behind them `rs` are to be sent again; the lists
-- are sound and within the fuel.
pub record Sending (env : Env) (b : SendBuff) (s : Store) (us rs : List Ptr) : Type 0 where
  pub uack : IsList s b.uack_list us
  pub retrans : IsList s b.retrans_list rs
  pub apart : Disjoint us rs
  pub uack_fuel : length us < env.fuel
  pub retrans_fuel : length rs < env.fuel

-- The acknowledgement `a` has been taken from that buffer.
pub record Taken (b : SendBuff) (s : Store) (a : ℕ) (us rs : List Ptr) (c' : Conn) : Type 0 where
  pub buffer : Removed b a s us rs c'.snd (store_of c')
  pub snd_una : (c'.own).snd_una ≡ a
  pub snd_wnd : (c'.vars).snd_wnd ≡ sub32 (c'.snd).size (sb_len c'.snd)

take_acked_lem :
    (env : Env) (ts a : ℕ) (c : Conn) (us rs : List Ptr)
    → Sending env c.snd (store_of c) us rs
    → (c.vars).eff_mss ≢ 0
    → (c.own).cwnd ≢ 0
    → (c' : Conn) × (take_acked env ts a c ≡ some c')
      × Taken c.snd (store_of c) a us rs c'
      × ((c'.vars).dup_acks ≡ (c.vars).dup_acks)
      × ((c'.vars).last_ack_seq ≡ (c.vars).last_ack_seq)
unfolding take_acked
take_acked_lem env ts a c us rs k m w =
    let n = packets_of (sub32 a (c.snd).head_seq) (c.vars).eff_mss in
    let (v, grown) = grow_window_returns n c.own w in
    let (b, s, removed, r) =
      sb_remove_acked_lem env.fuel c.snd a (store_of c) us rs k.uack k.retrans k.apart k.uack_fuel
        k.retrans_fuel in
    let c1 = record c {
      own = record v { snd_una = a };
      vars = record (c.vars) { snd_wnd = sub32 b.size (sb_len b) };
      snd = b;
      host = record (c.host) { machine = record ((c.host).machine) { store = s } };
    } in
    let (o, vs, sn, st) = restart_rto_rest ts a c1 in
    let some_mss : ((c.vars).eff_mss == 0) ≡ false = ground arith in
    (
      restart_rto ts a c1,
      rw (some_mss, grown, removed) refl,
      record {
        buffer = subst₂ (λ b' s'. Removed c.snd a (store_of c) us rs b' s') (sym sn) (sym st) r;
        snd_una = ap (λ k. k.snd_una) o;
        snd_wnd = ap (λ v'. v'.snd_wnd) vs ∙ ap (λ b'. sub32 b'.size (sb_len b')) (sym sn);
      },
      ap (λ v'. v'.dup_acks) vs,
      ap (λ v'. v'.last_ack_seq) vs,
    )

-- What the parts in front of `take_acked` leave.
Kept : Conn → Conn → Type 0
Kept c c' =
    (c'.snd ≡ c.snd)
    × (store_of c' ≡ store_of c)
    × ((c'.vars).eff_mss ≡ (c.vars).eff_mss)
    × ((c'.own).cwnd ≡ (c.own).cwnd)

update_window-Kept :
    (seg : Segment) (a : ℕ) (c : Conn)
    → Kept c (update_window seg a c)
      × (((update_window seg a c).vars).last_ack_seq ≡ (c.vars).last_ack_seq)
unfolding update_window Kept
update_window-Kept seg a c =
    if-cases (λ c'. Kept c c' × ((c'.vars).last_ack_seq ≡ (c.vars).last_ack_seq))
      (seq_lt (c.vars).snd_wl1 seg.seq
        || (((c.vars).snd_wl1 == seg.seq) && seq_lt (c.vars).snd_wl2 a)
        || (((c.vars).snd_wl2 == a) && ltb (c.own).peer_wnd (scaled_window seg c)))
      (λ b. ((refl, refl, refl, refl), refl)) λ b. ((refl, refl, refl, refl), refl)

recover-Kept : (a : ℕ) (c : Conn) → Kept c (recover a c) × ((recover a c).vars ≡ c.vars)
unfolding recover Kept
recover-Kept a c =
    if-cases (λ c'. Kept c c' × (c'.vars ≡ c.vars)) (seq_gt a (c.own).snd_nxt)
      (λ b. ((refl, refl, refl, refl), refl)) λ b. ((refl, refl, refl, refl), refl)

-- A new number is not a duplicate.
not_dup :
    (seg : Segment) (a edge : ℕ) (c : Conn)
    → (a == (c.vars).last_ack_seq) ≡ false
    → is_dup seg a edge c ≡ false
unfolding is_dup
not_dup seg a edge c h = ground arith

-- `process_tcp_ack` on an acknowledgement of data that is under way, with another number than the
-- last one: it returns; the send buffer holds what the acknowledgement does not cover, and what it
-- covers is back with the driver; `snd_una`, the window for the application and the record of
-- duplicates follow. The peer's segment size and the congestion window are not 0.
pub process_tcp_ack_new :
    (env : Env) (ts : ℕ) (seg : Segment) (c : Conn) (us rs : List Ptr)
    → Sending env c.snd (store_of c) us rs
    → (c.vars).eff_mss ≢ 0
    → (c.own).cwnd ≢ 0
    → seq_gt (data_ack seg c) (u32 ((c.snd).head_seq + sb_len c.snd)) ≡ false
    → seq_geq (c.snd).head_seq (data_ack seg c) ≡ false
    → data_ack seg c ≢ (c.vars).last_ack_seq
    → (c' : Conn) × (process_tcp_ack env ts seg c ≡ some c')
      × Taken c.snd (store_of c) (data_ack seg c) us rs c'
      × ((c'.vars).dup_acks ≡ 0)
      × ((c'.vars).last_ack_seq ≡ data_ack seg c)
unfolding process_tcp_ack after_window count_dup answer_dup Kept
process_tcp_ack_new env ts seg c us rs k m w in_buffer new_ other =
    let a = data_ack seg c in
    let c1 = update_window seg a c in
    let (kept1, last) = update_window-Kept seg a c in
    let fresh : (a == (c1.vars).last_ack_seq) ≡ false = rw last (ground arith) in
    let once = not_dup seg a (u32 ((c.own).peer_wnd + (c.vars).snd_wl2)) c1 fresh in
    let c2 = set_vars (record (c1.vars) { dup_acks = 0; last_ack_seq = a }) c1 in
    let c3 = recover a c2 in
    let (kept3, vs) = recover-Kept a c2 in
    let sn : c3.snd ≡ c.snd = kept3.0 ∙ kept1.0 in
    let st : store_of c3 ≡ store_of c = kept3.1 ∙ kept1.1 in
    let (c', ran, t, d, l) =
      take_acked_lem env ts a c3 us rs (subst₂ (λ b s. Sending env b s us rs) (sym sn) (sym st) k)
        (λ e. m (sym (kept3.2 ∙ kept1.2) ∙ e)) (λ e. w (sym (kept3.3 ∙ kept1.3) ∙ e)) in
    let still : seq_geq (c3.snd).head_seq a ≡ false = rw sn new_ in
    (
      c',
      rw (in_buffer, once, still) ran,
      subst₂ (λ b s. Taken b s a us rs c') sn st t,
      d ∙ ap (λ v. v.dup_acks) vs,
      l ∙ ap (λ v. v.last_ack_seq) vs,
    )
