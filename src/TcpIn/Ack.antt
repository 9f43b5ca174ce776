-- ===== src/TcpIn/Ack.antt =====
-- `process_tcp_ack`, in the order of its parts. A shift by a window scale past 31 has no defined
-- outcome in C; here it gives 0.
use qstack.Common.{
  ℕ, ◌+◌, ◌*◌, ◌/◌, ◌^◌, Bool, ◌&&◌, ◌||◌, Option, none, some, ◌==◌, ltb, if◌then◌else◌, ◌>>=◌, min,
  u8, u16, u32, sub32,
}
use qstack.Seq.{seq_lt, seq_gt, seq_geq}
use qstack.SendBuff.{sb_len, sb_reset_retrans, sb_remove_acked}
use qstack.Timer
use qstack.Timer.{rto_list_remove, rto_list_update, tcp_max_rtx}
use qstack.TcpStream.Conn.{Conn, Env, with_timers, set_own, set_vars}
use qstack.TcpOut.Queues.{send_event_enqueue}
use qstack.TcpIn.Segment.{Segment, state_number, half_closed}

-- The number acknowledged, without the FIN.
unfoldable pub data_ack : Segment → Conn → ℕ
data_ack seg c =
    if half_closed (c.own).state && (c.vars).is_fin_sent && (seg.ack_seq == u32 ((c.own).fss + 1))
    then sub32 seg.ack_seq 1
    else seg.ack_seq

-- `cwindow`.
abbrev pub scaled_window : Segment → Conn → ℕ
scaled_window seg c = if seg.syn then seg.window else u32 (seg.window * 2 ^ (c.vars).wscale_peer)

unfoldable pub update_window : Segment → ℕ → Conn → Conn
update_window seg ack_seq c =
    let v = c.vars in
    let cwindow = scaled_window seg c in
    let newer = record c {
      own = record (c.own) { peer_wnd = cwindow };
      vars = record v { snd_wl1 = seg.seq; snd_wl2 = ack_seq };
    } in
    if seq_lt v.snd_wl1 seg.seq
      || ((v.snd_wl1 == seg.seq) && seq_lt v.snd_wl2 ack_seq)
      || ((v.snd_wl2 == ack_seq) && ltb (c.own).peer_wnd cwindow)
    then newer
    else c

-- `right_wnd_edge` is that before the window was updated.
unfoldable pub is_dup : Segment → ℕ → ℕ → Conn → Bool
is_dup seg ack_seq right_wnd_edge c =
    seq_lt ack_seq (c.own).snd_nxt
    && (ack_seq == (c.vars).last_ack_seq)
    && (seg.payloadlen == 0)
    && (u32 ((c.vars).snd_wl2 + (c.own).peer_wnd) == right_wnd_edge)

-- `dup_acks + 1 > dup_acks` is a sum of ints, so that the test always holds.
unfoldable pub count_dup : Bool → ℕ → Conn → Conn
count_dup dup ack_seq c =
    if dup
    then set_vars (record (c.vars) { dup_acks = u8 ((c.vars).dup_acks + 1) }) c
    else set_vars (record (c.vars) { dup_acks = 0; last_ack_seq = ack_seq }) c

-- The congestion window of a fast retransmission, and the count of retransmissions.
unfoldable pub halve_window : Timer.Stream → Timer.Stream
halve_window v =
    let half = min v.cwnd v.peer_wnd / 2 in
    let threshold = if ltb half (2 * v.mss) then 2 * v.mss else half in
    record v {
      ssthresh = threshold;
      cwnd = u32 (threshold + 3 * v.mss);
      nrtx = if ltb v.nrtx tcp_max_rtx then v.nrtx + 1 else v.nrtx;
    }

unfoldable pub rewind : Env → ℕ → Conn → Option Conn
rewind env ack_seq c =
    let w = (c.host).machine in
    let reset = (do
      (_, b, s) ← sb_reset_retrans env.fuel c.snd w.store
      some (record c {
        own = record (c.own) { snd_nxt = ack_seq };
        snd = b;
        host = record (c.host) { machine = record w { store = s } };
      })) in
    if seq_lt ack_seq (c.own).snd_nxt then reset else some c

unfoldable pub fast_retransmit : Env → ℕ → Conn → Option Conn
fast_retransmit env ack_seq c = do
  c1 ← rewind env ack_seq c
  some (send_event_enqueue env (set_own (halve_window c1.own) c1)).1

unfoldable pub inflate : Conn → Conn
inflate c =
    let v = c.own in
    if ltb v.cwnd (u32 (v.cwnd + v.mss))
    then set_own (record v { cwnd = u32 (v.cwnd + v.mss) }) c
    else c

-- The part from the count of duplicates on that may retransmit.
unfoldable pub answer_dup : Env → Bool → ℕ → Conn → Option Conn
answer_dup env dup ack_seq c =
    let again = fast_retransmit env ack_seq c in
    if dup && ((c.vars).dup_acks == 3)
    then again
    else if ltb 3 (c.vars).dup_acks
    then some (inflate c)
    else some c

unfoldable pub recover : ℕ → Conn → Conn
recover ack_seq c =
    if seq_gt ack_seq (c.own).snd_nxt then set_own (record (c.own) { snd_nxt = ack_seq }) c else c

-- `packets`. A segment size of 0 divides by zero.
abbrev pub packets_of : ℕ → ℕ → ℕ
packets_of rmlen eff_mss =
    let n = rmlen / eff_mss in if ltb rmlen (n * eff_mss) then u16 (n + 1) else u16 n

-- A congestion window of 0 divides by zero.
unfoldable pub grow_window : ℕ → Timer.Stream → Option Timer.Stream
grow_window packets v =
    let bigger = u32 (v.cwnd + u32 (packets * v.mss * v.mss) / v.cwnd) in
    if ltb (state_number v.state) 4
    then some v
    else if ltb v.cwnd v.ssthresh
    then (if ltb v.cwnd (u32 (v.cwnd + v.mss))
        then some (record v { cwnd = u32 (v.cwnd + v.mss * packets) })
        else some v)
    else if v.cwnd == 0
    then none
    else some (if ltb v.cwnd bigger then record v { cwnd = bigger } else v)

-- The timer of what is still unacknowledged.
unfoldable pub restart_rto : ℕ → ℕ → Conn → Conn
restart_rto cur_ts ack_seq c =
    if (c.own).snd_nxt == ack_seq
    then with_timers (λ p t. (rto_list_remove p t).1) c
    else with_timers (λ p. rto_list_update p cur_ts) c

-- The part behind the test for an old acknowledgement.
unfoldable pub take_acked : Env → ℕ → ℕ → Conn → Option Conn
take_acked env cur_ts ack_seq c =
    let w = (c.host).machine in
    let rmlen = sub32 ack_seq (c.snd).head_seq in
    let taken = (do
      v ← grow_window (packets_of rmlen (c.vars).eff_mss) c.own
      (_, b, s) ← sb_remove_acked env.fuel c.snd ack_seq w.store
      let c1 = record c {
        own = record v { snd_una = ack_seq };
        vars = record (c.vars) { snd_wnd = sub32 b.size (sb_len b) };
        snd = b;
        host = record (c.host) { machine = record w { store = s } };
      }
      some (restart_rto cur_ts ack_seq c1)) in
    if (c.vars).eff_mss == 0 then none else taken

-- All behind the update of the window.
unfoldable pub after_window : Env → ℕ → Bool → ℕ → Conn → Option Conn
after_window env cur_ts dup ack_seq c = do
  c1 ← answer_dup env dup ack_seq (count_dup dup ack_seq c)
  let c2 = recover ack_seq c1
  if seq_geq (c2.snd).head_seq ack_seq then some c2 else take_acked env cur_ts ack_seq c2

unfoldable pub process_tcp_ack : Env → ℕ → Segment → Conn → Option Conn
process_tcp_ack env cur_ts seg c =
    let right_wnd_edge = u32 ((c.own).peer_wnd + (c.vars).snd_wl2) in
    let ack_seq = data_ack seg c in
    let c1 = update_window seg ack_seq c in
    let rest = after_window env cur_ts (is_dup seg ack_seq right_wnd_edge c1) ack_seq c1 in
    if seq_gt ack_seq (u32 ((c.snd).head_seq + sb_len c.snd)) then some c else rest
