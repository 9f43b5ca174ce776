-- ===== src/TcpIn/Invalid.antt =====
-- What a segment out of the window leaves of its stream.
use qstack.Common.{
  ℕ, ◌+◌, ◌≡◌, refl, ◌∙◌, ap, true, false, ◌&&◌, ◌||◌, not, some, ◌==◌, if-cases, if◌then◌else◌,
  ltb, Ptr, u32, sub32, ◌*◌, ◌-◌, ◌>>=◌, Option,
}
use qstack.Cirq.{Ret, failed}
use qstack.Seq.{seq_leq}
use qstack.Mbuf.{Store, write}
use qstack.SendBuff.{SendBuff}
use qstack.RecvBuff.{RecvBuff}
use qstack.Timer.{timewait_list_add}
use qstack.Timer.Check.{is_established}
use qstack.TcpStream.Conn.{Qtuple, Conn, Env, with_timers, set_own, set_vars}
use qstack.TcpStream.Keep.{Core, core, core-with_timers, core-timewait_list_add}
use qstack.TcpOut.Queues.{AckOpt, count_ack, control_queue_add, ack_queue_add, enqueue_ack}
use qstack.TcpIn.Segment.{Segment, state_number}
use qstack.TcpIn.Payload.{is_time_wait, answer_invalid, check_sequence_validation, in_window}
use qstack.TcpIn.Packet.{process_stream, Flow, process_flow, Lengths, in_store, process_tcp_packet}

-- What is received and sent, and what has been agreed on with the peer.
pub record Content : Type 0 where
  pub tcp : Core
  pub sent : SendBuff
  pub received : RecvBuff
  pub packets : Store
  pub rcv_nxt : ℕ
  pub rcv_wnd : ℕ
  pub snd_wl1 : ℕ
  pub snd_wl2 : ℕ
  pub dup_acks : ℕ
  pub last_ack_seq : ℕ
  pub eff_mss : ℕ
  pub wscale_peer : ℕ

abbrev pub content : Conn → Content
content c = record {
  tcp = core c.own;
  sent = c.snd;
  received = c.rcv;
  packets = ((c.host).machine).store;
  rcv_nxt = (c.vars).rcv_nxt;
  rcv_wnd = (c.vars).rcv_wnd;
  snd_wl1 = (c.vars).snd_wl1;
  snd_wl2 = (c.vars).snd_wl2;
  dup_acks = (c.vars).dup_acks;
  last_ack_seq = (c.vars).last_ack_seq;
  eff_mss = (c.vars).eff_mss;
  wscale_peer = (c.vars).wscale_peer;
}

Same : Conn → Ret × Conn → Type 0
Same c r = content r.1 ≡ content c

content-control_queue_add : (c : Conn) → content (control_queue_add c).1 ≡ content c
unfolding control_queue_add Same
content-control_queue_add c = if-cases (Same c) ((c.vars).on_control_queue) (λ on. refl) λ off. refl

content-ack_queue_add : (c : Conn) → content (ack_queue_add c).1 ≡ content c
unfolding ack_queue_add Same
content-ack_queue_add c =
    if-cases (Same c) (not ((c.vars).ack_cnt == 0) && not (c.vars).on_ack_queue) (λ on. refl)
      λ off. refl

content-count_ack :
    (opt : AckOpt) (c : Conn) → content (set_vars (count_ack opt c.vars) c) ≡ content c
content-count_ack AckOpt.now c = refl
content-count_ack AckOpt.aggregate c = refl
content-count_ack AckOpt.wack c = refl

content-enqueue_ack : (opt : AckOpt) (c : Conn) → content (enqueue_ack opt c).1 ≡ content c
unfolding enqueue_ack
content-enqueue_ack opt c =
    content-ack_queue_add (set_vars (count_ack opt c.vars) c) ∙ content-count_ack opt c

content-answer_invalid :
    (ts : ℕ) (seg : Segment) (c : Conn) → content (answer_invalid ts seg c) ≡ content c
unfolding answer_invalid
content-answer_invalid ts seg c =
    let P : Conn → Type 0 = λ c'. content c' ≡ content c in
    let opt =
      if (u32 (seg.seq + 1) == (c.vars).rcv_nxt) || seq_leq seg.seq (c.vars).rcv_nxt
      then AckOpt.aggregate
      else AckOpt.now in
    let waits = with_timers (λ p t. (timewait_list_add p ts t).1) c in
    let again = if is_time_wait (c.own).state then waits else c in
    let k : P again =
      if-cases P (is_time_wait (c.own).state)
        (λ b.
          ap (λ o. record (content c) { tcp = o })
            (core-with_timers (λ p t. (timewait_list_add p ts t).1) c
              (core-timewait_list_add c.self ts)))
        (λ b. refl) in
    if-cases P seg.rst (λ b. refl)
      λ b.
        if-cases P (is_established (c.own).state) (λ e. content-enqueue_ack opt c)
          λ e. content-control_queue_add again ∙ k

-- The part behind the search and the options.
process_stream_invalid :
    (env : Env) (ts : ℕ) (mbuf : Ptr) (seg : Segment) (c : Conn)
    → ltb 3 (state_number (c.own).state) ≡ true
    → in_window seg c ≡ false
    → let c1 = set_own (record (c.own) { last_active_ts = ts }) c in
      (c' : Conn) × (process_stream env ts mbuf seg c ≡ some (failed, c'))
      × (content c' ≡ content c)
      × (seg.rst ≡ true → c' ≡ c1)
unfolding process_stream check_sequence_validation answer_invalid
process_stream_invalid env ts mbuf seg c past out =
    let c1 = set_own (record (c.own) { last_active_ts = ts }) c in
    let out1 : in_window seg c1 ≡ false = out in
    (
      answer_invalid ts seg c1,
      rw (past, out1) refl,
      content-answer_invalid ts seg c1,
      λ r. rw r refl,
    )

-- A segment without SYN of a known stream goes to that part.
process_flow_known :
    (env : Env) (ts : ℕ) (mbuf : Ptr) (q : Qtuple) (seg : Segment) (bs : SendBuff) (br : RecvBuff)
    (c c' : Conn) (ret : Ret)
    → seg.syn ≡ false
    → process_stream env ts mbuf seg c ≡ some (ret, c')
    → process_flow env ts mbuf q seg bs br (Flow.hit c) ≡ some (ret, Flow.hit c')
unfolding process_flow
process_flow_known env ts mbuf q seg bs br c c' ret plain ran =
    simp plain (ap (λ (o : Option (Ret × Conn)). o >>= λ r. some (r.0, Flow.hit r.1)) ran)

-- The packet `mbuf` with the lengths of its headers and its number.
abbrev pub noted : Ptr → Lengths → Segment → Conn → Conn
noted mbuf n seg c = record c {
  host =
      in_store
        (λ s. write s mbuf (record (s.cell mbuf) {
          tcp_seq = seg.seq;
          payload_len = sub32 n.ip_len (n.l3_len + 4 * n.doff);
          l4_len = 4 * n.doff;
        }))
        (c.host);
}

-- For a known stream past SYN_RCVD and a packet whose lengths are accepted, without SYN, and which
-- ends out of the receive window: `process_tcp_packet` returns FAILED. The state, the numbers, the
-- windows and both buffers are as they were, whatever the other flags are, and so are all packets but
-- this one, into which its number and lengths have been written. With RST nothing else changes but
-- the time of the stream's last segment.
pub process_tcp_packet_invalid :
    (env : Env) (ts : ℕ) (mbuf : Ptr) (n : Lengths) (q : Qtuple) (seg : Segment) (bs : SendBuff)
    (br : RecvBuff) (c : Conn)
    → (n.doff == 0) || ltb n.ip_len (4 * (n.ihl + n.doff)) ≡ false
    → seg.syn ≡ false
    → ltb 3 (state_number (c.own).state) ≡ true
    → in_window (record seg { payloadlen = n.ip_len - (n.l3_len + 4 * n.doff) }) c ≡ false
    → let c1 = noted mbuf n seg c in
      (c' : Conn) × (process_tcp_packet env ts mbuf n q seg bs br (Flow.hit c)
        ≡ some (failed, Flow.hit c'))
      × (content c' ≡ content c1)
      × (seg.rst ≡ true → c' ≡ set_own (record (c1.own) { last_active_ts = ts }) c1)
unfolding process_tcp_packet
process_tcp_packet_invalid env ts mbuf n q seg bs br c long plain past out =
    let c1 = noted mbuf n seg c in
    let seg1 = record seg { payloadlen = n.ip_len - (n.l3_len + 4 * n.doff) } in
    let (c', ran, same, reset) = process_stream_invalid env ts mbuf seg1 c1 past out in
    let known = process_flow_known env ts mbuf q seg1 bs br c1 c' failed plain ran in
    (c', rw long known, same, reset)
