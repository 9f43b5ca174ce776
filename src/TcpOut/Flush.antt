-- ===== src/TcpOut/Flush.antt =====
-- `flush_tcp_sending_buffer`, and one turn of the loop over the send queue. `none` is a call that
-- ends the process, or a loop that has run out of fuel.
pub mod Within
use qstack.Common.{
  ℕ, zero, suc, ◌+◌, ◌-◌, ◌*◌, ◌/◌, Bool, true, false, ◌&&◌, ◌||◌, not, ◌==◌, ltb, leb,
  if◌then◌else◌, min, u32, sub32, Ptr, null, Option, none, some, ◌>>=◌,
}
use qstack.Cirq.{Ret, success, failed, error}
use qstack.Seq.{seq_lt, seq_gt}
use qstack.N21.{n21q_enqueue}
use qstack.Mbuf.{Store, mbuf_free, mbuf_list_pop, mbuf_list_append}
use qstack.Mbuf.Queue.{mbufq_dequeue}
use qstack.SendBuff.{SendBuff, sb_len}
use qstack.Timer
use qstack.Timer.{TcpState}
use qstack.TcpStream.Conn.{Vars, Host, Conn, Env, set_vars}
use qstack.TcpOut.Queues.{AckOpt, is_success, control_queue_add, enqueue_ack}
use qstack.TcpOut.Packet.{ack_flags, send_tcp_packet, end_wait}

abbrev pub send_window_min : ℕ
send_window_min = 1500

abbrev pub set_store : Store → Conn → Conn
set_store s c = record c {
  host = record (c.host) { machine = record ((c.host).machine) { store = s } };
}

-- `send_event_add`, from the core `core_id`.
unfoldable pub send_event_add : ℕ → ℕ → Conn → Ret × Conn
send_event_add core_id pri c =
    let w = (c.host).machine in
    let (ret, q, mem) = n21q_enqueue (c.host).send_event_queue w.mem core_id c.self in
    let (hret, hq, hmem) = n21q_enqueue (c.host).send_hevent_queue w.mem core_id c.self in
    if pri == 0
    then (
      ret,
      record c {
        host = record (c.host) { send_event_queue = q; machine = record w { mem = mem } };
      },
    )
    else (
      hret,
      record c {
        host = record (c.host) { send_hevent_queue = hq; machine = record w { mem = hmem } };
      },
    )

-- The next packet: one to be sent again, or one of high priority, or another, or NULL.
unfoldable pub next_packet : Conn → Ptr × Conn
next_packet c =
    let b = c.snd in
    let (p, l, s) = mbuf_list_pop b.retrans_list ((c.host).machine).store in
    let (h, hq) = mbufq_dequeue b.husnd_q in
    let (u, uq) = mbufq_dequeue b.usnd_q in
    let c1 = set_store s (record c { snd = record b { retrans_list = l } }) in
    let b1 = record (c1.snd) { husnd_q = hq } in
    if not (p == null)
    then (p, c1)
    else if not (h == null)
    then (h, record c1 { snd = b1 })
    else (u, record c1 { snd = record b1 { usnd_q = uq } })

-- The packet does not fit the window: it is in no list any more.
unfoldable pub out_of_window : Env → ℕ → Ptr → Conn → Conn
out_of_window env cur_ts mbuf c =
    let m = (((c.host).machine).store).cell mbuf in
    let ahead = u32 (sub32 (c.own).snd_nxt (c.own).snd_una + m.payload_len) in
    let waited = u32 (sub32 cur_ts (c.vars).ts_lastack_sent * 1000) / 1000 in
    let asked =
      if ltb (c.own).peer_wnd ahead && ltb 500 waited then (enqueue_ack AckOpt.wack c).1 else c in
    (send_event_add env.stack_id m.priority asked).1

-- The packet is among those that wait for an acknowledgement.
unfoldable pub await_ack : Ptr → Conn → Conn
await_ack mbuf c =
    let (l, s) = mbuf_list_append (c.snd).uack_list mbuf ((c.host).machine).store in
    set_store s (record c { snd = record (c.snd) { uack_list = l } })

abbrev pub window_of : Conn → ℕ
window_of c =
    let w = min (c.own).cwnd (c.own).peer_wnd in
    if ltb w send_window_min then send_window_min else w

-- Whether a packet of `len` bytes at `snd_nxt` fits the window.
abbrev pub fits_window : ℕ → ℕ → Conn → Bool
fits_window window len c =
    not (seq_gt (u32 ((c.own).snd_nxt + len)) (u32 ((c.own).snd_una + window)))

-- The `while` loop, on fuel: the packets sent, and the stream. A status below 0 ends the process.
unfoldable pub flush_loop : ℕ → Env → ℕ → ℕ → Conn → Option (ℕ × Conn)
flush_loop zero env cur_ts window c = none
flush_loop (suc fuel) env cur_ts window c =
    let (mbuf, c1) = next_packet c in
    let store = ((c1.host).machine).store in
    let len = (store.cell mbuf).payload_len in
    let (ret, c2) = send_tcp_packet env cur_ts ack_flags mbuf len c1 in
    let skipped = (do
      s ← mbuf_free mbuf store
      flush_loop fuel env cur_ts window (set_store s c1)) in
    let sent = (do
      (n, c') ← flush_loop fuel env cur_ts window (await_ack mbuf c2)
      some (suc n, c')) in
    if seq_lt (c.own).snd_nxt (c.snd).head_seq
    then some (0, c)
    else if mbuf == null
    then some (0, c1)
    else if len == 0
    then skipped
    else if not (fits_window window len c1)
    then some (0, out_of_window env cur_ts mbuf c1)
    else if is_success ret
    then sent
    else none

unfoldable pub flush_tcp_sending_buffer : Env → ℕ → Conn → Option (ℕ × Conn)
flush_tcp_sending_buffer env cur_ts c =
    if (c.vars).is_fin_sent
    then some (0, c)
    else if sb_len c.snd == 0
    then some (0, c)
    else flush_loop env.fuel env cur_ts (window_of c) c

abbrev pub may_send : TcpState → Bool
may_send TcpState.established = true
may_send TcpState.close_wait = true
may_send TcpState.fin_wait_1 = true
may_send TcpState.last_ack = true
may_send _ = false

-- The acknowledgements that went with `n` packets are no longer due.
abbrev pub piggyback : ℕ → Conn → Conn
piggyback n c =
    let k = (c.vars).ack_cnt in
    set_vars (record (c.vars) { on_send_queue = false; ack_cnt = if ltb n k then k - n else 0 }) c

-- The body of the loop of `write_tcp_send_queue` for a stream that has been taken off the queue; the
-- loop goes on for `true`.
unfoldable pub send_turn : Env → ℕ → Conn → Option (Bool × ℕ × Conn)
send_turn env cur_ts c = do
  let flushed = flush_tcp_sending_buffer env cur_ts c
  (n, c1) ← (if may_send (c.own).state then flushed else some (0, c))
  let c2 = piggyback n c1
  some (
      if n == 0
      then (false, 0, (control_queue_add c1).1)
      else (true, n, end_wait (not (c2.vars).on_ack_queue) c2))
