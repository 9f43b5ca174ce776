-- ===== src/TcpIn/Packet.antt =====
-- `process_tcp_packet`: one packet, from its headers to the handler of the state of its stream.
use qstack.Common.{
  ℕ, ◌+◌, ◌-◌, ◌*◌, ◌^◌, Bool, true, false, ◌&&◌, ◌||◌, not, Option, none, some, ◌==◌,
  if◌then◌else◌, ltb, ◌>>=◌, sub32, u32, Ptr,
}
use qstack.Cirq.{Ret, success, failed, error}
use qstack.Mbuf.{Store, write}
use qstack.SendBuff.{SendBuff}
use qstack.RecvBuff.{RecvBuff}
use qstack.Timer.{TcpState, timeout_list_update}
use qstack.Timer.Check.{is_established}
use qstack.TcpStream.Conn.{Qtuple, HostCall, Host, Conn, Env, log, with_timers, set_own, set_vars}
use qstack.TcpIn.Segment.{Segment, state_number}
use qstack.TcpIn.Payload.{check_sequence_validation, handle_rst}
use qstack.TcpIn.Open.{
  read_options, create_new_flow_ht_entry, handle_tcp_st_listen, handle_tcp_st_syn_sent,
  handle_tcp_st_syn_rcvd,
}
use qstack.TcpIn.States.{
  handle_tcp_st_close_wait, handle_tcp_st_last_ack, handle_tcp_st_fin_wait_1,
  handle_tcp_st_fin_wait_2, handle_tcp_st_closing, handle_tcp_st_established, time_wait_again,
}

-- A segment of SYN_RCVD.
unfoldable pub syn_rcvd_packet : Env → ℕ → Ptr → Segment → Conn → Option Conn
syn_rcvd_packet env cur_ts mbuf seg c =
    let answered = (do
      c1 ← handle_tcp_st_syn_rcvd env seg c
      let data_ = handle_tcp_st_established env cur_ts mbuf seg c1
      (if not (seg.payloadlen == 0) && is_established (c1.own).state then data_ else some c1)) in
    if seg.syn && (seg.seq == (c.vars).irs) then some (handle_tcp_st_listen seg c) else answered

-- The `switch`.
unfoldable pub dispatch : Env → ℕ → Ptr → Segment → TcpState → Conn → Option Conn
dispatch env cur_ts mbuf seg TcpState.listen c = some (handle_tcp_st_listen seg c)
dispatch env cur_ts mbuf seg TcpState.syn_sent c = handle_tcp_st_syn_sent env cur_ts seg c
dispatch env cur_ts mbuf seg TcpState.syn_rcvd c = syn_rcvd_packet env cur_ts mbuf seg c
dispatch env cur_ts mbuf seg TcpState.established c =
    handle_tcp_st_established env cur_ts mbuf seg c
dispatch env cur_ts mbuf seg TcpState.close_wait c = handle_tcp_st_close_wait env cur_ts seg c
dispatch env cur_ts mbuf seg TcpState.last_ack c = handle_tcp_st_last_ack env cur_ts seg c
dispatch env cur_ts mbuf seg TcpState.fin_wait_1 c = handle_tcp_st_fin_wait_1 env cur_ts mbuf seg c
dispatch env cur_ts mbuf seg TcpState.fin_wait_2 c = handle_tcp_st_fin_wait_2 env cur_ts mbuf seg c
dispatch env cur_ts mbuf seg TcpState.closing c = handle_tcp_st_closing env cur_ts seg c
dispatch env cur_ts mbuf seg TcpState.time_wait c = some (time_wait_again cur_ts c)
dispatch env cur_ts mbuf seg TcpState.closed c = some c

-- The window of the peer and the timer of idleness, before the segment is looked at.
unfoldable pub note_segment : ℕ → Segment → Conn → Conn
note_segment cur_ts seg c =
    let wnd = if seg.syn then seg.window else u32 (seg.window * 2 ^ (c.vars).wscale_peer) in
    with_timers (λ p t. (timeout_list_update p cur_ts t).1)
      (set_own (record (c.own) { peer_wnd = wnd }) c)

-- A segment that is accepted.
unfoldable pub process_valid : Env → ℕ → Ptr → Segment → Conn → Option Conn
process_valid env cur_ts mbuf seg c =
    let c1 = note_segment cur_ts seg c in
    let c2 = set_vars (record (c1.vars) { have_reset = true }) c1 in
    let reset = (do
      (done, c3) ← handle_rst env seg c2
      (if done then some c3 else dispatch env cur_ts mbuf seg (c3.own).state c3)) in
    let plain = dispatch env cur_ts mbuf seg (c1.own).state c1 in
    if not seg.rst
    then plain
    else if ltb 2 (state_number (c2.own).state)
    then reset
    else dispatch env cur_ts mbuf seg (c2.own).state c2

-- The part that a new and a known stream share, behind the search and the options of a SYN.
unfoldable pub process_stream : Env → ℕ → Ptr → Segment → Conn → Option (Ret × Conn)
process_stream env cur_ts mbuf seg c =
    let c1 = set_own (record (c.own) { last_active_ts = cur_ts }) c in
    let (valid, c2) = check_sequence_validation cur_ts seg c1 in
    let processed = (do c' ← process_valid env cur_ts mbuf seg c1; some (success, c')) in
    if ltb 3 (state_number (c1.own).state) && not valid then some (failed, c2) else processed

-- What `StreamHTSearch` finds for the quintuple of a packet: a stream, or none of this stack.
pub data Flow : Type 0 where
  hit : Conn → Flow
  miss : Host → Flow

abbrev is_syn_sent : TcpState → Bool
is_syn_sent TcpState.syn_sent = true
is_syn_sent _ = false

-- Behind the search: a new stream, or the options of a SYN of a known one.
unfoldable pub process_flow :
    Env → ℕ → Ptr → Qtuple → Segment → SendBuff → RecvBuff → Flow → Option (Ret × Flow)
process_flow env cur_ts mbuf q seg blank_snd blank_rcv (miss host) =
    let created = (do
      o ← create_new_flow_ht_entry env cur_ts q seg blank_snd blank_rcv host
      elim o [
        | none ↦ some (failed, miss host)
        | some c ↦ (do
          (ret, c') ← process_stream env cur_ts mbuf seg (log HostCall.ml_ts_reset c)
          some (ret, hit c'))
      ]) in
    if not seg.syn then some (failed, miss host) else created
process_flow env cur_ts mbuf q seg blank_snd blank_rcv (hit c) = do
  let again = read_options cur_ts seg c
  c1 ← (if seg.syn && not (is_syn_sent (c.own).state) then again else some c)
  (ret, c') ← process_stream env cur_ts mbuf seg c1
  some (ret, hit c')

-- The lengths of a packet: `ip_len`, the header lengths in words, and the distance of the two
-- headers.
pub record Lengths : Type 0 where
  pub ip_len : ℕ
  pub ihl : ℕ
  pub doff : ℕ
  pub l3_len : ℕ

abbrev pub in_store : (Store → Store) → Host → Host
in_store f h = record h { machine = record (h.machine) { store = f (h.machine).store } }

abbrev pub on_flow : (Host → Host) → Flow → Flow
on_flow f (miss h) = miss (f h)
on_flow f (hit c) = hit (record c { host = f c.host })

-- The lengths are written into the packet before they are looked at, so that a payload length
-- below 0 wraps round there; the field is taken to have 32 bits.
unfoldable pub process_tcp_packet :
    Env → ℕ → Ptr → Lengths → Qtuple → Segment → SendBuff → RecvBuff → Flow → Option (Ret × Flow)
process_tcp_packet env cur_ts mbuf n q seg blank_snd blank_rcv flow =
    let payload = n.l3_len + 4 * n.doff in
    let noted =
      on_flow
        (in_store (λ s. write s mbuf (record (s.cell mbuf) {
          tcp_seq = seg.seq;
          payload_len = sub32 n.ip_len payload;
          l4_len = 4 * n.doff;
        })))
        flow in
    if (n.doff == 0) || ltb n.ip_len (4 * (n.ihl + n.doff))
    then some (error, noted)
    else process_flow env cur_ts mbuf q (record seg { payloadlen = n.ip_len - payload }) blank_snd
        blank_rcv noted
