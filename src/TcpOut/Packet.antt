-- ===== src/TcpOut/Packet.antt =====
-- `send_tcp_packet`, `send_tcp_control_packet`, and one turn of the loops over the control queue and
-- the acknowledgement queue. What `generate_ip_packet` of ip_out.c returns is read from outside, and
-- so is the packet that the driver gives for a segment without a payload. No packet is dropped on
-- purpose (ACTIVE_DROP_EMULATE is 0).
use qstack.Common.{
  ℕ, zero, suc, ◌+◌, ◌/◌, ◌^◌, Bool, true, false, ◌&&◌, ◌||◌, not, ◌==◌, ltb, if◌then◌else◌, min,
  u16, u32, sub32, Ptr, null, Option, none, some,
}
use qstack.Cirq.{Ret, success, failed, error}
use qstack.Mbuf.{MbufState, write}
use qstack.Timer.{TcpState, rto_list_add, timeout_list_update}
use qstack.TcpOptions.{calculate_option_length, generate_tcp_options}
use qstack.TcpStream.Conn.{Header, HostCall, Vars, Conn, Env, log, with_timers, set_own, set_vars}
use qstack.TcpOut.Queues.{is_success, control_queue_add}

-- The flags of a segment to be sent.
pub record Flags : Type 0 where
  pub syn : Bool
  pub fin : Bool
  pub rst : Bool
  pub psh : Bool
  pub ack : Bool
  pub wack : Bool

abbrev pub no_flags : Flags
no_flags = record { syn = false; fin = false; rst = false; psh = false; ack = false; wack = false }

abbrev pub is_fin : Flags → Bool
is_fin f = f.fin && not f.wack

-- The window that is advertised.
abbrev pub window_field : Flags → Vars → ℕ
window_field f v =
    let wscale = if f.syn then 0 else v.wscale_mine in u16 (min (v.rcv_wnd / 2 ^ wscale) 65535)

abbrev pub seq_field : Flags → Conn → ℕ
seq_field f c =
    if f.wack then sub32 (c.own).snd_nxt 1 else if f.fin then (c.own).fss else (c.own).snd_nxt

abbrev pub header : Flags → ℕ → Conn → Header
header f payloadlen c = record {
  syn = f.syn;
  fin = is_fin f;
  rst = f.rst;
  psh = f.psh;
  ack = f.ack;
  seq = seq_field f c;
  ack_seq = if f.ack then (c.vars).rcv_nxt else 0;
  window = window_field f c.vars;
  options = generate_tcp_options f.syn (c.own).mss (c.vars).wscale_mine;
  payloadlen = payloadlen;
}

-- The notes on the stream of what is sent: the FIN, and the acknowledgement with its time.
unfoldable pub note_sent : ℕ → Flags → Conn → Conn
note_sent cur_ts f c =
    let c1 =
      set_vars
        (record (c.vars) {
          is_fin_sent = is_fin f || (c.vars).is_fin_sent;
          ts_lastack_sent = if f.ack then cur_ts else (c.vars).ts_lastack_sent;
        })
        c in
    if f.ack then with_timers (λ p t. (timeout_list_update p cur_ts t).1) c1 else c1

-- The numbers that the segment takes: its payload, and one for a SYN or a FIN.
abbrev pub taken : Flags → ℕ → ℕ
taken f payloadlen = if f.syn || is_fin f then u32 (payloadlen + 1) else payloadlen

-- The three tests of `mbuf_state` are assignments, of which the first holds.
abbrev pub write_packet : Ptr → ℕ → ℕ → Conn → Conn
write_packet mbuf seq payloadlen c =
    let w = (c.host).machine in
    let s = w.store in
    record c {
      host = record (c.host) {
        machine = record w {
          store = write s mbuf (record (s.cell mbuf) {
            tcp_seq = seq;
            payload_len = payloadlen;
            mbuf_state = MbufState.sent;
          });
        };
      };
    }

-- Behind all tests.
unfoldable pub emit : ℕ → Flags → Ptr → ℕ → Conn → Conn
emit cur_ts f mbuf payloadlen c =
    let c1 = write_packet mbuf (seq_field f c) payloadlen (note_sent cur_ts f c) in
    let c2 =
      set_own (record (c1.own) { snd_nxt = u32 ((c1.own).snd_nxt + taken f payloadlen) }) c1 in
    let c3 =
      if taken f payloadlen == 0 then c2 else with_timers (λ p t. (rto_list_add p cur_ts t).1) c2 in
    log (HostCall.io_send mbuf (header f payloadlen c)) c3

-- `mbuf` is NULL for a segment without a payload.
unfoldable pub send_tcp_packet : Env → ℕ → Flags → Ptr → ℕ → Conn → Ret × Conn
send_tcp_packet env cur_ts f mbuf payloadlen c =
    let room = sub32 (c.own).mss (calculate_option_length f.syn) in
    let p = if mbuf == null then env.swmbuf else mbuf in
    if ltb room payloadlen
    then (error, c)
    else if p == null
    then (failed, c)
    else if is_success env.generate_ip_packet
    then (success, emit cur_ts f p payloadlen c)
    else (env.generate_ip_packet, c)

abbrev pub ack_flags : Flags
ack_flags = record no_flags { ack = true }

abbrev pub fin_flags : Flags
fin_flags = record no_flags { fin = true; ack = true }

-- What a state has to say; `none` for nothing.
abbrev pub control_flags : TcpState → Conn → Option Flags
control_flags TcpState.syn_sent c = some (record no_flags { syn = true })
control_flags TcpState.syn_rcvd c = some (record no_flags { syn = true; ack = true })
control_flags TcpState.established c = some ack_flags
control_flags TcpState.close_wait c = some ack_flags
control_flags TcpState.last_ack c = some fin_flags
control_flags TcpState.fin_wait_1 c = some fin_flags
control_flags TcpState.fin_wait_2 c = some ack_flags
control_flags TcpState.closing c =
    some (
      if (c.vars).is_fin_sent && not ((c.own).snd_nxt == (c.own).fss) then ack_flags else fin_flags)
control_flags TcpState.time_wait c = some ack_flags
control_flags TcpState.closed c = none
control_flags TcpState.listen c = none

-- A SYN that is sent again has the number of the first.
abbrev pub rewind_syn : TcpState → Conn → Conn
rewind_syn TcpState.syn_rcvd c = set_own (record (c.own) { snd_nxt = (c.vars).iss }) c
rewind_syn _ c = c

unfoldable pub send_tcp_control_packet : Env → ℕ → Conn → Ret × Conn
send_tcp_control_packet env cur_ts c =
    let c1 = rewind_syn ((c.own).state) c in
    elim (control_flags ((c.own).state) c1) [
      | none ↦ (failed, c1)
      | some f ↦ send_tcp_packet env cur_ts f null 0 c1
    ]

-- The body of the loop of `write_tcp_control_queue` for a stream that has been taken off the queue.
unfoldable pub control_turn : Env → ℕ → Conn → Ret × Conn
control_turn env cur_ts c =
    let off = set_vars (record (c.vars) { on_control_queue = false }) c in
    if (c.vars).on_control_queue then send_tcp_control_packet env cur_ts off else (failed, c)

abbrev pub may_ack : TcpState → Bool
may_ack TcpState.established = true
may_ack TcpState.close_wait = true
may_ack TcpState.fin_wait_1 = true
may_ack TcpState.fin_wait_2 = true
may_ack TcpState.time_wait = true
may_ack _ = false

-- The loop over `ack_cnt`, for its value: the packets sent, and the stream.
unfoldable pub ack_loop : Env → ℕ → ℕ → Conn → ℕ × Conn
ack_loop env cur_ts zero c = (0, c)
ack_loop env cur_ts (suc n) c =
    let (ret, c1) = send_tcp_packet env cur_ts ack_flags null 0 c in
    let (cnt, c2) = ack_loop env cur_ts n (set_vars (record (c1.vars) { ack_cnt = n }) c1) in
    if is_success ret then (suc cnt, c2) else (0, c1)

-- The acknowledgement that asks for a window.
unfoldable pub wack_turn : Env → ℕ → Conn → ℕ × Conn
wack_turn env cur_ts c =
    let (ret, c1) =
      send_tcp_packet env cur_ts (record ack_flags { wack = true }) null 0
        (set_vars (record (c.vars) { is_wack = false }) c) in
    if not (c.vars).is_wack
    then (0, c)
    else if is_success ret
    then (1, c1)
    else (0, set_vars (record (c1.vars) { is_wack = true }) c1)

abbrev pub end_wait : Bool → Conn → Conn
end_wait waits c =
    let c1 = set_vars (record (c.vars) { control_list_waiting = false }) c in
    if (c.vars).control_list_waiting && waits then (control_queue_add c1).1 else c

-- The body of the loop of `write_tcp_ack_queue` for a stream that has been taken off the queue.
unfoldable pub ack_turn : Env → ℕ → Conn → ℕ × Conn
ack_turn env cur_ts c =
    let off = set_vars (record (c.vars) { on_ack_queue = false }) c in
    let (n, c1) = ack_loop env cur_ts (off.vars).ack_cnt off in
    let (m, c2) = wack_turn env cur_ts c1 in
    let none_ = set_vars (record (off.vars) { ack_cnt = 0; is_wack = false }) off in
    if not (c.vars).on_ack_queue
    then (0, c)
    else if may_ack (c.own).state
    then (n + m, end_wait (not (c2.vars).on_send_queue) c2)
    else (0, end_wait (not (none_.vars).on_send_queue) none_)
