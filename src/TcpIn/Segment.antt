-- ===== src/TcpIn/Segment.antt =====
-- A segment that has come in, and the tests on the state of its stream.
use qstack.Common.{ℕ, Bool, true, false}
use qstack.Timer.{TcpState}

-- The fields of the headers that tcp_in.c reads, in host order, and the length of the payload.
-- `options` are the bytes behind the fixed part of the TCP header.
pub record Segment : Type 0 where
  pub seq : ℕ
  pub ack_seq : ℕ
  pub window : ℕ
  pub payloadlen : ℕ
  pub syn : Bool
  pub ack : Bool
  pub rst : Bool
  pub fin : Bool
  pub options : ℕ → ℕ
  pub options_len : ℕ

-- The numbers of `enum tcp_state`.
abbrev pub state_number : TcpState → ℕ
state_number TcpState.closed = 0
state_number TcpState.listen = 1
state_number TcpState.syn_sent = 2
state_number TcpState.syn_rcvd = 3
state_number TcpState.established = 4
state_number TcpState.fin_wait_1 = 5
state_number TcpState.fin_wait_2 = 6
state_number TcpState.close_wait = 7
state_number TcpState.closing = 8
state_number TcpState.last_ack = 9
state_number TcpState.time_wait = 10

-- One of the two ends is closed, and the stream is not yet in TIME_WAIT.
abbrev pub half_closed : TcpState → Bool
half_closed TcpState.fin_wait_1 = true
half_closed TcpState.fin_wait_2 = true
half_closed TcpState.closing = true
half_closed TcpState.close_wait = true
half_closed TcpState.last_ack = true
half_closed _ = false
