-- ===== src/TcpIn/Moves.antt =====
-- The moves of a stream's state that a segment may cause, with what makes each one legal.
pub mod Handlers
pub mod Closing
pub mod Opening
pub mod Packet
use qstack.Common.{
  ℕ, ◌+◌, ◌≡◌, sym, ◌∙◌, ap, subst, ◌⊎◌, Bool, true, false, ◌||◌, ◌==◌, u32, ◌&&◌, arith,
}
use qstack.Seq.{seq_leq, seq_gt}
use qstack.Timer.{TcpState}
use qstack.TcpStream.Conn.{Conn}
use qstack.TcpIn.Segment.{Segment}
use qstack.TcpIn.Payload.{app_closed}
use qstack.TcpIn.Ident.{Ident, ident, Like}

-- The segment acknowledges the FIN that has been sent.
pub record AcksFin (seg : Segment) (i : Ident) : Type 0 where
  pub ack : seg.ack ≡ true
  pub sent : i.is_fin_sent ≡ true
  pub number : seg.ack_seq ≡ u32 (i.fss + 1)

-- It acknowledges a number behind `iss` and up to `nxt`.
pub record AcksSyn (seg : Segment) (i : Ident) (nxt : ℕ) : Type 0 where
  pub ack : seg.ack ≡ true
  pub above : seq_leq seg.ack_seq i.iss ≡ false
  pub sent : seq_gt seg.ack_seq nxt ≡ false

-- It completes the handshake.
pub record CompletesOpen (seg : Segment) (i : Ident) : Type 0 where
  pub ack : seg.ack ≡ true
  pub number : seg.ack_seq ≡ u32 (i.iss + 1)

-- The states that a reset leaves for CLOSE_WAIT.
abbrev pub resettable : TcpState → Bool
resettable TcpState.established = true
resettable TcpState.close_wait = true
resettable _ = false

-- `i` and `nxt` are those of the stream before the segment: what identifies it, and `snd_nxt`.
pub data Move (seg : Segment) (i : Ident) (nxt : ℕ) : TcpState → TcpState → Type 0 where
  stay : {s : TcpState} → Move seg i nxt s s
  passive_open : seg.syn ≡ true → Move seg i nxt TcpState.listen TcpState.syn_rcvd
  active_open :
      seg.syn ≡ true → AcksSyn seg i nxt → Move seg i nxt TcpState.syn_sent TcpState.established
  simultaneous :
      seg.syn ≡ true → seg.ack ≡ false → Move seg i nxt TcpState.syn_sent TcpState.syn_rcvd
  refused :
      seg.rst ≡ true → AcksSyn seg i nxt → Move seg i nxt TcpState.syn_sent TcpState.close_wait
  complete : CompletesOpen seg i → Move seg i nxt TcpState.syn_rcvd TcpState.established
  complete_fin :
      CompletesOpen seg i → seg.fin ≡ true → Move seg i nxt TcpState.syn_rcvd TcpState.close_wait
  not_accepted : CompletesOpen seg i → Move seg i nxt TcpState.syn_rcvd TcpState.closed
  open_reset : seg.rst ≡ true → seg.ack_seq ≡ nxt → Move seg i nxt TcpState.syn_rcvd TcpState.closed
  peer_fin : seg.fin ≡ true → Move seg i nxt TcpState.established TcpState.close_wait
  fin_acked : AcksFin seg i → Move seg i nxt TcpState.fin_wait_1 TcpState.fin_wait_2
  fin_crossed : seg.fin ≡ true → Move seg i nxt TcpState.fin_wait_1 TcpState.closing
  fin_both : AcksFin seg i → seg.fin ≡ true → Move seg i nxt TcpState.fin_wait_1 TcpState.time_wait
  fin_last : seg.fin ≡ true → Move seg i nxt TcpState.fin_wait_2 TcpState.time_wait
  closing_acked : AcksFin seg i → Move seg i nxt TcpState.closing TcpState.time_wait
  last_acked : AcksFin seg i → Move seg i nxt TcpState.last_ack TcpState.closed
  reset :
      {s : TcpState} → seg.rst ≡ true → resettable s ≡ true → Move seg i nxt s TcpState.close_wait
  abort : {s : TcpState} → seg.rst ≡ true → app_closed s ≡ true → Move seg i nxt s TcpState.closed

pub arrives :
    {seg : Segment} {i : Ident} {nxt : ℕ} {s t t' : TcpState}
    → Move seg i nxt s t
    → t' ≡ t
    → Move seg i nxt s t'
arrives {seg} {i} {nxt} {s} m e = subst (λ u. Move seg i nxt s u) (sym e) m

pub leaves :
    {seg : Segment} {i : Ident} {nxt : ℕ} {s s' t : TcpState}
    → Move seg i nxt s t
    → s' ≡ s
    → Move seg i nxt s' t
leaves {seg} {i} {nxt} {t = t} m e = subst (λ u. Move seg i nxt u t) (sym e) m

pub stays : {seg : Segment} {i : Ident} {nxt : ℕ} {s t : TcpState} → t ≡ s → Move seg i nxt s t
stays e = arrives stay e

pub state_of : {i j : Ident} → i ≡ j → i.state ≡ j.state
state_of k = ap (λ i. i.state) k
