-- ===== src/TcpIn/Moves/Packet.antt =====
-- A packet moves the state of a known stream only legally.
use qstack.Common.{
  ℕ, ◌+◌, ◌*◌, ◌^◌, ◌≡◌, refl, sym, ◌∙◌, ap, Bool, true, false, ◌&&◌, ◌||◌, not, Option, some, ◌==◌,
  OnSome, OnSome-bind, OnSome-map, if-cases, if◌then◌else◌, Ptr, u32, arith, ◌⊎◌, inl, inr, ltb,
  subst, subst₂,
}
use qstack.Cirq.{Ret, failed}
use qstack.Seq.{seq_leq}
use qstack.Timer.{TcpState, timeout_list_update, timewait_list_remove}
use qstack.Timer.Check.{is_established}
use qstack.TcpStream.Conn.{Conn, Env, with_timers, set_own, set_vars}
use qstack.TcpStream.Keep.{core-with_timers, core-timeout_list_update, core-timewait_list_remove}
use qstack.TcpOut.Queues.{AckOpt}
use qstack.TcpIn.Segment.{Segment, state_number}
use qstack.TcpIn.Events.{raise_read_event, raise_close_event}
use qstack.TcpIn.Payload.{
  is_time_wait, answer_invalid, check_sequence_validation, in_window, app_closed, is_syn_rcvd,
  end_stream, handle_rst,
}
use qstack.TcpIn.States.{wait_2msl, time_wait_again}
use qstack.TcpIn.Packet.{dispatch, note_segment, process_valid, process_stream}
use qstack.TcpIn.Ident.{
  ident, Like, ident-with_timers, ident-control_queue_add, ident-enqueue_ack,
  ident-raise_read_event,
}
use qstack.TcpIn.Moves.{
  Move, resettable, stay, open_reset, passive_open, peer_fin, reset, abort, arrives, leaves, stays,
  state_of,
}
use qstack.TcpIn.Moves.Handlers.{
  Goes, end_stream_closed, ident-wait_2msl, Like-Goes, Likes-Goes, handle_tcp_st_close_wait_moves,
  handle_tcp_st_last_ack_moves,
}
use qstack.TcpIn.Moves.Closing.{
  handle_tcp_st_closing_moves, handle_tcp_st_fin_wait_1_moves, handle_tcp_st_fin_wait_2_moves,
  handle_tcp_st_established_moves,
}
use qstack.TcpIn.Moves.Opening.{
  handle_tcp_st_listen_moves, handle_tcp_st_syn_sent_moves, syn_rcvd_packet_moves,
}

-- A segment out of the window.
pub ident-answer_invalid : (ts : ℕ) (seg : Segment) (c : Conn) → Like c (answer_invalid ts seg c)
unfolding answer_invalid
ident-answer_invalid ts seg c =
    let opt =
      if (u32 (seg.seq + 1) == (c.vars).rcv_nxt) || seq_leq seg.seq (c.vars).rcv_nxt
      then AckOpt.aggregate
      else AckOpt.now in
    let again = if is_time_wait (c.own).state then wait_2msl ts c else c in
    let k : Like c again =
      if-cases (Like c) (is_time_wait (c.own).state) (λ b. ident-wait_2msl ts c) (λ b. refl) in
    if-cases (Like c) seg.rst (λ b. refl)
      λ b.
        if-cases (Like c) (is_established (c.own).state) (λ e. ident-enqueue_ack opt c)
          λ e. ident-control_queue_add again ∙ k

time_wait_again-Like : (ts : ℕ) (c : Conn) → Like c (time_wait_again ts c)
unfolding time_wait_again
time_wait_again-Like ts c =
    let c1 = with_timers (λ p t. (timewait_list_remove p t).1) c in
    let c2 = if (c.own).on_timewait_list then wait_2msl ts c1 else c in
    let k : Like c c2 =
      if-cases (Like c) ((c.own).on_timewait_list)
        (λ b.
          ident-wait_2msl ts c1
          ∙ ident-with_timers (λ p t. (timewait_list_remove p t).1) c
              (core-timewait_list_remove c.self))
        (λ b. refl) in
    ident-control_queue_add c2 ∙ k

established_Goes :
    (seg : Segment) (c c' : Conn)
    → (c.own).state ≡ TcpState.established
    → Like c c' ⊎ ((seg.fin ≡ true) × ((c'.own).state ≡ TcpState.close_wait))
    → Goes seg c TcpState.established c'
established_Goes seg c c' st (inl k) = Like-Goes seg c c' TcpState.established st k
established_Goes seg c c' st (inr (f, e)) = arrives (peer_fin f) e

dispatch_moves :
    (env : Env) (ts : ℕ) (mbuf : Ptr) (seg : Segment) (s : TcpState) (c : Conn)
    → (c.own).state ≡ s
    → OnSome (Goes seg c s) (dispatch env ts mbuf seg s c)
unfolding dispatch
dispatch_moves env ts mbuf seg TcpState.closed c st = stays st
dispatch_moves env ts mbuf seg TcpState.listen c st = elim (handle_tcp_st_listen_moves seg c) [
  | inl e ↦ stays (e ∙ st)
  | inr (y, e) ↦ arrives (passive_open y) e
]
dispatch_moves env ts mbuf seg TcpState.syn_sent c st = handle_tcp_st_syn_sent_moves env ts seg c st
dispatch_moves env ts mbuf seg TcpState.syn_rcvd c st = syn_rcvd_packet_moves env ts mbuf seg c st
dispatch_moves env ts mbuf seg TcpState.established c st =
    OnSome-map (λ c'. Like c c' ⊎ ((seg.fin ≡ true) × ((c'.own).state ≡ TcpState.close_wait)))
      (Goes seg c TcpState.established) (dispatch env ts mbuf seg TcpState.established c)
      (λ c'. established_Goes seg c c' st) (handle_tcp_st_established_moves env ts mbuf seg c)
dispatch_moves env ts mbuf seg TcpState.fin_wait_1 c st =
    handle_tcp_st_fin_wait_1_moves env ts mbuf seg c st
dispatch_moves env ts mbuf seg TcpState.fin_wait_2 c st =
    handle_tcp_st_fin_wait_2_moves env ts mbuf seg c st
dispatch_moves env ts mbuf seg TcpState.close_wait c st =
    Likes-Goes seg c TcpState.close_wait (dispatch env ts mbuf seg TcpState.close_wait c) st
      (handle_tcp_st_close_wait_moves env ts seg c)
dispatch_moves env ts mbuf seg TcpState.closing c st = handle_tcp_st_closing_moves env ts seg c st
dispatch_moves env ts mbuf seg TcpState.last_ack c st = handle_tcp_st_last_ack_moves env ts seg c st
dispatch_moves env ts mbuf seg TcpState.time_wait c st =
    Like-Goes seg c (time_wait_again ts c) TcpState.time_wait st (time_wait_again-Like ts c)

-- What a reset does: a stream that is not handled is as it was.
Reset : Segment → Conn → Bool × Conn → Type 0
Reset seg c (true, c') = Goes seg c ((c.own).state) c'
Reset seg c (false, c') = c' ≡ c

syn_rcvd_of : (s : TcpState) → is_syn_rcvd s ≡ true → s ≡ TcpState.syn_rcvd
syn_rcvd_of s h = ground arith

-- Some state above SYN_SENT is none of the others.
resettable_of :
    (s : TcpState)
    → ltb (state_number s) 3 ≡ false
    → is_syn_rcvd s ≡ false
    → app_closed s ≡ false
    → resettable s ≡ true
resettable_of s h r a = ground arith

handle_rst_moves :
    (env : Env) (seg : Segment) (c : Conn)
    → seg.rst ≡ true
    → OnSome (Reset seg c) (handle_rst env seg c)
unfolding handle_rst Reset raise_close_event raise_read_event
handle_rst_moves env seg c r =
    let s = (c.own).state in
    let Q : Option (Bool × Conn) → Type 0 = OnSome (Reset seg c) in
    let c1 = set_own (record (c.own) { state = TcpState.close_wait; close_reason = 5 }) c in
    if-cases Q (ltb (state_number s) 3) (λ b. refl)
      λ b.
        if-cases Q (is_syn_rcvd s)
          (λ b1.
            if-cases Q (seg.ack_seq == (c.own).snd_nxt)
              (λ e.
                OnSome-bind (λ c'. (c'.own).state ≡ TcpState.closed) (Reset seg c)
                  (end_stream env 5 c) _ (end_stream_closed env 5 c)
                  λ c' d. arrives (leaves (open_reset r (ground arith)) (syn_rcvd_of s b1)) d)
              λ e. stay)
          λ b1.
            if-cases Q (app_closed s)
              (λ b2.
                OnSome-bind (λ c'. (c'.own).state ≡ TcpState.closed) (Reset seg c)
                  (end_stream env 1 c) _ (end_stream_closed env 1 c) λ c' e. arrives (abort r b2) e)
              λ b2.
                if-cases Q ((c.vars).on_closeq || (c.vars).on_resetq) (λ q. stay)
                  λ q.
                    arrives (reset r (resettable_of s b b1 b2))
                      (state_of (ident-raise_read_event env 1 c1))

-- From a stream with what identifies it, its `snd_nxt` and its state.
Goes-from :
    (seg : Segment) (c c1 c' : Conn)
    → Like c c1
    → (c1.own).snd_nxt ≡ (c.own).snd_nxt
    → Goes seg c1 ((c1.own).state) c'
    → Goes seg c ((c.own).state) c'
Goes-from seg c c1 c' k n m =
    leaves (subst₂ (λ i x. Move seg i x ((c1.own).state) ((c'.own).state)) k n m) (sym (state_of k))

dispatch_unless_moves :
    (env : Env) (ts : ℕ) (mbuf : Ptr) (seg : Segment) (c : Conn) (done : Bool) (c' : Conn)
    → Reset seg c (done, c')
    → OnSome
        (Goes seg c ((c.own).state))
        (if done then some c' else dispatch env ts mbuf seg (c'.own).state c')
unfolding Reset
dispatch_unless_moves env ts mbuf seg c true c' m = m
dispatch_unless_moves env ts mbuf seg c false c' e =
    subst (λ d. OnSome (Goes seg c ((c.own).state)) (dispatch env ts mbuf seg ((d.own).state) d))
      (sym e) (dispatch_moves env ts mbuf seg ((c.own).state) c refl)

process_valid_moves :
    (env : Env) (ts : ℕ) (mbuf : Ptr) (seg : Segment) (c : Conn)
    → OnSome (Goes seg c ((c.own).state)) (process_valid env ts mbuf seg c)
unfolding process_valid note_segment
process_valid_moves env ts mbuf seg c =
    let wnd = if seg.syn then seg.window else u32 (seg.window * 2 ^ (c.vars).wscale_peer) in
    let c0 = set_own (record (c.own) { peer_wnd = wnd }) c in
    let c1 = note_segment ts seg c in
    let k =
      core-with_timers (λ p t. (timeout_list_update p ts t).1) c0
        (core-timeout_list_update c.self ts) in
    let like =
      ident-with_timers (λ p t. (timeout_list_update p ts t).1) c0
        (core-timeout_list_update c.self ts) in
    let nxt : (c1.own).snd_nxt ≡ (c.own).snd_nxt = ap (λ v. v.snd_nxt) k in
    let c2 = set_vars (record (c1.vars) { have_reset = true }) c1 in
    let G = Goes seg c ((c.own).state) in
    let from1 : (o : Option Conn) → OnSome (Goes seg c1 ((c1.own).state)) o → OnSome G o =
      λ o. OnSome-map (Goes seg c1 ((c1.own).state)) G o (λ c'. Goes-from seg c c1 c' like nxt) in
    let from2 : (o : Option Conn) → OnSome (Goes seg c2 ((c2.own).state)) o → OnSome G o =
      λ o. OnSome-map (Goes seg c2 ((c2.own).state)) G o (λ c'. Goes-from seg c c2 c' like nxt) in
    if-cases (OnSome G) (not seg.rst)
      (λ b. from1 _ (dispatch_moves env ts mbuf seg ((c1.own).state) c1 refl))
      λ b.
        if-cases (OnSome G) (ltb 2 (state_number (c2.own).state))
          (λ b1.
            OnSome-bind (Reset seg c2) G (handle_rst env seg c2) _
              (handle_rst_moves env seg c2 (ground arith))
              λ (done, c3) m. from2 _ (dispatch_unless_moves env ts mbuf seg c2 done c3 m))
          λ b1. from2 _ (dispatch_moves env ts mbuf seg ((c2.own).state) c2 refl)

-- A segment that `process_tcp_packet` hands to a stream, in any state and whatever it says, changes
-- the state of the stream, if the process goes on, only along a move of `Move`, under the condition
-- that the move has there. So SYN_RCVD is left only by an acknowledgement of `iss + 1` or a reset
-- with the number `snd_nxt`; SYN_SENT becomes ESTABLISHED only by a SYN with an acknowledgement
-- above `iss` and up to `snd_nxt`; and the steps FIN_WAIT_1 to FIN_WAIT_2, CLOSING to TIME_WAIT and
-- LAST_ACK to CLOSED need an acknowledgement of the FIN that has been sent, the last one or a reset.
pub process_stream_moves :
    (env : Env) (ts : ℕ) (mbuf : Ptr) (seg : Segment) (c : Conn)
    → OnSome
        (λ r. Move seg (ident c) ((c.own).snd_nxt) ((c.own).state) (((r.1).own).state))
        (process_stream env ts mbuf seg c)
unfolding process_stream check_sequence_validation
process_stream_moves env ts mbuf seg c =
    let c1 = set_own (record (c.own) { last_active_ts = ts }) c in
    let Q : Ret × Conn → Type 0 =
      λ r. Move seg (ident c) ((c.own).snd_nxt) ((c.own).state) (((r.1).own).state) in
    let checked = check_sequence_validation ts seg c1 in
    if-cases (OnSome Q) (ltb 3 (state_number (c1.own).state) && not checked.0)
      (λ b.
        if-cases (λ (r : Bool × Conn). Q (failed, r.1)) (in_window seg c1) (λ w. stay)
          λ w. stays (state_of (ident-answer_invalid ts seg c1)))
      λ b.
        OnSome-bind (Goes seg c1 ((c1.own).state)) Q (process_valid env ts mbuf seg c1) _
          (process_valid_moves env ts mbuf seg c1) λ c' m. m
