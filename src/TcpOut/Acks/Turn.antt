-- ===== src/TcpOut/Acks/Turn.antt =====
-- A stream's turn of `write_tcp_ack_queue`.
use qstack.Common.{
  ℕ, zero, suc, ◌+◌, ◌≡◌, ◌≢◌, refl, sym, ◌∙◌, ap, subst, true, false, not, ◌==◌, ltb,
  if◌then◌else◌, if-cases, null, arith, [], ◌∷◌, sub32,
}
use qstack.Cirq.{Ret, success}
use qstack.TcpOptions.{calculate_option_length}
use qstack.TcpStream.Conn.{HostCall, Conn, Env, set_vars}
use qstack.TcpOut.Queues.{is_success}
use qstack.TcpOut.Advertise.{emit_rest}
use qstack.TcpOut.Packet.{
  Flags, header, emit, send_tcp_packet, ack_flags, may_ack, ack_loop, wack_turn, end_wait, ack_turn,
}
use qstack.TcpOut.Acks.{
  Acknowledged, Acknowledged-refl, Acknowledged-trans, emit-SameCounts, end_wait-Waits, Told,
}

module _ (env : Env) (ts : ℕ) (buffer : env.swmbuf ≢ null)
    (headed : env.generate_ip_packet ≡ success) where
  -- An acknowledgement that nothing prevents is sent.
  send_ack :
      (f : Flags) (c : Conn)
      → f.ack ≡ true
      → let r = send_tcp_packet env ts f null 0 c in (is_success r.0 ≡ true) × Told 1 c r.1
  unfolding send_tcp_packet
  send_ack f c a =
      let P : Ret × Conn → Type 0 = λ r. (is_success r.0 ≡ true) × Told 1 c r.1 in
      let some_buffer : (env.swmbuf == null) ≡ false = ground arith in
      let no_room : ltb (sub32 (c.own).mss (calculate_option_length f.syn)) 0 ≡ false =
        ground arith in
      let ran : send_tcp_packet env ts f null 0 c ≡ (success, emit ts f env.swmbuf 0 c) =
        rw (no_room, some_buffer, headed) refl in
      let (k, o) = emit_rest ts f env.swmbuf 0 c in
      let same = emit-SameCounts ts f env.swmbuf 0 c in
      subst P (sym ran) (
        refl,
        record {
          told = record {
            sent = HostCall.io_send env.swmbuf (header f 0 c) ∷ [];
            grown = o;
            count = refl;
            acks = ((a, rw a refl, refl), tt);
            rcv_nxt = same.3;
          };
          same = same;
        },
      )

  -- The loop sends all that are counted.
  ack_loop_lem :
      (n : ℕ) (c : Conn)
      → (c.vars).ack_cnt ≡ n
      → let r = ack_loop env ts n c in
        (r.0 ≡ n)
        × Acknowledged n c r.1
        × (((r.1).vars).ack_cnt ≡ 0)
        × (((r.1).vars).is_wack ≡ (c.vars).is_wack)
        × (((r.1).vars).on_ack_queue ≡ (c.vars).on_ack_queue)
  unfolding ack_loop
  ack_loop_lem zero c e = (refl, Acknowledged-refl c, e, refl, refl)
  ack_loop_lem (suc n) c e =
      let (ok, k) = send_ack ack_flags c refl in
      let c1 = (send_tcp_packet env ts ack_flags null 0 c).1 in
      let c2 = set_vars (record (c1.vars) { ack_cnt = n }) c1 in
      let (m, l, z, w, q) = ack_loop_lem n c2 refl in
      let P : ℕ × Conn → Type 0 = λ r.
        (r.0 ≡ suc n)
        × Acknowledged (suc n) c r.1
        × (((r.1).vars).ack_cnt ≡ 0)
        × (((r.1).vars).is_wack ≡ (c.vars).is_wack)
        × (((r.1).vars).on_ack_queue ≡ (c.vars).on_ack_queue) in
      let rest = ack_loop env ts n c2 in
      let ran : ack_loop env ts (suc n) c ≡ (suc rest.0, rest.1) = rw ok refl in
      let l1 : Acknowledged n c1 rest.1 = record {
        sent = l.sent;
        grown = l.grown;
        count = l.count;
        acks = l.acks;
        rcv_nxt = l.rcv_nxt;
      } in
      subst P (sym ran) (
        ap suc m,
        subst (λ i. Acknowledged i c rest.1) (omega arith)
            (Acknowledged-trans 1 n c c1 rest.1 k.told l1),
        z,
        w ∙ k.same.1,
        q ∙ k.same.2,
      )

  -- So does the one that asks for a window.
  wack_turn_lem :
      (c : Conn)
      → let r = wack_turn env ts c in
        (r.0 ≡ (if (c.vars).is_wack then 1 else 0))
        × Acknowledged r.0 c r.1
        × (((r.1).vars).ack_cnt ≡ (c.vars).ack_cnt)
        × (((r.1).vars).is_wack ≡ false)
        × (((r.1).vars).on_ack_queue ≡ (c.vars).on_ack_queue)
  unfolding wack_turn
  wack_turn_lem c =
      let f = record ack_flags { wack = true } in
      let c0 = set_vars (record (c.vars) { is_wack = false }) c in
      let (ok, k) = send_ack f c0 refl in
      let c1 = (send_tcp_packet env ts f null 0 c0).1 in
      let P : ℕ × Conn → Type 0 = λ r.
        (r.0 ≡ (if (c.vars).is_wack then 1 else 0))
        × Acknowledged r.0 c r.1
        × (((r.1).vars).ack_cnt ≡ (c.vars).ack_cnt)
        × (((r.1).vars).is_wack ≡ false)
        × (((r.1).vars).on_ack_queue ≡ (c.vars).on_ack_queue) in
      let l : Acknowledged 1 c c1 = record {
        sent = k.told.sent;
        grown = k.told.grown;
        count = k.told.count;
        acks = k.told.acks;
        rcv_nxt = k.told.rcv_nxt;
      } in
      if-cases P (not (c.vars).is_wack)
        (λ b.
          let off : (c.vars).is_wack ≡ false = ground arith in
          (rw off refl, Acknowledged-refl c, refl, off, refl))
        λ b.
          let on : (c.vars).is_wack ≡ true = ground arith in
          if-cases P (is_success (send_tcp_packet env ts f null 0 c0).0)
            (λ b1. (rw on refl, l, k.same.0, k.same.1, k.same.2)) λ b1. absurd (ground arith)

  -- Where a packet buffer can be had and the IP header written, the turn of a stream on the queue, in
  -- a state that acknowledges, sends as many acknowledgements as are counted for it, and one more if it
  -- is to ask for a window, each of all that has been received in order; then none is counted, none is
  -- asked for, and the stream is off the queue.
  pub ack_turn_lem :
      (c : Conn)
      → (c.vars).on_ack_queue ≡ true
      → may_ack (c.own).state ≡ true
      → let n = (c.vars).ack_cnt + (if (c.vars).is_wack then 1 else 0) in
        let r = ack_turn env ts c in
        (r.0 ≡ n)
        × Acknowledged n c r.1
        × (((r.1).vars).ack_cnt ≡ 0)
        × (((r.1).vars).is_wack ≡ false)
        × (((r.1).vars).on_ack_queue ≡ false)
  unfolding ack_turn
  ack_turn_lem c on may =
      let off = set_vars (record (c.vars) { on_ack_queue = false }) c in
      let n = (c.vars).ack_cnt in
      let w = if (c.vars).is_wack then 1 else 0 in
      let (i, c1) = ack_loop env ts n off in
      let (m, k, z, wk, q) = ack_loop_lem n off refl in
      let (j, c2) = wack_turn env ts c1 in
      let (m', k', z', wk', q') = wack_turn_lem c1 in
      let waits = not (c2.vars).on_send_queue in
      let c3 = end_wait waits c2 in
      let (same, quiet) = end_wait-Waits waits c2 in
      let sum : i + j ≡ n + w =
        ap (λ x. x + j) m ∙ ap (λ x. n + x) (m' ∙ ap (λ b. if b then 1 else 0) wk) in
      let all = Acknowledged-trans n j off c1 c2 k k' in
      let P : ℕ × Conn → Type 0 = λ r.
        (r.0 ≡ n + w)
        × Acknowledged (n + w) c r.1
        × (((r.1).vars).ack_cnt ≡ 0)
        × (((r.1).vars).is_wack ≡ false)
        × (((r.1).vars).on_ack_queue ≡ false) in
      let ran : ack_turn env ts c ≡ (i + j, c3) = rw (on, may) refl in
      subst P (sym ran) (
        sum,
        record {
          sent = all.sent;
          grown = quiet ∙ all.grown;
          count = all.count ∙ ap (λ x. x + j) (sym m) ∙ sum;
          acks = all.acks;
          rcv_nxt = same.3 ∙ all.rcv_nxt;
        },
        same.0 ∙ z' ∙ z,
        same.1 ∙ wk',
        same.2 ∙ q' ∙ q,
      )
