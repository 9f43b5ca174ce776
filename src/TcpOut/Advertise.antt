-- ===== src/TcpOut/Advertise.antt =====
-- What one segment that is sent says, and what it does to its stream.
use qstack.Common.{
  ℕ, ◌+◌, ◌*◌, ◌/◌, ◌^◌, ◌≤◌, ◌<◌, ◌≡◌, refl, ◌∙◌, ap, true, ◌||◌, ◌==◌, ltb, if◌then◌else◌,
  if-cases, u32, sub32, Ptr, null, arith, ◌∷◌,
}
use native.Mathlib.Nat.{div-mul-le_self, mul-le-mul_right}
use qstack.Cirq.{Ret, success}
use qstack.Timer.{rto_list_add, timeout_list_update}
use qstack.TcpOptions.{calculate_option_length}
use qstack.TcpStream.Conn.{HostCall, Vars, Conn, Env, with_timers, set_own, set_vars, log}
use qstack.TcpStream.Keep.{
  Core, core, core-with_timers, core-timeout_list_update, core-rto_list_add,
}
use qstack.TcpOut.Queues.{is_success}
use qstack.TcpOut.Packet.{
  Flags, is_fin, window_field, seq_field, header, note_sent, taken, write_packet, emit,
  send_tcp_packet,
}

-- The window advertised, scaled back, is within the receive window.
window_le :
    (f : Flags) (v : Vars)
    → (window_field f v * 2 ^ (if f.syn then 0 else v.wscale_mine) ≤ v.rcv_wnd)
      × (window_field f v ≤ 65535)
window_le f v =
    let d = 2 ^ (if f.syn then 0 else v.wscale_mine) in
    let small : window_field f v ≤ v.rcv_wnd / d = omega arith in
    let whole = div-mul-le_self v.rcv_wnd d in
    let part = mul-le-mul_right d small in (omega arith, omega arith)

pub core-note_sent : (ts : ℕ) (f : Flags) (c : Conn) → core (note_sent ts f c).own ≡ core c.own
unfolding note_sent
core-note_sent ts f c =
    let c1 =
      set_vars
        (record (c.vars) {
          is_fin_sent = is_fin f || (c.vars).is_fin_sent;
          ts_lastack_sent = if f.ack then ts else (c.vars).ts_lastack_sent;
        })
        c in
    if-cases (λ (c' : Conn). core c'.own ≡ core c.own) f.ack
      (λ b.
        core-with_timers (λ p t. (timeout_list_update p ts t).1) c1
          (core-timeout_list_update c.self ts))
      λ b. refl

note_sent_calls :
    (ts : ℕ) (f : Flags) (c : Conn) → ((note_sent ts f c).host).host_calls ≡ (c.host).host_calls
unfolding note_sent
note_sent_calls ts f c =
    if-cases (λ (c' : Conn). (c'.host).host_calls ≡ (c.host).host_calls) f.ack (λ b. refl) λ b. refl

-- The numbers of TCP behind a segment that is sent, and the calls of the driver.
pub emit_rest :
    (ts : ℕ) (f : Flags) (mbuf : Ptr) (n : ℕ) (c : Conn)
    → let c' = emit ts f mbuf n c in
      (core c'.own ≡ record (core c.own) { snd_nxt = u32 ((c.own).snd_nxt + taken f n) })
      × ((c'.host).host_calls ≡ HostCall.io_send mbuf (header f n c) ∷ (c.host).host_calls)
unfolding emit
emit_rest ts f mbuf n c =
    let c0 = note_sent ts f c in
    let k = core-note_sent ts f c in
    let c1 = write_packet mbuf (seq_field f c) n c0 in
    let c2 = set_own (record (c1.own) { snd_nxt = u32 ((c1.own).snd_nxt + taken f n) }) c1 in
    let next : Core → Core = λ o. record o { snd_nxt = u32 (o.snd_nxt + taken f n) } in
    let P : Conn → Type 0 =
      λ c'. (core c'.own ≡ next (core c.own)) × ((c'.host).host_calls ≡ (c.host).host_calls) in
    let calls : (c2.host).host_calls ≡ (c.host).host_calls = note_sent_calls ts f c in
    let (o, h) : P
        (if taken f n == 0 then c2 else with_timers (λ p t. (rto_list_add p ts t).1) c2) =
      if-cases P (taken f n == 0) (λ b. (ap next k, calls))
        (λ b. (
          core-with_timers (λ p t. (rto_list_add p ts t).1) c2 (core-rto_list_add c0.self ts)
              ∙ ap next k,
          calls,
        )) in
    (o, ap (λ l. HostCall.io_send mbuf (header f n c) ∷ l) h)

-- The notes that a segment that is sent leaves in the variables of its stream.
abbrev pub noted : ℕ → Flags → Vars → Vars
noted ts f v = record v {
  is_fin_sent = is_fin f || v.is_fin_sent;
  ts_lastack_sent = if f.ack then ts else v.ts_lastack_sent;
}

-- The variables and the two buffers behind a segment that is sent.
abbrev Buffers : ℕ → Flags → Conn → Conn → Type 0
Buffers ts f c c' = (c'.vars ≡ noted ts f c.vars) × (c'.snd ≡ c.snd) × (c'.rcv ≡ c.rcv)

emit-Buffers :
    (ts : ℕ) (f : Flags) (mbuf : Ptr) (n : ℕ) (c : Conn) → Buffers ts f c (emit ts f mbuf n c)
unfolding emit note_sent
emit-Buffers ts f mbuf n c =
    let P : Conn → Type 0 = Buffers ts f c in
    let c0 = note_sent ts f c in
    let k : P c0 = if-cases P f.ack (λ b. (refl, refl, refl)) (λ b. (refl, refl, refl)) in
    if-cases (λ (c' : Conn). P (log (HostCall.io_send mbuf (header f n c)) c')) (taken f n == 0)
      (λ b. k) (λ b. k)

-- One segment has been given to the driver.
pub record IsSent (ts : ℕ) (f : Flags) (n : ℕ) (c : Conn) (c' : Conn) : Type 0 where
  pub packet : Ptr
  pub call : (c'.host).host_calls ≡ HostCall.io_send packet (header f n c) ∷ (c.host).host_calls
  pub tcp : core c'.own ≡ record (core c.own) { snd_nxt = u32 ((c.own).snd_nxt + taken f n) }
  pub vars : c'.vars ≡ noted ts f c.vars
  pub snd : c'.snd ≡ c.snd
  pub rcv : c'.rcv ≡ c.rcv

-- With SUCCESS one segment is sent, whose payload is at most the room for it.
pub send_tcp_packet-IsSent :
    (env : Env) (ts : ℕ) (f : Flags) (mbuf : Ptr) (n : ℕ) (c : Conn)
    → (send_tcp_packet env ts f mbuf n c).0 ≡ success
    → IsSent ts f n c (send_tcp_packet env ts f mbuf n c).1
      × (n ≤ sub32 (c.own).mss (calculate_option_length f.syn))
unfolding send_tcp_packet
send_tcp_packet-IsSent env ts f mbuf n c =
    let room = sub32 (c.own).mss (calculate_option_length f.syn) in
    let p = if mbuf == null then env.swmbuf else mbuf in
    let P : Ret × Conn → Type 0 = λ r. r.0 ≡ success → IsSent ts f n c r.1 × (n ≤ room) in
    let (k, o) = emit_rest ts f p n c in
    let (v, s, r) = emit-Buffers ts f p n c in
    if-cases P (ltb room n) (λ b e. absurd (ground arith))
      λ b.
        if-cases P (p == null) (λ b1 e. absurd (ground arith))
          λ b1.
            if-cases P (is_success env.generate_ip_packet)
              (λ b2 e. (
                record { packet = p; call = o; tcp = k; vars = v; snd = s; rcv = r },
                ground arith,
              ))
              λ b2 e.
                let g : is_success env.generate_ip_packet ≡ true = rw e refl in
                absurd (ground arith)

-- `send_tcp_packet` with SUCCESS, where the segment size has room for the options, gives the driver
-- one segment, with the header for the stream as it was. `snd_nxt` moves on by the payload and by one
-- for a SYN or a FIN, and the rest of `Core` stays: the state, the other numbers and the windows. Of
-- `Vars` a FIN is noted, and with ACK the time, and nothing else; the two buffers stay. The window that
-- the header advertises, scaled back, is within the receive window, and fits 16 bits; the payload and
-- the options together are at most the segment size.
pub send_tcp_packet_lem :
    (env : Env) (ts : ℕ) (f : Flags) (mbuf : Ptr) (n : ℕ) (c : Conn)
    → calculate_option_length f.syn ≤ (c.own).mss
    → (c.own).mss < 2 ^ 32
    → (send_tcp_packet env ts f mbuf n c).0 ≡ success
    → IsSent ts f n c (send_tcp_packet env ts f mbuf n c).1
      × ((header f n c).window * 2 ^ (if f.syn then 0 else (c.vars).wscale_mine) ≤ (c.vars).rcv_wnd)
      × ((header f n c).window ≤ 65535)
      × (n + calculate_option_length f.syn ≤ (c.own).mss)
send_tcp_packet_lem env ts f mbuf n c fits small e =
    let (k, room) = send_tcp_packet-IsSent env ts f mbuf n c e in
    (k, (window_le f c.vars).0, (window_le f c.vars).1, omega (arith, room))
