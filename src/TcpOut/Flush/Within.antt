-- ===== src/TcpOut/Flush/Within.antt =====
-- `flush_tcp_sending_buffer` sends nothing beyond the window.
use qstack.Common.{
  ℕ, zero, suc, ◌+◌, ◌*◌, ◌/◌, ◌≡◌, refl, sym, ◌∙◌, ap, subst, true, false, ◌&&◌, not, ◌==◌, ltb,
  if◌then◌else◌, if-cases, u32, sub32, Ptr, null, Option, none, some, ◌>>=◌, OnSome, OnSome-then,
  arith, List, [], ◌∷◌, ◌++◌, length, length-append, append_assoc, not-true,
}
use qstack.Cirq.{Ret, success}
use qstack.Seq.{seq_lt, seq_gt}
use qstack.Mbuf.{mbuf_free}
use qstack.Mbuf.Queue.{mbufq_dequeue}
use qstack.Mbuf.{mbuf_list_pop}
use qstack.SendBuff.{sb_len}
use qstack.TcpStream.Conn.{Header, HostCall, Conn, Env}
use qstack.TcpOut.Queues.{AckOpt, is_success, ack_queue_add, enqueue_ack}
use qstack.TcpOut.Packet.{ack_flags, header, send_tcp_packet}
use qstack.TcpOut.Advertise.{IsSent, send_tcp_packet-IsSent}
use qstack.TcpOut.Flush.{
  set_store, send_event_add, next_packet, out_of_window, await_ack, window_of, fits_window,
  flush_loop, flush_tcp_sending_buffer,
}

abbrev calls : Conn → List HostCall
calls c = (c.host).host_calls

-- The stream's own fields and the calls made.
abbrev Rest : Conn → Conn → Type 0
Rest c c' = (c'.own ≡ c.own) × (calls c' ≡ calls c)

next_packet-Rest : (c : Conn) → Rest c (next_packet c).1
unfolding next_packet
next_packet-Rest c =
    let b = c.snd in
    let p = (mbuf_list_pop b.retrans_list (((c.host).machine).store)).0 in
    if-cases {A = Ptr × Conn} (λ r. Rest c r.1) (not (p == null)) (λ e. (refl, refl))
      λ e.
        if-cases {A = Ptr × Conn} (λ r. Rest c r.1) (not ((mbufq_dequeue b.husnd_q).0 == null))
          (λ e1. (refl, refl)) λ e1. (refl, refl)

enqueue_wack-Rest : (c : Conn) → Rest c (enqueue_ack AckOpt.wack c).1
unfolding enqueue_ack ack_queue_add
enqueue_wack-Rest c =
    if-cases {A = Ret × Conn} (λ r. Rest c r.1)
      (not ((c.vars).ack_cnt == 0) && not (c.vars).on_ack_queue) (λ b. (refl, refl))
      λ b. (refl, refl)

send_event_add-Rest : (core_id pri : ℕ) (c : Conn) → Rest c (send_event_add core_id pri c).1
unfolding send_event_add
send_event_add-Rest core_id pri c =
    if-cases {A = Ret × Conn} (λ r. Rest c r.1) (pri == 0) (λ b. (refl, refl)) λ b. (refl, refl)

out_of_window-Rest :
    (env : Env) (ts : ℕ) (mbuf : Ptr) (c : Conn) → Rest c (out_of_window env ts mbuf c)
unfolding out_of_window
out_of_window-Rest env ts mbuf c =
    let m = (((c.host).machine).store).cell mbuf in
    let ahead = u32 (sub32 (c.own).snd_nxt (c.own).snd_una + m.payload_len) in
    let waited = u32 (sub32 ts (c.vars).ts_lastack_sent * 1000) / 1000 in
    let asks = ltb (c.own).peer_wnd ahead && ltb 500 waited in
    let asked = if asks then (enqueue_ack AckOpt.wack c).1 else c in
    let k : Rest c asked = if-cases (Rest c) asks (λ b. enqueue_wack-Rest c) (λ b. (refl, refl)) in
    let e = send_event_add-Rest env.stack_id m.priority asked in (e.0 ∙ k.0, e.1 ∙ k.1)

-- A segment ends within `window` of `una`.
abbrev pub IsWithin : ℕ → ℕ → HostCall → Type 0
IsWithin una window (HostCall.io_send p h) =
    seq_gt (u32 (h.seq + h.payloadlen)) (u32 (una + window)) ≡ false
IsWithin una window _ = Unit

abbrev pub AllWithin : ℕ → ℕ → List HostCall → Type 0
AllWithin una window [] = Unit
AllWithin una window (k ∷ ks) = IsWithin una window k × AllWithin una window ks

AllWithin-append :
    (una window : ℕ) (ks ls : List HostCall)
    → AllWithin una window ks
    → AllWithin una window ls
    → AllWithin una window (ks ++ ls)
AllWithin-append una window [] ls a b = b
AllWithin-append una window (k ∷ ks) ls (h, a) b = (h, AllWithin-append una window ks ls a b)

-- The `n` calls made between two streams are segments within the window of the first.
pub record Sends (una window : ℕ) (c : Conn) (n : ℕ) (c' : Conn) : Type 0 where
  pub sent : List HostCall
  pub grown : calls c' ≡ sent ++ calls c
  pub count : length sent ≡ n
  pub within : AllWithin una window sent
  pub snd_una : (c'.own).snd_una ≡ (c.own).snd_una

Sends-none : {una window : ℕ} (c c' : Conn) → Rest c c' → Sends una window c 0 c'
Sends-none c c' k = record {
  sent = [];
  grown = k.1;
  count = refl;
  within = tt;
  snd_una = ap (λ v. v.snd_una) k.0;
}

-- One segment in front of others.
Sends-cons :
    (una window n : ℕ) (p : Ptr) (h : Header) (c c1 c' : Conn)
    → calls c1 ≡ HostCall.io_send p h ∷ calls c
    → (c1.own).snd_una ≡ (c.own).snd_una
    → IsWithin una window (HostCall.io_send p h)
    → Sends una window c1 n c'
    → Sends una window c (suc n) c'
Sends-cons una window n p h c c1 c' e same w k =
    let one = HostCall.io_send p h ∷ [] in
    record {
      sent = k.sent ++ one;
      grown = k.grown ∙ ap (λ l. k.sent ++ l) e ∙ sym (append_assoc k.sent one (calls c));
      count = length-append k.sent one ∙ ap (λ i. i + 1) k.count ∙ omega arith;
      within = AllWithin-append una window k.sent one k.within (w, tt);
      snd_una = k.snd_una ∙ same;
    }

Sends-Rest :
    (una window n : ℕ) (c c1 c' : Conn)
    → Rest c c1
    → Sends una window c1 n c'
    → Sends una window c n c'
Sends-Rest una window n c c1 c' r k = record {
  sent = k.sent;
  grown = k.grown ∙ ap (λ l. k.sent ++ l) r.1;
  count = k.count;
  within = k.within;
  snd_una = k.snd_una ∙ ap (λ v. v.snd_una) r.0;
}

abbrev Loop : Env → ℕ → Conn → Option (ℕ × Conn) → Type 0
Loop env window c = OnSome (λ r. Sends ((c.own).snd_una) window c r.0 r.1)

-- The rest of the loop behind a packet of length 0, and behind one that is sent.
skip_Loop :
    (env : Env) (window : ℕ) (c c1 : Conn) (o : Option (ℕ × Conn))
    → Rest c c1
    → Loop env window c1 o
    → Loop env window c o
skip_Loop env window c c1 none k h = tt
skip_Loop env window c c1 (some (n, c')) k h =
    subst (λ una. Sends una window c n c') (ap (λ v. v.snd_una) k.0)
      (Sends-Rest ((c1.own).snd_una) window n c c1 c' k h)

send_Loop :
    (env : Env) (ts window n : ℕ) (c c1 c2 : Conn) (o : Option (ℕ × Conn))
    → Rest c c1
    → IsSent ts ack_flags n c1 c2
    → fits_window window n c1 ≡ true
    → Loop env window c2 o
    → Loop env window c (o >>= λ (m, c'). some (suc m, c'))
send_Loop env ts window n c c1 c2 none k s w h = tt
send_Loop env ts window n c c1 c2 (some (m, c')) k s w h =
    let una = (c1.own).snd_una in
    let same : (c2.own).snd_una ≡ una = ap (λ o. o.snd_una) s.tcp in
    skip_Loop env window c c1 (some (suc m, c')) k (
      Sends-cons una window m s.packet (header ack_flags n c1) c1 c2 c' s.call same (not-true w)
        (subst (λ u. Sends u window c2 m c') same h))

success_of : (r : Ret) → is_success r ≡ true → r ≡ success
success_of r h = ground arith

flush_loop_within :
    (fuel : ℕ) (env : Env) (ts window : ℕ) (c : Conn)
    → Loop env window c (flush_loop fuel env ts window c)
unfolding flush_loop await_ack
flush_loop_within zero env ts window c = tt
flush_loop_within (suc fuel) env ts window c =
    let una = (c.own).snd_una in
    let (mbuf, c1) = next_packet c in
    let k1 = next_packet-Rest c in
    let store = ((c1.host).machine).store in
    let len = (store.cell mbuf).payload_len in
    let c2 = (send_tcp_packet env ts ack_flags mbuf len c1).1 in
    let Q : Option (ℕ × Conn) → Type 0 = Loop env window c in
    if-cases Q (seq_lt (c.own).snd_nxt (c.snd).head_seq) (λ b. Sends-none c c (refl, refl))
      λ b.
        if-cases Q (mbuf == null) (λ b1. Sends-none c c1 k1)
          λ b1.
            if-cases Q (len == 0)
              (λ b2.
                OnSome-then (λ r. Sends una window c r.0 r.1) (mbuf_free mbuf store) _
                  λ s.
                    skip_Loop env window c (set_store s c1)
                      (flush_loop fuel env ts window (set_store s c1)) k1
                      (flush_loop_within fuel env ts window (set_store s c1)))
              λ b2.
                if-cases Q (not (fits_window window len c1))
                  (λ b3.
                    let k2 = out_of_window-Rest env ts mbuf c1 in
                    Sends-none c (out_of_window env ts mbuf c1) (k2.0 ∙ k1.0, k2.1 ∙ k1.1))
                  λ b3.
                    if-cases Q (is_success (send_tcp_packet env ts ack_flags mbuf len c1).0)
                      (λ b4.
                        let s =
                          (send_tcp_packet-IsSent env ts ack_flags mbuf len c1
                            (success_of _ b4)).0 in
                        send_Loop env ts window len c c1 c2
                          (flush_loop fuel env ts window (await_ack mbuf c2)) k1 s (ground arith)
                          (skip_Loop env window c2 (await_ack mbuf c2)
                            (flush_loop fuel env ts window (await_ack mbuf c2)) (refl, refl)
                            (flush_loop_within fuel env ts window (await_ack mbuf c2))))
                      λ b4. tt

-- What `flush_tcp_sending_buffer` gives the driver, if the process goes on, are as many segments as
-- it returns, and each of them ends within `window_of` of the first byte not acknowledged: the
-- smaller of the congestion window and the peer's window, but 1500 bytes where that smaller one is
-- below 1500.
pub flush_tcp_sending_buffer_within :
    (env : Env) (ts : ℕ) (c : Conn)
    → OnSome
        (λ r. Sends ((c.own).snd_una) (window_of c) c r.0 r.1)
        (flush_tcp_sending_buffer env ts c)
unfolding flush_tcp_sending_buffer
flush_tcp_sending_buffer_within env ts c =
    let Q : Option (ℕ × Conn) → Type 0 = Loop env (window_of c) c in
    if-cases Q ((c.vars).is_fin_sent) (λ b. Sends-none c c (refl, refl))
      λ b.
        if-cases Q (sb_len c.snd == 0) (λ b1. Sends-none c c (refl, refl))
          λ b1. flush_loop_within env.fuel env ts (window_of c) c
