-- ===== src/SendBuff.antt =====
-- qstack/src/tcp_send_buff.c and include/tcp_send_buff.h. An update of `*buff` returns the new
-- buffer; `none` is a call that ends the process, or a loop that has run out of fuel.
pub mod Acked
pub mod Put
pub mod Resend
pub mod Tests
use qstack.Common.{
  ℕ, zero, suc, ◌+◌, ◌*◌, ◌%◌, ◌^◌, Bool, true, false, ◌&&◌, not, Option, none, some, ◌==◌, ltb,
  if◌then◌else◌, ◌>>=◌, min, u32, sub32, Ptr, null,
}
use qstack.Cirq.{Cirq, Ret, success, failed, error}
use qstack.Seq.{seq_leq}
use qstack.Mbuf.{
  MbufState, Mbuf, Store, write, MbufList, set_state, mbuf_free, mbuf_list_init, mbuf_list_pop,
  mbuf_list_free,
}
use qstack.Mbuf.Queue.{mbufq_init, mbufq_enqueue, mbufq_clear}

-- `struct tcp_send_buffer`.
pub record SendBuff : Type 0 where
  pub usnd_q : Cirq
  pub husnd_q : Cirq
  pub uack_list : MbufList
  pub retrans_list : MbufList
  pub size : ℕ
  pub head_seq : ℕ
  pub next_seq : ℕ

-- `sndbuf_size` is the field of the configuration.
unfoldable pub sb_init : ℕ → SendBuff → ℕ → SendBuff
sb_init sndbuf_size b init_seq = record {
  usnd_q = (mbufq_init b.usnd_q).1;
  husnd_q = (mbufq_init b.husnd_q).1;
  uack_list = mbuf_list_init;
  retrans_list = mbuf_list_init;
  size = 1400 * sndbuf_size;
  head_seq = init_seq;
  next_seq = init_seq;
}

unfoldable pub sb_len : SendBuff → ℕ
sb_len b = sub32 b.next_seq b.head_seq

-- `fuel` bounds the two lists. `husnd_q` is not cleared.
unfoldable pub sb_free : ℕ → SendBuff → Store → Option (Ret × SendBuff × Store)
sb_free fuel b s = do
  (q, s1) ← mbufq_clear b.usnd_q s
  (l1, s2) ← mbuf_list_free fuel b.uack_list s1
  (l2, s3) ← mbuf_list_free fuel b.retrans_list s2
  some (success, record b { usnd_q = q; uack_list = l1; retrans_list = l2 }, s3)

-- `min len (size - sb_len)`, on uint32_t.
abbrev pub to_put : SendBuff → ℕ → ℕ
to_put b len = let room = sub32 b.size (sb_len b) in if ltb len room then len else room

-- What `sb_put` returns for the status of the queue: a number of bytes, or `none` for FAILED.
abbrev pub put_status : ℕ → Ret → Option ℕ
put_status n success = some n
put_status n failed = none
put_status n error = none

-- The number of bytes put, or `none` for FAILED. A full queue is found only behind the update of
-- `next_seq` and of the mbuf.
unfoldable pub sb_put : SendBuff → Ptr → Store → Option ℕ × SendBuff × Store
sb_put b p s =
    let m = s.cell p in
    let n = to_put b m.payload_len in
    let s' =
      write s p
        (record m { payload_len = n; tcp_seq = b.next_seq; mbuf_state = MbufState.tbuffed }) in
    let b' = record b { next_seq = u32 (b.next_seq + n) } in
    let low = mbufq_enqueue b.usnd_q p in
    let high = mbufq_enqueue b.husnd_q p in
    if n == 0
    then (none, b, s)
    else if m.priority == 0
    then (put_status n low.0, record b' { usnd_q = low.1 }, s')
    else (put_status n high.0, record b' { husnd_q = high.1 }, s')

-- The loop of `sb_reset_retrans`, on fuel.
unfoldable pub loss_loop : ℕ → Ptr → Store → Option Store
loss_loop zero p s = none
loss_loop (suc fuel) p s =
    let s' = set_state s p MbufState.loss in
    let rest = loss_loop fuel (s'.cell p).buf_next s' in if p == null then some s else rest

-- The last path returns no value in the source; the callers use none.
unfoldable pub sb_reset_retrans : ℕ → SendBuff → Store → Option (Option Ret × SendBuff × Store)
unfolding loss_loop
sb_reset_retrans fuel b s =
    let moved = record b { retrans_list = b.uack_list; uack_list = mbuf_list_init } in
    let marked = (do s' ← loss_loop fuel b.uack_list.head s; some (none, moved, s')) in
    if b.uack_list.head == null
    then some (some failed, b, s)
    else if not (b.retrans_list.head == null)
    then some (some error, b, s)
    else marked

-- One of the two loops of `sb_remove_acked`, on fuel: the list, `head_seq` and the mbufs behind it.
acked_loop : ℕ → ℕ → MbufList → ℕ → Store → Option (MbufList × ℕ × Store)
acked_loop zero ack_seq l head_seq s = none
acked_loop (suc fuel) ack_seq l head_seq s =
    let p = l.head in
    let m = s.cell p in
    let (_, l', s') = mbuf_list_pop l s in
    let rest = (do
      s'' ← mbuf_free p s'
      acked_loop fuel ack_seq l' (u32 (head_seq + m.payload_len)) s'') in
    if not (p == null) && seq_leq (u32 (m.tcp_seq + m.payload_len)) ack_seq
    then rest
    else some (l, head_seq, s)

unfoldable pub sb_remove_acked : ℕ → SendBuff → ℕ → Store → Option (Ret × SendBuff × Store)
unfolding acked_loop
sb_remove_acked fuel b ack_seq s = do
  (l1, h1, s1) ← acked_loop fuel ack_seq b.uack_list b.head_seq s
  (l2, h2, s2) ← acked_loop fuel ack_seq b.retrans_list h1 s1
  some (success, record b { uack_list = l1; retrans_list = l2; head_seq = h2 }, s2)
