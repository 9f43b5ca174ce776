-- ===== src/RecvBuff/Get.antt =====
-- The other half of qstack/src/tcp_recv_buff.c: what the application reads, and giving up a buffer.
pub mod Merged
use qstack.Common.{
  ℕ, zero, suc, ◌+◌, ◌-◌, Bool, true, false, ◌&&◌, not, Option, none, some, ◌==◌, if◌then◌else◌,
  ◌>>=◌, u32, sub32, Ptr, null,
}
use qstack.Cirq.{Cirq}
use qstack.Mbuf.{MbufState, Store, write, mbuf_free, mbuf_list_free}
use qstack.Mbuf.Queue.{mbufq_dequeue, mbufq_clear}
use qstack.RecvBuff.{RecvBuff}

-- `mbuf_state == MBUF_STATE_RBUFFED`.
abbrev pub unread : MbufState → Bool
unread MbufState.rbuffed = true
unread _ = false

-- A packet of the high-priority queue that is also the next of `merged_q` leaves both.
abbrev pub take_high : RecvBuff → Ptr → Store → RecvBuff × Store
take_high b p s =
    let (first, q) = mbufq_dequeue b.merged_q in
    let m = s.cell p in
    let b1 = record b { merged_q = q } in
    if not (m.tcp_seq == b.head_seq) then (b, s) else if first == null then (b1, s) else (
      record b1 { head_seq = u32 (b.head_seq + m.payload_len) },
      write s p (record m { holding = 0 }),
    )

-- The loop of `try_get_high_mbuf`, on fuel: the packet, or NULL.
unfoldable pub try_get_high : ℕ → RecvBuff → Store → Option (Ptr × RecvBuff × Store)
try_get_high zero b s = none
try_get_high (suc fuel) b s =
    let (p, q) = mbufq_dequeue b.high_q in
    let b1 = record b { high_q = q } in
    let taken = take_high b1 p s in
    let rest = (do s' ← mbuf_free p s; try_get_high fuel b1 s') in
    if p == null
    then some (null, b1, s)
    else if unread (s.cell p).mbuf_state
    then some (p, taken.0, taken.1)
    else rest

-- That of `try_get_merged_mbuf`.
unfoldable pub try_get_merged : ℕ → RecvBuff → Store → Option (Ptr × RecvBuff × Store)
try_get_merged zero b s = none
try_get_merged (suc fuel) b s =
    let (p, q) = mbufq_dequeue b.merged_q in
    let b1 = record b { merged_q = q } in
    let b2 = record b1 { head_seq = u32 (b.head_seq + (s.cell p).payload_len) } in
    let rest = (do s' ← mbuf_free p s; try_get_merged fuel b2 s') in
    if p == null
    then some (null, b1, s)
    else if unread (s.cell p).mbuf_state
    then some (p, b2, s)
    else rest

-- `mbuf_get_payload_ptr` gives NULL for a packet without a length of its TCP header, and the
-- process ends. A queue holds fewer packets than its size.
unfoldable pub rb_get : RecvBuff → Store → Option (Ptr × RecvBuff × Store)
rb_get b s = do
  (h, b1, s1) ← try_get_high (suc b.high_q.size) b s
  let merged = try_get_merged (suc b.merged_q.size) b1 s1
  (p, b2, s2) ← (if h == null then merged else some (h, b1, s1))
  if not (p == null) && ((s2.cell p).l4_len == 0) then none else some (p, b2, s2)

unfoldable pub rb_clear : ℕ → RecvBuff → Store → Option (RecvBuff × Store)
rb_clear fuel b s = do
  (q1, s1) ← mbufq_clear b.merged_q s
  (l, s2) ← mbuf_list_free fuel b.ooo_list s1
  (q2, s3) ← mbufq_clear b.high_q s2
  some (record b { merged_q = q1; ooo_list = l; high_q = q2 }, s3)

unfoldable pub rb_merged_len : RecvBuff → ℕ
rb_merged_len b = sub32 b.merged_next b.head_seq

unfoldable pub rb_update_seq : RecvBuff → ℕ → RecvBuff
rb_update_seq b init_seq = record b {
  init_seq = init_seq;
  head_seq = init_seq;
  merged_next = init_seq;
}
