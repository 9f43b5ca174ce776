-- ===== src/RecvBuff.antt =====
-- qstack/src/tcp_recv_buff.c and include/tcp_recv_buff.h, compiled with PRIORITY_RECV_BUFF. An
-- update of `*buff` returns the new buffer; `none` outside a result is a call that ends the
-- process or destroys other memory, or a loop that has run out of fuel.
pub mod Get
pub mod Order
pub mod Put
pub mod Tests
pub mod Waiting
use qstack.Common.{
  ℕ, zero, suc, ◌+◌, ◌*◌, Bool, ◌&&◌, not, Option, none, some, ◌==◌, if◌then◌else◌, ◌>>=◌, u8, ◌^◌,
  ◌-◌, u32, Ptr, null,
}
use qstack.Cirq.{Cirq, Mem, Ret, success, failed, truthy, cirq_add}
use qstack.Seq.{seq_leq, seq_gt}
use qstack.Mbuf.{
  MbufState, Store, write, MbufList, set_state, mbuf_free, mbuf_list_init, mbuf_list_pop,
  mbuf_list_append, mbuf_list_insert,
}
use qstack.Mbuf.Queue.{mbufq_init, mbufq_enqueue}

-- `struct tcp_recv_buffer`.
pub record RecvBuff : Type 0 where
  pub merged_q : Cirq
  pub ooo_list : MbufList
  pub high_q : Cirq
  pub size : ℕ
  pub init_seq : ℕ
  pub head_seq : ℕ
  pub merged_next : ℕ

abbrev pub seq_end : Store → Ptr → ℕ
seq_end s p = u32 ((s.cell p).tcp_seq + (s.cell p).payload_len)

-- The segment `p` ends before the segment `r` starts.
abbrev pub before : Store → Ptr → Ptr → Bool
before s p r = seq_leq (seq_end s p) (s.cell r).tcp_seq

-- The status of `ooo_insert` is kept in a `uint8_t`: FAILED, which is -2, becomes 254 there.
abbrev pub inserted_ok : ℕ
inserted_ok = 1

abbrev pub inserted_failed : ℕ
inserted_failed = u8 (2 ^ 32 - 2)

-- The `while` loop of `ooo_insert`, on fuel.
ooo_loop : ℕ → MbufList → Ptr → Ptr → Store → Option (ℕ × MbufList × Store)
ooo_loop zero l p mbuf s = none
ooo_loop (suc fuel) l p mbuf s =
    let next = (s.cell p).buf_next in
    let rest = ooo_loop fuel l next mbuf s in
    let inserted = mbuf_list_insert l p mbuf s in
    if next == null
    then some (inserted_failed, l, s)
    else if before s p mbuf && before s mbuf next
    then some (inserted_ok, inserted.0, inserted.1)
    else rest

-- Before the first segment the source calls `mbuf_list_add_head(mbuf, list)`, its two arguments the
-- wrong way round: each is read as the other type and memory outside both is written, which has no
-- outcome here.
unfoldable pub ooo_insert : ℕ → MbufList → Ptr → Store → Option (ℕ × MbufList × Store)
unfolding ooo_loop
ooo_insert fuel l mbuf s =
    let at_tail = mbuf_list_append l mbuf s in
    let inside = ooo_loop fuel l l.head mbuf s in
    if l.head == null
    then some (inserted_ok, record { head = mbuf; tail = mbuf }, s)
    else if before s l.tail mbuf
    then some (inserted_ok, at_tail.0, at_tail.1)
    else if before s mbuf l.head
    then none
    else inside

-- The memory of the buffers, and of the arrays that a `queue` pointer names.
pub record Machine : Type 0 where
  pub store : Store
  pub mem : Mem

-- `try_merge_ooo`, on fuel: the number of buffers that the user may read, with the new state. It
-- calls `cirq_add`, not `mbufq_enqueue`; the branch on its failure is never taken.
unfoldable pub try_merge_ooo : ℕ → RecvBuff → Machine → Option (ℕ × RecvBuff × Machine)
try_merge_ooo zero b w = none
try_merge_ooo (suc fuel) b w =
    let p = b.ooo_list.head in
    let m = w.store.cell p in
    let (_, l, s) = mbuf_list_pop b.ooo_list w.store in
    let b1 = record b { ooo_list = l } in
    let (ret, q, mem) = cirq_add b.merged_q w.mem p in
    let stale = (do s' ← mbuf_free p s; try_merge_ooo fuel b1 (record w { store = s' })) in
    let full = (do s' ← mbuf_free p s; some (0, b1, record w { store = s' })) in
    let merged = (do
      (n, b', w') ←
          try_merge_ooo fuel
            (record b1 { merged_q = q; merged_next = u32 (b.merged_next + m.payload_len) })
            (record { store = s; mem = mem })
      some ((if m.priority == 0 then n + 1 else n), b', w')) in
    if not (p == null) && seq_leq m.tcp_seq b.merged_next
    then (if not (m.tcp_seq == b.merged_next) then stale else if truthy ret then merged else full)
    else some (0, b, w)

-- `rcvbuf_size` is the field of the configuration.
unfoldable pub rb_init : ℕ → RecvBuff → ℕ → RecvBuff
rb_init rcvbuf_size b init_seq = record {
  merged_q = (mbufq_init b.merged_q).1;
  ooo_list = mbuf_list_init;
  high_q = (mbufq_init b.high_q).1;
  size = 1400 * rcvbuf_size;
  init_seq = init_seq;
  head_seq = init_seq;
  merged_next = init_seq;
}

-- The mark of a packet that the high-priority queue has taken.
abbrev hold : Store → Ptr → Store
hold s p = write s p (record (s.cell p) { holding = 1; mbuf_state = MbufState.rbuffed })

-- The first part of `rb_put`: the high-priority queue.
unfoldable pub put_high : RecvBuff → Ptr → Store → RecvBuff × Store
put_high b p s =
    let s1 = write s p (record (s.cell p) { holding = 0 }) in
    let (ret, q) = mbufq_enqueue b.high_q p in
    if (s.cell p).priority == 0
    then (b, s1)
    else (record b { high_q = q }, elim ret [ success ↦ hold s1 p | _ ↦ s1 ])

-- The last part: a packet of low priority is marked once it has a place.
abbrev pub settle : Ptr → Store → Store
settle p s = if (s.cell p).priority == 0 then set_state s p MbufState.rbuffed else s

-- The second part: `some n` in the result for n buffers to read, `none` for FAILED.
unfoldable pub put_merged : ℕ → RecvBuff → Ptr → Machine → Option (Option ℕ × RecvBuff × Machine)
unfolding try_merge_ooo ooo_insert
put_merged fuel b p w =
    let m = w.store.cell p in
    let (ret, q) = mbufq_enqueue b.merged_q p in
    let merged = (do
      (n, b', w') ←
          try_merge_ooo fuel
            (record b { merged_q = q; merged_next = u32 (m.tcp_seq + m.payload_len) }) w
      some (some (1 + n), b', record w' { store = settle p (w'.store) })) in
    let waiting = (do
      (r, l, s') ← ooo_insert fuel b.ooo_list p (w.store)
      (if r == inserted_ok
          then some (some 0, record b { ooo_list = l }, record w { store = settle p s' })
          else some (none, record b { ooo_list = l }, record w { store = s' }))) in
    if m.tcp_seq == b.merged_next
    then (if truthy ret then merged else some (none, record b { merged_q = q }, w))
    else waiting

unfoldable pub rb_put : ℕ → RecvBuff → Ptr → Machine → Option (Option ℕ × RecvBuff × Machine)
rb_put fuel b p w =
    let (b1, s1) = put_high b p (w.store) in
    if seq_gt (seq_end (w.store) p) (u32 (b.head_seq + b.size))
    then some (none, b, w)
    else put_merged fuel b1 p (record w { store = s1 })
