-- ===== src/RecvBuff/Put.antt =====
-- What `rb_put` does with the segment that the merged queue waits for.
use qstack.Common.{
  ℕ, suc, ◌+◌, ◌-◌, ◌≡◌, refl, ap, ◌∙◌, true, false, some, List, ◌==◌, u32, arith, Ptr, null,
}
use qstack.Cirq.{Ret, success, failed, error, truthy, dir_cirq_add}
use qstack.Cirq.Fifo
use qstack.Cirq.Fifo.{IsBacked, dir_contents}
use qstack.Cirq.Refine.{dir_cirq_add_refines}
use qstack.Mbuf.{MbufState, Store, write, set_state}
use qstack.Mbuf.Queue.{mbufq_enqueue}
use qstack.Seq.{seq_gt}
use qstack.RecvBuff.{
  RecvBuff, Machine, seq_end, try_merge_ooo, settle, put_high, put_merged, rb_put,
}

always_truthy : (r : Ret) → truthy r ≡ true
always_truthy success = refl
always_truthy failed = refl
always_truthy error = refl

nothing_waits :
    (fuel : ℕ) (b : RecvBuff) (w : Machine)
    → b.ooo_list.head ≡ null
    → try_merge_ooo (suc fuel) b w ≡ some (0, b, w)
unfolding try_merge_ooo
nothing_waits fuel b w e = rw e refl

-- The merged queue with the segment behind it, and the number after the segment.
abbrev pub merged : RecvBuff → Store → Ptr → RecvBuff
merged b s p = record b { merged_q = (dir_cirq_add b.merged_q p).1; merged_next = seq_end s p }

abbrev unheld : Store → Ptr → Store
unheld s p = write s p (record (s.cell p) { holding = 0 })

put_merged_in_order :
    (fuel : ℕ) (b : RecvBuff) (p : Ptr) (w : Machine)
    → (w.store.cell p).tcp_seq ≡ b.merged_next
    → b.ooo_list.head ≡ null
    → put_merged (suc fuel) b p w
      ≡ some (some 1, merged b (w.store) p, record w { store = settle p (w.store) })
unfolding put_merged mbufq_enqueue
put_merged_in_order fuel b p w e empty =
    let here : ((w.store.cell p).tcp_seq == b.merged_next) ≡ true = ground arith in
    let r = always_truthy (dir_cirq_add b.merged_q p).0 in
    let none_ = nothing_waits fuel (merged b (w.store) p) w empty in rw (here, r, none_) refl

put_high_low :
    (b : RecvBuff) (p : Ptr) (s : Store)
    → ((s.cell p).priority == 0) ≡ true
    → put_high b p s ≡ (b, unheld s p)
unfolding put_high
put_high_low b p s low = rw low refl

rb_put_inside :
    (fuel : ℕ) (b : RecvBuff) (p : Ptr) (w : Machine) (s1 : Store)
    → put_high b p (w.store) ≡ (b, s1)
    → seq_gt (seq_end (w.store) p) (u32 (b.head_seq + b.size)) ≡ false
    → rb_put fuel b p w ≡ put_merged fuel b p (record w { store = s1 })
unfolding rb_put
rb_put_inside fuel b p w s1 high inside = rw (high, inside) refl

-- A low-priority segment that starts at `merged_next` and ends within the window, with a valid
-- merged queue over its words and no segment waiting: `rb_put`, on any fuel above 0, returns 1,
-- moves `merged_next` behind the segment, leaves `head_seq`, and marks the segment as buffered,
-- whether or not the queue has room; the queue holds what a push of the bounded queue leaves,
-- which is without the segment if it is full.
pub rb_put_in_order :
    (fuel : ℕ) (b : RecvBuff) (p : Ptr) (w : Machine)
    → Fifo.IsValid b.merged_q
    → IsBacked b.merged_q b.merged_q.d_queue
    → (w.store.cell p).priority ≡ 0
    → (w.store.cell p).tcp_seq ≡ b.merged_next
    → seq_gt (seq_end (w.store) p) (u32 (b.head_seq + b.size)) ≡ false
    → b.ooo_list.head ≡ null
    → (b' : RecvBuff) × (w' : Machine) × (rb_put (suc fuel) b p w ≡ some (some 1, b', w'))
      × (dir_contents b'.merged_q ≡ (Fifo.push (b.merged_q.size - 1) (dir_contents b.merged_q) p).1)
      × (b'.merged_next ≡ seq_end (w.store) p)
      × (b'.head_seq ≡ b.head_seq)
      × ((w'.store.cell p).mbuf_state ≡ MbufState.rbuffed)
unfolding set_state
rb_put_in_order fuel b p w v k low e inside empty =
    let s1 = unheld (w.store) p in
    let same : (p == p) ≡ true = ground arith in
    let low_ : ((w.store.cell p).priority == 0) ≡ true = ground arith in
    let low1 : ((s1.cell p).priority == 0) ≡ true = rw same low_ in
    let (added, _, _) = dir_cirq_add_refines p v k in
    (
      merged b s1 p,
      record w { store = settle p s1 },
      rb_put_inside (suc fuel) b p w s1 (put_high_low b p (w.store) low_) inside
          ∙ put_merged_in_order fuel b p (record w { store = s1 }) (rw same e) empty,
      ap (λ (r : Ret × List ℕ). r.1) added,
      rw same refl,
      refl,
      rw (low1, same) refl,
    )
