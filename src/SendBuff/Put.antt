-- ===== src/SendBuff/Put.antt =====
-- What `sb_put` does with a packet buffer.
use qstack.Common.{
  ℕ, ◌+◌, ◌^◌, ◌≤◌, ◌<◌, ◌≡◌, ◌≢◌, refl, subst, Bool, true, false, none, some, [], ◌∷◌, ◌++◌, ◌==◌,
  if◌then◌else◌, u32, sub32, arith, Ptr, Bool-cases, inl, inr,
}
use qstack.Cirq.{Cirq, cirq_full, dir_cirq_add}
use qstack.Cirq.Fifo
use qstack.Cirq.Fifo.{dir_contents, IsBacked}
use qstack.Cirq.Runs.{dir_add_of_room}
use qstack.Mbuf.{Store}
use qstack.Mbuf.Chain.{seqs, lens}
use qstack.Mbuf.Queue.{mbufq_enqueue}
use qstack.SendBuff.{SendBuff, sb_len, to_put, sb_put}

-- The numbers fit in uint32_t, and what is stored fits in the buffer.
pub record IsSound (b : SendBuff) : Type 0 where
  pub small : b.size < 2 ^ 32
  pub head : b.head_seq < 2 ^ 32
  pub next : b.next_seq < 2 ^ 32
  pub fits : sb_len b ≤ b.size

to_put-le :
    (b : SendBuff) (len : ℕ) → IsSound b → (to_put b len ≤ len) × (sb_len b + to_put b len ≤ b.size)
unfolding sb_len
to_put-le b len v = ground arith

sb_put_fields :
    (b : SendBuff) (p : Ptr) (s : Store)
    → IsSound b
    → let b' = (sb_put b p s).1 in
      (b'.next_seq ≡ u32 (b.next_seq + to_put b (lens s p)))
      × (b'.head_seq ≡ b.head_seq)
      × (b'.size ≡ b.size)
unfolding sb_put
sb_put_fields b p s v =
    let next : (n : ℕ) → n ≡ 0 → b.next_seq ≡ u32 (b.next_seq + n) = λ n e. omega arith in
    elim (Bool-cases (to_put b (lens s p) == 0)) [
      | inl none_ ↦ rw none_ (next (to_put b (lens s p)) (ground arith), refl, refl)
      | inr some_ ↦ elim (Bool-cases ((s.cell p).priority == 0)) [
        | inl low ↦ rw (some_, low) (refl, refl, refl)
        | inr high ↦ rw (some_, high) (refl, refl, refl)
      ]
    ]

-- `sb_put` keeps the send buffer sound on every branch, and on every branch, a full queue
-- included, the bytes that `sb_len` counts grow by `to_put`, which is at most the payload's length
-- and never more than the room left.
pub sb_put-IsSound :
    (b : SendBuff) (p : Ptr) (s : Store)
    → IsSound b
    → let b' = (sb_put b p s).1 in
      IsSound b' × (sb_len b' ≡ sb_len b + to_put b (lens s p)) × (to_put b (lens s p) ≤ lens s p)
unfolding sb_len
sb_put-IsSound b p s v =
    let (next, head, size) = sb_put_fields b p s v in
    let (le, room) = to_put-le b (lens s p) v in
    let grows : sub32 (u32 (b.next_seq + to_put b (lens s p))) b.head_seq
        ≡ sub32 b.next_seq b.head_seq + to_put b (lens s p) =
      omega (arith, v) in
    (
      record {
        small = rw size v.small;
        head = rw head v.head;
        next = rw next (omega arith);
        fits = rw (next, head, size, grows) room;
      },
      rw (next, head, grows),
      le,
    )

-- The queue that a packet buffer goes to, by its priority.
abbrev pub chosen : SendBuff → Store → Ptr → Cirq
chosen b s p = if (s.cell p).priority == 0 then b.usnd_q else b.husnd_q

-- With bytes to put and room in the queue of its priority, a valid one over its words, `sb_put`
-- returns their number, the packet gets the sequence number `next_seq` and that length, and
-- stands last in that queue.
pub sb_put_room :
    (b : SendBuff) (p : Ptr) (s : Store)
    → Fifo.IsValid (chosen b s p)
    → IsBacked (chosen b s p) (chosen b s p).d_queue
    → to_put b (lens s p) ≢ 0
    → cirq_full (chosen b s p) ≡ false
    → let (r, b', s') = sb_put b p s in
      (r ≡ some (to_put b (lens s p)))
      × (seqs s' p ≡ b.next_seq)
      × (lens s' p ≡ to_put b (lens s p))
      × (dir_contents (chosen b' s' p) ≡ dir_contents (chosen b s p) ++ (p ∷ []))
unfolding sb_put mbufq_enqueue Fifo.push
sb_put_room b p s q backed bytes room =
    let some_ : (to_put b (lens s p) == 0) ≡ false = ground arith in
    let same : (p == p) ≡ true = ground arith in
    elim (Bool-cases ((s.cell p).priority == 0)) [
      | inl low ↦
          let low_q : chosen b s p ≡ b.usnd_q = rw low in
          let (status, queued) =
            dir_add_of_room p (subst Fifo.IsValid low_q q)
              (subst (λ c. IsBacked c c.d_queue) low_q backed)
              (subst (λ c. cirq_full c ≡ false) low_q room) in
          rw (some_, low) (rw status, ground arith, ground arith, rw (same, low) queued)
      | inr high ↦
          let high_q : chosen b s p ≡ b.husnd_q = rw high in
          let (status, queued) =
            dir_add_of_room p (subst Fifo.IsValid high_q q)
              (subst (λ c. IsBacked c c.d_queue) high_q backed)
              (subst (λ c. cirq_full c ≡ false) high_q room) in
          rw (some_, high) (rw status, ground arith, ground arith, rw (same, high) queued)
    ]

-- A queue that is full is found too late: with bytes to put, `sb_put` returns FAILED and changes
-- nothing of the buffer but `next_seq`, which has moved on by their number.
pub sb_put_gap :
    (b : SendBuff) (p : Ptr) (s : Store)
    → to_put b (lens s p) ≢ 0
    → cirq_full (chosen b s p) ≡ true
    → let (r, b', s') = sb_put b p s in
      (r ≡ none) × (b' ≡ record b { next_seq = u32 (b.next_seq + to_put b (lens s p)) })
unfolding sb_put mbufq_enqueue dir_cirq_add
sb_put_gap b p s bytes full =
    let some_ : (to_put b (lens s p) == 0) ≡ false = ground arith in
    elim (Bool-cases ((s.cell p).priority == 0)) [
      | inl low ↦
          let full_q : cirq_full b.usnd_q ≡ true =
            subst (λ (t : Bool). cirq_full (if t then b.usnd_q else b.husnd_q) ≡ true) low full in
          rw (some_, low, full_q) (refl, refl)
      | inr high ↦
          let full_q : cirq_full b.husnd_q ≡ true =
            subst (λ (t : Bool). cirq_full (if t then b.usnd_q else b.husnd_q) ≡ true) high full in
          rw (some_, high, full_q) (refl, refl)
    ]
