-- ===== src/Cirq/Refine.antt =====
-- The queue functions of circular_queue.h against the first-in first-out queue of `Fifo`.
use qstack.Common.{
  get_or, update, update_self, update-id, sym, ℕ, ◌+◌, ◌-◌, ◌%◌, ◌<◌, ◌≡◌, ◌≢◌, refl, true, false,
  List, [], ◌∷◌, ◌++◌, length, set, length-set, arith, Bool-cases, inl, inr,
}
use qstack.Cirq.{
  Cirq, Mem, queue, cirq_succ, cirq_full, cirq_empty, cirq_add, cirq_get, dir_cirq_add,
  dir_cirq_get,
}
use qstack.Cirq.Fifo
use qstack.Cirq.Fifo.{
  IsValid, IsBacked, items, contents, dir_contents, succ-mod, length-items, cirq_count-used,
}
use qstack.Cirq.Ring.{used, used_full, used_not_full, window-push, window-pop}

abbrev advance_head : Cirq → Cirq
advance_head q = record q { head = cirq_succ q q.head }

abbrev advance_tail : Cirq → Cirq
advance_tail q = record q { tail = cirq_succ q q.tail }

module _ {q : Cirq} (v : IsValid q) where
  open v use {head_in, tail_in}

  -- `cirq_full` holds exactly of a queue of `size - 1` words.
  pub full_length : (buf : List ℕ) → cirq_full q ≡ true → length (items buf q) ≡ q.size - 1
  full_length buf h =
      ground (
        arith,
        length-items buf q,
        succ-mod q.head v,
        used_full q.size q.head q.tail head_in tail_in,
      )

  pub not_full_length : (buf : List ℕ) → cirq_full q ≡ false → length (items buf q) + 1 < q.size
  not_full_length buf h = ground (
    arith,
    length-items buf q,
    succ-mod q.head v,
    used_not_full q.size q.head q.tail head_in tail_in,
  )

  pub items-push :
      (buf : List ℕ) (x : ℕ)
      → IsBacked q buf
      → cirq_full q ≡ false
      → items (set buf q.head x) (advance_head q) ≡ items buf q ++ (x ∷ [])
  items-push buf x b h =
      rw (succ-mod q.head v head_in) (window-push q.size q.head q.tail head_in tail_in 0 buf x b ne)
    where
      ne : (q.head + 1) % q.size ≢ q.tail
      ne e = ground (arith, succ-mod q.head v)

  pub advance_head-IsValid : IsValid (advance_head q)
  advance_head-IsValid = omega (arith, succ-mod q.head v)

  pub advance_tail-IsValid : IsValid (advance_tail q)
  advance_tail-IsValid = omega (arith, succ-mod q.tail v)

  pub items-pop :
      (buf : List ℕ)
      → cirq_empty q ≡ false
      → items buf q ≡ get_or buf q.tail 0 ∷ items buf (advance_tail q)
  items-pop buf h =
      rw (succ-mod q.tail v tail_in)
        (window-pop q.size q.head q.tail head_in tail_in 0 buf (λ e. ground arith))

  pub items_empty : (buf : List ℕ) → cirq_empty q ≡ true → items buf q ≡ []
  items_empty buf h = let e : used q.size q.head q.tail ≡ 0 = ground arith in rw e

-- A valid `circular_queue` over its array is the bounded queue of its contents: `cirq_add` gives
-- the status of the bounded queue's push and leaves it holding what that push leaves; it keeps the
-- queue valid, and changes no other array.
pub cirq_add_refines :
    {q : Cirq} (m : Mem) (x : ℕ)
    → IsValid q
    → IsBacked q (m (queue q))
    → let (r, q', m') = cirq_add q m x in
      ((r, contents m' q') ≡ Fifo.push (q.size - 1) (contents m q) x)
      × IsValid q'
      × IsBacked q' (m' (queue q'))
      × (m' ≡ update m (queue q) (m' (queue q)))
unfolding cirq_add Fifo.push
cirq_add_refines {q} m x v b = elim (Bool-cases (cirq_full q)) [
  | inl full ↦
      rw full (ground (arith, full_length v (m (queue q)) full), v, b, sym (update-id m (queue q)))
  | inr room ↦
      let buf = m (queue q) in
      rw (room, update_self m (queue q) (set buf q.head x))
        (
          ground (arith, not_full_length v buf room, items-push v buf x b room),
          advance_head-IsValid v,
          omega (arith, length-set buf q.head x),
          refl,
        )
]

-- Of a valid queue `cirq_get` gives the word of the bounded queue's pop, NULL from an empty one,
-- and leaves the rest; it keeps the queue valid, over the same array and of the same size.
pub cirq_get_refines :
    {q : Cirq} (m : Mem)
    → IsValid q
    → let (x, q') = cirq_get q m in
      ((x, contents m q') ≡ Fifo.pop (contents m q))
      × IsValid q'
      × (q'.d_queue ≡ q.d_queue)
      × (q'.size ≡ q.size)
unfolding cirq_get Fifo.pop
cirq_get_refines {q} m v = elim (Bool-cases (cirq_empty q)) [
  | inl empty ↦ rw (empty, items_empty v (m (queue q)) empty) (refl, v, refl, refl)
  | inr some_left ↦
      rw (some_left, items-pop v (m (queue q)) some_left) (refl, advance_tail-IsValid v, refl, refl)
]

-- A valid direct queue, whose words are in the struct itself, is the bounded queue of its contents:
-- `dir_cirq_add` gives the status of its push and holds what that leaves, and keeps it valid.
pub dir_cirq_add_refines :
    {q : Cirq} (x : ℕ)
    → IsValid q
    → IsBacked q q.d_queue
    → let (r, q') = dir_cirq_add q x in
      ((r, dir_contents q') ≡ Fifo.push (q.size - 1) (dir_contents q) x)
      × IsValid q'
      × IsBacked q' q'.d_queue
unfolding dir_cirq_add Fifo.push
dir_cirq_add_refines {q} x v b = elim (Bool-cases (cirq_full q)) [
  | inl full ↦ rw full (ground (arith, full_length v q.d_queue full), v, b)
  | inr room ↦ rw room (
    ground (arith, not_full_length v q.d_queue room, items-push v q.d_queue x b room),
    omega (arith, succ-mod q.head v),
    omega (arith, length-set q.d_queue q.head x),
  )
]

-- Of a valid direct queue `dir_cirq_get` gives the word of the bounded queue's pop, NULL from an
-- empty one, and leaves the rest; it keeps the queue valid, its words and its size.
pub dir_cirq_get_refines :
    {q : Cirq}
    → IsValid q
    → let (x, q') = dir_cirq_get q in
      ((x, dir_contents q') ≡ Fifo.pop (dir_contents q))
      × IsValid q'
      × (q'.d_queue ≡ q.d_queue)
      × (q'.size ≡ q.size)
unfolding dir_cirq_get Fifo.pop
dir_cirq_get_refines {q} v = elim (Bool-cases (cirq_empty q)) [
  | inl empty ↦ rw (empty, items_empty v q.d_queue empty) (refl, v, refl, refl)
  | inr some_left ↦
      rw (some_left, items-pop v q.d_queue some_left) (refl, advance_tail-IsValid v, refl, refl)
]
