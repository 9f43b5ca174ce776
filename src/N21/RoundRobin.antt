-- ===== src/N21/RoundRobin.antt =====
-- Which queue `n21q_dequeue_strong` serves.
use native.Mathlib.Decide.{dec_lt}
use native.Mathlib.Nat.{mod-add-mod, mod-eq_of_lt, mod-eq-sub-mod}
use native.Mathlib.Numerals.{add-one}
use qstack.Common.{
  ℕ, zero, suc, ◌+◌, ◌-◌, ◌%◌, ◌^◌, ◌<◌, ◌≡◌, ◌≢◌, ◌⊎◌, inl, inr, refl, sym, ap, subst, true, false,
  some, List, [], ◌∷◌, ◌==◌, if◌then◌else◌, length, set-get_or, get_or-set_self, get_or-set_ne,
  arith, u8, null, Bool-cases,
}
use qstack.Cirq.{Cirq, Mem, cirq_get}
use qstack.Cirq.Fifo
use qstack.Cirq.Fifo.{contents}
use qstack.Cirq.Ring.{used, used-lt, add-used, add-mod-ne, succ-cases}
use qstack.Cirq.Runs.{get_of_nil, get_of_cons}
use qstack.N21.{N21, no_queue, queue_at, set_queue, n21q_succ, dequeue_loop, n21q_dequeue_strong}

-- The words in the i-th queue, oldest first.
abbrev pub held : Mem → N21 → ℕ → List ℕ
held m q i = contents m (queue_at q i)

-- The number of queues fits in `uint8_t`, and no producer has added NULL.
pub record IsValid (m : Mem) (q : N21) : Type 0 where
  pub few : q.queue_num < 2 ^ 8
  pub point_in : q.queue_point < q.queue_num
  pub stored : length q.queues ≡ q.queue_num
  pub each : (i : ℕ) → i < q.queue_num → Fifo.IsValid (queue_at q i)
  pub not_null : (i x : ℕ) (rest : List ℕ) → i < q.queue_num → held m q i ≡ x ∷ rest → x ≢ null

abbrev pub slot : N21 → ℕ → ℕ → ℕ
slot q start d = (start + d) % q.queue_num

-- The first queue that is not empty, counted round from `start`, gives its oldest word `x`; no
-- other queue changes, and the point is behind it.
pub record Served (m : Mem) (q : N21) (x : ℕ) (q' : N21) : Type 0 where
  pub distance : ℕ
  pub in_range : distance < q.queue_num
  pub skipped : (j : ℕ) → j < distance → held m q (slot q q.queue_point j) ≡ []
  pub taken :
      held m q (slot q q.queue_point distance) ≡ x ∷ held m q' (slot q q.queue_point distance)
  pub others : (i : ℕ) → i ≢ slot q q.queue_point distance → queue_at q' i ≡ queue_at q i
  pub point : q'.queue_point ≡ slot q q.queue_point (distance + 1)

abbrev pub Outcome : Mem → N21 → ℕ × N21 → Type 0
Outcome m q (x, q') =
    (((i : ℕ) → i < q.queue_num → held m q i ≡ []) × (x ≡ null) × (q' ≡ q)) ⊎ Served m q x q'

module _ (m : Mem) (q : N21) (v : IsValid m q) where
  open v use {few, point_in, stored}

  abbrev at : ℕ → N21
  at d = record q { queue_point = slot q q.queue_point d }

  slot-lt : (d : ℕ) → slot q q.queue_point d < q.queue_num
  slot-lt d = omega (arith, point_in)

  -- The next index, whatever the point and the queues have become.
  succ-slot :
      (d point : ℕ) (cs : List Cirq)
      → n21q_succ (record q { queue_point = point; queues = cs }) (slot q q.queue_point d)
        ≡ slot q q.queue_point (d + 1)
  unfolding n21q_succ
  succ-slot d point cs =
      let p = slot q q.queue_point d in
      let small : u8 (p + 1) ≡ p + 1 = omega (arith, slot-lt d) in
      let round : (p + 1) % q.queue_num ≡ slot q q.queue_point (d + 1) =
        rw mod-add-mod (ap (λ (k : ℕ). k % q.queue_num) (omega arith)) in
      rw small (elim (succ-cases q.queue_num p (slot-lt d)) [
        | inl c ↦ ground (arith, round)
        | inr c ↦ ground (arith, round)
      ])

  loop_skip :
      (fuel d : ℕ)
      → held m q (slot q q.queue_point d) ≡ []
      → dequeue_loop (suc fuel) q.queue_point m (at d) ≡ (
          if q.queue_point == slot q q.queue_point (d + 1)
          then some (null, at (d + 1))
          else dequeue_loop fuel q.queue_point m (at (d + 1)))
  unfolding dequeue_loop
  loop_skip fuel d e =
      rw (get_of_nil m (v.each (slot q q.queue_point d) (slot-lt d)) e, set-get_or, succ-slot)
        (elim (Bool-cases (q.queue_point == slot q q.queue_point (d + 1))) [
          | inl back ↦ rw back
          | inr on ↦ rw on
        ])

  loop_found :
      (fuel d x : ℕ) (rest : List ℕ)
      → held m q (slot q q.queue_point d) ≡ x ∷ rest
      → ((j : ℕ) → j < d → held m q (slot q q.queue_point j) ≡ [])
      → d < q.queue_num
      → (r : ℕ × N21) × (dequeue_loop (suc fuel) q.queue_point m (at d) ≡ some r)
        × Served m q r.0 r.1
  unfolding dequeue_loop
  loop_found fuel d x rest e skip lt =
      let p = slot q q.queue_point d in
      let (found, left, _) = get_of_cons m (v.each p (slot-lt d)) e in
      let c = (cirq_get (queue_at q p) m).1 in
      let q' = record (set_queue q p c) { queue_point = slot q q.queue_point (d + 1) } in
      let ne : x ≢ null = v.not_null p x rest (slot-lt d) e in
      let word : (x == null) ≡ false = ground arith in
      let inside : p < length q.queues = omega (arith, slot-lt d, stored) in
      (
        (x, q'),
        rw (found, succ-slot, word),
        record {
          distance = d;
          in_range = lt;
          skipped = skip;
          taken = rw (get_or-set_self q.queues p c no_queue inside, e, left);
          others = λ i ne. get_or-set_ne q.queues p i c no_queue (λ h. ne (sym h));
          point = refl;
        },
      )

  -- A whole round comes back to the start, and fewer steps do not.
  slot_round : (d : ℕ) → d + 1 ≡ q.queue_num → slot q q.queue_point (d + 1) ≡ q.queue_point
  slot_round d e =
      let p = q.queue_point in
      omega (
        arith,
        mod-eq-sub-mod {n = p + (d + 1)} {m = q.queue_num} (omega arith),
        mod-eq_of_lt {n = p + (d + 1) - q.queue_num} {m = q.queue_num} (omega arith),
        ap (λ (k : ℕ). (p + (d + 1)) % k) e,
      )

  slot-ne : (d : ℕ) → d + 1 < q.queue_num → slot q q.queue_point (d + 1) ≢ q.queue_point
  slot-ne d h = rw add-one (add-mod-ne q.queue_num q.queue_point d point_in (omega arith))

  -- Every queue is met in a round.
  all_slots :
      ((j : ℕ) → j < q.queue_num → held m q (slot q q.queue_point j) ≡ [])
      → (i : ℕ) → i < q.queue_num
      → held m q i ≡ []
  all_slots none_held i h =
      let j = used q.queue_num i q.queue_point in
      subst (λ (k : ℕ). held m q k ≡ []) (add-used q.queue_num i q.queue_point h point_in)
        (none_held j (used-lt q.queue_num i q.queue_point h point_in))

  skip-suc :
      (d : ℕ)
      → ((j : ℕ) → j < d → held m q (slot q q.queue_point j) ≡ [])
      → held m q (slot q q.queue_point d) ≡ []
      → (j : ℕ) → j < d + 1
      → held m q (slot q q.queue_point j) ≡ []
  skip-suc d skip h j lt = elim (dec_lt j d) [
    | yes p ↦ skip j p
    | no np ↦ let eq : j ≡ d = omega arith in rw eq h
  ]

  abbrev Ends : ℕ → ℕ → Type 0
  Ends k d = (r : ℕ × N21) × (dequeue_loop k q.queue_point m (at d) ≡ some r) × Outcome m q r

  -- The loop with `k + 1` rounds left, behind `d` empty queues, by what the next one holds.
  loop_outcome :
      (k d : ℕ)
      → suc k + d ≡ q.queue_num
      → ((j : ℕ) → j < d → held m q (slot q q.queue_point j) ≡ [])
      → (l : List ℕ) → held m q (slot q q.queue_point d) ≡ l
      → Ends (suc k) d
  loop_outcome zero d e skip [] h =
      let back = slot_round d (omega arith) in
      let test : (q.queue_point == slot q q.queue_point (d + 1)) ≡ true = ground arith in
      (
        (null, at (d + 1)),
        rw (loop_skip zero d h, test),
        inl (
          all_slots (λ j lt. skip-suc d skip h j (omega arith)),
          refl,
          ap (λ (p : ℕ). record q { queue_point = p }) back,
        ),
      )
  loop_outcome (suc k) d e skip [] h =
      let test : (q.queue_point == slot q q.queue_point (d + 1)) ≡ false =
        ground (arith, slot-ne d (omega arith)) in
      let (r, f, o) =
        loop_outcome k (d + 1) (omega arith) (skip-suc d skip h)
          (held m q (slot q q.queue_point (d + 1))) refl in
      (r, rw (loop_skip (suc k) d h, test) f, o)
  loop_outcome k d e skip (x ∷ rest) h =
      let (r, f, served) = loop_found k d x rest h skip (omega arith) in (r, f, inr served)

-- On a valid queue `n21q_dequeue_strong` always returns within one round. Either every queue is
-- empty, it returns NULL and the state is as before; or the first queue that is not empty, counted
-- round from the point, loses the oldest of its words, which is returned, no other queue changes,
-- and the point moves behind that queue.
pub dequeue_round_robin :
    (m : Mem) (q : N21)
    → IsValid m q
    → (r : ℕ × N21) × (n21q_dequeue_strong q m ≡ some r) × Outcome m q r
unfolding n21q_dequeue_strong
dequeue_round_robin m q v =
    let p = q.queue_point in
    let k = q.queue_num - 1 in
    let whole : suc k ≡ q.queue_num = omega (arith, v.point_in) in
    let first : slot q p 0 ≡ p = grind (arith, mod-eq_of_lt v.point_in) in
    let (r, f, o) =
      loop_outcome m q v k 0 (omega arith) (λ j lt. absurd (omega arith)) (held m q (slot q p 0))
        refl in
    let start =
      subst (λ (i : ℕ). dequeue_loop (suc k) p m (record q { queue_point = i }) ≡ some r) first f in
    (r, subst (λ (n : ℕ). dequeue_loop n p m q ≡ some r) whole start, o)
