-- ===== src/Cirq/Runs.antt =====
-- Whole sequences of calls on one queue, under both views of the union, against the bounded
-- queue; and the answers of the functions that only look.
use qstack.Common.{
  ℕ, ◌+◌, ◌-◌, ◌<◌, ◌≡◌, refl, true, false, List, [], ◌∷◌, ◌++◌, length, arith, Bool-cases, inl,
  inr, ◌↔◌, null, ap, ◌∙◌, ◌==◌,
}
use qstack.Cirq.{
  Cirq, Mem, queue, Ret, success, cirq_full, cirq_empty, cirq_count, cirq_add, cirq_get,
  cirq_prefetch, dir_cirq_add, dir_cirq_get,
}
use qstack.Cirq.Fifo
use qstack.Cirq.Fifo.{
  IsValid, IsBacked, items, contents, dir_contents, length-items, cirq_count-used,
}
use qstack.Cirq.Ring.{used-lt}
use qstack.Cirq.Refine.{
  cirq_add_refines, cirq_get_refines, dir_cirq_add_refines, dir_cirq_get_refines, full_length,
  not_full_length, items_empty, items-pop,
}

-- One call by a client, and what it sees of it: a status, or a word.
pub data Call : Type 0 where
  add : ℕ → Call
  get : Call

pub data Reply : Type 0 where
  added : Ret → Reply
  got : ℕ → Reply

abbrev pub run : Cirq → Mem → List Call → List Reply
run q m [] = []
run q m (add x ∷ cs) = let (r, q', m') = cirq_add q m x in added r ∷ run q' m' cs
run q m (get ∷ cs) = let (x, q') = cirq_get q m in got x ∷ run q' m cs

abbrev pub dir_run : Cirq → List Call → List Reply
dir_run q [] = []
dir_run q (add x ∷ cs) = let (r, q') = dir_cirq_add q x in added r ∷ dir_run q' cs
dir_run q (get ∷ cs) = let (x, q') = dir_cirq_get q in got x ∷ dir_run q' cs

abbrev pub fifo_run : ℕ → List ℕ → List Call → List Reply
fifo_run cap l [] = []
fifo_run cap l (add x ∷ cs) = let (r, l') = Fifo.push cap l x in added r ∷ fifo_run cap l' cs
fifo_run cap l (get ∷ cs) = let (x, l') = Fifo.pop l in got x ∷ fifo_run cap l' cs

size-cirq_add : (q : Cirq) (m : Mem) (x : ℕ) → (cirq_add q m x).1.size ≡ q.size
unfolding cirq_add
size-cirq_add q m x = ground arith

size-cirq_get : (q : Cirq) (m : Mem) → (cirq_get q m).1.size ≡ q.size
unfolding cirq_get
size-cirq_get q m = ground arith

size-dir_cirq_add : (q : Cirq) (x : ℕ) → (dir_cirq_add q x).1.size ≡ q.size
unfolding dir_cirq_add
size-dir_cirq_add q x = ground arith

-- No sequence of `cirq_add` and `cirq_get` tells a valid queue over its array from the bounded
-- queue of its contents.
pub run_refines :
    (cs : List Call) {q : Cirq} (m : Mem)
    → IsValid q
    → IsBacked q (m (queue q))
    → run q m cs ≡ fifo_run (q.size - 1) (contents m q) cs
run_refines [] m v b = refl
run_refines (add x ∷ cs) {q} m v b =
    let (e, v', b', same) = cirq_add_refines m x v b in
    rw (run_refines cs (cirq_add q m x).2 v' b', ← e, size-cirq_add q m x)
run_refines (get ∷ cs) {q} m v b =
    let (e, v', same_words, same_size) = cirq_get_refines m v in
    let b' : IsBacked (cirq_get q m).1 (m (queue (cirq_get q m).1)) =
      rw (same_words, same_size) b in
    rw (run_refines cs m v' b', ← e, same_size)

-- No sequence of `dir_cirq_add` and `dir_cirq_get` tells a valid direct queue from the bounded
-- queue of its contents.
pub dir_run_refines :
    (cs : List Call) {q : Cirq}
    → IsValid q
    → IsBacked q q.d_queue
    → dir_run q cs ≡ fifo_run (q.size - 1) (dir_contents q) cs
dir_run_refines [] v b = refl
dir_run_refines (add x ∷ cs) {q} v b =
    let (e, v', b') = dir_cirq_add_refines x v b in
    rw (dir_run_refines cs v' b', ← e, size-dir_cirq_add q x)
dir_run_refines (get ∷ cs) {q} v b =
    let (e, v', same_words, same_size) = dir_cirq_get_refines v in
    let b' : IsBacked (dir_cirq_get q).1 (dir_cirq_get q).1.d_queue =
      rw (same_words, same_size) b in
    rw (dir_run_refines cs v' b', ← e, same_size)

-- Of a valid queue, whatever array it stands over, `cirq_count` is the number of its words, below
-- its size; `cirq_full` holds exactly at `size - 1` words and `cirq_empty` exactly at none; and
-- `cirq_prefetch` shows the word that `cirq_get` would return.
pub looks_agree :
    {q : Cirq} (m : Mem)
    → IsValid q
    → (cirq_count q ≡ length (contents m q))
      × (cirq_count q < q.size)
      × ((cirq_full q ≡ true) ↔ (length (contents m q) + 1 ≡ q.size))
      × ((cirq_empty q ≡ true) ↔ (contents m q ≡ []))
      × (cirq_prefetch q m ≡ (cirq_get q m).0)
unfolding cirq_prefetch cirq_get
looks_agree {q} m v =
    let n = length-items (m (queue q)) q in
    let c = cirq_count-used v in
    (
      omega (arith, n, c),
      omega (arith, c, used-lt q.size q.head q.tail v.head_in v.tail_in),
      (
        λ h. omega (arith, full_length v (m (queue q)) h),
        λ h. elim (Bool-cases (cirq_full q)) [
          | inl full ↦ full
          | inr room ↦ absurd (omega (arith, not_full_length v (m (queue q)) room))
        ],
      ),
      (
        items_empty v (m (queue q)),
        λ h. elim (Bool-cases (cirq_empty q)) [
          | inl empty ↦ empty
          | inr some_left ↦ cc (items-pop v (m (queue q)) some_left)
        ],
      ),
      ground arith,
    )

-- `cirq_get` by what the queue holds.
pub get_of_nil : {q : Cirq} (m : Mem) → IsValid q → contents m q ≡ [] → cirq_get q m ≡ (null, q)
unfolding cirq_get
get_of_nil {q} m v e = elim (Bool-cases (cirq_empty q)) [
  | inl empty ↦ rw empty
  | inr held ↦ cc (items-pop v (m (queue q)) held)
]

pub get_of_cons :
    {q : Cirq} (m : Mem) {x : ℕ} {rest : List ℕ}
    → IsValid q
    → contents m q ≡ x ∷ rest
    → ((cirq_get q m).0 ≡ x) × (contents m (cirq_get q m).1 ≡ rest) × IsValid (cirq_get q m).1
unfolding Fifo.pop
get_of_cons {q} m {x} {rest} v e =
    let (r, v', _, _) = cirq_get_refines m v in
    let f : ◌≡◌ {A = ℕ × List ℕ} ((cirq_get q m).0, contents m (cirq_get q m).1) (x, rest) =
      rw (r, e) in
    (ap (λ (p : ℕ × List ℕ). p.0) f, ap (λ (p : ℕ × List ℕ). p.1) f, v')

-- `dir_cirq_add` with room.
pub dir_add_of_room :
    {q : Cirq} (x : ℕ)
    → IsValid q
    → IsBacked q q.d_queue
    → cirq_full q ≡ false
    → ((dir_cirq_add q x).0 ≡ success)
      × (dir_contents (dir_cirq_add q x).1 ≡ dir_contents q ++ (x ∷ []))
unfolding Fifo.push
dir_add_of_room {q} x v b room =
    let (r, _, _) = dir_cirq_add_refines x v b in
    let fits : (length (dir_contents q) == q.size - 1) ≡ false =
      ground (arith, not_full_length v q.d_queue room) in
    let e : ◌≡◌ {A = Ret × List ℕ} ((dir_cirq_add q x).0, dir_contents (dir_cirq_add q x).1)
        (success, dir_contents q ++ (x ∷ [])) =
      r ∙ rw fits in
    (ap (λ (t : Ret × List ℕ). t.0) e, ap (λ (t : Ret × List ℕ). t.1) e)

-- `dir_cirq_get` by what the queue holds.
pub dir_get_of_nil : {q : Cirq} → IsValid q → dir_contents q ≡ [] → dir_cirq_get q ≡ (null, q)
unfolding dir_cirq_get
dir_get_of_nil {q} v e = elim (Bool-cases (cirq_empty q)) [
  | inl empty ↦ rw empty
  | inr held ↦ cc (items-pop v q.d_queue held)
]

pub dir_get_of_cons :
    {q : Cirq} {x : ℕ} {rest : List ℕ}
    → IsValid q
    → dir_contents q ≡ x ∷ rest
    → ((dir_cirq_get q).0 ≡ x)
      × (dir_contents (dir_cirq_get q).1 ≡ rest)
      × IsValid (dir_cirq_get q).1
      × ((dir_cirq_get q).1.size ≡ q.size)
unfolding Fifo.pop
dir_get_of_cons {q} {x} {rest} v e =
    let (r, v', _, size) = dir_cirq_get_refines v in
    let f : ◌≡◌ {A = ℕ × List ℕ} ((dir_cirq_get q).0, dir_contents (dir_cirq_get q).1) (x, rest) =
      rw (r, e) in
    (ap (λ (p : ℕ × List ℕ). p.0) f, ap (λ (p : ℕ × List ℕ). p.1) f, v', size)
