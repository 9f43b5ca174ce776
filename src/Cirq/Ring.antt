-- ===== src/Cirq/Ring.antt =====
-- The index arithmetic that the queues of circular_queue.h share: the items between `tail` and
-- `head`, going round at `size`.
use native.Mathlib.Nat.{mod-add-mod, mod-eq_of_lt, mod-eq-sub-mod}
use native.Mathlib.Decide.{dec_lt}
use qstack.Common.{
  ℕ, zero, suc, ◌+◌, ◌-◌, ◌%◌, ◌≤◌, ◌<◌, ◌≡◌, ◌≢◌, ◌⊎◌, inl, inr, ◌∙◌, refl, sym, ap, ap₂, List, [],
  ◌∷◌, ◌++◌, leb, if◌then◌else◌, length, get_or, set, get_or-set_self, get_or-set_ne, arith,
}

-- The `n` items from index `t` on.
abbrev pub window {ℓ} : {A : Type ℓ} → A → List A → ℕ → ℕ → ℕ → List A
window d buf size t zero = []
window d buf size t (suc n) = get_or buf t d ∷ window d buf size ((t + 1) % size) n

-- How many words lie between `tail` and `head`.
abbrev pub used : ℕ → ℕ → ℕ → ℕ
used size head tail = if leb tail head then head - tail else head + size - tail

pub length-window {ℓ} :
    {A : Type ℓ} (d : A) (buf : List A) (size t n : ℕ) → length (window d buf size t n) ≡ n
length-window d buf size t zero = refl
length-window d buf size t (suc n) = ap suc (length-window d buf size ((t + 1) % size) n)

-- Fewer than `size` steps round the ring do not come back to the start.
pub add-mod-ne : (size t k : ℕ) → t < size → suc k < size → (t + suc k) % size ≢ t
add-mod-ne size t k ht hk = elim (dec_lt (t + suc k) size) [
  | yes p ↦ omega (arith, mod-eq_of_lt p)
  | no p ↦ omega (
    arith,
    mod-eq-sub-mod {n = t + suc k} {m = size} (omega arith),
    mod-eq_of_lt {n = t + suc k - size} {m = size} (omega arith),
  )
]

-- A write at the index past a window extends the window by that word.
pub window-set {ℓ} :
    {A : Type ℓ} (d : A) (buf : List A) (size : ℕ) (x : A) (n t i : ℕ)
    → size ≤ length buf
    → t < size
    → n < size
    → i ≡ (t + n) % size
    → window d (set buf i x) size t (suc n) ≡ window d buf size t n ++ (x ∷ [])
window-set d buf size x zero t i hs ht hn e =
    let at : i ≡ t = grind (arith, mod-eq_of_lt ht) in
    rw (at, get_or-set_self buf t x d (omega arith))
window-set d buf size x (suc n) t i hs ht hn e =
    ap₂ ◌∷◌ (get_or-set_ne buf i t x d (rw e (add-mod-ne size t n ht hn)))
      (window-set d buf size x n ((t + 1) % size) i hs (omega arith) (omega arith) (e ∙ shift))
  where
    shift : (t + suc n) % size ≡ ((t + 1) % size + n) % size
    shift = rw mod-add-mod (ap (λ k. k % size) (omega arith))

-- A write at an index outside a window leaves it alone.
pub window-set_outside {ℓ} :
    {A : Type ℓ} (d : A) (buf : List A) (size : ℕ) (x : A) (n t i : ℕ)
    → t < size
    → n < size
    → i ≡ (t + n) % size
    → window d (set buf i x) size t n ≡ window d buf size t n
window-set_outside d buf size x zero t i ht hn e = refl
window-set_outside d buf size x (suc n) t i ht hn e =
    ap₂ ◌∷◌ (get_or-set_ne buf i t x d (rw e (add-mod-ne size t n ht hn)))
      (window-set_outside d buf size x n ((t + 1) % size) i (omega arith) (omega arith) (e ∙ shift))
  where
    shift : (t + suc n) % size ≡ ((t + 1) % size + n) % size
    shift = rw mod-add-mod (ap (λ k. k % size) (omega arith))

-- One step round the ring, with no remainder left.
pub succ-cases :
    (size p : ℕ)
    → p < size
    → ((p + 1 ≡ size) × ((p + 1) % size ≡ 0)) ⊎ ((p + 1 < size) × ((p + 1) % size ≡ p + 1))
succ-cases size p h = elim (dec_lt (p + 1) size) [
  | yes lt ↦ inr (lt, mod-eq_of_lt lt)
  | no ge ↦
      let e : p + 1 ≡ size = omega arith in
      inl (e, grind (arith, mod-eq-sub-mod {n = p + 1} {m = size} (omega arith)))
]

module _ (size head tail : ℕ) (hh : head < size) (ht : tail < size) where
  pub used-lt : used size head tail < size
  used-lt = ground arith

  -- The index of `head` is where the window ends.
  pub add-used : (tail + used size head tail) % size ≡ head
  add-used = elim (dec_lt head tail) [
    | yes lt ↦ ground (
      arith,
      mod-eq-sub-mod {n = tail + (head + size - tail)} {m = size} (omega arith),
      mod-eq_of_lt {n = tail + (head + size - tail) - size} {m = size} (omega arith),
    )
    | no ge ↦ ground (arith, mod-eq_of_lt {n = tail + (head - tail)} {m = size} (omega arith))
  ]

  pub used-succ_head :
      (head + 1) % size ≢ tail → used size ((head + 1) % size) tail ≡ suc (used size head tail)
  used-succ_head ne = elim (succ-cases size head hh) [ inl c ↦ ground arith | inr c ↦ ground arith ]

  pub used-succ_tail : head ≢ tail → used size head tail ≡ suc (used size head ((tail + 1) % size))
  used-succ_tail ne = elim (succ-cases size tail ht) [ inl c ↦ ground arith | inr c ↦ ground arith ]

  pub used_full : (head + 1) % size ≡ tail → used size head tail + 1 ≡ size
  used_full e = elim (succ-cases size head hh) [ inl c ↦ ground arith | inr c ↦ ground arith ]

  pub used_not_full : (head + 1) % size ≢ tail → used size head tail + 1 < size
  used_not_full ne = elim (succ-cases size head hh) [ inl c ↦ ground arith | inr c ↦ ground arith ]

  -- The words after one more is written at `head`, and after the first one is taken.
  pub window-push {ℓ} :
      {A : Type ℓ} (d : A) (buf : List A) (x : A)
      → size ≤ length buf
      → (head + 1) % size ≢ tail
      → window d (set buf head x) size tail (used size ((head + 1) % size) tail)
        ≡ window d buf size tail (used size head tail) ++ (x ∷ [])
  window-push d buf x hs ne =
      rw (used-succ_head ne)
        (window-set d buf size x (used size head tail) tail head hs ht used-lt (sym add-used))

  pub window-pop {ℓ} :
      {A : Type ℓ} (d : A) (buf : List A)
      → head ≢ tail
      → window d buf size tail (used size head tail)
        ≡ get_or buf tail d
          ∷ window d buf size ((tail + 1) % size) (used size head ((tail + 1) % size))
  window-pop d buf ne = rw (used-succ_tail ne)
