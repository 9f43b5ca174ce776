-- ===== src/Timer/Tracked.antt =====
-- A TAILQ and the mark that its streams carry.
use qstack.Common.{
  ◌≡◌, refl, ◌∙◌, Bool, true, false, ◌||◌, List, [], ◌∷◌, ◌==◌, arith, update, Ptr, Bool-cases, inl,
  inr,
}
use qstack.Mbuf.Chain.{has}
use qstack.Timer.{remove, insert_tail}

abbrev pub Distinct : List Ptr → Type 0
Distinct [] = Unit {0}
Distinct (x ∷ xs) = (has x xs ≡ false) × Distinct xs

-- The list holds each stream with the mark once, and no other.
pub record Tracks (l : List Ptr) (mark : Ptr → Bool) : Type 0 where
  pub marks : (q : Ptr) → has q l ≡ mark q
  pub distinct : Distinct l

has-remove_ne : (p q : Ptr) (l : List Ptr) → (q == p) ≡ false → has q (remove p l) ≡ has q l
has-remove_ne p q [] ne = refl
has-remove_ne p q (x ∷ xs) ne = ground (arith, has-remove_ne p q xs ne)

has-remove_self : (p : Ptr) (l : List Ptr) → Distinct l → has p (remove p l) ≡ false
has-remove_self p [] d = refl
has-remove_self p (x ∷ xs) d = ground (arith, has-remove_self p xs d.1, d.0)

has-insert_tail : (p q : Ptr) (l : List Ptr) → has q (insert_tail l p) ≡ (has q l || (q == p))
has-insert_tail p q [] = ground arith
has-insert_tail p q (x ∷ xs) = ground (arith, has-insert_tail p q xs)

remove-absent : (p : Ptr) (l : List Ptr) → has p l ≡ false → remove p l ≡ l
remove-absent p [] h = refl
remove-absent p (x ∷ xs) h = ground (arith, remove-absent p xs)

Distinct-remove : (p : Ptr) (l : List Ptr) → Distinct l → Distinct (remove p l)
Distinct-remove p [] d = tt
Distinct-remove p (x ∷ xs) d = elim (Bool-cases (x == p)) [
  | inl same ↦ rw same d.1
  | inr other ↦ rw other (has-remove_ne p x xs other ∙ d.0, Distinct-remove p xs d.1)
]

Distinct-insert_tail :
    (p : Ptr) (l : List Ptr) → has p l ≡ false → Distinct l → Distinct (insert_tail l p)
Distinct-insert_tail p [] h d = (refl, tt)
Distinct-insert_tail p (x ∷ xs) h d =
    (ground (arith, has-insert_tail p x xs, d.0), Distinct-insert_tail p xs (ground arith) d.1)

module _ {l : List Ptr} {mark : Ptr → Bool} (t : Tracks l mark) (p : Ptr) where
  pub Tracks-remove : Tracks (remove p l) (update mark p false)
  Tracks-remove = record {
    marks = λ q. elim (Bool-cases (q == p)) [
      | inl same ↦ let e : q ≡ p = ground arith in rw same (rw e (has-remove_self p l t.distinct))
      | inr other ↦ rw other (has-remove_ne p q l other ∙ t.marks q)
    ];
    distinct = Distinct-remove p l t.distinct;
  }

  pub Tracks-insert_tail : mark p ≡ false → Tracks (insert_tail l p) (update mark p true)
  Tracks-insert_tail off = record {
    marks = λ q. ground (arith, has-insert_tail p q l, t.marks q);
    distinct = Distinct-insert_tail p l (t.marks p ∙ off) t.distinct;
  }

-- Only the values of the mark count.
pub Tracks-cong :
    {l : List Ptr} {mark mark' : Ptr → Bool}
    → ((q : Ptr) → mark q ≡ mark' q)
    → Tracks l mark
    → Tracks l mark'
Tracks-cong same t = record { marks = λ q. t.marks q ∙ same q; distinct = t.distinct }

pub Tracks-move :
    {l : List Ptr} {mark : Ptr → Bool} (p : Ptr)
    → mark p ≡ true
    → Tracks l mark
    → Tracks (insert_tail (remove p l) p) mark
Tracks-move {l} {mark} p on t =
    Tracks-cong (λ q. ground (arith, on)) (Tracks-insert_tail (Tracks-remove t p) p (ground arith))
