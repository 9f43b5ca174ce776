-- ===== src/RecvBuff/Order.antt =====
-- The order of the segments that wait, under `ooo_insert`.
use qstack.Common.{
  OnSome, ℕ, ◌<◌, ◌≡◌, ◌≢◌, Bool, true, false, ◌&&◌, not, Option, none, some, List, [], ◌∷◌, ◌++◌,
  length, arith, Ptr, null, Bool-cases, inl, inr,
}
use qstack.Mbuf.{Store, MbufList}
use qstack.Mbuf.Chain.{has, last, IsList}
use qstack.RecvBuff.{before, ooo_insert}
use qstack.RecvBuff.Waiting.{in_gap, place, Placed, ooo_insert-Placed}

-- Every segment ends before the next one starts.
abbrev pub Ordered : (Ptr → Ptr → Bool) → List Ptr → Type 0
Ordered fits [] = Unit {0}
Ordered fits (x ∷ []) = Unit {0}
Ordered fits (x ∷ y ∷ xs) = (fits x y ≡ true) × Ordered fits (y ∷ xs)

and-true : {a b : Bool} → (a && b) ≡ true → (a ≡ true) × (b ≡ true)
and-true {a} {b} h = (ground arith, ground arith)

module _ (fits : Ptr → Ptr → Bool) (p : Ptr) where
  append-Ordered :
      (x : Ptr) (xs : List Ptr)
      → Ordered fits (x ∷ xs)
      → fits (last (x ∷ xs)) p ≡ true
      → Ordered fits (x ∷ (xs ++ (p ∷ [])))
  append-Ordered x [] o h = (h, tt)
  append-Ordered x (y ∷ xs) o h = (o.0, append-Ordered y xs o.1 h)

  in_gap-Ordered :
      (z x : Ptr) (xs : List Ptr)
      → Ordered fits (z ∷ x ∷ xs)
      → OnSome (λ ys. Ordered fits (z ∷ ys)) (in_gap fits p (x ∷ xs))
  in_gap-Ordered z x [] o = tt
  in_gap-Ordered z x (y ∷ ys) o = elim (Bool-cases (fits x p && fits p y)) [
    | inl here ↦ let (a, b) = and-true here in rw here (o.0, (a, (b, o.1.1)))
    | inr further ↦ rw further (
        elim (in_gap fits p (y ∷ ys))
            as (λ (r : Option (List Ptr)).
              OnSome (λ l. Ordered fits (x ∷ l)) r
              → OnSome (λ l. Ordered fits (z ∷ l))
                  (elim r [ none ↦ none | some l ↦ some (x ∷ l) ])) [
                    | none ↦ λ h. tt
                    | some l ↦ λ h. (o.0, h)
                  ]
          (in_gap-Ordered x y ys o.1))
  ]

  place-Ordered :
      (x : Ptr) (xs : List Ptr)
      → Ordered fits (x ∷ xs)
      → OnSome (Ordered fits) (place fits p (x ∷ xs))
  place-Ordered x xs o = elim (Bool-cases (fits (last (x ∷ xs)) p)) [
    | inl behind ↦ rw behind (append-Ordered x xs o behind)
    | inr inside ↦ rw inside (gap x xs o)
  ]
    where
      gap :
          (x : Ptr) (xs : List Ptr)
          → Ordered fits (x ∷ xs)
          → OnSome (Ordered fits) (in_gap fits p (x ∷ xs))
      gap x [] o = tt
      gap x (y ∷ ys) o = elim (Bool-cases (fits x p && fits p y)) [
        | inl here ↦ let (a, b) = and-true here in rw here (a, (b, o.1))
        | inr further ↦ rw further (
            elim (in_gap fits p (y ∷ ys))
                as (λ (r : Option (List Ptr)).
                  OnSome (λ l. Ordered fits (x ∷ l)) r
                  → OnSome (Ordered fits) (elim r [ none ↦ none | some l ↦ some (x ∷ l) ])) [
                    | none ↦ λ h. tt
                    | some l ↦ λ h. h
                  ]
              (in_gap-Ordered x y ys o))
      ]

-- A waiting list, not empty, in which every segment ends before the next one starts is one behind
-- `ooo_insert` too, which returns on more fuel than the list is long, whether it finds a place or
-- not: for a segment that is not NULL, not on the list, and does not end before the first one
-- unless it starts behind the last one.
pub ooo_insert-Ordered :
    (fuel : ℕ) (s : Store) (l : MbufList) (x : Ptr) (xs : List Ptr) (p : Ptr)
    → IsList s l (x ∷ xs)
    → Ordered (before s) (x ∷ xs)
    → has p (x ∷ xs) ≡ false
    → p ≢ null
    → (before s p x && not (before s (last (x ∷ xs)) p)) ≡ false
    → length (x ∷ xs) < fuel
    → (r : ℕ × MbufList × Store) × (ys : List Ptr) × (ooo_insert fuel l p s ≡ some r)
      × IsList r.2 r.1 ys
      × Ordered (before s) ys
ooo_insert-Ordered fuel s l x xs p v o out ne later f =
    let (r, ran, placed) = ooo_insert-Placed fuel s l x xs p v out ne later f in
    let (ys, w, q) =
      elim (place (before s) p (x ∷ xs))
          as (λ (c : Option (List Ptr)).
            Placed s l [] c r
            → OnSome (Ordered (before s)) c
            → (ys : List Ptr) × IsList r.2 r.1 ys × Ordered (before s) ys) [
              | none ↦ λ h c. (x ∷ xs, rw (h.1, h.2) v, o)
              | some ys ↦ λ h c. (ys, h.1, c)
            ]
        placed (place-Ordered (before s) p x xs o) in
    (r, ys, ran, w, q)
