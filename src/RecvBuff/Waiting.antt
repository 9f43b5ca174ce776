-- ===== src/RecvBuff/Waiting.antt =====
-- Where `ooo_insert` puts a segment on the list of those that wait.
use qstack.Common.{
  ℕ, zero, suc, ◌<◌, ◌≡◌, ◌≢◌, refl, sym, subst, Bool, true, false, ◌&&◌, not, Option, none, some,
  List, [], ◌∷◌, ◌++◌, ◌==◌, if◌then◌else◌, length, arith, Ptr, null, Bool-cases, inl, inr,
  append_assoc,
}
use qstack.Mbuf.{Store, MbufList, mbuf_list_insert, mbuf_list_append}
use qstack.Mbuf.Chain.{has, last, nexts, Chain, IsList}
use qstack.Mbuf.Ops.{append-IsList}
use qstack.RecvBuff.{before, ooo_loop, ooo_insert, inserted_ok, inserted_failed}
use qstack.Mbuf.Insert.{insert-IsList}

module _ (fits : Ptr → Ptr → Bool) (p : Ptr) where
  -- The list with `p` in its first gap that fits, and in its place: at the end, or in a gap.
  abbrev pub in_gap : List Ptr → Option (List Ptr)
  in_gap [] = none
  in_gap (x ∷ []) = none
  in_gap (x ∷ y ∷ xs) =
      if fits x p && fits p y
      then some (x ∷ p ∷ y ∷ xs)
      else elim (in_gap (y ∷ xs)) [ none ↦ none | some l ↦ some (x ∷ l) ]

  abbrev pub place : List Ptr → Option (List Ptr)
  place xs = if fits (last xs) p then some (xs ++ (p ∷ [])) else in_gap xs

-- 254 with nothing changed, or SUCCESS with the list given, behind `pre`.
abbrev pub Placed : Store → MbufList → List Ptr → Option (List Ptr) → ℕ × MbufList × Store → Type 0
Placed s l pre none (r, l', s') = (r ≡ inserted_failed) × (l' ≡ l) × (s' ≡ s)
Placed s l pre (some ys) (r, l', s') = (r ≡ inserted_ok) × IsList s' l' (pre ++ ys)

Chain-suffix :
    (next : Ptr → Ptr) (h : Ptr) (pre : List Ptr) (x : Ptr) (rest : List Ptr)
    → Chain next h (pre ++ (x ∷ rest))
    → Chain next (next x) rest
Chain-suffix next h [] x rest c = c.3
Chain-suffix next h (y ∷ pre) x rest c = Chain-suffix next (next y) pre x rest c.3

Placed-shift :
    (s : Store) (l : MbufList) (pre : List Ptr) (x : Ptr) (o : Option (List Ptr))
    (r : ℕ × MbufList × Store)
    → Placed s l (pre ++ (x ∷ [])) o r
    → Placed s l pre (elim o [ none ↦ none | some ys ↦ some (x ∷ ys) ]) r
Placed-shift s l pre x none r h = h
Placed-shift s l pre x (some ys) (r, l', s') h =
    (h.0, subst (IsList s' l') (append_assoc pre (x ∷ []) ys) h.1)

ooo_loop-Placed :
    (fuel : ℕ) (s : Store) (l : MbufList) (pre : List Ptr) (x : Ptr) (rest : List Ptr) (p : Ptr)
    → IsList s l (pre ++ (x ∷ rest))
    → has p (pre ++ (x ∷ rest)) ≡ false
    → p ≢ null
    → length rest < fuel
    → (r : ℕ × MbufList × Store) × (ooo_loop fuel l x p s ≡ some r)
      × Placed s l pre (in_gap (before s) p (x ∷ rest)) r
unfolding ooo_loop
ooo_loop-Placed zero s l pre x rest p v out ne f = absurd (omega (arith, f))
ooo_loop-Placed (suc fuel) s l pre x [] p v out ne f =
    let at : nexts s x ≡ null = Chain-suffix (nexts s) l.head pre x [] v.chain in
    ((inserted_failed, l, s), rw at refl, (refl, refl, refl))
ooo_loop-Placed (suc fuel) s l pre x (y ∷ ys) p v out ne f =
    let c = Chain-suffix (nexts s) l.head pre x (y ∷ ys) v.chain in
    let at : nexts s x ≡ y = c.0 in
    let held : (y == null) ≡ false = ground (arith, c.1) in
    elim (Bool-cases (before s x p && before s p y)) [
      | inl here ↦ (
        (inserted_ok, (mbuf_list_insert l x p s).0, (mbuf_list_insert l x p s).1),
        rw (at, held, here) refl,
        rw here (refl, insert-IsList s l pre x y ys p v at c.1 out ne),
      )
      | inr further ↦
          let move = sym (append_assoc pre (x ∷ []) (y ∷ ys)) in
          let (r, ran, placed) =
            ooo_loop-Placed fuel s l (pre ++ (x ∷ [])) y ys p (subst (IsList s l) move v)
              (subst (λ xs. has p xs ≡ false) move out) ne (omega (arith, f)) in
          (
            r,
            rw (at, held, further) ran,
            rw further (Placed-shift s l pre x (in_gap (before s) p (y ∷ ys)) r placed),
          )
    ]

-- For a waiting list that is not empty and a segment that is not NULL, not on the list, and does
-- not end before the first one unless it starts behind the last one: with more fuel than the list
-- is long, `ooo_insert` puts it at the end if it starts behind the last one, else into the first
-- gap that it fits into, and returns SUCCESS; if there is none it changes nothing and returns 254,
-- which is what the `uint8_t` of its status keeps of FAILED.
pub ooo_insert-Placed :
    (fuel : ℕ) (s : Store) (l : MbufList) (x : Ptr) (xs : List Ptr) (p : Ptr)
    → IsList s l (x ∷ xs)
    → has p (x ∷ xs) ≡ false
    → p ≢ null
    → (before s p x && not (before s (last (x ∷ xs)) p)) ≡ false
    → length (x ∷ xs) < fuel
    → (r : ℕ × MbufList × Store) × (ooo_insert fuel l p s ≡ some r)
      × Placed s l [] (place (before s) p (x ∷ xs)) r
unfolding ooo_insert
ooo_insert-Placed fuel s l x xs p v out ne later f =
    let at : l.head ≡ x = v.chain.0 in
    let held : (l.head == null) ≡ false = ground (arith, v.chain) in
    elim (Bool-cases (before s (last (x ∷ xs)) p)) [
      | inl behind ↦
          let at_end : before s l.tail p ≡ true =
            subst (λ q. before s q p ≡ true) (sym v.end) behind in
          (
            (inserted_ok, (mbuf_list_append l p s).0, (mbuf_list_append l p s).1),
            rw (held, at_end) refl,
            rw behind (refl, append-IsList s l (x ∷ xs) p v out ne),
          )
      | inr inside ↦
          let not_end : before s l.tail p ≡ false =
            subst (λ q. before s q p ≡ false) (sym v.end) inside in
          let not_front : before s p l.head ≡ false =
            subst (λ q. before s p q ≡ false) (sym at) (ground (arith, later, inside)) in
          let (r, ran, placed) = ooo_loop-Placed fuel s l [] x xs p v out ne (omega (arith, f)) in
          (
            r,
            rw (held, not_end, not_front)
                (subst (λ q. ooo_loop fuel l q p s ≡ some r) (sym at) ran),
            rw inside placed,
          )
    ]
