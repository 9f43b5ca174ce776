-- ===== src/Mbuf/Ops.antt =====
-- The functions on an `mbuf_list` against the list of pointers that it stands for.
use qstack.Common.{
  ◌≡◌, ◌≢◌, refl, sym, subst, true, false, ◌||◌, List, [], ◌∷◌, ◌++◌, ◌==◌, if◌then◌else◌, arith,
  Ptr, null, Bool-cases, inl, inr, update, some,
}
use qstack.Mbuf.{
  MbufState, set_state, mbuf_free, Store, MbufList, set_next, mbuf_list_pop, mbuf_list_append,
  mbuf_list_add_head,
}
use qstack.Mbuf.Chain.{
  has, last, Chain, IsList, Chain-update, Chain-set_next, nexts, nexts-set_next, nexts-set_state,
  SameData, SameData-refl, SameData-set_next, SameData-set_state,
}

pub has-append : (p : Ptr) (xs ys : List Ptr) → has p (xs ++ ys) ≡ (has p xs || has p ys)
has-append p [] ys = refl
has-append p (x ∷ xs) ys = ground (arith, has-append p xs ys)

pub has-last : (x : Ptr) (xs : List Ptr) → has (last (x ∷ xs)) (x ∷ xs) ≡ true
has-last x [] = ground arith
has-last x (y ∷ xs) = ground (arith, has-last y xs)

last-snoc : (xs : List Ptr) (p : Ptr) → last (xs ++ (p ∷ [])) ≡ p
last-snoc [] p = refl
last-snoc (x ∷ []) p = refl
last-snoc (x ∷ y ∷ xs) p = last-snoc (y ∷ xs) p

pub last-ne-null :
    (next : Ptr → Ptr) (h x : Ptr) (xs : List Ptr) → Chain next h (x ∷ xs) → last (x ∷ xs) ≢ null
last-ne-null next h x [] c = c.1
last-ne-null next h x (y ∷ xs) c = last-ne-null next (next x) y xs c.3

-- The last buffer of a chain is linked to a new one.
Chain-snoc :
    (next : Ptr → Ptr) (h x : Ptr) (xs : List Ptr) (p : Ptr)
    → Chain next h (x ∷ xs)
    → has p (x ∷ xs) ≡ false
    → p ≢ null
    → Chain (update (update next (last (x ∷ xs)) p) p null) h (x ∷ xs ++ (p ∷ []))
Chain-snoc next h x [] p c out ne = ground arith
Chain-snoc next h x (y ∷ xs) p c out ne =
    let other : (x == p) ≡ false = ground arith in
    let not_last : (x == last (y ∷ xs)) ≡ false = ground (arith, has-last y xs) in
    (
      c.0,
      c.1,
      ground (arith, has-append x xs (p ∷ [])),
      rw (other, not_last) (Chain-snoc next (next x) y xs p c.3 (ground arith) ne),
    )

-- The field `tail`, by whether the chain is empty.
end-cons :
    (next : Ptr → Ptr) (h : Ptr) (xs : List Ptr) (p tail : Ptr)
    → Chain next h xs
    → tail ≡ last xs
    → (if h == null then p else tail) ≡ last (p ∷ xs)
end-cons next h [] p tail c e = ground arith
end-cons next h (y ∷ xs) p tail c e = ground arith

end-tail :
    (next : Ptr → Ptr) (h : Ptr) (xs : List Ptr) (x tail : Ptr)
    → Chain next h xs
    → tail ≡ last (x ∷ xs)
    → (if h == null then null else tail) ≡ last xs
end-tail next h [] x tail c e = ground arith
end-tail next h (y ∷ xs) x tail c e = ground arith

-- `mbuf_list_append` puts a buffer that is not NULL and not on the list behind its last one.
pub append-IsList :
    (s : Store) (l : MbufList) (xs : List Ptr) (p : Ptr)
    → IsList s l xs
    → has p xs ≡ false
    → p ≢ null
    → let (l', s') = mbuf_list_append l p s in IsList s' l' (xs ++ (p ∷ []))
unfolding mbuf_list_append
append-IsList s l [] p v out ne =
    let empty : (l.tail == null) ≡ true = ground arith in
    rw empty
      (record { chain = rw (nexts-set_next s p null) (refl, ne, refl, ground arith); end = refl })
append-IsList s l (x ∷ xs) p v out ne =
    let some_left : (l.tail == null) ≡ false =
      ground (arith, last-ne-null (nexts s) l.head x xs v.chain) in
    rw (some_left, v.end)
      (record {
        chain =
            let s1 = set_next s (last (x ∷ xs)) p in
            let all = x ∷ xs ++ (p ∷ []) in
            Chain-set_next s1 p null l.head all (
              subst (λ n. Chain (update n p null) l.head all)
                (sym (nexts-set_next s (last (x ∷ xs)) p))
                (Chain-snoc (nexts s) l.head x xs p v.chain out ne));
        end = sym (last-snoc (x ∷ xs) p);
      })

-- `mbuf_list_add_head` puts a buffer that is not NULL and not on the list before its first one.
pub add_head-IsList :
    (s : Store) (l : MbufList) (xs : List Ptr) (p : Ptr)
    → IsList s l xs
    → has p xs ≡ false
    → p ≢ null
    → let (l', s') = mbuf_list_add_head l p s in IsList s' l' (p ∷ xs)
unfolding mbuf_list_add_head
add_head-IsList s l xs p v out ne = record {
  chain =
      let same : (p == p) ≡ true = ground arith in
      Chain-set_next s p l.head p (p ∷ xs)
        (refl, ne, out, rw same (Chain-update (nexts s) l.head xs p l.head out v.chain));
  end = end-cons (nexts s) l.head xs p l.tail v.chain v.end;
}

-- From a list that is not empty `mbuf_list_pop` takes the first buffer off, returns it, and
-- clears its link.
pub pop-IsList :
    (s : Store) (l : MbufList) (x : Ptr) (xs : List Ptr)
    → IsList s l (x ∷ xs)
    → let (p, l', s') = mbuf_list_pop l s in (p ≡ x) × IsList s' l' xs × (nexts s' x ≡ null)
unfolding mbuf_list_pop
pop-IsList s l x xs v =
    let at_x : l.head ≡ x = v.chain.0 in
    let some_left : (x == null) ≡ false = ground arith in
    let same : (x == x) ≡ true = ground arith in
    rw (at_x, some_left)
      (
        refl,
        record {
          chain =
              Chain-set_next s x null (nexts s x) xs
                (Chain-update (nexts s) (nexts s x) xs x null v.chain.2 v.chain.3);
          end = end-tail (nexts s) (nexts s x) xs x l.tail v.chain.3 v.end;
        },
        rw (nexts-set_next s x null, same),
      )

-- An empty list gives NULL and stays as it is.
pub pop-empty : (s : Store) (l : MbufList) → IsList s l [] → mbuf_list_pop l s ≡ (null, l, s)
unfolding mbuf_list_pop
pop-empty s l v = ground arith

pub mbuf_list_pop-SameData : (l : MbufList) (s : Store) → SameData s (mbuf_list_pop l s).2
unfolding mbuf_list_pop
mbuf_list_pop-SameData l s = elim (Bool-cases (l.head == null)) [
  | inl empty ↦ rw empty (SameData-refl s)
  | inr held ↦ rw held (SameData-set_next s l.head null)
]

pub mbuf_list_pop-released :
    (l : MbufList) (s : Store) → (mbuf_list_pop l s).2.released ≡ s.released
unfolding mbuf_list_pop set_next
mbuf_list_pop-released l s = ground arith

-- Freeing a buffer that is not NULL succeeds, changes no link and no payload, and releases it.
pub record Freed (p : Ptr) (s s' : Store) : Type 0 where
  pub ran : mbuf_free p s ≡ some s'
  pub links : nexts s' ≡ nexts s
  pub payloads : SameData s s'
  pub released : s'.released ≡ p ∷ s.released

abbrev pub after_free : Ptr → Store → Store
after_free p s = record (set_state s p MbufState.free) { released = p ∷ s.released }

pub mbuf_free-Freed : (p : Ptr) (s : Store) → p ≢ null → Freed p s (after_free p s)
unfolding mbuf_free
mbuf_free-Freed p s ne =
    let some_buffer : (p == null) ≡ false = ground arith in
    let same = SameData-set_state s p MbufState.free in
    record {
      ran = rw some_buffer;
      links = nexts-set_state s p MbufState.free;
      payloads = record { same_seqs = same.same_seqs; same_lens = same.same_lens };
      released = refl;
    }

pub mbuf_list_pop-frame :
    (l : MbufList) (s : Store) (q : Ptr) → q ≢ l.head → nexts (mbuf_list_pop l s).2 q ≡ nexts s q
unfolding mbuf_list_pop set_next
mbuf_list_pop-frame l s q ne = ground arith
