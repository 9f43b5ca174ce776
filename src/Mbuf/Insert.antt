-- ===== src/Mbuf/Insert.antt =====
-- `mbuf_list_insert` of qstack/src/include/mbuf.h between two buffers of a list.
use qstack.Common.{
  ◌≡◌, ◌≢◌, refl, sym, ◌∙◌, ap, subst, true, false, List, [], ◌∷◌, ◌++◌, ◌==◌, arith, Ptr, null,
  update,
}
use qstack.Mbuf.{Store, MbufList, set_next, mbuf_list_insert}
use qstack.Mbuf.Chain.{has, last, nexts, Chain, Chain-update, IsList, nexts-set_next}

has-append_insert :
    (q : Ptr) (pre : List Ptr) (b1 b2 : Ptr) (post : List Ptr)
    → has q (pre ++ (b1 ∷ post)) ≡ false
    → (q == b2) ≡ false
    → has q (pre ++ (b1 ∷ b2 ∷ post)) ≡ false
has-append_insert q [] b1 b2 post h ne = ground arith
has-append_insert q (x ∷ pre) b1 b2 post h ne =
    ground (arith, has-append_insert q pre b1 b2 post (ground (arith, h)) ne)

has-append_at :
    (q : Ptr) (pre : List Ptr) (b1 : Ptr) (post : List Ptr)
    → has q (pre ++ (b1 ∷ post)) ≡ false
    → (q == b1) ≡ false
has-append_at q [] b1 post h = ground arith
has-append_at q (x ∷ pre) b1 post h = has-append_at q pre b1 post (ground arith)

-- A buffer linked in behind one of the chain.
Chain-insert :
    (next : Ptr → Ptr) (h : Ptr) (pre : List Ptr) (b1 : Ptr) (post : List Ptr) (b2 : Ptr)
    → Chain next h (pre ++ (b1 ∷ post))
    → has b2 (pre ++ (b1 ∷ post)) ≡ false
    → b2 ≢ null
    → Chain (update (update next b2 (next b1)) b1 b2) h (pre ++ (b1 ∷ b2 ∷ post))
Chain-insert next h [] b1 post b2 c out ne =
    let self : (b1 == b1) ≡ true = ground arith in
    let apart : (b2 == b1) ≡ false = ground arith in
    let self2 : (b2 == b2) ≡ true = ground arith in
    let link1 : update (update next b2 (next b1)) b1 b2 b1 ≡ b2 = rw self refl in
    let link2 : update (update next b2 (next b1)) b1 b2 b2 ≡ next b1 = rw (apart, self2) refl in
    let n' = update (update next b2 (next b1)) b1 b2 in
    let rest : Chain n' (next b1) post =
      Chain-update (update next b2 (next b1)) (next b1) post b1 b2 c.2
        (Chain-update next (next b1) post b2 (next b1) (ground arith) c.3) in
    (
      c.0,
      c.1,
      ground (arith, c.2),
      (link1, ne, ground arith, subst (λ p. Chain n' p post) (sym link2) rest),
    )
Chain-insert next h (x ∷ pre) b1 post b2 c out ne =
    let n' = update (update next b2 (next b1)) b1 b2 in
    let off1 : (x == b1) ≡ false = has-append_at x pre b1 post c.2 in
    let off2 : (x == b2) ≡ false = ground arith in
    let link : n' x ≡ next x = rw (off1, off2) refl in
    let rest = Chain-insert next (next x) pre b1 post b2 c.3 (ground arith) ne in
    (
      c.0,
      c.1,
      has-append_insert x pre b1 b2 post c.2 off2,
      subst (λ p. Chain n' p (pre ++ (b1 ∷ b2 ∷ post))) (sym link) rest,
    )

last-append : (pre : List Ptr) (y : Ptr) (ys : List Ptr) → last (pre ++ (y ∷ ys)) ≡ last (y ∷ ys)
last-append [] y ys = refl
last-append (x ∷ []) y ys = refl
last-append (x ∷ z ∷ pre) y ys = last-append (z ∷ pre) y ys

-- `mbuf_list_insert` between two buffers.
pub insert-IsList :
    (s : Store) (l : MbufList) (pre : List Ptr) (b1 y : Ptr) (post : List Ptr) (b2 : Ptr)
    → IsList s l (pre ++ (b1 ∷ y ∷ post))
    → (nexts s b1 ≡ y)
    → y ≢ null
    → has b2 (pre ++ (b1 ∷ y ∷ post)) ≡ false
    → b2 ≢ null
    → let (l', s') = mbuf_list_insert l b1 b2 s in IsList s' l' (pre ++ (b1 ∷ b2 ∷ y ∷ post))
unfolding mbuf_list_insert
insert-IsList s l pre b1 y post b2 v at some_next out ne =
    let held : (nexts s b1 == null) ≡ false = ground arith in
    let links : nexts (set_next (set_next s b2 (nexts s b1)) b1 b2)
        ≡ update (update (nexts s) b2 (nexts s b1)) b1 b2 =
      nexts-set_next (set_next s b2 (nexts s b1)) b1 b2
      ∙ ap (λ (n : Ptr → Ptr). update n b1 b2) (nexts-set_next s b2 (nexts s b1)) in
    let ends : last (pre ++ (b1 ∷ y ∷ post)) ≡ last (pre ++ (b1 ∷ b2 ∷ y ∷ post)) =
      last-append pre b1 (y ∷ post) ∙ sym (last-append pre b1 (b2 ∷ y ∷ post)) in
    rw held (record {
      chain =
          subst (λ n. Chain n l.head (pre ++ (b1 ∷ b2 ∷ y ∷ post))) (sym links)
            (Chain-insert (nexts s) l.head pre b1 (y ∷ post) b2 v.chain out ne);
      end = v.end ∙ ends;
    })
