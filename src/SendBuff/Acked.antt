-- ===== src/SendBuff/Acked.antt =====
-- What an acknowledgement removes from the send buffer.
use qstack.Common.{
  ℕ, zero, suc, ◌+◌, ◌<◌, ◌≡◌, ◌≢◌, refl, sym, ap, ap₂, ◌∙◌, subst, subst₂, Bool, true, false, ◌&&◌,
  not, some, List, [], ◌∷◌, ◌++◌, ◌==◌, if◌then◌else◌, length, u32, arith, Ptr, null, Bool-cases,
  inl, inr,
}
use qstack.Seq.{seq_leq}
use qstack.Mbuf.{Store, MbufList, mbuf_list_pop}
use qstack.Mbuf.Chain.{
  has, Chain, Chain-frame, IsList, nexts, seqs, lens, SameData, SameData-refl, SameData-trans,
}
use qstack.Mbuf.Ops.{
  mbuf_list_pop-frame, pop-IsList, mbuf_list_pop-SameData, mbuf_list_pop-released, Freed,
  mbuf_free-Freed, after_free,
}
use qstack.SendBuff.{SendBuff, acked_loop, sb_remove_acked}
use qstack.Cirq.{success}

module _ (seq len : Ptr → ℕ) where
  -- The sequence number behind a segment, and whether an acknowledgement covers all of it.
  abbrev pub seq_end : Ptr → ℕ
  seq_end p = u32 (seq p + len p)

  abbrev pub covered : ℕ → Ptr → Bool
  covered ack p = seq_leq (seq_end p) ack

  -- The longest covered prefix, and the rest.
  abbrev pub acked : ℕ → List Ptr → List Ptr
  acked ack [] = []
  acked ack (x ∷ xs) = if covered ack x then x ∷ acked ack xs else []

  abbrev pub unacked : ℕ → List Ptr → List Ptr
  unacked ack [] = []
  unacked ack (x ∷ xs) = if covered ack x then unacked ack xs else x ∷ xs

  -- The sequence number behind a run of segments that starts at `h`.
  abbrev pub behind : ℕ → List Ptr → ℕ
  behind h [] = h
  behind h (x ∷ xs) = behind (u32 (h + len x)) xs

  -- The segments lie without gaps from `h` on.
  abbrev pub Contiguous : ℕ → List Ptr → Type 0
  Contiguous h [] = Unit {0}
  Contiguous h (x ∷ xs) = (seq x ≡ h) × Contiguous (u32 (h + len x)) xs

  pub acked-append-unacked : (ack : ℕ) (xs : List Ptr) → acked ack xs ++ unacked ack xs ≡ xs
  acked-append-unacked ack [] = refl
  acked-append-unacked ack (x ∷ xs) = ground (arith, acked-append-unacked ack xs)

  pub Contiguous-unacked :
      (ack h : ℕ) (xs : List Ptr)
      → Contiguous h xs
      → Contiguous (behind h (acked ack xs)) (unacked ack xs)
  Contiguous-unacked ack h [] c = tt
  Contiguous-unacked ack h (x ∷ xs) c = elim (Bool-cases (covered ack x)) [
    | inl yes_ ↦ rw yes_ (Contiguous-unacked ack (u32 (h + len x)) xs c.1)
    | inr no_ ↦ rw no_ c
  ]

-- Pointers given back one after the other.
abbrev pub push_all : List Ptr → List Ptr → List Ptr
push_all [] out = out
push_all (x ∷ xs) out = push_all xs (x ∷ out)

-- What a loop over the list `xs` leaves: the list of the segments not covered, `head_seq` behind
-- those that were, and those given back to the driver, in order.
pub record Trimmed (s : Store) (ack h : ℕ) (xs : List Ptr) (l' : MbufList) (h' : ℕ) (s' : Store)
    : Type 0 where
  pub left : IsList s' l' (unacked (seqs s) (lens s) ack xs)
  pub head : h' ≡ behind (seqs s) (lens s) h (acked (seqs s) (lens s) ack xs)
  pub released : s'.released ≡ push_all (acked (seqs s) (lens s) ack xs) s.released
  pub payloads : SameData s s'
  pub frame : (q : Ptr) → has q xs ≡ false → nexts s' q ≡ nexts s q

Trims : ℕ → Store → ℕ → ℕ → List Ptr → MbufList → Type 0
Trims fuel s ack h xs l =
    (l' : MbufList) × (h' : ℕ) × (s' : Store) × (acked_loop fuel ack l h s ≡ some (l', h', s'))
    × Trimmed s ack h xs l' h' s'

stops :
    (fuel : ℕ) (s : Store) (ack h : ℕ) (x : Ptr) (xs : List Ptr) (l : MbufList)
    → IsList s l (x ∷ xs)
    → covered (seqs s) (lens s) ack x ≡ false
    → Trims (suc fuel) s ack h (x ∷ xs) l
unfolding Trims acked_loop
stops fuel s ack h x xs l v no_ =
    let test : (not (l.head == null) && covered (seqs s) (lens s) ack l.head) ≡ false =
      subst (λ (p : Ptr). (not (p == null) && covered (seqs s) (lens s) ack p) ≡ false)
        (sym v.chain.0) (rw no_ (ground arith)) in
    (
      l,
      h,
      s,
      rw test,
      record {
        left = rw no_ v;
        head = rw no_;
        released = rw no_;
        payloads = SameData-refl s;
        frame = λ q o. refl;
      },
    )

-- The same list behind the removal of its first segment.
module _ (s : Store) (x : Ptr) (xs : List Ptr) (l : MbufList) (v : IsList s l (x ∷ xs)) where
  abbrev popped : Store
  popped = (mbuf_list_pop l s).2

  abbrev freed : Store
  freed = after_free l.head popped

  head-ne : l.head ≢ null
  head-ne e = v.chain.1 (sym v.chain.0 ∙ e)

  data_kept : SameData s freed
  data_kept =
      SameData-trans (mbuf_list_pop-SameData l s)
        (Freed.payloads (mbuf_free-Freed l.head popped head-ne))

  rest-IsList : IsList freed (mbuf_list_pop l s).1 xs
  rest-IsList =
      let after_pop = (pop-IsList s l x xs v).1 in
      let links = (mbuf_free-Freed l.head popped head-ne).links in
      record {
        chain = subst (λ n. Chain n (mbuf_list_pop l s).1.head xs) (sym links) after_pop.chain;
        end = after_pop.end;
      }

  acked_loop-Trims :
      (fuel ack h : ℕ)
      → covered (seqs s) (lens s) ack x ≡ true
      → Trims fuel freed ack (u32 (h + lens s x)) xs (mbuf_list_pop l s).1
      → Trims (suc fuel) s ack h (x ∷ xs) l
  unfolding Trims acked_loop
  acked_loop-Trims fuel ack h cov (l', h', s', ran, t) =
      let d = data_kept in
      let test : (not (l.head == null) && covered (seqs s) (lens s) ack l.head) ≡ true =
        subst (λ (p : Ptr). (not (p == null) && covered (seqs s) (lens s) ack p) ≡ true)
          (sym v.chain.0) (rw cov (ground arith)) in
      let free_ran = (mbuf_free-Freed l.head popped head-ne).ran in
      let same_h : u32 (h + lens s l.head) ≡ u32 (h + lens s x) =
        ap (λ (p : Ptr). u32 (h + lens s p)) v.chain.0 in
      let left : IsList s' l' (unacked (seqs s) (lens s) ack xs) =
        subst₂ (λ sq ln. IsList s' l' (unacked sq ln ack xs)) d.same_seqs d.same_lens t.left in
      let head : h'
          ≡ behind (seqs s) (lens s) (u32 (h + lens s x)) (acked (seqs s) (lens s) ack xs) =
        subst₂ (λ sq ln. h' ≡ behind sq ln (u32 (h + lens s x)) (acked sq ln ack xs)) d.same_seqs
          d.same_lens t.head in
      let released : s'.released ≡ push_all (acked (seqs s) (lens s) ack xs) (x ∷ s.released) =
        subst₂ (λ sq ln. s'.released ≡ push_all (acked sq ln ack xs) (l.head ∷ popped.released))
          d.same_seqs d.same_lens t.released
        ∙ ap₂ (λ (p : Ptr) (out : List Ptr). push_all (acked (seqs s) (lens s) ack xs) (p ∷ out))
            v.chain.0 (mbuf_list_pop-released l s) in
      let ran_here =
        subst (λ (k : ℕ). acked_loop fuel ack (mbuf_list_pop l s).1 k freed ≡ some (l', h', s'))
          (sym same_h) ran in
      (
        l',
        h',
        s',
        rw (test, free_ran) ran_here,
        record {
          left = rw cov left;
          head = rw cov head;
          released = rw cov released;
          payloads = SameData-trans d t.payloads;
          frame = λ q out.
              t.frame q (ground arith)
              ∙ ap (λ (n : Ptr → Ptr). n q) (Freed.links (mbuf_free-Freed l.head popped head-ne))
              ∙ mbuf_list_pop-frame l s q (λ e. ground (arith, v.chain.0));
        },
      )

acked_loop_lem :
    (fuel : ℕ) (s : Store) (ack h : ℕ) (xs : List Ptr) (l : MbufList)
    → IsList s l xs
    → length xs < fuel
    → Trims fuel s ack h xs l
unfolding Trims acked_loop
acked_loop_lem zero s ack h xs l v lt = absurd (omega arith)
acked_loop_lem (suc fuel) s ack h [] l v lt = (
  l,
  h,
  s,
  ground arith,
  record {
    left = v;
    head = refl;
    released = refl;
    payloads = SameData-refl s;
    frame = λ q o. refl;
  },
)
acked_loop_lem (suc fuel) s ack h (x ∷ xs) l v lt =
    elim (Bool-cases (covered (seqs s) (lens s) ack x)) [
      | inl cov ↦ acked_loop-Trims s x xs l v fuel ack h cov (
          acked_loop_lem fuel (freed s x xs l v) ack (u32 (h + lens s x)) xs (mbuf_list_pop l s).1
            (rest-IsList s x xs l v) (omega arith))
      | inr no_ ↦ stops fuel s ack h x xs l v no_
    ]

-- No buffer is on both lists.
abbrev pub Disjoint : List Ptr → List Ptr → Type 0
Disjoint us rs = (q : Ptr) → has q us ≡ true → has q rs ≡ false

-- The send buffer behind the acknowledgement `ack`.
pub record Removed (b : SendBuff) (ack : ℕ) (s : Store) (us rs : List Ptr) (b' : SendBuff)
    (s' : Store) : Type 0 where
  pub uack : IsList s' b'.uack_list (unacked (seqs s) (lens s) ack us)
  pub retrans : IsList s' b'.retrans_list (unacked (seqs s) (lens s) ack rs)
  pub head :
      b'.head_seq
      ≡ behind
          (seqs s)
          (lens s)
          (behind (seqs s) (lens s) b.head_seq (acked (seqs s) (lens s) ack us))
          (acked (seqs s) (lens s) ack rs)
  pub released :
      s'.released
      ≡ push_all
          (acked (seqs s) (lens s) ack rs)
          (push_all (acked (seqs s) (lens s) ack us) s.released)
  pub payloads : SameData s s'
  pub rest : b' ≡ record b {
    uack_list = b'.uack_list;
    retrans_list = b'.retrans_list;
    head_seq = b'.head_seq;
  }

has-unacked :
    (seq len : Ptr → ℕ) (ack : ℕ) (xs : List Ptr) (q : Ptr)
    → has q (unacked seq len ack xs) ≡ true
    → has q xs ≡ true
has-unacked seq len ack [] q h = h
has-unacked seq len ack (x ∷ xs) q h = ground (arith, has-unacked seq len ack xs q)

not_both : (us rs : List Ptr) (q : Ptr) → Disjoint us rs → has q rs ≡ true → has q us ≡ false
not_both us rs q apart i = elim (Bool-cases (has q us)) [ inl j ↦ cc (apart q j) | inr out ↦ out ]

IsList-frame :
    (s s' : Store) (l : MbufList) (xs : List Ptr)
    → ((q : Ptr) → has q xs ≡ true → nexts s' q ≡ nexts s q)
    → IsList s l xs
    → IsList s' l xs
IsList-frame s s' l xs same v = record {
  chain = Chain-frame (nexts s) (nexts s') l.head xs same v.chain;
  end = v.end;
}

-- `sb_remove_acked` ends with SUCCESS if the two lists are sound, share no buffer and are shorter
-- than the fuel. Each list then holds what was behind its longest prefix of segments that `ack`
-- covers, these segments have gone back to the driver in order, and `head_seq` has moved on by
-- their lengths; no payload, queue or other field changes.
pub sb_remove_acked_lem :
    (fuel : ℕ) (b : SendBuff) (ack : ℕ) (s : Store) (us rs : List Ptr)
    → IsList s b.uack_list us
    → IsList s b.retrans_list rs
    → Disjoint us rs
    → length us < fuel
    → length rs < fuel
    → (b' : SendBuff) × (s' : Store) × (sb_remove_acked fuel b ack s ≡ some (success, b', s'))
      × Removed b ack s us rs b' s'
unfolding sb_remove_acked Trims
sb_remove_acked_lem fuel b ack s us rs v w apart f g =
    let (l1, h1, s1, ran1, t1) = acked_loop_lem fuel s ack b.head_seq us b.uack_list v f in
    let w1 = IsList-frame s s1 b.retrans_list rs (λ q i. t1.frame q (not_both us rs q apart i)) w in
    let (l2, h2, s2, ran2, t2) = acked_loop_lem fuel s1 ack h1 rs b.retrans_list w1 g in
    (
      record b { uack_list = l1; retrans_list = l2; head_seq = h2 },
      s2,
      rw (ran1, ran2),
      record {
        uack =
            IsList-frame s1 s2 l1 (unacked (seqs s) (lens s) ack us)
              (λ q i. t2.frame q (apart q (has-unacked (seqs s) (lens s) ack us q i))) t1.left;
        retrans =
            subst₂ (λ sq ln. IsList s2 l2 (unacked sq ln ack rs)) t1.payloads.same_seqs
              t1.payloads.same_lens t2.left;
        head =
            subst (λ (h : ℕ). h2 ≡ behind (seqs s) (lens s) h (acked (seqs s) (lens s) ack rs))
              t1.head
              (subst₂ (λ sq ln. h2 ≡ behind sq ln h1 (acked sq ln ack rs)) t1.payloads.same_seqs
                t1.payloads.same_lens t2.head);
        released =
            subst₂ (λ sq ln. s2.released ≡ push_all (acked sq ln ack rs) s1.released)
              t1.payloads.same_seqs t1.payloads.same_lens t2.released
            ∙ ap (push_all (acked (seqs s) (lens s) ack rs)) t1.released;
        payloads = SameData-trans t1.payloads t2.payloads;
        rest = refl;
      },
    )
