-- ===== src/SendBuff/Resend.antt =====
-- What `sb_reset_retrans` does to the packets that have not been acknowledged.
use qstack.Common.{
  ℕ, zero, suc, ◌<◌, ◌≡◌, refl, sym, ◌∙◌, subst, true, false, some, none, List, [], ◌∷◌, ◌==◌,
  if◌then◌else◌, length, arith, Ptr, null,
}
use qstack.Mbuf.{MbufState, Store, set_state, mbuf_list_init}
use qstack.Mbuf.Chain.{
  has, Chain, IsList, nexts, nexts-set_state, SameData, SameData-refl, SameData-trans,
  SameData-set_state,
}
use qstack.SendBuff.{SendBuff, loss_loop, sb_reset_retrans}

abbrev pub states : Store → Ptr → MbufState
states s p = (s.cell p).mbuf_state

-- The packets `xs` are marked as lost, and nothing else is changed.
pub record Lost (s : Store) (xs : List Ptr) (s' : Store) : Type 0 where
  pub links : nexts s' ≡ nexts s
  pub data_ : SameData s s'
  pub released : s'.released ≡ s.released
  pub marked : (q : Ptr) → states s' q ≡ (if has q xs then MbufState.loss else states s q)

-- One packet more at the front.
Lost-cons :
    (s s' : Store) (x : Ptr) (xs : List Ptr)
    → Lost (set_state s x MbufState.loss) xs s'
    → Lost s (x ∷ xs) s'
unfolding set_state
Lost-cons s s' x xs k = record {
  links = k.links ∙ nexts-set_state s x MbufState.loss;
  data_ = SameData-trans (SameData-set_state s x MbufState.loss) k.data_;
  released = k.released;
  marked = λ q. k.marked q ∙ ground arith;
}

abbrev Marks : ℕ → Store → List Ptr → Ptr → Type 0
Marks fuel s xs p = (s' : Store) × (loss_loop fuel p s ≡ some s') × Lost s xs s'

loss_loop_lem :
    (fuel : ℕ) (s : Store) (xs : List Ptr) (p : Ptr)
    → Chain (nexts s) p xs
    → length xs < fuel
    → Marks fuel s xs p
unfolding loss_loop
loss_loop_lem zero s xs p c lt = absurd (omega arith)
loss_loop_lem (suc fuel) s [] p c lt =
    let stop : (p == null) ≡ true = ground arith in
    (
      s,
      rw stop refl,
      record { links = refl; data_ = SameData-refl s; released = refl; marked = λ q. refl },
    )
loss_loop_lem (suc fuel) s (x ∷ xs) p (e, ne, out, rest) lt =
    subst (Marks (suc fuel) s (x ∷ xs)) (sym e) (
      let s1 = set_state s x MbufState.loss in
      let go : (x == null) ≡ false = ground arith in
      let chain1 : Chain (nexts s1) (nexts s1 x) xs =
        subst (λ (n : Ptr → Ptr). Chain n (n x) xs) (sym (nexts-set_state s x MbufState.loss))
          rest in
      let (s', ran, k) = loss_loop_lem fuel s1 xs (nexts s1 x) chain1 (omega arith) in
      (s', rw go ran, Lost-cons s s' x xs k))

-- If packets `us` have been sent and none is to be sent again, `sb_reset_retrans` returns, and these
-- packets are now to be sent again, in their order and marked as lost; none counts as sent.
pub sb_reset_retrans_lem :
    (fuel : ℕ) (b : SendBuff) (s : Store) (u : Ptr) (us : List Ptr)
    → IsList s b.uack_list (u ∷ us)
    → b.retrans_list.head ≡ null
    → length (u ∷ us) < fuel
    → (b' : SendBuff) × (s' : Store) × (sb_reset_retrans fuel b s ≡ some (none, b', s'))
      × IsList s' b'.retrans_list (u ∷ us)
      × IsList s' b'.uack_list []
      × Lost s (u ∷ us) s'
      × (b' ≡ record b { uack_list = b'.uack_list; retrans_list = b'.retrans_list })
unfolding sb_reset_retrans mbuf_list_init
sb_reset_retrans_lem fuel b s u us v none_ lt =
    let (s', ran, k) = loss_loop_lem fuel s (u ∷ us) b.uack_list.head v.chain lt in
    let sent : (b.uack_list.head == null) ≡ false = ground (arith, v.chain.0, v.chain.1) in
    let clear : (b.retrans_list.head == null) ≡ true = ground arith in
    (
      record b { retrans_list = b.uack_list; uack_list = mbuf_list_init },
      s',
      rw (sent, clear, ran) refl,
      record {
        chain = subst (λ n. Chain n b.uack_list.head (u ∷ us)) (sym k.links) v.chain;
        end = v.end;
      },
      record { chain = refl; end = refl },
      k,
      refl,
    )
