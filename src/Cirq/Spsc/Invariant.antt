-- ===== src/Cirq/Spsc/Invariant.antt =====
-- What holds between any two shared accesses of the producer and the consumer.
use qstack.Common.{
  ℕ, ◌+◌, ◌<◌, ◌≡◌, ◌≢◌, refl, sym, ◌∙◌, ap, false, List, ◌∷◌, [], ◌++◌, length, get_or, set,
  length-set, set-get_or, get_or-set_self, get_or-set_ne, append_assoc, arith, subst, length-append,
}
use qstack.Cirq.{Cirq, cirq_succ, cirq_full, cirq_empty}
use qstack.Cirq.Fifo.{IsValid, IsBacked, items, succ-mod, length-items}
use qstack.Cirq.Ring.{window-set_outside, succ-cases, used, used-lt, add-used}
use qstack.Cirq.Refine.{items-push, items-pop, advance_head-IsValid, advance_tail-IsValid}
use qstack.Cirq.Spsc.{
  Producer, room, stored, Consumer, ready, loaded, State, Step, add_full, add_room, add_store,
  add_publish, get_empty, get_ready, get_load, get_release, Reach, here, next,
}

-- What the producer knows once it has found room, and the consumer once it has found a word.
abbrev Writes : Cirq → List ℕ → Producer → Type 0
Writes q buf Producer.outside = Unit {0}
Writes q buf (room x) = cirq_full q ≡ false
Writes q buf (stored x) = (cirq_full q ≡ false) × (get_or buf q.head 0 ≡ x)

abbrev Reads : Cirq → List ℕ → Consumer → Type 0
Reads q buf Consumer.outside = Unit {0}
Reads q buf ready = cirq_empty q ≡ false
Reads q buf (loaded x) = (cirq_empty q ≡ false) × (get_or buf q.tail 0 ≡ x)

pub record IsSafe (s : State) : Type 0 where
  pub valid : IsValid s.q
  pub backed : IsBacked s.q s.buf
  pub in_order : s.received ++ items s.buf s.q ≡ s.sent
  pub writes : Writes s.q s.buf s.producer
  pub reads : Reads s.q s.buf s.consumer

module _ (q : Cirq) (buf : List ℕ) (v : IsValid q) (b : IsBacked q buf) where
  open v use {head_in, tail_in}

  -- The producer's store is outside the words held, and leaves the consumer's word alone.
  store_outside : (x : ℕ) → items (set buf q.head x) q ≡ items buf q
  store_outside x =
      window-set_outside 0 buf q.size x (used q.size q.head q.tail) q.tail q.head tail_in
        (used-lt q.size q.head q.tail head_in tail_in)
        (sym (add-used q.size q.head q.tail head_in tail_in))

  store-Reads : (x : ℕ) (c : Consumer) → Reads q buf c → Reads q (set buf q.head x) c
  store-Reads x Consumer.outside r = tt
  store-Reads x ready r = r
  store-Reads x (loaded y) r =
      let ne : q.head ≢ q.tail = λ e. ground arith in
      (r.0, get_or-set_ne buf q.head q.tail x 0 ne ∙ r.1)

  -- Publishing takes no word from the consumer, and none of the producer's room is lost by a release.
  head_moves :
      (c : Consumer)
      → cirq_full q ≡ false
      → Reads q buf c
      → Reads (record q { head = cirq_succ q q.head }) buf c
  head_moves Consumer.outside h r = tt
  head_moves ready h r = h
  head_moves (loaded y) h r = (h, r.1)

  still_room : cirq_empty q ≡ false → cirq_full (record q { tail = cirq_succ q q.tail }) ≡ false
  still_room h = ground (
    arith,
    succ-mod q.head v head_in,
    succ-mod q.tail v tail_in,
    succ-cases q.size q.head head_in,
    succ-cases q.size q.tail tail_in,
  )

  tail_moves :
      (p : Producer)
      → cirq_empty q ≡ false
      → Writes q buf p
      → Writes (record q { tail = cirq_succ q q.tail }) buf p
  tail_moves Producer.outside h w = tt
  tail_moves (room x) h w = still_room h
  tail_moves (stored x) h w = (still_room h, w.1)

publish :
    (q : Cirq) (buf : List ℕ) (x : ℕ)
    → IsValid q
    → IsBacked q buf
    → cirq_full q ≡ false
    → get_or buf q.head 0 ≡ x
    → items buf (record q { head = cirq_succ q q.head }) ≡ items buf q ++ (x ∷ [])
publish q buf x v b h e =
    let same : set buf q.head x ≡ buf = rw (← e) (set-get_or buf q.head 0) in
    subst (λ l. items l (record q { head = cirq_succ q q.head }) ≡ items buf q ++ (x ∷ [])) same
      (items-push v buf x b h)

pub Step-IsSafe : {s t : State} → Step s t → IsSafe s → IsSafe t
Step-IsSafe (add_full e h) i = i
Step-IsSafe (add_room x e h) i = record {
  valid = i.valid;
  backed = i.backed;
  in_order = i.in_order;
  writes = h;
  reads = i.reads;
}
Step-IsSafe {s} (add_store x e) i =
    let w = subst (Writes s.q s.buf) e i.writes in
    record {
      valid = i.valid;
      backed = omega (arith, length-set s.buf s.q.head x, i.backed);
      in_order = rw (store_outside s.q s.buf i.valid i.backed x) i.in_order;
      writes = (w, get_or-set_self s.buf s.q.head x 0 (omega (arith, i.backed, i.valid)));
      reads = store-Reads s.q s.buf i.valid i.backed x s.consumer i.reads;
    }
Step-IsSafe {s} (add_publish x e) i =
    let w = subst (Writes s.q s.buf) e i.writes in
    record {
      valid = advance_head-IsValid i.valid;
      backed = i.backed;
      in_order = rw (publish s.q s.buf x i.valid i.backed w.0 w.1, ← append_assoc, i.in_order);
      writes = tt;
      reads = head_moves s.q s.buf i.valid i.backed s.consumer w.0 i.reads;
    }
Step-IsSafe (get_empty e h) i = i
Step-IsSafe (get_ready e h) i = record {
  valid = i.valid;
  backed = i.backed;
  in_order = i.in_order;
  writes = i.writes;
  reads = h;
}
Step-IsSafe {s} (get_load e) i =
    let r = subst (Reads s.q s.buf) e i.reads in
    record {
      valid = i.valid;
      backed = i.backed;
      in_order = i.in_order;
      writes = i.writes;
      reads = (r, refl);
    }
Step-IsSafe {s} (get_release x e) i =
    let r = subst (Reads s.q s.buf) e i.reads in
    let rest = items s.buf (record (s.q) { tail = cirq_succ s.q s.q.tail }) in
    record {
      valid = advance_tail-IsValid i.valid;
      backed = i.backed;
      in_order =
          append_assoc s.received (x ∷ []) rest
          ∙ ap (λ l. s.received ++ l) (sym (items-pop i.valid s.buf r.0 ∙ ap (λ y. y ∷ rest) r.1))
          ∙ i.in_order;
      writes = tail_moves s.q s.buf i.valid i.backed s.producer r.0 i.writes;
      reads = tt;
    }

pub Reach-IsSafe : {s t : State} → IsSafe s → Reach s t → IsSafe t
Reach-IsSafe i here = i
Reach-IsSafe i (next r st) = Step-IsSafe st (Reach-IsSafe i r)

-- However the shared accesses of one producer and one consumer interleave, started from a safe
-- state: the words returned, then the words in the queue, are exactly the words accepted, in
-- order; and at most `size - 1` accepted words are not yet returned.
pub fifo_any_interleaving :
    {s t : State}
    → IsSafe s
    → Reach s t
    → (t.received ++ items t.buf t.q ≡ t.sent) × (length t.sent < length t.received + t.q.size)
fifo_any_interleaving {s} {t} i r =
    let j = Reach-IsSafe i r in
    (
      j.in_order,
      omega (
        arith,
        ap length j.in_order,
        length-append t.received (items t.buf t.q),
        length-items t.buf t.q,
        used-lt t.q.size t.q.head t.q.tail j.valid.head_in j.valid.tail_in,
      ),
    )
