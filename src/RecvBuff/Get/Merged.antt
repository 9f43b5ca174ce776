-- ===== src/RecvBuff/Get/Merged.antt =====
-- Which packet the application reads next from the merged queue.
use qstack.Common.{
  ℕ, zero, suc, ◌+◌, ◌<◌, ◌≡◌, ◌≢◌, refl, sym, ap, ◌∙◌, Bool, true, false, not, ◌&&◌, some, List,
  [], ◌∷◌, ◌==◌, if◌then◌else◌, length, u32, arith, Ptr, null, Bool-cases, inl, inr,
}
use qstack.Cirq.{Cirq, dir_cirq_get}
use qstack.Cirq.Fifo
use qstack.Cirq.Fifo.{dir_contents, length-items}
use qstack.Cirq.Ring.{used-lt}
use qstack.Cirq.Runs.{dir_get_of_nil, dir_get_of_cons}
use qstack.Mbuf.{Store, set_state}
use qstack.Mbuf.Chain.{lens}
use qstack.Mbuf.Ops.{mbuf_free-Freed, after_free}
use qstack.Mbuf.Queue.{mbufq_dequeue}
use qstack.RecvBuff.{RecvBuff}
use qstack.RecvBuff.Get.{unread, try_get_merged, try_get_high, rb_get}

abbrev pub waits : Store → Ptr → Bool
waits s p = unread (s.cell p).mbuf_state

abbrev pub NoNull : List Ptr → Type 0
NoNull [] = Unit {0}
NoNull (x ∷ xs) = (x ≢ null) × NoNull xs

module _ (wait : Ptr → Bool) where
  -- The packets in front that the application has had already, the first that it has not, or NULL,
  -- and those behind that one.
  abbrev pub had : List Ptr → List Ptr
  had [] = []
  had (x ∷ xs) = if wait x then [] else x ∷ had xs

  abbrev pub first : List Ptr → Ptr
  first [] = null
  first (x ∷ xs) = if wait x then x else first xs

  abbrev pub behind_first : List Ptr → List Ptr
  behind_first [] = []
  behind_first (x ∷ xs) = if wait x then xs else behind_first xs

  -- All that leave the queue.
  abbrev pub leaving : List Ptr → List Ptr
  leaving [] = []
  leaving (x ∷ xs) = if wait x then x ∷ [] else x ∷ leaving xs

-- The sequence number `h` moved on by the payloads of some packets.
abbrev pub advance : (Ptr → ℕ) → ℕ → List Ptr → ℕ
advance len h [] = h
advance len h (x ∷ xs) = advance len (u32 (h + len x)) xs

abbrev pub given_back : List Ptr → List Ptr → List Ptr
given_back [] out = out
given_back (x ∷ xs) out = given_back xs (x ∷ out)

pub record Got (wait : Ptr → Bool) (len : Ptr → ℕ) (l : List Ptr) (b : RecvBuff) (s : Store)
    (p : Ptr) (b' : RecvBuff) (s' : Store) : Type 0 where
  pub packet : p ≡ first wait l
  pub valid : Fifo.IsValid b'.merged_q
  pub left : dir_contents b'.merged_q ≡ behind_first wait l
  pub head : b'.head_seq ≡ advance len b.head_seq (leaving wait l)
  pub released : s'.released ≡ given_back (had wait l) s.released
  pub ooo_list : b'.ooo_list ≡ b.ooo_list
  pub high_q : b'.high_q ≡ b.high_q
  pub merged_next : b'.merged_next ≡ b.merged_next
  pub l4_lens : (q : Ptr) → (s'.cell q).l4_len ≡ (s.cell q).l4_len

abbrev Gets : ℕ → (Ptr → Bool) → (Ptr → ℕ) → List Ptr → RecvBuff → Store → Type 0
Gets fuel wait len l b s =
    (p : Ptr) × (b' : RecvBuff) × (s' : Store) × (try_get_merged fuel b s ≡ some (p, b', s'))
    × Got wait len l b s p b' s'

-- Giving back a packet that the application has had changes neither lengths nor what it waits for.
waits-after_free :
    (p : Ptr) (s : Store) → waits s p ≡ false → (q : Ptr) → waits (after_free p s) q ≡ waits s q
unfolding set_state
waits-after_free p s h q = elim (Bool-cases (q == p)) [
  | inl here ↦ let at : p ≡ q = ground arith in rw here (sym h ∙ ap (waits s) at)
  | inr other ↦ rw other refl
]

l4_len-after_free :
    (p : Ptr) (s : Store) (q : Ptr) → ((after_free p s).cell q).l4_len ≡ (s.cell q).l4_len
unfolding set_state
l4_len-after_free p s q = elim (Bool-cases (q == p)) [
  | inl here ↦ let at : p ≡ q = ground arith in rw here (ap (λ (k : Ptr). (s.cell k).l4_len) at)
  | inr other ↦ rw other refl
]

-- The queue without its first packet, counted as read.
abbrev past : RecvBuff → Store → Ptr → Cirq → RecvBuff
past b s p q = record b { merged_q = q; head_seq = u32 (b.head_seq + lens s p) }

found :
    (fuel : ℕ) (b : RecvBuff) (s : Store) (p : Ptr) (q : Cirq)
    → dir_cirq_get b.merged_q ≡ (p, q)
    → (p == null) ≡ false
    → waits s p ≡ true
    → try_get_merged (suc fuel) b s ≡ some (p, past b s p q, s)
unfolding try_get_merged mbufq_dequeue
found fuel b s p q e ne w = rw (e, ne, w) refl

passed :
    (fuel : ℕ) (b : RecvBuff) (s : Store) (p : Ptr) (q : Cirq)
    → dir_cirq_get b.merged_q ≡ (p, q)
    → p ≢ null
    → waits s p ≡ false
    → try_get_merged (suc fuel) b s ≡ try_get_merged fuel (past b s p q) (after_free p s)
unfolding try_get_merged mbufq_dequeue
passed fuel b s p q e ne w =
    let some_packet : (p == null) ≡ false = ground arith in
    let freed = mbuf_free-Freed p s ne in rw (e, some_packet, w, freed.ran) refl

loop_got :
    (wait : Ptr → Bool) (len : Ptr → ℕ) (l : List Ptr) (fuel : ℕ) (b : RecvBuff) (s : Store)
    → ((q : Ptr) → waits s q ≡ wait q)
    → ((q : Ptr) → lens s q ≡ len q)
    → Fifo.IsValid b.merged_q
    → dir_contents b.merged_q ≡ l
    → NoNull l
    → length l < fuel
    → Gets fuel wait len l b s
unfolding try_get_merged mbufq_dequeue
loop_got wait len [] zero b s w n v e nn f = absurd (omega arith)
loop_got wait len (p ∷ ps) zero b s w n v e nn f = absurd (omega arith)
loop_got wait len [] (suc fuel) b s w n v e nn f =
    let g = dir_get_of_nil v e in
    (
      null,
      record b { merged_q = b.merged_q },
      s,
      rw g refl,
      record {
        packet = refl;
        valid = v;
        left = e;
        head = refl;
        released = refl;
        ooo_list = refl;
        high_q = refl;
        merged_next = refl;
        l4_lens = λ q. refl;
      },
    )
loop_got wait len (p ∷ ps) (suc fuel) b s w n v e nn f =
    let (r, c, v', size) = dir_get_of_cons v e in
    let q = (dir_cirq_get b.merged_q).1 in
    let pair : dir_cirq_get b.merged_q ≡ (p, q) = ap (λ (x : Ptr). (x, q)) r in
    let moved : u32 (b.head_seq + lens s p) ≡ u32 (b.head_seq + len p) =
      ap (λ (k : ℕ). u32 (b.head_seq + k)) (n p) in
    elim (Bool-cases (wait p)) [
      | inl new ↦ (
        p,
        past b s p q,
        s,
        found fuel b s p q pair (ground (arith, nn.0)) (w p ∙ new),
        record {
          packet = rw new refl;
          valid = v';
          left = rw new c;
          head = rw new moved;
          released = rw new refl;
          ooo_list = refl;
          high_q = refl;
          merged_next = refl;
          l4_lens = λ k. refl;
        },
      )
      | inr old ↦
          let s1 = after_free p s in
          let seen = w p ∙ old in
          let payloads = (mbuf_free-Freed p s nn.0).payloads in
          let (x, b', s', ran, g) =
            loop_got wait len ps fuel (past b s p q) s1 (λ k. waits-after_free p s seen k ∙ w k)
              (λ k. ap (λ (h : Ptr → ℕ). h k) payloads.same_lens ∙ n k) v' c nn.1
              (omega (arith, f)) in
          (
            x,
            b',
            s',
            passed fuel b s p q pair nn.0 seen ∙ ran,
            record {
              packet = rw old g.packet;
              valid = g.valid;
              left = rw old g.left;
              head = rw old (g.head ∙ ap (λ (k : ℕ). advance len k (leaving wait ps)) moved);
              released = rw old g.released;
              ooo_list = g.ooo_list;
              high_q = g.high_q;
              merged_next = g.merged_next;
              l4_lens = λ k. g.l4_lens k ∙ l4_len-after_free p s k;
            },
          )
    ]

-- With both queues of a receive buffer valid, no high-priority packet and no NULL in the merged
-- queue, and a TCP header in the first packet there that the application has not had, `rb_get`
-- always returns that packet, or NULL if there is none. The packets before it go back to the
-- driver, `head_seq` moves on by their payloads and its own, the merged queue keeps those behind
-- it, and the waiting list, the high-priority queue and `merged_next` do not change.
pub rb_get_in_order :
    (b : RecvBuff) (s : Store)
    → Fifo.IsValid b.high_q
    → dir_contents b.high_q ≡ []
    → Fifo.IsValid b.merged_q
    → NoNull (dir_contents b.merged_q)
    → let next = first (waits s) (dir_contents b.merged_q) in
      (not (next == null) && ((s.cell next).l4_len == 0)) ≡ false
      → (p : Ptr) × (b' : RecvBuff) × (s' : Store) × (rb_get b s ≡ some (p, b', s'))
        × Got (waits s) (lens s) (dir_contents b.merged_q) b s p b' s'
unfolding rb_get try_get_high mbufq_dequeue
rb_get_in_order b s vh eh vm nn l4 =
    let g = dir_get_of_nil vh eh in
    let n = length-items b.merged_q.d_queue b.merged_q in
    let few = used-lt b.merged_q.size b.merged_q.head b.merged_q.tail vm.head_in vm.tail_in in
    let (p, b', s', ran, got) =
      loop_got (waits s) (lens s) (dir_contents b.merged_q) (suc b.merged_q.size) b s (λ q. refl)
        (λ q. refl) vm refl nn (omega (arith, n, few)) in
    let header : (not (p == null) && ((s'.cell p).l4_len == 0)) ≡ false =
      rw (got.l4_lens p, got.packet) l4 in
    (p, b', s', rw (g, ran, header) refl, got)
