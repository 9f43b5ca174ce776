-- ===== src/Mbuf/Chain.antt =====
-- What an `mbuf_list` stands for: the pointers along `buf_next`.
use qstack.Common.{
  ℕ, ◌≡◌, ◌≢◌, refl, Bool, true, false, ◌||◌, List, [], ◌∷◌, ◌==◌, arith, Ptr, null, update,
  fun_ext, subst, sym, ◌∙◌,
}
use qstack.Mbuf.{Store, MbufState, MbufList, set_next, set_state}

abbrev pub has : Ptr → List Ptr → Bool
has p [] = false
has p (x ∷ xs) = (p == x) || has p xs

abbrev pub last : List Ptr → Ptr
last [] = null
last (x ∷ []) = x
last (x ∷ y ∷ xs) = last (y ∷ xs)

-- The fields `buf_next` of all buffers.
abbrev pub nexts : Store → Ptr → Ptr
nexts s p = (s.cell p).buf_next

-- From `p` the links `next` lead through the distinct buffers `xs` to NULL.
abbrev pub Chain : (Ptr → Ptr) → Ptr → List Ptr → Type 0
Chain next p [] = p ≡ null
Chain next p (x ∷ xs) = (p ≡ x) × (x ≢ null) × (has x xs ≡ false) × Chain next (next x) xs

pub record IsList (s : Store) (l : MbufList) (xs : List Ptr) : Type 0 where
  pub chain : Chain (nexts s) l.head xs
  pub end : l.tail ≡ last xs

pub nexts-set_next : (s : Store) (q r : Ptr) → nexts (set_next s q r) ≡ update (nexts s) q r
unfolding set_next
nexts-set_next s q r = fun_ext λ p. ground arith

pub nexts-set_state : (s : Store) (q : Ptr) (st : MbufState) → nexts (set_state s q st) ≡ nexts s
unfolding set_state
nexts-set_state s q st = fun_ext λ p. ground arith

-- A chain does not see a new link of a buffer that is not on it.
pub Chain-update :
    (next : Ptr → Ptr) (p : Ptr) (xs : List Ptr) (q r : Ptr)
    → has q xs ≡ false
    → Chain next p xs
    → Chain (update next q r) p xs
Chain-update next p [] q r out c = c
Chain-update next p (x ∷ xs) q r out c =
    let ne : (x == q) ≡ false = ground arith in
    (c.0, c.1, c.2, rw ne (Chain-update next (next x) xs q r (ground arith) c.3))

pub Chain-set_next :
    (s : Store) (q r h : Ptr) (xs : List Ptr)
    → Chain (update (nexts s) q r) h xs
    → Chain (nexts (set_next s q r)) h xs
Chain-set_next s q r h xs c = subst (λ n. Chain n h xs) (sym (nexts-set_next s q r)) c

-- The sequence numbers and lengths of the payloads, which no list function changes.
abbrev pub seqs : Store → Ptr → ℕ
seqs s p = (s.cell p).tcp_seq

abbrev pub lens : Store → Ptr → ℕ
lens s p = (s.cell p).payload_len

pub record SameData (s s' : Store) : Type 0 where
  pub same_seqs : seqs s' ≡ seqs s
  pub same_lens : lens s' ≡ lens s

pub SameData-refl : (s : Store) → SameData s s
SameData-refl s = record { same_seqs = refl; same_lens = refl }

pub SameData-trans : {s t u : Store} → SameData s t → SameData t u → SameData s u
SameData-trans a b = record {
  same_seqs = b.same_seqs ∙ a.same_seqs;
  same_lens = b.same_lens ∙ a.same_lens;
}

pub SameData-set_next : (s : Store) (q r : Ptr) → SameData s (set_next s q r)
unfolding set_next
SameData-set_next s q r = record {
  same_seqs = fun_ext λ p. ground arith;
  same_lens = fun_ext λ p. ground arith;
}

pub SameData-set_state : (s : Store) (q : Ptr) (st : MbufState) → SameData s (set_state s q st)
unfolding set_state
SameData-set_state s q st = record {
  same_seqs = fun_ext λ p. ground arith;
  same_lens = fun_ext λ p. ground arith;
}

-- A chain depends only on the links of its own buffers.
pub Chain-frame :
    (next next' : Ptr → Ptr) (h : Ptr) (xs : List Ptr)
    → ((q : Ptr) → has q xs ≡ true → next' q ≡ next q)
    → Chain next h xs
    → Chain next' h xs
Chain-frame next next' h [] same c = c
Chain-frame next next' h (x ∷ xs) same c =
    let here : has x (x ∷ xs) ≡ true = ground arith in
    let rest = Chain-frame next next' (next x) xs (λ q i. same q (ground arith)) c.3 in
    (c.0, c.1, c.2, subst (λ p. Chain next' p xs) (sym (same x here)) rest)
