-- ===== src/Sockets/Pools.antt =====
-- Which sockets are free: each in one list, once, and the numbers are the lengths.
use qstack.Common.{
  ℕ, zero, suc, ◌+◌, ◌*◌, ◌<◌, ◌≡◌, refl, sym, ◌∙◌, ap, subst, true, false, ◌&&◌, ◌||◌, List, [],
  ◌∷◌, ◌++◌, ◌==◌, if◌then◌else◌, update, arith, length, length-append, Bool-cases, inl, inr,
}
use qstack.Mbuf.Chain.{has}
use qstack.Sockets.{
  SockType, Entry, SocketTable, give, fresh, fill_core, init_cores, zeroed_table, alloc_core,
}

abbrev pub Unique : List ℕ → Type 0
Unique [] = Unit
Unique (x ∷ xs) = (has x xs ≡ false) × Unique xs

pub record IsSound (t : SocketTable) : Type 0 where
  pub free : (c i : ℕ) → has i (t.free_socket c) ≡ true → (t.sockets i).socktype ≡ SockType.unused
  pub once : (c : ℕ) → Unique (t.free_socket c)
  pub apart : (c d i : ℕ) → has i (t.free_socket c) ≡ true → has i (t.free_socket d) ≡ true → c ≡ d
  pub count : (c : ℕ) → t.free_num c ≡ length (t.free_socket c)
  pub no_public : t.free_socket_public ≡ []

has-append : (i j : ℕ) (xs : List ℕ) → has i (xs ++ (j ∷ [])) ≡ (has i xs || (i == j))
has-append i j [] = ground arith
has-append i j (x ∷ xs) = let e = has-append i j xs in ground arith

Unique-append : (j : ℕ) (xs : List ℕ) → Unique xs → has j xs ≡ false → Unique (xs ++ (j ∷ []))
Unique-append j [] u h = (refl, tt)
Unique-append j (x ∷ xs) (o, u) h =
    let e = has-append x j xs in (ground arith, Unique-append j xs u (ground arith))

-- What the lists hold with `i` at the end of one.
pub has-give :
    (f : ℕ → List ℕ) (core i c j : ℕ)
    → has j (update f core (f core ++ (i ∷ [])) c) ≡ (has j (f c) || ((c == core) && (j == i)))
has-give f core i c j = elim (Bool-cases (c == core)) [
  | inl h ↦
      let same : c ≡ core = ground arith in
      rw h (has-append j i (f core) ∙ ap (λ d. has j (f d) || (j == i)) (sym same))
  | inr h ↦ rw h (ground arith)
]

-- A socket in no list is put into one.
pub give-IsSound :
    (core i : ℕ) (e : Entry) (t : SocketTable)
    → IsSound t
    → e.socktype ≡ SockType.unused
    → ((c : ℕ) → has i (t.free_socket c) ≡ false)
    → IsSound (give core i e t)
give-IsSound core i e t k u out =
    let t' = give core i e t in
    record {
      free = λ c j h. elim (Bool-cases (j == i)) [
        | inl b ↦ rw b u
        | inr b ↦
            let old : has j (t.free_socket c) ≡ true =
              let g = has-give t.free_socket core i c j in ground arith in
            rw b (k.free c j old)
      ];
      once = λ c. elim (Bool-cases (c == core)) [
        | inl b ↦ rw b (Unique-append i (t.free_socket core) (k.once core) (out core))
        | inr b ↦ rw b (k.once c)
      ];
      apart = λ c d j hc hd.
          let gc = has-give t.free_socket core i c j in
          let gd = has-give t.free_socket core i d j in
          elim (Bool-cases (j == i)) [
            | inl b ↦
                let is : j ≡ i = ground arith in
                let oc : has j (t.free_socket c) ≡ false = rw is (out c) in
                let od : has j (t.free_socket d) ≡ false = rw is (out d) in ground arith
            | inr b ↦ k.apart c d j (ground arith) (ground arith)
          ];
      count = λ c. elim (Bool-cases (c == core)) [
        | inl b ↦ rw (b, k.count core) (sym (length-append (t.free_socket core) (i ∷ [])))
        | inr b ↦ rw b (k.count c)
      ];
      no_public = k.no_public;
    }

abbrev Below : ℕ → SocketTable → Type 0
Below n t = (c i : ℕ) → has i (t.free_socket c) ≡ true → i < n

not-Below : (n : ℕ) (t : SocketTable) → Below n t → (c : ℕ) → has n (t.free_socket c) ≡ false
not-Below n t b c = elim (Bool-cases (has n (t.free_socket c))) [
  | inl h ↦ let lt = b c n h in absurd (omega arith)
  | inr h ↦ h
]

Below-give :
    (core i : ℕ) (e : Entry) (t : SocketTable) → Below i t → Below (i + 1) (give core i e t)
Below-give core i e t b c j h =
    let g = has-give t.free_socket core i c j in
    elim (Bool-cases (j == i)) [
      | inl s ↦ ground arith
      | inr s ↦ let lt = b c j (ground arith) in omega arith
    ]

fill_core-IsSound :
    (core i n : ℕ) (t : SocketTable)
    → IsSound t
    → Below i t
    → IsSound (fill_core core i n t) × Below (i + n) (fill_core core i n t)
unfolding fill_core
fill_core-IsSound core i zero t k b = (k, subst (λ m. Below m t) (omega arith) b)
fill_core-IsSound core i (suc n) t k b =
    let e = fresh i (t.sockets i) in
    let t1 = give core i e t in
    let (k', b') =
      fill_core-IsSound core (i + 1) n t1 (give-IsSound core i e t k refl (not-Below i t b))
        (Below-give core i e t b) in
    (k', subst (λ m. Below m (fill_core core (i + 1) n t1)) (omega arith) b')

pub init_cores-IsSound :
    (chunk core n : ℕ) (t : SocketTable)
    → IsSound t
    → Below (core * chunk) t
    → IsSound (init_cores chunk core n t)
unfolding init_cores
init_cores-IsSound chunk core zero t k b = k
init_cores-IsSound chunk core (suc n) t k b =
    let t1 = fill_core core (core * chunk) chunk t in
    let (k1, b1) = fill_core-IsSound core (core * chunk) chunk t k b in
    init_cores-IsSound chunk (core + 1) n t1 k1 (subst (λ m. Below m t1) (ground arith) b1)

pub zeroed_table-IsSound : IsSound zeroed_table
zeroed_table-IsSound = record {
  free = λ c i h. refl;
  once = λ c. tt;
  apart = λ c d i h. absurd (ground arith);
  count = λ c. refl;
  no_public = refl;
}

-- The lists without the first socket of one hold no other sockets.
has-rest :
    (f : ℕ → List ℕ) (core i : ℕ) (rest : List ℕ)
    → f core ≡ i ∷ rest
    → (c j : ℕ) → has j (update f core rest c) ≡ true
    → has j (f c) ≡ true
has-rest f core i rest e c j = elim (Bool-cases (c == core)) [
  | inl b ↦ λ h.
      let same : c ≡ core = ground arith in
      let here : has j rest ≡ true = subst (λ x. has j (if x then rest else f c) ≡ true) b h in
      let list : has j (f c) ≡ has j (i ∷ rest) = ap (λ d. has j (f d)) same ∙ ap (has j) e in
      list ∙ ground arith
  | inr b ↦ λ h. subst (λ x. has j (if x then rest else f c) ≡ true) b h
]

module _ (core i : ℕ) (rest : List ℕ) (s : SockType) (t : SocketTable) (k : IsSound t)
    (e : t.free_socket core ≡ i ∷ rest) where
  pub first : has i (t.free_socket core) ≡ true
  first = ap (has i) e ∙ ground arith

  pub gone : (c : ℕ) → has i (update t.free_socket core rest c) ≡ false
  gone c = elim (Bool-cases (c == core)) [
    | inl b ↦ rw b ((subst Unique e (k.once core)).0)
    | inr b ↦ elim (Bool-cases (has i (t.free_socket c))) [
      | inl h ↦ let same = k.apart c core i h first in absurd (ground arith)
      | inr h ↦ rw b h
    ]
  ]

  pub take-IsSound : IsSound (alloc_core core s (i ∷ rest) t).1
  unfolding alloc_core
  take-IsSound = record {
    free = λ c j h.
        let old = has-rest t.free_socket core i rest e c j h in
        elim (Bool-cases (j == i)) [
          | inl b ↦
              let same : j ≡ i = ground arith in
              let out : has j (update t.free_socket core rest c) ≡ false = rw same (gone c) in
              absurd (ground arith)
          | inr b ↦ rw b (k.free c j old)
        ];
    once = λ c. elim (Bool-cases (c == core)) [
      | inl b ↦ rw b ((subst Unique e (k.once core)).1)
      | inr b ↦ rw b (k.once c)
    ];
    apart = λ c d j hc hd.
        k.apart c d j (has-rest t.free_socket core i rest e c j hc)
          (has-rest t.free_socket core i rest e d j hd);
    count = λ c. elim (Bool-cases (c == core)) [
      | inl b ↦
          let n : t.free_num core ≡ length rest + 1 = k.count core ∙ ap length e ∙ omega arith in
          rw (b, n) (omega arith)
      | inr b ↦ rw b (k.count c)
    ];
    no_public = k.no_public;
  }
