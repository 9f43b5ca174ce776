-- ===== src/Sockets/Runs.antt =====
-- What an allocation gives, and sequences of allocations and releases.
use qstack.Common.{
  null, ℕ, ◌<◌, ◌≡◌, ◌≢◌, refl, sym, ◌∙◌, subst, true, false, ◌&&◌, not, Option, none, some, List,
  [], ◌∷◌, ltb, if-cases, OnSome, arith, ◌>>=◌, Bool-cases, inl, inr,
}
use qstack.Mbuf.Chain.{has}
use qstack.Sockets.{
  SockType, SocketTable, Config, in_use, alloc_core, alloc_public, socket_alloc, socket_free,
  is_unused,
}
use qstack.Sockets.Pools.{IsSound, give-IsSound, first, gone, take-IsSound}

-- The socket `i` has been taken off the list of `core`.
pub record Allocated (core i : ℕ) (s : SockType) (t t' : SocketTable) : Type 0 where
  pub was_free : (t.sockets i).socktype ≡ SockType.unused
  pub entry : t'.sockets i ≡ in_use s (t.sockets i)
  pub others : (j : ℕ) → j ≢ i → t'.sockets j ≡ t.sockets j
  pub first_free : t.free_socket core ≡ i ∷ t'.free_socket core
  pub lists : (c : ℕ) → c ≢ core → t'.free_socket c ≡ t.free_socket c
  pub in_none : (c : ℕ) → has i (t'.free_socket c) ≡ false
  pub sound : IsSound t'

abbrev pub Outcome : ℕ → SockType → SocketTable → Option ℕ × SocketTable → Type 0
Outcome core s t (none, t') = (t.free_socket core ≡ []) × (t' ≡ t)
Outcome core s t (some i, t') = Allocated core i s t t'

alloc_core_lem :
    (core : ℕ) (s : SockType) (xs : List ℕ) (t : SocketTable)
    → IsSound t
    → t.free_socket core ≡ xs
    → Outcome core s t (alloc_core core s xs t)
unfolding alloc_core
alloc_core_lem core s [] t k e = (e, refl)
alloc_core_lem core s (i ∷ rest) t k e = record {
  was_free = k.free core i (first core i rest s t k e);
  entry = ground arith;
  others = λ j ne. ground arith;
  first_free = e ∙ ground arith;
  lists = λ c ne. ground arith;
  in_none = gone core i rest s t k e;
  sound = take-IsSound core i rest s t k e;
}

-- `socket_alloc` of a stack's core in a sound table takes the first socket of that core's list, if
-- there is one: the socket was not in use, is in no list any more, has the type asked for and nothing
-- of its last use; no other socket and no other list is changed, and the table stays sound. It
-- returns NULL only if the list is empty, and then changes nothing.
socket_alloc_lem :
    (config : Config) (core : ℕ) (s : SockType) (t : SocketTable)
    → IsSound t
    → core < config.stack_thread
    → Outcome core s t (socket_alloc config core s t)
unfolding socket_alloc
socket_alloc_lem config core s t k lt =
    let own : ltb core config.stack_thread ≡ true = ground arith in
    rw own (alloc_core_lem core s (t.free_socket core) t k refl)

alloc-IsSound :
    (core : ℕ) (s : SockType) (t : SocketTable) (r : Option ℕ × SocketTable)
    → IsSound t
    → Outcome core s t r
    → IsSound r.1
alloc-IsSound core s t (none, t') k o = subst IsSound (sym o.1) k
alloc-IsSound core s t (some i, t') k o = o.sound

-- The public pool is empty.
alloc_public-IsSound :
    (s : SockType) (t : SocketTable) → IsSound t → IsSound (alloc_public s t.free_socket_public t).1
unfolding alloc_public
alloc_public-IsSound s t k = subst (λ xs. IsSound (alloc_public s xs t).1) (sym k.no_public) k

socket_alloc-IsSound :
    (config : Config) (core : ℕ) (s : SockType) (t : SocketTable)
    → IsSound t
    → IsSound (socket_alloc config core s t).1
unfolding socket_alloc
socket_alloc-IsSound config core s t k =
    if-cases {A = Option ℕ × SocketTable} (λ r. IsSound r.1) (ltb core config.stack_thread)
      (λ b.
        alloc-IsSound core s t (alloc_core core s (t.free_socket core) t) k
          (alloc_core_lem core s (t.free_socket core) t k refl))
      λ b. alloc_public-IsSound s t k

-- A socket in use is in no list.
used_out :
    (i : ℕ) (t : SocketTable)
    → IsSound t
    → is_unused ((t.sockets i).socktype) ≡ false
    → (c : ℕ) → has i (t.free_socket c) ≡ false
used_out i t k u c = elim (Bool-cases (has i (t.free_socket c))) [
  | inl h ↦ let same = k.free c i h in absurd (ground arith)
  | inr h ↦ h
]

socket_free-IsSound :
    (config : Config) (core i : ℕ) (t : SocketTable)
    → IsSound t
    → OnSome IsSound (socket_free config core i t)
unfolding socket_free
socket_free-IsSound config core i t k =
    let Q = OnSome IsSound in
    let e = record (t.sockets i) {
      socktype = SockType.unused;
      epoll = 0;
      qe = none;
      stream = null;
    } in
    if-cases Q (not (ltb i config.max_socket_num && ltb core config.max_stack_num)) (λ b. tt)
      λ b.
        if-cases Q (is_unused ((t.sockets i).socktype)) (λ b1. tt)
          λ b1.
            let g = give-IsSound core i e t k refl (used_out i t k b1) in
            record {
              free = g.free;
              once = g.once;
              apart = g.apart;
              count = g.count;
              no_public = g.no_public;
            }

pub data Request : Type 0 where
  alloc : (core : ℕ) (s : SockType) → Request
  free : (core i : ℕ) → Request

abbrev pub step : Config → Request → SocketTable → Option SocketTable
step config (Request.alloc core s) t = some (socket_alloc config core s t).1
step config (Request.free core i) t = socket_free config core i t

abbrev pub run : Config → List Request → SocketTable → Option SocketTable
run config [] t = some t
run config (r ∷ rs) t = step config r t >>= run config rs

pub step-IsSound :
    (config : Config) (r : Request) (t : SocketTable) → IsSound t → OnSome IsSound (step config r t)
step-IsSound config (Request.alloc core s) t k = socket_alloc-IsSound config core s t k
step-IsSound config (Request.free core i) t k = socket_free-IsSound config core i t k
