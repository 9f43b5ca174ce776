-- ===== src/Sockets/Listed.antt =====
-- No socket is lost: what is free stays in a list.
use qstack.Common.{
  null, ℕ, zero, suc, ◌+◌, ◌*◌, ◌/◌, ◌<◌, ◌≡◌, refl, sym, ◌∙◌, ap, subst, true, false, not, ◌&&◌,
  List, [], ◌∷◌, ◌==◌, if◌then◌else◌, if-cases, update, arith, Bool-cases, inl, inr, Option, none,
  some, OnSome, OnSome-bind, ◌>>=◌, ltb,
}
use qstack.Mbuf.Chain.{has}
use qstack.Sockets.{
  SockType, is_unused, Entry, SocketTable, Config, give, fresh, fill_core, init_cores, zeroed_table,
  alloc_core, alloc_public, socket_alloc, socket_free, socket_table_init, in_use,
}
use qstack.Sockets.Pools.{IsSound, has-give, init_cores-IsSound, zeroed_table-IsSound}
use qstack.Sockets.Runs.{Request, step, run, step-IsSound}

-- Each free socket below `n` is in the list of some core.
abbrev pub IsListed : ℕ → SocketTable → Type 0
IsListed n t =
    (i : ℕ)
    → i < n
    → is_unused ((t.sockets i).socktype) ≡ true
    → (c : ℕ) × (has i (t.free_socket c) ≡ true)

give-IsListed :
    (n core i : ℕ) (e : Entry) (t : SocketTable)
    → ((j : ℕ)
        → j < n
        → (j == i) ≡ false
        → is_unused ((t.sockets j).socktype) ≡ true
        → (c : ℕ) × (has j (t.free_socket c) ≡ true))
    → IsListed n (give core i e t)
give-IsListed n core i e t k j lt u = elim (Bool-cases (j == i)) [
  | inl b ↦ (core, let g = has-give t.free_socket core i core j in ground arith)
  | inr b ↦
      let (c, h) =
        k j lt b (subst (λ x. is_unused ((if x then e else t.sockets j).socktype) ≡ true) b u) in
      (c, let g = has-give t.free_socket core i c j in ground arith)
]

fill_core-IsListed :
    (core i n : ℕ) (t : SocketTable) → IsListed i t → IsListed (i + n) (fill_core core i n t)
unfolding fill_core
fill_core-IsListed core i zero t k = subst (λ m. IsListed m t) (omega arith) k
fill_core-IsListed core i (suc n) t k =
    let e = fresh i (t.sockets i) in
    let k1 = give-IsListed (i + 1) core i e t (λ j lt b u. k j (ground arith) u) in
    subst (λ m. IsListed m (fill_core core i (suc n) t)) (omega arith)
      (fill_core-IsListed core (i + 1) n (give core i e t) k1)

init_cores-IsListed :
    (chunk core n : ℕ) (t : SocketTable)
    → IsListed (core * chunk) t
    → IsListed ((core + n) * chunk) (init_cores chunk core n t)
unfolding init_cores
init_cores-IsListed chunk core zero t k = subst (λ m. IsListed m t) (ground arith) k
init_cores-IsListed chunk core (suc n) t k =
    let t1 = fill_core core (core * chunk) chunk t in
    let k1 : IsListed ((core + 1) * chunk) t1 =
      subst (λ m. IsListed m t1) (ground arith)
        (fill_core-IsListed core (core * chunk) chunk t k) in
    subst (λ m. IsListed m (init_cores chunk core (suc n) t)) (ap (λ m. m * chunk) (omega arith))
      (init_cores-IsListed chunk (core + 1) n t1 k1)

-- Another socket stays where it is when the first of a list is taken.
has-others :
    (f : ℕ → List ℕ) (core i : ℕ) (rest : List ℕ)
    → f core ≡ i ∷ rest
    → (c j : ℕ) → (j == i) ≡ false
    → has j (f c) ≡ true
    → has j (update f core rest c) ≡ true
has-others f core i rest e c j ne h = elim (Bool-cases (c == core)) [
  | inl b ↦
      let same : c ≡ core = ground arith in
      let list : has j (i ∷ rest) ≡ true = sym (ap (λ d. has j (f d)) same ∙ ap (has j) e) ∙ h in
      rw b (ground arith)
  | inr b ↦ rw b h
]

alloc_core-IsListed :
    (n core : ℕ) (s : SockType) (xs : List ℕ) (t : SocketTable)
    → is_unused s ≡ false
    → t.free_socket core ≡ xs
    → IsListed n t
    → IsListed n (alloc_core core s xs t).1
unfolding alloc_core
alloc_core-IsListed n core s [] t typed e k = k
alloc_core-IsListed n core s (i ∷ rest) t typed e k = λ j lt. elim (Bool-cases (j == i)) [
  | inl b ↦ λ u.
      let off : is_unused s ≡ true =
        subst (λ x. is_unused ((if x then in_use s (t.sockets i) else t.sockets j).socktype) ≡ true)
          b u in
      absurd (ground (arith, typed, off))
  | inr b ↦ λ u.
      let old : is_unused ((t.sockets j).socktype) ≡ true =
        subst (λ x. is_unused ((if x then in_use s (t.sockets i) else t.sockets j).socktype) ≡ true)
          b u in
      let (c, h) = k j lt old in (c, has-others t.free_socket core i rest e c j b h)
]

-- A request for a socket of a type.
abbrev pub IsTyped : Request → Type 0
IsTyped (Request.alloc core s) = is_unused s ≡ false
IsTyped (Request.free core i) = Unit

abbrev pub AreTyped : List Request → Type 0
AreTyped [] = Unit
AreTyped (r ∷ rs) = IsTyped r × AreTyped rs

socket_alloc-IsListed :
    (n : ℕ) (config : Config) (core : ℕ) (s : SockType) (t : SocketTable)
    → is_unused s ≡ false
    → t.free_socket_public ≡ []
    → IsListed n t
    → IsListed n (socket_alloc config core s t).1
unfolding socket_alloc alloc_public
socket_alloc-IsListed n config core s t typed none_ k =
    if-cases {A = Option ℕ × SocketTable} (λ r. IsListed n r.1) (ltb core config.stack_thread)
      (λ b. alloc_core-IsListed n core s (t.free_socket core) t typed refl k)
      λ b. subst (λ xs. IsListed n (alloc_public s xs t).1) (sym none_) k

socket_free-IsListed :
    (n : ℕ) (config : Config) (core i : ℕ) (t : SocketTable)
    → IsListed n t
    → OnSome (IsListed n) (socket_free config core i t)
unfolding socket_free
socket_free-IsListed n config core i t k =
    let Q = OnSome (IsListed n) in
    let e = record (t.sockets i) {
      socktype = SockType.unused;
      epoll = 0;
      qe = none;
      stream = null;
    } in
    if-cases Q (not (ltb i config.max_socket_num && ltb core config.max_stack_num)) (λ b. tt)
      λ b.
        if-cases Q (is_unused ((t.sockets i).socktype)) (λ b1. tt)
          λ b1. give-IsListed n core i e t (λ j lt ne u. k j lt u)

-- What holds between two requests.
abbrev pub IsKept : ℕ → SocketTable → Type 0
IsKept n t = IsSound t × IsListed n t

step-IsKept :
    (n : ℕ) (config : Config) (r : Request) (t : SocketTable)
    → IsTyped r
    → IsKept n t
    → OnSome (IsKept n) (step config r t)
step-IsKept n config (Request.alloc core s) t typed (k, l) = (
  step-IsSound config (Request.alloc core s) t k,
  socket_alloc-IsListed n config core s t typed k.no_public l,
)
step-IsKept n config (Request.free core i) t typed (k, l) =
    both (socket_free config core i t) (step-IsSound config (Request.free core i) t k)
      (socket_free-IsListed n config core i t l)
  where
    both : (o : Option SocketTable) → OnSome IsSound o → OnSome (IsListed n) o → OnSome (IsKept n) o
    both none a b = tt
    both (some t') a b = (a, b)

requests-IsKept :
    (n : ℕ) (config : Config) (rs : List Request) (t : SocketTable)
    → AreTyped rs
    → IsKept n t
    → OnSome (IsKept n) (run config rs t)
requests-IsKept n config [] t typed k = k
requests-IsKept n config (r ∷ rs) t (typed, others) k =
    OnSome-bind (IsKept n) (IsKept n) (step config r t) (run config rs)
      (step-IsKept n config r t typed k) λ t' k'. requests-IsKept n config rs t' others k'

-- The sockets that `socket_table_init` hands out: those of whole shares, one for each core.
abbrev pub shared : Config → ℕ
shared config = config.stack_thread * (config.max_socket_num / config.stack_thread)

-- In the table of `socket_table_init`, and after any sequence of releases and of allocations for a
-- type of socket other than "unused", by any cores, that does not end the process: no socket is in
-- the lists of two cores or twice in one, no socket in use is in a list, each `free_num` is the length
-- of its list, and each free socket is in the list of a core, if its number is below the largest
-- multiple of the number of cores up to `max_socket_num`.
pub run-IsKept :
    (config : Config) (rs : List Request)
    → AreTyped rs
    → OnSome (IsKept (shared config)) (socket_table_init config >>= run config rs)
unfolding socket_table_init
run-IsKept config rs typed =
    let chunk = config.max_socket_num / config.stack_thread in
    let t = init_cores chunk 0 config.stack_thread zeroed_table in
    let k =
      init_cores-IsSound chunk 0 config.stack_thread zeroed_table zeroed_table-IsSound
        (λ c i h. absurd (ground arith)) in
    let l =
      init_cores-IsListed chunk 0 config.stack_thread zeroed_table
        (λ i lt u. absurd (ground arith)) in
    if-cases (λ o. OnSome (IsKept (shared config)) (o >>= run config rs))
      (ltb config.max_socket_num config.max_concurrency) (λ b. tt)
      λ b.
        requests-IsKept (shared config) config rs t typed
          (k, subst (λ n. IsListed n t) (ground arith) l)
