-- ===== src/Api/Listen.antt =====
-- Listening: one listener for a port at a time.
use qstack.Common.{
  ℕ, zero, suc, ◌+◌, ◌≡◌, ◌∙◌, refl, sym, ap, subst, true, false, not, ◌||◌, Option, none, some,
  List, [], ◌∷◌, ◌++◌, ◌==◌, ltb, if◌then◌else◌, if-cases, Bool-cases, inl, inr, arith, update,
  length, Ptr, null,
}
use Prim.Native.Nat.{bit_or}
use qstack.TcpIn.Events.{q_epollin}
use qstack.Cirq.{success, failed}
use qstack.N21.{N21}
use qstack.Sockets.{Address, Entry, SocketTable, is_unused}
use qstack.Sockets.Listeners.{Listener, listeners_search, listeners_insert}
use qstack.Api.{
  World, App, Result, entry, set_entry, init_acceptq, listen_on, is_some, to_listener, q_listen,
}

abbrev pub search : World → ℕ → Option Listener
search w port = listeners_search (w.table).sockets w.listeners port

-- Only the ports of the sockets are looked at.
search_same :
    (f g : ℕ → Entry) (l : List Listener) (k : ℕ)
    → ((i : ℕ) → (f i).saddr ≡ (g i).saddr)
    → listeners_search f l k ≡ listeners_search g l k
unfolding listeners_search
search_same f g [] k h = refl
search_same f g (x ∷ l) k h = rw (h x.sockid, search_same f g l k h) refl

abbrev pub or_new : Option Listener → Option Listener → Option Listener
or_new (some x) d = some x
or_new none d = d

search-append :
    (f : ℕ → Entry) (l : List Listener) (x : Listener) (k : ℕ)
    → listeners_search f (l ++ (x ∷ [])) k
      ≡ or_new
          (listeners_search f l k)
          (if ((f x.sockid).saddr).sin_port == k then some x else none)
unfolding listeners_search
search-append f [] x k = refl
search-append f (y ∷ l) x k = elim (Bool-cases (((f y.sockid).saddr).sin_port == k)) [
  | inl t ↦ rw t refl
  | inr n ↦ rw n (search-append f l x k)
]

-- The accept queues are no part of the table.
init_acceptq_table :
    (blocks : ℕ → ℕ → Ptr) (threads backlog i n : ℕ) (w : World) (qs : ℕ → N21)
    → ((init_acceptq blocks threads backlog i n w qs).1.table ≡ w.table)
unfolding init_acceptq
init_acceptq_table blocks threads backlog i zero w qs = refl
init_acceptq_table blocks threads backlog i (suc n) w qs =
    init_acceptq_table blocks threads backlog (i + 1) n _ _

-- What listening at `port` does to the search for a listener: after an error nothing, else the new
-- listener is found for its port, for which none was there, and the others as before.
abbrev pub Listening : ℕ → Listener → World → Result Unit × World → Type 0
Listening port l w (Result.ok u, w') =
    (search w port ≡ none)
    × ((k : ℕ) → search w' k ≡ or_new (search w k) (if port == k then some l else none))
Listening port l w (Result.fail e, w') = (k : ℕ) → search w' k ≡ search w k

same_saddr :
    (sockid : ℕ) (e : Entry) (w : World)
    → e.saddr ≡ (entry w sockid).saddr
    → (i : ℕ) → (update (w.table).sockets sockid e i).saddr ≡ ((w.table).sockets i).saddr
same_saddr sockid e w h i =
    if-cases (λ (x : Entry). x.saddr ≡ ((w.table).sockets i).saddr) (i == sockid)
      (λ t. let j : sockid ≡ i = ground arith in h ∙ ap (λ n. ((w.table).sockets n).saddr) j)
      (λ f. refl)

insert_room :
    (max : ℕ) (l : List Listener) (x : Listener)
    → ltb (length l) max ≡ true
    → listeners_insert max l x ≡ (success, l ++ (x ∷ []))
unfolding listeners_insert
insert_room max l x h = rw h refl

insert_full :
    (max : ℕ) (l : List Listener) (x : Listener)
    → ltb (length l) max ≡ false
    → listeners_insert max l x ≡ (failed, l)
unfolding listeners_insert
insert_full max l x h = rw h refl

none_of : (o : Option Listener) → is_some o ≡ false → o ≡ none
none_of none h = refl
none_of (some l) h = absurd (ground (arith, h))

-- A step that leaves the search as it is may come before.
Listening-search :
    (port : ℕ) (l : Listener) (w w1 : World) (r : Result Unit × World)
    → ((k : ℕ) → search w1 k ≡ search w k)
    → Listening port l w1 r
    → Listening port l w r
Listening-search port l w w1 (Result.ok u, w') same (free, h) = (
  sym (same port) ∙ free,
  λ k. h k ∙ ap (λ o. or_new o (if port == k then some l else none)) (same k),
)
Listening-search port l w w1 (Result.fail e, w') same h = λ k. h k ∙ same k

module _ (chunk : Ptr) (blocks : ℕ → ℕ → Ptr) (ntohs : ℕ → ℕ) (app : App) (sockid backlog : ℕ)
    (w : World) where
  listen_on-Listening :
      search w ((entry w sockid).saddr).sin_port ≡ none
      → Listening
          ((entry w sockid).saddr).sin_port
          (record { listener = chunk; sockid = sockid })
          w
          (listen_on chunk blocks ntohs app sockid backlog w)
  unfolding listen_on
  listen_on-Listening free =
      let e = entry w sockid in
      let e1 : Entry = record e { epoll = bit_or e.epoll q_epollin; stream = chunk } in
      let w1 =
        (init_acceptq blocks (app.config).stack_thread backlog 0 app.app_thread w
          (w.listener_at chunk).acceptq).1 in
      let same : (i : ℕ)
          → (update (w1.table).sockets sockid e1 i).saddr ≡ ((w.table).sockets i).saddr =
        λ i.
          ap (λ (t : SocketTable). (update t.sockets sockid e1 i).saddr)
            (init_acceptq_table blocks (app.config).stack_thread backlog 0 app.app_thread w
              (w.listener_at chunk).acceptq)
          ∙ same_saddr sockid e1 w refl i in
      let f1 : ℕ → Entry = update (w1.table).sockets sockid e1 in
      let new : Listener = record { listener = chunk; sockid = sockid } in
      if-cases (Listening (e.saddr).sin_port new w) (chunk == null) (λ y k. refl)
        (λ n. elim (Bool-cases (ltb (length w.listeners) (app.config).max_socket_num)) [
          | inl t ↦ rw (insert_room (app.config).max_socket_num w.listeners new t) (
            free,
            λ k.
                search_same f1 (w.table).sockets (w.listeners ++ (new ∷ [])) k same
                ∙ search-append (w.table).sockets w.listeners new k,
          )
          | inr f ↦
              rw (insert_full (app.config).max_socket_num w.listeners new f)
                (λ k. search_same f1 (w.table).sockets w.listeners k same)
        ])

-- `q_listen` gives 0 only if no listener is found for the port of the socket: then the new one is
-- found for it, and those for other ports as before. With an error the search for a listener gives
-- for every port what it gave before.
pub q_listen-Listening :
    (chunk : Ptr) (blocks : ℕ → ℕ → Ptr) (ntohs : ℕ → ℕ) (app : App) (sockid backlog : ℕ)
    (w : World)
    → Listening
        ((entry w sockid).saddr).sin_port
        (record { listener = chunk; sockid = sockid })
        w
        (q_listen chunk blocks ntohs app sockid backlog w)
unfolding q_listen
q_listen-Listening chunk blocks ntohs app sockid backlog w =
    let e = entry w sockid in
    let port = (e.saddr).sin_port in
    let new : Listener = record { listener = chunk; sockid = sockid } in
    let e1 : Entry = record e { socktype = to_listener e.socktype } in
    let w1 = set_entry sockid e1 w in
    let same : (k : ℕ) → search w1 k ≡ search w k = λ k.
      search_same (w1.table).sockets (w.table).sockets w.listeners k
        (same_saddr sockid e1 w refl) in
    if-cases P (not (ltb sockid (app.config).max_concurrency)) (λ y k. refl)
      (λ n1.
        if-cases P (is_unused e.socktype) (λ y k. refl)
          (λ n2.
            if-cases P ((backlog == 0) || ltb (app.config).max_concurrency backlog) (λ y. same)
              (λ n3.
                if-cases P (is_some (search w1 port)) (λ y. same)
                  (λ n4.
                    let at : ((entry w1 sockid).saddr).sin_port ≡ port =
                      ap Address.sin_port (same_saddr sockid e1 w refl sockid) in
                    let free = none_of (search w1 port) n4 in
                    Listening-search port new w w1
                      (listen_on chunk blocks ntohs app sockid backlog w1) same
                      (subst
                        (λ n.
                          Listening n new w1 (listen_on chunk blocks ntohs app sockid backlog w1))
                        at
                        (listen_on-Listening chunk blocks ntohs app sockid backlog w1
                          (subst (λ n. search w1 n ≡ none) (sym at) free)))))))
  where
    P : Result Unit × World → Type 0
    P = Listening ((entry w sockid).saddr).sin_port (record { listener = chunk; sockid = sockid }) w
