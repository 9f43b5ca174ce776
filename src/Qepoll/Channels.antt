-- ===== src/Qepoll/Channels.antt =====
-- The channels of `q_alloc_achan`, and that the channel of a stack's event is always found.
use native.Mathlib.Nat.{
  mul-add-div, mul-add-mod_self_left, mod-eq_of_lt, div-eq_of_lt, mul-le-mul_left, mul-suc,
  mul_comm,
}
use qstack.Common.{
  ℕ, ◌+◌, ◌*◌, ◌/◌, ◌<◌, ◌≡◌, ◌∙◌, refl, sym, ap, subst, Bool, true, false, Option, none, some,
  ◌>>=◌, not, ◌&&◌, ◌==◌, ltb, if◌then◌else◌, if-cases, Bool-cases, arith, inl, inr, update,
  update_self,
}
use qstack.TcpIn.Events.{q_accept}
use qstack.Qepoll.{QepollEvent, Chan, Manager, EventReg, Poll, stack_to_qe}
use qstack.Qepoll.Add.{q_distribute_event, find_chan}
use qstack.Qepoll.Init.{q_alloc_achan, qconf_init, q_init_manager, qepoll_create, init_manager}

-- The channel from stack `i` to application `q` is the one that its place says.
pub record IsNumbered (s q i : ℕ) (c : Chan) : Type 0 where
  pub id : c.id ≡ s * q + i
  pub src : c.src ≡ i
  pub dst : c.dst ≡ q

-- An instance that `qepoll_create` has given its channels.
pub record IsCreated (p : Poll) (q : ℕ) : Type 0 where
  pub manager : Manager
  pub known : p.g_qepoll q ≡ some manager
  pub sq_chan : (manager.qe).sq_chan ≡ some (p.num_stack * q)
  pub in_range : q < p.num_server

-- A socket whose last event is not taken yet names an instance.
pub record IsHanded (p : Poll) (r : EventReg) : Type 0 where
  pub app : ℕ
  pub known : r.pr_core ≡ some app
  pub created : IsCreated p app

pub record IsWired (p : Poll) : Type 0 where
  pub numbered :
      (q i : ℕ)
      → q < p.num_server
      → i < p.num_stack
      → IsNumbered p.num_stack q i (p.chans (p.num_stack * q + i))
  pub handed : (s : ℕ) → (p.reg s).proc ≡ true → IsHanded p (p.reg s)

module _ (s a q i : ℕ) (hq : q < a) (hi : i < s) where
  place-lt : s * q + i < s * a
  place-lt = omega (arith, mul-le-mul_left s hq, mul-suc s q)

  pub q_alloc_achan-IsNumbered :
      (isize : ℕ) → IsNumbered s q i (q_alloc_achan s a isize (s * q + i))
  unfolding q_alloc_achan
  q_alloc_achan-IsNumbered isize =
      if-cases (IsNumbered s q i) (ltb (s * q + i) (s * a))
        (λ y. record {
          id = refl;
          src = mul-add-mod_self_left s q i ∙ mod-eq_of_lt hi;
          dst = grind (arith, mul-add-div {m = s} (omega arith) q i, div-eq_of_lt hi);
        })
        (λ n. absurd (ground (arith, place-lt)))

pub q_init_manager-IsWired : (stack server : ℕ) → IsWired (q_init_manager stack server)
unfolding q_init_manager qconf_init
q_init_manager-IsWired stack server = record {
  numbered = λ q i hq hi. q_alloc_achan-IsNumbered stack server q i hq hi _;
  handed = λ s e. absurd (ground (arith, e));
}

abbrev pub is_bound : Poll → QepollEvent → Bool
is_bound p e = not (e.nature == q_accept) && (p.reg e.sockid).proc

-- An event goes to the application of its socket's last event while that one is not taken, else to
-- its own.
pub record IsTarget (p : Poll) (e : QepollEvent) (app : ℕ) : Type 0 where
  pub again : is_bound p e ≡ true → (p.reg e.sockid).pr_core ≡ some app
  pub first : is_bound p e ≡ false → app ≡ e.apid

-- What the search for a channel gives.
pub record IsFound (p : Poll) (e : QepollEvent) (c app : ℕ) (p' : Poll) : Type 0 where
  pub place : c ≡ p.num_stack * app + e.core
  pub numbered : IsNumbered p.num_stack app e.core (p'.chans c)
  pub handed : (p'.reg e.sockid).pr_core ≡ some app
  pub target : IsTarget p e app
  pub wired : IsWired p'
  pub chans : p'.chans ≡ p.chans
  pub smap : p'.smap ≡ p.smap

abbrev pub Found : Poll → QepollEvent → Option (ℕ × ℕ × Poll) → Type 0
Found p e none = ⊥
Found p e (some (c, app, p')) = IsFound p e c app p'

-- The socket's last event is handed to an application.
abbrev hand_over : QepollEvent → Poll → Poll
hand_over e p = record p {
  reg = update p.reg e.sockid record { pr_core = some e.apid; proc = true };
}

hand_over-IsWired :
    (e : QepollEvent) (p : Poll) → IsWired p → IsCreated p e.apid → IsWired (hand_over e p)
hand_over-IsWired e p w c = record {
  numbered = w.numbered;
  handed = λ s.
      if-cases (λ (r : EventReg). r.proc ≡ true → IsHanded (hand_over e p) r) (s == e.sockid)
        (λ y f. record { app = e.apid; known = refl; created = same c })
        (λ n f.
          let h = w.handed s f in
          record { app = h.app; known = h.known; created = same h.created });
}
  where
    same : {q : ℕ} → IsCreated p q → IsCreated (hand_over e p) q
    same c = record {
      manager = c.manager;
      known = c.known;
      sq_chan = c.sq_chan;
      in_range = c.in_range;
    }

-- The rest of the search, after an application has been found.
abbrev chan_of : QepollEvent → ℕ → Poll → Option (ℕ × ℕ × Poll)
chan_of e app p = (do
  m ← p.g_qepoll app
  sq_chan ← (m.qe).sq_chan
  let c = p.chans (sq_chan + e.core)
  (if (c.src == e.core) && (c.dst == app) && (c.id == e.core + app * p.num_stack)
      then some (sq_chan + e.core, app, p)
      else none))

chan_of_lem :
    (e : QepollEvent) (app : ℕ) (p : Poll)
    → IsWired p
    → IsCreated p app
    → e.core < p.num_stack
    → chan_of e app p ≡ some (p.num_stack * app + e.core, app, p)
chan_of_lem e app p w c lt =
    let n = w.numbered app e.core c.in_range lt in
    let ok : (((p.chans (p.num_stack * app + e.core)).src == e.core)
          && ((p.chans (p.num_stack * app + e.core)).dst == app)
          && ((p.chans (p.num_stack * app + e.core)).id == e.core + app * p.num_stack))
        ≡ true =
      ground (arith, n.src, n.dst, n.id, mul_comm p.num_stack app) in
    rw (c.known, c.sq_chan, ok) refl

pub find_chan-Found :
    (e : QepollEvent) (p : Poll)
    → IsWired p
    → e.dire ≡ stack_to_qe
    → e.core < p.num_stack
    → IsCreated p e.apid
    → Found p e (find_chan e p)
unfolding find_chan q_distribute_event
find_chan-Found e p w dire lt c =
    elim (Bool-cases (not (e.nature == q_accept) && (p.reg e.sockid).proc)) [
      | inl t ↦
          let h = w.handed e.sockid (ground (arith, t)) in
          let ran : find_chan e p ≡ chan_of e h.app p = rw (dire, t, h.known) refl in
          subst (Found p e) (sym (ran ∙ chan_of_lem e h.app p w h.created lt)) record {
            place = refl;
            numbered = w.numbered h.app e.core (h.created).in_range lt;
            handed = h.known;
            target = record { again = λ b. h.known; first = λ b. absurd (ground (arith, b, t)) };
            wired = w;
            chans = refl;
            smap = refl;
          }
      | inr f ↦
          let w1 = hand_over-IsWired e p w c in
          let c1 : IsCreated (hand_over e p) e.apid = record {
            manager = c.manager;
            known = c.known;
            sq_chan = c.sq_chan;
            in_range = c.in_range;
          } in
          let ran : find_chan e p ≡ chan_of e e.apid (hand_over e p) = rw (dire, f) refl in
          subst (Found p e) (sym (ran ∙ chan_of_lem e e.apid (hand_over e p) w1 c1 lt)) record {
            place = refl;
            numbered = w1.numbered e.apid e.core c.in_range lt;
            handed = ap EventReg.pr_core (update_self p.reg e.sockid _);
            target = record { again = λ b. absurd (ground (arith, b, f)); first = λ b. refl };
            wired = w1;
            chans = refl;
            smap = refl;
          }
    ]

-- An instance as `q_init_manager` leaves it is given its channels.
abbrev pub Created : ℕ → Option (Option ℕ × Poll) → Type 0
Created qid (some (some i, p')) = (i ≡ qid) × IsCreated p' qid × IsWired p'
Created qid _ = ⊥

abbrev created_manager : ℕ → Poll → Manager
created_manager size p = record (init_manager p.num_stack p.num_server p.efd) {
  qe = record {
    qfd = p.efd;
    size = size;
    sq_chan = some (p.num_stack * p.efd);
    qs_chan = some (p.num_stack * (p.num_server + p.efd));
  };
}

abbrev create : ℕ → Poll → Poll
create size p = record p {
  efd = p.efd + 1;
  g_qepoll = update p.g_qepoll p.efd (some (created_manager size p));
}

create-IsCreated :
    (size : ℕ) (p : Poll)
    → p.efd < p.num_server
    → {q : ℕ} → IsCreated p q
    → IsCreated (create size p) q
create-IsCreated size p lt {q} c = elim (Bool-cases (q == p.efd)) [
  | inl t ↦
      let e : q ≡ p.efd = ground arith in
      record {
        manager = created_manager size p;
        known = rw t refl;
        sq_chan = rw e refl;
        in_range = rw e lt;
      }
  | inr f ↦ record {
    manager = c.manager;
    known = rw f c.known;
    sq_chan = c.sq_chan;
    in_range = c.in_range;
  }
]

-- Where `q_init_manager` has made the next instance, `qepoll_create` gives its number, with the
-- channels of all instances as they were.
pub qepoll_create-Created :
    (max_concurrency app_thread size : ℕ) (p : Poll)
    → IsWired p
    → 0 < size
    → p.efd < p.num_server
    → p.g_qepoll p.efd ≡ some (init_manager p.num_stack p.num_server p.efd)
    → Created p.efd (qepoll_create max_concurrency app_thread size p)
unfolding qepoll_create
qepoll_create-Created max_concurrency app_thread size p w pos lt known =
    let e : (size == 0) ≡ false = ground arith in
    rw (known, e)
      (
        refl,
        record {
          manager = created_manager (max_concurrency / app_thread) p;
          known = update_self p.g_qepoll p.efd _;
          sq_chan = refl;
          in_range = lt;
        },
        record {
          numbered = w.numbered;
          handed = λ s f.
              let h = w.handed s f in
              record {
                app = h.app;
                known = h.known;
                created = create-IsCreated (max_concurrency / app_thread) p lt h.created;
              };
        },
      )
