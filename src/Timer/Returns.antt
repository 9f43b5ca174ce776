-- ===== src/Timer/Returns.antt =====
-- When `rto_list_check` returns, and how much it does.
use qstack.Common.{
  ℕ, ◌+◌, ◌≤◌, ◌≡◌, refl, Bool, false, ◌&&◌, not, Option, none, some, List, [], ◌∷◌, ◌==◌, ltb,
  if◌then◌else◌, ◌>>=◌, arith, update, Ptr, length, Bool-cases, inl, inr, if-cases,
}
use qstack.Seq.{seq_lt}
use qstack.Timer.{
  TcpState, Stream, Timers, put, remove, max_rto_batch, tcp_max_rtx, rto_list_remove,
  timewait_list_remove, timeout_list_remove,
}
use qstack.Timer.Check.{
  tcp_stream_destroy, not_established, conn_fail, conn_lost, back_off, is_established, closing_side,
  handle_rto, rto_loop, rto_list_check,
}

-- The state says that a FIN is under way, but its number is not set.
abbrev pub lacks_fin : Stream → Bool
lacks_fin v = closing_side v.state && (v.fss == 0)

abbrev pub KnowsFin : Timers → Type 0
KnowsFin t = (q : Ptr) → lacks_fin (t.stream q) ≡ false

put-KnowsFin :
    (t : Timers) (p : Ptr) (v : Stream)
    → lacks_fin v ≡ false
    → KnowsFin t
    → (q : Ptr) → lacks_fin (update (t.stream) p v q) ≡ false
put-KnowsFin t p v h k q = elim (Bool-cases (q == p)) [
  | inl here ↦ rw here h
  | inr other ↦ rw other (k q)
]

abbrev Then : ℕ × Timers → Type 0
Then r = KnowsFin r.1

destroy-KnowsFin : (p : Ptr) (t : Timers) → KnowsFin t → KnowsFin (tcp_stream_destroy p t)
unfolding tcp_stream_destroy timeout_list_remove timewait_list_remove rto_list_remove
destroy-KnowsFin p t k =
    let t1 = if (t.stream p).on_timeout_list then (timeout_list_remove p t).1 else t in
    let k1 : KnowsFin t1 =
      if-cases KnowsFin ((t.stream p).on_timeout_list)
        (λ on.
          if-cases Then (not (t.stream p).on_timeout_list) (λ o. k)
            λ o. put-KnowsFin t p (record (t.stream p) { on_timeout_list = false }) (k p) k)
        (λ off. k) in
    let t2 = if (t1.stream p).on_timewait_list then (timewait_list_remove p t1).1 else t1 in
    let k2 : KnowsFin t2 =
      if-cases KnowsFin ((t1.stream p).on_timewait_list)
        (λ on.
          if-cases Then (not (t1.stream p).on_timewait_list) (λ o. k1)
            λ o. put-KnowsFin t1 p (record (t1.stream p) { on_timewait_list = false }) (k1 p) k1)
        (λ off. k1) in
    if-cases KnowsFin ((t2.stream p).on_rto_idx == 0) (λ off. k2)
      λ on.
        if-cases Then ((t2.stream p).on_rto_idx == 0) (λ o. k2)
          λ o. put-KnowsFin t2 p (record (t2.stream p) { on_rto_idx = 0; nrtx = 0 }) (k2 p) k2

-- The process goes on, in a state of which `P` holds.
abbrev pub Returns {ℓ} : {A : Type ℓ} → (A → Type 0) → Option A → Type 0
Returns P none = ⊥
Returns P (some a) = P a

handle_rto-Returns : (p : Ptr) (t : Timers) → KnowsFin t → Returns KnowsFin (handle_rto p t)
unfolding handle_rto
handle_rto-Returns p t k =
    let v = t.stream p in
    let t1 = put t p (back_off v) in
    let k1 : KnowsFin t1 = put-KnowsFin t p (back_off v) (k p) k in
    let gone = record v {
      state = TcpState.closed;
      close_reason = if not_established v.state then conn_fail else conn_lost;
    } in
    if-cases (Returns KnowsFin) (not (ltb v.nrtx tcp_max_rtx))
      (λ many. destroy-KnowsFin p (put t p gone) (put-KnowsFin t p gone refl k))
      λ few.
        if-cases (Returns KnowsFin) (is_established v.state) (λ e. k1)
          λ other.
            if-cases (Returns KnowsFin) (closing_side v.state)
              (λ c.
                if-cases (Returns KnowsFin) (v.fss == 0)
                  (λ unset. absurd (ground (arith, k p, c, unset)))
                  λ set. if-cases KnowsFin (seq_lt v.snd_una v.fss) (λ data_. k1) λ fin. k1)
              λ n. k1

abbrev Done : ℕ → List Ptr → ℕ × Timers → Type 0
Done cnt l (n, t') = (cnt ≤ n) × (n ≤ max_rto_batch) × (n ≤ cnt + length l) × KnowsFin t'

rto_loop-Returns :
    (ts cnt : ℕ) (l : List Ptr) (t : Timers)
    → cnt ≤ max_rto_batch
    → KnowsFin t
    → Returns (Done cnt l) (rto_loop ts cnt l t)
unfolding rto_loop
rto_loop-Returns ts cnt [] t h k = (omega arith, h, omega arith, k)
rto_loop-Returns ts cnt (p ∷ ps) t h k =
    let P = Returns (Done cnt (p ∷ ps)) in
    let v = record (t.stream p) { on_rto_idx = 0 } in
    let off = record (put t p v) { rto_list = remove p t.rto_list } in
    let k1 : KnowsFin off = put-KnowsFin t p v (k p) k in
    if-cases P (not (ltb cnt max_rto_batch)) (λ full. (omega arith, h, omega arith, k))
      λ room.
        if-cases P (seq_lt ts (t.stream p).ts_rto) (λ early. (omega arith, h, omega arith, k))
          λ due.
            elim (handle_rto p off)
                as (λ o. Returns KnowsFin o → P (do t' ← o; rto_loop ts (cnt + 1) ps t')) [
                  | none ↦ λ e. absurd e
                  | some t' ↦ λ k'.
                      elim (rto_loop ts (cnt + 1) ps t')
                          as (λ o. Returns (Done (cnt + 1) ps) o → P o) [
                            | none ↦ λ e. e
                            | some (n, u) ↦ λ d. (omega (arith, d.0), d.1, omega (arith, d.2), d.3)
                          ]
                        (rto_loop-Returns ts (cnt + 1) ps t' (ground (arith, room)) k')
                ]
              (handle_rto-Returns p off k1)

-- If no stream lacks the number of a FIN that its state says is under way, `rto_list_check` always
-- returns, without ending the process: it has handled at most MAX_RTO_BATCH streams, no more than
-- the list held, and still no stream lacks that number.
pub rto_list_check_returns :
    (ts : ℕ) (t : Timers)
    → KnowsFin t
    → (n : ℕ) × (t' : Timers) × (rto_list_check ts t ≡ some (n, t'))
      × (n ≤ max_rto_batch)
      × (n ≤ length t.rto_list)
      × KnowsFin t'
unfolding rto_list_check
rto_list_check_returns ts t k =
    elim (rto_loop ts 0 t.rto_list t)
        as (λ o.
          Returns (Done 0 t.rto_list) o
          → (n : ℕ) × (t' : Timers) × (o ≡ some (n, t'))
            × (n ≤ max_rto_batch)
            × (n ≤ length t.rto_list)
            × KnowsFin t') [
              | none ↦ λ e. absurd e
              | some (n, t') ↦ λ d. (n, t', refl, d.1, omega (arith, d.2), d.3)
            ]
      (rto_loop-Returns ts 0 t.rto_list t (omega arith) k)
