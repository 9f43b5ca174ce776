-- ===== src/Timer/Invariant.antt =====
-- The lists of the timers and the marks of the streams, under every operation on one stream.
use qstack.Common.{
  ◌≡◌, refl, sym, ◌∙◌, ap, Bool, false, ◌&&◌, not, List, ◌==◌, arith, update, Ptr, Bool-cases, inl,
  inr,
}
use qstack.Timer.{Stream, Call, Timers, put, call, remove}
use qstack.Timer.Tracked.{Tracks, Tracks-remove, Tracks-cong}

abbrev pub on_rto : Stream → Bool
on_rto v = not (v.on_rto_idx == 0)

abbrev pub marks : (Stream → Bool) → Timers → Ptr → Bool
marks mark t q = mark (t.stream q)

abbrev pub on_timewait : Stream → Bool
on_timewait v = v.on_timewait_list

abbrev pub on_timeout : Stream → Bool
on_timeout v = v.on_timeout_list

-- Each list holds the streams with its mark, once; and no stream is on both of the lists that
-- share the link `timer_link`.
pub record IsValid (t : Timers) : Type 0 where
  pub rto : Tracks t.rto_list (marks on_rto t)
  pub timewait : Tracks t.timewait_list (marks on_timewait t)
  pub timeout : Tracks t.timeout_list (marks on_timeout t)
  pub apart : (q : Ptr) → (on_rto (t.stream q) && on_timewait (t.stream q)) ≡ false

mark-update :
    (mark : Stream → Bool) (t : Timers) (p : Ptr) (v : Stream) (q : Ptr)
    → update (marks mark t) p (mark v) q ≡ mark (update (t.stream) p v q)
mark-update mark t p v q = elim (Bool-cases (q == p)) [ inl same ↦ rw same | inr other ↦ rw other ]

-- A list whose mark the new record of the stream leaves as it was.
pub Tracks-keep :
    {l : List Ptr} (mark : Stream → Bool) (t : Timers) (p : Ptr) (v : Stream)
    → mark v ≡ mark (t.stream p)
    → Tracks l (marks mark t)
    → Tracks l (update (marks mark t) p (mark v))
Tracks-keep mark t p v same k =
    Tracks-cong
      (λ q. elim (Bool-cases (q == p)) [
        | inl here ↦
            let e : q ≡ p = ground arith in rw here (ap (λ r. mark (t.stream r)) e ∙ sym same)
        | inr other ↦ rw other
      ])
      k

-- A new record of one stream, with lists that follow its marks.
pub change-IsValid :
    (t : Timers) (p : Ptr) (v : Stream) (r w o : List Ptr) (c : List Call)
    → IsValid t
    → Tracks r (update (marks on_rto t) p (on_rto v))
    → Tracks w (update (marks on_timewait t) p (on_timewait v))
    → Tracks o (update (marks on_timeout t) p (on_timeout v))
    → (on_rto v && on_timewait v) ≡ false
    → IsValid (record {
      stream = update (t.stream) p v;
      rto_list = r;
      timewait_list = w;
      timeout_list = o;
      calls = c;
    })
change-IsValid t p v r w o c k kr kw ko a = record {
  rto = Tracks-cong (mark-update on_rto t p v) kr;
  timewait = Tracks-cong (mark-update on_timewait t p v) kw;
  timeout = Tracks-cong (mark-update on_timeout t p v) ko;
  apart =
      λ q. elim (Bool-cases (q == p)) [ inl here ↦ rw here a | inr other ↦ rw other (k.apart q) ];
}

-- A new record with the marks of the old one.
pub put-IsValid :
    (t : Timers) (p : Ptr) (v : Stream)
    → on_rto v ≡ on_rto (t.stream p)
    → on_timewait v ≡ on_timewait (t.stream p)
    → on_timeout v ≡ on_timeout (t.stream p)
    → IsValid t
    → IsValid (put t p v)
put-IsValid t p v r w o k =
    change-IsValid t p v t.rto_list t.timewait_list t.timeout_list t.calls k
      (Tracks-keep on_rto t p v r k.rto) (Tracks-keep on_timewait t p v w k.timewait)
      (Tracks-keep on_timeout t p v o k.timeout) (rw (r, w) (k.apart p))

pub call-IsValid : (c : Call) (t : Timers) → IsValid t → IsValid (call c t)
call-IsValid c t k = record {
  rto = k.rto;
  timewait = k.timewait;
  timeout = k.timeout;
  apart = k.apart;
}

-- The stream goes off or onto one list.
pub off_rto-IsValid :
    (t : Timers) (p : Ptr) (v : Stream)
    → on_rto v ≡ false
    → on_timewait v ≡ on_timewait (t.stream p)
    → on_timeout v ≡ on_timeout (t.stream p)
    → IsValid t
    → IsValid (record (put t p v) { rto_list = remove p t.rto_list })
off_rto-IsValid t p v r w o k =
    change-IsValid t p v (remove p t.rto_list) t.timewait_list t.timeout_list t.calls k
      (rw r (Tracks-remove k.rto p)) (Tracks-keep on_timewait t p v w k.timewait)
      (Tracks-keep on_timeout t p v o k.timeout) (rw r refl)

pub off_timewait-IsValid :
    (t : Timers) (p : Ptr) (v : Stream)
    → on_rto v ≡ on_rto (t.stream p)
    → on_timewait v ≡ false
    → on_timeout v ≡ on_timeout (t.stream p)
    → IsValid t
    → IsValid (record (put t p v) { timewait_list = remove p t.timewait_list })
off_timewait-IsValid t p v r w o k =
    change-IsValid t p v t.rto_list (remove p t.timewait_list) t.timeout_list t.calls k
      (Tracks-keep on_rto t p v r k.rto) (rw w (Tracks-remove k.timewait p))
      (Tracks-keep on_timeout t p v o k.timeout) (rw w (ground arith))

pub off_timeout-IsValid :
    (t : Timers) (p : Ptr) (v : Stream)
    → on_rto v ≡ on_rto (t.stream p)
    → on_timewait v ≡ on_timewait (t.stream p)
    → on_timeout v ≡ false
    → IsValid t
    → IsValid (record (put t p v) { timeout_list = remove p t.timeout_list })
off_timeout-IsValid t p v r w o k =
    change-IsValid t p v t.rto_list t.timewait_list (remove p t.timeout_list) t.calls k
      (Tracks-keep on_rto t p v r k.rto) (Tracks-keep on_timewait t p v w k.timewait)
      (rw o (Tracks-remove k.timeout p)) (rw (r, w) (k.apart p))
