-- ===== src/Mbuf.antt =====
-- qstack/src/include/mbuf.h: packet buffers behind pointers, their states, and giving one back.
pub mod Chain
pub mod Insert
pub mod Ops
pub mod Queue
pub mod Tests
use qstack.Common.{
  ℕ, zero, suc, ◌>>=◌, List, ◌∷◌, Option, none, some, ◌==◌, if◌then◌else◌, update, Ptr, null,
}

-- `mbuf_state`.
pub data MbufState : Type 0 where
  free rcved rbuffed rread rdone talloc tbuffed tgnrt sent loss retrans acked : MbufState

-- The fields of `struct rte_mbuf` that the buffers use.
pub record Mbuf : Type 0 where
  pub tcp_seq : ℕ
  pub payload_len : ℕ
  pub priority : ℕ
  pub mbuf_state : MbufState
  pub holding : ℕ
  pub l4_len : ℕ
  pub buf_next : Ptr

-- The packet buffers, and those given back to the driver, the last one first.
pub record Store : Type 0 where
  pub cell : Ptr → Mbuf
  pub released : List Ptr

abbrev pub write : Store → Ptr → Mbuf → Store
write s p m = record s { cell = update (s.cell) p m }

unfoldable pub set_next : Store → Ptr → Ptr → Store
set_next s p next = write s p (record (s.cell p) { buf_next = next })

unfoldable pub set_state : Store → Ptr → MbufState → Store
set_state s p st = write s p (record (s.cell p) { mbuf_state = st })

-- Freeing NULL ends the process; freeing twice is only reported.
unfoldable pub mbuf_free : Ptr → Store → Option Store
mbuf_free p s =
    if p == null
    then none
    else some (record (set_state s p MbufState.free) { released = p ∷ s.released })

-- `struct mbuf_list`.
pub record MbufList : Type 0 where
  pub head : Ptr
  pub tail : Ptr

unfoldable pub mbuf_list_init : MbufList
mbuf_list_init = record { head = null; tail = null }

unfoldable pub mbuf_list_pop : MbufList → Store → Ptr × MbufList × Store
mbuf_list_pop l s =
    let p = l.head in
    let next = (s.cell p).buf_next in
    if p == null then (p, l, s) else (
      p,
      record { head = next; tail = if next == null then null else l.tail },
      set_next s p null,
    )

unfoldable pub mbuf_list_append : MbufList → Ptr → Store → MbufList × Store
mbuf_list_append l p s =
    if l.tail == null
    then (record { head = p; tail = p }, set_next s p null)
    else (record l { tail = p }, set_next (set_next s l.tail p) p null)

unfoldable pub mbuf_list_insert : MbufList → Ptr → Ptr → Store → MbufList × Store
mbuf_list_insert l b1 b2 s =
    let next = (s.cell b1).buf_next in
    (if next == null then record l { tail = b2 } else l, set_next (set_next s b2 next) b1 b2)

unfoldable pub mbuf_list_add_head : MbufList → Ptr → Store → MbufList × Store
mbuf_list_add_head l p s =
    (record { head = p; tail = if l.head == null then p else l.tail }, set_next s p l.head)

-- The second list is left empty.
unfoldable pub mbuf_list_merge : MbufList → MbufList → Store → MbufList × MbufList × Store
unfolding mbuf_list_init
mbuf_list_merge l1 l2 s =
    if l1.tail == null
    then (l2, mbuf_list_init, s)
    else if l2.head == null
    then (l1, mbuf_list_init, s)
    else (record l1 { tail = l2.tail }, mbuf_list_init, set_next s l1.tail l2.head)

-- The loop of `mbuf_list_free`, on fuel.
list_free_loop : ℕ → Ptr → Store → Option Store
list_free_loop zero iter s = none
list_free_loop (suc fuel) iter s =
    let next = (s.cell iter).buf_next in
    let rest = (do s' ← mbuf_free iter s; list_free_loop fuel next s') in
    if iter == null then some s else rest

unfoldable pub mbuf_list_free : ℕ → MbufList → Store → Option (MbufList × Store)
unfolding list_free_loop mbuf_list_init
mbuf_list_free fuel l s = do s' ← list_free_loop fuel l.head s; some (mbuf_list_init, s')
