-- ===== src/TcpOut/User.antt =====
-- `_q_tcp_send` and `send_from_user`: what the application hands over. The search for the stream of
-- a socket is not modelled: a socket that is out of range or has no stream gives -1.
use qstack.Common.{
  ℕ, ◌^◌, Bool, true, false, ◌&&◌, ◌||◌, not, ◌==◌, leb, if◌then◌else◌, sub32, Ptr, null, Option,
  none, some, ◌>>=◌,
}
use qstack.Cirq.{Ret, error, failed}
use qstack.Mbuf.{MbufState, Store, write}
use qstack.SendBuff.{sb_len, sb_put}
use qstack.TcpStream.Conn.{Conn}
use qstack.TcpStream.Life.{may_close}
use qstack.TcpOut.Flush.{set_store, send_event_add}

-- `MIN((int)snd_wnd, payload_len) <= 0`.
abbrev pub nothing_to_send : ℕ → ℕ → Bool
nothing_to_send snd_wnd len = leb (2 ^ 31) snd_wnd || (snd_wnd == 0) || (len == 0)

-- The bytes taken, or `none` for FAILED, which is also what comes of 0.
unfoldable pub send_from_user : Ptr → Conn → Option ℕ × Conn
send_from_user mbuf c =
    let store = ((c.host).machine).store in
    let (ret, b, s) = sb_put c.snd mbuf store in
    let c1 =
      set_store s
        (record c { snd = b; vars = record (c.vars) { snd_wnd = sub32 b.size (sb_len b) } }) in
    if nothing_to_send (c.vars).snd_wnd (store.cell mbuf).payload_len then (none, c) else (ret, c1)

abbrev pub is_talloc : MbufState → Bool
is_talloc MbufState.talloc = true
is_talloc _ = false

-- What `_q_tcp_send` returns: a number of bytes, or FAILED or ERROR, which is also -1.
pub data Sent : Type 0 where
  bytes : ℕ → Sent
  refused : Ret → Sent

-- `q_free_mbuf`, called with the number of a core where it wants a pointer to the application: it
-- follows that pointer, unless the packet is one of high priority that is still held.
abbrev pub give_back : Ptr → Store → Option Store
give_back mbuf s =
    let m = s.cell mbuf in
    if not (m.priority == 0) && not (m.holding == 0)
    then some (write s mbuf (record m { holding = 0 }))
    else none

-- Behind the tests.
unfoldable pub send_checked : ℕ → Ptr → Conn → Option (Sent × Conn)
send_checked core_id mbuf c =
    let (ret, c1) = send_from_user mbuf c in
    let store = ((c1.host).machine).store in
    let freed = (do s ← give_back mbuf store; some (Sent.refused failed, set_store s c1)) in
    elim ret [
      | none ↦ freed
      | some n ↦ some (Sent.bytes n, (send_event_add core_id (store.cell mbuf).priority c1).1)
    ]

-- `high` is QFLAG_SEND_HIGHPRI. A packet that the application did not get from the stack ends the
-- process.
unfoldable pub q_tcp_send : ℕ → Ptr → ℕ → Bool → Conn → Option (Sent × Conn)
q_tcp_send core_id mbuf len high c =
    let store = ((c.host).machine).store in
    let m = store.cell mbuf in
    let c1 =
      set_store
        (write store mbuf
          (record m { payload_len = len; buf_next = null; priority = if high then 1 else 0 }))
        c in
    let sent = send_checked core_id mbuf c1 in
    if mbuf == null
    then some (Sent.refused error, c)
    else if not (is_talloc m.mbuf_state)
    then none
    else if not (may_close (c.own).state) || (len == 0)
    then some (Sent.refused error, c1)
    else sent
