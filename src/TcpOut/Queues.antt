-- ===== src/TcpOut/Queues.antt =====
-- The queues of streams in front of the sender. The queues of include/stream_queue.h are those of
-- `Cirq` and `N21`.
use qstack.Common.{◌+◌, Bool, true, false, ◌&&◌, ◌||◌, not, ◌==◌, ltb, if◌then◌else◌}
use qstack.Cirq.{Ret, success, failed, error, cirq_add}
use qstack.N21.{n21q_enqueue}
use qstack.TcpStream.Conn.{Vars, Conn, Env, set_vars}

pub data AckOpt : Type 0 where
  now aggregate wack : AckOpt

abbrev pub is_success : Ret → Bool
is_success success = true
is_success failed = false
is_success error = false

unfoldable pub control_queue_add : Conn → Ret × Conn
control_queue_add c =
    let w = (c.host).machine in
    let (ret, q, mem) = cirq_add (c.host).control_queue w.mem c.self in
    let on = record c {
      vars = record (c.vars) { on_control_queue = is_success ret || (c.vars).on_control_queue };
      host = record (c.host) { control_queue = q; machine = record w { mem = mem } };
    } in
    if (c.vars).on_control_queue then (success, c) else (ret, on)

unfoldable pub ack_queue_add : Conn → Ret × Conn
ack_queue_add c =
    let w = (c.host).machine in
    let (ret, q, mem) = cirq_add (c.host).ack_queue w.mem c.self in
    let on = record c {
      vars = record (c.vars) { on_ack_queue = is_success ret || (c.vars).on_ack_queue };
      host = record (c.host) { ack_queue = q; machine = record w { mem = mem } };
    } in
    if not ((c.vars).ack_cnt == 0) && not (c.vars).on_ack_queue then (ret, on) else (success, c)

-- `ack_cnt` has six bits.
abbrev pub count_ack : AckOpt → Vars → Vars
count_ack AckOpt.now v = record v {
  ack_cnt = if ltb v.ack_cnt 63 then v.ack_cnt + 1 else v.ack_cnt;
}
count_ack AckOpt.aggregate v = record v { ack_cnt = if v.ack_cnt == 0 then 1 else v.ack_cnt }
count_ack AckOpt.wack v = record v { is_wack = true }

-- A state in which no acknowledgement is due is only reported.
unfoldable pub enqueue_ack : AckOpt → Conn → Ret × Conn
enqueue_ack opt c = ack_queue_add (set_vars (count_ack opt c.vars) c)

-- The queue of a core is that of its number.
unfoldable pub send_event_enqueue : Env → Conn → Ret × Conn
send_event_enqueue env c =
    let w = (c.host).machine in
    let (ret, q, mem) = n21q_enqueue (c.host).send_event_queue w.mem env.stack_id c.self in
    (
      ret,
      record c {
        host = record (c.host) { send_event_queue = q; machine = record w { mem = mem } };
      },
    )
