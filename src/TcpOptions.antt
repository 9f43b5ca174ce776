-- ===== src/TcpOptions.antt =====
-- The options of a TCP header: `ParseTCPOptions` of qstack/src/include/tcp_in.h and
-- `calculate_option_length` and `GenerateTCPOptions` of qstack/src/tcp_out.c, compiled without
-- TCP_OPT_TIMESTAMP_ENABLED and TCP_OPT_SACK_ENABLED. The bytes behind a pointer are a function of
-- the distance from it.
pub mod Format
pub mod Hang
pub mod Tests
use qstack.Common.{
  ℕ, zero, suc, ◌+◌, ◌-◌, ◌*◌, ◌/◌, ◌%◌, ◌^◌, Bool, true, false, Option, none, some, List, [], ◌∷◌,
  ◌==◌, ltb, if◌then◌else◌, u16, u32,
}

-- The fields of `struct tcp_stream` that the options of a peer set.
pub record Peer : Type 0 where
  pub mss : ℕ
  pub eff_mss : ℕ
  pub wscale_peer : ℕ
  pub sack_permit : Bool
  pub saw_timestamp : Bool
  pub ts_recent : ℕ
  pub ts_last_ts_upd : ℕ

abbrev pub opt_end : ℕ
opt_end = 0

abbrev pub opt_nop : ℕ
opt_nop = 1

abbrev pub opt_mss : ℕ
opt_mss = 2

abbrev pub opt_wscale : ℕ
opt_wscale = 3

abbrev pub opt_sack_permit : ℕ
opt_sack_permit = 4

abbrev pub opt_timestamp : ℕ
opt_timestamp = 8

-- `ntohl(*(uint32_t *)(tcpopt + i))`.
abbrev pub long_at : (ℕ → ℕ) → ℕ → ℕ
long_at tcpopt i =
    u32 (tcpopt i * 2 ^ 24 + tcpopt (i + 1) * 2 ^ 16 + tcpopt (i + 2) * 2 ^ 8 + tcpopt (i + 3))

-- `mss` is a uint16_t.
abbrev pub set_mss : ℕ → Peer → Peer
set_mss n o = record o { mss = n; eff_mss = n }

-- The body of the loop at the option at `i`: where the next one is, or `none` for a `break`. Behind
-- the two bytes read the sum `i + optlen - 2` does not pass below 0.
unfoldable pub parse_option : ℕ → (ℕ → ℕ) → ℕ → ℕ → Peer → Option (ℕ × Peer)
parse_option cur_ts tcpopt len i o =
    let opt = tcpopt i in
    let optlen = tcpopt (i + 1) in
    if opt == opt_end
    then none
    else if opt == opt_nop
    then some (i + 1, o)
    else if ltb len (i + 2 + optlen - 2)
    then none
    else if opt == opt_mss
    then some (i + 4, set_mss (u16 (u16 (tcpopt (i + 2) * 2 ^ 8) + tcpopt (i + 3))) o)
    else if opt == opt_wscale
    then some (i + 3, record o { wscale_peer = tcpopt (i + 2) })
    else if opt == opt_sack_permit
    then some (i + 2, record o { sack_permit = true })
    else if opt == opt_timestamp
    then some (
      i + 10,
      record o {
        saw_timestamp = true;
        ts_recent = long_at tcpopt (i + 2);
        ts_last_ts_upd = cur_ts;
      },
    )
    else some (i + 2 + optlen - 2, o)

-- The loop from `i` on, on fuel.
unfoldable pub parse_loop : ℕ → ℕ → (ℕ → ℕ) → ℕ → ℕ → Peer → Option Peer
parse_loop zero cur_ts tcpopt len i o = none
parse_loop (suc fuel) cur_ts tcpopt len i o =
    let rest : Option Peer = elim (parse_option cur_ts tcpopt len i o) [
      | none ↦ some o
      | some (j, o') ↦ parse_loop fuel cur_ts tcpopt len j o'
    ] in
    if ltb i len then rest else some o

-- `len` is 0 for a negative length, for which the loop is not entered.
unfoldable pub parse_tcp_options : ℕ → (ℕ → ℕ) → ℕ → Peer → Option Peer
parse_tcp_options cur_ts tcpopt len o = parse_loop (suc len) cur_ts tcpopt len 0 o

-- Of `flags` only TCP_FLAG_SYN is tested.
unfoldable pub calculate_option_length : Bool → ℕ
calculate_option_length syn = if syn then 4 + (3 + 1) else 0

-- The bytes written from `tcpopt` on, in order.
unfoldable pub generate_tcp_options : Bool → ℕ → ℕ → List ℕ
generate_tcp_options syn mss wscale_mine =
    if syn
    then (opt_mss ∷ 4 ∷ mss / 2 ^ 8 ∷ mss % 256 ∷ opt_nop ∷ opt_wscale ∷ 3 ∷ wscale_mine ∷ [])
    else []
