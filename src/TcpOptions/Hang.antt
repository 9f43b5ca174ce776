-- ===== src/TcpOptions/Hang.antt =====
-- An option that `ParseTCPOptions` does not know, and one that it never leaves.
use qstack.Common.{
  ℕ, zero, suc, ◌+◌, ◌-◌, ◌<◌, ◌≤◌, ◌≡◌, refl, ◌≢◌, none, some, arith, ltb, true, ◌∙◌, ap,
}
use qstack.TcpOptions.{
  Peer, opt_mss, opt_wscale, opt_sack_permit, opt_timestamp, parse_option, parse_loop,
}

pub record IsUnknown (kind : ℕ) : Type 0 where
  pub option : 1 < kind
  pub mss : kind ≢ opt_mss
  pub wscale : kind ≢ opt_wscale
  pub sack_permit : kind ≢ opt_sack_permit
  pub timestamp : kind ≢ opt_timestamp

pub parse_option_unknown :
    (cur_ts : ℕ) (tcpopt : ℕ → ℕ) (len i : ℕ) (o : Peer)
    → IsUnknown (tcpopt i)
    → i + tcpopt (i + 1) ≤ len
    → parse_option cur_ts tcpopt len i o ≡ some (i + tcpopt (i + 1), o)
unfolding parse_option
parse_option_unknown cur_ts tcpopt len i o u fits =
    let same : (i + 2 + tcpopt (i + 1) - 2) ≡ i + tcpopt (i + 1) = omega arith in
    let k = u.option in
    let m = u.mss in
    let w = u.wscale in let s = u.sack_permit in let t = u.timestamp in rw same (ground arith)

-- At an option of a kind that the function does not know, with a length byte of 0, the loop of
-- `ParseTCPOptions` runs for ever: no fuel is enough.
pub parse_loop_hangs :
    (fuel cur_ts : ℕ) (tcpopt : ℕ → ℕ) (len i : ℕ) (o : Peer)
    → i < len
    → IsUnknown (tcpopt i)
    → tcpopt (i + 1) ≡ 0
    → parse_loop fuel cur_ts tcpopt len i o ≡ none
unfolding parse_loop
parse_loop_hangs zero cur_ts tcpopt len i o lt u z = refl
parse_loop_hangs (suc fuel) cur_ts tcpopt len i o lt u z =
    let stays : parse_option cur_ts tcpopt len i o ≡ some (i, o) =
      parse_option_unknown cur_ts tcpopt len i o u (omega arith)
      ∙ ap (λ n. some (n, o)) (omega arith) in
    let again = parse_loop_hangs fuel cur_ts tcpopt len i o lt u z in
    let inside : ltb i len ≡ true = ground arith in rw (inside, stays) again
