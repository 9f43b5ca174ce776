-- ===== src/TcpOptions/Tests.antt =====
-- Concrete headers, and the theorems on them.
use qstack.Common.{ℕ, false, ◌≡◌, refl, none, some, List, [], ◌∷◌, get_or, arith, true}
use qstack.TcpOptions.{
  Peer, set_mss, parse_loop, parse_tcp_options, generate_tcp_options, calculate_option_length,
}
use qstack.TcpOptions.Hang.{parse_loop_hangs}
use qstack.TcpOptions.Format.{
  TcpOption, all_bytes, tell_all, parse_tcp_options-all_bytes,
  parse_tcp_options-generate_tcp_options,
}

abbrev new_peer : Peer
new_peer = record {
  mss = 1460;
  eff_mss = 1460;
  wscale_peer = 0;
  sack_permit = false;
  saw_timestamp = false;
  ts_recent = 0;
  ts_last_ts_upd = 0;
}

abbrev memory : List ℕ → ℕ → ℕ
memory xs i = get_or xs i 0

-- A TCP fast open cookie request without its length.
parse_loop_hangs_example : parse_loop 100 0 (memory (34 ∷ 0 ∷ 1 ∷ 1 ∷ [])) 4 0 new_peer ≡ none
parse_loop_hangs_example =
    parse_loop_hangs 100 0 (memory (34 ∷ 0 ∷ 1 ∷ 1 ∷ [])) 4 0 new_peer (omega arith)
      (record {
        option = omega arith;
        mss = omega arith;
        wscale = omega arith;
        sack_permit = omega arith;
        timestamp = omega arith;
      })
      refl

abbrev linux_syn : List TcpOption
linux_syn =
    TcpOption.mss 1400
    ∷ TcpOption.sack_permit
    ∷ TcpOption.timestamp 123456789 0
    ∷ TcpOption.nop
    ∷ TcpOption.wscale 7
    ∷ []

parse_tcp_options-all_bytes_example :
    parse_tcp_options 55 (memory (all_bytes linux_syn)) 20 new_peer
    ≡ some (tell_all 55 linux_syn new_peer)
parse_tcp_options-all_bytes_example =
    parse_tcp_options-all_bytes 55 (memory (all_bytes linux_syn)) linux_syn new_peer
      (omega arith, (tt, ((omega arith, omega arith), (tt, (omega arith, tt))))) (ground arith)

parse_tcp_options-generate_tcp_options_example :
    parse_tcp_options 9
      (memory (generate_tcp_options true 1460 7))
      (calculate_option_length true)
      new_peer
    ≡ some (record (set_mss 1460 new_peer) { wscale_peer = 7 })
unfolding generate_tcp_options
parse_tcp_options-generate_tcp_options_example =
    parse_tcp_options-generate_tcp_options 9 (memory (generate_tcp_options true 1460 7)) 1460 7
      new_peer (omega arith) (omega arith)
      (refl, (refl, (refl, (refl, (refl, (refl, (refl, (refl, tt))))))))
