-- ===== src/TcpOptions/Format.antt =====
-- The options that a header carries, the bytes that stand for them, and what they tell the
-- receiver, against `ParseTCPOptions` and `GenerateTCPOptions`.
use qstack.Common.{
  ℕ, zero, suc, ◌+◌, ◌-◌, ◌*◌, ◌/◌, ◌%◌, ◌^◌, ◌<◌, ◌≤◌, ◌≡◌, refl, true, some, arith, ltb, ◌∙◌, ap,
  List, [], ◌∷◌, ◌++◌, length, length-append, subst, u16, u32, false,
}
use qstack.TcpOptions.{
  Peer, opt_nop, opt_mss, opt_wscale, opt_sack_permit, opt_timestamp, set_mss, long_at,
  parse_option, parse_loop, parse_tcp_options, generate_tcp_options, calculate_option_length,
}
use qstack.TcpOptions.Hang.{IsUnknown, parse_option_unknown}

pub data TcpOption : Type 0 where
  nop sack_permit : TcpOption
  mss wscale : ℕ → TcpOption
  timestamp : ℕ → ℕ → TcpOption
  unknown : ℕ → List ℕ → TcpOption

-- The bytes of a 32-bit number in network order.
abbrev pub long_bytes : ℕ → List ℕ
long_bytes n = n / 2 ^ 24 ∷ n / 2 ^ 16 % 256 ∷ n / 2 ^ 8 % 256 ∷ n % 256 ∷ []

abbrev pub bytes : TcpOption → List ℕ
bytes TcpOption.nop = opt_nop ∷ []
bytes TcpOption.sack_permit = opt_sack_permit ∷ 2 ∷ []
bytes (TcpOption.mss n) = opt_mss ∷ 4 ∷ n / 2 ^ 8 ∷ n % 2 ^ 8 ∷ []
bytes (TcpOption.wscale n) = opt_wscale ∷ 3 ∷ n ∷ []
bytes (TcpOption.timestamp ts echo) = opt_timestamp ∷ 10 ∷ (long_bytes ts ++ long_bytes echo)
bytes (TcpOption.unknown kind body) = kind ∷ (length body + 2) ∷ body

abbrev pub all_bytes : List TcpOption → List ℕ
all_bytes [] = []
all_bytes (x ∷ xs) = bytes x ++ all_bytes xs

-- The numbers fit their fields.
abbrev pub Fits : TcpOption → Type 0
Fits TcpOption.nop = Unit
Fits TcpOption.sack_permit = Unit
Fits (TcpOption.mss n) = n < 2 ^ 16
Fits (TcpOption.wscale n) = n < 2 ^ 8
Fits (TcpOption.timestamp ts echo) = (ts < 2 ^ 32) × (echo < 2 ^ 32)
Fits (TcpOption.unknown kind body) = IsUnknown kind

abbrev pub AllFit : List TcpOption → Type 0
AllFit [] = Unit
AllFit (x ∷ xs) = Fits x × AllFit xs

-- What an option tells.
abbrev pub tell : ℕ → TcpOption → Peer → Peer
tell now TcpOption.nop o = o
tell now TcpOption.sack_permit o = record o { sack_permit = true }
tell now (TcpOption.mss n) o = set_mss n o
tell now (TcpOption.wscale n) o = record o { wscale_peer = n }
tell now (TcpOption.timestamp ts echo) o = record o {
  saw_timestamp = true;
  ts_recent = ts;
  ts_last_ts_upd = now;
}
tell now (TcpOption.unknown kind body) o = o

abbrev pub tell_all : ℕ → List TcpOption → Peer → Peer
tell_all now [] o = o
tell_all now (x ∷ xs) o = tell_all now xs (tell now x o)

-- The bytes `xs` stand in memory from `i` on.
abbrev pub Holds : (ℕ → ℕ) → ℕ → List ℕ → Type 0
Holds tcpopt i [] = Unit
Holds tcpopt i (x ∷ xs) = (tcpopt i ≡ x) × Holds tcpopt (i + 1) xs

Holds-append :
    (tcpopt : ℕ → ℕ) (i j : ℕ) (xs ys : List ℕ)
    → j ≡ i + length xs
    → Holds tcpopt i (xs ++ ys)
    → Holds tcpopt i xs × Holds tcpopt j ys
Holds-append tcpopt i j [] ys e h = (tt, subst (λ k. Holds tcpopt k ys) (omega arith) h)
Holds-append tcpopt i j (x ∷ xs) ys e (h, hs) =
    let (l, r) = Holds-append tcpopt (i + 1) j xs ys (omega arith) hs in ((h, l), r)

long-bytes :
    (n : ℕ)
    → n < 2 ^ 32
    → u32 (n / 2 ^ 24 * 2 ^ 24 + n / 2 ^ 16 % 256 * 2 ^ 16 + n / 2 ^ 8 % 256 * 2 ^ 8 + n % 256) ≡ n
long-bytes n h = omega arith

bytes_nonempty : (x : TcpOption) → 0 < length (bytes x)
bytes_nonempty TcpOption.nop = omega arith
bytes_nonempty TcpOption.sack_permit = omega arith
bytes_nonempty (TcpOption.mss n) = omega arith
bytes_nonempty (TcpOption.wscale n) = omega arith
bytes_nonempty (TcpOption.timestamp ts echo) = omega arith
bytes_nonempty (TcpOption.unknown kind body) = omega arith

moved : (tcpopt : ℕ → ℕ) (j k : ℕ) {v : ℕ} → j ≡ k → tcpopt j ≡ v → tcpopt k ≡ v
moved tcpopt j k {v} e h = subst (λ i. tcpopt i ≡ v) e h

parse_one :
    (now : ℕ) (tcpopt : ℕ → ℕ) (len i : ℕ) (x : TcpOption) (o : Peer)
    → Fits x
    → Holds tcpopt i (bytes x)
    → i + length (bytes x) ≤ len
    → parse_option now tcpopt len i o ≡ some (i + length (bytes x), tell now x o)
unfolding parse_option
parse_one now tcpopt len i TcpOption.nop o f (h, _) le = rw h refl
parse_one now tcpopt len i TcpOption.sack_permit o f (h, (l, _)) le = ground arith
parse_one now tcpopt len i (TcpOption.mss n) o f (h, (l, (a, (b, _)))) le =
    let a2 : tcpopt (i + 2) ≡ n / 2 ^ 8 = moved tcpopt (i + 1 + 1) (i + 2) (omega arith) a in
    let b3 : tcpopt (i + 3) ≡ n % 2 ^ 8 = moved tcpopt (i + 1 + 1 + 1) (i + 3) (omega arith) b in
    let e : u16 (u16 (tcpopt (i + 2) * 2 ^ 8) + tcpopt (i + 3)) ≡ n = rw (a2, b3) (omega arith) in
    let room : ltb len (i + 2 + 4 - 2) ≡ false = ground arith in rw (h, l, room, e) refl
parse_one now tcpopt len i (TcpOption.wscale n) o f (h, (l, (a, _))) le = ground arith
parse_one now tcpopt len i (TcpOption.timestamp ts echo) o f (h, (l, (a, (b, (c, (d, _)))))) le =
    let a2 : tcpopt (i + 2) ≡ ts / 2 ^ 24 = moved tcpopt (i + 1 + 1) (i + 2) (omega arith) a in
    let b2 : tcpopt (i + 2 + 1) ≡ ts / 2 ^ 16 % 256 =
      moved tcpopt (i + 1 + 1 + 1) (i + 2 + 1) (omega arith) b in
    let c2 : tcpopt (i + 2 + 2) ≡ ts / 2 ^ 8 % 256 =
      moved tcpopt (i + 1 + 1 + 1 + 1) (i + 2 + 2) (omega arith) c in
    let d2 : tcpopt (i + 2 + 3) ≡ ts % 256 =
      moved tcpopt (i + 1 + 1 + 1 + 1 + 1) (i + 2 + 3) (omega arith) d in
    let e : long_at tcpopt (i + 2) ≡ ts = rw (a2, b2, c2, d2) (long-bytes ts f.0) in
    let room : ltb len (i + 2 + 10 - 2) ≡ false = ground arith in rw (h, l, room, e) refl
parse_one now tcpopt len i (TcpOption.unknown kind body) o f (h, (l, _)) le =
    let u : IsUnknown (tcpopt i) = rw h f in
    parse_option_unknown now tcpopt len i o u (omega arith) ∙ ap (λ k. some (k, o)) (omega arith)

parse_list :
    (fuel now : ℕ) (tcpopt : ℕ → ℕ) (len i : ℕ) (xs : List TcpOption) (o : Peer)
    → AllFit xs
    → Holds tcpopt i (all_bytes xs)
    → i + length (all_bytes xs) ≡ len
    → length (all_bytes xs) < fuel
    → parse_loop fuel now tcpopt len i o ≡ some (tell_all now xs o)
unfolding parse_loop
parse_list zero now tcpopt len i xs o f h e lt = absurd (omega arith)
parse_list (suc fuel) now tcpopt len i [] o f h e lt =
    let stop : ltb i len ≡ false = ground arith in rw stop refl
parse_list (suc fuel) now tcpopt len i (x ∷ xs) o (f, fs) h e lt =
    let j = i + length (bytes x) in
    let total = length-append (bytes x) (all_bytes xs) in
    let some_ = bytes_nonempty x in
    let (hx, hs) = Holds-append tcpopt i j (bytes x) (all_bytes xs) refl h in
    let inside : ltb i len ≡ true = ground arith in
    let one = parse_one now tcpopt len i x o f hx (omega arith) in
    let rest =
      parse_list fuel now tcpopt len j xs (tell now x o) fs hs (omega arith) (omega arith) in
    rw (inside, one) rest

-- `ParseTCPOptions` reads the options of any list, whose numbers fit their fields, back from the
-- bytes that stand for them, in the order of the list, and comes to an end.
pub parse_tcp_options-all_bytes :
    (now : ℕ) (tcpopt : ℕ → ℕ) (xs : List TcpOption) (o : Peer)
    → AllFit xs
    → Holds tcpopt 0 (all_bytes xs)
    → parse_tcp_options now tcpopt (length (all_bytes xs)) o ≡ some (tell_all now xs o)
unfolding parse_tcp_options
parse_tcp_options-all_bytes now tcpopt xs o f h =
    parse_list (suc (length (all_bytes xs))) now tcpopt (length (all_bytes xs)) 0 xs o f h
      (omega arith) (omega arith)

-- What `GenerateTCPOptions` writes for a SYN, over the length of `calculate_option_length`, gives
-- the peer that runs `ParseTCPOptions` on it the segment size and the window scale of the sender,
-- for a uint16_t and a uint8_t.
pub parse_tcp_options-generate_tcp_options :
    (now : ℕ) (tcpopt : ℕ → ℕ) (size scale : ℕ) (o : Peer)
    → size < 2 ^ 16
    → scale < 2 ^ 8
    → Holds tcpopt 0 (generate_tcp_options true size scale)
    → parse_tcp_options now tcpopt (calculate_option_length true) o
      ≡ some (record (set_mss size o) { wscale_peer = scale })
unfolding generate_tcp_options calculate_option_length
parse_tcp_options-generate_tcp_options now tcpopt size scale o hm hw h =
    parse_tcp_options-all_bytes now tcpopt
      (TcpOption.mss size ∷ TcpOption.nop ∷ TcpOption.wscale scale ∷ []) o (hm, (tt, (hw, tt))) h
