-- ===== src/Icmp/Echo.antt =====
-- A request and its answer at the host that it is sent to.
use qstack.Common.{
  ℕ, ◌+◌, ◌-◌, ◌≤◌, ◌<◌, ◌≡◌, ◌↔◌, ◌∙◌, refl, ap, true, false, some, Option, List, [], ◌∷◌, ltb,
  u16, length, arith,
}
use qstack.Icmp.{
  message, icmp_checksum, icmp_echo, icmp_echoreply, ipproto_icmp, htons, IpPacket, Io, Sent,
  eth_hdr_generate, generate_ip_packet_standalone, icmp_output, request_icmp, read_bytes,
  process_icmp_echo_request, is_own, process_icmp_packet,
}
use qstack.Icmp.Checksum.{AreBytes, two_bytes, icmp_checksum-message}

htons_again : (x : ℕ) → x < 65536 → htons (htons x) ≡ x
htons_again x h = omega arith

read_bytes-length : (l : List ℕ) → read_bytes (length l) l ≡ some l
unfolding read_bytes
read_bytes-length [] = refl
read_bytes-length (x ∷ l) = rw (read_bytes-length l) refl

pub read_all : (n : ℕ) (l : List ℕ) → n ≡ length l → read_bytes n l ≡ some l
read_all n l e = ap (λ k. read_bytes k l) e ∙ read_bytes-length l

-- What carries a message, with its checksum in it.
unfoldable pub carried : ℕ → ℕ → ℕ → ℕ → ℕ → List ℕ → IpPacket
carried saddr daddr icmp_type id seq data_ =
    let c = icmp_checksum (message icmp_type 0 0 id seq data_) in
    record {
      ihl = 5;
      tot_len = 28 + length data_;
      ttl = 64;
      protocol = ipproto_icmp;
      saddr = saddr;
      daddr = daddr;
      content = message icmp_type 0 c id seq data_;
    }

-- What the driver is given to send that, from an interface with the address `haddr` and in a buffer
-- whose `l3_len` is that.
abbrev pub framed : List ℕ → ℕ → IpPacket → Sent
framed haddr l3_len packet = record {
  ethh = record { h_dest = 48 ∷ 48 ∷ 48 ∷ 48 ∷ 48 ∷ 48 ∷ []; h_source = haddr; h_proto = 2048 };
  packet = packet;
  pkt_len = 14 + l3_len + length packet.content;
}

-- What is sent carries the fields that it is called with, in the other byte order.
icmp_output-carried :
    (haddr : List ℕ) (l3_len saddr daddr t id seq : ℕ) (l : List ℕ)
    → length l ≤ 65507
    → icmp_output (record { swmbuf = some l3_len; haddr = haddr }) saddr daddr t 0 id seq l
      ≡ some (framed haddr l3_len (carried saddr daddr t (htons id) (htons seq) l))
unfolding icmp_output generate_ip_packet_standalone eth_hdr_generate carried
icmp_output-carried haddr l3_len saddr daddr t id seq l few =
    let e : u16 (20 + (8 + length l)) ≡ 28 + length l = omega arith in
    let len : 14 + l3_len + 8 + length l
        ≡ 14 + l3_len + length (message t 0 0 (htons id) (htons seq) l) =
      omega arith in
    rw (e, len) refl

-- What a valid request gives.
process_icmp_echo_request-valid :
    (io : Io) (saddr daddr ttl protocol c id seq : ℕ) (l : List ℕ)
    → id < 65536
    → seq < 65536
    → length l ≤ 65507
    → icmp_checksum (message icmp_echo 0 c id seq l) ≡ 0
    → process_icmp_echo_request io
        (record {
          ihl = 5;
          tot_len = 28 + length l;
          ttl = ttl;
          protocol = protocol;
          saddr = saddr;
          daddr = daddr;
          content = message icmp_echo 0 c id seq l;
        })
        (28 + length l)
      ≡ some (icmp_output io daddr saddr icmp_echoreply 0 (htons id) (htons seq) l)
unfolding process_icmp_echo_request
process_icmp_echo_request-valid io saddr daddr ttl protocol c id seq l hid hseq few valid =
    let n1 : 28 + length l - 20 ≡ 8 + length l = omega arith in
    let n2 : u16 (8 + length l + 65536 - 8) ≡ length l = omega arith in
    let long : ltb (28 + length l) 20 ≡ false = ground arith in
    let whole : read_bytes (8 + length l) (message icmp_echo 0 c id seq l)
        ≡ some (message icmp_echo 0 c id seq l) =
      read_all (8 + length l) (message icmp_echo 0 c id seq l) (omega arith) in
    rw (long, n1, whole, valid, n2, read_bytes-length l, two_bytes id, two_bytes seq) refl

-- The packet that a call gives whose `id` and `seq` are those of the message, swapped.
icmp_output-swapped :
    (haddr : List ℕ) (l3_len saddr daddr t id seq : ℕ) (l : List ℕ)
    → id < 65536
    → seq < 65536
    → length l ≤ 65507
    → icmp_output
        (record { swmbuf = some l3_len; haddr = haddr })
        saddr
        daddr
        t
        0
        (htons id)
        (htons seq)
        l
      ≡ some (framed haddr l3_len (carried saddr daddr t id seq l))
icmp_output-swapped haddr l3_len saddr daddr t id seq l hid hseq few =
    let F : IpPacket → Option Sent = λ p. some (framed haddr l3_len p) in
    icmp_output-carried haddr l3_len saddr daddr t (htons id) (htons seq) l few
    ∙ ap (λ i. F (carried saddr daddr t i (htons (htons seq)) l)) (htons_again id hid)
    ∙ ap (λ s. F (carried saddr daddr t id s l)) (htons_again seq hseq)

-- Ping. A request whose data fit in an IP packet is given to the driver in a frame for the Ethernet
-- address 30:30:30:30:30:30, the characters "000000", with a length that is the frame's only where the
-- buffer's `l3_len`, which is not written, is 20 already. Where that packet comes to a host that has
-- the address `daddr` and a buffer, with the length that its header gives: that host gives its driver
-- one echo reply, in such a frame, from `daddr` back to the sender with the same id, sequence number
-- and data, and the checksum of that reply is 0.
pub request_icmp-process_icmp_packet :
    (haddr haddr2 own : List ℕ) (l3 l3_2 saddr daddr id seq : ℕ) (l : List ℕ)
    → is_own own daddr ≡ true
    → id < 65536
    → seq < 65536
    → AreBytes l
    → length l ≤ 65507
    → let asks : Io = record { swmbuf = some l3; haddr = haddr } in
      let answers : Io = record { swmbuf = some l3_2; haddr = haddr2 } in
      let request = carried saddr daddr icmp_echo id seq l in
      let reply = carried daddr saddr icmp_echoreply id seq l in
      (request_icmp asks saddr daddr id seq l ≡ some (framed haddr l3 request))
      × (((framed haddr l3 request).pkt_len ≡ 14 + request.tot_len) ↔ (l3 ≡ 20))
      × (process_icmp_packet answers own request request.tot_len
          ≡ some (some (framed haddr2 l3_2 reply)))
      × (icmp_checksum reply.content ≡ 0)
unfolding carried process_icmp_packet request_icmp
request_icmp-process_icmp_packet haddr haddr2 own l3 l3_2 saddr daddr id seq l mine hid hseq b few =
    let valid =
      icmp_checksum-message icmp_echo 0 id seq l (omega arith) (omega arith) hid hseq b
        (omega arith) in
    let c = icmp_checksum (message icmp_echo 0 0 id seq l) in
    let asked = icmp_output-swapped haddr l3 saddr daddr icmp_echo id seq l hid hseq few in
    let sent = icmp_output-swapped haddr2 l3_2 daddr saddr icmp_echoreply id seq l hid hseq few in
    let answers : Io = record { swmbuf = some l3_2; haddr = haddr2 } in
    let answer =
      process_icmp_echo_request-valid answers saddr daddr 64 ipproto_icmp c id seq l hid hseq few
        valid in
    let valid_too =
      icmp_checksum-message icmp_echoreply 0 id seq l (omega arith) (omega arith) hid hseq b
        (omega arith) in
    (asked, (λ e. omega arith, λ e. omega arith), rw mine (answer ∙ ap some sent), valid_too)
