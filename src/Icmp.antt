-- ===== src/Icmp.antt =====
-- Echo messages, qstack/src/icmp.c, with the header that generate_ip_packet_standalone of ip_out.c
-- writes for them and the Ethernet header of eth_out.c. A message is its bytes; a 16-bit field has
-- its low byte first, as the machine stores it. The name `mbuf_get_icmphdr_ptr`, which no header has,
-- is read as `mbuf_get_icmp_ptr`. What prints is left out.
pub mod Checksum
pub mod Damage
pub mod Echo
pub mod Tests
use qstack.Common.{
  ℕ, zero, suc, ◌+◌, ◌-◌, ◌*◌, ◌/◌, ◌%◌, ◌^◌, Bool, true, false, not, ◌||◌, Option, none, some,
  List, [], ◌∷◌, ◌++◌, ◌==◌, ltb, if◌then◌else◌, ◌>>=◌, u8, u16, u32, length, get_or,
}

abbrev pub icmp_echoreply : ℕ
icmp_echoreply = 0

abbrev pub icmp_echo : ℕ
icmp_echo = 8

abbrev pub ipproto_icmp : ℕ
ipproto_icmp = 1

-- The other order of two bytes.
abbrev pub htons : ℕ → ℕ
htons x = x % 256 * 256 + x / 256 % 256

-- The loop over the words, and the last byte of an odd number of them.
unfoldable pub sum_words : ℕ → List ℕ → ℕ
sum_words sum [] = sum
sum_words sum (a ∷ []) = u32 (sum + a)
sum_words sum (a ∷ b ∷ l) = sum_words (u32 (sum + (a + b * 256))) l

-- The two carries, and the complement.
unfoldable pub fold_carries : ℕ → ℕ
fold_carries sum =
    let s1 = sum / 65536 + sum % 65536 in let s2 = s1 + s1 / 65536 in 65535 - s2 % 65536

unfoldable pub icmp_checksum : List ℕ → ℕ
icmp_checksum bytes = fold_carries (sum_words 0 bytes)

-- `struct icmphdr` and the data behind it.
abbrev pub message : ℕ → ℕ → ℕ → ℕ → ℕ → List ℕ → List ℕ
message icmp_type icmp_code checksum id seq data_ =
    icmp_type
    ∷ icmp_code
    ∷ checksum % 256
    ∷ checksum / 256
    ∷ id % 256
    ∷ id / 256
    ∷ seq % 256
    ∷ seq / 256
    ∷ data_

-- The fields of an IP header that a packet has, and what stands behind it in its buffer.
pub record IpPacket : Type 0 where
  pub ihl : ℕ
  pub tot_len : ℕ
  pub ttl : ℕ
  pub protocol : ℕ
  pub saddr : ℕ
  pub daddr : ℕ
  pub content : List ℕ

-- `struct ethhdr`.
pub record Ethhdr : Type 0 where
  pub h_dest : List ℕ
  pub h_source : List ℕ
  pub h_proto : ℕ

-- What is sent: the two headers and what is behind them, and the length that the driver is told.
pub record Sent : Type 0 where
  pub ethh : Ethhdr
  pub packet : IpPacket
  pub pkt_len : ℕ

-- A host: the buffer that `io_get_swmbuf` gives, by what its `l3_len` is, with `none` for NULL, and
-- the hardware address of the first interface.
pub record Io : Type 0 where
  pub swmbuf : Option ℕ
  pub haddr : List ℕ

-- The length of the Ethernet header, which is written to `l2_len`.
abbrev pub l2_len : ℕ
l2_len = 14

unfoldable pub eth_hdr_generate : ℕ → List ℕ → List ℕ → Ethhdr
eth_hdr_generate h_proto haddr dst_haddr = record {
  h_dest = dst_haddr;
  h_source = haddr;
  h_proto = h_proto;
}

-- The hardware address of the destination is the string "000000", whoever it is; `l3_len` is not
-- written.
unfoldable pub generate_ip_packet_standalone : List ℕ → ℕ → ℕ → ℕ → ℕ → List ℕ → Ethhdr × IpPacket
unfolding eth_hdr_generate
generate_ip_packet_standalone haddr protocol saddr daddr payloadlen content = (
  eth_hdr_generate 2048 haddr (48 ∷ 48 ∷ 48 ∷ 48 ∷ 48 ∷ 48 ∷ []),
  record {
    ihl = 5;
    tot_len = u16 (20 + payloadlen);
    ttl = 64;
    protocol = protocol;
    saddr = saddr;
    daddr = daddr;
    content = content;
  },
)

-- What is given to the driver.
unfoldable pub icmp_output : Io → ℕ → ℕ → ℕ → ℕ → ℕ → ℕ → List ℕ → Option Sent
icmp_output io saddr daddr icmp_type icmp_code icmp_id icmp_seq icmpd =
    let filled = message icmp_type icmp_code 0 (htons icmp_id) (htons icmp_seq) icmpd in
    let sum = icmp_checksum filled in
    let sent = message icmp_type icmp_code sum (htons icmp_id) (htons icmp_seq) icmpd in
    let len = 8 + length icmpd in
    let (ethh, packet) = generate_ip_packet_standalone io.haddr ipproto_icmp saddr daddr len sent in
    (do
      l3_len ← io.swmbuf
      some record { ethh = ethh; packet = packet; pkt_len = l2_len + l3_len + 8 + length icmpd })

unfoldable pub request_icmp : Io → ℕ → ℕ → ℕ → ℕ → List ℕ → Option Sent
request_icmp io saddr daddr icmp_id icmp_sequence icmpd =
    icmp_output io saddr daddr icmp_echo 0 (htons icmp_id) (htons icmp_sequence) icmpd

-- The first `n` bytes: `none` past the end of the buffer.
unfoldable pub read_bytes : ℕ → List ℕ → Option (List ℕ)
read_bytes zero l = some []
read_bytes (suc n) [] = none
read_bytes (suc n) (x ∷ l) = (do rest ← read_bytes n l; some (x ∷ rest))

abbrev pub skip : ℕ → List ℕ → List ℕ
skip zero l = l
skip (suc n) [] = []
skip (suc n) (x ∷ l) = skip n l

-- A field of 16 bits at a place of the message.
abbrev pub word_at : ℕ → List ℕ → ℕ
word_at i l = get_or l i 0 + get_or l (i + 1) 0 * 256

-- What is sent in answer: `none` for a packet whose length ends the process, or where bytes behind
-- the buffer are read. The length of the data is cut to 16 bits: below 8 bytes it is a large one.
unfoldable pub process_icmp_echo_request : Io → IpPacket → ℕ → Option (Option Sent)
process_icmp_echo_request io p len =
    let icmp_len = len - p.ihl * 4 in
    let icmph = p.content in
    let answer = (do
      icmpd ← read_bytes (u16 (icmp_len + 65536 - 8)) (skip 8 icmph)
      some (
          icmp_output io p.daddr p.saddr icmp_echoreply 0 (htons (word_at 4 icmph))
            (htons (word_at 6 icmph)) icmpd)) in
    let checked = (do
      bytes ← read_bytes icmp_len icmph
      (if icmp_checksum bytes == 0 then answer else some none)) in
    if ltb len (p.ihl * 4) then none else checked

-- The test over the addresses of the interfaces.
abbrev pub is_own : List ℕ → ℕ → Bool
is_own [] daddr = false
is_own (x ∷ l) daddr = (daddr == x) || is_own l daddr

unfoldable pub process_icmp_packet : Io → List ℕ → IpPacket → ℕ → Option (Option Sent)
process_icmp_packet io own p ip_len =
    let answer = process_icmp_echo_request io p ip_len in
    if not (is_own own p.daddr)
    then some none
    else if get_or p.content 0 0 == icmp_echo
    then answer
    else some none
