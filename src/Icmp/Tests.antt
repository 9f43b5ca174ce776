-- ===== src/Icmp/Tests.antt =====
-- Messages with four bytes of data, and one that is shorter than a header.
use qstack.Common.{ℕ, ◌≡◌, ◌↔◌, ◌+◌, refl, some, none, List, [], ◌∷◌, arith}
use qstack.Icmp.{
  icmp_checksum, sum_words, fold_carries, icmp_echo, icmp_echoreply, IpPacket, Io, request_icmp,
  process_icmp_packet,
}
use qstack.Icmp.Checksum.{AreBytes}
use qstack.Icmp.Echo.{carried, framed, request_icmp-process_icmp_packet}
use qstack.Icmp.Damage.{IsDamaged, here, there, process_icmp_packet-IsDamaged}

abbrev own : List ℕ
own = 16777226 ∷ 33554442 ∷ []

abbrev data_ : List ℕ
data_ = 112 ∷ 105 ∷ 110 ∷ 103 ∷ []

data-AreBytes : AreBytes data_
data-AreBytes = (omega arith, (omega arith, (omega arith, (omega arith, tt))))

-- A host with that hardware address and a buffer of that `l3_len`.
abbrev host : ℕ → ℕ → Io
host l3_len x = record { swmbuf = some l3_len; haddr = 2 ∷ 0 ∷ 0 ∷ 0 ∷ 0 ∷ x ∷ [] }

request_icmp-process_icmp_packet_example :
    let request = carried 50331658 33554442 icmp_echo 7 1 data_ in
    let reply = carried 33554442 50331658 icmp_echoreply 7 1 data_ in
    (request_icmp (host 20 1) 50331658 33554442 7 1 data_
      ≡ some (framed (2 ∷ 0 ∷ 0 ∷ 0 ∷ 0 ∷ 1 ∷ []) 20 request))
    × (((framed (2 ∷ 0 ∷ 0 ∷ 0 ∷ 0 ∷ 1 ∷ []) 20 request).pkt_len ≡ 14 + request.tot_len)
        ↔ ◌≡◌ {A = ℕ} 20 20)
    × (process_icmp_packet (host 0 2) own request request.tot_len
        ≡ some (some (framed (2 ∷ 0 ∷ 0 ∷ 0 ∷ 0 ∷ 2 ∷ []) 0 reply)))
    × (icmp_checksum reply.content ≡ 0)
request_icmp-process_icmp_packet_example =
    request_icmp-process_icmp_packet (2 ∷ 0 ∷ 0 ∷ 0 ∷ 0 ∷ 1 ∷ []) (2 ∷ 0 ∷ 0 ∷ 0 ∷ 0 ∷ 2 ∷ []) own
      20 0 50331658 33554442 7 1 data_ refl (omega arith) (omega arith) data-AreBytes (omega arith)

-- The message of that request, and the same message with another first byte of data.
abbrev sent : List ℕ
sent = 8 ∷ 0 ∷ 17 ∷ 47 ∷ 7 ∷ 0 ∷ 1 ∷ 0 ∷ data_

abbrev damaged : IpPacket
damaged = record {
  ihl = 5;
  tot_len = 32;
  ttl = 64;
  protocol = 1;
  saddr = 50331658;
  daddr = 33554442;
  content = 8 ∷ 0 ∷ 17 ∷ 47 ∷ 7 ∷ 0 ∷ 1 ∷ 0 ∷ 113 ∷ 105 ∷ 110 ∷ 103 ∷ [];
}

sent_checked : icmp_checksum sent ≡ 0
unfolding icmp_checksum sum_words fold_carries
sent_checked = refl

its_damage : IsDamaged sent damaged.content
its_damage =
    there 8 0
      (there 17 47 (there 7 0 (there 1 0 (here 112 105 113 105 (110 ∷ 103 ∷ []) (omega arith)))))

sent-AreBytes : AreBytes sent
sent-AreBytes = (
  omega arith,
  (
    omega arith,
    (
      omega arith,
      (omega arith, (omega arith, (omega arith, (omega arith, (omega arith, data-AreBytes))))),
    ),
  ),
)

damaged-AreBytes : AreBytes damaged.content
damaged-AreBytes = (
  omega arith,
  (
    omega arith,
    (
      omega arith,
      (
        omega arith,
        (
          omega arith,
          (
            omega arith,
            (
              omega arith,
              (omega arith, (omega arith, (omega arith, (omega arith, (omega arith, tt))))),
            ),
          ),
        ),
      ),
    ),
  ),
)

process_icmp_packet-IsDamaged_example : process_icmp_packet (host 20 2) own damaged 32 ≡ some none
process_icmp_packet-IsDamaged_example =
    process_icmp_packet-IsDamaged (host 20 2) own sent damaged sent_checked its_damage sent-AreBytes
      damaged-AreBytes (omega arith)
