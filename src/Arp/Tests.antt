-- ===== src/Arp/Tests.antt =====
-- A host 10.0.0.1 that asks for 10.0.0.2 and gets its answer.
use qstack.Common.{
  ℕ, ◌≡◌, refl, true, false, ◌&&◌, none, some, List, [], ◌∷◌, ◌==◌, if◌then◌else◌, OnSome,
}
use qstack.Arp.{
  ArpEntry, Arphdr, Arp, arp_init, arp_output, request_arp, process_arp_packet, is_requested,
  sarp_set, sarp_loop, sarp_lookup, inaddr_loopback, register_arp_entry, hash, htonl,
}
use qstack.Arp.Table.{learned, with_address, is_taken, learned-process_arp_packet}
use qstack.Arp.Requests.{
  AreDistinct, IsReached, Step, is_answer, IsReached-AreDistinct, is_requested-process_arp_packet,
}

abbrev own : ℕ
own = 16777226

abbrev other : ℕ
other = 33554442

abbrev own_haddr : List ℕ
own_haddr = 2 ∷ 0 ∷ 0 ∷ 0 ∷ 0 ∷ 1 ∷ []

abbrev other_haddr : List ℕ
other_haddr = 2 ∷ 0 ∷ 0 ∷ 0 ∷ 0 ∷ 2 ∷ []

abbrev no_entry : ArpEntry
no_entry = record { ip = 0; ip_mask = 0; haddr = []; last_used = 0 }

abbrev host : Arp
host = record {
  arp_tables = λ i. [];
  list = [];
  sarp_table = λ i. no_entry;
  sarp_num = 0;
  eths_num = 1;
  eths = λ i. record { ip_addr = own; haddr = own_haddr; ifindex = 0 };
  sent = [];
}

abbrev answer : Arphdr
answer = record {
  ar_hrd = 1;
  ar_pro = 2048;
  ar_hln = 6;
  ar_pln = 4;
  ar_op = 2;
  ar_sha = other_haddr;
  ar_sip = other;
  ar_tha = own_haddr;
  ar_tip = own;
}

abbrev asked : Arp
asked = request_arp true other 0 5 (arp_init host)

asked-IsReached : IsReached asked
asked-IsReached = IsReached.next (IsReached.begin host) (Step.request true other 0 5)

learned-process_arp_packet_example :
    learned (process_arp_packet true 0 7 answer asked).1 other
    ≡ (if is_taken answer then with_address other other_haddr asked other else learned asked other)
learned-process_arp_packet_example = learned-process_arp_packet true 0 7 answer asked other

IsReached-AreDistinct_example : AreDistinct asked.list
IsReached-AreDistinct_example = IsReached-AreDistinct asked-IsReached

is_requested-process_arp_packet_example :
    is_requested other (process_arp_packet true 0 7 answer asked).1.list ≡ (
      if is_answer answer && (other == answer.ar_sip) then false else is_requested other asked.list)
is_requested-process_arp_packet_example =
    is_requested-process_arp_packet true 0 7 answer other asked-IsReached

one_frame :
    (is_requested other asked.list ≡ true)
    × (asked.sent ≡ (request_arp true other 0 6 asked).sent)
    × (is_requested other (process_arp_packet true 0 7 answer asked).1.list ≡ false)
    × (learned (process_arp_packet true 0 7 answer asked).1 other ≡ some other_haddr)
unfolding request_arp arp_init arp_output process_arp_packet register_arp_entry hash
one_frame = (refl, refl, refl, refl)

same_net :
    OnSome
      (λ a'. (sarp_lookup other a' ≡ some own_haddr) × (sarp_lookup 33554443 a' ≡ none))
      (sarp_set own 24 own_haddr host)
unfolding sarp_set sarp_lookup sarp_loop
same_net = (refl, refl)

-- The address 127.0.0.1 of a packet is not the number that it is compared with.
loopback_order : (htonl inaddr_loopback == inaddr_loopback) ≡ false
loopback_order = refl
