-- ===== src/Arp.antt =====
-- Addresses of the local network, qstack/src/arp.c with include/arp.h: the learned and the static
-- table, and the requests that wait for an answer. Addresses are numbers in the order of the
-- network, as the source keeps them on a little-endian machine; the fields of a packet that the
-- source converts are converted. An allocation does not fail.
pub mod Table
pub mod Requests
pub mod Tests
use Prim.Native.Nat.{bit_and}
use qstack.Common.{
  ℕ, zero, suc, ◌+◌, ◌-◌, ◌*◌, ◌/◌, ◌%◌, ◌^◌, Bool, true, false, not, ◌&&◌, ◌||◌, Option, none,
  some, List, [], ◌∷◌, ◌++◌, ◌==◌, ltb, if◌then◌else◌, ◌>>=◌, update, u32,
}

abbrev pub arp_table_size : ℕ
arp_table_size = 16

-- The host's order of four bytes, and back.
abbrev pub htonl : ℕ → ℕ
htonl x = x % 256 * 2 ^ 24 + x / 2 ^ 8 % 256 * 2 ^ 16 + x / 2 ^ 16 % 256 * 2 ^ 8 + x / 2 ^ 24 % 256

-- The macro HASH.
unfoldable pub hash : ℕ → ℕ
hash ip = bit_and (htonl ip) (arp_table_size - 1)

-- `struct arp_table`: its `next` is the list that it stands in.
pub record ArpEntry : Type 0 where
  pub ip : ℕ
  pub ip_mask : ℕ
  pub haddr : List ℕ
  pub last_used : ℕ

-- `struct arp_queue_entry`.
pub record ArpQueueEntry : Type 0 where
  pub ip : ℕ
  pub nif_out : ℕ
  pub ts_out : ℕ

pub record Eth : Type 0 where
  pub ip_addr : ℕ
  pub haddr : List ℕ
  pub ifindex : ℕ

-- `struct arphdr`.
pub record Arphdr : Type 0 where
  pub ar_hrd : ℕ
  pub ar_pro : ℕ
  pub ar_hln : ℕ
  pub ar_pln : ℕ
  pub ar_op : ℕ
  pub ar_sha : List ℕ
  pub ar_sip : ℕ
  pub ar_tha : List ℕ
  pub ar_tip : ℕ

-- A frame that is sent: the interface, the two hardware addresses and the message.
pub record Frame : Type 0 where
  pub nif : ℕ
  pub h_dest : List ℕ
  pub h_source : List ℕ
  pub arph : Arphdr

-- The tables of the configuration, the list of requests, and the frames sent, newest first.
pub record Arp : Type 0 where
  pub arp_tables : ℕ → List ArpEntry
  pub list : List ArpQueueEntry
  pub sarp_table : ℕ → ArpEntry
  pub sarp_num : ℕ
  pub eths_num : ℕ
  pub eths : ℕ → Eth
  pub sent : List Frame

abbrev pub arp_op_request : ℕ
arp_op_request = 1

abbrev pub arp_op_reply : ℕ
arp_op_reply = 2

abbrev pub eth_p_ip : ℕ
eth_p_ip = 2048

abbrev pub inaddr_loopback : ℕ
inaddr_loopback = 2130706433

abbrev pub broadcast : List ℕ
broadcast = 255 ∷ 255 ∷ 255 ∷ 255 ∷ 255 ∷ 255 ∷ []

unfoldable pub arp_init : Arp → Arp
arp_init a = record a { arp_tables = λ i. []; list = [] }

-- `has_mbuf` is whether `io_get_swmbuf` gives one; without one nothing is sent.
unfoldable pub arp_output : Bool → ℕ → ℕ → ℕ → List ℕ → Arp → Arp
arp_output has_mbuf nif opcode dst_ip dst_haddr a =
    let e = a.eths 0 in
    let arph : Arphdr = record {
      ar_hrd = 1;
      ar_pro = eth_p_ip;
      ar_hln = 6;
      ar_pln = 4;
      ar_op = opcode;
      ar_sha = e.haddr;
      ar_sip = e.ip_addr;
      ar_tha = dst_haddr;
      ar_tip = dst_ip;
    } in
    let f : Frame = record { nif = nif; h_dest = dst_haddr; h_source = e.haddr; arph = arph } in
    if has_mbuf then record a { sent = f ∷ a.sent } else a

abbrev pub process_arp_request : Bool → Arphdr → ℕ → Arp → Arp
process_arp_request has_mbuf arph nif a =
    arp_output has_mbuf nif arp_op_reply arph.ar_sip arph.ar_sha a

-- The list without its first request for an address.
abbrev pub remove_request : ℕ → List ArpQueueEntry → List ArpQueueEntry
remove_request ip [] = []
remove_request ip (ent ∷ l) = if ent.ip == ip then l else ent ∷ remove_request ip l

abbrev pub process_arp_reply : Arphdr → Arp → Arp
process_arp_reply arph a = record a { list = remove_request arph.ar_sip a.list }

abbrev pub has_entry : ℕ → List ArpEntry → Bool
has_entry ip [] = false
has_entry ip (e ∷ l) = (e.ip == ip) || has_entry ip l

abbrev pub update_entry : ℕ → List ℕ → ℕ → List ArpEntry → List ArpEntry
update_entry ip haddr cur_ts [] = []
update_entry ip haddr cur_ts (e ∷ l) =
    if e.ip == ip
    then record e { haddr = haddr; last_used = cur_ts } ∷ l
    else e ∷ update_entry ip haddr cur_ts l

unfoldable pub register_arp_entry : ℕ → List ℕ → ℕ → Arp → Arp
register_arp_entry ip haddr cur_ts a =
    let chain = a.arp_tables (hash ip) in
    let e : ArpEntry = record {
      ip = ip;
      ip_mask = 2 ^ 32 - 1;
      haddr = haddr;
      last_used = cur_ts;
    } in
    let chain' = if has_entry ip chain then update_entry ip haddr cur_ts chain else e ∷ chain in
    record a { arp_tables = update a.arp_tables (hash ip) chain' }

abbrev pub is_requested : ℕ → List ArpQueueEntry → Bool
is_requested ip [] = false
is_requested ip (ent ∷ l) = (ent.ip == ip) || is_requested ip l

unfoldable pub request_arp : Bool → ℕ → ℕ → ℕ → Arp → Arp
request_arp has_mbuf ip nif cur_ts a =
    let ent : ArpQueueEntry = record { ip = ip; nif_out = nif; ts_out = cur_ts } in
    if is_requested ip a.list
    then a
    else arp_output has_mbuf nif arp_op_request ip broadcast
        (record a { list = a.list ++ (ent ∷ []) })

-- The test over the first `n` interfaces.
abbrev pub is_to_me : ℕ → ℕ → Arp → Bool
is_to_me tip zero a = false
is_to_me tip (suc n) a = is_to_me tip n a || (tip == (a.eths n).ip_addr)

-- The two kinds of messages; others change nothing.
abbrev pub handle_opcode : Bool → ℕ → Arphdr → Arp → Arp
handle_opcode has_mbuf ifidx arph a =
    let to_me = is_to_me arph.ar_tip a.eths_num a in
    let answered = process_arp_request has_mbuf arph (a.eths ifidx).ifindex a in
    if arph.ar_op == arp_op_request
    then (if to_me then answered else a)
    else if arph.ar_op == arp_op_reply
    then process_arp_reply arph a
    else a

abbrev pub is_ethernet_ip : Arphdr → Bool
is_ethernet_ip h = (h.ar_hrd == 1) && (h.ar_pro == eth_p_ip) && (h.ar_hln == 6) && (h.ar_pln == 4)

-- `true` for SUCCESS, `false` for ERROR.
unfoldable pub process_arp_packet : Bool → ℕ → ℕ → Arphdr → Arp → Bool × Arp
process_arp_packet has_mbuf ifidx cur_ts arph a =
    if not (is_ethernet_ip arph)
    then (false, a)
    else if arph.ar_tip == inaddr_loopback
    then (true, a)
    else (
      true,
      register_arp_entry arph.ar_sip arph.ar_sha cur_ts (handle_opcode has_mbuf ifidx arph a),
    )

-- `dip` and `haddr` are what `inet_addr` and `sscanf` read. A shift of an `int` by 31 bits or more
-- is not defined.
unfoldable pub sarp_set : ℕ → ℕ → List ℕ → Arp → Option Arp
sarp_set dip mask haddr a =
    let e : ArpEntry = record (a.sarp_table a.sarp_num) {
      ip = dip;
      ip_mask = htonl (u32 ((2 ^ mask - 1) * 2 ^ (32 - mask)));
      haddr = haddr;
    } in
    let a' : Arp = record a {
      sarp_table = update a.sarp_table a.sarp_num e;
      sarp_num = a.sarp_num + 1;
    } in
    if (mask == 0) || not (ltb mask 31) || not (ltb a.sarp_num 16) then none else some a'

abbrev pub is_match : ℕ → ArpEntry → Bool
is_match dip e = bit_and e.ip e.ip_mask == bit_and dip e.ip_mask

-- The first match among `n` entries from `i` on.
unfoldable pub sarp_loop : ℕ → ℕ → ℕ → Arp → Option (List ℕ)
sarp_loop dip i zero a = none
sarp_loop dip i (suc n) a =
    let rest = sarp_loop dip (i + 1) n a in
    if is_match dip (a.sarp_table i) then some (a.sarp_table i).haddr else rest

unfoldable pub sarp_lookup : ℕ → Arp → Option (List ℕ)
sarp_lookup dip a = sarp_loop dip 0 a.sarp_num a

-- `none`: the address is copied from NULL.
abbrev pub get_dst_hwaddr : ℕ → Arp → Option (List ℕ)
get_dst_hwaddr dip a = sarp_lookup dip a
