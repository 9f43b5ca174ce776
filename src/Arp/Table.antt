-- ===== src/Arp/Table.antt =====
-- The two tables of addresses as maps.
use qstack.Common.{
  ℕ, zero, suc, ◌+◌, ◌≡◌, ◌∙◌, refl, ap, Bool, true, false, Option, none, some, List, [], ◌∷◌, ◌==◌,
  ◌||◌, ◌&&◌, not, subst, if◌then◌else◌, if-cases, Bool-cases, inl, inr, arith, update-ne, OnSome,
  ◌<◌, ltb,
}
use qstack.Arp.{
  arp_output, arp_op_request, arp_op_reply, is_to_me, ArpEntry, Arp, Arphdr, hash, has_entry,
  update_entry, register_arp_entry, process_arp_packet, handle_opcode, is_ethernet_ip,
  inaddr_loopback, sarp_set, sarp_loop, sarp_lookup, is_match,
}

-- The hardware address that a chain holds for `ip`.
abbrev pub find : ℕ → List ArpEntry → Option (List ℕ)
find ip [] = none
find ip (e ∷ l) = if e.ip == ip then some e.haddr else find ip l

abbrev pub learned : Arp → ℕ → Option (List ℕ)
learned a ip = find ip (a.arp_tables (hash ip))

find-update_entry :
    (ip : ℕ) (haddr : List ℕ) (ts : ℕ) (l : List ArpEntry) (k : ℕ)
    → has_entry ip l ≡ true
    → find k (update_entry ip haddr ts l) ≡ (if k == ip then some haddr else find k l)
find-update_entry ip haddr ts [] k h = absurd (ground arith)
find-update_entry ip haddr ts (e ∷ l) k h = elim (Bool-cases (e.ip == ip)) [
  | inl t ↦ rw t (elim (Bool-cases (k == ip)) [
    | inl s ↦ let u : (e.ip == k) ≡ true = ground arith in rw (u, s) refl
    | inr s ↦ let u : (e.ip == k) ≡ false = ground arith in rw (u, s) refl
  ])
  | inr f ↦
      let rest : has_entry ip l ≡ true = ground (arith, h, f) in
      rw f (elim (Bool-cases (e.ip == k)) [
        | inl u ↦ let s : (k == ip) ≡ false = ground arith in rw (u, s) refl
        | inr u ↦ rw u (find-update_entry ip haddr ts l k rest)
      ])
]

-- What a new message tells: one address has its hardware address, the others keep theirs.
abbrev pub with_address : ℕ → List ℕ → Arp → ℕ → Option (List ℕ)
with_address ip haddr a k = if k == ip then some haddr else learned a k

chain_lem :
    (ip : ℕ) (haddr : List ℕ) (ts : ℕ) (e : ArpEntry) (l : List ArpEntry) (k : ℕ)
    → e.ip ≡ ip
    → e.haddr ≡ haddr
    → find k (if has_entry ip l then update_entry ip haddr ts l else e ∷ l)
      ≡ (if k == ip then some haddr else find k l)
chain_lem ip haddr ts e l k same own =
    if-cases (λ m. find k m ≡ (if k == ip then some haddr else find k l)) (has_entry ip l)
      (λ t. find-update_entry ip haddr ts l k t)
      (λ f. elim (Bool-cases (k == ip)) [
        | inl s ↦ let u : (e.ip == k) ≡ true = ground arith in rw (u, s, own) refl
        | inr s ↦ let u : (e.ip == k) ≡ false = ground arith in rw (u, s) refl
      ])

-- An entry that is registered is the one that is found; no other address is touched, in its own
-- chain or in another.
pub learned-register_arp_entry :
    (ip : ℕ) (haddr : List ℕ) (ts : ℕ) (a : Arp) (k : ℕ)
    → learned (register_arp_entry ip haddr ts a) k ≡ with_address ip haddr a k
unfolding register_arp_entry
learned-register_arp_entry ip haddr ts a k = elim (Bool-cases (hash k == hash ip)) [
  | inl t ↦
      let e : hash k ≡ hash ip = ground arith in
      rw (t, e) (chain_lem ip haddr ts _ (a.arp_tables (hash ip)) k refl refl)
  | inr f ↦
      let s : (k == ip) ≡ false = elim (Bool-cases (k == ip)) [
        | inl y ↦
            let e : k ≡ ip = ground arith in
            absurd (ground (arith, subst (λ x. (hash x == hash ip) ≡ false) e f))
        | inr n ↦ n
      ] in
      rw (f, s) refl
]

handle_opcode_tables :
    (m : Bool) (ifidx : ℕ) (h : Arphdr) (a : Arp)
    → (handle_opcode m ifidx h a).arp_tables ≡ a.arp_tables
unfolding arp_output
handle_opcode_tables m ifidx h a =
    if-cases P (h.ar_op == arp_op_request)
      (λ q.
        if-cases P (is_to_me h.ar_tip a.eths_num a) (λ t. if-cases P m (λ y. refl) (λ n. refl))
          (λ f. refl))
      (λ q. if-cases P (h.ar_op == arp_op_reply) (λ y. refl) (λ n. refl))
  where
    P : Arp → Type 0
    P u = u.arp_tables ≡ a.arp_tables

abbrev pub is_taken : Arphdr → Bool
is_taken h = is_ethernet_ip h && not (h.ar_tip == inaddr_loopback)

-- A message for Ethernet and IP teaches its sender's address, whatever its kind and whoever it is
-- for, and no other; a message that is not for both teaches nothing, nor does one whose target, the
-- number that the machine reads from the packet, is 0x7f000001. On a machine that stores the low byte
-- first this number is the address 1.0.0.127, so a message for 127.0.0.1 does teach its sender's.
pub learned-process_arp_packet :
    (m : Bool) (ifidx ts : ℕ) (h : Arphdr) (a : Arp) (k : ℕ)
    → learned (process_arp_packet m ifidx ts h a).1 k
      ≡ (if is_taken h then with_address h.ar_sip h.ar_sha a k else learned a k)
unfolding process_arp_packet
learned-process_arp_packet m ifidx ts h a k = elim (Bool-cases (is_ethernet_ip h)) [
  | inr f ↦ rw f refl
  | inl t ↦ elim (Bool-cases (h.ar_tip == inaddr_loopback)) [
    | inl l ↦ rw (t, l) refl
    | inr n ↦
        let b = handle_opcode m ifidx h a in
        let e : learned b k ≡ learned a k =
          ap (λ (f : ℕ → List ArpEntry). find k (f (hash k))) (handle_opcode_tables m ifidx h a) in
        rw (t, n)
          (learned-register_arp_entry h.ar_sip h.ar_sha ts b k
            ∙ ap (λ o. if k == h.ar_sip then some h.ar_sha else o) e)
  ]
]

abbrev pub or_else : Option (List ℕ) → Option (List ℕ) → Option (List ℕ)
or_else none d = d
or_else (some h) d = some h

abbrev pub one_entry : ℕ → ArpEntry → Option (List ℕ)
one_entry k e = if is_match k e then some e.haddr else none

sarp_loop_last :
    (k i n : ℕ) (a a' : Arp)
    → ((j : ℕ) → j < i + n → a'.sarp_table j ≡ a.sarp_table j)
    → sarp_loop k i (suc n) a' ≡ or_else (sarp_loop k i n a) (one_entry k (a'.sarp_table (i + n)))
unfolding sarp_loop
sarp_loop_last k i zero a a' h =
    ap (λ (j : ℕ). one_entry k (a'.sarp_table j)) {x = i} {y = i + 0} (omega arith)
sarp_loop_last k i (suc n) a a' h =
    let ih = sarp_loop_last k (i + 1) n a a' (λ j lt. h j (omega arith)) in
    let e : i + 1 + n ≡ i + suc n = omega arith in
    rw (h i (omega arith)) (elim (Bool-cases (is_match k (a.sarp_table i))) [
      | inl t ↦ rw t refl
      | inr f ↦
          rw f (
            ih
            ∙ ap (λ (j : ℕ). or_else (sarp_loop k (i + 1) n a) (one_entry k (a'.sarp_table j))) e)
    ])

sarp_lookup_last :
    (k : ℕ) (a a' : Arp)
    → a'.sarp_num ≡ a.sarp_num + 1
    → ((j : ℕ) → j < a.sarp_num → a'.sarp_table j ≡ a.sarp_table j)
    → sarp_lookup k a' ≡ or_else (sarp_lookup k a) (one_entry k (a'.sarp_table a.sarp_num))
unfolding sarp_lookup
sarp_lookup_last k a a' more same =
    ap (λ (n : ℕ). sarp_loop k 0 n a') {x = a'.sarp_num} {y = suc a.sarp_num} (omega arith)
    ∙ sarp_loop_last k 0 a.sarp_num a a' (λ j lt. same j (omega arith))
    ∙ ap (λ (j : ℕ). or_else (sarp_loop k 0 a.sarp_num a) (one_entry k (a'.sarp_table j)))
        {x = 0 + a.sarp_num} {y = a.sarp_num} (omega arith)

-- An entry set by hand is found where no earlier one matches: the earlier ones go first.
pub sarp_lookup-sarp_set :
    (dip mask : ℕ) (haddr : List ℕ) (a : Arp) (k : ℕ)
    → OnSome
        (λ a'.
          sarp_lookup k a' ≡ or_else (sarp_lookup k a) (one_entry k (a'.sarp_table a.sarp_num)))
        (sarp_set dip mask haddr a)
unfolding sarp_set
sarp_lookup-sarp_set dip mask haddr a k =
    if-cases
      (OnSome λ (a' : Arp).
        sarp_lookup k a' ≡ or_else (sarp_lookup k a) (one_entry k (a'.sarp_table a.sarp_num)))
      ((mask == 0) || not (ltb mask 31) || not (ltb a.sarp_num 16)) (λ t. tt)
      (λ f.
        sarp_lookup_last k a _ refl
          (λ j lt. update-ne a.sarp_table a.sarp_num j _ (λ e. omega arith)))
