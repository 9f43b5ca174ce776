-- ===== src/Arp/Requests.antt =====
-- The requests that wait for an answer, over every sequence of requests and messages.
use qstack.Common.{
  ℕ, ◌≡◌, ◌∙◌, refl, sym, subst, Bool, false, ◌&&◌, ◌||◌, List, [], ◌∷◌, ◌++◌, ◌==◌, if◌then◌else◌,
  if-cases, Bool-cases, inl, inr, arith,
}
use qstack.Arp.{
  ArpQueueEntry, Arphdr, Arp, arp_init, arp_output, arp_op_request, arp_op_reply, remove_request,
  is_requested, request_arp, is_to_me, handle_opcode, register_arp_entry, process_arp_packet,
  is_ethernet_ip, inaddr_loopback,
}
use qstack.Arp.Table.{is_taken}

-- No address is asked for twice.
abbrev pub AreDistinct : List ArpQueueEntry → Type 0
AreDistinct [] = Unit
AreDistinct (ent ∷ l) = (is_requested ent.ip l ≡ false) × AreDistinct l

-- An answer takes its address out of the list, and no other.
is_requested-remove_request :
    (ip k : ℕ) (l : List ArpQueueEntry)
    → AreDistinct l
    → is_requested k (remove_request ip l) ≡ (if k == ip then false else is_requested k l)
is_requested-remove_request ip k [] d = elim (Bool-cases (k == ip)) [
  | inl t ↦ rw t refl
  | inr f ↦ rw f refl
]
is_requested-remove_request ip k (ent ∷ l) (fresh, d) = elim (Bool-cases (ent.ip == ip)) [
  | inl t ↦
      let e : ent.ip ≡ ip = ground arith in
      let gone : is_requested ip l ≡ false = subst (λ n. is_requested n l ≡ false) e fresh in
      rw t (elim (Bool-cases (k == ip)) [
        | inl s ↦
            let i : ip ≡ k = ground arith in rw s (subst (λ n. is_requested n l ≡ false) i gone)
        | inr s ↦ let u : (ent.ip == k) ≡ false = ground arith in rw (s, u) refl
      ])
  | inr f ↦ rw f (elim (Bool-cases (ent.ip == k)) [
    | inl u ↦ let s : (k == ip) ≡ false = ground arith in rw (u, s) refl
    | inr u ↦ rw u (is_requested-remove_request ip k l d)
  ])
]

remove_request-AreDistinct :
    (ip : ℕ) (l : List ArpQueueEntry) → AreDistinct l → AreDistinct (remove_request ip l)
remove_request-AreDistinct ip [] d = d
remove_request-AreDistinct ip (ent ∷ l) (fresh, d) =
    if-cases AreDistinct (ent.ip == ip) (λ t. d)
      (λ f. (
        is_requested-remove_request ip ent.ip l d
            ∙ if-cases (λ b. b ≡ false) (ent.ip == ip) (λ t. refl) (λ n. fresh),
        remove_request-AreDistinct ip l d,
      ))

is_requested-append :
    (k : ℕ) (l : List ArpQueueEntry) (ent : ArpQueueEntry)
    → is_requested k (l ++ (ent ∷ [])) ≡ is_requested k l || (ent.ip == k)
is_requested-append k [] ent = ground arith
is_requested-append k (x ∷ l) ent = ground (arith, is_requested-append k l ent)

append-AreDistinct :
    (l : List ArpQueueEntry) (ent : ArpQueueEntry)
    → AreDistinct l
    → is_requested ent.ip l ≡ false
    → AreDistinct (l ++ (ent ∷ []))
append-AreDistinct [] ent d f = (refl, tt)
append-AreDistinct (x ∷ l) ent (fresh, d) f = (
  ground (arith, is_requested-append x.ip l ent, fresh, f),
  append-AreDistinct l ent d (ground (arith, f)),
)

-- One request or one message.
pub data Step : Arp → Arp → Type 0 where
  request : (m : Bool) (ip nif ts : ℕ) {a : Arp} → Step a (request_arp m ip nif ts a)
  receive :
      (m : Bool) (ifidx ts : ℕ) (h : Arphdr) {a : Arp}
      → Step a (process_arp_packet m ifidx ts h a).1

-- What `arp_init` and then any number of steps lead to.
pub data IsReached : Arp → Type 0 where
  begin : (a : Arp) → IsReached (arp_init a)
  next : {a b : Arp} → IsReached a → Step a b → IsReached b

abbrev pub is_answer : Arphdr → Bool
is_answer h = is_taken h && (h.ar_op == arp_op_reply)

-- The list after a message.
abbrev after : Arphdr → Arp → List ArpQueueEntry
after h a = if is_answer h then remove_request h.ar_sip a.list else a.list

handle_opcode_list :
    (m : Bool) (ifidx : ℕ) (h : Arphdr) (a : Arp)
    → (handle_opcode m ifidx h a).list
      ≡ (if h.ar_op == arp_op_reply then remove_request h.ar_sip a.list else a.list)
unfolding arp_output
handle_opcode_list m ifidx h a = elim (Bool-cases (h.ar_op == arp_op_request)) [
  | inl t ↦
      let n : (h.ar_op == arp_op_reply) ≡ false = ground arith in
      rw (t, n)
        (if-cases P (is_to_me h.ar_tip a.eths_num a) (λ t. if-cases P m (λ y. refl) (λ n. refl))
          (λ f. refl))
  | inr f ↦
      rw f (elim (Bool-cases (h.ar_op == arp_op_reply)) [ inl y ↦ rw y refl | inr n ↦ rw n refl ])
]
  where
    P : Arp → Type 0
    P u = u.list ≡ a.list

process_arp_packet_list :
    (m : Bool) (ifidx ts : ℕ) (h : Arphdr) (a : Arp)
    → (process_arp_packet m ifidx ts h a).1.list ≡ after h a
unfolding process_arp_packet register_arp_entry
process_arp_packet_list m ifidx ts h a = elim (Bool-cases (is_ethernet_ip h)) [
  | inr f ↦ rw f refl
  | inl t ↦ elim (Bool-cases (h.ar_tip == inaddr_loopback)) [
    | inl l ↦ rw (t, l) refl
    | inr n ↦ rw (t, n) (handle_opcode_list m ifidx h a)
  ]
]

request_arp-AreDistinct :
    (m : Bool) (ip nif ts : ℕ) (a : Arp)
    → AreDistinct a.list
    → AreDistinct (request_arp m ip nif ts a).list
unfolding request_arp arp_output
request_arp-AreDistinct m ip nif ts a d =
    if-cases P (is_requested ip a.list) (λ t. d)
      (λ f.
        if-cases P m (λ y. append-AreDistinct a.list _ d f) (λ n. append-AreDistinct a.list _ d f))
  where
    P : Arp → Type 0
    P u = AreDistinct u.list

Step-AreDistinct : {a b : Arp} → Step a b → AreDistinct a.list → AreDistinct b.list
Step-AreDistinct (Step.request m ip nif ts {a}) d = request_arp-AreDistinct m ip nif ts a d
Step-AreDistinct (Step.receive m ifidx ts h {a}) d =
    subst AreDistinct (sym (process_arp_packet_list m ifidx ts h a)) (
      if-cases AreDistinct (is_answer h) (λ t. remove_request-AreDistinct h.ar_sip a.list d)
        (λ f. d))

-- In every state that requests and messages lead to, no address is asked for twice.
pub IsReached-AreDistinct : {a : Arp} → IsReached a → AreDistinct a.list
unfolding arp_init
IsReached-AreDistinct (IsReached.begin a) = tt
IsReached-AreDistinct (IsReached.next r s) = Step-AreDistinct s (IsReached-AreDistinct r)

-- In such a state, an answer for Ethernet and IP whose target, as the machine reads it from the
-- packet, is not the number 0x7f000001 ends the request for its sender's address, which may be made
-- again then, and no other; no other message ends a request, an answer with that target neither.
pub is_requested-process_arp_packet :
    (m : Bool) (ifidx ts : ℕ) (h : Arphdr) {a : Arp} (k : ℕ)
    → IsReached a
    → is_requested k (process_arp_packet m ifidx ts h a).1.list
      ≡ (if is_answer h && (k == h.ar_sip) then false else is_requested k a.list)
is_requested-process_arp_packet m ifidx ts h {a} k r =
    rw (process_arp_packet_list m ifidx ts h a) (elim (Bool-cases (is_answer h)) [
      | inl t ↦ rw t (is_requested-remove_request h.ar_sip k a.list (IsReached-AreDistinct r))
      | inr f ↦ rw f refl
    ])
