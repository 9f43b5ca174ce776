-- ===== src/Icmp/Damage.antt =====
-- Messages in which one word has changed on the way.
use qstack.Common.{
  ℕ, suc, ◌+◌, ◌-◌, ◌*◌, ◌%◌, ◌^◌, ◌≤◌, ◌<◌, ◌≡◌, ◌≢◌, ◌∙◌, refl, sym, ap, false, not, some, none,
  List, ◌∷◌, ◌==◌, ltb, length, if-cases, get_or, arith,
}
use qstack.Icmp.{
  icmp_checksum, fold_carries, icmp_echo, IpPacket, Io, process_icmp_echo_request, is_own,
  process_icmp_packet,
}
use qstack.Icmp.Checksum.{AreBytes, total, total_bound, sum_words-total}
use qstack.Icmp.Echo.{read_all}

-- One word of the first message is another one in the second. To the checksum the words 0 and 65535
-- are the same.
pub data IsDamaged : List ℕ → List ℕ → Type 0 where
  here :
      (a b c d : ℕ) (l : List ℕ)
      → (a + b * 256) % 65535 ≢ (c + d * 256) % 65535
      → IsDamaged (a ∷ b ∷ l) (c ∷ d ∷ l)
  there : (a b : ℕ) {l m : List ℕ} → IsDamaged l m → IsDamaged (a ∷ b ∷ l) (a ∷ b ∷ m)

total-IsDamaged : (l m : List ℕ) → IsDamaged l m → total l % 65535 ≢ total m % 65535
total-IsDamaged _ _ (here a b c d l h) = omega (arith, h)
total-IsDamaged _ _ (there a b {l} {m} h) = omega (arith, total-IsDamaged l m h)

length-IsDamaged : (l m : List ℕ) → IsDamaged l m → length m ≡ length l
length-IsDamaged _ _ (here a b c d l h) = refl
length-IsDamaged _ _ (there a b {l} {m} h) = ap (λ n. suc (suc n)) (length-IsDamaged l m h)

fold_carries_zero : (s : ℕ) → s < 2 ^ 32 → fold_carries s ≡ 0 → s % 65535 ≡ 0
unfolding fold_carries
fold_carries_zero s h z = omega arith

checked : (l : List ℕ) → AreBytes l → length l ≤ 65535 → icmp_checksum l ≡ 0 → total l % 65535 ≡ 0
unfolding icmp_checksum
checked l b few z =
    let small : total l < 2 ^ 32 = omega (arith, total_bound l b) in
    let e = sum_words-total 0 l (omega (arith, small)) in
    fold_carries_zero (total l) small (ap fold_carries (sym (e ∙ omega arith)) ∙ z)

-- A message of at most 65535 bytes one of whose words has changed to a word that differs from it
-- modulo 65535 (so not from 0 to 65535 or back) is not answered, when its checksum was right before:
-- no packet is sent, with or without a buffer and whichever address and type it has now.
pub process_icmp_packet-IsDamaged :
    (io : Io) (own l : List ℕ) (p : IpPacket)
    → icmp_checksum l ≡ 0
    → IsDamaged l p.content
    → AreBytes l
    → AreBytes p.content
    → length l ≤ 65535
    → process_icmp_packet io own p (p.ihl * 4 + length p.content) ≡ some none
unfolding process_icmp_packet process_icmp_echo_request
process_icmp_packet-IsDamaged io own l p valid d b b2 few =
    let few2 : length p.content ≤ 65535 = omega (arith, length-IsDamaged l p.content d) in
    let wrong : icmp_checksum p.content ≢ 0 = λ z.
      total-IsDamaged l p.content d (checked l b few valid ∙ sym (checked p.content b2 few2 z)) in
    let bad : (icmp_checksum p.content == 0) ≡ false = ground (arith, wrong) in
    let n : p.ihl * 4 + length p.content - p.ihl * 4 ≡ length p.content = omega arith in
    let long : ltb (p.ihl * 4 + length p.content) (p.ihl * 4) ≡ false = ground arith in
    let whole = read_all (length p.content) p.content refl in
    if-cases (λ o. o ≡ some none) (not (is_own own p.daddr)) (λ t. refl)
      (λ mine.
        if-cases (λ o. o ≡ some none) (get_or p.content 0 0 == icmp_echo)
          (λ t. rw (long, n, whole, bad) refl) (λ f. refl))
