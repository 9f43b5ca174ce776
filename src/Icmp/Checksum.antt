-- ===== src/Icmp/Checksum.antt =====
-- The checksum of a message that carries its checksum.
use qstack.Common.{
  ℕ, ◌+◌, ◌-◌, ◌*◌, ◌/◌, ◌%◌, ◌^◌, ◌≤◌, ◌<◌, ◌≡◌, ◌∙◌, ap, List, [], ◌∷◌, u32, length, arith,
}
use native.Mathlib.Nat.{mod-eq_of_lt}
use qstack.Icmp.{sum_words, fold_carries, icmp_checksum, message}

-- The sum of the words, with nothing cut off.
abbrev pub total : List ℕ → ℕ
total [] = 0
total (a ∷ []) = a
total (a ∷ b ∷ l) = a + b * 256 + total l

abbrev pub AreBytes : List ℕ → Type 0
AreBytes [] = Unit
AreBytes (x ∷ l) = (x < 256) × AreBytes l

-- There is a word for two bytes.
pub total_bound : (l : List ℕ) → AreBytes l → 2 * total l ≤ (length l + 1) * 65535
total_bound [] b = omega arith
total_bound (a ∷ []) (ha, b) = omega arith
total_bound (a ∷ c ∷ l) (ha, (hc, b)) = omega (arith, total_bound l b)

pub sum_words-total : (s : ℕ) (l : List ℕ) → s + total l < 2 ^ 32 → sum_words s l ≡ s + total l
unfolding sum_words
sum_words-total s [] h = omega arith
sum_words-total s (a ∷ []) h = mod-eq_of_lt h
sum_words-total s (a ∷ c ∷ l) h =
    let e : u32 (s + (a + c * 256)) ≡ s + (a + c * 256) = mod-eq_of_lt (omega arith) in
    rw e (sum_words-total (s + (a + c * 256)) l (omega arith) ∙ omega arith)

-- The complement added to a sum gives a sum whose complement is 0.
fold_carries_again : (s : ℕ) → s < 2 ^ 32 - 65536 → fold_carries (s + fold_carries s) ≡ 0
unfolding fold_carries
fold_carries_again s h = omega arith

-- Two bytes give back the 16-bit number that they are of.
pub two_bytes : (c : ℕ) → c % 256 + c / 256 * 256 ≡ c
two_bytes c = omega arith

fold_carries_lt : (s : ℕ) → fold_carries s < 65536
unfolding fold_carries
fold_carries_lt s = omega arith

total-message :
    (t k c id seq : ℕ) (l : List ℕ)
    → total (message t k c id seq l) ≡ total (message t k 0 id seq l) + c
total-message t k c id seq l = omega (arith, two_bytes c)

-- A message whose other fields are bytes and whose data are at most 65527 bytes, with its own
-- checksum in it, has the checksum 0: the machine's 32-bit sum does not overflow.
pub icmp_checksum-message :
    (t k id seq : ℕ) (l : List ℕ)
    → t < 256
    → k < 256
    → id < 65536
    → seq < 65536
    → AreBytes l
    → length l ≤ 65527
    → icmp_checksum (message t k (icmp_checksum (message t k 0 id seq l)) id seq l) ≡ 0
unfolding icmp_checksum
icmp_checksum-message t k id seq l ht hk hid hseq b few =
    let s = total (message t k 0 id seq l) in
    let small : s < 2 ^ 32 - 65536 = omega (arith, total_bound l b) in
    let c = fold_carries s in
    let e0 : sum_words 0 (message t k 0 id seq l) ≡ s =
      sum_words-total 0 (message t k 0 id seq l) (omega (arith, small)) ∙ omega arith in
    let e1 : sum_words 0 (message t k c id seq l) ≡ s + c =
      sum_words-total 0 (message t k c id seq l)
        (omega (arith, small, total-message t k c id seq l, fold_carries_lt s))
      ∙ omega (arith, total-message t k c id seq l) in
    let again = ap (λ n. fold_carries (sum_words 0 (message t k (fold_carries n) id seq l))) e0 in
    again ∙ ap fold_carries e1 ∙ fold_carries_again s small
