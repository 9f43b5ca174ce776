-- ===== src/Seq.antt =====
-- The comparison of TCP sequence numbers of qstack/src/include/protocol.h: the sign of a 32-bit
-- difference.
pub mod Tests
use qstack.Common.{
  ℕ, ◌^◌, ◌≤◌, ◌<◌, ◌≡◌, ◌↔◌, Bool, true, ◌&&◌, ◌||◌, not, ◌==◌, ltb, leb, sub32, arith,
}

-- `(int32_t)(a - b) < 0`, for a and b below 2 ^ 32, and so on.
unfoldable pub seq_lt : ℕ → ℕ → Bool
seq_lt a b = leb (2 ^ 31) (sub32 a b)

unfoldable pub seq_leq : ℕ → ℕ → Bool
seq_leq a b = leb (2 ^ 31) (sub32 a b) || (sub32 a b == 0)

unfoldable pub seq_gt : ℕ → ℕ → Bool
seq_gt a b = ltb (sub32 a b) (2 ^ 31) && not (sub32 a b == 0)

unfoldable pub seq_geq : ℕ → ℕ → Bool
seq_geq a b = ltb (sub32 a b) (2 ^ 31)

unfoldable pub seq_between : ℕ → ℕ → ℕ → Bool
unfolding seq_geq seq_leq
seq_between a b c = seq_geq a b && seq_leq a c

-- How far a sequence number lies behind `base`.
abbrev pub offset : ℕ → ℕ → ℕ
offset base a = sub32 a base

-- For 32-bit numbers within half the space behind any base, across the wrap-around too, the
-- comparisons are those of the distances from that base.
pub seq_order :
    (base a b : ℕ)
    → base < 2 ^ 32
    → a < 2 ^ 32
    → b < 2 ^ 32
    → offset base a < 2 ^ 31
    → offset base b < 2 ^ 31
    → ((seq_lt a b ≡ true) ↔ (offset base a < offset base b))
      × ((seq_leq a b ≡ true) ↔ (offset base a ≤ offset base b))
      × ((seq_gt a b ≡ true) ↔ (offset base b < offset base a))
      × ((seq_geq a b ≡ true) ↔ (offset base b ≤ offset base a))
unfolding seq_lt seq_leq seq_gt seq_geq
seq_order base a b hb ha hc h k = (
  (λ e. ground arith, λ e. ground arith),
  (λ e. ground arith, λ e. ground arith),
  (λ e. ground arith, λ e. ground arith),
  (λ e. ground arith, λ e. ground arith),
)
