-- ===== src/RateLimiter/Bucket/Rate.antt =====
-- What `refill` of `TokenBucket` (rate_limiter.hpp) credits, by the rate and the time. The arithmetic on
-- doubles is known by the bounds that IEEE 754 puts on the error of one operation.
use native.Mathlib.Nat.{mul_assoc, mul_right_comm, mul-le-mul_left}
use ipb.Base.{ℕ, ◌+◌, ◌*◌, ◌^◌, ◌≤◌, ◌<◌, ◌≡◌, ap, sym, ◌∙◌, arith}
use ipb.Base.Int.{pos, pos_part}
use ipb.Base.Double.{Doubles}
use ipb.RateLimiter.Bucket.{new_tokens}

-- The quotient p / q is far from the least and the greatest normal number of 64 bits.
abbrev pub InRange : ℕ → ℕ → Type 0
InRange p q = (q ≤ p * 2 ^ 200) × (p ≤ q * 2 ^ 200)

-- `AtMost x p q`: the number that the double `x` stands for, times q, is at most p. A result is rounded to
-- the nearest double, and so is an integer that is converted: an operation and the conversion of its
-- operand are off by less than one part in 2^51, where the bound on the result is in range.
pub record Rounding (D : Doubles) : Type 1 where
  pub AtMost : D.Double → ℕ → ℕ → Type 0
  -- Division by the literal 1e9.
  pub div_billion :
      (x : D.Double) (p q : ℕ)
      → AtMost x p q
      → InRange (p * (2 ^ 51 + 1)) (q * 1000000000 * 2 ^ 51)
      → AtMost (D.div x (D.decimal 1000000000 0)) (p * (2 ^ 51 + 1)) (q * 1000000000 * 2 ^ 51)
  -- Products with a number that is converted, on the left and on the right.
  pub mul_left :
      (n : ℕ) (x : D.Double) (p q : ℕ)
      → n < 2 ^ 63
      → AtMost x p q
      → InRange (p * n * (2 ^ 51 + 1)) (q * 2 ^ 51)
      → AtMost (D.mul (D.of_int (pos n)) x) (p * n * (2 ^ 51 + 1)) (q * 2 ^ 51)
  pub mul_right :
      (n : ℕ) (x : D.Double) (p q : ℕ)
      → n < 2 ^ 63
      → AtMost x p q
      → InRange (p * n * (2 ^ 51 + 1)) (q * 2 ^ 51)
      → AtMost (D.mul x (D.of_int (pos n))) (p * n * (2 ^ 51 + 1)) (q * 2 ^ 51)
  -- The conversion drops the fraction; out of int64_t's range it gives the least number, as on x86-64.
  pub truncate : (x : D.Double) (p q : ℕ) → AtMost x p q → pos_part (D.to_int x) * q ≤ p

-- `k` nanoseconds at the rate of p / q tokens per second are worth p * k / (q * 1000) millionths of a
-- token; three operations round.
abbrev pub Worth : (p q credit time : ℕ) → Type 0
Worth p q credit time = credit * q * (1000 * (2 ^ 51) ^ 3) ≤ p * time * (2 ^ 51 + 1) ^ 3

-- A rate that the laws apply to: neither below 2^-100 nor above 2^100 tokens per second.
abbrev pub IsModerate : ℕ → ℕ → Type 0
IsModerate p q = (q ≤ p * 2 ^ 100) × (p ≤ q * 2 ^ 100)

-- A product of a product, with the constants together.
regroup :
    (a q : ℕ)
    → a * (q * 1000000000 * 2 ^ 51 * 2 ^ 51 * 2 ^ 51) ≡ a * q * (1000000000 * (2 ^ 51) ^ 3)
regroup a q =
    let c : q * 1000000000 * 2 ^ 51 * 2 ^ 51 * 2 ^ 51 ≡ q * (1000000000 * (2 ^ 51) ^ 3) =
      omega arith in
    ap (λ m. a * m) c ∙ sym (mul_assoc a q (1000000000 * (2 ^ 51) ^ 3))

module _ (D : Doubles) (R : Rounding D) where
  -- What is credited for up to 2^63 nanoseconds is worth it.
  pub new_tokens-Worth :
      (rate : D.Double) (p q time : ℕ)
      → R.AtMost rate p q
      → IsModerate p q
      → 0 < time
      → time < 2 ^ 63
      → Worth p q (pos_part (new_tokens D rate (pos time))) time
  unfolding new_tokens
  new_tokens-Worth rate p q time most moderate some_time small =
      let p1 = p * (2 ^ 51 + 1) in
      let q1 = q * 1000000000 * 2 ^ 51 in
      let p2 = p1 * time * (2 ^ 51 + 1) in
      let q2 = q1 * 2 ^ 51 in
      let p3 = p2 * 1000000 * (2 ^ 51 + 1) in
      let q3 = q2 * 2 ^ 51 in
      let swap : p1 * time ≡ p * time * (2 ^ 51 + 1) = mul_right_comm p (2 ^ 51 + 1) time in
      let least : p * 1 ≤ p * time = mul-le-mul_left p (omega arith) in
      let most_time : p * time ≤ p * 2 ^ 63 = mul-le-mul_left p (omega arith) in
      let per_ns = D.div rate (D.decimal 1000000000 0) in
      let in_time = D.mul (D.of_int (pos time)) per_ns in
      let all = D.mul in_time (D.of_int (pos 1000000)) in
      let a1 : R.AtMost per_ns p1 q1 =
        R.div_billion rate p q most (omega (arith, moderate.0), omega (arith, moderate.1)) in
      let a2 : R.AtMost in_time p2 q2 =
        R.mul_left time per_ns p1 q1 small a1
          (omega (arith, moderate.0, swap, least), omega (arith, moderate.1, swap, most_time)) in
      let a3 : R.AtMost all p3 q3 =
        R.mul_right 1000000 in_time p2 q2 (omega arith) a2
          (omega (arith, moderate.0, swap, least), omega (arith, moderate.1, swap, most_time)) in
      let a = pos_part (D.to_int all) in omega (arith, R.truncate all p3 q3 a3, swap, regroup a q)
