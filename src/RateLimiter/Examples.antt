-- ===== src/RateLimiter/Examples.antt =====
-- The laws of rate_limiter.hpp at concrete inputs.
use ipb.Base.{
  ℕ, ◌+◌, ◌*◌, ◌/◌, ◌%◌, ◌^◌, ◌≤◌, ◌<◌, ◌≡◌, ◌≢◌, refl, ap, sym, ◌∙◌, List, [], ◌∷◌, ◌++◌,
  replicate, arith,
}
use ipb.Base.Int.{ℤ, pos, ◌+ℤ◌}
use ipb.Base.Double.{thousandths}
use ipb.RateLimiter.Bucket
use ipb.RateLimiter.Bucket.{Config, Turn, zero_stats}
use ipb.RateLimiter.Bucket.Bound.{run-bound}
use ipb.RateLimiter.Bucket.Rate.{Rounding}
use native.Mathlib.Nat.{mul_assoc, mul_comm, mul_right_comm, mul-le-mul_left, mul-le-mul_right}
use ipb.RateLimiter.Bucket.Bound
use ipb.RateLimiter.Bucket.Unlimited.{run-unlimited}
use ipb.RateLimiter.Window
use ipb.RateLimiter.Window.Slots
use ipb.RateLimiter.Window.Slots.{try_acquire-IsValid}
use ipb.RateLimiter.Window.Doubling
use ipb.RateLimiter.Window.Doubling.{run_twice}
use ipb.RateLimiter.Layers.Global.{Request, run_level-bound}
use ipb.RateLimiter.Layers.Global

-- A million requests in a second, and bursts of three.
abbrev fast : Config thousandths
fast = record { rate_per_second = 10 ^ 9; burst_size = 3; min_rate = 10000; max_rate = 10 ^ 8 }

-- Thousandths round down, and their operations are within the bounds of doubles.
product_le :
    (d n x p q : ℕ) → d ≤ n * x → x * q ≤ p * 1000 → d * (q * 2 ^ 51) ≤ p * n * (2 ^ 51 + 1) * 1000
product_le d n x p q e h =
    let k : d * q ≤ n * x * q = mul-le-mul_right q e in
    let l : n * (x * q) ≤ n * (p * 1000) = mul-le-mul_left n h in
    omega (arith, k, l, mul_assoc n x q, mul_assoc n p 1000, mul_comm n p, mul_assoc d q (2 ^ 51))

quotient_le :
    (d x p q : ℕ)
    → d * 1000000000 ≤ x
    → x * q ≤ p * 1000
    → d * (q * 1000000000 * 2 ^ 51) ≤ p * (2 ^ 51 + 1) * 1000
quotient_le d x p q e h =
    let k : d * 1000000000 * q ≤ x * q = mul-le-mul_right q e in
    let l : d * (q * 1000000000 * 2 ^ 51) ≡ d * q * (1000000000 * 2 ^ 51) =
      ap (λ m. d * m) (mul_assoc q 1000000000 (2 ^ 51))
      ∙ sym (mul_assoc d q (1000000000 * 2 ^ 51)) in
    omega (arith, h, k, l, mul_right_comm d 1000000000 q)

whole_le : (d x p q : ℕ) → d * 1000 ≤ x → x * q ≤ p * 1000 → d * q ≤ p
whole_le d x p q e h =
    let k : d * 1000 * q ≤ x * q = mul-le-mul_right q e in
    omega (arith, h, k, mul_right_comm d 1000 q)

abbrev rounding : Rounding thousandths
rounding = record {
  AtMost = λ x p q. x * q ≤ p * 1000;
  div_billion = λ x p q h range. quotient_le _ x p q (omega arith) h;
  mul_left =
      λ n x p q small h range. product_le _ n x p q (omega (arith, mul_right_comm n 1000 x)) h;
  mul_right = λ n x p q small h range.
      product_le _ n x p q (omega (arith, mul_assoc x n 1000, mul_comm n x)) h;
  truncate = λ x p q h. whole_le _ x p q (omega arith) h;
}

abbrev requests : List (ℤ × ℕ)
requests = (pos 100, 2) ∷ ((pos 200, 2) ∷ ((pos 5000, 1) ∷ []))

run-bound_example :
    let (total, b) = Bound.run thousandths requests (Bucket.fresh thousandths fast (pos 50)) in
    (time : ℕ) × (credit : ℕ) × (b.last_refill_ns ≡ pos 50 +ℤ pos time)
    × (total * 1000000 ≤ 3 * 1000000 + credit)
    × (credit * 1 * (1000 * (2 ^ 51) ^ 3) ≤ 1000000 * time * (2 ^ 51 + 1) ^ 3)
run-bound_example =
    run-bound thousandths rounding 1000000 1 requests fast 50 (omega arith) (omega arith)
      (omega arith, omega arith) (omega arith)

run-unlimited_example :
    (Bound.run thousandths requests
      (Bucket.fresh thousandths (Bucket.unlimited thousandths) (pos 50))).0
    ≡ 0
run-unlimited_example = run-unlimited thousandths requests (pos 50) (omega arith)

abbrev turn : ℕ → Turn
turn now = record { at = pos now; now = pos now }

fresh-IsValid : Slots.IsValid (Window.fresh 5)
fresh-IsValid = record { sixty = refl; within = omega arith; small = omega arith }

run_twice_example :
    let first = (20000000 / 16666666 + 1) * 16666666 in
    let second = 20000000 + 16666666 in
    ((Doubling.run
        (20000000 ∷ (replicate 4 first ++ (replicate 4 second ++ [])))
        (Window.fresh 5)).0
      ≡ 1 + 2 * 4)
    × (20000000 < first)
    × (first < second)
run_twice_example = run_twice 4 20000000 (omega arith) (omega arith) inside
  where
    inside : 20000000 % 16666666 ≢ 0
    inside e = absurd (omega arith)

abbrev level_requests : List Request
level_requests =
    record { now = pos 100; now_source = pos 101; source = "plc" }
    ∷ (record { now = pos 300; now_source = pos 301; source = "" } ∷ [])

run_level-bound_example :
    let (total, h) = Global.run thousandths level_requests (record {
      global_bucket = Bucket.fresh thousandths fast (pos 50);
      source_buckets = ("plc", Bucket.fresh thousandths fast (pos 50)) ∷ [];
    }) in
    (time : ℕ) × (credit : ℕ) × (h.global_bucket.last_refill_ns ≡ pos 50 +ℤ pos time)
    × (total * 1000000 ≤ 3 * 1000000 + credit)
    × (credit * 1 * (1000 * (2 ^ 51) ^ 3) ≤ 1000000 * time * (2 ^ 51 + 1) ^ 3)
run_level-bound_example =
    run_level-bound thousandths rounding 1000000 1 level_requests fast 50
      (("plc", Bucket.fresh thousandths fast (pos 50)) ∷ []) (omega arith) (omega arith)
      (omega arith, omega arith) (omega arith)
