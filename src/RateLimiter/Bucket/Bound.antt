-- ===== src/RateLimiter/Bucket/Bound.antt =====
-- How many tokens `TokenBucket` (rate_limiter.hpp) hands out.
use ipb.Base.{ℕ, ◌+◌, ◌*◌, ◌^◌, ◌≤◌, ◌<◌, ◌≡◌, ap, List, [], ◌∷◌, arith, All}
use ipb.Base.Int.{ℤ, pos, pos_part, neg_part, ◌+ℤ◌, +ℤ_parts}
use ipb.Base.Double.{Doubles}
use ipb.RateLimiter.Bucket.Rate.{Rounding, IsModerate}
use ipb.RateLimiter.Bucket.{Bucket, Config, add64, refill, try_acquire, fresh}
use ipb.RateLimiter.Bucket.Paid.{
  granted, scaled_small, IsValid, Paid, stay-Paid, counted-IsValid, restart-Paid, Paid-amount,
  Paid-trans, consume-Paid, refill-Paid,
}

-- Requests: the time, and the number of tokens asked for.
abbrev pub Requests : Type 0
Requests = List (ℤ × ℕ)

module _ (D : Doubles) where
  -- The tokens of a run that were granted, and the bucket afterwards.
  abbrev pub run : Requests → Bucket D → ℕ × Bucket D
  run [] b = (0, b)
  run ((now, count) ∷ requests) b =
      let (ok, b') = try_acquire D now count b in
      let (total, b'') = run requests b' in (granted ok count + total, b'')

  try_acquire-Paid :
      (R : Rounding D) (p q : ℕ) (now : ℤ) (count : ℕ) (b : Bucket D)
      → IsValid D b
      → R.AtMost b.config.rate_per_second p q
      → IsModerate p q
      → (pos_part now < 2 ^ 63) × (count * 1000000 < 2 ^ 63)
      → let (ok, b') = try_acquire D now count b in Paid D p q (granted ok count) b b'
  unfolding try_acquire
  try_acquire-Paid R p q now count b v most moderate small =
      let c = record b.stats { requests = add64 1 b.stats.requests } in
      let x =
        refill-Paid D R p q now (record b { stats = c }) (counted-IsValid D b c v) most moderate
          small.0 in
      let y = consume-Paid D p q count (refill D now (record b { stats = c })) x.valid small.1 in
      Paid-amount D p q _ _ b _ (zero_add _)
        (restart-Paid D p q _ b _ c (Paid-trans D p q 0 _ (record b { stats = c }) _ _ x y))
    where
      zero_add : (n : ℕ) → 0 + n ≡ n
      zero_add n = omega arith

  -- Clock readings and requests that fit in 64 bits.
  abbrev pub AreSmall : Requests → Type 0
  AreSmall = All (λ r. (pos_part r.0 < 2 ^ 63) × (r.1 * 1000000 < 2 ^ 63))

  run-Paid :
      (R : Rounding D) (p q : ℕ) (requests : Requests) (b : Bucket D)
      → IsValid D b
      → R.AtMost b.config.rate_per_second p q
      → IsModerate p q
      → AreSmall requests
      → let (total, b') = run requests b in Paid D p q total b b'
  run-Paid R p q [] b v most moderate small = stay-Paid D p q b v
  run-Paid R p q ((now, count) ∷ requests) b v most moderate small =
      let x = try_acquire-Paid R p q now count b v most moderate small.0 in
      let y =
        run-Paid R p q requests (try_acquire D now count b).1 x.valid (rw x.same most) moderate
          small.1 in
      Paid-trans D p q _ _ b (try_acquire D now count b).1 _ x y

  -- At a rate of at most p / q tokens per second, whatever the order of requests and clock readings, a new
  -- bucket hands out at most its burst size and, beyond it, `credit` millionths of a token, which are
  -- worth no more than the time by which its time of refill has moved on: time * p / q in billionths, but
  -- for the error of three operations on doubles, which are known by their bounds. Readings and sizes fit
  -- in 64 bits, and p / q is between 2^-100 and 2^100.
  pub run-bound :
      (R : Rounding D) (p q : ℕ) (requests : Requests) (config : Config D) (start : ℕ)
      → config.burst_size * 1000000 < 2 ^ 63
      → R.AtMost config.rate_per_second p q
      → IsModerate p q
      → AreSmall requests
      → let (total, b) = run requests (fresh D config (pos start)) in
        (time : ℕ) × (credit : ℕ) × (b.last_refill_ns ≡ pos start +ℤ pos time)
        × (total * 1000000 ≤ config.burst_size * 1000000 + credit)
        × (credit * q * (1000 * (2 ^ 51) ^ 3) ≤ p * time * (2 ^ 51 + 1) ^ 3)
  unfolding fresh
  run-bound R p q requests config start fits most moderate small =
      let e = scaled_small config.burst_size fits in
      let b = fresh D config (pos start) in
      let v : IsValid D b = record {
        small = fits;
        lower = rw e (omega arith);
        upper = rw e (omega arith);
        started = omega arith;
      } in
      let x = run-Paid R p q requests b v most moderate small in
      (
        x.time,
        x.credit,
        x.credited,
        omega (
          arith,
          x.paid,
          x.valid.lower,
          ap pos_part e,
          ap neg_part e,
          +ℤ_parts (run requests b).1.tokens (pos ((run requests b).0 * 1000000)),
          +ℤ_parts b.tokens (pos x.credit),
        ),
        x.worth,
      )
