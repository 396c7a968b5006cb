-- ===== src/RateLimiter/Bucket/Unlimited.antt =====
-- The configuration of `RateLimitConfig::unlimited` (rate_limiter.hpp) in a `TokenBucket`.
use ipb.Base.{
  ℕ, ◌+◌, ◌-◌, ◌*◌, ◌%◌, ◌^◌, ◌<◌, ◌≡◌, refl, inl, inr, false, [], ◌∷◌, arith, Bool-cases, All,
}
use ipb.Base.Int.{ℤ, pos, negsuc, ◌+ℤ◌, ◌-ℤ◌, ◌<ℤ◌, leb_ℤ, min_ℤ}
use ipb.Base.Double.{Doubles}
use ipb.RateLimiter.Bucket.{
  Bucket, scaled, new_tokens, refill, consume, try_acquire, fresh, unlimited,
}
use ipb.RateLimiter.Bucket.Paid.{scaled_small}
use ipb.RateLimiter.Bucket.Bound.{Requests, run}

-- The burst size times the precision wraps.
scaled-unlimited : scaled (2 ^ 63 - 1) ≡ negsuc 999999
unfolding scaled
scaled-unlimited = refl

module _ (D : Doubles) where
  -- A bucket of that burst size, in debt.
  record InDebt (b : Bucket D) : Type 0 where
    burst : b.config.burst_size ≡ 2 ^ 63 - 1
    debt : b.tokens <ℤ pos 0

  min-lt : (a : ℤ) → min_ℤ a (negsuc 999999) <ℤ pos 0
  min-lt a = ground arith

  refill-InDebt : (now : ℤ) (b : Bucket D) → InDebt b → InDebt (refill D now b)
  unfolding refill
  refill-InDebt now b d =
      let elapsed = now -ℤ b.last_refill_ns in
      let added = new_tokens D b.config.rate_per_second elapsed in
      elim (Bool-cases (leb_ℤ elapsed (pos 0))) [
        | inl e ↦ rw e d
        | inr e ↦ elim (Bool-cases (leb_ℤ added (pos 0))) [
          | inl f ↦ rw (e, f) d
          | inr f ↦
              rw (e, f, d.burst, scaled-unlimited)
                (record { burst = refl; debt = min-lt (b.tokens +ℤ added) })
        ]
      ]

  consume-InDebt :
      (count : ℕ) (b : Bucket D)
      → count * 1000000 < 2 ^ 63
      → InDebt b
      → ((consume D count b).0 ≡ false) × InDebt (consume D count b).1
  unfolding consume
  consume-InDebt count b small d =
      let no : leb_ℤ (pos (count * 1000000)) b.tokens ≡ false = ground (arith, d.debt) in
      rw (scaled_small count small, no) (refl, record { burst = d.burst; debt = d.debt })

  run-InDebt :
      (requests : Requests) (b : Bucket D)
      → All (λ r. r.1 * 1000000 < 2 ^ 63) requests
      → InDebt b
      → (run D requests b).0 ≡ 0
  unfolding try_acquire
  run-InDebt [] b small d = refl
  run-InDebt ((now, count) ∷ requests) b small d =
      let c : Bucket D = record b {
        stats = record b.stats { requests = (b.stats.requests + 1) % 2 ^ 64 };
      } in
      let r = refill-InDebt now c (record { burst = d.burst; debt = d.debt }) in
      let s = consume-InDebt count (refill D now c) small.0 r in
      rw (s.0, run-InDebt requests (consume D count (refill D now c)).1 small.1 s.1) refl

  -- A bucket made with the configuration that means no limit hands out no token, however long it waits, to
  -- requests for numbers of tokens whose millionths are below 2^63.
  pub run-unlimited :
      (requests : Requests) (start : ℤ)
      → All (λ r. r.1 * 1000000 < 2 ^ 63) requests
      → (run D requests (fresh D (unlimited D) start)).0 ≡ 0
  unfolding fresh unlimited
  run-unlimited requests start small =
      run-InDebt requests (fresh D (unlimited D) start) small
        (record { burst = refl; debt = rw scaled-unlimited (omega arith) })
