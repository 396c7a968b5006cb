-- ===== src/RateLimiter/Bucket.antt =====
-- core/common/include/ipb/common/rate_limiter.hpp: `RateLimitConfig`, `TokenBucket` and `RateLimitGuard`,
-- one call at a time. The clock's readings are arguments; sleeping and spinning are left out.
pub mod Rate
pub mod Paid
pub mod Bound
pub mod Unlimited
pub mod Waiting
use ipb.Base.{
  ℕ, ◌+◌, ◌-◌, ◌*◌, ◌/◌, ◌%◌, ◌^◌, Bool, true, false, List, [], ◌∷◌, Option, none, some,
  if◌then◌else◌, ltb,
}
use ipb.Base.Int.{ℤ, pos, negsuc, sub_ℕ, ◌+ℤ◌, ◌-ℤ◌, ltb_ℤ, leb_ℤ, min_ℤ, pos_part}
use ipb.Base.Double.{Doubles}

-- The part of `RateLimitConfig` that the code reads.
pub record Config (D : Doubles) : Type 0 where
  pub rate_per_second : D.Double
  pub burst_size : ℕ
  pub min_rate : D.Double
  pub max_rate : D.Double

-- `RateLimiterStats`, on uint64_t.
pub record Stats : Type 0 where
  pub requests : ℕ
  pub allowed : ℕ
  pub rejected : ℕ
  pub throttled_ns : ℕ

pub record Bucket (D : Doubles) : Type 0 where
  pub config : Config D
  pub stats : Stats
  pub tokens : ℤ
  pub last_refill_ns : ℤ

abbrev pub precision : ℕ
precision = 1000000

-- `static_cast<int64_t>` of a size_t.
abbrev pub to_int64 : ℕ → ℤ
to_int64 n = if ltb n (2 ^ 63) then pos n else negsuc (2 ^ 64 - 1 - n)

-- `static_cast<int64_t>(count * PRECISION)`: the product is a size_t.
unfoldable pub scaled : ℕ → ℤ
scaled count = to_int64 (count * 1000000 % 2 ^ 64)

abbrev pub add64 : ℕ → ℕ → ℕ
add64 n a = (a + n) % 2 ^ 64

abbrev pub zero_stats : Stats
zero_stats = record { requests = 0; allowed = 0; rejected = 0; throttled_ns = 0 }

module _ (D : Doubles) where
  open D use {Double, of_int, decimal, mul, div, to_int}

  -- `RateLimitConfig::unlimited` and `RateLimitConfig::strict`; the default rates.
  unfoldable pub unlimited : Config D
  unlimited = record {
    rate_per_second = decimal (10 ^ 12) 0;
    burst_size = 2 ^ 63 - 1;
    min_rate = decimal 10 0;
    max_rate = decimal 100000 0;
  }

  unfoldable pub strict : Double → Config D
  strict rate = record {
    rate_per_second = rate;
    burst_size = 1;
    min_rate = decimal 10 0;
    max_rate = decimal 100000 0;
  }

  -- `TokenBucket`'s constructor, at the time `now`.
  unfoldable pub fresh : Config D → ℤ → Bucket D
  fresh config now = record {
    config = config;
    stats = zero_stats;
    tokens = scaled config.burst_size;
    last_refill_ns = now;
  }

  -- `static_cast<int64_t>(elapsed_ns * tokens_per_ns * PRECISION)`
  unfoldable pub new_tokens : Double → ℤ → ℤ
  new_tokens rate elapsed =
      to_int (mul (mul (of_int elapsed) (div rate (decimal 1000000000 0))) (of_int (pos precision)))

  -- `refill`
  unfoldable pub refill : ℤ → Bucket D → Bucket D
  refill now b =
      let elapsed = now -ℤ b.last_refill_ns in
      let added = new_tokens b.config.rate_per_second elapsed in
      if leb_ℤ elapsed (pos 0) then b else if leb_ℤ added (pos 0) then b else record b {
        last_refill_ns = now;
        tokens = min_ℤ (b.tokens +ℤ added) (scaled b.config.burst_size);
      }

  -- What follows the refill in `try_acquire`.
  unfoldable pub consume : ℕ → Bucket D → Bool × Bucket D
  consume count b =
      if leb_ℤ (scaled count) b.tokens
      then (
        true,
        record b {
          tokens = b.tokens -ℤ scaled count;
          stats = record b.stats { allowed = add64 1 b.stats.allowed };
        },
      )
      else (false, record b { stats = record b.stats { rejected = add64 1 b.stats.rejected } })

  -- `try_acquire`, whose refill reads the time `now`.
  unfoldable pub try_acquire : ℤ → ℕ → Bucket D → Bool × Bucket D
  try_acquire now count b =
      consume count
        (refill now (record b { stats = record b.stats { requests = add64 1 b.stats.requests } }))

  -- `wait_time_ns`: the deficit in whole tokens, then in time.
  unfoldable pub wait_time_ns : ℕ → Bucket D → ℤ
  wait_time_ns count b =
      if leb_ℤ (scaled count) b.tokens
      then pos 0
      else to_int (
          div (of_int (pos (pos_part (scaled count -ℤ b.tokens) / precision)))
            (div b.config.rate_per_second (decimal 1000000000 0)))

  -- `set_rate` and `set_burst`
  unfoldable pub set_rate : Double → Bucket D → Bucket D
  set_rate rate b = record b { config = record b.config { rate_per_second = rate } }

  unfoldable pub set_burst : ℕ → Bucket D → Bucket D
  set_burst burst b = record b { config = record b.config { burst_size = burst } }

-- One turn of the loop of `acquire`: the time that its `try_acquire` reads, and the one that follows.
pub record Turn : Type 0 where
  pub at : ℤ
  pub now : ℤ

module _ (D : Doubles) where
  -- A wait is counted where it is positive.
  abbrev pub throttled : ℤ → Bucket D → Bucket D
  throttled wait b =
      if ltb_ℤ (pos 0) wait
      then record b {
        stats = record b.stats { throttled_ns = add64 (pos_part wait) b.stats.throttled_ns };
      }
      else b

  -- `acquire` up to `deadline`, over the turns that its loop takes. A call that still waits when these
  -- run out gives none.
  unfoldable pub acquire : ℤ → ℕ → List Turn → Bucket D → Option (Bool × Bucket D)
  acquire deadline count [] b = none
  acquire deadline count (t ∷ turns) b =
      let (acquired, b') = try_acquire D t.at count b in
      let wait = min_ℤ (wait_time_ns D count b') (deadline -ℤ t.now) in
      let rest = acquire deadline count turns (throttled wait b') in
      if acquired then some (true, b') else if leb_ℤ deadline t.now then some (false, b') else rest

  -- `RateLimitGuard::try_acquire`: whether there is a guard.
  unfoldable pub guard : ℤ → Bucket D → Bool × Bucket D
  guard now b = try_acquire D now 1 b
