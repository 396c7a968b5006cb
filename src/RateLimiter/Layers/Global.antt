-- ===== src/RateLimiter/Layers/Global.antt =====
-- The global limit of `HierarchicalRateLimiter` (rate_limiter.hpp).
use Prim.Native.String.{String}
use text.Mathlib.Text.{◌==◌ as str_eq}
use ipb.Base.{
  ℕ, ◌+◌, ◌*◌, ◌^◌, ◌≤◌, ◌<◌, ◌≡◌, refl, ap, ◌∙◌, inl, inr, Bool, true, false, List, [], ◌∷◌,
  if◌then◌else◌, arith, Option-cases, All,
}
use ipb.Base.Int.{ℤ, pos, pos_part, ◌+ℤ◌}
use ipb.Base.Double.{Doubles}
use ipb.RateLimiter.Bucket
use ipb.RateLimiter.Bucket.{Bucket, Config}
use ipb.RateLimiter.Bucket.Bound.{AreSmall, run-bound}
use ipb.RateLimiter.Bucket.Rate.{Rounding, IsModerate}
use ipb.RateLimiter.Bucket.Bound
use ipb.RateLimiter.Bucket.Paid
use ipb.RateLimiter.Layers.{Hierarchical, find, check_source, try_acquire_level}

-- A request: the clock's readings for the two levels, and the source.
pub record Request : Type 0 where
  pub now : ℤ
  pub now_source : ℤ
  pub source : String

module _ (D : Doubles) where
  -- How many requests of a run are allowed, and the limiter afterwards.
  abbrev pub run : List Request → Hierarchical D → ℕ × Hierarchical D
  run [] h = (0, h)
  run (r ∷ requests) h =
      let (ok, h') = try_acquire_level D r.now r.now_source r.source h in
      let (total, h'') = run requests h' in ((if ok then 1 else 0) + total, h'')

  -- What the global bucket is asked for.
  abbrev pub asked : List Request → List (ℤ × ℕ)
  asked [] = []
  asked (r ∷ requests) = (r.now, 1) ∷ asked requests

  check_source-global :
      (now : ℤ) (source : String) (h : Hierarchical D)
      → (check_source D now source h).1.global_bucket ≡ h.global_bucket
  unfolding check_source
  check_source-global now source h = elim (Option-cases (find D source h.source_buckets)) [
    | inl e ↦ rw (e, check_source)
    | inr (b, e) ↦ rw (e, check_source)
  ]

  -- A request is allowed only if the global bucket grants it, and the bucket is left as that call leaves it.
  try_acquire_level-global :
      (r : Request) (h : Hierarchical D)
      → let (ok, h') = try_acquire_level D r.now r.now_source r.source h in
        let (granted, b) = Bucket.try_acquire D r.now 1 h.global_bucket in
        (h'.global_bucket ≡ b) × ((if ok then 1 else 0) ≤ Paid.granted granted 1)
  unfolding try_acquire_level
  try_acquire_level-global r h =
      go (Bucket.try_acquire D r.now 1 h.global_bucket).0 (str_eq r.source "")
    where
      here : Hierarchical D
      here = record {
        global_bucket = (Bucket.try_acquire D r.now 1 h.global_bucket).1;
        source_buckets = h.source_buckets;
      }

      at_most_one : (b : Bool) → (if b then 1 else 0) ≤ 1
      at_most_one true = omega arith
      at_most_one false = omega arith

      go :
          (ok empty : Bool)
          → let (allowed, h') =
              (if ok
                then (if empty then (true, here) else check_source D r.now_source r.source here)
                else (false, here)) in
            (h'.global_bucket ≡ (Bucket.try_acquire D r.now 1 h.global_bucket).1)
            × ((if allowed then 1 else 0) ≤ Paid.granted ok 1)
      go false empty = (refl, omega arith)
      go true true = (refl, omega arith)
      go true false = (
        check_source-global r.now_source r.source here,
        at_most_one (check_source D r.now_source r.source here).0,
      )

  run-global :
      (requests : List Request) (h : Hierarchical D)
      → let (total, h') = run requests h in
        let (granted, b) = Bound.run D (asked requests) h.global_bucket in
        (total ≤ granted) × (h'.global_bucket ≡ b)
  run-global [] h = (omega arith, refl)
  run-global (r ∷ requests) h =
      let step = try_acquire_level-global r h in
      let h' = (try_acquire_level D r.now r.now_source r.source h).1 in
      let rest = run-global requests h' in
      let e : Bound.run D (asked requests) h'.global_bucket
          ≡ Bound.run D (asked requests) (Bucket.try_acquire D r.now 1 h.global_bucket).1 =
        ap (λ b. Bound.run D (asked requests) b) step.0 in
      (omega (arith, step.1, rest.0, ap (λ p. p.0) e), rest.1 ∙ ap (λ p. p.1) e)

  -- Clock readings that fit in 64 bits.
  abbrev pub AreTimely : List Request → Type 0
  AreTimely = All (λ r. pos_part r.now < 2 ^ 63)

  asked-AreSmall : (requests : List Request) → AreTimely requests → AreSmall D (asked requests)
  asked-AreSmall [] h = tt
  asked-AreSmall (r ∷ requests) h = ((h.0, omega arith), asked-AreSmall requests h.1)

  -- Whatever the sources, their limits and the clock readings, the requests that a new hierarchical
  -- limiter allows are bounded as those of one bucket with the global configuration, a rate of at most
  -- p / q per second: by its burst size and, beyond it, by the worth of the time by which the global
  -- bucket's time of refill has moved on, but for the error of three operations on doubles, which are
  -- known by their bounds. Readings and the burst size fit in 64 bits, and p / q is between 2^-100 and
  -- 2^100.
  pub run_level-bound :
      (R : Rounding D) (p q : ℕ) (requests : List Request) (config : Config D) (start : ℕ)
      (sources : List (String × Bucket D))
      → config.burst_size * 1000000 < 2 ^ 63
      → R.AtMost config.rate_per_second p q
      → IsModerate p q
      → AreTimely requests
      → let (total, h) = run requests (record {
        global_bucket = Bucket.fresh D config (pos start);
        source_buckets = sources;
      }) in
        (time : ℕ) × (credit : ℕ) × (h.global_bucket.last_refill_ns ≡ pos start +ℤ pos time)
        × (total * 1000000 ≤ config.burst_size * 1000000 + credit)
        × (credit * q * (1000 * (2 ^ 51) ^ 3) ≤ p * time * (2 ^ 51 + 1) ^ 3)
  run_level-bound R p q requests config start sources fits most moderate timely =
      let (time, credit, credited, bound, worth) =
        run-bound D R p q (asked requests) config start fits most moderate
          (asked-AreSmall requests timely) in
      let g =
        run-global requests (record {
          global_bucket = Bucket.fresh D config (pos start);
          source_buckets = sources;
        }) in
      (
        time,
        credit,
        ap (λ (b : Bucket D). b.last_refill_ns) g.1 ∙ credited,
        omega (arith, g.0, bound),
        worth,
      )
