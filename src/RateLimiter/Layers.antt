-- ===== src/RateLimiter/Layers.antt =====
-- core/common/include/ipb/common/rate_limiter.hpp: `AdaptiveRateLimiter`, `HierarchicalRateLimiter` and
-- `RateLimiterRegistry`, one call at a time. Maps are association lists.
pub mod Global
use Prim.Native.String.{String}
use text.Mathlib.Text.{◌==◌ as str_eq}
use ipb.Base.{ℕ, Bool, true, false, List, [], ◌∷◌, Option, none, some, if◌then◌else◌}
use ipb.Base.Int.{ℤ, pos, ◌-ℤ◌, ltb_ℤ}
use ipb.Base.Double.{Doubles}
use ipb.RateLimiter.Bucket
use ipb.RateLimiter.Bucket.{Bucket, Config, set_rate}

pub record Adaptive (D : Doubles) : Type 0 where
  pub config : Config D
  pub bucket : Bucket D
  pub current_rate : D.Double
  pub load_factor : D.Double
  pub last_update_ns : ℤ

module _ (D : Doubles) where
  open D use {Double, decimal, add, sub, mul, lt}

  -- `std::max` and `std::min`
  abbrev greater : Double → Double → Double
  greater a b = if lt a b then b else a

  abbrev lesser : Double → Double → Double
  lesser a b = if lt b a then b else a

  -- `report_load`
  unfoldable pub report_load : Double → Adaptive D → Adaptive D
  report_load load a = record a {
    load_factor =
        add (mul (decimal 1 1) load) (mul (sub (decimal 1 0) (decimal 1 1)) a.load_factor);
  }

  -- The rate that `update_rate` computes from the load.
  unfoldable pub adapted_rate : Config D → Double → Double
  adapted_rate c load =
      let factor =
        greater (decimal 1 1) (lesser (decimal 1 0) (sub (decimal 1 0) (mul load (decimal 8 1)))) in
      greater c.min_rate (lesser c.max_rate (mul c.max_rate factor))

  -- `update_rate`: at most once in 100 ms.
  unfoldable pub update_rate : ℤ → Adaptive D → Adaptive D
  update_rate now a =
      let rate = adapted_rate a.config a.load_factor in
      if ltb_ℤ (now -ℤ a.last_update_ns) (pos 100000000)
      then a
      else record a { last_update_ns = now; current_rate = rate; bucket = set_rate D rate a.bucket }

  -- `AdaptiveRateLimiter::try_acquire`, with the two readings of the clock.
  unfoldable pub try_acquire_adaptive : ℤ → ℤ → ℕ → Adaptive D → Bool × Adaptive D
  try_acquire_adaptive updated now count a =
      let a' = update_rate updated a in
      let (ok, bucket) = Bucket.try_acquire D now count a'.bucket in
      (ok, record a' { bucket = bucket })

  -- `std::unordered_map<std::string, std::unique_ptr<TokenBucket>>`
  abbrev pub Buckets : Type 0
  Buckets = List (String × Bucket D)

  pub find : String → Buckets → Option (Bucket D)
  find name [] = none
  find name ((k, b) ∷ buckets) =
      let rest = find name buckets in if str_eq k name then some b else rest

  -- `buckets[name] = bucket`
  pub put : String → Bucket D → Buckets → Buckets
  put name bucket [] = (name, bucket) ∷ []
  put name bucket ((k, b) ∷ buckets) =
      let rest = put name bucket buckets in
      if str_eq k name then (k, bucket) ∷ buckets else (k, b) ∷ rest

  pub erase : String → Buckets → Buckets
  erase name [] = []
  erase name ((k, b) ∷ buckets) =
      let rest = erase name buckets in if str_eq k name then buckets else (k, b) ∷ rest

pub record Hierarchical (D : Doubles) : Type 0 where
  pub global_bucket : Bucket D
  pub source_buckets : List (String × Bucket D)

module _ (D : Doubles) where
  -- `add_source_limit`
  unfoldable pub add_source_limit : String → Config D → ℤ → Hierarchical D → Hierarchical D
  unfolding put
  add_source_limit source config now h = record h {
    source_buckets = put D source (Bucket.fresh D config now) h.source_buckets;
  }

  -- The check of the source's own limit, once the global one has let the request pass.
  unfoldable pub check_source : ℤ → String → Hierarchical D → Bool × Hierarchical D
  unfolding find put
  check_source now source h = elim (find D source h.source_buckets) [
    | none ↦ (true, h)
    | some b ↦
        let (ok, b') = Bucket.try_acquire D now 1 b in
        (ok, record h { source_buckets = put D source b' h.source_buckets })
  ]

  -- `HierarchicalRateLimiter::try_acquire`, with the readings of the clock for the two levels.
  unfoldable pub try_acquire_level : ℤ → ℤ → String → Hierarchical D → Bool × Hierarchical D
  try_acquire_level now now_source source h =
      let (ok, global) = Bucket.try_acquire D now 1 h.global_bucket in
      let h' : Hierarchical D = record {
        global_bucket = global;
        source_buckets = h.source_buckets;
      } in
      if ok
      then (if str_eq source "" then (true, h') else check_source now_source source h')
      else (false, h')

  -- `RateLimiterRegistry`: `register_limiter`, `get_or_create`, `try_acquire` and `remove`.
  unfoldable pub register_limiter : String → Config D → ℤ → Buckets D → Buckets D
  register_limiter name config now limiters = put D name (Bucket.fresh D config now) limiters

  unfoldable pub get_or_create : String → Config D → ℤ → Buckets D → Bucket D × Buckets D
  get_or_create name config now limiters = elim (find D name limiters) [
    | some b ↦ (b, limiters)
    | none ↦ (Bucket.fresh D config now, put D name (Bucket.fresh D config now) limiters)
  ]

  unfoldable pub try_acquire_named : ℤ → String → ℕ → Buckets D → Bool × Buckets D
  try_acquire_named now name count limiters = elim (find D name limiters) [
    | none ↦ (true, limiters)
    | some b ↦ let (ok, b') = Bucket.try_acquire D now count b in (ok, put D name b' limiters)
  ]

  unfoldable pub remove : String → Buckets D → Buckets D
  remove name limiters = erase D name limiters
