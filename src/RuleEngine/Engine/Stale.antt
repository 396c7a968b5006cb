-- ===== src/RuleEngine/Engine/Stale.antt =====
-- The cache of rule_engine.cpp is keyed by the address alone.
use ipb.Base.{
  ℕ, ◌-◌, ◌/◌, ◌≤◌, ◌<◌, ◌≡◌, refl, ap, ◌∙◌, true, ◌&&◌, List, [], ◌∷◌, none, some, if◌then◌else◌,
  ltb, length, arith, All, map,
}
use mathlib.Core.Path.{subst}
use ipb.Data.Point.{DataPoint, address}
use ipb.MessageBus.Topic.{same}
use ipb.RuleEngine.Rule.{Matchers, RuleMatchResult}
use ipb.RuleEngine.Engine.{
  Engine, Clock, CacheEntry, matches_among, find_entry, check_cache, fresh_results, is_fresh,
  update_cache, erase_entry, evict, evaluate_all, evaluate_after, evaluate, evaluate_batch,
}

pub same_refl : (t : List ℕ) → same t t ≡ true
same_refl [] = refl
same_refl (c ∷ t) = ground (arith, same_refl t)

-- What was just stored is found.
find_entry-cons : (c : CacheEntry) (cache : List CacheEntry) → find_entry c.key (c ∷ cache) ≡ some c
unfolding find_entry
find_entry-cons c cache = ap (λ b. if b then some c else find_entry c.key cache) (same_refl c.key)

-- What is not in the cache is evaluated.
evaluate-miss :
    (X : Matchers) (t : Clock) (dp : DataPoint) (e : Engine)
    → e.config.enable_cache ≡ true
    → check_cache e t.checked (address dp) ≡ none
    → evaluate X t dp e ≡ evaluate_all X t dp e
unfolding evaluate
evaluate-miss X t dp e on absent =
    ap (evaluate_after X t dp e)
      (ap (λ b. if b then check_cache e t.checked (address dp) else none) on ∙ absent)

-- What an evaluation stored is found, while it is young enough.
check_cache-evaluate_all :
    (X : Matchers) (t : Clock) (now : ℕ) (dp : DataPoint) (e : Engine)
    → e.config.enable_cache ≡ true
    → 0 < length (evaluate_all X t dp e).0
    → (now - t.stored) / 1000000 ≤ e.config.cache_ttl_ms
    → check_cache (evaluate_all X t dp e).1 now (address dp) ≡ some (evaluate_all X t dp e).0
unfolding check_cache evaluate_all update_cache
check_cache-evaluate_all X t now dp e on some_match young =
    let results = matches_among X e.config.prefer_ctre e.compiled dp e.rules in
    let entry : CacheEntry = record { key = address dp; results = results; timestamp = t.stored } in
    let others = erase_entry (address dp) (evict e.config.cache_size t.evicted e.cache) in
    let tested : (e.config.enable_cache && ltb 0 (length results)) ≡ true =
      ap (λ b. b && ltb 0 (length results)) on ∙ ground arith in
    let fresh : is_fresh e.config now entry ≡ true = ground arith in
    ap
      (λ b.
        fresh_results e.config now
          (find_entry (address dp) (if b then entry ∷ others else e.cache)))
      tested
    ∙ (ap (fresh_results e.config now) (find_entry-cons entry others)
        ∙ ap (λ b. if b then some results else none) fresh)

-- While the cache has these results for a key, up to some age.
abbrev Holds : Engine → List ℕ → ℕ → List RuleMatchResult → Type 0
Holds e key stored results =
    (now : ℕ)
    → (now - stored) / 1000000 ≤ e.config.cache_ttl_ms
    → check_cache e now key ≡ some results

-- Data points of one address, and times at which what was stored is young enough.
abbrev pub AreOf : List ℕ → ℕ → ℕ → List (Clock × DataPoint) → Type 0
AreOf key stored ttl = All (λ p. (address p.1 ≡ key) × ((p.0.checked - stored) / 1000000 ≤ ttl))

-- A hit returns what the cache has, and changes counts only.
evaluate-hit :
    (X : Matchers) (t : Clock) (dp : DataPoint) (e : Engine) (results : List RuleMatchResult)
    → e.config.enable_cache ≡ true
    → check_cache e t.checked (address dp) ≡ some results
    → evaluate X t dp e ≡ evaluate_after X t dp e (some results)
unfolding evaluate
evaluate-hit X t dp e results on found =
    ap (evaluate_after X t dp e)
      (ap (λ b. if b then check_cache e t.checked (address dp) else none) on ∙ found)

evaluate_batch-hits :
    (X : Matchers) (key : List ℕ) (stored : ℕ) (results : List RuleMatchResult)
    (points : List (Clock × DataPoint)) (e : Engine)
    → e.config.enable_cache ≡ true
    → Holds e key stored results
    → AreOf key stored e.config.cache_ttl_ms points
    → (evaluate_batch X points e).0 ≡ map (λ p. results) points
unfolding evaluate_batch check_cache
evaluate_batch-hits X key stored results [] e on holds h = refl
evaluate_batch-hits X key stored results ((t, dp) ∷ points) e on holds h =
    let found : check_cache e t.checked (address dp) ≡ some results =
      ap (check_cache e t.checked) h.0.0 ∙ holds t.checked h.0.1 in
    let hit = evaluate-hit X t dp e results on found in
    let rest =
      evaluate_batch-hits X key stored results points (evaluate_after X t dp e (some results)).1 on
        holds h.1 in
    ap (λ p. p.0 ∷ (evaluate_batch X points p.1).0) hit ∙ ap (◌∷◌ results) rest

-- A data point that was not in the cache and that has matches decides what the data points of its address
-- get that are evaluated right after it, in whatever number, until the entry is too old: the same matches,
-- whatever their values, qualities, protocols and times.
pub evaluate-same_address :
    (X : Matchers) (t : Clock) (dp : DataPoint) (points : List (Clock × DataPoint)) (e : Engine)
    → e.config.enable_cache ≡ true
    → check_cache e t.checked (address dp) ≡ none
    → 0 < length (evaluate X t dp e).0
    → AreOf (address dp) t.stored e.config.cache_ttl_ms points
    → (evaluate_batch X points (evaluate X t dp e).1).0 ≡ map (λ p. (evaluate X t dp e).0) points
unfolding evaluate_all
evaluate-same_address X t dp points e on absent some_match same_address =
    let miss = evaluate-miss X t dp e on absent in
    let some_found : 0 < length (evaluate_all X t dp e).0 =
      subst (λ p. 0 < length p.0) miss some_match in
    rw miss (
      evaluate_batch-hits X (address dp) t.stored (evaluate_all X t dp e).0 points
        (evaluate_all X t dp e).1 on
        (λ now young. check_cache-evaluate_all X t now dp e on some_found young) same_address)
