-- ===== src/RuleEngine/Engine.antt =====
-- core/components/src/rule_engine/rule_engine.cpp: `RuleEngineImpl`, one call at a time. Maps are lists
-- of entries. `std::sort` may leave rules of one priority in any order: the model keeps the order they
-- had. Clock readings in nanoseconds are passed in.
pub mod Sorted
pub mod Coherent
pub mod Refinement
pub mod Stale
pub mod Reachable
use ipb.Base.{
  ℕ, suc, ◌+◌, ◌-◌, ◌/◌, ◌%◌, ◌^◌, Bool, true, false, ◌&&◌, not, List, [], ◌∷◌, ◌++◌, Option, none,
  some, if◌then◌else◌, ltb, leb, ◌==◌, length,
}
use ipb.Data.Point.{DataPoint, address}
use ipb.MessageBus.Topic.{same, is_empty}
use ipb.RuleEngine.Rule.{
  RuleType, pattern, RoutingRule, RuleMatchResult, Matchers, unmatched, with_match, evaluate_direct,
}

pub record RuleEngineConfig : Type 0 where
  pub enable_cache : Bool
  pub cache_size : ℕ
  pub cache_ttl_ms : ℕ
  pub prefer_ctre : Bool
  pub precompile_patterns : Bool

pub record CacheEntry : Type 0 where
  pub key : List ℕ
  pub results : List RuleMatchResult
  pub timestamp : ℕ

pub record RuleEngineStats : Type 0 where
  pub total_evaluations : ℕ
  pub total_matches : ℕ
  pub cache_hits : ℕ
  pub cache_misses : ℕ

-- `compiled` has the id and the pattern of each matcher in `compiled_patterns_`.
pub record Engine : Type 0 where
  pub config : RuleEngineConfig
  pub rules : List RoutingRule
  pub compiled : List (ℕ × List ℕ)
  pub next_rule_id : ℕ
  pub cache : List CacheEntry
  pub stats : RuleEngineStats

-- `std::sort` by descending priority.
unfoldable pub insert : RoutingRule → List RoutingRule → List RoutingRule
insert r [] = r ∷ []
insert r (s ∷ rules) =
    let rest = insert r rules in if leb s.priority r.priority then r ∷ (s ∷ rules) else s ∷ rest

unfoldable pub sort : List RoutingRule → List RoutingRule
sort [] = []
sort (r ∷ rules) = insert r (sort rules)

-- `compiled_patterns_[id] = create(pattern, ...)`, `erase(id)` and `find(id)`.
unfoldable pub erase_compiled : ℕ → List (ℕ × List ℕ) → List (ℕ × List ℕ)
erase_compiled id [] = []
erase_compiled id ((k, p) ∷ compiled) =
    let rest = erase_compiled id compiled in if k == id then rest else (k, p) ∷ rest

unfoldable pub find_compiled : ℕ → List (ℕ × List ℕ) → Option (List ℕ)
find_compiled id [] = none
find_compiled id ((k, p) ∷ compiled) =
    let rest = find_compiled id compiled in if k == id then some p else rest

abbrev pub is_pattern : RuleType → Bool
is_pattern pattern = true
is_pattern _ = false

unfoldable pub compile : RuleEngineConfig → ℕ → RoutingRule → List (ℕ × List ℕ) → List (ℕ × List ℕ)
compile c id r compiled =
    if c.precompile_patterns && is_pattern r.kind
    then (id, r.address_pattern) ∷ erase_compiled id compiled
    else compiled

-- `if (config_.enable_cache) cache_.clear()`
abbrev pub cleared : RuleEngineConfig → List CacheEntry → List CacheEntry
cleared c cache = if c.enable_cache then [] else cache

-- `add_rule`: the id, on a uint32_t.
unfoldable pub add_rule : RoutingRule → Engine → ℕ × Engine
add_rule r e =
    let id = e.next_rule_id in
    (
      id,
      record e {
        rules = sort (e.rules ++ (record r { id = id } ∷ []));
        compiled = compile e.config id r e.compiled;
        next_rule_id = (id + 1) % 2 ^ 32;
        cache = cleared e.config e.cache;
      },
    )

-- `find_if` by the id.
unfoldable pub get_rule_in : ℕ → List RoutingRule → Option RoutingRule
get_rule_in id [] = none
get_rule_in id (r ∷ rules) = let rest = get_rule_in id rules in if r.id == id then some r else rest

-- A write through the iterator that `find_if` yields, and the erasure there.
unfoldable pub change : ℕ → (RoutingRule → RoutingRule) → List RoutingRule → List RoutingRule
change id f [] = []
change id f (r ∷ rules) =
    let rest = change id f rules in if r.id == id then f r ∷ rules else r ∷ rest

unfoldable pub erase : ℕ → List RoutingRule → List RoutingRule
erase id [] = []
erase id (r ∷ rules) = let rest = erase id rules in if r.id == id then rules else r ∷ rest

-- What follows `find_if`, in the three operations on a rule that is there.
abbrev pub when_found : (Engine → Engine) → Engine → Option RoutingRule → Bool × Engine
when_found f e none = (false, e)
when_found f e (some r) = (true, f e)

abbrev pub updated : ℕ → RoutingRule → Engine → Engine
updated id r e = record e {
  rules = sort (change id (λ s. record r { id = id }) e.rules);
  compiled = compile e.config id r e.compiled;
  cache = cleared e.config e.cache;
}

unfoldable pub update_rule : ℕ → RoutingRule → Engine → Bool × Engine
update_rule id r e = when_found (updated id r) e (get_rule_in id e.rules)

abbrev pub removed : ℕ → Engine → Engine
removed id e = record e {
  rules = erase id e.rules;
  compiled = erase_compiled id e.compiled;
  cache = cleared e.config e.cache;
}

unfoldable pub remove_rule : ℕ → Engine → Bool × Engine
remove_rule id e = when_found (removed id) e (get_rule_in id e.rules)

abbrev pub with_enabled : ℕ → Bool → Engine → Engine
with_enabled id enabled e = record e {
  rules = change id (λ s. record s { enabled = enabled }) e.rules;
  cache = cleared e.config e.cache;
}

unfoldable pub set_rule_enabled : ℕ → Bool → Engine → Bool × Engine
set_rule_enabled id enabled e = when_found (with_enabled id enabled) e (get_rule_in id e.rules)

unfoldable pub clear_rules : Engine → Engine
clear_rules e = record e { rules = []; compiled = []; cache = [] }

-- `evaluate_rule`: by the precompiled matcher, where there is one.
abbrev pub evaluate_by :
    Matchers → Bool → RoutingRule → DataPoint → Option (List ℕ) → RuleMatchResult
evaluate_by X ctre r dp none = evaluate_direct X r dp
evaluate_by X ctre r dp (some p) =
    let (matched, groups) = X.match_with_groups ctre p (address dp) in
    with_match matched groups (unmatched r)

unfoldable pub evaluate_rule :
    Matchers → Bool → List (ℕ × List ℕ) → RoutingRule → DataPoint → RuleMatchResult
evaluate_rule X ctre compiled r dp =
    evaluate_by X ctre r dp (if is_pattern r.kind then find_compiled r.id compiled else none)

-- The loop over the rules.
unfoldable pub matches_among :
    Matchers → Bool → List (ℕ × List ℕ) → DataPoint → List RoutingRule → List RuleMatchResult
matches_among X ctre compiled dp [] = []
matches_among X ctre compiled dp (r ∷ rules) =
    let rest = matches_among X ctre compiled dp rules in
    let result = evaluate_rule X ctre compiled r dp in
    if r.enabled then (if result.matched then result ∷ rest else rest) else rest

-- `cache_.find(address)`, and `check_cache` at the time `now`.
unfoldable pub find_entry : List ℕ → List CacheEntry → Option CacheEntry
find_entry key [] = none
find_entry key (c ∷ cache) =
    let rest = find_entry key cache in if same c.key key then some c else rest

-- The difference of the times is an int64_t: below zero, the age is no more than any limit.
abbrev pub is_fresh : RuleEngineConfig → ℕ → CacheEntry → Bool
is_fresh c now entry =
    if c.cache_ttl_ms == 0 then true else leb ((now - entry.timestamp) / 1000000) c.cache_ttl_ms

abbrev pub fresh_results : RuleEngineConfig → ℕ → Option CacheEntry → Option (List RuleMatchResult)
fresh_results c now none = none
fresh_results c now (some entry) = if is_fresh c now entry then some entry.results else none

unfoldable pub check_cache : Engine → ℕ → List ℕ → Option (List RuleMatchResult)
check_cache e now key = fresh_results e.config now (find_entry key e.cache)

-- The loop of `update_cache` that looks for the oldest entry, from `oldest` and `oldest_key` on.
unfoldable pub oldest_key : ℕ → List ℕ → List CacheEntry → List ℕ
oldest_key oldest key [] = key
oldest_key oldest key (c ∷ cache) = elim (ltb c.timestamp oldest) [
  | true ↦ oldest_key c.timestamp c.key cache
  | false ↦ oldest_key oldest key cache
]

-- `cache_.erase(key)`
unfoldable pub erase_entry : List ℕ → List CacheEntry → List CacheEntry
erase_entry key [] = []
erase_entry key (c ∷ cache) =
    let rest = erase_entry key cache in if same c.key key then rest else c ∷ rest

unfoldable pub evict : ℕ → ℕ → List CacheEntry → List CacheEntry
evict size now cache =
    let key = oldest_key now [] cache in
    if leb size (length cache)
    then (if is_empty key then cache else erase_entry key cache)
    else cache

-- The readings of the clock: for the age, for the eviction, and for the new entry.
pub record Clock : Type 0 where
  pub checked : ℕ
  pub evicted : ℕ
  pub stored : ℕ

-- `update_cache`
unfoldable pub update_cache :
    RuleEngineConfig → Clock → List ℕ → List RuleMatchResult → List CacheEntry → List CacheEntry
update_cache c t key results cache =
    record { key = key; results = results; timestamp = t.stored }
    ∷ erase_entry key (evict c.cache_size t.evicted cache)

-- What `evaluate` leaves where nothing was found in the cache.
unfoldable pub evaluate_all : Matchers → Clock → DataPoint → Engine → List RuleMatchResult × Engine
evaluate_all X t dp e =
    let results = matches_among X e.config.prefer_ctre e.compiled dp e.rules in
    (
      results,
      record e {
        cache =
            if e.config.enable_cache && ltb 0 (length results)
            then update_cache e.config t (address dp) results e.cache
            else e.cache;
        stats = record (e.stats) {
          total_evaluations = (e.stats.total_evaluations + 1) % 2 ^ 64;
          total_matches = (e.stats.total_matches + length results) % 2 ^ 64;
          cache_misses =
              if e.config.enable_cache
              then (e.stats.cache_misses + 1) % 2 ^ 64
              else e.stats.cache_misses;
        };
      },
    )

abbrev pub evaluate_after :
    Matchers
    → Clock
    → DataPoint
    → Engine
    → Option (List RuleMatchResult)
    → List RuleMatchResult × Engine
evaluate_after X t dp e none = evaluate_all X t dp e
evaluate_after X t dp e (some results) = (
  results,
  record e { stats = record (e.stats) { cache_hits = (e.stats.cache_hits + 1) % 2 ^ 64 } },
)

-- `evaluate`
unfoldable pub evaluate : Matchers → Clock → DataPoint → Engine → List RuleMatchResult × Engine
evaluate X t dp e =
    evaluate_after X t dp e
      (if e.config.enable_cache then check_cache e t.checked (address dp) else none)

-- `evaluate_batch`: the readings of the clock stand beside the data points.
unfoldable pub evaluate_batch :
    Matchers → List (Clock × DataPoint) → Engine → List (List RuleMatchResult) × Engine
evaluate_batch X [] e = ([], e)
evaluate_batch X ((t, dp) ∷ points) e =
    let (results, e') = evaluate X t dp e in
    let (all_results, e'') = evaluate_batch X points e' in (results ∷ all_results, e'')

-- The loop of `evaluate_first`.
unfoldable pub first_among :
    Matchers → Bool → List (ℕ × List ℕ) → DataPoint → List RoutingRule → Option RuleMatchResult
first_among X ctre compiled dp [] = none
first_among X ctre compiled dp (r ∷ rules) =
    let rest = first_among X ctre compiled dp rules in
    let result = evaluate_rule X ctre compiled r dp in
    if r.enabled then (if result.matched then some result else rest) else rest

-- The loop of `evaluate_priority`, which is left at the first enabled rule below the priority.
unfoldable pub priority_among :
    Matchers → Bool → List (ℕ × List ℕ) → DataPoint → ℕ → List RoutingRule → List RuleMatchResult
priority_among X ctre compiled dp least [] = []
priority_among X ctre compiled dp least (r ∷ rules) =
    let rest = priority_among X ctre compiled dp least rules in
    let result = evaluate_rule X ctre compiled r dp in
    if r.enabled
    then (if ltb r.priority least then [] else if result.matched then result ∷ rest else rest)
    else rest

abbrev counted : ℕ → Engine → Engine
counted n e = record e {
  stats = record (e.stats) {
    total_evaluations = (e.stats.total_evaluations + 1) % 2 ^ 64;
    total_matches = (e.stats.total_matches + n) % 2 ^ 64;
  };
}

abbrev size_of : Option RuleMatchResult → ℕ
size_of none = 0
size_of (some result) = 1

-- `evaluate_first` and `evaluate_priority`
unfoldable pub evaluate_first : Matchers → DataPoint → Engine → Option RuleMatchResult × Engine
evaluate_first X dp e =
    let result = first_among X e.config.prefer_ctre e.compiled dp e.rules in
    (result, counted (size_of result) e)

unfoldable pub evaluate_priority : Matchers → DataPoint → ℕ → Engine → List RuleMatchResult × Engine
evaluate_priority X dp least e =
    let results = priority_among X e.config.prefer_ctre e.compiled dp least e.rules in
    (results, counted (length results) e)

-- `clear_cache` and `invalidate_cache`, where `hit` is what the pattern's matcher answers.
unfoldable pub clear_cache : Engine → Engine
clear_cache e = record e { cache = [] }

unfoldable pub drop_entries : (List ℕ → Bool) → List CacheEntry → List CacheEntry
drop_entries hit [] = []
drop_entries hit (c ∷ cache) =
    let rest = drop_entries hit cache in if hit c.key then rest else c ∷ rest

unfoldable pub invalidate_cache : (List ℕ → Bool) → Engine → Engine
invalidate_cache hit e = record e { cache = drop_entries hit e.cache }

-- `reset_stats`
unfoldable pub reset_stats : Engine → Engine
reset_stats e = record e {
  stats = record { total_evaluations = 0; total_matches = 0; cache_hits = 0; cache_misses = 0 };
}
