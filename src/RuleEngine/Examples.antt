-- ===== src/RuleEngine/Examples.antt =====
-- Wildcard patterns of pattern_matcher.cpp, as bytes, and the engine of rule_engine.cpp, at concrete inputs.
use ipb.Base.{
  map, ℕ, ◌<◌, ◌≡◌, refl, arith, true, false, List, [], ◌∷◌, inl, inr, none, some, length,
}
use ipb.Base.Int.{pos}
use ipb.Data.Value.{empty_value, inline}
use ipb.Data.Point
use ipb.Data.Point.{DataPoint}
use ipb.MessageBus.Topic.{same}
use ipb.RuleEngine.Rule
use ipb.RuleEngine.Rule.{RuleType, RoutingRule, Matchers}
use ipb.RuleEngine.Engine
use ipb.RuleEngine.Engine.{
  Engine, Clock, evaluate, evaluate_first, evaluate_priority, matches_among,
}
use ipb.RuleEngine.Engine.Sorted.{kept, head_of}
use ipb.RuleEngine.Engine.Refinement
use ipb.RuleEngine.Engine.Refinement.{Call, run, plain, run-plain}
use ipb.RuleEngine.Engine.Reachable.{after, evaluate_early}
use ipb.RuleEngine.Engine.Stale.{evaluate-same_address}
use ipb.RuleEngine.Wildcard.{match_impl}
use ipb.RuleEngine.Wildcard.Glob.{glob}
use ipb.RuleEngine.Wildcard.Search.{match_impl-glob, match_impl_star}

-- "a*b?c" and "axbbyc"
abbrev glob_pattern : List ℕ
glob_pattern = 97 ∷ 42 ∷ 98 ∷ 63 ∷ 99 ∷ []

abbrev address_bytes : List ℕ
address_bytes = 97 ∷ 120 ∷ 98 ∷ 98 ∷ 121 ∷ 99 ∷ []

glob_matches : glob glob_pattern address_bytes ≡ true
unfolding glob
glob_matches = refl

match_impl-glob_example :
    match_impl glob_pattern address_bytes ≡ some (glob glob_pattern address_bytes)
match_impl-glob_example =
    match_impl-glob glob_pattern address_bytes
      (omega arith, (omega arith, (omega arith, (omega arith, (omega arith, (omega arith, tt))))))

match_impl_star_example : match_impl (42 ∷ []) (42 ∷ 97 ∷ 98 ∷ []) ≡ some false
match_impl_star_example = match_impl_star 97 (98 ∷ [])

-- Matchers that take the pattern for the address itself, and any condition for true.
abbrev matchers : Matchers
matchers = record { match_with_groups = λ ctre p a. (same p a, []); condition_holds = λ c v. true }

abbrev rule : RuleType → ℕ → RoutingRule
rule kind priority = record {
  id = 0;
  name = 114 ∷ [];
  kind = kind;
  priority = priority;
  enabled = true;
  source_addresses = (97 ∷ []) ∷ [];
  address_pattern = 97 ∷ [];
  protocol_ids = [];
  quality_levels = 0 ∷ [];
  value_condition = none;
  start_time = pos 0;
  end_time = pos 0;
  target_sink_ids = "kafka" ∷ [];
  custom_predicate = none;
}

abbrev new_engine : Engine
new_engine = record {
  config = record {
    enable_cache = true;
    cache_size = 2;
    cache_ttl_ms = 1000;
    prefer_ctre = true;
    precompile_patterns = true;
  };
  rules = [];
  compiled = [];
  next_rule_id = 1;
  cache = [];
  stats = record { total_evaluations = 0; total_matches = 0; cache_hits = 0; cache_misses = 0 };
}

-- A data point of the address "a" with a quality.
abbrev point : ℕ → DataPoint
point quality = record {
  value = empty_value;
  timestamp = 0;
  address_size = 1;
  address_storage = inline (97 ∷ []);
  protocol_id = 1;
  quality = quality;
  sequence_number = 0;
}

abbrev at : ℕ → Clock
at t = record { checked = t; evicted = t; stored = t }

abbrev calls : List Call
calls =
    Refinement.add (rule RuleType.static 64)
    ∷ Refinement.add (rule RuleType.pattern 192)
    ∷ Refinement.look (at 5) (point 0)
    ∷ Refinement.look (at 6) (point 1)
    ∷ Refinement.enable 1 false
    ∷ Refinement.look (at 7) (point 2)
    ∷ []

run-plain_example : run matchers calls new_engine ≡ run matchers calls (plain new_engine)
run-plain_example =
    run-plain matchers calls new_engine (inl refl, (inr refl, (_, (_, (_, (_, _)))))) (_, λ on. _)

abbrev later : Engine
later = after matchers calls new_engine

evaluate_early_example :
    ((evaluate_priority matchers (point 0) 128 later).0
      ≡ kept 128
          (matches_among matchers later.config.prefer_ctre later.compiled (point 0) later.rules))
    × ((evaluate_first matchers (point 0) later).0
        ≡ head_of
            (matches_among matchers later.config.prefer_ctre later.compiled (point 0) later.rules))
evaluate_early_example = evaluate_early matchers calls new_engine (point 0) 128 _

-- An engine whose one rule asks for good quality.
abbrev picky : Engine
picky = record new_engine { rules = rule RuleType.quality 128 ∷ [] }

good_matches : 0 < length (evaluate matchers (at 5) (point 0) picky).0
unfolding evaluate Engine.check_cache Engine.find_entry Engine.evaluate_all Engine.matches_among
    Engine.evaluate_rule Rule.evaluate_direct Rule.test_of
good_matches = omega arith

-- A data point of bad quality matches nothing by itself.
bad_matches_nothing : matches_among matchers true [] (point 2) picky.rules ≡ []
unfolding Engine.matches_among Engine.evaluate_rule Rule.evaluate_direct Rule.test_of
bad_matches_nothing = refl

absent : Engine.check_cache picky 5 (97 ∷ []) ≡ none
unfolding Engine.check_cache Engine.find_entry
absent = refl

-- Two data points of the same address, the first of bad quality.
abbrev followers : List (Clock × DataPoint)
followers = (at 9, point 2) ∷ (at 11, point 1) ∷ []

evaluate-same_address_example :
    (Engine.evaluate_batch matchers followers (evaluate matchers (at 5) (point 0) picky).1).0
    ≡ map (λ p. (evaluate matchers (at 5) (point 0) picky).0) followers
unfolding Point.address
evaluate-same_address_example =
    evaluate-same_address matchers (at 5) (point 0) followers picky refl absent good_matches
      ((refl, omega arith), ((refl, omega arith), tt))
