-- ===== src/RuleEngine/Rule.antt =====
-- core/components/include/ipb/core/rule_engine/rule_engine.hpp and rule_engine.cpp: a rule and its
-- evaluation. A rule's own counters and the time it took are left out. What the pattern matchers and
-- `ValueCondition::evaluate` answer is a parameter.
use Prim.Native.String.{String}
use ipb.Base.{
  ℕ, ◌-◌, ◌^◌, ltb, Bool, true, false, ◌&&◌, List, [], ◌∷◌, Option, none, some, if◌then◌else◌, ◌==◌,
}
use ipb.Base.Int.{ℤ, pos, negsuc, leb_ℤ}
use ipb.Data.Value.{Value}
use ipb.Data.Point.{DataPoint, address}
use ipb.MessageBus.Topic.{same}

-- `out_of_range` is a cast from a number that no enumerator has.
pub data CompareOp : Type 0 where
  eq ne lt le gt ge between out_of_range : CompareOp

-- The variant that a reference is; a double is its bit pattern.
pub data Reference : Type 0 where
  boolean : Bool → Reference
  int64 : ℤ → Reference
  uint64 : ℕ → Reference
  double : ℕ → Reference
  string : List ℕ → Reference

pub record ValueCondition : Type 0 where
  pub op : CompareOp
  pub reference : Reference
  pub reference_high : Reference

pub data RuleType : Type 0 where
  static pattern protocol quality value timestamp composite custom : RuleType

pub record RoutingRule : Type 0 where
  pub id : ℕ
  pub name : List ℕ
  pub kind : RuleType
  pub priority : ℕ
  pub enabled : Bool
  pub source_addresses : List (List ℕ)
  pub address_pattern : List ℕ
  pub protocol_ids : List ℕ
  pub quality_levels : List ℕ
  pub value_condition : Option ValueCondition
  pub start_time : ℤ
  pub end_time : ℤ
  pub target_sink_ids : List String
  pub custom_predicate : Option (DataPoint → Bool)

pub record RuleMatchResult : Type 0 where
  pub matched : Bool
  pub rule_id : ℕ
  pub priority : ℕ
  pub target_ids : List String
  pub captured_groups : List (List ℕ)

-- `PatternMatcherFactory::create(pattern, type)->match_with_groups(address)`, where the type is
-- REGEX_CTRE (true) or AUTO, and `ValueCondition::evaluate`.
pub record Matchers : Type 0 where
  pub match_with_groups : Bool → List ℕ → List ℕ → Bool × List (List ℕ)
  pub condition_holds : ValueCondition → Value → Bool

-- A Timestamp by its bit pattern.
abbrev pub int64_of : ℕ → ℤ
int64_of t = if ltb t (2 ^ 63) then pos t else negsuc (2 ^ 64 - 1 - t)

abbrev pub contains_text : List ℕ → List (List ℕ) → Bool
contains_text text [] = false
contains_text text (t ∷ texts) =
    let rest = contains_text text texts in if same text t then true else rest

abbrev pub contains : ℕ → List ℕ → Bool
contains n [] = false
contains n (k ∷ ks) = let rest = contains n ks in if n == k then true else rest

-- The result before the rule is looked at.
abbrev pub unmatched : RoutingRule → RuleMatchResult
unmatched r = record {
  matched = false;
  rule_id = r.id;
  priority = r.priority;
  target_ids = r.target_sink_ids;
  captured_groups = [];
}

abbrev pub with_match : Bool → List (List ℕ) → RuleMatchResult → RuleMatchResult
with_match matched groups result = record result { matched = matched; captured_groups = groups }

abbrev holds_of : Matchers → Option ValueCondition → Value → Bool
holds_of X none v = false
holds_of X (some c) v = X.condition_holds c v

abbrev pub passes_of : Option (DataPoint → Bool) → DataPoint → Bool
passes_of none dp = false
passes_of (some p) dp = p dp

-- The switch on the rule's type: whether it matches, and the groups captured.
unfoldable pub test_of : Matchers → RoutingRule → RuleType → DataPoint → Bool × List (List ℕ)
test_of X r static dp = (contains_text (address dp) r.source_addresses, [])
test_of X r pattern dp = X.match_with_groups false r.address_pattern (address dp)
test_of X r protocol dp = (contains dp.protocol_id r.protocol_ids, [])
test_of X r quality dp = (contains dp.quality r.quality_levels, [])
test_of X r value dp = (holds_of X r.value_condition dp.value, [])
test_of X r timestamp dp =
    (leb_ℤ r.start_time (int64_of dp.timestamp) && leb_ℤ (int64_of dp.timestamp) r.end_time, [])
test_of X r custom dp = (passes_of r.custom_predicate dp, [])
test_of X r composite dp = (false, [])

-- `RoutingRule::evaluate`
unfoldable pub evaluate_direct : Matchers → RoutingRule → DataPoint → RuleMatchResult
evaluate_direct X r dp =
    let (matched, groups) = test_of X r r.kind dp in
    if r.enabled then with_match matched groups (unmatched r) else unmatched r
