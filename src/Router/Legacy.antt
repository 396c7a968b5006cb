-- ===== src/Router/Legacy.antt =====
-- core/router/src/router.cpp and router.hpp: the router's own `RoutingRule`, and its conversion to the
-- rule engine's. Settings of failover and batching, weights and statistics are left out: no code that is
-- modelled reads them.
use Prim.Native.String.{String}
use ipb.Base.{ℕ, Bool, true, false, ◌&&◌, not, List, [], ◌∷◌, Option, none, some, if◌then◌else◌}
use ipb.Base.Int.{ℤ, pos, leb_ℤ}
use ipb.Data.Value.{Value}
use ipb.Data.Point.{DataPoint, address}
use ipb.MessageBus.Topic.{is_empty}
use ipb.RuleEngine.Rule
use ipb.RuleEngine.Rule.{
  CompareOp, eq, ne, lt, le, gt, ge, between, out_of_range, ValueCondition, Reference, contains,
  int64_of,
}

pub data LegacyType : Type 0 where
  static protocol_based regex_pattern quality_based timestamp_based value_based custom_logic :
      LegacyType
  load_balancing failover broadcast : LegacyType

pub data ValueOperator : Type 0 where
  equal not_equal less_than less_equal greater_than greater_equal contains_text regex_match :
      ValueOperator

pub record LegacyCondition : Type 0 where
  pub op : ValueOperator
  pub reference_value : Value
  pub regex_pattern : List ℕ

pub record LegacyRule : Type 0 where
  pub rule_id : ℕ
  pub name : List ℕ
  pub kind : LegacyType
  pub priority : ℕ
  pub enabled : Bool
  pub source_addresses : List (List ℕ)
  pub protocol_ids : List ℕ
  pub address_pattern : List ℕ
  pub quality_levels : List ℕ
  pub start_time : ℤ
  pub end_time : ℤ
  pub value_conditions : List LegacyCondition
  pub target_sink_ids : List String
  pub custom_condition : Option (DataPoint → Bool)
  pub custom_target_selector : Option (DataPoint → List String)

-- What `CompiledPatternCache` and `CachedPatternMatcher` answer of a pattern, and what
-- `ValueCondition::evaluate` of router.cpp answers.
pub record Legacy : Type 0 where
  pub compiles : List ℕ → Bool
  pub pattern_matches : List ℕ → List ℕ → Bool
  pub holds : LegacyCondition → Value → Bool

abbrev pub is_nil {ℓ} : {A : Type ℓ} → List A → Bool
is_nil [] = true
is_nil (x ∷ xs) = false

abbrev pub is_none {ℓ} : {A : Type ℓ} → Option A → Bool
is_none none = true
is_none (some x) = false

-- The switch of `is_valid`.
unfoldable pub is_valid_kind : Legacy → LegacyRule → LegacyType → Bool
is_valid_kind L r static = not (is_nil r.source_addresses)
is_valid_kind L r protocol_based = not (is_nil r.protocol_ids)
is_valid_kind L r regex_pattern =
    if is_empty r.address_pattern then false else L.compiles r.address_pattern
is_valid_kind L r quality_based = not (is_nil r.quality_levels)
is_valid_kind L r timestamp_based = leb_ℤ r.start_time r.end_time
is_valid_kind L r value_based = not (is_nil r.value_conditions)
is_valid_kind L r custom_logic = not (is_none r.custom_condition)
is_valid_kind L r load_balancing = not (is_nil r.target_sink_ids)
is_valid_kind L r failover = not (is_nil r.target_sink_ids)
is_valid_kind L r broadcast = not (is_nil r.target_sink_ids)

-- `is_valid`
unfoldable pub is_valid : Legacy → LegacyRule → Bool
is_valid L r =
    if is_empty r.name
    then false
    else if is_nil r.target_sink_ids && is_none r.custom_target_selector
    then false
    else is_valid_kind L r r.kind

abbrev pub all_hold : Legacy → List LegacyCondition → Value → Bool
all_hold L [] v = true
all_hold L (c ∷ cs) v = let rest = all_hold L cs v in if L.holds c v then rest else false

-- The switch of `matches`. A set of the values, where there are many, contains what the list does.
unfoldable pub matches_kind : Legacy → LegacyRule → LegacyType → DataPoint → Bool
matches_kind L r static dp = Rule.contains_text (address dp) r.source_addresses
matches_kind L r protocol_based dp = contains dp.protocol_id r.protocol_ids
matches_kind L r regex_pattern dp = L.pattern_matches r.address_pattern (address dp)
matches_kind L r quality_based dp = contains dp.quality r.quality_levels
matches_kind L r timestamp_based dp =
    leb_ℤ r.start_time (int64_of dp.timestamp) && leb_ℤ (int64_of dp.timestamp) r.end_time
matches_kind L r value_based dp = all_hold L r.value_conditions dp.value
matches_kind L r custom_logic dp = Rule.passes_of r.custom_condition dp
matches_kind L r load_balancing dp = true
matches_kind L r failover dp = true
matches_kind L r broadcast dp = true

-- `matches`
unfoldable pub matches : Legacy → LegacyRule → DataPoint → Bool
matches L r dp = if r.enabled then matches_kind L r r.kind dp else false

-- `get_target_sinks`
unfoldable pub get_target_sinks : LegacyRule → DataPoint → List String
get_target_sinks r dp = elim (r.custom_target_selector) [
  | none ↦ r.target_sink_ids
  | some select ↦ select dp
]

-- `static_cast<core::CompareOp>(static_cast<uint8_t>(vc.op))`
unfoldable pub convert_op : ValueOperator → CompareOp
convert_op equal = eq
convert_op not_equal = ne
convert_op less_than = lt
convert_op less_equal = le
convert_op greater_than = gt
convert_op greater_equal = ge
convert_op contains_text = between
convert_op regex_match = out_of_range

-- A default-constructed `core::ValueCondition` with the operator of the first condition.
unfoldable pub convert_conditions : List LegacyCondition → Option ValueCondition
convert_conditions [] = none
convert_conditions (c ∷ cs) = some (record {
  op = convert_op c.op;
  reference = Reference.boolean false;
  reference_high = Reference.boolean false;
})

-- A default-constructed `core::RoutingRule` with what is converted whatever the type; a Timestamp starts
-- at 0.
abbrev pub blank : LegacyRule → Rule.RoutingRule
blank r = record {
  id = 0;
  name = r.name;
  kind = Rule.static;
  priority = r.priority;
  enabled = r.enabled;
  source_addresses = [];
  address_pattern = [];
  protocol_ids = [];
  quality_levels = [];
  value_condition = none;
  start_time = pos 0;
  end_time = pos 0;
  target_sink_ids = r.target_sink_ids;
  custom_predicate = none;
}

-- The switch of `convert_rule`.
unfoldable pub convert_kind : LegacyRule → LegacyType → Rule.RoutingRule
convert_kind r static = record (blank r) {
  kind = Rule.static;
  source_addresses = r.source_addresses;
}
convert_kind r regex_pattern = record (blank r) {
  kind = Rule.pattern;
  address_pattern = r.address_pattern;
}
convert_kind r protocol_based = record (blank r) {
  kind = Rule.protocol;
  protocol_ids = r.protocol_ids;
}
convert_kind r quality_based = record (blank r) {
  kind = Rule.quality;
  quality_levels = r.quality_levels;
}
convert_kind r value_based = record (blank r) {
  kind = Rule.value;
  value_condition = convert_conditions r.value_conditions;
}
convert_kind r timestamp_based = record (blank r) {
  kind = Rule.timestamp;
  start_time = r.start_time;
  end_time = r.end_time;
}
convert_kind r custom_logic = record (blank r) {
  kind = Rule.custom;
  custom_predicate = r.custom_condition;
}
convert_kind r load_balancing = blank r
convert_kind r failover = blank r
convert_kind r broadcast = blank r

-- `convert_rule`
unfoldable pub convert_rule : LegacyRule → Rule.RoutingRule
convert_rule r = convert_kind r r.kind

-- A default-constructed `RoutingRule` with what is converted back whatever the type.
abbrev pub blank_back : Rule.RoutingRule → LegacyRule
blank_back r = record {
  rule_id = r.id;
  name = r.name;
  kind = static;
  priority = r.priority;
  enabled = r.enabled;
  source_addresses = [];
  protocol_ids = [];
  address_pattern = [];
  quality_levels = [];
  start_time = pos 0;
  end_time = pos 0;
  value_conditions = [];
  target_sink_ids = r.target_sink_ids;
  custom_condition = none;
  custom_target_selector = none;
}

-- The switch of `convert_rule_back`.
unfoldable pub convert_back_kind : Rule.RoutingRule → Rule.RuleType → LegacyRule
convert_back_kind r Rule.static = record (blank_back r) {
  kind = static;
  source_addresses = r.source_addresses;
}
convert_back_kind r Rule.pattern = record (blank_back r) {
  kind = regex_pattern;
  address_pattern = r.address_pattern;
}
convert_back_kind r Rule.protocol = record (blank_back r) {
  kind = protocol_based;
  protocol_ids = r.protocol_ids;
}
convert_back_kind r Rule.quality = record (blank_back r) {
  kind = quality_based;
  quality_levels = r.quality_levels;
}
convert_back_kind r Rule.value = record (blank_back r) { kind = value_based }
convert_back_kind r Rule.timestamp = record (blank_back r) {
  kind = timestamp_based;
  start_time = r.start_time;
  end_time = r.end_time;
}
convert_back_kind r Rule.custom = record (blank_back r) {
  kind = custom_logic;
  custom_condition = r.custom_predicate;
}
convert_back_kind r Rule.composite = blank_back r

-- `convert_rule_back`
unfoldable pub convert_rule_back : Rule.RoutingRule → LegacyRule
convert_rule_back r = convert_back_kind r r.kind
