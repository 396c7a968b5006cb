-- ===== src/Router/Examples.antt =====
-- The router at concrete inputs.
use Prim.Native.String.{String}
use ipb.Base.{◌≡◌, refl, true, false, List, [], ◌∷◌, none}
use ipb.Base.Int.{pos}
use ipb.Base.Double.{thousandths}
use ipb.Data.Value.{empty_value, inline}
use ipb.Data.Point
use ipb.Data.Point.{DataPoint}
use ipb.MessageBus.Topic.{same}
use ipb.Sinks.Info.{SinkInfo, healthy}
use ipb.Sinks.Registry.{Registry}
use ipb.RuleEngine.Rule
use ipb.RuleEngine.Rule.{RuleType, RoutingRule, RuleMatchResult, Matchers, evaluate_direct}
use ipb.RuleEngine.Engine
use ipb.RuleEngine.Engine.{Engine, Clock, evaluate}
use ipb.Router.{Code, Router, Starts, start, stop, is_healthy}
use ipb.Router.Legacy
use ipb.Router.Legacy.{LegacyType, LegacyRule, Legacy, matches, convert_rule, convert_rule_back}
use ipb.Router.Conversion.{matches-convert_rule, convert_rule-never}
use ipb.Router.Routing.{World, route, is_ok}
use ipb.Router.Delivery.{attempts, verdict, route-verdict, route-AllSkipped}
use ipb.Router.Lifecycle
use ipb.Router.Lifecycle.{IsConsistent, after, after_lem}
use ipb.Router.Management.{add_rule}
use ipb.Router.Management.Adding.{Outcome, add_rule-get_rule}

abbrev matchers : Matchers
matchers = record { match_with_groups = λ ctre p a. (same p a, []); condition_holds = λ c v. true }

abbrev legacy : Legacy
legacy = record { compiles = λ p. true; pattern_matches = λ p a. same p a; holds = λ c v. true }

abbrev legacy_rule : LegacyType → LegacyRule
legacy_rule kind = record {
  rule_id = 0;
  name = 114 ∷ [];
  kind = kind;
  priority = 192;
  enabled = true;
  source_addresses = (97 ∷ []) ∷ [];
  protocol_ids = [];
  address_pattern = 97 ∷ [];
  quality_levels = [];
  start_time = pos 0;
  end_time = pos 0;
  value_conditions = [];
  target_sink_ids = "kafka" ∷ [];
  custom_condition = none;
  custom_target_selector = none;
}

-- A rule of the engine for the address "a".
abbrev rule : List String → RoutingRule
rule targets = record (convert_rule (legacy_rule LegacyType.static)) {
  id = 1;
  target_sink_ids = targets;
}

abbrev kafka : SinkInfo
kafka = record {
  id = "kafka";
  weight = 1;
  enabled = true;
  priority = 0;
  health = healthy;
  messages_sent = 0;
  messages_failed = 0;
  total_latency_ns = pos 0;
  pending_count = pos 0;
}

abbrev registry : Registry
registry = record {
  unhealthy_threshold = 3;
  sinks = kafka ∷ [];
  counters = record { plain = 0; weighted = 0 };
  stats = record {
    total_selections = 0;
    successful_selections = 0;
    failed_selections = 0;
    active_sinks = 1;
    healthy_sinks = 1;
    degraded_sinks = 0;
    unhealthy_sinks = 0;
  };
}

abbrev engine : List String → Engine
engine targets = record {
  config = record {
    enable_cache = false;
    cache_size = 2;
    cache_ttl_ms = 1000;
    prefer_ctre = true;
    precompile_patterns = true;
  };
  rules = rule targets ∷ [];
  compiled = [];
  next_rule_id = 2;
  cache = [];
  stats = record { total_evaluations = 0; total_matches = 0; cache_hits = 0; cache_misses = 0 };
}

-- A running router whose one rule has these targets.
abbrev router : List String → Router
router targets = record {
  config = record { enable_dead_letter_queue = false; dead_letter_sink_id = "dead" };
  running = true;
  bus_running = true;
  scheduler_running = true;
  registry_running = true;
  subscribed = true;
  engine = engine targets;
  registry = registry;
}

abbrev point : DataPoint
point = record {
  value = empty_value;
  timestamp = 0;
  address_size = 1;
  address_storage = inline (97 ∷ []);
  protocol_id = 1;
  quality = 0;
  sequence_number = 0;
}

abbrev clock : Clock
clock = record { checked = 1; evicted = 1; stored = 1 }

-- Every sink takes what it is given.
abbrev world : World
world = record {
  context = λ left. record { address = none; now = 7; draw = λ n. 0 };
  answers = λ left id. record { success = true; elapsed = pos 10 };
  dead_letter = record { success = true; elapsed = pos 10 };
}

route-verdict_example :
    (route matchers thousandths clock world point (router ("kafka" ∷ []))).0
    ≡ verdict
        (router ("kafka" ∷ [])).config
        (evaluate matchers clock point (engine ("kafka" ∷ []))).0
        (attempts thousandths world
          (evaluate matchers clock point (engine ("kafka" ∷ []))).0
          registry).0
route-verdict_example =
    route-verdict matchers thousandths clock world point (router ("kafka" ∷ [])) refl

abbrev match_without_targets : RuleMatchResult
match_without_targets = record {
  matched = true;
  rule_id = 1;
  priority = 192;
  target_ids = [];
  captured_groups = [];
}

matched_without_targets : (evaluate matchers clock point (engine [])).0 ≡ match_without_targets ∷ []
unfolding evaluate Engine.evaluate_all Engine.matches_among Engine.evaluate_rule
    Rule.evaluate_direct Rule.test_of convert_rule Legacy.convert_kind Point.address
matched_without_targets = refl

route-AllSkipped_example :
    ((route matchers thousandths clock world point (router [])).0 ≡ Code.ok)
    × ((route matchers thousandths clock world point (router [])).1.registry ≡ registry)
route-AllSkipped_example =
    route-AllSkipped matchers thousandths clock world point (router []) match_without_targets []
      refl matched_without_targets (refl, _)

abbrev starts : Starts
starts = record { bus = true; scheduler = true; registry = false }

abbrev calls : List Lifecycle.Call
calls = Lifecycle.stopping ∷ Lifecycle.starting starts ∷ []

after_lem_example :
    IsConsistent (after calls (router []))
    × (is_healthy (after calls (router [])) ≡ (after calls (router [])).running)
    × ((start starts (after calls (router []))).1.running
        ≡ is_ok (start starts (after calls (router []))).0)
    × ((stop (after calls (router []))).1.running ≡ false)
after_lem_example = after_lem calls starts (router []) (refl, refl, refl, refl)

matches-convert_rule_example :
    (evaluate_direct matchers (convert_rule (legacy_rule LegacyType.static)) point).matched
    ≡ matches legacy (legacy_rule LegacyType.static) point
matches-convert_rule_example =
    matches-convert_rule matchers legacy (legacy_rule LegacyType.static) point refl

convert_rule-never_example :
    (matches legacy (legacy_rule LegacyType.broadcast) point ≡ true)
    × ((evaluate_direct matchers (convert_rule (legacy_rule LegacyType.broadcast)) point).matched
        ≡ false)
convert_rule-never_example =
    convert_rule-never matchers legacy (legacy_rule LegacyType.broadcast) point refl refl

add_rule-get_rule_example :
    Outcome legacy
      (legacy_rule LegacyType.static)
      (router [])
      (add_rule legacy (legacy_rule LegacyType.static) (router []))
add_rule-get_rule_example =
    add_rule-get_rule legacy (legacy_rule LegacyType.static) (router []) (refl, _)
