-- ===== src/Router/Management.antt =====
-- core/router/src/router.cpp: rules and sinks as the router's callers manage them.
pub mod Adding
use Prim.Native.String.{String}
use text.Mathlib.Text.{◌==◌ as str_eq}
use ipb.Base.{ℕ, Bool, true, false, List, [], ◌∷◌, Option, none, some, if◌then◌else◌, map}
use ipb.RuleEngine.Engine
use ipb.RuleEngine.Engine.{get_rule_in}
use ipb.RuleEngine.Rule.{RoutingRule}
use ipb.Sinks.Registry
use ipb.Sinks.Registry.{Registry}
use ipb.Router.{Code, ok, rule_invalid, rule_not_found, sink_not_found, Router}
use ipb.Router.Legacy.{Legacy, LegacyRule, is_valid, convert_rule, convert_rule_back}

-- `get_registered_sinks`
abbrev pub get_registered_sinks : Router → List String
get_registered_sinks r = map (λ s. s.id) r.registry.sinks

abbrev pub is_registered : String → List String → Bool
is_registered id [] = false
is_registered id (k ∷ ids) = let rest = is_registered id ids in if str_eq k id then true else rest

abbrev pub all_registered : List String → List String → Bool
all_registered [] ids = true
all_registered (id ∷ targets) ids =
    let rest = all_registered targets ids in if is_registered id ids then rest else false

-- `validate_rule`
unfoldable pub validate_rule : Legacy → LegacyRule → Router → Code
validate_rule L rule r =
    if is_valid L rule
    then (if all_registered rule.target_sink_ids (get_registered_sinks r)
        then ok
        else sink_not_found)
    else rule_invalid

-- `Result<uint32_t>`
pub data Added : Type 0 where
  added : ℕ → Added
  refused : Code → Added

abbrev with_engine : Router → ℕ × Engine.Engine → Added × Router
with_engine r (id, e) = (added id, record r { engine = e })

abbrev add_if : LegacyRule → Router → Code → Added × Router
add_if rule r ok = with_engine r (Engine.add_rule (convert_rule rule) r.engine)
add_if rule r code = (refused code, r)

-- `add_rule`
unfoldable pub add_rule : Legacy → LegacyRule → Router → Added × Router
add_rule L rule r = add_if rule r (validate_rule L rule r)

-- The engine's answer as the router's.
abbrev pub answer_of : Code → Router → Bool × Engine.Engine → Code × Router
answer_of code r (true, e) = (ok, record r { engine = e })
answer_of code r (false, e) = (code, record r { engine = e })

abbrev update_if : ℕ → LegacyRule → Router → Code → Code × Router
update_if id rule r ok =
    answer_of rule_not_found r (Engine.update_rule id (convert_rule rule) r.engine)
update_if id rule r code = (code, r)

-- `update_rule`, `remove_rule` and `enable_rule`
unfoldable pub update_rule : Legacy → ℕ → LegacyRule → Router → Code × Router
update_rule L id rule r = update_if id rule r (validate_rule L rule r)

unfoldable pub remove_rule : ℕ → Router → Code × Router
remove_rule id r = answer_of rule_not_found r (Engine.remove_rule id r.engine)

unfoldable pub enable_rule : ℕ → Bool → Router → Code × Router
enable_rule id enabled r = answer_of rule_not_found r (Engine.set_rule_enabled id enabled r.engine)

abbrev back_of : Option RoutingRule → Option LegacyRule
back_of none = none
back_of (some rule) = some (convert_rule_back rule)

-- `get_rule`
unfoldable pub get_rule : ℕ → Router → Option LegacyRule
get_rule id r = back_of (get_rule_in id r.engine.rules)

-- What the registry answers, as the router's code.
abbrev pub sink_answer : Router → Bool × Registry → Code × Router
sink_answer r (true, registry) = (ok, record r { registry = registry })
sink_answer r (false, registry) = (sink_not_found, record r { registry = registry })

-- `unregister_sink`, `set_sink_weight` and `enable_sink`
unfoldable pub unregister_sink : String → Router → Code × Router
unregister_sink id r = sink_answer r (Registry.unregister_sink id r.registry)

unfoldable pub set_sink_weight : String → ℕ → Router → Code × Router
set_sink_weight id weight r = sink_answer r (Registry.set_sink_weight id weight r.registry)

unfoldable pub enable_sink : String → Bool → Router → Code × Router
enable_sink id enabled r = sink_answer r (Registry.set_sink_enabled id enabled r.registry)
