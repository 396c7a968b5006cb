-- ===== src/RuleEngine/Engine/Reachable.antt =====
-- What holds of the engine of rule_engine.cpp after any calls: the rules stand by priority, so that the
-- loops that are left early find what the others find.
use ipb.Base.{ℕ, ◌≡◌, refl, List, [], ◌∷◌, Option, none, some}
use ipb.Data.Point.{DataPoint}
use ipb.RuleEngine.Rule.{RoutingRule, RuleMatchResult, Matchers}
use ipb.RuleEngine.Engine.{
  Engine, Clock, get_rule_in, when_found, updated, removed, with_enabled, add_rule, update_rule,
  remove_rule, set_rule_enabled, clear_rules, matches_among, evaluate_all, evaluate_after, evaluate,
  evaluate_first, evaluate_priority, clear_cache, invalidate_cache, reset_stats,
}
use ipb.RuleEngine.Engine.Sorted.{
  IsSorted, sort-IsSorted, change-IsSorted, erase-IsSorted, kept, head_of, priority_among-kept,
  first_among-head_of,
}
use ipb.RuleEngine.Engine.Refinement.{
  Call, add, update, remove, enable, clear, look, look_first, look_priority, forget, invalidate,
  reset, step,
}

-- The engine after a sequence of calls.
unfoldable pub after : Matchers → List Call → Engine → Engine
after X [] e = e
after X (call ∷ calls) e = after X calls (step X call e).1

when_found-IsSorted :
    (f : Engine → Engine) (e : Engine) (o : Option RoutingRule)
    → IsSorted (f e).rules
    → IsSorted e.rules
    → IsSorted ((when_found f e o).1).rules
when_found-IsSorted f e none k h = h
when_found-IsSorted f e (some r) k h = k

evaluate_after-IsSorted :
    (X : Matchers) (t : Clock) (dp : DataPoint) (e : Engine) (o : Option (List RuleMatchResult))
    → IsSorted e.rules
    → IsSorted ((evaluate_after X t dp e o).1).rules
unfolding evaluate_all
evaluate_after-IsSorted X t dp e none h = h
evaluate_after-IsSorted X t dp e (some found) h = h

step-IsSorted :
    (X : Matchers) (call : Call) (e : Engine)
    → IsSorted e.rules
    → IsSorted ((step X call e).1).rules
unfolding step add_rule update_rule remove_rule set_rule_enabled clear_rules evaluate evaluate_all
    evaluate_first evaluate_priority clear_cache invalidate_cache reset_stats
step-IsSorted X (add r) e h = sort-IsSorted _
step-IsSorted X (update i r) e h =
    when_found-IsSorted (updated i r) e (get_rule_in i e.rules) (sort-IsSorted _) h
step-IsSorted X (remove i) e h =
    when_found-IsSorted (removed i) e (get_rule_in i e.rules) (erase-IsSorted i e.rules h) h
step-IsSorted X (enable i enabled) e h =
    when_found-IsSorted (with_enabled i enabled) e (get_rule_in i e.rules)
      (change-IsSorted i _ e.rules (λ r. refl) h) h
step-IsSorted X clear e h = tt
step-IsSorted X (look t dp) e h = evaluate_after-IsSorted X t dp e _ h
step-IsSorted X (look_first dp) e h = h
step-IsSorted X (look_priority dp least) e h = h
step-IsSorted X forget e h = h
step-IsSorted X (invalidate hit) e h = h
step-IsSorted X reset e h = h

after-IsSorted :
    (X : Matchers) (calls : List Call) (e : Engine)
    → IsSorted e.rules
    → IsSorted (after X calls e).rules
unfolding after
after-IsSorted X [] e h = h
after-IsSorted X (call ∷ calls) e h =
    after-IsSorted X calls (step X call e).1 (step-IsSorted X call e h)

-- After any calls of an engine whose rules stand by priority, as those of a new one do, `evaluate_priority`
-- returns the matches of at least the priority, and `evaluate_first` the first of the matches.
pub evaluate_early :
    (X : Matchers) (calls : List Call) (e : Engine) (dp : DataPoint) (least : ℕ)
    → IsSorted e.rules
    → let e' = after X calls e in
      let matches = matches_among X e'.config.prefer_ctre e'.compiled dp e'.rules in
      ((evaluate_priority X dp least e').0 ≡ kept least matches)
      × ((evaluate_first X dp e').0 ≡ head_of matches)
unfolding evaluate_priority evaluate_first
evaluate_early X calls e dp least h =
    let e' = after X calls e in
    (
      priority_among-kept X e'.config.prefer_ctre e'.compiled dp least e'.rules
          (after-IsSorted X calls e h),
      first_among-head_of X e'.config.prefer_ctre e'.compiled dp e'.rules,
    )
