-- ===== src/Router/Routing.antt =====
-- core/router/src/router.cpp: routing a data point, or a batch, through the rules to the sinks. What the
-- outside world gives (the clock, the balancers' context, the sinks' answers) is passed in, apart for
-- each write.
use Prim.Native.String.{String}
use ipb.Base.{ℕ, ◌+◌, Bool, true, false, ◌||◌, not, List, [], ◌∷◌, if◌then◌else◌, ltb, leb, length}
use ipb.Base.Double.{Doubles}
use ipb.Data.Point.{DataPoint}
use ipb.RuleEngine.Rule.{RuleMatchResult, Matchers}
use ipb.RuleEngine.Engine.{Engine, Clock, evaluate, evaluate_batch}
use ipb.Sinks.Balancer.{LoadBalanceStrategy, failover, round_robin, Context}
use ipb.Sinks.Registry.{Registry}
use ipb.Sinks.Registry.Writing.{
  Outcome, WriteResult, written, write_to_sink, write_with_load_balancing,
}
use ipb.Router.{Code, ok, invalid_state, no_matching_rule, all_sinks_failed, RouterConfig, Router}

-- For one data point: the balancers' context and what each sink answers, by the number of matches that
-- are left, and what the sink of the dead letter queue answers.
pub record World : Type 0 where
  pub context : ℕ → Context
  pub answers : ℕ → String → Outcome
  pub dead_letter : Outcome

abbrev pub is_written : WriteResult → Bool
is_written written = true
is_written _ = false

-- `match.priority >= core::RulePriority::HIGH`
abbrev pub strategy_of : RuleMatchResult → LoadBalanceStrategy
strategy_of m = if leb 192 m.priority then failover else round_robin

abbrev pub is_nil : List String → Bool
is_nil [] = true
is_nil (id ∷ ids) = false

-- `!match.matched || match.target_ids.empty()`
abbrev pub is_skipped : RuleMatchResult → Bool
is_skipped m = not m.matched || is_nil m.target_ids

-- The write for one match, of which `left` come behind it.
unfoldable pub write_match :
    Doubles → World → ℕ → RuleMatchResult → Registry → WriteResult × Registry
write_match D w left m r =
    write_with_load_balancing D m.target_ids (strategy_of m) (w.context left) (w.answers left) r

-- The loop of `dispatch_to_sinks`, with `any_success` and `any_failed` so far.
unfoldable pub dispatch_loop :
    Doubles → World → List RuleMatchResult → Bool → Bool → Registry → Bool × Bool × Registry
dispatch_loop D w [] any_success any_failed r = (any_success, any_failed, r)
dispatch_loop D w (m ∷ matches) any_success any_failed r = elim (is_skipped m) [
  | true ↦ dispatch_loop D w matches any_success any_failed r
  | false ↦
      let (result, r') = write_match D w (length matches) m r in
      dispatch_loop D w matches (any_success || is_written result)
        (any_failed || not (is_written result)) r'
]

-- The write to the dead letter queue, if there is one.
unfoldable pub dead_letter : RouterConfig → World → Registry → Registry
dead_letter c w r =
    if c.enable_dead_letter_queue
    then (write_to_sink c.dead_letter_sink_id w.dead_letter r).1
    else r

-- `dispatch_to_sinks`
unfoldable pub dispatch_to_sinks :
    Doubles → RouterConfig → World → List RuleMatchResult → Registry → Code × Registry
dispatch_to_sinks D c w matches r =
    let (any_success, any_failed, r') = dispatch_loop D w matches false false r in
    if any_success
    then (ok, r')
    else if any_failed
    then (all_sinks_failed, dead_letter c w r')
    else (ok, r')

-- What `route` does with the matches.
unfoldable pub deliver :
    Doubles → RouterConfig → World → List RuleMatchResult → Registry → Code × Registry
deliver D c w [] r =
    if c.enable_dead_letter_queue then (ok, dead_letter c w r) else (no_matching_rule, r)
deliver D c w (m ∷ matches) r = dispatch_to_sinks D c w (m ∷ matches) r

-- The answer of a router that runs, and of one that does not.
abbrev pub guarded : Bool → Router → Code × Router → Code × Router
guarded running r answer = if running then answer else (invalid_state, r)

abbrev pub routed : Router → Engine → Code × Registry → Code × Router
routed r engine (code, registry) = (code, record r { engine = engine; registry = registry })

-- `route`
unfoldable pub route : Matchers → Doubles → Clock → World → DataPoint → Router → Code × Router
route X D t w dp r =
    let (matches, engine) = evaluate X t dp r.engine in
    guarded r.running r (routed r engine (deliver D r.config w matches r.registry))

abbrev pub is_ok : Code → Bool
is_ok ok = true
is_ok _ = false

-- The loop of `route_batch`: the number of data points that failed. One without matches does not count.
unfoldable pub batch_loop :
    Doubles → RouterConfig → List World → List (List RuleMatchResult) → Registry → ℕ × Registry
batch_loop D c [] all_matches r = (0, r)
batch_loop D c (w ∷ ws) [] r = (0, r)
batch_loop D c (w ∷ ws) ([] ∷ all_matches) r = batch_loop D c ws all_matches (dead_letter c w r)
batch_loop D c (w ∷ ws) ((m ∷ matches) ∷ all_matches) r =
    let (code, r') = dispatch_to_sinks D c w (m ∷ matches) r in
    let (failed, r'') = batch_loop D c ws all_matches r' in
    ((if is_ok code then 0 else 1) + failed, r'')

-- The answer for the number of failures.
abbrev pub batch_result : ℕ × Registry → Code × Registry
batch_result (failed, registry) = (if ltb 0 failed then all_sinks_failed else ok, registry)

-- `route_batch`: each data point stands with the clock's readings, and its world in `ws`.
unfoldable pub route_batch :
    Matchers → Doubles → List World → List (Clock × DataPoint) → Router → Code × Router
route_batch X D ws [] r = guarded r.running r (ok, r)
route_batch X D ws (point ∷ points) r =
    let (all_matches, engine) = evaluate_batch X (point ∷ points) r.engine in
    guarded r.running r
      (routed r engine (batch_result (batch_loop D r.config ws all_matches r.registry)))
