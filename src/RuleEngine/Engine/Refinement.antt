-- ===== src/RuleEngine/Engine/Refinement.antt =====
-- The engine of rule_engine.cpp answers as if it had no cache, where its rules look at addresses only.
use ipb.Base.{
  ℕ, ◌≡◌, refl, sym, ap, ◌∙◌, Bool, true, false, ◌&&◌, List, [], ◌∷◌, ◌++◌, Option, none, some,
  if◌then◌else◌, ltb, length, All, if_cases,
}
use mathlib.Core.Bool.{false≢true}
use ipb.Data.Point.{DataPoint, address}
use ipb.RuleEngine.Rule.{RoutingRule, RuleMatchResult, Matchers}
use ipb.RuleEngine.Engine.{
  RuleEngineConfig, CacheEntry, Engine, Clock, sort, change, get_rule_in, when_found, updated,
  removed, with_enabled, compile, add_rule, update_rule, remove_rule, set_rule_enabled, clear_rules,
  matches_among, check_cache, fresh_results, is_fresh, evaluate_all, evaluate_after, evaluate,
  evaluate_first, evaluate_priority, clear_cache, invalidate_cache, reset_stats, find_entry,
  cleared,
}
use ipb.RuleEngine.Engine.Sorted.{All-insert, All-change, All-erase}
use ipb.RuleEngine.Engine.Coherent.{
  ByAddress, matches_among-address, IsRight, All-drop_entries, All-update_cache, IsFound,
  find_entry-IsFound,
}

-- The calls of the engine, with the readings of the clock and what the pattern given to
-- `invalidate_cache` matches.
pub data Call : Type 0 where
  add : RoutingRule → Call
  update : ℕ → RoutingRule → Call
  remove : ℕ → Call
  enable : ℕ → Bool → Call
  clear : Call
  look : Clock → DataPoint → Call
  look_first : DataPoint → Call
  look_priority : DataPoint → ℕ → Call
  forget : Call
  invalidate : (List ℕ → Bool) → Call
  reset : Call

pub data Answer : Type 0 where
  nothing : Answer
  id : ℕ → Answer
  done : Bool → Answer
  results : List RuleMatchResult → Answer
  first : Option RuleMatchResult → Answer

abbrev on_answer {ℓ} : {A : Type ℓ} → (A → Answer) → A × Engine → Answer × Engine
on_answer f (a, e) = (f a, e)

-- One call.
unfoldable pub step : Matchers → Call → Engine → Answer × Engine
step X (add r) e = on_answer id (add_rule r e)
step X (update i r) e = on_answer done (update_rule i r e)
step X (remove i) e = on_answer done (remove_rule i e)
step X (enable i enabled) e = on_answer done (set_rule_enabled i enabled e)
step X clear e = (nothing, clear_rules e)
step X (look t dp) e = on_answer results (evaluate X t dp e)
step X (look_first dp) e = on_answer first (evaluate_first X dp e)
step X (look_priority dp least) e = on_answer results (evaluate_priority X dp least e)
step X forget e = (nothing, clear_cache e)
step X (invalidate hit) e = (nothing, invalidate_cache hit e)
step X reset e = (nothing, reset_stats e)

-- A sequence of calls: what they answer.
unfoldable pub run : Matchers → List Call → Engine → List Answer
run X [] e = []
run X (call ∷ calls) e = let (answer, e') = step X call e in answer ∷ run X calls e'

-- The engine without its cache, and with its statistics at 0.
abbrev pub plain : Engine → Engine
plain e = record e {
  config = record (e.config) { enable_cache = false };
  cache = [];
  stats = record { total_evaluations = 0; total_matches = 0; cache_hits = 0; cache_misses = 0 };
}

-- Rules look at addresses only, and entries of a cache in use are right.
abbrev pub IsValid : Matchers → Engine → Type 0
IsValid X e =
    All ByAddress e.rules
    × (e.config.enable_cache ≡ true
        → All (IsRight X e.config.prefer_ctre e.compiled e.rules) e.cache)

abbrev pub CallByAddress : Call → Type 0
CallByAddress (add r) = ByAddress r
CallByAddress (update i r) = ByAddress r
CallByAddress _ = Unit

-- What a step and the same step without the cache have in common.
abbrev Agrees : Matchers → Answer × Engine → Answer × Engine → Type 0
Agrees X (a, e) (a', e') = (a ≡ a') × (plain e ≡ plain e') × IsValid X e

All-sort : (P : RoutingRule → Type 0) (rules : List RoutingRule) → All P rules → All P (sort rules)
unfolding sort
All-sort P [] h = tt
All-sort P (r ∷ rules) (hr, h) = All-insert P r (sort rules) hr (All-sort P rules h)

All-snoc :
    (P : RoutingRule → Type 0) (rules : List RoutingRule) (r : RoutingRule)
    → All P rules
    → P r
    → All P (rules ++ (r ∷ []))
All-snoc P [] r h hr = (hr, tt)
All-snoc P (s ∷ rules) r (hs, h) hr = (hs, All-snoc P rules r h hr)

-- A cache that was cleared holds nothing wrong.
cleared-All :
    (P : CacheEntry → Type 0) (c : RuleEngineConfig) (cache : List CacheEntry)
    → c.enable_cache ≡ true
    → All P (cleared c cache)
cleared-All P c cache h = rw (h) tt

when_found-Agrees :
    (X : Matchers) (f : Engine → Engine) (e : Engine) (o : Option RoutingRule)
    → plain (f e) ≡ plain (f (plain e))
    → IsValid X (f e)
    → IsValid X e
    → Agrees X (on_answer done (when_found f e o)) (on_answer done (when_found f (plain e) o))
when_found-Agrees X f e none k hf h = (refl, refl, h)
when_found-Agrees X f e (some r) k hf h = (refl, k, hf)

-- What the cache gives, if anything, is what there is to find.
abbrev IsRightIfAny : List RuleMatchResult → Option (List RuleMatchResult) → Type 0
IsRightIfAny matches none = Unit
IsRightIfAny matches (some found) = found ≡ matches

module _ (X : Matchers) (dp : DataPoint) (e : Engine) where
  abbrev matches : List RuleMatchResult
  matches = matches_among X e.config.prefer_ctre e.compiled dp e.rules

  fresh_results-IsRight :
      (now : ℕ) (o : Option CacheEntry)
      → IsFound (IsRight X e.config.prefer_ctre e.compiled e.rules) (address dp) o
      → IsRightIfAny matches (fresh_results e.config now o)
  fresh_results-IsRight now none h = tt
  fresh_results-IsRight now (some entry) (right, key) =
      if_cases (IsRightIfAny matches) (is_fresh e.config now entry) (λ f. right dp (sym key))
        (λ f. tt)

  check_cache-IsRight :
      (now : ℕ)
      → IsValid X e
      → IsRightIfAny matches
          (if e.config.enable_cache then check_cache e now (address dp) else none)
  unfolding check_cache
  check_cache-IsRight now (hr, hc) =
      if_cases (IsRightIfAny matches) e.config.enable_cache
        (λ on. fresh_results-IsRight now (find_entry (address dp) e.cache) (
          find_entry-IsFound (IsRight X e.config.prefer_ctre e.compiled e.rules) (address dp)
            e.cache (hc on)))
        (λ off. tt)

  evaluate_after-Agrees :
      (t : Clock) (o : Option (List RuleMatchResult))
      → IsValid X e
      → IsRightIfAny matches o
      → Agrees X
          (on_answer results (evaluate_after X t dp e o))
          (on_answer results (evaluate X t dp (plain e)))
  unfolding evaluate evaluate_all
  evaluate_after-Agrees t (some found) h k = (ap results k, refl, h)
  evaluate_after-Agrees t none (hr, hc) k =
      let P = IsRight X e.config.prefer_ctre e.compiled e.rules in
      let new : P (record { key = address dp; results = matches; timestamp = t.stored }) =
        λ dp' same_address.
          matches_among-address X e.config.prefer_ctre e.compiled e.rules dp dp' hr
            (sym same_address) in
      (
        refl,
        refl,
        (
          hr,
          λ on.
              if_cases (All P) (e.config.enable_cache && ltb 0 (length matches))
                (λ f. All-update_cache P e.config t (address dp) matches e.cache new (hc on))
                (λ f. hc on),
        ),
      )

step-Agrees :
    (X : Matchers) (call : Call) (e : Engine)
    → CallByAddress call
    → IsValid X e
    → Agrees X (step X call e) (step X call (plain e))
unfolding step add_rule compile update_rule remove_rule set_rule_enabled clear_rules evaluate
    evaluate_first evaluate_priority clear_cache invalidate_cache reset_stats
step-Agrees X (add r) e hk (hr, hc) =
    let rules = e.rules ++ (record r { id = e.next_rule_id } ∷ []) in
    (
      refl,
      refl,
      (
        All-sort ByAddress rules (All-snoc ByAddress e.rules _ hr hk),
        λ on. cleared-All _ e.config e.cache on,
      ),
    )
step-Agrees X (update i r) e hk (hr, hc) =
    let f : RoutingRule → RoutingRule = λ s. record r { id = i } in
    when_found-Agrees X (updated i r) e (get_rule_in i e.rules) refl
      (
        All-sort ByAddress (change i f e.rules) (All-change ByAddress i f e.rules (λ s h. hk) hr),
        λ on. cleared-All _ e.config e.cache on,
      )
      (hr, hc)
step-Agrees X (remove i) e hk (hr, hc) =
    when_found-Agrees X (removed i) e (get_rule_in i e.rules) refl
      (All-erase ByAddress i e.rules hr, λ on. cleared-All _ e.config e.cache on) (hr, hc)
step-Agrees X (enable i enabled) e hk (hr, hc) =
    when_found-Agrees X (with_enabled i enabled) e (get_rule_in i e.rules) refl
      (
        All-change ByAddress i (λ s. record s { enabled = enabled }) e.rules (λ s h. h) hr,
        λ on. cleared-All _ e.config e.cache on,
      )
      (hr, hc)
step-Agrees X clear e hk h = (refl, refl, (tt, λ on. tt))
step-Agrees X (look t dp) e hk h =
    evaluate_after-Agrees X dp e t
      (if e.config.enable_cache then check_cache e t.checked (address dp) else none) h
      (check_cache-IsRight X dp e t.checked h)
step-Agrees X (look_first dp) e hk h = (refl, refl, h)
step-Agrees X (look_priority dp least) e hk h = (refl, refl, h)
step-Agrees X forget e hk (hr, hc) = (refl, refl, (hr, λ on. tt))
step-Agrees X (invalidate hit) e hk (hr, hc) =
    (refl, refl, (hr, λ on. All-drop_entries _ hit e.cache (hc on)))
step-Agrees X reset e hk h = (refl, refl, h)

-- Whatever calls are made of an engine whose rules and whose cache are valid, in whatever order and at
-- whatever times, with new rules that look at addresses only, it answers as the engine without a cache.
pub run-plain :
    (X : Matchers) (calls : List Call) (e : Engine)
    → All CallByAddress calls
    → IsValid X e
    → run X calls e ≡ run X calls (plain e)
unfolding run
run-plain X [] e hk h = refl
run-plain X (call ∷ calls) e (hc, hk) h =
    let next = step X call e in
    let next' = step X call (plain e) in
    let (answers, engines, valid) = step-Agrees X call e hc h in
    let (answers', engines', valid') =
      step-Agrees X call (plain e) hc (h.0, λ on. absurd (false≢true on)) in
    ap (λ a. a ∷ run X calls next.1) answers
    ∙ ap (◌∷◌ next'.0) (
        run-plain X calls next.1 hk valid
        ∙ (ap (run X calls) engines ∙ sym (run-plain X calls next'.1 hk valid')))
