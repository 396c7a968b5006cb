-- ===== src/RuleEngine/Engine/Coherent.antt =====
-- When what the cache of rule_engine.cpp holds is what an evaluation would find.
use ipb.Base.{
  ℕ, ◌≡◌, refl, sym, ap, ◌∙◌, ◌⊎◌, inl, inr, Bool, true, false, List, [], ◌∷◌, Option, none, some,
  if◌then◌else◌, leb, ◌==◌, length, All, arith, Bool-cases, if_cases,
}
use mathlib.Core.Path.{subst}
use mathlib.Core.Bool.{false≢true}
use ipb.Data.Point.{DataPoint, address}
use ipb.MessageBus.Topic.{same, is_empty}
use ipb.RuleEngine.Rule.{
  RuleType, static, pattern, RoutingRule, RuleMatchResult, Matchers, contains_text, test_of,
  evaluate_direct, unmatched, with_match,
}
use ipb.RuleEngine.Engine.{
  RuleEngineConfig, CacheEntry, Clock, is_pattern, find_compiled, evaluate_by, evaluate_rule,
  matches_among, find_entry, erase_entry, evict, oldest_key, update_cache, drop_entries,
}

-- Rules that look at nothing but the address.
abbrev pub ByAddress : RoutingRule → Type 0
ByAddress r = (r.kind ≡ static) ⊎ (r.kind ≡ pattern)

test_of-address :
    (X : Matchers) (r : RoutingRule) (kind : RuleType) (dp dp' : DataPoint)
    → (kind ≡ static) ⊎ (kind ≡ pattern)
    → address dp ≡ address dp'
    → test_of X r kind dp ≡ test_of X r kind dp'
unfolding test_of
test_of-address X r kind dp dp' (inl e) h =
    subst (λ k. test_of X r k dp ≡ test_of X r k dp') (sym e)
      (ap (λ a. (contains_text a r.source_addresses, [])) h)
test_of-address X r kind dp dp' (inr e) h =
    subst (λ k. test_of X r k dp ≡ test_of X r k dp') (sym e)
      (ap (X.match_with_groups false r.address_pattern) h)

evaluate_by-address :
    (X : Matchers) (ctre : Bool) (r : RoutingRule) (dp dp' : DataPoint) (o : Option (List ℕ))
    → ByAddress r
    → address dp ≡ address dp'
    → evaluate_by X ctre r dp o ≡ evaluate_by X ctre r dp' o
unfolding evaluate_direct
evaluate_by-address X ctre r dp dp' none k h =
    ap
      (λ p.
        let (matched, groups) = p in
        if r.enabled then with_match matched groups (unmatched r) else unmatched r)
      (test_of-address X r r.kind dp dp' k h)
evaluate_by-address X ctre r dp dp' (some p) k h =
    ap
      (λ a.
        let (matched, groups) = X.match_with_groups ctre p a in
        with_match matched groups (unmatched r))
      h

module _ (X : Matchers) (ctre : Bool) (compiled : List (ℕ × List ℕ)) where
  -- Data points of one address have the same matches among such rules.
  pub matches_among-address :
      (rules : List RoutingRule) (dp dp' : DataPoint)
      → All ByAddress rules
      → address dp ≡ address dp'
      → matches_among X ctre compiled dp rules ≡ matches_among X ctre compiled dp' rules
  unfolding matches_among evaluate_rule
  matches_among-address [] dp dp' k h = refl
  matches_among-address (r ∷ rules) dp dp' (kr, k) h =
      let o = if is_pattern r.kind then find_compiled r.id compiled else none in
      let rest = matches_among-address rules dp dp' k h in
      ap
        (λ result.
          if r.enabled
          then (if result.matched
              then result ∷ matches_among X ctre compiled dp rules
              else matches_among X ctre compiled dp rules)
          else matches_among X ctre compiled dp rules)
        (evaluate_by-address X ctre r dp dp' o kr h)
      ∙ ap
          (λ results.
            if r.enabled
            then (if (evaluate_by X ctre r dp' o).matched
                then evaluate_by X ctre r dp' o ∷ results
                else results)
            else results)
          rest

  -- An entry is what is found for its address.
  abbrev pub IsRight : List RoutingRule → CacheEntry → Type 0
  IsRight rules c =
      (dp : DataPoint) → address dp ≡ c.key → c.results ≡ matches_among X ctre compiled dp rules

pub eq_of_same : (a b : List ℕ) → same a b ≡ true → a ≡ b
eq_of_same [] [] h = refl
eq_of_same [] (d ∷ b) h = absurd (false≢true h)
eq_of_same (c ∷ a) [] h = absurd (false≢true h)
eq_of_same (c ∷ a) (d ∷ b) h = elim (Bool-cases (c == d)) [
  | inl e ↦
      let tails : same a b ≡ true = sym (ap (λ t. if t then same a b else false) e) ∙ h in
      ap (λ x. x ∷ a) (ground arith) ∙ ap (◌∷◌ d) (eq_of_same a b tails)
  | inr e ↦ absurd (false≢true (sym (ap (λ t. if t then same a b else false) e) ∙ h))
]

module _ (P : CacheEntry → Type 0) where
  pub All-erase_entry :
      (key : List ℕ) (cache : List CacheEntry) → All P cache → All P (erase_entry key cache)
  unfolding erase_entry
  All-erase_entry key [] h = tt
  All-erase_entry key (c ∷ cache) (hc, h) =
      if_cases (All P) (same c.key key) (λ e. All-erase_entry key cache h)
        (λ e. (hc, All-erase_entry key cache h))

  pub All-drop_entries :
      (hit : List ℕ → Bool) (cache : List CacheEntry) → All P cache → All P (drop_entries hit cache)
  unfolding drop_entries
  All-drop_entries hit [] h = tt
  All-drop_entries hit (c ∷ cache) (hc, h) =
      if_cases (All P) (hit c.key) (λ e. All-drop_entries hit cache h)
        (λ e. (hc, All-drop_entries hit cache h))

  pub All-update_cache :
      (c : RuleEngineConfig) (t : Clock) (key : List ℕ) (results : List RuleMatchResult)
      (cache : List CacheEntry)
      → P (record { key = key; results = results; timestamp = t.stored })
      → All P cache
      → All P (update_cache c t key results cache)
  unfolding update_cache evict
  All-update_cache c t key results cache hn h =
      let oldest = oldest_key t.evicted [] cache in
      (
        hn,
        All-erase_entry key (evict c.cache_size t.evicted cache) (
            if_cases (All P) (leb c.cache_size (length cache))
              (λ e.
                if_cases (All P) (is_empty oldest) (λ f. h) (λ f. All-erase_entry oldest cache h))
              (λ e. h)),
      )

-- An entry that is found is one of those, of the address looked for.
abbrev pub IsFound : (CacheEntry → Type 0) → List ℕ → Option CacheEntry → Type 0
IsFound P key none = Unit
IsFound P key (some c) = P c × (c.key ≡ key)

pub find_entry-IsFound :
    (P : CacheEntry → Type 0) (key : List ℕ) (cache : List CacheEntry)
    → All P cache
    → IsFound P key (find_entry key cache)
unfolding find_entry
find_entry-IsFound P key [] h = tt
find_entry-IsFound P key (c ∷ cache) (hc, h) =
    if_cases (IsFound P key) (same c.key key) (λ e. (hc, eq_of_same c.key key e))
      (λ e. find_entry-IsFound P key cache h)
