-- ===== src/RuleEngine/Engine/Sorted.antt =====
-- Rules by priority, and the evaluations that stop early (rule_engine.cpp).
use ipb.Base.{
  ℕ, ◌≤◌, ◌<◌, ◌≡◌, refl, sym, ap, ◌∙◌, inl, inr, Bool, true, false, List, [], ◌∷◌, Option, none,
  some, if◌then◌else◌, ltb, leb, ◌==◌, All, arith, Bool-cases, if_cases,
}
use ipb.Data.Point.{DataPoint}
use ipb.RuleEngine.Rule.{RoutingRule, RuleMatchResult, Matchers, evaluate_direct}
use ipb.RuleEngine.Engine.{
  insert, sort, change, erase, is_pattern, find_compiled, evaluate_by, evaluate_rule, matches_among,
  first_among, priority_among,
}

-- Every priority is no more than `p`.
abbrev pub IsBelow : ℕ → List RoutingRule → Type 0
IsBelow p = All (λ r. r.priority ≤ p)

abbrev pub IsSorted : List RoutingRule → Type 0
IsSorted [] = Unit
IsSorted (r ∷ rules) = IsBelow r.priority rules × IsSorted rules

IsBelow-mono : (p q : ℕ) (rules : List RoutingRule) → p ≤ q → IsBelow p rules → IsBelow q rules
IsBelow-mono p q [] h k = tt
IsBelow-mono p q (r ∷ rules) h (kr, k) = (omega arith, IsBelow-mono p q rules h k)

pub All-insert :
    (P : RoutingRule → Type 0) (r : RoutingRule) (rules : List RoutingRule)
    → P r
    → All P rules
    → All P (insert r rules)
unfolding insert
All-insert P r [] hr h = (hr, h)
All-insert P r (s ∷ rules) hr (hs, h) =
    if_cases (All P) (leb s.priority r.priority) (λ e. (hr, (hs, h)))
      (λ e. (hs, All-insert P r rules hr h))

insert-IsSorted :
    (r : RoutingRule) (rules : List RoutingRule) → IsSorted rules → IsSorted (insert r rules)
unfolding insert
insert-IsSorted r [] h = (tt, tt)
insert-IsSorted r (s ∷ rules) (hs, h) =
    if_cases IsSorted (leb s.priority r.priority)
      (λ e. ((ground arith, IsBelow-mono s.priority r.priority rules (ground arith) hs), (hs, h)))
      (λ e. (
        All-insert (λ t. t.priority ≤ s.priority) r rules (ground arith) hs,
        insert-IsSorted r rules h,
      ))

pub sort-IsSorted : (rules : List RoutingRule) → IsSorted (sort rules)
unfolding sort
sort-IsSorted [] = tt
sort-IsSorted (r ∷ rules) = insert-IsSorted r (sort rules) (sort-IsSorted rules)

pub All-change :
    (P : RoutingRule → Type 0) (id : ℕ) (f : RoutingRule → RoutingRule) (rules : List RoutingRule)
    → ((r : RoutingRule) → P r → P (f r))
    → All P rules
    → All P (change id f rules)
unfolding change
All-change P id f [] k h = tt
All-change P id f (r ∷ rules) k (hr, h) =
    if_cases (All P) (r.id == id) (λ e. (k r hr, h)) (λ e. (hr, All-change P id f rules k h))

pub All-erase :
    (P : RoutingRule → Type 0) (id : ℕ) (rules : List RoutingRule)
    → All P rules
    → All P (erase id rules)
unfolding erase
All-erase P id [] h = tt
All-erase P id (r ∷ rules) (hr, h) =
    if_cases (All P) (r.id == id) (λ e. h) (λ e. (hr, All-erase P id rules h))

-- A change that leaves priorities as they are.
pub change-IsSorted :
    (id : ℕ) (f : RoutingRule → RoutingRule) (rules : List RoutingRule)
    → ((r : RoutingRule) → (f r).priority ≡ r.priority)
    → IsSorted rules
    → IsSorted (change id f rules)
unfolding change
change-IsSorted id f [] k h = tt
change-IsSorted id f (r ∷ rules) k (hr, h) =
    if_cases IsSorted (r.id == id)
      (λ e. (IsBelow-mono r.priority (f r).priority rules (omega (arith, k r)) hr, h))
      (λ e. (
        All-change (λ s. s.priority ≤ r.priority) id f rules (λ s below. omega (arith, k s)) hr,
        change-IsSorted id f rules k h,
      ))

pub erase-IsSorted :
    (id : ℕ) (rules : List RoutingRule) → IsSorted rules → IsSorted (erase id rules)
unfolding erase
erase-IsSorted id [] h = tt
erase-IsSorted id (r ∷ rules) (hr, h) =
    if_cases IsSorted (r.id == id) (λ e. h)
      (λ e. (All-erase (λ s. s.priority ≤ r.priority) id rules hr, erase-IsSorted id rules h))

-- A result has its rule's priority.
evaluate_by-priority :
    (X : Matchers) (ctre : Bool) (r : RoutingRule) (dp : DataPoint) (o : Option (List ℕ))
    → (evaluate_by X ctre r dp o).priority ≡ r.priority
unfolding evaluate_direct
evaluate_by-priority X ctre r dp none =
    if_cases (λ (result : RuleMatchResult). result.priority ≡ r.priority) r.enabled (λ e. refl)
      (λ e. refl)
evaluate_by-priority X ctre r dp (some p) = refl

evaluate_rule-priority :
    (X : Matchers) (ctre : Bool) (compiled : List (ℕ × List ℕ)) (r : RoutingRule) (dp : DataPoint)
    → (evaluate_rule X ctre compiled r dp).priority ≡ r.priority
unfolding evaluate_rule
evaluate_rule-priority X ctre compiled r dp =
    evaluate_by-priority X ctre r dp
      (if is_pattern r.kind then find_compiled r.id compiled else none)

-- The results of at least a priority.
abbrev pub kept : ℕ → List RuleMatchResult → List RuleMatchResult
kept least [] = []
kept least (result ∷ results) =
    let rest = kept least results in if ltb result.priority least then rest else result ∷ rest

abbrev pub head_of : List RuleMatchResult → Option RuleMatchResult
head_of [] = none
head_of (result ∷ results) = some result

-- One rule more, for the two loops that stop early.
first-step :
    (enabled matched : Bool) (result : RuleMatchResult) (first : Option RuleMatchResult)
    (rest : List RuleMatchResult)
    → first ≡ head_of rest
    → (if enabled then (if matched then some result else first) else first)
      ≡ head_of (if enabled then (if matched then result ∷ rest else rest) else rest)
first-step false matched result first rest h = h
first-step true false result first rest h = h
first-step true true result first rest h = refl

priority-step :
    (enabled matched : Bool) (least p : ℕ) (result : RuleMatchResult)
    (found rest : List RuleMatchResult)
    → result.priority ≡ p
    → found ≡ kept least rest
    → (p < least → kept least rest ≡ [])
    → (if enabled
        then (if ltb p least then [] else if matched then result ∷ found else found)
        else found)
      ≡ kept least (if enabled then (if matched then result ∷ rest else rest) else rest)
priority-step false matched least p result found rest e h k = h
priority-step true false least p result found rest e h k = elim (Bool-cases (ltb p least)) [
  | inl f ↦ rw (f) (sym (k (ground arith)))
  | inr f ↦ rw (f) h
]
priority-step true true least p result found rest e h k =
    let test : ltb result.priority least ≡ ltb p least = ap (λ q. ltb q least) e in
    elim (Bool-cases (ltb p least)) [
      | inl f ↦ rw (f, test ∙ f) (sym (k (ground arith)))
      | inr f ↦ rw (f, test ∙ f) (ap (◌∷◌ result) h)
    ]

module _ (X : Matchers) (ctre : Bool) (compiled : List (ℕ × List ℕ)) (dp : DataPoint) where
  kept-none :
      (least p : ℕ) (rules : List RoutingRule)
      → IsBelow p rules
      → p < least
      → kept least (matches_among X ctre compiled dp rules) ≡ []
  unfolding matches_among
  kept-none least p [] h k = refl
  kept-none least p (r ∷ rules) (hr, h) k =
      let result = evaluate_rule X ctre compiled r dp in
      let rest = matches_among X ctre compiled dp rules in
      let ih = kept-none least p rules h k in
      let low : ltb result.priority least ≡ true =
        ground (arith, evaluate_rule-priority X ctre compiled r dp) in
      if_cases (λ results. kept least results ≡ []) r.enabled
        (λ e.
          if_cases (λ results. kept least results ≡ []) result.matched (λ f. rw (low) ih) (λ f. ih))
        (λ e. ih)

  -- `evaluate_priority` finds the matches of at least the priority, though it is left at the first rule
  -- below it, where the rules are sorted.
  pub priority_among-kept :
      (least : ℕ) (rules : List RoutingRule)
      → IsSorted rules
      → priority_among X ctre compiled dp least rules
        ≡ kept least (matches_among X ctre compiled dp rules)
  unfolding matches_among priority_among
  priority_among-kept least [] h = refl
  priority_among-kept least (r ∷ rules) (hr, h) =
      let result = evaluate_rule X ctre compiled r dp in
      let ih = priority_among-kept least rules h in
      let rest = matches_among X ctre compiled dp rules in
      priority-step r.enabled result.matched least r.priority result
        (priority_among X ctre compiled dp least rules) rest
        (evaluate_rule-priority X ctre compiled r dp) ih (kept-none least r.priority rules hr)

  -- `evaluate_first` finds the first of the matches.
  pub first_among-head_of :
      (rules : List RoutingRule)
      → first_among X ctre compiled dp rules ≡ head_of (matches_among X ctre compiled dp rules)
  unfolding matches_among first_among
  first_among-head_of [] = refl
  first_among-head_of (r ∷ rules) =
      let result = evaluate_rule X ctre compiled r dp in
      first-step r.enabled result.matched result (first_among X ctre compiled dp rules)
        (matches_among X ctre compiled dp rules) (first_among-head_of rules)
