-- ===== src/Router/Management/Adding.antt =====
-- A rule that `Router::add_rule` (router.cpp) took is there.
use Prim.Native.String.{String}
use ipb.Base.{
  ℕ, ◌≡◌, refl, sym, ap, ◌∙◌, inl, inr, true, false, List, [], ◌∷◌, ◌++◌, none, some, if◌then◌else◌,
  leb, ◌==◌, All, arith, Bool-cases, if_cases,
}
use mathlib.Core.Bool.{false≢true}
use ipb.RuleEngine.Rule.{RoutingRule}
use ipb.RuleEngine.Engine
use ipb.RuleEngine.Engine.{insert, sort, get_rule_in}
use ipb.Router.{Code, Router}
use ipb.Router.Legacy.{Legacy, LegacyRule, is_valid, convert_rule, convert_rule_back}
use ipb.Router.Management.{
  get_registered_sinks, is_registered, all_registered, validate_rule, Added, added, refused, add_if,
  add_rule, get_rule, back_of,
}

-- No rule has the id.
abbrev pub IsFresh : ℕ → List RoutingRule → Type 0
IsFresh id = All (λ r. (r.id == id) ≡ false)

get_rule_in-insert :
    (id : ℕ) (r : RoutingRule) (rules : List RoutingRule)
    → (r.id == id) ≡ false
    → get_rule_in id (insert r rules) ≡ get_rule_in id rules
unfolding get_rule_in insert
get_rule_in-insert id r [] h = ap (λ b. if b then some r else none) h
get_rule_in-insert id r (s ∷ rules) h =
    if_cases (λ list. get_rule_in id list ≡ get_rule_in id (s ∷ rules)) (leb s.priority r.priority)
      (λ e. ap (λ b. if b then some r else get_rule_in id (s ∷ rules)) h)
      (λ e. ap (λ o. if s.id == id then some s else o) (get_rule_in-insert id r rules h))

get_rule_in-sort :
    (rules : List RoutingRule) (r : RoutingRule)
    → IsFresh r.id rules
    → get_rule_in r.id (sort (rules ++ (r ∷ []))) ≡ some r
unfolding sort get_rule_in insert
get_rule_in-sort [] r h =
    let same_id : (r.id == r.id) ≡ true = ground arith in
    ap (λ b. if b then some r else none) same_id
get_rule_in-sort (s ∷ rules) r (hs, h) =
    get_rule_in-insert r.id s (sort (rules ++ (r ∷ []))) hs ∙ get_rule_in-sort rules r h

-- Every target is the id of a registered sink.
abbrev pub AreRegistered : List String → List String → Type 0
AreRegistered targets ids = All (λ target. is_registered target ids ≡ true) targets

all_registered-AreRegistered :
    (targets ids : List String) → all_registered targets ids ≡ true → AreRegistered targets ids
all_registered-AreRegistered [] ids h = tt
all_registered-AreRegistered (id ∷ targets) ids h = elim (Bool-cases (is_registered id ids)) [
  | inl e ↦ (
    e,
    all_registered-AreRegistered targets ids
        (sym (ap (λ b. if b then all_registered targets ids else false) e) ∙ h),
  )
  | inr e ↦
      absurd (false≢true (sym (ap (λ b. if b then all_registered targets ids else false) e) ∙ h))
]

-- What follows a validation that answers `code`.
abbrev pub Outcome : Legacy → LegacyRule → Router → Added × Router → Type 0
Outcome L rule r (added id, r') =
    (is_valid L rule ≡ true)
    × AreRegistered rule.target_sink_ids (get_registered_sinks r)
    × (get_rule id r' ≡ some (convert_rule_back (record (convert_rule rule) { id = id })))
Outcome L rule r (refused code, r') = r' ≡ r

-- A rule that `add_rule` takes is valid, its targets are registered, and under the id that is answered,
-- if no rule had it, `get_rule` gives it back as converted there and back; a rule that is refused leaves
-- the router as it was.
pub add_rule-get_rule :
    (L : Legacy) (rule : LegacyRule) (r : Router)
    → IsFresh r.engine.next_rule_id r.engine.rules
    → Outcome L rule r (add_rule L rule r)
unfolding add_rule validate_rule get_rule Engine.add_rule
add_rule-get_rule L rule r h =
    let targets = rule.target_sink_ids in
    let ids = get_registered_sinks r in
    if_cases (λ (code : Code). Outcome L rule r (add_if rule r code)) (is_valid L rule)
      (λ valid.
        if_cases (λ (code : Code). Outcome L rule r (add_if rule r code))
          (all_registered targets ids)
          (λ registered. (
            valid,
            all_registered-AreRegistered targets ids registered,
            ap back_of (
                get_rule_in-sort r.engine.rules
                  (record (convert_rule rule) { id = r.engine.next_rule_id }) h),
          ))
          (λ missing. refl))
      (λ invalid. refl)
