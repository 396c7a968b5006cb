-- ===== src/Router/Conversion.antt =====
-- What `Router::convert_rule` keeps of a rule, and what it loses (router.cpp).
use ipb.Base.{ℕ, ◌≡◌, refl, ap, ◌∙◌, Bool, true, false, List, ◌∷◌, some, if◌then◌else◌}
use mathlib.Core.Bool.{false≢true}
use ipb.Data.Point.{DataPoint}
use ipb.RuleEngine.Rule
use ipb.RuleEngine.Rule.{RuleMatchResult, Matchers, evaluate_direct, test_of, with_match, unmatched}
use ipb.Router.Legacy.{
  LegacyType, static, protocol_based, regex_pattern, quality_based, timestamp_based, value_based,
  custom_logic, load_balancing, failover, broadcast, LegacyCondition, LegacyRule, Legacy,
  matches_kind, matches, convert_kind, convert_rule, convert_op, blank, convert_conditions,
  convert_back_kind, convert_rule_back,
}

-- The types that have a counterpart in the rule engine, but for that of values.
abbrev pub has_counterpart : LegacyType → Bool
has_counterpart value_based = false
has_counterpart load_balancing = false
has_counterpart failover = false
has_counterpart broadcast = false
has_counterpart _ = true

-- Those of them that no pattern matcher decides: the router's patterns are those of `std::regex`, and the
-- rule engine's factory takes some of them for prefixes or wildcards.
abbrev pub is_exact : LegacyType → Bool
is_exact regex_pattern = false
is_exact kind = has_counterpart kind

-- Whether a result says that its rule matched.
matched-if :
    (enabled matched : Bool) (groups : List (List ℕ)) (result : RuleMatchResult)
    → result.matched ≡ false
    → (if enabled then with_match matched groups result else result).matched
      ≡ (if enabled then matched else false)
matched-if true matched groups result h = refl
matched-if false matched groups result h = h

module _ (X : Matchers) (L : Legacy) (dp : DataPoint) (r : LegacyRule) where
  convert_kind-matches :
      (kind : LegacyType)
      → is_exact kind ≡ true
      → (evaluate_direct X (convert_kind r kind) dp).matched
        ≡ (if r.enabled then matches_kind L r kind dp else false)
  unfolding evaluate_direct convert_kind test_of matches_kind
  convert_kind-matches static k = matched-if r.enabled _ _ _ refl
  convert_kind-matches protocol_based k = matched-if r.enabled _ _ _ refl
  convert_kind-matches regex_pattern k = absurd (false≢true k)
  convert_kind-matches quality_based k = matched-if r.enabled _ _ _ refl
  convert_kind-matches timestamp_based k = matched-if r.enabled _ _ _ refl
  convert_kind-matches value_based k = absurd (false≢true k)
  convert_kind-matches custom_logic k = matched-if r.enabled _ _ _ refl
  convert_kind-matches load_balancing k = absurd (false≢true k)
  convert_kind-matches failover k = absurd (false≢true k)
  convert_kind-matches broadcast k = absurd (false≢true k)

-- A rule on addresses, protocols, qualities or timestamps, or of custom logic, enabled or not, matches
-- once it is converted exactly the data points that it matched before, whatever the pattern matchers.
pub matches-convert_rule :
    (X : Matchers) (L : Legacy) (r : LegacyRule) (dp : DataPoint)
    → is_exact r.kind ≡ true
    → (evaluate_direct X (convert_rule r) dp).matched ≡ matches L r dp
unfolding convert_rule matches
matches-convert_rule X L r dp k = convert_kind-matches X L dp r r.kind k

-- The types that match every data point.
abbrev pub matches_all : LegacyType → Bool
matches_all load_balancing = true
matches_all failover = true
matches_all broadcast = true
matches_all _ = false

never : (enabled : Bool) → (if enabled then false else false) ≡ false
never true = refl
never false = refl

convert_kind-never :
    (X : Matchers) (dp : DataPoint) (r : LegacyRule) (kind : LegacyType)
    → matches_all kind ≡ true
    → (evaluate_direct X (convert_kind r kind) dp).matched ≡ false
unfolding evaluate_direct convert_kind test_of
convert_kind-never X dp r static k = absurd (false≢true k)
convert_kind-never X dp r protocol_based k = absurd (false≢true k)
convert_kind-never X dp r regex_pattern k = absurd (false≢true k)
convert_kind-never X dp r quality_based k = absurd (false≢true k)
convert_kind-never X dp r timestamp_based k = absurd (false≢true k)
convert_kind-never X dp r value_based k = absurd (false≢true k)
convert_kind-never X dp r custom_logic k = absurd (false≢true k)
convert_kind-never X dp r load_balancing k = matched-if r.enabled _ _ _ refl ∙ never r.enabled
convert_kind-never X dp r failover k = matched-if r.enabled _ _ _ refl ∙ never r.enabled
convert_kind-never X dp r broadcast k = matched-if r.enabled _ _ _ refl ∙ never r.enabled

matches_kind-all :
    (L : Legacy) (r : LegacyRule) (kind : LegacyType) (dp : DataPoint)
    → matches_all kind ≡ true
    → matches_kind L r kind dp ≡ true
unfolding matches_kind
matches_kind-all L r static dp k = absurd (false≢true k)
matches_kind-all L r protocol_based dp k = absurd (false≢true k)
matches_kind-all L r regex_pattern dp k = absurd (false≢true k)
matches_kind-all L r quality_based dp k = absurd (false≢true k)
matches_kind-all L r timestamp_based dp k = absurd (false≢true k)
matches_kind-all L r value_based dp k = absurd (false≢true k)
matches_kind-all L r custom_logic dp k = absurd (false≢true k)
matches_kind-all L r load_balancing dp k = refl
matches_kind-all L r failover dp k = refl
matches_kind-all L r broadcast dp k = refl

-- An enabled rule of load balancing, failover or broadcast matches every data point, and none once it is
-- converted.
pub convert_rule-never :
    (X : Matchers) (L : Legacy) (r : LegacyRule) (dp : DataPoint)
    → r.enabled ≡ true
    → matches_all r.kind ≡ true
    → (matches L r dp ≡ true) × ((evaluate_direct X (convert_rule r) dp).matched ≡ false)
unfolding matches convert_rule
convert_rule-never X L r dp h k = (
  ap (λ b. if b then matches_kind L r r.kind dp else false) h ∙ matches_kind-all L r r.kind dp k,
  convert_kind-never X dp r r.kind k,
)

convert_kind-conditions :
    (r : LegacyRule) (kind : LegacyType) (c c' : LegacyCondition) (cs cs' : List LegacyCondition)
    → c.op ≡ c'.op
    → convert_kind (record r { value_conditions = c ∷ cs }) kind
      ≡ convert_kind (record r { value_conditions = c' ∷ cs' }) kind
unfolding convert_kind convert_conditions
convert_kind-conditions r static c c' cs cs' h = refl
convert_kind-conditions r protocol_based c c' cs cs' h = refl
convert_kind-conditions r regex_pattern c c' cs cs' h = refl
convert_kind-conditions r quality_based c c' cs cs' h = refl
convert_kind-conditions r timestamp_based c c' cs cs' h = refl
convert_kind-conditions r value_based c c' cs cs' h =
    ap
      (λ op. record (blank r) {
        kind = Rule.value;
        value_condition = some (record {
          op = convert_op op;
          reference = Rule.Reference.boolean false;
          reference_high = Rule.Reference.boolean false;
        });
      })
      h
convert_kind-conditions r custom_logic c c' cs cs' h = refl
convert_kind-conditions r load_balancing c c' cs cs' h = refl
convert_kind-conditions r failover c c' cs cs' h = refl
convert_kind-conditions r broadcast c c' cs cs' h = refl

-- Of the conditions on values a conversion keeps the first one's operator: rules that differ in anything
-- else about their conditions are converted alike.
pub convert_rule-conditions :
    (r : LegacyRule) (c c' : LegacyCondition) (cs cs' : List LegacyCondition)
    → c.op ≡ c'.op
    → convert_rule (record r { value_conditions = c ∷ cs })
      ≡ convert_rule (record r { value_conditions = c' ∷ cs' })
unfolding convert_rule
convert_rule-conditions r c c' cs cs' h = convert_kind-conditions r r.kind c c' cs cs' h

convert_kind-back :
    (r : LegacyRule) (kind : LegacyType)
    → has_counterpart kind ≡ true
    → convert_rule (convert_back_kind (convert_kind r kind) (convert_kind r kind).kind)
      ≡ convert_kind r kind
unfolding convert_rule convert_kind convert_back_kind
convert_kind-back r static k = refl
convert_kind-back r protocol_based k = refl
convert_kind-back r regex_pattern k = refl
convert_kind-back r quality_based k = refl
convert_kind-back r timestamp_based k = refl
convert_kind-back r value_based k = absurd (false≢true k)
convert_kind-back r custom_logic k = refl
convert_kind-back r load_balancing k = absurd (false≢true k)
convert_kind-back r failover k = absurd (false≢true k)
convert_kind-back r broadcast k = absurd (false≢true k)

-- A rule of a type that has a counterpart, other than that of values, is converted back to one that
-- converts to the same again.
pub convert_rule-back :
    (r : LegacyRule)
    → has_counterpart r.kind ≡ true
    → convert_rule (convert_rule_back (convert_rule r)) ≡ convert_rule r
unfolding convert_rule_back convert_rule
convert_rule-back r k = convert_kind-back r r.kind k
