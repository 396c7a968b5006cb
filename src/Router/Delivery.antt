-- ===== src/Router/Delivery.antt =====
-- What `Router::route` and `route_batch` (router.cpp) answer, by what became of the writes.
use ipb.Base.{
  ◌≡◌, refl, sym, ap, ◌∙◌, Bool, true, false, ◌||◌, not, List, [], ◌∷◌, if◌then◌else◌, length, All,
  inl, inr, Bool-cases,
}
use mathlib.Core.Bool.{false≢true}
use ipb.Base.Double.{Doubles}
use ipb.Data.Point.{DataPoint}
use ipb.RuleEngine.Rule.{RuleMatchResult, Matchers}
use ipb.RuleEngine.Engine.{Clock, evaluate, evaluate_batch}
use ipb.Sinks.Registry.{Registry}
use ipb.Sinks.Registry.Writing.{WriteResult}
use ipb.Router.{Code, ok, no_matching_rule, all_sinks_failed, RouterConfig, Router}
use ipb.Router.Routing.{
  World, is_written, is_skipped, write_match, dispatch_loop, dead_letter, dispatch_to_sinks,
  deliver, guarded, routed, route, batch_result, batch_loop, route_batch,
}

-- The results of the writes that are tried for the matches, one after the other, and the registry then.
unfoldable pub attempts :
    Doubles → World → List RuleMatchResult → Registry → List WriteResult × Registry
attempts D w [] r = ([], r)
attempts D w (m ∷ matches) r = elim (is_skipped m) [
  | true ↦ attempts D w matches r
  | false ↦
      let (result, r') = write_match D w (length matches) m r in
      let (results, r'') = attempts D w matches r' in (result ∷ results, r'')
]

abbrev pub some_written : List WriteResult → Bool
some_written [] = false
some_written (result ∷ results) = is_written result || some_written results

abbrev pub some_failed : List WriteResult → Bool
some_failed [] = false
some_failed (result ∷ results) = not (is_written result) || some_failed results

or_assoc : (a b c : Bool) → ((a || b) || c) ≡ (a || (b || c))
or_assoc true b c = refl
or_assoc false b c = refl

or_false : (a : Bool) → (a || false) ≡ a
or_false true = refl
or_false false = refl

-- What a router with these settings is to answer: where nothing matched, whether there is a dead letter
-- queue; where something did, that a write succeeded, or that none did, or that there was none to try.
abbrev pub verdict : RouterConfig → List RuleMatchResult → List WriteResult → Code
verdict c [] results = if c.enable_dead_letter_queue then ok else no_matching_rule
verdict c (m ∷ matches) [] = ok
verdict c (m ∷ matches) (result ∷ results) =
    if some_written (result ∷ results) then ok else all_sinks_failed

-- One match more, skipped or not.
loop-step :
    (skipped s f : Bool) (result : WriteResult) (loop loop' : Bool × Bool × Registry)
    (rest rest' : List WriteResult × Registry)
    → loop ≡ (s || some_written rest.0, f || some_failed rest.0, rest.1)
    → loop' ≡ (
      (s || is_written result) || some_written rest'.0,
      (f || not (is_written result)) || some_failed rest'.0,
      rest'.1,
    )
    → elim skipped as (λ b. Bool × Bool × Registry) [ true ↦ loop | false ↦ loop' ] ≡ (
      s
          || some_written
              (elim skipped as (λ b. List WriteResult × Registry) [
                | true ↦ rest
                | false ↦ (result ∷ rest'.0, rest'.1)
              ]).0,
      f
          || some_failed
              (elim skipped as (λ b. List WriteResult × Registry) [
                | true ↦ rest
                | false ↦ (result ∷ rest'.0, rest'.1)
              ]).0,
      (elim skipped as (λ b. List WriteResult × Registry) [
        | true ↦ rest
        | false ↦ (result ∷ rest'.0, rest'.1)
      ]).1,
    )
loop-step true s f result loop loop' rest rest' h h' = h
loop-step false s f result loop loop' rest rest' h h' =
    h'
    ∙ (ap (λ b. (b, (f || not (is_written result)) || some_failed rest'.0, rest'.1))
          (or_assoc s (is_written result) (some_written rest'.0))
        ∙ ap (λ b. (s || (is_written result || some_written rest'.0), b, rest'.1))
            (or_assoc f (not (is_written result)) (some_failed rest'.0)))

module _ (D : Doubles) (w : World) where
  dispatch_loop-attempts :
      (matches : List RuleMatchResult) (s f : Bool) (r : Registry)
      → dispatch_loop D w matches s f r ≡ (
        s || some_written (attempts D w matches r).0,
        f || some_failed (attempts D w matches r).0,
        (attempts D w matches r).1,
      )
  unfolding dispatch_loop attempts
  dispatch_loop-attempts [] s f r =
      ap (λ b. (b, f, r)) (sym (or_false s)) ∙ ap (λ b. (s || false, b, r)) (sym (or_false f))
  dispatch_loop-attempts (m ∷ matches) s f r =
      let (result, r') = write_match D w (length matches) m r in
      loop-step (is_skipped m) s f result (dispatch_loop D w matches s f r)
        (dispatch_loop D w matches (s || is_written result) (f || not (is_written result)) r')
        (attempts D w matches r) (attempts D w matches r') (dispatch_loop-attempts matches s f r)
        (dispatch_loop-attempts matches (s || is_written result) (f || not (is_written result)) r')

-- What `dispatch_to_sinks` makes of the two flags.
abbrev conclude : RouterConfig → World → Bool × Bool × Registry → Code × Registry
conclude c w (s, f, r) =
    if s then (ok, r) else if f then (all_sinks_failed, dead_letter c w r) else (ok, r)

-- Writes that all failed.
some_failed-unwritten :
    (result : WriteResult) (results : List WriteResult)
    → some_written (result ∷ results) ≡ false
    → some_failed (result ∷ results) ≡ true
some_failed-unwritten result results h = elim (Bool-cases (is_written result)) [
  | inl e ↦ absurd (false≢true (sym h ∙ ap (λ b. b || some_written results) e))
  | inr e ↦ ap (λ b. not b || some_failed results) e
]

conclude-verdict :
    (c : RouterConfig) (w : World) (m : RuleMatchResult) (matches : List RuleMatchResult)
    (results : List WriteResult) (r : Registry)
    → (conclude c w (some_written results, some_failed results, r)).0
      ≡ verdict c (m ∷ matches) results
conclude-verdict c w m matches [] r = refl
conclude-verdict c w m matches (result ∷ results) r =
    elim (Bool-cases (some_written (result ∷ results))) [
      | inl e ↦ rw (e) refl
      | inr e ↦ rw (e, some_failed-unwritten result results e) refl
    ]

deliver-verdict :
    (D : Doubles) (c : RouterConfig) (w : World) (matches : List RuleMatchResult) (r : Registry)
    → (deliver D c w matches r).0 ≡ verdict c matches (attempts D w matches r).0
unfolding deliver dispatch_to_sinks
deliver-verdict D c w [] r = elim (Bool-cases c.enable_dead_letter_queue) [
  | inl e ↦ rw (e) refl
  | inr e ↦ rw (e) refl
]
deliver-verdict D c w (m ∷ matches) r =
    ap (λ flags. (conclude c w flags).0) (dispatch_loop-attempts D w (m ∷ matches) false false r)
    ∙ conclude-verdict c w m matches (attempts D w (m ∷ matches) r).0
        (attempts D w (m ∷ matches) r).1

-- A running router answers a data point by the writes it tried for the rules that matched: success where
-- one of them succeeded or none was tried, `ALL_SINKS_FAILED` where all failed; and where no rule
-- matched, success if there is a dead letter queue, whatever its sink answers, or else `NO_MATCHING_RULE`.
pub route-verdict :
    (X : Matchers) (D : Doubles) (t : Clock) (w : World) (dp : DataPoint) (r : Router)
    → r.running ≡ true
    → let matches = (evaluate X t dp r.engine).0 in
      (route X D t w dp r).0 ≡ verdict r.config matches (attempts D w matches r.registry).0
unfolding route
route-verdict X D t w dp r h =
    let (matches, engine) = evaluate X t dp r.engine in
    ap (λ b. (guarded b r (routed r engine (deliver D r.config w matches r.registry))).0) h
    ∙ deliver-verdict D r.config w matches r.registry

-- All matches are skipped.
abbrev pub AllSkipped : List RuleMatchResult → Type 0
AllSkipped = All (λ m. is_skipped m ≡ true)

dispatch_loop-AllSkipped :
    (D : Doubles) (w : World) (matches : List RuleMatchResult) (s f : Bool) (r : Registry)
    → AllSkipped matches
    → dispatch_loop D w matches s f r ≡ (s, f, r)
unfolding dispatch_loop
dispatch_loop-AllSkipped D w [] s f r h = refl
dispatch_loop-AllSkipped D w (m ∷ matches) s f r (hm, h) =
    ap
      (λ b. elim b as (λ x. Bool × Bool × Registry) [
        | true ↦ dispatch_loop D w matches s f r
        | false ↦
            let (result, r') = write_match D w (length matches) m r in
            dispatch_loop D w matches (s || is_written result) (f || not (is_written result)) r'
      ])
      hm
    ∙ dispatch_loop-AllSkipped D w matches s f r h

-- A data point that is matched by rules without targets only is answered with success, and no sink, not
-- that of the dead letter queue either, is written to.
pub route-AllSkipped :
    (X : Matchers) (D : Doubles) (t : Clock) (w : World) (dp : DataPoint) (r : Router)
    (m : RuleMatchResult) (matches : List RuleMatchResult)
    → r.running ≡ true
    → (evaluate X t dp r.engine).0 ≡ m ∷ matches
    → AllSkipped (m ∷ matches)
    → ((route X D t w dp r).0 ≡ ok) × ((route X D t w dp r).1.registry ≡ r.registry)
unfolding route deliver dispatch_to_sinks
route-AllSkipped X D t w dp r m matches h e k =
    let engine = (evaluate X t dp r.engine).1 in
    let answered : route X D t w dp r ≡ (ok, record r { engine = engine }) =
      ap
        (λ b.
          guarded b r
            (routed r engine (deliver D r.config w (evaluate X t dp r.engine).0 r.registry)))
        h
      ∙ (ap (λ ms. routed r engine (deliver D r.config w ms r.registry)) e
          ∙ ap (λ flags. routed r engine (conclude r.config w flags))
              (dispatch_loop-AllSkipped D w (m ∷ matches) false false r.registry k)) in
    (ap (λ p. p.0) answered, ap (λ p. p.1.registry) answered)

-- A data point that no rule matches, at a router without a dead letter queue, is an error for `route`, and
-- none for `route_batch`.
pub route_batch-unmatched :
    (X : Matchers) (D : Doubles) (t : Clock) (w : World) (dp : DataPoint) (r : Router)
    → r.running ≡ true
    → r.config.enable_dead_letter_queue ≡ false
    → (evaluate X t dp r.engine).0 ≡ []
    → ((route X D t w dp r).0 ≡ no_matching_rule)
      × ((route_batch X D (w ∷ []) ((t, dp) ∷ []) r).0 ≡ ok)
unfolding route deliver route_batch batch_loop evaluate_batch
route_batch-unmatched X D t w dp r h k e =
    let engine = (evaluate X t dp r.engine).1 in
    (
      route-verdict X D t w dp r h
          ∙ (ap (λ ms. verdict r.config ms (attempts D w ms r.registry).0) e
              ∙ ap (λ b. if b then ok else no_matching_rule) k),
      ap
            (λ b.
              (guarded b r (
                routed r engine (
                  batch_result (
                    batch_loop D r.config (w ∷ []) ((evaluate X t dp r.engine).0 ∷ [])
                      r.registry)))).0)
            h
          ∙ ap (λ ms. (batch_result (batch_loop D r.config (w ∷ []) (ms ∷ []) r.registry)).0) e,
    )
