-- ===== src/Sinks/Balancer/Fair.antt =====
-- `RoundRobinBalancer::select` (load_balancer.cpp) comes round to every sink that is available.
use Prim.Native.String.{String}
use mathlib.Core.Option.{none-ne-some}
use native.Mathlib.Nat.{mod-lt, mod-eq_of_lt, mod-add-mod, add-mod_right}
use ipb.Base.{
  ℕ, zero, suc, ◌+◌, ◌-◌, ◌%◌, ◌^◌, ◌≤◌, ◌<◌, ◌≡◌, sym, ap, ◌∙◌, inl, inr, List, [], ◌∷◌, none,
  some, leb, length, get_elem?, Bool-cases, arith,
}
use ipb.Sinks.Info.{SinkInfo, available}
use ipb.Sinks.Balancer.{id_at, id_mod, next_if_some, select_round_robin}

-- The counter after `k` selections among the same candidates.
unfoldable pub after_turns : List SinkInfo → ℕ → ℕ → ℕ
after_turns candidates zero counter = counter
after_turns candidates (suc k) counter =
    after_turns candidates k (select_round_robin candidates counter).1

-- The turn at which an index comes up.
turn_of : (n i counter : ℕ) → i < n → (k : ℕ) × (k < n) × ((counter + k) % n ≡ i)
turn_of n i counter h = elim (Bool-cases (leb (counter % n) i)) [
  | inl e ↦
      let here = mod-lt counter {m = n} (omega arith) in
      let le : counter % n ≤ i = ground arith in
      let k = i - counter % n in
      let reached : counter % n + k ≡ i = omega (arith, le) in
      (k, omega arith, sym (mod-add-mod counter n k) ∙ (ap (λ x. x % n) reached ∙ mod-eq_of_lt h))
  | inr e ↦
      let here = mod-lt counter {m = n} (omega arith) in
      let gt : i < counter % n = ground arith in
      let k = i + n - counter % n in
      let reached : counter % n + k ≡ i + n = omega (arith, gt, here) in
      (
        k,
        omega (arith, gt, here),
        sym (mod-add-mod counter n k)
            ∙ (ap (λ x. x % n) reached ∙ (add-mod_right i n ∙ mod-eq_of_lt h)),
      )
]

-- One selection moves the counter on.
after_turns-eq-add :
    (candidates : List SinkInfo) (k counter : ℕ)
    → 0 < length (available candidates)
    → counter + k < 2 ^ 64
    → after_turns candidates k counter ≡ counter + k
unfolding after_turns select_round_robin
after_turns-eq-add candidates zero counter h small = omega arith
after_turns-eq-add candidates (suc k) counter h small =
    let moved : next_if_some (available candidates) counter ≡ counter + 1 =
      next_if_some-lem (available candidates) counter h (omega (arith, small)) in
    ap (after_turns candidates k) moved
    ∙ (after_turns-eq-add candidates k (counter + 1) h (omega (arith, small)) ∙ omega arith)
  where
    next_if_some-lem :
        (sinks : List SinkInfo) (c : ℕ)
        → 0 < length sinks
        → c + 1 < 2 ^ 64
        → next_if_some sinks c ≡ c + 1
    next_if_some-lem [] c h small = absurd (omega (arith, h))
    next_if_some-lem (s ∷ sinks) c h small = mod-eq_of_lt small

id_mod-get_elem? :
    (sinks : List SinkInfo) (i n : ℕ) (s : SinkInfo)
    → get_elem? sinks i ≡ some s
    → n % length sinks ≡ i
    → id_mod sinks n ≡ s.id ∷ []
id_mod-get_elem? [] i n s found e = absurd (none-ne-some s found)
id_mod-get_elem? (t ∷ sinks) i n s found e =
    ap (id_at (t ∷ sinks)) e
    ∙ ap (λ o. elim o as (λ x. List String) [ none ↦ [] | some u ↦ u.id ∷ [] ]) found

lt_of_get_elem? :
    (sinks : List SinkInfo) (i : ℕ) (s : SinkInfo) → get_elem? sinks i ≡ some s → i < length sinks
lt_of_get_elem? [] i s found = absurd (none-ne-some s found)
lt_of_get_elem? (t ∷ sinks) zero s found = omega arith
lt_of_get_elem? (t ∷ sinks) (suc i) s found = omega (arith, lt_of_get_elem? sinks i s found)

-- Each sink that is available is selected, alone, within as many turns among the same candidates as there
-- are sinks available, from whatever counter, so long as the counter does not wrap meanwhile.
pub select_round_robin-comes_round :
    (candidates : List SinkInfo) (counter i : ℕ) (s : SinkInfo)
    → get_elem? (available candidates) i ≡ some s
    → counter + length (available candidates) < 2 ^ 64
    → (k : ℕ) × (k < length (available candidates))
      × ((select_round_robin candidates (after_turns candidates k counter)).0 ≡ s.id ∷ [])
unfolding select_round_robin
select_round_robin-comes_round candidates counter i s found small =
    let within = lt_of_get_elem? (available candidates) i s found in
    let (k, k_lt, there) = turn_of (length (available candidates)) i counter within in
    (
      k,
      k_lt,
      ap (id_mod (available candidates)) (
            after_turns-eq-add candidates k counter (omega (arith, within))
              (omega (arith, k_lt, small)))
          ∙ id_mod-get_elem? (available candidates) i (counter + k) s found there,
    )
