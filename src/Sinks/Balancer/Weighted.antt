-- ===== src/Sinks/Balancer/Weighted.antt =====
-- `WeightedRoundRobinBalancer`: over one full turn of the counter each sink is chosen as often as its
-- weight says.
use Prim.Native.String.{String}
use native.Mathlib.Nat.{mod-add-mod, mod-eq_of_lt}
use ipb.Base.{
  ℕ, zero, suc, ◌+◌, ◌%◌, ◌^◌, ◌≤◌, ◌<◌, ◌≡◌, refl, List, [], ◌∷◌, ◌++◌, replicate, arith,
}
use ipb.Sinks.Info.{SinkInfo, available}
use ipb.Sinks.Balancer.{total_weight, pick_weighted, weighted_among, select_weighted}

-- The sum of the weights, which does not wrap.
unfoldable pub weights : List SinkInfo → ℕ
weights [] = 0
weights (s ∷ sinks) = s.weight + weights sinks

total_weight-eq-weights :
    (sinks : List SinkInfo) → weights sinks < 2 ^ 64 → total_weight sinks ≡ weights sinks
unfolding total_weight weights
total_weight-eq-weights [] h = refl
total_weight-eq-weights (s ∷ sinks) h = omega (arith, total_weight-eq-weights sinks (omega arith))

-- The ids of one turn, each as often as the weight says.
pub turn : List SinkInfo → List String
turn [] = []
turn (s ∷ sinks) = replicate s.weight s.id ++ turn sinks

-- `n` targets from `t` on.
targets : ℕ → ℕ → ℕ → String → List SinkInfo → List String
targets zero t base last sinks = []
targets (suc n) t base last sinks =
    pick_weighted t base last sinks ∷ targets n (t + 1) base last sinks

-- Targets in the block of the first sink.
targets_head :
    (n t base : ℕ) (last : String) (s : SinkInfo) (sinks : List SinkInfo)
    → base + s.weight < 2 ^ 64
    → t + n ≤ base + s.weight
    → targets n t base last (s ∷ sinks) ≡ replicate n s.id
unfolding targets pick_weighted
targets_head zero t base last s sinks h k = refl
targets_head (suc n) t base last s sinks h k =
    ground (arith, targets_head n (t + 1) base last s sinks h (omega arith))

-- Targets beyond it are looked up in the rest.
targets_tail :
    (n t base : ℕ) (last : String) (s : SinkInfo) (sinks : List SinkInfo)
    → base + s.weight < 2 ^ 64
    → base + s.weight ≤ t
    → targets n t base last (s ∷ sinks) ≡ targets n t (base + s.weight) s.id sinks
unfolding targets pick_weighted
targets_tail zero t base last s sinks h k = refl
targets_tail (suc n) t base last s sinks h k =
    ground (arith, targets_tail n (t + 1) base last s sinks h (omega arith))

targets-add :
    (m n t base : ℕ) (last : String) (sinks : List SinkInfo)
    → targets (m + n) t base last sinks
      ≡ targets m t base last sinks ++ targets n (t + m) base last sinks
unfolding targets
targets-add zero n t base last sinks =
    let left : 0 + n ≡ n = omega arith in let right : t + 0 ≡ t = omega arith in rw (left, right)
targets-add (suc m) n t base last sinks =
    let left : suc m + n ≡ suc (m + n) = omega arith in
    let right : t + suc m ≡ t + 1 + m = omega arith in
    rw (left, right, targets-add m n (t + 1) base last sinks)

targets-turn :
    (sinks : List SinkInfo) (base : ℕ) (last : String)
    → base + weights sinks < 2 ^ 64
    → targets (weights sinks) base base last sinks ≡ turn sinks
unfolding weights turn
targets-turn [] base last h = unfold targets in refl
targets-turn (s ∷ sinks) base last h = rw (
  targets-add s.weight (weights sinks) base base last (s ∷ sinks),
  targets_head s.weight base base last s sinks (omega arith) (omega arith),
  targets_tail (weights sinks) (base + s.weight) base last s sinks (omega arith) (omega arith),
  targets-turn sinks (base + s.weight) s.id (omega arith),
)

-- The results of `n` calls in a row, from a counter on.
pub calls : ℕ → ℕ → List SinkInfo → List (List String)
calls zero counter c = []
calls (suc n) counter c = (select_weighted c counter).0 ∷ calls n (select_weighted c counter).1 c

mod_turn : (k t w : ℕ) → k % w ≡ 0 → t < w → (k + t) % w ≡ t
mod_turn k t w h lt =
    let zero_add : 0 + t ≡ t = omega arith in
    rw (← mod-add-mod k w t, h, zero_add) (mod-eq_of_lt lt)

abbrev pub singly : List String → List (List String)
singly [] = []
singly (id ∷ rest) = (id ∷ []) ∷ singly rest

weighted_among_pos :
    (s : SinkInfo) (sinks : List SinkInfo) (w counter : ℕ)
    → 0 < w
    → weighted_among (s ∷ sinks) w counter
      ≡ (pick_weighted (counter % w) 0 s.id (s ∷ sinks) ∷ [], (counter + 1) % 2 ^ 64)
weighted_among_pos s sinks zero counter h = absurd (omega arith)
weighted_among_pos s sinks (suc w) counter h = refl

select_weighted_lem :
    (c : List SinkInfo) (k : ℕ)
    → select_weighted c k ≡ weighted_among (available c) (total_weight (available c)) k
unfolding select_weighted
select_weighted_lem c k = refl

module _ (c : List SinkInfo) (s : SinkInfo) (sinks : List SinkInfo) (e : available c ≡ s ∷ sinks)
    (k : ℕ) (h : weights (s ∷ sinks) < 2 ^ 64) (aligned : k % weights (s ∷ sinks) ≡ 0)
    (small : k + weights (s ∷ sinks) < 2 ^ 64) where
  one_call :
      (t : ℕ)
      → t < weights (s ∷ sinks)
      → select_weighted c (k + t) ≡ (pick_weighted t 0 s.id (s ∷ sinks) ∷ [], k + (t + 1))
  one_call t lt =
      let advance : (k + t + 1) % 2 ^ 64 ≡ k + (t + 1) = omega arith in
      rw (
        select_weighted_lem c (k + t),
        e,
        total_weight-eq-weights (s ∷ sinks) h,
        weighted_among_pos s sinks (weights (s ∷ sinks)) (k + t) (omega arith),
        mod_turn k t (weights (s ∷ sinks)) aligned lt,
        advance,
      )

  calls-targets :
      (n t : ℕ)
      → t + n ≤ weights (s ∷ sinks)
      → calls n (k + t) c ≡ singly (targets n t 0 s.id (s ∷ sinks))
  unfolding calls targets
  calls-targets zero t b = refl
  calls-targets (suc n) t b = rw (one_call t (omega arith), calls-targets n (t + 1) (omega arith))

-- From a counter that is a multiple of the total weight, and that does not wrap before the next
-- multiple, one full turn of calls returns each available sink in order, in a block of as many calls
-- as its weight; the total weight is below 2^64.
pub calls-turn :
    (c : List SinkInfo) (k : ℕ)
    → weights (available c) < 2 ^ 64
    → k % weights (available c) ≡ 0
    → k + weights (available c) < 2 ^ 64
    → calls (weights (available c)) k c ≡ singly (turn (available c))
calls-turn c k h aligned small = go (available c) refl h aligned small
  where
    go :
        (l : List SinkInfo)
        → available c ≡ l
        → weights l < 2 ^ 64
        → k % weights l ≡ 0
        → k + weights l < 2 ^ 64
        → calls (weights l) k c ≡ singly (turn l)
    go [] e h aligned small = unfold weights turn calls in refl
    go (s ∷ sinks) e h aligned small =
        let start : k + 0 ≡ k = omega arith in
        let run =
          calls-targets c s sinks e k h aligned small (weights (s ∷ sinks)) 0 (omega arith) in
        rw (targets-turn (s ∷ sinks) 0 s.id (omega arith), start) at run
